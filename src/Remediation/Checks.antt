-- ===== src/Remediation/Checks.antt =====
-- The checks of internal/remediation/remediation.go before an approval or an execution, and the
-- validator of internal/server/remediation.go: what was true where they passed.
use rootmote_agent.Prelude.{
  ◌≡◌, refl, sym, ap, ◌∙◌, Bool, true, false, ◌||◌, not, Option, none, some, [], ◌∷◌, Text,
  text_beq, text_beq_iff, text_eq, arith,
}
use rootmote_agent.Prelude.Maps.{lookup}
use rootmote_agent.Runbook.{Codec, Runbook, content_hash}
use rootmote_agent.Watchtower.Queue.{is_empty}
use rootmote_agent.Store.Ledger.{get_execution, get_runbook}
use rootmote_agent.Store.Ledger.Actions.{
  World, Execution, RunbookRow, Error, ok, encoding, hash_mismatch, pure, ◌>>=◌, ◌>>◌, Time,
}
use rootmote_agent.Store.Ledger.Returns.{
  Read, bind_returned, raise_returned, pure_returned, get_execution_returned, get_runbook_returned,
}
use rootmote_agent.Review.{consume_token}
use rootmote_agent.Review.SingleUse.{Consumed, consume_token_returned}
use rootmote_agent.Remediation.{validate, validate_hash, token_binding, refuse_if, or_encoding}

pub refuse_if_returned :
    (b : Bool) (e : Error) (w v : World) → refuse_if b e w ≡ (ok tt, v) → (b ≡ false) × (w ≡ v)
refuse_if_returned true e w v h = absurd (raise_returned e w v tt h)
refuse_if_returned false e w v h = (refl, (pure_returned _ w v tt h).1)

pub or_encoding_returned :
    {A : Type 0} (o : Option A) (w v : World) (a : A)
    → or_encoding o w ≡ (ok a, v)
    → (o ≡ some a) × (w ≡ v)
or_encoding_returned none w v a h = absurd (raise_returned encoding w v a h)
or_encoding_returned (some x) w v a h = let (e, same) = pure_returned x w v a h in (ap some e, same)

-- The hash that was asked for is that of the execution, of the stored runbook, and of what the
-- stored runbook decodes to.
pub record HashChecked (codec : Codec) (exec : Execution) (requested : Text) (w : World)
    : Type 0 where
  pub row : RunbookRow
  pub runbook : Runbook
  pub found : lookup exec.runbook_id w.runbooks ≡ some row
  pub decoded : codec.decode row.content ≡ some runbook
  pub asked : requested ≡ exec.runbook_hash
  pub kept : requested ≡ row.content_hash
  pub recomputed : content_hash codec runbook ≡ some requested

pub HashChecked-Read :
    (codec : Codec) (exec : Execution) (requested : Text) (w u : World)
    → Read w u
    → HashChecked codec exec requested u
    → HashChecked codec exec requested w
HashChecked-Read codec exec requested w u (fs, same) c = record {
  row = c.row;
  runbook = c.runbook;
  found = ap (λ y. lookup exec.runbook_id y.runbooks) (sym same) ∙ c.found;
  decoded = c.decoded;
  asked = c.asked;
  kept = c.kept;
  recomputed = c.recomputed;
}

pub validate_hash_returned :
    (codec : Codec) (exec : Execution) (requested : Text) (w v : World)
    → validate_hash codec exec requested w ≡ (ok tt, v)
    → HashChecked codec exec requested w × Read w v
unfolding validate_hash
validate_hash_returned codec exec requested w v h = with_row (bind_returned _ _ w v tt h)
  where
    Success : Type 0
    Success = HashChecked codec exec requested w × Read w v

    mismatch : RunbookRow → Text → Bool
    mismatch row recomputed =
        is_empty requested
        || not (text_beq requested exec.runbook_hash)
        || not (text_beq requested row.content_hash)
        || not (text_beq requested recomputed)

    decided :
        (row : RunbookRow) (rb : Runbook) (recomputed : Text) (x : World)
        → lookup exec.runbook_id w.runbooks ≡ some row
        → codec.decode row.content ≡ some rb
        → content_hash codec rb ≡ some recomputed
        → Read w x
        → (mismatch row recomputed ≡ false) × (x ≡ v)
        → Success
    decided row rb recomputed x found decoded hashed same (matches, e) =
        let asked : requested ≡ exec.runbook_hash =
          ground (arith, matches, text_beq_iff requested exec.runbook_hash) in
        let kept : requested ≡ row.content_hash =
          ground (arith, matches, text_beq_iff requested row.content_hash) in
        let again : requested ≡ recomputed =
          ground (arith, matches, text_beq_iff requested recomputed) in
        (
          record {
            row = row;
            runbook = rb;
            found = found;
            decoded = decoded;
            asked = asked;
            kept = kept;
            recomputed = hashed ∙ ap some (sym again);
          },
          rw e at same,
        )

    with_hash :
        (row : RunbookRow) (rb : Runbook) (u : World)
        → lookup exec.runbook_id w.runbooks ≡ some row
        → codec.decode row.content ≡ some rb
        → Read w u
        → (recomputed : Text) × (x : World) × (or_encoding (content_hash codec rb) u
            ≡ (ok recomputed, x))
          × (refuse_if (mismatch row recomputed) hash_mismatch x ≡ (ok tt, v))
        → Success
    with_hash row rb u found decoded same (recomputed, x, e, rest) =
        let (hashed, f) = or_encoding_returned _ u x recomputed e in
        let (matches, g) = refuse_if_returned (mismatch row recomputed) hash_mismatch x v rest in
        decided row rb recomputed x found decoded hashed (rw f at same) (matches, g)

    with_content :
        (row : RunbookRow) (u : World)
        → (lookup exec.runbook_id w.runbooks ≡ some row) × Read w u
        → (rb : Runbook) × (x : World) × (or_encoding (codec.decode row.content) u ≡ (ok rb, x))
          × ((or_encoding (content_hash codec rb) >>= λ recomputed.
                  refuse_if (mismatch row recomputed) hash_mismatch)
                x
              ≡ (ok tt, v))
        → Success
    with_content row u (found, same) (rb, x, e, rest) =
        let (decoded, f) = or_encoding_returned _ u x rb e in
        with_hash row rb x found decoded (rw f at same) (bind_returned _ _ x v tt rest)

    with_row :
        (row : RunbookRow) × (u : World) × (get_runbook exec.runbook_id w ≡ (ok row, u))
          × ((or_encoding (codec.decode row.content) >>= λ decoded.
                  or_encoding (content_hash codec decoded) >>= λ recomputed.
                  refuse_if (mismatch row recomputed) hash_mismatch)
                u
              ≡ (ok tt, v))
        → Success
    with_row (row, u, g, rest) =
        with_content row u (get_runbook_returned exec.runbook_id w u row g)
          (bind_returned _ _ u v tt rest)

-- The token that approving the execution takes is bound to it and to the hash.
abbrev pub TokenUsed : Codec → Time → Text → Execution → Text → World → World → Type 0
TokenUsed codec now token exec requested w v =
    let binding = token_binding exec.kind exec.incident_id in
    Consumed codec.sha256 now token binding.0 binding.1 (requested ∷ []) [] w v

pub validate_returned :
    (codec : Codec) (now : Time) (token id requested digest : Text) (exec : Execution) (w v : World)
    → lookup id w.executions ≡ some exec
    → validate codec now token id requested w ≡ (ok digest, v)
    → (u : World) × Read w u × TokenUsed codec now token exec requested u v
unfolding validate
validate_returned codec now token id requested digest exec w v here h =
    with_row (bind_returned _ _ w v digest h)
  where
    with_row :
        (e : Execution) × (u : World) × (get_execution id w ≡ (ok e, u))
          × ((consume_token codec.sha256 now token
                    (token_binding e.kind e.incident_id).0
                    (token_binding e.kind e.incident_id).1
                    (requested ∷ [])
                    []
                  >> pure (codec.sha256 token))
                u
              ≡ (ok digest, v))
        → (u : World) × Read w u × TokenUsed codec now token exec requested u v
    with_row (e, u, g, rest) =
        let (found, same) = get_execution_returned id w u e g in
        let e-exec : e ≡ exec = ground (arith, found, here) in
        with_token u same (bind_returned _ _ u v digest (rw e-exec at rest))
      where
        with_token :
            (u : World)
            → Read w u
            → (t : Unit {0}) × (x : World) × (consume_token codec.sha256 now token
                  (token_binding exec.kind exec.incident_id).0
                  (token_binding exec.kind exec.incident_id).1
                  (requested ∷ [])
                  []
                  u
                ≡ (ok t, x))
              × (pure (codec.sha256 token) x ≡ (ok digest, v))
            → (u : World) × Read w u × TokenUsed codec now token exec requested u v
        with_token u same (_, x, consumed, done) =
            let x-v : x ≡ v = (pure_returned _ x v digest done).1 in
            (
              u,
              same,
              consume_token_returned codec.sha256 now token _ _ _ _ u v (rw x-v at consumed),
            )
