-- ===== src/Remediation/Rollback/Proposed.antt =====
-- What a proposal of internal/remediation/remediation.go returned.
use rootmote_agent.Prelude.{
  ◌≡◌, sym, ap, ◌∙◌, Bool, true, false, ◌||◌, not, Option, none, some, Text, text_beq_iff, text_eq,
  if◌then◌else◌, arith,
}
use rootmote_agent.Prelude.Maps.{lookup}
use rootmote_agent.Runbook.{Codec, Runbook, content_hash}
use rootmote_agent.Store.Ledger.{create_execution, insert_execution, defaulted}
use rootmote_agent.Store.Ledger.Statuses.{ExecutionKind, is_status, is_kind}
use rootmote_agent.Store.Ledger.Actions.{
  World, Execution, Action, ok, raise, invalid_status, invalid_kind, later, access, gets, ◌>>=◌,
  ◌>>◌, Time,
}
use rootmote_agent.Store.Ledger.Returns.{
  bind_returned, pure_returned, access_then_returned, unless_returned,
}
use rootmote_agent.Remediation.{propose_as, record_proposal}
use rootmote_agent.Remediation.Checks.{or_encoding_returned}

-- The second execution is for the runbook and the incident of the first.
abbrev SameContent : Execution → Execution → Type 0
SameContent e r =
    (r.incident_id ≡ e.incident_id)
    × (r.runbook_id ≡ e.runbook_id)
    × (r.runbook_hash ≡ e.runbook_hash)

three_equal :
    (a b c : Bool) → (not a || not b || not c) ≡ false → (a ≡ true) × (b ≡ true) × (c ≡ true)
three_equal a b c h = ground (arith)

insert_execution_returned :
    (e : Execution) (o : Option Execution) (w v : World) (r : Execution × Bool)
    → insert_execution e o w ≡ (ok r, v)
    → SameContent e r.0
insert_execution_returned e none w v r h =
    let (t, u, done, rest) = bind_returned _ _ w v r h in
    let (same, moved) = pure_returned _ u v r rest in
    (
      ap (λ (x : Execution × Bool). x.0.incident_id) (sym same),
      ap (λ (x : Execution × Bool). x.0.runbook_id) (sym same),
      ap (λ (x : Execution × Bool). x.0.runbook_hash) (sym same),
    )
insert_execution_returned e (some old) w v r h =
    let (existing, u, found, rest) = bind_returned _ _ w v r h in
    let (agrees, rest') = unless_returned _ _ _ u v r rest in
    let (same, moved) = pure_returned _ u v r rest' in
    let (a, b, c) = three_equal _ _ _ agrees in
    (
      ap (λ (x : Execution × Bool). x.0.incident_id) (sym same) ∙ (text_beq_iff _ _).0 a,
      ap (λ (x : Execution × Bool). x.0.runbook_id) (sym same) ∙ (text_beq_iff _ _).0 b,
      ap (λ (x : Execution × Bool). x.0.runbook_hash) (sym same) ∙ (text_beq_iff _ _).0 c,
    )

create_execution_returned :
    (now : Time) (e : Execution) (w v : World) (r : Execution × Bool)
    → create_execution now e w ≡ (ok r, v)
    → SameContent e r.0
unfolding create_execution ◌>>=◌ gets
create_execution_returned now e w v r h =
    let e' = defaulted e now in
    let inserted : Action (Execution × Bool) =
      gets (λ x. lookup e'.id x.executions) >>= insert_execution e' in
    let kinds : Action (Execution × Bool) =
      if not (is_kind e'.kind) then raise invalid_kind else (access >> inserted) in
    let (a, rest) = unless_returned (not (is_status e'.status)) invalid_status kinds w v r h in
    let (b, rest') =
      unless_returned (not (is_kind e'.kind)) invalid_kind (access >> inserted) w v r rest in
    let later_on : World = record w { failures = later w.failures } in
    insert_execution_returned e' (lookup e'.id w.executions) later_on v r
      (access_then_returned inserted w v r rest')

record_proposal_returned :
    (rb : Runbook) (now : Time) (id : Text) (exec : Execution) (created : Bool) (w v : World)
    (e : Execution)
    → record_proposal rb now id exec created w ≡ (ok e, v)
    → exec ≡ e
record_proposal_returned rb now id exec false w v e h = (pure_returned exec w v e h).0
record_proposal_returned rb now id exec true w v e h =
    let (a, w1, p, rest) = bind_returned _ _ w v e h in
    let (b, w2, q, rest2) = bind_returned _ _ w1 v e rest in
    let (c, w3, s, rest3) = bind_returned _ _ w2 v e rest2 in (pure_returned exec w3 v e rest3).0

-- The execution that a proposal returned is for the runbook that was proposed, by its hash.
pub propose_as_returned :
    (codec : Codec) (now : Time) (id incident : Text) (rb : Runbook) (kind : ExecutionKind)
    (parent : Text) (w v : World) (e : Execution)
    → propose_as codec now id incident rb kind parent w ≡ (ok e, v)
    → (content_hash codec rb ≡ some e.runbook_hash)
      × (e.runbook_id ≡ rb.id)
      × (e.incident_id ≡ incident)
unfolding propose_as
propose_as_returned codec now id incident rb kind parent w v e h =
    let (hash, w1, p, rest) = bind_returned _ _ w v e h in
    let (content, w2, q, rest2) = bind_returned _ _ w1 v e rest in
    let (found, w3, a, rest3) = bind_returned _ _ w2 v e rest2 in
    let (t, w4, b, rest4) = bind_returned _ _ w3 v e rest3 in
    let (r, w5, c, rest5) = bind_returned _ _ w4 v e rest4 in
    let (of_incident, of_runbook, of_hash) = create_execution_returned now _ w4 w5 r c in
    let same = record_proposal_returned rb now id r.0 r.1 w5 v e rest5 in
    let (hashed, moved) = or_encoding_returned _ w w1 hash p in
    (
      hashed ∙ ap (λ x. some x) (sym of_hash ∙ ap (λ (x : Execution). x.runbook_hash) same),
      ap (λ (x : Execution). x.runbook_id) (sym same) ∙ of_runbook,
      ap (λ (x : Execution). x.incident_id) (sym same) ∙ of_incident,
    )
