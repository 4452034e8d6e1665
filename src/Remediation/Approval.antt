-- ===== src/Remediation/Approval.antt =====
-- Approval (internal/remediation/remediation.go): what was true where an execution was approved.
use rootmote_agent.Prelude.{◌≡◌, not, some, Text, codes, text_eq, arith}
use rootmote_agent.Prelude.Maps.{lookup}
use rootmote_agent.Runbook.{Codec}
use rootmote_agent.Store.Ledger.Statuses.{
  proposed, approved, blocked_l3, status_beq, status_beq_iff,
}
use rootmote_agent.Store.Ledger.{get_execution}
use rootmote_agent.Store.Ledger.Actions.{
  World, Execution, Action, ok, invalid_state, refused_l3, ◌>>=◌, Time,
}
use rootmote_agent.Store.Ledger.Returns.{Read, Read-trans, bind_returned, get_execution_returned}
use rootmote_agent.Remediation.{approve, validate, validate_hash, refuse_if, transition_recorded}
use rootmote_agent.Remediation.Checks.{
  refuse_if_returned, HashChecked, HashChecked-Read, validate_hash_returned, TokenUsed,
  validate_returned,
}
use rootmote_agent.Remediation.Recorded.{transition_recorded_returned}

-- What was true of an execution that was approved, and of the token that approved it.
pub record Approved (codec : Codec) (now : Time) (id requested token : Text) (w v : World)
    : Type 0 where
  pub exec : Execution
  pub found : lookup id w.executions ≡ some exec
  pub was_proposed : exec.status ≡ proposed
  pub hash : HashChecked codec exec requested w
  pub before_token : World
  pub after_token : World
  pub only_read : Read w before_token
  pub token_used : TokenUsed codec now token exec requested before_token after_token
  pub row_after : Execution
  pub found_after : lookup id v.executions ≡ some row_after
  pub is_approved : row_after.status ≡ approved

-- Where `approve` returned, the execution was proposed, the hash asked for was that of the
-- execution, of the stored runbook and of its content, the token was stored, unused, not expired
-- and bound to this execution's action, project and hash, and the execution is approved.
pub approve_returned :
    (codec : Codec) (now : Time) (id requested token : Text) (e : Execution) (w v : World)
    → approve codec now id requested token w ≡ (ok e, v)
    → Approved codec now id requested token w v
unfolding approve
approve_returned codec now id requested token e w v h = with_row (bind_returned _ _ w v e h)
  where
    Success : Type 0
    Success = Approved codec now id requested token w v

    last_part : Execution → Action Execution
    last_part exec =
        transition_recorded id exec proposed approved (codes "remediation.approved")
          (codes "runbook_approved") now

    with_token :
        (exec : Execution) (u : World)
        → lookup id w.executions ≡ some exec
        → exec.status ≡ proposed
        → HashChecked codec exec requested w
        → Read w u
        → (digest : Text) × (x : World) × (validate codec now token id requested u ≡ (ok digest, x))
          × (last_part exec x ≡ (ok e, v))
        → Success
    with_token exec u found was hash (fs, same) (digest, x, a, rest) =
        let (y, (gs, same'), used) =
          validate_returned codec now token id requested digest exec u x (rw same found) a in
        let (row, after, status) = transition_recorded_returned id exec e _ _ _ _ now x v rest in
        record {
          exec = exec;
          found = found;
          was_proposed = was;
          hash = hash;
          before_token = y;
          after_token = x;
          only_read = Read-trans w u y (fs, same) (gs, same');
          token_used = used;
          row_after = row;
          found_after = after;
          is_approved = status;
        }

    with_hash :
        (exec : Execution) (u : World)
        → lookup id w.executions ≡ some exec
        → exec.status ≡ proposed
        → Read w u
        → (t : Unit {0}) × (x : World) × (validate_hash codec exec requested u ≡ (ok t, x))
          × ((validate codec now token id requested >>= λ _. last_part exec) x ≡ (ok e, v))
        → Success
    with_hash exec u found was same (_, x, a, rest) =
        let (hash, same') = validate_hash_returned codec exec requested u x a in
        with_token exec x found was (HashChecked-Read codec exec requested w u same hash)
          (Read-trans w u x same same') (bind_returned _ _ x v e rest)

    with_status :
        (exec : Execution) (u : World)
        → (lookup id w.executions ≡ some exec) × Read w u
        → (t : Unit {0}) × (x : World) × (refuse_if
              (not (status_beq exec.status proposed))
              invalid_state
              u
            ≡ (ok t, x))
          × ((validate_hash codec exec requested >>= λ _.
                  validate codec now token id requested >>= λ _. last_part exec)
                x
              ≡ (ok e, v))
        → Success
    with_status exec u (found, same) (_, x, a, rest) =
        let (is, f) = refuse_if_returned _ invalid_state u x a in
        let was : exec.status ≡ proposed =
          ground (arith, is, status_beq_iff exec.status proposed) in
        with_hash exec x found was (rw f at same) (bind_returned _ _ x v e rest)

    with_row :
        (exec : Execution) × (u : World) × (get_execution id w ≡ (ok exec, u))
          × ((refuse_if (status_beq exec.status blocked_l3) refused_l3 >>= λ _.
                  refuse_if (not (status_beq exec.status proposed)) invalid_state >>= λ _.
                  validate_hash codec exec requested >>= λ _.
                  validate codec now token id requested >>= λ _. last_part exec)
                u
              ≡ (ok e, v))
        → Success
    with_row (exec, u, g, rest) = unblocked (bind_returned _ _ u v e rest)
      where
        unblocked :
            (t : Unit {0}) × (x : World) × (refuse_if
                  (status_beq exec.status blocked_l3)
                  refused_l3
                  u
                ≡ (ok t, x))
              × ((refuse_if (not (status_beq exec.status proposed)) invalid_state >>= λ _.
                      validate_hash codec exec requested >>= λ _.
                      validate codec now token id requested >>= λ _. last_part exec)
                    x
                  ≡ (ok e, v))
            → Success
        unblocked (_, x, a, rest) =
            let (_, f) = refuse_if_returned _ refused_l3 u x a in
            let (found, same) = get_execution_returned id w u exec g in
            with_status exec x (found, rw f at same) (bind_returned _ _ x v e rest)
