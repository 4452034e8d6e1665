-- ===== src/Remediation/Rollback/Derived.antt =====
-- What was true where a rollback was derived (internal/remediation/remediation.go).
use rootmote_agent.Prelude.{
  ◌≡◌, ◌≢◌, ◌⊎◌, inl, inr, refl, sym, ap, ◌∙◌, Bool, true, false, not, some, List, [], ◌∷◌, keep,
  Text, text_eq, arith,
}
use mathlib.Core.Path.{subst}
use mathlib.Core.List.{reverse}
use rootmote_agent.Prelude.Maps.{lookup}
use rootmote_agent.Runbook.{Codec, Step, Runbook, content_hash}
use rootmote_agent.Store.Ledger.{get_runbook, remediation_events_after, select_events_after}
use rootmote_agent.Store.Ledger.Statuses.{Status, verifying, resolved, remediation_failed, rollback}
use rootmote_agent.Store.Ledger.Actions.{
  World, Execution, RunbookRow, Event, Action, Error, ok, pure, later, gets, ◌>>=◌, ◌>>◌, Time,
  invalid_state, no_rollback_plan, rollback_unsupported,
}
use rootmote_agent.Store.Ledger.Returns.{
  Read, Read-trans, bind_returned, get_execution_returned, get_runbook_returned,
  access_then_returned, pure_returned,
}
use rootmote_agent.Remediation.{or_encoding, refuse_if, propose_as}
use rootmote_agent.Remediation.Checks.{refuse_if_returned, or_encoding_returned}
use rootmote_agent.Remediation.Rollback.Undoing.{
  has_opposite, AllReverted, invert_steps-AllReverted,
}
use rootmote_agent.Remediation.Rollback.Succeeded.{Succeeded, successes-Succeeded}
use rootmote_agent.Remediation.Rollback.Proposed.{propose_as_returned}
use rootmote_agent.Remediation.Rollback.{
  derive_rollback, rollback_execution_id, rollback_runbook, successful_steps, successes,
  invert_steps, has_run, is_nil,
}

-- A parent that ran, with a plan for going back; the steps that its events record as successes; the
-- runbook that undoes them; and the execution that was proposed for it.
pub record Derived (codec : Codec) (id : Text) (e : Execution) (w : World) : Type 0 where
  pub parent : Execution
  pub found : lookup id w.executions ≡ some parent
  pub ran :
      (parent.status ≡ verifying)
      ⊎ ((parent.status ≡ resolved) ⊎ (parent.status ≡ remediation_failed))
  pub row : RunbookRow
  pub found_row : lookup parent.runbook_id w.runbooks ≡ some row
  pub runbook : Runbook
  pub decoded : codec.decode row.content ≡ some runbook
  pub has_plan : runbook.rollback ≢ []
  pub done : List Step
  pub succeeded : Succeeded runbook.steps id w.events done
  pub undoing : Runbook
  pub reverted : AllReverted (reverse (keep (λ s. has_opposite s.kind) done)) undoing.steps
  pub some_step : undoing.steps ≢ []
  pub hashed : content_hash codec undoing ≡ some e.runbook_hash
  pub of_runbook : e.runbook_id ≡ undoing.id
  pub of_incident : e.incident_id ≡ parent.incident_id

has_run-cases :
    (s : Status) → has_run s ≡ true → (s ≡ verifying) ⊎ ((s ≡ resolved) ⊎ (s ≡ remediation_failed))
has_run-cases verifying h = inl refl
has_run-cases resolved h = inr (inl refl)
has_run-cases remediation_failed h = inr (inr refl)
has_run-cases _ h = absurd (ground (arith, h))

is_nil-false : {A : Type 0} (list : List A) → is_nil list ≡ false → list ≢ []
is_nil-false [] h e = absurd (ground (arith, h))
is_nil-false (x ∷ xs) h e = absurd (ground (arith, e))

gets_returned :
    {A : Type 0} (f : World → A) (w v : World) (a : A) → gets f w ≡ (ok a, v) → (f w ≡ a) × (w ≡ v)
unfolding gets
gets_returned f w v a h = ground (arith)

events_after_returned :
    (id : Text) (w v : World) (events : List Event)
    → remediation_events_after id 0 w ≡ (ok events, v)
    → (select_events_after id 0 w.events ≡ events) × Read w v
unfolding remediation_events_after
events_after_returned id w v events h =
    let (same, moved) = gets_returned _ _ v events (access_then_returned _ w v events h) in
    (same, (later w.failures, sym moved))

successful_steps_returned :
    (id : Text) (list : List Step) (w v : World) (done : List Step)
    → successful_steps id list w ≡ (ok done, v)
    → (done ≡ successes list (select_events_after id 0 w.events)) × Read w v
unfolding successful_steps
successful_steps_returned id list w v done h = after (bind_returned _ _ w v done h)
  where
    after :
        (events : List Event) × (u : World) × (remediation_events_after id 0 w ≡ (ok events, u))
          × (pure (successes list events) u ≡ (ok done, v))
        → (done ≡ successes list (select_events_after id 0 w.events)) × Read w v
    after (events, u, r, rest) =
        let (same, read) = events_after_returned id w u events r in
        let (result, moved) = pure_returned _ u v done rest in
        (sym result ∙ ap (successes list) (sym same), subst (λ x. Read w x) moved read)

refuse_then_returned :
    {A : Type 0} (b : Bool) (err : Error) (k : Action A) (w v : World) (a : A)
    → (refuse_if b err >> k) w ≡ (ok a, v)
    → (b ≡ false) × (k w ≡ (ok a, v))
refuse_then_returned b err k w v a h = after (bind_returned _ _ w v a h)
  where
    after :
        (t : Unit {0}) × (u : World) × (refuse_if b err w ≡ (ok t, u)) × (k u ≡ (ok a, v))
        → (b ≡ false) × (k w ≡ (ok a, v))
    after (_, u, r, rest) =
        let (off, same) = refuse_if_returned b err w u r in
        (off, subst (λ x. k x ≡ (ok a, v)) (sym same) rest)

module _ (codec : Codec) (now : Time) (id : Text) (e : Execution) (v : World) where
  abbrev suggest : Execution → Runbook → List Step → Action Execution
  suggest parent rb done =
      propose_as codec now (rollback_execution_id id) parent.incident_id
        (rollback_runbook rb (invert_steps done)) rollback id

  abbrev with_done : Execution → Runbook → List Step → Action Execution
  with_done parent rb done = do
    refuse_if (is_nil done) no_rollback_plan
    refuse_if (is_nil (invert_steps done).0) rollback_unsupported
    suggest parent rb done

  abbrev with_runbook : Execution → Runbook → Action Execution
  with_runbook parent rb = do
    refuse_if (is_nil rb.rollback) no_rollback_plan
    done ← successful_steps id rb.steps
    with_done parent rb done

  abbrev with_row : Execution → RunbookRow → Action Execution
  with_row parent row = do rb ← or_encoding (codec.decode row.content); with_runbook parent rb

  abbrev with_parent : Execution → Action Execution
  with_parent parent = do
    refuse_if (not (has_run parent.status)) invalid_state
    row ← get_runbook parent.runbook_id
    with_row parent row

  -- From the runbook on.
  runbook_returned :
      (parent : Execution) (rb : Runbook) (u : World)
      → with_runbook parent rb u ≡ (ok e, v)
      → (done : List Step) × (before : World) × (done
          ≡ successes rb.steps (select_events_after id 0 u.events))
        × Read u before
        × (is_nil rb.rollback ≡ false)
        × (is_nil done ≡ false)
        × (is_nil (invert_steps done).0 ≡ false)
        × (suggest parent rb done before ≡ (ok e, v))
  runbook_returned parent rb u h =
      let (has_plan, rest) = refuse_then_returned _ _ _ u v e h in
      let (done, before, r, rest') = bind_returned _ _ u v e rest in
      let (same, read) = successful_steps_returned id rb.steps u before done r in
      let (some_done, rest2) = refuse_then_returned _ _ _ before v e rest' in
      let (some_undone, rest3) = refuse_then_returned _ _ _ before v e rest2 in
      (done, before, same, read, has_plan, some_done, some_undone, rest3)

  derived :
      (w u before : World) (parent : Execution) (row : RunbookRow) (rb : Runbook) (done : List Step)
      → lookup id w.executions ≡ some parent
      → has_run parent.status ≡ true
      → lookup parent.runbook_id w.runbooks ≡ some row
      → codec.decode row.content ≡ some rb
      → Read w u
      → (done ≡ successes rb.steps (select_events_after id 0 u.events))
        × Read u before
        × (is_nil rb.rollback ≡ false)
        × (is_nil done ≡ false)
        × (is_nil (invert_steps done).0 ≡ false)
        × (suggest parent rb done before ≡ (ok e, v))
      → Derived codec id e w
  unfolding rollback_runbook
  derived w u before parent row rb done found ran found_row decoded read
        (same, read', plan, some_done, undone, rest) =
      let at : done ≡ successes rb.steps (select_events_after id 0 w.events) =
        same ∙ ap (λ (x : World). successes rb.steps (select_events_after id 0 x.events)) read.1 in
      let all = successes rb.steps (select_events_after id 0 w.events) in
      let (hash, runbook_id, incident) =
        propose_as_returned codec now (rollback_execution_id id) parent.incident_id
          (rollback_runbook rb (invert_steps all)) rollback id before v e
          (subst (λ l. suggest parent rb l before ≡ (ok e, v)) at rest) in
      record {
        parent = parent;
        found = found;
        ran = has_run-cases parent.status ran;
        row = row;
        found_row = found_row;
        runbook = rb;
        decoded = decoded;
        has_plan = is_nil-false rb.rollback plan;
        done = all;
        succeeded = successes-Succeeded rb.steps id w.events;
        undoing = rollback_runbook rb (invert_steps all);
        reverted = invert_steps-AllReverted all;
        some_step =
            is_nil-false (invert_steps all).0
              (ap (λ l. is_nil (invert_steps l).0) (sym at) ∙ undone);
        hashed = hash;
        of_runbook = runbook_id;
        of_incident = incident;
      }

  parent_returned :
      (w u : World) (parent : Execution)
      → lookup id w.executions ≡ some parent
      → Read w u
      → with_parent parent u ≡ (ok e, v)
      → Derived codec id e w
  parent_returned w u parent found read h =
      let (has, rest) = refuse_then_returned _ _ _ u v e h in
      let (row, x, r, rest') = bind_returned _ _ u v e rest in
      let (found_row, read') = get_runbook_returned parent.runbook_id u x row r in
      let (rb, y, d, rest2) = bind_returned _ _ x v e rest' in
      let (decoded, same) = or_encoding_returned _ x y rb d in
      let (done, before, at, read2, plan, some_done, undone, last) =
        runbook_returned parent rb x
          (subst (λ z. with_runbook parent rb z ≡ (ok e, v)) (sym same) rest2) in
      derived w x before parent row rb done found (ground (arith, has))
        (ap (λ (z : World). lookup parent.runbook_id z.runbooks) (sym read.1) ∙ found_row) decoded
        (Read-trans w u x read read') (at, read2, plan, some_done, undone, last)

-- Where `derive_rollback` returned, the parent was being verified, resolved or failed, and its runbook
-- has a plan for going back; and the result is an execution for the parent's incident and, by its hash,
-- for a runbook whose steps, of which there is at least one, revert one by one, the last one first,
-- those steps with an opposite that the parent's events record as ended without an error and with
-- code 0.
pub derive_rollback_returned :
    (codec : Codec) (now : Time) (id : Text) (e : Execution) (w v : World)
    → derive_rollback codec now id w ≡ (ok e, v)
    → Derived codec id e w
unfolding derive_rollback
derive_rollback_returned codec now id e w v h =
    let (parent, u, r, rest) = bind_returned _ _ w v e h in
    let (found, read) = get_execution_returned id w u parent r in
    parent_returned codec now id e v w u parent found read rest
