-- ===== src/Remediation/Recorded.antt =====
-- The transitions of internal/remediation/remediation.go with their audit rows and events.
use rootmote_agent.Prelude.{◌≡◌, refl, ap, ◌∙◌, Bool, some, List, Text, text_eq}
use rootmote_agent.Prelude.Maps.{lookup, insert, lookup-insert_self}
use rootmote_agent.Store.Ledger.Statuses.{Status}
use rootmote_agent.Store.Ledger.{transition_execution, stored}
use rootmote_agent.Store.Ledger.Actions.{World, Execution, Action, ok, pure, ◌>>◌, Time}
use rootmote_agent.Store.Ledger.Returns.{bind_returned, transition_execution_returned}
use rootmote_agent.Store.Ledger.{append_audit, append_remediation_event}
use rootmote_agent.Store.Ledger.Actions.{access, modify, Payload, labelled}
use rootmote_agent.Store.Ledger.Relates.{
  IsPreorder, Relates, Relates-pure, Relates-gets, Relates-bind,
}
use rootmote_agent.Remediation.{transition_recorded, audit_for, append_event, moved_to}

-- The executions are the same.
abbrev SameExecutions : World → World → Type 0
SameExecutions w v = v.executions ≡ w.executions

SameExecutions-preorder : IsPreorder SameExecutions
SameExecutions-preorder = record { refl = λ w. refl; trans = λ p q. q ∙ p }

access-SameExecutions : Relates SameExecutions access
unfolding access
access-SameExecutions = record { at = λ w. refl }

modify-SameExecutions :
    (f : World → World)
    → ((w : World) → (f w).executions ≡ w.executions)
    → Relates SameExecutions (modify f)
unfolding modify
modify-SameExecutions f h = record { at = h }

audit_for-SameExecutions :
    (e : Execution) (t : Text) (now : Time) → Relates SameExecutions (audit_for e t now)
unfolding audit_for append_audit
audit_for-SameExecutions e t now =
    Relates-bind SameExecutions-preorder _ _ access-SameExecutions
      (λ _. modify-SameExecutions _ (λ w. refl))

append_event-SameExecutions :
    (id : Text) (p : Payload) (now : Time) → Relates SameExecutions (append_event id p now)
unfolding append_event append_remediation_event
append_event-SameExecutions id p now =
    Relates-bind SameExecutions-preorder _ _ access-SameExecutions (λ _.
      Relates-bind SameExecutions-preorder _ _ (Relates-gets SameExecutions-preorder _) (λ last.
        Relates-bind SameExecutions-preorder _ _ (modify-SameExecutions _ (λ w. refl))
          (λ _. Relates-pure SameExecutions-preorder _)))

-- A transition that was recorded left the row in the status it moved to.
pub transition_recorded_returned :
    (id : Text) (exec e : Execution) (from to : Status) (audited announced : Text) (now : Time)
    (w v : World)
    → transition_recorded id exec from to audited announced now w ≡ (ok e, v)
    → (row : Execution) × (lookup id v.executions ≡ some row) × (row.status ≡ to)
transition_recorded_returned id exec e from to audited announced now w v h =
    moved (bind_returned _ _ w v e h)
  where
    recording : Action Execution
    recording = do
      audit_for (moved_to exec to now) audited now
      append_event id (labelled announced) now
      pure (moved_to exec to now)

    recording-SameExecutions : Relates SameExecutions recording
    recording-SameExecutions =
        Relates-bind SameExecutions-preorder _ _ (audit_for-SameExecutions _ audited now) (λ _.
          Relates-bind SameExecutions-preorder _ _ (append_event-SameExecutions id _ now)
            (λ _. Relates-pure SameExecutions-preorder _))

    Moved : Type 0
    Moved = (row : Execution) × (lookup id v.executions ≡ some row) × (row.status ≡ to)

    written :
        (x : World)
        → (v.executions ≡ x.executions)
        → (d : Execution) × (lookup id w.executions ≡ some d)
          × (d.status ≡ from)
          × ((fs : List Bool) × (x ≡ record w {
            executions = insert id (record d { status = to; updated_at = stored now }) w.executions;
            failures = fs;
          }))
        → Moved
    written x same (d, _, _, (fs, e)) = (
      record d { status = to; updated_at = stored now },
      ap (lookup id) (same ∙ ap (λ u. u.executions) e)
          ∙ lookup-insert_self id (record d { status = to; updated_at = stored now }) w.executions,
      refl,
    )

    moved :
        (t : Unit {0}) × (x : World) × (transition_execution id from to now w ≡ (ok t, x))
          × (recording x ≡ (ok e, v))
        → Moved
    moved (_, x, t, rest) =
        written x (rw rest at (recording-SameExecutions.at x))
          (transition_execution_returned id from to now w x t)
