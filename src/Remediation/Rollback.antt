-- ===== src/Remediation/Rollback.antt =====
-- `DeriveRollback` of internal/remediation/remediation.go: the runbook that undoes what a run did.
pub mod Undoing
pub mod Kept
pub mod Succeeded
pub mod Proposed
pub mod Derived
use rootmote_agent.Prelude.{
  ℕ, zero, suc, Bool, true, false, ◌&&◌, ◌||◌, not, Option, none, some, List, [], ◌∷◌, ◌++◌, Text,
  codes, get_elem?, if◌then◌else◌, map, exists,
}
use mathlib.Core.List.{reverse}
use rootmote_agent.Prelude.Int.{ℤ, pos, int_beq}
use rootmote_agent.Runbook.{Codec, Step, ManualStep, Runbook}
use rootmote_agent.Steps.Params.{Params, int_param}
use rootmote_agent.Steps.Catalog.{StepId, firewall_remove, undo_of}
use rootmote_agent.Steps.Runner.{command, verify_text}
use rootmote_agent.Store.Ledger.{get_execution, get_runbook, remediation_events_after}
use rootmote_agent.Store.Ledger.Statuses.{
  Status, verifying, resolved, remediation_failed, ExecutionKind, rollback,
}
use rootmote_agent.Store.Ledger.Actions.{
  Action, pure, raise, ◌>>=◌, ◌>>◌, Execution, Event, Payload, step_result, invalid_state,
  no_rollback_plan, rollback_unsupported, Time,
}
use rootmote_agent.Remediation.{or_encoding, refuse_if, propose_as}

unfoldable pub rollback_execution_id : Text → Text
rollback_execution_id parent = parent ++ codes "-rollback"

abbrev append_if : Bool → Option Step → List Step → List Step
append_if true (some s) rest = s ∷ rest
append_if _ _ rest = rest

-- The step of a result that was recorded as a success, before the steps of the later results.
abbrev add_success : List Step → Payload → List Step → List Step
add_success list (step_result i code errored) rest =
    append_if (not errored && int_beq code (pos 0)) (get_elem? list i) rest
add_success list _ rest = rest

-- The loop over the events. What `Execute` wrote of a step decodes.
unfoldable pub successes : List Step → List Event → List Step
successes list [] = []
successes list (ev ∷ evs) = add_success list ev.payload (successes list evs)

unfoldable pub successful_steps : Text → List Step → Action (List Step)
unfolding successes
successful_steps id list = do events ← remediation_events_after id 0; pure (successes list events)

abbrev pub has_undo : Option (StepId × Params) → Bool
has_undo none = false
has_undo (some u) = true

unfoldable pub undoable : StepId → Params → Bool
undoable id params = has_undo (undo_of id params)

unfoldable pub inverse : Step → StepId × Params → Step
unfolding command verify_text undoable
inverse step (id, params) = record {
  kind = id;
  params = params;
  description = codes "Revert: " ++ step.description;
  command = command id params;
  verify = verify_text id;
  undoable = undoable id params;
}

abbrev pub invert_step :
    Step → Option (StepId × Params) → List Step × List Step → List Step × List Step
invert_step step none (inverted, irreversible) = (inverted, step ∷ irreversible)
invert_step step (some u) (inverted, irreversible) =
    (inverted ++ (inverse step u ∷ []), irreversible)

-- The loop of `invertSteps`, from the last step to the first, with what it has collected.
unfoldable pub invert_loop : List Step → List Step × List Step → List Step × List Step
unfolding undo_of inverse
invert_loop [] done = done
invert_loop (s ∷ before) done = invert_loop before (invert_step s (undo_of s.kind s.params) done)

unfoldable pub invert_steps : List Step → List Step × List Step
unfolding invert_loop
invert_steps list = invert_loop (reverse list) ([], [])

abbrev is_port_22 : Option ℤ → Bool
is_port_22 none = false
is_port_22 (some port) = int_beq port (pos 22)

abbrev closes_ssh : StepId → Params → Bool
closes_ssh firewall_remove params = is_port_22 (int_param params (codes "port"))
closes_ssh _ params = false

unfoldable pub rollback_forces_l3 : List Step → Bool
unfolding int_param
rollback_forces_l3 list = exists (λ s. closes_ssh s.kind s.params) list

abbrev blocked_reason : Bool → Text
blocked_reason true = codes "Destructive L3 remediation requires a maintenance session"
blocked_reason false = []

abbrev cannot_undo : Step → ManualStep
cannot_undo step = record {
  text = codes "This step cannot be undone: " ++ step.description;
  command = [];
}

unfoldable pub rollback_runbook : Runbook → List Step × List Step → Runbook
unfolding rollback_forces_l3
rollback_runbook parent (inverted, irreversible) = record {
  id = parent.id ++ codes "-rollback";
  schema_version = parent.schema_version;
  incident_id = parent.incident_id;
  diagnosis_id = [];
  provider_version = [];
  server_id = [];
  title = codes "Undo: " ++ parent.title;
  source = parent.source;
  review_carefully = false;
  summary = codes "Rollback of " ++ parent.id;
  risk_explanation = [];
  risk = parent.risk;
  run_as = parent.run_as;
  steps = inverted;
  manual_steps = map cannot_undo irreversible;
  affected_files = [];
  affected_services = [];
  interruption = [];
  rollback = [];
  verification = [];
  external_monitor_ids = [];
  blocked = rollback_forces_l3 inverted;
  blocked_reason = blocked_reason (rollback_forces_l3 inverted);
  content_hash = [];
  created_at = 0;
}

abbrev pub has_run : Status → Bool
has_run verifying = true
has_run resolved = true
has_run remediation_failed = true
has_run _ = false

abbrev pub is_nil : {A : Type 0} → List A → Bool
is_nil [] = true
is_nil (x ∷ xs) = false

unfoldable pub derive_rollback : Codec → Time → Text → Action Execution
unfolding rollback_execution_id successful_steps invert_steps rollback_runbook propose_as
derive_rollback codec now parent_id = do
  parent ← get_execution parent_id
  refuse_if (not (has_run parent.status)) invalid_state
  row ← get_runbook parent.runbook_id
  rb ← or_encoding (codec.decode row.content)
  refuse_if (is_nil rb.rollback) no_rollback_plan
  successful ← successful_steps parent_id rb.steps
  refuse_if (is_nil successful) no_rollback_plan
  refuse_if (is_nil (invert_steps successful).0) rollback_unsupported
  propose_as codec now (rollback_execution_id parent_id) parent.incident_id
      (rollback_runbook rb (invert_steps successful)) rollback parent_id
