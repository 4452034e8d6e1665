-- ===== src/Remediation.antt =====
-- internal/remediation/remediation.go: propose, approve, execute and verify a runbook, and the
-- approval validator of internal/server/remediation.go.
pub mod Lifecycle
pub mod Requests
pub mod Checks
pub mod Recorded
pub mod Approval
pub mod Running
pub mod Clearance
pub mod Rollback
use rootmote_agent.Prelude.{
  ℕ, zero, suc, ◌+◌, ◌*◌, Bool, true, false, ◌&&◌, ◌||◌, not, Option, none, some, List, [], ◌∷◌,
  ◌++◌, Text, codes, text_beq, length, take, ltb, leb, if◌then◌else◌,
}
use rootmote_agent.Prelude.Int.{ℤ, pos, negsuc}
use rootmote_agent.Runbook.{Codec, Step, Runbook, content_hash}
use rootmote_agent.Store.Ledger.{
  create_runbook, get_runbook, get_execution, create_execution, transition_execution,
  in_flight_executions, append_remediation_event, append_audit,
}
use rootmote_agent.Store.Ledger.Statuses.{
  Status, proposed, approved, executing, verifying, resolved, remediation_failed, declined,
  blocked_l3, unrecognized, ExecutionKind, execute as execute_kind, rollback, status_beq,
}
use rootmote_agent.Store.Ledger.Actions.{
  Result, ok, err, Error, database, conflict, not_found, encoding, hash_mismatch, invalid_state,
  refused_l3, Action, pure, raise, attempt, modify, gets, World, Execution, RunbookRow, Event,
  Payload, step_result, step_verification, internal_verification, labelled, AuditEntry, Time, ◌>>=◌,
  ◌>>◌,
}
use rootmote_agent.Review.{consume_token}
use rootmote_agent.Watchtower.Queue.{is_empty}

-- The outcome of the injected executor: the exit code, and whether the executor itself failed.
pub record StepResult : Type 0 where
  pub output : Text
  pub exit_code : ℤ
  pub errored : Bool

-- The outcome of the injected verifier, with the index and the result of each step.
pub record Verification : Type 0 where
  pub passed : Bool
  pub errored : Bool
  pub steps : List (ℕ × Bool)

-- The host: what it does with a step may depend on all the steps that it ran before.
pub record Host : Type 0 where
  pub execute_step : List (Text × Step) → Step → StepResult
  pub verify : List (Text × Step) → Runbook → Verification

abbrev or_encoding : {A : Type 0} → Option A → Action A
or_encoding none = raise encoding
or_encoding (some a) = pure a

unfoldable pub audit_for : Execution → Text → Time → Action Unit
audit_for exec type now = append_audit (record {
  type = type;
  execution_id = exec.id;
  incident_id = exec.incident_id;
  created_at = now;
})

-- The live subscribers and the projector get the event afterwards; they change nothing here.
unfoldable pub append_event : Text → Payload → Time → Action Event
append_event id payload now = append_remediation_event id payload now

-- `if test { return err }`
abbrev refuse_if : Bool → Error → Action Unit
refuse_if true e = raise e
refuse_if false e = pure tt

unfoldable pub validate_hash : Codec → Execution → Text → Action Unit
unfolding content_hash
validate_hash codec exec requested = do
  row ← get_runbook exec.runbook_id
  decoded ← or_encoding (codec.decode row.content)
  recomputed ← or_encoding (content_hash codec decoded)
  let mismatch : Bool =
      is_empty requested
      || not (text_beq requested exec.runbook_hash)
      || not (text_beq requested row.content_hash)
      || not (text_beq requested recomputed)
  refuse_if mismatch hash_mismatch

-- A runbook row that is not there yet is created.
abbrev ensure_runbook : RunbookRow → Result RunbookRow → Action Unit
ensure_runbook row (ok _) = pure tt
ensure_runbook row (err not_found) = create_runbook row
ensure_runbook row (err e) = raise e

abbrev record_block : Bool → Execution → Time → Text → Action Unit
record_block false exec now id = pure tt
record_block true exec now id = do
  audit_for exec (codes "remediation.blocked_l3") now
  append_event id (labelled (codes "runbook_blocked")) now
  pure tt

abbrev record_proposal : Runbook → Time → Text → Execution → Bool → Action Execution
record_proposal rb now id exec false = pure exec
record_proposal rb now id exec true = do
  audit_for exec (codes "remediation.proposed") now
  append_event id (labelled (codes "runbook_proposed")) now
  record_block rb.blocked exec now id
  pure exec

unfoldable pub propose_as :
    Codec → Time → Text → Text → Runbook → ExecutionKind → Text → Action Execution
unfolding content_hash audit_for append_event
propose_as codec now execution_id incident_id rb kind parent = do
  hash ← or_encoding (content_hash codec rb)
  content ← or_encoding (codec.encode (record rb { content_hash = hash }))
  found ← attempt (get_runbook rb.id)
  ensure_runbook
      (record {
        id = rb.id;
        incident_id = incident_id;
        content_hash = hash;
        content = content;
        created_at = now;
      })
      found
  (exec, created) ← create_execution now (record {
    id = execution_id;
    incident_id = incident_id;
    runbook_id = rb.id;
    runbook_hash = hash;
    status = if rb.blocked then blocked_l3 else proposed;
    kind = kind;
    parent_execution_id = parent;
    created_at = now;
    updated_at = now;
  })
  record_proposal rb now execution_id exec created

unfoldable pub propose : Codec → Time → Text → Text → Runbook → Action Execution
unfolding propose_as
propose codec now execution_id incident_id rb =
    propose_as codec now execution_id incident_id rb execute_kind []

-- `remediationTokenBinding`: the action and the project of an execution's token.
unfoldable pub token_binding : ExecutionKind → Text → Text × Text
token_binding rollback incident_id =
    (codes "incident.runbook.rollback", codes "watchtower:" ++ incident_id)
token_binding _ incident_id = (codes "incident.runbook.execute", codes "watchtower:" ++ incident_id)

-- `reviewApprovalValidator.Validate`: the digest of the token that it used up.
unfoldable pub validate : Codec → Time → Text → Text → Text → Action Text
unfolding token_binding
validate codec now token execution_id hash = do
  exec ← get_execution execution_id
  let binding = token_binding exec.kind exec.incident_id
  consume_token codec.sha256 now token binding.0 binding.1 (hash ∷ []) []
  pure (codec.sha256 token)

abbrev moved_to : Execution → Status → Time → Execution
moved_to exec status now = record exec { status = status; updated_at = now }

-- A transition, with its audit row and its event.
abbrev transition_recorded :
    Text → Execution → Status → Status → Text → Text → Time → Action Execution
transition_recorded id exec from to audited announced now = do
  transition_execution id from to now
  audit_for (moved_to exec to now) audited now
  append_event id (labelled announced) now
  pure (moved_to exec to now)

unfoldable pub approve : Codec → Time → Text → Text → Text → Action Execution
unfolding audit_for append_event
approve codec now execution_id requested token = do
  exec ← get_execution execution_id
  refuse_if (status_beq exec.status blocked_l3) refused_l3
  refuse_if (not (status_beq exec.status proposed)) invalid_state
  validate_hash codec exec requested
  validate codec now token execution_id requested
  transition_recorded execution_id exec proposed approved (codes "remediation.approved")
      (codes "runbook_approved") now

unfoldable pub decline : Time → Text → Action Execution
unfolding audit_for append_event
decline now execution_id = do
  exec ← get_execution execution_id
  refuse_if (not (status_beq exec.status proposed)) invalid_state
  transition_recorded execution_id exec proposed declined (codes "remediation.declined")
      (codes "runbook_declined") now

abbrev failed_step : StepResult → Bool
failed_step r = r.errored || not (is_zero r.exit_code)
  where
    is_zero : ℤ → Bool
    is_zero (pos zero) = true
    is_zero _ = false

-- The executor is given the step; what it has been given is in `host`.
unfoldable pub execute_step : Host → Text → Step → Action StepResult
execute_step host id step w =
    (ok (host.execute_step w.host step), record w { host = w.host ++ ((id, step) ∷ []) })

-- After a failed step the execution fails, and the steps left are not run.
abbrev stop_or_go :
    Bool → Time → Text → Execution → Action (Execution × Bool) → Action (Execution × Bool)
stop_or_go false now id exec rest = rest
stop_or_go true now id exec rest = do
  failed ←
      transition_recorded id exec executing remediation_failed (codes "remediation.failed")
        (codes "remediation_failed") now
  pure (failed, false)

-- The loop over the steps from index `i`: none is run after the first failure, and the result says
-- whether all ran without one.
unfoldable pub run_steps :
    Host → Time → Text → Execution → ℕ → List Step → Action (Execution × Bool)
unfolding execute_step audit_for append_event
run_steps host now id exec i [] = pure (exec, true)
run_steps host now id exec i (step ∷ steps) = do
  res ← execute_step host id step
  append_event id (step_result i res.exit_code res.errored) now
  audit_for exec (codes "remediation.step.result") now
  stop_or_go (failed_step res) now id exec (run_steps host now id exec (i + 1) steps)

unfoldable pub record_verifications : Text → Time → List (ℕ × Bool) → Action Unit
unfolding append_event
record_verifications id now [] = pure tt
record_verifications id now ((i, passed) ∷ rest) = do
  append_event id (step_verification i passed) now
  record_verifications id now rest

-- After the steps: the internal verification, whose result is recorded and changes no status.
unfoldable pub verify_steps : Host → Time → Text → Execution → Runbook → Action Execution
unfolding audit_for append_event record_verifications
verify_steps host now id exec rb = do
  exec' ←
      transition_recorded id exec executing verifying (codes "remediation.verifying")
        (codes "verification_started") now
  ran ← gets (λ w. w.host)
  let result : Verification = host.verify ran rb
  record_verifications id now result.steps
  append_event id (internal_verification result.passed result.errored) now
  pure exec'

abbrev after_steps : Host → Time → Text → Runbook → Execution × Bool → Action Execution
after_steps host now id rb (exec, false) = pure exec
after_steps host now id rb (exec, true) = verify_steps host now id exec rb

unfoldable pub start_execution : Host → Time → Text → Execution → Runbook → Action Execution
unfolding run_steps verify_steps audit_for append_event
start_execution host now id exec rb = do
  let started = moved_to exec executing now
  audit_for started (codes "remediation.execute.started") now
  append_event id (labelled (codes "execution_started")) now
  done ← run_steps host now id started 0 rb.steps
  after_steps host now id rb done

-- Where the move to executing is lost to another caller, the row is read again.
abbrev after_claim : Host → Time → Text → Execution → Runbook → Result Unit → Action Execution
after_claim host now id exec rb (ok _) = start_execution host now id exec rb
after_claim host now id exec rb (err conflict) = get_execution id
after_claim host now id exec rb (err e) = raise e

-- The `switch` on the status: begun by another call, approved, or neither.
abbrev by_status : Codec → Host → Time → Text → Execution → Status → Action Execution
by_status codec host now id exec executing = pure exec
by_status codec host now id exec verifying = pure exec
by_status codec host now id exec resolved = pure exec
by_status codec host now id exec remediation_failed = pure exec
by_status codec host now id exec approved = do
  row ← get_runbook exec.runbook_id
  rb ← or_encoding (codec.decode row.content)
  claimed ← attempt (transition_execution id approved executing now)
  after_claim host now id exec rb claimed
by_status codec host now id exec _ = raise invalid_state

unfoldable pub execute : Codec → Host → Time → Text → Text → Action Execution
unfolding start_execution
execute codec host now execution_id requested = do
  exec ← get_execution execution_id
  validate_hash codec exec requested
  by_status codec host now execution_id exec exec.status

-- `RecoverInterrupted`, over the executions that were found in flight; what was recovered before an
-- error is lost to the caller and stays written.
unfoldable pub recover_all : Time → List Execution → Action (List Execution)
unfolding audit_for append_event
recover_all now [] = pure []
recover_all now (exec ∷ rest) = do
  moved ←
      transition_recorded exec.id exec exec.status remediation_failed (codes "remediation.failed")
        (codes "remediation_failed") now
  recovered ← recover_all now rest
  pure (moved ∷ recovered)

unfoldable pub recover_interrupted : Time → Action (List Execution)
unfolding recover_all
recover_interrupted now = do found ← in_flight_executions; recover_all now found

abbrev pub max_step_output_bytes : ℕ
max_step_output_bytes = 32 * 1024

-- On a text of bytes.
unfoldable pub bound_output : Text → Text
bound_output s =
    if leb (length s) max_step_output_bytes
    then s
    else take max_step_output_bytes s ++ codes "...[truncated]"
