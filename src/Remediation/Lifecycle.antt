-- ===== src/Remediation/Lifecycle.antt =====
-- What every operation of internal/remediation/remediation.go keeps, whatever the database, the
-- host and the clients do.
use rootmote_agent.Prelude.{ℕ, ◌+◌, Bool, true, false, Option, none, some, List, [], ◌∷◌, Text}
use rootmote_agent.Runbook.{Codec, Runbook, Step}
use rootmote_agent.Store.Ledger.Statuses.{Status, approved, ExecutionKind}
use rootmote_agent.Store.Ledger.Actions.{
  Execution, RunbookRow, Payload, Action, Error, Result, ok, err, conflict, not_found,
  step_verification, step_result, Time,
}
use rootmote_agent.Store.Ledger.Relates.{Relates, Relates-bind}
use rootmote_agent.Store.Ledger.Evolves.{
  Evolves, Evolves-preorder, Evolves-host, Move, approval, refusal, start, completion, failure,
}
use rootmote_agent.Store.Ledger.Operations.{evolves_rules, Relates-if, transition-Evolves}
use rootmote_agent.Review.SingleUse.{consume_token-Evolves}
use rootmote_agent.Remediation.{
  Host, or_encoding, audit_for, append_event, refuse_if, validate_hash, ensure_runbook,
  record_block, record_proposal, propose_as, propose, validate, approve, decline,
  transition_recorded, stop_or_go, execute_step, run_steps, record_verifications, verify_steps,
  after_steps, start_execution, after_claim, by_status, execute, failed_step,
}

pub or_encoding-Evolves : {A : Type 0} (o : Option A) → Relates Evolves (or_encoding o)
or_encoding-Evolves none = search evolves_rules
or_encoding-Evolves (some a) = search evolves_rules

pub refuse_if-Evolves : (b : Bool) (e : Error) → Relates Evolves (refuse_if b e)
refuse_if-Evolves true e = search evolves_rules
refuse_if-Evolves false e = search evolves_rules

pub audit_for-Evolves :
    (e : Execution) (t : Text) (now : Time) → Relates Evolves (audit_for e t now)
unfolding audit_for
audit_for-Evolves e t now = search evolves_rules

pub append_event-Evolves :
    (id : Text) (p : Payload) (now : Time) → Relates Evolves (append_event id p now)
unfolding append_event
append_event-Evolves id p now = search evolves_rules

pub ruleset basic =
    (evolves_rules, or_encoding-Evolves, refuse_if-Evolves, audit_for-Evolves, append_event-Evolves)

validate_hash-Evolves :
    (c : Codec) (e : Execution) (h : Text) → Relates Evolves (validate_hash c e h)
unfolding validate_hash
validate_hash-Evolves c e h = search basic

ensure_runbook-Evolves :
    (row : RunbookRow) (r : Result RunbookRow) → Relates Evolves (ensure_runbook row r)
ensure_runbook-Evolves row (ok _) = search basic
ensure_runbook-Evolves row (err not_found) = search basic
ensure_runbook-Evolves row (err _) = search basic

record_block-Evolves :
    (b : Bool) (e : Execution) (now : Time) (id : Text) → Relates Evolves (record_block b e now id)
record_block-Evolves true e now id = search basic
record_block-Evolves false e now id = search basic

record_proposal-Evolves :
    (rb : Runbook) (now : Time) (id : Text) (e : Execution) (b : Bool)
    → Relates Evolves (record_proposal rb now id e b)
record_proposal-Evolves rb now id e true = search (basic, record_block-Evolves)
record_proposal-Evolves rb now id e false = search basic

pub propose_as-Evolves :
    (c : Codec) (now : Time) (id incident : Text) (rb : Runbook) (k : ExecutionKind) (parent : Text)
    → Relates Evolves (propose_as c now id incident rb k parent)
unfolding propose_as
propose_as-Evolves c now id incident rb k parent =
    search (basic, ensure_runbook-Evolves, record_proposal-Evolves) depth 12

pub propose-Evolves :
    (c : Codec) (now : Time) (id incident : Text) (rb : Runbook)
    → Relates Evolves (propose c now id incident rb)
unfolding propose
propose-Evolves c now id incident rb = propose_as-Evolves c now id incident rb _ []

validate-Evolves :
    (c : Codec) (now : Time) (token id h : Text) → Relates Evolves (validate c now token id h)
unfolding validate
validate-Evolves c now token id h = search (basic, consume_token-Evolves)

pub transition_recorded-Evolves :
    (id : Text) (e : Execution) (from to : Status) (audited announced : Text) (now : Time)
    → Move from to
    → Relates Evolves (transition_recorded id e from to audited announced now)
transition_recorded-Evolves id e from to audited announced now m =
    search (basic, transition-Evolves)

pub approve-Evolves :
    (c : Codec) (now : Time) (id h token : Text) → Relates Evolves (approve c now id h token)
unfolding approve
approve-Evolves c now id h token =
    search (basic, validate_hash-Evolves, validate-Evolves, transition_recorded-Evolves, approval)
      depth 12

pub decline-Evolves : (now : Time) (id : Text) → Relates Evolves (decline now id)
unfolding decline
decline-Evolves now id = search (basic, transition_recorded-Evolves, refusal) depth 12

execute_step-Evolves :
    (host : Host) (id : Text) (step : Step) → Relates Evolves (execute_step host id step)
unfolding execute_step
execute_step-Evolves host id step = record { at = λ w. Evolves-host w (id, step) }

stop_or_go-Evolves :
    (b : Bool) (now : Time) (id : Text) (e : Execution) (rest : Action (Execution × Bool))
    → Relates Evolves rest
    → Relates Evolves (stop_or_go b now id e rest)
stop_or_go-Evolves false now id e rest r = r
stop_or_go-Evolves true now id e rest r =
    search (basic, transition_recorded-Evolves, failure) depth 12

run_steps-Evolves :
    (host : Host) (now : Time) (id : Text) (e : Execution) (i : ℕ) (steps : List Step)
    → Relates Evolves (run_steps host now id e i steps)
unfolding run_steps
run_steps-Evolves host now id e i [] = search basic
run_steps-Evolves host now id e i (step ∷ steps) =
    Relates-bind Evolves-preorder _ _ (execute_step-Evolves host id step) (λ res.
      Relates-bind Evolves-preorder _ _
        (append_event-Evolves id (step_result i res.exit_code res.errored) now)
        (λ _. Relates-bind Evolves-preorder _ _ (audit_for-Evolves e _ now) (λ _.
          stop_or_go-Evolves (failed_step res) now id e _
            (run_steps-Evolves host now id e (i + 1) steps))))

record_verifications-Evolves :
    (id : Text) (now : Time) (vs : List (ℕ × Bool))
    → Relates Evolves (record_verifications id now vs)
unfolding record_verifications
record_verifications-Evolves id now [] = search basic
record_verifications-Evolves id now ((i, passed) ∷ vs) =
    Relates-bind Evolves-preorder _ _ (append_event-Evolves id (step_verification i passed) now)
      (λ _. record_verifications-Evolves id now vs)

verify_steps-Evolves :
    (host : Host) (now : Time) (id : Text) (e : Execution) (rb : Runbook)
    → Relates Evolves (verify_steps host now id e rb)
unfolding verify_steps
verify_steps-Evolves host now id e rb =
    search (basic, transition_recorded-Evolves, completion, record_verifications-Evolves) depth 14

after_steps-Evolves :
    (host : Host) (now : Time) (id : Text) (rb : Runbook) (d : Execution × Bool)
    → Relates Evolves (after_steps host now id rb d)
after_steps-Evolves host now id rb (e, false) = search basic
after_steps-Evolves host now id rb (e, true) = verify_steps-Evolves host now id e rb

start_execution-Evolves :
    (host : Host) (now : Time) (id : Text) (e : Execution) (rb : Runbook)
    → Relates Evolves (start_execution host now id e rb)
unfolding start_execution
start_execution-Evolves host now id e rb =
    search (basic, run_steps-Evolves, after_steps-Evolves) depth 12

after_claim-Evolves :
    (host : Host) (now : Time) (id : Text) (e : Execution) (rb : Runbook) (r : Result Unit)
    → Relates Evolves (after_claim host now id e rb r)
after_claim-Evolves host now id e rb (ok _) = start_execution-Evolves host now id e rb
after_claim-Evolves host now id e rb (err conflict) = search basic
after_claim-Evolves host now id e rb (err _) = search basic

claim-Evolves :
    (c : Codec) (host : Host) (now : Time) (id : Text) (e : Execution)
    → Relates Evolves (by_status c host now id e approved)
claim-Evolves c host now id e =
    search (basic, transition-Evolves, after_claim-Evolves, start) depth 12

by_status-Evolves :
    (c : Codec) (host : Host) (now : Time) (id : Text) (e : Execution) (s : Status)
    → Relates Evolves (by_status c host now id e s)
by_status-Evolves c host now id e approved = claim-Evolves c host now id e
by_status-Evolves c host now id e _ = search basic

pub execute-Evolves :
    (c : Codec) (host : Host) (now : Time) (id h : Text) → Relates Evolves (execute c host now id h)
unfolding execute
execute-Evolves c host now id h = search (basic, validate_hash-Evolves, by_status-Evolves) depth 12
