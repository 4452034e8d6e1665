-- ===== src/Scenarios/Executions.antt =====
-- internal/remediation/remediation.go on one execution with a runbook of one step.
use rootmote_agent.Prelude.{
  ◌*◌, ◌≡◌, refl, true, false, none, some, List, [], ◌∷◌, Text, text_eq, codes,
}
use rootmote_agent.Prelude.Int.{pos}
use rootmote_agent.Prelude.Maps.{lookup}
use rootmote_agent.Monitor.State.{second}
use rootmote_agent.Steps.Catalog.{service_restart}
use rootmote_agent.Runbook.{Codec, Runbook, Step, l1}
use rootmote_agent.Store.Ledger.Statuses.{Status, proposed, approved, ExecutionKind}
use rootmote_agent.Store.Ledger.Actions.{World, Execution, RunbookRow, Token, Result, ok, Time}
use rootmote_agent.Store.Ledger.Evolves.{Advanced, Extends}
use rootmote_agent.Review.{consume_token, action_hash}
use rootmote_agent.Review.SingleUse.{Consumed, consume_token_returned}
use rootmote_agent.Remediation.{Host, approve, execute, token_binding}
use rootmote_agent.Remediation.Approval.{Approved, approve_returned}
use rootmote_agent.Remediation.Clearance.{RunsOnlyCleared, execute-RunsOnlyCleared}
use rootmote_agent.Remediation.Requests.{
  Operation, grant, run, recover, serve, serve-lookup_execution, serve-lookup_runbook,
  serve-Extends, serve-consume_once,
}

abbrev restart_step : Step
restart_step = record {
  kind = service_restart;
  params = [];
  description = [];
  command = [];
  verify = [];
  undoable = false;
}

abbrev restart_runbook : Runbook
restart_runbook = record {
  id = codes "rb";
  schema_version = 1;
  incident_id = codes "i";
  diagnosis_id = [];
  provider_version = [];
  server_id = [];
  title = [];
  source = [];
  review_carefully = false;
  summary = [];
  risk_explanation = [];
  risk = l1;
  run_as = [];
  steps = restart_step ∷ [];
  manual_steps = [];
  affected_files = [];
  affected_services = [];
  interruption = [];
  rollback = [];
  verification = [];
  external_monitor_ids = [];
  blocked = false;
  blocked_reason = [];
  content_hash = codes "h";
  created_at = 0;
}

-- One runbook is known, under one hash.
abbrev codec : Codec
codec = record {
  digest = λ c. some (codes "h");
  encode = λ rb. some (codes "c");
  decode = λ t. some restart_runbook;
  sha256 = λ t. t;
}

-- Every step succeeds.
abbrev host : Host
host = record {
  execute_step = λ ran step. record { output = []; exit_code = pos 0; errored = false };
  verify = λ ran rb. record { passed = true; errored = false; steps = (0, true) ∷ [] };
}

abbrev execution_in : Status → Execution
execution_in s = record {
  id = codes "x";
  incident_id = codes "i";
  runbook_id = codes "rb";
  runbook_hash = codes "h";
  status = s;
  kind = ExecutionKind.execute;
  parent_execution_id = [];
  created_at = 0;
  updated_at = 0;
}

abbrev runbook_row : RunbookRow
runbook_row = record {
  id = codes "rb";
  incident_id = codes "i";
  content_hash = codes "h";
  content = codes "c";
  created_at = 0;
}

abbrev scope : Text
scope = codes "watchtower:i"

abbrev execute_action : Text
execute_action = codes "incident.runbook.execute"

abbrev token_row : Token
token_row = record {
  token = codes "t";
  action_hash = action_hash codec.sha256 execute_action scope (codes "h" ∷ []) [];
  project_id = scope;
  created_at = 0;
  expires_at = 300 * second;
  used_at = none;
}

abbrev world_in : Status → World
world_in s = record {
  runbooks = (codes "rb", runbook_row) ∷ [];
  executions = (codes "x", execution_in s) ∷ [];
  tokens = (codes "t", token_row) ∷ [];
  events = [];
  audit = [];
  host = [];
  failures = [];
}

abbrev now : Time
now = 2 * second

abbrev requests : List (Time × Operation)
requests =
    (now, grant (codes "x") (codes "h") (codes "t"))
    ∷ (now, run (codes "x") (codes "h"))
    ∷ (now, recover)
    ∷ []

abbrev after_consumption : World
after_consumption =
    (consume_token codec.sha256 now (codes "t") execute_action scope (codes "h" ∷ []) []
      (world_in proposed)).1

abbrev after_approval : World
after_approval = (approve codec now (codes "x") (codes "h") (codes "t") (world_in proposed)).1

serve-lookup_execution_example :
    Advanced
      (execution_in proposed)
      (lookup (codes "x") (serve codec host requests (world_in proposed)).executions)
unfolding lookup
serve-lookup_execution_example =
    serve-lookup_execution codec host requests (world_in proposed) (codes "x")
      (execution_in proposed) refl

serve-lookup_runbook_example :
    lookup (codes "rb") (serve codec host requests (world_in proposed)).runbooks ≡ some runbook_row
unfolding lookup
serve-lookup_runbook_example =
    serve-lookup_runbook codec host requests (world_in proposed) (codes "rb") runbook_row refl

serve-Extends_example :
    Extends [] (serve codec host requests (world_in proposed)).events
    × Extends [] (serve codec host requests (world_in proposed)).audit
    × Extends [] (serve codec host requests (world_in proposed)).host
serve-Extends_example = serve-Extends codec host requests (world_in proposed)

consume_token_returned_example :
    Consumed codec.sha256 now
      (codes "t")
      execute_action
      scope
      (codes "h" ∷ [])
      []
      (world_in proposed)
      after_consumption
unfolding consume_token rootmote_agent.Store.Ledger.Actions.◌>>=◌
    rootmote_agent.Store.Ledger.get_confirmation_token rootmote_agent.Store.Ledger.Actions.access
    lookup rootmote_agent.Store.Ledger.mark_confirmation_token_used
consume_token_returned_example =
    consume_token_returned codec.sha256 now (codes "t") execute_action scope (codes "h" ∷ []) []
      (world_in proposed) after_consumption refl

serve-consume_once_example : ¬ (
    consume_token codec.sha256 now
      (codes "t")
      execute_action
      scope
      (codes "h" ∷ [])
      []
      (serve codec host requests after_consumption)
    ≡ (ok tt, world_in proposed))
unfolding consume_token rootmote_agent.Store.Ledger.Actions.◌>>=◌
    rootmote_agent.Store.Ledger.get_confirmation_token rootmote_agent.Store.Ledger.Actions.access
    lookup rootmote_agent.Store.Ledger.mark_confirmation_token_used
serve-consume_once_example =
    serve-consume_once codec host now now (codes "t") execute_action scope execute_action scope
      (codes "h" ∷ []) (codes "h" ∷ []) [] [] requests (world_in proposed) after_consumption
      (world_in proposed) refl

approve_returned_example :
    Approved codec now (codes "x") (codes "h") (codes "t") (world_in proposed) after_approval
unfolding approve rootmote_agent.Store.Ledger.Actions.◌>>=◌
    rootmote_agent.Store.Ledger.get_execution rootmote_agent.Store.Ledger.Actions.access lookup
    rootmote_agent.Store.Ledger.Statuses.status_beq rootmote_agent.Remediation.validate_hash
    rootmote_agent.Store.Ledger.get_runbook rootmote_agent.Remediation.validate consume_token
    rootmote_agent.Store.Ledger.get_confirmation_token
    rootmote_agent.Store.Ledger.mark_confirmation_token_used
    rootmote_agent.Store.Ledger.transition_execution rootmote_agent.Store.Ledger.append_audit
    rootmote_agent.Store.Ledger.append_remediation_event
approve_returned_example =
    approve_returned codec now (codes "x") (codes "h") (codes "t")
      (record (execution_in approved) { updated_at = now }) (world_in proposed) after_approval refl

execute-RunsOnlyCleared_example :
    RunsOnlyCleared codec host
      (codes "x")
      (codes "h")
      (world_in approved)
      (execute codec host now (codes "x") (codes "h") (world_in approved)).1.host
execute-RunsOnlyCleared_example =
    execute-RunsOnlyCleared codec host now (codes "x") (codes "h") (world_in approved)
