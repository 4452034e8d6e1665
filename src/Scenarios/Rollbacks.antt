-- ===== src/Scenarios/Rollbacks.antt =====
-- A rollback of an execution that stopped a service.
use rootmote_agent.Prelude.{
  ◌*◌, ◌≡◌, refl, true, false, none, some, List, [], ◌∷◌, Text, text_eq, codes,
}
use rootmote_agent.Prelude.Int.{pos}
use rootmote_agent.Monitor.State.{second}
use rootmote_agent.Steps.Catalog.{service_stop}
use rootmote_agent.Runbook.{Codec, Runbook, l1}
use rootmote_agent.Store.Ledger.Statuses.{proposed, verifying, ExecutionKind}
use rootmote_agent.Store.Ledger.Actions.{World, Execution, step_result, ok, Time}
use rootmote_agent.Remediation.Rollback.{derive_rollback}
use rootmote_agent.Remediation.Rollback.Derived.{Derived, derive_rollback_returned}

abbrev stop_runbook : Runbook
stop_runbook = record {
  id = codes "rb";
  schema_version = 1;
  incident_id = codes "i";
  diagnosis_id = [];
  provider_version = [];
  server_id = [];
  title = [];
  source = [];
  review_carefully = false;
  summary = [];
  risk_explanation = [];
  risk = l1;
  run_as = [];
  steps =
      record {
        kind = service_stop;
        params = [];
        description = [];
        command = [];
        verify = [];
        undoable = true;
      }
      ∷ [];
  manual_steps = [];
  affected_files = [];
  affected_services = [];
  interruption = [];
  rollback = record { command = []; run_as = []; description = [] } ∷ [];
  verification = [];
  external_monitor_ids = [];
  blocked = false;
  blocked_reason = [];
  content_hash = codes "h";
  created_at = 0;
}

abbrev codec : Codec
codec = record {
  digest = λ c. some (codes "h");
  encode = λ rb. some (codes "c");
  decode = λ t. some stop_runbook;
  sha256 = λ t. t;
}

abbrev parent : Execution
parent = record {
  id = codes "x";
  incident_id = codes "i";
  runbook_id = codes "rb";
  runbook_hash = codes "h";
  status = verifying;
  kind = ExecutionKind.execute;
  parent_execution_id = [];
  created_at = 0;
  updated_at = 0;
}

abbrev world : World
world = record {
  runbooks =
      (
        codes "rb",
        record {
          id = codes "rb";
          incident_id = codes "i";
          content_hash = codes "h";
          content = codes "c";
          created_at = 0;
        },
      )
      ∷ [];
  executions = (codes "x", parent) ∷ [];
  tokens = [];
  events =
      record {
        execution_id = codes "x";
        seq = 1;
        payload = step_result 0 (pos 0) false;
        created_at = 0;
      }
      ∷ [];
  audit = [];
  host = [];
  failures = [];
}

abbrev now : Time
now = 2 * second

abbrev undoing : Execution
undoing = record {
  id = codes "x-rollback";
  incident_id = codes "i";
  runbook_id = codes "rb-rollback";
  runbook_hash = codes "h";
  status = proposed;
  kind = ExecutionKind.rollback;
  parent_execution_id = codes "x";
  created_at = now;
  updated_at = now;
}

abbrev after_proposal : World
after_proposal = (derive_rollback codec now (codes "x") world).1

derive_rollback_returned_example : Derived codec (codes "x") undoing world
unfolding derive_rollback rootmote_agent.Store.Ledger.Actions.◌>>=◌
    rootmote_agent.Store.Ledger.get_execution rootmote_agent.Store.Ledger.Actions.access
    rootmote_agent.Prelude.Maps.lookup rootmote_agent.Store.Ledger.get_runbook
    rootmote_agent.Store.Ledger.remediation_events_after rootmote_agent.Store.Ledger.create_runbook
    rootmote_agent.Store.Ledger.create_execution rootmote_agent.Store.Ledger.append_audit
    rootmote_agent.Store.Ledger.append_remediation_event
derive_rollback_returned_example =
    derive_rollback_returned codec now (codes "x") undoing world after_proposal refl
