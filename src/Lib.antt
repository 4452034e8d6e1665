-- ===== src/Lib.antt =====
-- Rootmote agent: a verification library.
--
-- The agent watches a host. Evaluators read it at every tick; the monitor engine turns readings
-- into alerts by a state machine for each monitor, queues the alerts' events and sends them to the
-- relay. For an incident the relay's operator may approve a runbook; remediation runs its steps on
-- the host. A step that needs root runs the privilege helper, which trusts none of its arguments.
-- The store keeps all that survives a restart.
--
-- Files, and the code that each models:
--   Store/Monitors       internal/store/store.go: monitor states and alert silences
--   Store/Ledger         internal/store/store.go: runbooks, executions, events, audit, tokens
--     Actions            the state and the actions on it; Statuses: the lifecycle's names
--     Relates, Evolves, Operations, Quiet, Returns: what the operations keep and did
--   Monitor/State        internal/monitor/types.go
--   Monitor/Machine      internal/monitor/statemachine.go, stepState and its helpers
--   Monitor/Keys, Monitor/Registry: the keys "kind:target", internal/monitor/definitions.go
--   Monitor/Engine       internal/monitor/manager.go and silence.go: process; Tick: Evaluate and
--                        retireAbsent; Sync: SetSyncedDefinitions and the load of a restart
--   Watchtower/Queue     internal/watchtower/monitor_events.go: the queue file; Flush: FlushQueue;
--                        Stored, Overtaken: what the queue keeps, and what two flushes lose
--   Steps/Catalog, Params, Validate, PrivArgs, Runner
--                        internal/steps: catalog.go with the undoing of step.go, params.go,
--                        validate.go, privargs.go and the commands shown by runner.go
--   Steps/Helper         internal/steps/helper.go, the privilege helper: Services, Supervisor,
--                        Accounts, Processes: the actions; Actions: the firewall's, and RunPriv; Safe: rules
--                        for jobs; Permitted, Names, Performed, Audit: what it may do and does;
--                        Descent, Below: the search below the agent; Free: which processes it may
--                        stop; ProcStat: how helper_host.go reads /proc
--   Firewall             internal/firewall/firewall.go; Lockout: its guard
--   Playbook             internal/playbook/validate.go and playbook.go: the check of the steps, with
--                        the parameters that internal/steps/step.go defines
--   Runbook              internal/runbook/runbook.go
--   Review               internal/review/review.go: confirmation tokens
--   Remediation          internal/remediation/remediation.go, with the approval validator of
--                        internal/server/remediation.go; Rollback: DeriveRollback, with
--                        Succeeded, Undoing and Proposed: the steps that ran, their undoing, the
--                        proposal
--   Scenarios            concrete runs
--
-- Choices. A time is the nanoseconds since Go's zero time, and a difference of two times does not
-- saturate; the database keeps whole seconds, and so does the queue file. Floating-point thresholds
-- are in thousandths. Counters that grow by one a tick are not bounded. One call reads the clock once
-- where the code may read it more often. Texts are lists of codes. Go's map iteration is in the order
-- of an association list. A call of the database fails by a schedule, then changing nothing; a file
-- read, a write (also emptied, torn or left unprotected), the source of ids and a send may fail;
-- during a send other calls may enqueue events and begin and end flushes. JSON and SHA-256 are the
-- record Codec, the host with its executor and verifier is the record Host, and an evaluator is any
-- function of the engine. Requests of remediation follow one another; the engine's calls too.
--
-- The helper works on a host that is a parameter, the record Machine: each answer may depend on all
-- the commands, signals, edits and pauses so far, and stays as it is between two of them. Its
-- messages and its printed output are left out; the two actions that only read and print,
-- certs-list and web-errors, only check their arguments. The search below the agent has rounds as
-- fuel, and a run that is out of rounds is told apart from every other; decimal numbers are written
-- with twenty digits at most, which a 64-bit number needs. All other recursion is on lists.
--
-- Not modelled: HTTP, websockets, SQL, the evaluators' readings, the checks of the steps before and
-- after they run, docker, systemd, the backends of the firewall, discovery and diagnosis; how
-- playbooks are made and their texts are cleaned; the subscriptions of remediation; and the tables
-- that neither part uses.
pub mod Prelude
pub mod Store
pub mod Monitor
pub mod Watchtower
pub mod Steps
pub mod Runbook
pub mod Review
pub mod Remediation
pub mod Firewall
pub mod Playbook
pub mod Scenarios
