-- ===== src/Remediation/Rollback/Kept.antt =====
-- What deriving a rollback keeps (internal/remediation/remediation.go).
use rootmote_agent.Prelude.{ℕ, List, Text}
use rootmote_agent.Runbook.{Codec, Step}
use rootmote_agent.Store.Ledger.{remediation_events_after}
use rootmote_agent.Store.Ledger.Actions.{Time}
use rootmote_agent.Store.Ledger.Relates.{Relates, relates_rules}
use rootmote_agent.Store.Ledger.Evolves.{Evolves, Evolves-preorder, Evolves-access}
use rootmote_agent.Remediation.Lifecycle.{basic, propose_as-Evolves}
use rootmote_agent.Remediation.Rollback.{successful_steps, derive_rollback}

events_after-Evolves : (id : Text) (n : ℕ) → Relates Evolves (remediation_events_after id n)
unfolding remediation_events_after
events_after-Evolves id n = search (relates_rules, Evolves-preorder, Evolves-access)

successful_steps-Evolves :
    (id : Text) (list : List Step) → Relates Evolves (successful_steps id list)
unfolding successful_steps
successful_steps-Evolves id list = search (basic, events_after-Evolves)

pub derive_rollback-Evolves :
    (c : Codec) (now : Time) (id : Text) → Relates Evolves (derive_rollback c now id)
unfolding derive_rollback
derive_rollback-Evolves c now id =
    search (basic, successful_steps-Evolves, propose_as-Evolves) depth 14
