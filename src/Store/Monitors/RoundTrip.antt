-- ===== src/Store/Monitors/RoundTrip.antt =====
-- `PutMonitorState` and `ListMonitorStates` of internal/store/store.go: what comes back of a node.
use rootmote_agent.Prelude.{◌≡◌, arith}
use rootmote_agent.Monitor.State.{MonitorState}
use rootmote_agent.Store.Monitors.{to_row, from_row, unix, from_unix}

-- A node that is read back from its row has its key, its state and its counters, and its times in
-- whole seconds; a zero time comes back as zero.
pub from_row-to_row :
    (ms : MonitorState)
    → from_row (to_row ms) ≡ record ms {
      first_failure_at = from_unix (unix ms.first_failure_at);
      last_transition_at = from_unix (unix ms.last_transition_at);
      updated_at = from_unix (unix ms.updated_at);
    }
unfolding from_row to_row
from_row-to_row ms = ground arith
