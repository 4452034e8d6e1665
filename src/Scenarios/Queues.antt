-- ===== src/Scenarios/Queues.antt =====
-- internal/watchtower/monitor_events.go on a queue of one event.
use rootmote_agent.Prelude.{◌+◌, ◌*◌, ◌≡◌, refl, true, false, some, [], ◌∷◌, ◌++◌, codes, drop}
use rootmote_agent.Monitor.State.{second, pending, firing, recovering, resolved}
use rootmote_agent.Watchtower.Queue.{
  MonitorEvent, through_wire, enqueue_monitor_event, condense_monitor_events,
}
use rootmote_agent.Watchtower.Queue.Flush.{begun, enqueued, ended, flush_queue}
use rootmote_agent.Watchtower.Queue.Stored.{
  IsStored, IsCalm, stored_events, enqueue-accepted, flush-sent, flush-failed,
}
use rootmote_agent.Watchtower.Queue.Overtaken.{flush-overtaken}
use rootmote_agent.Scenarios.Engines.{calm_io}

abbrev queued : MonitorEvent
queued = record {
  event_id = codes "e1";
  monitor_id = [];
  monitor_kind = codes "cpu";
  target = codes "host";
  from_state = pending;
  to_state = firing;
  severity = codes "high";
  first_failure_at = 0;
  occurred_at = 5 * second;
  summary = [];
  attributes = [];
}

abbrev closing : MonitorEvent
closing = record queued {
  event_id = codes "e2";
  from_state = recovering;
  to_state = resolved;
  occurred_at = 9 * second + 1;
}

calm_io-IsCalm : IsCalm calm_io
calm_io-IsCalm = record { reads = refl; writes = refl }

enqueue-accepted_example :
    (e : MonitorEvent) × ((enqueue_monitor_event calm_io closing (some (queued ∷ []))).0
      ≡ some (queued ∷ through_wire e ∷ []))
    × (e ≡ record closing { event_id = e.event_id })
    × IsStored (through_wire e)
unfolding through_wire enqueue_monitor_event
enqueue-accepted_example =
    enqueue-accepted calm_io closing (queued ∷ []) ((refl, refl), tt) (refl, tt) refl

flush-sent_example :
    flush_queue calm_io true calm_io
      (begun calm_io ∷ enqueued calm_io closing ∷ [])
      (some (queued ∷ []))
    ≡ (
      some (stored_events (begun calm_io ∷ enqueued calm_io closing ∷ [])),
      true,
      condense_monitor_events (queued ∷ []),
    )
unfolding through_wire
flush-sent_example =
    flush-sent calm_io calm_io (begun calm_io ∷ enqueued calm_io closing ∷ []) queued [] refl
      calm_io-IsCalm ((calm_io-IsCalm, refl), tt) ((refl, refl), tt)

flush-overtaken_example :
    flush_queue calm_io true calm_io
      ([] ++ (ended calm_io 1 ∷ enqueued calm_io closing ∷ []))
      (some (queued ∷ []))
    ≡ (
      some (drop 1 (stored_events ([] ++ (enqueued calm_io closing ∷ [])))),
      true,
      condense_monitor_events (queued ∷ []),
    )
unfolding through_wire
flush-overtaken_example =
    flush-overtaken calm_io calm_io calm_io [] (enqueued calm_io closing ∷ []) queued [] refl
      calm_io-IsCalm calm_io-IsCalm tt ((calm_io-IsCalm, refl), tt) ((refl, refl), tt)

flush-failed_example :
    flush_queue calm_io false calm_io (enqueued calm_io closing ∷ []) (some (queued ∷ [])) ≡ (
      some ((queued ∷ []) ++ stored_events (enqueued calm_io closing ∷ [])),
      false,
      condense_monitor_events (queued ∷ []),
    )
unfolding through_wire
flush-failed_example =
    flush-failed calm_io calm_io (enqueued calm_io closing ∷ []) queued [] refl
      ((calm_io-IsCalm, refl), tt) ((refl, refl), tt)
