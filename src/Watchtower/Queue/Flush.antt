-- ===== src/Watchtower/Queue/Flush.antt =====
-- `FlushQueue` of internal/watchtower/monitor_events.go. The queue's lock is free while the batch
-- is sent: other goroutines may enqueue events in between, and may begin and end flushes.
use rootmote_agent.Prelude.{
  ℕ, Bool, true, false, Option, none, some, List, [], ◌∷◌, leb, if◌then◌else◌, length, drop,
}
use rootmote_agent.Watchtower.Queue.{
  MonitorEvent, QueueFile, Io, load_monitor_queue, save_monitor_queue, ensure_monitor_event_ids,
  enqueue_monitor_event, condense_monitor_events,
}

-- Up to the send: an early return, or a batch with the number of events it was made from.
pub data Begun : Type 0 where
  returned : QueueFile → Bool → Begun
  sending : QueueFile → ℕ → List MonitorEvent → Begun

abbrev pub begin_saved : ℕ → List MonitorEvent → QueueFile × Bool → Begun
begin_saved n events (file, true) = sending file n (condense_monitor_events events)
begin_saved n events (file, false) = returned file false

abbrev pub begin_with_ids : Io → QueueFile → ℕ → Option (List MonitorEvent × Bool) → Begun
begin_with_ids io file n none = returned file false
begin_with_ids io file n (some (events, false)) = sending file n (condense_monitor_events events)
begin_with_ids io file n (some (events, true)) =
    begin_saved n events (save_monitor_queue io file events)

abbrev pub begin_loaded : Io → QueueFile → Option (List MonitorEvent) → Begun
begin_loaded io file none = returned file false
begin_loaded io file (some []) = returned file true
begin_loaded io file (some (e ∷ es)) =
    begin_with_ids io file (length (e ∷ es)) (ensure_monitor_event_ids io.ids (e ∷ es))

unfoldable pub begin_flush : Io → QueueFile → Begun
unfolding load_monitor_queue save_monitor_queue ensure_monitor_event_ids
begin_flush io file = begin_loaded io file (load_monitor_queue io file)

-- After a send that succeeded.
abbrev pub clear_loaded : Io → QueueFile → ℕ → Option (List MonitorEvent) → QueueFile × Bool
clear_loaded io file n none = (file, false)
clear_loaded io file n (some remaining) =
    save_monitor_queue io file (if leb (length remaining) n then [] else drop n remaining)

unfoldable pub clear_sent : Io → QueueFile → ℕ → QueueFile × Bool
unfolding load_monitor_queue save_monitor_queue
clear_sent io file n = clear_loaded io file n (load_monitor_queue io file)

abbrev pub file_of : Begun → QueueFile
file_of (returned file good) = file
file_of (sending file n batch) = file

-- What another goroutine does while the lock is free: it enqueues an event, begins a flush, up to
-- its send, or ends a flush whose batch was made from `n` events.
pub data Meanwhile : Type 0 where
  enqueued : Io → MonitorEvent → Meanwhile
  begun : Io → Meanwhile
  ended : Io → ℕ → Meanwhile

unfoldable pub meanwhile : Meanwhile → QueueFile → QueueFile
unfolding begin_flush clear_sent
meanwhile (enqueued io ev) file = (enqueue_monitor_event io ev file).0
meanwhile (begun io) file = file_of (begin_flush io file)
meanwhile (ended io n) file = (clear_sent io file n).0

unfoldable pub all_meanwhile : List Meanwhile → QueueFile → QueueFile
unfolding meanwhile
all_meanwhile [] file = file
all_meanwhile (c ∷ calls) file = all_meanwhile calls (meanwhile c file)

abbrev pub after_send : Bool → Io → List Meanwhile → Begun → QueueFile × Bool × List MonitorEvent
after_send sent io during (returned file good) = (file, good, [])
after_send false io during (sending file n batch) = (all_meanwhile during file, false, batch)
after_send true io during (sending file n batch) =
    let (file', good) = clear_sent io (all_meanwhile during file) n in (file', good, batch)

-- The file, whether there was no error, and the batch that was handed to the send.
unfoldable pub flush_queue :
    Io → Bool → Io → List Meanwhile → QueueFile → QueueFile × Bool × List MonitorEvent
unfolding begin_flush clear_sent all_meanwhile
flush_queue before sent after during file = after_send sent after during (begin_flush before file)
