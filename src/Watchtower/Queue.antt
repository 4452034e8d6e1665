-- ===== src/Watchtower/Queue.antt =====
-- internal/watchtower/monitor_events.go: the offline queue of monitor events.
pub mod Flush
pub mod Stored
pub mod Overtaken
use rootmote_agent.Prelude.{
  ℕ, zero, suc, ◌+◌, ◌*◌, ◌/◌, Bool, true, false, ◌&&◌, ◌||◌, not, Option, none, some, List, [],
  ◌∷◌, ◌++◌, map, Text, codes, ◌==◌, text_eq, nat_eq, eqb, ltb, leb, if◌then◌else◌, length, drop,
  get_elem?,
}
use rootmote_agent.Prelude.Maps.{Map, insert, lookup}
use rootmote_agent.Monitor.State.{Time, second, State, firing, resolved, Kind, key}

pub record MonitorEvent : Type 0 where
  pub event_id : Text
  pub monitor_id : Text
  pub monitor_kind : Text
  pub target : Text
  pub from_state : State
  pub to_state : State
  pub severity : Text
  pub first_failure_at : Time
  pub occurred_at : Time
  pub summary : Text
  pub attributes : Map Text Text

-- RFC 3339 texts have whole seconds.
abbrev pub truncate : Time → Time
truncate t = t / second * second

-- An event as it comes back from the queue file: `toMonitorEventWire`, then
-- `fromMonitorEventWire`.
unfoldable pub through_wire : MonitorEvent → MonitorEvent
through_wire e = record e {
  first_failure_at = truncate e.first_failure_at;
  occurred_at = truncate e.occurred_at;
}

-- What the file holds: a list of events (none if it is missing or empty), or a text that does not
-- parse.
abbrev pub QueueFile : Type 0
QueueFile = Option (List MonitorEvent)

-- How a write ends: complete, failed before it began, failed once the file was emptied, failed midway,
-- or complete with a failing chmod.
pub data Write : Type 0 where
  complete untouched emptied torn unprotected : Write

-- What the file system and the random source do in one call. A supply of ids that is used up is
-- a failing source.
pub record Io : Type 0 where
  pub readable : Bool
  pub ids : List Text
  pub write : Write

unfoldable pub load_monitor_queue : Io → QueueFile → Option (List MonitorEvent)
load_monitor_queue io file = if io.readable then file else none

unfoldable pub save_monitor_queue : Io → QueueFile → List MonitorEvent → QueueFile × Bool
unfolding through_wire
save_monitor_queue io file events = elim io.write [
  | complete ↦ (some (map through_wire events), true)
  | untouched ↦ (file, false)
  | emptied ↦ (some [], false)
  | torn ↦ (none, false)
  | unprotected ↦ (some (map through_wire events), false)
]

abbrev pub is_empty : Text → Bool
is_empty [] = true
is_empty (c ∷ cs) = false

abbrev pub prepend :
    MonitorEvent → Bool → Option (List MonitorEvent × Bool) → Option (List MonitorEvent × Bool)
prepend e changed none = none
prepend e changed (some (es, changed')) = some (e ∷ es, changed || changed')

-- The events with their ids, and whether any was missing; `none` where no id can be minted.
unfoldable pub ensure_monitor_event_ids :
    List Text → List MonitorEvent → Option (List MonitorEvent × Bool)
ensure_monitor_event_ids ids [] = some ([], false)
ensure_monitor_event_ids [] (e ∷ es) =
    let rest = ensure_monitor_event_ids [] es in
    if is_empty e.event_id then none else prepend e false rest
ensure_monitor_event_ids (id ∷ ids) (e ∷ es) =
    let kept = ensure_monitor_event_ids (id ∷ ids) es in
    let minted = ensure_monitor_event_ids ids es in
    if is_empty e.event_id
    then prepend (record e { event_id = id }) true minted
    else prepend e false kept

abbrev pub save_with_ids : Io → QueueFile → Option (List MonitorEvent × Bool) → QueueFile × Bool
save_with_ids io file none = (file, false)
save_with_ids io file (some (events, changed)) = save_monitor_queue io file events

abbrev pub append_loaded :
    Io → QueueFile → MonitorEvent → Option (List MonitorEvent) → QueueFile × Bool
append_loaded io file ev none = (file, false)
append_loaded io file ev (some events) =
    save_with_ids io file (ensure_monitor_event_ids io.ids (events ++ (ev ∷ [])))

-- The file afterwards, and whether the call returned no error.
unfoldable pub enqueue_monitor_event : Io → MonitorEvent → QueueFile → QueueFile × Bool
unfolding load_monitor_queue save_monitor_queue ensure_monitor_event_ids
enqueue_monitor_event io ev file = append_loaded io file ev (load_monitor_queue io file)

unfoldable pub monitor_event_key : MonitorEvent → Text
monitor_event_key e = key e.monitor_kind e.target

-- An index is `none` where Go has -1.
pub record History : Type 0 where
  pub firing_index : Option ℕ
  pub resolved_index : Option ℕ
  pub earliest : Time

abbrev pub no_history : History
no_history = record { firing_index = none; resolved_index = none; earliest = 0 }

abbrev pub history_or_new : Option History → History
history_or_new none = no_history
history_or_new (some h) = h

abbrev pub earlier : Time → Time → Time
earlier earliest t = if eqb earliest 0 || (not (eqb t 0) && ltb t earliest) then t else earliest

-- The `switch` on the state that the event leads to.
unfoldable pub add_to_history : ℕ → MonitorEvent → History → History
add_to_history i event h = elim event.to_state [
  | firing ↦ record {
    firing_index = some i;
    resolved_index = none;
    earliest = event.first_failure_at;
  }
  | resolved ↦ record h {
    resolved_index = some i;
    earliest = earlier h.earliest event.first_failure_at;
  }
  | _ ↦ record h { earliest = earlier h.earliest event.first_failure_at }
]

-- The first loop, from index `i`.
unfoldable pub build_histories : ℕ → Map Text History → List MonitorEvent → Map Text History
unfolding add_to_history
build_histories i histories [] = histories
build_histories i histories (event ∷ events) =
    let k = monitor_event_key event in
    build_histories (i + 1)
      (insert k (add_to_history i event (history_or_new (lookup k histories))) histories) events

-- `selected[index] = events[index]`, with the earliest failure of the history.
abbrev pub select_index :
    List MonitorEvent → Time → Option ℕ → Map ℕ MonitorEvent → Map ℕ MonitorEvent
select_index events earliest none selected = selected
select_index events earliest (some i) selected = elim (get_elem? events i) [
  | none ↦ selected
  | some event ↦ insert i (record event { first_failure_at = earliest }) selected
]

-- The second loop.
unfoldable pub select_events :
    List MonitorEvent → Map Text History → Map ℕ MonitorEvent → Map ℕ MonitorEvent
select_events events [] selected = selected
select_events events ((k, h) ∷ histories) selected = select_events events histories (
    select_index events h.earliest h.resolved_index
      (select_index events h.earliest h.firing_index selected))

abbrev pub add_selected : Option MonitorEvent → List MonitorEvent → List MonitorEvent
add_selected none out = out
add_selected (some event) out = event ∷ out

-- The third loop, from index `i`.
unfoldable pub collect : ℕ → Map ℕ MonitorEvent → List MonitorEvent → List MonitorEvent
collect i selected [] = []
collect i selected (event ∷ events) =
    add_selected (lookup i selected) (collect (i + 1) selected events)

unfoldable pub condense_monitor_events : List MonitorEvent → List MonitorEvent
unfolding build_histories select_events collect monitor_event_key
condense_monitor_events events =
    collect 0 (select_events events (build_histories 0 [] events) []) events
