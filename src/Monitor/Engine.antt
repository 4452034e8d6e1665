-- ===== src/Monitor/Engine.antt =====
-- internal/monitor/manager.go and silence.go: one observation through the engine, and its tables.
pub mod Tick
pub mod Sync
pub mod Process
use rootmote_agent.Prelude.{
  ℕ, ◌+◌, Bool, true, false, ◌&&◌, ◌||◌, not, Option, none, some, List, [], ◌∷◌, ◌++◌, Text, codes,
  ◌==◌, text_eq, ltb, leb, if◌then◌else◌, exists,
}
use rootmote_agent.Prelude.Maps.{Map, lookup, insert}
use rootmote_agent.Store.Monitors.{
  MonitorRow, Silence, put_monitor_state, list_monitor_states, alert_silences_active,
  put_alert_silence, delete_alert_silence,
}
use rootmote_agent.Monitor.State.{
  Time, State, healthy, muted, in_episode, is_muted, Kind, Definition, MonitorState, Observation,
  key,
}
use rootmote_agent.Monitor.Machine.{Transition, step_state}
use rootmote_agent.Monitor.Registry.{DefinitionSet, resolve}
use rootmote_agent.Watchtower.Queue.{MonitorEvent, QueueFile, Io, enqueue_monitor_event, is_empty}
use rootmote_agent.Watchtower.Queue.Flush.{Meanwhile, flush_queue}

-- The manager with the tables and the queue file that it writes.
pub record Engine : Type 0 where
  pub defs : DefinitionSet
  pub states : Map Text MonitorState
  pub rows : Map Text MonitorRow
  pub silences : Map Text Silence
  pub queue : QueueFile

-- What the database, the random source, the file system and the relay do during one call.
pub record Faults : Type 0 where
  pub silences_deleted : Bool
  pub silences_queried : Bool
  pub event_id : Option Text
  pub enqueue : Io
  pub put : Bool
  pub flush_before : Io
  pub flush_sent : Bool
  pub flush_after : Io
  pub meanwhile : List Meanwhile

unfoldable pub new_state : Text → State → Time → Time → MonitorState
new_state k s now updated = record {
  key = k;
  state = s;
  consecutive_fail = 0;
  consecutive_ok = 0;
  first_failure_at = 0;
  last_transition_at = now;
  updated_at = updated;
}

-- The `MonitorState` that the engine writes for a disabled monitor.
unfoldable pub muted_state : Text → Time → MonitorState
unfolding new_state
muted_state k now = new_state k muted now now

-- `New`: the persisted rows become the states.
unfoldable pub load_states : Map Text MonitorState → List MonitorState → Map Text MonitorState
load_states states [] = states
load_states states (s ∷ persisted) = load_states (insert s.key s states) persisted

abbrev pub is_some {ℓ} : {A : Type ℓ} → Option A → Bool
is_some none = false
is_some (some a) = true

abbrev pub is_active : Text → Option (Map Text Time) → Bool
is_active k none = false
is_active k (some active) = is_some (lookup k active)

-- The table of silences afterwards, and whether the key is silenced.
unfoldable pub is_silenced : Faults → Text → Time → Map Text Silence → Map Text Silence × Bool
unfolding alert_silences_active
is_silenced f k now table =
    let (left, active) = alert_silences_active f.silences_deleted f.silences_queried now table in
    (left, is_active k active)

-- `Silence` for a duration: not positive clears. The database call succeeds or changes nothing.
unfoldable pub silence : Bool → Text → Text → ℕ → Time → Engine → Engine
unfolding put_alert_silence delete_alert_silence
silence done rule target d now m =
    let k = rule ++ (codes ":" ++ target) in
    let table =
      if ltb 0 d
      then put_alert_silence k rule target (now + d) m.silences
      else delete_alert_silence k m.silences in
    if done then record m { silences = table } else m

unfoldable pub was_failing : Engine → Kind → Text → Bool
unfolding in_episode
was_failing m kind target = elim (lookup (key kind target) m.states) [
  | none ↦ false
  | some rt ↦ in_episode rt.state
]

abbrev pub known_or_healthy : Option MonitorState → Text → Time → MonitorState
known_or_healthy none k now = new_state k healthy now 0
known_or_healthy (some rt) k now = rt

-- A node that was muted starts clean.
abbrev pub unmute : MonitorState → Text → Time → MonitorState
unmute rt k now = if is_muted rt.state then new_state k healthy now 0 else rt

-- `m.states[k] = rt`, then `PutMonitorState`.
unfoldable pub persist : Faults → Text → MonitorState → Engine → Engine
unfolding put_monitor_state
persist f k rt m = record m {
  states = insert k rt m.states;
  rows = put_monitor_state f.put rt m.rows;
}

unfoldable pub first_non_empty : Text → Text → Text
first_non_empty a b = if is_empty a then b else a

unfoldable pub event_for :
    Text → Kind → Observation → Definition → Transition → MonitorState → Time → MonitorEvent
unfolding first_non_empty
event_for id kind obs def tr rt now = record {
  event_id = id;
  monitor_id = [];
  monitor_kind = kind;
  target = obs.target;
  from_state = tr.from;
  to_state = tr.to;
  severity = first_non_empty obs.severity def.severity;
  first_failure_at = rt.first_failure_at;
  occurred_at = now;
  summary = obs.summary;
  attributes = obs.attributes;
}

unfoldable pub flush : Faults → Engine → Engine
flush f m = record m {
  queue = (flush_queue f.flush_before f.flush_sent f.flush_after f.meanwhile m.queue).0;
}

-- After `EnqueueMonitorEvent`.
abbrev pub after_enqueue : Faults → Text → MonitorState → Engine → QueueFile × Bool → Engine
after_enqueue f k rt m (queue, false) = record m { queue = queue }
after_enqueue f k rt m (queue, true) = flush f (persist f k rt (record m { queue = queue }))

abbrev pub send_event :
    Faults
    → Text
    → Kind
    → Observation
    → Definition
    → Transition
    → MonitorState
    → Time
    → Engine
    → Option Text
    → Engine
send_event f k kind obs def tr rt now m none = m
send_event f k kind obs def tr rt now m (some id) =
    after_enqueue f k rt m
      (enqueue_monitor_event f.enqueue (event_for id kind obs def tr rt now) m.queue)

-- A transition: silenced, or queued before the state is kept.
unfoldable pub emit :
    Faults
    → Text
    → Kind
    → Observation
    → Definition
    → Transition
    → MonitorState
    → Time
    → Engine
    → Engine
unfolding persist flush
emit f k kind obs def tr rt now m =
    let (left, silenced) = is_silenced f k now m.silences in
    let m' = record m { silences = left } in
    if silenced then persist f k rt m' else send_event f k kind obs def tr rt now m' f.event_id

abbrev pub finish_step :
    Faults
    → Text
    → Kind
    → Observation
    → Definition
    → Time
    → Engine
    → MonitorState
    → Option Transition
    → Engine
finish_step f k kind obs def now m rt none = persist f k rt m
finish_step f k kind obs def now m rt (some tr) = emit f k kind obs def tr rt now m

unfoldable pub process_enabled :
    Faults → Text → Kind → Observation → Definition → MonitorState → Time → Engine → Engine
unfolding persist emit
process_enabled f k kind obs def rt now m =
    let (stepped, tr) = step_state rt obs.failing now def in
    finish_step f k kind obs def now m (record stepped { updated_at = now }) tr

unfoldable pub process : Faults → Time → Kind → Observation → Engine → Engine
unfolding process_enabled muted_state persist new_state
process f now kind obs m =
    let k = key kind obs.target in
    let (def, enabled) = resolve m.defs kind obs.target in
    let rt = known_or_healthy (lookup k m.states) k now in
    if enabled
    then process_enabled f k kind obs def (unmute rt k now) now m
    else (if is_muted rt.state then m else persist f k (muted_state k now) m)
