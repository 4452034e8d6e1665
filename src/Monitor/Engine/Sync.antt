-- ===== src/Monitor/Engine/Sync.antt =====
-- `SetSyncedDefinitions` of internal/monitor/manager.go: the overlay and what it mutes at once, and
-- the restart that loads the persisted rows.
pub mod Muting
use rootmote_agent.Prelude.{
  Bool, true, false, ◌&&◌, ◌||◌, not, Option, none, some, List, [], ◌∷◌, ◌++◌, Text, text_beq,
  text_eq, if◌then◌else◌,
}
use rootmote_agent.Prelude.Maps.{Map, insert}
use rootmote_agent.Store.Monitors.{put_monitor_state, list_monitor_states, MonitorRow}
use rootmote_agent.Monitor.State.{Time, Definition, MonitorState, key, wildcard_target}
use rootmote_agent.Monitor.Keys.{has_prefix, key_prefix}
use rootmote_agent.Monitor.Registry.{set_synced, new_definition_set}
use rootmote_agent.Monitor.Engine.{Engine, muted_state, load_states}

-- The states, and the nodes to persist, in order.
abbrev pub Muted : Type 0
Muted = Map Text MonitorState × List MonitorState

-- `for k := range m.states` of a disabled wildcard.
unfoldable pub mute_prefix : Text → Time → Map Text MonitorState → Muted
mute_prefix prefix now [] = ([], [])
mute_prefix prefix now ((k, rt) ∷ states) =
    let (rest, updates) = mute_prefix prefix now states in
    if has_prefix k prefix
    then ((k, muted_state k now) ∷ rest, muted_state k now ∷ updates)
    else ((k, rt) ∷ rest, updates)

-- One definition of the loop.
unfoldable pub mute_definition : Time → Definition → Map Text MonitorState → Muted
unfolding mute_prefix
mute_definition now def states =
    if def.enabled
    then (states, [])
    else (if text_beq def.target wildcard_target
        then mute_prefix (key_prefix def.kind) now states
        else (let rt = muted_state (key def.kind def.target) now in
            (insert (key def.kind def.target) rt states, rt ∷ [])))

unfoldable pub mute_disabled : Time → List Definition → Map Text MonitorState → Muted
unfolding mute_definition
mute_disabled now [] states = (states, [])
mute_disabled now (def ∷ defs) states =
    let (states', updates) = mute_definition now def states in
    let (last, later) = mute_disabled now defs states' in (last, updates ++ later)

-- `PutMonitorState` for each update; each call of the database succeeds or changes nothing.
unfoldable pub put_all :
    (Text → Bool) → List MonitorState → Map Text MonitorRow → Map Text MonitorRow
unfolding put_monitor_state
put_all done [] rows = rows
put_all done (rt ∷ updates) rows = put_all done updates (put_monitor_state (done rt.key) rt rows)

unfoldable pub set_synced_definitions : (Text → Bool) → Time → List Definition → Engine → Engine
unfolding set_synced mute_disabled put_all
set_synced_definitions done now defs m =
    let (states, updates) = mute_disabled now defs m.states in
    record m { defs = set_synced m.defs defs; states = states; rows = put_all done updates m.rows }

-- `New` over what a stopped agent has left: the database and the queue file stay, the states are
-- read back if the query succeeds, and nothing is synced yet.
unfoldable pub restart : Bool → List Definition → Engine → Engine
unfolding load_states list_monitor_states new_definition_set
restart listed defaults m = record m {
  defs = new_definition_set defaults;
  states = if listed then load_states [] (list_monitor_states m.rows) else [];
}
