-- ===== src/Scenarios/Engines.antt =====
-- internal/monitor/manager.go on a concrete engine with one processor monitor.
use rootmote_agent.Prelude.{
  ℕ, ◌≡◌, ◌≢◌, refl, Bool, true, false, ◌&&◌, ◌||◌, not, Option, none, some, List, [], ◌∷◌, ◌++◌,
  Text, codes, text_eq, text_beq, arith, if◌then◌else◌, map, exists,
}
use rootmote_agent.Prelude.Maps.{Map, lookup}
use rootmote_agent.Monitor.State.{
  State, healthy, pending, firing, muted, Definition, MonitorState, Observation, key,
  wildcard_target,
}
use rootmote_agent.Monitor.Machine.{Transition, step_state}
use rootmote_agent.Monitor.Registry.{resolve, set_synced}
use rootmote_agent.Monitor.Engine.{Engine, Faults, process, is_silenced, muted_state}
use rootmote_agent.Monitor.Engine.Process.{
  announced, is_kept, current, stepped, lookup-process, process-open, process-refused,
}
use rootmote_agent.Monitor.Engine.Tick.{Evaluator, run_evaluator, gone_targets, is_reported}
use rootmote_agent.Monitor.Engine.Tick.Absent.{
  is_reported-gone_targets, run_evaluator-held, episode_entry,
}
use rootmote_agent.Monitor.Engine.Sync.{set_synced_definitions}
use rootmote_agent.Monitor.Engine.Sync.Muting.{
  mutes, lookup-set_synced_definitions, sync_mutes_enabled,
}
use rootmote_agent.Watchtower.Queue.{Io, complete}
use rootmote_agent.Scenarios.Machines.{cpu_definition, cpu_wildcard, cpu_set, node_in, cpu-IsPlain}

abbrev cpu : Text
cpu = codes "cpu"

abbrev host_target : Text
host_target = codes "host"

abbrev pub calm_io : Io
calm_io = record { readable = true; ids = codes "e1" ∷ []; write = complete }

abbrev calm : Faults
calm = record {
  silences_deleted = true;
  silences_queried = true;
  event_id = some (codes "e0");
  enqueue = calm_io;
  put = true;
  flush_before = calm_io;
  flush_sent = true;
  flush_after = calm_io;
  meanwhile = [];
}

abbrev no_ids : Faults
no_ids = record calm { event_id = none }

abbrev reading : Bool → Bool → Observation
reading failing hold = record {
  target = host_target;
  failing = failing;
  severity = [];
  summary = codes "load";
  attributes = [];
  hold = hold;
}

abbrev pending_node : MonitorState
pending_node = record (node_in pending) { consecutive_fail = 1 }

abbrev engine : Engine
engine = record {
  defs = cpu_set;
  states = (codes "cpu:host", pending_node) ∷ [];
  rows = [];
  silences = [];
  queue = some [];
}

abbrev fired_node : MonitorState
fired_node = record pending_node {
  state = firing;
  consecutive_fail = 2;
  last_transition_at = 101;
  updated_at = 101;
}

lookup-process_example :
    let m = engine in
    let k = key cpu host_target in
    let def = (resolve m.defs cpu host_target).0 in
    let rt = stepped k (reading true false) def 101 m in
    lookup (codes "cpu:host") (process calm 101 cpu (reading true false) m).states ≡ (
      if is_kept calm k cpu
          (reading true false)
          def
          101
          m
          (step_state (current k 101 m) true 101 def).1
          rt
        && text_beq k (codes "cpu:host")
      then some rt
      else lookup (codes "cpu:host") m.states)
unfolding resolve lookup set_synced rootmote_agent.Prelude.Maps.insert key
lookup-process_example =
    lookup-process calm 101 cpu (reading true false) engine (codes "cpu:host") refl

process-open_example :
    (tr : Transition) × ((step_state
        (current (key cpu host_target) 101 engine)
        true
        101
        (resolve engine.defs cpu host_target).0).1
      ≡ some tr)
    × (((is_silenced calm (key cpu host_target) 101 engine.silences).1
          || announced calm
              (key cpu host_target)
              cpu
              (reading true false)
              (resolve engine.defs cpu host_target).0
              101
              engine
              tr
              fired_node)
        ≡ true)
unfolding resolve lookup set_synced rootmote_agent.Prelude.Maps.insert key process step_state
    rootmote_agent.Monitor.State.failure_threshold_of is_silenced
    rootmote_agent.Watchtower.Queue.enqueue_monitor_event rootmote_agent.Monitor.Engine.event_for
process-open_example =
    process-open calm 101 cpu (reading true false) engine fired_node refl refl (ground arith)

process-refused_example :
    ((process no_ids 101 cpu (reading true false) engine).states ≡ engine.states)
    × ((process no_ids 101 cpu (reading true false) engine).rows ≡ engine.rows)
unfolding resolve lookup set_synced rootmote_agent.Prelude.Maps.insert key step_state
    rootmote_agent.Monitor.State.failure_threshold_of is_silenced
process-refused_example = process-refused no_ids 101 cpu (reading true false) engine refl refl

is_reported-gone_targets_example :
    is_reported host_target (gone_targets cpu [] engine.states)
    ≡ (not (is_reported host_target []) && episode_entry (key cpu host_target) engine.states)
is_reported-gone_targets_example = is_reported-gone_targets cpu [] engine.states host_target

abbrev held_evaluator : Evaluator
held_evaluator = record {
  kind = cpu;
  evaluate = λ m. some (reading true true ∷ []);
  observed_calls = λ t. (calm, 101);
  absent_calls = λ t. (calm, 101);
}

run_evaluator-held_example :
    lookup (key cpu host_target) (run_evaluator held_evaluator engine).states
    ≡ lookup (key cpu host_target) engine.states
run_evaluator-held_example =
    run_evaluator-held held_evaluator (reading true true ∷ []) engine host_target refl
      ((λ e. refl), tt) refl

lookup-set_synced_definitions_example :
    lookup
      (codes "cpu:host")
      (set_synced_definitions (λ k. true) 101 (cpu_wildcard ∷ []) engine).states
    ≡ some (
        if exists (mutes (codes "cpu:host")) (cpu_wildcard ∷ [])
        then muted_state (codes "cpu:host") 101
        else pending_node)
unfolding rootmote_agent.Prelude.Maps.lookup
lookup-set_synced_definitions_example =
    lookup-set_synced_definitions (λ k. true) 101 (cpu_wildcard ∷ []) engine (codes "cpu:host")
      pending_node refl

sync_mutes_enabled_example :
    let k = key cpu host_target in
    let m' = set_synced_definitions (λ k. true) 101 (cpu_definition ∷ cpu_wildcard ∷ []) engine in
    (lookup k m'.states ≡ some (muted_state k 101))
    × (resolve m'.defs cpu host_target ≡ (cpu_definition, true))
unfolding key rootmote_agent.Prelude.Maps.lookup
sync_mutes_enabled_example =
    sync_mutes_enabled (λ k. true) 101 cpu_definition cpu_wildcard engine pending_node cpu-IsPlain
      refl (ground arith) refl refl refl refl
