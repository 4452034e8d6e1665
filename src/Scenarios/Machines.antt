-- ===== src/Scenarios/Machines.antt =====
-- The state machine of internal/monitor/statemachine.go and the registry of
-- internal/monitor/definitions.go on concrete monitors.
use rootmote_agent.Store.Monitors.{to_row, from_row}
use rootmote_agent.Store.Monitors.RoundTrip.{from_row-to_row}
use rootmote_agent.Prelude.{◌+◌, ◌*◌, ◌≡◌, refl, true, false, ◌||◌, List, [], ◌∷◌, codes, arith}
use rootmote_agent.Prelude.Int.{pos}
use rootmote_agent.Monitor.State.{
  Time, second, State, healthy, firing, resolved, Definition, MonitorState, zero_definition,
  failure_threshold_of, recovery_threshold_of, cooldown_seconds_of, wildcard_target,
}
use rootmote_agent.Monitor.Machine.{step_state, reset_to}
use rootmote_agent.Monitor.Machine.Runs.{Tick, run_ticks, steady, Alternates}
use rootmote_agent.Monitor.Machine.Episodes.{run-Alternates, IsCounted, step-IsCounted}
use rootmote_agent.Monitor.Machine.Debounce.{
  healthy-steady, run-Transient, firing-steady_success, fired, closed,
}
use rootmote_agent.Monitor.Machine.Cooldown.{run-Within, step-wrapped_cooldown}
use rootmote_agent.Monitor.Keys.{IsPlain, key_injective}
use rootmote_agent.Monitor.Registry.{
  DefinitionSet, resolve, set_synced, new_definition_set, targets, with_flag,
}
use rootmote_agent.Monitor.Registry.Laws.{effective, resolve-effective}
use rootmote_agent.Monitor.Registry.Targets.{
  has_target, names_target, some_definition, has_target-targets,
}

abbrev pub cpu_definition : Definition
cpu_definition = record zero_definition {
  id = codes "cpu-1";
  kind = codes "cpu";
  target = codes "host";
  enabled = true;
  failure_threshold = pos 2;
  recovery_threshold = pos 1;
  cooldown_seconds = pos 60;
}

abbrev pub node_in : State → MonitorState
node_in s = record {
  key = codes "cpu:host";
  state = s;
  consecutive_fail = 0;
  consecutive_ok = 0;
  first_failure_at = 0;
  last_transition_at = 100;
  updated_at = 100;
}

abbrev times : List Time
times = 101 ∷ 102 ∷ 103 ∷ []

abbrev mixed_ticks : List Tick
mixed_ticks =
    record { failing = true; now = 101; def = cpu_definition }
    ∷ record { failing = false; now = 102; def = cpu_definition }
    ∷ record { failing = true; now = 103; def = cpu_definition }
    ∷ []

run-Alternates_example :
    Alternates false (run_ticks (node_in healthy) (steady true cpu_definition times)).1
run-Alternates_example = run-Alternates (node_in healthy) (steady true cpu_definition times)

step-IsCounted_example :
    IsCounted cpu_definition (step_state (node_in healthy) true 101 cpu_definition).0
step-IsCounted_example = step-IsCounted (node_in healthy) true 101 cpu_definition refl

healthy-steady_example :
    (run_ticks (node_in healthy) (steady true cpu_definition times)).1 ≡ fired ∷ []
unfolding failure_threshold_of
healthy-steady_example = healthy-steady cpu_definition times (node_in healthy) refl

run-Transient_example : (run_ticks (node_in healthy) mixed_ticks).1 ≡ []
unfolding failure_threshold_of
run-Transient_example =
    run-Transient cpu_definition mixed_ticks (node_in healthy) refl (refl, (refl, (refl, tt)))
      (omega arith, (omega arith, tt))

firing-steady_success_example :
    (run_ticks (node_in firing) (steady false cpu_definition times)).1 ≡ closed ∷ []
unfolding recovery_threshold_of
firing-steady_success_example = firing-steady_success cpu_definition times (node_in firing) refl

run-Within_example : run_ticks (node_in resolved) mixed_ticks ≡ (node_in resolved, [])
unfolding cooldown_seconds_of
run-Within_example =
    run-Within mixed_ticks (node_in resolved) refl
      ((omega arith, omega arith), ((omega arith, omega arith), ((omega arith, omega arith), tt)))

abbrev long_cooldown : Definition
long_cooldown = record cpu_definition { cooldown_seconds = pos 9_223_372_037 }

step-wrapped_cooldown_example :
    step_state (node_in resolved) true 101 long_cooldown
    ≡ step_state (reset_to (node_in resolved) healthy 101) true 101 long_cooldown
unfolding cooldown_seconds_of
step-wrapped_cooldown_example =
    step-wrapped_cooldown (node_in resolved) true 101 long_cooldown refl (omega arith) (omega arith)

pub cpu-IsPlain : IsPlain (codes "cpu")
cpu-IsPlain = (ground arith, (ground arith, (ground arith, tt)))

key_injective_example : (codes "cpu" ≡ codes "cpu") × (codes "host" ≡ codes "host")
key_injective_example =
    key_injective (codes "cpu") (codes "cpu") (codes "host") (codes "host") cpu-IsPlain cpu-IsPlain
      refl

abbrev pub cpu_wildcard : Definition
cpu_wildcard = record cpu_definition { target = wildcard_target; enabled = false }

abbrev pub cpu_set : DefinitionSet
cpu_set = set_synced (new_definition_set (cpu_wildcard ∷ [])) (cpu_definition ∷ [])

resolve-effective_example :
    resolve
      (set_synced (new_definition_set (cpu_wildcard ∷ [])) (cpu_definition ∷ []))
      (codes "cpu")
      (codes "host")
    ≡ with_flag (effective (cpu_wildcard ∷ []) (cpu_definition ∷ []) (codes "cpu") (codes "host"))
resolve-effective_example =
    resolve-effective (cpu_wildcard ∷ []) (cpu_definition ∷ []) (codes "cpu") (codes "host")
      cpu-IsPlain (cpu-IsPlain, tt) (cpu-IsPlain, tt)

has_target-targets_example : has_target (codes "host") (targets cpu_set (codes "cpu")) ≡ (
    some_definition (names_target (codes "cpu") (codes "host")) cpu_set.defaults
    || some_definition (names_target (codes "cpu") (codes "host")) cpu_set.synced)
has_target-targets_example = has_target-targets cpu_set (codes "cpu") (codes "host")

from_row-to_row_example :
    from_row (to_row (record (node_in firing) { last_transition_at = 7 * second + 5 }))
    ≡ record (node_in firing) { last_transition_at = 7 * second; updated_at = 0 }
from_row-to_row_example =
    from_row-to_row (record (node_in firing) { last_transition_at = 7 * second + 5 })
