-- ===== src/Monitor/Machine/Episodes.antt =====
-- Every run of statemachine.go opens and closes alerts in turn, and keeps its counters in bounds.
use rootmote_agent.Prelude.{◌<◌, ◌≡◌, Bool, List, [], ◌∷◌, arith}
use rootmote_agent.Monitor.State.{
  Time, State, healthy, pending, recovering, Definition, MonitorState, failure_threshold_of,
}
use rootmote_agent.Monitor.Machine.{Transition, step_state}
use rootmote_agent.Monitor.Machine.Runs.{Tick, run_ticks, note, is_open, Alternates}

-- What one step may emit, by whether an alert is open before it.
step-Alternates :
    (rt : MonitorState) (failing : Bool) (now : Time) (def : Definition) (ts : List Transition)
    → Alternates (is_open (step_state rt failing now def).0.state) ts
    → Alternates (is_open rt.state) (note (step_state rt failing now def).1 ts)
unfolding step_state
step-Alternates rt failing now def ts h = ground arith

-- From any node, over any ticks, firing and resolved transitions alternate: no alert is opened
-- twice without being closed between, and none is closed that is not open.
pub run-Alternates :
    (rt : MonitorState) (ks : List Tick) → Alternates (is_open rt.state) (run_ticks rt ks).1
unfolding run_ticks
run-Alternates rt [] = tt
run-Alternates rt (k ∷ ks) =
    step-Alternates rt k.failing k.now k.def _
      (run-Alternates (step_state rt k.failing k.now k.def).0 ks)

-- What the counters of a node mean under a definition.
abbrev pub CountsIn : State → Definition → MonitorState → Type 0
CountsIn pending def rt =
    (0 < rt.consecutive_fail) × (rt.consecutive_fail < failure_threshold_of def)
CountsIn recovering def rt = 0 < rt.consecutive_ok
CountsIn healthy def rt = rt.consecutive_fail ≡ 0
CountsIn _ def rt = Unit

abbrev pub IsCounted : Definition → MonitorState → Type 0
IsCounted def rt = CountsIn rt.state def rt

-- A pending node has seen at least one failure and fewer than the threshold, a recovering one at
-- least one success, and a healthy one no failure: every step keeps this.
pub step-IsCounted :
    (rt : MonitorState) (failing : Bool) (now : Time) (def : Definition)
    → IsCounted def rt
    → IsCounted def (step_state rt failing now def).0
unfolding step_state
step-IsCounted rt failing now def h = ground arith
