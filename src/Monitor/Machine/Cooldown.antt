-- ===== src/Monitor/Machine/Cooldown.antt =====
-- What a resolved node of statemachine.go does during its cooldown and after it.
use rootmote_agent.Prelude.{
  ◌+◌, ◌*◌, ◌^◌, ◌%◌, ◌≤◌, ◌<◌, ◌≡◌, refl, Bool, true, none, List, [], ◌∷◌, arith,
}
use rootmote_agent.Monitor.State.{
  Time, second, healthy, resolved, Definition, MonitorState, cooldown_seconds_of,
}
use rootmote_agent.Monitor.Machine.{step_state, cooling_down, reset_to}
use rootmote_agent.Monitor.Machine.Runs.{Tick, run_ticks}

-- A tick before the end of the cooldown that began at `since`, for a cooldown that fits an int64
-- of nanoseconds.
abbrev pub Within : Time → Tick → Type 0
Within since k =
    (cooldown_seconds_of k.def * second < 2 ^ 63)
    × (k.now < since + cooldown_seconds_of k.def * second)

abbrev pub AllWithin : Time → List Tick → Type 0
AllWithin since [] = Unit
AllWithin since (k ∷ ks) = Within since k × AllWithin since ks

pub cooling_down-Within :
    (rt : MonitorState) (k : Tick)
    → Within rt.last_transition_at k
    → cooling_down rt k.now k.def ≡ true
unfolding cooling_down
cooling_down-Within rt k w = ground arith

step-Within :
    (rt : MonitorState) (k : Tick)
    → rt.state ≡ resolved
    → Within rt.last_transition_at k
    → step_state rt k.failing k.now k.def ≡ (rt, none)
unfolding step_state
step-Within rt k s w = rw s (rw (cooling_down-Within rt k w))

-- During the cooldown of a resolved node nothing changes and nothing is emitted, whatever is
-- observed.
pub run-Within :
    (ks : List Tick) (rt : MonitorState)
    → rt.state ≡ resolved
    → AllWithin rt.last_transition_at ks
    → run_ticks rt ks ≡ (rt, [])
unfolding run_ticks
run-Within [] rt s w = refl
run-Within (k ∷ ks) rt s w = rw (step-Within rt k s w.0) (rw (run-Within ks rt s w.1))

-- The first tick at or after the end of the cooldown acts as on a healthy node.
pub step-after_cooldown :
    (rt : MonitorState) (failing : Bool) (now : Time) (def : Definition)
    → rt.state ≡ resolved
    → cooldown_seconds_of def * second < 2 ^ 63
    → rt.last_transition_at + cooldown_seconds_of def * second ≤ now
    → step_state rt failing now def ≡ step_state (reset_to rt healthy now) failing now def
unfolding step_state
step-after_cooldown rt failing now def s fits over = ground arith

-- A cooldown of which the nanoseconds, modulo 2^64, reach 2^63 is a negative duration: the first
-- tick that is not before the resolution already acts as on a healthy node.
pub step-wrapped_cooldown :
    (rt : MonitorState) (failing : Bool) (now : Time) (def : Definition)
    → rt.state ≡ resolved
    → 2 ^ 63 ≤ cooldown_seconds_of def * second % 2 ^ 64
    → rt.last_transition_at ≤ now
    → step_state rt failing now def ≡ step_state (reset_to rt healthy now) failing now def
unfolding step_state
step-wrapped_cooldown rt failing now def s negative later = ground arith
