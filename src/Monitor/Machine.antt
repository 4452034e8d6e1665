-- ===== src/Monitor/Machine.antt =====
-- internal/monitor/statemachine.go: one step of the state machine of a monitor.
pub mod Episodes
pub mod Debounce
pub mod Cooldown
pub mod Runs
use rootmote_agent.Prelude.{
  ℕ, ◌+◌, ◌*◌, ◌-◌, ◌%◌, ◌^◌, Bool, true, false, Option, none, some, ltb, leb, if◌then◌else◌,
}
use rootmote_agent.Monitor.State.{
  Time, second, State, unknown, healthy, pending, firing, acknowledged, recovering, resolved, muted,
  other, Definition, MonitorState, failure_threshold_of, recovery_threshold_of, cooldown_seconds_of,
}

pub record Transition : Type 0 where
  pub from : State
  pub to : State

abbrev pub Step : Type 0
Step = MonitorState × Option Transition

abbrev pub is_healthy : State → Bool
is_healthy healthy = true
is_healthy _ = false

unfoldable pub reset_to : MonitorState → State → Time → MonitorState
reset_to rt s now = record rt {
  state = s;
  consecutive_fail = 0;
  consecutive_ok = 0;
  last_transition_at = now;
  first_failure_at = if is_healthy s then 0 else rt.first_failure_at;
}

unfoldable pub step_healthy : MonitorState → Bool → Time → Definition → Step
unfolding reset_to
step_healthy rt false now def = (if is_healthy rt.state then rt else reset_to rt healthy now, none)
step_healthy rt true now def =
    let failed = record rt {
      state = pending;
      consecutive_fail = 1;
      consecutive_ok = 0;
      first_failure_at = now;
      last_transition_at = now;
    } in
    if leb (failure_threshold_of def) 1
    then (record failed { state = firing }, some (record { from = pending; to = firing }))
    else (failed, none)

unfoldable pub step_pending : MonitorState → Bool → Time → Definition → Step
unfolding reset_to
step_pending rt false now def = (reset_to rt healthy now, none)
step_pending rt true now def =
    let counted = record rt { consecutive_fail = rt.consecutive_fail + 1 } in
    if leb (failure_threshold_of def) counted.consecutive_fail
    then (
      record counted { state = firing; last_transition_at = now },
      some (record { from = pending; to = firing }),
    )
    else (counted, none)

unfoldable pub step_firing : MonitorState → Bool → Time → Step
step_firing rt true now =
    (record rt { consecutive_fail = rt.consecutive_fail + 1; consecutive_ok = 0 }, none)
step_firing rt false now =
    (record rt { state = recovering; consecutive_ok = 1; last_transition_at = now }, none)

unfoldable pub step_recovering : MonitorState → Bool → Time → Definition → Step
step_recovering rt true now def =
    (record rt { state = firing; consecutive_ok = 0; last_transition_at = now }, none)
step_recovering rt false now def =
    let counted = record rt { consecutive_ok = rt.consecutive_ok + 1 } in
    if leb (recovery_threshold_of def) counted.consecutive_ok
    then (
      record counted { state = resolved; last_transition_at = now },
      some (record { from = recovering; to = resolved }),
    )
    else (counted, none)

-- `time.Duration(seconds) * time.Second`, an int64 that wraps around.
unfoldable pub cooldown_bits : Definition → ℕ
cooldown_bits def = (cooldown_seconds_of def * second) % 2 ^ 64

-- `now.Sub(last) < d` for the int64 with the bits `d`: a negative one puts its size on the left.
unfoldable pub sub_before : Time → Time → ℕ → Bool
sub_before now last d = if ltb d (2 ^ 63) then ltb now (last + d) else ltb (now + (2 ^ 64 - d)) last

unfoldable pub cooling_down : MonitorState → Time → Definition → Bool
unfolding sub_before cooldown_bits
cooling_down rt now def = sub_before now rt.last_transition_at (cooldown_bits def)

unfoldable pub dispatch : State → MonitorState → Bool → Time → Definition → Step
unfolding step_healthy step_pending step_firing step_recovering
dispatch firing rt failing now def = step_firing rt failing now
dispatch recovering rt failing now def = step_recovering rt failing now def
dispatch pending rt failing now def = step_pending rt failing now def
dispatch unknown rt failing now def = step_healthy rt failing now def
dispatch healthy rt failing now def = step_healthy rt failing now def
dispatch acknowledged rt failing now def = step_healthy rt failing now def
dispatch resolved rt failing now def = step_healthy rt failing now def
dispatch muted rt failing now def = step_healthy rt failing now def
dispatch (other s) rt failing now def = step_healthy rt failing now def

abbrev pub is_resolved : State → Bool
is_resolved resolved = true
is_resolved _ = false

-- A resolved node waits for its cooldown, and is healthy from the first tick after it.
unfoldable pub step_state : MonitorState → Bool → Time → Definition → Step
unfolding dispatch reset_to cooling_down
step_state rt failing now def =
    if is_resolved rt.state
    then (if cooling_down rt now def
        then (rt, none)
        else (let fresh = reset_to rt healthy now in dispatch fresh.state fresh failing now def))
    else dispatch rt.state rt failing now def
