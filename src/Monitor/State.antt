-- ===== src/Monitor/State.antt =====
-- internal/monitor/types.go and the row of internal/store that holds a monitor's runtime state.
use rootmote_agent.Prelude.{ℕ, Bool, true, false, Text, codes, [], ◌++◌}
use rootmote_agent.Prelude.Int.{ℤ, pos, positive_or}
use rootmote_agent.Prelude.Maps.{Map}

-- A Go `time.Time` as the nanoseconds since Go's zero time, which is 0.
abbrev pub Time : Type 0
Time = ℕ

abbrev pub second : ℕ
second = 1_000_000_000

-- `other` is every string that the engine gives no meaning, the empty one included.
pub data State : Type 0 where
  unknown healthy pending firing acknowledged recovering resolved muted : State
  other : Text → State

unfoldable pub in_episode : State → Bool
in_episode pending = true
in_episode firing = true
in_episode recovering = true
in_episode acknowledged = true
in_episode _ = false

abbrev pub is_muted : State → Bool
is_muted muted = true
is_muted _ = false

abbrev pub Kind : Type 0
Kind = Text

-- `int` fields keep their sign. The two floating-point thresholds are in thousandths.
pub record Definition : Type 0 where
  pub id : Text
  pub server_id : Text
  pub kind : Kind
  pub target : Text
  pub enabled : Bool
  pub severity : Text
  pub evaluation_location : Text
  pub failure_threshold : ℤ
  pub recovery_threshold : ℤ
  pub cooldown_seconds : ℤ
  pub firing_threshold : ℤ
  pub recovery_value : ℤ
  pub params : Map Text Text

-- `Definition{}`
abbrev pub zero_definition : Definition
zero_definition = record {
  id = [];
  server_id = [];
  kind = [];
  target = [];
  enabled = false;
  severity = [];
  evaluation_location = [];
  failure_threshold = pos 0;
  recovery_threshold = pos 0;
  cooldown_seconds = pos 0;
  firing_threshold = pos 0;
  recovery_value = pos 0;
  params = [];
}

unfoldable pub failure_threshold_of : Definition → ℕ
unfolding positive_or
failure_threshold_of d = positive_or d.failure_threshold 3

unfoldable pub recovery_threshold_of : Definition → ℕ
unfolding positive_or
recovery_threshold_of d = positive_or d.recovery_threshold 3

unfoldable pub cooldown_seconds_of : Definition → ℕ
unfolding positive_or
cooldown_seconds_of d = positive_or d.cooldown_seconds 300

-- `store.MonitorState`. The counters are `int`s that grow by one a tick; they are left unbounded.
pub record MonitorState : Type 0 where
  pub key : Text
  pub state : State
  pub consecutive_fail : ℕ
  pub consecutive_ok : ℕ
  pub first_failure_at : Time
  pub last_transition_at : Time
  pub updated_at : Time

pub record Observation : Type 0 where
  pub target : Text
  pub failing : Bool
  pub severity : Text
  pub summary : Text
  pub attributes : Map Text Text
  pub hold : Bool

abbrev pub wildcard_target : Text
wildcard_target = codes "*"

unfoldable pub key : Kind → Text → Text
key kind target = kind ++ (codes ":" ++ target)
