-- ===== src/Store/Monitors.antt =====
-- internal/store/store.go: the tables `monitor_states` and `alert_silences`. A row holds whole
-- seconds; the offset of the Unix epoch is a whole number of seconds and is left out.
pub mod RoundTrip
use rootmote_agent.Prelude.{
  ℕ, ◌*◌, ◌/◌, Bool, true, false, Option, none, some, List, [], ◌∷◌, Text, eqb, ltb, leb,
  if◌then◌else◌, text_eq,
}
use rootmote_agent.Prelude.Maps.{Map, insert, delete}
use rootmote_agent.Monitor.State.{Time, second, State, MonitorState}

abbrev pub unix : Time → ℕ
unix t = t / second

-- `time.Unix(s, 0)`
abbrev pub from_unix : ℕ → Time
from_unix s = s * second

pub record MonitorRow : Type 0 where
  pub key : Text
  pub state : State
  pub consecutive_fail : ℕ
  pub consecutive_ok : ℕ
  pub first_failure_at : Option ℕ
  pub last_transition_at : ℕ
  pub updated_at : ℕ

-- The zero time is stored as NULL.
unfoldable pub to_row : MonitorState → MonitorRow
to_row ms = record {
  key = ms.key;
  state = ms.state;
  consecutive_fail = ms.consecutive_fail;
  consecutive_ok = ms.consecutive_ok;
  first_failure_at = if eqb ms.first_failure_at 0 then none else some (unix ms.first_failure_at);
  last_transition_at = unix ms.last_transition_at;
  updated_at = unix ms.updated_at;
}

abbrev nullable_time : Option ℕ → Time
nullable_time none = 0
nullable_time (some s) = from_unix s

unfoldable pub from_row : MonitorRow → MonitorState
from_row row = record {
  key = row.key;
  state = row.state;
  consecutive_fail = row.consecutive_fail;
  consecutive_ok = row.consecutive_ok;
  first_failure_at = nullable_time row.first_failure_at;
  last_transition_at = from_unix row.last_transition_at;
  updated_at = from_unix row.updated_at;
}

-- The upsert, or nothing where the database refuses it.
unfoldable pub put_monitor_state : Bool → MonitorState → Map Text MonitorRow → Map Text MonitorRow
unfolding to_row
put_monitor_state false ms rows = rows
put_monitor_state true ms rows = insert ms.key (to_row ms) rows

unfoldable pub list_monitor_states : Map Text MonitorRow → List MonitorState
unfolding from_row
list_monitor_states [] = []
list_monitor_states ((k, row) ∷ rows) = from_row row ∷ list_monitor_states rows

pub record Silence : Type 0 where
  pub rule : Text
  pub target : Text
  pub until : ℕ

unfoldable pub put_alert_silence : Text → Text → Text → Time → Map Text Silence → Map Text Silence
put_alert_silence key rule target until table =
    insert key (record { rule = rule; target = target; until = unix until }) table

unfoldable pub delete_alert_silence : Text → Map Text Silence → Map Text Silence
delete_alert_silence key table = delete key table

-- `DELETE ... WHERE until <= now`
unfoldable pub drop_expired : ℕ → Map Text Silence → Map Text Silence
drop_expired now [] = []
drop_expired now ((k, s) ∷ table) =
    let rest = drop_expired now table in if leb s.until now then rest else (k, s) ∷ rest

-- `SELECT ... WHERE until > now`
unfoldable pub select_active : ℕ → Map Text Silence → Map Text Time
select_active now [] = []
select_active now ((k, s) ∷ table) =
    let rest = select_active now table in
    if ltb now s.until then (k, from_unix s.until) ∷ rest else rest

-- The table that is left, and the silences in effect, or `none` where the query fails. An error of
-- the delete is ignored.
unfoldable pub alert_silences_active :
    Bool → Bool → Time → Map Text Silence → Map Text Silence × Option (Map Text Time)
unfolding drop_expired select_active
alert_silences_active deleted queried now table =
    let left = if deleted then drop_expired (unix now) table else table in
    (left, if queried then some (select_active (unix now) left) else none)
