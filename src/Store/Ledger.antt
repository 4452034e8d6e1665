-- ===== src/Store/Ledger.antt =====
-- The tables of internal/store/store.go that remediation uses: runbooks, executions, confirmation
-- tokens, events and the audit trail, with the actions on them.
pub mod Actions
pub mod Statuses
pub mod Relates
pub mod Evolves
pub mod Operations
pub mod Returns
pub mod Quiet
use rootmote_agent.Prelude.{
  ℕ, ◌+◌, ◌*◌, ◌/◌, Bool, true, false, ◌&&◌, ◌||◌, not, Option, none, some, List, [], ◌∷◌, ◌++◌,
  Text, text_beq, text_eq, ltb, eqb, if◌then◌else◌,
}
use rootmote_agent.Prelude.Maps.{Map, lookup, insert}
use rootmote_agent.Steps.Catalog.{StepId}
use rootmote_agent.Runbook.{Step}
use rootmote_agent.Monitor.State.{second}
use Statuses.{
  Status, ExecutionKind, is_status, is_kind, or_execute, status_beq, executing, verifying,
}
use Actions.{
  Result, ok, err, Error, database, not_found, conflict, invalid_status, invalid_kind, Action, pure,
  raise, World, Execution, RunbookRow, Token, Event, Payload, AuditEntry, ◌>>=◌, ◌>>◌, access, gets,
  modify, Time,
}

-- A time as it is read back: whole seconds.
abbrev pub stored : Time → Time
stored t = t / second * second

abbrev or_raise : {A : Type 0} → Error → Option A → Action A
or_raise e none = raise e
or_raise e (some a) = pure a

-- A key that is taken violates the table's uniqueness.
abbrev insert_runbook : RunbookRow → Option RunbookRow → Action Unit
insert_runbook row (some _) = raise conflict
insert_runbook row none = modify (λ w. record w {
  runbooks = insert row.id (record row { created_at = stored row.created_at }) w.runbooks;
})

unfoldable pub create_runbook : RunbookRow → Action Unit
create_runbook row = do
  access
  found ← gets (λ w. lookup row.id w.runbooks)
  insert_runbook row found

unfoldable pub get_runbook : Text → Action RunbookRow
get_runbook id = do access; found ← gets (λ w. lookup id w.runbooks); or_raise not_found found

unfoldable pub get_execution : Text → Action Execution
get_execution id = do access; found ← gets (λ w. lookup id w.executions); or_raise not_found found

-- The row, and whether this call inserted it.
abbrev pub existing_or_conflict : Execution → Execution → Action (Execution × Bool)
existing_or_conflict e existing =
    if not (text_beq existing.incident_id e.incident_id)
      || not (text_beq existing.runbook_id e.runbook_id)
      || not (text_beq existing.runbook_hash e.runbook_hash)
    then raise conflict
    else pure (existing, false)

abbrev stored_execution : Execution → Execution
stored_execution e = record e { created_at = stored e.created_at; updated_at = stored e.updated_at }

abbrev pub insert_execution : Execution → Option Execution → Action (Execution × Bool)
insert_execution e none = do
  modify (λ w. record w { executions = insert e.id (stored_execution e) w.executions })
  pure (e, true)
insert_execution e (some _) = do existing ← get_execution e.id; existing_or_conflict e existing

abbrev pub defaulted : Execution → Time → Execution
defaulted e now =
    let created = if eqb e.created_at 0 then now else e.created_at in
    record e {
      created_at = created;
      updated_at = if eqb e.updated_at 0 then created else e.updated_at;
      kind = or_execute e.kind;
    }

unfoldable pub create_execution : Time → Execution → Action (Execution × Bool)
unfolding get_execution is_status is_kind or_execute
create_execution now e =
    let e' = defaulted e now in
    if not (is_status e'.status)
    then raise invalid_status
    else (if not (is_kind e'.kind)
        then raise invalid_kind
        else do access; found ← gets (λ w. lookup e'.id w.executions); insert_execution e' found)

-- `UPDATE ... WHERE id = ? AND status = ?`: no row is a conflict.
abbrev move_status : Text → Status → Status → Time → Option Execution → Action Unit
move_status id from to at none = raise conflict
move_status id from to at (some e) =
    if status_beq e.status from
    then modify (λ w. record w {
      executions = insert id (record e { status = to; updated_at = stored at }) w.executions;
    })
    else raise conflict

unfoldable pub transition_execution : Text → Status → Status → Time → Action Unit
unfolding is_status
transition_execution id from to at =
    if not (is_status to)
    then raise invalid_status
    else do access; found ← gets (λ w. lookup id w.executions); move_status id from to at found

-- The rows are in the order of their creation.
unfoldable pub select_in_flight : Map Text Execution → List Execution
select_in_flight [] = []
select_in_flight ((k, e) ∷ rows) =
    let rest = select_in_flight rows in
    if status_beq e.status executing || status_beq e.status verifying then e ∷ rest else rest

unfoldable pub in_flight_executions : Action (List Execution)
unfolding select_in_flight
in_flight_executions = do access; gets (λ w. select_in_flight w.executions)

-- `MAX(seq)` over the events of the execution, 0 where there is none.
unfoldable pub max_seq : Text → List Event → ℕ
max_seq id [] = 0
max_seq id (ev ∷ evs) =
    let rest = max_seq id evs in
    if text_beq ev.execution_id id && ltb rest ev.seq then ev.seq else rest

unfoldable pub append_remediation_event : Text → Payload → Time → Action Event
unfolding max_seq
append_remediation_event id payload now = do
  access
  last ← gets (λ w. max_seq id w.events)
  let ev : Event = record { execution_id = id; seq = last + 1; payload = payload; created_at = now }
  modify (λ w. record w { events = w.events ++ (record ev { created_at = stored now } ∷ []) })
  pure ev

unfoldable pub select_events_after : Text → ℕ → List Event → List Event
select_events_after id after [] = []
select_events_after id after (ev ∷ evs) =
    let rest = select_events_after id after evs in
    if text_beq ev.execution_id id && ltb after ev.seq then ev ∷ rest else rest

-- The events are in the order in which they were appended, so in that of their numbers.
unfoldable pub remediation_events_after : Text → ℕ → Action (List Event)
unfolding select_events_after
remediation_events_after id after = do access; gets (λ w. select_events_after id after w.events)

unfoldable pub append_audit : AuditEntry → Action Unit
append_audit entry = do
  access
  modify (λ w. record w {
    audit = w.audit ++ (record entry { created_at = stored entry.created_at } ∷ []);
  })

abbrev insert_token : Token → Option Token → Action Unit
insert_token tok (some _) = raise database
insert_token tok none = modify (λ w. record w {
  tokens =
      insert tok.token
        (record tok {
          created_at = stored tok.created_at;
          expires_at = stored tok.expires_at;
          used_at = none;
        })
        w.tokens;
})

unfoldable pub create_confirmation_token : Token → Action Unit
create_confirmation_token tok = do
  access
  found ← gets (λ w. lookup tok.token w.tokens)
  insert_token tok found

unfoldable pub get_confirmation_token : Text → Action Token
get_confirmation_token token = do
  access
  found ← gets (λ w. lookup token w.tokens)
  or_raise not_found found

-- `UPDATE ... WHERE token = ? AND used_at IS NULL`, and whether it changed a row.
abbrev mark_row : Text → Time → Token → Option Time → Action Bool
mark_row token at t (some _) = pure false
mark_row token at t none = do
  modify
      (λ w. record w { tokens = insert token (record t { used_at = some (stored at) }) w.tokens })
  pure true

abbrev use_token : Text → Time → Option Token → Action Bool
use_token token at none = pure false
use_token token at (some t) = mark_row token at t t.used_at

unfoldable pub mark_confirmation_token_used : Text → Time → Action Bool
mark_confirmation_token_used token at = do
  access
  found ← gets (λ w. lookup token w.tokens)
  use_token token at found
