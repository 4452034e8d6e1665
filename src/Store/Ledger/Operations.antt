-- ===== src/Store/Ledger/Operations.antt =====
-- Every operation on the tables of internal/store/store.go evolves the state.
use rootmote_agent.Prelude.{
  ℕ, ◌≡◌, refl, Bool, true, false, not, Option, none, some, Text, text_eq, arith, if◌then◌else◌,
  Bool-cases, inl, inr,
}
use rootmote_agent.Prelude.Maps.{lookup}
use rootmote_agent.Store.Ledger.{
  create_runbook, get_runbook, get_execution, create_execution, transition_execution,
  in_flight_executions, append_remediation_event, remediation_events_after, append_audit,
  create_confirmation_token, get_confirmation_token, mark_confirmation_token_used, insert_runbook,
  insert_execution, existing_or_conflict, move_status, insert_token, use_token, mark_row, or_raise,
  defaulted, stored_execution,
}
use rootmote_agent.Store.Ledger.Statuses.{Status, is_status, is_kind, status_beq, status_beq_iff}
use rootmote_agent.Store.Ledger.Actions.{
  World, Execution, RunbookRow, Token, Payload, AuditEntry, Action, Error, invalid_status,
  invalid_kind, access, modify, ◌>>=◌, ◌>>◌, Time,
}
use rootmote_agent.Store.Ledger.Relates.{
  Relates, relates_rules, Relates-bind, Relates-bind_gets, Relates-pure, Relates-raise,
}
use rootmote_agent.Store.Ledger.Evolves.{
  Evolves, Evolves-preorder, Evolves-access, Evolves-runbooks, Evolves-executions, Evolves-tokens,
  Evolves-events, Evolves-audit, Move, Reaches, here, next, is_spent,
}

-- A read of the database.
after_access : {A : Type 0} (m : Action A) → Relates Evolves m → Relates Evolves (access >> m)
after_access m r = Relates-bind Evolves-preorder access (λ _. m) Evolves-access (λ _. r)

Relates-or_raise : {A : Type 0} (e : Error) (o : Option A) → Relates Evolves (or_raise e o)
Relates-or_raise e none = Relates-raise Evolves-preorder e
Relates-or_raise e (some a) = Relates-pure Evolves-preorder a

pub Relates-if :
    {A : Type 0} (b : Bool) (m n : Action A)
    → Relates Evolves m
    → Relates Evolves n
    → Relates Evolves (if b then m else n)
Relates-if true m n p q = p
Relates-if false m n p q = q

pub get_runbook-Evolves : (id : Text) → Relates Evolves (get_runbook id)
unfolding get_runbook
get_runbook-Evolves id = search (relates_rules, Evolves-preorder, Evolves-access, Relates-or_raise)

pub get_execution-Evolves : (id : Text) → Relates Evolves (get_execution id)
unfolding get_execution
get_execution-Evolves id =
    search (relates_rules, Evolves-preorder, Evolves-access, Relates-or_raise)

pub get_confirmation_token-Evolves : (t : Text) → Relates Evolves (get_confirmation_token t)
unfolding get_confirmation_token
get_confirmation_token-Evolves t =
    search (relates_rules, Evolves-preorder, Evolves-access, Relates-or_raise)

pub in_flight-Evolves : Relates Evolves in_flight_executions
unfolding in_flight_executions
in_flight-Evolves = search (relates_rules, Evolves-preorder, Evolves-access)

pub events_after-Evolves : (id : Text) (n : ℕ) → Relates Evolves (remediation_events_after id n)
unfolding remediation_events_after
events_after-Evolves id n = search (relates_rules, Evolves-preorder, Evolves-access)

insert_runbook-Evolves :
    (row : RunbookRow) (w : World) (o : Option RunbookRow)
    → lookup row.id w.runbooks ≡ o
    → Evolves w (insert_runbook row o w).1
unfolding ◌>>=◌
insert_runbook-Evolves row w none e = Evolves-runbooks w row e _
insert_runbook-Evolves row w (some r) e = Evolves-preorder.refl w

pub create_runbook-Evolves : (row : RunbookRow) → Relates Evolves (create_runbook row)
unfolding create_runbook
create_runbook-Evolves row =
    after_access _ (Relates-bind_gets _ _ (λ w. insert_runbook-Evolves row w _ refl))

reach_by : (s from to : Status) → s ≡ from → Move from to → Reaches s to
reach_by s from to e m = rw e (next here m)

move_status-Evolves :
    (id : Text) (from to : Status) (at : Time) (w : World) (o : Option Execution)
    → Move from to
    → lookup id w.executions ≡ o
    → Evolves w (move_status id from to at o w).1
unfolding ◌>>=◌
move_status-Evolves id from to at w none m e = Evolves-preorder.refl w
move_status-Evolves id from to at w (some d) m e = elim (Bool-cases (status_beq d.status from)) [
  | inr n ↦ rw n (Evolves-preorder.refl w)
  | inl y ↦ rw y (
      Evolves-executions w id _ (λ f h.
        let same : d ≡ f = cc in
        rw (← same) (
          reach_by d.status from to ((status_beq_iff d.status from).0 y) m,
          refl,
          refl,
          refl,
          refl,
        )))
]

pub transition-Evolves :
    (id : Text) (from to : Status) (at : Time)
    → Move from to
    → Relates Evolves (transition_execution id from to at)
unfolding transition_execution
transition-Evolves id from to at m = elim (Bool-cases (is_status to)) [
  | inr n ↦ rw n (Relates-raise Evolves-preorder _)
  | inl y ↦
      rw y
        (after_access _ (Relates-bind_gets _ _ (λ w. move_status-Evolves id from to at w _ m refl)))
]

insert_token-Evolves :
    (tok : Token) (w : World) (o : Option Token)
    → lookup tok.token w.tokens ≡ o
    → Evolves w (insert_token tok o w).1
unfolding ◌>>=◌
insert_token-Evolves tok w none e = Evolves-tokens w tok.token _ (λ h. ground (arith, e))
insert_token-Evolves tok w (some t) e = Evolves-preorder.refl w

pub create_confirmation_token-Evolves :
    (tok : Token) → Relates Evolves (create_confirmation_token tok)
unfolding create_confirmation_token
create_confirmation_token-Evolves tok =
    after_access _ (Relates-bind_gets _ _ (λ w. insert_token-Evolves tok w _ refl))

mark_row-Evolves :
    (k : Text) (at : Time) (t : Token) (w : World) (o : Option Time)
    → Evolves w (mark_row k at t o w).1
unfolding ◌>>=◌
mark_row-Evolves k at t w none = Evolves-tokens w k _ (λ h. refl)
mark_row-Evolves k at t w (some u) = Evolves-preorder.refl w

use_token-Evolves :
    (k : Text) (at : Time) (w : World) (o : Option Token) → Evolves w (use_token k at o w).1
unfolding ◌>>=◌
use_token-Evolves k at w none = Evolves-preorder.refl w
use_token-Evolves k at w (some t) = mark_row-Evolves k at t w t.used_at

pub mark_confirmation_token_used-Evolves :
    (k : Text) (at : Time) → Relates Evolves (mark_confirmation_token_used k at)
unfolding mark_confirmation_token_used
mark_confirmation_token_used-Evolves k at =
    after_access _ (Relates-bind_gets _ _ (λ w. use_token-Evolves k at w _))

modify-Evolves : (f : World → World) → ((w : World) → Evolves w (f w)) → Relates Evolves (modify f)
unfolding modify
modify-Evolves f h = record { at = h }

pub append_audit-Evolves : (a : AuditEntry) → Relates Evolves (append_audit a)
unfolding append_audit
append_audit-Evolves a = after_access _ (modify-Evolves _ (λ w. Evolves-audit w _))

pub append_remediation_event-Evolves :
    (id : Text) (p : Payload) (at : Time) → Relates Evolves (append_remediation_event id p at)
unfolding append_remediation_event
append_remediation_event-Evolves id p at = after_access _ (
    Relates-bind Evolves-preorder _ _ (search (relates_rules, Evolves-preorder)) (λ last.
      Relates-bind Evolves-preorder _ _ (modify-Evolves _ (λ w. Evolves-events w _))
        (λ _. Relates-pure Evolves-preorder _)))

existing_or_conflict-Evolves :
    (e existing : Execution) → Relates Evolves (existing_or_conflict e existing)
existing_or_conflict-Evolves e existing =
    Relates-if _ _ _ (Relates-raise Evolves-preorder _) (Relates-pure Evolves-preorder _)

insert_execution-Evolves :
    (e : Execution) (w : World) (o : Option Execution)
    → lookup e.id w.executions ≡ o
    → Evolves w (insert_execution e o w).1
unfolding ◌>>=◌
insert_execution-Evolves e w none h =
    Evolves-executions w e.id (stored_execution e) (λ d found. absurd (ground (arith, h)))
insert_execution-Evolves e w (some d) h =
    (Relates-bind Evolves-preorder _ _ (get_execution-Evolves e.id)
        (existing_or_conflict-Evolves e)).at
      w

pub create_execution-Evolves :
    (now : Time) (e : Execution) → Relates Evolves (create_execution now e)
unfolding create_execution
create_execution-Evolves now e =
    let e' = defaulted e now in
    Relates-if (not (is_status e'.status)) _ _ (Relates-raise Evolves-preorder invalid_status) (
      Relates-if (not (is_kind e'.kind)) _ _ (Relates-raise Evolves-preorder invalid_kind) (
        after_access _ (
          Relates-bind_gets (λ w. lookup e'.id w.executions) (insert_execution e')
            (λ w. insert_execution-Evolves e' w _ refl))))

pub ruleset evolves_rules = (
  relates_rules, Evolves-preorder, get_runbook-Evolves, get_execution-Evolves,
  create_runbook-Evolves, create_execution-Evolves, get_confirmation_token-Evolves,
  create_confirmation_token-Evolves, mark_confirmation_token_used-Evolves, append_audit-Evolves,
  append_remediation_event-Evolves, events_after-Evolves, in_flight-Evolves, transition-Evolves,
)
