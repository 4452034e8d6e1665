-- ===== src/Store/Ledger/Quiet.antt =====
-- No operation on the tables of internal/store/store.go runs a step on the host.
use rootmote_agent.Prelude.{
  ◌≡◌, refl, sym, ◌∙◌, Bool, true, false, Option, none, some, List, Text, text_eq, if◌then◌else◌,
}
use mathlib.Core.Path.{subst}
use rootmote_agent.Prelude.Maps.{insert}
use rootmote_agent.Runbook.{Step}
use rootmote_agent.Store.Ledger.{
  get_runbook, get_execution, transition_execution, append_remediation_event, append_audit,
  move_status, or_raise,
}
use rootmote_agent.Store.Ledger.Statuses.{Status}
use rootmote_agent.Store.Ledger.Actions.{
  World, Execution, RunbookRow, Token, Payload, AuditEntry, Action, Error, access, modify, ◌>>=◌,
  Time, Result, ok, err, continue,
}
use rootmote_agent.Store.Ledger.Relates.{
  IsPreorder, Relates, relates_rules, Relates-bind, Relates-gets, Relates-pure,
}

-- The host ran nothing.
abbrev pub Quiet : World → World → Type 0
Quiet w v = v.host ≡ w.host

pub Quiet-preorder : IsPreorder Quiet
Quiet-preorder = record { refl = λ w. refl; trans = λ p q. q ∙ p }

access-Quiet : Relates Quiet access
unfolding access
access-Quiet = record { at = λ w. refl }

modify-Quiet : (f : World → World) → ((w : World) → (f w).host ≡ w.host) → Relates Quiet (modify f)
unfolding modify
modify-Quiet f h = record { at = h }

or_raise-Quiet : {A : Type 0} (e : Error) (o : Option A) → Relates Quiet (or_raise e o)
or_raise-Quiet e none = search (relates_rules, Quiet-preorder)
or_raise-Quiet e (some a) = search (relates_rules, Quiet-preorder)

pub if-Quiet :
    {A : Type 0} (b : Bool) (m n : Action A)
    → Relates Quiet m
    → Relates Quiet n
    → Relates Quiet (if b then m else n)
if-Quiet true m n p q = p
if-Quiet false m n p q = q

write_runbooks-Quiet :
    (k : Text) (r : RunbookRow)
    → Relates Quiet (modify (λ w. record w { runbooks = insert k r w.runbooks }))
write_runbooks-Quiet k r = modify-Quiet _ (λ w. refl)

write_executions-Quiet :
    (k : Text) (e : Execution)
    → Relates Quiet (modify (λ w. record w { executions = insert k e w.executions }))
write_executions-Quiet k e = modify-Quiet _ (λ w. refl)

write_tokens-Quiet :
    (k : Text) (t : Token) → Relates Quiet (modify (λ w. record w { tokens = insert k t w.tokens }))
write_tokens-Quiet k t = modify-Quiet _ (λ w. refl)

ruleset reads = (relates_rules, Quiet-preorder, access-Quiet, or_raise-Quiet)

pub get_runbook-Quiet : (id : Text) → Relates Quiet (get_runbook id)
unfolding get_runbook
get_runbook-Quiet id = search reads

pub get_execution-Quiet : (id : Text) → Relates Quiet (get_execution id)
unfolding get_execution
get_execution-Quiet id = search reads

move_status-Quiet :
    (id : Text) (from to : Status) (at : Time) (o : Option Execution)
    → Relates Quiet (move_status id from to at o)
move_status-Quiet id from to at none = search reads
move_status-Quiet id from to at (some e) = search (reads, if-Quiet, write_executions-Quiet)

pub transition_execution-Quiet :
    (id : Text) (from to : Status) (at : Time) → Relates Quiet (transition_execution id from to at)
unfolding transition_execution
transition_execution-Quiet id from to at = search (reads, if-Quiet, move_status-Quiet)

pub append_audit-Quiet : (a : AuditEntry) → Relates Quiet (append_audit a)
unfolding append_audit
append_audit-Quiet a =
    Relates-bind Quiet-preorder _ _ access-Quiet (λ _. modify-Quiet _ (λ w. refl))

pub append_remediation_event-Quiet :
    (id : Text) (p : Payload) (at : Time) → Relates Quiet (append_remediation_event id p at)
unfolding append_remediation_event
append_remediation_event-Quiet id p at = Relates-bind Quiet-preorder _ _ access-Quiet (λ _.
    Relates-bind Quiet-preorder _ _ (Relates-gets Quiet-preorder _) (λ last.
      Relates-bind Quiet-preorder _ _ (modify-Quiet _ (λ w. refl))
        (λ _. Relates-pure Quiet-preorder _)))

module _ {A B : Type 0} where
  -- What holds of the steps run holds after an action that runs none, if it holds where that action
  -- fails and where the rest has run.
  pub quiet_then :
      (Q : List (Text × Step) → Type 0) (ran : List (Text × Step)) (m : Action A) (f : A → Action B)
      → Relates Quiet m
      → Q ran
      → ((a : A) (u : World) → u.host ≡ ran → Q (f a u).1.host)
      → (w : World) → w.host ≡ ran
      → Q ((m >>= f) w).1.host
  unfolding ◌>>=◌
  quiet_then Q ran m f quiet failed rest w h = after (m w) (quiet.at w)
    where
      after : (r : Result A × World) → r.1.host ≡ w.host → Q (continue r.0 f r.1).1.host
      after (ok a, u) e = rest a u (e ∙ h)
      after (err x, u) e = subst Q (sym (e ∙ h)) failed

  -- The same, where the rest may use what the action returned.
  pub returned_then :
      (Q : List (Text × Step) → Type 0) (w : World) (m : Action A) (f : A → Action B)
      → Relates Quiet m
      → Q w.host
      → ((a : A) (u : World) → m w ≡ (ok a, u) → u.host ≡ w.host → Q (f a u).1.host)
      → Q ((m >>= f) w).1.host
  unfolding ◌>>=◌
  returned_then Q w m f quiet failed rest = after (m w) refl (quiet.at w)
    where
      after : (r : Result A × World) → m w ≡ r → r.1.host ≡ w.host → Q (continue r.0 f r.1).1.host
      after (ok a, u) g e = rest a u g e
      after (err x, u) g e = subst Q (sym e) failed

  pub host-bind :
      (m : Action A) (f : A → Action B)
      → ((a : A) → Relates Quiet (f a))
      → (w : World) → ((m >>= f) w).1.host ≡ (m w).1.host
  unfolding ◌>>=◌
  host-bind m f quiet w = after (m w)
    where
      after : (r : Result A × World) → (continue r.0 f r.1).1.host ≡ r.1.host
      after (ok a, u) = (quiet a).at u
      after (err x, u) = refl

pub ruleset quiet_rules = (
  relates_rules, Quiet-preorder, get_runbook-Quiet, get_execution-Quiet, transition_execution-Quiet,
  append_audit-Quiet, append_remediation_event-Quiet,
)
