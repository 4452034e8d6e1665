-- ===== src/Remediation/Running.antt =====
-- Execution (internal/remediation/remediation.go): what the host runs, and when.
use rootmote_agent.Prelude.{
  ℕ, ◌+◌, ◌≡◌, refl, sym, Bool, true, false, Option, none, some, List, [], ◌∷◌, ◌++◌, Text, text_eq,
  codes,
}
use rootmote_agent.Runbook.{Codec, Runbook, Step}
use rootmote_agent.Store.Ledger.Statuses.{Status, executing, remediation_failed}
use rootmote_agent.Store.Ledger.Actions.{
  World, Execution, Action, Error, Payload, pure, ◌>>=◌, Time,
}
use rootmote_agent.Store.Ledger.Relates.{Relates, Relates-bind}
use rootmote_agent.Store.Ledger.Quiet.{Quiet, Quiet-preorder, quiet_rules, quiet_then}
use mathlib.Core.Path.{subst}
use rootmote_agent.Remediation.{
  Host, audit_for, append_event, transition_recorded, stop_or_go, failed_step, execute_step,
  run_steps, record_verifications, verify_steps, after_steps, or_encoding, refuse_if, validate_hash,
}

or_encoding-Quiet : {A : Type 0} (o : Option A) → Relates Quiet (or_encoding o)
or_encoding-Quiet none = search quiet_rules
or_encoding-Quiet (some a) = search quiet_rules

refuse_if-Quiet : (b : Bool) (e : Error) → Relates Quiet (refuse_if b e)
refuse_if-Quiet true e = search quiet_rules
refuse_if-Quiet false e = search quiet_rules

pub audit_for-Quiet : (e : Execution) (t : Text) (now : Time) → Relates Quiet (audit_for e t now)
unfolding audit_for
audit_for-Quiet e t now = search quiet_rules

pub append_event-Quiet :
    (id : Text) (p : Payload) (now : Time) → Relates Quiet (append_event id p now)
unfolding append_event
append_event-Quiet id p now = search quiet_rules

ruleset quiet =
    (quiet_rules, or_encoding-Quiet, refuse_if-Quiet, audit_for-Quiet, append_event-Quiet)

pub validate_hash-Quiet :
    (c : Codec) (e : Execution) (h : Text) → Relates Quiet (validate_hash c e h)
unfolding validate_hash
validate_hash-Quiet c e h = search quiet

transition_recorded-Quiet :
    (id : Text) (e : Execution) (from to : Status) (audited announced : Text) (now : Time)
    → Relates Quiet (transition_recorded id e from to audited announced now)
transition_recorded-Quiet id e from to audited announced now = search quiet

record_verifications-Quiet :
    (id : Text) (now : Time) (vs : List (ℕ × Bool)) → Relates Quiet (record_verifications id now vs)
unfolding record_verifications
record_verifications-Quiet id now [] = search quiet
record_verifications-Quiet id now ((i, passed) ∷ vs) =
    Relates-bind Quiet-preorder _ _ (append_event-Quiet id _ now)
      (λ _. record_verifications-Quiet id now vs)

verify_steps-Quiet :
    (host : Host) (now : Time) (id : Text) (e : Execution) (rb : Runbook)
    → Relates Quiet (verify_steps host now id e rb)
unfolding verify_steps
verify_steps-Quiet host now id e rb =
    search (quiet, transition_recorded-Quiet, record_verifications-Quiet) depth 14

pub after_steps-Quiet :
    (host : Host) (now : Time) (id : Text) (rb : Runbook) (d : Execution × Bool)
    → Relates Quiet (after_steps host now id rb d)
after_steps-Quiet host now id rb (e, false) = search quiet
after_steps-Quiet host now id rb (e, true) = verify_steps-Quiet host now id e rb

-- The steps of an execution that the host ran, from what it had run before to what it has run
-- after: a beginning of the list, in its order, where every step but the last one run succeeded.
pub data Runs (host : Host) (id : Text)
    : List (Text × Step) → List Step → List (Text × Step) → Type 0 where
  stopped : {before : List (Text × Step)} {steps : List Step} → Runs host id before steps before
  last :
      {before : List (Text × Step)} {step : Step} {steps : List Step}
      → Runs host id before (step ∷ steps) (before ++ ((id, step) ∷ []))
  more :
      {before after : List (Text × Step)} {step : Step} {steps : List Step}
      → failed_step (host.execute_step before step) ≡ false
      → Runs host id (before ++ ((id, step) ∷ [])) steps after
      → Runs host id before (step ∷ steps) after

-- What is left of the loop once a step has run.
module _ (host : Host) (now : Time) (id : Text) (e : Execution) (step : Step) (steps : List Step)
    (before : List (Text × Step)) (rest : Action (Execution × Bool)) where
  abbrev ran : List (Text × Step)
  ran = before ++ ((id, step) ∷ [])

  abbrev After : List (Text × Step) → Type 0
  After after = Runs host id before (step ∷ steps) after

  abbrev RestRuns : Type 0
  RestRuns = (u : World) → Runs host id u.host steps (rest u).1.host

  stop_or_go-Runs :
      RestRuns
      → (b : Bool) (u : World) → failed_step (host.execute_step before step) ≡ b
      → u.host ≡ ran
      → After (stop_or_go b now id e rest u).1.host
  unfolding pure
  stop_or_go-Runs later true u f h =
      quiet_then After ran
        (transition_recorded id e executing remediation_failed (codes "remediation.failed")
          (codes "remediation_failed") now)
        (λ failed. pure (failed, false)) (transition_recorded-Quiet id e _ _ _ _ now) last
        (λ a v g. subst After (sym g) last) u h
  stop_or_go-Runs later false u f h =
      more f (subst (λ r. Runs host id r steps (rest u).1.host) h (later u))

  recorded-Runs :
      RestRuns
      → (p : Payload) (u : World) → u.host ≡ ran
      → After
          ((append_event id p now >>= λ _.
              audit_for e (codes "remediation.step.result") now >>= λ _.
              stop_or_go (failed_step (host.execute_step before step)) now id e rest)
            u).1.host
  recorded-Runs later p u h =
      quiet_then After ran (append_event id p now) _ (append_event-Quiet id p now) last
        (λ _ v g.
          quiet_then After ran (audit_for e (codes "remediation.step.result") now) _
            (audit_for-Quiet e _ now) last
            (λ _ x k. stop_or_go-Runs later (failed_step (host.execute_step before step)) x refl k)
            v g)
        u h

pub run_steps-Runs :
    (host : Host) (now : Time) (id : Text) (e : Execution) (i : ℕ) (steps : List Step) (w : World)
    → Runs host id w.host steps (run_steps host now id e i steps w).1.host
unfolding run_steps execute_step ◌>>=◌ pure
run_steps-Runs host now id e i [] w = stopped
run_steps-Runs host now id e i (step ∷ steps) w =
    recorded-Runs host now id e step steps w.host (run_steps host now id e (i + 1) steps)
      (run_steps-Runs host now id e (i + 1) steps) _
      (record w { host = w.host ++ ((id, step) ∷ []) }) refl
