-- ===== src/Steps/Helper/Audit.antt =====
-- What `RunPriv` of internal/steps/helper.go does with root's rights, whatever it is asked.
use rootmote_agent.Prelude.{
  ℕ, ◌≡◌, ◌≢◌, ◌≤◌, eqb, refl, sym, Bool, true, false, Option, none, some, List, [], ◌∷◌, Text, inl,
  if◌then◌else◌, arith,
}
use mathlib.Core.Path.{subst}
use rootmote_agent.Firewall.{Firewall}
use rootmote_agent.Firewall.Lockout.{IsIn, ClosesPort-handed}
use rootmote_agent.Steps.Helper.{
  Machine, History, Event, closed, ran, reentered, allowed, signalled, sigterm, sigkill, slept,
  Reply, ok, refused, failed, stuck,
}
use rootmote_agent.Steps.Helper.Safe.{Emitted, Returned, Emitted-weaken, Happened, Anything}
use rootmote_agent.Steps.Helper.Actions.{run_priv, edit_rule}
use rootmote_agent.Steps.Helper.Permitted.{Permitted, closing, stopping, killing}
use rootmote_agent.Steps.Helper.Performed.{run_priv-Safe}
use rootmote_agent.Steps.Helper.Descent.{IsRanked, descends-Ends}
use rootmote_agent.Steps.Helper.Processes.{protected_pid, below_agent, ancestors, descends}
use rootmote_agent.Steps.Helper.Permitted.Stopping.{asked_pid}
use rootmote_agent.Steps.Helper.Free.{IsFree, protected_pid-IsFree}

pub run_priv-Permitted :
    (rounds : ℕ) (m : Machine) (args : List Text) (h : History) (name : Text)
    → Emitted (Permitted m rounds name args) h (run_priv rounds m (name ∷ args) h).1
run_priv-Permitted rounds m args h name =
    (run_priv-Safe Unit rounds m name args h (λ e. tt)).emitted

-- A port is closed only where the firewall is known and the port is none of its SSH ports.
abbrev pub KeepsSsh : Machine → History → Event → Type 0
KeepsSsh m h (closed rule) =
    (fw : Firewall) × (m.firewall h ≡ some fw) × (¬ IsIn rule.port fw.ssh_ports)
KeepsSsh m h _ = Unit

closing-KeepsSsh :
    (m : Machine) (rounds : ℕ) (name : Text) (args : List Text) (h : History) (e : Event)
    → Permitted m rounds name args h e
    → KeepsSsh m h e
closing-KeepsSsh m rounds name args h (closed rule) (closing r named d) =
    let (over, free) =
      ClosesPort-handed d.fw (edit_rule d.port d.proto) d.backend rule (inl (refl, d.passes)) in
    (d.fw, d.found, subst (λ x. ¬ IsIn x.port d.fw.ssh_ports) (sym over.0) free)
closing-KeepsSsh m rounds name args h (ran program given) p = tt
closing-KeepsSsh m rounds name args h (signalled pid sig) p = tt
closing-KeepsSsh m rounds name args h (slept n) p = tt
closing-KeepsSsh m rounds name args h (allowed rule) p = tt
closing-KeepsSsh m rounds name args h (reentered given) p = tt

-- Whatever the helper is asked, a port that it closes is, at that moment, none of the ports that
-- the host's firewall counts as SSH ports.
pub run_priv-KeepsSsh :
    (rounds : ℕ) (m : Machine) (name : Text) (args : List Text) (h : History)
    → Emitted (KeepsSsh m) h (run_priv rounds m (name ∷ args) h).1
run_priv-KeepsSsh rounds m name args h =
    Emitted-weaken h _ (closing-KeepsSsh m rounds name args)
      (run_priv-Permitted rounds m args h name)

-- A signal to end goes to a process that is free to be stopped.
abbrev pub SparesProtected : Machine → History → Event → Type 0
SparesProtected m h (signalled pid sigterm) = IsFree m h pid
SparesProtected m h (signalled pid sigkill) = Happened (signalled pid sigterm) h
SparesProtected m h _ = Unit

stopping-SparesProtected :
    (m : Machine) (rounds : ℕ) (name : Text) (args : List Text) (h : History) (e : Event)
    → Permitted m rounds name args h e
    → SparesProtected m h e
stopping-SparesProtected m rounds name args h (signalled pid sigterm)
      (stopping _ named asked free) =
    protected_pid-IsFree rounds m h pid free
stopping-SparesProtected m rounds name args h (signalled pid sigkill) (killing _ named asked sent) =
    sent
stopping-SparesProtected m rounds name args h (ran program given) p = tt
stopping-SparesProtected m rounds name args h (slept n) p = tt
stopping-SparesProtected m rounds name args h (allowed rule) p = tt
stopping-SparesProtected m rounds name args h (closed rule) p = tt
stopping-SparesProtected m rounds name args h (reentered given) p = tt

-- Whatever the helper is asked, it sends the first signal only to a process that, at that moment, is
-- neither one of the first two nor a thread of the kernel, has no name of the host's core, is neither
-- the helper nor above it within 64 steps, and is not below the topmost agent met in those steps; and
-- it kills only what it sent that signal before.
pub run_priv-SparesProtected :
    (rounds : ℕ) (m : Machine) (name : Text) (args : List Text) (h : History)
    → Emitted (SparesProtected m) h (run_priv rounds m (name ∷ args) h).1
run_priv-SparesProtected rounds m name args h =
    Emitted-weaken h _ (stopping-SparesProtected m rounds name args)
      (run_priv-Permitted rounds m args h name)

not_stuck : {A : Type 0} (r : Reply A) (h : History) → Returned ⊥ Anything r h → r ≢ stuck
not_stuck (ok a) h q e = absurd (ground (arith, e))
not_stuck refused h q e = absurd (ground (arith, e))
not_stuck failed h q e = absurd (ground (arith, e))
not_stuck stuck h q e = q

below_agent-ends :
    (n rounds : ℕ) (parent : ℕ → ℕ) (pids : List ℕ) (pid : ℕ) (b : Bool) (r : Bool × ℕ)
    → ((k : ℕ) → n ≤ k → descends k parent pids pid (r.1 ∷ []) ≡ some b)
    → n ≤ rounds
    → below_agent rounds parent pids pid r ≢ none
below_agent-ends n rounds parent pids pid b (true, root) e le h = absurd (ground (arith, h))
below_agent-ends n rounds parent pids pid b (false, root) e le h =
    by_test (eqb root 0) (descends rounds parent pids pid (root ∷ [])) (e rounds le) h
  where
    by_test : (t : Bool) (o : Option Bool) → o ≡ some b → (if t then some false else o) ≢ none
    by_test true o same g = absurd (ground (arith, g))
    by_test false o same g = absurd (ground (arith, same, g))

guarded_not_none : (t : Bool) (o : Option Bool) → o ≢ none → (if t then some true else o) ≢ none
guarded_not_none true o n h = absurd (ground (arith, h))
guarded_not_none false o n h = n h

decided :
    (m : Machine) (h : History) (rank : ℕ → ℕ) (bound pid : ℕ)
    → IsRanked (m.parent_pid h) (m.pids h) rank bound
    → (n : ℕ) × ((rounds : ℕ) → n ≤ rounds → protected_pid rounds m h pid ≢ none)
unfolding protected_pid
decided m h rank bound pid ranked =
    let met = ancestors 64 (m.parent_pid h) (m.comm h) pid m.self 0 in
    let (n, b, e) = descends-Ends (m.parent_pid h) (m.pids h) rank bound pid met.1 ranked in
    (
      n,
      λ rounds le.
          guarded_not_none _ (below_agent rounds (m.parent_pid h) (m.pids h) pid met)
            (below_agent-ends n rounds (m.parent_pid h) (m.pids h) pid b met e le),
    )

-- Where the processes form a forest of a bounded depth when the helper starts, the helper ends,
-- whatever it is asked: from some number of rounds on its search below the agent is never cut off.
pub run_priv-ends :
    (m : Machine) (name : Text) (args : List Text) (h : History) (rank : ℕ → ℕ) (bound : ℕ)
    → IsRanked (m.parent_pid h) (m.pids h) rank bound
    → (n : ℕ) × ((rounds : ℕ) → n ≤ rounds → (run_priv rounds m (name ∷ args) h).0 ≢ stuck)
run_priv-ends m name args h rank bound ranked =
    let (n, ends) = decided m h rank bound (asked_pid args) ranked in
    (
      n,
      λ rounds le.
          not_stuck (run_priv rounds m (name ∷ args) h).0 _
            (run_priv-Safe ⊥ rounds m name args h (ends rounds le)).returned,
    )
