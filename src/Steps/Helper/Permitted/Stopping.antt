-- ===== src/Steps/Helper/Permitted/Stopping.antt =====
-- `process.stop` of internal/steps/helper.go is permitted: it signals the process that was asked
-- for and no protected one.
use rootmote_agent.Prelude.{
  ℕ, zero, suc, ◌≡◌, refl, sym, Bool, true, false, not, Option, none, some, List, [], ◌∷◌, Text,
  codes, eqb, arith,
}
use mathlib.Core.Path.{subst}
use rootmote_agent.Steps.Validate.{parse_pid, parse_start_time}
use rootmote_agent.Steps.Helper.{
  Machine, History, signalled, slept, Signal, sigterm, sigkill, Job, ◌>>=◌, ◌>>◌, refuse_unless,
}
use rootmote_agent.Steps.Helper.Safe.{
  Happened, last, nothing, Safe, Anything, Safe-pure, Safe-refuse, Safe-ask, Safe-bind, Safe-asking,
  Safe-requiring, Safe-from_refuse, Safe-emitting, Safe-fail_if, Safe-after, Safe-forget,
}
use rootmote_agent.Steps.Helper.Processes.{
  protected_pid, is_same, gone, wait, unless_gone, after_pause, send, kill_if, force, stop_process,
  process_stop, or_hang,
}
use rootmote_agent.Steps.Helper.Permitted.{IsAsked, Permitted, stopping, killing, pausing}

is_same-parts :
    (start : ℕ) (x : ℕ × Bool) → x.1 ≡ true → eqb x.0 start ≡ true → is_same start x ≡ true
is_same-parts start (ticks, alive) a b = ground (arith)

module _ (m : Machine) (rounds : ℕ) (action : Text) (args : List Text) (S : Type 0) (pid start : ℕ)
    (named : action ≡ codes "process.stop") where
  is_same-IsAsked :
      (a b : Text) (h : History)
      → args ≡ a ∷ b ∷ []
      → parse_pid a ≡ some pid
      → parse_start_time b ≡ some start
      → is_same start (m.start_time h pid) ≡ true
      → IsAsked m args h pid
  is_same-IsAsked a b h same is_pid is_start runs = record {
    pid_text = a;
    start_text = b;
    asked = same;
    start = start;
    is_pid = is_pid;
    is_start = is_start;
    same = runs;
  }

  unless_gone-Safe :
      (rest : Job Bool) (now : Bool) (h : History)
      → ((k : History) → Safe (Permitted m rounds action args) S rest Anything k)
      → Safe (Permitted m rounds action args) S (unless_gone m pid start rest now) Anything h
  unless_gone-Safe rest true h s = Safe-pure true h tt
  unless_gone-Safe rest false h s =
      Safe-emitting (slept 250) _ h (pausing 250 named)
        (Safe-asking _ _ _ (paused (m.cancelled (slept 250 ∷ h))))
    where
      paused :
          (b : Bool)
          → Safe
              (Permitted m rounds action args)
              S
              (after_pause m pid start rest b)
              Anything
              (slept 250 ∷ h)
      paused true = Safe-ask (gone m pid start) (slept 250 ∷ h) tt
      paused false = s (slept 250 ∷ h)

  wait-Safe :
      (n : ℕ) (h : History)
      → Safe (Permitted m rounds action args) S (wait m n pid start) Anything h
  unfolding wait
  wait-Safe zero h = Safe-ask (gone m pid start) h tt
  wait-Safe (suc n) h =
      Safe-asking _ _ h (unless_gone-Safe (wait m n pid start) (gone m pid start h) h (wait-Safe n))

  send-Safe :
      (sig : Signal) (h : History)
      → Permitted m rounds action args h (signalled pid sig)
      → Safe
          (Permitted m rounds action args)
          S
          (send m pid start sig)
          (λ t k. Happened (signalled pid sig) k)
          h
  unfolding send
  send-Safe sig h p = Safe-asking _ _ h (
      Safe-emitting (signalled pid sig) _ h p (
        Safe-after _ (signalled pid sig) (signalled pid sig ∷ h) last
          (Safe-asking (gone m pid start) _ (signalled pid sig ∷ h) (Safe-fail_if _ _))))

  kill_if-Safe :
      (b : Bool) (h : History)
      → (b ≡ true → Permitted m rounds action args h (signalled pid sigkill))
      → Safe (Permitted m rounds action args) S (kill_if m b pid start) Anything h
  kill_if-Safe true h p = Safe-forget _ (send m pid start sigkill) h (send-Safe sigkill h (p refl))
  kill_if-Safe false h p = Safe-pure tt h tt

  force-Safe :
      (a b : Text) (ended : Bool) (h : History)
      → args ≡ a ∷ b ∷ []
      → parse_pid a ≡ some pid
      → parse_start_time b ≡ some start
      → Happened (signalled pid sigterm) h
      → Safe (Permitted m rounds action args) S (force m pid start ended) Anything h
  force-Safe a b true h same is_pid is_start sent = Safe-pure tt h tt
  force-Safe a b false h same is_pid is_start sent = Safe-asking _ _ h (
      Safe-bind Anything (kill_if m (is_same start (m.start_time h pid)) pid start) _ h
        (kill_if-Safe (is_same start (m.start_time h pid)) h
          λ runs. killing pid named (is_same-IsAsked a b h same is_pid is_start runs) sent)
        λ t k q.
          Safe-bind Anything (wait m 12 pid start) _ k (wait-Safe 12 k) λ e l r. Safe-fail_if _ _)

  -- The search has ended, and the process is not protected.
  unprotected-Safe :
      (o : Option Bool) (rest : Job Unit) (h : History)
      → (o ≡ none → S)
      → (o ≡ some false → Safe (Permitted m rounds action args) S rest Anything h)
      → Safe
          (Permitted m rounds action args)
          S
          (or_hang o >>= λ protected. refuse_unless (not protected) >> rest)
          Anything
          h
  unfolding ◌>>=◌
  unprotected-Safe none rest h hung s = record { emitted = nothing; returned = hung refl }
  unprotected-Safe (some true) rest h hung s = record { emitted = nothing; returned = tt }
  unprotected-Safe (some false) rest h hung s =
      let r = s refl in record { emitted = r.emitted; returned = r.returned }

  stop_process-Safe :
      (a b : Text) (h : History)
      → args ≡ a ∷ b ∷ []
      → parse_pid a ≡ some pid
      → parse_start_time b ≡ some start
      → (protected_pid rounds m h pid ≡ none → S)
      → Safe (Permitted m rounds action args) S (stop_process m rounds pid start) Anything h
  stop_process-Safe a b h same is_pid is_start hung = Safe-asking _ _ h (
      Safe-requiring _ _ h λ opened. Safe-asking _ _ h (
        Safe-requiring _ _ h λ alive. Safe-requiring _ _ h λ at. Safe-asking _ _ h (
          unprotected-Safe (protected_pid rounds m h pid) _ h hung λ free.
            Safe-bind _ (send m pid start sigterm) _ h
              (send-Safe sigterm h (
                stopping pid named
                  (is_same-IsAsked a b h same is_pid is_start
                    (is_same-parts start (m.start_time h pid) alive at))
                  free))
              λ t k sent.
                Safe-bind _ (wait m 40 pid start) _ k
                  (Safe-after _ (signalled pid sigterm) k sent (wait-Safe 40 k))
                  λ ended l r. force-Safe a b ended l same is_pid is_start r)))

abbrev pid_or_zero : Option ℕ → ℕ
pid_or_zero none = 0
pid_or_zero (some pid) = pid

-- The pid that `process.stop` is asked for.
abbrev pub asked_pid : List Text → ℕ
asked_pid [] = 0
asked_pid (a ∷ args) = pid_or_zero (parse_pid a)

module _ (m : Machine) (rounds : ℕ) (action : Text) (args : List Text) (S : Type 0) where
  pub process_stop-Safe :
      (given : List Text) (h : History)
      → args ≡ given
      → action ≡ codes "process.stop"
      → (protected_pid rounds m h (asked_pid given) ≡ none → S)
      → Safe (Permitted m rounds action args) S (process_stop m rounds given) Anything h
  unfolding process_stop
  process_stop-Safe [] h same named hung = Safe-refuse h
  process_stop-Safe (a ∷ []) h same named hung = Safe-refuse h
  process_stop-Safe (a ∷ b ∷ []) h same named hung =
      Safe-from_refuse (parse_pid a) _ h λ pid is_pid.
        Safe-from_refuse (parse_start_time b) _ h λ start is_start.
          stop_process-Safe m rounds action args S pid start named a b h same is_pid is_start (λ e.
            hung (subst (λ o. protected_pid rounds m h (pid_or_zero o) ≡ none) (sym is_pid) e))
  process_stop-Safe (a ∷ b ∷ x ∷ xs) h same named hung = Safe-refuse h
