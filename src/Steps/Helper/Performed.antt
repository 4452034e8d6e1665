-- ===== src/Steps/Helper/Performed.antt =====
-- `RunPriv` of internal/steps/helper.go is permitted: every action by name, and its exit code.
use rootmote_agent.Prelude.{
  ℕ, ◌≡◌, refl, Bool, true, false, not, ◌&&◌, Option, none, some, List, ◌∷◌, Text, if◌then◌else◌,
}
use rootmote_agent.Steps.Helper.{
  Machine, History, reentered, Reply, ok, refused, failed, stuck, Job, pure,
}
use rootmote_agent.Steps.Helper.Safe.{
  Emitted, Returned, Safe, Anything, Safe-pure, Safe-asking, Safe-emitting, Safe-required,
}
use rootmote_agent.Steps.Helper.Services.{Verb, restart, start, stop, reload, verb_name}
use rootmote_agent.Steps.Helper.Actions.{
  Action, service, php, nginx_check, nginx, program_restart, program_status, vacuum, clean_packages,
  renew, reading, pm2, pm2_apps, kill, rules, firewall, action_of, needs_host, perform, run_again,
  exit_code, run_action, run_named, run_priv,
}
use rootmote_agent.Steps.Helper.Names.{
  verb_action, IsNamed, action_of-IsNamed, needs_host-host_actions,
}
use rootmote_agent.Steps.Helper.Permitted.{
  Permitted, Controls, restarts, starts, stops, reloads, again,
}
use rootmote_agent.Steps.Helper.Permitted.Units.{
  service_action-Safe, phpfpm_restart-Safe, nginx_test-Safe, nginx_reload-Safe, journal_vacuum-Safe,
  apt_clean-Safe, cert_renew-Safe,
}
use rootmote_agent.Steps.Helper.Permitted.Programs.{
  supervisor_status-Safe, supervisor_restart-Safe, pm2_list_action-Safe, pm2_restart-Safe,
}
use rootmote_agent.Steps.Helper.Permitted.Firewalls.{firewall_change-Safe, firewall_rules-Safe}
use rootmote_agent.Steps.Helper.Permitted.Stopping.{process_stop-Safe, asked_pid}
use rootmote_agent.Steps.Helper.Processes.{protected_pid}

verb_name-Controls :
    (s unit : Text) (verb : Verb) → s ≡ verb_action verb → Controls s unit (verb_name verb)
verb_name-Controls s unit restart e = restarts e
verb_name-Controls s unit start e = starts e
verb_name-Controls s unit stop e = stops e
verb_name-Controls s unit reload e = reloads e

module _ (S : Type 0) (rounds : ℕ) (m : Machine) (name : Text) (args : List Text)
    (h : History) where
  perform-Safe :
      (action : Action)
      → IsNamed name action
      → (protected_pid rounds m h (asked_pid args) ≡ none → S)
      → Safe (Permitted m rounds name args) S (perform rounds m action args) Anything h
  perform-Safe (service verb) n hung =
      service_action-Safe m rounds name args S verb args h refl
        λ unit e. verb_name-Controls name unit verb n
  perform-Safe php n hung = phpfpm_restart-Safe m rounds name args S args h refl n
  perform-Safe nginx_check n hung = nginx_test-Safe m rounds name args S args h n
  perform-Safe nginx n hung = nginx_reload-Safe m rounds name args S args h n
  perform-Safe program_restart n hung = supervisor_restart-Safe m rounds name args S args h refl n
  perform-Safe program_status n hung = supervisor_status-Safe m rounds name args S args h n
  perform-Safe vacuum n hung = journal_vacuum-Safe m rounds name args S args h refl n
  perform-Safe clean_packages n hung = apt_clean-Safe m rounds name args S args h n
  perform-Safe renew n hung = cert_renew-Safe m rounds name args S args h refl n
  perform-Safe reading n hung = Safe-required _ h λ e. tt
  perform-Safe pm2 n hung = pm2_restart-Safe m rounds name args S args h refl n
  perform-Safe pm2_apps n hung = pm2_list_action-Safe m rounds name args S args h refl n
  perform-Safe kill n hung = process_stop-Safe m rounds name args S args h refl n hung
  perform-Safe rules n hung = firewall_rules-Safe m rounds name args S args h
  perform-Safe (firewall opens) n hung =
      firewall_change-Safe m rounds name args S opens args h refl n

  exit_code-Safe :
      (job : Job Unit)
      → Safe (Permitted m rounds name args) S job Anything h
      → Safe (Permitted m rounds name args) S (λ k. exit_code (job k)) Anything h
  exit_code-Safe job s =
      let (e, q) = coded (job h) s.emitted s.returned in record { emitted = e; returned = q }
    where
      coded :
          (r : Reply Unit × History)
          → Emitted (Permitted m rounds name args) h r.1
          → Returned S Anything r.0 r.1
          → Emitted (Permitted m rounds name args) h (exit_code r).1
            × Returned S Anything (exit_code r).0 (exit_code r).1
      coded (ok t, k) e q = (e, tt)
      coded (refused, k) e q = (e, tt)
      coded (failed, k) e q = (e, tt)
      coded (stuck, k) e q = (e, q)

  run_again-Safe :
      (action : Action)
      → action_of name ≡ some action
      → needs_host action ≡ true
      → m.in_host_ns ≡ false
      → Safe (Permitted m rounds name args) S (run_again m name args) Anything h
  run_again-Safe action known needs outside = Safe-asking _ _ h (
      Safe-emitting (reentered (name ∷ args)) _ h
        (again (needs_host-host_actions name action (action_of-IsNamed name action known) needs)
          outside)
        (Safe-pure _ (reentered (name ∷ args) ∷ h) tt))

  run_action-Safe :
      (o : Option Action)
      → action_of name ≡ o
      → (protected_pid rounds m h (asked_pid args) ≡ none → S)
      → Safe (Permitted m rounds name args) S (run_action rounds m name args o) Anything h
  run_action-Safe none known hung = Safe-pure 2 h tt
  run_action-Safe (some action) known hung = ran_action (needs_host action) m.in_host_ns refl refl
    where
      performed :
          Safe
            (Permitted m rounds name args)
            S
            (λ k. exit_code (perform rounds m action args k))
            Anything
            h
      performed =
          exit_code-Safe (perform rounds m action args)
            (perform-Safe action (action_of-IsNamed name action known) hung)

      ran_action :
          (needs inside : Bool)
          → needs_host action ≡ needs
          → m.in_host_ns ≡ inside
          → Safe
              (Permitted m rounds name args)
              S
              (if needs && not inside
                then run_again m name args
                else (λ k. exit_code (perform rounds m action args k)))
              Anything
              h
      ran_action true false needs outside = run_again-Safe action known needs outside
      ran_action true true needs inside = performed
      ran_action false inside needs is_inside = performed

  pub run_priv-Safe :
      (protected_pid rounds m h (asked_pid args) ≡ none → S)
      → Safe (Permitted m rounds name args) S (run_priv rounds m (name ∷ args)) Anything h
  unfolding run_priv
  run_priv-Safe hung = started m.change_dir_fails
    where
      started :
          (bad : Bool)
          → Safe
              (Permitted m rounds name args)
              S
              (if bad then pure 1 else run_named rounds m (name ∷ args))
              Anything
              h
      started true = Safe-pure 1 h tt
      started false = run_action-Safe (action_of name) refl hung
