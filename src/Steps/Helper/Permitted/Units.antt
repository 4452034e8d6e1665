-- ===== src/Steps/Helper/Permitted/Units.antt =====
-- The actions of internal/steps/helper.go on units, nginx, disks and certificates are permitted.
use rootmote_agent.Prelude.{
  ℕ, ◌≡◌, refl, sym, ap, ◌∙◌, if◌then◌else◌, Bool, true, false, not, Option, none, some, List, [],
  ◌∷◌, Text, codes, text_beq, text_beq_iff, inl, inr, arith,
}
use mathlib.Core.Path.{subst}
use rootmote_agent.Prelude.Texts.{ends_with}
use rootmote_agent.Steps.Validate.{
  check_unit_allowed, valid_php_unit, valid_journal_size, valid_cert_name,
}
use rootmote_agent.Steps.Helper.{Machine, History, ran, pure, attempt, refuse_unless}
use rootmote_agent.Steps.Helper.Safe.{
  Safe, Anything, Safe-pure, Safe-refuse, Safe-attempt, Safe-bind, Safe-asking, Safe-requiring,
  Safe-failing, Safe-calling, Safe-running, Safe-fail_if, Safe-required, Safe-forget,
}
use rootmote_agent.Steps.Helper.Services.{
  Verb, restart, verb_name, UnitFacts, show_args, facts_of, is_loaded, unit_facts, check_unit,
  service_action, phpfpm_restart, nginx_test, nginx_reload, reload_nginx, journal_vacuum, apt_clean,
}
use rootmote_agent.Steps.Helper.Accounts.{cert_renew, reload_if, after_renewal, renew, renewal_args}
use rootmote_agent.Steps.Helper.Permitted.{
  IsShown, Permitted, Controls, restarts_php, MayReload, asking, asking_nginx, changing, testing,
  reloading, vacuuming, cleaning, renewing, rehearsing,
}

abbrev first_of : List Text → Text
first_of [] = []
first_of (s ∷ list) = s

module _ (m : Machine) (rounds : ℕ) (action : Text) (args : List Text) (S : Type 0) where
  -- Asking for a unit's facts gives those of the latest answer.
  unit_facts-Safe :
      (unit : Text) (h : History)
      → Permitted m rounds action args h (ran (codes "systemctl") (show_args unit))
      → Safe
          (Permitted m rounds action args)
          S
          (unit_facts m unit)
          (λ facts k.
            (k ≡ ran (codes "systemctl") (show_args unit) ∷ h)
            × (facts ≡ facts_of (m.run h (codes "systemctl") (show_args unit)).0))
          h
  unfolding unit_facts
  unit_facts-Safe unit h p = Safe-calling m (codes "systemctl") (show_args unit) _ h p (
      Safe-requiring (not (m.run h (codes "systemctl") (show_args unit)).1) _ _
        λ e. Safe-pure _ _ (refl, refl))

  check_unit-Safe :
      (unit verb : Text) (h : History)
      → args ≡ unit ∷ []
      → Controls action unit verb
      → Safe
          (Permitted m rounds action args)
          S
          (check_unit m unit)
          (λ t k. (check_unit_allowed unit ≡ true) × IsShown m unit k)
          h
  unfolding check_unit
  check_unit-Safe unit verb h same controls = Safe-requiring (check_unit_allowed unit) _ h λ valid.
      Safe-bind _ (unit_facts m unit) _ h
        (unit_facts-Safe unit h (asking unit verb same controls valid))
        λ facts k r. Safe-requiring (is_loaded facts) _ k λ loaded.
          Safe-requiring (ends_with facts.id (codes ".service")) _ k
            λ service. shown facts k r valid loaded service
    where
      shown :
          (facts : UnitFacts) (k : History)
          → (k ≡ ran (codes "systemctl") (show_args unit) ∷ h)
            × (facts ≡ facts_of (m.run h (codes "systemctl") (show_args unit)).0)
          → check_unit_allowed unit ≡ true
          → is_loaded facts ≡ true
          → ends_with facts.id (codes ".service") ≡ true
          → Safe
              (Permitted m rounds action args)
              S
              (refuse_unless (check_unit_allowed facts.id))
              (λ t k. (check_unit_allowed unit ≡ true) × IsShown m unit k)
              k
      shown facts k (at, same_facts) valid loaded service =
          Safe-required (check_unit_allowed facts.id) k λ controlled. (
            valid,
            record {
              before = h;
              shown = at;
              loaded = ap is_loaded (sym same_facts) ∙ loaded;
              service = ap (λ f. ends_with f.id (codes ".service")) (sym same_facts) ∙ service;
              controlled = ap (λ f. check_unit_allowed f.id) (sym same_facts) ∙ controlled;
            },
          )

  pub service_action-Safe :
      (verb : Verb) (given : List Text) (h : History)
      → args ≡ given
      → ((unit : Text) → args ≡ unit ∷ [] → Controls action unit (verb_name verb))
      → Safe (Permitted m rounds action args) S (service_action m verb given) Anything h
  unfolding service_action
  service_action-Safe verb [] h same controls = Safe-refuse h
  service_action-Safe verb (unit ∷ []) h same controls =
      let asked = controls unit same in
      Safe-bind _ (check_unit m unit) _ h (check_unit-Safe unit (verb_name verb) h same asked)
        λ t k r.
          Safe-running m (codes "systemctl") (verb_name verb ∷ unit ∷ []) k
            (changing unit (verb_name verb) same asked r.0 r.1)
  service_action-Safe verb (unit ∷ x ∷ xs) h same controls = Safe-refuse h

  pub phpfpm_restart-Safe :
      (given : List Text) (h : History)
      → args ≡ given
      → action ≡ codes "phpfpm.restart"
      → Safe (Permitted m rounds action args) S (phpfpm_restart m given) Anything h
  unfolding phpfpm_restart
  phpfpm_restart-Safe [] h same named = Safe-refuse h
  phpfpm_restart-Safe (unit ∷ []) h same named = Safe-requiring (valid_php_unit unit) _ h λ valid.
      service_action-Safe restart (unit ∷ []) h same λ other again.
        restarts_php named
          (subst (λ l. valid_php_unit (first_of l) ≡ true) (sym same ∙ again) valid)
  phpfpm_restart-Safe (unit ∷ x ∷ xs) h same named = Safe-refuse h

  pub nginx_test-Safe :
      (given : List Text) (h : History)
      → action ≡ codes "nginx-test"
      → Safe (Permitted m rounds action args) S (nginx_test m given) Anything h
  unfolding nginx_test
  nginx_test-Safe given h named = Safe-requiring _ _ h λ e. Safe-asking _ _ h (
      Safe-requiring _ _ h λ f.
        Safe-calling m (codes "nginx") (codes "-t" ∷ []) _ h (testing (inl named))
          (Safe-fail_if _ _))

  reload_nginx-Safe :
      (h : History)
      → MayReload action args
      → Safe (Permitted m rounds action args) S (reload_nginx m) Anything h
  unfolding reload_nginx
  reload_nginx-Safe h may = Safe-asking _ _ h (
      Safe-requiring _ _ h λ f.
        Safe-bind Anything (unit_facts m (codes "nginx.service")) _ h
          (Safe-forget _ _ h (unit_facts-Safe (codes "nginx.service") h (asking_nginx may)))
          λ facts k r. Safe-requiring _ _ k λ loaded.
            Safe-calling m (codes "nginx") (codes "-t" ∷ []) _ k (testing (inr may)) (
              Safe-failing _ _ _ λ passed.
                Safe-running m (codes "systemctl") (codes "reload" ∷ codes "nginx" ∷ []) _
                  (reloading k may refl passed)))

  pub nginx_reload-Safe :
      (given : List Text) (h : History)
      → action ≡ codes "nginx.reload"
      → Safe (Permitted m rounds action args) S (nginx_reload m given) Anything h
  unfolding nginx_reload
  nginx_reload-Safe given h named = Safe-requiring _ _ h λ e. reload_nginx-Safe h (inl named)

  pub journal_vacuum-Safe :
      (given : List Text) (h : History)
      → args ≡ given
      → action ≡ codes "disk.journal_vacuum"
      → Safe (Permitted m rounds action args) S (journal_vacuum m given) Anything h
  unfolding journal_vacuum
  journal_vacuum-Safe [] h same named = Safe-refuse h
  journal_vacuum-Safe (size ∷ []) h same named =
      Safe-requiring (valid_journal_size size) _ h
        λ valid. Safe-running m (codes "journalctl") _ h (vacuuming size named same valid)
  journal_vacuum-Safe (size ∷ x ∷ xs) h same named = Safe-refuse h

  pub apt_clean-Safe :
      (given : List Text) (h : History)
      → action ≡ codes "disk.apt_clean"
      → Safe (Permitted m rounds action args) S (apt_clean m given) Anything h
  unfolding apt_clean
  apt_clean-Safe given h named = Safe-requiring _ _ h λ e. Safe-asking _ _ h (
      Safe-requiring _ _ h
        λ f. Safe-running m (codes "apt-get") (codes "clean" ∷ []) h (cleaning named))

  reload_if-Safe :
      (o : Option UnitFacts) (h : History)
      → MayReload action args
      → Safe (Permitted m rounds action args) S (reload_if m o) Anything h
  reload_if-Safe none h may = Safe-pure tt h tt
  reload_if-Safe (some facts) h may = if_loaded (is_loaded facts)
    where
      if_loaded :
          (b : Bool)
          → Safe
              (Permitted m rounds action args)
              S
              (if b then reload_nginx m else pure tt)
              Anything
              h
      if_loaded true = reload_nginx-Safe h may
      if_loaded false = Safe-pure tt h tt

  after_renewal-Safe :
      (dry : Bool) (h : History)
      → (dry ≡ false → MayReload action args)
      → Safe (Permitted m rounds action args) S (after_renewal m dry) Anything h
  after_renewal-Safe true h may = Safe-pure tt h tt
  after_renewal-Safe false h may =
      Safe-bind _ (attempt (unit_facts m (codes "nginx.service"))) _ h
        (Safe-attempt (unit_facts m (codes "nginx.service")) h
          (unit_facts-Safe (codes "nginx.service") h (asking_nginx (may refl))))
        λ facts k r. reload_if-Safe facts k (may refl)

  renew-Safe :
      (name : Text) (dry : Bool) (h : History)
      → (valid_cert_name name ≡ true
          → Permitted m rounds action args h (ran (codes "certbot") (renewal_args m name dry)))
      → (dry ≡ false → MayReload action args)
      → Safe (Permitted m rounds action args) S (renew m name dry) Anything h
  renew-Safe name dry h run may = Safe-requiring (valid_cert_name name) _ h λ valid.
      Safe-asking _ _ h (
        Safe-requiring _ _ h λ folder. Safe-asking _ _ h (
          Safe-requiring _ _ h λ present. Safe-asking _ _ h (
            Safe-requiring _ _ h λ found.
              Safe-calling m (codes "certbot") _ _ h (run valid)
                (Safe-failing _ _ _ λ done. after_renewal-Safe dry _ may))))

  pub cert_renew-Safe :
      (given : List Text) (h : History)
      → args ≡ given
      → action ≡ codes "cert.renew"
      → Safe (Permitted m rounds action args) S (cert_renew m given) Anything h
  unfolding cert_renew
  cert_renew-Safe [] h same named = Safe-refuse h
  cert_renew-Safe (name ∷ []) h same named =
      renew-Safe name false h (renewing name named same) λ e. inr (named, (name, same))
  cert_renew-Safe (name ∷ flag ∷ []) h same named =
      Safe-requiring (text_beq flag (codes "--dry-run")) _ h λ e.
        renew-Safe name true h
          (rehearsing name named
            (same ∙ ap (λ (f : Text). name ∷ f ∷ []) ((text_beq_iff flag (codes "--dry-run")).0 e)))
          λ no_trial. absurd (ground (arith, no_trial))
  cert_renew-Safe (name ∷ flag ∷ x ∷ xs) h same named = Safe-refuse h
