-- ===== src/Playbook.antt =====
-- internal/playbook/playbook.go and validate.go: the check of a playbook's steps, with what the
-- catalog (internal/steps/catalog.go and step.go) says of their parameters.
pub mod Catalog
pub mod Admitted
use rootmote_agent.Prelude.{
  ℕ, ◌-◌, ◌^◌, Bool, true, false, ◌&&◌, ◌||◌, not, Option, none, some, List, [], ◌∷◌, Text, codes,
  text_beq, text_eq, length, leb, eqb, if◌then◌else◌, exists,
}
use rootmote_agent.Prelude.Maps.{lookup}
use rootmote_agent.Prelude.Int.{ℤ, pos, int_beq, int_leb}
use rootmote_agent.Prelude.Texts.{is_any_of, starts_with, drop_prefix}
use rootmote_agent.Steps.Params.{Params, Value, text, string_param, int_param}
use rootmote_agent.Steps.Validate.{every, is_nonempty, is_name_char, cert_start, php_name}
use rootmote_agent.Steps.Catalog.{
  StepId, service_restart, service_start, service_stop, service_reload, container_restart,
  compose_up, pm2_restart, nginx_reload, phpfpm_restart, supervisor_restart, journal_vacuum,
  docker_prune, apt_clean, cert_renew, process_stop, firewall_allow, firewall_remove, check_http,
  unlisted, is_listed,
}
use rootmote_agent.Playbook.Catalog.{
  Source, Param, params_of, integer_max, matches_pattern, units, containers, compose_services,
  pm2_apps, supervisor_programs, certs, urls, ports,
}

pub record ComposePair : Type 0 where
  pub project : Text
  pub service : Text

pub record Pm2Pair : Type 0 where
  pub user : Text
  pub app : Text

pub record Inventory : Type 0 where
  pub units : List Text
  pub containers : List Text
  pub compose_services : List ComposePair
  pub pm2_apps : List Pm2Pair
  pub supervisor_programs : List Text
  pub certs : List Text
  pub urls : List Text
  pub ports : List ℤ

pub record PlaybookStep : Type 0 where
  pub step : StepId
  pub params : Params

abbrev pub in_range : ℕ → Option ℤ → Bool
in_range most none = false
in_range most (some n) = int_leb (pos 1) n && int_leb n (pos most)

abbrev pub is_text : Value → Bool
is_text (text s) = true
is_text _ = false

abbrev of_enum : List Text → Text → Bool
of_enum [] s = true
of_enum (e ∷ es) s = is_any_of (e ∷ es) s

abbrev pub fits_text : Param → Value → Bool
fits_text p (text s) = of_enum p.enum s && matches_pattern p.pattern s
fits_text p _ = false

unfoldable pub check_param : Param → Params → Value → Bool
unfolding int_param integer_max matches_pattern
check_param p all raw =
    if p.is_integer
    then not (is_text raw) && in_range (integer_max p.name) (int_param all p.name)
    else fits_text p raw

abbrev pub check_given : Param → Params → Option Value → Bool
check_given p all none = false
check_given p all (some raw) = check_param p all raw

abbrev first_int : Option ℤ → ℤ
first_int none = pos 0
first_int (some n) = n

-- The switch on the source of one parameter.
unfoldable pub in_inventory : Inventory → Params → Param → Source → Bool
unfolding string_param int_param
in_inventory inv p param units = is_any_of inv.units (string_param p param.name)
in_inventory inv p param containers = is_any_of inv.containers (string_param p param.name)
in_inventory inv p param supervisor_programs =
    is_any_of inv.supervisor_programs (string_param p param.name)
in_inventory inv p param certs = is_any_of inv.certs (string_param p param.name)
in_inventory inv p param urls = is_any_of inv.urls (string_param p param.name)
in_inventory inv p param ports =
    exists (λ n. int_beq n (first_int (int_param p param.name))) inv.ports
in_inventory inv p param _ = true

-- The names that must be there together.
unfoldable pub check_pair : StepId → Params → Inventory → Bool
unfolding string_param
check_pair compose_up p inv =
    exists
      (λ c.
        text_beq c.project (string_param p (codes "project"))
        && text_beq c.service (string_param p (codes "service")))
      inv.compose_services
check_pair pm2_restart p inv =
    exists
      (λ a.
        text_beq a.app (string_param p (codes "app"))
        && text_beq a.user (string_param p (codes "user")))
      inv.pm2_apps
check_pair _ p inv = true

abbrev pub all_params : (Param → Bool) → List Param → Bool
all_params test ps = not (exists (λ p. not (test p)) ps)

unfoldable pub check_source : StepId → Params → Inventory → Bool
unfolding in_inventory check_pair params_of
check_source id p inv =
    all_params (λ param. in_inventory inv p param param.source) (params_of id)
    && check_pair id p inv

-- No parameter but those of the catalog.
unfoldable pub all_known : List Param → Params → Bool
all_known defs [] = true
all_known defs ((name, v) ∷ p) = exists (λ d. text_beq d.name name) defs && all_known defs p

abbrev pub validates : Option (StepId → Params → Bool) → StepId → Params → Bool
validates none id p = true
validates (some v) id p = v id p

-- `true` where there is no error; `v` is the validator on the live host, if any.
unfoldable pub check_step : Option (StepId → Params → Bool) → Inventory → PlaybookStep → Bool
unfolding is_listed params_of all_known check_param check_source
check_step v inv s =
    is_listed s.step
    && (all_known (params_of s.step) s.params
        && (all_params (λ p. check_given p s.params (lookup p.name s.params)) (params_of s.step)
            && (check_source s.step s.params inv && validates v s.step s.params)))

abbrev pub is_some_step : List PlaybookStep → Bool
is_some_step [] = false
is_some_step (s ∷ ss) = true

abbrev pub max_steps : ℕ
max_steps = 6

-- The part of `Check` on the steps; `has_manual` where there are manual steps.
unfoldable pub check_steps :
    Option (StepId → Params → Bool) → Inventory → Bool → List PlaybookStep → Bool
unfolding check_step
check_steps v inv has_manual steps =
    leb (length steps) max_steps
    && (is_some_step steps || has_manual)
    && not (exists (λ s. not (check_step v inv s)) steps)
