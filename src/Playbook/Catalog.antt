-- ===== src/Playbook/Catalog.antt =====
-- The parameters of the steps, with their patterns (internal/steps/catalog.go and step.go), and the
-- largest number of each (internal/playbook/validate.go).
use rootmote_agent.Prelude.{
  ℕ, ◌-◌, ◌^◌, Bool, true, false, ◌&&◌, ◌||◌, not, List, [], ◌∷◌, Text, codes, text_beq, text_eq,
  length, leb, eqb, if◌then◌else◌,
}
use rootmote_agent.Prelude.Texts.{is_any_of, starts_with, drop_prefix}
use rootmote_agent.Steps.Validate.{every, is_nonempty, is_name_char, cert_start, php_name}
use rootmote_agent.Steps.Catalog.{
  StepId, service_restart, service_start, service_stop, service_reload, container_restart,
  compose_up, pm2_restart, phpfpm_restart, supervisor_restart, journal_vacuum, cert_renew,
  process_stop, firewall_allow, firewall_remove, check_http,
}

-- The inventory list that a value must come from.
pub data Source : Type 0 where
  units containers compose_services pm2_apps supervisor_programs certs urls ports anywhere : Source

-- The patterns of the catalog.
pub data Pattern : Type 0 where
  any_text name_pattern cert_pattern php_pattern size_pattern proto_pattern url_pattern : Pattern

pub record Param : Type 0 where
  pub name : Text
  pub is_integer : Bool
  pub pattern : Pattern
  pub enum : List Text
  pub source : Source

abbrev name_param : Text → Source → Param
name_param name source = record {
  name = name;
  is_integer = false;
  pattern = name_pattern;
  enum = [];
  source = source;
}

abbrev pub port_param : Param
port_param = record {
  name = codes "port";
  is_integer = true;
  pattern = any_text;
  enum = [];
  source = ports;
}

abbrev pub proto_param : Param
proto_param = record {
  name = codes "proto";
  is_integer = false;
  pattern = proto_pattern;
  enum = codes "tcp" ∷ codes "udp" ∷ [];
  source = anywhere;
}

abbrev pub number_param : Text → Param
number_param name = record {
  name = name;
  is_integer = true;
  pattern = any_text;
  enum = [];
  source = anywhere;
}

abbrev unit_param : List Param
unit_param = name_param (codes "unit") units ∷ []

abbrev firewall_params : List Param
firewall_params = port_param ∷ proto_param ∷ []

-- `Def().Params` of the step.
unfoldable pub params_of : StepId → List Param
params_of service_restart = unit_param
params_of service_start = unit_param
params_of service_stop = unit_param
params_of service_reload = unit_param
params_of container_restart = name_param (codes "container") containers ∷ []
params_of compose_up =
    name_param (codes "project") compose_services
    ∷ name_param (codes "service") compose_services
    ∷ []
params_of pm2_restart = name_param (codes "app") pm2_apps ∷ name_param (codes "user") pm2_apps ∷ []
params_of phpfpm_restart = record (name_param (codes "unit") units) { pattern = php_pattern } ∷ []
params_of supervisor_restart = name_param (codes "program") supervisor_programs ∷ []
params_of journal_vacuum =
    record {
      name = codes "size";
      is_integer = false;
      pattern = size_pattern;
      enum = codes "100M" ∷ codes "200M" ∷ codes "500M" ∷ [];
      source = anywhere;
    }
    ∷ []
params_of cert_renew = record (name_param (codes "name") certs) { pattern = cert_pattern } ∷ []
params_of process_stop = number_param (codes "pid") ∷ number_param (codes "start_time") ∷ []
params_of firewall_allow = firewall_params
params_of firewall_remove = firewall_params
params_of check_http = record (name_param (codes "url") urls) { pattern = url_pattern } ∷ []
params_of _ = []

-- `integerMax`
unfoldable pub integer_max : Text → ℕ
integer_max name =
    if text_beq name (codes "start_time")
    then 2 ^ 63 - 1
    else (if text_beq name (codes "port")
        then 65535
        else (if text_beq name (codes "pid") then 2 ^ 22 else 2 ^ 31 - 1))

-- The spaces of a regular expression.
abbrev is_blank : ℕ → Bool
is_blank c = eqb c 9 || eqb c 10 || eqb c 12 || eqb c 13 || eqb c 32

abbrev url_rest : Text → Bool
url_rest s = is_nonempty s && leb (length s) 1000 && every (λ c. not (is_blank c)) s

abbrev is_url : Text → Bool
is_url s =
    if starts_with s (codes "https://")
    then url_rest (drop_prefix s (codes "https://"))
    else starts_with s (codes "http://") && url_rest (drop_prefix s (codes "http://"))

unfoldable pub matches_pattern : Pattern → Text → Bool
matches_pattern any_text s = true
matches_pattern name_pattern s = is_nonempty s && leb (length s) 128 && every is_name_char s
matches_pattern cert_pattern s = cert_start s
matches_pattern php_pattern s = php_name s
matches_pattern size_pattern s = is_any_of (codes "100M" ∷ codes "200M" ∷ codes "500M" ∷ []) s
matches_pattern proto_pattern s = is_any_of (codes "tcp" ∷ codes "udp" ∷ []) s
matches_pattern url_pattern s = is_url s
