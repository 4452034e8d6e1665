-- ===== src/Steps/PrivArgs.antt =====
-- internal/steps/privargs.go: the arguments of the privilege helper for a step.
pub mod Decimal
pub mod Accepted
use rootmote_agent.Prelude.{
  ℕ, zero, suc, ◌+◌, ◌*◌, ◌/◌, ◌%◌, ◌^◌, Bool, true, false, ◌&&◌, ◌||◌, not, Option, none, some,
  List, [], ◌∷◌, ◌++◌, Text, codes, ltb, eqb, if◌then◌else◌, text_eq,
}
use rootmote_agent.Prelude.Maps.{lookup}
use rootmote_agent.Prelude.Int.{ℤ, pos, negsuc}
use rootmote_agent.Steps.Catalog.{
  StepId, service_restart, service_start, service_stop, service_reload, container_restart,
  compose_up, pm2_restart, nginx_reload, phpfpm_restart, supervisor_restart, journal_vacuum,
  docker_prune, apt_clean, cert_renew, process_stop, firewall_allow, firewall_remove, check_http,
  unlisted,
}
use rootmote_agent.Steps.Params.{Params, Value, uint64, text, digits, string_param, int_param}
use rootmote_agent.Steps.Validate.{
  check_unit_allowed, valid_php_unit, valid_name, valid_journal_size, valid_cert_name, valid_user,
  valid_port, valid_proto,
}

-- `strconv.FormatUint(n, 10)`: one digit for each unit of fuel.
unfoldable pub decimal_digits : ℕ → ℕ → Text → Text
decimal_digits zero n rest = rest
decimal_digits (suc fuel) n rest =
    let more = decimal_digits fuel (n / 10) ((b'0' + n % 10) ∷ rest) in
    if ltb n 10 then (b'0' + n) ∷ rest else more

-- Twenty digits are enough for every 64-bit number.
unfoldable pub decimal : ℕ → Text
unfolding decimal_digits
decimal n = decimal_digits 20 n []

unfoldable pub format_int : ℤ → Text
unfolding decimal
format_int (pos n) = decimal n
format_int (negsuc n) = b'-' ∷ decimal (n + 1)

abbrev below_word : Option ℕ → Option ℕ
below_word none = none
below_word (some n) = if ltb n (2 ^ 64) then some n else none

-- `strconv.ParseUint(s, 10, 64)`
abbrev pub parse_uint : Text → Option ℕ
parse_uint [] = none
parse_uint (c ∷ s) = below_word (digits 0 (c ∷ s))

abbrev pub natural : Option ℤ → Option ℕ
natural (some (pos n)) = some n
natural _ = none

abbrev pub uint_of : Option Value → Option ℤ → Option ℕ
uint_of (some (uint64 n)) other = some n
uint_of (some (text s)) other = parse_uint s
uint_of _ other = natural other

unfoldable pub uint_param : Params → Text → Option ℕ
unfolding int_param digits
uint_param p name = uint_of (lookup name p) (int_param p name)

abbrev pub when : Bool → List Text → Option (List Text)
when true args = some args
when false args = none

abbrev unit_args : Params → Option (List Text)
unit_args p = let unit = string_param p (codes "unit") in when (check_unit_allowed unit) (unit ∷ [])

abbrev pub is_pid : ℤ → Bool
is_pid (pos n) = ltb 1 n
is_pid (negsuc n) = false

abbrev pub process_args : Option ℤ → Option ℕ → Option (List Text)
process_args none start = none
process_args (some pid) none = none
process_args (some pid) (some start) =
    when (is_pid pid && ltb 0 start) (format_int pid ∷ decimal start ∷ [])

abbrev pub firewall_args : Option ℤ → Text → Option (List Text)
firewall_args none proto = none
firewall_args (some port) proto =
    when (valid_port port && valid_proto proto) (format_int port ∷ proto ∷ [])

-- `none` is a refusal.
unfoldable pub priv_args : StepId → Params → Option (List Text)
unfolding string_param int_param uint_param format_int decimal check_unit_allowed valid_php_unit
    valid_name valid_journal_size valid_cert_name valid_user valid_port valid_proto
priv_args service_restart p = unit_args p
priv_args service_start p = unit_args p
priv_args service_stop p = unit_args p
priv_args service_reload p = unit_args p
priv_args nginx_reload p = some []
priv_args apt_clean p = some []
priv_args phpfpm_restart p =
    let unit = string_param p (codes "unit") in when (valid_php_unit unit) (unit ∷ [])
priv_args supervisor_restart p =
    let program = string_param p (codes "program") in when (valid_name program) (program ∷ [])
priv_args journal_vacuum p =
    let size = string_param p (codes "size") in when (valid_journal_size size) (size ∷ [])
priv_args cert_renew p =
    let name = string_param p (codes "name") in when (valid_cert_name name) (name ∷ [])
priv_args pm2_restart p =
    let user = string_param p (codes "user") in
    let app = string_param p (codes "app") in
    when (valid_user user && valid_name app) (user ∷ app ∷ [])
priv_args process_stop p =
    process_args (int_param p (codes "pid")) (uint_param p (codes "start_time"))
priv_args firewall_allow p =
    firewall_args (int_param p (codes "port")) (string_param p (codes "proto"))
priv_args firewall_remove p =
    firewall_args (int_param p (codes "port")) (string_param p (codes "proto"))
priv_args container_restart p = none
priv_args compose_up p = none
priv_args docker_prune p = none
priv_args check_http p = none
priv_args (unlisted t) p = none
