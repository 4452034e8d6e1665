-- ===== src/Steps/Validate.antt =====
-- internal/steps/validate.go: what a step may be given. The regular expressions are written as
-- tests of characters and lengths.
use rootmote_agent.Prelude.{
  ℕ, ◌^◌, Bool, true, false, ◌&&◌, ◌||◌, not, Option, none, some, List, [], ◌∷◌, Text, codes,
  text_beq, length, leb, ltb, eqb, if◌then◌else◌, exists,
}
use rootmote_agent.Prelude.Int.{ℤ, pos, int_leb}
use rootmote_agent.Prelude.Texts.{starts_with, ends_with, trim_suffix, contains_text, is_any_of}
use rootmote_agent.Steps.Params.{digits}

abbrev pub is_digit : ℕ → Bool
is_digit c = leb b'0' c && leb c b'9'

abbrev is_letter : ℕ → Bool
is_letter c = (leb b'A' c && leb c b'Z') || (leb b'a' c && leb c b'z')

abbrev pub is_name_char : ℕ → Bool
is_name_char c =
    is_letter c || is_digit c || eqb c b'@' || eqb c b'.' || eqb c b'_' || eqb c b':' || eqb c b'-'

abbrev is_cert_char : ℕ → Bool
is_cert_char c = is_letter c || is_digit c || eqb c b'.' || eqb c b'_' || eqb c b'-'

abbrev pub every : (ℕ → Bool) → Text → Bool
every p s = not (exists (λ c. not (p c)) s)

abbrev pub is_nonempty : Text → Bool
is_nonempty [] = false
is_nonempty (c ∷ s) = true

-- `ValidateName`, whatever the name is of.
unfoldable pub valid_name : Text → Bool
valid_name s =
    is_nonempty s && leb (length s) 128 && every is_name_char s && not (starts_with s (codes "-"))

abbrev user_start : Text → Bool
user_start [] = false
user_start (c ∷ s) = (is_letter c || eqb c b'_') && leb (length s) 31 && every is_cert_char s

unfoldable pub valid_user : Text → Bool
valid_user s = user_start s

abbrev pub cert_start : Text → Bool
cert_start [] = false
cert_start (c ∷ s) = (is_letter c || is_digit c) && leb (length s) 127 && every is_cert_char s

unfoldable pub valid_cert_name : Text → Bool
valid_cert_name s = cert_start s && not (contains_text s (codes ".."))

-- Behind `php`: digits and points up to `-fpm`, and no more or `.service`.
abbrev php_version : Text → Bool
php_version [] = false
php_version (c ∷ s) =
    if is_digit c || eqb c b'.'
    then php_version s
    else text_beq (c ∷ s) (codes "-fpm") || text_beq (c ∷ s) (codes "-fpm.service")

abbrev pub php_name : Text → Bool
php_name (c ∷ d ∷ e ∷ s) = text_beq (c ∷ d ∷ e ∷ []) (codes "php") && php_version s
php_name _ = false

unfoldable pub valid_php_unit : Text → Bool
unfolding valid_name
valid_php_unit s = valid_name s && php_name s

unfoldable pub valid_port : ℤ → Bool
valid_port p = int_leb (pos 1) p && int_leb p (pos 65535)

unfoldable pub valid_proto : Text → Bool
valid_proto s = text_beq s (codes "tcp") || text_beq s (codes "udp")

abbrev pub is_digits : Text → Bool
is_digits s = is_nonempty s && leb (length s) 20 && every is_digit s

abbrev pub number_of : Text → Option ℕ
number_of s = if is_digits s then digits 0 s else none

abbrev pub pid_of : Option ℕ → Option ℕ
pid_of none = none
pid_of (some n) = if ltb n (2 ^ 31) && ltb 1 n then some n else none

unfoldable pub parse_pid : Text → Option ℕ
unfolding digits
parse_pid s = pid_of (number_of s)

abbrev pub start_of : Option ℕ → Option ℕ
start_of none = none
start_of (some n) = if ltb n (2 ^ 64) && ltb 0 n then some n else none

unfoldable pub parse_start_time : Text → Option ℕ
unfolding digits
parse_start_time s = start_of (number_of s)

abbrev other_suffixes : List Text
other_suffixes =
    codes ".socket"
    ∷ codes ".target"
    ∷ codes ".timer"
    ∷ codes ".path"
    ∷ codes ".mount"
    ∷ codes ".automount"
    ∷ codes ".slice"
    ∷ codes ".scope"
    ∷ codes ".swap"
    ∷ codes ".device"
    ∷ codes ".snapshot"
    ∷ []

abbrev strip_first : Text → List Text → Text
strip_first name [] = name
strip_first name (s ∷ ss) =
    let rest = strip_first name ss in if ends_with name s then trim_suffix name s else rest

unfoldable pub unit_base : Text → Text
unit_base name = strip_first name (codes ".service" ∷ other_suffixes)

abbrev protected_exact : List Text
protected_exact =
    codes "ssh"
    ∷ codes "sshd"
    ∷ codes "networking"
    ∷ codes "network"
    ∷ codes "NetworkManager"
    ∷ codes "systemd-networkd"
    ∷ codes "systemd-resolved"
    ∷ codes "wpa_supplicant"
    ∷ codes "ufw"
    ∷ codes "firewalld"
    ∷ codes "nftables"
    ∷ codes "iptables"
    ∷ codes "ip6tables"
    ∷ codes "netfilter-persistent"
    ∷ codes "rootmote-agent"
    ∷ codes "docker"
    ∷ codes "containerd"
    ∷ []

abbrev protected_prefix : List Text
protected_prefix =
    codes "systemd-"
    ∷ codes "dbus"
    ∷ codes "getty@"
    ∷ codes "serial-getty@"
    ∷ codes "ssh@"
    ∷ codes "sshd@"
    ∷ codes "sshd-"
    ∷ codes "sshd-session"
    ∷ codes "NetworkManager"
    ∷ codes "ifup@"
    ∷ codes "user@"
    ∷ []

unfoldable pub is_service_name : Text → Bool
is_service_name name = not (exists (ends_with name) other_suffixes)

unfoldable pub is_protected_unit : Text → Bool
unfolding unit_base
is_protected_unit name =
    is_any_of protected_exact (unit_base name)
    || exists (starts_with (unit_base name)) protected_prefix

unfoldable pub check_unit_allowed : Text → Bool
unfolding valid_name is_service_name is_protected_unit
check_unit_allowed name = valid_name name && is_service_name name && not (is_protected_unit name)

unfoldable pub valid_journal_size : Text → Bool
valid_journal_size s = is_any_of (codes "100M" ∷ codes "200M" ∷ codes "500M" ∷ []) s
