-- ===== src/Firewall.antt =====
-- internal/firewall/firewall.go: the backend that is detected, its status, and the guarded edits.
pub mod Lockout
use rootmote_agent.Prelude.{
  ℕ, Bool, true, false, ◌&&◌, ◌||◌, not, Option, none, some, List, [], ◌∷◌, ◌++◌, Text, codes,
  text_beq, if◌then◌else◌, exists,
}
use rootmote_agent.Prelude.Int.{ℤ, pos, negsuc, int_beq, int_leb}
use rootmote_agent.Prelude.Texts.{trim_space}

pub data RuleAction : Type 0 where
  allow deny : RuleAction
  other_action : Text → RuleAction

pub data Protocol : Type 0 where
  tcp udp any : Protocol
  other_protocol : Text → Protocol

pub record Rule : Type 0 where
  pub action : RuleAction
  pub protocol : Protocol
  pub port : ℤ
  pub source : Text
  pub comment : Text

pub record Socket : Type 0 where
  pub protocol : Protocol
  pub address : Text
  pub port : ℤ
  pub process : Text
  pub pid : ℤ

-- What a backend answers at the time of a call: the error of `Available`, if any, and its rules.
pub record Backend : Type 0 where
  pub kind : Text
  pub unavailable : Option Text
  pub rules : Option (List Rule)

-- The manager with what its resolver and its socket reader answer at the time of a call.
pub record Firewall : Type 0 where
  pub backends : List Backend
  pub sockets : Option (List Socket)
  pub socket_error : Text
  pub ssh_ports : List ℤ

pub data EditError : Type 0 where
  unsupported_action unsupported_protocol port_out_of_range : EditError
  read_only : Text → EditError
  anti_lockout : List ℤ → EditError

-- An edit is refused, or handed to the backend.
pub data Decision : Type 0 where
  refused : EditError → Decision
  handed : Backend → Rule → Decision

abbrev message : Backend → Text → Text
message b err = b.kind ++ (codes ": " ++ err)

abbrev join_message : Text → Text → Text
join_message m [] = m
join_message m (c ∷ rest) = m ++ (codes "; " ++ (c ∷ rest))

abbrev or_detect : Backend → Option Text → Option Backend × Text → Option Backend × Text
or_detect b none rest = (some b, [])
or_detect b (some err) (none, messages) = (none, join_message (message b err) messages)
or_detect b (some err) (some c, messages) = (some c, [])

-- The first available backend, or none with the messages of all.
unfoldable pub probe : List Backend → Option Backend × Text
probe [] = (none, [])
probe (b ∷ bs) = or_detect b b.unavailable (probe bs)

abbrev or_default : Option Backend × Text → Option Backend × Text
or_default (none, []) = (none, codes "no ufw or firewalld backend present")
or_default (b, messages) = (b, messages)

unfoldable pub detect : List Backend → Option Backend × Text
unfolding probe
detect backends = or_default (probe backends)

abbrev pub port_in : ℤ → List ℤ → Bool
port_in port ports = exists (λ p. int_beq p port) ports

abbrev check_port : ℤ → Option EditError
check_port port =
    if int_leb port (pos 0) || not (int_leb port (pos 65535)) then some port_out_of_range else none

abbrev check_protocol : Protocol → ℤ → Option EditError
check_protocol (other_protocol p) port = some unsupported_protocol
check_protocol tcp port = check_port port
check_protocol _ port = check_port port

abbrev check_action : RuleAction → Protocol → ℤ → Option EditError
check_action (other_action a) protocol port = some unsupported_action
check_action allow protocol port = check_protocol protocol port
check_action deny protocol port = check_protocol protocol port

unfoldable pub validate_rule : Rule → Option EditError
validate_rule r = check_action r.action r.protocol r.port

abbrev is_deny : RuleAction → Bool
is_deny deny = true
is_deny _ = false

abbrev is_allow : RuleAction → Bool
is_allow allow = true
is_allow _ = false

-- The guard, and the call of the backend.
abbrev guarded : Bool → Rule → List ℤ → Option Backend × Text → Decision
guarded locks rule ports (none, reason) = refused (read_only reason)
guarded locks rule ports (some b, reason) =
    if locks && port_in rule.port ports then refused (anti_lockout ports) else handed b rule

abbrev unless_invalid : Option EditError → Decision → Decision
unless_invalid (some e) d = refused e
unless_invalid none d = d

unfoldable pub rule_add : Firewall → Rule → Decision
unfolding validate_rule detect
rule_add fw rule =
    unless_invalid (validate_rule rule)
      (guarded (is_deny rule.action) rule fw.ssh_ports (detect fw.backends))

unfoldable pub rule_remove : Firewall → Rule → Decision
unfolding validate_rule detect
rule_remove fw rule =
    unless_invalid (validate_rule rule)
      (guarded (is_allow rule.action) rule fw.ssh_ports (detect fw.backends))

unfoldable pub is_ssh_rule : Firewall → Rule → Bool
is_ssh_rule fw rule = port_in rule.port fw.ssh_ports

abbrev is_ssh_process : Text → Bool
is_ssh_process name =
    text_beq name (codes "sshd")
    || text_beq name (codes "sshd-session")
    || text_beq name (codes "sshd-auth")

-- The ports of the SSH server's sockets, once each, in order; `out` is what was found so far.
unfoldable pub add_ssh_ports : List ℤ → List Socket → List ℤ
add_ssh_ports out [] = out
add_ssh_ports out (sock ∷ socks) =
    add_ssh_ports
      (if not (is_ssh_process sock.process) || port_in sock.port out
        then out
        else out ++ (sock.port ∷ []))
      socks

unfoldable pub ssh_ports_from_sockets : List Socket → List ℤ
unfolding add_ssh_ports
ssh_ports_from_sockets socks = add_ssh_ports [] socks

unfoldable pub insert_port : ℤ → List ℤ → List ℤ
insert_port p [] = p ∷ []
insert_port p (q ∷ qs) = let rest = insert_port p qs in if int_leb p q then p ∷ q ∷ qs else q ∷ rest

-- `sort.Ints`
unfoldable pub sort_ports : List ℤ → List ℤ
unfolding insert_port
sort_ports [] = []
sort_ports (p ∷ ps) = insert_port p (sort_ports ps)

pub record FirewallStatus : Type 0 where
  pub backend : Text
  pub available : Bool
  pub unavailable_reason : Text
  pub unavailable_message : Text
  pub rules : List Rule
  pub sockets : List Socket
  pub ssh_ports : List ℤ

abbrev or_ports : List ℤ → List ℤ → List ℤ
or_ports [] resolved = resolved
or_ports (p ∷ ps) resolved = p ∷ ps

abbrev listening : Option (List Socket) → List Socket
listening none = []
listening (some socks) = socks

abbrev socket_message : Option (List Socket) → Text → Text → Text
socket_message (some socks) reason err = reason
socket_message none reason err = trim_space (reason ++ (codes "; sockets: " ++ err))

abbrev with_rules : Backend → List Socket → List ℤ → Option (List Rule) → Option FirewallStatus
with_rules b socks ports none = none
with_rules b socks ports (some rules) = some (record {
  backend = b.kind;
  available = true;
  unavailable_reason = [];
  unavailable_message = [];
  rules = rules;
  sockets = socks;
  ssh_ports = ports;
})

abbrev status_of : Firewall → List Socket → List ℤ → Option Backend × Text → Option FirewallStatus
status_of fw socks ports (some b, reason) = with_rules b socks ports b.rules
status_of fw socks ports (none, reason) = some (record {
  backend = codes "none";
  available = false;
  unavailable_reason = codes "no_backend";
  unavailable_message = socket_message fw.sockets reason fw.socket_error;
  rules = [];
  sockets = socks;
  ssh_ports = ports;
})

-- `none` is an error of the backend.
unfoldable pub status : Firewall → Option FirewallStatus
unfolding ssh_ports_from_sockets sort_ports detect
status fw =
    let socks = listening fw.sockets in
    status_of fw socks (sort_ports (or_ports (ssh_ports_from_sockets socks) fw.ssh_ports))
      (detect fw.backends)
