-- ===== src/Firewall/Lockout.antt =====
-- What the edits of internal/firewall/firewall.go that reach a backend are.
use rootmote_agent.Prelude.{
  ℕ, ◌<◌, ◌≤◌, ◌≡◌, refl, sym, Bool, false, ◌&&◌, Option, none, some, List, [], ◌∷◌, Text, arith,
  inl, inr, ◌⊎◌,
}
use mathlib.Core.Path.{subst, ◌∙◌}
use rootmote_agent.Prelude.Int.{ℤ, pos, negsuc, int_beq_iff}
use rootmote_agent.Firewall.{
  RuleAction, allow, deny, other_action, Protocol, tcp, other_protocol, Rule, Backend, Firewall,
  EditError, Decision, handed, probe, detect, port_in, validate_rule, rule_add, rule_remove,
  is_deny, is_allow, or_detect, or_default, guarded, unless_invalid, check_action, check_protocol,
  check_port,
}

-- The backend is available, and those before it on the list are not.
pub data IsFirst (b : Backend) : List Backend → Type 0 where
  here : {bs : List Backend} → b.unavailable ≡ none → IsFirst b (b ∷ bs)
  later :
      {c : Backend} {bs : List Backend} (err : Text)
      → c.unavailable ≡ some err
      → IsFirst b bs
      → IsFirst b (c ∷ bs)

-- The port stands on the list.
pub data IsIn (p : ℤ) : List ℤ → Type 0 where
  first : {ps : List ℤ} → IsIn p (p ∷ ps)
  further : {q : ℤ} {ps : List ℤ} → IsIn p ps → IsIn p (q ∷ ps)

pub port_in-IsIn : (p : ℤ) (ps : List ℤ) → port_in p ps ≡ false → ¬ IsIn p ps
port_in-IsIn p [] h i = elim i [ ]
port_in-IsIn p (q ∷ ps) h first = ground (arith, int_beq_iff q p)
port_in-IsIn p (q ∷ ps) h (further i) = absurd (port_in-IsIn p ps (ground arith) i)

or_detect-IsFirst :
    (c : Backend) (cs : List Backend) (b : Backend) (m : Text) (o : Option Text)
    (r : Option Backend × Text)
    → ((n : Text) → r ≡ (some b, n) → IsFirst b cs)
    → c.unavailable ≡ o
    → or_detect c o r ≡ (some b, m)
    → IsFirst b (c ∷ cs)
or_detect-IsFirst c cs b m none r ih u h =
    let same : c ≡ b = ground arith in subst (λ x. IsFirst x (c ∷ cs)) same (here u)
or_detect-IsFirst c cs b m (some err) (none, ms) ih u h = absurd (ground arith)
or_detect-IsFirst c cs b m (some err) (some d, ms) ih u h = later err u (ih ms (ground arith))

probe-IsFirst : (bs : List Backend) (b : Backend) (m : Text) → probe bs ≡ (some b, m) → IsFirst b bs
unfolding probe
probe-IsFirst [] b m h = absurd (ground arith)
probe-IsFirst (c ∷ cs) b m h =
    or_detect-IsFirst c cs b m c.unavailable (probe cs) (probe-IsFirst cs b) refl h

detect-IsFirst :
    (bs : List Backend) (b : Backend) (m : Text) → detect bs ≡ (some b, m) → IsFirst b bs
unfolding detect
detect-IsFirst bs b m h = found (probe bs) refl h
  where
    found : (r : Option Backend × Text) → probe bs ≡ r → or_default r ≡ (some b, m) → IsFirst b bs
    found (none, []) e h = absurd (ground arith)
    found (none, c ∷ n) e h = absurd (ground arith)
    found (some d, n) e h = probe-IsFirst bs b m (e ∙ h)

-- A port from 1 to 65535.
abbrev pub IsPort : ℤ → Type 0
IsPort port = (n : ℕ) × (port ≡ pos n) × (0 < n) × (n ≤ 65535)

check_port-IsPort : (port : ℤ) → check_port port ≡ none → IsPort port
check_port-IsPort (pos n) h = (n, refl, ground arith, ground arith)
check_port-IsPort (negsuc n) h = absurd (ground arith)

check_protocol-IsPort : (p : Protocol) (port : ℤ) → check_protocol p port ≡ none → IsPort port
check_protocol-IsPort (other_protocol t) port h = absurd (ground arith)
check_protocol-IsPort tcp port h = check_port-IsPort port h
check_protocol-IsPort _ port h = check_port-IsPort port h

check_action-IsPort :
    (a : RuleAction) (p : Protocol) (port : ℤ) → check_action a p port ≡ none → IsPort port
check_action-IsPort (other_action t) p port h = absurd (ground arith)
check_action-IsPort allow p port h = check_protocol-IsPort p port h
check_action-IsPort deny p port h = check_protocol-IsPort p port h

guarded-handed :
    (locks : Bool) (rule : Rule) (ports : List ℤ) (d : Option Backend × Text) (b : Backend)
    (r : Rule)
    → guarded locks rule ports d ≡ handed b r
    → (d ≡ (some b, d.1)) × (rule ≡ r) × ((locks && port_in rule.port ports) ≡ false)
guarded-handed locks rule ports (none, reason) b r h = absurd (ground arith)
guarded-handed locks rule ports (some c, reason) b r h = ground arith

unless_invalid-handed :
    (o : Option EditError) (d : Decision) (b : Backend) (r : Rule)
    → unless_invalid o d ≡ handed b r
    → (o ≡ none) × (d ≡ handed b r)
unless_invalid-handed none d b r h = (refl, h)
unless_invalid-handed (some e) d b r h = absurd (ground arith)

-- What holds of an edit that is handed to a backend.
abbrev pub HandedOver : Firewall → Rule → Backend → Rule → Type 0
HandedOver fw rule b r = (r ≡ rule) × IsFirst b fw.backends × IsPort rule.port

edit-HandedOver :
    (fw : Firewall) (rule : Rule) (locks : Bool) (b : Backend) (r : Rule)
    → unless_invalid (validate_rule rule) (guarded locks rule fw.ssh_ports (detect fw.backends))
      ≡ handed b r
    → HandedOver fw rule b r × ((locks && port_in rule.port fw.ssh_ports) ≡ false)
edit-HandedOver fw rule locks b r h =
    let (valid, g) = unless_invalid-handed (validate_rule rule) _ b r h in
    let (found, same, free) = guarded-handed locks rule fw.ssh_ports (detect fw.backends) b r g in
    (
      (
        sym same,
        detect-IsFirst fw.backends b _ found,
        check_action-IsPort rule.action rule.protocol rule.port (unfold validate_rule in valid),
      ),
      free,
    )

-- A removal of an allowing rule, or the addition of a denying one, that is handed to a backend.
abbrev pub ClosesPort : Firewall → Rule → Backend → Rule → Type 0
ClosesPort fw rule b r =
    ((rule.action ≡ allow) × (rule_remove fw rule ≡ handed b r))
    ⊎ ((rule.action ≡ deny) × (rule_add fw rule ≡ handed b r))

-- An edit that closes a port, by removing a rule that allows it or adding one that denies it, and
-- that reaches a backend, reaches the first one that is available, unchanged, with a port of the
-- range that is no active SSH port.
pub ClosesPort-handed :
    (fw : Firewall) (rule : Rule) (b : Backend) (r : Rule)
    → ClosesPort fw rule b r
    → HandedOver fw rule b r × (¬ IsIn rule.port fw.ssh_ports)
unfolding rule_remove rule_add
ClosesPort-handed fw rule b r (inl (e, h)) =
    let (over, free) = edit-HandedOver fw rule (is_allow rule.action) b r h in
    (over, port_in-IsIn rule.port fw.ssh_ports (ground (arith, free, e)))
ClosesPort-handed fw rule b r (inr (e, h)) =
    let (over, free) = edit-HandedOver fw rule (is_deny rule.action) b r h in
    (over, port_in-IsIn rule.port fw.ssh_ports (ground (arith, free, e)))
