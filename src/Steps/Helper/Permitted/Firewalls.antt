-- ===== src/Steps/Helper/Permitted/Firewalls.antt =====
-- The edits of the firewall by internal/steps/helper.go are permitted.
use rootmote_agent.Prelude.{ℕ, ◌≡◌, refl, Bool, true, false, some, List, [], ◌∷◌, Text, codes}
use rootmote_agent.Prelude.Int.{pos}
use rootmote_agent.Firewall.{
  Rule, Firewall, Decision, handed, EditError, anti_lockout, read_only, unsupported_action, status,
}
use rootmote_agent.Firewall
use rootmote_agent.Steps.Validate.{number_of, valid_port, valid_proto}
use rootmote_agent.Steps.Helper.{Machine, History}
use rootmote_agent.Steps.Helper.Safe.{
  Safe, Anything, Safe-refuse, Safe-fail, Safe-asking, Safe-requiring, Safe-from_refuse,
  Safe-from_fail, Safe-required, Safe-emitting, Safe-fail_if,
}
use rootmote_agent.Steps.Helper.Actions.{
  port_of, edit_rule, edit_event, edit_error, decide, carry_out, firewall_change, firewall_rules,
}
use rootmote_agent.Steps.Helper.Permitted.{IsDecided, Permitted, opening, closing}

-- The action of an edit.
abbrev pub edit_name : Bool → Text
edit_name true = codes "firewall.allow"
edit_name false = codes "firewall.remove"

module _ (m : Machine) (rounds : ℕ) (action : Text) (args : List Text) (S : Type 0) where
  edit_error-Safe :
      (e : EditError) (h : History)
      → Safe (Permitted m rounds action args) S (edit_error e) Anything h
  edit_error-Safe (anti_lockout ports) h = Safe-refuse h
  edit_error-Safe (read_only reason) h = Safe-refuse h
  edit_error-Safe unsupported_action h = Safe-refuse h
  edit_error-Safe _ h = Safe-fail h

  edit_event-Permitted :
      (opens : Bool) (rule : Rule) (h : History)
      → action ≡ edit_name opens
      → IsDecided m args h opens rule
      → Permitted m rounds action args h (edit_event opens rule)
  edit_event-Permitted true rule h named d = opening rule named d
  edit_event-Permitted false rule h named d = closing rule named d

  carry_out-Safe :
      (opens : Bool) (a proto : Text) (port : ℕ) (fw : Firewall) (d : Decision) (h : History)
      → action ≡ edit_name opens
      → args ≡ a ∷ proto ∷ []
      → port_of (number_of a) ≡ some port
      → valid_proto proto ≡ true
      → m.firewall h ≡ some fw
      → decide opens fw (edit_rule port proto) ≡ d
      → Safe (Permitted m rounds action args) S (carry_out m opens d) Anything h
  carry_out-Safe opens a proto port fw (Firewall.refused e) h named same is_port is_proto found
        dec =
      edit_error-Safe e h
  carry_out-Safe opens a proto port fw (handed b rule) h named same is_port is_proto found dec =
      Safe-asking _ _ h (
        Safe-emitting (edit_event opens rule) _ h (edit_event-Permitted opens rule h named decided)
          (Safe-fail_if _ _))
    where
      decided : IsDecided m args h opens rule
      decided = record {
        port_text = a;
        proto = proto;
        asked = same;
        port = port;
        is_port = is_port;
        is_proto = is_proto;
        fw = fw;
        backend = b;
        found = found;
        passes = dec;
      }

  pub firewall_change-Safe :
      (opens : Bool) (given : List Text) (h : History)
      → args ≡ given
      → action ≡ edit_name opens
      → Safe (Permitted m rounds action args) S (firewall_change m opens given) Anything h
  unfolding firewall_change
  firewall_change-Safe opens [] h same named = Safe-refuse h
  firewall_change-Safe opens (a ∷ []) h same named = Safe-refuse h
  firewall_change-Safe opens (a ∷ proto ∷ []) h same named =
      Safe-from_refuse (port_of (number_of a)) _ h λ port is_port.
        Safe-requiring (valid_port (pos port)) _ h λ valid.
          Safe-requiring (valid_proto proto) _ h λ is_proto. Safe-asking m.firewall _ h (
            Safe-from_refuse (m.firewall h) _ h λ fw found.
              carry_out-Safe opens a proto port fw (decide opens fw (edit_rule port proto)) h named
                same is_port is_proto found refl)
  firewall_change-Safe opens (a ∷ proto ∷ x ∷ xs) h same named = Safe-refuse h

  pub firewall_rules-Safe :
      (given : List Text) (h : History)
      → Safe (Permitted m rounds action args) S (firewall_rules m given) Anything h
  unfolding firewall_rules
  firewall_rules-Safe given h = Safe-requiring _ _ h λ e. Safe-asking m.firewall _ h (
      Safe-from_refuse (m.firewall h) _ h
        λ fw found. Safe-from_fail (status fw) _ h λ st. Safe-required st.available h λ q. tt)
