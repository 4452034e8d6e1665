-- ===== src/Steps/Helper/Names.antt =====
-- The names of the actions of internal/steps/helper.go.
use rootmote_agent.Prelude.{
  ◌≡◌, refl, Bool, true, false, Option, none, some, Text, codes, text_beq, text_beq_iff, arith,
  if◌then◌else◌,
}
use mathlib.Core.Path.{subst}
use rootmote_agent.Prelude.Texts.{is_any_of}
use rootmote_agent.Steps.Helper.Services.{Verb, restart, start, stop, reload}
use rootmote_agent.Steps.Helper.Actions.{
  orelse, named, Action, service, php, nginx_check, nginx, program_restart, program_status, vacuum,
  clean_packages, renew, reading, pm2, pm2_apps, kill, rules, firewall, action_of, needs_host,
}
use rootmote_agent.Steps.Helper.Permitted.{host_actions}
use rootmote_agent.Steps.Helper.Permitted.Firewalls.{edit_name}

-- The name by which the action is asked for.
abbrev pub verb_action : Verb → Text
verb_action restart = codes "service.restart"
verb_action start = codes "service.start"
verb_action stop = codes "service.stop"
verb_action reload = codes "service.reload"

abbrev pub IsNamed : Text → Action → Type 0
IsNamed s (service verb) = s ≡ verb_action verb
IsNamed s php = s ≡ codes "phpfpm.restart"
IsNamed s nginx_check = s ≡ codes "nginx-test"
IsNamed s nginx = s ≡ codes "nginx.reload"
IsNamed s program_restart = s ≡ codes "supervisor.restart"
IsNamed s program_status = s ≡ codes "supervisor-status"
IsNamed s vacuum = s ≡ codes "disk.journal_vacuum"
IsNamed s clean_packages = s ≡ codes "disk.apt_clean"
IsNamed s renew = s ≡ codes "cert.renew"
IsNamed s reading = Unit
IsNamed s pm2 = s ≡ codes "pm2.restart"
IsNamed s pm2_apps = s ≡ codes "pm2-list"
IsNamed s kill = s ≡ codes "process.stop"
IsNamed s rules = s ≡ codes "firewall-rules"
IsNamed s (firewall opens) = s ≡ edit_name opens

-- The first entry of the table is taken where it has the name, and the others only if not.
named_first :
    (given s : Text) (b a : Action) (o : Option Action)
    → (s ≡ given → IsNamed s b)
    → (o ≡ some a → IsNamed s a)
    → orelse (named given s b) o ≡ some a
    → IsNamed s a
named_first given s b a o first others h = by_test (text_beq s given) refl h
  where
    by_test :
        (t : Bool)
        → text_beq s given ≡ t
        → orelse (if t then some b else none) o ≡ some a
        → IsNamed s a
    by_test true e g =
        let same : b ≡ a = ground (arith, g) in
        subst (IsNamed s) same (first ((text_beq_iff s given).0 e))
    by_test false e g = others g

named_last :
    (given s : Text) (b a : Action)
    → (s ≡ given → IsNamed s b)
    → named given s b ≡ some a
    → IsNamed s a
named_last given s b a first h =
    named_first given s b a none first (λ e. absurd (ground (arith, e)))
      (widened (named given s b) h)
  where
    widened : (o : Option Action) → o ≡ some a → orelse o none ≡ some a
    widened none e = e
    widened (some x) e = e

-- A name stands for the action that bears it.
pub action_of-IsNamed : (s : Text) (a : Action) → action_of s ≡ some a → IsNamed s a
unfolding action_of
action_of-IsNamed s a =
    named_first _ s (service restart) a _ (λ e. e)
      (named_first _ s (service start) a _ (λ e. e)
        (named_first _ s (service stop) a _ (λ e. e)
          (named_first _ s (service reload) a _ (λ e. e)
            (named_first _ s php a _ (λ e. e)
              (named_first _ s nginx a _ (λ e. e)
                (named_first _ s nginx_check a _ (λ e. e)
                  (named_first _ s program_restart a _ (λ e. e)
                    (named_first _ s program_status a _ (λ e. e)
                      (named_first _ s vacuum a _ (λ e. e)
                        (named_first _ s clean_packages a _ (λ e. e)
                          (named_first _ s renew a _ (λ e. e)
                            (named_first _ s reading a _ (λ e. tt)
                              (named_first _ s reading a _ (λ e. tt)
                                (named_first _ s pm2 a _ (λ e. e)
                                  (named_first _ s pm2_apps a _ (λ e. e)
                                    (named_first _ s kill a _ (λ e. e)
                                      (named_first _ s (firewall true) a _ (λ e. e)
                                        (named_first _ s (firewall false) a _ (λ e. e)
                                          (named_last _ s rules a (λ e. e))))))))))))))))))))

-- What needs the host's namespace has one of the names that may be handed on.
pub needs_host-host_actions :
    (s : Text) (a : Action) → IsNamed s a → needs_host a ≡ true → is_any_of host_actions s ≡ true
needs_host-host_actions s (service verb) n h = absurd (ground (arith, h))
needs_host-host_actions s php n h = absurd (ground (arith, h))
needs_host-host_actions s program_restart n h = absurd (ground (arith, h))
needs_host-host_actions s program_status n h = absurd (ground (arith, h))
needs_host-host_actions s reading n h = absurd (ground (arith, h))
needs_host-host_actions s kill n h = absurd (ground (arith, h))
needs_host-host_actions s nginx_check n h = rw n refl
needs_host-host_actions s nginx n h = rw n refl
needs_host-host_actions s vacuum n h = rw n refl
needs_host-host_actions s clean_packages n h = rw n refl
needs_host-host_actions s renew n h = rw n refl
needs_host-host_actions s pm2 n h = rw n refl
needs_host-host_actions s pm2_apps n h = rw n refl
needs_host-host_actions s rules n h = rw n refl
needs_host-host_actions s (firewall true) n h = rw n refl
needs_host-host_actions s (firewall false) n h = rw n refl
