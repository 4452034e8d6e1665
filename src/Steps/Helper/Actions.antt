-- ===== src/Steps/Helper/Actions.antt =====
-- The actions of internal/steps/helper.go by name, the firewall's among them, and `RunPriv`.
use rootmote_agent.Prelude.{
  ℕ, ◌^◌, Bool, true, false, ◌&&◌, not, Option, none, some, List, [], ◌∷◌, Text, codes, text_beq,
  ltb, if◌then◌else◌,
}
use rootmote_agent.Prelude.Int.{pos}
use rootmote_agent.Firewall.{
  Rule, allow, Protocol, tcp, udp, Firewall, FirewallStatus, EditError, anti_lockout, read_only,
  unsupported_action, Decision, handed, rule_add, rule_remove, status,
}
use rootmote_agent.Firewall
use rootmote_agent.Steps.Params.{digits}
use rootmote_agent.Steps.Validate.{number_of, valid_port, valid_proto}
use rootmote_agent.Steps.Helper.{
  Machine, History, Reply, ok, refused, failed, stuck, Event, allowed, closed, reentered, Job, pure,
  refuse, fail, ask, emit, ◌>>=◌, ◌>>◌, refuse_unless, fail_if, or_refuse, or_fail, want_args,
}
use rootmote_agent.Steps.Helper.Services.{
  Verb, restart, start, stop, reload, service_action, phpfpm_restart, nginx_test, nginx_reload,
  journal_vacuum, apt_clean,
}
use rootmote_agent.Steps.Helper.Supervisor.{supervisor_status, supervisor_restart}
use rootmote_agent.Steps.Helper.Accounts.{pm2_list_action, pm2_restart, cert_renew}
use rootmote_agent.Steps.Helper.Processes.{process_stop}

-- `strconv.ParseInt(s, 10, 32)` of one to twenty digits.
abbrev pub port_of : Option ℕ → Option ℕ
port_of none = none
port_of (some n) = if ltb n (2 ^ 31) then some n else none

abbrev protocol_of : Text → Protocol
protocol_of s = if text_beq s (codes "tcp") then tcp else udp

abbrev pub edit_rule : ℕ → Text → Rule
edit_rule port proto = record {
  action = allow;
  protocol = protocol_of proto;
  port = pos port;
  source = [];
  comment = [];
}

abbrev pub edit_event : Bool → Rule → Event
edit_event true rule = allowed rule
edit_event false rule = closed rule

-- `mapFirewallErr`
abbrev pub edit_error : EditError → Job Unit
edit_error (anti_lockout ports) = refuse
edit_error (read_only reason) = refuse
edit_error unsupported_action = refuse
edit_error _ = fail

abbrev pub decide : Bool → Firewall → Rule → Decision
decide true fw rule = rule_add fw rule
decide false fw rule = rule_remove fw rule

module _ (m : Machine) where
  abbrev pub carry_out : Bool → Decision → Job Unit
  carry_out opens (Firewall.refused e) = edit_error e
  carry_out opens (handed b rule) = do
    bad ← ask (λ h. m.edit_fails h rule)
    emit (edit_event opens rule)
    fail_if bad

  abbrev change_with : Bool → List Text → Job Unit
  change_with opens (a ∷ proto ∷ []) = do
    port ← or_refuse (port_of (number_of a))
    refuse_unless (valid_port (pos port))
    refuse_unless (valid_proto proto)
    found ← ask m.firewall
    fw ← or_refuse found
    carry_out opens (decide opens fw (edit_rule port proto))
  change_with opens _ = refuse

  unfoldable pub firewall_change : Bool → List Text → Job Unit
  unfolding digits valid_port valid_proto rule_add rule_remove
  firewall_change opens args = change_with opens args

  unfoldable pub firewall_rules : List Text → Job Unit
  unfolding status
  firewall_rules args = do
    want_args args 0
    found ← ask m.firewall
    fw ← or_refuse found
    st ← or_fail (status fw)
    refuse_unless st.available

-- The names of the actions.
pub data Action : Type 0 where
  service : Verb → Action
  php nginx_check nginx program_restart program_status vacuum clean_packages renew : Action
  reading pm2 pm2_apps kill rules : Action
  firewall : Bool → Action

abbrev pub orelse : Option Action → Option Action → Option Action
orelse (some a) o = some a
orelse none o = o

abbrev pub named : Text → Text → Action → Option Action
named name given action = if text_beq given name then some action else none

-- `privActions`. Two actions, `certs-list` and `web-errors`, only read and print.
unfoldable pub action_of : Text → Option Action
action_of s = orelse (named (codes "service.restart") s (service restart)) (
    orelse (named (codes "service.start") s (service start)) (
      orelse (named (codes "service.stop") s (service stop)) (
        orelse (named (codes "service.reload") s (service reload)) (
          orelse (named (codes "phpfpm.restart") s php) (
            orelse (named (codes "nginx.reload") s nginx) (
              orelse (named (codes "nginx-test") s nginx_check) (
                orelse (named (codes "supervisor.restart") s program_restart) (
                  orelse (named (codes "supervisor-status") s program_status) (
                    orelse (named (codes "disk.journal_vacuum") s vacuum) (
                      orelse (named (codes "disk.apt_clean") s clean_packages) (
                        orelse (named (codes "cert.renew") s renew) (
                          orelse (named (codes "certs-list") s reading) (
                            orelse (named (codes "web-errors") s reading) (
                              orelse (named (codes "pm2.restart") s pm2) (
                                orelse (named (codes "pm2-list") s pm2_apps) (
                                  orelse (named (codes "process.stop") s kill) (
                                    orelse (named (codes "firewall.allow") s (firewall true)) (
                                      orelse (named (codes "firewall.remove") s (firewall false))
                                        (named (codes "firewall-rules") s rules)))))))))))))))))))

-- The actions that need the host's mount namespace.
abbrev pub needs_host : Action → Bool
needs_host (service verb) = false
needs_host php = false
needs_host nginx_check = true
needs_host nginx = true
needs_host program_restart = false
needs_host program_status = false
needs_host vacuum = true
needs_host clean_packages = true
needs_host renew = true
needs_host reading = false
needs_host pm2 = true
needs_host pm2_apps = true
needs_host kill = false
needs_host rules = true
needs_host (firewall opens) = true

abbrev pub perform : ℕ → Machine → Action → List Text → Job Unit
perform rounds m (service verb) args = service_action m verb args
perform rounds m php args = phpfpm_restart m args
perform rounds m nginx_check args = nginx_test m args
perform rounds m nginx args = nginx_reload m args
perform rounds m program_restart args = supervisor_restart m args
perform rounds m program_status args = supervisor_status m args
perform rounds m vacuum args = journal_vacuum m args
perform rounds m clean_packages args = apt_clean m args
perform rounds m renew args = cert_renew m args
perform rounds m reading args = want_args args 0
perform rounds m pm2 args = pm2_restart m args
perform rounds m pm2_apps args = pm2_list_action m args
perform rounds m kill args = process_stop m rounds args
perform rounds m rules args = firewall_rules m args
perform rounds m (firewall opens) args = firewall_change m opens args

-- In the host's namespace the helper runs again; the code is that of the second run.
abbrev pub run_again : Machine → Text → List Text → Job ℕ
run_again m name args = do
  code ← ask (λ h. m.host_ns_code h (name ∷ args))
  emit (reentered (name ∷ args))
  pure code

-- The exit code: 0 done, 1 failed, 2 refused.
abbrev pub exit_code : Reply Unit × History → Reply ℕ × History
exit_code (ok t, h) = (ok 0, h)
exit_code (refused, h) = (ok 2, h)
exit_code (failed, h) = (ok 1, h)
exit_code (stuck, h) = (stuck, h)

abbrev pub run_action : ℕ → Machine → Text → List Text → Option Action → Job ℕ
run_action rounds m name args none = pure 2
run_action rounds m name args (some action) =
    if needs_host action && not m.in_host_ns
    then run_again m name args
    else (λ h. exit_code (perform rounds m action args h))

abbrev pub run_named : ℕ → Machine → List Text → Job ℕ
run_named rounds m [] = pure 2
run_named rounds m (name ∷ args) = run_action rounds m name args (action_of name)

-- `rounds` bounds the search below the agent in `process.stop`.
unfoldable pub run_priv : ℕ → Machine → List Text → Job ℕ
unfolding action_of service_action phpfpm_restart nginx_test nginx_reload supervisor_restart
    supervisor_status journal_vacuum apt_clean cert_renew pm2_restart pm2_list_action process_stop
    firewall_rules firewall_change
run_priv rounds m args = if m.change_dir_fails then pure 1 else run_named rounds m args
