-- ===== src/Steps/Runner.antt =====
-- `Command` of internal/steps/runner.go and the `Verify` texts of step.go: what a step shows.
use rootmote_agent.Prelude.{Option, none, some, List, [], ◌∷◌, ◌++◌, Text, codes}
use rootmote_agent.Prelude.Int.{ℤ, pos}
use rootmote_agent.Steps.Catalog.{
  StepId, service_restart, service_start, service_stop, service_reload, container_restart,
  compose_up, pm2_restart, nginx_reload, phpfpm_restart, supervisor_restart, journal_vacuum,
  docker_prune, apt_clean, cert_renew, process_stop, firewall_allow, firewall_remove, check_http,
  unlisted,
}
use rootmote_agent.Steps.Params.{Params, string_param, int_param}
use rootmote_agent.Steps.PrivArgs.{format_int}

-- The first result of `Params.Int`.
abbrev or_zero : Option ℤ → ℤ
or_zero none = pos 0
or_zero (some v) = v

abbrev words : List Text → Text
words [] = []
words (w ∷ []) = w
words (w ∷ ws) = w ++ (codes " " ++ words ws)

unfoldable pub command : StepId → Params → Text
unfolding string_param int_param format_int
command service_restart p = words (codes "systemctl restart" ∷ string_param p (codes "unit") ∷ [])
command service_start p = words (codes "systemctl start" ∷ string_param p (codes "unit") ∷ [])
command service_stop p = words (codes "systemctl stop" ∷ string_param p (codes "unit") ∷ [])
command service_reload p = words (codes "systemctl reload" ∷ string_param p (codes "unit") ∷ [])
command container_restart p = codes "docker restart " ++ string_param p (codes "container")
command compose_up p = words (
    codes "docker compose -p"
    ∷ string_param p (codes "project")
    ∷ codes "start"
    ∷ string_param p (codes "service")
    ∷ [])
command pm2_restart p = words (
    codes "sudo -u"
    ∷ string_param p (codes "user")
    ∷ codes "pm2 restart"
    ∷ string_param p (codes "app")
    ∷ [])
command nginx_reload p = codes "nginx -t && systemctl reload nginx"
command phpfpm_restart p = codes "systemctl restart " ++ string_param p (codes "unit")
command supervisor_restart p = codes "supervisorctl restart " ++ string_param p (codes "program")
command journal_vacuum p = codes "journalctl --vacuum-size=" ++ string_param p (codes "size")
command docker_prune p = codes "docker image prune && docker builder prune"
command apt_clean p = codes "apt-get clean"
command cert_renew p = codes "certbot renew --cert-name " ++ string_param p (codes "name")
command process_stop p = codes "kill -TERM " ++ format_int (or_zero (int_param p (codes "pid")))
command firewall_allow p =
    codes "ufw allow "
    ++ (format_int (or_zero (int_param p (codes "port")))
        ++ (codes "/" ++ string_param p (codes "proto")))
command firewall_remove p =
    codes "ufw delete allow "
    ++ (format_int (or_zero (int_param p (codes "port")))
        ++ (codes "/" ++ string_param p (codes "proto")))
command check_http p = codes "curl " ++ string_param p (codes "url")
command (unlisted t) p = t

-- The catalog's text for how a step is verified.
unfoldable pub verify_text : StepId → Text
verify_text service_restart = codes "The service is active and has not restarted for 30 seconds."
verify_text service_start = codes "The service is active."
verify_text service_stop = codes "The service is no longer running."
verify_text service_reload = codes "The service is active."
verify_text container_restart =
    codes "The container is running and has not restarted for 60 seconds."
verify_text compose_up = codes "The service's containers are running and healthy."
verify_text pm2_restart = codes "The app is online and has not restarted for 60 seconds."
verify_text nginx_reload = codes "nginx is active and its settings test passes."
verify_text phpfpm_restart = codes "The service is active."
verify_text supervisor_restart = codes "The program shows RUNNING for 30 seconds."
verify_text journal_vacuum = codes "Disk usage is below 85 percent."
verify_text docker_prune = codes "Disk usage is below 85 percent."
verify_text apt_clean = codes "Disk usage is below 85 percent."
verify_text cert_renew = codes "The new expiry date is more than 30 days away."
verify_text process_stop = codes "The process is gone."
verify_text firewall_allow = codes "The firewall rule is present."
verify_text firewall_remove = codes "The firewall rule is gone."
verify_text check_http = codes "The address answers with a success or redirect status."
verify_text (unlisted t) = []
