-- ===== src/Steps/Catalog.antt =====
-- internal/steps/catalog.go and the `Undo` methods of step.go: which steps exist, and what undoes
-- them.
use rootmote_agent.Prelude.{Bool, true, false, Option, none, some, Text}
use rootmote_agent.Steps.Params.{Params}

-- The ids of the catalog; `unlisted` is any other text.
pub data StepId : Type 0 where
  service_restart service_start service_stop service_reload container_restart compose_up : StepId
  pm2_restart nginx_reload phpfpm_restart supervisor_restart journal_vacuum docker_prune : StepId
  apt_clean cert_renew process_stop firewall_allow firewall_remove check_http : StepId
  unlisted : Text → StepId

-- `Lookup` finds every id of the catalog.
unfoldable pub is_listed : StepId → Bool
is_listed (unlisted t) = false
is_listed service_restart = true
is_listed _ = true

-- The `Undo` method of the step: the original arguments under another id.
unfoldable pub undo : StepId → Params → Option (StepId × Params)
undo service_start p = some (service_stop, p)
undo service_stop p = some (service_start, p)
undo firewall_allow p = some (firewall_remove, p)
undo firewall_remove p = some (firewall_allow, p)
undo _ p = none

unfoldable pub undo_of : StepId → Params → Option (StepId × Params)
unfolding is_listed undo
undo_of id params = elim (is_listed id) [ true ↦ undo id params | false ↦ none ]
