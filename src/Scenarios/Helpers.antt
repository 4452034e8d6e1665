-- ===== src/Scenarios/Helpers.antt =====
-- Concrete runs of the privilege helper, and a rollback.
use rootmote_agent.Prelude.{
  ℕ, zero, suc, ◌+◌, ◌-◌, ◌<◌, ◌≤◌, ◌^◌, ◌≡◌, ◌≢◌, ◌↔◌, refl, Bool, true, false, not, Option, none,
  some, List, [], ◌∷◌, ◌++◌, length, map, keep, Text, codes, All, inl, inr, arith, text_eq, eqb,
  if◌then◌else◌, ◌||◌,
}
use rootmote_agent.Prelude.Int.{pos}
use rootmote_agent.Firewall.{Backend, Firewall, rule_remove}
use rootmote_agent.Firewall.Lockout.{HandedOver, IsIn, ClosesPort-handed}
use rootmote_agent.Runbook.{Step}
use rootmote_agent.Steps.Params.{Params, int, text, uint64, int_param}
use rootmote_agent.Steps.Catalog.{
  StepId, service_stop, apt_clean, process_stop, firewall_allow, firewall_remove,
}
use rootmote_agent.Steps.Validate.{parse_pid, parse_start_time}
use rootmote_agent.Steps.PrivArgs.{priv_args, decimal}
use rootmote_agent.Steps.PrivArgs.Accepted.{priv_args-parse_pid}
use rootmote_agent.Steps.Helper.{Machine, History, Event, signalled, sigterm, closed, ok, stuck}
use rootmote_agent.Steps.Helper.Safe.{Emitted}
use rootmote_agent.Steps.Helper.Permitted.{Permitted}
use rootmote_agent.Steps.Helper.Processes.{descends}
use rootmote_agent.Steps.Helper.Below.{Any, Below, descends-Below}
use rootmote_agent.Steps.Helper.Actions.{run_priv, edit_rule}
use rootmote_agent.Steps.Helper.Audit.{
  KeepsSsh, SparesProtected, run_priv-KeepsSsh, run_priv-SparesProtected, run_priv-ends,
}
use rootmote_agent.Prelude.Texts.{fields_of}
use rootmote_agent.Steps.Helper.ProcStat.{parse_proc_stat, stat_fields, parse_proc_stat-append}
use rootmote_agent.Playbook.{Inventory, PlaybookStep, check_steps, max_steps}
use rootmote_agent.Playbook.Admitted.{HandsOver, check_steps-HandsOver}
use rootmote_agent.Remediation.Rollback.{invert_steps}
use rootmote_agent.Remediation.Rollback.Undoing.{
  action, has_opposite, AllReverted, invert_steps-invert_steps,
}
use mathlib.Core.List.{reverse}

abbrev ufw : Backend
ufw = record { kind = codes "ufw"; unavailable = none; rules = some [] }

abbrev wall : Firewall
wall = record { backends = ufw ∷ []; sockets = none; socket_error = []; ssh_ports = pos 22 ∷ [] }

abbrev parent_of : ℕ → ℕ
parent_of p = if eqb p 42 then 1 else (if eqb p 30 then 20 else 0)

abbrev is_quiet : History → Bool
is_quiet [] = true
is_quiet (e ∷ h) = false

-- A host with a worker that ends when it is asked to.
abbrev host : Machine
host = record {
  run = λ h name args. ([], false);
  look_path = λ h name. true;
  stat = λ h path. none;
  lstat = λ h path. none;
  file_uid = λ h path. none;
  dir_names = λ h path. none;
  lookup_user = λ h name. none;
  self = 20;
  pids = λ h. 1 ∷ 20 ∷ 30 ∷ 42 ∷ [];
  parent_pid = λ h. parent_of;
  comm = λ h pid. codes "worker";
  start_time = λ h pid. (7, is_quiet h);
  open_process = λ h pid. true;
  signal_fails = λ h pid sig. false;
  cancelled = λ h. false;
  change_dir_fails = false;
  firewall = λ h. some wall;
  edit_fails = λ h rule. false;
  in_host_ns = true;
  host_ns_code = λ h args. 0;
  decode_apps = λ s. none;
}

abbrev stop_42 : List Text
stop_42 = codes "42" ∷ codes "7" ∷ []

stops_42 : run_priv 9 host (codes "process.stop" ∷ stop_42) [] ≡ (ok 0, signalled 42 sigterm ∷ [])
unfolding run_priv rootmote_agent.Steps.Helper.◌>>=◌
stops_42 = refl

abbrev close_80 : List Text
close_80 = codes "80" ∷ codes "tcp" ∷ []

closes_80 :
    run_priv 9 host (codes "firewall.remove" ∷ close_80) []
    ≡ (ok 0, closed (edit_rule 80 (codes "tcp")) ∷ [])
unfolding run_priv rootmote_agent.Steps.Helper.◌>>=◌
closes_80 = refl

keeps_22 : run_priv 9 host (codes "firewall.remove" ∷ codes "22" ∷ codes "tcp" ∷ []) [] ≡ (ok 2, [])
unfolding run_priv rootmote_agent.Steps.Helper.◌>>=◌
keeps_22 = refl

run_priv-KeepsSsh_example :
    Emitted (KeepsSsh host) [] (run_priv 9 host (codes "firewall.remove" ∷ close_80) []).1
run_priv-KeepsSsh_example = run_priv-KeepsSsh 9 host (codes "firewall.remove") close_80 []

run_priv-SparesProtected_example :
    Emitted (SparesProtected host) [] (run_priv 9 host (codes "process.stop" ∷ stop_42) []).1
run_priv-SparesProtected_example = run_priv-SparesProtected 9 host (codes "process.stop") stop_42 []

ClosesPort-handed_example :
    HandedOver wall (edit_rule 80 (codes "tcp")) ufw (edit_rule 80 (codes "tcp"))
    × (¬ IsIn (pos 80) (pos 22 ∷ []))
unfolding rule_remove
ClosesPort-handed_example =
    ClosesPort-handed wall (edit_rule 80 (codes "tcp")) ufw (edit_rule 80 (codes "tcp"))
      (inl (refl, refl))

-- Ranks that grow from a parent to its children.
abbrev rank_of : ℕ → ℕ
rank_of p = if eqb p 0 then 0 else (if eqb p 1 || eqb p 20 then 1 else 2)

descends-Below_example : (true ≡ true) ↔ Any (Below parent_of (1 ∷ 20 ∷ 30 ∷ 42 ∷ []) 30) (20 ∷ [])
unfolding descends
descends-Below_example = descends-Below parent_of (1 ∷ 20 ∷ 30 ∷ 42 ∷ []) 30 9 (20 ∷ []) true refl

abbrev stopping : Params
stopping = (codes "pid", int (pos 42)) ∷ (codes "start_time", uint64 7) ∷ []

priv_args-parse_pid_example :
    (priv_args process_stop stopping ≡ some (decimal 42 ∷ decimal 7 ∷ []))
    × (parse_pid (decimal 42) ≡ some 42)
    × (parse_start_time (decimal 7) ≡ some 7)
unfolding int_param rootmote_agent.Prelude.Maps.lookup rootmote_agent.Steps.PrivArgs.uint_param
priv_args-parse_pid_example =
    priv_args-parse_pid stopping 42 7 refl refl (omega arith) (omega arith) (omega arith)
      (omega arith)

abbrev web_port : Params
web_port = (codes "port", int (pos 80)) ∷ (codes "proto", text (codes "tcp")) ∷ []

abbrev inventory : Inventory
inventory = record {
  units = [];
  containers = [];
  compose_services = [];
  pm2_apps = [];
  supervisor_programs = [];
  certs = [];
  urls = [];
  ports = pos 80 ∷ [];
}

abbrev proposal : List PlaybookStep
proposal =
    record { step = process_stop; params = stopping }
    ∷ record { step = firewall_remove; params = web_port }
    ∷ []

admitted : check_steps none inventory false proposal ≡ true
unfolding check_steps rootmote_agent.Prelude.Maps.lookup
admitted = refl

unknown_port : check_steps none (record inventory { ports = [] }) false proposal ≡ false
unfolding check_steps rootmote_agent.Prelude.Maps.lookup
unknown_port = refl

check_steps-HandsOver_example :
    (length proposal ≤ max_steps) × All (λ s. HandsOver s.step s.params) proposal
check_steps-HandsOver_example = check_steps-HandsOver none inventory false proposal admitted

abbrev step_of : StepId → Params → Step
step_of id params = record {
  kind = id;
  params = params;
  description = codes "as approved";
  command = [];
  verify = [];
  undoable = false;
}

abbrev ran_steps : List Step
ran_steps =
    step_of service_stop ((codes "unit", text (codes "web")) ∷ [])
    ∷ step_of apt_clean []
    ∷ step_of firewall_allow web_port
    ∷ []

invert_steps-invert_steps_example :
    AllReverted (reverse (keep (λ s. has_opposite s.kind) ran_steps)) (invert_steps ran_steps).0
    × ((invert_steps ran_steps).1 ≡ keep (λ s. not (has_opposite s.kind)) ran_steps)
    × (map action (invert_steps (invert_steps ran_steps).0).0
        ≡ map action (keep (λ s. has_opposite s.kind) ran_steps))
    × ((invert_steps (invert_steps ran_steps).0).1 ≡ [])
invert_steps-invert_steps_example = invert_steps-invert_steps ran_steps

run_priv-ends_example :
    (n : ℕ) × ((rounds : ℕ)
      → n ≤ rounds
      → (run_priv rounds host (codes "process.stop" ∷ stop_42) []).0 ≢ stuck)
run_priv-ends_example = run_priv-ends host (codes "process.stop") stop_42 [] rank_of 2 (
  (omega arith, omega arith),
  ((omega arith, omega arith), ((omega arith, omega arith), ((omega arith, omega arith), tt))),
)

abbrev stat_tail : Text
stat_tail = codes " S 20 1 1 0 -1 4 1 0 0 0 1 1 0 0 20 0 1 0 777 9"

abbrev odd_name : Text
odd_name = codes "a) Z 1 (b"

reads_line :
    parse_proc_stat (codes "42 (a) Z 1 (b) S 20 1 1 0 -1 4 1 0 0 0 1 1 0 0 20 0 1 0 777 9")
    ≡ some (record { comm = odd_name; state = codes "S"; ppid = pos 20; start = 777 })
unfolding parse_proc_stat
reads_line = refl

parse_proc_stat-append_example :
    parse_proc_stat (codes "42 " ++ (b'(' ∷ (odd_name ++ (b')' ∷ stat_tail))))
    ≡ stat_fields odd_name (fields_of stat_tail)
parse_proc_stat-append_example = parse_proc_stat-append (codes "42 ") odd_name stat_tail refl refl
