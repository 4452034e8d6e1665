-- ===== src/Steps/Helper/Permitted.antt =====
-- What the privilege helper (internal/steps/helper.go) may do, given what it was asked and what
-- the host answers at that moment.
pub mod Units
pub mod Programs
pub mod Stopping
pub mod Firewalls
use rootmote_agent.Prelude.{
  ℕ, ◌/◌, ◌%◌, ◌≡◌, ◌≢◌, ◌⊎◌, Bool, true, false, not, ◌&&◌, Option, none, some, List, [], ◌∷◌, ◌++◌,
  Text, codes,
}
use rootmote_agent.Prelude.Texts.{ends_with, is_any_of}
use rootmote_agent.Firewall.{Rule, Backend, Firewall, handed}
use rootmote_agent.Steps.Validate.{
  check_unit_allowed, valid_php_unit, valid_name, valid_user, valid_journal_size, valid_cert_name,
  parse_pid, parse_start_time, number_of, valid_proto,
}
use rootmote_agent.Steps.PrivArgs.{decimal}
use rootmote_agent.Steps.Helper.{
  Machine, History, Event, ran, signalled, slept, allowed, closed, reentered, sigterm, sigkill,
  UserInfo, FileInfo,
}
use rootmote_agent.Steps.Helper.Safe.{Happened}
use rootmote_agent.Steps.Helper.Services.{show_args, facts_of, is_loaded}
use rootmote_agent.Steps.Helper.Accounts.{dir_of}
use rootmote_agent.Steps.Helper.Processes.{protected_pid, is_same}
use rootmote_agent.Steps.Helper.Actions.{port_of, decide, edit_rule}

-- The latest event asked about the unit, and the answer was that it is loaded, and is a service
-- that may be controlled.
pub record IsShown (m : Machine) (unit : Text) (h : History) : Type 0 where
  pub before : History
  pub shown : h ≡ ran (codes "systemctl") (show_args unit) ∷ before
  pub loaded : is_loaded (facts_of (m.run before (codes "systemctl") (show_args unit)).0) ≡ true
  pub service :
      ends_with
        (facts_of (m.run before (codes "systemctl") (show_args unit)).0).id
        (codes ".service")
      ≡ true
  pub controlled :
      check_unit_allowed (facts_of (m.run before (codes "systemctl") (show_args unit)).0).id ≡ true

-- The process was asked for, with its start time, and is still the one that started then.
pub record IsAsked (m : Machine) (args : List Text) (h : History) (pid : ℕ) : Type 0 where
  pub pid_text : Text
  pub start_text : Text
  pub asked : args ≡ pid_text ∷ start_text ∷ []
  pub start : ℕ
  pub is_pid : parse_pid pid_text ≡ some pid
  pub is_start : parse_start_time start_text ≡ some start
  pub same : is_same start (m.start_time h pid) ≡ true

-- The rule was asked for, and the guard of the firewall lets the edit pass.
pub record IsDecided (m : Machine) (args : List Text) (h : History) (opens : Bool) (rule : Rule)
    : Type 0 where
  pub port_text : Text
  pub proto : Text
  pub asked : args ≡ port_text ∷ proto ∷ []
  pub port : ℕ
  pub is_port : port_of (number_of port_text) ≡ some port
  pub is_proto : valid_proto proto ≡ true
  pub fw : Firewall
  pub backend : Backend
  pub found : m.firewall h ≡ some fw
  pub passes : decide opens fw (edit_rule port proto) ≡ handed backend rule

-- A file that root owns and nobody else may write: bits 4 and 1 of its mode are off.
pub record IsRootOnly (m : Machine) (h : History) (path : Text) : Type 0 where
  pub info : FileInfo
  pub found : m.stat h path ≡ some info
  pub regular : info.is_regular ≡ true
  pub owned : m.file_uid h path ≡ some 0
  pub group_reads : info.mode / 16 % 2 ≢ 1
  pub others_read : info.mode / 2 % 2 ≢ 1

-- The user that was asked for, who was found and is not root.
pub record IsUser (m : Machine) (args : List Text) (user : UserInfo) : Type 0 where
  pub user_name : Text
  pub more : List Text
  pub asked : args ≡ user_name ∷ more
  pub valid : valid_user user_name ≡ true
  pub at : History
  pub found : m.lookup_user at user_name ≡ some user
  pub not_root : user.uid ≢ 0

-- What is asked of systemd, for a unit, by the action of that name.
pub data Controls (action unit : Text) : Text → Type 0 where
  restarts : action ≡ codes "service.restart" → Controls action unit (codes "restart")
  starts : action ≡ codes "service.start" → Controls action unit (codes "start")
  stops : action ≡ codes "service.stop" → Controls action unit (codes "stop")
  reloads : action ≡ codes "service.reload" → Controls action unit (codes "reload")
  restarts_php :
      action ≡ codes "phpfpm.restart"
      → valid_php_unit unit ≡ true
      → Controls action unit (codes "restart")

-- nginx may be reloaded on demand, and by a renewal that is not only a trial.
abbrev pub MayReload : Text → List Text → Type 0
MayReload action args =
    (action ≡ codes "nginx.reload")
    ⊎ ((action ≡ codes "cert.renew") × ((cert : Text) × (args ≡ cert ∷ [])))

-- The actions that the helper may hand on to the host's mount namespace.
abbrev pub host_actions : List Text
host_actions =
    codes "nginx.reload"
    ∷ codes "nginx-test"
    ∷ codes "disk.journal_vacuum"
    ∷ codes "disk.apt_clean"
    ∷ codes "cert.renew"
    ∷ codes "pm2.restart"
    ∷ codes "pm2-list"
    ∷ codes "firewall.allow"
    ∷ codes "firewall.remove"
    ∷ codes "firewall-rules"
    ∷ []

-- A program run with the ids of the user and none of root's environment.
abbrev pub as_user : UserInfo → Text → List Text → List Text
as_user user pm2 given =
    (codes "--reuid=" ++ decimal user.uid)
    ∷ (codes "--regid=" ++ decimal user.gid)
    ∷ codes "--init-groups"
    ∷ codes "--"
    ∷ codes "/usr/bin/env"
    ∷ (codes "HOME=" ++ user.home)
    ∷ (codes "USER=" ++ user.name)
    ∷ (codes "LOGNAME=" ++ user.name)
    ∷ (codes "PATH=" ++ (dir_of pm2 ++ codes ":/usr/local/bin:/usr/bin:/bin"))
    ∷ pm2
    ∷ given

-- The action and its arguments permit the event, after this history.
pub data Permitted (m : Machine) (rounds : ℕ) (action : Text) (args : List Text) (h : History)
    : Event → Type 0 where
  asking :
      (unit verb : Text)
      → args ≡ unit ∷ []
      → Controls action unit verb
      → check_unit_allowed unit ≡ true
      → Permitted m rounds action args h (ran (codes "systemctl") (show_args unit))
  asking_nginx :
      MayReload action args
      → Permitted m rounds action args h
          (ran (codes "systemctl") (show_args (codes "nginx.service")))
  changing :
      (unit verb : Text)
      → args ≡ unit ∷ []
      → Controls action unit verb
      → check_unit_allowed unit ≡ true
      → IsShown m unit h
      → Permitted m rounds action args h (ran (codes "systemctl") (verb ∷ unit ∷ []))
  testing :
      (action ≡ codes "nginx-test") ⊎ MayReload action args
      → Permitted m rounds action args h (ran (codes "nginx") (codes "-t" ∷ []))
  -- Only right after a test that passed.
  reloading :
      (k : History)
      → MayReload action args
      → h ≡ ran (codes "nginx") (codes "-t" ∷ []) ∷ k
      → (m.run k (codes "nginx") (codes "-t" ∷ [])).1 ≡ false
      → Permitted m rounds action args h
          (ran (codes "systemctl") (codes "reload" ∷ codes "nginx" ∷ []))
  listing :
      (conf : Text)
      → (action ≡ codes "supervisor-status") ⊎ (action ≡ codes "supervisor.restart")
      → IsRootOnly m h conf
      → Permitted m rounds action args h
          (ran (codes "supervisorctl") (codes "-c" ∷ conf ∷ codes "status" ∷ []))
  restarting :
      (conf program : Text)
      → action ≡ codes "supervisor.restart"
      → args ≡ program ∷ []
      → valid_name program ≡ true
      → IsRootOnly m h conf
      → Permitted m rounds action args h
          (ran (codes "supervisorctl") (codes "-c" ∷ conf ∷ codes "restart" ∷ program ∷ []))
  vacuuming :
      (size : Text)
      → action ≡ codes "disk.journal_vacuum"
      → args ≡ size ∷ []
      → valid_journal_size size ≡ true
      → Permitted m rounds action args h
          (ran (codes "journalctl") ((codes "--vacuum-size=" ++ size) ∷ []))
  cleaning :
      action ≡ codes "disk.apt_clean"
      → Permitted m rounds action args h (ran (codes "apt-get") (codes "clean" ∷ []))
  renewing :
      (cert : Text)
      → action ≡ codes "cert.renew"
      → args ≡ cert ∷ []
      → valid_cert_name cert ≡ true
      → Permitted m rounds action args h
          (ran (codes "certbot") (codes "renew" ∷ codes "--cert-name" ∷ cert ∷ []))
  rehearsing :
      (cert : Text)
      → action ≡ codes "cert.renew"
      → args ≡ cert ∷ codes "--dry-run" ∷ []
      → valid_cert_name cert ≡ true
      → Permitted m rounds action args h (
          ran
            (codes "certbot")
            (codes "renew" ∷ codes "--cert-name" ∷ cert ∷ codes "--dry-run" ∷ []))
  -- As a user who is not root: the list of the applications, or the restart of one.
  listing_apps :
      (user : UserInfo) (pm2 : Text)
      → (action ≡ codes "pm2-list") ⊎ (action ≡ codes "pm2.restart")
      → IsUser m args user
      → Permitted m rounds action args h
          (ran (codes "setpriv") (as_user user pm2 (codes "jlist" ∷ [])))
  restarting_app :
      (user : UserInfo) (pm2 name app : Text)
      → action ≡ codes "pm2.restart"
      → args ≡ name ∷ app ∷ []
      → IsUser m args user
      → valid_name app ≡ true
      → Permitted m rounds action args h
          (ran (codes "setpriv") (as_user user pm2 (codes "restart" ∷ app ∷ [])))
  stopping :
      (pid : ℕ)
      → action ≡ codes "process.stop"
      → IsAsked m args h pid
      → protected_pid rounds m h pid ≡ some false
      → Permitted m rounds action args h (signalled pid sigterm)
  killing :
      (pid : ℕ)
      → action ≡ codes "process.stop"
      → IsAsked m args h pid
      → Happened (signalled pid sigterm) h
      → Permitted m rounds action args h (signalled pid sigkill)
  pausing : (n : ℕ) → action ≡ codes "process.stop" → Permitted m rounds action args h (slept n)
  opening :
      (rule : Rule)
      → action ≡ codes "firewall.allow"
      → IsDecided m args h true rule
      → Permitted m rounds action args h (allowed rule)
  closing :
      (rule : Rule)
      → action ≡ codes "firewall.remove"
      → IsDecided m args h false rule
      → Permitted m rounds action args h (closed rule)
  again :
      is_any_of host_actions action ≡ true
      → m.in_host_ns ≡ false
      → Permitted m rounds action args h (reentered (action ∷ args))
