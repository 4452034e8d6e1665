-- ===== src/Steps/Helper/Services.antt =====
-- The actions of internal/steps/helper.go on services, nginx and disks.
use rootmote_agent.Prelude.{
  Bool, ◌&&◌, not, Option, none, some, List, [], ◌∷◌, ◌++◌, Text, codes, text_beq, if◌then◌else◌,
}
use rootmote_agent.Prelude.Texts.{trim_space, split_by, cut_at, ends_with}
use rootmote_agent.Steps.Validate.{check_unit_allowed, valid_php_unit, valid_journal_size}
use rootmote_agent.Steps.Helper.{
  Machine, Job, pure, refuse, ask, ◌>>=◌, ◌>>◌, refuse_unless, fail_if, want_args, call,
  run_command,
}

-- What systemd is asked to do with a unit.
pub data Verb : Type 0 where
  restart start stop reload : Verb

abbrev pub verb_name : Verb → Text
verb_name restart = codes "restart"
verb_name start = codes "start"
verb_name stop = codes "stop"
verb_name reload = codes "reload"

-- The canonical id and the load state of a unit.
pub record UnitFacts : Type 0 where
  pub id : Text
  pub load : Text

abbrev note_fact : Option (Text × Text) → UnitFacts → UnitFacts
note_fact none facts = facts
note_fact (some (k, v)) facts =
    if text_beq k (codes "Id")
    then record facts { id = v }
    else (if text_beq k (codes "LoadState") then record facts { load = v } else facts)

unfoldable pub read_facts : UnitFacts → List Text → UnitFacts
unfolding trim_space cut_at
read_facts facts [] = facts
read_facts facts (line ∷ lines) = read_facts (note_fact (cut_at b'=' (trim_space line)) facts) lines

unfoldable pub facts_of : Text → UnitFacts
unfolding read_facts split_by
facts_of out = read_facts (record { id = []; load = [] }) (split_by 10 out)

abbrev pub show_args : Text → List Text
show_args unit = codes "show" ∷ codes "--property=Id,LoadState" ∷ unit ∷ []

abbrev pub is_loaded : UnitFacts → Bool
is_loaded facts = text_beq facts.load (codes "loaded")

module _ (m : Machine) where
  unfoldable pub unit_facts : Text → Job UnitFacts
  unfolding call facts_of
  unit_facts unit = do
    (out, bad) ← call m (codes "systemctl") (show_args unit)
    refuse_unless (not bad)
    pure (facts_of out)

  unfoldable pub check_unit : Text → Job Unit
  unfolding unit_facts check_unit_allowed
  check_unit unit = do
    refuse_unless (check_unit_allowed unit)
    facts ← unit_facts unit
    refuse_unless (is_loaded facts)
    refuse_unless (ends_with facts.id (codes ".service"))
    refuse_unless (check_unit_allowed facts.id)

  -- `serviceAction(verb)`, with its one argument.
  abbrev pub change_unit : Verb → List Text → Job Unit
  change_unit verb (unit ∷ []) = do
    check_unit unit
    run_command m (codes "systemctl") (verb_name verb ∷ unit ∷ [])
    pure tt
  change_unit verb _ = refuse

  unfoldable pub service_action : Verb → List Text → Job Unit
  unfolding check_unit run_command
  service_action verb args = change_unit verb args

  abbrev pub restart_php : List Text → Job Unit
  restart_php (unit ∷ []) = do
    refuse_unless (valid_php_unit unit)
    service_action restart (unit ∷ [])
  restart_php _ = refuse

  unfoldable pub phpfpm_restart : List Text → Job Unit
  unfolding service_action valid_php_unit
  phpfpm_restart args = restart_php args

  unfoldable pub nginx_test : List Text → Job Unit
  unfolding call
  nginx_test args = do
    want_args args 0
    found ← ask (λ h. m.look_path h (codes "nginx"))
    refuse_unless found
    (out, bad) ← call m (codes "nginx") (codes "-t" ∷ [])
    fail_if bad

  -- `nginx -t` first; a reload only if it passes.
  unfoldable pub reload_nginx : Job Unit
  unfolding unit_facts call run_command
  reload_nginx = do
    found ← ask (λ h. m.look_path h (codes "nginx"))
    refuse_unless found
    facts ← unit_facts (codes "nginx.service")
    refuse_unless (is_loaded facts && not (text_beq facts.id []))
    (out, bad) ← call m (codes "nginx") (codes "-t" ∷ [])
    fail_if bad
    run_command m (codes "systemctl") (codes "reload" ∷ codes "nginx" ∷ [])
    pure tt

  unfoldable pub nginx_reload : List Text → Job Unit
  unfolding reload_nginx
  nginx_reload args = do want_args args 0; reload_nginx

module _ (m : Machine) where
  abbrev pub vacuum : List Text → Job Unit
  vacuum (size ∷ []) = do
    refuse_unless (valid_journal_size size)
    run_command m (codes "journalctl") ((codes "--vacuum-size=" ++ size) ∷ [])
    pure tt
  vacuum _ = refuse

  unfoldable pub journal_vacuum : List Text → Job Unit
  unfolding run_command valid_journal_size
  journal_vacuum args = vacuum args

  unfoldable pub apt_clean : List Text → Job Unit
  unfolding run_command
  apt_clean args = do
    want_args args 0
    found ← ask (λ h. m.look_path h (codes "apt-get"))
    refuse_unless found
    run_command m (codes "apt-get") (codes "clean" ∷ [])
    pure tt
