-- ===== src/Steps/Helper/Accounts.antt =====
-- The actions of internal/steps/helper.go that act for a user or a name below a folder: PM2 and
-- certificates.
use rootmote_agent.Prelude.{
  ℕ, Bool, true, false, ◌&&◌, ◌||◌, not, Option, none, some, List, [], ◌∷◌, ◌++◌, map, Text, codes,
  text_beq, eqb, if◌then◌else◌, exists,
}
use mathlib.Core.List.{reverse}
use rootmote_agent.Prelude.Sort.{sort_texts}
use rootmote_agent.Prelude.Texts.{split_by, starts_with, ends_with}
use rootmote_agent.Steps.Validate.{valid_user, valid_name, valid_cert_name}
use rootmote_agent.Steps.PrivArgs.{decimal}
use rootmote_agent.Steps.Helper.{
  Machine, FileInfo, UserInfo, Pm2App, Job, pure, refuse, ask, attempt, ◌>>=◌, ◌>>◌, refuse_unless,
  fail_if, or_refuse, or_fail, call,
}
use rootmote_agent.Steps.Helper.Services.{reload_nginx, unit_facts, UnitFacts, is_loaded}

abbrev parent_of : List Text → List Text
parent_of [] = []
parent_of (p ∷ ps) = ps

-- The parts of a clean absolute path, the last one first; `done` is what stands before.
unfoldable pub clean_parts : List Text → List Text → List Text
clean_parts done [] = done
clean_parts done (p ∷ ps) =
    clean_parts
      (if text_beq p [] || text_beq p (codes ".")
        then done
        else (if text_beq p (codes "..") then parent_of done else p ∷ done))
      ps

abbrev slashed : List Text → Text
slashed [] = []
slashed (p ∷ ps) = b'/' ∷ (p ++ slashed ps)

abbrev or_root : Text → Text
or_root [] = codes "/"
or_root (c ∷ s) = c ∷ s

-- `path.Clean` of an absolute path.
unfoldable pub clean : Text → Text
unfolding clean_parts split_by
clean path = or_root (slashed (reverse (clean_parts [] (split_by b'/' path))))

-- `path.Join` of an absolute path and a relative one.
unfoldable pub join_path : Text → Text → Text
unfolding clean
join_path root rest = clean (root ++ (b'/' ∷ rest))

-- `path.Dir` of a clean absolute path.
unfoldable pub dir_of : Text → Text
unfolding clean_parts split_by
dir_of path = or_root (slashed (reverse (parent_of (clean_parts [] (split_by b'/' path)))))

abbrev is_folder : Option FileInfo → Bool
is_folder none = false
is_folder (some fi) = fi.is_dir

abbrev is_present : Option FileInfo → Bool
is_present none = false
is_present (some fi) = true

abbrev pub is_program_file : Option FileInfo → Bool
is_program_file none = false
is_program_file (some fi) = not fi.is_dir

abbrev owned_by : ℕ → Option ℕ → Bool
owned_by uid none = false
owned_by uid (some owner) = eqb owner uid

-- A login user who is not root, with an absolute home.
abbrev pub may_run_pm2 : UserInfo → Bool
may_run_pm2 u =
    not (eqb u.uid 0)
    && starts_with u.home (codes "/")
    && not (ends_with u.shell (codes "nologin") || ends_with u.shell (codes "false"))

abbrev pub fixed_candidates : UserInfo → List Text
fixed_candidates u =
    codes "/usr/local/bin/pm2"
    ∷ codes "/usr/bin/pm2"
    ∷ join_path u.home (codes ".local/bin/pm2")
    ∷ join_path u.home (codes ".npm-global/bin/pm2")
    ∷ join_path u.home (codes ".volta/bin/pm2")
    ∷ join_path u.home (codes ".yarn/bin/pm2")
    ∷ []

abbrev pub node_candidates : UserInfo → Option (List Text) → List Text
node_candidates u none = []
node_candidates u (some names) =
    map (λ n. join_path u.home (codes ".nvm/versions/node/" ++ (n ++ codes "/bin/pm2")))
      (reverse (sort_texts names))

unfoldable pub pm2_argv : UserInfo → Text → List Text → List Text
unfolding decimal dir_of
pm2_argv u pm2 args =
    (codes "--reuid=" ++ decimal u.uid)
    ∷ (codes "--regid=" ++ decimal u.gid)
    ∷ codes "--init-groups"
    ∷ codes "--"
    ∷ codes "/usr/bin/env"
    ∷ (codes "HOME=" ++ u.home)
    ∷ (codes "USER=" ++ u.name)
    ∷ (codes "LOGNAME=" ++ u.name)
    ∷ (codes "PATH=" ++ (dir_of pm2 ++ codes ":/usr/local/bin:/usr/bin:/bin"))
    ∷ pm2
    ∷ args

abbrev or_else_apps : Option (List Pm2App) → Option (List Pm2App) → Option (List Pm2App)
or_else_apps (some apps) rest = some apps
or_else_apps none rest = rest

-- The first `[` at which an array can be decoded.
unfoldable pub parse_pm2_list : Machine → Text → Option (List Pm2App)
parse_pm2_list m [] = none
parse_pm2_list m (c ∷ s) =
    let rest = parse_pm2_list m s in
    if eqb c b'[' then or_else_apps (m.decode_apps (c ∷ s)) rest else rest

module _ (m : Machine) where
  unfoldable pub pm2_user : Text → Job UserInfo
  unfolding valid_user
  pm2_user name = do
    refuse_unless (valid_user name)
    found ← ask (λ h. m.lookup_user h name)
    u ← or_refuse found
    refuse_unless (may_run_pm2 u)
    pure u

  -- Whether the user's folder of PM2 is there and the user's own.
  unfoldable pub pm2_home : UserInfo → Job Bool
  unfolding join_path
  pm2_home u = do
    fi ← ask (λ h. m.stat h (join_path u.home (codes ".pm2")))
    owner ← ask (λ h. m.file_uid h (join_path u.home (codes ".pm2")))
    pure (is_folder fi && owned_by u.uid owner)

  abbrev pub or_next : Text → Job Text → Option FileInfo → Job Text
  or_next c rest fi = if is_program_file fi then pure c else rest

  unfoldable pub first_program : List Text → Job Text
  first_program [] = refuse
  first_program (c ∷ cs) = do fi ← ask (λ h. m.stat h c); or_next c (first_program cs) fi

  unfoldable pub find_pm2 : UserInfo → Job Text
  unfolding first_program join_path sort_texts
  find_pm2 u = do
    names ← ask (λ h. m.dir_names h (join_path u.home (codes ".nvm/versions/node")))
    first_program (fixed_candidates u ++ node_candidates u names)

  unfoldable pub pm2_apps : UserInfo → Job (List Pm2App)
  unfolding find_pm2 pm2_argv call parse_pm2_list
  pm2_apps u = do
    pm2 ← find_pm2 u
    (out, bad) ← call m (codes "setpriv") (pm2_argv u pm2 (codes "jlist" ∷ []))
    fail_if bad
    or_fail (parse_pm2_list m out)

  abbrev pub list_if : Bool → UserInfo → Job Unit
  list_if false u = pure tt
  list_if true u = do pm2_apps u; pure tt

  abbrev pub list_for : List Text → Job Unit
  list_for (name ∷ []) = do u ← pm2_user name; there ← pm2_home u; list_if there u
  list_for _ = refuse

  unfoldable pub pm2_list_action : List Text → Job Unit
  unfolding pm2_user pm2_home pm2_apps
  pm2_list_action args = list_for args

  abbrev pub restart_for : List Text → Job Unit
  restart_for (name ∷ app ∷ []) = do
    u ← pm2_user name
    refuse_unless (valid_name app)
    there ← pm2_home u
    refuse_unless there
    apps ← pm2_apps u
    refuse_unless (exists (λ a. text_beq a.app app) apps)
    pm2 ← find_pm2 u
    (out, bad) ← call m (codes "setpriv") (pm2_argv u pm2 (codes "restart" ∷ app ∷ []))
    fail_if bad
  restart_for _ = refuse

  unfoldable pub pm2_restart : List Text → Job Unit
  unfolding pm2_user pm2_home pm2_apps find_pm2 pm2_argv call valid_name
  pm2_restart args = restart_for args

  abbrev pub reload_if : Option UnitFacts → Job Unit
  reload_if none = pure tt
  reload_if (some facts) = if is_loaded facts then reload_nginx m else pure tt

  abbrev pub after_renewal : Bool → Job Unit
  after_renewal true = pure tt
  after_renewal false = do facts ← attempt (unit_facts m (codes "nginx.service")); reload_if facts

  abbrev pub renewal_args : Text → Bool → List Text
  renewal_args name false = codes "renew" ∷ codes "--cert-name" ∷ name ∷ []
  renewal_args name true = codes "renew" ∷ codes "--cert-name" ∷ name ∷ codes "--dry-run" ∷ []

  abbrev pub renew : Text → Bool → Job Unit
  renew name dry = do
    refuse_unless (valid_cert_name name)
    fi ← ask (λ h. m.lstat h (join_path (codes "/etc/letsencrypt/live") name))
    refuse_unless (is_folder fi)
    conf ←
        ask (λ h. m.stat h (join_path (codes "/etc/letsencrypt/renewal") (name ++ codes ".conf")))
    refuse_unless (is_present conf)
    found ← ask (λ h. m.look_path h (codes "certbot"))
    refuse_unless found
    (out, bad) ← call m (codes "certbot") (renewal_args name dry)
    fail_if bad
    after_renewal dry

  abbrev pub renew_with : List Text → Job Unit
  renew_with (name ∷ []) = renew name false
  renew_with (name ∷ flag ∷ []) = do
    refuse_unless (text_beq flag (codes "--dry-run"))
    renew name true
  renew_with _ = refuse

  unfoldable pub cert_renew : List Text → Job Unit
  unfolding valid_cert_name join_path call reload_nginx unit_facts
  cert_renew args = renew_with args
