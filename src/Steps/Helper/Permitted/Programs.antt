-- ===== src/Steps/Helper/Permitted/Programs.antt =====
-- The actions of internal/steps/helper.go on Supervisor's programs and PM2's applications are
-- permitted.
use rootmote_agent.Prelude.{
  ℕ, ◌≡◌, ◌⊎◌, inl, inr, refl, ap, ◌∙◌, arith, if◌then◌else◌, Bool, true, false, not, Option, none,
  some, List, [], ◌∷◌, ◌++◌, Text, codes,
}
use rootmote_agent.Steps.Validate.{valid_name}
use rootmote_agent.Steps.Helper.{
  Machine, History, UserInfo, FileInfo, pure, ask, or_fail, ◌>>=◌, ◌>>◌, refuse_unless,
}
use rootmote_agent.Steps.Helper.Safe.{
  Safe, Anything, Safe-pure, Safe-refuse, Safe-fail, Safe-bind, Safe-asking, Safe-requiring,
  Safe-from_refuse, Safe-failing, Safe-calling, Safe-running, Safe-fail_if,
}
use rootmote_agent.Steps.Helper.Supervisor.{
  is_safe_config, is_regular_file, find_config, supervisor_config, supervisor_configs,
  supervisor_programs, supervisor_status, supervisor_restart,
}
use rootmote_agent.Steps.Helper.Accounts.{
  fixed_candidates, node_candidates, join_path, pm2_argv, pm2_user, pm2_home, first_program,
  is_program_file, find_pm2, pm2_apps, list_if, pm2_list_action, pm2_restart,
}
use rootmote_agent.Steps.Helper.Permitted.{
  IsRootOnly, IsUser, Permitted, listing, restarting, listing_apps, restarting_app,
}

module _ (m : Machine) (rounds : ℕ) (action : Text) (args : List Text) (S : Type 0) where
  -- The file is one that only root can have written.
  abbrev IsTrusted : Text → History → Type 0
  IsTrusted conf h = IsRootOnly m h conf

  safe_config-IsRootOnly :
      (conf : Text) (h : History) (fi : Option FileInfo) (owner : Option ℕ)
      → m.stat h conf ≡ fi
      → m.file_uid h conf ≡ owner
      → is_regular_file fi ≡ true
      → is_safe_config fi owner ≡ true
      → IsRootOnly m h conf
  safe_config-IsRootOnly conf h none owner found at regular safe = absurd (ground (arith, regular))
  safe_config-IsRootOnly conf h (some fi) none found at regular safe = absurd (ground (arith, safe))
  safe_config-IsRootOnly conf h (some fi) (some uid) found at regular safe =
      let root : uid ≡ 0 = ground (arith, safe) in
      record {
        info = fi;
        found = found;
        regular = regular;
        owned = at ∙ ap (λ x. some x) root;
        group_reads = ground (arith, safe);
        others_read = ground (arith, safe);
      }

  find_config-Safe :
      (confs : List Text) (h : History)
      → Safe (Permitted m rounds action args) S (find_config m confs) IsTrusted h
  unfolding find_config
  find_config-Safe [] h = Safe-refuse h
  find_config-Safe (c ∷ cs) h =
      Safe-asking _ _ h (tried (is_regular_file (m.stat h c)) refl (find_config-Safe cs h))
    where
      tried :
          (b : Bool)
          → is_regular_file (m.stat h c) ≡ b
          → Safe (Permitted m rounds action args) S (find_config m cs) IsTrusted h
          → Safe
              (Permitted m rounds action args)
              S
              (if not b
                then find_config m cs
                else (ask (λ k. m.file_uid k c) >>= λ owner.
                    refuse_unless (is_safe_config (m.stat h c) owner) >> pure c))
              IsTrusted
              h
      tried false regular s = s
      tried true regular s = Safe-asking _ _ h (
          Safe-requiring _ _ h λ e.
            Safe-pure c h
              (safe_config-IsRootOnly c h (m.stat h c) (m.file_uid h c) refl refl regular e))

  supervisor_config-Safe :
      (h : History) → Safe (Permitted m rounds action args) S (supervisor_config m) IsTrusted h
  unfolding supervisor_config
  supervisor_config-Safe h = find_config-Safe supervisor_configs h

  supervisor_programs-Safe :
      (h : History)
      → (action ≡ codes "supervisor-status") ⊎ (action ≡ codes "supervisor.restart")
      → Safe (Permitted m rounds action args) S (supervisor_programs m) Anything h
  unfolding supervisor_programs
  supervisor_programs-Safe h named = Safe-asking _ _ h (
      Safe-requiring _ _ h λ found.
        Safe-bind IsTrusted (supervisor_config m) _ h (supervisor_config-Safe h) λ conf k trusted.
          Safe-calling m (codes "supervisorctl") (codes "-c" ∷ conf ∷ codes "status" ∷ []) _ k
            (listing conf named trusted) (Safe-failing _ _ _ λ e. Safe-pure _ _ tt))

  pub supervisor_status-Safe :
      (given : List Text) (h : History)
      → action ≡ codes "supervisor-status"
      → Safe (Permitted m rounds action args) S (supervisor_status m given) Anything h
  unfolding supervisor_status
  supervisor_status-Safe given h named = Safe-requiring _ _ h λ e.
      Safe-bind Anything (supervisor_programs m) _ h (supervisor_programs-Safe h (inl named))
        λ list k q. Safe-pure tt k tt

  pub supervisor_restart-Safe :
      (given : List Text) (h : History)
      → args ≡ given
      → action ≡ codes "supervisor.restart"
      → Safe (Permitted m rounds action args) S (supervisor_restart m given) Anything h
  unfolding supervisor_restart
  supervisor_restart-Safe [] h same named = Safe-refuse h
  supervisor_restart-Safe (program ∷ []) h same named =
      Safe-requiring (valid_name program) _ h λ valid.
        Safe-bind Anything (supervisor_programs m) _ h (supervisor_programs-Safe h (inr named))
          λ list k q. Safe-requiring _ _ k λ listed.
            Safe-bind IsTrusted (supervisor_config m) _ k (supervisor_config-Safe k)
              λ conf l trusted.
                Safe-running m (codes "supervisorctl") _ l
                  (restarting conf program named same valid trusted)
  supervisor_restart-Safe (program ∷ x ∷ xs) h same named = Safe-refuse h

  pm2_user-Safe :
      (name : Text) (more : List Text) (h : History)
      → args ≡ name ∷ more
      → Safe (Permitted m rounds action args) S (pm2_user m name) (λ u k. IsUser m args u) h
  unfolding pm2_user
  pm2_user-Safe name more h same = Safe-requiring _ _ h λ valid. Safe-asking _ _ h (
      Safe-from_refuse (m.lookup_user h name) _ h λ u found. Safe-requiring _ _ h λ may.
        Safe-pure u h (record {
          user_name = name;
          more = more;
          asked = same;
          valid = valid;
          at = h;
          found = found;
          not_root = ground (arith, may);
        }))

  pm2_home-Safe :
      (u : UserInfo) (h : History)
      → Safe (Permitted m rounds action args) S (pm2_home m u) Anything h
  unfolding pm2_home
  pm2_home-Safe u h = Safe-asking _ _ h (Safe-asking _ _ h (Safe-pure _ h tt))

  first_program-Safe :
      (cs : List Text) (h : History)
      → Safe (Permitted m rounds action args) S (first_program m cs) Anything h
  unfolding first_program
  first_program-Safe [] h = Safe-refuse h
  first_program-Safe (c ∷ cs) h =
      Safe-asking _ _ h (chosen (is_program_file (m.stat h c)) (first_program-Safe cs h))
    where
      chosen :
          (b : Bool)
          → Safe (Permitted m rounds action args) S (first_program m cs) Anything h
          → Safe
              (Permitted m rounds action args)
              S
              (if b then pure c else first_program m cs)
              Anything
              h
      chosen true s = Safe-pure c h tt
      chosen false s = s

  find_pm2-Safe :
      (u : UserInfo) (h : History)
      → Safe (Permitted m rounds action args) S (find_pm2 m u) Anything h
  unfolding find_pm2
  find_pm2-Safe u h = Safe-asking _ _ h (
      first_program-Safe
        (fixed_candidates u
          ++ node_candidates u (m.dir_names h (join_path u.home (codes ".nvm/versions/node"))))
        h)

  or_fail-Safe :
      {A : Type 0} (o : Option A) (h : History)
      → Safe (Permitted m rounds action args) S (or_fail o) Anything h
  or_fail-Safe none h = Safe-fail h
  or_fail-Safe (some a) h = Safe-pure a h tt

  pm2_apps-Safe :
      (u : UserInfo) (h : History)
      → (action ≡ codes "pm2-list") ⊎ (action ≡ codes "pm2.restart")
      → IsUser m args u
      → Safe (Permitted m rounds action args) S (pm2_apps m u) Anything h
  unfolding pm2_apps pm2_argv
  pm2_apps-Safe u h named may = Safe-bind Anything (find_pm2 m u) _ h (find_pm2-Safe u h) λ pm2 k q.
      Safe-calling m (codes "setpriv") (pm2_argv u pm2 (codes "jlist" ∷ [])) _ k
        (listing_apps u pm2 named may) (Safe-failing _ _ _ λ e. or_fail-Safe _ _)

  list_if-Safe :
      (there : Bool) (u : UserInfo) (h : History)
      → action ≡ codes "pm2-list"
      → IsUser m args u
      → Safe (Permitted m rounds action args) S (list_if m there u) Anything h
  list_if-Safe false u h named may = Safe-pure tt h tt
  list_if-Safe true u h named may =
      Safe-bind Anything (pm2_apps m u) _ h (pm2_apps-Safe u h (inl named) may)
        λ apps k q. Safe-pure tt k tt

  pub pm2_list_action-Safe :
      (given : List Text) (h : History)
      → args ≡ given
      → action ≡ codes "pm2-list"
      → Safe (Permitted m rounds action args) S (pm2_list_action m given) Anything h
  unfolding pm2_list_action
  pm2_list_action-Safe [] h same named = Safe-refuse h
  pm2_list_action-Safe (name ∷ []) h same named =
      Safe-bind _ (pm2_user m name) _ h (pm2_user-Safe name [] h same) λ u k may.
        Safe-bind Anything (pm2_home m u) _ k (pm2_home-Safe u k)
          λ there l q. list_if-Safe there u l named may
  pm2_list_action-Safe (name ∷ x ∷ xs) h same named = Safe-refuse h

  pub pm2_restart-Safe :
      (given : List Text) (h : History)
      → args ≡ given
      → action ≡ codes "pm2.restart"
      → Safe (Permitted m rounds action args) S (pm2_restart m given) Anything h
  unfolding pm2_restart pm2_argv
  pm2_restart-Safe [] h same named = Safe-refuse h
  pm2_restart-Safe (name ∷ []) h same named = Safe-refuse h
  pm2_restart-Safe (name ∷ app ∷ []) h same named =
      Safe-bind _ (pm2_user m name) _ h (pm2_user-Safe name (app ∷ []) h same) λ u k may.
        Safe-requiring (valid_name app) _ k λ valid.
          Safe-bind Anything (pm2_home m u) _ k (pm2_home-Safe u k) λ there l q.
            Safe-requiring there _ l λ e.
              Safe-bind Anything (pm2_apps m u) _ l (pm2_apps-Safe u l (inr named) may) λ apps i r.
                Safe-requiring _ _ i λ listed.
                  Safe-bind Anything (find_pm2 m u) _ i (find_pm2-Safe u i) λ pm2 j s.
                    Safe-calling m (codes "setpriv") (pm2_argv u pm2 (codes "restart" ∷ app ∷ [])) _
                      j (restarting_app u pm2 name app named same may valid) (Safe-fail_if _ _)
  pm2_restart-Safe (name ∷ app ∷ x ∷ xs) h same named = Safe-refuse h
