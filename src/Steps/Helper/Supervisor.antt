-- ===== src/Steps/Helper/Supervisor.antt =====
-- The actions of internal/steps/helper.go on Supervisor's programs.
use rootmote_agent.Prelude.{
  ℕ, ◌+◌, ◌/◌, ◌%◌, Bool, true, false, ◌&&◌, ◌||◌, not, Option, none, some, List, [], ◌∷◌, ◌++◌,
  Text, codes, text_beq, eqb, leb, if◌then◌else◌,
}
use rootmote_agent.Prelude.Texts.{trim_space, split_by, fields_of, starts_with, contains_text}
use rootmote_agent.Steps.Validate.{valid_name, every}
use rootmote_agent.Steps.Helper.{
  Machine, FileInfo, Program, Job, pure, refuse, ask, ◌>>=◌, ◌>>◌, refuse_unless, fail_if,
  want_args, call, run_command,
}

abbrev pub supervisor_configs : List Text
supervisor_configs =
    codes "/etc/supervisor/supervisord.conf"
    ∷ codes "/etc/supervisord.conf"
    ∷ codes "/etc/supervisord/supervisord.conf"
    ∷ []

-- `mode & 0o022 != 0`
abbrev pub others_write : ℕ → Bool
others_write mode = eqb (mode / 16 % 2) 1 || eqb (mode / 2 % 2) 1

abbrev pub is_regular_file : Option FileInfo → Bool
is_regular_file none = false
is_regular_file (some fi) = fi.is_regular

abbrev owned_by_root : Option ℕ → Bool
owned_by_root none = false
owned_by_root (some uid) = eqb uid 0

abbrev mode_of : Option FileInfo → ℕ
mode_of none = 0
mode_of (some fi) = fi.mode

-- A file that root owns and nobody else may write.
abbrev pub is_safe_config : Option FileInfo → Option ℕ → Bool
is_safe_config fi owner = owned_by_root owner && not (others_write (mode_of fi))

abbrev is_upper : Text → Bool
is_upper [] = false
is_upper (c ∷ s) = every (λ d. leb b'A' d && leb d b'Z') (c ∷ s)

abbrev add_program : List Text → List Program → List Program
add_program (name ∷ state ∷ more) list =
    if is_upper state then record { name = name; state = state } ∷ list else list
add_program _ list = list

unfoldable pub parse_supervisor_lines : List Text → List Program
unfolding fields_of
parse_supervisor_lines [] = []
parse_supervisor_lines (line ∷ lines) = add_program (fields_of line) (parse_supervisor_lines lines)

unfoldable pub parse_supervisor_status : Text → List Program
unfolding parse_supervisor_lines split_by
parse_supervisor_status s = parse_supervisor_lines (split_by 10 s)

-- `strings.ToLower` on ASCII letters.
abbrev lower : Text → Text
lower [] = []
lower (c ∷ s) = (if leb b'A' c && leb c b'Z' then c + 32 else c) ∷ lower s

abbrev pub is_empty_list : List Program → Bool
is_empty_list [] = true
is_empty_list (p ∷ ps) = false

-- No program was listed, and the output is a complaint.
abbrev supervisor_complains : Text → List Program → Bool
supervisor_complains out list =
    is_empty_list list
    && not (text_beq (trim_space out) [])
    && not (contains_text out (codes "no such"))
    && (contains_text (lower out) (codes "refused")
        || contains_text (lower out) (codes "error")
        || contains_text (lower out) (codes "no such file"))

unfoldable pub match_supervisor : List Program → Text → List Program
match_supervisor [] program = []
match_supervisor (s ∷ ss) program =
    let rest = match_supervisor ss program in
    if text_beq s.name program || starts_with s.name (program ++ codes ":") then s ∷ rest else rest

module _ (m : Machine) where
  abbrev pub try_config : Text → Job Text → Option FileInfo → Job Text
  try_config c rest fi =
      if not (is_regular_file fi)
      then rest
      else (do owner ← ask (λ h. m.file_uid h c); refuse_unless (is_safe_config fi owner); pure c)

  unfoldable pub find_config : List Text → Job Text
  find_config [] = refuse
  find_config (c ∷ cs) = do fi ← ask (λ h. m.stat h c); try_config c (find_config cs) fi

  unfoldable pub supervisor_config : Job Text
  unfolding find_config
  supervisor_config = find_config supervisor_configs

  unfoldable pub supervisor_programs : Job (List Program)
  unfolding supervisor_config call parse_supervisor_status trim_space
  supervisor_programs = do
    found ← ask (λ h. m.look_path h (codes "supervisorctl"))
    refuse_unless found
    conf ← supervisor_config
    (out, bad) ← call m (codes "supervisorctl") (codes "-c" ∷ conf ∷ codes "status" ∷ [])
    fail_if (supervisor_complains out (parse_supervisor_status out))
    pure (parse_supervisor_status out)

  unfoldable pub supervisor_status : List Text → Job Unit
  unfolding supervisor_programs
  supervisor_status args = do want_args args 0; supervisor_programs; pure tt

  abbrev pub restart_program : List Text → Job Unit
  restart_program (program ∷ []) = do
    refuse_unless (valid_name program)
    list ← supervisor_programs
    refuse_unless (not (is_empty_list (match_supervisor list program)))
    conf ← supervisor_config
    run_command m (codes "supervisorctl") (codes "-c" ∷ conf ∷ codes "restart" ∷ program ∷ [])
    pure tt
  restart_program _ = refuse

  unfoldable pub supervisor_restart : List Text → Job Unit
  unfolding supervisor_programs supervisor_config run_command valid_name match_supervisor
  supervisor_restart args = restart_program args
