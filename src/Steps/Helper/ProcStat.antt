-- ===== src/Steps/Helper/ProcStat.antt =====
-- internal/steps/helper_host.go: what is read of a process from its line of /proc, and the login
-- shell of a user.
use rootmote_agent.Prelude.{
  ℕ, ◌≡◌, refl, ap, ◌∙◌, Bool, true, false, ◌||◌, Option, none, some, List, [], ◌∷◌, ◌++◌, Text,
  codes, text_beq, length, leb, eqb, arith, get_elem?, exists, if◌then◌else◌,
}
use rootmote_agent.Prelude.Int.{ℤ, pos}
use rootmote_agent.Prelude.Texts.{cut_at, cut_more, fields_of, split_by}
use rootmote_agent.Steps.Params.{digits, parse_int}
use rootmote_agent.Steps.PrivArgs.{parse_uint}

pub record ProcStat : Type 0 where
  pub comm : Text
  pub state : Text
  pub ppid : ℤ
  pub start : ℕ

abbrev at_last : ℕ → ℕ → Text → Option (Text × Text) → Option (Text × Text)
at_last c d s (some (before, after)) = some (d ∷ before, after)
at_last c d s none = if eqb d c then some ([], s) else none

-- What stands before and after the last place of a character.
unfoldable pub cut_last : ℕ → Text → Option (Text × Text)
cut_last c [] = none
cut_last c (d ∷ s) = at_last c d s (cut_last c s)

abbrev stat_of : Text → Option Text → Option ℤ → Option ℕ → Option ProcStat
stat_of comm (some state) (some ppid) (some start) =
    some (record { comm = comm; state = state; ppid = ppid; start = start })
stat_of comm _ _ _ = none

abbrev int_field : Option Text → Option ℤ
int_field none = none
int_field (some s) = parse_int s

abbrev uint_field : Option Text → Option ℕ
uint_field none = none
uint_field (some s) = parse_uint s

-- The fields after the name: the state, the parent, and the start time as the twentieth.
unfoldable pub stat_fields : Text → List Text → Option ProcStat
unfolding parse_int digits
stat_fields comm fields =
    if leb 20 (length fields)
    then stat_of comm (get_elem? fields 0) (int_field (get_elem? fields 1))
        (uint_field (get_elem? fields 19))
    else none

abbrev after_name : Option (Text × Text) → Option ProcStat
after_name none = none
after_name (some (comm, rest)) = stat_fields comm (fields_of rest)

abbrev after_open : Option (Text × Text) → Option ProcStat
after_open none = none
after_open (some (before, after)) = after_name (cut_last b')' after)

-- From the first `(` to the last `)` after it, which is the last of the line.
unfoldable pub parse_proc_stat : Text → Option ProcStat
unfolding cut_at cut_last stat_fields fields_of
parse_proc_stat s = after_open (cut_at b'(' s)

unfoldable pub parent_pid : Option ProcStat → ℤ
parent_pid none = pos 0
parent_pid (some st) = st.ppid

unfoldable pub comm_of : Option ProcStat → Text
comm_of none = []
comm_of (some st) = st.comm

-- The start time, and whether the process lives: not where it is a zombie or dead.
unfoldable pub start_time : Option ProcStat → ℕ × Bool
start_time none = (0, false)
start_time (some st) =
    if text_beq st.state (codes "Z") || text_beq st.state (codes "X")
    then (0, false)
    else (st.start, true)

abbrev shell_or : Text → List Text → Text → Text
shell_or name fields rest = shell_of (get_elem? fields 0) (get_elem? fields 6)
  where
    shell_of : Option Text → Option Text → Text
    shell_of (some user) (some shell) = if text_beq user name then shell else rest
    shell_of _ _ = rest

unfoldable pub shell_in : Text → List Text → Text
unfolding split_by
shell_in name [] = []
shell_in name (line ∷ lines) = shell_or name (split_by b':' line) (shell_in name lines)

-- `none` where /etc/passwd cannot be read.
unfoldable pub passwd_shell : Option Text → Text → Text
unfolding shell_in split_by
passwd_shell none name = []
passwd_shell (some file) name = shell_in name (split_by 10 file)

-- The character is not in the text.
abbrev pub Lacks : ℕ → Text → Type 0
Lacks c s = exists (λ d. eqb d c) s ≡ false

Lacks-cons : (c d : ℕ) (s : Text) → Lacks c (d ∷ s) → (eqb d c ≡ false) × Lacks c s
Lacks-cons c d s h = both (eqb d c) (exists (λ e. eqb e c) s) h
  where
    both : (a b : Bool) → (a || b) ≡ false → (a ≡ false) × (b ≡ false)
    both a b g = ground (arith)

cut_at-append :
    (c : ℕ) (before after : Text)
    → Lacks c before
    → cut_at c (before ++ (c ∷ after)) ≡ some (before, after)
unfolding cut_at
cut_at-append c [] after h =
    let same : eqb c c ≡ true = ground arith in
    ap (λ b. if b then some ([], after) else cut_more c (cut_at c after)) same
cut_at-append c (d ∷ before) after l =
    let (off, h) = Lacks-cons c d before l in
    ap
      (λ b.
        if b
        then some ([], before ++ (c ∷ after))
        else cut_more d (cut_at c (before ++ (c ∷ after))))
      off
    ∙ ap (cut_more d) (cut_at-append c before after h)

cut_last-Lacks : (c : ℕ) (s : Text) → Lacks c s → cut_last c s ≡ none
unfolding cut_last
cut_last-Lacks c [] h = refl
cut_last-Lacks c (d ∷ s) l =
    let (off, h) = Lacks-cons c d s l in
    ap (at_last c d s) (cut_last-Lacks c s h) ∙ ap (λ b. if b then some ([], s) else none) off

cut_last-append :
    (c : ℕ) (before after : Text)
    → Lacks c after
    → cut_last c (before ++ (c ∷ after)) ≡ some (before, after)
unfolding cut_last
cut_last-append c [] after h =
    let same : eqb c c ≡ true = ground arith in
    ap (at_last c c after) (cut_last-Lacks c after h)
    ∙ ap (λ b. if b then some ([], after) else none) same
cut_last-append c (d ∷ before) after h =
    ap (at_last c d (before ++ (c ∷ after))) (cut_last-append c before after h)

-- A process cannot choose, by its name, what is read of it: whatever the name holds, parentheses
-- and spaces too, it is read as it is, and the state, the parent and the start time are read from
-- the fields after it.
pub parse_proc_stat-append :
    (before comm after : Text)
    → Lacks b'(' before
    → Lacks b')' after
    → parse_proc_stat (before ++ (b'(' ∷ (comm ++ (b')' ∷ after))))
      ≡ stat_fields comm (fields_of after)
unfolding parse_proc_stat
parse_proc_stat-append before comm after h g =
    ap after_open (cut_at-append b'(' before (comm ++ (b')' ∷ after)) h)
    ∙ ap after_name (cut_last-append b')' comm after g)
