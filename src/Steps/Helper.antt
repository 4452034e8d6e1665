-- ===== src/Steps/Helper.antt =====
-- internal/steps/helper.go: the privilege helper. What it does as root is a list of events; what
-- the host answers may depend on all the events so far. Messages are left out.
pub mod Safe
pub mod Services
pub mod Supervisor
pub mod Accounts
pub mod Processes
pub mod Actions
pub mod Permitted
pub mod Names
pub mod Performed
pub mod Audit
pub mod Descent
pub mod Below
pub mod Free
pub mod ProcStat
use rootmote_agent.Prelude.{
  ℕ, ◌+◌, Bool, true, false, not, Option, none, some, List, [], ◌∷◌, Text, codes, length, eqb,
  if◌then◌else◌,
}
use rootmote_agent.Prelude.Int.{ℤ}
use rootmote_agent.Firewall.{Rule, Firewall}

pub record FileInfo : Type 0 where
  pub is_dir : Bool
  pub is_regular : Bool
  pub mode : ℕ

pub record UserInfo : Type 0 where
  pub name : Text
  pub uid : ℕ
  pub gid : ℕ
  pub home : Text
  pub shell : Text

pub record Pm2App : Type 0 where
  pub app : Text
  pub status : Text
  pub restarts : ℤ

pub record Program : Type 0 where
  pub name : Text
  pub state : Text

pub data Signal : Type 0 where
  sigterm sigkill : Signal

-- A command with its exact arguments, a signal to the process that was pinned, a call of a firewall
-- backend, a pause in milliseconds, and a second start of the helper in the host's namespace.
pub data Event : Type 0 where
  ran : Text → List Text → Event
  signalled : ℕ → Signal → Event
  allowed closed : Rule → Event
  slept : ℕ → Event
  reentered : List Text → Event

-- The latest event stands first.
abbrev pub History : Type 0
History = List Event

-- The interface `Host`. A command has its output and whether it failed; a process its start time,
-- and whether it lives.
pub record Machine : Type 0 where
  pub run : History → Text → List Text → Text × Bool
  pub look_path : History → Text → Bool
  pub stat : History → Text → Option FileInfo
  pub lstat : History → Text → Option FileInfo
  pub file_uid : History → Text → Option ℕ
  pub dir_names : History → Text → Option (List Text)
  pub lookup_user : History → Text → Option UserInfo
  pub self : ℕ
  pub pids : History → List ℕ
  pub parent_pid : History → ℕ → ℕ
  pub comm : History → ℕ → Text
  pub start_time : History → ℕ → ℕ × Bool
  pub open_process : History → ℕ → Bool
  pub signal_fails : History → ℕ → Signal → Bool
  pub cancelled : History → Bool
  pub change_dir_fails : Bool
  pub firewall : History → Option Firewall
  pub edit_fails : History → Rule → Bool
  pub in_host_ns : Bool
  -- The exit code of the helper in the host's namespace.
  pub host_ns_code : History → List Text → ℕ
  -- encoding/json on a text that begins with an array.
  pub decode_apps : Text → Option (List Pm2App)

pub data Reply (A : Type 0) : Type 0 where
  ok : A → Reply A
  refused failed : Reply A
  -- A loop that has not ended.
  stuck : Reply A

abbrev pub Job : Type 0 → Type 0
Job A = History → Reply A × History

module _ {A : Type 0} where
  unfoldable pub pure : A → Job A
  pure a h = (ok a, h)

  unfoldable pub refuse : Job A
  refuse h = (refused, h)

  unfoldable pub fail : Job A
  fail h = (failed, h)

  unfoldable pub hang : Job A
  hang h = (stuck, h)

  -- What the host answers now.
  unfoldable pub ask : (History → A) → Job A
  ask f h = (ok (f h), h)

module _ {A : Type 0} where
  abbrev pub settled : Reply A → Reply (Option A)
  settled (ok a) = ok (some a)
  settled refused = ok none
  settled failed = ok none
  settled stuck = stuck

  -- An error as `none`.
  unfoldable pub attempt : Job A → Job (Option A)
  attempt m h = let (r, k) = m h in (settled r, k)

unfoldable pub emit : Event → Job Unit
emit e h = (ok tt, e ∷ h)

module _ {A B : Type 0} where
  abbrev pub continue : Reply A → (A → Job B) → Job B
  continue (ok a) f h = f a h
  continue refused f h = (refused, h)
  continue failed f h = (failed, h)
  continue stuck f h = (stuck, h)

  infixl 5 ◌>>=◌ ◌>>◌
  -- Opening this opens the jobs above too.
  unfoldable pub ◌>>=◌ : Job A → (A → Job B) → Job B
  unfolding pure refuse fail hang ask emit
  ◌>>=◌ m f h = let (r, h') = m h in continue r f h'

  abbrev pub ◌>>◌ : Job A → Job B → Job B
  m >> n = m >>= λ _. n

abbrev pub refuse_unless : Bool → Job Unit
refuse_unless true = pure tt
refuse_unless false = refuse

abbrev pub fail_if : Bool → Job Unit
fail_if false = pure tt
fail_if true = fail

abbrev pub or_refuse : {A : Type 0} → Option A → Job A
or_refuse none = refuse
or_refuse (some a) = pure a

abbrev pub or_fail : {A : Type 0} → Option A → Job A
or_fail none = fail
or_fail (some a) = pure a

abbrev pub want_args : List Text → ℕ → Job Unit
want_args args n = refuse_unless (eqb (length args) n)

module _ (m : Machine) where
  -- `Host.Run`
  unfoldable pub call : Text → List Text → Job (Text × Bool)
  call name args h = (ok (m.run h name args), ran name args ∷ h)

  -- `run` of helper.go: a command that fails is an error.
  unfoldable pub run_command : Text → List Text → Job Text
  unfolding call
  run_command name args = do (out, bad) ← call name args; fail_if bad; pure out
