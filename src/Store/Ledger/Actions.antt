-- ===== src/Store/Ledger/Actions.antt =====
-- The state that remediation works on, and actions on it that may fail.
use rootmote_agent.Prelude.{ℕ, Bool, true, false, Option, List, [], ◌∷◌, Text}
use rootmote_agent.Prelude.Maps.{Map}
use rootmote_agent.Prelude.Int.{ℤ}
use rootmote_agent.Runbook.{Step}
use rootmote_agent.Store.Ledger.Statuses.{Status, ExecutionKind}

abbrev pub Time : Type 0
Time = ℕ

pub record RunbookRow : Type 0 where
  pub id : Text
  pub incident_id : Text
  pub content_hash : Text
  pub content : Text
  pub created_at : Time

pub record Execution : Type 0 where
  pub id : Text
  pub incident_id : Text
  pub runbook_id : Text
  pub runbook_hash : Text
  pub status : Status
  pub kind : ExecutionKind
  pub parent_execution_id : Text
  pub created_at : Time
  pub updated_at : Time

pub record Token : Type 0 where
  pub token : Text
  pub action_hash : Text
  pub project_id : Text
  pub created_at : Time
  pub expires_at : Time
  pub used_at : Option Time

-- The type of an event with the data that the program reads back from it.
pub data Payload : Type 0 where
  step_result : ℕ → ℤ → Bool → Payload
  step_verification : ℕ → Bool → Payload
  internal_verification : Bool → Bool → Payload
  labelled : Text → Payload

pub record Event : Type 0 where
  pub execution_id : Text
  pub seq : ℕ
  pub payload : Payload
  pub created_at : Time

pub record AuditEntry : Type 0 where
  pub type : Text
  pub execution_id : Text
  pub incident_id : Text
  pub created_at : Time

-- `failures` says of each coming call of the database whether it fails; calls past its end succeed.
-- `host` is the list of the steps that the executor was given, each with its execution.
pub record World : Type 0 where
  pub runbooks : Map Text RunbookRow
  pub executions : Map Text Execution
  pub tokens : Map Text Token
  pub events : List Event
  pub audit : List AuditEntry
  pub host : List (Text × Step)
  pub failures : List Bool

pub data Error : Type 0 where
  database not_found conflict invalid_status invalid_kind encoding hash_mismatch : Error
  invalid_state no_rollback_plan rollback_unsupported refused_l3 : Error
  token_invalid token_expired token_used token_mismatch : Error

pub data Result (A : Type 0) : Type 0 where
  ok : A → Result A
  err : Error → Result A

-- What was written before an error stays written.
abbrev pub Action : Type 0 → Type 0
Action A = World → Result A × World

module _ {A : Type 0} where
  unfoldable pub pure : A → Action A
  pure a w = (ok a, w)

  unfoldable pub raise : Error → Action A
  raise e w = (err e, w)

  unfoldable pub gets : (World → A) → Action A
  gets f w = (ok (f w), w)

  -- The result, error or not, as a value.
  unfoldable pub attempt : Action A → Action (Result A)
  attempt m w = let (r, w') = m w in (ok r, w')

unfoldable pub modify : (World → World) → Action Unit
modify f w = (ok tt, f w)

module _ {A B : Type 0} where
  abbrev pub continue : Result A → (A → Action B) → Action B
  continue (ok a) f w = f a w
  continue (err e) f w = (err e, w)

  infixl 5 ◌>>=◌ ◌>>◌
  -- Opening this opens the actions above too.
  unfoldable pub ◌>>=◌ : Action A → (A → Action B) → Action B
  unfolding pure raise gets attempt modify
  ◌>>=◌ m f w = let (r, w') = m w in continue r f w'

  abbrev pub ◌>>◌ : Action A → Action B → Action B
  m >> n = m >>= λ _. n

-- One call of the database: it may fail, and then it changes nothing.
abbrev pub outcome : List Bool → Result (Unit {0})
outcome [] = ok tt
outcome (false ∷ fs) = ok tt
outcome (true ∷ fs) = err database

abbrev pub later : List Bool → List Bool
later [] = []
later (f ∷ fs) = fs

unfoldable pub access : Action (Unit {0})
access w = (outcome w.failures, record w { failures = later w.failures })
