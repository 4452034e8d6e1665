-- ===== src/Store/Ledger/Statuses.antt =====
-- The statuses and kinds of an execution (internal/store/store.go).
use rootmote_agent.Prelude.{
  ℕ, ◌≡◌, ◌↔◌, Bool, true, false, ◌&&◌, [], Text, text_beq, text_beq_iff, eqb, arith,
}

-- `unrecognized` is any other text.
pub data Status : Type 0 where
  proposed approved executing verifying resolved remediation_failed declined blocked_l3 : Status
  unrecognized : Text → Status

unfoldable pub is_status : Status → Bool
is_status (unrecognized t) = false
is_status proposed = true
is_status _ = true

abbrev rank : Status → ℕ
rank proposed = 0
rank approved = 1
rank executing = 2
rank verifying = 3
rank resolved = 4
rank remediation_failed = 5
rank declined = 6
rank blocked_l3 = 7
rank (unrecognized t) = 8

abbrev name : Status → Text
name (unrecognized t) = t
name _ = []

-- Equality of the texts.
unfoldable pub status_beq : Status → Status → Bool
status_beq s t = eqb (rank s) (rank t) && text_beq (name s) (name t)

pub status_beq_iff : (s t : Status) → (status_beq s t ≡ true) ↔ (s ≡ t)
unfolding status_beq
status_beq_iff s t = ground (arith, text_beq_iff (name s) (name t))

-- `blank` is the empty text.
pub data ExecutionKind : Type 0 where
  execute rollback blank : ExecutionKind
  unrecognized : Text → ExecutionKind

unfoldable pub is_kind : ExecutionKind → Bool
is_kind execute = true
is_kind rollback = true
is_kind _ = false

unfoldable pub or_execute : ExecutionKind → ExecutionKind
or_execute blank = execute
or_execute k = k
