-- ===== src/Store/Ledger/Returns.antt =====
-- What an action on the tables of internal/store/store.go did, where it returned.
use rootmote_agent.Prelude.{
  ◌≡◌, refl, sym, ◌∙◌, ap, Bool, true, false, Option, none, some, List, Text, text_eq, arith,
  if◌then◌else◌, Bool-cases, inl, inr,
}
use rootmote_agent.Prelude.Maps.{lookup, insert}
use rootmote_agent.Store.Ledger.{
  get_runbook, get_execution, get_confirmation_token, mark_confirmation_token_used, use_token,
  mark_row, or_raise, stored, transition_execution, move_status,
}
use rootmote_agent.Store.Ledger.Statuses.{Status, is_status, status_beq, status_beq_iff}
use rootmote_agent.Store.Ledger.Actions.{
  World, Execution, RunbookRow, Token, Action, Error, conflict, invalid_status, Result, ok, err,
  access, outcome, later, continue, pure, raise, gets, modify, ◌>>=◌, ◌>>◌, Time, attempt,
}

-- The state is the same but for the schedule of failures.
abbrev pub Read : World → World → Type 0
Read w u = (fs : List Bool) × (u ≡ record w { failures = fs })

pub Read-trans : (u v w : World) → Read u v → Read v w → Read u w
Read-trans u v w (fs, p) (gs, q) = (gs, q ∙ ap {A = World} (λ x. record x { failures = gs }) p)

module _ {A B : Type 0} where
  -- Where a sequence returned, both parts did.
  pub bind_returned :
      (m : Action A) (f : A → Action B) (w v : World) (b : B)
      → (m >>= f) w ≡ (ok b, v)
      → (a : A) × (u : World) × (m w ≡ (ok a, u)) × (f a u ≡ (ok b, v))
  unfolding ◌>>=◌
  bind_returned m f w v b h = after (m w) refl h
    where
      after :
          (r : Result A × World)
          → m w ≡ r
          → continue r.0 f r.1 ≡ (ok b, v)
          → (a : A) × (u : World) × (m w ≡ (ok a, u)) × (f a u ≡ (ok b, v))
      after (ok a, u) e h = (a, u, e, h)
      after (err x, u) e h = absurd (ground (arith))

pub access_returned : (w v : World) → access w ≡ (ok tt, v) → Read w v
unfolding access
access_returned w v h = (later w.failures, sym (ap (λ r. r.1) h))

pub raise_returned : {A : Type 0} (e : Error) (w v : World) (a : A) → ¬ (raise e w ≡ (ok a, v))
unfolding raise
raise_returned e w v a h = ground (arith)

pub pure_returned :
    {A : Type 0} (x : A) (w v : World) (a : A) → pure x w ≡ (ok a, v) → (x ≡ a) × (w ≡ v)
unfolding pure
pure_returned x w v a h = ground (arith)

or_raise_returned :
    {A : Type 0} (e : Error) (o : Option A) (w v : World) (a : A)
    → or_raise e o w ≡ (ok a, v)
    → (o ≡ some a) × (w ≡ v)
unfolding raise pure
or_raise_returned e none w v a h = absurd (ground (arith))
or_raise_returned e (some x) w v a h = ground (arith)

abbrev after_access : World → World
after_access w = record w { failures = later w.failures }

module _ {B : Type 0} where
  -- A call of the database that did not fail changed the schedule of failures alone.
  pub access_then_returned :
      (m : Action B) (w v : World) (b : B)
      → (access >> m) w ≡ (ok b, v)
      → m (record w { failures = later w.failures }) ≡ (ok b, v)
  unfolding ◌>>=◌ access
  access_then_returned m w v b h = after (outcome w.failures) h
    where
      after :
          (r : Result Unit)
          → continue r (λ _. m) (record w { failures = later w.failures }) ≡ (ok b, v)
          → m (record w { failures = later w.failures }) ≡ (ok b, v)
      after (ok _) h = h
      after (err e) h = absurd (ground (arith))

  pub gets_then_returned :
      {A : Type 0} (f : World → A) (k : A → Action B) (w : World) → (gets f >>= k) w ≡ k (f w) w
  unfolding ◌>>=◌ gets
  gets_then_returned f k w = refl

-- A read returned the row that was there, and wrote nothing.
pub get_execution_returned :
    (id : Text) (w v : World) (e : Execution)
    → get_execution id w ≡ (ok e, v)
    → (lookup id w.executions ≡ some e) × Read w v
unfolding get_execution ◌>>=◌ gets
get_execution_returned id w v e h =
    let (found, same) = or_raise_returned _ _ _ v e (access_then_returned _ w v e h) in
    (found, (later w.failures, sym same))

pub get_runbook_returned :
    (id : Text) (w v : World) (r : RunbookRow)
    → get_runbook id w ≡ (ok r, v)
    → (lookup id w.runbooks ≡ some r) × Read w v
unfolding get_runbook ◌>>=◌ gets
get_runbook_returned id w v r h =
    let (found, same) = or_raise_returned _ _ _ v r (access_then_returned _ w v r h) in
    (found, (later w.failures, sym same))

pub get_confirmation_token_returned :
    (t : Text) (w v : World) (r : Token)
    → get_confirmation_token t w ≡ (ok r, v)
    → (lookup t w.tokens ≡ some r) × Read w v
unfolding get_confirmation_token ◌>>=◌ gets
get_confirmation_token_returned t w v r h =
    let (found, same) = or_raise_returned _ _ _ v r (access_then_returned _ w v r h) in
    (found, (later w.failures, sym same))

-- A token that was marked had not been used.
pub mark_confirmation_token_used_returned :
    (t : Text) (at : Time) (w v : World)
    → mark_confirmation_token_used t at w ≡ (ok true, v)
    → (r : Token) × (lookup t w.tokens ≡ some r)
      × (r.used_at ≡ none)
      × ((fs : List Bool) × (v ≡ record w {
        tokens = insert t (record r { used_at = some (stored at) }) w.tokens;
        failures = fs;
      }))
unfolding mark_confirmation_token_used ◌>>=◌ gets modify pure
mark_confirmation_token_used_returned t at w v h =
    marked (lookup t w.tokens) refl (access_then_returned _ w v true h)
  where
    Marked : Type 0
    Marked =
        (r : Token) × (lookup t w.tokens ≡ some r)
        × (r.used_at ≡ none)
        × ((fs : List Bool) × (v ≡ record w {
          tokens = insert t (record r { used_at = some (stored at) }) w.tokens;
          failures = fs;
        }))

    row_marked :
        (r : Token) (o : Option Time)
        → lookup t w.tokens ≡ some r
        → r.used_at ≡ o
        → mark_row t at r o (after_access w) ≡ (ok true, v)
        → Marked
    row_marked r none e n h = (r, e, n, (later w.failures, sym (ap (λ p. p.1) h)))
    row_marked r (some x) e n h = absurd (ground (arith))

    marked :
        (o : Option Token)
        → lookup t w.tokens ≡ o
        → use_token t at o (after_access w) ≡ (ok true, v)
        → Marked
    marked none e h = absurd (ground (arith))
    marked (some r) e h = row_marked r r.used_at e refl h

-- An execution that was moved was where the move starts.
pub transition_execution_returned :
    (id : Text) (from to : Status) (at : Time) (w v : World)
    → transition_execution id from to at w ≡ (ok tt, v)
    → (e : Execution) × (lookup id w.executions ≡ some e)
      × (e.status ≡ from)
      × ((fs : List Bool) × (v ≡ record w {
        executions = insert id (record e { status = to; updated_at = stored at }) w.executions;
        failures = fs;
      }))
unfolding transition_execution ◌>>=◌ gets modify
transition_execution_returned id from to at w v h = elim (Bool-cases (is_status to)) [
  | inl y ↦ moved (lookup id w.executions) refl (access_then_returned _ w v tt (rw y at h))
  | inr n ↦ absurd (raise_returned {A = Unit} invalid_status w v tt (rw n at h))
]
  where
    Moved : Type 0
    Moved =
        (e : Execution) × (lookup id w.executions ≡ some e)
        × (e.status ≡ from)
        × ((fs : List Bool) × (v ≡ record w {
          executions = insert id (record e { status = to; updated_at = stored at }) w.executions;
          failures = fs;
        }))

    moved :
        (o : Option Execution)
        → lookup id w.executions ≡ o
        → move_status id from to at o (after_access w) ≡ (ok tt, v)
        → Moved
    moved none e h = absurd (ground (arith))
    moved (some e) found h = elim (Bool-cases (status_beq e.status from)) [
      | inl y ↦ (
        e,
        found,
        (status_beq_iff e.status from).0 y,
        (later w.failures, sym (ap (λ p. p.1) (rw y at h))),
      )
      | inr n ↦ absurd (raise_returned {A = Unit} conflict (after_access w) v tt (rw n at h))
    ]

-- A test that refuses did not.
pub unless_returned :
    {A : Type 0} (b : Bool) (e : Error) (m : Action A) (w v : World) (a : A)
    → (if b then raise e else m) w ≡ (ok a, v)
    → (b ≡ false) × (m w ≡ (ok a, v))
unless_returned true e m w v a h = absurd (raise_returned e w v a h)
unless_returned false e m w v a h = (refl, h)

pub attempt_returned :
    {A : Type 0} (m : Action A) (w v : World) (r : Result A)
    → attempt m w ≡ (ok r, v)
    → m w ≡ (r, v)
unfolding attempt
attempt_returned {A = A} m w v r h = after (m w) h
  where
    after :
        (p : Result A × World)
        → Path (Result (Result A) × World) (ok p.0, p.1) (ok r, v)
        → p ≡ (r, v)
    after (s, u) h = ground (arith)
