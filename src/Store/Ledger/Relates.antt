-- ===== src/Store/Ledger/Relates.antt =====
-- Relations between the state before an action and the state after it, whether it returns or
-- fails: one rule for each way to build an action.
use rootmote_agent.Store.Ledger.Actions.{
  World, Action, Result, ok, err, Error, pure, raise, gets, attempt, continue, ◌>>=◌,
}

pub record IsPreorder (R : World → World → Type 0) : Type 0 where
  pub refl : (w : World) → R w w
  pub trans : {u v w : World} → R u v → R v w → R u w

pub record Relates {A : Type 0} (R : World → World → Type 0) (m : Action A) : Type 0 where
  pub at : (w : World) → R w (m w).1

module _ {A : Type 0} {R : World → World → Type 0} where
  pub Relates-pure : IsPreorder R → (a : A) → Relates R (pure a)
  unfolding pure
  Relates-pure p a = record { at = p.refl }

  pub Relates-raise : IsPreorder R → (e : Error) → Relates R (raise {A = A} e)
  unfolding raise
  Relates-raise p e = record { at = p.refl }

  pub Relates-gets : IsPreorder R → (f : World → A) → Relates R (gets f)
  unfolding gets
  Relates-gets p f = record { at = p.refl }

  pub Relates-attempt : (m : Action A) → Relates R m → Relates R (attempt m)
  unfolding attempt
  Relates-attempt m r = record { at = r.at }

module _ {A B : Type 0} {R : World → World → Type 0} where
  pub Relates-bind :
      IsPreorder R
      → (m : Action A) (f : A → Action B) → Relates R m
      → ((a : A) → Relates R (f a))
      → Relates R (m >>= f)
  unfolding ◌>>=◌
  Relates-bind p m f rm rf = record { at = λ w. continued (m w) (rm.at w) }
    where
      continued : {u : World} (r : Result A × World) → R u r.1 → R u (continue r.0 f r.1).1
      continued (ok a, w) h = p.trans h ((rf a).at w)
      continued (err e, w) h = h

  -- The rest may use that the state is still the one that was read.
  pub Relates-bind_gets :
      (g : World → A) (f : A → Action B)
      → ((w : World) → R w (f (g w) w).1)
      → Relates R (gets g >>= f)
  unfolding ◌>>=◌
  Relates-bind_gets g f h = record { at = h }

pub ruleset relates_rules =
    (Relates-pure, Relates-raise, Relates-gets, Relates-attempt, Relates-bind)
