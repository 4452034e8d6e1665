-- ===== src/Steps/Helper/Safe.antt =====
-- Jobs of the privilege helper (internal/steps/helper.go) of which every event is permitted when it
-- happens, and what holds of their results: one rule for each way to build a job. `S` holds where a job has
-- not ended.
use rootmote_agent.Prelude.{◌≡◌, refl, Bool, true, false, Option, none, some, List, ◌∷◌, Text}
use rootmote_agent.Steps.Helper.{
  Event, History, Machine, Reply, ok, refused, failed, stuck, Job, pure, refuse, fail, hang, ask,
  attempt, settled, emit, continue, ◌>>=◌, ◌>>◌, refuse_unless, fail_if, or_refuse, or_fail, call,
  run_command, ran,
}

-- The second history goes on from the first by events that are permitted when they happen.
pub data Emitted (P : History → Event → Type 0) (h : History) : History → Type 0 where
  nothing : Emitted P h h
  one_more : {e : Event} {k : History} → Emitted P h k → P k e → Emitted P h (e ∷ k)

pub Emitted-trans :
    {P : History → Event → Type 0} (h k l : History) → Emitted P h k → Emitted P k l → Emitted P h l
Emitted-trans h k l a nothing = a
Emitted-trans h k l a (one_more {k = j} b p) = one_more (Emitted-trans h k j a b) p

pub Emitted-weaken :
    {P Q : History → Event → Type 0} (h k : History)
    → ((j : History) (e : Event) → P j e → Q j e)
    → Emitted P h k
    → Emitted Q h k
Emitted-weaken h k f nothing = nothing
Emitted-weaken h k f (one_more {e} {k = j} b p) = one_more (Emitted-weaken h j f b) (f j e p)

abbrev pub Returned : {A : Type 0} → Type 0 → (A → History → Type 0) → Reply A → History → Type 0
Returned S Q (ok a) h = Q a h
Returned S Q refused h = Unit
Returned S Q failed h = Unit
Returned S Q stuck h = S

pub record Safe {A : Type 0} (P : History → Event → Type 0) (S : Type 0) (m : Job A)
    (Q : A → History → Type 0) (h : History) : Type 0 where
  pub emitted : Emitted P h (m h).1
  pub returned : Returned S Q (m h).0 (m h).1

module _ {A : Type 0} {P : History → Event → Type 0} {S : Type 0} {Q : A → History → Type 0} where
  pub Safe-pure : (a : A) (h : History) → Q a h → Safe P S (pure a) Q h
  unfolding pure
  Safe-pure a h q = record { emitted = nothing; returned = q }

  pub Safe-refuse : (h : History) → Safe P S refuse Q h
  unfolding refuse
  Safe-refuse h = record { emitted = nothing; returned = tt }

  pub Safe-fail : (h : History) → Safe P S fail Q h
  unfolding fail
  Safe-fail h = record { emitted = nothing; returned = tt }

  pub Safe-hang : (h : History) → S → Safe P S hang Q h
  unfolding hang
  Safe-hang h s = record { emitted = nothing; returned = s }

  pub Safe-ask : (f : History → A) (h : History) → Q (f h) h → Safe P S (ask f) Q h
  unfolding ask
  Safe-ask f h q = record { emitted = nothing; returned = q }

pub Safe-attempt :
    {A : Type 0} {P : History → Event → Type 0} {S : Type 0} {Q : A → History → Type 0} (m : Job A)
    (h : History)
    → Safe P S m Q h
    → Safe P S (attempt m) (λ o k. Unit) h
unfolding attempt
Safe-attempt {A} {P} {S} {Q} m h s = record {
  emitted = s.emitted;
  returned = settled_returned (m h).0 s.returned;
}
  where
    settled_returned :
        (r : Reply A) → Returned S Q r (m h).1 → Returned S (λ o k. Unit) (settled r) (m h).1
    settled_returned (ok a) q = tt
    settled_returned refused q = tt
    settled_returned failed q = tt
    settled_returned stuck q = q

pub Safe-emit :
    {P : History → Event → Type 0} {S : Type 0} {Q : Unit {0} → History → Type 0} (e : Event)
    (h : History)
    → P h e
    → Q tt (e ∷ h)
    → Safe P S (emit e) Q h
unfolding emit
Safe-emit e h p q = record { emitted = one_more nothing p; returned = q }

module _ {A B : Type 0} {P : History → Event → Type 0} {S : Type 0} where
  pub Safe-bind :
      (R : A → History → Type 0) {Q : B → History → Type 0} (m : Job A) (f : A → Job B)
      (h : History)
      → Safe P S m R h
      → ((a : A) (k : History) → R a k → Safe P S (f a) Q k)
      → Safe P S (m >>= f) Q h
  unfolding ◌>>=◌
  Safe-bind R {Q} m f h sm sf =
      let (e, q) = continued (m h) sm.emitted sm.returned in record { emitted = e; returned = q }
    where
      continued :
          (r : Reply A × History)
          → Emitted P h r.1
          → Returned S R r.0 r.1
          → Emitted P h (continue r.0 f r.1).1
            × Returned S Q (continue r.0 f r.1).0 (continue r.0 f r.1).1
      continued (ok a, k) e q =
          let s = sf a k q in (Emitted-trans h k (f a k).1 e s.emitted, s.returned)
      continued (refused, k) e q = (e, tt)
      continued (failed, k) e q = (e, tt)
      continued (stuck, k) e q = (e, q)

-- What needs no fact about the result.
abbrev pub Anything : {A : Type 0} → A → History → Type 0
Anything a h = Unit

-- The event is one of the history.
pub data Happened (e : Event) : History → Type 0 where
  last : {h : History} → Happened e (e ∷ h)
  earlier : {d : Event} {h : History} → Happened e h → Happened e (d ∷ h)

Happened-Emitted :
    {P : History → Event → Type 0} (e : Event) (h k : History)
    → Happened e h
    → Emitted P h k
    → Happened e k
Happened-Emitted e h k i nothing = i
Happened-Emitted e h k i (one_more {k = j} b p) = earlier (Happened-Emitted e h j i b)

-- The steps of a job that ask, check or act, and what follows them.
module _ {A B : Type 0} {P : History → Event → Type 0} {S : Type 0} {Q : B → History → Type 0} where
  pub Safe-asking :
      (f : History → A) (g : A → Job B) (h : History)
      → Safe P S (g (f h)) Q h
      → Safe P S (ask f >>= g) Q h
  unfolding ◌>>=◌
  Safe-asking f g h s = record { emitted = s.emitted; returned = s.returned }

  pub Safe-from_refuse :
      (o : Option A) (g : A → Job B) (h : History)
      → ((a : A) → o ≡ some a → Safe P S (g a) Q h)
      → Safe P S (or_refuse o >>= g) Q h
  unfolding ◌>>=◌
  Safe-from_refuse none g h s = record { emitted = nothing; returned = tt }
  Safe-from_refuse (some a) g h s =
      let r = s a refl in record { emitted = r.emitted; returned = r.returned }

  pub Safe-from_fail :
      (o : Option A) (g : A → Job B) (h : History)
      → ((a : A) → Safe P S (g a) Q h)
      → Safe P S (or_fail o >>= g) Q h
  unfolding ◌>>=◌
  Safe-from_fail none g h s = record { emitted = nothing; returned = tt }
  Safe-from_fail (some a) g h s =
      let r = s a in record { emitted = r.emitted; returned = r.returned }

module _ {B : Type 0} {P : History → Event → Type 0} {S : Type 0} {Q : B → History → Type 0} where
  pub Safe-requiring :
      (b : Bool) (g : Unit → Job B) (h : History)
      → (b ≡ true → Safe P S (g tt) Q h)
      → Safe P S (refuse_unless b >>= g) Q h
  unfolding ◌>>=◌
  Safe-requiring true g h s =
      let r = s refl in record { emitted = r.emitted; returned = r.returned }
  Safe-requiring false g h s = record { emitted = nothing; returned = tt }

  pub Safe-failing :
      (b : Bool) (g : Unit → Job B) (h : History)
      → (b ≡ false → Safe P S (g tt) Q h)
      → Safe P S (fail_if b >>= g) Q h
  unfolding ◌>>=◌
  Safe-failing true g h s = record { emitted = nothing; returned = tt }
  Safe-failing false g h s = let r = s refl in record { emitted = r.emitted; returned = r.returned }

  pub Safe-emitting :
      (e : Event) (g : Unit → Job B) (h : History)
      → P h e
      → Safe P S (g tt) Q (e ∷ h)
      → Safe P S (emit e >>= g) Q h
  unfolding ◌>>=◌
  Safe-emitting e g h p s = record {
    emitted = Emitted-trans h (e ∷ h) _ (one_more nothing p) s.emitted;
    returned = s.returned;
  }

  -- A call of the host.
  pub Safe-calling :
      (m : Machine) (name : Text) (args : List Text) (g : Text × Bool → Job B) (h : History)
      → P h (ran name args)
      → Safe P S (g (m.run h name args)) Q (ran name args ∷ h)
      → Safe P S (call m name args >>= g) Q h
  unfolding ◌>>=◌ call
  Safe-calling m name args g h p s = record {
    emitted = Emitted-trans h (ran name args ∷ h) _ (one_more nothing p) s.emitted;
    returned = s.returned;
  }

module _ {P : History → Event → Type 0} {S : Type 0} where
  pub Safe-fail_if : (b : Bool) (h : History) → Safe P S (fail_if b) Anything h
  Safe-fail_if true h = Safe-fail h
  Safe-fail_if false h = Safe-pure tt h tt

  pub Safe-required :
      {Q : Unit {0} → History → Type 0} (b : Bool) (h : History)
      → (b ≡ true → Q tt h)
      → Safe P S (refuse_unless b) Q h
  Safe-required true h q = Safe-pure tt h (q refl)
  Safe-required false h q = Safe-refuse h

  -- A job of which no result is needed.
  pub Safe-forget :
      {A : Type 0} (Q : A → History → Type 0) (m : Job A) (h : History)
      → Safe P S m Q h
      → Safe P S m Anything h
  Safe-forget {A} Q m h s = record { emitted = s.emitted; returned = each (m h).0 s.returned }
    where
      each : (r : Reply A) → Returned S Q r (m h).1 → Returned S Anything r (m h).1
      each (ok a) q = tt
      each refused q = tt
      each failed q = tt
      each stuck q = q

  pub Safe-run_command :
      (m : Machine) (name : Text) (args : List Text) (h : History)
      → P h (ran name args)
      → Safe P S (run_command m name args) Anything h
  unfolding run_command
  Safe-run_command m name args h p =
      let (out, bad) = m.run h name args in
      Safe-calling m name args _ h p
        (Safe-failing bad _ (ran name args ∷ h) λ b. (Safe-pure out (ran name args ∷ h) tt))

  -- A job whose last step is a command.
  pub Safe-running :
      (m : Machine) (name : Text) (args : List Text) (h : History)
      → P h (ran name args)
      → Safe P S (run_command m name args >> pure tt) Anything h
  Safe-running m name args h p =
      Safe-bind Anything (run_command m name args) _ h (Safe-run_command m name args h p)
        (λ out k q. Safe-pure tt k tt)

  -- What happened before a job happened before its end.
  pub Safe-after :
      {A : Type 0} {Q : A → History → Type 0} (m : Job A) (e : Event) (h : History)
      → Happened e h
      → Safe P S m Q h
      → Safe P S m (λ a k. Happened e k) h
  Safe-after {A} {Q} m e h i s = record {
    emitted = s.emitted;
    returned = each (m h).0 (Happened-Emitted e h (m h).1 i s.emitted) s.returned;
  }
    where
      each :
          (r : Reply A)
          → Happened e (m h).1
          → Returned S Q r (m h).1
          → Returned S (λ a k. Happened e k) r (m h).1
      each (ok a) j q = j
      each refused j q = tt
      each failed j q = tt
      each stuck j q = q
