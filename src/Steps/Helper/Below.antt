-- ===== src/Steps/Helper/Below.antt =====
-- The processes that `process.stop` of internal/steps/helper.go leaves alone.
use rootmote_agent.Prelude.{
  ℕ, zero, suc, ◌≡◌, ◌⊎◌, ◌↔◌, inl, inr, refl, sym, Bool, true, false, some, List, [], ◌∷◌, ◌++◌,
  eqb, if◌then◌else◌, arith,
}
use mathlib.Core.Path.{subst}
use rootmote_agent.Steps.Helper.Descent.{children}
use rootmote_agent.Steps.Helper.Processes.{descends}

-- One of the elements of a list has the property.
pub data Any (P : ℕ → Type 0) : List ℕ → Type 0 where
  this : {p : ℕ} {ps : List ℕ} → P p → Any P (p ∷ ps)
  other : {p : ℕ} {ps : List ℕ} → Any P ps → Any P (p ∷ ps)

Any-append-left : (P : ℕ → Type 0) (xs ys : List ℕ) → Any P xs → Any P (xs ++ ys)
Any-append-left P [] ys a = elim a [ ]
Any-append-left P (x ∷ xs) ys (this p) = this p
Any-append-left P (x ∷ xs) ys (other a) = other (Any-append-left P xs ys a)

Any-append-right : (P : ℕ → Type 0) (xs ys : List ℕ) → Any P ys → Any P (xs ++ ys)
Any-append-right P [] ys a = a
Any-append-right P (x ∷ xs) ys a = other (Any-append-right P xs ys a)

Any-append-cases : (P : ℕ → Type 0) (xs ys : List ℕ) → Any P (xs ++ ys) → Any P xs ⊎ Any P ys
Any-append-cases P [] ys a = inr a
Any-append-cases P (x ∷ xs) ys (this p) = inl (this p)
Any-append-cases P (x ∷ xs) ys (other a) = elim (Any-append-cases P xs ys a) [
  | inl b ↦ inl (other b)
  | inr b ↦ inr b
]

Any-at : (P : ℕ → Type 0) (p : ℕ) (xs : List ℕ) → Any (λ x. x ≡ p) xs → P p → Any P xs
Any-at P p [] a h = elim a [ ]
Any-at P p (x ∷ xs) (this e) h = this (subst P (sym e) h)
Any-at P p (x ∷ xs) (other a) h = other (Any-at P p xs a h)

Any-some : (P : ℕ → Type 0) (xs : List ℕ) → Any P xs → (p : ℕ) × Any (λ x. x ≡ p) xs × P p
Any-some P [] a = elim a [ ]
Any-some P (x ∷ xs) (this h) = (x, this refl, h)
Any-some P (x ∷ xs) (other a) = let (p, at, h) = Any-some P xs a in (p, other at, h)

module _ (parent : ℕ → ℕ) (pids : List ℕ) (pid : ℕ) where
  -- The process is the one itself, or below one of its children.
  pub data Below : ℕ → Type 0 where
    itself : Below pid
    down : (c p : ℕ) → Any (λ x. x ≡ p) (children parent pids c) → Below p → Below c

  Below-cases : (c : ℕ) → Below c → (c ≡ pid) ⊎ Any Below (children parent pids c)
  Below-cases c itself = inl refl
  Below-cases c (down _ p at b) = inr (Any-at Below p (children parent pids c) at b)

  Below-children : (c : ℕ) → Any Below (children parent pids c) → Below c
  Below-children c a = let (p, at, b) = Any-some Below (children parent pids c) a in down c p at b

  -- Where the search answers, it answers whether the process is below one of the queue.
  pub descends-Below :
      (rounds : ℕ) (queue : List ℕ) (b : Bool)
      → descends rounds parent pids pid queue ≡ some b
      → (b ≡ true) ↔ Any Below queue
  unfolding descends
  descends-Below zero queue b h = absurd (ground (arith, h))
  descends-Below (suc rounds) [] b h = (λ e. absurd (ground (arith, h, e)), λ a. elim a [ ])
  descends-Below (suc rounds) (c ∷ queue) b h =
      by_test (eqb c pid) refl h (descends-Below rounds (queue ++ children parent pids c) b)
    where
      by_test :
          (t : Bool)
          → eqb c pid ≡ t
          → (if t
              then some true
              else descends rounds parent pids pid (queue ++ children parent pids c))
            ≡ some b
          → (descends rounds parent pids pid (queue ++ children parent pids c) ≡ some b
              → (b ≡ true) ↔ Any Below (queue ++ children parent pids c))
          → (b ≡ true) ↔ Any Below (c ∷ queue)
      by_test true e g ih =
          let same : pid ≡ c = ground (arith, e) in
          (λ _. this (subst Below same itself), λ a. ground (arith, g))
      by_test false e g ih =
          let (to, from) = ih g in
          (
            λ y. moved_up (Any-append-cases Below queue (children parent pids c) (to y)),
            λ a. from (moved_down a),
          )
        where
          moved_up : Any Below queue ⊎ Any Below (children parent pids c) → Any Below (c ∷ queue)
          moved_up (inl a) = other a
          moved_up (inr a) = this (Below-children c a)

          moved_down : Any Below (c ∷ queue) → Any Below (queue ++ children parent pids c)
          moved_down (other a) = Any-append-left Below queue (children parent pids c) a
          moved_down (this x) = elim (Below-cases c x) [
            | inl same ↦ absurd (ground (arith, same, e))
            | inr a ↦ Any-append-right Below queue (children parent pids c) a
          ]
