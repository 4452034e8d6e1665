-- ===== src/Steps/Helper/Descent.antt =====
-- The search below the agent in `process.stop` of internal/steps/helper.go: it ends.
use rootmote_agent.Prelude.{
  ℕ, zero, suc, ◌+◌, ◌<◌, ◌≤◌, ◌≡◌, refl, sym, ap, ◌∙◌, Bool, true, false, some, List, [], ◌∷◌,
  ◌++◌, keep, All, All-append, eqb, if◌then◌else◌, arith,
}
use mathlib.Core.Path.{subst}
use mathlib.Core.List.{append_assoc, append-nil}
use rootmote_agent.Steps.Helper.Processes.{descends}

module _ (parent : ℕ → ℕ) (pids : List ℕ) where
  abbrev pub children : ℕ → List ℕ
  children cur = keep (λ p. eqb (parent p) cur) pids

  all_children : List ℕ → List ℕ
  all_children [] = []
  all_children (c ∷ q) = children c ++ all_children q

  -- The search of the queue ends, in so many rounds or more.
  abbrev pub Ends : ℕ → List ℕ → Type 0
  Ends pid q = (n : ℕ) × (b : Bool) × ((r : ℕ) → n ≤ r → descends r parent pids pid q ≡ some b)

  module _ (pid : ℕ) where
    Ends-nil : Ends pid []
    unfolding descends
    Ends-nil = (1, false, nothing_left)
      where
        nothing_left : (r : ℕ) → 1 ≤ r → descends r parent pids pid [] ≡ some false
        nothing_left zero h = absurd (omega (arith, h))
        nothing_left (suc r) h = refl

    Ends-step : (c : ℕ) (q : List ℕ) → Ends pid (q ++ children c) → Ends pid (c ∷ q)
    unfolding descends
    Ends-step c q (n, b, e) = by_test (eqb c pid) refl
      where
        by_test : (t : Bool) → eqb c pid ≡ t → Ends pid (c ∷ q)
        by_test true h = (1, true, stopped)
          where
            stopped : (r : ℕ) → 1 ≤ r → descends r parent pids pid (c ∷ q) ≡ some true
            stopped zero l = absurd (omega (arith, l))
            stopped (suc r) l = rw h refl
        by_test false h = (suc n, b, went_on)
          where
            went_on : (r : ℕ) → suc n ≤ r → descends r parent pids pid (c ∷ q) ≡ some b
            went_on zero l = absurd (omega (arith, l))
            went_on (suc r) l = rw h (e r (omega (arith, l)))

    Ends-level : (q acc : List ℕ) → Ends pid (acc ++ all_children q) → Ends pid (q ++ acc)
    unfolding all_children
    Ends-level [] acc e = subst (Ends pid) (append-nil acc) e
    Ends-level (c ∷ q) acc e = Ends-step c (q ++ acc) (
        subst (Ends pid) (sym (append_assoc q acc (children c))) (
          Ends-level q (acc ++ children c)
            (subst (Ends pid) (sym (append_assoc acc (children c) (all_children q))) e)))

  -- Every process that has a parent here is above it in rank, and below a bound.
  abbrev pub IsRanked : (ℕ → ℕ) → ℕ → Type 0
  IsRanked rank bound = All (λ p. (rank (parent p) < rank p) × (rank p ≤ bound)) pids

  module _ (rank : ℕ → ℕ) (bound : ℕ) where
    abbrev High : ℕ → List ℕ → Type 0
    High d q = All (λ c. bound < rank c + d) q

    High-keep :
        (d c : ℕ) (ps : List ℕ)
        → All (λ p. (rank (parent p) < rank p) × (rank p ≤ bound)) ps
        → bound < rank c + suc d
        → High d (keep (λ p. eqb (parent p) c) ps)
    High-keep d c [] ranked h = tt
    High-keep d c (p ∷ ps) ((up, le), ranked) h =
        kept (eqb (parent p) c) refl (High-keep d c ps ranked h)
      where
        low : eqb (parent p) c ≡ true → bound < rank p + d
        low e =
            let same : parent p ≡ c = ground (arith, e) in
            let above : rank c < rank p = subst (λ x. rank x < rank p) same up in
            omega (arith, above, h)

        kept :
            (t : Bool)
            → eqb (parent p) c ≡ t
            → High d (keep (λ x. eqb (parent x) c) ps)
            → High d
                (if t then p ∷ keep (λ x. eqb (parent x) c) ps else keep (λ x. eqb (parent x) c) ps)
        kept true e rest = (low e, rest)
        kept false e rest = rest

    High-all_children :
        (d : ℕ) (q : List ℕ) → IsRanked rank bound → High (suc d) q → High d (all_children q)
    unfolding all_children
    High-all_children d [] ranked h = tt
    High-all_children d (c ∷ q) ranked (first, others) =
        All-append (λ x. bound < rank x + d) (children c) (all_children q)
          (High-keep d c pids ranked first) (High-all_children d q ranked others)

    nobody_higher :
        (c : ℕ) (ps : List ℕ)
        → All (λ p. (rank (parent p) < rank p) × (rank p ≤ bound)) ps
        → bound < rank c + 0
        → keep (λ p. eqb (parent p) c) ps ≡ []
    nobody_higher c [] ranked h = refl
    nobody_higher c (p ∷ ps) ((up, le), ranked) h =
        kept (eqb (parent p) c) refl (nobody_higher c ps ranked h)
      where
        kept :
            (t : Bool)
            → eqb (parent p) c ≡ t
            → keep (λ x. eqb (parent x) c) ps ≡ []
            → (if t then p ∷ keep (λ x. eqb (parent x) c) ps else keep (λ x. eqb (parent x) c) ps)
              ≡ []
        kept true e rest =
            let same : parent p ≡ c = ground (arith, e) in
            let above : rank c < rank p = subst (λ x. rank x < rank p) same up in
            absurd (omega (arith, above, h, le))
        kept false e rest = rest

    no_children : (q : List ℕ) → IsRanked rank bound → High 0 q → all_children q ≡ []
    unfolding all_children
    no_children [] ranked h = refl
    no_children (c ∷ q) ranked (first, others) =
        ap (λ x. x ++ all_children q) (nobody_higher c pids ranked first)
        ∙ no_children q ranked others

    High-Ends : (pid d : ℕ) (q : List ℕ) → IsRanked rank bound → High d q → Ends pid q
    High-Ends pid zero q ranked h =
        subst (Ends pid) (append-nil q)
          (Ends-level pid q [] (subst (Ends pid) (sym (no_children q ranked h)) (Ends-nil pid)))
    High-Ends pid (suc d) q ranked h = subst (Ends pid) (append-nil q) (
        Ends-level pid q []
          (High-Ends pid d (all_children q) ranked (High-all_children d q ranked h)))

    -- Where the parents form a forest of a bounded depth, the search from any process, for any
    -- process, ends: from some number of rounds on its answer is the same.
    pub descends-Ends : (pid start : ℕ) → IsRanked rank bound → Ends pid (start ∷ [])
    descends-Ends pid start ranked = High-Ends pid (suc bound) (start ∷ []) ranked (omega arith, tt)
