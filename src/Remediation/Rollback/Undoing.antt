-- ===== src/Remediation/Rollback/Undoing.antt =====
-- The steps of a rollback undo the steps that ran (internal/remediation/remediation.go).
use rootmote_agent.Prelude.{
  ◌≡◌, refl, sym, ap, ◌∙◌, Bool, true, false, not, Option, none, some, List, [], ◌∷◌, ◌++◌, map,
  keep, if◌then◌else◌, arith, All, All-append,
}
use mathlib.Core.Path.{subst}
use mathlib.Core.List.{reverse, reverse-cons, reverse-append, append_assoc}
use rootmote_agent.Runbook.{Step}
use rootmote_agent.Steps.Params.{Params}
use rootmote_agent.Steps.Catalog.{
  StepId, service_start, service_stop, firewall_allow, firewall_remove, undo, undo_of, is_listed,
}
use rootmote_agent.Remediation.Rollback.{
  undoable, has_undo, inverse, invert_step, invert_loop, invert_steps,
}

-- The undoing step has the step itself as its undoing.
undo_of-twice :
    (k l : StepId) (p q : Params) → undo_of k p ≡ some (l, q) → undo_of l q ≡ some (k, p)
unfolding undo_of is_listed undo
undo_of-twice service_start l p q h = ground (arith)
undo_of-twice service_stop l p q h = ground (arith)
undo_of-twice firewall_allow l p q h = ground (arith)
undo_of-twice firewall_remove l p q h = ground (arith)
undo_of-twice _ l p q h = ground (arith)

-- The loop on one list after another.
invert_loop-append :
    (xs ys : List Step) (d : List Step × List Step)
    → invert_loop (xs ++ ys) d ≡ invert_loop ys (invert_loop xs d)
unfolding invert_loop
invert_loop-append [] ys d = refl
invert_loop-append (x ∷ xs) ys d =
    invert_loop-append xs ys (invert_step x (undo_of x.kind x.params) d)

invert_steps-cons :
    (s : Step) (list : List Step)
    → invert_steps (s ∷ list) ≡ invert_step s (undo_of s.kind s.params) (invert_steps list)
unfolding invert_steps invert_loop
invert_steps-cons s list =
    ap (λ l. invert_loop l ([], [])) (reverse-cons s list)
    ∙ invert_loop-append (reverse list) (s ∷ []) ([], [])

-- The steps that have no undoing are listed, in the order of the run.
irreversible-keep :
    (list : List Step) → (invert_steps list).1 ≡ keep (λ s. not (undoable s.kind s.params)) list
unfolding undoable
irreversible-keep [] = unfold invert_steps invert_loop in refl
irreversible-keep (s ∷ list) =
    ap (λ d. d.1) (invert_steps-cons s list)
    ∙ added (irreversible-keep list) (undo_of s.kind s.params)
  where
    added :
        (invert_steps list).1 ≡ keep (λ t. not (undoable t.kind t.params)) list
        → (o : Option (StepId × Params))
        → (invert_step s o (invert_steps list)).1 ≡ (
            if not (has_undo o)
            then s ∷ keep (λ t. not (undoable t.kind t.params)) list
            else keep (λ t. not (undoable t.kind t.params)) list)
    added ih none = ap (λ l. s ∷ l) ih
    added ih (some u) = ih

-- What the loop had collected stays in front, and the steps that it lists apart do not matter.
invert_loop-front :
    (l a b c d : List Step) → (invert_loop l (a ++ b, c)).0 ≡ a ++ (invert_loop l (b, d)).0
unfolding invert_loop
invert_loop-front [] a b c d = refl
invert_loop-front (s ∷ l) a b c d = split (undo_of s.kind s.params) (invert_loop-front l a)
  where
    split :
        (o : Option (StepId × Params))
        → ((b c d : List Step) → (invert_loop l (a ++ b, c)).0 ≡ a ++ (invert_loop l (b, d)).0)
        → (invert_loop l (invert_step s o (a ++ b, c))).0
          ≡ a ++ (invert_loop l (invert_step s o (b, d))).0
    split none ih = ih b (s ∷ c) (s ∷ d)
    split (some u) ih =
        ap (λ x. (invert_loop l (x, c)).0) (append_assoc a b (inverse s u ∷ []))
        ∙ ih (b ++ (inverse s u ∷ [])) c d

-- The last step is undone first.
invert_steps-snoc :
    (l : List Step) (s : Step) (u : StepId × Params)
    → undo_of s.kind s.params ≡ some u
    → (invert_steps (l ++ (s ∷ []))).0 ≡ inverse s u ∷ (invert_steps l).0
unfolding invert_steps invert_loop
invert_steps-snoc l s u h =
    ap (λ x. (invert_loop x ([], [])).0) (reverse-append l (s ∷ []))
    ∙ ap (λ o. (invert_loop (reverse l) (invert_step s o ([], []))).0) h
    ∙ invert_loop-front (reverse l) (inverse s u ∷ []) [] [] []

abbrev pub action : Step → StepId × Params
action s = (s.kind, s.params)

-- What undoes the undoing steps is, in order, the actions of the steps that have an undoing.
twice-keep :
    (list : List Step)
    → map action (invert_steps (invert_steps list).0).0
      ≡ map action (keep (λ s. undoable s.kind s.params) list)
unfolding undoable inverse
twice-keep [] = unfold invert_steps invert_loop in refl
twice-keep (s ∷ list) =
    ap (λ d. map action (invert_steps d.0).0) (invert_steps-cons s list)
    ∙ added (undo_of s.kind s.params) refl (twice-keep list)
  where
    kept : List (StepId × Params)
    kept = map action (keep (λ t. undoable t.kind t.params) list)

    added :
        (o : Option (StepId × Params))
        → undo_of s.kind s.params ≡ o
        → map action (invert_steps (invert_steps list).0).0 ≡ kept
        → map action (invert_steps (invert_step s o (invert_steps list)).0).0
          ≡ map action (
              if has_undo o
              then s ∷ keep (λ t. undoable t.kind t.params) list
              else keep (λ t. undoable t.kind t.params) list)
    added none h ih = ih
    added (some (k, p)) h ih =
        ap (map action) (
          invert_steps-snoc (invert_steps list).0 (inverse s (k, p)) (s.kind, s.params)
            (undo_of-twice s.kind k s.params p h))
        ∙ ap (λ x. action s ∷ x) ih

-- Every step of a rollback has an undoing.
inverted-undoable :
    (list : List Step) → All (λ s. undoable s.kind s.params ≡ true) (invert_steps list).0
unfolding undoable inverse
inverted-undoable [] = unfold invert_steps invert_loop in tt
inverted-undoable (s ∷ list) =
    subst (λ d. All (λ t. undoable t.kind t.params ≡ true) d.0) (sym (invert_steps-cons s list))
      (added (undo_of s.kind s.params) refl (inverted-undoable list))
  where
    added :
        (o : Option (StepId × Params))
        → undo_of s.kind s.params ≡ o
        → All (λ t. undoable t.kind t.params ≡ true) (invert_steps list).0
        → All (λ t. undoable t.kind t.params ≡ true) (invert_step s o (invert_steps list)).0
    added none h ih = ih
    added (some (k, p)) h ih =
        All-append (λ t. undoable t.kind t.params ≡ true) (invert_steps list).0
          (inverse s (k, p) ∷ []) ih (ap has_undo (undo_of-twice s.kind k s.params p h), tt)

none_kept :
    (list : List Step)
    → All (λ s. undoable s.kind s.params ≡ true) list
    → keep (λ s. not (undoable s.kind s.params)) list ≡ []
none_kept [] all = refl
none_kept (s ∷ list) (first, others) = rw first (none_kept list others)

keep-same :
    (p q : Step → Bool) → ((s : Step) → p s ≡ q s) → (list : List Step) → keep p list ≡ keep q list
keep-same p q same [] = refl
keep-same p q same (s ∷ list) = rw (same s) (rw (keep-same p q same list) refl)

-- A start is undone by a stop, an opened port by closing it, and the other way around.
pub data Opposite : StepId → StepId → Type 0 where
  start_stop : Opposite service_start service_stop
  stop_start : Opposite service_stop service_start
  allow_remove : Opposite firewall_allow firewall_remove
  remove_allow : Opposite firewall_remove firewall_allow

abbrev pub has_opposite : StepId → Bool
has_opposite service_start = true
has_opposite service_stop = true
has_opposite firewall_allow = true
has_opposite firewall_remove = true
has_opposite _ = false

-- The second step does the opposite of the first, to the same unit or port.
abbrev pub Reverts : Step → Step → Type 0
Reverts s r = Opposite s.kind r.kind × (r.params ≡ s.params)

-- The steps of the second list revert those of the first, one by one.
abbrev pub AllReverted : List Step → List Step → Type 0
AllReverted [] [] = Unit
AllReverted [] (r ∷ rs) = ⊥
AllReverted (s ∷ ss) [] = ⊥
AllReverted (s ∷ ss) (r ∷ rs) = Reverts s r × AllReverted ss rs

undo_of-Opposite :
    (k l : StepId) (p q : Params) → undo_of k p ≡ some (l, q) → Opposite k l × (q ≡ p)
unfolding undo_of is_listed undo
undo_of-Opposite service_start l p q h =
    (subst (Opposite service_start) (ground (arith, h)) start_stop, ground (arith, h))
undo_of-Opposite service_stop l p q h =
    (subst (Opposite service_stop) (ground (arith, h)) stop_start, ground (arith, h))
undo_of-Opposite firewall_allow l p q h =
    (subst (Opposite firewall_allow) (ground (arith, h)) allow_remove, ground (arith, h))
undo_of-Opposite firewall_remove l p q h =
    (subst (Opposite firewall_remove) (ground (arith, h)) remove_allow, ground (arith, h))
undo_of-Opposite _ l p q h = absurd (ground (arith, h))

undo_of-has_opposite : (k : StepId) (p : Params) → has_undo (undo_of k p) ≡ has_opposite k
unfolding undo_of is_listed undo
undo_of-has_opposite service_start p = refl
undo_of-has_opposite service_stop p = refl
undo_of-has_opposite firewall_allow p = refl
undo_of-has_opposite firewall_remove p = refl
undo_of-has_opposite _ p = refl

AllReverted-snoc :
    (ss rs : List Step) (s r : Step)
    → AllReverted ss rs
    → Reverts s r
    → AllReverted (ss ++ (s ∷ [])) (rs ++ (r ∷ []))
AllReverted-snoc [] [] s r a v = (v, tt)
AllReverted-snoc [] (x ∷ rs) s r a v = absurd a
AllReverted-snoc (x ∷ ss) [] s r a v = absurd a
AllReverted-snoc (x ∷ ss) (y ∷ rs) s r a v = (a.0, AllReverted-snoc ss rs s r a.1 v)

-- The steps of a rollback revert, the last one first, the steps that have an opposite.
pub invert_steps-AllReverted :
    (list : List Step)
    → AllReverted (reverse (keep (λ s. has_opposite s.kind) list)) (invert_steps list).0
unfolding inverse
invert_steps-AllReverted [] = unfold invert_steps invert_loop in tt
invert_steps-AllReverted (s ∷ list) =
    subst (AllReverted _) (sym (ap (λ d. d.0) (invert_steps-cons s list)))
      (added (undo_of s.kind s.params) refl (invert_steps-AllReverted list))
  where
    kept : List Step
    kept = keep (λ t. has_opposite t.kind) list

    added :
        (o : Option (StepId × Params))
        → undo_of s.kind s.params ≡ o
        → AllReverted (reverse kept) (invert_steps list).0
        → AllReverted
            (reverse (if has_opposite s.kind then s ∷ kept else kept))
            (invert_step s o (invert_steps list)).0
    added none h ih = rw (sym (undo_of-has_opposite s.kind s.params) ∙ ap has_undo h) ih
    added (some (k, p)) h ih = rw (sym (undo_of-has_opposite s.kind s.params) ∙ ap has_undo h) (
        subst (λ l. AllReverted l ((invert_steps list).0 ++ (inverse s (k, p) ∷ [])))
          (sym (reverse-cons s kept))
          (AllReverted-snoc (reverse kept) (invert_steps list).0 s (inverse s (k, p)) ih
            (undo_of-Opposite s.kind k s.params p h)))

-- A rollback of the steps that ran does the opposite, to the same unit or port, of each step that
-- starts or stops a service or opens or closes a port, the last one first; it lists all other steps
-- apart, in the order of the run; and undoing it again does, in the order of the run, what the former
-- steps did, and leaves none out.
pub invert_steps-invert_steps :
    (list : List Step)
    → AllReverted (reverse (keep (λ s. has_opposite s.kind) list)) (invert_steps list).0
      × ((invert_steps list).1 ≡ keep (λ s. not (has_opposite s.kind)) list)
      × (map action (invert_steps (invert_steps list).0).0
          ≡ map action (keep (λ s. has_opposite s.kind) list))
      × ((invert_steps (invert_steps list).0).1 ≡ [])
unfolding undoable
invert_steps-invert_steps list = (
  invert_steps-AllReverted list,
  irreversible-keep list
      ∙ keep-same (λ s. not (undoable s.kind s.params)) _
          (λ s. ap not (undo_of-has_opposite s.kind s.params)) list,
  twice-keep list
      ∙ ap (map action) (
          keep-same (λ s. undoable s.kind s.params) _ (λ s. undo_of-has_opposite s.kind s.params)
            list),
  irreversible-keep (invert_steps list).0
      ∙ none_kept (invert_steps list).0 (inverted-undoable list),
)
