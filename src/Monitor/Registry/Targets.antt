-- ===== src/Monitor/Registry/Targets.antt =====
-- `Targets` of definitions.go: the concrete targets of a kind, once each.
use rootmote_agent.Prelude.{
  ◌≡◌, refl, Bool, true, false, ◌&&◌, ◌||◌, not, List, [], ◌∷◌, ◌++◌, Text, text_eq, if◌then◌else◌,
  arith, text_beq, text_beq_iff, exists, Bool-cases, ◌⊎◌, inl, inr,
}
use rootmote_agent.Prelude.Maps.{Map}
use rootmote_agent.Monitor.State.{Kind, Definition, wildcard_target}
use rootmote_agent.Monitor.Registry.{DefinitionSet, targets, add_targets}

abbrev pub has_target : Text → List Text → Bool
has_target t = exists (λ s. text_beq s t)

-- The definition names the target itself, and is of the kind.
abbrev pub names_target : Kind → Text → Definition → Bool
names_target kind t def =
    text_beq def.kind kind && text_beq def.target t && not (text_beq t wildcard_target)

abbrev pub some_definition : (Definition → Bool) → Map Text Definition → Bool
some_definition p [] = false
some_definition p ((k, def) ∷ m) = p def || some_definition p m

-- No target stands twice in the list.
abbrev pub AreDistinct : List Text → Type 0
AreDistinct [] = Unit
AreDistinct (t ∷ ts) = (has_target t ts ≡ false) × AreDistinct ts

has_target-append :
    (t : Text) (xs ys : List Text) → has_target t (xs ++ ys) ≡ (has_target t xs || has_target t ys)
has_target-append t [] ys = refl
has_target-append t (x ∷ xs) ys = ground (arith, has_target-append t xs ys)

has_target-add_targets :
    (kind : Kind) (t : Text) (m : Map Text Definition) (out : List Text)
    → has_target t (add_targets kind out m)
      ≡ (has_target t out || some_definition (names_target kind t) m)
unfolding add_targets
has_target-add_targets kind t [] out = ground arith
has_target-add_targets kind t ((k, def) ∷ m) out = ground (
  arith,
  has_target-add_targets kind t m out,
  has_target-add_targets kind t m (out ++ (def.target ∷ [])),
  has_target-append t out (def.target ∷ []),
  text_beq_iff def.kind kind,
  text_beq_iff def.target wildcard_target,
  text_beq_iff def.target t,
  text_beq_iff t wildcard_target,
)

-- A target is listed exactly if a default or a synced definition of the kind names it, and it is
-- not the wildcard.
pub has_target-targets :
    (d : DefinitionSet) (kind : Kind) (t : Text)
    → has_target t (targets d kind) ≡ (
        some_definition (names_target kind t) d.defaults
        || some_definition (names_target kind t) d.synced)
unfolding targets
has_target-targets d kind t = rw (
  has_target-add_targets kind t d.synced (add_targets kind [] d.defaults),
  has_target-add_targets kind t d.defaults [],
)

AreDistinct-snoc :
    (xs : List Text) (t : Text)
    → AreDistinct xs
    → has_target t xs ≡ false
    → AreDistinct (xs ++ (t ∷ []))
AreDistinct-snoc [] t d n = ground arith
AreDistinct-snoc (x ∷ xs) t d n = ground (
  arith,
  AreDistinct-snoc xs t d.1,
  has_target-append x xs (t ∷ []),
  text_beq_iff x t,
  text_beq_iff t x,
)

add_targets-AreDistinct :
    (kind : Kind) (m : Map Text Definition) (out : List Text)
    → AreDistinct out
    → AreDistinct (add_targets kind out m)
unfolding add_targets
add_targets-AreDistinct kind [] out d = d
add_targets-AreDistinct kind ((k, def) ∷ m) out d =
    add_targets-AreDistinct kind m _ (step (Bool-cases skip))
  where
    skip : Bool
    skip =
        not (text_beq def.kind kind)
        || text_beq def.target wildcard_target
        || has_target def.target out

    step :
        (skip ≡ true) ⊎ (skip ≡ false)
        → AreDistinct (if skip then out else out ++ (def.target ∷ []))
    step (inl s) = rw s d
    step (inr s) = rw s (AreDistinct-snoc out def.target d (ground arith))

-- No target is listed twice.
pub targets-AreDistinct : (d : DefinitionSet) (kind : Kind) → AreDistinct (targets d kind)
unfolding targets
targets-AreDistinct d kind =
    add_targets-AreDistinct kind d.synced _ (add_targets-AreDistinct kind d.defaults [] tt)
