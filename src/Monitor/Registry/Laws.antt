-- ===== src/Monitor/Registry/Laws.antt =====
-- `Resolve` of definitions.go against a search of the lists that the maps were built from.
use rootmote_agent.Prelude.{
  ◌≡◌, refl, Bool, true, ◌&&◌, Option, none, some, List, [], ◌∷◌, Text, text_eq, if◌then◌else◌, All,
  arith, text_beq, text_beq_iff,
}
use rootmote_agent.Prelude.Maps.{Map, lookup, insert, lookup-insert}
use rootmote_agent.Monitor.State.{Kind, Definition, key, wildcard_target}
use rootmote_agent.Monitor.Keys.{IsPlain, key_beq}
use rootmote_agent.Monitor.Registry.{
  index_into, new_definition_set, set_synced, resolve, or_else, retarget, with_flag,
}

abbrev pub last_match : (Definition → Bool) → List Definition → Option Definition
last_match p [] = none
last_match p (def ∷ defs) = or_else (last_match p defs) (if p def then some def else none)

abbrev pub applies : Kind → Text → Definition → Bool
applies kind target def = text_beq def.kind kind && text_beq def.target target

abbrev pub ArePlain : List Definition → Type 0
ArePlain = All (λ def. IsPlain def.kind)

-- What applies: the last exact one of the sync, the last wildcard of the sync, then the defaults
-- in the same order. A wildcard takes the target that was asked for.
abbrev pub effective : List Definition → List Definition → Kind → Text → Option Definition
effective defaults synced kind target = or_else (last_match (applies kind target) synced) (
    or_else (retarget target (last_match (applies kind wildcard_target) synced)) (
      or_else (last_match (applies kind target) defaults)
        (retarget target (last_match (applies kind wildcard_target) defaults))))

lookup-index_into :
    (kind : Kind) (target : Text) (defs : List Definition) (m : Map Text Definition)
    → IsPlain kind
    → ArePlain defs
    → lookup (key kind target) (index_into m defs)
      ≡ or_else (last_match (applies kind target) defs) (lookup (key kind target) m)
unfolding index_into
lookup-index_into kind target [] m p ps = refl
lookup-index_into kind target (def ∷ defs) m p ps = ground (
  arith,
  lookup-index_into kind target defs (insert (key def.kind def.target) def m) p ps.1,
  lookup-insert (key def.kind def.target) (key kind target) def m,
  key_beq def.kind kind def.target target ps.0 p,
)

pub lookup-index :
    (kind : Kind) (target : Text) (defs : List Definition)
    → IsPlain kind
    → ArePlain defs
    → lookup (key kind target) (index_into [] defs) ≡ last_match (applies kind target) defs
unfolding lookup
lookup-index kind target defs p ps = ground (arith, lookup-index_into kind target defs [] p ps)

-- `Resolve` on maps keyed by "kind:target" is the search by kind and target, where no kind has a
-- colon: a definition of the sync wins over a default, and an exact one over a wildcard of its own
-- list.
pub resolve-effective :
    (defaults synced : List Definition) (kind : Kind) (target : Text)
    → IsPlain kind
    → ArePlain defaults
    → ArePlain synced
    → resolve (set_synced (new_definition_set defaults) synced) kind target
      ≡ with_flag (effective defaults synced kind target)
unfolding resolve set_synced new_definition_set
resolve-effective defaults synced kind target p pd ps = rw (
  lookup-index kind target synced p ps,
  lookup-index kind wildcard_target synced p ps,
  lookup-index kind target defaults p pd,
  lookup-index kind wildcard_target defaults p pd,
)

abbrev Fits : Kind → Text → Option Definition → Type 0
Fits kind target none = Unit
Fits kind target (some def) = (def.kind ≡ kind) × (def.target ≡ target)

Fits-or_else :
    (kind : Kind) (target : Text) (a b : Option Definition)
    → Fits kind target a
    → Fits kind target b
    → Fits kind target (or_else a b)
Fits-or_else kind target none b fa fb = fb
Fits-or_else kind target (some def) b fa fb = fa

Fits-last_match :
    (kind : Kind) (target : Text) (defs : List Definition)
    → Fits kind target (last_match (applies kind target) defs)
Fits-last_match kind target [] = tt
Fits-last_match kind target (def ∷ defs) =
    Fits-or_else kind target _ _ (Fits-last_match kind target defs)
      (ground (arith, text_beq_iff def.kind kind, text_beq_iff def.target target))

Fits-retarget :
    (kind : Kind) (target target' : Text) (o : Option Definition)
    → Fits kind target' o
    → Fits kind target (retarget target o)
Fits-retarget kind target target' none f = tt
Fits-retarget kind target target' (some def) f = (f.0, refl)

Fits-effective :
    (defaults synced : List Definition) (kind : Kind) (target : Text)
    → Fits kind target (effective defaults synced kind target)
Fits-effective defaults synced kind target =
    Fits-or_else kind target _ _ (Fits-last_match kind target synced) (
      Fits-or_else kind target _ _
        (Fits-retarget kind target wildcard_target _ (Fits-last_match kind wildcard_target synced))
        (Fits-or_else kind target _ _ (Fits-last_match kind target defaults) (
          Fits-retarget kind target wildcard_target _
            (Fits-last_match kind wildcard_target defaults))))

Fits-with_flag :
    (kind : Kind) (target : Text) (o : Option Definition)
    → Fits kind target o
    → (with_flag o).1 ≡ true
    → ((with_flag o).0.kind ≡ kind) × ((with_flag o).0.target ≡ target)
Fits-with_flag kind target none f h = cc
Fits-with_flag kind target (some def) f h = f

-- A definition that `Resolve` returns as enabled is of the kind and for the target asked for,
-- where no kind has a colon.
pub resolve-enabled :
    (defaults synced : List Definition) (kind : Kind) (target : Text)
    → IsPlain kind
    → ArePlain defaults
    → ArePlain synced
    → (resolve (set_synced (new_definition_set defaults) synced) kind target).1 ≡ true
    → ((resolve (set_synced (new_definition_set defaults) synced) kind target).0.kind ≡ kind)
      × ((resolve (set_synced (new_definition_set defaults) synced) kind target).0.target ≡ target)
resolve-enabled defaults synced kind target p pd ps =
    rw (resolve-effective defaults synced kind target p pd ps)
      (Fits-with_flag kind target _ (Fits-effective defaults synced kind target))
