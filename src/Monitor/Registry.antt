-- ===== src/Monitor/Registry.antt =====
-- internal/monitor/definitions.go: which definition applies to a kind and a target.
pub mod Laws
pub mod Targets
use rootmote_agent.Prelude.{
  Bool, true, false, ◌&&◌, ◌||◌, not, Option, none, some, List, [], ◌∷◌, ◌++◌, Text, ◌==◌, text_eq,
  if◌then◌else◌, exists,
}
use rootmote_agent.Prelude.Maps.{Map, lookup, insert}
use rootmote_agent.Monitor.State.{Kind, Definition, zero_definition, key, wildcard_target}

pub record DefinitionSet : Type 0 where
  pub defaults : Map Text Definition
  pub synced : Map Text Definition

-- `for _, def := range defs { m[key(def.Kind, def.Target)] = def }`
unfoldable pub index_into : Map Text Definition → List Definition → Map Text Definition
index_into m [] = m
index_into m (def ∷ defs) = index_into (insert (key def.kind def.target) def m) defs

unfoldable pub new_definition_set : List Definition → DefinitionSet
unfolding index_into
new_definition_set defaults = record { defaults = index_into [] defaults; synced = [] }

unfoldable pub set_synced : DefinitionSet → List Definition → DefinitionSet
unfolding index_into
set_synced d defs = record d { synced = index_into [] defs }

abbrev pub or_else {ℓ} : {A : Type ℓ} → Option A → Option A → Option A
or_else (some a) o = some a
or_else none o = o

abbrev pub retarget : Text → Option Definition → Option Definition
retarget target none = none
retarget target (some def) = some (record def { target = target })

unfoldable pub find_definition : DefinitionSet → Kind → Text → Option Definition
find_definition d kind target = or_else (lookup (key kind target) d.synced) (
    or_else (retarget target (lookup (key kind wildcard_target) d.synced)) (
      or_else (lookup (key kind target) d.defaults)
        (retarget target (lookup (key kind wildcard_target) d.defaults))))

-- What `Resolve` returns: the definition and its flag, or the zero definition and `false`.
abbrev pub with_flag : Option Definition → Definition × Bool
with_flag none = (zero_definition, false)
with_flag (some def) = (def, def.enabled)

unfoldable pub resolve : DefinitionSet → Kind → Text → Definition × Bool
unfolding find_definition
resolve d kind target = with_flag (find_definition d kind target)

-- `seen[t]` is membership in the list so far; the order of Go's map iteration is that of the list.
unfoldable pub add_targets : Kind → List Text → Map Text Definition → List Text
add_targets kind out [] = out
add_targets kind out ((k, def) ∷ m) =
    add_targets kind
      (if not (def.kind == kind)
          || def.target == wildcard_target
          || exists (λ t. t == def.target) out
        then out
        else out ++ (def.target ∷ []))
      m

unfoldable pub targets : DefinitionSet → Kind → List Text
unfolding add_targets
targets d kind = add_targets kind (add_targets kind [] d.defaults) d.synced
