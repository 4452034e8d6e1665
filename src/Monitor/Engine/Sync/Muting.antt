-- ===== src/Monitor/Engine/Sync/Muting.antt =====
-- What a sync mutes, and that it mutes monitors that it leaves enabled.
use rootmote_agent.Prelude.{
  ◌≡◌, ◌≢◌, ◌∙◌, Bool, true, false, ◌&&◌, not, some, List, [], ◌∷◌, Text, text_beq, text_beq_iff,
  text_eq, if◌then◌else◌, exists, arith,
}
use rootmote_agent.Prelude.Maps.{Map, lookup, lookup-insert}
use rootmote_agent.Monitor.State.{Time, Definition, MonitorState, key, wildcard_target}
use rootmote_agent.Monitor.Keys.{has_prefix, key_prefix, has_prefix-key, IsPlain}
use rootmote_agent.Monitor.Registry.{resolve}
use rootmote_agent.Monitor.Registry.Laws.{lookup-index}
use rootmote_agent.Monitor.Engine.{Engine, muted_state}
use rootmote_agent.Monitor.Engine.Sync.{
  mute_prefix, mute_definition, mute_disabled, set_synced_definitions,
}

-- A disabled definition reaches the key: it is for it, or is a wildcard of its kind.
abbrev pub mutes : Text → Definition → Bool
mutes k def =
    not def.enabled
    && (if text_beq def.target wildcard_target
        then has_prefix k (key_prefix def.kind)
        else text_beq (key def.kind def.target) k)

lookup-mute_prefix :
    (k prefix : Text) (now : Time) (states : Map Text MonitorState) (rt : MonitorState)
    → lookup k states ≡ some rt
    → lookup k (mute_prefix prefix now states).0
      ≡ some (if has_prefix k prefix then muted_state k now else rt)
unfolding mute_prefix lookup
lookup-mute_prefix k prefix now [] rt e = absurd (ground arith)
lookup-mute_prefix k prefix now ((j, s) ∷ states) rt e =
    ground (arith, lookup-mute_prefix k prefix now states rt, text_beq_iff j k)

lookup-mute_definition :
    (k : Text) (now : Time) (def : Definition) (states : Map Text MonitorState) (rt : MonitorState)
    → lookup k states ≡ some rt
    → lookup k (mute_definition now def states).0
      ≡ some (if mutes k def then muted_state k now else rt)
unfolding mute_definition
lookup-mute_definition k now def states rt e = ground (
  arith,
  lookup-mute_prefix k (key_prefix def.kind) now states rt e,
  lookup-insert (key def.kind def.target) k (muted_state (key def.kind def.target) now) states,
  text_beq_iff (key def.kind def.target) k,
)

lookup-mute_disabled :
    (k : Text) (now : Time) (defs : List Definition) (states : Map Text MonitorState)
    (rt : MonitorState)
    → lookup k states ≡ some rt
    → lookup k (mute_disabled now defs states).0
      ≡ some (if exists (mutes k) defs then muted_state k now else rt)
unfolding mute_disabled
lookup-mute_disabled k now [] states rt e = e
lookup-mute_disabled k now (def ∷ defs) states rt e = ground (
  arith,
  lookup-mute_disabled k now defs (mute_definition now def states).0
      (if mutes k def then muted_state k now else rt)
      (lookup-mute_definition k now def states rt e),
)

-- A known node becomes the muted one exactly if some disabled definition of the sync is for its key
-- or is a wildcard of its kind; every other known node stays as it was.
pub lookup-set_synced_definitions :
    (done : Text → Bool) (now : Time) (defs : List Definition) (m : Engine) (k : Text)
    (rt : MonitorState)
    → lookup k m.states ≡ some rt
    → lookup k (set_synced_definitions done now defs m).states
      ≡ some (if exists (mutes k) defs then muted_state k now else rt)
unfolding set_synced_definitions
lookup-set_synced_definitions done now defs m k rt e = lookup-mute_disabled k now defs m.states rt e

-- A sync that turns a kind off by its wildcard mutes the node of a target that the same sync turns
-- on by name, although that monitor is enabled afterwards: an alert that it had open is forgotten.
pub sync_mutes_enabled :
    (done : Text → Bool) (now : Time) (exact wild : Definition) (m : Engine) (rt : MonitorState)
    → IsPlain exact.kind
    → exact.enabled ≡ true
    → exact.target ≢ wildcard_target
    → wild.enabled ≡ false
    → wild.target ≡ wildcard_target
    → wild.kind ≡ exact.kind
    → lookup (key exact.kind exact.target) m.states ≡ some rt
    → let k = key exact.kind exact.target in
      let m' = set_synced_definitions done now (exact ∷ wild ∷ []) m in
      (lookup k m'.states ≡ some (muted_state k now))
      × (resolve m'.defs exact.kind exact.target ≡ (exact, true))
unfolding set_synced_definitions resolve
sync_mutes_enabled done now exact wild m rt plain on named off star same known =
    let k = key exact.kind exact.target in
    let defs = exact ∷ wild ∷ [] in
    let plain' : IsPlain wild.kind = rw same plain in
    (
      lookup-mute_disabled k now defs m.states rt known
          ∙ ground (
            arith,
            has_prefix-key exact.kind exact.target,
            text_beq_iff wild.target wildcard_target,
          ),
      ground (
        arith,
        lookup-index exact.kind exact.target defs plain (plain, (plain', tt)),
        text_beq_iff wild.target exact.target,
        text_beq_iff exact.kind exact.kind,
        text_beq_iff exact.target exact.target,
      ),
    )
