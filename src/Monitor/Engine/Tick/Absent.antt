-- ===== src/Monitor/Engine/Tick/Absent.antt =====
-- Which targets `retireAbsent` closes, and which nodes a tick leaves alone.
use rootmote_agent.Prelude.{
  ◌≡◌, refl, ◌∙◌, ap, Bool, true, false, ◌&&◌, ◌||◌, not, some, List, [], ◌∷◌, map, Text, eqb_iff,
  text_beq, text_beq_iff, text_eq, if◌then◌else◌, arith, Bool-cases, inl, inr, ◌⊎◌,
}
use rootmote_agent.Prelude.Sort.{insert_text, sort_texts}
use rootmote_agent.Prelude.Maps.{Map, lookup, lookup-insert}
use rootmote_agent.Monitor.State.{Time, in_episode, Kind, MonitorState, Observation, key}
use rootmote_agent.Monitor.Keys.{
  trim_prefix, key_prefix, has_prefix-key, trim_prefix-key, has_prefix-append,
}
use rootmote_agent.Monitor.Registry.{resolve}
use rootmote_agent.Monitor.Engine.{Engine, Faults, process, muted_state}
use rootmote_agent.Monitor.Engine.Process.{lookup-process}
use rootmote_agent.Monitor.Engine.Tick.{
  is_reported, gone_targets, absence, Calls, process_gone, process_observed, Evaluator,
  run_evaluator,
}

abbrev pub episode_entry : Text → Map Text MonitorState → Bool
episode_entry k [] = false
episode_entry k ((j, rt) ∷ states) = (text_beq j k && in_episode rt.state) || episode_entry k states

is_reported-insert_text :
    (t s : Text) (ts : List Text)
    → is_reported t (insert_text s ts) ≡ (text_beq s t || is_reported t ts)
unfolding insert_text
is_reported-insert_text t s [] = refl
is_reported-insert_text t s (u ∷ ts) = ground (arith, is_reported-insert_text t s ts)

is_reported-sort_texts :
    (t : Text) (ts : List Text) → is_reported t (sort_texts ts) ≡ is_reported t ts
unfolding sort_texts
is_reported-sort_texts t [] = refl
is_reported-sort_texts t (s ∷ ts) =
    is_reported-insert_text t s (sort_texts ts)
    ∙ ap (λ b. text_beq s t || b) (is_reported-sort_texts t ts)

-- `retireAbsent` acts on a target exactly if the states hold its key with a node in an episode and
-- the evaluator did not report it.
pub is_reported-gone_targets :
    (kind : Kind) (reported : List Text) (states : Map Text MonitorState) (t : Text)
    → is_reported t (gone_targets kind reported states)
      ≡ (not (is_reported t reported) && episode_entry (key kind t) states)
unfolding gone_targets
is_reported-gone_targets kind reported [] t = ground arith
is_reported-gone_targets kind reported ((k, rt) ∷ states) t = ground (
  arith,
  is_reported-gone_targets kind reported states t,
  text_beq_iff k (key kind t),
  text_beq_iff (trim_prefix k (key_prefix kind)) t,
  has_prefix-key kind t,
  trim_prefix-key kind t,
  has_prefix-append k kind,
)

and_false : (b : Bool) → (b && false) ≡ false
and_false true = refl
and_false false = refl

or-eq_false : (a b : Bool) → (a || b) ≡ false → (a ≡ false) × (b ≡ false)
or-eq_false a b h = ground arith

process_disabled_frame :
    (f : Faults) (now : Time) (kind : Kind) (obs : Observation) (m : Engine) (j : Text)
    → text_beq (key kind obs.target) j ≡ false
    → (resolve m.defs kind obs.target).1 ≡ false
    → lookup j (process f now kind obs m).states ≡ lookup j m.states
unfolding process
process_disabled_frame f now kind obs m j ne off =
    let k = key kind obs.target in
    rw off (ground (arith, lookup-insert k j (muted_state k now) m.states))

-- `process` touches no node but that of its observation's key.
process_frame :
    (f : Faults) (now : Time) (kind : Kind) (obs : Observation) (m : Engine) (j : Text)
    → text_beq (key kind obs.target) j ≡ false
    → lookup j (process f now kind obs m).states ≡ lookup j m.states
process_frame f now kind obs m j ne = elim (Bool-cases (resolve m.defs kind obs.target).1) [
  | inl on ↦ lookup-process f now kind obs m j on ∙ (rw (ne, and_false) refl)
  | inr off ↦ process_disabled_frame f now kind obs m j ne off
]

key_ne :
    (kind : Kind) (s t : Text) → text_beq s t ≡ false → text_beq (key kind s) (key kind t) ≡ false
unfolding key
key_ne [] s t h = ground (arith, eqb_iff b':' b':')
key_ne (c ∷ kind) s t h = ground (arith, key_ne kind s t h, eqb_iff c c)

process_gone_frame :
    (calls : Calls) (kind : Kind) (gone : List Text) (m : Engine) (t : Text)
    → is_reported t gone ≡ false
    → lookup (key kind t) (process_gone calls kind gone m).states ≡ lookup (key kind t) m.states
unfolding process_gone
process_gone_frame calls kind [] m t h = refl
process_gone_frame calls kind (s ∷ gone) m t h =
    let (ne, rest) = or-eq_false (text_beq s t) (is_reported t gone) h in
    process_gone_frame calls kind gone _ t rest
    ∙ process_frame _ _ kind (absence kind s) m (key kind t) (key_ne kind s t ne)

-- The observations of the target are all held ones.
abbrev pub OnlyHeld : Text → List Observation → Type 0
OnlyHeld t [] = Unit
OnlyHeld t (o ∷ obs) = (text_beq o.target t ≡ true → o.hold ≡ true) × OnlyHeld t obs

process_observed_frame :
    (calls : Calls) (kind : Kind) (obs : List Observation) (m : Engine) (t : Text)
    → OnlyHeld t obs
    → lookup (key kind t) (process_observed calls kind obs m).states ≡ lookup (key kind t) m.states
unfolding process_observed
process_observed_frame calls kind [] m t h = refl
process_observed_frame calls kind (o ∷ obs) m t h =
    process_observed_frame calls kind obs _ t h.1
    ∙ one (Bool-cases o.hold) (Bool-cases (text_beq o.target t))
  where
    one :
        (o.hold ≡ true) ⊎ (o.hold ≡ false)
        → (text_beq o.target t ≡ true) ⊎ (text_beq o.target t ≡ false)
        → lookup
            (key kind t)
            (if o.hold then m else process (calls o.target).0 (calls o.target).1 kind o m).states
          ≡ lookup (key kind t) m.states
    one (inl y) _ = rw y
    one (inr n) (inl e) = absurd (cc (h.0 e))
    one (inr n) (inr ne) =
        simp n (process_frame _ _ kind o m (key kind t) (key_ne kind o.target t ne))

-- A target that an evaluator reports, and only as held, keeps its node through the whole call:
-- what could not be read neither fails nor recovers nor is retired.
pub run_evaluator-held :
    (ev : Evaluator) (obs : List Observation) (m : Engine) (t : Text)
    → ev.evaluate m ≡ some obs
    → OnlyHeld t obs
    → is_reported t (map (λ o. o.target) obs) ≡ true
    → lookup (key ev.kind t) (run_evaluator ev m).states ≡ lookup (key ev.kind t) m.states
unfolding run_evaluator
run_evaluator-held ev obs m t e held reported =
    let m' = process_observed ev.observed_calls ev.kind obs m in
    rw e (
      process_gone_frame ev.absent_calls ev.kind _ m' t (
        is_reported-sort_texts t _
        ∙ is_reported-gone_targets ev.kind (map (λ o. o.target) obs) m'.states t
        ∙ rw reported)
      ∙ process_observed_frame ev.observed_calls ev.kind obs m t held)
