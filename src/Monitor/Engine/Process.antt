-- ===== src/Monitor/Engine/Process.antt =====
-- `process` of internal/monitor/manager.go: which node it keeps, and what it does where a call
-- fails.
use rootmote_agent.Prelude.{
  ◌≡◌, refl, sym, ◌∙◌, ◌≢◌, inl, inr, Bool, true, false, ◌&&◌, ◌||◌, Option, none, some, Text,
  text_eq, text_beq, text_beq_iff, beq_refl, if◌then◌else◌, arith, Bool-cases, Option-cases,
}
use rootmote_agent.Prelude.Maps.{Map, lookup, lookup-insert}
use rootmote_agent.Store.Monitors.{Silence}
use rootmote_agent.Monitor.State.{Time, Kind, Definition, MonitorState, Observation, key}
use rootmote_agent.Monitor.Machine.{Transition, step_state}
use rootmote_agent.Monitor.Machine.Runs.{is_open}
use rootmote_agent.Monitor.Registry.{resolve}
use rootmote_agent.Watchtower.Queue.{QueueFile, enqueue_monitor_event}
use rootmote_agent.Monitor.Engine.{
  Engine, Faults, persist, process, emit, finish_step, send_event, after_enqueue, event_for,
  is_silenced, known_or_healthy, new_state, unmute, flush,
}

module _ (f : Faults) (k : Text) (kind : Kind) (obs : Observation) (def : Definition) (now : Time)
    (m : Engine) where
  -- The transition is announced: the event has an id, and the queue accepted it.
  abbrev pub accepted : Transition → MonitorState → Option Text → Bool
  accepted tr rt none = false
  accepted tr rt (some id) =
      (enqueue_monitor_event f.enqueue (event_for id kind obs def tr rt now) m.queue).1

  abbrev pub announced : Transition → MonitorState → Bool
  announced tr rt = accepted tr rt f.event_id

  -- The new node is kept: there is no transition, or it is silenced, or it is announced.
  abbrev pub is_kept : Option Transition → MonitorState → Bool
  is_kept none rt = true
  is_kept (some tr) rt = (is_silenced f k now m.silences).1 || announced tr rt

  lookup-after_enqueue :
      (rt : MonitorState) (m' : Engine) (r : QueueFile × Bool) (j : Text)
      → m'.states ≡ m.states
      → lookup j (after_enqueue f k rt m' r).states
        ≡ (if r.1 && text_beq k j then some rt else lookup j m.states)
  unfolding flush persist
  lookup-after_enqueue rt m' (queue, true) j e = rw (lookup-insert k j rt m'.states) (rw e refl)
  lookup-after_enqueue rt m' (queue, false) j e = rw e refl

  lookup-send_event :
      (tr : Transition) (rt : MonitorState) (left : Map Text Silence) (o : Option Text) (j : Text)
      → lookup j (send_event f k kind obs def tr rt now (record m { silences = left }) o).states
        ≡ (if accepted tr rt o && text_beq k j then some rt else lookup j m.states)
  lookup-send_event tr rt left none j = refl
  lookup-send_event tr rt left (some id) j =
      lookup-after_enqueue rt (record m { silences = left }) _ j refl

  lookup-finish_step :
      (tr : Option Transition) (rt : MonitorState) (j : Text)
      → lookup j (finish_step f k kind obs def now m rt tr).states
        ≡ (if is_kept tr rt && text_beq k j then some rt else lookup j m.states)
  unfolding emit
  lookup-finish_step none rt j = lookup-insert k j rt m.states
  lookup-finish_step (some tr) rt j = elim (Bool-cases (is_silenced f k now m.silences).1) [
    | inl s ↦ rw s (lookup-insert k j rt m.states)
    | inr s ↦ rw s (lookup-send_event tr rt (is_silenced f k now m.silences).0 f.event_id j)
  ]

module _ (f : Faults) (k : Text) (kind : Kind) (obs : Observation) (def : Definition) (now : Time)
    (m : Engine) where
  send_event-refused :
      (tr : Transition) (rt : MonitorState) (left : Map Text Silence) (o : Option Text)
      → accepted f k kind obs def now m tr rt o ≡ false
      → let m' = send_event f k kind obs def tr rt now (record m { silences = left }) o in
        (m'.states ≡ m.states) × (m'.rows ≡ m.rows)
  send_event-refused tr rt left none h = (refl, refl)
  send_event-refused tr rt left (some id) h = ground (arith, h)

  finish_step-refused :
      (tr : Option Transition) (rt : MonitorState)
      → is_kept f k kind obs def now m tr rt ≡ false
      → let m' = finish_step f k kind obs def now m rt tr in
        (m'.states ≡ m.states) × (m'.rows ≡ m.rows)
  unfolding emit
  finish_step-refused none rt h = absurd (ground arith)
  finish_step-refused (some tr) rt h = elim (Bool-cases (is_silenced f k now m.silences).1) [
    | inl s ↦ absurd (let h' = rw s at h in cc)
    | inr s ↦
        rw s (send_event-refused tr rt (is_silenced f k now m.silences).0 f.event_id (rw s at h))
  ]

-- The node that `process` steps: the known one, or a healthy one where none is known or it was
-- muted.
abbrev pub current : Text → Time → Engine → MonitorState
current k now m = unmute (known_or_healthy (lookup k m.states) k now) k now

abbrev pub stepped : Text → Observation → Definition → Time → Engine → MonitorState
stepped k obs def now m = record (step_state (current k now m) obs.failing now def).0 {
  updated_at = now;
}

-- For an enabled monitor, `process` replaces the node of the observation's key by the step of the
-- state machine, if that has no transition or its transition is silenced or announced; it keeps
-- every other node, and every node at all if the announcement is refused.
pub lookup-process :
    (f : Faults) (now : Time) (kind : Kind) (obs : Observation) (m : Engine) (j : Text)
    → (resolve m.defs kind obs.target).1 ≡ true
    → let k = key kind obs.target in
      let def = (resolve m.defs kind obs.target).0 in
      let rt = stepped k obs def now m in
      lookup j (process f now kind obs m).states ≡ (
        if is_kept f k kind obs def now m (step_state (current k now m) obs.failing now def).1 rt
          && text_beq k j
        then some rt
        else lookup j m.states)
unfolding process
lookup-process f now kind obs m j on =
    let k = key kind obs.target in
    let def = (resolve m.defs kind obs.target).0 in
    rw on (
      lookup-finish_step f k kind obs def now m (step_state (current k now m) obs.failing now def).1
        (stepped k obs def now m) j)

step-silent :
    (rt : MonitorState) (failing : Bool) (now : Time) (def : Definition)
    → (step_state rt failing now def).1 ≡ none
    → is_open (step_state rt failing now def).0.state ≡ is_open rt.state
unfolding step_state
step-silent rt failing now def h = ground arith

and_true : (b : Bool) → (b && true) ≡ b
and_true true = refl
and_true false = refl

abbrev pub was_open : Option MonitorState → Bool
was_open none = false
was_open (some rt) = is_open rt.state

open-current :
    (k : Text) (now : Time) (o : Option MonitorState)
    → is_open (unmute (known_or_healthy o k now) k now).state ≡ was_open o
unfolding new_state
open-current k now none = refl
open-current k now (some rt) = ground arith

kept_if_moved :
    (b : Bool) (old : Option MonitorState) (new after : MonitorState)
    → (if b then some new else old) ≡ some after
    → is_open after.state ≢ was_open old
    → (b ≡ true) × (new ≡ after)
kept_if_moved true old new after is moved = (refl, ground arith)
kept_if_moved false old new after is moved = absurd (ground arith)

-- An alert of an enabled monitor opens or closes in the engine's states only with a transition
-- that is silenced or whose event the queue has accepted: a page is never lost to a failing queue,
-- since the node then stays as it was.
pub process-open :
    (f : Faults) (now : Time) (kind : Kind) (obs : Observation) (m : Engine) (after : MonitorState)
    → (resolve m.defs kind obs.target).1 ≡ true
    → lookup (key kind obs.target) (process f now kind obs m).states ≡ some after
    → is_open after.state ≢ was_open (lookup (key kind obs.target) m.states)
    → let k = key kind obs.target in
      let def = (resolve m.defs kind obs.target).0 in
      (tr : Transition) × ((step_state (current k now m) obs.failing now def).1 ≡ some tr)
      × (((is_silenced f k now m.silences).1 || announced f k kind obs def now m tr after) ≡ true)
process-open f now kind obs m after on is moved =
    let k = key kind obs.target in
    let def = (resolve m.defs kind obs.target).0 in
    let at = lookup-process f now kind obs m k on in
    elim (Option-cases (step_state (current k now m) obs.failing now def).1) [
      | inl silent ↦ absurd (
          ground (
            arith,
            at,
            text_beq_iff k k,
            step-silent (current k now m) obs.failing now def silent,
            open-current k now (lookup k m.states),
          ))
      | inr (tr, e) ↦
          let (kept, same) =
            kept_if_moved _ (lookup k m.states) (stepped k obs def now m) after
              (rw (beq_refl k, and_true) at (sym at ∙ is)) moved in
          (tr, e, rw (← same) (rw e at kept))
    ]

-- Where the transition is neither silenced nor announced, `process` leaves every state and every
-- row as it was, so the next tick makes the same transition again.
pub process-refused :
    (f : Faults) (now : Time) (kind : Kind) (obs : Observation) (m : Engine)
    → (resolve m.defs kind obs.target).1 ≡ true
    → is_kept f
        (key kind obs.target)
        kind
        obs
        (resolve m.defs kind obs.target).0
        now
        m
        (step_state
          (current (key kind obs.target) now m)
          obs.failing
          now
          (resolve m.defs kind obs.target).0).1
        (stepped (key kind obs.target) obs (resolve m.defs kind obs.target).0 now m)
      ≡ false
    → ((process f now kind obs m).states ≡ m.states) × ((process f now kind obs m).rows ≡ m.rows)
unfolding process
process-refused f now kind obs m on refused =
    let k = key kind obs.target in
    let def = (resolve m.defs kind obs.target).0 in
    rw on (
      finish_step-refused f k kind obs def now m
        (step_state (current k now m) obs.failing now def).1 (stepped k obs def now m) refused)
