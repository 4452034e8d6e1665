-- ===== src/Monitor/Machine/Runs.antt =====
-- Runs of the state machine over the ticks of one monitor, with the transitions in the order in
-- which they are emitted.
use rootmote_agent.Prelude.{◌≡◌, Bool, true, false, Option, none, some, List, [], ◌∷◌}
use rootmote_agent.Monitor.State.{
  Time, State, firing, recovering, resolved, Definition, MonitorState,
}
use rootmote_agent.Monitor.Machine.{Transition, step_state}

pub record Tick : Type 0 where
  pub failing : Bool
  pub now : Time
  pub def : Definition

abbrev pub note : Option Transition → List Transition → List Transition
note none ts = ts
note (some t) ts = t ∷ ts

unfoldable pub run_ticks : MonitorState → List Tick → MonitorState × List Transition
run_ticks rt [] = (rt, [])
run_ticks rt (k ∷ ks) =
    let (rt', tr) = step_state rt k.failing k.now k.def in
    let (last, ts) = run_ticks rt' ks in (last, note tr ts)

-- The same observation at each of the times, under one definition.
abbrev pub steady : Bool → Definition → List Time → List Tick
steady failing def [] = []
steady failing def (now ∷ nows) =
    record { failing = failing; now = now; def = def } ∷ steady failing def nows

-- An alert is open from its firing transition to its resolved one.
abbrev pub is_open : State → Bool
is_open firing = true
is_open recovering = true
is_open _ = false

-- The transitions alternate, from firing if nothing is open.
abbrev pub Alternates : Bool → List Transition → Type 0
Alternates o [] = Unit
Alternates false (t ∷ ts) = (t.to ≡ firing) × Alternates true ts
Alternates true (t ∷ ts) = (t.to ≡ resolved) × Alternates false ts
