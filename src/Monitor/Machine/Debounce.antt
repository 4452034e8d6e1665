-- ===== src/Monitor/Machine/Debounce.antt =====
-- How many observations statemachine.go takes to open an alert and to close one.
use Prim.Native.Nat.{max}
use rootmote_agent.Prelude.{
  ℕ, ◌+◌, ◌<◌, ◌≡◌, refl, Bool, true, false, none, List, [], ◌∷◌, arith, ltb, if◌then◌else◌, length,
  Bool-cases, inl, inr, ◌⊎◌,
}
use rootmote_agent.Monitor.State.{
  Time, State, healthy, pending, firing, recovering, resolved, Definition, MonitorState,
  failure_threshold_of, recovery_threshold_of,
}
use rootmote_agent.Monitor.Machine.{Transition, step_state}
use rootmote_agent.Monitor.Machine.Runs.{Tick, run_ticks, steady}

abbrev pub fired : Transition
fired = record { from = pending; to = firing }

abbrev pub closed : Transition
closed = record { from = recovering; to = resolved }

firing-steady :
    (def : Definition) (nows : List Time) (rt : MonitorState)
    → rt.state ≡ firing
    → (run_ticks rt (steady true def nows)).1 ≡ []
unfolding run_ticks step_state
firing-steady def [] rt s = refl
firing-steady def (now ∷ nows) rt s =
    ground (arith, firing-steady def nows (step_state rt true now def).0)

pending-steady :
    (def : Definition) (nows : List Time) (rt : MonitorState)
    → rt.state ≡ pending
    → rt.consecutive_fail < failure_threshold_of def
    → (run_ticks rt (steady true def nows)).1 ≡ (
        if ltb (rt.consecutive_fail + length nows) (failure_threshold_of def)
        then []
        else fired ∷ [])
unfolding run_ticks step_state
pending-steady def [] rt s below = ground arith
pending-steady def (now ∷ nows) rt s below = ground (
  arith,
  pending-steady def nows (step_state rt true now def).0,
  firing-steady def nows (step_state rt true now def).0,
)

pub failure_threshold_pos : (def : Definition) → 0 < failure_threshold_of def
unfolding failure_threshold_of
failure_threshold_pos def = ground arith

-- From healthy, failures at every tick emit nothing before the threshold, and one firing
-- transition, never a second, from the threshold on.
pub healthy-steady :
    (def : Definition) (nows : List Time) (rt : MonitorState)
    → rt.state ≡ healthy
    → (run_ticks rt (steady true def nows)).1
      ≡ (if ltb (length nows) (failure_threshold_of def) then [] else fired ∷ [])
unfolding run_ticks step_state
healthy-steady def [] rt s = ground (arith, failure_threshold_pos def)
healthy-steady def (now ∷ nows) rt s = ground (
  arith,
  pending-steady def nows (step_state rt true now def).0,
  firing-steady def nows (step_state rt true now def).0,
)

-- Every unbroken row of failures, `c` of them seen already, stays below the threshold.
abbrev pub Transient : ℕ → ℕ → List Tick → Type 0
Transient threshold c [] = Unit
Transient threshold c (k ∷ ks) =
    if k.failing
    then (c + 1 < threshold) × Transient threshold (c + 1) ks
    else Transient threshold 0 ks

-- All ticks are evaluated under one definition.
abbrev pub Under : Definition → List Tick → Type 0
Under def [] = Unit
Under def (k ∷ ks) = (k.def ≡ def) × Under def ks

-- The failures in a row that a node that is not in an alert has counted.
abbrev row : MonitorState → ℕ
row rt = elim rt.state [ pending ↦ rt.consecutive_fail | _ ↦ 0 ]

abbrev is_quiet : State → Bool
is_quiet healthy = true
is_quiet pending = true
is_quiet _ = false

step-Transient :
    (rt : MonitorState) (k : Tick)
    → is_quiet rt.state ≡ true
    → (k.failing ≡ true → row rt + 1 < failure_threshold_of k.def)
    → (is_quiet (step_state rt k.failing k.now k.def).0.state ≡ true)
      × ((step_state rt k.failing k.now k.def).1 ≡ none)
      × (row (step_state rt k.failing k.now k.def).0 ≡ (if k.failing then row rt + 1 else 0))
unfolding step_state
step-Transient rt k q below = ground arith

Transient-uncons :
    (threshold c : ℕ) (k : Tick) (ks : List Tick)
    → Transient threshold c (k ∷ ks)
    → (k.failing ≡ true → c + 1 < threshold)
      × Transient threshold (if k.failing then c + 1 else 0) ks
Transient-uncons threshold c k ks t = elim (Bool-cases k.failing) [
  | inl e ↦ rw e (let u = rw e at t in (λ _. u.0, u.1))
  | inr e ↦ rw e (let u = rw e at t in (λ f. cc, u))
]

-- As long as every unbroken row of failures stays below the threshold, a quiet monitor emits
-- nothing, however many failures there are in all.
pub run-Transient :
    (def : Definition) (ks : List Tick) (rt : MonitorState)
    → is_quiet rt.state ≡ true
    → Under def ks
    → Transient (failure_threshold_of def) (row rt) ks
    → (run_ticks rt ks).1 ≡ []
unfolding run_ticks
run-Transient def [] rt q u t = refl
run-Transient def (k ∷ ks) rt q u t =
    let (below, rest) = Transient-uncons (failure_threshold_of def) (row rt) k ks t in
    let (q', silent, r) = step-Transient rt k q (rw u.0 below) in
    rw silent (run-Transient def ks (step_state rt k.failing k.now k.def).0 q' u.1 (rw r rest))

calm-steady :
    (def : Definition) (nows : List Time) (rt : MonitorState)
    → (rt.state ≡ resolved) ⊎ (rt.state ≡ healthy)
    → (run_ticks rt (steady false def nows)).1 ≡ []
unfolding run_ticks step_state
calm-steady def [] rt s = refl
calm-steady def (now ∷ nows) rt s =
    ground (arith, calm-steady def nows (step_state rt false now def).0)

recovering-steady :
    (def : Definition) (nows : List Time) (rt : MonitorState)
    → rt.state ≡ recovering
    → 0 < rt.consecutive_ok
    → (run_ticks rt (steady false def nows)).1 ≡ (
        if ltb
          (rt.consecutive_ok + length nows)
          (max (recovery_threshold_of def) (rt.consecutive_ok + 1))
        then []
        else closed ∷ [])
unfolding run_ticks step_state
recovering-steady def [] rt s pos = ground arith
recovering-steady def (now ∷ nows) rt s pos = ground (
  arith,
  recovering-steady def nows (step_state rt false now def).0,
  calm-steady def nows (step_state rt false now def).0,
)

-- From firing, successes at every tick close the alert once, at the recovery threshold. A
-- threshold of one takes two successes: the first only moves the node to recovering.
pub firing-steady_success :
    (def : Definition) (nows : List Time) (rt : MonitorState)
    → rt.state ≡ firing
    → (run_ticks rt (steady false def nows)).1
      ≡ (if ltb (length nows) (max (recovery_threshold_of def) 2) then [] else closed ∷ [])
unfolding run_ticks step_state
firing-steady_success def [] rt s = ground arith
firing-steady_success def (now ∷ nows) rt s =
    ground (arith, recovering-steady def nows (step_state rt false now def).0)

steady-first_failure :
    (def : Definition) (nows : List Time) (rt : MonitorState)
    → (rt.state ≡ pending) ⊎ (rt.state ≡ firing)
    → (run_ticks rt (steady true def nows)).0.first_failure_at ≡ rt.first_failure_at
unfolding run_ticks step_state
steady-first_failure def [] rt s = refl
steady-first_failure def (now ∷ nows) rt s =
    ground (arith, steady-first_failure def nows (step_state rt true now def).0)

-- In a row of failures that starts from healthy, the node keeps the time of the first of them.
pub healthy-first_failure :
    (def : Definition) (now : Time) (nows : List Time) (rt : MonitorState)
    → rt.state ≡ healthy
    → (run_ticks rt (steady true def (now ∷ nows))).0.first_failure_at ≡ now
unfolding run_ticks step_state
healthy-first_failure def now nows rt s =
    ground (arith, steady-first_failure def nows (step_state rt true now def).0)
