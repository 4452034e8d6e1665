-- ===== src/Steps/Helper/Processes.antt =====
-- `process.stop` of internal/steps/helper.go: which processes are protected, and the signals.
use rootmote_agent.Prelude.{
  ℕ, zero, suc, Bool, true, false, ◌&&◌, ◌||◌, not, Option, none, some, List, [], ◌∷◌, ◌++◌, Text,
  codes, text_beq, eqb, leb, if◌then◌else◌, keep,
}
use rootmote_agent.Prelude.Texts.{starts_with, is_any_of}
use rootmote_agent.Steps.Validate.{parse_pid, parse_start_time}
use rootmote_agent.Steps.Helper.{
  Machine, History, Signal, sigterm, sigkill, signalled, slept, Job, pure, refuse, hang, ask, emit,
  ◌>>=◌, ◌>>◌, refuse_unless, fail_if, or_refuse,
}

abbrev protected_comms : List Text
protected_comms =
    codes "sshd"
    ∷ codes "sshd-session"
    ∷ codes "rootmote-agent"
    ∷ codes "dockerd"
    ∷ codes "containerd"
    ∷ codes "dbus-daemon"
    ∷ codes "systemd"
    ∷ []

-- The names of processes that are never stopped.
unfoldable pub is_protected_comm : Text → Bool
is_protected_comm comm =
    is_any_of protected_comms comm
    || starts_with comm (codes "systemd-")
    || starts_with comm (codes "sshd")

-- The search below a process, over the children that `parent` gives; `none` where the rounds end.
unfoldable pub descends : ℕ → (ℕ → ℕ) → List ℕ → ℕ → List ℕ → Option Bool
descends zero parent pids pid queue = none
descends (suc rounds) parent pids pid [] = some false
descends (suc rounds) parent pids pid (cur ∷ queue) =
    let rest = descends rounds parent pids pid (queue ++ keep (λ p. eqb (parent p) cur) pids) in
    if eqb cur pid then some true else rest

-- The walk from the helper to its ancestors, for at most `n` steps: whether it meets the process,
-- and the last ancestor that is an agent.
unfoldable pub ancestors : ℕ → (ℕ → ℕ) → (ℕ → Text) → ℕ → ℕ → ℕ → Bool × ℕ
ancestors zero parent comm pid p root = (false, root)
ancestors (suc n) parent comm pid p root =
    let further =
      ancestors n parent comm pid (parent p)
        (if text_beq (comm p) (codes "rootmote-agent") then p else root) in
    if leb p 1 then (false, root) else (if eqb p pid then (true, root) else further)

abbrev pub below_agent : ℕ → (ℕ → ℕ) → List ℕ → ℕ → Bool × ℕ → Option Bool
below_agent rounds parent pids pid (true, root) = some true
below_agent rounds parent pids pid (false, root) =
    if eqb root 0 then some false else descends rounds parent pids pid (root ∷ [])

-- Whether the process may never be stopped; `none` where the search has not ended.
unfoldable pub protected_pid : ℕ → Machine → History → ℕ → Option Bool
unfolding descends ancestors is_protected_comm
protected_pid rounds m h pid =
    if leb pid 1
      || eqb pid m.self
      || (eqb pid 2 || eqb (m.parent_pid h pid) 2)
      || is_protected_comm (m.comm h pid)
    then some true
    else below_agent rounds (m.parent_pid h) (m.pids h) pid
        (ancestors 64 (m.parent_pid h) (m.comm h) pid m.self 0)

-- The process lives and is the one that was asked for.
abbrev pub is_same : ℕ → ℕ × Bool → Bool
is_same start (ticks, alive) = alive && eqb ticks start

abbrev pub or_hang : Option Bool → Job Bool
or_hang none = hang
or_hang (some b) = pure b

module _ (m : Machine) where
  unfoldable pub gone : ℕ → ℕ → History → Bool
  gone pid start h = not (is_same start (m.start_time h pid))

  abbrev pub after_pause : ℕ → ℕ → Job Bool → Bool → Job Bool
  after_pause pid start rest true = ask (gone pid start)
  after_pause pid start rest false = rest

  abbrev pub unless_gone : ℕ → ℕ → Job Bool → Bool → Job Bool
  unless_gone pid start rest true = pure true
  unless_gone pid start rest false = do
    emit (slept 250)
    stop ← ask m.cancelled
    after_pause pid start rest stop

  -- At most `n` pauses of 250 milliseconds.
  unfoldable pub wait : ℕ → ℕ → ℕ → Job Bool
  unfolding gone
  wait zero pid start = ask (gone pid start)
  wait (suc n) pid start = do
    now ← ask (gone pid start)
    unless_gone pid start (wait n pid start) now

  -- The signal; an error counts only where the process still runs.
  unfoldable pub send : ℕ → ℕ → Signal → Job Unit
  unfolding gone
  send pid start sig = do
    bad ← ask (λ h. m.signal_fails h pid sig)
    emit (signalled pid sig)
    left ← ask (gone pid start)
    fail_if (bad && not left)

  abbrev pub kill_if : Bool → ℕ → ℕ → Job Unit
  kill_if true pid start = send pid start sigkill
  kill_if false pid start = pure tt

  abbrev pub force : ℕ → ℕ → Bool → Job Unit
  force pid start true = pure tt
  force pid start false = do
    runs ← ask (λ h. is_same start (m.start_time h pid))
    kill_if runs pid start
    ended ← wait 12 pid start
    fail_if (not ended)

  abbrev pub stop_process : ℕ → ℕ → ℕ → Job Unit
  stop_process rounds pid start = do
    opened ← ask (λ h. m.open_process h pid)
    refuse_unless opened
    found ← ask (λ h. m.start_time h pid)
    refuse_unless found.1
    refuse_unless (eqb found.0 start)
    asked ← ask (λ h. protected_pid rounds m h pid)
    protected ← or_hang asked
    refuse_unless (not protected)
    send pid start sigterm
    ended ← wait 40 pid start
    force pid start ended

  abbrev stop_with : ℕ → List Text → Job Unit
  stop_with rounds (a ∷ b ∷ []) = do
    pid ← or_refuse (parse_pid a)
    start ← or_refuse (parse_start_time b)
    stop_process rounds pid start
  stop_with rounds _ = refuse

  unfoldable pub process_stop : ℕ → List Text → Job Unit
  unfolding protected_pid parse_pid parse_start_time wait send
  process_stop rounds args = stop_with rounds args
