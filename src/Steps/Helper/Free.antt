-- ===== src/Steps/Helper/Free.antt =====
-- Which processes `process.stop` of internal/steps/helper.go may stop, said of the host's processes.
use rootmote_agent.Prelude.{
  ℕ, zero, suc, ◌<◌, ◌≤◌, ◌≡◌, ◌≢◌, ◌⊎◌, inl, inr, refl, sym, ◌∙◌, Bool, true, false, ◌||◌, Option,
  some, List, [], ◌∷◌, Text, codes, text_beq, eqb, leb, if◌then◌else◌, arith,
}
use mathlib.Core.Path.{subst}
use rootmote_agent.Prelude.Texts.{starts_with, is_any_of}
use rootmote_agent.Steps.Helper.{Machine, History}
use rootmote_agent.Steps.Helper.Processes.{
  descends, ancestors, below_agent, is_protected_comm, protected_pid,
}
use rootmote_agent.Steps.Helper.Below.{Below, this, descends-Below}

abbrev agent_name : Text
agent_name = codes "rootmote-agent"

-- The walk from a process to its parents ends after some steps, or at one of the first two processes.
module _ (parent : ℕ → ℕ) where
  -- The walk meets the process.
  abbrev pub IsMet : ℕ → ℕ → ℕ → Type 0
  IsMet pid zero p = ⊥
  IsMet pid (suc n) p = (1 < p) × ((p ≡ pid) ⊎ IsMet pid n (parent p))

  -- The walk meets no agent.
  abbrev pub IsAgentFree : (ℕ → Text) → ℕ → ℕ → Type 0
  IsAgentFree comm zero p = Unit
  IsAgentFree comm (suc n) p =
      (p ≤ 1) ⊎ ((text_beq (comm p) agent_name ≡ false) × IsAgentFree comm n (parent p))

  -- The process is an agent that the walk meets, and it meets none after it.
  abbrev pub IsTopAgent : (ℕ → Text) → ℕ → ℕ → ℕ → Type 0
  IsTopAgent comm r zero p = ⊥
  IsTopAgent comm r (suc n) p =
      (1 < p)
      × (((p ≡ r) × (text_beq (comm p) agent_name ≡ true) × IsAgentFree comm n (parent p))
          ⊎ IsTopAgent comm r n (parent p))

  not-IsMet :
      (comm : ℕ → Text) (pid n p root : ℕ)
      → (ancestors n parent comm pid p root).0 ≡ false
      → ¬ IsMet pid n p
  unfolding ancestors
  not-IsMet comm pid zero p root h met = met
  not-IsMet comm pid (suc n) p root h (late, met) =
      by_tests (leb p 1) (eqb p pid) refl refl h met (not-IsMet comm pid n (parent p) _)
    where
      next : ℕ
      next = if text_beq (comm p) agent_name then p else root

      by_tests :
          (low same : Bool)
          → leb p 1 ≡ low
          → eqb p pid ≡ same
          → (if low
              then (false, root)
              else (if same then (true, root) else ancestors n parent comm pid (parent p) next)).0
            ≡ false
          → (p ≡ pid) ⊎ IsMet pid n (parent p)
          → ((ancestors n parent comm pid (parent p) next).0 ≡ false → ¬ IsMet pid n (parent p))
          → ⊥
      by_tests true same e f g x ih = absurd (ground (arith, e, late))
      by_tests false true e f g x ih = absurd (ground (arith, g))
      by_tests false false e f g (inl at) ih = absurd (ground (arith, f, at))
      by_tests false false e f g (inr further) ih = ih g further

  module _ (comm : ℕ → Text) (pid : ℕ) where
    abbrev next_root : ℕ → ℕ → ℕ
    next_root p root = if text_beq (comm p) agent_name then p else root

    -- One step of the walk, with the results of its two tests.
    abbrev one_step : Bool → Bool → ℕ → ℕ → ℕ → Bool × ℕ
    one_step low same n p root =
        if low
        then (false, root)
        else (if same
            then (true, root)
            else ancestors n parent comm pid (parent p) (next_root p root))

    root_of_free :
        (n p root : ℕ) → IsAgentFree comm n p → (ancestors n parent comm pid p root).1 ≡ root
    unfolding ancestors
    root_of_free zero p root free = refl
    root_of_free (suc n) p root free =
        by_tests (leb p 1) (eqb p pid) refl free (root_of_free n (parent p) (next_root p root))
      where
        by_tests :
            (low same : Bool)
            → leb p 1 ≡ low
            → (p ≤ 1) ⊎ ((text_beq (comm p) agent_name ≡ false) × IsAgentFree comm n (parent p))
            → (IsAgentFree comm n (parent p)
                → (ancestors n parent comm pid (parent p) (next_root p root)).1 ≡ next_root p root)
            → (one_step low same n p root).1 ≡ root
        by_tests true same e f ih = refl
        by_tests false true e f ih = refl
        by_tests false false e (inl low) ih = absurd (ground (arith, e, low))
        by_tests false false e (inr (plain, free)) ih = ih free ∙ rw plain refl

    root_of_top :
        (r n p root : ℕ)
        → IsTopAgent comm r n p
        → (ancestors n parent comm pid p root).0 ≡ false
        → (ancestors n parent comm pid p root).1 ≡ r
    unfolding ancestors
    root_of_top r zero p root top h = absurd top
    root_of_top r (suc n) p root (late, top) h =
        by_tests (leb p 1) (eqb p pid) refl h top (root_of_top r n (parent p) (next_root p root))
      where
        by_tests :
            (low same : Bool)
            → leb p 1 ≡ low
            → (one_step low same n p root).0 ≡ false
            → ((p ≡ r) × (text_beq (comm p) agent_name ≡ true) × IsAgentFree comm n (parent p))
              ⊎ IsTopAgent comm r n (parent p)
            → (IsTopAgent comm r n (parent p)
                → (ancestors n parent comm pid (parent p) (next_root p root)).0 ≡ false
                → (ancestors n parent comm pid (parent p) (next_root p root)).1 ≡ r)
            → (one_step low same n p root).1 ≡ r
        by_tests true same e g f ih = absurd (ground (arith, e, late))
        by_tests false true e g f ih = absurd (ground (arith, g))
        by_tests false false e g (inl (at, agent, free)) ih =
            root_of_free n (parent p) (next_root p root) free ∙ rw agent at
        by_tests false false e g (inr top) ih = ih top g

abbrev core_names : List Text
core_names =
    codes "sshd"
    ∷ codes "sshd-session"
    ∷ codes "rootmote-agent"
    ∷ codes "dockerd"
    ∷ codes "containerd"
    ∷ codes "dbus-daemon"
    ∷ codes "systemd"
    ∷ []

-- The process is neither the helper nor one of the first two nor a thread of the kernel, its name is
-- none of those of the host's core, the walk upwards from the helper does not meet it, and it is not
-- below the topmost agent that the walk meets.
pub record IsFree (m : Machine) (h : History) (pid : ℕ) : Type 0 where
  pub past_init : 1 < pid
  pub not_self : pid ≢ m.self
  pub not_threads : pid ≢ 2
  pub not_thread : m.parent_pid h pid ≢ 2
  pub not_core : is_any_of core_names (m.comm h pid) ≡ false
  pub not_systemd : starts_with (m.comm h pid) (codes "systemd-") ≡ false
  pub not_sshd : starts_with (m.comm h pid) (codes "sshd") ≡ false
  pub not_above : ¬ IsMet (m.parent_pid h) pid 64 m.self
  pub not_below :
      (r : ℕ)
      → IsTopAgent (m.parent_pid h) (m.comm h) r 64 m.self
      → ¬ Below (m.parent_pid h) (m.pids h) pid r

below_agent-Below :
    (rounds : ℕ) (parent : ℕ → ℕ) (pids : List ℕ) (pid : ℕ) (r : Bool × ℕ)
    → below_agent rounds parent pids pid r ≡ some false
    → (r.0 ≡ false) × ((r.1 ≡ 0) ⊎ (¬ Below parent pids pid r.1))
below_agent-Below rounds parent pids pid (true, root) h = absurd (ground (arith, h))
below_agent-Below rounds parent pids pid (false, root) h = (refl, by_test (eqb root 0) refl h)
  where
    by_test :
        (t : Bool)
        → eqb root 0 ≡ t
        → (if t then some false else descends rounds parent pids pid (root ∷ [])) ≡ some false
        → (root ≡ 0) ⊎ (¬ Below parent pids pid root)
    by_test true e g = inl (ground (arith, e))
    by_test false e g = inr (λ b.
        let (_, from) = descends-Below parent pids pid rounds (root ∷ []) false g in
        absurd (ground (arith, from (this b))))

IsTopAgent-late :
    (parent : ℕ → ℕ) (comm : ℕ → Text) (r n p : ℕ) → IsTopAgent parent comm r n p → 1 < r
IsTopAgent-late parent comm r zero p top = absurd top
IsTopAgent-late parent comm r (suc n) p (late, inl (at, agent, free)) = subst (λ x. 1 < x) at late
IsTopAgent-late parent comm r (suc n) p (late, inr top) =
    IsTopAgent-late parent comm r n (parent p) top

passed :
    (b : Bool) (x : Option Bool)
    → (if b then some true else x) ≡ some false
    → (b ≡ false) × (x ≡ some false)
passed true x h = absurd (ground (arith, h))
passed false x h = (refl, h)

guards_false :
    (a b c d e : Bool)
    → (a || b || (c || d) || e) ≡ false
    → (a ≡ false) × (b ≡ false) × (c ≡ false) × (d ≡ false) × (e ≡ false)
guards_false a b c d e h = ground (arith)

names_false : (a b c : Bool) → (a || b || c) ≡ false → (a ≡ false) × (b ≡ false) × (c ≡ false)
names_false a b c h = ground (arith)

pub protected_pid-IsFree :
    (rounds : ℕ) (m : Machine) (h : History) (pid : ℕ)
    → protected_pid rounds m h pid ≡ some false
    → IsFree m h pid
unfolding protected_pid is_protected_comm
protected_pid-IsFree rounds m h pid free =
    let (guards, search_ended) = passed _ _ free in
    let (late, not_self, two, thread, name) =
      guards_false (leb pid 1) (eqb pid m.self) (eqb pid 2) (eqb (m.parent_pid h pid) 2)
        (is_protected_comm (m.comm h pid)) guards in
    let (core, systemd, sshd) = names_false (is_any_of core_names (m.comm h pid)) _ _ name in
    let (missed, below) = below_agent-Below rounds _ _ pid _ search_ended in
    record {
      past_init = ground (arith, late);
      not_self = ground (arith, not_self);
      not_threads = ground (arith, two);
      not_thread = ground (arith, thread);
      not_core = core;
      not_systemd = systemd;
      not_sshd = sshd;
      not_above = not-IsMet (m.parent_pid h) (m.comm h) pid 64 m.self 0 missed;
      not_below = λ r top b. elim below [
        | inl none_met ↦ absurd (
            let late_r = IsTopAgent-late (m.parent_pid h) (m.comm h) r 64 m.self top in
            let at = root_of_top (m.parent_pid h) (m.comm h) pid r 64 m.self 0 top missed in
            omega (arith, late_r, at, none_met))
        | inr free_of ↦ free_of (
            subst (Below (m.parent_pid h) (m.pids h) pid)
              (sym (root_of_top (m.parent_pid h) (m.comm h) pid r 64 m.self 0 top missed)) b)
      ];
    }
