-- ===== src/Remediation/Rollback/Succeeded.antt =====
-- Which steps of a run succeeded, by its events (internal/remediation/remediation.go).
use rootmote_agent.Prelude.{
  ℕ, ◌<◌, ◌≡◌, refl, Bool, true, false, ◌&&◌, not, Option, none, some, List, [], ◌∷◌, Text,
  text_beq, text_beq_iff, ltb, get_elem?, if◌then◌else◌, arith,
}
use rootmote_agent.Prelude.Int.{ℤ, pos, negsuc, int_beq}
use rootmote_agent.Runbook.{Step}
use rootmote_agent.Store.Ledger.{select_events_after}
use rootmote_agent.Store.Ledger.Actions.{
  Event, Payload, step_result, step_verification, internal_verification, labelled,
}
use rootmote_agent.Remediation.Rollback.{successes, append_if, add_success}

module _ (list : List Step) (id : Text) where
  -- The event is one of the run, and records that this step ended without an error and with code 0.
  abbrev pub IsSuccess : Event → Step → Type 0
  IsSuccess ev s =
      (ev.execution_id ≡ id)
      × (0 < ev.seq)
      × ((i : ℕ) × (ev.payload ≡ step_result i (pos 0) false) × (get_elem? list i ≡ some s))

  -- The steps are those that the events record as successes, in the order of the events.
  pub data Succeeded : List Event → List Step → Type 0 where
    no_events : Succeeded [] []
    counted :
        {ev : Event} {evs : List Event} {done : List Step} (s : Step)
        → IsSuccess ev s
        → Succeeded evs done
        → Succeeded (ev ∷ evs) (s ∷ done)
    passed :
        {ev : Event} {evs : List Event} {done : List Step}
        → ((s : Step) → ¬ IsSuccess ev s)
        → Succeeded evs done
        → Succeeded (ev ∷ evs) done

  zero_code : (code : ℤ) → int_beq code (pos 0) ≡ true → code ≡ pos 0
  zero_code (pos n) h = ground (arith, h)
  zero_code (negsuc n) h = absurd (ground (arith, h))

  module _ (ev : Event) (evs : List Event) (done : List Step) (before : Succeeded evs done)
      (same : ev.execution_id ≡ id) (late : 0 < ev.seq) where
    append_if-Succeeded :
        (i : ℕ) (code : ℤ) (errored : Bool)
        → ev.payload ≡ step_result i code errored
        → (o : Option Step) → get_elem? list i ≡ o
        → (b : Bool) → (not errored && int_beq code (pos 0)) ≡ b
        → Succeeded (ev ∷ evs) (append_if b o done)
    append_if-Succeeded i code errored is (some s) at true good =
        let ended : errored ≡ false = ground (arith, good) in
        let zero_is : code ≡ pos 0 = zero_code code (ground (arith, good)) in
        counted s (same, late, (i, rw (ended, zero_is) at is, at)) before
    append_if-Succeeded i code errored is none at true good =
        passed
          (λ s (e, l, (j, p, q)).
            absurd
              (let where_is : i ≡ j = ground (arith, is, p) in ground (arith, at, q, where_is)))
          before
    append_if-Succeeded i code errored is none at false bad =
        passed
          (λ s (e, l, (j, p, q)).
            absurd
              (let where_is : i ≡ j = ground (arith, is, p) in ground (arith, at, q, where_is)))
          before
    append_if-Succeeded i code errored is (some s) at false bad =
        passed
          (λ t (e, l, (j, p, q)). absurd (
            let ended : errored ≡ false = ground (arith, is, p) in
            let zero_is : code ≡ pos 0 = ground (arith, is, p) in
            let b' = rw (ended, zero_is) at bad in ground (arith, b')))
          before

    add_success-Succeeded :
        (p : Payload) → ev.payload ≡ p → Succeeded (ev ∷ evs) (add_success list p done)
    add_success-Succeeded (step_result i code errored) is =
        append_if-Succeeded i code errored is (get_elem? list i) refl
          (not errored && int_beq code (pos 0)) refl
    add_success-Succeeded (step_verification i b) is =
        passed (λ t (e, l, (j, p, q)). absurd (ground (arith, is, p))) before
    add_success-Succeeded (internal_verification a b) is =
        passed (λ t (e, l, (j, p, q)). absurd (ground (arith, is, p))) before
    add_success-Succeeded (labelled s) is =
        passed (λ t (e, l, (j, p, q)). absurd (ground (arith, is, p))) before

  -- What the loop of `successfulSteps` collects from the events of the execution.
  pub successes-Succeeded :
      (evs : List Event) → Succeeded evs (successes list (select_events_after id 0 evs))
  unfolding successes select_events_after
  successes-Succeeded [] = no_events
  successes-Succeeded (ev ∷ evs) =
      by_test (text_beq ev.execution_id id) (ltb 0 ev.seq) refl refl (successes-Succeeded evs)
    where
      rest : List Event
      rest = select_events_after id 0 evs

      by_test :
          (t l : Bool)
          → text_beq ev.execution_id id ≡ t
          → ltb 0 ev.seq ≡ l
          → Succeeded evs (successes list rest)
          → Succeeded (ev ∷ evs) (successes list (if t && l then ev ∷ rest else rest))
      by_test true true same late ih =
          add_success-Succeeded ev evs (successes list rest) ih
            ((text_beq_iff ev.execution_id id).0 same) (ground (arith, late)) ev.payload refl
      by_test true false same late ih =
          passed (λ s (e, l, more). absurd (ground (arith, late, l))) ih
      by_test false late same le ih =
          passed
            (λ s (e, l, more).
              absurd (let eq = (text_beq_iff ev.execution_id id).1 e in ground (arith, eq, same)))
            ih
