-- ===== src/Remediation/Requests.antt =====
-- Requests that come one after another, the restart's recovery among them
-- (internal/remediation/remediation.go).
use rootmote_agent.Prelude.{◌≡◌, some, List, [], ◌∷◌, Text, text_eq, Bool-cases, inl, inr}
use rootmote_agent.Runbook.{Codec, Runbook}
use rootmote_agent.Store.Ledger.{in_flight_executions}
use rootmote_agent.Store.Ledger.Statuses.{
  Status, executing, verifying, remediation_failed, status_beq,
}
use rootmote_agent.Store.Ledger.Actions.{
  World, Execution, RunbookRow, Action, Result, ok, err, access, continue, pure, gets, ◌>>=◌, Time,
}
use rootmote_agent.Store.Ledger.Relates.{Relates, Relates-bind, Relates-pure}
use rootmote_agent.Store.Ledger.Evolves.{
  Evolves, Evolves-preorder, Evolves-access, Advanced, Extends, Move, failure, late_failure,
}
use rootmote_agent.Review.{mint_confirmation_token, consume_token}
use rootmote_agent.Review.SingleUse.{
  mint-Evolves, consume_token_returned, Consumed-is_spent, spent_not_consumed,
}
use rootmote_agent.Remediation.{
  Host, propose, approve, decline, execute, recover_all, recover_interrupted,
}
use rootmote_agent.Prelude.Maps.{Map, lookup}
use rootmote_agent.Prelude.{◌⊎◌}
use rootmote_agent.Store.Ledger.{select_in_flight}
use rootmote_agent.Store.Ledger.Statuses.{status_beq_iff}
use rootmote_agent.Remediation.Rollback.{derive_rollback}
use rootmote_agent.Remediation.Rollback.Kept.{derive_rollback-Evolves}
use rootmote_agent.Remediation.Lifecycle.{
  basic, propose-Evolves, approve-Evolves, decline-Evolves, execute-Evolves,
  transition_recorded-Evolves,
}

-- A request, or the restart's recovery.
pub data Operation : Type 0 where
  mint : Text → Text → Text → List Text → Text → Operation
  suggest : Text → Text → Runbook → Operation
  grant : Text → Text → Text → Operation
  deny : Text → Operation
  run : Text → Text → Operation
  reverse : Text → Operation
  recover : Operation

abbrev discard : {A : Type 0} → Action A → Action Unit
discard m = m >>= λ _. pure tt

unfoldable pub perform : Codec → Host → Time → Operation → Action Unit
unfolding mint_confirmation_token propose approve decline execute recover_interrupted
    derive_rollback
perform codec host now (mint fresh action scope files comment) =
    discard (mint_confirmation_token codec.sha256 fresh now action scope files comment)
perform codec host now (suggest id incident rb) = discard (propose codec now id incident rb)
perform codec host now (grant id hash token) = discard (approve codec now id hash token)
perform codec host now (deny id) = discard (decline now id)
perform codec host now (run id hash) = discard (execute codec host now id hash)
perform codec host now (reverse id) = discard (derive_rollback codec now id)
perform codec host now recover = discard (recover_interrupted now)

-- Requests one after another, each at its time; one that fails leaves what it wrote.
unfoldable pub serve : Codec → Host → List (Time × Operation) → World → World
unfolding perform
serve codec host [] w = w
serve codec host ((now, op) ∷ ops) w = serve codec host ops (perform codec host now op w).1

-- Every execution on the list is in flight.
abbrev AllInFlight : List Execution → Type 0
AllInFlight [] = Unit
AllInFlight (e ∷ es) = ((e.status ≡ executing) ⊎ (e.status ≡ verifying)) × AllInFlight es

select-AllInFlight : (rows : Map Text Execution) → AllInFlight (select_in_flight rows)
unfolding select_in_flight
select-AllInFlight [] = tt
select-AllInFlight ((k, e) ∷ rows) =
    let rest = select-AllInFlight rows in
    elim (Bool-cases (status_beq e.status executing)) [
      | inl y ↦ rw y (inl ((status_beq_iff e.status executing).0 y), rest)
      | inr n ↦ elim (Bool-cases (status_beq e.status verifying)) [
        | inl y ↦ rw n (rw y (inr ((status_beq_iff e.status verifying).0 y), rest))
        | inr m ↦ rw n (rw m rest)
      ]
    ]

failure_from : (s : Status) → (s ≡ executing) ⊎ (s ≡ verifying) → Move s remediation_failed
failure_from s (inl e) = rw e failure
failure_from s (inr e) = rw e late_failure

recover_all-Evolves :
    (now : Time) (es : List Execution) → AllInFlight es → Relates Evolves (recover_all now es)
unfolding recover_all
recover_all-Evolves now [] h = search basic
recover_all-Evolves now (e ∷ es) (h, hs) =
    Relates-bind Evolves-preorder _ _
      (transition_recorded-Evolves e.id e e.status remediation_failed _ _ now
        (failure_from e.status h))
      (λ moved.
        Relates-bind Evolves-preorder _ _ (recover_all-Evolves now es hs)
          (λ recovered. Relates-pure Evolves-preorder _))

recover_interrupted-Evolves : (now : Time) → Relates Evolves (recover_interrupted now)
unfolding recover_interrupted in_flight_executions ◌>>=◌ gets
recover_interrupted-Evolves now = record { at = λ w. read (access w) (Evolves-access.at w) }
  where
    found : World → List Execution
    found w = select_in_flight w.executions

    read :
        {w : World} (r : Result Unit × World)
        → Evolves w r.1
        → let (s, u) = continue r.0 (λ _. gets found) r.1 in
          Evolves w (continue s (recover_all now) u).1
    read (err e, u) h = h
    read (ok _, u) h =
        Evolves-preorder.trans h
          ((recover_all-Evolves now (found u) (select-AllInFlight u.executions)).at u)

discard-Evolves : {A : Type 0} (m : Action A) → Relates Evolves m → Relates Evolves (discard m)
discard-Evolves m r = search basic

perform-Evolves :
    (c : Codec) (host : Host) (now : Time) (op : Operation)
    → Relates Evolves (perform c host now op)
unfolding perform
perform-Evolves c host now (mint fresh action scope files comment) =
    discard-Evolves _ (mint-Evolves c.sha256 fresh now action scope files comment)
perform-Evolves c host now (suggest id incident rb) =
    discard-Evolves _ (propose-Evolves c now id incident rb)
perform-Evolves c host now (grant id hash token) =
    discard-Evolves _ (approve-Evolves c now id hash token)
perform-Evolves c host now (deny id) = discard-Evolves _ (decline-Evolves now id)
perform-Evolves c host now (run id hash) = discard-Evolves _ (execute-Evolves c host now id hash)
perform-Evolves c host now (reverse id) = discard-Evolves _ (derive_rollback-Evolves c now id)
perform-Evolves c host now recover = discard-Evolves _ (recover_interrupted-Evolves now)

-- Whatever requests come, in any order, at any times and with any of the calls of the database
-- failing.
pub serve-Evolves :
    (codec : Codec) (host : Host) (ops : List (Time × Operation)) (w : World)
    → Evolves w (serve codec host ops w)
unfolding serve
serve-Evolves codec host [] w = Evolves-preorder.refl w
serve-Evolves codec host ((now, op) ∷ ops) w =
    Evolves-preorder.trans ((perform-Evolves codec host now op).at w)
      (serve-Evolves codec host ops _)

-- Whatever requests come, and whichever calls of the database fail, a stored execution is there
-- afterwards, with its incident, runbook, hash and kind, and its status has moved along the
-- lifecycle alone: from proposed to approved or declined, from approved to executing, from
-- executing to verifying or failed, and from verifying to failed.
pub serve-lookup_execution :
    (codec : Codec) (host : Host) (ops : List (Time × Operation)) (w : World) (id : Text)
    (e : Execution)
    → lookup id w.executions ≡ some e
    → Advanced e (lookup id (serve codec host ops w).executions)
serve-lookup_execution codec host ops w id e h =
    (serve-Evolves codec host ops w).execution_advanced id e h

-- Whatever requests come, a stored runbook row is the same afterwards.
pub serve-lookup_runbook :
    (codec : Codec) (host : Host) (ops : List (Time × Operation)) (w : World) (id : Text)
    (row : RunbookRow)
    → lookup id w.runbooks ≡ some row
    → lookup id (serve codec host ops w).runbooks ≡ some row
serve-lookup_runbook codec host ops w id row h =
    (serve-Evolves codec host ops w).runbook_kept id row h

-- Whatever requests come, the events, the audit trail and the list of the steps that the host ran
-- only grow at their ends.
pub serve-Extends :
    (codec : Codec) (host : Host) (ops : List (Time × Operation)) (w : World)
    → Extends w.events (serve codec host ops w).events
      × Extends w.audit (serve codec host ops w).audit
      × Extends w.host (serve codec host ops w).host
serve-Extends codec host ops w =
    let kept = serve-Evolves codec host ops w in (kept.events_kept, kept.audit_kept, kept.host_kept)

-- A token that was consumed is not consumed again, for any action, whatever requests come between
-- and whichever calls of the database fail.
pub serve-consume_once :
    (codec : Codec) (host : Host) (now later : Time) (token action scope action' scope' : Text)
    (files files' : List Text) (comment comment' : Text) (ops : List (Time × Operation))
    (w v u : World)
    → consume_token codec.sha256 now token action scope files comment w ≡ (ok tt, v)
    → ¬ (
        consume_token codec.sha256 later token action' scope' files' comment'
          (serve codec host ops v)
        ≡ (ok tt, u))
serve-consume_once codec host now later token action scope action' scope' files files' comment
      comment' ops w v u h =
    let spent =
      Consumed-is_spent codec.sha256 now token action scope files comment w v
        (consume_token_returned codec.sha256 now token action scope files comment w v h) in
    spent_not_consumed codec.sha256 later token action' scope' files' comment'
      (serve codec host ops v) u ((serve-Evolves codec host ops v).token_spent token spent)
