-- ===== src/Remediation/Clearance.antt =====
-- `Execute` of internal/remediation/remediation.go: which executions run steps on the host.
use rootmote_agent.Prelude.{
  ◌≡◌, refl, sym, ap, ◌∙◌, Option, some, List, Text, text_eq, codes, arith, inl, inr, ◌⊎◌,
}
use rootmote_agent.Prelude.Maps.{lookup}
use rootmote_agent.Runbook.{Codec, Runbook, Step}
use rootmote_agent.Store.Ledger.Statuses.{Status, approved, executing}
use rootmote_agent.Store.Ledger.Actions.{
  World, Execution, RunbookRow, Action, Result, ok, err, conflict, pure, raise, attempt, ◌>>=◌,
  Time,
}
use rootmote_agent.Store.Ledger.Relates.{Relates-attempt}
use rootmote_agent.Store.Ledger.Quiet.{quiet_then, returned_then, host-bind}
use mathlib.Core.Path.{subst}
use rootmote_agent.Remediation.{
  Host, audit_for, append_event, run_steps, after_steps, start_execution, after_claim, by_status,
  execute, or_encoding, validate_hash, moved_to,
}
use rootmote_agent.Store.Ledger.Quiet.{
  get_execution-Quiet, get_runbook-Quiet, transition_execution-Quiet,
}
use rootmote_agent.Store.Ledger.{get_runbook, get_execution, transition_execution}
use rootmote_agent.Store.Ledger.Returns.{
  Read, Read-trans, get_runbook_returned, get_execution_returned,
}
use rootmote_agent.Remediation.Checks.{HashChecked, HashChecked-Read, validate_hash_returned}
use rootmote_agent.Remediation.Running.{
  audit_for-Quiet, append_event-Quiet, validate_hash-Quiet, after_steps-Quiet, Runs, stopped,
  run_steps-Runs,
}

-- What `execute` has checked of an execution whose steps it runs, and which of them ran.
pub record Cleared (codec : Codec) (host : Host) (id requested : Text) (w : World)
    (after : List (Text × Step)) : Type 0 where
  pub exec : Execution
  pub found : lookup id w.executions ≡ some exec
  pub was_approved : exec.status ≡ approved
  pub hash : HashChecked codec exec requested w
  pub ran : Runs host id w.host hash.runbook.steps after

start_execution-Runs :
    (host : Host) (now : Time) (id : Text) (e : Execution) (rb : Runbook) (w : World)
    → Runs host id w.host rb.steps (start_execution host now id e rb w).1.host
unfolding start_execution
start_execution-Runs host now id e rb w =
    quiet_then After w.host (audit_for started (codes "remediation.execute.started") now) _
      (audit_for-Quiet started _ now) stopped
      (λ _ u g.
        quiet_then After w.host (append_event id _ now) _ (append_event-Quiet id _ now) stopped
          (λ _ v h. subst (λ r. Runs host id r rb.steps (steps_then v).1.host) h (after_start v)) u
          g)
      w refl
  where
    After : List (Text × Step) → Type 0
    After after = Runs host id w.host rb.steps after

    started : Execution
    started = moved_to e executing now

    steps_then : Action Execution
    steps_then = do done ← run_steps host now id started 0 rb.steps; after_steps host now id rb done

    after_start : (v : World) → Runs host id v.host rb.steps (steps_then v).1.host
    after_start v =
        subst (Runs host id v.host rb.steps)
          (sym (
            host-bind (run_steps host now id started 0 rb.steps) _
              (after_steps-Quiet host now id rb) v))
          (run_steps-Runs host now id started 0 rb.steps v)

after_claim-Runs :
    (host : Host) (now : Time) (id : Text) (e : Execution) (rb : Runbook) (r : Result Unit)
    (w : World)
    → Runs host id w.host rb.steps (after_claim host now id e rb r w).1.host
unfolding raise
after_claim-Runs host now id e rb (ok _) w = start_execution-Runs host now id e rb w
after_claim-Runs host now id e rb (err conflict) w =
    subst (Runs host id w.host rb.steps) (sym ((get_execution-Quiet id).at w)) stopped
after_claim-Runs host now id e rb (err x) w = stopped

claimed-Runs :
    (host : Host) (now : Time) (id : Text) (e : Execution) (rb : Runbook) (ran : List (Text × Step))
    (w : World)
    → w.host ≡ ran
    → Runs host id ran rb.steps
        ((attempt (transition_execution id approved executing now) >>= after_claim host now id e rb)
          w).1.host
claimed-Runs host now id e rb ran w h =
    quiet_then (Runs host id ran rb.steps) ran
      (attempt (transition_execution id approved executing now)) (after_claim host now id e rb)
      (Relates-attempt _ (transition_execution-Quiet id approved executing now)) stopped
      (λ r u g.
        subst (λ x. Runs host id x rb.steps (after_claim host now id e rb r u).1.host) g
          (after_claim-Runs host now id e rb r u))
      w h

decoded-Runs :
    (host : Host) (now : Time) (id : Text) (e : Execution) (rb : Runbook) (o : Option Runbook)
    (ran : List (Text × Step)) (w : World)
    → o ≡ some rb
    → w.host ≡ ran
    → Runs host id ran rb.steps
        ((or_encoding o >>= λ rb'.
            attempt (transition_execution id approved executing now)
            >>= after_claim host now id e rb')
          w).1.host
unfolding ◌>>=◌ pure
decoded-Runs host now id e rb o ran w d h = rw d (claimed-Runs host now id e rb ran w h)

-- Where the execution is approved: its row is read, and decoded again.
claim-Runs :
    (codec : Codec) (host : Host) (now : Time) (id : Text) (e : Execution) (row : RunbookRow)
    (rb : Runbook) (w : World)
    → lookup e.runbook_id w.runbooks ≡ some row
    → codec.decode row.content ≡ some rb
    → Runs host id w.host rb.steps (by_status codec host now id e approved w).1.host
claim-Runs codec host now id e row rb w found decoded =
    returned_then (Runs host id w.host rb.steps) w (get_runbook e.runbook_id) _
      (get_runbook-Quiet _) stopped
      (λ r u g h.
        let (found', _) = get_runbook_returned e.runbook_id w u r g in
        let same : row ≡ r = ground (arith, found, found') in
        decoded-Runs host now id e rb (codec.decode r.content) w.host u (rw same at decoded) h)

-- Nothing was run, or the execution was cleared.
abbrev pub RunsOnlyCleared : Codec → Host → Text → Text → World → List (Text × Step) → Type 0
RunsOnlyCleared codec host id requested w after =
    (after ≡ w.host) ⊎ Cleared codec host id requested w after

by_status-Runs :
    (codec : Codec) (host : Host) (now : Time) (id requested : Text) (e : Execution) (s : Status)
    (w u : World)
    → lookup id w.executions ≡ some e
    → e.status ≡ s
    → HashChecked codec e requested w
    → Read w u
    → RunsOnlyCleared codec host id requested w (by_status codec host now id e s u).1.host
unfolding pure raise
by_status-Runs codec host now id requested e approved w u found is c (fs, same) =
    let ran : Runs host id u.host c.runbook.steps
        (by_status codec host now id e approved u).1.host =
      claim-Runs codec host now id e c.row c.runbook u
        (ap (λ x. lookup e.runbook_id x.runbooks) same ∙ c.found) c.decoded in
    inr (record {
      exec = e;
      found = found;
      was_approved = is;
      hash = c;
      ran =
          subst
            (λ r. Runs host id r c.runbook.steps (by_status codec host now id e approved u).1.host)
            (ap (λ x. x.host) same) ran;
    })
by_status-Runs codec host now id requested e _ w u found is c (fs, same) =
    inl (ap (λ x. x.host) same)

-- A call of `execute` runs nothing on the host, or the execution was approved, the hash asked for
-- was that of the execution, of the stored runbook and of its content, and what ran is a beginning
-- of that runbook's steps, in their order, where every step but the last one run succeeded.
pub execute-RunsOnlyCleared :
    (codec : Codec) (host : Host) (now : Time) (id requested : Text) (w : World)
    → RunsOnlyCleared codec host id requested w (execute codec host now id requested w).1.host
unfolding execute
execute-RunsOnlyCleared codec host now id requested w =
    returned_then Target w (get_execution id) _ (get_execution-Quiet id) (inl refl)
      (λ e u g h. checked e u (get_execution_returned id w u e g))
  where
    Target : List (Text × Step) → Type 0
    Target = RunsOnlyCleared codec host id requested w

    checked :
        (e : Execution) (u : World)
        → (lookup id w.executions ≡ some e) × Read w u
        → Target
            ((validate_hash codec e requested >>= λ _. by_status codec host now id e e.status)
              u).1.host
    checked e u (found, (fs, same)) =
        returned_then Target u (validate_hash codec e requested) _
          (validate_hash-Quiet codec e requested) (inl (ap (λ x. x.host) same))
          (λ t v g h.
            let (c, same') = validate_hash_returned codec e requested u v g in
            by_status-Runs codec host now id requested e e.status w v found refl
              (HashChecked-Read codec e requested w u (fs, same) c)
              (Read-trans w u v (fs, same) same'))
