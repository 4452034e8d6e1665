-- ===== src/Watchtower/Queue/Overtaken.antt =====
-- Two flushes of the queue of monitor_events.go that overlap: the relay client and the monitor manager
-- both call `FlushQueue`, each in its goroutine.
use rootmote_agent.Prelude.{
  ℕ, zero, suc, ◌≤◌, ◌≡◌, refl, sym, ap, ◌∙◌, true, some, List, [], ◌∷◌, ◌++◌, leb, if◌then◌else◌,
  length, drop, All, All-append, arith, Bool-cases, inl, inr,
}
use mathlib.Core.Path.{subst}
use rootmote_agent.Watchtower.Queue.{
  MonitorEvent, QueueFile, Io, through_wire, condense_monitor_events,
}
use rootmote_agent.Watchtower.Queue.Flush.{
  Meanwhile, enqueued, begun, ended, meanwhile, all_meanwhile, clear_sent, flush_queue,
}
use rootmote_agent.Watchtower.Queue.Stored.{
  IsStored, IsCalm, AllCalm, stored_events, all_meanwhile-AllCalm, stored_events-IsStored,
  begin_flush-IsStored, save-complete, clear_sent-IsCalm, map-through_wire,
}

all_meanwhile-append :
    (a b : List Meanwhile) (file : QueueFile)
    → all_meanwhile (a ++ b) file ≡ all_meanwhile b (all_meanwhile a file)
unfolding all_meanwhile
all_meanwhile-append [] b file = refl
all_meanwhile-append (c ∷ a) b file = all_meanwhile-append a b (meanwhile c file)

stored_events-append :
    (a b : List Meanwhile) → stored_events (a ++ b) ≡ stored_events a ++ stored_events b
stored_events-append [] b = refl
stored_events-append (enqueued io ev ∷ a) b =
    ap (λ l. through_wire ev ∷ l) (stored_events-append a b)
stored_events-append (begun io ∷ a) b = stored_events-append a b
stored_events-append (ended io n ∷ a) b = stored_events-append a b

drop_past : (n : ℕ) (xs : List MonitorEvent) → length xs ≤ n → drop n xs ≡ []
drop_past zero [] h = refl
drop_past zero (x ∷ xs) h = absurd (omega (arith, h))
drop_past (suc n) [] h = refl
drop_past (suc n) (x ∷ xs) h = drop_past n xs (omega (arith, h))

rest_drop :
    (n : ℕ) (xs : List MonitorEvent) → (if leb (length xs) n then [] else drop n xs) ≡ drop n xs
rest_drop n xs = elim (Bool-cases (leb (length xs) n)) [
  | inl y ↦ rw y (sym (drop_past n xs (ground (arith, y))))
  | inr n_less ↦ rw n_less refl
]

drop-IsStored : (n : ℕ) (xs : List MonitorEvent) → All IsStored xs → All IsStored (drop n xs)
drop-IsStored zero xs s = s
drop-IsStored (suc n) [] s = tt
drop-IsStored (suc n) (x ∷ xs) s = drop-IsStored n xs s.1

clear_sent-drop :
    (io : Io) (n : ℕ) (xs : List MonitorEvent)
    → IsCalm io
    → All IsStored xs
    → clear_sent io (some xs) n ≡ (some (drop n xs), true)
unfolding clear_sent
clear_sent-drop io n xs c s =
    simp (c.reads, rest_drop)
      (save-complete io _ (drop n xs) c.writes
        ∙ rw (map-through_wire (drop n xs) (drop-IsStored n xs s)))

-- The queue after events came in, another flush of the same events ended, and more came in.
overtaken :
    (other : Io) (a b : List Meanwhile) (es : List MonitorEvent)
    → IsCalm other
    → AllCalm a
    → AllCalm b
    → All IsStored es
    → all_meanwhile (a ++ (ended other (length es) ∷ b)) (some es) ≡ some (stored_events (a ++ b))
unfolding all_meanwhile meanwhile
overtaken other a b es c calm_a calm_b s =
    let stored_a = stored_events-IsStored a calm_a in
    all_meanwhile-append a (ended other (length es) ∷ b) (some es)
    ∙ ap (λ f. all_meanwhile b (clear_sent other f (length es)).0)
        (all_meanwhile-AllCalm a es calm_a s)
    ∙ ap (λ r. all_meanwhile b r.0) (clear_sent-IsCalm other es (stored_events a) c stored_a)
    ∙ all_meanwhile-AllCalm b (stored_events a) calm_b stored_a
    ∙ ap (λ l. some l) (sym (stored_events-append a b))

-- Where another flush of the same events ends during a flush's send, a third does not, and no file
-- operation fails, the flush drops from the queue as many of the events enqueued meanwhile, the first
-- ones, as it had found at its beginning, or all where there are no more, although it has sent only
-- what it had found.
pub flush-overtaken :
    (before after other : Io) (a b : List Meanwhile) (e : MonitorEvent) (es : List MonitorEvent)
    → before.readable ≡ true
    → IsCalm after
    → IsCalm other
    → AllCalm a
    → AllCalm b
    → All IsStored (e ∷ es)
    → flush_queue before true after (a ++ (ended other (length (e ∷ es)) ∷ b)) (some (e ∷ es)) ≡ (
      some (drop (length (e ∷ es)) (stored_events (a ++ b))),
      true,
      condense_monitor_events (e ∷ es),
    )
unfolding flush_queue
flush-overtaken before after other a b e es r c o calm_a calm_b s =
    let stored = stored_events-append a b in
    rw (begin_flush-IsStored before e es r s) (
      rw (overtaken other a b (e ∷ es) o calm_a calm_b s) (
        rw (
          clear_sent-drop after (length (e ∷ es)) (stored_events (a ++ b)) c (
            subst (λ l. All IsStored l) (sym stored)
              (All-append IsStored _ _ (stored_events-IsStored a calm_a)
                (stored_events-IsStored b calm_b))))))
