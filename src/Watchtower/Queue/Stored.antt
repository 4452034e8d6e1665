-- ===== src/Watchtower/Queue/Stored.antt =====
-- What the queue of monitor_events.go keeps: an accepted event is not lost, and a flush clears
-- exactly what it has sent.
use rootmote_agent.Prelude.{
  ◌≡◌, refl, Bool, true, false, Option, none, some, List, [], ◌∷◌, ◌++◌, map, leb, ap,
  if◌then◌else◌, length, drop, All, All-append, arith, Text, drop-length_append, length-append, ◌∙◌,
  lt→leb, Option-cases, Bool-cases, inl, inr,
}
use mathlib.Core.List.{append-nil, append_assoc}
use rootmote_agent.Watchtower.Queue.{
  MonitorEvent, QueueFile, Io, complete, through_wire, save_monitor_queue, ensure_monitor_event_ids,
  enqueue_monitor_event, condense_monitor_events, is_empty,
}
use rootmote_agent.Watchtower.Queue.Flush.{
  Meanwhile, enqueued, begun, ended, meanwhile, all_meanwhile, sending, clear_sent, file_of,
  flush_queue, begin_flush,
}

-- An event as the file holds it: with an id, and with whole seconds.
abbrev pub IsStored : MonitorEvent → Type 0
IsStored e = (is_empty e.event_id ≡ false) × (through_wire e ≡ e)

pub through_wire_idem : (e : MonitorEvent) → through_wire (through_wire e) ≡ through_wire e
unfolding through_wire
through_wire_idem e = ground arith

pub map-through_wire : (es : List MonitorEvent) → All IsStored es → map through_wire es ≡ es
map-through_wire [] s = refl
map-through_wire (e ∷ es) s = rw (s.0.1) (rw (map-through_wire es s.1))

ensure-IsStored :
    (ids : List Text) (es : List MonitorEvent)
    → All (λ e. is_empty e.event_id ≡ false) es
    → ensure_monitor_event_ids ids es ≡ some (es, false)
unfolding ensure_monitor_event_ids
ensure-IsStored ids [] s = refl
ensure-IsStored [] (e ∷ es) s = rw (s.0) (rw (ensure-IsStored [] es s.1))
ensure-IsStored (id ∷ ids) (e ∷ es) s = rw (s.0) (rw (ensure-IsStored (id ∷ ids) es s.1))

-- A call in which nothing fails.
pub record IsCalm (io : Io) : Type 0 where
  pub reads : io.readable ≡ true
  pub writes : io.write ≡ complete

HasId : MonitorEvent → Type 0
HasId e = is_empty e.event_id ≡ false

All-HasId : (es : List MonitorEvent) → All IsStored es → All HasId es
All-HasId [] s = tt
All-HasId (e ∷ es) s = (unfold HasId in s.0.0, All-HasId es s.1)

through_wire-IsStored : (e : MonitorEvent) → is_empty e.event_id ≡ false → IsStored (through_wire e)
through_wire-IsStored e i = (unfold through_wire in i, through_wire_idem e)

map-append_one :
    (es : List MonitorEvent) (e : MonitorEvent)
    → All IsStored es
    → map through_wire (es ++ (e ∷ [])) ≡ es ++ (through_wire e ∷ [])
map-append_one [] e s = refl
map-append_one (d ∷ es) e s = rw (s.0.1) (rw (map-append_one es e s.1))

enqueue-IsCalm :
    (io : Io) (ev : MonitorEvent) (es : List MonitorEvent)
    → IsCalm io
    → is_empty ev.event_id ≡ false
    → All IsStored es
    → enqueue_monitor_event io ev (some es) ≡ (some (es ++ (through_wire ev ∷ [])), true)
unfolding enqueue_monitor_event HasId
enqueue-IsCalm io ev es c i s = rw (
  c.reads,
  ensure-IsStored io.ids (es ++ (ev ∷ [])) (All-append HasId es (ev ∷ []) (All-HasId es s) (i, tt)),
  c.writes,
  map-append_one es ev s,
)

-- The calls of other goroutines only enqueue events, with ids and without failures, or begin flushes.
abbrev pub AllCalm : List Meanwhile → Type 0
AllCalm [] = Unit
AllCalm (enqueued io ev ∷ calls) = (IsCalm io × (is_empty ev.event_id ≡ false)) × AllCalm calls
AllCalm (begun io ∷ calls) = AllCalm calls
AllCalm (ended io n ∷ calls) = ⊥

abbrev pub stored_events : List Meanwhile → List MonitorEvent
stored_events [] = []
stored_events (enqueued io ev ∷ calls) = through_wire ev ∷ stored_events calls
stored_events (begun io ∷ calls) = stored_events calls
stored_events (ended io n ∷ calls) = stored_events calls

-- A flush that begins on events with ids leaves the file as it is.
begin_flush-file :
    (io : Io) (es : List MonitorEvent)
    → All IsStored es
    → file_of (begin_flush io (some es)) ≡ some es
unfolding begin_flush HasId
begin_flush-file io [] s = ground arith
begin_flush-file io (e ∷ es) s =
    let ids = ensure-IsStored io.ids (e ∷ es) (All-HasId (e ∷ es) s) in
    elim (Bool-cases io.readable) [ inl t ↦ simp (t, ids) | inr f ↦ simp f ]

pub all_meanwhile-AllCalm :
    (calls : List Meanwhile) (es : List MonitorEvent)
    → AllCalm calls
    → All IsStored es
    → all_meanwhile calls (some es) ≡ some (es ++ stored_events calls)
unfolding all_meanwhile meanwhile
all_meanwhile-AllCalm [] es c s = rw append-nil
all_meanwhile-AllCalm (enqueued io ev ∷ calls) es c s =
    ap (λ r. all_meanwhile calls r.0) (enqueue-IsCalm io ev es c.0.0 c.0.1 s)
    ∙ all_meanwhile-AllCalm calls (es ++ (through_wire ev ∷ [])) c.1
        (All-append IsStored es _ s (through_wire-IsStored ev c.0.1, tt))
    ∙ ap (λ l. some l) (append_assoc es (through_wire ev ∷ []) (stored_events calls))
all_meanwhile-AllCalm (begun io ∷ calls) es c s =
    ap (all_meanwhile calls) (begin_flush-file io es s) ∙ all_meanwhile-AllCalm calls es c s
all_meanwhile-AllCalm (ended io n ∷ calls) es c s = absurd c

pub stored_events-IsStored :
    (calls : List Meanwhile) → AllCalm calls → All IsStored (stored_events calls)
stored_events-IsStored [] c = tt
stored_events-IsStored (enqueued io ev ∷ calls) c =
    (through_wire-IsStored ev c.0.1, stored_events-IsStored calls c.1)
stored_events-IsStored (begun io ∷ calls) c = stored_events-IsStored calls c
stored_events-IsStored (ended io n ∷ calls) c = absurd c

pub begin_flush-IsStored :
    (io : Io) (e : MonitorEvent) (es : List MonitorEvent)
    → io.readable ≡ true
    → All IsStored (e ∷ es)
    → begin_flush io (some (e ∷ es))
      ≡ sending (some (e ∷ es)) (length (e ∷ es)) (condense_monitor_events (e ∷ es))
unfolding begin_flush HasId
begin_flush-IsStored io e es r s =
    let ids = ensure-IsStored io.ids (e ∷ es) (All-HasId (e ∷ es) s) in
    elim (Bool-cases io.readable) [ inl t ↦ simp (t, ids) | inr f ↦ cc ]

rest_after :
    (xs ys : List MonitorEvent)
    → (if leb (length (xs ++ ys)) (length xs) then [] else drop (length xs) (xs ++ ys)) ≡ ys
rest_after xs [] = rw append-nil (ground arith)
rest_after xs (y ∷ ys) =
    rw (lt→leb (length (xs ++ (y ∷ ys))) (length xs) (omega (arith, length-append xs (y ∷ ys))))
      (drop-length_append xs (y ∷ ys))

pub save-complete :
    (io : Io) (file : QueueFile) (es : List MonitorEvent)
    → io.write ≡ complete
    → save_monitor_queue io file es ≡ (some (map through_wire es), true)
unfolding save_monitor_queue
save-complete io file es c = rw c

pub clear_sent-IsCalm :
    (io : Io) (xs ys : List MonitorEvent)
    → IsCalm io
    → All IsStored ys
    → clear_sent io (some (xs ++ ys)) (length xs) ≡ (some ys, true)
unfolding clear_sent
clear_sent-IsCalm io xs ys c s =
    simp (c.reads, rest_after) (save-complete io _ ys c.writes ∙ rw (map-through_wire ys s))

-- A flush whose send succeeds sends the condensed queue, and leaves exactly the events that other
-- goroutines enqueued while it was being sent, if they ended no flush of their own then and no file
-- operation fails.
pub flush-sent :
    (before after : Io) (during : List Meanwhile) (e : MonitorEvent) (es : List MonitorEvent)
    → before.readable ≡ true
    → IsCalm after
    → AllCalm during
    → All IsStored (e ∷ es)
    → flush_queue before true after during (some (e ∷ es))
      ≡ (some (stored_events during), true, condense_monitor_events (e ∷ es))
unfolding flush_queue
flush-sent before after during e es r c d s = rw (begin_flush-IsStored before e es r s) (
    rw (all_meanwhile-AllCalm during (e ∷ es) d s) (
      rw (
        clear_sent-IsCalm after (e ∷ es) (stored_events during) c
          (stored_events-IsStored during d))))

-- A flush whose send fails clears nothing: the queue holds what it held, and the events that came
-- in since, if no other flush ended then and no file operation fails.
pub flush-failed :
    (before after : Io) (during : List Meanwhile) (e : MonitorEvent) (es : List MonitorEvent)
    → before.readable ≡ true
    → AllCalm during
    → All IsStored (e ∷ es)
    → flush_queue before false after during (some (e ∷ es))
      ≡ (some ((e ∷ es) ++ stored_events during), false, condense_monitor_events (e ∷ es))
unfolding flush_queue
flush-failed before after during e es r d s =
    rw (begin_flush-IsStored before e es r s) (rw (all_meanwhile-AllCalm during (e ∷ es) d s))

-- The event with the id that it gets.
abbrev with_id : List Text → MonitorEvent → Option MonitorEvent
with_id [] ev = if is_empty ev.event_id then none else some ev
with_id (id ∷ ids) ev = if is_empty ev.event_id then some (record ev { event_id = id }) else some ev

abbrev snoc_result :
    List MonitorEvent → Bool → Option MonitorEvent → Option (List MonitorEvent × Bool)
snoc_result es b none = none
snoc_result es b (some e) = some (es ++ (e ∷ []), b)

ensure-snoc :
    (ids : List Text) (es : List MonitorEvent) (ev : MonitorEvent)
    → All HasId es
    → ensure_monitor_event_ids ids (es ++ (ev ∷ []))
      ≡ snoc_result es (is_empty ev.event_id) (with_id ids ev)
unfolding ensure_monitor_event_ids HasId
ensure-snoc [] [] ev h = ground arith
ensure-snoc (id ∷ ids) [] ev h = ground arith
ensure-snoc [] (e ∷ es) ev h = ground (arith, ensure-snoc [] es ev h.1)
ensure-snoc (id ∷ ids) (e ∷ es) ev h = ground (arith, ensure-snoc (id ∷ ids) es ev h.1)

with_id-HasId :
    (ids : List Text) (ev e : MonitorEvent)
    → All (λ id. is_empty id ≡ false) ids
    → with_id ids ev ≡ some e
    → (e ≡ record ev { event_id = e.event_id }) × (is_empty e.event_id ≡ false)
with_id-HasId [] ev e n h = ground arith
with_id-HasId (id ∷ ids) ev e n h = ground arith

save-accepted :
    (io : Io) (file : QueueFile) (es : List MonitorEvent)
    → (save_monitor_queue io file es).1 ≡ true
    → (save_monitor_queue io file es).0 ≡ some (map through_wire es)
unfolding save_monitor_queue
save-accepted io file es h = ground arith

-- Whatever the file system and the random source do, a call that reports no error has kept every
-- queued event and added the new one at the end, under an id and with its times in whole seconds.
pub enqueue-accepted :
    (io : Io) (ev : MonitorEvent) (es : List MonitorEvent)
    → All IsStored es
    → All (λ id. is_empty id ≡ false) io.ids
    → (enqueue_monitor_event io ev (some es)).1 ≡ true
    → (e : MonitorEvent) × ((enqueue_monitor_event io ev (some es)).0
        ≡ some (es ++ (through_wire e ∷ [])))
      × (e ≡ record ev { event_id = e.event_id })
      × IsStored (through_wire e)
unfolding enqueue_monitor_event
enqueue-accepted io ev es s n h = elim (Bool-cases io.readable) [
  | inr r ↦ absurd (let h' = simp r at h in cc)
  | inl r ↦ elim (Option-cases (with_id io.ids ev)) [
    | inl w ↦ absurd (let h' = simp (r, ensure-snoc io.ids es ev (All-HasId es s), w) at h in cc)
    | inr found ↦
        let (e, w) = found in
        let (same, id) = with_id-HasId io.ids ev e n w in
        let h' = simp (r, ensure-snoc io.ids es ev (All-HasId es s), w) at h in
        (
          e,
          simp (r, ensure-snoc io.ids es ev (All-HasId es s), w)
              (save-accepted io _ _ h' ∙ ap (λ l. some l) (map-append_one es e s)),
          same,
          through_wire-IsStored e id,
        )
  ]
]
