-- ===== src/Session/Attaching/Queueing.antt =====
-- A replay that fits into the queue is queued whole.
use paperboat_helper.Base.{
  ℕ, ◌+◌, ◌≤◌, ◌<◌, ◌≡◌, refl, true, false, none, some, List, [], ◌∷◌, String, length, arith, ok,
  u64_mod, add64_exact, sub64_exact, lookup, insert, string_key, lookup-insert, lookup-insert_self,
  All, ◌≢◌, subst, ◌∙◌,
}
use paperboat_helper.History.{Event}
use paperboat_helper.History.Chain.{Chain, Chain-total}
use paperboat_helper.Session.Fanout.{
  Cursor, Fanout, is_attached_state, is_evicted_state, enqueue_event, enqueue_at, enqueue,
  overflows,
}
use paperboat_helper.Session.Ring.{insert_event, valid_output_event}
use paperboat_helper.Session.Attaching.{queue_step, queue_rest, queue_events}

-- The attachment has queued the run from `start` to `to`, and has room for the rest.
pub record Queued (f : Fanout) (id : String) (max start to : ℕ) : Type 0 where
  pub cursor : Cursor
  pub found : lookup id f.attachments ≡ some cursor
  pub attached : is_attached_state cursor.state ≡ true
  pub limit : cursor.max_bytes ≡ max
  pub counted : start + cursor.queued_bytes ≡ to
  pub unread : cursor.has_cursor ≡ false → start ≡ to
  pub begun : cursor.has_cursor ≡ true → cursor.cursor ≡ start
  pub ended : cursor.has_cursor ≡ true → cursor.enqueued_end ≡ to

abbrev pub NonEmpty : Event → Type 0
NonEmpty e = 0 < length e.bytes

valid_piece :
    (a : ℕ) (e : Event)
    → e.start_sequence ≡ a
    → e.end_sequence ≡ a + length e.bytes
    → 0 < length e.bytes
    → a + length e.bytes < u64_mod
    → valid_output_event e ≡ true
unfolding valid_output_event
valid_piece a e s t pos lt = ground (arith, sub64_exact e.end_sequence e.start_sequence)

not_evicted : (c : Cursor) → is_attached_state c.state ≡ true → is_evicted_state c.state ≡ false
not_evicted c h = ground arith

-- One event that follows the queued run and fits.
enqueue_lem :
    (f : Fanout) (id : String) (max start a : ℕ) (e : Event) (q : Queued f id max start a)
    → e.start_sequence ≡ a
    → e.end_sequence ≡ a + length e.bytes
    → 0 < length e.bytes
    → a + length e.bytes < u64_mod
    → q.cursor.queued_bytes + length e.bytes ≤ max
    → max < u64_mod
    → enqueue_event f id e ≡ (
      record f {
        attachments = insert id (enqueue e q.cursor) f.attachments;
        ring = insert_event e f.ring;
      },
      ok none,
    )
unfolding enqueue_event enqueue_at
enqueue_lem f id max start a e q s t pos lt fits small =
    let c = q.cursor in
    let room : overflows e c ≡ false =
      ground (arith, q.limit, sub64_exact c.max_bytes c.queued_bytes) in
    ground (
      arith,
      valid_piece a e s t pos lt,
      q.found,
      q.attached,
      not_evicted c q.attached,
      q.ended,
      room,
    )

-- The cursor after that event.
enqueue-Queued :
    (f : Fanout) (id : String) (max start a : ℕ) (e : Event) (q : Queued f id max start a)
    → e.start_sequence ≡ a
    → e.end_sequence ≡ a + length e.bytes
    → 0 < length e.bytes
    → q.cursor.queued_bytes + length e.bytes ≤ max
    → max < u64_mod
    → Queued
        (record f {
          attachments = insert id (enqueue e q.cursor) f.attachments;
          ring = insert_event e f.ring;
        })
        id
        max
        start
        e.end_sequence
enqueue-Queued f id max start a e q s t pos fits small =
    let c = q.cursor in
    record {
      cursor = enqueue e c;
      found = lookup-insert_self id (enqueue e c) f.attachments;
      attached = q.attached;
      limit = q.limit;
      counted = omega (arith, q.counted, add64_exact c.queued_bytes (length e.bytes));
      unread = λ h. cc h;
      begun = λ h. ground (arith, q.begun, q.unread);
      ended = λ h. refl;
    }

queue_next :
    (f f' : Fanout) (id : String) (e : Event) (es : List Event)
    → enqueue_event f id e ≡ (f', ok none)
    → queue_events id (e ∷ es) f ≡ queue_events id es f'
unfolding queue_events queue_step queue_rest
queue_next f f' id e es h = rw h

-- A run of events that fits is queued whole, and the other attachments are left alone.
pub queue_events_lem :
    (f : Fanout) (id : String) (max start a b : ℕ) (es : List Event)
    → Queued f id max start a
    → Chain a es b
    → All NonEmpty es
    → b < u64_mod
    → b ≤ start + max
    → max < u64_mod
    → (f' : Fanout) × (queue_events id es f ≡ (f', ok tt))
      × Queued f' id max start b
      × ((j : String) → j ≢ id → lookup j f'.attachments ≡ lookup j f.attachments)
unfolding queue_events
queue_events_lem f id max start a b [] q c n lt le small =
    (f, refl, subst (λ k. Queued f id max start k) c q, λ j ne. refl)
queue_events_lem f id max start a b (e ∷ es) q c n lt le small =
    let sum = Chain-total e.end_sequence b es c.2 in
    let fits : q.cursor.queued_bytes + length e.bytes ≤ max = omega (arith, sum, q.counted, c.1) in
    let f1 = record f {
      attachments = insert id (enqueue e q.cursor) f.attachments;
      ring = insert_event e f.ring;
    } in
    let step : enqueue_event f id e ≡ (f1, ok none) =
      enqueue_lem f id max start a e q c.0 c.1 n.0 (omega (arith, sum)) fits small in
    let (f2, run, q2, others) =
      queue_events_lem f1 id max start e.end_sequence b es
        (enqueue-Queued f id max start a e q c.0 c.1 n.0 fits small) c.2 n.1 lt le small in
    (
      f2,
      queue_next f f1 id e es step ∙ run,
      q2,
      λ j ne.
          others j ne ∙ ground (arith, ne, lookup-insert id j (enqueue e q.cursor) f.attachments),
    )
