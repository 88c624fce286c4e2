-- ===== src/Session/Fanout/Reading.antt =====
-- What `Next` delivers: the stream from the reader's cursor on.
use paperboat_helper.Base.{
  ℕ, ◌+◌, ◌-◌, ◌<◌, ◌≡◌, refl, ◌∙◌, inl, inr, true, not, ◌||◌, Option, none, some, String, length,
  drop, length-drop, sub64_exact, u64_mod, ap, arith, leb, Bool-cases, Option-cases, ok, lookup,
  lookup-insert_self, insert, string_key, Values-insert, Values-lookup,
}
use paperboat_helper.History.{Event}
use paperboat_helper.Session.Ring.{event_at}
use paperboat_helper.Session.Ring.Pieces.{Output, Fits, span, drop-span}
use paperboat_helper.Session.Ring.Insert.{Within}
use paperboat_helper.Session.Ring.Lookup.{event_at-Covered, event_at-lt}
use paperboat_helper.Session.Fanout.{
  Cursor, Fanout, is_attached_state, compact, next, deliver, advance, is_evicted_state,
  rest_of_event,
}
use paperboat_helper.Session.Fanout.Delivery.{Serves, Reads, compact-Serves}

-- A reader with something to read.
pub record IsPending (f : Fanout) (id : String) (c : Cursor) : Type 0 where
  pub found : lookup id f.attachments ≡ some c
  pub attached : is_attached_state c.state ≡ true
  pub reading : c.has_cursor ≡ true
  pub pending : c.cursor < c.enqueued_end
  pub word : c.cursor < u64_mod

-- The rest of a piece of the stream is the stream from there on.
rest_of_event_lem :
    (s : Output) (n : ℕ) (x : Event)
    → Fits s x
    → Within n x
    → n < u64_mod
    → let e = rest_of_event n x in
      (e.end_sequence ≡ n + length e.bytes)
      × (0 < length e.bytes)
      × (e.bytes ≡ span s.byte n (length e.bytes))
rest_of_event_lem s n x fx w lt =
    let k = n - x.start_sequence in
    let offset = sub64_exact n x.start_sequence lt w.0 in
    let at : x.start_sequence + k ≡ n = omega arith in
    let cut : drop k x.bytes ≡ span s.byte n (length x.bytes - k) =
      ap (drop k) fx.content
      ∙ drop-span s.byte k x.start_sequence (length x.bytes) (omega arith)
      ∙ rw at in
    let width : length (drop k x.bytes) ≡ length x.bytes - k = length-drop k x.bytes in
    rw offset (omega (arith, width), omega (arith, width), rw width cut)

next_pending :
    (f : Fanout) (id : String) (c : Cursor)
    → IsPending f id c
    → next f id ≡ deliver f id c (event_at c.cursor f.ring)
unfolding next
next_pending f id c p = ground (arith, p.found, p.attached, p.reading, p.pending)

deliver-Serves :
    (s : Output) (f : Fanout) (id : String) (c : Cursor) (found : Option Event)
    → Serves s f
    → lookup id f.attachments ≡ some c
    → event_at c.cursor f.ring ≡ found
    → Serves s (deliver f id c found).0
unfolding deliver
deliver-Serves s f id c none v at found = v
deliver-Serves s f id c (some e) v at found =
    let ahead = event_at-lt c.cursor f.ring found in
    let mine = Values-lookup (Reads f.ring) id f.attachments v.reads at in
    compact-Serves s (record f { attachments = insert id (advance e c) f.attachments })
      (record {
        stair = v.stair;
        fits = v.fits;
        reads =
            Values-insert (Reads f.ring) id (advance e c) f.attachments
              (λ attached reading n lo hi. mine attached reading n (omega arith) hi) v.reads;
      })

pub next-Serves : (s : Output) (f : Fanout) (id : String) → Serves s f → Serves s (next f id).0
unfolding next
next-Serves s f id v = elim (Option-cases (lookup id f.attachments)) [
  | inl missing ↦ rw (missing, next) v
  | inr (c, found) ↦ elim (Bool-cases (is_evicted_state c.state)) [
    | inl out ↦ rw (found, next, out) v
    | inr not_out ↦ elim (Bool-cases (is_attached_state c.state)) [
      | inr idle ↦ rw (found, next, not_out, idle) v
      | inl attached ↦ elim (Bool-cases (not c.has_cursor || leb c.enqueued_end c.cursor)) [
        | inl nothing ↦ rw (found, next, not_out, attached, nothing) v
        | inr more ↦
            rw (found, next, not_out, attached, more)
              (deliver-Serves s f id c (event_at c.cursor f.ring) v found refl)
      ]
    ]
  ]
]

-- An attached reader that has something to read is never refused: it gets the bytes of the stream
-- from its cursor on, at least one, and its cursor then stands behind them.
pub next_delivers :
    (s : Output) (f : Fanout) (id : String) (c : Cursor)
    → Serves s f
    → IsPending f id c
    → (e : Event) × ((next f id).1 ≡ ok (some e))
      × (e.start_sequence ≡ c.cursor)
      × (e.end_sequence ≡ c.cursor + length e.bytes)
      × (0 < length e.bytes)
      × (e.bytes ≡ span s.byte c.cursor (length e.bytes))
      × (d : Cursor) × (lookup id (next f id).0.attachments ≡ some d)
      × (d.cursor ≡ e.end_sequence)
      × (d.state ≡ c.state)
unfolding deliver compact
next_delivers s f id c v p =
    let covered =
      Values-lookup (Reads f.ring) id f.attachments v.reads p.found p.attached p.reading c.cursor
        (omega arith) p.pending in
    let (x, at, fits, within) = event_at-Covered s c.cursor f.ring v.fits v.stair covered in
    let (ends, some_bytes, content) = rest_of_event_lem s c.cursor x fits within p.word in
    let step : next f id ≡ deliver f id c (some x) =
      next_pending f id c p ∙ ap (deliver f id c) at in
    (
      rest_of_event c.cursor x,
      ap (λ r. r.1) step,
      refl,
      ends,
      some_bytes,
      content,
      advance x c,
      rw step (lookup-insert_self id (advance x c) f.attachments),
      refl,
      refl,
    )

-- What the look-up of `Next` finds.
pub next_finds :
    (s : Output) (f : Fanout) (id : String) (c : Cursor)
    → Serves s f
    → IsPending f id c
    → (x : Event) × (next f id ≡ deliver f id c (some x))
      × (let e = rest_of_event c.cursor x in
          (e.end_sequence ≡ c.cursor + length e.bytes)
          × (0 < length e.bytes)
          × (e.bytes ≡ span s.byte c.cursor (length e.bytes)))
next_finds s f id c v p =
    let covered =
      Values-lookup (Reads f.ring) id f.attachments v.reads p.found p.attached p.reading c.cursor
        (omega arith) p.pending in
    let (x, at, fits, within) = event_at-Covered s c.cursor f.ring v.fits v.stair covered in
    (
      x,
      next_pending f id c p ∙ ap (deliver f id c) at,
      rest_of_event_lem s c.cursor x fits within p.word,
    )
