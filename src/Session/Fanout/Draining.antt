-- ===== src/Session/Fanout/Draining.antt =====
-- A reader that keeps calling `Next` catches up with what is queued for it.
use paperboat_helper.Base.{
  ℕ, zero, suc, ◌+◌, ◌≤◌, ◌<◌, ◌≡◌, refl, ◌∙◌, true, Option, none, some, List, [], ◌∷◌, ◌++◌,
  String, length, arith, Result, ok, err, lookup, string_key, u64_mod, dec_lt, length-append, sym,
  ap, subst, lookup-insert_self,
}
use paperboat_helper.History.{Event}
use paperboat_helper.Session.Ring.Pieces.{Output, span}
use paperboat_helper.Session.Fanout.{
  Cursor, Fanout, Error, is_attached_state, next, deliver, advance, compact, rest_of_event,
}
use paperboat_helper.Session.Fanout.Delivery.{Serves}
use paperboat_helper.Session.Fanout.Reading.{next_finds, next-Serves}

-- The reader goes on behind an event, and stops where there is none.
pub read_rest : (Fanout → Fanout × List ℕ) → Fanout × Result Error (Option Event) → Fanout × List ℕ
read_rest again (f, err e) = (f, [])
read_rest again (f, ok none) = (f, [])
read_rest again (f, ok (some e)) = let (f', bytes) = again f in (f', e.bytes ++ bytes)

-- At most `n` calls of `Next`, until there is nothing to read: the bytes of the events.
pub read_all : ℕ → Fanout → String → Fanout × List ℕ
unfolding read_rest
read_all zero f id = (f, [])
read_all (suc n) f id = read_rest (λ g. read_all n g id) (next f id)

span-append : (b : ℕ → ℕ) (a m n : ℕ) → span b a m ++ span b (a + m) n ≡ span b a (m + n)
span-append b a zero n =
    rw (let e : a + 0 ≡ a = omega arith in e, let e : 0 + n ≡ n = omega arith in e)
span-append b a (suc m) n =
    rw
      (
        let e : a + suc m ≡ suc a + m = omega arith in e,
        let e : suc m + n ≡ suc (m + n) = omega arith in e,
      )
      (ap (◌∷◌ (b a)) (span-append b (suc a) m n))

-- A reader that has begun.
pub record IsReader (f : Fanout) (id : String) (c : Cursor) : Type 0 where
  pub found : lookup id f.attachments ≡ some c
  pub attached : is_attached_state c.state ≡ true
  pub reading : c.has_cursor ≡ true

-- It has caught up, and read the bytes of the stream from `start` on.
pub record CaughtUp (s : Output) (start end : ℕ) (id : String) (f : Fanout) (bytes : List ℕ)
    : Type 0 where
  pub cursor : Cursor
  pub reader : IsReader f id cursor
  pub reached : end ≤ cursor.cursor
  pub counted : cursor.cursor ≡ start + length bytes
  pub content : bytes ≡ span s.byte start (length bytes)
  pub enqueued : cursor.enqueued_end ≡ end

-- Nothing is left to read.
next_idle :
    (f : Fanout) (id : String) (c : Cursor)
    → IsReader f id c
    → c.enqueued_end ≤ c.cursor
    → next f id ≡ (f, ok none)
unfolding next
next_idle f id c r h = ground (arith, r.found, r.attached, r.reading)

idle_CaughtUp :
    (s : Output) (f : Fanout) (id : String) (c : Cursor)
    → IsReader f id c
    → c.enqueued_end ≤ c.cursor
    → CaughtUp s c.cursor c.enqueued_end id f []
idle_CaughtUp s f id c r h = record {
  cursor = c;
  reader = r;
  reached = h;
  counted = omega arith;
  content = refl;
  enqueued = refl;
}

advance-IsReader :
    (f : Fanout) (id : String) (c : Cursor) (x : Event)
    → IsReader f id c
    → IsReader (deliver f id c (some x)).0 id (advance x c)
unfolding deliver compact
advance-IsReader f id c x r = record {
  found = lookup-insert_self id (advance x c) f.attachments;
  attached = r.attached;
  reading = r.reading;
}

-- The events that are read join into one run of the stream.
join_CaughtUp :
    (s : Output) (start end k : ℕ) (id : String) (f : Fanout) (xs ys : List ℕ)
    → xs ≡ span s.byte start (length xs)
    → k ≡ start + length xs
    → CaughtUp s k end id f ys
    → CaughtUp s start end id f (xs ++ ys)
join_CaughtUp s start end k id f xs ys content at c = record {
  cursor = c.cursor;
  reader = c.reader;
  reached = c.reached;
  counted = omega (arith, c.counted, length-append xs ys);
  content =
      ap (λ (p : List ℕ). p ++ ys) content
      ∙ ap (λ (q : List ℕ). span s.byte start (length xs) ++ q) (c.content ∙ rw at)
      ∙ span-append s.byte start (length xs) (length ys)
      ∙ ap (span s.byte start) (sym (length-append xs ys));
  enqueued = c.enqueued;
}

read_next :
    (f g : Fanout) (id : String) (n : ℕ) (e : Event)
    → next f id ≡ (g, ok (some e))
    → read_all (suc n) f id ≡ ((read_all n g id).0, e.bytes ++ (read_all n g id).1)
unfolding read_all read_rest
read_next f g id n e h = rw h

read_none :
    (f : Fanout) (id : String) (n : ℕ) → next f id ≡ (f, ok none) → read_all (suc n) f id ≡ (f, [])
unfolding read_all read_rest
read_none f id n h = rw h

-- As many calls as bytes are queued are enough.
pub read_all_drains :
    (s : Output) (n : ℕ) (f : Fanout) (id : String) (c : Cursor)
    → Serves s f
    → IsReader f id c
    → c.enqueued_end ≤ c.cursor + n
    → c.enqueued_end < u64_mod
    → let (g, bytes) = read_all n f id in Serves s g × CaughtUp s c.cursor c.enqueued_end id g bytes
unfolding read_all
read_all_drains s zero f id c v r le lt = (v, idle_CaughtUp s f id c r (omega arith))
read_all_drains s (suc n) f id c v r le lt = elim (dec_lt c.cursor c.enqueued_end) [
  | no done ↦
      rw (read_none f id n (next_idle f id c r (omega arith)))
        (v, idle_CaughtUp s f id c r (omega arith))
  | yes more ↦
      let (x, step, (ends, some_bytes, content)) = next_finds s f id c v (record {
        found = r.found;
        attached = r.attached;
        reading = r.reading;
        pending = more;
        word = omega arith;
      }) in
      let g = (deliver f id c (some x)).0 in
      let (v', done) =
        read_all_drains s n g id (advance x c)
          (subst (λ p. Serves s p) (ap (λ r. r.0) step) (next-Serves s f id v))
          (advance-IsReader f id c x r) (omega arith) lt in
      rw (read_next f g id n (rest_of_event c.cursor x) (step ∙ unfold deliver in refl)) (
        v',
        join_CaughtUp s c.cursor c.enqueued_end x.end_sequence id (read_all n g id).0
            (rest_of_event c.cursor x).bytes (read_all n g id).1 content ends done,
      )
]
