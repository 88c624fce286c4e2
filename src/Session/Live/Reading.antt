-- ===== src/Session/Live/Reading.antt =====
-- What the attachments of a session read is what its process has put out.
use paperboat_helper.Base.{
  ℕ, zero, suc, ◌+◌, ◌-◌, max, ◌≤◌, ◌<◌, ◌≡◌, ◌≢◌, refl, sym, subst, ap, ◌∙◌, false, some, List, [],
  ◌∷◌, String, length, drop, take, arith, u64_mod, ok, lookup, string_key, dec_le, All,
}
use paperboat_helper.History.{Event, History, Replay, live, new}
use paperboat_helper.History.Chain.{bytes_of}
use paperboat_helper.History.Invariant.{new-IsValid}
use paperboat_helper.History.Stream.{new-Holds}
use paperboat_helper.Session.Ring.Pieces.{Output, Fits, span}
use paperboat_helper.Session.Fanout.{Cursor, count, holds_attached}
use paperboat_helper.Session.Fanout.Delivery.{new_fanout-Serves}
use paperboat_helper.Session.Fanout.Reading.{IsPending, next_delivers}
use paperboat_helper.Session.Fanout.Draining.{IsReader, read_all, read_all_drains}
use paperboat_helper.Session.Attaching.{attachment_replay_limit}
use paperboat_helper.Session.Attaching.Queueing.{Queued}
use paperboat_helper.Session.Attaching.Tail.{attach_succeeds}
use paperboat_helper.Session.Live.{Live, new_live, attach, next_of}
use paperboat_helper.Session.Live.Pieces.{Begins}
use paperboat_helper.Session.Live.Run.{Op, Sound, run, output, run-Sound}

-- The byte at a position, and `d` behind the end.
nth : ℕ → List ℕ → ℕ → ℕ
nth d [] n = d
nth d (x ∷ xs) zero = x
nth d (x ∷ xs) (suc n) = nth d xs n

of_stream : ℕ → List ℕ → Output
of_stream d stream = record { byte = nth d stream; channel_of = λ n. 1 }

-- A run of the bytes that does not reach behind the end is a part of the stream.
span-shift :
    (d x : ℕ) (xs : List ℕ) (a n : ℕ) → span (nth d (x ∷ xs)) (suc a) n ≡ span (nth d xs) a n
unfolding nth
span-shift d x xs a zero = refl
span-shift d x xs a (suc n) = ap (◌∷◌ (nth d xs a)) (span-shift d x xs (suc a) n)

span_lem :
    (d : ℕ) (xs : List ℕ) (a n : ℕ) → a + n ≤ length xs → span (nth d xs) a n ≡ take n (drop a xs)
unfolding nth
span_lem d xs a zero h = refl
span_lem d [] a (suc n) h = absurd (omega arith)
span_lem d (x ∷ xs) zero (suc n) h =
    ap (◌∷◌ x) (span-shift d x xs 0 n ∙ span_lem d xs 0 n (omega arith))
span_lem d (x ∷ xs) (suc a) (suc n) h =
    span-shift d x xs a (suc n) ∙ span_lem d xs a (suc n) (omega arith)

take_whole : (xs : List ℕ) → take (length xs) xs ≡ xs
take_whole [] = refl
take_whole (x ∷ xs) = ap (◌∷◌ x) (take_whole xs)

of_stream-Begins : (d : ℕ) (xs : List ℕ) → Begins (of_stream d xs) xs
unfolding of_stream
of_stream-Begins d xs = sym (span_lem d xs 0 (length xs) (omega arith) ∙ take_whole xs)

-- A run that is the same whatever stands behind the end does not reach there.
nth_end : (d : ℕ) (xs : List ℕ) (n : ℕ) → length xs ≤ n → nth d xs n ≡ d
unfolding nth
nth_end d [] n h = refl
nth_end d (x ∷ xs) zero h = absurd (omega arith)
nth_end d (x ∷ xs) (suc n) h = nth_end d xs n (omega arith)

head_or : List ℕ → ℕ
head_or [] = 0
head_or (x ∷ xs) = x

tail : List ℕ → List ℕ
tail [] = []
tail (x ∷ xs) = xs

within_stream :
    (xs : List ℕ) (a n : ℕ) → span (nth 0 xs) a n ≡ span (nth 1 xs) a n → 0 < n → a + n ≤ length xs
unfolding head_or tail
within_stream xs a zero e pos = absurd (omega arith)
within_stream xs a (suc zero) e pos = elim (dec_le (length xs) a) [
  | no inside ↦ omega arith
  | yes behind ↦ absurd (omega (arith, ap head_or e, nth_end 0 xs a behind, nth_end 1 xs a behind))
]
within_stream xs a (suc (suc n)) e pos =
    omega (arith, within_stream xs (suc a) (suc n) (ap tail e) (omega arith))

-- What two readings of one stream have in common lies within it.
agreed :
    (xs bytes : List ℕ) (a : ℕ)
    → bytes ≡ span (nth 0 xs) a (length bytes)
    → bytes ≡ span (nth 1 xs) a (length bytes)
    → 0 < length bytes
    → (a + length bytes ≤ length xs) × (bytes ≡ take (length bytes) (drop a xs))
agreed xs bytes a e0 e1 pos =
    let inside = within_stream xs a (length bytes) (sym e0 ∙ e1) pos in
    (inside, e0 ∙ span_lem 0 xs a (length bytes) inside)

agreed_or_none :
    (xs bytes : List ℕ) (a : ℕ)
    → bytes ≡ span (nth 0 xs) a (length bytes)
    → bytes ≡ span (nth 1 xs) a (length bytes)
    → bytes ≡ take (length bytes) (drop a xs)
agreed_or_none xs [] a e0 e1 = refl
agreed_or_none xs (b ∷ bs) a e0 e1 = (agreed xs (b ∷ bs) a e0 e1 (omega arith)).1

new-live : (max_bytes : ℕ) {h : History} → new max_bytes ≡ ok h → live h ≡ []
unfolding new
new-live max_bytes e = ground arith

-- At most `cap` attachments, each with a queue of `n` bytes, from a new session on.
module _ (cap n max_bytes : ℕ) (ops : List Op) {start : History}
    (made : new max_bytes ≡ ok start) where
  ran-Sound :
      (d : ℕ)
      → let stream = output cap n [] (new_live start) ops in
        Sound (of_stream d stream) stream (run cap n (new_live start) ops)
  unfolding of_stream
  ran-Sound d =
      let stream = output cap n [] (new_live start) ops in
      run-Sound cap n (of_stream d stream) [] (new_live start) ops (λ k. refl)
        (of_stream-Begins d stream)
        (record {
          valid = new-IsValid max_bytes made;
          holds = new-Holds max_bytes made;
          pieces =
              subst (λ es. All (Fits (of_stream d stream)) es) (sym (new-live max_bytes made)) tt;
          serves = new_fanout-Serves (of_stream d stream);
        })

  -- After any calls of a new session, in any order, whatever its history has dropped, a reader that
  -- is attached and has something to read gets the bytes that the process has put out from the
  -- reader's cursor on, at least one, and its cursor then stands behind them.
  pub live_reads :
      (id : String) (c : Cursor)
      → IsPending (run cap n (new_live start) ops).fanout id c
      → let l = run cap n (new_live start) ops in
        let stream = output cap n [] (new_live start) ops in
        (e : Event) × ((next_of l id).1 ≡ ok (some e))
        × (e.start_sequence ≡ c.cursor)
        × (e.end_sequence ≡ c.cursor + length e.bytes)
        × (0 < length e.bytes)
        × (e.end_sequence ≤ length stream)
        × (e.bytes ≡ take (length e.bytes) (drop c.cursor stream))
        × (d : Cursor) × (lookup id (next_of l id).0.fanout.attachments ≡ some d)
        × (d.cursor ≡ e.end_sequence)
        × (d.state ≡ c.state)
  unfolding next_of of_stream
  live_reads id c p =
      let l = run cap n (new_live start) ops in
      let stream = output cap n [] (new_live start) ops in
      let (e, answer, starts, ends, pos, content, d, found, at, state) =
        next_delivers (of_stream 0 stream) l.fanout id c (ran-Sound 0).serves p in
      let (e', answer', _, _, _, content', _, _, _, _) =
        next_delivers (of_stream 1 stream) l.fanout id c (ran-Sound 1).serves p in
      let same : e' ≡ e = cc (answer, answer') in
      let content1 : e.bytes ≡ span (nth 1 stream) c.cursor (length e.bytes) =
        subst (λ (x : Event). x.bytes ≡ span (nth 1 stream) c.cursor (length x.bytes)) same
          content' in
      let (inside, bytes) = agreed stream e.bytes c.cursor content content1 pos in
      (e, answer, starts, ends, pos, omega (arith, inside, ends), bytes, d, found, at, state)

  -- After any calls of a new session, an attachment to a retained cursor, under a name that is not
  -- empty and not attached, with room for it and a queue of at least one byte, succeeds: the replay
  -- is the end of what the process has put out, from the cursor on or, where that is more bytes
  -- than the limit of a replay, exactly its newest bytes up to that limit; the queue of the
  -- attachment holds exactly this; the other attachments and the history are left alone.
  pub live_attaches :
      (id : String) (from : ℕ)
      → let l = run cap n (new_live start) ops in
        l.history.earliest ≤ from
        → from ≤ l.history.latest
        → count l.fanout.attachments < cap
        → 0 < n
        → n < u64_mod
        → id ≢ ""
        → holds_attached (lookup id l.fanout.attachments) ≡ false
        → let stream = output cap n [] (new_live start) ops in
          (l' : Live) × (r : Replay) × (attach cap n l id from ≡ (l', ok r))
          × (bytes_of r.events ≡ drop r.from_sequence stream)
          × (r.from_sequence ≡ max from (length stream - attachment_replay_limit n))
          × Queued l'.fanout id n r.from_sequence (length stream)
          × ((j : String) → j ≢ id → lookup j l'.fanout.attachments ≡ lookup j l.fanout.attachments)
          × (l'.history ≡ l.history)
  unfolding attach
  live_attaches id from lo hi room pos small named free =
      let l = run cap n (new_live start) ops in
      let stream = output cap n [] (new_live start) ops in
      let v = ran-Sound 0 in
      let (f, r, done, bytes, place, queued, others) =
        attach_succeeds cap n l.history l.fanout id from stream v.valid v.holds lo hi room pos small
          named free in
      (
        record l { fanout = f },
        r,
        rw done,
        bytes,
        rw (← v.holds.ended) place,
        subst (λ to. Queued f id n r.from_sequence to) v.holds.ended queued,
        others,
        refl,
      )

  -- After any calls of a new session, a reader that is attached and has begun to read catches up:
  -- as many calls of `Next` as bytes are queued for it are enough to bring its cursor to the end of
  -- what is queued, and the bytes that they give are what the process has put out from the reader's
  -- cursor on.
  pub live_drains :
      (id : String) (c : Cursor) (k : ℕ)
      → IsReader (run cap n (new_live start) ops).fanout id c
      → c.enqueued_end ≤ c.cursor + k
      → c.enqueued_end < u64_mod
      → let l = run cap n (new_live start) ops in
        let stream = output cap n [] (new_live start) ops in
        let (f, bytes) = read_all k l.fanout id in
        (d : Cursor) × IsReader f id d
        × (c.enqueued_end ≤ d.cursor)
        × (d.cursor ≡ c.cursor + length bytes)
        × (bytes ≡ take (length bytes) (drop c.cursor stream))
  unfolding of_stream
  live_drains id c k r le lt =
      let l = run cap n (new_live start) ops in
      let stream = output cap n [] (new_live start) ops in
      let (_, one) =
        read_all_drains (of_stream 0 stream) k l.fanout id c (ran-Sound 0).serves r le lt in
      let (_, two) =
        read_all_drains (of_stream 1 stream) k l.fanout id c (ran-Sound 1).serves r le lt in
      (
        one.cursor,
        one.reader,
        one.reached,
        one.counted,
        agreed_or_none stream (read_all k l.fanout id).1 c.cursor one.content two.content,
      )
