-- ===== src/History/Replaying.antt =====
-- Replay returns the bytes of the stream from a cursor on, as one run of events.
pub mod Pieces
use paperboat_helper.Base.{
  ℕ, zero, suc, ◌+◌, ◌-◌, ◌≤◌, ◌<◌, max, ◌≡◌, refl, sym, subst, ap, ◌∙◌, ◌⊎◌, inl, inr,
  if◌then◌else◌, Bool, true, false, List, [], ◌∷◌, ◌++◌, length, take, drop, arith, ltb, leb, ◌==◌,
  Bool-cases, dec_le, dec_lt, u64_mod, sub64, sub64_exact, add64_exact, ok, err, length-append,
  length-take, length-drop, ltb→lt,
}
use mathlib.Core.List.{append-nil}
use paperboat_helper.History.{
  Event, History, Replay, gap, invalid_cursor, live, slice, piece, piece_end, replay_loop, replay,
}
use paperboat_helper.History.Chain.{
  Chain, total, bytes_of, drop_nil, drop-append_le, drop-append_length, drop-drop, Chain-total,
}
use paperboat_helper.History.Invariant.{IsValid}
use paperboat_helper.History.Stream.{Holds}
use Pieces.{
  window, Answers, take_all, skip_lem, beyond_lem, whole_unlimited, whole_limited, part_limited,
}

-- A run without a limit returns all from the cursor on.
loop_unlimited :
    (from remaining a b : ℕ) (es : List Event)
    → Chain a es b
    → b < u64_mod
    → from ≤ b
    → Answers
        (max from a)
        0
        remaining
        (drop (max from a - a) (bytes_of es))
        (replay_loop from 0 remaining (max from a) es)
unfolding replay_loop
loop_unlimited from remaining a b [] c lt le = record {
  chain = refl;
  bytes = sym (drop_nil (max from a - a));
}
loop_unlimited from remaining a b (e ∷ es) c lt le =
    let more = loop_unlimited from remaining e.end_sequence b es c.2 lt le in
    let skip = skip_lem 0 remaining from a e es (λ to. replay_loop from 0 remaining to es) c.1 in
    let sum = Chain-total e.end_sequence b es c.2 in
    elim (Bool-cases (leb e.end_sequence from)) [
      | inl before ↦ rw before (skip (ground (arith, c.1)) more)
      | inr here ↦ elim (Bool-cases (ltb (max from e.start_sequence) e.end_sequence)) [
        | inl full ↦
            rw (here, full)
              (subst
                (λ to. Answers to 0 remaining (drop (to - a) (e.bytes ++ bytes_of es)) (
                  piece (max from e.start_sequence) e.end_sequence e
                      ∷ (replay_loop from 0 remaining e.end_sequence es).0,
                  (replay_loop from 0 remaining e.end_sequence es).1,
                ))
                (ap (max from) c.0)
                (whole_unlimited (max from e.start_sequence) a e es c.0 c.1 (omega (arith, c.0))
                  (ltb→lt _ _ full) (omega (arith, sum)) remaining _
                  (beyond_lem 0 remaining from e es (λ to. replay_loop from 0 remaining to es)
                    (ground arith) more)))
        | inr empty ↦ rw (here, empty) (skip (ground (arith, c.1, c.0)) more)
      ]
    ]

-- The step of a run with a limit: the limit ends within the event.
step_part :
    (from limit remaining to : ℕ) (e : Event) (es : List Event)
    → from < e.end_sequence
    → e.end_sequence < u64_mod
    → 0 < remaining
    → remaining < e.end_sequence - max from e.start_sequence
    → let s = max from e.start_sequence in
      replay_loop from (suc limit) remaining to (e ∷ es)
      ≡ (piece s (s + remaining) e ∷ [], s + remaining)
unfolding replay_loop
step_part from limit remaining to e es here lt pos part =
    let s = max from e.start_sequence in
    ground (
      arith,
      sub64_exact e.end_sequence s,
      add64_exact s remaining,
      sub64_exact (s + remaining) s,
      sub64_exact remaining remaining,
    )

-- The limit reaches to the end of the event, or beyond.
step_whole :
    (from limit remaining to : ℕ) (e : Event) (es : List Event)
    → from < e.end_sequence
    → e.end_sequence < u64_mod
    → max from e.start_sequence < e.end_sequence
    → remaining < u64_mod
    → e.end_sequence - max from e.start_sequence ≤ remaining
    → let s = max from e.start_sequence in
      let left = remaining - (e.end_sequence - s) in
      let later = replay_loop from (suc limit) left e.end_sequence es in
      replay_loop from (suc limit) remaining to (e ∷ es) ≡ (
        if left == 0
        then (piece s e.end_sequence e ∷ [], e.end_sequence)
        else (piece s e.end_sequence e ∷ later.0, later.1))
unfolding replay_loop
step_whole from limit remaining to e es here lt full lt' whole =
    let s = max from e.start_sequence in
    let width : sub64 e.end_sequence s ≡ e.end_sequence - s =
      sub64_exact e.end_sequence s lt (omega arith) in
    let left : sub64 remaining (e.end_sequence - s) ≡ remaining - (e.end_sequence - s) =
      sub64_exact remaining (e.end_sequence - s) lt' whole in
    let after : leb e.end_sequence from ≡ false = ground arith in
    let inside : ltb remaining (e.end_sequence - s) ≡ false = ground arith in
    let positive : ltb 0 (suc limit) ≡ true = ground arith in
    let ahead_of : ltb s e.end_sequence ≡ true = ground arith in
    rw (after, positive, width, inside, ahead_of, width, left)

-- The event lies before the cursor, or is empty.
step_skip :
    (from limit remaining to : ℕ) (e : Event) (es : List Event)
    → e.end_sequence < u64_mod
    → (e.end_sequence ≤ from) ⊎ (e.end_sequence ≡ max from e.start_sequence)
    → replay_loop from (suc limit) remaining to (e ∷ es)
      ≡ replay_loop from (suc limit) remaining to es
unfolding replay_loop
step_skip from limit remaining to e es lt h =
    ground (arith, sub64_exact e.end_sequence (max from e.start_sequence))

-- The rest of the event, and what the run returns behind it while the limit lasts.
rest_limited :
    (from limit remaining a b : ℕ) (e : Event) (es : List Event) (later : List Event × ℕ)
    → let s = max from e.start_sequence in
      let left = remaining - (e.end_sequence - s) in
      Chain a (e ∷ es) b
      → b < u64_mod
      → s < e.end_sequence
      → e.end_sequence - s ≤ remaining
      → (0 < left → Answers e.end_sequence (suc limit) left (bytes_of es) later)
      → Answers s (suc limit) remaining (drop (s - a) (e.bytes ++ bytes_of es)) (
          if left == 0
          then (piece s e.end_sequence e ∷ [], e.end_sequence)
          else (piece s e.end_sequence e ∷ later.0, later.1))
rest_limited from limit remaining a b e es later c lt full le more =
    let s = max from e.start_sequence in
    let left = remaining - (e.end_sequence - s) in
    let sum = Chain-total e.end_sequence b es c.2 in
    let whole = λ (found : List Event × ℕ).
      whole_limited s a e es c.0 c.1 (omega (arith, c.0)) full (omega (arith, sum)) limit remaining
        found le in
    elim (Bool-cases (left == 0)) [
      | inl out ↦ rw out (
          whole ([], e.end_sequence)
            (record {
              chain = refl;
              bytes = rw (let none_left : left ≡ 0 = ground arith in none_left);
            }))
      | inr on ↦ rw on (whole later (more (ground arith)))
    ]

-- A run with a limit returns the first bytes from the cursor on.
loop_limited :
    (from limit remaining a b : ℕ) (es : List Event)
    → Chain a es b
    → b < u64_mod
    → from ≤ b
    → 0 < remaining
    → remaining < u64_mod
    → Answers
        (max from a)
        (suc limit)
        remaining
        (drop (max from a - a) (bytes_of es))
        (replay_loop from (suc limit) remaining (max from a) es)
unfolding replay_loop
loop_limited from limit remaining a b [] c lt le pos big = record {
  chain = refl;
  bytes = rw (drop_nil (max from a - a)) (sym (take_all remaining [] (omega arith)));
}
loop_limited from limit remaining a b (e ∷ es) c lt le pos big =
    let sum = Chain-total e.end_sequence b es c.2 in
    let s = max from e.start_sequence in
    let skip =
      skip_lem (suc limit) remaining from a e es
        (λ to. replay_loop from (suc limit) remaining to es) c.1 in
    let skipped = loop_limited from limit remaining e.end_sequence b es c.2 lt le pos big in
    let left = remaining - (e.end_sequence - s) in
    let later = λ (n : ℕ). replay_loop from (suc limit) n e.end_sequence es in
    elim (dec_le e.end_sequence from) [
      | yes before ↦
          rw (step_skip from limit remaining (max from a) e es (omega (arith, sum)) (inl before))
            (skip (omega (arith, c.1)) skipped)
      | no here ↦ elim (dec_le e.end_sequence s) [
        | yes empty ↦
            rw
              (step_skip from limit remaining (max from a) e es (omega (arith, sum))
                (inr (omega (arith, c.1, c.0))))
              (skip (omega (arith, c.1, c.0)) skipped)
        | no full ↦ elim (dec_lt remaining (e.end_sequence - s)) [
          | yes part ↦
              rw
                (step_part from limit remaining (max from a) e es (omega arith) (omega (arith, sum))
                  pos part)
                (subst
                  (λ to.
                    Answers to (suc limit) remaining (drop (to - a) (e.bytes ++ bytes_of es))
                      (piece s (s + remaining) e ∷ [], s + remaining))
                  (ap (max from) c.0)
                  (part_limited s a e es c.0 c.1 (omega (arith, c.0)) (omega arith)
                    (omega (arith, sum)) limit remaining (omega arith)))
          | no covers ↦
              rw
                (step_whole from limit remaining (max from a) e es (omega arith)
                  (omega (arith, sum)) (omega arith) big (omega arith))
                (subst
                  (λ to. Answers to (suc limit) remaining (drop (to - a) (e.bytes ++ bytes_of es)) (
                    if left == 0
                    then (piece s e.end_sequence e ∷ [], e.end_sequence)
                    else (piece s e.end_sequence e ∷ (later left).0, (later left).1)))
                  (ap (max from) c.0)
                  (rest_limited from limit remaining a b e es (later left) c lt (omega arith)
                    (omega arith)
                    (λ some_left.
                      beyond_lem (suc limit) left from e es
                        (λ to. replay_loop from (suc limit) left to es) (omega arith)
                        (loop_limited from limit left e.end_sequence b es c.2 lt le some_left
                          (omega arith)))))
        ]
      ]
    ]

-- The two runs as one, at a cursor within the chain.
loop_Answers :
    (from limit a b : ℕ) (es : List Event)
    → Chain a es b
    → b < u64_mod
    → a ≤ from
    → from ≤ b
    → limit < u64_mod
    → Answers from limit limit
        (drop (from - a) (bytes_of es))
        (replay_loop from limit limit from es)
loop_Answers from zero a b es c lt lo hi big =
    rw (let e : max from a ≡ from = omega arith in e) at (loop_unlimited from zero a b es c lt hi)
loop_Answers from (suc limit) a b es c lt lo hi big =
    rw (let e : max from a ≡ from = omega arith in e) at
      (loop_limited from limit (suc limit) a b es c lt hi (omega arith) big)

-- A replay from a retained cursor succeeds, and returns the bytes of the stream from it on, the
-- first `limit` of them where there is a limit; its events are one run that starts at the cursor
-- and ends at `to_sequence`.
pub replay-stream :
    (h : History) (from limit : ℕ) (stream : List ℕ)
    → IsValid h
    → Holds h stream
    → h.earliest ≤ from
    → from ≤ h.latest
    → limit < u64_mod
    → (r : Replay) × (replay h from limit ≡ ok r)
      × (bytes_of r.events ≡ window limit limit (drop from stream))
      × Chain from r.events r.to_sequence
unfolding replay
replay-stream h from limit stream v s lo hi big =
    let found = replay_loop from limit limit from (live h) in
    let answers =
      loop_Answers from limit h.earliest h.latest (live h) v.linked.chain v.linked.latest_lt lo hi
        big in
    let index : h.earliest + (from - h.earliest) ≡ from = omega arith in
    let cursor : drop (from - h.earliest) (bytes_of (live h)) ≡ drop from stream =
      ap (drop (from - h.earliest)) s.retained
      ∙ drop-drop (from - h.earliest) h.earliest stream
      ∙ rw index in
    (
      record {
        from_sequence = from;
        to_sequence = found.1;
        earliest_sequence = h.earliest;
        latest_sequence = h.latest;
        events = found.0;
      },
      ground arith,
      answers.bytes ∙ ap (window limit limit) cursor,
      answers.chain,
    )
