-- ===== src/History/Replaying/Pieces.antt =====
-- The pieces of events that a replay returns, and the bytes of the run that they form.
use paperboat_helper.Base.{
  ℕ, zero, suc, ◌+◌, ◌-◌, ◌≤◌, ◌<◌, max, ◌≡◌, refl, sym, ap, ◌∙◌, List, [], ◌∷◌, ◌++◌, length, take,
  drop, arith, u64_mod, sub64_exact, length-take, length-drop,
}
use mathlib.Core.List.{append-nil}
use paperboat_helper.History.{Event, piece}
use paperboat_helper.History.Chain.{Chain, bytes_of, drop-append_le}

-- A limit of 0 is none.
abbrev pub window : ℕ → ℕ → List ℕ → List ℕ
window zero remaining xs = xs
window (suc limit) remaining xs = take remaining xs

module _ {ℓ} {A : Type ℓ} where
  pub take_all : (n : ℕ) (xs : List A) → length xs ≤ n → take n xs ≡ xs
  take_all zero [] h = refl
  take_all zero (x ∷ xs) h = absurd (omega arith)
  take_all (suc n) [] h = refl
  take_all (suc n) (x ∷ xs) h = ap (◌∷◌ x) (take_all n xs (omega arith))

  pub take-append_le : (n : ℕ) (xs ys : List A) → n ≤ length xs → take n (xs ++ ys) ≡ take n xs
  take-append_le zero xs ys h = refl
  take-append_le (suc n) [] ys h = absurd (omega arith)
  take-append_le (suc n) (x ∷ xs) ys h = ap (◌∷◌ x) (take-append_le n xs ys (omega arith))

  pub take-append_ge :
      (n : ℕ) (xs ys : List A) → length xs ≤ n → take n (xs ++ ys) ≡ xs ++ take (n - length xs) ys
  take-append_ge n [] ys h = rw (let e : n - 0 ≡ n = omega arith in e)
  take-append_ge zero (x ∷ xs) ys h = absurd (omega arith)
  take-append_ge (suc n) (x ∷ xs) ys h =
      rw (let e : suc n - suc (length xs) ≡ n - length xs = omega arith in e)
        (ap (◌∷◌ x) (take-append_ge n xs ys (omega arith)))

  pub drop-append_ge :
      (n : ℕ) (xs ys : List A) → length xs ≤ n → drop n (xs ++ ys) ≡ drop (n - length xs) ys
  drop-append_ge n [] ys h = rw (let e : n - 0 ≡ n = omega arith in e)
  drop-append_ge zero (x ∷ xs) ys h = absurd (omega arith)
  drop-append_ge (suc n) (x ∷ xs) ys h =
      rw (let e : suc n - suc (length xs) ≡ n - length xs = omega arith in e)
        (drop-append_ge n xs ys (omega arith))

-- What a part of the loop returns: a run of events from `to` on, with the bytes of the window.
pub record Answers (to limit remaining : ℕ) (xs : List ℕ) (found : List Event × ℕ) : Type 0 where
  pub chain : Chain to found.0 found.1
  pub bytes : bytes_of found.0 ≡ window limit remaining xs

-- The bytes of a piece that lies within its event.
piece_lem :
    (start stop : ℕ) (e : Event)
    → e.start_sequence ≤ start
    → start ≤ stop
    → stop < u64_mod
    → (piece start stop e).bytes ≡ take (stop - start) (drop (start - e.start_sequence) e.bytes)
piece_lem start stop e lo hi lt =
    let low = sub64_exact start e.start_sequence (omega arith) lo in
    let high = sub64_exact stop e.start_sequence (omega arith) (omega arith) in
    rw (
      low,
      high,
      let q : stop - e.start_sequence - (start - e.start_sequence) ≡ stop - start = omega arith in
          q,
    )

-- An event that ends at or before the cursor `to` adds nothing.
pub skip_lem :
    (limit remaining from a : ℕ) (e : Event) (es : List Event) (found : ℕ → List Event × ℕ)
    → e.end_sequence ≡ a + length e.bytes
    → max from e.end_sequence ≡ max from a
    → Answers
        (max from e.end_sequence)
        limit
        remaining
        (drop (max from e.end_sequence - e.end_sequence) (bytes_of es))
        (found (max from e.end_sequence))
    → Answers
        (max from a)
        limit
        remaining
        (drop (max from a - a) (e.bytes ++ bytes_of es))
        (found (max from a))
skip_lem limit remaining from a e es found t same more =
    let index : max from a - a - length e.bytes ≡ max from a - e.end_sequence = omega arith in
    rw (drop-append_ge (max from a - a) e.bytes (bytes_of es) (omega arith), index)
      (rw same at more)

-- The section's event reaches beyond the cursor `s`, which lies in it or before it.
module _ (s a : ℕ) (e : Event) (es : List Event) (start : e.start_sequence ≡ a)
    (stop : e.end_sequence ≡ a + length e.bytes) (lo : a ≤ s) (hi : s < e.end_sequence)
    (lt : e.end_sequence < u64_mod) where
  whole_piece : (piece s e.end_sequence e).bytes ≡ drop (s - a) e.bytes
  whole_piece =
      piece_lem s e.end_sequence e (omega arith) (omega arith) lt
      ∙ rw start (
          take_all (e.end_sequence - s) (drop (s - a) e.bytes)
            (omega (arith, length-drop (s - a) e.bytes)))

  -- The rest of the event, and what follows it.
  ahead : drop (s - a) (e.bytes ++ bytes_of es) ≡ drop (s - a) e.bytes ++ bytes_of es
  ahead = drop-append_le (s - a) e.bytes (bytes_of es) (omega arith)

  -- The piece is the rest of the event, and `found` goes on behind it.
  whole_Chain :
      (found : List Event × ℕ)
      → Chain e.end_sequence found.0 found.1
      → Chain s (piece s e.end_sequence e ∷ found.0) found.1
  whole_Chain found c = (refl, omega (arith, ap length whole_piece, length-drop (s - a) e.bytes), c)

  pub whole_unlimited :
      (remaining : ℕ) (found : List Event × ℕ)
      → Answers e.end_sequence 0 remaining (bytes_of es) found
      → Answers s 0 remaining
          (drop (s - a) (e.bytes ++ bytes_of es))
          (piece s e.end_sequence e ∷ found.0, found.1)
  whole_unlimited remaining found more = record {
    chain = whole_Chain found more.chain;
    bytes = rw (whole_piece, ahead, more.bytes);
  }

  -- The limit reaches beyond the event.
  pub whole_limited :
      (limit remaining : ℕ) (found : List Event × ℕ)
      → e.end_sequence - s ≤ remaining
      → Answers e.end_sequence (suc limit) (remaining - (e.end_sequence - s)) (bytes_of es) found
      → Answers s
          (suc limit)
          remaining
          (drop (s - a) (e.bytes ++ bytes_of es))
          (piece s e.end_sequence e ∷ found.0, found.1)
  whole_limited limit remaining found le more =
      let len : length (drop (s - a) e.bytes) ≡ e.end_sequence - s =
        omega (arith, length-drop (s - a) e.bytes) in
      record {
        chain = whole_Chain found more.chain;
        bytes = rw (
          whole_piece,
          ahead,
          more.bytes,
          take-append_ge remaining (drop (s - a) e.bytes) (bytes_of es) (omega (arith, len)),
          len,
        );
      }

  -- The limit ends within the event, or at its end.
  pub part_limited :
      (limit remaining : ℕ)
      → remaining ≤ e.end_sequence - s
      → Answers s
          (suc limit)
          remaining
          (drop (s - a) (e.bytes ++ bytes_of es))
          (piece s (s + remaining) e ∷ [], s + remaining)
  part_limited limit remaining le =
      let index : s + remaining - s ≡ remaining = omega arith in
      let cut : (piece s (s + remaining) e).bytes ≡ take remaining (drop (s - a) e.bytes) =
        piece_lem s (s + remaining) e (omega arith) (omega arith) (omega arith)
        ∙ rw (index, start) in
      let len : length (drop (s - a) e.bytes) ≡ e.end_sequence - s =
        omega (arith, length-drop (s - a) e.bytes) in
      record {
        chain = (
          refl,
          omega (arith, ap length cut, length-take remaining (drop (s - a) e.bytes), len),
          refl,
        );
        bytes =
            append-nil (piece s (s + remaining) e).bytes
            ∙ cut
            ∙ rw ahead (
                sym (
                  take-append_le remaining (drop (s - a) e.bytes) (bytes_of es)
                    (omega (arith, len))));
      }

-- Behind an event that reaches beyond `from`, the run goes on at its end.
pub beyond_lem :
    (limit remaining from : ℕ) (e : Event) (es : List Event) (found : ℕ → List Event × ℕ)
    → from < e.end_sequence
    → Answers
        (max from e.end_sequence)
        limit
        remaining
        (drop (max from e.end_sequence - e.end_sequence) (bytes_of es))
        (found (max from e.end_sequence))
    → Answers e.end_sequence limit remaining (bytes_of es) (found e.end_sequence)
beyond_lem limit remaining from e es found lt more =
    let here : max from e.end_sequence ≡ e.end_sequence = omega arith in
    let index : e.end_sequence - e.end_sequence ≡ 0 = omega arith in rw (here, index) at more
