-- ===== src/Session/Live/Pieces.antt =====
-- What a session's history retains are pieces of its output.
use paperboat_helper.Base.{
  ℕ, ◌+◌, ◌-◌, ◌≤◌, ◌<◌, ◌≡◌, sym, subst, ap, ◌∙◌, inl, inr, false, List, [], ◌∷◌, ◌++◌, length,
  drop, take, arith, ltb, ◌==◌, Bool-cases, u64_mod, max_u64, add64_exact, ok, All, All-append,
  length-append,
}
use paperboat_helper.History.{Event, History, live, output_event, push, append, compact}
use paperboat_helper.History.Chain.{total, drop-append_le, drop-append_length}
use paperboat_helper.History.Compact.{newest, compact_lem}
use paperboat_helper.History.Invariant.{IsValid, output-Linked}
use paperboat_helper.History.Replaying.Pieces.{take_all, take-append_le}
use paperboat_helper.Session.Ring.Pieces.{Output, Fits, span, drop-span, take-span}

-- The stream so far is what the output starts with.
abbrev pub Begins : Output → List ℕ → Type 0
Begins s stream = stream ≡ span s.byte 0 (length stream)

pub Begins-of-append : (s : Output) (xs ys : List ℕ) → Begins s (xs ++ ys) → Begins s xs
Begins-of-append s xs ys h =
    sym (take-append_le (length xs) xs ys (omega arith) ∙ take_all (length xs) xs (omega arith))
    ∙ ap (take (length xs)) h
    ∙ take-span s.byte (length xs) 0 (length (xs ++ ys)) (omega (arith, length-append xs ys))

-- The chunk that follows.
pub chunk_lem :
    (s : Output) (xs ys : List ℕ) → Begins s (xs ++ ys) → ys ≡ span s.byte (length xs) (length ys)
chunk_lem s xs ys h =
    sym (drop-append_length xs ys)
    ∙ ap (drop (length xs)) h
    ∙ drop-span s.byte (length xs) 0 (length (xs ++ ys)) (omega (arith, length-append xs ys))
    ∙ rw (
      let at : 0 + length xs ≡ length xs = omega arith in at,
      let wide : length (xs ++ ys) - length xs ≡ length ys = omega (arith, length-append xs ys) in
          wide,
    )

newest-All : (P : Event → Type 0) (limit : ℕ) (es : List Event) → All P es → All P (newest limit es)
newest-All P limit [] h = tt
newest-All P limit (e ∷ es) h = elim (Bool-cases (ltb limit (total (e ∷ es)))) [
  | inl over ↦ rw over (newest-All P limit es h.1)
  | inr fits ↦ rw fits h
]

-- A chunk that is taken becomes a piece of the output.
output_event-Fits :
    (s : Output) (h : History) (bytes stream : List ℕ)
    → ((n : ℕ) → s.channel_of n ≡ 1)
    → h.latest ≡ length stream
    → h.latest + length bytes < u64_mod
    → 0 < length bytes
    → Begins s (stream ++ bytes)
    → Fits s (output_event h 1 bytes)
output_event-Fits s h bytes stream channels at small pos begins = record {
  nonempty = pos;
  ends = add64_exact h.latest (length bytes) small;
  content = rw at (chunk_lem s stream bytes begins);
  channels = λ n lo hi. channels n;
}

push-Fits :
    (s : Output) (h : History) (e : Event)
    → h.head ≤ length h.events
    → All (Fits s) (live h)
    → Fits s e
    → All (Fits s) (live (push h e))
push-Fits s h e le fits f =
    subst (λ es. All (Fits s) es) (sym (drop-append_le h.head h.events (e ∷ []) le))
      (All-append (Fits s) (live h) (e ∷ []) fits (f, tt))

-- `Append` with a chunk that it takes.
pub append-Fits :
    (s : Output) (h : History) (bytes stream : List ℕ) {e : Event}
    → ((n : ℕ) → s.channel_of n ≡ 1)
    → IsValid h
    → All (Fits s) (live h)
    → h.latest ≡ length stream
    → (length bytes == 0) ≡ false
    → (append h 1 bytes).1 ≡ ok e
    → Begins s (stream ++ bytes)
    → Fits s e × All (Fits s) (live (append h 1 bytes).0)
unfolding append
append-Fits s h bytes stream {e} channels v fits at some_bytes taken begins =
    elim (Bool-cases (ltb (max_u64 - h.latest) (length bytes))) [
      | inl full ↦ absurd (ground arith)
      | inr room ↦
          let f =
            output_event-Fits s h bytes stream channels at (ground (arith, v.linked.latest_lt))
              (ground arith) begins in
          let same : output_event h 1 bytes ≡ e =
            (let q : ok (output_event h 1 bytes) ≡ ok e = rw (some_bytes, room) at taken in cc q) in
          let linked = output-Linked h 1 bytes v.linked room in
          let p = push h (output_event h 1 bytes) in
          let (_, kept) = compact_lem p linked in
          let whole : All (Fits s) (live (compact p)) =
            subst (λ es. All (Fits s) es) (sym kept)
              (newest-All (Fits s) p.max_bytes (live p)
                (push-Fits s h (output_event h 1 bytes) v.linked.head_le fits f)) in
          (subst (λ x. Fits s x) same f, rw (some_bytes, room) whole)
    ]
