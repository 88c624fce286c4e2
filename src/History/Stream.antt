-- ===== src/History/Stream.antt =====
-- The history refines the stream of all bytes that the session has put out: it holds the end of the
-- stream from `earliest` on, and `latest` is the stream's length.
use paperboat_helper.Base.{
  ℕ, ◌+◌, ◌-◌, ◌<◌, ◌≡◌, sym, ap, ◌∙◌, inl, inr, false, List, [], ◌∷◌, ◌++◌, length, drop, arith,
  ltb, ◌==◌, Bool-cases, u64_mod, add64_exact, ok, max_u64, length-append,
}
use mathlib.Core.List.{append-nil}
use paperboat_helper.History.{
  Event, History, live, output_event, push, new, append, set_limit, clear, compact,
}
use paperboat_helper.History.Chain.{
  Chain, total, bytes_of, bytes_of-append, drop-append_le, drop-append_length, drop-drop, drop_all,
  Chain-total,
}
use paperboat_helper.History.Compact.{Linked, newest, compact_lem, compact_keeps}
use paperboat_helper.History.Invariant.{IsValid, output-Linked}

-- `stream` is all that was put out so far.
pub record Holds (h : History) (stream : List ℕ) : Type 0 where
  pub retained : bytes_of (live h) ≡ drop h.earliest stream
  pub ended : h.latest ≡ length stream

-- What follows an event carries on where it ends.
rest_of :
    (a b : ℕ) (x : Event) (es : List Event) (stream : List ℕ)
    → Chain a (x ∷ es) b
    → bytes_of (x ∷ es) ≡ drop a stream
    → bytes_of es ≡ drop x.end_sequence stream
rest_of a b x es stream c e = rw c.1 (
    sym (drop-append_length x.bytes (bytes_of es))
    ∙ ap (drop (length x.bytes)) e
    ∙ drop-drop (length x.bytes) a stream)

-- The newest events are a run of their own, and start behind what was dropped.
newest-drop :
    (limit a b : ℕ) (es : List Event) (stream : List ℕ)
    → Chain a es b
    → bytes_of es ≡ drop a stream
    → (a' : ℕ) × Chain a' (newest limit es) b × (bytes_of (newest limit es) ≡ drop a' stream)
newest-drop limit a b [] stream c e = (a, c, e)
newest-drop limit a b (x ∷ es) stream c e =
    let later = newest-drop limit x.end_sequence b es stream c.2 (rest_of a b x es stream c e) in
    elim (Bool-cases (ltb limit (total (x ∷ es)))) [
      | inl over ↦ rw over later
      | inr fits ↦ rw fits (a, c, e)
    ]

pub compact-Holds :
    (h : History) (stream : List ℕ) → Linked h → Holds h stream → Holds (compact h) stream
compact-Holds h stream k s =
    let (linked, kept) = compact_lem h k in
    let keeps = compact_keeps h in
    let (start, chain, suffix) =
      newest-drop h.max_bytes h.earliest h.latest (live h) stream k.chain s.retained in
    let same : (compact h).earliest ≡ start = omega (
      arith,
      Chain-total start h.latest (newest h.max_bytes (live h)) chain,
      Chain-total (compact h).earliest (compact h).latest (live (compact h)) linked.chain,
      ap total kept,
      keeps.1,
    ) in
    record { retained = rw same (ap bytes_of kept ∙ suffix); ended = keeps.1 ∙ s.ended }

pub new-Holds : (max_bytes : ℕ) {h : History} → new max_bytes ≡ ok h → Holds h []
unfolding new
new-Holds max_bytes e = ground arith

push-Holds :
    (h : History) (channel : ℕ) (bytes stream : List ℕ)
    → Linked h
    → ltb (max_u64 - h.latest) (length bytes) ≡ false
    → Holds h stream
    → Holds (push h (output_event h channel bytes)) (stream ++ bytes)
push-Holds h channel bytes stream k room s =
    let small : h.latest + length bytes < u64_mod = ground (arith, k.latest_lt) in
    let sum = Chain-total h.earliest h.latest (live h) k.chain in
    let fresh = output_event h channel bytes in
    record {
      retained = rw (drop-append_le h.head h.events (fresh ∷ []) k.head_le) (
          bytes_of-append (live h) (fresh ∷ [])
          ∙ rw (append-nil bytes, s.retained)
              (sym (drop-append_le h.earliest stream bytes (omega (arith, s.ended, sum)))));
      ended =
          add64_exact h.latest (length bytes) small
          ∙ omega (arith, s.ended, length-append stream bytes);
    }

-- A chunk that is taken is put behind the stream that a valid history stands for.
pub append-Holds :
    (h : History) (channel : ℕ) (bytes stream : List ℕ) {e : Event}
    → IsValid h
    → Holds h stream
    → (append h channel bytes).1 ≡ ok e
    → Holds (append h channel bytes).0 (stream ++ bytes)
unfolding append
append-Holds h channel [] stream v s taken = rw (append-nil stream) s
append-Holds h channel (b ∷ bs) stream v s taken =
    elim (Bool-cases (ltb (max_u64 - h.latest) (length (b ∷ bs)))) [
      | inl full ↦ absurd (ground arith)
      | inr room ↦
          rw (let big : (length (b ∷ bs) == 0) ≡ false = ground arith in big, room)
            (compact-Holds (push h (output_event h channel (b ∷ bs))) (stream ++ b ∷ bs)
              (output-Linked h channel (b ∷ bs) v.linked room)
              (push-Holds h channel (b ∷ bs) stream v.linked room s))
    ]

pub set_limit-Holds :
    (h : History) (max_bytes : ℕ) (stream : List ℕ)
    → IsValid h
    → Holds h stream
    → Holds (set_limit h max_bytes).0 stream
unfolding set_limit
set_limit-Holds h max_bytes stream v s = elim (Bool-cases (max_bytes == 0)) [
  | inl none_left ↦ rw none_left s
  | inr pos ↦ rw pos (
      compact-Holds (record h { max_bytes = max_bytes }) stream
        (record {
          head_le = v.linked.head_le;
          chain = v.linked.chain;
          counted = v.linked.counted;
          latest_lt = v.linked.latest_lt;
        })
        (record { retained = s.retained; ended = s.ended }))
]

pub clear-Holds : (h : History) (stream : List ℕ) → Holds h stream → Holds (clear h).0 stream
unfolding clear
clear-Holds h stream s = record { retained = rw s.ended (sym (drop_all stream)); ended = s.ended }
