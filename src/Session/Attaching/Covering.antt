-- ===== src/Session/Attaching/Covering.antt =====
-- A replay carries the history from its cursor on, in pieces that are not empty.
use paperboat_helper.Base.{
  ℕ, zero, min, suc, ◌+◌, ◌-◌, ◌≤◌, ◌<◌, ◌≡◌, refl, sym, ap, ◌∙◌, false, true, List, [], ◌∷◌,
  length, drop, take, arith, ltb, leb, u64_mod, sub64, sub64_exact, ok, string_key, All, max,
  length-take, length-drop, Bool-cases, inl, inr, subst, ltb→lt, add64_exact, ◌==◌, Bool,
  if◌then◌else◌,
}
use paperboat_helper.History.{Event, History, Replay, live, piece, piece_end, replay_loop, replay}
use paperboat_helper.History.Chain.{Chain, bytes_of, Chain-total, length-bytes_of}
use paperboat_helper.History.Invariant.{IsValid}
use paperboat_helper.History.Stream.{Holds}
use paperboat_helper.History.Replaying.{replay-stream}
use paperboat_helper.History.Replaying.Pieces.{window}
use paperboat_helper.Session.Attaching.{attachment_replay_limit}
use paperboat_helper.Session.Attaching.Queueing.{NonEmpty}

-- The limit is positive, at most half of the queue unless that is nothing, and never larger than it.
pub replay_limit_bounds :
    (n : ℕ)
    → 0 < n
    → (0 < attachment_replay_limit n)
      × (attachment_replay_limit n ≤ n)
      × (attachment_replay_limit n ≤ 65536)
unfolding attachment_replay_limit
replay_limit_bounds n h = ground arith

-- The events of a replay are not empty.
abbrev pub Advances : Event → Type 0
Advances e = e.start_sequence < e.end_sequence

-- What a round returns where the event has a piece.
round_All :
    {A B : Type 0} (P : A → Type 0) (limited out : Bool) (x : A) (s : B) (m n : List A × B)
    → P x
    → All P m.0
    → All P n.0
    → let r : List A × B =
        if limited then (if out then (x ∷ [], s) else (x ∷ m.0, m.1)) else (x ∷ n.0, n.1) in
      All P r.0
round_All P true true x s m n p q r = (p, tt)
round_All P true false x s m n p q r = (p, q)
round_All P false out x s m n p q r = (p, r)

abbrev pub Bounded : Event → Type 0
Bounded e = (e.start_sequence ≤ e.end_sequence) × (e.end_sequence < u64_mod)

-- What holds of every piece of an event.
abbrev pub OfPieces : (Event → Type 0) → Event → Type 0
OfPieces P e =
    (start stop : ℕ)
    → e.start_sequence ≤ start
    → start < stop
    → stop ≤ e.end_sequence
    → P (piece start stop e)

piece_end-le :
    (limit remaining start : ℕ) (e : Event)
    → e.end_sequence < u64_mod
    → start ≤ e.end_sequence
    → piece_end limit remaining start e ≤ e.end_sequence
piece_end-le limit remaining start e lt h =
    ground (arith, sub64_exact e.end_sequence start, add64_exact start remaining)

pub replay_loop-All :
    (P : Event → Type 0) (from limit remaining to : ℕ) (es : List Event)
    → All Bounded es
    → All (OfPieces P) es
    → All P (replay_loop from limit remaining to es).0
unfolding replay_loop
replay_loop-All P from limit remaining to [] lt h = tt
replay_loop-All P from limit remaining to (e ∷ es) lt h =
    let start = max from e.start_sequence in
    let stop = piece_end limit remaining start e in
    let left = sub64 remaining (sub64 stop start) in
    let skipped = replay_loop-All P from limit remaining to es lt.1 h.1 in
    elim (Bool-cases (leb e.end_sequence from)) [
      | inl before ↦ rw before skipped
      | inr here ↦ elim (Bool-cases (ltb start stop)) [
        | inr empty ↦ rw (here, empty) skipped
        | inl full ↦
            let mine : P (piece start stop e) =
              h.0 start stop (omega arith) (ltb→lt _ _ full)
                (piece_end-le limit remaining start e lt.0.1 (ground (arith, lt.0.0))) in
            rw (here, full)
              (round_All P (ltb 0 limit) (left == 0) (piece start stop e) stop
                (replay_loop from limit left stop es) (replay_loop from limit remaining stop es)
                mine (replay_loop-All P from limit left stop es lt.1 h.1)
                (replay_loop-All P from limit remaining stop es lt.1 h.1))
      ]
    ]

pub Chain-ends : (a b : ℕ) (es : List Event) → Chain a es b → b < u64_mod → All Bounded es
Chain-ends a b [] c lt = tt
Chain-ends a b (e ∷ es) c lt = (
  (omega (arith, c.0, c.1), omega (arith, Chain-total e.end_sequence b es c.2)),
  Chain-ends e.end_sequence b es c.2 lt,
)

pieces-Advances : (es : List Event) → All (OfPieces Advances) es
pieces-Advances [] = tt
pieces-Advances (e ∷ es) = (λ start stop lo lt hi. lt, pieces-Advances es)

pub Advances-NonEmpty :
    (a b : ℕ) (es : List Event) → Chain a es b → All Advances es → All NonEmpty es
Advances-NonEmpty a b [] c h = tt
Advances-NonEmpty a b (e ∷ es) c h =
    (omega (arith, c.0, c.1, h.0), Advances-NonEmpty e.end_sequence b es c.2 h.1)

-- What a replay that succeeds says of itself.
pub replay_fields :
    (h : History) (from limit : ℕ) {r : Replay}
    → replay h from limit ≡ ok r
    → (r.from_sequence ≡ from)
      × (r.earliest_sequence ≡ h.earliest)
      × (r.latest_sequence ≡ h.latest)
      × (r.events ≡ (replay_loop from limit limit from (live h)).0)
unfolding replay
replay_fields h from limit e = ground arith

window_positive : (limit n : ℕ) (xs : List ℕ) → 0 < limit → window limit n xs ≡ take n xs
window_positive zero n xs h = absurd (omega arith)
window_positive (suc limit) n xs h = refl

-- A replay whose events carry the history from its cursor to `to_sequence`.
pub record Covers (h : History) (limit : ℕ) (stream : List ℕ) (r : Replay) : Type 0 where
  pub earliest : r.earliest_sequence ≡ h.earliest
  pub latest : r.latest_sequence ≡ h.latest
  pub content : bytes_of r.events ≡ take limit (drop r.from_sequence stream)
  pub chain : Chain r.from_sequence r.events r.to_sequence
  pub advances : All Advances r.events
  pub ends : r.to_sequence ≡ r.from_sequence + min limit (h.latest - r.from_sequence)

pub replay-Covers :
    (h : History) (from limit : ℕ) (stream : List ℕ)
    → IsValid h
    → Holds h stream
    → h.earliest ≤ from
    → from ≤ h.latest
    → 0 < limit
    → limit < u64_mod
    → (r : Replay) × (replay h from limit ≡ ok r)
      × (r.from_sequence ≡ from)
      × Covers h limit stream r
replay-Covers h from limit stream v s lo hi pos big =
    let (r, answered, bytes, chain) = replay-stream h from limit stream v s lo hi big in
    let (at, earliest, latest, events) = replay_fields h from limit answered in
    let content : bytes_of r.events ≡ take limit (drop from stream) =
      bytes ∙ window_positive limit limit (drop from stream) pos in
    let size = length-bytes_of r.events in
    (
      r,
      answered,
      at,
      record {
        earliest = earliest;
        latest = latest;
        content = rw at content;
        chain = rw at chain;
        advances =
            subst (λ es. All Advances es) (sym events)
              (replay_loop-All Advances from limit limit from (live h)
                (Chain-ends h.earliest h.latest (live h) v.linked.chain v.linked.latest_lt)
                (pieces-Advances (live h)));
        ends = omega (
          arith,
          at,
          ap length content,
          size,
          Chain-total from r.to_sequence r.events chain,
          length-take limit (drop from stream),
          length-drop from stream,
          s.ended,
        );
      },
    )
