-- ===== src/History/Run.antt =====
-- A history over any calls, and the stream that it stands for.
use paperboat_helper.Base.{
  ℕ, ◌≡◌, ◌≤◌, ◌<◌, refl, ◌⊎◌, inl, inr, Bool-cases, List, [], ◌∷◌, ◌++◌, String, drop, Result, ok,
  err, arith, u64_mod,
}
use paperboat_helper.History.{
  History, live, Event, Error, Replay, bad_cursor, append, set_limit, clear, acknowledge, replay,
  new,
}
use paperboat_helper.History.Chain.{Chain, bytes_of, total}
use paperboat_helper.History.Invariant.{
  IsValid, new-IsValid, append-IsValid, set_limit-IsValid, clear-IsValid, acknowledge-IsValid,
}
use paperboat_helper.History.Stream.{Holds, new-Holds, append-Holds, set_limit-Holds, clear-Holds}
use paperboat_helper.History.Replaying.{replay-stream}
use paperboat_helper.History.Replaying.Pieces.{window}

-- The calls that change a history.
pub data Op : Type 0 where
  appends : ℕ → List ℕ → Op
  sets_limit : ℕ → Op
  clears : Op
  acknowledges : String → ℕ → Op

abbrev pub step : History → Op → History
step h (appends channel bytes) = (append h channel bytes).0
step h (sets_limit n) = (set_limit h n).0
step h clears = (clear h).0
step h (acknowledges id n) = (acknowledge h id n).0

abbrev pub run : History → List Op → History
run h [] = h
run h (op ∷ ops) = run (step h op) ops

abbrev pub grow : List ℕ → List ℕ → Result Error Event → List ℕ
grow stream bytes (ok e) = stream ++ bytes
grow stream bytes (err e) = stream

-- The stream grows by the chunks that are taken.
abbrev pub output : List ℕ → History → List Op → List ℕ
output stream h [] = stream
output stream h (appends channel bytes ∷ ops) =
    output (grow stream bytes (append h channel bytes).1) (step h (appends channel bytes)) ops
output stream h (op ∷ ops) = output stream (step h op) ops

pub Result-cases :
    (r : Result Error Event) → ((e : Event) × (r ≡ ok e)) ⊎ ((e : Error) × (r ≡ err e))
Result-cases (ok e) = inl (e, refl)
Result-cases (err e) = inr (e, refl)

pub append_refused :
    (h : History) (channel : ℕ) (bytes : List ℕ) {e : Error}
    → (append h channel bytes).1 ≡ err e
    → (append h channel bytes).0 ≡ h
unfolding append
append_refused h channel bytes refused = ground arith

pub acknowledge-Holds :
    (h : History) (id : String) (n : ℕ) (stream : List ℕ)
    → Holds h stream
    → Holds (acknowledge h id n).0 stream
unfolding acknowledge
acknowledge-Holds h id n stream s = elim (Bool-cases (bad_cursor h id n)) [
  | inl bad ↦ rw bad s
  | inr good ↦ rw good (record { retained = s.retained; ended = s.ended })
]

pub appended-Holds :
    (h : History) (channel : ℕ) (bytes stream : List ℕ)
    → IsValid h
    → Holds h stream
    → Holds (append h channel bytes).0 (grow stream bytes (append h channel bytes).1)
appended-Holds h channel bytes stream v s = elim (Result-cases (append h channel bytes).1) [
  | inl (e, taken) ↦ rw taken (append-Holds h channel bytes stream v s taken)
  | inr (e, refused) ↦ rw (refused, append_refused h channel bytes refused) s
]

run_lem :
    (h : History) (stream : List ℕ) (ops : List Op)
    → IsValid h
    → Holds h stream
    → IsValid (run h ops) × Holds (run h ops) (output stream h ops)
run_lem h stream [] v s = (v, s)
run_lem h stream (appends channel bytes ∷ ops) v s =
    run_lem (append h channel bytes).0 (grow stream bytes (append h channel bytes).1) ops
      (append-IsValid h channel bytes v) (appended-Holds h channel bytes stream v s)
run_lem h stream (sets_limit n ∷ ops) v s =
    run_lem (set_limit h n).0 stream ops (set_limit-IsValid h n v) (set_limit-Holds h n stream v s)
run_lem h stream (clears ∷ ops) v s =
    run_lem (clear h).0 stream ops (clear-IsValid h v) (clear-Holds h stream s)
run_lem h stream (acknowledges id n ∷ ops) v s =
    run_lem (acknowledge h id n).0 stream ops (acknowledge-IsValid h id n v)
      (acknowledge-Holds h id n stream s)

-- After any calls of a new history, its live events carry at most as many bytes as its limit, and a
-- replay from a retained cursor succeeds: its events are one run from the cursor to `to_sequence`,
-- and carry the bytes of the stream of all chunks taken, from the cursor on, up to the limit of the
-- replay where that is not 0.
pub run_replays :
    (max_bytes : ℕ) (ops : List Op) (from limit : ℕ) {start : History}
    → new max_bytes ≡ ok start
    → (run start ops).earliest ≤ from
    → from ≤ (run start ops).latest
    → limit < u64_mod
    → (total (live (run start ops)) ≤ (run start ops).max_bytes)
      × (r : Replay) × (replay (run start ops) from limit ≡ ok r)
      × (bytes_of r.events ≡ window limit limit (drop from (output [] start ops)))
      × Chain from r.events r.to_sequence
run_replays max_bytes ops from limit {start} made lo hi big =
    let (valid, holds) =
      run_lem start [] ops (new-IsValid max_bytes made) (new-Holds max_bytes made) in
    let (r, answered, bytes, chain) =
      replay-stream (run start ops) from limit (output [] start ops) valid holds lo hi big in
    (omega (arith, valid.fits, valid.linked.counted), r, answered, bytes, chain)
