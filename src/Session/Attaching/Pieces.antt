-- ===== src/Session/Attaching/Pieces.antt =====
-- An attachment queues pieces of the session's output, whatever comes of it.
use paperboat_helper.Base.{
  ℕ, ◌+◌, ◌-◌, ◌<◌, ◌≡◌, refl, sym, subst, ap, ◌∙◌, inl, inr, ◌⊎◌, Option, none, some, List, [],
  ◌∷◌, String, length, drop, take, arith, leb, ltb, u64_mod, sub64_exact, Result, ok, err, All,
  Bool-cases, length-take, length-drop,
}
use paperboat_helper.History.{Event, History, Replay, live, piece, slice, replay_loop, replay}
use paperboat_helper.History as History
use paperboat_helper.History.Invariant.{IsValid}
use paperboat_helper.Session.Ring.Pieces.{Output, Fits, span, drop-span, take-span}
use paperboat_helper.Session.Fanout.{Fanout, Eviction, count, attach, detach, enqueue_event}
use paperboat_helper.Session.Fanout as Fanout
use paperboat_helper.Session.Fanout.Delivery.{Serves}
use paperboat_helper.Session.Fanout.Operations.{attach-Serves, detach-Serves, enqueue_event-Serves}
use paperboat_helper.Session.Attaching.{
  Error, attachment_replay_limit, tail_boundary, newest_replay, attach_replay, attach_locked,
  deliver_replay, queue_replay, queue_events, queue_step, queue_rest,
}
use paperboat_helper.Session.Attaching.Covering.{
  Bounded, OfPieces, replay_loop-All, Chain-ends, replay_fields,
}

-- A piece of a piece of the stream is one too.
piece-Fits : (s : Output) (e : Event) → e.end_sequence < u64_mod → Fits s e → OfPieces (Fits s) e
piece-Fits s e big f start stop lo lt hi =
    let k = start - e.start_sequence in
    let n = stop - e.start_sequence in
    let low = sub64_exact start e.start_sequence (omega arith) lo in
    let high = sub64_exact stop e.start_sequence (omega arith) (omega arith) in
    let width : length (slice k n e.bytes) ≡ stop - start =
      length-take (n - k) (drop k e.bytes) ∙ omega (arith, length-drop k e.bytes, f.ends) in
    let content : slice k n e.bytes ≡ span s.byte start (stop - start) =
      ap (slice k n) f.content
      ∙ ap (take (n - k))
          (drop-span s.byte k e.start_sequence (length e.bytes) (omega (arith, f.ends)))
      ∙ take-span s.byte (n - k) (e.start_sequence + k) (length e.bytes - k) (omega (arith, f.ends))
      ∙ rw (
        let at : e.start_sequence + k ≡ start = omega arith in at,
        let wide : n - k ≡ stop - start = omega arith in wide,
      ) in
    rw (low, high)
      (record {
        nonempty = omega (arith, width);
        ends = omega (arith, width);
        content = content ∙ ap (span s.byte start) (sym width);
        channels = λ m from to. f.channels m (omega arith) (omega arith);
      })

pieces-Fits :
    (s : Output) (es : List Event) → All Bounded es → All (Fits s) es → All (OfPieces (Fits s)) es
pieces-Fits s [] lt f = tt
pieces-Fits s (e ∷ es) lt f = (piece-Fits s e lt.0.1 f.0, pieces-Fits s es lt.1 f.1)

replay-Fits :
    (s : Output) (h : History) (from limit : ℕ) {r : Replay}
    → IsValid h
    → All (Fits s) (live h)
    → replay h from limit ≡ ok r
    → All (Fits s) r.events
replay-Fits s h from limit v f answered =
    let (_, _, _, events) = replay_fields h from limit answered in
    let lt = Chain-ends h.earliest h.latest (live h) v.linked.chain v.linked.latest_lt in
    subst (λ es. All (Fits s) es) (sym events)
      (replay_loop-All (Fits s) from limit limit from (live h) lt (pieces-Fits s (live h) lt f))

newest_replay-Fits :
    (s : Output) (h : History) (limit : ℕ) (first : Result History.Error Replay) {r : Replay}
    → IsValid h
    → All (Fits s) (live h)
    → ((q : Replay) → first ≡ ok q → All (Fits s) q.events)
    → newest_replay h limit first ≡ ok r
    → All (Fits s) r.events
unfolding newest_replay
newest_replay-Fits s h limit (err e) v f one found = absurd (cc found)
newest_replay-Fits s h limit (ok q) {r} v f one found =
    elim (Bool-cases (ltb q.to_sequence q.latest_sequence)) [
      | inl more ↦ replay-Fits s h (tail_boundary q limit) limit v f (rw more at found)
      | inr whole ↦
          let same : ok q ≡ ok r = rw whole at found in
          let eq : q ≡ r = cc same in subst (λ (x : Replay). All (Fits s) x.events) eq (one q refl)
    ]

queue_step-Serves :
    (s : Output) (id : String) (p : Fanout × Result Fanout.Error (Option Eviction))
    → Serves s p.0
    → Serves s (queue_step id p).0
unfolding queue_step
queue_step-Serves s id (f, err e) v = detach-Serves s f id v
queue_step-Serves s id (f, ok (some x)) v = detach-Serves s f id v
queue_step-Serves s id (f, ok none) v = v

queue_rest-Serves :
    (s : Output) (next : Fanout → Fanout × Result Error (Unit {0}))
    → ((f : Fanout) → Serves s f → Serves s (next f).0)
    → (p : Fanout × Result Error (Unit {0})) → Serves s p.0
    → Serves s (queue_rest next p).0
unfolding queue_rest
queue_rest-Serves s next keep (f, err e) v = v
queue_rest-Serves s next keep (f, ok u) v = keep f v

queue_events-Serves :
    (s : Output) (id : String) (es : List Event)
    → All (Fits s) es
    → (f : Fanout) → Serves s f
    → Serves s (queue_events id es f).0
unfolding queue_events
queue_events-Serves s id [] fits f v = v
queue_events-Serves s id (e ∷ es) fits f v =
    queue_rest-Serves s (queue_events id es) (queue_events-Serves s id es fits.1)
      (queue_step id (enqueue_event f id e))
      (queue_step-Serves s id (enqueue_event f id e) (enqueue_event-Serves s f id e fits.0 v))

deliver_replay-Serves :
    (s : Output) (id : String) (r : Replay) (p : Fanout × Result Error (Unit {0}))
    → Serves s p.0
    → Serves s (deliver_replay id r p).0
unfolding deliver_replay
deliver_replay-Serves s id r (f, err e) v = v
deliver_replay-Serves s id r (f, ok u) v = v

queue_replay-Serves :
    (s : Output) (id : String) (r : Replay) (p : Fanout × Result Fanout.Error (Unit {0}))
    → All (Fits s) r.events
    → Serves s p.0
    → Serves s (queue_replay id r p).0
unfolding queue_replay
queue_replay-Serves s id r (f, err e) fits v = v
queue_replay-Serves s id r (f, ok u) fits v =
    deliver_replay-Serves s id r (queue_events id r.events f)
      (queue_events-Serves s id r.events fits f v)

Replay-cases :
    (r : Result History.Error Replay)
    → ((e : History.Error) × (r ≡ err e)) ⊎ ((q : Replay) × (r ≡ ok q))
Replay-cases (err e) = inl (e, refl)
Replay-cases (ok q) = inr (q, refl)

pub attach_locked-Serves :
    (s : Output) (max_attachments n : ℕ) (h : History) (f : Fanout) (id : String) (from : ℕ)
    → IsValid h
    → All (Fits s) (live h)
    → Serves s f
    → Serves s (attach_locked max_attachments n h f id from).0
unfolding attach_locked attach_replay
attach_locked-Serves s m n h f id from v fits k =
    let limit = attachment_replay_limit n in
    elim (Bool-cases (leb m (count f.attachments))) [
      | inl full ↦ rw full k
      | inr room ↦ elim (Replay-cases (newest_replay h limit (replay h from limit))) [
        | inl (e, refused) ↦ rw (room, refused) k
        | inr (r, found) ↦
            rw (room, found)
              (queue_replay-Serves s id r (attach f id n)
                (newest_replay-Fits s h limit (replay h from limit) v fits
                  (λ q answered. replay-Fits s h from limit v fits answered) found)
                (attach-Serves s f id n k))
      ]
    ]
