-- ===== src/Session/Attaching/Tail.antt =====
-- An attachment to a retained cursor always gets the end of the history, within its queue.
use paperboat_helper.Base.{
  ℕ, ◌+◌, ◌-◌, ◌≤◌, ◌<◌, ◌≡◌, ◌≢◌, refl, ◌∙◌, false, List, String, drop, arith, u64_mod,
  sub64_exact, ok, lookup, string_key, max, dec_lt, length-drop, subst, insert, lookup-insert,
  lookup-insert_self,
}
use paperboat_helper.History.{History, Replay, replay}
use paperboat_helper.History.Chain.{Chain, bytes_of}
use paperboat_helper.History.Invariant.{IsValid}
use paperboat_helper.History.Stream.{Holds}
use paperboat_helper.History.Replaying.Pieces.{take_all}
use paperboat_helper.Session.Fanout.{Fanout, fresh_cursor, holds_attached, count, attach}
use paperboat_helper.Session.Attaching.{
  attachment_replay_limit, tail_boundary, newest_replay, attach_replay, attach_locked,
  deliver_replay, queue_replay, queue_events,
}
use paperboat_helper.Session.Attaching.Queueing.{Queued, queue_events_lem}
use paperboat_helper.Session.Attaching.Covering.{
  Advances-NonEmpty, Covers, replay-Covers, replay_limit_bounds,
}

-- The first replay where it reaches the end, and else the newest `limit` bytes that are retained.
newest_tail :
    (h : History) (from limit : ℕ) (stream : List ℕ)
    → IsValid h
    → Holds h stream
    → h.earliest ≤ from
    → from ≤ h.latest
    → 0 < limit
    → limit < u64_mod
    → (r : Replay) × (newest_replay h limit (replay h from limit) ≡ ok r)
      × Covers h limit stream r
      × (r.to_sequence ≡ h.latest)
      × (from ≤ r.from_sequence)
      × (h.latest ≤ r.from_sequence + limit)
      × (r.from_sequence ≤ h.latest)
      × (r.from_sequence ≡ max from (h.latest - limit))
unfolding newest_replay
newest_tail h from limit stream v s lo hi pos big =
    let (r, answered, at, c) = replay-Covers h from limit stream v s lo hi pos big in
    elim (dec_lt r.to_sequence h.latest) [
      | no whole ↦ (
        r,
        ground (arith, answered, c.latest),
        c,
        omega (arith, c.ends, at),
        omega (arith, at),
        omega (arith, c.ends, at),
        omega (arith, at),
        omega (arith, c.ends, at),
      )
      | yes part ↦
          let b = tail_boundary r limit in
          let width = sub64_exact h.latest limit v.linked.latest_lt (omega (arith, c.ends, at)) in
          let place : b ≡ max (h.latest - limit) h.earliest =
            ground (arith, c.latest, c.earliest, width) in
          let (r2, answered2, at2, c2) =
            replay-Covers h b limit stream v s (omega (arith, place))
              (omega (arith, place, c.ends, at)) pos big in
          (
            r2,
            ground (arith, answered, c.latest, answered2),
            c2,
            omega (arith, c2.ends, at2, place),
            omega (arith, c.ends, at, at2, place),
            omega (arith, at2, place),
            omega (arith, at2, place, c.ends, at),
            omega (arith, at2, place, c.ends, at),
          )
    ]

-- An attachment that is free and a queue that is not nothing.
attach-Queued :
    (f : Fanout) (id : String) (n start : ℕ)
    → id ≢ ""
    → 0 < n
    → holds_attached (lookup id f.attachments) ≡ false
    → (f' : Fanout) × (attach f id n ≡ (f', ok tt))
      × Queued f' id n start start
      × ((j : String) → j ≢ id → lookup j f'.attachments ≡ lookup j f.attachments)
unfolding attach
attach-Queued f id n start named pos free = (
  record f {
    attachments = insert id (fresh_cursor n) f.attachments;
    active = insert id tt f.active;
  },
  ground (arith, named, free),
  record {
    cursor = fresh_cursor n;
    found = lookup-insert_self id (fresh_cursor n) f.attachments;
    attached = refl;
    limit = refl;
    counted = omega arith;
    unread = λ h. refl;
    begun = λ h. cc h;
    ended = λ h. cc h;
  },
  λ j ne. ground (arith, ne, lookup-insert id j (fresh_cursor n) f.attachments),
)

attach_replay_lem :
    (f f1 f2 : Fanout) (id : String) (n : ℕ) (r : Replay)
    → attach f id n ≡ (f1, ok tt)
    → queue_events id r.events f1 ≡ (f2, ok tt)
    → attach_replay f id n r ≡ (f2, ok r)
unfolding attach_replay queue_replay deliver_replay
attach_replay_lem f f1 f2 id n r a q = rw (a, q)

attach_locked_lem :
    (max_attachments n : ℕ) (h : History) (f : Fanout) (id : String) (from : ℕ) (r : Replay)
    → count f.attachments < max_attachments
    → newest_replay h (attachment_replay_limit n) (replay h from (attachment_replay_limit n)) ≡ ok r
    → attach_locked max_attachments n h f id from ≡ attach_replay f id n r
unfolding attach_locked
attach_locked_lem m n h f id from r room found = ground (arith, found)

pub attach_succeeds :
    (max_attachments n : ℕ) (h : History) (f : Fanout) (id : String) (from : ℕ) (stream : List ℕ)
    → IsValid h
    → Holds h stream
    → h.earliest ≤ from
    → from ≤ h.latest
    → count f.attachments < max_attachments
    → 0 < n
    → n < u64_mod
    → id ≢ ""
    → holds_attached (lookup id f.attachments) ≡ false
    → (f' : Fanout) × (r : Replay) × (attach_locked max_attachments n h f id from ≡ (f', ok r))
      × (bytes_of r.events ≡ drop r.from_sequence stream)
      × (r.from_sequence ≡ max from (h.latest - attachment_replay_limit n))
      × Queued f' id n r.from_sequence h.latest
      × ((j : String) → j ≢ id → lookup j f'.attachments ≡ lookup j f.attachments)
attach_succeeds m n h f id from stream v s lo hi room pos small named free =
    let limit = attachment_replay_limit n in
    let (positive, within, _) = replay_limit_bounds n pos in
    let (r, found, c, ends, later, near, start_le, place) =
      newest_tail h from limit stream v s lo hi positive (omega (arith, within)) in
    let (f1, attached, q1, others1) = attach-Queued f id n r.from_sequence named pos free in
    let (f2, queued, q2, others2) =
      queue_events_lem f1 id n r.from_sequence r.from_sequence h.latest r.events q1
        (subst (λ b. Chain r.from_sequence r.events b) ends c.chain)
        (Advances-NonEmpty r.from_sequence r.to_sequence r.events c.chain c.advances)
        v.linked.latest_lt (omega (arith, near, within)) small in
    (
      f2,
      r,
      attach_locked_lem m n h f id from r room found
          ∙ attach_replay_lem f f1 f2 id n r attached queued,
      c.content
          ∙ take_all limit (drop r.from_sequence stream)
              (omega (arith, length-drop r.from_sequence stream, s.ended, near)),
      place,
      q2,
      λ j ne. others2 j ne ∙ others1 j ne,
    )
