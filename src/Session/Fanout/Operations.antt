-- ===== src/Session/Fanout/Operations.antt =====
-- What an attachment reads is the session's output, byte for byte and without a gap.
use paperboat_helper.Base.{
  ℕ, ◌≤◌, ◌<◌, ◌≡◌, inl, inr, true, false, not, ◌||◌, ◌&&◌, some, List, [], ◌∷◌, String,
  String_discrete, arith, ◌==◌, Bool-cases, Option-cases, dec_lt, lookup, insert, erase, string_key,
  Values, Values-insert, Values-erase, Values-lookup, Values-map, is_yes,
}
use paperboat_helper.History.{Event}
use paperboat_helper.Session.Ring.{insert_event, valid_output_event}
use paperboat_helper.Session.Ring.Pieces.{Output, Fits}
use paperboat_helper.Session.Ring.Growth.{Grown, insert_event-Grown}
use paperboat_helper.Session.Fanout.{
  Cursor, Fanout, is_attached_state, attach, detach, compact, publish, offer, offer_all,
  enqueue_event, enqueue_at, fresh_cursor, evict, enqueue, out_of_order, any_out_of_order,
  deactivate, is_evicted_state, overflows, holds_attached,
}
use paperboat_helper.Session.Fanout.Delivery.{Serves, Reads, compact-Serves}

pub attach-Serves :
    (s : Output) (f : Fanout) (id : String) (max : ℕ) → Serves s f → Serves s (attach f id max).0
unfolding attach
attach-Serves s f id max v =
    let fresh : Values (Reads f.ring) (insert id (fresh_cursor max) f.attachments) =
      Values-insert (Reads f.ring) id (fresh_cursor max) f.attachments (λ a h. cc) v.reads in
    elim (Bool-cases (is_yes (String_discrete id "") || max == 0)) [
      | inl bad ↦ rw bad v
      | inr good ↦ elim (Bool-cases (holds_attached (lookup id f.attachments))) [
        | inl held ↦ rw (good, held) v
        | inr free ↦ rw (good, free) (record { stair = v.stair; fits = v.fits; reads = fresh })
      ]
    ]

detached_at :
    (s : Output) (f : Fanout) (id : String)
    → Serves s f
    → Serves s
        (compact (record f { attachments = erase id f.attachments; active = erase id f.active }))
detached_at s f id v =
    compact-Serves s (record f { attachments = erase id f.attachments; active = erase id f.active })
      (record {
        stair = v.stair;
        fits = v.fits;
        reads = Values-erase (Reads f.ring) id f.attachments v.reads;
      })

pub detach-Serves : (s : Output) (f : Fanout) (id : String) → Serves s f → Serves s (detach f id).0
unfolding detach
detach-Serves s f id v = elim (Option-cases (lookup id f.attachments)) [
  | inl missing ↦ rw (missing, detach) v
  | inr (c, found) ↦
      elim (Bool-cases (not (is_attached_state c.state) && not (is_evicted_state c.state))) [
        | inl gone ↦ rw (found, detach, gone) v
        | inr there ↦ rw (found, detach, there) (detached_at s f id v)
      ]
]

enqueue-Reads :
    (s : Output) (e : Event) (ring ring' : List Event) (c : Cursor)
    → Grown s e ring ring'
    → is_attached_state c.state ≡ true
    → c.has_cursor && not (c.enqueued_end == e.start_sequence) ≡ false
    → Reads ring c
    → Reads ring' (enqueue e c)
enqueue-Reads s e ring ring' c g attached order r = λ a h n lo hi. elim (Bool-cases c.has_cursor) [
  | inr unread ↦ g.adds n ((let le : e.start_sequence ≤ n = ground arith in le), hi)
  | inl reading ↦ elim (dec_lt n e.start_sequence) [
    | yes earlier ↦
        let le : c.cursor ≤ n = ground arith in
        let lt : n < c.enqueued_end = ground arith in g.keeps n (r attached reading n le lt)
    | no later ↦ g.adds n (omega arith, hi)
  ]
]

evict-Reads : (ring : List Event) (e : Event) (c : Cursor) → Reads ring (evict c)
evict-Reads ring e c = λ a. cc

-- An offered cursor that is in order reads from the grown ring.
offer-Reads :
    (s : Output) (e : Event) (ring ring' : List Event) (c : Cursor)
    → Fits s e
    → Grown s e ring ring'
    → out_of_order e c ≡ false
    → Reads ring c
    → Reads ring' (offer e c)
unfolding offer
offer-Reads s e ring ring' c fe g order r = elim (Bool-cases (is_attached_state c.state)) [
  | inr idle ↦
      rw (let out : not (is_attached_state c.state) ≡ true = ground arith in out)
        (λ a. absurd (ground arith))
  | inl attached ↦ elim (Bool-cases (overflows e c)) [
    | inl full ↦
        rw (let on : not (is_attached_state c.state) ≡ false = ground arith in on, full)
          (evict-Reads ring' e c)
    | inr room ↦
        rw (let on : not (is_attached_state c.state) ≡ false = ground arith in on, room)
          (enqueue-Reads s e ring ring' c g attached (ground arith) r)
  ]
]

offer_all-Reads :
    (s : Output) (e : Event) (ring ring' : List Event) (cs : List (String × Cursor))
    → Fits s e
    → Grown s e ring ring'
    → any_out_of_order e cs ≡ false
    → Values (Reads ring) cs
    → Values (Reads ring') (offer_all e cs)
unfolding offer_all any_out_of_order
offer_all-Reads s e ring ring' [] fe g order r = tt
offer_all-Reads s e ring ring' ((_, c) ∷ cs) fe g order r = (
  offer-Reads s e ring ring' c fe g (ground arith) r.0,
  offer_all-Reads s e ring ring' cs fe g (ground arith) r.1,
)

-- Publishing a piece of the stream.
pub publish-Serves :
    (s : Output) (f : Fanout) (e : Event) → Fits s e → Serves s f → Serves s (publish f e).0
unfolding publish
publish-Serves s f e fe v = elim (Bool-cases (valid_output_event e)) [
  | inr invalid ↦ rw invalid v
  | inl valid ↦ elim (Bool-cases (any_out_of_order e f.attachments)) [
    | inl disorder ↦ rw (valid, disorder) v
    | inr order ↦
        rw (valid, order)
          (let grown = insert_event-Grown s e f.ring fe v.fits v.stair in
            compact-Serves s
              (record {
                attachments = offer_all e f.attachments;
                active = deactivate e f.attachments f.active;
                ring = insert_event e f.ring;
              })
              (record {
                stair = grown.stair;
                fits = grown.fits;
                reads =
                    offer_all-Reads s e f.ring (insert_event e f.ring) f.attachments fe grown order
                      v.reads;
              }))
  ]
]

enqueue_at-Serves :
    (s : Output) (f : Fanout) (id : String) (e : Event) (c : Cursor)
    → Fits s e
    → Serves s f
    → lookup id f.attachments ≡ some c
    → is_attached_state c.state ≡ true
    → c.has_cursor && not (c.enqueued_end == e.start_sequence) ≡ false
    → Serves s (enqueue_at f id e c).0
unfolding enqueue_at
enqueue_at-Serves s f id e c fe v found attached order = elim (Bool-cases (overflows e c)) [
  | inl full ↦ rw full (
      compact-Serves s
        (record f { attachments = insert id (evict c) f.attachments; active = erase id f.active })
        (record {
          stair = v.stair;
          fits = v.fits;
          reads =
              Values-insert (Reads f.ring) id (evict c) f.attachments (evict-Reads f.ring e c)
                v.reads;
        }))
  | inr room ↦ rw room (
      let grown = insert_event-Grown s e f.ring fe v.fits v.stair in
      let ring' = insert_event e f.ring in
      let mine =
        enqueue-Reads s e f.ring ring' c grown attached order
          (Values-lookup (Reads f.ring) id f.attachments v.reads found) in
      record {
        stair = grown.stair;
        fits = grown.fits;
        reads = Values-insert (Reads ring') id (enqueue e c) f.attachments mine (
            Values-map (Reads f.ring) (Reads ring')
              (λ d r a h n lo hi. grown.keeps n (r a h n lo hi)) f.attachments v.reads);
      })
]

-- Queueing a piece of the stream for one attachment.
pub enqueue_event-Serves :
    (s : Output) (f : Fanout) (id : String) (e : Event)
    → Fits s e
    → Serves s f
    → Serves s (enqueue_event f id e).0
unfolding enqueue_event
enqueue_event-Serves s f id e fe v = elim (Bool-cases (valid_output_event e)) [
  | inr invalid ↦ rw invalid v
  | inl valid ↦ elim (Option-cases (lookup id f.attachments)) [
    | inl missing ↦ rw (valid, missing, enqueue_event) v
    | inr (c, found) ↦ elim (Bool-cases (is_evicted_state c.state)) [
      | inl out ↦ rw (valid, found, enqueue_event, out) v
      | inr not_out ↦ elim (Bool-cases (is_attached_state c.state)) [
        | inr idle ↦ rw (valid, found, enqueue_event, not_out, idle) v
        | inl attached ↦
            elim (Bool-cases (c.has_cursor && not (c.enqueued_end == e.start_sequence))) [
              | inl disorder ↦ rw (valid, found, enqueue_event, not_out, attached, disorder) v
              | inr order ↦
                  rw (valid, found, enqueue_event, not_out, attached, order)
                    (enqueue_at-Serves s f id e c fe v found attached order)
            ]
      ]
    ]
  ]
]
