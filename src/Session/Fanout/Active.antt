-- ===== src/Session/Fanout/Active.antt =====
-- The lock-free set `active` and the states of the cursors agree.
use paperboat_helper.Base.{
  ℕ, ◌≡◌, refl, inl, inr, true, false, not, ◌&&◌, Option, none, some, List, [], ◌∷◌, String, arith,
  Bool-cases, Option-cases, lookup, erase, string_key, lookup-insert, lookup-erase, Distinct,
  if◌then◌else◌,
}
use paperboat_helper.History.{Event}
use paperboat_helper.Session.Ring.{event_at}
use paperboat_helper.Session.Fanout.{
  Cursor, Fanout, is_attached_state, holds_attached, attach, detach, compact, is_attached, publish,
  offer, offer_all, deactivate, enqueue_event, enqueue_at, next, deliver, fresh_cursor, evict,
  enqueue, advance, is_evicted_by,
}

-- An attachment is in `active` exactly if its cursor is attached.
abbrev pub Agrees : Fanout → Type 0
Agrees f = (id : String) → is_attached f id ≡ holds_attached (lookup id f.attachments)

pub attach-Agrees : (f : Fanout) (id : String) (max : ℕ) → Agrees f → Agrees (attach f id max).0
unfolding attach is_attached
attach-Agrees f id max v = λ k. ground (
  arith,
  v k,
  lookup-insert id k (fresh_cursor max) f.attachments,
  lookup-insert id k (tt {0}) f.active,
)

pub detach-Agrees : (f : Fanout) (id : String) → Agrees f → Agrees (detach f id).0
unfolding detach is_attached compact
detach-Agrees f id v =
    λ k. ground (arith, v k, lookup-erase id k f.attachments, lookup-erase id k f.active)

enqueue_at-Agrees :
    (f : Fanout) (id : String) (e : Event) (c : Cursor)
    → lookup id f.attachments ≡ some c
    → is_attached_state c.state ≡ true
    → Agrees f
    → Agrees (enqueue_at f id e c).0
unfolding enqueue_at is_attached compact
enqueue_at-Agrees f id e c found attached v = λ k. ground (
  arith,
  v k,
  lookup-insert id k (evict c) f.attachments,
  lookup-insert id k (enqueue e c) f.attachments,
  lookup-erase id k f.active,
)

pub enqueue_event-Agrees :
    (f : Fanout) (id : String) (e : Event) → Agrees f → Agrees (enqueue_event f id e).0
unfolding enqueue_event
enqueue_event-Agrees f id e v = λ k. elim (Option-cases (lookup id f.attachments)) [
  | inl missing ↦ ground (arith, v k)
  | inr (c, found) ↦ elim (Bool-cases (is_attached_state c.state)) [
    | inl attached ↦ ground (arith, v k, enqueue_at-Agrees f id e c found attached v k)
    | inr idle ↦ ground (arith, v k)
  ]
]

deliver-Agrees :
    (f : Fanout) (id : String) (c : Cursor) (found : Option Event)
    → lookup id f.attachments ≡ some c
    → Agrees f
    → Agrees (deliver f id c found).0
unfolding deliver is_attached compact
deliver-Agrees f id c none at v = v
deliver-Agrees f id c (some e) at v =
    λ k. ground (arith, v k, at, lookup-insert id k (advance e c) f.attachments)

pub next-Agrees : (f : Fanout) (id : String) → Agrees f → Agrees (next f id).0
unfolding next
next-Agrees f id v = λ k. elim (Option-cases (lookup id f.attachments)) [
  | inl missing ↦ ground (arith, v k)
  | inr (c, found) ↦ ground (arith, v k, deliver-Agrees f id c (event_at c.cursor f.ring) found v k)
]

pub lookup-offer_all :
    (e : Event) (id : String) (cs : List (String × Cursor))
    → lookup id (offer_all e cs) ≡ elim (lookup id cs) [ none ↦ none | some c ↦ some (offer e c) ]
unfolding lookup offer_all
lookup-offer_all e id [] = refl
lookup-offer_all e id ((k, c) ∷ cs) = ground (arith, lookup-offer_all e id cs)

-- The entry of an attachment is deleted if that attachment is evicted.
lookup-deactivate :
    (e : Event) (id : String) (cs : List (String × Cursor)) (active : List (String × Unit {0}))
    → Distinct cs
    → lookup id (deactivate e cs active) ≡ elim (lookup id cs) [
      | none ↦ lookup id active
      | some c ↦ if is_evicted_by e c then none else lookup id active
    ]
unfolding lookup deactivate
lookup-deactivate e id [] active d = refl
lookup-deactivate e id ((k, c) ∷ cs) active d = ground (
  arith,
  lookup-deactivate e id cs (if is_evicted_by e c then erase k active else active) d.1,
  lookup-erase k id active,
  d.0,
)

offer-holds :
    (e : Event) (found : Option Cursor)
    → holds_attached (elim found [ none ↦ none | some c ↦ some (offer e c) ])
      ≡ elim found [ none ↦ false | some c ↦ is_attached_state c.state && not (is_evicted_by e c) ]
unfolding offer
offer-holds e none = refl
offer-holds e (some c) = ground arith

pub publish-Agrees :
    (f : Fanout) (e : Event) → Distinct f.attachments → Agrees f → Agrees (publish f e).0
unfolding publish is_attached compact
publish-Agrees f e d v = λ k. ground (
  arith,
  v k,
  lookup-offer_all e k f.attachments,
  lookup-deactivate e k f.attachments f.active d,
  offer-holds e (lookup k f.attachments),
)
