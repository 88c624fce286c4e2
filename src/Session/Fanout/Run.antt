-- ===== src/Session/Fanout/Run.antt =====
-- The fanout over any history of calls, whatever their order.
use paperboat_helper.Base.{
  ℕ, ◌≡◌, refl, ◌+◌, ◌<◌, ◌⊎◌, inl, inr, Option, none, some, List, [], ◌∷◌, String, length, arith,
  subst, sym, Option-cases, ok, lookup, insert, erase, string_key, Distinct, insert-Distinct,
  erase-Distinct,
}
use paperboat_helper.History.{Event}
use paperboat_helper.Session.Ring.Pieces.{Output, Fits, span}
use paperboat_helper.Session.Fanout.{
  Cursor, Fanout, holds_attached, new_fanout, attach, detach, compact, is_attached, publish,
  offer_all, enqueue_event, enqueue_at, next, deliver, fresh_cursor, evict, enqueue, advance,
}
use paperboat_helper.Session.Fanout.Delivery.{Serves, new_fanout-Serves}
use paperboat_helper.Session.Fanout.Operations.{
  attach-Serves, detach-Serves, publish-Serves, enqueue_event-Serves,
}
use paperboat_helper.Session.Fanout.Reading.{IsPending, next-Serves, next_delivers}
use paperboat_helper.Session.Fanout.Active.{
  Agrees, attach-Agrees, detach-Agrees, enqueue_event-Agrees, next-Agrees, publish-Agrees,
  lookup-offer_all,
}
use paperboat_helper.Session.Ring.{event_at}

pub data Op : Type 0 where
  attaches : String → ℕ → Op
  detaches : String → Op
  publishes : Event → Op
  enqueues : String → Event → Op
  reads : String → Op

abbrev pub step : Fanout → Op → Fanout
step f (attaches id max) = (attach f id max).0
step f (detaches id) = (detach f id).0
step f (publishes e) = (publish f e).0
step f (enqueues id e) = (enqueue_event f id e).0
step f (reads id) = (next f id).0

abbrev pub run : Fanout → List Op → Fanout
run f [] = f
run f (op ∷ ops) = run (step f op) ops

-- What is put out are pieces of the stream.
abbrev pub Carries : Output → List Op → Type 0
Carries s [] = Unit {0}
Carries s (publishes e ∷ ops) = Fits s e × Carries s ops
Carries s (enqueues id e ∷ ops) = Fits s e × Carries s ops
Carries s (_ ∷ ops) = Carries s ops

run-Serves :
    (s : Output) (f : Fanout) (ops : List Op) → Carries s ops → Serves s f → Serves s (run f ops)
run-Serves s f [] c v = v
run-Serves s f (publishes e ∷ ops) c v =
    run-Serves s (publish f e).0 ops c.1 (publish-Serves s f e c.0 v)
run-Serves s f (enqueues id e ∷ ops) c v =
    run-Serves s (enqueue_event f id e).0 ops c.1 (enqueue_event-Serves s f id e c.0 v)
run-Serves s f (attaches id max ∷ ops) c v =
    run-Serves s (attach f id max).0 ops c (attach-Serves s f id max v)
run-Serves s f (detaches id ∷ ops) c v = run-Serves s (detach f id).0 ops c (detach-Serves s f id v)
run-Serves s f (reads id ∷ ops) c v = run-Serves s (next f id).0 ops c (next-Serves s f id v)

-- After any calls that put out pieces of one stream, in any order and to any attachments, a reader
-- that is attached and has something to read is never refused: it gets the bytes of the stream from
-- its cursor on, at least one, and its cursor then stands behind them.
pub run_delivers :
    (s : Output) (ops : List Op) (id : String) (c : Cursor)
    → Carries s ops
    → IsPending (run new_fanout ops) id c
    → let f = run new_fanout ops in
      (e : Event) × ((next f id).1 ≡ ok (some e))
      × (e.start_sequence ≡ c.cursor)
      × (e.end_sequence ≡ c.cursor + length e.bytes)
      × (0 < length e.bytes)
      × (e.bytes ≡ span s.byte c.cursor (length e.bytes))
      × (d : Cursor) × (lookup id (next f id).0.attachments ≡ some d)
      × (d.cursor ≡ e.end_sequence)
      × (d.state ≡ c.state)
run_delivers s ops id c carries p =
    next_delivers s (run new_fanout ops) id c
      (run-Serves s new_fanout ops carries (new_fanout-Serves s)) p

offer_all-Distinct :
    (e : Event) (cs : List (String × Cursor)) → Distinct cs → Distinct (offer_all e cs)
unfolding offer_all
offer_all-Distinct e [] d = tt
offer_all-Distinct e ((k, c) ∷ cs) d = (
  (let gone : lookup k (offer_all e cs) ≡ none = ground (arith, lookup-offer_all e k cs, d.0) in
      gone),
  offer_all-Distinct e cs d.1,
)

-- What holds of the set of attachments.
record IsSound (f : Fanout) : Type 0 where
  distinct : Distinct f.attachments
  agrees : Agrees f

kept : {m n : List (String × Cursor)} → n ≡ m → Distinct m → Distinct n
kept e d = subst (λ m. Distinct m) (sym e) d

attach-cases :
    (f : Fanout) (id : String) (max : ℕ)
    → ((attach f id max).0.attachments ≡ f.attachments)
      ⊎ ((attach f id max).0.attachments ≡ insert id (fresh_cursor max) f.attachments)
unfolding attach
attach-cases f id max = ground arith

detach-cases :
    (f : Fanout) (id : String)
    → ((detach f id).0.attachments ≡ f.attachments)
      ⊎ ((detach f id).0.attachments ≡ erase id f.attachments)
unfolding detach compact
detach-cases f id = ground arith

publish-cases :
    (f : Fanout) (e : Event)
    → ((publish f e).0.attachments ≡ f.attachments)
      ⊎ ((publish f e).0.attachments ≡ offer_all e f.attachments)
unfolding publish compact
publish-cases f e = ground arith

enqueue_event-cases :
    (f : Fanout) (id : String) (e : Event) (c : Cursor)
    → lookup id f.attachments ≡ some c
    → ((enqueue_event f id e).0.attachments ≡ f.attachments)
      ⊎ (((enqueue_event f id e).0.attachments ≡ insert id (evict c) f.attachments)
          ⊎ ((enqueue_event f id e).0.attachments ≡ insert id (enqueue e c) f.attachments))
unfolding enqueue_event enqueue_at compact
enqueue_event-cases f id e c found = ground arith

deliver-cases :
    (f : Fanout) (id : String) (c : Cursor) (found : Option Event)
    → ((deliver f id c found).0.attachments ≡ f.attachments)
      ⊎ ((e : Event) × ((deliver f id c found).0.attachments
            ≡ insert id (advance e c) f.attachments))
unfolding deliver compact
deliver-cases f id c none = inl refl
deliver-cases f id c (some e) = inr (e, refl)

next-cases :
    (f : Fanout) (id : String) (c : Cursor)
    → lookup id f.attachments ≡ some c
    → ((next f id).0.attachments ≡ f.attachments)
      ⊎ ((next f id).0.attachments ≡ (deliver f id c (event_at c.cursor f.ring)).0.attachments)
unfolding next
next-cases f id c found = ground arith

next_unknown :
    (f : Fanout) (id : String)
    → lookup id f.attachments ≡ none
    → (next f id).0.attachments ≡ f.attachments
unfolding next
next_unknown f id missing = ground arith

enqueue_event_unknown :
    (f : Fanout) (id : String) (e : Event)
    → lookup id f.attachments ≡ none
    → (enqueue_event f id e).0.attachments ≡ f.attachments
unfolding enqueue_event
enqueue_event_unknown f id e missing = ground arith

attach-Distinct :
    (f : Fanout) (id : String) (max : ℕ)
    → Distinct f.attachments
    → Distinct (attach f id max).0.attachments
attach-Distinct f id max d = elim (attach-cases f id max) [
  | inl e ↦ kept e d
  | inr e ↦ kept e (insert-Distinct id (fresh_cursor max) f.attachments d)
]

detach-Distinct :
    (f : Fanout) (id : String) → Distinct f.attachments → Distinct (detach f id).0.attachments
detach-Distinct f id d = elim (detach-cases f id) [
  | inl e ↦ kept e d
  | inr e ↦ kept e (erase-Distinct id f.attachments d)
]

publish-Distinct :
    (f : Fanout) (e : Event) → Distinct f.attachments → Distinct (publish f e).0.attachments
publish-Distinct f e d = elim (publish-cases f e) [
  | inl p ↦ kept p d
  | inr p ↦ kept p (offer_all-Distinct e f.attachments d)
]

enqueue_event-Distinct :
    (f : Fanout) (id : String) (e : Event)
    → Distinct f.attachments
    → Distinct (enqueue_event f id e).0.attachments
enqueue_event-Distinct f id e d = elim (Option-cases (lookup id f.attachments)) [
  | inl missing ↦ kept (enqueue_event_unknown f id e missing) d
  | inr (c, found) ↦ elim (enqueue_event-cases f id e c found) [
    | inl p ↦ kept p d
    | inr (inl p) ↦ kept p (insert-Distinct id (evict c) f.attachments d)
    | inr (inr p) ↦ kept p (insert-Distinct id (enqueue e c) f.attachments d)
  ]
]

deliver-Distinct :
    (f : Fanout) (id : String) (c : Cursor) (found : Option Event)
    → Distinct f.attachments
    → Distinct (deliver f id c found).0.attachments
deliver-Distinct f id c found d = elim (deliver-cases f id c found) [
  | inl p ↦ kept p d
  | inr (e, p) ↦ kept p (insert-Distinct id (advance e c) f.attachments d)
]

next-Distinct :
    (f : Fanout) (id : String) → Distinct f.attachments → Distinct (next f id).0.attachments
next-Distinct f id d = elim (Option-cases (lookup id f.attachments)) [
  | inl missing ↦ kept (next_unknown f id missing) d
  | inr (c, found) ↦ elim (next-cases f id c found) [
    | inl p ↦ kept p d
    | inr p ↦ kept p (deliver-Distinct f id c (event_at c.cursor f.ring) d)
  ]
]

step-IsSound : (f : Fanout) (op : Op) → IsSound f → IsSound (step f op)
step-IsSound f (attaches id max) s = record {
  distinct = attach-Distinct f id max s.distinct;
  agrees = attach-Agrees f id max s.agrees;
}
step-IsSound f (detaches id) s = record {
  distinct = detach-Distinct f id s.distinct;
  agrees = detach-Agrees f id s.agrees;
}
step-IsSound f (publishes e) s = record {
  distinct = publish-Distinct f e s.distinct;
  agrees = publish-Agrees f e s.distinct s.agrees;
}
step-IsSound f (enqueues id e) s = record {
  distinct = enqueue_event-Distinct f id e s.distinct;
  agrees = enqueue_event-Agrees f id e s.agrees;
}
step-IsSound f (reads id) s = record {
  distinct = next-Distinct f id s.distinct;
  agrees = next-Agrees f id s.agrees;
}

run-IsSound : (f : Fanout) (ops : List Op) → IsSound f → IsSound (run f ops)
run-IsSound f [] s = s
run-IsSound f (op ∷ ops) s = run-IsSound (step f op) ops (step-IsSound f op s)

new_fanout-IsSound : IsSound new_fanout
unfolding new_fanout is_attached lookup
new_fanout-IsSound = record { distinct = tt; agrees = λ id. refl }

-- After any calls, in any order, and with any events, the lock-free answer of `IsAttached` is the
-- one of the cursors: an attachment is in the set `active` exactly if its cursor is attached.
pub run-Agrees :
    (ops : List Op) (id : String)
    → is_attached (run new_fanout ops) id
      ≡ holds_attached (lookup id (run new_fanout ops).attachments)
run-Agrees ops id = (run-IsSound new_fanout ops new_fanout-IsSound).agrees id
