-- ===== src/Session/Fanout.antt =====
-- internal/session/fanout.go: one ring of output events, shared by the cursors of the attachments.
--
-- A map is iterated in the order of its list, where Go chooses an order; the order shows in the
-- order of the evictions alone, and in which attachment the text of an error names. The mutex makes
-- every method one step. `WaitNext` is one round of its loop, which answers or waits; the channel
-- `notify`, which holds one token at most, is a Boolean.
pub mod Delivery
pub mod Operations
pub mod Reading
pub mod Draining
pub mod Active
pub mod Run
use paperboat_helper.Base.{
  ℕ, suc, Bool, true, false, not, ◌&&◌, ◌||◌, Option, none, some, List, [], ◌∷◌, ◌++◌, String,
  String_discrete, is_yes, length, drop, ltb, leb, ◌==◌, if◌then◌else◌, Result, ok, err, lookup,
  insert, erase, string_key, add64, sub64,
}
use paperboat_helper.History.{Event}
use paperboat_helper.Session.State.{AttachmentState, attached, evicted}
use paperboat_helper.Session.Ring.{valid_output_event, insert_event, compact_ring, event_at}

pub data Error : Type 0 where
  attachment_exists attachment_unknown attachment_evicted output_order : Error
  invalid_queue_limit invalid_transition : Error

pub record Eviction : Type 0 where
  pub attachment_id : String
  pub queued_bytes : ℕ

pub record Cursor : Type 0 where
  pub state : AttachmentState
  pub max_bytes : ℕ
  pub queued_bytes : ℕ
  pub evicted_bytes : ℕ
  pub cursor : ℕ
  pub enqueued_end : ℕ
  pub has_cursor : Bool
  pub notified : Bool

pub record Fanout : Type 0 where
  pub attachments : List (String × Cursor)
  pub active : List (String × Unit {0})
  pub ring : List Event

abbrev pub is_attached_state : AttachmentState → Bool
is_attached_state attached = true
is_attached_state _ = false

abbrev pub is_evicted_state : AttachmentState → Bool
is_evicted_state evicted = true
is_evicted_state _ = false

unfoldable pub new_fanout : Fanout
new_fanout = record { attachments = []; active = []; ring = [] }

abbrev pub fresh_cursor : ℕ → Cursor
fresh_cursor max_pending_bytes = record {
  state = attached;
  max_bytes = max_pending_bytes;
  queued_bytes = 0;
  evicted_bytes = 0;
  cursor = 0;
  enqueued_end = 0;
  has_cursor = false;
  notified = false;
}

-- An attachment of that name that is attached.
abbrev pub holds_attached : Option Cursor → Bool
holds_attached none = false
holds_attached (some c) = is_attached_state c.state

unfoldable pub attach : Fanout → String → ℕ → Fanout × Result Error (Unit {0})
attach f attachment_id max_pending_bytes =
    if is_yes (String_discrete attachment_id "") || max_pending_bytes == 0
    then (f, err invalid_queue_limit)
    else if holds_attached (lookup attachment_id f.attachments)
    then (f, err attachment_exists)
    else (
      record f {
        attachments = insert attachment_id (fresh_cursor max_pending_bytes) f.attachments;
        active = insert attachment_id tt f.active;
      },
      ok tt,
    )

-- The loop of `compactLocked` over the cursors: `minimum`, where there is one.
abbrev pub lower : Cursor → Option ℕ → Option ℕ
lower c none = some c.cursor
lower c (some minimum) = if ltb c.cursor minimum then some c.cursor else some minimum

unfoldable pub minimum_cursor : List (String × Cursor) → Option ℕ → Option ℕ
minimum_cursor [] minimum = minimum
minimum_cursor ((_, c) ∷ rest) minimum =
    minimum_cursor rest
      (if not (is_attached_state c.state) || not c.has_cursor then minimum else lower c minimum)

unfoldable pub compact : Fanout → Fanout
unfolding minimum_cursor compact_ring
compact f = record f { ring = compact_ring (minimum_cursor f.attachments none) f.ring }

unfoldable pub detach : Fanout → String → Fanout × Result Error (Unit {0})
detach f attachment_id = elim (lookup attachment_id f.attachments) [
  | none ↦ (f, err attachment_unknown)
  | some c ↦
      if not (is_attached_state c.state) && not (is_evicted_state c.state)
      then (f, err invalid_transition)
      else (
        compact (record f {
          attachments = erase attachment_id f.attachments;
          active = erase attachment_id f.active;
        }),
        ok tt,
      )
]

unfoldable pub count : List (String × Cursor) → ℕ
count [] = 0
count ((_, c) ∷ rest) = if is_attached_state c.state then suc (count rest) else count rest

abbrev pub is_some : Option (Unit {0}) → Bool
is_some none = false
is_some (some _) = true

unfoldable pub is_attached : Fanout → String → Bool
is_attached f attachment_id = is_some (lookup attachment_id f.active)

-- An attached cursor that expects another sequence.
abbrev pub out_of_order : Event → Cursor → Bool
out_of_order e c =
    is_attached_state c.state && c.has_cursor && not (c.enqueued_end == e.start_sequence)

unfoldable pub any_out_of_order : Event → List (String × Cursor) → Bool
any_out_of_order e [] = false
any_out_of_order e ((_, c) ∷ rest) = out_of_order e c || any_out_of_order e rest

-- The event does not fit into the queue.
abbrev pub overflows : Event → Cursor → Bool
overflows e c = ltb (sub64 c.max_bytes c.queued_bytes) (length e.bytes)

abbrev pub evict : Cursor → Cursor
evict c = record c {
  evicted_bytes = c.queued_bytes;
  queued_bytes = 0;
  state = evicted;
  notified = true;
}

abbrev pub enqueue : Event → Cursor → Cursor
enqueue e c = record c {
  cursor = if c.has_cursor then c.cursor else e.start_sequence;
  has_cursor = true;
  enqueued_end = e.end_sequence;
  queued_bytes = add64 c.queued_bytes (length e.bytes);
  notified = true;
}

-- The body of the second loop of `PublishOwned`, on the cursor.
unfoldable pub offer : Event → Cursor → Cursor
offer e c =
    if not (is_attached_state c.state) then c else if overflows e c then evict c else enqueue e c

abbrev pub is_evicted_by : Event → Cursor → Bool
is_evicted_by e c = is_attached_state c.state && overflows e c

unfoldable pub offer_all : Event → List (String × Cursor) → List (String × Cursor)
offer_all e [] = []
offer_all e ((id, c) ∷ rest) = (id, offer e c) ∷ offer_all e rest

unfoldable pub evictions : Event → List (String × Cursor) → List Eviction
evictions e [] = []
evictions e ((id, c) ∷ rest) =
    if is_evicted_by e c
    then record { attachment_id = id; queued_bytes = c.queued_bytes } ∷ evictions e rest
    else evictions e rest

-- `f.active.Delete(id)` for each attachment that is evicted.
unfoldable pub deactivate :
    Event → List (String × Cursor) → List (String × Unit {0}) → List (String × Unit {0})
deactivate e [] active = active
deactivate e ((id, c) ∷ rest) active =
    deactivate e rest (if is_evicted_by e c then erase id active else active)

unfoldable pub publish : Fanout → Event → Fanout × Result Error (List Eviction)
unfolding any_out_of_order offer_all evictions deactivate
publish f e =
    if not (valid_output_event e)
    then (f, err output_order)
    else if any_out_of_order e f.attachments
    then (f, err output_order)
    else (
      compact (record {
        attachments = offer_all e f.attachments;
        active = deactivate e f.attachments f.active;
        ring = insert_event e f.ring;
      }),
      ok (evictions e f.attachments),
    )

-- The part of `EnqueueOwned` behind the look-up, at an attached cursor in order.
unfoldable pub enqueue_at :
    Fanout → String → Event → Cursor → Fanout × Result Error (Option Eviction)
enqueue_at f attachment_id e c =
    if overflows e c
    then (
      compact (record f {
        attachments = insert attachment_id (evict c) f.attachments;
        active = erase attachment_id f.active;
      }),
      ok (some (record { attachment_id = attachment_id; queued_bytes = c.queued_bytes })),
    )
    else (
      record f {
        attachments = insert attachment_id (enqueue e c) f.attachments;
        ring = insert_event e f.ring;
      },
      ok none,
    )

unfoldable pub enqueue_event : Fanout → String → Event → Fanout × Result Error (Option Eviction)
unfolding enqueue_at
enqueue_event f attachment_id e =
    if not (valid_output_event e)
    then (f, err output_order)
    else elim (lookup attachment_id f.attachments) [
      | none ↦ (f, err attachment_unknown)
      | some c ↦
          if is_evicted_state c.state
          then (f, err attachment_evicted)
          else if not (is_attached_state c.state)
          then (f, err invalid_transition)
          else if c.has_cursor && not (c.enqueued_end == e.start_sequence)
          then (f, err output_order)
          else enqueue_at f attachment_id e c
    ]

-- The rest of an event from the cursor on.
abbrev pub rest_of_event : ℕ → Event → Event
rest_of_event start e = record e {
  start_sequence = start;
  bytes = drop (sub64 start e.start_sequence) e.bytes;
}

-- The cursor behind an event.
abbrev pub advance : Event → Cursor → Cursor
advance e c = record c {
  cursor = e.end_sequence;
  queued_bytes = sub64 c.queued_bytes (sub64 e.end_sequence c.cursor);
}

-- The delivery of `Next` and `WaitNextOwned`.
unfoldable pub deliver :
    Fanout → String → Cursor → Option Event → Fanout × Result Error (Option Event)
deliver f attachment_id c none = (f, err output_order)
deliver f attachment_id c (some e) = (
  compact (record f { attachments = insert attachment_id (advance e c) f.attachments }),
  ok (some (rest_of_event c.cursor e)),
)

-- `Next`, and one round of `WaitNextOwned`: `ok none` is that there is nothing yet.
unfoldable pub next : Fanout → String → Fanout × Result Error (Option Event)
unfolding deliver
next f attachment_id = elim (lookup attachment_id f.attachments) [
  | none ↦ (f, err attachment_unknown)
  | some c ↦
      if is_evicted_state c.state
      then (f, err attachment_evicted)
      else if not (is_attached_state c.state)
      then (f, err invalid_transition)
      else if not c.has_cursor || leb c.enqueued_end c.cursor
      then (f, ok none)
      else deliver f attachment_id c (event_at c.cursor f.ring)
]

unfoldable pub status : Fanout → String → Result Error (AttachmentState × ℕ)
status f attachment_id = elim (lookup attachment_id f.attachments) [
  | none ↦ err attachment_unknown
  | some c ↦ ok (c.state, if is_evicted_state c.state then c.evicted_bytes else c.queued_bytes)
]
