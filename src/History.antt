-- ===== src/History.antt =====
-- internal/history/history.go: the bounded replay history of a session's output.
--
-- The reference counts of the buffers and their pools are not modelled: an event holds its bytes
-- by value, so that `AppendOwned` and `Append`, `ReplayOwned` and `Replay` are each one function.
-- The lock makes every method one step.
pub mod Chain
pub mod Compact
pub mod Invariant
pub mod Restoring
pub mod Replaying
pub mod Stream
pub mod Run
pub mod Tests
use paperboat_helper.Base.{
  ℕ, zero, suc, ◌+◌, ◌-◌, max, ◌≡◌, Bool, true, false, ◌&&◌, ◌||◌, not, Option, none, some, List,
  [], ◌∷◌, ◌++◌, String, String_discrete, is_yes, length, take, drop, ltb, leb, ◌==◌, if◌then◌else◌,
  Result, ok, err, lookup, insert, string_key, max_u64, add64, sub64,
}

pub record Event : Type 0 where
  pub channel : ℕ
  pub start_sequence : ℕ
  pub end_sequence : ℕ
  pub bytes : List ℕ

abbrev pub empty_event : Event
empty_event = record { channel = 0; start_sequence = 0; end_sequence = 0; bytes = [] }

pub data Error : Type 0 where
  invalid_limit invalid_cursor sequence_full : Error
  -- requested, earliest, latest
  gap : ℕ → ℕ → ℕ → Error

pub record History : Type 0 where
  pub max_bytes : ℕ
  pub bytes : ℕ
  pub earliest : ℕ
  pub latest : ℕ
  pub events : List Event
  pub head : ℕ
  pub acks : List (String × ℕ)

-- `h.events[h.head:]`.
abbrev pub live : History → List Event
live h = drop h.head h.events

-- `h.events[i] = e`.
unfoldable pub set : List Event → ℕ → Event → List Event
set [] i e = []
set (x ∷ xs) zero e = e ∷ xs
set (x ∷ xs) (suc i) e = x ∷ set xs i e

unfoldable pub new : ℕ → Result Error History
new max_bytes =
    if max_bytes == 0
    then err invalid_limit
    else ok (record {
      max_bytes = max_bytes;
      bytes = 0;
      earliest = 0;
      latest = 0;
      events = [];
      head = 0;
      acks = [];
    })

-- One round of the loop of `compactLocked`, at an event that is there.
drop_head : History → Event → History
drop_head h e = record h {
  bytes = sub64 h.bytes (length e.bytes);
  earliest = e.end_sequence;
  events = set h.events h.head empty_event;
  head = h.head + 1;
}

-- The loop of `compactLocked` over what it has not reached of `h.events[h.head:]`.
unfoldable pub compact_loop : List Event → History → History
unfolding drop_head
compact_loop [] h = h
compact_loop (e ∷ rest) h =
    let next = compact_loop rest (drop_head h e) in if ltb h.max_bytes h.bytes then next else h

-- The reset at the end of `compactLocked`.
reset_if_drained : History → History
reset_if_drained h =
    if h.head == length h.events then record h { earliest = h.latest; events = []; head = 0 } else h

unfoldable pub compact : History → History
unfolding compact_loop reset_if_drained
compact h = reset_if_drained (compact_loop (live h) h)

-- The event that `appendOwned` makes of a chunk of output.
abbrev pub output_event : History → ℕ → List ℕ → Event
output_event h channel bytes = record {
  channel = channel;
  start_sequence = h.latest;
  end_sequence = add64 h.latest (length bytes);
  bytes = bytes;
}

-- `h.latest = …; h.bytes += …; h.events = append(h.events, event)`.
abbrev pub push : History → Event → History
push h e = record h {
  latest = e.end_sequence;
  bytes = add64 h.bytes (length e.bytes);
  events = h.events ++ e ∷ [];
}

unfoldable pub append : History → ℕ → List ℕ → History × Result Error Event
append h channel bytes =
    if length bytes == 0
    then (
      h,
      ok (record empty_event {
        channel = channel;
        start_sequence = h.latest;
        end_sequence = h.latest;
      }),
    )
    else if ltb (max_u64 - h.latest) (length bytes)
    then (h, err sequence_full)
    else (compact (push h (output_event h channel bytes)), ok (output_event h channel bytes))

unfoldable pub set_limit : History → ℕ → History × Result Error (Unit {0})
set_limit h max_bytes =
    if max_bytes == 0
    then (h, err invalid_limit)
    else (compact (record h { max_bytes = max_bytes }), ok tt)

unfoldable pub clear : History → History × ℕ
clear h = (record h { events = []; head = 0; bytes = 0; earliest = h.latest }, h.latest)

-- The loop of `Restore`, on the history so far.
unfoldable pub restore_loop : List Event → History → Result Error History
restore_loop [] h = ok h
restore_loop (e ∷ rest) h =
    let next = restore_loop rest (push h e) in
    if not (e.start_sequence == h.latest)
      || not (sub64 e.end_sequence e.start_sequence == length e.bytes)
    then err invalid_cursor
    else next

-- The checks of `Restore` behind its loop.
unfoldable pub restore_checked : ℕ → ℕ → Result Error History → Result Error History
restore_checked max_bytes latest (err e) = err e
restore_checked max_bytes latest (ok h) =
    if not (h.latest == latest) || ltb max_bytes h.bytes then err invalid_cursor else ok h

-- Both reasons of the first test of `Restore` give the same error.
unfoldable pub restore : ℕ → ℕ → ℕ → List Event → Result Error History
unfolding restore_loop restore_checked
restore max_bytes earliest latest events =
    if max_bytes == 0 || ltb latest earliest
    then err invalid_cursor
    else restore_checked max_bytes latest (
        restore_loop events (record {
          max_bytes = max_bytes;
          bytes = 0;
          earliest = earliest;
          latest = earliest;
          events = [];
          head = 0;
          acks = [];
        }))

pub record Replay : Type 0 where
  pub from_sequence : ℕ
  pub to_sequence : ℕ
  pub earliest_sequence : ℕ
  pub latest_sequence : ℕ
  pub events : List Event

-- `xs[a:b]`. Out of range Go panics; the chain of the events keeps both bounds in range.
abbrev pub slice : ℕ → ℕ → List ℕ → List ℕ
slice a b xs = take (b - a) (drop a xs)

-- The end of the piece of `e` that is returned, from `start` on.
abbrev pub piece_end : ℕ → ℕ → ℕ → Event → ℕ
piece_end limit remaining start e =
    if ltb 0 limit && ltb remaining (sub64 e.end_sequence start)
    then add64 start remaining
    else e.end_sequence

abbrev pub piece : ℕ → ℕ → Event → Event
piece start stop e = record e {
  start_sequence = start;
  end_sequence = stop;
  bytes = slice (sub64 start e.start_sequence) (sub64 stop e.start_sequence) e.bytes;
}

-- The loop of `ReplayOwned`: the events that it appends, and the final `ToSequence`.
unfoldable pub replay_loop : ℕ → ℕ → ℕ → ℕ → List Event → List Event × ℕ
replay_loop from limit remaining to [] = ([], to)
replay_loop from limit remaining to (e ∷ rest) =
    let skipped = replay_loop from limit remaining to rest in
    let start = max from e.start_sequence in
    let stop = piece_end limit remaining start e in
    let left = sub64 remaining (sub64 stop start) in
    let unlimited = replay_loop from limit remaining stop rest in
    let limited = replay_loop from limit left stop rest in
    if leb e.end_sequence from
    then skipped
    else if ltb start stop
    then (if ltb 0 limit
        then (if left == 0
            then (piece start stop e ∷ [], stop)
            else (piece start stop e ∷ limited.0, limited.1))
        else (piece start stop e ∷ unlimited.0, unlimited.1))
    else skipped

unfoldable pub replay : History → ℕ → ℕ → Result Error Replay
unfolding replay_loop
replay h from limit =
    if ltb from h.earliest
    then err (gap from h.earliest h.latest)
    else if ltb h.latest from
    then err invalid_cursor
    else (let found = replay_loop from limit limit from (live h) in
        ok (record {
          from_sequence = from;
          to_sequence = found.1;
          earliest_sequence = h.earliest;
          latest_sequence = h.latest;
          events = found.0;
        }))

-- `h.acks[attachmentID]`, which is 0 where there is none.
abbrev pub acked : Option ℕ → ℕ
acked none = 0
acked (some n) = n

-- What `Acknowledge` refuses.
abbrev pub bad_cursor : History → String → ℕ → Bool
bad_cursor h attachment_id next =
    is_yes (String_discrete attachment_id "")
    || ltb h.latest next
    || ltb next (acked (lookup attachment_id h.acks))

unfoldable pub acknowledge : History → String → ℕ → History × Result Error (Unit {0})
acknowledge h attachment_id next =
    if bad_cursor h attachment_id next
    then (h, err invalid_cursor)
    else (record h { acks = insert attachment_id next h.acks }, ok tt)

unfoldable pub acknowledged : History → String → Option ℕ
acknowledged h attachment_id = lookup attachment_id h.acks

unfoldable pub bounds : History → ℕ × ℕ × ℕ
bounds h = (h.earliest, h.latest, h.bytes)
