-- ===== src/Session/Live/Tests.antt =====
-- A session with a queue of 8 bytes for each of at most 2 attachments, and a history of 16 bytes.
use paperboat_helper.Base.{
  ◌+◌, ◌-◌, max, ◌≤◌, ◌<◌, ◌≡◌, ◌≢◌, refl, false, true, some, List, [], ◌∷◌, String, length, drop,
  take, arith, ok, lookup, insert, String_discrete, add64, sub64, string_key,
}
use text.Mathlib.TextEquality.{eq_iff}
use paperboat_helper.History
use paperboat_helper.Session.Fanout
use paperboat_helper.Session.Ring
use paperboat_helper.Session.Live
use paperboat_helper.History.{Event, History, Replay, new}
use paperboat_helper.History.Chain.{bytes_of}
use paperboat_helper.Session.State.{attached}
use paperboat_helper.Session.Fanout.{Cursor, count, holds_attached}
use paperboat_helper.Session.Fanout.Reading.{IsPending}
use paperboat_helper.Session.Fanout.Draining.{IsReader, read_all}
use paperboat_helper.Session.Attaching.{attachment_replay_limit, attach_locked}
use paperboat_helper.Session.Attaching.Queueing.{Queued}
use paperboat_helper.Session.Live.{Live, new_live, attach, next_of}
use paperboat_helper.Session.Live.Run.{Op, captures, attaches, run, output}
use paperboat_helper.Session.Live.Reading.{live_reads, live_attaches, live_drains}

abbrev fresh : History
fresh = record {
  max_bytes = 16;
  bytes = 0;
  earliest = 0;
  latest = 0;
  events = [];
  head = 0;
  acks = [];
}

made : new 16 ≡ ok fresh
unfolding new
made = refl

b_named : ◌≢◌ {A = String} "b" ""
b_named = λ e. cc ((eq_iff "b" "").1 e)

abbrev ops : List Op
ops = captures (1 ∷ 2 ∷ 3 ∷ 4 ∷ 5 ∷ 6 ∷ []) ∷ attaches "a" 0 ∷ captures (7 ∷ []) ∷ []

-- The replay is the newest 4 bytes.
abbrev cursor_a : Cursor
cursor_a = record {
  state = attached;
  max_bytes = 8;
  queued_bytes = 5;
  evicted_bytes = 0;
  cursor = 2;
  enqueued_end = 7;
  has_cursor = true;
  notified = true;
}

a_found : lookup "a" (run 2 8 (new_live fresh) ops).fanout.attachments ≡ some cursor_a
unfolding lookup insert String_discrete add64 sub64 History.append History.compact History.replay
    Live.capture Live.attach Fanout.attach Fanout.publish Fanout.count Fanout.compact
    Fanout.new_fanout Fanout.enqueue_event Fanout.offer Ring.valid_output_event Ring.insert_event
    attach_locked
a_found = refl

history_after :
    ((run 2 8 (new_live fresh) ops).history.earliest ≡ 0)
    × ((run 2 8 (new_live fresh) ops).history.latest ≡ 7)
unfolding lookup insert String_discrete add64 sub64 History.append History.compact History.replay
    Live.capture Live.attach Fanout.attach Fanout.publish Fanout.count Fanout.compact
    Fanout.new_fanout Fanout.enqueue_event Fanout.offer Ring.valid_output_event Ring.insert_event
    attach_locked
history_after = (refl, refl)

fanout_after :
    (count (run 2 8 (new_live fresh) ops).fanout.attachments ≡ 1)
    × (holds_attached (lookup "b" (run 2 8 (new_live fresh) ops).fanout.attachments) ≡ false)
unfolding lookup insert String_discrete add64 sub64 History.append History.compact History.replay
    Live.capture Live.attach Fanout.attach Fanout.publish Fanout.count Fanout.compact
    Fanout.new_fanout Fanout.enqueue_event Fanout.offer Ring.valid_output_event Ring.insert_event
    attach_locked
fanout_after = (refl, refl)

a-IsPending : IsPending (run 2 8 (new_live fresh) ops).fanout "a" cursor_a
a-IsPending = record {
  found = a_found;
  attached = refl;
  reading = refl;
  pending = omega arith;
  word = omega arith;
}

live_reads_example :
    let l = run 2 8 (new_live fresh) ops in
    let stream = output 2 8 [] (new_live fresh) ops in
    (e : Event) × ((next_of l "a").1 ≡ ok (some e))
    × (e.start_sequence ≡ 2)
    × (e.end_sequence ≡ 2 + length e.bytes)
    × (0 < length e.bytes)
    × (e.end_sequence ≤ length stream)
    × (e.bytes ≡ take (length e.bytes) (drop 2 stream))
    × (d : Cursor) × (lookup "a" (next_of l "a").0.fanout.attachments ≡ some d)
    × (d.cursor ≡ e.end_sequence)
    × (d.state ≡ attached)
live_reads_example = live_reads 2 8 16 ops made "a" cursor_a a-IsPending

live_attaches_example :
    let l = run 2 8 (new_live fresh) ops in
    let stream = output 2 8 [] (new_live fresh) ops in
    (l' : Live) × (r : Replay) × (attach 2 8 l "b" 1 ≡ (l', ok r))
    × (bytes_of r.events ≡ drop r.from_sequence stream)
    × (r.from_sequence ≡ max 1 (length stream - attachment_replay_limit 8))
    × Queued l'.fanout "b" 8 r.from_sequence (length stream)
    × ((j : String) → j ≢ "b" → lookup j l'.fanout.attachments ≡ lookup j l.fanout.attachments)
    × (l'.history ≡ l.history)
live_attaches_example =
    live_attaches 2 8 16 ops made "b" 1 (omega (arith, history_after.0))
      (omega (arith, history_after.1)) (omega (arith, fanout_after.0)) (omega arith) (omega arith)
      b_named fanout_after.1

a-IsReader : IsReader (run 2 8 (new_live fresh) ops).fanout "a" cursor_a
a-IsReader = record { found = a_found; attached = refl; reading = refl }

live_drains_example :
    let l = run 2 8 (new_live fresh) ops in
    let stream = output 2 8 [] (new_live fresh) ops in
    let (f, bytes) = read_all 5 l.fanout "a" in
    (d : Cursor) × IsReader f "a" d
    × (7 ≤ d.cursor)
    × (d.cursor ≡ 2 + length bytes)
    × (bytes ≡ take (length bytes) (drop 2 stream))
live_drains_example =
    live_drains 2 8 16 ops made "a" cursor_a 5 a-IsReader (omega arith) (omega arith)
