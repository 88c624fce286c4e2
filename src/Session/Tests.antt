-- ===== src/Session/Tests.antt =====
-- Runs of the session's parts on concrete calls.
use paperboat_helper.Base.{
  ℕ, ◌+◌, ◌≡◌, ◌≤◌, ◌<◌, refl, inl, List, [], ◌∷◌, ok, false, true, arith, length, some,
  String_discrete, lookup, insert, lookup-insert_self, string_key, add64, sub64,
}
use paperboat_helper.History.{Event}
use paperboat_helper.Session.State.{
  State, Lifecycle, AttachmentState, new, running, exited, restarting, closed, deleted, evicted,
  attached, allowed, is_running, transition, run_again, run-deleted, recover, recover-run,
  attachment_final, attachment_run, detached,
}
use paperboat_helper.Session.State
use paperboat_helper.Session.Ring.{valid_output_event}
use paperboat_helper.Session.Ring.Pieces.{Output, Fits, span}
use paperboat_helper.Session.Fanout.{
  Cursor, new_fanout, attach, publish, compact, offer, next, is_attached, holds_attached,
}
use paperboat_helper.Session.Fanout.Reading.{IsPending}
use paperboat_helper.Session.Fanout.Run.{Op, attaches, publishes, Carries, run_delivers, run-Agrees}
use paperboat_helper.Session.Fanout.Run
use paperboat_helper.Session.Input.{
  InputKey, input_key, InputDecision, InputJournal, Writer, input_accepted, input_duplicate, write,
  new_bounded, admit, replayed, public_decision, decide, set_generation,
}
use paperboat_helper.Session.Input
use paperboat_helper.Session.Input.Once.{
  writes, sets_generation, count, known, run_once, write_again, write_conflict,
}
use paperboat_helper.Session.Input.Once

-- A session that exits, restarts and runs again.
abbrev runs : List State
runs = exited ∷ restarting ∷ running ∷ []

abbrev first_run : Lifecycle
first_run = record { state = exited; generation = 1 }

restarted : is_running (State.run first_run (restarting ∷ running ∷ [])).state ≡ true
unfolding State.run transition
restarted = refl

run_again_example :
    first_run.generation < (State.run first_run (restarting ∷ running ∷ [])).generation
run_again_example = run_again first_run (restarting ∷ running ∷ []) refl restarted (omega arith)

abbrev gone : Lifecycle
gone = record { state = deleted; generation = 1 }

-- A new session that runs and exits.
abbrev exits : List State
exits = running ∷ exited ∷ []

ran : 0 < (State.run new exits).generation
unfolding State.run transition new add64
ran = omega arith

recover-run_example :
    recover (some (State.run new exits).state) (State.run new exits).generation
    ≡ ok (State.run new exits)
recover-run_example = recover-run exits (omega arith) (inl ran)

-- The stream 5, 6, 7 and so on, on channel 1.
abbrev numbers : Output
numbers = record { byte = λ n. n + 5; channel_of = λ n. 1 }

abbrev first_two : Event
first_two = record { channel = 1; start_sequence = 0; end_sequence = 2; bytes = 5 ∷ 6 ∷ [] }

abbrev third : Event
third = record { channel = 1; start_sequence = 2; end_sequence = 3; bytes = 7 ∷ [] }

first_two-Fits : Fits numbers first_two
first_two-Fits = record {
  nonempty = omega arith;
  ends = refl;
  content = refl;
  channels = λ n _ _. refl;
}

third-Fits : Fits numbers third
third-Fits = record {
  nonempty = omega arith;
  ends = refl;
  content = refl;
  channels = λ n _ _. refl;
}

abbrev calls : List Run.Op
calls = attaches "a" 8 ∷ publishes first_two ∷ publishes third ∷ []

abbrev reading : Cursor
reading = record {
  state = attached;
  max_bytes = 8;
  queued_bytes = 3;
  evicted_bytes = 0;
  cursor = 0;
  enqueued_end = 3;
  has_cursor = true;
  notified = true;
}

reading_found : lookup "a" (Run.run new_fanout calls).attachments ≡ some reading
unfolding attach publish new_fanout lookup insert String_discrete add64 sub64 valid_output_event
    compact offer
reading_found = refl

is_pending : IsPending (Run.run new_fanout calls) "a" reading
is_pending = record {
  found = reading_found;
  attached = refl;
  reading = refl;
  pending = omega arith;
  word = omega arith;
}

run_delivers_example :
    (e : Event) × ((next (Run.run new_fanout calls) "a").1 ≡ ok (some e))
    × (e.start_sequence ≡ 0)
    × (e.end_sequence ≡ 0 + length e.bytes)
    × (0 < length e.bytes)
    × (e.bytes ≡ span numbers.byte 0 (length e.bytes))
    × (d : Cursor) × (lookup "a" (next (Run.run new_fanout calls) "a").0.attachments ≡ some d)
    × (d.cursor ≡ e.end_sequence)
    × (d.state ≡ attached)
run_delivers_example =
    run_delivers numbers calls "a" reading (first_two-Fits, (third-Fits, tt)) is_pending

run-Agrees_example :
    is_attached (Run.run new_fanout calls) "a"
    ≡ holds_attached (lookup "a" (Run.run new_fanout calls).attachments)
run-Agrees_example = run-Agrees calls "a"

abbrev key : InputKey
key = record { client_id = "c"; attachment_id = "a"; generation = 1; input_id = "i" }

-- A hash that tells lengths apart.
abbrev digest : List ℕ → List ℕ
digest bytes = length bytes ∷ []

abbrev takes_all : Writer
takes_all bytes = (length bytes, false)

abbrev journal : InputJournal
journal = new_bounded 1 2

good_key : Input.bad_key key ≡ false
unfolding String_discrete
good_key = refl

abbrev journaled : List Once.Op
journaled =
    writes key (1 ∷ 2 ∷ []) (some takes_all)
    ∷ sets_generation 2
    ∷ writes key (1 ∷ 2 ∷ []) (some takes_all)
    ∷ []

run_once_example : count key (Once.run digest journal journaled).1 + known key journal ≤ 1
run_once_example = run_once digest key journal journaled

abbrev written : InputJournal
written = (write digest journal key (1 ∷ 2 ∷ []) (some takes_all)).0

abbrev accepted : InputDecision
accepted = public_decision (decide (2 ∷ []) (1 ∷ 2 ∷ []) (2, false))

first_write : (write digest journal key (1 ∷ 2 ∷ []) (some takes_all)).1 ≡ ok accepted
unfolding write new_bounded String_discrete lookup
first_write = refl

write_again_example :
    write digest
      (Once.run digest written (sets_generation 2 ∷ [])).0
      key
      (1 ∷ 2 ∷ [])
      (some takes_all)
    ≡ (
      (Once.run digest written (sets_generation 2 ∷ [])).0,
      ok (record accepted { status = input_duplicate }),
      [],
    )
unfolding decide Input.judge
write_again_example =
    write_again digest journal key (1 ∷ 2 ∷ []) (some takes_all) (sets_generation 2 ∷ []) takes_all
      first_write

-- A journal that has decided the key.
abbrev decided : InputJournal
decided = record {
  current = 1;
  max = 1;
  decisions = (key, decide (2 ∷ []) (1 ∷ 2 ∷ []) (2, false)) ∷ [];
}

key_decided : lookup key decided.decisions ≡ some (decide (2 ∷ []) (1 ∷ 2 ∷ []) (2, false))
unfolding insert
key_decided = lookup-insert_self key (decide (2 ∷ []) (1 ∷ 2 ∷ []) (2, false)) []

admitted : admit journal key ≡ ok tt
unfolding admit new_bounded lookup
admitted = refl

abbrev stale : InputKey
stale = record key { generation = 3 }
