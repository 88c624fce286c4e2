-- ===== src/History/Tests.antt =====
-- Runs of the history on concrete output.
use paperboat_helper.Base.{
  ℕ, ◌≡◌, ◌≤◌, refl, List, [], ◌∷◌, drop, ok, arith, add64, sub64, String_discrete, lookup,
}
use paperboat_helper.History.{
  History, set, Replay, new, append, acknowledge, set_limit, live, replay, restore, compact,
  output_event,
}
use paperboat_helper.History.Chain.{Chain, bytes_of, total}
use paperboat_helper.History.Compact.{Linked, compact_lem, newest}
use paperboat_helper.History.Invariant.{IsValid, new-IsValid, append-IsValid}
use paperboat_helper.History.Stream.{Holds, new-Holds, append-Holds}
use paperboat_helper.History.Replaying.Pieces.{window}
use paperboat_helper.History.Restoring.{restore-IsValid, restore-live}
use paperboat_helper.History.Run.{Op, appends, sets_limit, acknowledges, run, output, run_replays}

abbrev small : History
small = record {
  max_bytes = 4;
  bytes = 0;
  earliest = 0;
  latest = 0;
  events = [];
  head = 0;
  acks = [];
}

abbrev chunk : List ℕ
chunk = 104 ∷ 105 ∷ 33 ∷ []

made : new 4 ≡ ok small
unfolding new
made = refl

small-IsValid : IsValid small
small-IsValid = new-IsValid 4 made

small-Holds : Holds small []
small-Holds = new-Holds 4 made

abbrev calls : List Op
calls = appends 1 chunk ∷ acknowledges "a" 2 ∷ appends 2 (7 ∷ 8 ∷ 9 ∷ []) ∷ sets_limit 100 ∷ []

-- The second chunk pushes out the first one.
earliest : (run small calls).earliest ≡ 3
unfolding append acknowledge set_limit compact add64 sub64 set String_discrete lookup
earliest = refl

latest : (run small calls).latest ≡ 6
unfolding append acknowledge set_limit compact add64 sub64 set String_discrete lookup
latest = refl

run_replays_example :
    (total (live (run small calls)) ≤ (run small calls).max_bytes)
    × (r : Replay) × (replay (run small calls) 4 1 ≡ ok r)
    × (bytes_of r.events ≡ window 1 1 (drop 4 (output [] small calls)))
    × Chain 4 r.events r.to_sequence
run_replays_example =
    run_replays 4 calls 4 1 made (omega (arith, earliest)) (omega (arith, latest)) (omega arith)

abbrev full : History
full = (append small 1 chunk).0

full-IsValid : IsValid full
full-IsValid = append-IsValid small 1 chunk small-IsValid

chunk_taken : (append small 1 chunk).1 ≡ ok (output_event small 1 chunk)
unfolding append add64
chunk_taken = refl

more_taken :
    (append full 2 (7 ∷ 8 ∷ [])).1
    ≡ ok (record { channel = 2; start_sequence = 3; end_sequence = 5; bytes = 7 ∷ 8 ∷ [] })
unfolding append compact add64 sub64 set
more_taken = refl

full-Holds : Holds full chunk
full-Holds = append-Holds small 1 chunk [] small-IsValid small-Holds chunk_taken

abbrev over : History
over = record {
  max_bytes = 4;
  bytes = 5;
  earliest = 0;
  latest = 5;
  events =
      record { channel = 1; start_sequence = 0; end_sequence = 3; bytes = chunk }
      ∷ record { channel = 2; start_sequence = 3; end_sequence = 5; bytes = 7 ∷ 8 ∷ [] }
      ∷ [];
  head = 0;
  acks = [];
}

over-Linked : Linked over
over-Linked = record {
  head_le = omega arith;
  chain = (refl, refl, (refl, refl, refl));
  counted = refl;
  latest_lt = omega arith;
}

compact_lem_example : Linked (compact over) × (live (compact over) ≡ newest 4 (live over))
compact_lem_example = compact_lem over over-Linked

restored : restore 9 0 5 over.events ≡ ok (record over { max_bytes = 9 })
unfolding restore add64 sub64
restored = refl

restore-IsValid_example :
    IsValid (record over { max_bytes = 9 })
    × (over.earliest ≡ 0)
    × (over.latest ≡ 5)
    × (over.events ≡ over.events)
restore-IsValid_example =
    restore-IsValid 9 0 5 over.events (omega arith) (omega arith, (omega arith, tt)) (omega arith)
      restored

restore-live_example :
    (h' : History) × (restore full.max_bytes full.earliest full.latest (live full) ≡ ok h')
    × (live h' ≡ live full)
    × (h'.bytes ≡ full.bytes)
    × IsValid h'
restore-live_example = restore-live full full-IsValid
