-- ===== src/Operation/Tests.antt =====
-- Runs of the journal on concrete operations.
use paperboat_helper.Base.{
  ◌≡◌, refl, true, false, List, [], ◌∷◌, Bytes, Bytes_discrete, bytes_key, lookup, insert, arith,
  some, none, is_yes, if◌then◌else◌,
}
use paperboat_helper.Operation.{
  Outcome, Journal, Stored, inserted, completed, begin, begin_new, evict, reserve, finish, load,
  starts, waits, answers, uncertain_before, refused, operation_conflict,
}
use paperboat_helper.Operation.Order.{IsOrdered, load-IsOrdered}
use paperboat_helper.Operation.Effects.{Op, begins, finishes, run}
use paperboat_helper.Operation.Pinned.{begin_once, finish_answers, finish_uncertain, Leaves}
use paperboat_helper.Operation.Bounds.{IsBounded}

abbrev first : Bytes
first = 1 ∷ 1 ∷ 1 ∷ 1 ∷ 1 ∷ 1 ∷ 1 ∷ 1 ∷ []

abbrev second : Bytes
second = 2 ∷ 1 ∷ 1 ∷ 1 ∷ 1 ∷ 1 ∷ 1 ∷ 1 ∷ []

abbrev third : Bytes
third = 3 ∷ 1 ∷ 1 ∷ 1 ∷ 1 ∷ 1 ∷ 1 ∷ 1 ∷ []

abbrev done : Outcome
done = record { result = 9 ∷ []; error_code = "" }

abbrev stored : List Stored
stored = completed second (5 ∷ []) done ∷ []

abbrev journal : Journal
journal = load stored (record { max = 2; entries = []; order = [] })

journal-IsOrdered : IsOrdered journal
journal-IsOrdered =
    load-IsOrdered stored (record { max = 2; entries = []; order = [] }) (unfold lookup in refl, tt)
      tt

first_starts : (begin journal first (7 ∷ []) (some inserted)).1 ≡ starts
unfolding begin begin_new evict reserve load lookup insert Bytes_discrete
first_starts = refl

-- The third operation takes the room of the second one.
abbrev more : List Op
more = begins third (8 ∷ []) (some inserted) ∷ finishes third done true ∷ []

Leaves-first : Leaves first more
Leaves-first = ((λ e. ground arith), ((λ e. ground arith), tt))

begin_once_example :
    begin (run (begin journal first (7 ∷ []) (some inserted)).0 more) first (7 ∷ []) none ≡ (
      run (begin journal first (7 ∷ []) (some inserted)).0 more,
      if is_yes (Bytes_discrete (7 ∷ []) (7 ∷ [])) then waits else refused operation_conflict,
    )
begin_once_example =
    begin_once journal first (7 ∷ []) (7 ∷ []) (some inserted) none more journal-IsOrdered
      first_starts Leaves-first

abbrev ended_first : Journal
ended_first = finish (run (begin journal first (7 ∷ []) (some inserted)).0 more) first done true

finish_answers_example : begin ended_first first (7 ∷ []) none ≡ (
  ended_first,
  if is_yes (Bytes_discrete (7 ∷ []) (7 ∷ [])) then answers done else refused operation_conflict,
)
finish_answers_example =
    finish_answers journal first (7 ∷ []) (7 ∷ []) (some inserted) none more done journal-IsOrdered
      first_starts Leaves-first

abbrev lost_first : Journal
lost_first =
    run (finish (run (begin journal first (7 ∷ []) (some inserted)).0 more) first done false) more

finish_uncertain_example : begin lost_first first (7 ∷ []) none ≡ (
  lost_first,
  if is_yes (Bytes_discrete (7 ∷ []) (7 ∷ []))
      then uncertain_before done
      else refused operation_conflict,
)
finish_uncertain_example =
    finish_uncertain journal first (7 ∷ []) (7 ∷ []) (some inserted) none more more done
      journal-IsOrdered first_starts Leaves-first

few : IsBounded journal
unfolding load insert
few = omega arith
