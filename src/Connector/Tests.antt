-- ===== src/Connector/Tests.antt =====
-- Races in which the second candidate wins, and in which none does; and the waits of a supervisor.
use paperboat_helper.Base.{◌<◌, ◌^◌, ◌≡◌, refl, arith, true, false, none, some, List, [], ◌∷◌}
use paperboat_helper.Connector.Racing.{
  Slot, leading, trailing, Candidate, Race, opened, begin, start_second, on_success, on_failure,
  change, change_other, Reached, here, further, timed, opens,
}
use paperboat_helper.Connector.Supervisor.{
  SupervisorConfig, Round, failed, lost, new_supervisor, with_defaults, waits,
}
use paperboat_helper.Connector.Supervisor.Backoff.{waits_lem}
use paperboat_helper.Connector.Racing.Outcomes.{candidate, other_slot, IsStopped, race_wins}

abbrev raced : Race
raced = on_success trailing (start_second (begin none))

raced_reached : Reached (begin none) raced
unfolding begin start_second
raced_reached =
    further (further here (timed (begin none) refl))
      (opens trailing (start_second (begin none)) refl refl)

raced_opened : raced.outcome ≡ some opened
unfolding on_success begin start_second change change_other
raced_opened = refl

race_wins_example :
    (i : Slot) × (raced.winner ≡ some i)
    × ((c : Candidate) → candidate (other_slot i) raced ≡ some c → IsStopped c)
    × (raced.canceled ≡ false
        → (c : Candidate) → candidate i raced ≡ some c
        → (c.canceled ≡ false) × (c.closed ≡ false))
race_wins_example = race_wins none raced raced_reached raced_opened

abbrev failed_race : Race
failed_race = on_failure trailing (on_failure leading (begin none))

abbrev config : SupervisorConfig
config = record {
  has_manager = true;
  has_admissions = true;
  initial_backoff = 0;
  max_backoff = 3000000000;
}

abbrev rounds : List Round
rounds = failed ∷ failed ∷ failed ∷ failed ∷ lost ∷ failed ∷ failed ∷ []

config_made : new_supervisor true config ≡ some (with_defaults config)
unfolding new_supervisor
config_made = refl

limit_small : 3000000000 < 2 ^ 62
limit_small = omega arith

waits_lem_example :
    waits (with_defaults config) 1000000000 rounds
    ≡ 1000000000 ∷ 2000000000 ∷ 3000000000 ∷ 3000000000 ∷ 1000000000 ∷ 1000000000 ∷ 2000000000 ∷ []
waits_lem_example = waits_lem true config (with_defaults config) rounds config_made limit_small
