-- ===== src/Connector/Supervisor/Backoff.antt =====
-- The waits of the supervisor.
use paperboat_helper.Base.{
  ℕ, suc, ◌*◌, ◌%◌, ◌^◌, ◌≤◌, ◌<◌, ◌≡◌, refl, sym, subst, ap, ◌∙◌, min, Bool, true, false, not,
  ◌||◌, none, some, List, [], ◌∷◌, ◌==◌, if◌then◌else◌, arith,
}
use native.Mathlib.Nat.{mul_assoc, pow-suc}
use paperboat_helper.Connector.Supervisor.{
  SupervisorConfig, new_supervisor, with_defaults, is_negative, less, Round, failed, replaced,
  ended, lost, clamp, round, waits,
}

-- The waits that a supervisor should make: behind `n` failures in a row, the initial backoff
-- doubled as many times, up to the limit; behind a connection that is lost, the initial backoff.
abbrev pub expected : ℕ → ℕ → ℕ → List Round → List ℕ
expected i m n [] = []
expected i m n (failed ∷ rs) = min (i * 2 ^ n) m ∷ expected i m (suc n) rs
expected i m n (replaced ∷ rs) = expected i m 0 rs
expected i m n (ended ∷ rs) = expected i m 0 rs
expected i m n (lost ∷ rs) = i ∷ expected i m 0 rs

clamp-min : (x m : ℕ) → m < 2 ^ 62 → clamp m (min x m * 2 % 2 ^ 64) ≡ min (x * 2) m
clamp-min x m h = ground arith

power_suc : (i n : ℕ) → i * 2 ^ n * 2 ≡ i * 2 ^ suc n
power_suc i n = mul_assoc i (2 ^ n) 2 ∙ ap (λ (k : ℕ). i * k) (sym (pow-suc 2 n))

start_min : (i m : ℕ) → i ≤ m → i ≡ min (i * 2 ^ 0) m
start_min i m h = ground arith

waits_from :
    (c : SupervisorConfig) (n : ℕ) (rs : List Round)
    → c.initial_backoff ≤ c.max_backoff
    → c.max_backoff < 2 ^ 62
    → waits c (min (c.initial_backoff * 2 ^ n) c.max_backoff) rs
      ≡ expected c.initial_backoff c.max_backoff n rs
unfolding waits round
waits_from c n [] le h = refl
waits_from c n (failed ∷ rs) le h =
    ap (λ (b : ℕ). min (c.initial_backoff * 2 ^ n) c.max_backoff ∷ waits c b rs)
      (clamp-min (c.initial_backoff * 2 ^ n) c.max_backoff h
        ∙ ap (λ (x : ℕ). min x c.max_backoff) (power_suc c.initial_backoff n))
    ∙ ap (λ (ws : List ℕ). min (c.initial_backoff * 2 ^ n) c.max_backoff ∷ ws)
        (waits_from c (suc n) rs le h)
waits_from c n (replaced ∷ rs) le h =
    (ap (λ (b : ℕ). waits c b rs) (start_min c.initial_backoff c.max_backoff le)
      ∙ waits_from c 0 rs le h)
waits_from c n (ended ∷ rs) le h =
    (ap (λ (b : ℕ). waits c b rs) (start_min c.initial_backoff c.max_backoff le)
      ∙ waits_from c 0 rs le h)
waits_from c n (lost ∷ rs) le h =
    ap (λ (ws : List ℕ). c.initial_backoff ∷ ws)
      (ap (λ (b : ℕ). waits c b rs) (start_min c.initial_backoff c.max_backoff le)
        ∙ waits_from c 0 rs le h)

made_of :
    {A : Type 0} (b : Bool) (d c : A)
    → (if b then none else some d) ≡ some c
    → (b ≡ false) × (d ≡ c)
made_of true d c h = absurd (ground (arith, h))
made_of false d c h = (refl, ground (arith, h))

unlike_less : (i m : ℕ) → is_negative i ≡ false → less m i ≡ false → m < 2 ^ 62 → i ≤ m
unlike_less i m n l h = ground arith

supervisor_ordered :
    (valid_jitter : Bool) (given c : SupervisorConfig)
    → new_supervisor valid_jitter given ≡ some c
    → c.max_backoff < 2 ^ 62
    → c.initial_backoff ≤ c.max_backoff
unfolding new_supervisor
supervisor_ordered valid_jitter given c made h =
    let d = with_defaults given in
    let (tests, same) =
      made_of
        (not d.has_manager
          || not d.has_admissions
          || is_negative d.initial_backoff
          || d.initial_backoff == 0
          || less d.max_backoff d.initial_backoff
          || not valid_jitter)
        d c made in
    subst (λ (x : SupervisorConfig). x.initial_backoff ≤ x.max_backoff) same
      (unlike_less d.initial_backoff d.max_backoff (ground (arith, tests)) (ground (arith, tests))
        (subst (λ (x : SupervisorConfig). x.max_backoff < 2 ^ 62) (sym same) h))

-- The waits of a supervisor that `NewSupervisor` makes, before their jitter and with a limit below
-- 2 ^ 62 nanoseconds: in a run of failures, the initial backoff doubled once for each failure
-- before it in the run, up to the limit; behind a connection that is lost, the initial backoff; and
-- a connection ends the run.
pub waits_lem :
    (valid_jitter : Bool) (given c : SupervisorConfig) (rs : List Round)
    → new_supervisor valid_jitter given ≡ some c
    → c.max_backoff < 2 ^ 62
    → waits c c.initial_backoff rs ≡ expected c.initial_backoff c.max_backoff 0 rs
waits_lem valid_jitter given c rs made h =
    let le = supervisor_ordered valid_jitter given c made h in
    ap (λ (b : ℕ). waits c b rs) (start_min c.initial_backoff c.max_backoff le)
    ∙ waits_from c 0 rs le h
