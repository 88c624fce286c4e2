-- ===== src/Preview/Registry/Bounds.antt =====
-- The bound on the previews that are not removed.
use paperboat_helper.Base.{
  bytes_key, ℕ, suc, ◌≡◌, ◌≤◌, inl, inr, Bool-cases, true, none, some, List, [], ◌∷◌, lookup,
  insert, Bytes, arith, ok,
}
use paperboat_helper.Preview.Record.{Record, is_removed}
use paperboat_helper.Preview.Registry.{Config, Registry, active, new}
use paperboat_helper.Preview.Registry.Effects.{
  Op, step, Effect, step-Effect, step-max_targets, unchanged, updated, linked, created,
}
use paperboat_helper.Preview.Registry.Run.{run}

active-replace :
    (i : Bytes) (a b : Record) (m : List (Bytes × Record))
    → lookup i m ≡ some a
    → (is_removed a.state ≡ true → is_removed b.state ≡ true)
    → active (insert i b m) ≤ active m
unfolding active lookup insert
active-replace i a b [] found gone = absurd (ground arith)
active-replace i a b ((j, x) ∷ m) found gone = elim (bytes_key.dec j i) [
  | yes p ↦ elim (Bool-cases (is_removed a.state)) [
    | inl e ↦ ground (arith, gone e)
    | inr e ↦ ground arith
  ]
  | no p ↦ ground (arith, active-replace i a b m (ground arith) gone)
]

active-insert_new :
    (i : Bytes) (b : Record) (m : List (Bytes × Record))
    → lookup i m ≡ none
    → active (insert i b m) ≤ suc (active m)
unfolding active lookup insert
active-insert_new i b [] missing = ground arith
active-insert_new i b ((j, x) ∷ m) missing = ground (arith, active-insert_new i b m)

step_active :
    (r r' : Registry)
    → Effect r r'
    → active r.records ≤ r.max_targets
    → active r'.records ≤ r.max_targets
step_active r r' (unchanged records logical) h = ground arith
step_active r r' (updated i a b found here u records logical) h =
    ground (arith, active-replace i a b r.records found (λ e. cc (e, here)))
step_active r r' (linked i a url found records logical) h =
    ground (arith, active-replace i a (record a { public_url = url }) r.records found (λ e. e))
step_active r r' (created i b missing room good free named records logical) h =
    ground (arith, active-insert_new i b r.records missing)

run_active :
    (r : Registry) (ops : List Op)
    → active r.records ≤ r.max_targets
    → active (run r ops).records ≤ r.max_targets
run_active r [] h = h
run_active r (op ∷ ops) h =
    let bound = step-max_targets r op in
    let next = step_active r (step r op) (step-Effect r op) h in
    let rest = run_active (step r op) ops (ground arith) in ground (arith, rest, bound)

-- After any calls of a new registry, at most `max_targets` previews are not removed.
pub active-run-le :
    (targets probes : ℕ) (c : Config) (ops : List Op) {r : Registry}
    → new targets probes c ≡ ok r
    → active (run r ops).records ≤ r.max_targets
unfolding new active
active-run-le targets probes c ops {r} made =
    let start : active r.records ≤ r.max_targets = ground arith in run_active r ops start
