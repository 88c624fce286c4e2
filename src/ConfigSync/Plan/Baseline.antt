-- ===== src/ConfigSync/Plan/Baseline.antt =====
-- The baseline that is accepted after a plan.
use paperboat_helper.Base.{
  has, ◌≡◌, refl, sym, ap, ◌∙◌, inl, inr, Bool, true, false, ◌&&◌, ◌||◌, Bool-cases, if◌then◌else◌,
  Option, none, some, List, [], ◌∷◌, is_yes, lookup, lookup-insert, lookup-erase, Bytes, bytes_key,
  arith,
}
use paperboat_helper.ConfigSync.Plan.{
  AssignmentMode, FileState, Files, PathSummary, differ, all_paths, action, plan, put_state, accept,
  accept_paths, accepted_baseline, freeze, freeze_conflict_baseline,
}
use paperboat_helper.ConfigSync.Plan.Paths.{has_conflict, has-all_paths, is_conflict}
use paperboat_helper.ConfigSync.Plan.Convergence.{lookup-put_state, conflict_at, here_of}

lookup-freeze :
    (p q : Bytes) (s : Option FileState) (m : Files)
    → lookup p (freeze q s m) ≡ (if is_yes (bytes_key.dec q p) then s else lookup p m)
lookup-freeze p q none m = ground (arith, lookup-erase q p m)
lookup-freeze p q (some s) m = ground (arith, lookup-insert q p s m)

lookup-freeze_conflict_baseline :
    (p : Bytes) (accepted previous : Files) (cs : List PathSummary)
    → lookup p (freeze_conflict_baseline accepted previous cs)
      ≡ (if has_conflict p cs then lookup p previous else lookup p accepted)
unfolding freeze_conflict_baseline
lookup-freeze_conflict_baseline p accepted previous [] = refl
lookup-freeze_conflict_baseline p accepted previous (c ∷ cs) = ground (
  arith,
  lookup-freeze_conflict_baseline p (freeze c.path (lookup c.path previous) accepted) previous cs,
  lookup-freeze p c.path (lookup c.path previous) accepted,
)

-- A path that is in conflict stays in conflict as long as neither side changes: with the baseline
-- that `freezeConflictBaseline` leaves, the next plan reports it again.
pub plan_again :
    (mode : AssignmentMode) (baseline local remote accepted : Files) (p : Bytes)
    → has_conflict p (plan mode baseline local remote).conflicts ≡ true
    → let frozen =
        freeze_conflict_baseline accepted baseline (plan mode baseline local remote).conflicts in
      has_conflict p (plan mode frozen local remote).conflicts ≡ true
plan_again mode baseline local remote accepted p found =
    let cs = (plan mode baseline local remote).conflicts in
    let frozen = freeze_conflict_baseline accepted baseline cs in
    let same : lookup p frozen ≡ lookup p baseline =
      ground (arith, lookup-freeze_conflict_baseline p accepted baseline cs, found) in
    conflict_at mode frozen local remote p
    ∙ ap
        (λ b.
          is_conflict (action mode b (lookup p local) (lookup p remote))
          && here_of b (lookup p local) (lookup p remote))
        same
    ∙ sym (conflict_at mode baseline local remote p)
    ∙ found

put_next :
    (p q : Bytes) (at_q at_p : Option FileState) (rest : Files) (h : Bool)
    → (q ≡ p → at_q ≡ at_p)
    → lookup p rest ≡ (if h then at_p else none)
    → lookup p (put_state q at_q rest) ≡ (if is_yes (bytes_key.dec q p) || h then at_p else none)
put_next p q none at_p rest h same found = elim (bytes_key.dec q p) [
  | yes e ↦ ground (arith, lookup-put_state p q none rest, found, same e)
  | no n ↦ ground (arith, lookup-put_state p q none rest, found)
]
put_next p q (some s) at_p rest h same found = elim (bytes_key.dec q p) [
  | yes e ↦ ground (arith, lookup-put_state p q (some s) rest, found, same e)
  | no n ↦ ground (arith, lookup-put_state p q (some s) rest, found)
]

lookup-accept_paths :
    (p : Bytes) (previous local remote : Files) (ps : List Bytes)
    → lookup p (accept_paths previous local remote ps)
      ≡ (if has p ps then accept (lookup p previous) (lookup p local) (lookup p remote) else none)
unfolding accept_paths
lookup-accept_paths p previous local remote [] = unfold lookup in refl
lookup-accept_paths p previous local remote (q ∷ qs) =
    put_next p q (accept (lookup q previous) (lookup q local) (lookup q remote))
      (accept (lookup p previous) (lookup p local) (lookup p remote))
      (accept_paths previous local remote qs) (has p qs)
      (λ e. ap (λ x. accept (lookup x previous) (lookup x local) (lookup x remote)) e)
      (lookup-accept_paths p previous local remote qs)

-- Where the two sides agree, they are accepted; elsewhere the baseline stays.
accept_lem : (b l r : Option FileState) → accept b l r ≡ (if differ l r then b else l)
unfolding accept differ
accept_lem b none none = ground arith
accept_lem b none (some r) = ground arith
accept_lem b (some l) none = ground arith
accept_lem b (some l) (some r) = ground arith

lookup-accepted_baseline :
    (p : Bytes) (previous local remote : Files) (mode : AssignmentMode)
    → lookup p (accepted_baseline previous local remote mode false)
      ≡ (if differ (lookup p local) (lookup p remote) then lookup p previous else lookup p local)
unfolding accepted_baseline
lookup-accepted_baseline p previous local remote mode = ground (
  arith,
  lookup-accept_paths p previous local remote (all_paths previous local remote),
  has-all_paths p previous local remote,
  accept_lem (lookup p previous) (lookup p local) (lookup p remote),
)

action_agree :
    (mode : AssignmentMode) (b c l r : Option FileState)
    → differ l r ≡ false
    → action mode b l r ≡ action mode c l r
unfolding action
action_agree mode b c l r agree = ground arith

-- The baseline that `AcceptedBaseline` makes where writes are not enabled leads to the same action
-- at every path as the baseline before it.
pub accepted_same :
    (mode other : AssignmentMode) (previous local remote : Files) (p : Bytes)
    → let accepted = accepted_baseline previous local remote other false in
      action mode (lookup p accepted) (lookup p local) (lookup p remote)
      ≡ action mode (lookup p previous) (lookup p local) (lookup p remote)
accepted_same mode other previous local remote p =
    let at = lookup-accepted_baseline p previous local remote other in
    elim (Bool-cases (differ (lookup p local) (lookup p remote))) [
      | inl differs ↦
          let e : lookup p (accepted_baseline previous local remote other false)
              ≡ lookup p previous =
            ground (arith, at, differs) in
          ap (λ b. action mode b (lookup p local) (lookup p remote)) e
      | inr agree ↦
          action_agree mode (lookup p (accepted_baseline previous local remote other false))
            (lookup p previous) (lookup p local) (lookup p remote) agree
    ]
