-- ===== src/ConfigSync/Plan/Convergence.antt =====
-- What carrying out a plan leads to.
use paperboat_helper.Base.{
  has, ◌≡◌, refl, sym, ap, ◌∙◌, ◌⊎◌, inl, inr, Bool, true, false, ◌&&◌, ◌||◌, Bool-cases,
  if◌then◌else◌, Option, none, some, List, [], ◌∷◌, is_yes, lookup, erase, lookup-insert,
  lookup-erase, Bytes, bytes_key, arith,
}
use paperboat_helper.ConfigSync.Plan.{
  Action, AssignmentMode, FileState, FileState-discrete, Files, ReconcilePlan, bidirectional,
  pull_only, push_only, is_pull_only, is_push_only, present, differ, all_paths, action, plan,
  put_state,
}
use paperboat_helper.ConfigSync.Plan.Paths.{
  has_conflict, has-all_paths, is_publish_update, is_publish_delete, is_apply_update,
  is_apply_delete, is_conflict, plan_paths-Sorted,
}

-- The files of `source` at the paths are written.
abbrev pub copy_all : List Bytes → Files → Files → Files
copy_all [] source target = target
copy_all (p ∷ ps) source target = put_state p (lookup p source) (copy_all ps source target)

abbrev pub erase_all : List Bytes → Files → Files
erase_all [] target = target
erase_all (p ∷ ps) target = erase p (erase_all ps target)

-- The repository after a plan.
abbrev pub published : ReconcilePlan → Files → Files → Files
published plan local remote =
    erase_all plan.publish_deletes (copy_all plan.publish_updates local remote)

-- The workspace after a plan.
abbrev pub applied : ReconcilePlan → Files → Files → Files
applied plan local remote = erase_all plan.delete_local (copy_all plan.apply_remote remote local)

pub lookup-put_state :
    (p q : Bytes) (s : Option FileState) (m : Files)
    → lookup p (put_state q s m)
      ≡ (if is_yes (bytes_key.dec q p) && present s then s else lookup p m)
lookup-put_state p q none m = ground arith
lookup-put_state p q (some s) m = ground (arith, lookup-insert q p s m)

lookup-copy_all :
    (p : Bytes) (ps : List Bytes) (source target : Files)
    → lookup p (copy_all ps source target)
      ≡ (if has p ps && present (lookup p source) then lookup p source else lookup p target)
lookup-copy_all p [] source target = refl
lookup-copy_all p (q ∷ qs) source target = ground (
  arith,
  lookup-put_state p q (lookup q source) (copy_all qs source target),
  lookup-copy_all p qs source target,
)

lookup-erase_all :
    (p : Bytes) (ps : List Bytes) (target : Files)
    → lookup p (erase_all ps target) ≡ (if has p ps then none else lookup p target)
lookup-erase_all p [] target = refl
lookup-erase_all p (q ∷ qs) target =
    ground (arith, lookup-erase q p (erase_all qs target), lookup-erase_all p qs target)

-- Files that do not differ are the same.
pub same_state : (a b : Option FileState) → differ a b ≡ false → a ≡ b
unfolding differ
same_state none none h = refl
same_state none (some b) h = absurd (ground arith)
same_state (some a) none h = absurd (ground arith)
same_state (some a) (some b) h = elim (FileState-discrete a b) [
  | yes e ↦ ap some e
  | no n ↦ absurd (ground arith)
]

-- One path, as the three maps have it, and what the two sides have afterwards.
abbrev pub published_at : Action → Bool → Option FileState → Option FileState → Option FileState
published_at a here l r =
    if is_publish_delete a && here
    then none
    else if is_publish_update a && here && present l
    then l
    else r

abbrev pub applied_at : Action → Bool → Option FileState → Option FileState → Option FileState
applied_at a here l r =
    if is_apply_delete a && here
    then none
    else if is_apply_update a && here && present r
    then r
    else l

module _ (mode : AssignmentMode) (baseline local remote : Files) (p : Bytes) where
  abbrev sorted : ReconcilePlan
  sorted = plan mode baseline local remote

  abbrev here : Bool
  here = present (lookup p baseline) || (present (lookup p local) || present (lookup p remote))

  abbrev decided : Action
  decided = action mode (lookup p baseline) (lookup p local) (lookup p remote)

  pub lookup-published :
      lookup p (published sorted local remote)
      ≡ published_at decided here (lookup p local) (lookup p remote)
  unfolding plan
  lookup-published =
      let s = plan_paths-Sorted mode baseline local remote p (all_paths baseline local remote) in
      ground (
        arith,
        lookup-erase_all p sorted.publish_deletes (copy_all sorted.publish_updates local remote),
        lookup-copy_all p sorted.publish_updates local remote,
        s.updates,
        s.deletes,
        has-all_paths p baseline local remote,
      )

  pub lookup-applied :
      lookup p (applied sorted local remote)
      ≡ applied_at decided here (lookup p local) (lookup p remote)
  unfolding plan
  lookup-applied =
      let s = plan_paths-Sorted mode baseline local remote p (all_paths baseline local remote) in
      ground (
        arith,
        lookup-erase_all p sorted.delete_local (copy_all sorted.apply_remote remote local),
        lookup-copy_all p sorted.apply_remote remote local,
        s.applies,
        s.removes,
        has-all_paths p baseline local remote,
      )

  pub conflict_at : has_conflict p sorted.conflicts ≡ (is_conflict decided && here)
  unfolding plan
  conflict_at =
      let s = plan_paths-Sorted mode baseline local remote p (all_paths baseline local remote) in
      ground (arith, s.conflicts, has-all_paths p baseline local remote)

-- The same, whatever the options are.
abbrev pub here_of : Option FileState → Option FileState → Option FileState → Bool
here_of b l r = present b || (present l || present r)

converge_at :
    (b l r : Option FileState)
    → is_conflict (action bidirectional b l r) && here_of b l r ≡ false
    → applied_at (action bidirectional b l r) (here_of b l r) l r
      ≡ published_at (action bidirectional b l r) (here_of b l r) l r
unfolding action
converge_at b l r h = elim (Bool-cases (differ l r)) [
  | inl other ↦ elim (Bool-cases (differ b l)) [
    | inl local ↦ elim (Bool-cases (differ b r)) [
      | inl remote ↦ ground arith
      | inr kept ↦ ground arith
    ]
    | inr kept ↦ elim (Bool-cases (differ b r)) [
      | inl remote ↦ ground arith
      | inr still ↦ ground (arith, same_state b l kept, same_state b r still)
    ]
  ]
  | inr agree ↦ ground (arith, same_state l r agree)
]

-- No side overwrites a change of the other.
safe_at :
    (mode : AssignmentMode) (b l r : Option FileState)
    → ((published_at (action mode b l r) (here_of b l r) l r ≡ r) ⊎ (b ≡ r))
      × ((applied_at (action mode b l r) (here_of b l r) l r ≡ l) ⊎ (b ≡ l))
unfolding action
safe_at mode b l r = elim (Bool-cases (differ b l)) [
  | inl local ↦ elim (Bool-cases (differ b r)) [
    | inl remote ↦ ground arith
    | inr kept ↦ (inr (same_state b r kept), ground arith)
  ]
  | inr kept ↦ elim (Bool-cases (differ b r)) [
    | inl remote ↦ (ground arith, inr (same_state b l kept))
    | inr still ↦ (inr (same_state b r still), inr (same_state b l kept))
  ]
]

-- In bidirectional mode, at each path that is not in conflict, the workspace and the repository
-- have the same file, or both none, after the plan is carried out.
pub plan_converges :
    (baseline local remote : Files) (p : Bytes)
    → has_conflict p (plan bidirectional baseline local remote).conflicts ≡ false
    → lookup p (applied (plan bidirectional baseline local remote) local remote)
      ≡ lookup p (published (plan bidirectional baseline local remote) local remote)
plan_converges baseline local remote p free =
    let at = converge_at (lookup p baseline) (lookup p local) (lookup p remote) in
    lookup-applied bidirectional baseline local remote p
    ∙ at (sym (conflict_at bidirectional baseline local remote p) ∙ free)
    ∙ sym (lookup-published bidirectional baseline local remote p)

-- In any mode, a plan publishes a path only if the repository has it as in the baseline, and writes
-- it to the workspace only if the workspace has it as in the baseline: no side overwrites a change
-- of the other.
pub plan_safe :
    (mode : AssignmentMode) (baseline local remote : Files) (p : Bytes)
    → ((lookup p (published (plan mode baseline local remote) local remote) ≡ lookup p remote)
        ⊎ (lookup p baseline ≡ lookup p remote))
      × ((lookup p (applied (plan mode baseline local remote) local remote) ≡ lookup p local)
          ⊎ (lookup p baseline ≡ lookup p local))
plan_safe mode baseline local remote p =
    let (publishes, applies) =
      safe_at mode (lookup p baseline) (lookup p local) (lookup p remote) in
    (
      ground (arith, publishes, lookup-published mode baseline local remote p),
      ground (arith, applies, lookup-applied mode baseline local remote p),
    )

one_way_at :
    (mode : AssignmentMode) (b l r : Option FileState)
    → (is_pull_only mode ≡ true → published_at (action mode b l r) (here_of b l r) l r ≡ r)
      × (is_push_only mode ≡ true → applied_at (action mode b l r) (here_of b l r) l r ≡ l)
unfolding action
one_way_at mode b l r = (λ pull. ground arith, λ push. ground arith)

-- A plan of the mode `pull_only` leaves the repository as it is.
pub plan_pull_only :
    (baseline local remote : Files) (p : Bytes)
    → lookup p (published (plan pull_only baseline local remote) local remote) ≡ lookup p remote
plan_pull_only baseline local remote p =
    lookup-published pull_only baseline local remote p
    ∙ (one_way_at pull_only (lookup p baseline) (lookup p local) (lookup p remote)).0 refl

-- A plan of the mode `push_only` leaves the workspace as it is.
pub plan_push_only :
    (baseline local remote : Files) (p : Bytes)
    → lookup p (applied (plan push_only baseline local remote) local remote) ≡ lookup p local
plan_push_only baseline local remote p =
    lookup-applied push_only baseline local remote p
    ∙ (one_way_at push_only (lookup p baseline) (lookup p local) (lookup p remote)).1 refl
