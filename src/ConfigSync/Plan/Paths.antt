-- ===== src/ConfigSync/Plan/Paths.antt =====
-- Which paths stand in the lists of a plan.
use paperboat_helper.Base.{
  has, ◌≡◌, refl, ap, ◌∙◌, Bool, true, false, ◌&&◌, ◌||◌, List, [], ◌∷◌, is_yes, lookup, Bytes,
  bytes_key, arith,
}
use paperboat_helper.ConfigSync.Plan.{
  Action, AssignmentMode, Files, PathSummary, ReconcilePlan, present, add_path, add_paths,
  all_paths, action, put, plan_paths, keep, publish_update, publish_delete, apply_update,
  apply_delete, conflict,
}

abbrev pub has_conflict : Bytes → List PathSummary → Bool
has_conflict p [] = false
has_conflict p (c ∷ cs) = is_yes (bytes_key.dec c.path p) || has_conflict p cs

has-add_path :
    (p q : Bytes) (qs : List Bytes)
    → has p (add_path q qs) ≡ (is_yes (bytes_key.dec q p) || has p qs)
unfolding add_path
has-add_path p q [] = refl
has-add_path p q (x ∷ xs) = ground (arith, has-add_path p q xs)

has-add_paths :
    (p : Bytes) (files : Files) (qs : List Bytes)
    → has p (add_paths files qs) ≡ (present (lookup p files) || has p qs)
unfolding add_paths lookup
has-add_paths p [] qs = refl
has-add_paths p ((q, s) ∷ files) qs =
    ground (arith, has-add_paths p files qs, has-add_path p q (add_paths files qs))

-- All paths are those of the three maps.
pub has-all_paths :
    (p : Bytes) (baseline local remote : Files)
    → has p (all_paths baseline local remote)
      ≡ (present (lookup p baseline) || (present (lookup p local) || present (lookup p remote)))
unfolding all_paths
has-all_paths p baseline local remote = ground (
  arith,
  has-add_paths p baseline (add_paths local (add_paths remote [])),
  has-add_paths p local (add_paths remote []),
  has-add_paths p remote [],
)

abbrev pub is_publish_update : Action → Bool
is_publish_update publish_update = true
is_publish_update _ = false

abbrev pub is_publish_delete : Action → Bool
is_publish_delete publish_delete = true
is_publish_delete _ = false

abbrev pub is_apply_update : Action → Bool
is_apply_update apply_update = true
is_apply_update _ = false

abbrev pub is_apply_delete : Action → Bool
is_apply_delete apply_delete = true
is_apply_delete _ = false

abbrev pub is_conflict : Action → Bool
is_conflict (conflict _ _) = true
is_conflict _ = false

-- Where a path is put.
put-updates :
    (p q : Bytes) (a : Action) (plan : ReconcilePlan)
    → has p (put q a plan).publish_updates
      ≡ (is_publish_update a && is_yes (bytes_key.dec q p) || has p plan.publish_updates)
put-updates p q keep plan = refl
put-updates p q publish_update plan = refl
put-updates p q publish_delete plan = refl
put-updates p q apply_update plan = refl
put-updates p q apply_delete plan = refl
put-updates p q (conflict n r) plan = refl

put-deletes :
    (p q : Bytes) (a : Action) (plan : ReconcilePlan)
    → has p (put q a plan).publish_deletes
      ≡ (is_publish_delete a && is_yes (bytes_key.dec q p) || has p plan.publish_deletes)
put-deletes p q keep plan = refl
put-deletes p q publish_update plan = refl
put-deletes p q publish_delete plan = refl
put-deletes p q apply_update plan = refl
put-deletes p q apply_delete plan = refl
put-deletes p q (conflict n r) plan = refl

put-applies :
    (p q : Bytes) (a : Action) (plan : ReconcilePlan)
    → has p (put q a plan).apply_remote
      ≡ (is_apply_update a && is_yes (bytes_key.dec q p) || has p plan.apply_remote)
put-applies p q keep plan = refl
put-applies p q publish_update plan = refl
put-applies p q publish_delete plan = refl
put-applies p q apply_update plan = refl
put-applies p q apply_delete plan = refl
put-applies p q (conflict n r) plan = refl

put-removes :
    (p q : Bytes) (a : Action) (plan : ReconcilePlan)
    → has p (put q a plan).delete_local
      ≡ (is_apply_delete a && is_yes (bytes_key.dec q p) || has p plan.delete_local)
put-removes p q keep plan = refl
put-removes p q publish_update plan = refl
put-removes p q publish_delete plan = refl
put-removes p q apply_update plan = refl
put-removes p q apply_delete plan = refl
put-removes p q (conflict n r) plan = refl

put-conflicts :
    (p q : Bytes) (a : Action) (plan : ReconcilePlan)
    → has_conflict p (put q a plan).conflicts
      ≡ (is_conflict a && is_yes (bytes_key.dec q p) || has_conflict p plan.conflicts)
put-conflicts p q keep plan = refl
put-conflicts p q publish_update plan = refl
put-conflicts p q publish_delete plan = refl
put-conflicts p q apply_update plan = refl
put-conflicts p q apply_delete plan = refl
put-conflicts p q (conflict n r) plan = refl

spread :
    (p q : Bytes) (t d h : Bool)
    → (q ≡ p → t ≡ d)
    → (t && is_yes (bytes_key.dec q p) || d && h) ≡ (d && (is_yes (bytes_key.dec q p) || h))
spread p q t d h e = elim (bytes_key.dec q p) [ yes x ↦ ground (arith, e x) | no x ↦ ground arith ]

module _ (mode : AssignmentMode) (baseline local remote : Files) (p : Bytes) where
  abbrev at_path : Bytes → Action
  at_path x = action mode (lookup x baseline) (lookup x local) (lookup x remote)

  abbrev decided : Action
  decided = at_path p

  -- A path stands in the list of its action, and in no other.
  pub record Sorted (ps : List Bytes) : Type 0 where
    pub updates :
        has p (plan_paths mode baseline local remote ps).publish_updates
        ≡ (is_publish_update decided && has p ps)
    pub deletes :
        has p (plan_paths mode baseline local remote ps).publish_deletes
        ≡ (is_publish_delete decided && has p ps)
    pub applies :
        has p (plan_paths mode baseline local remote ps).apply_remote
        ≡ (is_apply_update decided && has p ps)
    pub removes :
        has p (plan_paths mode baseline local remote ps).delete_local
        ≡ (is_apply_delete decided && has p ps)
    pub conflicts :
        has_conflict p (plan_paths mode baseline local remote ps).conflicts
        ≡ (is_conflict decided && has p ps)

  pub plan_paths-Sorted : (ps : List Bytes) → Sorted ps
  unfolding plan_paths
  plan_paths-Sorted [] = record {
    updates = ground arith;
    deletes = ground arith;
    applies = ground arith;
    removes = ground arith;
    conflicts = ground arith;
  }
  plan_paths-Sorted (q ∷ qs) =
      let a = action mode (lookup q baseline) (lookup q local) (lookup q remote) in
      let rest = plan_paths mode baseline local remote qs in
      let s = plan_paths-Sorted qs in
      record {
        updates =
            put-updates p q a rest
            ∙ ap (λ x. is_publish_update a && is_yes (bytes_key.dec q p) || x) s.updates
            ∙ spread p q (is_publish_update a) (is_publish_update decided) (has p qs)
                (λ e. ap (λ x. is_publish_update (at_path x)) e);
        deletes =
            put-deletes p q a rest
            ∙ ap (λ x. is_publish_delete a && is_yes (bytes_key.dec q p) || x) s.deletes
            ∙ spread p q (is_publish_delete a) (is_publish_delete decided) (has p qs)
                (λ e. ap (λ x. is_publish_delete (at_path x)) e);
        applies =
            put-applies p q a rest
            ∙ ap (λ x. is_apply_update a && is_yes (bytes_key.dec q p) || x) s.applies
            ∙ spread p q (is_apply_update a) (is_apply_update decided) (has p qs)
                (λ e. ap (λ x. is_apply_update (at_path x)) e);
        removes =
            put-removes p q a rest
            ∙ ap (λ x. is_apply_delete a && is_yes (bytes_key.dec q p) || x) s.removes
            ∙ spread p q (is_apply_delete a) (is_apply_delete decided) (has p qs)
                (λ e. ap (λ x. is_apply_delete (at_path x)) e);
        conflicts =
            put-conflicts p q a rest
            ∙ ap (λ x. is_conflict a && is_yes (bytes_key.dec q p) || x) s.conflicts
            ∙ spread p q (is_conflict a) (is_conflict decided) (has p qs)
                (λ e. ap (λ x. is_conflict (at_path x)) e);
      }
