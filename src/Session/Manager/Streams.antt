-- ===== src/Session/Manager/Streams.antt =====
-- Every session of a manager is consistent, so that a stream writes to the process that runs.
use paperboat_helper.Base.{
  ℕ, ◌≡◌, refl, subst, Bool, true, false, not, ◌&&◌, Option, none, some, List, [], ◌∷◌, Bytes,
  bytes_key, length, leb, Result, ok, err, lookup, inl, inr, Bool-cases, Option-cases,
  if◌then◌else◌, Values, Values-insert, Values-erase, Values-lookup,
}
use paperboat_helper.Session.State.{is_running, transition, new}
use paperboat_helper.Session.Process.{Managed, load_stream}
use paperboat_helper.Session.Process as Process
use paperboat_helper.Session.Process.Consistency.{
  Op, restarts, closes, finishes_closing, ends, deletes, step, IsConsistent, IsLive,
  step-IsConsistent,
}
use paperboat_helper.Session.Process.Generations.{load_found}
use paperboat_helper.Session.Manager.{
  Manager, Error, invalid_session, manager_stopped, resource_limit, session_exists, created, create,
  create_as, create_with, identity, is_known, delete, forget, change, call, shutdown,
  valid_session_name,
}
use paperboat_helper.Session.Manager.Run.{Call, creates, calls, shuts_down, apply, run, new_manager}

abbrev AllConsistent : Manager → Type 0
AllConsistent m = Values IsConsistent m.sessions

pub created-IsConsistent : (name : Bytes) (p : ℕ) → IsConsistent (created name p)
unfolding transition new
created-IsConsistent name p = record { held = refl; published = (refl, refl, refl) }

create_with-AllConsistent :
    (m : Manager) (name : Bytes) (id : Result Error Bytes) (stored : Bool) (launched : Option ℕ)
    (again : Bool)
    → AllConsistent m
    → AllConsistent (create_with m name id stored launched again).0
unfolding create_with create_as
create_with-AllConsistent m name (err e) stored launched again v = v
create_with-AllConsistent m name (ok id) stored none again v = v
create_with-AllConsistent m name (ok id) stored (some p) again v =
    elim (Bool-cases (stored && again)) [
      | inr refused ↦ rw refused v
      | inl taken ↦ rw taken (
          Values-insert IsConsistent id (created name p) m.sessions (created-IsConsistent name p) v)
    ]

guard-AllConsistent :
    (refused : Bool) (m : Manager) (e : Error) (rest : Manager × Result Error (Unit {0}))
    → AllConsistent m
    → AllConsistent rest.0
    → AllConsistent (if refused then (m, err e) else rest).0
guard-AllConsistent true m e rest v w = v
guard-AllConsistent false m e rest v w = w

forget-AllConsistent :
    (m : Manager) (id : Bytes) (p : Managed × Result Process.Error (Unit {0}))
    → AllConsistent m
    → AllConsistent (forget m id p).0
unfolding forget
forget-AllConsistent m id (s, err e) v = v
forget-AllConsistent m id (s, ok u) v = Values-erase IsConsistent id m.sessions v

delete-AllConsistent :
    (m : Manager) (id : Bytes) (stored : Bool)
    → AllConsistent m
    → AllConsistent (delete m id stored).0
unfolding delete
delete-AllConsistent m id stored v = elim (Option-cases (lookup id m.sessions)) [
  | inl missing ↦ rw (missing, delete) v
  | inr (s, there) ↦ rw (there, delete) (forget-AllConsistent m id (Process.delete s stored) v)
]

change-AllConsistent :
    (m : Manager) (id : Bytes) (op : Op) → AllConsistent m → AllConsistent (change m id op)
unfolding change
change-AllConsistent m id op v = elim (Option-cases (lookup id m.sessions)) [
  | inl missing ↦ rw (missing, change) v
  | inr (s, there) ↦
      rw (there, change)
        (Values-insert IsConsistent id (step s op) m.sessions
          (step-IsConsistent s op (Values-lookup IsConsistent id m.sessions v there)) v)
]

apply-AllConsistent : (m : Manager) (c : Call) → AllConsistent m → AllConsistent (apply m c)
unfolding call shutdown create
apply-AllConsistent m (creates id name randoms stored launched again) v =
    guard-AllConsistent (not (valid_session_name name)) m invalid_session _ v (
      guard-AllConsistent m.stopping m manager_stopped _ v (
        guard-AllConsistent (leb m.max_sessions (length m.sessions)) m resource_limit _ v (
          guard-AllConsistent (is_known (lookup name m.names)) m session_exists _ v (
            create_with-AllConsistent m name (identity id randoms m.sessions) stored launched again
              v))))
apply-AllConsistent m (calls id (deletes stored)) v = delete-AllConsistent m id stored v
apply-AllConsistent m (calls id (restarts a b c)) v = change-AllConsistent m id (restarts a b c) v
apply-AllConsistent m (calls id (closes a b c d)) v = change-AllConsistent m id (closes a b c d) v
apply-AllConsistent m (calls id (finishes_closing a b)) v =
    change-AllConsistent m id (finishes_closing a b) v
apply-AllConsistent m (calls id (ends a b)) v = change-AllConsistent m id (ends a b) v
apply-AllConsistent m shuts_down v = v

run-AllConsistent : (m : Manager) (cs : List Call) → AllConsistent m → AllConsistent (run m cs)
run-AllConsistent m [] v = v
run-AllConsistent m (c ∷ cs) v = run-AllConsistent (apply m c) cs (apply-AllConsistent m c v)

-- After any calls of a new manager, a stream that writes to one of its sessions writes to the
-- process of that session, under its generation, and the session is running.
pub run_streams :
    (max_sessions : ℕ) (cs : List Call) (id : Bytes) (s : Managed) (g p : ℕ)
    → lookup id (run (new_manager max_sessions) cs).sessions ≡ some s
    → load_stream s g ≡ ok p
    → (is_running s.lifecycle.state ≡ true) × (s.process ≡ some p) × (g ≡ s.lifecycle.generation)
run_streams max_sessions cs id s g p there loads =
    let m = run (new_manager max_sessions) cs in
    let all : AllConsistent m = run-AllConsistent (new_manager max_sessions) cs tt in
    let v = Values-lookup IsConsistent id m.sessions all there in
    let published : IsLive (some (p, g)) s =
      subst (λ o. IsLive o s) (load_found s g p loads) v.published in
    published
