-- ===== src/Session/Manager/Run.antt =====
-- A manager over any history of calls.
use paperboat_helper.Base.{
  ℕ, if◌then◌else◌, ◌≤◌, ◌<◌, ◌≡◌, refl, ◌∙◌, Bool, true, false, not, Option, none, some, List, [],
  ◌∷◌, Bytes, bytes_key, length, arith, leb, Result, ok, err, lookup, inl, inr, Option-cases,
}
use paperboat_helper.Session.Process.{Managed}
use paperboat_helper.Session.Process as Process
use paperboat_helper.Session.Process.Consistency.{
  Op, restarts, closes, finishes_closing, ends, deletes, step,
}
use paperboat_helper.Session.Process.Naming.{delete-name, step-name}
use paperboat_helper.Session.Manager.{
  Manager, Error, invalid_session, manager_stopped, resource_limit, session_exists, create,
  create_as, create_with, identity, is_known, delete, forget, change, call, shutdown,
  valid_session_name,
}
use paperboat_helper.Session.Manager.Names.{
  Registered, create_as-Registered, erase-Registered, replace-Registered, identity-new, unknown,
}

abbrev pub new_manager : ℕ → Manager
new_manager max_sessions = record {
  max_sessions = max_sessions;
  stopping = false;
  sessions = [];
  names = [];
}

pub data Call : Type 0 where
  creates : Bytes → Bytes → List (Option Bytes) → Bool → Option ℕ → Bool → Call
  calls : Bytes → Op → Call
  shuts_down : Call

abbrev pub apply : Manager → Call → Manager
apply m (creates id name randoms stored launched again) =
    (create m id name randoms stored launched again).0
apply m (calls id op) = call m id op
apply m shuts_down = shutdown m

abbrev pub run : Manager → List Call → Manager
run m [] = m
run m (c ∷ cs) = run (apply m c) cs

new_manager-Registered : (max_sessions : ℕ) → Registered (new_manager max_sessions)
unfolding lookup
new_manager-Registered n = record {
  named = λ k id found. absurd (cc found);
  known = λ id s found. absurd (cc found);
  bounded = omega arith;
}

create_with-Registered :
    (m : Manager) (name : Bytes) (id : Result Error Bytes) (stored : Bool) (launched : Option ℕ)
    (again : Bool)
    → ((i : Bytes) → id ≡ ok i → lookup i m.sessions ≡ none)
    → lookup name m.names ≡ none
    → length m.sessions < m.max_sessions
    → Registered m
    → Registered (create_with m name id stored launched again).0
unfolding create_with
create_with-Registered m name (err e) stored launched again i n room v = v
create_with-Registered m name (ok id) stored launched again i n room v =
    create_as-Registered m id name stored launched again (i id refl) n room v

-- A guard, and what follows it.
guard-Registered :
    (refused : Bool) (m : Manager) (e : Error) (rest : Manager × Result Error (Unit {0}))
    → Registered m
    → (refused ≡ false → Registered rest.0)
    → Registered (if refused then (m, err e) else rest).0
guard-Registered true m e rest v next = v
guard-Registered false m e rest v next = next refl

create-Registered :
    (m : Manager) (id name : Bytes) (randoms : List (Option Bytes)) (stored : Bool)
    (launched : Option ℕ) (again : Bool)
    → Registered m
    → Registered (create m id name randoms stored launched again).0
unfolding create
create-Registered m id name randoms stored launched again v =
    guard-Registered (not (valid_session_name name)) m invalid_session _ v (λ good.
      guard-Registered m.stopping m manager_stopped _ v (λ on.
        guard-Registered (leb m.max_sessions (length m.sessions)) m resource_limit _ v (λ room.
          guard-Registered (is_known (lookup name m.names)) m session_exists _ v (λ free.
            create_with-Registered m name (identity id randoms m.sessions) stored launched again
              (λ i chosen. identity-new id randoms m.sessions chosen)
              (unknown (lookup name m.names) free) (ground arith) v))))

forget-Registered :
    (m : Manager) (id : Bytes) (s : Managed) (p : Managed × Result Process.Error (Unit {0}))
    → lookup id m.sessions ≡ some s
    → p.0.name ≡ s.name
    → Registered m
    → Registered (forget m id p).0
unfolding forget
forget-Registered m id s (s', err e) there same v = v
forget-Registered m id s (s', ok u) there same v = rw same (erase-Registered m id s there v)

delete-Registered :
    (m : Manager) (id : Bytes) (stored : Bool) → Registered m → Registered (delete m id stored).0
unfolding delete
delete-Registered m id stored v = elim (Option-cases (lookup id m.sessions)) [
  | inl missing ↦ rw (missing, delete) v
  | inr (s, there) ↦
      rw (there, delete)
        (forget-Registered m id s (Process.delete s stored) there (delete-name s stored) v)
]

change-Registered :
    (m : Manager) (id : Bytes) (op : Op) → Registered m → Registered (change m id op)
unfolding change
change-Registered m id op v = elim (Option-cases (lookup id m.sessions)) [
  | inl missing ↦ rw (missing, change) v
  | inr (s, there) ↦
      rw (there, change) (replace-Registered m id s (step s op) there (step-name s op) v)
]

apply-Registered : (m : Manager) (c : Call) → Registered m → Registered (apply m c)
unfolding call shutdown
apply-Registered m (creates id name randoms stored launched again) v =
    create-Registered m id name randoms stored launched again v
apply-Registered m (calls id (deletes stored)) v = delete-Registered m id stored v
apply-Registered m (calls id (restarts a b c)) v = change-Registered m id (restarts a b c) v
apply-Registered m (calls id (closes a b c d)) v = change-Registered m id (closes a b c d) v
apply-Registered m (calls id (finishes_closing a b)) v =
    change-Registered m id (finishes_closing a b) v
apply-Registered m (calls id (ends a b)) v = change-Registered m id (ends a b) v
apply-Registered m shuts_down v = record { named = v.named; known = v.known; bounded = v.bounded }

pub run-Registered : (m : Manager) (cs : List Call) → Registered m → Registered (run m cs)
run-Registered m [] v = v
run-Registered m (c ∷ cs) v = run-Registered (apply m c) cs (apply-Registered m c v)

-- The limit stays.
create_with-max :
    (m : Manager) (name : Bytes) (id : Result Error Bytes) (stored : Bool) (launched : Option ℕ)
    (again : Bool)
    → (create_with m name id stored launched again).0.max_sessions ≡ m.max_sessions
unfolding create_with create_as
create_with-max m name (err e) stored launched again = refl
create_with-max m name (ok id) stored none again = refl
create_with-max m name (ok id) stored (some p) again = ground arith

guard-max :
    (refused : Bool) (m : Manager) (e : Error) (rest : Manager × Result Error (Unit {0}))
    → rest.0.max_sessions ≡ m.max_sessions
    → (if refused then (m, err e) else rest).0.max_sessions ≡ m.max_sessions
guard-max true m e rest h = refl
guard-max false m e rest h = h

delete-max :
    (m : Manager) (id : Bytes) (stored : Bool)
    → (delete m id stored).0.max_sessions ≡ m.max_sessions
unfolding delete forget
delete-max m id stored = ground arith

change-max : (m : Manager) (id : Bytes) (op : Op) → (change m id op).max_sessions ≡ m.max_sessions
unfolding change
change-max m id op = ground arith

apply-max : (m : Manager) (c : Call) → (apply m c).max_sessions ≡ m.max_sessions
unfolding call shutdown create
apply-max m (creates id name randoms stored launched again) =
    guard-max (not (valid_session_name name)) m invalid_session _ (
      guard-max m.stopping m manager_stopped _ (
        guard-max (leb m.max_sessions (length m.sessions)) m resource_limit _ (
          guard-max (is_known (lookup name m.names)) m session_exists _
            (create_with-max m name (identity id randoms m.sessions) stored launched again))))
apply-max m (calls id (deletes stored)) = delete-max m id stored
apply-max m (calls id (restarts a b c)) = change-max m id (restarts a b c)
apply-max m (calls id (closes a b c d)) = change-max m id (closes a b c d)
apply-max m (calls id (finishes_closing a b)) = change-max m id (finishes_closing a b)
apply-max m (calls id (ends a b)) = change-max m id (ends a b)
apply-max m shuts_down = refl

run-max : (m : Manager) (cs : List Call) → (run m cs).max_sessions ≡ m.max_sessions
run-max m [] = refl
run-max m (c ∷ cs) = run-max (apply m c) cs ∙ apply-max m c

-- After any calls of a new manager, it has at most as many sessions as its limit, two sessions of
-- one name are one, and a name that is taken leads to the session that has it.
pub run_one_name :
    (max_sessions : ℕ) (cs : List Call)
    → let m = run (new_manager max_sessions) cs in
      (length m.sessions ≤ max_sessions)
      × ((i j : Bytes) (s t : Managed)
          → lookup i m.sessions ≡ some s
          → lookup j m.sessions ≡ some t
          → s.name ≡ t.name
          → i ≡ j)
      × ((k i : Bytes)
          → lookup k m.names ≡ some i
          → (s : Managed) × (lookup i m.sessions ≡ some s) × (s.name ≡ k))
run_one_name max_sessions cs =
    let v = run-Registered (new_manager max_sessions) cs (new_manager-Registered max_sessions) in
    (
      omega (arith, v.bounded, run-max (new_manager max_sessions) cs),
      λ i j s t si tj same. cc (same, v.known i s si, v.known j t tj),
      v.named,
    )
