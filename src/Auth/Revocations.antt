-- ===== src/Auth/Revocations.antt =====
-- internal/auth/revocations.go: the tokens that the server has revoked, and those who watch them.
--
-- A watcher is known by the number of its `Watch`. `flag` and `signal` are its atomic flag and
-- whether its channel is closed; both are read by the one who watches, with no lock. A watcher that
-- is cancelled leaves `watchers`, but its owner may still read it, so that it is kept here with
-- `watching` false. The nil cache, which refuses, is left out.
use paperboat_helper.Base.{
  has, ℕ, zero, suc, ◌≡◌, refl, ◌⊎◌, inl, inr, Bool, true, false, not, ◌&&◌, ◌||◌, Bool-cases, List,
  [], ◌∷◌, String, String_discrete, string_key, All, is_yes, length, ltb, if◌then◌else◌, Result, ok,
  err, arith, ◌++◌, subst, sym,
}

pub data Error : Type 0 where
  revocations_invalid : Error

abbrev pub max_revoked : ℕ
max_revoked = 10000

pub record Watcher : Type 0 where
  pub jti : String
  pub flag : Bool
  pub signal : Bool
  pub watching : Bool

pub record RevocationCache : Type 0 where
  pub revoked : List String
  pub watchers : List Watcher

unfoldable pub new : RevocationCache
new = record { revoked = []; watchers = [] }

unfoldable pub is_revoked : RevocationCache → String → Bool
is_revoked c jti = not (is_yes (String_discrete jti "")) && has jti c.revoked

unfoldable pub watch : RevocationCache → String → RevocationCache × Result Error ℕ
watch c jti = if is_yes (String_discrete jti "") then (c, err revocations_invalid) else (
  record c {
    watchers =
        c.watchers
        ++ record {
          jti = jti;
          flag = has jti c.revoked;
          signal = has jti c.revoked;
          watching = true;
        }
          ∷ [];
  },
  ok (length c.watchers),
)

-- The function that `Watch` returns; calling it again does nothing.
unfoldable pub cancel_at : ℕ → List Watcher → List Watcher
cancel_at n [] = []
cancel_at zero (w ∷ ws) = record w { watching = false } ∷ ws
cancel_at (suc n) (w ∷ ws) = w ∷ cancel_at n ws

unfoldable pub cancel : RevocationCache → ℕ → RevocationCache
unfolding cancel_at
cancel c n = record c { watchers = cancel_at n c.watchers }

-- The loops of `Replace` over the watchers of the tokens.
unfoldable pub notify : List String → List Watcher → List Watcher
notify next [] = []
notify next (w ∷ ws) =
    (if w.watching && has w.jti next then record w { flag = true; signal = true } else w)
    ∷ notify next ws

unfoldable pub replace : RevocationCache → List String → RevocationCache × Result Error (Unit {0})
unfolding notify
replace c jtis =
    if ltb max_revoked (length jtis) || has "" jtis
    then (c, err revocations_invalid)
    else (record { revoked = jtis; watchers = notify jtis c.watchers }, ok tt)

pub data Op : Type 0 where
  watches : String → Op
  cancels : ℕ → Op
  replaces : List String → Op

abbrev pub step : RevocationCache → Op → RevocationCache
step c (watches jti) = (watch c jti).0
step c (cancels n) = cancel c n
step c (replaces jtis) = (replace c jtis).0

abbrev pub run : RevocationCache → List Op → RevocationCache
run c [] = c
run c (op ∷ ops) = run (step c op) ops

-- A watcher of a revoked token has been told, on both ways.
pub record Told (revoked : List String) (w : Watcher) : Type 0 where
  pub told : w.watching ≡ true → has w.jti revoked ≡ true → w.flag ≡ true
  pub both : w.signal ≡ w.flag

appended-Told :
    (revoked : List String) (ws : List Watcher) (w : Watcher)
    → All (Told revoked) ws
    → Told revoked w
    → All (Told revoked) (ws ++ w ∷ [])
appended-Told revoked [] w a t = (t, tt)
appended-Told revoked (x ∷ ws) w a t = (a.0, appended-Told revoked ws w a.1 t)

cancel_at-Told :
    (revoked : List String) (n : ℕ) (ws : List Watcher)
    → All (Told revoked) ws
    → All (Told revoked) (cancel_at n ws)
unfolding cancel_at
cancel_at-Told revoked n [] a = tt
cancel_at-Told revoked zero (w ∷ ws) a =
    (record { told = λ watching. cc watching; both = a.0.both }, a.1)
cancel_at-Told revoked (suc n) (w ∷ ws) a = (a.0, cancel_at-Told revoked n ws a.1)

notified-Told :
    (revoked next : List String) (w : Watcher)
    → Told revoked w
    → Told next
        (if w.watching && has w.jti next then record w { flag = true; signal = true } else w)
notified-Told revoked next w t = elim (Bool-cases (w.watching && has w.jti next)) [
  | inl concerned ↦ rw concerned (record { told = λ _ _. refl; both = refl })
  | inr other ↦ rw other (record { told = λ watching known. absurd (ground arith); both = t.both })
]

-- Whatever was revoked before, a new list tells everyone whom it concerns.
notify-Told :
    (revoked next : List String) (ws : List Watcher)
    → All (Told revoked) ws
    → All (Told next) (notify next ws)
unfolding notify
notify-Told revoked next [] a = tt
notify-Told revoked next (w ∷ ws) a =
    (notified-Told revoked next w a.0, notify-Told revoked next ws a.1)

-- Every watcher is told.
abbrev Informs : RevocationCache → Type 0
Informs c = All (Told c.revoked) c.watchers

moved_to : (c c' : RevocationCache) → c ≡ c' → Informs c' → Informs c
moved_to c c' e a = subst (λ x. Informs x) (sym e) a

watch-Told : (c : RevocationCache) (jti : String) → Informs c → Informs (watch c jti).0
watch-Told c jti a =
    let w : Watcher = record {
      jti = jti;
      flag = has jti c.revoked;
      signal = has jti c.revoked;
      watching = true;
    } in
    let cases : ((watch c jti).0 ≡ c)
        ⊎ ((watch c jti).0 ≡ record c { watchers = c.watchers ++ w ∷ [] }) =
      unfold watch in ground arith in
    elim cases [
      | inl e ↦ moved_to _ c e a
      | inr e ↦
          moved_to _ (record c { watchers = c.watchers ++ w ∷ [] }) e
            (appended-Told c.revoked c.watchers w a
              (record { told = λ _ known. known; both = refl }))
    ]

replace-Told : (c : RevocationCache) (jtis : List String) → Informs c → Informs (replace c jtis).0
replace-Told c jtis a =
    let next : RevocationCache = record { revoked = jtis; watchers = notify jtis c.watchers } in
    let cases : ((replace c jtis).0 ≡ c) ⊎ ((replace c jtis).0 ≡ next) =
      unfold replace in ground arith in
    elim cases [
      | inl e ↦ moved_to _ c e a
      | inr e ↦ moved_to _ next e (notify-Told c.revoked jtis c.watchers a)
    ]

step-Told : (c : RevocationCache) (op : Op) → Informs c → Informs (step c op)
unfolding cancel
step-Told c (watches jti) a = watch-Told c jti a
step-Told c (cancels n) a = cancel_at-Told c.revoked n c.watchers a
step-Told c (replaces jtis) a = replace-Told c jtis a

run-Informs :
    (c : RevocationCache) (ops : List Op)
    → All (Told c.revoked) c.watchers
    → All (Told (run c ops).revoked) (run c ops).watchers
run-Informs c [] a = a
run-Informs c (op ∷ ops) a = run-Informs (step c op) ops (step-Told c op a)

-- After any calls of a new cache, every watcher that is not cancelled and whose token is revoked
-- has its flag set, and the channel of each watcher is closed exactly if its flag is set.
pub run-Told : (ops : List Op) → All (Told (run new ops).revoked) (run new ops).watchers
unfolding new
run-Told ops = run-Informs new ops tt
