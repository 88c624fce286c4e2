-- ===== src/Auth/Replay.antt =====
-- internal/auth/replay.go: the cache that lets every token be used once.
--
-- `Consume` reads its clock twice: before the lock and under it. The nil cache, which refuses, is
-- left out, and so is a negative bound, which refuses like 0.
use paperboat_helper.Base.{
  ℕ, ◌≡◌, ◌≤◌, ◌<◌, Bool, true, false, not, ◌||◌, Option, none, some, List, [], ◌∷◌, String,
  String_discrete, string_key, All, is_yes, length, ltb, leb, if◌then◌else◌, lookup, insert,
  lookup-insert, length-insert_new, arith,
}

pub record ReplayCache : Type 0 where
  pub entries : List (String × ℕ)
  pub max : ℕ

unfoldable pub new : ℕ → ReplayCache
new max = record { entries = []; max = max }

-- The loop that deletes what has expired.
unfoldable pub purge : ℕ → List (String × ℕ) → List (String × ℕ)
purge now [] = []
purge now ((jti, expiry) ∷ rest) =
    if ltb now expiry then (jti, expiry) ∷ purge now rest else purge now rest

abbrev pub is_known : Option ℕ → Bool
is_known none = false
is_known (some _) = true

unfoldable pub consume : ReplayCache → String → ℕ → ℕ → ℕ → ReplayCache × Bool
unfolding purge
consume c jti expires before now =
    if is_yes (String_discrete jti "") || not (ltb before expires) || ltb c.max 1
    then (c, false)
    else if is_known (lookup jti (purge now c.entries)) || leb c.max (length (purge now c.entries))
    then (record c { entries = purge now c.entries }, false)
    else (record c { entries = insert jti expires (purge now c.entries) }, true)

-- A call of `Consume`, with its two readings of the clock.
pub record Use : Type 0 where
  pub jti : String
  pub expires : ℕ
  pub before : ℕ
  pub now : ℕ

abbrev pub run : ReplayCache → List Use → ReplayCache
run c [] = c
run c (u ∷ us) = run (consume c u.jti u.expires u.before u.now).0 us

lookup-purge :
    (now : ℕ) (jti : String) (m : List (String × ℕ)) {e : ℕ}
    → now < e
    → lookup jti m ≡ some e
    → lookup jti (purge now m) ≡ some e
unfolding purge lookup
lookup-purge now jti [] {e} fresh found = absurd (ground arith)
lookup-purge now jti ((k, x) ∷ m) {e} fresh found = elim (string_key.dec k jti) [
  | yes p ↦ ground arith
  | no n ↦ ground (arith, lookup-purge now jti m fresh (ground arith))
]

length-purge : (now : ℕ) (m : List (String × ℕ)) → length (purge now m) ≤ length m
unfolding purge
length-purge now [] = omega arith
length-purge now ((k, x) ∷ m) = ground (arith, length-purge now m)

-- A token that is there and has not expired stays.
consume-keeps :
    (c : ReplayCache) (u : Use) (jti : String) {e : ℕ}
    → u.now < e
    → lookup jti c.entries ≡ some e
    → lookup jti (consume c u.jti u.expires u.before u.now).0.entries ≡ some e
unfolding consume
consume-keeps c u jti {e} fresh found =
    let kept = lookup-purge u.now jti c.entries fresh found in
    ground (arith, kept, lookup-insert u.jti jti u.expires (purge u.now c.entries))

run-keeps :
    (c : ReplayCache) (us : List Use) (jti : String) {e : ℕ}
    → All (λ (u : Use). u.now < e) us
    → lookup jti c.entries ≡ some e
    → lookup jti (run c us).entries ≡ some e
run-keeps c [] jti fresh found = found
run-keeps c (u ∷ us) jti fresh found =
    run-keeps (consume c u.jti u.expires u.before u.now).0 us jti fresh.1
      (consume-keeps c u jti fresh.0 found)

consumed :
    (c : ReplayCache) (u : Use)
    → (consume c u.jti u.expires u.before u.now).1 ≡ true
    → lookup u.jti (consume c u.jti u.expires u.before u.now).0.entries ≡ some u.expires
unfolding consume
consumed c u taken = ground (arith, lookup-insert u.jti u.jti u.expires (purge u.now c.entries))

refused :
    (c : ReplayCache) (jti : String) (expires before now : ℕ) {e : ℕ}
    → now < e
    → lookup jti c.entries ≡ some e
    → (consume c jti expires before now).1 ≡ false
unfolding consume
refused c jti expires before now fresh found =
    ground (arith, lookup-purge now jti c.entries fresh found)

-- Once a token is consumed, every other use of it is refused as long as the clock, in that use and
-- in those between, reads less than its expiry.
pub consume_once :
    (c : ReplayCache) (u : Use) (us : List Use) (expires before now : ℕ)
    → (consume c u.jti u.expires u.before u.now).1 ≡ true
    → All (λ (x : Use). x.now < u.expires) us
    → now < u.expires
    → (consume (run (consume c u.jti u.expires u.before u.now).0 us) u.jti expires before now).1
      ≡ false
consume_once c u us expires before now taken fresh early =
    let c' = (consume c u.jti u.expires u.before u.now).0 in
    refused (run c' us) u.jti expires before now early
      (run-keeps c' us u.jti fresh (consumed c u taken))

abbrev pub IsBounded : ReplayCache → Type 0
IsBounded c = length c.entries ≤ c.max

consume-IsBounded :
    (c : ReplayCache) (u : Use)
    → IsBounded c
    → IsBounded (consume c u.jti u.expires u.before u.now).0
unfolding consume
consume-IsBounded c u v =
    ground (
      arith,
      length-purge u.now c.entries,
      length-insert_new u.jti u.expires (purge u.now c.entries),
    )

-- Whatever tokens are consumed, the cache holds no more entries than its bound, if it does at the
-- start.
pub cache-IsBounded : (c : ReplayCache) (us : List Use) → IsBounded c → IsBounded (run c us)
cache-IsBounded c [] v = v
cache-IsBounded c (u ∷ us) v =
    cache-IsBounded (consume c u.jti u.expires u.before u.now).0 us (consume-IsBounded c u v)
