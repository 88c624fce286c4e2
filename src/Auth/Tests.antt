-- ===== src/Auth/Tests.antt =====
-- Runs of the caches on concrete tokens.
use paperboat_helper.Base.{
  ◌≡◌, refl, true, false, List, [], ◌∷◌, String_discrete, string_key, All, lookup, arith,
}
use paperboat_helper.Auth.Replay.{
  ReplayCache, Use, purge, consume, run, consume_once, IsBounded, cache-IsBounded,
}
use paperboat_helper.Auth.Replay
use paperboat_helper.Auth.Revocations.{watches, replaces, cancels, Told, run-Told}
use paperboat_helper.Auth.Revocations

abbrev cache : ReplayCache
cache = record { entries = ("old", 5) ∷ []; max = 1 }

abbrev token : Use
token = record { jti = "t"; expires = 20; before = 7; now = 8 }

abbrev others : List Use
others = record { jti = "u"; expires = 30; before = 9; now = 9 } ∷ []

-- The old token has expired, which makes room.
taken : (consume cache token.jti token.expires token.before token.now).1 ≡ true
unfolding consume purge String_discrete lookup
taken = refl

consume_once_example :
    (consume (Replay.run (consume cache "t" 20 7 8).0 others) "t" 40 10 11).1 ≡ false
consume_once_example =
    consume_once cache token others 40 10 11 taken (omega arith, tt) (omega arith)

abbrev calls : List Revocations.Op
calls = watches "t" ∷ replaces ("s" ∷ "t" ∷ []) ∷ watches "s" ∷ cancels 0 ∷ []

run-Told_example :
    All
      (Told (Revocations.run Revocations.new calls).revoked)
      (Revocations.run Revocations.new calls).watchers
run-Told_example = run-Told calls
