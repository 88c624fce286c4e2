-- ===== src/Protocol/Tests.antt =====
-- Runs of the protocol on concrete frames and offers.
use paperboat_helper.Base.{
  ◌≡◌, refl, true, false, not, ◌&&◌, List, [], ◌∷◌, ◌++◌, String, String_discrete, string_key, has,
  is_yes, Bytes, ok, some, arith, ◌≤◌, length, take, sym, Option,
}
use paperboat_helper.Protocol.Binary.{
  BinaryFrame, end_sequence, write_binary_frame, read_binary_frame, wire,
}
use paperboat_helper.Protocol.Binary.RoundTrip.{read-write}
use mathlib.Core.List.{append-nil}
use paperboat_helper.Protocol.Binary.Writing.{
  Writer, WriteError, IsWriter, Written, write_all, write_all_ends,
}
use paperboat_helper.Config.{byod}
use paperboat_helper.Protocol.Negotiation.{
  Negotiator, allowed_capabilities, negotiate, parse_version, atoi, numeral, digits, cut, has_dot,
  select, selects,
}
use paperboat_helper.Protocol.Negotiation.Selection.{negotiate-has}

abbrev greeting : BinaryFrame
greeting = record { channel = 1; start_sequence = 300; data_bytes = 104 ∷ 105 ∷ [] }

greeting_written : write_binary_frame greeting ≡ ok (wire greeting)
unfolding write_binary_frame end_sequence
greeting_written = refl

read-write_example : read_binary_frame (wire greeting ++ 1 ∷ 2 ∷ []) ≡ ok (greeting, 1 ∷ 2 ∷ [])
read-write_example = read-write greeting (wire greeting) (1 ∷ 2 ∷ []) greeting_written (omega arith)

abbrev helper : Negotiator
helper = record {
  profile = byod;
  available = "health.v1" ∷ "terminal.v1" ∷ "config.apply.v1" ∷ [];
  config_apply_proof = false;
}

abbrev offer : List String
offer = "terminal.v1" ∷ "config.apply.v1" ∷ "health.v1" ∷ []

-- "1.0".
abbrev version : Bytes
version = 49 ∷ 46 ∷ 48 ∷ []

welcomed : negotiate helper version version offer ≡ ok ("terminal.v1" ∷ "health.v1" ∷ [])
unfolding negotiate parse_version atoi numeral digits cut has_dot select selects String_discrete
welcomed = refl

abbrev welcome : List String
welcome = "terminal.v1" ∷ "health.v1" ∷ []

-- Without its proof, `config.apply.v1` is not selected.
negotiate-has_example :
    (allowed : List String) × (allowed_capabilities byod ≡ some allowed)
    × (has {K = String} "config.apply.v1" welcome ≡ (
        has {K = String} "config.apply.v1" offer
        && has {K = String} "config.apply.v1" allowed
        && has {K = String} "config.apply.v1" helper.available
        && not (is_yes (String_discrete "config.apply.v1" "config.apply.v1") && true && not false)))
    × (has {K = String} "terminal.v1" welcome ≡ true)
    × (has {K = String} "health.v1" welcome ≡ true)
negotiate-has_example =
    negotiate-has helper version version offer welcome "config.apply.v1" welcomed

-- A writer that takes two bytes at a time.
abbrev pairs : Writer Bytes
pairs s [] = (s, 0, false)
pairs s (x ∷ []) = (s ++ x ∷ [], 1, false)
pairs s (x ∷ y ∷ p) = (s ++ x ∷ y ∷ [], 2, false)

pairs_within : (s p : Bytes) → (pairs s p).1 ≤ length p
pairs_within s [] = omega arith
pairs_within s (x ∷ []) = omega arith
pairs_within s (x ∷ y ∷ p) = omega arith

pairs_takes : (s p : Bytes) → (pairs s p).0 ≡ s ++ take (pairs s p).1 p
pairs_takes s [] = sym (append-nil s)
pairs_takes s (x ∷ []) = refl
pairs_takes s (x ∷ y ∷ p) = refl

pairs-IsWriter : IsWriter pairs (λ s. s)
pairs-IsWriter = record { within = pairs_within; takes = pairs_takes }

write_all_ends_example :
    (r : Bytes × Option WriteError) × (write_all 3 pairs [] (1 ∷ 2 ∷ 3 ∷ []) ≡ some r)
    × Written (λ (s : Bytes). s) [] (1 ∷ 2 ∷ 3 ∷ []) r
write_all_ends_example =
    write_all_ends pairs (λ s. s) pairs-IsWriter 3 [] (1 ∷ 2 ∷ 3 ∷ []) (omega arith)
