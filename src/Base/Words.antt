-- ===== src/Base/Words.antt =====
-- Go's uint64: a value below 2 ^ 64, whose sum and difference wrap.
use Prim.Native.Nat.{ℕ, ◌+◌, ◌-◌, ◌%◌, ◌≤◌, ◌<◌}
use mathlib.Core.Path.{◌≡◌, refl, subst}
use mathlib.Core.List.{List, [], ◌∷◌}
use mathlib.Core.Bool.{Bool, true, false, ◌&&◌, ◌||◌}
use paperboat_helper.Base.Tests.{◌==◌, ltb}
use paperboat_helper.Base.Maps.{Key, decide_by}
use native.Mathlib.Omega.{arith}

-- 2 ^ 64.
abbrev pub u64_mod : ℕ
u64_mod = 18446744073709551616

-- math.MaxUint64.
abbrev pub max_u64 : ℕ
max_u64 = 18446744073709551615

unfoldable pub add64 : ℕ → ℕ → ℕ
add64 a b = (a + b) % u64_mod

unfoldable pub sub64 : ℕ → ℕ → ℕ
sub64 a b = (a + u64_mod - b) % u64_mod

pub add64_exact : (a b : ℕ) → a + b < u64_mod → add64 a b ≡ a + b
unfolding add64
add64_exact a b h = omega arith

pub sub64_exact : (a b : ℕ) → a < u64_mod → b ≤ a → sub64 a b ≡ a - b
unfolding sub64
sub64_exact a b h k = omega arith

pub add64-lt : (a b : ℕ) → add64 a b < u64_mod
unfolding add64
add64-lt a b = omega arith

pub sub64-lt : (a b : ℕ) → sub64 a b < u64_mod
unfolding sub64
sub64-lt a b = omega arith

-- A difference that wraps is made good by a sum that wraps.
pub add64-sub64 : (a b : ℕ) → a < u64_mod → b < u64_mod → add64 b (sub64 a b) ≡ a
unfolding add64 sub64
add64-sub64 a b h k = omega arith

-- Go's `int` and `Duration`, whose bounds do not matter where they are used.
pub data ℤ : Type 0 where
  pos negsuc : ℕ → ℤ

-- Go's strings are sequences of bytes.
abbrev pub Bytes : Type 0
Bytes = List ℕ

-- `==` on strings.
abbrev pub bytes_eq : Bytes → Bytes → Bool
bytes_eq [] [] = true
bytes_eq (x ∷ xs) (y ∷ ys) = x == y && bytes_eq xs ys
bytes_eq _ _ = false

pub bytes_eq_sound : (xs ys : Bytes) → bytes_eq xs ys ≡ true → xs ≡ ys
bytes_eq_sound [] [] h = refl
bytes_eq_sound [] (y ∷ ys) h = absurd (cc h)
bytes_eq_sound (x ∷ xs) [] h = absurd (cc h)
bytes_eq_sound (x ∷ xs) (y ∷ ys) h =
    let tail : xs ≡ ys = bytes_eq_sound xs ys (ground arith) in
    let head : x ≡ y = ground arith in cc (tail, head)

pub bytes_eq_refl : (xs : Bytes) → bytes_eq xs xs ≡ true
bytes_eq_refl [] = refl
bytes_eq_refl (x ∷ xs) = ground (arith, bytes_eq_refl xs)

pub bytes_eq_complete : (xs ys : Bytes) → bytes_eq xs ys ≡ false → ¬ (xs ≡ ys)
bytes_eq_complete xs ys h e = cc (subst (λ z. bytes_eq xs z ≡ true) e (bytes_eq_refl xs), h)

unfoldable pub Bytes_discrete : Discrete Bytes
Bytes_discrete xs ys = decide_by (bytes_eq xs ys) (bytes_eq_sound xs ys) (bytes_eq_complete xs ys)

instance abbrev pub bytes_key : Key Bytes
bytes_key = record { dec = Bytes_discrete }

-- `<` on strings.
unfoldable pub bytes_lt : Bytes → Bytes → Bool
bytes_lt [] [] = false
bytes_lt [] (y ∷ ys) = true
bytes_lt (x ∷ xs) [] = false
bytes_lt (x ∷ xs) (y ∷ ys) = ltb x y || x == y && bytes_lt xs ys
