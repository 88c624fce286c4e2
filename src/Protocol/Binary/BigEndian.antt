-- ===== src/Protocol/Binary/BigEndian.antt =====
-- Numbers as bytes, the highest first.
use paperboat_helper.Base.{
  ℕ, zero, suc, ◌+◌, ◌*◌, ◌/◌, ◌%◌, ◌≡◌, ◌<◌, refl, ◌∙◌, [], ◌∷◌, ◌++◌, Bytes, length,
  length-append, arith,
}
use paperboat_helper.Protocol.Binary.{put_uint, get_uint}

-- 256 ^ k.
abbrev pub limit : ℕ → ℕ
limit zero = 1
limit (suc k) = limit k * 256

get_uint-append :
    (acc : ℕ) (xs : Bytes) (b : ℕ) → get_uint acc (xs ++ b ∷ []) ≡ get_uint acc xs * 256 + b
unfolding get_uint
get_uint-append acc [] b = refl
get_uint-append acc (x ∷ xs) b = get_uint-append (acc * 256 + x) xs b

pub length-put_uint : (k n : ℕ) → length (put_uint k n) ≡ k
unfolding put_uint
length-put_uint zero n = refl
length-put_uint (suc k) n =
    length-append (put_uint k (n / 256)) (n % 256 ∷ []) ∙ omega (arith, length-put_uint k (n / 256))

pub get_uint-put_uint : (k n : ℕ) → n < limit k → get_uint 0 (put_uint k n) ≡ n
unfolding put_uint get_uint
get_uint-put_uint zero n h = omega arith
get_uint-put_uint (suc k) n h =
    get_uint-append 0 (put_uint k (n / 256)) (n % 256)
    ∙ omega (arith, get_uint-put_uint k (n / 256) (omega arith))
