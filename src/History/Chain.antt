-- ===== src/History/Chain.antt =====
-- Contiguous runs of events, and the bytes that they carry.
use paperboat_helper.Base.{
  ℕ, zero, suc, ◌+◌, ◌≤◌, ◌≡◌, refl, sym, ap, ◌∙◌, List, [], ◌∷◌, ◌++◌, length, drop, arith,
  length-append,
}
use mathlib.Core.List.{append_assoc}
use paperboat_helper.History.{Event, set}

-- Each event starts where the one before it ends, and is as long as its bytes.
abbrev pub Chain : ℕ → List Event → ℕ → Type 0
Chain from [] to = from ≡ to
Chain from (e ∷ es) to =
    (e.start_sequence ≡ from)
    × (e.end_sequence ≡ from + length e.bytes)
    × Chain e.end_sequence es to

abbrev pub total : List Event → ℕ
total [] = 0
total (e ∷ es) = length e.bytes + total es

abbrev pub bytes_of : List Event → List ℕ
bytes_of [] = []
bytes_of (e ∷ es) = e.bytes ++ bytes_of es

pub Chain-total : (a b : ℕ) (es : List Event) → Chain a es b → a + total es ≡ b
Chain-total a b [] c = omega arith
Chain-total a b (e ∷ es) c = omega (arith, Chain-total _ b es c.2)

pub Chain-append :
    (a b : ℕ) (es : List Event) (e : Event)
    → Chain a es b
    → e.start_sequence ≡ b
    → e.end_sequence ≡ b + length e.bytes
    → Chain a (es ++ e ∷ []) e.end_sequence
Chain-append a b [] e c s t = (s ∙ sym c, omega arith, refl)
Chain-append a b (x ∷ es) e c s t = (c.0, c.1, Chain-append _ b es e c.2 s t)

pub total-append : (xs ys : List Event) → total (xs ++ ys) ≡ total xs + total ys
total-append [] ys = omega arith
total-append (x ∷ xs) ys = omega (arith, total-append xs ys)

pub bytes_of-append : (xs ys : List Event) → bytes_of (xs ++ ys) ≡ bytes_of xs ++ bytes_of ys
bytes_of-append [] ys = refl
bytes_of-append (x ∷ xs) ys =
    rw (bytes_of-append xs ys) (sym (append_assoc x.bytes (bytes_of xs) (bytes_of ys)))

pub length-bytes_of : (es : List Event) → length (bytes_of es) ≡ total es
length-bytes_of [] = refl
length-bytes_of (e ∷ es) = omega (arith, length-append e.bytes (bytes_of es), length-bytes_of es)

-- Dropping and writing below the head.
pub drop-append_le {ℓ} :
    {A : Type ℓ} (n : ℕ) (xs ys : List A) → n ≤ length xs → drop n (xs ++ ys) ≡ drop n xs ++ ys
drop-append_le zero xs ys h = refl
drop-append_le (suc n) [] ys h = absurd (omega arith)
drop-append_le (suc n) (x ∷ xs) ys h = drop-append_le n xs ys (omega arith)

pub drop-suc-set :
    (n : ℕ) (es : List Event) (e : Event) → drop (suc n) (set es n e) ≡ drop (suc n) es
unfolding set
drop-suc-set n [] e = refl
drop-suc-set zero (x ∷ es) e = refl
drop-suc-set (suc n) (x ∷ es) e = drop-suc-set n es e

pub length-set : (n : ℕ) (es : List Event) (e : Event) → length (set es n e) ≡ length es
unfolding set
length-set n [] e = refl
length-set zero (x ∷ es) e = refl
length-set (suc n) (x ∷ es) e = ap suc (length-set n es e)

pub drop-suc_of_drop {ℓ} :
    {A : Type ℓ} (n : ℕ) (xs : List A) {x : A} {rest : List A}
    → drop n xs ≡ x ∷ rest
    → drop (suc n) xs ≡ rest
drop-suc_of_drop zero [] h = cc
drop-suc_of_drop zero (y ∷ xs) h = cc
drop-suc_of_drop (suc n) [] h = cc
drop-suc_of_drop (suc n) (y ∷ xs) h = drop-suc_of_drop n xs h

pub length_of_drop {ℓ} :
    {A : Type ℓ} (n : ℕ) (xs : List A) {x : A} {rest : List A}
    → drop n xs ≡ x ∷ rest
    → suc n ≤ length xs
length_of_drop zero [] h = cc
length_of_drop zero (y ∷ xs) h = omega arith
length_of_drop (suc n) [] h = cc
length_of_drop (suc n) (y ∷ xs) h = omega (arith, length_of_drop n xs h)

pub length_of_drop_nil {ℓ} :
    {A : Type ℓ} (n : ℕ) (xs : List A) → n ≤ length xs → drop n xs ≡ [] → n ≡ length xs
length_of_drop_nil zero [] h e = refl
length_of_drop_nil zero (y ∷ xs) h e = cc
length_of_drop_nil (suc n) [] h e = absurd (omega arith)
length_of_drop_nil (suc n) (y ∷ xs) h e = omega (arith, length_of_drop_nil n xs (omega arith) e)

pub drop_all {ℓ} : {A : Type ℓ} (xs : List A) → drop (length xs) xs ≡ []
drop_all [] = refl
drop_all (x ∷ xs) = drop_all xs

pub drop-append_length {ℓ} : {A : Type ℓ} (xs ys : List A) → drop (length xs) (xs ++ ys) ≡ ys
drop-append_length [] ys = refl
drop-append_length (x ∷ xs) ys = drop-append_length xs ys

pub drop_nil {ℓ} : {A : Type ℓ} (n : ℕ) → drop {A = A} n [] ≡ []
drop_nil zero = refl
drop_nil (suc n) = refl

pub drop-drop {ℓ} : {A : Type ℓ} (n m : ℕ) (xs : List A) → drop n (drop m xs) ≡ drop (m + n) xs
drop-drop n zero xs = rw (let e : zero + n ≡ n = omega arith in e)
drop-drop n (suc m) [] = rw (let e : suc m + n ≡ suc (m + n) = omega arith in e) (drop_nil n)
drop-drop n (suc m) (x ∷ xs) =
    rw (let e : suc m + n ≡ suc (m + n) = omega arith in e) (drop-drop n m xs)
