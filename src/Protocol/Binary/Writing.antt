-- ===== src/Protocol/Binary/Writing.antt =====
-- internal/protocol/binary.go, `writeAll`: it ends, and writes all or says that it did not.
--
-- A writer is a function of its state. What is asked of it is what `io.Writer` documents: it writes
-- a front part of what it is given, as long as it says, and all of it unless it reports an error or
-- nothing; the loop does not rely on the latter.
use paperboat_helper.Base.{
  ℕ, zero, suc, ◌+◌, ◌≤◌, ◌≡◌, refl, sym, ap, ◌∙◌, Bool, true, false, Option, none, some, [], ◌∷◌,
  ◌++◌, Bytes, length, take, drop, length-drop, arith,
}
use mathlib.Core.List.{append_assoc, append-nil}

pub data WriteError : Type 0 where
  short_write failed : WriteError

-- The state after a call of `Write`, the number of bytes that it reports, and whether it failed.
abbrev pub Writer : Type 0 → Type 0
Writer S = S → Bytes → S × ℕ × Bool

-- One round behind the call of `Write`; `again` is the rest of the loop.
unfoldable pub after_write :
    {S : Type 0}
    → (S → Bytes → Option (S × Option WriteError))
    → Bytes
    → S × ℕ × Bool
    → Option (S × Option WriteError)
after_write again p (s, n, true) = some (s, some failed)
after_write again p (s, zero, false) = some (s, some short_write)
after_write again p (s, suc n, false) = again s (drop (suc n) p)

-- The loop with fuel; `none` is that the fuel runs out.
unfoldable pub write_all : {S : Type 0} → ℕ → Writer S → S → Bytes → Option (S × Option WriteError)
unfolding after_write
write_all fuel w s [] = some (s, none)
write_all zero w s (x ∷ xs) = none
write_all (suc fuel) w s (x ∷ xs) = after_write (write_all fuel w) (x ∷ xs) (w s (x ∷ xs))

-- The contract of `io.Writer`: `written` is what a writer has taken so far.
pub record IsWriter {S : Type 0} (w : Writer S) (written : S → Bytes) : Type 0 where
  pub within : (s : S) (p : Bytes) → (w s p).1 ≤ length p
  pub takes : (s : S) (p : Bytes) → written (w s p).0 ≡ written s ++ take (w s p).1 p

-- What the loop has done: it wrote a front part, the whole of it if it reports no error.
abbrev pub Written : {S : Type 0} → (S → Bytes) → S → Bytes → S × Option WriteError → Type 0
Written written s p (s', none) = written s' ≡ written s ++ p
Written written s p (s', some e) = (k : ℕ) × (k ≤ length p) × (written s' ≡ written s ++ take k p)

take-drop :
    (n k : ℕ) (xs : Bytes) → n ≤ length xs → take n xs ++ take k (drop n xs) ≡ take (n + k) xs
take-drop zero k xs h = rw (let e : 0 + k ≡ k = omega arith in e)
take-drop (suc n) k [] h = absurd (omega arith)
take-drop (suc n) k (x ∷ xs) h =
    rw (let e : suc n + k ≡ suc (n + k) = omega arith in e)
      (ap (◌∷◌ x) (take-drop n k xs (omega arith)))

take_then_drop : (n : ℕ) (xs : Bytes) → take n xs ++ drop n xs ≡ xs
take_then_drop zero xs = refl
take_then_drop (suc n) [] = refl
take_then_drop (suc n) (x ∷ xs) = ap (◌∷◌ x) (take_then_drop n xs)

module _ {S : Type 0} (w : Writer S) (written : S → Bytes) (c : IsWriter w written) where
  -- What the rest of the loop writes follows what one call has written.
  join_Written :
      (s s1 : S) (n : ℕ) (p : Bytes) (r : S × Option WriteError)
      → n ≤ length p
      → written s1 ≡ written s ++ take n p
      → Written written s1 (drop n p) r
      → Written written s p r
  join_Written s s1 n p (s2, none) le first rest =
      rest
      ∙ ap (λ (xs : Bytes). xs ++ drop n p) first
      ∙ append_assoc (written s) (take n p) (drop n p)
      ∙ ap (λ (xs : Bytes). written s ++ xs) (take_then_drop n p)
  join_Written s s1 n p (s2, some e) le first (k, small, rest) = (
    n + k,
    omega (arith, length-drop n p),
    rest
        ∙ ap (λ (xs : Bytes). xs ++ take k (drop n p)) first
        ∙ append_assoc (written s) (take n p) (take k (drop n p))
        ∙ ap (λ (xs : Bytes). written s ++ xs) (take-drop n k p le),
  )

  -- The result of one round, by what the call of `Write` has answered.
  after_write_ends :
      (again : S → Bytes → Option (S × Option WriteError)) (s : S) (p : Bytes) (a : S × ℕ × Bool)
      → ((s1 : S) (n : ℕ)
          → suc n ≤ length p
          → (r : S × Option WriteError) × (again s1 (drop (suc n) p) ≡ some r)
            × Written written s1 (drop (suc n) p) r)
      → a.1 ≤ length p
      → written a.0 ≡ written s ++ take a.1 p
      → (r : S × Option WriteError) × (after_write again p a ≡ some r) × Written written s p r
  unfolding after_write
  after_write_ends again s p (s1, n, true) more le first = ((s1, some failed), refl, (n, le, first))
  after_write_ends again s p (s1, zero, false) more le first =
      ((s1, some short_write), refl, (0, omega arith, first))
  after_write_ends again s p (s1, suc n, false) more le first =
      let (r, done, rest) = more s1 n le in (r, done, join_Written s s1 (suc n) p r le first rest)

  -- With a writer that keeps the contract of `io.Writer`, as many rounds as there are bytes are
  -- enough for `writeAll`: it writes all of them if it reports no error, and else a front part of
  -- them.
  pub write_all_ends :
      (fuel : ℕ) (s : S) (p : Bytes)
      → length p ≤ fuel
      → (r : S × Option WriteError) × (write_all fuel w s p ≡ some r) × Written written s p r
  unfolding write_all
  write_all_ends fuel s [] le = ((s, none), refl, sym (append-nil (written s)))
  write_all_ends zero s (x ∷ xs) le = absurd (omega arith)
  write_all_ends (suc fuel) s (x ∷ xs) le =
      after_write_ends (write_all fuel w) s (x ∷ xs) (w s (x ∷ xs))
        (λ s1 n small. write_all_ends fuel s1 (drop n xs) (omega (arith, length-drop n xs)))
        (c.within s (x ∷ xs)) (c.takes s (x ∷ xs))
