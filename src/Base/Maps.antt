-- ===== src/Base/Maps.antt =====
-- Go's maps as association lists, over keys whose equality is decided by an instance.
use Prim.Native.Nat.{suc, ◌≤◌}
use Prim.Native.String.{String}
use mathlib.Core.Path.{◌≡◌, refl, subst}
use mathlib.Core.Logic.{ite, if_pos, if_neg}
use mathlib.Core.List.{List, [], ◌∷◌}
use mathlib.Core.Bool.{Bool, true, false, ◌||◌}
use paperboat_helper.Base.Tests.{is_yes}
use mathlib.Core.Option.{Option, none, some}
use native.Mathlib.Omega.{arith}
use text.Mathlib.Text.{◌==◌ as str_eq}
use text.Mathlib.TextEquality.{eq_iff}
use paperboat_helper.Base.Lists.{length}

pub record Key {ℓ} (K : Type ℓ) : Type ℓ where
  pub dec : Discrete K

-- A decision from a Boolean test.
abbrev pub decide_by : {P : Type 0} (b : Bool) → (b ≡ true → P) → (b ≡ false → ¬ P) → Dec P
decide_by true y n = yes (y refl)
decide_by false y n = no (n refl)

unfoldable pub String_discrete : Discrete String
String_discrete s t = decide_by (str_eq s t) (λ e. (eq_iff s t).0 e) (λ e p. cc ((eq_iff s t).1 p))

instance abbrev pub string_key : Key String
string_key = record { dec = String_discrete }

module _ {ℓ} {K : Type ℓ} ⦃key : Key K⦄ where
  -- The element stands in the list, which may stand for a set of Go.
  abbrev pub has : K → List K → Bool
  has k [] = false
  has k (j ∷ ks) = is_yes (key.dec j k) || has k ks

module _ {ℓ} {K V : Type ℓ} ⦃key : Key K⦄ where
  -- `v, ok := m[k]`.
  unfoldable pub lookup : K → List (K × V) → Option V
  lookup k [] = none
  lookup k ((j, v) ∷ m) = ite (key.dec j k) (some v) (lookup k m)

  -- `m[k] = v`.
  unfoldable pub insert : K → V → List (K × V) → List (K × V)
  insert k v [] = (k, v) ∷ []
  insert k v ((j, w) ∷ m) = ite (key.dec j k) ((k, v) ∷ m) ((j, w) ∷ insert k v m)

  -- `delete(m, k)`.
  unfoldable pub erase : K → List (K × V) → List (K × V)
  erase k [] = []
  erase k ((j, w) ∷ m) = ite (key.dec j k) (erase k m) ((j, w) ∷ erase k m)

  pub lookup-insert :
      (k j : K) (v : V) (m : List (K × V))
      → lookup j (insert k v m) ≡ ite (key.dec k j) (some v) (lookup j m)
  unfolding lookup insert
  lookup-insert k j v [] = refl
  lookup-insert k j v ((i, w) ∷ m) = ground (arith, lookup-insert k j v m)

  pub lookup-insert_self : (k : K) (v : V) (m : List (K × V)) → lookup k (insert k v m) ≡ some v
  lookup-insert_self k v m = ground (arith, lookup-insert k k v m)

  pub lookup-erase :
      (k j : K) (m : List (K × V)) → lookup j (erase k m) ≡ ite (key.dec k j) none (lookup j m)
  unfolding lookup erase
  lookup-erase k j [] = ground arith
  lookup-erase k j ((i, w) ∷ m) = ground (arith, lookup-erase k j m)

  -- Writing a new key makes the map longer by one, writing an old one does not.
  pub length-insert_new :
      (k : K) (v : V) (m : List (K × V))
      → lookup k m ≡ none
      → length (insert k v m) ≡ suc (length m)
  unfolding lookup insert
  length-insert_new k v [] h = refl
  length-insert_new k v ((j, w) ∷ m) h = ground (arith, length-insert_new k v m)

  pub length-insert_known :
      (k : K) (v : V) (m : List (K × V)) {w : V}
      → lookup k m ≡ some w
      → length (insert k v m) ≡ length m
  unfolding lookup insert
  length-insert_known k v [] h = absurd (ground arith)
  length-insert_known k v ((j, x) ∷ m) {w} h = elim (key.dec j k) [
    | yes e ↦ ground arith
    | no e ↦ ground (arith, length-insert_known k v m {w = w} (ground arith))
  ]

  pub length-erase-le : (k : K) (m : List (K × V)) → length (erase k m) ≤ length m
  unfolding erase
  length-erase-le k [] = omega arith
  length-erase-le k ((j, w) ∷ m) = ground (arith, length-erase-le k m)

-- Every value satisfies the predicate.
abbrev pub Values {ℓ κ} : {K V : Type ℓ} → (V → Type κ) → List (K × V) → Type κ
Values P [] = Unit
Values P ((_, v) ∷ m) = P v × Values P m

module _ {ℓ κ} {K V : Type ℓ} ⦃key : Key K⦄ (P : V → Type κ) where
  pub Values-lookup : (k : K) (m : List (K × V)) {v : V} → Values P m → lookup k m ≡ some v → P v
  unfolding lookup
  Values-lookup k [] a h = absurd (ground arith)
  Values-lookup k ((j, w) ∷ m) {v} a h = elim (key.dec j k) [
    | yes p ↦ let same : w ≡ v = ground arith in subst P same a.0
    | no p ↦ Values-lookup k m a.1 (ground arith)
  ]

  pub Values-insert :
      (k : K) (v : V) (m : List (K × V)) → P v → Values P m → Values P (insert k v m)
  unfolding insert
  Values-insert k v [] p a = (p, tt)
  Values-insert k v ((j, w) ∷ m) p a = elim (key.dec j k) [
    | yes e ↦ rw (if_pos _ e) (p, a.1)
    | no e ↦ rw (if_neg _ e) (a.0, Values-insert k v m p a.1)
  ]

  pub Values-erase : (k : K) (m : List (K × V)) → Values P m → Values P (erase k m)
  unfolding erase
  Values-erase k [] a = tt
  Values-erase k ((j, w) ∷ m) a = elim (key.dec j k) [
    | yes e ↦ rw (if_pos _ e) (Values-erase k m a.1)
    | no e ↦ rw (if_neg _ e) (a.0, Values-erase k m a.1)
  ]

pub Values-map {ℓ κ μ} :
    {K V : Type ℓ} (P : V → Type κ) (Q : V → Type μ)
    → ((v : V) → P v → Q v)
    → (m : List (K × V)) → Values P m
    → Values Q m
Values-map P Q f [] a = tt
Values-map P Q f ((k, v) ∷ m) a = (f v a.0, Values-map P Q f m a.1)

module _ {ℓ} {K V : Type ℓ} ⦃key : Key K⦄ where
  -- No key stands twice.
  abbrev pub Distinct : List (K × V) → Type ℓ
  Distinct [] = Unit
  Distinct ((k, v) ∷ m) = (lookup k m ≡ none) × Distinct m

  pub insert-Distinct : (k : K) (v : V) (m : List (K × V)) → Distinct m → Distinct (insert k v m)
  unfolding insert
  insert-Distinct k v [] d = (unfold lookup in refl, tt)
  insert-Distinct k v ((j, w) ∷ m) d = elim (key.dec j k) [
    | yes e ↦ rw (if_pos _ e) (subst (λ i. lookup i m ≡ none) e d.0, d.1)
    | no e ↦ rw (if_neg _ e) (
      (let gone : lookup j (insert k v m) ≡ none = ground (arith, lookup-insert k j v m, d.0) in
          gone),
      insert-Distinct k v m d.1,
    )
  ]

  pub erase-Distinct : (k : K) (m : List (K × V)) → Distinct m → Distinct (erase k m)
  unfolding erase
  erase-Distinct k [] d = tt
  erase-Distinct k ((j, w) ∷ m) d = elim (key.dec j k) [
    | yes e ↦ rw (if_pos _ e) (erase-Distinct k m d.1)
    | no e ↦ rw (if_neg _ e) (
      (let gone : lookup j (erase k m) ≡ none = ground (arith, lookup-erase k j m, d.0) in gone),
      erase-Distinct k m d.1,
    )
  ]
