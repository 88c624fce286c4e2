-- ===== src/Transfer/Service/Entries.antt =====
-- Entries by identity, and what holds of each.
use paperboat_helper.Base.{
  ◌≡◌, refl, subst, ap, sym, ◌∙◌, true, false, none, some, List, [], ◌∷◌, Bytes, bytes_eq,
  bytes_eq_sound, Bool-cases, All, inl, inr,
}
use paperboat_helper.Transfer.{Entry, find, each}

pub each-All :
    (P Q : Entry → Type 0) (f : Entry → Entry) (es : List Entry)
    → ((e : Entry) → Q e → P (f e))
    → All Q es
    → All P (each f es)
unfolding each
each-All P Q f [] h a = tt
each-All P Q f (e ∷ es) h a = (h e a.0, each-All P Q f es h a.1)

pub All-zip :
    (P Q : Entry → Type 0) (es : List Entry) → All P es → All Q es → All (λ e. P e × Q e) es
All-zip P Q [] a b = tt
All-zip P Q (e ∷ es) a b = ((a.0, b.0), All-zip P Q es a.1 b.1)

pub find-All :
    (P : Entry → Type 0) (id : Bytes) (es : List Entry) {e : Entry}
    → All P es
    → find id es ≡ some e
    → P e
unfolding find
find-All P id [] a found = absurd (cc found)
find-All P id (x ∷ es) {e} a found = elim (Bool-cases (bytes_eq x.id id)) [
  | inl here ↦
      let same : some x ≡ some e = rw here at found in let eq : x ≡ e = cc same in subst P eq a.0
  | inr further ↦ find-All P id es a.1 (rw further at found)
]

-- The primary key.
abbrev pub Unique : List Entry → Type 0
Unique [] = Unit {0}
Unique (e ∷ es) = (find e.id es ≡ none) × Unique es

find-none :
    (id : Bytes) (es : List Entry) → find id es ≡ none → All (λ x. bytes_eq x.id id ≡ false) es
unfolding find
find-none id [] h = tt
find-none id (x ∷ es) h = elim (Bool-cases (bytes_eq x.id id)) [
  | inl here ↦ let no_way : some x ≡ none = rw here at h in absurd (cc no_way)
  | inr other ↦ (other, find-none id es (rw other at h))
]

All-map : (P Q : Entry → Type 0) (es : List Entry) → ((e : Entry) → P e → Q e) → All P es → All Q es
All-map P Q [] f a = tt
All-map P Q (e ∷ es) f a = (f e a.0, All-map P Q es f a.1)

pub find-id : (id : Bytes) (es : List Entry) {e : Entry} → find id es ≡ some e → e.id ≡ id
unfolding find
find-id id [] h = absurd (cc h)
find-id id (x ∷ es) {e} h = elim (Bool-cases (bytes_eq x.id id)) [
  | inl here ↦
      let same : some x ≡ some e = rw here at h in
      let eq : x ≡ e = cc same in ap (λ (y : Entry). y.id) (sym eq) ∙ bytes_eq_sound x.id id here
  | inr other ↦ find-id id es (rw other at h)
]

-- An identity has one entry.
pub find_only :
    (id : Bytes) (es : List Entry) {e : Entry}
    → Unique es
    → find id es ≡ some e
    → All (λ x. bytes_eq x.id id ≡ true → x ≡ e) es
unfolding find
find_only id [] u h = tt
find_only id (y ∷ es) {e} u h = elim (Bool-cases (bytes_eq y.id id)) [
  | inl here ↦
      let same : some y ≡ some e = rw here at h in
      let eq : y ≡ e = cc same in
      let at_id : y.id ≡ id = bytes_eq_sound y.id id here in
      let others : All (λ x. bytes_eq x.id id ≡ false) es =
        find-none id es (subst (λ i. find i es ≡ none) at_id u.0) in
      (
        λ _. eq,
        All-map (λ x. bytes_eq x.id id ≡ false) (λ x. bytes_eq x.id id ≡ true → x ≡ e) es
            (λ x differ same_id. absurd (cc (differ, same_id))) others,
      )
  | inr other ↦ (λ same_id. absurd (cc (other, same_id)), find_only id es u.1 (rw other at h))
]

-- A change that leaves the identities alone.
pub find-each :
    (f : Entry → Entry) (id : Bytes) (es : List Entry)
    → ((e : Entry) → (f e).id ≡ e.id)
    → find id es ≡ none
    → find id (each f es) ≡ none
unfolding find each
find-each f id [] k h = refl
find-each f id (e ∷ es) k h = elim (Bool-cases (bytes_eq e.id id)) [
  | inl here ↦ let no_way : some e ≡ none = rw here at h in absurd (cc no_way)
  | inr other ↦ rw (k e, other) (find-each f id es k (rw other at h))
]

pub each-Unique :
    (f : Entry → Entry) (es : List Entry)
    → ((e : Entry) → (f e).id ≡ e.id)
    → Unique es
    → Unique (each f es)
unfolding each
each-Unique f [] k u = tt
each-Unique f (e ∷ es) k u = (rw (k e) (find-each f e.id es k u.0), each-Unique f es k u.1)
