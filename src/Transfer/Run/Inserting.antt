-- ===== src/Transfer/Run/Inserting.antt =====
-- The entries of a new batch.
use paperboat_helper.Base.{
  ℕ, ◌≡◌, refl, sym, subst, inl, inr, true, false, not, none, some, List, [], ◌∷◌, ◌++◌, Bytes,
  bytes_eq, bytes_eq_sound, bytes_eq_refl, arith, Bool-cases, All, Option,
}
use mathlib.Core.List.{append_assoc, append-nil}
use paperboat_helper.Transfer.{Entry, find, each, cancel_row}
use paperboat_helper.Transfer.Service.{write, remove_files}
use paperboat_helper.Transfer.Service.Entries.{Unique, each-Unique, find-each}
use paperboat_helper.Transfer.Service.Contents.{IsSound}
use paperboat_helper.Transfer.Creation.{CreateRequest, File, new_entries, insertable, is_known}

find-append :
    (id : Bytes) (es : List Entry) (e : Entry)
    → find id es ≡ none
    → bytes_eq e.id id ≡ false
    → find id (es ++ e ∷ []) ≡ none
unfolding find
find-append id [] e h differ = rw differ
find-append id (x ∷ es) e h differ = elim (Bool-cases (bytes_eq x.id id)) [
  | inl here ↦ let no_way : some x ≡ none = rw here at h in absurd (cc no_way)
  | inr other ↦ rw other (find-append id es e (rw other at h) differ)
]

bytes_eq_flip : (xs ys : Bytes) → bytes_eq xs ys ≡ false → bytes_eq ys xs ≡ false
bytes_eq_flip xs ys h = elim (Bool-cases (bytes_eq ys xs)) [
  | inr differ ↦ differ
  | inl same ↦
      let eq : ys ≡ xs = bytes_eq_sound ys xs same in
      absurd (cc (subst (λ z. bytes_eq xs z ≡ false) eq h, bytes_eq_refl xs))
]

append-Unique :
    (es : List Entry) (e : Entry) → Unique es → find e.id es ≡ none → Unique (es ++ e ∷ [])
unfolding find
append-Unique [] e u h = (refl, tt)
append-Unique (x ∷ es) e u h = elim (Bool-cases (bytes_eq x.id e.id)) [
  | inl here ↦ let no_way : some x ≡ none = rw here at h in absurd (cc no_way)
  | inr other ↦ (
    find-append x.id es e u.0 (bytes_eq_flip x.id e.id other),
    append-Unique es e u.1 (rw other at h),
  )
]

unknown : (o : Option Entry) → not (is_known o) ≡ true → o ≡ none
unknown none h = refl
unknown (some x) h = absurd (cc h)

pub insertable-Unique :
    (es new : List Entry) → Unique es → insertable es new ≡ true → Unique (es ++ new)
unfolding insertable
insertable-Unique es [] u h = subst (λ l. Unique l) (sym (append-nil es)) u
insertable-Unique es (e ∷ new) u h =
    subst (λ l. Unique l) (append_assoc es (e ∷ []) new)
      (insertable-Unique (es ++ e ∷ []) new
        (append-Unique es e u (unknown (find e.id es) (ground arith))) (ground arith))

-- Changes that leave the identities alone.
find-mapped :
    (g f : Entry → Entry) (id : Bytes) (es new : List Entry)
    → ((e : Entry) → (g e).id ≡ e.id)
    → ((e : Entry) → (f e).id ≡ e.id)
    → find id (es ++ new) ≡ none
    → find id (each g es ++ each f new) ≡ none
unfolding find each
find-mapped g f id [] new kg kf h = find-each f id new kf h
find-mapped g f id (e ∷ es) new kg kf h = elim (Bool-cases (bytes_eq e.id id)) [
  | inl here ↦ let no_way : some e ≡ none = rw here at h in absurd (cc no_way)
  | inr other ↦ rw (kg e, other) (find-mapped g f id es new kg kf (rw other at h))
]

pub mapped-Unique :
    (g f : Entry → Entry) (es new : List Entry)
    → ((e : Entry) → (g e).id ≡ e.id)
    → ((e : Entry) → (f e).id ≡ e.id)
    → Unique (es ++ new)
    → Unique (each g es ++ each f new)
unfolding each
mapped-Unique g f [] new kg kf u = each-Unique f new kf u
mapped-Unique g f (e ∷ es) new kg kf u =
    (rw (kg e) (find-mapped g f e.id es new kg kf u.0), mapped-Unique g f es new kg kf u.1)

module _ (digest : Bytes → Bytes) where
  -- A new entry with its file.
  pub new_entries-IsSound :
      (r : CreateRequest) (expires_at : ℕ) (ids : List Bytes) (fs : List File)
      → All (IsSound digest) (each (write []) (new_entries r expires_at ids fs))
        × All
            (IsSound digest)
            (each (λ e. remove_files (cancel_row e)) (new_entries r expires_at ids fs))
  unfolding each new_entries
  new_entries-IsSound r expires_at [] fs = (tt, tt)
  new_entries-IsSound r expires_at (id ∷ ids) [] = (tt, tt)
  new_entries-IsSound r expires_at (id ∷ ids) (f ∷ fs) =
      let (made, gone) = new_entries-IsSound r expires_at ids fs in
      (
        (
          record {
            offset_le = omega arith;
            whole = λ h. cc h;
            failed_code = λ h. cc h;
            moved = inl refl;
            content_matches = λ c h. cc h;
          },
          made,
        ),
        (
          record {
            offset_le = omega arith;
            whole = λ h. cc h;
            failed_code = λ h. cc h;
            moved = inl refl;
            content_matches = λ c h. cc h;
          },
          gone,
        ),
      )
