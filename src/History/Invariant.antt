-- ===== src/History/Invariant.antt =====
-- The invariant of the history, and that every method keeps it.
use paperboat_helper.Base.{
  ℕ, ◌+◌, ◌-◌, ◌≤◌, ◌<◌, ◌≡◌, refl, ◌∙◌, inl, inr, false, List, [], ◌∷◌, String, length, arith, ltb,
  ◌==◌, Bool-cases, u64_mod, add64, add64_exact, All, ok, insert, string_key, max_u64,
}
use paperboat_helper.History.{
  Event, History, live, output_event, push, new, append, set_limit, clear, acknowledge, bad_cursor,
  compact,
}
use paperboat_helper.History.Chain.{Chain-append, total-append, drop-append_le, Chain-total}
use paperboat_helper.History.Compact.{Linked, compact_lem, compact_keeps, compact_fits}
use paperboat_helper.Base.{length-append}

-- The live events are one run from `earliest` to `latest`, counted by `bytes`, within the limit; no
-- cursor that a client has acknowledged is past the end.
pub record IsValid (h : History) : Type 0 where
  pub linked : Linked h
  pub fits : h.bytes ≤ h.max_bytes
  pub limited : 0 < h.max_bytes
  pub acks_le : All (λ (a : String × ℕ). a.1 ≤ h.latest) h.acks

All-mono :
    (m n : ℕ) (acks : List (String × ℕ))
    → m ≤ n
    → All (λ (a : String × ℕ). a.1 ≤ m) acks
    → All (λ (a : String × ℕ). a.1 ≤ n) acks
All-mono m n [] h k = tt
All-mono m n (a ∷ acks) h k = (omega arith, All-mono m n acks h k.1)

All-insert :
    (n v : ℕ) (k : String) (acks : List (String × ℕ))
    → v ≤ n
    → All (λ (a : String × ℕ). a.1 ≤ n) acks
    → All (λ (a : String × ℕ). a.1 ≤ n) (insert k v acks)
unfolding insert
All-insert n v k [] h a = (h, tt)
All-insert n v k (x ∷ acks) h a = ground (arith, All-insert n v k acks h a.1)

pub compact-IsValid :
    (h : History)
    → Linked h
    → 0 < h.max_bytes
    → All (λ (a : String × ℕ). a.1 ≤ h.latest) h.acks
    → IsValid (compact h)
compact-IsValid h k pos acks =
    let keeps = compact_keeps h in
    record {
      linked = (compact_lem h k).0;
      fits = compact_fits h k;
      limited = omega (arith, keeps.0);
      acks_le = rw (keeps.2, keeps.1) acks;
    }

pub new-IsValid : (max_bytes : ℕ) {h : History} → new max_bytes ≡ ok h → IsValid h
unfolding new
new-IsValid max_bytes {h} e = ground arith

-- An event of the right bounds may be put behind the live ones.
pub appended-Linked :
    (h : History) (e : Event)
    → Linked h
    → e.start_sequence ≡ h.latest
    → e.end_sequence ≡ h.latest + length e.bytes
    → e.end_sequence < u64_mod
    → Linked (push h e)
appended-Linked h e k s t lt =
    let appended = drop-append_le h.head h.events (e ∷ []) k.head_le in
    let sum = Chain-total h.earliest h.latest (live h) k.chain in
    record {
      head_le = omega (arith, length-append h.events (e ∷ []), k.head_le);
      chain = rw appended (Chain-append h.earliest h.latest (live h) e k.chain s t);
      counted = rw appended (
          add64_exact h.bytes (length e.bytes) (omega (arith, k.counted, sum))
          ∙ omega (arith, k.counted, total-append (live h) (e ∷ [])));
      latest_lt = lt;
    }

-- So may a chunk of output that does not exhaust the sequence.
pub output-Linked :
    (h : History) (channel : ℕ) (bytes : List ℕ)
    → Linked h
    → ltb (max_u64 - h.latest) (length bytes) ≡ false
    → Linked (push h (output_event h channel bytes))
output-Linked h channel bytes k room =
    let small : h.latest + length bytes < u64_mod = ground (arith, k.latest_lt) in
    let exact = add64_exact h.latest (length bytes) small in
    appended-Linked h (output_event h channel bytes) k refl exact (omega (arith, exact))

-- `Append` keeps a history valid, whether it takes the chunk or refuses it.
pub append-IsValid :
    (h : History) (channel : ℕ) (bytes : List ℕ) → IsValid h → IsValid (append h channel bytes).0
unfolding append
append-IsValid h channel bytes v = elim (Bool-cases (length bytes == 0)) [
  | inl empty ↦ rw empty v
  | inr some_bytes ↦ elim (Bool-cases (ltb (max_u64 - h.latest) (length bytes))) [
    | inl full ↦ rw (some_bytes, full) v
    | inr room ↦
        rw (some_bytes, room)
          let small : h.latest + length bytes < u64_mod = ground (arith, v.linked.latest_lt) in
            let exact = add64_exact h.latest (length bytes) small in
            compact-IsValid (push h (output_event h channel bytes))
              (output-Linked h channel bytes v.linked room) v.limited
              (All-mono h.latest (add64 h.latest (length bytes)) h.acks (omega (arith, exact))
                v.acks_le)
  ]
]

pub set_limit-IsValid :
    (h : History) (max_bytes : ℕ) → IsValid h → IsValid (set_limit h max_bytes).0
unfolding set_limit
set_limit-IsValid h max_bytes v = elim (Bool-cases (max_bytes == 0)) [
  | inl zero_limit ↦ rw zero_limit v
  | inr pos ↦ rw pos (
      compact-IsValid (record h { max_bytes = max_bytes })
        (record {
          head_le = v.linked.head_le;
          chain = v.linked.chain;
          counted = v.linked.counted;
          latest_lt = v.linked.latest_lt;
        })
        (ground arith) v.acks_le)
]

pub clear-IsValid : (h : History) → IsValid h → IsValid (clear h).0
unfolding clear
clear-IsValid h v = record {
  linked = record {
    head_le = omega arith;
    chain = refl;
    counted = refl;
    latest_lt = v.linked.latest_lt;
  };
  fits = omega arith;
  limited = v.limited;
  acks_le = v.acks_le;
}

pub acknowledge-IsValid :
    (h : History) (attachment_id : String) (next : ℕ)
    → IsValid h
    → IsValid (acknowledge h attachment_id next).0
unfolding acknowledge
acknowledge-IsValid h attachment_id next v = elim (Bool-cases (bad_cursor h attachment_id next)) [
  | inl refused ↦ rw refused v
  | inr taken ↦ rw taken (record {
    linked = record {
      head_le = v.linked.head_le;
      chain = v.linked.chain;
      counted = v.linked.counted;
      latest_lt = v.linked.latest_lt;
    };
    fits = v.fits;
    limited = v.limited;
    acks_le = All-insert h.latest next attachment_id h.acks (ground arith) v.acks_le;
  })
]
