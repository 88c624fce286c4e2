-- ===== src/History/Restoring.antt =====
-- `Restore` accepts exactly the runs of events that a history can hold, and rebuilds the history.
use paperboat_helper.Base.{
  ℕ, ◌+◌, ◌%◌, ◌≤◌, ◌<◌, ◌≡◌, refl, sym, subst, ap, ◌∙◌, List, [], ◌∷◌, ◌++◌, length, arith,
  u64_mod, sub64, sub64_exact, All, ok,
}
use mathlib.Core.List.{append-nil, append_assoc}
use paperboat_helper.History.{Event, History, live, push, restore, restore_loop}
use paperboat_helper.History.Chain.{Chain, total, Chain-total, drop-append_le}
use paperboat_helper.History.Compact.{Linked}
use paperboat_helper.History.Invariant.{IsValid, appended-Linked}

-- The events pushed one by one.
push_all : List Event → History → History
push_all [] h = h
push_all (e ∷ es) h = push_all es (push h e)

push_all_lem :
    (es : List Event) (b : ℕ) (h : History)
    → Linked h
    → Chain h.latest es b
    → b < u64_mod
    → Linked (push_all es h) × (live (push_all es h) ≡ live h ++ es) × ((push_all es h).latest ≡ b)
unfolding push_all
push_all_lem [] b h k c lt = (k, sym (append-nil (live h)), c)
push_all_lem (e ∷ es) b h k c lt =
    let sum = Chain-total e.end_sequence b es c.2 in
    let pushed = appended-Linked h e k c.0 c.1 (omega (arith, sum)) in
    let (linked, kept, ended) = push_all_lem es b (push h e) pushed c.2 lt in
    let appended = drop-append_le h.head h.events (e ∷ []) k.head_le in
    (linked, kept ∙ rw appended (append_assoc (live h) (e ∷ []) es), ended)

push_all_keeps :
    (es : List Event) (h : History)
    → ((push_all es h).max_bytes ≡ h.max_bytes)
      × ((push_all es h).earliest ≡ h.earliest)
      × ((push_all es h).acks ≡ h.acks)
unfolding push_all
push_all_keeps [] h = (refl, refl, refl)
push_all_keeps (e ∷ es) h = push_all_keeps es (push h e)

-- A run of events is taken.
restore_loop_takes :
    (es : List Event) (b : ℕ) (h : History)
    → Chain h.latest es b
    → b < u64_mod
    → restore_loop es h ≡ ok (push_all es h)
unfolding restore_loop push_all
restore_loop_takes [] b h c lt = refl
restore_loop_takes (e ∷ es) b h c lt =
    let sum = Chain-total e.end_sequence b es c.2 in
    ground (
      arith,
      c.0,
      c.1,
      sub64_exact e.end_sequence e.start_sequence,
      restore_loop_takes es b (push h e) c.2 lt,
      sum,
    )

-- What the tests of a round have found.
restore_loop_round :
    (e : Event) (es : List Event) (h h' : History)
    → restore_loop (e ∷ es) h ≡ ok h'
    → (e.start_sequence ≡ h.latest)
      × (sub64 e.end_sequence e.start_sequence ≡ length e.bytes)
      × (restore_loop es (push h e) ≡ ok h')
unfolding restore_loop
restore_loop_round e es h h' r = ground arith

ends_of : (e s l : ℕ) → e < u64_mod → s < u64_mod → sub64 e s ≡ l → e ≡ (s + l) % u64_mod
unfolding sub64
ends_of e s l he hs h = omega arith

-- What is taken is the events pushed, and the end is right up to a wrap.
restore_loop_taken :
    (es : List Event) (h h' : History)
    → h.latest < u64_mod
    → All (λ e. e.end_sequence < u64_mod) es
    → restore_loop es h ≡ ok h'
    → (h' ≡ push_all es h) × (h'.latest ≡ (h.latest + total es) % u64_mod)
unfolding push_all
restore_loop_taken [] h h' lt ends r =
    let same : h' ≡ h = unfold restore_loop in ground arith in
    (same, ap (λ (x : History). x.latest) same ∙ omega arith)
restore_loop_taken (e ∷ es) h h' lt ends r =
    let (start, width, more) = restore_loop_round e es h h' r in
    let (same, latest) = restore_loop_taken es (push h e) h' ends.0 ends.1 more in
    let stop =
      ends_of e.end_sequence e.start_sequence (length e.bytes) ends.0 (omega arith) width in
    (same, omega (arith, latest, stop, start))

-- Where the end did not wrap, no event did.
restore_loop-Chain :
    (es : List Event) (h h' : History)
    → h.latest + total es < u64_mod
    → All (λ e. e.end_sequence < u64_mod) es
    → restore_loop es h ≡ ok h'
    → Chain h.latest es (h.latest + total es)
restore_loop-Chain [] h h' lt ends r = omega arith
restore_loop-Chain (e ∷ es) h h' lt ends r =
    let (start, width, more) = restore_loop_round e es h h' r in
    let stop : e.end_sequence ≡ h.latest + length e.bytes = omega (
      arith,
      ends_of e.end_sequence e.start_sequence (length e.bytes) ends.0 (omega arith) width,
    ) in
    let sum : e.end_sequence + total es ≡ h.latest + total (e ∷ es) = omega arith in
    (
      start,
      stop,
      subst (Chain e.end_sequence es) sum
          (restore_loop-Chain es (push h e) h' (omega arith) ends.1 more),
    )

-- The history that `Restore` starts from.
abbrev start_at : ℕ → ℕ → History
start_at max_bytes earliest = record {
  max_bytes = max_bytes;
  bytes = 0;
  earliest = earliest;
  latest = earliest;
  events = [];
  head = 0;
  acks = [];
}

start_at-Linked :
    (max_bytes earliest : ℕ) → earliest < u64_mod → Linked (start_at max_bytes earliest)
start_at-Linked max_bytes earliest lt = record {
  head_le = omega arith;
  chain = refl;
  counted = refl;
  latest_lt = lt;
}

-- What the tests of `Restore` have found.
restore_tests :
    (max_bytes earliest latest : ℕ) (es : List Event) {h : History}
    → restore max_bytes earliest latest es ≡ ok h
    → (0 < max_bytes)
      × (earliest ≤ latest)
      × (restore_loop es (start_at max_bytes earliest) ≡ ok h)
      × (h.latest ≡ latest)
      × (h.bytes ≤ max_bytes)
unfolding restore
restore_tests max_bytes earliest latest es r = ground arith

restored-IsValid :
    (max_bytes earliest latest : ℕ) (es : List Event)
    → Chain earliest es latest
    → latest < u64_mod
    → 0 < max_bytes
    → total es ≤ max_bytes
    → let h = push_all es (start_at max_bytes earliest) in
      IsValid h × (live h ≡ es) × (h.bytes ≡ total es) × (h.latest ≡ latest)
restored-IsValid max_bytes earliest latest es c lt pos fits =
    let start = start_at max_bytes earliest in
    let sum = Chain-total earliest latest es c in
    let (linked, kept, ended) =
      push_all_lem es latest start (start_at-Linked max_bytes earliest (omega arith)) c lt in
    let keeps = push_all_keeps es start in
    let count = linked.counted ∙ ap total kept in
    (
      record {
        linked = linked;
        fits = omega (arith, count, keeps.0);
        limited = omega (arith, keeps.0);
        acks_le = rw keeps.2 tt;
      },
      kept,
      count,
      ended,
    )

-- What `Restore` accepts, given that all its numbers are uint64 and that the bytes are fewer than 2
-- ^ 64, is a valid history with those bounds and those events.
pub restore-IsValid :
    (max_bytes earliest latest : ℕ) (es : List Event) {h : History}
    → latest < u64_mod
    → All (λ e. e.end_sequence < u64_mod) es
    → total es < u64_mod
    → restore max_bytes earliest latest es ≡ ok h
    → IsValid h × (h.earliest ≡ earliest) × (h.latest ≡ latest) × (live h ≡ es)
unfolding restore
restore-IsValid max_bytes earliest latest es {h} lt ends small r =
    let start = start_at max_bytes earliest in
    let (pos, le, loop, ended, fits) = restore_tests max_bytes earliest latest es r in
    let (same, wrapped) = restore_loop_taken es start h (omega arith) ends loop in
    let end : earliest + total es ≡ latest = omega (arith, wrapped, ended) in
    let chain =
      subst (Chain earliest es) end (restore_loop-Chain es start h (omega arith) ends loop) in
    let counted =
      (push_all_lem es latest start (start_at-Linked max_bytes earliest (omega arith)) chain lt) in
    let count : h.bytes ≡ total es =
      ap (λ (x : History). x.bytes) same ∙ counted.0.counted ∙ ap total counted.1 in
    let (valid, kept, _, _) =
      restored-IsValid max_bytes earliest latest es chain lt pos (omega (arith, count, fits)) in
    (
      subst IsValid (sym same) valid,
      ap (λ (x : History). x.earliest) same ∙ (push_all_keeps es start).1,
      ended,
      ap live same ∙ kept,
    )

-- A valid history is restored from its bounds and its live events.
pub restore-live :
    (h : History)
    → IsValid h
    → (h' : History) × (restore h.max_bytes h.earliest h.latest (live h) ≡ ok h')
      × (live h' ≡ live h)
      × (h'.bytes ≡ h.bytes)
      × IsValid h'
unfolding restore
restore-live h v =
    let start = start_at h.max_bytes h.earliest in
    let k = v.linked in
    let (valid, kept, count, ended) =
      restored-IsValid h.max_bytes h.earliest h.latest (live h) k.chain k.latest_lt v.limited
        (omega (arith, k.counted, v.fits)) in
    let loop = restore_loop_takes (live h) h.latest start k.chain k.latest_lt in
    let sum = Chain-total h.earliest h.latest (live h) k.chain in
    (
      push_all (live h) start,
      ground (arith, loop, ended, count, k.counted, v.fits, v.limited, sum),
      kept,
      count ∙ sym k.counted,
      valid,
    )
