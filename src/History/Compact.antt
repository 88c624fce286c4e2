-- ===== src/History/Compact.antt =====
-- Compaction keeps the newest events that fit into the limit.
use paperboat_helper.Base.{
  ℕ, suc, ◌+◌, ◌≤◌, ◌<◌, ◌≡◌, refl, sym, subst, ap, ◌∙◌, inl, inr, true, List, [], ◌∷◌, length,
  drop, arith, ltb, ◌==◌, if◌then◌else◌, Bool-cases, u64_mod, sub64_exact,
}
use paperboat_helper.History.{Event, History, live, empty_event, compact_loop, compact}
use paperboat_helper.History.{drop_head, reset_if_drained}
use paperboat_helper.History.Chain.{
  Chain, total, drop-suc-set, length-set, drop-suc_of_drop, length_of_drop, Chain-total, drop_all,
}

-- What holds also while the history is over its limit.
pub record Linked (h : History) : Type 0 where
  pub head_le : h.head ≤ length h.events
  pub chain : Chain h.earliest (live h) h.latest
  pub counted : h.bytes ≡ total (live h)
  pub latest_lt : h.latest < u64_mod

-- The longest run of newest events of at most `limit` bytes.
abbrev pub newest : ℕ → List Event → List Event
newest limit [] = []
newest limit (e ∷ es) =
    let fewer = newest limit es in if ltb limit (total (e ∷ es)) then fewer else e ∷ es

live-drop_head :
    (h : History) {e : Event} {rest : List Event} → live h ≡ e ∷ rest → live (drop_head h e) ≡ rest
unfolding drop_head
live-drop_head h p =
    rw (let q : h.head + 1 ≡ suc h.head = omega arith in q)
      (drop-suc-set h.head h.events empty_event ∙ drop-suc_of_drop h.head h.events p)

module _ (h : History) {e : Event} {rest : List Event} (p : live h ≡ e ∷ rest) (k : Linked h) where
  Chain-here : Chain h.earliest (e ∷ rest) h.latest
  Chain-here = rw p at k.chain

  counted_here : h.bytes ≡ length e.bytes + total rest
  counted_here = k.counted ∙ ap total p

  bytes_lt : h.bytes < u64_mod
  bytes_lt =
      omega
        (arith, counted_here, k.latest_lt, Chain-total h.earliest h.latest (e ∷ rest) Chain-here)

  drop_head-Linked : Linked (drop_head h e)
  unfolding drop_head
  drop_head-Linked = record {
    head_le =
        omega (arith, length_of_drop h.head h.events p, length-set h.head h.events empty_event);
    chain = rw (live-drop_head h p) Chain-here.2;
    counted = rw (live-drop_head h p) (
        sub64_exact h.bytes (length e.bytes) bytes_lt (omega (arith, counted_here))
        ∙ omega (arith, counted_here));
    latest_lt = k.latest_lt;
  }

-- The loop ends with the newest events that fit, and has counted them.
pub compact_loop_lem :
    (es : List Event) (h : History)
    → live h ≡ es
    → Linked h
    → Linked (compact_loop es h) × (live (compact_loop es h) ≡ newest h.max_bytes es)
unfolding compact_loop drop_head
compact_loop_lem [] h p k = (k, p)
compact_loop_lem (e ∷ rest) h p k =
    let more =
      compact_loop_lem rest (drop_head h e) (live-drop_head h p) (drop_head-Linked h p k) in
    elim (Bool-cases (ltb h.max_bytes h.bytes)) [
      | inl over ↦ rw (← counted_here h p k, over) more
      | inr fits ↦ rw (← counted_here h p k, fits) (k, p)
    ]

total-newest-le : (limit : ℕ) (es : List Event) → total (newest limit es) ≤ limit
total-newest-le limit [] = omega arith
total-newest-le limit (e ∷ es) = ground (arith, total-newest-le limit es)

live_of_drained : (h : History) → (h.head == length h.events) ≡ true → live h ≡ []
live_of_drained h drained =
    subst (λ n. drop n h.events ≡ []) (let e : length h.events ≡ h.head = ground arith in e)
      (drop_all h.events)

reset_lem :
    (h : History) → Linked h → Linked (reset_if_drained h) × (live (reset_if_drained h) ≡ live h)
unfolding reset_if_drained
reset_lem h k = elim (Bool-cases (h.head == length h.events)) [
  | inl drained ↦
      let empty = live_of_drained h drained in
      rw drained (
        record {
          head_le = omega arith;
          chain = refl;
          counted = k.counted ∙ ap total empty;
          latest_lt = k.latest_lt;
        },
        sym empty,
      )
  | inr left ↦ rw left (k, refl)
]

-- Compaction keeps the newest events that fit, and drops nothing else.
pub compact_lem :
    (h : History) → Linked h → Linked (compact h) × (live (compact h) ≡ newest h.max_bytes (live h))
unfolding compact
compact_lem h k =
    let done = compact_loop_lem (live h) h refl k in
    let after = reset_lem (compact_loop (live h) h) done.0 in (after.0, after.1 ∙ done.1)

-- What compaction leaves alone.
compact_loop_keeps :
    (es : List Event) (h : History)
    → let h' = compact_loop es h in
      (h'.max_bytes ≡ h.max_bytes) × (h'.latest ≡ h.latest) × (h'.acks ≡ h.acks)
unfolding compact_loop drop_head
compact_loop_keeps [] h = (refl, refl, refl)
compact_loop_keeps (e ∷ rest) h = ground (arith, compact_loop_keeps rest (drop_head h e))

pub compact_keeps :
    (h : History)
    → let h' = compact h in
      (h'.max_bytes ≡ h.max_bytes) × (h'.latest ≡ h.latest) × (h'.acks ≡ h.acks)
unfolding compact reset_if_drained
compact_keeps h = ground (arith, compact_loop_keeps (live h) h)

pub compact_fits : (h : History) → Linked h → (compact h).bytes ≤ (compact h).max_bytes
compact_fits h k =
    let (linked, kept) = compact_lem h k in
    omega (
      arith,
      linked.counted,
      ap total kept,
      total-newest-le h.max_bytes (live h),
      (compact_keeps h).0,
    )
