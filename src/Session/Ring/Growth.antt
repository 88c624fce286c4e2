-- ===== src/Session/Ring/Growth.antt =====
-- `insertEventLocked` ends, keeps the ring a staircase of pieces of one stream, and covers what was
-- covered and the new event.
use paperboat_helper.Base.{
  ℕ, zero, suc, ◌<◌, ◌≡◌, refl, subst, ap, ◌⊎◌, inl, inr, false, some, List, [], ◌∷◌, ◌++◌, length,
  arith, Bool-cases, All, All-append,
}
use paperboat_helper.History.{Event}
use paperboat_helper.Session.Ring.{
  covers, Scan, covered, fresh, absorbs, put_back, scan, sort, insert_event_fuel, insert_event,
}
use paperboat_helper.Session.Ring.Pieces.{Output, Fits, covers_nested, covers_reach}
use paperboat_helper.Session.Ring.Insert.{
  Precedes, Stair, Covered, Apart, Within, PairApart-append, sort-All, sort-Stair, Covered-sort,
  Covered-append,
}

-- What the scan says of the ring.
abbrev Found : Output → Event → List Event → Scan → Type 0
Found s e ring fresh = All (λ x. Apart x e) ring
Found s e ring covered = (n : ℕ) → Within n e → Covered n ring
Found s e ring (absorbs rest) =
    Stair rest
    × All (Fits s) rest
    × (length ring ≡ suc (length rest))
    × ((n : ℕ) → Covered n ring → Within n e ⊎ Covered n rest)
    × ((y : Event) → All (Precedes y) ring → All (Precedes y) rest)

not_nested :
    (s : Output) (x e : Event)
    → Fits s x
    → Fits s e
    → covers x e ≡ false
    → covers e x ≡ false
    → Apart x e
not_nested s x e fx fe outside inside =
    ground (arith, covers_nested s x e fx fe, covers_nested s e x fe fx)

-- The scan of a ring behind an event that is apart from the new one.
put_back-Found :
    (s : Output) (e x : Event) (ring : List Event) (found : Scan)
    → Fits s x
    → Apart x e
    → Stair (x ∷ ring)
    → Found s e ring found
    → Found s e (x ∷ ring) (put_back x found)
put_back-Found s e x ring fresh fx a h f = (a, f)
put_back-Found s e x ring covered fx a h f = λ n w. inr (f n w)
put_back-Found s e x ring (absorbs rest) fx a h f = (
  (f.4 x h.0, f.0),
  (fx, f.1),
  ap suc f.2,
  λ n. elim [
    | inl here ↦ inr (inl here)
    | inr further ↦ elim (f.3 n further) [ inl w ↦ inl w | inr c ↦ inr (inr c) ]
  ],
  λ y q. (q.0, f.4 y q.1),
)

scan-Found :
    (s : Output) (e : Event) (ring : List Event)
    → Fits s e
    → All (Fits s) ring
    → Stair ring
    → Found s e ring (scan e ring)
unfolding scan
scan-Found s e [] fe fr h = tt
scan-Found s e (x ∷ ring) fe fr h = elim (Bool-cases (covers x e)) [
  | inl outside ↦
      rw outside (λ n w. let reach = covers_reach s x e outside in inl (omega arith, omega arith))
  | inr not_outside ↦ elim (Bool-cases (covers e x)) [
    | inl inside ↦
        rw (not_outside, inside)
          (
            h.1,
            fr.1,
            refl,
            λ n. elim [
              | inl here ↦ let reach = covers_reach s e x inside in inl (omega arith, omega arith)
              | inr further ↦ inr further
            ],
            λ y q. q.1,
          )
    | inr not_inside ↦
        rw (not_outside, not_inside)
          (put_back-Found s e x ring (scan e ring) fr.0
            (not_nested s x e fr.0 fe not_outside not_inside) h (scan-Found s e ring fe fr.1 h.1))
  ]
]

-- The ring after the insertion.
pub record Grown (s : Output) (e : Event) (ring ring' : List Event) : Type 0 where
  pub stair : Stair ring'
  pub fits : All (Fits s) ring'
  pub keeps : (n : ℕ) → Covered n ring → Covered n ring'
  pub adds : (n : ℕ) → Within n e → Covered n ring'

abbrev Inserts : Output → Event → ℕ → List Event → Type 0
Inserts s e fuel ring =
    (ring' : List Event) × (insert_event_fuel fuel e ring ≡ some ring') × Grown s e ring ring'

sorted-Grown :
    (s : Output) (e : Event) (ring : List Event)
    → Fits s e
    → All (Fits s) ring
    → Stair ring
    → All (λ x. Apart x e) ring
    → Grown s e ring (sort (ring ++ e ∷ []))
sorted-Grown s e ring fe fr h apart = record {
  stair = sort-Stair (ring ++ e ∷ []) (PairApart-append ring e h apart);
  fits = sort-All (Fits s) (ring ++ e ∷ []) (All-append (Fits s) ring (e ∷ []) fr (fe, tt));
  keeps = λ n c. Covered-sort n (ring ++ e ∷ []) (Covered-append n ring e (inr c));
  adds = λ n w. Covered-sort n (ring ++ e ∷ []) (Covered-append n ring e (inl w));
}

-- The step of the insertion, by what the scan has found.
insert_step :
    (s : Output) (e : Event) (fuel : ℕ) (ring : List Event) (found : Scan)
    → Fits s e
    → All (Fits s) ring
    → Stair ring
    → scan e ring ≡ found
    → Found s e ring found
    → ((rest : List Event)
        → length ring ≡ suc (length rest)
        → All (Fits s) rest
        → Stair rest
        → Inserts s e fuel rest)
    → Inserts s e (suc fuel) ring
unfolding insert_event_fuel
insert_step s e fuel ring fresh fe fr h eq f more =
    (sort (ring ++ e ∷ []), rw (eq, insert_event_fuel), sorted-Grown s e ring fe fr h f)
insert_step s e fuel ring covered fe fr h eq f more =
    (ring, rw (eq, insert_event_fuel), record { stair = h; fits = fr; keeps = λ n c. c; adds = f })
insert_step s e fuel ring (absorbs rest) fe fr h eq f more =
    let (ring', done, grown) = more rest f.2 f.1 f.0 in
    (
      ring',
      rw (eq, insert_event_fuel) done,
      record {
        stair = grown.stair;
        fits = grown.fits;
        keeps = λ n c. elim (f.3 n c) [ inl w ↦ grown.adds n w | inr k ↦ grown.keeps n k ];
        adds = grown.adds;
      },
    )

-- Enough fuel is one more than the ring is long.
insert_event_fuel-Grown :
    (s : Output) (e : Event) (fuel : ℕ) (ring : List Event)
    → length ring < fuel
    → Fits s e
    → All (Fits s) ring
    → Stair ring
    → Inserts s e fuel ring
insert_event_fuel-Grown s e zero ring lt fe fr h = absurd (omega arith)
insert_event_fuel-Grown s e (suc fuel) ring lt fe fr h =
    insert_step s e fuel ring (scan e ring) fe fr h refl (scan-Found s e ring fe fr h)
      λ rest len fits stair. insert_event_fuel-Grown s e fuel rest (omega arith) fe fits stair

-- An event of the stream can always be inserted: the ring stays a staircase of pieces of the
-- stream, covers what it covered, and covers the event.
pub insert_event-Grown :
    (s : Output) (e : Event) (ring : List Event)
    → Fits s e
    → All (Fits s) ring
    → Stair ring
    → Grown s e ring (insert_event e ring)
unfolding insert_event
insert_event-Grown s e ring fe fr h =
    let (ring', done, grown) =
      insert_event_fuel-Grown s e (suc (length ring)) ring (omega arith) fe fr h in
    subst (Grown s e ring)
      (let same : ring' ≡ insert_event e ring = rw (done, insert_event) in same) grown
