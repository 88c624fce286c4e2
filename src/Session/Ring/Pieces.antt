-- ===== src/Session/Ring/Pieces.antt =====
-- Events that are pieces of one stream.
use paperboat_helper.Base.{
  ℕ, zero, suc, ◌+◌, ◌-◌, ◌≤◌, ◌<◌, ◌≡◌, refl, sym, ap, ◌∙◌, true, List, [], ◌∷◌, length, take,
  drop, arith,
}
use paperboat_helper.History.{Event, slice}
use paperboat_helper.Session.Ring.{covers}

-- `n` bytes of a stream from a position on.
abbrev pub span : (ℕ → ℕ) → ℕ → ℕ → List ℕ
span stream a zero = []
span stream a (suc n) = stream a ∷ span stream (suc a) n

pub length-span : (stream : ℕ → ℕ) (a n : ℕ) → length (span stream a n) ≡ n
length-span stream a zero = refl
length-span stream a (suc n) = ap suc (length-span stream (suc a) n)

pub drop-span :
    (stream : ℕ → ℕ) (k a n : ℕ) → k ≤ n → drop k (span stream a n) ≡ span stream (a + k) (n - k)
drop-span stream zero a n h =
    rw (let e : a + 0 ≡ a = omega arith in e, let e : n - 0 ≡ n = omega arith in e)
drop-span stream (suc k) a zero h = absurd (omega arith)
drop-span stream (suc k) a (suc n) h =
    rw
      (
        let e : a + suc k ≡ suc a + k = omega arith in e,
        let e : suc n - suc k ≡ n - k = omega arith in e,
      )
      (drop-span stream k (suc a) n (omega arith))

pub take-span : (stream : ℕ → ℕ) (k a n : ℕ) → k ≤ n → take k (span stream a n) ≡ span stream a k
take-span stream zero a n h = refl
take-span stream (suc k) a zero h = absurd (omega arith)
take-span stream (suc k) a (suc n) h =
    ap (◌∷◌ (stream a)) (take-span stream k (suc a) n (omega arith))

-- The stream that a session puts out: its bytes, and the channel of each.
pub record Output : Type 0 where
  pub byte : ℕ → ℕ
  pub channel_of : ℕ → ℕ

-- The event is a piece of the stream that is not empty.
pub record Fits (s : Output) (e : Event) : Type 0 where
  pub nonempty : 0 < length e.bytes
  pub ends : e.end_sequence ≡ e.start_sequence + length e.bytes
  pub content : e.bytes ≡ span s.byte e.start_sequence (length e.bytes)
  pub channels : (n : ℕ) → e.start_sequence ≤ n → n < e.end_sequence → s.channel_of n ≡ e.channel

module _ (s : Output) where
  -- Between events of one stream, to cover is to reach as far on both sides.
  pub covers_nested :
      (x e : Event)
      → Fits s x
      → Fits s e
      → x.start_sequence ≤ e.start_sequence
      → e.end_sequence ≤ x.end_sequence
      → covers x e ≡ true
  unfolding covers
  covers_nested x e fx fe lo hi =
      let k = e.start_sequence - x.start_sequence in
      let n = e.end_sequence - x.start_sequence in
      let cut : slice k n x.bytes ≡ e.bytes =
        ap (slice k n) fx.content
        ∙ ap (take (n - k)) (drop-span s.byte k x.start_sequence (length x.bytes) (omega arith))
        ∙ take-span s.byte (n - k) (x.start_sequence + k) (length x.bytes - k) (omega arith)
        ∙ rw
            (
              let at : x.start_sequence + k ≡ e.start_sequence = omega arith in at,
              let width : n - k ≡ length e.bytes = omega arith in width,
            )
            (sym fe.content) in
      let same : x.channel ≡ e.channel =
        sym (fx.channels e.start_sequence (omega arith) (omega arith))
        ∙ fe.channels e.start_sequence (omega arith) (omega arith) in
      ground (arith, cut, same)

  pub covers_reach :
      (x e : Event)
      → covers x e ≡ true
      → (x.start_sequence ≤ e.start_sequence) × (e.end_sequence ≤ x.end_sequence)
  unfolding covers
  covers_reach x e h = ground arith
