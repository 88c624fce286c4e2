-- ===== src/Session/Live/Run.antt =====
-- A session over any history of calls: what its attachments read.
use paperboat_helper.Base.{
  ℕ, ◌≡◌, refl, sym, subst, ap, ◌∙◌, inl, inr, Bool, true, false, not, List, [], ◌∷◌, ◌++◌, String,
  length, arith, ◌==◌, Bool-cases, Result, ok, err, All, string_key,
}
use mathlib.Core.List.{append-nil, append_assoc}
use paperboat_helper.History.{Event, History, Replay, live, new, append, acknowledge, clear}
use paperboat_helper.History as History
use paperboat_helper.History.Invariant.{IsValid, append-IsValid, clear-IsValid, acknowledge-IsValid}
use paperboat_helper.History.Stream.{Holds, clear-Holds}
use paperboat_helper.History.Run.{
  grow, acknowledge-Holds, appended-Holds, Result-cases, append_refused,
}
use paperboat_helper.Session.Ring.Pieces.{Output, Fits}
use paperboat_helper.Session.Fanout.{Fanout, detach, next, status}
use paperboat_helper.Session.Fanout.Delivery.{Serves}
use paperboat_helper.Session.Fanout.Operations.{detach-Serves, publish-Serves}
use paperboat_helper.Session.Fanout.Reading.{next-Serves}
use paperboat_helper.Session.Attaching.{attach_locked, attach_live}
use paperboat_helper.Session.Attaching.Pieces.{attach_locked-Serves}
use paperboat_helper.Session.Live.{
  Live, capture, publish_appended, attach, attach_at_end, detach_from, next_of, acknowledge_of,
  clear_of, of_acknowledge, is_attached_status, with_history,
}
use paperboat_helper.Session.Live.Pieces.{Begins, Begins-of-append, append-Fits}

pub data Op : Type 0 where
  captures : List ℕ → Op
  attaches : String → ℕ → Op
  attaches_at_end detaches reads : String → Op
  acknowledges : String → ℕ → Op
  -- whether the store took the change
  clears : Bool → Op

grow_more :
    (stream bytes : List ℕ) (r : Result History.Error Event)
    → (k : List ℕ) × (grow stream bytes r ≡ stream ++ k)
grow_more stream bytes (ok e) = (bytes, refl)
grow_more stream bytes (err e) = ([], sym (append-nil stream))

-- What holds of a session whose process has put out `stream`, the start of `s`.
pub record Sound (s : Output) (stream : List ℕ) (l : Live) : Type 0 where
  pub valid : IsValid l.history
  pub holds : Holds l.history stream
  pub pieces : All (Fits s) (live l.history)
  pub serves : Serves s l.fanout

publish_appended-Sound :
    (s : Output) (stream : List ℕ) (f : Fanout) (p : History × Result History.Error Event)
    → IsValid p.0
    → Holds p.0 stream
    → All (Fits s) (live p.0)
    → ((e : Event) → p.1 ≡ ok e → Fits s e)
    → Serves s f
    → Sound s stream (publish_appended f p)
unfolding publish_appended
publish_appended-Sound s stream f (h, err e) v k fits new v' = record {
  valid = v;
  holds = k;
  pieces = fits;
  serves = v';
}
publish_appended-Sound s stream f (h, ok e) v k fits new v' = record {
  valid = v;
  holds = k;
  pieces = fits;
  serves = publish-Serves s f e (new e refl) v';
}

-- What `Append` does to the pieces, whether it takes the chunk or not.
appended-Fits :
    (s : Output) (h : History) (bytes stream : List ℕ)
    → ((n : ℕ) → s.channel_of n ≡ 1)
    → IsValid h
    → All (Fits s) (live h)
    → Holds h stream
    → (length bytes == 0) ≡ false
    → Begins s (grow stream bytes (append h 1 bytes).1)
    → All (Fits s) (live (append h 1 bytes).0)
      × ((e : Event) → (append h 1 bytes).1 ≡ ok e → Fits s e)
appended-Fits s h bytes stream channels v fits k some_bytes begins =
    elim (Result-cases (append h 1 bytes).1) [
      | inr (x, refused) ↦ (
        subst (λ g. All (Fits s) (live g)) (sym (append_refused h 1 bytes refused)) fits,
        λ e taken. absurd (cc (refused, taken)),
      )
      | inl (x, taken) ↦
          let (f, all) =
            append-Fits s h bytes stream channels v fits k.ended some_bytes taken
              (rw taken at begins) in
          (all, λ e same. subst (λ y. Fits s y) (cc (taken, same)) f)
    ]

append_nothing : (h : History) → (e : Event) × ((append h 1 []).1 ≡ ok e)
unfolding append
append_nothing h = (_, refl)

capture-Sound :
    (s : Output) (stream bytes : List ℕ) (l : Live)
    → ((n : ℕ) → s.channel_of n ≡ 1)
    → Begins s (grow stream bytes (append l.history 1 bytes).1)
    → Sound s stream l
    → Sound s (grow stream bytes (append l.history 1 bytes).1) (capture l bytes)
unfolding capture
capture-Sound s stream [] l channels begins v =
    let (e, taken) = append_nothing l.history in rw (taken, append-nil stream) v
capture-Sound s stream (b ∷ bs) l channels begins v =
    let (fits, new) =
      appended-Fits s l.history (b ∷ bs) stream channels v.valid v.pieces v.holds (ground arith)
        begins in
    rw (let some_bytes : (length (b ∷ bs) == 0) ≡ false = ground arith in some_bytes) (
      publish_appended-Sound s (grow stream (b ∷ bs) (append l.history 1 (b ∷ bs)).1) l.fanout
        (append l.history 1 (b ∷ bs)) (append-IsValid l.history 1 (b ∷ bs) v.valid)
        (appended-Holds l.history 1 (b ∷ bs) stream v.valid v.holds) fits new v.serves)

acknowledge-live : (h : History) (id : String) (k : ℕ) → live (acknowledge h id k).0 ≡ live h
unfolding acknowledge
acknowledge-live h id k = ground arith

of_acknowledge-Sound :
    (s : Output) (stream : List ℕ) (l : Live) (p : History × Result History.Error (Unit {0}))
    → Sound s stream (record l { history = p.0 })
    → Sound s stream (with_history l (of_acknowledge p)).0
of_acknowledge-Sound s stream l (h, err e) v = v
of_acknowledge-Sound s stream l (h, ok u) v = v

acknowledge_of-Sound :
    (s : Output) (stream : List ℕ) (l : Live) (id : String) (k : ℕ)
    → Sound s stream l
    → Sound s stream (acknowledge_of l id k).0
unfolding acknowledge_of
acknowledge_of-Sound s stream l id k v =
    elim (Bool-cases (not (is_attached_status (status l.fanout id)))) [
      | inl refused ↦ rw refused v
      | inr attached ↦ rw attached (
          of_acknowledge-Sound s stream l (acknowledge l.history id k) (record {
            valid = acknowledge-IsValid l.history id k v.valid;
            holds = acknowledge-Holds l.history id k stream v.holds;
            pieces = subst (λ es. All (Fits s) es) (sym (acknowledge-live l.history id k)) v.pieces;
            serves = v.serves;
          }))
    ]

clear-live : (h : History) → live (clear h).0 ≡ []
unfolding clear
clear-live h = refl

clear_of-Sound :
    (s : Output) (stream : List ℕ) (stored : Bool) (l : Live)
    → Sound s stream l
    → Sound s stream (clear_of stored l).0
unfolding clear_of
clear_of-Sound s stream false l v = v
clear_of-Sound s stream true l v = record {
  valid = clear-IsValid l.history v.valid;
  holds = clear-Holds l.history stream v.holds;
  pieces = subst (λ es. All (Fits s) es) (sym (clear-live l.history)) tt;
  serves = v.serves;
}

with_fanout-Sound :
    (s : Output) (stream : List ℕ) (l : Live) (f : Fanout)
    → Sound s stream l
    → Serves s f
    → Sound s stream (record l { fanout = f })
with_fanout-Sound s stream l f v k = record {
  valid = v.valid;
  holds = v.holds;
  pieces = v.pieces;
  serves = k;
}

-- `max` attachments, each with a queue of `n` bytes.
module _ (max n : ℕ) where
  abbrev pub step : Live → Op → Live
  step l (captures bytes) = capture l bytes
  step l (attaches id from) = (attach max n l id from).0
  step l (attaches_at_end id) = (attach_at_end max n l id).0
  step l (detaches id) = (detach_from l id).0
  step l (reads id) = (next_of l id).0
  step l (acknowledges id k) = (acknowledge_of l id k).0
  step l (clears stored) = (clear_of stored l).0

  abbrev pub run : Live → List Op → Live
  run l [] = l
  run l (op ∷ ops) = run (step l op) ops

  -- What the process has put out: the chunks that the history takes.
  abbrev pub output : List ℕ → Live → List Op → List ℕ
  output stream l [] = stream
  output stream l (captures bytes ∷ ops) =
      output (grow stream bytes (append l.history 1 bytes).1) (step l (captures bytes)) ops
  output stream l (op ∷ ops) = output stream (step l op) ops

  output_grows :
      (stream : List ℕ) (l : Live) (ops : List Op)
      → (more : List ℕ) × (output stream l ops ≡ stream ++ more)
  output_grows stream l [] = ([], sym (append-nil stream))
  output_grows stream l (captures bytes ∷ ops) =
      let (m, e) =
        output_grows (grow stream bytes (append l.history 1 bytes).1) (step l (captures bytes))
          ops in
      let (k, q) = grow_more stream bytes (append l.history 1 bytes).1 in
      (k ++ m, e ∙ ap (λ (xs : List ℕ). xs ++ m) q ∙ append_assoc stream k m)
  output_grows stream l (attaches id from ∷ ops) =
      output_grows stream (step l (attaches id from)) ops
  output_grows stream l (attaches_at_end id ∷ ops) =
      output_grows stream (step l (attaches_at_end id)) ops
  output_grows stream l (detaches id ∷ ops) = output_grows stream (step l (detaches id)) ops
  output_grows stream l (reads id ∷ ops) = output_grows stream (step l (reads id)) ops
  output_grows stream l (acknowledges id k ∷ ops) =
      output_grows stream (step l (acknowledges id k)) ops
  output_grows stream l (clears stored ∷ ops) = output_grows stream (step l (clears stored)) ops

  pub run-Sound :
      (s : Output) (stream : List ℕ) (l : Live) (ops : List Op)
      → ((k : ℕ) → s.channel_of k ≡ 1)
      → Begins s (output stream l ops)
      → Sound s stream l
      → Sound s (output stream l ops) (run l ops)
  unfolding attach attach_at_end detach_from next_of attach_live
  run-Sound s stream l [] channels begins v = v
  run-Sound s stream l (captures bytes ∷ ops) channels begins v =
      let now = grow stream bytes (append l.history 1 bytes).1 in
      let (more, e) = output_grows now (step l (captures bytes)) ops in
      run-Sound s now (capture l bytes) ops channels begins
        (capture-Sound s stream bytes l channels (Begins-of-append s now more (rw e at begins)) v)
  run-Sound s stream l (attaches id from ∷ ops) channels begins v =
      run-Sound s stream (step l (attaches id from)) ops channels begins (
        with_fanout-Sound s stream l (attach_locked max n l.history l.fanout id from).0 v
          (attach_locked-Serves s max n l.history l.fanout id from v.valid v.pieces v.serves))
  run-Sound s stream l (attaches_at_end id ∷ ops) channels begins v =
      run-Sound s stream (step l (attaches_at_end id)) ops channels begins (
        with_fanout-Sound s stream l (attach_live max n l.history l.fanout id).0 v (
          attach_locked-Serves s max n l.history l.fanout id l.history.latest v.valid v.pieces
            v.serves))
  run-Sound s stream l (detaches id ∷ ops) channels begins v =
      run-Sound s stream (step l (detaches id)) ops channels begins (
        with_fanout-Sound s stream l (detach l.fanout id).0 v
          (detach-Serves s l.fanout id v.serves))
  run-Sound s stream l (reads id ∷ ops) channels begins v =
      run-Sound s stream (step l (reads id)) ops channels begins
        (with_fanout-Sound s stream l (next l.fanout id).0 v (next-Serves s l.fanout id v.serves))
  run-Sound s stream l (acknowledges id k ∷ ops) channels begins v =
      run-Sound s stream (step l (acknowledges id k)) ops channels begins
        (acknowledge_of-Sound s stream l id k v)
  run-Sound s stream l (clears stored ∷ ops) channels begins v =
      run-Sound s stream (step l (clears stored)) ops channels begins
        (clear_of-Sound s stream stored l v)
