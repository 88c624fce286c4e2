-- ===== src/Session/Live.antt =====
-- internal/session/manager.go: the output side of a session, from what its process writes to what
-- its attachments read.
--
-- A session's lock makes each method one step. `stored` says whether the store took the change.
pub mod Pieces
pub mod Run
pub mod Reading
pub mod Tests
use paperboat_helper.Base.{
  ℕ, Bool, true, false, not, Option, none, some, List, [], ◌∷◌, String, length, ◌==◌, if◌then◌else◌,
  Result, ok, err,
}
use paperboat_helper.History.{Event, History, Replay, append, acknowledge, clear}
use paperboat_helper.History as History
use paperboat_helper.Session.State.{AttachmentState}
use paperboat_helper.Session.Fanout.{
  Fanout, Eviction, new_fanout, publish, detach, next, status, is_attached_state,
}
use paperboat_helper.Session.Fanout as Fanout
use paperboat_helper.Session.Attaching.{attach_locked, attach_live}
use paperboat_helper.Session.Attaching as Attaching

-- The fields `history` and `fanout` of `managedSession`.
pub record Live : Type 0 where
  pub history : History
  pub fanout : Fanout

pub data Error : Type 0 where
  invalid_input store_failed : Error
  of_history : History.Error → Error

abbrev pub new_live : History → Live
new_live h = record { history = h; fanout = new_fanout }

-- What `capture` does with the event of a chunk; the evictions are not looked at.
unfoldable pub publish_appended : Fanout → History × Result History.Error Event → Live
publish_appended f (h, err e) = record { history = h; fanout = f }
publish_appended f (h, ok e) = record { history = h; fanout = (publish f e).0 }

-- One round of the loop of `capture`, with what was read.
unfoldable pub capture : Live → List ℕ → Live
unfolding publish_appended
capture l bytes =
    if length bytes == 0 then l else publish_appended l.fanout (append l.history 1 bytes)

abbrev pub with_fanout {ℓ} : {A : Type ℓ} → Live → Fanout × A → Live × A
with_fanout l (f, a) = (record l { fanout = f }, a)

abbrev pub with_history {ℓ} : {A : Type ℓ} → Live → History × A → Live × A
with_history l (h, a) = (record l { history = h }, a)

-- `Attach`.
unfoldable pub attach : ℕ → ℕ → Live → String → ℕ → Live × Result Attaching.Error Replay
attach max_attachments attachment_bytes l id from =
    with_fanout l (attach_locked max_attachments attachment_bytes l.history l.fanout id from)

-- `AttachLive`.
unfoldable pub attach_at_end : ℕ → ℕ → Live → String → Live × Result Attaching.Error Replay
attach_at_end max_attachments attachment_bytes l id =
    with_fanout l (attach_live max_attachments attachment_bytes l.history l.fanout id)

-- `Detach`.
unfoldable pub detach_from : Live → String → Live × Result Fanout.Error (Unit {0})
detach_from l id = with_fanout l (detach l.fanout id)

-- `Next`, and one round of `WaitNext`.
unfoldable pub next_of : Live → String → Live × Result Fanout.Error (Option Event)
next_of l id = with_fanout l (next l.fanout id)

abbrev pub is_attached_status : Result Fanout.Error (AttachmentState × ℕ) → Bool
is_attached_status (err e) = false
is_attached_status (ok (state, bytes)) = is_attached_state state

abbrev pub of_acknowledge :
    History × Result History.Error (Unit {0}) → History × Result Error (Unit {0})
of_acknowledge (h, err e) = (h, err (of_history e))
of_acknowledge (h, ok _) = (h, ok tt)

-- `Acknowledge`.
unfoldable pub acknowledge_of : Live → String → ℕ → Live × Result Error (Unit {0})
acknowledge_of l id next_sequence =
    if not (is_attached_status (status l.fanout id))
    then (l, err invalid_input)
    else with_history l (of_acknowledge (acknowledge l.history id next_sequence))

-- `Clear`.
unfoldable pub clear_of : Bool → Live → Live × Result Error ℕ
clear_of stored l =
    if not stored
    then (l, err store_failed)
    else (let (h, latest) = clear l.history in (record l { history = h }, ok latest))
