-- ===== src/Session/Attaching.antt =====
-- internal/session/manager.go, `attachLocked`: an attachment starts with a replay of the history.
--
-- The session's lock is held throughout, so that the history does not change meanwhile.
pub mod Queueing
pub mod Covering
pub mod Pieces
pub mod Tail
use paperboat_helper.Base.{
  ℕ, ◌-◌, ◌/◌, Bool, Option, none, some, List, [], ◌∷◌, String, ltb, leb, ◌==◌, if◌then◌else◌,
  Result, ok, err, sub64,
}
use paperboat_helper.History.{Event, History, Replay, replay}
use paperboat_helper.History as History
use paperboat_helper.Session.Fanout.{Fanout, Eviction, attach, detach, count, enqueue_event}
use paperboat_helper.Session.Fanout as Fanout

pub data Error : Type 0 where
  resource_limit evicted_meanwhile : Error
  of_history : History.Error → Error
  of_fanout : Fanout.Error → Error

-- `initialReplayBytes`, 64 << 10.
abbrev pub initial_replay_bytes : ℕ
initial_replay_bytes = 65536

unfoldable pub attachment_replay_limit : ℕ → ℕ
attachment_replay_limit attachment_bytes =
    let half = attachment_bytes / 2 in
    let limit = if half == 0 then 1 else half in
    if ltb initial_replay_bytes limit then initial_replay_bytes else limit

-- The newest bounded tail of the history: the cursor from which the second replay starts.
abbrev pub tail_boundary : Replay → ℕ → ℕ
tail_boundary r limit =
    let boundary = sub64 r.latest_sequence limit in
    if ltb boundary r.earliest_sequence then r.earliest_sequence else boundary

-- The second replay, where the first does not reach the end.
unfoldable pub newest_replay :
    History → ℕ → Result History.Error Replay → Result History.Error Replay
newest_replay h limit (err e) = err e
newest_replay h limit (ok r) =
    if ltb r.to_sequence r.latest_sequence then replay h (tail_boundary r limit) limit else ok r

-- What follows one `EnqueueOwned` of the loop; on a failure the attachment is detached.
unfoldable pub queue_step :
    String → Fanout × Result Fanout.Error (Option Eviction) → Fanout × Result Error (Unit {0})
queue_step id (f, err e) = ((detach f id).0, err (of_fanout e))
queue_step id (f, ok (some _)) = ((detach f id).0, err evicted_meanwhile)
queue_step id (f, ok none) = (f, ok tt)

-- The next round of that loop, or its end.
unfoldable pub queue_rest :
    (Fanout → Fanout × Result Error (Unit {0}))
    → Fanout × Result Error (Unit {0})
    → Fanout × Result Error (Unit {0})
queue_rest next (f, err e) = (f, err e)
queue_rest next (f, ok _) = next f

-- The loop over `replay.Events`.
unfoldable pub queue_events : String → List Event → Fanout → Fanout × Result Error (Unit {0})
unfolding queue_step queue_rest
queue_events id [] f = (f, ok tt)
queue_events id (e ∷ es) f = queue_rest (queue_events id es) (queue_step id (enqueue_event f id e))

-- The part of `attachLocked` behind the attachment.
unfoldable pub deliver_replay :
    String → Replay → Fanout × Result Error (Unit {0}) → Fanout × Result Error Replay
deliver_replay id r (f, err e) = (f, err e)
deliver_replay id r (f, ok _) = (f, ok r)

-- The part of `attachLocked` behind `fanout.Attach`.
unfoldable pub queue_replay :
    String → Replay → Fanout × Result Fanout.Error (Unit {0}) → Fanout × Result Error Replay
unfolding queue_events deliver_replay
queue_replay id r (f, err e) = (f, err (of_fanout e))
queue_replay id r (f, ok _) = deliver_replay id r (queue_events id r.events f)

-- The part of `attachLocked` behind the replay.
unfoldable pub attach_replay : Fanout → String → ℕ → Replay → Fanout × Result Error Replay
unfolding queue_replay
attach_replay f id attachment_bytes r = queue_replay id r (attach f id attachment_bytes)

unfoldable pub attach_locked : ℕ → ℕ → History → Fanout → String → ℕ → Fanout × Result Error Replay
unfolding newest_replay attach_replay attachment_replay_limit
attach_locked max_attachments attachment_bytes h f id from =
    let limit = attachment_replay_limit attachment_bytes in
    if leb max_attachments (count f.attachments)
    then (f, err resource_limit)
    else elim (newest_replay h limit (replay h from limit)) [
      | err e ↦ (f, err (of_history e))
      | ok r ↦ attach_replay f id attachment_bytes r
    ]

-- `AttachLive` attaches at the end of the history.
unfoldable pub attach_live : ℕ → ℕ → History → Fanout → String → Fanout × Result Error Replay
unfolding attach_locked
attach_live max_attachments attachment_bytes h f id =
    attach_locked max_attachments attachment_bytes h f id h.latest
