-- ===== src/DataTrack.antt =====
-- src/media/local_data_track_wrap.h and src/media/local_data_track_wrap.cpp: the sends of a local
-- data track, and the promises that they return.
-- A promise is known by the number of promises made before it. The ids that rtc-cpp gives to messages
-- are arguments; `max_message_size` is its `LocalDataTrack::kMaxMessageSize`.
pub mod Pending
pub mod Valid
pub mod Kept
pub mod History
pub mod Settled
pub mod Send
use twilio_video_node.Base.{
  ℕ, suc, ◌+◌, ◌-◌, Bool, true, false, ◌&&◌, not, List, [], ◌∷◌, ◌++◌, Option, none, some, String,
  map, ltb, ◌==◌, length, is_empty, if◌then◌else◌,
}
use twilio_video_node.Async.{Context, open_context, dispatch, ref, unref, close}
use Pending.{PendingSends, emplace, find, erase}

-- The object that a send's promise is resolved with. `message_id` is the id itself, where JS gets the
-- double next to it: the same below 2^53.
pub record SendResult : Type 0 where
  pub ok : Bool
  pub message_id : ℕ
  pub error : Option String

-- What the observer queues for the JS thread: `settleSend` of an id.
pub record Completion : Type 0 where
  pub id : ℕ
  pub ok : Bool
  pub error : String

-- `track` says that `track_` is set, and `owner` that the observer's `owner_` is. `resolved` lists the
-- promises resolved so far, `made` counts the promises made, and `sent` lists what was given to
-- rtc-cpp's `send`.
pub record DataTrack : Type 0 where
  pub track : Bool
  pub owner : Bool
  pub pending_sends : PendingSends
  pub rooms : ℕ
  pub context : Context Completion
  pub resolved : List (ℕ × SendResult)
  pub made : ℕ
  pub sent : List (List ℕ)

-- The first argument of `send`, by its bytes.
pub data Argument : Type 0 where
  absent : Argument
  string : List ℕ → Argument
  buffer : List ℕ → Argument
  other : Argument

pub data SendError : Type 0 where
  not_initialized expected_argument bad_argument : SendError
  too_large : (size : ℕ) → SendError

pub data Sent : Type 0 where
  threw : SendError → Sent
  promise : ℕ → Sent

-- `NewInstance`, of a factory that makes the track.
unfoldable pub new_instance : DataTrack
unfolding open_context
new_instance = record {
  track = true;
  owner = true;
  pending_sends = [];
  rooms = 0;
  context = open_context 0;
  resolved = [];
  made = 0;
  sent = [];
}

abbrev pub failed : String → ℕ → SendResult
failed error id = record { ok = false; message_id = id; error = some error }

abbrev pub settled : ℕ → Completion → ℕ × SendResult
settled p c =
    (p, record { ok = c.ok; message_id = c.id; error = if c.ok then none else some c.error })

-- `settleSend` with the entry that it found.
unfoldable pub settle_found : ℕ → Completion → DataTrack → DataTrack
unfolding unref
settle_found p c t =
    let rest = erase c.id t.pending_sends in
    record t {
      pending_sends = rest;
      context = if is_empty rest then unref t.context else t.context;
      resolved = t.resolved ++ (settled p c ∷ []);
    }

unfoldable pub settle_send : Completion → DataTrack → DataTrack
settle_send c t = elim (find c.id t.pending_sends) [ none ↦ t | some p ↦ settle_found p c t ]

abbrev pub resolve_failed : String → ℕ × ℕ → ℕ × SendResult
resolve_failed error (id, p) = (p, failed error id)

unfoldable pub settle_all_pending : String → DataTrack → DataTrack
settle_all_pending error t = record t {
  pending_sends = [];
  resolved = t.resolved ++ map (resolve_failed error) t.pending_sends;
}

-- `send` from where rtc-cpp has taken the message, under `id`.
unfoldable pub track_send : ℕ → DataTrack → DataTrack
unfolding ref
track_send id t =
    if t.rooms == 0
    then record t {
      resolved = t.resolved ++ ((t.made, failed "Data track is not published to a Room" id) ∷ []);
      made = suc t.made;
    }
    else (let pending = emplace id t.made t.pending_sends in
        record t {
          pending_sends = pending;
          context = if length pending == 1 then ref t.context else t.context;
          made = suc t.made;
        })

module _ (max_message_size : ℕ) where
  -- The size test and the call of rtc-cpp, the same for both kinds of message.
  unfoldable pub send_bytes : List ℕ → ℕ → DataTrack → DataTrack × Sent
  send_bytes bytes id t =
      if ltb max_message_size (length bytes)
      then (t, threw (too_large (length bytes)))
      else (track_send id (record t { sent = t.sent ++ (bytes ∷ []) }), promise t.made)

  unfoldable pub send_argument : Argument → ℕ → DataTrack → DataTrack × Sent
  unfolding send_bytes
  send_argument absent id t = (t, threw expected_argument)
  send_argument (string bytes) id t = send_bytes bytes id t
  send_argument (buffer bytes) id t = send_bytes bytes id t
  send_argument other id t = (t, threw bad_argument)

  unfoldable pub send : Argument → ℕ → DataTrack → DataTrack × Sent
  unfolding send_argument
  send a id t = if t.track then send_argument a id t else (t, threw not_initialized)

unfoldable pub attach_room : DataTrack → DataTrack
attach_room t = record t { rooms = suc t.rooms }

-- The count is lowered only above 0.
unfoldable pub detach_room : DataTrack → DataTrack
detach_room t = if ltb 0 t.rooms then record t { rooms = t.rooms - 1 } else t

unfoldable pub settle_pending_if_unpublished : String → DataTrack → DataTrack
unfolding settle_all_pending unref
settle_pending_if_unpublished error t =
    if (t.rooms == 0) && not (is_empty t.pending_sends)
    then (let u = settle_all_pending error t in record u { context = unref u.context })
    else t

-- `onSendProcessedWithFailure` and `onSendProcessedSuccessfully`
unfoldable pub on_send_processed : Completion → DataTrack → DataTrack
on_send_processed c t = if t.owner then record t { context = dispatch t.context c } else t

unfoldable pub settle_sends : List Completion → DataTrack → DataTrack
settle_sends [] t = t
settle_sends (c ∷ cs) t = settle_sends cs (settle_send c t)

-- The JS thread drains the track's queue: each queued callback is one `settleSend`, which throws
-- nothing and calls neither `dispatch` nor `close` of the context.
unfoldable pub drain : DataTrack → DataTrack
drain t =
    if t.context.closed
    then t
    else settle_sends t.context.queue (record t { context = record t.context { queue = [] } })

-- The destructor.
unfoldable pub destroy : DataTrack → DataTrack
unfolding settle_all_pending close
destroy t =
    let u =
      settle_all_pending "Local data track was destroyed before the send completed"
        (record t { owner = false }) in
    record u { context = close u.context }
