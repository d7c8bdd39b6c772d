-- ===== src/RoomObserver/Events.antt =====
-- src/video/room_observer_wrap.cpp: the Room's own queue of events, and the way that
-- `participantDisconnected` takes through the queue of the participant first.
-- One participant is followed, with its observer and wraps (twilio_video_node.Participant). `raw 0` is
-- the lambda that `onParticipantDisconnected` puts on the participant's queue: where it has just been run,
-- which the observer's log of what ran shows, it calls `dispatchRaw`.
use twilio_video_node.Base.{ℕ, ◌+◌, Bool, true, false, List, [], ◌∷◌, ◌++◌, ltb, if◌then◌else◌}
use twilio_video_node.Async.{Context, open_context, dispatch, close}
use twilio_video_node.Participant
use twilio_video_node.Participant.{Entry, event, raw, Observer, create_observer, raises, enqueue}

-- A callback on the Room's queue: it emits an event of the Room, or the participant's departure.
pub data RoomEntry {ℓ} (E : Type ℓ) : Type ℓ where
  room_event : E → RoomEntry E
  departed : RoomEntry E

-- `closed` says too that `roomWrap_` is null, and `emitted` lists what was given to `emitEvent`.
pub record Room {ℓ κ} (A : Type ℓ) (E : Type κ) : Type (ℓ ⊔ κ) where
  pub participant : Observer A
  pub context : Context (RoomEntry E)
  pub closed : Bool
  pub emitted : List (RoomEntry E)

-- Calls about the participant, events of the Room, the participant's departure, turns of the JS thread
-- for the Room's queue, and `close`.
pub data Op {ℓ κ} (A : Type ℓ) (E : Type κ) : Type (ℓ ⊔ κ) where
  about : Participant.Op A → Op A E
  happens : E → Op A E
  departs turns closes : Op A E

-- How often an entry is a raw function.
abbrev pub is_raw {ℓ} : {A : Type ℓ} → Entry A → ℕ
is_raw (event a) = 0
is_raw (raw f) = 1

abbrev pub raws {ℓ} : {A : Type ℓ} → List (Entry A) → ℕ
raws [] = 0
raws (e ∷ es) = is_raw e + raws es

abbrev pub raws_run {ℓ} : {A : Type ℓ} → List (ℕ × Entry A) → ℕ
raws_run [] = 0
raws_run ((w, e) ∷ es) = is_raw e + raws_run es

module _ {ℓ κ} {A : Type ℓ} {E : Type κ} where
  unfoldable pub new_room : Room A E
  unfolding open_context create_observer
  new_room = record {
    participant = create_observer;
    context = open_context 0;
    closed = false;
    emitted = [];
  }

  -- `dispatchRaw` and `dispatchEvent`.
  unfoldable pub dispatch_raw : RoomEntry E → Room A E → Room A E
  unfolding dispatch
  dispatch_raw e r = if r.closed then r else record r { context = dispatch r.context e }

  -- A call about the participant. Where it runs the raw function, that goes on with `dispatchRaw`.
  unfoldable pub call : Participant.Op A → Room A E → Room A E
  unfolding dispatch_raw
  call p r =
      let o = Participant.step p r.participant in
      let u = record r { participant = o } in
      if ltb (raws_run r.participant.ran) (raws_run o.ran) then dispatch_raw departed u else u

  unfoldable pub on_participant_disconnected : Room A E → Room A E
  unfolding enqueue
  on_participant_disconnected r = record r { participant = enqueue (raw 0) r.participant }

  -- The lambdas of `dispatchRaw` and `dispatchEvent`.
  unfoldable pub emit : RoomEntry E → Room A E → Room A E
  emit e r = if r.closed then r else record r { emitted = r.emitted ++ (e ∷ []) }

  -- The JS thread takes the oldest callback of the Room's queue, and runs it.
  unfoldable pub turn : Room A E → Room A E
  unfolding emit
  turn r = if r.context.closed then r else (elim r.context.queue [
    | [] ↦ r
    | e ∷ q ↦ emit e (record r { context = record r.context { queue = q } })
  ])

  -- `close`, as far as it is about the Room's own queue.
  unfoldable pub close_room : Room A E → Room A E
  unfolding close
  close_room r = if r.closed then r else record r { closed = true; context = close r.context }

  unfoldable pub step : Op A E → Room A E → Room A E
  unfolding call dispatch_raw on_participant_disconnected turn close_room
  step (about p) r = call p r
  step (happens e) r = dispatch_raw (room_event e) r
  step departs r = on_participant_disconnected r
  step turns r = turn r
  step closes r = close_room r

  unfoldable pub run : List (Op A E) → Room A E → Room A E
  unfolding step
  run [] r = r
  run (o ∷ os) r = run os (step o r)
