-- ===== src/LocalParticipant.antt =====
-- src/video/local_participant_wrap.h and src/video/local_participant_wrap.cpp: the observer that buffers
-- the local participant's events, and its JS wrap; with `GetLocalParticipant` of
-- src/video/room_wrap.cpp, which makes one wrap and caches it.
-- An event is any value of `A`. A queued callback is the event that the lambda of `dispatchLocked`
-- captures. The JS thread runs one queued callback at a time, oldest first, with any other calls between
-- two of them.
pub mod Carry
pub mod Order
pub mod Connected
pub mod Publish
pub mod Limits
use twilio_video_node.Base.{Bool, true, false, ◌&&◌, ◌||◌, not, List, [], ◌∷◌, ◌++◌, if◌then◌else◌}
use twilio_video_node.Async.{Context, open_context, dispatch, close}

-- The observer's `pending_` and `closed_`; `bound` says that it has its `wrap_` and `ctx_`, and
-- `attached` that the participant has the observer. Then the wrap: whether it is made and not destroyed,
-- its context, whether `eventCallback_` is set. `room` says that the Room has its native room, and
-- `emitted` lists the events that reached the JS callback.
pub record Local {ℓ} (A : Type ℓ) : Type ℓ where
  pub bound : Bool
  pub pending : List A
  pub closed : Bool
  pub attached : Bool
  pub made : Bool
  pub alive : Bool
  pub context : Context A
  pub callback : Bool
  pub room : Bool
  pub emitted : List A

-- The participant's events, and the calls. `disposes` is the end of the Room's `dispose()`, which
-- closes the observer before it.
pub data Op {ℓ} (A : Type ℓ) : Type ℓ where
  raises : A → Op A
  gets sets_callback runs closes disposes destroys : Op A

module _ {ℓ} {A : Type ℓ} where
  -- `CreateObserver`. A context not made yet stands as a new one.
  unfoldable pub create_observer : Local A
  unfolding open_context
  create_observer = record {
    bound = false;
    pending = [];
    closed = false;
    attached = true;
    made = false;
    alive = false;
    context = open_context 0;
    callback = false;
    room = true;
    emitted = [];
  }

  unfoldable pub dispatch_locked : A → Local A → Local A
  unfolding dispatch
  dispatch_locked a l = record l { context = dispatch l.context a }

  unfoldable pub dispatch_event : A → Local A → Local A
  unfolding dispatch_locked
  dispatch_event a l =
      if l.closed
      then l
      else (if l.bound then dispatch_locked a l else record l { pending = l.pending ++ (a ∷ []) })

  -- The loop of `bind`.
  unfoldable pub replay : List A → Local A → Local A
  unfolding dispatch_locked
  replay [] l = l
  replay (a ∷ rest) l = replay rest (dispatch_locked a l)

  unfoldable pub bind : Local A → Local A
  unfolding replay
  bind l =
      if l.closed || l.bound then l else replay l.pending (record l { bound = true; pending = [] })

  unfoldable pub new_instance : Local A → Local A
  unfolding bind open_context
  new_instance l =
      bind (record l { made = true; alive = true; context = open_context 0; callback = false })

  -- `made` says too that the wrap is cached.
  unfoldable pub get_local_participant : Local A → Local A
  unfolding new_instance
  get_local_participant l = if not l.room then l else (if l.made then l else new_instance l)

  unfoldable pub close_observer : Local A → Local A
  close_observer l = if l.closed then l else record l { closed = true; bound = false; pending = [] }

  unfoldable pub set_event_callback : Local A → Local A
  set_event_callback l = record l { callback = true }

  unfoldable pub emit_event : A → Local A → Local A
  emit_event a l = if l.callback then record l { emitted = l.emitted ++ (a ∷ []) } else l

  -- The lambda of `dispatchLocked`.
  unfoldable pub run_queued : A → Local A → Local A
  unfolding emit_event
  run_queued a l = if l.closed || not l.bound then l else emit_event a l

  -- The JS thread takes the oldest callback of the wrap's context, and runs it.
  unfoldable pub run_next : Local A → Local A
  unfolding run_queued
  run_next l = if l.context.closed then l else (elim l.context.queue [
    | [] ↦ l
    | a ∷ q ↦ run_queued a (record l { context = record l.context { queue = q } })
  ])

  -- The destructor.
  unfoldable pub destroy : Local A → Local A
  unfolding close_observer close
  destroy l =
      let u = close_observer (record l { attached = false }) in
      record u { alive = false; callback = false; context = close u.context }

  abbrev pub is_usable : Local A → Bool
  is_usable l = l.made && l.alive

  unfoldable pub step : Op A → Local A → Local A
  unfolding dispatch_event get_local_participant set_event_callback run_next close_observer destroy
  step (raises a) l = dispatch_event a l
  step gets l = get_local_participant l
  step sets_callback l = if is_usable l then set_event_callback l else l
  step runs l = if is_usable l then run_next l else l
  step closes l = close_observer l
  step disposes l = record l { room = false }
  step destroys l = if is_usable l then destroy l else l

  unfoldable pub run : List (Op A) → Local A → Local A
  unfolding step
  run [] l = l
  run (o ∷ os) l = run os (step o l)

  -- The events that the observer takes, while it is open.
  abbrev pub taken : Op A → Local A → List A
  taken (raises a) l = if l.closed then [] else (a ∷ [])
  taken _ l = []

  abbrev pub accepted : List (Op A) → Local A → List A
  unfolding step
  accepted [] l = []
  accepted (o ∷ os) l = taken o l ++ accepted os (step o l)
