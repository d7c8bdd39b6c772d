-- ===== src/Sink.antt =====
-- src/sinks/audio_frame_sink.h, audio_frame_sink.cpp, video_frame_sink.h and video_frame_sink.cpp in the
-- same folder: the sinks that carry a remote track's frames to its JS callback.
-- Both sinks handle their state alike, and it is modelled once, over the type `D` of a frame's data.
-- The queue is a context of twilio_video_node.Async. Its `drain` takes the whole queue and then runs what
-- it took, one callback at a time, with any other calls in between.
pub mod Count
pub mod Media
pub mod Loop
pub mod Video
use twilio_video_node.Base.{
  ℕ, suc, Bool, true, false, ◌||◌, not, List, [], ◌∷◌, ◌++◌, Option, none, some, u32, if◌then◌else◌,
}
use twilio_video_node.Async.{Context, open_context, dispatch, close, queue_depth, requeue_front}

-- `callback` says that `callback_` is not empty. `taken` is what the running `drain` has yet to run, and
-- `delivered` lists the frames given to the callback.
pub record Sink {ℓ} (D : Type ℓ) : Type ℓ where
  pub context : Option (Context D)
  pub closed : Bool
  pub callback : Bool
  pub next_frame_id : ℕ
  pub native_dropped : ℕ
  pub taken : List D
  pub delivered : List D

module _ {ℓ} {D : Type ℓ} where
  -- The constructors, with the bound of the queue.
  unfoldable pub new_sink : ℕ → Sink D
  unfolding open_context
  new_sink depth = record {
    context = some (open_context depth);
    closed = false;
    callback = true;
    next_frame_id = 0;
    native_dropped = 0;
    taken = [];
    delivered = [];
  }

  unfoldable pub close_sink : Sink D → Sink D
  unfolding close
  close_sink s = if s.closed then s else (elim s.context [
    | none ↦ record s { closed = true; callback = false }
    | some c ↦ record s {
      closed = true;
      callback = false;
      native_dropped = c.dropped;
      context = none;
    }
  ])

  unfoldable pub deliver_frame : D → Sink D → Sink D
  unfolding dispatch
  deliver_frame d s =
      if s.closed
      then s
      else (elim s.context [ none ↦ s | some c ↦ record s { context = some (dispatch c d) } ])

  -- `OnData` and `OnFrame`, given what makes the frame's data with its id.
  unfoldable pub on_frame : (ℕ → D) → Sink D → Sink D
  unfolding deliver_frame
  on_frame make s =
      if s.closed
      then s
      else deliver_frame (make s.next_frame_id)
          (record s { next_frame_id = u32 (suc s.next_frame_id) })

  -- The lambda of `deliverFrame`.
  unfoldable pub run_frame : D → Sink D → Sink D
  run_frame d s =
      if s.closed || not s.callback then s else record s { delivered = s.delivered ++ (d ∷ []) }

  -- `drain`, up to its loop.
  unfoldable pub start_drain : Sink D → Sink D
  start_drain s = elim s.context [
    | none ↦ s
    | some c ↦
        if c.closed
        then s
        else record s { taken = c.queue; context = some (record c { queue = [] }) }
  ]

  -- One round of the loop of `drain`. A context closed or gone ends the loop.
  unfoldable pub run_taken : D → List D → Sink D → Sink D
  unfolding run_frame
  run_taken d rest s = elim s.context [
    | none ↦ record s { taken = [] }
    | some c ↦ if c.closed then record s { taken = [] } else run_frame d (record s { taken = rest })
  ]

  -- A round whose callback throws: the rest goes back to the front of the queue.
  unfoldable pub throw_taken : D → List D → Sink D → Sink D
  unfolding run_frame requeue_front
  throw_taken d rest s = elim s.context [
    | none ↦ record s { taken = [] }
    | some c ↦
        if c.closed
        then record s { taken = [] }
        else record (run_frame d s) { taken = []; context = some (requeue_front c rest) }
  ]

  -- What the JS thread does next for the sink.
  unfoldable pub run_next : Sink D → Sink D
  unfolding start_drain run_taken
  run_next s = elim s.taken [ [] ↦ start_drain s | d ∷ rest ↦ run_taken d rest s ]

  unfoldable pub throw_next : Sink D → Sink D
  unfolding throw_taken
  throw_next s = elim s.taken [ [] ↦ s | d ∷ rest ↦ throw_taken d rest s ]

  unfoldable pub dropped_count : Sink D → ℕ
  dropped_count s = elim s.context [ none ↦ s.native_dropped | some c ↦ c.dropped ]

  unfoldable pub sink_depth : Sink D → ℕ
  unfolding queue_depth
  sink_depth s = elim s.context [ none ↦ 0 | some c ↦ queue_depth c ]

-- The calls of a sink, in any order: frames from WebRTC, turns of the JS thread, also those in which the
-- callback throws, and `close`.
pub data Op {ℓ} (D : Type ℓ) : Type ℓ where
  frames : (ℕ → D) → Op D
  turns throws closes : Op D

module _ {ℓ} {D : Type ℓ} where
  unfoldable pub step : Op D → Sink D → Sink D
  unfolding on_frame run_next throw_next close_sink
  step (frames make) s = on_frame make s
  step turns s = run_next s
  step throws s = throw_next s
  step closes s = close_sink s

  unfoldable pub run : List (Op D) → Sink D → Sink D
  unfolding step
  run [] s = s
  run (o ∷ os) s = run os (step o s)
