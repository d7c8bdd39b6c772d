-- ===== src/Participant.antt =====
-- src/video/remote_participant_wrap.h and src/video/remote_participant_wrap.cpp: the observer that
-- buffers a remote participant's events, and the JS wraps that it is handed to.
-- A wrap is known by the number of wraps made before it for the participant. An event is any value of
-- `A`. A queued callback is the entry that the lambda of `enqueueLocked` captures, and a wrap's context
-- is that of twilio_video_node.Async. The JS thread runs one queued callback at a time, oldest first,
-- with any other calls between two of them (twilio_video_node.Async.Drain has the loop that does so).
pub mod Carry
pub mod Change
pub mod Deliver
pub mod Order
use twilio_video_node.Base.{
  ℕ, zero, suc, Bool, true, false, ◌&&◌, ◌||◌, not, List, [], ◌∷◌, ◌++◌, Option, none, some,
  is_some, ltb, ◌==◌, if◌then◌else◌,
}
use twilio_video_node.Async.{Context, open_context, dispatch, close}

-- PendingEvent: an event to emit, or a function to run on the queue (`rawFn`), by a number.
pub data Entry {ℓ} (A : Type ℓ) : Type ℓ where
  event : A → Entry A
  raw : ℕ → Entry A

-- `callback` says that `eventCallback_` is set.
pub record Wrap {ℓ} (A : Type ℓ) : Type ℓ where
  pub context : Context (Entry A)
  pub alive : Bool
  pub owns_observer_binding : Bool
  pub callback : Bool

-- The observer's `wrap_`, `pending_` and `closed_`, and the participant's wraps. `attached` says that
-- the participant has the observer. `ran` lists the entries that passed the tests of the lambda, with
-- the wrap that got them, and `emitted` the events that reached a JS callback.
pub record Observer {ℓ} (A : Type ℓ) : Type ℓ where
  pub wrap : Option ℕ
  pub pending : List (Entry A)
  pub closed : Bool
  pub attached : Bool
  pub wraps : ℕ → Wrap A
  pub made : ℕ
  pub ran : List (ℕ × Entry A)
  pub emitted : List (ℕ × A)

-- The calls. A wrap is made before anything else is called on it, and destroyed once.
pub data Op {ℓ} (A : Type ℓ) : Type ℓ where
  raises : Entry A → Op A
  creates closes : Op A
  sets_callback runs destroys : ℕ → Op A

module _ {ℓ} {A : Type ℓ} where
  unfoldable pub new_wrap : Wrap A
  unfolding open_context
  new_wrap = record {
    context = open_context 0;
    alive = true;
    owns_observer_binding = false;
    callback = false;
  }

  -- `CreateObserver`. A wrap that is not made yet stands in `wraps` as a new one.
  unfoldable pub create_observer : Observer A
  unfolding new_wrap
  create_observer = record {
    wrap = none;
    pending = [];
    closed = false;
    attached = true;
    wraps = λ w. new_wrap;
    made = 0;
    ran = [];
    emitted = [];
  }

  abbrev pub set_wrap : ℕ → Wrap A → Observer A → Observer A
  set_wrap w x o = record o { wraps = λ v. if v == w then x else o.wraps v }

  unfoldable pub enqueue_locked : ℕ → Entry A → Observer A → Observer A
  unfolding dispatch
  enqueue_locked w e o =
      set_wrap w (record (o.wraps w) { context = dispatch (o.wraps w).context e }) o

  unfoldable pub enqueue : Entry A → Observer A → Observer A
  unfolding enqueue_locked
  enqueue e o = if o.closed then o else (elim o.wrap [
    | none ↦ record o { pending = o.pending ++ (e ∷ []) }
    | some w ↦ enqueue_locked w e o
  ])

  -- The loop of `bind`.
  unfoldable pub replay : ℕ → List (Entry A) → Observer A → Observer A
  unfolding enqueue_locked
  replay w [] o = o
  replay w (e ∷ es) o = replay w es (enqueue_locked w e o)

  unfoldable pub bind : ℕ → Observer A → Observer A × Bool
  unfolding replay
  bind w o =
      if o.closed || is_some o.wrap
      then (o, false)
      else (replay w o.pending (record o { wrap = some w; pending = [] }), true)

  unfoldable pub close_observer : Observer A → Observer A
  close_observer o = if o.closed then o else record o { closed = true; wrap = none; pending = [] }

  unfoldable pub new_instance : Observer A → Observer A
  unfolding bind new_wrap
  new_instance o =
      let w = o.made in
      let (b, bound) = bind w (set_wrap w new_wrap (record o { made = suc w })) in
      set_wrap w (record (b.wraps w) { owns_observer_binding = bound }) b

  unfoldable pub set_event_callback : ℕ → Observer A → Observer A
  set_event_callback w o = set_wrap w (record (o.wraps w) { callback = true }) o

  -- `emitEvent` of the wrap.
  unfoldable pub emit_event : ℕ → A → Observer A → Observer A
  emit_event w a o =
      if (o.wraps w).callback then record o { emitted = o.emitted ++ ((w, a) ∷ []) } else o

  -- What the observer's wrap does with an entry that passed the tests.
  unfoldable pub run_entry : ℕ → Entry A → Observer A → Observer A
  unfolding emit_event
  run_entry v (event a) o = emit_event v a (record o { ran = o.ran ++ ((v, event a) ∷ []) })
  run_entry v (raw f) o = record o { ran = o.ran ++ ((v, raw f) ∷ []) }

  -- The lambda of `enqueueLocked`, on the context of the wrap `w`.
  unfoldable pub run_queued : ℕ → Entry A → Observer A → Observer A
  unfolding run_entry
  run_queued w e o =
      if (o.wraps w).alive && not o.closed
      then (elim o.wrap [ none ↦ o | some v ↦ run_entry v e o ])
      else o

  -- The JS thread takes the oldest callback of the wrap's context, and runs it.
  unfoldable pub run_next : ℕ → Observer A → Observer A
  unfolding run_queued
  run_next w o =
      let c = (o.wraps w).context in
      if c.closed then o else (elim c.queue [
        | [] ↦ o
        | e ∷ q ↦
            run_queued w e (set_wrap w (record (o.wraps w) { context = record c { queue = q } }) o)
      ])

  -- The destructor.
  unfoldable pub destroy : ℕ → Observer A → Observer A
  unfolding close_observer close
  destroy w o =
      let x = o.wraps w in
      let o' =
        set_wrap w (record x { alive = false; callback = false; context = close x.context }) o in
      if x.owns_observer_binding then close_observer (record o' { attached = false }) else o'

  abbrev pub is_usable : ℕ → Observer A → Bool
  is_usable w o = ltb w o.made && (o.wraps w).alive

  unfoldable pub step : Op A → Observer A → Observer A
  unfolding enqueue new_instance close_observer set_event_callback run_next destroy
  step (raises e) o = enqueue e o
  step creates o = new_instance o
  step closes o = close_observer o
  step (sets_callback w) o = if is_usable w o then set_event_callback w o else o
  step (runs w) o = if is_usable w o then run_next w o else o
  step (destroys w) o = if is_usable w o then destroy w o else o

  unfoldable pub run : List (Op A) → Observer A → Observer A
  unfolding step
  run [] o = o
  run (p ∷ ps) o = run ps (step p o)

  -- The entries that the observer takes, while it is open.
  abbrev pub taken : Op A → Observer A → List (Entry A)
  taken (raises e) o = if o.closed then [] else (e ∷ [])
  taken _ o = []

  abbrev pub accepted : List (Op A) → Observer A → List (Entry A)
  unfolding step
  accepted [] o = []
  accepted (p ∷ ps) o = taken p o ++ accepted ps (step p o)
