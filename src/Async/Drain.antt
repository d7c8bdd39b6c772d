-- ===== src/Async/Drain.antt =====
-- src/common/async_context.cpp, `onAsync`, `drain` and `reportFatal`, and what surrounds them: the
-- callbacks that have run, and the exceptions that reached `napi_fatal_exception`.
-- While a callback runs, it may do anything to the context, and the other threads may call it: a parameter
-- says which calls are made, for each callback and each history of callbacks run before it. A history
-- comes up once, so such a parameter covers every state of the JS world. The owners of a context destroy
-- it on the JS thread, in a callback or between two drains: a destructor that runs on another thread in
-- the midst of a drain is not modelled. A call of another thread that falls between two reads of `drain`,
-- each of them an atomic or under the lock, is taken to fall into the callback next to it.
pub mod Rule
pub mod Valid
pub mod Order
pub mod Progress
pub mod Counted
use twilio_video_node.Base.{
  ℕ, Bool, true, false, List, [], ◌∷◌, ◌++◌, Option, none, some, String, if◌then◌else◌,
}
use twilio_video_node.Async.{
  Context, Handle, open_context, dispatch, ref, unref, close, destroy, requeue_front,
}

-- What a callback can throw. A `Napi::Error` carries a JS value, here by its text.
pub data Thrown : Type 0 where
  napi_error : String → Thrown
  std_exception : String → Thrown
  unknown : Thrown

-- The text of the error that the three handlers of `drain` pass to `reportFatal`.
unfoldable pub reported : Thrown → String
reported (napi_error e) = e
reported (std_exception what) = what
reported unknown = "Unknown C++ exception in event callback"

-- The calls on a context: `destroys` from the JS thread, the others from any thread.
pub data Op {ℓ} (A : Type ℓ) : Type ℓ where
  dispatches : A → Op A
  refs unrefs closes destroys : Op A

-- `accepted` lists the callbacks given to `dispatch` while the context was open, and `ran` those that
-- were called, each oldest first. `fatal` lists what was passed to `napi_fatal_exception`.
pub record System {ℓ} (A : Type ℓ) : Type ℓ where
  pub context : Context A
  pub accepted : List A
  pub ran : List A
  pub fatal : List String

-- What a run makes of `drain` reading a member of a context whose destructor has run.
pub data Outcome {ℓ} (S : Type ℓ) : Type ℓ where
  done : S → Outcome S
  use_after_free : Outcome S

-- The calls made while a callback runs, and what it throws.
abbrev pub Callbacks {ℓ} : Type ℓ → Type ℓ
Callbacks A = List A → A → List (Op A) × Option Thrown

pub data Move {ℓ} (A : Type ℓ) : Type ℓ where
  calls : Op A → Move A
  fires : Move A

abbrev pub answered : Handle → Handle
answered h = record h { signalled = false }

module _ {ℓ} {A : Type ℓ} where
  abbrev pub accept : Context A → A → List A → List A
  accept c a log = if c.closed then log else log ++ (a ∷ [])

  -- A destroyed context has no owner left that could call it.
  unfoldable pub perform : Op A → System A → System A
  perform (dispatches a) s =
      if s.context.alive
      then record s { context = dispatch s.context a; accepted = accept s.context a s.accepted }
      else s
  perform refs s = if s.context.alive then record s { context = ref s.context } else s
  perform unrefs s = if s.context.alive then record s { context = unref s.context } else s
  perform closes s = if s.context.alive then record s { context = close s.context } else s
  perform destroys s = if s.context.alive then record s { context = destroy s.context } else s

  unfoldable pub perform_all : List (Op A) → System A → System A
  perform_all [] s = s
  perform_all (o ∷ os) s = perform_all os (perform o s)

  unfoldable pub report_fatal : Thrown → System A → System A
  unfolding reported
  report_fatal e s = record s { fatal = s.fatal ++ (reported e ∷ []) }

  -- A member of the context is read: that needs the context to be there.
  abbrev pub reading : System A → Outcome (System A) → Outcome (System A)
  reading s k = if s.context.alive then k else use_after_free

  module _ (call : Callbacks A) where
    -- `fn(env)`
    unfoldable pub invoke : A → System A → System A
    invoke a s = perform_all (call s.ran a).0 (record s { ran = s.ran ++ (a ∷ []) })

    -- From the handlers to the end of the loop's body: `alive` is the copy that `drain` holds, and
    -- `continue` the rest of the loop.
    unfoldable pub after_call :
        Option Thrown → List A → (System A → Outcome (System A)) → System A → Outcome (System A)
    unfolding report_fatal
    after_call (some e) rest continue s =
        if s.context.alive
        then reading s (done (report_fatal e (record s { context = requeue_front s.context rest })))
        else done (report_fatal e s)
    after_call none rest continue s = elim s.context.alive [ true ↦ continue s | false ↦ done s ]

    -- The loop of `drain` over what it has taken.
    unfoldable pub drain_loop : List A → System A → Outcome (System A)
    drain_loop [] s = done s
    drain_loop (a ∷ rest) s = reading s (
        if s.context.closed
        then done s
        else after_call (call s.ran a).1 rest (drain_loop rest) (invoke a s))

    unfoldable pub drain : System A → Outcome (System A)
    drain s = reading s (
        if s.context.closed
        then done s
        else drain_loop s.context.queue (record s { context = record s.context { queue = [] } }))

    -- libuv runs `onAsync`. A handle that has been closed finds no context in its `data`.
    unfoldable pub on_async : System A → Outcome (System A)
    on_async s = elim s.context.handle [
      | none ↦ done s
      | some h ↦ drain (record s { context = record s.context { handle = some (answered h) } })
    ]

    -- What happens to a context, in order: a call of it from outside a drain, or libuv's callback.
    unfoldable pub run : List (Move A) → System A → Outcome (System A)
    run [] s = done s
    run (calls o ∷ moves) s = run moves (perform o s)
    run (fires ∷ moves) s = elim (on_async s) [
      | done t ↦ run moves t
      | use_after_free ↦ use_after_free
    ]

-- A context just made, of the given depth.
unfoldable pub initial {ℓ} : {A : Type ℓ} → ℕ → System A
unfolding open_context
initial depth = record { context = open_context depth; accepted = []; ran = []; fatal = [] }
