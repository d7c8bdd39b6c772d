-- ===== src/Async.antt =====
-- src/common/async_context.h and src/common/async_context.cpp: the queue of callbacks between the
-- media and signalling threads and the JS thread.
-- A queued `std::function` is an entry of any type `A`: what running one does is given to the
-- modules below by the caller. Each method that takes `mutex_` is one function here.
pub mod Queue
pub mod Drain
use twilio_video_node.Base.{
  ℕ, ◌+◌, Bool, true, false, ◌&&◌, List, [], ◌∷◌, ◌++◌, Option, none, some, ltb, leb, length, u64,
  if◌then◌else◌,
}

-- The `uv_async_t` behind `async_`. `signalled` says that `uv_async_send` was called and libuv has
-- not run `onAsync` since: libuv joins such calls into one.
pub record Handle : Type 0 where
  pub referenced : Bool
  pub signalled : Bool

-- `handle` is `none` once `close()` has cleared `async_` and the handle's `data`.
pub record Context {ℓ} (A : Type ℓ) : Type ℓ where
  pub queue : List A
  pub closed : Bool
  pub dropped : ℕ
  pub max_queue_depth : ℕ
  pub handle : Option Handle
  pub alive : Bool

abbrev pub default_max_queue_depth : ℕ
default_max_queue_depth = 5

-- uv_async_send
abbrev pub send : Option Handle → Option Handle
send none = none
send (some h) = some (record h { signalled = true })

-- uv_ref and uv_unref
abbrev pub set_referenced : Bool → Option Handle → Option Handle
set_referenced b none = none
set_referenced b (some h) = some (record h { referenced = b })

module _ {ℓ} {A : Type ℓ} where
  -- The constructor: an open context whose handle is unreferenced.
  unfoldable pub open_context : ℕ → Context A
  open_context depth = record {
    queue = [];
    closed = false;
    dropped = 0;
    max_queue_depth = depth;
    handle = some (record { referenced = false; signalled = false });
    alive = true;
  }

  -- The loop of `dispatch` that drops the oldest entries, with the counter that it raises.
  unfoldable pub shed : ℕ → List A → ℕ → List A × ℕ
  shed depth [] n = ([], n)
  shed depth (a ∷ q) n = elim (ltb 0 depth && leb depth (length (a ∷ q))) [
    | true ↦ shed depth q (u64 (n + 1))
    | false ↦ (a ∷ q, n)
  ]

  unfoldable pub dispatch : Context A → A → Context A
  dispatch c a =
      if c.closed
      then c
      else (let (kept, n) = shed c.max_queue_depth c.queue c.dropped in
          record c { queue = kept ++ (a ∷ []); dropped = n; handle = send c.handle })

  unfoldable pub ref : Context A → Context A
  ref c = record c { handle = set_referenced true c.handle }

  unfoldable pub unref : Context A → Context A
  unref c = record c { handle = set_referenced false c.handle }

  unfoldable pub queue_depth : Context A → ℕ
  queue_depth c = length c.queue

  unfoldable pub close : Context A → Context A
  close c = if c.closed then c else record c { closed = true; queue = []; handle = none }

  -- The destructor.
  unfoldable pub destroy : Context A → Context A
  unfolding close
  destroy c = close (record c { alive = false })

  -- `pending` is what a drain had taken and not yet run.
  unfoldable pub requeue_front : Context A → List A → Context A
  requeue_front c [] = c
  requeue_front c (a ∷ pending) =
      if c.closed then c else record c { queue = (a ∷ pending) ++ c.queue; handle = send c.handle }
