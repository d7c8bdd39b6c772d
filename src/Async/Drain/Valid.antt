-- ===== src/Async/Drain/Valid.antt =====
-- src/common/async_context.cpp: the states that a context can reach, and that no drain reads a
-- context after its destructor has run.
use twilio_video_node.Base.{
  ℕ, ◌≡◌, ◌⊎◌, Bool, true, false, List, [], ◌∷◌, Option, none, some, arith, is_some,
}
use twilio_video_node.Async.{
  Context, Handle, open_context, dispatch, ref, unref, close, destroy, requeue_front,
}
use twilio_video_node.Async.Drain.{
  Op, System, Callbacks, Move, dispatches, refs, unrefs, closes, destroys, perform, perform_all,
  invoke, on_async, run, initial, report_fatal,
}
use twilio_video_node.Async.Drain.Rule.{Ends, taken, on_async_rule, run_rule}

abbrev pub is_signalled : Option Handle → Bool
is_signalled none = false
is_signalled (some h) = h.signalled

-- A closed context is empty and has no handle, an open one has a handle, a destroyed one is closed,
-- and where something is queued libuv has been told.
pub record IsValid {ℓ} {A : Type ℓ} (c : Context A) : Type ℓ where
  pub closed_empty : c.closed ≡ true → c.queue ≡ []
  pub closed_handle : c.closed ≡ true → c.handle ≡ none
  pub open_handle : c.closed ≡ false → is_some c.handle ≡ true
  pub destroyed_closed : c.alive ≡ false → c.closed ≡ true
  pub woken : (c.queue ≡ []) ⊎ (is_signalled c.handle ≡ true)

module _ {ℓ} {A : Type ℓ} where
  pub open_context-IsValid : (depth : ℕ) → IsValid (open_context {A = A} depth)
  unfolding open_context
  open_context-IsValid depth = ground arith

  pub dispatch-IsValid : (c : Context A) (a : A) → IsValid c → IsValid (dispatch c a)
  unfolding dispatch
  dispatch-IsValid c a v = ground arith

  pub ref-IsValid : (c : Context A) → IsValid c → IsValid (ref c)
  unfolding ref
  ref-IsValid c v = ground arith

  pub unref-IsValid : (c : Context A) → IsValid c → IsValid (unref c)
  unfolding unref
  unref-IsValid c v = ground arith

  pub close-IsValid : (c : Context A) → IsValid c → IsValid (close c)
  unfolding close
  close-IsValid c v = ground arith

  pub destroy-IsValid : (c : Context A) → IsValid c → IsValid (destroy c)
  unfolding destroy
  destroy-IsValid c v = ground arith

  pub requeue_front-IsValid :
      (c : Context A) (pending : List A) → IsValid c → IsValid (requeue_front c pending)
  unfolding requeue_front
  requeue_front-IsValid c [] v = v
  requeue_front-IsValid c (a ∷ pending) v = ground arith

  pub perform-IsValid :
      (o : Op A) (s : System A) → IsValid s.context → IsValid (perform o s).context
  unfolding perform
  perform-IsValid (dispatches a) s v = ground (arith, dispatch-IsValid s.context a v)
  perform-IsValid refs s v = ground (arith, ref-IsValid s.context v)
  perform-IsValid unrefs s v = ground (arith, unref-IsValid s.context v)
  perform-IsValid closes s v = ground (arith, close-IsValid s.context v)
  perform-IsValid destroys s v = ground (arith, destroy-IsValid s.context v)

  pub perform_all-IsValid :
      (os : List (Op A)) (s : System A) → IsValid s.context → IsValid (perform_all os s).context
  unfolding perform_all
  perform_all-IsValid [] s v = v
  perform_all-IsValid (o ∷ os) s v = perform_all-IsValid os (perform o s) (perform-IsValid o s v)

  module _ (call : Callbacks A) where
    pub invoke-IsValid :
        (a : A) (s : System A) → IsValid s.context → IsValid (invoke call a s).context
    unfolding invoke
    invoke-IsValid a s v = perform_all-IsValid (call s.ran a).0 _ v

    pub taken-IsValid :
        (s : System A) (h : Handle)
        → IsValid s.context
        → s.context.handle ≡ some h
        → (s.context.alive ≡ true) × (s.context.closed ≡ false) × IsValid (taken h s).context
    taken-IsValid s h v e = (ground arith, ground arith, ground arith)

    pub on_async-IsValid :
        (s : System A) → IsValid s.context → Ends (λ t. IsValid t.context) (on_async call s)
    on_async-IsValid s v =
        on_async_rule call (λ rest t. IsValid t.context) (λ t. IsValid t.context)
          (λ rest t w. w.destroyed_closed) (λ a rest t w l o. invoke-IsValid a t w) (λ t w. w)
          (λ rest t w c. w) (λ rest t w. requeue_front-IsValid t.context rest w)
          (λ e t w. unfold report_fatal in w) s (λ e. v) (λ h e. taken-IsValid s h v e)

    -- The context is destroyed on the JS thread only: by a callback that it runs, or between two of its
    -- drains. Whatever the callbacks do and throw, that included, and whatever other threads dispatch,
    -- hold, release or close while a callback runs or between two drains: no drain reads the context after its destructor, every run comes to its end, and the
    -- context is then closed, empty and without a handle, or open with libuv told of what is queued.
    pub no_use_after_free :
        (depth : ℕ) (moves : List (Move A))
        → Ends (λ t. IsValid t.context) (run call moves (initial depth))
    no_use_after_free depth moves =
        run_rule call (λ t. IsValid t.context) perform-IsValid on_async-IsValid moves
          (initial depth) (unfold initial in (open_context-IsValid depth))
