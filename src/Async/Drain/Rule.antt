-- ===== src/Async/Drain/Rule.antt =====
-- src/common/async_context.cpp, `AsyncContext::drain`: the loop's steps as equations, and the rule
-- by which a property of the loop is proved once for every way out of it.
use twilio_video_node.Base.{
  ◌≡◌, refl, inl, inr, true, false, List, [], ◌∷◌, Option, none, some, arith, Bool-cases,
  Option-cases,
}
use twilio_video_node.Async.{Handle, requeue_front}
use twilio_video_node.Async.Drain.{
  Thrown, Op, Move, System, Outcome, Callbacks, calls, fires, done, perform, run, invoke,
  after_call, drain_loop, drain, on_async, report_fatal, answered,
}

-- The run comes to an end without a read of a destroyed context, and in a state with `R`.
abbrev pub Ends {ℓ κ} : {A : Type ℓ} → (System A → Type κ) → Outcome (System A) → Type (ℓ ⊔ κ)
Ends {A = A} R o = (t : System A) × (o ≡ done t) × R t

module _ {ℓ} {A : Type ℓ} where
  abbrev pub requeued : List A → System A → System A
  requeued rest s = record s { context = requeue_front s.context rest }

  -- What `drain` starts its loop on, once `onAsync` has found the context.
  abbrev pub taken : Handle → System A → System A
  taken h s = record s { context = record s.context { queue = []; handle = some (answered h) } }

  module _ (call : Callbacks A) where
    drain_loop_closed :
        (a : A) (rest : List A) (s : System A)
        → s.context.alive ≡ true
        → s.context.closed ≡ true
        → drain_loop call (a ∷ rest) s ≡ done s
    unfolding drain_loop
    drain_loop_closed a rest s l c = ground arith

    pub drain_loop_open :
        (a : A) (rest : List A) (s : System A)
        → s.context.alive ≡ true
        → s.context.closed ≡ false
        → drain_loop call (a ∷ rest) s
          ≡ after_call call (call s.ran a).1 rest (drain_loop call rest) (invoke call a s)
    drain_loop_open a rest s l c = unfold drain_loop in (ground arith)

    module _ (rest : List A) (k : System A → Outcome (System A)) (s : System A) where
      pub after_call_threw :
          (e : Thrown)
          → s.context.alive ≡ true
          → after_call call (some e) rest k s ≡ done (report_fatal e (requeued rest s))
      unfolding after_call
      after_call_threw e l = ground arith

      after_call_threw_destroyed :
          (e : Thrown)
          → s.context.alive ≡ false
          → after_call call (some e) rest k s ≡ done (report_fatal e s)
      unfolding after_call
      after_call_threw_destroyed e l = ground arith

      pub after_call_returned : s.context.alive ≡ true → after_call call none rest k s ≡ k s
      unfolding after_call
      after_call_returned l = ground arith

      after_call_returned_destroyed :
          s.context.alive ≡ false → after_call call none rest k s ≡ done s
      unfolding after_call
      after_call_returned_destroyed l = ground arith

    on_async_closed : (s : System A) → s.context.handle ≡ none → on_async call s ≡ done s
    unfolding on_async
    on_async_closed s e = ground arith

    pub on_async_open :
        (s : System A) (h : Handle)
        → s.context.handle ≡ some h
        → s.context.alive ≡ true
        → s.context.closed ≡ false
        → on_async call s ≡ drain_loop call s.context.queue (taken h s)
    on_async_open s h e l o = unfold on_async drain in (ground arith)

    run-calls :
        (o : Op A) (moves : List (Move A)) (s : System A)
        → run call (calls o ∷ moves) s ≡ run call moves (perform o s)
    unfolding run
    run-calls o moves s = refl

    pub run_fires :
        (moves : List (Move A)) (s t : System A)
        → on_async call s ≡ done t
        → run call (fires ∷ moves) s ≡ run call moves t
    unfolding run
    run_fires moves s t e = ground arith

    -- `P rest s` holds at the head of the loop, with `rest` still to run, and `R` where it ends.
    module _ {κ} (P : List A → System A → Type κ) (R : System A → Type κ)
        (destroyed_closed : (rest : List A) (s : System A)
          → P rest s
          → s.context.alive ≡ false
          → s.context.closed ≡ true)
        (step : (a : A) (rest : List A) (s : System A)
          → P (a ∷ rest) s
          → s.context.alive ≡ true
          → s.context.closed ≡ false
          → P rest (invoke call a s))
        (finish : (s : System A) → P [] s → R s)
        (stop : (rest : List A) (s : System A) → P rest s → s.context.closed ≡ true → R s)
        (requeue : (rest : List A) (s : System A) → P rest s → R (requeued rest s))
        (fatal : (e : Thrown) (s : System A) → R s → R (report_fatal e s)) where
      after_call_rule :
          (o : Option Thrown) (rest : List A) (k : System A → Outcome (System A)) (s : System A)
          → P rest s
          → (s.context.alive ≡ true → Ends R (k s))
          → Ends R (after_call call o rest k s)
      after_call_rule (some e) rest k s p h = elim (Bool-cases s.context.alive) [
        | inl l ↦ (_, after_call_threw rest k s e l, fatal e _ (requeue rest s p))
        | inr d ↦ (
          _,
          after_call_threw_destroyed rest k s e d,
          fatal e s (stop rest s p (destroyed_closed rest s p d)),
        )
      ]
      after_call_rule none rest k s p h = elim (Bool-cases s.context.alive) [
        | inl l ↦ rw (after_call_returned rest k s l) (h l)
        | inr d ↦ (
          s,
          after_call_returned_destroyed rest k s d,
          stop rest s p (destroyed_closed rest s p d),
        )
      ]

      pub drain_loop_rule :
          (q : List A) (s : System A)
          → P q s
          → s.context.alive ≡ true
          → Ends R (drain_loop call q s)
      drain_loop_rule [] s p l = (s, unfold drain_loop in refl, finish s p)
      drain_loop_rule (a ∷ rest) s p l = elim (Bool-cases s.context.closed) [
        | inl c ↦ (s, drain_loop_closed a rest s l c, stop (a ∷ rest) s p c)
        | inr o ↦ rw (drain_loop_open a rest s l o) (
            after_call_rule (call s.ran a).1 rest (drain_loop call rest) (invoke call a s)
              (step a rest s p l o) (drain_loop_rule rest (invoke call a s) (step a rest s p l o)))
      ]

      -- The same for libuv's callback: on a handle in place the loop starts with all that is queued.
      pub on_async_rule :
          (s : System A)
          → (s.context.handle ≡ none → R s)
          → ((h : Handle)
              → s.context.handle ≡ some h
              → (s.context.alive ≡ true)
                × (s.context.closed ≡ false)
                × P s.context.queue (taken h s))
          → Ends R (on_async call s)
      on_async_rule s closed opened = elim (Option-cases s.context.handle) [
        | inl e ↦ (s, on_async_closed s e, closed e)
        | inr (h, e) ↦
            let (l, o, p) = opened h e in
            rw (on_async_open s h e l o) (drain_loop_rule s.context.queue (taken h s) p l)
      ]

    -- What every call and every answer of libuv keep, a whole history keeps.
    pub run_rule {κ} :
        (R : System A → Type κ)
        → ((o : Op A) (s : System A) → R s → R (perform o s))
        → ((s : System A) → R s → Ends R (on_async call s))
        → (moves : List (Move A)) (s : System A) → R s
        → Ends R (run call moves s)
    run_rule R called fired [] s r = (s, unfold run in refl, r)
    run_rule R called fired (calls o ∷ moves) s r =
        rw (run-calls o moves s) (run_rule R called fired moves (perform o s) (called o s r))
    run_rule R called fired (fires ∷ moves) s r =
        let (t, e, rt) = fired s r in
        rw (run_fires moves s t e) (run_rule R called fired moves t rt)
