-- ===== src/Async/Drain/Progress.antt =====
-- src/common/async_context.cpp: every queued callback runs, throwing ones among them included.
use twilio_video_node.Base.{
  ℕ, zero, suc, ◌≤◌, ◌≡◌, refl, true, false, List, [], ◌∷◌, ◌++◌, append-nil, append_assoc, some,
  none, arith, length, inl, inr, Option-cases, Option, replicate, is_some,
}
use twilio_video_node.Async.{Handle, requeue_front}
use twilio_video_node.Async.Drain.{
  System, Outcome, Thrown, Callbacks, fires, perform_all, invoke, after_call, drain_loop, on_async,
  run, report_fatal,
}
use twilio_video_node.Async.Drain.Rule.{
  Ends, taken, requeued, drain_loop_open, after_call_threw, after_call_returned, on_async_open,
  run_fires,
}
use twilio_video_node.Async.Drain.Valid.{IsValid}

module _ {ℓ} {A : Type ℓ} where
  nil_of_length : (q : List A) → length q ≤ 0 → q ≡ []
  nil_of_length [] h = refl
  nil_of_length (a ∷ q) h = absurd (omega arith)

  -- An open context where what has run, with what is queued behind it, is `all`, and at most `bound`
  -- are queued.
  record IsRunning (all : List A) (bound : ℕ) (t : System A) : Type ℓ where
    living : t.context.alive ≡ true
    opened : t.context.closed ≡ false
    in_place : is_some t.context.handle ≡ true
    in_order : t.ran ++ t.context.queue ≡ all
    bounded : length t.context.queue ≤ bound

  requeued-IsRunning :
      (e : Thrown) (rest : List A) (b : ℕ) (s : System A)
      → IsRunning s.ran 0 s
      → length rest ≤ b
      → IsRunning (s.ran ++ rest) b (report_fatal e (requeued rest s))
  unfolding report_fatal requeue_front
  requeued-IsRunning e [] b s v h = ground (arith, append-nil s.ran)
  requeued-IsRunning e (a ∷ rest) b s v h =
      ground (arith, nil_of_length s.context.queue v.bounded, append-nil rest)

  called : A → System A → System A
  called a s = record s { ran = s.ran ++ (a ∷ []) }

  called-IsRunning :
      (a : A) (s : System A) → IsRunning s.ran 0 s → IsRunning (called a s).ran 0 (called a s)
  unfolding called
  called-IsRunning a s v =
      ground (arith, nil_of_length s.context.queue v.bounded, append-nil (s.ran ++ (a ∷ [])))

  taken-IsRunning :
      (h : Handle) (all : List A) (b : ℕ) (s : System A)
      → IsRunning all b s
      → IsRunning (taken h s).ran 0 (taken h s)
  taken-IsRunning h all b s v = ground (arith, append-nil s.ran)

  module _ (call : Callbacks A) (quiet : (history : List A) (a : A) → (call history a).0 ≡ []) where
    invoke_quiet : (a : A) (s : System A) → invoke call a s ≡ called a s
    unfolding invoke perform_all called
    invoke_quiet a s = rw (quiet s.ran a)

    after_call-IsRunning :
        (o : Option Thrown) (rest : List A) (b : ℕ) (k : System A → Outcome (System A))
        (s : System A)
        → IsRunning s.ran 0 s
        → length rest ≤ b
        → Ends (IsRunning (s.ran ++ rest) b) (k s)
        → Ends (IsRunning (s.ran ++ rest) b) (after_call call o rest k s)
    after_call-IsRunning (some e) rest b k s v h r =
        (_, after_call_threw call rest k s e v.living, requeued-IsRunning e rest b s v h)
    after_call-IsRunning none rest b k s v h r = rw (after_call_returned call rest k s v.living) r

    drain_loop-IsRunning :
        (q : List A) (b : ℕ) (s : System A)
        → IsRunning s.ran 0 s
        → length q ≤ suc b
        → Ends (IsRunning (s.ran ++ q) b) (drain_loop call q s)
    unfolding called
    drain_loop-IsRunning [] b s v h = (
      s,
      unfold drain_loop in refl,
      ground (arith, append-nil s.ran, nil_of_length s.context.queue v.bounded),
    )
    drain_loop-IsRunning (a ∷ rest) b s v h =
        let next = called-IsRunning a s v in
        rw (drain_loop_open call a rest s v.living v.opened, invoke_quiet a s)
          (rw (← append_assoc s.ran (a ∷ []) rest) (
            after_call-IsRunning (call s.ran a).1 rest b (drain_loop call rest) (called a s) next
              (omega arith) (drain_loop-IsRunning rest b (called a s) next (omega arith))))

    fires-IsRunning :
        (all : List A) (b : ℕ) (s : System A)
        → IsRunning all (suc b) s
        → Ends (IsRunning all b) (on_async call s)
    fires-IsRunning all b s v = elim (Option-cases s.context.handle) [
      | inl e ↦ absurd (ground arith)
      | inr (h, e) ↦
          rw (on_async_open call s h e v.living v.opened, ← v.in_order)
            (drain_loop-IsRunning s.context.queue b (taken h s) (taken-IsRunning h all (suc b) s v)
              v.bounded)
    ]

    rounds-IsRunning :
        (all : List A) (n : ℕ) (s : System A)
        → IsRunning all n s
        → Ends (IsRunning all 0) (run call (replicate n fires) s)
    rounds-IsRunning all zero s v = (s, unfold run in refl, v)
    rounds-IsRunning all (suc n) s v =
        let (t, e, w) = fires-IsRunning all n s v in
        rw (run_fires call (replicate n fires) s t e) (rounds-IsRunning all n t w)

    -- Where the callbacks make no call of the context, `n` answers of libuv run all of up to `n` queued
    -- callbacks, in order, whichever of them throw.
    pub drains_all :
        (n : ℕ) (s : System A)
        → IsValid s.context
        → s.context.closed ≡ false
        → length s.context.queue ≤ n
        → Ends
            (λ t. (t.ran ≡ s.ran ++ s.context.queue) × (t.context.queue ≡ []))
            (run call (replicate n fires) s)
    drains_all n s v o h =
        let (t, e, w) = rounds-IsRunning (s.ran ++ s.context.queue) n s (ground arith) in
        let empty = nil_of_length t.context.queue w.bounded in
        (t, e, (ground (arith, empty, append-nil t.ran), empty))
