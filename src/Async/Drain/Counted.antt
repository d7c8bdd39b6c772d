-- ===== src/Async/Drain/Counted.antt =====
-- src/common/async_context.h, `droppedCount`: no callback goes missing without being counted.
use twilio_video_node.Base.{
  ℕ, suc, ◌+◌, ◌≡◌, refl, ◌⊎◌, true, false, List, [], ◌∷◌, arith, length, length-append, u64, inl,
  inr, Bool-cases, ◌&&◌, ltb, leb,
}
use twilio_video_node.Async.{
  Context, shed, open_context, dispatch, ref, unref, close, destroy, requeue_front,
}
use twilio_video_node.Async.Drain.{
  Op, System, Callbacks, Move, dispatches, refs, unrefs, closes, destroys, perform, perform_all,
  invoke, on_async, run, initial, report_fatal,
}
use twilio_video_node.Async.Drain.Rule.{Ends, requeued, on_async_rule, run_rule}
use twilio_video_node.Async.Drain.Valid.{
  IsValid, open_context-IsValid, perform-IsValid, requeue_front-IsValid, invoke-IsValid,
  taken-IsValid,
}

module _ {ℓ} {A : Type ℓ} where
  shed_counted :
      (depth : ℕ) (q : List A) (n : ℕ)
      → u64 (length (shed depth q n).0 + (shed depth q n).1) ≡ u64 (length q + n)
  unfolding shed
  shed_counted depth [] n = refl
  shed_counted depth (a ∷ q) n = elim (Bool-cases (ltb 0 depth && leb depth (length (a ∷ q)))) [
    | inl full ↦ rw (full, shed) (omega (arith, shed_counted depth q (u64 (n + 1))))
    | inr room ↦ rw (room, shed)
  ]

  dispatch_counted :
      (c : Context A) (a : A)
      → c.closed ≡ false
      → u64 (length (dispatch c a).queue + (dispatch c a).dropped)
        ≡ u64 (length c.queue + suc c.dropped)
  unfolding dispatch
  dispatch_counted c a o =
      let kept = (shed c.max_queue_depth c.queue c.dropped).0 in
      ground (arith, shed_counted c.max_queue_depth c.queue c.dropped, length-append kept (a ∷ []))

  closed-dispatch : (c : Context A) (a : A) → (dispatch c a).closed ≡ c.closed
  unfolding dispatch
  closed-dispatch c a = ground arith

  alive-dispatch : (c : Context A) (a : A) → (dispatch c a).alive ≡ c.alive
  unfolding dispatch
  alive-dispatch c a = ground arith

  -- With `rest` taken by a drain and not yet run, an open context accounts for all it accepted.
  record IsCounted (rest : List A) (s : System A) : Type ℓ where
    counted :
        s.context.closed ≡ false
        → u64 (length s.ran + length rest + length s.context.queue + s.context.dropped)
          ≡ u64 (length s.accepted)
    destroyed_closed : s.context.alive ≡ false → s.context.closed ≡ true

  perform-IsCounted :
      (o : Op A) (rest : List A) (s : System A) → IsCounted rest s → IsCounted rest (perform o s)
  unfolding perform
  perform-IsCounted (dispatches a) rest s v = ground (
    arith,
    dispatch_counted s.context a,
    closed-dispatch s.context a,
    alive-dispatch s.context a,
    length-append s.accepted (a ∷ []),
  )
  perform-IsCounted refs rest s v = unfold ref in (ground arith)
  perform-IsCounted unrefs rest s v = unfold unref in (ground arith)
  perform-IsCounted closes rest s v = unfold close in (ground arith)
  perform-IsCounted destroys rest s v = unfold destroy in (ground arith)

  perform_all-IsCounted :
      (os : List (Op A)) (rest : List A) (s : System A)
      → IsCounted rest s
      → IsCounted rest (perform_all os s)
  unfolding perform_all
  perform_all-IsCounted [] rest s v = v
  perform_all-IsCounted (o ∷ os) rest s v =
      perform_all-IsCounted os rest (perform o s) (perform-IsCounted o rest s v)

  requeued-IsCounted :
      (rest : List A) (s : System A) → IsCounted rest s → IsCounted [] (requeued rest s)
  unfolding requeue_front
  requeued-IsCounted [] s v = v
  requeued-IsCounted (a ∷ rest) s v = ground (arith, length-append rest s.context.queue)

  module _ (call : Callbacks A) where
    invoke-IsCounted :
        (a : A) (rest : List A) (s : System A)
        → IsCounted (a ∷ rest) s
        → IsCounted rest (invoke call a s)
    unfolding invoke
    invoke-IsCounted a rest s v =
        perform_all-IsCounted (call s.ran a).0 rest _ (ground (arith, length-append s.ran (a ∷ [])))

    abbrev Kept : List A → System A → Type ℓ
    Kept rest s = IsCounted rest s × IsValid s.context

    on_async-Kept : (s : System A) → Kept [] s → Ends (Kept []) (on_async call s)
    on_async-Kept s (v, w) =
        on_async_rule call Kept (Kept []) (λ rest t k. k.0.destroyed_closed)
          (λ a rest t k l o. (invoke-IsCounted a rest t k.0, invoke-IsValid call a t k.1))
          (λ t k. k) (λ rest t k c. (ground arith, k.1))
          (λ rest t k. (requeued-IsCounted rest t k.0, requeue_front-IsValid t.context rest k.1))
          (λ e t k. unfold report_fatal in (ground arith)) s (λ e. (v, w))
          (λ h e. let (l, o, t) = taken-IsValid call s h w e in (l, o, (ground arith, t)))

    -- At any depth, whatever the callbacks do and throw and whenever other threads call: a
    -- context is closed, or the callbacks run, those queued and the count of those dropped make up the
    -- number that `dispatch` accepted, modulo the 2^64 of the counter.
    pub drops_counted :
        (depth : ℕ) (moves : List (Move A))
        → Ends
            (λ t.
              (t.context.closed ≡ true)
              ⊎ (u64 (length t.ran + length t.context.queue + t.context.dropped)
                  ≡ u64 (length t.accepted)))
            (run call moves (initial depth))
    drops_counted depth moves =
        let (t, e, k) =
          run_rule call (Kept []) (λ o s k. (perform-IsCounted o [] s k.0, perform-IsValid o s k.1))
            on_async-Kept moves (initial depth)
            (unfold initial open_context in (ground arith, open_context-IsValid depth)) in
        (t, e, ground (arith, k.0.counted))
