-- ===== src/Async/Drain/Order.antt =====
-- src/common/async_context.cpp: in which order the callbacks run, and that none is lost unseen.
use twilio_video_node.Base.{
  ◌≡◌, refl, ◌⊎◌, ap, ◌∙◌, true, false, List, [], ◌∷◌, ◌++◌, append-nil, append_assoc, arith,
  if◌then◌else◌,
}
use twilio_video_node.Async.{
  Context, Handle, open_context, ref, unref, close, destroy, requeue_front,
}
use twilio_video_node.Async.Queue.{dispatch_unbounded}
use twilio_video_node.Async.Drain.{
  Op, System, Callbacks, Move, dispatches, refs, unrefs, closes, destroys, perform, perform_all,
  invoke, on_async, run, initial, report_fatal,
}
use twilio_video_node.Async.Drain.Rule.{Ends, taken, requeued, on_async_rule, run_rule}
use twilio_video_node.Async.Drain.Valid.{
  IsValid, open_context-IsValid, perform-IsValid, requeue_front-IsValid, invoke-IsValid,
  taken-IsValid,
}

module _ {ℓ} {A : Type ℓ} where
  -- With `rest` taken by a drain and not yet run: the callbacks run are the first ones accepted, in
  -- the order of their dispatch, and on an open context what is taken and queued is all the others.
  pub record InOrder (rest : List A) (s : System A) : Type ℓ where
    pub unlimited : s.context.max_queue_depth ≡ 0
    pub begun : (lost : List A) × (s.ran ++ lost ≡ s.accepted)
    pub kept : s.context.closed ≡ false → s.ran ++ (rest ++ s.context.queue) ≡ s.accepted
    pub destroyed_closed : s.context.alive ≡ false → s.context.closed ≡ true

  append_regroup :
      (xs ys zs : List A) (a : A) → xs ++ (ys ++ (zs ++ (a ∷ []))) ≡ (xs ++ (ys ++ zs)) ++ (a ∷ [])
  append_regroup xs ys zs a = rw (append_assoc xs (ys ++ zs) (a ∷ []), append_assoc ys zs (a ∷ []))

  -- What is lost once the context is closed, after one more call of `dispatch`.
  abbrev lost_after : Context A → A → List A → List A
  lost_after c a lost = if c.closed then lost else lost ++ (a ∷ [])

  perform-InOrder :
      (o : Op A) (rest : List A) (s : System A) → InOrder rest s → InOrder rest (perform o s)
  unfolding perform
  perform-InOrder (dispatches a) rest s v =
      let e = dispatch_unbounded s.context a v.unlimited in
      let lost = v.begun.0 in
      record {
        unlimited = ground (arith, e);
        begun = (
          if s.context.alive then lost_after s.context a lost else lost,
          ground (arith, append_assoc s.ran lost (a ∷ [])),
        );
        kept = ground (arith, e, append_regroup s.ran rest s.context.queue a);
        destroyed_closed = ground (arith, e);
      }
  perform-InOrder refs rest s v = unfold ref in (ground arith)
  perform-InOrder unrefs rest s v = unfold unref in (ground arith)
  perform-InOrder closes rest s v = unfold close in (ground arith)
  perform-InOrder destroys rest s v = unfold destroy in (ground arith)

  perform_all-InOrder :
      (os : List (Op A)) (rest : List A) (s : System A)
      → InOrder rest s
      → InOrder rest (perform_all os s)
  unfolding perform_all
  perform_all-InOrder [] rest s v = v
  perform_all-InOrder (o ∷ os) rest s v =
      perform_all-InOrder os rest (perform o s) (perform-InOrder o rest s v)

  -- The callback at the head moves from what is taken to what has run.
  called-InOrder :
      (a : A) (rest : List A) (s : System A)
      → InOrder (a ∷ rest) s
      → s.context.closed ≡ false
      → InOrder rest (record s { ran = s.ran ++ (a ∷ []) })
  called-InOrder a rest s v o =
      let e = append_assoc s.ran (a ∷ []) (rest ++ s.context.queue) ∙ v.kept o in
      record {
        unlimited = v.unlimited;
        begun = (rest ++ s.context.queue, e);
        kept = λ _. e;
        destroyed_closed = v.destroyed_closed;
      }

  requeued-InOrder : (rest : List A) (s : System A) → InOrder rest s → InOrder [] (requeued rest s)
  unfolding requeue_front
  requeued-InOrder [] s v = v
  requeued-InOrder (a ∷ rest) s v = ground arith

  module _ (call : Callbacks A) where
    invoke-InOrder :
        (a : A) (rest : List A) (s : System A)
        → InOrder (a ∷ rest) s
        → s.context.closed ≡ false
        → InOrder rest (invoke call a s)
    unfolding invoke
    invoke-InOrder a rest s v o =
        perform_all-InOrder (call s.ran a).0 rest _ (called-InOrder a rest s v o)

    abbrev Kept : List A → System A → Type ℓ
    Kept rest s = InOrder rest s × IsValid s.context

    stopped-Kept :
        (rest : List A) (s : System A) → Kept rest s → s.context.closed ≡ true → Kept [] s
    stopped-Kept rest s (v, w) c = (
      record {
        unlimited = v.unlimited;
        begun = v.begun;
        kept = λ o. cc;
        destroyed_closed = v.destroyed_closed;
      },
      w,
    )

    taken-InOrder : (h : Handle) (s : System A) → InOrder [] s → InOrder s.context.queue (taken h s)
    taken-InOrder h s v = record {
      unlimited = v.unlimited;
      begun = v.begun;
      kept = λ o. ap (◌++◌ s.ran) (append-nil s.context.queue) ∙ v.kept o;
      destroyed_closed = v.destroyed_closed;
    }

    pub on_async-Kept : (s : System A) → Kept [] s → Ends (Kept []) (on_async call s)
    on_async-Kept s (v, w) =
        on_async_rule call Kept (Kept []) (λ rest t k. k.0.destroyed_closed)
          (λ a rest t k l o. (invoke-InOrder a rest t k.0 o, invoke-IsValid call a t k.1))
          (λ t k. k) stopped-Kept
          (λ rest t k. (requeued-InOrder rest t k.0, requeue_front-IsValid t.context rest k.1))
          (λ e t k. unfold report_fatal in (ground arith)) s (λ e. (v, w))
          (λ h e. let (l, o, t) = taken-IsValid call s h w e in (l, o, (taken-InOrder h s v, t)))

    -- On a context with no bound, whatever the callbacks do and throw and whenever other threads
    -- call: the callbacks that have run are the first ones that `dispatch` accepted, each once and in
    -- that order; and the context is closed, or its queue holds all the others, in that order.
    pub run_in_order :
        (moves : List (Move A))
        → Ends
            (λ t.
              ((lost : List A) × (t.ran ++ lost ≡ t.accepted))
              × ((t.context.closed ≡ true) ⊎ (t.ran ++ t.context.queue ≡ t.accepted)))
            (run call moves (initial 0))
    run_in_order moves =
        let (t, e, k) =
          run_rule call (Kept []) (λ o s k. (perform-InOrder o [] s k.0, perform-IsValid o s k.1))
            on_async-Kept moves (initial 0)
            (unfold initial open_context in
              (
                record {
                  unlimited = refl;
                  begun = ([], refl);
                  kept = λ o. refl;
                  destroyed_closed = λ d. cc;
                },
                open_context-IsValid 0,
              )) in
        (t, e, (k.0.begun, ground (arith, k.0.kept)))
