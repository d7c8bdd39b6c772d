-- ===== src/LocalParticipant/Order.antt =====
-- src/video/local_participant_wrap.cpp: the local participant's events reach JS in order, whenever its
-- wrap is made.
use twilio_video_node.Base.{
  ◌≡◌, ◌⊎◌, inl, inr, refl, sym, subst, ap, ap₂, ◌∙◌, true, false, List, [], ◌∷◌, ◌++◌,
  append_assoc, append-nil, arith, Bool-cases, List-cases, if◌then◌else◌,
}
use twilio_video_node.LocalParticipant.{
  Local, Op, raises, gets, sets_callback, runs, closes, disposes, destroys, create_observer,
  close_observer, set_event_callback, run_queued, emit_event, run_next, destroy, is_usable, step,
  run, taken, accepted,
}
use twilio_video_node.LocalParticipant.Carry.{
  IsCarrying, unbound, bound, shut, moved, keeps_shut, dispatch_event-IsCarrying, get-IsCarrying,
}

module _ {ℓ} {A : Type ℓ} where
  -- A turn of the JS thread finds a listener, or an observer that is closed.
  abbrev HasListener : Op A → Local A → Type 0
  HasListener runs l = (l.callback ≡ true) ⊎ (l.closed ≡ true)
  HasListener _ l = Unit

  abbrev pub IsListening : List (Op A) → Local A → Type 0
  unfolding step
  IsListening [] l = Unit
  IsListening (o ∷ os) l = HasListener o l × IsListening os (step o l)

  close_open :
      (l : Local A)
      → l.closed ≡ false
      → close_observer l ≡ record l { closed = true; bound = false; pending = [] }
  unfolding close_observer
  close_open l c = ground arith

  close_shut : (l : Local A) → l.closed ≡ true → close_observer l ≡ l
  unfolding close_observer
  close_shut l c = ground arith

  close-IsCarrying :
      (l : Local A) (es : List A) → IsCarrying l es → IsCarrying (close_observer l) es
  close-IsCarrying l es (unbound c b m r p) =
      moved _ _ _ _ (close_open l c) refl
        (shut refl refl l.pending (p ∙ ap (λ x. x ++ l.pending) (sym r)))
  close-IsCarrying l es (bound c b m p h q) =
      moved _ _ _ _ (close_open l c) refl (shut refl refl l.context.queue q)
  close-IsCarrying l es (shut c b lost q) = moved _ _ _ _ (close_shut l c) refl (shut c b lost q)

  set_event_callback-IsCarrying :
      (l : Local A) (es : List A) → IsCarrying l es → IsCarrying (set_event_callback l) es
  unfolding set_event_callback
  set_event_callback-IsCarrying l es (unbound c b m r p) = unbound c b m r p
  set_event_callback-IsCarrying l es (bound c b m p h q) = bound c b m p h q
  set_event_callback-IsCarrying l es (shut c b lost q) = shut c b lost q

  destroy_open :
      (l : Local A)
      → l.closed ≡ false
      → let u = destroy l in (u.closed ≡ true) × (u.bound ≡ false) × (u.emitted ≡ l.emitted)
  unfolding destroy close_observer
  destroy_open l c = ground arith

  destroy_shut :
      (l : Local A)
      → l.closed ≡ true
      → let u = destroy l in (u.closed ≡ true) × (u.bound ≡ l.bound) × (u.emitted ≡ l.emitted)
  unfolding destroy close_observer
  destroy_shut l c = ground arith

  destroy-IsCarrying : (l : Local A) (es : List A) → IsCarrying l es → IsCarrying (destroy l) es
  destroy-IsCarrying l es (unbound c b m r p) =
      let (k, d, e) = destroy_open l c in
      shut k d l.pending (p ∙ ap (λ x. x ++ l.pending) (sym (e ∙ r)))
  destroy-IsCarrying l es (bound c b m p h q) =
      let (k, d, e) = destroy_open l c in
      shut k d l.context.queue (q ∙ ap (λ x. x ++ l.context.queue) (sym e))
  destroy-IsCarrying l es (shut c b lost q) = keeps_shut l _ es lost b q (destroy_shut l c)

  run_idle : (l : Local A) → l.context.queue ≡ [] → run_next l ≡ l
  unfolding run_next
  run_idle l n = ground arith

  run_shut :
      (l : Local A)
      → l.closed ≡ true
      → let u = run_next l in (u.closed ≡ true) × (u.bound ≡ l.bound) × (u.emitted ≡ l.emitted)
  unfolding run_next run_queued
  run_shut l c = ground arith

  run_first :
      (l : Local A) (a : A) (q : List A)
      → l.closed ≡ false
      → l.bound ≡ true
      → l.callback ≡ true
      → l.context.closed ≡ false
      → l.context.queue ≡ a ∷ q
      → run_next l
        ≡ record l { context = record l.context { queue = q }; emitted = l.emitted ++ (a ∷ []) }
  unfolding run_next run_queued emit_event
  run_first l a q c b k o n = ground arith

  run_next-IsCarrying :
      (l : Local A) (es : List A)
      → l.made ≡ true
      → HasListener runs l
      → IsCarrying l es
      → IsCarrying (run_next l) es
  run_next-IsCarrying l es t k (unbound c b m r p) = absurd (ground arith)
  run_next-IsCarrying l es t (inr k) (bound c b m p h q) = absurd (ground arith)
  run_next-IsCarrying l es t (inl k) (bound c b m p h q) = elim (List-cases l.context.queue) [
    | inl n ↦ moved _ _ _ _ (run_idle l n) refl (bound c b m p h q)
    | inr (a, r, n) ↦
        moved _ _ _ _ (run_first l a r c b k h.0 n) refl (
          bound c b m p h
            (q ∙ ap (λ x. l.emitted ++ x) n ∙ sym (append_assoc l.emitted (a ∷ []) r)))
  ]
  run_next-IsCarrying l es t k (shut c b lost q) = keeps_shut l _ es lost b q (run_shut l c)

  disposes-IsCarrying :
      (l : Local A) (es : List A) → IsCarrying l es → IsCarrying (record l { room = false }) es
  disposes-IsCarrying l es (unbound c b m r p) = unbound c b m r p
  disposes-IsCarrying l es (bound c b m p h q) = bound c b m p h q
  disposes-IsCarrying l es (shut c b lost q) = shut c b lost q

  if_usable :
      (l u : Local A) (es : List A)
      → IsCarrying l es
      → (l.made ≡ true → IsCarrying u es)
      → IsCarrying (if is_usable l then u else l) es
  if_usable l u es c h = elim (Bool-cases (is_usable l)) [
    | inl t ↦ subst (λ b. IsCarrying (if b then u else l) es) (sym t) (h (ground arith))
    | inr f ↦ subst (λ b. IsCarrying (if b then u else l) es) (sym f) c
  ]

  append_nothing : (l : Local A) (es : List A) → IsCarrying l es → IsCarrying l (es ++ [])
  append_nothing l es c = subst (IsCarrying l) (sym (append-nil es)) c

  step-IsCarrying :
      (o : Op A) (l : Local A) (es : List A)
      → HasListener o l
      → IsCarrying l es
      → IsCarrying (step o l) (es ++ taken o l)
  unfolding step
  step-IsCarrying (raises a) l es h c = dispatch_event-IsCarrying a l es c
  step-IsCarrying gets l es h c = append_nothing _ es (get-IsCarrying l es c)
  step-IsCarrying sets_callback l es h c =
      append_nothing _ es (if_usable l _ es c (λ m. set_event_callback-IsCarrying l es c))
  step-IsCarrying runs l es h c =
      append_nothing _ es (if_usable l _ es c (λ m. run_next-IsCarrying l es m h c))
  step-IsCarrying closes l es h c = append_nothing _ es (close-IsCarrying l es c)
  step-IsCarrying disposes l es h c = append_nothing _ es (disposes-IsCarrying l es c)
  step-IsCarrying destroys l es h c =
      append_nothing _ es (if_usable l _ es c (λ m. destroy-IsCarrying l es c))

  run-IsCarrying :
      (os : List (Op A)) (l : Local A) (es : List A)
      → IsListening os l
      → IsCarrying l es
      → IsCarrying (run os l) (es ++ accepted os l)
  unfolding run
  run-IsCarrying [] l es h c = append_nothing l es c
  run-IsCarrying (o ∷ os) l es h c =
      subst (IsCarrying (run os (step o l))) (append_assoc es (taken o l) (accepted os (step o l)))
        (run-IsCarrying os (step o l) (es ++ taken o l) h.1 (step-IsCarrying o l es h.0 c))

  create_observer-IsCarrying : IsCarrying (create_observer {A = A}) []
  unfolding create_observer
  create_observer-IsCarrying = unbound refl refl refl refl refl

  -- What is still to run: the queue of the wrap, or what the observer holds for one.
  abbrev pub waiting : Local A → List A
  waiting l = if l.bound then l.context.queue else l.pending

  -- All of the events taken were emitted, in order, or wait; or the last of them are lost.
  abbrev pub IsHeard : Local A → List A → Type ℓ
  IsHeard l es =
      ((l.closed ≡ false) × (es ≡ l.emitted ++ waiting l))
      ⊎ ((l.closed ≡ true) × (lost : List A) × (es ≡ l.emitted ++ lost))

  heard : (l : Local A) (es : List A) → IsCarrying l es → IsHeard l es
  heard l es (unbound c b m r p) =
      inl (c, p ∙ ap₂ (λ x y. x ++ (if y then l.context.queue else l.pending)) (sym r) (sym b))
  heard l es (bound c b m p h q) =
      inl (c, q ∙ ap (λ y. l.emitted ++ (if y then l.context.queue else l.pending)) (sym b))
  heard l es (shut c b lost q) = inr (c, lost, q)

  -- Where JS sets its callback before the first turn of the JS thread for the wrap, what the callback
  -- gets are the events that the observer took, in order and none of them twice, also those raised
  -- before the wrap was made. While the observer is open the others wait, in order; once it is closed
  -- they are lost.
  pub run-IsHeard :
      (os : List (Op A))
      → IsListening os create_observer
      → IsHeard (run os create_observer) (accepted os create_observer)
  run-IsHeard os h =
      heard (run os create_observer) (accepted os create_observer)
        (run-IsCarrying os create_observer [] h create_observer-IsCarrying)
