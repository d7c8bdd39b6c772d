-- ===== src/Participant/Order.antt =====
-- src/video/remote_participant_wrap.cpp: a participant's events reach one wrap, in order, whenever the
-- wrap is made.
use twilio_video_node.Base.{
  length, replicate, ℕ, zero, suc, ◌≤◌, ◌≡◌, ◌≢◌, ◌⊎◌, inl, inr, refl, sym, subst, ap, ap₂, ◌∙◌,
  true, false, List, [], ◌∷◌, ◌++◌, map, append_assoc, append-nil, Option, none, some, All, arith,
  Bool-cases, if◌then◌else◌,
}
use twilio_video_node.Participant.{
  Entry, Observer, create_observer, close_observer, new_instance, new_wrap, run_entry, run_next, Op,
  raises, creates, closes, sets_callback, runs, destroys, is_usable, step, run, taken, accepted,
}
use twilio_video_node.Participant.Carry.{
  entry_of, IsFirst, IsCarrying, append_nothing, new_wrap-IsIdle, enqueue-IsCarrying, unbound,
  bound, shut,
}
use twilio_video_node.Participant.Change.{
  close_observer-IsCarrying, run_next_bound, new_instance-IsCarrying,
}
use twilio_video_node.Participant.Deliver.{
  set_event_callback-IsCarrying, queue-cases, run_entry-IsRun, popped, run_first-IsCarrying,
  run_next-IsCarrying, destroy-IsCarrying,
}

module _ {ℓ} {A : Type ℓ} where
  pub usable_made : (w : ℕ) (o : Observer A) → is_usable w o ≡ true → o.made ≢ 0
  usable_made w o h = λ z. absurd (ground arith)

  pub if_usable :
      (w : ℕ) (o u : Observer A) (es : List (Entry A))
      → IsCarrying o es
      → (o.made ≢ 0 → IsCarrying u es)
      → IsCarrying (if is_usable w o then u else o) es
  if_usable w o u es c h = elim (Bool-cases (is_usable w o)) [
    | inl t ↦ subst (λ b. IsCarrying (if b then u else o) es) (sym t) (h (usable_made w o t))
    | inr f ↦ subst (λ b. IsCarrying (if b then u else o) es) (sym f) c
  ]

  pub step-IsCarrying :
      (p : Op A) (o : Observer A) (es : List (Entry A))
      → IsCarrying o es
      → IsCarrying (step p o) (es ++ taken p o)
  unfolding step
  step-IsCarrying (raises e) o es c = enqueue-IsCarrying e o es c
  step-IsCarrying creates o es c =
      append_nothing (new_instance o) es (new_instance-IsCarrying o es c)
  step-IsCarrying closes o es c =
      append_nothing (close_observer o) es (close_observer-IsCarrying o es c)
  step-IsCarrying (sets_callback w) o es c =
      append_nothing _ es (if_usable w o _ es c (λ n. set_event_callback-IsCarrying w o es c))
  step-IsCarrying (runs w) o es c =
      append_nothing _ es (if_usable w o _ es c (λ n. run_next-IsCarrying w o es c))
  step-IsCarrying (destroys w) o es c =
      append_nothing _ es (if_usable w o _ es c (λ n. destroy-IsCarrying w o es c n))

  pub run-IsCarrying :
      (ps : List (Op A)) (o : Observer A) (es : List (Entry A))
      → IsCarrying o es
      → IsCarrying (run ps o) (es ++ accepted ps o)
  unfolding run
  run-IsCarrying [] o es c = append_nothing o es c
  run-IsCarrying (p ∷ ps) o es c =
      subst (IsCarrying (run ps (step p o))) (append_assoc es (taken p o) (accepted ps (step p o)))
        (run-IsCarrying ps (step p o) (es ++ taken p o) (step-IsCarrying p o es c))

  pub create_observer-IsCarrying : IsCarrying (create_observer {A = A}) []
  unfolding create_observer
  create_observer-IsCarrying = unbound refl refl refl refl refl (λ w. new_wrap-IsIdle new_wrap refl)

  -- What is still to run: the queue of the wrap, or what the observer holds for one.
  abbrev pub waiting_for : Option ℕ → Observer A → List (Entry A)
  waiting_for none o = o.pending
  waiting_for (some w) o = (o.wraps w).context.queue

  abbrev pub waiting : Observer A → List (Entry A)
  waiting o = waiting_for o.wrap o

  abbrev pub IsInOrder : Observer A → List (Entry A) → Type ℓ
  IsInOrder o es =
      ((o.closed ≡ false) × (es ≡ map entry_of o.ran ++ waiting o))
      ⊎ ((o.closed ≡ true) × (lost : List (Entry A)) × (es ≡ map entry_of o.ran ++ lost))

  pub in_order :
      (o : Observer A) (es : List (Entry A)) → IsCarrying o es → All IsFirst o.ran × IsInOrder o es
  in_order o es (unbound c w m r p i) = (
    subst (All IsFirst) (sym r) tt,
    inl (c, p ∙ ap₂ (λ a b. map entry_of a ++ waiting_for b o) (sym r) (sym w)),
  )
  in_order o es (bound c w p m h t i q f) =
      (f, inl (c, q ∙ ap (λ b. map entry_of o.ran ++ waiting_for b o) (sym w)))
  in_order o es (shut c lost l f) = (f, inr (c, lost, l))

  -- Whatever a participant's observer goes through, only the first wrap made for it gets entries. They
  -- are the entries raised while the observer was open, in the order in which they were raised and none
  -- of them twice: until it closes, those not yet run wait, in order, for a wrap or in the queue of the
  -- wrap; once it is closed, those not yet run are lost.
  pub run-IsInOrder :
      (ps : List (Op A))
      → let o = run ps create_observer in
        All IsFirst o.ran × IsInOrder o (accepted ps create_observer)
  run-IsInOrder ps =
      in_order (run ps create_observer) (accepted ps create_observer)
        (run-IsCarrying ps create_observer [] create_observer-IsCarrying)

  pub usable_first :
      (o : Observer A) → 1 ≤ o.made → (o.wraps 0).alive ≡ true → step (runs 0) o ≡ run_next 0 o
  unfolding step
  usable_first o m a = ground arith

  pub bound-eq :
      (o : Observer A) (es : List (Entry A))
      → IsCarrying o es
      → o.closed ≡ false
      → o.wrap ≡ some 0
      → es ≡ map entry_of o.ran ++ (o.wraps 0).context.queue
  bound-eq o es (bound c w p m h t i k f) c' w' = k
  bound-eq o es (unbound c w m r p i) c' w' = cc
  bound-eq o es (shut c lost l f) c' w' = cc

  pub run_usable :
      (o : Observer A) (es : List (Entry A)) (e : Entry A) (q : List (Entry A))
      → IsCarrying o es
      → o.closed ≡ false
      → o.wrap ≡ some 0
      → (o.wraps 0).context.queue ≡ e ∷ q
      → step (runs 0) o ≡ run_entry 0 e (popped q o)
  unfolding step
  run_usable o es e q (bound c w p m h t i k f) c' w' k' =
      usable_first o (omega arith) h.2 ∙ run_next_bound o e q c w h k'
  run_usable o es e q (unbound c w m r p i) c' w' k' = cc
  run_usable o es e q (shut c lost l f) c' w' k' = cc

  pub ran_closed :
      (o : Observer A) (e : Entry A) (q : List (Entry A))
      → o.closed ≡ false
      → (run_entry 0 e (popped q o)).closed ≡ false
  ran_closed o e q k = (run_entry-IsRun 0 e (popped q o)).0 ∙ k

  pub ran_wrap :
      (o : Observer A) (e : Entry A) (q : List (Entry A))
      → o.wrap ≡ some 0
      → (run_entry 0 e (popped q o)).wrap ≡ some 0
  ran_wrap o e q w = (run_entry-IsRun 0 e (popped q o)).1 ∙ w

  pub ran_queue :
      (o : Observer A) (e : Entry A) (q : List (Entry A))
      → ((run_entry 0 e (popped q o)).wraps 0).context.queue ≡ q
  ran_queue o e q = ap (λ g. (g 0).context.queue) (run_entry-IsRun 0 e (popped q o)).4

  pub runs_all :
      (n : ℕ) (o : Observer A) (es : List (Entry A))
      → IsCarrying o es
      → o.closed ≡ false
      → o.wrap ≡ some 0
      → length (o.wraps 0).context.queue ≡ n
      → map entry_of (run (replicate n (runs 0)) o).ran ≡ es
  unfolding run
  runs_all zero o es c k w l = elim (queue-cases (o.wraps 0).context.queue) [
    | inl n ↦ sym (
        bound-eq o es c k w ∙ ap (λ b. map entry_of o.ran ++ b) n ∙ append-nil (map entry_of o.ran))
    | inr (e, r, n) ↦ absurd (omega (arith, ap length n))
  ]
  runs_all (suc n) o es c k w l = elim (queue-cases (o.wraps 0).context.queue) [
    | inl z ↦ absurd (omega (arith, ap length z))
    | inr (e, r, q) ↦
        subst (λ x. map entry_of (run (replicate n (runs 0)) x).ran ≡ es)
          (sym (run_usable o es e r c k w q))
          (runs_all n (run_entry 0 e (popped r o)) es (run_first-IsCarrying o es e r c k w q)
            (ran_closed o e r k) (ran_wrap o e r w)
            (ap length (ran_queue o e r) ∙ omega (arith, ap length q)))
  ]

  -- While a participant's first wrap lives, each turn of the JS thread runs one of its entries: after as
  -- many as are queued, every entry that the observer ever took has been run, in order, and stands once
  -- in `ran`.
  pub events_all_run :
      (ps : List (Op A))
      → (run ps create_observer).closed ≡ false
      → (run ps create_observer).wrap ≡ some 0
      → let o = run ps create_observer in
        map entry_of (run (replicate (length (waiting o)) (runs 0)) o).ran
        ≡ accepted ps create_observer
  events_all_run ps k w =
      let o = run ps create_observer in
      runs_all (length (waiting o)) o (accepted ps create_observer)
        (run-IsCarrying ps create_observer [] create_observer-IsCarrying) k w
        (ap (λ b. length (waiting_for b o)) (sym w))
