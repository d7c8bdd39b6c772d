-- ===== src/Participant/Change.antt =====
-- src/video/remote_participant_wrap.cpp: closing the observer and making a wrap keep what is carried.
use twilio_video_node.Base.{
  ℕ, suc, ◌≤◌, ◌≡◌, inl, inr, refl, sym, subst, ap, ap₂, ◌∙◌, true, false, List, [], ◌∷◌, ◌++◌, map,
  none, some, All, arith, ◌==◌, if◌then◌else◌,
}
use twilio_video_node.Async.{close}
use twilio_video_node.Participant.{
  Entry, Wrap, Observer, set_wrap, replay, bind, close_observer, new_instance, new_wrap, run_queued,
  run_entry, run_next, destroy,
}
use twilio_video_node.Participant.Carry.{
  entry_of, IsFirst, IsOpen, IsIdle, IsCarrying, same, new_wrap-IsOpen, new_wrap-IsIdle,
  set_wrap-IsIdle, replay-IsReplayed, unbound, bound, shut,
}

module _ {ℓ} {A : Type ℓ} where
  pub close_open :
      (o : Observer A)
      → o.closed ≡ false
      → close_observer o ≡ record o { closed = true; wrap = none; pending = [] }
  unfolding close_observer
  close_open o c = ground arith

  pub close_shut : (o : Observer A) → o.closed ≡ true → close_observer o ≡ o
  unfolding close_observer
  close_shut o c = ground arith

  pub close_observer-IsCarrying :
      (o : Observer A) (es : List (Entry A)) → IsCarrying o es → IsCarrying (close_observer o) es
  close_observer-IsCarrying o es (unbound c w m r p i) =
      subst (λ x. IsCarrying x es) (sym (close_open o c))
        (shut refl o.pending (p ∙ ap (λ b. map entry_of b ++ o.pending) (sym r))
          (subst (All IsFirst) (sym r) tt))
  close_observer-IsCarrying o es (bound c w p m h t i q f) =
      subst (λ x. IsCarrying x es) (sym (close_open o c)) (shut refl (o.wraps 0).context.queue q f)
  close_observer-IsCarrying o es (shut c lost l f) =
      subst (λ x. IsCarrying x es) (sym (close_shut o c)) (shut c lost l f)

  -- What an operation on a closed observer keeps.
  pub keeps_shut :
      (o u : Observer A) (es : List (Entry A))
      → o.closed ≡ true
      → (u.closed ≡ true) × (u.ran ≡ o.ran)
      → (lost : List (Entry A)) → es ≡ map entry_of o.ran ++ lost
      → All IsFirst o.ran
      → IsCarrying u es
  keeps_shut o u es c (c', r) lost l f =
      shut c' lost (l ∙ ap (λ b. map entry_of b ++ lost) (sym r)) (subst (All IsFirst) (sym r) f)

  abbrev pub first : (Observer A) → ℕ → Wrap A → Observer A
  first o w x = set_wrap w x (set_wrap w new_wrap (record o { made = suc o.made }))

  pub new_instance_unbound :
      (o : Observer A)
      → o.closed ≡ false
      → o.wrap ≡ none
      → o.made ≡ 0
      → let b =
          replay 0 o.pending (record (set_wrap 0 new_wrap (record o { made = 1 })) {
            wrap = some 0;
            pending = [];
          }) in
        new_instance o ≡ set_wrap 0 (record (b.wraps 0) { owns_observer_binding = true }) b
  unfolding new_instance bind
  new_instance_unbound o c w m = ground arith

  pub new_instance_bound :
      (o : Observer A) (v : ℕ)
      → o.wrap ≡ some v
      → new_instance o
        ≡ first o o.made (record (if o.made == o.made then new_wrap else o.wraps o.made) {
          owns_observer_binding = false;
        })
  unfolding new_instance bind
  new_instance_bound o v w = ground arith

  pub new_instance_shut :
      (o : Observer A)
      → o.closed ≡ true
      → ((new_instance o).closed ≡ true) × ((new_instance o).ran ≡ o.ran)
  unfolding new_instance bind
  new_instance_shut o c = ground arith

  pub run_next_idle : (w : ℕ) (o : Observer A) → (o.wraps w).context.queue ≡ [] → run_next w o ≡ o
  unfolding run_next
  run_next_idle w o q = ground arith

  pub run_next_shut :
      (w : ℕ) (o : Observer A)
      → o.closed ≡ true
      → ((run_next w o).closed ≡ true) × ((run_next w o).ran ≡ o.ran)
  unfolding run_next run_queued
  run_next_shut w o c = ground arith

  pub destroy_shut :
      (w : ℕ) (o : Observer A)
      → o.closed ≡ true
      → ((destroy w o).closed ≡ true) × ((destroy w o).ran ≡ o.ran)
  unfolding destroy close_observer
  destroy_shut w o c = ground arith

  pub destroy_owner :
      (w : ℕ) (o : Observer A)
      → (o.wraps w).owns_observer_binding ≡ true
      → ((destroy w o).closed ≡ true) × ((destroy w o).ran ≡ o.ran)
  unfolding destroy close_observer
  destroy_owner w o c = ground arith

  pub destroy_other :
      (w : ℕ) (o : Observer A)
      → (o.wraps w).owns_observer_binding ≡ false
      → destroy w o
        ≡ set_wrap w
            (record (o.wraps w) {
              alive = false;
              callback = false;
              context = close (o.wraps w).context;
            })
            o
  unfolding destroy
  destroy_other w o c = ground arith

  pub run_next_bound :
      (o : Observer A) (e : Entry A) (q : List (Entry A))
      → o.closed ≡ false
      → o.wrap ≡ some 0
      → IsOpen (o.wraps 0)
      → (o.wraps 0).context.queue ≡ e ∷ q
      → run_next 0 o
        ≡ run_entry 0 e (
            set_wrap 0
              (record (o.wraps 0) { context = record (o.wraps 0).context { queue = q } })
              o)
  unfolding run_next run_queued
  run_next_bound o e q c w h k = ground arith

  pub fresh : (m : ℕ) (x : Wrap A) (o : Observer A) → 1 ≤ m → (first o m x).wraps 0 ≡ o.wraps 0
  fresh m x o h = ground arith

  pub new_instance-IsCarrying :
      (o : Observer A) (es : List (Entry A)) → IsCarrying o es → IsCarrying (new_instance o) es
  new_instance-IsCarrying o es (unbound c w m r p i) =
      subst (λ x. IsCarrying x es) (sym (new_instance_unbound o c w m))
        (let b = record (set_wrap 0 new_wrap (record o { made = 1 })) {
          wrap = some 0;
          pending = [];
        } in
          let (c', w', p', m', r', h, q, ws) =
            replay-IsReplayed o.pending b (new_wrap-IsOpen new_wrap refl) in
          bound (c' ∙ c) w' p' (omega arith) h refl
            (set_wrap-IsIdle 0 _ (replay 0 o.pending b) (inl refl) (λ w.
              subst IsIdle (sym (ws w)) (set_wrap-IsIdle 0 _ o (inl refl) (λ v. i (suc v)) w)))
            (p
              ∙ ap₂ (λ a b. a ++ b) (sym (ap (map entry_of) (r' ∙ r)))
                  (sym (q ∙ ap (λ c. c ++ o.pending) (new_wrap-IsIdle new_wrap refl).0)))
            (subst (All IsFirst) (sym (r' ∙ r)) tt))
  new_instance-IsCarrying o es (bound c w p m h t i q f) =
      subst (λ x. IsCarrying x es) (sym (new_instance_bound o 0 w))
        (let e =
            fresh o.made
              (record (if o.made == o.made then new_wrap else o.wraps o.made) {
                owns_observer_binding = false;
              })
              o m in
          bound c w p (omega arith) (subst IsOpen (sym e) h)
            (ap (λ x. x.owns_observer_binding) e ∙ t)
            (set_wrap-IsIdle o.made _ (set_wrap o.made new_wrap (record o { made = suc o.made }))
              (inr (
                ap (λ x. x.context.queue) (same o.made new_wrap (o.wraps o.made))
                    ∙ (new_wrap-IsIdle new_wrap refl).0,
                refl,
              ))
              (set_wrap-IsIdle o.made new_wrap o (inr (new_wrap-IsIdle new_wrap refl)) i))
            (q ∙ ap (λ x. map entry_of o.ran ++ x.context.queue) (sym e)) f)
  new_instance-IsCarrying o es (shut c lost l f) =
      keeps_shut o (new_instance o) es c (new_instance_shut o c) lost l f
