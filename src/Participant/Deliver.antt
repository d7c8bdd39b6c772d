-- ===== src/Participant/Deliver.antt =====
-- src/video/remote_participant_wrap.cpp: setting a callback, running an entry and destroying a wrap keep
-- what is carried.
use twilio_video_node.Base.{
  All-append, ℕ, zero, suc, ◌≡◌, ◌≢◌, ◌⊎◌, inl, inr, refl, sym, subst, ap, ap₂, ◌∙◌, true, false,
  List, [], ◌∷◌, ◌++◌, map, some, All, arith, Bool-cases, ==_iff, ◌==◌, if◌then◌else◌,
}
use twilio_video_node.Async.{Context, close}
use twilio_video_node.Participant.{
  Entry, event, raw, Wrap, Observer, set_wrap, set_event_callback, run_entry, emit_event, run_next,
  destroy,
}
use twilio_video_node.Participant.Carry.{
  entry_of, IsFirst, IsOpen, IsIdle, IsCarrying, other, set_wrap-IsIdle, unbound, bound, shut,
}
use twilio_video_node.Participant.Change.{
  keeps_shut, run_next_idle, run_next_shut, destroy_shut, destroy_owner, destroy_other,
  run_next_bound,
}

module _ {ℓ} {A : Type ℓ} where
  -- A predicate of a wrap survives where the wrap set has it too.
  pub set_wrap_keeps :
      (P : Wrap A → Type ℓ) (v w : ℕ) (x : Wrap A) (o : Observer A)
      → P (o.wraps w)
      → ((w ≡ v) → P x)
      → P ((set_wrap v x o).wraps w)
  set_wrap_keeps P v w x o p h = elim (Bool-cases (w == v)) [
    | inl t ↦ subst (λ b. P (if b then x else o.wraps w)) (sym t) (h ((==_iff w v).0 t))
    | inr f ↦ subst (λ b. P (if b then x else o.wraps w)) (sym f) p
  ]

  -- What a wrap holds of the entries, and whether it may hold any.
  abbrev pub IsSame : Wrap A → Wrap A → Type ℓ
  IsSame x y =
      (x.context ≡ y.context)
      × (x.alive ≡ y.alive)
      × (x.owns_observer_binding ≡ y.owns_observer_binding)

  pub set_event_callback-IsSame :
      (v w : ℕ) (o : Observer A) → IsSame ((set_event_callback v o).wraps w) (o.wraps w)
  unfolding set_event_callback
  set_event_callback-IsSame v w o =
      set_wrap_keeps (λ x. IsSame x (o.wraps w)) v w _ o (refl, refl, refl)
        (λ e. (
          ap (λ u. (o.wraps u).context) (sym e),
          ap (λ u. (o.wraps u).alive) (sym e),
          ap (λ u. (o.wraps u).owns_observer_binding) (sym e),
        ))

  pub IsOpen-same : (x y : Wrap A) → IsSame x y → IsOpen y → IsOpen x
  IsOpen-same x y (c, a, w) (h, k, l) =
      (ap (λ z. z.closed) c ∙ h, ap (λ z. z.max_queue_depth) c ∙ k, a ∙ l)

  pub IsIdle-same : (x y : Wrap A) → IsSame x y → IsIdle y → IsIdle x
  IsIdle-same x y (c, a, w) (h, k) = (ap (λ z. z.queue) c ∙ h, w ∙ k)

  pub set_event_callback-IsCarrying :
      (v : ℕ) (o : Observer A) (es : List (Entry A))
      → IsCarrying o es
      → IsCarrying (set_event_callback v o) es
  unfolding set_event_callback
  set_event_callback-IsCarrying v o es (unbound c w m r p i) = unbound c w m r p (λ u.
      IsIdle-same ((set_event_callback v o).wraps u) (o.wraps u) (set_event_callback-IsSame v u o)
        (i u))
  set_event_callback-IsCarrying v o es (bound c w p m h t i q f) =
      let s = set_event_callback-IsSame v 0 o in
      bound c w p m (IsOpen-same ((set_event_callback v o).wraps 0) (o.wraps 0) s h) (s.2 ∙ t)
        (λ u.
          IsIdle-same ((set_event_callback v o).wraps (suc u)) (o.wraps (suc u))
            (set_event_callback-IsSame v (suc u) o) (i u))
        (q ∙ ap (λ x. map entry_of o.ran ++ x.queue) (sym s.0)) f
  set_event_callback-IsCarrying v o es (shut c lost l f) = shut c lost l f

  pub queue-cases :
      (q : List (Entry A)) → (q ≡ []) ⊎ ((e : Entry A) × (r : List (Entry A)) × (q ≡ e ∷ r))
  queue-cases [] = inl refl
  queue-cases (e ∷ r) = inr (e, r, refl)

  pub moved_over :
      (r : List (ℕ × Entry A)) (w : ℕ) (e : Entry A) (q : List (Entry A))
      → map entry_of (r ++ ((w, e) ∷ [])) ++ q ≡ map entry_of r ++ (e ∷ q)
  moved_over [] w e q = refl
  moved_over (x ∷ r) w e q = ap (λ l. entry_of x ∷ l) (moved_over r w e q)

  -- An entry that is run is added to those that ran, and nothing else of the delivery changes.
  abbrev pub IsRun : ℕ → Entry A → Observer A → Observer A → Type ℓ
  IsRun w e o u =
      (u.closed ≡ o.closed)
      × (u.wrap ≡ o.wrap)
      × (u.pending ≡ o.pending)
      × (u.made ≡ o.made)
      × (u.wraps ≡ o.wraps)
      × (u.ran ≡ o.ran ++ ((w, e) ∷ []))

  pub emit_event-IsRun :
      (w : ℕ) (e : Entry A) (a : A) (o v : Observer A)
      → IsRun w e o v
      → IsRun w e o (emit_event w a v)
  unfolding emit_event
  emit_event-IsRun w e a o v h = elim (Bool-cases (v.wraps w).callback) [
    | inl t ↦
        subst
          (λ b. IsRun w e o (if b then record v { emitted = v.emitted ++ ((w, a) ∷ []) } else v))
          (sym t) h
    | inr f ↦
        subst
          (λ b. IsRun w e o (if b then record v { emitted = v.emitted ++ ((w, a) ∷ []) } else v))
          (sym f) h
  ]

  pub run_entry-IsRun : (w : ℕ) (e : Entry A) (o : Observer A) → IsRun w e o (run_entry w e o)
  unfolding run_entry
  run_entry-IsRun w (event a) o =
      emit_event-IsRun w (event a) a o (record o { ran = o.ran ++ ((w, event a) ∷ []) })
        (refl, refl, refl, refl, refl, refl)
  run_entry-IsRun w (raw f) o = (refl, refl, refl, refl, refl, refl)

  abbrev pub popped : List (Entry A) → Observer A → Observer A
  popped q o =
      set_wrap 0 (record (o.wraps 0) { context = record (o.wraps 0).context { queue = q } }) o

  pub run_first-IsCarrying :
      (o : Observer A) (es : List (Entry A)) (e : Entry A) (q : List (Entry A))
      → IsCarrying o es
      → o.closed ≡ false
      → o.wrap ≡ some 0
      → (o.wraps 0).context.queue ≡ e ∷ q
      → IsCarrying (run_entry 0 e (popped q o)) es
  run_first-IsCarrying o es e q (bound c w p m h t i k f) c' w' k' =
      let (rc, rw', rp, rm, rs, rr) = run_entry-IsRun 0 e (popped q o) in
      bound (rc ∙ c) (rw' ∙ w) (rp ∙ p) (omega (arith, rm)) (subst (λ g. IsOpen (g 0)) (sym rs) h)
        (subst (λ g. (g 0).owns_observer_binding ≡ true) (sym rs) t)
        (subst (λ g. (v : ℕ) → IsIdle (g (suc v))) (sym rs) (set_wrap-IsIdle 0 _ o (inl refl) i))
        (k
          ∙ ap (λ b. map entry_of o.ran ++ b) k'
          ∙ sym (moved_over o.ran 0 e q)
          ∙ ap₂ (λ r b. map entry_of r ++ b) (sym rr) (ap (λ g. (g 0).context.queue) (sym rs)))
        (subst (All IsFirst) (sym rr) (All-append IsFirst o.ran ((0, e) ∷ []) f (refl, tt)))
  run_first-IsCarrying o es e q (unbound c w m r p i) c' w' k' = cc
  run_first-IsCarrying o es e q (shut c lost l f) c' w' k' = cc

  pub run_next-IsCarrying :
      (w : ℕ) (o : Observer A) (es : List (Entry A))
      → IsCarrying o es
      → IsCarrying (run_next w o) es
  run_next-IsCarrying v o es (unbound c w m r p i) =
      subst (λ x. IsCarrying x es) (sym (run_next_idle v o (i v).0)) (unbound c w m r p i)
  run_next-IsCarrying zero o es (bound c w p m h t i q f) =
      elim (queue-cases (o.wraps 0).context.queue) [
        | inl n ↦ subst (λ x. IsCarrying x es) (sym (run_next_idle 0 o n)) (bound c w p m h t i q f)
        | inr (e, r, k) ↦
            subst (λ x. IsCarrying x es) (sym (run_next_bound o e r c w h k))
              (run_first-IsCarrying o es e r (bound c w p m h t i q f) c w k)
      ]
  run_next-IsCarrying (suc v) o es (bound c w p m h t i q f) =
      subst (λ x. IsCarrying x es) (sym (run_next_idle (suc v) o (i v).0)) (bound c w p m h t i q f)
  run_next-IsCarrying v o es (shut c lost l f) =
      keeps_shut o (run_next v o) es c (run_next_shut v o c) lost l f

  pub close-queue : (c : Context (Entry A)) → c.queue ≡ [] → (close c).queue ≡ []
  unfolding close
  close-queue c q = ground arith

  pub destroy-IsCarrying :
      (w : ℕ) (o : Observer A) (es : List (Entry A))
      → IsCarrying o es
      → o.made ≢ 0
      → IsCarrying (destroy w o) es
  destroy-IsCarrying v o es (unbound c w m r p i) n = absurd (n m)
  destroy-IsCarrying zero o es (bound c w p m h t i q f) n =
      let d = destroy_owner 0 o t in keeps_shut' d
    where
      keeps_shut' :
          ((destroy 0 o).closed ≡ true) × ((destroy 0 o).ran ≡ o.ran) → IsCarrying (destroy 0 o) es
      keeps_shut' (c', r) =
          shut c' (o.wraps 0).context.queue
            (q ∙ ap (λ b. map entry_of b ++ (o.wraps 0).context.queue) (sym r))
            (subst (All IsFirst) (sym r) f)
  destroy-IsCarrying (suc v) o es (bound c w p m h t i q f) n =
      subst (λ x. IsCarrying x es) (sym (destroy_other (suc v) o (i v).1))
        (let x = record (o.wraps (suc v)) {
          alive = false;
          callback = false;
          context = close (o.wraps (suc v)).context;
        } in
          let e = other 0 (suc v) x (o.wraps 0) (λ e. absurd (omega arith)) in
          bound c w p m (subst IsOpen (sym e) h) (ap (λ y. y.owns_observer_binding) e ∙ t)
            (set_wrap-IsIdle (suc v) x o
              (inr (close-queue (o.wraps (suc v)).context (i v).0, (i v).1)) i)
            (q ∙ ap (λ y. map entry_of o.ran ++ y.context.queue) (sym e)) f)
  destroy-IsCarrying v o es (shut c lost l f) n =
      keeps_shut o (destroy v o) es c (destroy_shut v o c) lost l f
