-- ===== src/Participant/Carry.antt =====
-- src/video/remote_participant_wrap.cpp: what an open observer and its wraps carry, and that raising an
-- event and binding a wrap keep it.
use twilio_video_node.Base.{
  ℕ, suc, ◌≤◌, ◌≡◌, ◌≢◌, ◌⊎◌, inl, inr, refl, sym, subst, ap, ap₂, ◌∙◌, true, false, List, [], ◌∷◌,
  ◌++◌, map, append_assoc, append-nil, none, some, All, arith, Bool-cases, ◌==◌, if◌then◌else◌,
}
use twilio_video_node.Async.{Context, open_context, dispatch}
use twilio_video_node.Async.Queue.{dispatch_unbounded}
use twilio_video_node.Participant.{
  Entry, Wrap, Observer, set_wrap, enqueue_locked, enqueue, replay, new_wrap, raises, taken,
}

module _ {ℓ} {A : Type ℓ} where
  abbrev pub entry_of : ℕ × Entry A → Entry A
  entry_of (w, e) = e

  abbrev pub IsFirst : ℕ × Entry A → Type 0
  IsFirst (w, e) = w ≡ 0

  -- A context that takes every entry.
  abbrev pub IsOpen : Wrap A → Type 0
  IsOpen x = (x.context.closed ≡ false) × (x.context.max_queue_depth ≡ 0) × (x.alive ≡ true)

  -- A wrap other than the first one gets nothing, and owns nothing.
  abbrev pub IsIdle : Wrap A → Type ℓ
  IsIdle x = (x.context.queue ≡ []) × (x.owns_observer_binding ≡ false)

  -- No wrap yet; a wrap; closed.
  pub data IsCarrying (o : Observer A) (es : List (Entry A)) : Type ℓ where
    unbound :
        o.closed ≡ false
        → o.wrap ≡ none
        → o.made ≡ 0
        → o.ran ≡ []
        → es ≡ o.pending
        → ((w : ℕ) → IsIdle (o.wraps w))
        → IsCarrying o es
    bound :
        o.closed ≡ false
        → o.wrap ≡ some 0
        → o.pending ≡ []
        → 1 ≤ o.made
        → IsOpen (o.wraps 0)
        → (o.wraps 0).owns_observer_binding ≡ true
        → ((w : ℕ) → IsIdle (o.wraps (suc w)))
        → es ≡ map entry_of o.ran ++ (o.wraps 0).context.queue
        → All IsFirst o.ran
        → IsCarrying o es
    shut :
        o.closed ≡ true
        → (lost : List (Entry A)) → es ≡ map entry_of o.ran ++ lost
        → All IsFirst o.ran
        → IsCarrying o es

  pub dispatch_open :
      (c : Context (Entry A)) (e : Entry A)
      → c.closed ≡ false
      → c.max_queue_depth ≡ 0
      → ((dispatch c e).queue ≡ c.queue ++ (e ∷ []))
        × ((dispatch c e).closed ≡ false)
        × ((dispatch c e).max_queue_depth ≡ 0)
  unfolding dispatch
  dispatch_open c e h k = ground (arith, dispatch_unbounded c e k)

  pub enqueue_unbound :
      (e : Entry A) (o : Observer A)
      → o.closed ≡ false
      → o.wrap ≡ none
      → enqueue e o ≡ record o { pending = o.pending ++ (e ∷ []) }
  unfolding enqueue
  enqueue_unbound e o c w = ground arith

  pub enqueue_bound :
      (e : Entry A) (o : Observer A) (v : ℕ)
      → o.closed ≡ false
      → o.wrap ≡ some v
      → enqueue e o ≡ enqueue_locked v e o
  unfolding enqueue
  enqueue_bound e o v c w = ground arith

  pub enqueue_shut : (e : Entry A) (o : Observer A) → o.closed ≡ true → enqueue e o ≡ o
  unfolding enqueue
  enqueue_shut e o c = ground arith

  pub append_nothing :
      (o : Observer A) (es : List (Entry A)) → IsCarrying o es → IsCarrying o (es ++ [])
  append_nothing o es c = subst (IsCarrying o) (sym (append-nil es)) c

  pub other : (w v : ℕ) (x y : Wrap A) → w ≢ v → (if w == v then x else y) ≡ y
  other w v x y n = ground arith

  pub same : (w : ℕ) (x y : Wrap A) → (if w == w then x else y) ≡ x
  same w x y = ground arith

  pub new_wrap-IsOpen : (x : Wrap A) → x ≡ new_wrap → IsOpen x
  unfolding new_wrap open_context
  new_wrap-IsOpen x e = subst IsOpen (sym e) (refl, refl, refl)

  pub new_wrap-IsIdle : (x : Wrap A) → x ≡ new_wrap → IsIdle x
  unfolding new_wrap open_context
  new_wrap-IsIdle x e = subst IsIdle (sym e) (refl, refl)

  -- A wrap set that is not the first, or that keeps what makes it idle, leaves the others idle.
  pub set_wrap-IsIdle :
      (v : ℕ) (x : Wrap A) (o : Observer A)
      → (v ≡ 0) ⊎ IsIdle x
      → ((w : ℕ) → IsIdle (o.wraps (suc w)))
      → (w : ℕ) → IsIdle ((set_wrap v x o).wraps (suc w))
  set_wrap-IsIdle v x o (inl z) i w =
      subst IsIdle (sym (other (suc w) v x (o.wraps (suc w)) (λ e. absurd (omega arith)))) (i w)
  set_wrap-IsIdle v x o (inr h) i w = elim (Bool-cases (suc w == v)) [
    | inl t ↦ subst (λ b. IsIdle (if b then x else o.wraps (suc w))) (sym t) h
    | inr f ↦ subst (λ b. IsIdle (if b then x else o.wraps (suc w))) (sym f) (i w)
  ]

  pub taken_open : (e : Entry A) (o : Observer A) → o.closed ≡ false → taken (raises e) o ≡ e ∷ []
  taken_open e o c = ground arith

  pub taken_shut : (e : Entry A) (o : Observer A) → o.closed ≡ true → taken (raises e) o ≡ []
  taken_shut e o c = ground arith

  pub enqueue-IsCarrying :
      (e : Entry A) (o : Observer A) (es : List (Entry A))
      → IsCarrying o es
      → IsCarrying (enqueue e o) (es ++ taken (raises e) o)
  unfolding enqueue enqueue_locked
  enqueue-IsCarrying e o es (unbound c w m r p i) =
      subst (λ x. IsCarrying x (es ++ taken (raises e) o)) (sym (enqueue_unbound e o c w))
        (unbound c w m r (ap₂ (λ a b. a ++ b) p (taken_open e o c)) i)
  enqueue-IsCarrying e o es (bound c w p m h t i q f) =
      subst (λ x. IsCarrying x (es ++ taken (raises e) o)) (sym (enqueue_bound e o 0 c w))
        (bound c w p m
          (
            (dispatch_open (o.wraps 0).context e h.0 h.1).1,
            (dispatch_open (o.wraps 0).context e h.0 h.1).2,
            h.2,
          )
          t (set_wrap-IsIdle 0 _ o (inl refl) i)
          (ap₂ (λ a b. a ++ b) q (taken_open e o c)
            ∙ append_assoc (map entry_of o.ran) (o.wraps 0).context.queue (e ∷ [])
            ∙ ap (λ b. map entry_of o.ran ++ b)
                (sym (dispatch_open (o.wraps 0).context e h.0 h.1).0))
          f)
  enqueue-IsCarrying e o es (shut c lost l f) =
      subst (λ x. IsCarrying x (es ++ taken (raises e) o)) (sym (enqueue_shut e o c))
        (shut c lost (ap (λ b. es ++ b) (taken_shut e o c) ∙ append-nil es ∙ l) f)

  -- What the loop of `bind` leaves.
  abbrev pub IsReplayed : List (Entry A) → Observer A → Observer A → Type ℓ
  IsReplayed es o u =
      (u.closed ≡ o.closed)
      × (u.wrap ≡ o.wrap)
      × (u.pending ≡ o.pending)
      × (u.made ≡ o.made)
      × (u.ran ≡ o.ran)
      × IsOpen (u.wraps 0)
      × ((u.wraps 0).context.queue ≡ (o.wraps 0).context.queue ++ es)
      × ((w : ℕ) → u.wraps (suc w) ≡ o.wraps (suc w))

  pub replay-IsReplayed :
      (es : List (Entry A)) (o : Observer A) → IsOpen (o.wraps 0) → IsReplayed es o (replay 0 es o)
  unfolding replay enqueue_locked
  replay-IsReplayed [] o h =
      (refl, refl, refl, refl, refl, h, sym (append-nil (o.wraps 0).context.queue), λ w. refl)
  replay-IsReplayed (e ∷ es) o h =
      let d = dispatch_open (o.wraps 0).context e h.0 h.1 in
      let (a, b, c, m, r, i, q, ws) = replay-IsReplayed es (enqueue_locked 0 e o) (d.1, d.2, h.2) in
      (
        a,
        b,
        c,
        m,
        r,
        i,
        q ∙ ap (λ b. b ++ es) d.0 ∙ append_assoc (o.wraps 0).context.queue (e ∷ []) es,
        λ w. ws w ∙ other (suc w) 0 _ (o.wraps (suc w)) (λ e. absurd (omega arith)),
      )
