-- ===== src/LocalParticipant/Carry.antt =====
-- src/video/local_participant_wrap.cpp: what the local participant's observer and its wrap carry, and
-- that an event and the making of the wrap keep it.
use twilio_video_node.Base.{
  ◌≡◌, inl, inr, refl, sym, subst, ap, ap₂, ◌∙◌, true, false, List, [], ◌∷◌, ◌++◌, append_assoc,
  append-nil, arith, Bool-cases,
}
use twilio_video_node.Async.{Context, open_context, dispatch}
use twilio_video_node.Async.Queue.{dispatch_unbounded}
use twilio_video_node.LocalParticipant.{
  Local, raises, dispatch_locked, dispatch_event, replay, bind, new_instance, get_local_participant,
  taken,
}

module _ {ℓ} {A : Type ℓ} where
  -- A context that takes every event.
  abbrev pub IsOpen : Context A → Type 0
  IsOpen c = (c.closed ≡ false) × (c.max_queue_depth ≡ 0)

  -- No wrap yet; a wrap; closed.
  pub data IsCarrying (l : Local A) (es : List A) : Type ℓ where
    unbound :
        l.closed ≡ false
        → l.bound ≡ false
        → l.made ≡ false
        → l.emitted ≡ []
        → es ≡ l.pending
        → IsCarrying l es
    bound :
        l.closed ≡ false
        → l.bound ≡ true
        → l.made ≡ true
        → l.pending ≡ []
        → IsOpen l.context
        → es ≡ l.emitted ++ l.context.queue
        → IsCarrying l es
    shut :
        l.closed ≡ true
        → l.bound ≡ false
        → (lost : List A) → es ≡ l.emitted ++ lost
        → IsCarrying l es

  dispatch-IsOpen :
      (c : Context A) (a : A)
      → IsOpen c
      → ((dispatch c a).queue ≡ c.queue ++ (a ∷ [])) × IsOpen (dispatch c a)
  unfolding dispatch
  dispatch-IsOpen c a h = ground (arith, dispatch_unbounded c a h.1)

  -- What the loop of `bind` does to a wrap's context.
  replay-IsOpen :
      (es : List A) (l : Local A)
      → IsOpen l.context
      → let u = replay es l in
        (u.context.queue ≡ l.context.queue ++ es)
        × IsOpen u.context
        × (u ≡ record l { context = u.context })
  unfolding replay dispatch_locked
  replay-IsOpen [] l h = (sym (append-nil l.context.queue), h, refl)
  replay-IsOpen (a ∷ es) l h =
      let d = dispatch-IsOpen l.context a h in
      let u = dispatch_locked a l in
      let (q, o, s) = replay-IsOpen es u d.1 in
      (q ∙ ap (λ x. x ++ es) d.0 ∙ append_assoc l.context.queue (a ∷ []) es, o, s)

  pub moved : (l u : Local A) (es fs : List A) → u ≡ l → fs ≡ es → IsCarrying l es → IsCarrying u fs
  moved l u es fs e f c = subst (λ x. IsCarrying x fs) (sym e) (subst (IsCarrying l) (sym f) c)

  event_unbound :
      (a : A) (l : Local A)
      → l.closed ≡ false
      → l.bound ≡ false
      → dispatch_event a l ≡ record l { pending = l.pending ++ (a ∷ []) }
  unfolding dispatch_event
  event_unbound a l c b = ground arith

  event_bound :
      (a : A) (l : Local A)
      → l.closed ≡ false
      → l.bound ≡ true
      → dispatch_event a l ≡ record l { context = dispatch l.context a }
  unfolding dispatch_event dispatch_locked
  event_bound a l c b = ground arith

  event_shut : (a : A) (l : Local A) → l.closed ≡ true → dispatch_event a l ≡ l
  unfolding dispatch_event
  event_shut a l c = ground arith

  taken_open : (a : A) (l : Local A) → l.closed ≡ false → taken (raises a) l ≡ a ∷ []
  taken_open a l c = ground arith

  taken_shut : (a : A) (l : Local A) → l.closed ≡ true → taken (raises a) l ≡ []
  taken_shut a l c = ground arith

  pub dispatch_event-IsCarrying :
      (a : A) (l : Local A) (es : List A)
      → IsCarrying l es
      → IsCarrying (dispatch_event a l) (es ++ taken (raises a) l)
  dispatch_event-IsCarrying a l es (unbound c b m r p) =
      moved _ _ _ _ (event_unbound a l c b) (ap (λ x. es ++ x) (taken_open a l c))
        (unbound c b m r (ap (λ x. x ++ (a ∷ [])) p))
  dispatch_event-IsCarrying a l es (bound c b m p h q) =
      let d = dispatch-IsOpen l.context a h in
      moved _ _ _ _ (event_bound a l c b) (ap (λ x. es ++ x) (taken_open a l c)) (
        bound c b m p d.1 (
          ap (λ x. x ++ (a ∷ [])) q
          ∙ append_assoc l.emitted l.context.queue (a ∷ [])
          ∙ ap (λ x. l.emitted ++ x) (sym d.0)))
  dispatch_event-IsCarrying a l es (shut c b lost q) =
      moved _ _ _ _ (event_shut a l c) (ap (λ x. es ++ x) (taken_shut a l c) ∙ append-nil es)
        (shut c b lost q)

  new_context-IsOpen : (c : Context A) → c ≡ open_context 0 → IsOpen c × (c.queue ≡ [])
  unfolding open_context
  new_context-IsOpen c e = subst (λ x. IsOpen x × (x.queue ≡ [])) (sym e) ((refl, refl), refl)

  abbrev new_wrap : Local A → Local A
  new_wrap l = record l { made = true; alive = true; context = open_context 0; callback = false }

  get_made : (l : Local A) → l.made ≡ true → get_local_participant l ≡ l
  unfolding get_local_participant
  get_made l m = ground arith

  get_without_room : (l : Local A) → l.room ≡ false → get_local_participant l ≡ l
  unfolding get_local_participant
  get_without_room l m = ground arith

  get_new :
      (l : Local A)
      → l.room ≡ true
      → l.made ≡ false
      → l.closed ≡ false
      → l.bound ≡ false
      → get_local_participant l
        ≡ replay l.pending (record (new_wrap l) { bound = true; pending = [] })
  unfolding get_local_participant new_instance bind
  get_new l r m c b = ground arith

  get_shut :
      (l : Local A)
      → l.closed ≡ true
      → let u = get_local_participant l in
        (u.closed ≡ true) × (u.bound ≡ l.bound) × (u.emitted ≡ l.emitted)
  unfolding get_local_participant new_instance bind
  get_shut l c = ground arith

  pub keeps_shut :
      (l u : Local A) (es : List A) (lost : List A)
      → l.bound ≡ false
      → es ≡ l.emitted ++ lost
      → (u.closed ≡ true) × (u.bound ≡ l.bound) × (u.emitted ≡ l.emitted)
      → IsCarrying u es
  keeps_shut l u es lost b q (c, k, e) = shut c (k ∙ b) lost (q ∙ ap (λ x. x ++ lost) (sym e))

  pub get-IsCarrying :
      (l : Local A) (es : List A) → IsCarrying l es → IsCarrying (get_local_participant l) es
  get-IsCarrying l es (unbound c b m r p) = elim (Bool-cases l.room) [
    | inr f ↦ moved _ _ _ _ (get_without_room l f) refl (unbound c b m r p)
    | inl t ↦
        let (o, n) = new_context-IsOpen (open_context 0) refl in
        let w = record (new_wrap l) { bound = true; pending = [] } in
        let (q, h, s) = replay-IsOpen l.pending w o in
        moved _ _ _ _ (get_new l t m c b ∙ s) refl (
          bound c refl refl refl h
            (p ∙ ap₂ (λ x y. x ++ y) (sym r) (sym (q ∙ ap (λ x. x ++ l.pending) n))))
  ]
  get-IsCarrying l es (bound c b m p h q) = moved _ _ _ _ (get_made l m) refl (bound c b m p h q)
  get-IsCarrying l es (shut c b lost q) = keeps_shut l _ es lost b q (get_shut l c)
