-- ===== src/RemoteData/Registry/Filed.antt =====
-- src/media/remote_data_track_wrap.cpp: what stands in the registry of observers is open, and is what the
-- track at its address calls.
use twilio_video_node.Base.{
  ℕ, ◌<◌, ◌≤◌, ◌≡◌, ◌≢◌, inl, inr, refl, sym, subst, ap, ◌∙◌, Bool, true, false, ◌&&◌, List, [],
  ◌∷◌, Option, none, some, All, arith, Bool-cases, ==_iff, ◌==◌, if◌then◌else◌,
}
use twilio_video_node.RoomObserver.{update}
use twilio_video_node.RemoteData.Registry.{
  DataTrackRegistration, Registry, find, erase, prune, new_registry, Op, wraps, closes, frees,
  releases, create, reuse, observer_of, close_found, close_observer, step, run,
}

module _ (address : ℕ → ℕ) where
  -- What is on record is open, and is what the track at this address calls.
  abbrev pub IsFiled : Registry → ℕ × DataTrackRegistration → Type 0
  IsFiled r (k, g) =
      (r.made_for g.observer ≡ g.track)
      × (address g.track ≡ k)
      × (g.observer < r.made)
      × (r.closed g.observer ≡ false)
      × (r.attached g.track ≡ some g.observer)

  pub record IsValid (r : Registry) : Type 0 where
    pub filed : All (IsFiled r) r.entries
    pub fresh : (b : ℕ) → r.made ≤ b → r.closed b ≡ false

  All-prune :
      (P : ℕ × DataTrackRegistration → Type 0) (live owned : ℕ → Bool)
      (es : List (ℕ × DataTrackRegistration))
      → All P es
      → All P (prune live owned es)
  unfolding prune
  All-prune P live owned [] a = tt
  All-prune P live owned ((j, g) ∷ es) a = elim (Bool-cases (live g.track && owned g.observer)) [
    | inl t ↦ rw t (a.0, All-prune P live owned es a.1)
    | inr f ↦ rw f (All-prune P live owned es a.1)
  ]

  All-erase :
      (P Q : ℕ × DataTrackRegistration → Type 0) (k : ℕ)
      → ((j : ℕ) (g : DataTrackRegistration) → j ≢ k → P (j, g) → Q (j, g))
      → (es : List (ℕ × DataTrackRegistration)) → All P es
      → All Q (erase k es)
  unfolding erase
  All-erase P Q k h [] a = tt
  All-erase P Q k h ((j, g) ∷ es) a = elim (Bool-cases (j == k)) [
    | inl t ↦ rw t (All-erase P Q k h es a.1)
    | inr f ↦ rw f (h j g (λ e. absurd (ground arith)) a.0, All-erase P Q k h es a.1)
  ]

  abbrev or_that : DataTrackRegistration → Option DataTrackRegistration → DataTrackRegistration
  or_that h none = h
  or_that h (some g) = g

  pub All-find :
      (P : ℕ × DataTrackRegistration → Type 0) (k : ℕ) (g : DataTrackRegistration)
      (es : List (ℕ × DataTrackRegistration))
      → All P es
      → find k es ≡ some g
      → P (k, g)
  unfolding find
  All-find P k g [] a e = cc
  All-find P k g ((j, h) ∷ es) a e = elim (Bool-cases (j == k)) [
    | inl t ↦
        let same : some h ≡ some g = ground arith in
        subst (λ i. P (i, g)) ((==_iff j k).0 t) (subst (λ x. P (j, x)) (ap (or_that h) same) a.0)
    | inr f ↦ All-find P k g es a.1 (ground arith)
  ]

  other_track : (t u : ℕ) → u ≢ t → (u == t) ≡ false
  other_track t u n = elim (Bool-cases (u == t)) [
    | inl e ↦ absurd (n ((==_iff u t).0 e))
    | inr f ↦ f
  ]

  create-IsFiled :
      (t : ℕ) (r : Registry) (j : ℕ) (g : DataTrackRegistration)
      → j ≢ address t
      → IsFiled r (j, g)
      → IsFiled (create address t r).0 (j, g)
  unfolding create
  create-IsFiled t r j g n (m, a, l, c, h) =
      let f = other_track t g.track (λ e. n (sym a ∙ ap address e)) in
      let k : (g.observer == r.made) ≡ false = ground arith in
      (ground arith, a, omega arith, c, ground arith)

  create-IsValid : (t : ℕ) (r : Registry) → IsValid r → IsValid (create address t r).0
  unfolding create
  create-IsValid t r v = record {
    filed = (
      (ground arith, refl, omega arith, v.fresh r.made (omega arith), ground arith),
      All-erase (IsFiled r) (IsFiled (create address t r).0) (address t) (create-IsFiled t r)
          (prune r.live r.owned r.entries) (All-prune (IsFiled r) r.live r.owned r.entries v.filed),
    );
    fresh = λ b l. v.fresh b (omega arith);
  }

  reuse-IsValid :
      (o : Option DataTrackRegistration) (t : ℕ) (r : Registry)
      → IsValid r
      → IsValid (reuse address o t r).0
  unfolding reuse
  reuse-IsValid none t r v = create-IsValid t r v
  reuse-IsValid (some g) t r v = elim (Bool-cases (g.track == t && r.owned g.observer)) [
    | inl u ↦ rw u v
    | inr f ↦ rw f (create-IsValid t r v)
  ]

  detached-IsFiled :
      (t : ℕ) (r : Registry) (j : ℕ) (g : DataTrackRegistration)
      → j ≢ address t
      → IsFiled r (j, g)
      → IsFiled (record r { attached = update t none r.attached }) (j, g)
  detached-IsFiled t r j g n (m, a, l, c, h) =
      let f = other_track t g.track (λ e. n (sym a ∙ ap address e)) in (m, a, l, c, ground arith)

  erase_missing :
      (k : ℕ) (es : List (ℕ × DataTrackRegistration)) → find k es ≡ none → erase k es ≡ es
  unfolding find erase
  erase_missing k [] e = refl
  erase_missing k ((j, g) ∷ es) e = elim (Bool-cases (j == k)) [
    | inl t ↦ absurd (ground arith)
    | inr f ↦ rw f (ap (λ x. (j, g) ∷ x) (erase_missing k es (ground arith)))
  ]

  other_observer :
      (r : Registry) (j k : ℕ) (g h : DataTrackRegistration)
      → j ≢ k
      → IsFiled r (k, g)
      → IsFiled r (j, h)
      → (h.observer == g.observer) ≡ false
  other_observer r j k g h n f i = elim (Bool-cases (h.observer == g.observer)) [
    | inl t ↦ absurd (
        n (
          sym i.1
          ∙ ap address (sym i.0 ∙ ap r.made_for ((==_iff h.observer g.observer).0 t) ∙ f.0)
          ∙ f.1))
    | inr e ↦ e
  ]

  -- The flags after the observer of `g` is closed, where it is still there.
  abbrev closed_with : DataTrackRegistration → Registry → ℕ → Bool
  closed_with g r = if r.owned g.observer then update g.observer true r.closed else r.closed

  closed_with-eq :
      (g : DataTrackRegistration) (r : Registry) (b : ℕ)
      → (b == g.observer) ≡ false
      → closed_with g r b ≡ r.closed b
  closed_with-eq g r b n = elim (Bool-cases (r.owned g.observer)) [
    | inl t ↦ rw t (ground arith)
    | inr f ↦ rw f refl
  ]

  closed-IsFiled :
      (t : ℕ) (g : DataTrackRegistration) (r : Registry) (j : ℕ) (h : DataTrackRegistration)
      → IsFiled r (address t, g)
      → j ≢ address t
      → IsFiled r (j, h)
      → IsFiled
          (close_found address (some g) t (record r { attached = update t none r.attached }))
          (j, h)
  unfolding close_found
  closed-IsFiled t g r j h f n i =
      let d = detached-IsFiled t r j h n i in
      let k = other_observer r j (address t) g h n f i in
      (d.0, d.1, d.2, closed_with-eq g r h.observer k ∙ d.3, d.4)

  close_found-IsValid :
      (o : Option DataTrackRegistration) (t : ℕ) (r : Registry)
      → IsValid r
      → find (address t) r.entries ≡ o
      → IsValid (close_found address o t (record r { attached = update t none r.attached }))
  unfolding close_found
  close_found-IsValid none t r v e = record {
    filed =
        subst (All (IsFiled (record r { attached = update t none r.attached })))
          (erase_missing (address t) r.entries e)
          (All-erase (IsFiled r) (IsFiled (record r { attached = update t none r.attached }))
            (address t) (detached-IsFiled t r) r.entries v.filed);
    fresh = v.fresh;
  }
  close_found-IsValid (some g) t r v e =
      let f = All-find (IsFiled r) (address t) g r.entries v.filed e in
      record {
        filed =
            All-erase (IsFiled r)
              (IsFiled
                (close_found address (some g) t (record r { attached = update t none r.attached })))
              (address t) (λ j h n i. closed-IsFiled t g r j h f n i) r.entries v.filed;
        fresh = λ b l.
            let k : (b == g.observer) ≡ false = ground (arith, f.2) in
            closed_with-eq g r b k ∙ v.fresh b l;
      }

  step-IsValid : (o : Op) (r : Registry) → IsValid r → IsValid (step address o r)
  unfolding step observer_of close_observer
  step-IsValid (wraps t) r v = reuse-IsValid (find (address t) r.entries) t r v
  step-IsValid (closes t) r v = close_found-IsValid (find (address t) r.entries) t r v refl
  step-IsValid (frees t) r v = record { filed = v.filed; fresh = v.fresh }
  step-IsValid (releases b) r v = record { filed = v.filed; fresh = v.fresh }

  pub run-IsValid : (os : List Op) (r : Registry) → IsValid r → IsValid (run address os r)
  unfolding run
  run-IsValid [] r v = v
  run-IsValid (o ∷ os) r v = run-IsValid os (step address o r) (step-IsValid o r v)

  pub new_registry-IsValid : IsValid new_registry
  unfolding new_registry
  new_registry-IsValid = record { filed = tt; fresh = λ b l. refl }
