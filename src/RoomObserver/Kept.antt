-- ===== src/RoomObserver/Kept.antt =====
-- src/video/room_observer_wrap.cpp: how long a participant's observer stays the one that events reach.
use twilio_video_node.Base.{
  ℕ, ◌<◌, ◌≡◌, ◌≢◌, ◌⊎◌, inl, inr, refl, true, false, List, [], ◌∷◌, Option, none, some, arith,
  ◌==◌, ltb, Bool-cases, subst, sym, ◌∙◌, ap, ==_iff,
}
use twilio_video_node.RoomObserver.{
  Registration, Registry, lookup, new_registry, create, is_usable, reuse, Op, gets, forgets, drops,
  closes, get_or_create, forget, step, run,
}
use twilio_video_node.RoomObserver.Lookup.{lookup-erase, close_all-found}
use twilio_video_node.RoomObserver.Registered.{
  IsValid, run-IsValid, new_registry-IsValid, entry_of, create-IsGot, reuse_same,
}

module _ (sid : ℕ → ℕ) where
  -- The observer is open and on record, and the participant calls it.
  abbrev IsHeld : ℕ → ℕ → Registry → Type 0
  IsHeld p b r =
      (r.shut b ≡ false)
      × (lookup (sid p) r.entries ≡ entry_of sid p b)
      × (r.attached p ≡ some b)
      × (r.made_for b ≡ p)
      × (b < r.made)

  -- A call that is not about the participant: it asks for it, or for one with another SID; it forgets one
  -- with another SID; or it drops an observer of another participant.
  abbrev IsApart : ℕ → Op → Registry → Type 0
  IsApart p (gets q) r = (q ≡ p) ⊎ (sid q ≢ sid p)
  IsApart p (forgets q) r = sid q ≢ sid p
  IsApart p (drops c) r = r.made_for c ≢ p
  IsApart p closes r = ⊥

  abbrev pub AreApart : ℕ → List Op → Registry → Type 0
  AreApart p [] r = Unit
  AreApart p (o ∷ os) r = IsApart p o r × AreApart p os (step sid o r)

  other_key : (p q : ℕ) → sid q ≢ sid p → (sid q == sid p) ≡ false
  other_key p q n = elim (Bool-cases (sid q == sid p)) [
    | inl t ↦ absurd (n (ground arith))
    | inr f ↦ f
  ]

  other_participant : (p q : ℕ) → sid q ≢ sid p → (p == q) ≡ false
  other_participant p q n = elim (Bool-cases (p == q)) [
    | inl t ↦ absurd (n (ap sid (sym ((==_iff p q).0 t))))
    | inr f ↦ f
  ]

  create-IsHeld :
      (p q b : ℕ) (r : Registry) → sid q ≢ sid p → IsHeld p b r → IsHeld p b (create (sid q) q r).0
  unfolding create lookup
  create-IsHeld p q b r n h =
      let k = other_key p q n in
      let o = other_participant p q n in
      (
        h.0,
        ground (arith, lookup-erase (sid p) (sid q) r.entries),
        ground arith,
        ground arith,
        omega arith,
      )

  reuse-IsHeld :
      (g : Option Registration) (p q b : ℕ) (r : Registry)
      → sid q ≢ sid p
      → IsHeld p b r
      → IsHeld p b (reuse g (sid q) q r).0
  unfolding reuse
  reuse-IsHeld none p q b r n h = create-IsHeld p q b r n h
  reuse-IsHeld (some g) p q b r n h = elim (Bool-cases (is_usable q g r)) [
    | inl u ↦ rw u h
    | inr f ↦ rw f (create-IsHeld p q b r n h)
  ]

  other_observer :
      (p b c : ℕ) (r : Registry) → r.made_for b ≡ p → r.made_for c ≢ p → (b == c) ≡ false
  other_observer p b c r e n = elim (Bool-cases (b == c)) [
    | inl t ↦ absurd (n (ap r.made_for (sym ((==_iff b c).0 t)) ∙ e))
    | inr f ↦ f
  ]

  not_that : (p q : ℕ) → q ≢ p → (p == q) ≡ false
  not_that p q n = elim (Bool-cases (p == q)) [
    | inl t ↦ absurd (n (sym ((==_iff p q).0 t)))
    | inr f ↦ f
  ]

  step-IsHeld :
      (o : Op) (p b : ℕ) (r : Registry) → IsApart p o r → IsHeld p b r → IsHeld p b (step sid o r)
  unfolding step get_or_create forget
  step-IsHeld (gets q) p b r (inl e) h =
      subst (λ x. IsHeld p b (get_or_create sid x r).0) (sym e)
        (subst (λ x. IsHeld p b x.0) (sym (reuse_same sid p b r h.0 h.1)) h)
  step-IsHeld (gets q) p b r (inr n) h = reuse-IsHeld (lookup (sid q) r.entries) p q b r n h
  step-IsHeld (forgets q) p b r n h =
      let k = other_key p q n in
      (h.0, ground (arith, lookup-erase (sid p) (sid q) r.entries), h.2, h.3, h.4)
  step-IsHeld (drops c) p b r n h = elim (Bool-cases (ltb c r.made)) [
    | inl t ↦ rw t (
        let k = other_observer p b c r h.3 n in
        let o = not_that p (r.made_for c) n in (ground arith, h.1, ground arith, h.3, h.4))
    | inr f ↦ rw f h
  ]
  step-IsHeld closes p b r n h = absurd n

  run-IsHeld :
      (os : List Op) (p b : ℕ) (r : Registry)
      → AreApart p os r
      → IsHeld p b r
      → IsHeld p b (run sid os r)
  unfolding run
  run-IsHeld [] p b r n h = h
  run-IsHeld (o ∷ os) p b r n h = run-IsHeld os p b (step sid o r) n.1 (step-IsHeld o p b r n.0 h)

  first_time :
      (p : ℕ) (r : Registry)
      → lookup (sid p) r.entries ≡ none
      → get_or_create sid p r ≡ create (sid p) p r
  unfolding get_or_create reuse
  first_time p r e = ground arith

  created-IsHeld :
      (p : ℕ) (r : Registry) → IsValid sid r → let x = create (sid p) p r in IsHeld p x.1 x.0
  unfolding create
  created-IsHeld p r v =
      let g = create-IsGot sid p r v in (g.0, g.1, ground arith, g.2, omega arith)

  held_kept :
      (os : List Op) (p b : ℕ) (u : Registry)
      → AreApart p os u
      → IsHeld p b u
      → let v = run sid os u in
        (get_or_create sid p v ≡ (v, b)) × (v.attached p ≡ some b) × (v.shut b ≡ false)
  held_kept os p b u n h =
      let k = run-IsHeld os p b u n h in (reuse_same sid p b (run sid os u) k.0 k.1, k.2, k.0)

  -- The observer made for a participant that is seen for the first time stays the participant's: as long
  -- as the Room is not closed, its SID is not forgotten, no other participant shows up with this SID and
  -- none of the participant's wraps is destroyed, every call returns it, open, and it is the one that the
  -- native participant calls.
  pub keeps_observer :
      (before after : List Op) (p : ℕ)
      → let r = run sid before new_registry in
        lookup (sid p) r.entries ≡ none
        → AreApart p after (get_or_create sid p r).0
        → let v = run sid after (get_or_create sid p r).0 in
          let b = (get_or_create sid p r).1 in
          (get_or_create sid p v ≡ (v, b)) × (v.attached p ≡ some b) × (v.shut b ≡ false)
  keeps_observer before after p e n =
      let r = run sid before new_registry in
      let v = run-IsValid sid before new_registry (new_registry-IsValid sid) in
      held_kept after p (get_or_create sid p r).1 (get_or_create sid p r).0 n
        (subst (λ x. IsHeld p x.1 x.0) (sym (first_time p r e)) (created-IsHeld p r v))

  -- Closing the Room closes every observer on record, and forgets them all.
  pub closed_registry :
      (r : Registry) (k : ℕ) (g : Registration)
      → lookup k r.entries ≡ some g
      → ((step sid closes r).shut g.observer ≡ true) × ((step sid closes r).entries ≡ [])
  unfolding step
  closed_registry r k g e = (close_all-found r.entries r.shut k g e, refl)
