-- ===== src/RoomObserver/Registered.antt =====
-- src/video/room_observer_wrap.cpp: which observer a participant has.
use twilio_video_node.Base.{
  ltb→lt, ◌∙◌, Bool-cases, inl, inr, ℕ, ◌≤◌, ◌<◌, ◌≡◌, ◌≢◌, refl, false, List, [], ◌∷◌, Option,
  none, some, arith, ltb,
}
use twilio_video_node.RoomObserver.{
  Registration, Registry, lookup, erase, new_registry, create, is_usable, reuse, Op, gets, forgets,
  drops, closes, get_or_create, forget, step, run,
}
use twilio_video_node.RoomObserver.Lookup.{
  lookup-erase, Below, Below-erase, Below-suc, close_all-fresh,
}

nothing_found : (k : ℕ) (g : Registration) → lookup k [] ≢ some g
unfolding lookup
nothing_found k g e = cc

module _ (sid : ℕ → ℕ) where
  -- An entry stands under its participant's SID, with an observer made for that participant.
  abbrev Filed : Registry → ℕ → Registration → Type 0
  Filed r k g =
      (k ≡ sid g.participant) × (r.made_for g.observer ≡ g.participant) × (g.observer < r.made)

  pub record IsValid (r : Registry) : Type 0 where
    pub filed : (k : ℕ) (g : Registration) → lookup k r.entries ≡ some g → Filed r k g
    pub below : Below r.made r.entries
    pub fresh : (b : ℕ) → r.made ≤ b → r.shut b ≡ false

  create-IsValid : (p : ℕ) (r : Registry) → IsValid r → IsValid (create (sid p) p r).0
  unfolding create lookup
  create-IsValid p r v = record {
    filed = λ k g e. ground (arith, lookup-erase k (sid p) r.entries, v.filed k g);
    below = (
      omega arith,
      Below-suc r.made (erase (sid p) r.entries) (Below-erase r.made (sid p) r.entries v.below),
    );
    fresh = λ b l. ground (arith, v.fresh b);
  }

  reuse-IsValid :
      (o : Option Registration) (p : ℕ) (r : Registry) → IsValid r → IsValid (reuse o (sid p) p r).0
  unfolding reuse
  reuse-IsValid none p r v = create-IsValid p r v
  reuse-IsValid (some g) p r v = elim (Bool-cases (is_usable p g r)) [
    | inl u ↦ rw u v
    | inr n ↦ rw n (create-IsValid p r v)
  ]

  step-IsValid : (o : Op) (r : Registry) → IsValid r → IsValid (step sid o r)
  unfolding step get_or_create forget
  step-IsValid (gets p) r v = reuse-IsValid (lookup (sid p) r.entries) p r v
  step-IsValid (forgets p) r v = record {
    filed = λ k g e. ground (arith, lookup-erase k (sid p) r.entries, v.filed k g);
    below = Below-erase r.made (sid p) r.entries v.below;
    fresh = v.fresh;
  }
  step-IsValid (drops b) r v = elim (Bool-cases (ltb b r.made)) [
    | inl t ↦ rw t (record {
      filed = v.filed;
      below = v.below;
      fresh = λ c l. ground (arith, v.fresh c, ltb→lt b r.made t);
    })
    | inr f ↦ rw f v
  ]
  step-IsValid closes r v = record {
    filed = λ k g e. absurd (nothing_found k g e);
    below = tt;
    fresh = λ b l. close_all-fresh r.entries r.shut r.made b v.below l ∙ v.fresh b l;
  }

  pub run-IsValid : (os : List Op) (r : Registry) → IsValid r → IsValid (run sid os r)
  unfolding run
  run-IsValid [] r v = v
  run-IsValid (o ∷ os) r v = run-IsValid os (step sid o r) (step-IsValid o r v)

  pub new_registry-IsValid : IsValid new_registry
  unfolding new_registry
  new_registry-IsValid = record {
    filed = λ k g e. absurd (nothing_found k g e);
    below = tt;
    fresh = λ b l. refl;
  }

  abbrev pub entry_of : ℕ → ℕ → Option Registration
  entry_of p b = some (record { participant = p; observer = b })

  -- The observer that a call gives is open, on record for the participant, and made for it; the next
  -- call gives it again and changes nothing.
  abbrev pub IsGot : ℕ → Registry × ℕ → Type 0
  IsGot p (u, b) =
      (u.shut b ≡ false)
      × (lookup (sid p) u.entries ≡ entry_of p b)
      × (u.made_for b ≡ p)
      × (get_or_create sid p u ≡ (u, b))

  pub reuse_same :
      (p b : ℕ) (r : Registry)
      → r.shut b ≡ false
      → lookup (sid p) r.entries ≡ entry_of p b
      → get_or_create sid p r ≡ (r, b)
  unfolding get_or_create reuse
  reuse_same p b r s e = ground arith

  pub create-IsGot : (p : ℕ) (r : Registry) → IsValid r → IsGot p (create (sid p) p r)
  unfolding create lookup
  create-IsGot p r v =
      let u = (create (sid p) p r).0 in
      let s : u.shut r.made ≡ false = v.fresh r.made (omega arith) in
      let e : lookup (sid p) u.entries ≡ entry_of p r.made = ground arith in
      (s, e, ground arith, reuse_same p r.made u s e)

  reuse-IsGot :
      (o : Option Registration) (p : ℕ) (r : Registry)
      → IsValid r
      → lookup (sid p) r.entries ≡ o
      → IsGot p (reuse o (sid p) p r)
  unfolding reuse
  reuse-IsGot none p r v e = create-IsGot p r v
  reuse-IsGot (some g) p r v e = elim (Bool-cases (is_usable p g r)) [
    | inl u ↦ rw u (
        let s : r.shut g.observer ≡ false = ground arith in
        let f : lookup (sid p) r.entries ≡ entry_of p g.observer = ground arith in
        (s, f, ground (arith, v.filed (sid p) g), reuse_same p g.observer r s f))
    | inr n ↦ rw n (create-IsGot p r v)
  ]

  -- After any calls, the observer that `GetOrCreateParticipantObserver` returns is an open one, made for
  -- this native participant, and is on record under its SID, so that asking again returns the same
  -- observer and installs no other.
  pub get_or_create-IsGot :
      (os : List Op) (p : ℕ) → IsGot p (get_or_create sid p (run sid os new_registry))
  unfolding get_or_create
  get_or_create-IsGot os p =
      let r = run sid os new_registry in
      reuse-IsGot (lookup (sid p) r.entries) p r (run-IsValid os new_registry new_registry-IsValid)
        refl
