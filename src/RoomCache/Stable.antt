-- ===== src/RoomCache/Stable.antt =====
-- src/video/room_wrap.cpp: a Room hands out the same wraps as long as it caches them.
use twilio_video_node.Base.{
  ℕ, ◌≡◌, ◌≢◌, inl, inr, refl, sym, subst, ap, ◌∙◌, Bool, true, List, [], ◌∷◌, Option, none, some,
  arith, Bool-cases, ◌==◌, if◌then◌else◌,
}
use twilio_video_node.RoomCache.{
  Cache, Op, reads, speaks, forgets, disposes, observes, step, run, forget_participant_wrap, find,
  remove, new_instance, cache_new, cached_or_new, each_participant, get_remote_participants,
  get_dominant_speaker,
}

-- A call after which the participants' wraps are still cached.
abbrev IsApart : List (ℕ × ℕ) → ℕ → Type 0
IsApart [] k = Unit
IsApart ((j, p) ∷ ps) k = (j ≢ k) × IsApart ps k

abbrev Spares : List (ℕ × ℕ) → Op → Type 0
Spares ps (forgets k) = IsApart ps k
Spares ps disposes = ⊥
Spares ps _ = Unit

abbrev pub SparesAll : List (ℕ × ℕ) → List Op → Type 0
SparesAll ps [] = Unit
SparesAll ps (o ∷ os) = Spares ps o × SparesAll ps os

module _ (sid : ℕ → ℕ) where
  -- A wrap that is cached stays so while others are made.
  find-cached_or_new :
      (o : Option ℕ) (j k p w : ℕ) (c : Cache)
      → find j c.wraps ≡ o
      → find k c.wraps ≡ some w
      → find k (cached_or_new sid o j p c).0.wraps ≡ some w
  unfolding cached_or_new cache_new new_instance find
  find-cached_or_new (some v) j k p w c e f = f
  find-cached_or_new none j k p w c e f = elim (Bool-cases (j == k)) [
    | inl t ↦ absurd (ground arith)
    | inr n ↦ rw n f
  ]

  find-each_participant :
      (ps : List (ℕ × ℕ)) (k w : ℕ) (c : Cache)
      → find k c.wraps ≡ some w
      → find k (each_participant sid ps c).0.wraps ≡ some w
  unfolding each_participant
  find-each_participant [] k w c f = f
  find-each_participant ((j, p) ∷ ps) k w c f =
      find-each_participant ps k w (cached_or_new sid (find j c.wraps) j p c).0
        (find-cached_or_new (find j c.wraps) j k p w c refl f)

  found_after :
      (o : Option ℕ) (k p : ℕ) (c : Cache)
      → find k c.wraps ≡ o
      → find k (cached_or_new sid o k p c).0.wraps ≡ some (cached_or_new sid o k p c).1
  unfolding cached_or_new cache_new new_instance find
  found_after (some w) k p c e = e
  found_after none k p c e = ground arith

  -- Each of the participants has its wrap in the cache.
  abbrev AreFound : List (ℕ × ℕ) → List ℕ → Cache → Type 0
  AreFound [] [] c = Unit
  AreFound ((k, p) ∷ ps) (w ∷ ws) c = (find k c.wraps ≡ some w) × AreFound ps ws c
  AreFound _ _ c = ⊥

  each_participant-AreFound :
      (ps : List (ℕ × ℕ)) (c : Cache)
      → AreFound ps (each_participant sid ps c).1 (each_participant sid ps c).0
  unfolding each_participant
  each_participant-AreFound [] c = tt
  each_participant-AreFound ((k, p) ∷ ps) c =
      let x = cached_or_new sid (find k c.wraps) k p c in
      (
        find-each_participant ps k x.1 x.0 (found_after (find k c.wraps) k p c refl),
        each_participant-AreFound ps x.0,
      )

  found_cached :
      (o : Option ℕ) (k p w : ℕ) (c : Cache) → o ≡ some w → cached_or_new sid o k p c ≡ (c, w)
  unfolding cached_or_new
  found_cached none k p w c e = cc
  found_cached (some v) k p w c e = ground arith

  each_found :
      (ps : List (ℕ × ℕ)) (ws : List ℕ) (c : Cache)
      → AreFound ps ws c
      → each_participant sid ps c ≡ (c, ws)
  unfolding each_participant
  each_found [] [] c f = refl
  each_found ((k, p) ∷ ps) (w ∷ ws) c f =
      let e = found_cached (find k c.wraps) k p w c f.0 in
      ap (λ x. ((each_participant sid ps x.0).0, x.1 ∷ (each_participant sid ps x.0).1)) e
      ∙ ap (λ y. (y.0, w ∷ y.1)) (each_found ps ws c f.1)
  each_found [] (w ∷ ws) c f = absurd f
  each_found (q ∷ ps) [] c f = absurd f

  find-remove :
      (j k w : ℕ) (ws : List (ℕ × ℕ)) → j ≢ k → find j ws ≡ some w → find j (remove k ws) ≡ some w
  unfolding find remove
  find-remove j k w [] n f = f
  find-remove j k w ((i, v) ∷ ws) n f = ground (arith, find-remove j k w ws n)

  remove-AreFound :
      (ps : List (ℕ × ℕ)) (ws : List ℕ) (k : ℕ) (c : Cache)
      → IsApart ps k
      → AreFound ps ws c
      → AreFound ps ws (forget_participant_wrap k c)
  unfolding forget_participant_wrap
  remove-AreFound [] [] k c n f = tt
  remove-AreFound ((j, p) ∷ ps) (w ∷ ws) k c n f =
      (find-remove j k w c.wraps n.0 f.0, remove-AreFound ps ws k c n.1 f.1)
  remove-AreFound [] (w ∷ ws) k c n f = absurd f
  remove-AreFound (q ∷ ps) [] k c n f = absurd f

  -- What keeps each wrap that is cached keeps them all.
  AreFound-kept :
      (ps : List (ℕ × ℕ)) (ws : List ℕ) (c d : Cache)
      → ((k w : ℕ) → find k c.wraps ≡ some w → find k d.wraps ≡ some w)
      → AreFound ps ws c
      → AreFound ps ws d
  AreFound-kept [] [] c d h f = tt
  AreFound-kept ((k, p) ∷ ps) (w ∷ ws) c d h f = (h k w f.0, AreFound-kept ps ws c d h f.1)
  AreFound-kept [] (w ∷ ws) c d h f = absurd f
  AreFound-kept (q ∷ ps) [] c d h f = absurd f

  find-get_remote_participants :
      (qs : List (ℕ × ℕ)) (k w : ℕ) (c : Cache)
      → find k c.wraps ≡ some w
      → find k (get_remote_participants sid qs c).0.wraps ≡ some w
  unfolding get_remote_participants
  find-get_remote_participants qs k w c f =
      let x = each_participant sid qs c in
      let kept = λ (b : Bool). find k (if b then x else (c, [])).0.wraps ≡ some w in
      elim (Bool-cases c.has_room) [
        | inl t ↦ subst kept (sym t) (find-each_participant qs k w c f)
        | inr n ↦ subst kept (sym n) f
      ]

  get_dominant_speaker-wraps :
      (o : Option ℕ) (c : Cache) → (get_dominant_speaker sid o c).0.wraps ≡ c.wraps
  unfolding get_dominant_speaker new_instance
  get_dominant_speaker-wraps none c = refl
  get_dominant_speaker-wraps (some p) c = ground arith

  step-AreFound :
      (o : Op) (ps : List (ℕ × ℕ)) (ws : List ℕ) (c : Cache)
      → Spares ps o
      → AreFound ps ws c
      → AreFound ps ws (step sid o c)
  unfolding step
  step-AreFound (reads qs) ps ws c n f =
      AreFound-kept ps ws c (get_remote_participants sid qs c).0
        (λ k w e. find-get_remote_participants qs k w c e) f
  step-AreFound (speaks p) ps ws c n f =
      AreFound-kept ps ws c (get_dominant_speaker sid p c).0
        (λ k w e. ap (find k) (get_dominant_speaker-wraps p c) ∙ e) f
  step-AreFound (forgets k) ps ws c n f = remove-AreFound ps ws k c n f
  step-AreFound disposes ps ws c n f = absurd n
  step-AreFound (observes o) ps ws c n f = AreFound-kept ps ws c _ (λ k w e. e) f

  cached_or_new-room :
      (o : Option ℕ) (k p : ℕ) (c : Cache) → (cached_or_new sid o k p c).0.has_room ≡ c.has_room
  unfolding cached_or_new cache_new new_instance
  cached_or_new-room none k p c = refl
  cached_or_new-room (some w) k p c = refl

  each_participant-room :
      (ps : List (ℕ × ℕ)) (c : Cache) → (each_participant sid ps c).0.has_room ≡ c.has_room
  unfolding each_participant
  each_participant-room [] c = refl
  each_participant-room ((k, p) ∷ ps) c =
      each_participant-room ps (cached_or_new sid (find k c.wraps) k p c).0
      ∙ cached_or_new-room (find k c.wraps) k p c

  with_room :
      (ps : List (ℕ × ℕ)) (c : Cache)
      → c.has_room ≡ true
      → get_remote_participants sid ps c ≡ each_participant sid ps c
  unfolding get_remote_participants
  with_room ps c r = ground arith

  step-room :
      (o : Op) (ps : List (ℕ × ℕ)) (c : Cache)
      → Spares ps o
      → c.has_room ≡ true
      → (step sid o c).has_room ≡ true
  unfolding step get_dominant_speaker new_instance forget_participant_wrap
  step-room (reads qs) ps c n r =
      ap (λ x. x.0.has_room) (with_room qs c r) ∙ each_participant-room qs c ∙ r
  step-room (speaks none) ps c n r = r
  step-room (speaks (some p)) ps c n r = ground arith
  step-room (forgets k) ps c n r = r
  step-room disposes ps c n r = absurd n
  step-room (observes o) ps c n r = r

  run-AreFound :
      (os : List Op) (ps : List (ℕ × ℕ)) (ws : List ℕ) (c : Cache)
      → SparesAll ps os
      → c.has_room ≡ true
      → AreFound ps ws c
      → get_remote_participants sid ps (run sid os c) ≡ (run sid os c, ws)
  unfolding run
  run-AreFound [] ps ws c n r f = with_room ps c r ∙ each_found ps ws c f
  run-AreFound (o ∷ os) ps ws c n r f =
      run-AreFound os ps ws (step sid o c) n.1 (step-room o ps c n.0 r)
        (step-AreFound o ps ws c n.0 f)

  -- While a Room is open and the departure of none of some participants is delivered, every read of them
  -- gives the same wraps and makes none, whatever other participants are read and whatever befalls the
  -- observers in between.
  pub same_wraps :
      (os : List Op) (ps : List (ℕ × ℕ)) (c : Cache)
      → SparesAll ps os
      → c.has_room ≡ true
      → let (d, ws) = get_remote_participants sid ps c in
        get_remote_participants sid ps (run sid os d) ≡ (run sid os d, ws)
  same_wraps os ps c n r =
      let x = each_participant sid ps c in
      subst (λ y. get_remote_participants sid ps (run sid os y.0) ≡ (run sid os y.0, y.1))
        (sym (with_room ps c r))
        (run-AreFound os ps x.1 x.0 n (each_participant-room ps c ∙ r)
          (each_participant-AreFound ps c))
