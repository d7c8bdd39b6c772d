-- ===== src/RoomObserver/Calls.antt =====
-- src/video/room_observer_wrap.cpp: what a history of the Room is for one participant's observer.
use twilio_video_node.Base.{◌≡◌, refl, sym, ap, ◌∙◌, List, [], ◌∷◌, ◌++◌, append_assoc, arith}
use twilio_video_node.Participant
use twilio_video_node.Participant.{
  Entry, event, raw, Observer, create_observer, raises, creates, sets_callback, runs, destroys,
  accepted, taken, enqueue,
}
use twilio_video_node.RoomObserver.Events.{
  Room, Op, about, happens, departs, turns, closes, raws, dispatch_raw, call,
  on_participant_disconnected, emit, turn, close_room, step, run,
}
use twilio_video_node.RoomObserver.Caused.{raws-append}

module _ {ℓ} {A : Type ℓ} where
  pub run-append :
      (ps qs : List (Participant.Op A)) (o : Observer A)
      → Participant.run (ps ++ qs) o ≡ Participant.run qs (Participant.run ps o)
  unfolding Participant.run
  run-append [] qs o = refl
  run-append (p ∷ ps) qs o = run-append ps qs (Participant.step p o)

  pub accepted-append :
      (ps qs : List (Participant.Op A)) (o : Observer A)
      → accepted (ps ++ qs) o ≡ accepted ps o ++ accepted qs (Participant.run ps o)
  unfolding Participant.run Participant.step
  accepted-append [] qs o = refl
  accepted-append (p ∷ ps) qs o =
      ap (λ k. taken p o ++ k) (accepted-append ps qs (Participant.step p o))
      ∙ sym (
          append_assoc (taken p o) (accepted ps (Participant.step p o))
            (accepted qs (Participant.run ps (Participant.step p o))))

module _ {ℓ κ} {A : Type ℓ} {E : Type κ} where
  -- What the calls are for the participant.
  abbrev pub call_of : Op A E → List (Participant.Op A)
  call_of (about p) = p ∷ []
  call_of departs = raises (raw 0) ∷ []
  call_of o = []

  abbrev pub calls_of : List (Op A E) → List (Participant.Op A)
  calls_of [] = []
  calls_of (o ∷ os) = call_of o ++ calls_of os

  step-participant :
      (o : Op A E) (r : Room A E)
      → (step o r).participant ≡ Participant.run (call_of o) r.participant
  unfolding step call dispatch_raw on_participant_disconnected turn emit close_room Participant.run
      Participant.step
  step-participant o r = ground arith

  pub run-participant :
      (os : List (Op A E)) (r : Room A E)
      → (run os r).participant ≡ Participant.run (calls_of os) r.participant
  unfolding run Participant.run
  run-participant [] r = refl
  run-participant (o ∷ os) r =
      run-participant os (step o r)
      ∙ ap (Participant.run (calls_of os)) (step-participant o r)
      ∙ sym (run-append (call_of o) (calls_of os) r.participant)

  pub calls_of-append : (xs ys : List (Op A E)) → calls_of (xs ++ ys) ≡ calls_of xs ++ calls_of ys
  calls_of-append [] ys = refl
  calls_of-append (x ∷ xs) ys =
      ap (λ k. call_of x ++ k) (calls_of-append xs ys)
      ∙ sym (append_assoc (call_of x) (calls_of xs) (calls_of ys))

  -- The participant does not leave, and no other raw function is put on its queue.
  abbrev pub HasNoRaw : List (Op A E) → Type 0
  HasNoRaw [] = Unit
  HasNoRaw (about (raises (raw f)) ∷ os) = ⊥
  HasNoRaw (departs ∷ os) = ⊥
  HasNoRaw (o ∷ os) = HasNoRaw os

  no_raw_taken :
      (o : Op A E) (os : List (Op A E)) (u : Observer A)
      → HasNoRaw (o ∷ os)
      → (raws (accepted (call_of o) u) ≡ 0) × HasNoRaw os
  unfolding Participant.step
  no_raw_taken (about (raises (event a))) os u h = (ground arith, h)
  no_raw_taken (about (raises (raw f))) os u h = absurd h
  no_raw_taken (about creates) os u h = (refl, h)
  no_raw_taken (about Participant.closes) os u h = (refl, h)
  no_raw_taken (about (sets_callback w)) os u h = (refl, h)
  no_raw_taken (about (runs w)) os u h = (refl, h)
  no_raw_taken (about (destroys w)) os u h = (refl, h)
  no_raw_taken (happens e) os u h = (refl, h)
  no_raw_taken departs os u h = absurd h
  no_raw_taken turns os u h = (refl, h)
  no_raw_taken closes os u h = (refl, h)

  pub no_raw_accepted :
      (os : List (Op A E)) (u : Observer A) → HasNoRaw os → raws (accepted (calls_of os) u) ≡ 0
  unfolding Participant.step
  no_raw_accepted [] u h = refl
  no_raw_accepted (o ∷ os) u h =
      let (z, rest) = no_raw_taken o os u h in
      let later = no_raw_accepted os (Participant.run (call_of o) u) rest in
      ap raws (accepted-append (call_of o) (calls_of os) u)
      ∙ raws-append (accepted (call_of o) u)
          (accepted (calls_of os) (Participant.run (call_of o) u))
      ∙ omega arith
