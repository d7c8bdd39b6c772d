-- ===== src/RoomObserver/Departed.antt =====
-- src/video/room_observer_wrap.cpp: `participantDisconnected` comes after the participant's own events.
use twilio_video_node.Base.{
  Bool-cases, ℕ, zero, suc, ◌≤◌, ◌≡◌, refl, sym, ap, subst, ◌∙◌, ◌⊎◌, inl, inr, List, [], ◌∷◌, ◌++◌,
  map, arith,
}
use twilio_video_node.Participant
use twilio_video_node.Participant.{
  Entry, event, raw, Observer, create_observer, raises, creates, sets_callback, runs, destroys,
  accepted, taken, enqueue,
}
use twilio_video_node.Participant.Carry.{entry_of, taken_open, taken_shut}
use twilio_video_node.Participant.Order.{run-IsInOrder, IsInOrder, waiting}
use twilio_video_node.RoomObserver.Events.{Room, Op, departs, is_raw, raws, new_room, run}
use twilio_video_node.RoomObserver.Caused.{
  prefix_split, raws-append, raws_run-map, departures, IsCaused, run-IsCaused, new_room-IsCaused,
}
use twilio_video_node.RoomObserver.Calls.{
  accepted-append, calls_of, run-participant, calls_of-append, HasNoRaw, no_raw_accepted,
}

zero_or_more : (n : ℕ) → (n ≡ 0) ⊎ (1 ≤ n)
zero_or_more zero = inl refl
zero_or_more (suc n) = inr (omega arith)

module _ {ℓ κ} {A : Type ℓ} {E : Type κ} where
  -- What the participant's observer has taken, from the departure on.
  taken_later : List (Op A E) → Observer A → List (Entry A)
  unfolding Participant.step
  taken_later later u =
      taken (raises (raw 0)) u ++ accepted (calls_of later) (Participant.step (raises (raw 0)) u)

  -- What stands after the entries taken before the departure begins with the raw function.
  starts_raw :
      (later : List (Op A E)) (u : Observer A) (q rest : List (Entry A))
      → HasNoRaw later
      → taken_later later u ≡ q ++ rest
      → 1 ≤ raws q
      → (more : List (Entry A)) × (q ≡ raw 0 ∷ more) × (raws q ≡ 1)
  unfolding taken_later
  starts_raw later u [] rest h e l = absurd (omega arith)
  starts_raw later u (x ∷ q) rest h e l =
      let acc = accepted (calls_of later) (Participant.step (raises (raw 0)) u) in
      let z = no_raw_accepted later (Participant.step (raises (raw 0)) u) h in
      elim (Bool-cases u.closed) [
        | inl t ↦
            let e' : acc ≡ (x ∷ q) ++ rest =
              ap (λ k. k ++ acc) (sym (taken_shut (raw 0) u t)) ∙ e in
            absurd (omega (arith, ap raws e', raws-append (x ∷ q) rest))
        | inr f ↦
            let e' : (raw 0 ∷ acc) ≡ x ∷ (q ++ rest) =
              ap (λ k. k ++ acc) (sym (taken_open (raw 0) u f)) ∙ e in
            let head : x ≡ raw 0 = ground arith in
            let tail : acc ≡ q ++ rest = ground arith in
            (
              q,
              ap (λ k. k ∷ q) head,
              omega (arith, ap is_raw head, ap raws tail, raws-append q rest),
            )
      ]

  -- What the departure, once it was emitted, finds.
  abbrev pub IsLast : List (Op A E) → Room A E → Type ℓ
  IsLast before r =
      (departures r.emitted ≡ 0)
      ⊎ ((departures r.emitted ≡ 1)
          × (more : List (Entry A)) × (map entry_of r.participant.ran
              ≡ accepted (calls_of before) create_observer ++ (raw 0 ∷ more)))

  IsLast-of_prefix :
      (before later : List (Op A E)) (r : Room A E) (rest : List (Entry A))
      → HasNoRaw before
      → HasNoRaw later
      → IsCaused r
      → accepted (calls_of before) create_observer
          ++ taken_later later (Participant.run (calls_of before) create_observer)
        ≡ map entry_of r.participant.ran ++ rest
      → 1 ≤ departures r.emitted
      → IsLast before r
  IsLast-of_prefix before later r rest b h c e l =
      let ps = accepted (calls_of before) create_observer in
      let u = Participant.run (calls_of before) create_observer in
      let n = raws_run-map r.participant.ran in
      let z = no_raw_accepted before create_observer b in
      let (q, f, k) =
        prefix_split ps (taken_later later u) (map entry_of r.participant.ran) rest e z
          (omega (arith, c.0)) in
      let m = ap raws f ∙ raws-append ps q in
      let (more, s, one) = starts_raw later u q rest h k (omega (arith, c.0)) in
      inr (omega (arith, c.0), more, f ∙ ap (λ x. ps ++ x) s)

  -- All that the observer took in a history with the departure in it.
  took_all :
      (before later : List (Op A E))
      → let u = Participant.run (calls_of before) create_observer in
        accepted (calls_of (before ++ (departs ∷ later))) create_observer
        ≡ accepted (calls_of before) create_observer ++ taken_later later u
  unfolding taken_later
  took_all before later =
      ap (λ ps. accepted ps create_observer) (calls_of-append before (departs ∷ later))
      ∙ accepted-append (calls_of before) (raises (raw 0) ∷ calls_of later) create_observer

  new_room-participant : (r : Room A E) → r ≡ new_room → r.participant ≡ create_observer
  unfolding new_room
  new_room-participant r e = ap (λ x. x.participant) e

  IsLast-in_order :
      (before later : List (Op A E)) (r : Room A E)
      → HasNoRaw before
      → HasNoRaw later
      → IsCaused r
      → IsInOrder r.participant (accepted (calls_of (before ++ (departs ∷ later))) create_observer)
      → IsLast before r
  IsLast-in_order before later r b h c i = elim (zero_or_more (departures r.emitted)) [
    | inl z ↦ inl z
    | inr l ↦ elim i [
      | inl (o, e) ↦
          IsLast-of_prefix before later r (waiting r.participant) b h c
            (sym (took_all before later) ∙ e) l
      | inr (o, lost, e) ↦
          IsLast-of_prefix before later r lost b h c (sym (took_all before later) ∙ e) l
    ]
  ]

  -- A participant that leaves, in a history with one departure of it and no other raw function on its
  -- queue: `participantDisconnected` is emitted once at most, and when it has been emitted, every event
  -- of the participant that its observer took before the departure has been run, in order, before it.
  pub departs-IsLast :
      (before later : List (Op A E))
      → HasNoRaw before
      → HasNoRaw later
      → IsLast before (run (before ++ (departs ∷ later)) new_room)
  departs-IsLast before later b h =
      let os = before ++ (departs ∷ later) in
      let same =
        run-participant os new_room
        ∙ ap (Participant.run (calls_of os)) (new_room-participant new_room refl) in
      IsLast-in_order before later (run os new_room) b h
        (run-IsCaused os new_room (new_room-IsCaused new_room refl))
        (subst (λ o. IsInOrder o (accepted (calls_of os) create_observer)) (sym same)
          (run-IsInOrder (calls_of os)).1)
