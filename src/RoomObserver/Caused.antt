-- ===== src/RoomObserver/Caused.antt =====
-- src/video/room_observer_wrap.cpp: each `participantDisconnected` on its way comes from a raw function
-- that the participant's queue has run.
use twilio_video_node.Base.{
  List-cases, Option-cases, some, ℕ, suc, ◌+◌, ◌≤◌, ◌≡◌, refl, sym, ap, ap₂, subst, inl, inr, List,
  [], ◌∷◌, ◌++◌, map, arith,
}
use twilio_video_node.Async.{Context, open_context, dispatch, close}
use twilio_video_node.Async.Queue.{dispatch_unbounded}
use twilio_video_node.Participant
use twilio_video_node.Participant.{
  Entry, event, raw, Observer, create_observer, raises, creates, sets_callback, runs, destroys,
  accepted, taken, enqueue,
}
use twilio_video_node.Participant.Deliver.{queue-cases}
use twilio_video_node.Participant.Carry.{entry_of}
use twilio_video_node.RoomObserver.Events.{
  RoomEntry, room_event, departed, Room, Op, about, happens, departs, turns, closes, is_raw, raws,
  raws_run, new_room, dispatch_raw, call, on_participant_disconnected, emit, turn, close_room, step,
  run,
}

module _ {ℓ} {A : Type ℓ} where
  -- Where a list without raw functions and one with some begin the same list, the first begins the
  -- second.
  pub prefix_split :
      (front back first rest : List (Entry A))
      → front ++ back ≡ first ++ rest
      → raws front ≡ 0
      → 1 ≤ raws first
      → (q : List (Entry A)) × (first ≡ front ++ q) × (back ≡ q ++ rest)
  prefix_split [] back first rest e z l = (first, refl, e)
  prefix_split (a ∷ front) back [] rest e z l = absurd (omega arith)
  prefix_split (a ∷ front) back (p ∷ first) rest e z l =
      let same : a ≡ p = ground arith in
      let r : front ++ back ≡ first ++ rest = ground arith in
      let (q, f, b) =
        prefix_split front back first rest r (omega arith) (omega (arith, ap is_raw same)) in
      (q, ap₂ (λ x y. x ∷ y) (sym same) f, b)

  pub raws-append : (xs ys : List (Entry A)) → raws (xs ++ ys) ≡ raws xs + raws ys
  raws-append [] ys = omega arith
  raws-append (x ∷ xs) ys = omega (arith, raws-append xs ys)

  pub raws_run-map : (xs : List (ℕ × Entry A)) → raws (map entry_of xs) ≡ raws_run xs
  raws_run-map [] = refl
  raws_run-map ((w, e) ∷ xs) = omega (arith, raws_run-map xs)

  raws_run-snoc :
      (xs : List (ℕ × Entry A)) (w : ℕ) (e : Entry A) → raws_run xs ≤ raws_run (xs ++ ((w, e) ∷ []))
  raws_run-snoc [] w e = omega arith
  raws_run-snoc ((v, d) ∷ xs) w e = omega (arith, raws_run-snoc xs w e)

  replay-ran :
      (w : ℕ) (es : List (Entry A)) (o : Observer A) → (Participant.replay w es o).ran ≡ o.ran
  unfolding Participant.replay Participant.enqueue_locked
  replay-ran w [] o = refl
  replay-ran w (e ∷ es) o = replay-ran w es (Participant.enqueue_locked w e o)

  new_instance-ran : (o : Observer A) → (Participant.new_instance o).ran ≡ o.ran
  unfolding Participant.new_instance Participant.bind
  new_instance-ran o =
      let w = o.made in
      let fresh = record (Participant.set_wrap w Participant.new_wrap (record o { made = suc w })) {
        wrap = some w;
        pending = [];
      } in
      ground (arith, replay-ran w o.pending fresh)

  run_entry-grows :
      (w : ℕ) (e : Entry A) (o : Observer A)
      → raws_run o.ran ≤ raws_run (Participant.run_entry w e o).ran
  unfolding Participant.run_entry Participant.emit_event
  run_entry-grows w (event a) o = ground (arith, raws_run-snoc o.ran w (event a))
  run_entry-grows w (raw f) o = ground (arith, raws_run-snoc o.ran w (raw f))

  run_queued-grows :
      (w : ℕ) (e : Entry A) (o : Observer A)
      → raws_run o.ran ≤ raws_run (Participant.run_queued w e o).ran
  unfolding Participant.run_queued
  run_queued-grows w e o = elim (Option-cases o.wrap) [
    | inl n ↦ ground arith
    | inr (v, f) ↦ ground (arith, run_entry-grows v e o)
  ]

  popped : ℕ → List (Entry A) → Observer A → Observer A
  popped w q o =
      Participant.set_wrap w
        (record (o.wraps w) { context = record (o.wraps w).context { queue = q } }) o

  run_next-grows :
      (w : ℕ) (o : Observer A) → raws_run o.ran ≤ raws_run (Participant.run_next w o).ran
  unfolding Participant.run_next popped
  run_next-grows w o = elim (queue-cases (o.wraps w).context.queue) [
    | inl n ↦ ground arith
    | inr (e, q, f) ↦ ground (arith, run_queued-grows w e (popped w q o))
  ]

  step-grows :
      (p : Participant.Op A) (o : Observer A) → raws_run o.ran ≤ raws_run (Participant.step p o).ran
  unfolding Participant.step Participant.enqueue Participant.enqueue_locked
      Participant.close_observer Participant.set_event_callback Participant.destroy
  step-grows creates o = omega (arith, ap raws_run (new_instance-ran o))
  step-grows (runs w) o = ground (arith, run_next-grows w o)
  step-grows p o = ground arith

module _ {κ} {E : Type κ} where
  -- How often the departure stands in a list.
  abbrev pub is_departure : RoomEntry E → ℕ
  is_departure (room_event e) = 0
  is_departure departed = 1

  abbrev pub departures : List (RoomEntry E) → ℕ
  departures [] = 0
  departures (e ∷ es) = is_departure e + departures es

  departures-append :
      (xs ys : List (RoomEntry E)) → departures (xs ++ ys) ≡ departures xs + departures ys
  departures-append [] ys = omega arith
  departures-append (x ∷ xs) ys = omega (arith, departures-append xs ys)

  dispatched :
      (c : Context (RoomEntry E)) (e : RoomEntry E)
      → c.max_queue_depth ≡ 0
      → (departures (dispatch c e).queue ≤ departures c.queue + is_departure e)
        × ((dispatch c e).max_queue_depth ≡ 0)
  dispatched c e z = ground (arith, dispatch_unbounded c e z, departures-append c.queue (e ∷ []))

module _ {ℓ κ} {A : Type ℓ} {E : Type κ} where
  -- Every departure on its way comes from a raw function that was run.
  abbrev pub IsCaused : Room A E → Type 0
  IsCaused r =
      (departures r.emitted + departures r.context.queue ≤ raws_run r.participant.ran)
      × (r.context.max_queue_depth ≡ 0)

  call-IsCaused : (p : Participant.Op A) (r : Room A E) → IsCaused r → IsCaused (call p r)
  unfolding call dispatch_raw
  call-IsCaused p r (c, z) =
      ground (arith, step-grows p r.participant, dispatched r.context departed z)

  turn-IsCaused : (r : Room A E) → IsCaused r → IsCaused (turn r)
  unfolding turn emit
  turn-IsCaused r (c, z) = elim (List-cases r.context.queue) [
    | inl n ↦ ground arith
    | inr (e, q, f) ↦ ground (arith, departures-append r.emitted (e ∷ []))
  ]

  step-IsCaused : (o : Op A E) (r : Room A E) → IsCaused r → IsCaused (step o r)
  unfolding step dispatch_raw on_participant_disconnected Participant.enqueue
      Participant.enqueue_locked close_room close
  step-IsCaused (about p) r c = call-IsCaused p r c
  step-IsCaused (happens e) r (c, z) = ground (arith, dispatched r.context (room_event e) z)
  step-IsCaused departs r (c, z) = ground arith
  step-IsCaused turns r (c, z) = turn-IsCaused r (c, z)
  step-IsCaused closes r (c, z) = ground arith

  pub run-IsCaused : (os : List (Op A E)) (r : Room A E) → IsCaused r → IsCaused (run os r)
  unfolding run
  run-IsCaused [] r c = c
  run-IsCaused (o ∷ os) r c = run-IsCaused os (step o r) (step-IsCaused o r c)

  pub new_room-IsCaused : (r : Room A E) → r ≡ new_room → IsCaused r
  unfolding new_room open_context create_observer
  new_room-IsCaused r e = subst IsCaused (sym e) (omega arith, refl)
