-- ===== src/Tests/RoomObserver.antt =====
-- src/video/room_observer_wrap.cpp: runs on concrete data, and the theorems on them.
use twilio_video_node.Base.{
  ◌%◌, ℕ, ◌≡◌, refl, false, inl, inr, List, [], ◌∷◌, ◌++◌, none, some, arith,
}
use twilio_video_node.Async.{open_context, dispatch, shed}
use twilio_video_node.Participant
use twilio_video_node.Participant.{event, create_observer, raises, creates, sets_callback, runs}
use twilio_video_node.RoomObserver.{
  Op, gets, forgets, drops, new_registry, create, reuse, lookup, erase, get_or_create, forget, step,
  run,
}
use twilio_video_node.RoomObserver.Registered.{IsGot, get_or_create-IsGot}
use twilio_video_node.RoomObserver.Kept.{AreApart, keeps_observer}
use twilio_video_node.RoomObserver.Events
use twilio_video_node.RoomObserver.Events.{
  room_event, departed, about, happens, departs, turns, new_room, dispatch_raw, call,
  on_participant_disconnected, emit, turn,
}
use twilio_video_node.RoomObserver.Departed.{IsLast, departs-IsLast}

-- The native participants 0 and 10 report one SID.
abbrev sid : ℕ → ℕ
sid p = p % 10

-- A participant comes back as another native object.
abbrev asked : List Op
asked = gets 0 ∷ gets 1 ∷ gets 0 ∷ gets 10 ∷ []

replaced : (get_or_create sid 10 (run sid asked new_registry)).1 ≡ 2
unfolding run step get_or_create reuse create lookup erase new_registry
replaced = refl

get_or_create-IsGot_example : IsGot sid 10 (get_or_create sid 10 (run sid asked new_registry))
get_or_create-IsGot_example = get_or_create-IsGot sid asked 10

first_of : lookup (sid 2) (run sid (gets 1 ∷ []) new_registry).entries ≡ none
unfolding run step get_or_create reuse create lookup erase new_registry
first_of = refl

-- The calls after it: the participant itself, and others.
abbrev others : List Op
others = gets 1 ∷ gets 2 ∷ drops 0 ∷ forgets 3 ∷ []

others_apart : AreApart sid 2 others (get_or_create sid 2 (run sid (gets 1 ∷ []) new_registry)).0
unfolding run step get_or_create reuse create lookup erase new_registry forget
others_apart = (
  inr (λ e. absurd (omega arith)),
  (inl refl, (λ e. absurd (omega arith), (λ e. absurd (omega arith), tt))),
)

keeps_observer_example :
    let u = get_or_create sid 2 (run sid (gets 1 ∷ []) new_registry) in
    let v = run sid others u.0 in
    (get_or_create sid 2 v ≡ (v, u.1)) × (v.attached 2 ≡ some u.1) × (v.shut u.1 ≡ false)
keeps_observer_example = keeps_observer sid (gets 1 ∷ []) others 2 first_of others_apart

-- A wrap with a listener, an event of the participant before it leaves, and one of the Room after it.
abbrev before : List (Events.Op ℕ ℕ)
before = about creates ∷ about (sets_callback 0) ∷ about (raises (event 7)) ∷ happens 1 ∷ []

abbrev later : List (Events.Op ℕ ℕ)
later = happens 2 ∷ about (runs 0) ∷ turns ∷ about (runs 0) ∷ turns ∷ turns ∷ []

in_room_order :
    (Events.run (before ++ (departs ∷ later)) new_room).emitted
    ≡ room_event 1 ∷ room_event 2 ∷ departed ∷ []
unfolding Events.run Events.step new_room dispatch_raw call on_participant_disconnected emit turn
    open_context dispatch shed create_observer Participant.step Participant.new_instance
    Participant.new_wrap Participant.bind Participant.replay Participant.enqueue
    Participant.enqueue_locked Participant.set_event_callback Participant.run_next
    Participant.run_queued Participant.run_entry Participant.emit_event
in_room_order = refl

departs-IsLast_example : IsLast before (Events.run (before ++ (departs ∷ later)) new_room)
departs-IsLast_example = departs-IsLast before later tt tt
