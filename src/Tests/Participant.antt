-- ===== src/Tests/Participant.antt =====
-- src/video/remote_participant_wrap.cpp: runs of an observer, and its theorems on them.
use twilio_video_node.Base.{ℕ, ◌≡◌, refl, false, List, [], ◌∷◌, map, some, length, replicate, All}
use twilio_video_node.Async.{open_context, dispatch, shed}
use twilio_video_node.Participant.{
  event, raw, Op, raises, creates, sets_callback, runs, create_observer, run, step, accepted,
  enqueue, enqueue_locked, new_instance, new_wrap, bind, replay, set_event_callback, run_next,
  run_queued, run_entry, emit_event,
}
use twilio_video_node.Participant.Carry.{entry_of, IsFirst}
use twilio_video_node.Participant.Order.{waiting, IsInOrder, run-IsInOrder, events_all_run}

-- Two events before the first wrap, one after it, and a second wrap that gets none of them.
abbrev calls : List (Op ℕ)
calls =
    raises (event 1)
    ∷ raises (raw 2)
    ∷ creates
    ∷ sets_callback 0
    ∷ creates
    ∷ raises (event 3)
    ∷ runs 1
    ∷ runs 0
    ∷ runs 0
    ∷ []

emitted_first : (run calls create_observer).emitted ≡ (0, 1) ∷ []
unfolding run step enqueue enqueue_locked new_instance new_wrap bind replay set_event_callback
    run_next run_queued run_entry emit_event create_observer open_context dispatch shed
emitted_first = refl

still_open : (run calls create_observer).closed ≡ false
unfolding run step enqueue enqueue_locked new_instance new_wrap bind replay set_event_callback
    run_next run_queued run_entry emit_event create_observer open_context dispatch shed
still_open = refl

bound_first : (run calls create_observer).wrap ≡ some 0
unfolding run step enqueue enqueue_locked new_instance new_wrap bind replay set_event_callback
    run_next run_queued run_entry emit_event create_observer open_context dispatch shed
bound_first = refl

run-IsInOrder_example :
    All IsFirst (run calls create_observer).ran
    × IsInOrder (run calls create_observer) (accepted calls create_observer)
run-IsInOrder_example = run-IsInOrder calls

events_all_run_example :
    let o = run calls create_observer in
    map entry_of (run (replicate (length (waiting o)) (runs 0)) o).ran
    ≡ accepted calls create_observer
events_all_run_example = events_all_run calls still_open bound_first
