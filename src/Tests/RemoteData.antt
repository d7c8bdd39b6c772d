-- ===== src/Tests/RemoteData.antt =====
-- src/media/remote_data_track_wrap.cpp: runs of an observer, and its theorems on them.
use twilio_video_node.Base.{ℕ, ◌≡◌, ◌<◌, refl, false, List, [], ◌∷◌, ◌++◌, arith}
use twilio_video_node.Async.{open_context, dispatch, shed, close}
use twilio_video_node.RemoteData.{
  Op, arrives, creates, listens, runs, dies, unbinds, closes_context, new_observer, new_wrap,
  new_instance, bind, on_message, living, to_each, dispatch_to, set_callback, run_next, run_queued,
  call_back, die, unbind, without, close_wrap, close_observer, step, run,
}
use twilio_video_node.RemoteData.Channel.{channel_run, new_channel}
use twilio_video_node.RemoteData.Refine.{Refines, run-Refines_channel}
use twilio_video_node.RemoteData.Inbox.{messages}
use twilio_video_node.RemoteData.Heard.{closed_hears_nothing, hears_all}

-- Two wraps, of which the first one is destroyed before the second message.
abbrev calls : List (Op ℕ)
calls =
    creates
    ∷ listens 0
    ∷ creates
    ∷ listens 1
    ∷ arrives 7
    ∷ runs 0
    ∷ dies 0
    ∷ arrives 8
    ∷ unbinds 0
    ∷ closes_context 0
    ∷ runs 1
    ∷ []

heard_first : ((run calls new_observer).wraps 0).heard ≡ 7 ∷ []
unfolding run step new_instance bind new_wrap new_observer open_context on_message living to_each
    dispatch_to dispatch shed set_callback run_next run_queued call_back die unbind without
    close_wrap close
heard_first = refl

queued_second : ((run calls new_observer).wraps 1).context.queue ≡ 8 ∷ []
unfolding run step new_instance bind new_wrap new_observer open_context on_message living to_each
    dispatch_to dispatch shed set_callback run_next run_queued call_back die unbind without
    close_wrap close
queued_second = refl

made_two : 1 < (run calls new_observer).made
unfolding run step new_instance bind new_wrap new_observer open_context on_message living to_each
    dispatch_to dispatch shed set_callback run_next run_queued call_back die unbind without
    close_wrap close
made_two = omega arith

still_open : (run calls new_observer).closed ≡ false
unfolding run step new_instance bind new_wrap new_observer open_context on_message living to_each
    dispatch_to dispatch shed set_callback run_next run_queued call_back die unbind without
    close_wrap close
still_open = refl

run-Refines_channel_example : Refines (run calls new_observer) (channel_run calls new_channel)
run-Refines_channel_example = run-Refines_channel calls

-- The message that waits for the second wrap is never heard.
closed_hears_nothing_example :
    ((run (runs 1 ∷ runs 1 ∷ []) (close_observer (run calls new_observer))).wraps 1).heard
    ≡ ((run calls new_observer).wraps 1).heard
closed_hears_nothing_example =
    closed_hears_nothing (runs 1 ∷ runs 1 ∷ []) (run calls new_observer) 1 made_two

abbrev later : List (Op ℕ)
later = arrives 9 ∷ runs 2 ∷ creates ∷ arrives 10 ∷ []

hears_all_example :
    let w = (run calls new_observer).made in
    let x = (run later (step (listens w) (step creates (run calls new_observer)))).wraps w in
    messages later ≡ x.heard ++ x.context.queue
hears_all_example = hears_all calls later still_open tt
