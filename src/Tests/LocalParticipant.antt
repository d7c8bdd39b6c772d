-- ===== src/Tests/LocalParticipant.antt =====
-- src/video/local_participant_wrap.cpp and src/video/room_observer_wrap.cpp: runs on concrete data, and
-- the theorems on them.
use twilio_video_node.Base.{
  ℕ, ◌<◌, arith, ◌^◌, ◌≡◌, refl, true, false, inl, inr, List, [], ◌∷◌, none, some, pos, ok, Bool,
}
use twilio_video_node.Async.{open_context, dispatch, shed}
use twilio_video_node.Js.{
  JsValue, native, number, whole, object, field, end, local_audio_track, media_factory, lookup, has,
  get, NativeClass,
}
use twilio_video_node.Connect.Fields.{optional, as_object, read_bitrate, whole_of}
use twilio_video_node.Connect.Options.{EncodingParameters, read_encoding_parameters}
use twilio_video_node.LocalParticipant.{
  Op, raises, gets, sets_callback, runs, closes, create_observer, dispatch_locked, dispatch_event,
  replay, bind, new_instance, get_local_participant, close_observer, set_event_callback, emit_event,
  run_queued, run_next, step, run, accepted,
}
use twilio_video_node.LocalParticipant.Order.{IsListening, IsHeard, run-IsHeard}
use twilio_video_node.LocalParticipant.Connected
use twilio_video_node.LocalParticipant.Connected.{
  creates, stores, marks, sweeps, new_room, create, store, store_that, mark, sweep, close_that,
  no_observer_left,
}
use twilio_video_node.LocalParticipant.Limits.{
  set_encoding_parameters, wrapped, set_encoding_parameters_agree,
}
use twilio_video_node.LocalParticipant.Publish.{publish_track, unpublish_track, when_instance}

-- An event before the wrap is made, one after it, and one lost.
abbrev calls : List (Op ℕ)
calls =
    raises 1 ∷ gets ∷ sets_callback ∷ raises 2 ∷ gets ∷ runs ∷ runs ∷ raises 3 ∷ closes ∷ runs ∷ []

heard_before_closed : (run calls create_observer).emitted ≡ 1 ∷ 2 ∷ []
unfolding run step dispatch_event dispatch_locked get_local_participant new_instance bind replay
    set_event_callback run_next run_queued emit_event close_observer create_observer open_context
    dispatch shed
heard_before_closed = refl

all-IsListening : IsListening calls create_observer
unfolding run step dispatch_event dispatch_locked get_local_participant new_instance bind replay
    set_event_callback run_next run_queued emit_event close_observer create_observer open_context
    dispatch shed
all-IsListening = (tt, (tt, (tt, (tt, (tt, (inl refl, (inl refl, (tt, (tt, (inr refl, tt))))))))))

run-IsHeard_example : IsHeard (run calls create_observer) (accepted calls create_observer)
run-IsHeard_example = run-IsHeard calls all-IsListening

-- The Room is closed while `onConnected` holds the observer that it has created.
abbrev closed_between : List Connected.Op
closed_between = creates ∷ marks ∷ sweeps ∷ stores ∷ []

created-IsOnce : Connected.IsOnce closed_between new_room
unfolding Connected.run Connected.step create store store_that mark sweep close_that new_room
created-IsOnce = (refl, (tt, (tt, (tt, tt))))

created_there : 0 < (Connected.run closed_between new_room).made
unfolding Connected.run Connected.step create store store_that mark sweep close_that new_room
created_there = omega arith

closed_there : (Connected.run closed_between new_room).closed ≡ true
unfolding Connected.run Connected.step create store store_that mark sweep close_that new_room
closed_there = refl

swept_there : (Connected.run closed_between new_room).sweeping ≡ false
unfolding Connected.run Connected.step create store store_that mark sweep close_that new_room
swept_there = refl

let_go_there : (Connected.run closed_between new_room).held ≡ none
unfolding Connected.run Connected.step create store store_that mark sweep close_that new_room
let_go_there = refl

no_observer_left_example :
    let r = Connected.run closed_between new_room in (r.stored ≡ none) × (r.shut 0 ≡ true)
no_observer_left_example =
    no_observer_left closed_between 0 created-IsOnce created_there closed_there swept_there
      let_go_there

-- A limit of 2^32, which the two read differently.
abbrev large : JsValue
large = object (field "maxVideoBitrate" (number (whole (pos (2 ^ 32)))) end)

abbrev large_limits : EncodingParameters
large_limits = record { max_audio_bitrate = none; max_video_bitrate = some (2 ^ 32) }

read_large : read_encoding_parameters large ≡ ok large_limits
unfolding read_encoding_parameters as_object optional read_bitrate whole_of has get lookup
read_large = refl

wrapped_large :
    wrapped large_limits ≡ record { max_audio_bitrate = none; max_video_bitrate = some 0 }
wrapped_large = refl

set_encoding_parameters_agree_example :
    set_encoding_parameters true (large ∷ []) ≡ ok (some (wrapped large_limits))
set_encoding_parameters_agree_example =
    set_encoding_parameters_agree large [] large_limits read_large

abbrev accepts : NativeClass → ℕ → Bool
accepts c n = true

published :
    publish_track accepts accepts true (native local_audio_track 4 ∷ [])
    ≡ (true, (local_audio_track, 4) ∷ [])
unfolding publish_track when_instance
published = refl

no_factory_unpublished :
    unpublish_track accepts accepts true (native media_factory 4 ∷ []) ≡ (false, [])
unfolding unpublish_track when_instance
no_factory_unpublished = refl
