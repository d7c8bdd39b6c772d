-- ===== src/Tests/RemoteMedia.antt =====
-- src/media/remote_video_track_wrap.cpp: runs of a remote track's wrap, and the theorems on them.
use twilio_video_node.Base.{ℕ, ◌≡◌, ◌<◌, refl, true, false, List, [], ◌∷◌, none, some, pos, arith}
use twilio_video_node.Async.{open_context, dispatch, shed, close}
use twilio_video_node.Js.{number, function, fractional, whole}
use twilio_video_node.Sink.{
  new_sink, close_sink, on_frame, deliver_frame, run_next, start_drain, run_taken, run_frame,
}
use twilio_video_node.RemoteMedia.{
  Op, attaches, frames, turns, new_track, detach_sink, add_sink, attach_frame_sink, deliver, step,
  run, read_depth,
}
use twilio_video_node.RemoteMedia.Attached.{IsSound, sinks-IsSound}
use twilio_video_node.RemoteMedia.Silent.{detached_silent}

-- A frame's data is its id. The second sink is attached after the WebRTC track is gone.
abbrev calls : List (Op ℕ)
calls =
    attaches true (some function) (some (number (whole (pos 1))))
    ∷ frames (λ n. n)
    ∷ frames (λ n. n)
    ∷ turns 0
    ∷ turns 0
    ∷ attaches false (some function) none
    ∷ frames (λ n. n)
    ∷ []

delivered_newest : ((run calls new_track).sinks 0).delivered ≡ 1 ∷ []
unfolding run step attach_frame_sink read_depth detach_sink add_sink deliver new_track new_sink
    close_sink on_frame deliver_frame run_next start_drain run_taken run_frame open_context dispatch
    shed close
delivered_newest = refl

leaked_not_freed : (run calls new_track).freed 0 ≡ false
unfolding run step attach_frame_sink read_depth detach_sink add_sink deliver new_track new_sink
    close_sink on_frame deliver_frame run_next start_drain run_taken run_frame open_context dispatch
    shed close
leaked_not_freed = refl

cut_depth : read_depth (some (number (fractional (pos 3)))) ≡ 3
unfolding read_depth
cut_depth = refl

default_depth : read_depth (some (number (whole (pos 1025)))) ≡ 5
unfolding read_depth
default_depth = refl

made_two : 1 < (run calls new_track).made
unfolding run step attach_frame_sink read_depth detach_sink add_sink deliver new_track new_sink
    close_sink on_frame deliver_frame run_next start_drain run_taken run_frame open_context dispatch
    shed close
made_two = omega arith

sinks-IsSound_example : IsSound (run calls new_track)
sinks-IsSound_example = sinks-IsSound calls

detached_silent_example :
    ((run (turns 1 ∷ turns 1 ∷ []) (detach_sink true (run calls new_track))).sinks 1).delivered
    ≡ ((run calls new_track).sinks 1).delivered
detached_silent_example = detached_silent calls (turns 1 ∷ turns 1 ∷ []) true 1 made_two
