-- ===== src/Tests/Sink.antt =====
-- src/sinks: runs of a sink, and its theorems on them.
use twilio_video_node.Base.{
  ℕ, ◌≡◌, refl, inl, inr, List, [], ◌∷◌, true, none, some, pos, ok, take, arith,
}
use twilio_video_node.Async.{open_context, dispatch, shed, close, requeue_front}
use twilio_video_node.Sink.{
  new_sink, Op, frames, turns, throws, closes, start_drain, run_taken, throw_taken, throw_next, run,
  step, on_frame, deliver_frame, run_next, run_frame, close_sink, dropped_count,
}
use twilio_video_node.Sink.Count.{IsAccounted, IsSettled, run-IsAccounted}
use twilio_video_node.Sink.Media.{
  WebrtcFrame, audio_frame, audio_frame_data, video_frame, video_frame_data,
}
use twilio_video_node.Sink.Loop.{audio_loops}
use twilio_video_node.Sink.Video.{IsWritable, written, video_loops}
use twilio_video_node.Video.{rotation_180}
use twilio_video_node.Audio
use twilio_video_node.Video

abbrev own_id : ℕ → ℕ
own_id id = id

-- Three frames on a queue of two; a drain takes two, runs one and is interrupted by a fourth frame and a
-- throw; and the teardown.
abbrev some_ops : List (Op ℕ)
some_ops = frames own_id ∷ frames own_id ∷ frames own_id ∷ turns ∷ frames own_id ∷ throws ∷ []

abbrev after_close : List (Op ℕ)
after_close = closes ∷ frames own_id ∷ turns ∷ []

delivered_second : (run some_ops (new_sink 2)).delivered ≡ 1 ∷ []
unfolding run step on_frame deliver_frame run_next start_drain run_taken throw_next throw_taken
    requeue_front run_frame close_sink new_sink open_context dispatch shed close
delivered_second = refl

dropped_first : dropped_count (run some_ops (new_sink 2)) ≡ 1
unfolding run step on_frame deliver_frame run_next start_drain run_taken throw_next throw_taken
    requeue_front run_frame close_sink new_sink open_context dispatch shed close dropped_count
dropped_first = refl

run-IsAccounted_example :
    let s = run some_ops (new_sink 2) in
    IsAccounted s × IsSettled s (run after_close (close_sink s))
run-IsAccounted_example = run-IsAccounted 2 some_ops after_close (omega arith)

abbrev audio_track : Audio.AudioTrack
audio_track = record {
  source = true;
  stats = record {
    frames_written = 0;
    frames_dropped = 0;
    timestamp_regressions = 0;
    last_timestamp = none;
  };
}

audio_loops_example :
    Audio.check_frame audio_track
      (pos 0)
      (some (audio_frame (audio_frame_data (7 ∷ 65535 ∷ 9 ∷ []) 16 48000 1 2 (pos 123) 4)))
    ≡ ok (record { samples = take 2 (7 ∷ 65535 ∷ 9 ∷ []); frames = 2; timestamp = pos 123 })
audio_loops_example =
    audio_loops audio_track (pos 0) (7 ∷ 65535 ∷ 9 ∷ []) 48000 2 123 4 refl (omega arith)
      (omega arith) (omega arith) (omega arith, (omega arith, (omega arith, tt))) (omega arith)

abbrev video_track : Video.VideoTrack
video_track = record {
  source = true;
  expected_width = 2;
  expected_height = 0;
  stats = record {
    frames_written = 0;
    frames_dropped = 0;
    timestamp_regressions = 0;
    last_timestamp = none;
  };
}

abbrev received : WebrtcFrame
received = record {
  width = 2;
  height = 2;
  stride_y = 3;
  stride_u = 1;
  stride_v = 1;
  bytes_y = 1 ∷ 2 ∷ 0 ∷ 3 ∷ 4 ∷ 0 ∷ [];
  bytes_u = 5 ∷ [];
  bytes_v = 6 ∷ [];
  timestamp_us = pos 99;
  rotation = rotation_180;
  rtp_timestamp = 1;
  capture_us = none;
}

received-IsWritable : IsWritable video_track received
received-IsWritable = record {
  source = refl;
  width_fits = inr refl;
  height_fits = inl refl;
  width_positive = omega arith;
  height_positive = omega arith;
  width_even = refl;
  height_even = refl;
  height_small = omega arith;
  stride_y = omega arith;
  stride_u = omega arith;
  stride_v = omega arith;
  small_y = omega arith;
  small_u = omega arith;
  small_v = omega arith;
  bytes_y = omega arith;
  bytes_u = omega arith;
  bytes_v = omega arith;
}

video_loops_example :
    Video.check_frame video_track (pos 0) (some (video_frame (video_frame_data received 8)))
    ≡ ok (written received)
video_loops_example =
    video_loops video_track (pos 0) received 99 8 received-IsWritable refl (omega arith)
