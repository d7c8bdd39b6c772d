-- ===== src/Tests/Video.antt =====
-- src/media/local_video_track_wrap.cpp: runs of the write checks, and the theorems on them.
use twilio_video_node.Base.{
  ℕ, ◌+◌, ◌%◌, ◌/◌, ◌≤◌, ◌≡◌, refl, List, [], ◌∷◌, Option, none, some, pos, length, arith, ok, err,
}
use twilio_video_node.Js.{
  JsValue, number, buffer, object, Fields, end, field, whole, fractional, lookup, has, get,
}
use twilio_video_node.Writes.{to_finite_int32}
use twilio_video_node.Video.{
  rotation_90, Frame, Adapted, new_instance, check_frame, check_sizes, read_plane, read_timestamp,
  read_rotation, required, write, not_even, short_buffer, timestamp_not_whole,
}
use twilio_video_node.Video.Bounds.{IsByte, checked_frame_readable}
use twilio_video_node.Video.Written.{IsFinished}
use twilio_video_node.Video.Stats.{
  write_all_or_nothing, Op, writes, configures, run, stats_count_writes,
}

abbrev plane_value : List ℕ → ℕ → JsValue
plane_value bytes stride =
    object (field "data" (buffer bytes) (field "stride" (number (whole (pos stride))) end))

abbrev frame_value : (width height : ℕ) → Fields → JsValue
frame_value width height more = object (
    field "width" (number (whole (pos width))) (
      field "height" (number (whole (pos height))) (
        field "y" (plane_value (1 ∷ 2 ∷ 3 ∷ 4 ∷ []) 2)
          (field "u" (plane_value (5 ∷ []) 1) (field "v" (plane_value (6 ∷ []) 1) more)))))

abbrev good : JsValue
good = frame_value 2 2 (field "rotation" (number (whole (pos 90))) end)

abbrev good_frame : Frame
good_frame = record {
  width = pos 2;
  height = pos 2;
  y = record { bytes = 1 ∷ 2 ∷ 3 ∷ 4 ∷ []; stride = pos 2 };
  u = record { bytes = 5 ∷ []; stride = pos 1 };
  v = record { bytes = 6 ∷ []; stride = pos 1 };
  timestamp = pos 77;
  rotation = rotation_90;
}

checked_good : check_frame new_instance (pos 77) (some good) ≡ ok good_frame
unfolding check_frame read_plane check_sizes read_timestamp read_rotation required new_instance
    lookup has get to_finite_int32
checked_good = refl

odd_width : check_frame new_instance (pos 77) (some (frame_value 3 2 end)) ≡ err not_even
unfolding check_frame read_plane check_sizes read_timestamp read_rotation required new_instance
    lookup has get to_finite_int32
odd_width = refl

too_tall : check_frame new_instance (pos 77) (some (frame_value 2 4 end)) ≡ err short_buffer
unfolding check_frame read_plane check_sizes read_timestamp read_rotation required new_instance
    lookup has get to_finite_int32
too_tall = refl

half_a_microsecond :
    check_frame new_instance
      (pos 77)
      (some (frame_value 2 2 (field "timestamp" (number (fractional (pos 0))) end)))
    ≡ err timestamp_not_whole
unfolding check_frame read_plane check_sizes read_timestamp read_rotation required new_instance
    lookup has get to_finite_int32
half_a_microsecond = refl

checked_frame_readable_example :
    (2 % 2 ≡ 0)
    × (2 % 2 ≡ 0)
    × IsByte good_frame.y 1 1
    × IsByte good_frame.u (1 / 2) (1 / 2)
    × IsByte good_frame.v (1 / 2) (1 / 2)
checked_frame_readable_example =
    checked_frame_readable new_instance (pos 77) (some good) good_frame 1 1 checked_good
      (omega arith) (omega arith)

-- An adapter that lets nothing through, and one that halves the size.
abbrev refusing : Frame → Option Adapted
refusing f = none

abbrev halving : Frame → Option Adapted
halving f = some (record {
  adapted_width = pos 1;
  adapted_height = pos 1;
  crop_x = pos 0;
  crop_y = pos 0;
  crop_width = pos 2;
  crop_height = pos 2;
  translated_timestamp = pos 6;
})

write_all_or_nothing_example :
    IsFinished halving
      (pos 5)
      (some good)
      new_instance
      (write halving (pos 5) (some good) new_instance)
write_all_or_nothing_example = write_all_or_nothing halving (pos 5) (some good) new_instance

abbrev some_ops : List Op
some_ops = writes refusing (pos 5) (some good) ∷ configures none ∷ writes refusing (pos 6) none ∷ []

stats_count_writes_example :
    let (u, n, out) = run some_ops new_instance in
    (u.stats.frames_written + u.stats.frames_dropped ≡ n)
    × (u.stats.frames_written ≡ length out)
    × (u.stats.timestamp_regressions ≤ u.stats.frames_written)
stats_count_writes_example = stats_count_writes some_ops (omega arith)
