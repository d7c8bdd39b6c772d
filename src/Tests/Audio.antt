-- ===== src/Tests/Audio.antt =====
-- src/media/local_audio_track_wrap.cpp: runs of a write, and its theorem on them.
use twilio_video_node.Base.{ℕ, ◌≡◌, refl, [], ◌∷◌, some, pos, ok, err}
use twilio_video_node.Js.{JsValue, number, buffer, object, end, field, whole, lookup, get, has}
use twilio_video_node.Audio.{
  short_pcm, new_instance, check_frame, samples_of, read_frames, read_timestamp,
}

-- Two samples and an odd byte.
abbrev frame_of : ℕ → JsValue
frame_of n =
    object
      (field "pcm" (buffer (1 ∷ 2 ∷ 3 ∷ 0 ∷ 9 ∷ [])) (field "frames" (number (whole (pos n))) end))

checked_two :
    check_frame new_instance (pos 4) (some (frame_of 2))
    ≡ ok (record { samples = 513 ∷ 3 ∷ []; frames = 2; timestamp = pos 4 })
unfolding check_frame samples_of read_frames read_timestamp lookup get has new_instance
checked_two = refl

checked_three : check_frame new_instance (pos 4) (some (frame_of 3)) ≡ err short_pcm
unfolding check_frame samples_of read_frames read_timestamp lookup get has new_instance
checked_three = refl
