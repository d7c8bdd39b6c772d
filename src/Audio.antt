-- ===== src/Audio.antt =====
-- src/media/local_audio_track_wrap.h and src/media/local_audio_track_wrap.cpp: the frames that a caller
-- writes to a local audio track, and what they put on the audio device (twilio_video_node.Device).
-- All audio tracks of a factory share its device, which stands here beside the track. A track's source
-- is taken to have a device: `NewInstance` passes it the factory's.
pub mod Write
use twilio_video_node.Base.{
  ℕ, ◌+◌, ◌*◌, ◌-◌, ◌^◌, Bool, true, false, ◌&&◌, List, [], ◌∷◌, Option, none, some, ℤ, pos, negsuc,
  pos_part, ltb, leb, ltb_ℤ, leb_ℤ, length, if◌then◌else◌, Result, ok, err, ◌>>=◌, ◌>>◌, guard,
  some_or,
}
use twilio_video_node.Js.{
  JsValue, number, buffer, Double, nan, infinite, whole, fractional, is_object, is_number, get, has,
  max_safe_integer,
}
use twilio_video_node.Writes.{
  ErrorClass, error, type_error, range_error, WriteStats, no_writes, count_write, is_given,
}
use twilio_video_node.Device.{
  Device, push_recording_data, set_max_queue_chunks, clear_recording_buffer, queue_depth_chunks,
}

pub data WriteError : Type 0 where
  expects_object no_pcm frames_not_number frames_not_positive short_pcm no_source : WriteError
  timestamp_not_number bad_timestamp : WriteError

unfoldable pub error_class : WriteError → ErrorClass
error_class frames_not_positive = range_error
error_class short_pcm = range_error
error_class bad_timestamp = range_error
error_class no_source = error
error_class _ = type_error

-- `source` says that `audioSource_` is set.
pub record AudioTrack : Type 0 where
  pub source : Bool
  pub stats : WriteStats

unfoldable pub new_instance : AudioTrack
new_instance = record { source = true; stats = no_writes }

-- What `Write` hands to the source.
pub record Frame : Type 0 where
  pub samples : List ℕ
  pub frames : ℕ
  pub timestamp : ℤ

-- The int16_t of a buffer, by their bit patterns: two bytes each, the low one first, and a last odd
-- byte none.
unfoldable pub samples_of : List ℕ → List ℕ
samples_of [] = []
samples_of (a ∷ []) = []
samples_of (a ∷ b ∷ bytes) = (a + 256 * b) ∷ samples_of bytes

abbrev pub argument : Option JsValue → Result WriteError JsValue
argument none = err expects_object
argument (some frame) = if is_object frame then ok frame else err expects_object

abbrev pub as_pcm : JsValue → Option (List ℕ)
as_pcm (buffer bytes) = some bytes
as_pcm _ = none

-- The largest int64_t is 2^63 as a double.
unfoldable pub read_frames : JsValue → Result WriteError ℕ
read_frames (number (whole z)) =
    if ltb_ℤ (pos 0) z && leb_ℤ z (pos (2 ^ 63)) then ok (pos_part z) else err frames_not_positive
read_frames (number d) = err frames_not_positive
read_frames _ = err frames_not_number

abbrev pub whole_timestamp : JsValue → Result WriteError ℤ
whole_timestamp (number (whole z)) =
    if leb_ℤ (pos 0) z && leb_ℤ z max_safe_integer then ok z else err bad_timestamp
whole_timestamp (number d) = err bad_timestamp
whole_timestamp _ = err timestamp_not_number

unfoldable pub read_timestamp : ℤ → JsValue → Result WriteError ℤ
read_timestamp now frame =
    if is_given frame "timestamp" then whole_timestamp (get frame "timestamp") else ok now

-- `Write` up to the push; `now` is rtc::TimeMicros().
unfoldable pub check_frame : AudioTrack → ℤ → Option JsValue → Result WriteError Frame
unfolding samples_of read_frames read_timestamp
check_frame t now info = do
  frame ← argument info
  bytes ← some_or (as_pcm (get frame "pcm")) no_pcm
  n ← read_frames (get frame "frames")
  let samples = samples_of bytes
  guard (leb n (length samples)) short_pcm
  guard t.source no_source
  timestamp ← read_timestamp now frame
  ok (record { samples = samples; frames = n; timestamp = timestamp })

pub data Outcome : Type 0 where
  threw : WriteError → Outcome
  returned : Bool → Outcome

-- `Write` from the push on, where the checks have passed.
unfoldable pub finish_write :
    AudioTrack → Device → Result WriteError Frame → AudioTrack × Device × Outcome
finish_write t d (err e) = (t, d, threw e)
finish_write t d (ok f) =
    let (pushed, accepted) = push_recording_data d f.samples f.frames in
    (record t { stats = count_write accepted f.timestamp t.stats }, pushed, returned accepted)

unfoldable pub write :
    (now : ℤ) → Option JsValue → AudioTrack → Device → AudioTrack × Device × Outcome
unfolding check_frame finish_write
write now info t d = finish_write t d (check_frame t now info)

-- The integer part of a finite double that is 1 at least.
abbrev pub at_least_1 : JsValue → Option ℕ
at_least_1 (number (whole z)) = if ltb_ℤ (pos 0) z then some (pos_part z) else none
at_least_1 (number (fractional z)) = if ltb_ℤ (pos 0) z then some (pos_part z) else none
at_least_1 _ = none

abbrev pub bounded_by : Option ℕ → Device → Device
bounded_by none d = d
bounded_by (some q) d = set_max_queue_chunks d q

-- A `maxQueue` of 2^64 or more, of which C++ does not define the cast, is taken as it is.
unfoldable pub configure_source : Option JsValue → AudioTrack → Device → Device
configure_source none t d = d
configure_source (some opts) t d =
    if is_object opts && has opts "maxQueue" && t.source
    then bounded_by (at_least_1 (get opts "maxQueue")) d
    else d

-- getWriteStats: the counters, `sendQueueDepth` and `maxQueue`.
unfoldable pub get_write_stats : AudioTrack → Device → WriteStats × ℕ × ℕ
unfolding queue_depth_chunks
get_write_stats t d =
    if t.source then (t.stats, queue_depth_chunks d, d.max_queue_chunks) else (t.stats, 0, 0)

unfoldable pub clear_buffer : AudioTrack → Device → Device
unfolding clear_recording_buffer
clear_buffer t d = if t.source then clear_recording_buffer d else d
