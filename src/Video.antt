-- ===== src/Video.antt =====
-- src/media/local_video_track_wrap.h and src/media/local_video_track_wrap.cpp: the frames that a
-- caller writes to a local video track.
-- What WebRTC's adapter answers for a frame, and the clock, are arguments. A frame keeps the planes as
-- the caller gave them: `I420Buffer::Copy` reads them with their strides.
pub mod Bounds
pub mod Read
pub mod Written
pub mod Stats
use twilio_video_node.Base.{
  ℕ, suc, ◌+◌, ◌-◌, ◌*◌, ◌/◌, ◌%◌, ◌^◌, Bool, true, false, ◌&&◌, ◌||◌, not, List, [], Option, none,
  some, String, ℤ, pos, negsuc, pos_part, ltb, leb, ltb_ℤ, leb_ℤ, ◌==◌, length, u64, is_some,
  if◌then◌else◌, Result, ok, err, ◌>>=◌, ◌>>◌, guard, some_or,
}
use text.Mathlib.Text.{◌==◌ as str_eq}
use twilio_video_node.Js.{
  JsValue, undefined, number, string, buffer, Double, whole, is_object, is_number, has, get,
  max_safe_integer,
}
use twilio_video_node.Writes.{
  ErrorClass, error, type_error, range_error, WriteStats, no_writes, count_write, is_given,
  to_finite_int32,
}

pub record Plane : Type 0 where
  pub bytes : List ℕ
  pub stride : ℤ

pub data Rotation : Type 0 where
  rotation_0 rotation_90 rotation_180 rotation_270 : Rotation

-- What `Write` hands to `Copy` and to `PushFrame`.
pub record Frame : Type 0 where
  pub width : ℤ
  pub height : ℤ
  pub y : Plane
  pub u : Plane
  pub v : Plane
  pub timestamp : ℤ
  pub rotation : Rotation

-- The exceptions of `Write`, in the order of the code.
pub data WriteError : Type 0 where
  expects_object bad_format bad_size : WriteError
  no_plane plane_not_object data_not_buffer bad_stride : (key : String) → WriteError
  not_positive not_even size_mismatch short_stride short_buffer : WriteError
  timestamp_not_number timestamp_not_whole timestamp_negative timestamp_too_large : WriteError
  rotation_not_integer bad_rotation no_source : WriteError

unfoldable pub error_class : WriteError → ErrorClass
error_class not_positive = range_error
error_class not_even = range_error
error_class size_mismatch = range_error
error_class short_stride = range_error
error_class short_buffer = range_error
error_class timestamp_not_whole = range_error
error_class timestamp_negative = range_error
error_class timestamp_too_large = range_error
error_class bad_rotation = range_error
error_class no_source = error
error_class _ = type_error

-- `source` says that `videoSource_` is set. The expected sizes are 0 where none was configured.
pub record VideoTrack : Type 0 where
  pub source : Bool
  pub expected_width : ℕ
  pub expected_height : ℕ
  pub stats : WriteStats

unfoldable pub new_instance : VideoTrack
new_instance = record { source = true; expected_width = 0; expected_height = 0; stats = no_writes }

-- What `plane.Get("data")` is as a Buffer.
abbrev pub as_buffer : JsValue → Option (List ℕ)
as_buffer (buffer bytes) = some bytes
as_buffer _ = none

unfoldable pub read_plane : JsValue → String → Result WriteError Plane
read_plane frame key = do
  guard (has frame key) (no_plane key)
  let plane = get frame key
  guard (is_object plane) (plane_not_object key)
  bytes ← some_or (as_buffer (get plane "data")) (data_not_buffer key)
  stride ← some_or (to_finite_int32 (get plane "stride")) (bad_stride key)
  ok (record { bytes = bytes; stride = stride })

abbrev pub is_format : JsValue → Bool
is_format (string s) = str_eq s "I420"
is_format _ = false

-- `static_cast<size_t>` of an int32_t
abbrev pub to_size : ℤ → ℕ
to_size (pos n) = n
to_size (negsuc n) = 2 ^ 64 - 1 - n

-- The bytes that a plane of so many rows is required to have.
unfoldable pub required : Plane → ℕ → ℕ
required p rows = u64 (to_size p.stride * rows)

-- The tests from the size of the frame to the sizes of its planes.
unfoldable pub check_sizes :
    VideoTrack → ℤ → ℤ → Plane → Plane → Plane → Result WriteError (Unit {0})
unfolding required
check_sizes t width height y u v = do
  guard (ltb_ℤ (pos 0) width && ltb_ℤ (pos 0) height) not_positive
  let w = pos_part width
  let h = pos_part height
  guard ((w % 2 == 0) && (h % 2 == 0)) not_even
  guard
      (((t.expected_width == 0) || (w == t.expected_width))
        && ((t.expected_height == 0) || (h == t.expected_height)))
      size_mismatch
  let uv_width = (w + 1) / 2
  let uv_height = (h + 1) / 2
  guard (leb_ℤ width y.stride && leb_ℤ (pos uv_width) u.stride && leb_ℤ (pos uv_width) v.stride)
      short_stride
  guard
      (leb (required y h) (length y.bytes)
        && leb (required u uv_height) (length u.bytes)
        && leb (required v uv_height) (length v.bytes))
      short_buffer

abbrev pub whole_timestamp : JsValue → Result WriteError ℤ
whole_timestamp (number (whole z)) = do
  guard (leb_ℤ (pos 0) z) timestamp_negative
  guard (leb_ℤ z max_safe_integer) timestamp_too_large
  ok z
whole_timestamp (number d) = err timestamp_not_whole
whole_timestamp _ = err timestamp_not_number

-- `now` is rtc::TimeMicros().
unfoldable pub read_timestamp : ℤ → JsValue → Result WriteError ℤ
read_timestamp now frame =
    if is_given frame "timestamp" then whole_timestamp (get frame "timestamp") else ok now

abbrev pub to_rotation : ℤ → Result WriteError Rotation
to_rotation (pos n) =
    if n == 0
    then ok rotation_0
    else if n == 90
    then ok rotation_90
    else if n == 180
    then ok rotation_180
    else if n == 270
    then ok rotation_270
    else err bad_rotation
to_rotation (negsuc n) = err bad_rotation

unfoldable pub read_rotation : JsValue → Result WriteError Rotation
read_rotation frame =
    if is_given frame "rotation"
    then some_or (to_finite_int32 (get frame "rotation")) rotation_not_integer >>= to_rotation
    else ok rotation_0

abbrev pub argument : Option JsValue → Result WriteError JsValue
argument none = err expects_object
argument (some frame) = if is_object frame then ok frame else err expects_object

-- `Write` up to the copy.
unfoldable pub check_frame : VideoTrack → ℤ → Option JsValue → Result WriteError Frame
unfolding read_plane check_sizes read_timestamp read_rotation
check_frame t now info = do
  frame ← argument info
  guard (not (is_given frame "format") || is_format (get frame "format")) bad_format
  width ← some_or (to_finite_int32 (get frame "width")) bad_size
  height ← some_or (to_finite_int32 (get frame "height")) bad_size
  y ← read_plane frame "y"
  u ← read_plane frame "u"
  v ← read_plane frame "v"
  check_sizes t width height y u v
  timestamp ← read_timestamp now frame
  rotation ← read_rotation frame
  guard t.source no_source
  ok (record {
    width = width;
    height = height;
    y = y;
    u = u;
    v = v;
    timestamp = timestamp;
    rotation = rotation;
  })

-- What AdaptFrame answers when it lets a frame through, with the timestamp that the aligner gave.
pub record Adapted : Type 0 where
  pub adapted_width : ℤ
  pub adapted_height : ℤ
  pub crop_x : ℤ
  pub crop_y : ℤ
  pub crop_width : ℤ
  pub crop_height : ℤ
  pub translated_timestamp : ℤ

abbrev pub ==_ℤ : ℤ → ℤ → Bool
==_ℤ a b = leb_ℤ a b && leb_ℤ b a

-- The picture of `OnFrame`: the copied frame, or one scaled from a crop of it.
pub data Picture : Type 0 where
  copied : Frame → Picture
  scaled : Adapted → Frame → Picture

pub record Emitted : Type 0 where
  pub picture : Picture
  pub rotation : Rotation
  pub timestamp : ℤ

-- PushFrame: `none` is its `false`, and otherwise what was given to `OnFrame`.
unfoldable pub push_frame : Option Adapted → Frame → Option Emitted
push_frame none f = none
push_frame (some a) f = some (record {
  picture =
      if ==_ℤ a.adapted_width f.width && ==_ℤ a.adapted_height f.height
      then copied f
      else scaled a f;
  rotation = f.rotation;
  timestamp = a.translated_timestamp;
})

pub data Outcome : Type 0 where
  threw : WriteError → Outcome
  returned : Bool → Outcome

-- `Write` from the copy on, where the checks have passed; `adapt` answers for the frame.
unfoldable pub finish_write :
    (adapt : Frame → Option Adapted)
    → VideoTrack
    → Result WriteError Frame
    → VideoTrack × Outcome × Option Emitted
unfolding push_frame
finish_write adapt t (err e) = (t, threw e, none)
finish_write adapt t (ok f) =
    let emitted = push_frame (adapt f) f in
    let delivered = is_some emitted in
    (record t { stats = count_write delivered f.timestamp t.stats }, returned delivered, emitted)

unfoldable pub write :
    (adapt : Frame → Option Adapted) (now : ℤ)
    → Option JsValue
    → VideoTrack
    → VideoTrack × Outcome × Option Emitted
unfolding check_frame finish_write
write adapt now info t = finish_write adapt t (check_frame t now info)

abbrev pub size_or_0 : Option ℤ → ℕ
size_or_0 none = 0
size_or_0 (some z) = pos_part z

abbrev pub expected : JsValue → String → ℕ
expected opts key = if has opts key then size_or_0 (to_finite_int32 (get opts key)) else 0

unfoldable pub configure_source : Option JsValue → VideoTrack → VideoTrack
configure_source none t = t
configure_source (some opts) t =
    if is_object opts
    then record t {
      expected_width = expected opts "width";
      expected_height = expected opts "height";
    }
    else t

-- What getWriteStats gives, `send_queue_depth` and `max_queue` being 0.
unfoldable pub get_write_stats : VideoTrack → WriteStats × ℕ × ℕ
get_write_stats t = (t.stats, 0, 0)
