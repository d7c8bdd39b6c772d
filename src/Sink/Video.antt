-- ===== src/Sink/Video.antt =====
-- src/sinks/video_frame_sink.cpp with src/media/local_video_track_wrap.cpp: a frame received from a
-- remote video track can be written to a local one.
use twilio_video_node.Base.{
  ℕ, ◌+◌, ◌*◌, ◌/◌, ◌%◌, ◌^◌, ◌≤◌, ◌<◌, ◌≡◌, ◌⊎◌, refl, ap, ap₂, ◌∙◌, true, List, Option, none,
  some, ℤ, pos, leb, length, length-take, take, arith, Result, ok, ◌>>=◌, ◌>>◌, guard, some_or,
  String, is_some, ◌&&◌, pass, go_on, subst, sym,
}
use twilio_video_node.Js.{get, has, lookup, JsValue, is_object, or_undefined, properties}
use twilio_video_node.Writes.{to_finite_int32}
use twilio_video_node.Video.{
  VideoTrack, Frame, Plane, WriteError, check_frame, check_sizes, required, read_plane,
  read_timestamp, read_rotation, bad_size, no_source, as_buffer, bad_stride, data_not_buffer,
  no_plane, plane_not_object, not_positive, not_even, size_mismatch, short_stride, short_buffer,
  Rotation, rotation_0, rotation_90, rotation_180, rotation_270,
}
use twilio_video_node.Video.Bounds.{required_exact}
use twilio_video_node.Sink.Media.{
  WebrtcFrame, VideoFrameData, video_frame_data, video_frame, natural, plane,
}

int32_read : (n : ℕ) → n < 2 ^ 31 → to_finite_int32 (natural n) ≡ some (pos n)
unfolding to_finite_int32
int32_read n h = ground arith

-- `read_plane` with the property that it finds.
abbrev plane_of : String → Option JsValue → Result WriteError Plane
plane_of k o = do
  guard (is_some o) (no_plane k)
  guard (is_object (or_undefined o)) (plane_not_object k)
  bytes ←
      some_or (as_buffer (or_undefined (lookup "data" (properties (or_undefined o)))))
        (data_not_buffer k)
  stride ←
      some_or (to_finite_int32 (or_undefined (lookup "stride" (properties (or_undefined o)))))
        (bad_stride k)
  ok (record { bytes = bytes; stride = stride })

abbrev strided : String → List ℕ → Option ℤ → Result WriteError Plane
strided k bytes o = do
  stride ← some_or o (bad_stride k)
  ok (record { bytes = bytes; stride = stride })

with_stride :
    (k : String) (bytes : List ℕ) (o : Option ℤ) (z : ℤ)
    → o ≡ some z
    → strided k bytes o ≡ ok (record { bytes = bytes; stride = z })
with_stride k bytes o z e = ground arith

plane_read :
    (frame : JsValue) (k : String) (bytes : List ℕ) (s w h : ℕ)
    → lookup k (properties frame) ≡ some (plane bytes s w h)
    → s < 2 ^ 31
    → read_plane frame k ≡ ok (record { bytes = bytes; stride = pos s })
unfolding read_plane get has lookup
plane_read frame k bytes s w h x small =
    ap (plane_of k) x
    ∙ with_stride k bytes (to_finite_int32 (natural s)) (pos s) (int32_read s small)

timestamp_read :
    (now : ℤ) (f : VideoFrameData) (clock : ℕ)
    → f.timestamp_us ≡ pos clock
    → clock < 2 ^ 53
    → read_timestamp now (video_frame f) ≡ ok (pos clock)
unfolding read_timestamp video_frame get has lookup
timestamp_read now f clock e h = ground arith

rotation_read :
    (f : VideoFrameData) (c : Option ℤ) (r : Rotation)
    → f.capture_timestamp_us ≡ c
    → f.rotation ≡ r
    → read_rotation (video_frame f) ≡ ok r
unfolding read_rotation video_frame get has lookup to_finite_int32
rotation_read f none rotation_0 ec er = ground arith
rotation_read f none rotation_90 ec er = ground arith
rotation_read f none rotation_180 ec er = ground arith
rotation_read f none rotation_270 ec er = ground arith
rotation_read f (some c) rotation_0 ec er = ground arith
rotation_read f (some c) rotation_90 ec er = ground arith
rotation_read f (some c) rotation_180 ec er = ground arith
rotation_read f (some c) rotation_270 ec er = ground arith

-- The sizes of a frame that a track configured for it, or for none, takes.
pub record IsWritable (t : VideoTrack) (f : WebrtcFrame) : Type 0 where
  pub source : t.source ≡ true
  pub width_fits : (t.expected_width ≡ 0) ⊎ (f.width ≡ t.expected_width)
  pub height_fits : (t.expected_height ≡ 0) ⊎ (f.height ≡ t.expected_height)
  pub width_positive : 0 < f.width
  pub height_positive : 0 < f.height
  pub width_even : f.width % 2 ≡ 0
  pub height_even : f.height % 2 ≡ 0
  pub height_small : f.height < 2 ^ 31
  pub stride_y : f.width ≤ f.stride_y
  pub stride_u : f.width / 2 ≤ f.stride_u
  pub stride_v : f.width / 2 ≤ f.stride_v
  pub small_y : f.stride_y < 2 ^ 31
  pub small_u : f.stride_u < 2 ^ 31
  pub small_v : f.stride_v < 2 ^ 31
  pub bytes_y : f.stride_y * f.height ≤ length f.bytes_y
  pub bytes_u : f.stride_u * (f.height / 2) ≤ length f.bytes_u
  pub bytes_v : f.stride_v * (f.height / 2) ≤ length f.bytes_v

abbrev pub plane_of_frame : List ℕ → (stride rows : ℕ) → Plane
plane_of_frame bytes stride rows = record {
  bytes = take (stride * rows) bytes;
  stride = pos stride;
}

whole_plane :
    (bytes : List ℕ) (stride rows : ℕ)
    → 0 < stride
    → stride < 2 ^ 31
    → rows < 2 ^ 31
    → stride * rows ≤ length bytes
    → leb (required (plane_of_frame bytes stride rows) rows) (length (take (stride * rows) bytes))
      ≡ true
whole_plane bytes stride rows p s r h =
    let e = required_exact (plane_of_frame bytes stride rows) rows p s r in
    let l = length-take (stride * rows) bytes in leb-true _ _ (omega arith)
  where
    leb-true : (a b : ℕ) → a ≤ b → leb a b ≡ true
    leb-true a b h = ground arith

even_half : (n : ℕ) → n % 2 ≡ 0 → (n + 1) / 2 ≡ n / 2
even_half n h = omega arith

sizes_checked :
    (t : VideoTrack) (f : WebrtcFrame)
    → IsWritable t f
    → check_sizes t
        (pos f.width)
        (pos f.height)
        (plane_of_frame f.bytes_y f.stride_y f.height)
        (plane_of_frame f.bytes_u f.stride_u ((f.height + 1) / 2))
        (plane_of_frame f.bytes_v f.stride_v ((f.height + 1) / 2))
      ≡ ok tt
unfolding check_sizes
sizes_checked t f h =
    let half = even_half f.height h.height_even in
    let u = subst (λ n. f.stride_u * n ≤ length f.bytes_u) (sym half) h.bytes_u in
    let v = subst (λ n. f.stride_v * n ≤ length f.bytes_v) (sym half) h.bytes_v in
    pass _ not_positive _ (ground arith) (
      pass _ not_even _ (ground arith) (
        pass _ size_mismatch _ (ground arith) (
          pass _ short_stride _ (ground arith) (
            ap₂ (λ a b. guard (a && b) short_buffer)
              (ap₂ (λ a b. a && b)
                (whole_plane f.bytes_y f.stride_y f.height (omega arith) h.small_y h.height_small
                  h.bytes_y)
                (whole_plane f.bytes_u f.stride_u ((f.height + 1) / 2) (omega arith) h.small_u
                  (omega arith) u))
              (whole_plane f.bytes_v f.stride_v ((f.height + 1) / 2) (omega arith) h.small_v
                (omega arith) v)))))

-- The frame as a write of it takes it.
abbrev pub written : WebrtcFrame → Frame
written f = record {
  width = pos f.width;
  height = pos f.height;
  y = plane_of_frame f.bytes_y f.stride_y f.height;
  u = plane_of_frame f.bytes_u f.stride_u ((f.height + 1) / 2);
  v = plane_of_frame f.bytes_v f.stride_v ((f.height + 1) / 2);
  timestamp = f.timestamp_us;
  rotation = f.rotation;
}

-- A frame received from a remote video track, whose width and height are even and positive, whose planes
-- and strides fit its size and whose timestamp a JS number holds exactly, passes the checks of a write to a local video track that has its source
-- and is configured for the size or for none: the planes, the strides, the timestamp and the rotation
-- are those that were received.
pub video_loops :
    (t : VideoTrack) (now : ℤ) (f : WebrtcFrame) (clock id : ℕ)
    → IsWritable t f
    → f.timestamp_us ≡ pos clock
    → clock < 2 ^ 53
    → check_frame t now (some (video_frame (video_frame_data f id))) ≡ ok (written f)
unfolding check_frame video_frame video_frame_data get has lookup
video_loops t now f clock id h e c =
    let d = video_frame_data f id in
    let o = video_frame d in
    go_on (some_or (to_finite_int32 (natural f.width)) bad_size) _ (pos f.width)
      (ap (λ x. some_or x bad_size) (int32_read f.width (omega arith)))
      (go_on (some_or (to_finite_int32 (natural f.height)) bad_size) _ (pos f.height)
        (ap (λ x. some_or x bad_size) (int32_read f.height h.height_small))
        (go_on (read_plane o "y") _ _
          (plane_read o "y" d.y_plane f.stride_y f.width f.height refl h.small_y)
          (go_on (read_plane o "u") _ _
            (plane_read o "u" d.u_plane f.stride_u ((f.width + 1) / 2) ((f.height + 1) / 2) refl
              h.small_u)
            (go_on (read_plane o "v") _ _
              (plane_read o "v" d.v_plane f.stride_v ((f.width + 1) / 2) ((f.height + 1) / 2) refl
                h.small_v)
              (go_on
                (check_sizes t (pos f.width) (pos f.height) (written f).y (written f).u
                  (written f).v)
                _ tt (sizes_checked t f h)
                (go_on (read_timestamp now o) _ f.timestamp_us
                  (timestamp_read now d clock e c ∙ ap (λ z. ok z) (sym e))
                  (go_on (read_rotation o) _ f.rotation
                    (rotation_read d f.capture_us f.rotation refl refl)
                    (go_on (guard t.source no_source) _ tt (ap (λ b. guard b no_source) h.source)
                      refl))))))))
