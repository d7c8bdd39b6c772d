-- ===== src/Sink/Media.antt =====
-- src/sinks: the data of a frame as `OnData` and `OnFrame` copy it, and the JS objects that the
-- callbacks get.
-- A sample is the bit pattern of its int16_t. WebRTC's sizes are not negative, and its products do not
-- overflow an `int`.
use twilio_video_node.Base.{
  ℕ, ◌+◌, ◌*◌, ◌/◌, ◌%◌, List, [], ◌∷◌, Option, none, some, ℤ, pos, take, replicate, u32, ◌==◌,
  if◌then◌else◌,
}
use twilio_video_node.Js.{JsValue, number, string, buffer, object, Fields, end, field, whole}
use twilio_video_node.Video.{Rotation, rotation_0, rotation_90, rotation_180, rotation_270}

pub record AudioFrameData : Type 0 where
  pub samples : List ℕ
  pub bits_per_sample : ℕ
  pub sample_rate : ℕ
  pub number_of_channels : ℕ
  pub number_of_frames : ℕ
  pub timestamp_us : ℤ
  pub frame_id : ℕ

-- `OnData` of the audio sink: the data with an id, of `audio` samples and the clock.
unfoldable pub audio_frame_data :
    (audio : List ℕ) (bits rate channels frames : ℕ) (now : ℤ) → ℕ → AudioFrameData
audio_frame_data audio bits rate channels frames now id = record {
  samples = if bits == 16 then take (frames * channels) audio else replicate (frames * channels) 0;
  bits_per_sample = bits;
  sample_rate = rate;
  number_of_channels = channels;
  number_of_frames = frames;
  timestamp_us = now;
  frame_id = id;
}

-- The bytes of int16_t samples, the low one first.
unfoldable pub bytes_of : List ℕ → List ℕ
bytes_of [] = []
bytes_of (x ∷ xs) = x % 256 ∷ x / 256 ∷ bytes_of xs

abbrev pub natural : ℕ → JsValue
natural n = number (whole (pos n))

-- The object of the audio sink's lambda.
unfoldable pub audio_frame : AudioFrameData → JsValue
unfolding bytes_of
audio_frame f = object (
    field "format" (string "PCM_S16LE") (
      field "sampleRate" (natural f.sample_rate) (
        field "channels" (natural (u32 f.number_of_channels)) (
          field "frames" (natural (u32 f.number_of_frames)) (
            field "pcm" (buffer (bytes_of f.samples)) (
              field "timestamp" (number (whole f.timestamp_us))
                (field "frameId" (natural f.frame_id) end)))))))

-- The I420 buffer of a WebRTC frame, with what the sink reads of the frame.
pub record WebrtcFrame : Type 0 where
  pub width : ℕ
  pub height : ℕ
  pub stride_y : ℕ
  pub stride_u : ℕ
  pub stride_v : ℕ
  pub bytes_y : List ℕ
  pub bytes_u : List ℕ
  pub bytes_v : List ℕ
  pub timestamp_us : ℤ
  pub rotation : Rotation
  pub rtp_timestamp : ℕ
  pub capture_us : Option ℤ

pub record VideoFrameData : Type 0 where
  pub y_plane : List ℕ
  pub u_plane : List ℕ
  pub v_plane : List ℕ
  pub width : ℕ
  pub height : ℕ
  pub stride_y : ℕ
  pub stride_u : ℕ
  pub stride_v : ℕ
  pub timestamp_us : ℤ
  pub rotation : Rotation
  pub frame_id : ℕ
  pub capture_timestamp_us : Option ℤ
  pub rtp_timestamp : ℕ

-- `OnFrame` of the video sink, of a buffer that converts to I420: the data with an id.
unfoldable pub video_frame_data : WebrtcFrame → ℕ → VideoFrameData
video_frame_data f id =
    let uv_height = (f.height + 1) / 2 in
    record {
      y_plane = take (f.stride_y * f.height) f.bytes_y;
      u_plane = take (f.stride_u * uv_height) f.bytes_u;
      v_plane = take (f.stride_v * uv_height) f.bytes_v;
      width = f.width;
      height = f.height;
      stride_y = f.stride_y;
      stride_u = f.stride_u;
      stride_v = f.stride_v;
      timestamp_us = f.timestamp_us;
      rotation = f.rotation;
      frame_id = id;
      capture_timestamp_us = f.capture_us;
      rtp_timestamp = f.rtp_timestamp;
    }

abbrev pub plane : List ℕ → (stride width height : ℕ) → JsValue
plane bytes stride width height = object (
    field "data" (buffer bytes) (
      field "stride" (natural stride)
        (field "width" (natural width) (field "height" (natural height) end))))

-- Set where it is not 0.
abbrev pub rotation_fields : Rotation → Fields
rotation_fields rotation_0 = end
rotation_fields rotation_90 = field "rotation" (natural 90) end
rotation_fields rotation_180 = field "rotation" (natural 180) end
rotation_fields rotation_270 = field "rotation" (natural 270) end

abbrev pub capture_fields : Option ℤ → Fields → Fields
capture_fields none rest = rest
capture_fields (some us) rest = field "captureTimestamp" (number (whole us)) rest

-- The object of the video sink's lambda.
unfoldable pub video_frame : VideoFrameData → JsValue
video_frame f =
    let uv_width = (f.width + 1) / 2 in
    let uv_height = (f.height + 1) / 2 in
    object (
      field "format" (string "I420") (
        field "width" (natural f.width) (
          field "height" (natural f.height) (
            field "y" (plane f.y_plane f.stride_y f.width f.height) (
              field "u" (plane f.u_plane f.stride_u uv_width uv_height) (
                field "v" (plane f.v_plane f.stride_v uv_width uv_height) (
                  field "timestamp" (number (whole f.timestamp_us)) (
                    field "frameId" (natural f.frame_id) (
                      capture_fields f.capture_timestamp_us (
                        field "rtpTimestamp" (natural f.rtp_timestamp)
                          (rotation_fields f.rotation)))))))))))
