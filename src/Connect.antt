-- ===== src/Connect.antt =====
-- src/video/room_wrap.cpp: `parseConnectOptions` and `Connect`.
-- The builder of rtc-cpp is a record of what was set on it: `none` is what was left to its default. What
-- `build` and rtc-cpp's `connect` do is an argument of `connect`.
pub mod Fields
pub mod Profile
pub mod Ice
pub mod Options
pub mod Write
pub mod Nested
pub mod Listed
pub mod Written
pub mod Held
use text.Mathlib.Text.{◌==◌ as str_eq}
use twilio_video_node.Base.{
  ℕ, zero, suc, [], ◌∷◌, ℤ, Bool, true, false, ◌&&◌, not, List, Option, none, some, String, pos,
  if◌then◌else◌, Result, ok, err, ◌>>=◌, ◌>>◌, guard,
}
use twilio_video_node.Js.{
  JsValue, undefined, string, object, end, native, NativeClass, media_factory, local_video_track,
  local_audio_track, local_data_track, is_object, is_string, is_undefined,
}
use twilio_video_node.Async.{Context, open_context, ref}
use twilio_video_node.Connect.Fields.{
  Thrown, type_error, range_error, must_be, unknown, read_string, read_bool, as_object, as_array,
  each, optional, read_bitrate, one_of, whole_of,
}
use twilio_video_node.Connect.Profile.{BandwidthProfile, read_enum, read_bandwidth_profile}
use twilio_video_node.Connect.Ice.{IceOptions, read_ice_options}
use twilio_video_node.Connect.Options.{
  ConnectOptions, read_instance, read_network_quality, read_audio_codecs, read_video_codecs,
  encoding_modes, read_encoding_parameters, read_platform_info, read_tracks,
}

-- A property that sets nothing where it is there but holds nothing to set.
abbrev pub flatten {ℓ} : {A : Type ℓ} → Option (Option A) → Option A
flatten none = none
flatten (some o) = o

unfoldable pub parse_connect_options : JsValue → Result Thrown ConnectOptions
parse_connect_options o = do
  name ← optional o "name" (read_string "name")
  factory ←
      optional o "mediaFactory"
        (read_instance media_factory "mediaFactory" "a MediaFactory instance")
  insights ← optional o "enableInsights" (read_bool "enableInsights")
  subscription ← optional o "enableAutomaticSubscription" (read_bool "enableAutomaticSubscription")
  speaker ← optional o "enableDominantSpeaker" (read_bool "enableDominantSpeaker")
  quality ← optional o "enableNetworkQuality" (read_bool "enableNetworkQuality")
  transcriptions ← optional o "receiveTranscriptions" (read_bool "receiveTranscriptions")
  region ← optional o "region" (read_string "region")
  configuration ← optional o "networkQualityConfiguration" read_network_quality
  audio_codecs ← optional o "preferredAudioCodecs" read_audio_codecs
  video_codecs ← optional o "preferredVideoCodecs" read_video_codecs
  encoding_mode ←
      optional o "videoEncodingMode"
        (read_enum "videoEncodingMode" "videoEncodingMode" encoding_modes)
  profile ← optional o "bandwidthProfile" read_bandwidth_profile
  encoding ← optional o "encodingParameters" read_encoding_parameters
  ice ← optional o "iceOptions" read_ice_options
  platform ← optional o "platformInfo" read_platform_info
  video ←
      optional o "videoTracks"
        (read_tracks local_video_track "videoTracks" "LocalVideoTrack instances")
  audio ←
      optional o "audioTracks"
        (read_tracks local_audio_track "audioTracks" "LocalAudioTrack instances")
  messages ←
      optional o "dataTracks" (read_tracks local_data_track "dataTracks" "LocalDataTrack instances")
  ok (record {
    room_name = name;
    factory = factory;
    insights = insights;
    automatic_subscription = subscription;
    dominant_speaker = speaker;
    network_quality = quality;
    transcriptions = transcriptions;
    region = region;
    quality_configuration = configuration;
    audio_codecs = audio_codecs;
    video_codecs = video_codecs;
    encoding_mode = encoding_mode;
    bandwidth_profile = flatten profile;
    encoding_parameters = encoding;
    ice_options = ice;
    platform_info = platform;
    video_tracks = video;
    audio_tracks = audio;
    data_tracks = messages;
  })

-- How `Connect` ends: with a JS exception, where nothing is returned, or with the Room.
pub data ConnectError : Type 0 where
  token_not_string options_not_object failed_to_create : ConnectError
  bad_option : Thrown → ConnectError
  runtime_error : String → ConnectError

-- The Room object that `Connect` made, if it came to that: its observer's context, its own, and the
-- native room.
pub record RoomObject : Type 0 where
  pub observer_context : Context (Unit {0})
  pub context : Context (Unit {0})
  pub room : Option ℕ

unfoldable pub new_room_object : RoomObject
unfolding open_context
new_room_object = record {
  observer_context = open_context 0;
  context = open_context 0;
  room = none;
}

-- The second argument: only `undefined`, or none, stands for no options.
abbrev pub options_argument : Option JsValue → Result ConnectError JsValue
options_argument none = ok (object end)
options_argument (some undefined) = ok (object end)
options_argument (some v) = if is_object v then ok v else err options_not_object

abbrev pub as_bad_option : Result Thrown ConnectOptions → Result ConnectError ConnectOptions
as_bad_option (ok o) = ok o
as_bad_option (err e) = err (bad_option e)

-- What rtc-cpp's `connect` answers: it throws, or gives a room or a null pointer.
abbrev pub as_room : Result String (Option ℕ) → Result ConnectError ℕ
as_room (err what) = err (runtime_error what)
as_room (ok none) = err failed_to_create
as_room (ok (some room)) = ok room

-- From the token on.
unfoldable pub join_room :
    (rtc_connect : String → ConnectOptions → Result String (Option ℕ))
    → String
    → Option JsValue
    → Result ConnectError ℕ
unfolding parse_connect_options
join_room rtc_connect token options = do
  o ← options_argument options
  built ← as_bad_option (parse_connect_options o)
  as_room (rtc_connect token built)

-- `ref` is called on both contexts only where there is a room.
unfoldable pub hold : Result ConnectError ℕ → RoomObject × Result ConnectError ℕ
unfolding ref new_room_object
hold (err e) = (new_room_object, err e)
hold (ok room) = (
  record new_room_object {
    observer_context = ref new_room_object.observer_context;
    context = ref new_room_object.context;
    room = some room;
  },
  ok room,
)

unfoldable pub connect :
    (rtc_connect : String → ConnectOptions → Result String (Option ℕ)) (token : Option JsValue)
    (options : Option JsValue)
    → Option RoomObject × Result ConnectError ℕ
unfolding join_room hold
connect rtc_connect (some (string token)) options =
    let (wrap, outcome) = hold (join_room rtc_connect token options) in (some wrap, outcome)
connect rtc_connect _ options = (none, err token_not_string)
