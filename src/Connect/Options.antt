-- ===== src/Connect/Options.antt =====
-- src/video/room_wrap.cpp: what `parseConnectOptions` reads, and its readers of single options.
use twilio_video_node.Base.{
  ℕ, zero, suc, [], ◌∷◌, ℤ, Bool, List, Option, none, some, String, pos, Result, ok, err, ◌>>=◌,
}
use twilio_video_node.Js.{
  JsValue, native, NativeClass, media_factory, local_video_track, local_audio_track,
  local_data_track,
}
use twilio_video_node.Connect.Fields.{
  Thrown, type_error, range_error, must_be, read_string, as_object, as_array, each, optional,
  read_bitrate, whole_of,
}
use twilio_video_node.Connect.Profile.{BandwidthProfile, read_enum}
use twilio_video_node.Connect.Ice.{IceOptions}

pub data Verbosity : Type 0 where
  no_verbosity minimal : Verbosity

pub record NetworkQuality : Type 0 where
  pub local_level : Option Verbosity
  pub remote_level : Option Verbosity

pub data AudioCodec : Type 0 where
  opus pcmu : AudioCodec

pub data VideoCodec : Type 0 where
  vp8 : VideoCodec

pub data VideoEncodingMode : Type 0 where
  auto_mode : VideoEncodingMode

pub record EncodingParameters : Type 0 where
  pub max_audio_bitrate : Option ℕ
  pub max_video_bitrate : Option ℕ

pub record PlatformInfo : Type 0 where
  pub sdk_version : Option String
  pub platform_name : Option String
  pub platform_version : Option String
  pub hw_device_arch : Option String

-- A track and a media factory are known by the number of the native object of their wrap.
pub record ConnectOptions : Type 0 where
  pub room_name : Option String
  pub factory : Option ℕ
  pub insights : Option Bool
  pub automatic_subscription : Option Bool
  pub dominant_speaker : Option Bool
  pub network_quality : Option Bool
  pub transcriptions : Option Bool
  pub region : Option String
  pub quality_configuration : Option NetworkQuality
  pub audio_codecs : Option (List AudioCodec)
  pub video_codecs : Option (List VideoCodec)
  pub encoding_mode : Option VideoEncodingMode
  pub bandwidth_profile : Option BandwidthProfile
  pub encoding_parameters : Option EncodingParameters
  pub ice_options : Option IceOptions
  pub platform_info : Option PlatformInfo
  pub video_tracks : Option (List ℕ)
  pub audio_tracks : Option (List ℕ)
  pub data_tracks : Option (List ℕ)

-- The object behind a wrap of the class.
abbrev pub instance_of : NativeClass → JsValue → Option ℕ
instance_of media_factory (native media_factory n) = some n
instance_of local_video_track (native local_video_track n) = some n
instance_of local_audio_track (native local_audio_track n) = some n
instance_of local_data_track (native local_data_track n) = some n
instance_of c v = none

unfoldable pub read_instance : NativeClass → (field expected : String) → JsValue → Result Thrown ℕ
read_instance c field expected v = elim (instance_of c v) [
  | none ↦ err (type_error (must_be field expected))
  | some n ↦ ok n
]

abbrev pub verbosity_of : String → Option ℤ → Result Thrown Verbosity
verbosity_of field (some (pos zero)) = ok no_verbosity
verbosity_of field (some (pos (suc zero))) = ok minimal
verbosity_of field _ = err (range_error (must_be field "0 or 1"))

unfoldable pub read_verbosity : String → JsValue → Result Thrown Verbosity
unfolding whole_of
read_verbosity field v = whole_of field v >>= verbosity_of field

unfoldable pub read_network_quality : JsValue → Result Thrown NetworkQuality
unfolding optional as_object read_verbosity
read_network_quality v = do
  o ← as_object "networkQualityConfiguration" v
  local ← optional o "local" (read_verbosity "networkQualityConfiguration.local")
  remote ← optional o "remote" (read_verbosity "networkQualityConfiguration.remote")
  ok (record { local_level = local; remote_level = remote })

abbrev pub audio_codecs_known : List (String × AudioCodec)
audio_codecs_known = ("opus", opus) ∷ ("PCMU", pcmu) ∷ []

abbrev pub video_codecs_known : List (String × VideoCodec)
video_codecs_known = ("VP8", vp8) ∷ []

abbrev pub encoding_modes : List (String × VideoEncodingMode)
encoding_modes = ("auto", auto_mode) ∷ []

unfoldable pub read_audio_codecs : JsValue → Result Thrown (List AudioCodec)
unfolding as_array each read_enum
read_audio_codecs v =
    as_array "preferredAudioCodecs" v
    >>= each (read_enum "preferredAudioCodecs entries" "audio codec" audio_codecs_known)

unfoldable pub read_video_codecs : JsValue → Result Thrown (List VideoCodec)
unfolding as_array each read_enum
read_video_codecs v =
    as_array "preferredVideoCodecs" v
    >>= each (read_enum "preferredVideoCodecs entries" "video codec" video_codecs_known)

unfoldable pub read_encoding_parameters : JsValue → Result Thrown EncodingParameters
unfolding optional as_object read_bitrate
read_encoding_parameters v = do
  o ← as_object "encodingParameters" v
  audio ← optional o "maxAudioBitrate" (read_bitrate "encodingParameters.maxAudioBitrate")
  video ← optional o "maxVideoBitrate" (read_bitrate "encodingParameters.maxVideoBitrate")
  ok (record { max_audio_bitrate = audio; max_video_bitrate = video })

unfoldable pub read_platform_info : JsValue → Result Thrown PlatformInfo
unfolding optional as_object read_string
read_platform_info v = do
  o ← as_object "platformInfo" v
  sdk ← optional o "sdkVersion" (read_string "platformInfo.sdkVersion")
  name ← optional o "platformName" (read_string "platformInfo.platformName")
  version ← optional o "platformVersion" (read_string "platformInfo.platformVersion")
  arch ← optional o "deviceArchitecture" (read_string "platformInfo.deviceArchitecture")
  ok (record {
    sdk_version = sdk;
    platform_name = name;
    platform_version = version;
    hw_device_arch = arch;
  })

unfoldable pub read_tracks :
    NativeClass → (field expected : String) → JsValue → Result Thrown (List ℕ)
unfolding as_array each read_instance
read_tracks c field expected v = as_array field v >>= each (read_instance c field expected)
