-- ===== src/Connect/Written.antt =====
-- src/video/room_wrap.cpp, `parseConnectOptions`: options that are written out are read back.
use twilio_video_node.Base.{ℕ, Bool, ◌≡◌, refl, List, [], ◌∷◌, Option, none, some, String, ok}
use twilio_video_node.Js.{
  JsValue, string, boolean, native, NativeClass, media_factory, local_video_track,
  local_audio_track, local_data_track,
}
use twilio_video_node.Connect.{parse_connect_options, flatten}
use twilio_video_node.Connect.Fields.{optional, read_bool}
use twilio_video_node.Connect.Profile.{BandwidthProfile, read_enum, read_bandwidth_profile}
use twilio_video_node.Connect.Ice.{IceOptions, read_ice_options}
use twilio_video_node.Connect.Options.{
  ConnectOptions, EncodingParameters, NetworkQuality, PlatformInfo, encoding_modes, read_instance,
  read_network_quality, read_audio_codecs, read_video_codecs, read_encoding_parameters,
  read_platform_info, read_tracks,
}
use twilio_video_node.Connect.Write.{
  Properties, object_of, optional-written, optional_missing, optional_found, written, find, or_else,
  read_bool_written,
}
use twilio_video_node.Connect.Nested.{
  IsSafe, encoding_properties, encoding_written, platform_properties, platform_written,
  quality_properties, quality_written, ice_properties, ice_written, text_written,
}
use twilio_video_node.Connect.Listed.{
  write_profile, profile_written, write_enum, spell_encoding, encoding_mode_written,
  write_audio_codecs, audio_codecs_written, write_video_codecs, video_codecs_written, write_tracks,
  tracks_written, instance_written,
}

abbrev write_quality : NetworkQuality → JsValue
write_quality q = object_of (quality_properties q)

abbrev write_encoding : EncodingParameters → JsValue
write_encoding e = object_of (encoding_properties e)

abbrev write_ice : IceOptions → JsValue
write_ice i = object_of (ice_properties i)

abbrev write_platform : PlatformInfo → JsValue
write_platform p = object_of (platform_properties p)

-- The object that a caller gives to `connect` for these options.
abbrev pub properties_of : ConnectOptions → Properties
properties_of o =
    ("name", written string o.room_name)
    ∷ ("mediaFactory", written (native media_factory) o.factory)
    ∷ ("enableInsights", written boolean o.insights)
    ∷ ("enableAutomaticSubscription", written boolean o.automatic_subscription)
    ∷ ("enableDominantSpeaker", written boolean o.dominant_speaker)
    ∷ ("enableNetworkQuality", written boolean o.network_quality)
    ∷ ("receiveTranscriptions", written boolean o.transcriptions)
    ∷ ("region", written string o.region)
    ∷ ("networkQualityConfiguration", written write_quality o.quality_configuration)
    ∷ ("preferredAudioCodecs", written write_audio_codecs o.audio_codecs)
    ∷ ("preferredVideoCodecs", written write_video_codecs o.video_codecs)
    ∷ ("videoEncodingMode", written (write_enum spell_encoding) o.encoding_mode)
    ∷ ("bandwidthProfile", written write_profile o.bandwidth_profile)
    ∷ ("encodingParameters", written write_encoding o.encoding_parameters)
    ∷ ("iceOptions", written write_ice o.ice_options)
    ∷ ("platformInfo", written write_platform o.platform_info)
    ∷ ("videoTracks", written (write_tracks local_video_track) o.video_tracks)
    ∷ ("audioTracks", written (write_tracks local_audio_track) o.audio_tracks)
    ∷ ("dataTracks", written (write_tracks local_data_track) o.data_tracks)
    ∷ []

abbrev IsSafeProfile : Option BandwidthProfile → Type 0
IsSafeProfile none = Unit
IsSafeProfile (some p) = IsSafe p.max_subscription_bitrate

abbrev IsSafeEncoding : Option EncodingParameters → Type 0
IsSafeEncoding none = Unit
IsSafeEncoding (some e) = IsSafe e.max_audio_bitrate × IsSafe e.max_video_bitrate

-- Every bitrate is a safe integer of JS.
abbrev pub IsWritable : ConnectOptions → Type 0
IsWritable o = IsSafeProfile o.bandwidth_profile × IsSafeEncoding o.encoding_parameters

flag_written :
    (ps : Properties) (k : String) (x : Option Bool)
    → find k ps ≡ or_else (written boolean x) none
    → optional (object_of ps) k (read_bool k) ≡ ok x
flag_written ps k x e =
    optional-written ps k (read_bool k) boolean x e (λ b q. read_bool_written k b)

-- What the reader of the option makes of a profile that is written.
abbrev nested : Option BandwidthProfile → Option (Option BandwidthProfile)
nested none = none
nested (some p) = some (some p)

flatten-nested : (x : Option BandwidthProfile) → flatten (nested x) ≡ x
flatten-nested none = refl
flatten-nested (some p) = refl

profile_option_written :
    (ps : Properties) (x : Option BandwidthProfile)
    → find "bandwidthProfile" ps ≡ or_else (written write_profile x) none
    → IsSafeProfile x
    → optional (object_of ps) "bandwidthProfile" read_bandwidth_profile ≡ ok (nested x)
profile_option_written ps none e h = optional_missing ps "bandwidthProfile" read_bandwidth_profile e
profile_option_written ps (some p) e h =
    optional_found ps "bandwidthProfile" read_bandwidth_profile (write_profile p) (some p) e
      (profile_written p h)

encoding_option_written :
    (ps : Properties) (x : Option EncodingParameters)
    → find "encodingParameters" ps ≡ or_else (written write_encoding x) none
    → IsSafeEncoding x
    → optional (object_of ps) "encodingParameters" read_encoding_parameters ≡ ok x
encoding_option_written ps none e h =
    optional_missing ps "encodingParameters" read_encoding_parameters e
encoding_option_written ps (some x) e h =
    optional_found ps "encodingParameters" read_encoding_parameters (write_encoding x) x e
      (encoding_written x h.0 h.1)

tracks_option_written :
    (ps : Properties) (c : NativeClass) (k expected : String) (x : Option (List ℕ))
    → find k ps ≡ or_else (written (write_tracks c) x) none
    → optional (object_of ps) k (read_tracks c k expected) ≡ ok x
tracks_option_written ps c k expected x e =
    optional-written ps k (read_tracks c k expected) (write_tracks c) x e
      (λ tracks q. tracks_written c k expected tracks)

-- Connect options that are written out as a JS object, with the ones not set left out, are read back as
-- the same options: nothing is thrown, and none is lost, confused with another or set where it was not.
-- The bitrates are taken to be safe integers of JS.
pub connect_options_kept :
    (o : ConnectOptions) → IsWritable o → parse_connect_options (object_of (properties_of o)) ≡ ok o
unfolding parse_connect_options
connect_options_kept o (p, e) =
    let ps = properties_of o in
    simp (
      text_written ps "name" "name" o.room_name refl,
      optional-written ps "mediaFactory"
          (read_instance media_factory "mediaFactory" "a MediaFactory instance")
          (native media_factory) o.factory refl
          (λ n q. instance_written media_factory "mediaFactory" "a MediaFactory instance" n),
      flag_written ps "enableInsights" o.insights refl,
      flag_written ps "enableAutomaticSubscription" o.automatic_subscription refl,
      flag_written ps "enableDominantSpeaker" o.dominant_speaker refl,
      flag_written ps "enableNetworkQuality" o.network_quality refl,
      flag_written ps "receiveTranscriptions" o.transcriptions refl,
      text_written ps "region" "region" o.region refl,
      optional-written ps "networkQualityConfiguration" read_network_quality write_quality
          o.quality_configuration refl (λ q e. quality_written q),
      optional-written ps "preferredAudioCodecs" read_audio_codecs write_audio_codecs o.audio_codecs
          refl (λ c e. audio_codecs_written c),
      optional-written ps "preferredVideoCodecs" read_video_codecs write_video_codecs o.video_codecs
          refl (λ c e. video_codecs_written c),
      optional-written ps "videoEncodingMode"
          (read_enum "videoEncodingMode" "videoEncodingMode" encoding_modes)
          (write_enum spell_encoding) o.encoding_mode refl (λ m e. encoding_mode_written m),
      profile_option_written ps o.bandwidth_profile refl p,
      encoding_option_written ps o.encoding_parameters refl e,
      optional-written ps "iceOptions" read_ice_options write_ice o.ice_options refl
          (λ i e. ice_written i),
      optional-written ps "platformInfo" read_platform_info write_platform o.platform_info refl
          (λ i e. platform_written i),
      tracks_option_written ps local_video_track "videoTracks" "LocalVideoTrack instances"
          o.video_tracks refl,
      tracks_option_written ps local_audio_track "audioTracks" "LocalAudioTrack instances"
          o.audio_tracks refl,
      tracks_option_written ps local_data_track "dataTracks" "LocalDataTrack instances"
          o.data_tracks refl,
      flatten-nested o.bandwidth_profile,
    )
