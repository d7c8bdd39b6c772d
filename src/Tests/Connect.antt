-- ===== src/Tests/Connect.antt =====
-- src/video/room_wrap.cpp: options on concrete data, and the theorems on them.
use twilio_video_node.Base.{
  ℕ, ◌≡◌, refl, true, [], ◌∷◌, Option, none, some, String, Result, ok, err, arith,
}
use twilio_video_node.Js.{string, object, end, field, null, number, whole, lookup, has, get}
use twilio_video_node.Base.{negsuc}
use twilio_video_node.Connect.{parse_connect_options, connect}
use twilio_video_node.Connect.Fields.{
  type_error, range_error, must_be, optional, read_string, as_object, read_bitrate, whole_of,
}
use twilio_video_node.Connect.Profile.{grid, auto}
use twilio_video_node.Connect.Ice.{relay}
use twilio_video_node.Connect.Options.{ConnectOptions, opus, pcmu, read_encoding_parameters}
use twilio_video_node.Connect.Write.{object_of}
use twilio_video_node.Connect.Written.{properties_of, connect_options_kept}
use twilio_video_node.Connect.Held.{IsConnected, connect_holds}

abbrev no_options : ConnectOptions
no_options = record {
  room_name = none;
  factory = none;
  insights = none;
  automatic_subscription = none;
  dominant_speaker = none;
  network_quality = none;
  transcriptions = none;
  region = none;
  quality_configuration = none;
  audio_codecs = none;
  video_codecs = none;
  encoding_mode = none;
  bandwidth_profile = none;
  encoding_parameters = none;
  ice_options = none;
  platform_info = none;
  video_tracks = none;
  audio_tracks = none;
  data_tracks = none;
}

abbrev some_options : ConnectOptions
some_options = record no_options {
  room_name = some "daily";
  insights = some true;
  audio_codecs = some (opus ∷ pcmu ∷ []);
  bandwidth_profile = some (record {
    mode = some grid;
    max_subscription_bitrate = some 2400000;
    track_switch_off_mode = none;
    client_track_switch_off_control = some auto;
    content_preferences_mode = none;
  });
  encoding_parameters = some (record { max_audio_bitrate = some 16000; max_video_bitrate = none });
  ice_options = some (record {
    transport_policy = some relay;
    servers = some (record { urls = "stun:a" ∷ []; username = none; password = some "x" } ∷ []);
  });
  video_tracks = some (4 ∷ []);
}

connect_options_kept_example :
    parse_connect_options (object_of (properties_of some_options)) ≡ ok some_options
connect_options_kept_example = connect_options_kept some_options (omega arith, (omega arith, tt))

nothing_set : parse_connect_options (object end) ≡ ok no_options
unfolding parse_connect_options optional has get lookup
nothing_set = refl

null_name :
    parse_connect_options (object (field "name" null end))
    ≡ err (type_error (must_be "name" "a string"))
unfolding parse_connect_options optional has get lookup read_string
null_name = refl

negative_bitrate :
    parse_connect_options (
      object (
        field "encodingParameters"
          (object (field "maxAudioBitrate" (number (whole (negsuc 0))) end))
          end))
    ≡ err (range_error (must_be "encodingParameters.maxAudioBitrate" "a non-negative safe integer"))
unfolding parse_connect_options optional has get lookup read_encoding_parameters as_object
    read_bitrate whole_of
negative_bitrate = refl

-- An rtc-cpp that joins a room.
abbrev joining : String → ConnectOptions → Result String (Option ℕ)
joining token options = ok (some 7)

connect_holds_example :
    IsConnected joining (some (string "token")) none (connect joining (some (string "token")) none)
connect_holds_example = connect_holds joining (some (string "token")) none
