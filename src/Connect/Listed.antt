-- ===== src/Connect/Listed.antt =====
-- src/video/room_wrap.cpp: the options of `parseConnectOptions` that are texts of a fixed set, lists of
-- them, or lists of tracks are read back from the JS values that write them out.
use twilio_video_node.Base.{
  ℕ, ◌≡◌, refl, List, [], ◌∷◌, Option, none, some, String, ok, some-injective, subst,
}
use twilio_video_node.Js.{
  JsValue, string, array, native, NativeClass, media_factory, local_video_track, local_audio_track,
  local_data_track,
}
use twilio_video_node.Connect.Fields.{optional, as_array, one_of, read_string}
use twilio_video_node.Connect.Profile.{
  ProfileMode, collaboration, grid, presentation, SwitchOffMode, detected, predicted, disabled,
  ControlMode, auto, manual, BandwidthProfile, profile_modes, switch_off_modes, control_modes,
  read_enum, read_video_profile, read_bandwidth_profile,
}
use twilio_video_node.Connect.Options.{
  AudioCodec, opus, pcmu, VideoCodec, vp8, VideoEncodingMode, auto_mode, audio_codecs_known,
  video_codecs_known, encoding_modes, read_audio_codecs, read_video_codecs, read_tracks,
  read_instance,
}
use twilio_video_node.Connect.Write.{
  Properties, object_of, optional-written, written, write_number, find, or_else, items_of,
  each_written,
}
use twilio_video_node.Connect.Nested.{IsSafe, bitrate_written, as_object_written}

-- What a text of a known set is written as, and read back from.
read_enum_written {ℓ} :
    {A : Type ℓ} (name option : String) (known : List (String × A)) (spell : A → String)
    → ((a : A) → one_of option known (spell a) ≡ ok a)
    → (a : A) → read_enum name option known (string (spell a)) ≡ ok a
unfolding read_enum read_string
read_enum_written name option known spell h a = h a

module _ {ℓ} {A : Type ℓ} where
  abbrev pub write_enum : (A → String) → A → JsValue
  write_enum spell a = string (spell a)

  enum_written :
      (ps : Properties) (k name option : String) (known : List (String × A)) (spell : A → String)
      (x : Option A)
      → find k ps ≡ or_else (written (write_enum spell) x) none
      → ((a : A) → one_of option known (spell a) ≡ ok a)
      → optional (object_of ps) k (read_enum name option known) ≡ ok x
  enum_written ps k name option known spell x e h =
      optional-written ps k (read_enum name option known) (write_enum spell) x e
        (λ a q. read_enum_written name option known spell h a)

abbrev pub spell_mode : ProfileMode → String
spell_mode collaboration = "collaboration"
spell_mode grid = "grid"
spell_mode presentation = "presentation"

abbrev pub spell_switch_off : SwitchOffMode → String
spell_switch_off detected = "detected"
spell_switch_off predicted = "predicted"
spell_switch_off disabled = "disabled"

abbrev pub spell_control : ControlMode → String
spell_control auto = "auto"
spell_control manual = "manual"

spelled_mode : (k : String) (m : ProfileMode) → one_of k profile_modes (spell_mode m) ≡ ok m
unfolding one_of
spelled_mode k collaboration = refl
spelled_mode k grid = refl
spelled_mode k presentation = refl

spelled_switch_off :
    (k : String) (m : SwitchOffMode) → one_of k switch_off_modes (spell_switch_off m) ≡ ok m
unfolding one_of
spelled_switch_off k detected = refl
spelled_switch_off k predicted = refl
spelled_switch_off k disabled = refl

spelled_control : (k : String) (m : ControlMode) → one_of k control_modes (spell_control m) ≡ ok m
unfolding one_of
spelled_control k auto = refl
spelled_control k manual = refl

abbrev pub profile_properties : BandwidthProfile → Properties
profile_properties p =
    ("mode", written (write_enum spell_mode) p.mode)
    ∷ ("maxSubscriptionBitrate", written write_number p.max_subscription_bitrate)
    ∷ ("trackSwitchOffMode", written (write_enum spell_switch_off) p.track_switch_off_mode)
    ∷ (
      "clientTrackSwitchOffControl",
      written (write_enum spell_control) p.client_track_switch_off_control,
    )
    ∷ ("contentPreferencesMode", written (write_enum spell_control) p.content_preferences_mode)
    ∷ []

video_profile_written :
    (p : BandwidthProfile)
    → IsSafe p.max_subscription_bitrate
    → read_video_profile (object_of (profile_properties p)) ≡ ok p
unfolding read_video_profile
video_profile_written p h =
    let ps = profile_properties p in
    simp (
      as_object_written "bandwidthProfile.video" ps,
      enum_written ps "mode" "bandwidthProfile.video.mode" "bandwidthProfile.video.mode"
          profile_modes spell_mode p.mode refl (spelled_mode "bandwidthProfile.video.mode"),
      bitrate_written ps "maxSubscriptionBitrate" "bandwidthProfile.video.maxSubscriptionBitrate"
          p.max_subscription_bitrate refl h,
      enum_written ps "trackSwitchOffMode" "bandwidthProfile.video.trackSwitchOffMode"
          "trackSwitchOffMode" switch_off_modes spell_switch_off p.track_switch_off_mode refl
          (spelled_switch_off "trackSwitchOffMode"),
      enum_written ps "clientTrackSwitchOffControl"
          "bandwidthProfile.video.clientTrackSwitchOffControl" "clientTrackSwitchOffControl"
          control_modes spell_control p.client_track_switch_off_control refl
          (spelled_control "clientTrackSwitchOffControl"),
      enum_written ps "contentPreferencesMode" "bandwidthProfile.video.contentPreferencesMode"
          "contentPreferencesMode" control_modes spell_control p.content_preferences_mode refl
          (spelled_control "contentPreferencesMode"),
    )

abbrev pub write_profile : BandwidthProfile → JsValue
write_profile p = object_of (("video", some (object_of (profile_properties p))) ∷ [])

pub profile_written :
    (p : BandwidthProfile)
    → IsSafe p.max_subscription_bitrate
    → read_bandwidth_profile (write_profile p) ≡ ok (some p)
unfolding read_bandwidth_profile
profile_written p h =
    let ps : Properties = ("video", some (object_of (profile_properties p))) ∷ [] in
    simp (
      as_object_written "bandwidthProfile" ps,
      optional-written ps "video" read_video_profile
          (λ (q : BandwidthProfile). object_of (profile_properties q)) (some p) refl
          (λ q e.
            subst (λ r. read_video_profile (object_of (profile_properties r)) ≡ ok r)
              (some-injective e) (video_profile_written p h)),
    )

abbrev pub spell_audio : AudioCodec → String
spell_audio opus = "opus"
spell_audio pcmu = "PCMU"

abbrev pub spell_video : VideoCodec → String
spell_video vp8 = "VP8"

abbrev pub spell_encoding : VideoEncodingMode → String
spell_encoding auto_mode = "auto"

spelled_audio : (c : AudioCodec) → one_of "audio codec" audio_codecs_known (spell_audio c) ≡ ok c
unfolding one_of
spelled_audio opus = refl
spelled_audio pcmu = refl

spelled_video : (c : VideoCodec) → one_of "video codec" video_codecs_known (spell_video c) ≡ ok c
unfolding one_of
spelled_video vp8 = refl

spelled_encoding :
    (m : VideoEncodingMode) → one_of "videoEncodingMode" encoding_modes (spell_encoding m) ≡ ok m
unfolding one_of
spelled_encoding auto_mode = refl

abbrev pub write_audio_codecs : List AudioCodec → JsValue
write_audio_codecs codecs = array (items_of (write_enum spell_audio) codecs)

abbrev pub write_video_codecs : List VideoCodec → JsValue
write_video_codecs codecs = array (items_of (write_enum spell_video) codecs)

pub audio_codecs_written :
    (codecs : List AudioCodec) → read_audio_codecs (write_audio_codecs codecs) ≡ ok codecs
unfolding read_audio_codecs as_array
audio_codecs_written codecs =
    each_written (read_enum "preferredAudioCodecs entries" "audio codec" audio_codecs_known)
      (write_enum spell_audio)
      (read_enum_written "preferredAudioCodecs entries" "audio codec" audio_codecs_known spell_audio
        spelled_audio)
      codecs

pub video_codecs_written :
    (codecs : List VideoCodec) → read_video_codecs (write_video_codecs codecs) ≡ ok codecs
unfolding read_video_codecs as_array
video_codecs_written codecs =
    each_written (read_enum "preferredVideoCodecs entries" "video codec" video_codecs_known)
      (write_enum spell_video)
      (read_enum_written "preferredVideoCodecs entries" "video codec" video_codecs_known spell_video
        spelled_video)
      codecs

pub encoding_mode_written :
    (m : VideoEncodingMode)
    → read_enum "videoEncodingMode" "videoEncodingMode" encoding_modes (write_enum spell_encoding m)
      ≡ ok m
encoding_mode_written m =
    read_enum_written "videoEncodingMode" "videoEncodingMode" encoding_modes spell_encoding
      spelled_encoding m

pub instance_written :
    (c : NativeClass) (name expected : String) (n : ℕ)
    → read_instance c name expected (native c n) ≡ ok n
unfolding read_instance
instance_written media_factory name expected n = refl
instance_written local_video_track name expected n = refl
instance_written local_audio_track name expected n = refl
instance_written local_data_track name expected n = refl

abbrev pub write_tracks : NativeClass → List ℕ → JsValue
write_tracks c tracks = array (items_of (native c) tracks)

pub tracks_written :
    (c : NativeClass) (name expected : String) (tracks : List ℕ)
    → read_tracks c name expected (write_tracks c tracks) ≡ ok tracks
unfolding read_tracks as_array
tracks_written c name expected tracks =
    each_written (read_instance c name expected) (native c) (instance_written c name expected)
      tracks
