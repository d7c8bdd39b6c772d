-- ===== src/Connect/Profile.antt =====
-- src/video/room_wrap.cpp: the option `bandwidthProfile` of `parseConnectOptions`.
use twilio_video_node.Base.{ℕ, List, [], ◌∷◌, Option, String, Result, ok, ◌>>=◌}
use twilio_video_node.Js.{JsValue}
use twilio_video_node.Connect.Fields.{
  Thrown, optional, read_string, as_object, one_of, read_bitrate,
}

pub data ProfileMode : Type 0 where
  collaboration grid presentation : ProfileMode

pub data SwitchOffMode : Type 0 where
  detected predicted disabled : SwitchOffMode

pub data ControlMode : Type 0 where
  auto manual : ControlMode

pub record BandwidthProfile : Type 0 where
  pub mode : Option ProfileMode
  pub max_subscription_bitrate : Option ℕ
  pub track_switch_off_mode : Option SwitchOffMode
  pub client_track_switch_off_control : Option ControlMode
  pub content_preferences_mode : Option ControlMode

abbrev pub profile_modes : List (String × ProfileMode)
profile_modes =
    ("collaboration", collaboration) ∷ ("grid", grid) ∷ ("presentation", presentation) ∷ []

abbrev pub switch_off_modes : List (String × SwitchOffMode)
switch_off_modes = ("detected", detected) ∷ ("predicted", predicted) ∷ ("disabled", disabled) ∷ []

abbrev pub control_modes : List (String × ControlMode)
control_modes = ("auto", auto) ∷ ("manual", manual) ∷ []

-- `readEnum`, and the comparisons that follow it.
unfoldable pub read_enum {ℓ} :
    {A : Type ℓ} → (field option : String) → List (String × A) → JsValue → Result Thrown A
unfolding read_string one_of
read_enum field option known v = read_string field v >>= one_of option known

-- `bandwidthProfile.video`
unfoldable pub read_video_profile : JsValue → Result Thrown BandwidthProfile
unfolding optional as_object read_enum read_bitrate
read_video_profile v = do
  o ← as_object "bandwidthProfile.video" v
  mode ←
      optional o "mode"
        (read_enum "bandwidthProfile.video.mode" "bandwidthProfile.video.mode" profile_modes)
  bitrate ←
      optional o "maxSubscriptionBitrate"
        (read_bitrate "bandwidthProfile.video.maxSubscriptionBitrate")
  switch_off ←
      optional o "trackSwitchOffMode" (
        read_enum "bandwidthProfile.video.trackSwitchOffMode" "trackSwitchOffMode" switch_off_modes)
  control ← optional o "clientTrackSwitchOffControl" (
      read_enum "bandwidthProfile.video.clientTrackSwitchOffControl" "clientTrackSwitchOffControl"
        control_modes)
  preferences ← optional o "contentPreferencesMode" (
      read_enum "bandwidthProfile.video.contentPreferencesMode" "contentPreferencesMode"
        control_modes)
  ok (record {
    mode = mode;
    max_subscription_bitrate = bitrate;
    track_switch_off_mode = switch_off;
    client_track_switch_off_control = control;
    content_preferences_mode = preferences;
  })

-- With no `video`, the builder gets no profile.
unfoldable pub read_bandwidth_profile : JsValue → Result Thrown (Option BandwidthProfile)
unfolding optional as_object read_video_profile
read_bandwidth_profile v =
    as_object "bandwidthProfile" v >>= λ o. optional o "video" read_video_profile
