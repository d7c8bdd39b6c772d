-- ===== src/LocalParticipant/Publish.antt =====
-- src/video/local_participant_wrap.cpp: `PublishTrack` and `UnpublishTrack`.
-- A track is known by the class of its wrap and the number of its native object. What the participant's
-- `publishTrack` and `unpublishTrack` answer to a track is an argument.
use twilio_video_node.Base.{
  ℕ, ◌≡◌, refl, Bool, true, false, List, [], ◌∷◌, none, some, if◌then◌else◌,
}
use twilio_video_node.Js.{
  JsValue, undefined, null, function, boolean, number, string, buffer, array, object, native,
  NativeClass, media_factory, local_video_track, local_audio_track, local_data_track, is_object,
}
use twilio_video_node.Connect.Options.{instance_of}

-- What is returned, and the tracks that the participant is called with.
abbrev pub Handed : Type 0
Handed = Bool × List (NativeClass × ℕ)

module _ (answer : NativeClass → ℕ → Bool) where
  -- The branch for a wrap of one class, before the code behind it.
  unfoldable pub when_instance : NativeClass → JsValue → Handed → Handed
  when_instance c v after = elim (instance_of c v) [
    | none ↦ after
    | some n ↦ (answer c n, (c, n) ∷ [])
  ]

  -- The body that the two methods share, which differ in the answer.
  unfoldable pub hand_over : (participant : Bool) → List JsValue → Handed
  unfolding when_instance
  hand_over false info = (false, [])
  hand_over true [] = (false, [])
  hand_over true (v ∷ info) =
      if is_object v
      then when_instance local_video_track v
          (when_instance local_audio_track v (when_instance local_data_track v (false, [])))
      else (false, [])

-- The track that a call is about.
abbrev pub track_of : JsValue → List (NativeClass × ℕ)
track_of (native local_video_track n) = (local_video_track, n) ∷ []
track_of (native local_audio_track n) = (local_audio_track, n) ∷ []
track_of (native local_data_track n) = (local_data_track, n) ∷ []
track_of _ = []

module _ (publishes unpublishes : NativeClass → ℕ → Bool) where
  unfoldable pub publish_track : (participant : Bool) → List JsValue → Handed
  unfolding hand_over
  publish_track participant info = hand_over publishes participant info

  unfoldable pub unpublish_track : (participant : Bool) → List JsValue → Handed
  unfolding hand_over
  unpublish_track participant info = hand_over unpublishes participant info

  -- The two methods hand over the same track: the one that the first argument is a wrap of, and none for
  -- any other argument.
  pub publish_track-unpublish_track :
      (v : JsValue) (info : List JsValue)
      → ((publish_track true (v ∷ info)).1 ≡ track_of v)
        × ((unpublish_track true (v ∷ info)).1 ≡ track_of v)
  unfolding publish_track unpublish_track when_instance
  publish_track-unpublish_track undefined info = (refl, refl)
  publish_track-unpublish_track null info = (refl, refl)
  publish_track-unpublish_track function info = (refl, refl)
  publish_track-unpublish_track (boolean b) info = (refl, refl)
  publish_track-unpublish_track (number d) info = (refl, refl)
  publish_track-unpublish_track (string s) info = (refl, refl)
  publish_track-unpublish_track (buffer bytes) info = (refl, refl)
  publish_track-unpublish_track (array items) info = (refl, refl)
  publish_track-unpublish_track (object fields) info = (refl, refl)
  publish_track-unpublish_track (native media_factory n) info = (refl, refl)
  publish_track-unpublish_track (native local_video_track n) info = (refl, refl)
  publish_track-unpublish_track (native local_audio_track n) info = (refl, refl)
  publish_track-unpublish_track (native local_data_track n) info = (refl, refl)
