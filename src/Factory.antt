-- ===== src/Factory.antt =====
-- src/media/media_factory_wrap.cpp: the options that a caller gives a new track, and what the getters
-- of src/media/local_data_track_wrap.cpp and src/media/remote_data_track_wrap.cpp make of them.
-- The options that rtc-cpp's `DataTrackOptions::Builder` builds are a parameter where they matter: here
-- are the setters that were called. `default_name kind n` is the name `kind-n`.
pub mod Options
use twilio_video_node.Base.{
  ℕ, suc, ◌%◌, Bool, true, false, Option, none, some, String, ℤ, pos, negsuc, pos_part, u64, ltb_ℤ,
  ◌==◌, if◌then◌else◌,
}
use twilio_video_node.Js.{
  JsValue, number, null, whole, is_object, FieldError, Reading, got, bad, read_optional_string,
  read_optional_int32, read_optional_bool,
}

pub data TrackName : Type 0 where
  given : String → TrackName
  default_name : (kind : String) → ℕ → TrackName

pub record DataTrackOptions : Type 0 where
  pub name : TrackName
  pub max_packet_life_time : Option ℤ
  pub max_retransmits : Option ℤ
  pub ordered : Option Bool

-- What a create method does: it throws, or goes on with the options.
pub data Created {ℓ} (A : Type ℓ) : Type ℓ where
  rejected : FieldError → Created A
  created : A → Created A

-- A reader's answer, and what goes on when it is true.
abbrev pub reading {ℓ} : {A B : Type ℓ} → Reading A → (Option A → Created B) → Created B
reading (got o) next = next o
reading (bad e) next = rejected e

-- `nextDefaultName` where no name was given: a name, and the counter after it.
unfoldable pub name_or_default : String → Option String → ℕ → TrackName × ℕ
name_or_default kind none counter = (default_name kind counter, u64 (suc counter))
name_or_default kind (some s) counter = (given s, counter)

abbrev pub no_name : Option String
no_name = none

-- `CreateVideoTrack` and `CreateAudioTrack`, which differ in the kind: the name, and the counter.
unfoldable pub create_track : String → Option JsValue → ℕ → Created (TrackName × ℕ)
unfolding name_or_default
create_track kind none counter = created (name_or_default kind no_name counter)
create_track kind (some options) counter =
    if is_object options
    then reading (read_optional_string options "name")
        (λ name. created (name_or_default kind name counter))
    else created (name_or_default kind no_name counter)

abbrev pub built :
    Option String → Option ℤ → Option ℤ → Option Bool → ℕ → Created (DataTrackOptions × ℕ)
built name life retransmits ordered counter =
    let (n, after) = name_or_default "data" name counter in
    created (
      (
        record {
          name = n;
          max_packet_life_time = life;
          max_retransmits = retransmits;
          ordered = ordered;
        },
        after,
      ))

unfoldable pub create_data_track : Option JsValue → ℕ → Created (DataTrackOptions × ℕ)
unfolding name_or_default
create_data_track none counter = built none none none none counter
create_data_track (some options) counter =
    if is_object options
    then reading (read_optional_string options "name") (λ name.
      reading (read_optional_int32 options "maxPacketLifeTime") (λ life.
        reading (read_optional_int32 options "maxRetransmits") (λ retransmits.
          reading (read_optional_bool options "ordered")
            (λ ordered. built name life retransmits ordered counter))))
    else built none none none none counter

-- The getters' helper of a local track, on the `int` that the track keeps.
unfoldable pub requested_option_or_null : ℤ → JsValue
requested_option_or_null value = if ltb_ℤ value (pos 0) then null else number (whole value)

-- That of a remote track, on its `uint16_t`.
unfoldable pub subscribed_option_or_null : ℕ → JsValue
subscribed_option_or_null value = if value == 65535 then null else number (whole (pos value))
