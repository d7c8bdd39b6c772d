-- ===== src/LocalParticipant/Limits.antt =====
-- src/video/local_participant_wrap.cpp: `SetEncodingParameters`, and how it compares with the option
-- `encodingParameters` of src/video/room_wrap.cpp.
use twilio_video_node.Base.{
  ℕ, ◌≡◌, refl, inl, inr, Bool, true, false, List, [], ◌∷◌, Option, none, some, String, pos, negsuc,
  arith, u32, Bool-cases, if◌then◌else◌, Result, ok, err, ◌>>=◌, by_bind, ap, subst,
}
use twilio_video_node.Js.{
  JsValue, undefined, null, function, boolean, number, string, buffer, array, object, native,
  Double, nan, infinite, whole, fractional, is_object, low_32, truncated, has, get,
}
use twilio_video_node.Connect.Fields.{
  Thrown, type_error, must_be, optional, as_object, read_bitrate, whole_of,
}
use twilio_video_node.Connect.Options.{EncodingParameters, read_encoding_parameters}

-- Uint32Value: 0 for what is not finite, and otherwise the low 32 bits of the integer part.
abbrev pub uint32_of : Double → ℕ
uint32_of nan = 0
uint32_of (infinite negative) = 0
uint32_of (whole z) = low_32 z
uint32_of (fractional z) = low_32 (truncated z)

unfoldable pub uint32_value : String → JsValue → Result Thrown ℕ
uint32_value k (number d) = ok (uint32_of d)
uint32_value k _ = err (type_error (must_be k "a number"))

unfoldable pub read_limits : JsValue → Result Thrown EncodingParameters
unfolding optional uint32_value
read_limits o = do
  audio ← optional o "maxAudioBitrate" (uint32_value "maxAudioBitrate")
  video ← optional o "maxVideoBitrate" (uint32_value "maxVideoBitrate")
  ok (record { max_audio_bitrate = audio; max_video_bitrate = video })

abbrev pub no_limits : EncodingParameters
no_limits = record { max_audio_bitrate = none; max_video_bitrate = none }

-- What is handed to rtc-cpp, where there is a participant; or what is thrown.
unfoldable pub set_encoding_parameters :
    (participant : Bool) → List JsValue → Result Thrown (Option EncodingParameters)
unfolding read_limits
set_encoding_parameters false info = ok none
set_encoding_parameters true [] = ok (some no_limits)
set_encoding_parameters true (v ∷ info) =
    if is_object v then (read_limits v >>= λ e. ok (some e)) else ok (some no_limits)

abbrev pub or_wrapped : Option ℕ → Option ℕ
or_wrapped none = none
or_wrapped (some n) = some (u32 n)

abbrev pub wrapped : EncodingParameters → EncodingParameters
wrapped e = record {
  max_audio_bitrate = or_wrapped e.max_audio_bitrate;
  max_video_bitrate = or_wrapped e.max_video_bitrate;
}

uint32_value-read_bitrate :
    (field k : String) (v : JsValue) (n : ℕ)
    → read_bitrate field v ≡ ok n
    → uint32_value k v ≡ ok (u32 n)
unfolding read_bitrate whole_of uint32_value
uint32_value-read_bitrate field k (number (whole (pos m))) n h = ground arith
uint32_value-read_bitrate field k (number (whole (negsuc m))) n h = ground arith
uint32_value-read_bitrate field k (number nan) n h = cc
uint32_value-read_bitrate field k (number (infinite s)) n h = cc
uint32_value-read_bitrate field k (number (fractional z)) n h = cc
uint32_value-read_bitrate field k undefined n h = cc
uint32_value-read_bitrate field k null n h = cc
uint32_value-read_bitrate field k function n h = cc
uint32_value-read_bitrate field k (boolean b) n h = cc
uint32_value-read_bitrate field k (string s) n h = cc
uint32_value-read_bitrate field k (buffer s) n h = cc
uint32_value-read_bitrate field k (array s) n h = cc
uint32_value-read_bitrate field k (object s) n h = cc
uint32_value-read_bitrate field k (native c s) n h = cc

map_read :
    (r : Result Thrown ℕ) (s : Result Thrown ℕ) (x : Option ℕ)
    → (r >>= λ a. ok (some a)) ≡ ok x
    → ((n : ℕ) → r ≡ ok n → s ≡ ok (u32 n))
    → (s >>= λ a. ok (some a)) ≡ ok (or_wrapped x)
map_read (ok n) s none h f = cc
map_read (ok n) s (some m) h f = ground (arith, f n refl)
map_read (err e) s x h f = cc

abbrev nothing_read : Result Thrown (Option ℕ)
nothing_read = ok none

none_read : (x : Option ℕ) → nothing_read ≡ ok x → nothing_read ≡ ok (or_wrapped x)
none_read none h = refl
none_read (some n) h = cc

-- A bitrate that `parseConnectOptions` reads from a property, as `SetEncodingParameters` reads it.
read_field :
    (o : JsValue) (field k : String) (x : Option ℕ)
    → optional o k (read_bitrate field) ≡ ok x
    → optional o k (uint32_value k) ≡ ok (or_wrapped x)
unfolding optional
read_field o field k x h = elim (Bool-cases (has o k)) [
  | inl t ↦ rw t (
      map_read (read_bitrate field (get o k)) (uint32_value k (get o k)) x (ground arith)
        (λ n e. uint32_value-read_bitrate field k (get o k) n e))
  | inr f ↦ rw f (none_read x (ground arith))
]

abbrev wrapped_result : Result Thrown EncodingParameters → Result Thrown EncodingParameters
wrapped_result (ok e) = ok (wrapped e)
wrapped_result (err t) = err t

abbrev ok_limits : Option ℕ → Option ℕ → Result Thrown EncodingParameters
ok_limits a b = ok (record { max_audio_bitrate = a; max_video_bitrate = b })

read_limits-eq :
    (o : JsValue) (a b : Option ℕ) (e : EncodingParameters)
    → optional o "maxAudioBitrate" (uint32_value "maxAudioBitrate") ≡ ok (or_wrapped a)
    → optional o "maxVideoBitrate" (uint32_value "maxVideoBitrate") ≡ ok (or_wrapped b)
    → ok_limits a b ≡ ok e
    → read_limits o ≡ ok (wrapped e)
unfolding read_limits
read_limits-eq o a b e ha hb h = rw (ha, hb) (ap wrapped_result h)

object_accepted :
    (o v : JsValue) (field : String) → as_object field v ≡ ok o → (is_object v ≡ true) × (o ≡ v)
unfolding as_object
object_accepted o v field h = elim (Bool-cases (is_object v)) [
  | inl t ↦ (t, ground arith)
  | inr f ↦ absurd (ground arith)
]

limits_handed :
    (v : JsValue) (info : List JsValue) (r : EncodingParameters)
    → is_object v ≡ true
    → read_limits v ≡ ok r
    → set_encoding_parameters true (v ∷ info) ≡ ok (some r)
unfolding set_encoding_parameters
limits_handed v info r t h = rw (t, h) refl

abbrev audio_field : String
audio_field = "encodingParameters.maxAudioBitrate"

abbrev video_field : String
video_field = "encodingParameters.maxVideoBitrate"

-- Where `connect` accepts a value for its `encodingParameters`, `SetEncodingParameters` accepts it too
-- and gives rtc-cpp the same limits, each of them modulo 2^32.
pub set_encoding_parameters_agree :
    (v : JsValue) (info : List JsValue) (e : EncodingParameters)
    → read_encoding_parameters v ≡ ok e
    → set_encoding_parameters true (v ∷ info) ≡ ok (some (wrapped e))
unfolding read_encoding_parameters
set_encoding_parameters_agree v info e h =
    by_bind (as_object "encodingParameters" v) _ h (λ o ho h1.
      by_bind (optional o "maxAudioBitrate" (read_bitrate audio_field)) _ h1 (λ a ha h2.
        by_bind (optional o "maxVideoBitrate" (read_bitrate video_field)) _ h2 (λ b hb h3.
          let (t, same) = object_accepted o v "encodingParameters" ho in
          let ra = read_field o audio_field "maxAudioBitrate" a ha in
          let rb = read_field o video_field "maxVideoBitrate" b hb in
          limits_handed v info (wrapped e) t
            (subst (λ x. read_limits x ≡ ok (wrapped e)) same (read_limits-eq o a b e ra rb h3)))))
