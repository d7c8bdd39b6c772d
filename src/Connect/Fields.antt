-- ===== src/Connect/Fields.antt =====
-- src/video/room_wrap.cpp: the lambdas of `parseConnectOptions` that read one property.
use text.Mathlib.Text.{◌==◌ as str_eq}
use twilio_video_node.Base.{
  ℕ, Bool, ◌&&◌, List, [], ◌∷◌, Option, none, some, String, ℤ, pos, pos_part, leb_ℤ, if◌then◌else◌,
  Result, ok, err, ◌>>=◌,
}
use twilio_video_node.Js.{
  JsValue, string, boolean, number, array, Items, nil, cons, Double, whole, is_object, has, get,
  max_safe_integer,
}

-- The texts of the exceptions, by what varies in them: `<field> must be <expected>`, in these or other
-- words, and `Unknown <option>: <value>`.
pub data Message : Type 0 where
  must_be : (field expected : String) → Message
  unknown : (option value : String) → Message

pub data Thrown : Type 0 where
  type_error range_error : Message → Thrown

-- What a property holds, where it is there; a property that holds `undefined` is there.
unfoldable pub optional {ℓ} :
    {A : Type ℓ} → JsValue → String → (JsValue → Result Thrown A) → Result Thrown (Option A)
optional o k read = if has o k then (read (get o k) >>= λ a. ok (some a)) else ok none

-- `readString`, `readBool` and `requireType`, with the value of the property.
unfoldable pub read_string : String → JsValue → Result Thrown String
read_string field (string s) = ok s
read_string field _ = err (type_error (must_be field "a string"))

unfoldable pub read_bool : String → JsValue → Result Thrown Bool
read_bool field (boolean b) = ok b
read_bool field _ = err (type_error (must_be field "a boolean"))

unfoldable pub as_object : String → JsValue → Result Thrown JsValue
as_object field v = if is_object v then ok v else err (type_error (must_be field "an object"))

unfoldable pub as_array : String → JsValue → Result Thrown Items
as_array field (array items) = ok items
as_array field _ = err (type_error (must_be field "an array"))

-- A loop over an array that leaves at the first entry that throws.
unfoldable pub each {ℓ} :
    {A : Type ℓ} → (JsValue → Result Thrown A) → Items → Result Thrown (List A)
each read nil = ok []
each read (cons v vs) = read v >>= λ a. each read vs >>= λ rest. ok (a ∷ rest)

-- A text among the known ones, with what it stands for.
unfoldable pub one_of {ℓ} : {A : Type ℓ} → String → List (String × A) → String → Result Thrown A
one_of option [] s = err (type_error (unknown option s))
one_of option ((k, a) ∷ known) s = if str_eq s k then ok a else one_of option known s

abbrev pub whole_part : Double → Option ℤ
whole_part (whole z) = some z
whole_part _ = none

-- A number, with the integer that it is where it is one.
unfoldable pub whole_of : String → JsValue → Result Thrown (Option ℤ)
whole_of field (number d) = ok (whole_part d)
whole_of field _ = err (type_error (must_be field "a number"))

abbrev pub bitrate_of : String → Option ℤ → Result Thrown ℕ
bitrate_of field none = err (range_error (must_be field "a non-negative safe integer"))
bitrate_of field (some z) =
    if leb_ℤ (pos 0) z && leb_ℤ z max_safe_integer
    then ok (pos_part z)
    else err (range_error (must_be field "a non-negative safe integer"))

-- `readBitrate`, which `maxSubscriptionBitrate` repeats.
unfoldable pub read_bitrate : String → JsValue → Result Thrown ℕ
unfolding whole_of
read_bitrate field v = whole_of field v >>= bitrate_of field
