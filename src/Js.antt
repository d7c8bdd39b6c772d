-- ===== src/Js.antt =====
-- src/common/napi_options.h and src/common/napi_options.cpp, over a model of the JS values that the
-- addon reads through N-API.
-- An object is the list of its properties, and reading one has no effect: getters that throw and
-- prototypes are left out. A number is a double, told apart as far as the code does: it tests for
-- NaN and infinities, for whole values, and compares with whole bounds.
pub mod Read
use text.Mathlib.Text.{◌==◌ as str_eq}
use twilio_video_node.Base.{
  ℕ, zero, suc, ◌+◌, ◌-◌, ◌%◌, ◌^◌, Bool, true, false, ◌&&◌, ◌||◌, not, List, [], ◌∷◌, Option, none,
  some, String, ℤ, pos, negsuc, ltb, is_some, if◌then◌else◌,
}

-- `fractional z` is any double strictly between `z` and `z + 1`.
pub data Double : Type 0 where
  nan : Double
  infinite : (negative : Bool) → Double
  whole : ℤ → Double
  fractional : ℤ → Double

-- The classes that the addon defines on native objects.
pub data NativeClass : Type 0 where
  media_factory local_video_track local_audio_track local_data_track : NativeClass

mutual
  pub data JsValue : Type 0 where
    undefined null function : JsValue
    boolean : Bool → JsValue
    number : Double → JsValue
    string : String → JsValue
    buffer : List ℕ → JsValue
    array : Items → JsValue
    object : Fields → JsValue
    native : NativeClass → ℕ → JsValue

  pub data Items : Type 0 where
    nil : Items
    cons : JsValue → Items → Items

  pub data Fields : Type 0 where
    end : Fields
    field : String → JsValue → Fields → Fields

abbrev pub is_undefined : JsValue → Bool
is_undefined undefined = true
is_undefined _ = false

abbrev pub is_null : JsValue → Bool
is_null null = true
is_null _ = false

abbrev pub is_string : JsValue → Bool
is_string (string s) = true
is_string _ = false

abbrev pub is_number : JsValue → Bool
is_number (number d) = true
is_number _ = false

abbrev pub is_boolean : JsValue → Bool
is_boolean (boolean b) = true
is_boolean _ = false

abbrev pub is_buffer : JsValue → Bool
is_buffer (buffer bytes) = true
is_buffer _ = false

-- N-API's test: arrays, buffers and functions are objects too.
abbrev pub is_object : JsValue → Bool
is_object function = true
is_object (buffer bytes) = true
is_object (array items) = true
is_object (object fields) = true
is_object (native c n) = true
is_object _ = false

unfoldable pub lookup : String → Fields → Option JsValue
lookup k end = none
lookup k (field j v fs) = if str_eq j k then some v else lookup k fs

abbrev pub properties : JsValue → Fields
properties (object fields) = fields
properties _ = end

-- A property that is there and `undefined` is there.
unfoldable pub has : JsValue → String → Bool
unfolding lookup
has o k = is_some (lookup k (properties o))

abbrev pub or_undefined : Option JsValue → JsValue
or_undefined none = undefined
or_undefined (some v) = v

unfoldable pub get : JsValue → String → JsValue
unfolding lookup
get o k = or_undefined (lookup k (properties o))

abbrev pub max_safe_integer : ℤ
max_safe_integer = pos (2 ^ 53 - 1)

-- What the readers throw.
pub data FieldError : Type 0 where
  must_be_a : (field : String) (expected : String) → FieldError

-- `false` with a pending exception, or `true` with what was read.
pub data Reading {ℓ} (A : Type ℓ) : Type ℓ where
  got : Option A → Reading A
  bad : FieldError → Reading A

-- Each reader with the value that it got.
unfoldable pub as_string : String → JsValue → Reading String
as_string k undefined = got none
as_string k (string s) = got (some s)
as_string k _ = bad (must_be_a k "string")

unfoldable pub read_optional_string : JsValue → String → Reading String
unfolding as_string
read_optional_string options k = as_string k (get options k)

-- Int32Value: 0 for what is not finite, and otherwise the low 32 bits of the integer part, signed.
abbrev pub truncated : ℤ → ℤ
truncated (pos n) = pos n
truncated (negsuc zero) = pos 0
truncated (negsuc (suc n)) = negsuc n

abbrev pub low_32 : ℤ → ℕ
low_32 (pos n) = n % 2 ^ 32
low_32 (negsuc n) = 2 ^ 32 - 1 - n % 2 ^ 32

abbrev pub signed_32 : ℕ → ℤ
signed_32 n = if ltb n (2 ^ 31) then pos n else negsuc (2 ^ 32 - 1 - n)

unfoldable pub int32_value : Double → ℤ
int32_value nan = pos 0
int32_value (infinite negative) = pos 0
int32_value (whole z) = signed_32 (low_32 z)
int32_value (fractional z) = signed_32 (low_32 (truncated z))

unfoldable pub as_int32 : String → JsValue → Reading ℤ
as_int32 k undefined = got none
as_int32 k null = got none
as_int32 k (number d) = got (some (int32_value d))
as_int32 k _ = bad (must_be_a k "number")

unfoldable pub read_optional_int32 : JsValue → String → Reading ℤ
unfolding as_int32
read_optional_int32 options k = as_int32 k (get options k)

unfoldable pub as_bool : String → JsValue → Reading Bool
as_bool k undefined = got none
as_bool k (boolean b) = got (some b)
as_bool k _ = bad (must_be_a k "boolean")

unfoldable pub read_optional_bool : JsValue → String → Reading Bool
unfolding as_bool
read_optional_bool options k = as_bool k (get options k)
