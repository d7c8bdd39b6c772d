-- ===== src/Js/Read.antt =====
-- src/common/napi_options.cpp: what the readers of optional fields accept.
use twilio_video_node.Base.{
  zero, suc, ◌^◌, ◌<◌, ◌≤◌, ◌≡◌, none, some, String, ℤ, pos, negsuc, pos_part, neg_part, arith,
}
use twilio_video_node.Js.{
  JsValue, undefined, null, function, boolean, number, string, buffer, array, object, native,
  Double, nan, infinite, whole, fractional, got, get, int32_value, as_int32, read_optional_int32,
}

abbrev pub IsInt32 : ℤ → Type 0
IsInt32 z = (pos_part z < 2 ^ 31) × (neg_part z ≤ 2 ^ 31)

-- A whole double in the range of int32_t is read as itself.
int32_value_exact : (z : ℤ) → IsInt32 z → int32_value (whole z) ≡ z
unfolding int32_value
int32_value_exact (pos n) h = ground arith
int32_value_exact (negsuc n) h = ground arith

int32_value-IsInt32 : (d : Double) → IsInt32 (int32_value d)
unfolding int32_value
int32_value-IsInt32 nan = omega arith
int32_value-IsInt32 (infinite negative) = omega arith
int32_value-IsInt32 (whole (pos n)) = ground arith
int32_value-IsInt32 (whole (negsuc n)) = ground arith
int32_value-IsInt32 (fractional (pos n)) = ground arith
int32_value-IsInt32 (fractional (negsuc zero)) = ground arith
int32_value-IsInt32 (fractional (negsuc (suc n))) = ground arith

pub read-number :
    (options : JsValue) (k : String) (z : ℤ)
    → get options k ≡ number (whole z)
    → IsInt32 z
    → read_optional_int32 options k ≡ got (some z)
unfolding read_optional_int32
read-number options k z e h = ground (arith, int32_value_exact z h)

pub read-null :
    (options : JsValue) (k : String)
    → get options k ≡ null
    → read_optional_int32 options k ≡ got none
unfolding read_optional_int32
read-null options k e = ground arith

as_int32-IsInt32 : (k : String) (v : JsValue) (z : ℤ) → as_int32 k v ≡ got (some z) → IsInt32 z
unfolding as_int32
as_int32-IsInt32 k (number d) z e = ground (arith, int32_value-IsInt32 d)
as_int32-IsInt32 k undefined z e = ground arith
as_int32-IsInt32 k null z e = ground arith
as_int32-IsInt32 k function z e = ground arith
as_int32-IsInt32 k (boolean b) z e = ground arith
as_int32-IsInt32 k (string s) z e = ground arith
as_int32-IsInt32 k (buffer b) z e = ground arith
as_int32-IsInt32 k (array a) z e = ground arith
as_int32-IsInt32 k (object o) z e = ground arith
as_int32-IsInt32 k (native c n) z e = ground arith

-- Whatever number a caller passes, what is read fits an int32_t.
pub read-IsInt32 :
    (options : JsValue) (k : String) (z : ℤ)
    → read_optional_int32 options k ≡ got (some z)
    → IsInt32 z
unfolding read_optional_int32
read-IsInt32 options k z e = as_int32-IsInt32 k (get options k) z e
