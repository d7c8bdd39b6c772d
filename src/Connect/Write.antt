-- ===== src/Connect/Write.antt =====
-- The JS objects that write options out, and what the readers of src/video/room_wrap.cpp make of a
-- property of such an object.
use text.Mathlib.Text.{◌==◌ as str_eq}
use twilio_video_node.Base.{
  ℕ, ◌≤◌, ◌^◌, ◌-◌, ◌≡◌, refl, Bool, List, [], ◌∷◌, Option, none, some, String, pos, arith,
  if◌then◌else◌, Result, ok,
}
use twilio_video_node.Js.{
  JsValue, string, boolean, number, object, Items, nil, cons, Fields, end, field, whole, lookup,
  has, get,
}
use twilio_video_node.Connect.Fields.{
  Thrown, optional, each, read_bitrate, whole_of, read_string, read_bool,
}

-- The properties of an object, of which some may be missing.
abbrev pub Properties : Type 0
Properties = List (String × Option JsValue)

unfoldable pub fields_of : Properties → Fields
fields_of [] = end
fields_of ((k, none) ∷ ps) = fields_of ps
fields_of ((k, some v) ∷ ps) = field k v (fields_of ps)

unfoldable pub object_of : Properties → JsValue
object_of ps = object (fields_of ps)

abbrev pub or_else : Option JsValue → Option JsValue → Option JsValue
or_else none o = o
or_else (some v) o = some v

abbrev pub find : String → Properties → Option JsValue
find k [] = none
find k ((j, v) ∷ ps) = if str_eq j k then or_else v (find k ps) else find k ps

lookup-fields_of : (k : String) (ps : Properties) → lookup k (fields_of ps) ≡ find k ps
unfolding lookup fields_of
lookup-fields_of k [] = refl
lookup-fields_of k ((j, none) ∷ ps) = ground (arith, lookup-fields_of k ps)
lookup-fields_of k ((j, some v) ∷ ps) = ground (arith, lookup-fields_of k ps)

module _ {ℓ} {A : Type ℓ} where
  abbrev pub written : (A → JsValue) → Option A → Option JsValue
  written enc none = none
  written enc (some a) = some (enc a)

  pub optional_missing :
      (ps : Properties) (k : String) (read : JsValue → Result Thrown A)
      → find k ps ≡ none
      → optional (object_of ps) k read ≡ ok none
  unfolding optional has get object_of
  optional_missing ps k read e = ground (arith, lookup-fields_of k ps)

  pub optional_found :
      (ps : Properties) (k : String) (read : JsValue → Result Thrown A) (v : JsValue) (a : A)
      → find k ps ≡ some v
      → read v ≡ ok a
      → optional (object_of ps) k read ≡ ok (some a)
  unfolding optional has get object_of
  optional_found ps k read v a e r = ground (arith, lookup-fields_of k ps)

  -- A property that is written, or left out, is read back.
  pub optional-written :
      (ps : Properties) (k : String) (read : JsValue → Result Thrown A) (enc : A → JsValue)
      (x : Option A)
      → find k ps ≡ or_else (written enc x) none
      → ((a : A) → x ≡ some a → read (enc a) ≡ ok a)
      → optional (object_of ps) k read ≡ ok x
  optional-written ps k read enc none e r = optional_missing ps k read e
  optional-written ps k read enc (some a) e r = optional_found ps k read (enc a) a e (r a refl)

  abbrev pub items_of : (A → JsValue) → List A → Items
  items_of enc [] = nil
  items_of enc (a ∷ xs) = cons (enc a) (items_of enc xs)

  pub each_written :
      (read : JsValue → Result Thrown A) (enc : A → JsValue)
      → ((a : A) → read (enc a) ≡ ok a)
      → (xs : List A) → each read (items_of enc xs) ≡ ok xs
  unfolding each
  each_written read enc r [] = refl
  each_written read enc r (a ∷ xs) = ground (arith, r a, each_written read enc r xs)

abbrev pub write_number : ℕ → JsValue
write_number n = number (whole (pos n))

pub read_bitrate_written :
    (name : String) (n : ℕ) → n ≤ 2 ^ 53 - 1 → read_bitrate name (write_number n) ≡ ok n
unfolding read_bitrate whole_of
read_bitrate_written name n h = ground arith

pub read_string_written : (name s : String) → read_string name (string s) ≡ ok s
unfolding read_string
read_string_written name s = refl

pub read_bool_written : (name : String) (b : Bool) → read_bool name (boolean b) ≡ ok b
unfolding read_bool
read_bool_written name b = refl
