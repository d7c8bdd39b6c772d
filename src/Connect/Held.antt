-- ===== src/Connect/Held.antt =====
-- src/video/room_wrap.cpp, `Connect`: what a call that fails leaves behind.
use twilio_video_node.Base.{
  ℕ, ◌≡◌, refl, Bool, true, false, Option, none, some, String, Result, ok, err, by_bind,
}
use twilio_video_node.Js.{
  JsValue, undefined, null, boolean, number, string, buffer, array, object, function, native,
}
use twilio_video_node.Async.{Handle, open_context, ref}
use twilio_video_node.Connect.{
  RoomObject, new_room_object, ConnectError, connect, hold, join_room, options_argument,
  as_bad_option, as_room, parse_connect_options,
}
use twilio_video_node.Connect.Options.{ConnectOptions}
use twilio_video_node.Connect.Fields.{Thrown}

-- Whether a context keeps the process alive.
abbrev handle_holds : Option Handle → Bool
handle_holds none = false
handle_holds (some h) = h.referenced

abbrev pub Holds : RoomObject → Bool → Type 0
Holds x b = (handle_holds x.observer_context.handle ≡ b) × (handle_holds x.context.handle ≡ b)

-- What `Connect` reads, and what rtc-cpp answers to it.
abbrev pub IsAnswered :
    (String → ConnectOptions → Result String (Option ℕ))
    → Option JsValue
    → Option JsValue
    → ℕ
    → Type 0
IsAnswered rtc_connect token options room =
    (s : String) × (token ≡ some (string s))
    × (o : JsValue) × (options_argument options ≡ ok o)
    × (built : ConnectOptions) × (parse_connect_options o ≡ ok built)
    × (rtc_connect s built ≡ ok (some room))

abbrev IsIdle : Option RoomObject → Type 0
IsIdle none = Unit
IsIdle (some x) = (x.room ≡ none) × Holds x false

abbrev pub IsConnected :
    (String → ConnectOptions → Result String (Option ℕ))
    → Option JsValue
    → Option JsValue
    → Option RoomObject × Result ConnectError ℕ
    → Type 0
IsConnected rtc_connect token options (wrap, ok room) =
    ((x : RoomObject) × (wrap ≡ some x) × (x.room ≡ some room) × Holds x true)
    × IsAnswered rtc_connect token options room
IsConnected rtc_connect token options (wrap, err e) = IsIdle wrap

as_bad_option-ok :
    (r : Result Thrown ConnectOptions) (b : ConnectOptions) → as_bad_option r ≡ ok b → r ≡ ok b
as_bad_option-ok (ok o) b h = cc
as_bad_option-ok (err e) b h = cc

as_room-ok : (r : Result String (Option ℕ)) (room : ℕ) → as_room r ≡ ok room → r ≡ ok (some room)
as_room-ok (ok (some n)) room h = cc
as_room-ok (ok none) room h = cc
as_room-ok (err w) room h = cc

join_room-ok :
    (rtc_connect : String → ConnectOptions → Result String (Option ℕ)) (s : String)
    (options : Option JsValue) (room : ℕ)
    → join_room rtc_connect s options ≡ ok room
    → IsAnswered rtc_connect (some (string s)) options room
unfolding join_room
join_room-ok rtc_connect s options room h = by_bind (options_argument options) _ h (λ o e h1.
    by_bind (as_bad_option (parse_connect_options o)) _ h1 (λ built q h2. (
      s,
      refl,
      o,
      e,
      built,
      as_bad_option-ok (parse_connect_options o) built q,
      as_room-ok (rtc_connect s built) room h2,
    )))

hold-IsConnected :
    (rtc_connect : String → ConnectOptions → Result String (Option ℕ)) (s : String)
    (options : Option JsValue) (r : Result ConnectError ℕ)
    → join_room rtc_connect s options ≡ r
    → let (x, outcome) = hold r in
      IsConnected rtc_connect (some (string s)) options (some x, outcome)
unfolding hold new_room_object open_context ref
hold-IsConnected rtc_connect s options (ok room) e =
    ((_, refl, refl, (refl, refl)), join_room-ok rtc_connect s options room e)
hold-IsConnected rtc_connect s options (err t) e = (refl, (refl, refl))

-- A `connect` that returns a Room was given a text for a token and options that can be read, and rtc-cpp
-- gave that room for them; the Room's two contexts then keep the process alive. One that throws leaves
-- no Room object, or one with no native room whose contexts do not keep the process alive.
pub connect_holds :
    (rtc_connect : String → ConnectOptions → Result String (Option ℕ))
    (token options : Option JsValue)
    → IsConnected rtc_connect token options (connect rtc_connect token options)
unfolding connect
connect_holds rtc_connect (some (string s)) options =
    hold-IsConnected rtc_connect s options (join_room rtc_connect s options) refl
connect_holds rtc_connect none options = tt
connect_holds rtc_connect (some undefined) options = tt
connect_holds rtc_connect (some null) options = tt
connect_holds rtc_connect (some function) options = tt
connect_holds rtc_connect (some (boolean b)) options = tt
connect_holds rtc_connect (some (number d)) options = tt
connect_holds rtc_connect (some (buffer b)) options = tt
connect_holds rtc_connect (some (array i)) options = tt
connect_holds rtc_connect (some (object f)) options = tt
connect_holds rtc_connect (some (native c n)) options = tt
