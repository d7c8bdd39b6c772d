-- ===== src/Factory/Options.antt =====
-- src/media/media_factory_wrap.cpp with the getters of the data tracks: the limits of a data track, and
-- the options that it is created with.
use twilio_video_node.Base.{
  ℕ, ◌<◌, ◌^◌, ◌≡◌, ◌⊎◌, Option, none, some, String, ℤ, pos, negsuc, ltb_ℤ, arith, if◌then◌else◌,
  ap, ◌∙◌,
}
use twilio_video_node.Js.{JsValue, get, got, read_optional_int32}
use twilio_video_node.Js.Read.{IsInt32, read-number, read-null, read-IsInt32}
use twilio_video_node.Factory.{requested_option_or_null, subscribed_option_or_null}

-- What is left of a requested limit: a negative one stands for none.
abbrev pub effective : Option ℤ → Option ℤ
effective none = none
effective (some z) = if ltb_ℤ z (pos 0) then none else some z

int32_read_back :
    (again : JsValue) (k : String) (z : ℤ)
    → IsInt32 z
    → get again k ≡ requested_option_or_null z
    → read_optional_int32 again k ≡ got (effective (some z))
unfolding requested_option_or_null
int32_read_back again k z h e = ground (arith, read-null again k, read-number again k z)

-- A limit that the factory reads from the options of a data track, and that the track keeps (-1 for
-- one not set, as rtc-cpp's builder does), is given by the track's getter in a form that the factory
-- reads as the same limit, a negative one as no limit.
pub options_read_back :
    (stored : Option ℤ → ℤ)
    → stored none ≡ negsuc 0
    → ((z : ℤ) → stored (some z) ≡ z)
    → (options again : JsValue) (k j : String) (limit : Option ℤ)
    → read_optional_int32 options k ≡ got limit
    → get again j ≡ requested_option_or_null (stored limit)
    → read_optional_int32 again j ≡ got (effective limit)
options_read_back stored unset kept options again k j none r e =
    int32_read_back again j (negsuc 0) (omega arith) (e ∙ ap requested_option_or_null unset)
options_read_back stored unset kept options again k j (some z) r e =
    int32_read_back again j z (read-IsInt32 options k z r)
      (e ∙ ap requested_option_or_null (kept z))

-- A limit that a remote data track reports is given by its getter in a form that the factory reads
-- back as the same limit, where 65535, WebRTC's mark for none, is read as no limit.
subscribed_read_back :
    (again : JsValue) (k : String) (v : ℕ)
    → v < 2 ^ 16
    → get again k ≡ subscribed_option_or_null v
    → ((v < 65535) × (read_optional_int32 again k ≡ got (some (pos v))))
      ⊎ ((v ≡ 65535) × (read_optional_int32 again k ≡ got none))
unfolding subscribed_option_or_null
subscribed_read_back again k v h e = ground (arith, read-null again k, read-number again k (pos v))
