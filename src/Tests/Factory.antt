-- ===== src/Tests/Factory.antt =====
-- src/media/media_factory_wrap.cpp: runs of the options of a data track, and the theorems on them.
use twilio_video_node.Base.{◌≡◌, refl, Option, none, some, ℤ, pos, negsuc}
use twilio_video_node.Js.{
  JsValue, null, number, object, end, field, whole, got, lookup, get, read_optional_int32, as_int32,
  int32_value, read_optional_bool, as_bool, bad, must_be_a,
}
use twilio_video_node.Factory.{DataTrackOptions, default_name, requested_option_or_null}
use twilio_video_node.Factory.Options.{effective, options_read_back}

-- rtc-cpp's builder: -1 stands for a limit not set.
abbrev stored : Option ℤ → ℤ
stored none = negsuc 0
stored (some z) = z

abbrev asked : JsValue
asked = object (field "maxRetransmits" (number (whole (pos 65535))) end)

abbrev copied : JsValue
unfolding requested_option_or_null
copied = object (field "maxRetransmits" (requested_option_or_null (pos 65535)) end)

asked_limit : read_optional_int32 asked "maxRetransmits" ≡ got (some (pos 65535))
unfolding read_optional_int32 as_int32 int32_value get lookup
asked_limit = refl

copied_limit : get copied "maxRetransmits" ≡ requested_option_or_null (stored (some (pos 65535)))
unfolding copied get lookup requested_option_or_null
copied_limit = refl

-- A `null` is no limit, but no Boolean.
null_limit : read_optional_int32 (object (field "k" null end)) "k" ≡ got none
unfolding read_optional_int32 as_int32 get lookup
null_limit = refl

null_boolean : read_optional_bool (object (field "k" null end)) "k" ≡ bad (must_be_a "k" "boolean")
unfolding read_optional_bool as_bool get lookup
null_boolean = refl

options_read_back_example :
    read_optional_int32 copied "maxRetransmits" ≡ got (effective (some (pos 65535)))
options_read_back_example =
    options_read_back stored refl (λ z. refl) asked copied "maxRetransmits" "maxRetransmits"
      (some (pos 65535)) asked_limit copied_limit

abbrev asked_options : DataTrackOptions
asked_options = record {
  name = default_name "data" 6;
  max_packet_life_time = none;
  max_retransmits = some (pos 65535);
  ordered = none;
}
