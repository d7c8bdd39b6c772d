-- ===== src/Writes.antt =====
-- What src/media/local_audio_track_wrap.cpp and src/media/local_video_track_wrap.cpp share: the checks
-- on a number of a frame, the errors, and the counters behind `getWriteStats`.
pub mod Counted
use twilio_video_node.Base.{
  ℕ, suc, String, ◌-◌, ◌^◌, ◌+◌, Bool, true, false, ◌&&◌, not, Option, none, some, ℤ, pos, negsuc,
  u64, leb_ℤ, if◌then◌else◌,
}
use twilio_video_node.Js.{
  JsValue, number, Double, nan, infinite, whole, fractional, has, get, is_undefined,
}

-- The class of a JS exception.
pub data ErrorClass : Type 0 where
  error type_error range_error : ErrorClass

-- The counters of a track; `last_timestamp` is `none` until `hasLastTimestamp_` is set.
pub record WriteStats : Type 0 where
  pub frames_written : ℕ
  pub frames_dropped : ℕ
  pub timestamp_regressions : ℕ
  pub last_timestamp : Option ℤ

abbrev pub no_writes : WriteStats
no_writes = record {
  frames_written = 0;
  frames_dropped = 0;
  timestamp_regressions = 0;
  last_timestamp = none;
}

abbrev pub regresses : Option ℤ → ℤ → Bool
regresses none timestamp = false
regresses (some last) timestamp = leb_ℤ timestamp last

-- The last lines of both `Write` methods. The counters are uint64_t.
unfoldable pub count_write : Bool → ℤ → WriteStats → WriteStats
count_write true timestamp s = record s {
  frames_written = u64 (suc s.frames_written);
  timestamp_regressions =
      if regresses s.last_timestamp timestamp
      then u64 (suc s.timestamp_regressions)
      else s.timestamp_regressions;
  last_timestamp = some timestamp;
}
count_write false timestamp s = record s { frames_dropped = u64 (suc s.frames_dropped) }

-- `frame.Has(key) && !frame.Get(key).IsUndefined()`
abbrev pub is_given : JsValue → String → Bool
is_given frame key = has frame key && not (is_undefined (get frame key))

abbrev pub in_int32 : ℤ → Bool
in_int32 z = leb_ℤ (negsuc (2 ^ 31 - 1)) z && leb_ℤ z (pos (2 ^ 31 - 1))

-- ToFiniteInt32
unfoldable pub to_finite_int32 : JsValue → Option ℤ
to_finite_int32 (number (whole z)) = if in_int32 z then some z else none
to_finite_int32 _ = none
