-- ===== src/Video/Read.antt =====
-- src/media/local_video_track_wrap.cpp: a frame that passes the checks of `Write` is the one that the JS
-- object describes.
use twilio_video_node.Base.{
  false, String, ℕ, ◌≡◌, ◌⊎◌, inl, inr, Option, some, ℤ, pos, negsuc, ap, ok, arith, by_bind, not,
  ◌||◌, guard, some_or, some_or-eq-ok, ok-injective, subst, List, ◌∙◌, Bool-cases,
}
use twilio_video_node.Js.{JsValue, number, buffer, whole, has, get, is_object}
use twilio_video_node.Writes.{to_finite_int32, is_given}
use twilio_video_node.Video.{
  VideoTrack, Frame, Plane, Rotation, rotation_0, rotation_90, rotation_180, rotation_270,
  check_frame, check_sizes, read_plane, read_timestamp, read_rotation, whole_timestamp, to_rotation,
  argument, is_format, as_buffer, bad_format, no_plane, plane_not_object, data_not_buffer,
  bad_stride, bad_size, no_source, rotation_not_integer,
}

abbrev pub degrees : Rotation → ℕ
degrees rotation_0 = 0
degrees rotation_90 = 90
degrees rotation_180 = 180
degrees rotation_270 = 270

abbrev pub IsPlane : JsValue → String → Plane → Type 0
IsPlane o k p =
    (get (get o k) "data" ≡ buffer p.bytes) × (get (get o k) "stride" ≡ number (whole p.stride))

abbrev pub IsTimestamp : ℤ → JsValue → ℤ → Type 0
IsTimestamp now o t =
    ((is_given o "timestamp" ≡ false) × (t ≡ now)) ⊎ (get o "timestamp" ≡ number (whole t))

abbrev pub IsRotation : JsValue → Rotation → Type 0
IsRotation o r =
    ((is_given o "rotation" ≡ false) × (r ≡ rotation_0))
    ⊎ (get o "rotation" ≡ number (whole (pos (degrees r))))

-- The frame has the size and the planes of the object; and its timestamp and rotation where the object has
-- them, and otherwise the clock's time and no rotation.
abbrev pub IsDescribed : ℤ → JsValue → Frame → Type 0
IsDescribed now o f =
    (get o "width" ≡ number (whole f.width))
    × (get o "height" ≡ number (whole f.height))
    × IsPlane o "y" f.y
    × IsPlane o "u" f.u
    × IsPlane o "v" f.v
    × IsTimestamp now o f.timestamp
    × IsRotation o f.rotation

int32_read : (x : JsValue) (z : ℤ) → to_finite_int32 x ≡ some z → x ≡ number (whole z)
unfolding to_finite_int32
int32_read x z e = ground arith

buffer_read : (x : JsValue) (b : List ℕ) → as_buffer x ≡ some b → x ≡ buffer b
buffer_read x b e = ground arith

read_plane-IsPlane : (o : JsValue) (k : String) (p : Plane) → read_plane o k ≡ ok p → IsPlane o k p
unfolding read_plane
read_plane-IsPlane o k p e = by_bind (guard (has o k) (no_plane k)) _ e (λ _ _ e1.
    by_bind (guard (is_object (get o k)) (plane_not_object k)) _ e1 (λ _ _ e2.
      by_bind (some_or (as_buffer (get (get o k) "data")) (data_not_buffer k)) _ e2 (λ b d e3.
        by_bind (some_or (to_finite_int32 (get (get o k) "stride")) (bad_stride k)) _ e3 (λ z s e4.
          subst (IsPlane o k) (ok-injective e4) (
            buffer_read (get (get o k) "data") b (some_or-eq-ok _ _ d),
            int32_read (get (get o k) "stride") z (some_or-eq-ok _ _ s),
          )))))

whole_read : (x : JsValue) (t : ℤ) → whole_timestamp x ≡ ok t → x ≡ number (whole t)
whole_read x t e = ground arith

read_timestamp-IsTimestamp :
    (now : ℤ) (o : JsValue) (t : ℤ) → read_timestamp now o ≡ ok t → IsTimestamp now o t
unfolding read_timestamp
read_timestamp-IsTimestamp now o t e = elim (Bool-cases (is_given o "timestamp")) [
  | inl g ↦ inr (whole_read (get o "timestamp") t (ground arith))
  | inr g ↦ inl (g, ground arith)
]

rotation_read : (z : ℤ) (r : Rotation) → to_rotation z ≡ ok r → z ≡ pos (degrees r)
rotation_read (pos n) rotation_0 e = ground arith
rotation_read (pos n) rotation_90 e = ground arith
rotation_read (pos n) rotation_180 e = ground arith
rotation_read (pos n) rotation_270 e = ground arith
rotation_read (negsuc n) r e = cc

read_rotation-IsRotation : (o : JsValue) (r : Rotation) → read_rotation o ≡ ok r → IsRotation o r
unfolding read_rotation
read_rotation-IsRotation o r e = elim (Bool-cases (is_given o "rotation")) [
  | inl g ↦
      by_bind (some_or (to_finite_int32 (get o "rotation")) rotation_not_integer) to_rotation
        (ground arith)
        (λ z s e1. inr (
          int32_read (get o "rotation") z (some_or-eq-ok _ _ s)
          ∙ ap (λ x. number (whole x)) (rotation_read z r e1)))
  | inr g ↦ inl (g, ground arith)
]

object_given : (info : Option JsValue) (o : JsValue) → argument info ≡ ok o → info ≡ some o
object_given info o e = ground arith

-- A frame that passes the checks is described by the object that was given.
pub check_frame-IsDescribed :
    (t : VideoTrack) (now : ℤ) (info : Option JsValue) (f : Frame)
    → check_frame t now info ≡ ok f
    → (o : JsValue) × (info ≡ some o) × IsDescribed now o f
unfolding check_frame
check_frame-IsDescribed t now info f e = by_bind (argument info) _ e (λ o given e1.
    by_bind (guard (not (is_given o "format") || is_format (get o "format")) bad_format) _ e1
      (λ _ _ e2. by_bind (some_or (to_finite_int32 (get o "width")) bad_size) _ e2 (λ w sw e3.
        by_bind (some_or (to_finite_int32 (get o "height")) bad_size) _ e3 (λ h sh e4.
          by_bind (read_plane o "y") _ e4 (λ y sy e5. by_bind (read_plane o "u") _ e5 (λ u su e6.
            by_bind (read_plane o "v") _ e6 (λ v sv e7.
              by_bind (check_sizes t w h y u v) _ e7 (λ _ _ e8.
                by_bind (read_timestamp now o) _ e8 (λ ts st e9.
                  by_bind (read_rotation o) _ e9 (λ r sr e10.
                    by_bind (guard t.source no_source) _ e10 (λ _ _ e11. (
                      o,
                      object_given info o given,
                      subst (IsDescribed now o) (ok-injective e11) (
                        int32_read (get o "width") w (some_or-eq-ok _ _ sw),
                        int32_read (get o "height") h (some_or-eq-ok _ _ sh),
                        read_plane-IsPlane o "y" y sy,
                        read_plane-IsPlane o "u" u su,
                        read_plane-IsPlane o "v" v sv,
                        read_timestamp-IsTimestamp now o ts st,
                        read_rotation-IsRotation o r sr,
                      ),
                    ))))))))))))
