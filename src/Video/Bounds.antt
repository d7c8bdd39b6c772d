-- ===== src/Video/Bounds.antt =====
-- src/media/local_video_track_wrap.cpp: what `Copy` reads of an accepted frame is in its planes.
use twilio_video_node.Base.{
  true, String, ℕ, suc, ◌+◌, ◌*◌, ◌/◌, ◌%◌, ◌^◌, ◌≤◌, ◌<◌, ◌≡◌, Option, some, ℤ, pos, negsuc,
  pos_part, length, ap, refl, ok, arith, by_bind, not, ◌||◌, guard, some_or, some_or-eq-ok,
  guard-eq-ok, ok-injective, subst, ◌*◌,
}
use native.Mathlib.Nat.{mul-le-mul}
use twilio_video_node.Js.{JsValue, has, get, is_object}
use twilio_video_node.Writes.{to_finite_int32, is_given}
use twilio_video_node.Video.{
  VideoTrack, Frame, Plane, check_frame, check_sizes, required, read_plane, to_size, read_timestamp,
  read_rotation, argument, is_format, as_buffer, bad_format, no_plane, plane_not_object,
  data_not_buffer, bad_stride, bad_size, no_source,
}

-- The byte in a row and a column of a plane's picture is a byte of its buffer.
abbrev pub IsByte : Plane → (row column : ℕ) → Type 0
IsByte p row column = row * pos_part p.stride + column < length p.bytes

row_end : (s r row column : ℕ) → row < r → column < s → row * s + column < s * r
row_end s r row column h k = let p : suc row * s ≤ r * s = mul-le-mul h (omega arith) in omega arith

to_finite_int32-lt : (x : JsValue) (z : ℤ) → to_finite_int32 x ≡ some z → (pos_part z < 2 ^ 31)
unfolding to_finite_int32
to_finite_int32-lt x z e = ground arith

read_plane-lt :
    (frame : JsValue) (k : String) (p : Plane)
    → read_plane frame k ≡ ok p
    → pos_part p.stride < 2 ^ 31
unfolding read_plane
read_plane-lt frame k p e = by_bind (guard (has frame k) (no_plane k)) _ e (λ _ _ e1.
    by_bind (guard (is_object (get frame k)) (plane_not_object k)) _ e1 (λ _ _ e2.
      by_bind (some_or (as_buffer (get (get frame k) "data")) (data_not_buffer k)) _ e2 (λ b _ e3.
        by_bind (some_or (to_finite_int32 (get (get frame k) "stride")) (bad_stride k)) _ e3
          (λ z s e4.
            subst (λ q. pos_part q.stride < 2 ^ 31) (ok-injective e4)
              (to_finite_int32-lt (get (get frame k) "stride") z (some_or-eq-ok _ _ s))))))

abbrev IsSized : VideoTrack → Frame → Type 0
IsSized t f =
    (check_sizes t f.width f.height f.y f.u f.v ≡ ok tt)
    × (t.source ≡ true)
    × (pos_part f.height < 2 ^ 31)
    × (pos_part f.y.stride < 2 ^ 31)
    × (pos_part f.u.stride < 2 ^ 31)
    × (pos_part f.v.stride < 2 ^ 31)

check_frame-IsSized :
    (t : VideoTrack) (now : ℤ) (info : Option JsValue) (f : Frame)
    → check_frame t now info ≡ ok f
    → IsSized t f
unfolding check_frame
check_frame-IsSized t now info f e = by_bind (argument info) _ e (λ frame _ e1.
    by_bind (guard (not (is_given frame "format") || is_format (get frame "format")) bad_format) _
      e1
      (λ _ _ e2. by_bind (some_or (to_finite_int32 (get frame "width")) bad_size) _ e2 (λ w _ e3.
        by_bind (some_or (to_finite_int32 (get frame "height")) bad_size) _ e3 (λ h sh e4.
          by_bind (read_plane frame "y") _ e4 (λ y sy e5.
            by_bind (read_plane frame "u") _ e5 (λ u su e6.
              by_bind (read_plane frame "v") _ e6 (λ v sv e7.
                by_bind (check_sizes t w h y u v) _ e7 (λ _ sizes e8.
                  by_bind (read_timestamp now frame) _ e8 (λ ts _ e9.
                    by_bind (read_rotation frame) _ e9 (λ r _ e10.
                      by_bind (guard t.source no_source) _ e10 (λ _ src e11.
                        subst (IsSized t) (ok-injective e11) (
                          sizes,
                          guard-eq-ok t.source no_source src,
                          to_finite_int32-lt (get frame "height") h (some_or-eq-ok _ _ sh),
                          read_plane-lt frame "y" y sy,
                          read_plane-lt frame "u" u su,
                          read_plane-lt frame "v" v sv,
                        ))))))))))))

pub to_size_lem : (z : ℤ) → 0 < pos_part z → to_size z ≡ pos_part z
to_size_lem (pos n) h = refl
to_size_lem (negsuc n) h = elim h [ ]

-- No product wraps.
pub required_exact :
    (p : Plane) (rows : ℕ)
    → 0 < pos_part p.stride
    → pos_part p.stride < 2 ^ 31
    → rows < 2 ^ 31
    → required p rows ≡ pos_part p.stride * rows
unfolding required
required_exact p rows s0 s r =
    let m : pos_part p.stride * rows ≤ 2 ^ 31 * 2 ^ 31 =
      mul-le-mul {m₁ = rows} {n₂ = 2 ^ 31} {m₂ = 2 ^ 31} (omega arith) (omega arith) in
    omega (arith, to_size_lem p.stride s0, m, ap (λ n. n * rows) (to_size_lem p.stride s0))

abbrev IsFit : ℤ → ℤ → Plane → Plane → Plane → Type 0
IsFit w h y u v =
    (0 < pos_part w)
    × (0 < pos_part h)
    × (pos_part w % 2 ≡ 0)
    × (pos_part h % 2 ≡ 0)
    × (pos_part w ≤ pos_part y.stride)
    × (pos_part w / 2 ≤ pos_part u.stride)
    × (pos_part w / 2 ≤ pos_part v.stride)
    × (required y (pos_part h) ≤ length y.bytes)
    × (required u (pos_part h / 2) ≤ length u.bytes)
    × (required v (pos_part h / 2) ≤ length v.bytes)

check_sizes-IsFit :
    (t : VideoTrack) (w h : ℤ) (y u v : Plane) → check_sizes t w h y u v ≡ ok tt → IsFit w h y u v
unfolding check_sizes
check_sizes-IsFit t w h y u v e = ground arith

in_plane :
    (p : Plane) (rows columns row column : ℕ)
    → columns ≤ pos_part p.stride
    → pos_part p.stride < 2 ^ 31
    → rows < 2 ^ 31
    → required p rows ≤ length p.bytes
    → row < rows
    → column < columns
    → IsByte p row column
in_plane p rows columns row column c s r h i j =
    let e = required_exact p rows (omega arith) s r in
    omega (arith, row_end (pos_part p.stride) rows row column i (omega arith))

-- A frame that passes the checks of a write is of an even, positive size, and for every pixel of it
-- the bytes that the copy reads, in the pixel's row and column of the first plane and in half of them
-- in the other two, are bytes of the buffers that the caller gave.
pub checked_frame_readable :
    (t : VideoTrack) (now : ℤ) (info : Option JsValue) (f : Frame) (row column : ℕ)
    → check_frame t now info ≡ ok f
    → row < pos_part f.height
    → column < pos_part f.width
    → (pos_part f.width % 2 ≡ 0)
      × (pos_part f.height % 2 ≡ 0)
      × IsByte f.y row column
      × IsByte f.u (row / 2) (column / 2)
      × IsByte f.v (row / 2) (column / 2)
checked_frame_readable t now info f row column e i j =
    let (sizes, _, h, y, u, v) = check_frame-IsSized t now info f e in
    let (w0, h0, we, he, ys, us, vs, yb, ub, vb) =
      check_sizes-IsFit t f.width f.height f.y f.u f.v sizes in
    let half : row / 2 < pos_part f.height / 2 = omega arith in
    let half' : column / 2 < pos_part f.width / 2 = omega arith in
    (
      we,
      he,
      in_plane f.y _ _ row column ys y h yb i j,
      in_plane f.u _ _ (row / 2) (column / 2) us u (omega arith) ub half half',
      in_plane f.v _ _ (row / 2) (column / 2) vs v (omega arith) vb half half',
    )
