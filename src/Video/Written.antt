-- ===== src/Video/Written.antt =====
-- src/media/local_video_track_wrap.cpp: what each write does to the track, and what reaches WebRTC.
use twilio_video_node.Base.{
  ◌≡◌, ◌≢◌, ◌⊎◌, inl, inr, subst, sym, is_some, ap, refl, true, false, Bool, Option, some, none, ℤ,
  pos, negsuc, arith, Result, ok, err, ◌&&◌, if◌then◌else◌,
}
use twilio_video_node.Js.{JsValue}
use twilio_video_node.Writes.{count_write}
use twilio_video_node.Writes.Counted.{
  CountsWritten, CountsDropped, count_write-CountsWritten, count_write-CountsDropped,
}
use twilio_video_node.Video.{
  VideoTrack, Frame, Adapted, ==_ℤ, Picture, copied, scaled, Emitted, Outcome, threw, returned,
  WriteError, check_frame, push_frame, finish_write,
}
use twilio_video_node.Video.Read.{IsDescribed, check_frame-IsDescribed}

-- Of the size that the adapter asks for: the frame itself, and of any other size one scaled from it.
abbrev pub IsPictured : Adapted → Frame → Picture → Type 0
IsPictured a f p =
    ((a.adapted_width ≡ f.width) × (a.adapted_height ≡ f.height) × (p ≡ copied f))
    ⊎ (((a.adapted_width ≢ f.width) ⊎ (a.adapted_height ≢ f.height)) × (p ≡ scaled a f))

-- What becomes of a frame that the adapter drops, and of one that it lets through.
abbrev pub IsPushed :
    Option Adapted → Frame → VideoTrack → VideoTrack × Outcome × Option Emitted → Type 0
IsPushed none f t (u, outcome, emitted) =
    (outcome ≡ returned false) × (emitted ≡ none) × CountsDropped t.stats u.stats
IsPushed (some a) f t (u, outcome, emitted) =
    (outcome ≡ returned true)
    × ((e : Emitted) × (emitted ≡ some e)
        × IsPictured a f e.picture
        × (e.rotation ≡ f.rotation)
        × (e.timestamp ≡ a.translated_timestamp))
    × CountsWritten f.timestamp t.stats u.stats

-- The fields of a track that are not counters.
abbrev pub IsSameSource : VideoTrack → VideoTrack → Type 0
IsSameSource t u =
    (u.source ≡ t.source)
    × (u.expected_width ≡ t.expected_width)
    × (u.expected_height ≡ t.expected_height)

abbrev pub IsFinished :
    (adapt : Frame → Option Adapted) (now : ℤ)
    → Option JsValue
    → VideoTrack
    → VideoTrack × Outcome × Option Emitted
    → Type 0
IsFinished adapt now info t (u, outcome, emitted) =
    ((e : WriteError) × (check_frame t now info ≡ err e)
      × (outcome ≡ threw e)
      × (u ≡ t)
      × (emitted ≡ none))
    ⊎ ((f : Frame) × (o : JsValue) × (info ≡ some o)
        × IsDescribed now o f
        × IsSameSource t u
        × IsPushed (adapt f) f t (u, outcome, emitted))

equal_ℤ : (a b : ℤ) → ==_ℤ a b ≡ true → a ≡ b
equal_ℤ (pos n) (pos m) h = ap pos (ground arith)
equal_ℤ (negsuc n) (negsuc m) h = ap negsuc (ground arith)
equal_ℤ (pos n) (negsuc m) h = absurd (ground arith)
equal_ℤ (negsuc n) (pos m) h = absurd (ground arith)

self_ℤ : (a : ℤ) → ==_ℤ a a ≡ true
self_ℤ (pos n) = ground arith
self_ℤ (negsuc n) = ground arith

different : {b : Bool} → b ≡ true → b ≡ false → ⊥
different t f = cc

unequal_ℤ : (a b : ℤ) → ==_ℤ a b ≡ false → a ≢ b
unequal_ℤ a b h e =
    let k : ==_ℤ a a ≡ false = subst (λ x. ==_ℤ a x ≡ false) (sym e) h in different (self_ℤ a) k

picture_of :
    (a : Adapted) (f : Frame) (p q : Bool)
    → ==_ℤ a.adapted_width f.width ≡ p
    → ==_ℤ a.adapted_height f.height ≡ q
    → IsPictured a f (if p && q then copied f else scaled a f)
picture_of a f true true h k =
    inl (equal_ℤ a.adapted_width f.width h, equal_ℤ a.adapted_height f.height k, refl)
picture_of a f true false h k = inr (inr (unequal_ℤ a.adapted_height f.height k), refl)
picture_of a f false q h k = inr (inl (unequal_ℤ a.adapted_width f.width h), refl)

-- The end of `Write`, given what `PushFrame` did.
abbrev counted_push : Frame → VideoTrack → Option Emitted → VideoTrack × Outcome × Option Emitted
counted_push f t emitted = (
  record t { stats = count_write (is_some emitted) f.timestamp t.stats },
  returned (is_some emitted),
  emitted,
)

push_frame-IsPushed :
    (a : Option Adapted) (f : Frame) (t : VideoTrack)
    → IsPushed a f t (counted_push f t (push_frame a f))
unfolding push_frame
push_frame-IsPushed none f t = (refl, refl, count_write-CountsDropped f.timestamp t.stats)
push_frame-IsPushed (some a) f t = (
  refl,
  (_, refl, picture_of a f _ _ refl refl, refl, refl),
  count_write-CountsWritten f.timestamp t.stats,
)

pub finish_write-IsFinished :
    (adapt : Frame → Option Adapted) (now : ℤ) (info : Option JsValue) (t : VideoTrack)
    (r : Result WriteError Frame)
    → check_frame t now info ≡ r
    → IsFinished adapt now info t (finish_write adapt t r)
unfolding finish_write
finish_write-IsFinished adapt now info t (err e) c = inl (e, c, refl, refl, refl)
finish_write-IsFinished adapt now info t (ok f) c =
    let (o, given, described) = check_frame-IsDescribed t now info f c in
    inr (f, o, given, described, (refl, refl, refl), push_frame-IsPushed (adapt f) f t)
