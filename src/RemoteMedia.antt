-- ===== src/RemoteMedia.antt =====
-- src/media/remote_video_track_wrap.h, remote_video_track_wrap.cpp, remote_audio_track_wrap.h and
-- remote_audio_track_wrap.cpp in the same folder: the sink that a remote track's wrap attaches.
-- Both wraps handle their sink alike, and they are modelled once. A sink is known by the number of sinks
-- made before it for the wrap. Whether the wrap has a track and that track a WebRTC track is an argument
-- of each call, since rtc-cpp may drop it at any time; the WebRTC track is the same whenever it is there.
pub mod Attached
pub mod Silent
use twilio_video_node.Base.{
  ℕ, suc, ◌+◌, Bool, true, false, ◌&&◌, not, Option, none, some, String, ℤ, pos, negsuc, pos_part,
  ltb, leb_ℤ, ◌==◌, if◌then◌else◌, List, [], ◌∷◌,
}
use twilio_video_node.Js.{
  JsValue, number, function, undefined, Double, whole, fractional, nan, infinite, has, get,
  is_object, is_number, max_safe_integer,
}
use twilio_video_node.Async.{default_max_queue_depth}
use twilio_video_node.Sink.{Sink, new_sink, close_sink, on_frame, run_next}

-- `registered` is WebRTC's list of sinks, and `freed` says which sinks were deleted.
pub record Track {ℓ} (D : Type ℓ) : Type ℓ where
  pub frame_sink : Option ℕ
  pub made : ℕ
  pub sinks : ℕ → Sink D
  pub registered : ℕ → Bool
  pub freed : ℕ → Bool

-- The calls from JS with what the track is then, the frames that WebRTC hands to its sinks, and turns of
-- the JS thread for one sink's queue.
pub data Op {ℓ} (D : Type ℓ) : Type ℓ where
  attaches : (webrtc : Bool) → (callback depth : Option JsValue) → Op D
  detaches : (webrtc : Bool) → Op D
  frames : (ℕ → D) → Op D
  turns : ℕ → Op D

-- `d >= 1 && d <= 1024`, and the cast.
abbrev pub depth_of : Double → Option ℕ
depth_of (whole z) = if leb_ℤ (pos 1) z && leb_ℤ z (pos 1024) then some (pos_part z) else none
depth_of (fractional z) = if leb_ℤ (pos 1) z && leb_ℤ z (pos 1023) then some (pos_part z) else none
depth_of _ = none

abbrev pub or_default : Option ℕ → ℕ
or_default none = default_max_queue_depth
or_default (some n) = n

unfoldable pub read_depth : Option JsValue → ℕ
read_depth (some (number d)) = or_default (depth_of d)
read_depth _ = default_max_queue_depth

abbrev pub is_function : Option JsValue → Bool
is_function (some function) = true
is_function _ = false

abbrev pub update {ℓ} : {A : Type ℓ} → ℕ → A → (ℕ → A) → ℕ → A
update s a f t = if t == s then a else f t

module _ {ℓ} {D : Type ℓ} where
  unfoldable pub new_track : Track D
  new_track = record {
    frame_sink = none;
    made = 0;
    sinks = λ s. new_sink 0;
    registered = λ s. false;
    freed = λ s. false;
  }

  -- Without a WebRTC track the sink is closed and never deleted.
  unfoldable pub detach_sink : Bool → Track D → Track D
  unfolding close_sink
  detach_sink webrtc t = elim t.frame_sink [
    | none ↦ t
    | some s ↦
        (let u = record t {
          frame_sink = none;
          sinks = update s (close_sink (t.sinks s)) t.sinks;
        } in
          if webrtc
          then record u { registered = update s false u.registered; freed = update s true u.freed }
          else u)
  ]

  -- A new sink, registered where there is a WebRTC track.
  unfoldable pub add_sink : Bool → ℕ → Track D → Track D
  unfolding new_sink
  add_sink webrtc depth t =
      let s = t.made in
      let u = record t {
        frame_sink = some s;
        made = suc s;
        sinks = update s (new_sink depth) t.sinks;
      } in
      if webrtc then record u { registered = update s true u.registered } else u

  -- `AttachFrameSink`; with no function it throws first.
  unfoldable pub attach_frame_sink : Bool → Option JsValue → Option JsValue → Track D → Track D
  unfolding detach_sink add_sink read_depth
  attach_frame_sink webrtc callback depth t =
      if is_function callback then add_sink webrtc (read_depth depth) (detach_sink webrtc t) else t

  -- A frame for every sink in WebRTC's list.
  unfoldable pub deliver : (ℕ → D) → Track D → Track D
  unfolding on_frame
  deliver make t = record t {
    sinks = λ s. if t.registered s then on_frame make (t.sinks s) else t.sinks s;
  }

  unfoldable pub step : Op D → Track D → Track D
  unfolding attach_frame_sink detach_sink deliver run_next
  step (attaches webrtc callback depth) t = attach_frame_sink webrtc callback depth t
  step (detaches webrtc) t = detach_sink webrtc t
  step (frames make) t = deliver make t
  step (turns s) t = record t { sinks = update s (run_next (t.sinks s)) t.sinks }

  unfoldable pub run : List (Op D) → Track D → Track D
  unfolding step
  run [] t = t
  run (o ∷ os) t = run os (step o t)
