-- ===== src/Video/Stats.antt =====
-- src/media/local_video_track_wrap.cpp: what each write does to the track, and what its counters say
-- after any calls.
use twilio_video_node.Base.{
  ℕ, suc, ◌+◌, ◌≤◌, ◌<◌, ◌^◌, ◌≡◌, refl, List, [], ◌∷◌, ◌++◌, Option, some, none, ℤ, length,
  length-append, arith, Result, ok, err,
}
use twilio_video_node.Js.{JsValue}
use twilio_video_node.Writes.{count_write}
use twilio_video_node.Writes.Counted.{counted}
use twilio_video_node.Video.Written.{IsFinished, finish_write-IsFinished}
use twilio_video_node.Video.{
  VideoTrack, Frame, Adapted, Emitted, Outcome, threw, returned, WriteError, check_frame,
  push_frame, write, finish_write, new_instance, configure_source,
}

-- A write either throws, and then leaves the track as it was and pushes nothing; or its argument is an
-- object that describes a frame. Where the adapter drops the frame, nothing is pushed, the write returns
-- false, and the count of frames dropped is one higher. Where it lets the frame through, the write returns
-- true; what is pushed is the frame itself where it has the adapted size and otherwise a scaled one, with
-- the frame's rotation and the adapter's timestamp; and the count of frames written is one higher, and so
-- is that of the regressions where the frame's timestamp is not above the last one. The other counters and
-- what the track is configured for stay.
pub write_all_or_nothing :
    (adapt : Frame → Option Adapted) (now : ℤ) (info : Option JsValue) (t : VideoTrack)
    → IsFinished adapt now info t (write adapt now info t)
unfolding write
write_all_or_nothing adapt now info t =
    finish_write-IsFinished adapt now info t (check_frame t now info) refl

-- The calls of a track from JS.
pub data Op : Type 0 where
  writes : (adapt : Frame → Option Adapted) (now : ℤ) → Option JsValue → Op
  configures : Option JsValue → Op

abbrev pub listed : Option Emitted → List Emitted
listed none = []
listed (some e) = e ∷ []

-- How many of the calls returned a Boolean.
abbrev pub returns : Outcome → ℕ
returns (threw e) = 0
returns (returned b) = 1

-- The track after a call, how many frames it counts, and what it pushed.
unfoldable pub step : Op → VideoTrack → VideoTrack × ℕ × List Emitted
unfolding write configure_source
step (writes adapt now info) t =
    let (u, outcome, emitted) = write adapt now info t in (u, returns outcome, listed emitted)
step (configures info) t = (configure_source info t, 0, [])

unfoldable pub run : List Op → VideoTrack → VideoTrack × ℕ × List Emitted
unfolding step
run [] t = (t, 0, [])
run (o ∷ os) t =
    let (u, n, out) = step o t in let (v, m, later) = run os u in (v, n + m, out ++ later)

configure_source-stats :
    (info : Option JsValue) (t : VideoTrack) → (configure_source info t).stats ≡ t.stats
unfolding configure_source
configure_source-stats none t = refl
configure_source-stats (some o) t = ground arith

-- What a step adds.
abbrev Adds : VideoTrack → ℕ → List Emitted → VideoTrack → Type 0
Adds t n out u =
    (counted u.stats ≡ counted t.stats + n)
    × (u.stats.frames_written ≡ t.stats.frames_written + length out)
    × (u.stats.timestamp_regressions ≤ u.stats.frames_written)

AddsOne : VideoTrack → VideoTrack × Outcome × Option Emitted → Type 0
AddsOne t (u, outcome, emitted) = Adds t (returns outcome) (listed emitted) u

finish_write-Adds :
    (adapt : Frame → Option Adapted) (t : VideoTrack) (r : Result WriteError Frame)
    → suc (counted t.stats) < 2 ^ 64
    → t.stats.timestamp_regressions ≤ t.stats.frames_written
    → AddsOne t (finish_write adapt t r)
unfolding finish_write push_frame count_write AddsOne
finish_write-Adds adapt t (err e) b r = ground arith
finish_write-Adds adapt t (ok f) b r = ground arith

step-Adds :
    (o : Op) (t : VideoTrack)
    → suc (counted t.stats) < 2 ^ 64
    → t.stats.timestamp_regressions ≤ t.stats.frames_written
    → let (u, n, out) = step o t in Adds t n out u
unfolding step write AddsOne
step-Adds (writes adapt now info) t b r = finish_write-Adds adapt t (check_frame t now info) b r
step-Adds (configures info) t b r = ground (arith, configure_source-stats info t)

step_once : (o : Op) (t : VideoTrack) → (step o t).1 ≤ 1
unfolding step
step_once (writes adapt now info) t = ground arith
step_once (configures info) t = omega arith

run-Adds :
    (os : List Op) (t : VideoTrack)
    → counted t.stats + length os < 2 ^ 64
    → t.stats.timestamp_regressions ≤ t.stats.frames_written
    → let (u, n, out) = run os t in Adds t n out u
unfolding run
run-Adds [] t b r = omega arith
run-Adds (o ∷ os) t b r =
    let (u, n, out) = step o t in
    let s = step-Adds o t (omega arith) r in
    let once = step_once o t in
    let rest = run-Adds os u (omega arith) s.2 in omega (arith, length-append out (run os u).2)

-- After any calls on a new track, fewer than 2^64, the frames counted as written or dropped are those
-- of the writes that did not throw, the written ones are those that reached WebRTC, and no more of
-- them count as timestamp regressions.
pub stats_count_writes :
    (os : List Op)
    → length os < 2 ^ 64
    → let (u, n, out) = run os new_instance in
      (u.stats.frames_written + u.stats.frames_dropped ≡ n)
      × (u.stats.frames_written ≡ length out)
      × (u.stats.timestamp_regressions ≤ u.stats.frames_written)
unfolding new_instance
stats_count_writes os b =
    let (all, written, regressions) = run-Adds os new_instance (omega arith) (omega arith) in
    (omega arith, omega arith, regressions)
