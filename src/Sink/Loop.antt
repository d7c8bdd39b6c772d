-- ===== src/Sink/Loop.antt =====
-- src/sinks with src/media/local_audio_track_wrap.cpp and local_video_track_wrap.cpp: a frame received
-- from a remote track can be written to a local one.
use twilio_video_node.Base.{
  zero, ◌∙◌, ℕ, suc, ◌*◌, ◌^◌, ◌≤◌, ◌<◌, ◌≡◌, refl, ap, ap₂, true, List, [], ◌∷◌, some, ℤ, pos, leb,
  leb_ℤ, length, length-take, take, All, u32, arith, Result, ok, ◌>>=◌, ◌>>◌, guard,
}
use twilio_video_node.Js.{max_safe_integer, get, has, lookup}
use twilio_video_node.Audio.{
  AudioTrack, Frame, samples_of, check_frame, read_frames, read_timestamp, WriteError, short_pcm,
  no_source,
}
use twilio_video_node.Sink.Media.{AudioFrameData, audio_frame_data, audio_frame, bytes_of, natural}

-- A bit pattern of an int16_t.
abbrev pub IsSample : ℕ → Type 0
IsSample x = x < 2 ^ 16

samples_of-bytes_of : (xs : List ℕ) → All IsSample xs → samples_of (bytes_of xs) ≡ xs
unfolding samples_of bytes_of
samples_of-bytes_of [] h = refl
samples_of-bytes_of (x ∷ xs) h =
    ap₂ (λ a b. a ∷ b) (omega (arith, h.0)) (samples_of-bytes_of xs h.1)

frames_read : (n : ℕ) → 0 < n → n < 2 ^ 32 → read_frames (natural (u32 n)) ≡ ok n
unfolding read_frames
frames_read n p h = ground arith

timestamp_read :
    (now : ℤ) (f : AudioFrameData)
    → leb_ℤ (pos 0) f.timestamp_us ≡ true
    → leb_ℤ f.timestamp_us max_safe_integer ≡ true
    → read_timestamp now (audio_frame f) ≡ ok f.timestamp_us
unfolding read_timestamp audio_frame get has lookup
timestamp_read now f lo hi = ground arith

-- The rest of the checks, given what the readers answered.
abbrev after_reads :
    AudioTrack → Result WriteError ℕ → List ℕ → Result WriteError ℤ → Result WriteError Frame
after_reads t r xs m = do
  n ← r
  guard (leb n (length xs)) short_pcm
  guard t.source no_source
  z ← m
  ok (record { samples = xs; frames = n; timestamp = z })

checked :
    (t : AudioTrack) (r : Result WriteError ℕ) (n : ℕ) (xs ys : List ℕ) (m : Result WriteError ℤ)
    (z : ℤ)
    → t.source ≡ true
    → r ≡ ok n
    → xs ≡ ys
    → m ≡ ok z
    → n ≤ length ys
    → after_reads t r xs m ≡ ok (record { samples = ys; frames = n; timestamp = z })
checked t r n xs ys m z src er ex em h = ground arith

audio_checked :
    (t : AudioTrack) (now : ℤ) (f : AudioFrameData)
    → t.source ≡ true
    → 0 < f.number_of_frames
    → f.number_of_frames < 2 ^ 32
    → f.number_of_frames ≤ length f.samples
    → All IsSample f.samples
    → leb_ℤ (pos 0) f.timestamp_us ≡ true
    → leb_ℤ f.timestamp_us max_safe_integer ≡ true
    → check_frame t now (some (audio_frame f))
      ≡ ok (record { samples = f.samples; frames = f.number_of_frames; timestamp = f.timestamp_us })
unfolding check_frame read_frames read_timestamp audio_frame get has lookup
audio_checked t now f src pos_ small enough s lo hi =
    checked t _ f.number_of_frames _ f.samples _ f.timestamp_us src
      (frames_read f.number_of_frames pos_ small) (samples_of-bytes_of f.samples s)
      (timestamp_read now f lo hi) enough

All-take : (n : ℕ) (xs : List ℕ) → All IsSample xs → All IsSample (take n xs)
All-take zero xs h = tt
All-take (suc n) [] h = tt
All-take (suc n) (x ∷ xs) h = (h.0, All-take n xs h.1)

-- A 16-bit mono frame, received from a remote audio track with its samples and a clock that a JS number
-- holds exactly, passes the checks of a write to a local audio track that has its source: the samples,
-- their number and the timestamp are those that were received.
pub audio_loops :
    (t : AudioTrack) (now : ℤ) (audio : List ℕ) (rate frames clock id : ℕ)
    → t.source ≡ true
    → 0 < frames
    → frames < 2 ^ 32
    → frames ≤ length audio
    → All IsSample audio
    → clock < 2 ^ 53
    → check_frame t now
        (some (audio_frame (audio_frame_data audio 16 rate 1 frames (pos clock) id)))
      ≡ ok (record { samples = take frames audio; frames = frames; timestamp = pos clock })
unfolding audio_frame_data
audio_loops t now audio rate frames clock id src p small enough s c =
    let one : frames * 1 ≡ frames = omega arith in
    audio_checked t now (audio_frame_data audio 16 rate 1 frames (pos clock) id) src p small
      (omega (arith, length-take (frames * 1) audio)) (All-take (frames * 1) audio s) (ground arith)
      (ground arith)
    ∙ ap (λ n. ok (record { samples = take n audio; frames = frames; timestamp = pos clock })) one
