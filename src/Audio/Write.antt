-- ===== src/Audio/Write.antt =====
-- src/media/local_audio_track_wrap.cpp: what each write does to the track and to the device.
use twilio_video_node.Base.{
  ◌+◌, ◌*◌, ◌≤◌, ◌<◌, ◌^◌, ◌≡◌, ◌⊎◌, ◌++◌, true, false, length, take, Result, ok, err,
}
use twilio_video_node.Writes.Counted.{CountsWritten, CountsDropped}
use twilio_video_node.Device.{Device, samples_per_10_ms}
use twilio_video_node.Audio.{AudioTrack, Frame, Outcome, threw, returned, WriteError}

-- What passes the checks holds the samples that it says.
abbrev IsEnough : Frame → Type 0
IsEnough f = (f.frames ≤ length f.samples) × (f.frames ≤ 2 ^ 63)

abbrev pub IsFinished :
    AudioTrack → Device → Result WriteError Frame → AudioTrack × Device × Outcome → Type 0
IsFinished t d checked (u, after, outcome) =
    ((e : WriteError) × (checked ≡ err e) × (outcome ≡ threw e) × (u ≡ t) × (after ≡ d))
    ⊎ ((f : Frame) × (checked ≡ ok f)
        × (outcome ≡ returned true)
        × (u.source ≡ t.source)
        × CountsWritten f.timestamp t.stats u.stats
        × (after ≡ record d { rec_buffer = d.rec_buffer ++ take f.frames f.samples })
        × (length after.rec_buffer ≡ length d.rec_buffer + f.frames)
        × (length after.rec_buffer ≤ d.max_queue_chunks * samples_per_10_ms))
    ⊎ ((f : Frame) × (checked ≡ ok f)
        × (outcome ≡ returned false)
        × (u.source ≡ t.source)
        × CountsDropped t.stats u.stats
        × (after ≡ d)
        × (d.max_queue_chunks * samples_per_10_ms < length d.rec_buffer + f.frames))
