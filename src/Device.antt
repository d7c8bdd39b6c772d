-- ===== src/Device.antt =====
-- src/media/node_audio_device.h and src/media/node_audio_device.cpp: the audio device that carries
-- pushed samples into WebRTC, one 10 ms chunk at a time.
-- A sample is a number, the bit pattern of its int16_t. A transport is known by a number. Every
-- method is one function of the device; the lambda that `Init` repeats is `tick`.
pub mod Bounds
pub mod Stream
use twilio_video_node.Base.{
  ℕ, suc, ◌+◌, ◌-◌, ◌*◌, ◌/◌, min, Bool, true, false, List, [], ◌∷◌, ◌++◌, Option, none, some, ltb,
  length, take, drop, replicate, u64, if◌then◌else◌,
}

abbrev pub sample_rate : ℕ
sample_rate = 48000

abbrev pub channels : ℕ
channels = 1

abbrev pub bits_per_sample : ℕ
bits_per_sample = 16

abbrev pub samples_per_10_ms : ℕ
samples_per_10_ms = sample_rate / 100

abbrev pub bytes_per_sample : ℕ
bytes_per_sample = 2

abbrev pub default_max_queue_chunks : ℕ
default_max_queue_chunks = 50

-- `tasks` counts the task queues that repeat the lambda of `Init`: one for each `audio_queue_` that
-- `Init` made and `Terminate` has not yet destroyed.
pub record Device : Type 0 where
  pub rec_buffer : List ℕ
  pub max_queue_chunks : ℕ
  pub audio_transport : Option ℕ
  pub initialized : Bool
  pub playing : Bool
  pub recording : Bool
  pub tasks : ℕ

-- A call of the transport: its number, and the arguments that say what the samples are.
pub data Sent : Type 0 where
  recorded_data_is_available :
      (transport : ℕ) (frame : List ℕ) (samples bytes channel_count rate : ℕ) → Sent
  need_more_play_data : (transport samples bytes channel_count rate : ℕ) → Sent

unfoldable pub create : Device
create = record {
  rec_buffer = [];
  max_queue_chunks = default_max_queue_chunks;
  audio_transport = none;
  initialized = false;
  playing = false;
  recording = false;
  tasks = 0;
}

-- `data` holds `num_frames` samples at least; the sums are of `size_t`.
unfoldable pub push_recording_data : Device → List ℕ → ℕ → Device × Bool
push_recording_data d samples num_frames =
    if ltb (u64 (d.max_queue_chunks * samples_per_10_ms)) (u64 (length d.rec_buffer + num_frames))
    then (d, false)
    else (record d { rec_buffer = d.rec_buffer ++ take num_frames samples }, true)

abbrev pub clamp_chunks : ℕ → ℕ
clamp_chunks chunks = let c = if ltb chunks 1 then 1 else chunks in if ltb 4800 c then 4800 else c

unfoldable pub set_max_queue_chunks : Device → ℕ → Device
set_max_queue_chunks d chunks = record d { max_queue_chunks = clamp_chunks chunks }

unfoldable pub queue_depth_chunks : Device → ℕ
queue_depth_chunks d = length d.rec_buffer / samples_per_10_ms

unfoldable pub clear_recording_buffer : Device → Device
clear_recording_buffer d = record d { rec_buffer = [] }

-- One step, though the task is started after the lock is released.
unfoldable pub init : Device → Device
init d = if d.initialized then d else record d { initialized = true; tasks = suc d.tasks }

-- `int16_t frame[kSamplesPer10Ms] = {}`
unfoldable pub silence : List ℕ
silence = replicate samples_per_10_ms 0

-- `frame` starts as silence, and the samples at hand are copied over its front.
unfoldable pub next_frame : List ℕ → List ℕ
next_frame buffer =
    let to_copy = min (length buffer) samples_per_10_ms in
    take to_copy buffer ++ drop to_copy silence

abbrev pub record_calls : Device → List ℕ → List Sent
record_calls d frame = elim d.audio_transport [
  | none ↦ []
  | some t ↦
      if d.recording
      then recorded_data_is_available t frame samples_per_10_ms bytes_per_sample channels
          sample_rate
        ∷ []
      else []
]

abbrev pub playout_calls : Device → List Sent
playout_calls d = elim d.audio_transport [
  | none ↦ []
  | some t ↦
      if d.playing
      then need_more_play_data t samples_per_10_ms bytes_per_sample channels sample_rate ∷ []
      else []
]

-- The lambda: what it calls on the transport, and what it leaves.
unfoldable pub tick : Device → List Sent × Device
tick d =
    let to_copy = min (length d.rec_buffer) samples_per_10_ms in
    (
      record_calls d (next_frame d.rec_buffer) ++ playout_calls d,
      record d { rec_buffer = drop to_copy d.rec_buffer },
    )

-- The queue is moved out and destroyed, and its task with it: one step, though the queue is destroyed after
-- the lock is released.
unfoldable pub terminate : Device → Device
terminate d =
    if d.initialized
    then record d {
      initialized = false;
      playing = false;
      recording = false;
      audio_transport = none;
      tasks = d.tasks - 1;
    }
    else d

unfoldable pub register_audio_callback : Device → Option ℕ → Device
register_audio_callback d t = record d { audio_transport = t }

unfoldable pub set_playing : Bool → Device → Device
set_playing b d = record d { playing = b }

unfoldable pub set_recording : Bool → Device → Device
set_recording b d = record d { recording = b }

-- The calls of the device, from any thread, and the repeats of the task.
pub data Call : Type 0 where
  pushes : List ℕ → ℕ → Call
  bounds : ℕ → Call
  clears inits terminates : Call
  registers : Option ℕ → Call
  starts_playout stops_playout starts_recording stops_recording ticks : Call

unfoldable pub step : Device → Call → List Sent × Device
unfolding push_recording_data set_max_queue_chunks clear_recording_buffer init tick terminate
    register_audio_callback set_playing set_recording
step d (pushes samples n) = ([], (push_recording_data d samples n).0)
step d (bounds n) = ([], set_max_queue_chunks d n)
step d clears = ([], clear_recording_buffer d)
step d inits = ([], init d)
step d terminates = ([], terminate d)
step d (registers t) = ([], register_audio_callback d t)
step d starts_playout = ([], set_playing true d)
step d stops_playout = ([], set_playing false d)
step d starts_recording = ([], set_recording true d)
step d stops_recording = ([], set_recording false d)
step d ticks = if ltb 0 d.tasks then tick d else ([], d)

unfoldable pub run : Device → List Call → List Sent × Device
run d [] = ([], d)
run d (c ∷ cs) = let (out, e) = step d c in let (later, f) = run e cs in (out ++ later, f)
