-- ===== src/Device/Bounds.antt =====
-- src/media/node_audio_device.cpp: the bound of the publish queue and the life of the device's task.
use twilio_video_node.Base.{
  ℕ, ◌+◌, ◌*◌, ◌^◌, ◌≤◌, ◌<◌, ◌≡◌, ◌⊎◌, true, false, List, [], ◌∷◌, ◌++◌, arith, min, length,
  length-append, length-take, length-drop, take, All, if◌then◌else◌,
}
use twilio_video_node.Device.{
  Device, Call, pushes, ticks, samples_per_10_ms, create, push_recording_data, step, run,
}

-- The bound is in its range, the buffer within the largest bound, and one task runs exactly while the
-- device is initialised.
pub record IsValid (d : Device) : Type 0 where
  pub bound_low : 1 ≤ d.max_queue_chunks
  pub bound_high : d.max_queue_chunks ≤ 4800
  pub buffered : length d.rec_buffer ≤ 4800 * 480
  pub one_task : d.tasks ≡ (if d.initialized then 1 else 0)

-- A push that a caller can make: the samples are there, and not more than memory holds.
abbrev pub IsSane : Call → Type 0
IsSane (pushes samples n) = (n ≤ length samples) × (n ≤ 2 ^ 63)
IsSane _ = Unit

pub create-IsValid : IsValid create
unfolding create
create-IsValid = omega arith

step-IsValid : (d : Device) (c : Call) → IsSane c → IsValid d → IsValid (step d c).1
unfolding step
step-IsValid d (pushes samples n) h v =
    ground (arith, length-append d.rec_buffer (take n samples), length-take n samples)
step-IsValid d ticks h v =
    ground (arith, length-drop (min (length d.rec_buffer) samples_per_10_ms) d.rec_buffer)
step-IsValid d _ h v = ground arith

-- A device keeps its bound between 1 and 4800 chunks, never holds more than 48 s of samples, and runs
-- one task while it is initialised and none otherwise, whatever is called on it in whatever order, if
-- each push holds the samples that it says and not more than 2^63.
pub device_bounded :
    (d : Device) (cs : List Call) → All IsSane cs → IsValid d → IsValid (run d cs).1
unfolding run
device_bounded d [] h v = v
device_bounded d (c ∷ cs) h v = device_bounded (step d c).1 cs h.1 (step-IsValid d c h.0 v)

-- A push is taken whole or not at all, and no sum wraps: where the queue and the write fit the bound,
-- the samples are appended, `true` is returned and the queue is within its bound; otherwise nothing
-- changes and `false` is returned.
pub push_whole :
    (d : Device) (samples : List ℕ) (n : ℕ)
    → IsValid d
    → n ≤ length samples
    → n ≤ 2 ^ 63
    → let (e, accepted) = push_recording_data d samples n in
      ((accepted ≡ true)
        × (e ≡ record d { rec_buffer = d.rec_buffer ++ take n samples })
        × (length e.rec_buffer ≡ length d.rec_buffer + n)
        × (length e.rec_buffer ≤ d.max_queue_chunks * samples_per_10_ms))
      ⊎ ((accepted ≡ false)
          × (e ≡ d)
          × (d.max_queue_chunks * samples_per_10_ms < length d.rec_buffer + n))
unfolding push_recording_data
push_whole d samples n v m h =
    ground (arith, length-append d.rec_buffer (take n samples), length-take n samples)
