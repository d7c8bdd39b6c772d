-- ===== src/Tests/Device.antt =====
-- src/media/node_audio_device.cpp: runs of the device, and its theorems on them.
use twilio_video_node.Base.{
  ◌+◌, ◌*◌, ◌≤◌, ◌<◌, ◌≡◌, ◌⊎◌, refl, true, false, List, [], ◌∷◌, ◌++◌, some, length, take, arith,
}
use twilio_video_node.Device.{
  Device, Call, pushes, bounds, inits, terminates, ticks, starts_recording, registers, create,
  push_recording_data, run, samples_per_10_ms, set_max_queue_chunks,
}
use twilio_video_node.Device.Bounds.{IsValid, create-IsValid, device_bounded, push_whole}
use twilio_video_node.Device.Stream.{run-Carries, Carries, IsSending}

-- The bound is kept between 1 and 4800 chunks.
bound_clamped : (set_max_queue_chunks create 9000).max_queue_chunks ≡ 4800
unfolding set_max_queue_chunks create
bound_clamped = refl

abbrev some_calls : List Call
some_calls =
    inits
    ∷ registers (some 1)
    ∷ starts_recording
    ∷ pushes (1 ∷ 2 ∷ 3 ∷ []) 2
    ∷ ticks
    ∷ terminates
    ∷ []

device_bounded_example : IsValid (run create some_calls).1
device_bounded_example =
    device_bounded create some_calls (tt, (tt, (tt, ((omega arith, omega arith), (tt, (tt, tt))))))
      create-IsValid

push_whole_example :
    let (e, accepted) = push_recording_data create (1 ∷ 2 ∷ 3 ∷ []) 2 in
    ((accepted ≡ true)
      × (e ≡ record create { rec_buffer = create.rec_buffer ++ take 2 (1 ∷ 2 ∷ 3 ∷ []) })
      × (length e.rec_buffer ≡ length create.rec_buffer + 2)
      × (length e.rec_buffer ≤ create.max_queue_chunks * samples_per_10_ms))
    ⊎ ((accepted ≡ false)
        × (e ≡ create)
        × (create.max_queue_chunks * samples_per_10_ms < length create.rec_buffer + 2))
push_whole_example = push_whole create (1 ∷ 2 ∷ 3 ∷ []) 2 create-IsValid (omega arith) (omega arith)

abbrev recording : Device
recording = record {
  rec_buffer = 5 ∷ [];
  max_queue_chunks = 1;
  audio_transport = some 1;
  initialized = true;
  playing = false;
  recording = true;
  tasks = 1;
}

abbrev streaming_calls : List Call
streaming_calls = pushes (1 ∷ 2 ∷ []) 2 ∷ ticks ∷ bounds 3 ∷ pushes (3 ∷ []) 1 ∷ []

recording-IsSending : IsSending recording
recording-IsSending = record { running = omega arith; recording_on = refl; registered = (1, refl) }

run-Carries_example : Carries recording streaming_calls
run-Carries_example =
    run-Carries recording streaming_calls (tt, (tt, (tt, (tt, tt)))) recording-IsSending
