-- ===== src/Device/Stream.antt =====
-- src/media/node_audio_device.cpp: the samples that reach WebRTC are those that were pushed.
use twilio_video_node.Base.{
  ℕ, zero, suc, ◌-◌, ◌<◌, ◌≡◌, refl, sym, ap, ap₂, ◌∙◌, true, List, [], ◌∷◌, ◌++◌, append_assoc,
  append-nil, map, arith, min, length, length-take, take-append-drop, take, drop, replicate, All,
  some, if◌then◌else◌,
}
use mathlib.Core.List.{map-append}
use twilio_video_node.Device.{
  Device, Sent, recorded_data_is_available, need_more_play_data, Call, pushes, bounds, clears,
  inits, terminates, registers, starts_playout, stops_playout, starts_recording, stops_recording,
  ticks, silence, next_frame, push_recording_data, step, run,
}

-- The first 480 samples of a queue, or all of a shorter one.
unfoldable pub chunk : List ℕ → List ℕ
chunk b = take 480 b

-- A chunk, filled up to 480 samples with silence.
abbrev pub padded : List ℕ → List ℕ
padded samples = samples ++ replicate (480 - length samples) 0

-- The frames among what was sent.
abbrev pub frames : List Sent → List (List ℕ)
frames [] = []
frames (recorded_data_is_available t frame samples bytes channel_count rate ∷ out) =
    frame ∷ frames out
frames (need_more_play_data t samples bytes channel_count rate ∷ out) = frames out

abbrev pub joined : List (List ℕ) → List ℕ
joined [] = []
joined (c ∷ cs) = c ++ joined cs

-- What the pushes of a history add to the queue, in order.
pub accepted : Device → List Call → List ℕ
accepted d [] = []
accepted d (pushes samples n ∷ cs) =
    let rest = accepted (push_recording_data d samples n).0 cs in
    if (push_recording_data d samples n).1 then take n samples ++ rest else rest
accepted d (c ∷ cs) = accepted (step d c).1 cs

-- What is queued at each repeat of the task.
pub queued : Device → List Call → List (List ℕ)
queued d [] = []
queued d (ticks ∷ cs) = d.rec_buffer ∷ queued (step d ticks).1 cs
queued d (c ∷ cs) = queued (step d c).1 cs

-- Pushes, changes of the bound, and repeats of the task.
abbrev pub IsStreaming : Call → Type 0
IsStreaming (pushes samples n) = Unit
IsStreaming (bounds n) = Unit
IsStreaming ticks = Unit
IsStreaming _ = ⊥

-- A device that records into a transport.
pub record IsSending (d : Device) : Type 0 where
  pub running : 0 < d.tasks
  pub recording_on : d.recording ≡ true
  pub registered : (t : ℕ) × (d.audio_transport ≡ some t)

drop-replicate : (n k x : ℕ) → drop n (replicate k x) ≡ replicate (k - n) x
drop-replicate zero k x = let e : k ≡ k - 0 = omega arith in ap (λ m. replicate m x) e
drop-replicate (suc n) zero x = let e : 0 ≡ 0 - suc n = omega arith in ap (λ m. replicate m x) e
drop-replicate (suc n) (suc k) x =
    let e : k - n ≡ suc k - suc n = omega arith in drop-replicate n k x ∙ ap (λ m. replicate m x) e

drop-silence : (n : ℕ) → drop n silence ≡ replicate (480 - n) 0
unfolding silence
drop-silence n = drop-replicate n 480 0

take-min : (n : ℕ) (b : List ℕ) → take (min (length b) n) b ≡ take n b
take-min zero [] = let e : min 0 0 ≡ 0 = omega arith in ap (λ m. take m []) e
take-min (suc n) [] = let e : min 0 (suc n) ≡ 0 = omega arith in ap (λ m. take m []) e
take-min zero (x ∷ b) =
    let e : min (suc (length b)) 0 ≡ 0 = omega arith in ap (λ m. take m (x ∷ b)) e
take-min (suc n) (x ∷ b) =
    let e : min (suc (length b)) (suc n) ≡ suc (min (length b) n) = omega arith in
    ap (λ m. take m (x ∷ b)) e ∙ ap (λ r. x ∷ r) (take-min n b)

next_frame-padded : (b : List ℕ) → next_frame b ≡ padded (chunk b)
unfolding next_frame chunk
next_frame-padded b =
    ap₂ ◌++◌ (take-min 480 b) (
      drop-silence (min (length b) 480)
      ∙ ap (λ m. replicate m 0) (omega (arith, length-take 480 b)))

chunk-append-drop : (b : List ℕ) → chunk b ++ drop (min (length b) 480) b ≡ b
unfolding chunk
chunk-append-drop b =
    ap (λ c. c ++ drop (min (length b) 480) b) (sym (take-min 480 b))
    ∙ take-append-drop (min (length b) 480) b

frames-append : (xs ys : List Sent) → frames (xs ++ ys) ≡ frames xs ++ frames ys
frames-append [] ys = refl
frames-append (recorded_data_is_available t f s b c r ∷ xs) ys = ap (◌∷◌ f) (frames-append xs ys)
frames-append (need_more_play_data t s b c r ∷ xs) ys = frames-append xs ys

frames-step :
    (d : Device)
    → IsSending d
    → (frames (step d ticks).0 ≡ padded (chunk d.rec_buffer) ∷ [])
      × (chunk d.rec_buffer ++ (step d ticks).1.rec_buffer ≡ d.rec_buffer)
      × IsSending (step d ticks).1
unfolding step
frames-step d v =
    let f = next_frame-padded d.rec_buffer in
    let c = chunk-append-drop d.rec_buffer in (ground (arith, f), ground (arith, c), ground arith)

-- The frames sent carry the whole of what is queued, up to 480 samples, and the history sends what was
-- queued and pushed, in order.
pub record Carries (d : Device) (cs : List Call) : Type 0 where
  pub frames_full : frames (run d cs).0 ≡ map (λ b. padded (chunk b)) (queued d cs)
  pub complete :
      joined (map chunk (queued d cs)) ++ (run d cs).1.rec_buffer ≡ d.rec_buffer ++ accepted d cs

joined-append : (xs ys : List (List ℕ)) → joined (xs ++ ys) ≡ joined xs ++ joined ys
joined-append [] ys = refl
joined-append (x ∷ xs) ys =
    ap (◌++◌ x) (joined-append xs ys) ∙ sym (append_assoc x (joined xs) (joined ys))

push-rec_buffer :
    (d : Device) (samples : List ℕ) (n : ℕ) (cs : List Call)
    → (step d (pushes samples n)).1.rec_buffer ++ accepted (step d (pushes samples n)).1 cs
      ≡ d.rec_buffer ++ accepted d (pushes samples n ∷ cs)
unfolding step accepted
push-rec_buffer d samples n cs = ground (
  arith,
  append_assoc d.rec_buffer (take n samples)
      (accepted (record d { rec_buffer = d.rec_buffer ++ take n samples }) cs),
)

push-IsSending :
    (d : Device) (samples : List ℕ) (n : ℕ) → IsSending d → IsSending (step d (pushes samples n)).1
unfolding step
push-IsSending d samples n v = ground arith

ticks-joined :
    (d : Device) (cs : List Call)
    → chunk d.rec_buffer ++ (step d ticks).1.rec_buffer ≡ d.rec_buffer
    → (chunk d.rec_buffer ++ []) ++ ((step d ticks).1.rec_buffer ++ accepted (step d ticks).1 cs)
      ≡ d.rec_buffer ++ accepted d (ticks ∷ cs)
unfolding accepted
ticks-joined d cs c = rw (append-nil (chunk d.rec_buffer)) (
    sym
      (append_assoc (chunk d.rec_buffer) (step d ticks).1.rec_buffer (accepted (step d ticks).1 cs))
    ∙ ap (λ b. b ++ accepted (step d ticks).1 cs) c)

cons-Carries :
    (d : Device) (c : Call) (cs : List Call) (here : List (List ℕ))
    → queued d (c ∷ cs) ≡ here ++ queued (step d c).1 cs
    → frames (step d c).0 ≡ map (λ b. padded (chunk b)) here
    → joined (map chunk here) ++ ((step d c).1.rec_buffer ++ accepted (step d c).1 cs)
      ≡ d.rec_buffer ++ accepted d (c ∷ cs)
    → Carries (step d c).1 cs
    → Carries d (c ∷ cs)
unfolding run
cons-Carries d c cs here q f j v = record {
  frames_full =
      frames-append (step d c).0 (run (step d c).1 cs).0
      ∙ ap₂ ◌++◌ f v.frames_full
      ∙ sym (map-append (λ b. padded (chunk b)) here (queued (step d c).1 cs))
      ∙ ap (map (λ b. padded (chunk b))) (sym q);
  complete =
      ap (λ x. joined (map chunk x) ++ (run (step d c).1 cs).1.rec_buffer) q
      ∙ ap (λ x. joined x ++ (run (step d c).1 cs).1.rec_buffer)
          (map-append chunk here (queued (step d c).1 cs))
      ∙ rw (joined-append (map chunk here), append_assoc (joined (map chunk here)))
          (ap (◌++◌ (joined (map chunk here))) v.complete ∙ j);
}

-- While a device records into a transport, with any pushes, changes of the bound and repeats of the
-- task: each repeat sends one frame, of the first 480 samples queued, or of all where there are fewer,
-- filled up to 480 with silence; and the samples sent, with what is still queued behind them, are those
-- that were queued at the start and those of the accepted pushes: none lost, repeated or out of order.
pub run-Carries : (d : Device) (cs : List Call) → All IsStreaming cs → IsSending d → Carries d cs
run-Carries d [] h v =
    unfold run accepted queued in
    (record { frames_full = refl; complete = sym (append-nil d.rec_buffer) })
run-Carries d (pushes samples n ∷ cs) h v =
    cons-Carries d (pushes samples n) cs [] (unfold queued in refl) (unfold step in refl)
      (push-rec_buffer d samples n cs)
      (run-Carries (step d (pushes samples n)).1 cs h.1 (push-IsSending d samples n v))
run-Carries d (bounds n ∷ cs) h v =
    cons-Carries d (bounds n) cs [] (unfold queued in refl) (unfold step in refl)
      (unfold step accepted in refl)
      (run-Carries (step d (bounds n)).1 cs h.1 (unfold step in (ground arith)))
run-Carries d (ticks ∷ cs) h v =
    let (f, c, w) = frames-step d v in
    cons-Carries d ticks cs (d.rec_buffer ∷ []) (unfold queued in refl) f (ticks-joined d cs c)
      (run-Carries (step d ticks).1 cs h.1 w)
run-Carries d (clears ∷ cs) h v = absurd h.0
run-Carries d (inits ∷ cs) h v = absurd h.0
run-Carries d (terminates ∷ cs) h v = absurd h.0
run-Carries d (registers t ∷ cs) h v = absurd h.0
run-Carries d (starts_playout ∷ cs) h v = absurd h.0
run-Carries d (stops_playout ∷ cs) h v = absurd h.0
run-Carries d (starts_recording ∷ cs) h v = absurd h.0
run-Carries d (stops_recording ∷ cs) h v = absurd h.0
