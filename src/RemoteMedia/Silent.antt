-- ===== src/RemoteMedia/Silent.antt =====
-- The sinks of src/media/remote_video_track_wrap.cpp and remote_audio_track_wrap.cpp that were detached.
use twilio_video_node.Base.{ℕ, ◌<◌, ◌≡◌, refl, ◌∙◌, Bool, true, List, [], ◌∷◌, arith}
use twilio_video_node.Sink.{Sink, close_sink, on_frame, run_next, start_drain, run_taken, run_frame}
use twilio_video_node.RemoteMedia.{
  Track, Op, attaches, detaches, frames, turns, new_track, detach_sink, add_sink, attach_frame_sink,
  deliver, step, run, read_depth,
}
use twilio_video_node.RemoteMedia.Attached.{
  IsSoundAt, sinks-IsSound, run_next-closed, close_sink-closed,
}

module _ {ℓ} {D : Type ℓ} where
  close_sink-delivered : (x : Sink D) → (close_sink x).delivered ≡ x.delivered
  unfolding close_sink
  close_sink-delivered x = ground arith

  -- A closed sink, which calls its callback no more.
  abbrev IsSilent : Track D → Track D → ℕ → Type ℓ
  IsSilent t u s =
      (s < u.made) × ((u.sinks s).closed ≡ true) × ((u.sinks s).delivered ≡ (t.sinks s).delivered)

  -- What a call does to a closed sink.
  on_frame_shut : (make : ℕ → D) (x : Sink D) → x.closed ≡ true → on_frame make x ≡ x
  unfolding on_frame
  on_frame_shut make x c = ground arith

  run_next_shut : (x : Sink D) → x.closed ≡ true → (run_next x).delivered ≡ x.delivered
  unfolding run_next start_drain run_taken run_frame
  run_next_shut x c = ground arith

  add_sink-IsSilent :
      (w : Bool) (depth : ℕ) (t : Track D) (s : ℕ)
      → s < t.made
      → (t.sinks s).closed ≡ true
      → IsSilent t (add_sink w depth t) s
  unfolding add_sink
  add_sink-IsSilent w depth t s l c = ground arith

  detach_sink-IsSilent :
      (w : Bool) (t : Track D) (s : ℕ) → IsSoundAt t s → s < t.made → IsSilent t (detach_sink w t) s
  unfolding detach_sink
  detach_sink-IsSilent w t s r l =
      ground (arith, r.open_one, close_sink-closed (t.sinks s), close_sink-delivered (t.sinks s))

  detach_shut :
      (w : Bool) (t : Track D) (s : ℕ)
      → s < t.made
      → (t.sinks s).closed ≡ true
      → IsSilent t (detach_sink w t) s
  unfolding detach_sink
  detach_shut w t s l c =
      ground (arith, close_sink-closed (t.sinks s), close_sink-delivered (t.sinks s))

  step-IsSilent :
      (o : Op D) (t : Track D) (s : ℕ)
      → s < t.made
      → (t.sinks s).closed ≡ true
      → IsSilent t (step o t) s
  unfolding step attach_frame_sink deliver
  step-IsSilent (attaches w callback depth) t s l c =
      let d = detach_shut w t s l c in
      let a = add_sink-IsSilent w (read_depth depth) (detach_sink w t) s d.0 d.1 in ground arith
  step-IsSilent (detaches w) t s l c = detach_shut w t s l c
  step-IsSilent (frames make) t s l c = ground (arith, on_frame_shut make (t.sinks s) c)
  step-IsSilent (turns n) t s l c =
      ground (arith, run_next_shut (t.sinks s) c, run_next-closed (t.sinks s))

  run-IsSilent :
      (os : List (Op D)) (t : Track D) (s : ℕ)
      → s < t.made
      → (t.sinks s).closed ≡ true
      → ((run os t).sinks s).delivered ≡ (t.sinks s).delivered
  unfolding run
  run-IsSilent [] t s l c = refl
  run-IsSilent (o ∷ os) t s l c =
      let (l', c', d) = step-IsSilent o t s l c in run-IsSilent os (step o t) s l' c' ∙ d

  -- Once a wrap has detached its sink, or replaced it, or is destroyed, no sink that it made before
  -- calls its callback again, whatever is still queued for it and whatever is called.
  pub detached_silent :
      (before after : List (Op D)) (w : Bool) (s : ℕ)
      → let t = run before new_track in
        s < t.made → ((run after (detach_sink w t)).sinks s).delivered ≡ (t.sinks s).delivered
  detached_silent before after w s l =
      let t = run before new_track in
      let (l', c, d) = detach_sink-IsSilent w t s (sinks-IsSound before s) l in
      run-IsSilent after (detach_sink w t) s l' c ∙ d
