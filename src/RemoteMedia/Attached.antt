-- ===== src/RemoteMedia/Attached.antt =====
-- The sinks of src/media/remote_video_track_wrap.cpp and remote_audio_track_wrap.cpp in any history.
use twilio_video_node.Base.{
  Bool-cases, inl, inr, ℕ, ◌≤◌, ◌<◌, ◌≡◌, Bool, true, false, Option, none, some, List, [], ◌∷◌,
  arith,
}
use twilio_video_node.Js.{JsValue}
use twilio_video_node.Sink.{
  Sink, close_sink, on_frame, deliver_frame, run_next, start_drain, run_taken, run_frame,
}
use twilio_video_node.RemoteMedia.{
  Track, Op, attaches, detaches, frames, turns, new_track, detach_sink, add_sink, attach_frame_sink,
  deliver, step, run, is_function, read_depth,
}

module _ {ℓ} {D : Type ℓ} where
  -- One sink of a track.
  pub record IsSoundAt (t : Track D) (s : ℕ) : Type ℓ where
    pub not_dangling : t.registered s ≡ true → t.freed s ≡ false
    pub current : t.frame_sink ≡ some s → (s < t.made) × (t.freed s ≡ false)
    pub open_one : s < t.made → (t.sinks s).closed ≡ false → t.frame_sink ≡ some s
    pub unmade : t.made ≤ s → (t.registered s ≡ false) × (t.freed s ≡ false)

  abbrev pub IsSound : Track D → Type ℓ
  IsSound t = (s : ℕ) → IsSoundAt t s

  on_frame-closed : (make : ℕ → D) (x : Sink D) → (on_frame make x).closed ≡ x.closed
  unfolding on_frame deliver_frame
  on_frame-closed make x = ground arith

  pub run_next-closed : (x : Sink D) → (run_next x).closed ≡ x.closed
  unfolding run_next start_drain run_taken run_frame
  run_next-closed x = ground arith

  pub close_sink-closed : (x : Sink D) → (close_sink x).closed ≡ true
  unfolding close_sink
  close_sink-closed x = ground arith

  detach_sink-IsSoundAt :
      (w : Bool) (t : Track D) (s : ℕ) → IsSoundAt t s → IsSoundAt (detach_sink w t) s
  unfolding detach_sink
  detach_sink-IsSoundAt w t s r = record {
    not_dangling = ground (arith, r.not_dangling);
    current = ground (arith, r.current);
    open_one = ground (arith, r.open_one, close_sink-closed (t.sinks s));
    unmade = ground (arith, r.unmade, r.current);
  }

  detach_sink-frame_sink : (w : Bool) (t : Track D) → (detach_sink w t).frame_sink ≡ none
  unfolding detach_sink
  detach_sink-frame_sink w t = ground arith

  add_sink-IsSoundAt :
      (w : Bool) (depth : ℕ) (t : Track D) (s : ℕ)
      → t.frame_sink ≡ none
      → IsSoundAt t s
      → IsSoundAt (add_sink w depth t) s
  unfolding add_sink
  add_sink-IsSoundAt w depth t s e r = record {
    not_dangling = ground (arith, r.not_dangling, r.unmade);
    current = ground (arith, r.current, r.unmade);
    open_one = ground (arith, r.open_one);
    unmade = ground (arith, r.unmade);
  }

  deliver-IsSoundAt :
      (make : ℕ → D) (t : Track D) (s : ℕ) → IsSoundAt t s → IsSoundAt (deliver make t) s
  unfolding deliver
  deliver-IsSoundAt make t s r = record {
    not_dangling = r.not_dangling;
    current = r.current;
    open_one = ground (arith, r.open_one, on_frame-closed make (t.sinks s));
    unmade = r.unmade;
  }

  turns-IsSoundAt : (n : ℕ) (t : Track D) (s : ℕ) → IsSoundAt t s → IsSoundAt (step (turns n) t) s
  unfolding step
  turns-IsSoundAt n t s r = record {
    not_dangling = r.not_dangling;
    current = r.current;
    open_one = ground (arith, r.open_one, run_next-closed (t.sinks s));
    unmade = r.unmade;
  }

  attach-IsSound :
      (w : Bool) (callback depth : Option JsValue) (t : Track D)
      → IsSound t
      → IsSound (attach_frame_sink w callback depth t)
  unfolding attach_frame_sink
  attach-IsSound w callback depth t r s = elim (Bool-cases (is_function callback)) [
    | inl f ↦ rw f (
        add_sink-IsSoundAt w (read_depth depth) (detach_sink w t) s (detach_sink-frame_sink w t)
          (detach_sink-IsSoundAt w t s (r s)))
    | inr n ↦ rw n (r s)
  ]

  step-IsSound : (o : Op D) (t : Track D) → IsSound t → IsSound (step o t)
  unfolding step
  step-IsSound (attaches w callback depth) t r s = attach-IsSound w callback depth t r s
  step-IsSound (detaches w) t r s = detach_sink-IsSoundAt w t s (r s)
  step-IsSound (frames make) t r s = deliver-IsSoundAt make t s (r s)
  step-IsSound (turns n) t r s = turns-IsSoundAt n t s (r s)

  run-IsSound : (os : List (Op D)) (t : Track D) → IsSound t → IsSound (run os t)
  unfolding run
  run-IsSound [] t r = r
  run-IsSound (o ∷ os) t r = run-IsSound os (step o t) (step-IsSound o t r)

  new_track-IsSound : IsSound (new_track {D = D})
  unfolding new_track
  new_track-IsSound s = record {
    not_dangling = ground arith;
    current = ground arith;
    open_one = ground arith;
    unmade = ground arith;
  }

  -- Whatever is called on a remote track's wrap, and whenever WebRTC's track is gone, each sink in
  -- WebRTC's list has not been deleted, the attached sink has not either, no sink but the attached one
  -- is open, and no sink is in the list or deleted before it is made.
  pub sinks-IsSound : (os : List (Op D)) → IsSound (run os new_track)
  sinks-IsSound os = run-IsSound os new_track new_track-IsSound
