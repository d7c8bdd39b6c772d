-- ===== src/RemoteData/Refine.antt =====
-- src/media/remote_data_track_wrap.cpp: the observer of a track implements the channel of
-- twilio_video_node.RemoteData.Channel.
use twilio_video_node.Base.{ℕ, ◌≤◌, ◌≡◌, refl, true, false, ◌&&◌, not, List, [], ◌∷◌, arith, ltb}
use twilio_video_node.Async.{open_context, close}
use twilio_video_node.RemoteData.{
  Observer, Op, arrives, creates, closes, listens, stops_listening, runs, dies, unbinds,
  closes_context, bind, new_wrap, new_instance, on_message, close_observer, set_callback, run_next,
  run_queued, call_back, die, unbind, close_wrap, living, step, run, new_observer,
}
use twilio_video_node.RemoteData.Channel.{Channel, channel_step, channel_run, new_channel}
use twilio_video_node.RemoteData.Targets.{
  count, count-append, count-without, count-living, to_each-IsGiven,
}

module _ {ℓ} {M : Type ℓ} where
  -- One wrap and its subscriber. Where it is subscribed, it is a target once.
  pub record RefinesAt (o : Observer M) (c : Channel M) (w : ℕ) : Type ℓ where
    pub heard : (o.wraps w).heard ≡ (c.subscribers w).heard
    pub there : (c.subscribers w).subscribed ≡ (ltb w o.made && ((o.wraps w).alive && not o.closed))
    pub tracked :
        (c.subscribers w).subscribed ≡ true
        → ((o.wraps w).callback ≡ (c.subscribers w).listening)
          × ((o.wraps w).context.queue ≡ (c.subscribers w).inbox)
          × ((o.wraps w).context.closed ≡ false)
          × ((o.wraps w).context.max_queue_depth ≡ 0)
          × (count w o.targets ≡ 1)
    pub fresh : o.made ≤ w → count w o.targets ≡ 0

  abbrev pub Refines : Observer M → Channel M → Type ℓ
  Refines o c = (o.closed ≡ c.closed) × (o.made ≡ c.count) × ((w : ℕ) → RefinesAt o c w)

  closes-RefinesAt :
      (o : Observer M) (c : Channel M) (w : ℕ)
      → o.closed ≡ c.closed
      → RefinesAt o c w
      → RefinesAt (step closes o) (channel_step closes c) w
  unfolding step close_observer channel_step
  closes-RefinesAt o c w e r = record {
    heard = ground (arith, r.heard);
    there = ground arith;
    tracked = ground arith;
    fresh = ground (arith, r.fresh);
  }

  creates-RefinesAt :
      (o : Observer M) (c : Channel M) (w : ℕ)
      → o.closed ≡ c.closed
      → o.made ≡ c.count
      → RefinesAt o c w
      → RefinesAt (step creates o) (channel_step creates c) w
  unfolding step new_instance bind new_wrap open_context channel_step
  creates-RefinesAt o c w e n r = record {
    heard = ground (arith, r.heard);
    there = ground (arith, r.there);
    tracked = ground (arith, r.tracked, r.fresh, r.there, count-append w o.made o.targets);
    fresh = ground (arith, r.fresh, count-append w o.made o.targets);
  }

  listens-RefinesAt :
      (v : ℕ) (o : Observer M) (c : Channel M) (w : ℕ)
      → RefinesAt o c w
      → RefinesAt (step (listens v) o) (channel_step (listens v) c) w
  unfolding step set_callback channel_step
  listens-RefinesAt v o c w r = record {
    heard = ground (arith, r.heard);
    there = ground (arith, r.there);
    tracked = ground (arith, r.tracked, r.there);
    fresh = ground (arith, r.fresh);
  }

  stops_listening-RefinesAt :
      (v : ℕ) (o : Observer M) (c : Channel M) (w : ℕ)
      → RefinesAt o c w
      → RefinesAt (step (stops_listening v) o) (channel_step (stops_listening v) c) w
  unfolding step set_callback channel_step
  stops_listening-RefinesAt v o c w r = record {
    heard = ground (arith, r.heard);
    there = ground (arith, r.there);
    tracked = ground (arith, r.tracked, r.there);
    fresh = ground (arith, r.fresh);
  }

  dies-RefinesAt :
      (v : ℕ) (o : Observer M) (c : Channel M) (w : ℕ)
      → RefinesAt o c w
      → RefinesAt (step (dies v) o) (channel_step (dies v) c) w
  unfolding step die channel_step
  dies-RefinesAt v o c w r = record {
    heard = ground (arith, r.heard);
    there = ground (arith, r.there);
    tracked = ground (arith, r.tracked, r.there);
    fresh = ground (arith, r.fresh);
  }

  unbinds-RefinesAt :
      (v : ℕ) (o : Observer M) (c : Channel M) (w : ℕ)
      → RefinesAt o c w
      → RefinesAt (step (unbinds v) o) (channel_step (unbinds v) c) w
  unfolding step unbind channel_step
  unbinds-RefinesAt v o c w r = record {
    heard = ground (arith, r.heard);
    there = ground (arith, r.there);
    tracked = ground (arith, r.tracked, r.there, count-without w v o.targets);
    fresh = ground (arith, r.fresh, count-without w v o.targets);
  }

  closes_context-RefinesAt :
      (v : ℕ) (o : Observer M) (c : Channel M) (w : ℕ)
      → RefinesAt o c w
      → RefinesAt (step (closes_context v) o) (channel_step (closes_context v) c) w
  unfolding step close_wrap close channel_step
  closes_context-RefinesAt v o c w r = record {
    heard = ground (arith, r.heard);
    there = ground (arith, r.there);
    tracked = ground (arith, r.tracked, r.there);
    fresh = ground (arith, r.fresh);
  }

  runs-RefinesAt :
      (v : ℕ) (o : Observer M) (c : Channel M) (w : ℕ)
      → RefinesAt o c w
      → RefinesAt (step (runs v) o) (channel_step (runs v) c) w
  unfolding step run_next run_queued call_back channel_step
  runs-RefinesAt v o c w r = record {
    heard = ground (arith, r.heard, r.tracked, r.there);
    there = ground (arith, r.there, r.tracked);
    tracked = ground (arith, r.tracked, r.there);
    fresh = ground (arith, r.fresh);
  }

  arrives-RefinesAt :
      (m : M) (o : Observer M) (c : Channel M) (w : ℕ)
      → RefinesAt o c w
      → RefinesAt (step (arrives m) o) (channel_step (arrives m) c) w
  unfolding step on_message channel_step
  arrives-RefinesAt m o c w r =
      let kept = living o.wraps o.targets in
      let g = to_each-IsGiven m kept (record o { targets = kept }) in
      record {
        heard = ground (arith, r.heard, r.there, (g.3 w).2);
        there = ground (arith, r.there, (g.3 w).0, g.0, g.1);
        tracked = ground (
          arith,
          r.tracked,
          r.there,
          (g.3 w).1,
          (g.3 w).3,
          g.2,
          count-living w o.wraps o.targets,
        );
        fresh = ground (arith, r.fresh, g.1, g.2, count-living w o.wraps o.targets);
      }

  step-closed :
      (p : Op M) (o : Observer M) (c : Channel M)
      → Refines o c
      → (step p o).closed ≡ (channel_step p c).closed
  unfolding step close_observer new_instance bind set_callback run_next run_queued die unbind
      close_wrap on_message channel_step
  step-closed (arrives m) o c r =
      let kept = living o.wraps o.targets in
      ground (arith, (to_each-IsGiven m kept (record o { targets = kept })).0)
  step-closed p o c r = ground arith

  step-made :
      (p : Op M) (o : Observer M) (c : Channel M)
      → Refines o c
      → (step p o).made ≡ (channel_step p c).count
  unfolding step close_observer new_instance bind set_callback run_next run_queued die unbind
      close_wrap on_message channel_step
  step-made (arrives m) o c r =
      let kept = living o.wraps o.targets in
      ground (arith, (to_each-IsGiven m kept (record o { targets = kept })).1)
  step-made p o c r = ground arith

  step-RefinesAt :
      (p : Op M) (o : Observer M) (c : Channel M) (w : ℕ)
      → Refines o c
      → RefinesAt (step p o) (channel_step p c) w
  step-RefinesAt (arrives m) o c w (e, n, r) = arrives-RefinesAt m o c w (r w)
  step-RefinesAt creates o c w (e, n, r) = creates-RefinesAt o c w e n (r w)
  step-RefinesAt closes o c w (e, n, r) = closes-RefinesAt o c w e (r w)
  step-RefinesAt (listens v) o c w (e, n, r) = listens-RefinesAt v o c w (r w)
  step-RefinesAt (stops_listening v) o c w (e, n, r) = stops_listening-RefinesAt v o c w (r w)
  step-RefinesAt (runs v) o c w (e, n, r) = runs-RefinesAt v o c w (r w)
  step-RefinesAt (dies v) o c w (e, n, r) = dies-RefinesAt v o c w (r w)
  step-RefinesAt (unbinds v) o c w (e, n, r) = unbinds-RefinesAt v o c w (r w)
  step-RefinesAt (closes_context v) o c w (e, n, r) = closes_context-RefinesAt v o c w (r w)

  pub step-Refines :
      (p : Op M) (o : Observer M) (c : Channel M)
      → Refines o c
      → Refines (step p o) (channel_step p c)
  step-Refines p o c r = (step-closed p o c r, step-made p o c r, λ w. step-RefinesAt p o c w r)

  pub run-Refines :
      (ps : List (Op M)) (o : Observer M) (c : Channel M)
      → Refines o c
      → Refines (run ps o) (channel_run ps c)
  unfolding run channel_run
  run-Refines [] o c r = r
  run-Refines (p ∷ ps) o c r = run-Refines ps (step p o) (channel_step p c) (step-Refines p o c r)

  new_observer-Refines : Refines (new_observer {M = M}) new_channel
  unfolding new_observer new_wrap
  new_observer-Refines = (
    refl,
    refl,
    λ w. record { heard = refl; there = ground arith; tracked = ground arith; fresh = λ h. refl },
  )

  -- The observer of a track and its wraps do what a channel with subscribers does. After any calls, in
  -- any order, each wrap has heard what its subscriber has; a wrap is alive, on an observer that is
  -- not closed, exactly where its subscriber is subscribed, and it then stands once among the targets,
  -- and its queue, which is open, is the inbox of the subscriber.
  pub run-Refines_channel :
      (ps : List (Op M)) → Refines (run ps new_observer) (channel_run ps new_channel)
  run-Refines_channel ps = run-Refines ps new_observer new_channel new_observer-Refines
