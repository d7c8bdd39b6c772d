-- ===== src/RemoteData/Heard.antt =====
-- src/media/remote_data_track_wrap.cpp: which messages reach the callback of a wrap.
use twilio_video_node.Base.{
  ℕ, ◌<◌, ◌≡◌, refl, sym, ap₂, ◌∙◌, true, false, List, [], ◌∷◌, ◌++◌, arith,
}
use twilio_video_node.RemoteData.{
  Observer, Op, arrives, creates, listens, bind, new_instance, on_message, close_observer,
  set_callback, run_next, run_queued, die, unbind, close_wrap, step, run, new_observer,
}
use twilio_video_node.RemoteData.Channel.{Channel, channel_step, channel_run, new_channel}
use twilio_video_node.RemoteData.Inbox.{
  IsHearing, Stays, messages, channel_run-IsHearing, new_subscriber,
}
use twilio_video_node.RemoteData.Refine.{Refines, run-Refines, run-Refines_channel, step-Refines}

module _ {ℓ} {M : Type ℓ} where
  -- What is kept on a closed observer.
  abbrev IsStill : Observer M → Observer M → ℕ → Type ℓ
  IsStill o u w = (u.closed ≡ true) × (w < u.made) × ((u.wraps w).heard ≡ (o.wraps w).heard)

  step-IsStill :
      (p : Op M) (o : Observer M) (w : ℕ) → o.closed ≡ true → w < o.made → IsStill o (step p o) w
  unfolding step close_observer new_instance bind set_callback run_next run_queued die unbind
      close_wrap on_message
  step-IsStill (arrives m) o w c l = ground arith
  step-IsStill p o w c l = ground arith

  still :
      (ps : List (Op M)) (o : Observer M) (w : ℕ)
      → o.closed ≡ true
      → w < o.made
      → ((run ps o).wraps w).heard ≡ (o.wraps w).heard
  unfolding run
  still [] o w c l = refl
  still (p ∷ ps) o w c l =
      let (c', l', h) = step-IsStill p o w c l in still ps (step p o) w c' l' ∙ h

  close_observer-closed :
      (o : Observer M)
      → ((close_observer o).closed ≡ true)
        × ((close_observer o).made ≡ o.made)
        × ((w : ℕ) → ((close_observer o).wraps w).heard ≡ (o.wraps w).heard)
  unfolding close_observer
  close_observer-closed o = (ground arith, ground arith, λ w. ground arith)

  -- Once a track's observer is closed, no wrap made before hears anything more, whatever is still
  -- queued for it and whatever is called.
  pub closed_hears_nothing :
      (ps : List (Op M)) (o : Observer M) (w : ℕ)
      → w < o.made
      → ((run ps (close_observer o)).wraps w).heard ≡ (o.wraps w).heard
  closed_hears_nothing ps o w l =
      let (c, m, h) = close_observer-closed o in
      still ps (close_observer o) w c (omega (arith, m)) ∙ h w

  heard_as_channel :
      (ps : List (Op M)) (w : ℕ) (o : Observer M) (c : Channel M)
      → Refines o c
      → Stays w ps
      → w < c.count
      → IsHearing (c.subscribers w) []
      → messages ps ≡ ((run ps o).wraps w).heard ++ ((run ps o).wraps w).context.queue
  heard_as_channel ps w o c r k l h =
      let (s, b, e) = channel_run-IsHearing ps w c [] k l h in
      let u = (run-Refines ps o c r).2 w in
      e ∙ ap₂ (λ x y. x ++ y) (sym u.heard) (sym (u.tracked s).1)

  -- A wrap made on an open observer, whose callback is set at once, and that is then neither destroyed
  -- nor told to stop while the observer stays open: what it has heard, with what waits in its queue, is
  -- every message that has arrived since, once each and in order, whatever else is called.
  pub hears_all :
      (qs ps : List (Op M))
      → (run qs new_observer).closed ≡ false
      → let w = (run qs new_observer).made in
        Stays w ps
        → let x = (run ps (step (listens w) (step creates (run qs new_observer)))).wraps w in
          messages ps ≡ x.heard ++ x.context.queue
  hears_all qs ps k st =
      let o = run qs new_observer in
      let c = channel_run qs new_channel in
      let r = run-Refines_channel qs in
      let (l, h) = new_subscriber c o.made (sym r.0 ∙ k) r.1 in
      let made = step-Refines creates o c r in
      heard_as_channel ps o.made (step (listens o.made) (step creates o))
        (channel_step (listens o.made) (channel_step creates c))
        (step-Refines (listens o.made) (step creates o) (channel_step creates c) made) st l h
