-- ===== src/DataTrack/Settled.antt =====
-- src/media/local_data_track_wrap.cpp: every promise of a send is resolved once, and the process is
-- kept alive exactly while one is waiting.
use twilio_video_node.Base.{
  ℕ, ◌≡◌, refl, true, List, [], ◌∷◌, arith, ltb, Bool-cases, inl, inr, false, sym, subst,
  if◌then◌else◌,
}
use twilio_video_node.DataTrack.Pending.{one_if}
use twilio_video_node.DataTrack.{DataTrack, new_instance, destroy}
use twilio_video_node.DataTrack.History.{
  Op, sends, attaches, detaches, settles, processed, drains, destroys, step, run, AreFresh,
}
use twilio_video_node.DataTrack.Valid.{
  IsValid, is_held, resolutions, new_instance-IsValid, settle_pending_if_unpublished-IsValid,
  drain-IsValid, destroy-IsValid, destroy_once,
}
use twilio_video_node.DataTrack.Kept.{
  send-IsValid, attach_room-IsValid, detach_room-IsValid, on_send_processed-IsValid,
}

owned : (t u : DataTrack) → t.owner ≡ true → (if t.owner then u else t) ≡ u
owned t u o = ground arith

unowned : (t u : DataTrack) → t.owner ≡ false → (if t.owner then u else t) ≡ t
unowned t u o = ground arith

if_owner :
    (t u : DataTrack)
    → IsValid t
    → (t.owner ≡ true → IsValid u)
    → IsValid (if t.owner then u else t)
if_owner t u v h = elim (Bool-cases t.owner) [
  | inl o ↦ subst IsValid (sym (owned t u o)) (h o)
  | inr n ↦ subst IsValid (sym (unowned t u n)) v
]

module _ (limit : ℕ) where
  step-IsValid :
      (o : Op) (os : List Op) (t : DataTrack)
      → AreFresh limit (o ∷ os) t
      → IsValid t
      → IsValid (step limit o t)
  unfolding step
  step-IsValid (sends a id) os t f v = if_owner t _ v (λ o. send-IsValid limit a id t o f.0 v)
  step-IsValid attaches os t f v = if_owner t _ v (λ o. attach_room-IsValid t v)
  step-IsValid detaches os t f v = if_owner t _ v (λ o. detach_room-IsValid t v)
  step-IsValid (settles e) os t f v =
      if_owner t _ v (λ o. settle_pending_if_unpublished-IsValid e t v)
  step-IsValid (processed c) os t f v = on_send_processed-IsValid c t v
  step-IsValid drains os t f v = drain-IsValid t v
  step-IsValid destroys os t f v = if_owner t _ v (λ o. destroy-IsValid t v)

  fresh_rest :
      (o : Op) (os : List Op) (t : DataTrack)
      → AreFresh limit (o ∷ os) t
      → AreFresh limit os (step limit o t)
  fresh_rest (sends a id) os t f = f.1
  fresh_rest attaches os t f = f
  fresh_rest _ os t f = f

  history-IsValid :
      (os : List Op) (t : DataTrack) → AreFresh limit os t → IsValid t → IsValid (run limit os t)
  unfolding run
  history-IsValid [] t f v = v
  history-IsValid (o ∷ os) t f v =
      history-IsValid os (step limit o t) (fresh_rest o os t f) (step-IsValid o os t f v)

  -- After any history of a new track in which no message gets the id of one that waits: each promise
  -- made is either resolved or waiting, once in all, and no other is; the process is kept alive exactly
  -- while a promise waits; and none waits once the track is destroyed.
  pub sends_settle_once :
      (os : List Op) → AreFresh limit os new_instance → IsValid (run limit os new_instance)
  sends_settle_once os f = history-IsValid os new_instance f new_instance-IsValid

  -- After such a history the destructor leaves no promise hanging: each that was ever made has been
  -- resolved exactly once, none waits, and the process is not kept alive.
  pub destroy_settles :
      (os : List Op)
      → AreFresh limit os new_instance
      → let t = destroy (run limit os new_instance) in
        ((p : ℕ) → resolutions p t.resolved ≡ one_if (ltb p t.made))
        × (t.pending_sends ≡ [])
        × (is_held t.context.handle ≡ false)
  unfolding destroy
  destroy_settles os f =
      let v = sends_settle_once os f in
      (
        destroy_once (run limit os new_instance) v,
        refl,
        (destroy-IsValid (run limit os new_instance) v).held,
      )
