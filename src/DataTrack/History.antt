-- ===== src/DataTrack/History.antt =====
-- src/media/local_data_track_wrap.cpp: the calls of a local data track, in the order of the threads'
-- accesses to it.
use twilio_video_node.Base.{ℕ, ◌≡◌, List, [], ◌∷◌, none, String, if◌then◌else◌}
use twilio_video_node.DataTrack.Pending.{find}
use twilio_video_node.DataTrack.{
  Completion, DataTrack, Argument, send, attach_room, detach_room, settle_pending_if_unpublished,
  on_send_processed, drain, destroy,
}

-- What happens to a track, in order: the methods that JS calls, the callbacks of rtc-cpp, the drains
-- of its queue, and its destruction.
pub data Op : Type 0 where
  sends : Argument → ℕ → Op
  attaches detaches : Op
  settles : String → Op
  processed : Completion → Op
  drains destroys : Op

module _ (limit : ℕ) where
  -- A destroyed object has no methods that could be called.
  unfoldable pub step : Op → DataTrack → DataTrack
  step (sends a id) t = if t.owner then (send limit a id t).0 else t
  step attaches t = if t.owner then attach_room t else t
  step detaches t = if t.owner then detach_room t else t
  step (settles e) t = if t.owner then settle_pending_if_unpublished e t else t
  step (processed c) t = on_send_processed c t
  step drains t = drain t
  step destroys t = if t.owner then destroy t else t

  unfoldable pub run : List Op → DataTrack → DataTrack
  run [] t = t
  run (o ∷ os) t = run os (step o t)

  -- rtc-cpp gives each message an id that no waiting message has.
  abbrev pub AreFresh : List Op → DataTrack → Type 0
  AreFresh [] t = Unit
  AreFresh (sends a id ∷ os) t =
      (find id t.pending_sends ≡ none) × AreFresh os (step (sends a id) t)
  AreFresh (o ∷ os) t = AreFresh os (step o t)
