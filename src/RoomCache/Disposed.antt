-- ===== src/RoomCache/Disposed.antt =====
-- src/video/room_wrap.cpp: a Room that is disposed hands out no remote participants.
use twilio_video_node.Base.{ℕ, ◌≡◌, refl, true, List, [], Option, none, some}
use twilio_video_node.RoomObserver
use twilio_video_node.RoomObserver.{Registration, lookup}
use twilio_video_node.RoomObserver.Kept.{closed_registry}
use twilio_video_node.RoomCache.{Cache, dispose, get_remote_participants, get_dominant_speaker}

module _ (sid : ℕ → ℕ) where
  -- After `Dispose` every observer that was on record is closed, and no read makes a wrap.
  pub dispose_closes :
      (ps : List (ℕ × ℕ)) (speaker : Option ℕ) (c : Cache) (k : ℕ) (g : Registration)
      → lookup k c.registry.entries ≡ some g
      → ((dispose c).registry.shut g.observer ≡ true)
        × (get_remote_participants sid ps (dispose c) ≡ (dispose c, []))
        × (get_dominant_speaker sid speaker (dispose c) ≡ (dispose c, none))
  unfolding dispose get_remote_participants get_dominant_speaker RoomObserver.step
  dispose_closes ps none c k g e = ((closed_registry sid c.registry k g e).0, refl, refl)
  dispose_closes ps (some p) c k g e = ((closed_registry sid c.registry k g e).0, refl, refl)
