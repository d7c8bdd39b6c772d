-- ===== src/RoomCache.antt =====
-- src/video/room_wrap.cpp: the JS wraps of a Room's remote participants, which the Room caches by SID.
-- A wrap is known by the number of wraps of remote participants made before it for the Room, and a native
-- participant, a SID and an observer are numbers as in twilio_video_node.RoomObserver.
pub mod Stable
pub mod Disposed
use twilio_video_node.Base.{
  ℕ, suc, Bool, true, false, List, [], ◌∷◌, Option, none, some, ◌==◌, if◌then◌else◌,
}
use twilio_video_node.RoomObserver
use twilio_video_node.RoomObserver.{Registry, new_registry, update, get_or_create, close_registry}

-- `participantCache_`, and the observer that each wrap was made with. `has_room` says that `room_` and
-- `observer_` are set.
pub record Cache : Type 0 where
  pub wraps : List (ℕ × ℕ)
  pub made : ℕ
  pub made_with : ℕ → Option ℕ
  pub registry : Registry
  pub has_room : Bool

unfoldable pub find : ℕ → List (ℕ × ℕ) → Option ℕ
find k [] = none
find k ((j, w) ∷ ws) = if j == k then some w else find k ws

unfoldable pub remove : ℕ → List (ℕ × ℕ) → List (ℕ × ℕ)
remove k [] = []
remove k ((j, w) ∷ ws) = let rest = remove k ws in if j == k then rest else (j, w) ∷ rest

unfoldable pub new_cache : Cache
new_cache = record {
  wraps = [];
  made = 0;
  made_with = λ w. none;
  registry = new_registry;
  has_room = true;
}

-- `ForgetParticipantWrap`
unfoldable pub forget_participant_wrap : ℕ → Cache → Cache
unfolding remove
forget_participant_wrap k c = record c { wraps = remove k c.wraps }

-- `Dispose`, as far as it is about the remote participants.
unfoldable pub dispose : Cache → Cache
dispose c = record c { wraps = []; registry = close_registry c.registry; has_room = false }

-- Reads from JS, the delivery of a departure, the end of the Room, and what else befalls the observers.
pub data Op : Type 0 where
  reads : List (ℕ × ℕ) → Op
  speaks : Option ℕ → Op
  forgets : ℕ → Op
  disposes : Op
  observes : RoomObserver.Op → Op

module _ (sid : ℕ → ℕ) where
  -- `NewInstance`, with the observer that the Room has for the participant.
  unfoldable pub new_instance : ℕ → Cache → Cache × ℕ
  unfolding get_or_create
  new_instance p c =
      let (r, b) = get_or_create sid p c.registry in
      (
        record c {
          made = suc c.made;
          made_with = update c.made (some b) c.made_with;
          registry = r;
        },
        c.made,
      )

  unfoldable pub cache_new : ℕ → ℕ → Cache → Cache × ℕ
  unfolding new_instance
  cache_new k p c = let (d, w) = new_instance p c in (record d { wraps = (k, w) ∷ d.wraps }, w)

  -- What the loop does with one participant.
  unfoldable pub cached_or_new : Option ℕ → ℕ → ℕ → Cache → Cache × ℕ
  unfolding cache_new
  cached_or_new none k p c = cache_new k p c
  cached_or_new (some w) k p c = (c, w)

  unfoldable pub each_participant : List (ℕ × ℕ) → Cache → Cache × List ℕ
  unfolding cached_or_new find
  each_participant [] c = (c, [])
  each_participant ((k, p) ∷ ps) c =
      let (d, w) = cached_or_new (find k c.wraps) k p c in
      let (e, ws) = each_participant ps d in (e, w ∷ ws)

  -- The participants that rtc-cpp gives are pairs of a SID and a participant.
  unfoldable pub get_remote_participants : List (ℕ × ℕ) → Cache → Cache × List ℕ
  unfolding each_participant
  get_remote_participants ps c = if c.has_room then each_participant ps c else (c, [])

  unfoldable pub get_dominant_speaker : Option ℕ → Cache → Cache × Option ℕ
  unfolding new_instance
  get_dominant_speaker none c = (c, none)
  get_dominant_speaker (some p) c =
      if c.has_room then (let (d, w) = new_instance p c in (d, some w)) else (c, none)

  unfoldable pub step : Op → Cache → Cache
  unfolding get_remote_participants get_dominant_speaker forget_participant_wrap dispose
      RoomObserver.step
  step (reads ps) c = (get_remote_participants ps c).0
  step (speaks p) c = (get_dominant_speaker p c).0
  step (forgets k) c = forget_participant_wrap k c
  step disposes c = dispose c
  step (observes o) c = record c { registry = RoomObserver.step sid o c.registry }

  unfoldable pub run : List Op → Cache → Cache
  unfolding step
  run [] c = c
  run (o ∷ os) c = run os (step o c)
