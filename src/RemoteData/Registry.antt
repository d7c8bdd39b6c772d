-- ===== src/RemoteData/Registry.antt =====
-- src/media/remote_data_track_wrap.cpp: the process-wide registry of the observers of remote data tracks.
-- A native track and an observer are numbers. `address` gives the address of a track, which the allocator
-- may give to another one later; an observer is known by the number of observers made before it.
pub mod Filed
pub mod Shared
use twilio_video_node.Base.{
  ℕ, suc, Bool, true, false, ◌&&◌, List, [], ◌∷◌, Option, none, some, ◌==◌, if◌then◌else◌,
}
use twilio_video_node.RoomObserver.{update}

pub record DataTrackRegistration : Type 0 where
  pub track : ℕ
  pub observer : ℕ

-- `g_dataTrackObservers`; which tracks are not freed, and which observers are owned by a wrap; the flag
-- `closed_` of each observer; the observer that each track was last given by `setObserver`; and the track
-- that each observer was made for.
pub record Registry : Type 0 where
  pub entries : List (ℕ × DataTrackRegistration)
  pub made : ℕ
  pub live : ℕ → Bool
  pub owned : ℕ → Bool
  pub closed : ℕ → Bool
  pub attached : ℕ → Option ℕ
  pub made_for : ℕ → ℕ

unfoldable pub find : ℕ → List (ℕ × DataTrackRegistration) → Option DataTrackRegistration
find k [] = none
find k ((j, g) ∷ es) = if j == k then some g else find k es

unfoldable pub erase : ℕ → List (ℕ × DataTrackRegistration) → List (ℕ × DataTrackRegistration)
erase k [] = []
erase k ((j, g) ∷ es) = let rest = erase k es in if j == k then rest else (j, g) ∷ rest

-- `pruneDataTrackObservers`
unfoldable pub prune :
    (live owned : ℕ → Bool) → List (ℕ × DataTrackRegistration) → List (ℕ × DataTrackRegistration)
prune live owned [] = []
prune live owned ((j, g) ∷ es) =
    let rest = prune live owned es in
    if live g.track && owned g.observer then (j, g) ∷ rest else rest

unfoldable pub new_registry : Registry
new_registry = record {
  entries = [];
  made = 0;
  live = λ t. true;
  owned = λ b. false;
  closed = λ b. false;
  attached = λ t. none;
  made_for = λ b. 0;
}

-- Wraps of tracks from the JS thread, the tracks' end, and the last wrap that owns an observer.
pub data Op : Type 0 where
  wraps closes frees releases : ℕ → Op

module _ (address : ℕ → ℕ) where
  unfoldable pub create : ℕ → Registry → Registry × ℕ
  unfolding erase prune
  create t r = (
    record r {
      entries =
          (address t, record { track = t; observer = r.made })
          ∷ erase (address t) (prune r.live r.owned r.entries);
      made = suc r.made;
      owned = update r.made true r.owned;
      attached = update t (some r.made) r.attached;
      made_for = update r.made t r.made_for;
    },
    r.made,
  )

  -- The handles of a registration are weak: the track is the one at hand, and the observer still there.
  unfoldable pub reuse : Option DataTrackRegistration → ℕ → Registry → Registry × ℕ
  unfolding create
  reuse none t r = create t r
  reuse (some g) t r = if g.track == t && r.owned g.observer then (r, g.observer) else create t r

  -- The observer that `NewInstance` binds the wrap to.
  unfoldable pub observer_of : ℕ → Registry → Registry × ℕ
  unfolding find reuse
  observer_of t r = reuse (find (address t) r.entries) t r

  unfoldable pub close_found : Option DataTrackRegistration → ℕ → Registry → Registry
  unfolding erase
  close_found none t r = r
  close_found (some g) t r = record r {
    entries = erase (address t) r.entries;
    closed = if r.owned g.observer then update g.observer true r.closed else r.closed;
  }

  -- `CloseObserver`
  unfoldable pub close_observer : ℕ → Registry → Registry
  unfolding find close_found
  close_observer t r =
      close_found (find (address t) r.entries) t (record r { attached = update t none r.attached })

  unfoldable pub step : Op → Registry → Registry
  unfolding observer_of close_observer
  step (wraps t) r = (observer_of t r).0
  step (closes t) r = close_observer t r
  step (frees t) r = record r { live = update t false r.live }
  step (releases b) r = record r { owned = update b false r.owned }

  unfoldable pub run : List Op → Registry → Registry
  unfolding step
  run [] r = r
  run (o ∷ os) r = run os (step o r)
