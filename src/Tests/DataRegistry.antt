-- ===== src/Tests/DataRegistry.antt =====
-- src/media/remote_data_track_wrap.cpp: a run of the registry of observers, and its theorem on it.
use twilio_video_node.Base.{◌%◌, ℕ, ◌≡◌, refl, List, [], ◌∷◌}
use twilio_video_node.RemoteData.Registry.{
  Op, wraps, closes, frees, releases, new_registry, find, erase, prune, create, reuse, observer_of,
  close_found, close_observer, step, run,
}
use twilio_video_node.RemoteData.Registry.Shared.{IsShared, observer_of-IsShared}

-- The tracks 1 and 11 have one address.
abbrev address : ℕ → ℕ
address t = t % 10

-- A track is freed with its registration left behind, and another one gets its address.
abbrev reused_address : List Op
reused_address = wraps 1 ∷ wraps 2 ∷ wraps 1 ∷ releases 0 ∷ frees 1 ∷ wraps 11 ∷ closes 2 ∷ []

a_new_observer : (observer_of address 11 (run address reused_address new_registry)).1 ≡ 2
unfolding run step observer_of reuse create find erase prune close_observer close_found new_registry
a_new_observer = refl

observer_of-IsShared_example :
    IsShared address 11 (observer_of address 11 (run address reused_address new_registry))
observer_of-IsShared_example = observer_of-IsShared address reused_address 11
