-- ===== src/Tests/RoomCache.antt =====
-- src/video/room_wrap.cpp: runs of the cache of participants' wraps, and its theorem on them.
use twilio_video_node.Base.{◌%◌, ℕ, ◌≡◌, refl, true, List, [], ◌∷◌, some, arith}
use twilio_video_node.RoomObserver
use twilio_video_node.RoomObserver.{gets}
use twilio_video_node.RoomCache.{
  Op, reads, speaks, forgets, observes, new_cache, find, remove, new_instance, cache_new,
  cached_or_new, each_participant, get_remote_participants, get_dominant_speaker,
  forget_participant_wrap, step, run,
}
use twilio_video_node.RoomCache.Stable.{SparesAll, same_wraps}

abbrev sid : ℕ → ℕ
sid p = p % 10

-- Two participants, by SID.
abbrev both : List (ℕ × ℕ)
both = (1, 1) ∷ (2, 2) ∷ []

-- A third one comes and goes, the second one speaks, and the Room's observers are asked for.
abbrev between : List Op
between = reads ((3, 3) ∷ both) ∷ speaks (some 2) ∷ observes (gets 4) ∷ forgets 3 ∷ []

spared : SparesAll both between
spared = (tt, (tt, (tt, ((λ e. absurd (omega arith), (λ e. absurd (omega arith), tt)), tt))))

third_forgotten :
    (run sid between (get_remote_participants sid both new_cache).0).wraps ≡ (2, 1) ∷ (1, 0) ∷ []
unfolding run step get_remote_participants each_participant cached_or_new cache_new new_instance
    find remove get_dominant_speaker forget_participant_wrap new_cache RoomObserver.get_or_create
    RoomObserver.reuse RoomObserver.create RoomObserver.lookup RoomObserver.erase
    RoomObserver.new_registry RoomObserver.step
third_forgotten = refl

has_room_first : new_cache.has_room ≡ true
unfolding new_cache
has_room_first = refl

same_wraps_example :
    let (d, ws) = get_remote_participants sid both new_cache in
    get_remote_participants sid both (run sid between d) ≡ (run sid between d, ws)
same_wraps_example = same_wraps sid between both new_cache spared has_room_first
