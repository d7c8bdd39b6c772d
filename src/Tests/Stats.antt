-- ===== src/Tests/Stats.antt =====
-- src/video/room_wrap.cpp: runs of a Room's statistics, and the theorems on them.
use twilio_video_node.Base.{◌≡◌, ◌≤◌, refl, true, false, List, [], ◌∷◌, ltb}
use twilio_video_node.Async.{open_context, dispatch, shed}
use twilio_video_node.Stats.{
  reports, not_connected, new_room, Op, asks, disconnects, turns, reported, run, step, get_stats,
  tell_not_connected, on_stats, answer, remove, run_next, dispose, has,
}
use twilio_video_node.Stats.Once.{answers, one_if, stats_answered_once}
use twilio_video_node.Stats.Lost.{dispose_leaves_unanswered}

-- A call that is answered, one after a disconnect, and a turn for each.
abbrev some_ops : List Op
some_ops = asks ∷ reported 0 ∷ reported 0 ∷ disconnects ∷ asks ∷ turns ∷ turns ∷ []

answered_both : (run some_ops new_room).answered ≡ (0, reports) ∷ (1, not_connected) ∷ []
unfolding run step get_stats tell_not_connected on_stats answer remove run_next new_room
    open_context dispatch shed
answered_both = refl

stats_answered_once_example :
    answers 0 (run some_ops new_room).answered ≤ one_if (ltb 0 (run some_ops new_room).made)
stats_answered_once_example = stats_answered_once some_ops 0

asked_open : (run (asks ∷ []) new_room).context.closed ≡ false
unfolding run step get_stats new_room open_context
asked_open = refl

asked_unfired : (run (asks ∷ []) new_room).fired 0 ≡ false
unfolding run step get_stats new_room
asked_unfired = refl

asked_registered : has 0 (run (asks ∷ []) new_room).registry ≡ true
unfolding run step get_stats new_room
asked_registered = refl

-- The Room is disposed between the call and the reports.
dispose_leaves_unanswered_example :
    answers 0 (run (turns ∷ reported 0 ∷ turns ∷ []) (dispose (run (asks ∷ []) new_room))).answered
    ≡ 0
dispose_leaves_unanswered_example =
    dispose_leaves_unanswered (asks ∷ []) (turns ∷ reported 0 ∷ turns ∷ []) 0 asked_open
      asked_unfired asked_registered
