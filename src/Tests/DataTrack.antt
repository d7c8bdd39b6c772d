-- ===== src/Tests/DataTrack.antt =====
-- src/media/local_data_track_wrap.cpp: runs of a data track, and its theorems on them.
use twilio_video_node.Base.{
  ℕ, suc, ◌≤◌, ◌<◌, ◌≡◌, ◌⊎◌, refl, true, false, List, [], ◌∷◌, ◌++◌, none, some, length, ltb,
  arith,
}
use twilio_video_node.Async.{open_context, dispatch, shed, ref, unref}
use twilio_video_node.DataTrack.{
  SendResult, DataTrack, Completion, string, SendError, threw, promise, new_instance, send,
  send_bytes, send_argument, track_send, attach_room, settle_sends, settle_send, settle_found,
  on_send_processed, drain, destroy,
}
use twilio_video_node.DataTrack.Pending.{one_if, emplace, find, erase}
use twilio_video_node.DataTrack.History.{
  Op, sends, attaches, detaches, settles, processed, drains, step, run, AreFresh,
}
use twilio_video_node.DataTrack.Valid.{IsValid, resolutions, is_held}
use twilio_video_node.DataTrack.Settled.{sends_settle_once, destroy_settles}
use twilio_video_node.DataTrack.Send.{message, IsOutcome, send_checked, send_resolved}

abbrev sent_7 : Completion
sent_7 = record { id = 7; ok = true; error = "" }

-- Two sends in a Room, of which one is processed, and a detach that fails the other.
abbrev history : List Op
history =
    attaches
    ∷ sends (string (1 ∷ 2 ∷ [])) 7
    ∷ sends (string (3 ∷ [])) 8
    ∷ processed sent_7
    ∷ drains
    ∷ detaches
    ∷ settles "left"
    ∷ []

history-AreFresh : AreFresh 100 history new_instance
unfolding step new_instance send send_bytes send_argument track_send attach_room on_send_processed
    drain settle_sends settle_send settle_found open_context dispatch shed ref unref emplace find
    erase
history-AreFresh = (refl, (refl, tt))

sends_settle_once_example : IsValid (run 100 history new_instance)
sends_settle_once_example = sends_settle_once 100 history history-AreFresh

destroy_settles_example :
    let t = destroy (run 100 history new_instance) in
    ((p : ℕ) → resolutions p t.resolved ≡ one_if (ltb p t.made))
    × (t.pending_sends ≡ [])
    × (is_held t.context.handle ≡ false)
destroy_settles_example = destroy_settles 100 history history-AreFresh

abbrev in_room : DataTrack
in_room = record {
  track = true;
  owner = true;
  pending_sends = (3, 0) ∷ [];
  rooms = 1;
  context = open_context 0;
  resolved = [];
  made = 1;
  sent = [];
}

send_checked_example :
    let (u, r) = send 2 (string (1 ∷ 2 ∷ 3 ∷ [])) 9 in_room in
    ((bytes : List ℕ) × (message (string (1 ∷ 2 ∷ 3 ∷ [])) ≡ some bytes)
      × (length bytes ≤ 2)
      × (r ≡ promise in_room.made)
      × (u.sent ≡ in_room.sent ++ (bytes ∷ []))
      × (u.made ≡ suc in_room.made))
    ⊎ ((e : SendError) × (r ≡ threw e)
        × (u ≡ in_room)
        × ((message (string (1 ∷ 2 ∷ 3 ∷ [])) ≡ none)
            ⊎ ((bytes : List ℕ) × (message (string (1 ∷ 2 ∷ 3 ∷ [])) ≡ some bytes)
                × (2 < length bytes))))
send_checked_example = send_checked 2 (string (1 ∷ 2 ∷ 3 ∷ [])) 9 in_room refl

open_context-closed : in_room.context.closed ≡ false
unfolding open_context
open_context-closed = refl

open_context-max_queue_depth : in_room.context.max_queue_depth ≡ 0
unfolding open_context
open_context-max_queue_depth = refl

open_context-queue : in_room.context.queue ≡ []
unfolding open_context
open_context-queue = refl

find_7 : find 7 in_room.pending_sends ≡ none
unfolding find
find_7 = refl

send_resolved_example :
    let u = drain (on_send_processed sent_7 (send 10 (string (1 ∷ 2 ∷ [])) 7 in_room).0) in
    (r : SendResult) × IsOutcome sent_7 r
    × (u.resolved ≡ [] ++ ((in_room.made, r) ∷ []))
    × (u.pending_sends ≡ in_room.pending_sends)
send_resolved_example =
    send_resolved 10 (1 ∷ 2 ∷ []) sent_7 in_room refl refl open_context-closed
      open_context-max_queue_depth open_context-queue (omega arith) find_7 (omega arith)
