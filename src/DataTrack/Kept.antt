-- ===== src/DataTrack/Kept.antt =====
-- src/media/local_data_track_wrap.cpp: a send, a Room and the report of an outcome keep what every
-- operation keeps.
use twilio_video_node.Base.{
  ℕ, ◌≡◌, true, false, List, [], ◌∷◌, ◌++◌, none, arith, ltb, length, Bool-cases, inl, inr,
}
use twilio_video_node.Async.{dispatch}
use twilio_video_node.DataTrack.Pending.{
  emplace, find, waiting-emplace, length-emplace, is_empty-length,
}
use twilio_video_node.DataTrack.{
  Completion, DataTrack, Argument, absent, string, buffer, other, failed, track_send, send_bytes,
  send_argument, send, threw, not_initialized, attach_room, detach_room, on_send_processed,
}
use twilio_video_node.DataTrack.Valid.{resolutions-append, IsValid}

track_send-IsValid :
    (id : ℕ) (t : DataTrack)
    → t.owner ≡ true
    → find id t.pending_sends ≡ none
    → IsValid t
    → IsValid (track_send id t)
unfolding track_send
track_send-IsValid id t o f v = record {
  once = λ p. ground (
    arith,
    v.once p,
    waiting-emplace p id t.made t.pending_sends,
    resolutions-append p t.resolved
        ((t.made, failed "Data track is not published to a Room" id) ∷ []),
  );
  held = ground (
    arith,
    is_empty-length t.pending_sends,
    is_empty-length (emplace id t.made t.pending_sends),
    length-emplace id t.made t.pending_sends,
    v.in_place o,
  );
  in_place = ground arith;
  gone = ground arith;
  shut = ground arith;
}

module _ (limit : ℕ) (a : Argument) (id : ℕ) (t : DataTrack) where
  send_set : t.track ≡ true → send limit a id t ≡ send_argument limit a id t
  unfolding send
  send_set h = ground arith

  send_unset : t.track ≡ false → send limit a id t ≡ (t, threw not_initialized)
  unfolding send
  send_unset h = ground arith

-- A property of what a send can leave: the track as it was, or with a message given to rtc-cpp.
module _ {ℓ} (P : DataTrack → Type ℓ) (limit id : ℕ) (t : DataTrack) (kept : P t)
    (taken : (sent : List (List ℕ)) → P (track_send id (record t { sent = sent }))) where
  send_bytes_cases : (bytes : List ℕ) → P (send_bytes limit bytes id t).0
  unfolding send_bytes
  send_bytes_cases bytes = elim (Bool-cases (ltb limit (length bytes))) [
    | inl large ↦ rw (large, send_bytes) kept
    | inr fits ↦ rw (fits, send_bytes) (taken (t.sent ++ (bytes ∷ [])))
  ]

  send_argument_cases : (a : Argument) → P (send_argument limit a id t).0
  unfolding send_argument
  send_argument_cases absent = kept
  send_argument_cases (string bytes) = send_bytes_cases bytes
  send_argument_cases (buffer bytes) = send_bytes_cases bytes
  send_argument_cases other = kept

  pub send_cases : (a : Argument) → P (send limit a id t).0
  send_cases a = elim (Bool-cases t.track) [
    | inl set ↦ rw (send_set limit a id t set) (send_argument_cases a)
    | inr unset ↦ rw (send_unset limit a id t unset) kept
  ]

pub send-IsValid :
    (limit : ℕ) (a : Argument) (id : ℕ) (t : DataTrack)
    → t.owner ≡ true
    → find id t.pending_sends ≡ none
    → IsValid t
    → IsValid (send limit a id t).0
send-IsValid limit a id t o f v =
    send_cases IsValid limit id t v
      (λ sent.
        track_send-IsValid id (record t { sent = sent }) o f
          (record {
            once = v.once;
            held = v.held;
            in_place = v.in_place;
            gone = v.gone;
            shut = v.shut;
          }))
      a

pub attach_room-IsValid : (t : DataTrack) → IsValid t → IsValid (attach_room t)
unfolding attach_room
attach_room-IsValid t v = record {
  once = v.once;
  held = v.held;
  in_place = v.in_place;
  gone = v.gone;
  shut = v.shut;
}

pub detach_room-IsValid : (t : DataTrack) → IsValid t → IsValid (detach_room t)
unfolding detach_room
detach_room-IsValid t v = record {
  once = λ p. ground (arith, v.once p);
  held = ground arith;
  in_place = ground arith;
  gone = ground arith;
  shut = ground arith;
}

pub on_send_processed-IsValid :
    (c : Completion) (t : DataTrack) → IsValid t → IsValid (on_send_processed c t)
unfolding on_send_processed dispatch
on_send_processed-IsValid c t v = record {
  once = λ p. ground (arith, v.once p);
  held = ground arith;
  in_place = ground arith;
  gone = ground arith;
  shut = ground arith;
}
