-- ===== src/DataTrack/Send.antt =====
-- src/media/local_data_track_wrap.cpp, `Send`: what it refuses, what it hands over, and how the
-- outcome that rtc-cpp reports comes back.
use twilio_video_node.Base.{
  ℕ, suc, ◌≤◌, ◌<◌, ◌≡◌, refl, ◌⊎◌, inl, inr, true, false, List, [], ◌∷◌, ◌++◌, Option, none, some,
  arith, ltb, length, Bool-cases, ltb→lt, ap, ◌∙◌,
}
use twilio_video_node.Async.{dispatch, shed}
use twilio_video_node.DataTrack.Pending.{find, emplace, erase, find-emplace, erase-emplace}
use twilio_video_node.DataTrack.{
  DataTrack, SendResult, settled, Argument, absent, string, buffer, other, SendError,
  expected_argument, bad_argument, too_large, threw, promise, Completion, track_send, send,
  on_send_processed, drain, settle_sends, settle_send, settle_found,
}

-- The bytes of an argument that is a message.
abbrev pub message : Argument → Option (List ℕ)
message absent = none
message (string bytes) = some bytes
message (buffer bytes) = some bytes
message other = none

-- A message of at most `limit` bytes is given to rtc-cpp and a new promise is returned. Anything else
-- is refused by an exception, and then nothing has changed.
pub send_checked :
    (limit : ℕ) (a : Argument) (id : ℕ) (t : DataTrack)
    → t.track ≡ true
    → let (u, r) = send limit a id t in
      ((bytes : List ℕ) × (message a ≡ some bytes)
        × (length bytes ≤ limit)
        × (r ≡ promise t.made)
        × (u.sent ≡ t.sent ++ (bytes ∷ []))
        × (u.made ≡ suc t.made))
      ⊎ ((e : SendError) × (r ≡ threw e)
          × (u ≡ t)
          × ((message a ≡ none)
              ⊎ ((bytes : List ℕ) × (message a ≡ some bytes) × (limit < length bytes))))
unfolding send track_send
send_checked limit absent id t h = inr (expected_argument, ground arith, ground arith, inl refl)
send_checked limit (string bytes) id t h = elim (Bool-cases (ltb limit (length bytes))) [
  | inl large ↦ inr (
    too_large (length bytes),
    ground arith,
    ground arith,
    inr (bytes, refl, ltb→lt limit (length bytes) large),
  )
  | inr fits ↦ inl (bytes, refl, ground arith, ground arith, ground arith, ground arith)
]
send_checked limit (buffer bytes) id t h = elim (Bool-cases (ltb limit (length bytes))) [
  | inl large ↦ inr (
    too_large (length bytes),
    ground arith,
    ground arith,
    inr (bytes, refl, ltb→lt limit (length bytes) large),
  )
  | inr fits ↦ inl (bytes, refl, ground arith, ground arith, ground arith, ground arith)
]
send_checked limit other id t h = inr (bad_argument, ground arith, ground arith, inl refl)

-- What a send in a Room leaves, and then the report of its outcome.
send_in_room :
    (limit : ℕ) (bytes : List ℕ) (id : ℕ) (t : DataTrack)
    → t.track ≡ true
    → 0 < t.rooms
    → length bytes ≤ limit
    → let u = (send limit (string bytes) id t).0 in
      (u.pending_sends ≡ emplace id t.made t.pending_sends)
      × (u.resolved ≡ t.resolved)
      × (u.owner ≡ t.owner)
      × (u.context.queue ≡ t.context.queue)
      × (u.context.closed ≡ t.context.closed)
      × (u.context.max_queue_depth ≡ t.context.max_queue_depth)
unfolding send track_send
send_in_room limit bytes id t h r l =
    (ground arith, ground arith, ground arith, ground arith, ground arith, ground arith)

drained_one :
    (c : Completion) (q : ℕ) (t : DataTrack)
    → t.owner ≡ true
    → t.context.closed ≡ false
    → t.context.max_queue_depth ≡ 0
    → t.context.queue ≡ []
    → find c.id t.pending_sends ≡ some q
    → let u = drain (on_send_processed c t) in
      (u.resolved ≡ t.resolved ++ (settled q c ∷ []))
      × (u.pending_sends ≡ erase c.id t.pending_sends)
unfolding drain on_send_processed settle_sends settle_send settle_found dispatch shed
drained_one c q t o cl m e f = (ground arith, ground arith)

-- The object for an outcome: whether the message was sent, its id, and the error where it was not.
abbrev pub IsOutcome : Completion → SendResult → Type 0
IsOutcome c r =
    (r.message_id ≡ c.id)
    × (((c.ok ≡ true) × (r.ok ≡ true) × (r.error ≡ none))
        ⊎ ((c.ok ≡ false) × (r.ok ≡ false) × (r.error ≡ some c.error)))

settled-IsOutcome : (p : ℕ) (c : Completion) → IsOutcome c (settled p c).1
settled-IsOutcome p c = ground arith

-- In a Room, with an id that no waiting message has and nothing else queued: the outcome that rtc-cpp
-- reports for the message resolves the promise of that send, and no other, with an object that has the
-- message's id and says `ok` with no error where the message was sent, and otherwise not `ok` with the
-- reported error; and it leaves waiting what waited before.
pub send_resolved :
    (limit : ℕ) (bytes : List ℕ) (c : Completion) (t : DataTrack)
    → t.track ≡ true
    → t.owner ≡ true
    → t.context.closed ≡ false
    → t.context.max_queue_depth ≡ 0
    → t.context.queue ≡ []
    → 0 < t.rooms
    → find c.id t.pending_sends ≡ none
    → length bytes ≤ limit
    → let u = drain (on_send_processed c (send limit (string bytes) c.id t).0) in
      (r : SendResult) × IsOutcome c r
      × (u.resolved ≡ t.resolved ++ ((t.made, r) ∷ []))
      × (u.pending_sends ≡ t.pending_sends)
send_resolved limit bytes c t h o cl m q r f l =
    let u = (send limit (string bytes) c.id t).0 in
    let (p, rs, ow, qu, cs, mx) = send_in_room limit bytes c.id t h r l in
    let (a, b) =
      drained_one c t.made u (ow ∙ o) (cs ∙ cl) (mx ∙ m) (qu ∙ q)
        (ap (find c.id) p ∙ find-emplace c.id t.made t.pending_sends f) in
    (
      (settled t.made c).1,
      settled-IsOutcome t.made c,
      a ∙ ap (λ xs. xs ++ (settled t.made c ∷ [])) rs,
      b ∙ ap (erase c.id) p ∙ erase-emplace c.id t.made t.pending_sends f,
    )
