-- ===== src/Stats/Lost.antt =====
-- src/video/room_wrap.cpp, `RoomWrap::Dispose`: what becomes of the statistics that are still awaited.
use twilio_video_node.Base.{
  ℕ, ◌+◌, ◌≤◌, ◌<◌, ◌≡◌, refl, ap, ◌∙◌, true, false, List, [], ◌∷◌, arith, ltb, ◌==◌, inl, inr,
  Bool-cases,
}
use twilio_video_node.Async.{Context, dispatch, close}
use twilio_video_node.Stats.{
  Answer, reports, not_connected, was_disconnected, Room, new_room, tell_not_connected, get_stats,
  answer, on_stats, cancel, cancel_all, dispose, run_next, has, Op, asks, disconnects, disposes,
  turns, reported, step, run,
}
use twilio_video_node.Stats.Once.{
  IsOnce, one_if, answers, answers-append, count, run-IsOnce, new_room-IsOnce, has-count,
}

-- A callback that was never called and that nothing can call any more.
record IsLost (n : ℕ) (r : Room) : Type 0 where
  shut : r.context.closed ≡ true
  empty : r.context.queue ≡ []
  offline : r.connected ≡ false
  spent : r.fired n ≡ true
  old : n < r.made
  silent : answers n r.answered ≡ 0

get_stats-IsLost : (n : ℕ) (r : Room) → IsLost n r → IsLost n (get_stats r)
unfolding get_stats tell_not_connected
get_stats-IsLost n r v = ground (arith, answers-append n r.answered ((r.made, not_connected) ∷ []))

answer-IsLost : (n m : ℕ) (a : Answer) (r : Room) → IsLost n r → IsLost n (answer m a r)
unfolding answer dispatch
answer-IsLost n m a r v = ground arith

on_stats-IsLost : (n m : ℕ) (r : Room) → IsLost n r → IsLost n (on_stats m r)
unfolding on_stats
on_stats-IsLost n m r v = ground (arith, answer-IsLost n m reports r v)

cancel-IsLost : (n : ℕ) (ns : List ℕ) (r : Room) → IsLost n r → IsLost n (cancel ns r)
unfolding cancel
cancel-IsLost n [] r v = v
cancel-IsLost n (m ∷ ns) r v =
    cancel-IsLost n ns (answer m was_disconnected r) (answer-IsLost n m was_disconnected r v)

dispose-IsLost : (n : ℕ) (r : Room) → IsLost n r → IsLost n (dispose r)
unfolding dispose cancel_all close
dispose-IsLost n r v =
    let w = cancel-IsLost n r.registry (record r { registry = [] }) (ground arith) in ground arith

step-IsLost : (o : Op) (n : ℕ) (r : Room) → IsLost n r → IsLost n (step o r)
unfolding step run_next
step-IsLost asks n r v = get_stats-IsLost n r v
step-IsLost disconnects n r v = ground arith
step-IsLost disposes n r v = dispose-IsLost n r v
step-IsLost turns n r v = ground arith
step-IsLost (reported m) n r v = ground (arith, on_stats-IsLost n m r v)

run-IsLost : (os : List Op) (n : ℕ) (r : Room) → IsLost n r → IsLost n (run os r)
unfolding run
run-IsLost [] n r v = v
run-IsLost (o ∷ os) n r v = run-IsLost os n (step o r) (step-IsLost o n r v)

fired_stays : (n m : ℕ) (a : Answer) (r : Room) → r.fired n ≡ true → (answer m a r).fired n ≡ true
unfolding answer
fired_stays n m a r f = ground arith

fired_now : (n : ℕ) (a : Answer) (r : Room) → (answer n a r).fired n ≡ true
unfolding answer
fired_now n a r = ground arith

cancel_keeps : (n : ℕ) (ns : List ℕ) (r : Room) → r.fired n ≡ true → (cancel ns r).fired n ≡ true
unfolding cancel
cancel_keeps n [] r f = f
cancel_keeps n (m ∷ ns) r f =
    cancel_keeps n ns (answer m was_disconnected r) (fired_stays n m was_disconnected r f)

cancel_fires : (n : ℕ) (ns : List ℕ) (r : Room) → has n ns ≡ true → (cancel ns r).fired n ≡ true
unfolding cancel
cancel_fires n [] r h = absurd (cc)
cancel_fires n (m ∷ ns) r h = elim (Bool-cases (n == m)) [
  | inl e ↦
      cancel_keeps n ns (answer m was_disconnected r)
        (ground (arith, fired_now m was_disconnected r))
  | inr e ↦ cancel_fires n ns (answer m was_disconnected r) (ground arith)
]

answer_same :
    (m : ℕ) (a : Answer) (r : Room)
    → ((answer m a r).answered ≡ r.answered)
      × ((answer m a r).made ≡ r.made)
      × ((answer m a r).context.closed ≡ r.context.closed)
unfolding answer dispatch
answer_same m a r = ground arith

cancel_same :
    (ns : List ℕ) (r : Room)
    → ((cancel ns r).answered ≡ r.answered)
      × ((cancel ns r).made ≡ r.made)
      × ((cancel ns r).context.closed ≡ r.context.closed)
unfolding cancel
cancel_same [] r = (refl, refl, refl)
cancel_same (m ∷ ns) r =
    let a = answer_same m was_disconnected r in
    let b = cancel_same ns (answer m was_disconnected r) in (b.0 ∙ a.0, b.1 ∙ a.1, b.2 ∙ a.2)

close_open :
    (c : Context (ℕ × Answer))
    → c.closed ≡ false
    → ((close c).closed ≡ true) × ((close c).queue ≡ [])
unfolding close
close_open c h = ground arith

dispose_loses :
    (n : ℕ) (r : Room)
    → IsOnce r
    → r.context.closed ≡ false
    → r.fired n ≡ false
    → has n r.registry ≡ true
    → IsLost n (dispose r)
unfolding dispose cancel_all
dispose_loses n r v c f h =
    let s = record r { registry = [] } in
    let (a, m, k) = cancel_same r.registry s in
    let (shut, empty) = close_open (cancel r.registry s).context (k ∙ c) in
    let known : 1 ≤ count n r.observers = omega (arith, v.kept n, has-count n r.registry h) in
    let once : answers n r.answered + count n r.observers ≤ one_if (ltb n r.made) =
      ground (arith, v.once n) in
    record {
      shut = shut;
      empty = empty;
      offline = refl;
      spent = cancel_fires n r.registry s h;
      old = ground (arith, m);
      silent = ap (answers n) a ∙ ground arith;
    }

-- Where a Room is disposed while a call of `getStats` is awaited, whatever happened before and happens
-- after, its callback is never called: neither with reports nor with the error of the cancellation,
-- which is queued on a context that is closed at once.
pub dispose_leaves_unanswered :
    (before after : List Op) (n : ℕ)
    → (run before new_room).context.closed ≡ false
    → (run before new_room).fired n ≡ false
    → has n (run before new_room).registry ≡ true
    → answers n (run after (dispose (run before new_room))).answered ≡ 0
dispose_leaves_unanswered before after n c f h =
    let r = run before new_room in
    (run-IsLost after n (dispose r)
      (dispose_loses n r (run-IsOnce before new_room new_room-IsOnce) c f h)).silent
