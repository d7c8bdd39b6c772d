-- ===== src/Stats/Once.antt =====
-- src/video/room_wrap.cpp: how often a callback of `getStats` is called.
use twilio_video_node.Base.{
  ◌⊎◌, ℕ, ◌+◌, ◌≤◌, ◌≡◌, refl, sym, ap, subst, Bool, true, false, List, [], ◌∷◌, ◌++◌, arith, ltb,
  ◌==◌, if◌then◌else◌, inl, inr, Bool-cases,
}
use twilio_video_node.Async.{open_context, close}
use twilio_video_node.Async.Queue.{dispatch_unbounded}
use twilio_video_node.Stats.{
  Answer, reports, not_connected, was_disconnected, Room, new_room, tell_not_connected, get_stats,
  answer, remove, on_stats, cancel, cancel_all, dispose, run_next, has, Op, asks, disconnects,
  disposes, turns, reported, step, run,
}

abbrev pub one_if : Bool → ℕ
one_if true = 1
one_if false = 0

-- How often a callback stands among answers, and a number in a list.
abbrev pub answers : ℕ → List (ℕ × Answer) → ℕ
answers n [] = 0
answers n ((m, a) ∷ xs) = one_if (n == m) + answers n xs

abbrev pub count : ℕ → List ℕ → ℕ
count n [] = 0
count n (m ∷ ms) = one_if (n == m) + count n ms

pub answers-append :
    (n : ℕ) (xs ys : List (ℕ × Answer)) → answers n (xs ++ ys) ≡ answers n xs + answers n ys
answers-append n [] ys = omega arith
answers-append n ((m, a) ∷ xs) ys = omega (arith, answers-append n xs ys)

abbrev pub unanswered : ℕ → Room → ℕ
unanswered n r = if r.fired n then 0 else count n r.observers

-- A callback was called, is queued to be called, or has an observer that has not fired: once in all.
pub record IsOnce (r : Room) : Type 0 where
  pub once :
      (n : ℕ)
      → answers n r.answered + answers n r.context.queue + unanswered n r ≤ one_if (ltb n r.made)
  pub unlimited : r.context.max_queue_depth ≡ 0
  pub kept : (n : ℕ) → count n r.registry ≤ count n r.observers

get_stats-IsOnce : (r : Room) → IsOnce r → IsOnce (get_stats r)
unfolding get_stats tell_not_connected
get_stats-IsOnce r v = record {
  once = λ n. ground (
    arith,
    v.once n,
    dispatch_unbounded r.context (r.made, not_connected) v.unlimited,
    answers-append n r.answered ((r.made, not_connected) ∷ []),
    answers-append n r.context.queue ((r.made, not_connected) ∷ []),
  );
  unlimited = ground (arith, dispatch_unbounded r.context (r.made, not_connected) v.unlimited);
  kept = λ m. ground (arith, v.kept m);
}

answer-IsOnce :
    (n : ℕ) (a : Answer) (r : Room) → 1 ≤ count n r.observers → IsOnce r → IsOnce (answer n a r)
unfolding answer
answer-IsOnce n a r h v = record {
  once = λ m. ground (
    arith,
    v.once m,
    dispatch_unbounded r.context (n, a) v.unlimited,
    answers-append m r.context.queue ((n, a) ∷ []),
  );
  unlimited = ground (arith, dispatch_unbounded r.context (n, a) v.unlimited);
  kept = λ m. ground (arith, v.kept m);
}

pub has-count : (n : ℕ) (ms : List ℕ) → has n ms ≡ true → 1 ≤ count n ms
has-count n [] h = absurd (cc)
has-count n (m ∷ ms) h = ground (arith, has-count n ms)

count-remove : (m n : ℕ) (ms : List ℕ) → count m (remove n ms) ≤ count m ms
unfolding remove
count-remove m n [] = omega arith
count-remove m n (k ∷ ms) = ground (arith, count-remove m n ms)

queue-cases :
    (q : List (ℕ × Answer)) → (q ≡ []) ⊎ ((x : ℕ × Answer) × (r : List (ℕ × Answer)) × (q ≡ x ∷ r))
queue-cases [] = inl refl
queue-cases (x ∷ r) = inr (x, r, refl)

run_next_closed : (r : Room) → r.context.closed ≡ true → run_next r ≡ r
unfolding run_next
run_next_closed r c = ground arith

run_next_empty : (r : Room) → r.context.queue ≡ [] → run_next r ≡ r
unfolding run_next
run_next_empty r e = ground arith

run_next_open :
    (r : Room) (x : ℕ × Answer) (q : List (ℕ × Answer))
    → r.context.closed ≡ false
    → r.context.queue ≡ x ∷ q
    → run_next r
      ≡ record r { context = record r.context { queue = q }; answered = r.answered ++ (x ∷ []) }
unfolding run_next
run_next_open r x q c e = ground arith

run_next-IsOnce : (r : Room) → IsOnce r → IsOnce (run_next r)
run_next-IsOnce r v = elim (Bool-cases r.context.closed) [
  | inl c ↦ subst IsOnce (sym (run_next_closed r c)) v
  | inr c ↦ elim (queue-cases r.context.queue) [
    | inl e ↦ subst IsOnce (sym (run_next_empty r e)) v
    | inr (x, q, e) ↦ subst IsOnce (sym (run_next_open r x q c e)) (record {
      once = λ n. omega (arith, v.once n, answers-append n r.answered (x ∷ []), ap (answers n) e);
      unlimited = v.unlimited;
      kept = v.kept;
    })
  ]
]

pub answer-observers : (n : ℕ) (a : Answer) (r : Room) → (answer n a r).observers ≡ r.observers
unfolding answer
answer-observers n a r = ground arith

on_stats-IsOnce : (n : ℕ) (r : Room) → 1 ≤ count n r.observers → IsOnce r → IsOnce (on_stats n r)
unfolding on_stats
on_stats-IsOnce n r h v =
    let w = answer-IsOnce n reports r h v in
    elim (Bool-cases (r.fired n)) [
      | inl f ↦
          subst
            (λ b. IsOnce (
              if b then r else record (answer n reports r) {
                registry = remove n (answer n reports r).registry;
              }))
            (sym f) v
      | inr f ↦
          subst
            (λ b. IsOnce (
              if b then r else record (answer n reports r) {
                registry = remove n (answer n reports r).registry;
              }))
            (sym f)
            (record {
              once = w.once;
              unlimited = w.unlimited;
              kept = λ m. omega (arith, w.kept m, count-remove m n (answer n reports r).registry);
            })
    ]

cancel-IsOnce :
    (ns : List ℕ) (r : Room)
    → ((n : ℕ) → count n ns ≤ count n r.observers)
    → IsOnce r
    → IsOnce (cancel ns r)
unfolding cancel
cancel-IsOnce [] r h v = v
cancel-IsOnce (n ∷ ns) r h v =
    cancel-IsOnce ns (answer n was_disconnected r)
      (λ m. omega (arith, h m, ap (count m) (answer-observers n was_disconnected r)))
      (answer-IsOnce n was_disconnected r (ground (arith, h n)) v)

dispose-IsOnce : (r : Room) → IsOnce r → IsOnce (dispose r)
unfolding dispose cancel_all close
dispose-IsOnce r v =
    let w =
      cancel-IsOnce r.registry (record r { registry = [] }) v.kept
        (record { once = v.once; unlimited = v.unlimited; kept = λ n. omega arith }) in
    record {
      once = λ n. ground (arith, w.once n);
      unlimited = ground (arith, w.unlimited);
      kept = w.kept;
    }

step-IsOnce : (o : Op) (r : Room) → IsOnce r → IsOnce (step o r)
unfolding step
step-IsOnce asks r v = get_stats-IsOnce r v
step-IsOnce disconnects r v = record { once = v.once; unlimited = v.unlimited; kept = v.kept }
step-IsOnce disposes r v = dispose-IsOnce r v
step-IsOnce turns r v = run_next-IsOnce r v
step-IsOnce (reported n) r v = elim (Bool-cases (has n r.observers)) [
  | inl h ↦
      subst (λ b. IsOnce (if b then on_stats n r else r)) (sym h)
        (on_stats-IsOnce n r (has-count n r.observers h) v)
  | inr h ↦ subst (λ b. IsOnce (if b then on_stats n r else r)) (sym h) v
]

pub run-IsOnce : (os : List Op) (r : Room) → IsOnce r → IsOnce (run os r)
unfolding run
run-IsOnce [] r v = v
run-IsOnce (o ∷ os) r v = run-IsOnce os (step o r) (step-IsOnce o r v)

pub new_room-IsOnce : IsOnce new_room
unfolding new_room open_context
new_room-IsOnce = record { once = λ n. omega arith; unlimited = refl; kept = λ n. omega arith }

-- Whatever happens to a Room, a callback given to `getStats` is called once at most, with the reports or
-- with an error, and a callback that was not given to it never.
pub stats_answered_once :
    (os : List Op) (n : ℕ)
    → answers n (run os new_room).answered ≤ one_if (ltb n (run os new_room).made)
stats_answered_once os n = let v = (run-IsOnce os new_room new_room-IsOnce).once n in omega arith
