-- ===== src/Tests/Async.antt =====
-- src/common/async_context.cpp: runs of a context, and its theorems on them.
use twilio_video_node.Base.{
  ℕ, ◌+◌, ◌≤◌, ◌≡◌, ◌⊎◌, refl, true, false, List, [], ◌∷◌, ◌++◌, none, some, length, replicate, min,
  u64, arith, if◌then◌else◌, ◌==◌,
}
use twilio_video_node.Async.{Context, open_context, dispatch, close, shed, requeue_front, destroy}
use twilio_video_node.Async.Queue.{dispatch_drops_oldest}
use twilio_video_node.Async.Drain.{
  Callbacks, dispatches, destroys, Move, calls, fires, System, napi_error, unknown, done,
  use_after_free, run, initial, on_async, drain, drain_loop, after_call, invoke, perform_all,
  perform, report_fatal, reported,
}
use twilio_video_node.Async.Drain.Rule.{Ends}
use twilio_video_node.Async.Drain.Valid.{
  IsValid, no_use_after_free, open_context-IsValid, dispatch-IsValid,
}
use twilio_video_node.Async.Drain.Order.{run_in_order}
use twilio_video_node.Async.Drain.Progress.{drains_all}
use twilio_video_node.Async.Drain.Counted.{drops_counted}

-- The callback 1 destroys the context, 2 throws, 3 queues 7, and others do nothing.
abbrev busy : Callbacks ℕ
busy ran a =
    if a == 1
    then (destroys ∷ [], none)
    else if a == 2
    then ([], some (napi_error "two"))
    else if a == 3
    then (dispatches 7 ∷ [], none)
    else ([], none)

-- The callback 2 throws, and no callback calls the context.
abbrev quiet : Callbacks ℕ
quiet ran a = if a == 2 then ([], some unknown) else ([], none)

abbrev some_moves : List (Move ℕ)
some_moves =
    calls (dispatches 3)
    ∷ calls (dispatches 2)
    ∷ calls (dispatches 4)
    ∷ fires
    ∷ fires
    ∷ calls (dispatches 1)
    ∷ calls (dispatches 5)
    ∷ fires
    ∷ []

abbrev queued : Context ℕ
unfolding dispatch open_context shed
queued = dispatch (dispatch (open_context 0) 2) 4

abbrev ran_by : List (Move ℕ) → ℕ → List ℕ
unfolding run initial
ran_by moves depth = elim (run busy moves (initial depth)) [ done t ↦ t.ran | use_after_free ↦ [] ]

-- A throw keeps the rest of the queue for the next drain, and nothing runs after the destructor.
ran_in_order : ran_by some_moves 0 ≡ 3 ∷ 2 ∷ 4 ∷ 7 ∷ 1 ∷ []
unfolding run initial on_async drain drain_loop after_call invoke perform_all perform report_fatal
    reported requeue_front dispatch shed open_context destroy close
ran_in_order = refl

-- A bounded queue drops its oldest callbacks.
dropped_oldest : (dispatch (dispatch (dispatch (open_context {A = ℕ} 2) 1) 2) 3).queue ≡ 2 ∷ 3 ∷ []
unfolding dispatch open_context shed
dropped_oldest = refl

no_use_after_free_example : Ends (λ t. IsValid t.context) (run busy some_moves (initial 5))
no_use_after_free_example = no_use_after_free busy 5 some_moves

run_in_order_example :
    Ends
      (λ t.
        ((lost : List ℕ) × (t.ran ++ lost ≡ t.accepted))
        × ((t.context.closed ≡ true) ⊎ (t.ran ++ t.context.queue ≡ t.accepted)))
      (run busy some_moves (initial 0))
run_in_order_example = run_in_order busy some_moves

drops_counted_example :
    Ends
      (λ t.
        (t.context.closed ≡ true)
        ⊎ (u64 (length t.ran + length t.context.queue + t.context.dropped)
            ≡ u64 (length t.accepted)))
      (run busy some_moves (initial 2))
drops_counted_example = drops_counted busy 2 some_moves

abbrev full : Context ℕ
full = record {
  queue = 1 ∷ 2 ∷ 3 ∷ [];
  closed = false;
  dropped = 4;
  max_queue_depth = 2;
  handle = none;
  alive = true;
}

dispatch_drops_oldest_example :
    (gone : List ℕ) × (full.queue ++ (9 ∷ []) ≡ gone ++ (dispatch full 9).queue)
    × ((dispatch full 9).dropped ≡ full.dropped + length gone)
    × (length (dispatch full 9).queue ≡ min 2 4)
dispatch_drops_oldest_example = dispatch_drops_oldest full 9 refl (omega arith) (omega arith)

quiet_calls : (ran : List ℕ) (a : ℕ) → (quiet ran a).0 ≡ []
quiet_calls ran a = ground arith

abbrev queued_system : System ℕ
queued_system = record { context = queued; accepted = 2 ∷ 4 ∷ []; ran = []; fatal = [] }

queued-IsValid : IsValid queued
unfolding queued
queued-IsValid =
    dispatch-IsValid (dispatch (open_context 0) 2) 4
      (dispatch-IsValid (open_context 0) 2 (open_context-IsValid 0))

queued-length : length queued.queue ≤ 2
unfolding queued dispatch open_context shed
queued-length = omega arith

queued-open : queued.closed ≡ false
unfolding queued dispatch open_context shed
queued-open = refl

-- The first callback throws, and the second drain runs the other one.
drains_all_example :
    Ends
      (λ t. (t.ran ≡ [] ++ queued.queue) × (t.context.queue ≡ []))
      (run quiet (replicate 2 fires) queued_system)
drains_all_example =
    drains_all quiet quiet_calls 2 queued_system queued-IsValid queued-open queued-length
