-- ===== src/Stats.antt =====
-- src/video/room_wrap.h and src/video/room_wrap.cpp: the statistics that JS asks of a Room, and what
-- becomes of them when the Room is disposed.
-- A call of `getStats` is known by the number of calls before it, and so is its observer. The reports
-- are left out. `observers` lists the one-shot observers ever made, and `registry` those in the set.
pub mod Once
pub mod Lost
use twilio_video_node.Base.{
  ℕ, zero, suc, ◌+◌, Bool, true, false, ◌&&◌, not, List, [], ◌∷◌, ◌++◌, ltb, ◌==◌, if◌then◌else◌,
}
use twilio_video_node.Async.{Context, open_context, dispatch, close}

pub data Answer : Type 0 where
  reports not_connected was_disconnected : Answer

-- `connected` says that `room_` is set and its state is connected or reconnecting. `answered` lists the
-- calls of the JS callbacks.
pub record Room : Type 0 where
  pub connected : Bool
  pub context : Context (ℕ × Answer)
  pub observers : List ℕ
  pub registry : List ℕ
  pub fired : ℕ → Bool
  pub made : ℕ
  pub answered : List (ℕ × Answer)

unfoldable pub new_room : Room
unfolding open_context
new_room = record {
  connected = true;
  context = open_context 0;
  observers = [];
  registry = [];
  fired = λ n. false;
  made = 0;
  answered = [];
}

-- A callback that is told at once, on the context or, where that is closed, directly.
unfoldable pub tell_not_connected : ℕ → Room → Room
unfolding dispatch
tell_not_connected n r =
    if r.context.closed
    then record r { answered = r.answered ++ ((n, not_connected) ∷ []) }
    else record r { context = dispatch r.context (n, not_connected) }

-- `GetStats` with a function.
unfoldable pub get_stats : Room → Room
unfolding tell_not_connected
get_stats r =
    let n = r.made in
    let s = record r { made = suc n } in
    if r.connected
    then record s { observers = n ∷ r.observers; registry = n ∷ r.registry }
    else tell_not_connected n s

abbrev pub fire : ℕ → Room → Room
fire n r = record r { fired = λ m. if m == n then true else r.fired m }

-- The guard of `fired_`, and the dispatch, in `onStats` and `cancel`. A closed context takes nothing.
unfoldable pub answer : ℕ → Answer → Room → Room
unfolding dispatch
answer n a r = if r.fired n then r else fire n (record r { context = dispatch r.context (n, a) })

unfoldable pub remove : ℕ → List ℕ → List ℕ
remove n [] = []
remove n (m ∷ ms) = let rest = remove n ms in if n == m then rest else m ∷ rest

-- `onStats`. An observer that had fired returns before it leaves the registry.
unfoldable pub on_stats : ℕ → Room → Room
unfolding answer remove
on_stats n r =
    if r.fired n
    then r
    else (let s = answer n reports r in record s { registry = remove n s.registry })

unfoldable pub cancel : List ℕ → Room → Room
unfolding answer
cancel [] r = r
cancel (n ∷ ns) r = cancel ns (answer n was_disconnected r)

unfoldable pub cancel_all : Room → Room
unfolding cancel
cancel_all r = cancel r.registry (record r { registry = [] })

-- `Dispose`, as far as it touches the statistics.
unfoldable pub dispose : Room → Room
unfolding cancel_all close
dispose r = let s = cancel_all r in record s { connected = false; context = close s.context }

-- The JS thread takes the oldest callback of the context, and runs it.
unfoldable pub run_next : Room → Room
run_next r = if r.context.closed then r else (elim r.context.queue [
  | [] ↦ r
  | x ∷ q ↦ record r { context = record r.context { queue = q }; answered = r.answered ++ (x ∷ []) }
])

abbrev pub has : ℕ → List ℕ → Bool
has n [] = false
has n (m ∷ ms) = if n == m then true else has n ms

-- What happens to a Room: calls from JS, reports from rtc-cpp, a disconnect, turns of the JS thread.
pub data Op : Type 0 where
  asks disconnects disposes turns : Op
  reported : ℕ → Op

unfoldable pub step : Op → Room → Room
unfolding get_stats dispose run_next on_stats
step asks r = get_stats r
step disconnects r = record r { connected = false }
step disposes r = dispose r
step turns r = run_next r
step (reported n) r = if has n r.observers then on_stats n r else r

unfoldable pub run : List Op → Room → Room
unfolding step
run [] r = r
run (o ∷ os) r = run os (step o r)
