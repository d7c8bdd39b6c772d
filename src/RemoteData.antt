-- ===== src/RemoteData.antt =====
-- src/media/remote_data_track_wrap.h and src/media/remote_data_track_wrap.cpp: the observer of a remote
-- data track, and the JS wraps that it gives the track's messages to.
-- A wrap is known by the number of wraps made before it on the observer: a target of the observer is
-- such a number, whose context and `alive` flag stand with the wrap. A message, a text or bytes, is any
-- value of `M`. The JS thread runs one queued callback of a wrap at a time.
pub mod Channel
pub mod Targets
pub mod Refine
pub mod Inbox
pub mod Heard
pub mod Registry
use twilio_video_node.Base.{
  ℕ, suc, Bool, true, false, ◌&&◌, not, List, [], ◌∷◌, ◌++◌, ltb, ◌==◌, if◌then◌else◌,
}
use twilio_video_node.Async.{Context, open_context, dispatch, close}

-- `callback` says that `messageCallback_` is set, and `heard` lists the messages that it was called with.
pub record Wrap {ℓ} (M : Type ℓ) : Type ℓ where
  pub context : Context M
  pub alive : Bool
  pub callback : Bool
  pub heard : List M

pub record Observer {ℓ} (M : Type ℓ) : Type ℓ where
  pub targets : List ℕ
  pub closed : Bool
  pub wraps : ℕ → Wrap M
  pub made : ℕ

-- The destructor of a wrap is three steps, between which a message may arrive.
pub data Op {ℓ} (M : Type ℓ) : Type ℓ where
  arrives : M → Op M
  creates closes : Op M
  listens stops_listening runs dies unbinds closes_context : ℕ → Op M

-- The `remove_if` and `erase` of `unbind`.
unfoldable pub without : ℕ → List ℕ → List ℕ
without w [] = []
without w (v ∷ vs) = let rest = without w vs in if v == w then rest else v ∷ rest

module _ {ℓ} {M : Type ℓ} where
  unfoldable pub new_wrap : Wrap M
  unfolding open_context
  new_wrap = record { context = open_context 0; alive = true; callback = false; heard = [] }

  -- A wrap that is not made yet stands in `wraps` as a new one.
  unfoldable pub new_observer : Observer M
  unfolding new_wrap
  new_observer = record { targets = []; closed = false; wraps = λ w. new_wrap; made = 0 }

  abbrev pub set_wrap : ℕ → Wrap M → Observer M → Observer M
  set_wrap w x o = record o { wraps = λ v. if v == w then x else o.wraps v }

  unfoldable pub bind : ℕ → Observer M → Observer M
  bind w o = if o.closed then o else record o { targets = o.targets ++ (w ∷ []) }

  unfoldable pub unbind : ℕ → Observer M → Observer M
  unfolding without
  unbind w o = record o { targets = without w o.targets }

  unfoldable pub close_observer : Observer M → Observer M
  close_observer o = if o.closed then o else record o { closed = true; targets = [] }

  -- The `remove_if` and `erase` of `forEachTarget`.
  unfoldable pub living : (ℕ → Wrap M) → List ℕ → List ℕ
  living wraps [] = []
  living wraps (v ∷ vs) = let rest = living wraps vs in if (wraps v).alive then v ∷ rest else rest

  -- What `onMessage` does with one target.
  unfoldable pub dispatch_to : M → ℕ → Observer M → Observer M
  unfolding dispatch
  dispatch_to m w o = set_wrap w (record (o.wraps w) { context = dispatch (o.wraps w).context m }) o

  -- The loop of `forEachTarget`.
  unfoldable pub to_each : M → List ℕ → Observer M → Observer M
  unfolding dispatch_to
  to_each m [] o = o
  to_each m (w ∷ ws) o = to_each m ws (dispatch_to m w o)

  unfoldable pub on_message : M → Observer M → Observer M
  unfolding living to_each
  on_message m o =
      if o.closed
      then o
      else (let kept = living o.wraps o.targets in to_each m kept (record o { targets = kept }))

  -- `NewInstance`, from the point where the observer of the track is known.
  unfoldable pub new_instance : Observer M → Observer M
  unfolding bind new_wrap
  new_instance o = bind o.made (set_wrap o.made new_wrap (record o { made = suc o.made }))

  -- `OnMessage` with a function, and `RemoveMessageCallback`.
  unfoldable pub set_callback : Bool → ℕ → Observer M → Observer M
  set_callback b w o = set_wrap w (record (o.wraps w) { callback = b }) o

  -- `onMessage` and `onBufferMessage` of the wrap.
  unfoldable pub call_back : M → Wrap M → Wrap M
  call_back m x = if x.callback then record x { heard = x.heard ++ (m ∷ []) } else x

  -- The lambda of the observer's `onMessage`.
  unfoldable pub run_queued : ℕ → M → Observer M → Observer M
  unfolding call_back
  run_queued w m o =
      if (o.wraps w).alive && not o.closed then set_wrap w (call_back m (o.wraps w)) o else o

  -- The JS thread takes the oldest callback of the wrap's context, and runs it.
  unfoldable pub run_next : ℕ → Observer M → Observer M
  unfolding run_queued
  run_next w o =
      let c = (o.wraps w).context in
      if c.closed then o else (elim c.queue [
        | [] ↦ o
        | m ∷ q ↦
            run_queued w m (set_wrap w (record (o.wraps w) { context = record c { queue = q } }) o)
      ])

  -- The destructor's first step, and its last one.
  unfoldable pub die : ℕ → Observer M → Observer M
  die w o = set_wrap w (record (o.wraps w) { alive = false }) o

  unfoldable pub close_wrap : ℕ → Observer M → Observer M
  unfolding close
  close_wrap w o = set_wrap w (record (o.wraps w) { context = close (o.wraps w).context }) o

  abbrev pub is_usable : ℕ → Observer M → Bool
  is_usable w o = ltb w o.made && (o.wraps w).alive

  -- The later steps of a destructor follow its first one.
  abbrev pub is_dying : ℕ → Observer M → Bool
  is_dying w o = ltb w o.made && not (o.wraps w).alive

  unfoldable pub step : Op M → Observer M → Observer M
  unfolding on_message new_instance close_observer set_callback run_next die unbind close_wrap
  step (arrives m) o = on_message m o
  step creates o = new_instance o
  step closes o = close_observer o
  step (listens w) o = if is_usable w o then set_callback true w o else o
  step (stops_listening w) o = if is_usable w o then set_callback false w o else o
  step (runs w) o = if is_usable w o then run_next w o else o
  step (dies w) o = if is_usable w o then die w o else o
  step (unbinds w) o = if is_dying w o then unbind w o else o
  step (closes_context w) o = if is_dying w o then close_wrap w o else o

  unfoldable pub run : List (Op M) → Observer M → Observer M
  unfolding step
  run [] o = o
  run (p ∷ ps) o = run ps (step p o)
