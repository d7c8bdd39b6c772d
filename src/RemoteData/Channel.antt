-- ===== src/RemoteData/Channel.antt =====
-- What a remote data track promises: a channel with subscribers, each with its own inbox.
use twilio_video_node.Base.{ℕ, suc, Bool, true, false, List, [], ◌∷◌, ◌++◌, ◌==◌, if◌then◌else◌}
use twilio_video_node.RemoteData.{
  Op, arrives, creates, closes, listens, stops_listening, runs, dies, unbinds, closes_context,
}

pub record Subscriber {ℓ} (M : Type ℓ) : Type ℓ where
  pub subscribed : Bool
  pub listening : Bool
  pub inbox : List M
  pub heard : List M

-- Subscribers are numbered in the order in which they came.
pub record Channel {ℓ} (M : Type ℓ) : Type ℓ where
  pub closed : Bool
  pub count : ℕ
  pub subscribers : ℕ → Subscriber M

module _ {ℓ} {M : Type ℓ} where
  abbrev pub absent : Subscriber M
  absent = record { subscribed = false; listening = false; inbox = []; heard = [] }

  abbrev pub arrival : Subscriber M
  arrival = record { subscribed = true; listening = false; inbox = []; heard = [] }

  abbrev pub new_channel : Channel M
  new_channel = record { closed = false; count = 0; subscribers = λ w. absent }

  -- A message goes to the end of the inbox of each subscriber.
  abbrev pub receive : M → Subscriber M → Subscriber M
  receive m s = if s.subscribed then record s { inbox = s.inbox ++ (m ∷ []) } else s

  abbrev pub leave : Subscriber M → Subscriber M
  leave s = record s { subscribed = false }

  abbrev pub listen : Bool → Subscriber M → Subscriber M
  listen b s = if s.subscribed then record s { listening = b } else s

  abbrev pub take_from : List M → Subscriber M → Subscriber M
  take_from [] s = s
  take_from (m ∷ q) s =
      if s.listening
      then record s { inbox = q; heard = s.heard ++ (m ∷ []) }
      else record s { inbox = q }

  -- One message of the inbox is heard, or lost where the subscriber does not listen.
  abbrev pub take_next : Subscriber M → Subscriber M
  take_next s = if s.subscribed then take_from s.inbox s else s

  abbrev pub at_one : ℕ → (Subscriber M → Subscriber M) → Channel M → Channel M
  at_one w f c = record c {
    subscribers = λ v. if v == w then f (c.subscribers v) else c.subscribers v;
  }

  unfoldable pub channel_step : Op M → Channel M → Channel M
  channel_step (arrives m) c = record c { subscribers = λ w. receive m (c.subscribers w) }
  channel_step creates c = record c {
    count = suc c.count;
    subscribers =
        λ w. if w == c.count then (if c.closed then absent else arrival) else c.subscribers w;
  }
  channel_step closes c = record c { closed = true; subscribers = λ w. leave (c.subscribers w) }
  channel_step (listens w) c = at_one w (listen true) c
  channel_step (stops_listening w) c = at_one w (listen false) c
  channel_step (runs w) c = at_one w take_next c
  channel_step (dies w) c = at_one w leave c
  channel_step (unbinds w) c = c
  channel_step (closes_context w) c = c

  unfoldable pub channel_run : List (Op M) → Channel M → Channel M
  unfolding channel_step
  channel_run [] c = c
  channel_run (p ∷ ps) c = channel_run ps (channel_step p c)
