-- ===== src/RemoteData/Inbox.antt =====
-- What a listening subscriber of the channel hears, and what waits in its inbox.
use twilio_video_node.Base.{
  Bool-cases, ==_iff, inl, inr, subst, ℕ, ◌≤◌, ◌<◌, ◌≡◌, ◌≢◌, refl, sym, true, false, List, [], ◌∷◌,
  ◌++◌, append-nil, append_assoc, arith, ◌==◌, if◌then◌else◌,
}
use twilio_video_node.RemoteData.{
  Op, arrives, creates, closes, listens, stops_listening, runs, dies, unbinds, closes_context,
}
use twilio_video_node.RemoteData.Channel.{
  Channel, at_one, listen, leave, channel_step, channel_run, Subscriber, receive, take_from,
  take_next,
}

module _ {ℓ} {M : Type ℓ} where
  -- The calls neither close the observer nor end what the wrap hears.
  abbrev pub Stays : ℕ → List (Op M) → Type 0
  Stays w [] = Unit
  Stays w (closes ∷ ps) = ⊥
  Stays w (stops_listening v ∷ ps) = (v ≢ w) × Stays w ps
  Stays w (dies v ∷ ps) = (v ≢ w) × Stays w ps
  Stays w (p ∷ ps) = Stays w ps

  abbrev pub message : Op M → List M
  message (arrives m) = m ∷ []
  message p = []

  -- The messages that arrive.
  abbrev pub messages : List (Op M) → List M
  messages [] = []
  messages (p ∷ ps) = message p ++ messages ps

  -- A subscriber that listens, and what has arrived for it.
  abbrev pub IsHearing : Subscriber M → List M → Type ℓ
  IsHearing s es = (s.subscribed ≡ true) × (s.listening ≡ true) × (es ≡ s.heard ++ s.inbox)

  abbrev IsHearingAt : ℕ → Channel M → List M → Type ℓ
  IsHearingAt w c es = (w < c.count) × IsHearing (c.subscribers w) es

  more : (es : List M) (s : Subscriber M) → IsHearing s es → IsHearing s (es ++ [])
  more es s h = subst (IsHearing s) (sym (append-nil es)) h

  receive-IsHearing :
      (m : M) (s : Subscriber M) (es : List M)
      → IsHearing s es
      → IsHearing (receive m s) (es ++ (m ∷ []))
  receive-IsHearing m s es h =
      (ground arith, ground arith, ground (arith, append_assoc s.heard s.inbox (m ∷ [])))

  take_from-IsHearing :
      (q : List M) (s : Subscriber M) (es : List M)
      → s.inbox ≡ q
      → IsHearing s es
      → IsHearing (take_from q s) es
  take_from-IsHearing [] s es i h = h
  take_from-IsHearing (m ∷ q) s es i h =
      (ground arith, ground arith, ground (arith, append_assoc s.heard (m ∷ []) q))

  take_next-IsHearing :
      (s : Subscriber M) (es : List M) → IsHearing s es → IsHearing (take_next s) es
  take_next-IsHearing s es h =
      subst (λ b. IsHearing (if b then take_from s.inbox s else s) es) (sym h.0)
        (take_from-IsHearing s.inbox s es refl h)

  at_one-IsHearing :
      (v w : ℕ) (f : Subscriber M → Subscriber M) (c : Channel M) (es : List M)
      → (v ≡ w → IsHearing (f (c.subscribers w)) es)
      → IsHearing (c.subscribers w) es
      → IsHearing ((at_one v f c).subscribers w) es
  at_one-IsHearing v w f c es k h = elim (Bool-cases (w == v)) [
    | inl t ↦
        subst (λ b. IsHearing (if b then f (c.subscribers w) else c.subscribers w) es) (sym t)
          (k (sym ((==_iff w v).0 t)))
    | inr n ↦
        subst (λ b. IsHearing (if b then f (c.subscribers w) else c.subscribers w) es) (sym n) h
  ]

  -- `Stays`, one call at a time.
  abbrev StaysOne : ℕ → Op M → Type 0
  StaysOne w p = Stays w (p ∷ [])

  split_stay : (w : ℕ) (p : Op M) (ps : List (Op M)) → Stays w (p ∷ ps) → StaysOne w p × Stays w ps
  split_stay w closes ps k = absurd k
  split_stay w (stops_listening v) ps k = ((k.0, tt), k.1)
  split_stay w (dies v) ps k = ((k.0, tt), k.1)
  split_stay w (arrives m) ps k = (tt, k)
  split_stay w creates ps k = (tt, k)
  split_stay w (listens v) ps k = (tt, k)
  split_stay w (runs v) ps k = (tt, k)
  split_stay w (unbinds v) ps k = (tt, k)
  split_stay w (closes_context v) ps k = (tt, k)

  channel_step-IsHearing :
      (p : Op M) (w : ℕ) (c : Channel M) (es : List M)
      → StaysOne w p
      → w < c.count
      → IsHearing (c.subscribers w) es
      → IsHearing ((channel_step p c).subscribers w) (es ++ message p)
  unfolding channel_step
  channel_step-IsHearing (arrives m) w c es k l h = receive-IsHearing m (c.subscribers w) es h
  channel_step-IsHearing creates w c es k l h =
      (ground arith, ground arith, ground (arith, append-nil es))
  channel_step-IsHearing closes w c es k l h = absurd k
  channel_step-IsHearing (listens v) w c es k l h =
      (ground arith, ground arith, ground (arith, append-nil es))
  channel_step-IsHearing (stops_listening v) w c es k l h =
      more es ((at_one v (listen false) c).subscribers w)
        (at_one-IsHearing v w (listen false) c es (λ e. absurd (k.0 e)) h)
  channel_step-IsHearing (runs v) w c es k l h =
      more es ((at_one v take_next c).subscribers w)
        (at_one-IsHearing v w take_next c es (λ e. take_next-IsHearing (c.subscribers w) es h) h)
  channel_step-IsHearing (dies v) w c es k l h =
      more es ((at_one v leave c).subscribers w)
        (at_one-IsHearing v w leave c es (λ e. absurd (k.0 e)) h)
  channel_step-IsHearing (unbinds v) w c es k l h = more es (c.subscribers w) h
  channel_step-IsHearing (closes_context v) w c es k l h = more es (c.subscribers w) h

  channel_step-count : (p : Op M) (c : Channel M) → c.count ≤ (channel_step p c).count
  unfolding channel_step
  channel_step-count creates c = omega arith
  channel_step-count p c = omega arith

  pub channel_run-IsHearing :
      (ps : List (Op M)) (w : ℕ) (c : Channel M) (es : List M)
      → Stays w ps
      → w < c.count
      → IsHearing (c.subscribers w) es
      → IsHearing ((channel_run ps c).subscribers w) (es ++ messages ps)
  unfolding channel_run
  channel_run-IsHearing [] w c es k l h = more es (c.subscribers w) h
  channel_run-IsHearing (p ∷ ps) w c es k l h =
      let (one, rest) = split_stay w p ps k in
      subst (IsHearing ((channel_run ps (channel_step p c)).subscribers w))
        (append_assoc es (message p) (messages ps))
        (channel_run-IsHearing ps w (channel_step p c) (es ++ message p) rest
          (omega (arith, channel_step-count p c)) (channel_step-IsHearing p w c es one l h))

  pub new_subscriber :
      (c : Channel M) (w : ℕ)
      → c.closed ≡ false
      → w ≡ c.count
      → let u = channel_step (listens w) (channel_step creates c) in
        (w < u.count) × IsHearing (u.subscribers w) []
  unfolding channel_step
  new_subscriber c w k e = (ground arith, (ground arith, ground arith, ground arith))
