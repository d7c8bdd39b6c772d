-- ===== src/Sink/Count.antt =====
-- src/sinks: what the counters of a sink say.
use twilio_video_node.Base.{
  ℕ, suc, ◌+◌, ◌≤◌, ◌<◌, ◌^◌, ◌≡◌, ◌⊎◌, inl, inr, refl, ap, ◌∙◌, subst, sym, u32, true, false, List,
  [], ◌∷◌, ◌++◌, none, some, length, length-append, arith, u64,
}
use twilio_video_node.Async.{Context, open_context, queue_depth, dispatch, shed, requeue_front}
use twilio_video_node.Sink.{
  Sink, new_sink, close_sink, deliver_frame, on_frame, run_frame, start_drain, run_taken,
  throw_taken, run_next, throw_next, dropped_count, sink_depth, Op, frames, turns, throws, closes,
  step, run,
}

module _ {ℓ} {D : Type ℓ} where
  queue-cases : (q : List D) → (q ≡ []) ⊎ ((d : D) × (r : List D) × (q ≡ d ∷ r))
  queue-cases [] = inl refl
  queue-cases (d ∷ r) = inr (d, r, refl)

  shed_counts :
      (depth : ℕ) (q : List D) (n : ℕ)
      → n + length q < 2 ^ 64
      → (shed depth q n).1 + length (shed depth q n).0 ≡ n + length q
  unfolding shed
  shed_counts depth [] n h = omega arith
  shed_counts depth (a ∷ q) n h = ground (arith, shed_counts depth q (u64 (n + 1)) (omega arith))

  dispatch_counts :
      (c : Context D) (d : D)
      → c.closed ≡ false
      → c.dropped + length c.queue < 2 ^ 64
      → ((dispatch c d).dropped + length (dispatch c d).queue ≡ suc (c.dropped + length c.queue))
        × ((dispatch c d).closed ≡ false)
  unfolding dispatch
  dispatch_counts c d k h = ground (
    arith,
    shed_counts c.max_queue_depth c.queue c.dropped h,
    length-append (shed c.max_queue_depth c.queue c.dropped).0 (d ∷ []),
  )

  -- While open: the frames that got an id are those delivered, taken by a drain, queued and dropped.
  data IsCounted (s : Sink D) : Type ℓ where
    open_sink :
        (c : Context D)
        → s.context ≡ some c
        → s.closed ≡ false
        → s.callback ≡ true
        → c.closed ≡ false
        → length s.delivered + length s.taken + length c.queue + c.dropped ≡ s.next_frame_id
        → IsCounted s
    closed_sink :
        s.context ≡ none
        → s.closed ≡ true
        → length s.delivered + s.native_dropped ≤ s.next_frame_id
        → IsCounted s

  on_frame_open :
      (make : ℕ → D) (s : Sink D) (c : Context D)
      → s.closed ≡ false
      → s.context ≡ some c
      → on_frame make s ≡ record s {
        next_frame_id = u32 (suc s.next_frame_id);
        context = some (dispatch c (make s.next_frame_id));
      }
  unfolding on_frame deliver_frame
  on_frame_open make s c k e = ground arith

  on_frame_closed : (make : ℕ → D) (s : Sink D) → s.closed ≡ true → on_frame make s ≡ s
  unfolding on_frame
  on_frame_closed make s k = ground arith

  run_next_starts :
      (s : Sink D) (c : Context D)
      → s.context ≡ some c
      → c.closed ≡ false
      → s.taken ≡ []
      → run_next s ≡ record s { taken = c.queue; context = some (record c { queue = [] }) }
  unfolding run_next start_drain
  run_next_starts s c e k t = ground arith

  run_next_runs :
      (s : Sink D) (c : Context D) (d : D) (rest : List D)
      → s.context ≡ some c
      → s.closed ≡ false
      → s.callback ≡ true
      → c.closed ≡ false
      → s.taken ≡ d ∷ rest
      → run_next s ≡ record s { taken = rest; delivered = s.delivered ++ (d ∷ []) }
  unfolding run_next run_taken run_frame
  run_next_runs s c d rest e k b kc t = ground arith

  throw_next_idle : (s : Sink D) → s.taken ≡ [] → throw_next s ≡ s
  unfolding throw_next
  throw_next_idle s t = ground arith

  throw_next_runs :
      (s : Sink D) (c : Context D) (d : D) (rest : List D)
      → s.context ≡ some c
      → s.closed ≡ false
      → s.callback ≡ true
      → c.closed ≡ false
      → s.taken ≡ d ∷ rest
      → throw_next s ≡ record s {
        taken = [];
        delivered = s.delivered ++ (d ∷ []);
        context = some (requeue_front c rest);
      }
  unfolding throw_next throw_taken run_frame
  throw_next_runs s c d rest e k b kc t = ground arith

  requeue_counts :
      (c : Context D) (rest : List D)
      → c.closed ≡ false
      → (length (requeue_front c rest).queue ≡ length rest + length c.queue)
        × ((requeue_front c rest).closed ≡ false)
        × ((requeue_front c rest).dropped ≡ c.dropped)
  unfolding requeue_front
  requeue_counts c [] k = (omega arith, k, refl)
  requeue_counts c (d ∷ rest) k = ground (arith, length-append rest c.queue)

  close_sink_open :
      (s : Sink D) (c : Context D)
      → s.context ≡ some c
      → s.closed ≡ false
      → close_sink s
        ≡ record s { closed = true; callback = false; native_dropped = c.dropped; context = none }
  unfolding close_sink
  close_sink_open s c e k = ground arith

  close_sink_closed : (s : Sink D) → s.closed ≡ true → close_sink s ≡ s
  unfolding close_sink
  close_sink_closed s k = ground arith

  -- What stays of a closed sink.
  abbrev IsKept : Sink D → Sink D → Type ℓ
  IsKept s u =
      (u.context ≡ none)
      × (u.closed ≡ true)
      × (u.native_dropped ≡ s.native_dropped)
      × (u.next_frame_id ≡ s.next_frame_id)
      × (u.delivered ≡ s.delivered)

  run_next_shut : (s : Sink D) → s.context ≡ none → s.closed ≡ true → IsKept s (run_next s)
  unfolding run_next start_drain run_taken
  run_next_shut s e k = ground arith

  throw_next_shut : (s : Sink D) → s.context ≡ none → s.closed ≡ true → IsKept s (throw_next s)
  unfolding throw_next throw_taken
  throw_next_shut s e k = ground arith

  step-IsCounted :
      (o : Op D) (s : Sink D) → suc s.next_frame_id < 2 ^ 32 → IsCounted s → IsCounted (step o s)
  unfolding step
  step-IsCounted (frames make) s b (open_sink c e k cb kc n) =
      let (h, kc') = dispatch_counts c (make s.next_frame_id) kc (omega arith) in
      subst IsCounted (sym (on_frame_open make s c k e))
        (open_sink (dispatch c (make s.next_frame_id)) refl k cb kc' (omega arith))
  step-IsCounted turns s b (open_sink c e k cb kc n) = elim (queue-cases s.taken) [
    | inl t ↦
        subst IsCounted (sym (run_next_starts s c e kc t))
          (open_sink (record c { queue = [] }) refl k cb kc (omega (arith, n, ap length t)))
    | inr (d, r, t) ↦
        subst IsCounted (sym (run_next_runs s c d r e k cb kc t)) (
          open_sink c e k cb kc (omega (arith, n, ap length t, length-append s.delivered (d ∷ []))))
  ]
  step-IsCounted throws s b (open_sink c e k cb kc n) = elim (queue-cases s.taken) [
    | inl t ↦ subst IsCounted (sym (throw_next_idle s t)) (open_sink c e k cb kc n)
    | inr (d, r, t) ↦
        let (l, kc', dr) = requeue_counts c r kc in
        subst IsCounted (sym (throw_next_runs s c d r e k cb kc t)) (
          open_sink (requeue_front c r) refl k cb kc'
            (omega (arith, n, ap length t, length-append s.delivered (d ∷ []))))
  ]
  step-IsCounted closes s b (open_sink c e k cb kc n) =
      subst IsCounted (sym (close_sink_open s c e k)) (closed_sink refl refl (omega arith))
  step-IsCounted (frames make) s b (closed_sink e k n) =
      subst IsCounted (sym (on_frame_closed make s k)) (closed_sink e k n)
  step-IsCounted turns s b (closed_sink e k n) =
      let (e', k', r, i, d) = run_next_shut s e k in closed_sink e' k' (rw (i, r, d) n)
  step-IsCounted throws s b (closed_sink e k n) =
      let (e', k', r, i, d) = throw_next_shut s e k in closed_sink e' k' (rw (i, r, d) n)
  step-IsCounted closes s b (closed_sink e k n) =
      subst IsCounted (sym (close_sink_closed s k)) (closed_sink e k n)

  step_id :
      (o : Op D) (s : Sink D)
      → suc s.next_frame_id < 2 ^ 32
      → (step o s).next_frame_id ≤ suc s.next_frame_id
  unfolding step on_frame deliver_frame run_next start_drain run_taken throw_next throw_taken
      run_frame close_sink
  step_id (frames make) s b = ground arith
  step_id turns s b = ground arith
  step_id throws s b = ground arith
  step_id closes s b = ground arith

  run-IsCounted :
      (os : List (Op D)) (s : Sink D)
      → s.next_frame_id + length os < 2 ^ 32
      → IsCounted s
      → IsCounted (run os s)
  unfolding run
  run-IsCounted [] s b c = c
  run-IsCounted (o ∷ os) s b c =
      run-IsCounted os (step o s) (omega (arith, step_id o s (omega arith)))
        (step-IsCounted o s (omega arith) c)

  step-IsKept : (o : Op D) (s : Sink D) → s.context ≡ none → s.closed ≡ true → IsKept s (step o s)
  unfolding step on_frame close_sink
  step-IsKept (frames make) s e k = ground arith
  step-IsKept turns s e k = run_next_shut s e k
  step-IsKept throws s e k = throw_next_shut s e k
  step-IsKept closes s e k = ground arith

  run-IsKept :
      (os : List (Op D)) (s : Sink D) → s.context ≡ none → s.closed ≡ true → IsKept s (run os s)
  unfolding run
  run-IsKept [] s e k = (e, k, refl, refl, refl)
  run-IsKept (o ∷ os) s e k =
      let (e', k', r, i, d) = step-IsKept o s e k in
      let (f, l, r', i', d') = run-IsKept os (step o s) e' k' in (f, l, r' ∙ r, i' ∙ i, d' ∙ d)

  abbrev pub IsAccounted : Sink D → Type 0
  IsAccounted s =
      ((s.closed ≡ false)
        × (length s.delivered + length s.taken + sink_depth s + dropped_count s ≡ s.next_frame_id))
      ⊎ ((s.closed ≡ true)
          × (sink_depth s ≡ 0)
          × (length s.delivered + dropped_count s ≤ s.next_frame_id))

  accounted : (s : Sink D) → IsCounted s → IsAccounted s
  unfolding sink_depth dropped_count queue_depth
  accounted s (open_sink c e k cb kc n) = ground arith
  accounted s (closed_sink e k n) = ground arith

  -- What `s` reports and delivered, `u` does too, and it delivers no more.
  abbrev pub IsSettled : Sink D → Sink D → Type ℓ
  IsSettled s u =
      (u.closed ≡ true) × (dropped_count u ≡ dropped_count s) × (u.delivered ≡ s.delivered)

  close_sink-IsSettled :
      (s : Sink D) → IsCounted s → IsSettled s (close_sink s) × ((close_sink s).context ≡ none)
  unfolding dropped_count close_sink
  close_sink-IsSettled s (open_sink c e k cb kc n) = ground arith
  close_sink-IsSettled s (closed_sink e k n) = ground arith

  kept-IsSettled : (s u : Sink D) → s.context ≡ none → IsKept s u → IsSettled s u
  unfolding dropped_count
  kept-IsSettled s u e k = ground arith

  closed-IsSettled :
      (later : List (Op D)) (s : Sink D) → IsCounted s → IsSettled s (run later (close_sink s))
  closed-IsSettled later s c =
      let ((k, d, l), e) = close_sink-IsSettled s c in
      let v = close_sink s in
      let (k', d', l') = kept-IsSettled v (run later v) e (run-IsKept later v e k) in
      (k', d' ∙ d, l' ∙ l)

  -- After any calls on a new sink, fewer than 2^32, every frame that it gave an id is accounted for:
  -- while the sink is open it was given to the callback, is about to be run, is queued, or was counted as
  -- dropped; once the sink is closed nothing is queued, and those given and those dropped are no more than
  -- the ids. When the sink is then closed, the count of dropped frames is what it was, and stays so
  -- whatever is called later, and no further frame is given to the callback.
  pub run-IsAccounted :
      (depth : ℕ) (before later : List (Op D))
      → length before < 2 ^ 32
      → let s = run before (new_sink depth) in
        IsAccounted s × IsSettled s (run later (close_sink s))
  unfolding new_sink open_context
  run-IsAccounted depth before later b =
      let s = run before (new_sink depth) in
      let c =
        run-IsCounted before (new_sink depth) (omega arith)
          (open_sink (open_context depth) refl refl refl refl (omega arith)) in
      (accounted s c, closed-IsSettled later s c)
