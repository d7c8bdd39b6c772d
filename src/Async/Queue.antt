-- ===== src/Async/Queue.antt =====
-- src/common/async_context.cpp, `AsyncContext::dispatch`: what the bounded queue keeps and counts.
use twilio_video_node.Base.{
  ℕ, suc, ◌+◌, ◌^◌, ◌<◌, ◌≡◌, refl, ap, false, List, [], ◌∷◌, ◌++◌, append_assoc, arith, ltb, leb,
  length, length-append, u64, Bool-cases, inl, inr, min, ◌&&◌, if◌then◌else◌,
}
use twilio_video_node.Async.{Context, shed, dispatch, send}

module _ {ℓ} {A : Type ℓ} where
  -- `shed` cuts a front off the queue, counts what it cuts, and leaves less than the depth.
  shed_lem :
      (depth : ℕ) (q : List A) (n : ℕ)
      → 0 < depth
      → n + length q < 2 ^ 64
      → (gone : List A) × (q ≡ gone ++ (shed depth q n).0)
        × ((shed depth q n).1 ≡ n + length gone)
        × (suc (length (shed depth q n).0) ≡ min depth (suc (length q)))
  unfolding shed
  shed_lem depth [] n h b = ([], refl, omega arith, omega arith)
  shed_lem depth (a ∷ q) n h b = elim (Bool-cases (ltb 0 depth && leb depth (length (a ∷ q)))) [
    | inl full ↦
        let rest = shed_lem depth q (u64 (n + 1)) h (omega arith) in
        rw (full, shed)
          (a ∷ rest.0, ap (◌∷◌ a) rest.1, omega (arith, rest.2), ground (arith, rest.3))
    | inr room ↦ rw (room, shed) ([], refl, omega arith, ground arith)
  ]

  shed_unbounded : (q : List A) (n : ℕ) → shed 0 q n ≡ (q, n)
  unfolding shed
  shed_unbounded [] n = refl
  shed_unbounded (a ∷ q) n = refl

  -- On an open context with a bound, `dispatch` appends the callback and drops just enough of the
  -- oldest ones: the queue is a suffix of what was queued before with the new callback at its end,
  -- its length is the smaller of the bound and one more than before (also where the queue was over
  -- the bound), and the drop counter grows by the number of callbacks dropped. The counter is taken
  -- not to pass 2^64.
  pub dispatch_drops_oldest :
      (c : Context A) (a : A)
      → c.closed ≡ false
      → 0 < c.max_queue_depth
      → c.dropped + length c.queue < 2 ^ 64
      → (gone : List A) × (c.queue ++ (a ∷ []) ≡ gone ++ (dispatch c a).queue)
        × ((dispatch c a).dropped ≡ c.dropped + length gone)
        × (length (dispatch c a).queue ≡ min c.max_queue_depth (suc (length c.queue)))
  unfolding dispatch
  dispatch_drops_oldest c a o h b =
      let front = shed_lem c.max_queue_depth c.queue c.dropped h b in
      let kept = (shed c.max_queue_depth c.queue c.dropped).0 in
      (
        front.0,
        ground (arith, front.1, append_assoc front.0 kept (a ∷ [])),
        ground (arith, front.2),
        ground (arith, front.3, length-append kept (a ∷ [])),
      )

  -- With no bound, `dispatch` on an open context appends the callback, drops nothing and signals the
  -- handle; on a closed one it does nothing.
  pub dispatch_unbounded :
      (c : Context A) (a : A)
      → c.max_queue_depth ≡ 0
      → dispatch c a
        ≡ (if c.closed then c else record c { queue = c.queue ++ (a ∷ []); handle = send c.handle })
  unfolding dispatch
  dispatch_unbounded c a z = ground (arith, shed_unbounded c.queue c.dropped)
