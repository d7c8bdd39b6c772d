-- ===== src/RemoteData/Targets.antt =====
-- src/media/remote_data_track_wrap.cpp: how often a wrap stands among the targets, and what the loop of
-- `forEachTarget` does to each wrap.
use twilio_video_node.Base.{
  Bool-cases, inl, inr, ==_iff, ℕ, suc, ◌+◌, ◌≡◌, refl, sym, ap, ◌∙◌, Bool, true, false, List, [],
  ◌∷◌, ◌++◌, replicate, append-nil, append_assoc, arith, ◌==◌, if◌then◌else◌,
}
use twilio_video_node.Async.{Context, dispatch}
use twilio_video_node.Async.Queue.{dispatch_unbounded}
use twilio_video_node.RemoteData.{Wrap, Observer, without, living, dispatch_to, to_each}

abbrev pub count : ℕ → List ℕ → ℕ
count w [] = 0
count w (v ∷ vs) = (if v == w then 1 else 0) + count w vs

one_more : (n : ℕ) → suc n ≡ 1 + n
one_more n = omega arith

none_more : (n : ℕ) → n ≡ 0 + n
none_more n = omega arith

==_refl : (v : ℕ) → (v == v) ≡ true
==_refl v = ground arith

==_flip : (v w : ℕ) → (v == w) ≡ false → (w == v) ≡ false
==_flip v w f = ground arith

pub count-append :
    (w v : ℕ) (vs : List ℕ) → count w (vs ++ (v ∷ [])) ≡ count w vs + (if v == w then 1 else 0)
count-append w v [] = ground arith
count-append w v (u ∷ us) = ground (arith, count-append w v us)

pub count-without :
    (w v : ℕ) (vs : List ℕ) → count w (without v vs) ≡ (if v == w then 0 else count w vs)
unfolding without
count-without w v [] = ground arith
count-without w v (u ∷ us) = ground (arith, count-without w v us)

module _ {ℓ} {M : Type ℓ} where
  pub count-living :
      (w : ℕ) (f : ℕ → Wrap M) (vs : List ℕ)
      → count w (living f vs) ≡ (if (f w).alive then count w vs else 0)
  unfolding living
  count-living w f [] = ground arith
  count-living w f (u ∷ us) = ground (arith, count-living w f us)

  -- A context that takes every message.
  abbrev pub IsOpen : Wrap M → Type 0
  IsOpen x = (x.context.closed ≡ false) × (x.context.max_queue_depth ≡ 0)

  -- What a wrap is after the loop, of which it was so many targets.
  abbrev pub IsGiven : ℕ → M → Wrap M → Wrap M → Type ℓ
  IsGiven n m x y =
      (y.alive ≡ x.alive)
      × (y.callback ≡ x.callback)
      × (y.heard ≡ x.heard)
      × (IsOpen x → IsOpen y × (y.context.queue ≡ x.context.queue ++ replicate n m))

  dispatch_open :
      (c : Context M) (m : M)
      → c.closed ≡ false
      → c.max_queue_depth ≡ 0
      → ((dispatch c m).queue ≡ c.queue ++ (m ∷ []))
        × ((dispatch c m).closed ≡ false)
        × ((dispatch c m).max_queue_depth ≡ 0)
  dispatch_open c m o z = ground (arith, dispatch_unbounded c m z)

  IsGiven-trans :
      (b : Bool) (n : ℕ) (m : M) (x y z : Wrap M)
      → IsGiven (if b then 1 else 0) m x y
      → IsGiven n m y z
      → IsGiven ((if b then 1 else 0) + n) m x z
  IsGiven-trans true n m x y z (a, c, h, q) (a', c', h', q') = (
    a' ∙ a,
    c' ∙ c,
    h' ∙ h,
    λ o. (
      (q' (q o).0).0,
      (q' (q o).0).1
          ∙ ap (λ k. k ++ replicate n m) (q o).1
          ∙ append_assoc x.context.queue (m ∷ []) (replicate n m)
          ∙ ap (λ k. x.context.queue ++ replicate k m) (one_more n),
    ),
  )
  IsGiven-trans false n m x y z (a, c, h, q) (a', c', h', q') = (
    a' ∙ a,
    c' ∙ c,
    h' ∙ h,
    λ o. (
      (q' (q o).0).0,
      (q' (q o).0).1
          ∙ ap (λ k. k ++ replicate n m) ((q o).1 ∙ append-nil x.context.queue)
          ∙ ap (λ k. x.context.queue ++ replicate k m) (none_more n),
    ),
  )

  left_alone : (m : M) (x : Wrap M) → IsGiven 0 m x x
  left_alone m x = (refl, refl, refl, λ h. (h, sym (append-nil x.context.queue)))

  handed_once : (m : M) (x : Wrap M) → IsGiven 1 m x (record x { context = dispatch x.context m })
  handed_once m x =
      (refl, refl, refl, λ h. let d = dispatch_open x.context m h.0 h.1 in ((d.1, d.2), d.0))

  dispatch_to-IsGiven :
      (m : M) (v w : ℕ) (o : Observer M)
      → IsGiven (if v == w then 1 else 0) m (o.wraps w) ((dispatch_to m v o).wraps w)
  unfolding dispatch_to
  dispatch_to-IsGiven m v w o = elim (Bool-cases (v == w)) [
    | inl t ↦ let e = (==_iff v w).0 t in rw (sym e, ==_refl v) (handed_once m (o.wraps v))
    | inr f ↦ rw (f, ==_flip v w f) (left_alone m (o.wraps w))
  ]

  -- The loop, seen from one wrap.
  pub to_each-IsGiven :
      (m : M) (vs : List ℕ) (o : Observer M)
      → let u = to_each m vs o in
        (u.closed ≡ o.closed)
        × (u.made ≡ o.made)
        × (u.targets ≡ o.targets)
        × ((w : ℕ) → IsGiven (count w vs) m (o.wraps w) (u.wraps w))
  unfolding to_each dispatch_to
  to_each-IsGiven m [] o = (
    refl,
    refl,
    refl,
    λ w. (refl, refl, refl, λ h. (h, sym (append-nil (o.wraps w).context.queue))),
  )
  to_each-IsGiven m (v ∷ vs) o =
      let (c, n, t, g) = to_each-IsGiven m vs (dispatch_to m v o) in
      (
        c,
        n,
        t,
        λ w.
            IsGiven-trans (v == w) (count w vs) m (o.wraps w) ((dispatch_to m v o).wraps w)
              ((to_each m vs (dispatch_to m v o)).wraps w) (dispatch_to-IsGiven m v w o) (g w),
      )
