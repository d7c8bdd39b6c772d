-- ===== src/RemoteData/Registry/Shared.antt =====
-- src/media/remote_data_track_wrap.cpp: the wraps of a remote data track share the observer that the
-- track calls.
use twilio_video_node.Base.{
  ℕ, ◌≡◌, inl, inr, refl, sym, ap, ◌∙◌, true, false, ◌&&◌, List, Option, none, some, arith,
  Bool-cases, ◌==◌,
}
use twilio_video_node.RemoteData.Registry.{
  DataTrackRegistration, Registry, find, new_registry, Op, create, reuse, observer_of, run,
}
use twilio_video_node.RemoteData.Registry.Filed.{
  IsFiled, IsValid, All-find, run-IsValid, new_registry-IsValid,
}

module _ (address : ℕ → ℕ) where
  -- The observer is open, owned by a wrap, made for this track and the one that the track calls; the next
  -- wrap of the track gets it too.
  abbrev pub IsShared : ℕ → Registry × ℕ → Type 0
  IsShared t (u, b) =
      (u.closed b ≡ false)
      × (u.owned b ≡ true)
      × (u.made_for b ≡ t)
      × (u.attached t ≡ some b)
      × (observer_of address t u ≡ (u, b))

  reused :
      (t b : ℕ) (r : Registry)
      → find (address t) r.entries ≡ some (record { track = t; observer = b })
      → r.owned b ≡ true
      → observer_of address t r ≡ (r, b)
  unfolding observer_of reuse
  reused t b r e o = ground arith

  create-IsShared : (t : ℕ) (r : Registry) → IsValid address r → IsShared t (create address t r)
  unfolding create find
  create-IsShared t r v =
      let u = (create address t r).0 in
      let e : find (address t) u.entries ≡ some (record { track = t; observer = r.made }) =
        ground arith in
      let o : u.owned r.made ≡ true = ground arith in
      (v.fresh r.made (omega arith), o, ground arith, ground arith, reused t r.made u e o)

  reuse-IsShared :
      (o : Option DataTrackRegistration) (t : ℕ) (r : Registry)
      → IsValid address r
      → find (address t) r.entries ≡ o
      → IsShared t (reuse address o t r)
  unfolding reuse
  reuse-IsShared none t r v e = create-IsShared t r v
  reuse-IsShared (some g) t r v e = elim (Bool-cases (g.track == t && r.owned g.observer)) [
    | inl u ↦
        let f = All-find address (IsFiled address r) (address t) g r.entries v.filed e in
        let same : g.track ≡ t = ground arith in
        let o : r.owned g.observer ≡ true = ground arith in
        let s = reused t g.observer r (ground arith) o in
        rw u (f.3, o, f.0 ∙ same, ap r.attached (sym same) ∙ f.4, s)
    | inr n ↦ rw n (create-IsShared t r v)
  ]

  -- Whatever wraps, tracks and observers have come and gone, and also where a track has the address of a
  -- freed one, the observer that a new wrap of a remote data track is bound to is open, made for this
  -- track, the one that the track calls, and the one that the next wrap of the track gets too.
  pub observer_of-IsShared :
      (os : List Op) (t : ℕ) → IsShared t (observer_of address t (run address os new_registry))
  unfolding observer_of
  observer_of-IsShared os t =
      let r = run address os new_registry in
      reuse-IsShared (find (address t) r.entries) t r
        (run-IsValid address os new_registry (new_registry-IsValid address)) refl
