-- ===== src/RoomObserver/Lookup.antt =====
-- The map of src/video/room_observer_wrap.cpp: what is found after an entry was erased.
use twilio_video_node.Base.{
  Bool-cases, inl, inr, suc, ◌<◌, ◌≤◌, ◌∙◌, ℕ, ◌≡◌, refl, Bool, true, List, [], ◌∷◌, none, some,
  arith, ◌==◌, if◌then◌else◌,
}
use twilio_video_node.RoomObserver.{Registration, update, lookup, erase, close_all}

pub lookup-erase :
    (k j : ℕ) (es : List (ℕ × Registration))
    → lookup k (erase j es) ≡ (if j == k then none else lookup k es)
unfolding lookup erase
lookup-erase k j [] = ground arith
lookup-erase k j ((i, g) ∷ es) = ground (arith, lookup-erase k j es)

-- Every observer of an entry is one of the first so many made.
abbrev pub Below : ℕ → List (ℕ × Registration) → Type 0
Below n [] = Unit
Below n ((k, g) ∷ es) = (g.observer < n) × Below n es

pub Below-erase : (n j : ℕ) (es : List (ℕ × Registration)) → Below n es → Below n (erase j es)
unfolding erase
Below-erase n j [] b = tt
Below-erase n j ((i, g) ∷ es) b = elim (Bool-cases (i == j)) [
  | inl t ↦ rw t (Below-erase n j es b.1)
  | inr f ↦ rw f (b.0, Below-erase n j es b.1)
]

pub Below-suc : (n : ℕ) (es : List (ℕ × Registration)) → Below n es → Below (suc n) es
Below-suc n [] b = tt
Below-suc n ((i, g) ∷ es) b = (omega arith, Below-suc n es b.1)

pub close_all-fresh :
    (es : List (ℕ × Registration)) (shut : ℕ → Bool) (n b : ℕ)
    → Below n es
    → n ≤ b
    → close_all es shut b ≡ shut b
unfolding close_all
close_all-fresh [] shut n b h l = refl
close_all-fresh ((k, g) ∷ es) shut n b h l =
    close_all-fresh es (update g.observer true shut) n b h.1 l ∙ ground arith

close_all-shut :
    (es : List (ℕ × Registration)) (shut : ℕ → Bool) (b : ℕ)
    → shut b ≡ true
    → close_all es shut b ≡ true
unfolding close_all
close_all-shut [] shut b h = h
close_all-shut ((k, g) ∷ es) shut b h =
    close_all-shut es (update g.observer true shut) b (ground arith)

pub close_all-found :
    (es : List (ℕ × Registration)) (shut : ℕ → Bool) (k : ℕ) (g : Registration)
    → lookup k es ≡ some g
    → close_all es shut g.observer ≡ true
unfolding close_all lookup
close_all-found [] shut k g h = cc
close_all-found ((j, x) ∷ es) shut k g h = elim (Bool-cases (j == k)) [
  | inl t ↦ close_all-shut es (update x.observer true shut) g.observer (ground arith)
  | inr f ↦ close_all-found es (update x.observer true shut) k g (ground arith)
]
