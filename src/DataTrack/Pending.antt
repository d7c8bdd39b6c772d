-- ===== src/DataTrack/Pending.antt =====
-- src/media/local_data_track_wrap.h, `pendingSends_`: a std::map from message ids to promises, as the
-- list of its entries in the order of their ids.
use twilio_video_node.Base.{
  ℕ, suc, ◌+◌, ◌≡◌, refl, Bool, true, false, List, [], ◌∷◌, Option, none, some, arith, ltb, ◌==◌,
  length, is_empty, if◌then◌else◌,
}

abbrev pub PendingSends : Type 0
PendingSends = List (ℕ × ℕ)

-- `emplace` leaves an id that is there as it is.
unfoldable pub emplace : ℕ → ℕ → PendingSends → PendingSends
emplace id p [] = (id, p) ∷ []
emplace id p ((j, q) ∷ m) =
    if id == j
    then (j, q) ∷ m
    else (if ltb id j then (id, p) ∷ (j, q) ∷ m else (j, q) ∷ emplace id p m)

unfoldable pub find : ℕ → PendingSends → Option ℕ
find id [] = none
find id ((j, q) ∷ m) = if id == j then some q else find id m

unfoldable pub erase : ℕ → PendingSends → PendingSends
erase id [] = []
erase id ((j, q) ∷ m) = if id == j then m else (j, q) ∷ erase id m

-- How often a promise is waiting.
abbrev pub one_if : Bool → ℕ
one_if true = 1
one_if false = 0

abbrev pub waiting : ℕ → PendingSends → ℕ
waiting p [] = 0
waiting p ((j, q) ∷ m) = one_if (p == q) + waiting p m

pub waiting-emplace :
    (p id q : ℕ) (m : PendingSends)
    → find id m ≡ none
    → waiting p (emplace id q m) ≡ waiting p m + one_if (p == q)
unfolding find emplace
waiting-emplace p id q [] h = omega arith
waiting-emplace p id q ((j, r) ∷ m) h = ground (arith, waiting-emplace p id q m)

pub length-emplace :
    (id q : ℕ) (m : PendingSends) → find id m ≡ none → length (emplace id q m) ≡ suc (length m)
unfolding find emplace
length-emplace id q [] h = refl
length-emplace id q ((j, r) ∷ m) h = ground (arith, length-emplace id q m)

pub waiting-erase :
    (p id q : ℕ) (m : PendingSends)
    → find id m ≡ some q
    → waiting p (erase id m) + one_if (p == q) ≡ waiting p m
unfolding find erase
waiting-erase p id q [] h = absurd (cc)
waiting-erase p id q ((j, r) ∷ m) h = ground (arith, waiting-erase p id q m)

pub is_empty-length : (m : PendingSends) → is_empty m ≡ (length m == 0)
is_empty-length [] = refl
is_empty-length (e ∷ m) = ground arith

pub find-not_empty : (id q : ℕ) (m : PendingSends) → find id m ≡ some q → is_empty m ≡ false
unfolding find
find-not_empty id q [] h = cc
find-not_empty id q (e ∷ m) h = refl

pub find-emplace :
    (id q : ℕ) (m : PendingSends) → find id m ≡ none → find id (emplace id q m) ≡ some q
unfolding find emplace
find-emplace id q [] h = ground arith
find-emplace id q ((j, r) ∷ m) h = ground (arith, find-emplace id q m)

pub erase-emplace : (id q : ℕ) (m : PendingSends) → find id m ≡ none → erase id (emplace id q m) ≡ m
unfolding find emplace erase
erase-emplace id q [] h = ground arith
erase-emplace id q ((j, r) ∷ m) h = ground (arith, erase-emplace id q m)
