-- ===== src/RoomObserver.antt =====
-- src/video/room_observer_wrap.h and src/video/room_observer_wrap.cpp: the registry of the observers of
-- a Room's participants. (RoomObserver.Events has the queues of events.)
-- A native participant, a SID and an observer are numbers: `sid` gives the SID that a participant
-- reports, and an observer is known by the number of observers made before it for the Room.
pub mod Lookup
pub mod Registered
pub mod Kept
pub mod Events
pub mod Caused
pub mod Calls
pub mod Departed
use twilio_video_node.Base.{
  ℕ, suc, Bool, true, false, ◌&&◌, not, List, [], ◌∷◌, Option, none, some, ltb, ◌==◌, if◌then◌else◌,
}

pub record Registration : Type 0 where
  pub participant : ℕ
  pub observer : ℕ

-- `participantObservers_`, the flag `closed_` of each observer, the observer that each participant was
-- last given by `setObserver`, and the participant that each observer was made for.
pub record Registry : Type 0 where
  pub entries : List (ℕ × Registration)
  pub made : ℕ
  pub shut : ℕ → Bool
  pub attached : ℕ → Option ℕ
  pub made_for : ℕ → ℕ

abbrev pub update {ℓ} : {A : Type ℓ} → ℕ → A → (ℕ → A) → ℕ → A
update s a f t = if t == s then a else f t

unfoldable pub lookup : ℕ → List (ℕ × Registration) → Option Registration
lookup k [] = none
lookup k ((j, g) ∷ es) = if j == k then some g else lookup k es

unfoldable pub erase : ℕ → List (ℕ × Registration) → List (ℕ × Registration)
erase k [] = []
erase k ((j, g) ∷ es) = let rest = erase k es in if j == k then rest else (j, g) ∷ rest

unfoldable pub new_registry : Registry
new_registry = record {
  entries = [];
  made = 0;
  shut = λ b. false;
  attached = λ p. none;
  made_for = λ b. 0;
}

-- `CreateObserver`, and the entry under the participant's SID.
unfoldable pub create : ℕ → ℕ → Registry → Registry × ℕ
unfolding erase
create key p r = (
  record r {
    entries = (key, record { participant = p; observer = r.made }) ∷ erase key r.entries;
    made = suc r.made;
    attached = update p (some r.made) r.attached;
    made_for = update r.made p r.made_for;
  },
  r.made,
)

-- What is on record may be used: it is for the same native participant, and open.
abbrev pub is_usable : ℕ → Registration → Registry → Bool
is_usable p g r = g.participant == p && not (r.shut g.observer)

unfoldable pub reuse : Option Registration → ℕ → ℕ → Registry → Registry × ℕ
unfolding create
reuse none key p r = create key p r
reuse (some g) key p r = if is_usable p g r then (r, g.observer) else create key p r

-- The wraps of participants, and the Room, in any order. A wrap that owns an observer's binding drops
-- the observer when it is destroyed.
pub data Op : Type 0 where
  gets forgets drops : ℕ → Op
  closes : Op

unfoldable pub close_all : List (ℕ × Registration) → (ℕ → Bool) → ℕ → Bool
close_all [] shut = shut
close_all ((k, g) ∷ es) shut = close_all es (update g.observer true shut)

-- The destructor of the wrap that owns the observer's binding.
abbrev pub drop_observer : ℕ → Registry → Registry
drop_observer b r = record r {
  attached = update (r.made_for b) none r.attached;
  shut = update b true r.shut;
}

-- `close`, as far as it is about the participants' observers.
abbrev pub close_registry : Registry → Registry
close_registry r = record r { entries = []; shut = close_all r.entries r.shut }

module _ (sid : ℕ → ℕ) where
  unfoldable pub get_or_create : ℕ → Registry → Registry × ℕ
  unfolding lookup reuse
  get_or_create p r = reuse (lookup (sid p) r.entries) (sid p) p r

  unfoldable pub forget : ℕ → Registry → Registry
  unfolding erase
  forget p r = record r { entries = erase (sid p) r.entries }

  unfoldable pub step : Op → Registry → Registry
  unfolding get_or_create forget close_all
  step (gets p) r = (get_or_create p r).0
  step (forgets p) r = forget p r
  step (drops b) r = if ltb b r.made then drop_observer b r else r
  step closes r = close_registry r

  unfoldable pub run : List Op → Registry → Registry
  unfolding step
  run [] r = r
  run (o ∷ os) r = run os (step o r)
