-- ===== src/LocalParticipant/Connected.antt =====
-- src/video/room_observer_wrap.cpp: `onConnected`, which installs the observer of the local participant
-- on the signalling thread, and `close`, on the JS thread. Each takes its locks one after the other, so
-- that the steps of the two may come in any order.
use twilio_video_node.Base.{
  ℕ, suc, ◌<◌, ◌≡◌, ◌⊎◌, inl, inr, refl, subst, sym, ap, ◌∙◌, Bool, true, false, List, [], ◌∷◌,
  Option, none, some, arith, if◌then◌else◌,
}
use twilio_video_node.RoomObserver.{update}

-- `closed_`; whether a `close` is between its first lock and the swap of `localParticipantObserver_`; the
-- number of observers that `onConnected` has created, which names the next one; the one that it has
-- created and not yet stored; `localParticipantObserver_`; and which observers are closed.
pub record Installing : Type 0 where
  pub closed : Bool
  pub sweeping : Bool
  pub made : ℕ
  pub held : Option ℕ
  pub stored : Option ℕ
  pub shut : ℕ → Bool

pub data Op : Type 0 where
  creates stores marks sweeps : Op

unfoldable pub new_room : Installing
new_room = record {
  closed = false;
  sweeping = false;
  made = 0;
  held = none;
  stored = none;
  shut = λ b. false;
}

-- `onConnected` up to its lock, where the participant is there.
unfoldable pub create : Installing → Installing
create r = record r { made = suc r.made; held = some r.made }

-- `onConnected` under its lock, with the observer created.
unfoldable pub store_that : ℕ → Installing → Installing
store_that b r =
    if r.closed
    then record r { held = none; shut = update b true r.shut }
    else record r { held = none; stored = some b }

unfoldable pub store : Installing → Installing
unfolding store_that
store r = elim r.held [ none ↦ r | some b ↦ store_that b r ]

-- `close` under its first lock.
unfoldable pub mark : Installing → Installing
mark r = if r.closed then r else record r { closed = true; sweeping = true }

-- `CloseObserver`, which is safe on null.
unfoldable pub close_that : Option ℕ → (ℕ → Bool) → ℕ → Bool
close_that none shut = shut
close_that (some b) shut = update b true shut

-- `close` from the swap on.
unfoldable pub sweep : Installing → Installing
unfolding close_that
sweep r =
    if r.sweeping
    then record r { sweeping = false; stored = none; shut = close_that r.stored r.shut }
    else r

unfoldable pub step : Op → Installing → Installing
unfolding create store mark sweep
step creates r = create r
step stores r = store r
step marks r = mark r
step sweeps r = sweep r

unfoldable pub run : List Op → Installing → Installing
unfolding step
run [] r = r
run (o ∷ os) r = run os (step o r)

-- rtc-cpp calls `onConnected` once for a Room.
abbrev IsFirst : Op → Installing → Type 0
IsFirst creates r = r.made ≡ 0
IsFirst _ r = Unit

abbrev pub IsOnce : List Op → Installing → Type 0
unfolding step
IsOnce [] r = Unit
IsOnce (o ∷ os) r = IsFirst o r × IsOnce os (step o r)

-- No observer yet; in the hands of `onConnected`; stored where a `close` will find it; closed.
data IsKept (r : Installing) : Type 0 where
  missing : r.made ≡ 0 → r.held ≡ none → r.stored ≡ none → IsKept r
  handled : r.made ≡ 1 → r.held ≡ some 0 → r.stored ≡ none → IsKept r
  findable :
      r.made ≡ 1
      → r.held ≡ none
      → r.stored ≡ some 0
      → (r.closed ≡ false) ⊎ (r.sweeping ≡ true)
      → IsKept r
  ended : r.made ≡ 1 → r.held ≡ none → r.stored ≡ none → r.shut 0 ≡ true → IsKept r

create-IsKept : (r : Installing) → r.made ≡ 0 → IsKept r → IsKept (create r)
unfolding create
create-IsKept r z (missing m h s) = handled (ap suc m) (ap some m) s
create-IsKept r z (handled m h s) = absurd (omega arith)
create-IsKept r z (findable m h s c) = absurd (omega arith)
create-IsKept r z (ended m h s d) = absurd (omega arith)

store_nothing : (r : Installing) → r.held ≡ none → store r ≡ r
unfolding store
store_nothing r h = ground arith

store_held : (r : Installing) (b : ℕ) → r.held ≡ some b → store r ≡ store_that b r
unfolding store
store_held r b h = ground arith

-- A step that depends on a test keeps what both of its branches keep.
if-IsKept :
    (c : Bool) (u v : Installing)
    → (c ≡ true → IsKept u)
    → (c ≡ false → IsKept v)
    → IsKept (if c then u else v)
if-IsKept true u v f g = f refl
if-IsKept false u v f g = g refl

store_that-IsKept : (r : Installing) → r.made ≡ 1 → r.stored ≡ none → IsKept (store_that 0 r)
unfolding store_that
store_that-IsKept r m s =
    if-IsKept r.closed _ _ (λ t. ended m refl s refl) (λ f. findable m refl refl (inl f))

store-IsKept : (r : Installing) → IsKept r → IsKept (store r)
store-IsKept r (missing m h s) = subst IsKept (sym (store_nothing r h)) (missing m h s)
store-IsKept r (handled m h s) = subst IsKept (sym (store_held r 0 h)) (store_that-IsKept r m s)
store-IsKept r (findable m h s c) = subst IsKept (sym (store_nothing r h)) (findable m h s c)
store-IsKept r (ended m h s d) = subst IsKept (sym (store_nothing r h)) (ended m h s d)

marked-IsKept : (r : Installing) → IsKept r → IsKept (record r { closed = true; sweeping = true })
marked-IsKept r (missing m h s) = missing m h s
marked-IsKept r (handled m h s) = handled m h s
marked-IsKept r (findable m h s c) = findable m h s (inr refl)
marked-IsKept r (ended m h s d) = ended m h s d

mark-IsKept : (r : Installing) → IsKept r → IsKept (mark r)
unfolding mark
mark-IsKept r k = if-IsKept r.closed _ _ (λ t. k) (λ f. marked-IsKept r k)

closed_that : (o : Option ℕ) (shut : ℕ → Bool) → o ≡ some 0 → close_that o shut 0 ≡ true
unfolding close_that
closed_that none shut e = cc
closed_that (some b) shut e = ground arith

closed_nothing : (o : Option ℕ) (shut : ℕ → Bool) → o ≡ none → close_that o shut 0 ≡ shut 0
unfolding close_that
closed_nothing none shut e = refl
closed_nothing (some b) shut e = cc

sweep-IsKept : (r : Installing) → IsKept r → IsKept (sweep r)
unfolding sweep
sweep-IsKept r (missing m h s) =
    if-IsKept r.sweeping _ _ (λ t. missing m h refl) (λ f. missing m h s)
sweep-IsKept r (handled m h s) =
    if-IsKept r.sweeping _ _ (λ t. handled m h refl) (λ f. handled m h s)
sweep-IsKept r (findable m h s c) =
    if-IsKept r.sweeping _ _ (λ t. ended m h refl (closed_that r.stored r.shut s))
      (λ f. findable m h s c)
sweep-IsKept r (ended m h s d) =
    if-IsKept r.sweeping _ _ (λ t. ended m h refl (closed_nothing r.stored r.shut s ∙ d))
      (λ f. ended m h s d)

step-IsKept : (o : Op) (r : Installing) → IsFirst o r → IsKept r → IsKept (step o r)
unfolding step
step-IsKept creates r n k = create-IsKept r n k
step-IsKept stores r n k = store-IsKept r k
step-IsKept marks r n k = mark-IsKept r k
step-IsKept sweeps r n k = sweep-IsKept r k

run-IsKept : (os : List Op) (r : Installing) → IsOnce os r → IsKept r → IsKept (run os r)
unfolding run
run-IsKept [] r n k = k
run-IsKept (o ∷ os) r n k = run-IsKept os (step o r) n.1 (step-IsKept o r n.0 k)

new_room-IsKept : IsKept new_room
unfolding new_room
new_room-IsKept = missing refl refl refl

all_ended :
    (b : ℕ) (r : Installing)
    → IsKept r
    → b < r.made
    → r.closed ≡ true
    → r.sweeping ≡ false
    → r.held ≡ none
    → (r.stored ≡ none) × (r.shut b ≡ true)
all_ended b r (missing m h s) l c w n = absurd (omega arith)
all_ended b r (handled m h s) l c w n = cc
all_ended b r (findable m h s (inl f)) l c w n = cc
all_ended b r (findable m h s (inr f)) l c w n = cc
all_ended b r (ended m h s d) l c w n = (s, subst (λ x. r.shut x ≡ true) (omega (arith, l, m)) d)

-- Where rtc-cpp calls `onConnected` once: however it and `close` interleave, once both have ended, the
-- observer that was created for the local participant is closed, and none is stored.
pub no_observer_left :
    (os : List Op) (b : ℕ)
    → IsOnce os new_room
    → let r = run os new_room in
      b < r.made
      → r.closed ≡ true
      → r.sweeping ≡ false
      → r.held ≡ none
      → (r.stored ≡ none) × (r.shut b ≡ true)
no_observer_left os b n = all_ended b (run os new_room) (run-IsKept os new_room n new_room-IsKept)
