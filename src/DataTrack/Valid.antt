-- ===== src/DataTrack/Valid.antt =====
-- src/media/local_data_track_wrap.cpp: what every operation keeps: no promise is lost or resolved
-- twice, and the process is kept alive exactly while one is waiting.
use twilio_video_node.Base.{
  ℕ, ◌+◌, ◌≡◌, refl, Bool, true, false, not, List, [], ◌∷◌, ◌++◌, Option, none, some, arith, map,
  ltb, ◌==◌, is_empty, String, Option-cases, Bool-cases, is_some, inl, inr,
}
use twilio_video_node.Async.{Handle}
use twilio_video_node.DataTrack.Pending.{
  PendingSends, find, one_if, waiting, waiting-erase, find-not_empty,
}
use twilio_video_node.DataTrack.{
  SendResult, Completion, DataTrack, new_instance, settled, settle_found, settle_send,
  resolve_failed, settle_all_pending, settle_pending_if_unpublished, settle_sends, drain, destroy,
}

abbrev pub resolutions : ℕ → List (ℕ × SendResult) → ℕ
resolutions p [] = 0
resolutions p ((q, r) ∷ rs) = one_if (p == q) + resolutions p rs

pub resolutions-append :
    (p : ℕ) (xs ys : List (ℕ × SendResult))
    → resolutions p (xs ++ ys) ≡ resolutions p xs + resolutions p ys
resolutions-append p [] ys = omega arith
resolutions-append p ((q, r) ∷ xs) ys = omega (arith, resolutions-append p xs ys)

resolutions-failed :
    (p : ℕ) (e : String) (m : PendingSends) → resolutions p (map (resolve_failed e) m) ≡ waiting p m
resolutions-failed p e [] = refl
resolutions-failed p e ((id, q) ∷ m) = omega (arith, resolutions-failed p e m)

-- Whether the context keeps the process alive.
abbrev pub is_held : Option Handle → Bool
is_held none = false
is_held (some h) = h.referenced

pub record IsValid (t : DataTrack) : Type 0 where
  pub once : (p : ℕ) → resolutions p t.resolved + waiting p t.pending_sends ≡ one_if (ltb p t.made)
  pub held : is_held t.context.handle ≡ not (is_empty t.pending_sends)
  pub in_place : t.owner ≡ true → is_some t.context.handle ≡ true
  pub gone : t.owner ≡ false → t.pending_sends ≡ []
  pub shut : t.context.closed ≡ true → t.context.handle ≡ none

module _ (c : Completion) (t : DataTrack) where
  settle_missing : find c.id t.pending_sends ≡ none → settle_send c t ≡ t
  unfolding settle_send
  settle_missing e = ground arith

  settle_hit : (q : ℕ) → find c.id t.pending_sends ≡ some q → settle_send c t ≡ settle_found q c t
  unfolding settle_send
  settle_hit q e = ground arith

drain_closed : (t : DataTrack) → t.context.closed ≡ true → drain t ≡ t
unfolding drain
drain_closed t c = ground arith

drain_open :
    (t : DataTrack)
    → t.context.closed ≡ false
    → drain t
      ≡ settle_sends t.context.queue (record t { context = record t.context { queue = [] } })
unfolding drain
drain_open t o = ground arith

pub new_instance-IsValid : IsValid new_instance
unfolding new_instance
new_instance-IsValid = record {
  once = λ p. ground arith;
  held = refl;
  in_place = λ o. refl;
  gone = λ o. refl;
  shut = ground arith;
}

settle_found-IsValid :
    (q : ℕ) (c : Completion) (t : DataTrack)
    → find c.id t.pending_sends ≡ some q
    → IsValid t
    → IsValid (settle_found q c t)
unfolding settle_found
settle_found-IsValid q c t f v = record {
  once = λ p. ground (
    arith,
    v.once p,
    waiting-erase p c.id q t.pending_sends,
    resolutions-append p t.resolved (settled q c ∷ []),
  );
  held = ground (arith, find-not_empty c.id q t.pending_sends);
  in_place = ground arith;
  gone = λ o. absurd (ground (arith, v.gone o, find-not_empty c.id q t.pending_sends));
  shut = ground arith;
}

settle_send-IsValid : (c : Completion) (t : DataTrack) → IsValid t → IsValid (settle_send c t)
settle_send-IsValid c t v = elim (Option-cases (find c.id t.pending_sends)) [
  | inl e ↦ rw (settle_missing c t e) v
  | inr (q, e) ↦ rw (settle_hit c t q e) (settle_found-IsValid q c t e v)
]

settle_sends-IsValid :
    (cs : List Completion) (t : DataTrack) → IsValid t → IsValid (settle_sends cs t)
unfolding settle_sends
settle_sends-IsValid [] t v = v
settle_sends-IsValid (c ∷ cs) t v =
    settle_sends-IsValid cs (settle_send c t) (settle_send-IsValid c t v)

pub drain-IsValid : (t : DataTrack) → IsValid t → IsValid (drain t)
drain-IsValid t v = elim (Bool-cases t.context.closed) [
  | inl c ↦ rw (drain_closed t c) v
  | inr o ↦ rw (drain_open t o) (
      settle_sends-IsValid t.context.queue _ (record {
        once = v.once;
        held = v.held;
        in_place = v.in_place;
        gone = v.gone;
        shut = v.shut;
      }))
]

-- Every waiting promise is resolved, and none waits.
pub settle_all_once :
    (e : String) (t : DataTrack)
    → IsValid t
    → (p : ℕ) → resolutions p (settle_all_pending e t).resolved ≡ one_if (ltb p t.made)
unfolding settle_all_pending
settle_all_once e t v p = omega (
  arith,
  v.once p,
  resolutions-append p t.resolved (map (resolve_failed e) t.pending_sends),
  resolutions-failed p e t.pending_sends,
)

pub settle_pending_if_unpublished-IsValid :
    (e : String) (t : DataTrack) → IsValid t → IsValid (settle_pending_if_unpublished e t)
unfolding settle_pending_if_unpublished
settle_pending_if_unpublished-IsValid e t v = record {
  once = λ p. ground (arith, v.once p, settle_all_once e t v p);
  held = ground arith;
  in_place = ground arith;
  gone = ground arith;
  shut = ground arith;
}

-- The destructor resolves every promise that waits.
pub destroy_once :
    (t : DataTrack)
    → IsValid t
    → (p : ℕ) → resolutions p (destroy t).resolved ≡ one_if (ltb p t.made)
unfolding destroy
destroy_once t v p =
    settle_all_once "Local data track was destroyed before the send completed" t v p

pub destroy-IsValid : (t : DataTrack) → IsValid t → IsValid (destroy t)
unfolding destroy
destroy-IsValid t v = record {
  once = λ p. ground (arith, destroy_once t v p);
  held = ground arith;
  in_place = ground arith;
  gone = ground arith;
  shut = ground arith;
}
