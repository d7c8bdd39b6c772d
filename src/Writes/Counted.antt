-- ===== src/Writes/Counted.antt =====
-- The counters behind `getWriteStats`: the writes that a track has counted.
use twilio_video_node.Base.{
  Option, none, some, ◌⊎◌, u64, leb_ℤ, refl, Bool-cases, inl, inr, ℕ, suc, ◌+◌, ◌≤◌, ◌<◌, ◌^◌, ◌≡◌,
  Bool, true, false, List, [], ◌∷◌, ℤ, arith,
}
use twilio_video_node.Writes.{WriteStats, count_write}

-- The writes that reach the counters: whether each was delivered, and its timestamp.
abbrev pub count_writes : List (Bool × ℤ) → WriteStats → WriteStats
count_writes [] s = s
count_writes ((delivered, t) ∷ ws) s = count_writes ws (count_write delivered t s)

abbrev pub counted : WriteStats → ℕ
counted s = s.frames_written + s.frames_dropped

pub count_write_lem :
    (delivered : Bool) (t : ℤ) (s : WriteStats)
    → suc (counted s) < 2 ^ 64
    → s.timestamp_regressions ≤ s.frames_written
    → (counted (count_write delivered t s) ≡ suc (counted s))
      × ((count_write delivered t s).timestamp_regressions
          ≤ (count_write delivered t s).frames_written)
unfolding count_write
count_write_lem true t s h r = ground arith
count_write_lem false t s h r = ground arith

-- A timestamp not above the one before it is counted as a regression.
abbrev pub CountsRegression : Option ℤ → ℤ → WriteStats → WriteStats → Type 0
CountsRegression none t s u = u.timestamp_regressions ≡ s.timestamp_regressions
CountsRegression (some last) t s u =
    ((leb_ℤ t last ≡ true) × (u.timestamp_regressions ≡ u64 (suc s.timestamp_regressions)))
    ⊎ ((leb_ℤ t last ≡ false) × (u.timestamp_regressions ≡ s.timestamp_regressions))

-- What a frame that was delivered adds to the counters, with its timestamp.
abbrev pub CountsWritten : ℤ → WriteStats → WriteStats → Type 0
CountsWritten t s u =
    (u.frames_written ≡ u64 (suc s.frames_written))
    × (u.frames_dropped ≡ s.frames_dropped)
    × (u.last_timestamp ≡ some t)
    × CountsRegression s.last_timestamp t s u

-- What a frame that was not delivered adds.
abbrev pub CountsDropped : WriteStats → WriteStats → Type 0
CountsDropped s u =
    (u.frames_written ≡ s.frames_written)
    × (u.frames_dropped ≡ u64 (suc s.frames_dropped))
    × (u.last_timestamp ≡ s.last_timestamp)
    × (u.timestamp_regressions ≡ s.timestamp_regressions)

count_regression :
    (last : Option ℤ) (t : ℤ) (s : WriteStats)
    → s.last_timestamp ≡ last
    → CountsRegression last t s (count_write true t s)
unfolding count_write
count_regression none t s e = ground arith
count_regression (some l) t s e = elim (Bool-cases (leb_ℤ t l)) [
  | inl h ↦ inl (h, ground arith)
  | inr h ↦ inr (h, ground arith)
]

pub count_write-CountsWritten : (t : ℤ) (s : WriteStats) → CountsWritten t s (count_write true t s)
unfolding count_write
count_write-CountsWritten t s = (refl, refl, refl, count_regression s.last_timestamp t s refl)

pub count_write-CountsDropped : (t : ℤ) (s : WriteStats) → CountsDropped s (count_write false t s)
unfolding count_write
count_write-CountsDropped t s = (refl, refl, refl, refl)
