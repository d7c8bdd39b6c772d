-- ===== src/Base/Words.antt =====
-- Machine words: the bounds of the C++ integer types, and the additions that wrap.
use Prim.Native.Nat.{ℕ, ◌%◌, ◌^◌}

-- size_t and uint64_t
abbrev pub u64 : ℕ → ℕ
u64 n = n % 2 ^ 64

abbrev pub u32 : ℕ → ℕ
u32 n = n % 2 ^ 32
