-- ===== src/Base/Words.antt =====
-- 64-bit counters (`std::size_t`, `std::uint64_t`), 32-bit counters (`std::uint32_t`) and C++ `int`.
use Prim.Native.Nat.{ℕ, ◌+◌, ◌-◌, ◌%◌, ◌^◌}

-- `++x` and `--x` on a 64-bit word.
abbrev pub inc64 : ℕ → ℕ
inc64 x = (x + 1) % 2 ^ 64

abbrev pub dec64 : ℕ → ℕ
dec64 x = (x + (2 ^ 64 - 1)) % 2 ^ 64

-- `fetch_add(1)` and `fetch_sub(1)` on a 32-bit word.
abbrev pub inc32 : ℕ → ℕ
inc32 x = (x + 1) % 2 ^ 32

abbrev pub dec32 : ℕ → ℕ
dec32 x = (x + (2 ^ 32 - 1)) % 2 ^ 32

-- `negsuc n` is -(n + 1).
pub data ℤ : Type 0 where
  pos : ℕ → ℤ
  negsuc : ℕ → ℤ

-- The non-negative values of an `int`.
abbrev pub int_limit : ℕ
int_limit = 2 ^ 31
