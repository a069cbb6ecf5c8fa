-- ===== src/BitScan.antt =====
-- src/native/quickjs.c: the bit scans that TinyCC lacks, `__builtin_clz`, `__builtin_clzll`,
-- `__builtin_ctz` and `__builtin_ctzll`.
pub mod Powers
use quickjs_bun.Prelude.{
  ℕ, zero, suc, ◌+◌, ◌*◌, ◌/◌, ◌%◌, ◌==◌, Bool, true, false, leb, if◌then◌else◌,
}

-- `v` doubled `k` times.
unfoldable pub doubled : ℕ → ℕ → ℕ
doubled v zero = v
doubled v (suc k) = doubled (2 * v) k

-- The loop of the leading zeros: `n` counts up to the width, `left` is what it has still to count,
-- `half` is the highest bit.
unfoldable pub leading : ℕ → ℕ → ℕ → ℕ → ℕ
leading half zero n v = n
leading half (suc left) n v =
    if leb half v then n else leading half left (suc n) (2 * v % (2 * half))

-- The loop of the trailing zeros.
unfoldable pub trailing : ℕ → ℕ → ℕ → ℕ
trailing zero n v = n
trailing (suc left) n v = if v % 2 == 1 then n else trailing left (suc n) (v / 2)

-- __builtin_clz
unfoldable pub clz : ℕ → ℕ
unfolding leading
clz v = leading 2147483648 32 0 v

-- __builtin_clzll
unfoldable pub clzll : ℕ → ℕ
unfolding leading
clzll v = leading 9223372036854775808 64 0 v

-- __builtin_ctz
unfoldable pub ctz : ℕ → ℕ
unfolding trailing
ctz v = trailing 32 0 v

-- __builtin_ctzll
unfoldable pub ctzll : ℕ → ℕ
unfolding trailing
ctzll v = trailing 64 0 v
