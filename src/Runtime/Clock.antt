-- ===== src/Runtime/Clock.antt =====
-- Points in time and timeouts, in units of the clock: a number, or INFINITY.
use quickjs_bun.Prelude.{ℕ, ◌+◌, ◌≤◌, Bool, true, false, arith, ltb, if◌then◌else◌}

pub data Ms : Type 0 where
  ms : ℕ → Ms
  infinity : Ms

-- `a < b` on doubles
abbrev pub ltb_ms : Ms → Ms → Bool
ltb_ms (ms a) (ms b) = ltb a b
ltb_ms (ms a) infinity = true
ltb_ms infinity b = false

-- `now + timeout` on doubles
abbrev pub add_ms : ℕ → Ms → Ms
add_ms a (ms b) = ms (a + b)
add_ms a infinity = infinity

abbrev pub min_ms : Ms → Ms → Ms
min_ms a b = if ltb_ms a b then a else b

-- The order of the extended numbers.
infix 50 ◌≤ms◌
abbrev pub ◌≤ms◌ : Ms → Ms → Type 0
ms a ≤ms ms b = a ≤ b
infinity ≤ms ms b = ⊥
a ≤ms infinity = Unit

pub min_ms-le_left : (a b : Ms) → min_ms a b ≤ms a
min_ms-le_left a b = ground arith

pub min_ms-le_right : (a b : Ms) → min_ms a b ≤ms b
min_ms-le_right a b = ground arith

pub ≤ms_refl : (a : Ms) → a ≤ms a
≤ms_refl a = ground arith

pub ≤ms_trans : (a b c : Ms) → a ≤ms b → b ≤ms c → a ≤ms c
≤ms_trans a b c h k = ground arith
