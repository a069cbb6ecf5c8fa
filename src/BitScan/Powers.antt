-- ===== src/BitScan/Powers.antt =====
-- What the bit scans count, in powers of 2.
use quickjs_bun.Prelude.{
  ℕ, zero, suc, ◌+◌, ◌*◌, ◌/◌, ◌%◌, ◌≤◌, ◌<◌, ◌≡◌, refl, sym, ap, ◌∙◌, ◌==◌, Bool-cases, leb, inl,
  inr, arith,
}
use native.Mathlib.Nat.{mod-eq_of_lt}
use quickjs_bun.BitScan.{doubled, leading, trailing, clz, clzll, ctz, ctzll}

doubled-double : (v k : ℕ) → doubled (2 * v) k ≡ 2 * doubled v k
unfolding doubled
doubled-double v zero = refl
doubled-double v (suc k) = doubled-double (2 * v) k

-- A count of `k` more brings `v` to the highest bit and not beyond.
abbrev Normalized : ℕ → ℕ → ℕ → ℕ → Type 0
Normalized half v n r = (k : ℕ) × (r ≡ n + k) × (half ≤ doubled v k) × (doubled v k < 2 * half)

leading-Normalized :
    (half left n v : ℕ)
    → v < 2 * half
    → half ≤ doubled v left
    → Normalized half v n (leading half left n v)
unfolding leading doubled
leading-Normalized half zero n v small enough = (0, omega arith, enough, small)
leading-Normalized half (suc left) n v small enough = elim (Bool-cases (leb half v)) [
  | inl high ↦ rw high (0, omega arith, ground arith, small)
  | inr low ↦
      let fits : 2 * v < 2 * half = ground arith in
      let same : 2 * v % (2 * half) ≡ 2 * v = mod-eq_of_lt fits in
      let rest = leading-Normalized half left (suc n) (2 * v) fits enough in
      rw (low, same) (suc rest.0, omega (arith, rest.1), rest.2, rest.3)
]

-- `v` is an odd number, doubled as often as was counted.
abbrev OddDoubled : ℕ → ℕ → ℕ → Type 0
OddDoubled v n r = (k : ℕ) × (q : ℕ) × (r ≡ n + k) × (q % 2 ≡ 1) × (doubled q k ≡ v)

trailing-OddDoubled :
    (left n v : ℕ) → 0 < v → v < doubled 1 left → OddDoubled v n (trailing left n v)
unfolding trailing doubled
trailing-OddDoubled zero n v positive small = absurd (omega arith)
trailing-OddDoubled (suc left) n v positive small = elim (Bool-cases (v % 2 == 1)) [
  | inl odd ↦ rw odd (0, v, omega arith, ground arith, refl)
  | inr even ↦
      let half : v ≡ 2 * (v / 2) = ground arith in
      let size : doubled 2 left ≡ 2 * doubled 1 left = doubled-double 1 left in
      let rest =
        trailing-OddDoubled left (suc n) (v / 2) (omega (arith, half))
          (omega (arith, half, size)) in
      rw even (
        suc rest.0,
        rest.1,
        omega (arith, rest.2),
        rest.3,
        (doubled-double rest.1 rest.0 ∙ ap (λ w. 2 * w) rest.4 ∙ sym half),
      )
]

doubled_mono : (a b k : ℕ) → a ≤ b → doubled a k ≤ doubled b k
unfolding doubled
doubled_mono a b zero h = h
doubled_mono a b (suc k) h = doubled_mono (2 * a) (2 * b) k (omega arith)

full_32 : doubled 1 32 ≡ 4294967296
unfolding doubled
full_32 = refl

full_64 : doubled 1 64 ≡ 18446744073709551616
unfolding doubled
full_64 = refl

highest : (v k half : ℕ) → 0 < v → half ≤ doubled 1 k → half ≤ doubled v k
highest v k half some_bit enough = omega (arith, doubled_mono 1 v k some_bit)

counted_leading :
    (half v r : ℕ) → Normalized half v 0 r → (half ≤ doubled v r) × (doubled v r < 2 * half)
counted_leading half v r n = let e : r ≡ n.0 = omega (arith, n.1) in rw e (n.2, n.3)

counted_trailing : (v r : ℕ) → OddDoubled v 0 r → (q : ℕ) × (q % 2 ≡ 1) × (doubled q r ≡ v)
counted_trailing v r n = let e : r ≡ n.0 = omega (arith, n.2) in (n.1, n.3, rw e n.4)

-- For a nonzero number `v` of 32 bits `__builtin_clz` is the shift that brings its highest set bit
-- to the top, and so is `__builtin_clzll` for a nonzero number `w` of 64 bits.
clz-clzll :
    (v w : ℕ)
    → 0 < v
    → v < 4294967296
    → 0 < w
    → w < 18446744073709551616
    → (2147483648 ≤ doubled v (clz v))
      × (doubled v (clz v) < 4294967296)
      × (9223372036854775808 ≤ doubled w (clzll w))
      × (doubled w (clzll w) < 18446744073709551616)
unfolding clz clzll
clz-clzll v w some_bit small some_wide_bit small_wide =
    let top : 2147483648 ≤ doubled v 32 =
      highest v 32 2147483648 some_bit (rw full_32 (omega arith)) in
    let wide_top : 9223372036854775808 ≤ doubled w 64 =
      highest w 64 9223372036854775808 some_wide_bit (rw full_64 (omega arith)) in
    let c = counted_leading 2147483648 v _ (leading-Normalized 2147483648 32 0 v small top) in
    let d =
      counted_leading 9223372036854775808 w _
        (leading-Normalized 9223372036854775808 64 0 w small_wide wide_top) in
    (c.0, c.1, d.0, d.1)

-- A nonzero number `v` of 32 bits is an odd number doubled `__builtin_ctz` times, and a nonzero
-- number `w` of 64 bits is one doubled `__builtin_ctzll` times.
ctz-ctzll :
    (v w : ℕ)
    → 0 < v
    → v < 4294967296
    → 0 < w
    → w < 18446744073709551616
    → ((q : ℕ) × (q % 2 ≡ 1) × (doubled q (ctz v) ≡ v))
      × ((q : ℕ) × (q % 2 ≡ 1) × (doubled q (ctzll w) ≡ w))
unfolding ctz ctzll
ctz-ctzll v w some_bit small some_wide_bit small_wide = (
  counted_trailing v _ (trailing-OddDoubled 32 0 v some_bit (rw full_32 small)),
  counted_trailing w _ (trailing-OddDoubled 64 0 w some_wide_bit (rw full_64 small_wide)),
)

-- For a nonzero number `v` of 32 bits and a nonzero number `w` of 64 bits: `__builtin_clz` and
-- `__builtin_clzll` are the shifts that bring their highest set bits to the top, and they are odd
-- numbers doubled `__builtin_ctz` and `__builtin_ctzll` times.
pub clz-ctz :
    (v w : ℕ)
    → 0 < v
    → v < 4294967296
    → 0 < w
    → w < 18446744073709551616
    → ((2147483648 ≤ doubled v (clz v))
        × (doubled v (clz v) < 4294967296)
        × (9223372036854775808 ≤ doubled w (clzll w))
        × (doubled w (clzll w) < 18446744073709551616))
      × ((q : ℕ) × (q % 2 ≡ 1) × (doubled q (ctz v) ≡ v))
      × ((q : ℕ) × (q % 2 ≡ 1) × (doubled q (ctzll w) ≡ w))
clz-ctz v w some_bit small some_wide_bit small_wide =
    let counted = ctz-ctzll v w some_bit small some_wide_bit small_wide in
    (clz-clzll v w some_bit small some_wide_bit small_wide, counted.0, counted.1)
