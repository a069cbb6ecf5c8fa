-- ===== src/Prelude/Powers.antt =====
-- Powers of sums and of products.
use Prim.Native.Nat.{ℕ, zero, suc, ◌+◌, ◌*◌, ◌^◌}
use mathlib.Core.Path.{◌≡◌, refl, sym, ap, ◌∙◌}
use native.Mathlib.Omega.{arith}
use native.Mathlib.Nat.{pow-zero, pow-suc, mul_assoc, add-zero}

pub pow_add : (b m n : ℕ) → b ^ (m + n) ≡ b ^ m * b ^ n
pow_add b m zero = ap (λ k. b ^ k) (add-zero m) ∙ omega (arith, ap (λ k. b ^ m * k) (pow-zero b))
pow_add b m (suc n) =
    let sum : m + suc n ≡ suc (m + n) = omega arith in
    rw (sum, pow-suc b (m + n), pow-suc b n, pow_add b m n) (mul_assoc (b ^ m) (b ^ n) b)

pub pow_mul : (b m n : ℕ) → (b ^ m) ^ n ≡ b ^ (n * m)
pow_mul b m zero = pow-zero (b ^ m) ∙ sym (ap (λ k. b ^ k) (zero_times m) ∙ pow-zero b)
  where
    zero_times : (k : ℕ) → zero * k ≡ zero
    zero_times k = omega arith
pow_mul b m (suc n) =
    let product : suc n * m ≡ n * m + m = omega arith in
    rw (product, pow-suc (b ^ m) n, pow_add b (n * m) m, pow_mul b m n) refl
