-- ===== src/Bigint/Limbs.antt =====
-- The number that limbs make, and what mp_div1 and the removal of leading zeros do to it.
use quickjs_bun.Prelude.{
  ℕ, zero, suc, ◌+◌, ◌*◌, ◌/◌, ◌%◌, ◌≤◌, ◌<◌, ◌≡◌, refl, sym, ap, ◌∙◌, ◌⊎◌, inl, inr, List, [], ◌∷◌,
  All, length, get_or, ◌==◌, ◌&&◌, false, ◌^◌, arith,
}
use mathlib.Core.List.{cons-ne-nil}
use native.Mathlib.Nat.{
  pow-zero, pow-suc, mul-zero, mod-eq_of_lt, mod-lt, div-add-mod', div-lt_iff_lt-mul, mul_assoc,
  mul-add, add-mul, mul_comm, mul-le-mul_right, mul-le-mul_left,
}
use quickjs_bun.Bigint.{mp_div1, zero_dropped, zeros_dropped, trimmed}

-- The number that limbs make, the lowest first.
unfoldable pub value : ℕ → List ℕ → ℕ
value base [] = 0
value base (a ∷ tab) = a + base * value base tab

abbrev pub AreLimbs : ℕ → List ℕ → Type 0
AreLimbs base tab = All (λ a. a < base) tab

module _ (base b : ℕ) (positive : 0 < b) where
  -- The step of a limb `a`, below which `n` is divided with the remainder `r`.
  one_limb :
      (n q r a : ℕ)
      → q * b + r ≡ n
      → ((r * base + a) / b + base * q) * b + (r * base + a) % b ≡ a + base * n
  one_limb n q r a e =
      let d : ℕ = (r * base + a) / b in
      let divided : d * b + (r * base + a) % b ≡ r * base + a = div-add-mod' (r * base + a) b in
      let expanded : (d + base * q) * b ≡ d * b + base * q * b = add-mul d (base * q) b in
      let joined : base * n ≡ base * (q * b) + base * r =
        ap (λ k. base * k) (sym e) ∙ mul-add base (q * b) r in
      omega (arith, divided, expanded, joined, mul_assoc base q b, mul_comm base r)

  below_base : (r a : ℕ) → r < b → a < base → (r * base + a) / b < base
  below_base r a small limb =
      (div-lt_iff_lt-mul {k = b} {x = r * base + a} {y = base} positive).1
        (omega (arith, mul-le-mul_right base (suc_le r b small), mul_comm b base, suc_mul r base))
    where
      suc_le : (m n : ℕ) → m < n → suc m ≤ n
      suc_le m n h = omega arith

      suc_mul : (m k : ℕ) → suc m * k ≡ k + m * k
      suc_mul m k = omega arith

  -- mp_div1 divides the number that the limbs make, and leaves limbs, as many as before.
  pub mp_div1_lem :
      (tab : List ℕ)
      → AreLimbs base tab
      → let out = mp_div1 base b 0 tab in
        (value base out.0 * b + out.1 ≡ value base tab)
        × (out.1 < b)
        × AreLimbs base out.0
        × (length out.0 ≡ length tab)
  unfolding mp_div1 value
  mp_div1_lem [] limbs = (omega arith, positive, tt, refl)
  mp_div1_lem (a ∷ tab) limbs =
      let rest = mp_div1_lem tab limbs.1 in
      let out = mp_div1 base b 0 tab in
      let small : (out.1 * base + a) / b < base = below_base out.1 a rest.1 limbs.0 in
      rw (mod-eq_of_lt small) (
        one_limb (value base tab) (value base out.0) out.1 a rest.0,
        mod-lt (out.1 * base + a) positive,
        (small, rest.2),
        ap suc rest.3,
      )

module _ (base : ℕ) where
  zero_dropped_lem :
      (a : ℕ) (tab : List ℕ) → value base (zero_dropped a tab) ≡ a + base * value base tab
  unfolding zero_dropped value
  zero_dropped_lem zero [] = omega arith
  zero_dropped_lem zero (b ∷ tab) = refl
  zero_dropped_lem (suc a) tab = refl

  zero_dropped-AreLimbs :
      (a : ℕ) (tab : List ℕ) → a < base → AreLimbs base tab → AreLimbs base (zero_dropped a tab)
  unfolding zero_dropped
  zero_dropped-AreLimbs zero [] small limbs = tt
  zero_dropped-AreLimbs zero (b ∷ tab) small limbs = (small, limbs)
  zero_dropped-AreLimbs (suc a) tab small limbs = (small, limbs)

  -- What is left is nothing, or makes a number that is not 0.
  zero_dropped-positive :
      (a : ℕ) (tab : List ℕ)
      → (tab ≡ []) ⊎ (0 < value base tab)
      → 0 < base
      → (zero_dropped a tab ≡ []) ⊎ (0 < value base (zero_dropped a tab))
  unfolding zero_dropped value
  zero_dropped-positive zero [] h some_base = inl refl
  zero_dropped-positive zero (b ∷ tab) (inl e) some_base = absurd (cons-ne-nil b tab e)
  zero_dropped-positive zero (b ∷ tab) (inr p) some_base =
      inr (omega (arith, mul-le-mul_left base p))
  zero_dropped-positive (suc a) tab h some_base = inr (omega arith)

  zeros_dropped_lem :
      (tab : List ℕ)
      → AreLimbs base tab
      → 0 < base
      → (value base (zeros_dropped tab) ≡ value base tab)
        × AreLimbs base (zeros_dropped tab)
        × ((zeros_dropped tab ≡ []) ⊎ (0 < value base (zeros_dropped tab)))
  unfolding zeros_dropped value
  zeros_dropped_lem [] limbs some_base = (refl, tt, inl refl)
  zeros_dropped_lem (a ∷ tab) limbs some_base =
      let rest = zeros_dropped_lem tab limbs.1 some_base in
      (
        zero_dropped_lem a (zeros_dropped tab) ∙ ap (λ n. a + base * n) rest.0,
        zero_dropped-AreLimbs a (zeros_dropped tab) limbs.0 rest.1,
        zero_dropped-positive a (zeros_dropped tab) rest.2 some_base,
      )

  -- Without the leading zeros the limbs make the same number, which is at least the base when there
  -- is more than one.
  pub trimmed_lem :
      (tab : List ℕ)
      → AreLimbs base tab
      → 0 < base
      → (value base (trimmed tab) ≡ value base tab)
        × AreLimbs base (trimmed tab)
        × ((length (trimmed tab) ≤ 1) ⊎ (base ≤ value base (trimmed tab)))
  unfolding trimmed value
  trimmed_lem [] limbs some_base = (refl, tt, inl (omega arith))
  trimmed_lem (a ∷ tab) limbs some_base =
      let rest = zeros_dropped_lem tab limbs.1 some_base in
      (
        ap (λ n. a + base * n) rest.0,
        (limbs.0, rest.1),
        elim rest.2 [
          | inl none_left ↦ inl (rw none_left (omega arith))
          | inr positive ↦ inr (omega (arith, mul-le-mul_left base positive))
        ],
      )

pub not_zero :
    (base : ℕ) (tab : List ℕ)
    → 0 < value base tab
    → ((length tab == 1) && (get_or tab 0 0 == 0)) ≡ false
unfolding value
not_zero base [] positive = refl
not_zero base (a ∷ []) positive =
    let some_limb : 0 < a = omega (arith, mul-zero base) in ground arith
not_zero base (a ∷ b ∷ tab) positive = ground arith

pub value_below : (base : ℕ) (tab : List ℕ) → AreLimbs base tab → value base tab < base ^ length tab
unfolding value
value_below base [] limbs = omega (arith, pow-zero base)
value_below base (a ∷ tab) limbs = omega (
  arith,
  limbs.0,
  mul-le-mul_left base (value_below base tab limbs.1),
  pow-suc base (length tab),
  mul_comm base (base ^ length tab),
)
