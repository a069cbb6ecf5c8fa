-- ===== src/Bigint/Room.antt =====
-- The block that js_bigint_to_string1 asks for has room for all of the digits.
use quickjs_bun.Prelude.{
  ℕ, zero, suc, ◌+◌, ◌-◌, ◌*◌, ◌/◌, ◌%◌, ◌^◌, ◌≤◌, ◌<◌, ◌≡◌, refl, sym, ap, ◌∙◌, List, [], ◌∷◌,
  length, get_or, leb, Bool-cases, inl, inr, arith,
}
use quickjs_bun.Prelude.Powers.{pow_add, pow_mul}
use native.Mathlib.Nat.{
  pow-zero, pow-suc, mul_comm, mul_assoc, mul-le-mul_left, lt_of_mul-lt-mul_right, pow-le-pow_left,
  pow-le-pow_right, lt-div-mul-add,
}
use quickjs_bun.BitScan.{doubled, leading, clz, clzll}
use quickjs_bun.BitScan.Powers.{clz-ctz}
use quickjs_bun.Bigint.{
  Width, narrow, wide, limb_bits, limb_mod, limb_safe_clz, log2_radix_of, n_bits_of, n_digits_of,
}
use quickjs_bun.Bigint.Limbs.{value, AreLimbs}
use quickjs_bun.Bigint.Radixes.{log2_radix_lem}

doubled-pow : (v k : ℕ) → doubled v k ≡ v * 2 ^ k
unfolding doubled
doubled-pow v zero = omega arith
doubled-pow v (suc k) =
    doubled-pow (2 * v) k
    ∙ rw (pow-suc 2 k) (omega (arith, mul_assoc 2 v (2 ^ k), mul_assoc v (2 ^ k) 2))

leading_most : (half left n v : ℕ) → leading half left n v ≤ left + n
unfolding leading
leading_most half zero n v = omega arith
leading_most half (suc left) n v = elim (Bool-cases (leb half v)) [
  | inl high ↦ rw high (omega arith)
  | inr low ↦ rw low (omega (arith, leading_most half left (suc n) (2 * v % (2 * half))))
]

pub limb_mod_lem : (w : Width) → limb_mod w ≡ 2 ^ limb_bits w
unfolding limb_mod limb_bits
limb_mod_lem narrow = refl
limb_mod_lem wide = refl

-- What is below 2 ^ bits when its `c` leading zeros are shifted out
shifted_small : (v c bits : ℕ) → c ≤ bits → v * 2 ^ c < 2 ^ bits → v < 2 ^ (bits - c)
shifted_small v c bits le h =
    let split : 2 ^ bits ≡ 2 ^ (bits - c) * 2 ^ c =
      ap (λ k. 2 ^ k) (omega arith) ∙ pow_add 2 (bits - c) c in
    lt_of_mul-lt-mul_right (2 ^ c) (omega (arith, split))

limb_safe_clz_lem :
    (w : Width) (a : ℕ)
    → a < limb_mod w
    → (limb_safe_clz w a ≤ limb_bits w) × (a < 2 ^ (limb_bits w - limb_safe_clz w a))
unfolding limb_safe_clz limb_bits limb_mod clz clzll
limb_safe_clz_lem narrow zero small = (omega arith, omega arith)
limb_safe_clz_lem wide zero small = (omega arith, omega arith)
limb_safe_clz_lem narrow (suc a) small =
    let most : clz (suc a) ≤ 32 = omega (arith, leading_most 2147483648 32 0 (suc a)) in
    let top = (clz-ctz (suc a) 1 (omega arith) small (omega arith) (omega arith)).0 in
    (
      most,
      shifted_small (suc a) (clz (suc a)) 32 most
          (omega (arith, top.1, doubled-pow (suc a) (clz (suc a)))),
    )
limb_safe_clz_lem wide (suc a) small =
    let most : clzll (suc a) ≤ 64 = omega (arith, leading_most 9223372036854775808 64 0 (suc a)) in
    let top = (clz-ctz 1 (suc a) (omega arith) (omega arith) (omega arith) small).0 in
    (
      most,
      shifted_small (suc a) (clzll (suc a)) 64 most
          (omega (arith, top.3, doubled-pow (suc a) (clzll (suc a)))),
    )

-- The number is bounded by its highest limb.
value_top :
    (base a bound : ℕ) (tab : List ℕ)
    → AreLimbs base (a ∷ tab)
    → get_or (a ∷ tab) (length tab) 0 < bound
    → value base (a ∷ tab) < base ^ length tab * bound
unfolding value
value_top base a bound [] limbs small = rw (pow-zero base) (omega (arith, mul_comm base 0))
value_top base a bound (b ∷ tab) limbs small =
    let rest = value_top base b bound tab limbs.1 small in
    let product : base ^ suc (length tab) * bound ≡ base * (base ^ length tab * bound) =
      ap (λ k. k * bound) (pow-suc base (length tab) ∙ mul_comm (base ^ length tab) base)
      ∙ mul_assoc base (base ^ length tab) bound in
    rw product (omega (arith, limbs.0, mul-le-mul_left base rest))

get_or-limb :
    (base : ℕ) → 0 < base → (tab : List ℕ) (i : ℕ) → AreLimbs base tab → get_or tab i 0 < base
get_or-limb base positive [] i limbs = positive
get_or-limb base positive (a ∷ tab) zero limbs = limbs.0
get_or-limb base positive (a ∷ tab) (suc i) limbs = get_or-limb base positive tab i limbs.1

pub limb_mod_positive : (w : Width) → 0 < limb_mod w
unfolding limb_mod
limb_mod_positive narrow = omega arith
limb_mod_positive wide = omega arith

pub n_bits_lem :
    (w : Width) (a : ℕ) (tab : List ℕ)
    → AreLimbs (limb_mod w) (a ∷ tab)
    → value (limb_mod w) (a ∷ tab) < 2 ^ n_bits_of w (a ∷ tab)
unfolding n_bits_of
n_bits_lem w a tab limbs =
    let l : ℕ = length tab in
    let top : ℕ = get_or (a ∷ tab) l 0 in
    let c : ℕ = limb_safe_clz w top in
    let lead =
      limb_safe_clz_lem w top (get_or-limb (limb_mod w) (limb_mod_positive w) (a ∷ tab) l limbs) in
    let bits : l * limb_bits w + (limb_bits w - c) ≡ suc l * limb_bits w - c =
      omega (arith, lead.0) in
    let joined : limb_mod w ^ l * 2 ^ (limb_bits w - c) ≡ 2 ^ (suc l * limb_bits w - c) =
      ap (λ m. m ^ l * 2 ^ (limb_bits w - c)) (limb_mod_lem w)
      ∙ ap (λ m. m * 2 ^ (limb_bits w - c)) (pow_mul 2 (limb_bits w) l)
      ∙ sym (pow_add 2 (l * limb_bits w) (limb_bits w - c))
      ∙ ap (λ k. 2 ^ k) bits in
    let last : suc l - 1 ≡ l = omega arith in
    rw last
      (omega (arith, joined, value_top (limb_mod w) a (2 ^ (limb_bits w - c)) tab limbs lead.1))

-- Rounded up, the digits have at least as many bits as were asked for.
rounded_up : (n l : ℕ) → 1 ≤ l → n ≤ (n + l - 1) / l * l
rounded_up n l positive = omega (arith, lt-div-mul-add {a = n + l - 1} positive)

-- With a digit for every log2_radix bits there is room for the number in the radix.
pub n_digits_lem :
    (w : Width) (radix a : ℕ) (tab : List ℕ)
    → 2 ≤ radix
    → radix ≤ 36
    → AreLimbs (limb_mod w) (a ∷ tab)
    → value (limb_mod w) (a ∷ tab) < radix ^ n_digits_of w radix (a ∷ tab)
unfolding n_digits_of
n_digits_lem w radix a tab two few limbs =
    let l : ℕ = log2_radix_of radix in
    let bits : ℕ = n_bits_of w (a ∷ tab) in
    let d : ℕ = (bits + l - 1) / l in
    let log = log2_radix_lem radix two few in
    let more : 2 ^ bits ≤ 2 ^ (d * l) =
      pow-le-pow_right {n = 2} (omega arith) (rounded_up bits l log.0) in
    omega (arith, n_bits_lem w a tab limbs, more, pow_mul 2 l d, pow-le-pow_left log.1 d)

pub limb_bits_positive : (w : Width) → 0 < limb_bits w
unfolding limb_bits
limb_bits_positive narrow = omega arith
limb_bits_positive wide = omega arith
