-- ===== src/Bigint/Bits.antt =====
-- The digit of a radix that is a power of two, cut out of one limb or of two.
use quickjs_bun.Prelude.{
  ℕ, zero, suc, ◌+◌, ◌-◌, ◌*◌, ◌/◌, ◌%◌, ◌^◌, ◌≤◌, ◌<◌, ◌≡◌, refl, sym, ap, ◌∙◌, List, [], ◌∷◌,
  length, get_or, leb, ltb, ◌&&◌, false, Bool-cases, inl, inr, arith,
}
use quickjs_bun.Prelude.Powers.{pow_add, pow_mul}
use native.Mathlib.Nat.{
  pow-zero, pow-suc, mul_comm, mul_assoc, mul-add, div-one, zero-div, div-eq_of_lt,
  div-div-eq-div-mul, add-mul-div_left, add-mul-mod_self_right, mul_left_comm, mul_right_comm,
  mod-lt, one-le-pow, div-add-mod, div-add-mod', mul-zero,
}
use quickjs_bun.Bigint.{Width, limb_bits, limb_mod, digit_at}
use quickjs_bun.Bigint.Limbs.{value, AreLimbs}
use quickjs_bun.Bigint.Room.{limb_mod_lem, limb_mod_positive, limb_bits_positive}

-- The limbs from `pos` on: the limb there, the next one, and what is above them.
record Cut (base : ℕ) (tab : List ℕ) (pos : ℕ) : Type 0 where
  above : ℕ
  rest : ℕ
  here : value base tab / base ^ pos ≡ get_or tab pos 0 + base * above
  next : above ≡ get_or tab (suc pos) 0 + base * rest
  ends : length tab ≤ suc pos → above ≡ 0

module _ (base : ℕ) (positive : 0 < base) where
  cut_lem : (tab : List ℕ) (pos : ℕ) → AreLimbs base tab → Cut base tab pos
  unfolding value
  cut_lem [] pos limbs = record {
    above = 0;
    rest = 0;
    here = zero-div (base ^ pos) ∙ omega (arith, mul-zero base);
    next = omega (arith, mul-zero base);
    ends = λ h. refl;
  }
  cut_lem (a ∷ []) zero limbs = record {
    above = 0;
    rest = 0;
    here = rw (pow-zero base) (div-one (a + base * 0));
    next = omega (arith, mul-zero base);
    ends = λ h. refl;
  }
  cut_lem (a ∷ b ∷ tab) zero limbs = record {
    above = value base (b ∷ tab);
    rest = value base tab;
    here = rw (pow-zero base) (div-one (a + base * value base (b ∷ tab)));
    next = refl;
    ends = λ h. absurd (omega arith);
  }
  cut_lem (a ∷ tab) (suc pos) limbs =
      let c = cut_lem tab pos limbs.1 in
      let v : ℕ = value base tab in
      let tail : (a + base * v) / base ≡ v =
        add-mul-div_left a v positive ∙ omega (arith, div-eq_of_lt limbs.0) in
      let swapped : base ^ suc pos ≡ base * base ^ pos =
        pow-suc base pos ∙ mul_comm (base ^ pos) base in
      record {
        above = c.above;
        rest = c.rest;
        here =
            ap (λ k. (a + base * v) / k) swapped
            ∙ sym (div-div-eq-div-mul (a + base * v) base (base ^ pos))
            ∙ ap (λ k. k / base ^ pos) tail
            ∙ c.here;
        next = c.next;
        ends = λ h. c.ends (omega arith);
      }

-- `x % r` is not changed by what `r` divides.
same_digit : (x y r k : ℕ) → y ≡ x + k * r → x % r ≡ y % r
same_digit x y r k e = rw e (sym (add-mul-mod_self_right x k r))

split_power : (m n : ℕ) → n ≤ m → 2 ^ m ≡ 2 ^ (m - n) * 2 ^ n
split_power m n le = ap (λ k. 2 ^ k) (omega arith) ∙ pow_add 2 (m - n) n

two_limbs :
    (low s above t m h r p : ℕ)
    → above ≡ t + m * h
    → m ≡ p * r
    → low + s * above ≡ low + t * s % m + p * (t * s / m + s * h) * r
two_limbs low s above t m h r p next base =
    let stuff : ℕ = t * s / m + s * h in
    let left : s * above ≡ s * t + s * (m * h) = ap (λ k. s * k) next ∙ mul-add s t (m * h) in
    let right : p * stuff * r ≡ m * (t * s / m) + m * (s * h) =
      mul_right_comm p stuff r ∙ ap (λ k. k * stuff) (sym base) ∙ mul-add m (t * s / m) (s * h) in
    omega (arith, left, right, mul_comm s t, mul_left_comm s m h, div-add-mod (t * s) m)

module _ (w : Width) (log2 : ℕ) (fits : log2 ≤ limb_bits w) (tab : List ℕ)
    (limbs : AreLimbs (limb_mod w) tab) (bit_pos : ℕ) where
  abbrev low_part : ℕ → ℕ → ℕ
  low_part pos shift = get_or tab pos 0 / 2 ^ shift

  -- The bits from `bit_pos` on
  shifted :
      (c : Cut (limb_mod w) tab (bit_pos / limb_bits w))
      → value (limb_mod w) tab / 2 ^ bit_pos
        ≡ low_part (bit_pos / limb_bits w) (bit_pos % limb_bits w)
          + 2 ^ (limb_bits w - bit_pos % limb_bits w) * c.above
  shifted c =
      let bits : ℕ = limb_bits w in
      let m : ℕ = limb_mod w in
      let pos : ℕ = bit_pos / bits in
      let shift : ℕ = bit_pos % bits in
      let s : ℕ = 2 ^ (bits - shift) in
      let place : 2 ^ bit_pos ≡ m ^ pos * 2 ^ shift =
        ap (λ k. 2 ^ k) (sym (div-add-mod' bit_pos bits))
        ∙ pow_add 2 (pos * bits) shift
        ∙ ap (λ k. k * 2 ^ shift) (sym (ap (λ k. k ^ pos) (limb_mod_lem w) ∙ pow_mul 2 bits pos)) in
      let le : shift ≤ bits = omega (arith, mod-lt bit_pos (limb_bits_positive w)) in
      let whole : m * c.above ≡ 2 ^ shift * (s * c.above) =
        ap (λ k. k * c.above) (limb_mod_lem w ∙ split_power bits shift le ∙ mul_comm s (2 ^ shift))
        ∙ mul_assoc (2 ^ shift) s c.above in
      ap (λ k. value m tab / k) place
      ∙ sym (div-div-eq-div-mul (value m tab) (m ^ pos) (2 ^ shift))
      ∙ ap (λ k. k / 2 ^ shift) (c.here ∙ ap (λ k. get_or tab pos 0 + k) whole)
      ∙ add-mul-div_left (get_or tab pos 0) (s * c.above) (one-le-pow shift 2 (omega arith))

  one_limb :
      (c : Cut (limb_mod w) tab (bit_pos / limb_bits w))
      → value (limb_mod w) tab / 2 ^ bit_pos
        ≡ low_part (bit_pos / limb_bits w) (bit_pos % limb_bits w)
          + 2 ^ (limb_bits w - bit_pos % limb_bits w) * c.above
      → (ltb (limb_bits w) (bit_pos % limb_bits w + log2)
          && ltb (suc (bit_pos / limb_bits w)) (length tab))
        ≡ false
      → low_part (bit_pos / limb_bits w) (bit_pos % limb_bits w) % 2 ^ log2
        ≡ value (limb_mod w) tab / 2 ^ bit_pos % 2 ^ log2
  one_limb c e one =
      let bits : ℕ = limb_bits w in
      let pos : ℕ = bit_pos / bits in
      let shift : ℕ = bit_pos % bits in
      let s : ℕ = 2 ^ (bits - shift) in
      elim (Bool-cases (leb (shift + log2) bits)) [
        | inl inside ↦
            let rest : ℕ = bits - shift - log2 in
            let le : shift + log2 ≤ bits = ground arith in
            let split : s ≡ 2 ^ rest * 2 ^ log2 =
              split_power (bits - shift) log2 (omega (arith, le)) in
            same_digit _ _ (2 ^ log2) (2 ^ rest * c.above) (
              e
              ∙ ap (λ k. low_part pos shift + k)
                  (ap (λ k. k * c.above) split ∙ mul_right_comm (2 ^ rest) (2 ^ log2) c.above))
        | inr outside ↦
            let short : length tab ≤ suc pos = ground arith in
            let nothing : s * c.above ≡ 0 = ap (λ k. s * k) (c.ends short) ∙ mul-zero s in
            ap (λ k. k % 2 ^ log2) (sym (e ∙ omega (arith, nothing)))
      ]

  -- js_bigint_to_string1 cuts out the digit at `bit_pos`.
  pub digit_at_lem : digit_at w log2 tab bit_pos ≡ value (limb_mod w) tab / 2 ^ bit_pos % 2 ^ log2
  unfolding digit_at
  digit_at_lem =
      let bits : ℕ = limb_bits w in
      let m : ℕ = limb_mod w in
      let pos : ℕ = bit_pos / bits in
      let shift : ℕ = bit_pos % bits in
      let s : ℕ = 2 ^ (bits - shift) in
      let c = cut_lem m (limb_mod_positive w) tab pos limbs in
      let e = shifted c in
      elim (Bool-cases (ltb bits (shift + log2) && ltb (suc pos) (length tab))) [
        | inl both ↦ rw both (
            same_digit _ _ (2 ^ log2) _ (
              e
              ∙ two_limbs (low_part pos shift) s c.above (get_or tab (suc pos) 0) m c.rest
                  (2 ^ log2) (2 ^ (bits - log2)) c.next
                  (limb_mod_lem w ∙ split_power bits log2 fits)))
        | inr one ↦ rw one (one_limb c e one)
      ]
