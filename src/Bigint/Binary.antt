-- ===== src/Bigint/Binary.antt =====
-- The loop of js_bigint_to_string1 for a radix that is a power of two.
use quickjs_bun.Prelude.{
  ℕ, zero, suc, ◌+◌, ◌*◌, ◌/◌, ◌%◌, ◌^◌, ◌≤◌, ◌<◌, ◌≡◌, sym, ap, ◌∙◌, List, [], ◌∷◌, true, leb,
  Bool-cases, inl, inr, some, arith,
}
use quickjs_bun.Prelude.Powers.{pow_add, pow_mul}
use native.Mathlib.Nat.{
  mod-lt, div-add-mod', div-div-eq-div-mul, div-one, pow-zero, pow-le-pow_right, zero-mul,
  div-eq_of_lt,
}
use quickjs_bun.Bigint.{
  Width, narrow, wide, limb_bits, limb_mod, digit_char, char_of, write_char, digit_at, write_bits,
  log2_radix_of, is_binary_radix,
}
use quickjs_bun.Bigint.Limbs.{value, AreLimbs}
use quickjs_bun.Bigint.Digits.{read, last_digit}
use quickjs_bun.Bigint.Radixes.{binary_radix}
use quickjs_bun.Bigint.Bits.{digit_at_lem}

digit_char-char_of : (radix d : ℕ) → d < radix → digit_char d ≡ char_of radix d
unfolding digit_char char_of
digit_char-char_of radix d small = ground arith

log2_small : (l radix : ℕ) → 2 ^ l ≡ radix → radix ≤ 36 → l ≤ 32
log2_small l radix e few = elim (Bool-cases (leb l 32)) [
  | inl small ↦ ground arith
  | inr large ↦
      let more : 33 ≤ l = ground arith in
      let power : 2 ^ 33 ≤ 2 ^ l = pow-le-pow_right (omega arith) more in absurd (omega arith)
]

wide_enough : (w : Width) (l : ℕ) → l ≤ 32 → l ≤ limb_bits w
unfolding limb_bits
wide_enough narrow l h = h
wide_enough wide l h = omega arith

module _ (w : Width) (radix : ℕ) (two : 2 ≤ radix) (few : radix ≤ 36)
    (binary : is_binary_radix radix ≡ true) (tab : List ℕ) (limbs : AreLimbs (limb_mod w) tab) where
  -- What is left of the number before the `i`-th digit
  abbrev pub left_at : ℕ → ℕ
  left_at i = value (limb_mod w) tab / 2 ^ (i * log2_radix_of radix)

  left_at-suc : (i : ℕ) → left_at (suc i) ≡ left_at i / radix
  left_at-suc i =
      let v : ℕ = value (limb_mod w) tab in
      let l : ℕ = log2_radix_of radix in
      let index : suc i * l ≡ i * l + l = omega arith in
      ap (λ k. v / k) (ap (λ k. 2 ^ k) index ∙ pow_add 2 (i * l) l)
      ∙ sym (div-div-eq-div-mul v (2 ^ (i * l)) (2 ^ l))
      ∙ ap (λ k. left_at i / k) (binary_radix radix two few binary)

  digit_lem :
      (i : ℕ)
      → digit_char (digit_at w (log2_radix_of radix) tab (i * log2_radix_of radix))
        ≡ char_of radix (left_at i % radix)
  digit_lem i =
      let l : ℕ = log2_radix_of radix in
      let power = binary_radix radix two few binary in
      let fits : l ≤ limb_bits w = wide_enough w l (log2_small l radix power few) in
      ap digit_char (digit_at_lem w l fits tab limbs (i * l) ∙ ap (λ k. left_at i % k) power)
      ∙ digit_char-char_of radix (left_at i % radix) (mod-lt (left_at i) (omega arith))

  write_bits_lem :
      (left i s : ℕ) (text : List ℕ)
      → (out : List ℕ) × (write_bits w (log2_radix_of radix) tab left i (some (left + s, text))
          ≡ some (s, out))
        × (read radix (left_at (left + i)) out ≡ read radix (left_at i) text)
  unfolding write_bits write_char
  write_bits_lem zero i s text =
      (text, ground arith, ap (λ j. read radix (left_at j) text) (omega arith))
  write_bits_lem (suc left) i s text =
      let rest = write_bits_lem left (suc i) s (char_of radix (left_at i % radix) ∷ text) in
      let room : suc left + s ≡ suc (left + s) = omega arith in
      let index : suc left + i ≡ left + suc i = omega arith in
      rw (room, index, digit_lem i)
        (
          rest.0,
          rest.1,
          rest.2
              ∙ last_digit radix two few (left_at i) (left_at i) (left_at (suc i)) text (
                  ap (λ k. k * radix + left_at i % radix) (left_at-suc i)
                  ∙ div-add-mod' (left_at i) radix),
        )

  -- The loop writes all of the number's digits, if it is asked for enough of them.
  pub write_bits-reads :
      (d s : ℕ)
      → value (limb_mod w) tab < radix ^ d
      → (out : List ℕ) × (write_bits w (log2_radix_of radix) tab d 0 (some (d + s, []))
          ≡ some (s, out))
        × (read radix 0 out ≡ some (value (limb_mod w) tab))
  unfolding read
  write_bits-reads d s small =
      let v : ℕ = value (limb_mod w) tab in
      let l : ℕ = log2_radix_of radix in
      let written = write_bits_lem d 0 s [] in
      let power : radix ^ d ≡ 2 ^ (d * l) =
        ap (λ k. k ^ d) (sym (binary_radix radix two few binary)) ∙ pow_mul 2 l d in
      let all_done : left_at (d + 0) ≡ 0 =
        ap left_at {y = d} (omega arith) ∙ div-eq_of_lt (omega (arith, power)) in
      let whole : left_at 0 ≡ v =
        ap (λ k. v / k) (ap (λ k. 2 ^ k) (zero-mul l) ∙ pow-zero 2) ∙ div-one v in
      (
        written.0,
        written.1,
        ap (λ k. read radix k written.0) (sym all_done) ∙ written.2 ∙ ap some whole,
      )
