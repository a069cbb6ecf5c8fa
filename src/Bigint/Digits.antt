-- ===== src/Bigint/Digits.antt =====
-- Reading digits as quickjs/quickjs.c does, and what js_u64toa and limb_to_a have written.
use quickjs_bun.Prelude.{
  ℕ, zero, suc, ◌+◌, ◌-◌, ◌*◌, ◌/◌, ◌%◌, ◌^◌, ◌≤◌, ◌<◌, ◌≡◌, refl, ap, ◌∙◌, inl, inr, Bool-cases,
  Option, none, some, List, [], ◌∷◌, get_or, leb, ltb, ◌==◌, ◌&&◌, lt→ltb, ==→eq, if◌then◌else◌,
  arith,
}
use native.Mathlib.Nat.{
  lt-div-mul-add, mod-lt, mod-eq_of_lt, div-eq_of_lt, mul-le-mul_left, div-mul-le_self,
  div-add-mod', div-lt_iff_lt-mul, pow-zero, pow-suc, mul_assoc, add-mul,
}
use quickjs_bun.Bigint.{Buffer, write_char, char_of, u64toa, limb_to_a}

-- to_digit
unfoldable pub to_digit : ℕ → ℕ
to_digit c =
    if leb b'0' c && leb c b'9'
    then c - b'0'
    else if leb b'A' c && leb c b'Z'
    then c - b'A' + 10
    else if leb b'a' c && leb c b'z'
    then c - b'a' + 10
    else 36

-- The number that digits make behind `n`; `none` if one of them is no digit of the radix.
unfoldable pub read : ℕ → ℕ → List ℕ → Option ℕ
unfolding to_digit
read radix n [] = some n
read radix n (c ∷ text) =
    let rest : Option ℕ = read radix (n * radix + to_digit c) text in
    if ltb (to_digit c) radix then rest else none

-- The first digit of a text
unfoldable pub first_digit : List ℕ → ℕ
unfolding to_digit
first_digit text = to_digit (get_or text 0 b'0')

to_digit-char_of : (radix d : ℕ) → d < radix → radix ≤ 36 → to_digit (char_of radix d) ≡ d
unfolding to_digit char_of
to_digit-char_of radix d small few = ground arith

pub read-char_of :
    (radix d n : ℕ) (text : List ℕ)
    → d < radix
    → radix ≤ 36
    → read radix n (char_of radix d ∷ text) ≡ read radix (n * radix + d) text
unfolding read
read-char_of radix d n text small few =
    rw (to_digit-char_of radix d small few) (rw (lt→ltb d radix small) refl)

module _ (radix : ℕ) (two : 2 ≤ radix) (few : radix ≤ 36) where
  -- The last digit of `m`, behind what `j` makes.
  pub last_digit :
      (m n j : ℕ) (text : List ℕ)
      → j * radix + m % radix ≡ n
      → read radix j (char_of radix (m % radix) ∷ text) ≡ read radix n text
  last_digit m n j text e =
      read-char_of radix (m % radix) j text (mod-lt m (omega arith)) few
      ∙ ap (λ k. read radix k text) e

  quotient_small : (n d : ℕ) → n < radix ^ suc d → n / radix < radix ^ d
  quotient_small n d h =
      (div-lt_iff_lt-mul {k = radix} {x = n} {y = radix ^ d} (omega arith)).1
        (omega (arith, pow-suc radix d))

  -- limb_to_a writes the digits of `n`, as many as it is asked for.
  pub limb_to_a_lem :
      (len d n : ℕ) (text : List ℕ)
      → n < radix ^ len
      → (out : List ℕ) × (limb_to_a (some (d + len, text)) n radix len ≡ some (d, out))
        × ((k : ℕ) → read radix k out ≡ read radix (k * radix ^ len + n) text)
  unfolding limb_to_a write_char
  limb_to_a_lem zero d n text small = (
    text,
    ground arith,
    λ k. ap (λ j. read radix j text) (rw (pow-zero radix) (omega (arith, pow-zero radix))),
  )
  limb_to_a_lem (suc len) d n text small =
      let c : ℕ = char_of radix (n % radix) in
      let rest = limb_to_a_lem len d (n / radix) (c ∷ text) (quotient_small n len small) in
      let room : d + suc len ≡ suc (d + len) = omega arith in
      rw room (
        rest.0,
        rest.1,
        λ k.
            rest.2 k
            ∙ last_digit n (k * radix ^ suc len + n) (k * radix ^ len + n / radix) text (
                rw (pow-suc radix len) (
                  omega (
                    arith,
                    add-mul (k * radix ^ len) (n / radix) radix,
                    mul_assoc k (radix ^ len) radix,
                    div-add-mod' n radix,
                  ))),
      )

-- The digits of `n` in front of `text`, with `s` bytes left free and the first digit not 0.
pub record IsWritten (radix n s : ℕ) (text : List ℕ) (q : Buffer) : Type 0 where
  pub spare : ℕ
  pub out : List ℕ
  pub place : q ≡ some (spare + s, out)
  pub reads : read radix 0 out ≡ read radix n text
  pub leads : 0 < first_digit out

module _ (radix s : ℕ) (two : 2 ≤ radix) (few : radix ≤ 36) where
  -- One digit in front of the others
  one_more :
      (n : ℕ) (text : List ℕ) (q : Buffer)
      → IsWritten radix (n / radix) s (char_of radix (n % radix) ∷ text) q
      → IsWritten radix n s text q
  one_more n text q w = record {
    spare = w.spare;
    out = w.out;
    place = w.place;
    reads = w.reads ∙ last_digit radix two few n n (n / radix) text (div-add-mod' n radix);
    leads = w.leads;
  }

  div_zero : (n : ℕ) → n / radix ≡ 0 → n < radix
  div_zero n e =
      let positive : 0 < radix = omega arith in
      omega (arith, lt-div-mul-add {a = n} positive, ap (λ k. k * radix) e)

  one_digit :
      (n d : ℕ) (text : List ℕ)
      → 0 < n
      → n / radix ≡ 0
      → n < radix ^ d
      → IsWritten radix n s text (write_char (char_of radix (n % radix)) (some (d + s, text)))
  unfolding write_char first_digit
  one_digit n zero text positive last small = absurd (omega (arith, pow-zero radix))
  one_digit n (suc d) text positive last small =
      let fits : n < radix = div_zero n last in
      let whole : n % radix ≡ n = mod-eq_of_lt fits in
      let room : suc d + s ≡ suc (d + s) = omega arith in
      rw room record {
        spare = d;
        out = char_of radix (n % radix) ∷ text;
        place = refl;
        reads = last_digit radix two few n n 0 text (omega arith);
        leads = rw (to_digit-char_of radix (n % radix) (mod-lt n (omega arith)) few) (omega arith);
      }

  half_size : (n k : ℕ) → n < 2 ^ suc k → n / radix < 2 ^ k
  half_size n k h =
      omega (arith, pow-suc 2 k, mul-le-mul_left (n / radix) two, div-mul-le_self n radix)

  -- js_u64toa writes the digits of a number that is not 0.
  pub u64toa_lem :
      (left n d : ℕ) (text : List ℕ)
      → 0 < n
      → n < 2 ^ suc left
      → n < radix ^ d
      → IsWritten radix n s text (u64toa left (some (d + s, text)) n radix)
  unfolding u64toa write_char
  u64toa_lem zero n d text positive bits small =
      one_digit n d text positive (div-eq_of_lt (omega arith)) small
  u64toa_lem (suc left) n zero text positive bits small = absurd (omega (arith, pow-zero radix))
  u64toa_lem (suc left) n (suc d) text positive bits small = elim (Bool-cases (n / radix == 0)) [
    | inl last ↦ rw last (one_digit n (suc d) text positive (==→eq (n / radix) 0 last) small)
    | inr more ↦
        let some_left : 0 < n / radix = ground arith in
        let room : suc d + s ≡ suc (d + s) = omega arith in
        rw more (
          rw room (
            one_more n text _ (
              u64toa_lem left (n / radix) d (char_of radix (n % radix) ∷ text) some_left
                (half_size n (suc left) bits) (quotient_small radix two few n d small))))
  ]
