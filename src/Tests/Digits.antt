-- ===== src/Tests/Digits.antt =====
-- The theorem on the digits of a bigint, at -5, and the digits of some numbers.
use quickjs_bun.Prelude.{
  ℕ, ◌+◌, ◌-◌, ◌≡◌, refl, sym, ap, ◌≤◌, true, none, some, List, [], ◌∷◌, inr, Option, arith,
}
use quickjs_bun.Runtime.Values.{Value, big_int}
use quickjs_bun.Ownership.{block}
use quickjs_bun.Interrupt.{poll, write_counter, counter, set_counter}
use quickjs_bun.Bigint.{narrow, wide, limb_mod, digits_at, n_digits_of}
use quickjs_bun.Bigint.Limbs.{value}
use quickjs_bun.Bigint.Strings.{Bigints, bigint_sign, digits_of, bigint_to_string1}
use quickjs_bun.Bigint.Shown.{Outcome}
use quickjs_bun.Bigint.Printing.{Negates, Failure, magnitude, bigint_to_string1-Outcome}
use quickjs_bun.Tests.Sample.{js, runtime}

-- The engine negates a number of one limb.
abbrev negate : List ℕ → List ℕ
negate (a ∷ []) = (4294967296 - a) ∷ []
negate tab = []

abbrev lib : Bigints (Unit {0})
lib = record {
  tab = λ v. 4294967291 ∷ [];
  i64toa_radix = λ v radix. [];
  bigint_neg = λ tab rt. (
    elim tab [ [] ↦ none | a ∷ rest ↦ elim rest [ [] ↦ some (9, negate (a ∷ [])) | _ ∷ _ ↦ none ] ],
    rt,
  );
  bigint_new = λ len rt. (some 9, rt);
  malloc = λ size rt. (some 8, rt);
  new_string8_len = λ text rt. (record { tag = big_int; payload = 3 }, rt);
}

-- 7 * 2 ^ 32 + 5 in decimal, in octal and, with limbs of 64 bits, in base 36
decimal :
    (digits_of js 7 lib narrow 10 (5 ∷ 7 ∷ []) (n_digits_of narrow 10 (5 ∷ 7 ∷ [])) runtime).0
    ≡ digits_at (some (1, 51 ∷ 48 ∷ 48 ∷ 54 ∷ 52 ∷ 55 ∷ 55 ∷ 49 ∷ 48 ∷ 55 ∷ 55 ∷ []))
unfolding digits_of poll write_counter counter set_counter
decimal = refl

octal :
    (digits_of js 7 lib narrow 8 (5 ∷ 7 ∷ []) (n_digits_of narrow 8 (5 ∷ 7 ∷ [])) runtime).0
    ≡ digits_at (some (0, 51 ∷ 52 ∷ 48 ∷ 48 ∷ 48 ∷ 48 ∷ 48 ∷ 48 ∷ 48 ∷ 48 ∷ 48 ∷ 53 ∷ []))
unfolding digits_of poll write_counter counter set_counter
octal = refl

base_36 :
    (digits_of js 7 lib wide 36 (5 ∷ 7 ∷ []) (n_digits_of wide 36 (5 ∷ 7 ∷ [])) runtime).0
    ≡ digits_at
        (some (1, 114 ∷ 57 ∷ 49 ∷ 113 ∷ 55 ∷ 55 ∷ 102 ∷ 54 ∷ 120 ∷ 106 ∷ 57 ∷ 106 ∷ 57 ∷ []))
unfolding digits_of poll write_counter counter set_counter
base_36 = refl

abbrev limbs_of : Option (ℕ × List ℕ) → List ℕ
limbs_of none = []
limbs_of (some given) = given.1

negate-Negates : Negates narrow lib
unfolding limb_mod value bigint_sign
negate-Negates [] out p rt limbs negative given = absurd (ground arith)
negate-Negates (a ∷ []) out p rt limbs negative given =
    let result : negate (a ∷ []) ≡ out = ap limbs_of given in
    let high : 4294967296 ≤ a + a = ground arith in
    rw (sym result) ((omega (arith, high), tt), omega arith)
negate-Negates (a ∷ b ∷ tab) out p rt limbs negative given = absurd (ground arith)

abbrev five : Value
five = record { tag = big_int; payload = 2 }

bigint_to_string1-Outcome_example :
    Outcome js 7 lib 10
      (block 8)
      0
      (Failure js 7 lib narrow 10 (omega arith) (omega arith) (lib.tab five) runtime)
      true
      5
      (bigint_to_string1 js 7 lib narrow 10 five runtime (λ x. some 0))
unfolding bigint_sign limb_mod magnitude value
bigint_to_string1-Outcome_example =
    bigint_to_string1-Outcome js 7 lib narrow 10 (omega arith) (omega arith) five (block 8) 0
      runtime (λ x. some 0) refl (((omega arith), tt), inr (omega arith)) negate-Negates refl
