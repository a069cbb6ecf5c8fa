-- ===== src/Bigint/Printing.antt =====
-- What js_bigint_to_string1 gives for a number, and what it leaves of the blocks.
use quickjs_bun.Prelude.{
  ℕ, ◌+◌, ◌-◌, ◌*◌, ◌^◌, ◌≤◌, ◌<◌, ◌≡◌, refl, sym, ap, ◌∙◌, ◌⊎◌, inl, inr, Bool, true, false,
  Bool-cases, Option, Option-cases, none, some, List, [], ◌∷◌, length, get_or, ◌==◌, ◌&&◌,
  if◌then◌else◌, arith, lt→ltb,
}
use native.Mathlib.Nat.{mul-zero}
use quickjs_bun.Runtime.{Runtime}
use quickjs_bun.Runtime.Values.{Value, big_int}
use quickjs_bun.Engine.{Engine}
use quickjs_bun.Ownership.{Resource, Ledger, is, block, taken}
use quickjs_bun.Ownership.Laws.{weight, taken_lem, released_lem}
use quickjs_bun.Bigint.{
  Width, narrow, wide, limb_mod, Written, stopped, digits_at, n_digits_of, n_bits_of,
  is_binary_radix,
}
use quickjs_bun.Bigint.Limbs.{value, AreLimbs, not_zero, value_below}
use quickjs_bun.Bigint.Digits.{read, first_digit}
use quickjs_bun.Bigint.Room.{n_bits_lem, n_digits_lem}
use quickjs_bun.Bigint.Loop.{Halted, write_limbs-Ends}
use quickjs_bun.Bigint.Binary.{write_bits-reads}
use quickjs_bun.Bigint.Strings.{
  Bigints, bigint_sign, sign_len, block_of, made_string, ended, digits_of, into_block, written_out,
  negated, copied, of_limbs, big_to_string, of_tag, bigint_to_string1,
}
use quickjs_bun.Bigint.Shown.{
  Shows, signed, sign_lem, Outcome, failed, shown, handed_out_lem, stopped_lem, Outcome-because,
}

-- The limbs of a number in two's complement that is 0 with one limb only
abbrev pub AreBigint : Width → List ℕ → Type 0
AreBigint w tab = AreLimbs (limb_mod w) tab × ((tab ≡ 0 ∷ []) ⊎ (0 < value (limb_mod w) tab))

-- The absolute value of such a number
unfoldable pub magnitude : Width → List ℕ → ℕ
magnitude w tab =
    if bigint_sign w tab
    then limb_mod w ^ length tab - value (limb_mod w) tab
    else value (limb_mod w) tab

-- js_bigint_neg, where it gives a block, gives limbs of the absolute value of a negative number.
abbrev pub Negates : {E : Type 0} → Width → Bigints E → Type 0
Negates {E} w lib =
    (tab out : List ℕ) (p : ℕ) (rt : Runtime E)
    → AreLimbs (limb_mod w) tab
    → bigint_sign w tab ≡ true
    → (lib.bigint_neg tab rt).0 ≡ some (p, out)
    → AreLimbs (limb_mod w) out
      × (value (limb_mod w) out ≡ limb_mod w ^ length tab - value (limb_mod w) tab)

zero_sign : (w : Width) → bigint_sign w (0 ∷ []) ≡ false
unfolding bigint_sign limb_mod
zero_sign narrow = refl
zero_sign wide = refl

zero-Shows : (radix base : ℕ) → 0 < radix → Shows radix (value base (0 ∷ [])) (b'0' ∷ [])
unfolding value read first_digit
zero-Shows radix base some_radix =
    let number : 0 * radix + 0 ≡ 0 + base * 0 = omega (arith, mul-zero base) in
    rw (lt→ltb 0 radix some_radix)
      (ap some number, λ other positive. absurd (omega (arith, mul-zero base)))

module _ {E : Type 0} (js : Engine E) (ctx : ℕ) (lib : Bigints E) (w : Width) (radix : ℕ)
    (two : 2 ≤ radix) (few : radix ≤ 36) where
  -- The loop was interrupted, or the digits of `m` have been written.
  abbrev Written? : Type 0 → ℕ → ℕ → Written → Type 0
  Written? Halt m s r =
      ((r ≡ stopped) × Halt)
      ⊎ ((spare : ℕ) × (digits : List ℕ) × (r ≡ digits_at (some (spare + s, digits)))
          × Shows radix m digits)

  digits_of_lem :
      (a : ℕ) (tab : List ℕ) (s : ℕ) (rt : Runtime E)
      → AreLimbs (limb_mod w) (a ∷ tab)
      → 0 < value (limb_mod w) (a ∷ tab)
      → Written?
          ((is_binary_radix radix ≡ false) × Halted js ctx w radix (a ∷ tab) rt)
          (value (limb_mod w) (a ∷ tab))
          s
          (digits_of js ctx lib w radix (a ∷ tab) (n_digits_of w radix (a ∷ tab) + s) rt).0
  unfolding digits_of read
  digits_of_lem a tab s rt limbs positive =
      let d : ℕ = n_digits_of w radix (a ∷ tab) in
      let small = n_digits_lem w radix a tab two few limbs in
      elim (Bool-cases (is_binary_radix radix)) [
        | inl binary ↦
            let out = write_bits-reads w radix two few binary (a ∷ tab) limbs d s small in
            rw (binary, out.1)
              (inr (
                0,
                out.0,
                ap (λ k. digits_at (some (k, out.0))) {y = 0 + s} (omega arith),
                (out.2, λ other. absurd (ground arith)),
              ))
        | inr other ↦
            let ends =
              write_limbs-Ends js ctx w radix s two few other (n_bits_of w (a ∷ tab)) (a ∷ tab) d []
                rt limbs positive (n_bits_lem w a tab limbs) small in
            rw other (elim ends [
              | inl (e, halted) ↦ inl (e, (refl, halted))
              | inr (q, e, written) ↦ inr (
                written.spare,
                written.out,
                e ∙ ap digits_at written.place,
                (written.reads, λ other' some_digit. written.leads),
              )
            ])
      ]

  ended_lem :
      (Why : Type 0) (x : Resource) (n m : ℕ) (tmp : Option ℕ) (buf : ℕ) (neg : Bool) (r : Written)
      (rt : Runtime E) (l : Ledger)
      → Written? Why m (sign_len neg) r
      → l x ≡ some (n + weight x (block_of tmp) + weight x (some (block buf)))
      → Outcome js ctx lib radix x n Why neg m (ended js ctx lib tmp buf neg r rt l)
  unfolding ended
  ended_lem Why x n m tmp buf neg r rt l (inl (e, why)) held =
      rw e (stopped_lem js ctx lib radix x n Why tmp buf m neg rt l why held)
  ended_lem Why x n m tmp buf neg r rt l (inr (spare, digits, e, shows)) held =
      rw (e, sign_lem neg spare digits)
        (handed_out_lem js ctx lib radix x n Why tmp buf spare m neg digits rt l shows held)

  -- Why the digits of the limbs were not written, from a runtime on: there was no block for them, of
  -- just their size, or a poll of the loop over them interrupted it.
  pub data Unwritten (neg : Bool) (tab : List ℕ) (rt : Runtime E) : Type 0 where
    not_allocated :
        (lib.malloc (n_digits_of w radix tab + sign_len neg + 1) rt).0 ≡ none → Unwritten neg tab rt
    interrupted :
        is_binary_radix radix ≡ false
        → Halted js ctx w radix tab (lib.malloc (n_digits_of w radix tab + sign_len neg + 1) rt).1
        → Unwritten neg tab rt

  -- Why there is no text of a bigint with these limbs: js_bigint_neg or js_bigint_new, where it is
  -- called, gave no block, or the digits of what it gave were not written.
  pub data Failure (tab : List ℕ) (rt : Runtime E) : Type 0 where
    not_negated : bigint_sign w tab ≡ true → (lib.bigint_neg tab rt).0 ≡ none → Failure tab rt
    not_copied :
        bigint_sign w tab ≡ false
        → is_binary_radix radix ≡ false
        → (lib.bigint_new (length tab) rt).0 ≡ none
        → Failure tab rt
    negative_unwritten :
        (p : ℕ) (out : List ℕ)
        → bigint_sign w tab ≡ true
        → (lib.bigint_neg tab rt).0 ≡ some (p, out)
        → Unwritten true out (lib.bigint_neg tab rt).1
        → Failure tab rt
    copy_unwritten :
        bigint_sign w tab ≡ false
        → is_binary_radix radix ≡ false
        → Unwritten false tab (lib.bigint_new (length tab) rt).1
        → Failure tab rt
    unwritten :
        bigint_sign w tab ≡ false
        → is_binary_radix radix ≡ true
        → Unwritten false tab rt
        → Failure tab rt

  cause_lem :
      (neg : Bool) (tab : List ℕ) (rt : Runtime E) (r : Written)
      → (let rt' = (lib.malloc (n_digits_of w radix tab + sign_len neg + 1) rt).1 in
          Written?
            ((is_binary_radix radix ≡ false) × Halted js ctx w radix tab rt')
            (value (limb_mod w) tab)
            (sign_len neg)
            r)
      → Written? (Unwritten neg tab rt) (value (limb_mod w) tab) (sign_len neg) r
  cause_lem neg tab rt r (inl (e, (other, halted))) = inl (e, interrupted other halted)
  cause_lem neg tab rt r (inr written) = inr written

  written_out_lem :
      (x : Resource) (n : ℕ) (tmp : Option ℕ) (neg : Bool) (tab : List ℕ) (rt : Runtime E)
      (l : Ledger)
      → AreLimbs (limb_mod w) tab
      → 0 < value (limb_mod w) tab
      → l x ≡ some (n + weight x (block_of tmp))
      → Outcome js ctx lib radix x n
          (Unwritten neg tab rt)
          neg
          (value (limb_mod w) tab)
          (written_out js ctx lib w radix neg tmp tab rt l)
  unfolding written_out into_block value
  written_out_lem x n tmp neg [] rt l limbs positive held = absurd (omega arith)
  written_out_lem x n tmp neg (a ∷ tab) rt l limbs positive held =
      let size : ℕ = n_digits_of w radix (a ∷ tab) + sign_len neg + 1 in
      elim (Option-cases (lib.malloc size rt).0) [
        | inl refused ↦
            rw refused
              (failed (not_allocated refused) refl (released_lem x (block_of tmp) l n held))
        | inr (buf, given) ↦ rw given (
            ended_lem (Unwritten neg (a ∷ tab) rt) x n _ tmp buf neg _ _
              (taken (some (block buf)) l)
              (cause_lem neg (a ∷ tab) rt _
                (digits_of_lem a tab (sign_len neg) (lib.malloc size rt).1 limbs positive))
              (taken_lem x (some (block buf)) l (n + weight x (block_of tmp)) held))
      ]

  negated_lem :
      (x : Resource) (n : ℕ) (tab : List ℕ) (rt : Runtime E) (l : Ledger)
      → Negates w lib
      → AreLimbs (limb_mod w) tab
      → bigint_sign w tab ≡ true
      → l x ≡ some n
      → Outcome js ctx lib radix x n
          (Failure tab rt)
          true
          (limb_mod w ^ length tab - value (limb_mod w) tab)
          (of_limbs js ctx lib w radix tab true (is_binary_radix radix) rt l)
  unfolding of_limbs negated
  negated_lem x n tab rt l negates limbs negative held =
      elim (Option-cases (lib.bigint_neg tab rt).0) [
        | inl refused ↦ rw refused (failed (not_negated negative refused) refl held)
        | inr ((p, out), given) ↦
            let h = negates tab out p rt limbs negative given in
            let below = value_below (limb_mod w) tab limbs in
            rw given (
              rw (sym h.1) (
                Outcome-because js ctx lib radix x n (Unwritten true out (lib.bigint_neg tab rt).1)
                  (Failure tab rt) true _ _ (negative_unwritten p out negative given)
                  (written_out_lem x n (some p) true out _ (taken (some (block p)) l) h.0
                    (omega (arith, h.1)) (taken_lem x (some (block p)) l n held))))
      ]

  positive_lem :
      (x : Resource) (n : ℕ) (binary : Bool) (tab : List ℕ) (rt : Runtime E) (l : Ledger)
      → is_binary_radix radix ≡ binary
      → bigint_sign w tab ≡ false
      → AreLimbs (limb_mod w) tab
      → 0 < value (limb_mod w) tab
      → l x ≡ some n
      → Outcome js ctx lib radix x n
          (Failure tab rt)
          false
          (value (limb_mod w) tab)
          (of_limbs js ctx lib w radix tab false binary rt l)
  unfolding of_limbs copied weight is
  positive_lem x n true tab rt l kind sign limbs positive held =
      Outcome-because js ctx lib radix x n (Unwritten false tab rt) (Failure tab rt) false _ _
        (unwritten sign kind)
        (written_out_lem x n none false tab rt l limbs positive (held ∙ ap some (omega arith)))
  positive_lem x n false tab rt l kind sign limbs positive held =
      elim (Option-cases (lib.bigint_new (length tab) rt).0) [
        | inl refused ↦ rw refused (failed (not_copied sign kind refused) refl held)
        | inr (p, given) ↦ rw given (
            Outcome-because js ctx lib radix x n
              (Unwritten false tab (lib.bigint_new (length tab) rt).1) (Failure tab rt) false _ _
              (copy_unwritten sign kind)
              (written_out_lem x n (some p) false tab _ (taken (some (block p)) l) limbs positive
                (taken_lem x (some (block p)) l n held)))
      ]

  big_to_string_lem :
      (x : Resource) (n : ℕ) (tab : List ℕ) (rt : Runtime E) (l : Ledger)
      → AreBigint w tab
      → Negates w lib
      → l x ≡ some n
      → Outcome js ctx lib radix x n
          (Failure tab rt)
          (bigint_sign w tab)
          (magnitude w tab)
          (big_to_string js ctx lib w radix tab rt l)
  unfolding big_to_string made_string magnitude signed
  big_to_string_lem x n tab rt l (limbs, inl zero_) negates held =
      rw (zero_, zero_sign w)
        (shown (b'0' ∷ []) rt (zero-Shows radix (limb_mod w) (omega arith)) refl
          (taken_lem x _ l n held))
  big_to_string_lem x n tab rt l (limbs, inr positive) negates held =
      let base : ℕ = limb_mod w in
      let tests : ((length tab == 1) && (get_or tab 0 0 == 0)) ≡ false =
        not_zero base tab positive in
      rw tests (elim (Bool-cases (bigint_sign w tab)) [
        | inl negative ↦ rw negative (negated_lem x n tab rt l negates limbs negative held)
        | inr other ↦
            rw other
              (positive_lem x n (is_binary_radix radix) tab rt l refl other limbs positive held)
      ])

  -- For a radix from 2 to 36 and a number that is not held as a short one, whatever its limbs:
  -- js_bigint_to_string1 gives what the engine makes of the number's digits in the radix, behind a
  -- minus sign just if the number is negative; read back, the digits make its absolute value, and
  -- where the radix is no power of two, the first of them is not 0 unless the number is 0. Nothing
  -- is written outside the block, and the result alone is held afterwards. Or it gives an exception,
  -- with nothing held; and then, on the runtime that the calls before it left, js_bigint_neg of the
  -- number, js_bigint_new of its length or js_malloc_rt of the digits' size gave no block, or a poll
  -- that the loop over the limbs makes interrupted it. js_bigint_neg gives the absolute value of a
  -- negative number.
  pub bigint_to_string1-Outcome :
      (val : Value) (x : Resource) (n : ℕ) (rt : Runtime E) (l : Ledger)
      → val.tag ≡ big_int
      → AreBigint w (lib.tab val)
      → Negates w lib
      → l x ≡ some n
      → Outcome js ctx lib radix x n
          (Failure (lib.tab val) rt)
          (bigint_sign w (lib.tab val))
          (magnitude w (lib.tab val))
          (bigint_to_string1 js ctx lib w radix val rt l)
  unfolding bigint_to_string1 of_tag
  bigint_to_string1-Outcome val x n rt l tagged valid negates held =
      let e : of_tag js ctx lib w radix val.tag val
          ≡ big_to_string js ctx lib w radix (lib.tab val) =
        ap (λ t. of_tag js ctx lib w radix t val) tagged in
      rw e (big_to_string_lem x n (lib.tab val) rt l valid negates held)
