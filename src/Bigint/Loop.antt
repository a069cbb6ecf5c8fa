-- ===== src/Bigint/Loop.antt =====
-- The loop of js_bigint_to_string1 over the limbs, which divides by the greatest power of the radix
-- that fits one.
use quickjs_bun.Prelude.{
  ℕ, zero, suc, ◌+◌, ◌-◌, ◌*◌, ◌/◌, ◌^◌, ◌≤◌, ◌<◌, ◌≡◌, refl, sym, ap, ◌∙◌, ◌⊎◌, List, [], ◌∷◌,
  length, get_or, leb, ltb, ◌==◌, ◌&&◌, true, false, Bool-cases, inl, inr, some, arith,
}
use quickjs_bun.Prelude.Powers.{pow_add}
use native.Mathlib.Nat.{
  pow-suc, mul_comm, mul-le-mul_left, mul-le-mul_right, lt_of_mul-lt-mul_right, pow-le-pow_right,
}
use quickjs_bun.Runtime.{Runtime, Cmd}
use quickjs_bun.Engine.{Engine}
use quickjs_bun.Interrupt.{poll}
use quickjs_bun.Bigint.{
  Width, limb_bits, limb_mod, digits_per_limb_table, radix_base_table, mp_div1, trimmed, Buffer,
  limb_to_a, Written, stopped, digits_at, count_down, last_digits, divided, polled, write_limbs,
  is_binary_radix,
}
use quickjs_bun.Bigint.Limbs.{value, AreLimbs, mp_div1_lem, trimmed_lem}
use quickjs_bun.Bigint.Digits.{read, IsWritten, limb_to_a_lem, u64toa_lem}
use quickjs_bun.Bigint.Radixes.{radix_base}
use quickjs_bun.Bigint.Room.{limb_mod_lem, limb_mod_positive}

only_limb :
    (base b : ℕ) (tab : List ℕ)
    → ((length tab == 1) && ltb (get_or tab 0 0) b) ≡ true
    → (value base tab ≡ get_or tab 0 0) × (get_or tab 0 0 < b)
unfolding value
only_limb base b [] h = absurd (ground arith)
only_limb base b (a ∷ []) h = (omega (arith, mul_comm base 0), ground arith)
only_limb base b (a ∷ c ∷ tab) h = absurd (ground arith)

-- A number that is not the only limb, or not below `b`, is at least `b`.
not_last :
    (base b : ℕ) (tab : List ℕ)
    → b ≤ base
    → 0 < value base tab
    → (length tab ≤ 1) ⊎ (base ≤ value base tab)
    → ((length tab == 1) && ltb (get_or tab 0 0) b) ≡ false
    → b ≤ value base tab
unfolding value
not_last base b tab low positive (inr high) h = omega arith
not_last base b [] low positive (inl short) h = absurd (omega arith)
not_last base b (a ∷ []) low positive (inl short) h =
    let large : b ≤ a = ground arith in omega (arith, large)
not_last base b (a ∷ c ∷ tab) low positive (inl short) h = absurd (omega arith)

quotient_positive : (q b r n : ℕ) → q * b + r ≡ n → r < b → b ≤ n → 0 < q
quotient_positive zero b r n e small large = absurd (omega (arith, mul_comm 0 b))
quotient_positive (suc q) b r n e small large = omega arith

quotient_half : (q b r n k : ℕ) → q * b + r ≡ n → 2 ≤ b → n < 2 ^ suc k → q < 2 ^ k
quotient_half q b r n k e two small = omega (arith, mul-le-mul_left q two, pow-suc 2 k)

at_most : (radix n q r p d : ℕ) → 2 ≤ radix → q * radix ^ p + r ≡ n → 0 < q → n < radix ^ d → p ≤ d
at_most radix n q r p d two divided positive small = elim (Bool-cases (leb p d)) [
  | inl le ↦ ground arith
  | inr more ↦
      let lt : d ≤ p = ground arith in
      let some_radix : 0 < radix = omega arith in
      absurd (omega (arith, pow-le-pow_right some_radix lt, mul-le-mul_right (radix ^ p) positive))
]

-- What is divided by a power of the radix has so many digits less.
fewer_digits :
    (radix n q r p d : ℕ)
    → 2 ≤ radix
    → q * radix ^ p + r ≡ n
    → 0 < q
    → n < radix ^ d
    → (p ≤ d) × (q < radix ^ (d - p))
fewer_digits radix n q r p d two divided positive small =
    let le : p ≤ d = at_most radix n q r p d two divided positive small in
    let split : radix ^ d ≡ radix ^ (d - p) * radix ^ p =
      ap (λ k. radix ^ k) (omega arith) ∙ pow_add radix (d - p) p in
    (le, lt_of_mul-lt-mul_right (radix ^ p) (omega (arith, split)))

module _ {E : Type 0} (js : Engine E) (ctx : ℕ) (w : Width) (radix : ℕ) where
  -- A poll that the loop makes interrupts it: that of this turn, or one of a later turn, which works
  -- on the limbs and the runtime that the turns before it leave.
  pub data Halted : List ℕ → Runtime E → Type 0 where
    at_once :
        {tab : List ℕ} {rt : Runtime E}
        → (poll js ctx (count_down js ctx (length tab / 16) rt).1).0 ≡ true
        → Halted tab rt
    later :
        {tab : List ℕ} {rt : Runtime E}
        → (poll js ctx (count_down js ctx (length tab / 16) rt).1).0 ≡ false
        → Halted
            (mp_div1 (limb_mod w) (get_or (radix_base_table w) (radix - 2) 0) 0 (trimmed tab)).0
            (poll js ctx (count_down js ctx (length tab / 16) rt).1).1
        → Halted tab rt

module _ {E : Type 0} (js : Engine E) (ctx : ℕ) (w : Width) (radix s : ℕ) (two : 2 ≤ radix)
    (few : radix ≤ 36) (other : is_binary_radix radix ≡ false) where
  -- The loop was interrupted, with the evidence `Halt`, or it has written the digits of `n`.
  abbrev pub Ends : Type 0 → ℕ → List ℕ → Written → Type 0
  Ends Halt n text r =
      ((r ≡ stopped) × Halt) ⊎ ((q : Buffer) × (r ≡ digits_at q) × IsWritten radix n s text q)

  -- Every turn of a loop that ends as `next` does, on numbers below 2 ^ `fuel`
  abbrev Loops : ℕ → (List ℕ → Buffer → Cmd E Written) → Type 0
  Loops fuel next =
      (tab : List ℕ) (d : ℕ) (text : List ℕ) (rt : Runtime E)
      → AreLimbs (limb_mod w) tab
      → 0 < value (limb_mod w) tab
      → value (limb_mod w) tab < 2 ^ fuel
      → value (limb_mod w) tab < radix ^ d
      → Ends (Halted js ctx w radix tab rt) (value (limb_mod w) tab) text
          (next tab (some (d + s, text)) rt).0

  -- The digits of the remainder, behind which the quotient's are read
  behind :
      (n q r p : ℕ) (text out : List ℕ) (b : Buffer)
      → q * radix ^ p + r ≡ n
      → ((k : ℕ) → read radix k out ≡ read radix (k * radix ^ p + r) text)
      → IsWritten radix q s out b
      → IsWritten radix n s text b
  behind n q r p text out b divided reads written = record {
    spare = written.spare;
    out = written.out;
    place = written.place;
    reads = written.reads ∙ reads q ∙ ap (λ k. read radix k text) divided;
    leads = written.leads;
  }

  Ends-behind :
      (Halt : Type 0) (n q r p : ℕ) (text out : List ℕ) (e : Written)
      → q * radix ^ p + r ≡ n
      → ((k : ℕ) → read radix k out ≡ read radix (k * radix ^ p + r) text)
      → Ends Halt q out e
      → Ends Halt n text e
  Ends-behind Halt n q r p text out e divided reads (inl halted) = inl halted
  Ends-behind Halt n q r p text out e divided reads (inr written) =
      inr (written.0, written.1, behind n q r p text out written.0 divided reads written.2)

  next_turn :
      (fuel : ℕ) (next : List ℕ → Buffer → Cmd E Written)
      → Loops fuel next
      → (tab : List ℕ) (d : ℕ) (text : List ℕ) (rt : Runtime E)
      → let base = get_or (radix_base_table w) (radix - 2) 0 in
        let p = get_or (digits_per_limb_table w) (radix - 2) 0 in
        AreLimbs (limb_mod w) tab
        → base ≤ value (limb_mod w) tab
        → value (limb_mod w) tab < 2 ^ suc fuel
        → value (limb_mod w) tab < radix ^ d
        → let out = mp_div1 (limb_mod w) base 0 tab in
          Ends
            (Halted js ctx w radix out.0 rt)
            (value (limb_mod w) tab)
            text
            (next out.0 (limb_to_a (some (d + s, text)) out.1 radix p) rt).0
  next_turn fuel next loops tab d text rt limbs large bits small =
      let base : ℕ = get_or (radix_base_table w) (radix - 2) 0 in
      let p : ℕ = get_or (digits_per_limb_table w) (radix - 2) 0 in
      let table = radix_base radix two few w other in
      let n : ℕ = value (limb_mod w) tab in
      let out = mp_div1 (limb_mod w) base 0 tab in
      let div = mp_div1_lem (limb_mod w) base (omega (arith, table.1)) tab limbs in
      let q : ℕ = value (limb_mod w) out.0 in
      let positive : 0 < q = quotient_positive q base out.1 n div.0 div.1 large in
      let half : q < 2 ^ fuel = quotient_half q base out.1 n fuel div.0 table.1 bits in
      let divided : q * radix ^ p + out.1 ≡ n = ap (λ k. q * k + out.1) (sym table.0) ∙ div.0 in
      let fewer = fewer_digits radix n q out.1 p d two divided positive small in
      let room : d + s ≡ (d - p) + s + p = omega (arith, fewer.0) in
      let digits = limb_to_a_lem radix two few p (d - p + s) out.1 text (rw (sym table.0) div.1) in
      rw (room, digits.1)
        (Ends-behind (Halted js ctx w radix out.0 rt) n q out.1 p text digits.0 _ divided digits.2
          (loops out.0 (d - p) digits.0 rt div.2 positive half fewer.1))

  divided-Ends :
      (fuel : ℕ) (next : List ℕ → Buffer → Cmd E Written)
      → Loops fuel next
      → (tab : List ℕ) (d : ℕ) (text : List ℕ) (rt : Runtime E) → AreLimbs (limb_mod w) tab
      → (length tab ≤ 1) ⊎ (limb_mod w ≤ value (limb_mod w) tab)
      → 0 < value (limb_mod w) tab
      → value (limb_mod w) tab < 2 ^ suc fuel
      → value (limb_mod w) tab < radix ^ d
      → Ends
          (Halted js ctx w radix
            (mp_div1 (limb_mod w) (get_or (radix_base_table w) (radix - 2) 0) 0 tab).0
            rt)
          (value (limb_mod w) tab)
          text
          (divided js ctx w radix next tab (some (d + s, text)) rt).0
  unfolding divided last_digits
  divided-Ends fuel next loops tab d text rt limbs short positive bits small =
      let base : ℕ = get_or (radix_base_table w) (radix - 2) 0 in
      elim (Bool-cases ((length tab == 1) && ltb (get_or tab 0 0) base)) [
        | inl last ↦
            let only = only_limb (limb_mod w) base tab last in
            let nonzero : (get_or tab 0 0 == 0) ≡ false = ground arith in
            let fits : get_or tab 0 0 < 2 ^ suc (limb_bits w) = omega (
              arith,
              only.1,
              (radix_base radix two few w other).2,
              limb_mod_lem w,
              pow-suc 2 (limb_bits w),
            ) in
            rw (last, nonzero, only.0)
              (inr (
                _,
                refl,
                u64toa_lem radix s two few (limb_bits w) (get_or tab 0 0) d text
                    (omega (arith, only.0)) fits (omega (arith, only.0)),
              ))
        | inr more ↦
            let large =
              not_last (limb_mod w) base tab (radix_base radix two few w other).2 positive short
                more in
            rw more (next_turn fuel next loops tab d text rt limbs large bits small)
      ]

  Ends-later :
      (tab text : List ℕ) (rt : Runtime E) (r : Written)
      → (poll js ctx (count_down js ctx (length tab / 16) rt).1).0 ≡ false
      → Ends
          (Halted js ctx w radix
            (mp_div1 (limb_mod w) (get_or (radix_base_table w) (radix - 2) 0) 0 (trimmed tab)).0
            (poll js ctx (count_down js ctx (length tab / 16) rt).1).1)
          (value (limb_mod w) tab)
          text
          r
      → Ends (Halted js ctx w radix tab rt) (value (limb_mod w) tab) text r
  Ends-later tab text rt r early (inl (e, halted)) = inl (e, later early halted)
  Ends-later tab text rt r early (inr written) = inr written

  -- The loop writes the digits of a number that is not 0, unless it is interrupted: a turn for each
  -- of the number's bits is enough.
  pub write_limbs-Ends : (fuel : ℕ) → Loops fuel (write_limbs js ctx w radix fuel)
  unfolding write_limbs polled
  write_limbs-Ends zero tab d text rt limbs positive bits small = absurd (omega arith)
  write_limbs-Ends (suc fuel) tab d text rt limbs positive bits small =
      let rt' : Runtime E = (count_down js ctx (length tab / 16) rt).1 in
      let cut = trimmed_lem (limb_mod w) tab limbs (limb_mod_positive w) in
      elim (Bool-cases (poll js ctx rt').0) [
        | inl late ↦ rw late (inl (refl, at_once late))
        | inr early ↦ rw early (
            Ends-later tab text rt _ early (
              rw (sym cut.0) (
                divided-Ends fuel (write_limbs js ctx w radix fuel) (write_limbs-Ends fuel)
                  (trimmed tab) d text _ cut.1 cut.2 (rw cut.0 positive) (rw cut.0 bits)
                  (rw cut.0 small))))
      ]
