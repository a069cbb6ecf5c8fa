-- ===== src/Bigint/Radixes.antt =====
-- The tables for the radixes from 2 to 36, looked through once.
use quickjs_bun.Prelude.{
  ℕ, zero, suc, ◌-◌, ◌^◌, ◌≤◌, ◌≡◌, refl, Bool, true, false, not, ◌&&◌, ◌||◌, get_or, leb, ◌==◌,
  ==→eq, inl, inr, Bool-cases, arith,
}
use quickjs_bun.Bigint.{
  Width, narrow, wide, limb_mod, digits_per_limb_table, radix_base_table, log2_radix_of,
  is_binary_radix,
}

-- A test on the numbers from 2 on, `n` of them.
all_from_two : (ℕ → Bool) → ℕ → Bool
all_from_two test zero = true
all_from_two test (suc n) = test (suc (suc n)) && all_from_two test n

all_from_two_lem :
    (test : ℕ → Bool) (n k : ℕ) → all_from_two test n ≡ true → 2 ≤ k → k ≤ suc n → test k ≡ true
unfolding all_from_two
all_from_two_lem test zero k h low high = absurd (omega arith)
all_from_two_lem test (suc n) k h low high = elim (Bool-cases (k == suc (suc n))) [
  | inl e ↦ rw (==→eq k (suc (suc n)) e) (ground arith)
  | inr other ↦ all_from_two_lem test n k (ground arith) low (ground arith)
]

has_log2 : ℕ → Bool
has_log2 radix = leb 1 (log2_radix_of radix) && leb (2 ^ log2_radix_of radix) radix

has_base : Width → ℕ → Bool
has_base w radix =
    is_binary_radix radix
    || ((get_or (radix_base_table w) (radix - 2) 0
          == radix ^ get_or (digits_per_limb_table w) (radix - 2) 0)
        && leb 2 (get_or (radix_base_table w) (radix - 2) 0)
        && leb (get_or (radix_base_table w) (radix - 2) 0) (limb_mod w))

is_power : ℕ → Bool
is_power radix = not (is_binary_radix radix) || (2 ^ log2_radix_of radix == radix)

all_logs : all_from_two has_log2 35 ≡ true
unfolding all_from_two has_log2 log2_radix_of
all_logs = refl

all_powers : all_from_two is_power 35 ≡ true
unfolding all_from_two is_power log2_radix_of is_binary_radix
all_powers = refl

all_bases : (w : Width) → all_from_two (has_base w) 35 ≡ true
unfolding all_from_two has_base radix_base_table digits_per_limb_table limb_mod is_binary_radix
all_bases narrow = refl
all_bases wide = refl

module _ (radix : ℕ) (two : 2 ≤ radix) (few : radix ≤ 36) where
  pub log2_radix_lem : (1 ≤ log2_radix_of radix) × (2 ^ log2_radix_of radix ≤ radix)
  unfolding has_log2
  log2_radix_lem =
      let h : has_log2 radix ≡ true = all_from_two_lem has_log2 35 radix all_logs two few in
      (ground arith, ground arith)

  -- A power of two has its logarithm.
  pub binary_radix : is_binary_radix radix ≡ true → 2 ^ log2_radix_of radix ≡ radix
  unfolding is_power
  binary_radix binary =
      let h : is_power radix ≡ true = all_from_two_lem is_power 35 radix all_powers two few in
      ground arith

  -- For other radixes the base of the table is the power that a limb's digits make.
  pub radix_base :
      (w : Width)
      → is_binary_radix radix ≡ false
      → let base = get_or (radix_base_table w) (radix - 2) 0 in
        (base ≡ radix ^ get_or (digits_per_limb_table w) (radix - 2) 0)
        × (2 ≤ base)
        × (base ≤ limb_mod w)
  unfolding has_base
  radix_base w other =
      let h : has_base w radix ≡ true =
        all_from_two_lem (has_base w) 35 radix (all_bases w) two few in
      (ground arith, ground arith, ground arith)
