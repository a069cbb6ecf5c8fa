-- ===== src/Bigint/Strings.antt =====
-- `js_bigint_to_string1` as a whole, with the blocks that it takes.
use quickjs_bun.Prelude.{
  ℕ, ◌+◌, ◌-◌, Bool, true, false, ◌&&◌, Option, none, some, List, [], ◌∷◌, length, get_or, leb,
  ◌==◌, if◌then◌else◌,
}
use quickjs_bun.Runtime.{Cmd}
use quickjs_bun.Runtime.Values.{Tag, Value, js_exception, short_big_int}
use quickjs_bun.Engine.{Engine}
use quickjs_bun.Ownership.{
  Act, Resource, block, ref, ◌>>=◌, ◌>>◌, done, lift, take, use_held, release, fault,
}
use quickjs_bun.Bigint.{
  Width, limb_mod, Buffer, write_char, Written, unfinished, stopped, digits_at, write_limbs,
  write_bits, log2_radix_of, n_bits_of, n_digits_of, is_binary_radix,
}

-- The engine's functions and the limbs of a JSBigInt. `bigint_neg` gives a block and its limbs.
pub record Bigints (E : Type 0) : Type 0 where
  pub tab : Value → List ℕ
  pub i64toa_radix : Value → ℕ → List ℕ
  pub bigint_neg : List ℕ → Cmd E (Option (ℕ × List ℕ))
  pub bigint_new : ℕ → Cmd E (Option ℕ)
  pub malloc : ℕ → Cmd E (Option ℕ)
  pub new_string8_len : List ℕ → Cmd E Value

-- js_bigint_sign
unfoldable pub bigint_sign : Width → List ℕ → Bool
unfolding limb_mod
bigint_sign w tab = leb (limb_mod w) (get_or tab (length tab - 1) 0 + get_or tab (length tab - 1) 0)

-- `*--q = '-'` for a negative number
unfoldable pub with_sign : Bool → Buffer → Buffer
unfolding write_char
with_sign true q = write_char b'-' q
with_sign false q = q

unfoldable pub sign_len : Bool → ℕ
sign_len true = 1
sign_len false = 0

abbrev pub block_of : Option ℕ → Option Resource
block_of none = none
block_of (some p) = some (block p)

module _ {E : Type 0} (js : Engine E) (ctx : ℕ) (lib : Bigints E) where
  -- A string that is made, and owned then.
  unfoldable pub made_string : List ℕ → Act E Value
  made_string text = do v ← lift (lib.new_string8_len text); take (ref v); done v

  -- `js_free(ctx, p)`, which does nothing for NULL
  abbrev pub free_block : Option ℕ → Act E (Unit {0})
  free_block p = release (block_of p)

  -- The end behind the loops, where `tmp` and `buf` are held.
  unfoldable pub handed_out : Option ℕ → ℕ → Buffer → Act E Value
  unfolding made_string
  handed_out tmp buf none = fault >> done js_exception
  handed_out tmp buf (some (spare, text)) = do
    free_block tmp
    use_held (some (block buf))
    v ← made_string text
    release (some (block buf))
    done v

  unfoldable pub ended : Option ℕ → ℕ → Bool → Written → Act E Value
  unfolding handed_out with_sign
  ended tmp buf is_neg unfinished = fault >> done js_exception
  ended tmp buf is_neg stopped = do free_block tmp; release (some (block buf)); done js_exception
  ended tmp buf is_neg (digits_at q) = handed_out tmp buf (with_sign is_neg q)

  module _ (w : Width) (radix : ℕ) where
    -- The loops, with `room` bytes in front of the NUL at the end of the block.
    unfoldable pub digits_of : List ℕ → ℕ → Cmd E Written
    unfolding write_bits write_limbs n_bits_of n_digits_of log2_radix_of is_binary_radix
    digits_of r room rt =
        if is_binary_radix radix
        then (
          digits_at
              (write_bits w (log2_radix_of radix) r (n_digits_of w radix r) 0 (some (room, []))),
          rt,
        )
        else write_limbs js ctx w radix (n_bits_of w r) r (some (room, [])) rt

    unfoldable pub into_block : Bool → Option ℕ → List ℕ → Option ℕ → Act E Value
    unfolding digits_of ended n_digits_of sign_len
    into_block is_neg tmp r none = free_block tmp >> done js_exception
    into_block is_neg tmp r (some buf) = do
      take (some (block buf))
      written ← lift (digits_of r (n_digits_of w radix r + sign_len is_neg))
      ended tmp buf is_neg written

    -- From the size of the block on, with the number's magnitude in `r`
    unfoldable pub written_out : Bool → Option ℕ → List ℕ → Act E Value
    unfolding into_block n_digits_of sign_len
    written_out is_neg tmp r =
        lift (lib.malloc (n_digits_of w radix r + sign_len is_neg + 1)) >>= into_block is_neg tmp r

    unfoldable pub negated : Option (ℕ × List ℕ) → Act E Value
    unfolding written_out
    negated none = done js_exception
    negated (some (p, r)) = take (some (block p)) >> written_out true (some p) r

    unfoldable pub copied : List ℕ → Option ℕ → Act E Value
    unfolding written_out
    copied r none = done js_exception
    copied r (some p) = take (some (block p)) >> written_out false (some p) r

    unfoldable pub of_limbs : List ℕ → Bool → Bool → Act E Value
    unfolding negated copied written_out
    of_limbs r true binary = lift (lib.bigint_neg r) >>= negated
    of_limbs r false true = written_out false none r
    of_limbs r false false = lift (lib.bigint_new (length r)) >>= copied r

    unfoldable pub big_to_string : List ℕ → Act E Value
    unfolding made_string of_limbs bigint_sign is_binary_radix
    big_to_string r =
        if (length r == 1) && (get_or r 0 0 == 0)
        then made_string (b'0' ∷ [])
        else of_limbs r (bigint_sign w r) (is_binary_radix radix)

    unfoldable pub of_tag : Tag → Value → Act E Value
    unfolding big_to_string made_string
    of_tag short_big_int val = made_string (lib.i64toa_radix val radix)
    of_tag _ val = big_to_string (lib.tab val)

    -- js_bigint_to_string1
    unfoldable pub bigint_to_string1 : Value → Act E Value
    unfolding of_tag
    bigint_to_string1 val = of_tag val.tag val
