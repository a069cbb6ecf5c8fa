-- ===== src/Bigint.antt =====
-- quickjs/quickjs.c: `js_bigint_to_string1`, which this repository made poll for interrupts, with
-- the routines that divide the limbs and write the digits, and the tables that these read.
pub mod Limbs
pub mod Digits
pub mod Radixes
pub mod Room
pub mod Loop
pub mod Bits
pub mod Binary
pub mod Strings
pub mod Shown
pub mod Printing
use quickjs_bun.Prelude.{
  ℕ, zero, suc, ◌+◌, ◌-◌, ◌*◌, ◌/◌, ◌%◌, ◌^◌, Bool, true, false, ◌&&◌, Option, none, some, List, [],
  ◌∷◌, length, get_or, leb, ltb, ◌==◌, if◌then◌else◌,
}
use Prim.Native.Nat.{bit_and}
use quickjs_bun.Runtime.{Cmd, pure, ◌>>=◌, ◌>>◌}
use quickjs_bun.Engine.{Engine}
use quickjs_bun.Interrupt.{counter, write_counter, poll}
use quickjs_bun.BitScan.{clz, clzll}

-- JS_LIMB_BITS: 64 where the C compiler has numbers of 128 bits, 32 elsewhere, as under TinyCC
pub data Width : Type 0 where
  narrow wide : Width

unfoldable pub limb_bits : Width → ℕ
limb_bits narrow = 32
limb_bits wide = 64

-- One more than the greatest limb.
unfoldable pub limb_mod : Width → ℕ
limb_mod narrow = 4294967296
limb_mod wide = 18446744073709551616

unfoldable pub digits_per_limb_table : Width → List ℕ
digits_per_limb_table narrow =
    32 ∷ 20 ∷ 16 ∷ 13 ∷ 12 ∷ 11 ∷ 10 ∷ 10 ∷ 9 ∷ 9 ∷ 8 ∷ 8 ∷ 8 ∷ 8 ∷ 8 ∷ 7 ∷ 7 ∷ 7 ∷ 7 ∷ 7 ∷ 7 ∷ 7
    ∷ 6 ∷ 6 ∷ 6 ∷ 6 ∷ 6 ∷ 6 ∷ 6 ∷ 6 ∷ 6 ∷ 6 ∷ 6 ∷ 6 ∷ 6 ∷ []
digits_per_limb_table wide =
    64 ∷ 40 ∷ 32 ∷ 27 ∷ 24 ∷ 22 ∷ 21 ∷ 20 ∷ 19 ∷ 18 ∷ 17 ∷ 17 ∷ 16 ∷ 16 ∷ 16 ∷ 15 ∷ 15 ∷ 15 ∷ 14
    ∷ 14 ∷ 14 ∷ 14 ∷ 13 ∷ 13 ∷ 13 ∷ 13 ∷ 13 ∷ 13 ∷ 13 ∷ 12 ∷ 12 ∷ 12 ∷ 12 ∷ 12 ∷ 12 ∷ []

unfoldable pub radix_base_table : Width → List ℕ
radix_base_table narrow =
    0 ∷ 3486784401 ∷ 0 ∷ 1220703125 ∷ 2176782336 ∷ 1977326743 ∷ 1073741824 ∷ 3486784401 ∷ 1000000000
    ∷ 2357947691 ∷ 429981696 ∷ 815730721 ∷ 1475789056 ∷ 2562890625 ∷ 0 ∷ 410338673 ∷ 612220032
    ∷ 893871739 ∷ 1280000000 ∷ 1801088541 ∷ 2494357888 ∷ 3404825447 ∷ 191102976 ∷ 244140625
    ∷ 308915776 ∷ 387420489 ∷ 481890304 ∷ 594823321 ∷ 729000000 ∷ 887503681 ∷ 1073741824
    ∷ 1291467969 ∷ 1544804416 ∷ 1838265625 ∷ 2176782336 ∷ []
radix_base_table wide =
    0 ∷ 12157665459056928801 ∷ 0 ∷ 7450580596923828125 ∷ 4738381338321616896 ∷ 3909821048582988049
    ∷ 9223372036854775808 ∷ 12157665459056928801 ∷ 10000000000000000000 ∷ 5559917313492231481
    ∷ 2218611106740436992 ∷ 8650415919381337933 ∷ 2177953337809371136 ∷ 6568408355712890625 ∷ 0
    ∷ 2862423051509815793 ∷ 6746640616477458432 ∷ 15181127029874798299 ∷ 1638400000000000000
    ∷ 3243919932521508681 ∷ 6221821273427820544 ∷ 11592836324538749809 ∷ 876488338465357824
    ∷ 1490116119384765625 ∷ 2481152873203736576 ∷ 4052555153018976267 ∷ 6502111422497947648
    ∷ 10260628712958602189 ∷ 15943230000000000000 ∷ 787662783788549761 ∷ 1152921504606846976
    ∷ 1667889514952984961 ∷ 2386420683693101056 ∷ 3379220508056640625 ∷ 4738381338321616896 ∷ []

-- js_limb_safe_clz
unfoldable pub limb_safe_clz : Width → ℕ → ℕ
unfolding limb_bits clz clzll
limb_safe_clz w zero = limb_bits w
limb_safe_clz narrow (suc a) = clz (suc a)
limb_safe_clz wide (suc a) = clzll (suc a)

-- mp_div1 over limbs from the lowest on: the quotients and the remainder, begun with `r` at the top.
unfoldable pub mp_div1 : ℕ → ℕ → ℕ → List ℕ → List ℕ × ℕ
mp_div1 base b r [] = ([], r)
mp_div1 base b r (a ∷ tab) =
    let rest : List ℕ × ℕ = mp_div1 base b r tab in
    ((rest.1 * base + a) / b % base ∷ rest.0, (rest.1 * base + a) % b)

unfoldable pub zero_dropped : ℕ → List ℕ → List ℕ
zero_dropped zero [] = []
zero_dropped a tab = a ∷ tab

unfoldable pub zeros_dropped : List ℕ → List ℕ
unfolding zero_dropped
zeros_dropped [] = []
zeros_dropped (a ∷ tab) = zero_dropped a (zeros_dropped tab)

-- The leading zero limbs removed, down to one limb.
unfoldable pub trimmed : List ℕ → List ℕ
unfolding zeros_dropped
trimmed [] = []
trimmed (a ∷ tab) = a ∷ zeros_dropped tab

-- What is written backwards into a block: the bytes still free in front, and the characters so far;
-- `none` after a write in front of the block.
abbrev pub Buffer : Type 0
Buffer = Option (ℕ × List ℕ)

-- `*--q = c`
unfoldable pub write_char : ℕ → Buffer → Buffer
write_char c none = none
write_char c (some (zero, text)) = none
write_char c (some (suc n, text)) = some (n, c ∷ text)

-- `digits[d]`
unfoldable pub digit_char : ℕ → ℕ
digit_char d = if ltb d 10 then b'0' + d else b'a' + (d - 10)

-- The character for a digit, `'0' + digit` in base 10
unfoldable pub char_of : ℕ → ℕ → ℕ
unfolding digit_char
char_of base d = if base == 10 then b'0' + d else digit_char d

-- js_u64toa, for at most `left` digits more than one.
unfoldable pub u64toa : ℕ → Buffer → ℕ → ℕ → Buffer
unfolding write_char char_of
u64toa zero q n base = write_char (char_of base (n % base)) q
u64toa (suc left) q n base =
    let rest : Buffer = u64toa left (write_char (char_of base (n % base)) q) (n / base) base in
    if n / base == 0 then write_char (char_of base (n % base)) q else rest

-- limb_to_a
unfoldable pub limb_to_a : Buffer → ℕ → ℕ → ℕ → Buffer
unfolding write_char char_of
limb_to_a q n radix zero = q
limb_to_a q n radix (suc len) =
    limb_to_a (write_char (char_of radix (n % radix)) q) (n / radix) radix len

-- How the loop over the limbs ends; it has run out of turns in `unfinished`.
pub data Written : Type 0 where
  unfinished : Written
  stopped : Written
  digits_at : Buffer → Written

module _ {E : Type 0} (js : Engine E) (ctx : ℕ) where
  -- `ctx->interrupt_counter -= n`
  unfoldable pub count_down : ℕ → Cmd E (Unit {0})
  unfolding counter write_counter
  count_down n rt = write_counter ctx (counter ctx rt.context_list - n) rt

  module _ (w : Width) (radix : ℕ) where
    -- The last limb, which is less than the base
    unfoldable pub last_digits : ℕ → Buffer → Buffer
    unfolding u64toa
    last_digits v q = if v == 0 then q else u64toa (limb_bits w) q v radix

    -- The end of a turn, where the leading zeros are removed; `next` goes on with the quotient.
    unfoldable pub divided : (List ℕ → Buffer → Cmd E Written) → List ℕ → Buffer → Cmd E Written
    unfolding mp_div1 limb_to_a digits_per_limb_table radix_base_table limb_mod last_digits
    divided next tab q =
        let base : ℕ = get_or (radix_base_table w) (radix - 2) 0 in
        if (length tab == 1) && ltb (get_or tab 0 0) base
        then pure (digits_at (last_digits (get_or tab 0 0) q))
        else next (mp_div1 (limb_mod w) base 0 tab).0 (
            limb_to_a q (mp_div1 (limb_mod w) base 0 tab).1 radix
              (get_or (digits_per_limb_table w) (radix - 2) 0))

    unfoldable pub polled :
        (List ℕ → Buffer → Cmd E Written) → List ℕ → Buffer → Bool → Cmd E Written
    unfolding divided trimmed
    polled next tab q true = pure stopped
    polled next tab q false = divided next (trimmed tab) q

    -- The loop for a radix that is no power of two, for at most `fuel` turns.
    unfoldable pub write_limbs : ℕ → List ℕ → Buffer → Cmd E Written
    unfolding count_down poll polled
    write_limbs zero tab q = pure unfinished
    write_limbs (suc fuel) tab q =
        count_down (length tab / 16) >> poll js ctx >>= polled (write_limbs fuel) tab q

-- The digit at `bit_pos` for a radix that is a power of two: `|` joins two parts of a limb that have
-- no bit in common, so it is a sum. The mask leaves nothing of the bits that `unsigned int` cuts off.
unfoldable pub digit_at : Width → ℕ → List ℕ → ℕ → ℕ
digit_at w log2_radix tab bit_pos =
    let pos : ℕ = bit_pos / limb_bits w in
    let shift : ℕ = bit_pos % limb_bits w in
    let low : ℕ = get_or tab pos 0 / 2 ^ shift in
    let high : ℕ = get_or tab (suc pos) 0 * 2 ^ (limb_bits w - shift) % limb_mod w in
    (if ltb (limb_bits w) (shift + log2_radix) && ltb (suc pos) (length tab)
      then low + high
      else low)
    % 2 ^ log2_radix

-- The loop for a power of two, with `left` digits to write from the `i`-th on
unfoldable pub write_bits : Width → ℕ → List ℕ → ℕ → ℕ → Buffer → Buffer
unfolding digit_at write_char digit_char
write_bits w log2_radix tab zero i q = q
write_bits w log2_radix tab (suc left) i q =
    write_bits w log2_radix tab left (suc i)
      (write_char (digit_char (digit_at w log2_radix tab (i * log2_radix))) q)

-- log2_radix, n_bits and n_digits
unfoldable pub log2_radix_of : ℕ → ℕ
unfolding clz
log2_radix_of radix = 31 - clz radix

unfoldable pub n_bits_of : Width → List ℕ → ℕ
unfolding limb_safe_clz limb_bits
n_bits_of w tab = length tab * limb_bits w - limb_safe_clz w (get_or tab (length tab - 1) 0)

unfoldable pub n_digits_of : Width → ℕ → List ℕ → ℕ
unfolding log2_radix_of n_bits_of
n_digits_of w radix tab = (n_bits_of w tab + log2_radix_of radix - 1) / log2_radix_of radix

-- is_binary_radix
unfoldable pub is_binary_radix : ℕ → Bool
is_binary_radix radix = bit_and radix (radix - 1) == 0
