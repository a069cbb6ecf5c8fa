-- ===== src/Keys.antt =====
-- src/native/quickjs_bridge.c: `qjs_bun_own_keys` and `qjs_bun_to_cstring_copy`, which copy text into
-- a buffer of the host's; and src/value.ts, which reads the keys back from it.
pub mod Layout
pub mod Bounds
use quickjs_bun.Prelude.{
  ℕ, zero, suc, ◌+◌, ◌-◌, ◌*◌, ◌/◌, ◌%◌, ◌^◌, Bool, true, false, Option, none, some, List, [], ◌∷◌,
  ◌++◌, leb, if◌then◌else◌, and_then, length, take, drop, ℤ, pos, negsuc,
}
use mathlib.Core.Option

-- `memcpy(buf + offset, bytes, n)`; `none` is a write outside the buffer.
unfoldable pub copy_to : ℕ → List ℕ → List ℕ → Option (List ℕ)
copy_to zero [] buf = some buf
copy_to zero (b ∷ bs) [] = none
copy_to zero (b ∷ bs) (x ∷ buf) = Option.map (λ rest. b ∷ rest) (copy_to zero bs buf)
copy_to (suc n) bs [] = none
copy_to (suc n) bs (x ∷ buf) = Option.map (λ rest. x ∷ rest) (copy_to n bs buf)

-- The bytes of a `uint32_t`, least first.
abbrev pub le32 : ℕ → List ℕ
le32 n = (n % 256) ∷ (n / 256 % 256) ∷ (n / 65536 % 256) ∷ (n / 16777216 % 256) ∷ []

-- uint64_t
abbrev pub u64 : ℕ → ℕ
u64 n = n % 2 ^ 64

-- -n
abbrev pub minus : ℕ → ℤ
minus zero = pos 0
minus (suc n) = negsuc n

-- `-(int64_t)n` of a uint64_t: the conversion takes 2 ^ 64 away from 2 ^ 63 on, and the least number
-- is its own negation.
abbrev pub minus_int64 : ℕ → ℤ
minus_int64 n = if leb n (2 ^ 63) then minus n else pos (2 ^ 64 - n)

-- What the loop leaves: whether every name had its text, `used`, and the buffer.
pub record Packed : Type 0 where
  pub complete : Bool
  pub used : ℕ
  pub buf : List ℕ

-- The two copies of one key.
pub put_key : ℕ → List ℕ → List ℕ → Option (List ℕ)
put_key used text buf =
    and_then (copy_to used (le32 (length text % 2 ^ 32)) buf) (copy_to (used + 4) text)

-- `used + 4 + len`
abbrev pub end_of : ℕ → List ℕ → ℕ
end_of used text = u64 (used + 4 + length text)

-- The test whether a key still fits, and the copies.
pub place : ℕ → ℕ → List ℕ → List ℕ → Option (List ℕ)
place capacity used text buf =
    if leb (end_of used text) capacity then put_key used text buf else some buf

-- The loop over the property names. A name whose text the engine cannot make is `none`.
pub pack : ℕ → List (Option (List ℕ)) → ℕ → List ℕ → Option Packed
pack capacity [] used buf = some (record { complete = true; used = used; buf = buf })
pack capacity (none ∷ names) used buf = some (record { complete = false; used = used; buf = buf })
pack capacity (some text ∷ names) used buf =
    and_then (place capacity used text buf) (pack capacity names (end_of used text))

abbrev key_result : ℕ → ℕ → Packed → ℤ × List ℕ
key_result capacity count packed = (
  if packed.complete
      then (if leb packed.used capacity then pos count else minus_int64 packed.used)
      else negsuc 0,
  packed.buf,
)

-- qjs_bun_own_keys, given the property names. The result is the number of keys, -1 for an exception,
-- or minus the bytes that are needed.
pub own_keys : Option (List (Option (List ℕ))) → ℕ → List ℕ → Option (ℤ × List ℕ)
unfolding pack
own_keys none capacity buf = some (negsuc 0, buf)
own_keys (some names) capacity buf =
    Option.map (key_result capacity (length names)) (pack capacity names 0 buf)

-- qjs_bun_to_cstring_copy, given the text
pub to_cstring_copy : Option (List ℕ) → ℕ → List ℕ → Option (ℤ × List ℕ)
to_cstring_copy none capacity buf = some (negsuc 0, buf)
to_cstring_copy (some text) capacity buf =
    Option.map (λ buf'. (pos (length text), buf'))
      (if leb (length text) capacity then copy_to 0 text buf else some buf)

-- `scratch.readUInt32LE(offset)`, which throws outside the buffer
pub read_u32 : List ℕ → Option ℕ
read_u32 (a ∷ b ∷ c ∷ d ∷ rest) = some (a + 256 * b + 65536 * c + 16777216 * d)
read_u32 _ = none

-- The loop of `keys` in src/value.ts, up to the decoding of UTF-8.
pub keys_from : ℕ → ℕ → List ℕ → Option (List (List ℕ))
keys_from zero offset scratch = some []
keys_from (suc count) offset scratch = and_then (read_u32 (drop offset scratch)) λ n.
    Option.map (λ keys. take n (drop (offset + 4) scratch) ∷ keys)
      (keys_from count (offset + 4 + n) scratch)
