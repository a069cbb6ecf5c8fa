-- ===== src/Positions.antt =====
-- quickjs/quickjs.c: `js_string_indexOf`, for indexOf and lastIndexOf, and `js_string_includes`, for
-- includes, startsWith and endsWith, which this repository made poll for interrupts.
pub mod Strings
pub mod Located
pub mod Methods
pub mod Balance
use quickjs_bun.Prelude.{
  ℕ, zero, suc, ◌+◌, ◌-◌, Bool, true, false, Option, none, some, ℤ, pos, negsuc, is_negative, leb,
  ltb, if◌then◌else◌,
}
use quickjs_bun.Runtime.{Cmd, pure, ◌>>=◌, ◌>>◌}
use quickjs_bun.Runtime.Values.{Value, undefined}
use quickjs_bun.Engine.{Engine}
use quickjs_bun.Search.{Text, len_of, same_units, Answer, at, absent, interrupted, poll_for}

-- A double as lastIndexOf looks at it: NaN, one at or below 0, one above 0 with its integral part.
pub data Double : Type 0 where
  nan : Double
  not_above_zero : Double
  above_zero : ℕ → Double
  infinite : Double

-- The engine's conversions. `text` is what a string holds; `is_regexp` is js_is_regexp.
pub record Conversions (E : Type 0) : Type 0 where
  pub to_string_check_object : Value → Cmd E Value
  pub to_string : Value → Cmd E Value
  pub to_float64 : Value → Cmd E (Option Double)
  pub to_int32_sat : Value → Cmd E (Option ℤ)
  pub is_regexp : Value → Cmd E ℤ
  pub throw_type_error : Cmd E (Unit {0})
  pub text : Value → Text

-- The adjustment in JS_ToInt32Clamp, for a minimum and an offset of 0.
unfoldable pub clamped : ℕ → ℤ → ℕ
clamped max (negsuc n) = 0
clamped max (pos n) = if ltb max n then max else n

-- Where lastIndexOf begins: `last` is the length less that of the string searched for, a negative
-- one being 0, since nothing is searched then.
unfoldable pub last_start : ℕ → Double → ℕ
last_start last nan = last
last_start last not_above_zero = 0
last_start last (above_zero n) = if ltb n last then n else last
last_start last infinite = last

-- includes, startsWith and endsWith: `magic` 0, 1 and 2
pub data Magic : Type 0 where
  includes starts_with ends_with : Magic

-- The position of js_string_includes, where undefined is as if it were not given.
unfoldable pub given_position : Option Value → Option Value
given_position none = none
given_position (some v) = elim v.tag [ undefined ↦ none | _ ↦ some v ]

unfoldable pub preset : Magic → ℕ → ℕ
preset ends_with len = len
preset _ len = 0

module _ {E : Type 0} where
  -- The search where the position was converted; a failure is `interrupted` here, too.
  unfoldable pub from_start : (ℕ → Cmd E Answer) → Option ℕ → Cmd E Answer
  from_start search none = pure interrupted
  from_start search (some start) = search start

module _ {E : Type 0} (js : Engine E) (ctx : ℕ) where
  module _ (p p1 : Text) where
    -- The end of a turn at `i`, where the poll and the comparison are made; `next` goes on.
    unfoldable pub compared : ℕ → Cmd E Answer → Bool → Cmd E Answer
    compared i next true = pure interrupted
    compared i next false = if same_units p p1 i 0 (len_of p1) then pure (at i) else next

    -- The loop with `inc` 1, where `left` places are left behind `i` up to `stop`.
    unfoldable pub scan_up : ℕ → ℕ → Cmd E Answer
    unfolding compared
    scan_up zero i = poll_for js ctx (len_of p1) >>= compared i (pure absent)
    scan_up (suc left) i = poll_for js ctx (len_of p1) >>= compared i (scan_up left (suc i))

    -- The loop with `inc` -1, down to 0.
    unfoldable pub scan_down : ℕ → Cmd E Answer
    unfolding compared
    scan_down zero = poll_for js ctx (len_of p1) >>= compared 0 (pure absent)
    scan_down (suc i) = poll_for js ctx (len_of p1) >>= compared (suc i) (scan_down i)

    -- The search from `start` up to the last place where the string fits.
    unfoldable pub search_up : ℕ → Cmd E Answer
    unfolding scan_up
    search_up start =
        if leb (start + len_of p1) (len_of p)
        then scan_up ((len_of p - len_of p1) - start) start
        else pure absent

    unfoldable pub search_down : ℕ → Cmd E Answer
    unfolding scan_down
    search_down start = if leb (len_of p1) (len_of p) then scan_down start else pure absent

    -- The search of js_string_includes from `start`, the lengths' difference moved to the other side.
    unfoldable pub search_magic : Magic → ℕ → Cmd E Answer
    unfolding search_up scan_up
    search_magic includes start = search_up start
    search_magic starts_with start =
        if ltb (len_of p) (start + len_of p1) then pure absent else scan_up 0 start
    search_magic ends_with start =
        if leb (len_of p1) start then scan_up 0 (start - len_of p1) else pure absent

  module _ (conv : Conversions E) where
    -- JS_ToInt32Clamp, if there is an argument
    unfoldable pub to_int32_clamp : Option Value → ℕ → ℕ → Cmd E (Option ℕ)
    unfolding clamped
    to_int32_clamp none max preset = pure (some preset)
    to_int32_clamp (some v) max preset = do
      n ← conv.to_int32_sat v
      pure (elim n [ none ↦ none | some i ↦ some (clamped max i) ])

    unfoldable pub to_last_start : Option Value → ℕ → Cmd E (Option ℕ)
    unfolding last_start
    to_last_start none last = pure (some last)
    to_last_start (some v) last = do
      d ← conv.to_float64 v
      pure (elim d [ none ↦ none | some x ↦ some (last_start last x) ])

    -- What js_string_indexOf does with two strings.
    unfoldable pub index_in : Bool → Option Value → Text → Text → Cmd E Answer
    unfolding to_last_start to_int32_clamp from_start search_down search_up
    index_in true position p p1 =
        to_last_start position (len_of p - len_of p1) >>= from_start (search_down p p1)
    index_in false position p p1 =
        to_int32_clamp position (len_of p) 0 >>= from_start (search_up p p1)

    -- What js_string_includes does with two strings.
    unfoldable pub includes_in : Magic → Option Value → Text → Text → Cmd E Answer
    unfolding given_position preset to_int32_clamp from_start search_magic
    includes_in magic position p p1 =
        to_int32_clamp (given_position position) (len_of p) (preset magic (len_of p))
        >>= from_start (search_magic p p1 magic)
