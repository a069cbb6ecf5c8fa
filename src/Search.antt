-- ===== src/Search.antt =====
-- quickjs/quickjs.c, lines 45848 to 45899: `string_cmp`, `string_indexof_char` and `string_indexof`,
-- which this repository made poll for interrupts.
pub mod Chars
pub mod First
pub mod Polls
use quickjs_bun.Prelude.{
  ℕ, zero, suc, ◌+◌, ◌-◌, ◌/◌, Bool, true, false, Option, none, some, List, length, get_or, leb,
  ltb, ◌==◌, if◌then◌else◌,
}
use quickjs_bun.Runtime.{Cmd, pure, ◌>>=◌, ◌>>◌}
use quickjs_bun.Engine.{Engine}
use quickjs_bun.Interrupt.{counter, write_counter, poll}

-- JSString, by its code units. Those of a string that is not wide are below 256.
pub record Text : Type 0 where
  pub is_wide_char : Bool
  pub units : List ℕ

-- string_get
abbrev pub string_get : Text → ℕ → ℕ
string_get p i = get_or p.units i 0

abbrev pub len_of : Text → ℕ
len_of p = length p.units

-- string_cmp, whose callers only test it for 0: whether the units are the same.
unfoldable pub same_units : Text → Text → ℕ → ℕ → ℕ → Bool
same_units p1 p2 x1 x2 zero = true
same_units p1 p2 x1 x2 (suc n) =
    if string_get p1 x1 == string_get p2 x2 then same_units p1 p2 (suc x1) (suc x2) n else false

-- The loops of string_indexof_char over `n` places from `i` on.
unfoldable pub scan : Text → ℕ → ℕ → ℕ → Option ℕ
scan p c i zero = none
scan p c i (suc n) = if string_get p i == c then some i else scan p c (suc i) n

-- string_indexof_char, where -1 is `none`
unfoldable pub string_indexof_char : Text → ℕ → ℕ → Option ℕ
unfolding scan
string_indexof_char p c from =
    if p.is_wide_char
    then scan p c from (len_of p - from)
    else if ltb c 256
    then scan p c from (len_of p - from)
    else none

-- The results of string_indexof: a place, -1 or -2.
pub data Answer : Type 0 where
  at : ℕ → Answer
  absent : Answer
  interrupted : Answer

module _ {E : Type 0} (js : Engine E) (ctx : ℕ) where
  -- `ctx->interrupt_counter -= len2 >> 8`, and the poll
  unfoldable pub poll_for : ℕ → Cmd E Bool
  poll_for len2 rt =
      (write_counter ctx (counter ctx rt.context_list - len2 / 256) >> poll js ctx) rt

  module _ (p1 p2 : Text) where
    -- The rest of a turn, where string_indexof_char gave `j`; `again` is the loop.
    unfoldable pub compare_at : (ℕ → Cmd E Answer) → Option ℕ → Cmd E Answer
    compare_at again none = pure absent
    compare_at again (some j) =
        if ltb (len_of p1) (j + len_of p2)
        then pure absent
        else if same_units p1 p2 (suc j) 1 (len_of p2 - 1)
        then pure (at j)
        else again (suc j)

    -- After the poll.
    unfoldable pub turn : (ℕ → Cmd E Answer) → ℕ → Bool → Cmd E Answer
    unfolding compare_at
    turn again i true = pure interrupted
    turn again i false = compare_at again (string_indexof_char p1 (string_get p2 0) i)

    -- The loop from `i` on. The fuel never runs out: `i` grows by 1 at least.
    unfoldable pub search_from : ℕ → ℕ → Cmd E Answer
    unfolding turn
    search_from zero i = pure absent
    search_from (suc fuel) i =
        if leb (i + len_of p2) (len_of p1)
        then (poll_for (len_of p2) >>= λ stop. turn (search_from fuel) i stop)
        else pure absent

    -- string_indexof
    unfoldable pub string_indexof : ℕ → Cmd E Answer
    unfolding search_from
    string_indexof from =
        if len_of p2 == 0 then pure (at from) else search_from (suc (len_of p1) - from) from
