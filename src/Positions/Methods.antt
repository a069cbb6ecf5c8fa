-- ===== src/Positions/Methods.antt =====
-- What indexOf, lastIndexOf, includes, startsWith and endsWith give, from the position on that their
-- argument is converted to.
use quickjs_bun.Prelude.{ℕ, ◌-◌, ◌≤◌, refl, true, false, Option, none, some, ℤ, pos, negsuc, arith}
use quickjs_bun.Runtime.{Runtime, Cmd}
use quickjs_bun.Runtime.Values.{Value}
use quickjs_bun.Engine.{Engine}
use quickjs_bun.Search.{Text, len_of, Answer}
use quickjs_bun.Search.First.{Right}
use quickjs_bun.Positions.{
  Double, nan, not_above_zero, above_zero, infinite, Conversions, clamped, last_start, Magic,
  includes, starts_with, ends_with, search_up, search_down, search_magic, to_int32_clamp,
  to_last_start, from_start, index_in, given_position, preset, includes_in,
}
use quickjs_bun.Positions.Located.{
  RightLast, RightMagic, Started, search_up-Right, search_down-RightLast, search_magic-Right,
}

clamped_le : (max : ℕ) (n : ℤ) → clamped max n ≤ max
unfolding clamped
clamped_le max (negsuc n) = omega arith
clamped_le max (pos n) = ground arith

last_start_le : (last : ℕ) (d : Double) → last_start last d ≤ last
unfolding last_start
last_start_le last nan = omega arith
last_start_le last not_above_zero = omega arith
last_start_le last (above_zero n) = ground arith
last_start_le last infinite = omega arith

-- A start, if there is one, is at most `m`.
abbrev AtMost : ℕ → Option ℕ → Type 0
AtMost m none = Unit {0}
AtMost m (some n) = n ≤ m

module _ {E : Type 0} (P : ℕ → Answer → Type 0) (look : ℕ → Cmd E Answer) where
  from_start-Started :
      (m : ℕ) (start : Option ℕ) (rt : Runtime E)
      → AtMost m start
      → ((n : ℕ) → n ≤ m → P n (look n rt).0)
      → Started P start (from_start look start rt).0
  unfolding from_start
  from_start-Started m none rt le right = refl
  from_start-Started m (some n) rt le right = right n le

module _ {E : Type 0} (js : Engine E) (ctx : ℕ) (conv : Conversions E) where
  clamp_AtMost :
      (max : ℕ) (n : Option ℤ) → AtMost max (elim n [ none ↦ none | some i ↦ some (clamped max i) ])
  clamp_AtMost max none = tt
  clamp_AtMost max (some i) = clamped_le max i

  to_int32_clamp-AtMost :
      (position : Option Value) (max set : ℕ) (rt : Runtime E)
      → set ≤ max
      → AtMost max (to_int32_clamp js ctx conv position max set rt).0
  unfolding to_int32_clamp
  to_int32_clamp-AtMost none max set rt le = le
  to_int32_clamp-AtMost (some v) max set rt le = clamp_AtMost max (conv.to_int32_sat v rt).0

  last_AtMost :
      (last : ℕ) (d : Option Double)
      → AtMost last (elim d [ none ↦ none | some x ↦ some (last_start last x) ])
  last_AtMost last none = tt
  last_AtMost last (some x) = last_start_le last x

  to_last_start-AtMost :
      (position : Option Value) (last : ℕ) (rt : Runtime E)
      → AtMost last (to_last_start js ctx conv position last rt).0
  unfolding to_last_start
  to_last_start-AtMost none last rt = omega arith
  to_last_start-AtMost (some v) last rt = last_AtMost last (conv.to_float64 v rt).0

  preset_le : (magic : Magic) (len : ℕ) → preset magic len ≤ len
  unfolding preset
  preset_le includes len = omega arith
  preset_le starts_with len = omega arith
  preset_le ends_with len = omega arith

  index_in-Right :
      (position : Option Value) (p p1 : Text) (rt : Runtime E)
      → Started
          (Right p p1)
          (to_int32_clamp js ctx conv position (len_of p) 0 rt).0
          (index_in js ctx conv false position p p1 rt).0
  unfolding index_in
  index_in-Right position p p1 rt =
      let start = to_int32_clamp js ctx conv position (len_of p) 0 rt in
      from_start-Started (Right p p1) (search_up js ctx p p1) (len_of p) start.0 start.1
        (to_int32_clamp-AtMost position (len_of p) 0 rt (omega arith))
        (λ n le. search_up-Right js ctx p p1 n start.1)

  index_in-RightLast :
      (position : Option Value) (p p1 : Text) (rt : Runtime E)
      → Started
          (RightLast p p1)
          (to_last_start js ctx conv position (len_of p - len_of p1) rt).0
          (index_in js ctx conv true position p p1 rt).0
  unfolding index_in
  index_in-RightLast position p p1 rt =
      let start = to_last_start js ctx conv position (len_of p - len_of p1) rt in
      from_start-Started (RightLast p p1) (search_down js ctx p p1) (len_of p - len_of p1) start.0
        start.1 (to_last_start-AtMost position (len_of p - len_of p1) rt)
        (λ n le. search_down-RightLast js ctx p p1 n start.1 le)

  -- From the start that the position is converted to, and unless an interrupt or a conversion ends
  -- them with an exception: indexOf gives the first place at or behind the start where the string
  -- stands, lastIndexOf the last one at or before it, includes whether there is one at or behind it,
  -- startsWith whether there is one at it, and endsWith whether there is one that ends at it.
  pub methods-Started :
      (position : Option Value) (p p1 : Text) (rt : Runtime E)
      → Started
          (Right p p1)
          (to_int32_clamp js ctx conv position (len_of p) 0 rt).0
          (index_in js ctx conv false position p p1 rt).0
        × Started
            (RightLast p p1)
            (to_last_start js ctx conv position (len_of p - len_of p1) rt).0
            (index_in js ctx conv true position p p1 rt).0
        × ((magic : Magic)
            → Started
                (RightMagic magic p p1)
                (to_int32_clamp js ctx conv
                  (given_position position)
                  (len_of p)
                  (preset magic (len_of p))
                  rt).0
                (includes_in js ctx conv magic position p p1 rt).0)
  unfolding includes_in
  methods-Started position p p1 rt = (
    index_in-Right position p p1 rt,
    index_in-RightLast position p p1 rt,
    λ magic.
        let start =
          to_int32_clamp js ctx conv (given_position position) (len_of p) (preset magic (len_of p))
            rt in
        from_start-Started (RightMagic magic p p1) (search_magic js ctx p p1 magic) (len_of p)
          start.0 start.1
          (to_int32_clamp-AtMost (given_position position) (len_of p) (preset magic (len_of p)) rt
            (preset_le magic (len_of p)))
          (λ n le. search_magic-Right js ctx p p1 magic n start.1 le),
  )
