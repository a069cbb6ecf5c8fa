-- ===== src/Tests/Methods.antt =====
-- The theorems on the methods of strings at two strings.
use quickjs_bun.Prelude.{◌-◌, ◌≡◌, refl, true, false, none, some, [], ◌∷◌, pos}
use quickjs_bun.Interrupt.{poll, write_counter, counter, set_counter}
use quickjs_bun.Search.{Text, len_of, same_units, at, poll_for}
use quickjs_bun.Search.First.{Right}
use quickjs_bun.Positions.{
  Conversions, Magic, ends_with, above_zero, to_int32_clamp, to_last_start, index_in,
  given_position, preset, includes_in,
}
use quickjs_bun.Positions.Located.{RightLast, RightMagic, Started}
use quickjs_bun.Positions.Methods.{methods-Started}
use quickjs_bun.Tests.Sample.{js, runtime, value}

-- "banana" and "ana"
abbrev banana : Text
banana = record { is_wide_char = false; units = 98 ∷ 97 ∷ 110 ∷ 97 ∷ 110 ∷ 97 ∷ [] }

abbrev ana : Text
ana = record { is_wide_char = false; units = 97 ∷ 110 ∷ 97 ∷ [] }

abbrev conv : Conversions (Unit {0})
conv = record {
  to_string_check_object = λ v rt. (v, rt);
  to_string = λ v rt. (v, rt);
  to_float64 = λ v rt. (some (above_zero 4), rt);
  to_int32_sat = λ v rt. (some (pos 4), rt);
  is_regexp = λ v rt. (pos 0, rt);
  throw_type_error = λ rt. (tt, rt);
  text = λ v. banana;
}

first_ana : (index_in js 7 conv false none banana ana runtime).0 ≡ at 1
unfolding index_in poll_for poll write_counter counter set_counter same_units
first_ana = refl

last_ana : (index_in js 7 conv true (some (value 3)) banana ana runtime).0 ≡ at 3
unfolding index_in poll_for poll write_counter counter set_counter same_units
last_ana = refl

ends_before : (includes_in js 7 conv ends_with (some (value 3)) banana ana runtime).0 ≡ at 1
unfolding includes_in poll_for poll write_counter counter set_counter same_units
ends_before = refl

methods-Started_example :
    Started
      (Right banana ana)
      (to_int32_clamp js 7 conv (some (value 3)) (len_of banana) 0 runtime).0
      (index_in js 7 conv false (some (value 3)) banana ana runtime).0
    × Started
        (RightLast banana ana)
        (to_last_start js 7 conv (some (value 3)) (len_of banana - len_of ana) runtime).0
        (index_in js 7 conv true (some (value 3)) banana ana runtime).0
    × ((magic : Magic)
        → Started
            (RightMagic magic banana ana)
            (to_int32_clamp js 7 conv
              (given_position (some (value 3)))
              (len_of banana)
              (preset magic (len_of banana))
              runtime).0
            (includes_in js 7 conv magic (some (value 3)) banana ana runtime).0)
methods-Started_example = methods-Started js 7 conv (some (value 3)) banana ana runtime
