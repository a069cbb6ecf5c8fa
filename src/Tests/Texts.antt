-- ===== src/Tests/Texts.antt =====
-- The theorems on the loops that poll.
use quickjs_bun.Prelude.{
  ◌≡◌, ℕ, zero, suc, refl, false, Bool, true, some, pos, negsuc, List, [], ◌∷◌, arith,
}
use quickjs_bun.Search.{poll_for, Text, string_indexof}
use quickjs_bun.Search.First.{IsText, Right, string_indexof-Right}
use quickjs_bun.Interrupt.{poll, write_counter, counter, set_counter}
use quickjs_bun.Proxy.{check_duplicates}
use quickjs_bun.Proxy.Names.{Target, check_keys}
use quickjs_bun.Proxy.Complete.{Accepted, check_keys-Accepted}
use quickjs_bun.Dumps.{PrintOptions, options_of, print}
use quickjs_bun.Dumps.Whole.{IsWhole, concat, print-IsWhole}
use quickjs_bun.Tests.Sample.{js, runtime}

-- "aaab" and "ab"
abbrev haystack : Text
haystack = record { is_wide_char = false; units = 97 ∷ 97 ∷ 97 ∷ 98 ∷ [] }

abbrev needle : Text
needle = record { is_wide_char = false; units = 97 ∷ 98 ∷ [] }

haystack-IsText : IsText haystack
haystack-IsText narrow zero = omega arith
haystack-IsText narrow (suc zero) = omega arith
haystack-IsText narrow (suc (suc zero)) = omega arith
haystack-IsText narrow (suc (suc (suc zero))) = omega arith
haystack-IsText narrow (suc (suc (suc (suc k)))) = omega arith

string_indexof-Right_example :
    Right haystack needle 1 (string_indexof js 7 haystack needle 1 runtime).0
string_indexof-Right_example =
    string_indexof-Right js 7 haystack needle 1 runtime haystack-IsText (omega arith)

-- Three atoms.
abbrev atoms : List ℕ
atoms = 5 ∷ 6 ∷ 7 ∷ []

-- A target that cannot be extended, with the same keys, none of them configurable.
abbrev target : Target (Unit {0})
target = record {
  is_extensible = λ rt. (pos 0, rt);
  is_revoked = λ rt. false;
  own_names = λ rt. (some atoms, rt);
  own_property = λ atom rt. ((pos 1, false), rt);
  throw_type_error = λ rt. (tt, rt);
  throw_revoked = λ rt. (tt, rt);
}

keys_pass : (check_keys target atoms js 7 runtime).0 ≡ true
unfolding check_keys check_duplicates poll_for poll write_counter counter set_counter
keys_pass = refl

check_keys-Accepted_example : Accepted target atoms (check_keys target atoms js 7 runtime).0
check_keys-Accepted_example = check_keys-Accepted target atoms js 7 runtime (omega arith)

-- The engine's defaults, and what it prints: two pieces.
abbrev defaults : PrintOptions
defaults = record {
  show_hidden = false;
  raw_dump = false;
  max_depth = 2;
  max_string_length = 1000;
  max_item_count = 100;
}

abbrev pieces : PrintOptions → List (List ℕ)
pieces options = (97 ∷ 98 ∷ []) ∷ (99 ∷ []) ∷ []

abbrev always : ℕ → Bool
always size = true

print-IsWhole_example :
    IsWhole
      (concat (pieces (options_of defaults (negsuc 0) (negsuc 0) 3 50 4294967295)))
      (print always pieces defaults (negsuc 0) (negsuc 0) 3 50 4294967295)
print-IsWhole_example =
    print-IsWhole always pieces defaults (negsuc 0) (negsuc 0) 3 50 4294967295 (omega arith)
