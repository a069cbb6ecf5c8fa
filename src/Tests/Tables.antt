-- ===== src/Tests/Tables.antt =====
-- The theorems on the finalizers and the keys at small tables.
use quickjs_bun.Prelude.{
  ℕ, ◌≡◌, refl, ◌≢◌, ◌⊎◌, none, some, List, [], ◌∷◌, map, arith, ℤ, pos, negsuc, length,
  if◌then◌else◌, ◌++◌, drop, ◌==◌,
}
use quickjs_bun.Runtime.{State, bridge}
use quickjs_bun.Classes.{calls, new_class, class_finalize}
use quickjs_bun.Classes.Table.{Sized, new_class-finalize}
use quickjs_bun.Keys.{minus, own_keys, keys_from, to_cstring_copy}
use quickjs_bun.Keys.Layout.{layout, keys-own_keys, to_cstring_copy_lem}
use quickjs_bun.Keys.Bounds.{demand, own_keys_inside, own_keys_too_small}
use quickjs_bun.Tests.Sample.{js, js-IsQuiet, state, runtime}

abbrev keys : List (List ℕ)
keys = (104 ∷ 105 ∷ []) ∷ [] ∷ (106 ∷ []) ∷ []

abbrev buffer : List ℕ
buffer = 1 ∷ 2 ∷ 3 ∷ 4 ∷ 5 ∷ 6 ∷ 7 ∷ 8 ∷ 9 ∷ 10 ∷ 11 ∷ 12 ∷ 13 ∷ 14 ∷ 15 ∷ 16 ∷ []

abbrev short : List ℕ
short = 1 ∷ 2 ∷ 3 ∷ 4 ∷ 5 ∷ 6 ∷ 7 ∷ []

keys-own_keys_example :
    (buf' : List ℕ) × (own_keys (some (map some keys)) 16 buffer ≡ some (pos 3, buf'))
    × (keys_from 3 0 buf' ≡ some keys)
unfolding layout
keys-own_keys_example = keys-own_keys keys 16 buffer refl (omega arith) (omega arith) (omega arith)

own_keys_inside_example :
    (r : ℤ × List ℕ) × (own_keys (some (some (104 ∷ 105 ∷ []) ∷ none ∷ [])) 7 short ≡ some r)
    × (length r.1 ≡ 7)
unfolding demand
own_keys_inside_example =
    own_keys_inside (some (104 ∷ 105 ∷ []) ∷ none ∷ []) 7 short refl (omega arith)

own_keys_too_small_example :
    (buf' : List ℕ) × (own_keys (some (map some keys)) 7 short
      ≡ some (minus (length (layout keys)), buf'))
    × (minus (length (layout keys)) ≢ negsuc 0)
unfolding layout
own_keys_too_small_example = own_keys_too_small keys 7 short refl (omega arith) (omega arith)

to_cstring_copy_lem_example :
    to_cstring_copy (some (104 ∷ 105 ∷ [])) 7 short ≡ some (pos 2, (104 ∷ 105 ∷ []) ++ drop 2 short)
to_cstring_copy_lem_example = to_cstring_copy_lem (104 ∷ 105 ∷ []) 7 short refl

new_class-finalize_example :
    let result = new_class js 70 "Handle" (some 3) runtime in
    (s' : State) × (result.1.handler ≡ bridge s')
    × Sized s'
    × (((d : ℕ)
          → class_finalize d result.1 ≡ (if 70 == d then calls 3 else class_finalize d runtime))
        ⊎ ((result.0 ≡ negsuc 0) × (s' ≡ state)))
new_class-finalize_example =
    new_class-finalize js js-IsQuiet 70 3 "Handle" runtime state refl refl (omega arith)
