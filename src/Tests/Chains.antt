-- ===== src/Tests/Chains.antt =====
-- The theorems on the prototype walk over a small heap.
use quickjs_bun.Prelude.{ℕ, zero, suc, ◌+◌, ◌≤◌, ◌<◌, ◌≡◌, refl, true, false, some, is_some, arith}
use quickjs_bun.Runtime.Values.{Value, object, js_undefined, null}
use quickjs_bun.Runtime.{Runtime}
use quickjs_bun.Ownership.{cell, Ledger, ref, same, is}
use quickjs_bun.Ownership.Laws.{own, weight}
use quickjs_bun.Walk.{Lookup, missing, found, Objects, walk, get_data_property}
use quickjs_bun.Walk.Balance.{get_data_property-own}
use quickjs_bun.Walk.Ending.{IsAcyclic, get_data_property-returns}
use quickjs_bun.Tests.Sample.{js, runtime, value}

abbrev parent : ℕ → Value
parent zero = record { tag = null; payload = 0 }
parent (suc n) = value n

abbrev property : ℕ → Lookup
property zero = found false (value 50) js_undefined js_undefined
property (suc n) = missing

-- Object n has object n - 1 as its prototype, and object 0 has the property, with object 50.
abbrev objects : Objects (Unit {0})
objects = record {
  get_own_property = λ ctx v atom rt. (property v.payload, rt);
  get_prototype = λ ctx v rt. (parent v.payload, rt);
  get_class_id = λ v rt. (elim v.tag [ object ↦ 1 | _ ↦ 0 ], rt);
}

-- The host holds object 2 once.
abbrev ledger : Ledger
ledger x = some (0 + own x (value 2))

abbrev depth : Value → Runtime (Unit {0}) → ℕ
depth v rt = suc v.payload

get_data_property-own_example :
    (get_data_property objects 7 5 js 3 (value 2) runtime ledger).2 (cell 50) ≡ some 1
unfolding get_data_property walk weight is ref same
get_data_property-own_example =
    get_data_property-own objects 7 5 js 3 (value 2) runtime ledger (cell 50) 0 (value 50) refl refl

nearer :
    (n : ℕ) → (objects.get_class_id (parent n) runtime).0 ≡ 1 → depth (parent n) runtime < suc n
nearer zero h = absurd (ground arith)
nearer (suc n) h = omega arith

objects-IsAcyclic : IsAcyclic objects 7 5 depth
objects-IsAcyclic v rt ordinary next = nearer v.payload next

get_data_property-returns_example :
    (n : ℕ) × ((fuel : ℕ)
      → n ≤ fuel
      → is_some (get_data_property objects 7 5 js fuel (value 2) runtime ledger).0 ≡ true)
get_data_property-returns_example =
    get_data_property-returns objects 7 5 depth objects-IsAcyclic js (value 2) runtime ledger
