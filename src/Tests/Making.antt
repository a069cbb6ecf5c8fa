-- ===== src/Tests/Making.antt =====
-- The theorems on runtimes, classes, symbols and codes at concrete states.
use Prim.Native.String.{String}
use quickjs_bun.Prelude.{
  ℕ, ◌≤◌, ◌≡◌, refl, true, none, some, Bool, Option, [], ◌∷◌, map, replicate, arith, ℤ, pos, negsuc,
  if◌then◌else◌,
}
use quickjs_bun.Runtime.{State, Runtime}
use quickjs_bun.Ownership.{Ledger}
use quickjs_bun.ClassTable.{ClassTable, free_entry, js_null, new_class}
use quickjs_bun.ClassTable.Room.{IsValid}
use quickjs_bun.ClassTable.Registration.{Result, new_class-Result}
use quickjs_bun.Lifecycle.{Callbacks, Statics, Heap, host_class, new_runtime}
use quickjs_bun.Lifecycle.Balance.{Made, IsBalanced}
use quickjs_bun.Lifecycle.Making.{new_runtime-Made}
use quickjs_bun.Symbols.{exported, symbol, link}
use quickjs_bun.Symbols.Linking.{declared, is_in, link-declared}
use quickjs_bun.Kinds.{Intrinsic, type_of, add_intrinsic}
use quickjs_bun.Kinds.Codes.{
  read_type, described, asked, read_type-type_of, add_named, added, name_of, add_intrinsic-name_of,
}
use quickjs_bun.Wrappers.EngineCalls.{Calls}
use quickjs_bun.Tests.Sample.{js, runtime, value}

abbrev address : String → ℕ
address name = 4096

link-declared_example :
    (link address declared ≡ some (map (λ name. (name, address name)) declared))
    × ((name : String)
        → symbol address name ≡ (if is_in name exported then some (address name) else none))
link-declared_example = link-declared address

abbrev calls : Calls (Unit {0})
calls = record {
  value = λ ctx c rt. (value 30, rt);
  int = λ ctx c rt. (pos 0, rt);
  pointer = λ ctx c rt. (some 40, rt);
  unit = λ ctx c rt. (tt, rt);
  global_object = λ ctx rt. value 1;
  func_created = λ module_def rt. true;
}

read_type-type_of_example :
    read_type (type_of calls 7 (value 3) runtime).0
    ≡ described (value 3).tag (asked calls 7 (value 3) runtime)
read_type-type_of_example = read_type-type_of calls 7 (value 3) runtime

abbrev add : Intrinsic → ℕ → Runtime (Unit {0}) → ℤ × Runtime (Unit {0})
add intrinsic ctx rt = (pos 0, rt)

add_intrinsic-name_of_example :
    ((intrinsic : Intrinsic)
      → add_named js true add (name_of intrinsic) 7 runtime
        ≡ some (added js true add intrinsic 7 runtime))
    × ((n : ℕ) → 12 ≤ n → add_intrinsic js true add 7 (pos n) runtime ≡ (negsuc 0, runtime))
    × ((n : ℕ) → add_intrinsic js true add 7 (negsuc n) runtime ≡ (negsuc 0, runtime))
add_intrinsic-name_of_example = add_intrinsic-name_of js true add 7 runtime

-- The classes of the engine, and one context.
abbrev table : ClassTable
table = record {
  class_count = 63;
  class_array = replicate 63 free_entry;
  class_protos = replicate 63 js_null ∷ [];
}

table-IsValid : IsValid table
table-IsValid = record { sized = refl; covered = (omega arith, tt); bounded = omega arith }

abbrev memory : ℕ → Bool
memory k = true

abbrev nothing_held : Ledger
nothing_held x = some 0

new_class-Result_example :
    Result memory 70
      (host_class 1 2)
      (some 9)
      table
      nothing_held
      (new_class memory table 70 (host_class 1 2) none (some 9) nothing_held)
new_class-Result_example =
    new_class-Result memory table 70 (host_class 1 2) none (some 9) nothing_held table-IsValid

abbrev finalize : Callbacks → Option State → Heap → Option State × Heap
finalize c s h = (s, h)

finalize-IsBalanced : IsBalanced finalize
finalize-IsBalanced = record { balance = λ c s h m n has. has }

abbrev heap : Heap
heap = record { runtimes = some 0; blocks = some 5 }

abbrev statics : Statics
statics = record { host_class_id = 0; class_id_alloc = 63 }

new_runtime-Made_example :
    Made finalize
      (host_class 1 2)
      statics
      0
      5
      (new_runtime memory none (some 9) 1 2 true (some (runtime, table)) nothing_held statics heap)
new_runtime-Made_example =
    new_runtime-Made finalize finalize-IsBalanced memory none (some 9) 1 2 true
      (some (runtime, table)) nothing_held statics heap 0 5 table-IsValid
      (record { runtimes_lem = refl; blocks_lem = refl })
