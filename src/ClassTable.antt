-- ===== src/ClassTable.antt =====
-- quickjs/quickjs.c: the classes of a runtime, `JS_NewClassID`, `JS_IsRegisteredClass`, `JS_NewClass`,
-- which `qjs_bun_new_runtime` and `qjs_bun_new_class` of src/native/quickjs_bridge.c call.
pub mod Entries
pub mod Room
pub mod Registration
use quickjs_bun.Prelude.{
  ℕ, suc, ◌+◌, ◌-◌, ◌*◌, ◌/◌, ◌%◌, ◌^◌, Bool, true, false, not, ◌&&◌, Option, none, some, List, [],
  ◌∷◌, ◌++◌, ℤ, pos, negsuc, leb, ltb, ◌==◌, if◌then◌else◌, set, get_or, take, replicate,
}
use quickjs_bun.Runtime.Values.{Tag, Value, null, object}
use quickjs_bun.Ownership.{Ledger, atom_ref, taken, used, released}
use quickjs_bun.Wrappers.{class_init_count}

-- JSClassDef without its name. A function pointer is a number.
pub record ClassDef : Type 0 where
  pub finalizer : Option ℕ
  pub gc_mark : Option ℕ
  pub call : Option ℕ
  pub exotic : Option ℕ

-- JSClass; `class_id` 0 means a free entry.
pub record JsClass : Type 0 where
  pub class_id : ℕ
  pub class_name : ℕ
  pub def : ClassDef

-- A class that memset made.
abbrev pub free_entry : JsClass
free_entry = record {
  class_id = 0;
  class_name = 0;
  def = record { finalizer = none; gc_mark = none; call = none; exotic = none };
}

-- `class_count` and `class_array` of a JSRuntime, and `class_proto` of each of its contexts.
pub record ClassTable : Type 0 where
  pub class_count : ℕ
  pub class_array : List JsClass
  pub class_protos : List (List Value)

abbrev pub js_null : Value
js_null = record { tag = null; payload = 0 }

-- JS_NewClassID: the id, which is also written to `*pclass_id`, and the next js_class_id_alloc.
unfoldable pub new_class_id : ℕ → ℕ → ℕ × ℕ
new_class_id pclass_id class_id_alloc =
    if pclass_id == 0
    then (class_id_alloc, (class_id_alloc + 1) % 2 ^ 32)
    else (pclass_id, class_id_alloc)

-- JS_GetClassID, where `class_of` reads the object's field
unfoldable pub get_class_id : (ℕ → ℕ) → Value → ℕ
get_class_id class_of v = elim v.tag [ object ↦ class_of v.payload | _ ↦ 0 ]

-- JS_IsRegisteredClass
unfoldable pub is_registered : ClassTable → ℕ → Bool
is_registered t class_id =
    ltb class_id t.class_count && not ((get_or t.class_array class_id free_entry).class_id == 0)

unfoldable pub max_int : ℕ → ℕ → ℕ
max_int a b = if ltb b a then a else b

unfoldable pub new_size : ℕ → ℕ → ℕ
unfolding max_int
new_size class_id class_count =
    max_int class_init_count (max_int (class_id + 1) (class_count * 3 / 2))

-- A table of prototypes after js_realloc_rt and the loop that clears what is new.
unfoldable pub resized : ℕ → ℕ → List Value → List Value
resized class_count size tab = take class_count tab ++ replicate (size - class_count) js_null

-- The loop over the contexts: `has_memory k` says whether the k-th reallocation succeeds.
unfoldable pub grow_protos : (ℕ → Bool) → ℕ → ℕ → ℕ → List (List Value) → Bool × List (List Value)
unfolding resized
grow_protos has_memory k class_count size [] = (true, [])
grow_protos has_memory k class_count size (tab ∷ tabs) =
    let rest = grow_protos has_memory (suc k) class_count size tabs in
    if has_memory k then (rest.0, resized class_count size tab ∷ rest.1) else (false, tab ∷ tabs)

-- The entries after js_realloc_rt and memset of the class array, if that succeeds.
unfoldable pub grow_array : Bool → ℕ → ClassTable → Bool × ClassTable
grow_array false size t = (false, t)
grow_array true size t = (
  true,
  record t {
    class_array = t.class_array ++ replicate (size - t.class_count) free_entry;
    class_count = size;
  },
)

-- The first loop done, whether it succeeded.
unfoldable pub grow_classes : (ℕ → Bool) → ℕ → Bool → ClassTable → Bool × ClassTable
unfolding grow_array
grow_classes has_memory size false t = (false, t)
grow_classes has_memory size true t = grow_array (has_memory 0) size t

-- Both, `has_memory 0` being about the class array.
unfoldable pub grow : (ℕ → Bool) → ℕ → ClassTable → Bool × ClassTable
unfolding grow_protos grow_classes
grow has_memory size t =
    let protos = grow_protos has_memory 1 t.class_count size t.class_protos in
    grow_classes has_memory size protos.0 (record t { class_protos = protos.1 })

unfoldable pub make_room : (ℕ → Bool) → ℕ → ClassTable → Bool × ClassTable
unfolding grow new_size
make_room has_memory class_id t =
    if leb t.class_count class_id
    then grow has_memory (new_size class_id t.class_count) t
    else (true, t)

-- The write of the class, where there was room.
unfoldable pub put_class : ℕ → ClassDef → ℕ → Bool → ClassTable → Ledger → ℤ × ClassTable × Ledger
put_class class_id def name false t l = (negsuc 0, t, l)
put_class class_id def name true t l = (
  pos 0,
  record t {
    class_array =
        set t.class_array class_id (record { class_id = class_id; class_name = name; def = def });
  },
  taken (some (atom_ref name)) (used (some (atom_ref name)) l),
)

-- JS_NewClass1
unfoldable pub new_class1 :
    (ℕ → Bool) → ClassTable → ℕ → ClassDef → ℕ → Ledger → ℤ × ClassTable × Ledger
unfolding make_room put_class is_registered
new_class1 has_memory t class_id def name l =
    if leb (2 ^ 16) class_id
    then (negsuc 0, t, l)
    else if is_registered t class_id
    then (negsuc 0, t, l)
    else (let made = make_room has_memory class_id t in put_class class_id def name made.0 made.1 l)

-- The name's reference is given back.
unfoldable pub with_name :
    (ℕ → Bool) → ClassTable → ℕ → ClassDef → Option ℕ → Ledger → ℤ × ClassTable × Ledger
unfolding new_class1
with_name has_memory t class_id def none l = (negsuc 0, t, l)
with_name has_memory t class_id def (some name) l =
    let done = new_class1 has_memory t class_id def name (taken (some (atom_ref name)) l) in
    (done.0, done.1, released (some (atom_ref name)) done.2)

-- JS_NewClass: the atom that __JS_FindAtom finds, or that __JS_NewAtomInit makes.
unfoldable pub new_class :
    (ℕ → Bool) → ClassTable → ℕ → ClassDef → Option ℕ → Option ℕ → Ledger → ℤ × ClassTable × Ledger
unfolding with_name
new_class has_memory t class_id def (some found) made l =
    with_name has_memory t class_id def (some found) l
new_class has_memory t class_id def none made l = with_name has_memory t class_id def made l
