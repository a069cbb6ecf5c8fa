-- ===== src/ClassTable/Room.antt =====
-- The table of classes when JS_NewClass makes room in it, whether there is memory or not.
use quickjs_bun.Prelude.{
  ℕ, suc, ◌-◌, ◌^◌, ◌≤◌, ◌<◌, ◌≡◌, ◌≢◌, refl, Bool, true, false, Bool-cases, inl, inr, List, [],
  ◌∷◌, leb, get_or, take, replicate, length, length-append, length-replicate, All, arith,
}
use quickjs_bun.Runtime.Values.{Value}
use quickjs_bun.ClassTable.{
  JsClass, free_entry, ClassTable, js_null, max_int, new_size, resized, grow_protos, grow_array,
  grow_classes, grow, make_room,
}
use quickjs_bun.ClassTable.Entries.{get_or-append, length-take}

-- The class array is as long as its count, each context has a prototype for each class, and the count
-- is small enough for the arithmetic on an int.
pub record IsValid (t : ClassTable) : Type 0 where
  pub sized : length t.class_array ≡ t.class_count
  pub covered : All (λ tab. t.class_count ≤ length tab) t.class_protos
  pub bounded : t.class_count ≤ 98302

-- The entry of a class, a free one if there is none.
unfoldable pub lookup : ClassTable → ℕ → JsClass
lookup t j = get_or t.class_array j free_entry

pub true_not_false : true ≢ false
true_not_false e = ground arith

length-resized :
    (count size : ℕ) (tab : List Value)
    → count ≤ length tab
    → count ≤ size
    → length (resized count size tab) ≡ size
unfolding resized
length-resized count size tab h le = omega (
  arith,
  length-append (take count tab) (replicate (size - count) js_null),
  length-take count tab h,
  length-replicate (size - count) js_null,
)

grow_protos-All :
    (has_memory : ℕ → Bool) (k count size : ℕ) (tabs : List (List Value))
    → count ≤ size
    → All (λ tab. count ≤ length tab) tabs
    → All (λ tab. count ≤ length tab) (grow_protos has_memory k count size tabs).1
      × ((grow_protos has_memory k count size tabs).0 ≡ true
          → All (λ tab. size ≤ length tab) (grow_protos has_memory k count size tabs).1)
unfolding grow_protos
grow_protos-All has_memory k count size [] le all = (tt, λ e. tt)
grow_protos-All has_memory k count size (tab ∷ tabs) le (h, all) =
    let rest = grow_protos-All has_memory (suc k) count size tabs le all in
    let long = length-resized count size tab h le in
    elim (Bool-cases (has_memory k)) [
      | inl enough ↦
          rw enough (((omega (arith, long), rest.0), λ e. (omega (arith, long), rest.1 e)))
      | inr short ↦ rw short (((h, all), λ e. ground (arith, e)))
    ]

grow_protos-fails :
    (has_memory : ℕ → Bool) (k count size : ℕ) (tabs : List (List Value))
    → (grow_protos has_memory k count size tabs).0 ≡ false
    → (i : ℕ) × (has_memory i ≡ false)
unfolding grow_protos
grow_protos-fails has_memory k count size [] e = absurd (true_not_false e)
grow_protos-fails has_memory k count size (tab ∷ tabs) e = elim (Bool-cases (has_memory k)) [
  | inl enough ↦ grow_protos-fails has_memory (suc k) count size tabs (ground (arith, e, enough))
  | inr short ↦ (k, short)
]

-- The table with room for a class, if there was memory, and the same classes.
pub record HasRoom (has_memory : ℕ → Bool) (t : ClassTable) (class_id : ℕ) (r : Bool × ClassTable)
    : Type 0 where
  pub valid : IsValid r.1
  pub keeps : (j : ℕ) → lookup r.1 j ≡ lookup t j
  pub fits : r.0 ≡ true → class_id < r.1.class_count
  pub fails : r.0 ≡ false → (k : ℕ) × (has_memory k ≡ false)

module _ (has_memory : ℕ → Bool) (class_id size : ℕ) (t : ClassTable) (valid : IsValid t) where
  short_of_memory :
      (tabs : List (List Value))
      → All (λ tab. t.class_count ≤ length tab) tabs
      → (k : ℕ) × (has_memory k ≡ false)
      → HasRoom has_memory t class_id (false, record t { class_protos = tabs })
  unfolding lookup
  short_of_memory tabs all reason = record {
    valid = record { sized = valid.sized; covered = all; bounded = valid.bounded };
    keeps = λ j. refl;
    fits = λ e. ground (arith, e);
    fails = λ e. reason;
  }

  grow_array-HasRoom :
      (enough : Bool) (tabs : List (List Value))
      → (enough ≡ false → (k : ℕ) × (has_memory k ≡ false))
      → t.class_count ≤ size
      → size ≤ 98302
      → class_id < size
      → All (λ tab. t.class_count ≤ length tab) tabs
      → All (λ tab. size ≤ length tab) tabs
      → HasRoom has_memory t class_id (grow_array enough size (record t { class_protos = tabs }))
  unfolding grow_array lookup
  grow_array-HasRoom false tabs why le small lt all long = short_of_memory tabs all (why refl)
  grow_array-HasRoom true tabs why le small lt all long = record {
    valid = record {
      sized = omega (
        arith,
        valid.sized,
        length-append t.class_array (replicate (size - t.class_count) free_entry),
        length-replicate (size - t.class_count) free_entry,
      );
      covered = long;
      bounded = small;
    };
    keeps = λ j. get_or-append free_entry t.class_array (size - t.class_count) j;
    fits = λ e. lt;
    fails = λ e. absurd (true_not_false e);
  }

  grow_classes-HasRoom :
      (protos : Bool × List (List Value))
      → (protos.0 ≡ false → (k : ℕ) × (has_memory k ≡ false))
      → t.class_count ≤ size
      → size ≤ 98302
      → class_id < size
      → All (λ tab. t.class_count ≤ length tab) protos.1
      → (protos.0 ≡ true → All (λ tab. size ≤ length tab) protos.1)
      → HasRoom has_memory t class_id
          (grow_classes has_memory size protos.0 (record t { class_protos = protos.1 }))
  unfolding grow_classes
  grow_classes-HasRoom (false, tabs) why le small lt all long = short_of_memory tabs all (why refl)
  grow_classes-HasRoom (true, tabs) why le small lt all long =
      grow_array-HasRoom (has_memory 0) tabs (λ e. (0, e)) le small lt all (long refl)

new_size_lem :
    (class_id count : ℕ)
    → class_id < 2 ^ 16
    → count ≤ class_id
    → (count ≤ new_size class_id count)
      × (new_size class_id count ≤ 98302)
      × (class_id < new_size class_id count)
unfolding new_size max_int
new_size_lem class_id count small le = ground arith

pub make_room-HasRoom :
    (has_memory : ℕ → Bool) (class_id : ℕ) (t : ClassTable)
    → IsValid t
    → class_id < 2 ^ 16
    → HasRoom has_memory t class_id (make_room has_memory class_id t)
unfolding make_room grow lookup
make_room-HasRoom has_memory class_id t valid small =
    elim (Bool-cases (leb t.class_count class_id)) [
      | inl beyond ↦
          let (le, fits, lt) = new_size_lem class_id t.class_count small (ground (arith, beyond)) in
          let (all, long) =
            grow_protos-All has_memory 1 t.class_count (new_size class_id t.class_count)
              t.class_protos le valid.covered in
          rw beyond (
            grow_classes-HasRoom has_memory class_id (new_size class_id t.class_count) t valid _
              (grow_protos-fails has_memory 1 t.class_count (new_size class_id t.class_count)
                t.class_protos)
              le fits lt all long)
      | inr within ↦ rw within (record {
        valid = valid;
        keeps = λ j. refl;
        fits = λ e. ground (arith, within);
        fails = λ e. absurd (true_not_false e);
      })
    ]
