-- ===== src/ClassTable/Registration.antt =====
-- What JS_NewClass does to the table of classes, whether it succeeds or not.
use quickjs_bun.Prelude.{
  ℕ, ◌+◌, ◌^◌, ◌≤◌, ◌<◌, ◌≡◌, refl, ap, ◌∙◌, Bool, true, false, Bool-cases, inl, inr, Option, none,
  some, ℤ, pos, negsuc, leb, ◌==◌, if◌then◌else◌, length-set, arith,
}
use quickjs_bun.Ownership.{Resource, Ledger, more, less, held, atom_ref, taken, used, released}
use quickjs_bun.Ownership.Laws.{weight}
use quickjs_bun.ClassTable.{
  ClassDef, JsClass, free_entry, ClassTable, is_registered, make_room, put_class, new_class1,
  with_name, new_class,
}
use quickjs_bun.ClassTable.Entries.{get_or-set}
use quickjs_bun.ClassTable.Room.{IsValid, lookup, HasRoom, make_room-HasRoom}

abbrev pub plus : Option ℕ → ℕ → Option ℕ
plus none n = none
plus (some m) n = some (m + n)

-- A JSClass of an id, a name and a definition.
abbrev pub class_of : ℕ → ℕ → ClassDef → JsClass
class_of class_id name def = record { class_id = class_id; class_name = name; def = def }

-- Why it can fail.
pub data Refusal (has_memory : ℕ → Bool) (class_id : ℕ) (name : Option ℕ) (t : ClassTable)
    : Type 0 where
  too_large : 2 ^ 16 ≤ class_id → Refusal has_memory class_id name t
  in_use : is_registered t class_id ≡ true → Refusal has_memory class_id name t
  no_name : name ≡ none → Refusal has_memory class_id name t
  no_memory : (k : ℕ) → has_memory k ≡ false → Refusal has_memory class_id name t

-- What JS_NewClass came to: the class is in the table, which had none of that id, and holds its name
-- once; or the table's classes are what they were.
pub data Outcome (has_memory : ℕ → Bool) (class_id : ℕ) (def : ClassDef) (name : Option ℕ)
    (t : ClassTable) (l : Ledger) (r : ℤ × ClassTable × Ledger) : Type 0 where
  registered :
      (n : ℕ)
      → name ≡ some n
      → r.0 ≡ pos 0
      → class_id < 2 ^ 16
      → is_registered t class_id ≡ false
      → ((j : ℕ) → lookup r.1 j ≡ (if class_id == j then class_of class_id n def else lookup t j))
      → ((x : Resource) → r.2 x ≡ plus (l x) (weight x (some (atom_ref n))))
      → Outcome has_memory class_id def name t l r
  refused :
      Refusal has_memory class_id name t
      → r.0 ≡ negsuc 0
      → ((j : ℕ) → lookup r.1 j ≡ lookup t j)
      → ((x : Resource) → r.2 x ≡ l x)
      → Outcome has_memory class_id def name t l r

name_kept :
    (r : Option Resource) (l : Ledger) (x : Resource)
    → released r (taken r (used r (taken r l))) x ≡ plus (l x) (weight x r)
unfolding released taken used weight more less held
name_kept r l x = ground arith

name_returned : (r : Option Resource) (l : Ledger) (x : Resource) → released r (taken r l) x ≡ l x
unfolding released taken more less
name_returned r l x = ground arith

-- The table is valid, and the outcome as it says.
pub record Result (has_memory : ℕ → Bool) (class_id : ℕ) (def : ClassDef) (name : Option ℕ)
    (t : ClassTable) (l : Ledger) (r : ℤ × ClassTable × Ledger) : Type 0 where
  pub valid : IsValid r.1
  pub outcome : Outcome has_memory class_id def name t l r

module _ (has_memory : ℕ → Bool) (class_id : ℕ) (def : ClassDef) (n : ℕ) (t : ClassTable)
    (l : Ledger) where
  -- JS_NewClass after JS_NewClass1.
  abbrev freed : ℤ × ClassTable × Ledger → ℤ × ClassTable × Ledger
  freed done = (done.0, done.1, released (some (atom_ref n)) done.2)

  put_class-Result :
      (room : Bool) (u : ClassTable)
      → HasRoom has_memory t class_id (room, u)
      → class_id < 2 ^ 16
      → is_registered t class_id ≡ false
      → Result has_memory class_id def
          (some n)
          t
          l
          (freed (put_class class_id def n room u (taken (some (atom_ref n)) l)))
  unfolding put_class lookup
  put_class-Result false u has small fresh = record {
    valid = has.valid;
    outcome =
        let (k, e) = has.fails refl in refused (no_memory k e) refl has.keeps (name_returned _ l);
  }
  put_class-Result true u has small fresh = record {
    valid = record {
      sized = length-set u.class_array class_id _ ∙ has.valid.sized;
      covered = has.valid.covered;
      bounded = has.valid.bounded;
    };
    outcome =
        registered n refl refl small fresh
          (λ j.
            get_or-set free_entry u.class_array class_id j _
              (omega (arith, has.fits refl, has.valid.sized))
            ∙ ap (λ old. if class_id == j then class_of class_id n def else old) (has.keeps j))
          (name_kept _ l);
  }

  unchanged :
      IsValid t
      → Refusal has_memory class_id (some n) t
      → Result has_memory class_id def
          (some n)
          t
          l
          (freed (negsuc 0, t, taken (some (atom_ref n)) l))
  unchanged valid reason = record {
    valid = valid;
    outcome = refused reason refl (λ j. refl) (name_returned _ l);
  }

  new_class1-Result :
      IsValid t
      → Result has_memory class_id def
          (some n)
          t
          l
          (freed (new_class1 has_memory t class_id def n (taken (some (atom_ref n)) l)))
  unfolding new_class1
  new_class1-Result valid = elim (Bool-cases (leb (2 ^ 16) class_id)) [
    | inl large ↦ rw large (unchanged valid (too_large (ground (arith, large))))
    | inr small ↦ rw small (elim (Bool-cases (is_registered t class_id)) [
      | inl used_id ↦ rw used_id (unchanged valid (in_use used_id))
      | inr fresh ↦
          let made = make_room has_memory class_id t in
          rw fresh (
            put_class-Result made.0 made.1
              (make_room-HasRoom has_memory class_id t valid (ground (arith, small)))
              (ground (arith, small)) fresh)
    ])
  ]

with_name-Result :
    (class_id : ℕ) (def : ClassDef) (name : Option ℕ) (t : ClassTable) (l : Ledger)
    (has_memory : ℕ → Bool)
    → IsValid t
    → Result has_memory class_id def name t l (with_name has_memory t class_id def name l)
unfolding with_name
with_name-Result class_id def none t l has_memory valid = record {
  valid = valid;
  outcome = refused (no_name refl) refl (λ j. refl) (λ x. refl);
}
with_name-Result class_id def (some n) t l has_memory valid =
    new_class1-Result has_memory class_id def n t l valid

-- The atom of the class's name.
abbrev pub name_of : Option ℕ → Option ℕ → Option ℕ
name_of none made = made
name_of (some found) made = some found

-- After JS_NewClass, the table of classes is as valid as before, whichever reallocation failed; the
-- class is registered and the table holds its name once more; or the id is 2 ^ 16 or larger or is
-- taken, or memory ran out, and nothing is registered or held that was not. Every other class is what
-- it was.
pub new_class-Result :
    (has_memory : ℕ → Bool) (t : ClassTable) (class_id : ℕ) (def : ClassDef) (found made : Option ℕ)
    (l : Ledger)
    → IsValid t
    → Result has_memory class_id def
        (name_of found made)
        t
        l
        (new_class has_memory t class_id def found made l)
unfolding new_class
new_class-Result has_memory t class_id def none made l valid =
    with_name-Result class_id def made t l has_memory valid
new_class-Result has_memory t class_id def (some found) made l valid =
    with_name-Result class_id def (some found) t l has_memory valid
