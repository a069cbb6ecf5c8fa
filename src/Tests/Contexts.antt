-- ===== src/Tests/Contexts.antt =====
-- The theorem on the creation of contexts, where an intrinsic fails.
use quickjs_bun.Prelude.{
  ℕ, zero, suc, ◌≡◌, refl, Option, none, some, [], ◌∷◌, true, false, ◌==◌, if◌then◌else◌,
  some_injective, sym, inl, inr, ◌⊎◌, arith,
}
use quickjs_bun.Realms.{Store, promise, Calls, new_context_raw, new_context}
use quickjs_bun.Realms.Nodes.{count, IsSound}
use quickjs_bun.Realms.Creation.{IsOrderly, Ends, new_context-Ends}

-- The first of two blocks that is not live
abbrev first_free : Store → Option ℕ
first_free s =
    if count 1 s.blocks == 0 then some 1 else if count 2 s.blocks == 0 then some 2 else none

abbrev calls : Calls
calls = record {
  size_of_context = 8;
  size_of_value = 16;
  malloc_rt = λ size s. first_free s;
  add = λ step p c s. (elim step [ promise ↦ true | _ ↦ false ], c, s);
  free_parts = λ p c s. s;
}

abbrev empty : Store
empty = record { blocks = []; gc_obj_list = []; context_list = [] }

empty-IsSound : IsSound empty
unfolding count
empty-IsSound = record {
  live = λ x. omega arith;
  collected = λ x. omega arith;
  linked = λ x. omega arith;
}

raw_made :
    (new_context_raw calls 3 empty).2
    ≡ record { blocks = 2 ∷ 1 ∷ []; gc_obj_list = 1 ∷ []; context_list = 1 ∷ [] }
unfolding new_context_raw count
raw_made = refl

nothing_left : new_context calls 3 empty ≡ (none, none, empty)
unfolding new_context count
nothing_left = refl

picked :
    (a b p : ℕ)
    → (if a == 0 then some 1 else if b == 0 then some 2 else none) ≡ some p
    → ((1 ≡ p) × (a ≡ 0)) ⊎ ((2 ≡ p) × (b ≡ 0))
picked zero b p given = inl (some_injective given, refl)
picked (suc a) zero p given = inr (ground arith, refl)
picked (suc a) (suc b) p given = absurd (ground arith)

first_free_lem : (p : ℕ) (s : Store) → first_free s ≡ some p → count p s.blocks ≡ 0
first_free_lem p s given = elim (picked (count 1 s.blocks) (count 2 s.blocks) p given) [
  | inl (same, unused) ↦ rw (sym same) unused
  | inr (same, unused) ↦ rw (sym same) unused
]

calls-IsOrderly : IsOrderly calls 3
calls-IsOrderly = record {
  fresh = λ size p s sound given. first_free_lem p s given;
  added = λ step p c s placed. placed;
  released = λ p c s placed. placed;
}

new_context-Ends_example : Ends calls 3 empty (new_context calls 3 empty)
new_context-Ends_example = new_context-Ends calls 3 calls-IsOrderly empty empty-IsSound
