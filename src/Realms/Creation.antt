-- ===== src/Realms/Creation.antt =====
-- What JS_NewContext leaves, on each of its ways out.
use quickjs_bun.Prelude.{
  ℕ, ◌-◌, ◌*◌, ◌≡◌, refl, Bool, true, false, none, some, List, [], ◌∷◌, ltb, inl, inr, Bool-cases,
  Option-cases, arith,
}
use quickjs_bun.Realms.{
  context_steps, Store, Context, Step, basic_objects, Calls, Result, free_context, checked, add_all,
  initial, with_protos, with_context, new_context_raw, with_intrinsics, new_context,
}
use quickjs_bun.Realms.Nodes.{count, IsSound, IsPlaced, IsGone, Same}
use quickjs_bun.Realms.Freeing.{freed-IsSound, freed-IsGone}
use quickjs_bun.Realms.Taking.{
  added_store, added-IsSound, undone-Same, undone-IsSound, initial-IsPlaced,
}

-- The allocator gives no block that is live; adding an intrinsic, and releasing what a context holds
-- that nothing else refers to, leave the context in its place with its blocks and its prototypes.
pub record IsOrderly (calls : Calls) (class_count : ℕ) : Type 0 where
  pub fresh :
      (size p : ℕ) (s : Store) → IsSound s → calls.malloc_rt size s ≡ some p → count p s.blocks ≡ 0
  pub added :
      (step : Step) (p : ℕ) (c : Context) (s : Store)
      → IsPlaced class_count p c s
      → IsPlaced class_count p (calls.add step p c s).1 (calls.add step p c s).2
  pub released :
      (p : ℕ) (c : Context) (s : Store)
      → IsPlaced class_count p c s
      → IsPlaced class_count p c (calls.free_parts p c s)

-- How the creation of a context ends, at the address that the allocator gave, if it gave one.
pub data Ends (calls : Calls) (class_count : ℕ) (s : Store) : Result → Type 0 where
  created :
      (p : ℕ) (c : Context) (s' : Store)
      → calls.malloc_rt calls.size_of_context s ≡ some p
      → IsPlaced class_count p c s'
      → Ends calls class_count s (some p, some (p, c), s')
  kept :
      (p : ℕ) (c : Context) (s' : Store)
      → calls.malloc_rt calls.size_of_context s ≡ some p
      → IsPlaced class_count p c s'
      → Ends calls class_count s (none, some (p, c), s')
  gone :
      (p : ℕ) (s' : Store)
      → calls.malloc_rt calls.size_of_context s ≡ some p
      → IsSound s'
      → IsGone p s'
      → Ends calls class_count s (none, none, s')
  refused : (s' : Store) → IsSound s' → Same s s' → Ends calls class_count s (none, none, s')

module _ (calls : Calls) (n : ℕ) (orderly : IsOrderly calls n) (start : Store) where
  free_context-Ends :
      (p : ℕ) (c : Context) (s : Store)
      → calls.malloc_rt calls.size_of_context start ≡ some p
      → IsPlaced n p c s
      → Ends calls n start (none, (free_context calls p c s).0, (free_context calls p c s).1)
  unfolding free_context
  free_context-Ends p c s given placed = elim (Bool-cases (ltb 1 c.ref_count)) [
    | inl held ↦ rw held (
        kept p (record c { ref_count = c.ref_count - 1 }) s given
          (record {
            sound = placed.sound;
            collected_once = placed.collected_once;
            linked_once = placed.linked_once;
            protos = placed.protos;
            protos_unlisted = placed.protos_unlisted;
            referred = ground arith;
            covered = placed.covered;
          }))
    | inr last ↦
        let s' : Store = calls.free_parts p c s in
        let placed' = orderly.released p c s placed in
        rw last (gone p _ given (freed-IsSound n p c s' placed') (freed-IsGone n p c s' placed'))
  ]

  checked-Ends :
      (next : ℕ → Context → Store → Result) (p : ℕ) (r : Bool × Context × Store)
      → ((c : Context) (s : Store) → IsPlaced n p c s → Ends calls n start (next p c s))
      → calls.malloc_rt calls.size_of_context start ≡ some p
      → IsPlaced n p r.1 r.2
      → Ends calls n start (checked calls next p r)
  unfolding checked
  checked-Ends next p (true, c, s) on given placed = free_context-Ends p c s given placed
  checked-Ends next p (false, c, s) on given placed = on c s placed

  add_all-Ends :
      (steps : List Step) (p : ℕ) (c : Context) (s : Store)
      → calls.malloc_rt calls.size_of_context start ≡ some p
      → IsPlaced n p c s
      → Ends calls n start (add_all calls steps p c s)
  unfolding add_all
  add_all-Ends [] p c s given placed = created p c s given placed
  add_all-Ends (step ∷ steps) p c s given placed =
      checked-Ends (add_all calls steps) p (calls.add step p c s)
        (λ c' s' placed'. add_all-Ends steps p c' s' given placed') given
        (orderly.added step p c s placed)

module _ (calls : Calls) (n : ℕ) (orderly : IsOrderly calls n) (start : Store)
    (sound : IsSound start) where
  new_context_raw-Ends : Ends calls n start (new_context_raw calls n start)
  unfolding new_context_raw with_context with_protos
  new_context_raw-Ends = elim (Option-cases (calls.malloc_rt calls.size_of_context start)) [
    | inl out ↦ rw out (refused start sound λ x. (refl, refl, refl))
    | inr (p, given) ↦
        let unused = orderly.fresh calls.size_of_context p start sound given in
        let added : Store = added_store p start sound unused in
        let size : ℕ = calls.size_of_value * n in
        rw given (elim (Option-cases (calls.malloc_rt size added)) [
          | inl out ↦
              rw out
                (refused _ (undone-IsSound p start sound unused) (undone-Same p start sound unused))
          | inr (q, given') ↦
              let unused' =
                orderly.fresh size q added (added-IsSound p start sound unused) given' in
              rw given' (
                add_all-Ends calls n orderly start (basic_objects ∷ []) p (initial calls n q) _
                  given (initial-IsPlaced p start sound unused n q unused' calls))
        ])
  ]

  with_intrinsics-Ends :
      (r : Result) → Ends calls n start r → Ends calls n start (with_intrinsics calls r)
  unfolding with_intrinsics
  with_intrinsics-Ends r (created p c s given placed) =
      add_all-Ends calls n orderly start context_steps p c s given placed
  with_intrinsics-Ends r (kept p c s given placed) = kept p c s given placed
  with_intrinsics-Ends r (gone p s given sound' gone') = gone p s given sound' gone'
  with_intrinsics-Ends r (refused s sound' same) = refused s sound' same

  -- From a store where every node of the garbage collector's list and of the list of contexts lies in
  -- a live block, whichever allocation or intrinsic fails, JS_NewContext leaves such a store again.
  -- It gives a context that is once in either list, with a prototype for each class; or it gives
  -- none, and either the blocks and the nodes are the same as before, or nothing of the context at
  -- the address that was given is left, or the context is still in its place since something refers to it. The allocator gives no
  -- live block, and adding intrinsics and releasing what a context holds leave it in its place.
  pub new_context-Ends : Ends calls n start (new_context calls n start)
  unfolding new_context
  new_context-Ends = with_intrinsics-Ends (new_context_raw calls n start) new_context_raw-Ends
