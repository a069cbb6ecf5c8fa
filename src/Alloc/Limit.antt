-- ===== src/Alloc/Limit.antt =====
-- The memory limit, and its lifting while the out-of-memory error is made.
use quickjs_bun.Prelude.{ℕ, ◌+◌, ◌≤◌, ◌<◌, ◌≡◌, Option, none, some, arith, inl, inr, Option-cases}
use quickjs_bun.Alloc.{
  size_mod, MallocState, done, header_size, malloc, free, realloc, Memory, throw_out_of_memory,
  set_memory_limit,
}
use quickjs_bun.Alloc.Accounts.{total, Exact, discard-total}

module _ (malloc_overhead : ℕ) where
  -- The bytes in use never pass the limit by more than one block's overhead.
  abbrev pub Limited : MallocState → Type 0
  Limited s = total malloc_overhead s.blocks ≤ s.malloc_limit + malloc_overhead

  pub malloc-Limited :
      (given : Option ℕ) (size : ℕ) (s : MallocState) (q : Option ℕ) (s' : MallocState)
      → Exact malloc_overhead s
      → s.malloc_size + size < size_mod
      → Limited s
      → malloc malloc_overhead given size s ≡ done (q, s')
      → Limited s'
  unfolding malloc total
  malloc-Limited given size s q s' x fits l e = ground arith

  pub free-Limited :
      (p : Option ℕ) (s s' : MallocState)
      → Limited s
      → free malloc_overhead p s ≡ done s'
      → Limited s'
  unfolding free
  free-Limited none s s' l e = ground arith
  free-Limited (some p) s s' l e = elim (Option-cases (header_size p s.blocks)) [
    | inl missing ↦ ground arith
    | inr (n, found) ↦ ground (arith, discard-total malloc_overhead p n s.blocks found)
  ]

  pub realloc-Limited :
      (given p : Option ℕ) (size : ℕ) (s : MallocState) (q : Option ℕ) (s' : MallocState)
      → Exact malloc_overhead s
      → s.malloc_size + size < size_mod
      → Limited s
      → realloc malloc_overhead given p size s ≡ done (q, s')
      → Limited s'
  unfolding realloc total
  realloc-Limited given none size s q s' x fits l e = ground arith
  realloc-Limited given (some p) size s q s' x fits l e =
      elim (Option-cases (header_size p s.blocks)) [
        | inl missing ↦ ground arith
        | inr (n, found) ↦ ground (arith, discard-total malloc_overhead p n s.blocks found)
      ]

-- After JS_ThrowOutOfMemory the limit and the flag against nesting are what they were before,
-- whatever raising the error did to the memory and to both.
pub throw_out_of_memory-restores :
    (throw_internal_error : Memory → Memory) (m : Memory)
    → ((throw_out_of_memory throw_internal_error m).state.malloc_limit ≡ m.state.malloc_limit)
      × ((throw_out_of_memory throw_internal_error m).in_out_of_memory ≡ m.in_out_of_memory)
unfolding throw_out_of_memory set_memory_limit
throw_out_of_memory-restores throw_internal_error m = (ground arith, ground arith)
