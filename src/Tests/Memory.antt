-- ===== src/Tests/Memory.antt =====
-- The theorems on the allocator at a state with two blocks.
use quickjs_bun.Prelude.{
  ℕ, ◌⊎◌, ◌+◌, ◌≤◌, ◌<◌, ◌≡◌, refl, Option, false, none, some, List, [], ◌∷◌, arith,
}
use quickjs_bun.Alloc.{
  Block, MallocState, done, header_size, discard, malloc, free, Memory, throw_out_of_memory,
}
use quickjs_bun.Alloc.Accounts.{total, Exact, free-malloc}
use quickjs_bun.Alloc.Limit.{throw_out_of_memory-restores}
use quickjs_bun.Alloc.History.{
  Room, allocates, frees, here, next, Valid, Reach-Valid, in_use, Refused, Granted, Reach-answer,
}

abbrev blocks : List Block
blocks = record { address = 4096; size = 40 } ∷ record { address = 8192; size = 24 } ∷ []

abbrev two : MallocState
two = record { malloc_count = 2; malloc_size = 80; malloc_limit = 200; blocks = blocks }

-- A third block of 100 bytes, with 8 bytes of overhead.
abbrev three : MallocState
three = record {
  malloc_count = 3;
  malloc_size = 188;
  malloc_limit = 200;
  blocks = record { address = 500; size = 100 } ∷ blocks;
}

two-Exact : Exact 8 two
unfolding total
two-Exact = record { count = refl; size = refl; fits = omega arith; few = omega arith }

two-Valid : Valid 8 two
unfolding total
two-Valid = record { exact = two-Exact; limited = omega arith }

allocated : malloc 8 (some 500) 100 two ≡ done (some 500, three)
unfolding malloc
allocated = refl

room : Room 8 100 two
unfolding total
room = record { bytes = omega arith; blocks = omega arith }

freed : free 8 (some 500) three ≡ done two
unfolding free header_size discard
freed = refl

Reach-Valid_example : Valid 8 two
Reach-Valid_example =
    Reach-Valid 8 two-Valid (
      next (next here (allocates (some 500) 100 (some 500) room allocated))
        (frees (some 500) freed))

-- After 100 bytes were given and freed, 121 would pass the limit.
Reach-answer_example :
    let out = malloc 8 (some 500) 121 two in
    (((two.malloc_limit < in_use 8 two + 121) ⊎ (◌≡◌ {A = Option ℕ} (some 500) none))
      × Refused 8 out two)
    ⊎ ((p : ℕ) × (◌≡◌ {A = Option ℕ} (some 500) (some p))
        × (in_use 8 two + 121 ≤ two.malloc_limit)
        × Granted 8 out p 121 two)
unfolding total
Reach-answer_example =
    Reach-answer 8 (some 500) 121 two-Valid
      (next (next here (allocates (some 500) 100 (some 500) room allocated))
        (frees (some 500) freed))
      (omega arith) (record { bytes = omega arith; blocks = omega arith })

free-malloc_example : free 8 (some 500) three ≡ done two
unfolding total
free-malloc_example =
    free-malloc 8 500 100 two three none two-Exact (omega arith) (omega arith) allocated

-- An error that allocates a block and leaves both changed.
abbrev raise : Memory → Memory
raise m = record { in_out_of_memory = false; state = three }

throw_out_of_memory-restores_example :
    ((throw_out_of_memory raise
        (record { in_out_of_memory = false; state = two })).state.malloc_limit
      ≡ 200)
    × ((throw_out_of_memory raise
          (record { in_out_of_memory = false; state = two })).in_out_of_memory
        ≡ false)
throw_out_of_memory-restores_example =
    throw_out_of_memory-restores raise (record { in_out_of_memory = false; state = two })
