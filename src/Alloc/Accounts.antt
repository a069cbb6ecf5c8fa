-- ===== src/Alloc/Accounts.antt =====
-- The allocator's counters against the blocks that are live.
use quickjs_bun.Prelude.{
  ℕ, ◌+◌, ◌<◌, ◌≡◌, Option, none, some, List, [], ◌∷◌, ◌==◌, if◌then◌else◌, length, arith, inl, inr,
  Bool-cases, Option-cases, suc,
}
use quickjs_bun.Alloc.{
  size_mod, Block, MallocState, done, header_size, discard, malloc, free, realloc,
}

module _ (malloc_overhead : ℕ) where
  -- What the live blocks cost.
  unfoldable pub total : List Block → ℕ
  total [] = 0
  total (b ∷ bs) = b.size + malloc_overhead + total bs

  -- The counters are exact, and what they count is within the address space.
  pub record Exact (s : MallocState) : Type 0 where
    pub count : s.malloc_count ≡ length s.blocks
    pub size : s.malloc_size ≡ total s.blocks
    pub fits : total s.blocks < size_mod
    pub few : length s.blocks < size_mod

  pub discard-total :
      (p n : ℕ) (bs : List Block)
      → header_size p bs ≡ some n
      → (n + malloc_overhead + total (discard p bs) ≡ total bs)
        × (suc (length (discard p bs)) ≡ length bs)
  unfolding header_size discard total
  discard-total p n [] h = cc
  discard-total p n (b ∷ bs) h = elim (Bool-cases (b.address == p)) [
    | inl hit ↦ ground arith
    | inr miss ↦ ground (arith, discard-total p n bs)
  ]

  -- A successful allocation keeps the counters exact, if the C library's block is in the address
  -- space with the others.
  pub malloc-Exact :
      (given : Option ℕ) (size : ℕ) (s : MallocState) (p : Option ℕ) (s' : MallocState)
      → Exact s
      → total s.blocks + size + malloc_overhead < size_mod
      → suc (length s.blocks) < size_mod
      → malloc malloc_overhead given size s ≡ done (p, s')
      → Exact s'
  unfolding malloc total
  malloc-Exact given size s p s' x room few e = ground arith

  pub free-Exact :
      (p : Option ℕ) (s s' : MallocState) → Exact s → free malloc_overhead p s ≡ done s' → Exact s'
  unfolding free
  free-Exact none s s' x e = ground arith
  free-Exact (some p) s s' x e = elim (Option-cases (header_size p s.blocks)) [
    | inl missing ↦ ground arith
    | inr (n, found) ↦ ground (arith, discard-total p n s.blocks found)
  ]

  pub realloc-Exact :
      (given p : Option ℕ) (size : ℕ) (s : MallocState) (q : Option ℕ) (s' : MallocState)
      → Exact s
      → total s.blocks + size + malloc_overhead < size_mod
      → suc (length s.blocks) < size_mod
      → realloc malloc_overhead given p size s ≡ done (q, s')
      → Exact s'
  unfolding realloc total
  realloc-Exact given none size s q s' x room few e = ground arith
  realloc-Exact given (some p) size s q s' x room few e =
      elim (Option-cases (header_size p s.blocks)) [
        | inl missing ↦ ground arith
        | inr (n, found) ↦ ground (arith, discard-total p n s.blocks found)
      ]

  -- A block that is given back at once leaves the allocator as it was: counters, limit and blocks.
  pub free-malloc :
      (p size : ℕ) (s s' : MallocState) (q : Option ℕ)
      → Exact s
      → total s.blocks + size + malloc_overhead < size_mod
      → suc (length s.blocks) < size_mod
      → malloc malloc_overhead (some p) size s ≡ done (some p, s')
      → free malloc_overhead (some p) s' ≡ done s
  unfolding malloc free header_size discard
  free-malloc p size s s' q x room few e = ground arith

  -- The header of a new block records its size, and no other block's header changes.
  pub malloc-header :
      (p q size : ℕ) (s s' : MallocState)
      → malloc malloc_overhead (some p) size s ≡ done (some p, s')
      → header_size q s'.blocks ≡ (if p == q then some size else header_size q s.blocks)
  unfolding malloc header_size
  malloc-header p q size s s' e = ground arith
