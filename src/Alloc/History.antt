-- ===== src/Alloc/History.antt =====
-- Every history of requests to the allocator under one limit.
use quickjs_bun.Prelude.{
  ℕ, suc, ltb, ◌==◌, false, Bool-cases, ◌+◌, ◌<◌, ◌≡◌, ◌≤◌, ◌≢◌, ◌⊎◌, inl, inr, refl, none, some,
  ◌∷◌, Option, length, arith,
}
use quickjs_bun.Alloc.{Outcome, size_mod, add_size, MallocState, done, malloc, free, realloc}
use quickjs_bun.Alloc.Accounts.{total, Exact, malloc-Exact, free-Exact, realloc-Exact}
use quickjs_bun.Alloc.Limit.{Limited, malloc-Limited, free-Limited, realloc-Limited}

module _ (malloc_overhead : ℕ) where
  -- The C library has room in the address space for a block of `size` bytes more.
  pub record Room (size : ℕ) (s : MallocState) : Type 0 where
    pub bytes : total malloc_overhead s.blocks + size + malloc_overhead < size_mod
    pub blocks : suc (length s.blocks) < size_mod

  -- One request that ends by returning.
  pub data Step (s s' : MallocState) : Type 0 where
    allocates :
        (given : Option ℕ) (size : ℕ) (q : Option ℕ)
        → Room size s
        → malloc malloc_overhead given size s ≡ done (q, s')
        → Step s s'
    frees : (p : Option ℕ) → free malloc_overhead p s ≡ done s' → Step s s'
    resizes :
        (given p : Option ℕ) (size : ℕ) (q : Option ℕ)
        → Room size s
        → realloc malloc_overhead given p size s ≡ done (q, s')
        → Step s s'

  pub data Reach (s : MallocState) : MallocState → Type 0 where
    here : Reach s s
    next : {t u : MallocState} → Reach s t → Step t u → Reach s u

  pub record Valid (s : MallocState) : Type 0 where
    pub exact : Exact malloc_overhead s
    pub limited : Limited malloc_overhead s

  Step-Valid : (s s' : MallocState) → Step s s' → Valid s → Valid s'
  Step-Valid s s' (allocates given size q room e) v = record {
    exact = malloc-Exact malloc_overhead given size s q s' v.exact room.bytes room.blocks e;
    limited =
        malloc-Limited malloc_overhead given size s q s' v.exact
          (omega (arith, v.exact.size, room.bytes)) v.limited e;
  }
  Step-Valid s s' (frees p e) v = record {
    exact = free-Exact malloc_overhead p s s' v.exact e;
    limited = free-Limited malloc_overhead p s s' v.limited e;
  }
  Step-Valid s s' (resizes given p size q room e) v = record {
    exact = realloc-Exact malloc_overhead given p size s q s' v.exact room.bytes room.blocks e;
    limited =
        realloc-Limited malloc_overhead given p size s q s' v.exact
          (omega (arith, v.exact.size, room.bytes)) v.limited e;
  }

  -- After any requests, refused ones and reallocations among them, the counters are exact and the
  -- bytes in use are within the limit but for one block's overhead.
  pub Reach-Valid : {s t : MallocState} → Valid s → Reach s t → Valid t
  Reach-Valid v here = v
  Reach-Valid v (next r st) = Step-Valid _ _ st (Reach-Valid v r)

  -- What the live blocks use, with their overhead.
  abbrev pub in_use : MallocState → ℕ
  in_use s = total malloc_overhead s.blocks

  -- A request refused, with nothing changed; or granted, with a new block of its size, and the other
  -- blocks as they were.
  abbrev pub Refused : Outcome (Option ℕ × MallocState) → MallocState → Type 0
  Refused out s = out ≡ done (none, s)

  abbrev pub Granted : Outcome (Option ℕ × MallocState) → ℕ → ℕ → MallocState → Type 0
  Granted out p size s =
      (s' : MallocState) × (out ≡ done (some p, s'))
      × (s'.blocks ≡ record { address = p; size = size } ∷ s.blocks)
      × (s'.malloc_size ≡ in_use s')
      × (s'.malloc_limit ≡ s.malloc_limit)

  answer :
      (given : Option ℕ) (size : ℕ) (s : MallocState)
      → size ≢ 0
      → Room size s
      → Exact malloc_overhead s
      → let out = malloc malloc_overhead given size s in
        (((s.malloc_limit < in_use s + size) ⊎ (given ≡ none)) × Refused out s)
        ⊎ ((p : ℕ) × (given ≡ some p) × (in_use s + size ≤ s.malloc_limit) × Granted out p size s)
  unfolding malloc total
  answer none size s some_bytes room exact =
      let nonzero : (size == 0) ≡ false = ground arith in
      elim (Bool-cases (ltb s.malloc_limit (add_size s.malloc_size size))) [
        | inl over ↦ rw (nonzero, over) (inl (inr refl, refl))
        | inr under ↦ rw (nonzero, under) (inl (inr refl, refl))
      ]
  answer (some p) size s some_bytes room exact =
      let nonzero : (size == 0) ≡ false = ground arith in
      let bytes = room.bytes in
      let counted = exact.size in
      elim (Bool-cases (ltb s.malloc_limit (add_size s.malloc_size size))) [
        | inl over ↦
            let past : s.malloc_limit < in_use s + size = ground arith in
            rw (nonzero, over) (inl (inl past, refl))
        | inr under ↦
            let within : in_use s + size ≤ s.malloc_limit = ground arith in
            let sum : add_size s.malloc_size (add_size size malloc_overhead)
                ≡ size + malloc_overhead + total malloc_overhead s.blocks =
              ground arith in
            rw (nonzero, under) (inr (p, refl, within, (_, refl, refl, omega (arith, sum), refl)))
      ]

  -- After any requests, the next one, of some bytes, ends: it is refused, and nothing changes, where
  -- the bytes that the live blocks use with their overhead, and its own, pass the limit, or the C
  -- library has no block; and otherwise it gets the C library's block, of its size, the other blocks
  -- stay, and the counter is again what the live blocks use.
  pub Reach-answer :
      {s t : MallocState} (given : Option ℕ) (size : ℕ)
      → Valid s
      → Reach s t
      → size ≢ 0
      → Room size t
      → let out = malloc malloc_overhead given size t in
        (((t.malloc_limit < in_use t + size) ⊎ (given ≡ none)) × Refused out t)
        ⊎ ((p : ℕ) × (given ≡ some p) × (in_use t + size ≤ t.malloc_limit) × Granted out p size t)
  Reach-answer {s} {t} given size v r some_bytes room =
      answer given size t some_bytes room (Reach-Valid v r).exact
