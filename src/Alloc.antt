-- ===== src/Alloc.antt =====
-- quickjs/quickjs.c, lines 2134 to 2225 and 7865 to 7877: the default allocator, which records block
-- sizes in a header of its own, the memory limit, and the out-of-memory error.
pub mod Accounts
pub mod Limit
pub mod History
use quickjs_bun.Prelude.{
  ℕ, ◌+◌, ◌-◌, ◌%◌, ◌^◌, Bool, true, false, Option, none, some, List, [], ◌∷◌, ◌==◌, ltb,
  if◌then◌else◌,
}

-- size_t
abbrev pub size_mod : ℕ
size_mod = 2 ^ 64

abbrev pub add_size : ℕ → ℕ → ℕ
add_size a b = (a + b) % size_mod

abbrev pub sub_size : ℕ → ℕ → ℕ
sub_size a b = (a + size_mod - b) % size_mod

-- A live block: the pointer given out, and the `size` of the JSDefMallocHeader in front of it.
pub record Block : Type 0 where
  pub address : ℕ
  pub size : ℕ

-- JSMallocState, with the blocks that are live.
pub record MallocState : Type 0 where
  pub malloc_count : ℕ
  pub malloc_size : ℕ
  pub malloc_limit : ℕ
  pub blocks : List Block

-- How a call ends: with a value, by `assert`, or by a read at an address that holds no header.
pub data Outcome (A : Type 0) : Type 0 where
  done : A → Outcome A
  assertion : Outcome A
  fault : Outcome A

-- The header of a pointer.
unfoldable pub header_size : ℕ → List Block → Option ℕ
header_size p [] = none
header_size p (b ∷ bs) = if b.address == p then some b.size else header_size p bs

unfoldable pub discard : ℕ → List Block → List Block
discard p [] = []
discard p (b ∷ bs) = if b.address == p then bs else b ∷ discard p bs

-- js_def_malloc_usable_size, with NULL as `none`
pub usable_size : MallocState → Option ℕ → Outcome ℕ
usable_size s none = done 0
usable_size s (some p) = elim (header_size p s.blocks) [ none ↦ fault | some size ↦ done size ]

-- JS_SetMemoryLimit
pub set_memory_limit : ℕ → MallocState → MallocState
set_memory_limit limit s = record s { malloc_limit = limit }

-- MALLOC_OVERHEAD, which depends on the platform
module _ (malloc_overhead : ℕ) where
  -- js_def_malloc. `given` is the block that the C library's malloc gives, if it gives one.
  unfoldable pub malloc : Option ℕ → ℕ → MallocState → Outcome (Option ℕ × MallocState)
  malloc given size s =
      if size == 0
      then assertion
      else if ltb s.malloc_limit (add_size s.malloc_size size)
      then done (none, s)
      else elim given [
        | none ↦ done (none, s)
        | some p ↦ done (
          some p,
          record s {
            malloc_count = add_size s.malloc_count 1;
            malloc_size = add_size s.malloc_size (add_size size malloc_overhead);
            blocks = record { address = p; size = size } ∷ s.blocks;
          },
        )
      ]

  -- js_def_free
  unfoldable pub free : Option ℕ → MallocState → Outcome MallocState
  free none s = done s
  free (some p) s = elim (header_size p s.blocks) [
    | none ↦ fault
    | some size ↦ done (record s {
      malloc_count = sub_size s.malloc_count 1;
      malloc_size = sub_size s.malloc_size (add_size size malloc_overhead);
      blocks = discard p s.blocks;
    })
  ]

  -- The end of js_def_realloc for a block of `old` bytes and a size other than 0. `given` is what
  -- the C library's realloc gives.
  resize : Option ℕ → ℕ → ℕ → ℕ → MallocState → Option ℕ × MallocState
  resize given p old size s =
      if ltb s.malloc_limit (sub_size (add_size s.malloc_size size) old)
      then (none, s)
      else elim given [
        | none ↦ (none, s)
        | some q ↦ (
          some q,
          record s {
            malloc_size = add_size s.malloc_size (sub_size size old);
            blocks = record { address = q; size = size } ∷ discard p s.blocks;
          },
        )
      ]

  -- js_def_realloc
  pub realloc : Option ℕ → Option ℕ → ℕ → MallocState → Outcome (Option ℕ × MallocState)
  unfolding malloc resize
  realloc given none size s = if size == 0 then done (none, s) else malloc given size s
  realloc given (some p) size s = elim (header_size p s.blocks) [
    | none ↦ fault
    | some old ↦
        if size == 0
        then done (
          none,
          record s {
            malloc_count = sub_size s.malloc_count 1;
            malloc_size = sub_size s.malloc_size (add_size old malloc_overhead);
            blocks = discard p s.blocks;
          },
        )
        else done (resize given p old size s)
  ]

-- A runtime's `in_out_of_memory` and its allocator.
pub record Memory : Type 0 where
  pub in_out_of_memory : Bool
  pub state : MallocState

-- JS_ThrowOutOfMemory. `throw_internal_error` is what JS_ThrowInternalError does to the memory.
pub throw_out_of_memory : (Memory → Memory) → Memory → Memory
throw_out_of_memory throw_internal_error m =
    if m.in_out_of_memory
    then m
    else let raised : Memory =
        throw_internal_error
          (record { in_out_of_memory = true; state = set_memory_limit (size_mod - 1) m.state }) in
      record {
        in_out_of_memory = false;
        state = set_memory_limit m.state.malloc_limit raised.state;
      }
