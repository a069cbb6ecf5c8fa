-- ===== src/Lifecycle/Balance.antt =====
-- What making and freeing a runtime leaves behind.
use quickjs_bun.Prelude.{
  ℕ, suc, ◌+◌, ◌≡◌, refl, ap, ◌∙◌, Option, none, some, List, [], ◌∷◌, length, arith,
}
use quickjs_bun.Runtime.{State, Runtime, ContextEntry, bun_state}
use quickjs_bun.Ownership.{less}
use quickjs_bun.ClassTable.{ClassDef, ClassTable}
use quickjs_bun.ClassTable.Room.{IsValid, lookup}
use quickjs_bun.ClassTable.Registration.{class_of}
use quickjs_bun.Lifecycle.{
  Callbacks, no_callbacks, Statics, Heap, block_freed, runtime_freed, initial_state,
  with_host_class, Created, free_entries, free_table, free_state, free_runtime,
}

-- The blocks of malloc that a state stands for: itself, its entries and its table.
unfoldable pub table_blocks : List (Option ℕ) → ℕ
table_blocks [] = 0
table_blocks (f ∷ fs) = 1

unfoldable pub blocks_of : State → ℕ
unfolding table_blocks
blocks_of s = 1 + (table_blocks s.finalizers + length s.contexts)

unfoldable pub blocks_at : Option State → ℕ
unfolding blocks_of
blocks_at none = 0
blocks_at (some s) = blocks_of s

-- There are `m` runtimes, and `n` blocks.
pub record Has (m n : ℕ) (h : Heap) : Type 0 where
  pub runtimes_lem : h.runtimes ≡ some m
  pub blocks_lem : h.blocks ≡ some n

pub recount : {m n k : ℕ} {h : Heap} → n ≡ k → Has m n h → Has m k h
recount e has = record { runtimes_lem = has.runtimes_lem; blocks_lem = has.blocks_lem ∙ ap some e }

pub block_freed-Has : {m n : ℕ} {h : Heap} → Has m (suc n) h → Has m n (block_freed h)
unfolding block_freed less
block_freed-Has has = record {
  runtimes_lem = has.runtimes_lem;
  blocks_lem = rw (has.blocks_lem, less) refl;
}

pub runtime_freed-Has : {m n : ℕ} {h : Heap} → Has (suc m) n h → Has m n (runtime_freed h)
unfolding runtime_freed less
runtime_freed-Has has = record {
  runtimes_lem = rw (has.runtimes_lem, less) refl;
  blocks_lem = has.blocks_lem;
}

free_entries-Has :
    {m n : ℕ} (entries : List ContextEntry) {h : Heap}
    → Has m (length entries + n) h
    → Has m n (free_entries entries h)
unfolding free_entries
free_entries-Has [] has = recount (omega arith) has
free_entries-Has (e ∷ es) has = free_entries-Has es (block_freed-Has (recount (omega arith) has))

free_table-Has :
    {m n : ℕ} (finalizers : List (Option ℕ)) {h : Heap}
    → Has m (table_blocks finalizers + n) h
    → Has m n (free_table finalizers h)
unfolding free_table table_blocks
free_table-Has [] has = recount (omega arith) has
free_table-Has (f ∷ fs) has = block_freed-Has (recount (omega arith) has)

free_state-Has :
    {m n : ℕ} (s : Option State) {h : Heap} → Has m (blocks_at s + n) h → Has m n (free_state s h)
unfolding free_state blocks_at blocks_of
free_state-Has none has = recount (omega arith) has
free_state-Has (some s) has =
    block_freed-Has
      (free_table-Has s.finalizers (free_entries-Has s.contexts (recount (omega arith) has)))

-- The host's finalizers leave as many runtimes, and of the blocks that are not the state's, too.
pub record IsBalanced (finalize : Callbacks → Option State → Heap → Option State × Heap)
    : Type 0 where
  pub balance :
      (c : Callbacks) (s : Option State) (h : Heap) (m n : ℕ)
      → Has m (blocks_at s + n) h
      → Has m (blocks_at (finalize c s h).0 + n) (finalize c s h).1

module _ (finalize : Callbacks → Option State → Heap → Option State × Heap)
    (balanced : IsBalanced finalize) where
  -- Freeing a runtime frees what belongs to its state, once each, and nothing else.
  pub free_runtime-Has :
      {E : Type 0} (rt : Runtime E) (h : Heap) (m n : ℕ)
      → Has (suc m) (blocks_at (bun_state rt) + n) h
      → Has m n (free_runtime finalize rt h)
  unfolding free_runtime
  free_runtime-Has rt h m n has =
      free_state-Has (finalize no_callbacks (bun_state rt) h).0
        (runtime_freed-Has (balanced.balance no_callbacks (bun_state rt) h (suc m) n has))

-- What making a runtime came to, from `m` runtimes and `n` blocks.
pub data Made {E : Type 0} (finalize : Callbacks → Option State → Heap → Option State × Heap)
    (def : ClassDef) (s : Statics) (m n : ℕ) (r : Created E) : Type 0 where
  created :
      (rt : Runtime E) (classes : ClassTable) (name : ℕ)
      → r.0 ≡ some (rt, classes)
      → bun_state rt ≡ some initial_state
      → IsValid classes
      → lookup classes (with_host_class s).host_class_id
        ≡ class_of (with_host_class s).host_class_id name def
      → r.2 ≡ with_host_class s
      → Has (suc m) (blocks_at (bun_state rt) + n) r.3
      → Has m n (free_runtime finalize rt r.3)
      → Made finalize def s m n r
  failed : r.0 ≡ none → Has m n r.3 → Made finalize def s m n r
