-- ===== src/Lifecycle.antt =====
-- src/native/quickjs_bridge.c: `qjs_bun_new_runtime`, `qjs_bun_free_runtime` and the setters of the
-- callbacks that a runtime has, with what the C library's allocator gives them.
pub mod Balance
pub mod Making
pub mod Hooks
use quickjs_bun.Prelude.{
  ℕ, suc, Bool, true, false, Option, none, some, List, [], ◌∷◌, ℤ, is_negative, ◌==◌, if◌then◌else◌,
  is_some,
}
use quickjs_bun.Runtime.{State, Runtime, Handler, bridge, ContextEntry, bun_state, set_state}
use quickjs_bun.Runtime.Clock.{infinity}
use quickjs_bun.Ownership.{Ledger, more, less}
use quickjs_bun.ClassTable.{ClassDef, ClassTable, new_class_id, new_class}

-- qjs_bun_host_class_id and js_class_id_alloc
pub record Statics : Type 0 where
  pub host_class_id : ℕ
  pub class_id_alloc : ℕ

-- How many runtimes and blocks of malloc there are; `none` after one was freed that is not there.
pub record Heap : Type 0 where
  pub runtimes : Option ℕ
  pub blocks : Option ℕ

unfoldable pub block_freed : Heap → Heap
block_freed h = record h { blocks = less h.blocks }

unfoldable pub runtime_freed : Heap → Heap
runtime_freed h = record h { runtimes = less h.runtimes }

-- The state after memset and the write of the deadline.
abbrev pub initial_state : State
initial_state = record {
  deadline_ms = infinity;
  contexts = [];
  finalizers = [];
  finalizer_count = 0;
  module_loader = none;
  module_normalizer = none;
}

-- host_class, its finalizer and its call being the bridge's functions
abbrev pub host_class : ℕ → ℕ → ClassDef
host_class finalizer call = record {
  finalizer = some finalizer;
  gc_mark = none;
  call = some call;
  exotic = none;
}

-- The host's class id, allocated for the first runtime.
unfoldable pub with_host_class : Statics → Statics
unfolding new_class_id
with_host_class s =
    if s.host_class_id == 0
    then (let made = new_class_id s.host_class_id s.class_id_alloc in
        record { host_class_id = made.0; class_id_alloc = made.1 })
    else s

-- The engine's runtime with its table of classes, that of the names, and the process.
abbrev pub Created : Type 0 → Type 0
Created E = Option (Runtime E × ClassTable) × Ledger × Statics × Heap

module _ {E : Type 0} (has_memory : ℕ → Bool) (found made : Option ℕ) (finalizer call : ℕ) where
  -- After JS_NewClass.
  unfoldable pub with_class : Runtime E → Statics → Heap → ℤ × ClassTable × Ledger → Created E
  unfolding block_freed runtime_freed
  with_class rt s h (ret, classes, l) =
      if is_negative ret
      then (none, l, s, runtime_freed (block_freed h))
      else (some (record rt { handler = bridge initial_state }, classes), l, s, h)

  -- After malloc, which gave a block or none.
  unfoldable pub with_state : Bool → Runtime E → ClassTable → Ledger → Statics → Heap → Created E
  unfolding with_class with_host_class runtime_freed
  with_state false rt classes l s h = (none, l, s, runtime_freed h)
  with_state true rt classes l s h =
      let statics = with_host_class s in
      with_class rt statics (record h { blocks = more h.blocks })
        (new_class has_memory classes statics.host_class_id (host_class finalizer call) found made
          l)

  -- qjs_bun_new_runtime, given the runtime that JS_NewRuntime makes, if it does
  unfoldable pub new_runtime :
      Bool → Option (Runtime E × ClassTable) → Ledger → Statics → Heap → Created E
  unfolding with_state
  new_runtime allocated none l s h = (none, l, s, h)
  new_runtime allocated (some (rt, classes)) l s h =
      with_state allocated rt classes l s (record h { runtimes = more h.runtimes })

-- The loop over the contexts.
unfoldable pub free_entries : List ContextEntry → Heap → Heap
unfolding block_freed
free_entries [] h = h
free_entries (entry ∷ entries) h = free_entries entries (block_freed h)

-- free(state->finalizers), which may be NULL
unfoldable pub free_table : List (Option ℕ) → Heap → Heap
unfolding block_freed
free_table [] h = h
free_table (f ∷ fs) h = block_freed h

unfoldable pub free_state : Option State → Heap → Heap
unfolding free_entries free_table block_freed
free_state none h = h
free_state (some s) h = block_freed (free_table s.finalizers (free_entries s.contexts h))

-- The callbacks that the engine holds: whether the trampolines are set, with the state of the
-- runtime, and the tracker of rejected promises.
pub record Callbacks : Type 0 where
  pub normalizer_set : Bool
  pub loader_set : Bool
  pub tracker : Option ℕ

-- The callbacks after qjs_bun_free_runtime has reset them.
abbrev pub no_callbacks : Callbacks
no_callbacks = record { normalizer_set = false; loader_set = false; tracker = none }

-- qjs_bun_free_runtime. `finalize` is what the host's finalizers do to the state and the heap while
-- JS_FreeRuntime runs them; the state is freed only then.
unfoldable pub free_runtime :
    {E : Type 0} → (Callbacks → Option State → Heap → Option State × Heap) → Runtime E → Heap → Heap
unfolding free_state runtime_freed bun_state
free_runtime finalize rt h =
    let after = finalize no_callbacks (bun_state rt) h in free_state after.0 (runtime_freed after.1)

-- qjs_bun_set_promise_rejection_tracker
unfoldable pub set_promise_rejection_tracker : Option ℕ → Callbacks → Callbacks
set_promise_rejection_tracker tracker c = record c { tracker = tracker }

module _ {E : Type 0} where
  -- qjs_bun_set_module_loader
  unfoldable pub set_module_loader :
      Option ℕ → Option ℕ → Runtime E → Callbacks → Runtime E × Callbacks
  unfolding bun_state set_state
  set_module_loader loader normalizer rt c = elim (bun_state rt) [
    | none ↦ (rt, c)
    | some s ↦ (
      set_state (record s { module_loader = loader; module_normalizer = normalizer }) rt,
      record c { normalizer_set = is_some normalizer; loader_set = is_some loader },
    )
  ]

  -- The function that qjs_bun_module_loader_trampoline or qjs_bun_module_normalizer_trampoline
  -- calls, where the engine calls the trampoline: none for a call through NULL.
  unfoldable pub loader_called : Runtime E → Callbacks → Option (Option ℕ)
  unfolding bun_state
  loader_called rt c =
      if c.loader_set
      then elim (bun_state rt) [ none ↦ some none | some s ↦ some s.module_loader ]
      else none

  unfoldable pub normalizer_called : Runtime E → Callbacks → Option (Option ℕ)
  unfolding bun_state
  normalizer_called rt c =
      if c.normalizer_set
      then elim (bun_state rt) [ none ↦ some none | some s ↦ some s.module_normalizer ]
      else none
