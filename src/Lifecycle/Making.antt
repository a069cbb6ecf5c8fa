-- ===== src/Lifecycle/Making.antt =====
-- What qjs_bun_new_runtime comes to, on each of its ways out.
use quickjs_bun.Prelude.{
  ℕ, suc, ◌+◌, ◌≡◌, refl, ap, ◌∙◌, Bool, true, false, Option, none, some, ℤ, eq→==, arith,
}
use quickjs_bun.Runtime.{State, Runtime, bridge, bun_state}
use quickjs_bun.Ownership.{Ledger, more}
use quickjs_bun.ClassTable.{ClassTable}
use quickjs_bun.ClassTable.Room.{IsValid, lookup}
use quickjs_bun.ClassTable.Registration.{
  registered, refused, Result, new_class-Result, class_of, name_of,
}
use quickjs_bun.Lifecycle.{
  Callbacks, Statics, Heap, initial_state, host_class, with_host_class, with_class, with_state,
  new_runtime,
}
use quickjs_bun.Lifecycle.Balance.{
  Has, Made, created, failed, IsBalanced, free_runtime-Has, recount, block_freed-Has,
  runtime_freed-Has, blocks_at, blocks_of, table_blocks,
}

-- What JS_NewRuntime gives, with a valid table of classes.
abbrev pub IsFresh : {E : Type 0} → Option (Runtime E × ClassTable) → Type 0
IsFresh none = Unit
IsFresh (some (rt, t)) = IsValid t

module _ {E : Type 0} (finalize : Callbacks → Option State → Heap → Option State × Heap)
    (balanced : IsBalanced finalize) (has_memory : ℕ → Bool) (found made : Option ℕ)
    (finalizer call : ℕ) where
  with_class-Made :
      (rt : Runtime E) (s : Statics) (h : Heap) (m n : ℕ) (t : ClassTable) (l : Ledger)
      (r : ℤ × ClassTable × Ledger)
      → Result has_memory
          (with_host_class s).host_class_id
          (host_class finalizer call)
          (name_of found made)
          t
          l
          r
      → Has (suc m) (suc n) h
      → Made finalize
          (host_class finalizer call)
          s
          m
          n
          (with_class has_memory found made finalizer call rt (with_host_class s) h r)
  unfolding with_class bun_state blocks_at blocks_of table_blocks
  with_class-Made rt s h m n t l (ret, classes, l') result has = elim result.outcome [
    | registered name e done small free classes_now names ↦
        let rt' : Runtime E = record rt { handler = bridge initial_state } in
        let id : ℕ = (with_host_class s).host_class_id in
        let held : Has (suc m) (blocks_at (bun_state rt') + n) h = recount (omega arith) has in
        let entry : lookup classes id ≡ class_of id name (host_class finalizer call) =
          classes_now id ∙ rw (eq→== id id refl) refl in
        rw done (
          created rt' classes name refl refl result.valid entry refl held
            (free_runtime-Has finalize balanced rt' h m n held))
    | refused reason done classes_now names ↦
        rw done (failed refl (runtime_freed-Has (block_freed-Has has)))
  ]

  with_state-Made :
      (allocated : Bool) (rt : Runtime E) (t : ClassTable) (l : Ledger) (s : Statics) (h : Heap)
      (m n : ℕ)
      → IsValid t
      → Has (suc m) n h
      → Made finalize
          (host_class finalizer call)
          s
          m
          n
          (with_state has_memory found made finalizer call allocated rt t l s h)
  unfolding with_state more
  with_state-Made false rt t l s h m n valid has = failed refl (runtime_freed-Has has)
  with_state-Made true rt t l s h m n valid has =
      let id : ℕ = (with_host_class s).host_class_id in
      with_class-Made rt s _ m n t l _
        (new_class-Result has_memory t id (host_class finalizer call) found made l valid)
        (record { runtimes_lem = has.runtimes_lem; blocks_lem = ap more has.blocks_lem })

  -- qjs_bun_new_runtime makes no runtime and leaves nothing behind, whichever step failed; or it makes
  -- one that has the bridge's state without a deadline, whose table of classes is valid and has the
  -- host's class with its finalizer and its call, and when qjs_bun_free_runtime has freed it, nothing
  -- is left behind either. What JS_NewRuntime makes has a valid table, and the host's finalizers free
  -- none of the bridge's blocks.
  pub new_runtime-Made :
      (allocated : Bool) (runtime : Option (Runtime E × ClassTable)) (l : Ledger) (s : Statics)
      (h : Heap) (m n : ℕ)
      → IsFresh runtime
      → Has m n h
      → Made finalize
          (host_class finalizer call)
          s
          m
          n
          (new_runtime has_memory found made finalizer call allocated runtime l s h)
  unfolding new_runtime more
  new_runtime-Made allocated none l s h m n fresh has = failed refl has
  new_runtime-Made allocated (some (rt, t)) l s h m n fresh has =
      with_state-Made allocated rt t l s _ m n fresh
        (record { runtimes_lem = ap more has.runtimes_lem; blocks_lem = has.blocks_lem })
