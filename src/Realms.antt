-- ===== src/Realms.antt =====
-- quickjs/quickjs.c: `JS_NewContextRaw`, which this repository made take a context off the list of
-- the garbage collector when it cannot be finished, `JS_NewContext` and `JS_FreeContext`.
pub mod Nodes
pub mod Freeing
pub mod Taking
pub mod Creation
use quickjs_bun.Prelude.{
  ℕ, ◌-◌, ◌*◌, Bool, true, false, Option, none, some, List, [], ◌∷◌, ◌++◌, replicate, ltb, ◌==◌,
  if◌then◌else◌,
}
use quickjs_bun.Runtime.Values.{Value, null}

-- The blocks that are live, and the nodes of `rt->gc_obj_list` and `rt->context_list`, each by the
-- address of the block that it lies in.
pub record Store : Type 0 where
  pub blocks : List ℕ
  pub gc_obj_list : List ℕ
  pub context_list : List ℕ

-- A JSContext: its reference count, and the block and the contents of `class_proto`.
pub record Context : Type 0 where
  pub ref_count : ℕ
  pub class_proto_at : ℕ
  pub class_proto : List Value

-- The intrinsics that JS_NewContextRaw and JS_NewContext add, in their order.
pub data Step : Type 0 where
  basic_objects : Step
  base_objects date eval string_normalize reg_exp json proxy map_set typed_arrays promise weak_ref :
      Step

-- `js_malloc_rt` and `js_mallocz_rt` give a block if there is memory; an intrinsic says whether it
-- fails; `free_parts` is what JS_FreeContext releases, the modules, the values and the shapes.
pub record Calls : Type 0 where
  pub size_of_context : ℕ
  pub size_of_value : ℕ
  pub malloc_rt : ℕ → Store → Option ℕ
  pub add : Step → ℕ → Context → Store → Bool × Context × Store
  pub free_parts : ℕ → Context → Store → Store

-- list_del, of the node in the block at `p`
unfoldable pub list_del : ℕ → List ℕ → List ℕ
list_del p [] = []
list_del p (q ∷ nodes) = if q == p then nodes else q ∷ list_del p nodes

unfoldable pub add_gc_object : ℕ → Store → Store
add_gc_object p s = record s { gc_obj_list = s.gc_obj_list ++ (p ∷ []) }

unfoldable pub remove_gc_object : ℕ → Store → Store
unfolding list_del
remove_gc_object p s = record s { gc_obj_list = list_del p s.gc_obj_list }

-- A block is taken from the allocator, and given back.
unfoldable pub take_block : ℕ → Store → Store
take_block p s = record s { blocks = p ∷ s.blocks }

unfoldable pub free_rt : ℕ → Store → Store
unfolding list_del
free_rt p s = record s { blocks = list_del p s.blocks }

-- The intrinsics of JS_NewContext
abbrev pub context_steps : List Step
context_steps =
    base_objects ∷ date ∷ eval ∷ string_normalize ∷ reg_exp ∷ json ∷ proxy ∷ map_set ∷ typed_arrays
    ∷ promise ∷ weak_ref ∷ []

-- What is made, if anything, and the context that is still in memory, if there is one.
abbrev pub Result : Type 0
Result = Option ℕ × Option (ℕ × Context) × Store

module _ (calls : Calls) where
  -- The end of JS_FreeContext, when nothing refers to the context
  abbrev pub last_freed : ℕ → Context → Store → Store
  last_freed p c s =
      let freed : Store = free_rt c.class_proto_at (calls.free_parts p c s) in
      free_rt p (remove_gc_object p (record freed { context_list = list_del p freed.context_list }))

  -- JS_FreeContext, with the context if something still refers to it
  unfoldable pub free_context : ℕ → Context → Store → Option (ℕ × Context) × Store
  unfolding remove_gc_object free_rt list_del
  free_context p c s =
      if ltb 1 c.ref_count
      then (some (p, record c { ref_count = c.ref_count - 1 }), s)
      else (none, last_freed p c s)

  -- The end of a step: `JS_FreeContext` and NULL if it failed.
  unfoldable pub checked : (ℕ → Context → Store → Result) → ℕ → Bool × Context × Store → Result
  unfolding free_context
  checked next p (true, c, s) = (none, (free_context p c s).0, (free_context p c s).1)
  checked next p (false, c, s) = next p c s

  -- The steps, up to the first that fails.
  unfoldable pub add_all : List Step → ℕ → Context → Store → Result
  unfolding checked
  add_all [] p c s = (some p, some (p, c), s)
  add_all (step ∷ steps) p c s = checked (add_all steps) p (calls.add step p c s)

  -- What JS_NewContext adds, if JS_NewContextRaw gave a context
  unfoldable pub with_intrinsics : Result → Result
  unfolding add_all
  with_intrinsics (some p, some (q, c), s) = add_all context_steps p c s
  with_intrinsics result = result

  module _ (class_count : ℕ) where
    -- The fields of a new context
    unfoldable pub initial : ℕ → Context
    initial q = record {
      ref_count = 1;
      class_proto_at = q;
      class_proto = replicate class_count (record { tag = null; payload = 0 });
    }

    -- From the allocation of `class_proto` on
    unfoldable pub with_protos : ℕ → Store → Option ℕ → Result
    unfolding add_all remove_gc_object free_rt take_block initial
    with_protos p s none = (none, none, free_rt p (remove_gc_object p s))
    with_protos p s (some q) =
        let taken : Store = take_block q s in
        add_all (basic_objects ∷ []) p (initial q)
          (record taken { context_list = taken.context_list ++ (p ∷ []) })

    unfoldable pub with_context : Store → Option ℕ → Result
    unfolding with_protos add_gc_object take_block
    with_context s none = (none, none, s)
    with_context s (some p) =
        let added : Store = add_gc_object p (take_block p s) in
        with_protos p added (calls.malloc_rt (calls.size_of_value * class_count) added)

    -- JS_NewContextRaw
    unfoldable pub new_context_raw : Store → Result
    unfolding with_context
    new_context_raw s = with_context s (calls.malloc_rt calls.size_of_context s)

    -- JS_NewContext
    unfoldable pub new_context : Store → Result
    unfolding with_intrinsics new_context_raw
    new_context s = with_intrinsics (new_context_raw s)
