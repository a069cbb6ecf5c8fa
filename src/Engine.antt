-- ===== src/Engine.antt =====
-- The engine of quickjs/ as src/native/quickjs_bridge.c sees it: the functions it calls, taken as a
-- parameter. Those that may run guest code are arguments of the functions that call them.
use quickjs_bun.Prelude.{ℕ, ◌≤◌, ◌≡◌, ◌∙◌, Option, ℤ, Bool}
use Prim.Native.String.{String}
use quickjs_bun.Runtime.{Cmd, Runtime, ◌>>=◌}
use quickjs_bun.Runtime.Values.{Value}

-- `malloc` and `realloc` say whether the C library's allocator gave a block. `new_class` is told
-- whether the class has a finalizer.
pub record Engine (E : Type 0) : Type 0 where
  pub new_context : Cmd E (Option ℕ)
  pub new_context_raw : Cmd E (Option ℕ)
  pub free_context : ℕ → Cmd E (Unit {0})
  pub malloc : ℕ → Cmd E Bool
  pub new_error : ℕ → Cmd E Value
  pub new_string : ℕ → String → Cmd E Value
  pub define_property_value : ℕ → Value → String → Value → ℕ → Cmd E ℤ
  pub free_value : ℕ → Value → Cmd E (Unit {0})
  pub get_global_object : ℕ → Cmd E Value
  pub new_atom : ℕ → String → Cmd E ℕ
  pub delete_property : ℕ → Value → ℕ → ℕ → Cmd E ℤ
  pub free_atom : ℕ → ℕ → Cmd E (Unit {0})
  pub throw_internal_error : ℕ → String → Cmd E Value
  pub realloc : ℕ → Cmd E Bool
  pub new_class : ℕ → String → Bool → Cmd E ℤ
  pub foreign_handler : ℕ → Cmd E Bool

-- A command that leaves the interrupt handler and the bridge's state alone.
abbrev pub Keeps : {E A : Type 0} → Cmd E A → Type 0
Keeps {E} m = (rt : Runtime E) → (m rt).1.handler ≡ rt.handler

module _ {E A B : Type 0} where
  pub Keeps->>= :
      (m : Cmd E A) (f : A → Cmd E B) → Keeps m → ((a : A) → Keeps (f a)) → Keeps (m >>= f)
  Keeps->>= m f h k rt = k (m rt).0 (m rt).1 ∙ h rt

-- What the bridge relies on: making and defining values and releasing them runs no host code that
-- calls back into the bridge; and raising an error polls nothing and does not turn the clock back.
pub record IsQuiet {E : Type 0} (js : Engine E) : Type 0 where
  pub new_context_keeps : Keeps js.new_context
  pub new_context_raw_keeps : Keeps js.new_context_raw
  pub free_context_keeps : (ctx : ℕ) → Keeps (js.free_context ctx)
  pub malloc_keeps : (size : ℕ) → Keeps (js.malloc size)
  pub new_error_keeps : (ctx : ℕ) → Keeps (js.new_error ctx)
  pub new_string_keeps : (ctx : ℕ) (s : String) → Keeps (js.new_string ctx s)
  pub define_keeps :
      (ctx : ℕ) (o : Value) (name : String) (v : Value) (flags : ℕ)
      → Keeps (js.define_property_value ctx o name v flags)
  pub free_value_keeps : (ctx : ℕ) (v : Value) → Keeps (js.free_value ctx v)
  pub get_global_keeps : (ctx : ℕ) → Keeps (js.get_global_object ctx)
  pub new_atom_keeps : (ctx : ℕ) (s : String) → Keeps (js.new_atom ctx s)
  pub delete_keeps :
      (ctx : ℕ) (o : Value) (atom flags : ℕ) → Keeps (js.delete_property ctx o atom flags)
  pub free_atom_keeps : (ctx atom : ℕ) → Keeps (js.free_atom ctx atom)
  pub throw_internal_keeps : (ctx : ℕ) (s : String) → Keeps (js.throw_internal_error ctx s)
  pub throw_internal_contexts :
      (ctx : ℕ) (s : String) (rt : Runtime E)
      → (js.throw_internal_error ctx s rt).1.context_list ≡ rt.context_list
  pub throw_internal_clock :
      (ctx : ℕ) (s : String) (rt : Runtime E)
      → (js.throw_internal_error ctx s rt).1.clock ≡ rt.clock
  pub throw_internal_reads :
      (ctx : ℕ) (s : String) (rt : Runtime E)
      → rt.reads ≤ (js.throw_internal_error ctx s rt).1.reads
  pub foreign_keeps : (f : ℕ) → Keeps (js.foreign_handler f)
  pub realloc_keeps : (size : ℕ) → Keeps (js.realloc size)
  pub new_class_keeps :
      (class_id : ℕ) (name : String) (finalized : Bool)
      → Keeps (js.new_class class_id name finalized)
