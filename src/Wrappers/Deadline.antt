-- ===== src/Wrappers/Deadline.antt =====
-- Every wrapper puts the deadline back.
use quickjs_bun.Prelude.{
  ℕ, ℤ, pos, negsuc, is_negative, Bool, true, false, ◌≡◌, refl, ◌∙◌, ap, Bool-cases, inl, inr,
  Option, none, some, ltb, ◌||◌, ◌==◌,
}
use quickjs_bun.Runtime.{Runtime}
use quickjs_bun.Runtime.Clock.{Ms}
use quickjs_bun.Runtime.Values.{Value, is_exception}
use quickjs_bun.Engine.{Engine, IsQuiet}
use quickjs_bun.Contexts.Registry.{deadline, deadline_of, timeout-limits}
use quickjs_bun.Scope.{bounded, get_exception}
use quickjs_bun.Scope.Deadline.{
  KeepsDeadline, get_exception-Keeps, bounded-KeepsDeadline, throw-Keeps,
}
use quickjs_bun.Ownership.{Act, Ledger, ◌>>=◌, lift, dup_value}
use quickjs_bun.Wrappers.EngineCalls.{
  Calls, ValueCall, IntCall, PointerCall, UnitCall, js_free_value, js_new_string_len,
  js_string_to_bigint_err, js_set_module_export, js_get_class_id, js_value_to_atom,
  js_eval_function_internal,
}
use quickjs_bun.Wrappers.Requests.{Request}
use quickjs_bun.Wrappers.{
  class_init_count, owned, value_call, int_call, pointer_call, unit_call, throw_call, hands,
  guarded, qjs_out, qjs_ret, qjs_pointer, qjs_void, guest_out, guest_ret, is_atom_null,
  set_opaque_of, module_namespace, module_export, is_func_created, get_global_object, construct,
  handle,
}

-- What guest code and the engine's own work do to the deadline: nothing, once they have returned.
pub record AreKeeping {E : Type 0} (calls : Calls E) : Type 0 where
  pub value : (ctx : ℕ) (c : ValueCall) → KeepsDeadline (calls.value ctx c)
  pub int : (ctx : ℕ) (c : IntCall) → KeepsDeadline (calls.int ctx c)
  pub pointer : (ctx : ℕ) (c : PointerCall) → KeepsDeadline (calls.pointer ctx c)
  pub unit : (ctx : ℕ) (c : UnitCall) → KeepsDeadline (calls.unit ctx c)

-- An act after which the deadline in force is what it was before.
abbrev pub ActKeeps : {E A : Type 0} → Act E A → Type 0
ActKeeps {E} m = (rt : Runtime E) (l : Ledger) → deadline (m rt l).1 ≡ deadline rt

module _ {E A B : Type 0} where
  ActKeeps->>= :
      (m : Act E A) (f : A → Act E B) → ActKeeps m → ((a : A) → ActKeeps (f a)) → ActKeeps (m >>= f)
  ActKeeps->>= m f h k rt l = k (m rt l).0 (m rt l).1 (m rt l).2 ∙ h rt l

module _ {E : Type 0} (js : Engine E) (quiet : IsQuiet js) (calls : Calls E)
    (keeping : AreKeeping calls) (host_class_id ctx : ℕ) where
  value_call-Keeps : (c : ValueCall) → ActKeeps (value_call js calls host_class_id ctx c)
  unfolding value_call
  value_call-Keeps c rt l = keeping.value ctx c rt

  int_call-Keeps : (c : IntCall) → ActKeeps (int_call js calls host_class_id ctx c)
  unfolding int_call
  int_call-Keeps c rt l = keeping.int ctx c rt

  pointer_call-Keeps : (c : PointerCall) → ActKeeps (pointer_call js calls host_class_id ctx c)
  unfolding pointer_call
  pointer_call-Keeps c rt l = keeping.pointer ctx c rt

  unit_call-Keeps : (c : UnitCall) → ActKeeps (unit_call js calls host_class_id ctx c)
  unfolding unit_call
  unit_call-Keeps c rt l = keeping.unit ctx c rt

  hands-Keeps :
      {A : Type 0} (v : Value) (body : Act E A)
      → ActKeeps body
      → ActKeeps (hands js calls host_class_id ctx v body)
  unfolding hands
  hands-Keeps v body keeps rt l = keeps rt _

  qjs_out-Keeps :
      (body : Act E Value) → ActKeeps body → ActKeeps (qjs_out js calls host_class_id ctx body)
  unfolding qjs_out
  qjs_out-Keeps body keeps rt l = keeps rt l

  qjs_ret-Keeps :
      (body : Act E ℤ) → ActKeeps body → ActKeeps (qjs_ret js calls host_class_id ctx body)
  unfolding qjs_ret
  qjs_ret-Keeps body keeps rt l = keeps rt l

  qjs_pointer-Keeps :
      (body : Act E (Option ℕ))
      → ActKeeps body
      → ActKeeps (qjs_pointer js calls host_class_id ctx body)
  unfolding qjs_pointer
  qjs_pointer-Keeps body keeps rt l = keeps rt l

  qjs_void-Keeps :
      (body : Act E (Unit {0}))
      → ActKeeps body
      → ActKeeps (qjs_void js calls host_class_id ctx body)
  unfolding qjs_void
  qjs_void-Keeps body keeps rt l = keeps rt l

  guarded-Keeps :
      {A : Type 0} (fails : A → Bool) (limit : Ms) (body : Act E A)
      → ActKeeps body
      → ActKeeps (guarded js calls host_class_id ctx fails limit body)
  unfolding guarded bounded
  guarded-Keeps fails limit body keeps rt l =
      bounded-KeepsDeadline js quiet fails ctx limit (λ rt'. ((body rt' l).0, (body rt' l).1))
        (λ rt'. keeps rt' l) rt

  guest_out-Keeps :
      (body : Act E Value) → ActKeeps body → ActKeeps (guest_out js calls host_class_id ctx body)
  unfolding guest_out qjs_out
  guest_out-Keeps body keeps rt l =
      guarded-Keeps is_exception _ body keeps _ l ∙ (timeout-limits ctx rt).2

  guest_ret-Keeps :
      (body : Act E ℤ) → ActKeeps body → ActKeeps (guest_ret js calls host_class_id ctx body)
  unfolding guest_ret qjs_ret
  guest_ret-Keeps body keeps rt l =
      guarded-Keeps is_negative _ body keeps _ l ∙ (timeout-limits ctx rt).2

  construct-Keeps :
      (fn : Value) (new_target : Option Value) (argc argv : ℕ)
      → ActKeeps (construct js calls host_class_id ctx fn new_target argc argv)
  unfolding construct
  construct-Keeps fn none argc argv = value_call-Keeps _
  construct-Keeps fn (some new_target) argc argv = value_call-Keeps _

  module_namespace-Keeps :
      (m : ℕ) (created : Bool) → ActKeeps (module_namespace js calls host_class_id ctx m created)
  unfolding module_namespace
  module_namespace-Keeps m true rt l = value_call-Keeps _ rt l
  module_namespace-Keeps m false rt l =
      ap deadline_of (quiet.throw_internal_keeps ctx "module is not instantiated" rt)

  module_export-Keeps :
      (m name : ℕ) (v : Value) (created : Bool)
      → ActKeeps (module_export js calls host_class_id ctx m name v created)
  unfolding module_export
  module_export-Keeps m name v true rt l =
      let call : Act E ℤ = int_call js calls host_class_id ctx (js_set_module_export m name v) in
      hands-Keeps v call (int_call-Keeps (js_set_module_export m name v)) rt l
  module_export-Keeps m name v false rt l =
      ap deadline_of (quiet.throw_internal_keeps ctx "module is not instantiated" rt)

  set_opaque_of-Keeps :
      (obj : Value) (opaque : ℕ) (class_id : ℤ)
      → ActKeeps (set_opaque_of js calls host_class_id ctx obj opaque class_id)
  unfolding set_opaque_of
  set_opaque_of-Keeps obj opaque (negsuc n) rt l = refl
  set_opaque_of-Keeps obj opaque (pos n) rt l =
      elim (Bool-cases (ltb n class_init_count || n == host_class_id)) [
        | inl refused ↦ rw refused refl
        | inr taken ↦ rw taken (unit_call-Keeps _ rt l)
      ]

  ruleset keeping_rules = (
    value_call-Keeps, int_call-Keeps, pointer_call-Keeps, unit_call-Keeps, hands-Keeps,
    qjs_out-Keeps, qjs_ret-Keeps, qjs_pointer-Keeps, qjs_void-Keeps, guarded-Keeps, guest_out-Keeps,
    guest_ret-Keeps, construct-Keeps,
  )

  exception_taken :
      ActKeeps (
        qjs_out js calls host_class_id ctx
          (lift get_exception >>= owned js calls host_class_id ctx))
  unfolding qjs_out owned
  exception_taken rt l = ap deadline_of (get_exception-Keeps js quiet rt)

  thrown : (v : Value) → ActKeeps (throw_call js calls host_class_id ctx v)
  unfolding throw_call
  thrown v rt l = ap deadline_of (throw-Keeps js quiet ctx v rt)

  duplicated : (v : Value) → ActKeeps (qjs_out js calls host_class_id ctx (dup_value v))
  unfolding qjs_out
  duplicated v rt l = refl

  freed :
      (v : Value)
      → ActKeeps (
          qjs_void js calls host_class_id ctx
            (unit_call js calls host_class_id ctx (js_free_value v)))
  unfolding qjs_void
  freed v rt l = unit_call-Keeps (js_free_value v) rt _

  converted :
      (s len : ℕ) → ActKeeps (handle js calls host_class_id ctx (Request.new_bigint_string s len))
  unfolding handle qjs_out
  converted s len rt l =
      let made = value_call js calls host_class_id ctx (js_new_string_len s len) rt l in
      value_call-Keeps (js_string_to_bigint_err made.0) made.1 made.2
      ∙ value_call-Keeps (js_new_string_len s len) rt l

  global_then :
      (fn : Value)
      → ActKeeps (
          get_global_object js calls host_class_id ctx >>= λ global.
          hands js calls host_class_id ctx fn
            (value_call js calls host_class_id ctx (js_eval_function_internal fn global)))
  unfolding get_global_object
  global_then fn rt l =
      hands-Keeps fn _
        (value_call-Keeps (js_eval_function_internal fn (calls.global_object ctx rt))) rt l

  opaque_set :
      (obj : Value) (opaque : ℕ)
      → ActKeeps (handle js calls host_class_id ctx (Request.set_opaque obj opaque))
  unfolding handle qjs_ret
  opaque_set obj opaque rt l =
      let found = int_call js calls host_class_id ctx (js_get_class_id obj) rt l in
      set_opaque_of-Keeps obj opaque found.0 found.1 found.2
      ∙ int_call-Keeps (js_get_class_id obj) rt l

  atom_made : (v : Value) → ActKeeps (handle js calls host_class_id ctx (Request.value_to_atom v))
  unfolding handle qjs_ret
  atom_made v rt l =
      guarded-Keeps (is_atom_null js calls host_class_id ctx) _ _
        (int_call-Keeps (js_value_to_atom v)) _ l
      ∙ (timeout-limits ctx rt).2

  namespace_given :
      (m : ℕ) → ActKeeps (handle js calls host_class_id ctx (Request.get_module_namespace m))
  unfolding handle qjs_out is_func_created
  namespace_given m rt l = module_namespace-Keeps m (calls.func_created m rt) rt l

  export_set :
      (m name : ℕ) (v : Value)
      → ActKeeps (handle js calls host_class_id ctx (Request.set_module_export m name v))
  unfolding handle qjs_ret is_func_created
  export_set m name v rt l = module_export-Keeps m name v (calls.func_created m rt) rt l

  function_run :
      (fn : Value) (timeout_ms : Ms)
      → ActKeeps (handle js calls host_class_id ctx (Request.eval_function fn timeout_ms))
  unfolding handle qjs_out
  function_run fn timeout_ms rt l =
      guarded-Keeps is_exception timeout_ms
        (get_global_object js calls host_class_id ctx >>= λ global.
          hands js calls host_class_id ctx fn
            (value_call js calls host_class_id ctx (js_eval_function_internal fn global)))
        (global_then fn) rt l

  handled : (request : Request) → ActKeeps (handle js calls host_class_id ctx request)
  unfolding handle
  handled Request.get_exception = exception_taken
  handled (Request.throw v) = qjs_out-Keeps _ (hands-Keeps v _ (thrown v))
  handled (Request.dup_value v) = duplicated v
  handled (Request.dup_value_rt v) = duplicated v
  handled (Request.new_bigint_string s len) = converted s len
  handled (Request.free_value v) = freed v
  handled (Request.free_value_rt v) = freed v
  handled (Request.set_opaque obj opaque) = opaque_set obj opaque
  handled (Request.value_to_atom v) = atom_made v
  handled (Request.get_module_namespace m) = namespace_given m
  handled (Request.set_module_export m name v) = export_set m name v
  handled (Request.eval_function fn timeout_ms) = function_run fn timeout_ms
  handled request = search keeping_rules

  -- Whatever wrapper the host calls, the deadline in force is afterwards what it was before, if the
  -- engine's functions leave it so.
  pub handle-Keeps :
      (request : Request) (rt : Runtime E) (l : Ledger)
      → deadline (handle js calls host_class_id ctx request rt l).1 ≡ deadline rt
  handle-Keeps request = handled request
