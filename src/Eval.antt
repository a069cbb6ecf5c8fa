-- ===== src/Eval.antt =====
-- src/native/quickjs_bridge.c: `qjs_bun_compile_module` and `qjs_bun_eval`.
pub mod Balance
use quickjs_bun.Prelude.{
  ℕ, ◌+◌, ◌/◌, ◌%◌, Bool, true, false, not, ◌&&◌, Option, none, some, List, ◌==◌, if◌then◌else◌, ℤ,
  is_negative,
}
use Prim.Native.String.{String}
use quickjs_bun.Runtime.{Runtime}
use quickjs_bun.Runtime.Clock.{Ms}
use quickjs_bun.Runtime.Values.{Value, is_exception, js_exception}
use quickjs_bun.Engine.{Engine}
use quickjs_bun.Scope.{enter, leave}
use quickjs_bun.Ownership.{ref, Act, ◌>>=◌, ◌>>◌, done, lift, take, release}
use quickjs_bun.Modules.{ModuleApi, set_import_meta}

-- JS_EVAL_TYPE_MODULE, JS_EVAL_TYPE_MASK + 1 and JS_EVAL_FLAG_COMPILE_ONLY. Flags are below 2 ^ 31.
abbrev pub eval_type_module : ℕ
eval_type_module = 1

abbrev eval_types : ℕ
eval_types = 4

abbrev pub eval_flag_compile_only : ℕ
eval_flag_compile_only = 32

-- `(flags & JS_EVAL_TYPE_MASK) == JS_EVAL_TYPE_MODULE`
unfoldable pub is_module_eval : ℕ → Bool
is_module_eval flags = (flags % eval_types) == eval_type_module

-- `(flags & JS_EVAL_FLAG_COMPILE_ONLY) != 0`
unfoldable pub compile_only : ℕ → Bool
compile_only flags = (flags / eval_flag_compile_only % 2) == 1

-- `is_module ? flags | JS_EVAL_FLAG_COMPILE_ONLY : flags`
unfoldable pub eval_flags : ℕ → ℕ
unfolding is_module_eval compile_only
eval_flags flags =
    if is_module_eval flags && not (compile_only flags)
    then flags + eval_flag_compile_only
    else flags

module _ {E : Type 0} (api : ModuleApi E) (ctx : ℕ) where
  -- After qjs_bun_set_import_meta in qjs_bun_compile_module.
  unfoldable pub compiled : Value → Bool → Act E (Option ℕ)
  compiled value true = release (ref value) >> done none
  compiled value false = release (ref value) >> done (some value.payload)

  -- After JS_EvalInternal in qjs_bun_compile_module.
  unfoldable pub module_of : Value → Bool → Act E (Option ℕ)
  unfolding compiled
  module_of value true = done none
  module_of value false = do
    ret ← set_import_meta api ctx value false
    compiled value (is_negative ret)

  -- `ctx->global_obj`
  abbrev pub get_global : Act E Value
  get_global rt l = (api.global_object ctx rt, rt, l)

  -- qjs_bun_compile_module. The context keeps the module that it gives.
  unfoldable pub compile_module : List ℕ → String → Act E (Option ℕ)
  unfolding module_of
  compile_module source filename = do
    global ← get_global
    value ←
        lift
          (api.eval_internal ctx global source filename (eval_type_module + eval_flag_compile_only))
    take (ref value)
    module_of value (is_exception value)

  -- After qjs_bun_set_import_meta in qjs_bun_eval: whether it failed, and whether the module is only
  -- compiled.
  unfoldable pub run_module : Value → Bool → Bool → Act E Value
  run_module out true only = release (ref out) >> done js_exception
  run_module out false true = done out
  run_module out false false = do
    release (ref out)
    result ← lift (api.eval_function_internal ctx out)
    take (ref result)
    done result

  -- After JS_EvalInternal in qjs_bun_eval: whether `out` is a module.
  unfoldable pub finish_eval : ℕ → Value → Bool → Act E Value
  unfolding run_module
  finish_eval flags out true = do
    ret ← set_import_meta api ctx out true
    run_module out (is_negative ret) (compile_only flags)
  finish_eval flags out false = done out

  -- qjs_bun_eval. `this_val` is `none` for NULL.
  unfoldable pub eval : Engine E → Option Value → List ℕ → String → ℕ → Ms → Act E Value
  unfolding finish_eval
  eval js this_val source filename flags timeout_ms = do
    scope ← lift (enter timeout_ms)
    global ← get_global
    out ← lift (
        api.eval_internal ctx (elim this_val [ none ↦ global | some v ↦ v ]) source filename
          (eval_flags flags))
    take (ref out)
    result ← finish_eval flags out (is_module_eval flags && not (is_exception out))
    _ ← lift (leave js ctx scope (is_exception result))
    done result
