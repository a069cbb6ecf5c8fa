-- ===== src/Eval/Balance.antt =====
-- What `qjs_bun_compile_module` and `qjs_bun_eval` own when they return.
use quickjs_bun.Prelude.{
  ℕ, ◌+◌, ◌≡◌, refl, ap, ◌∙◌, Bool, true, false, not, ◌&&◌, Option, none, some, List, is_negative,
}
use Prim.Native.String.{String}
use quickjs_bun.Runtime.{Runtime}
use quickjs_bun.Runtime.Clock.{Ms}
use quickjs_bun.Runtime.Values.{Value, is_exception, js_exception}
use quickjs_bun.Engine.{Engine}
use quickjs_bun.Scope.{enter}
use quickjs_bun.Ownership.{Resource, Ledger, ref, taken, released}
use quickjs_bun.Ownership.Laws.{
  own, taken_lem, released_lem, exception-ref, exception_own, given_back,
}
use quickjs_bun.Modules.{ModuleApi, set_import_meta}
use quickjs_bun.Modules.Balance.{set_import_meta-own}
use quickjs_bun.Eval.{
  is_module_eval, compile_only, eval_flags, compiled, module_of, compile_module, run_module,
  finish_eval, eval,
}

module _ {E : Type 0} (api : ModuleApi E) (ctx : ℕ) where
  compiled-own :
      (value : Value) (failed : Bool) (rt : Runtime E) (l : Ledger) (x : Resource) (n : ℕ)
      → l x ≡ some (n + own x value)
      → (compiled api ctx value failed rt l).2 x ≡ some n
  unfolding compiled
  compiled-own value true rt l x n e = released_lem x (ref value) l n e
  compiled-own value false rt l x n e = released_lem x (ref value) l n e

  module_of-own :
      (value : Value) (failed : Bool) (rt : Runtime E) (l : Ledger) (x : Resource) (n : ℕ)
      → is_exception value ≡ failed
      → l x ≡ some (n + own x value)
      → (module_of api ctx value failed rt l).2 x ≡ some n
  unfolding module_of
  module_of-own value true rt l x n failed e = e ∙ ap some (exception_own n x value failed)
  module_of-own value false rt l x n fine e =
      let after = set_import_meta api ctx value false rt l in
      compiled-own value (is_negative after.0) after.1 after.2 x n
        (set_import_meta-own api ctx value false rt l x (n + own x value) e)

  -- On every way out `qjs_bun_compile_module` owns nothing more than before.
  compile_module-own :
      (source : List ℕ) (filename : String) (rt : Runtime E) (l : Ledger) (x : Resource) (n : ℕ)
      → l x ≡ some n
      → (compile_module api ctx source filename rt l).2 x ≡ some n
  unfolding compile_module
  compile_module-own source filename rt l x n e =
      let made = api.eval_internal ctx (api.global_object ctx rt) source filename 33 rt in
      module_of-own made.0 (is_exception made.0) made.1 (taken (ref made.0) l) x n refl
        (taken_lem x (ref made.0) l n e)

  run_module-own :
      (out : Value) (failed only : Bool) (rt : Runtime E) (l : Ledger) (x : Resource) (n : ℕ)
      → l x ≡ some (n + own x out)
      → (run_module api ctx out failed only rt l).2 x
        ≡ some (n + own x (run_module api ctx out failed only rt l).0)
  unfolding run_module
  run_module-own out true only rt l x n e =
      given_back out l x n js_exception e (exception-ref js_exception refl)
  run_module-own out false true rt l x n e = e
  run_module-own out false false rt l x n e =
      taken_lem x (ref (api.eval_function_internal ctx out rt).0) (released (ref out) l) n
        (released_lem x (ref out) l n e)

  finish_eval-own :
      (flags : ℕ) (out : Value) (module_value : Bool) (rt : Runtime E) (l : Ledger) (x : Resource)
      (n : ℕ)
      → l x ≡ some (n + own x out)
      → (finish_eval api ctx flags out module_value rt l).2 x
        ≡ some (n + own x (finish_eval api ctx flags out module_value rt l).0)
  unfolding finish_eval
  finish_eval-own flags out true rt l x n e =
      let after = set_import_meta api ctx out true rt l in
      run_module-own out (is_negative after.0) (compile_only flags) after.1 after.2 x n
        (set_import_meta-own api ctx out true rt l x (n + own x out) e)
  finish_eval-own flags out false rt l x n e = e

  -- On every way out, of scripts and of modules, run or only compiled, `qjs_bun_eval` owns its
  -- result once and nothing else more than before.
  eval-own :
      (js : Engine E) (this_val : Option Value) (source : List ℕ) (filename : String) (flags : ℕ)
      (timeout_ms : Ms) (rt : Runtime E) (l : Ledger) (x : Resource) (n : ℕ)
      → l x ≡ some n
      → (eval api ctx js this_val source filename flags timeout_ms rt l).2 x
        ≡ some (n + own x (eval api ctx js this_val source filename flags timeout_ms rt l).0)
  unfolding eval
  eval-own js this_val source filename flags timeout_ms rt l x n e =
      let entered : Runtime E = (enter timeout_ms rt).1 in
      let this : Value = elim this_val [ none ↦ api.global_object ctx entered | some v ↦ v ] in
      let out = api.eval_internal ctx this source filename (eval_flags flags) entered in
      finish_eval-own flags out.0 (is_module_eval flags && not (is_exception out.0)) out.1
        (taken (ref out.0) l) x n (taken_lem x (ref out.0) l n e)

  -- On every way out, of scripts and of modules, run or only compiled, `qjs_bun_eval` owns its
  -- result once and nothing else more than before, and `qjs_bun_compile_module` owns nothing more
  -- than before.
  pub eval-compile_module :
      (js : Engine E) (this_val : Option Value) (source : List ℕ) (filename : String) (flags : ℕ)
      (timeout_ms : Ms) (rt : Runtime E) (l : Ledger) (x : Resource) (n : ℕ)
      → l x ≡ some n
      → ((eval api ctx js this_val source filename flags timeout_ms rt l).2 x
          ≡ some (n + own x (eval api ctx js this_val source filename flags timeout_ms rt l).0))
        × ((compile_module api ctx source filename rt l).2 x ≡ some n)
  eval-compile_module js this_val source filename flags timeout_ms rt l x n e = (
    eval-own js this_val source filename flags timeout_ms rt l x n e,
    compile_module-own source filename rt l x n e,
  )
