-- ===== src/Wrappers/Ledger.antt =====
-- What every wrapper does to the references that the host holds.
use quickjs_bun.Prelude.{
  ℕ, ℤ, ◌+◌, ◌≡◌, refl, sym, ap, ◌∙◌, Bool, true, false, Bool-cases, inl, inr, Option, none, some,
  List, [], ◌∷◌, pos, negsuc, ltb, ◌||◌, ◌==◌,
}
use quickjs_bun.Runtime.{Runtime}
use quickjs_bun.Runtime.Clock.{Ms}
use quickjs_bun.Runtime.Values.{Value}
use quickjs_bun.Engine.{Engine}
use quickjs_bun.Scope.{throw, get_exception}
use quickjs_bun.Ownership.{without, Resource, Ledger, ref, taken, released, ◌>>=◌, lift, dup_value}
use quickjs_bun.Ownership.Laws.{own, taken_lem, used_lem, released_lem, exception_own}
use quickjs_bun.Wrappers.EngineCalls.{
  Calls, value_takes, int_takes, unit_takes, js_new_string_len, js_set_module_export,
  js_get_class_id, js_eval_function_internal, js_get_module_namespace,
}
use quickjs_bun.Wrappers.Requests.{Request}
use quickjs_bun.Wrappers.{
  nothing, class_init_count, owned, value_call, int_call, unit_call, throw_call, taken_over, hands,
  guarded, qjs_out, qjs_ret, qjs_void, set_opaque_of, module_namespace, module_export,
  is_func_created, get_global_object, construct, handle,
}
use quickjs_bun.Wrappers.Lending.{
  lent, kept, held_with, with_value, with_none, with_answer, Lends, not_both, value_call-Lends,
  hands_int-Lends, hands_value-Lends, handed, qjs_out-Lends, lending,
}

module _ {E : Type 0} (js : Engine E) (calls : Calls E) (host_class_id ctx : ℕ) where
  construct-Lends :
      (vs : List Value) (fn : Value) (new_target : Option Value) (argc argv : ℕ)
      → Lends vs with_value (construct js calls host_class_id ctx fn new_target argc argv)
  unfolding construct
  construct-Lends vs fn none argc argv = value_call-Lends js calls host_class_id ctx vs _ refl
  construct-Lends vs fn (some new_target) argc argv =
      value_call-Lends js calls host_class_id ctx vs _ refl

  exception_taken : Lends [] with_value (lift get_exception >>= owned js calls host_class_id ctx)
  unfolding owned with_value held_with
  exception_taken = record { holds = λ rt l x n e. taken_lem x (ref _) l n e }

  thrown :
      (v : Value)
      → Lends
          (v ∷ [])
          with_value
          (hands js calls host_class_id ctx v (throw_call js calls host_class_id ctx v))
  unfolding throw throw_call hands with_value held_with
  thrown v = record {
    holds = λ rt l x n e.
        handed js calls host_class_id ctx v [] l x n e
        ∙ ap some (sym (exception_own (n + own x v) x (throw js ctx v rt).0 refl));
  }

  duplicated : (v : Value) → Lends {E = E} (v ∷ []) with_value (dup_value v)
  unfolding with_value held_with
  duplicated v = record {
    holds = λ rt l x n e. taken_lem x (ref v) _ (n + own x v) (used_lem x (ref v) l n e);
  }

  converted :
      (s len : ℕ)
      → Lends [] with_answer (handle js calls host_class_id ctx (Request.new_bigint_string s len))
  unfolding handle qjs_out value_call taken_over without owned with_answer with_value held_with
  converted s len = record {
    holds = λ rt l x n e.
        let made = calls.value ctx (js_new_string_len s len) rt in
        taken_lem x (ref _) _ n
          (released_lem x (ref made.0) (taken (ref made.0) l) n (taken_lem x (ref made.0) l n e));
  }

  opaque_set :
      (obj : Value) (opaque : ℕ) (class_id : ℤ)
      → Lends [] with_none (set_opaque_of js calls host_class_id ctx obj opaque class_id)
  unfolding set_opaque_of with_none
  opaque_set obj opaque (negsuc n) = record { holds = λ rt l x m e. e }
  opaque_set obj opaque (pos n) = elim (Bool-cases (ltb n class_init_count || n == host_class_id)) [
    | inl refused ↦ rw refused (record { holds = λ rt l x m e. e })
    | inr given ↦ rw given (record { holds = λ rt l x m e. e })
  ]

  ruleset special = (construct-Lends, exception_taken, thrown, duplicated, opaque_set)

  given_namespace :
      (m : ℕ) (created : Bool)
      → Lends [] with_value (module_namespace js calls host_class_id ctx m created)
  unfolding module_namespace owned with_value held_with
  given_namespace m true =
      value_call-Lends js calls host_class_id ctx [] (js_get_module_namespace m) refl
  given_namespace m false = record { holds = λ rt l x n e. taken_lem x (ref _) l n e }

  set_export :
      (m name : ℕ) (v : Value) (created : Bool)
      → Lends (v ∷ []) with_none (module_export js calls host_class_id ctx m name v created)
  unfolding module_export with_none
  set_export m name v true =
      hands_int-Lends js calls host_class_id ctx [] v (js_set_module_export m name v) refl
  set_export m name v false = record { holds = λ rt l x n e. e }

  run_function :
      (fn global : Value)
      → Lends (fn ∷ []) with_value (
          hands js calls host_class_id ctx fn
            (value_call js calls host_class_id ctx (js_eval_function_internal fn global)))
  unfolding value_takes
  run_function fn global =
      hands_value-Lends js calls host_class_id ctx [] fn (js_eval_function_internal fn global) refl

  run_global :
      (fn : Value) (timeout_ms : Ms)
      → Lends
          (fn ∷ [])
          with_answer
          (handle js calls host_class_id ctx (Request.eval_function fn timeout_ms))
  unfolding handle qjs_out guarded get_global_object with_answer with_value
  run_global fn timeout_ms = record { holds = λ rt l x n e. (run_function fn _).holds _ l x n e }

  opaque_given :
      (obj : Value) (opaque : ℕ)
      → Lends [] with_answer (handle js calls host_class_id ctx (Request.set_opaque obj opaque))
  unfolding handle qjs_ret int_call with_answer with_none
  opaque_given obj opaque = record {
    holds = λ rt l x n e.
        (opaque_set obj opaque (calls.int ctx (js_get_class_id obj) rt).0).holds _ l x n e;
  }

  atom_given :
      (v : Value)
      → Lends [] with_answer (handle js calls host_class_id ctx (Request.value_to_atom v))
  unfolding handle qjs_ret guarded int_call with_answer
  atom_given v = record { holds = λ rt l x n e. e }

  namespace_out :
      (m : ℕ)
      → Lends [] with_answer (handle js calls host_class_id ctx (Request.get_module_namespace m))
  unfolding handle qjs_out is_func_created with_answer with_value
  namespace_out m = record {
    holds = λ rt l x n e. (given_namespace m (calls.func_created m rt)).holds rt l x n e;
  }

  export_ret :
      (m name : ℕ) (v : Value)
      → Lends
          (v ∷ [])
          with_answer
          (handle js calls host_class_id ctx (Request.set_module_export m name v))
  unfolding handle qjs_ret is_func_created with_answer with_none
  export_ret m name v = record {
    holds = λ rt l x n e. (set_export m name v (calls.func_created m rt)).holds rt l x n e;
  }

  request-Lends :
      (request : Request)
      → kept request ≡ lent request
      → Lends (lent request) with_answer (handle js calls host_class_id ctx request)
  unfolding handle kept value_takes int_takes unit_takes
  request-Lends Request.get_exception same =
      qjs_out-Lends js calls host_class_id ctx [] _ exception_taken
  request-Lends (Request.new_bigint_string s len) same = converted s len
  request-Lends (Request.set_opaque obj opaque) same = opaque_given obj opaque
  request-Lends (Request.value_to_atom v) same = atom_given v
  request-Lends (Request.get_module_namespace m) same = namespace_out m
  request-Lends (Request.set_module_export m name v) same = export_ret m name v
  request-Lends (Request.eval_function fn timeout_ms) same = run_global fn timeout_ms
  request-Lends (Request.free_value v) same = absurd (not_both same)
  request-Lends (Request.free_value_rt v) same = absurd (not_both same)
  request-Lends request same = search (lending, special)

  freed :
      (v : Value) (l : Ledger) (x : Resource) (n : ℕ)
      → l x ≡ some (held_with x (v ∷ []) n)
      → released (ref v) l x ≡ some (with_answer x nothing (held_with x [] n))
  unfolding held_with with_answer
  freed v l x n e = released_lem x (ref v) l n e

  value_freed :
      (v : Value) (rt : Runtime E) (l : Ledger) (x : Resource) (n : ℕ)
      → l x ≡ some (held_with x (v ∷ []) n)
      → (handle js calls host_class_id ctx (Request.free_value v) rt l).2 x
        ≡ some (
            with_answer x
              (handle js calls host_class_id ctx (Request.free_value v) rt l).0
              (held_with x [] n))
  unfolding handle qjs_void unit_call taken_over without unit_takes
  value_freed v rt l x n e = freed v l x n e

  value_rt_freed :
      (v : Value) (rt : Runtime E) (l : Ledger) (x : Resource) (n : ℕ)
      → l x ≡ some (held_with x (v ∷ []) n)
      → (handle js calls host_class_id ctx (Request.free_value_rt v) rt l).2 x
        ≡ some (
            with_answer x
              (handle js calls host_class_id ctx (Request.free_value_rt v) rt l).0
              (held_with x [] n))
  unfolding handle qjs_void unit_call taken_over without unit_takes
  value_rt_freed v rt l x n e = freed v l x n e

  -- Where the host holds the values that a wrapper duplicates or frees, no reference is used or
  -- given back that is not held; afterwards the host holds as much as before and the result once;
  -- but for what it had freed.
  pub handle-lent :
      (request : Request) (rt : Runtime E) (l : Ledger) (x : Resource) (n : ℕ)
      → l x ≡ some (held_with x (lent request) n)
      → (handle js calls host_class_id ctx request rt l).2 x
        ≡ some (
            with_answer x
              (handle js calls host_class_id ctx request rt l).0
              (held_with x (kept request) n))
  unfolding kept lent
  handle-lent (Request.free_value v) rt l x n e = value_freed v rt l x n e
  handle-lent (Request.free_value_rt v) rt l x n e = value_rt_freed v rt l x n e
  handle-lent request rt l x n e = (request-Lends request refl).holds rt l x n e
