-- ===== src/Kinds.antt =====
-- src/native/quickjs_bridge.c: the functions that turn a tag, an error or an intrinsic into a number
-- or back, `qjs_bun_type`, `qjs_bun_throw_error` and `qjs_bun_add_intrinsic`.
pub mod Codes
use Prim.Native.String.{String}
use quickjs_bun.Prelude.{
  ℕ, zero, suc, Bool, true, false, ℤ, pos, negsuc, is_negative, if◌then◌else◌,
}
use quickjs_bun.Runtime.{Cmd, pure, ◌>>=◌, ◌>>◌}
use quickjs_bun.Runtime.Values.{
  Tag, Value, undefined, null, bool, int, float64, big_int, short_big_int, string, string_rope,
  symbol, object,
}
use quickjs_bun.Engine.{Engine}
use quickjs_bun.Contexts.{hide_atomics}
use quickjs_bun.Wrappers.EngineCalls.{Calls, js_is_function, js_is_array, js_is_error}

-- The intrinsics of the engine, JS_AddIntrinsicBaseObjects and the others.
pub data Intrinsic : Type 0 where
  base_objects date eval string_normalize reg_exp reg_exp_compiler : Intrinsic
  json proxy map_set typed_arrays promise weak_ref : Intrinsic

-- JS_ThrowSyntaxError and the others.
pub data ErrorKind : Type 0 where
  syntax_error type_error reference_error range_error internal_error : ErrorKind

-- Whether an int is true in C.
unfoldable pub is_nonzero : ℤ → Bool
is_nonzero (pos zero) = false
is_nonzero _ = true

unfoldable pub error_type : Bool → ℤ
error_type true = pos 10
error_type false = pos 7

module _ {E : Type 0} (calls : Calls E) where
  -- The object's part, after JS_IsArray, and after JS_IsFunction.
  unfoldable pub array_type : ℕ → Value → Bool → Bool → Cmd E ℤ
  unfolding is_nonzero error_type
  array_type ctx v true is_array = pure (negsuc 0)
  array_type ctx v false true = pure (pos 9)
  array_type ctx v false false = do
    is_error ← calls.int ctx (js_is_error v)
    pure (error_type (is_nonzero is_error))

  unfoldable pub object_type : ℕ → Value → Bool → Cmd E ℤ
  unfolding is_nonzero array_type
  object_type ctx v true = pure (pos 8)
  object_type ctx v false = do
    is_array ← calls.int ctx (js_is_array v)
    array_type ctx v (is_negative is_array) (is_nonzero is_array)

  unfoldable pub tag_type : Tag → ℕ → Value → Cmd E ℤ
  unfolding object_type is_nonzero
  tag_type undefined ctx v = pure (pos 0)
  tag_type null ctx v = pure (pos 1)
  tag_type bool ctx v = pure (pos 2)
  tag_type int ctx v = pure (pos 3)
  tag_type float64 ctx v = pure (pos 3)
  tag_type big_int ctx v = pure (pos 4)
  tag_type short_big_int ctx v = pure (pos 4)
  tag_type string ctx v = pure (pos 5)
  tag_type string_rope ctx v = pure (pos 5)
  tag_type symbol ctx v = pure (pos 6)
  tag_type object ctx v = do
    is_function ← calls.int ctx (js_is_function v)
    object_type ctx v (is_nonzero is_function)
  tag_type _ ctx v = pure (negsuc 1)

  -- qjs_bun_type
  unfoldable pub type_of : ℕ → Value → Cmd E ℤ
  unfolding tag_type
  type_of ctx v = tag_type v.tag ctx v

module _ {E : Type 0} (throws : ErrorKind → ℕ → String → Cmd E Value) where
  unfoldable pub error_kind : ℤ → ErrorKind
  error_kind (negsuc n) = internal_error
  error_kind (pos zero) = syntax_error
  error_kind (pos (suc zero)) = type_error
  error_kind (pos (suc (suc zero))) = reference_error
  error_kind (pos (suc (suc (suc zero)))) = range_error
  error_kind (pos (suc (suc (suc (suc n))))) = internal_error

  -- qjs_bun_throw_error
  unfoldable pub throw_error : ℕ → ℤ → String → Cmd E (Unit {0})
  unfolding error_kind
  throw_error ctx kind message = throws (error_kind kind) ctx message >> pure tt

module _ {E : Type 0} (js : Engine E) (config_atomics : Bool) (add : Intrinsic → ℕ → Cmd E ℤ) where
  -- The typed arrays bring Atomics with them.
  unfoldable pub hidden_after : ℕ → ℤ → Cmd E ℤ
  hidden_after ctx ret =
      if is_negative ret then pure ret else (hide_atomics js config_atomics ctx >> pure ret)

  -- The switch.
  unfoldable pub add_case : ℕ → ℕ → Cmd E ℤ
  unfolding hidden_after
  add_case ctx zero = add base_objects ctx
  add_case ctx (suc zero) = add date ctx
  add_case ctx (suc (suc zero)) = add eval ctx
  add_case ctx (suc (suc (suc zero))) = add string_normalize ctx
  add_case ctx (suc (suc (suc (suc zero)))) = add reg_exp ctx
  add_case ctx (suc (suc (suc (suc (suc zero))))) = add reg_exp_compiler ctx >> pure (pos 0)
  add_case ctx (suc (suc (suc (suc (suc (suc zero)))))) = add json ctx
  add_case ctx (suc (suc (suc (suc (suc (suc (suc zero))))))) = add proxy ctx
  add_case ctx (suc (suc (suc (suc (suc (suc (suc (suc zero)))))))) = add map_set ctx
  add_case ctx (suc (suc (suc (suc (suc (suc (suc (suc (suc zero))))))))) =
      add typed_arrays ctx >>= hidden_after ctx
  add_case ctx (suc (suc (suc (suc (suc (suc (suc (suc (suc (suc zero)))))))))) = add promise ctx
  add_case ctx (suc (suc (suc (suc (suc (suc (suc (suc (suc (suc (suc zero))))))))))) =
      add weak_ref ctx
  add_case ctx _ = pure (negsuc 0)

  -- qjs_bun_add_intrinsic
  unfoldable pub add_intrinsic : ℕ → ℤ → Cmd E ℤ
  unfolding add_case
  add_intrinsic ctx (pos intrinsic) = add_case ctx intrinsic
  add_intrinsic ctx (negsuc n) = pure (negsuc 0)
