-- ===== src/Kinds/Codes.antt =====
-- That the host reads the bridge's codes as they are meant: the tables `types` of src/value.ts and
-- `intrinsics` of src/context.ts.
use mathlib.Core.Option
use Prim.Native.String.{String}
use text.Mathlib.Text.{◌==◌}
use quickjs_bun.Prelude.{
  ℕ, zero, suc, ◌≤◌, ◌≡◌, refl, Bool, true, false, Bool-cases, inl, inr, Option, none, some, List,
  [], ◌∷◌, ap, ℤ, pos, negsuc, is_negative, get_elem?, if◌then◌else◌, arith,
}
use quickjs_bun.Runtime.{Runtime, Cmd}
use quickjs_bun.Runtime.Values.{
  Tag, Value, undefined, null, bool, int, float64, big_int, short_big_int, string, string_rope,
  symbol, object,
}
use quickjs_bun.Engine.{Engine}
use quickjs_bun.Contexts.{hide_atomics}
use quickjs_bun.Wrappers.EngineCalls.{Calls, js_is_function, js_is_array, js_is_error}
use quickjs_bun.Kinds.{
  Intrinsic, is_nonzero, type_of, tag_type, object_type, array_type, error_type, add_intrinsic,
  add_case, hidden_after,
}

-- types
abbrev pub types : List String
types =
    "undefined" ∷ "null" ∷ "boolean" ∷ "number" ∷ "bigint" ∷ "string" ∷ "symbol" ∷ "object"
    ∷ "function" ∷ "array" ∷ "error" ∷ []

-- What JSValue's getter `type` comes to: the pending exception is thrown, a name, or a TypeError.
pub data TypeRead : Type 0 where
  throws_pending : TypeRead
  named : String → TypeRead
  unknown : TypeRead

unfoldable pub named_or_unknown : Option String → TypeRead
named_or_unknown none = unknown
named_or_unknown (some name) = named name

unfoldable pub read_type : ℤ → TypeRead
unfolding named_or_unknown
read_type (pos code) = named_or_unknown (get_elem? types code)
read_type (negsuc zero) = throws_pending
read_type (negsuc (suc n)) = unknown

-- What the engine answers about an object: whether it is a function, whether the test for an array
-- failed, whether it is an array, whether it is an error.
pub record Answers : Type 0 where
  pub is_function : Bool
  pub has_failed : Bool
  pub is_array : Bool
  pub is_error : Bool

-- The type that a value has in JavaScript, an object being a function, an array or an error first.
unfoldable pub of_object : Answers → TypeRead
of_object a =
    if a.is_function
    then named "function"
    else if a.has_failed
    then throws_pending
    else if a.is_array
    then named "array"
    else if a.is_error
    then named "error"
    else named "object"

unfoldable pub described : Tag → Answers → TypeRead
unfolding of_object
described undefined a = named "undefined"
described null a = named "null"
described bool a = named "boolean"
described int a = named "number"
described float64 a = named "number"
described big_int a = named "bigint"
described short_big_int a = named "bigint"
described string a = named "string"
described string_rope a = named "string"
described symbol a = named "symbol"
described object a = of_object a
described _ a = unknown

module _ {E : Type 0} (calls : Calls E) (ctx : ℕ) (v : Value) (rt : Runtime E) where
  unfoldable pub asked : Answers
  asked =
      let f = calls.int ctx (js_is_function v) rt in
      let a = calls.int ctx (js_is_array v) f.1 in
      let e = calls.int ctx (js_is_error v) a.1 in
      record {
        is_function = is_nonzero f.0;
        has_failed = is_negative a.0;
        is_array = is_nonzero a.0;
        is_error = is_nonzero e.0;
      }

module _ {E : Type 0} (calls : Calls E) (ctx : ℕ) (v : Value) where
  array_lem :
      (failed array : Bool) (rt : Runtime E)
      → read_type (array_type calls ctx v failed array rt).0
        ≡ of_object (record {
          is_function = false;
          has_failed = failed;
          is_array = array;
          is_error = is_nonzero (calls.int ctx (js_is_error v) rt).0;
        })
  unfolding read_type named_or_unknown array_type error_type of_object
  array_lem true array rt = refl
  array_lem false true rt = refl
  array_lem false false rt = elim (Bool-cases (is_nonzero (calls.int ctx (js_is_error v) rt).0)) [
    | inl one ↦ rw (one, error_type) refl
    | inr other ↦ rw (other, error_type) refl
  ]

  object_lem :
      (function : Bool) (rt : Runtime E)
      → let a = calls.int ctx (js_is_array v) rt in
        read_type (object_type calls ctx v function rt).0
        ≡ of_object (record {
          is_function = function;
          has_failed = is_negative a.0;
          is_array = is_nonzero a.0;
          is_error = is_nonzero (calls.int ctx (js_is_error v) a.1).0;
        })
  unfolding read_type named_or_unknown object_type of_object
  object_lem true rt = refl
  object_lem false rt = array_lem _ _ (calls.int ctx (js_is_array v) rt).1

  tag_lem :
      (t : Tag) (rt : Runtime E)
      → read_type (tag_type calls t ctx v rt).0 ≡ described t (asked calls ctx v rt)
  unfolding read_type named_or_unknown tag_type described asked
  tag_lem object rt = object_lem _ (calls.int ctx (js_is_function v) rt).1
  tag_lem _ rt = refl

  -- What the host reads of a value's code is the value's type: the name for its tag, for an object
  -- what the engine says that it is, and the pending exception where the engine cannot tell whether
  -- it is an array. A tag that no value of the host has is unknown.
  pub read_type-type_of :
      (rt : Runtime E)
      → read_type (type_of calls ctx v rt).0 ≡ described v.tag (asked calls ctx v rt)
  unfolding type_of
  read_type-type_of rt = tag_lem v.tag rt

-- intrinsics
abbrev pub intrinsics : List String
intrinsics =
    "base" ∷ "date" ∷ "eval" ∷ "stringNormalize" ∷ "regexp" ∷ "regexpCompiler" ∷ "json" ∷ "proxy"
    ∷ "mapSet" ∷ "typedArrays" ∷ "promise" ∷ "weakRef" ∷ []

-- Array.prototype.indexOf
unfoldable pub index_of : String → List String → Option ℕ
index_of name [] = none
index_of name (n ∷ names) = if n == name then some 0 else Option.map suc (index_of name names)

-- The name of an intrinsic in src/types.ts.
unfoldable pub name_of : Intrinsic → String
name_of Intrinsic.base_objects = "base"
name_of Intrinsic.date = "date"
name_of Intrinsic.eval = "eval"
name_of Intrinsic.string_normalize = "stringNormalize"
name_of Intrinsic.reg_exp = "regexp"
name_of Intrinsic.reg_exp_compiler = "regexpCompiler"
name_of Intrinsic.json = "json"
name_of Intrinsic.proxy = "proxy"
name_of Intrinsic.map_set = "mapSet"
name_of Intrinsic.typed_arrays = "typedArrays"
name_of Intrinsic.promise = "promise"
name_of Intrinsic.weak_ref = "weakRef"

module _ {E : Type 0} (js : Engine E) (config_atomics : Bool) (add : Intrinsic → ℕ → Cmd E ℤ) where
  -- The property Atomics is taken off the global object, where the engine has it.
  unfoldable pub without_atomics : Bool → ℕ → Runtime E → Runtime E
  without_atomics false ctx rt = rt
  without_atomics true ctx rt =
      let global = js.get_global_object ctx rt in
      let atom = js.new_atom ctx "Atomics" global.1 in
      let deleted = js.delete_property ctx global.0 atom.0 0 atom.1 in
      (js.free_value ctx global.0 (js.free_atom ctx atom.0 deleted.1).1).1

  -- The result of adding the typed arrays, which bring Atomics with them unless that fails.
  unfoldable pub when_added : ℤ → ℕ → Runtime E → ℤ × Runtime E
  unfolding without_atomics
  when_added (negsuc n) ctx rt = (negsuc n, rt)
  when_added (pos n) ctx rt = (pos n, without_atomics config_atomics ctx rt)

  -- What adding an intrinsic is meant to do: the engine's function of that name; the compiler of
  -- regular expressions cannot fail, and after the typed arrays Atomics is hidden.
  unfoldable pub added : Intrinsic → ℕ → Cmd E ℤ
  unfolding when_added
  added Intrinsic.reg_exp_compiler ctx rt = (pos 0, (add Intrinsic.reg_exp_compiler ctx rt).1)
  added Intrinsic.typed_arrays ctx rt =
      let r = add Intrinsic.typed_arrays ctx rt in when_added r.0 ctx r.1
  added intrinsic ctx rt = add intrinsic ctx rt

  hidden_lem :
      (config : Bool) (ctx : ℕ) (rt : Runtime E)
      → hide_atomics js config ctx rt ≡ (tt, without_atomics config ctx rt)
  unfolding hide_atomics without_atomics
  hidden_lem false ctx rt = refl
  hidden_lem true ctx rt = refl

  typed_arrays_lem :
      (r : ℤ) (ctx : ℕ) (rt : Runtime E)
      → hidden_after js config_atomics add ctx r rt ≡ when_added r ctx rt
  unfolding hidden_after when_added
  typed_arrays_lem (negsuc n) ctx rt = refl
  typed_arrays_lem (pos n) ctx rt = rw (hidden_lem config_atomics ctx rt) refl

  -- The bridge's call for the index that the host finds for a name.
  unfoldable pub add_named : String → ℕ → Runtime E → Option (ℤ × Runtime E)
  add_named name ctx rt =
      Option.map (λ index. add_intrinsic js config_atomics add ctx (pos index) rt)
        (index_of name intrinsics)

  known :
      (intrinsic : Intrinsic) (ctx : ℕ) (rt : Runtime E)
      → add_named (name_of intrinsic) ctx rt ≡ some (added intrinsic ctx rt)
  unfolding add_named add_intrinsic add_case index_of name_of added
  known Intrinsic.base_objects ctx rt = refl
  known Intrinsic.date ctx rt = refl
  known Intrinsic.eval ctx rt = refl
  known Intrinsic.string_normalize ctx rt = refl
  known Intrinsic.reg_exp ctx rt = refl
  known Intrinsic.reg_exp_compiler ctx rt = refl
  known Intrinsic.json ctx rt = refl
  known Intrinsic.proxy ctx rt = refl
  known Intrinsic.map_set ctx rt = refl
  known Intrinsic.typed_arrays ctx rt =
      let r = add Intrinsic.typed_arrays ctx rt in ap some (typed_arrays_lem r.0 ctx r.1)
  known Intrinsic.promise ctx rt = refl
  known Intrinsic.weak_ref ctx rt = refl

  beyond :
      (n ctx : ℕ) (rt : Runtime E)
      → 12 ≤ n
      → add_case js config_atomics add ctx n rt ≡ (negsuc 0, rt)
  unfolding add_case
  beyond zero ctx rt large = absurd (omega arith)
  beyond (suc zero) ctx rt large = absurd (omega arith)
  beyond (suc (suc zero)) ctx rt large = absurd (omega arith)
  beyond (suc (suc (suc zero))) ctx rt large = absurd (omega arith)
  beyond (suc (suc (suc (suc zero)))) ctx rt large = absurd (omega arith)
  beyond (suc (suc (suc (suc (suc zero))))) ctx rt large = absurd (omega arith)
  beyond (suc (suc (suc (suc (suc (suc zero)))))) ctx rt large = absurd (omega arith)
  beyond (suc (suc (suc (suc (suc (suc (suc zero))))))) ctx rt large = absurd (omega arith)
  beyond (suc (suc (suc (suc (suc (suc (suc (suc zero)))))))) ctx rt large = absurd (omega arith)
  beyond (suc (suc (suc (suc (suc (suc (suc (suc (suc zero))))))))) ctx rt large =
      absurd (omega arith)
  beyond (suc (suc (suc (suc (suc (suc (suc (suc (suc (suc zero)))))))))) ctx rt large =
      absurd (omega arith)
  beyond (suc (suc (suc (suc (suc (suc (suc (suc (suc (suc (suc zero))))))))))) ctx rt large =
      absurd (omega arith)
  beyond (suc (suc (suc (suc (suc (suc (suc (suc (suc (suc (suc (suc n)))))))))))) ctx rt large =
      refl

  -- Adding an intrinsic by the host's name for it runs the engine's function for just this intrinsic;
  -- with the typed arrays, unless they fail, the property Atomics is taken off the global object just
  -- after, where the engine has Atomics; and any index that the host has no name for is refused, and nothing
  -- happens.
  pub add_intrinsic-name_of :
      (ctx : ℕ) (rt : Runtime E)
      → ((intrinsic : Intrinsic)
          → add_named (name_of intrinsic) ctx rt ≡ some (added intrinsic ctx rt))
        × ((n : ℕ) → 12 ≤ n → add_intrinsic js config_atomics add ctx (pos n) rt ≡ (negsuc 0, rt))
        × ((n : ℕ) → add_intrinsic js config_atomics add ctx (negsuc n) rt ≡ (negsuc 0, rt))
  unfolding add_intrinsic add_case
  add_intrinsic-name_of ctx rt =
      (λ intrinsic. known intrinsic ctx rt, λ n large. beyond n ctx rt large, λ n. refl)
