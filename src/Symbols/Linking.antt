-- ===== src/Symbols/Linking.antt =====
-- What qjs_bun_symbol finds, and that the host's names are all linked.
use Prim.Native.String.{String}
use text.Mathlib.Text.{◌==◌}
use text.Mathlib.TextEquality.{eq_iff}
use quickjs_bun.Prelude.{
  ℕ, ◌≡◌, refl, ap, ◌∙◌, Bool, true, false, ◌||◌, ◌&&◌, none, some, List, [], ◌∷◌, map,
  if◌then◌else◌, arith,
}
use quickjs_bun.Symbols.{exported, symbols, find, symbol, link, with_pointer}

-- The names that src/ffi.ts declares.
abbrev pub declared : List String
declared =
    "JS_NewRuntime" ∷ "JS_FreeRuntime" ∷ "qjs_bun_new_runtime" ∷ "qjs_bun_free_runtime"
    ∷ "JS_SetRuntimeInfo" ∷ "JS_SetMemoryLimit" ∷ "JS_SetGCThreshold" ∷ "JS_SetMaxStackSize"
    ∷ "JS_UpdateStackTop" ∷ "JS_RunGC" ∷ "JS_SetRuntimeOpaque" ∷ "JS_GetRuntimeOpaque"
    ∷ "JS_ComputeMemoryUsage" ∷ "qjs_bun_dump_memory_usage" ∷ "JS_SetCanBlock" ∷ "JS_SetStripInfo"
    ∷ "JS_GetStripInfo" ∷ "JS_IsJobPending" ∷ "qjs_bun_execute_pending_job" ∷ "JS_NewClassID"
    ∷ "JS_NewClass" ∷ "qjs_bun_new_class" ∷ "JS_IsRegisteredClass" ∷ "qjs_bun_set_module_loader"
    ∷ "qjs_bun_set_promise_rejection_tracker" ∷ "JS_SetSharedArrayBufferFunctions" ∷ "JS_FreeAtomRT"
    ∷ "qjs_bun_dup_value_rt" ∷ "qjs_bun_free_value_rt" ∷ "qjs_bun_is_live_object" ∷ "JS_NewContext"
    ∷ "JS_NewContextRaw" ∷ "JS_FreeContext" ∷ "JS_DupContext" ∷ "JS_GetRuntime"
    ∷ "qjs_bun_new_context" ∷ "qjs_bun_free_context" ∷ "JS_SetContextOpaque" ∷ "JS_GetContextOpaque"
    ∷ "qjs_bun_add_intrinsic" ∷ "JS_AddIntrinsicBaseObjects" ∷ "JS_AddIntrinsicDate"
    ∷ "JS_AddIntrinsicEval" ∷ "JS_AddIntrinsicStringNormalize" ∷ "JS_AddIntrinsicRegExpCompiler"
    ∷ "JS_AddIntrinsicRegExp" ∷ "JS_AddIntrinsicJSON" ∷ "JS_AddIntrinsicProxy"
    ∷ "JS_AddIntrinsicMapSet" ∷ "JS_AddIntrinsicTypedArrays" ∷ "JS_AddIntrinsicPromise"
    ∷ "JS_AddIntrinsicWeakRef" ∷ "qjs_bun_get_global" ∷ "qjs_bun_get_class_proto"
    ∷ "qjs_bun_set_class_proto" ∷ "JS_GetScriptOrModuleName" ∷ "qjs_bun_eval"
    ∷ "qjs_bun_eval_function" ∷ "qjs_bun_call" ∷ "qjs_bun_invoke" ∷ "qjs_bun_call_constructor"
    ∷ "JS_DetectModule" ∷ "qjs_bun_parse_json" ∷ "qjs_bun_json_stringify" ∷ "qjs_bun_read_object"
    ∷ "qjs_bun_write_object" ∷ "qjs_bun_write_object2" ∷ "qjs_bun_get_exception" ∷ "JS_HasException"
    ∷ "qjs_bun_throw" ∷ "qjs_bun_throw_error" ∷ "qjs_bun_throw_out_of_memory"
    ∷ "JS_SetUncatchableException" ∷ "qjs_bun_dup_value" ∷ "qjs_bun_free_value" ∷ "qjs_bun_type"
    ∷ "qjs_bun_get_class_id" ∷ "qjs_bun_new_string_len" ∷ "qjs_bun_to_cstring_copy"
    ∷ "qjs_bun_to_cstring_len" ∷ "JS_FreeCString" ∷ "qjs_bun_new_bigint64" ∷ "qjs_bun_new_biguint64"
    ∷ "qjs_bun_new_bigint128" ∷ "qjs_bun_new_bigint_string" ∷ "qjs_bun_to_bigint128"
    ∷ "qjs_bun_new_symbol" ∷ "qjs_bun_new_object" ∷ "qjs_bun_new_object_proto"
    ∷ "qjs_bun_new_object_class" ∷ "qjs_bun_new_object_proto_class" ∷ "qjs_bun_new_array"
    ∷ "qjs_bun_new_date" ∷ "qjs_bun_date_value" ∷ "qjs_bun_new_error" ∷ "qjs_bun_new_promise"
    ∷ "qjs_bun_promise_state" ∷ "qjs_bun_promise_result" ∷ "qjs_bun_new_host_function"
    ∷ "qjs_bun_enqueue_job" ∷ "qjs_bun_new_atom_string" ∷ "qjs_bun_to_object"
    ∷ "qjs_bun_to_primitive" ∷ "qjs_bun_to_string" ∷ "qjs_bun_to_property_key" ∷ "qjs_bun_to_bool"
    ∷ "qjs_bun_to_float64" ∷ "qjs_bun_to_int32" ∷ "qjs_bun_to_int32_sat" ∷ "qjs_bun_to_uint32"
    ∷ "qjs_bun_to_int64" ∷ "qjs_bun_to_int64_ext" ∷ "qjs_bun_to_index" ∷ "qjs_bun_to_bigint64"
    ∷ "qjs_bun_strict_eq" ∷ "qjs_bun_same_value" ∷ "qjs_bun_same_value_zero" ∷ "qjs_bun_is_function"
    ∷ "qjs_bun_is_constructor" ∷ "qjs_bun_is_array" ∷ "qjs_bun_is_error" ∷ "qjs_bun_is_instance_of"
    ∷ "qjs_bun_ordinary_is_instance_of" ∷ "qjs_bun_set_constructor_bit" ∷ "qjs_bun_set_constructor"
    ∷ "qjs_bun_set_is_html_dda" ∷ "qjs_bun_get_property" ∷ "qjs_bun_get_property_internal"
    ∷ "qjs_bun_get_data_property" ∷ "qjs_bun_get_property_u32" ∷ "qjs_bun_set_property"
    ∷ "qjs_bun_set_property_internal" ∷ "qjs_bun_set_property_u32" ∷ "qjs_bun_set_property_i64"
    ∷ "qjs_bun_has_property" ∷ "qjs_bun_delete_property" ∷ "qjs_bun_define_property"
    ∷ "qjs_bun_define_property_value" ∷ "qjs_bun_define_property_value_u32"
    ∷ "qjs_bun_define_property_get_set" ∷ "qjs_bun_get_own_property"
    ∷ "qjs_bun_get_own_property_names" ∷ "JS_FreePropertyEnum" ∷ "qjs_bun_own_keys"
    ∷ "qjs_bun_get_prototype" ∷ "qjs_bun_set_prototype" ∷ "qjs_bun_is_extensible"
    ∷ "qjs_bun_prevent_extensions" ∷ "JS_NewAtomLen" ∷ "JS_NewAtom" ∷ "JS_NewAtomUInt32"
    ∷ "JS_DupAtom" ∷ "JS_FreeAtom" ∷ "JS_AtomToCStringLen" ∷ "qjs_bun_atom_to_value"
    ∷ "qjs_bun_atom_to_string" ∷ "qjs_bun_value_to_atom" ∷ "qjs_bun_get_opaque"
    ∷ "qjs_bun_get_opaque2" ∷ "qjs_bun_get_any_opaque" ∷ "qjs_bun_set_opaque"
    ∷ "qjs_bun_new_array_buffer" ∷ "qjs_bun_new_array_buffer_copy" ∷ "qjs_bun_get_array_buffer"
    ∷ "qjs_bun_detach_array_buffer" ∷ "qjs_bun_new_typed_array" ∷ "qjs_bun_get_typed_array_buffer"
    ∷ "qjs_bun_get_iterator" ∷ "qjs_bun_iterator_next" ∷ "qjs_bun_iterator_close" ∷ "JS_NewCModule"
    ∷ "JS_AddModuleExport" ∷ "qjs_bun_set_module_export" ∷ "JS_GetModuleName"
    ∷ "qjs_bun_get_import_meta" ∷ "qjs_bun_get_module_namespace"
    ∷ "qjs_bun_get_module_private_value" ∷ "qjs_bun_set_module_private_value"
    ∷ "qjs_bun_resolve_module" ∷ "qjs_bun_load_module" ∷ "qjs_bun_compile_module" ∷ "qjs_bun_print"
    ∷ "qjs_bun_timeout_error" ∷ "qjs_bun_enter_scope" ∷ "qjs_bun_leave_scope" ∷ "js_malloc"
    ∷ "js_free" ∷ "js_malloc_rt" ∷ "js_free_rt" ∷ []

unfoldable pub is_in : String → List String → Bool
is_in name [] = false
is_in name (n ∷ names) = n == name || is_in name names

unfoldable pub are_in : List String → List String → Bool
are_in [] names = true
are_in (n ∷ ns) names = is_in n names && are_in ns names

module _ (address : String → ℕ) where
  find-symbols :
      (name : String) (names : List String)
      → find address name (symbols address names)
        ≡ (if is_in name names then some (address name) else none)
  unfolding find symbols is_in
  find-symbols name [] = refl
  find-symbols name (n ∷ names) = ground (arith, eq_iff n name, find-symbols name names)

  -- qjs_bun_symbol gives the address of the function of the name, and NULL for a name that is not
  -- in the table.
  symbol_lem :
      (name : String)
      → symbol address name ≡ (if is_in name exported then some (address name) else none)
  unfolding symbol
  symbol_lem name = find-symbols name exported

  link-are_in :
      (names : List String)
      → are_in names exported ≡ true
      → link address names ≡ some (map (λ name. (name, address name)) names)
  unfolding link are_in with_pointer
  link-are_in [] all = refl
  link-are_in (n ∷ ns) all =
      let present : is_in n exported ≡ true = ground (arith, all) in
      let others : are_in ns exported ≡ true = ground (arith, all) in
      let found : symbol address n ≡ some (address n) =
        symbol_lem n ∙ ap (λ b. if b then some (address n) else none) present in
      rw (found, link-are_in ns others, with_pointer) refl

declared_all : are_in declared exported ≡ true
unfolding are_in is_in exported
declared_all = refl

-- The host finds each of the functions that it declares, at the address of the function of that name,
-- and any other name gives NULL.
pub link-declared :
    (address : String → ℕ)
    → (link address declared ≡ some (map (λ name. (name, address name)) declared))
      × ((name : String)
          → symbol address name ≡ (if is_in name exported then some (address name) else none))
link-declared address = (link-are_in address declared declared_all, symbol_lem address)
