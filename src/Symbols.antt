-- ===== src/Symbols.antt =====
-- src/native/quickjs_bridge.c: QJS_BUN_SYMBOLS, the table of the functions that the library offers,
-- and `qjs_bun_symbol`; with the loop of src/ffi.ts that links them.
pub mod Linking
use Prim.Native.String.{String}
use mathlib.Core.Option
use text.Mathlib.Text.{◌==◌}
use quickjs_bun.Prelude.{ℕ, Option, none, some, List, [], ◌∷◌, map, if◌then◌else◌}

-- QJS_BUN_SYMBOLS
unfoldable pub exported : List String
exported =
    "JS_NewRuntime" ∷ "JS_FreeRuntime" ∷ "qjs_bun_new_runtime" ∷ "qjs_bun_free_runtime"
    ∷ "JS_SetRuntimeInfo" ∷ "JS_SetMemoryLimit" ∷ "JS_SetGCThreshold" ∷ "JS_SetMaxStackSize"
    ∷ "JS_UpdateStackTop" ∷ "JS_RunGC" ∷ "JS_SetRuntimeOpaque" ∷ "JS_GetRuntimeOpaque"
    ∷ "JS_ComputeMemoryUsage" ∷ "qjs_bun_dump_memory_usage" ∷ "JS_SetCanBlock" ∷ "JS_SetStripInfo"
    ∷ "JS_GetStripInfo" ∷ "JS_IsJobPending" ∷ "qjs_bun_execute_pending_job" ∷ "JS_NewClassID"
    ∷ "JS_NewClass" ∷ "qjs_bun_new_class" ∷ "JS_IsRegisteredClass" ∷ "qjs_bun_set_module_loader"
    ∷ "qjs_bun_set_promise_rejection_tracker" ∷ "JS_SetSharedArrayBufferFunctions" ∷ "JS_FreeAtomRT"
    ∷ "qjs_bun_dup_value_rt" ∷ "qjs_bun_free_value_rt" ∷ "qjs_bun_is_live_object" ∷ "JS_NewContext"
    ∷ "JS_NewContextRaw" ∷ "JS_FreeContext" ∷ "JS_DupContext" ∷ "JS_GetRuntime"
    ∷ "qjs_bun_new_context" ∷ "qjs_bun_free_context" ∷ "JS_SetContextOpaque" ∷ "JS_GetContextOpaque"
    ∷ "qjs_bun_add_intrinsic" ∷ "JS_AddIntrinsicBaseObjects" ∷ "JS_AddIntrinsicDate"
    ∷ "JS_AddIntrinsicEval" ∷ "JS_AddIntrinsicStringNormalize" ∷ "JS_AddIntrinsicRegExpCompiler"
    ∷ "JS_AddIntrinsicRegExp" ∷ "JS_AddIntrinsicJSON" ∷ "JS_AddIntrinsicProxy"
    ∷ "JS_AddIntrinsicMapSet" ∷ "JS_AddIntrinsicTypedArrays" ∷ "JS_AddIntrinsicPromise"
    ∷ "JS_AddIntrinsicWeakRef" ∷ "qjs_bun_get_global" ∷ "qjs_bun_get_class_proto"
    ∷ "qjs_bun_set_class_proto" ∷ "JS_GetScriptOrModuleName" ∷ "qjs_bun_eval"
    ∷ "qjs_bun_eval_function" ∷ "qjs_bun_call" ∷ "qjs_bun_invoke" ∷ "qjs_bun_call_constructor"
    ∷ "JS_DetectModule" ∷ "qjs_bun_parse_json" ∷ "qjs_bun_json_stringify" ∷ "qjs_bun_read_object"
    ∷ "qjs_bun_write_object" ∷ "qjs_bun_write_object2" ∷ "qjs_bun_get_exception" ∷ "JS_HasException"
    ∷ "qjs_bun_throw" ∷ "qjs_bun_throw_error" ∷ "qjs_bun_throw_out_of_memory"
    ∷ "JS_SetUncatchableException" ∷ "qjs_bun_dup_value" ∷ "qjs_bun_free_value" ∷ "qjs_bun_type"
    ∷ "qjs_bun_get_class_id" ∷ "qjs_bun_new_string_len" ∷ "qjs_bun_to_cstring_copy"
    ∷ "qjs_bun_to_cstring_len" ∷ "JS_FreeCString" ∷ "qjs_bun_new_bigint64" ∷ "qjs_bun_new_biguint64"
    ∷ "qjs_bun_new_bigint128" ∷ "qjs_bun_new_bigint_string" ∷ "qjs_bun_to_bigint128"
    ∷ "qjs_bun_new_symbol" ∷ "qjs_bun_new_object" ∷ "qjs_bun_new_object_proto"
    ∷ "qjs_bun_new_object_class" ∷ "qjs_bun_new_object_proto_class" ∷ "qjs_bun_new_array"
    ∷ "qjs_bun_new_date" ∷ "qjs_bun_date_value" ∷ "qjs_bun_new_error" ∷ "qjs_bun_new_promise"
    ∷ "qjs_bun_promise_state" ∷ "qjs_bun_promise_result" ∷ "qjs_bun_new_host_function"
    ∷ "qjs_bun_enqueue_job" ∷ "qjs_bun_new_atom_string" ∷ "qjs_bun_to_object"
    ∷ "qjs_bun_to_primitive" ∷ "qjs_bun_to_string" ∷ "qjs_bun_to_property_key" ∷ "qjs_bun_to_bool"
    ∷ "qjs_bun_to_float64" ∷ "qjs_bun_to_int32" ∷ "qjs_bun_to_int32_sat" ∷ "qjs_bun_to_uint32"
    ∷ "qjs_bun_to_int64" ∷ "qjs_bun_to_int64_ext" ∷ "qjs_bun_to_index" ∷ "qjs_bun_to_bigint64"
    ∷ "qjs_bun_strict_eq" ∷ "qjs_bun_same_value" ∷ "qjs_bun_same_value_zero" ∷ "qjs_bun_is_function"
    ∷ "qjs_bun_is_constructor" ∷ "qjs_bun_is_array" ∷ "qjs_bun_is_error" ∷ "qjs_bun_is_instance_of"
    ∷ "qjs_bun_ordinary_is_instance_of" ∷ "qjs_bun_set_constructor_bit" ∷ "qjs_bun_set_constructor"
    ∷ "qjs_bun_set_is_html_dda" ∷ "qjs_bun_get_property" ∷ "qjs_bun_get_property_internal"
    ∷ "qjs_bun_get_data_property" ∷ "qjs_bun_get_property_u32" ∷ "qjs_bun_set_property"
    ∷ "qjs_bun_set_property_internal" ∷ "qjs_bun_set_property_u32" ∷ "qjs_bun_set_property_i64"
    ∷ "qjs_bun_has_property" ∷ "qjs_bun_delete_property" ∷ "qjs_bun_define_property"
    ∷ "qjs_bun_define_property_value" ∷ "qjs_bun_define_property_value_u32"
    ∷ "qjs_bun_define_property_get_set" ∷ "qjs_bun_get_own_property"
    ∷ "qjs_bun_get_own_property_names" ∷ "JS_FreePropertyEnum" ∷ "qjs_bun_own_keys"
    ∷ "qjs_bun_get_prototype" ∷ "qjs_bun_set_prototype" ∷ "qjs_bun_is_extensible"
    ∷ "qjs_bun_prevent_extensions" ∷ "JS_NewAtomLen" ∷ "JS_NewAtom" ∷ "JS_NewAtomUInt32"
    ∷ "JS_DupAtom" ∷ "JS_FreeAtom" ∷ "JS_AtomToCStringLen" ∷ "qjs_bun_atom_to_value"
    ∷ "qjs_bun_atom_to_string" ∷ "qjs_bun_value_to_atom" ∷ "qjs_bun_get_opaque"
    ∷ "qjs_bun_get_opaque2" ∷ "qjs_bun_get_any_opaque" ∷ "qjs_bun_set_opaque"
    ∷ "qjs_bun_new_array_buffer" ∷ "qjs_bun_new_array_buffer_copy" ∷ "qjs_bun_get_array_buffer"
    ∷ "qjs_bun_detach_array_buffer" ∷ "qjs_bun_new_typed_array" ∷ "qjs_bun_get_typed_array_buffer"
    ∷ "qjs_bun_get_iterator" ∷ "qjs_bun_iterator_next" ∷ "qjs_bun_iterator_close" ∷ "JS_NewCModule"
    ∷ "JS_AddModuleExport" ∷ "qjs_bun_set_module_export" ∷ "JS_GetModuleName"
    ∷ "qjs_bun_get_import_meta" ∷ "qjs_bun_get_module_namespace"
    ∷ "qjs_bun_get_module_private_value" ∷ "qjs_bun_set_module_private_value"
    ∷ "qjs_bun_resolve_module" ∷ "qjs_bun_load_module" ∷ "qjs_bun_compile_module" ∷ "qjs_bun_print"
    ∷ "qjs_bun_timeout_error" ∷ "qjs_bun_enter_scope" ∷ "qjs_bun_leave_scope" ∷ "js_malloc"
    ∷ "js_free" ∷ "js_malloc_rt" ∷ "js_free_rt" ∷ []

module _ (address : String → ℕ) where
  -- qjs_bun_symbols
  unfoldable pub symbols : List String → List (String × ℕ)
  symbols names = map (λ name. (name, address name)) names

  unfoldable pub find : String → List (String × ℕ) → Option ℕ
  find name [] = none
  find name ((entry_name, ptr) ∷ rest) = if entry_name == name then some ptr else find name rest

  -- qjs_bun_symbol
  unfoldable pub symbol : String → Option ℕ
  symbol name = find name (symbols exported)

  unfoldable pub with_pointer :
      String → Option ℕ → Option (List (String × ℕ)) → Option (List (String × ℕ))
  with_pointer name none rest = none
  with_pointer name (some ptr) rest = Option.map (λ linked. (name, ptr) ∷ linked) rest

  -- The host's loop over the names that it needs, which stops at a name that is missing.
  unfoldable pub link : List String → Option (List (String × ℕ))
  unfolding with_pointer
  link [] = some []
  link (name ∷ names) = with_pointer name (symbol name) (link names)
