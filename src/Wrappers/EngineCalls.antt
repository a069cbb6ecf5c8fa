-- ===== src/Wrappers/EngineCalls.antt =====
-- The engine's functions that the wrappers of src/native/quickjs_bridge.c, lines 697 to 821, call:
-- quickjs/quickjs.h and the internal ones of quickjs/quickjs.c. Texts, buffers and cells for results
-- are pointers; a `double` is its bit pattern.
use quickjs_bun.Prelude.{ℕ, ℤ, Bool, Option, List, [], ◌∷◌}
use quickjs_bun.Runtime.{Cmd, Runtime}
use quickjs_bun.Runtime.Values.{Value}

-- Those that give a value, which the caller owns.
pub data ValueCall : Type 0 where
  js_get_global_object : ValueCall
  js_throw_out_of_memory : ValueCall
  js_new_string_len : ℕ → ℕ → ValueCall
  js_new_atom_string : ℕ → ValueCall
  js_new_symbol : ℕ → ℤ → ValueCall
  js_new_bigint64 : ℤ → ValueCall
  js_new_big_uint64 : ℕ → ValueCall
  js_new_bigint128 : ℕ → ℕ → ValueCall
  js_string_to_bigint_err : Value → ValueCall
  js_new_object : ValueCall
  js_new_object_proto : Value → ValueCall
  js_new_object_class : ℤ → ValueCall
  js_new_object_proto_class : Value → ℤ → ValueCall
  js_new_array : ValueCall
  js_new_date : ℕ → ValueCall
  js_new_error : ValueCall
  js_new_promise_capability : ℕ → ValueCall
  js_promise_result : Value → ValueCall
  js_get_class_proto : ℕ → ValueCall
  js_atom_to_value : ℕ → ValueCall
  js_atom_to_string : ℕ → ValueCall
  js_parse_json2 : ℕ → ℕ → ℕ → ℤ → ValueCall
  js_read_object : ℕ → ℕ → ℤ → ValueCall
  js_new_array_buffer_copy : ℕ → ℕ → ValueCall
  js_get_typed_array_buffer : Value → ℕ → ℕ → ℕ → ValueCall
  js_get_import_meta : ℕ → ValueCall
  js_get_module_private_value : ℕ → ValueCall
  js_load_module : ℕ → ℕ → ValueCall
  js_new_typed_array : ℕ → ℕ → ℤ → ValueCall
  js_json_stringify : Value → Value → Value → ValueCall
  js_to_object : Value → ValueCall
  js_to_primitive : Value → ℤ → ValueCall
  js_to_string : Value → ValueCall
  js_to_property_key : Value → ValueCall
  js_get_property : Value → ℕ → ValueCall
  js_get_property_internal : Value → ℕ → Value → ℤ → ValueCall
  js_get_property_uint32 : Value → ℕ → ValueCall
  js_get_prototype : Value → ValueCall
  js_get_iterator : Value → ℤ → ValueCall
  js_iterator_next : Value → Value → ℕ → ValueCall
  js_eval_function_internal : Value → Value → ValueCall
  js_call : Value → Value → ℕ → ℕ → ValueCall
  js_invoke : Value → ℕ → ℕ → ℕ → ValueCall
  js_call_constructor : Value → ℕ → ℕ → ValueCall
  js_call_constructor2 : Value → Value → ℕ → ℕ → ValueCall
  js_get_module_namespace : ℕ → ValueCall

-- Those that give an `int`, an atom or a class id.
pub data IntCall : Type 0 where
  js_to_bigint128_sat : ℕ → ℕ → Value → IntCall
  js_this_date_value : ℕ → Value → IntCall
  js_promise_state : Value → IntCall
  js_get_class_id : Value → IntCall
  js_is_function : Value → IntCall
  js_is_constructor : Value → IntCall
  js_is_array : Value → IntCall
  js_is_error : Value → IntCall
  js_is_live_object : Value → IntCall
  js_strict_eq : Value → Value → IntCall
  js_same_value : Value → Value → IntCall
  js_same_value_zero : Value → Value → IntCall
  js_set_constructor_bit : Value → ℤ → IntCall
  js_set_constructor : Value → Value → IntCall
  js_set_module_private_value : ℕ → Value → IntCall
  js_resolve_module : Value → IntCall
  js_to_bool : Value → IntCall
  js_to_float64 : ℕ → Value → IntCall
  js_to_int32 : ℕ → Value → IntCall
  js_to_int32_sat : ℕ → Value → IntCall
  js_to_uint32 : ℕ → Value → IntCall
  js_to_int64 : ℕ → Value → IntCall
  js_to_int64_ext : ℕ → Value → IntCall
  js_to_index : ℕ → Value → IntCall
  js_to_bigint64 : ℕ → Value → IntCall
  js_is_instance_of : Value → Value → IntCall
  js_ordinary_is_instance_of : Value → Value → IntCall
  js_set_property : Value → ℕ → Value → IntCall
  js_set_property_internal : Value → ℕ → Value → Value → ℤ → IntCall
  js_set_property_uint32 : Value → ℕ → Value → IntCall
  js_set_property_int64 : Value → ℤ → Value → IntCall
  js_has_property : Value → ℕ → IntCall
  js_delete_property : Value → ℕ → ℤ → IntCall
  js_define_property : Value → ℕ → Value → Value → Value → ℤ → IntCall
  js_define_property_value : Value → ℕ → Value → ℤ → IntCall
  js_define_property_value_uint32 : Value → ℕ → Value → ℤ → IntCall
  js_define_property_get_set : Value → ℕ → Value → Value → ℤ → IntCall
  js_get_own_property : ℕ → Value → ℕ → IntCall
  js_get_own_property_names : ℕ → ℕ → Value → ℤ → IntCall
  js_set_prototype : Value → Value → IntCall
  js_is_extensible : Value → IntCall
  js_prevent_extensions : Value → IntCall
  js_iterator_close : Value → ℤ → IntCall
  js_set_module_export : ℕ → ℕ → Value → IntCall
  js_value_to_atom : Value → IntCall

-- Those that give a pointer.
pub data PointerCall : Type 0 where
  js_get_opaque : Value → ℕ → PointerCall
  js_get_opaque2 : Value → ℕ → PointerCall
  js_get_any_opaque : Value → ℕ → PointerCall
  js_to_cstring_len2 : ℕ → Value → ℤ → PointerCall
  js_write_object : ℕ → Value → ℤ → PointerCall
  js_write_object2 : ℕ → Value → ℤ → ℕ → ℕ → PointerCall
  js_get_array_buffer : ℕ → Value → PointerCall

-- Those that give nothing.
pub data UnitCall : Type 0 where
  js_free_value : Value → UnitCall
  js_set_class_proto : ℕ → Value → UnitCall
  js_set_is_html_dda : Value → UnitCall
  js_detach_array_buffer : Value → UnitCall
  js_set_opaque : Value → ℕ → UnitCall

-- The engine. The first argument is the context, where the function has one.
pub record Calls (E : Type 0) : Type 0 where
  pub value : ℕ → ValueCall → Cmd E Value
  pub int : ℕ → IntCall → Cmd E ℤ
  pub pointer : ℕ → PointerCall → Cmd E (Option ℕ)
  pub unit : ℕ → UnitCall → Cmd E (Unit {0})
  pub global_object : ℕ → Runtime E → Value
  pub func_created : ℕ → Runtime E → Bool

-- The arguments that a function takes over: it releases them, whether it succeeds or not.
unfoldable pub value_takes : ValueCall → List Value
value_takes (js_string_to_bigint_err v) = v ∷ []
value_takes (js_eval_function_internal fn global) = fn ∷ []
value_takes _ = []

unfoldable pub int_takes : IntCall → List Value
int_takes (js_set_module_private_value m v) = v ∷ []
int_takes (js_set_property obj atom v) = v ∷ []
int_takes (js_set_property_internal obj atom v receiver flags) = v ∷ []
int_takes (js_set_property_uint32 obj index v) = v ∷ []
int_takes (js_set_property_int64 obj index v) = v ∷ []
int_takes (js_define_property_value obj atom v flags) = v ∷ []
int_takes (js_define_property_value_uint32 obj index v flags) = v ∷ []
int_takes (js_define_property_get_set obj atom getter setter flags) = getter ∷ setter ∷ []
int_takes (js_set_module_export m name v) = v ∷ []
int_takes _ = []

unfoldable pub unit_takes : UnitCall → List Value
unit_takes (js_free_value v) = v ∷ []
unit_takes (js_set_class_proto class_id proto) = proto ∷ []
unit_takes _ = []
