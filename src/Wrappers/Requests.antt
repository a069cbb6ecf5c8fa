-- ===== src/Wrappers/Requests.antt =====
-- The wrappers of src/native/quickjs_bridge.c as the host's requests, under their names without
-- `qjs_bun_`, with their arguments but the context and the cell for the result.
use quickjs_bun.Prelude.{ℕ, ℤ, Option}
use quickjs_bun.Runtime.Values.{Value}
use quickjs_bun.Runtime.Clock.{Ms}

-- The requests.
pub data Request : Type 0 where
  get_exception : Request
  get_global : Request
  throw : Value → Request
  throw_out_of_memory : Request
  dup_value : Value → Request
  dup_value_rt : Value → Request
  new_string_len : ℕ → ℕ → Request
  new_atom_string : ℕ → Request
  new_symbol : ℕ → ℤ → Request
  new_bigint64 : ℤ → Request
  new_biguint64 : ℕ → Request
  new_bigint128 : ℕ → ℕ → Request
  new_bigint_string : ℕ → ℕ → Request
  to_bigint128 : ℕ → ℕ → Value → Request
  new_object : Request
  new_object_proto : Value → Request
  new_object_class : ℤ → Request
  new_object_proto_class : Value → ℤ → Request
  new_array : Request
  new_date : ℕ → Request
  date_value : ℕ → Value → Request
  new_error : Request
  new_promise : ℕ → Request
  promise_state : Value → Request
  promise_result : Value → Request
  get_class_proto : ℕ → Request
  get_class_id : Value → Request
  is_function : Value → Request
  is_constructor : Value → Request
  is_array : Value → Request
  is_error : Value → Request
  is_live_object : Value → Request
  strict_eq : Value → Value → Request
  same_value : Value → Value → Request
  same_value_zero : Value → Value → Request
  set_constructor_bit : Value → ℤ → Request
  set_constructor : Value → Value → Request
  get_opaque : Value → ℕ → Request
  get_opaque2 : Value → ℕ → Request
  get_any_opaque : Value → ℕ → Request
  atom_to_value : ℕ → Request
  atom_to_string : ℕ → Request
  to_cstring_len : ℕ → Value → ℤ → Request
  parse_json : ℕ → ℕ → ℕ → ℤ → Request
  read_object : ℕ → ℕ → ℤ → Request
  write_object : ℕ → Value → ℤ → Request
  write_object2 : ℕ → Value → ℤ → ℕ → ℕ → Request
  new_array_buffer_copy : ℕ → ℕ → Request
  get_array_buffer : ℕ → Value → Request
  get_typed_array_buffer : Value → ℕ → ℕ → ℕ → Request
  get_import_meta : ℕ → Request
  get_module_private_value : ℕ → Request
  set_module_private_value : ℕ → Value → Request
  resolve_module : Value → Request
  load_module : ℕ → ℕ → Request
  new_typed_array : ℕ → ℕ → ℤ → Request
  json_stringify : Value → Value → Value → Request
  to_object : Value → Request
  to_primitive : Value → ℤ → Request
  to_string : Value → Request
  to_property_key : Value → Request
  to_bool : Value → Request
  to_float64 : ℕ → Value → Request
  to_int32 : ℕ → Value → Request
  to_int32_sat : ℕ → Value → Request
  to_uint32 : ℕ → Value → Request
  to_int64 : ℕ → Value → Request
  to_int64_ext : ℕ → Value → Request
  to_index : ℕ → Value → Request
  to_bigint64 : ℕ → Value → Request
  is_instance_of : Value → Value → Request
  ordinary_is_instance_of : Value → Value → Request
  get_property : Value → ℕ → Request
  get_property_internal : Value → ℕ → Value → ℤ → Request
  get_property_u32 : Value → ℕ → Request
  set_property : Value → ℕ → Value → Request
  set_property_internal : Value → ℕ → Value → Value → ℤ → Request
  set_property_u32 : Value → ℕ → Value → Request
  set_property_i64 : Value → ℤ → Value → Request
  has_property : Value → ℕ → Request
  delete_property : Value → ℕ → ℤ → Request
  define_property : Value → ℕ → Value → Value → Value → ℤ → Request
  define_property_value : Value → ℕ → Value → ℤ → Request
  define_property_value_u32 : Value → ℕ → Value → ℤ → Request
  define_property_get_set : Value → ℕ → Value → Value → ℤ → Request
  get_own_property : ℕ → Value → ℕ → Request
  get_own_property_names : ℕ → ℕ → Value → ℤ → Request
  get_prototype : Value → Request
  set_prototype : Value → Value → Request
  is_extensible : Value → Request
  prevent_extensions : Value → Request
  get_iterator : Value → ℤ → Request
  iterator_next : Value → Value → ℕ → Request
  iterator_close : Value → ℤ → Request
  free_value : Value → Request
  free_value_rt : Value → Request
  set_class_proto : ℕ → Value → Request
  set_is_html_dda : Value → Request
  set_opaque : Value → ℕ → Request
  value_to_atom : Value → Request
  detach_array_buffer : Value → Request
  get_module_namespace : ℕ → Request
  set_module_export : ℕ → ℕ → Value → Request
  eval_function : Value → Ms → Request
  call : Value → Value → ℕ → ℕ → Ms → Request
  invoke : Value → ℕ → ℕ → ℕ → Ms → Request
  call_constructor : Value → Option Value → ℕ → ℕ → Ms → Request
