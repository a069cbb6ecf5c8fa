-- ===== src/Wrappers.antt =====
-- src/native/quickjs_bridge.c, lines 153 to 168 and 435 to 460, and 697 to 821: the wrappers that
-- pass the host's arguments to one function of the engine, with the macros that make them.
pub mod EngineCalls
pub mod Requests
pub mod Deadline
pub mod Lending
pub mod Ledger
use quickjs_bun.Prelude.{
  ℕ, ℤ, pos, negsuc, is_negative, Bool, true, false, ◌||◌, Option, none, some, ltb, ◌==◌, List, [],
  ◌∷◌, if◌then◌else◌,
}
use quickjs_bun.Runtime.{Runtime, Cmd}
use quickjs_bun.Runtime.Clock.{Ms}
use quickjs_bun.Runtime.Values.{Value, is_exception}
use quickjs_bun.Engine.{Engine}
use quickjs_bun.Contexts.{timeout}
use quickjs_bun.Scope.{enter, leave, throw as js_throw, get_exception as js_get_exception}
use quickjs_bun.Ownership.{
  without, ref, Act, ◌>>=◌, ◌>>◌, done, lift, take, release, dup_value as js_dup_value,
}
use EngineCalls.{
  value_takes, int_takes, unit_takes, Calls, ValueCall, IntCall, PointerCall, UnitCall,
  js_atom_to_string, js_atom_to_value, js_define_property, js_define_property_get_set,
  js_define_property_value, js_define_property_value_uint32, js_delete_property, js_get_any_opaque,
  js_get_array_buffer, js_get_class_id, js_get_class_proto, js_get_global_object,
  js_get_import_meta, js_get_iterator, js_get_module_private_value, js_get_opaque, js_get_opaque2,
  js_get_own_property, js_get_own_property_names, js_get_property, js_get_property_internal,
  js_get_property_uint32, js_get_prototype, js_get_typed_array_buffer, js_has_property, js_is_array,
  js_is_constructor, js_is_error, js_is_extensible, js_is_function, js_is_instance_of,
  js_is_live_object, js_iterator_close, js_iterator_next, js_json_stringify, js_load_module,
  js_new_array, js_new_array_buffer_copy, js_new_atom_string, js_new_big_uint64, js_new_bigint128,
  js_new_bigint64, js_new_date, js_new_error, js_new_object, js_new_object_class,
  js_new_object_proto, js_new_object_proto_class, js_new_promise_capability, js_new_string_len,
  js_new_symbol, js_new_typed_array, js_ordinary_is_instance_of, js_parse_json2,
  js_prevent_extensions, js_promise_result, js_promise_state, js_read_object, js_resolve_module,
  js_same_value, js_same_value_zero, js_set_constructor, js_set_constructor_bit,
  js_set_module_private_value, js_set_property, js_set_property_int64, js_set_property_internal,
  js_set_property_uint32, js_set_prototype, js_strict_eq, js_string_to_bigint_err,
  js_this_date_value, js_throw_out_of_memory, js_to_bigint128_sat, js_to_bigint64, js_to_bool,
  js_to_cstring_len2, js_to_float64, js_to_index, js_to_int32, js_to_int32_sat, js_to_int64,
  js_to_int64_ext, js_to_object, js_to_primitive, js_to_property_key, js_to_string, js_to_uint32,
  js_write_object, js_write_object2, js_eval_function_internal, js_call, js_invoke,
  js_call_constructor, js_call_constructor2, js_get_module_namespace, js_set_module_export,
  js_value_to_atom, js_free_value, js_set_class_proto, js_set_is_html_dda, js_detach_array_buffer,
  js_set_opaque,
}
use Requests.{
  Request, get_exception, get_global, throw, throw_out_of_memory, dup_value, dup_value_rt,
  new_string_len, new_atom_string, new_symbol, new_bigint64, new_biguint64, new_bigint128,
  new_bigint_string, to_bigint128, new_object, new_object_proto, new_object_class,
  new_object_proto_class, new_array, new_date, date_value, new_error, new_promise, promise_state,
  promise_result, get_class_proto, get_class_id, is_function, is_constructor, is_array, is_error,
  is_live_object, strict_eq, same_value, same_value_zero, set_constructor_bit, set_constructor,
  get_opaque, get_opaque2, get_any_opaque, atom_to_value, atom_to_string, to_cstring_len,
  parse_json, read_object, write_object, write_object2, new_array_buffer_copy, get_array_buffer,
  get_typed_array_buffer, get_import_meta, get_module_private_value, set_module_private_value,
  resolve_module, load_module, new_typed_array, json_stringify, to_object, to_primitive, to_string,
  to_property_key, to_bool, to_float64, to_int32, to_int32_sat, to_uint32, to_int64, to_int64_ext,
  to_index, to_bigint64, is_instance_of, ordinary_is_instance_of, get_property,
  get_property_internal, get_property_u32, set_property, set_property_internal, set_property_u32,
  set_property_i64, has_property, delete_property, define_property, define_property_value,
  define_property_value_u32, define_property_get_set, get_own_property, get_own_property_names,
  get_prototype, set_prototype, is_extensible, prevent_extensions, get_iterator, iterator_next,
  iterator_close, free_value, free_value_rt, set_class_proto, set_is_html_dda, set_opaque,
  value_to_atom, detach_array_buffer, get_module_namespace, set_module_export, eval_function, call,
  invoke, call_constructor,
}

-- What a wrapper gives the host.
pub data Answer : Type 0 where
  out : Value → Answer
  ret : ℤ → Answer
  address : Option ℕ → Answer
  nothing : Answer

-- JS_CLASS_INIT_COUNT
abbrev pub class_init_count : ℕ
class_init_count = 63

module _ {E : Type 0} (js : Engine E) (calls : Calls E) (host_class_id ctx : ℕ) where
  -- A value that the engine hands over.
  unfoldable pub owned : Value → Act E Value
  owned v = do take (ref v); done v

  -- A function of the engine releases what it takes over.
  unfoldable pub taken_over : List Value → Act E (Unit {0})
  unfolding without
  taken_over vs rt l = (tt, rt, without vs l)

  unfoldable pub value_call : ValueCall → Act E Value
  unfolding owned taken_over value_takes
  value_call c = do v ← lift (calls.value ctx c); taken_over (value_takes c); owned v

  unfoldable pub int_call : IntCall → Act E ℤ
  unfolding taken_over int_takes
  int_call c = do n ← lift (calls.int ctx c); taken_over (int_takes c); done n

  unfoldable pub pointer_call : PointerCall → Act E (Option ℕ)
  pointer_call c = lift (calls.pointer ctx c)

  unfoldable pub unit_call : UnitCall → Act E (Unit {0})
  unfolding taken_over unit_takes
  unit_call c = lift (calls.unit ctx c) >> taken_over (unit_takes c)

  -- JS_Throw, which takes over the value.
  unfoldable pub throw_call : Value → Act E Value
  throw_call v = do thrown ← lift (js_throw js ctx v); release (ref v); done thrown

  -- `JS_DupValue` of an argument, before the engine's function that takes it over.
  unfoldable pub hands : {A : Type 0} → Value → Act E A → Act E A
  hands v body = do _ ← js_dup_value v; body

  -- A function between qjs_bun_enter and qjs_bun_leave.
  unfoldable pub guarded : {A : Type 0} → (A → Bool) → Ms → Act E A → Act E A
  guarded fails limit body = do
    scope ← lift (enter limit)
    result ← body
    _ ← lift (leave js ctx scope (fails result))
    done result

  -- QJS_OUT
  unfoldable pub qjs_out : Act E Value → Act E Answer
  qjs_out body = do v ← body; done (out v)

  -- QJS_RET, for a number and for a pointer
  unfoldable pub qjs_ret : Act E ℤ → Act E Answer
  qjs_ret body = do n ← body; done (ret n)

  unfoldable pub qjs_pointer : Act E (Option ℕ) → Act E Answer
  qjs_pointer body = do p ← body; done (address p)

  unfoldable pub qjs_void : Act E (Unit {0}) → Act E Answer
  qjs_void body = do _ ← body; done nothing

  -- QJS_GUEST_OUT
  unfoldable pub guest_out : Act E Value → Act E Answer
  unfolding guarded qjs_out
  guest_out body = do limit ← lift (timeout ctx); qjs_out (guarded is_exception limit body)

  -- QJS_GUEST_RET
  unfoldable pub guest_ret : Act E ℤ → Act E Answer
  unfolding guarded qjs_ret
  guest_ret body = do limit ← lift (timeout ctx); qjs_ret (guarded is_negative limit body)

  -- `JS_ATOM_NULL`, with which JS_ValueToAtom fails
  unfoldable pub is_atom_null : ℤ → Bool
  is_atom_null (pos n) = n == 0
  is_atom_null (negsuc n) = false

  -- qjs_bun_set_opaque, after JS_GetClassID
  unfoldable pub set_opaque_of : Value → ℕ → ℤ → Act E ℤ
  unfolding unit_call
  set_opaque_of obj opaque (negsuc n) = done (negsuc 0)
  set_opaque_of obj opaque (pos class_id) =
      if ltb class_id class_init_count || class_id == host_class_id
      then done (negsuc 0)
      else (unit_call (js_set_opaque obj opaque) >> done (pos 0))

  -- The functions with a test on `func_created`, which is given.
  unfoldable pub module_namespace : ℕ → Bool → Act E Value
  unfolding value_call owned
  module_namespace module_def true = value_call (js_get_module_namespace module_def)
  module_namespace module_def false =
      lift (js.throw_internal_error ctx "module is not instantiated") >>= owned

  unfoldable pub module_export : ℕ → ℕ → Value → Bool → Act E ℤ
  unfolding int_call hands
  module_export module_def name v true = hands v (int_call (js_set_module_export module_def name v))
  module_export module_def name v false =
      lift (js.throw_internal_error ctx "module is not instantiated") >> done (negsuc 0)

  unfoldable pub is_func_created : ℕ → Act E Bool
  is_func_created module_def rt l = (calls.func_created module_def rt, rt, l)

  unfoldable pub get_global_object : Act E Value
  get_global_object rt l = (calls.global_object ctx rt, rt, l)

  unfoldable pub construct : Value → Option Value → ℕ → ℕ → Act E Value
  unfolding value_call
  construct fn none argc argv = value_call (js_call_constructor fn argc argv)
  construct fn (some new_target) argc argv =
      value_call (js_call_constructor2 fn new_target argc argv)

  -- Each wrapper.
  unfoldable pub handle : Request → Act E Answer
  handle get_exception = qjs_out (lift js_get_exception >>= owned)
  handle get_global = qjs_out (value_call js_get_global_object)
  handle (throw v) = qjs_out (hands v (throw_call v))
  handle throw_out_of_memory = qjs_out (value_call js_throw_out_of_memory)
  handle (dup_value v) = qjs_out (js_dup_value v)
  handle (dup_value_rt v) = qjs_out (js_dup_value v)
  handle (new_string_len s len) = qjs_out (value_call (js_new_string_len s len))
  handle (new_atom_string s) = qjs_out (value_call (js_new_atom_string s))
  handle (new_symbol description is_global) =
      qjs_out (value_call (js_new_symbol description is_global))
  handle (new_bigint64 v) = qjs_out (value_call (js_new_bigint64 v))
  handle (new_biguint64 v) = qjs_out (value_call (js_new_big_uint64 v))
  handle (new_bigint128 low high) = qjs_out (value_call (js_new_bigint128 low high))
  handle (new_bigint_string s len) = qjs_out (do
    string ← value_call (js_new_string_len s len)
    value_call (js_string_to_bigint_err string))
  handle (to_bigint128 low high v) = qjs_ret (int_call (js_to_bigint128_sat low high v))
  handle new_object = qjs_out (value_call js_new_object)
  handle (new_object_proto proto) = qjs_out (value_call (js_new_object_proto proto))
  handle (new_object_class class_id) = qjs_out (value_call (js_new_object_class class_id))
  handle (new_object_proto_class proto class_id) =
      qjs_out (value_call (js_new_object_proto_class proto class_id))
  handle new_array = qjs_out (value_call js_new_array)
  handle (new_date epoch_ms) = qjs_out (value_call (js_new_date epoch_ms))
  handle (date_value epoch_ms v) = qjs_ret (int_call (js_this_date_value epoch_ms v))
  handle new_error = qjs_out (value_call js_new_error)
  handle (new_promise resolving) = qjs_out (value_call (js_new_promise_capability resolving))
  handle (promise_state v) = qjs_ret (int_call (js_promise_state v))
  handle (promise_result v) = qjs_out (value_call (js_promise_result v))
  handle (get_class_proto class_id) = qjs_out (value_call (js_get_class_proto class_id))
  handle (get_class_id v) = qjs_ret (int_call (js_get_class_id v))
  handle (is_function v) = qjs_ret (int_call (js_is_function v))
  handle (is_constructor v) = qjs_ret (int_call (js_is_constructor v))
  handle (is_array v) = qjs_ret (int_call (js_is_array v))
  handle (is_error v) = qjs_ret (int_call (js_is_error v))
  handle (is_live_object v) = qjs_ret (int_call (js_is_live_object v))
  handle (strict_eq a b) = qjs_ret (int_call (js_strict_eq a b))
  handle (same_value a b) = qjs_ret (int_call (js_same_value a b))
  handle (same_value_zero a b) = qjs_ret (int_call (js_same_value_zero a b))
  handle (set_constructor_bit fn v) = qjs_ret (int_call (js_set_constructor_bit fn v))
  handle (set_constructor fn proto) = guest_ret (int_call (js_set_constructor fn proto))
  handle (get_opaque obj class_id) = qjs_pointer (pointer_call (js_get_opaque obj class_id))
  handle (get_opaque2 obj class_id) = qjs_pointer (pointer_call (js_get_opaque2 obj class_id))
  handle (get_any_opaque obj class_id) = qjs_pointer (pointer_call (js_get_any_opaque obj class_id))
  handle (atom_to_value atom) = qjs_out (value_call (js_atom_to_value atom))
  handle (atom_to_string atom) = qjs_out (value_call (js_atom_to_string atom))
  handle (to_cstring_len len v cesu8) = qjs_pointer (pointer_call (js_to_cstring_len2 len v cesu8))
  handle (parse_json s len filename flags) =
      qjs_out (value_call (js_parse_json2 s len filename flags))
  handle (read_object s len flags) = qjs_out (value_call (js_read_object s len flags))
  handle (write_object size v flags) = qjs_pointer (pointer_call (js_write_object size v flags))
  handle (write_object2 size v flags sab_tab sab_tab_len) =
      qjs_pointer (pointer_call (js_write_object2 size v flags sab_tab sab_tab_len))
  handle (new_array_buffer_copy buf len) = qjs_out (value_call (js_new_array_buffer_copy buf len))
  handle (get_array_buffer size obj) = qjs_pointer (pointer_call (js_get_array_buffer size obj))
  handle (get_typed_array_buffer obj byte_offset byte_length bytes_per_element) =
      qjs_out (value_call (js_get_typed_array_buffer obj byte_offset byte_length bytes_per_element))
  handle (get_import_meta module_def) = qjs_out (value_call (js_get_import_meta module_def))
  handle (get_module_private_value module_def) =
      qjs_out (value_call (js_get_module_private_value module_def))
  handle (set_module_private_value module_def v) =
      qjs_ret (hands v (int_call (js_set_module_private_value module_def v)))
  handle (resolve_module v) = qjs_ret (int_call (js_resolve_module v))
  handle (load_module basename filename) = guest_out (value_call (js_load_module basename filename))
  handle (new_typed_array argc argv kind) =
      guest_out (value_call (js_new_typed_array argc argv kind))
  handle (json_stringify v replacer space) =
      guest_out (value_call (js_json_stringify v replacer space))
  handle (to_object v) = guest_out (value_call (js_to_object v))
  handle (to_primitive v hint) = guest_out (value_call (js_to_primitive v hint))
  handle (to_string v) = guest_out (value_call (js_to_string v))
  handle (to_property_key v) = guest_out (value_call (js_to_property_key v))
  handle (to_bool v) = guest_ret (int_call (js_to_bool v))
  handle (to_float64 res v) = guest_ret (int_call (js_to_float64 res v))
  handle (to_int32 res v) = guest_ret (int_call (js_to_int32 res v))
  handle (to_int32_sat res v) = guest_ret (int_call (js_to_int32_sat res v))
  handle (to_uint32 res v) = guest_ret (int_call (js_to_uint32 res v))
  handle (to_int64 res v) = guest_ret (int_call (js_to_int64 res v))
  handle (to_int64_ext res v) = guest_ret (int_call (js_to_int64_ext res v))
  handle (to_index res v) = guest_ret (int_call (js_to_index res v))
  handle (to_bigint64 res v) = guest_ret (int_call (js_to_bigint64 res v))
  handle (is_instance_of v ctor) = guest_ret (int_call (js_is_instance_of v ctor))
  handle (ordinary_is_instance_of v ctor) = guest_ret (int_call (js_ordinary_is_instance_of v ctor))
  handle (get_property obj atom) = guest_out (value_call (js_get_property obj atom))
  handle (get_property_internal obj atom receiver throw_ref_error) =
      guest_out (value_call (js_get_property_internal obj atom receiver throw_ref_error))
  handle (get_property_u32 obj index) = guest_out (value_call (js_get_property_uint32 obj index))
  handle (set_property obj atom v) = guest_ret (hands v (int_call (js_set_property obj atom v)))
  handle (set_property_internal obj atom v receiver flags) =
      guest_ret (hands v (int_call (js_set_property_internal obj atom v receiver flags)))
  handle (set_property_u32 obj index v) =
      guest_ret (hands v (int_call (js_set_property_uint32 obj index v)))
  handle (set_property_i64 obj index v) =
      guest_ret (hands v (int_call (js_set_property_int64 obj index v)))
  handle (has_property obj atom) = guest_ret (int_call (js_has_property obj atom))
  handle (delete_property obj atom flags) = guest_ret (int_call (js_delete_property obj atom flags))
  handle (define_property obj atom v getter setter flags) =
      guest_ret (int_call (js_define_property obj atom v getter setter flags))
  handle (define_property_value obj atom v flags) =
      guest_ret (hands v (int_call (js_define_property_value obj atom v flags)))
  handle (define_property_value_u32 obj index v flags) =
      guest_ret (hands v (int_call (js_define_property_value_uint32 obj index v flags)))
  handle (define_property_get_set obj atom getter setter flags) = guest_ret (
      hands getter
        (hands setter (int_call (js_define_property_get_set obj atom getter setter flags))))
  handle (get_own_property desc obj atom) = guest_ret (int_call (js_get_own_property desc obj atom))
  handle (get_own_property_names tab len obj flags) =
      guest_ret (int_call (js_get_own_property_names tab len obj flags))
  handle (get_prototype obj) = guest_out (value_call (js_get_prototype obj))
  handle (set_prototype obj proto) = guest_ret (int_call (js_set_prototype obj proto))
  handle (is_extensible obj) = guest_ret (int_call (js_is_extensible obj))
  handle (prevent_extensions obj) = guest_ret (int_call (js_prevent_extensions obj))
  handle (get_iterator obj is_async) = guest_out (value_call (js_get_iterator obj is_async))
  handle (iterator_next iterator method done_ptr) =
      guest_out (value_call (js_iterator_next iterator method done_ptr))
  handle (iterator_close iterator is_exception_pending) =
      guest_ret (int_call (js_iterator_close iterator is_exception_pending))
  handle (free_value v) = qjs_void (unit_call (js_free_value v))
  handle (free_value_rt v) = qjs_void (unit_call (js_free_value v))
  handle (set_class_proto class_id proto) =
      qjs_void (hands proto (unit_call (js_set_class_proto class_id proto)))
  handle (set_is_html_dda obj) = qjs_void (unit_call (js_set_is_html_dda obj))
  handle (set_opaque obj opaque) =
      qjs_ret (do class_id ← int_call (js_get_class_id obj); set_opaque_of obj opaque class_id)
  handle (value_to_atom v) = do
    limit ← lift (timeout ctx)
    qjs_ret (guarded is_atom_null limit (int_call (js_value_to_atom v)))
  handle (detach_array_buffer obj) = qjs_void (unit_call (js_detach_array_buffer obj))
  handle (get_module_namespace module_def) =
      qjs_out (do created ← is_func_created module_def; module_namespace module_def created)
  handle (set_module_export module_def name v) =
      qjs_ret (do created ← is_func_created module_def; module_export module_def name v created)
  handle (eval_function fn timeout_ms) = qjs_out (
      guarded is_exception timeout_ms (do
        global ← get_global_object
        hands fn (value_call (js_eval_function_internal fn global))))
  handle (call fn this_val argc argv timeout_ms) =
      qjs_out (guarded is_exception timeout_ms (value_call (js_call fn this_val argc argv)))
  handle (invoke this_val atom argc argv timeout_ms) =
      qjs_out (guarded is_exception timeout_ms (value_call (js_invoke this_val atom argc argv)))
  handle (call_constructor fn new_target argc argv timeout_ms) =
      qjs_out (guarded is_exception timeout_ms (construct fn new_target argc argv))
