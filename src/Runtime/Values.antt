-- ===== src/Runtime/Values.antt =====
-- quickjs/quickjs.h: a JSValue is a tag and a payload.
use quickjs_bun.Prelude.{ℕ, Bool, true, false}

-- The tags JS_TAG_*.
pub data Tag : Type 0 where
  big_int symbol string string_rope module_tag function_bytecode object : Tag
  int bool null undefined uninitialized catch_offset exception short_big_int float64 : Tag

pub record Value : Type 0 where
  pub tag : Tag
  pub payload : ℕ

-- JS_IsException
abbrev pub is_exception : Value → Bool
is_exception v = elim v.tag [ exception ↦ true | _ ↦ false ]

-- JS_EXCEPTION, JS_UNDEFINED and JS_UNINITIALIZED
abbrev pub js_exception : Value
js_exception = record { tag = exception; payload = 0 }

abbrev pub js_undefined : Value
js_undefined = record { tag = undefined; payload = 0 }

abbrev pub js_uninitialized : Value
js_uninitialized = record { tag = uninitialized; payload = 0 }
