-- ===== src/Tests/Errors.antt =====
-- The theorem on the backtrace of an error that only the runtime holds, as its exception.
use quickjs_bun.Prelude.{◌+◌, ◌≡◌, ap, true, false, some, [], ◌∷◌, pos, arith}
use quickjs_bun.Runtime.{Runtime}
use quickjs_bun.Runtime.Values.{Value, object, string, js_undefined}
use quickjs_bun.Ownership.{Ledger, cell}
use quickjs_bun.Ownership.Laws.{own}
use quickjs_bun.Backtrace.{Tracing, Frame, build_backtrace}
use quickjs_bun.Backtrace.Balance.{build_backtrace-Leaves}
use quickjs_bun.Tests.Sample.{runtime}

abbrev error_value : Value
error_value = record { tag = object; payload = 5 }

-- An engine that gives up its exception when a property is defined
abbrev engine : Tracing (Unit {0})
engine = record {
  new_string = λ text rt. (record { tag = string; payload = 6 }, rt);
  define_property_value = λ obj field v rt. (pos 1, record rt { current_exception = js_undefined });
  name_of = λ f rt. (some (7, 102 ∷ []), rt);
  file_of = λ f rt. (some (8, 103 ∷ []), rt);
  position = λ f. (pos 3, pos 4);
  decimal = λ n. 51 ∷ [];
  realloc = λ size. true;
}

abbrev thrown : Runtime (Unit {0})
thrown = record runtime { current_exception = error_value }

abbrev frame : Frame
frame = record {
  backtrace_barrier = false;
  cur_func = error_value;
  has_bytecode = true;
  has_debug = true;
}

-- The error alone is held, once.
abbrev once : Ledger
once x = some (own x error_value)

build_backtrace-Leaves_example :
    let out =
      build_backtrace engine error_value
        (some (102 ∷ []))
        (pos 1)
        (pos 2)
        false
        (frame ∷ [])
        thrown
        once in
    out.2 (cell 5) ≡ some (0 + own (cell 5) out.1.current_exception)
build_backtrace-Leaves_example =
    build_backtrace-Leaves engine (cell 5) 0 error_value (some (102 ∷ [])) (pos 1) (pos 2) false
      (frame ∷ []) thrown once (omega arith) (ap some (omega arith))
