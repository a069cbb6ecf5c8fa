-- ===== src/Tests/Sample.antt =====
-- A small engine, and states of the bridge under it.
use quickjs_bun.Prelude.{ℕ, ◌*◌, refl, true, false, none, some, [], ◌∷◌, pos, arith}
use quickjs_bun.Runtime.{State, Runtime, bridge}
use quickjs_bun.Runtime.Values.{Value, object, js_uninitialized, js_exception}
use quickjs_bun.Runtime.Clock.{ms, infinity}
use quickjs_bun.Engine.{Engine, IsQuiet}

abbrev pub value : ℕ → Value
value n = record { tag = object; payload = n }

-- An engine whose functions succeed and change nothing that the bridge looks at.
abbrev pub js : Engine (Unit {0})
js = record {
  new_context = λ rt. (some 9, rt);
  new_context_raw = λ rt. (some 9, rt);
  free_context = λ ctx rt. (tt, rt);
  malloc = λ size rt. (true, rt);
  new_error = λ ctx rt. (value 77, rt);
  new_string = λ ctx s rt. (value 78, rt);
  define_property_value = λ ctx o name v flags rt. (pos 1, rt);
  free_value = λ ctx v rt. (tt, rt);
  get_global_object = λ ctx rt. (value 1, rt);
  new_atom = λ ctx s rt. (5, rt);
  delete_property = λ ctx o atom flags rt. (pos 1, rt);
  free_atom = λ ctx atom rt. (tt, rt);
  throw_internal_error = λ ctx s rt. (js_exception, record rt { current_exception = value 66 });
  realloc = λ size rt. (true, rt);
  new_class = λ class_id name finalized rt. (pos 0, rt);
  foreign_handler = λ f rt. (false, rt);
}

pub js-IsQuiet : IsQuiet js
js-IsQuiet = record {
  new_context_keeps = λ rt. refl;
  new_context_raw_keeps = λ rt. refl;
  free_context_keeps = λ ctx rt. refl;
  malloc_keeps = λ size rt. refl;
  new_error_keeps = λ ctx rt. refl;
  new_string_keeps = λ ctx s rt. refl;
  define_keeps = λ ctx o name v flags rt. refl;
  free_value_keeps = λ ctx v rt. refl;
  get_global_keeps = λ ctx rt. refl;
  new_atom_keeps = λ ctx s rt. refl;
  delete_keeps = λ ctx o atom flags rt. refl;
  free_atom_keeps = λ ctx atom rt. refl;
  throw_internal_keeps = λ ctx s rt. refl;
  throw_internal_contexts = λ ctx s rt. refl;
  throw_internal_clock = λ ctx s rt. refl;
  throw_internal_reads = λ ctx s rt. omega arith;
  foreign_keeps = λ f rt. refl;
  realloc_keeps = λ size rt. refl;
  new_class_keeps = λ class_id name finalized rt. refl;
}

-- Two contexts, 7 with 100 units and 8 with 50, and no deadline.
abbrev pub state : State
state = record {
  deadline_ms = infinity;
  contexts = record { ctx = 7; timeout_ms = ms 100 } ∷ record { ctx = 8; timeout_ms = ms 50 } ∷ [];
  finalizers = [];
  finalizer_count = 0;
  module_loader = none;
  module_normalizer = none;
}

-- The clock goes on by 10 with each reading.
abbrev pub runtime : Runtime (Unit {0})
runtime = record {
  handler = bridge state;
  context_list =
      record { address = 7; interrupt_counter = 3 }
      ∷ record { address = 8; interrupt_counter = 10000 }
      ∷ [];
  current_exception = js_uninitialized;
  current_exception_is_uncatchable = false;
  clock = λ i. 10 * i;
  reads = 4;
  engine = tt;
}

-- The same under a deadline that has passed, with context 7 about to poll.
abbrev pub late_state : State
late_state = record state { deadline_ms = ms 30 }

abbrev pub late : Runtime (Unit {0})
late = record runtime {
  handler = bridge late_state;
  context_list =
      record { address = 7; interrupt_counter = 1 }
      ∷ record { address = 8; interrupt_counter = 3 }
      ∷ [];
}
