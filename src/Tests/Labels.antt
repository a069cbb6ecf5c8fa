-- ===== src/Tests/Labels.antt =====
-- The theorem on what qjs_bun_leave reports, with an engine that notes the properties it defines.
use quickjs_bun.Prelude.{
  ◌*◌, ◌≡◌, ◌⊎◌, inl, inr, refl, true, false, some, List, [], ◌∷◌, pos, arith,
}
use Prim.Native.String.{String}
use quickjs_bun.Runtime.{Runtime, bridge}
use quickjs_bun.Runtime.Values.{Value, js_exception, js_uninitialized}
use quickjs_bun.Runtime.Clock.{ms, infinity, ltb_ms}
use quickjs_bun.Engine.{Engine, IsQuiet}
use quickjs_bun.Scope.{Scope, leave}
use quickjs_bun.Scope.Reporting.{AreProperties, Reported, Unreported, leave-reports}
use quickjs_bun.Tests.Sample.{late_state, value}

-- A property that was defined.
abbrev Defined : Type 0
Defined = Value × String × String

-- The text of the string that was made last, and the properties defined.
abbrev Notes : Type 0
Notes = String × List Defined

abbrev In : Defined → List Defined → Type 0
In d [] = ⊥
In d (x ∷ xs) = (x ≡ d) ⊎ In d xs

abbrev Has : Value → String → String → Notes → Type 0
Has o name text (last, properties) = In (o, name, text) properties

abbrev note : Value → String → Notes → Notes
note o name (last, properties) = (last, (o, name, last) ∷ properties)

abbrev js : Engine Notes
js = record {
  new_context = λ rt. (some 9, rt);
  new_context_raw = λ rt. (some 9, rt);
  free_context = λ ctx rt. (tt, rt);
  malloc = λ size rt. (true, rt);
  new_error = λ ctx rt. (value 77, rt);
  new_string = λ ctx s rt. (value 78, record rt { engine = (s, rt.engine.1) });
  define_property_value =
      λ ctx o name v flags rt. (pos 1, record rt { engine = note o name rt.engine });
  free_value = λ ctx v rt. (tt, rt);
  get_global_object = λ ctx rt. (value 1, rt);
  new_atom = λ ctx s rt. (5, rt);
  delete_property = λ ctx o atom flags rt. (pos 1, rt);
  free_atom = λ ctx atom rt. (tt, rt);
  throw_internal_error = λ ctx s rt. (js_exception, rt);
  realloc = λ size rt. (true, rt);
  new_class = λ class_id name finalized rt. (pos 0, rt);
  foreign_handler = λ f rt. (false, rt);
}

js-IsQuiet : IsQuiet js
js-IsQuiet = record {
  new_context_keeps = λ rt. refl;
  new_context_raw_keeps = λ rt. refl;
  free_context_keeps = λ ctx rt. refl;
  malloc_keeps = λ size rt. refl;
  new_error_keeps = λ ctx rt. refl;
  new_string_keeps = λ ctx s rt. refl;
  define_keeps = λ ctx o name v flags rt. refl;
  free_value_keeps = λ ctx v rt. refl;
  get_global_keeps = λ ctx rt. refl;
  new_atom_keeps = λ ctx s rt. refl;
  delete_keeps = λ ctx o atom flags rt. refl;
  free_atom_keeps = λ ctx atom rt. refl;
  throw_internal_keeps = λ ctx s rt. refl;
  throw_internal_contexts = λ ctx s rt. refl;
  throw_internal_clock = λ ctx s rt. refl;
  throw_internal_reads = λ ctx s rt. omega arith;
  foreign_keeps = λ f rt. refl;
  realloc_keeps = λ size rt. refl;
  new_class_keeps = λ class_id name finalized rt. refl;
}

js-AreProperties : AreProperties js Has
js-AreProperties = record {
  defines = λ ctx o name text rt. inl refl;
  string_keeps = λ ctx o name text other rt h. h;
  define_keeps = λ ctx o name text other v rt different h. inr h;
  free_keeps = λ ctx o name text v rt h. h;
}

-- The deadline, 30, and the scope's own, 35, have passed.
abbrev late : Runtime Notes
late = record {
  handler = bridge late_state;
  context_list = [];
  current_exception = js_uninitialized;
  current_exception_is_uncatchable = false;
  clock = λ i. 10 * i;
  reads = 4;
  engine = ("", []);
}

abbrev scope : Scope
scope = record { active = true; saved_ms = infinity; own_ms = ms 35 }

leave-reports_example :
    let early = ltb_ms (ms (late.clock late.reads)) scope.own_ms in
    let left = leave js 7 scope true late in
    ((true ≡ true)
      × (early ≡ false)
      × Reported js js-IsQuiet Has js-AreProperties 7 scope late left)
    ⊎ (((true ≡ false) ⊎ (early ≡ true))
        × Unreported js js-IsQuiet Has js-AreProperties scope late left)
leave-reports_example =
    leave-reports js js-IsQuiet Has js-AreProperties 7 scope true late (ms 30) refl refl
