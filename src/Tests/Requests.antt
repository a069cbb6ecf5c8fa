-- ===== src/Tests/Requests.antt =====
-- The theorems on the wrappers at a concrete request.
use quickjs_bun.Prelude.{◌+◌, ◌≡◌, refl, true, some, pos}
use quickjs_bun.Contexts.Registry.{deadline}
use quickjs_bun.Ownership.{Ledger, cell, ref, is, same}
use quickjs_bun.Ownership.Laws.{own, weight}
use quickjs_bun.Wrappers.{handle}
use quickjs_bun.Wrappers.EngineCalls.{Calls}
use quickjs_bun.Wrappers.Requests.{Request}
use quickjs_bun.Wrappers.Deadline.{AreKeeping, handle-Keeps}
use quickjs_bun.Wrappers.Lending.{lent, kept, held_with, with_answer}
use quickjs_bun.Wrappers.Ledger.{handle-lent}
use quickjs_bun.Tests.Sample.{js, js-IsQuiet, late, value}

abbrev calls : Calls (Unit {0})
calls = record {
  value = λ ctx c rt. (value 30, rt);
  int = λ ctx c rt. (pos 1, rt);
  pointer = λ ctx c rt. (some 40, rt);
  unit = λ ctx c rt. (tt, rt);
  global_object = λ ctx rt. value 1;
  func_created = λ module_def rt. true;
}

calls-AreKeeping : AreKeeping calls
calls-AreKeeping = record {
  value = λ ctx c rt. refl;
  int = λ ctx c rt. refl;
  pointer = λ ctx c rt. refl;
  unit = λ ctx c rt. refl;
}

abbrev define : Request
define = Request.define_property_get_set (value 3) 5 (value 4) (value 4) (pos 0)

handle-Keeps_example : deadline (handle js calls 70 7 define late (λ x. some 2)).1 ≡ deadline late
handle-Keeps_example =
    handle-Keeps js js-IsQuiet calls calls-AreKeeping 70 7 define late (λ x. some 2)

abbrev two : Ledger
two x = some (own x (value 4) + own x (value 4))

handle-lent_example :
    (handle js calls 70 7 define late two).2 (cell 4)
    ≡ some (
        with_answer
          (cell 4)
          (handle js calls 70 7 define late two).0
          (held_with (cell 4) (kept define) 0))
unfolding lent held_with weight ref is same
handle-lent_example = handle-lent js calls 70 7 define late two (cell 4) 0 refl
