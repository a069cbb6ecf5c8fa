-- ===== src/Tests/Evaluation.antt =====
-- The theorems on modules and evaluation with a small engine.
use quickjs_bun.Prelude.{◌+◌, ◌≡◌, refl, true, none, some, [], ◌∷◌, pos, arith}
use quickjs_bun.Runtime.Values.{Value, module_tag, string, bool}
use quickjs_bun.Runtime.Clock.{ms}
use quickjs_bun.Ownership.{cell, Ledger}
use quickjs_bun.Ownership.Laws.{own}
use quickjs_bun.Modules.{ModuleApi, has_colon, make_url, set_import_meta}
use quickjs_bun.Modules.Url.{url_text, url_runtime, make_url-text}
use quickjs_bun.Modules.Balance.{set_import_meta-own}
use quickjs_bun.Eval.{compile_module, eval}
use quickjs_bun.Eval.Balance.{eval-compile_module}
use quickjs_bun.Tests.Sample.{js, runtime, value}

abbrev module_value : Value
module_value = record { tag = module_tag; payload = 30 }

-- Every function gives a value; the module is called "ab".
abbrev api : ModuleApi (Unit {0})
api = record {
  throw_type_error = λ ctx s rt. (tt, rt);
  get_module_name = λ ctx m rt. (11, rt);
  atom_to_cstring = λ ctx atom rt. (some (40, 97 ∷ 98 ∷ []), rt);
  js_malloc = λ ctx size rt. (some (60, λ offset. 7), rt);
  new_string = λ ctx bytes rt. (record { tag = string; payload = 61 }, rt);
  get_import_meta = λ ctx m rt. (value 62, rt);
  define_value = λ ctx o name v flags rt. (pos 1, rt);
  new_bool = λ b. record { tag = bool; payload = 1 };
  global_object = λ ctx rt. value 1;
  eval_internal = λ ctx this source filename flags rt. (module_value, rt);
  eval_function_internal = λ ctx v rt. (value 63, rt);
}

-- Each value, string and block is held once by others.
abbrev ledger : Ledger
ledger x = some 1

make_url-text_example :
    (make_url api 7 (97 ∷ 98 ∷ []) (has_colon (97 ∷ 98 ∷ [])) runtime ledger).0
    ≡ some (api.new_string 7 (url_text (97 ∷ 98 ∷ [])) (url_runtime api 7 (97 ∷ 98 ∷ []) runtime)).0
make_url-text_example =
    make_url-text api 7 (97 ∷ 98 ∷ []) (60, λ offset. 7) runtime ledger
      ((λ e. ground arith), ((λ e. ground arith), tt)) refl

set_import_meta-own_example :
    (set_import_meta api 7 module_value true runtime ledger).2 (cell 62) ≡ some 1
set_import_meta-own_example =
    set_import_meta-own api 7 module_value true runtime ledger (cell 62) 1 refl

eval-compile_module_example :
    ((eval api 7 js none (49 ∷ []) "ab" 1 (ms 50) runtime ledger).2 (cell 63)
      ≡ some (1 + own (cell 63) (eval api 7 js none (49 ∷ []) "ab" 1 (ms 50) runtime ledger).0))
    × ((compile_module api 7 (49 ∷ []) "ab" runtime ledger).2 (cell 63) ≡ some 1)
eval-compile_module_example =
    eval-compile_module api 7 js none (49 ∷ []) "ab" 1 (ms 50) runtime ledger (cell 63) 1 refl
