-- ===== src/Modules/Balance.antt =====
-- `qjs_bun_set_import_meta` gives back all that it takes.
use quickjs_bun.Prelude.{
  ℕ, ◌+◌, ◌≡◌, refl, ap, ◌∙◌, Bool, true, false, Option, none, some, List, inl, inr, Bool-cases,
  arith,
}
use quickjs_bun.Runtime.{Runtime}
use quickjs_bun.Runtime.Values.{Value, is_exception}
use quickjs_bun.Ownership.{Resource, Ledger, ref, atom_ref, cstring, block, taken, released}
use quickjs_bun.Ownership.Laws.{
  weight, own, taken_lem, used_lem, released_lem, swap_last, exception_own,
}
use quickjs_bun.Modules.{
  ModuleApi, has_colon, string_of, file_url, make_url, fill_meta, with_url, with_name, is_module,
  of_module, set_import_meta,
}
use quickjs_bun.Modules.Url.{fill_lem}

-- How often a value holds `x`, if there is one.
abbrev pub own_some : Resource → Option Value → ℕ
own_some x none = 0
own_some x (some v) = own x v

module _ {E : Type 0} (api : ModuleApi E) (ctx : ℕ) where
  file_url-own :
      (name : List ℕ) (given : Option (ℕ × (ℕ → ℕ))) (rt : Runtime E) (l : Ledger) (x : Resource)
      (n : ℕ)
      → l x ≡ some n
      → (file_url api ctx name given rt l).2 x
        ≡ some (n + own_some x (file_url api ctx name given rt l).0)
  unfolding file_url string_of
  file_url-own name none rt l x n e = ground arith
  file_url-own name (some (p, before)) rt l x n e = rw (fill_lem before name) (
      released_lem x (some (block p)) _ _ (
        taken_lem x (ref _) _ (n + weight x (some (block p))) (taken_lem x (some (block p)) l n e)
        ∙ ap some (swap_last n (weight x (some (block p))) (own x _))))

  make_url-own :
      (name : List ℕ) (colon : Bool) (rt : Runtime E) (l : Ledger) (x : Resource) (n : ℕ)
      → l x ≡ some n
      → (make_url api ctx name colon rt l).2 x
        ≡ some (n + own_some x (make_url api ctx name colon rt l).0)
  unfolding make_url
  make_url-own name true rt l x n e = taken_lem x (ref _) l n e
  make_url-own name false rt l x n e = file_url-own name _ _ l x n e

  fill_meta-own :
      (url meta : Value) (is_main failed : Bool) (rt : Runtime E) (l : Ledger) (x : Resource)
      (n : ℕ)
      → is_exception meta ≡ failed
      → l x ≡ some (n + own x url + own x meta)
      → (fill_meta api ctx url meta is_main failed rt l).2 x ≡ some n
  unfolding fill_meta
  fill_meta-own url meta is_main true rt l x n failed e =
      released_lem x (ref url) l n (e ∙ ap some (exception_own (n + own x url) x meta failed))
  fill_meta-own url meta is_main false rt l x n fine e = released_lem x (ref meta) _ n (
      used_lem x (ref meta) _ n (
        released_lem x (ref url) l (n + own x meta)
          (e ∙ ap some (swap_last n (own x url) (own x meta)))))

  with_url-own :
      (m : ℕ) (is_main : Bool) (url : Option Value) (rt : Runtime E) (l : Ledger) (x : Resource)
      (n : ℕ)
      → l x ≡ some (n + own_some x url)
      → (with_url api ctx m is_main url rt l).2 x ≡ some n
  unfolding with_url
  with_url-own m is_main none rt l x n e = ground arith
  with_url-own m is_main (some url) rt l x n e = elim (Bool-cases (is_exception url)) [
    | inl failed ↦ rw failed (e ∙ ap some (exception_own n x url failed))
    | inr fine ↦
        rw fine
          (fill_meta-own url _ is_main _ _ _ x n refl (taken_lem x (ref _) l (n + own x url) e))
  ]

  with_name-own :
      (m : ℕ) (is_main : Bool) (name : Option (ℕ × List ℕ)) (rt : Runtime E) (l : Ledger)
      (x : Resource) (n : ℕ)
      → l x ≡ some n
      → (with_name api ctx m is_main name rt l).2 x ≡ some n
  unfolding with_name
  with_name-own m is_main none rt l x n e = e
  with_name-own m is_main (some (p, name)) rt l x n e =
      let given : ℕ = weight x (some (cstring p)) in
      let made = make_url api ctx name (has_colon name) rt (taken (some (cstring p)) l) in
      with_url-own m is_main made.0 made.1 (released (some (cstring p)) made.2) x n (
        released_lem x (some (cstring p)) made.2 (n + own_some x made.0) (
          make_url-own name (has_colon name) rt (taken (some (cstring p)) l) x (n + given)
            (taken_lem x (some (cstring p)) l n e)
          ∙ ap some (swap_last n given (own_some x made.0))))

  of_module-own :
      (m : ℕ) (is_main : Bool) (rt : Runtime E) (l : Ledger) (x : Resource) (n : ℕ)
      → l x ≡ some n
      → (of_module api ctx m is_main rt l).2 x ≡ some n
  unfolding of_module
  of_module-own m is_main rt l x n e =
      let atom = api.get_module_name ctx m rt in
      let name = api.atom_to_cstring ctx atom.0 atom.1 in
      let held = taken (some (atom_ref atom.0)) l in
      with_name-own m is_main name.0 name.1 (released (some (atom_ref atom.0)) held) x n (
        released_lem x (some (atom_ref atom.0)) held n (taken_lem x (some (atom_ref atom.0)) l n e))

  -- Whatever the engine's functions give, and on every way out, `qjs_bun_set_import_meta` has used
  -- and given back only what it held, holds nothing more than before, and wrote inside its block.
  pub set_import_meta-own :
      (v : Value) (is_main : Bool) (rt : Runtime E) (l : Ledger) (x : Resource) (n : ℕ)
      → l x ≡ some n
      → (set_import_meta api ctx v is_main rt l).2 x ≡ some n
  unfolding set_import_meta
  set_import_meta-own v is_main rt l x n e = elim (Bool-cases (is_module v)) [
    | inl module_value ↦ rw module_value (of_module-own v.payload is_main rt l x n e)
    | inr other ↦ rw other e
  ]
