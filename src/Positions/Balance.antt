-- ===== src/Positions/Balance.antt =====
-- What js_string_indexOf and js_string_includes leave of the references that they take.
use quickjs_bun.Prelude.{
  ℕ, ◌+◌, ◌≡◌, ap, ◌∙◌, Bool, true, false, Bool-cases, Option, some, inl, inr, is_negative, arith,
}
use quickjs_bun.Runtime.{Runtime, Cmd, pure}
use quickjs_bun.Runtime.Values.{Value, is_exception, js_undefined}
use quickjs_bun.Engine.{Engine}
use quickjs_bun.Ownership.{Act, Resource, Ledger, ref, is, taken, released}
use quickjs_bun.Ownership.Laws.{own, weight, taken_lem, released_lem, swap_last, exception_own}
use quickjs_bun.Kinds.{is_nonzero}
use quickjs_bun.Search.{Answer, interrupted}
use quickjs_bun.Positions.{Conversions, Magic, index_in, includes_in}
use quickjs_bun.Positions.Strings.{
  freeing, index_with, index_checked, string_index_of, includes_with, includes_string,
  includes_checked, string_includes,
}

-- Where `vs` more than `n` is held before, `n` is held afterwards.
abbrev Frees : {E : Type 0} → Resource → ℕ → ℕ → Act E Answer → Type 0
Frees {E} x n m act = (rt : Runtime E) (l : Ledger) → l x ≡ some m → (act rt l).2 x ≡ some n

module _ {E : Type 0} (js : Engine E) (ctx : ℕ) (conv : Conversions E) (x : Resource) (n : ℕ) where
  freeing-Frees :
      (str v : Value) (look : Cmd E Answer)
      → Frees x n (n + own x str + own x v) (freeing js ctx conv str v look)
  unfolding freeing
  freeing-Frees str v look rt l e =
      released_lem x (ref v) (released (ref str) l) n
        (released_lem x (ref str) l (n + own x v) (e ∙ ap some (swap_last n (own x str) (own x v))))

  undefined-Frees :
      (str : Value) (look : Cmd E Answer)
      → Frees x n (n + own x str) (freeing js ctx conv str js_undefined look)
  unfolding weight ref is
  undefined-Frees str look rt l e =
      freeing-Frees str js_undefined look rt l (e ∙ ap some (omega arith))

  index_with-Frees :
      (last : Bool) (position : Option Value) (str v : Value)
      → Frees x n (n + own x str + own x v) (index_with js ctx conv last position str v)
  unfolding index_with
  index_with-Frees last position str v rt l e = elim (Bool-cases (is_exception v)) [
    | inl failed ↦ rw failed (freeing-Frees str v (pure interrupted) rt l e)
    | inr made ↦ rw made (
        freeing-Frees str v (index_in js ctx conv last position (conv.text str) (conv.text v)) rt l
          e)
  ]

  includes_with-Frees :
      (magic : Magic) (position : Option Value) (str v : Value)
      → Frees x n (n + own x str + own x v) (includes_with js ctx conv magic position str v)
  unfolding includes_with
  includes_with-Frees magic position str v rt l e = elim (Bool-cases (is_exception v)) [
    | inl failed ↦ rw failed (freeing-Frees str v (pure interrupted) rt l e)
    | inr made ↦ rw made (
        freeing-Frees str v (includes_in js ctx conv magic position (conv.text str) (conv.text v))
          rt l e)
  ]

  index_checked-Frees :
      (last : Bool) (arg : Value) (position : Option Value) (str : Value)
      → Frees x n (n + own x str) (index_checked js ctx conv last arg position str)
  unfolding index_checked
  index_checked-Frees last arg position str rt l e = elim (Bool-cases (is_exception str)) [
    | inl failed ↦ rw failed (e ∙ ap some (exception_own n x str failed))
    | inr made ↦
        let v = conv.to_string arg rt in
        rw made (
          index_with-Frees last position str v.0 v.1 (taken (ref v.0) l)
            (taken_lem x (ref v.0) l (n + own x str) e))
  ]

  includes_string-Frees :
      (magic : Magic) (arg : Value) (position : Option Value) (str : Value) (regexp failed : Bool)
      → Frees x n (n + own x str) (includes_string js ctx conv magic arg position str regexp failed)
  unfolding includes_string
  includes_string-Frees magic arg position str true true rt l e =
      undefined-Frees str (pure interrupted) rt l e
  includes_string-Frees magic arg position str true false rt l e =
      undefined-Frees str (pure interrupted) (conv.throw_type_error rt).1 l e
  includes_string-Frees magic arg position str false failed rt l e =
      let v = conv.to_string arg rt in
      includes_with-Frees magic position str v.0 v.1 (taken (ref v.0) l)
        (taken_lem x (ref v.0) l (n + own x str) e)

  includes_checked-Frees :
      (magic : Magic) (arg : Value) (position : Option Value) (str : Value)
      → Frees x n (n + own x str) (includes_checked js ctx conv magic arg position str)
  unfolding includes_checked
  includes_checked-Frees magic arg position str rt l e = elim (Bool-cases (is_exception str)) [
    | inl failed ↦ rw failed (e ∙ ap some (exception_own n x str failed))
    | inr made ↦
        let r = conv.is_regexp arg rt in
        rw made
          (includes_string-Frees magic arg position str (is_nonzero r.0) (is_negative r.0) r.1 l e)
  ]

  -- js_string_indexOf and js_string_includes hold nothing more afterwards than before, whichever
  -- conversion, interrupt or regular expression ended them.
  pub strings-Frees :
      (last : Bool) (magic : Magic) (this_val arg : Value) (position : Option Value)
      (rt : Runtime E) (l : Ledger)
      → l x ≡ some n
      → ((string_index_of js ctx conv last this_val arg position rt l).2 x ≡ some n)
        × ((string_includes js ctx conv magic this_val arg position rt l).2 x ≡ some n)
  unfolding string_index_of string_includes
  strings-Frees last magic this_val arg position rt l e =
      let str = conv.to_string_check_object this_val rt in
      let held = taken_lem x (ref str.0) l n e in
      (
        index_checked-Frees last arg position str.0 str.1 (taken (ref str.0) l) held,
        includes_checked-Frees magic arg position str.0 str.1 (taken (ref str.0) l) held,
      )
