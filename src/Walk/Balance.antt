-- ===== src/Walk/Balance.antt =====
-- `qjs_bun_get_data_property` gives back all that it takes but its result, and it ends.
use quickjs_bun.Prelude.{
  sym, ap, ℕ, zero, suc, ◌+◌, ◌≡◌, refl, ◌∙◌, Bool, true, false, ◌==◌, Option, some, inl, inr,
  some_injective, Bool-cases, arith,
}
use quickjs_bun.Runtime.{Runtime}
use quickjs_bun.Runtime.Values.{Value, is_exception, js_undefined, js_exception}
use quickjs_bun.Engine.{Engine}
use quickjs_bun.Ownership.{Resource, Ledger, Act, ref, is, taken, used, released, more, less, held}
use quickjs_bun.Ownership.Laws.{
  own, weight, undefined-ref, taken_lem, used_lem, released_lem, exception-ref, given_back,
  swap_last,
}
use quickjs_bun.Walk.{
  Lookup, failed, missing, found, Objects, class_object, take_data, follow, turn, walk,
  get_data_property,
}

module _ {E : Type 0} where
  take_data-own :
      (getset : Bool) (value getter setter : Value) (rt : Runtime E) (l : Ledger) (x : Resource)
      (n : ℕ)
      → l x ≡ some n
      → (take_data getset value getter setter rt l).2 x
        ≡ some (n + own x (take_data getset value getter setter rt l).0)
  unfolding take_data is weight taken used released more less held
  take_data-own true value getter setter rt l x n e = ground (arith, undefined-ref)
  take_data-own false value getter setter rt l x n e = ground arith

  -- However a function ends, what it was given to hold it holds no more, but its result it does.
  abbrev pub Balances : (Value → Act E (Option Value)) → Type 0
  Balances f =
      (v : Value) (rt : Runtime E) (l : Ledger) (x : Resource) (n : ℕ) (out : Value)
      → l x ≡ some (n + own x v)
      → (f v rt l).0 ≡ some out
      → (f v rt l).2 x ≡ some (n + own x out)

  module _ (objects : Objects E) (ctx atom : ℕ) where
    follow-Balances :
        (again : Value → Act E (Option Value))
        → Balances again
        → Balances (follow objects ctx atom again)
    unfolding follow
    follow-Balances again h next rt l x n out e ends = elim (Bool-cases (is_exception next)) [
      | inl failure ↦ rw failure (
          let same_value : next ≡ out = some_injective (rw failure at ends) in
          e ∙ ap (λ v. some (n + own x v)) same_value)
      | inr fine ↦ elim (Bool-cases ((objects.get_class_id next rt).0 == class_object)) [
        | inl ordinary ↦
            rw (fine, ordinary)
              (h next (objects.get_class_id next rt).1 l x n out e (rw (fine, ordinary) at ends))
        | inr other ↦
            rw (fine, other)
              (let answer : js_undefined ≡ out = some_injective (rw (fine, other) at ends) in
                given_back next l x n out e (ap ref (sym answer) ∙ undefined-ref))
      ]
    ]

    turn-Balances :
        (again : Value → Act E (Option Value)) (looked : Lookup)
        → Balances again
        → Balances (λ current. turn objects ctx atom again current looked)
    unfolding turn
    turn-Balances again failed h current rt l x n out e ends =
        given_back current l x n out e
          (ap ref (sym (some_injective ends)) ∙ exception-ref js_exception refl)
    turn-Balances again (found getset value getter setter) h current rt l x n out e ends =
        let found_value : Value = (take_data getset value getter setter rt l).0 in
        let kept = take_data-own getset value getter setter rt l x (n + own x current) e in
        released_lem x (ref current) (take_data getset value getter setter rt l).2
          (n + own x found_value) (kept ∙ ap some (swap_last n (own x current) (own x found_value)))
        ∙ ap (λ v. some (n + own x v)) (some_injective ends)
    turn-Balances again missing h current rt l x n out e ends =
        let next : Value = (objects.get_prototype ctx current rt).0 in
        follow-Balances again h next (objects.get_prototype ctx current rt).1 _ x n out
          (released_lem x (ref current) _ (n + own x next) (
            taken_lem x (ref next) _ (n + own x current) (used_lem x (ref current) l n e)
            ∙ ap some (swap_last n (own x current) (own x next))))
          ends

    walk-Balances : (fuel : ℕ) → Balances (walk objects ctx atom fuel)
    unfolding walk
    walk-Balances zero current rt l x n out e ends = absurd (ground arith)
    walk-Balances (suc fuel) current rt l x n out e ends =
        turn-Balances (walk objects ctx atom fuel) (objects.get_own_property ctx current atom rt).0
          (walk-Balances fuel) current (objects.get_own_property ctx current atom rt).1
          (used (ref current) l) x n out (used_lem x (ref current) l n e) ends

    -- For every engine, and however the chain ends: when `qjs_bun_get_data_property` gives a result,
    -- each reference it took was held when it was used and has been given back once, but for the
    -- one that the result is. The host holds the object during the call.
    pub get_data_property-own :
        (js : Engine E) (fuel : ℕ) (obj : Value) (rt : Runtime E) (l : Ledger) (x : Resource)
        (n : ℕ) (out : Value)
        → l x ≡ some (n + own x obj)
        → (get_data_property objects ctx atom js fuel obj rt l).0 ≡ some out
        → (get_data_property objects ctx atom js fuel obj rt l).2 x
          ≡ some (n + own x obj + own x out)
    unfolding get_data_property
    get_data_property-own js fuel obj rt l x n out e ends =
        walk-Balances fuel obj _ (taken (ref obj) (used (ref obj) l)) x (n + own x obj) out
          (taken_lem x (ref obj) _ (n + own x obj) (used_lem x (ref obj) l n e)) ends
