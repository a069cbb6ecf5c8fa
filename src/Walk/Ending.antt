-- ===== src/Walk/Ending.antt =====
-- `qjs_bun_get_data_property` ends, since the prototypes of ordinary objects make no cycle.
use quickjs_bun.Prelude.{
  ℕ, zero, suc, ◌≤◌, ◌<◌, ◌≡◌, refl, true, ◌==◌, Option, inl, inr, Bool-cases, arith, is_some,
  ==→eq,
}
use quickjs_bun.Runtime.{Runtime}
use quickjs_bun.Runtime.Values.{Value, is_exception}
use quickjs_bun.Contexts.{timeout}
use quickjs_bun.Scope.{enter}
use quickjs_bun.Engine.{Engine}
use quickjs_bun.Ownership.{Ledger, Act}
use quickjs_bun.Walk.{
  Lookup, failed, missing, found, Objects, class_object, follow, turn, walk, get_data_property,
}

module _ {E : Type 0} (objects : Objects E) (ctx atom : ℕ) where
  -- The prototype that the loop goes on with, and the runtime then.
  abbrev pub next_value : Value → Runtime E → Value
  next_value v rt = (objects.get_prototype ctx v (objects.get_own_property ctx v atom rt).1).0

  abbrev pub next_runtime : Value → Runtime E → Runtime E
  next_runtime v rt =
      (objects.get_class_id (next_value v rt)
        (objects.get_prototype ctx v (objects.get_own_property ctx v atom rt).1).1).1

  abbrev pub next_class : Value → Runtime E → ℕ
  next_class v rt =
      (objects.get_class_id (next_value v rt)
        (objects.get_prototype ctx v (objects.get_own_property ctx v atom rt).1).1).0

  -- Each ordinary object on the chain of an ordinary object is nearer to its end, which
  -- JS_SetPrototypeInternal sees to.
  abbrev pub IsAcyclic : (Value → Runtime E → ℕ) → Type 0
  IsAcyclic depth =
      (v : Value) (rt : Runtime E)
      → (objects.get_class_id v rt).0 ≡ class_object
      → next_class v (objects.get_class_id v rt).1 ≡ class_object
      → depth (next_value v (objects.get_class_id v rt).1)
          (next_runtime v (objects.get_class_id v rt).1)
        < depth v (objects.get_class_id v rt).1

  follow_returns :
      (again : Value → Act E (Option Value)) (next : Value) (rt : Runtime E) (l : Ledger)
      → ((objects.get_class_id next rt).0 ≡ class_object
          → is_some (again next (objects.get_class_id next rt).1 l).0 ≡ true)
      → is_some (follow objects ctx atom again next rt l).0 ≡ true
  unfolding follow
  follow_returns again next rt l h = elim (Bool-cases (is_exception next)) [
    | inl failure ↦ rw failure refl
    | inr fine ↦ elim (Bool-cases ((objects.get_class_id next rt).0 == class_object)) [
      | inl ordinary ↦ rw (fine, ordinary) (h (==→eq _ _ ordinary))
      | inr other ↦ rw (fine, other) refl
    ]
  ]

  turn_returns :
      (again : Value → Act E (Option Value)) (v : Value) (looked : Lookup) (rt : Runtime E)
      (l : Ledger)
      → ((l' : Ledger)
          → is_some
              (follow objects ctx atom again
                (objects.get_prototype ctx v rt).0
                (objects.get_prototype ctx v rt).1
                l').0
            ≡ true)
      → is_some (turn objects ctx atom again v looked rt l).0 ≡ true
  unfolding turn
  turn_returns again v failed rt l h = refl
  turn_returns again v (found getset value getter setter) rt l h = refl
  turn_returns again v missing rt l h = h _

  turn_walk :
      (fuel : ℕ) (v : Value) (rt : Runtime E) (l : Ledger)
      → (next_class v rt ≡ class_object
          → (l' : Ledger)
          → is_some (walk objects ctx atom fuel (next_value v rt) (next_runtime v rt) l').0 ≡ true)
      → is_some (walk objects ctx atom (suc fuel) v rt l).0 ≡ true
  unfolding walk
  turn_walk fuel v rt l h =
      turn_returns (walk objects ctx atom fuel) v _ _ _
        λ l'. follow_returns (walk objects ctx atom fuel) _ _ l' (λ ordinary. h ordinary l')

  module _ (depth : Value → Runtime E → ℕ) (acyclic : IsAcyclic depth) where
    ordinary_returns :
        (fuel : ℕ) (v : Value) (rt : Runtime E) (l : Ledger)
        → (objects.get_class_id v rt).0 ≡ class_object
        → depth v (objects.get_class_id v rt).1 < fuel
        → is_some (walk objects ctx atom fuel v (objects.get_class_id v rt).1 l).0 ≡ true
    ordinary_returns zero v rt l ordinary h = absurd (omega arith)
    ordinary_returns (suc fuel) v rt l ordinary h =
        turn_walk fuel v (objects.get_class_id v rt).1 l λ next_ordinary l'.
          let nearer = acyclic v rt ordinary next_ordinary in
          ordinary_returns fuel (next_value v (objects.get_class_id v rt).1) _ l' next_ordinary
            (omega arith)

    first_returns :
        (fuel : ℕ) (v : Value) (rt : Runtime E) (l : Ledger)
        → suc (depth (next_value v rt) (next_runtime v rt)) < fuel
        → is_some (walk objects ctx atom fuel v rt l).0 ≡ true
    first_returns zero v rt l h = absurd (omega arith)
    first_returns (suc fuel) v rt l h =
        turn_walk fuel v rt l
          λ ordinary l'. ordinary_returns fuel (next_value v rt) _ l' ordinary (omega arith)

    -- For an object of any kind, a proxy among them, enough fuel gives an answer, if the chains of
    -- ordinary objects have no cycle.
    pub get_data_property-returns :
        (js : Engine E) (obj : Value) (rt : Runtime E) (l : Ledger)
        → (n : ℕ) × ((fuel : ℕ)
            → n ≤ fuel
            → is_some (get_data_property objects ctx atom js fuel obj rt l).0 ≡ true)
    unfolding get_data_property
    get_data_property-returns js obj rt l =
        let start : Runtime E = (enter (timeout ctx rt).0 (timeout ctx rt).1).1 in
        (
          suc (suc (depth (next_value obj start) (next_runtime obj start))),
          λ fuel enough. first_returns fuel obj start _ (omega arith),
        )
