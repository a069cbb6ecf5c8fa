-- ===== src/Wrappers/Lending.antt =====
-- What the parts that the wrappers are made of do to the references that the host holds.
use quickjs_bun.Prelude.{
  ℕ, ℤ, ◌+◌, ◌≡◌, ◌≢◌, refl, sym, ap, ◌∙◌, Bool, Option, some, List, [], ◌∷◌, arith,
}
use quickjs_bun.Runtime.{Runtime}
use quickjs_bun.Runtime.Clock.{Ms}
use quickjs_bun.Runtime.Values.{Value}
use quickjs_bun.Engine.{Engine}
use quickjs_bun.Ownership.{without, Act, Resource, Ledger, ref, taken, used, released}
use quickjs_bun.Ownership.Laws.{own, taken_lem, used_lem, released_lem, swap_last}
use quickjs_bun.Wrappers.EngineCalls.{
  Calls, ValueCall, IntCall, PointerCall, UnitCall, value_takes, int_takes, unit_takes,
}
use quickjs_bun.Wrappers.Requests.{Request}
use quickjs_bun.Wrappers.{
  Answer, out, value_call, int_call, pointer_call, unit_call, taken_over, hands, guarded, qjs_out,
  qjs_ret, qjs_pointer, qjs_void, guest_out, guest_ret,
}

-- The arguments that the bridge duplicates or frees.
unfoldable pub lent : Request → List Value
lent (Request.throw v) = v ∷ []
lent (Request.dup_value v) = v ∷ []
lent (Request.dup_value_rt v) = v ∷ []
lent (Request.free_value v) = v ∷ []
lent (Request.free_value_rt v) = v ∷ []
lent (Request.set_class_proto class_id proto) = proto ∷ []
lent (Request.set_module_private_value m v) = v ∷ []
lent (Request.set_module_export m name v) = v ∷ []
lent (Request.eval_function fn timeout_ms) = fn ∷ []
lent (Request.set_property obj atom v) = v ∷ []
lent (Request.set_property_internal obj atom v receiver flags) = v ∷ []
lent (Request.set_property_u32 obj index v) = v ∷ []
lent (Request.set_property_i64 obj index v) = v ∷ []
lent (Request.define_property_value obj atom v flags) = v ∷ []
lent (Request.define_property_value_u32 obj index v flags) = v ∷ []
lent (Request.define_property_get_set obj atom getter setter flags) = getter ∷ setter ∷ []
lent _ = []

-- Those of them that the host still holds afterwards: qjs_bun_free_value takes its argument.
unfoldable pub kept : Request → List Value
unfolding lent
kept (Request.free_value v) = []
kept (Request.free_value_rt v) = []
kept request = lent request

-- `n` and what values hold of `x` once each.
unfoldable pub held_with : Resource → List Value → ℕ → ℕ
held_with x [] n = n
held_with x (v ∷ vs) n = held_with x vs (n + own x v)

held_with-add :
    (x : Resource) (vs : List Value) (n a : ℕ) → held_with x vs (n + a) ≡ held_with x vs n + a
unfolding held_with
held_with-add x [] n a = refl
held_with-add x (v ∷ vs) n a =
    ap (held_with x vs) (swap_last n a (own x v)) ∙ held_with-add x vs (n + own x v) a

-- `n` and what a result holds of `x`.
unfoldable pub with_value : Resource → Value → ℕ → ℕ
with_value x v n = n + own x v

unfoldable pub with_none {ℓ} : {A : Type ℓ} → Resource → A → ℕ → ℕ
with_none x a n = n

unfoldable pub with_answer : Resource → Answer → ℕ → ℕ
with_answer x (out v) n = n + own x v
with_answer x _ n = n

-- Where the values are held, an act leaves them so and adds what its result holds.
pub record Lends {E A : Type 0} (vs : List Value) (w : Resource → A → ℕ → ℕ) (m : Act E A)
    : Type 0 where
  pub holds :
      (rt : Runtime E) (l : Ledger) (x : Resource) (n : ℕ)
      → l x ≡ some (held_with x vs n)
      → (m rt l).2 x ≡ some (w x (m rt l).0 (held_with x vs n))

pub not_both : {v : Value} → [] ≢ v ∷ []
not_both e = ground arith

module _ {E : Type 0} (js : Engine E) (calls : Calls E) (host_class_id ctx : ℕ) where
  pub value_call-Lends :
      (vs : List Value) (c : ValueCall)
      → value_takes c ≡ []
      → Lends vs with_value (value_call js calls host_class_id ctx c)
  unfolding value_call with_value taken_over without
  value_call-Lends vs c nothing_taken = record {
    holds = λ rt l x n e. rw nothing_taken (taken_lem x (ref _) l (held_with x vs n) e);
  }

  pub int_call-Lends :
      (vs : List Value) (c : IntCall)
      → int_takes c ≡ []
      → Lends vs with_none (int_call js calls host_class_id ctx c)
  unfolding int_call with_none taken_over without
  int_call-Lends vs c nothing_taken = record { holds = λ rt l x n e. rw nothing_taken e }

  pub pointer_call-Lends :
      (vs : List Value) (c : PointerCall)
      → Lends vs with_none (pointer_call js calls host_class_id ctx c)
  unfolding pointer_call with_none
  pointer_call-Lends vs c = record { holds = λ rt l x n e. e }

  pub unit_call-Lends :
      (vs : List Value) (c : UnitCall)
      → unit_takes c ≡ []
      → Lends vs with_none (unit_call js calls host_class_id ctx c)
  unfolding unit_call with_none taken_over without
  unit_call-Lends vs c nothing_taken = record { holds = λ rt l x n e. rw nothing_taken e }

  -- What `JS_DupValue` adds, the engine's function takes over.
  pub handed :
      (v : Value) (vs : List Value) (l : Ledger) (x : Resource) (n : ℕ)
      → l x ≡ some (held_with x vs (n + own x v))
      → released (ref v) (taken (ref v) (used (ref v) l)) x ≡ some (held_with x vs (n + own x v))
  handed v vs l x n e =
      let m : ℕ = held_with x vs n in
      let split = held_with-add x vs n (own x v) in
      let once : used (ref v) l x ≡ some (m + own x v) =
        used_lem x (ref v) l m (e ∙ ap some split) in
      released_lem x (ref v) _ (m + own x v) (taken_lem x (ref v) _ (m + own x v) once)
      ∙ ap some (sym split)

  -- A duplicate, and then a function that takes over the argument.
  pub hands_int-Lends :
      (vs : List Value) (v : Value) (c : IntCall)
      → int_takes c ≡ v ∷ []
      → Lends
          (v ∷ vs)
          with_none
          (hands js calls host_class_id ctx v (int_call js calls host_class_id ctx c))
  unfolding hands int_call taken_over without with_none held_with
  hands_int-Lends vs v c takes = record { holds = λ rt l x n e. rw takes (handed v vs l x n e) }

  pub hands_unit-Lends :
      (vs : List Value) (v : Value) (c : UnitCall)
      → unit_takes c ≡ v ∷ []
      → Lends
          (v ∷ vs)
          with_none
          (hands js calls host_class_id ctx v (unit_call js calls host_class_id ctx c))
  unfolding hands unit_call taken_over without with_none held_with
  hands_unit-Lends vs v c takes = record { holds = λ rt l x n e. rw takes (handed v vs l x n e) }

  pub hands_value-Lends :
      (vs : List Value) (v : Value) (c : ValueCall)
      → value_takes c ≡ v ∷ []
      → Lends
          (v ∷ vs)
          with_value
          (hands js calls host_class_id ctx v (value_call js calls host_class_id ctx c))
  unfolding hands value_call taken_over without with_value held_with
  hands_value-Lends vs v c takes = record {
    holds = λ rt l x n e.
        rw takes (taken_lem x (ref _) _ (held_with x vs (n + own x v)) (handed v vs l x n e));
  }

  -- The same for two arguments.
  both_handed :
      (g s : Value) (l : Ledger) (x : Resource) (m : ℕ)
      → l x ≡ some (m + own x g + own x s)
      → released
          (ref s)
          (released (ref g) (taken (ref s) (used (ref s) (taken (ref g) (used (ref g) l)))))
          x
        ≡ some (m + own x g + own x s)
  both_handed g s l x m e =
      let a : ℕ = own x g in
      let b : ℕ = own x s in
      let used_g = used_lem x (ref g) l (m + b) (e ∙ ap some (omega arith)) in
      let taken_g : taken (ref g) (used (ref g) l) x ≡ some (m + b + a + a) =
        taken_lem x (ref g) _ (m + b + a) used_g in
      let used_s = used_lem x (ref s) _ (m + a + a) (taken_g ∙ ap some (omega arith)) in
      let taken_s = taken_lem x (ref s) _ (m + a + a + b) used_s in
      released_lem x (ref s) _ (m + a + b)
        (released_lem x (ref g) _ (m + a + b + b) (taken_s ∙ ap some (omega arith)))

  pub hands_both-Lends :
      (g s : Value) (c : IntCall)
      → int_takes c ≡ g ∷ s ∷ []
      → Lends (g ∷ s ∷ []) with_none (
          hands js calls host_class_id ctx g
            (hands js calls host_class_id ctx s (int_call js calls host_class_id ctx c)))
  unfolding hands int_call taken_over without with_none held_with
  hands_both-Lends g s c takes = record { holds = λ rt l x n e. rw takes (both_handed g s l x n e) }

  pub guarded-Lends :
      {A : Type 0} (vs : List Value) (w : Resource → A → ℕ → ℕ) (fails : A → Bool) (limit : Ms)
      (body : Act E A)
      → Lends vs w body
      → Lends vs w (guarded js calls host_class_id ctx fails limit body)
  unfolding guarded
  guarded-Lends vs w fails limit body lends = record { holds = λ rt l x n e. lends.holds _ l x n e }

  pub qjs_out-Lends :
      (vs : List Value) (body : Act E Value)
      → Lends vs with_value body
      → Lends vs with_answer (qjs_out js calls host_class_id ctx body)
  unfolding qjs_out with_answer with_value
  qjs_out-Lends vs body lends = record { holds = λ rt l x n e. lends.holds rt l x n e }

  pub qjs_ret-Lends :
      (vs : List Value) (body : Act E ℤ)
      → Lends vs with_none body
      → Lends vs with_answer (qjs_ret js calls host_class_id ctx body)
  unfolding qjs_ret with_answer with_none
  qjs_ret-Lends vs body lends = record { holds = λ rt l x n e. lends.holds rt l x n e }

  pub qjs_pointer-Lends :
      (vs : List Value) (body : Act E (Option ℕ))
      → Lends vs with_none body
      → Lends vs with_answer (qjs_pointer js calls host_class_id ctx body)
  unfolding qjs_pointer with_answer with_none
  qjs_pointer-Lends vs body lends = record { holds = λ rt l x n e. lends.holds rt l x n e }

  pub qjs_void-Lends :
      (vs : List Value) (body : Act E (Unit {0}))
      → Lends vs with_none body
      → Lends vs with_answer (qjs_void js calls host_class_id ctx body)
  unfolding qjs_void with_answer with_none
  qjs_void-Lends vs body lends = record { holds = λ rt l x n e. lends.holds rt l x n e }

  pub guest_out-Lends :
      (vs : List Value) (body : Act E Value)
      → Lends vs with_value body
      → Lends vs with_answer (guest_out js calls host_class_id ctx body)
  unfolding guest_out qjs_out with_answer with_value
  guest_out-Lends vs body lends = record { holds = λ rt l x n e. lends.holds _ l x n e }

  pub guest_ret-Lends :
      (vs : List Value) (body : Act E ℤ)
      → Lends vs with_none body
      → Lends vs with_answer (guest_ret js calls host_class_id ctx body)
  unfolding guest_ret qjs_ret with_answer with_none
  guest_ret-Lends vs body lends = record { holds = λ rt l x n e. lends.holds _ l x n e }

  pub ruleset lending = (
    value_call-Lends, int_call-Lends, pointer_call-Lends, unit_call-Lends, hands_int-Lends,
    hands_unit-Lends, hands_value-Lends, hands_both-Lends, guarded-Lends, qjs_out-Lends,
    qjs_ret-Lends, qjs_pointer-Lends, qjs_void-Lends, guest_out-Lends, guest_ret-Lends,
  )
