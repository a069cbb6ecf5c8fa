-- ===== src/Scope/Reporting.antt =====
-- What `qjs_bun_leave` reports.
use quickjs_bun.Prelude.{
  ℕ, ◌≡◌, refl, ◌∙◌, ap, Bool, true, false, some, inl, inr, Bool-cases, Option-cases, ◌⊎◌,
}
use Prim.Native.String.{String}
use text.Mathlib.Text.{◌==◌}
use quickjs_bun.Runtime.{Runtime, now_ms, bun_state}
use quickjs_bun.Runtime.Values.{Value, is_exception}
use quickjs_bun.Runtime.Clock.{Ms, ms, ltb_ms}
use quickjs_bun.Engine.{Engine, IsQuiet}
use quickjs_bun.Contexts.Registry.{deadline}
use quickjs_bun.Scope.{Scope, c_w_e, set_deadline, throw, timeout_error, throw_timeout, leave}
use quickjs_bun.Scope.Deadline.{leave-deadline}

-- What is asked of the engine where texts are made properties: `Has o name text e` says that, unless
-- memory ran out, the object's property of the name is the text. Neither a new string nor another
-- property nor giving up a value changes that.
pub record AreProperties {E : Type 0} (js : Engine E) (Has : Value → String → String → E → Type 0)
    : Type 0 where
  pub defines :
      (ctx : ℕ) (o : Value) (name text : String) (rt : Runtime E)
      → let v = js.new_string ctx text rt in
        Has o name text (js.define_property_value ctx o name v.0 c_w_e v.1).1.engine
  pub string_keeps :
      (ctx : ℕ) (o : Value) (name text other : String) (rt : Runtime E)
      → Has o name text rt.engine
      → Has o name text (js.new_string ctx other rt).1.engine
  pub define_keeps :
      (ctx : ℕ) (o : Value) (name text other : String) (v : Value) (rt : Runtime E)
      → (name == other) ≡ false
      → Has o name text rt.engine
      → Has o name text (js.define_property_value ctx o other v c_w_e rt).1.engine
  pub free_keeps :
      (ctx : ℕ) (o : Value) (name text : String) (v : Value) (rt : Runtime E)
      → Has o name text rt.engine
      → Has o name text (js.free_value ctx v rt).1.engine

module _ {E : Type 0} (js : Engine E) (quiet : IsQuiet js)
    (Has : Value → String → String → E → Type 0) (are : AreProperties js Has) where
  -- An error with the name and the message of a timeout.
  abbrev pub IsTimeout : Value → Runtime E → Type 0
  IsTimeout error rt =
      Has error "name" "TimeoutError" rt.engine
      × Has error "message" "QuickJS execution timed out" rt.engine

  labelled :
      (ctx : ℕ) (error : Value) (rt : Runtime E)
      → let name = js.new_string ctx "TimeoutError" rt in
        let named = js.define_property_value ctx error "name" name.0 c_w_e name.1 in
        let message = js.new_string ctx "QuickJS execution timed out" named.1 in
        IsTimeout error (js.define_property_value ctx error "message" message.0 c_w_e message.1).1
  labelled ctx error rt = (
    are.define_keeps ctx error _ _ _ _ _ refl
        (are.string_keeps ctx error _ _ _ _ (are.defines ctx error _ _ rt)),
    are.defines ctx error _ _ _,
  )

  timeout_error_lem :
      (ctx : ℕ) (failed : Bool) (rt : Runtime E)
      → is_exception (js.new_error ctx rt).0 ≡ failed
      → ((failed ≡ true) × (timeout_error js ctx rt ≡ js.new_error ctx rt))
        ⊎ ((failed ≡ false)
            × ((timeout_error js ctx rt).0 ≡ (js.new_error ctx rt).0)
            × IsTimeout (js.new_error ctx rt).0 (timeout_error js ctx rt).1)
  unfolding timeout_error
  timeout_error_lem ctx true rt e = rw e (inl (refl, refl))
  timeout_error_lem ctx false rt e =
      rw e (inr (refl, refl, labelled ctx (js.new_error ctx rt).0 (js.new_error ctx rt).1))

  -- The engine could not make an error, and what it left is untouched; or the error that it made
  -- is the pending exception, which can be caught, with the name and the message of a timeout.
  abbrev pub Thrown : ℕ → Runtime E → Runtime E → Type 0
  Thrown ctx rt after =
      let error = js.new_error ctx rt in
      ((is_exception error.0 ≡ true) × (after ≡ error.1))
      ⊎ ((is_exception error.0 ≡ false)
          × (after.current_exception ≡ error.0)
          × (after.current_exception_is_uncatchable ≡ false)
          × IsTimeout error.0 after)

  throw_timeout-Thrown : (ctx : ℕ) (rt : Runtime E) → Thrown ctx rt (throw_timeout js ctx rt).1
  unfolding throw_timeout throw
  throw_timeout-Thrown ctx rt = elim (timeout_error_lem ctx _ rt refl) [
    | inl (failed, same) ↦ rw same (rw failed (inl (refl, refl)))
    | inr (made, same, (name, message)) ↦ rw same (
        rw made (
          inr (
            refl,
            refl,
            refl,
            (
              are.free_keeps ctx _ _ _ _ _ (are.free_keeps ctx _ _ _ _ _ name),
              are.free_keeps ctx _ _ _ _ _ (are.free_keeps ctx _ _ _ _ _ message),
            ),
          )))
  ]

  -- What a report is: the deadline put back, and the timeout thrown.
  abbrev pub Reported : ℕ → Scope → Runtime E → Bool × Runtime E → Type 0
  Reported ctx scope rt (result, after) =
      (result ≡ true)
      × (deadline after ≡ some scope.saved_ms)
      × Thrown ctx (now_ms (set_deadline scope.saved_ms rt)).1 after

  -- What no report is: the deadline put back, and the pending exception as it was.
  abbrev pub Unreported : Scope → Runtime E → Bool × Runtime E → Type 0
  Unreported scope rt (result, after) =
      (result ≡ false)
      × (deadline after ≡ some scope.saved_ms)
      × (after.current_exception ≡ rt.current_exception)
      × (after.current_exception_is_uncatchable ≡ rt.current_exception_is_uncatchable)
      × (after.engine ≡ rt.engine)

  -- Putting back the deadline changes nothing else.
  set_deadline-else :
      (d : Ms) (rt : Runtime E)
      → set_deadline d rt ≡ record rt { handler = (set_deadline d rt).handler }
  unfolding set_deadline
  set_deadline-else d rt = elim (Option-cases (bun_state rt)) [
    | inl e ↦ rw (e, set_deadline) refl
    | inr (s, e) ↦ rw (e, set_deadline) refl
  ]

  clock_after :
      (d : Ms) (rt : Runtime E)
      → (set_deadline d rt).clock (set_deadline d rt).reads ≡ rt.clock rt.reads
  clock_after d rt = ap (λ (r : Runtime E). r.clock r.reads) (set_deadline-else d rt)

  -- The cases that report nothing.
  nothing_reported :
      (scope : Scope) (rt after : Runtime E)
      → deadline after ≡ some scope.saved_ms
      → (after ≡ set_deadline scope.saved_ms rt)
        ⊎ (after ≡ (now_ms (set_deadline scope.saved_ms rt)).1)
      → Unreported scope rt (false, after)
  unfolding now_ms
  nothing_reported scope rt after back (inl e) =
      let same = set_deadline-else scope.saved_ms rt in
      (
        refl,
        back,
        ap (λ (r : Runtime E). r.current_exception) (e ∙ same),
        ap (λ (r : Runtime E). r.current_exception_is_uncatchable) (e ∙ same),
        ap (λ (r : Runtime E). r.engine) (e ∙ same),
      )
  nothing_reported scope rt after back (inr e) =
      let same = set_deadline-else scope.saved_ms rt in
      (
        refl,
        back,
        ap (λ (r : Runtime E). r.current_exception) e
            ∙ ap (λ (r : Runtime E). r.current_exception) same,
        ap (λ (r : Runtime E). r.current_exception_is_uncatchable) e
            ∙ ap (λ (r : Runtime E). r.current_exception_is_uncatchable) same,
        ap (λ (r : Runtime E). r.engine) e ∙ ap (λ (r : Runtime E). r.engine) same,
      )

  -- What `qjs_bun_leave` comes to in each case.
  leave_cases :
      (ctx : ℕ) (scope : Scope) (failed : Bool) (rt : Runtime E)
      → scope.active ≡ true
      → let rt' = set_deadline scope.saved_ms rt in
        let late = (now_ms rt').1 in
        let early = ltb_ms (ms (rt.clock rt.reads)) scope.own_ms in
        ((failed ≡ true)
          × (early ≡ false)
          × (leave js ctx scope failed rt ≡ (true, (throw_timeout js ctx late).1)))
        ⊎ (((failed ≡ false) ⊎ (early ≡ true))
            × ((leave js ctx scope failed rt ≡ (false, rt'))
                ⊎ (leave js ctx scope failed rt ≡ (false, late))))
  unfolding leave now_ms
  leave_cases ctx scope false rt on = rw on (inr (inl refl, inl refl))
  leave_cases ctx scope true rt on =
      let same = clock_after scope.saved_ms rt in
      elim (Bool-cases (ltb_ms (ms (rt.clock rt.reads)) scope.own_ms)) [
        | inl early ↦ rw (on, same, early) (inr (inr refl, inr refl))
        | inr late ↦ rw (on, same, late) (inl (refl, refl, refl))
      ]

  -- Where the call failed and its own deadline, not only an outer one, has passed, `qjs_bun_leave`
  -- puts back the deadline, makes an error with the name TimeoutError and the message of a timeout, and
  -- leaves it as the pending exception, unless the engine cannot make it; in each other case it puts
  -- back the deadline and leaves the pending exception as it is. A property that the engine defines is
  -- what it was defined to be, also after later definitions and releases.
  pub leave-reports :
      (ctx : ℕ) (scope : Scope) (failed : Bool) (rt : Runtime E) (d : Ms)
      → scope.active ≡ true
      → deadline rt ≡ some d
      → let early = ltb_ms (ms (rt.clock rt.reads)) scope.own_ms in
        let left = leave js ctx scope failed rt in
        ((failed ≡ true) × (early ≡ false) × Reported ctx scope rt left)
        ⊎ (((failed ≡ false) ⊎ (early ≡ true)) × Unreported scope rt left)
  leave-reports ctx scope failed rt d on e =
      let back = leave-deadline js quiet ctx scope failed rt d on e in
      elim (leave_cases ctx scope failed rt on) [
        | inl (bad, late, same) ↦ inl (
          bad,
          late,
          (
            ap (λ r. r.0) same,
            back,
            rw same (throw_timeout-Thrown ctx (now_ms (set_deadline scope.saved_ms rt)).1),
          ),
        )
        | inr (fine, inl same) ↦
            inr (fine, rw same (nothing_reported scope rt _ (rw same at back) (inl refl)))
        | inr (fine, inr same) ↦
            inr (fine, rw same (nothing_reported scope rt _ (rw same at back) (inr refl)))
      ]
