-- ===== src/Scope/Deadline.antt =====
-- What the scopes do to the deadline in force.
use quickjs_bun.Prelude.{
  ℕ, ◌≡◌, refl, sym, ◌∙◌, ap, Bool, true, false, none, some, inl, inr, arith, Bool-cases,
  Option-cases,
}
use quickjs_bun.Runtime.{Runtime, Cmd, now_ms}
use quickjs_bun.Runtime.Values.{Value, is_exception}
use quickjs_bun.Runtime.Clock.{Ms, add_ms, min_ms}
use quickjs_bun.Engine.{Engine, IsQuiet, Keeps}
use quickjs_bun.Contexts.Registry.{deadline, timeout-limits}
use quickjs_bun.Scope.{
  Scope, set_deadline, enter, throw, get_exception, timeout_error, throw_timeout, leave, guest_out,
  timed_out, enter_scope, leave_scope, bounded, scoped,
}

module _ {E : Type 0} where
  -- On a runtime with the bridge's state, `qjs_bun_enter` puts the sooner of the deadline in force
  -- and of now plus the timeout in force, and remembers both.
  pub enter_lem :
      (t : Ms) (rt : Runtime E) (d : Ms)
      → deadline rt ≡ some d
      → let own = add_ms (rt.clock rt.reads) t in
        ((enter t rt).0 ≡ record { active = true; saved_ms = d; own_ms = own })
        × (deadline (enter t rt).1 ≡ some (min_ms own d))
  unfolding enter
  enter_lem t rt d e = (ground arith, ground arith)

  -- On any other runtime it does nothing.
  pub enter_inactive :
      (t : Ms) (rt : Runtime E)
      → deadline rt ≡ none
      → ((enter t rt).0.active ≡ false) × ((enter t rt).1 ≡ rt)
  unfolding enter
  enter_inactive t rt e = (ground arith, ground arith)

  pub set_deadline-some :
      (d d' : Ms) (rt : Runtime E) → deadline rt ≡ some d' → deadline (set_deadline d rt) ≡ some d
  unfolding set_deadline
  set_deadline-some d d' rt e = ground arith

module _ {E : Type 0} (js : Engine E) (quiet : IsQuiet js) where
  timeout_error-Keeps : (ctx : ℕ) → Keeps (timeout_error js ctx)
  unfolding timeout_error
  timeout_error-Keeps ctx rt = elim (Bool-cases (is_exception (js.new_error ctx rt).0)) [
    | inl failed ↦ rw failed (quiet.new_error_keeps ctx rt)
    | inr made ↦ rw made (simp (quiet.new_error_keeps, quiet.new_string_keeps, quiet.define_keeps))
  ]

  pub throw_timeout-Keeps : (ctx : ℕ) → Keeps (throw_timeout js ctx)
  unfolding throw_timeout
  throw_timeout-Keeps ctx rt = elim (Bool-cases (is_exception (timeout_error js ctx rt).0)) [
    | inl failed ↦ rw failed (timeout_error-Keeps ctx rt)
    | inr made ↦ rw made (simp quiet.free_value_keeps (timeout_error-Keeps ctx rt))
  ]

  -- `qjs_bun_leave` puts back the deadline that `qjs_bun_enter` found.
  pub leave-deadline :
      (ctx : ℕ) (scope : Scope) (failed : Bool) (rt : Runtime E) (d : Ms)
      → scope.active ≡ true
      → deadline rt ≡ some d
      → deadline (leave js ctx scope failed rt).1 ≡ some scope.saved_ms
  unfolding leave
  leave-deadline ctx scope failed rt d on e = ground (
    arith,
    set_deadline-some scope.saved_ms d rt e,
    throw_timeout-Keeps ctx (now_ms (set_deadline scope.saved_ms rt)).1,
  )

  leave_inactive :
      (ctx : ℕ) (scope : Scope) (failed : Bool) (rt : Runtime E)
      → scope.active ≡ false
      → leave js ctx scope failed rt ≡ (false, rt)
  unfolding leave
  leave_inactive ctx scope failed rt off = rw off refl

-- A command after which the deadline in force is what it was before.
abbrev pub KeepsDeadline : {E A : Type 0} → Cmd E A → Type 0
KeepsDeadline {E} m = (rt : Runtime E) → deadline (m rt).1 ≡ deadline rt

module _ {E : Type 0} (js : Engine E) (quiet : IsQuiet js) where
  bounded_active :
      {A : Type 0} (fails : A → Bool) (ctx : ℕ) (t : Ms) (body : Cmd E A) (rt : Runtime E) (d : Ms)
      → KeepsDeadline body
      → deadline rt ≡ some d
      → deadline (bounded js fails ctx t body rt).1 ≡ some d
  unfolding bounded
  bounded_active fails ctx t body rt d keeps e =
      let entered = enter_lem t rt d e in
      leave-deadline js quiet ctx _ _ _ _ (ap (λ (s : Scope). s.active) entered.0)
        (keeps (enter t rt).1 ∙ entered.1)
      ∙ ap (λ (s : Scope). some s.saved_ms) entered.0

  bounded_inactive :
      {A : Type 0} (fails : A → Bool) (ctx : ℕ) (t : Ms) (body : Cmd E A) (rt : Runtime E)
      → KeepsDeadline body
      → deadline rt ≡ none
      → deadline (bounded js fails ctx t body rt).1 ≡ none
  unfolding bounded
  bounded_inactive fails ctx t body rt keeps e =
      let entered = enter_inactive t rt e in
      ap (λ r. deadline r.1) (leave_inactive js quiet ctx (enter t rt).0 _ _ entered.0)
      ∙ keeps (enter t rt).1
      ∙ ap (λ r. deadline r) entered.1
      ∙ e

  -- A function that may run guest code leaves the deadline in force as it found it, whatever the
  -- engine's function does, as long as that puts back what it changes.
  pub bounded-KeepsDeadline :
      {A : Type 0} (fails : A → Bool) (ctx : ℕ) (t : Ms) (body : Cmd E A)
      → KeepsDeadline body
      → KeepsDeadline (bounded js fails ctx t body)
  bounded-KeepsDeadline fails ctx t body keeps rt = elim (Option-cases (deadline rt)) [
    | inl e ↦ bounded_inactive fails ctx t body rt keeps e ∙ sym e
    | inr (d, e) ↦ bounded_active fails ctx t body rt d keeps e ∙ sym e
  ]

  pub guest_out-KeepsDeadline :
      (ctx : ℕ) (body : Cmd E Value) → KeepsDeadline body → KeepsDeadline (guest_out js ctx body)
  unfolding guest_out
  guest_out-KeepsDeadline ctx body keeps rt =
      bounded-KeepsDeadline is_exception ctx _ body keeps _ ∙ (timeout-limits ctx rt).2

  -- The same for what a host function does between `qjs_bun_enter_scope` and `qjs_bun_leave_scope`.
  leave_scope-deadline :
      (cells : Ms × Ms) (rt : Runtime E) (d : Ms)
      → deadline rt ≡ some d
      → deadline (leave_scope cells rt).1 ≡ some cells.0
  unfolding leave_scope
  leave_scope-deadline (saved, own) rt d e = ground arith

  leave_scope_inactive :
      (cells : Ms × Ms) (rt : Runtime E) → deadline rt ≡ none → leave_scope cells rt ≡ (false, rt)
  unfolding leave_scope
  leave_scope_inactive (saved, own) rt e = ground arith

  pub get_exception-Keeps : Keeps {E = E} get_exception
  unfolding get_exception
  get_exception-Keeps rt = refl

  pub throw-Keeps : (ctx : ℕ) (v : Value) → Keeps (throw js ctx v)
  unfolding throw
  throw-Keeps ctx v rt = quiet.free_value_keeps ctx rt.current_exception rt

  pub timed_out-KeepsDeadline :
      (ctx : ℕ) (t : Ms) (body : Cmd E Value)
      → KeepsDeadline body
      → KeepsDeadline (timed_out js ctx t body)
  unfolding timed_out
  timed_out-KeepsDeadline ctx t body keeps = bounded-KeepsDeadline is_exception ctx t body keeps

  scoped_active :
      {A : Type 0} (t : Ms) (body : Cmd E A) (rt : Runtime E) (d : Ms)
      → KeepsDeadline body
      → deadline rt ≡ some d
      → deadline (scoped t body rt).1 ≡ some d
  unfolding scoped enter_scope
  scoped_active t body rt d keeps e =
      let entered = enter_lem t rt d e in
      leave_scope-deadline _ _ _ (keeps (enter t rt).1 ∙ entered.1)
      ∙ ap (λ (s : Scope). some s.saved_ms) entered.0

  scoped_inactive :
      {A : Type 0} (t : Ms) (body : Cmd E A) (rt : Runtime E)
      → KeepsDeadline body
      → deadline rt ≡ none
      → deadline (scoped t body rt).1 ≡ none
  unfolding scoped enter_scope
  scoped_inactive t body rt keeps e =
      let entered = enter_inactive t rt e in
      let still = keeps (enter t rt).1 ∙ ap (λ r. deadline r) entered.1 ∙ e in
      ap (λ r. deadline r.1) (leave_scope_inactive _ _ still) ∙ still

  pub scoped-KeepsDeadline :
      {A : Type 0} (t : Ms) (body : Cmd E A) → KeepsDeadline body → KeepsDeadline (scoped t body)
  scoped-KeepsDeadline t body keeps rt = elim (Option-cases (deadline rt)) [
    | inl e ↦ scoped_inactive t body rt keeps e ∙ sym e
    | inr (d, e) ↦ scoped_active t body rt d keeps e ∙ sym e
  ]
