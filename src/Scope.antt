-- ===== src/Scope.antt =====
-- src/native/quickjs_bridge.c, lines 86 to 172: the scopes that bound what guest code may take.
pub mod Deadline
pub mod Reporting
use quickjs_bun.Prelude.{ℕ, Bool, true, false, none, some, if◌then◌else◌, not, ℤ, is_negative}
use quickjs_bun.Runtime.{Runtime, Cmd, pure, ◌>>=◌, ◌>>◌, now_ms, bun_state, set_state}
use quickjs_bun.Runtime.Values.{Value, is_exception, js_exception, js_uninitialized}
use quickjs_bun.Runtime.Clock.{Ms, ms, ltb_ms, add_ms}
use quickjs_bun.Engine.{Engine}
use quickjs_bun.Contexts.{timeout}

-- QJSBunScope: `active` says that the state pointer is not NULL.
pub record Scope : Type 0 where
  pub active : Bool
  pub saved_ms : Ms
  pub own_ms : Ms

-- JS_PROP_C_W_E
abbrev pub c_w_e : ℕ
c_w_e = 7

module _ {E : Type 0} where
  -- `state->deadline_ms = d`, through a state pointer
  unfoldable pub set_deadline : Ms → Runtime E → Runtime E
  unfolding bun_state set_state
  set_deadline d rt = elim (bun_state rt) [
    | none ↦ rt
    | some s ↦ set_state (record s { deadline_ms = d }) rt
  ]

  -- qjs_bun_enter
  unfoldable pub enter : Ms → Cmd E Scope
  unfolding bun_state set_deadline now_ms
  enter timeout_ms rt = elim (bun_state rt) [
    | none ↦ (record { active = false; saved_ms = ms 0; own_ms = ms 0 }, rt)
    | some s ↦
        let own : Ms = add_ms (now_ms rt).0 timeout_ms in
        let scope : Scope = record { active = true; saved_ms = s.deadline_ms; own_ms = own } in
        let rt' : Runtime E = (now_ms rt).1 in
        (scope, if ltb_ms own s.deadline_ms then set_deadline own rt' else rt')
  ]

  -- JS_Throw and JS_GetException
  unfoldable pub throw : Engine E → ℕ → Value → Cmd E Value
  throw js ctx v rt =
      let rt' : Runtime E = (js.free_value ctx rt.current_exception rt).1 in
      (js_exception, record rt' { current_exception = v; current_exception_is_uncatchable = false })

  pub get_exception : Cmd E Value
  get_exception rt = (rt.current_exception, record rt { current_exception = js_uninitialized })

  module _ (js : Engine E) where
    -- qjs_bun_timeout_error
    pub timeout_error : ℕ → Cmd E Value
    timeout_error ctx = do
      error ← js.new_error ctx
      if is_exception error then pure error else do
        name ← js.new_string ctx "TimeoutError"
        _ ← js.define_property_value ctx error "name" name c_w_e
        message ← js.new_string ctx "QuickJS execution timed out"
        _ ← js.define_property_value ctx error "message" message c_w_e
        pure error

    -- qjs_bun_throw_timeout
    pub throw_timeout : ℕ → Cmd E (Unit {0})
    unfolding throw get_exception
    throw_timeout ctx = do
      error ← timeout_error ctx
      if is_exception error
          then pure tt
          else do old ← get_exception; js.free_value ctx old; _ ← throw js ctx error; pure tt

    -- qjs_bun_leave: whether the timeout was reported
    pub leave : ℕ → Scope → Bool → Cmd E Bool
    unfolding set_deadline now_ms
    leave ctx scope failed rt =
        if scope.active
        then (let rt' : Runtime E = set_deadline scope.saved_ms rt in
            if failed
            then (if ltb_ms (ms (now_ms rt').0) scope.own_ms
                then (false, (now_ms rt').1)
                else (throw_timeout ctx >> pure true) (now_ms rt').1)
            else (false, rt'))
        else (false, rt)

    -- The shape of every function that may run guest code: `body` is the engine's function, and
    -- `fails` says which of its results is a failure.
    unfoldable pub bounded : {A : Type 0} → (A → Bool) → ℕ → Ms → Cmd E A → Cmd E A
    bounded fails ctx timeout_ms body = do
      scope ← enter timeout_ms
      out ← body
      _ ← leave ctx scope (fails out)
      pure out

    -- QJS_GUEST_OUT, for an engine function with a value
    pub guest_out : ℕ → Cmd E Value → Cmd E Value
    guest_out ctx body = do limit ← timeout ctx; bounded is_exception ctx limit body

    -- QJS_GUEST_RET, for an engine function with an `int`
    pub guest_ret : ℕ → Cmd E ℤ → Cmd E ℤ
    guest_ret ctx body = do limit ← timeout ctx; bounded is_negative ctx limit body

    -- qjs_bun_eval_function, qjs_bun_call, qjs_bun_invoke and qjs_bun_call_constructor, each with
    -- its engine function: the caller gives the timeout
    pub timed_out : ℕ → Ms → Cmd E Value → Cmd E Value
    timed_out ctx timeout_ms body = bounded is_exception ctx timeout_ms body

  -- qjs_bun_enter_scope, with the two cells of `scope`
  pub enter_scope : Ms → Cmd E (Ms × Ms)
  unfolding enter
  enter_scope timeout_ms = do entered ← enter timeout_ms; pure (entered.saved_ms, entered.own_ms)

  -- qjs_bun_leave_scope
  pub leave_scope : Ms × Ms → Cmd E Bool
  unfolding bun_state set_state now_ms
  leave_scope (saved, own) rt = elim (bun_state rt) [
    | none ↦ (false, rt)
    | some s ↦
        let rt' : Runtime E = set_state (record s { deadline_ms = saved }) rt in
        (not (ltb_ms (ms (now_ms rt').0) own), (now_ms rt').1)
  ]

  -- A host function's work between the two: whether its own deadline has passed.
  pub scoped : {A : Type 0} → Ms → Cmd E A → Cmd E Bool
  scoped timeout_ms body = do cells ← enter_scope timeout_ms; _ ← body; leave_scope cells
