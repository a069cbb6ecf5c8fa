-- ===== src/Interrupt/Keeping.antt =====
-- Polling leaves the handler and the bridge's state alone.
use quickjs_bun.Runtime.Clock.{infinity}
use quickjs_bun.Prelude.{ℕ, ◌-◌, false, ◌≡◌, refl, ◌∙◌, inl, inr, leb, Bool-cases, arith}
use quickjs_bun.Runtime.{Runtime, State, Handler, unset, bridge, foreign}
use quickjs_bun.Engine.{Engine, IsQuiet, Keeps}
use quickjs_bun.Interrupt.{
  interrupt_counter_init, counter, interrupt, write_counter, call_handler, throw_interrupted,
  slow_poll, poll,
}

module _ {E : Type 0} (js : Engine E) (quiet : IsQuiet js) where
  interrupt-Keeps : (s : State) → Keeps {E = E} (interrupt s)
  unfolding interrupt
  interrupt-Keeps s rt = ground arith

  call_handler_at :
      (h : Handler) (rt : Runtime E) → rt.handler ≡ h → (call_handler js rt).1.handler ≡ h
  unfolding call_handler
  call_handler_at unset rt e = ground arith
  call_handler_at (bridge s) rt e = ground (arith, interrupt-Keeps s rt)
  call_handler_at (foreign f) rt e = ground (arith, quiet.foreign_keeps f rt)

  slow_poll-Keeps : (ctx : ℕ) → Keeps (slow_poll js ctx)
  unfolding slow_poll throw_interrupted write_counter
  slow_poll-Keeps ctx rt =
      let w : Runtime E = (write_counter ctx interrupt_counter_init rt).1 in
      let called = call_handler_at rt.handler w refl in
      elim (Bool-cases (call_handler js w).0) [
        | inl yes_ ↦
            rw yes_ (quiet.throw_internal_keeps ctx "interrupted" (call_handler js w).1 ∙ called)
        | inr no_ ↦ rw no_ called
      ]

  pub poll-Keeps : (ctx : ℕ) → Keeps (poll js ctx)
  unfolding poll write_counter
  poll-Keeps ctx rt = elim (Bool-cases (leb (counter ctx rt.context_list) 1)) [
    | inl slow ↦ rw slow (slow_poll-Keeps ctx _)
    | inr fast ↦ rw fast refl
  ]

  call_handler_unlimited :
      (s : State) (rt : Runtime E)
      → rt.handler ≡ bridge s
      → s.deadline_ms ≡ infinity
      → (call_handler js rt).0 ≡ false
  unfolding call_handler interrupt
  call_handler_unlimited s rt e unlimited = rw e (rw unlimited refl)

  -- With no deadline in force a poll does not interrupt.
  pub poll_unlimited :
      (ctx : ℕ) (s : State) (rt : Runtime E)
      → rt.handler ≡ bridge s
      → s.deadline_ms ≡ infinity
      → (poll js ctx rt).0 ≡ false
  unfolding poll slow_poll write_counter
  poll_unlimited ctx s rt e unlimited = elim (Bool-cases (leb (counter ctx rt.context_list) 1)) [
    | inl slow ↦
        let next = (write_counter ctx (counter ctx rt.context_list - 1) rt).1 in
        let w : Runtime E = (write_counter ctx interrupt_counter_init next).1 in
        rw (slow, call_handler_unlimited s w e unlimited) refl
    | inr fast ↦ rw fast refl
  ]
