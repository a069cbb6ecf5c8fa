-- ===== src/Interrupt.antt =====
-- `qjs_bun_interrupt` of src/native/quickjs_bridge.c, and the engine's poll of it,
-- `js_poll_interrupts` of quickjs/quickjs.c.
pub mod Keeping
pub mod Latch
use quickjs_bun.Prelude.{
  ℕ, ◌-◌, Bool, true, false, none, some, List, [], ◌∷◌, map, leb, ◌==◌, if◌then◌else◌,
}
use quickjs_bun.Runtime.{
  State, JsContext, Runtime, unset, bridge, foreign, Cmd, pure, ◌>>=◌, ◌>>◌, now_ms,
}
use quickjs_bun.Runtime.Values.{Value}
use quickjs_bun.Runtime.Clock.{Ms, ms, ltb_ms}
use quickjs_bun.Engine.{Engine}

-- JS_INTERRUPT_COUNTER_INIT
abbrev pub interrupt_counter_init : ℕ
interrupt_counter_init = 10000

-- `ctx->interrupt_counter`. A counter at or below 0 is 0: the only test made of it is `<= 0`.
unfoldable pub counter : ℕ → List JsContext → ℕ
counter ctx [] = 0
counter ctx (c ∷ cs) = if c.address == ctx then c.interrupt_counter else counter ctx cs

-- `ctx->interrupt_counter = n`
unfoldable pub set_counter : ℕ → ℕ → List JsContext → List JsContext
set_counter ctx n [] = []
set_counter ctx n (c ∷ cs) =
    if c.address == ctx then record c { interrupt_counter = n } ∷ cs else c ∷ set_counter ctx n cs

-- The loop of qjs_bun_interrupt over the contexts.
unfoldable pub hurry : List JsContext → List JsContext
hurry [] = []
hurry (c ∷ cs) = record c { interrupt_counter = 2 } ∷ hurry cs

module _ {E : Type 0} where
  -- qjs_bun_interrupt
  unfoldable pub interrupt : State → Cmd E Bool
  unfolding now_ms
  interrupt state rt =
      let now : ℕ = (now_ms rt).0 in
      let rt' : Runtime E = (now_ms rt).1 in
      if ltb_ms (ms now) state.deadline_ms
      then (false, rt')
      else (true, record rt' { context_list = hurry rt'.context_list })

  unfoldable pub write_counter : ℕ → ℕ → Cmd E (Unit {0})
  write_counter ctx n rt = (tt, record rt { context_list = set_counter ctx n rt.context_list })

  module _ (js : Engine E) where
    -- The call through `rt->interrupt_handler`.
    call_handler : Cmd E Bool
    call_handler rt = elim rt.handler [
      | unset ↦ (false, rt)
      | bridge s ↦ interrupt s rt
      | foreign f ↦ js.foreign_handler f rt
    ]

    -- JS_ThrowInterrupted
    pub throw_interrupted : ℕ → Cmd E (Unit {0})
    throw_interrupted ctx rt =
        let rt' : Runtime E = (js.throw_internal_error ctx "interrupted" rt).1 in
        (tt, record rt' { current_exception_is_uncatchable = true })

    -- __js_poll_interrupts: whether it fails
    pub slow_poll : ℕ → Cmd E Bool
    slow_poll ctx = do
      write_counter ctx interrupt_counter_init
      interrupted ← call_handler
      if interrupted then throw_interrupted ctx >> pure true else pure false

    -- js_poll_interrupts: whether it fails
    unfoldable pub poll : ℕ → Cmd E Bool
    poll ctx rt =
        let n : ℕ = counter ctx rt.context_list in
        (write_counter ctx (n - 1) >> (if leb n 1 then slow_poll ctx else pure false)) rt
