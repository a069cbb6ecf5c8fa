-- ===== src/Interrupt/Latch.antt =====
-- Once the deadline has passed, a guest that polls is interrupted soon, and again after each
-- interrupt.
use quickjs_bun.Prelude.{
  ℕ, zero, suc, ◌-◌, ◌≤◌, ◌<◌, ◌≡◌, refl, ◌∙◌, ap, Bool, true, false, List, [], ◌∷◌, inl, inr, ◌==◌,
  leb, if◌then◌else◌, arith, Bool-cases,
}
use quickjs_bun.Runtime.{State, JsContext, Runtime, bridge, Cmd}
use quickjs_bun.Runtime.Clock.{ms, ltb_ms}
use quickjs_bun.Engine.{Engine, IsQuiet}
use quickjs_bun.Interrupt.{
  interrupt_counter_init, counter, set_counter, hurry, interrupt, write_counter, call_handler,
  throw_interrupted, slow_poll, poll,
}

-- The engine knows the context.
unfoldable pub listed : ℕ → List JsContext → Bool
listed ctx [] = false
listed ctx (c ∷ cs) = if c.address == ctx then true else listed ctx cs

-- The runtime is the bridge's, the context is one of it, and every reading of the clock from now on
-- is at or past the deadline.
pub record Expired {E : Type 0} (ctx : ℕ) (s : State) (rt : Runtime E) : Type 0 where
  pub handled : rt.handler ≡ bridge s
  pub member : listed ctx rt.context_list ≡ true
  pub past : (i : ℕ) → rt.reads ≤ i → ltb_ms (ms (rt.clock i)) s.deadline_ms ≡ false

counter-set_counter :
    (ctx n : ℕ) (cs : List JsContext)
    → listed ctx cs ≡ true
    → counter ctx (set_counter ctx n cs) ≡ n
unfolding counter set_counter listed
counter-set_counter ctx n [] h = cc
counter-set_counter ctx n (c ∷ cs) h = ground (arith, counter-set_counter ctx n cs)

listed-set_counter :
    (ctx d n : ℕ) (cs : List JsContext) → listed d (set_counter ctx n cs) ≡ listed d cs
unfolding set_counter listed
listed-set_counter ctx d n [] = refl
listed-set_counter ctx d n (c ∷ cs) = ground (arith, listed-set_counter ctx d n cs)

counter-hurry : (ctx : ℕ) (cs : List JsContext) → listed ctx cs ≡ true → counter ctx (hurry cs) ≡ 2
unfolding counter hurry listed
counter-hurry ctx [] h = cc
counter-hurry ctx (c ∷ cs) h = ground (arith, counter-hurry ctx cs)

listed-hurry : (ctx : ℕ) (cs : List JsContext) → listed ctx (hurry cs) ≡ listed ctx cs
unfolding hurry listed
listed-hurry ctx [] = refl
listed-hurry ctx (c ∷ cs) = ground (arith, listed-hurry ctx cs)

Expired-set_counter :
    {E : Type 0} (ctx n : ℕ) (rt : Runtime E) (s : State)
    → Expired ctx s rt
    → Expired ctx s (write_counter ctx n rt).1
unfolding write_counter
Expired-set_counter ctx n rt s x = record {
  handled = x.handled;
  member = listed-set_counter ctx ctx n rt.context_list ∙ x.member;
  past = x.past;
}

-- A write to one context's counter keeps the other contexts too.
write_other :
    {E : Type 0} (ctx d n : ℕ) (rt : Runtime E) (s : State)
    → Expired d s rt
    → Expired d s (write_counter ctx n rt).1
unfolding write_counter
write_other ctx d n rt s x = record {
  handled = x.handled;
  member = listed-set_counter ctx d n rt.context_list ∙ x.member;
  past = x.past;
}

module _ {E : Type 0} (js : Engine E) where
  -- `js_poll_interrupts` until it fails, `k` times at most: whether it failed.
  unfoldable pub spin : ℕ → ℕ → Cmd E Bool
  spin zero ctx rt = (false, rt)
  spin (suc k) ctx rt =
      let rest = spin k ctx (poll js ctx rt).1 in
      if (poll js ctx rt).0 then poll js ctx rt else rest

  -- A poll with a counter above 1 only counts.
  poll_counts :
      (ctx : ℕ) (rt : Runtime E)
      → 1 < counter ctx rt.context_list
      → poll js ctx rt ≡ (false, (write_counter ctx (counter ctx rt.context_list - 1) rt).1)
  unfolding poll
  poll_counts ctx rt h =
      let slow : leb (counter ctx rt.context_list) 1 ≡ false = ground arith in rw slow refl

  interrupt_fires :
      (s : State) (rt : Runtime E)
      → ltb_ms (ms (rt.clock rt.reads)) s.deadline_ms ≡ false
      → ((interrupt s rt).0 ≡ true)
        × ((interrupt s rt).1.context_list ≡ hurry rt.context_list)
        × ((interrupt s rt).1.handler ≡ rt.handler)
        × ((interrupt s rt).1.clock ≡ rt.clock)
        × ((interrupt s rt).1.reads ≡ suc rt.reads)
  unfolding interrupt
  interrupt_fires s rt past = rw past (refl, refl, refl, refl, refl)

  call_handler_bridge :
      (s : State) (rt : Runtime E) → rt.handler ≡ bridge s → call_handler js rt ≡ interrupt s rt
  unfolding call_handler
  call_handler_bridge s rt e = ground arith

  after_interrupt : ℕ → State → Runtime E → Runtime E
  after_interrupt ctx s rt =
      (throw_interrupted js ctx (interrupt s (write_counter ctx interrupt_counter_init rt).1).1).1

  slow_poll_fires :
      (ctx : ℕ) (rt : Runtime E) (s : State)
      → Expired ctx s rt
      → slow_poll js ctx rt ≡ (true, after_interrupt ctx s rt)
  unfolding slow_poll after_interrupt
  slow_poll_fires ctx rt s x =
      let w : Runtime E = (write_counter ctx interrupt_counter_init rt).1 in
      let y : Expired ctx s w = Expired-set_counter ctx interrupt_counter_init rt s x in
      rw (call_handler_bridge s w y.handled)
        (rw (interrupt_fires s w (y.past w.reads (omega arith))).0 refl)

  -- A poll with a counter of 1 or less is interrupted.
  poll_fires :
      (ctx : ℕ) (rt : Runtime E) (s : State)
      → Expired ctx s rt
      → counter ctx rt.context_list ≤ 1
      → poll js ctx rt
        ≡ (true, after_interrupt ctx s (write_counter ctx (counter ctx rt.context_list - 1) rt).1)
  unfolding poll
  poll_fires ctx rt s x h =
      let slow : leb (counter ctx rt.context_list) 1 ≡ true = ground arith in
      rw slow (slow_poll_fires ctx _ s (Expired-set_counter ctx _ rt s x))

  counter_written :
      (ctx n : ℕ) (rt : Runtime E) (s : State)
      → Expired ctx s rt
      → counter ctx (write_counter ctx n rt).1.context_list ≡ n
  unfolding write_counter
  counter_written ctx n rt s x = counter-set_counter ctx n rt.context_list x.member

  -- Past the deadline, a guest that goes on polling is interrupted by the time its context's counter
  -- has run down: after as many polls as the counter says, and after one if that is 0.
  pub spin_interrupted :
      (k ctx : ℕ) (rt : Runtime E) (s : State)
      → Expired ctx s rt
      → counter ctx rt.context_list ≤ suc k
      → (spin (suc k) ctx rt).0 ≡ true
  unfolding spin
  spin_interrupted zero ctx rt s x h = ground (arith, poll_fires ctx rt s x h)
  spin_interrupted (suc k) ctx rt s x h = elim (Bool-cases (leb (counter ctx rt.context_list) 1)) [
    | inl low ↦ ground (arith, poll_fires ctx rt s x (ground arith))
    | inr high ↦
        let counts = poll_counts ctx rt (ground arith) in
        rw counts (
          spin_interrupted k ctx _ s (Expired-set_counter ctx _ rt s x)
            (omega (arith, counter_written ctx (counter ctx rt.context_list - 1) rt s x)))
  ]

module _ {E : Type 0} (js : Engine E) (quiet : IsQuiet js) where
  after_interrupt_fields :
      (ctx : ℕ) (rt : Runtime E) (s : State)
      → Expired ctx s rt
      → let after = after_interrupt js ctx s rt in
        (after.handler ≡ bridge s)
        × (after.context_list ≡ hurry (set_counter ctx interrupt_counter_init rt.context_list))
        × (after.clock ≡ rt.clock)
        × (rt.reads ≤ after.reads)
  unfolding after_interrupt throw_interrupted write_counter
  after_interrupt_fields ctx rt s x =
      let w : Runtime E = (write_counter ctx interrupt_counter_init rt).1 in
      let i : Runtime E = (interrupt s w).1 in
      let fires = interrupt_fires js s w (x.past rt.reads (omega arith)) in
      (
        quiet.throw_internal_keeps ctx "interrupted" i ∙ fires.2 ∙ x.handled,
        quiet.throw_internal_contexts ctx "interrupted" i ∙ fires.1,
        quiet.throw_internal_clock ctx "interrupted" i ∙ fires.3,
        omega (arith, quiet.throw_internal_reads ctx "interrupted" i, fires.4),
      )

  after_interrupt-Expired :
      (ctx d : ℕ) (rt : Runtime E) (s : State)
      → Expired ctx s rt
      → Expired d s rt
      → Expired d s (after_interrupt js ctx s rt)
        × (counter d (after_interrupt js ctx s rt).context_list ≡ 2)
  after_interrupt-Expired ctx d rt s x y =
      let f = after_interrupt_fields ctx rt s x in
      let after : Runtime E = after_interrupt js ctx s rt in
      let contexts : List JsContext = set_counter ctx interrupt_counter_init rt.context_list in
      let here : listed d contexts ≡ true =
        listed-set_counter ctx d interrupt_counter_init rt.context_list ∙ y.member in
      (
        record {
          handled = f.0;
          member = ap (listed d) f.1 ∙ listed-hurry d contexts ∙ here;
          past = λ i le.
              ap (λ (c : ℕ → ℕ). ltb_ms (ms (c i)) s.deadline_ms) f.2
              ∙ y.past i (omega (arith, f.3));
        },
        ap (counter d) f.1 ∙ counter-hurry d contexts here,
      )

  -- An interrupt is not the last: whichever context goes on polling, it is interrupted again at its
  -- second poll at the latest, and this again leaves the guest past its deadline.
  pub poll_again :
      (ctx d : ℕ) (rt : Runtime E) (s : State)
      → Expired ctx s rt
      → Expired d s rt
      → counter ctx rt.context_list ≤ 1
      → ((poll js ctx rt).0 ≡ true)
        × Expired d s (poll js ctx rt).1
        × ((spin js 2 d (poll js ctx rt).1).0 ≡ true)
  poll_again ctx d rt s x y h = rw (poll_fires js ctx rt s x h) (
      let n = counter ctx rt.context_list - 1 in
      let w : Runtime E = (write_counter ctx n rt).1 in
      let again =
        after_interrupt-Expired ctx d w s (Expired-set_counter ctx n rt s x)
          (write_other ctx d n rt s y) in
      (
        refl,
        again.0,
        spin_interrupted js 1 d (after_interrupt js ctx s w) s again.0 (omega (arith, again.1)),
      ))
