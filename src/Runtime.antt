-- ===== src/Runtime.antt =====
-- src/native/quickjs_bridge.c, lines 3 to 107: the bridge's state, the clock, and the parts of a
-- JSRuntime that the bridge reads and writes.
pub mod Values
pub mod Clock
use quickjs_bun.Prelude.{ℕ, suc, Bool, Option, none, some, List}
use Values.{Value}
use Clock.{Ms}

-- QJSBunContext, in the order of the linked list. A context is known by its address.
pub record ContextEntry : Type 0 where
  pub ctx : ℕ
  pub timeout_ms : Ms

-- QJSBunRuntime. A function pointer is a number, and NULL is `none`.
pub record State : Type 0 where
  pub deadline_ms : Ms
  pub contexts : List ContextEntry
  pub finalizers : List (Option ℕ)
  pub finalizer_count : ℕ
  pub module_loader : Option ℕ
  pub module_normalizer : Option ℕ

-- `rt->interrupt_handler` with `rt->interrupt_opaque`: unset, the bridge's handler with its state,
-- or another handler.
pub data Handler : Type 0 where
  unset : Handler
  bridge : State → Handler
  foreign : ℕ → Handler

-- An element of `rt->context_list`.
pub record JsContext : Type 0 where
  pub address : ℕ
  pub interrupt_counter : ℕ

-- A JSRuntime. `clock i` is the i-th reading of the monotonic clock and `reads` the number of
-- readings made; `engine` stands for all of the engine that the bridge does not look into.
pub record Runtime (E : Type 0) : Type 0 where
  pub handler : Handler
  pub context_list : List JsContext
  pub current_exception : Value
  pub current_exception_is_uncatchable : Bool
  pub clock : ℕ → ℕ
  pub reads : ℕ
  pub engine : E

-- What a function of the bridge or the engine does: a new runtime and a result.
abbrev pub Cmd : Type 0 → Type 0 → Type 0
Cmd E A = Runtime E → A × Runtime E

module _ {E A B : Type 0} where
  infixl 5 ◌>>=◌ ◌>>◌
  abbrev pub ◌>>=◌ : Cmd E A → (A → Cmd E B) → Cmd E B
  ◌>>=◌ m f rt = f (m rt).0 (m rt).1

  abbrev pub ◌>>◌ : Cmd E A → Cmd E B → Cmd E B
  ◌>>◌ m n rt = n (m rt).1

abbrev pub pure : {E A : Type 0} → A → Cmd E A
pure a rt = (a, rt)

module _ {E : Type 0} where
  -- qjs_bun_now_ms
  unfoldable pub now_ms : Cmd E ℕ
  now_ms rt = (rt.clock rt.reads, record rt { reads = suc rt.reads })

  -- qjs_bun_state
  unfoldable pub bun_state : Runtime E → Option State
  bun_state rt = elim rt.handler [ bridge s ↦ some s | _ ↦ none ]

  -- A write through the state pointer that `bun_state` gave.
  unfoldable pub set_state : State → Runtime E → Runtime E
  set_state s rt = record rt { handler = bridge s }
