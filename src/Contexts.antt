-- ===== src/Contexts.antt =====
-- src/native/quickjs_bridge.c: the list of contexts with their timeouts, `qjs_bun_timeout`,
-- `qjs_bun_new_context` and `qjs_bun_free_context`.
pub mod Lookup
pub mod Registry
pub mod History
use mathlib.Core.Option
use quickjs_bun.Prelude.{
  ℕ, Bool, true, false, Option, none, some, List, [], ◌∷◌, ◌==◌, if◌then◌else◌,
}
use quickjs_bun.Runtime.{ContextEntry, State, Runtime, Cmd, pure, ◌>>=◌, ◌>>◌, bun_state, set_state}
use quickjs_bun.Runtime.Clock.{Ms, infinity}
use quickjs_bun.Engine.{Engine}

-- sizeof(QJSBunContext)
abbrev entry_size : ℕ
entry_size = 24

-- The walk over `link`: the first entry of the context, and the list with it unlinked.
unfoldable pub unlink : ℕ → List ContextEntry → Option (ContextEntry × List ContextEntry)
unlink ctx [] = none
unlink ctx (e ∷ es) =
    if e.ctx == ctx then some (e, es) else Option.map (λ (f, rest). (f, e ∷ rest)) (unlink ctx es)

module _ {E : Type 0} where
  -- qjs_bun_timeout
  unfoldable pub timeout : ℕ → Cmd E Ms
  unfolding unlink bun_state set_state
  timeout ctx rt = elim (bun_state rt) [
    | none ↦ (infinity, rt)
    | some s ↦ elim (unlink ctx s.contexts) [
      | none ↦ (infinity, rt)
      | some (entry, rest) ↦ (entry.timeout_ms, set_state (record s { contexts = entry ∷ rest }) rt)
    ]
  ]

  -- The entry's unlinking in qjs_bun_free_context.
  unfoldable pub forget : ℕ → Cmd E (Unit {0})
  unfolding unlink bun_state set_state
  forget ctx rt = elim (bun_state rt) [
    | none ↦ (tt, rt)
    | some s ↦ elim (unlink ctx s.contexts) [
      | none ↦ (tt, rt)
      | some (entry, rest) ↦ (tt, set_state (record s { contexts = rest }) rt)
    ]
  ]

  -- The new entry in front of the list in qjs_bun_new_context.
  remember : ℕ → Ms → Cmd E (Unit {0})
  unfolding bun_state set_state
  remember ctx timeout_ms rt = elim (bun_state rt) [
    | none ↦ (tt, rt)
    | some s ↦ (
      tt,
      set_state (record s { contexts = record { ctx = ctx; timeout_ms = timeout_ms } ∷ s.contexts })
          rt,
    )
  ]

  has_state : Runtime E → Bool
  unfolding bun_state
  has_state rt = elim (bun_state rt) [ none ↦ false | some s ↦ true ]

  module _ (js : Engine E) where
    -- qjs_bun_free_context
    unfoldable pub free_context : ℕ → Cmd E (Unit {0})
    unfolding forget
    free_context ctx = forget ctx >> js.free_context ctx

    -- qjs_bun_hide_atomics, where CONFIG_ATOMICS is defined or not
    unfoldable pub hide_atomics : Bool → ℕ → Cmd E (Unit {0})
    hide_atomics config_atomics ctx =
        if config_atomics
        then (do
          global ← js.get_global_object ctx
          atom ← js.new_atom ctx "Atomics"
          _ ← js.delete_property ctx global atom 0
          js.free_atom ctx atom
          js.free_value ctx global)
        else pure tt

    -- The allocation of an entry for a new context, which ends the context if it fails.
    register : ℕ → Ms → Cmd E (Option ℕ)
    unfolding remember
    register ctx timeout_ms = do
      allocated ← js.malloc entry_size
      if allocated
          then remember ctx timeout_ms >> pure (some ctx)
          else js.free_context ctx >> pure none

    register_if : ℕ → Ms → Cmd E (Option ℕ)
    unfolding has_state register
    register_if ctx timeout_ms rt =
        if has_state rt then register ctx timeout_ms rt else (some ctx, rt)

    -- What follows JS_NewContext or JS_NewContextRaw.
    set_up : Bool → Bool → Ms → Option ℕ → Cmd E (Option ℕ)
    unfolding register_if hide_atomics
    set_up config_atomics raw timeout_ms none = pure none
    set_up config_atomics raw timeout_ms (some ctx) =
        (if raw then pure tt else hide_atomics config_atomics ctx) >> register_if ctx timeout_ms

    -- qjs_bun_new_context
    unfoldable pub new_context : Bool → Bool → Ms → Cmd E (Option ℕ)
    unfolding set_up
    new_context config_atomics raw timeout_ms = do
      made ← if raw then js.new_context_raw else js.new_context
      set_up config_atomics raw timeout_ms made
