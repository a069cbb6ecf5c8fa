-- ===== src/Lifecycle/Hooks.antt =====
-- That the engine's callbacks reach the functions that the host has set last.
use quickjs_bun.Prelude.{◌≡◌, refl, ℕ, Option, none, some}
use quickjs_bun.Runtime.{Runtime, State, bridge, bun_state, set_state}
use quickjs_bun.Lifecycle.{Callbacks, set_module_loader, loader_called, normalizer_called}

-- What the engine reaches through a trampoline that is set where the host gave a function.
abbrev pub reached : Option ℕ → Option (Option ℕ)
reached none = none
reached (some f) = some (some f)

module _ {E : Type 0} (rt : Runtime E) (s : State) (c : Callbacks) where
  -- After qjs_bun_set_module_loader the engine calls the loader and the normalizer that were given,
  -- and neither through NULL.
  pub set_module_loader-reached :
      (loader normalizer : Option ℕ)
      → let r = set_module_loader loader normalizer (record rt { handler = bridge s }) c in
        (loader_called r.0 r.1 ≡ reached loader) × (normalizer_called r.0 r.1 ≡ reached normalizer)
  unfolding set_module_loader loader_called normalizer_called bun_state set_state
  set_module_loader-reached none none = (refl, refl)
  set_module_loader-reached none (some g) = (refl, refl)
  set_module_loader-reached (some f) none = (refl, refl)
  set_module_loader-reached (some f) (some g) = (refl, refl)
