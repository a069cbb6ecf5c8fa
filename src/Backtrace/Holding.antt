-- ===== src/Backtrace/Holding.antt =====
-- How often a resource is held before and after a step, the runtime's exception counted apart.
use quickjs_bun.Prelude.{ℕ, ◌+◌, ◌≡◌, ap, ◌∙◌, Option, some}
use quickjs_bun.Runtime.{Runtime, Cmd}
use quickjs_bun.Runtime.Values.{Value}
use quickjs_bun.Ownership.{
  Act, Resource, Ledger, ref, taken, used, released, take, use_held, release,
}
use quickjs_bun.Ownership.Laws.{own, weight, taken_lem, used_lem, released_lem, swap_last}
use quickjs_bun.Backtrace.{throwing}

module _ {E : Type 0} (x : Resource) where
  -- Where `k` are held besides what the runtime's exception holds, as many are held afterwards as
  -- `m` says for the result, besides what the exception holds then.
  abbrev pub Leaves : {A : Type 0} → ℕ → (A → ℕ) → Act E A → Type 0
  Leaves k m act =
      (rt : Runtime E) (l : Ledger)
      → l x ≡ some (k + own x rt.current_exception)
      → (act rt l).2 x ≡ some (m (act rt l).0 + own x (act rt l).1.current_exception)

-- `w` more beside `k`, in front of what the exception holds
aside : (k w e : ℕ) (o : Option ℕ) → o ≡ some (k + w + e) → o ≡ some (k + e + w)
aside k w e o h = h ∙ ap some (swap_last k w e)

back : (k w e : ℕ) (o : Option ℕ) → o ≡ some (k + e + w) → o ≡ some (k + w + e)
back k w e o h = h ∙ ap some (swap_last k e w)

module _ {E : Type 0} (x : Resource) (k : ℕ) where
  pub take-Leaves : (r : Option Resource) → Leaves {E = E} x k (λ _. k + weight x r) (take r)
  take-Leaves r rt l e =
      back k (weight x r) (own x rt.current_exception) (taken r l x)
        (taken_lem x r l (k + own x rt.current_exception) e)

  pub use_held-Leaves :
      (r : Option Resource) → Leaves {E = E} x (k + weight x r) (λ _. k + weight x r) (use_held r)
  use_held-Leaves r rt l e =
      let w : ℕ = own x rt.current_exception in
      back k (weight x r) w (used r l x) (used_lem x r l (k + w) (aside k (weight x r) w (l x) e))

  pub release-Leaves :
      (r : Option Resource) → Leaves {E = E} x (k + weight x r) (λ _. k) (release r)
  release-Leaves r rt l e =
      let w : ℕ = own x rt.current_exception in
      released_lem x r l (k + w) (aside k (weight x r) w (l x) e)

  -- A call that replaces the exception
  pub throwing-Leaves : {A : Type 0} (m : Cmd E A) → Leaves x k (λ _. k) (throwing m)
  unfolding throwing
  throwing-Leaves m rt l e =
      let now : Value = (m rt).1.current_exception in
      taken_lem x (ref now) (released (ref rt.current_exception) l) k
        (released_lem x (ref rt.current_exception) l k e)
