-- ===== src/Guest/Nesting.antt =====
-- However guest code and host functions nest, the deadline is put back, and no inner scope
-- outlives an outer one.
use quickjs_bun.Prelude.{
  ◌≡◌, refl, ◌∙◌, ap, Option, none, some, List, [], ◌∷◌, ◌++◌, inl, inr, Option-cases, All,
}
use quickjs_bun.Runtime.{Runtime}
use quickjs_bun.Runtime.Clock.{Ms, ◌≤ms◌, ≤ms_refl, ≤ms_trans, min_ms-le_right}
use quickjs_bun.Engine.{Engine, IsQuiet}
use quickjs_bun.Contexts.{timeout}
use quickjs_bun.Contexts.Registry.{deadline, deadline_of, timeout-limits}
use quickjs_bun.Scope.{enter}
use quickjs_bun.Scope.Deadline.{
  KeepsDeadline, enter_lem, enter_inactive, guest_out-KeepsDeadline, throw-Keeps,
  timed_out-KeepsDeadline, scoped-KeepsDeadline,
}
use quickjs_bun.Interrupt.Keeping.{poll-Keeps}
use quickjs_bun.Guest.{
  Guest, returns, throws, works, polls, calls, reads_property, opens, work, run, deadlines,
}

module _ {E : Type 0} (js : Engine E) (quiet : IsQuiet js) where
  -- Running any guest code, with host functions that call back into the bridge to any depth, leaves
  -- the deadline in force as it was before.
  pub run-KeepsDeadline : (g : Guest E) → KeepsDeadline (run js g)
  unfolding run work
  run-KeepsDeadline (returns v) rt = refl
  run-KeepsDeadline (throws ctx v) rt = ap deadline_of (throw-Keeps js quiet ctx v rt)
  run-KeepsDeadline (works f g) rt = run-KeepsDeadline g _
  run-KeepsDeadline (polls ctx k) rt =
      run-KeepsDeadline (k _) _ ∙ ap deadline_of (poll-Keeps js quiet ctx rt)
  run-KeepsDeadline (calls ctx t body k) rt =
      run-KeepsDeadline (k _) _
      ∙ timed_out-KeepsDeadline js quiet ctx t (run js body) (run-KeepsDeadline body) rt
  run-KeepsDeadline (reads_property ctx body k) rt =
      run-KeepsDeadline (k _) _
      ∙ guest_out-KeepsDeadline js quiet ctx (run js body) (run-KeepsDeadline body) rt
  run-KeepsDeadline (opens t body k) rt =
      run-KeepsDeadline (k _) _
      ∙ scoped-KeepsDeadline js quiet t (run js body) (run-KeepsDeadline body) rt

-- `d` is no later than `e`, where there is a deadline.
abbrev pub NoLater : Option Ms → Option Ms → Type 0
NoLater none none = Unit {0}
NoLater none (some e) = ⊥
NoLater (some d) none = ⊥
NoLater (some d) (some e) = d ≤ms e

NoLater-trans : (a b c : Option Ms) → NoLater a b → NoLater b c → NoLater a c
NoLater-trans none none none h k = tt
NoLater-trans (some a) (some b) (some c) h k = ≤ms_trans a b c h k
NoLater-trans none none (some c) h k = k
NoLater-trans none (some b) c h k = absurd h
NoLater-trans (some a) none c h k = absurd h
NoLater-trans (some a) (some b) none h k = k

NoLater-refl : (a : Option Ms) → NoLater a a
NoLater-refl none = tt
NoLater-refl (some a) = ≤ms_refl a

module _ {E : Type 0} where
  enter-NoLater : (t : Ms) (rt : Runtime E) → NoLater (deadline (enter t rt).1) (deadline rt)
  enter-NoLater t rt = elim (Option-cases (deadline rt)) [
    | inl e ↦ rw ((enter_inactive t rt e).1, e) tt
    | inr (d, e) ↦ rw ((enter_lem t rt d e).1, e) (min_ms-le_right _ d)
  ]

All-NoLater :
    (ds : List (Option Ms)) (a b : Option Ms)
    → NoLater a b
    → All (λ d. NoLater d a) ds
    → All (λ d. NoLater d b) ds
All-NoLater [] a b h all = tt
All-NoLater (d ∷ ds) a b h all = (NoLater-trans d a b all.0 h, All-NoLater ds a b h all.1)

All-append {ℓ κ} :
    {A : Type ℓ} (P : A → Type κ) (xs ys : List A) → All P xs → All P ys → All P (xs ++ ys)
All-append P [] ys h k = k
All-append P (x ∷ xs) ys h k = (h.0, All-append P xs ys h.1 k)

after_NoLater :
    (ds : List (Option Ms)) {a b : Option Ms}
    → a ≡ b
    → All (λ d. NoLater d a) ds
    → All (λ d. NoLater d b) ds
after_NoLater ds e all = rw (← e) all

module _ {E : Type 0} (js : Engine E) (quiet : IsQuiet js) where
  inside_NoLater :
      (ds : List (Option Ms)) (t : Ms) (rt : Runtime E)
      → All (λ d. NoLater d (deadline (enter t rt).1)) ds
      → All (λ d. NoLater d (deadline rt)) ds
  inside_NoLater ds t rt all = All-NoLater ds _ _ (enter-NoLater t rt) all

  -- At every poll of guest code, however deep the host functions and scopes nest above it, the
  -- deadline in force is no later than the one the outermost call was made under.
  pub deadlines-NoLater :
      (g : Guest E) (rt : Runtime E) → All (λ d. NoLater d (deadline rt)) (deadlines js g rt)
  unfolding deadlines work
  deadlines-NoLater (returns v) rt = tt
  deadlines-NoLater (throws ctx v) rt = tt
  deadlines-NoLater (works f g) rt = deadlines-NoLater g _
  deadlines-NoLater (polls ctx k) rt = (
    NoLater-refl (deadline rt),
    after_NoLater _ (ap deadline_of (poll-Keeps js quiet ctx rt)) (deadlines-NoLater (k _) _),
  )
  deadlines-NoLater (calls ctx t body k) rt =
      All-append _ (deadlines js body (enter t rt).1) _
        (inside_NoLater _ t rt (deadlines-NoLater body _))
        (after_NoLater _
          (timed_out-KeepsDeadline js quiet ctx t (run js body) (run-KeepsDeadline js quiet body)
            rt)
          (deadlines-NoLater (k _) _))
  deadlines-NoLater (reads_property ctx body k) rt =
      All-append _ (deadlines js body (enter (timeout ctx rt).0 (timeout ctx rt).1).1) _
        (after_NoLater _ (timeout-limits ctx rt).2
          (inside_NoLater _ (timeout ctx rt).0 _ (deadlines-NoLater body _)))
        (after_NoLater _
          (guest_out-KeepsDeadline js quiet ctx (run js body) (run-KeepsDeadline js quiet body) rt)
          (deadlines-NoLater (k _) _))
  deadlines-NoLater (opens t body k) rt =
      All-append _ (deadlines js body (enter t rt).1) _
        (inside_NoLater _ t rt (deadlines-NoLater body _))
        (after_NoLater _
          (scoped-KeepsDeadline js quiet t (run js body) (run-KeepsDeadline js quiet body) rt)
          (deadlines-NoLater (k _) _))
