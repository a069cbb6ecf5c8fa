-- ===== src/Jobs/Deadline.antt =====
-- The deadline and the report of a timeout around a pending job.
use quickjs_bun.Prelude.{
  ℕ, ◌≡◌, refl, sym, ap, ◌∙◌, true, false, not, ◌&&◌, Option, Option-cases, none, some, inl, inr,
  arith, ℤ, is_negative, is_some,
}
use quickjs_bun.Runtime.{Runtime, Cmd, now_ms}
use quickjs_bun.Runtime.Clock.{Ms, ms, ltb_ms}
use quickjs_bun.Engine.{Engine, IsQuiet}
use quickjs_bun.Contexts.Registry.{deadline}
use quickjs_bun.Scope.{Scope, set_deadline, enter}
use quickjs_bun.Scope.Deadline.{
  KeepsDeadline, enter_lem, enter_inactive, set_deadline-some, throw_timeout-Keeps,
}
use quickjs_bun.Jobs.{finish_job, execute_pending_job}

module _ {E : Type 0} (js : Engine E) (quiet : IsQuiet js) where
  finish_job-deadline :
      (scope : Scope) (ret : ℤ) (pctx : Option ℕ) (rt : Runtime E) (d : Ms)
      → scope.active ≡ true
      → deadline rt ≡ some d
      → deadline (finish_job js scope ret pctx rt).1 ≡ some scope.saved_ms
  unfolding finish_job
  finish_job-deadline scope ret none rt d on e =
      ground (arith, set_deadline-some scope.saved_ms d rt e)
  finish_job-deadline scope ret (some ctx) rt d on e = ground (
    arith,
    set_deadline-some scope.saved_ms d rt e,
    throw_timeout-Keeps js quiet ctx (now_ms (set_deadline scope.saved_ms rt)).1,
  )

  finish_job_inactive :
      (scope : Scope) (ret : ℤ) (pctx : Option ℕ) (rt : Runtime E)
      → scope.active ≡ false
      → finish_job js scope ret pctx rt ≡ (false, rt)
  unfolding finish_job
  finish_job_inactive scope ret none rt off = rw off refl
  finish_job_inactive scope ret (some ctx) rt off = rw off refl

  job_active :
      (t : Ms) (job : Cmd E (ℤ × Option ℕ)) (rt : Runtime E) (d : Ms)
      → KeepsDeadline job
      → deadline rt ≡ some d
      → deadline (execute_pending_job js t job rt).1 ≡ some d
  unfolding execute_pending_job
  job_active t job rt d keeps e =
      let entered = enter_lem t rt d e in
      finish_job-deadline _ _ _ _ _ (ap (λ (s : Scope). s.active) entered.0)
        (keeps (enter t rt).1 ∙ entered.1)
      ∙ ap (λ (s : Scope). some s.saved_ms) entered.0

  job_inactive :
      (t : Ms) (job : Cmd E (ℤ × Option ℕ)) (rt : Runtime E)
      → KeepsDeadline job
      → deadline rt ≡ none
      → deadline (execute_pending_job js t job rt).1 ≡ none
  unfolding execute_pending_job
  job_inactive t job rt keeps e =
      let entered = enter_inactive t rt e in
      ap (λ r. deadline r.1) (finish_job_inactive (enter t rt).0 _ _ _ entered.0)
      ∙ keeps (enter t rt).1
      ∙ ap (λ r. deadline r) entered.1
      ∙ e

  -- `qjs_bun_execute_pending_job` leaves the deadline in force as it found it, as long as the job
  -- does.
  pub execute_pending_job-KeepsDeadline :
      (t : Ms) (job : Cmd E (ℤ × Option ℕ)) (rt : Runtime E)
      → KeepsDeadline job
      → deadline (execute_pending_job js t job rt).1 ≡ deadline rt
  execute_pending_job-KeepsDeadline t job rt keeps = elim (Option-cases (deadline rt)) [
    | inl e ↦ job_inactive t job rt keeps e ∙ sym e
    | inr (d, e) ↦ job_active t job rt d keeps e ∙ sym e
  ]

  -- A timeout is reported just when the job failed, its context still lives, and the clock has
  -- reached the job's own deadline. The scope is active.
  pub finish_job-reports :
      (scope : Scope) (ret : ℤ) (pctx : Option ℕ) (rt : Runtime E)
      → scope.active ≡ true
      → (finish_job js scope ret pctx rt).0 ≡ (
          is_negative ret
          && is_some pctx
          && not (ltb_ms (ms (now_ms (set_deadline scope.saved_ms rt)).0) scope.own_ms))
  unfolding finish_job
  finish_job-reports scope ret none rt on = ground arith
  finish_job-reports scope ret (some ctx) rt on = ground arith
