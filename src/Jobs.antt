-- ===== src/Jobs.antt =====
-- src/native/quickjs_bridge.c: `qjs_bun_execute_pending_job`.
pub mod Deadline
use quickjs_bun.Prelude.{ℕ, Bool, true, false, Option, none, some, if◌then◌else◌, ℤ, is_negative}
use quickjs_bun.Runtime.{Runtime, Cmd, pure, ◌>>=◌, ◌>>◌, now_ms}
use quickjs_bun.Runtime.Clock.{Ms, ms, ltb_ms}
use quickjs_bun.Engine.{Engine}
use quickjs_bun.Scope.{Scope, set_deadline, enter, throw_timeout}

module _ {E : Type 0} (js : Engine E) where
  -- After JS_ExecutePendingJob, with its result and the context it stored: whether the timeout was
  -- reported.
  unfoldable pub finish_job : Scope → ℤ → Option ℕ → Cmd E Bool
  unfolding set_deadline now_ms
  finish_job scope ret none rt =
      if scope.active then (false, set_deadline scope.saved_ms rt) else (false, rt)
  finish_job scope ret (some ctx) rt =
      if scope.active
      then (let rt' : Runtime E = set_deadline scope.saved_ms rt in
          if is_negative ret
          then (if ltb_ms (ms (now_ms rt').0) scope.own_ms
              then (false, (now_ms rt').1)
              else (throw_timeout js ctx >> pure true) (now_ms rt').1)
          else (false, rt'))
      else (false, rt)

  -- qjs_bun_execute_pending_job. `job` is JS_ExecutePendingJob, with its result and `*pctx`.
  unfoldable pub execute_pending_job : Ms → Cmd E (ℤ × Option ℕ) → Cmd E (ℤ × Option ℕ)
  unfolding enter finish_job
  execute_pending_job timeout_ms job = do
    scope ← enter timeout_ms
    out ← job
    _ ← finish_job scope out.0 out.1
    pure out
