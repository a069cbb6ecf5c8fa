-- ===== src/JobQueue.antt =====
-- quickjs/quickjs.c: `JS_EnqueueJob2`, `JS_EnqueueJob`, `JS_IsJobPending` and `JS_ExecutePendingJob`,
-- with `qjs_bun_enqueue_job` and `qjs_bun_job` of src/native/quickjs_bridge.c.
pub mod Order
pub mod Balance
pub mod Loop
use quickjs_bun.Prelude.{
  ℕ, zero, suc, Bool, true, false, Option, none, some, List, [], ◌∷◌, ◌++◌, ℤ, pos, negsuc, ltb,
  if◌then◌else◌,
}
use quickjs_bun.Runtime.{Runtime, Cmd}
use quickjs_bun.Runtime.Values.{Value, js_undefined, is_exception}
use quickjs_bun.Ownership.{Resource, Ledger, ref, block, context_ref, taken, used, released}

-- JSJobEntry with its address. `job_func` is a pointer.
pub record JobEntry : Type 0 where
  pub address : ℕ
  pub realm : ℕ
  pub job_func : ℕ
  pub argv : List Value

-- The runtime, what is held, and `job_list`.
pub record World (E : Type 0) : Type 0 where
  pub runtime : Runtime E
  pub ledger : Ledger
  pub job_list : List JobEntry

-- JS_DupValue and JS_FreeValue of each argument.
unfoldable pub dup_all : List Value → Ledger → Ledger
dup_all [] l = l
dup_all (v ∷ vs) l = dup_all vs (taken (ref v) (used (ref v) l))

unfoldable pub free_all : List Value → Ledger → Ledger
free_all [] l = l
free_all (v ∷ vs) l = free_all vs (released (ref v) l)

module _ {E : Type 0} where
  -- A command of the engine.
  unfoldable pub with_runtime : {A : Type 0} → Cmd E A → World E → A × World E
  with_runtime m w = ((m w.runtime).0, record w { runtime = (m w.runtime).1 })

  -- After js_malloc or js_malloc_rt.
  unfoldable pub append_job : ℕ → ℕ → List Value → Option ℕ → World E → ℤ × World E
  unfolding dup_all
  append_job ctx job_func argv none w = (negsuc 0, w)
  append_job ctx job_func argv (some address) w = (
    pos 0,
    record w {
      ledger =
          dup_all argv (taken (some (context_ref ctx)) (taken (some (block address)) w.ledger));
      job_list =
          w.job_list
          ++ (record { address = address; realm = ctx; job_func = job_func; argv = argv } ∷ []);
    },
  )

  -- JS_EnqueueJob2, where `malloc` and `malloc_rt` give a block or none
  unfoldable pub enqueue_job2 :
      Cmd E (Option ℕ) → Cmd E (Option ℕ) → ℕ → ℕ → List Value → Bool → World E → ℤ × World E
  unfolding append_job with_runtime
  enqueue_job2 malloc malloc_rt ctx job_func argv no_exception w =
      let made = with_runtime (if no_exception then malloc_rt else malloc) w in
      append_job ctx job_func argv made.0 made.1

  -- qjs_bun_enqueue_job by JS_EnqueueJob, with the address of qjs_bun_job
  unfoldable pub enqueue_job :
      Cmd E (Option ℕ) → Cmd E (Option ℕ) → ℕ → ℕ → List Value → World E → ℤ × World E
  unfolding enqueue_job2
  enqueue_job malloc malloc_rt qjs_bun_job ctx argv =
      enqueue_job2 malloc malloc_rt ctx qjs_bun_job argv false

  -- JS_IsJobPending
  unfoldable pub is_job_pending : World E → Bool
  is_job_pending w = elim w.job_list [ [] ↦ false | _ ↦ true ]

  -- qjs_bun_job: JS_Call of the first argument with the others, if there is one
  unfoldable pub job :
      (Value → Value → List Value → Cmd E Value) → List Value → Option (Cmd E Value)
  job js_call [] = none
  job js_call (fn ∷ args) = some (js_call fn js_undefined args)

  -- What a job does, which may enqueue others; its result is owned by the caller.
  module _ (run : JobEntry → World E → Value × World E) (ref_count : ℕ → Runtime E → ℕ) where
    -- After the call of the job: the result, and `*pctx`.
    unfoldable pub finish : JobEntry → Value → World E → (ℤ × Option ℕ) × World E
    unfolding free_all
    finish e res w = (
      (
        if is_exception res then negsuc 0 else pos 1,
        if ltb 1 (ref_count e.realm w.runtime) then some e.realm else none,
      ),
      record w {
        ledger =
            released (some (context_ref e.realm))
              (released (some (block e.address)) (released (ref res) (free_all e.argv w.ledger)));
      },
    )

    -- JS_ExecutePendingJob
    unfoldable pub execute_first : List JobEntry → World E → (ℤ × Option ℕ) × World E
    unfolding finish
    execute_first [] w = ((pos 0, none), w)
    execute_first (e ∷ es) w =
        let done = run e (record w { job_list = es }) in finish e done.0 done.1

    unfoldable pub execute_pending_job : World E → (ℤ × Option ℕ) × World E
    unfolding execute_first
    execute_pending_job w = execute_first w.job_list w

    -- The host's loop over pending jobs, at most `n` of them.
    unfoldable pub execute_jobs : ℕ → World E → World E
    unfolding execute_pending_job
    execute_jobs zero w = w
    execute_jobs (suc n) w = execute_jobs n (execute_pending_job w).1
