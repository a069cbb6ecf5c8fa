-- ===== src/JobQueue/Loop.antt =====
-- The host's loop over the pending jobs, and its putting in another.
use quickjs_bun.Prelude.{
  ℕ, ◌+◌, ◌≡◌, refl, ap, ◌∙◌, ◌⊎◌, inl, inr, Option, none, some, List, [], ◌∷◌, ◌++◌, length, ℤ,
  pos, negsuc,
}
use quickjs_bun.Runtime.{Runtime, Cmd}
use quickjs_bun.Runtime.Values.{Value}
use quickjs_bun.Ownership.{Resource}
use quickjs_bun.JobQueue.{
  JobEntry, World, append_job, with_runtime, enqueue_job, enqueue_job2, execute_jobs,
}
use quickjs_bun.JobQueue.Order.{
  IsAppending, IsLogged, started, started-seen, started-length, execute_jobs-started,
}
use quickjs_bun.JobQueue.Balance.{Holds, IsFair, args, enqueue_job-Holds, execute_jobs-Holds}

-- The job is the last one of the queue, if a block was given for it, and otherwise there is no job.
abbrev pub Placed : Option ℕ → ℕ → ℕ → List Value → List JobEntry → ℤ → List JobEntry → Type 0
Placed given job_func ctx argv before result after =
    ((address : ℕ) × (given ≡ some address)
      × (result ≡ pos 0)
      × (after
          ≡ before
            ++ (record { address = address; realm = ctx; job_func = job_func; argv = argv } ∷ [])))
    ⊎ ((given ≡ none) × (result ≡ negsuc 0) × (after ≡ before))

-- What some turns of the loop have run: `log` and `waiting` are the jobs that had been run and those
-- that waited before; `log'` and `waiting'` those that have been run and wait afterwards.
pub record Ran (turns : ℕ) (log waiting log' waiting' : List JobEntry) : Type 0 where
  pub ran : List JobEntry
  pub new : List JobEntry
  pub logged : log' ≡ log ++ ran
  pub in_order : ran ++ waiting' ≡ waiting ++ new
  pub each_turn : (length ran ≡ turns) ⊎ (waiting' ≡ [])

module _ {E : Type 0} (malloc malloc_rt : Cmd E (Option ℕ)) where
  append_job-Placed :
      (ctx job_func : ℕ) (argv : List Value) (given : Option ℕ) (w : World E)
      → let put = append_job ctx job_func argv given w in
        Placed given job_func ctx argv w.job_list put.0 put.1.job_list
  unfolding append_job
  append_job-Placed ctx job_func argv none w = inr (refl, refl, refl)
  append_job-Placed ctx job_func argv (some address) w = inl (address, refl, refl, refl)

  enqueue_job-Placed :
      (job_func ctx : ℕ) (argv : List Value) (w : World E)
      → let put = enqueue_job malloc malloc_rt job_func ctx argv w in
        Placed (malloc w.runtime).0 job_func ctx argv w.job_list put.0 put.1.job_list
  unfolding enqueue_job enqueue_job2 with_runtime
  enqueue_job-Placed job_func ctx argv w =
      append_job-Placed ctx job_func argv (malloc w.runtime).0
        (record w { runtime = (malloc w.runtime).1 })

  append_job-runtime :
      (ctx job_func : ℕ) (argv : List Value) (given : Option ℕ) (w : World E)
      → (append_job ctx job_func argv given w).1.runtime ≡ w.runtime
  unfolding append_job
  append_job-runtime ctx job_func argv none w = refl
  append_job-runtime ctx job_func argv (some address) w = refl

  enqueue_job-runtime :
      (job_func ctx : ℕ) (argv : List Value) (w : World E)
      → (enqueue_job malloc malloc_rt job_func ctx argv w).1.runtime ≡ (malloc w.runtime).1
  unfolding enqueue_job enqueue_job2 with_runtime
  enqueue_job-runtime job_func ctx argv w =
      append_job-runtime ctx job_func argv (malloc w.runtime).0
        (record w { runtime = (malloc w.runtime).1 })

-- After qjs_bun_enqueue_job by a caller that holds the arguments, its job is the last one of the
-- queue, just if js_malloc gave a block, and the others are as they were. After any number of turns
-- of the loop over JS_ExecutePendingJob, each turn has run one job, or none waits any more; the jobs
-- that were seen to run, in order, and those that wait are the jobs that waited and then those put
-- behind them; and besides what the waiting jobs hold, just what was held at first is held. A job
-- takes no other out of the queue, and keeps what it is lent; js_malloc runs no job.
pub enqueue-execute :
    {E : Type 0} (run : JobEntry → World E → Value × World E) (ref_count : ℕ → Runtime E → ℕ)
    (seen : Runtime E → List JobEntry) (malloc malloc_rt : Cmd E (Option ℕ)) (qjs_bun_job ctx : ℕ)
    (argv : List Value) (turns : ℕ) (w : World E) (x : Resource) (n : ℕ)
    → IsAppending run
    → IsFair x run
    → IsLogged seen run
    → ((rt : Runtime E) → seen (malloc rt).1 ≡ seen rt)
    → Holds x (n + args x argv) w
    → let put = enqueue_job malloc malloc_rt qjs_bun_job ctx argv w in
      let after = execute_jobs run ref_count turns put.1 in
      Placed (malloc w.runtime).0 qjs_bun_job ctx argv w.job_list put.0 put.1.job_list
      × Ran turns (seen w.runtime) put.1.job_list (seen after.runtime) after.job_list
      × Holds x (n + args x argv) after
enqueue-execute run ref_count seen malloc malloc_rt qjs_bun_job ctx argv turns w x n appending fair
      logged quiet held =
    let put = (enqueue_job malloc malloc_rt qjs_bun_job ctx argv w).1 in
    let order = execute_jobs-started run ref_count turns put appending in
    let unseen : seen put.runtime ≡ seen w.runtime =
      ap seen (enqueue_job-runtime malloc malloc_rt qjs_bun_job ctx argv w) ∙ quiet w.runtime in
    (
      enqueue_job-Placed malloc malloc_rt qjs_bun_job ctx argv w,
      record {
        ran = started run ref_count turns put;
        new = order.0;
        logged =
            started-seen run ref_count seen turns put logged
            ∙ ap (λ l. l ++ started run ref_count turns put) unseen;
        in_order = order.1;
        each_turn = started-length run ref_count turns put;
      },
      execute_jobs-Holds x run ref_count turns put (n + args x argv) fair
          (enqueue_job-Holds x malloc malloc_rt qjs_bun_job ctx argv w n held),
    )
