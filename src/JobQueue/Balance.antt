-- ===== src/JobQueue/Balance.antt =====
-- What the queue holds: each job its arguments, its realm and its block.
use quickjs_bun.Prelude.{
  ℕ, zero, suc, ◌+◌, ◌≡◌, refl, ap, ◌∙◌, Option, none, some, List, [], ◌∷◌, ◌++◌, arith,
}
use quickjs_bun.Runtime.{Runtime, Cmd}
use quickjs_bun.Runtime.Values.{Value}
use quickjs_bun.Ownership.{Resource, Ledger, ref, block, context_ref}
use quickjs_bun.Ownership.Laws.{own, weight, taken_lem, used_lem, released_lem}
use quickjs_bun.JobQueue.{
  JobEntry, World, dup_all, free_all, append_job, enqueue_job, enqueue_job2, with_runtime, finish,
  execute_first, execute_pending_job, execute_jobs,
}

unfoldable pub args : Resource → List Value → ℕ
args x [] = 0
args x (v ∷ vs) = own x v + args x vs

-- What one job holds of `x`, and what those that wait hold.
unfoldable pub job_holds : Resource → JobEntry → ℕ
unfolding args
job_holds x e =
    args x e.argv + (weight x (some (block e.address)) + weight x (some (context_ref e.realm)))

unfoldable pub queued : Resource → List JobEntry → ℕ
unfolding job_holds
queued x [] = 0
queued x (e ∷ es) = job_holds x e + queued x es

queued-append :
    (x : Resource) (es fs : List JobEntry) → queued x (es ++ fs) ≡ queued x es + queued x fs
unfolding queued
queued-append x [] fs = omega arith
queued-append x (e ∷ es) fs = omega (arith, queued-append x es fs)

dup_all_lem :
    (x : Resource) (vs : List Value) (l : Ledger) (n : ℕ)
    → l x ≡ some (n + args x vs)
    → dup_all vs l x ≡ some (n + args x vs + args x vs)
unfolding dup_all args
dup_all_lem x [] l n e = e ∙ ap some (omega arith)
dup_all_lem x (v ∷ vs) l n e =
    let once = used_lem x (ref v) l (n + args x vs) (e ∙ ap some (omega arith)) in
    let twice = taken_lem x (ref v) _ (n + args x vs + own x v) once in
    dup_all_lem x vs _ (n + own x v + own x v) (twice ∙ ap some (omega arith))
    ∙ ap some (omega arith)

free_all_lem :
    (x : Resource) (vs : List Value) (l : Ledger) (n : ℕ)
    → l x ≡ some (n + args x vs)
    → free_all vs l x ≡ some n
unfolding free_all args
free_all_lem x [] l n e = e ∙ ap some (omega arith)
free_all_lem x (v ∷ vs) l n e =
    free_all_lem x vs _ n (released_lem x (ref v) l (n + args x vs) (e ∙ ap some (omega arith)))

-- Besides what the queue holds, `n` is held.
abbrev pub Holds : {E : Type 0} → Resource → ℕ → World E → Type 0
Holds x n w = w.ledger x ≡ some (n + queued x w.job_list)

-- A job keeps what was held, and its result comes to it.
pub record IsFair {E : Type 0} (x : Resource) (run : JobEntry → World E → Value × World E)
    : Type 0 where
  pub fair :
      (e : JobEntry) (w : World E) (n : ℕ)
      → Holds x n w
      → Holds x (n + own x (run e w).0) (run e w).1

module _ {E : Type 0} (x : Resource) where
  append_job-Holds :
      (ctx job_func : ℕ) (argv : List Value) (made : Option ℕ) (w : World E) (n : ℕ)
      → Holds x (n + args x argv) w
      → Holds x (n + args x argv) (append_job ctx job_func argv made w).1
  unfolding append_job queued job_holds
  append_job-Holds ctx job_func argv none w n held = held
  append_job-Holds ctx job_func argv (some address) w n held =
      let a : ℕ = weight x (some (block address)) in
      let c : ℕ = weight x (some (context_ref ctx)) in
      let q : ℕ = queued x w.job_list in
      let g : ℕ = args x argv in
      let both =
        taken_lem x (some (context_ref ctx)) _ _ (taken_lem x (some (block address)) _ _ held) in
      let entry : JobEntry = record {
        address = address;
        realm = ctx;
        job_func = job_func;
        argv = argv;
      } in
      dup_all_lem x argv _ (n + q + a + c) (both ∙ ap some (omega arith))
      ∙ ap some (omega (arith, queued-append x w.job_list (entry ∷ [])))

  -- qjs_bun_enqueue_job keeps what the caller holds, which are the arguments at least.
  pub enqueue_job-Holds :
      (malloc malloc_rt : Cmd E (Option ℕ)) (qjs_bun_job ctx : ℕ) (argv : List Value) (w : World E)
      (n : ℕ)
      → Holds x (n + args x argv) w
      → Holds x (n + args x argv) (enqueue_job malloc malloc_rt qjs_bun_job ctx argv w).1
  unfolding enqueue_job enqueue_job2 with_runtime
  enqueue_job-Holds malloc malloc_rt qjs_bun_job ctx argv w n held =
      append_job-Holds ctx qjs_bun_job argv (malloc w.runtime).0 _ n held

  module _ (run : JobEntry → World E → Value × World E) (ref_count : ℕ → Runtime E → ℕ) where
    finish-Holds :
        (e : JobEntry) (res : Value) (w : World E) (n : ℕ)
        → Holds x (n + job_holds x e + own x res) w
        → Holds x n (finish run ref_count e res w).1
    unfolding finish job_holds
    finish-Holds e res w n held =
        let a : ℕ = weight x (some (block e.address)) in
        let c : ℕ = weight x (some (context_ref e.realm)) in
        let q : ℕ = queued x w.job_list in
        let g : ℕ = args x e.argv in
        let one =
          free_all_lem x e.argv w.ledger (n + q + c + a + own x res)
            (held ∙ ap some (omega arith)) in
        let two = released_lem x (ref res) _ (n + q + c + a) one in
        let three = released_lem x (some (block e.address)) _ (n + q + c) two in
        released_lem x (some (context_ref e.realm)) _ (n + q) three

    execute_first-Holds :
        (jobs : List JobEntry) (w : World E) (n : ℕ)
        → IsFair x run
        → w.job_list ≡ jobs
        → Holds x n w
        → Holds x n (execute_first run ref_count jobs w).1
    unfolding execute_first queued
    execute_first-Holds [] w n fair same held = held
    execute_first-Holds (e ∷ es) w n fair same held =
        let before : World E = record w { job_list = es } in
        let taken_off : Holds x (n + job_holds x e) before =
          held ∙ ap (λ q. some (n + queued x q)) same ∙ ap some (omega arith) in
        finish-Holds e (run e before).0 (run e before).1 n (fair.fair e before _ taken_off)

    -- Running jobs gives back what each of them held, and what else is held stays so, if the jobs
    -- themselves keep to that.
    pub execute_jobs-Holds :
        (turns : ℕ) (w : World E) (n : ℕ)
        → IsFair x run
        → Holds x n w
        → Holds x n (execute_jobs run ref_count turns w)
    unfolding execute_jobs execute_pending_job
    execute_jobs-Holds zero w n fair held = held
    execute_jobs-Holds (suc turns) w n fair held =
        execute_jobs-Holds turns _ n fair (execute_first-Holds w.job_list w n fair refl held)
