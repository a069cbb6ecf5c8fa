-- ===== src/JobQueue/Order.antt =====
-- Jobs are run in the order in which they were put into the queue.
use quickjs_bun.Prelude.{
  append-nil, append_assoc, length, ◌⊎◌, inl, inr, arith, ℕ, zero, suc, ◌≡◌, refl, sym, ap, ◌∙◌,
  List, [], ◌∷◌, ◌++◌,
}
use quickjs_bun.Runtime.Values.{Value}
use quickjs_bun.Runtime.{Runtime}
use quickjs_bun.JobQueue.{JobEntry, World, finish, execute_first, execute_pending_job, execute_jobs}

-- A job changes the queue only by what it puts at its end.
pub record IsAppending {E : Type 0} (run : JobEntry → World E → Value × World E) : Type 0 where
  pub appends :
      (e : JobEntry) (w : World E)
      → (new : List JobEntry) × ((run e w).1.job_list ≡ w.job_list ++ new)

-- What is seen to have been run: a job that is run adds itself.
pub record IsLogged {E : Type 0} (seen : Runtime E → List JobEntry)
    (run : JobEntry → World E → Value × World E) : Type 0 where
  pub logs : (e : JobEntry) (w : World E) → seen (run e w).1.runtime ≡ seen w.runtime ++ (e ∷ [])

module _ {E : Type 0} (run : JobEntry → World E → Value × World E)
    (ref_count : ℕ → Runtime E → ℕ) where
  -- The jobs that at most `n` turns of the loop run, in order.
  unfoldable pub first_of : List JobEntry → List JobEntry
  first_of [] = []
  first_of (e ∷ es) = e ∷ []

  unfoldable pub started : ℕ → World E → List JobEntry
  unfolding first_of
  started zero w = []
  started (suc n) w = first_of w.job_list ++ started n (execute_pending_job run ref_count w).1

  -- After one job: it, what is left, and what it put at the end.
  one :
      (jobs : List JobEntry) (w : World E)
      → IsAppending run
      → w.job_list ≡ jobs
      → (new : List JobEntry) × (first_of jobs ++ (execute_first run ref_count jobs w).1.job_list
          ≡ jobs ++ new)
  unfolding execute_first finish first_of
  one [] w appending e = ([], e)
  one (j ∷ js) w appending e =
      let (new, same) = appending.appends j (record w { job_list = js }) in
      (new, ap (λ l. j ∷ l) same)

  -- However the jobs put others into the queue: the jobs that were run, in order, and those that wait
  -- are the jobs that waited at first and then those that were put behind them. A job does not take
  -- others out.
  pub execute_jobs-started :
      (n : ℕ) (w : World E)
      → IsAppending run
      → (new : List JobEntry) × (started n w ++ (execute_jobs run ref_count n w).job_list
          ≡ w.job_list ++ new)
  unfolding execute_jobs started execute_pending_job
  execute_jobs-started zero w appending = ([], sym (append-nil w.job_list))
  execute_jobs-started (suc n) w appending =
      let next = (execute_pending_job run ref_count w).1 in
      let (new, rest) = execute_jobs-started n next appending in
      let (first, once) = one w.job_list w appending refl in
      (
        first ++ new,
        append_assoc (first_of w.job_list) (started n next) _
            ∙ ap (λ l. first_of w.job_list ++ l) rest
            ∙ sym (append_assoc (first_of w.job_list) next.job_list new)
            ∙ ap (λ l. l ++ new) once
            ∙ append_assoc w.job_list first new,
      )

  first-seen :
      (seen : Runtime E → List JobEntry) (jobs : List JobEntry) (w : World E)
      → IsLogged seen run
      → seen (execute_first run ref_count jobs w).1.runtime ≡ seen w.runtime ++ first_of jobs
  unfolding execute_first finish first_of
  first-seen seen [] w logged = sym (append-nil (seen w.runtime))
  first-seen seen (j ∷ js) w logged = logged.logs j (record w { job_list = js })

  -- Each of them was run, once and in this order.
  pub started-seen :
      (seen : Runtime E → List JobEntry) (n : ℕ) (w : World E)
      → IsLogged seen run
      → seen (execute_jobs run ref_count n w).runtime ≡ seen w.runtime ++ started n w
  unfolding execute_jobs started execute_pending_job
  started-seen seen zero w logged = sym (append-nil (seen w.runtime))
  started-seen seen (suc n) w logged =
      let next = (execute_pending_job run ref_count w).1 in
      started-seen seen n next logged
      ∙ ap (λ l. l ++ started n next) (first-seen seen w.job_list w logged)
      ∙ append_assoc (seen w.runtime) (first_of w.job_list) (started n next)

  emptied :
      (jobs : List JobEntry) (w : World E)
      → jobs ≡ []
      → w.job_list ≡ []
      → (execute_first run ref_count jobs w).1.job_list ≡ []
  unfolding execute_first
  emptied [] w none_waits e = e
  emptied (j ∷ js) w none_waits e = absurd (ground (arith, none_waits))

  idle : (n : ℕ) (w : World E) → w.job_list ≡ [] → (execute_jobs run ref_count n w).job_list ≡ []
  unfolding execute_jobs execute_pending_job
  idle zero w e = e
  idle (suc n) w e = idle n _ (emptied w.job_list w e e)

  one_more :
      (n : ℕ) (jobs : List JobEntry) (w : World E)
      → w.job_list ≡ jobs
      → (let next = (execute_first run ref_count jobs w).1 in
          (length (started n next) ≡ n) ⊎ ((execute_jobs run ref_count n next).job_list ≡ []))
      → let next = (execute_first run ref_count jobs w).1 in
        (length (first_of jobs ++ started n next) ≡ suc n)
        ⊎ ((execute_jobs run ref_count n next).job_list ≡ [])
  unfolding first_of execute_first
  one_more n [] w e others = inr (idle n w e)
  one_more n (j ∷ js) w e (inl all) = inl (ap suc all)
  one_more n (j ∷ js) w e (inr over) = inr over

  -- Each turn runs a job, until none waits.
  pub started-length :
      (n : ℕ) (w : World E)
      → (length (started n w) ≡ n) ⊎ ((execute_jobs run ref_count n w).job_list ≡ [])
  unfolding execute_jobs started execute_pending_job
  started-length zero w = inl refl
  started-length (suc n) w =
      one_more n w.job_list w refl (started-length n (execute_first run ref_count w.job_list w).1)
