-- ===== src/Tests/Queue.antt =====
-- The theorem on the queue of jobs at one queue.
use quickjs_bun.Prelude.{
  ℕ, ◌+◌, refl, false, Option, some, List, [], ◌∷◌, ◌++◌, append-nil, sym, ap, ◌∙◌, arith,
}
use quickjs_bun.Runtime.Values.{Value, js_undefined}
use quickjs_bun.Ownership.{Resource, cell, ref, is}
use quickjs_bun.Ownership.Laws.{weight}
use quickjs_bun.JobQueue.{JobEntry, World, enqueue_job, execute_jobs}
use quickjs_bun.JobQueue.Order.{IsAppending, IsLogged}
use quickjs_bun.JobQueue.Balance.{Holds, IsFair, args, queued}
use quickjs_bun.JobQueue.Loop.{Placed, Ran, enqueue-execute}
use quickjs_bun.Tests.Sample.{value}
use quickjs_bun.Runtime.{Runtime, Cmd, unset}

-- The jobs that were run are what stands for the engine.
abbrev start : Runtime (List JobEntry)
start = record {
  handler = unset;
  context_list = [];
  current_exception = js_undefined;
  current_exception_is_uncatchable = false;
  clock = λ i. i;
  reads = 0;
  engine = [];
}

-- A job that gives undefined and notes itself.
abbrev run : JobEntry → World (List JobEntry) → Value × World (List JobEntry)
run e w = (
  js_undefined,
  record w { runtime = record w.runtime { engine = w.runtime.engine ++ (e ∷ []) } },
)

abbrev seen : Runtime (List JobEntry) → List JobEntry
seen rt = rt.engine

run-IsAppending : IsAppending run
run-IsAppending = record { appends = λ e w. ([], sym (append-nil w.job_list)) }

run-IsLogged : IsLogged seen run
run-IsLogged = record { logs = λ e w. refl }

run-IsFair : (x : Resource) → IsFair x run
unfolding weight ref is
run-IsFair x = record { fair = λ e w n held. held ∙ ap some (omega arith) }

abbrev arguments : List Value
arguments = value 4 ∷ value 5 ∷ []

abbrev world : World (List JobEntry)
world = record { runtime = start; ledger = λ x. some (args x arguments); job_list = [] }

world-Holds : Holds (cell 4) (0 + args (cell 4) arguments) world
unfolding queued
world-Holds = ap some (omega arith)

abbrev malloc : Cmd (List JobEntry) (Option ℕ)
malloc rt = (some 100, rt)

enqueue-execute_example :
    let put = enqueue_job malloc malloc 3 7 arguments world in
    let after = execute_jobs run (λ ctx rt. 2) 2 put.1 in
    Placed (malloc world.runtime).0 3 7 arguments world.job_list put.0 put.1.job_list
    × Ran 2 (seen world.runtime) put.1.job_list (seen after.runtime) after.job_list
    × Holds (cell 4) (0 + args (cell 4) arguments) after
enqueue-execute_example =
    enqueue-execute run (λ ctx rt. 2) seen malloc malloc 3 7 arguments 2 world (cell 4) 0
      run-IsAppending (run-IsFair (cell 4)) run-IsLogged (λ rt. refl) world-Holds
