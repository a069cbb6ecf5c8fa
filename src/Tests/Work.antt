-- ===== src/Tests/Work.antt =====
-- The theorems on pending jobs and on bit scans.
use quickjs_bun.Prelude.{ℕ, ◌≤◌, ◌<◌, ◌%◌, ◌≡◌, refl, some, negsuc, arith}
use quickjs_bun.Runtime.Clock.{ms}
use quickjs_bun.Contexts.Registry.{deadline}
use quickjs_bun.Jobs.{execute_pending_job}
use quickjs_bun.Jobs.Deadline.{execute_pending_job-KeepsDeadline}
use quickjs_bun.BitScan.{doubled, clz, clzll, ctz, ctzll}
use quickjs_bun.BitScan.Powers.{clz-ctz}
use quickjs_bun.Tests.Sample.{js, js-IsQuiet, runtime}

-- A job of context 7 that fails.
execute_pending_job-KeepsDeadline_example :
    deadline (execute_pending_job js (ms 5) (λ rt. ((negsuc 0, some 7), rt)) runtime).1
    ≡ deadline runtime
execute_pending_job-KeepsDeadline_example =
    execute_pending_job-KeepsDeadline js js-IsQuiet (ms 5) (λ rt. ((negsuc 0, some 7), rt)) runtime
      (λ rt. refl)

clz-ctz_example :
    ((2147483648 ≤ doubled 20 (clz 20))
      × (doubled 20 (clz 20) < 4294967296)
      × (9223372036854775808 ≤ doubled 1 (clzll 1))
      × (doubled 1 (clzll 1) < 18446744073709551616))
    × ((q : ℕ) × (q % 2 ≡ 1) × (doubled q (ctz 20) ≡ 20))
    × ((q : ℕ) × (q % 2 ≡ 1) × (doubled q (ctzll 1) ≡ 1))
clz-ctz_example = clz-ctz 20 1 (omega arith) (omega arith) (omega arith) (omega arith)
