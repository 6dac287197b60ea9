-- ===== src/Scheduler.antt =====
-- cmd/scheduler/main.go: the jobs that run, and the choice of one that gives way to a waiting one. Go
-- iterates over a map in no fixed order; the list is the order of one iteration.
pub mod Preemption
pub mod Simulation
pub mod Accounts
pub mod Running
pub mod Invariant
pub mod Rounds
pub mod Ticks
pub mod Workload
pub mod Spec
pub mod Books
use job_scheduler_tooling.Prelude.{List, [], ◌∷◌, Option, none, some, if◌then◌else◌}
use job_scheduler_tooling.Prelude.Int.{ℤ, leb_ℤ, ltb_ℤ}
use job_scheduler_tooling.Queue.{Job}

pub record RunningJob : Type 0 where
  pub job : Job
  pub finish_tick : ℤ

-- The body of the loop.
unfoldable pub consider : Job → Option RunningJob → RunningJob → Option RunningJob
consider candidate victim rj =
    if leb_ℤ candidate.priority rj.job.priority then victim else elim victim [
      | none ↦ some rj
      | some v ↦ if ltb_ℤ rj.job.priority v.job.priority then some rj else some v
    ]

unfoldable pub victim_from : Job → Option RunningJob → List RunningJob → Option RunningJob
victim_from candidate victim [] = victim
victim_from candidate victim (rj ∷ rjs) = victim_from candidate (consider candidate victim rj) rjs

unfoldable pub find_preemption_victim : List RunningJob → Job → Option RunningJob
find_preemption_victim running candidate = victim_from candidate none running
