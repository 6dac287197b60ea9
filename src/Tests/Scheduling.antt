-- ===== src/Tests/Scheduling.antt =====
-- cmd/scheduler/main.go on a few running jobs.
use job_scheduler_tooling.Prelude.{
  List, [], ◌∷◌, ◌+◌, ◌^◌, ◌≡◌, false, ◌≤◌, ◌<◌, String, arith, refl, str_eq, eq_iff,
}
use job_scheduler_tooling.Resource.{Node}
use job_scheduler_tooling.Prelude.Int.{pos}
use job_scheduler_tooling.Queue.{Job}
use job_scheduler_tooling.Scheduler.{RunningJob, find_preemption_victim}
use job_scheduler_tooling.Dispatch.Broker.Weight.{total, has_id}
use job_scheduler_tooling.Scheduler.Simulation.{PendingSubmit}
use job_scheduler_tooling.Scheduler.Accounts.{Balanced}
use job_scheduler_tooling.Scheduler.Invariant.{misfit, rank}
use job_scheduler_tooling.Scheduler.Ticks.{submitted}
use job_scheduler_tooling.Scheduler.Preemption.{IsLowest, find_preemption_victim-IsLowest}
use job_scheduler_tooling.Tests.Samples.{job, machine}

abbrev candidate : Job
candidate = job "job-009" 5 7

abbrev running_jobs : List RunningJob
running_jobs =
    record { job = job "job-001" 3 1; finish_tick = pos 9 }
    ∷ record { job = job "job-002" 1 2; finish_tick = pos 8 }
    ∷ record { job = job "job-003" 5 3; finish_tick = pos 7 }
    ∷ []

find_preemption_victim-IsLowest_example :
    IsLowest candidate running_jobs (find_preemption_victim running_jobs candidate)
find_preemption_victim-IsLowest_example = find_preemption_victim-IsLowest running_jobs candidate

-- Three jobs for one node, which has room for two of them: the last preempts the first.
abbrev to_submit : List PendingSubmit
to_submit =
    record { job = job "job-000" 1 0; arrival_tick = 0 }
    ∷ record { job = job "job-001" 3 0; arrival_tick = 0 }
    ∷ record { job = job "job-002" 5 0; arrival_tick = 1 }
    ∷ []

abbrev nodes : List Node
nodes = machine "node-a" 4 0 ∷ []

apart : (i j : Job) (id : String) → str_eq i.id j.id ≡ false → has_id id i + has_id id j ≤ 1
apart i j id d = ground (arith, eq_iff i.id id, eq_iff j.id id, eq_iff i.id j.id, d)

own_ids : (id : String) → total (has_id id) (submitted to_submit) ≤ 1
unfolding total
own_ids id = omega (
  arith,
  apart (job "job-000" 1 0) (job "job-001" 3 0) id refl,
  apart (job "job-000" 1 0) (job "job-002" 5 0) id refl,
  apart (job "job-001" 3 0) (job "job-002" 5 0) id refl,
)

in_range : total misfit (submitted to_submit) ≡ 0
unfolding total
in_range = refl

ranks : total rank (submitted to_submit) < 2 ^ 70
unfolding total
ranks = omega arith

free : Balanced [] nodes
unfolding total
free = (
  record {
    cpu = (4, (refl, omega arith), refl, omega arith);
    mem = (65536, (refl, omega arith), refl, omega arith);
    gpu = (2, (refl, omega arith), refl, omega arith);
  },
  tt,
)
