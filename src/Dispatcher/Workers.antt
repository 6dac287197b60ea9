-- ===== src/Dispatcher/Workers.antt =====
-- Several worker processes beside the broker (cmd/dispatcher/main.go and internal/dispatch/broker.go):
-- each between two of its calls, in any order, and the loop of runCoordinator that watches over them.
-- The submissions are over.
pub mod Matching
pub mod Standing
pub mod Progress
pub mod Effort
use job_scheduler_tooling.Prelude.{
  ◌≡◌, String, Bool, true, false, List, ◌∷◌, ◌++◌, Option, none, some, str_eq, if◌then◌else◌,
}
use job_scheduler_tooling.Queue.{Job, Time}
use job_scheduler_tooling.Triage.{Answer}
use job_scheduler_tooling.Dispatch.Guard.{guarded}
use job_scheduler_tooling.Dispatch.Broker.{
  Broker, ClaimReply, Reported, not_assigned, finished, failed, claim, report_begin, report_end,
}
use job_scheduler_tooling.Dispatch.Broker.Report.{with_agent}
use job_scheduler_tooling.Dispatcher.{report_for}

-- Where a worker stands: before Claim, with a job to run, waiting for the reply to a Report while the
-- agent decides, or gone.
pub data Phase : Type 0 where
  idle : Phase
  working : Job → Phase
  deciding : Job → Phase
  left : Phase

-- `given_up` is whether runCoordinator has met an early exit and fails.
pub record System : Type 0 where
  pub broker : Broker
  pub with_agents : List Job
  pub workers : String → Phase
  pub given_up : Bool

abbrev pub set_phase : String → Phase → (String → Phase) → String → Phase
set_phase worker phase workers other = if str_eq worker other then phase else workers other

-- A reply of neither kind carries a job.
unfoldable pub after_claim : ClaimReply → Phase
after_claim r =
    if r.shutdown
    then left
    else if r.wait
    then idle
    else elim r.job [ none ↦ left | some job ↦ working job ]

unfoldable pub after_begin : Reported → Phase
after_begin not_assigned = left
after_begin finished = idle
after_begin (failed job) = deciding job

-- The other workers are killed and awaited, and the run fails.
abbrev pub give_up : System → System
give_up s = record s { workers = λ _. left; given_up = true }

-- Once runCoordinator has given up, no worker is alive and nothing more is called.
pub data Step (s s' : System) : Type 0 where
  claimed :
      (worker : String) (now : Time) (b : Broker) (r : ClaimReply)
      → s.given_up ≡ false
      → s.workers worker ≡ idle
      → claim worker now s.broker ≡ some (b, r)
      → s' ≡ record s { broker = b; workers = set_phase worker (after_claim r) s.workers }
      → Step s s'
  reported :
      (worker : String) (job : Job) (outcome : Option String) (now : Time) (b : Broker)
      (r : Reported)
      → s.given_up ≡ false
      → s.workers worker ≡ working job
      → report_begin (report_for worker job.id outcome) now s.broker ≡ (b, r)
      → s' ≡ record {
        broker = b;
        with_agents = with_agent s.with_agents r;
        workers = set_phase worker (after_begin r) s.workers;
        given_up = s.given_up;
      }
      → Step s s'
  settled :
      (worker : String) (job : Job) (before after : List Job) (outcome : Option String) (now : Time)
      (answer : Answer) (b : Broker)
      → s.given_up ≡ false
      → s.workers worker ≡ deciding job
      → s.with_agents ≡ before ++ job ∷ after
      → report_end
          (report_for worker job.id outcome)
          now
          job
          (guarded job.attempt job.max_attempts answer)
          s.broker
        ≡ some b
      → s' ≡ record {
        broker = b;
        with_agents = before ++ after;
        workers = set_phase worker idle s.workers;
        given_up = s.given_up;
      }
      → Step s s'
  -- An exit that the loop of runCoordinator meets before Done is closed.
  gave_up :
      (worker : String)
      → s.given_up ≡ false
      → s.workers worker ≡ left
      → s.broker.done ≡ false
      → s' ≡ give_up s
      → Step s s'

pub data Reach (s : System) : System → Type 0 where
  here : Reach s s
  next : {t u : System} → Reach s t → Step t u → Reach s u
