-- ===== src/Dispatcher/SqsSession.antt =====
-- runSQSCoordinator of cmd/dispatcher/sqs.go up to the start of the workers: the jobs are generated,
-- some become chaos jobs, all are submitted, and submissions end. SQS is the parameter of
-- Dispatch/Sqs/System.
pub mod Filling
pub mod Filled
use job_scheduler_tooling.Prelude.{ℕ, ◌+◌, String, List, [], ◌∷◌, Option, none, some}
use job_scheduler_tooling.Prelude.Int.{ℤ}
use job_scheduler_tooling.Prelude.Partial.{◌>>=◌}
use job_scheduler_tooling.Queue.{Job, Time}
use job_scheduler_tooling.Dispatch.Sqs.{
  Coordinator, SubmitError, submit, admitted, close_submissions,
}
use job_scheduler_tooling.Dispatch.Sqs.System.{Service, System}
use job_scheduler_tooling.Dispatcher.Jobs.{Draw, generate_jobs}
use job_scheduler_tooling.Dispatcher.Chaos.{assign_chaos}

-- What is done after a Submit without an error.
abbrev pub submit_others :
    {Q : Type 0}
    → (System Q → System Q × Option SubmitError)
    → System Q × Option SubmitError
    → System Q × Option SubmitError
submit_others others (s, some e) = (s, some e)
submit_others others (s, none) = others s

-- CloseSubmissions, after a loop without an error.
abbrev pub end_submissions : {Q : Type 0} → System Q × Option SubmitError → Option (System Q)
end_submissions (s, some e) = none
end_submissions (s, none) = some (record s { coordinator = close_submissions s.coordinator })

module _ {Q : Type 0} (sqs : Service Q) where
  unfoldable pub after_submit :
      Time → Job → System Q → Coordinator × Option SubmitError → System Q × Option SubmitError
  after_submit now job s (c, some e) = (record s { coordinator = c }, some e)
  after_submit now job s (c, none) =
      (record s { coordinator = c; queues = sqs.send (admitted now job) s.queues }, none)

  -- Submit, with the error of Send.
  unfoldable pub submit_and_send :
      Time → Option String → Job → System Q → System Q × Option SubmitError
  submit_and_send now error job s = after_submit now job s (submit now job error s.coordinator)

  -- The loop over the jobs, up to the first error.
  unfoldable pub submit_each :
      (ℕ → Time) → (ℕ → Option String) → ℕ → List Job → System Q → System Q × Option SubmitError
  submit_each clock sends n [] s = (s, none)
  submit_each clock sends n (job ∷ jobs) s =
      submit_others (submit_each clock sends (n + 1) jobs)
        (submit_and_send (clock n) (sends n) job s)

  -- `none` is an error with which runSQSCoordinator returns, or a panic.
  unfoldable pub set_up :
      (poison hang : ℤ)
      → (ℕ → Time)
      → (ℕ → Option String)
      → (ℕ → Draw)
      → Time
      → ℤ
      → ℕ
      → System Q
      → Option (System Q)
  set_up poison hang clock sends draws base seed num_jobs s =
      generate_jobs draws base seed num_jobs >>= λ jobs.
      end_submissions (submit_each clock sends 0 (assign_chaos poison hang 0 jobs) s)
