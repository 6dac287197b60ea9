-- ===== src/Tests/SqsRun.antt =====
-- A run of the dispatcher in SQS mode with one job, over the queues of Tests/SqsSystem.
use job_scheduler_tooling.Prelude.{ℕ, ◌+◌, ◌≡◌, refl, true, none, some, arith}
use job_scheduler_tooling.Prelude.Int.{pos, add64}
use job_scheduler_tooling.Prelude.Dict.{lookup, insert, erase}
use job_scheduler_tooling.Prelude.Partial.{Yields}
use job_scheduler_tooling.Text.Decimal.{numbered, decimal_03, decimal, digit}
use job_scheduler_tooling.Inference
use job_scheduler_tooling.Inference.{new_resnet50_batch}
use job_scheduler_tooling.Queue.{Time}
use job_scheduler_tooling.Dispatch.Sqs.{
  new_coordinator, submit, accept, admitted, close_submissions, started, note_redelivery,
  report_begin, maybe_done, log, status,
}
use job_scheduler_tooling.Dispatch.Sqs.Worker.{stalls, attempt_of, started_args, report_args}
use job_scheduler_tooling.Dispatch.Sqs.Ack.{HasEnded}
use job_scheduler_tooling.Dispatch.Sqs.System.{
  System, received, Reach, here, next, delivered, began, ran, start, set_phase, after_started,
  after_begin, put,
}
use job_scheduler_tooling.Dispatcher.Jobs
use job_scheduler_tooling.Dispatcher.Jobs.{
  generate_jobs, generate_from, generate_job, failure_of_draw,
}
use job_scheduler_tooling.Dispatcher.Chaos.{mark_chaos, assign_chaos}
use job_scheduler_tooling.Dispatcher.SqsSession.{set_up, submit_each, submit_and_send, after_submit}
use job_scheduler_tooling.Dispatcher.SqsSession.Filled.{IsSetUp, set_up-IsSetUp, set_up-AllEnded}
use job_scheduler_tooling.Tests.Samples.{value_or}
use job_scheduler_tooling.Tests.SqsSystem.{Store, store, no_message, none_held, first, delivery}

abbrev draws : ℕ → Jobs.Draw
draws k = record { size = 3; half = 0; fails = true; tier = 4 }

abbrev clock : ℕ → Time
clock n = 10 + n

set_up-IsSetUp_example :
    Yields
      (IsSetUp store (start none no_message) 3)
      (set_up store (pos 1) (pos 1) clock (λ _. none) draws 1 (pos 42) 3 (start none no_message))
set_up-IsSetUp_example =
    set_up-IsSetUp store none no_message (pos 1) (pos 1) clock (λ _. none) draws 1 (pos 42) 3
      (λ k. omega arith) (λ k. refl)

abbrev prepared : System Store
prepared =
    value_or (start none no_message)
      (set_up store (pos 0) (pos 0) clock (λ _. none) draws 1 (pos 42) 1 (start none no_message))

is_prepared :
    set_up store (pos 0) (pos 0) clock (λ _. none) draws 1 (pos 42) 1 (start none no_message)
    ≡ some prepared
unfolding set_up generate_jobs generate_from generate_job failure_of_draw new_resnet50_batch
    assign_chaos mark_chaos submit_each submit_and_send after_submit submit Inference.validate start
    new_coordinator add64
is_prepared = refl

abbrev taken : System Store
taken =
    put "worker-01"
      (after_started first delivery
        (started (started_args "worker-01" delivery) 13 prepared.coordinator))
      (record prepared {
        workers = set_phase "worker-01" (received first delivery) prepared.workers;
      })

abbrev completed : System Store
completed =
    put "worker-01"
      (after_begin first delivery none (
        report_begin (report_args "worker-01" delivery (attempt_of delivery) none) 14
          taken.coordinator))
      taken

to_completed : Reach store prepared completed
unfolding set_up generate_jobs generate_from generate_job failure_of_draw new_resnet50_batch
    assign_chaos mark_chaos submit_each submit_and_send after_submit submit Inference.validate start
    new_coordinator accept admitted log lookup insert erase started after_started note_redelivery
    stalls add64 after_begin report_begin close_submissions maybe_done numbered decimal_03 decimal
    digit
to_completed =
    next
      (next (next here (delivered "worker-01" first delivery refl refl refl refl))
        (began "worker-01" first delivery 13 refl refl))
      (ran "worker-01" first delivery none 14 refl refl refl)

is_done : status completed.coordinator ≡ true
unfolding set_up generate_jobs generate_from generate_job failure_of_draw new_resnet50_batch
    assign_chaos mark_chaos submit_each submit_and_send after_submit submit Inference.validate start
    new_coordinator accept admitted log lookup insert erase started after_started note_redelivery
    stalls add64 after_begin report_begin close_submissions maybe_done numbered decimal_03 decimal
    digit status
is_done = refl

set_up-AllEnded_example : HasEnded completed.coordinator (numbered "inference-" 0)
set_up-AllEnded_example =
    set_up-AllEnded store none no_message (pos 0) (pos 0) clock (λ _. none) draws 1 (pos 42) 1
      prepared completed 0 none_held (λ k. omega arith) (λ k. refl) is_prepared to_completed is_done
      (omega arith)
