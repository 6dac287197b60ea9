-- ===== src/Dispatch/Sqs/Worker.antt =====
-- RunSQSWorker of internal/dispatch/sqs.go on one delivery, and what it does to the message.
use job_scheduler_tooling.Prelude.{
  String, Bool, true, false, ◌&&◌, ◌||◌, List, [], ◌∷◌, Option, none, some, str_eq, if◌then◌else◌,
}
use job_scheduler_tooling.Prelude.Int.{ℤ, pos, add64, eqb_ℤ}
use job_scheduler_tooling.Queue.{Job, Time}
use job_scheduler_tooling.Triage.{Failure, Decision, Answer, retry, auto_adjust, adjust}
use job_scheduler_tooling.Dispatch.Guard.{guarded}
use job_scheduler_tooling.SqsQueue.{Delivery}
use job_scheduler_tooling.Dispatch.Sqs.{
  Coordinator, SqsReportArgs, SqsReported, duplicate, finished, failed, StartedArgs, started,
  report_begin, report_end,
}

abbrev pub inject_hang : String
inject_hang = "hang"

abbrev pub inject_poison : String
inject_poison = "poison"

-- The worker holds the batch and never acks.
unfoldable pub stalls : Job → ℤ → Bool
stalls job attempt =
    str_eq job.inject_failure inject_poison
    || (str_eq job.inject_failure inject_hang && eqb_ℤ attempt (pos 1))

-- What a worker does to the message that it holds; Send with its error.
pub data QueueCall : Type 0 where
  ack : QueueCall
  release : QueueCall
  send : Job → Option String → QueueCall

-- The job that is sent again in place of the one held.
unfoldable pub adjusted_job : Job → ℤ → Decision → Job
adjusted_job job attempt d = record job {
  inference = adjust job.inference d;
  attempt = attempt;
  inject_failure = "";
}

-- The `switch` on the decision; `error` is that of Send.
unfoldable pub apply_reply : Job → ℤ → Option String → Decision → List QueueCall
apply_reply job attempt error d =
    if str_eq d.action retry
    then release ∷ []
    else if str_eq d.action auto_adjust
    then send (adjusted_job job attempt d) error ∷ elim error [ none ↦ ack ∷ [] | some _ ↦ [] ]
    else ack ∷ []

abbrev pub sqs_failure : SqsReportArgs → Failure
sqs_failure args = record {
  job_id = args.job.id;
  attempt = args.attempt;
  max_attempts = args.job.max_attempts;
  error = args.error;
  batch = args.job.inference;
}

unfoldable pub report_rest :
    (Failure → Answer)
    → SqsReportArgs
    → Time
    → Coordinator × SqsReported
    → Coordinator × Option Decision
report_rest agent args now (c, duplicate) = (c, none)
report_rest agent args now (c, finished) = (c, none)
report_rest agent args now (c, failed) =
    report_end args now (guarded args.attempt args.job.max_attempts (agent (sqs_failure args))) c

-- SQSCoordinator.Report when no other call runs while the agent decides; the decision is `none` on
-- a success and where the reply says Duplicate.
unfoldable pub report :
    (Failure → Answer) → SqsReportArgs → Time → Coordinator → Coordinator × Option Decision
report agent args now c = report_rest agent args now (report_begin args now c)

abbrev pub report_args : String → Delivery → ℤ → Option String → SqsReportArgs
report_args worker d attempt outcome = record {
  worker_id = worker;
  job = d.job;
  attempt = attempt;
  success = elim outcome [ none ↦ true | some _ ↦ false ];
  error = elim outcome [ none ↦ "" | some e ↦ e ];
}

-- What the reply to Report makes the worker do; `error` is that of Send.
unfoldable pub settle :
    Job → ℤ → Option String → Coordinator × Option Decision → Coordinator × List QueueCall
settle job attempt error (c, none) = (c, ack ∷ [])
settle job attempt error (c, some d) = (c, apply_reply job attempt error d)

-- From the run of the batch on; `outcome` is the error of the run.
unfoldable pub run_and_report :
    (Failure → Answer)
    → String
    → Delivery
    → ℤ
    → (outcome error : Option String) → Time
    → Coordinator
    → Coordinator × List QueueCall
run_and_report agent worker d attempt outcome error now c =
    settle d.job attempt error (report agent (report_args worker d attempt outcome) now c)

abbrev pub attempt_of : Delivery → ℤ
attempt_of d = add64 d.job.attempt d.receive_count

abbrev pub started_args : String → Delivery → StartedArgs
started_args worker d = record {
  worker_id = worker;
  job = d.job;
  attempt = attempt_of d;
  receive_count = d.receive_count;
  tier = d.tier;
}

-- What follows the reply to Started.
unfoldable pub handle_started :
    (Failure → Answer)
    → String
    → Delivery
    → (outcome error : Option String) → Time
    → Coordinator × Bool
    → Coordinator × List QueueCall
handle_started agent worker d outcome error now (c, true) = (c, ack ∷ [])
handle_started agent worker d outcome error now (c, false) =
    if stalls d.job (attempt_of d)
    then (c, [])
    else run_and_report agent worker d (attempt_of d) outcome error now c

-- What the loop does on one delivery.
unfoldable pub handle :
    (Failure → Answer)
    → String
    → Delivery
    → (outcome error : Option String) → Time
    → Coordinator
    → Coordinator × List QueueCall
handle agent worker d outcome error now c =
    handle_started agent worker d outcome error now (started (started_args worker d) now c)
