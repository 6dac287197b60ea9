-- ===== src/Dispatcher.antt =====
-- cmd/dispatcher/main.go: a worker process beside the in-process broker. The RPC between them carries
-- calls and replies over; what the Python process answers is an argument, and so is the clock. Each
-- round of the loop reads the clock up to three times. `none` is a run-time panic, or fuel that runs
-- out.
pub mod Handled
pub mod Drain
pub mod Jobs
pub mod Session
pub mod Chaos
pub mod Pool
pub mod Watch
pub mod Workers
pub mod SqsSession
use job_scheduler_tooling.Prelude.{
  ℕ, zero, suc, ◌+◌, String, Bool, true, false, not, Option, none, some, str_eq, if◌then◌else◌,
}
use job_scheduler_tooling.Prelude.Partial.{◌>>=◌}
use job_scheduler_tooling.Inference.{Batch}
use job_scheduler_tooling.Queue.{Job, Time}
use job_scheduler_tooling.Triage.{Failure, Decision, Answer}
use job_scheduler_tooling.Dispatch.Broker.{
  Broker, ClaimReply, ReportArgs, Reported, not_assigned, finished, failed, claim, report,
}

unfoldable pub injected_error : String → Option String
injected_error kind =
    if str_eq kind "oom"
    then some "CUDA out of memory while allocating inference tensor"
    else if str_eq kind "transient"
    then some "transient GPU worker reset"
    else if str_eq kind "corrupt_input"
    then some "corrupt input image in batch"
    else none

-- What the exchange with the Python process comes to: an error of the pipe, or a runnerResponse.
pub data Exchange : Type 0 where
  encode_failed : String → Exchange
  decode_failed : String → Exchange
  answered : (ok : Bool) (error : String) → Exchange

-- The error of inferenceRunner.Run; its result is not read here.
unfoldable pub runner_error : Exchange → Option String
runner_error (encode_failed e) = some e
runner_error (decode_failed e) = some e
runner_error (answered ok e) = if not ok then some e else none

pub record Env : Type 0 where
  pub clock : ℕ → Time
  pub infer : ℕ → Batch → Exchange
  pub agent : Failure → Answer

abbrev pub run_error : Env → ℕ → Job → Option String
run_error env n job = elim (injected_error job.inject_failure) [
  | some e ↦ some e
  | none ↦ runner_error (env.infer n job.inference)
]

abbrev pub report_for : String → String → Option String → ReportArgs
report_for worker job_id none = record {
  worker_id = worker;
  job_id = job_id;
  success = true;
  error = "";
}
report_for worker job_id (some e) = record {
  worker_id = worker;
  job_id = job_id;
  success = false;
  error = e;
}

-- How a worker ends: nil, or the error of a report.
pub data Exit : Type 0 where
  shut_down : Exit
  report_refused : Exit

abbrev pub after_report : Broker × Reported × Option Decision → Option (Broker × Option Exit)
after_report (b, not_assigned, d) = some (b, some report_refused)
after_report (b, finished, d) = some (b, none)
after_report (b, failed job, d) = some (b, none)

unfoldable pub work_on : Env → String → ℕ → Job → Broker → Option (Broker × Option Exit)
work_on env worker n job b =
    report env.agent (report_for worker job.id (run_error env n job)) (env.clock (n + 1))
      (env.clock (n + 2)) b
    >>= after_report

-- What a worker does by a reply to Claim. A reply of neither kind carries a job.
unfoldable pub obey : Env → String → ℕ → Broker × ClaimReply → Option (Broker × Option Exit)
obey env worker n (b, r) =
    if r.shutdown
    then some (b, some shut_down)
    else if r.wait
    then some (b, none)
    else r.job >>= λ job. work_on env worker n job b

abbrev pub go_on : (Broker → Option (Broker × Exit)) → Broker × Option Exit → Option (Broker × Exit)
go_on loop (b, some e) = some (b, e)
go_on loop (b, none) = loop b

-- The loop of runWorker, beside a broker that no one else calls.
unfoldable pub worker_loop : ℕ → Env → String → ℕ → Broker → Option (Broker × Exit)
worker_loop zero env worker n b = none
worker_loop (suc fuel) env worker n b =
    claim worker (env.clock n) b
    >>= obey env worker n
    >>= go_on (worker_loop fuel env worker (n + 3))
