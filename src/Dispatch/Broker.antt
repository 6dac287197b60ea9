-- ===== src/Dispatch/Broker.antt =====
-- internal/dispatch/broker.go: the coordinator that owns the queue. Each method holds the lock
-- while it works on the state; Report gives it up while the agent decides, so it is two functions,
-- and the job is with the call in between. `none` is a run-time panic. Counters count events and
-- stay far below 2^63. The clock's readings are arguments.
pub mod Weight
pub mod Invariant
pub mod Submit
pub mod Claim
pub mod Report
pub mod Runs
pub mod Attempts
pub mod Budget
use job_scheduler_tooling.Prelude.{
  ℕ, ◌+◌, String, Bool, true, false, ◌&&◌, [], Option, none, some, ◌==◌, str_eq, if◌then◌else◌,
  length,
}
use job_scheduler_tooling.Prelude.Int.{pos, add64, ltb_ℤ}
use job_scheduler_tooling.Prelude.Dict.{Dict, lookup, insert, erase}
use job_scheduler_tooling.Prelude.Partial.{◌>>=◌}
use job_scheduler_tooling.Inference.{BatchError}
use job_scheduler_tooling.Inference
use job_scheduler_tooling.Queue.{Queue, Job, JobState, Time, is_zero, push, pop, len}
use job_scheduler_tooling.Queue
use job_scheduler_tooling.Telemetry.{Event, Recorder, record_event}
use job_scheduler_tooling.Triage.{Failure, Decision, Answer, retry, auto_adjust, escalate, adjust}
use job_scheduler_tooling.Dispatch.Guard.{guarded}

pub record Stats : Type 0 where
  pub submitted : ℕ
  pub succeeded : ℕ
  pub escalated : ℕ
  pub retried : ℕ
  pub adjusted : ℕ

-- `done` is whether the channel is closed. The agent is an argument of Report.
pub record Broker : Type 0 where
  pub queue : Queue
  pub running : Dict Job
  pub recorder : Recorder
  pub stats : Stats
  pub closed : Bool
  pub done : Bool

unfoldable pub new_broker : Recorder → Broker
new_broker recorder = record {
  queue = Queue.new;
  running = [];
  recorder = recorder;
  stats = record { submitted = 0; succeeded = 0; escalated = 0; retried = 0; adjusted = 0 };
  closed = false;
  done = false;
}

pub data SubmitError : Type 0 where
  invalid_batch : BatchError → SubmitError
  submissions_closed : SubmitError

abbrev pub job_event : Time → Job → String → String → String → Event
job_event now job event_type node_name triage_action = record {
  timestamp = now;
  job_id = job.id;
  event_type = event_type;
  node_name = node_name;
  priority = job.priority;
  model = job.inference.model;
  batch_size = job.inference.batch_size;
  attempt = job.attempt;
  triage_action = triage_action;
  version = pos 0;
}

-- `record`, and `recordLifecycle` for the events about a job on its node.
unfoldable pub log : Broker → Event → Broker
unfolding record_event
log b e = record b { recorder = record_event b.recorder e }

unfoldable pub maybe_done : Broker → Broker
maybe_done b =
    if b.closed
      && len b.queue == 0
      && length b.running == 0
      && b.stats.succeeded + b.stats.escalated == b.stats.submitted
    then record b { done = true }
    else b

-- What Submit makes of the job before it is queued.
unfoldable pub admitted : Time → Job → Job
admitted now job = record job {
  max_attempts = if ltb_ℤ job.max_attempts (pos 1) then pos 3 else job.max_attempts;
  state = JobState.pending;
  submit_time = if is_zero job.submit_time then now else job.submit_time;
}

abbrev pub count_submitted : Stats → Stats
count_submitted s = record s { submitted = s.submitted + 1 }

-- The part of Submit under the lock, submissions being open.
unfoldable pub enqueue : Time → Job → Broker → Option Broker
enqueue now job b = do
  let job' = admitted now job
  q ← push b.queue job'
  some (
      log (record b { queue = q; stats = count_submitted b.stats })
        (job_event job'.submit_time job' "submitted" "" ""))

-- Submit; the error is `none` for nil.
unfoldable pub submit : Time → Job → Broker → Option (Broker × Option SubmitError)
submit now job b = elim (Inference.validate job.inference) [
  | some e ↦ some (b, some (invalid_batch e))
  | none ↦
      if b.closed
      then some (b, some submissions_closed)
      else enqueue now job b >>= λ b'. some (b', none)
]

unfoldable pub close_submissions : Broker → Broker
close_submissions b = maybe_done (record b { closed = true })

pub record ClaimReply : Type 0 where
  pub job : Option Job
  pub wait : Bool
  pub shutdown : Bool

-- A job as Claim hands it to a worker.
unfoldable pub claimed : String → Time → Job → Job
claimed worker now job = record job {
  attempt = add64 job.attempt (pos 1);
  state = JobState.running;
  start_time = now;
  node = worker;
}

-- Claim with nothing in the queue.
unfoldable pub claim_empty : Broker → Broker × ClaimReply
claim_empty b =
    if b.closed && length b.running == 0
    then (maybe_done b, record { job = none; wait = false; shutdown = true })
    else (b, record { job = none; wait = true; shutdown = false })

-- A nil job from Pop is dereferenced.
unfoldable pub assign : String → Time → Broker → Option Job × Queue → Option (Broker × ClaimReply)
assign worker now b (none, q) = none
assign worker now b (some j, q) =
    let job = claimed worker now j in
    some (
      log (record b { queue = q; running = insert job.id job b.running })
          (job_event now job "started" worker ""),
      record { job = some job; wait = false; shutdown = false },
    )

unfoldable pub claim : String → Time → Broker → Option (Broker × ClaimReply)
claim worker now b =
    if len b.queue == 0 then some (claim_empty b) else pop b.queue >>= assign worker now b

pub record ReportArgs : Type 0 where
  pub worker_id : String
  pub job_id : String
  pub success : Bool
  pub error : String

-- Where the first part of Report ends: with an error, with a completed job, or with a failed job
-- for the agent.
pub data Reported : Type 0 where
  not_assigned : Reported
  finished : Reported
  failed : Job → Reported

abbrev pub count_succeeded : Stats → Stats
count_succeeded s = record s { succeeded = s.succeeded + 1 }

unfoldable pub report_found : ReportArgs → Time → Broker → Job → Broker × Reported
report_found args now b job =
    let b' = record b { running = erase args.job_id b.running } in
    if args.success
    then (
      maybe_done (
          log (record b' { stats = count_succeeded b'.stats })
            (job_event now job "completed" args.worker_id "")),
      finished,
    )
    else (log b' (job_event now job "failed" args.worker_id ""), failed job)

-- Report up to the first Unlock.
unfoldable pub report_begin : ReportArgs → Time → Broker → Broker × Reported
report_begin args now b = elim (lookup args.job_id b.running) [
  | none ↦ (b, not_assigned)
  | some job ↦ report_found args now b job
]

-- What the agent is asked about the job.
abbrev pub failure_of : Job → String → Failure
failure_of job error = record {
  job_id = job.id;
  attempt = job.attempt;
  max_attempts = job.max_attempts;
  error = error;
  batch = job.inference;
}

abbrev pub requeued : Job → Job
requeued job = record job { state = JobState.pending; inject_failure = "" }

abbrev pub count_retried : Stats → Stats
count_retried s = record s { retried = s.retried + 1 }

abbrev pub count_adjusted : Stats → Stats
count_adjusted s = record s { adjusted = s.adjusted + 1 }

abbrev pub count_escalated : Stats → Stats
count_escalated s = record s { escalated = s.escalated + 1 }

-- The `switch` of Report; an action of another name does nothing.
unfoldable pub apply_decision : Decision → Time → Job → Broker → Option Broker
apply_decision d now job b =
    if str_eq d.action retry
    then (let job' = requeued job in
        push b.queue job' >>= λ q. some (
          log (record b { queue = q; stats = count_retried b.stats })
            (job_event now job' "retried" job.node "")))
    else if str_eq d.action auto_adjust
    then (let job' = record (requeued job) { inference = adjust job.inference d } in
        push b.queue job' >>= λ q. some (
          log (record b { queue = q; stats = count_adjusted b.stats })
            (job_event now job' "adjusted" job.node "")))
    else if str_eq d.action escalate
    then some (
        log (record b { stats = count_escalated b.stats })
          (job_event now job "escalated" job.node ""))
    else some b

-- Report from the second Lock on, with the decision that it acts on.
unfoldable pub report_end : ReportArgs → Time → Job → Decision → Broker → Option Broker
report_end args now job d b =
    let b' = log b (job_event now job "triaged" args.worker_id d.action) in
    apply_decision d now job b' >>= λ b''. some (maybe_done b'')

unfoldable pub report_rest :
    (Failure → Answer)
    → ReportArgs
    → Time
    → Broker × Reported
    → Option (Broker × Reported × Option Decision)
report_rest agent args later (b, not_assigned) = some (b, not_assigned, none)
report_rest agent args later (b, finished) = some (b, finished, none)
report_rest agent args later (b, failed job) =
    let d = guarded job.attempt job.max_attempts (agent (failure_of job args.error)) in
    report_end args later job d b >>= λ b'. some (b', failed job, some d)

-- The whole of Report when no other call runs while the agent decides. The reply carries the
-- decision on a failed job.
unfoldable pub report :
    (Failure → Answer)
    → ReportArgs
    → Time
    → Time
    → Broker
    → Option (Broker × Reported × Option Decision)
unfolding report_rest
report agent args now later b = report_rest agent args later (report_begin args now b)
