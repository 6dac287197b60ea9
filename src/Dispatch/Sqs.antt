-- ===== src/Dispatch/Sqs.antt =====
-- internal/dispatch/sqs.go: the coordinator beside queues in SQS. Each method is one function from
-- state to state; Report is two, since it gives the lock up while the agent decides. What the queues
-- answer is an argument, and so is the clock. Counters are far below 2^63.
pub mod Terminal
pub mod Runs
pub mod Worker
pub mod Ack
pub mod System
pub mod DeadLetters
use job_scheduler_tooling.Prelude.{
  ℕ, ◌+◌, String, Bool, true, false, not, ◌&&◌, List, [], ◌∷◌, Option, none, some, leb, str_eq,
  if◌then◌else◌, length,
}
use job_scheduler_tooling.Prelude.Int.{ℤ, pos, ltb_ℤ}
use job_scheduler_tooling.Prelude.Dict.{Dict, lookup, insert, erase}
use job_scheduler_tooling.Inference.{BatchError}
use job_scheduler_tooling.Inference
use job_scheduler_tooling.Queue.{Job, JobState, Time, is_zero}
use job_scheduler_tooling.Telemetry.{Event, Recorder, record_event}
use job_scheduler_tooling.Triage.{Decision, retry, auto_adjust, escalate}

pub record SqsStats : Type 0 where
  pub submitted : ℕ
  pub succeeded : ℕ
  pub escalated : ℕ
  pub dead_lettered : ℕ
  pub retried : ℕ
  pub adjusted : ℕ
  pub redelivered : ℕ
  pub duplicates : ℕ

-- `done` is whether the channel is closed.
pub record Coordinator : Type 0 where
  pub recorder : Recorder
  pub jobs : Dict Job
  pub terminal : Dict String
  pub released : Dict Bool
  pub stats : SqsStats
  pub closed : Bool
  pub done : Bool

unfoldable pub new_coordinator : Recorder → Coordinator
new_coordinator recorder = record {
  recorder = recorder;
  jobs = [];
  terminal = [];
  released = [];
  stats = record {
    submitted = 0;
    succeeded = 0;
    escalated = 0;
    dead_lettered = 0;
    retried = 0;
    adjusted = 0;
    redelivered = 0;
    duplicates = 0;
  };
  closed = false;
  done = false;
}

abbrev pub sqs_event : Time → Job → String → String → ℤ → String → Event
sqs_event now job event_type worker attempt triage_action = record {
  timestamp = now;
  job_id = job.id;
  event_type = event_type;
  node_name = worker;
  priority = job.priority;
  model = job.inference.model;
  batch_size = job.inference.batch_size;
  attempt = attempt;
  triage_action = triage_action;
  version = pos 0;
}

-- `record` and `recordTriage`.
unfoldable pub log : Event → Coordinator → Coordinator
log e c = record c { recorder = record_event c.recorder e }

unfoldable pub maybe_done : Coordinator → Coordinator
maybe_done c =
    if c.closed && leb c.stats.submitted (length c.terminal) then record c { done = true } else c

pub data SubmitError : Type 0 where
  invalid_batch : BatchError → SubmitError
  submissions_closed : SubmitError
  enqueue_failed : String → SubmitError

-- What Submit makes of the job that it stores and sends.
unfoldable pub admitted : Time → Job → Job
admitted now job = record job {
  max_attempts = if ltb_ℤ job.max_attempts (pos 1) then pos 3 else job.max_attempts;
  state = JobState.pending;
  submit_time = if is_zero job.submit_time then now else job.submit_time;
}

abbrev pub count_submitted : SqsStats → SqsStats
count_submitted s = record s { submitted = s.submitted + 1 }

-- The part of Submit under the lock, submissions being open.
unfoldable pub accept : Time → Job → Coordinator → Coordinator
accept now job c =
    let job' = admitted now job in
    log (sqs_event now job' "submitted" "" job'.attempt "")
      (record c { jobs = insert job'.id job' c.jobs; stats = count_submitted c.stats })

-- `send` is the error of Queues.Send.
unfoldable pub submit : Time → Job → Option String → Coordinator → Coordinator × Option SubmitError
submit now job send c = elim (Inference.validate job.inference) [
  | some e ↦ (c, some (invalid_batch e))
  | none ↦
      if c.closed
      then (c, some submissions_closed)
      else (accept now job c, elim send [ none ↦ none | some e ↦ some (enqueue_failed e) ])
]

unfoldable pub close_submissions : Coordinator → Coordinator
close_submissions c = maybe_done (record c { closed = true })

pub record StartedArgs : Type 0 where
  pub worker_id : String
  pub job : Job
  pub attempt : ℤ
  pub receive_count : ℤ
  pub tier : ℤ

abbrev pub count_duplicate : SqsStats → SqsStats
count_duplicate s = record s { duplicates = s.duplicates + 1 }

abbrev pub count_redelivered : SqsStats → SqsStats
count_redelivered s = record s { redelivered = s.redelivered + 1 }

-- A delivery after a holder that never acked, and was not told to retry.
unfoldable pub note_redelivery : StartedArgs → Time → Coordinator → Coordinator
note_redelivery args now c =
    let released : Bool = elim (lookup args.job.id c.released) [ none ↦ false | some r ↦ r ] in
    if ltb_ℤ (pos 1) args.receive_count && not released
    then log (sqs_event now args.job "redelivered" args.worker_id args.attempt "")
        (record c { stats = count_redelivered c.stats })
    else c

-- Started; the reply is Duplicate. The hook OnStarted runs after it.
unfoldable pub started : StartedArgs → Time → Coordinator → Coordinator × Bool
started args now c = elim (lookup args.job.id c.terminal) [
  | some state ↦ (
    log (sqs_event now args.job "duplicate_delivery" args.worker_id args.attempt "")
        (record c { stats = count_duplicate c.stats }),
    true,
  )
  | none ↦
      let c' = note_redelivery args now c in
      (
        log (sqs_event now args.job "started" args.worker_id args.attempt "")
            (record c' { released = erase args.job.id c'.released }),
        false,
      )
]

pub record SqsReportArgs : Type 0 where
  pub worker_id : String
  pub job : Job
  pub attempt : ℤ
  pub success : Bool
  pub error : String

-- Where the first part of Report ends.
pub data SqsReported : Type 0 where
  duplicate : SqsReported
  finished : SqsReported
  failed : SqsReported

-- A job reaches its end.
abbrev pub end_job : String → String → SqsStats → Event → Coordinator → Coordinator
end_job id state stats e c =
    log e (record c { terminal = insert id state c.terminal; stats = stats })

unfoldable pub report_begin : SqsReportArgs → Time → Coordinator → Coordinator × SqsReported
report_begin args now c = elim (lookup args.job.id c.terminal) [
  | some _ ↦ (record c { stats = count_duplicate c.stats }, duplicate)
  | none ↦
      if args.success
      then (
        maybe_done (
            end_job args.job.id "completed" (record c.stats { succeeded = c.stats.succeeded + 1 })
              (sqs_event now args.job "completed" args.worker_id args.attempt "") c),
        finished,
      )
      else (log (sqs_event now args.job "failed" args.worker_id args.attempt "") c, failed)
]

abbrev pub count_retried : SqsStats → SqsStats
count_retried s = record s { retried = s.retried + 1 }

abbrev pub count_adjusted : SqsStats → SqsStats
count_adjusted s = record s { adjusted = s.adjusted + 1 }

-- The `switch` of Report; an action of another name does nothing.
unfoldable pub apply_decision : SqsReportArgs → Time → Decision → Coordinator → Coordinator
apply_decision args now d c =
    if str_eq d.action retry
    then log (sqs_event now args.job "retried" args.worker_id args.attempt "")
        (record c { released = insert args.job.id true c.released; stats = count_retried c.stats })
    else if str_eq d.action auto_adjust
    then log (sqs_event now args.job "adjusted" args.worker_id args.attempt "")
        (record c { stats = count_adjusted c.stats })
    else if str_eq d.action escalate
    then end_job args.job.id "escalated" (record c.stats { escalated = c.stats.escalated + 1 })
        (sqs_event now args.job "escalated" args.worker_id args.attempt "") c
    else c

-- Report from the second Lock on; `none` where the reply says Duplicate.
unfoldable pub report_end :
    SqsReportArgs → Time → Decision → Coordinator → Coordinator × Option Decision
report_end args now d c = elim (lookup args.job.id c.terminal) [
  | some _ ↦ (record c { stats = count_duplicate c.stats }, none)
  | none ↦ (
    maybe_done (
        apply_decision args now d
          (log (sqs_event now args.job "triaged" args.worker_id args.attempt d.action) c)),
    some d,
  )
]

-- One dead letter of a WatchDeadLetters tick.
unfoldable pub bury : Time → Job → Coordinator → Coordinator
bury now job c = elim (lookup job.id c.terminal) [
  | some _ ↦ c
  | none ↦
      end_job job.id "dead_lettered" (record c.stats { dead_lettered = c.stats.dead_lettered + 1 })
        (sqs_event now job "dead_lettered" "" job.attempt "") c
]

unfoldable pub bury_all : Time → List Job → Coordinator → Coordinator
bury_all now [] c = c
bury_all now (job ∷ dead) c = bury_all now dead (bury now job c)

-- A tick of WatchDeadLetters, with what PeekDeadLetters finds (`none` where it fails).
unfoldable pub watch_tick : Time → Option (List Job) → Coordinator → Coordinator
watch_tick now none c = c
watch_tick now (some dead) c = maybe_done (bury_all now dead c)

unfoldable pub status : Coordinator → Bool
status c = c.done
