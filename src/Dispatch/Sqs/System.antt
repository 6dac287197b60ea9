-- ===== src/Dispatch/Sqs/System.antt =====
-- The SQS mode as one system: the coordinator (internal/dispatch/sqs.go), any number of workers in
-- RunSQSWorker, each between two of its calls, and the queues. SQS itself is a parameter, with what
-- its documentation promises as laws. A worker may die between any two calls.
pub mod Lives
pub mod Phases
pub mod Kept
pub mod Known
pub mod Completion
pub mod About
use job_scheduler_tooling.Prelude.{
  ℕ, ◌+◌, ◌<◌, ◌≡◌, ◌⊎◌, String, Bool, true, false, List, [], ◌∷◌, Option, none, some, str_eq,
  if◌then◌else◌,
}
use job_scheduler_tooling.Prelude.Dict.{lookup}
use job_scheduler_tooling.Queue.{Job, Time}
use job_scheduler_tooling.Telemetry.{Recorder}
use job_scheduler_tooling.Triage.{Failure, Decision, Answer}
use job_scheduler_tooling.Dispatch.Guard.{guarded}
use job_scheduler_tooling.SqsQueue.{Delivery}
use job_scheduler_tooling.Dispatch.Sqs.{
  Coordinator, new_coordinator, submit, close_submissions, started, SqsReportArgs, SqsReported,
  duplicate, finished, failed, report_begin, report_end, watch_tick,
}
use job_scheduler_tooling.Dispatch.Sqs.Worker.{
  QueueCall, ack, release, send, stalls, attempt_of, started_args, report_args, sqs_failure, settle,
}

-- A message as SQS tells it from others: how many were sent before it, and the ID of its job.
pub record Message : Type 0 where
  pub number : ℕ
  pub id : String

-- SQS, the dead-letter queue included. `Changes` is what it does on its own: a delivery makes a
-- message invisible for a while, and one received too often moves to the dead-letter queue.
pub record Service (Q : Type 0) : Type 1 where
  pub Holds : Q → Message → Type 0
  pub Changes : Q → Q → Type 0
  pub sent : Q → ℕ
  pub send : Job → Q → Q
  pub delete : Message → Q → Q
  pub release : Message → Q → Q
  pub Holds-sent : (q : Q) (m : Message) → Holds q m → m.number < sent q
  pub send-adds : (j : Job) (q : Q) → Holds (send j q) (record { number = sent q; id = j.id })
  pub send-keeps : (j : Job) (q : Q) (m : Message) → Holds q m → Holds (send j q) m
  pub send-only :
      (j : Job) (q : Q) (m : Message)
      → Holds (send j q) m
      → Holds q m ⊎ (m ≡ record { number = sent q; id = j.id })
  pub send-sent : (j : Job) (q : Q) → sent (send j q) ≡ sent q + 1
  pub delete-keeps :
      (m : Message) (q : Q) (k : Message) → Holds q k → Holds (delete m q) k ⊎ (k ≡ m)
  pub delete-only : (m : Message) (q : Q) (k : Message) → Holds (delete m q) k → Holds q k
  pub delete-sent : (m : Message) (q : Q) → sent (delete m q) ≡ sent q
  pub release-keeps : (m : Message) (q : Q) (k : Message) → Holds q k → Holds (release m q) k
  pub release-only : (m : Message) (q : Q) (k : Message) → Holds (release m q) k → Holds q k
  pub release-sent : (m : Message) (q : Q) → sent (release m q) ≡ sent q
  pub change-keeps : (p q : Q) (m : Message) → Changes p q → Holds p m → Holds q m
  pub change-only : (p q : Q) (m : Message) → Changes p q → Holds q m → Holds p m
  pub change-sent : (p q : Q) → Changes p q → sent q ≡ sent p

-- Where a worker stands: before Receive; with a message, before Started; with a batch to run; while
-- the agent decides on the error of the run; and with calls to SQS that are left.
pub data Phase : Type 0 where
  idle : Phase
  received : Message → Delivery → Phase
  running : Message → Delivery → Phase
  deciding : Message → Delivery → String → Phase
  settling : Message → List QueueCall → Phase

pub record System (Q : Type 0) : Type 0 where
  pub coordinator : Coordinator
  pub queues : Q
  pub workers : String → Phase

abbrev pub set_phase : String → Phase → (String → Phase) → String → Phase
set_phase worker phase workers other = if str_eq worker other then phase else workers other

-- A call of the coordinator by a worker.
abbrev pub put : {Q : Type 0} → String → Coordinator × Phase → System Q → System Q
put worker (c, phase) s = record s { coordinator = c; workers = set_phase worker phase s.workers }

unfoldable pub after_started : Message → Delivery → Coordinator × Bool → Coordinator × Phase
after_started m d (c, true) = (c, settling m (ack ∷ []))
after_started m d (c, false) = (c, running m d)

abbrev pub error_text : Option String → String
error_text none = ""
error_text (some e) = e

unfoldable pub after_begin :
    Message → Delivery → Option String → Coordinator × SqsReported → Coordinator × Phase
after_begin m d outcome (c, duplicate) = (c, settling m (ack ∷ []))
after_begin m d outcome (c, finished) = (c, settling m (ack ∷ []))
after_begin m d outcome (c, failed) = (c, deciding m d (error_text outcome))

abbrev pub settle_phase : Message → Coordinator × List QueueCall → Coordinator × Phase
settle_phase m (c, calls) = (c, settling m calls)

-- `error` is that of Send.
unfoldable pub after_end :
    Message
    → Delivery
    → (error : Option String) → Coordinator × Option Decision
    → Coordinator × Phase
after_end m d error x = settle_phase m (settle d.job (attempt_of d) error x)

abbrev pub failed_args : String → Delivery → String → SqsReportArgs
failed_args worker d e = report_args worker d (attempt_of d) (some e)

-- The second part of Report, with the decision that the guards let through.
abbrev pub decide :
    (Failure → Answer) → SqsReportArgs → Time → Coordinator → Coordinator × Option Decision
decide agent args now c =
    report_end args now (guarded args.attempt args.job.max_attempts (agent (sqs_failure args))) c

module _ {Q : Type 0} (sqs : Service Q) where
  unfoldable pub perform : QueueCall → Message → Q → Q
  perform ack m q = sqs.delete m q
  perform release m q = sqs.release m q
  perform (send j none) m q = sqs.send j q
  perform (send j (some e)) m q = q

  -- What PeekDeadLetters finds is in the queues.
  unfoldable pub AreHeld : Q → List Job → Type 0
  AreHeld q [] = Unit
  AreHeld q (j ∷ jobs) = ((m : Message) × sqs.Holds q m × (m.id ≡ j.id)) × AreHeld q jobs

  unfoldable pub ArePeeked : Q → Option (List Job) → Type 0
  ArePeeked q none = Unit
  ArePeeked q (some jobs) = AreHeld q jobs

  -- Submit is two steps, since Send runs outside the lock. A Send that errs may have sent the message
  -- all the same. A worker that dies, that a call fails
  -- for or that begins its next round is idle again.
  pub data Step (s s' : System Q) : Type 0 where
    submitted :
        (now : Time) (job : Job) (error : Option String)
        → s' ≡ record s { coordinator = (submit now job error s.coordinator).0 }
        → Step s s'
    enqueued :
        (job : Job)
        → lookup job.id s.coordinator.jobs ≡ some job
        → s' ≡ record s { queues = sqs.send job s.queues }
        → Step s s'
    submissions_end : s' ≡ record s { coordinator = close_submissions s.coordinator } → Step s s'
    ticked :
        (now : Time) (dead : Option (List Job))
        → ArePeeked s.queues dead
        → s' ≡ record s { coordinator = watch_tick now dead s.coordinator }
        → Step s s'
    changed : (q : Q) → sqs.Changes s.queues q → s' ≡ record s { queues = q } → Step s s'
    delivered :
        (worker : String) (m : Message) (d : Delivery)
        → s.workers worker ≡ idle
        → sqs.Holds s.queues m
        → d.job.id ≡ m.id
        → s' ≡ record s { workers = set_phase worker (received m d) s.workers }
        → Step s s'
    began :
        (worker : String) (m : Message) (d : Delivery) (now : Time)
        → s.workers worker ≡ received m d
        → s' ≡ put worker (after_started m d (started (started_args worker d) now s.coordinator)) s
        → Step s s'
    ran :
        (worker : String) (m : Message) (d : Delivery) (outcome : Option String) (now : Time)
        → s.workers worker ≡ running m d
        → stalls d.job (attempt_of d) ≡ false
        → s'
          ≡ put worker
              (after_begin m d outcome
                (report_begin (report_args worker d (attempt_of d) outcome) now s.coordinator))
              s
        → Step s s'
    decided :
        (worker : String) (m : Message) (d : Delivery) (e : String) (agent : Failure → Answer)
        (error : Option String) (now : Time)
        → s.workers worker ≡ deciding m d e
        → s'
          ≡ put worker
              (after_end m d error (decide agent (failed_args worker d e) now s.coordinator))
              s
        → Step s s'
    called :
        (worker : String) (m : Message) (call : QueueCall) (calls : List QueueCall)
        → s.workers worker ≡ settling m (call ∷ calls)
        → s' ≡ record s {
          queues = perform call m s.queues;
          workers = set_phase worker (settling m calls) s.workers;
        }
        → Step s s'
    reply_lost :
        (worker : String) (m : Message) (j : Job) (e : String) (calls : List QueueCall)
        → s.workers worker ≡ settling m (send j (some e) ∷ calls)
        → s' ≡ record s { queues = sqs.send j s.queues }
        → Step s s'
    dropped :
        (worker : String) → s' ≡ record s { workers = set_phase worker idle s.workers } → Step s s'

  pub data Reach (s : System Q) : System Q → Type 0 where
    here : Reach s s
    next : {t u : System Q} → Reach s t → Step t u → Reach s u

-- A new coordinator and idle workers, beside queues.
unfoldable pub start : {Q : Type 0} → Recorder → Q → System Q
start recorder q = record {
  coordinator = new_coordinator recorder;
  queues = q;
  workers = λ _. idle;
}
