-- ===== src/Dispatch/Sqs/System/About.antt =====
-- What the messages of the workers are about (internal/dispatch/sqs.go).
use job_scheduler_tooling.Prelude.{String, Bool, true, false, Option, none, some}
use job_scheduler_tooling.Triage.{Decision}
use job_scheduler_tooling.SqsQueue.{Delivery}
use job_scheduler_tooling.Dispatch.Sqs.{Coordinator, SqsReported, duplicate, finished, failed}
use job_scheduler_tooling.Dispatch.Sqs.Worker.{settle}
use job_scheduler_tooling.Dispatch.Sqs.System.{
  Message, Phase, idle, received, running, deciding, settling, after_started, after_begin,
  after_end,
}
use job_scheduler_tooling.Dispatch.Sqs.System.Known.{IsSubmitted, Extends}

-- A worker's message is about a submitted job.
abbrev pub IsAbout : Coordinator → Phase → Type 0
IsAbout c idle = Unit
IsAbout c (received m d) = IsSubmitted c m.id
IsAbout c (running m d) = IsSubmitted c m.id
IsAbout c (deciding m d e) = IsSubmitted c m.id
IsAbout c (settling m calls) = IsSubmitted c m.id

pub IsAbout-Extends : (c c' : Coordinator) (p : Phase) → Extends c c' → IsAbout c p → IsAbout c' p
IsAbout-Extends c c' idle x h = tt
IsAbout-Extends c c' (received m d) x h = x.1 m.id h
IsAbout-Extends c c' (running m d) x h = x.1 m.id h
IsAbout-Extends c c' (deciding m d e) x h = x.1 m.id h
IsAbout-Extends c c' (settling m calls) x h = x.1 m.id h

-- A call of the coordinator on a message, and what it leaves.
pub record Calls (c : Coordinator) (m : Message) (x : Coordinator × Phase) : Type 0 where
  pub extends : Extends c x.0
  pub about : IsSubmitted x.0 m.id → IsAbout x.0 x.1

pub after_started-Calls :
    (c : Coordinator) (m : Message) (d : Delivery) (x : Coordinator × Bool)
    → Extends c x.0
    → Calls c m (after_started m d x)
unfolding after_started
after_started-Calls c m d (c', true) x = record { extends = x; about = λ h. h }
after_started-Calls c m d (c', false) x = record { extends = x; about = λ h. h }

pub after_begin-Calls :
    (c : Coordinator) (m : Message) (d : Delivery) (outcome : Option String)
    (x : Coordinator × SqsReported)
    → Extends c x.0
    → Calls c m (after_begin m d outcome x)
unfolding after_begin
after_begin-Calls c m d outcome (c', duplicate) x = record { extends = x; about = λ h. h }
after_begin-Calls c m d outcome (c', finished) x = record { extends = x; about = λ h. h }
after_begin-Calls c m d outcome (c', failed) x = record { extends = x; about = λ h. h }

pub after_end-Calls :
    (c : Coordinator) (m : Message) (d : Delivery) (error : Option String)
    (x : Coordinator × Option Decision)
    → Extends c x.0
    → Calls c m (after_end m d error x)
unfolding after_end settle
after_end-Calls c m d error (c', none) x = record { extends = x; about = λ h. h }
after_end-Calls c m d error (c', some decision) x = record { extends = x; about = λ h. h }
