-- ===== src/SqsQueue/Letters.antt =====
-- Ack, Release and PeekDeadLetters of internal/sqsqueue/sqsqueue.go. The calls of SQS are arguments,
-- with the JSON of a message decoded.
use job_scheduler_tooling.Prelude.{String, List, [], ◌∷◌, Option, some}
use job_scheduler_tooling.Prelude.Int.{ℤ, pos}
use job_scheduler_tooling.Prelude.Partial.{◌>>=◌}
use job_scheduler_tooling.Queue.{Job}
use job_scheduler_tooling.SqsQueue.{Delivery}

-- A delivery, with what Ack and Release give back to SQS.
pub record Handle : Type 0 where
  pub delivery : Delivery
  pub queue_url : String
  pub receipt : String

-- `delete_message` is DeleteMessage, by queue and receipt, with its error.
unfoldable pub ack : (String → String → Option String) → Handle → Option String
ack delete_message d = delete_message d.queue_url d.receipt

-- `change_visibility` is ChangeMessageVisibility.
unfoldable pub release : (String → String → ℤ → Option String) → Handle → Option String
release change_visibility d = change_visibility d.queue_url d.receipt (pos 0)

-- A message that ReceiveMessage gives.
pub record Answered : Type 0 where
  pub id : String
  pub count : ℤ
  pub body : Option Job

pub record DeadLetter : Type 0 where
  pub job : Job
  pub message_id : String
  pub receive_count : ℤ

-- The loop of PeekDeadLetters; `none` is the error of a message that cannot be decoded.
unfoldable pub letters_of : List Answered → Option (List DeadLetter)
letters_of [] = some []
letters_of (m ∷ messages) = do
  job ← m.body
  letters ← letters_of messages
  some (record { job = job; message_id = m.id; receive_count = m.count } ∷ letters)

-- `answer` is that of ReceiveMessage on the dead-letter queue, `none` an error.
unfoldable pub peek_dead_letters : Option (List Answered) → Option (List DeadLetter)
peek_dead_letters answer = answer >>= letters_of
