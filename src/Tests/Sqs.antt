-- ===== src/Tests/Sqs.antt =====
-- internal/dispatch/sqs.go on a concrete run: a job is submitted, submissions end, the job is
-- delivered and completed, and a dead letter for it comes too late.
use job_scheduler_tooling.Dispatch.Sqs.{
  note_redelivery, started, Coordinator, new_coordinator, submit, accept, admitted,
  close_submissions, SqsReportArgs, report_begin, watch_tick, maybe_done, log, status, report_end,
  apply_decision,
}
use job_scheduler_tooling.Prelude.{
  ◌≡◌, ◌≤◌, ◌↔◌, ◌⊎◌, refl, true, List, [], ◌∷◌, none, some, length, if◌then◌else◌,
}
use job_scheduler_tooling.Prelude.Int.{pos, add64, ℤ, eqb_ℤ}
use job_scheduler_tooling.Prelude.Dict.{lookup, insert, erase}
use job_scheduler_tooling.Dispatch.Guard.{guarded, on_error, on_invalid, on_exhausted}
use job_scheduler_tooling.Triage.{Failure, Answer, auto_adjust}
use job_scheduler_tooling.Triage
use job_scheduler_tooling.Inference
use job_scheduler_tooling.Queue.{Job}
use job_scheduler_tooling.Dispatch.Sqs.Terminal.{ended}
use job_scheduler_tooling.Dispatch.Sqs.Runs.{
  Reach, here, next, submitted, submissions_end, report_began, ticked, status_iff-ended,
  terminal-stays,
}
use job_scheduler_tooling.Dispatch.Sqs.Worker.{
  handle, handle_started, stalls, run_and_report, report, report_rest, settle, apply_reply,
}
use job_scheduler_tooling.Dispatch.Sqs.Ack.{acks, HasEnded, IsResent, handle-acked}
use job_scheduler_tooling.SqsQueue.{Delivery, Received, message, empty, receive, sweep}
use job_scheduler_tooling.SqsQueue.Sweep.{Swept, receive-Swept}
use job_scheduler_tooling.SqsQueue.Letters.{Answered}
use job_scheduler_tooling.Dispatch.Sqs.DeadLetters.{AllDecode, IsOf, peek_tick, peek_tick-Ends}
use job_scheduler_tooling.Tests.Samples.{job}

abbrev only : Job
only = job "inference-000" 3 1

abbrev args : SqsReportArgs
args = record { worker_id = "worker-01"; job = only; attempt = pos 1; success = true; error = "" }

abbrev open_state : Coordinator
open_state = (submit 1 only none (new_coordinator none)).0

abbrev reported : Coordinator
reported = (report_begin args 2 (close_submissions open_state)).0

abbrev late : Coordinator
late = watch_tick 3 (some (only ∷ [])) reported

to_reported : Reach (new_coordinator none) reported
to_reported =
    next (next (next here (submitted 1 only none refl)) (submissions_end refl))
      (report_began args 2 refl)

status_iff-ended_example :
    (length reported.terminal ≡ ended reported.stats)
    × ((status reported ≡ true)
        ↔ ((reported.closed ≡ true) × (reported.stats.submitted ≤ ended reported.stats)))
status_iff-ended_example = status_iff-ended none reported to_reported

reported-is_terminal : lookup "inference-000" reported.terminal ≡ some "completed"
unfolding new_coordinator submit Inference.validate accept admitted close_submissions maybe_done
    report_begin log lookup insert
reported-is_terminal = refl

terminal-stays_example : lookup "inference-000" late.terminal ≡ some "completed"
terminal-stays_example =
    terminal-stays none reported late "inference-000" "completed" to_reported
      (next here (ticked 3 (some (only ∷ [])) refl)) reported-is_terminal

abbrev held : Delivery
held = record { job = only; tier = pos 3; receive_count = pos 1; message_id = "m-1" }

abbrev halves : Failure → Answer
halves f = Answer.ok (record {
  action = auto_adjust;
  reason = "out of memory";
  batch_size = pos 8;
  precision = "fp16";
  source = "policy";
})

-- The batch runs out of memory, and the job is sent again with a smaller one.
oom_calls : acks (handle halves "worker-01" held (some "out of memory") none 2 open_state).1 ≡ true
unfolding new_coordinator submit Inference.validate accept admitted maybe_done report_begin
    report_end apply_decision log lookup insert erase handle handle_started started note_redelivery
    stalls run_and_report report report_rest settle apply_reply guarded on_error on_invalid
    on_exhausted add64 Triage.validate
oom_calls = refl

handle-acked_example :
    HasEnded
      (handle halves "worker-01" held (some "out of memory") none 2 open_state).0
      "inference-000"
    ⊎ IsResent "inference-000"
        (handle halves "worker-01" held (some "out of memory") none 2 open_state).1
handle-acked_example =
    handle-acked halves "worker-01" held (some "out of memory") none 2 open_state oom_calls

-- Tier 3 has a message; tiers 5 and 4 have none.
abbrev answers : ℤ → Received
answers t = if eqb_ℤ t (pos 3) then message "m-1" (pos 1) (some only) else empty

abbrev third : Delivery
third = record { job = only; tier = pos 3; receive_count = pos 1; message_id = "m-1" }

received_third : receive answers ≡ some (some third)
unfolding receive sweep
received_third = refl

receive-Swept_example : Swept answers 5 (receive answers)
receive-Swept_example = receive-Swept answers

-- A tick that finds two messages of the dead-letter queue.
abbrev two_letters : List Answered
two_letters =
    record { id = "m-1"; count = pos 4; body = some only }
    ∷ record { id = "m-2"; count = pos 4; body = some (job "inference-001" 3 1) }
    ∷ []

peek_tick-Ends_example :
    (HasEnded open_state "inference-001"
        ⊎ (AllDecode two_letters × IsOf "inference-001" two_letters)
      → HasEnded (peek_tick 5 (some two_letters) open_state) "inference-001")
    × (HasEnded (peek_tick 5 (some two_letters) open_state) "inference-001"
        → HasEnded open_state "inference-001"
          ⊎ (AllDecode two_letters × IsOf "inference-001" two_letters))
peek_tick-Ends_example = peek_tick-Ends 5 two_letters open_state "inference-001"
