-- ===== src/Dispatch/Sqs/Ack.antt =====
-- When a worker deletes a message (RunSQSWorker of internal/dispatch/sqs.go).
use job_scheduler_tooling.Prelude.{
  ◌≡◌, ◌⊎◌, inl, inr, refl, String, Bool, true, false, List, [], ◌∷◌, Option, none, some, str_eq,
  eq_refl, eq_iff, if_split, option_split, arith,
}
use job_scheduler_tooling.Prelude.Int.{ℤ}
use job_scheduler_tooling.Prelude.Dict.{lookup, insert, lookup-insert}
use job_scheduler_tooling.Queue.{Job, Time}
use job_scheduler_tooling.Triage.{Failure, Decision, Answer, retry, auto_adjust, escalate, validate}
use job_scheduler_tooling.Dispatch.Guard.{guarded-IsAdmissible}
use job_scheduler_tooling.SqsQueue.{Delivery}
use job_scheduler_tooling.Dispatch.Sqs.{
  Coordinator, SqsReportArgs, SqsReported, started, report_begin, report_end, apply_decision,
  maybe_done, log,
}
use job_scheduler_tooling.Dispatch.Sqs.Worker.{
  QueueCall, ack, release, send, apply_reply, adjusted_job, report, report_args, run_and_report,
  attempt_of, handle, stalls, report_rest, settle, handle_started, sqs_failure,
}

abbrev pub acks : List QueueCall → Bool
acks [] = false
acks (ack ∷ cs) = true
acks (release ∷ cs) = acks cs
acks (send j error ∷ cs) = acks cs

-- The job has a terminal state.
abbrev pub HasEnded : Coordinator → String → Type 0
HasEnded c id = (state : String) × (lookup id c.terminal ≡ some state)

-- The calls put the job, under its ID and with no error, back into a queue before they ack.
abbrev pub IsResent : String → List QueueCall → Type 0
IsResent id cs = (j : Job) × (cs ≡ send j none ∷ ack ∷ []) × (j.id ≡ id)

-- What Report leaves: an end, or a decision under which the job goes on.
abbrev pub Replied : String → Coordinator × Option Decision → Type 0
Replied id (c, none) = HasEnded c id
Replied id (c, some d) = HasEnded c id ⊎ ((d.action ≡ retry) ⊎ (d.action ≡ auto_adjust))

pub own-HasEnded :
    (id state : String) (c : Coordinator) → lookup id (insert id state c.terminal) ≡ some state
own-HasEnded id state c = ground (arith, lookup-insert id id state c.terminal, eq_refl id)

pub maybe_done-HasEnded :
    (id : String) (c : Coordinator) → HasEnded c id → HasEnded (maybe_done c) id
unfolding maybe_done
maybe_done-HasEnded id c h = if_split (λ c'. HasEnded c' id) _ (λ _. h) (λ _. h)

valid_action :
    (d : Decision)
    → validate d ≡ none
    → str_eq d.action retry ≡ false
    → str_eq d.action auto_adjust ≡ false
    → str_eq d.action escalate ≡ true
unfolding validate
valid_action d h r a = ground arith

-- What a decision leads to.
abbrev pub Decided : String → Decision → Coordinator → Type 0
Decided id d c = HasEnded c id ⊎ ((d.action ≡ retry) ⊎ (d.action ≡ auto_adjust))

apply_decision-Decided :
    (args : SqsReportArgs) (now : Time) (d : Decision) (c : Coordinator)
    → validate d ≡ none
    → Decided args.job.id d (apply_decision args now d c)
unfolding apply_decision log
apply_decision-Decided args now d c valid =
    if_split (Decided args.job.id d) (str_eq d.action retry) (λ e. inr (inl ((eq_iff _ _).0 e)))
      (λ no_retry.
        if_split (Decided args.job.id d) (str_eq d.action auto_adjust)
          (λ e. inr (inr ((eq_iff _ _).0 e)))
          (λ no_adjust.
            if_split (Decided args.job.id d) (str_eq d.action escalate)
              (λ _. inl ("escalated", own-HasEnded args.job.id "escalated" c))
              (λ no. cc (valid_action d valid no_retry no_adjust))))

maybe_done-Decided :
    (id : String) (d : Decision) (c : Coordinator) → Decided id d c → Decided id d (maybe_done c)
maybe_done-Decided id d c (inl h) = inl (maybe_done-HasEnded id c h)
maybe_done-Decided id d c (inr h) = inr h

pub report_end-Replied :
    (args : SqsReportArgs) (now : Time) (d : Decision) (c : Coordinator)
    → validate d ≡ none
    → Replied args.job.id (report_end args now d c)
unfolding report_end log
report_end-Replied args now d c valid =
    option_split (Replied args.job.id) (lookup args.job.id c.terminal)
      (λ _. maybe_done-Decided args.job.id d _ (apply_decision-Decided args now d _ valid))
      (λ state h. (state, h))

report-Replied :
    (agent : Failure → Answer) (args : SqsReportArgs) (now : Time) (c : Coordinator)
    → Replied args.job.id (report agent args now c)
unfolding report report_rest report_begin log
report-Replied agent args now c =
    option_split
      (λ (x : Coordinator × SqsReported). Replied args.job.id (report_rest agent args now x))
      (lookup args.job.id c.terminal)
      (λ _.
        if_split
          (λ (x : Coordinator × SqsReported). Replied args.job.id (report_rest agent args now x))
          args.success
          (λ _.
            maybe_done-HasEnded args.job.id _ ("completed", own-HasEnded args.job.id "completed" c))
          (λ _.
            report_end-Replied args now _ _
              (guarded-IsAdmissible (sqs_failure args) (agent (sqs_failure args))).valid))
      (λ state h. (state, h))

-- An ack is safe where the job has ended or goes on under its ID.
abbrev pub AckIsSafe : String → Coordinator × List QueueCall → Type 0
AckIsSafe id (c, cs) = acks cs ≡ true → HasEnded c id ⊎ IsResent id cs

resent-AckIsSafe :
    (job again : Job) (c : Coordinator) (error : Option String)
    → again.id ≡ job.id
    → AckIsSafe job.id (c, send again error ∷ elim error [ none ↦ ack ∷ [] | some _ ↦ [] ])
resent-AckIsSafe job again c none same = λ _. inr (again, refl, same)
resent-AckIsSafe job again c (some e) same = λ k. cc

apply_reply-AckIsSafe :
    (job : Job) (attempt : ℤ) (error : Option String) (d : Decision) (c : Coordinator)
    → Decided job.id d c
    → AckIsSafe job.id (c, apply_reply job attempt error d)
unfolding apply_reply adjusted_job
apply_reply-AckIsSafe job attempt error d c (inl h) = λ _. inl h
apply_reply-AckIsSafe job attempt error d c (inr (inl r)) =
    if_split (λ cs. AckIsSafe job.id (c, cs)) (str_eq d.action retry) (λ _ k. cc)
      (λ no. cc ((eq_iff d.action retry).1 r))
apply_reply-AckIsSafe job attempt error d c (inr (inr a)) =
    if_split (λ cs. AckIsSafe job.id (c, cs)) (str_eq d.action retry) (λ _ k. cc)
      (λ _.
        if_split (λ cs. AckIsSafe job.id (c, cs)) (str_eq d.action auto_adjust)
          (λ _. resent-AckIsSafe job (adjusted_job job attempt d) c error refl)
          (λ no. cc ((eq_iff d.action auto_adjust).1 a)))

settle-AckIsSafe :
    (job : Job) (attempt : ℤ) (error : Option String) (x : Coordinator × Option Decision)
    → Replied job.id x
    → AckIsSafe job.id (settle job attempt error x)
unfolding settle
settle-AckIsSafe job attempt error (c, none) h = λ _. inl h
settle-AckIsSafe job attempt error (c, some d) h = apply_reply-AckIsSafe job attempt error d c h

handle_safe :
    (agent : Failure → Answer) (worker : String) (d : Delivery) (outcome error : Option String)
    (now : Time) (c : Coordinator)
    → AckIsSafe d.job.id (handle agent worker d outcome error now c)
unfolding handle handle_started run_and_report started log
handle_safe agent worker d outcome error now c =
    option_split
      (λ (x : Coordinator × Bool).
        AckIsSafe d.job.id (handle_started agent worker d outcome error now x))
      (lookup d.job.id c.terminal)
      (λ _.
        if_split (AckIsSafe d.job.id) (stalls d.job (attempt_of d)) (λ _ k. cc)
          (λ _.
            settle-AckIsSafe d.job (attempt_of d) error _
              (report-Replied agent (report_args worker d (attempt_of d) outcome) now _)))
      (λ state h _. inl (state, h))

-- On whatever delivery, outcome of the batch, answer of the agent and error of Send: when a worker
-- deletes the message, the coordinator has a terminal state for the job, or the worker has first
-- sent the job again, under its ID and without an error. So a message is never deleted while its job is still open.
pub handle-acked :
    (agent : Failure → Answer) (worker : String) (d : Delivery) (outcome error : Option String)
    (now : Time) (c : Coordinator)
    → acks (handle agent worker d outcome error now c).1 ≡ true
    → let (c', calls) = handle agent worker d outcome error now c in
      HasEnded c' d.job.id ⊎ IsResent d.job.id calls
handle-acked agent worker d outcome error now c h = handle_safe agent worker d outcome error now c h
