-- ===== src/Dispatch/Sqs/System/Phases.antt =====
-- What each worker may rely on between two of its calls in SQS mode: a reason to delete its message.
use job_scheduler_tooling.Prelude.{
  ◌+◌, ◌<◌, ◌≡◌, inl, inr, refl, String, Bool, true, false, List, [], ◌∷◌, Option, none, some,
  str_eq, eq_iff, if_split, option_split, arith, subst,
}
use job_scheduler_tooling.Prelude.Int.{ℤ}
use job_scheduler_tooling.Prelude.Dict.{lookup}
use job_scheduler_tooling.Queue.{Job, Time}
use job_scheduler_tooling.Triage.{Failure, Decision, Answer, retry, auto_adjust}
use job_scheduler_tooling.Dispatch.Guard.{guarded-IsAdmissible}
use job_scheduler_tooling.SqsQueue.{Delivery}
use job_scheduler_tooling.Dispatch.Sqs.{Coordinator, started, SqsReported, report_begin, log}
use job_scheduler_tooling.Dispatch.Sqs.Ack.{
  HasEnded, Decided, Replied, report_end-Replied, own-HasEnded, maybe_done-HasEnded,
}
use job_scheduler_tooling.Dispatch.Sqs.Worker.{
  QueueCall, ack, release, send, apply_reply, adjusted_job, settle, attempt_of, sqs_failure,
  started_args, report_args,
}
use job_scheduler_tooling.Dispatch.Sqs.System.{
  Message, Service, Phase, idle, received, running, deciding, settling, after_started, after_begin,
  after_end, decide, failed_args, settle_phase, error_text,
}
use job_scheduler_tooling.Dispatch.Sqs.System.Lives.{Lives, Evolves}

-- Of the calls to SQS that send, with success, or delete, the next is a deletion.
abbrev pub deletes_first : List QueueCall → Bool
deletes_first [] = false
deletes_first (ack ∷ calls) = true
deletes_first (release ∷ calls) = deletes_first calls
deletes_first (send j none ∷ calls) = false
deletes_first (send j (some e) ∷ calls) = deletes_first calls

abbrev pub SendsOnly : String → List QueueCall → Type 0
SendsOnly id [] = Unit
SendsOnly id (ack ∷ calls) = SendsOnly id calls
SendsOnly id (release ∷ calls) = SendsOnly id calls
SendsOnly id (send j error ∷ calls) = (j.id ≡ id) × SendsOnly id calls

-- The calls after a report: under the job's ID, and a deletion comes first only where it has ended.
abbrev pub Settles : String → Coordinator × List QueueCall → Type 0
Settles id (c, calls) = SendsOnly id calls × (deletes_first calls ≡ true → HasEnded c id)

resent-Settles :
    (job again : Job) (c : Coordinator) (error : Option String)
    → again.id ≡ job.id
    → Settles job.id (c, send again error ∷ elim error [ none ↦ ack ∷ [] | some _ ↦ [] ])
resent-Settles job again c none same = ((same, tt), λ k. cc)
resent-Settles job again c (some e) same = ((same, tt), λ k. cc)

apply_reply-Settles :
    (job : Job) (attempt : ℤ) (error : Option String) (d : Decision) (c : Coordinator)
    → Decided job.id d c
    → Settles job.id (c, apply_reply job attempt error d)
unfolding apply_reply adjusted_job
apply_reply-Settles job attempt error d c h =
    if_split (λ calls. Settles job.id (c, calls)) (str_eq d.action retry) (λ _. (tt, λ k. cc))
      (λ no_retry.
        if_split (λ calls. Settles job.id (c, calls)) (str_eq d.action auto_adjust)
          (λ _. resent-Settles job (adjusted_job job attempt d) c error refl)
          (λ no_adjust. (
            tt,
            λ k. elim h [
              | inl ended ↦ ended
              | inr (inl r) ↦ absurd (cc ((eq_iff d.action retry).1 r))
              | inr (inr a) ↦ absurd (cc ((eq_iff d.action auto_adjust).1 a))
            ],
          )))

settle-Settles :
    (job : Job) (attempt : ℤ) (error : Option String) (x : Coordinator × Option Decision)
    → Replied job.id x
    → Settles job.id (settle job attempt error x)
unfolding settle
settle-Settles job attempt error (c, none) h = (tt, λ _. h)
settle-Settles job attempt error (c, some d) h = apply_reply-Settles job attempt error d c h

module _ {Q : Type 0} (sqs : Service Q) where
  abbrev pub IsKnown : Q → Message → Delivery → Type 0
  IsKnown q m d = (m.number < sqs.sent q) × (d.job.id ≡ m.id)

  -- A worker that is to delete a message has a reason that lasts.
  abbrev pub PhaseOk : Coordinator → Q → Phase → Type 0
  PhaseOk c q idle = Unit
  PhaseOk c q (received m d) = IsKnown q m d
  PhaseOk c q (running m d) = IsKnown q m d
  PhaseOk c q (deciding m d e) = IsKnown q m d
  PhaseOk c q (settling m calls) =
      (m.number < sqs.sent q)
      × SendsOnly m.id calls
      × (deletes_first calls ≡ true → Lives sqs c q m.id (m.number + 1))

  pub PhaseOk-Evolves :
      (c c' : Coordinator) (q q' : Q) (p : Phase)
      → Evolves sqs c q c' q'
      → PhaseOk c q p
      → PhaseOk c' q' p
  PhaseOk-Evolves c c' q q' idle e h = tt
  PhaseOk-Evolves c c' q q' (received m d) e h = (omega (arith, e.sent, h.0), h.1)
  PhaseOk-Evolves c c' q q' (running m d) e h = (omega (arith, e.sent, h.0), h.1)
  PhaseOk-Evolves c c' q q' (deciding m d err) e h = (omega (arith, e.sent, h.0), h.1)
  PhaseOk-Evolves c c' q q' (settling m calls) e h =
      (omega (arith, e.sent, h.0), h.1, λ k. e.lives m.id (m.number + 1) (h.2 k))

  -- What a call of the coordinator leaves.
  unfoldable pub IsOk : Q → Coordinator × Phase → Type 0
  IsOk q (c, p) = PhaseOk c q p

  running-IsOk :
      (q : Q) (m : Message) (d : Delivery) (c : Coordinator)
      → IsKnown q m d
      → IsOk q (c, running m d)
  unfolding IsOk
  running-IsOk q m d c h = h

  deciding-IsOk :
      (q : Q) (m : Message) (d : Delivery) (e : String) (c : Coordinator)
      → IsKnown q m d
      → IsOk q (c, deciding m d e)
  unfolding IsOk
  deciding-IsOk q m d e c h = h

  calls_settle-IsOk :
      (q : Q) (m : Message) (d : Delivery) (x : Coordinator × List QueueCall)
      → IsKnown q m d
      → Settles d.job.id x
      → IsOk q (settle_phase m x)
  unfolding IsOk
  calls_settle-IsOk q m d (c, calls) known h =
      let (sends, ended) = subst (λ i. Settles i (c, calls)) known.1 h in
      (known.0, sends, λ k. inl (ended k))

  ack-IsOk :
      (q : Q) (m : Message) (d : Delivery) (c : Coordinator)
      → IsKnown q m d
      → HasEnded c d.job.id
      → IsOk q (c, settling m (ack ∷ []))
  ack-IsOk q m d c known h = calls_settle-IsOk q m d (c, ack ∷ []) known (tt, λ _. h)

  pub after_started-IsOk :
      (q : Q) (m : Message) (d : Delivery) (worker : String) (now : Time) (c : Coordinator)
      → IsKnown q m d
      → IsOk q (after_started m d (started (started_args worker d) now c))
  unfolding after_started started log
  after_started-IsOk q m d worker now c h =
      option_split (λ (x : Coordinator × Bool). IsOk q (after_started m d x))
        (lookup d.job.id c.terminal) (λ _. running-IsOk q m d _ h)
        (λ state e. ack-IsOk q m d _ h (state, e))

  pub after_begin-IsOk :
      (q : Q) (m : Message) (d : Delivery) (worker : String) (outcome : Option String) (now : Time)
      (c : Coordinator)
      → IsKnown q m d
      → IsOk q (
          after_begin m d outcome
            (report_begin (report_args worker d (attempt_of d) outcome) now c))
  unfolding after_begin report_begin log
  after_begin-IsOk q m d worker outcome now c h =
      let P : Coordinator × SqsReported → Type 0 = λ x. IsOk q (after_begin m d outcome x) in
      option_split P (lookup d.job.id c.terminal)
        (λ _.
          if_split P (report_args worker d (attempt_of d) outcome).success
            (λ _.
              ack-IsOk q m d _ h
                (maybe_done-HasEnded d.job.id _ ("completed", own-HasEnded d.job.id "completed" c)))
            (λ _. deciding-IsOk q m d (error_text outcome) _ h))
        (λ state e. ack-IsOk q m d _ h (state, e))

  pub after_end-IsOk :
      (q : Q) (m : Message) (d : Delivery) (worker e : String) (agent : Failure → Answer)
      (error : Option String) (now : Time) (c : Coordinator)
      → IsKnown q m d
      → IsOk q (after_end m d error (decide agent (failed_args worker d e) now c))
  unfolding after_end
  after_end-IsOk q m d worker e agent error now c h =
      let args = failed_args worker d e in
      calls_settle-IsOk q m d (settle d.job (attempt_of d) error (decide agent args now c)) h (
        settle-Settles d.job (attempt_of d) error (decide agent args now c) (
          report_end-Replied args now _ c
            (guarded-IsAdmissible (sqs_failure args) (agent (sqs_failure args))).valid))
