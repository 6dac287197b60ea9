-- ===== src/Tests/SqsSystem.antt =====
-- The SQS mode on concrete runs: a worker dies with the only message, another runs out of memory and
-- sends the job again, and in a second run the batch is completed.
use job_scheduler_tooling.Prelude.{
  ℕ, ◌+◌, ◌<◌, ◌==◌, ◌≡◌, ◌⊎◌, inl, inr, refl, Bool, true, false, not, ◌&&◌, ◌||◌, [], ◌∷◌, none,
  some, ltb, str_eq, eq_iff, eq_refl, arith, sym, ap, Bool-cases,
}
use job_scheduler_tooling.Prelude.Int.{pos, add64}
use job_scheduler_tooling.Prelude.Dict.{lookup, insert, erase}
use job_scheduler_tooling.Inference
use job_scheduler_tooling.Triage
use job_scheduler_tooling.Triage.{Failure, Answer, auto_adjust}
use job_scheduler_tooling.Queue.{Job}
use job_scheduler_tooling.SqsQueue.{Delivery}
use job_scheduler_tooling.Dispatch.Guard.{guarded, on_error, on_invalid, on_exhausted}
use job_scheduler_tooling.Dispatch.Sqs.{
  new_coordinator, submit, accept, admitted, close_submissions, started, note_redelivery,
  report_begin, report_end, apply_decision, maybe_done, log, status,
}
use job_scheduler_tooling.Dispatch.Sqs.Worker.{
  ack, send, stalls, settle, apply_reply, adjusted_job, attempt_of, started_args, report_args,
}
use job_scheduler_tooling.Dispatch.Sqs.Ack.{HasEnded}
use job_scheduler_tooling.Dispatch.Sqs.System.{
  Message, Service, System, idle, received, settling, Reach, here, next, submitted, enqueued,
  submissions_end, delivered, began, ran, decided, called, dropped, start, set_phase, after_started,
  after_begin, after_end, perform, put, decide, failed_args,
}
use job_scheduler_tooling.Dispatch.Sqs.System.Kept.{held-stays}
use job_scheduler_tooling.Dispatch.Sqs.System.Known.{IsSubmitted}
use job_scheduler_tooling.Dispatch.Sqs.System.Completion.{done-AllEnded}
use job_scheduler_tooling.Tests.Samples.{job}

-- Queues that keep what they are sent until it is deleted.
pub record Store : Type 0 where
  pub sent : ℕ
  pub kept : Message → Bool

abbrev same : Message → Message → Bool
same a b = (a.number == b.number) && str_eq a.id b.id

same-equal : (a b : Message) → same a b ≡ true → a ≡ b
same-equal a b h =
    let number : a.number ≡ b.number = ground (arith, h) in
    let id : a.id ≡ b.id = ground (arith, h, eq_iff a.id b.id) in
    λ i. record { number = number i; id = id i }

abbrev is_held : Store → Message → Bool
is_held q m = ltb m.number q.sent && q.kept m

abbrev put_message : Job → Store → Store
put_message j q = record {
  sent = q.sent + 1;
  kept = λ m. same m (record { number = q.sent; id = j.id }) || is_held q m;
}

abbrev delete_message : Message → Store → Store
delete_message m q = record q { kept = λ k. not (same k m) && q.kept k }

pub held-sent : (q : Store) (m : Message) → is_held q m ≡ true → m.number < q.sent
held-sent q m h = ground (arith, h)

pub put-adds :
    (j : Job) (q : Store) → is_held (put_message j q) (record { number = q.sent; id = j.id }) ≡ true
put-adds j q = ground (arith, eq_refl j.id)

pub put-keeps :
    (j : Job) (q : Store) (m : Message) → is_held q m ≡ true → is_held (put_message j q) m ≡ true
put-keeps j q m h = ground (arith, h)

pub put-only :
    (j : Job) (q : Store) (m : Message)
    → is_held (put_message j q) m ≡ true
    → (is_held q m ≡ true) ⊎ (m ≡ record { number = q.sent; id = j.id })
put-only j q m h = elim (Bool-cases (same m (record { number = q.sent; id = j.id }))) [
  | inl e ↦ inr (same-equal m _ e)
  | inr e ↦ inl (ground (arith, h, e))
]

pub delete-keeps :
    (m : Message) (q : Store) (k : Message)
    → is_held q k ≡ true
    → (is_held (delete_message m q) k ≡ true) ⊎ (k ≡ m)
delete-keeps m q k h = elim (Bool-cases (same k m)) [
  | inl e ↦ inr (same-equal k m e)
  | inr e ↦ inl (ground (arith, h, e))
]

pub delete-only :
    (m : Message) (q : Store) (k : Message)
    → is_held (delete_message m q) k ≡ true
    → is_held q k ≡ true
delete-only m q k h = ground (arith, h)

abbrev pub store : Service Store
store = record {
  Holds = λ q m. is_held q m ≡ true;
  Changes = λ p q. p ≡ q;
  sent = λ q. q.sent;
  send = put_message;
  delete = delete_message;
  release = λ m q. q;
  Holds-sent = held-sent;
  send-adds = put-adds;
  send-keeps = put-keeps;
  send-only = put-only;
  send-sent = λ j q. refl;
  delete-keeps = delete-keeps;
  delete-only = delete-only;
  delete-sent = λ m q. refl;
  release-keeps = λ m q k h. h;
  release-only = λ m q k h. h;
  release-sent = λ m q. refl;
  change-keeps = λ p q m e h. rw (sym e) h;
  change-only = λ p q m e h. rw e h;
  change-sent = λ p q e. ap (λ (s : Store). s.sent) (sym e);
}

abbrev pub no_message : Store
no_message = record { sent = 0; kept = λ _. false }

pub none_held : (m : Message) → ¬ (store.Holds no_message m)
none_held m h = ground (arith, h)

abbrev only : Job
only = job "inference-000" 3 1

abbrev pub first : Message
first = record { number = 0; id = "inference-000" }

abbrev second : Message
second = record { number = 1; id = "inference-000" }

abbrev pub delivery : Delivery
delivery = record { job = only; tier = pos 3; receive_count = pos 1; message_id = "m-1" }

abbrev again : Delivery
again = record { job = only; tier = pos 3; receive_count = pos 2; message_id = "m-1" }

abbrev halves : Failure → Answer
halves f = Answer.ok (record {
  action = auto_adjust;
  reason = "out of memory";
  batch_size = pos 8;
  precision = "fp16";
  source = "policy";
})

-- The job is submitted and sent.
abbrev accepted : System Store
accepted =
    let s = start none no_message in record s { coordinator = (submit 1 only none s.coordinator).0 }

abbrev sent : System Store
sent = record accepted { queues = store.send only accepted.queues }

to_sent : Reach store (start none no_message) sent
unfolding start new_coordinator submit Inference.validate accept admitted log lookup insert
to_sent = next (next here (submitted 1 only none refl)) (enqueued only refl refl)

-- A worker receives it and dies.
abbrev taken : System Store
taken = record sent { workers = set_phase "worker-01" (received first delivery) sent.workers }

abbrev died : System Store
died = record taken { workers = set_phase "worker-01" idle taken.workers }

to_died : Reach store sent died
unfolding start
to_died =
    next (next here (delivered "worker-01" first delivery refl refl refl refl))
      (dropped "worker-01" refl)

-- Another gets it, and its run fails.
abbrev started_again : System Store
started_again =
    put "worker-02"
      (after_started first again (started (started_args "worker-02" again) 5 died.coordinator))
      (record died { workers = set_phase "worker-02" (received first again) died.workers })

abbrev failing : System Store
failing =
    put "worker-02"
      (after_begin first again (some "out of memory") (
        report_begin (report_args "worker-02" again (attempt_of again) (some "out of memory")) 6
          started_again.coordinator))
      started_again

abbrev answered : System Store
answered =
    put "worker-02"
      (after_end first again none
        (decide halves (failed_args "worker-02" again "out of memory") 7 failing.coordinator))
      failing

abbrev halved : Job
halved = record only {
  inference = record only.inference { batch_size = pos 8; precision = "fp16" };
  attempt = pos 2;
}

abbrev resent : System Store
resent = record answered {
  queues = store.send halved answered.queues;
  workers = set_phase "worker-02" (settling first (ack ∷ [])) answered.workers;
}

abbrev settled : System Store
settled = record resent {
  queues = store.delete first resent.queues;
  workers = set_phase "worker-02" (settling first []) resent.workers;
}

to_answered : Reach store sent answered
unfolding start new_coordinator submit Inference.validate accept admitted log lookup insert erase
    started after_started note_redelivery stalls add64 after_begin report_begin
to_answered =
    next
      (next
        (next (next to_died (delivered "worker-02" first again refl refl refl refl))
          (began "worker-02" first again 5 refl refl))
        (ran "worker-02" first again (some "out of memory") 6 refl refl refl))
      (decided "worker-02" first again "out of memory" halves none 7 refl refl)

to_settled : Reach store sent settled
unfolding start new_coordinator submit Inference.validate accept admitted log lookup insert erase
    started after_started note_redelivery stalls add64 after_begin report_begin after_end report_end
    guarded on_error on_invalid on_exhausted Triage.validate apply_decision maybe_done settle
    apply_reply adjusted_job perform Triage.adjust
to_settled =
    next (next to_answered (called "worker-02" first (send halved none) (ack ∷ []) refl refl))
      (called "worker-02" first ack [] refl refl)

held-stays_example :
    HasEnded settled.coordinator "inference-000"
    ⊎ ((k : Message) × store.Holds settled.queues k × (k.id ≡ "inference-000"))
unfolding start
held-stays_example = held-stays store none no_message sent settled first to_sent to_settled refl

-- In the second run submissions end, and the worker completes the batch.
abbrev closed : System Store
closed = record sent { coordinator = close_submissions sent.coordinator }

abbrev with_batch : System Store
with_batch =
    put "worker-01"
      (after_started first delivery
        (started (started_args "worker-01" delivery) 3 closed.coordinator))
      (record closed { workers = set_phase "worker-01" (received first delivery) closed.workers })

abbrev finished : System Store
finished =
    put "worker-01"
      (after_begin first delivery none (
        report_begin (report_args "worker-01" delivery (attempt_of delivery) none) 4
          with_batch.coordinator))
      with_batch

to_finished : Reach store (start none no_message) finished
unfolding start new_coordinator submit Inference.validate accept admitted log lookup insert erase
    started after_started note_redelivery stalls add64 after_begin report_begin close_submissions
    maybe_done
to_finished =
    next
      (next
        (next (next to_sent (submissions_end refl))
          (delivered "worker-01" first delivery refl refl refl refl))
        (began "worker-01" first delivery 3 refl refl))
      (ran "worker-01" first delivery none 4 refl refl refl)

finished-is_done : status finished.coordinator ≡ true
unfolding start new_coordinator submit Inference.validate accept admitted log lookup insert erase
    started after_started note_redelivery stalls add64 after_begin report_begin close_submissions
    maybe_done status
finished-is_done = refl

done-AllEnded_example :
    (IsSubmitted finished.coordinator "inference-000"
      → HasEnded finished.coordinator "inference-000")
    × (HasEnded finished.coordinator "inference-000"
        → IsSubmitted finished.coordinator "inference-000")
done-AllEnded_example =
    done-AllEnded store none no_message finished none_held to_finished finished-is_done
      "inference-000"
