-- ===== src/Dispatch/Broker/Submit.antt =====
-- Submit and CloseSubmissions keep the invariant.
use job_scheduler_tooling.Prelude.{
  ◌+◌, ◌≤◌, ◌≡◌, refl, String, true, false, List, [], Option-cases, Option, none, some, arith,
  str_eq, eq_iff, Bool-cases, inl, inr,
}
use job_scheduler_tooling.Prelude.Partial.{Yields, yields, Yields-then, Yields-branch}
use job_scheduler_tooling.Inference
use job_scheduler_tooling.Queue
use job_scheduler_tooling.Queue.{Job, Time}
use job_scheduler_tooling.Queue.Push.{Pushed, push-Pushed, new-IsValid}
use job_scheduler_tooling.Telemetry.{Recorder}
use job_scheduler_tooling.Dispatch.Broker.{
  Broker, SubmitError, invalid_batch, submissions_closed, log, admitted, new_broker, enqueue,
  submit, close_submissions,
}
use job_scheduler_tooling.Dispatch.Broker.Weight.{total, has_id}
use job_scheduler_tooling.Dispatch.Broker.Invariant.{weight, Inv, maybe_done-Inv, Pushed-total}

-- A new ID joins the others without a second copy of any.
pub fresh_once :
    (j : Job) (b : Broker) (t : List Job)
    → ((k : String) → weight (has_id k) b t ≤ 1)
    → weight (has_id j.id) b t ≡ 0
    → (k : String) → has_id k j + weight (has_id k) b t ≤ 1
fresh_once j b t once fresh k = elim (Bool-cases (str_eq j.id k)) [
  | inl same ↦ let e : j.id ≡ k = (eq_iff _ _).0 same in rw same (omega (arith, rw e at fresh))
  | inr other ↦ rw other (omega (arith, once k))
]

-- A new broker satisfies the invariant.
pub new_broker-Inv : (r : Recorder) → Inv (new_broker r) []
unfolding new_broker total Queue.new
new_broker-Inv r = record {
  core = record {
    valid = new-IsValid;
    keyed = tt;
    once = λ k. omega arith;
    balance = refl;
    done_ok = λ e. cc;
  };
  done_all = λ e. cc;
}

-- One job more in the queue, and the invariant.
abbrev pub Enqueued : Time → Job → Broker → List Job → Broker → Type 0
Enqueued now job b t b' =
    Inv b' t
    × (b'.stats.submitted ≡ b.stats.submitted + 1)
    × Pushed b.queue (admitted now job) b'.queue
    × (b'.running ≡ b.running)

enqueue-Inv :
    (now : Time) (job : Job) (b : Broker) (t : List Job)
    → Inv b t
    → b.closed ≡ false
    → weight (has_id job.id) b t ≡ 0
    → Yields (Enqueued now job b t) (enqueue now job b)
unfolding enqueue log admitted
enqueue-Inv now job b t v open_now fresh =
    Yields-then (push-Pushed b.queue (admitted now job) v.core.valid) λ q p. yields (
      record {
        core = record {
          valid = p.valid;
          keyed = v.core.keyed;
          once = λ k. omega (
            arith,
            fresh_once job b t v.core.once fresh k,
            Pushed-total (has_id k) (λ _. refl) p,
          );
          balance = omega (arith, p.size, v.core.balance);
          done_ok = λ e. cc (open_now, (v.core.done_ok e).0);
        };
        done_all = λ e. cc;
      },
      refl,
      p,
      refl,
    )

-- The three ways out of Submit, each with its condition.
abbrev pub SubmitResult : Time → Job → Broker → List Job → Broker × Option SubmitError → Type 0
SubmitResult now job b t (b', some (invalid_batch e)) =
    (b' ≡ b) × (Inference.validate job.inference ≡ some e)
SubmitResult now job b t (b', some submissions_closed) =
    (b' ≡ b) × (Inference.validate job.inference ≡ none) × (b.closed ≡ true)
SubmitResult now job b t (b', none) =
    Enqueued now job b t b' × (Inference.validate job.inference ≡ none) × (b.closed ≡ false)

-- Submit of a job with a new ID never panics. It refuses an invalid batch, and any batch once
-- submissions are closed, and then leaves the broker as it was; otherwise the job is counted and
-- the invariant is kept.
pub submit-SubmitResult :
    (now : Time) (job : Job) (b : Broker) (t : List Job)
    → Inv b t
    → weight (has_id job.id) b t ≡ 0
    → Yields (SubmitResult now job b t) (submit now job b)
unfolding submit
submit-SubmitResult now job b t v fresh = elim (Option-cases (Inference.validate job.inference)) [
  | inr (e, bad) ↦ rw (bad, submit) (yields (refl, bad))
  | inl good ↦
      rw (good, submit)
        (Yields-branch b.closed (λ shut. yields (refl, good, shut))
          (λ open_now.
            Yields-then (enqueue-Inv now job b t v open_now fresh)
              (λ b' r. yields (r, good, open_now))))
]

-- CloseSubmissions keeps the invariant.
pub close_submissions-Inv : (b : Broker) (t : List Job) → Inv b t → Inv (close_submissions b) t
unfolding close_submissions
close_submissions-Inv b t v =
    maybe_done-Inv (record b { closed = true }) t
      (record {
        valid = v.core.valid;
        keyed = v.core.keyed;
        once = v.core.once;
        balance = v.core.balance;
        done_ok = λ e. (refl, (v.core.done_ok e).1);
      })
