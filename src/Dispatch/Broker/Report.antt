-- ===== src/Dispatch/Broker/Report.antt =====
-- The two parts of Report keep the invariant, and what becomes of the job.
use job_scheduler_tooling.Prelude.{
  ℕ, ◌+◌, ◌≡◌, refl, true, false, List, ◌∷◌, Option, none, some, arith, Option-cases, inl, inr,
  str_eq, eq_iff, if_split, ap, ◌∙◌,
}
use job_scheduler_tooling.Prelude.Dict.{lookup, erase, length-erase}
use job_scheduler_tooling.Prelude.Partial.{Yields, yields, Yields-then, Yields-branch}
use job_scheduler_tooling.Queue.{Queue, Job, Time}
use job_scheduler_tooling.Queue.Push.{Pushed, push-Pushed}
use job_scheduler_tooling.Triage.{
  Decision, Answer, Failure, retry, auto_adjust, escalate, validate, adjust,
}
use job_scheduler_tooling.Triage.Agents.{IsAdmissible}
use job_scheduler_tooling.Telemetry.{Recorder, Event}
use job_scheduler_tooling.Dispatch.Guard.{guarded-IsAdmissible}
use job_scheduler_tooling.Dispatch.Broker.{
  Broker, Stats, ReportArgs, Reported, not_assigned, finished, failed, log, report_found,
  report_begin, failure_of, requeued, apply_decision, report_end, report_rest, report, maybe_done,
}
use job_scheduler_tooling.Dispatch.Broker.Weight.{total, has_id, total-erase, erase-IsKeyed}
use job_scheduler_tooling.Dispatch.Broker.Invariant.{
  Core, Inv, maybe_done-Inv, maybe_done-stats, maybe_done-queue, maybe_done-running, log-Inv,
  Pushed-total,
}

-- The jobs with the agent after the first part of Report.
abbrev pub with_agent : List Job → Reported → List Job
with_agent t (failed job) = job ∷ t
with_agent t not_assigned = t
with_agent t finished = t

-- The job that was running under the ID is not any more.
abbrev pub Dropped : ReportArgs → Broker → Broker → Type 0
Dropped args b b' =
    ((job : Job) × (lookup args.job_id b.running ≡ some job))
    × (b'.queue ≡ b.queue)
    × (b'.running ≡ erase args.job_id b.running)

-- The three ways out of the first part: no such job is running, and nothing has changed; the job
-- has succeeded; it has failed, and goes to the agent.
abbrev pub BeginResult : ReportArgs → Broker → List Job → Broker × Reported → Type 0
BeginResult args b t (b', not_assigned) = (b' ≡ b) × (lookup args.job_id b.running ≡ none)
BeginResult args b t (b', finished) =
    Inv b' t
    × (args.success ≡ true)
    × (b'.stats.succeeded ≡ b.stats.succeeded + 1)
    × Dropped args b b'
BeginResult args b t (b', failed job) =
    Inv b' (job ∷ t)
    × (args.success ≡ false)
    × (lookup args.job_id b.running ≡ some job)
    × Dropped args b b'

module _ (args : ReportArgs) (now : Time) (b : Broker) (t : List Job) (v : Inv b t) where
  report_found-BeginResult :
      (job : Job)
      → lookup args.job_id b.running ≡ some job
      → BeginResult args b t (report_found args now b job)
  unfolding report_found log total
  report_found-BeginResult job here =
      if_split (BeginResult args b t) args.success
        (λ good. (
          maybe_done-Inv _ t (record {
            valid = v.core.valid;
            keyed = erase-IsKeyed _ _ v.core.keyed;
            once = λ k. omega (arith, v.core.once k, total-erase (has_id k) _ job b.running here);
            balance = omega (arith, v.core.balance, length-erase args.job_id job b.running here);
            done_ok = λ e. absurd (
                omega (
                  arith,
                  (v.core.done_ok e).1,
                  v.core.balance,
                  length-erase args.job_id job b.running here,
                ));
          }),
          good,
          ap (λ (s : Stats). s.succeeded) (maybe_done-stats _),
          ((job, here), maybe_done-queue _, maybe_done-running _),
        ))
        (λ bad. (
          record {
            core = record {
              valid = v.core.valid;
              keyed = erase-IsKeyed _ _ v.core.keyed;
              once = λ k. omega (arith, v.core.once k, total-erase (has_id k) _ job b.running here);
              balance = omega (arith, v.core.balance, length-erase args.job_id job b.running here);
              done_ok = v.core.done_ok;
            };
            done_all = λ closed idle. absurd (omega (arith, idle.triaging));
          },
          bad,
          here,
          ((job, here), refl, refl),
        ))

  -- The first part of Report keeps the invariant, with a failed job counted as with the agent; a
  -- report on a job that is not running changes nothing.
  pub report_begin-BeginResult : BeginResult args b t (report_begin args now b)
  unfolding report_begin
  report_begin-BeginResult = elim (Option-cases (lookup args.job_id b.running)) [
    | inl none_here ↦ rw (none_here, report_begin) (refl, none_here)
    | inr (job, here) ↦ rw (here, report_begin) (report_found-BeginResult job here)
  ]

-- A decision that passes Validate names one of the three actions.
valid_action :
    (d : Decision)
    → validate d ≡ none
    → str_eq d.action retry ≡ false
    → str_eq d.action auto_adjust ≡ false
    → str_eq d.action escalate ≡ true
unfolding validate
valid_action d h r a = ground arith

-- What the second part of Report does with the job: it is in the queue again, pending and without
-- its injected failure, at its old size or at the decision's; or it is escalated, and only then.
pub data Settled (job : Job) (d : Decision) (b b' : Broker) : Type 0 where
  retried :
      d.action ≡ retry
      → Pushed b.queue (requeued job) b'.queue
      → b'.stats ≡ record b.stats { retried = b.stats.retried + 1 }
      → Settled job d b b'
  adjusted :
      d.action ≡ auto_adjust
      → Pushed b.queue (record (requeued job) { inference = adjust job.inference d }) b'.queue
      → b'.stats ≡ record b.stats { adjusted = b.stats.adjusted + 1 }
      → Settled job d b b'
  escalated :
      d.action ≡ escalate
      → b'.queue ≡ b.queue
      → b'.stats ≡ record b.stats { escalated = b.stats.escalated + 1 }
      → Settled job d b b'

module _ (now : Time) (job : Job) (d : Decision) (b : Broker) (t : List Job)
    (v : Inv b (job ∷ t)) where
  Pushed-Core :
      (j : Job) (q : Queue) (rec : Recorder) (r a : ℕ)
      → Pushed b.queue j q
      → j.id ≡ job.id
      → Core
          (record b {
            queue = q;
            recorder = rec;
            stats = record b.stats { retried = r; adjusted = a };
          })
          t
  unfolding total
  Pushed-Core j q rec r a p same = record {
    valid = p.valid;
    keyed = v.core.keyed;
    once = λ k. ground (arith, v.core.once k, Pushed-total (has_id k) (λ _. refl) p);
    balance = omega (arith, v.core.balance, p.size);
    done_ok = v.core.done_ok;
  }

  apply_decision-Settled :
      validate d ≡ none
      → Yields
          (λ b'. Core b' t × Settled job d b b' × (b'.running ≡ b.running))
          (apply_decision d now job b)
  unfolding apply_decision log total
  apply_decision-Settled valid =
      Yields-branch (str_eq d.action retry)
        (λ is_retry. Yields-then (push-Pushed b.queue (requeued job) v.core.valid) λ q p.
          yields (Pushed-Core _ q _ _ _ p refl, retried ((eq_iff _ _).0 is_retry) p refl, refl))
        (λ no_retry.
          Yields-branch (str_eq d.action auto_adjust)
            (λ is_adjust.
              Yields-then
                (push-Pushed b.queue (record (requeued job) { inference = adjust job.inference d })
                  v.core.valid)
                λ q p.
                  yields (
                    Pushed-Core _ q _ _ _ p refl,
                    adjusted ((eq_iff _ _).0 is_adjust) p refl,
                    refl,
                  ))
            (λ no_adjust.
              Yields-branch (str_eq d.action escalate)
                (λ is_escalate. yields (
                  record {
                    valid = v.core.valid;
                    keyed = v.core.keyed;
                    once = λ k. omega (arith, v.core.once k);
                    balance = omega (arith, v.core.balance);
                    done_ok = λ e. absurd (omega (arith, (v.core.done_ok e).1, v.core.balance));
                  },
                  escalated ((eq_iff _ _).0 is_escalate) refl refl,
                  refl,
                ))
                (λ no_escalate. cc (valid_action d valid no_retry no_adjust))))

Settled-maybe_done :
    {job : Job} {d : Decision} {b b' : Broker}
    → Settled job d b b'
    → Settled job d b (maybe_done b')
Settled-maybe_done (retried a p s) = retried a (rw (maybe_done-queue _) p) (maybe_done-stats _ ∙ s)
Settled-maybe_done (adjusted a p s) =
    adjusted a (rw (maybe_done-queue _) p) (maybe_done-stats _ ∙ s)
Settled-maybe_done (escalated a q s) = escalated a (maybe_done-queue _ ∙ q) (maybe_done-stats _ ∙ s)

Settled-log :
    (job : Job) (d : Decision) (b b' : Broker) (e : Event)
    → Settled job d (log b e) b'
    → Settled job d b b'
unfolding log
Settled-log job d b b' e (retried a p s) = retried a p s
Settled-log job d b b' e (adjusted a p s) = adjusted a p s
Settled-log job d b b' e (escalated a q s) = escalated a q s

log-running : (b : Broker) (e : Event) → (log b e).running ≡ b.running
unfolding log
log-running b e = refl

-- The second part of Report never panics. With a decision that passes Validate it settles the job
-- as the decision says: queued again, or escalated, with one counter moved; the invariant is kept,
-- the job no longer being with the agent.
pub report_end-Settled :
    (args : ReportArgs) (now : Time) (job : Job) (d : Decision) (b : Broker) (t : List Job)
    → Inv b (job ∷ t)
    → validate d ≡ none
    → Yields
        (λ b'. Inv b' t × Settled job d b b' × (b'.running ≡ b.running))
        (report_end args now job d b)
unfolding report_end
report_end-Settled args now job d b t v valid =
    Yields-then (apply_decision-Settled now job d _ t (log-Inv b (job ∷ t) _ v) valid)
      λ b' (c, s, r). yields (
        maybe_done-Inv b' t c,
        Settled-maybe_done (Settled-log job d b b' _ s),
        maybe_done-running b' ∙ (r ∙ log-running b _),
      )

-- What the whole of Report returns: the invariant, with no job left with the agent, and for a
-- failed job the decision it settled it by, which passes Validate and keeps to the budget.
abbrev pub ReportResult :
    ReportArgs → Broker → List Job → Broker × Reported × Option Decision → Type 0
ReportResult args b t (b', failed job, some d) =
    Inv b' t
    × (lookup args.job_id b.running ≡ some job)
    × IsAdmissible (failure_of job args.error) d
ReportResult args b t (b', failed job, none) = ⊥
ReportResult args b t (b', not_assigned, d) = b' ≡ b
ReportResult args b t (b', finished, d) = Inv b' t

-- Report with any agent, also one that errs or decides wrongly, never panics and keeps the
-- invariant; the decision on a failed job passes Validate and escalates a job out of attempts.
pub report-ReportResult :
    (agent : Failure → Answer) (args : ReportArgs) (now later : Time) (b : Broker) (t : List Job)
    → Inv b t
    → Yields (ReportResult args b t) (report agent args now later b)
unfolding report
report-ReportResult agent args now later b t v =
    rest (report_begin args now b) (report_begin-BeginResult args now b t v)
  where
    rest :
        (r : Broker × Reported)
        → BeginResult args b t r
        → Yields (ReportResult args b t) (report_rest agent args later r)
    rest (b', not_assigned) (same, _) = yields same
    rest (b', finished) (w, _, _, _) = yields w
    rest (b', failed job) (w, _, here, _) =
        let ok =
          guarded-IsAdmissible (failure_of job args.error) (agent (failure_of job args.error)) in
        Yields-then (report_end-Settled args later job _ b' t w ok.valid)
          λ b'' (u, s, r). yields (u, here, ok)
