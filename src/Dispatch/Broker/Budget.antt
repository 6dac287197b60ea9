-- ===== src/Dispatch/Broker/Budget.antt =====
-- The retry budget of a run of the broker (internal/dispatch/broker.go): the claims of all its
-- steps, and the attempts granted.
use job_scheduler_tooling.Prelude.{
  ℕ, ◌+◌, ◌≤◌, ◌≡◌, refl, sym, ◌∙◌, ◌≢◌, eq_iff, String, List, [], ◌∷◌, ◌++◌, none, some, arith,
}
use job_scheduler_tooling.Prelude.Int.{pos_part}
use job_scheduler_tooling.Telemetry.{Recorder}
use job_scheduler_tooling.Queue
use job_scheduler_tooling.Queue.{Job, Time}
use job_scheduler_tooling.Queue.Push.{Pushed}
use job_scheduler_tooling.Triage.{Decision, Answer, retry, auto_adjust, escalate}
use job_scheduler_tooling.Dispatch.Guard.{guarded, guarded-IsAdmissible}
use job_scheduler_tooling.Dispatch.Broker.{
  close_submissions, Broker, admitted, ClaimReply, Reported, not_assigned, finished, failed,
  ReportArgs, new_broker, failure_of,
}
use job_scheduler_tooling.Dispatch.Broker.Weight.{total, total-append, total-erase}
use job_scheduler_tooling.Dispatch.Broker.Invariant.{
  Inv, maybe_done-queue, maybe_done-running, Pushed-total,
}
use job_scheduler_tooling.Dispatch.Broker.Submit.{new_broker-Inv, submit-SubmitResult}
use job_scheduler_tooling.Dispatch.Broker.Claim.{ClaimResult, claim-ClaimResult}
use job_scheduler_tooling.Dispatch.Broker.Report.{
  with_agent, BeginResult, report_begin-BeginResult, Settled, retried, adjusted, escalated,
  report_end-Settled,
}
use job_scheduler_tooling.Dispatch.Broker.Runs.{
  Step, submitted, submissions_end, report_began, report_ended, Reach, here, next, value_of,
  Inv-front, Reach-Inv,
}
use job_scheduler_tooling.Dispatch.Broker.Runs
use job_scheduler_tooling.Dispatch.Broker.Attempts.{
  attempts_left, exhausted, unrepresented, potential, IsFunded, Paid, same-Paid, submit-Paid,
  Assigned-Paid,
}

-- The attempts that a step hands out, and those that it grants.
pub claims_of : {b b' : Broker} {t t' : List Job} → Step b t b' t' → ℕ
claims_of (submitted now job e _ _ _ _ _) = 0
claims_of (submissions_end _ _) = 0
claims_of (Runs.Step.claimed worker now r _ _) = elim r.job [ none ↦ 0 | some _ ↦ 1 ]
claims_of (report_began args now r _ _) = 0
claims_of (report_ended args now before job after answer _ _ _) = 0

pub granted_by : {b b' : Broker} {t t' : List Job} → Step b t b' t' → ℕ
granted_by (submitted now job e _ _ _ _ _) = elim e [
  | none ↦ pos_part (admitted now job).max_attempts
  | some _ ↦ 0
]
granted_by (submissions_end _ _) = 0
granted_by (Runs.Step.claimed worker now r _ _) = 0
granted_by (report_began args now r _ _) = 0
granted_by (report_ended args now before job after answer _ _ _) = 0

close-Paid : (b : Broker) (t : List Job) → IsFunded b t → Paid b t (close_submissions b) t 0 0
unfolding close_submissions
close-Paid b t f = same-Paid b _ t f (maybe_done-queue _) (maybe_done-running _)

retry-ne-escalate : ◌≢◌ {A = String} retry escalate
retry-ne-escalate = ground (arith, eq_iff retry escalate)

adjust-ne-escalate : ◌≢◌ {A = String} auto_adjust escalate
adjust-ne-escalate = ground (arith, eq_iff auto_adjust escalate)

pub claim-Paid :
    (worker : String) (now : Time) (b : Broker) (t : List Job) (b' : Broker) (r : ClaimReply)
    → IsFunded b t
    → ClaimResult worker now b t (b', r)
    → Paid b t b' t (elim r.job [ none ↦ 0 | some _ ↦ 1 ]) 0
claim-Paid worker now b t b' r f h =
    (elim r.job
        as (λ o.
          ClaimResult worker now b t (b', record r { job = o })
          → Paid b t b' t (elim o [ none ↦ 0 | some _ ↦ 1 ]) 0) [
            | none ↦ λ (_, _, _, _, q, m). same-Paid b b' t f q m
            | some job ↦ λ (_, _, a). Assigned-Paid worker now b t b' job f a
          ])
      h

pub begin-Paid :
    (args : ReportArgs) (b : Broker) (t : List Job) (b' : Broker) (r : Reported)
    → IsFunded b t
    → BeginResult args b t (b', r)
    → Paid b t b' (with_agent t r) 0 0
unfolding potential total
begin-Paid args b t b' not_assigned f (same, _) = rw same (same-Paid b b t f refl refl)
begin-Paid args b t b' finished f (_, _, _, ((job, held), q, m)) = record {
  funded = record {
    represented =
        rw (q, m) (omega (arith, f.represented, total-erase unrepresented _ job b.running held));
    ready = rw q f.ready;
  };
  pays = rw (q, m) (omega (arith, total-erase attempts_left _ job b.running held));
}
begin-Paid args b t b' (failed job) f (_, _, held, (_, q, m)) = record {
  funded = record {
    represented =
        rw (q, m) (omega (arith, f.represented, total-erase unrepresented _ job b.running held));
    ready = rw q f.ready;
  };
  pays = rw (q, m) (omega (arith, total-erase attempts_left _ job b.running held));
}

-- A job that the guarded decision does not escalate has an attempt left.
left_over :
    (job : Job) (answer : Answer)
    → (guarded job.attempt job.max_attempts answer).action ≢ escalate
    → exhausted job ≡ 0
left_over job answer other =
    let ok = guarded-IsAdmissible (failure_of job "") answer in ground (arith, ok.budget, other)

module _ (job : Job) (answer : Answer) (b : Broker) (before after : List Job) (b' : Broker)
    (f : IsFunded b (before ++ job ∷ after)) (same : b'.running ≡ b.running) where
  abbrev d : Decision
  d = guarded job.attempt job.max_attempts answer

  queued_again-Paid :
      (j : Job)
      → Pushed b.queue j b'.queue
      → exhausted j ≡ 0
      → unrepresented j ≡ unrepresented job
      → attempts_left j ≡ attempts_left job
      → Paid b (before ++ job ∷ after) b' (before ++ after) 0 0
  unfolding potential total
  queued_again-Paid j p ready fit left = record {
    funded = record {
      represented = rw same (
          omega (
            arith,
            f.represented,
            fit,
            Pushed-total unrepresented (λ _. refl) p,
            total-append unrepresented before (job ∷ after),
            total-append unrepresented before after,
          ));
      ready = omega (arith, f.ready, ready, Pushed-total exhausted (λ _. refl) p);
    };
    pays = rw same (
        omega (
          arith,
          left,
          Pushed-total attempts_left (λ _. refl) p,
          total-append attempts_left before (job ∷ after),
          total-append attempts_left before after,
        ));
  }

  pub end-Paid : Settled job d b b' → Paid b (before ++ job ∷ after) b' (before ++ after) 0 0
  unfolding potential total
  end-Paid (retried a p _) =
      queued_again-Paid _ p (left_over job answer (λ e. retry-ne-escalate (sym a ∙ e))) refl refl
  end-Paid (adjusted a p _) =
      queued_again-Paid _ p (left_over job answer (λ e. adjust-ne-escalate (sym a ∙ e))) refl refl
  end-Paid (escalated a q _) = record {
    funded = record {
      represented =
          rw (q, same)
            (omega (
              arith,
              f.represented,
              total-append unrepresented before (job ∷ after),
              total-append unrepresented before after,
            ));
      ready = rw q f.ready;
    };
    pays =
        rw (q, same)
          (omega (
            arith,
            total-append attempts_left before (job ∷ after),
            total-append attempts_left before after,
          ));
  }

Step-Paid :
    {b b' : Broker} {t t' : List Job} (s : Step b t b' t')
    → Inv b t
    → IsFunded b t
    → Paid b t b' t' (claims_of s) (granted_by s)
unfolding claims_of granted_by
Step-Paid {b} {b'} {t} (submitted now job e fresh z i run same) v f = rw same (
    submit-Paid now job b t b' e f z i (value_of _ _ (submit-SubmitResult now job b t v fresh) run))
Step-Paid {b} {b'} {t} (submissions_end e same) v f = rw (e, same) (close-Paid b t f)
Step-Paid {b} {b'} {t} (Runs.Step.claimed worker now r run same) v f =
    rw same
      (claim-Paid worker now b t b' r f (value_of _ _ (claim-ClaimResult worker now b t v) run))
Step-Paid {b} {b'} {t} (report_began args now r run same) v f =
    rw same (begin-Paid args b t b' r f (rw run at (report_begin-BeginResult args now b t v)))
Step-Paid {b} {b'} {t} (report_ended args now before job after answer e run same) v f =
    let ok = guarded-IsAdmissible (failure_of job "") answer in
    let w = Inv-front b before after job (rw e at v) in
    let s = value_of _ _ (report_end-Settled args now job _ b (before ++ after) w ok.valid) run in
    rw (e, same) (end-Paid job answer b before after b' (rw e at f) s.2 s.1)

-- The attempts that a run hands out, and those that it grants.
pub claims : {b : Broker} {t : List Job} {b' : Broker} {t' : List Job} → Reach b t b' t' → ℕ
claims here = 0
claims (next r s) = claims r + claims_of s

pub granted : {b : Broker} {t : List Job} {b' : Broker} {t' : List Job} → Reach b t b' t' → ℕ
granted here = 0
granted (next r s) = granted r + granted_by s

pub Reach-Paid :
    {b : Broker} {t : List Job} {b' : Broker} {t' : List Job} (r : Reach b t b' t')
    → Inv b t
    → IsFunded b t
    → Paid b t b' t' (claims r) (granted r)
unfolding claims granted
Reach-Paid here v f = record { funded = f; pays = omega arith }
Reach-Paid (next r s) v f =
    let before = Reach-Paid r v f in
    let last = Step-Paid s (Reach-Inv v r) before.funded in
    record { funded = last.funded; pays = omega (arith, before.pays, last.pays) }

pub new_broker-IsFunded : (rec : Recorder) → IsFunded (new_broker rec) []
unfolding new_broker total Queue.new
new_broker-IsFunded rec = record { represented = omega arith; ready = refl }

-- In every run of a new broker in which every job is submitted not yet attempted and under an ID that
-- no job at work has, the claims that handed out a job, together with the attempts that are left to
-- the jobs at work, are no more than the attempts granted to the jobs submitted. So no sequence of
-- failures, reports and triage decisions makes the workers run jobs for ever.
pub claims-le-granted :
    (rec : Recorder) (b : Broker) (t : List Job) (r : Reach (new_broker rec) [] b t)
    → potential b t + claims r ≤ granted r
unfolding new_broker potential total Queue.new
claims-le-granted rec b t r =
    omega (arith, (Reach-Paid r (new_broker-Inv rec) (new_broker-IsFunded rec)).pays)
