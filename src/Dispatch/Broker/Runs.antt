-- ===== src/Dispatch/Broker/Runs.antt =====
-- The broker under any interleaving of calls. Each step is one critical section; a Report whose
-- agent is deciding holds its job between its two steps.
use job_scheduler_tooling.Prelude.{
  ◌≡◌, subst, ◌↔◌, String, true, List, [], ◌∷◌, ◌++◌, Option, none, some, arith, length-append,
}
use job_scheduler_tooling.Prelude.Int.{pos, IsInt64}
use job_scheduler_tooling.Prelude.Partial.{Yields, Yields-value}
use job_scheduler_tooling.Queue.{Job, Time}
use job_scheduler_tooling.Triage.{Answer}
use job_scheduler_tooling.Telemetry.{Recorder}
use job_scheduler_tooling.Dispatch.Guard.{guarded, guarded-IsAdmissible}
use job_scheduler_tooling.Dispatch.Broker.{
  Broker, SubmitError, invalid_batch, submissions_closed, ClaimReply, ReportArgs, Reported,
  not_assigned, finished, failed, new_broker, submit, close_submissions, claim, report_begin,
  report_end, failure_of,
}
use job_scheduler_tooling.Dispatch.Broker.Weight.{total, total-append, has_id}
use job_scheduler_tooling.Dispatch.Broker.Invariant.{weight, Inv, IsIdle}
use job_scheduler_tooling.Dispatch.Broker.Submit.{
  new_broker-Inv, SubmitResult, submit-SubmitResult, close_submissions-Inv,
}
use job_scheduler_tooling.Dispatch.Broker.Claim.{ClaimResult, claim-ClaimResult}
use job_scheduler_tooling.Dispatch.Broker.Report.{
  with_agent, BeginResult, report_begin-BeginResult, report_end-Settled,
}

-- The agent may answer anything. Callers submit jobs under IDs that no job at work has, and not yet
-- attempted: Submit does not test either, and the dispatcher numbers its jobs.
pub data Step (b : Broker) (t : List Job) (b' : Broker) (t' : List Job) : Type 0 where
  submitted :
      (now : Time) (job : Job) (e : Option SubmitError)
      → weight (has_id job.id) b t ≡ 0
      → job.attempt ≡ pos 0
      → IsInt64 job.max_attempts
      → submit now job b ≡ some (b', e)
      → t' ≡ t
      → Step b t b' t'
  submissions_end : b' ≡ close_submissions b → t' ≡ t → Step b t b' t'
  claimed :
      (worker : String) (now : Time) (r : ClaimReply)
      → claim worker now b ≡ some (b', r)
      → t' ≡ t
      → Step b t b' t'
  report_began :
      (args : ReportArgs) (now : Time) (r : Reported)
      → report_begin args now b ≡ (b', r)
      → t' ≡ with_agent t r
      → Step b t b' t'
  report_ended :
      (args : ReportArgs) (now : Time) (before : List Job) (job : Job) (after : List Job)
      (answer : Answer)
      → t ≡ before ++ job ∷ after
      → report_end args now job (guarded job.attempt job.max_attempts answer) b ≡ some b'
      → t' ≡ before ++ after
      → Step b t b' t'

pub data Reach (b : Broker) (t : List Job) : Broker → List Job → Type 0 where
  here : Reach b t b t
  next : {c d : Broker} {u v : List Job} → Reach b t c u → Step c u d v → Reach b t d v

-- The place of a job among those with the agent does not matter.
pub Inv-front :
    (b : Broker) (before after : List Job) (job : Job)
    → Inv b (before ++ job ∷ after)
    → Inv b (job ∷ (before ++ after))
unfolding total
Inv-front b before after job v =
    let size = length-append before (job ∷ after) in
    let size' = length-append before after in
    record {
      core = record {
        valid = v.core.valid;
        keyed = v.core.keyed;
        once = λ k. omega (
          arith,
          v.core.once k,
          total-append (has_id k) before (job ∷ after),
          total-append (has_id k) before after,
        );
        balance = omega (arith, v.core.balance, size, size');
        done_ok = v.core.done_ok;
      };
      done_all = λ c i. absurd (omega (arith, i.triaging));
    }

-- A result that the computation yields.
pub value_of {ℓ κ} :
    {A : Type ℓ} {P : A → Type κ} (m : Option A) (a : A) → Yields P m → m ≡ some a → P a
value_of {P = P} m a y e =
    let (x, ex, p) = Yields-value y in let same : x ≡ a = cc in subst P same p

SubmitResult-Inv :
    (now : Time) (job : Job) (b : Broker) (t : List Job) (b' : Broker) (e : Option SubmitError)
    → Inv b t
    → SubmitResult now job b t (b', e)
    → Inv b' t
SubmitResult-Inv now job b t b' none v r = r.0.0
SubmitResult-Inv now job b t b' (some (invalid_batch x)) v r = rw r.0 v
SubmitResult-Inv now job b t b' (some submissions_closed) v r = rw r.0 v

ClaimResult-Inv :
    (worker : String) (now : Time) (b : Broker) (t : List Job) (b' : Broker) (r : ClaimReply)
    → ClaimResult worker now b t (b', r)
    → Inv b' t
ClaimResult-Inv worker now b t b' r h =
    (elim r.job as (λ o. ClaimResult worker now b t (b', record r { job = o }) → Inv b' t) [
      | none ↦ λ x. x.0
      | some job ↦ λ x. x.2.inv
    ])
      h

BeginResult-Inv :
    (args : ReportArgs) (b : Broker) (t : List Job) (b' : Broker) (r : Reported)
    → Inv b t
    → BeginResult args b t (b', r)
    → Inv b' (with_agent t r)
BeginResult-Inv args b t b' not_assigned v r = rw r.0 v
BeginResult-Inv args b t b' finished v r = r.0
BeginResult-Inv args b t b' (failed job) v r = r.0

-- Every step keeps the invariant.
pub Step-Inv : {b b' : Broker} {t t' : List Job} → Inv b t → Step b t b' t' → Inv b' t'
Step-Inv {b} {b'} {t} v (submitted now job e fresh first fit run same) = rw same (
    SubmitResult-Inv now job b t b' e v
      (value_of _ _ (submit-SubmitResult now job b t v fresh) run))
Step-Inv {b} {b'} {t} v (submissions_end e same) = rw (e, same) (close_submissions-Inv b t v)
Step-Inv {b} {b'} {t} v (claimed worker now r run same) =
    rw same
      (ClaimResult-Inv worker now b t b' r (value_of _ _ (claim-ClaimResult worker now b t v) run))
Step-Inv {b} {b'} {t} v (report_began args now r run same) =
    rw same (BeginResult-Inv args b t b' r v (rw run at (report_begin-BeginResult args now b t v)))
Step-Inv {b} {b'} {t} v (report_ended args now before job after answer e run same) =
    let ok = guarded-IsAdmissible (failure_of job args.error) answer in
    let w = Inv-front b before after job (rw e at v) in
    rw same (value_of _ _ (report_end-Settled args now job _ b (before ++ after) w ok.valid) run).0

pub Reach-Inv :
    {b : Broker} {t : List Job} {b' : Broker} {t' : List Job}
    → Inv b t
    → Reach b t b' t'
    → Inv b' t'
Reach-Inv v here = v
Reach-Inv v (next r s) = Step-Inv (Reach-Inv v r) s

-- From a new broker, after any calls of any callers in any order, with any answers of the agent, as
-- long as every job is submitted not yet attempted and under an ID that no job at work has (the calls
-- may fail, also after submissions are closed): the queue is a heap, no two jobs at work share an ID,
-- every submitted job is terminal, queued, running or with the agent, and the channel is closed only
-- in time and never too late.
pub Reach_new-Inv :
    (r : Recorder) (b : Broker) (t : List Job) → Reach (new_broker r) [] b t → Inv b t
Reach_new-Inv r b t reach = Reach-Inv (new_broker-Inv r) reach

-- From a new broker, after any calls in any order, as long as every job is submitted not yet attempted
-- and under an ID that no job at work has: the channel that the dispatcher waits on is closed exactly
-- when submissions are closed and no job is queued, running or with the agent.
pub Reach-done_iff :
    (r : Recorder) (b : Broker) (t : List Job)
    → Reach (new_broker r) [] b t
    → (b.done ≡ true) ↔ ((b.closed ≡ true) × IsIdle b t)
Reach-done_iff r b t reach =
    let v = Reach_new-Inv r b t reach in
    (
      λ e. ((v.core.done_ok e).0, omega (arith, (v.core.done_ok e).1, v.core.balance)),
      λ (c, i). v.done_all c i,
    )
