-- ===== src/Dispatcher/Workers/Effort.antt =====
-- How much several workers beside the broker can do.
use job_scheduler_tooling.Prelude.{
  ℕ, ◌+◌, false, ◌*◌, ◌≤◌, ◌≡◌, refl, ap, String, List, [], ◌∷◌, ◌++◌, none, some, arith, length,
  length-append,
}
use job_scheduler_tooling.Prelude.Dict.{Dict, lookup, length-insert_new, length-erase}
use job_scheduler_tooling.Queue.{Job, Time}
use job_scheduler_tooling.Telemetry.{Recorder}
use job_scheduler_tooling.Dispatch.Guard.{guarded-IsAdmissible}
use job_scheduler_tooling.Dispatch.Broker.{
  Broker, new_broker, ClaimReply, ReportArgs, Reported, not_assigned, finished, failed, failure_of,
}
use job_scheduler_tooling.Dispatch.Broker.Claim.{ClaimResult, claim-ClaimResult}
use job_scheduler_tooling.Dispatch.Broker.Report.{
  BeginResult, report_begin-BeginResult, report_end-Settled, with_agent,
}
use job_scheduler_tooling.Dispatch.Broker.Runs.{value_of, Inv-front}
use job_scheduler_tooling.Dispatch.Broker.Runs
use job_scheduler_tooling.Dispatch.Broker.Attempts.{IsFunded, Paid, potential}
use job_scheduler_tooling.Dispatch.Broker.Budget.{
  claim-Paid, begin-Paid, end-Paid, granted, Reach-Paid, new_broker-IsFunded, claims-le-granted,
}
use job_scheduler_tooling.Dispatch.Broker.Submit.{new_broker-Inv}
use job_scheduler_tooling.Dispatcher.{report_for}
use job_scheduler_tooling.Dispatcher.Workers.{Phase, idle, System, Step, Reach, here, next}
use job_scheduler_tooling.Dispatcher.Workers as W
use job_scheduler_tooling.Dispatcher.Workers.Standing.{
  Inv, AreFresh, Step-Inv, start-Inv, report_for-id,
}

-- What is no wait: a job taken, a report, and the reply to one.
pub advances_of : {s s' : System} → Step s s' → ℕ
advances_of (W.claimed worker now b r up free run e) = elim r.job [ none ↦ 0 | some _ ↦ 1 ]
advances_of (W.reported worker job outcome now b r up at run e) = 1
advances_of (W.settled worker job before after outcome now answer b up at split run e) = 1
advances_of (W.gave_up worker up at more e) = 0

pub advances : {s s' : System} → Reach s s' → ℕ
advances here = 0
advances (next r step) = advances r + advances_of step

-- The attempts that are left, each worth three advances, and what is under way.
effort : Broker → List Job → ℕ
effort b t = 3 * potential b t + (2 * length b.running + length t)

-- A step pays for its advances.
record Pays (b : Broker) (t : List Job) (b' : Broker) (t' : List Job) (n : ℕ) : Type 0 where
  funded : IsFunded b' t'
  pays : effort b' t' + n ≤ effort b t

claim-Pays :
    (worker : String) (now : Time) (b : Broker) (t : List Job) (b' : Broker) (r : ClaimReply)
    → IsFunded b t
    → ClaimResult worker now b t (b', r)
    → Pays b t b' t (elim r.job [ none ↦ 0 | some _ ↦ 1 ])
unfolding effort
claim-Pays worker now b t b' r f h =
    let paid = claim-Paid worker now b t b' r f h in
    (elim r.job
        as (λ o.
          ClaimResult worker now b t (b', record r { job = o })
          → Paid b t b' t (elim o [ none ↦ 0 | some _ ↦ 1 ]) 0
          → Pays b t b' t (elim o [ none ↦ 0 | some _ ↦ 1 ])) [
            | none ↦ λ (_, _, _, _, q, m) p. record {
              funded = p.funded;
              pays = omega (arith, p.pays, ap (λ (d : Dict Job). length d) m);
            }
            | some job ↦ λ (_, _, a) p. record {
              funded = p.funded;
              pays = omega (
                arith,
                p.pays,
                ap (λ (d : Dict Job). length d) a.running_is,
                length-insert_new a.taken.id job b.running a.unheld,
              );
            }
          ])
      h paid

begin-Pays :
    (args : ReportArgs) (b : Broker) (t : List Job) (b' : Broker) (r : Reported) (job : Job)
    → lookup args.job_id b.running ≡ some job
    → IsFunded b t
    → BeginResult args b t (b', r)
    → Pays b t b' (with_agent t r) 1
unfolding effort
begin-Pays args b t b' not_assigned job held f (same, absent) = absurd (cc (held, absent))
begin-Pays args b t b' finished job held f h =
    let p = begin-Paid args b t b' finished f h in
    let less = ap (λ (d : Dict Job). length d) h.3.2 in
    record {
      funded = p.funded;
      pays = omega (arith, p.pays, less, length-erase args.job_id job b.running held);
    }
begin-Pays args b t b' (failed job') job held f h =
    let p = begin-Paid args b t b' (failed job') f h in
    let less = ap (λ (d : Dict Job). length d) h.3.2 in
    record {
      funded = p.funded;
      pays = omega (arith, p.pays, less, length-erase args.job_id job b.running held);
    }

Step-Pays :
    {s s' : System} (step : Step s s')
    → (s.given_up ≡ false → Inv s)
    → IsFunded s.broker s.with_agents
    → Pays s.broker s.with_agents s'.broker s'.with_agents (advances_of step)
unfolding advances_of effort
Step-Pays {s} (W.claimed worker now b r up free run e) v f = rw e (
    claim-Pays worker now s.broker s.with_agents b r f
      (value_of _ _ (claim-ClaimResult worker now s.broker s.with_agents (v up).broker) run))
Step-Pays {s} (W.reported worker job outcome now b r up at run e) v f =
    let args = report_for worker job.id outcome in
    let (x, held) = (v up).matching.known worker job at in
    rw e (
      begin-Pays args s.broker s.with_agents b r x (rw (report_for-id worker job.id outcome) held) f
        (rw run at (report_begin-BeginResult args now s.broker s.with_agents (v up).broker)))
Step-Pays {s} (W.settled worker job before after outcome now answer b up at split run e) v f =
    let args = report_for worker job.id outcome in
    let ok = guarded-IsAdmissible (failure_of job args.error) answer in
    let front = Inv-front s.broker before after job (rw split at (v up).broker) in
    let (inv, done_with, same) =
      value_of _ _ (report_end-Settled args now job _ s.broker (before ++ after) front ok.valid)
        run in
    let p = end-Paid job answer s.broker before after b (rw split at f) same done_with in
    rw (e, split)
      (record {
        funded = p.funded;
        pays = omega (
          arith,
          p.pays,
          ap (λ (d : Dict Job). length d) same,
          length-append before (job ∷ after),
          length-append before after,
        );
      })
Step-Pays {s} (W.gave_up worker up at more e) v f = rw e (record { funded = f; pays = omega arith })

Reach-Pays :
    {s s' : System} (run : Reach s s')
    → (s.given_up ≡ false → Inv s)
    → IsFunded s.broker s.with_agents
    → (s'.given_up ≡ false → Inv s')
      × Pays s.broker s.with_agents s'.broker s'.with_agents (advances run)
unfolding advances
Reach-Pays here v f = (v, record { funded = f; pays = omega arith })
Reach-Pays (next r step) v f =
    let (w, p) = Reach-Pays r v f in
    let q = Step-Pays step w p.funded in
    (Step-Inv w step, record { funded = q.funded; pays = omega (arith, p.pays, q.pays) })

-- Any number of workers beside a broker that runs no job yet, and to which calls have led that submit
-- every job not yet attempted and under an ID that no job at work has: however the workers take turns,
-- also where runCoordinator gives up, whatever the batches come to and the agent answers, the jobs they take, the
-- reports they make and the replies they get are together no more than three for each attempt granted
-- to the jobs submitted. So there is no endless run in which workers do other than wait.
pub workers-Bounded :
    (recorder : Recorder) (b : Broker) (ws : String → Phase) (worker : String) (s : System)
    (made : Runs.Reach (new_broker recorder) [] b [])
    → b.running ≡ []
    → AreFresh ws
    → ws worker ≡ idle
    → (run : Reach (record { broker = b; with_agents = []; workers = ws; given_up = false }) s)
    → advances run ≤ 3 * granted made
unfolding effort
workers-Bounded recorder b ws worker s made none_running fresh first run =
    let inv = Runs.Reach_new-Inv recorder b [] made in
    let paid = Reach-Paid made (new_broker-Inv recorder) (new_broker-IsFunded recorder) in
    let start = start-Inv b ws worker inv none_running fresh first in
    let empty : length b.running ≡ 0 = rw none_running refl in
    omega (
      arith,
      (Reach-Pays run (λ _. start) paid.funded).1.pays,
      claims-le-granted recorder b [] made,
      empty,
    )
