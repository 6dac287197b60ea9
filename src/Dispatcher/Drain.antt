-- ===== src/Dispatcher/Drain.antt =====
-- A worker that is alone with the broker works off its jobs and ends (cmd/dispatcher/main.go).
use job_scheduler_tooling.Prelude.{
  ℕ, zero, suc, ◌+◌, ◌-◌, ◌≤◌, ◌<◌, ◌≡◌, refl, ap, ◌∙◌, String, Bool, true, [], Option, none, some,
  arith, eq_refl, length,
}
use job_scheduler_tooling.Prelude.Dict.{lookup, insert, erase}
use job_scheduler_tooling.Prelude.Partial.{Yields, yields, Yields-then}
use job_scheduler_tooling.Queue.{Job}
use job_scheduler_tooling.Telemetry.{Recorder}
use job_scheduler_tooling.Dispatch.Broker.{Broker, ClaimReply, ReportArgs, claimed, new_broker}
use job_scheduler_tooling.Dispatch.Broker.Invariant.{Inv}
use job_scheduler_tooling.Dispatch.Broker.Submit.{new_broker-Inv}
use job_scheduler_tooling.Dispatch.Broker.Claim.{Assigned, ClaimResult, claim-ClaimResult}
use job_scheduler_tooling.Dispatch.Broker.Runs.{Reach, Reach_new-Inv}
use job_scheduler_tooling.Dispatch.Broker.Attempts.{IsFunded, potential, Assigned-Paid}
use job_scheduler_tooling.Dispatch.Broker.Budget.{Reach-Paid, new_broker-IsFunded}
use job_scheduler_tooling.Dispatcher.{
  Env, Exit, shut_down, run_error, report_for, work_on, obey, go_on, worker_loop,
}
use job_scheduler_tooling.Dispatcher.Handled.{fixed, Yields-Keeps, claim-Keeps, report-Handled}

-- The broker with no job outside its queue, submissions closed.
pub record IsAlone (size left : ℕ) (b : Broker) : Type 0 where
  pub inv : Inv b []
  pub funded : IsFunded b []
  pub closed : fixed b ≡ (true, size)
  pub none_running : b.running ≡ []
  pub few : potential b [] ≤ left

-- How the worker ends: told to, with all jobs succeeded or escalated.
abbrev pub Drained : ℕ → Broker × Exit → Type 0
Drained size (b, exit) =
    (exit ≡ shut_down)
    × (b.done ≡ true)
    × (b.stats.submitted ≡ size)
    × (b.stats.succeeded + b.stats.escalated ≡ size)

-- What a round leads to: the end, or a broker with fewer attempts left.
abbrev Advances : ℕ → ℕ → Broker × Option Exit → Type 0
Advances size left (b, some exit) = Drained size (b, exit)
Advances size left (b, none) = (m : ℕ) × (left ≡ suc m) × IsAlone size m b

report_for-job : (worker id : String) (e : Option String) → (report_for worker id e).job_id ≡ id
report_for-job worker id none = refl
report_for-job worker id (some e) = refl

work_on-Advances :
    (env : Env) (worker : String) (n size left : ℕ) (b b' : Broker) (job : Job)
    → IsAlone size left b
    → Assigned worker (env.clock n) b [] b' job
    → fixed b' ≡ fixed b
    → Yields (Advances size left) (work_on env worker n job b')
unfolding work_on insert erase lookup claimed
work_on-Advances env worker n size left b b' job a h c =
    let args : ReportArgs = report_for worker job.id (run_error env n job) in
    let about : args.job_id ≡ job.id = report_for-job worker job.id (run_error env n job) in
    let same : job.id ≡ h.taken.id = ap (λ (j : Job). j.id) h.job_is in
    let paid = Assigned-Paid worker (env.clock n) b [] b' job a.funded h in
    Yields-then
      (report-Handled env.agent args (env.clock (n + 1)) (env.clock (n + 2)) b' [] job h.inv
        paid.funded (rw about h.held))
      (λ x r. rw r.goes_on (
        yields (
          left - 1,
          omega (arith, a.few, paid.pays),
          record {
            inv = r.inv;
            funded = r.paid.funded;
            closed = r.kept ∙ (c ∙ a.closed);
            none_running = r.running ∙ rw (about, h.running_is, a.none_running, same, eq_refl) refl;
            few = omega (arith, a.few, paid.pays, r.paid.pays);
          },
        )))

obey-Advances :
    (env : Env) (worker : String) (n size left : ℕ) (b : Broker) (x : Broker × ClaimReply)
    → IsAlone size left b
    → ClaimResult worker (env.clock n) b [] x
    → fixed x.0 ≡ fixed b
    → Yields (Advances size left) (obey env worker n x)
unfolding obey
obey-Advances env worker n size left b (b', r) a h c =
    (elim r.job
        as (λ o.
          ClaimResult worker (env.clock n) b [] (b', record r { job = o })
          → Yields (Advances size left) (obey env worker n (b', record r { job = o }))) [
            | some job ↦ λ (awake, on, given).
                rw (on, awake) (work_on-Advances env worker n size left b b' job a given c)
            | none ↦ λ (inv, empty, stops, _, q, run).
                let end : fixed b' ≡ (true, size) = c ∙ a.closed in
                let idle : length b.running ≡ 0 = ap length a.none_running in
                let done : b'.done ≡ true =
                  inv.done_all (ap (λ (x : Bool × ℕ). x.0) end)
                    (record { queue = rw q empty; running = rw run idle; triaging = refl }) in
                let count : b'.stats.submitted ≡ size = ap (λ (x : Bool × ℕ). x.1) end in
                rw (stops.1 (ap (λ (x : Bool × ℕ). x.0) a.closed, idle))
                  (yields (refl, done, count, (inv.core.done_ok done).1 ∙ count))
          ])
      h

go_on-Drained :
    (size left : ℕ) (loop : Broker → Option (Broker × Exit))
    → ((m : ℕ) (b : Broker) → left ≡ suc m → IsAlone size m b → Yields (Drained size) (loop b))
    → (x : Broker × Option Exit) → Advances size left x
    → Yields (Drained size) (go_on loop x)
go_on-Drained size left loop h (b, some exit) d = yields d
go_on-Drained size left loop h (b, none) (m, less, rest) = h m b less rest

pub loop_drains :
    (env : Env) (worker : String) (fuel n size left : ℕ) (b : Broker)
    → IsAlone size left b
    → left < fuel
    → Yields (Drained size) (worker_loop fuel env worker n b)
unfolding worker_loop
loop_drains env worker zero n size left b a enough = absurd (omega (arith, enough))
loop_drains env worker (suc fuel) n size left b a enough =
    Yields-then
      (Yields-then
        (Yields-Keeps (λ (x : Broker × ClaimReply). x.0) (fixed b)
          (claim-ClaimResult worker (env.clock n) b [] a.inv) (claim-Keeps worker (env.clock n) b))
        (λ x (h, c). obey-Advances env worker n size left b x a h c))
      (go_on-Drained size left (worker_loop fuel env worker (n + 3)) (λ m b' less rest.
        loop_drains env worker fuel (n + 3) size m b' rest (omega (arith, less, enough))))

-- Beside a broker that has no job running and takes no more, reached by any calls, a lone worker ends
-- within one round more than the attempts that the queued jobs have left, whatever the Python process
-- and the agent answer: the broker tells it to stop, with its channel closed and every submitted job
-- succeeded or escalated, and no report of it is refused.
pub worker_loop-Drained :
    (env : Env) (worker : String) (recorder : Recorder) (b : Broker) (n fuel : ℕ)
    → Reach (new_broker recorder) [] b []
    → b.closed ≡ true
    → b.running ≡ []
    → potential b [] < fuel
    → Yields (Drained b.stats.submitted) (worker_loop fuel env worker n b)
worker_loop-Drained env worker recorder b n fuel reach closed idle enough =
    loop_drains env worker fuel n b.stats.submitted (potential b []) b
      (record {
        inv = Reach_new-Inv recorder b [] reach;
        funded = (Reach-Paid reach (new_broker-Inv recorder) (new_broker-IsFunded recorder)).funded;
        closed = ap (λ c. (c, b.stats.submitted)) closed;
        none_running = idle;
        few = omega arith;
      })
      enough
