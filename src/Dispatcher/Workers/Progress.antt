-- ===== src/Dispatcher/Workers/Progress.antt =====
-- What several workers beside the broker can do next.
use job_scheduler_tooling.Prelude.{
  ◌<◌, ◌≡◌, ◌⊎◌, inl, inr, refl, String, true, false, List, [], ◌∷◌, none, some, eq_refl, arith,
  length, Bool-cases, All, ltb,
}
use job_scheduler_tooling.Prelude.Dict.{Dict, lookup}
use job_scheduler_tooling.Prelude.Partial.{Yields, Yields-weaken}
use job_scheduler_tooling.Prelude.Dict.Keys.{Has}
use job_scheduler_tooling.Queue.{Job, Time}
use job_scheduler_tooling.Telemetry.{Recorder}
use job_scheduler_tooling.Dispatch.Broker.{Broker, new_broker, ClaimReply, claim}
use job_scheduler_tooling.Dispatch.Broker.Invariant.{IsIdle}
use job_scheduler_tooling.Dispatch.Broker.Invariant
use job_scheduler_tooling.Dispatch.Broker.Claim.{ClaimResult, claim-ClaimResult}
use job_scheduler_tooling.Dispatch.Broker.Runs
use job_scheduler_tooling.Dispatcher.Workers.{Phase, idle, working, deciding, System, Reach}
use job_scheduler_tooling.Dispatcher.Workers.Matching.{Asks}
use job_scheduler_tooling.Dispatcher.Workers.Standing.{
  Inv, IsServed, AreFresh, Reach-Inv, start-Inv,
}

-- What a worker may do next that is no wait: take a job from the queue, whenever it asks; report a job
-- that is running under its ID; or get the reply on a job that the agent decides on.
pub data CanAdvance (s : System) (worker : String) : Type 0 where
  takes :
      s.workers worker ≡ idle
      → ((now : Time)
          → Yields
              (λ (x : Broker × ClaimReply). (job : Job) × (x.1.job ≡ some job))
              (claim worker now s.broker))
      → CanAdvance s worker
  reports :
      (job : Job)
      → s.workers worker ≡ working job
      → Has s.broker.running job.id
      → CanAdvance s worker
  settles :
      (job : Job) (jobs : List Job)
      → s.workers worker ≡ deciding job
      → s.with_agents ≡ job ∷ jobs
      → CanAdvance s worker

-- A claim beside a queue that is not empty.
claim-takes :
    (worker : String) (now : Time) (b : Broker) (t : List Job)
    → Invariant.Inv b t
    → 0 < length b.queue.heap
    → Yields (λ (x : Broker × ClaimReply). (job : Job) × (x.1.job ≡ some job)) (claim worker now b)
claim-takes worker now b t v full = Yields-weaken (claim-ClaimResult worker now b t v) (λ (b', r) h.
    (elim r.job
        as (λ o.
          ClaimResult worker now b t (b', record r { job = o }) → (job : Job) × (o ≡ some job)) [
            | none ↦ λ x. absurd (omega (arith, full, x.1))
            | some job ↦ λ _. (job, refl)
          ])
      h)

running_Advances :
    (s : System) (running : Dict Job)
    → Inv s
    → s.broker.running ≡ running
    → 0 < length running
    → (w : String) × CanAdvance s w
unfolding lookup
running_Advances s [] v e full = absurd (omega (arith, full))
running_Advances s ((id, x) ∷ rest) v e full =
    let first : lookup id ((id, x) ∷ rest) ≡ some x = rw (eq_refl id) refl in
    let (w, j, at, named) = v.matching.held id (x, rw e first) in
    (w, reports j at (v.matching.known w j at))

asking_Advances :
    (s : System) (jobs : List Job)
    → All (Asks s.workers) jobs
    → s.with_agents ≡ jobs
    → 0 < length jobs
    → (w : String) × CanAdvance s w
asking_Advances s [] asks e full = absurd (omega (arith, full))
asking_Advances s (job ∷ jobs) ((w, at), more) e full = (w, settles job jobs at e)

left_Advances :
    (s : System)
    → Inv s
    → IsServed s
    → 0 < length s.broker.queue.heap
    → (w : String) × CanAdvance s w
left_Advances s v (inl (w, free)) full =
    (w, takes free (λ now. claim-takes w now s.broker s.with_agents v.broker full))
left_Advances s v (inr (inl busy)) full = running_Advances s s.broker.running v refl busy
left_Advances s v (inr (inr asking)) full = asking_Advances s s.with_agents v.asks refl asking

some_Advances :
    (s : System) → Inv s → ¬ (IsIdle s.broker s.with_agents) → (w : String) × CanAdvance s w
some_Advances s v busy = elim (Bool-cases (ltb 0 (length s.broker.running))) [
  | inl more ↦ running_Advances s s.broker.running v refl (ground (arith, more))
  | inr none_running ↦ elim (Bool-cases (ltb 0 (length s.with_agents))) [
    | inl more ↦ asking_Advances s s.with_agents v.asks refl (ground (arith, more))
    | inr none_asking ↦ elim (Bool-cases (ltb 0 (length s.broker.queue.heap))) [
      | inl more ↦
          let full : 0 < length s.broker.queue.heap = ground (arith, more) in
          left_Advances s v (v.served full) full
      | inr empty ↦ absurd (
          busy (record {
            queue = ground (arith, empty);
            running = ground (arith, none_running);
            triaging = ground (arith, none_asking);
          }))
    ]
  ]
]

-- Any number of workers, of which at least one has started, beside a broker that runs no job yet, and
-- to which calls have led that submit every job not yet attempted and under an ID that no job at work
-- has: after any steps of the workers in any order, with any outcomes of the batches and answers
-- of the agent, submissions being closed, either Done is closed or some worker can go on other than by
-- waiting, as long as runCoordinator has not given up. It gives up, kills all workers and fails the
-- run when it meets the exit of a worker before Done is closed; short of that the workers never come
-- to a stand while a job is left.
pub workers-CanAdvance :
    (recorder : Recorder) (b : Broker) (ws : String → Phase) (worker : String) (s : System)
    → Runs.Reach (new_broker recorder) [] b []
    → b.running ≡ []
    → AreFresh ws
    → ws worker ≡ idle
    → Reach (record { broker = b; with_agents = []; workers = ws; given_up = false }) s
    → s.given_up ≡ false
    → s.broker.closed ≡ true
    → (s.broker.done ≡ true) ⊎ ((w : String) × CanAdvance s w)
workers-CanAdvance recorder b ws worker s made none_running fresh first run up closed =
    let v =
      Reach-Inv
        (start-Inv b ws worker (Runs.Reach_new-Inv recorder b [] made) none_running fresh first) run
        up in
    elim (Bool-cases s.broker.done) [
      | inl over ↦ inl over
      | inr not_done ↦ inr (some_Advances s v (λ i. cc (v.broker.done_all closed i, not_done)))
    ]
