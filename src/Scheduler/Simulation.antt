-- ===== src/Scheduler/Simulation.antt =====
-- The tick loop of main in cmd/scheduler/main.go. The clock gives the time of a tick, and `intn` the
-- results of the calls rng.Intn(8), in their order. Nodes are their indices in the pool. `none` is a
-- run-time panic, or fuel that runs out.
use job_scheduler_tooling.Prelude.{
  ℕ, zero, suc, ◌+◌, ◌/◌, String, List, [], ◌∷◌, ◌++◌, Option, none, some, ◌==◌, str_eq,
  if◌then◌else◌, get_elem?, set,
}
use job_scheduler_tooling.Prelude.Int.{ℤ, pos, negsuc, pos_part, add64, eqb_ℤ}
use job_scheduler_tooling.Prelude.Dict.{Dict, insert, erase}
use job_scheduler_tooling.Prelude.Partial.{◌>>=◌}
use job_scheduler_tooling.Resource.{Requirements, Node, find_fit, reserve, release}
use job_scheduler_tooling.Queue.{Queue, Job, JobState, Time, new, push, pop, len}
use job_scheduler_tooling.Telemetry.{Event, Recorder, record_event}
use job_scheduler_tooling.Scheduler.{RunningJob, find_preemption_victim}

pub record PendingSubmit : Type 0 where
  pub job : Job
  pub arrival_tick : ℕ

-- The variables of the loop; `draws` counts the calls of rng.Intn.
pub record Simulation : Type 0 where
  pub pool : List Node
  pub queue : Queue
  pub running : Dict RunningJob
  pub recorder : Recorder
  pub draws : ℕ

abbrev pub simulation_event : Time → Job → String → String → Event
simulation_event now job event_type node_name = record {
  timestamp = now;
  job_id = job.id;
  event_type = event_type;
  node_name = node_name;
  priority = job.priority;
  model = job.inference.model;
  batch_size = job.inference.batch_size;
  attempt = pos 0;
  triage_action = "";
  version = pos 0;
}

-- The events about a preemption and a wait leave the batch out.
abbrev pub short_event : Time → Job → String → String → Event
short_event now job event_type node_name = record (simulation_event now job event_type node_name) {
  model = "";
  batch_size = pos 0;
}

unfoldable pub log : Event → Simulation → Simulation
log e s = record s { recorder = record_event s.recorder e }

-- 1. A job whose arrival time has come.
abbrev pub arrived : Time → Job → Job
arrived now job = record job { submit_time = now; state = JobState.pending }

unfoldable pub submit_one : Time → Job → Simulation → Option Simulation
submit_one now job s = do
  q ← push s.queue (arrived now job)
  some (log (simulation_event now (arrived now job) "submitted" "") (record s { queue = q }))

unfoldable pub submit_arrivals : ℕ → Time → List PendingSubmit → Simulation → Option Simulation
submit_arrivals tick now [] s = some s
submit_arrivals tick now (p ∷ to_submit) s =
    (if p.arrival_tick == tick then submit_one now p.job s else some s)
    >>= submit_arrivals tick now to_submit

-- Release on the first node of this name.
unfoldable pub release_on : String → Requirements → List Node → List Node
release_on name req [] = []
release_on name req (n ∷ nodes) =
    if str_eq n.name name then release n req ∷ nodes else n ∷ release_on name req nodes

-- 2. A running job whose finish tick has come, under its key.
unfoldable pub complete_one : ℕ → Time → String → RunningJob → Simulation → Simulation
complete_one tick now id rj s =
    if eqb_ℤ rj.finish_tick (pos tick)
    then log (simulation_event now (record rj.job { id = id }) "completed" rj.job.node) (record s {
      pool = release_on rj.job.node rj.job.resources s.pool;
      running = erase id s.running;
    })
    else s

-- The range over the map, in the order of one iteration; only visited keys are deleted.
unfoldable pub complete_due : ℕ → Time → Dict RunningJob → Simulation → Simulation
complete_due tick now [] s = s
complete_due tick now ((id, rj) ∷ rest) s =
    complete_due tick now rest (complete_one tick now id rj s)

abbrev pub running_jobs : Dict RunningJob → List RunningJob
running_jobs [] = []
running_jobs ((id, rj) ∷ running) = rj ∷ running_jobs running

-- A preempted job goes back to the queue.
abbrev pub preempted : Time → Job → Job
preempted now job = record job { state = JobState.pending; submit_time = now }

unfoldable pub preempt : Time → RunningJob → Simulation → Option Simulation
preempt now victim s = do
  let s' = log (short_event now victim.job "preempted" victim.job.node) (record s {
    pool = release_on victim.job.node victim.job.resources s.pool;
    running = erase victim.job.id s.running;
  })
  q ← push s'.queue (preempted now victim.job)
  some (record s' { queue = q })

-- A node for the job, after a preemption where there is none.
unfoldable pub preempt_for :
    Time → Job → Simulation → Option RunningJob → Option (Simulation × Option ℕ)
preempt_for now j s none = some (s, none)
preempt_for now j s (some victim) =
    preempt now victim s >>= λ s'. some (s', find_fit s'.pool j.resources)

unfoldable pub find_node : Time → Job → Simulation → Option ℕ → Option (Simulation × Option ℕ)
find_node now j s (some k) = some (s, some k)
find_node now j s none = preempt_for now j s (find_preemption_victim (running_jobs s.running) j)

-- Go's division by 4, towards zero.
abbrev pub quarter : ℤ → ℤ
quarter (pos n) = pos (n / 4)
quarter (negsuc n) = let q = (n + 1) / 4 in elim q [ zero ↦ pos 0 | suc m ↦ negsuc m ]

abbrev pub duration : Job → ℕ → ℤ
duration j draw = add64 (add64 (pos 4) (quarter j.inference.batch_size)) (pos draw)

abbrev pub placed : Time → String → Job → Job
placed now name j = record j { state = JobState.running; node = name; start_time = now }

-- The job starts on a node.
unfoldable pub start_on : (ℕ → ℕ) → ℕ → Time → Job → ℕ → Node → Simulation → Simulation
start_on intn tick now j k node s =
    let job = placed now node.name j in
    log (simulation_event now job "started" node.name) (record s {
      pool = set s.pool k (reserve node j.resources);
      running =
          insert j.id
            (record { job = job; finish_tick = add64 (pos tick) (duration j (intn s.draws)) })
            s.running;
      draws = s.draws + 1;
    })

-- What becomes of the job popped: the simulation, and the jobs to queue again after the loop.
unfoldable pub settle_job :
    (ℕ → ℕ) → ℕ → Time → Job → Simulation × Option ℕ → Option (Simulation × List Job)
settle_job intn tick now j (s, none) = some (log (short_event now j "wait_reason" "") s, j ∷ [])
settle_job intn tick now j (s, some k) =
    get_elem? s.pool k >>= λ node. some (start_on intn tick now j k node s, [])

unfoldable pub place_popped :
    (ℕ → ℕ) → ℕ → Time → Simulation → Option Job × Queue → Option (Simulation × List Job)
place_popped intn tick now s (none, q) = none
place_popped intn tick now s (some j, q) =
    let s' = record s { queue = q } in
    find_node now j s' (find_fit s'.pool j.resources) >>= settle_job intn tick now j

-- 3. The loop that places the queued jobs.
unfoldable pub place_all :
    ℕ → (ℕ → ℕ) → ℕ → Time → List Job → Simulation → Option (Simulation × List Job)
place_all zero intn tick now requeue s = none
place_all (suc fuel) intn tick now requeue s =
    let round = pop s.queue >>= λ popped. place_popped intn tick now s popped >>= λ (s', waiting).
    place_all fuel intn tick now (requeue ++ waiting) s' in
    if len s.queue == 0 then some (s, requeue) else round

unfoldable pub push_all : List Job → Simulation → Option Simulation
push_all [] s = some s
push_all (j ∷ jobs) s = push s.queue j >>= λ q. push_all jobs (record s { queue = q })

-- One round of the tick loop.
unfoldable pub tick_once :
    ℕ → (ℕ → ℕ) → (ℕ → Time) → List PendingSubmit → ℕ → Simulation → Option Simulation
tick_once fuel intn clock to_submit tick s = do
  s₁ ← submit_arrivals tick (clock tick) to_submit s
  let s₂ = complete_due tick (clock tick) s₁.running s₁
  (s₃, requeue) ← place_all fuel intn tick (clock tick) [] s₂
  push_all requeue s₃

-- What the loop starts from.
abbrev pub start : List Node → Recorder → Simulation
start pool recorder = record {
  pool = pool;
  queue = new;
  running = [];
  recorder = recorder;
  draws = 0;
}

unfoldable pub run_ticks :
    ℕ → ℕ → (ℕ → ℕ) → (ℕ → Time) → List PendingSubmit → ℕ → Simulation → Option Simulation
run_ticks zero fuel intn clock to_submit tick s = some s
run_ticks (suc ticks) fuel intn clock to_submit tick s =
    tick_once fuel intn clock to_submit tick s
    >>= run_ticks ticks fuel intn clock to_submit (tick + 1)

-- The tick loop from its start, with a fuel for each tick's loop over the queue.
unfoldable pub simulate :
    ℤ → ℕ → (ℕ → ℕ) → (ℕ → Time) → List PendingSubmit → List Node → Recorder → Option Simulation
simulate max_ticks fuel intn clock to_submit nodes recorder =
    run_ticks (pos_part max_ticks) fuel intn clock to_submit 0 (start nodes recorder)
