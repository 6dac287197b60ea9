-- ===== src/Scheduler/Workload.antt =====
-- The jobs that main of cmd/scheduler/main.go makes up, and the whole simulation of them. What
-- math/rand draws for a job is an argument. `none` is a fatal error, a panic, or fuel that runs out.
use job_scheduler_tooling.Prelude.{
  ℕ, zero, suc, ◌+◌, ◌*◌, ◌≤◌, ◌<◌, ◌≡◌, refl, List, [], ◌∷◌, Option, some, arith, get_elem?,
}
use job_scheduler_tooling.Prelude.Int.{ℤ, pos, add64, int64_half}
use job_scheduler_tooling.Prelude.Partial.{Yields, yields, Yields-then, ◌>>=◌}
use job_scheduler_tooling.Text.Decimal.{numbered}
use job_scheduler_tooling.Text.Numbering.{IsCounted, IsCounted-once}
use job_scheduler_tooling.Inference.{Batch, new_resnet50_batch}
use job_scheduler_tooling.Inference.Choice.{
  batch_sizes, precision_of, accepted_batch, size_lem, batch_lem,
}
use job_scheduler_tooling.Resource.{Node}
use job_scheduler_tooling.Queue.{Job, JobState, Time}
use job_scheduler_tooling.Telemetry.{Recorder}
use job_scheduler_tooling.Dispatch.Broker.Weight.{total}
use job_scheduler_tooling.Scheduler.Simulation.{PendingSubmit, Simulation, simulate}
use job_scheduler_tooling.Scheduler.Accounts.{IsNamed, Balanced}
use job_scheduler_tooling.Scheduler.Invariant.{misfit, rank}
use job_scheduler_tooling.Scheduler.Ticks.{Orderly, submitted, simulate-Orderly}

-- rng.Intn(5), rng.Intn(4), rng.Intn(2), rng.Intn(4) and rng.Intn(30).
pub record Draw : Type 0 where
  pub tier : ℕ
  pub size : ℕ
  pub half : ℕ
  pub cores : ℕ
  pub arrival : ℕ

abbrev pub simulated_job : ℕ → Draw → ℕ → Batch → Job
simulated_job i d batch_size batch = record {
  id = numbered "job-" i;
  priority = pos (1 + d.tier);
  resources = record {
    cpu_cores = pos (2 + d.cores);
    memory_mb = pos (2048 + batch_size * 128);
    gpus = pos 1;
  };
  inference = batch;
  attempt = pos 0;
  max_attempts = pos 0;
  inject_failure = "";
  state = JobState.pending;
  submit_time = 0;
  start_time = 0;
  node = "";
  index = pos 0;
}

-- One round of the loop.
unfoldable pub make_submit : ℤ → ℕ → Draw → Option PendingSubmit
make_submit seed i d = do
  batch_size ← get_elem? batch_sizes d.size
  batch ←
      accepted_batch
        (new_resnet50_batch (pos batch_size) (precision_of d.half) (add64 seed (pos i)))
  some (record { job = simulated_job i d batch_size batch; arrival_tick = d.arrival })

-- The loop from a round on.
unfoldable pub make_submits : (ℕ → Draw) → ℤ → ℕ → ℕ → Option (List PendingSubmit)
make_submits draws seed zero i = some []
make_submits draws seed (suc left) i = do
  p ← make_submit seed i (draws i)
  ps ← make_submits draws seed left (i + 1)
  some (p ∷ ps)

-- main, from the parsed nodes to the end of the ticks.
unfoldable pub run_main :
    ℕ → (ℕ → Draw) → (ℕ → ℕ) → (ℕ → Time) → ℤ → ℕ → ℤ → List Node → Recorder → Option Simulation
run_main fuel draws intn clock seed num_jobs max_ticks nodes recorder =
    make_submits draws seed num_jobs 0 >>= λ to_submit.
    simulate max_ticks fuel intn clock to_submit nodes recorder

-- What math/rand may draw.
abbrev pub InRange : Draw → Type 0
InRange d = (d.tier < 5) × (d.size < 4) × (d.cores < 4)

make_submit_lem :
    (seed : ℤ) (i : ℕ) (d : Draw)
    → InRange d
    → Yields
        (λ p. (p.job.id ≡ numbered "job-" i) × (misfit p.job ≡ 0) × (rank p.job ≤ int64_half + 6))
        (make_submit seed i d)
unfolding make_submit
make_submit_lem seed i d (tier, size, cores) = Yields-then (size_lem d.size size) (λ n (low, high).
    Yields-then (batch_lem n d.half (add64 seed (pos i)) low high)
      (λ b _. yields (refl, ground (arith, cores, high), ground (arith, tier))))

-- Fitting jobs, with IDs that count up.
abbrev IsWorkload : ℕ → ℕ → List Job → Type 0
IsWorkload i n jobs =
    IsCounted "job-" i jobs × (total misfit jobs ≡ 0) × (total rank jobs ≤ n * (int64_half + 6))

make_submits-IsWorkload :
    (draws : ℕ → Draw) (seed : ℤ) (n i : ℕ)
    → ((k : ℕ) → InRange (draws k))
    → Yields (λ ps. IsWorkload i n (submitted ps)) (make_submits draws seed n i)
unfolding make_submits total
make_submits-IsWorkload draws seed zero i ok = yields (tt, refl, omega arith)
make_submits-IsWorkload draws seed (suc n) i ok =
    Yields-then (make_submit_lem seed i (draws i) (ok i)) (λ p (id, fit, small).
      Yields-then (make_submits-IsWorkload draws seed n (i + 1) ok) (λ ps (count, rest, ranks).
        yields ((id, count), omega (arith, fit, rest), omega (arith, small, ranks))))

-- The whole scheduler, for any number of jobs and ticks, whatever is drawn, on nodes with names of
-- their own and nothing in use: it never panics or fails, its loop over the queue ends in every tick,
-- and at the end the queue is a heap with its positions, no job is in the simulation twice, and every
-- node has in use exactly what the jobs that run there asked for, within what the node has.
pub run_main-Orderly :
    (fuel : ℕ) (draws : ℕ → Draw) (intn : ℕ → ℕ) (clock : ℕ → Time) (seed : ℤ) (num_jobs : ℕ)
    (max_ticks : ℤ) (nodes : List Node) (recorder : Recorder)
    → ((k : ℕ) → InRange (draws k))
    → IsNamed nodes
    → Balanced [] nodes
    → num_jobs * (int64_half + 6) < fuel
    → Yields Orderly (run_main fuel draws intn clock seed num_jobs max_ticks nodes recorder)
unfolding run_main
run_main-Orderly fuel draws intn clock seed num_jobs max_ticks nodes recorder ok named free enough =
    Yields-then (make_submits-IsWorkload draws seed num_jobs 0 ok) (λ ps (count, fit, ranks).
      simulate-Orderly max_ticks fuel intn clock ps nodes recorder
        (IsCounted-once "job-" 0 (submitted ps) count) fit named free
        (omega (arith, ranks, enough)))
