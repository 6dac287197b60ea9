-- ===== src/Dispatcher/Jobs.antt =====
-- generateJobs of cmd/dispatcher/main.go: the workload of a run. What math/rand draws for a job is an
-- argument. `none` is an error, or an index out of range.
use job_scheduler_tooling.Prelude.{
  ℕ, zero, suc, ◌+◌, ◌*◌, ◌%◌, ◌≤◌, ◌<◌, ◌≡◌, refl, String, Bool, List, [], ◌∷◌, Option, none, some,
  arith, if◌then◌else◌, if_split, get_elem?, length, All,
}
use job_scheduler_tooling.Prelude.Int.{ℤ, pos, add64}
use job_scheduler_tooling.Prelude.Partial.{Yields, yields, Yields-then, Yields-weaken, ◌>>=◌}
use job_scheduler_tooling.Text.Decimal.{numbered}
use job_scheduler_tooling.Text.Numbering.{IsCounted, IsCounted-once}
use job_scheduler_tooling.Inference.{Batch, new_resnet50_batch, validate}
use job_scheduler_tooling.Inference.Choice.{
  batch_sizes, precision_of, accepted_batch, size_lem, batch_lem,
}
use job_scheduler_tooling.Queue.{Job, JobState, Time}
use job_scheduler_tooling.Dispatch.Broker.Weight.{total, has_id}

-- rng.Intn(4), rng.Intn(2), whether rng.Float64() < failureRate, and rng.Intn(5).
pub record Draw : Type 0 where
  pub size : ℕ
  pub half : ℕ
  pub fails : Bool
  pub tier : ℕ

abbrev pub failure_kinds : List String
failure_kinds = "oom" ∷ "transient" ∷ "corrupt_input" ∷ []

unfoldable pub failure_of_draw : Draw → ℕ → Option String
failure_of_draw d i = if d.fails then get_elem? failure_kinds (i % 3) else some ""

abbrev pub generated_job : Time → ℕ → Draw → ℕ → Batch → String → Job
generated_job base i d batch_size batch failure = record {
  id = numbered "inference-" i;
  priority = pos (1 + d.tier);
  resources = record { cpu_cores = pos 2; memory_mb = pos (1024 + batch_size * 64); gpus = pos 1 };
  inference = batch;
  attempt = pos 0;
  max_attempts = pos 3;
  inject_failure = failure;
  state = JobState.pending;
  submit_time = base + i;
  start_time = 0;
  node = "";
  index = pos 0;
}

-- One round of the loop.
unfoldable pub generate_job : Time → ℤ → ℕ → Draw → Option Job
generate_job base seed i d = do
  batch_size ← get_elem? batch_sizes d.size
  batch ←
      accepted_batch
        (new_resnet50_batch (pos batch_size) (precision_of d.half) (add64 seed (pos i)))
  failure ← failure_of_draw d i
  some (generated_job base i d batch_size batch failure)

-- The loop from a round on.
unfoldable pub generate_from : (ℕ → Draw) → Time → ℤ → ℕ → ℕ → Option (List Job)
generate_from draws base seed zero i = some []
generate_from draws base seed (suc left) i = do
  job ← generate_job base seed i (draws i)
  jobs ← generate_from draws base seed left (i + 1)
  some (job ∷ jobs)

unfoldable pub generate_jobs : (ℕ → Draw) → Time → ℤ → ℕ → Option (List Job)
generate_jobs draws base seed num_jobs = generate_from draws base seed num_jobs 0

-- A job that Submit takes.
pub record IsReady (j : Job) : Type 0 where
  pub valid : validate j.inference ≡ none
  pub fresh : j.attempt ≡ pos 0
  pub budget : j.max_attempts ≡ pos 3

-- Ready jobs, as many as asked for, with IDs that count up.
abbrev pub IsWorkload : ℕ → ℕ → List Job → Type 0
IsWorkload i n jobs = (length jobs ≡ n) × IsCounted "inference-" i jobs × All IsReady jobs

kind_lem : (k : ℕ) → k < 3 → Yields (λ (x : String). Unit {0}) (get_elem? failure_kinds k)
kind_lem zero lt = yields tt
kind_lem (suc zero) lt = yields tt
kind_lem (suc (suc zero)) lt = yields tt
kind_lem (suc (suc (suc k))) lt = absurd (omega arith)

generate_job-IsReady :
    (base : Time) (seed : ℤ) (i : ℕ) (d : Draw)
    → d.size < 4
    → Yields (λ j. (j.id ≡ numbered "inference-" i) × IsReady j) (generate_job base seed i d)
unfolding generate_job failure_of_draw
generate_job-IsReady base seed i d lt = Yields-then (size_lem d.size lt) (λ n (low, high).
    Yields-then (batch_lem n d.half (add64 seed (pos i)) low high) (λ b good.
      Yields-then
        (if_split (Yields (λ (x : String). Unit {0})) d.fails (λ _. kind_lem (i % 3) (omega arith))
          (λ _. yields tt))
        (λ failure _. yields (refl, record { valid = good; fresh = refl; budget = refl }))))

generate_from-IsWorkload :
    (draws : ℕ → Draw) (base : Time) (seed : ℤ) (n i : ℕ)
    → ((k : ℕ) → (draws k).size < 4)
    → Yields (IsWorkload i n) (generate_from draws base seed n i)
unfolding generate_from
generate_from-IsWorkload draws base seed zero i lt = yields (refl, tt, tt)
generate_from-IsWorkload draws base seed (suc n) i lt =
    Yields-then (generate_job-IsReady base seed i (draws i) (lt i)) (λ j (id, ready).
      Yields-then (generate_from-IsWorkload draws base seed n (i + 1) lt)
        (λ jobs (size, count, more). yields (omega (arith, size), (id, count), (ready, more))))

-- Whatever is drawn, generateJobs gives as many jobs as asked for, without an error and without an
-- index out of range: each has a batch that Validate passes, no attempt behind it and three to make,
-- and no two share an ID.
pub generate_jobs-IsWorkload :
    (draws : ℕ → Draw) (base : Time) (seed : ℤ) (n : ℕ)
    → ((k : ℕ) → (draws k).size < 4)
    → Yields
        (λ jobs. IsWorkload 0 n jobs × ((id : String) → total (has_id id) jobs ≤ 1))
        (generate_jobs draws base seed n)
unfolding generate_jobs
generate_jobs-IsWorkload draws base seed n lt =
    Yields-weaken (generate_from-IsWorkload draws base seed n 0 lt)
      (λ jobs w. (w, IsCounted-once "inference-" 0 jobs w.1))
