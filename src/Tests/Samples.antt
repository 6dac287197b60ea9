-- ===== src/Tests/Samples.antt =====
-- Inputs that the tests share.
use job_scheduler_tooling.Prelude.{ℕ, String, Option, none, some}
use job_scheduler_tooling.Prelude.Int.{pos}
use job_scheduler_tooling.Inference.{Batch, resnet50}
use job_scheduler_tooling.Resource.{Requirements, Node}
use job_scheduler_tooling.Queue.{Job, JobState, Time}
use job_scheduler_tooling.Triage.{Failure}

abbrev pub batch : ℕ → Batch
batch n = record {
  model = resnet50;
  batch_size = pos n;
  precision = "fp32";
  channels = pos 3;
  height = pos 224;
  width = pos 224;
  seed = pos 42;
}

abbrev pub request : Requirements
request = record { cpu_cores = pos 2; memory_mb = pos 1024; gpus = pos 1 }

abbrev pub job : String → ℕ → Time → Job
job id priority submit_time = record {
  id = id;
  priority = pos priority;
  resources = request;
  inference = batch 16;
  attempt = pos 0;
  max_attempts = pos 3;
  inject_failure = "";
  state = JobState.pending;
  submit_time = submit_time;
  start_time = 0;
  node = "";
  index = pos 0;
}

abbrev pub machine : String → ℕ → ℕ → Node
machine name total used = record {
  name = name;
  total_cpu = pos total;
  total_mem_mb = pos 65536;
  total_gpus = pos 2;
  used_cpu = pos used;
  used_mem_mb = pos 0;
  used_gpus = pos 0;
}

abbrev pub failure : ℕ → String → Failure
failure attempt error = record {
  job_id = "job-000";
  attempt = pos attempt;
  max_attempts = pos 3;
  error = error;
  batch = batch 16;
}

-- The value of a computation that does not panic.
abbrev pub value_or {ℓ} : {A : Type ℓ} → A → Option A → A
value_or d none = d
value_or d (some a) = a
