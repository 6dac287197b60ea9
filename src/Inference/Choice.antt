-- ===== src/Inference/Choice.antt =====
-- The batches that cmd/dispatcher and cmd/scheduler draw for their jobs: one of four sizes, in one of
-- two precisions.
use job_scheduler_tooling.Prelude.{
  ℕ, zero, suc, ◌≤◌, ◌<◌, ◌≡◌, String, List, [], ◌∷◌, Option, none, some, arith, ◌==◌,
  if◌then◌else◌, if_split, get_elem?,
}
use job_scheduler_tooling.Prelude.Int.{ℤ, pos}
use job_scheduler_tooling.Prelude.Partial.{Yields, yields}
use job_scheduler_tooling.Inference.{Batch, BatchError, new_resnet50_batch, resnet50, validate}

abbrev pub batch_sizes : List ℕ
batch_sizes = 1 ∷ 8 ∷ 16 ∷ 32 ∷ []

abbrev pub precision_of : ℕ → String
precision_of half = if half == 0 then "fp16" else "fp32"

-- The batch, where NewResNet50Batch returns no error.
abbrev pub accepted_batch : Batch × Option BatchError → Option Batch
accepted_batch (batch, none) = some batch
accepted_batch (batch, some e) = none

-- Every draw finds a size.
pub size_lem : (k : ℕ) → k < 4 → Yields (λ n. (1 ≤ n) × (n ≤ 256)) (get_elem? batch_sizes k)
size_lem zero lt = yields (omega arith, omega arith)
size_lem (suc zero) lt = yields (omega arith, omega arith)
size_lem (suc (suc zero)) lt = yields (omega arith, omega arith)
size_lem (suc (suc (suc zero))) lt = yields (omega arith, omega arith)
size_lem (suc (suc (suc (suc k)))) lt = absurd (omega arith)

-- Every such batch is valid.
pub batch_lem :
    (n half : ℕ) (seed : ℤ)
    → 1 ≤ n
    → n ≤ 256
    → Yields
        (λ (b : Batch). validate b ≡ none)
        (accepted_batch (new_resnet50_batch (pos n) (precision_of half) seed))
unfolding new_resnet50_batch
batch_lem n half seed low high =
    let b : Batch = record {
      model = resnet50;
      batch_size = pos n;
      precision = precision_of half;
      channels = pos 3;
      height = pos 224;
      width = pos 224;
      seed = seed;
    } in
    let good : validate b ≡ none =
      unfold validate in
      if_split (λ (p : String). validate (record b { precision = p }) ≡ none) (half == 0)
        (λ _. ground (arith, low, high)) (λ _. ground (arith, low, high)) in
    rw good (yields good)
