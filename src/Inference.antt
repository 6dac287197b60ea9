-- ===== src/Inference.antt =====
-- internal/inference/inference.go: the payload of a job, and its validation.
-- `Result` only passes through the coordinators, into the text of an event: it is left out.
pub mod Choice
use job_scheduler_tooling.Prelude.{
  arith, ◌≡◌, Bool, true, String, Option, none, some, not, ◌&&◌, ◌||◌, str_eq, if◌then◌else◌,
}
use job_scheduler_tooling.Prelude.Int.{ℤ, pos, ◌≤ℤ◌, ltb_ℤ, eqb_ℤ}

abbrev pub resnet50 : String
resnet50 = "resnet50"

pub record Batch : Type 0 where
  pub model : String
  pub batch_size : ℤ
  pub precision : String
  pub channels : ℤ
  pub height : ℤ
  pub width : ℤ
  pub seed : ℤ

-- The errors of `Validate`, without their texts.
pub data BatchError : Type 0 where
  unsupported_model bad_batch_size unsupported_precision bad_shape : BatchError

abbrev pub is_precision : String → Bool
is_precision p = str_eq p "fp32" || str_eq p "fp16"

-- `none` is the nil error.
unfoldable pub validate : Batch → Option BatchError
validate b =
    if not (str_eq b.model resnet50)
    then some BatchError.unsupported_model
    else if ltb_ℤ b.batch_size (pos 1) || ltb_ℤ (pos 256) b.batch_size
    then some BatchError.bad_batch_size
    else if not (str_eq b.precision "fp32") && not (str_eq b.precision "fp16")
    then some BatchError.unsupported_precision
    else if not (eqb_ℤ b.channels (pos 3))
        || not (eqb_ℤ b.height (pos 224))
        || not (eqb_ℤ b.width (pos 224))
    then some BatchError.bad_shape
    else none

-- NewResNet50Batch returns the batch beside the error.
unfoldable pub new_resnet50_batch : ℤ → String → ℤ → Batch × Option BatchError
unfolding validate
new_resnet50_batch batch_size precision seed =
    let b : Batch = record {
      model = resnet50;
      batch_size = batch_size;
      precision = precision;
      channels = pos 3;
      height = pos 224;
      width = pos 224;
      seed = seed;
    } in
    (b, validate b)

pub validate_range :
    (b : Batch) → validate b ≡ none → (pos 1 ≤ℤ b.batch_size) × (b.batch_size ≤ℤ pos 256)
unfolding validate
validate_range b h = ground arith

-- A new size within the range and a known precision keep a batch valid.
pub validate_resized :
    (b : Batch) (size : ℤ) (p : String)
    → validate b ≡ none
    → pos 1 ≤ℤ size
    → size ≤ℤ pos 256
    → is_precision p ≡ true
    → validate (record b { batch_size = size; precision = p }) ≡ none
unfolding validate
validate_resized b size p h lo hi k = ground arith
