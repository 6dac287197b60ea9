-- ===== src/SqsQueue.antt =====
-- internal/sqsqueue/sqsqueue.go: the tiers that stand for priorities, and the sweep over them. What a
-- tier's queue answers is an argument, with the JSON of a message decoded.
pub mod Sweep
pub mod Topology
pub mod Letters
use job_scheduler_tooling.Prelude.{String, List, [], ◌∷◌, Option, none, some, if◌then◌else◌, str_eq}
use job_scheduler_tooling.Prelude.Int.{ℤ, pos, ltb_ℤ, leb_ℤ}
use job_scheduler_tooling.Queue.{Job}

abbrev pub min_tier : ℤ
min_tier = pos 1

abbrev pub max_tier : ℤ
max_tier = pos 5

unfoldable pub tier_of : ℤ → ℤ
tier_of priority =
    if ltb_ℤ priority min_tier
    then min_tier
    else if ltb_ℤ max_tier priority
    then max_tier
    else priority

-- Durations are in nanoseconds.
pub record Config : Type 0 where
  pub endpoint : String
  pub region : String
  pub prefix : String
  pub visibility_timeout : ℤ
  pub max_receive_count : ℤ

unfoldable pub defaults : Config → Config
defaults c = record {
  endpoint = c.endpoint;
  region = if str_eq c.region "" then "us-east-1" else c.region;
  prefix = if str_eq c.prefix "" then "sched" else c.prefix;
  visibility_timeout =
      if leb_ℤ c.visibility_timeout (pos 0) then pos 30000000000 else c.visibility_timeout;
  max_receive_count = if leb_ℤ c.max_receive_count (pos 0) then pos 3 else c.max_receive_count;
}

-- Delivery, without the handles that Ack and Release give back to SQS.
pub record Delivery : Type 0 where
  pub job : Job
  pub tier : ℤ
  pub receive_count : ℤ
  pub message_id : String

-- What one ReceiveMessage comes to.
pub data Received : Type 0 where
  failed : String → Received
  empty : Received
  message : (id : String) (count : ℤ) → Option Job → Received

-- The rest of Receive from a tier on: an error, or at most one delivery.
unfoldable pub sweep : (ℤ → Received) → List ℤ → Option (Option Delivery)
sweep ask [] = some none
sweep ask (t ∷ tiers) = elim (ask t) [
  | failed e ↦ none
  | empty ↦ sweep ask tiers
  | message id count none ↦ none
  | message id count (some j) ↦
      some (some (record { job = j; tier = t; receive_count = count; message_id = id }))
]

-- The loop's tiers.
abbrev pub tiers_down : List ℤ
tiers_down = pos 5 ∷ pos 4 ∷ pos 3 ∷ pos 2 ∷ pos 1 ∷ []

-- Receive; `none` is an error.
unfoldable pub receive : (ℤ → Received) → Option (Option Delivery)
receive ask = sweep ask tiers_down
