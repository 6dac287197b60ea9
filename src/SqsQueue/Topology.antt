-- ===== src/SqsQueue/Topology.antt =====
-- Create, Open and Delete of internal/sqsqueue/sqsqueue.go: the queues behind the tiers. The AWS client
-- is a parameter, its calls functions of the state of SQS; newClient, which makes it, is not modelled.
use job_scheduler_tooling.Prelude.{
  ℕ, ◌+◌, ◌/◌, String, List, [], ◌∷◌, Option, none, some, ◌+++◌, if◌then◌else◌,
}
use job_scheduler_tooling.Prelude.Int.{ℤ, pos, negsuc, pos_part, eqb_ℤ}
use job_scheduler_tooling.Text.Decimal.{decimal}
use job_scheduler_tooling.Queue.{Job}
use job_scheduler_tooling.SqsQueue.{Config, defaults, tier_of}

-- "%d".
abbrev pub decimal_ℤ : ℤ → String
decimal_ℤ (pos n) = decimal n n
decimal_ℤ (negsuc n) = "-" +++ decimal (n + 1) (n + 1)

unfoldable pub tier_queue_name : String → ℤ → String
tier_queue_name prefix tier = prefix +++ ("-p" +++ decimal_ℤ tier)

unfoldable pub dlq_name : String → String
dlq_name prefix = prefix +++ "-dlq"

-- The visibility timeout in whole seconds, and the redrive policy: the dead-letter queue's ARN and the receive count.
pub record Attributes : Type 0 where
  pub visibility_seconds : ℕ
  pub dead_letter_target : String
  pub max_receive_count : ℤ

-- The client's calls. `none` is an error; Attributes are `none` where the call sets none.
pub record Client (S : Type 0) : Type 0 where
  pub create_queue : String → Option Attributes → S → S × Option String
  pub queue_arn : String → S → Option String
  pub get_queue_url : String → S → Option String
  pub delete_queue : String → S → S
  pub send_message : String → Job → S → S × Option (Unit {0})

pub record Queues : Type 0 where
  pub cfg : Config
  pub tier_url : List (ℤ × String)
  pub dlq_url : String

-- The loops' tiers.
abbrev pub tiers_up : List ℤ
tiers_up = pos 1 ∷ pos 2 ∷ pos 3 ∷ pos 4 ∷ pos 5 ∷ []

-- A call that may fail, and what follows.
abbrev pub and_then {ℓ κ} :
    {S : Type 0} {A : Type ℓ} {B : Type κ} → S × Option A → (A → S → S × Option B) → S × Option B
and_then (s, none) k = (s, none)
and_then (s, some a) k = k a s

abbrev pub with_url : ℤ → String → List (ℤ × String) → List (ℤ × String)
with_url tier url urls = (tier, url) ∷ urls

module _ {S : Type 0} (client : Client S) where
  unfoldable pub create_tiers : String → Attributes → List ℤ → S → S × Option (List (ℤ × String))
  create_tiers prefix attrs [] s = (s, some [])
  create_tiers prefix attrs (t ∷ tiers) s =
      and_then (client.create_queue (tier_queue_name prefix t) (some attrs) s) λ url s.
        and_then (create_tiers prefix attrs tiers s) λ urls s. (s, some (with_url t url urls))

  -- The attributes of the tiers, and the tiers.
  unfoldable pub create_with : Config → String → String → S → S × Option Queues
  create_with cfg dlq arn s =
      let attrs : Attributes = record {
        visibility_seconds = pos_part cfg.visibility_timeout / 1000000000;
        dead_letter_target = arn;
        max_receive_count = cfg.max_receive_count;
      } in
      and_then (create_tiers cfg.prefix attrs tiers_up s)
        λ urls s. (s, some (record { cfg = cfg; tier_url = urls; dlq_url = dlq }))

  unfoldable pub create : Config → S → S × Option Queues
  create config s =
      let cfg = defaults config in
      and_then (client.create_queue (dlq_name cfg.prefix) none s)
        λ dlq s. and_then (s, client.queue_arn dlq s) λ arn s. create_with cfg dlq arn s

  unfoldable pub open_tiers : String → List ℤ → S → Option (List (ℤ × String))
  open_tiers prefix [] s = some []
  open_tiers prefix (t ∷ tiers) s = elim (client.get_queue_url (tier_queue_name prefix t) s) [
    | none ↦ none
    | some url ↦ elim (open_tiers prefix tiers s) [
      | none ↦ none
      | some urls ↦ some (with_url t url urls)
    ]
  ]

  unfoldable pub open_queues : Config → S → Option Queues
  open_queues config s =
      let cfg = defaults config in
      elim (client.get_queue_url (dlq_name cfg.prefix) s) [
        | none ↦ none
        | some dlq ↦ elim (open_tiers cfg.prefix tiers_up s) [
          | none ↦ none
          | some urls ↦ some (record { cfg = cfg; tier_url = urls; dlq_url = dlq })
        ]
      ]

  unfoldable pub delete_all : List (ℤ × String) → S → S
  delete_all [] s = s
  delete_all ((t, url) ∷ urls) s = delete_all urls (client.delete_queue url s)

  -- Delete.
  unfoldable pub delete : Queues → S → S
  delete q s = client.delete_queue q.dlq_url (delete_all q.tier_url s)

  -- Send: a tier without a queue has the empty URL.
  unfoldable pub url_of : ℤ → List (ℤ × String) → String
  url_of tier [] = ""
  url_of tier ((t, url) ∷ urls) = let rest = url_of tier urls in if eqb_ℤ t tier then url else rest

  unfoldable pub send : Queues → Job → S → S × Option (Unit {0})
  send q job s = client.send_message (url_of (tier_of job.priority) q.tier_url) job s
