-- ===== src/Tests/Dispatching.antt =====
-- cmd/dispatcher and cmd/scheduler on a run with a worker that always fails.
use job_scheduler_tooling.Prelude.{
  ℕ, ◌*◌, ◌+◌, ◌≡◌, refl, String, true, false, List, [], ◌∷◌, str_eq, eq_iff, ◌≢◌, All, ◌||◌, ◌&&◌,
  ltb, none, some, arith,
}
use job_scheduler_tooling.Prelude.Int.{pos, negsuc, int64_half, eqb_ℤ}
use job_scheduler_tooling.Prelude.Partial.{Yields}
use job_scheduler_tooling.Text.Decimal.{numbered, decimal_03, decimal, digit}
use job_scheduler_tooling.Resource.{Node, new_node}
use job_scheduler_tooling.Triage.{policy_agent}
use job_scheduler_tooling.SqsQueue.{Delivery}
use job_scheduler_tooling.Dispatch.Sqs.Worker.{stalls, attempt_of, started_args}
use job_scheduler_tooling.Dispatcher.Chaos.{mark_chaos, is_chaos, chaos-stalls}
use job_scheduler_tooling.Tests.Samples.{job}
use job_scheduler_tooling.Dispatcher.{Env, answered}
use job_scheduler_tooling.Dispatcher.Drain.{Drained}
use job_scheduler_tooling.Dispatcher.Jobs
use job_scheduler_tooling.Dispatcher.Session.{run_coordinator, run_coordinator-Drained}
use job_scheduler_tooling.Scheduler.Ticks.{Orderly}
use job_scheduler_tooling.Scheduler.Workload
use job_scheduler_tooling.Scheduler.Accounts.{IsNamed}
use job_scheduler_tooling.Scheduler.Spec.{
  split, digits_from, atoi, node_of, nodes_of, parse_nodes, run_spec, HasTotals, run_spec-Orderly,
}

-- The IDs have at least three digits.
seven : numbered "inference-" 7 ≡ "inference-007"
unfolding numbered decimal_03 decimal digit
seven = refl

thousand : numbered "job-" 1024 ≡ "job-1024"
unfolding numbered decimal_03 decimal digit
thousand = refl

abbrev env : Env
env = record {
  clock = λ n. 1 + n;
  infer = λ n batch. answered false "CUDA out of memory";
  agent = policy_agent;
}

abbrev draws : ℕ → Jobs.Draw
draws k = record { size = 3; half = 0; fails = true; tier = 4 }

run_coordinator-Drained_example :
    Yields (Drained 12) (run_coordinator 40 env "worker-01" (some []) draws 1 (pos 42) 12)
run_coordinator-Drained_example =
    run_coordinator-Drained 40 env "worker-01" (some []) draws 1 (pos 42) 12 (λ k. omega arith)
      (omega arith)

abbrev arrivals : ℕ → Workload.Draw
arrivals k = record { tier = 2; size = 1; half = 1; cores = 3; arrival = 7 }

-- The default of the flag.
abbrev default_spec : String
default_spec = "node-a:16:65536:2,node-b:16:65536:2,node-c:32:131072:4"

abbrev default_nodes : List Node
default_nodes =
    new_node "node-a" (pos 16) (pos 65536) (pos 2)
    ∷ new_node "node-b" (pos 16) (pos 65536) (pos 2)
    ∷ new_node "node-c" (pos 32) (pos 131072) (pos 4)
    ∷ []

default_spec-parsed : parse_nodes default_spec ≡ some default_nodes
unfolding parse_nodes nodes_of node_of split atoi digits_from
default_spec-parsed = refl

-- A sign is read, a field that is no number refused.
signs : atoi "-12" ≡ some (negsuc 11)
unfolding atoi digits_from
signs = refl

no_number : parse_nodes "node-a:16:64GB:2" ≡ none
unfolding parse_nodes nodes_of node_of split atoi digits_from
no_number = refl

differ : (a b : String) → str_eq a b ≡ false → a ≢ b
differ a b d e = cc ((eq_iff a b).1 e, d)

default_nodes-IsNamed : IsNamed default_nodes
unfolding new_node
default_nodes-IsNamed = (
  (differ "node-a" "node-b" refl, (differ "node-a" "node-c" refl, tt)),
  ((differ "node-b" "node-c" refl, tt), (tt, tt)),
)

default_nodes-HasTotals : All HasTotals default_nodes
unfolding new_node
default_nodes-HasTotals = (
  (omega arith, omega arith, omega arith),
  ((omega arith, omega arith, omega arith), ((omega arith, omega arith, omega arith), tt)),
)

run_spec-Orderly_example : Yields Orderly (
    run_spec
      (41 * (int64_half + 6))
      arrivals
      (λ n. 5)
      (λ tick. 1 + tick)
      (pos 42)
      40
      (pos 200)
      default_spec
      none)
run_spec-Orderly_example =
    run_spec-Orderly (41 * (int64_half + 6)) arrivals (λ n. 5) (λ tick. 1 + tick) (pos 42) 40
      (pos 200) default_spec default_nodes none (λ k. (omega arith, omega arith, omega arith))
      default_spec-parsed default_nodes-IsNamed default_nodes-HasTotals (omega arith)

-- The second of the chaos jobs, one poisoned and two that hang, at its first delivery.
abbrev chaotic : Delivery
chaotic = record {
  job = mark_chaos (pos 1) (pos 2) 1 (job "inference-001" 3 1);
  tier = pos 3;
  receive_count = pos 1;
  message_id = "m-1";
}

chaos-stalls_example :
    (stalls chaotic.job (attempt_of chaotic)
      ≡ (ltb 1 1 || (ltb 1 (1 + 2) && eqb_ℤ (attempt_of chaotic) (pos 1))))
    × (is_chaos (started_args "worker-01" chaotic) ≡ stalls chaotic.job (attempt_of chaotic))
chaos-stalls_example =
    chaos-stalls 1 2 1 (job "inference-001" 3 1) "worker-01" chaotic (omega arith) (refl, refl) refl
