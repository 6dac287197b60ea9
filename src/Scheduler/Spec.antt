-- ===== src/Scheduler/Spec.antt =====
-- parseNodes of cmd/scheduler/main.go: the nodes that a flag describes, and main from there on.
use job_scheduler_tooling.Prelude.{
  ℕ, zero, suc, ◌+◌, ◌-◌, ◌*◌, ◌≤◌, ◌<◌, ◌≡◌, refl, subst, String, ◌&&◌, List, [], ◌∷◌, Option,
  none, some, arith, ◌==◌, leb, ltb, if◌then◌else◌, if_split, All,
}
use Prim.Native.Char.{code}
use Prim.Native.Char.{Char}
use job_scheduler_tooling.Prelude.Int.{ℤ, pos, negsuc, pos_part, int64_half, IsInt64, ◌≤ℤ◌}
use job_scheduler_tooling.Prelude.Partial.{Yields, IfSome, IfSome-then, IfSome-chain, ◌>>=◌}
use job_scheduler_tooling.Resource.{Node, new_node}
use job_scheduler_tooling.Queue.{Time}
use job_scheduler_tooling.Telemetry.{Recorder}
use job_scheduler_tooling.Dispatch.Broker.Weight.{total}
use job_scheduler_tooling.Scheduler.Simulation.{Simulation}
use job_scheduler_tooling.Scheduler.Books.{Books, Holds}
use job_scheduler_tooling.Scheduler.Accounts.{IsNamed, Balanced}
use job_scheduler_tooling.Scheduler.Ticks.{Orderly}
use job_scheduler_tooling.Scheduler.Workload.{Draw, InRange, run_main, run_main-Orderly}

abbrev attach : Char → List String → List String
attach c [] = String.◌∷◌ c "" ∷ []
attach c (t ∷ ts) = String.◌∷◌ c t ∷ ts

-- strings.Split at one ASCII character.
unfoldable pub split : ℕ → String → List String
split sep String.[] = "" ∷ []
split sep (String.◌∷◌ c s) =
    let rest = split sep s in if code c == sep then "" ∷ rest else attach c rest

-- strconv.Atoi: a sign or none, digits, and a number that an `int` holds.
unfoldable pub digits_from : ℕ → String → Option ℕ
digits_from n String.[] = some n
digits_from n (String.◌∷◌ c s) =
    let rest = digits_from (n * 10 + (code c - b'0')) s in
    if leb b'0' (code c) && leb (code c) b'9' then rest else none

abbrev unsigned : String → Option ℕ
unsigned String.[] = none
unsigned (String.◌∷◌ c s) = digits_from 0 (String.◌∷◌ c s)

abbrev minus : ℕ → ℤ
minus zero = pos 0
minus (suc n) = negsuc n

abbrev positive : ℕ → Option ℤ
positive n = if ltb n int64_half then some (pos n) else none

abbrev negative : ℕ → Option ℤ
negative n = if leb n int64_half then some (minus n) else none

unfoldable pub atoi : String → Option ℤ
atoi String.[] = none
atoi (String.◌∷◌ c s) =
    if code c == b'-'
    then unsigned s >>= negative
    else if code c == b'+'
    then unsigned s >>= positive
    else unsigned (String.◌∷◌ c s) >>= positive

-- The fields of one node.
unfoldable pub node_of : List String → Option Node
node_of (name ∷ cpu ∷ mem_mb ∷ gpus ∷ []) = do
  c ← atoi cpu
  m ← atoi mem_mb
  g ← atoi gpus
  some (new_node name c m g)
node_of _ = none

unfoldable pub nodes_of : List String → Option (List Node)
nodes_of [] = some []
nodes_of (part ∷ parts) = do n ← node_of (split b':' part); nodes ← nodes_of parts; some (n ∷ nodes)

unfoldable pub parse_nodes : String → Option (List Node)
parse_nodes spec = nodes_of (split b',' spec)

-- main: a bad spec is fatal.
unfoldable pub run_spec :
    ℕ → (ℕ → Draw) → (ℕ → ℕ) → (ℕ → Time) → ℤ → ℕ → ℤ → String → Recorder → Option Simulation
run_spec fuel draws intn clock seed num_jobs max_ticks spec recorder = parse_nodes spec >>= λ nodes.
    run_main fuel draws intn clock seed num_jobs max_ticks nodes recorder

-- A node with nothing in use, its totals numbers of `int`.
record IsIdle (n : Node) : Type 0 where
  cpu : IsInt64 n.total_cpu × (n.used_cpu ≡ pos 0)
  mem : IsInt64 n.total_mem_mb × (n.used_mem_mb ≡ pos 0)
  gpu : IsInt64 n.total_gpus × (n.used_gpus ≡ pos 0)

positive-IsInt64 : (n : ℕ) → IfSome IsInt64 (positive n)
positive-IsInt64 n =
    if_split (IfSome IsInt64) (ltb n int64_half) (λ lt. ground (arith, lt)) (λ _. tt)

minus-IsInt64 : (n : ℕ) → n ≤ int64_half → IsInt64 (minus n)
minus-IsInt64 zero le = (omega arith, omega arith)
minus-IsInt64 (suc n) le = (omega arith, omega (arith, le))

negative-IsInt64 : (n : ℕ) → IfSome IsInt64 (negative n)
negative-IsInt64 n =
    if_split (IfSome IsInt64) (leb n int64_half) (λ le. minus-IsInt64 n (ground (arith, le)))
      (λ _. tt)

atoi-IsInt64 : (s : String) → IfSome IsInt64 (atoi s)
unfolding atoi
atoi-IsInt64 String.[] = tt
atoi-IsInt64 (String.◌∷◌ c s) =
    if_split (IfSome IsInt64) (code c == b'-')
      (λ _. IfSome-then IsInt64 (unsigned s) negative negative-IsInt64)
      (λ _.
        if_split (IfSome IsInt64) (code c == b'+')
          (λ _. IfSome-then IsInt64 (unsigned s) positive positive-IsInt64)
          (λ _. IfSome-then IsInt64 (unsigned (String.◌∷◌ c s)) positive positive-IsInt64))

node_of-IsIdle : (fields : List String) → IfSome IsIdle (node_of fields)
unfolding node_of new_node
node_of-IsIdle (name ∷ cpu ∷ mem_mb ∷ gpus ∷ []) =
    IfSome-chain IsInt64 IsIdle (atoi cpu) _ (atoi-IsInt64 cpu) (λ c c_fits.
      IfSome-chain IsInt64 IsIdle (atoi mem_mb) _ (atoi-IsInt64 mem_mb) (λ m m_fits.
        IfSome-chain IsInt64 IsIdle (atoi gpus) _ (atoi-IsInt64 gpus) (λ g g_fits. record {
          cpu = (c_fits, refl);
          mem = (m_fits, refl);
          gpu = (g_fits, refl);
        })))
node_of-IsIdle [] = tt
node_of-IsIdle (a ∷ []) = tt
node_of-IsIdle (a ∷ b ∷ []) = tt
node_of-IsIdle (a ∷ b ∷ c ∷ []) = tt
node_of-IsIdle (a ∷ b ∷ c ∷ d ∷ e ∷ fields) = tt

nodes_of-IsIdle : (parts : List String) → IfSome (All IsIdle) (nodes_of parts)
unfolding nodes_of
nodes_of-IsIdle [] = tt
nodes_of-IsIdle (part ∷ parts) =
    IfSome-chain IsIdle (All IsIdle) (node_of (split b':' part)) _
      (node_of-IsIdle (split b':' part))
      (λ n idle.
        IfSome-chain (All IsIdle) (All IsIdle) (nodes_of parts) _ (nodes_of-IsIdle parts)
          (λ nodes all. (idle, all)))

-- No negative total.
abbrev pub HasTotals : Node → Type 0
HasTotals n = (pos 0 ≤ℤ n.total_cpu) × (pos 0 ≤ℤ n.total_mem_mb) × (pos 0 ≤ℤ n.total_gpus)

IsIdle-Books : (n : Node) → IsIdle n → HasTotals n → Books [] n
unfolding total
IsIdle-Books n idle (cpu, mem, gpu) = record {
  cpu = holds n.total_cpu n.used_cpu idle.cpu.0 idle.cpu.1 cpu;
  mem = holds n.total_mem_mb n.used_mem_mb idle.mem.0 idle.mem.1 mem;
  gpu = holds n.total_gpus n.used_gpus idle.gpu.0 idle.gpu.1 gpu;
}
  where
    holds : (all used : ℤ) → IsInt64 all → used ≡ pos 0 → pos 0 ≤ℤ all → Holds all used 0
    holds all used fits none_used le =
        (pos_part all, (ground arith, ground arith), none_used, omega arith)

Balanced-new : (nodes : List Node) → All IsIdle nodes → All HasTotals nodes → Balanced [] nodes
Balanced-new [] idle totals = tt
Balanced-new (n ∷ nodes) (one, idle) (here, totals) =
    (IsIdle-Books n one here, Balanced-new nodes idle totals)

-- What a computation that gives this value yields.
at_value {ℓ κ} :
    {A : Type ℓ} (P : A → Type κ) (m : Option A) (a : A) → IfSome P m → m ≡ some a → P a
at_value P none a h e = cc
at_value P (some b) a h e = let same : b ≡ a = cc in subst P same h

-- From the flags on: where parseNodes takes the spec, and its nodes have names of their own and no
-- negative total, the scheduler never panics or fails, whatever is drawn, its loop over the queue ends
-- in every tick, and at the end the queue is a heap with its positions, no job is in the simulation
-- twice, and every node has in use exactly what the jobs that run there asked for, within its totals.
pub run_spec-Orderly :
    (fuel : ℕ) (draws : ℕ → Draw) (intn : ℕ → ℕ) (clock : ℕ → Time) (seed : ℤ) (num_jobs : ℕ)
    (max_ticks : ℤ) (spec : String) (nodes : List Node) (recorder : Recorder)
    → ((k : ℕ) → InRange (draws k))
    → parse_nodes spec ≡ some nodes
    → IsNamed nodes
    → All HasTotals nodes
    → num_jobs * (int64_half + 6) < fuel
    → Yields Orderly (run_spec fuel draws intn clock seed num_jobs max_ticks spec recorder)
unfolding run_spec parse_nodes
run_spec-Orderly fuel draws intn clock seed num_jobs max_ticks spec nodes recorder ok parsed named
      totals enough =
    let idle =
      at_value (All IsIdle) (parse_nodes spec) nodes (nodes_of-IsIdle (split b',' spec)) parsed in
    rw (parse_nodes, parsed)
      (run_main-Orderly fuel draws intn clock seed num_jobs max_ticks nodes recorder ok named
        (Balanced-new nodes idle totals) enough)
