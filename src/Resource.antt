-- ===== src/Resource.antt =====
-- internal/resource/resource.go: nodes, their free capacity, and best-fit placement.
-- A `*Node` is its index in the pool. `Utilization` and `String` compute floats for printing only.
pub mod Capacity
pub mod BestFit
use job_scheduler_tooling.Prelude.{
  ℕ, suc, Bool, true, String, List, [], ◌∷◌, Option, none, some, ◌&&◌, if◌then◌else◌,
}
use job_scheduler_tooling.Prelude.Int.{ℤ, pos, negsuc, add64, sub64, ltb_ℤ, leb_ℤ}

pub record Requirements : Type 0 where
  pub cpu_cores : ℤ
  pub memory_mb : ℤ
  pub gpus : ℤ

pub record Node : Type 0 where
  pub name : String
  pub total_cpu : ℤ
  pub total_mem_mb : ℤ
  pub total_gpus : ℤ
  pub used_cpu : ℤ
  pub used_mem_mb : ℤ
  pub used_gpus : ℤ

unfoldable pub new_node : String → ℤ → ℤ → ℤ → Node
new_node name cpu mem_mb gpus = record {
  name = name;
  total_cpu = cpu;
  total_mem_mb = mem_mb;
  total_gpus = gpus;
  used_cpu = pos 0;
  used_mem_mb = pos 0;
  used_gpus = pos 0;
}

unfoldable pub fits : Node → Requirements → Bool
fits n req =
    leb_ℤ req.cpu_cores (sub64 n.total_cpu n.used_cpu)
    && leb_ℤ req.memory_mb (sub64 n.total_mem_mb n.used_mem_mb)
    && leb_ℤ req.gpus (sub64 n.total_gpus n.used_gpus)

unfoldable pub reserve : Node → Requirements → Node
reserve n req = record n {
  used_cpu = add64 n.used_cpu req.cpu_cores;
  used_mem_mb = add64 n.used_mem_mb req.memory_mb;
  used_gpus = add64 n.used_gpus req.gpus;
}

unfoldable pub release : Node → Requirements → Node
release n req = record n {
  used_cpu = sub64 n.used_cpu req.cpu_cores;
  used_mem_mb = sub64 n.used_mem_mb req.memory_mb;
  used_gpus = sub64 n.used_gpus req.gpus;
}

-- The cores that a placement would leave free.
unfoldable pub slack : Node → Requirements → ℤ
slack n req = sub64 (sub64 n.total_cpu n.used_cpu) req.cpu_cores

-- `best == nil || slack < bestSlack`
abbrev pub improves : Option ℕ → ℤ → ℤ → Bool
improves none best_slack s = true
improves (some _) best_slack s = ltb_ℤ s best_slack

-- The loop of FindFit from the node of index `i` on.
unfoldable pub find_fit_from : Requirements → List Node → ℕ → Option ℕ → ℤ → Option ℕ
find_fit_from req [] i best best_slack = best
find_fit_from req (n ∷ nodes) i best best_slack =
    let s = slack n req in
    let skip = find_fit_from req nodes (suc i) best best_slack in
    let take = find_fit_from req nodes (suc i) (some i) s in
    if fits n req then (if improves best best_slack s then take else skip) else skip

unfoldable pub find_fit : List Node → Requirements → Option ℕ
unfolding find_fit_from
find_fit nodes req = find_fit_from req nodes 0 none (negsuc 0)
