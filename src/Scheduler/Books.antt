-- ===== src/Scheduler/Books.antt =====
-- What is in use on one node, beside the requests of the jobs that run on it
-- (cmd/scheduler/main.go and internal/resource/resource.go).
use job_scheduler_tooling.Prelude.{
  ℕ, ◌+◌, ◌≤◌, ◌≡◌, ◌≢◌, ap, ◌∙◌, String, true, List, arith, str_eq, eq_iff, if◌then◌else◌,
  Bool-cases, inl, inr,
}
use job_scheduler_tooling.Prelude.Int.{ℤ, pos, pos_part, leb_ℤ, add64, sub64, sub64_pos}
use job_scheduler_tooling.Resource.{Requirements, Node, fits, reserve, release}
use job_scheduler_tooling.Resource.Capacity.{Amount, IsRequest, fits_one, add_one, fits_parts}
use job_scheduler_tooling.Queue.{Job}
use job_scheduler_tooling.Dispatch.Broker.Weight.{total}

-- What a job takes of one kind of resource on the node of this name.
abbrev pub share : (Requirements → ℤ) → String → Job → ℕ
share part name j = if str_eq j.node name then pos_part (part j.resources) else 0

-- `sum` is in use, within the total.
abbrev pub Holds : ℤ → ℤ → ℕ → Type 0
Holds total_is used sum = (t : ℕ) × Amount total_is t × (used ≡ pos sum) × (sum ≤ t)

reserve_one :
    (all used r : ℤ) (sum m : ℕ)
    → Holds all used sum
    → Amount r m
    → leb_ℤ r (sub64 all used) ≡ true
    → Holds all (add64 used r) (m + sum)
reserve_one all used r sum m (t, (t_is, fit), u_is, le) (r_is, small) h =
    let room : sum + m ≤ t = (fits_one t sum m le fit small).0 (rw (r_is, t_is, u_is) at h) in
    (
      t,
      (t_is, fit),
      rw (u_is, r_is) (add_one t sum m room fit ∙ ap pos (omega arith)),
      omega (arith, room),
    )

release_one :
    (all used r : ℤ) (sum m : ℕ)
    → Holds all used (m + sum)
    → Amount r m
    → Holds all (sub64 used r) sum
release_one all used r sum m (t, (t_is, fit), u_is, le) (r_is, small) = (
  t,
  (t_is, fit),
  rw (u_is, r_is)
      (sub64_pos (m + sum) m (omega arith) (omega (arith, fit, le)) ∙ ap pos (omega arith)),
  omega (arith, le),
)

-- A node has in use exactly what its jobs asked for, and no more than it has.
pub record Books (jobs : List Job) (n : Node) : Type 0 where
  pub cpu : Holds n.total_cpu n.used_cpu (total (share (λ r. r.cpu_cores) n.name) jobs)
  pub mem : Holds n.total_mem_mb n.used_mem_mb (total (share (λ r. r.memory_mb) n.name) jobs)
  pub gpu : Holds n.total_gpus n.used_gpus (total (share (λ r. r.gpus) n.name) jobs)

-- The jobs `more` are `jobs` and `j`, as far as sums show.
abbrev pub Adds : Job → List Job → List Job → Type 0
Adds j jobs more = (f : Job → ℕ) → total f more ≡ f j + total f jobs

share_self :
    (part : Requirements → ℤ) (name : String) (j : Job)
    → j.node ≡ name
    → share part name j ≡ pos_part (part j.resources)
share_self part name j e = rw ((eq_iff j.node name).1 e)

share_other :
    (part : Requirements → ℤ) (name : String) (j : Job) → j.node ≢ name → share part name j ≡ 0
share_other part name j d = elim (Bool-cases (str_eq j.node name)) [
  | inl same ↦ absurd (d ((eq_iff j.node name).0 same))
  | inr other ↦ rw other
]

pub Books-other :
    (j : Job) (jobs more : List Job) (n : Node)
    → Adds j jobs more
    → j.node ≢ n.name
    → (Books jobs n → Books more n) × (Books more n → Books jobs n)
Books-other j jobs more n a d =
    let same : (part : Requirements → ℤ)
        → total (share part n.name) more ≡ total (share part n.name) jobs =
      λ part. omega (arith, a (share part n.name), share_other part n.name j d) in
    (
      λ b. record {
        cpu = rw (same (λ r. r.cpu_cores)) b.cpu;
        mem = rw (same (λ r. r.memory_mb)) b.mem;
        gpu = rw (same (λ r. r.gpus)) b.gpu;
      },
      λ b. record {
        cpu = rw (same (λ r. r.cpu_cores)) at b.cpu;
        mem = rw (same (λ r. r.memory_mb)) at b.mem;
        gpu = rw (same (λ r. r.gpus)) at b.gpu;
      },
    )

Books-self :
    (j : Job) (jobs more : List Job) (n : Node)
    → Adds j jobs more
    → j.node ≡ n.name
    → (part : Requirements → ℤ) (m : ℕ) → Amount (part j.resources) m
    → total (share part n.name) more ≡ m + total (share part n.name) jobs
Books-self j jobs more n a e part m (is, _) =
    a (share part n.name)
    ∙ ap (λ k. k + total (share part n.name) jobs) (share_self part n.name j e ∙ ap pos_part is)

pub reserve-Books :
    (j : Job) (jobs more : List Job) (n : Node)
    → Adds j jobs more
    → j.node ≡ n.name
    → IsRequest j.resources
    → fits n j.resources ≡ true
    → Books jobs n
    → Books more (reserve n j.resources)
unfolding reserve
reserve-Books j jobs more n a e q h b =
    let (c, m, g) = (fits_parts n j.resources).0 h in
    let part_of = Books-self j jobs more n a e in
    record {
      cpu =
          rw (part_of (λ r. r.cpu_cores) q.cores q.cores_is)
            (reserve_one _ _ _ _ q.cores b.cpu q.cores_is c);
      mem =
          rw (part_of (λ r. r.memory_mb) q.memory q.memory_is)
            (reserve_one _ _ _ _ q.memory b.mem q.memory_is m);
      gpu = rw (part_of (λ r. r.gpus) q.gpu q.gpu_is) (reserve_one _ _ _ _ q.gpu b.gpu q.gpu_is g);
    }

pub release-Books :
    (j : Job) (jobs more : List Job) (n : Node)
    → Adds j jobs more
    → j.node ≡ n.name
    → IsRequest j.resources
    → Books more n
    → Books jobs (release n j.resources)
unfolding release
release-Books j jobs more n a e q b =
    let part_of = Books-self j jobs more n a e in
    record {
      cpu =
          release_one _ _ _ _ q.cores (rw (part_of (λ r. r.cpu_cores) q.cores q.cores_is) at b.cpu)
            q.cores_is;
      mem =
          release_one _ _ _ _ q.memory
            (rw (part_of (λ r. r.memory_mb) q.memory q.memory_is) at b.mem) q.memory_is;
      gpu = release_one _ _ _ _ q.gpu (rw (part_of (λ r. r.gpus) q.gpu q.gpu_is) at b.gpu) q.gpu_is;
    }
