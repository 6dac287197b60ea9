-- ===== src/Scheduler/Invariant.antt =====
-- What holds of the simulation between the steps of cmd/scheduler/main.go, with the jobs that are
-- neither queued nor running: those still to arrive, and those that wait for the next round.
use job_scheduler_tooling.Prelude.{
  ℕ, ◌+◌, ◌-◌, ◌≤◌, ◌<◌, ◌≡◌, refl, String, Bool, true, false, ◌&&◌, List, ◌∷◌, none, some, arith,
  leb, ltb, if◌then◌else◌, eq_refl, get_elem?,
}
use job_scheduler_tooling.Prelude.Int.{ℤ, pos, negsuc, pos_part, neg_part, add64, int64_half, ◌<ℤ◌}
use job_scheduler_tooling.Prelude.Dict.{
  lookup, insert, erase, IsUnique, insert-IsUnique, erase-IsUnique,
}
use job_scheduler_tooling.Resource.{Node, fits, reserve}
use job_scheduler_tooling.Resource.Capacity.{IsRequest}
use job_scheduler_tooling.Queue.{Queue, Job, Time}
use job_scheduler_tooling.Queue.Push.{IsValid, Pushed}
use job_scheduler_tooling.Queue.Pop.{Popped}
use job_scheduler_tooling.Telemetry.{Event}
use job_scheduler_tooling.Dispatch.Broker.Weight.{total, has_id}
use job_scheduler_tooling.Dispatch.Broker.Invariant.{Pushed-total, Popped-total}
use job_scheduler_tooling.Scheduler.{RunningJob}
use job_scheduler_tooling.Scheduler.Simulation.{
  Simulation, log, release_on, start_on, placed, duration,
}
use job_scheduler_tooling.Scheduler.Accounts.{
  IsNamed, Balanced, start-Balanced, release_on-Balanced, release_on-IsNamed, set-IsNamed,
}
use job_scheduler_tooling.Scheduler.Running.{
  jobs, total-insert, total-erase, IsKeyed, insert-IsKeyed, erase-IsKeyed, lookup_of_total,
}

abbrev pub is_amount : ℤ → Bool
is_amount (pos n) = ltb n int64_half
is_amount (negsuc n) = false

-- One for a job with a negative request, or with numbers that no `int` holds.
abbrev pub misfit : Job → ℕ
misfit j =
    if is_amount j.resources.cpu_cores
      && is_amount j.resources.memory_mb
      && is_amount j.resources.gpus
      && leb (neg_part j.priority) int64_half
    then 0
    else 1

-- The priority, counted from the lowest.
abbrev pub rank : Job → ℕ
rank j = pos_part j.priority + (int64_half - neg_part j.priority) + 1

IsRequest_of_misfit : (j : Job) → misfit j ≡ 0 → IsRequest j.resources
IsRequest_of_misfit j h = record {
  cores = pos_part j.resources.cpu_cores;
  memory = pos_part j.resources.memory_mb;
  gpu = pos_part j.resources.gpus;
  cores_is = ground arith;
  memory_is = ground arith;
  gpu_is = ground arith;
}

pub rank_mono : (i j : Job) → misfit i ≡ 0 → i.priority <ℤ j.priority → rank i < rank j
rank_mono i j h lt = ground arith

abbrev pub weight : (Job → ℕ) → Simulation → List Job → ℕ
weight f s held = total f s.queue.heap + (total f (jobs s.running) + total f held)

pub record Inv (bound : ℕ) (s : Simulation) (held : List Job) : Type 0 where
  pub valid : IsValid s.queue
  pub keyed : IsKeyed s.running
  pub unique : IsUnique s.running
  -- No two jobs share an ID.
  pub once : (id : String) → weight (has_id id) s held ≤ 1
  pub fit : weight misfit s held ≡ 0
  pub ranks : weight rank s held ≤ bound
  pub named : IsNamed s.pool
  -- Every node has in use what its running jobs asked for, and no more than it has.
  pub balanced : Balanced (jobs s.running) s.pool

module _ (bound : ℕ) (s : Simulation) (held : List Job) (v : Inv bound s held) where
  pub pop-Inv :
      (j : Job) (q : Queue)
      → Popped s.queue.heap j q.heap
      → Inv bound (record s { queue = q }) (j ∷ held)
  unfolding total
  pop-Inv j q p = record {
    valid = p.valid;
    keyed = v.keyed;
    unique = v.unique;
    once = λ id. omega (arith, v.once id, Popped-total (has_id id) (λ _. refl) p);
    fit = omega (arith, v.fit, Popped-total misfit (λ _. refl) p);
    ranks = omega (arith, v.ranks, Popped-total rank (λ _. refl) p);
    named = v.named;
    balanced = v.balanced;
  }

  -- A held job goes into the queue, changed in what the sums do not read.
  pub push-Inv :
      (j j' : Job) (rest : List Job) (q : Queue)
      → held ≡ j ∷ rest
      → ((id : String) → has_id id j' ≡ has_id id j)
      → misfit j' ≡ misfit j
      → rank j' ≡ rank j
      → Pushed s.queue j' q
      → Inv bound (record s { queue = q }) rest
  unfolding total
  push-Inv j j' rest q e i m r p = record {
    valid = p.valid;
    keyed = v.keyed;
    unique = v.unique;
    once = λ id. omega (arith, rw e at (v.once id), i id, Pushed-total (has_id id) (λ _. refl) p);
    fit = omega (arith, rw e at v.fit, m, Pushed-total misfit (λ _. refl) p);
    ranks = omega (arith, rw e at v.ranks, r, Pushed-total rank (λ _. refl) p);
    named = v.named;
    balanced = v.balanced;
  }

  -- Events do not matter.
  pub log-Inv : (e : Event) → Inv bound (log e s) held
  unfolding log
  log-Inv e = record {
    valid = v.valid;
    keyed = v.keyed;
    unique = v.unique;
    once = v.once;
    fit = v.fit;
    ranks = v.ranks;
    named = v.named;
    balanced = v.balanced;
  }

  -- A running job leaves its node. It is held, or gone.
  pub end-Inv :
      (id : String) (rj : RunningJob)
      → lookup id s.running ≡ some rj
      → Inv bound
          (record s {
            pool = release_on rj.job.node rj.job.resources s.pool;
            running = erase id s.running;
          })
          (rj.job ∷ held)
  unfolding total
  end-Inv id rj h =
      let lost = λ (f : Job → ℕ). total-erase f id rj s.running h in
      record {
        valid = v.valid;
        keyed = erase-IsKeyed id s.running v.keyed;
        unique = erase-IsUnique id s.running v.unique;
        once = λ k. omega (arith, v.once k, lost (has_id k));
        fit = omega (arith, v.fit, lost misfit);
        ranks = omega (arith, v.ranks, lost rank);
        named = release_on-IsNamed s.pool rj.job.node rj.job.resources v.named;
        balanced =
            release_on-Balanced rj.job (jobs (erase id s.running)) (jobs s.running) lost s.pool
              v.named (IsRequest_of_misfit rj.job (omega (arith, v.fit, lost misfit))) v.balanced;
      }

  -- A held job may be forgotten.
  pub drop-Inv : (j : Job) (rest : List Job) → held ≡ j ∷ rest → Inv bound s rest
  unfolding total
  drop-Inv j rest e = record {
    valid = v.valid;
    keyed = v.keyed;
    unique = v.unique;
    once = λ id. omega (arith, rw e at (v.once id));
    fit = omega (arith, rw e at v.fit);
    ranks = omega (arith, rw e at v.ranks);
    named = v.named;
    balanced = v.balanced;
  }

  -- The order of the jobs held does not matter.
  pub hold-Inv :
      (held' : List Job) → ((f : Job → ℕ) → total f held' ≡ total f held) → Inv bound s held'
  hold-Inv held' same = record {
    valid = v.valid;
    keyed = v.keyed;
    unique = v.unique;
    once = λ id. omega (arith, v.once id, same (has_id id));
    fit = omega (arith, v.fit, same misfit);
    ranks = omega (arith, v.ranks, same rank);
    named = v.named;
    balanced = v.balanced;
  }

  -- A held job starts on a node with room.
  pub start-Inv :
      (intn : ℕ → ℕ) (tick : ℕ) (now : Time) (j : Job) (rest : List Job) (k : ℕ) (n : Node)
      → held ≡ j ∷ rest
      → get_elem? s.pool k ≡ some n
      → fits n j.resources ≡ true
      → Inv bound (start_on intn tick now j k n s) rest
  unfolding start_on total log
  start-Inv intn tick now j rest k n e at room =
      let job : Job = placed now n.name j in
      let rj : RunningJob = record {
        job = job;
        finish_tick = add64 (pos tick) (duration j (intn s.draws));
      } in
      let count = rw e at (v.once j.id) in
      let own : has_id j.id j ≡ 1 = rw (eq_refl j.id) in
      let new : lookup j.id s.running ≡ none =
        lookup_of_total j.id s.running v.keyed (omega (arith, count, own)) in
      let added = λ (f : Job → ℕ). total-insert f j.id rj s.running new in
      record {
        valid = v.valid;
        keyed = insert-IsKeyed j.id rj s.running v.keyed refl;
        unique = insert-IsUnique j.id rj s.running v.unique;
        once = λ id. omega (arith, rw e at (v.once id), added (has_id id));
        fit = omega (arith, rw e at v.fit, added misfit);
        ranks = omega (arith, rw e at v.ranks, added rank);
        named = set-IsNamed s.pool k n (reserve n j.resources) at (unfold reserve in refl) v.named;
        balanced =
            start-Balanced job (jobs s.running) (jobs (insert j.id rj s.running)) added s.pool k n
              v.named at refl (IsRequest_of_misfit j (omega (arith, rw e at v.fit))) room
              v.balanced;
      }
