-- ===== src/Scheduler/Rounds.antt =====
-- The loop that places the queued jobs (cmd/scheduler/main.go).
use job_scheduler_tooling.Prelude.{
  ℕ, zero, suc, ◌+◌, ◌≤◌, ◌<◌, ◌≡◌, refl, true, false, List, [], ◌∷◌, ◌++◌, Option, none, some,
  arith, inl, inr, ◌==◌, get_elem?,
}
use job_scheduler_tooling.Prelude.Int.{◌<ℤ◌}
use job_scheduler_tooling.Prelude.Dict.{lookup}
use job_scheduler_tooling.Prelude.Partial.{Yields, yields, Yields-then, Yields-branch}
use job_scheduler_tooling.Resource.{Node, fits, find_fit}
use job_scheduler_tooling.Resource.BestFit.{find_fit-Outcome}
use job_scheduler_tooling.Queue.{Queue, Job, Time, len}
use job_scheduler_tooling.Queue.Push.{push-Pushed}
use job_scheduler_tooling.Queue.Pop.{PopResult, pop-PopResult}
use job_scheduler_tooling.Dispatch.Broker.Weight.{total, total-append}
use job_scheduler_tooling.Dispatch.Broker.Invariant.{Pushed-total, Popped-total}
use job_scheduler_tooling.Scheduler.{RunningJob, find_preemption_victim}
use job_scheduler_tooling.Scheduler.Preemption.{IsLowest, find_preemption_victim-IsLowest}
use job_scheduler_tooling.Scheduler.Simulation.{
  Simulation, log, short_event, preempt, preempt_for, preempted, find_node, settle_job,
  place_popped, place_all, push_all, running_jobs, start_on,
}
use job_scheduler_tooling.Scheduler.Running.{lookup_of_found}
use job_scheduler_tooling.Scheduler.Invariant.{
  Inv, rank, rank_mono, pop-Inv, push-Inv, log-Inv, end-Inv, hold-Inv, start-Inv,
}

-- A job in hand, with the node found for it: the queue has grown by less than the job's rank.
record InHand (bound r : ℕ) (j : Job) (held : List Job) (x : Simulation × Option ℕ) : Type 0 where
  inv : Inv bound x.0 (j ∷ held)
  room : elim x.1 as (λ _. Type 0) [
    | none ↦ Unit
    | some k ↦ (n : Node) × (get_elem? x.0.pool k ≡ some n) × (fits n j.resources ≡ true)
  ]
  less : total rank x.0.queue.heap < r + rank j

found_room :
    (bound r : ℕ) (j : Job) (held : List Job) (s : Simulation)
    → Inv bound s (j ∷ held)
    → total rank s.queue.heap < r + rank j
    → (o : Option ℕ) → find_fit s.pool j.resources ≡ o
    → InHand bound r j held (s, o)
found_room bound r j held s v lt none e = record { inv = v; room = tt; less = lt }
found_room bound r j held s v lt (some k) e = elim (find_fit-Outcome s.pool j.resources) [
  | inl (is_none, _) ↦ cc (is_none, e)
  | inr (i, n, is, best) ↦
      let same : i ≡ k = ground (arith, is, e) in
      record { inv = v; room = (n, rw (← same) best.here, best.fit); less = lt }
]

preempt-InHand :
    (bound r : ℕ) (now : Time) (j : Job) (held : List Job) (s : Simulation) (victim : RunningJob)
    → Inv bound s (j ∷ held)
    → total rank s.queue.heap ≤ r
    → lookup victim.job.id s.running ≡ some victim
    → victim.job.priority <ℤ j.priority
    → Yields (InHand bound r j held) (preempt_for now j s (some victim))
unfolding preempt_for preempt log total
preempt-InHand bound r now j held s victim v le here lower =
    let ended = end-Inv bound s (j ∷ held) v victim.job.id victim here in
    let small = rank_mono victim.job j (omega (arith, ended.fit)) lower in
    let e = short_event now victim.job "preempted" victim.job.node in
    Yields-then
      {P = λ (x : Simulation). Inv bound x (j ∷ held) × (total rank x.queue.heap < r + rank j)}
      (Yields-then (push-Pushed s.queue (preempted now victim.job) v.valid) (λ q p. yields (
        push-Inv bound _ _ (log-Inv bound _ _ ended e) victim.job (preempted now victim.job)
            (j ∷ held) q refl (λ id. refl) refl refl p,
        omega (arith, le, small, Pushed-total rank (λ _. refl) p),
      )))
      (λ s' (inv, less).
        yields (found_room bound r j held s' inv less (find_fit s'.pool j.resources) refl))

-- A job that fits nowhere may take the place of one of lower priority.
find_node-InHand :
    (bound r : ℕ) (now : Time) (j : Job) (held : List Job) (s : Simulation)
    → Inv bound s (j ∷ held)
    → total rank s.queue.heap ≤ r
    → (o : Option ℕ) → find_fit s.pool j.resources ≡ o
    → Yields (InHand bound r j held) (find_node now j s o)
unfolding find_node preempt_for
find_node-InHand bound r now j held s v le (some k) e =
    yields (found_room bound r j held s v (omega (arith, le)) (some k) e)
find_node-InHand bound r now j held s v le none e =
    chosen (find_preemption_victim (running_jobs s.running) j)
      (find_preemption_victim-IsLowest (running_jobs s.running) j)
  where
    chosen :
        (o : Option RunningJob)
        → IsLowest j (running_jobs s.running) o
        → Yields (InHand bound r j held) (preempt_for now j s o)
    chosen none low = yields (found_room bound r j held s v (omega (arith, le)) none e)
    chosen (some victim) ((before, after, at), lower, _) =
        preempt-InHand bound r now j held s victim v le
          (lookup_of_found s.running before after victim v.keyed v.unique at) lower

-- What a round leaves: its job is placed or waits, and the queue has shrunk by rank.
abbrev pub Shrinks : ℕ → ℕ → List Job → Simulation × List Job → Type 0
Shrinks bound r held (s, waiting) = Inv bound s (waiting ++ held) × (total rank s.queue.heap < r)

settle_job-Shrinks :
    (bound r : ℕ) (intn : ℕ → ℕ) (tick : ℕ) (now : Time) (j : Job) (held : List Job)
    (x : Simulation × Option ℕ)
    → InHand bound r j held x
    → Yields (Shrinks bound (r + rank j) held) (settle_job intn tick now j x)
unfolding settle_job log
settle_job-Shrinks bound r intn tick now j held (s, none) h =
    yields (log-Inv bound s (j ∷ held) h.inv (short_event now j "wait_reason" ""), h.less)
settle_job-Shrinks bound r intn tick now j held (s, some k) h =
    let (n, at, room) = h.room in
    rw at (
      yields (
        start-Inv bound s (j ∷ held) h.inv intn tick now j held k n refl at room,
        unfold start_on in h.less,
      ))

place_popped-Shrinks :
    (bound : ℕ) (intn : ℕ → ℕ) (tick : ℕ) (now : Time) (held : List Job) (s : Simulation)
    → Inv bound s held
    → ((len s.queue == 0) ≡ false)
    → (x : Option Job × Queue) → PopResult s.queue x
    → Yields (Shrinks bound (total rank s.queue.heap) held) (place_popped intn tick now s x)
unfolding place_popped len
place_popped-Shrinks bound intn tick now held s v full (none, q) (is_empty, _) =
    absurd (ground arith)
place_popped-Shrinks bound intn tick now held s v full (some j, q) p =
    let taken : total rank s.queue.heap ≡ total rank q.heap + rank j =
      omega (arith, Popped-total rank (λ _. refl) p) in
    rw taken (
      Yields-then
        (find_node-InHand bound (total rank q.heap) now j held (record s { queue = q })
          (pop-Inv bound s held v j q p) (omega arith) (find_fit s.pool j.resources) refl)
        (settle_job-Shrinks bound (total rank q.heap) intn tick now j held))

-- With more fuel than the ranks of the queue's jobs add up to, the loop ends, and empties the queue.
pub place_all-Empties :
    (bound : ℕ) (intn : ℕ → ℕ) (tick : ℕ) (now : Time) (held : List Job) (fuel : ℕ)
    (requeue : List Job) (s : Simulation)
    → Inv bound s (requeue ++ held)
    → total rank s.queue.heap < fuel
    → Yields
        (λ (x : Simulation × List Job). Inv bound x.0 (x.1 ++ held) × (len x.0.queue ≡ 0))
        (place_all fuel intn tick now requeue s)
unfolding place_all
place_all-Empties bound intn tick now held zero requeue s v enough = absurd (omega (arith, enough))
place_all-Empties bound intn tick now held (suc fuel) requeue s v enough =
    Yields-branch (len s.queue == 0) (λ e. yields (v, ground (arith, e)))
      (λ full. Yields-then (pop-PopResult s.queue v.valid) (λ x p.
        Yields-then (place_popped-Shrinks bound intn tick now (requeue ++ held) s v full x p)
          (λ (s', waiting) (inv, less).
            place_all-Empties bound intn tick now held fuel (requeue ++ waiting) s'
              (hold-Inv bound s' _ inv _ (λ f. omega (
                arith,
                total-append f waiting (requeue ++ held),
                total-append f requeue held,
                total-append f (requeue ++ waiting) held,
                total-append f requeue waiting,
              )))
              (omega (arith, enough, less)))))

pub push_all-Inv :
    (bound : ℕ) (held requeue : List Job) (s : Simulation)
    → Inv bound s (requeue ++ held)
    → Yields (λ (x : Simulation). Inv bound x held) (push_all requeue s)
unfolding push_all
push_all-Inv bound held [] s v = yields v
push_all-Inv bound held (j ∷ requeue) s v = Yields-then (push-Pushed s.queue j v.valid) (λ q p.
    push_all-Inv bound held requeue (record s { queue = q })
      (push-Inv bound s _ v j j (requeue ++ held) q refl (λ _. refl) refl refl p))
