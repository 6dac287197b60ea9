-- ===== src/Scheduler/Ticks.antt =====
-- The tick loop of cmd/scheduler/main.go: it never panics, and the nodes' books balance after each
-- tick.
use job_scheduler_tooling.Prelude.{
  ℕ, zero, suc, ◌+◌, ◌≤◌, ◌<◌, ◌≡◌, refl, ap, ◌∙◌, String, true, false, List, [], ◌∷◌, ◌++◌, none,
  some, arith, inl, inr, Bool-cases, ◌==◌, ltb, if◌then◌else◌, if_split,
}
use job_scheduler_tooling.Prelude.Int.{ℤ, pos, pos_part, eqb_ℤ}
use job_scheduler_tooling.Prelude.Dict.{Dict, lookup, IsUnique}
use job_scheduler_tooling.Prelude.Partial.{Yields, yields, Yields-then, Yields-weaken}
use job_scheduler_tooling.Queue.{Job, Time, new}
use job_scheduler_tooling.Queue.Push.{IsValid, new-IsValid, push-Pushed}
use job_scheduler_tooling.Dispatch.Broker.Weight.{total, total-append, has_id}
use job_scheduler_tooling.Scheduler.{RunningJob}
use job_scheduler_tooling.Scheduler.Simulation.{
  PendingSubmit, Simulation, log, simulation_event, arrived, submit_one, submit_arrivals,
  complete_one, complete_due, tick_once, start, run_ticks, simulate,
}
use job_scheduler_tooling.Resource.{Node}
use job_scheduler_tooling.Telemetry.{Recorder}
use job_scheduler_tooling.Scheduler.Accounts.{IsNamed, Balanced}
use job_scheduler_tooling.Scheduler.Running.{jobs, Found, Found-self, Found-erase}
use job_scheduler_tooling.Scheduler.Invariant.{
  Inv, misfit, rank, push-Inv, log-Inv, end-Inv, drop-Inv, hold-Inv,
}
use job_scheduler_tooling.Scheduler.Rounds.{place_all-Empties, push_all-Inv}

-- The jobs that arrive at the tick, and those that arrive at it or later.
abbrev due : ℕ → List PendingSubmit → List Job
due tick [] = []
due tick (p ∷ to_submit) =
    if p.arrival_tick == tick then p.job ∷ due tick to_submit else due tick to_submit

abbrev pub later : ℕ → List PendingSubmit → List Job
later tick [] = []
later tick (p ∷ to_submit) =
    if ltb p.arrival_tick tick then later tick to_submit else p.job ∷ later tick to_submit

total-later :
    (f : Job → ℕ) (tick : ℕ) (ps : List PendingSubmit)
    → total f (due tick ps) + total f (later (tick + 1) ps) ≡ total f (later tick ps)
unfolding total
total-later f tick [] = refl
total-later f tick (p ∷ ps) = elim (Bool-cases (p.arrival_tick == tick)) [
  | inl same ↦
      let kept : ltb p.arrival_tick tick ≡ false = ground (arith, same) in
      let gone : ltb p.arrival_tick (tick + 1) ≡ true = ground (arith, same) in
      rw (same, kept, gone) (omega (arith, total-later f tick ps))
  | inr other ↦
      let alike : ltb p.arrival_tick (tick + 1) ≡ ltb p.arrival_tick tick = ground (arith, other) in
      elim (Bool-cases (ltb p.arrival_tick tick)) [
        | inl past ↦ rw (other, alike, past) (total-later f tick ps)
        | inr ahead ↦ rw (other, alike, ahead) (omega (arith, total-later f tick ps))
      ]
]

submit_one-Inv :
    (bound : ℕ) (now : Time) (j : Job) (held : List Job) (s : Simulation)
    → Inv bound s (j ∷ held)
    → Yields (λ (x : Simulation). Inv bound x held) (submit_one now j s)
unfolding submit_one
submit_one-Inv bound now j held s v =
    Yields-then (push-Pushed s.queue (arrived now j) v.valid) (λ q p. yields (
      log-Inv bound _ _ (push-Inv bound s _ v j (arrived now j) held q refl (λ _. refl) refl refl p)
        (simulation_event now (arrived now j) "submitted" "")))

submit_arrivals-Inv :
    (bound tick : ℕ) (now : Time) (held : List Job) (ps : List PendingSubmit) (s : Simulation)
    → Inv bound s (due tick ps ++ held)
    → Yields (λ (x : Simulation). Inv bound x held) (submit_arrivals tick now ps s)
unfolding submit_arrivals
submit_arrivals-Inv bound tick now held [] s v = yields v
submit_arrivals-Inv bound tick now held (p ∷ ps) s v = elim (Bool-cases (p.arrival_tick == tick)) [
  | inl same ↦ rw same (
      Yields-then (submit_one-Inv bound now p.job (due tick ps ++ held) s (rw same at v))
        (submit_arrivals-Inv bound tick now held ps))
  | inr other ↦ rw other (submit_arrivals-Inv bound tick now held ps s (rw other at v))
]

complete_one-Inv :
    (bound tick : ℕ) (now : Time) (held : List Job) (id : String) (rj : RunningJob) (s : Simulation)
    → Inv bound s held
    → lookup id s.running ≡ some rj
    → Inv bound (complete_one tick now id rj s) held
unfolding complete_one
complete_one-Inv bound tick now held id rj s v h =
    if_split (λ (x : Simulation). Inv bound x held) (eqb_ℤ rj.finish_tick (pos tick))
      (λ _.
        log-Inv bound _ _ (drop-Inv bound _ _ (end-Inv bound s held v id rj h) rj.job held refl)
          (simulation_event now (record rj.job { id = id }) "completed" rj.job.node))
      (λ _. v)

complete_one-Found :
    (tick : ℕ) (now : Time) (id : String) (rj : RunningJob) (rest : Dict RunningJob)
    (s : Simulation)
    → lookup id rest ≡ none
    → Found s.running rest
    → Found (complete_one tick now id rj s).running rest
unfolding complete_one log
complete_one-Found tick now id rj rest s new found =
    if_split (λ (x : Simulation). Found x.running rest) (eqb_ℤ rj.finish_tick (pos tick))
      (λ _. Found-erase s.running rest id new found) (λ _. found)

complete_due-Inv :
    (bound tick : ℕ) (now : Time) (held : List Job) (rest : Dict RunningJob) (s : Simulation)
    → Inv bound s held
    → IsUnique rest
    → Found s.running rest
    → Inv bound (complete_due tick now rest s) held
unfolding complete_due IsUnique
complete_due-Inv bound tick now held [] s v u found = v
complete_due-Inv bound tick now held ((id, rj) ∷ rest) s v (new, u) (here, found) =
    complete_due-Inv bound tick now held rest (complete_one tick now id rj s)
      (complete_one-Inv bound tick now held id rj s v here) u
      (complete_one-Found tick now id rj rest s new found)

-- One tick, with more fuel than the ranks of all the jobs add up to.
pub tick_once-Inv :
    (bound fuel : ℕ) (intn : ℕ → ℕ) (clock : ℕ → Time) (ps : List PendingSubmit) (tick : ℕ)
    (s : Simulation)
    → Inv bound s (later tick ps)
    → bound < fuel
    → Yields
        (λ (x : Simulation). Inv bound x (later (tick + 1) ps))
        (tick_once fuel intn clock ps tick s)
unfolding tick_once
tick_once-Inv bound fuel intn clock ps tick s v enough =
    let held = later (tick + 1) ps in
    let now = clock tick in
    let begun =
      hold-Inv bound s _ v (due tick ps ++ held)
        (λ f. total-append f (due tick ps) held ∙ total-later f tick ps) in
    Yields-then (submit_arrivals-Inv bound tick now held ps s begun) (λ s₁ v₁.
      let v₂ =
        complete_due-Inv bound tick now held s₁.running s₁ v₁ v₁.unique
          (Found-self s₁.running v₁.unique) in
      Yields-then
        (place_all-Empties bound intn tick now held fuel [] (complete_due tick now s₁.running s₁) v₂
          (omega (arith, v₂.ranks, enough)))
        (λ (s₃, requeue) (v₃, _). push_all-Inv bound held requeue s₃ v₃))

run_ticks-Inv :
    (bound fuel : ℕ) (intn : ℕ → ℕ) (clock : ℕ → Time) (ps : List PendingSubmit) (ticks tick : ℕ)
    (s : Simulation)
    → Inv bound s (later tick ps)
    → bound < fuel
    → Yields
        (λ (x : Simulation). Inv bound x (later (tick + ticks) ps))
        (run_ticks ticks fuel intn clock ps tick s)
unfolding run_ticks
run_ticks-Inv bound fuel intn clock ps zero tick s v enough =
    let same : tick + 0 ≡ tick = omega arith in rw same (yields v)
run_ticks-Inv bound fuel intn clock ps (suc ticks) tick s v enough =
    let sum : tick + 1 + ticks ≡ tick + suc ticks = omega arith in
    Yields-then (tick_once-Inv bound fuel intn clock ps tick s v enough)
      (λ s' v'. rw (← sum) (run_ticks-Inv bound fuel intn clock ps ticks (tick + 1) s' v' enough))

abbrev pub submitted : List PendingSubmit → List Job
submitted [] = []
submitted (p ∷ to_submit) = p.job ∷ submitted to_submit

later_first : (ps : List PendingSubmit) → later 0 ps ≡ submitted ps
later_first [] = refl
later_first (p ∷ ps) =
    let none_past : ltb p.arrival_tick 0 ≡ false = ground arith in
    rw none_past (ap (◌∷◌ p.job) (later_first ps))

-- What the tick loop keeps: the queue is a heap with its positions, no job is there twice, queued or
-- running, and every node has in use what the jobs running on it asked for, within what it has.
pub record Orderly (s : Simulation) : Type 0 where
  pub valid : IsValid s.queue
  pub once : (id : String) → total (has_id id) s.queue.heap + total (has_id id) (jobs s.running) ≤ 1
  pub balanced : Balanced (jobs s.running) s.pool

-- Of jobs with IDs of their own and numbers in the range of int, none of them a negative request, on
-- nodes with names of their own and nothing in use: the simulation never panics, its loop over the
-- queue ends in every tick, after fewer rounds than the jobs' priorities add up to, each counted from
-- the lowest int and one more, and after any number of ticks the queue is a heap with its positions,
-- no job is in the simulation twice, and every node has in use exactly what the jobs that run there
-- asked for, within what the node has.
pub simulate-Orderly :
    (max_ticks : ℤ) (fuel : ℕ) (intn : ℕ → ℕ) (clock : ℕ → Time) (to_submit : List PendingSubmit)
    (nodes : List Node) (recorder : Recorder)
    → ((id : String) → total (has_id id) (submitted to_submit) ≤ 1)
    → total misfit (submitted to_submit) ≡ 0
    → IsNamed nodes
    → Balanced [] nodes
    → total rank (submitted to_submit) < fuel
    → Yields Orderly (simulate max_ticks fuel intn clock to_submit nodes recorder)
unfolding simulate
simulate-Orderly max_ticks fuel intn clock to_submit nodes recorder once fit named free enough =
    let all = submitted to_submit in
    let begun : Inv (total rank all) (start nodes recorder) (later 0 to_submit) =
      rw (later_first to_submit) (record {
        valid = new-IsValid;
        keyed = tt;
        unique = unfold IsUnique in tt;
        once = λ id. unfold new total in omega (arith, once id);
        fit = unfold new total in omega (arith, fit);
        ranks = unfold new total in omega arith;
        named = named;
        balanced = free;
      }) in
    Yields-weaken
      (run_ticks-Inv (total rank all) fuel intn clock to_submit (pos_part max_ticks) 0
        (start nodes recorder) begun enough)
      (λ s v. record {
        valid = v.valid;
        once = λ id. omega (arith, v.once id);
        balanced = v.balanced;
      })
