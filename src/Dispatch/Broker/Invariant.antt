-- ===== src/Dispatch/Broker/Invariant.antt =====
-- What holds of the broker between two critical sections, with the failed jobs that Report calls
-- hold while the agent decides.
use job_scheduler_tooling.Prelude.{
  ℕ, ◌+◌, ◌≤◌, ◌≡◌, refl, sym, String, Bool, true, false, List, ◌∷◌, arith, length, ◌==◌, ◌&&◌,
  Bool-cases, inl, inr, if_split,
}
use job_scheduler_tooling.Queue.{Queue, Job, len}
use job_scheduler_tooling.Queue.Swap.{plain}
use job_scheduler_tooling.Queue.Push.{IsValid, Pushed}
use job_scheduler_tooling.Queue.Pop.{Popped}
use job_scheduler_tooling.Telemetry.{Event}
use job_scheduler_tooling.Dispatch.Broker.{Broker, maybe_done, log}
use job_scheduler_tooling.Dispatch.Broker.Weight.{total, values, total-SameJobs, has_id, IsKeyed}

-- A sum over all the jobs that are not terminal: queued, running, and with the agent.
abbrev pub weight : (Job → ℕ) → Broker → List Job → ℕ
weight f b t = total f b.queue.heap + (total f (values b.running) + total f t)

pub record Core (b : Broker) (t : List Job) : Type 0 where
  pub valid : IsValid b.queue
  pub keyed : IsKeyed b.running
  -- No two jobs at work share an ID.
  pub once : (k : String) → weight (has_id k) b t ≤ 1
  -- Every submitted job is terminal, queued, running or with the agent.
  pub balance :
      b.stats.submitted
      ≡ b.stats.succeeded + b.stats.escalated + length b.queue.heap + length b.running + length t
  pub done_ok :
      b.done ≡ true
      → (b.closed ≡ true) × (b.stats.succeeded + b.stats.escalated ≡ b.stats.submitted)

-- Nothing is at work.
pub record IsIdle (b : Broker) (t : List Job) : Type 0 where
  pub queue : length b.queue.heap ≡ 0
  pub running : length b.running ≡ 0
  pub triaging : length t ≡ 0

pub record Inv (b : Broker) (t : List Job) : Type 0 where
  pub core : Core b t
  -- Once submissions are closed and nothing is at work, the channel is closed.
  pub done_all : b.closed ≡ true → IsIdle b t → b.done ≡ true

-- The test of maybeDoneLocked.
abbrev finished_test : Broker → Bool
finished_test b =
    b.closed
    && len b.queue == 0
    && length b.running == 0
    && b.stats.succeeded + b.stats.escalated == b.stats.submitted

-- maybeDoneLocked closes the channel in time.
pub maybe_done-Inv : (b : Broker) (t : List Job) → Core b t → Inv (maybe_done b) t
unfolding maybe_done len
maybe_done-Inv b t c = elim (Bool-cases (finished_test b)) [
  | inl yes_done ↦ rw yes_done (record {
    core = record {
      valid = c.valid;
      keyed = c.keyed;
      once = c.once;
      balance = c.balance;
      done_ok = λ _. ground arith;
    };
    done_all = λ _ _. refl;
  })
  | inr not_done ↦
      rw not_done
        (record { core = c; done_all = λ closed idle. absurd (open_test closed idle not_done) })
]
  where
    open_test : b.closed ≡ true → IsIdle b t → finished_test b ≡ false → ⊥
    open_test closed idle e = ground (arith, c.balance, idle.queue, idle.running, idle.triaging)

module _ (f : Job → ℕ) (h : (j : Job) → f (plain j) ≡ f j) where
  pub Pushed-total :
      {q q' : Queue} {j : Job} → Pushed q j q' → total f q'.heap ≡ f j + total f q.heap
  unfolding total
  Pushed-total {q} {q'} {j} p = total-SameJobs f q'.heap (j ∷ q.heap) h p.same

  pub Popped-total : {a b : List Job} {j : Job} → Popped a j b → total f a ≡ f j + total f b
  unfolding total
  Popped-total {a} {b} {j} p = sym (total-SameJobs f (j ∷ b) a h p.same)

pub maybe_done-stats : (b : Broker) → (maybe_done b).stats ≡ b.stats
unfolding maybe_done
maybe_done-stats b =
    if_split (λ (r : Broker). r.stats ≡ b.stats) (finished_test b) (λ _. refl) (λ _. refl)

pub maybe_done-queue : (b : Broker) → (maybe_done b).queue ≡ b.queue
unfolding maybe_done
maybe_done-queue b =
    if_split (λ (r : Broker). r.queue ≡ b.queue) (finished_test b) (λ _. refl) (λ _. refl)

pub maybe_done-running : (b : Broker) → (maybe_done b).running ≡ b.running
unfolding maybe_done
maybe_done-running b =
    if_split (λ (r : Broker). r.running ≡ b.running) (finished_test b) (λ _. refl) (λ _. refl)

-- Events do not matter to the invariant.
pub log-Inv : (b : Broker) (t : List Job) (e : Event) → Inv b t → Inv (log b e) t
unfolding log
log-Inv b t e v = record {
  core = record {
    valid = v.core.valid;
    keyed = v.core.keyed;
    once = v.core.once;
    balance = v.core.balance;
    done_ok = v.core.done_ok;
  };
  done_all =
      λ c i. v.done_all c (record { queue = i.queue; running = i.running; triaging = i.triaging });
}
