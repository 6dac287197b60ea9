-- ===== src/Dispatch/Broker/Claim.antt =====
-- Claim: the job it hands out, and when it tells a worker to wait or to stop.
use job_scheduler_tooling.Prelude.{
  ◌≡◌, refl, String, true, false, List, Option, none, some, arith, ◌&&◌, ◌==◌, Bool-cases, inl, inr,
  length, eq_refl, ◌↔◌,
}
use job_scheduler_tooling.Prelude.Dict.{lookup, insert, lookup-insert, length-insert_new}
use job_scheduler_tooling.Prelude.Partial.{Yields, yields, Yields-then, Yields-branch}
use job_scheduler_tooling.Queue.{Queue, Job, Time, len}
use job_scheduler_tooling.Queue.Pop.{Popped, PopResult, pop-PopResult}
use job_scheduler_tooling.Dispatch.Broker.{
  Broker, ClaimReply, log, claimed, claim_empty, assign, maybe_done, claim,
}
use job_scheduler_tooling.Dispatch.Broker.Weight.{
  has_id, total-insert, insert-IsKeyed, lookup_of_total,
}
use job_scheduler_tooling.Dispatch.Broker.Invariant.{
  Core, Inv, maybe_done-Inv, maybe_done-queue, maybe_done-running, Popped-total,
}

-- A claimed job: it was in the queue, no queued job precedes it, it is now running under its ID,
-- and no other job has it.
pub record Assigned (worker : String) (now : Time) (b : Broker) (t : List Job) (b' : Broker)
    (job : Job) : Type 0 where
  pub inv : Inv b' t
  pub taken : Job
  pub popped : Popped b.queue.heap taken b'.queue.heap
  pub job_is : job ≡ claimed worker now taken
  pub unheld : lookup taken.id b.running ≡ none
  pub running_is : b'.running ≡ insert taken.id job b.running
  pub held : lookup job.id b'.running ≡ some job

-- The three replies of Claim.
abbrev pub ClaimResult : String → Time → Broker → List Job → Broker × ClaimReply → Type 0
ClaimResult worker now b t (b', r) = elim r.job [
  | some job ↦ (r.wait ≡ false) × (r.shutdown ≡ false) × Assigned worker now b t b' job
  | none ↦
      Inv b' t
      × (length b.queue.heap ≡ 0)
      × ((r.shutdown ≡ true) ↔ ((b.closed ≡ true) × (length b.running ≡ 0)))
      × ((r.wait ≡ true) ↔ (r.shutdown ≡ false))
      × (b'.queue ≡ b.queue)
      × (b'.running ≡ b.running)
]

module _ (worker : String) (now : Time) (b : Broker) (t : List Job) (v : Inv b t) where
  -- The ID of a queued job is no key of the running ones.
  Popped-not_running :
      (taken : Job) (h : List Job) → Popped b.queue.heap taken h → lookup taken.id b.running ≡ none
  Popped-not_running taken h p = lookup_of_total taken.id b.running v.core.keyed (
      ground (
        arith,
        v.core.once taken.id,
        Popped-total (has_id taken.id) (λ _. refl) p,
        eq_refl taken.id,
      ))

  claim_empty-ClaimResult : length b.queue.heap ≡ 0 → ClaimResult worker now b t (claim_empty b)
  unfolding claim_empty
  claim_empty-ClaimResult empty = elim (Bool-cases (b.closed && length b.running == 0)) [
    | inl stop ↦ rw stop (
      maybe_done-Inv b t v.core,
      empty,
      ground arith,
      ground arith,
      maybe_done-queue b,
      maybe_done-running b,
    )
    | inr stay ↦ rw stay (v, empty, ground arith, ground arith, refl, refl)
  ]

  assign-ClaimResult :
      (r : Option Job × Queue)
      → (length b.queue.heap == 0) ≡ false
      → PopResult b.queue r
      → Yields (ClaimResult worker now b t) (assign worker now b r)
  unfolding assign log claimed
  assign-ClaimResult (none, q) full (empty, _) = absurd (ground arith)
  assign-ClaimResult (some taken, q) full p = yields (
    refl,
    refl,
    record {
      inv = record {
        core = record {
          valid = p.valid;
          keyed = insert-IsKeyed _ _ b.running v.core.keyed refl;
          once = λ k. omega (
            arith,
            v.core.once k,
            Popped-total (has_id k) (λ _. refl) p,
            total-insert (has_id k) taken.id (claimed worker now taken) b.running
                (Popped-not_running taken q.heap p),
          );
          balance = omega (
            arith,
            v.core.balance,
            p.size,
            length-insert_new taken.id (claimed worker now taken) b.running
                (Popped-not_running taken q.heap p),
          );
          done_ok = v.core.done_ok;
        };
        done_all = λ closed idle. absurd (
            omega (
              arith,
              idle.running,
              length-insert_new taken.id (claimed worker now taken) b.running
                  (Popped-not_running taken q.heap p),
            ));
      };
      taken = taken;
      popped = p;
      job_is = refl;
      unheld = Popped-not_running taken q.heap p;
      running_is = refl;
      held = rw (lookup-insert taken.id taken.id (claimed worker now taken) b.running, eq_refl);
    },
  )

-- Claim never panics. It hands out a queued job that no other precedes, and which no one else has
-- from then on; it gives none exactly when the queue is empty, and then tells the worker to stop
-- exactly when submissions are closed and no job is running, and to wait otherwise.
pub claim-ClaimResult :
    (worker : String) (now : Time) (b : Broker) (t : List Job)
    → Inv b t
    → Yields (ClaimResult worker now b t) (claim worker now b)
unfolding claim len
claim-ClaimResult worker now b t v =
    Yields-branch (length b.queue.heap == 0)
      (λ empty. yields (claim_empty-ClaimResult worker now b t v (ground arith)))
      (λ full.
        Yields-then (pop-PopResult b.queue v.core.valid)
          (λ r p. assign-ClaimResult worker now b t v r full p))

-- The reply tells the worker to stop, and the channel is closed exactly when no failed job is with
-- the agent.
abbrev pub Stops : List Job → Broker × ClaimReply → Type 0
Stops t (b', r) = (r.shutdown ≡ true) × ((b'.done ≡ true) ↔ (length t ≡ 0))

done_of_idle :
    (b : Broker) (t : List Job)
    → Core b t
    → b.closed ≡ true
    → length b.queue.heap ≡ 0
    → length b.running ≡ 0
    → length t ≡ 0
    → (maybe_done b).done ≡ true
unfolding maybe_done len
done_of_idle b t c closed queue running triaging = ground (arith, c.balance)

stop_lem :
    (b : Broker) (t : List Job)
    → Inv b t
    → b.closed ≡ true
    → length b.queue.heap ≡ 0
    → length b.running ≡ 0
    → Stops t (claim_empty b)
unfolding claim_empty
stop_lem b t v closed queue running =
    let stop : (b.closed && length b.running == 0) ≡ true = ground arith in
    let w = maybe_done-Inv b t v.core in
    rw stop (
      refl,
      (
        λ e. omega (arith, (w.core.done_ok e).1, w.core.balance),
        λ z. done_of_idle b t v.core closed queue running z,
      ),
    )

-- With submissions closed, nothing queued and nothing running, Claim tells the worker to stop also
-- while failed jobs are with the agent, which may queue them again: the run is over at that point
-- exactly when there are no such jobs.
pub claim-Stops :
    (worker : String) (now : Time) (b : Broker) (t : List Job)
    → Inv b t
    → b.closed ≡ true
    → length b.queue.heap ≡ 0
    → length b.running ≡ 0
    → Yields (Stops t) (claim worker now b)
unfolding claim len
claim-Stops worker now b t v closed queue running =
    Yields-branch (length b.queue.heap == 0) (λ empty. yields (stop_lem b t v closed queue running))
      (λ full. absurd (ground arith))
