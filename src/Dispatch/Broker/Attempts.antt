-- ===== src/Dispatch/Broker/Attempts.antt =====
-- The attempts that a job has left, and the broker in which every queued job has some.
use job_scheduler_tooling.Prelude.{
  ℕ, zero, suc, ◌+◌, ◌-◌, ◌≤◌, ◌<◌, ◌≡◌, refl, ap, String, ◌&&◌, List, Option, none, some, arith,
  leb, ltb, ◌==◌, if◌then◌else◌,
}
use job_scheduler_tooling.Prelude.Int.{
  ℤ, pos, negsuc, pos_part, neg_part, add64, int64_half, ◌<ℤ◌, IsInt64,
}
use job_scheduler_tooling.Queue.{Job, Time}
use job_scheduler_tooling.Dispatch.Broker.{
  Broker, admitted, claimed, SubmitError, invalid_batch, submissions_closed,
}
use job_scheduler_tooling.Dispatch.Broker.Weight.{total, total-insert}
use job_scheduler_tooling.Dispatch.Broker.Invariant.{weight, Pushed-total, Popped-total}
use job_scheduler_tooling.Dispatch.Broker.Submit.{SubmitResult}
use job_scheduler_tooling.Dispatch.Broker.Claim.{Assigned}

-- max_attempts - attempt, at least 0.
abbrev pub attempts_left : Job → ℕ
attempts_left j =
    pos_part j.max_attempts + neg_part j.attempt - (pos_part j.attempt + neg_part j.max_attempts)

-- One for a job with no attempt left.
abbrev pub exhausted : Job → ℕ
exhausted j = if attempts_left j == 0 then 1 else 0

-- One for a job whose numbers no `int` holds.
abbrev pub unrepresented : Job → ℕ
unrepresented j =
    if ltb (pos_part j.max_attempts) int64_half && leb (neg_part j.attempt) int64_half then 0 else 1

add64_one :
    (a m : ℤ)
    → a <ℤ m
    → pos_part m < int64_half
    → neg_part a ≤ int64_half
    → (pos_part (add64 a (pos 1)) + neg_part a ≡ neg_part (add64 a (pos 1)) + pos_part a + 1)
      × (neg_part (add64 a (pos 1)) ≤ neg_part a)
unfolding add64
add64_one (pos n) m h k l = ground arith
add64_one (negsuc zero) m h k l = ground arith
add64_one (negsuc (suc n)) m h k l = ground arith

-- An attempt is counted exactly once, without wrapping.
pub claimed-attempts_left :
    (worker : String) (now : Time) (j : Job)
    → exhausted j ≡ 0
    → unrepresented j ≡ 0
    → (attempts_left (claimed worker now j) + 1 ≡ attempts_left j)
      × (unrepresented (claimed worker now j) ≡ 0)
unfolding claimed
claimed-attempts_left worker now j e u = ground (arith, add64_one j.attempt j.max_attempts)

-- A job as Submit queues it has all its attempts left, at least one.
pub admitted_fresh :
    (now : Time) (j : Job)
    → j.attempt ≡ pos 0
    → IsInt64 j.max_attempts
    → (exhausted (admitted now j) ≡ 0)
      × (unrepresented (admitted now j) ≡ 0)
      × (attempts_left (admitted now j) ≤ pos_part (admitted now j).max_attempts)
unfolding admitted
admitted_fresh now j e h = rw e (ground arith)

unfoldable pub potential : Broker → List Job → ℕ
potential b t = weight attempts_left b t

-- Every queued job has an attempt left.
pub record IsFunded (b : Broker) (t : List Job) : Type 0 where
  pub represented : weight unrepresented b t ≡ 0
  pub ready : total exhausted b.queue.heap ≡ 0

-- The attempts handed out are paid for.
pub record Paid (b : Broker) (t : List Job) (b' : Broker) (t' : List Job) (claims granted : ℕ)
    : Type 0 where
  pub funded : IsFunded b' t'
  pub pays : potential b' t' + claims ≤ potential b t + granted

pub same-Paid :
    (b b' : Broker) (t : List Job)
    → IsFunded b t
    → b'.queue ≡ b.queue
    → b'.running ≡ b.running
    → Paid b t b' t 0 0
unfolding potential
same-Paid b b' t f q r = record {
  funded = record { represented = rw (q, r) f.represented; ready = rw q f.ready };
  pays = rw (q, r) (omega arith);
}

pub submit-Paid :
    (now : Time) (job : Job) (b : Broker) (t : List Job) (b' : Broker) (e : Option SubmitError)
    → IsFunded b t
    → job.attempt ≡ pos 0
    → IsInt64 job.max_attempts
    → SubmitResult now job b t (b', e)
    → Paid b t b' t 0 (elim e [ none ↦ pos_part (admitted now job).max_attempts | some _ ↦ 0 ])
unfolding potential
submit-Paid now job b t b' (some (invalid_batch x)) f z i r = rw r.0 (same-Paid b b t f refl refl)
submit-Paid now job b t b' (some submissions_closed) f z i r = rw r.0 (same-Paid b b t f refl refl)
submit-Paid now job b t b' none f z i ((_, _, p, same), _, _) =
    let (ready, fit, left) = admitted_fresh now job z i in
    record {
      funded = record {
        represented =
            rw same (omega (arith, f.represented, fit, Pushed-total unrepresented (λ _. refl) p));
        ready = omega (arith, f.ready, ready, Pushed-total exhausted (λ _. refl) p);
      };
      pays = rw same (omega (arith, left, Pushed-total attempts_left (λ _. refl) p));
    }

pub Assigned-Paid :
    (worker : String) (now : Time) (b : Broker) (t : List Job) (b' : Broker) (job : Job)
    → IsFunded b t
    → Assigned worker now b t b' job
    → Paid b t b' t 1 0
unfolding potential
Assigned-Paid worker now b t b' job f a =
    let ex : exhausted a.taken ≡ 0 =
      omega (arith, f.ready, Popped-total exhausted (λ _. refl) a.popped) in
    let un : unrepresented a.taken ≡ 0 =
      omega (arith, f.represented, Popped-total unrepresented (λ _. refl) a.popped) in
    let (one, fit) = claimed-attempts_left worker now a.taken ex un in
    record {
      funded = record {
        represented = rw a.running_is (
            omega (
              arith,
              f.represented,
              fit,
              ap unrepresented a.job_is,
              Popped-total unrepresented (λ _. refl) a.popped,
              total-insert unrepresented a.taken.id job b.running a.unheld,
            ));
        ready = omega (arith, f.ready, Popped-total exhausted (λ _. refl) a.popped);
      };
      pays = rw a.running_is (
          omega (
            arith,
            one,
            ap attempts_left a.job_is,
            Popped-total attempts_left (λ _. refl) a.popped,
            total-insert attempts_left a.taken.id job b.running a.unheld,
          ));
    }
