-- ===== src/Scheduler/Preemption.antt =====
-- Which job gives way (findPreemptionVictim of cmd/scheduler/main.go).
use job_scheduler_tooling.Prelude.{
  ◌≡◌, refl, ap, ◌∙◌, List, [], ◌∷◌, ◌++◌, Option, none, some, if_split, All, All-append, All-map,
  arith,
}
use mathlib.Core.List.{append_assoc, append-nil}
use job_scheduler_tooling.Prelude.Int.{ltb_ℤ, leb_ℤ, ◌≤ℤ◌, ◌<ℤ◌}
use job_scheduler_tooling.Queue.{Job}
use job_scheduler_tooling.Scheduler.{RunningJob, consider, victim_from, find_preemption_victim}

-- No job has a lower priority than the candidate; or the victim is one of them, has a lower priority
-- than the candidate, and none has a lower one than the victim.
abbrev pub IsLowest : Job → List RunningJob → Option RunningJob → Type 0
IsLowest candidate rjs none = All (λ r. candidate.priority ≤ℤ r.job.priority) rjs
IsLowest candidate rjs (some v) =
    ((before : List RunningJob) × (after : List RunningJob) × (rjs ≡ before ++ v ∷ after))
    × (v.job.priority <ℤ candidate.priority)
    × All (λ r. v.job.priority ≤ℤ r.job.priority) rjs

-- Another job that leaves the victim as it is.
kept :
    (candidate : Job) (seen : List RunningJob) (v r : RunningJob)
    → v.job.priority ≤ℤ r.job.priority
    → IsLowest candidate seen (some v)
    → IsLowest candidate (seen ++ r ∷ []) (some v)
kept candidate seen v r le ((before, after, at), lt, all) = (
  (before, after ++ r ∷ [], ap (λ ts. ts ++ r ∷ []) at ∙ append_assoc before (v ∷ after) (r ∷ [])),
  lt,
  All-append _ seen (r ∷ []) all (le, tt),
)

consider-IsLowest :
    (candidate : Job) (seen : List RunningJob) (o : Option RunningJob) (r : RunningJob)
    → IsLowest candidate seen o
    → IsLowest candidate (seen ++ r ∷ []) (consider candidate o r)
unfolding consider
consider-IsLowest candidate seen none r h =
    if_split (IsLowest candidate (seen ++ r ∷ [])) (leb_ℤ candidate.priority r.job.priority)
      (λ le. All-append _ seen (r ∷ []) h (ground (arith, le), tt))
      (λ lt. (
        (seen, [], refl),
        ground (arith, lt),
        All-append _ seen (r ∷ []) (All-map _ _ seen (λ s k. ground (arith, k, lt)) h)
            (omega arith, tt),
      ))
consider-IsLowest candidate seen (some v) r (found, low, all) =
    if_split (IsLowest candidate (seen ++ r ∷ [])) (leb_ℤ candidate.priority r.job.priority)
      (λ le. kept candidate seen v r (ground (arith, le, low)) (found, low, all))
      (λ lt.
        if_split (IsLowest candidate (seen ++ r ∷ [])) (ltb_ℤ r.job.priority v.job.priority)
          (λ lower. (
            (seen, [], refl),
            ground (arith, lt),
            All-append _ seen (r ∷ []) (All-map _ _ seen (λ s k. ground (arith, k, lower)) all)
                (omega arith, tt),
          ))
          (λ no. kept candidate seen v r (ground (arith, no)) (found, low, all)))

victim_from-IsLowest :
    (candidate : Job) (rjs seen : List RunningJob) (o : Option RunningJob)
    → IsLowest candidate seen o
    → IsLowest candidate (seen ++ rjs) (victim_from candidate o rjs)
unfolding victim_from
victim_from-IsLowest candidate [] seen o h = rw (append-nil seen) h
victim_from-IsLowest candidate (r ∷ rjs) seen o h = rw (← append_assoc seen (r ∷ []) rjs) (
    victim_from-IsLowest candidate rjs (seen ++ r ∷ []) (consider candidate o r)
      (consider-IsLowest candidate seen o r h))

-- In whatever order the running jobs are gone through: findPreemptionVictim finds none exactly when
-- none has a lower priority than the candidate, and otherwise a running job with a priority below
-- the candidate's and no higher than that of any running job.
pub find_preemption_victim-IsLowest :
    (running : List RunningJob) (candidate : Job)
    → IsLowest candidate running (find_preemption_victim running candidate)
unfolding find_preemption_victim
find_preemption_victim-IsLowest running candidate =
    victim_from-IsLowest candidate running [] none tt
