-- ===== src/Scheduler/Running.antt =====
-- The map of running jobs in cmd/scheduler/main.go: sums over its jobs, and its keys.
use job_scheduler_tooling.Prelude.{
  ℕ, ◌+◌, ◌≡◌, refl, ap, sym, ◌∙◌, String, false, List, [], ◌∷◌, ◌++◌, Option, none, some, arith,
  str_eq, eq_iff, eq_refl, if_split, All, All-map, Bool-cases, inl, inr,
}
use job_scheduler_tooling.Prelude.Dict.{Dict, lookup, insert, erase, IsUnique, lookup-erase_ne}
use job_scheduler_tooling.Queue.{Job}
use job_scheduler_tooling.Dispatch.Broker.Weight.{total, has_id}
use job_scheduler_tooling.Scheduler.{RunningJob}
use job_scheduler_tooling.Scheduler.Simulation.{running_jobs}

abbrev pub jobs : Dict RunningJob → List Job
jobs [] = []
jobs ((id, rj) ∷ m) = rj.job ∷ jobs m

module _ (f : Job → ℕ) where
  pub total-insert :
      (id : String) (rj : RunningJob) (m : Dict RunningJob)
      → lookup id m ≡ none
      → total f (jobs (insert id rj m)) ≡ f rj.job + total f (jobs m)
  unfolding total lookup insert
  total-insert id rj [] h = refl
  total-insert id rj ((k, r) ∷ m) h = ground (arith, total-insert id rj m)

  pub total-erase :
      (id : String) (rj : RunningJob) (m : Dict RunningJob)
      → lookup id m ≡ some rj
      → total f (jobs m) ≡ f rj.job + total f (jobs (erase id m))
  unfolding total lookup erase
  total-erase id rj [] h = cc
  total-erase id rj ((k, r) ∷ m) h = ground (arith, total-erase id rj m, ap (Option_job) h)
    where
      Option_job : Option RunningJob → ℕ
      Option_job none = 0
      Option_job (some x) = f x.job

-- Each job stands under its ID.
abbrev pub IsKeyed : Dict RunningJob → Type 0
IsKeyed = All (λ (id, rj). rj.job.id ≡ id)

pub insert-IsKeyed :
    (id : String) (rj : RunningJob) (m : Dict RunningJob)
    → IsKeyed m
    → rj.job.id ≡ id
    → IsKeyed (insert id rj m)
unfolding insert
insert-IsKeyed id rj [] v h = (h, tt)
insert-IsKeyed id rj ((k, r) ∷ m) (one, v) h =
    if_split IsKeyed (str_eq k id) (λ _. (h, v)) (λ _. (one, insert-IsKeyed id rj m v h))

pub erase-IsKeyed : (id : String) (m : Dict RunningJob) → IsKeyed m → IsKeyed (erase id m)
unfolding erase
erase-IsKeyed id [] v = tt
erase-IsKeyed id ((k, r) ∷ m) (one, v) =
    if_split IsKeyed (str_eq k id) (λ _. v) (λ _. (one, erase-IsKeyed id m v))

-- An ID with no copy among the running jobs is not a key.
pub lookup_of_total :
    (id : String) (m : Dict RunningJob)
    → IsKeyed m
    → total (has_id id) (jobs m) ≡ 0
    → lookup id m ≡ none
unfolding total lookup
lookup_of_total id [] v h = refl
lookup_of_total id ((k, r) ∷ m) (one, v) h = ground (arith, one, lookup_of_total id m v)

-- A job found in a round over the map stands there under its ID.
pub lookup_of_found :
    (m : Dict RunningJob) (before after : List RunningJob) (rj : RunningJob)
    → IsKeyed m
    → IsUnique m
    → running_jobs m ≡ before ++ rj ∷ after
    → lookup rj.job.id m ≡ some rj
unfolding lookup IsUnique
lookup_of_found [] [] after rj v u e = cc
lookup_of_found [] (b ∷ before) after rj v u e = cc
lookup_of_found ((k, r) ∷ m) [] after rj (one, v) u e =
    let same : r ≡ rj = cc in
    let key : k ≡ rj.job.id = sym one ∙ ap (λ (x : RunningJob). x.job.id) same in
    rw (key, eq_refl) (ap some same)
lookup_of_found ((k, r) ∷ m) (b ∷ before) after rj (one, v) (new, u) e =
    let found = lookup_of_found m before after rj v u (cc) in
    elim (Bool-cases (str_eq k rj.job.id)) [
      | inl same ↦
          let key : k ≡ rj.job.id = (eq_iff k rj.job.id).0 same in cc (rw key at new, found)
      | inr other ↦ rw other found
    ]

-- The entries of a map are what a lookup finds.
abbrev pub Found : Dict RunningJob → Dict RunningJob → Type 0
Found whole = All (λ (id, rj). lookup id whole ≡ some rj)

pub Found-self : (m : Dict RunningJob) → IsUnique m → Found m m
unfolding lookup IsUnique
Found-self [] u = tt
Found-self ((k, r) ∷ m) (new, u) = (rw eq_refl, All-map _ _ m later (Found-self m u))
  where
    later : (x : String × RunningJob) → lookup x.0 m ≡ some x.1 → lookup x.0 ((k, r) ∷ m) ≡ some x.1
    later (id, rj) h = ground (arith, eq_iff k id, h, new)

-- What is left after the first entry is erased.
pub Found-erase :
    (m rest : Dict RunningJob) (id : String)
    → lookup id rest ≡ none
    → Found m rest
    → Found (erase id m) rest
unfolding lookup
Found-erase m [] id new h = tt
Found-erase m ((k, r) ∷ rest) id new (one, more) =
    let differ : str_eq k id ≡ false = ground arith in
    (
      lookup-erase_ne id k m (λ same. cc ((eq_iff k id).1 (sym same), differ)) ∙ one,
      Found-erase m rest id (ground (arith, differ)) more,
    )
