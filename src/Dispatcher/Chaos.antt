-- ===== src/Dispatcher/Chaos.antt =====
-- The chaos jobs of cmd/dispatcher/sqs.go: which jobs are made to stall their workers, and which
-- workers the supervisor kills.
use job_scheduler_tooling.Prelude.{
  ℕ, ◌+◌, ◌<◌, ◌≡◌, refl, ap, ◌∙◌, String, Bool, true, false, ◌&&◌, ◌||◌, List, [], ◌∷◌, Option,
  none, some, arith, ltb, str_eq, if◌then◌else◌, if_split,
}
use job_scheduler_tooling.Prelude.Int.{ℤ, pos, add64, ltb_ℤ, eqb_ℤ, int64_half}
use job_scheduler_tooling.Queue.{Job}
use job_scheduler_tooling.SqsQueue.{Delivery}
use job_scheduler_tooling.Dispatch.Sqs.{StartedArgs}
use job_scheduler_tooling.Dispatch.Sqs.Worker.{
  inject_hang, inject_poison, stalls, attempt_of, started_args,
}
use job_scheduler_tooling.Dispatcher.{Exchange, injected_error, runner_error}

-- One round of the loop that makes chaos jobs.
unfoldable pub mark_chaos : ℤ → ℤ → ℕ → Job → Job
mark_chaos poison hang i job =
    if ltb_ℤ (pos i) poison
    then record job { inject_failure = inject_poison }
    else if ltb_ℤ (pos i) (add64 poison hang)
    then record job { inject_failure = inject_hang }
    else job

unfoldable pub assign_chaos : ℤ → ℤ → ℕ → List Job → List Job
assign_chaos poison hang i [] = []
assign_chaos poison hang i (job ∷ jobs) =
    mark_chaos poison hang i job ∷ assign_chaos poison hang (i + 1) jobs

-- The test of the supervisor, coord.OnStarted.
unfoldable pub is_chaos : StartedArgs → Bool
is_chaos a =
    str_eq a.job.inject_failure inject_poison
    || (str_eq a.job.inject_failure inject_hang && eqb_ℤ a.attempt (pos 1))

-- The `run` of runSQSWorker: injected failures come at the first attempt only.
unfoldable pub run_sqs : (Job → Exchange) → Job → ℤ → Option String
run_sqs infer job attempt =
    let injected = if eqb_ℤ attempt (pos 1) then injected_error job.inject_failure else none in
    elim injected [ some e ↦ some e | none ↦ runner_error (infer job) ]

-- A job that is neither kind of chaos job yet.
abbrev pub IsPlain : Job → Type 0
IsPlain j =
    (str_eq j.inject_failure inject_poison ≡ false) × (str_eq j.inject_failure inject_hang ≡ false)

marked_stalls :
    (poison hang i : ℕ) (job : Job) (attempt : ℤ)
    → poison + hang < int64_half
    → IsPlain job
    → stalls (mark_chaos (pos poison) (pos hang) i job) attempt
      ≡ (ltb i poison || (ltb i (poison + hang) && eqb_ℤ attempt (pos 1)))
unfolding stalls mark_chaos
marked_stalls poison hang i job attempt small (no_poison, no_hang) =
    let sum : add64 (pos poison) (pos hang) ≡ pos (poison + hang) =
      unfold add64 in ground (arith, small) in
    let wanted : Bool = ltb i poison || (ltb i (poison + hang) && eqb_ℤ attempt (pos 1)) in
    if_split (λ j. stalls j attempt ≡ wanted) (ltb_ℤ (pos i) (pos poison))
      (λ lt. let first : ltb i poison ≡ true = ground (arith, lt) in rw first refl)
      (λ ge.
        let later : ltb i poison ≡ false = ground (arith, ge) in
        if_split (λ j. stalls j attempt ≡ wanted) (ltb_ℤ (pos i) (add64 (pos poison) (pos hang)))
          (λ lt.
            let next : ltb i (poison + hang) ≡ true = ground (arith, lt, sum) in
            rw (later, next) refl)
          (λ past.
            let none_left : ltb i (poison + hang) ≡ false = ground (arith, past, sum) in
            rw (later, none_left, no_poison, no_hang) refl))

-- Of the jobs in their order, the first `poison` stall every worker that receives them, the next
-- `hang` stall it on the first attempt only, and no other job ever does; and the supervisor's test on
-- the worker's call of Started says yes exactly when the worker then stalls.
pub chaos-stalls :
    (poison hang i : ℕ) (job : Job) (worker : String) (d : Delivery)
    → poison + hang < int64_half
    → IsPlain job
    → d.job ≡ mark_chaos (pos poison) (pos hang) i job
    → (stalls d.job (attempt_of d)
        ≡ (ltb i poison || (ltb i (poison + hang) && eqb_ℤ (attempt_of d) (pos 1))))
      × (is_chaos (started_args worker d) ≡ stalls d.job (attempt_of d))
unfolding stalls is_chaos
chaos-stalls poison hang i job worker d small plain e = (
  ap (λ j. stalls j (attempt_of d)) e ∙ marked_stalls poison hang i job (attempt_of d) small plain,
  refl,
)
