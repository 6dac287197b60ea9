-- ===== src/Dispatch/Sqs/System/Known.antt =====
-- The jobs that were submitted, and those that have ended, after each operation of the coordinator.
use job_scheduler_tooling.Prelude.{
  ◌≤◌, ◌≡◌, refl, sym, ◌∙◌, String, Bool, List, [], ◌∷◌, Option, none, some, arith, if_split,
  option_split, length, str_eq, eq_iff, subst, Bool-cases, inl, inr,
}
use job_scheduler_tooling.Prelude.Dict.{lookup}
use job_scheduler_tooling.Prelude.Dict.Keys.{Has, lookup-insert_other, insert-Has, length-insert_le}
use job_scheduler_tooling.Queue.{Job, Time}
use job_scheduler_tooling.Inference
use job_scheduler_tooling.Telemetry.{Event, Recorder}
use job_scheduler_tooling.Triage.{Decision, retry, auto_adjust, escalate}
use job_scheduler_tooling.Dispatch.Sqs.{
  SqsStats, Coordinator, new_coordinator, SubmitError, submit, accept, admitted, close_submissions,
  StartedArgs, started, note_redelivery, SqsReportArgs, SqsReported, report_begin, report_end,
  apply_decision, bury, bury_all, watch_tick, log, maybe_done, end_job,
}
use job_scheduler_tooling.Dispatch.Sqs.Ack.{HasEnded}

-- A job of that ID was submitted.
abbrev pub IsSubmitted : Coordinator → String → Type 0
IsSubmitted c id = Has c.jobs id

pub record IsSound (c : Coordinator) : Type 0 where
  pub fits : length c.jobs ≤ c.stats.submitted
  pub known : (id : String) → HasEnded c id → IsSubmitted c id

pub new_coordinator-IsSound : (recorder : Recorder) → IsSound (new_coordinator recorder)
unfolding new_coordinator lookup
new_coordinator-IsSound recorder = record {
  fits = omega arith;
  known = λ id (state, h). absurd (cc h);
}

abbrev pub Extends : Coordinator → Coordinator → Type 0
Extends c c' = IsSound c' × ((id : String) → IsSubmitted c id → IsSubmitted c' id)

-- Nothing that matters here has changed.
same-Extends :
    (c c' : Coordinator)
    → IsSound c
    → c'.jobs ≡ c.jobs
    → c'.terminal ≡ c.terminal
    → c'.stats.submitted ≡ c.stats.submitted
    → Extends c c'
same-Extends c c' v jobs terminal submitted = (
  record {
    fits = rw jobs (omega (arith, v.fits, submitted));
    known = λ id h. rw jobs (v.known id (rw (sym terminal) h));
  },
  λ id h. rw jobs h,
)

Extends-trans : (a b c : Coordinator) → Extends a b → Extends b c → Extends a c
Extends-trans a b c g h = (h.0, λ id k. h.1 id (g.1 id k))

end_job-Extends :
    (id state : String) (stats : SqsStats) (e : Event) (c : Coordinator)
    → IsSound c
    → IsSubmitted c id
    → stats.submitted ≡ c.stats.submitted
    → Extends c (end_job id state stats e c)
unfolding log
end_job-Extends id state stats e c v here same = (
  record {
    fits = omega (arith, v.fits, same);
    known = λ other h. elim (Bool-cases (str_eq id other)) [
      | inl e ↦ subst (IsSubmitted c) ((eq_iff id other).0 e) here
      | inr e ↦ v.known other (h.0, sym (lookup-insert_other id other state c.terminal e) ∙ h.1)
    ];
  },
  λ _ h. h,
)

maybe_done-Extends : (c c' : Coordinator) → Extends c c' → Extends c (maybe_done c')
unfolding maybe_done
maybe_done-Extends c c' x =
    if_split (Extends c) _ (λ _. Extends-trans c c' _ x (same-Extends c' _ x.0 refl refl refl))
      (λ _. x)

apply_decision-Extends :
    (args : SqsReportArgs) (now : Time) (d : Decision) (c : Coordinator)
    → IsSound c
    → IsSubmitted c args.job.id
    → Extends c (apply_decision args now d c)
unfolding apply_decision log
apply_decision-Extends args now d c v here =
    if_split (Extends c) (str_eq d.action retry) (λ _. same-Extends c _ v refl refl refl)
      (λ _.
        if_split (Extends c) (str_eq d.action auto_adjust) (λ _. same-Extends c _ v refl refl refl)
          (λ _.
            if_split (Extends c) (str_eq d.action escalate)
              (λ _. end_job-Extends args.job.id "escalated" _ _ c v here refl)
              (λ _. same-Extends c c v refl refl refl)))

pub report_end-Extends :
    (args : SqsReportArgs) (now : Time) (d : Decision) (c : Coordinator)
    → IsSound c
    → IsSubmitted c args.job.id
    → Extends c (report_end args now d c).0
unfolding report_end log
report_end-Extends args now d c v here =
    option_split (λ (r : Coordinator × Option Decision). Extends c r.0)
      (lookup args.job.id c.terminal)
      (λ _.
        let logged = same-Extends c _ v refl refl refl in
        maybe_done-Extends c _
          (Extends-trans c _ _ logged (apply_decision-Extends args now d _ logged.0 here)))
      (λ _ _. same-Extends c _ v refl refl refl)

pub report_begin-Extends :
    (args : SqsReportArgs) (now : Time) (c : Coordinator)
    → IsSound c
    → IsSubmitted c args.job.id
    → Extends c (report_begin args now c).0
unfolding report_begin log
report_begin-Extends args now c v here =
    option_split (λ (r : Coordinator × SqsReported). Extends c r.0) (lookup args.job.id c.terminal)
      (λ _.
        if_split (λ (r : Coordinator × SqsReported). Extends c r.0) args.success
          (λ _. maybe_done-Extends c _ (end_job-Extends args.job.id "completed" _ _ c v here refl))
          (λ _. same-Extends c _ v refl refl refl))
      (λ _ _. same-Extends c _ v refl refl refl)

note-Extends :
    (args : StartedArgs) (now : Time) (c : Coordinator)
    → IsSound c
    → Extends c (note_redelivery args now c)
unfolding note_redelivery log
note-Extends args now c v =
    if_split (Extends c) _ (λ _. same-Extends c _ v refl refl refl)
      (λ _. same-Extends c c v refl refl refl)

pub started-Extends :
    (args : StartedArgs) (now : Time) (c : Coordinator)
    → IsSound c
    → Extends c (started args now c).0
unfolding started log
started-Extends args now c v =
    option_split (λ (r : Coordinator × Bool). Extends c r.0) (lookup args.job.id c.terminal)
      (λ _.
        let noted = note-Extends args now c v in
        Extends-trans c _ _ noted (same-Extends _ _ noted.0 refl refl refl))
      (λ _ _. same-Extends c _ v refl refl refl)

pub submit-Extends :
    (now : Time) (job : Job) (error : Option String) (c : Coordinator)
    → IsSound c
    → Extends c (submit now job error c).0
unfolding submit accept log
submit-Extends now job error c v =
    let P : Coordinator × Option SubmitError → Type 0 = λ r. Extends c r.0 in
    let job' = admitted now job in
    option_split P (Inference.validate job.inference)
      (λ _.
        if_split P c.closed (λ _. same-Extends c c v refl refl refl)
          (λ _. (
            record {
              fits = omega (arith, v.fits, length-insert_le job'.id job' c.jobs);
              known = λ id h. insert-Has job'.id id job' c.jobs (v.known id h);
            },
            λ id h. insert-Has job'.id id job' c.jobs h,
          )))
      (λ _ _. same-Extends c c v refl refl refl)

pub close-Extends : (c : Coordinator) → IsSound c → Extends c (close_submissions c)
unfolding close_submissions
close-Extends c v = maybe_done-Extends c _ (same-Extends c _ v refl refl refl)

abbrev pub AreSubmitted : Coordinator → List Job → Type 0
AreSubmitted c [] = Unit
AreSubmitted c (job ∷ jobs) = IsSubmitted c job.id × AreSubmitted c jobs

Extends-AreSubmitted :
    (c c' : Coordinator) (jobs : List Job)
    → Extends c c'
    → AreSubmitted c jobs
    → AreSubmitted c' jobs
Extends-AreSubmitted c c' [] x h = tt
Extends-AreSubmitted c c' (job ∷ jobs) x (first, more) =
    (x.1 job.id first, Extends-AreSubmitted c c' jobs x more)

bury-Extends :
    (now : Time) (job : Job) (c : Coordinator)
    → IsSound c
    → IsSubmitted c job.id
    → Extends c (bury now job c)
unfolding bury
bury-Extends now job c v here =
    option_split (Extends c) (lookup job.id c.terminal)
      (λ _. end_job-Extends job.id "dead_lettered" _ _ c v here refl)
      (λ _ _. same-Extends c c v refl refl refl)

bury_all-Extends :
    (now : Time) (dead : List Job) (c : Coordinator)
    → IsSound c
    → AreSubmitted c dead
    → Extends c (bury_all now dead c)
unfolding bury_all
bury_all-Extends now [] c v h = same-Extends c c v refl refl refl
bury_all-Extends now (job ∷ dead) c v (first, more) =
    let buried = bury-Extends now job c v first in
    Extends-trans c _ _ buried (
      bury_all-Extends now dead (bury now job c) buried.0
        (Extends-AreSubmitted c _ dead buried more))

-- The dead letters that a tick finds.
abbrev pub FoundAreSubmitted : Coordinator → Option (List Job) → Type 0
FoundAreSubmitted c none = Unit
FoundAreSubmitted c (some dead) = AreSubmitted c dead

pub tick-Extends :
    (now : Time) (dead : Option (List Job)) (c : Coordinator)
    → IsSound c
    → FoundAreSubmitted c dead
    → Extends c (watch_tick now dead c)
unfolding watch_tick
tick-Extends now none c v h = same-Extends c c v refl refl refl
tick-Extends now (some dead) c v h = maybe_done-Extends c _ (bury_all-Extends now dead c v h)
