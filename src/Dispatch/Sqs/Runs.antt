-- ===== src/Dispatch/Sqs/Runs.antt =====
-- The SQS coordinator under any interleaving of calls. A Report may end at any time, for any job and
-- any decision, which covers every call that waits for the agent.
use job_scheduler_tooling.Prelude.{
  ◌≤◌, ◌≡◌, refl, sym, ◌↔◌, Bool, true, ◌&&◌, List, Option, none, some, arith, leb, if_split,
  option_split, String, length,
}
use job_scheduler_tooling.Prelude.Dict.{lookup, IsUnique}
use job_scheduler_tooling.Inference
use job_scheduler_tooling.Queue.{Job, Time}
use job_scheduler_tooling.Telemetry.{Recorder}
use job_scheduler_tooling.Triage.{Decision}
use job_scheduler_tooling.Dispatch.Sqs.{
  Coordinator, new_coordinator, maybe_done, log, submit, accept, SubmitError, close_submissions,
  StartedArgs, started, note_redelivery, SqsReportArgs, SqsReported, report_begin, report_end,
  watch_tick, status,
}
use job_scheduler_tooling.Dispatch.Sqs.Terminal.{
  ended, Inv, Keeps, Grows, same-Grows, Grows-trans, end_job-Grows, apply_decision-Grows,
  bury_all-Grows, maybe_done-Inv, maybe_done-Keeps, still-Inv,
}

pub data Step (c c' : Coordinator) : Type 0 where
  submitted :
      (now : Time) (job : Job) (send : Option String) → c' ≡ (submit now job send c).0 → Step c c'
  submissions_end : c' ≡ close_submissions c → Step c c'
  delivery_started : (args : StartedArgs) (now : Time) → c' ≡ (started args now c).0 → Step c c'
  report_began : (args : SqsReportArgs) (now : Time) → c' ≡ (report_begin args now c).0 → Step c c'
  report_ended :
      (args : SqsReportArgs) (now : Time) (d : Decision)
      → c' ≡ (report_end args now d c).0
      → Step c c'
  ticked : (now : Time) (dead : Option (List Job)) → c' ≡ watch_tick now dead c → Step c c'

pub data Reach (c : Coordinator) : Coordinator → Type 0 where
  here : Reach c c
  next : {u v : Coordinator} → Reach c u → Step u v → Reach c v

-- What a step keeps.
abbrev Goes : Coordinator → Coordinator → Type 0
Goes c c' = Inv c' × Keeps c c'

stays : (c : Coordinator) → Inv c → Goes c c
stays c v = (v, λ _ _ k. k)

checked : (c c' : Coordinator) → Inv c → Grows c c' → Goes c (maybe_done c')
checked c c' v g = (maybe_done-Inv c c' v g, maybe_done-Keeps c c' g.keeps)

still :
    (c c' : Coordinator) → Inv c → Grows c c' → length c'.terminal ≡ length c.terminal → Goes c c'
still c c' v g same = (still-Inv c c' v g same, g.keeps)

submit-Goes :
    (now : Time) (job : Job) (send : Option String) (c : Coordinator)
    → Inv c
    → Goes c (submit now job send c).0
unfolding submit accept log
submit-Goes now job send c v =
    option_split (λ (r : Coordinator × Option SubmitError). Goes c r.0)
      (Inference.validate job.inference)
      (λ _.
        if_split (λ (r : Coordinator × Option SubmitError). Goes c r.0) c.closed (λ _. stays c v)
          (λ still_open. (
            record {
              unique = v.unique;
              counted = v.counted;
              done_is = ground (arith, v.done_is, still_open);
            },
            λ _ _ k. k,
          )))
      (λ _ _. stays c v)

-- Closing may find that all is done already.
close-Goes : (c : Coordinator) → Inv c → Goes c (close_submissions c)
unfolding close_submissions maybe_done
close-Goes c v =
    if_split (Goes c) (true && leb c.stats.submitted (length c.terminal))
      (λ t. (record { unique = v.unique; counted = v.counted; done_is = sym t }, λ _ _ k. k))
      (λ f. (
        record { unique = v.unique; counted = v.counted; done_is = ground (arith, f, v.done_is) },
        λ _ _ k. k,
      ))

note-Grows :
    (args : StartedArgs) (now : Time) (c : Coordinator)
    → Grows c (note_redelivery args now c)
      × (length (note_redelivery args now c).terminal ≡ length c.terminal)
unfolding note_redelivery log
note-Grows args now c =
    if_split (λ c'. Grows c c' × (length c'.terminal ≡ length c.terminal)) _
      (λ _. (same-Grows c _ refl refl refl refl refl, refl))
      (λ _. (same-Grows c c refl refl refl refl refl, refl))

started-Goes :
    (args : StartedArgs) (now : Time) (c : Coordinator) → Inv c → Goes c (started args now c).0
unfolding started log
started-Goes args now c v =
    option_split (λ (r : Coordinator × Bool). Goes c r.0) (lookup args.job.id c.terminal)
      (λ _.
        let (g, same) = note-Grows args now c in
        still c _ v (Grows-trans c _ _ g (same-Grows _ _ refl refl refl refl refl)) same)
      (λ _ _. still c _ v (same-Grows c _ refl refl refl refl refl) refl)

report_begin-Goes :
    (args : SqsReportArgs) (now : Time) (c : Coordinator)
    → Inv c
    → Goes c (report_begin args now c).0
unfolding report_begin log
report_begin-Goes args now c v =
    option_split (λ (r : Coordinator × SqsReported). Goes c r.0) (lookup args.job.id c.terminal)
      (λ new.
        if_split (λ (r : Coordinator × SqsReported). Goes c r.0) args.success
          (λ _. checked c _ v (end_job-Grows args.job.id "completed" _ _ c new (omega arith) refl))
          (λ _. still c _ v (same-Grows c _ refl refl refl refl refl) refl))
      (λ _ _. still c _ v (same-Grows c _ refl refl refl refl refl) refl)

report_end-Goes :
    (args : SqsReportArgs) (now : Time) (d : Decision) (c : Coordinator)
    → Inv c
    → Goes c (report_end args now d c).0
unfolding report_end log
report_end-Goes args now d c v =
    option_split (λ (r : Coordinator × Option Decision). Goes c r.0) (lookup args.job.id c.terminal)
      (λ new. checked c _ v (
        Grows-trans c _ _ (same-Grows c _ refl refl refl refl refl)
          (apply_decision-Grows args now d _ new)))
      (λ _ _. still c _ v (same-Grows c _ refl refl refl refl refl) refl)

tick-Goes :
    (now : Time) (dead : Option (List Job)) (c : Coordinator)
    → Inv c
    → Goes c (watch_tick now dead c)
unfolding watch_tick
tick-Goes now none c v = stays c v
tick-Goes now (some dead) c v = checked c _ v (bury_all-Grows now dead c)

pub Step-Goes : {c c' : Coordinator} → Inv c → Step c c' → Goes c c'
Step-Goes {c} v (submitted now job send e) = rw e (submit-Goes now job send c v)
Step-Goes {c} v (submissions_end e) = rw e (close-Goes c v)
Step-Goes {c} v (delivery_started args now e) = rw e (started-Goes args now c v)
Step-Goes {c} v (report_began args now e) = rw e (report_begin-Goes args now c v)
Step-Goes {c} v (report_ended args now d e) = rw e (report_end-Goes args now d c v)
Step-Goes {c} v (ticked now dead e) = rw e (tick-Goes now dead c v)

Reach-Goes : {c c' : Coordinator} → Inv c → Reach c c' → Goes c c'
Reach-Goes {c} v here = stays c v
Reach-Goes v (next r s) =
    let (w, k) = Reach-Goes v r in
    let (w', k') = Step-Goes w s in (w', λ id state h. k' id state (k id state h))

pub new_coordinator-Inv : (rec : Recorder) → Inv (new_coordinator rec)
unfolding new_coordinator IsUnique
new_coordinator-Inv rec = record { unique = tt; counted = refl; done_is = refl }

-- In every run of a new coordinator, the jobs with a terminal state are those counted as succeeded,
-- escalated or dead-lettered, each once; and Status says done exactly when submissions are closed
-- and no fewer jobs have ended than were submitted.
pub status_iff-ended :
    (rec : Recorder) (c : Coordinator)
    → Reach (new_coordinator rec) c
    → (length c.terminal ≡ ended c.stats)
      × ((status c ≡ true) ↔ ((c.closed ≡ true) × (c.stats.submitted ≤ ended c.stats)))
unfolding status
status_iff-ended rec c r =
    let v = (Reach-Goes (new_coordinator-Inv rec) r).0 in
    (v.counted, ground (arith, v.done_is, v.counted))

-- In a run from any state that a new coordinator reaches, a job that has a terminal state keeps it:
-- reports, dead letters and decisions that come later do not change it.
pub terminal-stays :
    (rec : Recorder) (c c' : Coordinator) (id state : String)
    → Reach (new_coordinator rec) c
    → Reach c c'
    → lookup id c.terminal ≡ some state
    → lookup id c'.terminal ≡ some state
terminal-stays rec c c' id state r s h =
    (Reach-Goes (Reach-Goes (new_coordinator-Inv rec) r).0 s).1 id state h
