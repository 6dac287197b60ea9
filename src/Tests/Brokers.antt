-- ===== src/Tests/Brokers.antt =====
-- internal/dispatch/broker.go on a concrete run: a job is submitted, submissions end, a worker
-- claims the job and reports a failure, and the job is queued again.
use job_scheduler_tooling.Prelude.{
  ◌≡◌, ◌↔◌, ◌+◌, ◌≤◌, ◌<◌, refl, true, false, List, [], ◌∷◌, none, arith, some, ◌⊎◌, inl, String,
  ◌*◌,
}
use job_scheduler_tooling.Prelude.Int.{pos, negsuc, add64}
use job_scheduler_tooling.Prelude.Partial.{Yields}
use job_scheduler_tooling.Triage.{policy_agent, validate, decision, retry}
use job_scheduler_tooling.Queue.{Job, JobState}
use job_scheduler_tooling.Queue
use job_scheduler_tooling.Inference
use job_scheduler_tooling.Prelude.Dict.{insert, lookup, erase}
use job_scheduler_tooling.Dispatch.Broker.Weight.{total}
use job_scheduler_tooling.Dispatch.Broker.{
  Broker, ReportArgs, Reported, ClaimReply, new_broker, submit, close_submissions, claim,
  report_begin, report_end, report, claim_empty, claimed, admitted,
}
use job_scheduler_tooling.Dispatch.Broker
use job_scheduler_tooling.Dispatch.Broker.Invariant.{Inv, IsIdle}
use job_scheduler_tooling.Dispatch.Broker.Submit.{SubmitResult, submit-SubmitResult, new_broker-Inv}
use job_scheduler_tooling.Dispatch.Broker.Claim.{ClaimResult, Stops, claim-ClaimResult, claim-Stops}
use job_scheduler_tooling.Dispatch.Broker.Report.{
  Settled, ReportResult, report_end-Settled, report-ReportResult,
}
use job_scheduler_tooling.Dispatch.Broker.Runs.{
  Reach, here, next, submitted, submissions_end, report_began, Reach_new-Inv, Reach-done_iff,
}
use job_scheduler_tooling.Dispatch.Broker.Runs
use job_scheduler_tooling.Dispatch.Broker.Attempts.{potential}
use job_scheduler_tooling.Dispatch.Broker.Budget.{claims, granted, claims-le-granted}
use job_scheduler_tooling.Dispatcher.{Env, decode_failed, report_for}
use job_scheduler_tooling.Dispatcher.Watch.{watch_workers, AreClean, watch_succeeds_iff}
use job_scheduler_tooling.Dispatcher.Workers.{System, set_phase}
use job_scheduler_tooling.Dispatcher.Workers as W
use job_scheduler_tooling.Dispatcher.Workers.Progress.{CanAdvance, workers-CanAdvance}
use job_scheduler_tooling.Dispatcher.Workers.Effort.{advances, workers-Bounded}
use job_scheduler_tooling.Tests.Samples.{job, value_or}

abbrev fresh : Broker
fresh = new_broker none

abbrev only : Job
only = job "inference-000" 3 1

abbrev after_submit : Broker
after_submit = (value_or (fresh, none) (submit 1 only fresh)).0

abbrev after_close : Broker
after_close = close_submissions after_submit

abbrev no_reply : ClaimReply
no_reply = record { job = none; wait = false; shutdown = false }

abbrev after_claim : Broker × ClaimReply
after_claim = value_or (after_close, no_reply) (claim "worker-01" 2 after_close)

abbrev args : ReportArgs
args = record {
  worker_id = "worker-01";
  job_id = "inference-000";
  success = false;
  error = "transient GPU worker reset";
}

abbrev after_begin : Broker × Reported
after_begin = report_begin args 3 after_claim.0

abbrev with_triage : List Job
with_triage = Broker.Report.with_agent [] after_begin.1

-- The run up to the claim, then to the report, and then to the agent's decision.
run_closed : Reach fresh [] after_close []
unfolding new_broker submit close_submissions claim report_begin total Queue.new Inference.validate
    Broker.enqueue Queue.push Queue.heap_push Queue.up Queue.heap_append Queue.len Broker.maybe_done
    Broker.log Queue.pop Queue.heap_pop Queue.swap Queue.down Queue.heap_cut Broker.assign
    Broker.admitted claim_empty Broker.claimed Broker.report_found erase insert lookup add64
    Queue.child Queue.less Queue.precedes
run_closed =
    next (next here (submitted 1 only none refl refl (omega arith, omega arith) refl refl))
      (submissions_end refl refl)

run_claimed : Reach fresh [] after_claim.0 []
unfolding new_broker submit close_submissions claim report_begin total Queue.new Inference.validate
    Broker.enqueue Queue.push Queue.heap_push Queue.up Queue.heap_append Queue.len Broker.maybe_done
    Broker.log Queue.pop Queue.heap_pop Queue.swap Queue.down Queue.heap_cut Broker.assign
    Broker.admitted claim_empty Broker.claimed Broker.report_found erase insert lookup add64
    Queue.child Queue.less Queue.precedes
run_claimed = next run_closed (Runs.Step.claimed "worker-01" 2 after_claim.1 refl refl)

run : Reach fresh [] after_begin.0 with_triage
unfolding new_broker submit close_submissions claim report_begin total Queue.new Inference.validate
    Broker.enqueue Queue.push Queue.heap_push Queue.up Queue.heap_append Queue.len Broker.maybe_done
    Broker.log Queue.pop Queue.heap_pop Queue.swap Queue.down Queue.heap_cut Broker.assign
    Broker.admitted claim_empty Broker.claimed Broker.report_found erase insert lookup add64
    Queue.child Queue.less Queue.precedes
run = next run_claimed (report_began args 3 after_begin.1 refl refl)

Reach_new-Inv_example : Inv after_begin.0 with_triage
Reach_new-Inv_example = Reach_new-Inv none after_begin.0 with_triage run

Reach-done_iff_example :
    (after_begin.0.done ≡ true) ↔ ((after_begin.0.closed ≡ true) × IsIdle after_begin.0 with_triage)
Reach-done_iff_example = Reach-done_iff none after_begin.0 with_triage run

claims-le-granted_example : potential after_begin.0 with_triage + claims run ≤ granted run
claims-le-granted_example = claims-le-granted none after_begin.0 with_triage run

submit-SubmitResult_example : Yields (SubmitResult 1 only fresh []) (submit 1 only fresh)
unfolding new_broker total Queue.new
submit-SubmitResult_example = submit-SubmitResult 1 only fresh [] (new_broker-Inv none) refl

close_Inv : Inv after_close []
close_Inv = Reach_new-Inv none after_close [] run_closed

claim-ClaimResult_example :
    Yields (ClaimResult "worker-01" 2 after_close []) (claim "worker-01" 2 after_close)
claim-ClaimResult_example = claim-ClaimResult "worker-01" 2 after_close [] close_Inv

claimed_Inv : Inv after_claim.0 []
claimed_Inv = Reach_new-Inv none after_claim.0 [] run_claimed

report-ReportResult_example :
    Yields (ReportResult args after_claim.0 []) (report policy_agent args 3 4 after_claim.0)
report-ReportResult_example = report-ReportResult policy_agent args 3 4 after_claim.0 [] claimed_Inv

begun_Inv : Inv after_begin.0 with_triage
begun_Inv = Reach_new-Inv none after_begin.0 with_triage run

-- The job is with the agent, and a second worker is told to stop.
claim-Stops_example : Yields (Stops with_triage) (claim "worker-02" 4 after_begin.0)
unfolding new_broker submit close_submissions claim report_begin total Queue.new Inference.validate
    Broker.enqueue Queue.push Queue.heap_push Queue.up Queue.heap_append Queue.len Broker.maybe_done
    Broker.log Queue.pop Queue.heap_pop Queue.swap Queue.down Queue.heap_cut Broker.assign
    Broker.admitted claim_empty Broker.claimed Broker.report_found erase insert lookup add64
    Queue.child Queue.less Queue.precedes
claim-Stops_example = claim-Stops "worker-02" 4 after_begin.0 with_triage begun_Inv refl refl refl

abbrev held : Job
held = record only {
  attempt = pos 1;
  state = JobState.running;
  start_time = 2;
  node = "worker-01";
  index = negsuc 0;
}

held_Inv : Inv after_begin.0 (held ∷ [])
unfolding new_broker submit close_submissions claim report_begin total Queue.new Inference.validate
    Broker.enqueue Queue.push Queue.heap_push Queue.up Queue.heap_append Queue.len Broker.maybe_done
    Broker.log Queue.pop Queue.heap_pop Queue.swap Queue.down Queue.heap_cut Broker.assign
    Broker.admitted claim_empty Broker.claimed Broker.report_found erase insert lookup add64
    Queue.child Queue.less Queue.precedes
held_Inv = begun_Inv

report_end-Settled_example :
    Yields
      (λ b'.
        Inv b' []
        × Settled held (decision retry "failure appears transient" "policy") after_begin.0 b'
        × (b'.running ≡ after_begin.0.running))
      (report_end args 4 held (decision retry "failure appears transient" "policy") after_begin.0)
unfolding validate
report_end-Settled_example =
    report_end-Settled args 4 held (decision retry "failure appears transient" "policy")
      after_begin.0 [] held_Inv refl

abbrev env : Env
env = record { clock = λ n. 3 + n; infer = λ n batch. decode_failed "EOF"; agent = policy_agent }

closed : after_close.closed ≡ true
unfolding new_broker submit close_submissions claim report_begin total Queue.new Inference.validate
    Broker.enqueue Queue.push Queue.heap_push Queue.up Queue.heap_append Queue.len Broker.maybe_done
    Broker.log Queue.pop Queue.heap_pop Queue.swap Queue.down Queue.heap_cut Broker.assign
    Broker.admitted claim_empty Broker.claimed Broker.report_found erase insert lookup add64
    Queue.child Queue.less Queue.precedes
closed = refl

idle : after_close.running ≡ []
unfolding new_broker submit close_submissions claim report_begin total Queue.new Inference.validate
    Broker.enqueue Queue.push Queue.heap_push Queue.up Queue.heap_append Queue.len Broker.maybe_done
    Broker.log Queue.pop Queue.heap_pop Queue.swap Queue.down Queue.heap_cut Broker.assign
    Broker.admitted claim_empty Broker.claimed Broker.report_found erase insert lookup add64
    Queue.child Queue.less Queue.precedes
idle = refl

left : potential after_close [] < 10
unfolding new_broker submit close_submissions claim report_begin total Queue.new Inference.validate
    Broker.enqueue Queue.push Queue.heap_push Queue.up Queue.heap_append Queue.len Broker.maybe_done
    Broker.log Queue.pop Queue.heap_pop Queue.swap Queue.down Queue.heap_cut Broker.assign
    Broker.admitted claim_empty Broker.claimed Broker.report_found erase insert lookup add64
    Queue.child Queue.less Queue.precedes potential
left = omega arith

-- A worker that succeeds with the only job; then it is told to stop.
abbrev ok_args : ReportArgs
ok_args = record args { success = true }

abbrev after_success : Broker × Reported
after_success = report_begin ok_args 3 after_claim.0

run_success : Reach fresh [] after_success.0 []
unfolding new_broker submit close_submissions claim report_begin total Queue.new Inference.validate
    Broker.enqueue Queue.push Queue.heap_push Queue.up Queue.heap_append Queue.len Broker.maybe_done
    Broker.log Queue.pop Queue.heap_pop Queue.swap Queue.down Queue.heap_cut Broker.assign
    Broker.admitted claim_empty Broker.claimed Broker.report_found erase insert lookup add64
    Queue.child Queue.less Queue.precedes
run_success = next run_claimed (report_began ok_args 3 after_success.1 refl refl)

success-done : after_success.0.done ≡ true
unfolding new_broker submit close_submissions claim report_begin total Queue.new Inference.validate
    Broker.enqueue Queue.push Queue.heap_push Queue.up Queue.heap_append Queue.len Broker.maybe_done
    Broker.log Queue.pop Queue.heap_pop Queue.swap Queue.down Queue.heap_cut Broker.assign
    Broker.admitted claim_empty Broker.claimed Broker.report_found erase insert lookup add64
    Queue.child Queue.less Queue.precedes
success-done = refl

watch_succeeds_iff_example :
    (watch_workers true after_success.0.done (none ∷ some "exit status 1" ∷ []) ≡ some none) ↔ (
      ((after_success.0.closed ≡ true) × IsIdle after_success.0 [])
      × AreClean (none ∷ some "exit status 1" ∷ []))
watch_succeeds_iff_example =
    watch_succeeds_iff none after_success.0 [] true none (some "exit status 1" ∷ []) run_success
      (λ _. success-done)

-- Two workers: the first fails, and the second is told to stop while the agent decides.
abbrev started : System
started = record { broker = after_close; with_agents = []; workers = λ _. W.idle; given_up = false }

abbrev one_works : System
one_works = record {
  broker = after_claim.0;
  with_agents = [];
  workers = set_phase "worker-01" (W.after_claim after_claim.1) started.workers;
  given_up = false;
}

-- Pop leaves the index -1.
abbrev taken : Job
taken = record (claimed "worker-01" 2 (admitted 1 only)) { index = negsuc 0 }

abbrev failure_report : Broker × Reported
failure_report =
    report_begin (report_for "worker-01" "inference-000" (some "reset")) 3 after_claim.0

abbrev one_waits : System
one_waits = record {
  broker = failure_report.0;
  with_agents = Broker.Report.with_agent [] failure_report.1;
  workers = set_phase "worker-01" (W.after_begin failure_report.1) one_works.workers;
  given_up = false;
}

abbrev second_reply : Broker × ClaimReply
second_reply = claim_empty failure_report.0

abbrev one_left : System
one_left = record one_waits {
  broker = second_reply.0;
  workers = set_phase "worker-02" (W.after_claim second_reply.1) one_waits.workers;
}

to_one_left : W.Reach started one_left
unfolding new_broker submit close_submissions claim report_begin total Queue.new Inference.validate
    Broker.enqueue Queue.push Queue.heap_push Queue.up Queue.heap_append Queue.len Broker.maybe_done
    Broker.log Queue.pop Queue.heap_pop Queue.swap Queue.down Queue.heap_cut Broker.assign
    Broker.admitted claim_empty Broker.claimed Broker.report_found erase insert lookup add64
    Queue.child Queue.less Queue.precedes W.after_claim W.after_begin
to_one_left =
    W.next
      (W.next
        (W.next W.here (W.claimed "worker-01" 2 after_claim.0 after_claim.1 refl refl refl refl))
        (W.reported "worker-01" taken (some "reset") 3 failure_report.0 failure_report.1 refl refl
          refl refl))
      (W.claimed "worker-02" 4 second_reply.0 second_reply.1 refl refl refl refl)

one_left-closed : one_left.broker.closed ≡ true
unfolding new_broker submit close_submissions claim report_begin total Queue.new Inference.validate
    Broker.enqueue Queue.push Queue.heap_push Queue.up Queue.heap_append Queue.len Broker.maybe_done
    Broker.log Queue.pop Queue.heap_pop Queue.swap Queue.down Queue.heap_cut Broker.assign
    Broker.admitted claim_empty Broker.claimed Broker.report_found erase insert lookup add64
    Queue.child Queue.less Queue.precedes
one_left-closed = refl

none_runs : after_close.running ≡ []
unfolding new_broker submit close_submissions Inference.validate Broker.enqueue Queue.push
    Queue.heap_push Queue.up Queue.heap_append Queue.len Broker.maybe_done Broker.log Queue.new
    Broker.admitted
none_runs = refl

workers-CanAdvance_example : (one_left.broker.done ≡ true) ⊎ ((w : String) × CanAdvance one_left w)
workers-CanAdvance_example =
    workers-CanAdvance none after_close (λ _. W.idle) "worker-01" one_left run_closed none_runs
      (λ w. inl refl) refl to_one_left refl one_left-closed

workers-Bounded_example : advances to_one_left ≤ 3 * granted run_closed
workers-Bounded_example =
    workers-Bounded none after_close (λ _. W.idle) "worker-01" one_left run_closed none_runs
      (λ w. inl refl) refl to_one_left
