-- ===== src/Dispatch/Sqs/System/Kept.antt =====
-- The jobs of the SQS mode after each step of the system: what becomes of them where workers die.
use job_scheduler_tooling.Prelude.{
  ◌+◌, ◌<◌, ◌≡◌, ◌⊎◌, subst, inl, inr, refl, String, Bool, true, false, List, ◌∷◌, Option, none,
  some, str_eq, if_split, arith,
}
use job_scheduler_tooling.Telemetry.{Recorder}
use job_scheduler_tooling.Queue.{Job}
use job_scheduler_tooling.Triage.{Decision}
use job_scheduler_tooling.SqsQueue.{Delivery}
use job_scheduler_tooling.Dispatch.Sqs.{Coordinator, SqsReported, duplicate, finished, failed}
use job_scheduler_tooling.Dispatch.Sqs.Terminal
use job_scheduler_tooling.Dispatch.Sqs.Runs
use job_scheduler_tooling.Dispatch.Sqs.Ack.{HasEnded}
use job_scheduler_tooling.Dispatch.Sqs.Worker.{
  QueueCall, ack, release, send, settle, attempt_of, started_args, report_args,
}
use job_scheduler_tooling.Dispatch.Sqs.System.{
  Message, Service, Phase, idle, received, settling, System, Step, Reach, here, next, submitted,
  enqueued, submissions_end, ticked, changed, delivered, began, ran, decided, called, dropped,
  reply_lost, after_started, after_begin, after_end, set_phase, perform, failed_args, put, start,
}
use job_scheduler_tooling.Dispatch.Sqs.System.Lives.{
  Lives, Evolves, coordinator-Evolves, queues-Evolves, send-Evolves, perform-Evolves,
}
use job_scheduler_tooling.Dispatch.Sqs.System.Phases.{
  PhaseOk, PhaseOk-Evolves, IsOk, after_started-IsOk, after_begin-IsOk, after_end-IsOk,
}

-- The calls of a worker change the coordinator as its own operations do.
after_started-coordinator :
    (m : Message) (d : Delivery) (x : Coordinator × Bool) → (after_started m d x).0 ≡ x.0
unfolding after_started
after_started-coordinator m d (c, true) = refl
after_started-coordinator m d (c, false) = refl

after_begin-coordinator :
    (m : Message) (d : Delivery) (outcome : Option String) (x : Coordinator × SqsReported)
    → (after_begin m d outcome x).0 ≡ x.0
unfolding after_begin
after_begin-coordinator m d outcome (c, duplicate) = refl
after_begin-coordinator m d outcome (c, finished) = refl
after_begin-coordinator m d outcome (c, failed) = refl

after_end-coordinator :
    (m : Message) (d : Delivery) (error : Option String) (x : Coordinator × Option Decision)
    → (after_end m d error x).0 ≡ x.0
unfolding after_end settle
after_end-coordinator m d error (c, none) = refl
after_end-coordinator m d error (c, some decision) = refl

module _ {Q : Type 0} (sqs : Service Q) where
  pub record Inv (s : System Q) : Type 0 where
    pub core : Terminal.Inv s.coordinator
    pub phases : (w : String) → PhaseOk sqs s.coordinator s.queues (s.workers w)

  -- What a step keeps.
  abbrev pub Goes : System Q → System Q → Type 0
  Goes s s' = Inv s' × Evolves sqs s.coordinator s.queues s'.coordinator s'.queues

  -- A step of no worker.
  system-Goes :
      (s : System Q) (c : Coordinator) (q : Q)
      → Inv s
      → Terminal.Inv c
      → Evolves sqs s.coordinator s.queues c q
      → Goes s (record s { coordinator = c; queues = q })
  system-Goes s c q v core e = (
    record {
      core = core;
      phases = λ w. PhaseOk-Evolves sqs s.coordinator c s.queues q (s.workers w) e (v.phases w);
    },
    e,
  )

  -- A step of a worker.
  worker-Goes :
      (s : System Q) (worker : String) (c : Coordinator) (q : Q) (p : Phase)
      → Inv s
      → Terminal.Inv c
      → Evolves sqs s.coordinator s.queues c q
      → PhaseOk sqs c q p
      → Goes s (record { coordinator = c; queues = q; workers = set_phase worker p s.workers })
  worker-Goes s worker c q p v core e ok = (
    record {
      core = core;
      phases = λ w.
          if_split (PhaseOk sqs c q) (str_eq worker w) (λ _. ok)
            (λ _. PhaseOk-Evolves sqs s.coordinator c s.queues q (s.workers w) e (v.phases w));
    },
    e,
  )

  same-Evolves : (c : Coordinator) (q : Q) → Evolves sqs c q c q
  same-Evolves c q = coordinator-Evolves sqs c c q (λ _ _ h. h)

  coordinator-Goes :
      (s : System Q) (c : Coordinator)
      → Inv s
      → Runs.Step s.coordinator c
      → Goes s (record s { coordinator = c })
  coordinator-Goes s c v step =
      let (core, keeps) = Runs.Step-Goes v.core step in
      system-Goes s c s.queues v core (coordinator-Evolves sqs s.coordinator c s.queues keeps)

  put-Goes :
      (s : System Q) (worker : String) (x : Coordinator × Phase)
      → Inv s
      → Runs.Step s.coordinator x.0
      → IsOk sqs s.queues x
      → Goes s (put worker x s)
  unfolding IsOk
  put-Goes s worker (c, p) v step ok =
      let (core, keeps) = Runs.Step-Goes v.core step in
      worker-Goes s worker c s.queues p v core
        (coordinator-Evolves sqs s.coordinator c s.queues keeps) ok

  sent_again :
      (c : Coordinator) (j : Job) (m : Message) (q : Q)
      → m.number < sqs.sent q
      → j.id ≡ m.id
      → Lives sqs c (perform sqs (send j none) m q) m.id (m.number + 1)
  unfolding perform
  sent_again c j m q old named =
      inr (record { number = sqs.sent q; id = j.id }, sqs.send-adds j q, named, omega (arith, old))

  -- What is left of a worker's calls after one of them.
  called-Ok :
      (c : Coordinator) (q : Q) (m : Message) (call : QueueCall) (calls : List QueueCall)
      → PhaseOk sqs c q (settling m (call ∷ calls))
      → Evolves sqs c q c (perform sqs call m q)
        × PhaseOk sqs c (perform sqs call m q) (settling m calls)
  called-Ok c q m ack calls (old, sends, later) =
      let e = perform-Evolves sqs c ack m q (λ _. later refl) in
      (e, (omega (arith, old, e.sent), sends, λ _. e.lives m.id (m.number + 1) (later refl)))
  called-Ok c q m release calls (old, sends, later) =
      let e = perform-Evolves sqs c release m q (λ same. cc) in
      (e, (omega (arith, old, e.sent), sends, λ k. e.lives m.id (m.number + 1) (later k)))
  called-Ok c q m (send j (some text)) calls (old, sends, later) =
      let e = perform-Evolves sqs c (send j (some text)) m q (λ same. cc) in
      (e, (omega (arith, old, e.sent), sends.1, λ k. e.lives m.id (m.number + 1) (later k)))
  called-Ok c q m (send j none) calls (old, sends, later) =
      let e = perform-Evolves sqs c (send j none) m q (λ same. cc) in
      (e, (omega (arith, old, e.sent), sends.1, λ _. sent_again c j m q old sends.0))

  pub standing :
      {s : System Q} {p : Phase}
      → Inv s
      → (worker : String) → s.workers worker ≡ p
      → PhaseOk sqs s.coordinator s.queues p
  standing {s} v worker at = subst (PhaseOk sqs s.coordinator s.queues) at (v.phases worker)

  pub Step-Goes : {s s' : System Q} → Inv s → Step sqs s s' → Goes s s'
  Step-Goes {s} v (submitted now job error e) =
      rw e (coordinator-Goes s _ v (Runs.submitted now job error refl))
  Step-Goes {s} v (enqueued job known e) =
      rw e (system-Goes s s.coordinator _ v v.core (send-Evolves sqs s.coordinator job s.queues))
  Step-Goes {s} v (submissions_end e) = rw e (coordinator-Goes s _ v (Runs.submissions_end refl))
  Step-Goes {s} v (ticked now dead peeked e) =
      rw e (coordinator-Goes s _ v (Runs.ticked now dead refl))
  Step-Goes {s} v (changed q change e) = rw e (
      system-Goes s s.coordinator q v v.core (
        queues-Evolves sqs s.coordinator s.queues q
          (omega (arith, sqs.change-sent s.queues q change))
          (λ m. sqs.change-keeps s.queues q m change)))
  Step-Goes {s} v (delivered worker m d free held named e) = rw e (
      worker-Goes s worker s.coordinator s.queues (received m d) v v.core
        (same-Evolves s.coordinator s.queues) (sqs.Holds-sent s.queues m held, named))
  Step-Goes {s} v (began worker m d now at e) = rw e (
      put-Goes s worker _ v
        (Runs.delivery_started (started_args worker d) now (after_started-coordinator m d _))
        (after_started-IsOk sqs s.queues m d worker now s.coordinator (standing v worker at)))
  Step-Goes {s} v (ran worker m d outcome now at lively e) = rw e (
      put-Goes s worker _ v
        (Runs.report_began (report_args worker d (attempt_of d) outcome) now
          (after_begin-coordinator m d outcome _))
        (after_begin-IsOk sqs s.queues m d worker outcome now s.coordinator (standing v worker at)))
  Step-Goes {s} v (decided worker m d err agent error now at e) = rw e (
      put-Goes s worker _ v
        (Runs.report_ended (failed_args worker d err) now _ (after_end-coordinator m d error _))
        (after_end-IsOk sqs s.queues m d worker err agent error now s.coordinator
          (standing v worker at)))
  Step-Goes {s} v (called worker m call calls at e) =
      let (evolves, ok) = called-Ok s.coordinator s.queues m call calls (standing v worker at) in
      rw e (worker-Goes s worker s.coordinator _ (settling m calls) v v.core evolves ok)
  Step-Goes {s} v (reply_lost worker m j text calls at e) =
      rw e (system-Goes s s.coordinator _ v v.core (send-Evolves sqs s.coordinator j s.queues))
  Step-Goes {s} v (dropped worker e) = rw e (
      worker-Goes s worker s.coordinator s.queues idle v v.core
        (same-Evolves s.coordinator s.queues) tt)

  Reach-Goes : {s s' : System Q} → Inv s → Reach sqs s s' → Goes s s'
  Reach-Goes {s} v here = (v, same-Evolves s.coordinator s.queues)
  Reach-Goes v (next r step) =
      let (w, e) = Reach-Goes v r in
      let (w', e') = Step-Goes w step in
      (
        w',
        record {
          sent = omega (arith, e.sent, e'.sent);
          lives = λ id n h. e'.lives id n (e.lives id n h);
        },
      )

  pub start-Inv : (recorder : Recorder) (q : Q) → Inv (start recorder q)
  unfolding start
  start-Inv recorder q = record { core = Runs.new_coordinator-Inv recorder; phases = λ _. tt }

  -- In a run of the SQS mode from a new coordinator, beside any queues: from when a message under a
  -- job's ID is in the queues on, and whichever workers die between any two of their calls, either the
  -- coordinator has a terminal state for the job or some message under its ID is in the queues or the
  -- dead-letter queue.
  pub held-stays :
      (recorder : Recorder) (q : Q) (s s' : System Q) (m : Message)
      → Reach sqs (start recorder q) s
      → Reach sqs s s'
      → sqs.Holds s.queues m
      → HasEnded s'.coordinator m.id ⊎ ((k : Message) × sqs.Holds s'.queues k × (k.id ≡ m.id))
  held-stays recorder q s s' m r run held =
      let v = (Reach-Goes (start-Inv recorder q) r).0 in
      elim ((Reach-Goes v run).1.lives m.id 0 (inr (m, held, refl, omega arith))) [
        | inl ended ↦ inl ended
        | inr (k, there, named, from) ↦ inr (k, there, named)
      ]
