-- ===== src/Dispatch/Sqs/System/Completion.antt =====
-- The end of a run in SQS mode, and the submitted jobs.
use job_scheduler_tooling.Prelude.{
  ◌≡◌, inl, inr, String, true, List, [], ◌∷◌, Option, none, some, str_eq, if_split, arith, subst,
}
use job_scheduler_tooling.Prelude.Dict.Keys.{keys-full}
use job_scheduler_tooling.Queue.{Job}
use job_scheduler_tooling.Telemetry.{Recorder}
use job_scheduler_tooling.Dispatch.Sqs.{Coordinator, status}
use job_scheduler_tooling.Dispatch.Sqs.Ack.{HasEnded}
use job_scheduler_tooling.Dispatch.Sqs.Worker.{
  QueueCall, ack, release, send, attempt_of, started_args, report_args,
}
use job_scheduler_tooling.Dispatch.Sqs.System.{
  Message, Service, Phase, idle, received, settling, System, Step, Reach, here, next, submitted,
  enqueued, submissions_end, ticked, changed, delivered, began, ran, decided, called, dropped,
  reply_lost, set_phase, perform, failed_args, put, start, AreHeld, ArePeeked,
}
use job_scheduler_tooling.Dispatch.Sqs.System.Phases.{PhaseOk}
use job_scheduler_tooling.Dispatch.Sqs.System.Kept
use job_scheduler_tooling.Dispatch.Sqs.System.Known.{
  IsSubmitted, IsSound, Extends, AreSubmitted, FoundAreSubmitted, new_coordinator-IsSound,
  submit-Extends, close-Extends, started-Extends, report_begin-Extends, report_end-Extends,
  tick-Extends,
}
use job_scheduler_tooling.Dispatch.Sqs.System.About.{
  IsAbout, IsAbout-Extends, Calls, after_started-Calls, after_begin-Calls, after_end-Calls,
}

module _ {Q : Type 0} (sqs : Service Q) where
  record Inv (s : System Q) : Type 0 where
    pub kept : Kept.Inv sqs s
    pub sound : IsSound s.coordinator
    pub held : (m : Message) → sqs.Holds s.queues m → IsSubmitted s.coordinator m.id
    pub about : (w : String) → IsAbout s.coordinator (s.workers w)

  -- The part that is not in Kept.
  abbrev Sub : System Q → Type 0
  Sub s =
      IsSound s.coordinator
      × ((m : Message) → sqs.Holds s.queues m → IsSubmitted s.coordinator m.id)
      × ((w : String) → IsAbout s.coordinator (s.workers w))

  coordinator-Sub :
      (s : System Q) (c : Coordinator)
      → Inv s
      → Extends s.coordinator c
      → Sub (record s { coordinator = c })
  coordinator-Sub s c v x = (
    x.0,
    λ m h. x.1 m.id (v.held m h),
    λ w. IsAbout-Extends s.coordinator c (s.workers w) x (v.about w),
  )

  worker-Sub :
      (s : System Q) (worker : String) (m : Message) (x : Coordinator × Phase)
      → Inv s
      → IsSubmitted s.coordinator m.id
      → Calls s.coordinator m x
      → Sub (put worker x s)
  worker-Sub s worker m (c, p) v known calls = (
    calls.extends.0,
    λ k h. calls.extends.1 k.id (v.held k h),
    λ w.
        if_split (IsAbout c) (str_eq worker w) (λ _. calls.about (calls.extends.1 m.id known))
          (λ _. IsAbout-Extends s.coordinator c (s.workers w) calls.extends (v.about w)),
  )

  phase-Sub :
      (s : System Q) (worker : String) (p : Phase) (q : Q)
      → Inv s
      → IsAbout s.coordinator p
      → ((m : Message) → sqs.Holds q m → IsSubmitted s.coordinator m.id)
      → Sub (record s { queues = q; workers = set_phase worker p s.workers })
  phase-Sub s worker p q v mine held = (
    v.sound,
    held,
    λ w. if_split (IsAbout s.coordinator) (str_eq worker w) (λ _. mine) (λ _. v.about w),
  )

  AreHeld-AreSubmitted :
      (s : System Q) (jobs : List Job)
      → Inv s
      → AreHeld sqs s.queues jobs
      → AreSubmitted s.coordinator jobs
  unfolding AreHeld
  AreHeld-AreSubmitted s [] v h = tt
  AreHeld-AreSubmitted s (job ∷ jobs) v ((m, held, same), more) =
      (subst (IsSubmitted s.coordinator) same (v.held m held), AreHeld-AreSubmitted s jobs v more)

  found :
      (s : System Q) (dead : Option (List Job))
      → Inv s
      → ArePeeked sqs s.queues dead
      → FoundAreSubmitted s.coordinator dead
  unfolding ArePeeked
  found s none v h = tt
  found s (some jobs) v h = AreHeld-AreSubmitted s jobs v h

  send-held :
      (s : System Q) (j : Job)
      → Inv s
      → IsSubmitted s.coordinator j.id
      → (m : Message) → sqs.Holds (sqs.send j s.queues) m
      → IsSubmitted s.coordinator m.id
  send-held s j v known m h = elim (sqs.send-only j s.queues m h) [
    | inl old ↦ v.held m old
    | inr new ↦ rw new known
  ]

  perform-held :
      (s : System Q) (call : QueueCall) (calls : List QueueCall) (m : Message)
      → Inv s
      → IsSubmitted s.coordinator m.id
      → PhaseOk sqs s.coordinator s.queues (settling m (call ∷ calls))
      → (k : Message) → sqs.Holds (perform sqs call m s.queues) k
      → IsSubmitted s.coordinator k.id
  unfolding perform
  perform-held s ack calls m v known ok k h = v.held k (sqs.delete-only m s.queues k h)
  perform-held s release calls m v known ok k h = v.held k (sqs.release-only m s.queues k h)
  perform-held s (send j (some e)) calls m v known ok k h = v.held k h
  perform-held s (send j none) calls m v known (old, sends, later) k h =
      send-held s j v (rw sends.0 known) k h

  -- What a worker knows of its message.
  own :
      {s : System Q} {p : Phase}
      → Inv s
      → (worker : String) → s.workers worker ≡ p
      → IsAbout s.coordinator p
  own {s} v worker at = subst (IsAbout s.coordinator) at (v.about worker)

  Step-Sub : {s s' : System Q} → Inv s → Step sqs s s' → Sub s'
  Step-Sub {s} v (submitted now job error e) =
      rw e (coordinator-Sub s _ v (submit-Extends now job error s.coordinator v.sound))
  Step-Sub {s} v (enqueued job known e) = rw e (v.sound, send-held s job v (job, known), v.about)
  Step-Sub {s} v (submissions_end e) =
      rw e (coordinator-Sub s _ v (close-Extends s.coordinator v.sound))
  Step-Sub {s} v (ticked now dead peeked e) =
      rw e (
        coordinator-Sub s _ v (tick-Extends now dead s.coordinator v.sound (found s dead v peeked)))
  Step-Sub {s} v (changed q change e) =
      rw e (v.sound, λ m h. v.held m (sqs.change-only s.queues q m change h), v.about)
  Step-Sub {s} v (delivered worker m d free held named e) =
      rw e (phase-Sub s worker (received m d) s.queues v (v.held m held) v.held)
  Step-Sub {s} v (began worker m d now at e) = rw e (
      worker-Sub s worker m _ v (own v worker at) (
        after_started-Calls s.coordinator m d _
          (started-Extends (started_args worker d) now s.coordinator v.sound)))
  Step-Sub {s} v (ran worker m d outcome now at lively e) = rw e (
      worker-Sub s worker m _ v (own v worker at) (
        after_begin-Calls s.coordinator m d outcome _ (
          report_begin-Extends (report_args worker d (attempt_of d) outcome) now s.coordinator
            v.sound (rw (Kept.standing sqs v.kept worker at).1 (own v worker at)))))
  Step-Sub {s} v (decided worker m d err agent error now at e) = rw e (
      worker-Sub s worker m _ v (own v worker at) (
        after_end-Calls s.coordinator m d error _ (
          report_end-Extends (failed_args worker d err) now _ s.coordinator v.sound
            (rw (Kept.standing sqs v.kept worker at).1 (own v worker at)))))
  Step-Sub {s} v (called worker m call calls at e) = rw e (
      phase-Sub s worker (settling m calls) _ v (own v worker at)
        (perform-held s call calls m v (own v worker at) (Kept.standing sqs v.kept worker at)))
  Step-Sub {s} v (reply_lost worker m j text calls at e) =
      let (old, sends, later) = Kept.standing sqs v.kept worker at in
      rw e (v.sound, send-held s j v (rw sends.0 (own v worker at)), v.about)
  Step-Sub {s} v (dropped worker e) = rw e (phase-Sub s worker idle s.queues v tt v.held)

  Reach-Inv : {s s' : System Q} → Inv s → Reach sqs s s' → Inv s'
  Reach-Inv v here = v
  Reach-Inv v (next r step) =
      let w = Reach-Inv v r in
      let (sound, held, about) = Step-Sub w step in
      record {
        kept = (Kept.Step-Goes sqs w.kept step).0;
        sound = sound;
        held = held;
        about = about;
      }

  start-Inv :
      (recorder : Recorder) (q : Q) → ((m : Message) → ¬ (sqs.Holds q m)) → Inv (start recorder q)
  unfolding start
  start-Inv recorder q empty = record {
    kept = Kept.start-Inv sqs recorder q;
    sound = new_coordinator-IsSound recorder;
    held = λ m h. absurd (empty m h);
    about = λ _. tt;
  }

  pub Reach-trans : {s t u : System Q} → Reach sqs s t → Reach sqs t u → Reach sqs s u
  Reach-trans r here = r
  Reach-trans r (next q step) = next (Reach-trans r q) step

  -- Whatever is in the queues was submitted.
  pub held-IsSubmitted :
      (recorder : Recorder) (q : Q) (s : System Q) (m : Message)
      → ((k : Message) → ¬ (sqs.Holds q k))
      → Reach sqs (start recorder q) s
      → sqs.Holds s.queues m
      → IsSubmitted s.coordinator m.id
  held-IsSubmitted recorder q s m empty r h = (Reach-Inv (start-Inv recorder q empty) r).held m h

  -- In a run of the SQS mode from a new coordinator beside queues without a message, whatever the
  -- workers and the agent do and whichever workers die: when Status says done, every submitted job has
  -- a terminal state, and no job has one that was not submitted.
  pub done-AllEnded :
      (recorder : Recorder) (q : Q) (s : System Q)
      → ((m : Message) → ¬ (sqs.Holds q m))
      → Reach sqs (start recorder q) s
      → status s.coordinator ≡ true
      → (id : String)
      → (IsSubmitted s.coordinator id → HasEnded s.coordinator id)
        × (HasEnded s.coordinator id → IsSubmitted s.coordinator id)
  unfolding status
  done-AllEnded recorder q s empty r done id =
      let v = Reach-Inv (start-Inv recorder q empty) r in
      (
        keys-full s.coordinator.terminal s.coordinator.jobs v.kept.core.unique v.sound.known
            (ground (arith, done, v.kept.core.done_is, v.sound.fits)) id,
        v.sound.known id,
      )
