-- ===== src/Dispatcher/SqsSession/Filled.antt =====
-- The queues of runSQSCoordinator (cmd/dispatcher/sqs.go) when submissions have ended.
use job_scheduler_tooling.Prelude.{
  ℕ, ◌+◌, ◌<◌, ◌≡◌, refl, ◌∙◌, subst, String, true, Option, none, some, arith, if_split, inl, inr,
  length,
}
use job_scheduler_tooling.Prelude.Int.{ℤ}
use job_scheduler_tooling.Prelude.Partial.{Yields, yields, Yields-then}
use job_scheduler_tooling.Text.Decimal.{numbered}
use job_scheduler_tooling.Queue.{Time}
use job_scheduler_tooling.Telemetry.{Recorder}
use job_scheduler_tooling.Dispatch.Sqs.{
  Coordinator, SubmitError, close_submissions, maybe_done, status, new_coordinator,
}
use job_scheduler_tooling.Dispatch.Sqs.Ack.{HasEnded}
use job_scheduler_tooling.Dispatch.Sqs.System.{
  Message, Service, System, Reach, here, next, submissions_end, start,
}
use job_scheduler_tooling.Dispatch.Sqs.System.Kept.{held-stays}
use job_scheduler_tooling.Dispatch.Sqs.System.Known.{IsSubmitted}
use job_scheduler_tooling.Dispatch.Sqs.System.Completion.{
  Reach-trans, held-IsSubmitted, done-AllEnded,
}
use job_scheduler_tooling.Dispatch.Broker.Runs.{value_of}
use job_scheduler_tooling.Dispatcher.Jobs.{Draw, generate_jobs-IsWorkload}
use job_scheduler_tooling.Dispatcher.Chaos.{assign_chaos}
use job_scheduler_tooling.Dispatcher.SqsSession.{submit_each, end_submissions, set_up}
use job_scheduler_tooling.Dispatcher.SqsSession.Filling.{
  IsQueued, assign_chaos-same, submit_each-IsQueued,
}

close-count :
    (c : Coordinator)
    → ((close_submissions c).closed ≡ true)
      × ((close_submissions c).stats.submitted ≡ c.stats.submitted)
unfolding close_submissions maybe_done
close-count c =
    if_split (λ (x : Coordinator). (x.closed ≡ true) × (x.stats.submitted ≡ c.stats.submitted)) _
      (λ _. (refl, refl)) (λ _. (refl, refl))

module _ {Q : Type 0} (sqs : Service Q) where
  -- The queues as the workers find them: submissions have ended, all of the asked-for jobs have
  -- been counted, and a message of each is there.
  pub record IsSetUp (s₀ : System Q) (n : ℕ) (s : System Q) : Type 0 where
    path : Reach sqs s₀ s
    is_closed : s.coordinator.closed ≡ true
    count : s.coordinator.stats.submitted ≡ n
    held : (i : ℕ) → i < n → (m : Message) × sqs.Holds s.queues m × (m.id ≡ numbered "inference-" i)

  start-IsQueued :
      (recorder : Recorder) (q : Q) → IsQueued sqs (start recorder q) 0 (start recorder q)
  unfolding start new_coordinator
  start-IsQueued recorder q = record {
    path = here;
    is_open = refl;
    count = refl;
    held = λ i lt. absurd (omega (arith, lt));
  }

  end_submissions-IsSetUp :
      (s₀ : System Q) (n : ℕ) (x : System Q × Option SubmitError)
      → (x.1 ≡ none) × IsQueued sqs s₀ n x.0
      → Yields (IsSetUp s₀ n) (end_submissions x)
  end_submissions-IsSetUp s₀ n (s, some e) (fine, v) = absurd (cc fine)
  end_submissions-IsSetUp s₀ n (s, none) (fine, v) =
      let (ended, same) = close-count s.coordinator in
      yields (record {
        path = next v.path (submissions_end refl);
        is_closed = ended;
        count = same ∙ v.count;
        held = v.held;
      })

  -- From a new coordinator and when every Send succeeds, whatever is drawn and however many chaos jobs
  -- are asked for, runSQSCoordinator gets its jobs into the queues, without an error and without an
  -- index out of range: by steps of the SQS mode it comes to where submissions have ended, as many jobs
  -- have been counted as asked for, and a message of each of them, inference-0 on, is in the queues.
  pub set_up-IsSetUp :
      (recorder : Recorder) (q : Q) (poison hang : ℤ) (clock : ℕ → Time) (sends : ℕ → Option String)
      (draws : ℕ → Draw) (base : Time) (seed : ℤ) (n : ℕ)
      → ((k : ℕ) → (draws k).size < 4)
      → ((k : ℕ) → sends k ≡ none)
      → Yields
          (IsSetUp (start recorder q) n)
          (set_up sqs poison hang clock sends draws base seed n (start recorder q))
  unfolding set_up
  set_up-IsSetUp recorder q poison hang clock sends draws base seed n drawn good =
      Yields-then (generate_jobs-IsWorkload draws base seed n drawn)
        (λ jobs ((size, counted, ready), _).
          let (ids, valid, same) = assign_chaos-same poison hang 0 0 jobs counted ready in
          let total : 0 + length (assign_chaos poison hang 0 jobs) ≡ n =
            omega (arith, same, size) in
          subst
            (λ k. Yields (IsSetUp (start recorder q) k) (
              end_submissions (
                submit_each sqs clock sends 0 (assign_chaos poison hang 0 jobs)
                  (start recorder q))))
            total
            (end_submissions-IsSetUp (start recorder q) _ _ (
              submit_each-IsQueued sqs clock sends (start recorder q) (start recorder q) 0 _ good
                ids valid (start-IsQueued recorder q))))

  -- A whole run in SQS mode, from empty queues and when every Send of the setup succeeds: whatever the
  -- workers and the agent do from the end of the setup on and whichever workers die, when Status says
  -- done, every job that was asked for has a terminal state.
  pub set_up-AllEnded :
      (recorder : Recorder) (q : Q) (poison hang : ℤ) (clock : ℕ → Time) (sends : ℕ → Option String)
      (draws : ℕ → Draw) (base : Time) (seed : ℤ) (n : ℕ) (s s' : System Q) (i : ℕ)
      → ((m : Message) → ¬ (sqs.Holds q m))
      → ((k : ℕ) → (draws k).size < 4)
      → ((k : ℕ) → sends k ≡ none)
      → set_up sqs poison hang clock sends draws base seed n (start recorder q) ≡ some s
      → Reach sqs s s'
      → status s'.coordinator ≡ true
      → i < n
      → HasEnded s'.coordinator (numbered "inference-" i)
  set_up-AllEnded recorder q poison hang clock sends draws base seed n s s' i empty drawn good run r
        done lt =
      let v =
        value_of _ s
          (set_up-IsSetUp recorder q poison hang clock sends draws base seed n drawn good) run in
      let path = Reach-trans sqs v.path r in
      let (m, held, named) = v.held i lt in
      let ends = done-AllEnded sqs recorder q s' empty path done (numbered "inference-" i) in
      elim (held-stays sqs recorder q s s' m v.path r held) [
        | inl ended ↦ subst (HasEnded s'.coordinator) named ended
        | inr (k, there, same) ↦ ends.0 (
            subst (IsSubmitted s'.coordinator) (same ∙ named)
              (held-IsSubmitted sqs recorder q s' k empty path there))
      ]
