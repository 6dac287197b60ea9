-- ===== src/Dispatcher/SqsSession/Filling.antt =====
-- The loop of runSQSCoordinator (cmd/dispatcher/sqs.go) that submits the jobs.
use job_scheduler_tooling.Prelude.{
  ℕ, ◌+◌, ◌<◌, ◌==◌, ◌≡◌, refl, sym, ap, ◌∙◌, subst, String, false, List, [], ◌∷◌, Option, none,
  some, arith, All, if_split, option_split, inl, inr, Bool-cases, eq_refl, length,
}
use job_scheduler_tooling.Prelude.Int.{ℤ, pos, ltb_ℤ, add64}
use job_scheduler_tooling.Prelude.Dict.{lookup, lookup-insert}
use job_scheduler_tooling.Text.Decimal.{numbered}
use job_scheduler_tooling.Text.Numbering.{IsCounted}
use job_scheduler_tooling.Inference
use job_scheduler_tooling.Queue.{Job, Time}
use job_scheduler_tooling.Dispatch.Sqs.{Coordinator, SubmitError, submit, accept, admitted, log}
use job_scheduler_tooling.Dispatch.Sqs.System.{
  Message, Service, System, Reach, next, submitted, enqueued,
}
use job_scheduler_tooling.Dispatcher.Jobs.{IsReady}
use job_scheduler_tooling.Dispatcher.Chaos.{mark_chaos, assign_chaos}
use job_scheduler_tooling.Dispatcher.SqsSession.{
  submit_and_send, after_submit, submit_each, submit_others,
}

submit-accept :
    (now : Time) (job : Job) (c : Coordinator)
    → Inference.validate job.inference ≡ none
    → c.closed ≡ false
    → submit now job none c ≡ (accept now job c, none)
unfolding submit
submit-accept now job c valid is_open =
    option_split (λ (x : Coordinator × Option SubmitError). x ≡ (accept now job c, none))
      (Inference.validate job.inference)
      (λ _.
        if_split (λ x. x ≡ (accept now job c, none)) c.closed (λ t. cc (t, is_open)) (λ _. refl))
      (λ e bad. cc (valid, bad))

accept-lookup :
    (now : Time) (job : Job) (c : Coordinator)
    → lookup job.id (accept now job c).jobs ≡ some (admitted now job)
unfolding accept log admitted
accept-lookup now job c =
    rw (lookup-insert job.id job.id (admitted now job) c.jobs, eq_refl job.id) refl

accept-count :
    (now : Time) (job : Job) (c : Coordinator)
    → ((accept now job c).closed ≡ c.closed)
      × ((accept now job c).stats.submitted ≡ c.stats.submitted + 1)
unfolding accept log
accept-count now job c = (refl, refl)

-- Jobs whose batches pass Validate.
abbrev pub AreValid : List Job → Type 0
AreValid jobs = All (λ (j : Job). Inference.validate j.inference ≡ none) jobs

-- A chaos job keeps its ID and its batch.
mark_chaos-same :
    (poison hang : ℤ) (i : ℕ) (job : Job)
    → ((mark_chaos poison hang i job).id ≡ job.id)
      × ((mark_chaos poison hang i job).inference ≡ job.inference)
unfolding mark_chaos
mark_chaos-same poison hang i job =
    let P : Job → Type 0 = λ (j : Job). (j.id ≡ job.id) × (j.inference ≡ job.inference) in
    if_split P (ltb_ℤ (pos i) poison) (λ _. (refl, refl))
      (λ _. if_split P (ltb_ℤ (pos i) (add64 poison hang)) (λ _. (refl, refl)) (λ _. (refl, refl)))

pub assign_chaos-same :
    (poison hang : ℤ) (i k : ℕ) (jobs : List Job)
    → IsCounted "inference-" k jobs
    → All IsReady jobs
    → IsCounted "inference-" k (assign_chaos poison hang i jobs)
      × AreValid (assign_chaos poison hang i jobs)
      × (length (assign_chaos poison hang i jobs) ≡ length jobs)
unfolding assign_chaos
assign_chaos-same poison hang i k [] counted ready = (tt, tt, refl)
assign_chaos-same poison hang i k (job ∷ jobs) (id, counted) (r, ready) =
    let (same_id, same_batch) = mark_chaos-same poison hang i job in
    let (ids, valid, size) = assign_chaos-same poison hang (i + 1) (k + 1) jobs counted ready in
    ((same_id ∙ id, ids), (ap Inference.validate same_batch ∙ r.valid, valid), omega (arith, size))

module _ {Q : Type 0} (sqs : Service Q) where
  -- The first jobs are submitted and in the queues.
  pub record IsQueued (s₀ : System Q) (n : ℕ) (s : System Q) : Type 0 where
    pub path : Reach sqs s₀ s
    pub is_open : s.coordinator.closed ≡ false
    pub count : s.coordinator.stats.submitted ≡ n
    pub held :
        (i : ℕ) → i < n → (m : Message) × sqs.Holds s.queues m × (m.id ≡ numbered "inference-" i)

  submit_and_send-IsQueued :
      (s₀ s : System Q) (n : ℕ) (now : Time) (job : Job)
      → job.id ≡ numbered "inference-" n
      → Inference.validate job.inference ≡ none
      → IsQueued s₀ n s
      → ((submit_and_send sqs now none job s).1 ≡ none)
        × IsQueued s₀ (n + 1) (submit_and_send sqs now none job s).0
  unfolding submit_and_send after_submit admitted
  submit_and_send-IsQueued s₀ s n now job id valid v =
      let c = accept now job s.coordinator in
      let taken : submit now job none s.coordinator ≡ (c, none) =
        submit-accept now job s.coordinator valid v.is_open in
      let (stays, counts) = accept-count now job s.coordinator in
      rw taken (
        refl,
        record {
          path =
              next (next v.path (submitted now job none (rw taken refl)))
                (enqueued (admitted now job) (accept-lookup now job s.coordinator) refl);
          is_open = stays ∙ v.is_open;
          count = omega (arith, counts, v.count);
          held = λ i lt. elim (Bool-cases (i == n)) [
            | inl same ↦
                let at : i ≡ n = ground (arith, same) in
                (
                  _,
                  sqs.send-adds (admitted now job) s.queues,
                  id ∙ ap (numbered "inference-") (sym at),
                )
            | inr other ↦
                let before : i < n = ground (arith, other, lt) in
                let (m, there, named) = v.held i before in
                (m, sqs.send-keeps (admitted now job) s.queues m there, named)
          ];
        },
      )

  go_on :
      (others : System Q → System Q × Option SubmitError) (x : System Q × Option SubmitError)
      → x.1 ≡ none
      → submit_others others x ≡ others x.0
  go_on others (s, some e) fine = absurd (cc fine)
  go_on others (s, none) fine = refl

  pub submit_each-IsQueued :
      (clock : ℕ → Time) (sends : ℕ → Option String) (s₀ s : System Q) (n : ℕ) (jobs : List Job)
      → ((k : ℕ) → sends k ≡ none)
      → IsCounted "inference-" n jobs
      → AreValid jobs
      → IsQueued s₀ n s
      → ((submit_each sqs clock sends n jobs s).1 ≡ none)
        × IsQueued s₀ (n + length jobs) (submit_each sqs clock sends n jobs s).0
  unfolding submit_each
  submit_each-IsQueued clock sends s₀ s n [] good counted valid v =
      (refl, subst (λ k. IsQueued s₀ k s) (omega arith) v)
  submit_each-IsQueued clock sends s₀ s n (job ∷ jobs) good (id, counted) (batch, valid) v =
      let (fine, w) = submit_and_send-IsQueued s₀ s n (clock n) job id batch v in
      let x = submit_and_send sqs (clock n) none job s in
      let (done, more) =
        submit_each-IsQueued clock sends s₀ x.0 (n + 1) jobs good counted valid w in
      rw (good n, go_on (submit_each sqs clock sends (n + 1) jobs) x fine)
        (
          done,
          subst (λ k. IsQueued s₀ k (submit_each sqs clock sends (n + 1) jobs x.0).0) (omega arith)
              more,
        )
