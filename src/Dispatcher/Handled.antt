-- ===== src/Dispatcher/Handled.antt =====
-- What a worker's calls on the broker leave (cmd/dispatcher/main.go).
use job_scheduler_tooling.Prelude.{
  ℕ, ◌≡◌, refl, ◌∙◌, String, Bool, ◌&&◌, List, [], Option, none, some, arith, ◌==◌, str_eq,
  if_split, option_split, length,
}
use job_scheduler_tooling.Prelude.Dict.{lookup, erase}
use job_scheduler_tooling.Prelude.Partial.{Yields, yields, Yields-then, ◌>>=◌}
use job_scheduler_tooling.Queue.{Queue, Job, Time, push, pop, len}
use job_scheduler_tooling.Triage.{Failure, Decision, Answer, retry, auto_adjust, escalate}
use job_scheduler_tooling.Dispatch.Guard.{guarded, guarded-IsAdmissible}
use job_scheduler_tooling.Dispatch.Broker.{
  Broker, ClaimReply, ReportArgs, Reported, not_assigned, finished, failed, claim, claim_empty,
  assign, report, report_rest, report_begin, report_found, report_end, apply_decision, maybe_done,
  log, failure_of,
}
use job_scheduler_tooling.Dispatch.Broker.Invariant.{Inv}
use job_scheduler_tooling.Dispatch.Broker.Report.{
  BeginResult, report_begin-BeginResult, report_end-Settled,
}
use job_scheduler_tooling.Dispatch.Broker.Attempts.{IsFunded, Paid}
use job_scheduler_tooling.Dispatch.Broker.Budget.{begin-Paid, end-Paid}
use job_scheduler_tooling.Dispatcher.{after_report}

-- What a worker's calls leave: whether submissions are closed, and the count of jobs submitted.
abbrev pub fixed : Broker → Bool × ℕ
fixed b = (b.closed, b.stats.submitted)

-- A result, if there is one, in which this is as it was.
abbrev pub Keeps {ℓ} : {A : Type ℓ} → (A → Broker) → Bool × ℕ → Option A → Type 0
Keeps broker_of c none = Unit
Keeps broker_of c (some a) = fixed (broker_of a) ≡ c

module _ {ℓ κ} {A : Type ℓ} {B : Type κ} (broker_of : B → Broker) (c : Bool × ℕ) where
  Keeps-then :
      (m : Option A) (f : A → Option B)
      → ((a : A) → Keeps broker_of c (f a))
      → Keeps broker_of c (m >>= f)
  Keeps-then none f h = tt
  Keeps-then (some a) f h = h a

pub Yields-Keeps {ℓ ν} :
    {A : Type ℓ} (broker_of : A → Broker) (c : Bool × ℕ) {P : A → Type ν} {m : Option A}
    → Yields P m
    → Keeps broker_of c m
    → Yields (λ a. P a × (fixed (broker_of a) ≡ c)) m
Yields-Keeps broker_of c (yields p) k = yields (p, k)

pub maybe_done-fixed : (b : Broker) → fixed (maybe_done b) ≡ fixed b
unfolding maybe_done
maybe_done-fixed b = if_split (λ (x : Broker). fixed x ≡ fixed b) _ (λ _. refl) (λ _. refl)

pub claim-Keeps :
    (worker : String) (now : Time) (b : Broker)
    → Keeps (λ (x : Broker × ClaimReply). x.0) (fixed b) (claim worker now b)
unfolding claim claim_empty assign log
claim-Keeps worker now b =
    let P : Option (Broker × ClaimReply) → Type 0 =
      Keeps (λ (x : Broker × ClaimReply). x.0) (fixed b) in
    if_split P (len b.queue == 0)
      (λ _.
        if_split (λ (x : Broker × ClaimReply). fixed x.0 ≡ fixed b)
          (b.closed && length b.running == 0) (λ _. maybe_done-fixed b) (λ _. refl))
      (λ _.
        Keeps-then (λ (x : Broker × ClaimReply). x.0) (fixed b) (pop b.queue) (assign worker now b)
          assigned)
  where
    assigned :
        (x : Option Job × Queue)
        → Keeps (λ (y : Broker × ClaimReply). y.0) (fixed b) (assign worker now b x)
    assigned (none, q) = tt
    assigned (some j, q) = refl

report_begin-fixed :
    (args : ReportArgs) (now : Time) (b : Broker) → fixed (report_begin args now b).0 ≡ fixed b
unfolding report_begin report_found log
report_begin-fixed args now b =
    option_split (λ (x : Broker × Reported). fixed x.0 ≡ fixed b) (lookup args.job_id b.running)
      (λ _. refl)
      (λ job _.
        if_split (λ (x : Broker × Reported). fixed x.0 ≡ fixed b) args.success
          (λ _. maybe_done-fixed _) (λ _. refl))

report_end-Keeps :
    (args : ReportArgs) (now : Time) (job : Job) (d : Decision) (b : Broker)
    → Keeps (λ (x : Broker). x) (fixed b) (report_end args now job d b)
unfolding report_end apply_decision log
report_end-Keeps args now job d b = ended _ (
    if_split P (str_eq d.action retry)
      (λ _. Keeps-then (λ (x : Broker). x) (fixed b) (push b.queue _) _ (λ _. refl))
      (λ _.
        if_split P (str_eq d.action auto_adjust)
          (λ _. Keeps-then (λ (x : Broker). x) (fixed b) (push b.queue _) _ (λ _. refl))
          (λ _. if_split P (str_eq d.action escalate) (λ _. refl) (λ _. refl))))
  where
    P : Option Broker → Type 0
    P = Keeps (λ (x : Broker). x) (fixed b)

    ended : (m : Option Broker) → P m → P (m >>= λ x. some (maybe_done x))
    ended none k = tt
    ended (some x) k = maybe_done-fixed x ∙ k

-- A worker's report on a job that it holds.
pub record Handled (args : ReportArgs) (b : Broker) (t : List Job)
    (x : Broker × Reported × Option Decision) : Type 0 where
  pub inv : Inv x.0 t
  pub paid : Paid b t x.0 t 0 0
  pub running : x.0.running ≡ erase args.job_id b.running
  pub kept : fixed x.0 ≡ fixed b
  pub goes_on : after_report x ≡ some (x.0, none)

pub report-Handled :
    (agent : Failure → Answer) (args : ReportArgs) (now later : Time) (b : Broker) (t : List Job)
    (job : Job)
    → Inv b t
    → IsFunded b t
    → lookup args.job_id b.running ≡ some job
    → Yields (Handled args b t) (report agent args now later b)
unfolding report
report-Handled agent args now later b t job v f here =
    rest (report_begin args now b) (report_begin-BeginResult args now b t v)
      (report_begin-fixed args now b)
  where
    rest :
        (r : Broker × Reported)
        → BeginResult args b t r
        → fixed r.0 ≡ fixed b
        → Yields (Handled args b t) (report_rest agent args later r)
    rest (b', not_assigned) (_, absent) c = cc
    rest (b', finished) h c = yields (record {
      inv = h.0;
      paid = begin-Paid args b t b' finished f h;
      running = h.3.2;
      kept = c;
      goes_on = refl;
    })
    rest (b', failed j) h c =
        let answer = agent (failure_of j args.error) in
        let ok = guarded-IsAdmissible (failure_of j args.error) answer in
        let begun = begin-Paid args b t b' (failed j) f h in
        Yields-then
          (Yields-Keeps (λ (x : Broker). x) (fixed b')
            (report_end-Settled args later j (guarded j.attempt j.max_attempts answer) b' t h.0
              ok.valid)
            (report_end-Keeps args later j _ b'))
          (λ b'' ((u, s, same), c'').
            let ended = end-Paid j answer b' [] t b'' begun.funded same s in
            yields (record {
              inv = u;
              paid = record { funded = ended.funded; pays = omega (arith, begun.pays, ended.pays) };
              running = same ∙ h.3.2;
              kept = c'' ∙ c;
              goes_on = refl;
            }))
