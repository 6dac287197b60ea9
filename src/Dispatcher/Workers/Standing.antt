-- ===== src/Dispatcher/Workers/Standing.antt =====
-- What holds of several workers beside the broker after each of their steps.
use job_scheduler_tooling.Prelude.{
  ◌<◌, ◌≡◌, ◌⊎◌, inl, inr, refl, sym, ◌∙◌, ap, subst, String, true, false, List, [], ◌∷◌, ◌++◌,
  Option, none, some, str_eq, eq_refl, arith, length, All, All-map, All-middle, if_split,
}
use job_scheduler_tooling.Prelude.Dict.{Dict, lookup, erase, length-insert_new}
use job_scheduler_tooling.Queue.{Queue, Job, Time}
use job_scheduler_tooling.Dispatch.Guard.{guarded-IsAdmissible}
use job_scheduler_tooling.Dispatch.Broker.{
  Broker, ClaimReply, ReportArgs, Reported, not_assigned, finished, failed, claimed, failure_of,
}
use job_scheduler_tooling.Dispatch.Broker.Weight.{
  total, has_id, lookup_of_total, total-erase, erase-IsKeyed, IsKeyed-lookup,
}
use job_scheduler_tooling.Dispatch.Broker.Invariant
use job_scheduler_tooling.Dispatch.Broker.Claim.{ClaimResult, claim-ClaimResult}
use job_scheduler_tooling.Dispatch.Broker.Report.{
  BeginResult, report_begin-BeginResult, report_end-Settled, with_agent,
}
use job_scheduler_tooling.Dispatch.Broker.Runs.{value_of, Inv-front}
use job_scheduler_tooling.Dispatcher.{report_for}
use job_scheduler_tooling.Dispatcher.Workers.{
  Phase, idle, working, deciding, left, System, set_phase, after_claim, after_begin, Step, Reach,
  here, next,
}
use job_scheduler_tooling.Dispatcher.Workers as W
use job_scheduler_tooling.Dispatcher.Workers.Matching.{
  Asks, Matches, stays, own, quiet-Matches, claimed-Matches, dropped-Matches,
}

-- A worker may take a job, or has one.
abbrev pub IsServed : System → Type 0
IsServed s =
    ((w : String) × (s.workers w ≡ idle))
    ⊎ ((0 < length s.broker.running) ⊎ (0 < length s.with_agents))

pub record Inv (s : System) : Type 0 where
  pub broker : Invariant.Inv s.broker s.with_agents
  pub matching : Matches s.broker.running s.workers
  pub asks : All (Asks s.workers) s.with_agents
  pub served : 0 < length s.broker.queue.heap → IsServed s

stay-Asks :
    (worker : String) (p : Phase) (ws : String → Phase) (jobs : List Job)
    → ((j : Job) → ¬ (ws worker ≡ deciding j))
    → All (Asks ws) jobs
    → All (Asks (set_phase worker p ws)) jobs
stay-Asks worker p ws jobs other =
    All-map (Asks ws) (Asks (set_phase worker p ws)) jobs
      (λ j (w, at). (w, stays worker w p (deciding j) ws at (other j)))

-- A reply without a job makes no worker work.
after_claim-IsQuiet :
    (r : ClaimReply) (j : Job) → ¬ (after_claim (record r { job = none }) ≡ working j)
unfolding after_claim
after_claim-IsQuiet r j =
    if_split (λ p. ¬ (p ≡ working j)) r.shutdown (λ _ e. cc e)
      (λ _. if_split (λ p. ¬ (p ≡ working j)) r.wait (λ _ e. cc e) (λ _ e. cc e))

after_claim-job :
    (r : ClaimReply) (job : Job)
    → r.wait ≡ false
    → r.shutdown ≡ false
    → after_claim (record r { job = some job }) ≡ working job
unfolding after_claim
after_claim-job r job w s = rw (w, s) refl

claimed-Inv :
    (s : System) (worker : String) (now : Time) (b : Broker) (r : ClaimReply)
    → Inv s
    → s.workers worker ≡ idle
    → ClaimResult worker now s.broker s.with_agents (b, r)
    → Inv (record s { broker = b; workers = set_phase worker (after_claim r) s.workers })
unfolding claimed
claimed-Inv s worker now b r v free h =
    (elim r.job
        as (λ o.
          ClaimResult worker now s.broker s.with_agents (b, record r { job = o })
          → Inv (record s {
            broker = b;
            workers = set_phase worker (after_claim (record r { job = o })) s.workers;
          })) [
            | none ↦ λ (inv, empty, shut, wait, q, run). record {
              broker = inv;
              matching = rw run (
                  quiet-Matches s.broker.running s.workers worker _ v.matching (λ j e. cc (free, e))
                    (after_claim-IsQuiet r));
              asks = stay-Asks worker _ s.workers s.with_agents (λ j e. cc (free, e)) v.asks;
              served =
                  λ full. absurd (omega (arith, full, empty, ap (λ (x : Queue). length x.heap) q));
            }
            | some job ↦ λ (wait, shut, a). rw (after_claim-job r job wait shut) (record {
              broker = a.inv;
              matching = rw a.running_is (
                  claimed-Matches s.broker.running s.workers worker a.taken.id job v.matching free
                    (ap (λ (j : Job). j.id) a.job_is) a.unheld);
              asks = stay-Asks worker _ s.workers s.with_agents (λ j e. cc (free, e)) v.asks;
              served = λ full. inr (
                  inl (
                    omega (
                      arith,
                      length-insert_new a.taken.id job s.broker.running a.unheld,
                      ap (λ (m : Dict Job). length m) a.running_is,
                    )));
            })
          ])
      h

-- An ID that is erased has no second entry.
erase_gone :
    (b : Broker) (t : List Job) (job : Job) (id : String)
    → Invariant.Inv b t
    → lookup id b.running ≡ some job
    → lookup id (erase id b.running) ≡ none
erase_gone b t job id v at =
    let keyed : job.id ≡ id = IsKeyed-lookup id job b.running v.core.keyed at in
    let one : has_id id job ≡ 1 = rw keyed (rw (eq_refl id) refl) in
    lookup_of_total id (erase id b.running) (erase-IsKeyed id b.running v.core.keyed)
      (omega (arith, v.core.once id, total-erase (has_id id) id job b.running at, one))

reported-Inv :
    (s : System) (worker : String) (job : Job) (args : ReportArgs) (b : Broker) (r : Reported)
    → Inv s
    → s.workers worker ≡ working job
    → args.job_id ≡ job.id
    → BeginResult args s.broker s.with_agents (b, r)
    → Inv (record {
      broker = b;
      with_agents = with_agent s.with_agents r;
      workers = set_phase worker (after_begin r) s.workers;
      given_up = s.given_up;
    })
unfolding after_begin
reported-Inv s worker job args b not_assigned v at e (same, absent) =
    let (x, held) = v.matching.known worker job at in
    let gone : lookup job.id s.broker.running ≡ none = rw e at absent in absurd (cc (gone, held))
reported-Inv s worker job args b finished v at e (inv, good, counted, ((x, found), q, run)) =
    let here : lookup job.id s.broker.running ≡ some x = rw e at found in
    record {
      broker = inv;
      matching =
          rw (run, e)
            (dropped-Matches s.broker.running s.workers worker job idle v.matching at
              (erase_gone s.broker s.with_agents x job.id v.broker here) (λ j k. cc k));
      asks = stay-Asks worker idle s.workers s.with_agents (λ j k. cc (at, k)) v.asks;
      served = λ _. inl (worker, own worker idle s.workers);
    }
reported-Inv s worker job args b (failed job') v at e (inv, bad, is, ((x, found), q, run)) =
    let here : lookup job.id s.broker.running ≡ some x = rw e at found in
    record {
      broker = inv;
      matching =
          rw (run, e)
            (dropped-Matches s.broker.running s.workers worker job (deciding job') v.matching at
              (erase_gone s.broker s.with_agents x job.id v.broker here) (λ j k. cc k));
      asks = (
        (worker, own worker (deciding job') s.workers),
        stay-Asks worker (deciding job') s.workers s.with_agents (λ j k. cc (at, k)) v.asks,
      );
      served = λ _. inr (inr (omega arith));
    }

deciding-equal : (j k : Job) → deciding j ≡ deciding k → j ≡ k
deciding-equal j k h = cc

-- The other jobs with the agent are other workers'.
settled-Asks :
    (worker : String) (job : Job) (ws : String → Phase) (jobs : List Job)
    → ws worker ≡ deciding job
    → total (has_id job.id) jobs ≡ 0
    → All (Asks ws) jobs
    → All (Asks (set_phase worker idle ws)) jobs
unfolding total
settled-Asks worker job ws [] at none_left h = tt
settled-Asks worker job ws (j ∷ jobs) at none_left ((w, held), more) =
    let other : str_eq j.id job.id ≡ false = ground (arith, none_left) in
    let apart : ¬ (ws worker ≡ deciding j) = λ e.
      let same : job.id ≡ j.id = ap (λ (x : Job). x.id) (deciding-equal job j (sym at ∙ e)) in
      let yes : str_eq j.id job.id ≡ true = rw same (eq_refl j.id) in cc (other, yes) in
    (
      (w, stays worker w idle (deciding j) ws held apart),
      settled-Asks worker job ws jobs at (omega (arith, none_left)) more,
    )

settled-Inv :
    (s : System) (worker : String) (job : Job) (before after : List Job) (b : Broker)
    → Inv s
    → s.workers worker ≡ deciding job
    → s.with_agents ≡ before ++ job ∷ after
    → Invariant.Inv b (before ++ after)
    → b.running ≡ s.broker.running
    → Inv (record {
      broker = b;
      with_agents = before ++ after;
      workers = set_phase worker idle s.workers;
      given_up = s.given_up;
    })
unfolding total
settled-Inv s worker job before after b v at split inv run =
    let front = Inv-front s.broker before after job (rw split at v.broker) in
    let one : has_id job.id job ≡ 1 = rw (eq_refl job.id) refl in
    let (mine, asks) = All-middle (Asks s.workers) before job after (rw split at v.asks) in
    record {
      broker = inv;
      matching = rw run (
          quiet-Matches s.broker.running s.workers worker idle v.matching (λ j e. cc (at, e))
            (λ j e. cc e));
      asks =
          settled-Asks worker job s.workers (before ++ after) at
            (omega (arith, front.core.once job.id, one)) asks;
      served = λ _. inl (worker, own worker idle s.workers);
    }

pub report_for-id :
    (worker id : String) (outcome : Option String) → (report_for worker id outcome).job_id ≡ id
report_for-id worker id none = refl
report_for-id worker id (some e) = refl

pub Step-Inv :
    {s s' : System} → (s.given_up ≡ false → Inv s) → Step s s' → s'.given_up ≡ false → Inv s'
Step-Inv {s} inv (W.claimed worker now b r up free run e) _ =
    let v = inv up in
    rw e (
      claimed-Inv s worker now b r v free
        (value_of _ _ (claim-ClaimResult worker now s.broker s.with_agents v.broker) run))
Step-Inv {s} inv (W.reported worker job outcome now b r up at run e) _ =
    let v = inv up in
    let args = report_for worker job.id outcome in
    rw e (
      reported-Inv s worker job args b r v at (report_for-id worker job.id outcome)
        (rw run at (report_begin-BeginResult args now s.broker s.with_agents v.broker)))
Step-Inv {s} holds (W.settled worker job before after outcome now answer b up at split run e) _ =
    let v = holds up in
    let args = report_for worker job.id outcome in
    let ok = guarded-IsAdmissible (failure_of job args.error) answer in
    let front = Inv-front s.broker before after job (rw split at v.broker) in
    let (inv, done_with, same) =
      value_of _ _ (report_end-Settled args now job _ s.broker (before ++ after) front ok.valid)
        run in
    rw e (settled-Inv s worker job before after b v at split inv same)
Step-Inv inv (W.gave_up worker up at more e) still = absurd (cc (e, still))

pub Reach-Inv : {s s' : System} → Inv s → Reach s s' → s'.given_up ≡ false → Inv s'
Reach-Inv v here _ = v
Reach-Inv v (next r step) up = Step-Inv (Reach-Inv v r) step up

-- The workers have started, and none has claimed.
abbrev pub AreFresh : (String → Phase) → Type 0
AreFresh ws = (w : String) → (ws w ≡ idle) ⊎ (ws w ≡ left)

fresh_working : (ws : String → Phase) (w : String) (j : Job) → AreFresh ws → ¬ (ws w ≡ working j)
fresh_working ws w j fresh e = elim (fresh w) [ inl i ↦ cc (i, e) | inr l ↦ cc (l, e) ]

lookup_empty : (id : String) → lookup {V = Job} id [] ≡ none
unfolding lookup
lookup_empty id = refl

pub start-Inv :
    (b : Broker) (ws : String → Phase) (worker : String)
    → Invariant.Inv b []
    → b.running ≡ []
    → AreFresh ws
    → ws worker ≡ idle
    → Inv (record { broker = b; with_agents = []; workers = ws; given_up = false })
start-Inv b ws worker inv none_running fresh first = record {
  broker = inv;
  matching = record {
    held = λ id (x, h).
        absurd (cc (subst (λ m. lookup id m ≡ some x) none_running h, lookup_empty id));
    known = λ w j e. absurd (fresh_working ws w j fresh e);
    unique = λ w v j k e e' same. absurd (fresh_working ws w j fresh e);
  };
  asks = tt;
  served = λ _. inl (worker, first);
}
