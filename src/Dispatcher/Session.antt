-- ===== src/Dispatcher/Session.antt =====
-- runCoordinator of cmd/dispatcher/main.go with one worker process: the jobs are submitted, submissions
-- end, and the worker works. `none` is a panic, fuel that runs out, or an error that the coordinator
-- returns before the worker starts.
use job_scheduler_tooling.Prelude.{
  ℕ, suc, ◌+◌, ◌*◌, ◌≤◌, ◌<◌, ◌≡◌, refl, ap, ◌∙◌, String, true, false, List, [], ◌∷◌, Option, none,
  some, arith, length, All, eq_refl, option_split, if_split,
}
use job_scheduler_tooling.Prelude.Int.{ℤ, pos_part, IsInt64}
use job_scheduler_tooling.Prelude.Partial.{
  Yields, yields, Yields-then, Yields-IfSome, IfSome, IfSome-then, IfSome-map, ◌>>=◌,
}
use job_scheduler_tooling.Queue
use job_scheduler_tooling.Queue.{Job, Time, push}
use job_scheduler_tooling.Inference.{validate}
use job_scheduler_tooling.Telemetry.{Recorder}
use job_scheduler_tooling.Dispatch.Broker.{
  Broker, SubmitError, invalid_batch, submissions_closed, new_broker, submit, enqueue, admitted,
  log, close_submissions,
}
use job_scheduler_tooling.Dispatch.Broker.Weight.{total, has_id}
use job_scheduler_tooling.Dispatch.Broker.Invariant.{
  weight, Inv, Pushed-total, maybe_done-running, maybe_done-queue,
}
use job_scheduler_tooling.Dispatch.Broker.Submit.{
  new_broker-Inv, SubmitResult, submit-SubmitResult, close_submissions-Inv,
}
use job_scheduler_tooling.Dispatch.Broker.Attempts.{IsFunded, potential, submit-Paid, same-Paid}
use job_scheduler_tooling.Dispatch.Broker.Budget.{new_broker-IsFunded}
use job_scheduler_tooling.Dispatcher.{Env, Exit, worker_loop}
use job_scheduler_tooling.Dispatcher.Jobs.{Draw, generate_jobs, IsReady, generate_jobs-IsWorkload}
use job_scheduler_tooling.Dispatcher.Handled.{maybe_done-fixed}
use job_scheduler_tooling.Dispatcher.Drain.{IsAlone, Drained, loop_drains}

abbrev submit_rest :
    (Broker → Option (Broker × Option SubmitError))
    → Broker × Option SubmitError
    → Option (Broker × Option SubmitError)
submit_rest next (b, some e) = some (b, some e)
submit_rest next (b, none) = next b

-- The loop that submits the jobs, up to the first error.
unfoldable pub submit_all :
    (ℕ → Time) → ℕ → List Job → Broker → Option (Broker × Option SubmitError)
submit_all clock n [] b = some (b, none)
submit_all clock n (j ∷ jobs) b =
    submit (clock n) j b >>= submit_rest (submit_all clock (n + 1) jobs)

abbrev work_off : ℕ → Env → String → ℕ → Broker × Option SubmitError → Option (Broker × Exit)
work_off fuel env worker n (b, some e) = none
work_off fuel env worker n (b, none) = worker_loop fuel env worker n (close_submissions b)

unfoldable pub run_coordinator :
    ℕ → Env → String → Recorder → (ℕ → Draw) → Time → ℤ → ℕ → Option (Broker × Exit)
run_coordinator fuel env worker recorder draws base seed num_jobs =
    generate_jobs draws base seed num_jobs >>= λ jobs.
    submit_all env.clock 0 jobs (new_broker recorder) >>= work_off fuel env worker num_jobs

enqueue-open :
    (now : Time) (j : Job) (b : Broker)
    → b.closed ≡ false
    → IfSome (λ (x : Broker). x.closed ≡ false) (enqueue now j b)
unfolding enqueue log
enqueue-open now j b is_open =
    IfSome-then (λ (x : Broker). x.closed ≡ false) (push b.queue (admitted now j)) _ (λ _. is_open)

submit-open :
    (now : Time) (j : Job) (b : Broker)
    → b.closed ≡ false
    → IfSome (λ (x : Broker × Option SubmitError). x.0.closed ≡ false) (submit now j b)
unfolding submit
submit-open now j b is_open =
    let Open : Broker × Option SubmitError → Type 0 = λ x. x.0.closed ≡ false in
    option_split (IfSome Open) (validate j.inference)
      (λ _.
        if_split (IfSome Open) b.closed (λ _. is_open)
          (λ _.
            IfSome-map (λ (x : Broker). x.closed ≡ false) Open (enqueue now j b) (λ x. (x, none))
              (enqueue-open now j b is_open) (λ x h. h)))
      (λ e _. is_open)

-- Before the worker starts: the broker holds some jobs, and more are to come.
record IsOpen (count : ℕ) (jobs : List Job) (b : Broker) : Type 0 where
  inv : Inv b []
  funded : IsFunded b []
  is_open : b.closed ≡ false
  size : b.stats.submitted ≡ count
  none_running : b.running ≡ []
  few : potential b [] ≤ 3 * count
  once : (id : String) → weight (has_id id) b [] + total (has_id id) jobs ≤ 1

-- A ready job under a new ID is taken.
submitted-IsOpen :
    (now : Time) (count : ℕ) (j : Job) (jobs : List Job) (b : Broker)
    (x : Broker × Option SubmitError)
    → IsReady j
    → IsOpen count (j ∷ jobs) b
    → SubmitResult now j b [] x
    → x.0.closed ≡ false
    → (x.1 ≡ none) × IsOpen (count + 1) jobs x.0
unfolding total potential admitted
submitted-IsOpen now count j jobs b (b', some (invalid_batch e)) ready o (_, bad) c =
    cc (ready.valid, bad)
submitted-IsOpen now count j jobs b (b', some submissions_closed) ready o (_, _, shut) c =
    cc (o.is_open, shut)
submitted-IsOpen now count j jobs b (b', none) ready o ((inv, more, pushed, same), good, _) c =
    let fit : IsInt64 j.max_attempts = rw ready.budget (omega arith, omega arith) in
    let three : pos_part (admitted now j).max_attempts ≡ 3 = rw ready.budget refl in
    let paid =
      submit-Paid now j b [] b' none o.funded ready.fresh fit
        ((inv, more, pushed, same), good, o.is_open) in
    (
      refl,
      record {
        inv = inv;
        funded = paid.funded;
        is_open = c;
        size = omega (arith, more, o.size);
        none_running = same ∙ o.none_running;
        few = omega (arith, o.few, paid.pays, three);
        once =
            λ id. rw same (omega (arith, o.once id, Pushed-total (has_id id) (λ _. refl) pushed));
      },
    )

submit_all-IsOpen :
    (clock : ℕ → Time) (n count : ℕ) (jobs : List Job) (b : Broker)
    → All IsReady jobs
    → IsOpen count jobs b
    → Yields
        (λ (x : Broker × Option SubmitError). (x.1 ≡ none) × IsOpen (count + length jobs) [] x.0)
        (submit_all clock n jobs b)
unfolding submit_all total
submit_all-IsOpen clock n count [] b ready o =
    let size : count + 0 ≡ count = omega arith in rw size (yields (refl, o))
submit_all-IsOpen clock n count (j ∷ jobs) b (one, ready) o =
    let own : has_id j.id j ≡ 1 = rw (eq_refl j.id) refl in
    let size : count + suc (length jobs) ≡ count + 1 + length jobs = omega arith in
    rw size (
      Yields-then
        (Yields-IfSome (λ (x : Broker × Option SubmitError). x.0.closed ≡ false)
          (submit-SubmitResult (clock n) j b [] o.inv (omega (arith, o.once j.id, own)))
          (submit-open (clock n) j b o.is_open))
        (λ x (result, c).
          let (is_none, more) = submitted-IsOpen (clock n) count j jobs b x one o result c in
          rw is_none (submit_all-IsOpen clock (n + 1) (count + 1) jobs x.0 ready more)))

closed-IsAlone :
    (count : ℕ) (b : Broker) → IsOpen count [] b → IsAlone count (3 * count) (close_submissions b)
unfolding close_submissions
closed-IsAlone count b o =
    let paid =
      same-Paid b (close_submissions b) [] o.funded (maybe_done-queue _) (maybe_done-running _) in
    record {
      inv = close_submissions-Inv b [] o.inv;
      funded = paid.funded;
      closed = maybe_done-fixed _ ∙ ap (λ n. (true, n)) o.size;
      none_running = maybe_done-running _ ∙ o.none_running;
      few = omega (arith, paid.pays, o.few);
    }

-- A whole run of the dispatcher with one worker, for any number of jobs, whatever is drawn for them
-- and whatever the Python process and the triage agent answer: with fuel for three rounds a job and
-- one more it ends, without a panic and without an error, the worker told to stop and every one of
-- the jobs submitted, and succeeded or escalated.
pub run_coordinator-Drained :
    (fuel : ℕ) (env : Env) (worker : String) (recorder : Recorder) (draws : ℕ → Draw) (base : Time)
    (seed : ℤ) (num_jobs : ℕ)
    → ((k : ℕ) → (draws k).size < 4)
    → 3 * num_jobs < fuel
    → Yields (Drained num_jobs) (run_coordinator fuel env worker recorder draws base seed num_jobs)
unfolding run_coordinator new_broker total Queue.new potential
run_coordinator-Drained fuel env worker recorder draws base seed num_jobs lt enough =
    Yields-then (generate_jobs-IsWorkload draws base seed num_jobs lt)
      (λ jobs ((size, _, ready), once).
        Yields-then
          (submit_all-IsOpen env.clock 0 0 jobs (new_broker recorder) ready (record {
            inv = new_broker-Inv recorder;
            funded = new_broker-IsFunded recorder;
            is_open = refl;
            size = refl;
            none_running = refl;
            few = omega arith;
            once = λ id. omega (arith, once id);
          }))
          (λ x (is_none, o). rw is_none (
            let whole : 0 + length jobs ≡ num_jobs = omega (arith, size) in
            loop_drains env worker fuel num_jobs num_jobs (3 * num_jobs) (close_submissions x.0)
              (rw whole at (closed-IsAlone (0 + length jobs) x.0 o)) enough)))
