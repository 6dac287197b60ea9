-- ===== src/Dispatcher/Watch.antt =====
-- The end of runCoordinator in cmd/dispatcher/main.go: the watch over the worker processes beside the
-- broker, and the wait for those that are left. The errors with which the processes exit, in the order
-- of the channel, are an argument.
use job_scheduler_tooling.Prelude.{
  ◌≡◌, refl, ap, ◌↔◌, String, Bool, true, false, List, [], ◌∷◌, Option, none, some, All,
}
use job_scheduler_tooling.Queue.{Job}
use job_scheduler_tooling.Telemetry.{Recorder}
use job_scheduler_tooling.Dispatch.Broker.{Broker, new_broker}
use job_scheduler_tooling.Dispatch.Broker.Invariant.{IsIdle}
use job_scheduler_tooling.Dispatch.Broker.Runs.{Reach, Reach-done_iff}

-- drainWorkers: the first error among those that come.
unfoldable pub drain_workers : Option String → List (Option String) → Option String
drain_workers first [] = first
drain_workers none (error ∷ exits) = drain_workers error exits
drain_workers (some e) (error ∷ exits) = drain_workers (some e) exits

abbrev pub early_exit : Option String → String
early_exit none = "worker exited before all jobs reached a terminal state"
early_exit (some e) = e

-- The loop, with the error that runCoordinator returns; the outer `none` is a wait with no worker.
-- `took_done` is whether its `select` takes Done, and `done` whether Done is closed then or at the
-- test after an exit.
unfoldable pub watch_workers :
    (took_done done : Bool) → List (Option String) → Option (Option String)
watch_workers true done exits = some (drain_workers none exits)
watch_workers false done [] = none
watch_workers false true (error ∷ exits) = some (drain_workers error exits)
watch_workers false false (error ∷ exits) = some (some (early_exit error))

abbrev pub AreClean : List (Option String) → Type 0
AreClean exits = All (λ e. e ≡ none) exits

drain_none_iff :
    (first : Option String) (exits : List (Option String))
    → (drain_workers first exits ≡ none) ↔ ((first ≡ none) × AreClean exits)
unfolding drain_workers
drain_none_iff first [] = (λ h. (h, tt), λ h. h.0)
drain_none_iff none (error ∷ exits) =
    let (there, back) = drain_none_iff error exits in (λ h. (refl, there h), λ (_, h). back h)
drain_none_iff (some e) (error ∷ exits) =
    let (there, back) = drain_none_iff (some e) exits in (λ h. cc (there h).0, λ (h, _). cc h)

-- Success, by what the loop sees.
watch_none_iff :
    (took_done done : Bool) (error : Option String) (exits : List (Option String))
    → (took_done ≡ true → done ≡ true)
    → (watch_workers took_done done (error ∷ exits) ≡ some none)
      ↔ ((done ≡ true) × AreClean (error ∷ exits))
unfolding watch_workers drain_workers
watch_none_iff true done error exits seen =
    let (there, back) = drain_none_iff error exits in
    (λ h. (seen refl, there (cc h)), λ (_, h). ap some (back h))
watch_none_iff false true error exits seen =
    let (there, back) = drain_none_iff error exits in
    (λ h. (refl, there (cc h)), λ (_, h). ap some (back h))
watch_none_iff false false error exits seen = (λ h. cc h, λ (h, _). cc h)

-- With at least one worker: where the loop finds the broker in a state that some calls lead to, every
-- job submitted not yet attempted and under an ID that no job at work has, and takes Done only if it
-- is closed, runCoordinator ends without an error exactly when submissions are
-- closed, no job is queued, running or with the agent, and every worker process exits without an
-- error.
pub watch_succeeds_iff :
    (r : Recorder) (b : Broker) (t : List Job) (took_done : Bool) (error : Option String)
    (exits : List (Option String))
    → Reach (new_broker r) [] b t
    → (took_done ≡ true → b.done ≡ true)
    → (watch_workers took_done b.done (error ∷ exits) ≡ some none)
      ↔ (((b.closed ≡ true) × IsIdle b t) × AreClean (error ∷ exits))
watch_succeeds_iff r b t took_done error exits reach seen =
    let (ends, over) = Reach-done_iff r b t reach in
    let (there, back) = watch_none_iff took_done b.done error exits seen in
    (λ h. (ends (there h).0, (there h).1), λ (idle, clean). back (over idle, clean))
