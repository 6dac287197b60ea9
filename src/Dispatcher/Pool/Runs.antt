-- ===== src/Dispatcher/Pool/Runs.antt =====
-- The watch of cmd/dispatcher/sqs.go over its worker processes, in any order of starts, ends, chaos
-- kills and rounds of the loop.
use job_scheduler_tooling.Prelude.{
  ◌+◌, ◌≤◌, ◌≡◌, ◌≢◌, ◌==◌, refl, ap, String, Bool, true, List, ◌∷◌, none, arith, length, if_split,
  option_split, subst,
}
use job_scheduler_tooling.Prelude.Dict.{lookup}
use job_scheduler_tooling.Prelude.Dict.Keys.{Has}
use job_scheduler_tooling.Dispatcher.Pool.{
  Pool, Loop, ended, panicked, Watch, alive, on_exit, wake, start, Step, started, exited, chaos,
  completed, saw_done, saw_exit, woke, Reach, here, next,
}
use job_scheduler_tooling.Dispatcher.Pool.Counts.{
  AreKnown, Sound, spawn-Sound, reap-Sound, kill-Sound,
}

-- What holds of the watch whatever happens.
record Inv (s : Watch) : Type 0 where
  sound : Sound s.pool
  no_panic : s.loop ≢ panicked
  success : s.loop ≡ ended none → s.done ≡ true

-- A change of the pool only.
pool-Inv : (s : Watch) (p : Pool) → Inv s → Sound p → Inv (record s { pool = p })
pool-Inv s p v sound = record { sound = sound; no_panic = v.no_panic; success = v.success }

-- The loop goes on, or ends well with Done closed, or ends in an error.
loop-Inv :
    (s : Watch) (p : Pool) (loop : Loop)
    → Sound p
    → loop ≢ panicked
    → (loop ≡ ended none → s.done ≡ true)
    → Inv (record s { pool = p; loop = loop })
loop-Inv s p loop sound no_panic success = record {
  sound = sound;
  no_panic = no_panic;
  success = success;
}

-- What a round may lead to.
Fair : Bool → Loop → Type 0
Fair done loop = (loop ≢ panicked) × (loop ≡ ended none → done ≡ true)

on_exit-Fair :
    (id : String) (done : Bool) (p : Pool) → Has p.procs id → Fair done (on_exit id done p)
unfolding on_exit Fair
on_exit-Fair id done p (w, at) =
    option_split (Fair done) (lookup id p.procs) (λ none_there. cc (at, none_there))
      (λ v _.
        if_split (Fair done) v.killed (λ _. (λ e. cc e, λ e. cc e))
          (λ _.
            if_split (Fair done) done (λ closed. (λ e. cc e, λ _. closed))
              (λ _. (λ e. cc e, λ e. cc e))))

wake-Fair : (id : String) (done : Bool) (p : Pool) → Fair done (wake id p)
unfolding wake Fair
wake-Fair id done p =
    if_split (Fair done) (alive p.procs == 0) (λ _. (λ e. cc e, λ e. cc e))
      (λ _. (λ e. cc e, λ e. cc e))

Step-Inv : {s s' : Watch} → Inv s → Step s s' → Inv s'
unfolding Fair AreKnown
Step-Inv {s} v (started error e) = rw e (pool-Inv s _ v (spawn-Sound error s.pool v.sound))
Step-Inv {s} v (exited id w at running e) =
    rw e (pool-Inv s _ v (reap-Sound id w s.pool v.sound at running))
Step-Inv {s} v (chaos id e) = rw e (pool-Inv s _ v (kill-Sound id s.pool v.sound))
Step-Inv {s} v (completed e) =
    rw e (record { sound = v.sound; no_panic = v.no_panic; success = λ _. refl })
Step-Inv {s} v (saw_done at closed e) =
    rw e (loop-Inv s s.pool (ended none) v.sound (λ k. cc k) (λ _. closed))
Step-Inv {s} v (saw_exit id rest at held e) =
    let ids : AreKnown s.pool.procs (id ∷ rest) =
      subst (AreKnown s.pool.procs) held v.sound.known in
    let (no_panic, success) = on_exit-Fair id s.done s.pool ids.0 in
    rw e (
      loop-Inv s _ _
        (record {
          fresh = v.sound.fresh;
          sized = v.sound.sized;
          known = ids.1;
          counted = omega (arith, v.sound.counted, ap (λ (xs : List String). length xs) held);
        })
        no_panic success)
Step-Inv {s} v (woke id at e) =
    let (no_panic, success) = wake-Fair id s.done s.pool in
    rw e (loop-Inv s s.pool _ v.sound no_panic success)

start-Inv : Inv start
unfolding alive lookup AreKnown
start-Inv = record {
  sound = record { fresh = λ k lt. refl; sized = refl; known = tt; counted = omega arith };
  no_panic = λ e. cc e;
  success = λ e. cc e;
}

Reach-Inv : {s : Watch} → Reach start s → Inv s
Reach-Inv here = start-Inv
Reach-Inv (next r step) = Step-Inv (Reach-Inv r) step

-- In any order of starts, ends and chaos kills of worker processes and of rounds of the loop: the loop
-- never meets an exit of a process that is not in the pool (which would panic); it ends without an
-- error only once Done is closed; each started process has its own entry; and the exits in the channel
-- and the processes that are alive are together no more than were started.
pub watch-IsSafe :
    (s : Watch)
    → Reach start s
    → (s.loop ≢ panicked)
      × (s.loop ≡ ended none → s.done ≡ true)
      × (length s.pool.procs ≡ s.pool.spawned)
      × (length s.pool.exits + alive s.pool.procs ≤ s.pool.spawned)
watch-IsSafe s r = let v = Reach-Inv r in (v.no_panic, v.success, v.sound.sized, v.sound.counted)
