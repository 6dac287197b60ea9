-- ===== src/Tests/Processes.antt =====
-- The watch of cmd/dispatcher/sqs.go on concrete runs. In the first the only worker is killed and its
-- replacement does not start: the loop waits with no process left. In the second the last job is
-- completed while the loop sleeps after an exit: the run is an error although all is done.
use job_scheduler_tooling.Prelude.{◌+◌, ◌≤◌, ◌≡◌, ◌≢◌, refl, true, false, [], none, some, length}
use job_scheduler_tooling.Prelude.Dict.{lookup, insert}
use job_scheduler_tooling.Text.Decimal.{numbered_02, decimal_02, decimal, digit}
use job_scheduler_tooling.Dispatcher.Pool.{
  Watch, selecting, ended, panicked, WorkerProc, spawn, reap, mark_killed, alive, on_exit, wake,
  start, started, exited, chaos, completed, saw_exit, woke, Reach, here, next,
}
use job_scheduler_tooling.Dispatcher.Pool.Runs.{watch-IsSafe}

abbrev proc : WorkerProc
proc = record { killed = false; exited = false }

abbrev one_started : Watch
one_started = record start { pool = spawn none start.pool }

abbrev killed : Watch
killed = record one_started { pool = mark_killed "worker-01" one_started.pool }

abbrev not_replaced : Watch
not_replaced = record killed { pool = spawn (some "no memory") killed.pool }

abbrev reaped : Watch
reaped = record not_replaced {
  pool = reap "worker-01" (record proc { killed = true }) not_replaced.pool;
}

abbrev waiting : Watch
waiting = record reaped {
  pool = record reaped.pool { exits = [] };
  loop = on_exit "worker-01" false reaped.pool;
}

to_waiting : Reach start waiting
unfolding spawn mark_killed reap lookup insert numbered_02 decimal_02 decimal digit
to_waiting =
    next
      (next
        (next (next (next here (started none refl)) (chaos "worker-01" refl))
          (started (some "no memory") refl))
        (exited "worker-01" (record proc { killed = true }) refl refl refl))
      (saw_exit "worker-01" [] refl refl refl)

waiting_stuck :
    (waiting.loop ≡ selecting)
    × (waiting.done ≡ false)
    × (waiting.pool.exits ≡ [])
    × (alive waiting.pool.procs ≡ 0)
unfolding spawn mark_killed reap lookup insert numbered_02 decimal_02 decimal digit on_exit alive
waiting_stuck = (refl, refl, refl, refl)

abbrev two_started : Watch
two_started = record one_started { pool = spawn none one_started.pool }

abbrev first_gone : Watch
first_gone = record two_started { pool = reap "worker-01" proc two_started.pool }

abbrev asleep : Watch
asleep = record first_gone {
  pool = record first_gone.pool { exits = [] };
  loop = on_exit "worker-01" false first_gone.pool;
}

abbrev all_done : Watch
all_done = record asleep { done = true }

abbrev both_gone : Watch
both_gone = record all_done { pool = reap "worker-02" proc all_done.pool }

abbrev awake : Watch
awake = record both_gone { loop = wake "worker-01" both_gone.pool }

to_awake : Reach start awake
unfolding spawn reap lookup insert numbered_02 decimal_02 decimal digit on_exit
to_awake =
    next
      (next
        (next
          (next
            (next (next (next here (started none refl)) (started none refl))
              (exited "worker-01" proc refl refl refl))
            (saw_exit "worker-01" [] refl refl refl))
          (completed refl))
        (exited "worker-02" proc refl refl refl))
      (woke "worker-01" refl refl)

awake_fails : (awake.loop ≡ ended (some "worker-01")) × (awake.done ≡ true)
unfolding spawn reap lookup insert numbered_02 decimal_02 decimal digit on_exit wake alive
awake_fails = (refl, refl)

watch-IsSafe_example :
    (awake.loop ≢ panicked)
    × (awake.loop ≡ ended none → awake.done ≡ true)
    × (length awake.pool.procs ≡ awake.pool.spawned)
    × (length awake.pool.exits + alive awake.pool.procs ≤ awake.pool.spawned)
watch-IsSafe_example = watch-IsSafe awake to_awake
