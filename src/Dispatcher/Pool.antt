-- ===== src/Dispatcher/Pool.antt =====
-- The worker processes of cmd/dispatcher/sqs.go: `spawn`, the goroutine that waits for each process,
-- the chaos goroutine of OnStarted, `alive`, and the loop that watches over them. Whether a process
-- starts is an argument, and each step of a goroutine under the lock is one step of the system.
pub mod Runs
pub mod Counts
use job_scheduler_tooling.Prelude.{
  ℕ, ◌+◌, ◌==◌, ◌≡◌, String, Bool, true, false, List, [], ◌∷◌, ◌++◌, Option, none, some,
  if◌then◌else◌,
}
use job_scheduler_tooling.Prelude.Dict.{Dict, lookup, insert}
use job_scheduler_tooling.Text.Decimal.{numbered_02}

-- workerProc, without the handle of the process.
pub record WorkerProc : Type 0 where
  pub killed : Bool
  pub exited : Bool

-- `exits` is what the channel holds.
pub record Pool : Type 0 where
  pub procs : Dict WorkerProc
  pub next_id : ℕ
  pub spawned : ℕ
  pub exits : List String

abbrev pub new_pool : Pool
new_pool = record { procs = []; next_id = 0; spawned = 0; exits = [] }

abbrev pub worker_id : ℕ → String
worker_id n = numbered_02 "worker-" n

-- `error` is that of the start of the process.
unfoldable pub spawn : Option String → Pool → Pool
spawn (some e) p = record p { next_id = p.next_id + 1 }
spawn none p = record {
  procs = insert (worker_id (p.next_id + 1)) (record { killed = false; exited = false }) p.procs;
  next_id = p.next_id + 1;
  spawned = p.spawned + 1;
  exits = p.exits;
}

-- What follows Wait, for a process of the pool, the send on the channel included.
unfoldable pub reap : String → WorkerProc → Pool → Pool
reap id w p = record p {
  procs = insert id (record w { exited = true }) p.procs;
  exits = p.exits ++ (id ∷ []);
}

-- The chaos goroutine under the lock; it then starts a replacement, and drops the error.
unfoldable pub mark_killed : String → Pool → Pool
mark_killed id p = elim (lookup id p.procs) [
  | none ↦ p
  | some w ↦
      if w.killed then p else record p { procs = insert id (record w { killed = true }) p.procs }
]

abbrev pub live : WorkerProc → ℕ
live w = if w.exited then 0 else 1

unfoldable pub alive : Dict WorkerProc → ℕ
alive [] = 0
alive ((id, w) ∷ procs) = live w + alive procs

-- Where the loop stands: at its `select`, in the sleep after an exit, at its end with runErr, or in a
-- panic on a process that the pool does not know.
pub data Loop : Type 0 where
  selecting : Loop
  sleeping : String → Loop
  ended : Option String → Loop
  panicked : Loop

-- On an exit of the worker, Done being closed or not.
unfoldable pub on_exit : String → Bool → Pool → Loop
on_exit id done p = elim (lookup id p.procs) [
  | none ↦ panicked
  | some w ↦ if w.killed then selecting else if done then ended none else sleeping id
]

-- After the sleep; the error names the last worker.
unfoldable pub wake : String → Pool → Loop
wake id p = if alive p.procs == 0 then ended (some id) else selecting

-- The pool, the loop, and whether Done is closed.
pub record Watch : Type 0 where
  pub pool : Pool
  pub loop : Loop
  pub done : Bool

abbrev pub start : Watch
start = record { pool = new_pool; loop = selecting; done = false }

pub data Step (s s' : Watch) : Type 0 where
  started : (error : Option String) → s' ≡ record s { pool = spawn error s.pool } → Step s s'
  exited :
      (id : String) (w : WorkerProc)
      → lookup id s.pool.procs ≡ some w
      → w.exited ≡ false
      → s' ≡ record s { pool = reap id w s.pool }
      → Step s s'
  chaos : (id : String) → s' ≡ record s { pool = mark_killed id s.pool } → Step s s'
  completed : s' ≡ record s { done = true } → Step s s'
  saw_done : s.loop ≡ selecting → s.done ≡ true → s' ≡ record s { loop = ended none } → Step s s'
  saw_exit :
      (id : String) (rest : List String)
      → s.loop ≡ selecting
      → s.pool.exits ≡ id ∷ rest
      → s' ≡ record s { pool = record s.pool { exits = rest }; loop = on_exit id s.done s.pool }
      → Step s s'
  woke : (id : String) → s.loop ≡ sleeping id → s' ≡ record s { loop = wake id s.pool } → Step s s'

pub data Reach (s : Watch) : Watch → Type 0 where
  here : Reach s s
  next : {t u : Watch} → Reach s t → Step t u → Reach s u
