-- ===== src/Lib.antt =====
-- A model of the Go program in this repository (module `scheduler`): the broker that hands
-- inference jobs to worker processes, with what it is made of, the coordinator that does the same
-- over SQS, the registry that pushes configurations to devices, the simulation of a scheduler that
-- places jobs on nodes, and the tracer that reads back what these have logged.
--
-- The parts, and the files that model them:
-- - internal/inference/inference.go: Inference (Batch, Validate).
-- - internal/resource/resource.go: Resource (nodes, Fits, Reserve, Release, FindFit), with
--   Resource/Capacity and Resource/BestFit.
-- - internal/queue/queue.go: Queue (Job, the heap, Push, Pop), with Queue/Order, Swap, Up, Down,
--   Push and Pop. container/heap is the Go library's: its `up` and `down` are modelled too.
-- - internal/triage/triage.go, and buildAgent of cmd/dispatcher/main.go: Triage, with
--   Triage/Policy and Triage/Agents. Text models the `strings` functions that the policy uses.
-- - internal/telemetry/telemetry.go: Telemetry (events and the log).
-- - internal/dispatch/broker.go: Dispatch/Broker. Dispatch/Guard is the treatment of an agent's
--   answer, which internal/dispatch/sqs.go repeats. Dispatch/Broker/Invariant, Submit, Claim and
--   Report have one method each; Runs has the broker under any interleaving of calls, and
--   Attempts and Budget the bound on the attempts.
-- - internal/dispatch/sqs.go: Dispatch/Sqs (the coordinator), with Terminal for the jobs that have
--   ended and Runs for any interleaving of calls; Worker is the worker loop on one delivery and Ack
--   when it deletes a message. Dispatch/Sqs/System is the coordinator with any number of workers and
--   the queues, each step a call of one of them, and SQS a record of operations and laws: Lives is a
--   job that has ended or has a message, Phases what a worker may rely on between two calls, Kept
--   what each step leaves, Known the jobs that were submitted, About the jobs of the workers' messages, and Completion the
--   end of the run. DeadLetters is a tick of
--   WatchDeadLetters with what PeekDeadLetters finds.
-- - cmd/dispatcher/main.go: Dispatcher (the worker loop, over Dispatch/Broker), with Jobs (the jobs
--   that are generated), Handled (what the calls of a worker leave), Drain (a worker alone with the broker), Session (a run of the coordinator
--   with one worker) and Watch (the watch over the worker processes). Dispatcher/Workers is any number
--   of workers beside the broker: Matching has which worker runs which job, Standing what holds after
--   each step, the loop of runCoordinator that gives up on an early exit included, Progress what the
--   workers can do next, and Effort how long they can go on.
--   Text/Decimal and
--   Text/Numbering have the IDs, Inference/Choice the batches that both programs draw.
-- - cmd/dispatcher/sqs.go: Dispatcher/Chaos has the chaos jobs, and Dispatcher/Pool the worker
--   processes and the loop that watches over them, with Counts (the pool) and Runs. Dispatcher/SqsSession is the setup up to the start
--   of the workers: Filling has the loop that submits, and Filled the queues that it leaves.
-- - internal/sqsqueue/sqsqueue.go: SqsQueue (tiers, defaults, Receive), with Sweep;
--   SqsQueue/Topology has Create, Open, Delete and Send over the AWS client, a parameter;
--   SqsQueue/Letters has Ack, Release and PeekDeadLetters.
-- - internal/devices/devices.go: Devices (entries and the sections of a push loop), with Standing;
--   internal/devices/sim.go: Devices/Sim. Devices/Delivery is an entry, its loops and its device
--   under any interleaving, with Invariant and Runs; Devices/PushLoop is one push loop from its start
--   to its end against any transport; Devices/Registry is the map of all entries.
-- - internal/devices/sim.go, the network: Devices/Network; cmd/devices/main.go: Devices/Fleet, the
--   devices that main registers and the configurations of its demo, with Demo.
-- - internal/devices/http.go: Devices/Http, over Devices/Registry, with Answers.
-- - cmd/scheduler/main.go: Scheduler (findPreemptionVictim, with Preemption) and
--   Scheduler/Simulation (the tick loop of main). Books has what is in use on one node and
--   Accounts on all of them, Running
--   the map of running jobs, Invariant what holds between the steps, Rounds the loop over the queue,
--   Ticks the loop over the ticks, Workload the jobs that main makes up, and Spec parseNodes.
-- - cmd/tracer/main.go: Tracer, with Fields (what events make of a row), Rows and Status (the rows
--   of the devices), Times (the waits of the jobs), Waits (the statistics), Order and Ids (the sorts
--   and the keys), and Entries and Agreement (the rows beside the registry of Devices).
-- Tests has the definitions and theorems at concrete inputs.
-- The dispatcher submits jobs to the broker; workers claim and report them; a failed job goes to
-- the triage agent, and by its decision back into the queue or to its end.
--
-- How the code is read. A Go `int` is an integer that wraps at 64 bits (Prelude/Int); counters of
-- events, lengths and indices are natural numbers, since they stay far below 2^63. A map is an
-- association list (Prelude/Dict). A pointer to a job is its value: a job is in one place at a time,
-- the queue, the running map, or a Report call. A method that holds the lock is one function from
-- state to state; Report gives the lock up while the agent decides, and is two. `none` is a run-time
-- panic, and so is fuel that runs out in the heap's loops.
-- The fuel of `up` is the length of the slice, which bounds the index it starts at, and that of
-- `down` the length, which bounds the way to the leaves. The fuel of the simulation's loop over its
-- queue is more than the ranks of all jobs add up to, a rank being a priority counted from the lowest
-- `int`: each round takes a job out, and puts back at most one of lower priority. A push loop has
-- fuel for one round more than it may attempt, and a worker for one more than the attempts that the
-- jobs of the broker have left. Clock readings and random numbers are arguments.
-- sort.Slice is a stable sort (Prelude/Sort): the program's tests are strict, and where two elements
-- may be equal under them the choice is one of those the Go library leaves open.
--
-- Not modelled: what is a call of a library or an effect outside the program, whose result is an
-- argument instead: files, JSON, HTTP, RPC, SQL, the start and end of processes, signals and the
-- configuration of the AWS client (newClient). So are the waits, which only choose between steps that
-- the models take in any order, and the polling of RunSQSWorker around a delivery, whose error exits are
-- deaths of a worker, which the system has at any point. The flags, the texts for people in events and on the terminal, and
-- the floats of Utilization and String have no part in a decision of the program. The Python, SQL and
-- C files beside the Go program are not part of it.
pub mod Prelude
pub mod Inference
pub mod Resource
pub mod Text
pub mod Triage
pub mod Queue
pub mod Telemetry
pub mod Dispatch
pub mod Dispatcher
pub mod Devices
pub mod SqsQueue
pub mod Scheduler
pub mod Tracer
mod Tests
