-- ===== src/Queue.antt =====
-- internal/queue/queue.go: jobs and the priority queue, a binary heap kept in a slice by Go's
-- container/heap. A slice function that writes returns the new list. `none` is a run-time panic.
-- A length is far below 2^62, so no index overflows. A job stands in one queue at most, so the
-- shared `*Job` is its value; the queue's own writes, to `index`, are modelled.
pub mod Order
pub mod Swap
mod Up
mod Down
pub mod Push
pub mod Pop
use job_scheduler_tooling.Prelude.{
  ℕ, zero, suc, ◌+◌, ◌-◌, ◌*◌, ◌/◌, ◌^◌, Bool, not, String, List, [], ◌∷◌, ◌++◌, Option, none, some,
  ltb, leb, ◌==◌, if◌then◌else◌, length, get_elem?, set, take,
}
use job_scheduler_tooling.Prelude.Int.{ℤ, pos, negsuc, ltb_ℤ, eqb_ℤ}
use job_scheduler_tooling.Prelude.Partial.{◌>>=◌}
use job_scheduler_tooling.Resource.{Requirements}
use job_scheduler_tooling.Inference.{Batch}

pub data JobState : Type 0 where
  pending running preempted completed : JobState

-- JobState.String; the type has no other values.
unfoldable pub state_string : JobState → String
state_string JobState.pending = "pending"
state_string JobState.running = "running"
state_string JobState.preempted = "preempted"
state_string JobState.completed = "completed"

-- A time.Time by the nanoseconds since the zero time: 0 is the zero time.
abbrev pub Time : Type 0
Time = ℕ

abbrev pub is_zero : Time → Bool
is_zero t = t == 0

pub record Job : Type 0 where
  pub id : String
  pub priority : ℤ
  pub resources : Requirements
  pub inference : Batch
  pub attempt : ℤ
  pub max_attempts : ℤ
  pub inject_failure : String
  pub state : JobState
  pub submit_time : Time
  pub start_time : Time
  pub node : String
  pub index : ℤ

-- Time.Sub: the difference as an int64 of nanoseconds, at most 2^63 - 1 and at least -2^63.
unfoldable pub time_sub : Time → Time → ℤ
time_sub a b =
    if leb b a
    then (if leb (2 ^ 63) (a - b) then pos (2 ^ 63 - 1) else pos (a - b))
    else (if leb (2 ^ 63) (b - a) then negsuc (2 ^ 63 - 1) else negsuc (b - a - 1))

unfoldable pub wait_time : Job → Time → ℤ
unfolding time_sub
wait_time j now =
    if not (is_zero j.start_time)
    then time_sub j.start_time j.submit_time
    else time_sub now j.submit_time

-- What Less reads of a job.
pub record Key : Type 0 where
  pub priority : ℤ
  pub time : Time

abbrev pub key : Job → Key
key j = record { priority = j.priority; time = j.submit_time }

-- The body of Less: higher priority first, then the earlier submission.
unfoldable pub precedes : Key → Key → Bool
precedes a b =
    if not (eqb_ℤ a.priority b.priority) then ltb_ℤ b.priority a.priority else ltb a.time b.time

-- priorityHeap.Less, Swap, Push and Pop.
unfoldable pub less : List Job → ℕ → ℕ → Option Bool
less h i j = do x ← get_elem? h i; y ← get_elem? h j; some (precedes (key x) (key y))

unfoldable pub swap : List Job → ℕ → ℕ → Option (List Job)
swap h i j = do
  y ← get_elem? h j
  x ← get_elem? h i
  some (set (set h i (record y { index = pos i })) j (record x { index = pos j }))

unfoldable pub heap_append : List Job → Job → List Job
heap_append h job = h ++ (record job { index = pos (length h) } ∷ [])

unfoldable pub heap_cut : List Job → Option (Job × List Job)
heap_cut h = if length h == 0 then none else do
  job ← get_elem? h (length h - 1)
  some (record job { index = negsuc 0 }, take (length h - 1) h)

abbrev pub parent : ℕ → ℕ
parent c = (c - 1) / 2

-- container/heap's up; the fuel stands for the loop.
unfoldable pub up : ℕ → List Job → ℕ → Option (List Job)
up zero h j = none
up (suc fuel) h j =
    let i = parent j in
    let rise = swap h i j >>= λ h'. up fuel h' i in
    let test = less h j i >>= λ b. if b then rise else some h in if i == j then some h else test

-- The child that down compares with: the right one where it is there and precedes the left one.
unfoldable pub child : List Job → ℕ → ℕ → Option ℕ
child h i n =
    let left = 2 * i + 1 in
    let right = left + 1 in
    if ltb right n then (less h right left >>= λ b. some (if b then right else left)) else some left

-- container/heap's down on the first `n` entries. Its result is used by other calls only.
unfoldable pub down : ℕ → List Job → ℕ → ℕ → Option (List Job)
down zero h i n = none
down (suc fuel) h i n =
    let step : Option (List Job) = do
      j ← child h i n
      b ← less h j i
      let sink = swap h i j >>= λ h'. down fuel h' j n
      if b then sink else some h
    in if leb n (2 * i + 1) then some h else step

-- heap.Push and heap.Pop.
unfoldable pub heap_push : List Job → Job → Option (List Job)
heap_push h job = let h' = heap_append h job in up (length h') h' (length h' - 1)

unfoldable pub heap_pop : List Job → Option (Job × List Job)
heap_pop h = let n = length h - 1 in swap h 0 n >>= λ h₁. down (length h) h₁ 0 n >>= heap_cut

pub record Queue : Type 0 where
  pub heap : List Job

-- heap.Init does nothing to the empty slice.
unfoldable pub new : Queue
new = record { heap = [] }

unfoldable pub push : Queue → Job → Option Queue
push q j = heap_push q.heap j >>= λ h. some (record { heap = h })

unfoldable pub len : Queue → ℕ
len q = length q.heap

-- The first result is the returned pointer, `none` for nil.
unfoldable pub pop : Queue → Option (Option Job × Queue)
pop q =
    if len q == 0
    then some (none, q)
    else heap_pop q.heap >>= λ (j, h). some (some j, record { heap = h })

unfoldable pub peek : Queue → Option (Option Job)
peek q = if len q == 0 then some none else get_elem? q.heap 0 >>= λ j. some (some j)
