-- ===== src/Tests/Queues.antt =====
-- internal/queue on concrete jobs.
use job_scheduler_tooling.Prelude.{
  ◌≡◌, refl, String, List, [], ◌∷◌, Option, none, some, arith, zero, suc,
}
use job_scheduler_tooling.Prelude.Int.{pos}
use job_scheduler_tooling.Prelude.Partial.{◌>>=◌, Yields}
use job_scheduler_tooling.Queue.{
  Job, Queue, new, push, pop, up, heap_push, heap_pop, less, swap, precedes, down, child, heap_cut,
  heap_append, len,
}
use job_scheduler_tooling.Queue.Order.{IsHeap, IsIndexed}
use job_scheduler_tooling.Queue.Push.{IsValid}
use job_scheduler_tooling.Queue.Pop.{PopResult, pop-PopResult}
use job_scheduler_tooling.Tests.Samples.{job}

abbrev id_of : Option Job → String
id_of none = ""
id_of (some j) = j.id

abbrev drained : Option (List String)
drained = do
  a ← push new (job "low" 1 5)
  b ← push a (job "late" 5 9)
  c ← push b (job "early" 5 2)
  (x, d) ← pop c
  (y, e) ← pop d
  (z, f) ← pop e
  some (id_of x ∷ id_of y ∷ id_of z ∷ [])

-- The priority decides, and then the time of submission.
order : drained ≡ some ("early" ∷ "late" ∷ "low" ∷ [])
unfolding push pop new heap_push heap_pop heap_append heap_cut up down child less swap precedes len
order = refl

abbrev two : Queue
two = record { heap = job "high" 5 9 ∷ record (job "low" 1 5) { index = pos 1 } ∷ [] }

two-IsValid : IsValid two
unfolding precedes
two-IsValid = record { heap = edges; indexed = places }
  where
    edges : IsHeap 2 two.heap
    edges zero a b = absurd (omega arith)
    edges (suc zero) a b = refl
    edges (suc (suc c)) a b = absurd (omega arith)

    places : IsIndexed two.heap
    places zero x e = ground arith
    places (suc zero) x e = ground arith
    places (suc (suc c)) x e = cc

pop-PopResult_example : Yields (PopResult two) (pop two)
pop-PopResult_example = pop-PopResult two two-IsValid
