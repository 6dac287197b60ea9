-- ===== src/Queue/Push.antt =====
-- Push never panics, keeps the heap order and the positions, and adds exactly its job.
use mathlib.Core.List.{perm_append_singleton, map-append}
use mathlib.Core.List.Perm
use job_scheduler_tooling.Prelude.{
  ℕ, zero, suc, ◌+◌, ◌-◌, ◌<◌, ◌≡◌, refl, ap, ◌∙◌, List, [], ◌∷◌, ◌++◌, map, some, arith, length,
  get_elem?, length-append,
}
use job_scheduler_tooling.Prelude.Int.{pos}
use job_scheduler_tooling.Prelude.Partial.{Yields, yields, Yields-then}
use job_scheduler_tooling.Queue.{Job, parent, Queue, heap_append, heap_push, new, push}
use job_scheduler_tooling.Queue.Order.{key_at, IsHeap, IsIndexed}
use job_scheduler_tooling.Queue.Swap.{plain, SameJobs}
use job_scheduler_tooling.Queue.Up.{Rising, up_restores}

pub record IsValid (q : Queue) : Type 0 where
  pub heap : IsHeap (length q.heap) q.heap
  pub indexed : IsIndexed q.heap

-- A new queue is valid.
pub new-IsValid : IsValid new
unfolding new
new-IsValid = record { heap = λ c a b. absurd (omega arith); indexed = λ c x e. cc }

key_at-append : (h r : List Job) (c : ℕ) → c < length h → key_at (h ++ r) c ≡ key_at h c
key_at-append [] r c p = absurd (omega arith)
key_at-append (x ∷ h) r zero p = refl
key_at-append (x ∷ h) r (suc c) p = key_at-append h r c (omega arith)

concat-IsIndexed :
    (h : List Job) (x : Job) (n : ℕ)
    → ((c : ℕ) (z : Job) → get_elem? h c ≡ some z → z.index ≡ pos (n + c))
    → x.index ≡ pos (n + length h)
    → (c : ℕ) (z : Job) → get_elem? (h ++ x ∷ []) c ≡ some z
    → z.index ≡ pos (n + c)
concat-IsIndexed [] x n v e zero z h = let same : x ≡ z = cc in rw (← same) e
concat-IsIndexed [] x n v e (suc c) z h = cc
concat-IsIndexed (y ∷ h) x n v e zero z k = v 0 z k
concat-IsIndexed (y ∷ h) x n v e (suc c) z k =
    concat-IsIndexed h x (suc n) (λ d w q. v (suc d) w q ∙ ap pos (omega arith))
      (e ∙ ap pos (omega arith)) c z k
    ∙ ap pos (omega arith)

append-Rising : (h : List Job) (x : Job) → IsHeap (length h) h → Rising (h ++ x ∷ []) (length h)
append-Rising h x v =
    let size = length-append h (x ∷ []) in
    record {
      inside = omega (arith, size);
      edges = λ c a b d.
          ground
            (arith, size, v c, key_at-append h (x ∷ []) c, key_at-append h (x ∷ []) (parent c));
      skip = λ c a b d e. absurd (omega (arith, size));
    }

-- What Push leaves: a valid queue of one job more.
pub record Pushed (q : Queue) (j : Job) (q' : Queue) : Type 0 where
  pub valid : IsValid q'
  pub same : SameJobs q'.heap (j ∷ q.heap)
  pub size : length q'.heap ≡ length q.heap + 1

append-SameJobs : (h : List Job) (j : Job) → SameJobs (heap_append h j) (j ∷ h)
unfolding heap_append
append-SameJobs h j = rw map-append (perm_append_singleton (plain j) (map plain h))

-- Push never panics, and adds exactly its job to a valid queue.
pub push-Pushed : (q : Queue) (j : Job) → IsValid q → Yields (Pushed q j) (push q j)
unfolding push heap_push heap_append
push-Pushed q j v =
    let h = q.heap in
    let size = length-append h (record j { index = pos (length h) } ∷ []) in
    let last : length (heap_append h j) - 1 ≡ length h = omega (arith, size) in
    rw last (
      Yields-then
        (up_restores (length (heap_append h j)) (heap_append h j) (length h) (omega (arith, size))
          (append-Rising h (record j { index = pos (length h) }) v.heap))
        (λ h' r. yields (record {
          valid = record {
            heap = rw r.size r.heap;
            indexed = r.indexed (λ c z e.
                concat-IsIndexed h (record j { index = pos (length h) }) 0
                  (λ d w k. v.indexed d w k ∙ ap pos (omega arith)) (ap pos (omega arith)) c z e
                ∙ ap pos (omega arith));
          };
          same = Perm.trans r.jobs (append-SameJobs h j);
          size = r.size ∙ size;
        })))
