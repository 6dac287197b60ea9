-- ===== src/Queue/Pop.antt =====
-- Pop never panics, and takes out a job that no job of the queue precedes.
use mathlib.Core.List.{perm_append_singleton, map-append}
use mathlib.Core.List.Perm
use job_scheduler_tooling.Prelude.{
  ℕ, zero, suc, ◌+◌, ◌-◌, ◌≤◌, ◌<◌, ◌≡◌, refl, ap, ◌∙◌, List, [], ◌∷◌, ◌++◌, map, Option, none,
  some, arith, length, get_elem?, take, ◌==◌,
}
use job_scheduler_tooling.Prelude.Int.{negsuc}
use job_scheduler_tooling.Prelude.Partial.{Yields, yields, Yields-then, Yields-branch}
use job_scheduler_tooling.Queue.{Job, key, parent, Queue, heap_cut, heap_pop, pop, len}
use job_scheduler_tooling.Queue.Order.{Ordered, key_at, key_at_lem, IsHeap, IsIndexed, root_first}
use job_scheduler_tooling.Queue.Swap.{plain, SameJobs, Swapped, swap_lem, get_elem?-total}
use job_scheduler_tooling.Queue.Down.{Sunk, Sinking, down_restores}
use job_scheduler_tooling.Queue.Push.{IsValid}

key_at-take : (n : ℕ) (h : List Job) (c : ℕ) → c < n → key_at (take n h) c ≡ key_at h c
key_at-take zero h c p = absurd (omega arith)
key_at-take (suc n) [] c p = refl
key_at-take (suc n) (x ∷ h) zero p = refl
key_at-take (suc n) (x ∷ h) (suc c) p = key_at-take n h c (omega arith)

get_elem?-take :
    (n : ℕ) (h : List Job) (c : ℕ) (z : Job)
    → get_elem? (take n h) c ≡ some z
    → get_elem? h c ≡ some z
get_elem?-take zero h c z e = cc
get_elem?-take (suc n) [] c z e = e
get_elem?-take (suc n) (x ∷ h) zero z e = e
get_elem?-take (suc n) (x ∷ h) (suc c) z e = get_elem?-take n h c z e

length-take : (n : ℕ) (h : List Job) → n ≤ length h → length (take n h) ≡ n
length-take zero h p = refl
length-take (suc n) [] p = absurd (omega arith)
length-take (suc n) (x ∷ h) p = ap suc (length-take n h (omega arith))

take-concat :
    (n : ℕ) (h : List Job) (x : Job)
    → length h ≡ suc n
    → get_elem? h n ≡ some x
    → take n h ++ x ∷ [] ≡ h
take-concat zero (y ∷ []) x p e = let same : y ≡ x = cc in rw same
take-concat zero (y ∷ z ∷ h) x p e = absurd (omega arith)
take-concat zero [] x p e = cc
take-concat (suc n) [] x p e = cc
take-concat (suc n) (y ∷ h) x p e = ap (◌∷◌ y) (take-concat n h x (omega arith) e)

-- What Pop leaves: the job taken out, which no job of the queue precedes, and a valid queue of the
-- others.
pub record Popped (h : List Job) (j : Job) (h' : List Job) : Type 0 where
  pub valid : IsValid (record { heap = h' })
  pub same : SameJobs (j ∷ h') h
  pub size : length h ≡ length h' + 1
  pub first : (c : ℕ) → c < length h → Ordered (key j) (key_at h c)
  pub unplaced : j.index ≡ negsuc 0

swap-Sinking :
    (h g : List Job) (n : ℕ)
    → IsHeap (length h) h
    → length h ≡ suc n
    → Swapped h 0 n g
    → Sinking n g 0
swap-Sinking h g n v size s = record {
  edges = λ c a b d. ground (arith, s.keys c, s.keys (parent c), v c);
  skip = λ c a b d e. absurd (omega arith);
}

key_at_beyond : (g h : List Job) (c : ℕ) → get_elem? h c ≡ get_elem? g c → key_at h c ≡ key_at g c
key_at_beyond [] [] c e = refl
key_at_beyond [] (x ∷ h) zero e = cc
key_at_beyond [] (x ∷ h) (suc c) e = key_at_beyond [] h c e
key_at_beyond (x ∷ g) [] zero e = cc
key_at_beyond (x ∷ g) [] (suc c) e = key_at_beyond g [] c e
key_at_beyond (x ∷ g) (y ∷ h) zero e = ground arith
key_at_beyond (x ∷ g) (y ∷ h) (suc c) e = key_at_beyond g h c e

concat-SameJobs : (h : List Job) (x : Job) → SameJobs (h ++ x ∷ []) (x ∷ h)
concat-SameJobs h x = rw map-append (perm_append_singleton (plain x) (map plain h))

-- The slice that Pop cuts: a heap of the first `n` entries, with the old root behind them.
module _ (h g h' : List Job) (n : ℕ) (size : length h ≡ suc n) (v : IsHeap (length h) h)
    (w : IsIndexed h) (s : Swapped h 0 n g) (r : Sunk n g h') where
  abbrev whole : length h' ≡ suc n
  whole = r.restored.size ∙ (s.size ∙ size)

  cut-Popped :
      (x : Job) → get_elem? h' n ≡ some x → Popped h (record x { index = negsuc 0 }) (take n h')
  cut-Popped x e =
      let fit = length-take n h' (omega (arith, whole)) in
      let root : key x ≡ key_at h 0 =
        ground
          (arith, s.keys n, key_at_lem h' n e, key_at_beyond g h' n (r.beyond n (omega arith))) in
      record {
        valid = record {
          heap = λ c a b.
              ground
                (arith, fit, r.restored.heap c, key_at-take n h' c, key_at-take n h' (parent c));
          indexed = λ c z k. r.restored.indexed (s.indexed w) c z (get_elem?-take n h' c z k);
        };
        same =
            Perm.trans
              (rw (take-concat n h' x whole e) at (Perm.symm (concat-SameJobs (take n h') x)))
              (Perm.trans r.restored.jobs s.jobs);
        size = rw fit (omega (arith, size));
        first = λ c p. rw root (root_first (length h) h c v p);
        unplaced = refl;
      }

  cut_lem : Yields (λ (j, t). Popped h j t) (heap_cut h')
  unfolding heap_cut
  cut_lem =
      let (x, e) = get_elem?-total h' n (omega (arith, whole)) in
      let last : length h' - 1 ≡ n = omega (arith, whole) in
      Yields-branch (length h' == 0) (λ empty. absurd (ground (arith, whole)))
        (λ _. rw (last, e) (yields (cut-Popped x e)))

-- heap.Pop on a non-empty heap.
heap_pop_lem :
    (h : List Job) (n : ℕ)
    → length h ≡ suc n
    → IsHeap (length h) h
    → IsIndexed h
    → Yields (λ (j, t). Popped h j t) (heap_pop h)
unfolding heap_pop
heap_pop_lem h n size v w =
    let last : length h - 1 ≡ n = omega arith in
    rw last (
      Yields-then (swap_lem h 0 n (omega arith) (omega arith)) λ g s.
        Yields-then
          (down_restores (length h) n g 0 (omega (arith, s.size)) (omega arith)
            (swap-Sinking h g n v size s))
          λ h' r. cut_lem h g h' n size v w s r)

-- What Pop returns: nothing from an empty queue, and otherwise a job that no other precedes, with
-- a valid queue of the others.
abbrev pub PopResult : Queue → Option Job × Queue → Type 0
PopResult q (none, q') = (length q.heap ≡ 0) × (q' ≡ q)
PopResult q (some j, q') = Popped q.heap j q'.heap

-- Pop of a valid queue never panics. It returns nil exactly from an empty queue, which it leaves,
-- and otherwise takes out a job that no job of the queue precedes.
pub pop-PopResult : (q : Queue) → IsValid q → Yields (PopResult q) (pop q)
unfolding pop len
pop-PopResult q v =
    Yields-branch (length q.heap == 0) (λ empty. yields (ground arith, refl))
      (λ full.
        Yields-then (heap_pop_lem q.heap (length q.heap - 1) (ground arith) v.heap v.indexed)
          (λ (j, t) p. yields p))
