-- ===== src/Queue/Up.antt =====
-- container/heap's up restores the heap order of a slice whose last entry may stand too low.
use mathlib.Core.List.Perm
use job_scheduler_tooling.Prelude.{
  ℕ, zero, suc, ◌<◌, ◌≡◌, ◌≢◌, refl, ◌∙◌, true, List, arith, length, ◌==◌,
}
use job_scheduler_tooling.Prelude.Partial.{
  Yields, yields, Yields-then, Yields-weaken, Yields-branch,
}
use job_scheduler_tooling.Queue.{Job, precedes, parent, up}
use job_scheduler_tooling.Queue.Order.{
  Ordered, Ordered-trans, Ordered-of_precedes, key_at, IsHeap, IsIndexed,
}
use job_scheduler_tooling.Queue.Swap.{SameJobs, Swapped, swap_lem, less_lem}

-- A heap of the same jobs, with the positions still right.
pub record Restored (n : ℕ) (h h' : List Job) : Type 0 where
  pub heap : IsHeap n h'
  pub jobs : SameJobs h' h
  pub size : length h' ≡ length h
  pub indexed : IsIndexed h → IsIndexed h'

-- Only the entry `i` may precede its parent.
pub record Rising (h : List Job) (i : ℕ) : Type 0 where
  pub inside : i < length h
  pub edges : (c : ℕ) → 0 < c → c < length h → c ≢ i → Ordered (key_at h (parent c)) (key_at h c)
  pub skip :
      (c : ℕ)
      → 0 < c
      → c < length h
      → parent c ≡ i
      → 0 < i
      → Ordered (key_at h (parent i)) (key_at h c)

module _ (h h' : List Job) (i : ℕ) (v : Rising h i) (pos_i : 0 < i)
    (lower : precedes (key_at h i) (key_at h (parent i)) ≡ true)
    (s : Swapped h (parent i) i h') where
  Rising-swap : Rising h' (parent i)
  Rising-swap =
      let p = parent i in
      let up_i = Ordered-of_precedes (key_at h i) (key_at h p) lower in
      record {
        inside = omega (arith, v.inside, s.size);
        edges = λ c a b d. ground (
          arith,
          s.size,
          s.keys c,
          s.keys (parent c),
          up_i,
          v.edges c,
          v.skip c,
          Ordered-trans (key_at h i) (key_at h p) (key_at h c),
        );
        skip = λ c a b d e. ground (
          arith,
          s.size,
          s.keys c,
          s.keys (parent p),
          v.edges c,
          v.edges p,
          Ordered-trans (key_at h (parent p)) (key_at h p) (key_at h c),
        );
      }

pub Restored-swap :
    {n : ℕ} {h g h' : List Job} (i j : ℕ) → Swapped h i j g → Restored n g h' → Restored n h h'
Restored-swap i j s r = record {
  heap = r.heap;
  jobs = Perm.trans r.jobs s.jobs;
  size = r.size ∙ s.size;
  indexed = λ v. r.indexed (s.indexed v);
}

pub up_restores :
    (fuel : ℕ) (h : List Job) (i : ℕ)
    → i < fuel
    → Rising h i
    → Yields (Restored (length h) h) (up fuel h i)
unfolding up
up_restores zero h i f v = absurd (omega arith)
up_restores (suc fuel) h i f v =
    Yields-branch (parent i == i)
      (λ root. yields (record {
        heap = λ c a b. v.edges c a b (ground arith);
        jobs = Perm.rfl;
        size = refl;
        indexed = λ w. w;
      }))
      (λ below.
        let pos_i : 0 < i = ground arith in
        rw (less_lem h i (parent i) v.inside (omega (arith, v.inside))) (
          Yields-branch (precedes (key_at h i) (key_at h (parent i)))
            (λ lower.
              Yields-then (swap_lem h (parent i) i (omega (arith, v.inside)) v.inside) (λ g s.
                Yields-weaken
                  (rw s.size at (
                    up_restores fuel g (parent i) (omega arith)
                      (Rising-swap h g i v pos_i lower s)))
                  (λ h' r. Restored-swap (parent i) i s r)))
            (λ settled. yields (record {
              heap = λ c a b. ground (arith, v.edges c);
              jobs = Perm.rfl;
              size = refl;
              indexed = λ w. w;
            }))))
