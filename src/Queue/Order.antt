-- ===== src/Queue/Order.antt =====
-- The order of the queue, and what it means for a slice to be a heap.
use job_scheduler_tooling.Prelude.{
  ℕ, zero, suc, ◌<◌, ◌≡◌, ◌⊎◌, true, false, List, [], ◌∷◌, some, arith, get_elem?,
}
use job_scheduler_tooling.Prelude.Int.{pos, ◌<ℤ◌}
use job_scheduler_tooling.Queue.{Job, Key, key, precedes, parent}

-- `b` does not precede `a`.
abbrev pub Ordered : Key → Key → Type 0
Ordered a b = precedes b a ≡ false

pub Ordered-refl : (a : Key) → Ordered a a
unfolding precedes
Ordered-refl a = ground arith

pub Ordered-trans : (a b c : Key) → Ordered a b → Ordered b c → Ordered a c
unfolding precedes
Ordered-trans a b c h k = ground arith

pub Ordered-of_precedes : (a b : Key) → precedes a b ≡ true → Ordered a b
unfolding precedes
Ordered-of_precedes a b h = ground arith

-- Served first: the higher priority, and of equal priorities the earlier submission.
pub precedes_iff :
    (a b : Key)
    → precedes a b ≡ true
    → (b.priority <ℤ a.priority) ⊎ ((a.priority ≡ b.priority) × (a.time < b.time))
unfolding precedes
precedes_iff a b h = ground arith

-- The key of the entry `i`.
abbrev pub key_at : List Job → ℕ → Key
key_at [] i = record { priority = pos 0; time = 0 }
key_at (x ∷ h) zero = key x
key_at (x ∷ h) (suc i) = key_at h i

pub key_at_lem : (h : List Job) (i : ℕ) {x : Job} → get_elem? h i ≡ some x → key_at h i ≡ key x
key_at_lem [] i e = ground arith
key_at_lem (y ∷ h) zero e = ground arith
key_at_lem (y ∷ h) (suc i) e = key_at_lem h i e

-- No entry among the first `n` precedes its parent.
abbrev pub IsHeap : ℕ → List Job → Type 0
IsHeap n h = (c : ℕ) → 0 < c → c < n → Ordered (key_at h (parent c)) (key_at h c)

-- Each entry carries its own position.
abbrev pub IsIndexed : List Job → Type 0
IsIndexed h = (c : ℕ) (x : Job) → get_elem? h c ≡ some x → x.index ≡ pos c

root_below :
    (k n : ℕ) (h : List Job) (c : ℕ)
    → IsHeap n h
    → c < k
    → c < n
    → Ordered (key_at h 0) (key_at h c)
root_below zero n h c v p q = absurd (omega arith)
root_below (suc k) n h zero v p q = Ordered-refl (key_at h 0)
root_below (suc k) n h (suc c) v p q =
    Ordered-trans (key_at h 0) (key_at h (parent (suc c))) (key_at h (suc c))
      (root_below k n h (parent (suc c)) v (omega arith) (omega arith)) (v (suc c) (omega arith) q)

-- No entry of a heap precedes its root.
pub root_first :
    (n : ℕ) (h : List Job) (c : ℕ) → IsHeap n h → c < n → Ordered (key_at h 0) (key_at h c)
root_first n h c v q = root_below (suc c) n h c v (omega arith) q
