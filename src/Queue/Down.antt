-- ===== src/Queue/Down.antt =====
-- container/heap's down restores the heap order of the first `n` entries of a slice, whose entry
-- `i` may stand too high, and leaves the entries from `n` on.
use mathlib.Core.List.Perm
use job_scheduler_tooling.Prelude.{
  ℕ, zero, suc, ◌+◌, ◌-◌, ◌*◌, ◌≤◌, ◌<◌, ◌≡◌, ◌≢◌, refl, ◌∙◌, Bool, true, false, List, arith,
  length, ltb, leb, get_elem?, if◌then◌else◌,
}
use job_scheduler_tooling.Prelude.Partial.{
  Yields, yields, Yields-then, Yields-weaken, Yields-branch,
}
use job_scheduler_tooling.Queue.{Job, precedes, parent, child, down}
use job_scheduler_tooling.Queue.Order.{
  Ordered, Ordered-refl, Ordered-trans, Ordered-of_precedes, key_at, IsHeap,
}
use job_scheduler_tooling.Queue.Swap.{Swapped, swap_lem, less_lem}
use job_scheduler_tooling.Queue.Up.{Restored, Restored-swap}

-- Only the children of `i` may precede their parent.
pub record Sinking (n : ℕ) (h : List Job) (i : ℕ) : Type 0 where
  pub edges : (c : ℕ) → 0 < c → c < n → parent c ≢ i → Ordered (key_at h (parent c)) (key_at h c)
  pub skip :
      (c : ℕ) → 0 < c → c < n → parent c ≡ i → 0 < i → Ordered (key_at h (parent i)) (key_at h c)

-- The child of `i` that no other child precedes.
record IsFirstChild (n : ℕ) (h : List Job) (i m : ℕ) : Type 0 where
  inside : m < n
  positive : 0 < m
  below : parent m ≡ i
  least : (c : ℕ) → 0 < c → c < n → parent c ≡ i → Ordered (key_at h m) (key_at h c)

-- The choice between two children.
two_children :
    (n : ℕ) (h : List Job) (i : ℕ)
    → 2 * i + 1 + 1 < n
    → (b : Bool) → precedes (key_at h (2 * i + 1 + 1)) (key_at h (2 * i + 1)) ≡ b
    → IsFirstChild n h i (if b then 2 * i + 1 + 1 else 2 * i + 1)
two_children n h i p true e = record {
  inside = p;
  positive = omega arith;
  below = omega arith;
  least = λ c a b d. ground (
    arith,
    Ordered-refl (key_at h c),
    Ordered-of_precedes (key_at h (2 * i + 1 + 1)) (key_at h (2 * i + 1)),
  );
}
two_children n h i p false e = record {
  inside = omega arith;
  positive = omega arith;
  below = omega arith;
  least = λ c a b d. ground (arith, Ordered-refl (key_at h c));
}

child-IsFirstChild :
    (n : ℕ) (h : List Job) (i : ℕ)
    → n ≤ length h
    → 2 * i + 1 < n
    → Yields (IsFirstChild n h i) (child h i n)
unfolding child
child-IsFirstChild n h i fit p =
    let left = 2 * i + 1 in
    let right = left + 1 in
    Yields-branch (ltb right n)
      (λ two.
        let hr : right < n = ground arith in
        rw (less_lem h right left (omega arith) (omega arith))
          (yields (two_children n h i hr _ refl)))
      (λ one. yields (record {
        inside = p;
        positive = omega arith;
        below = omega arith;
        least =
            λ c a b e. let only : c ≡ left = ground arith in rw only (Ordered-refl (key_at h left));
      }))

module _ (n : ℕ) (h h' : List Job) (i m : ℕ) (v : Sinking n h i) (f : IsFirstChild n h i m)
    (higher : precedes (key_at h m) (key_at h i) ≡ true) (s : Swapped h i m h') where
  Sinking-swap : Sinking n h' m
  Sinking-swap =
      let down_i = Ordered-of_precedes (key_at h m) (key_at h i) higher in
      record {
        edges = λ c a b d. ground (
          arith,
          f.positive,
          f.below,
          s.keys c,
          s.keys (parent c),
          down_i,
          v.edges c,
          v.skip m f.positive f.inside f.below,
          f.least c,
        );
        skip = λ c a b d e.
            ground (arith, f.positive, f.below, s.keys c, s.keys (parent m), v.edges c);
      }

-- The first `n` entries are a heap, and the others are untouched.
pub record Sunk (n : ℕ) (h h' : List Job) : Type 0 where
  pub restored : Restored n h h'
  pub beyond : (c : ℕ) → n ≤ c → get_elem? h' c ≡ get_elem? h c

Sunk-swap :
    {n : ℕ} {h g h' : List Job} (i j : ℕ)
    → i < n
    → j < n
    → Swapped h i j g
    → Sunk n g h'
    → Sunk n h h'
Sunk-swap i j p q s r = record {
  restored = Restored-swap i j s r.restored;
  beyond = λ c b. r.beyond c b ∙ s.others c (omega arith) (omega arith);
}

Sunk-refl : (n : ℕ) (h : List Job) → IsHeap n h → Sunk n h h
Sunk-refl n h v = record {
  restored = record { heap = v; jobs = Perm.rfl; size = refl; indexed = λ w. w };
  beyond = λ c b. refl;
}

pub down_restores :
    (fuel n : ℕ) (h : List Job) (i : ℕ)
    → n ≤ length h
    → n - i < fuel
    → Sinking n h i
    → Yields (Sunk n h) (down fuel h i n)
unfolding down
down_restores zero n h i fit f v = absurd (omega arith)
down_restores (suc fuel) n h i fit f v =
    Yields-branch (leb n (2 * i + 1))
      (λ leaf. yields (Sunk-refl n h (λ c a b. v.edges c a b (ground arith))))
      (λ inner. Yields-then (child-IsFirstChild n h i fit (ground arith)) λ m k.
        let hi : i < n = omega (arith, k.inside, k.below, k.positive) in
        rw (less_lem h m i (omega (arith, k.inside)) (omega arith)) (
          Yields-branch (precedes (key_at h m) (key_at h i))
            (λ higher. Yields-then (swap_lem h i m (omega arith) (omega (arith, k.inside))) (λ g s.
              Yields-weaken
                (down_restores fuel n g m (omega (arith, s.size))
                  (omega (arith, k.inside, k.below, k.positive))
                  (Sinking-swap n h g i m v k higher s))
                (λ h' r. Sunk-swap i m hi k.inside s r)))
            (λ settled. yields (
              Sunk-refl n h λ c a b. ground (
                arith,
                v.edges c,
                k.least c,
                Ordered-trans (key_at h i) (key_at h m) (key_at h c),
              )))))
