-- ===== src/Queue/Swap.antt =====
-- What Swap does to the slice.
use mathlib.Core.List.Perm
use job_scheduler_tooling.Prelude.{
  Bool-cases, inl, inr, ℕ, zero, suc, ◌<◌, ◌≡◌, ◌≢◌, refl, List, [], ◌∷◌, map, Perm, some, arith,
  length, get_elem?, set, if◌then◌else◌, ◌==◌, length-set, ◌∙◌,
}
use job_scheduler_tooling.Prelude.Int.{pos}
use job_scheduler_tooling.Prelude.Partial.{Yields, yields}
use job_scheduler_tooling.Queue.{Job, key, precedes, swap, less}
use job_scheduler_tooling.Queue.Order.{key_at, key_at_lem, IsIndexed}

-- A job without the queue's bookkeeping.
abbrev pub plain : Job → Job
plain j = record j { index = pos 0 }

-- The jobs of a slice, whatever their order and positions.
abbrev pub SameJobs : List Job → List Job → Type 0
SameJobs a b = Perm (map plain a) (map plain b)

pub get_elem?-total : (h : List Job) (i : ℕ) → i < length h → (x : Job) × (get_elem? h i ≡ some x)
get_elem?-total [] i p = absurd (omega arith)
get_elem?-total (x ∷ h) zero p = (x, refl)
get_elem?-total (x ∷ h) (suc i) p = get_elem?-total h i (omega arith)

key_at-set :
    (h : List Job) (i c : ℕ) (v : Job)
    → i < length h
    → key_at (set h i v) c ≡ (if i == c then key v else key_at h c)
key_at-set [] i c v p = absurd (omega arith)
key_at-set (x ∷ h) zero zero v p = refl
key_at-set (x ∷ h) zero (suc c) v p = ground arith
key_at-set (x ∷ h) (suc i) zero v p = ground arith
key_at-set (x ∷ h) (suc i) (suc c) v p = ground (arith, key_at-set h i c v)

get_elem?-set :
    (h : List Job) (i c : ℕ) (v : Job)
    → i < length h
    → get_elem? (set h i v) c ≡ (if i == c then some v else get_elem? h c)
get_elem?-set [] i c v p = absurd (omega arith)
get_elem?-set (x ∷ h) zero zero v p = refl
get_elem?-set (x ∷ h) zero (suc c) v p = ground arith
get_elem?-set (x ∷ h) (suc i) zero v p = ground arith
get_elem?-set (x ∷ h) (suc i) (suc c) v p = ground (arith, get_elem?-set h i c v)

set-SameJobs :
    (h : List Job) (i : ℕ) (x v : Job) → get_elem? h i ≡ some x → SameJobs (x ∷ set h i v) (v ∷ h)
set-SameJobs [] i x v e = cc
set-SameJobs (y ∷ h) zero x v e =
    let same : y ≡ x = cc in rw same (Perm.swap (plain v) (plain x) (map plain h))
set-SameJobs (y ∷ h) (suc i) x v e =
    Perm.trans (Perm.swap (plain y) (plain x) _)
      (Perm.trans (Perm.cons (plain y) (set-SameJobs h i x v e)) (Perm.swap (plain v) (plain y) _))

-- The slice after a swap of `i` and `j`.
pub record Swapped (h : List Job) (i j : ℕ) (h' : List Job) : Type 0 where
  pub size : length h' ≡ length h
  pub keys :
      (c : ℕ)
      → key_at h' c ≡ (if j == c then key_at h i else if i == c then key_at h j else key_at h c)
  pub jobs : SameJobs h' h
  pub others : (c : ℕ) → c ≢ i → c ≢ j → get_elem? h' c ≡ get_elem? h c
  pub indexed : IsIndexed h → IsIndexed h'

module _ (h : List Job) (i j : ℕ) (hi : i < length h) (hj : j < length h) where
  pub less_lem : less h i j ≡ some (precedes (key_at h i) (key_at h j))
  unfolding less
  less_lem =
      let (x, ex) = get_elem?-total h i hi in
      let (y, ey) = get_elem?-total h j hj in rw (ex, ey, key_at_lem h i ex, key_at_lem h j ey)

  module _ (x y : Job) (ex : get_elem? h i ≡ some x) (ey : get_elem? h j ≡ some y) where
    abbrev swapped : List Job
    swapped = set (set h i (record y { index = pos i })) j (record x { index = pos j })

    swapped_at :
        (c : ℕ)
        → get_elem? swapped c ≡ (
            if j == c
            then some (record x { index = pos j })
            else if i == c
            then some (record y { index = pos i })
            else get_elem? h c)
    swapped_at c = ground (
      arith,
      length-set h i (record y { index = pos i }),
      get_elem?-set (set h i (record y { index = pos i })) j c (record x { index = pos j }),
      get_elem?-set h i c (record y { index = pos i }),
    )

    -- The entry that the second write replaces.
    replaced :
        (z : Job) × (get_elem? (set h i (record y { index = pos i })) j ≡ some z)
        × (plain z ≡ plain y)
    replaced = elim (Bool-cases (i == j)) [
      | inl same ↦ (
        record y { index = pos i },
        ground (arith, get_elem?-set h i j (record y { index = pos i })),
        refl,
      )
      | inr apart ↦ (y, ground (arith, get_elem?-set h i j (record y { index = pos i })), refl)
    ]

    swapped-SameJobs : SameJobs swapped h
    swapped-SameJobs =
        let (z, ez, same) = replaced in
        let first = set-SameJobs h i x (record y { index = pos i }) ex in
        let second = set-SameJobs _ j z (record x { index = pos j }) ez in
        Perm.cons_inv (rw same at (Perm.trans second first))

    swapped-Swapped : Swapped h i j swapped
    swapped-Swapped = record {
      size = length-set _ _ _ ∙ length-set _ _ _;
      keys = λ c. ground (
        arith,
        length-set h i (record y { index = pos i }),
        key_at_lem h i ex,
        key_at_lem h j ey,
        key_at-set (set h i (record y { index = pos i })) j c (record x { index = pos j }),
        key_at-set h i c (record y { index = pos i }),
      );
      jobs = swapped-SameJobs;
      others = λ c p q. ground (arith, swapped_at c);
      indexed = λ v c z e. ground (arith, swapped_at c, v c z);
    }

  pub swap_lem : Yields (Swapped h i j) (swap h i j)
  unfolding swap
  swap_lem =
      let (x, ex) = get_elem?-total h i hi in
      let (y, ey) = get_elem?-total h j hj in rw (ex, ey) (yields (swapped-Swapped x y ex ey))
