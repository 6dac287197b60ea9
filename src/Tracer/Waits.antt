-- ===== src/Tracer/Waits.antt =====
-- The statistics of summary in cmd/tracer/main.go.
use job_scheduler_tooling.Prelude.{
  ℕ, zero, suc, ◌+◌, ◌-◌, ◌/◌, ◌≤◌, ◌<◌, ◌≡◌, refl, subst, String, List, [], ◌∷◌, Option, none,
  some, arith, ◌==◌, if◌then◌else◌, if_split, All, All-map, length, get_elem?,
}
use job_scheduler_tooling.Prelude.Int.{ℤ, ltb_ℤ, leb_ℤ, ◌≤ℤ◌}
use job_scheduler_tooling.Prelude.Partial.{Yields, yields, Yields-then, Yields-branch}
use job_scheduler_tooling.Prelude.Sort.{sort, insert_sorted}
use job_scheduler_tooling.Tracer.{Event, Summary, summary, summarize, waits_of, job_times}
use job_scheduler_tooling.Tracer.Ids.{ListsOnce, keys}
use job_scheduler_tooling.Tracer.Times.{occurs, waits_by, job_times-ListsOnce, waits_of-job_times}

-- How many waits are shorter than this one, and how many are no longer.
abbrev pub shorter : ℤ → List ℤ → ℕ
shorter v [] = 0
shorter v (w ∷ ws) = (if ltb_ℤ w v then 1 else 0) + shorter v ws

abbrev pub no_longer : ℤ → List ℤ → ℕ
no_longer v [] = 0
no_longer v (w ∷ ws) = (if leb_ℤ w v then 1 else 0) + no_longer v ws

-- The wait that stands at the place `k`, from 0 on, when these are put in ascending order.
abbrev pub IsRank : ℕ → List ℤ → ℤ → Type 0
IsRank k ws v = (shorter v ws ≤ k) × (k < no_longer v ws)

-- In ascending order.
abbrev IsSorted : List ℤ → Type 0
IsSorted [] = Unit
IsSorted (w ∷ ws) = All (λ v. w ≤ℤ v) ws × IsSorted ws

insert_sorted-All {ℓ} :
    (P : ℤ → Type ℓ) (w : ℤ) (ws : List ℤ) → P w → All P ws → All P (insert_sorted ltb_ℤ w ws)
unfolding insert_sorted
insert_sorted-All P w [] p all = (p, tt)
insert_sorted-All P w (v ∷ ws) p (one, more) =
    if_split (All P) (ltb_ℤ v w) (λ _. (one, insert_sorted-All P w ws p more))
      (λ _. (p, (one, more)))

insert_sorted-IsSorted : (w : ℤ) (ws : List ℤ) → IsSorted ws → IsSorted (insert_sorted ltb_ℤ w ws)
unfolding insert_sorted
insert_sorted-IsSorted w [] s = (tt, tt)
insert_sorted-IsSorted w (v ∷ ws) (low, s) =
    if_split IsSorted (ltb_ℤ v w)
      (λ lt. (
        insert_sorted-All (λ u. v ≤ℤ u) w ws (ground (arith, lt)) low,
        insert_sorted-IsSorted w ws s,
      ))
      (λ le. ((ground (arith, le), All-map _ _ ws (λ u k. ground (arith, le, k)) low), (low, s)))

sort-IsSorted : (ws : List ℤ) → IsSorted (sort ltb_ℤ ws)
unfolding sort
sort-IsSorted [] = tt
sort-IsSorted (w ∷ ws) = insert_sorted-IsSorted w (sort ltb_ℤ ws) (sort-IsSorted ws)

length-insert_sorted : (w : ℤ) (ws : List ℤ) → length (insert_sorted ltb_ℤ w ws) ≡ length ws + 1
unfolding insert_sorted
length-insert_sorted w [] = omega arith
length-insert_sorted w (v ∷ ws) = ground (arith, length-insert_sorted w ws)

length-sort : (ws : List ℤ) → length (sort ltb_ℤ ws) ≡ length ws
unfolding sort
length-sort [] = refl
length-sort (w ∷ ws) = omega (arith, length-sort ws, length-insert_sorted w (sort ltb_ℤ ws))

shorter-insert_sorted :
    (v w : ℤ) (ws : List ℤ) → shorter v (insert_sorted ltb_ℤ w ws) ≡ shorter v (w ∷ ws)
unfolding insert_sorted
shorter-insert_sorted v w [] = refl
shorter-insert_sorted v w (u ∷ ws) =
    if_split (λ l. shorter v l ≡ shorter v (w ∷ u ∷ ws)) (ltb_ℤ u w)
      (λ _. omega (arith, shorter-insert_sorted v w ws)) (λ _. refl)

no_longer-insert_sorted :
    (v w : ℤ) (ws : List ℤ) → no_longer v (insert_sorted ltb_ℤ w ws) ≡ no_longer v (w ∷ ws)
unfolding insert_sorted
no_longer-insert_sorted v w [] = refl
no_longer-insert_sorted v w (u ∷ ws) =
    if_split (λ l. no_longer v l ≡ no_longer v (w ∷ u ∷ ws)) (ltb_ℤ u w)
      (λ _. omega (arith, no_longer-insert_sorted v w ws)) (λ _. refl)

-- Sorting leaves every rank.
shorter-sort : (v : ℤ) (ws : List ℤ) → shorter v (sort ltb_ℤ ws) ≡ shorter v ws
unfolding sort
shorter-sort v [] = refl
shorter-sort v (w ∷ ws) =
    omega (arith, shorter-insert_sorted v w (sort ltb_ℤ ws), shorter-sort v ws)

no_longer-sort : (v : ℤ) (ws : List ℤ) → no_longer v (sort ltb_ℤ ws) ≡ no_longer v ws
unfolding sort
no_longer-sort v [] = refl
no_longer-sort v (w ∷ ws) =
    omega (arith, no_longer-insert_sorted v w (sort ltb_ℤ ws), no_longer-sort v ws)

-- Nothing is shorter than a bound from below.
shorter_none : (v : ℤ) (ws : List ℤ) → All (λ w. v ≤ℤ w) ws → shorter v ws ≡ 0
shorter_none v [] all = refl
shorter_none v (w ∷ ws) (one, more) = ground (arith, one, shorter_none v ws more)

All-get_elem? :
    (u v : ℤ) (ws : List ℤ) (i : ℕ) → All (λ w. u ≤ℤ w) ws → get_elem? ws i ≡ some v → u ≤ℤ v
All-get_elem? u v [] i all e = cc
All-get_elem? u v (w ∷ ws) zero (one, more) e = let same : w ≡ v = cc in rw same at one
All-get_elem? u v (w ∷ ws) (suc i) (one, more) e = All-get_elem? u v ws i more e

-- What stands at a place of a sorted list.
IsSorted-IsRank :
    (ws : List ℤ) (k : ℕ) (v : ℤ) → IsSorted ws → get_elem? ws k ≡ some v → IsRank k ws v
IsSorted-IsRank [] k v s e = cc
IsSorted-IsRank (w ∷ ws) zero v (low, s) e =
    let same : w ≡ v = cc in rw (← same) (ground (arith, shorter_none w ws low))
IsSorted-IsRank (w ∷ ws) (suc k) v (low, s) e =
    let (few, many) = IsSorted-IsRank ws k v s e in
    let le : w ≤ℤ v = All-get_elem? w v ws k low e in ground (arith, few, many, le)

-- The statistics of these waits: how many there are, and the first, the middle and the last of them
-- in ascending order.
pub record Describes (waits : List ℤ) (s : Summary) : Type 0 where
  pub any : 0 < length waits
  pub count : s.count ≡ length waits
  pub lowest : IsRank 0 waits s.min
  pub middle : IsRank (length waits / 2) waits s.median
  pub highest : IsRank (length waits - 1) waits s.max

-- A read within the bounds.
reads :
    (ws : List ℤ) (i : ℕ) → i < length ws → Yields (λ w. get_elem? ws i ≡ some w) (get_elem? ws i)
reads [] i lt = absurd (omega arith)
reads (w ∷ ws) zero lt = yields refl
reads (w ∷ ws) (suc i) lt = reads ws i (omega arith)

-- A place in the sorted waits.
sort-IsRank :
    (waits : List ℤ) (k : ℕ) (v : ℤ) → get_elem? (sort ltb_ℤ waits) k ≡ some v → IsRank k waits v
sort-IsRank waits k v e =
    let (few, many) = IsSorted-IsRank (sort ltb_ℤ waits) k v (sort-IsSorted waits) e in
    (omega (arith, few, shorter-sort v waits), omega (arith, many, no_longer-sort v waits))

summarize-Describes :
    (waits : List ℤ) → 0 < length waits → Yields (Describes waits) (summarize (sort ltb_ℤ waits))
unfolding summarize
summarize-Describes waits full =
    let sorted : List ℤ = sort ltb_ℤ waits in
    let size : length sorted ≡ length waits = length-sort waits in
    Yields-then (reads sorted 0 (omega (arith, size, full))) λ low at_low.
      Yields-then (reads sorted (length sorted / 2) (omega (arith, size, full))) λ mid at_mid.
        Yields-then (reads sorted (length sorted - 1) (omega (arith, size, full))) λ high at_high.
          yields (record {
            any = full;
            count = size;
            lowest = sort-IsRank waits 0 low at_low;
            middle = rw size at (sort-IsRank waits (length sorted / 2) mid at_mid);
            highest = rw size at (sort-IsRank waits (length sorted - 1) high at_high);
          })

-- What summary prints for these waits.
abbrev pub Summarized : List ℤ → Option Summary → Type 0
Summarized waits none = length waits ≡ 0
Summarized waits (some s) = Describes waits s

-- What summary prints for the jobs of a log, in whatever order the map has them.
abbrev pub SummarizesLog : List Event → Option Summary → Type 0
SummarizesLog events o =
    (ids : List String) × ListsOnce (occurs events) ids × Summarized (waits_by events ids) o

-- The jobs of the log in the order of the map.
log_waits :
    (events : List Event) (o : Option Summary)
    → Summarized (waits_of (job_times [] events)) o
    → SummarizesLog events o
log_waits events o d = (
  keys (job_times [] events),
  job_times-ListsOnce events,
  subst (λ ws. Summarized ws o) (waits_of-job_times events) d,
)

-- summary never reads out of range. The waits are those of each job of the log once, from its last
-- submitted event to its last started event, where it has both at a time that is not zero. There is
-- nothing to summarize exactly when no job has a wait; otherwise the count is the number of the waits,
-- min the shortest, max the longest, and median the one in the middle, the upper one of two, when
-- they are put in ascending order.
pub summary-SummarizesLog : (events : List Event) → Yields (SummarizesLog events) (summary events)
unfolding summary
summary-SummarizesLog events =
    let waits = waits_of (job_times [] events) in
    Yields-branch (length waits == 0)
      (λ empty. yields (log_waits events none (ground (arith, empty))))
      (λ full.
        Yields-then (summarize-Describes waits (ground (arith, full)))
          (λ s d. yields (log_waits events (some s) d)))
