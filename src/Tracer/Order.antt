-- ===== src/Tracer/Order.antt =====
-- What the two sorts of deviceStatus of cmd/tracer/main.go promise.
use job_scheduler_tooling.Prelude.{
  ◌≤◌, ◌≡◌, refl, String, Bool, true, false, List, [], ◌∷◌, arith, ◌==◌, if◌then◌else◌, if_split,
  All, All-map,
}
use job_scheduler_tooling.Prelude.Sort.{sort, insert_sorted}
use job_scheduler_tooling.Text.{less_text}
use job_scheduler_tooling.Queue.{Time}
use job_scheduler_tooling.Tracer.{Event, earlier}
use job_scheduler_tooling.Tracer.Ids.{count}

-- In the order of the times.
abbrev pub IsInTime : List Event → Type 0
IsInTime [] = Unit
IsInTime (e ∷ events) = All (λ f. e.timestamp ≤ f.timestamp) events × IsInTime events

-- The events of one time, in their order.
abbrev pub at_time : Time → List Event → List Event
at_time t [] = []
at_time t (e ∷ events) = if e.timestamp == t then e ∷ at_time t events else at_time t events

insert-All {ℓ κ} :
    {A : Type ℓ} (before : A → A → Bool) (P : A → Type κ) (x : A) (xs : List A)
    → P x
    → All P xs
    → All P (insert_sorted before x xs)
unfolding insert_sorted
insert-All before P x [] p all = (p, tt)
insert-All before P x (y ∷ ys) p (one, more) =
    if_split (All P) (before y x) (λ _. (one, insert-All before P x ys p more))
      (λ _. (p, (one, more)))

insert-IsInTime :
    (e : Event) (events : List Event) → IsInTime events → IsInTime (insert_sorted earlier e events)
unfolding insert_sorted
insert-IsInTime e [] s = (tt, tt)
insert-IsInTime e (f ∷ events) (low, s) =
    if_split IsInTime (earlier f e)
      (λ lt. (
        insert-All earlier (λ g. f.timestamp ≤ g.timestamp) e events (ground (arith, lt)) low,
        insert-IsInTime e events s,
      ))
      (λ le.
        ((ground (arith, le), All-map _ _ events (λ u k. ground (arith, le, k)) low), (low, s)))

pub sort-IsInTime : (events : List Event) → IsInTime (sort earlier events)
unfolding sort
sort-IsInTime [] = tt
sort-IsInTime (e ∷ events) = insert-IsInTime e (sort earlier events) (sort-IsInTime events)

at_time-insert :
    (t : Time) (e : Event) (events : List Event)
    → at_time t (insert_sorted earlier e events) ≡ at_time t (e ∷ events)
unfolding insert_sorted
at_time-insert t e [] = refl
at_time-insert t e (f ∷ events) =
    if_split (λ l. at_time t l ≡ at_time t (e ∷ f ∷ events)) (earlier f e)
      (λ lt. ground (arith, lt, at_time-insert t e events)) (λ _. refl)

-- A stable sort: the events of each time stay, in their order.
pub at_time-sort :
    (t : Time) (events : List Event) → at_time t (sort earlier events) ≡ at_time t events
unfolding sort
at_time-sort t [] = refl
at_time-sort t (e ∷ events) =
    ground (arith, at_time-insert t e (sort earlier events), at_time-sort t events)

-- A log in the order of the times stays.
pub sort_in_time : (events : List Event) → IsInTime events → sort earlier events ≡ events
unfolding sort
sort_in_time [] s = refl
sort_in_time (e ∷ events) (low, s) = rw (sort_in_time events s) (first events low)
  where
    first :
        (l : List Event)
        → All (λ f. e.timestamp ≤ f.timestamp) l
        → insert_sorted earlier e l ≡ e ∷ l
    first [] low = unfold insert_sorted in refl
    first (f ∷ l) (one, more) = unfold insert_sorted in ground (arith, one)

-- In the order of the texts.
abbrev pub IsAscending : List String → Type 0
IsAscending [] = Unit
IsAscending (s ∷ ss) = All (λ t. less_text t s ≡ false) ss × IsAscending ss

less_text-asym : (s t : String) → less_text s t ≡ true → less_text t s ≡ false
unfolding less_text
less_text-asym s String.[] h = cc
less_text-asym String.[] (String.◌∷◌ d t) h = refl
less_text-asym (String.◌∷◌ c s) (String.◌∷◌ d t) h = ground (arith, less_text-asym s t)

not_less_trans :
    (s t u : String) → less_text t s ≡ false → less_text u t ≡ false → less_text u s ≡ false
unfolding less_text
not_less_trans String.[] t u h k = refl
not_less_trans (String.◌∷◌ c s) String.[] u h k = cc
not_less_trans (String.◌∷◌ c s) (String.◌∷◌ d t) String.[] h k = cc
not_less_trans (String.◌∷◌ c s) (String.◌∷◌ d t) (String.◌∷◌ e u) h k =
    ground (arith, not_less_trans s t u)

insert-IsAscending :
    (s : String) (ss : List String) → IsAscending ss → IsAscending (insert_sorted less_text s ss)
unfolding insert_sorted
insert-IsAscending s [] a = (tt, tt)
insert-IsAscending s (t ∷ ss) (low, a) =
    if_split IsAscending (less_text t s)
      (λ lt. (
        insert-All less_text (λ u. less_text u t ≡ false) s ss (less_text-asym t s lt) low,
        insert-IsAscending s ss a,
      ))
      (λ le. ((le, All-map _ _ ss (λ u k. not_less_trans s t u le k) low), (low, a)))

pub sort-IsAscending : (ss : List String) → IsAscending (sort less_text ss)
unfolding sort
sort-IsAscending [] = tt
sort-IsAscending (s ∷ ss) = insert-IsAscending s (sort less_text ss) (sort-IsAscending ss)

count-insert :
    (id s : String) (ss : List String) → count id (insert_sorted less_text s ss) ≡ count id (s ∷ ss)
unfolding insert_sorted
count-insert id s [] = refl
count-insert id s (t ∷ ss) =
    if_split (λ l. count id l ≡ count id (s ∷ t ∷ ss)) (less_text t s)
      (λ _. omega (arith, count-insert id s ss)) (λ _. refl)

pub count-sort : (id : String) (ss : List String) → count id (sort less_text ss) ≡ count id ss
unfolding sort
count-sort id [] = refl
count-sort id (s ∷ ss) = omega (arith, count-insert id s (sort less_text ss), count-sort id ss)
