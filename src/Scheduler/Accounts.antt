-- ===== src/Scheduler/Accounts.antt =====
-- What is in use on the nodes of a pool, beside the requests of the jobs that run on them
-- (cmd/scheduler/main.go and internal/resource/resource.go).
use job_scheduler_tooling.Prelude.{
  ℕ, zero, suc, ◌≡◌, ◌≢◌, ap, sym, ◌∙◌, String, true, List, [], ◌∷◌, some, str_eq, eq_iff, if_split,
  All, All-map, get_elem?, set,
}
use job_scheduler_tooling.Resource.{Requirements, Node, fits, reserve, release}
use job_scheduler_tooling.Resource.Capacity.{IsRequest}
use job_scheduler_tooling.Queue.{Job}
use job_scheduler_tooling.Scheduler.Simulation.{release_on}
use job_scheduler_tooling.Scheduler.Books.{Books, Adds, Books-other, reserve-Books, release-Books}

-- No two nodes share a name.
abbrev pub IsNamed : List Node → Type 0
IsNamed [] = Unit
IsNamed (n ∷ nodes) = All (λ m. n.name ≢ m.name) nodes × IsNamed nodes

-- The books of all the nodes.
abbrev pub Balanced : List Job → List Node → Type 0
Balanced jobs nodes = All (Books jobs) nodes

module _ (j : Job) (jobs more : List Job) (a : Adds j jobs more) where
  others_added :
      (nodes : List Node)
      → All (λ m. j.node ≢ m.name) nodes
      → Balanced jobs nodes
      → Balanced more nodes
  others_added [] d b = tt
  others_added (n ∷ nodes) (one, d) (here, b) =
      ((Books-other j jobs more n a one).0 here, others_added nodes d b)

  others_removed :
      (nodes : List Node)
      → All (λ m. j.node ≢ m.name) nodes
      → Balanced more nodes
      → Balanced jobs nodes
  others_removed [] d b = tt
  others_removed (n ∷ nodes) (one, d) (here, b) =
      ((Books-other j jobs more n a one).1 here, others_removed nodes d b)

  -- A job starts on the node at index k.
  pub start-Balanced :
      (nodes : List Node) (k : ℕ) (n : Node)
      → IsNamed nodes
      → get_elem? nodes k ≡ some n
      → j.node ≡ n.name
      → IsRequest j.resources
      → fits n j.resources ≡ true
      → Balanced jobs nodes
      → Balanced more (set nodes k (reserve n j.resources))
  start-Balanced [] k n names at e q h b = tt
  start-Balanced (m ∷ nodes) zero n (apart, names) at e q h (here, b) =
      let same : m ≡ n = cc in
      (
        reserve-Books j jobs more n a e q h (rw same at here),
        others_added nodes (All-map _ _ nodes (λ x d. rw (e, ← same) d) apart) b,
      )
  start-Balanced (m ∷ nodes) (suc k) n (apart, names) at e q h (here, b) =
      let differ : j.node ≢ m.name = λ same. found nodes k apart at (sym same ∙ e) in
      ((Books-other j jobs more m a differ).0 here, start-Balanced nodes k n names at e q h b)
    where
      found :
          (nodes : List Node) (k : ℕ)
          → All (λ x. m.name ≢ x.name) nodes
          → get_elem? nodes k ≡ some n
          → m.name ≢ n.name
      found [] k d at e = cc
      found (x ∷ xs) zero (one, _) at e =
          let same : x ≡ n = cc in one (e ∙ ap (λ (y : Node). y.name) (sym same))
      found (x ∷ xs) (suc k) (_, d) at e = found xs k d at e

  -- A job ends: its node gives back what it asked for.
  pub release_on-Balanced :
      (nodes : List Node)
      → IsNamed nodes
      → IsRequest j.resources
      → Balanced more nodes
      → Balanced jobs (release_on j.node j.resources nodes)
  unfolding release_on
  release_on-Balanced [] names q b = tt
  release_on-Balanced (n ∷ nodes) (apart, names) q (here, b) =
      if_split (Balanced jobs) (str_eq n.name j.node)
        (λ mine.
          let e : n.name ≡ j.node = (eq_iff n.name j.node).0 mine in
          (
            release-Books j jobs more n a (sym e) q here,
            others_removed nodes (All-map _ _ nodes (λ x d. rw (← e) d) apart) b,
          ))
        (λ other.
          let differ : j.node ≢ n.name = λ same. cc ((eq_iff n.name j.node).1 (sym same), other) in
          ((Books-other j jobs more n a differ).1 here, release_on-Balanced nodes names q b))

-- Names stay as they are.
names_kept :
    (p : String) (nodes : List Node) (name : String) (req : Requirements)
    → All (λ (m : Node). p ≢ m.name) nodes
    → All (λ (m : Node). p ≢ m.name) (release_on name req nodes)
unfolding release_on release
names_kept p [] name req d = tt
names_kept p (n ∷ nodes) name req (one, d) =
    if_split (All (λ (m : Node). p ≢ m.name)) (str_eq n.name name) (λ _. (one, d))
      (λ _. (one, names_kept p nodes name req d))

pub release_on-IsNamed :
    (nodes : List Node) (name : String) (req : Requirements)
    → IsNamed nodes
    → IsNamed (release_on name req nodes)
unfolding release_on release
release_on-IsNamed [] name req d = tt
release_on-IsNamed (n ∷ nodes) name req (apart, d) =
    if_split IsNamed (str_eq n.name name) (λ _. (apart, d))
      (λ _. (names_kept n.name nodes name req apart, release_on-IsNamed nodes name req d))

set_names_kept :
    (p : String) (nodes : List Node) (k : ℕ) (n n' : Node)
    → get_elem? nodes k ≡ some n
    → n'.name ≡ n.name
    → All (λ (m : Node). p ≢ m.name) nodes
    → All (λ (m : Node). p ≢ m.name) (set nodes k n')
set_names_kept p [] k n n' at e d = tt
set_names_kept p (m ∷ nodes) zero n n' at e (one, d) =
    let same : m ≡ n = cc in (rw (e, ← same) one, d)
set_names_kept p (m ∷ nodes) (suc k) n n' at e (one, d) =
    (one, set_names_kept p nodes k n n' at e d)

pub set-IsNamed :
    (nodes : List Node) (k : ℕ) (n n' : Node)
    → get_elem? nodes k ≡ some n
    → n'.name ≡ n.name
    → IsNamed nodes
    → IsNamed (set nodes k n')
set-IsNamed [] k n n' at e d = tt
set-IsNamed (m ∷ nodes) zero n n' at e (apart, d) =
    let same : m ≡ n = cc in (rw (e, ← same) apart, d)
set-IsNamed (m ∷ nodes) (suc k) n n' at e (apart, d) =
    (set_names_kept m.name nodes k n n' at e apart, set-IsNamed nodes k n n' at e d)
