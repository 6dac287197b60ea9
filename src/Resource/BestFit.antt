-- ===== src/Resource/BestFit.antt =====
-- FindFit: the chosen node fits, leaves the least slack, and is the first of those.
use job_scheduler_tooling.Prelude.{
  ℕ, zero, suc, ap, ◌∙◌, ◌+◌, ◌<◌, ◌≡◌, refl, ◌⊎◌, inl, inr, true, false, List, [], ◌∷◌, Option,
  none, some, arith, get_elem?, Bool-cases,
}
use job_scheduler_tooling.Prelude.Int.{ℤ, negsuc, ◌≤ℤ◌, ◌<ℤ◌, ltb_ℤ}
use job_scheduler_tooling.Resource.{Requirements, Node, fits, slack, find_fit_from, find_fit}

module _ (req : Requirements) where
  -- Every node that fits leaves at least the slack `s`.
  abbrev pub NoneBelow : ℤ → List Node → Type 0
  NoneBelow s nodes =
      (j : ℕ) (m : Node) → get_elem? nodes j ≡ some m → fits m req ≡ true → s ≤ℤ slack m req

  -- Of the nodes that fit, `node` at index `k` leaves the least slack, and is the first such.
  pub record IsBest (nodes : List Node) (k : ℕ) (node : Node) : Type 0 where
    pub here : get_elem? nodes k ≡ some node
    pub fit : fits node req ≡ true
    pub least : NoneBelow (slack node req) nodes
    pub first :
        (j : ℕ) (m : Node)
        → j < k
        → get_elem? nodes j ≡ some m
        → fits m req ≡ true
        → slack node req <ℤ slack m req

  abbrev pub NoneFits : List Node → Type 0
  NoneFits nodes = (j : ℕ) (m : Node) → get_elem? nodes j ≡ some m → fits m req ≡ false

  NoneBelow-cons :
      (s : ℤ) (n : Node) (nodes : List Node)
      → (fits n req ≡ true → s ≤ℤ slack n req)
      → NoneBelow s nodes
      → NoneBelow s (n ∷ nodes)
  NoneBelow-cons s n nodes h t zero m e f = let same : n ≡ m = cc in rw (← same) (h (rw same f))
  NoneBelow-cons s n nodes h t (suc j) m e f = t j m e f

  NoneFits-cons :
      (n : Node) (nodes : List Node) → fits n req ≡ false → NoneFits nodes → NoneFits (n ∷ nodes)
  NoneFits-cons n nodes h t zero m e = ground arith
  NoneFits-cons n nodes h t (suc j) m e = t j m e

  IsBest-later :
      (n : Node) (nodes : List Node) (k : ℕ) (b : Node)
      → IsBest nodes k b
      → (fits n req ≡ true → slack b req <ℤ slack n req)
      → IsBest (n ∷ nodes) (suc k) b
  IsBest-later n nodes k b v h = record {
    here = v.here;
    fit = v.fit;
    least = NoneBelow-cons (slack b req) n nodes (λ f. omega (arith, h f)) v.least;
    first = first;
  }
    where
      first :
          (j : ℕ) (m : Node)
          → j < suc k
          → get_elem? (n ∷ nodes) j ≡ some m
          → fits m req ≡ true
          → slack b req <ℤ slack m req
      first zero m lt e f = let same : n ≡ m = cc in rw (← same) (h (rw same f))
      first (suc j) m lt e f = v.first j m (omega arith) e f

  IsBest-now :
      (n : Node) (nodes : List Node)
      → fits n req ≡ true
      → NoneBelow (slack n req) nodes
      → IsBest (n ∷ nodes) 0 n
  IsBest-now n nodes f t = record {
    here = refl;
    fit = f;
    least = NoneBelow-cons (slack n req) n nodes (λ _. omega arith) t;
    first = λ j m lt. absurd (omega arith);
  }

  -- The loop with a candidate `b` of slack `s`: it keeps `b`, or finds a node of less slack.
  abbrev Kept : ℤ → List Node → ℕ → ℕ → Option ℕ → Type 0
  Kept s nodes i b r =
      ((r ≡ some b) × NoneBelow s nodes)
      ⊎ ((k : ℕ) × (m : Node) × (r ≡ some (i + k)) × IsBest nodes k m × (slack m req <ℤ s))

  Kept-skip :
      (s : ℤ) (n : Node) (nodes : List Node) (i b : ℕ) (r : Option ℕ)
      → (fits n req ≡ true → s ≤ℤ slack n req)
      → Kept s nodes (suc i) b r
      → Kept s (n ∷ nodes) i b r
  Kept-skip s n nodes i b r h (inl (e, t)) = inl (e, NoneBelow-cons s n nodes h t)
  Kept-skip s n nodes i b r h (inr (k, m, e, best, lt)) = inr (
    suc k,
    m,
    e ∙ ap some (omega arith),
    IsBest-later n nodes k m best (λ f. omega (arith, h f)),
    lt,
  )

  -- What the loop leaves when the head node is the new candidate.
  Taken : (n : Node) (nodes : List Node) → ℕ → Option ℕ → Type 0
  Taken n nodes i r =
      (k : ℕ) × (m : Node) × (r ≡ some (i + k))
      × IsBest (n ∷ nodes) k m
      × (slack m req ≤ℤ slack n req)

  Kept-take :
      (n : Node) (nodes : List Node) (i : ℕ) (r : Option ℕ)
      → fits n req ≡ true
      → Kept (slack n req) nodes (suc i) i r
      → Taken n nodes i r
  unfolding Taken
  Kept-take n nodes i r f (inl (e, t)) =
      (0, n, e ∙ ap some (omega arith), IsBest-now n nodes f t, omega arith)
  Kept-take n nodes i r f (inr (k, m, e, best, lt)) =
      (suc k, m, e ∙ ap some (omega arith), IsBest-later n nodes k m best (λ _. lt), omega arith)

  Kept-of-Taken :
      (s : ℤ) (n : Node) (nodes : List Node) (i b : ℕ) (r : Option ℕ)
      → slack n req <ℤ s
      → Taken n nodes i r
      → Kept s (n ∷ nodes) i b r
  unfolding Taken
  Kept-of-Taken s n nodes i b r h (k, m, e, best, le) = inr (k, m, e, best, omega arith)

  find_fit_from-Kept :
      (nodes : List Node) (i b : ℕ) (s : ℤ)
      → Kept s nodes i b (find_fit_from req nodes i (some b) s)
  unfolding find_fit_from
  find_fit_from-Kept [] i b s = inl (refl, λ j m e f. cc)
  find_fit_from-Kept (n ∷ nodes) i b s = elim (Bool-cases (fits n req)) [
    | inl fit ↦ elim (Bool-cases (ltb_ℤ (slack n req) s)) [
      | inl less ↦
          rw (fit, less)
            (Kept-of-Taken s n nodes i b _ (ground arith)
              (Kept-take n nodes i _ fit (find_fit_from-Kept nodes (suc i) i (slack n req))))
      | inr more ↦
          rw (fit, more)
            (Kept-skip s n nodes i b _ (λ f. ground arith) (find_fit_from-Kept nodes (suc i) b s))
    ]
    | inr no_fit ↦
        rw no_fit (Kept-skip s n nodes i b _ (λ f. cc) (find_fit_from-Kept nodes (suc i) b s))
  ]

  -- The two outcomes of the search that starts with no candidate.
  abbrev pub Outcome : List Node → ℕ → Option ℕ → Type 0
  Outcome nodes i r =
      ((r ≡ none) × NoneFits nodes) ⊎ ((k : ℕ) × (m : Node) × (r ≡ some (i + k)) × IsBest nodes k m)

  Outcome-skip :
      (n : Node) (nodes : List Node) (i : ℕ) (r : Option ℕ)
      → fits n req ≡ false
      → Outcome nodes (suc i) r
      → Outcome (n ∷ nodes) i r
  Outcome-skip n nodes i r h (inl (e, t)) = inl (e, NoneFits-cons n nodes h t)
  Outcome-skip n nodes i r h (inr (k, m, e, best)) =
      inr (suc k, m, e ∙ ap some (omega arith), IsBest-later n nodes k m best (λ f. cc))

  Outcome-of-Taken :
      (n : Node) (nodes : List Node) (i : ℕ) (r : Option ℕ)
      → Taken n nodes i r
      → Outcome (n ∷ nodes) i r
  unfolding Taken
  Outcome-of-Taken n nodes i r (k, m, e, best, le) = inr (k, m, e, best)

  find_fit_from-Outcome :
      (nodes : List Node) (i : ℕ) (s : ℤ) → Outcome nodes i (find_fit_from req nodes i none s)
  unfolding find_fit_from
  find_fit_from-Outcome [] i s = inl (refl, λ j m e. cc)
  find_fit_from-Outcome (n ∷ nodes) i s = elim (Bool-cases (fits n req)) [
    | inl fit ↦ rw fit (
        Outcome-of-Taken n nodes i _
          (Kept-take n nodes i _ fit (find_fit_from-Kept nodes (suc i) i (slack n req))))
    | inr no_fit ↦
        rw no_fit (Outcome-skip n nodes i _ no_fit (find_fit_from-Outcome nodes (suc i) s))
  ]

-- FindFit returns no node exactly when no node of the pool has room for the request, and
-- otherwise the first of the nodes with room that leave the fewest cores free.
pub find_fit-Outcome :
    (nodes : List Node) (req : Requirements) → Outcome req nodes 0 (find_fit nodes req)
unfolding find_fit
find_fit-Outcome nodes req = find_fit_from-Outcome req nodes 0 (negsuc 0)
