-- ===== src/Dispatch/Broker/Weight.antt =====
-- Sums over the jobs of a list, which do not depend on their order.
use mathlib.Core.Logic.{∥∥₁_elim}
use mathlib.Core.List.{Permᴰ}
use native.Mathlib.Nat.{ℕ_set}
use job_scheduler_tooling.Prelude.{
  Bool-cases, inl, inr, ℕ, ◌+◌, ◌≡◌, refl, ap, sym, ◌∙◌, String, List, [], ◌∷◌, ◌++◌, map, some,
  none, arith, str_eq, eq_iff, if◌then◌else◌, length, All,
}
use job_scheduler_tooling.Prelude.Dict.{Dict, lookup, insert, erase}
use job_scheduler_tooling.Queue.{Job}
use job_scheduler_tooling.Queue.Swap.{plain, SameJobs}

unfoldable pub total : (Job → ℕ) → List Job → ℕ
total f [] = 0
total f (j ∷ l) = f j + total f l

abbrev pub values : Dict Job → List Job
values [] = []
values ((k, j) ∷ m) = j ∷ values m

module _ (f : Job → ℕ) where
  total-map-plain :
      (l : List Job) → ((j : Job) → f (plain j) ≡ f j) → total f (map plain l) ≡ total f l
  unfolding total
  total-map-plain [] h = refl
  total-map-plain (j ∷ l) h = omega (arith, h j, total-map-plain l h)

  total-Permᴰ : {a b : List Job} → Permᴰ a b → total f a ≡ total f b
  unfolding total
  total-Permᴰ Permᴰ.nil = refl
  total-Permᴰ (Permᴰ.cons x p) = omega (arith, ap f x, total-Permᴰ p)
  total-Permᴰ (Permᴰ.swap x y) = omega (arith, ap f x, ap f y)
  total-Permᴰ (Permᴰ.trans p q) = total-Permᴰ p ∙ total-Permᴰ q

  -- A sum that does not read the positions is the same for the same jobs.
  pub total-SameJobs :
      (a b : List Job) → ((j : Job) → f (plain j) ≡ f j) → SameJobs a b → total f a ≡ total f b
  total-SameJobs a b h p =
      sym (total-map-plain a h) ∙ (∥∥₁_elim p (ℕ_set _ _) total-Permᴰ ∙ total-map-plain b h)

  pub total-append : (a b : List Job) → total f (a ++ b) ≡ total f a + total f b
  unfolding total
  total-append [] b = omega arith
  total-append (j ∷ a) b = omega (arith, total-append a b)

  pub total-insert :
      (k : String) (j : Job) (m : Dict Job)
      → lookup k m ≡ none
      → total f (values (insert k j m)) ≡ f j + total f (values m)
  unfolding total lookup insert
  total-insert k j [] h = refl
  total-insert k j ((i, x) ∷ m) h = ground (arith, total-insert k j m)

  pub total-erase :
      (k : String) (j : Job) (m : Dict Job)
      → lookup k m ≡ some j
      → total f (values m) ≡ f j + total f (values (erase k m))
  unfolding total lookup erase
  total-erase k j [] h = cc
  total-erase k j ((i, x) ∷ m) h = ground (arith, total-erase k j m)

-- One for the jobs of this ID.
abbrev pub has_id : String → Job → ℕ
has_id k j = if str_eq j.id k then 1 else 0

-- Each job stands under its ID.
abbrev pub IsKeyed : Dict Job → Type 0
IsKeyed = All (λ (k, j). j.id ≡ k)

pub IsKeyed-lookup :
    (k : String) (j : Job) (m : Dict Job) → IsKeyed m → lookup k m ≡ some j → j.id ≡ k
unfolding lookup
IsKeyed-lookup k j [] v h = cc
IsKeyed-lookup k j ((i, x) ∷ m) v h = ground (arith, eq_iff i k, v.0, IsKeyed-lookup k j m v.1)

pub insert-IsKeyed :
    (k : String) (j : Job) (m : Dict Job) → IsKeyed m → j.id ≡ k → IsKeyed (insert k j m)
unfolding insert
insert-IsKeyed k j [] v h = (h, tt)
insert-IsKeyed k j ((i, x) ∷ m) v h = elim (Bool-cases (str_eq i k)) [
  | inl same ↦ rw same (h, v.1)
  | inr other ↦ rw other (v.0, insert-IsKeyed k j m v.1 h)
]

pub erase-IsKeyed : (k : String) (m : Dict Job) → IsKeyed m → IsKeyed (erase k m)
unfolding erase
erase-IsKeyed k [] v = tt
erase-IsKeyed k ((i, x) ∷ m) v = elim (Bool-cases (str_eq i k)) [
  | inl same ↦ rw same v.1
  | inr other ↦ rw other (v.0, erase-IsKeyed k m v.1)
]

-- An ID with no copy among the running jobs is not a key.
pub lookup_of_total :
    (k : String) (m : Dict Job) → IsKeyed m → total (has_id k) (values m) ≡ 0 → lookup k m ≡ none
unfolding total lookup
lookup_of_total k [] v h = refl
lookup_of_total k ((i, x) ∷ m) v h = elim (Bool-cases (str_eq i k)) [
  | inl same ↦ absurd (ground (arith, v.0))
  | inr other ↦ rw other (lookup_of_total k m v.1 (omega arith))
]

pub total-length : (l : List Job) → total (λ _. 1) l ≡ length l
unfolding total
total-length [] = refl
total-length (j ∷ l) = omega (arith, total-length l)
