-- ===== src/Tracer/Ids.antt =====
-- Lists of IDs, and the keys of the maps that cmd/tracer/main.go fills.
use job_scheduler_tooling.Prelude.{
  ℕ, ◌+◌, ◌≡◌, refl, String, Bool, List, [], ◌∷◌, ◌++◌, Option, none, some, arith, str_eq, eq_iff,
  eq_refl, if◌then◌else◌, All,
}
use job_scheduler_tooling.Prelude.Dict.{Dict, lookup, insert, IsUnique}

-- How often an ID stands in a list.
abbrev pub count : String → List String → ℕ
count id [] = 0
count id (j ∷ js) = (if str_eq j id then 1 else 0) + count id js

-- The list has each of these IDs once, and no other.
abbrev pub ListsOnce : (String → Bool) → List String → Type 0
ListsOnce test ids = (id : String) → count id ids ≡ (if test id then 1 else 0)

pub count-append :
    (id : String) (xs ys : List String) → count id (xs ++ ys) ≡ count id xs + count id ys
count-append id [] ys = omega arith
count-append id (x ∷ xs) ys = omega (arith, count-append id xs ys)

abbrev pub one_if_some {ℓ} : {V : Type ℓ} → Option V → ℕ
one_if_some none = 0
one_if_some (some _) = 1

module _ {ℓ} {V : Type ℓ} where
  abbrev pub keys : Dict V → List String
  keys [] = []
  keys ((k, v) ∷ m) = k ∷ keys m

  pub count-keys_insert :
      (id k : String) (v : V) (m : Dict V)
      → count id (keys (insert k v m)) + (if str_eq k id then one_if_some (lookup k m) else 0)
        ≡ count id (keys m) + (if str_eq k id then 1 else 0)
  unfolding insert lookup
  count-keys_insert id k v [] = ground arith
  count-keys_insert id k v ((j, w) ∷ m) = ground (arith, count-keys_insert id k v m, eq_iff j k)

  -- What holds of every entry that can be looked up holds of all of a map.
  pub looked_up-All {κ} :
      (P : String → V → Type κ) (m : Dict V)
      → IsUnique m
      → ((id : String) (v : V) → lookup id m ≡ some v → P id v)
      → All (λ x. P x.0 x.1) m
  unfolding lookup IsUnique
  looked_up-All P [] u h = tt
  looked_up-All P ((k, v) ∷ m) (new, u) h = (
    h k v (rw (eq_refl k) refl),
    looked_up-All P m u (λ id w found. h id w (ground (arith, found, eq_iff k id, new))),
  )
