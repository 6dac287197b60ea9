-- ===== src/Prelude/Dict/Keys.antt =====
-- The keys of maps: a map as large as one whose keys include its own has them all.
use Prim.Native.Nat.{◌+◌, ◌≤◌}
use Prim.Native.String.{String}
use mathlib.Core.Path.{◌≡◌, subst, ◌∙◌}
use mathlib.Core.Logic.{inl, inr}
use mathlib.Core.Bool.{false}
use mathlib.Core.Option.{none, some}
use mathlib.Core.List.{[], ◌∷◌}
use native.Mathlib.Omega.{arith}
use text.Mathlib.Text.{◌==◌ as str_eq}
use text.Mathlib.TextEquality.{eq_iff}
use text.Mathlib.TextPositions.{eq_refl}
use job_scheduler_tooling.Prelude.Tests.{Bool-cases, Option-cases}
use job_scheduler_tooling.Prelude.Lists.{length}
use job_scheduler_tooling.Prelude.Dict.{
  Dict, lookup, insert, erase, IsUnique, lookup-insert, length-insert_new, length-insert_old,
  length-erase, lookup-erase_ne,
}

module _ {ℓ} {V : Type ℓ} where
  abbrev pub Has : Dict V → String → Type ℓ
  Has m k = (v : V) × (lookup k m ≡ some v)

  pub lookup-insert_other :
      (k j : String) (v : V) (m : Dict V)
      → str_eq k j ≡ false
      → lookup j (insert k v m) ≡ lookup j m
  lookup-insert_other k j v m h = ground (arith, lookup-insert k j v m, h)

  pub insert-Has : (k j : String) (v : V) (m : Dict V) → Has m j → Has (insert k v m) j
  insert-Has k j v m (w, h) = elim (Bool-cases (str_eq k j)) [
    | inl e ↦ (v, ground (arith, lookup-insert k j v m, e))
    | inr e ↦ (w, lookup-insert_other k j v m e ∙ h)
  ]

  pub length-insert_le : (k : String) (v : V) (m : Dict V) → length (insert k v m) ≤ length m + 1
  length-insert_le k v m = elim (Option-cases (lookup k m)) [
    | inl new ↦ omega (arith, length-insert_new k v m new)
    | inr (w, old) ↦ omega (arith, length-insert_old k v w m old)
  ]

  erase-Has : (k j : String) (m : Dict V) → str_eq k j ≡ false → Has m j → Has (erase k m) j
  erase-Has k j m ne (v, h) = (v, lookup-erase_ne k j m (λ e. cc ((eq_iff k j).1 e)) ∙ h)

  nothing-Has : (m : Dict V) (k : String) → length m ≤ 0 → ¬ (Has m k)
  unfolding lookup
  nothing-Has [] k small (v, h) = cc
  nothing-Has ((j, w) ∷ m) k small h = absurd (omega (arith, small))

module _ {ℓ κ} {V : Type ℓ} {W : Type κ} where
  -- The keys of the rest are not the first.
  rest-Has :
      (k : String) (v : V) (m : Dict V) (n : Dict W)
      → lookup k m ≡ none
      → ((j : String) → Has ((k, v) ∷ m) j → Has n j)
      → (j : String) → Has m j
      → Has (erase k n) j
  unfolding lookup
  rest-Has k v m n new sub j (w, h) = elim (Bool-cases (str_eq k j)) [
    | inl e ↦ cc (subst (λ i. lookup i m ≡ none) ((eq_iff k j).0 e) new)
    | inr e ↦ erase-Has k j n e (sub j (w, ground (arith, e, h)))
  ]

  pub keys-full :
      (m : Dict V) (n : Dict W)
      → IsUnique m
      → ((j : String) → Has m j → Has n j)
      → length n ≤ length m
      → (j : String) → Has n j
      → Has m j
  unfolding lookup IsUnique
  keys-full [] n u sub le j h = absurd (nothing-Has n j le h)
  keys-full ((k, v) ∷ m) n u sub le j h = elim (Bool-cases (str_eq k j)) [
    | inl e ↦ (v, ground (arith, e))
    | inr e ↦
        let (w, first) = sub k (v, ground (arith, eq_refl k)) in
        let (x, found) =
          keys-full m (erase k n) u.1 (rest-Has k v m n u.0 sub)
            (omega (arith, le, length-erase k w n first)) j (erase-Has k j n e h) in
        (x, ground (arith, e, found))
  ]
