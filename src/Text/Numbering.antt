-- ===== src/Text/Numbering.antt =====
-- Jobs whose IDs are made of a prefix and their numbers, as cmd/dispatcher and cmd/scheduler make them.
use job_scheduler_tooling.Prelude.{
  ℕ, ◌+◌, ◌≤◌, ◌<◌, ◌≡◌, refl, sym, ◌∙◌, String, List, [], ◌∷◌, arith, str_eq, eq_iff, Bool-cases,
  inl, inr,
}
use job_scheduler_tooling.Text.Decimal.{numbered, numbered-injective}
use job_scheduler_tooling.Queue.{Job}
use job_scheduler_tooling.Dispatch.Broker.Weight.{total, has_id}

-- The IDs count up from a number.
abbrev pub IsCounted : String → ℕ → List Job → Type 0
IsCounted prefix i [] = Unit
IsCounted prefix i (j ∷ jobs) = (j.id ≡ numbered prefix i) × IsCounted prefix (i + 1) jobs

-- An earlier number is not there.
earlier_absent :
    (prefix : String) (k i : ℕ) (jobs : List Job)
    → IsCounted prefix i jobs
    → k < i
    → total (has_id (numbered prefix k)) jobs ≡ 0
unfolding total
earlier_absent prefix k i [] c lt = refl
earlier_absent prefix k i (j ∷ jobs) (id, more) lt =
    let rest = earlier_absent prefix k (i + 1) jobs more (omega (arith, lt)) in
    elim (Bool-cases (str_eq j.id (numbered prefix k))) [
      | inl same ↦
          let number : i ≡ k =
            numbered-injective prefix i k (sym id ∙ (eq_iff j.id (numbered prefix k)).0 same) in
          absurd (omega (arith, number, lt))
      | inr other ↦ rw other (omega (arith, rest))
    ]

-- No two of the jobs share an ID.
pub IsCounted-once :
    (prefix : String) (i : ℕ) (jobs : List Job)
    → IsCounted prefix i jobs
    → (id : String) → total (has_id id) jobs ≤ 1
unfolding total
IsCounted-once prefix i [] c id = omega arith
IsCounted-once prefix i (j ∷ jobs) (number, more) id = elim (Bool-cases (str_eq j.id id)) [
  | inl same ↦
      let e : numbered prefix i ≡ id = sym number ∙ (eq_iff j.id id).0 same in
      let absent = earlier_absent prefix i (i + 1) jobs more (omega arith) in
      rw same (omega (arith, rw e at absent))
  | inr other ↦ rw other (omega (arith, IsCounted-once prefix (i + 1) jobs more id))
]
