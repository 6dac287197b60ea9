-- ===== src/Triage/Policy.antt =====
-- PolicyAgent: which decision it takes on which failure, and that its decisions are valid.
use job_scheduler_tooling.Prelude.{
  ℕ, ◌≡◌, refl, ◌⊎◌, inl, inr, Bool, true, false, List, String, none, arith, Bool-cases, ◌||◌, ◌≢◌,
  eq_iff,
}
use job_scheduler_tooling.Prelude.Int.{leℤ→leb, ltℤ→not_leb, ℤ, pos, negsuc, ◌≤ℤ◌, ◌<ℤ◌}
use job_scheduler_tooling.Text.{codes, to_lower, contains, contains_iff, OccursIn}
use job_scheduler_tooling.Inference.{Batch}
use job_scheduler_tooling.Inference
use job_scheduler_tooling.Triage.{
  Failure, Decision, retry, auto_adjust, escalate, validate, choose, policy, adjust, halved_size,
}

-- The error text, in lower case, mentions the word.
abbrev pub Mentions : String → Failure → Type 0
Mentions word f = OccursIn (codes word) (to_lower (codes f.error))

abbrev pub IsMemory : Failure → Type 0
IsMemory f = Mentions "out of memory" f ⊎ Mentions "oom" f

abbrev pub IsCorrupt : Failure → Type 0
IsCorrupt f = Mentions "corrupt" f ⊎ Mentions "invalid input" f

mentions_or :
    (s t u : List ℕ)
    → (OccursIn t s ⊎ OccursIn u s → (contains s t || contains s u) ≡ true)
      × ((contains s t || contains s u) ≡ true → OccursIn t s ⊎ OccursIn u s)
mentions_or s t u = (to, from)
  where
    to : OccursIn t s ⊎ OccursIn u s → (contains s t || contains s u) ≡ true
    to (inl o) = ground (arith, (contains_iff s t).1 o)
    to (inr o) = ground (arith, (contains_iff s u).1 o)

    from : (contains s t || contains s u) ≡ true → OccursIn t s ⊎ OccursIn u s
    from h = elim (Bool-cases (contains s t)) [
      | inl e ↦ inl ((contains_iff s t).0 e)
      | inr e ↦ inr ((contains_iff s u).0 (ground arith))
    ]

-- Which action is taken: the budget first, then the memory errors, then the input errors.
pub record Triaged (f : Failure) (d : Decision) : Type 0 where
  pub exhausted : f.max_attempts ≤ℤ f.attempt → d.action ≡ escalate
  pub memory : f.attempt <ℤ f.max_attempts → IsMemory f → d.action ≡ auto_adjust
  pub corrupt : f.attempt <ℤ f.max_attempts → ¬ IsMemory f → IsCorrupt f → d.action ≡ escalate
  pub transient : f.attempt <ℤ f.max_attempts → ¬ IsMemory f → ¬ IsCorrupt f → d.action ≡ retry

module _ (f : Failure) where
  abbrev text : List ℕ
  text = to_lower (codes f.error)

  test_true :
      (t u : List ℕ)
      → OccursIn t text ⊎ OccursIn u text
      → (contains text t || contains text u) ≡ true
  test_true t u h = (mentions_or text t u).0 h

  test_false :
      (t u : List ℕ)
      → ¬ (OccursIn t text ⊎ OccursIn u text)
      → (contains text t || contains text u) ≡ false
  test_false t u h = elim (Bool-cases (contains text t || contains text u)) [
    | inl e ↦ absurd (h ((mentions_or text t u).1 e))
    | inr e ↦ e
  ]

  -- The policy's decision is the one that the failure's budget and error text call for.
  pub policy-Triaged : Triaged f (policy f)
  unfolding policy
  policy-Triaged =
      let within = λ (h : f.attempt <ℤ f.max_attempts). ltℤ→not_leb f.attempt f.max_attempts h in
      record {
        exhausted = λ h. rw (leℤ→leb f.max_attempts f.attempt h);
        memory = λ h m. rw (within h, test_true (codes "out of memory") (codes "oom") m);
        corrupt = λ h m c. rw (
          within h,
          test_false (codes "out of memory") (codes "oom") m,
          test_true (codes "corrupt") (codes "invalid input") c,
        );
        transient = λ h m c. rw (
          within h,
          test_false (codes "out of memory") (codes "oom") m,
          test_false (codes "corrupt") (codes "invalid input") c,
        );
      }

validate-choose : (e m c : Bool) (size : ℤ) → validate (choose e m c size) ≡ none
unfolding validate choose
validate-choose true m c size = refl
validate-choose false true c size = ground arith
validate-choose false false true size = refl
validate-choose false false false size = refl

-- Every decision of the policy passes Validate.
pub validate-policy : (f : Failure) → validate (policy f) ≡ none
unfolding policy
validate-policy f = validate-choose _ _ _ _

halved_size_bounds : (b : ℤ) → pos 1 ≤ℤ b → (pos 1 ≤ℤ halved_size b) × (halved_size b ≤ℤ b)
unfolding halved_size
halved_size_bounds (pos n) h = ground arith
halved_size_bounds (negsuc n) h = absurd (omega arith)

choose-adjust_shrinks :
    (e m c : Bool) (b : Batch)
    → Inference.validate b ≡ none
    → (choose e m c b.batch_size).action ≡ auto_adjust
    → (Inference.validate (adjust b (choose e m c b.batch_size)) ≡ none)
      × ((adjust b (choose e m c b.batch_size)).batch_size ≤ℤ b.batch_size)
unfolding choose adjust
choose-adjust_shrinks true m c b h a = absurd (ne a)
  where
    ne : ◌≢◌ {A = String} escalate auto_adjust
    ne = ground (arith, eq_iff escalate auto_adjust)
choose-adjust_shrinks false true c b h a =
    let (lo, hi) = Inference.validate_range b h in
    let (lo', hi') = halved_size_bounds b.batch_size lo in
    (Inference.validate_resized b _ _ h lo' (omega arith) refl, hi')
choose-adjust_shrinks false false true b h a = ground (arith, eq_iff escalate auto_adjust)
choose-adjust_shrinks false false false b h a = ground (arith, eq_iff retry auto_adjust)

-- When the policy adjusts a valid batch, the adjusted batch is valid and no larger.
policy-adjust_shrinks :
    (f : Failure)
    → Inference.validate f.batch ≡ none
    → (policy f).action ≡ auto_adjust
    → (Inference.validate (adjust f.batch (policy f)) ≡ none)
      × ((adjust f.batch (policy f)).batch_size ≤ℤ f.batch.batch_size)
unfolding policy
policy-adjust_shrinks f h a = choose-adjust_shrinks _ _ _ f.batch h a
