-- ===== src/Dispatch/Guard.antt =====
-- What Broker.Report and SQSCoordinator.Report do with an agent's answer before they act on it
-- (internal/dispatch/broker.go and sqs.go).
use job_scheduler_tooling.Prelude.{
  ◌≡◌, refl, String, ◌+++◌, not, ◌&&◌, Option, none, some, str_eq, eq_iff, if◌then◌else◌,
  Bool-cases, inl, inr,
}
use job_scheduler_tooling.Prelude.Int.{ℤ, leb_ℤ, leℤ→leb}
use job_scheduler_tooling.Triage.{Decision, Answer, Failure, decision, escalate, validate}
use job_scheduler_tooling.Triage.Agents.{IsAdmissible}

-- `if err != nil { decision = escalate }`
unfoldable pub on_error : Answer → Decision
on_error (Answer.ok d) = d
on_error (Answer.err e) = decision escalate ("triage agent failed: " +++ e) "safety_fallback"

-- `if err := decision.Validate(); err != nil { decision = escalate }`
unfoldable pub on_invalid : Decision → Option String → Decision
on_invalid d none = d
on_invalid d (some e) = decision escalate ("invalid triage decision: " +++ e) "safety_fallback"

-- The guardrail on the retry budget.
unfoldable pub on_exhausted : ℤ → ℤ → Decision → Decision
on_exhausted attempt max_attempts d =
    if leb_ℤ max_attempts attempt && not (str_eq d.action escalate)
    then decision escalate "retry budget exhausted" "coordinator_guardrail"
    else d

unfoldable pub guarded : ℤ → ℤ → Answer → Decision
unfolding on_error on_exhausted
guarded attempt max_attempts answer =
    let d = on_error answer in on_exhausted attempt max_attempts (on_invalid d (validate d))

on_invalid-valid :
    (d : Decision) (v : Option String) → validate d ≡ v → validate (on_invalid d v) ≡ none
unfolding on_invalid
on_invalid-valid d none h = h
on_invalid-valid d (some e) h = escalate_valid _ "safety_fallback"
  where
    escalate_valid : (r s : String) → validate (decision escalate r s) ≡ none
    escalate_valid r s = unfold validate in refl

on_exhausted-IsAdmissible :
    (f : Failure) (d : Decision)
    → validate d ≡ none
    → IsAdmissible f (on_exhausted f.attempt f.max_attempts d)
unfolding on_exhausted validate
on_exhausted-IsAdmissible f d h = elim (Bool-cases (leb_ℤ f.max_attempts f.attempt)) [
  | inl over ↦ elim (Bool-cases (str_eq d.action escalate)) [
    | inl same ↦ rw (over, same) (record { valid = h; budget = λ _. (eq_iff _ _).0 same })
    | inr other ↦ rw (over, other) (record { valid = refl; budget = λ _. refl })
  ]
  | inr within ↦
      rw within (record { valid = h; budget = λ k. cc (leℤ→leb f.max_attempts f.attempt k) })
]

-- Whatever the agent answers, the coordinators act on a decision that passes Validate and that
-- escalates when the attempts are used up.
pub guarded-IsAdmissible :
    (f : Failure) (answer : Answer) → IsAdmissible f (guarded f.attempt f.max_attempts answer)
unfolding guarded
guarded-IsAdmissible f answer =
    on_exhausted-IsAdmissible f _ (on_invalid-valid (on_error answer) _ refl)
