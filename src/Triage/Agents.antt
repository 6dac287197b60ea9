-- ===== src/Triage/Agents.antt =====
-- The agents that buildAgent makes: whatever the model's endpoint does, their decisions are valid
-- and keep to the retry budget, and with the policy as fallback there always is one.
use job_scheduler_tooling.Prelude.{
  ◌≡◌, refl, inl, inr, Bool, true, false, String, Option, none, some, Bool-cases, eq_iff,
  if◌then◌else◌, str_eq, ◌/◌, ◌==◌, ◌||◌,
}
use job_scheduler_tooling.Prelude.Int.{◌≤ℤ◌, leb_ℤ, leℤ→leb}
use job_scheduler_tooling.Triage.{
  Failure, Decision, Answer, Agent, Exchange, Chat, LlmAgent, escalate, validate, policy,
  policy_agent, llm_check, llm_accept, llm_read_chat, llm_read, llm_agent, fallback_agent,
  build_agent,
}
use job_scheduler_tooling.Triage.Policy.{policy-Triaged, validate-policy}

-- The decision passes Validate, and escalates once the attempts are used up.
pub record IsAdmissible (f : Failure) (d : Decision) : Type 0 where
  pub valid : validate d ≡ none
  pub budget : f.max_attempts ≤ℤ f.attempt → d.action ≡ escalate

-- The answer is an error, or an admissible decision.
abbrev pub Answers : Failure → Answer → Type 0
Answers f (Answer.ok d) = IsAdmissible f d
Answers f (Answer.err e) = Unit

policy-IsAdmissible : (f : Failure) → IsAdmissible f (policy f)
policy-IsAdmissible f = record { valid = validate-policy f; budget = (policy-Triaged f).exhausted }

llm_check-Answers :
    (f : Failure) (d : Decision) (v : Option String) → validate d ≡ v → Answers f (llm_check f d v)
unfolding llm_check
llm_check-Answers f d (some e) h = tt
llm_check-Answers f d none h = elim (Bool-cases (leb_ℤ f.max_attempts f.attempt)) [
  | inl over ↦ elim (Bool-cases (str_eq d.action escalate)) [
    | inl same ↦ rw (over, same) (record { valid = h; budget = λ _. (eq_iff _ _).0 same })
    | inr other ↦ rw (over, other) tt
  ]
  | inr within ↦
      rw within (record { valid = h; budget = λ k. cc (leℤ→leb f.max_attempts f.attempt k) })
]

llm_accept-Answers : (f : Failure) (d : Decision) → Answers f (llm_accept f d)
unfolding llm_accept
llm_accept-Answers f d = llm_check-Answers f _ _ refl

llm_read_chat-Answers : (f : Failure) (c : Chat) → Answers f (llm_read_chat f c)
unfolding llm_read_chat
llm_read_chat-Answers f (Chat.undecodable e) = tt
llm_read_chat-Answers f Chat.no_choices = tt
llm_read_chat-Answers f (Chat.bad_content e) = tt
llm_read_chat-Answers f (Chat.content d) = llm_accept-Answers f d

llm_read-Answers : (f : Failure) (x : Exchange) → Answers f (llm_read f x)
unfolding llm_read
llm_read-Answers f (Exchange.no_request e) = tt
llm_read-Answers f (Exchange.no_response e) = tt
llm_read-Answers f (Exchange.response code status body chat) = elim (Bool-cases (code / 100 == 2)) [
  | inl two ↦ rw two (llm_read_chat-Answers f chat)
  | inr other ↦ rw other tt
]

-- Whatever the endpoint sends back, the model-backed agent answers with an error or with a decision
-- that passes Validate and that escalates when the attempts are used up.
pub llm_agent-Answers : (a : LlmAgent) (f : Failure) → Answers f (llm_agent a f)
unfolding llm_agent
llm_agent-Answers a f = elim (Bool-cases (str_eq a.url "" || str_eq a.model "")) [
  | inl missing ↦ rw missing tt
  | inr given ↦ rw given (llm_read-Answers f (a.exchange f))
]

-- The answer is a decision, and it is admissible.
abbrev pub Decides : Failure → Answer → Type 0
Decides f r = (d : Decision) × (r ≡ Answer.ok d) × IsAdmissible f d

-- Validate reads neither the source nor the reason.
relabelled :
    (f : Failure) (d : Decision) (source reason : String)
    → IsAdmissible f d
    → IsAdmissible f (record d { source = source; reason = reason })
unfolding validate
relabelled f d source reason h = record { valid = h.valid; budget = h.budget }

fallback_agent-Decides :
    (primary : Agent) (f : Failure) (r : Answer)
    → primary f ≡ r
    → Answers f r
    → Decides f (fallback_agent primary policy_agent f)
unfolding fallback_agent policy_agent
fallback_agent-Decides primary f (Answer.ok d) e h = rw (e, fallback_agent) (d, refl, h)
fallback_agent-Decides primary f (Answer.err x) e h =
    rw (e, fallback_agent) (_, refl, relabelled f _ _ _ (policy-IsAdmissible f))

Decides-same : (f : Failure) (x a : Agent) → Decides f (x f) → some x ≡ some a → Decides f (a f)
Decides-same f x a d e = let same : x ≡ a = cc in rw (← same) d

-- What buildAgent returns, as a function of its three tests.
abbrev built : (policy_mode llm_mode missing : Bool) → Agent → Option Agent
built policy_mode llm_mode missing llm =
    if policy_mode
    then some policy_agent
    else if llm_mode
    then (if missing then none else some (fallback_agent llm policy_agent))
    else none

built-Decides :
    (p l m : Bool) (x : LlmAgent) (a : Agent)
    → built p l m (llm_agent x) ≡ some a
    → (f : Failure) → Decides f (a f)
built-Decides true l m x a h f =
    Decides-same f policy_agent a (unfold policy_agent in (_, refl, policy-IsAdmissible f)) h
built-Decides false true true x a h f = cc
built-Decides false true false x a h f =
    Decides-same f _ a
      (fallback_agent-Decides (llm_agent x) f (llm_agent x f) refl (llm_agent-Answers x f)) h
built-Decides false false m x a h f = cc

-- An agent that buildAgent makes always decides, in every mode and whatever the endpoint does: its
-- decision passes Validate, and escalates when the attempts are used up.
pub build_agent-Decides :
    (mode url model : String) (exchange : Failure → Exchange) (a : Agent)
    → build_agent mode url model exchange ≡ some a
    → (f : Failure) → Decides f (a f)
unfolding build_agent
build_agent-Decides mode url model exchange a h f =
    built-Decides (str_eq mode "policy") (str_eq mode "llm") (str_eq url "" || str_eq model "")
      (record { url = url; model = model; exchange = exchange }) a h f
