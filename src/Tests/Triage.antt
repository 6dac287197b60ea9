-- ===== src/Tests/Triage.antt =====
-- internal/triage on concrete failures.
use job_scheduler_tooling.Prelude.{◌≡◌, refl, none}
use job_scheduler_tooling.Prelude.Int.{pos}
use job_scheduler_tooling.Text.{contains, to_lower}
use job_scheduler_tooling.Triage.{
  Failure, Exchange, Chat, LlmAgent, Agent, decision, retry, escalate, validate, policy,
  policy_agent, llm_agent, fallback_agent, build_agent,
}
use job_scheduler_tooling.Triage.Policy.{validate-policy}
use job_scheduler_tooling.Triage.Agents.{Decides, build_agent-Decides}
use job_scheduler_tooling.Tests.Samples.{failure}

abbrev oom : Failure
oom = failure 1 "CUDA out of memory while allocating inference tensor"

-- The failures of cmd/dispatcher's injectedError.
injected :
    ((policy oom).batch_size ≡ pos 8)
    × ((policy (failure 1 "transient GPU worker reset")).action ≡ retry)
    × ((policy (failure 1 "corrupt input image in batch")).action ≡ escalate)
    × ((policy (failure 3 "transient GPU worker reset")).action ≡ escalate)
unfolding policy contains to_lower
injected = (refl, refl, refl, refl)

-- An endpoint that always asks for a retry.
abbrev stubborn : Failure → Exchange
stubborn _ = Exchange.response 200 "200 OK" "" (Chat.content (decision "retry" "again" ""))

abbrev stubborn_agent : LlmAgent
stubborn_agent = record { url = "http://localhost"; model = "m"; exchange = stubborn }

validate-policy_example : validate (policy oom) ≡ none
validate-policy_example = validate-policy oom

abbrev llm_mode : Agent
llm_mode = fallback_agent (llm_agent stubborn_agent) policy_agent

build_agent-Decides_example : Decides (failure 3 "reset") (llm_mode (failure 3 "reset"))
unfolding build_agent
build_agent-Decides_example =
    build_agent-Decides "llm" "http://localhost" "m" stubborn llm_mode refl (failure 3 "reset")
