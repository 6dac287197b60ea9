-- ===== src/Triage.antt =====
-- internal/triage/triage.go: failures, decisions, the policy, the model-backed agent with what it
-- receives over HTTP as its input, and the fallback from one agent to another. An error is its text.
pub mod Policy
pub mod Agents
use job_scheduler_tooling.Prelude.{
  ℕ, ◌/◌, ◌+◌, ◌-◌, String, ◌+++◌, Bool, true, false, not, ◌&&◌, ◌||◌, Option, none, some, ◌==◌,
  str_eq, if◌then◌else◌,
}
use job_scheduler_tooling.Prelude.Int.{ℤ, pos, negsuc, ltb_ℤ, leb_ℤ}
use job_scheduler_tooling.Text.{codes, to_lower, contains}
use job_scheduler_tooling.Inference.{Batch}

abbrev pub retry : String
retry = "retry"

abbrev pub auto_adjust : String
auto_adjust = "auto_adjust"

abbrev pub escalate : String
escalate = "escalate"

pub record Failure : Type 0 where
  pub job_id : String
  pub attempt : ℤ
  pub max_attempts : ℤ
  pub error : String
  pub batch : Batch

pub record Decision : Type 0 where
  pub action : String
  pub reason : String
  pub batch_size : ℤ
  pub precision : String
  pub source : String

-- The pair of a decision and an error: Go's callers read one or the other.
pub data Answer : Type 0 where
  ok : Decision → Answer
  err : String → Answer

-- A value of the interface `Agent`.
abbrev pub Agent : Type 0
Agent = Failure → Answer

-- `%q` of an action without quotes, backslashes or control characters.
abbrev pub quoted : String → String
quoted s = "\"" +++ (s +++ "\"")

-- Decision.Validate; `none` is the nil error.
unfoldable pub validate : Decision → Option String
validate d =
    if str_eq d.action retry || str_eq d.action escalate
    then none
    else if str_eq d.action auto_adjust
    then (if ltb_ℤ d.batch_size (pos 1)
        then some "auto_adjust requires a positive batch_size"
        else if not (str_eq d.precision "fp32") && not (str_eq d.precision "fp16")
        then some "auto_adjust precision must be fp32 or fp16"
        else none)
    else some ("unknown triage action " +++ quoted d.action)

-- A decision literal of the policy; the fields it leaves out are zero.
abbrev pub decision : String → String → String → Decision
decision action reason source = record {
  action = action;
  reason = reason;
  batch_size = pos 0;
  precision = "";
  source = source;
}

-- Go's `/ 2` truncates towards zero.
abbrev pub half : ℤ → ℤ
half (pos n) = pos (n / 2)
half (negsuc n) = if (n + 1) / 2 == 0 then pos 0 else negsuc ((n + 1) / 2 - 1)

-- `size := f.Batch.BatchSize / 2`, raised to 1.
unfoldable pub halved_size : ℤ → ℤ
halved_size b = if ltb_ℤ (half b) (pos 1) then pos 1 else half b

-- The four returns of PolicyAgent.Decide, by its three tests in their order.
unfoldable pub choose : (exhausted memory corrupt : Bool) → ℤ → Decision
unfolding halved_size
choose true memory corrupt size = decision escalate "retry budget exhausted" "policy"
choose false true corrupt size = record (decision auto_adjust "reduce memory pressure" "policy") {
  batch_size = halved_size size;
  precision = "fp16";
}
choose false false true size = decision escalate "input needs human investigation" "policy"
choose false false false size = decision retry "failure appears transient" "policy"

-- PolicyAgent.Decide; its error is always nil.
unfoldable pub policy : Failure → Decision
unfolding choose
policy f =
    let text = to_lower (codes f.error) in
    choose (leb_ℤ f.max_attempts f.attempt)
      (contains text (codes "out of memory") || contains text (codes "oom"))
      (contains text (codes "corrupt") || contains text (codes "invalid input")) f.batch.batch_size

unfoldable pub policy_agent : Agent
policy_agent f = Answer.ok (policy f)

-- The body of a response, as encoding/json decodes it: the first choice's content is decoded in
-- its turn, to a decision or to an error.
pub data Chat : Type 0 where
  undecodable : String → Chat
  no_choices : Chat
  bad_content : String → Chat
  content : Decision → Chat

-- The batch of an adjusted job (internal/dispatch).
unfoldable pub adjust : Batch → Decision → Batch
adjust b d = record b { batch_size = d.batch_size; precision = d.precision }

-- What the HTTP client and the JSON decoder give back to `LLMAgent.Decide`.
pub data Exchange : Type 0 where
  no_request : String → Exchange
  no_response : String → Exchange
  response : (code : ℕ) (status body : String) (chat : Chat) → Exchange

pub record LlmAgent : Type 0 where
  pub url : String
  pub model : String
  -- The endpoint's behaviour on a failure, the HTTP client included.
  pub exchange : Failure → Exchange

-- What is done with the outcome of Validate, and then with the budget.
unfoldable pub llm_check : Failure → Decision → Option String → Answer
llm_check f d (some e) = Answer.err e
llm_check f d none =
    if leb_ℤ f.max_attempts f.attempt && not (str_eq d.action escalate)
    then Answer.err "triage model exceeded retry budget"
    else Answer.ok d

-- A decoded decision: its source is overwritten, then it is checked.
unfoldable pub llm_accept : Failure → Decision → Answer
unfolding llm_check
llm_accept f d = let d' = record d { source = "llm" } in llm_check f d' (validate d')

unfoldable pub llm_read_chat : Failure → Chat → Answer
unfolding llm_accept
llm_read_chat f (Chat.undecodable e) = Answer.err ("decoding triage response: " +++ e)
llm_read_chat f Chat.no_choices = Answer.err "triage model returned no choices"
llm_read_chat f (Chat.bad_content e) = Answer.err ("decoding triage decision: " +++ e)
llm_read_chat f (Chat.content d) = llm_accept f d

-- `body` is the trimmed text that the error message quotes.
unfoldable pub llm_read : Failure → Exchange → Answer
unfolding llm_read_chat
llm_read f (Exchange.no_request e) = Answer.err e
llm_read f (Exchange.no_response e) = Answer.err ("calling triage model: " +++ e)
llm_read f (Exchange.response code status body chat) =
    if code / 100 == 2
    then llm_read_chat f chat
    else Answer.err ("triage model returned " +++ (status +++ (": " +++ body)))

unfoldable pub llm_agent : LlmAgent → Agent
unfolding llm_read
llm_agent a f =
    if str_eq a.url "" || str_eq a.model ""
    then Answer.err "LLM triage requires URL and model"
    else llm_read f (a.exchange f)

-- The answer of the fallback, with the primary's error in the reason. errors.Join puts a line
-- break between the two texts.
unfoldable pub fall_back : String → Answer → Answer
fall_back e (Answer.ok d) = Answer.ok (record d {
  source = "policy_fallback";
  reason = "LLM unavailable (" +++ (e +++ ("); " +++ d.reason));
})
fall_back e (Answer.err e') = Answer.err (e +++ ("\n" +++ e'))

unfoldable pub fallback_agent : Agent → Agent → Agent
unfolding fall_back
fallback_agent primary fallback f = elim (primary f) [
  | Answer.ok d ↦ Answer.ok d
  | Answer.err e ↦ fall_back e (fallback f)
]

-- cmd/dispatcher/main.go, buildAgent; `none` is its error.
unfoldable pub build_agent : String → String → String → (Failure → Exchange) → Option Agent
build_agent mode url model exchange =
    if str_eq mode "policy"
    then some policy_agent
    else if str_eq mode "llm"
    then (if str_eq url "" || str_eq model ""
        then none
        else some (
            fallback_agent (llm_agent (record { url = url; model = model; exchange = exchange }))
              policy_agent))
    else none
