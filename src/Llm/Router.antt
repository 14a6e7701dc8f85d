-- ===== src/Llm/Router.antt =====
-- Tiers, models, prices and records of apps/agents/shared/llm_router.py. Money is counted in
-- millionths of a dollar, in which the prices per million tokens are whole numbers.
use dcops.Base.{ℕ, ◌+◌, ◌*◌, String, Bool, false, str_eq, if◌then◌else◌}

-- `ModelTier`
pub data ModelTier : Type 0 where
  haiku sonnet : ModelTier

-- `TaskClass`
pub data TaskClass : Type 0 where
  classify explain summarize nl_to_sql rca multimodal deep_reasoning : TaskClass

-- `DEFAULT_TIER`
unfoldable pub default_tier : TaskClass → ModelTier
default_tier classify = haiku
default_tier explain = haiku
default_tier summarize = haiku
default_tier nl_to_sql = haiku
default_tier rca = haiku
default_tier multimodal = sonnet
default_tier deep_reasoning = sonnet

-- `_resolve_model_id`; `getenv` is `os.getenv` with its default.
unfoldable pub resolve_model_id :
    (String → String → String) → String → ModelTier → TaskClass → String
resolve_model_id getenv backend tier task =
    if str_eq backend "anthropic"
    then elim tier [
      | haiku ↦ getenv "ANTHROPIC_MODEL_HAIKU" "claude-haiku-4-5-20251001"
      | sonnet ↦ getenv "ANTHROPIC_MODEL_SONNET" "claude-sonnet-4-6"
    ]
    else elim task [
      | multimodal ↦ getenv "LLM_MODEL_VISION" "qwen2-vl:7b"
      | nl_to_sql ↦ getenv "LLM_MODEL_CODER" "qwen2.5-coder:3b"
      | deep_reasoning ↦ elim tier [
        | haiku ↦ getenv "LLM_MODEL_FAST" "llama3.2:3b"
        | sonnet ↦ getenv "LLM_MODEL_DEEP" "deepseek-r1:8b"
      ]
      | _ ↦ elim tier [
        | haiku ↦ getenv "LLM_MODEL_FAST" "llama3.2:3b"
        | sonnet ↦ getenv "LLM_MODEL_REASONING" "qwen2.5:7b"
      ]
    ]

-- `_ANTHROPIC_PRICING`: the prices of one token in and of one token out.
abbrev pub input_price : ModelTier → ℕ
input_price haiku = 1
input_price sonnet = 3

abbrev pub output_price : ModelTier → ℕ
output_price haiku = 5
output_price sonnet = 15

-- `_compute_cost`
unfoldable pub compute_cost : String → ModelTier → ℕ → ℕ → ℕ
compute_cost backend tier tokens_in tokens_out =
    if str_eq backend "anthropic"
    then tokens_in * input_price tier + tokens_out * output_price tier
    else 0

-- What a back end answers.
pub record Invocation : Type 0 where
  pub text : String
  pub model_id : String
  pub tokens_in : ℕ
  pub tokens_out : ℕ
  pub latency_ms : ℕ

-- `LLMResult`, without the provider's raw response.
pub record LlmResult : Type 0 where
  pub text : String
  pub model_used : String
  pub tier_used : ModelTier
  pub tokens_in : ℕ
  pub tokens_out : ℕ
  pub usd_cost : ℕ
  pub latency_ms : ℕ
  pub escalated : Bool
  pub downgraded : Bool

-- `CallRecord`, without its timestamp and the request id, which nothing sets.
pub record CallRecord : Type 0 where
  pub agent : String
  pub backend : String
  pub task_class : TaskClass
  pub tier_used : ModelTier
  pub model_id : String
  pub tokens_in : ℕ
  pub tokens_out : ℕ
  pub usd_cost : ℕ
  pub latency_ms : ℕ
  pub escalated : Bool
  pub downgraded : Bool

-- `BudgetExceeded`
pub record BudgetExceeded : Type 0 where
  pub site_id : String
  pub agent : String
  pub spent_usd : ℕ
  pub budget_usd : ℕ
  pub backend : String

-- What a router is made with.
pub record Settings : Type 0 where
  pub agent_name : String
  pub daily_budget : ℕ
  pub backend : String
  pub has_bus : Bool
  pub site_id : String

-- The end of `_invoke`.
unfoldable pub to_result : Settings → ModelTier → Invocation → LlmResult
unfolding compute_cost
to_result s tier i = record {
  text = i.text;
  model_used = i.model_id;
  tier_used = tier;
  tokens_in = i.tokens_in;
  tokens_out = i.tokens_out;
  usd_cost = compute_cost s.backend tier i.tokens_in i.tokens_out;
  latency_ms = i.latency_ms;
  escalated = false;
  downgraded = false;
}

-- The record that `_record_and_audit` makes.
unfoldable pub to_record : Settings → TaskClass → LlmResult → Bool → CallRecord
to_record s task result downgraded = record {
  agent = s.agent_name;
  backend = s.backend;
  task_class = task;
  tier_used = result.tier_used;
  model_id = result.model_used;
  tokens_in = result.tokens_in;
  tokens_out = result.tokens_out;
  usd_cost = result.usd_cost;
  latency_ms = result.latency_ms;
  escalated = result.escalated;
  downgraded = downgraded;
}
