-- ===== src/Quality/Tests.antt =====
-- A verified call and a vote.
use dcops.Base.{ℕ, ◌≡◌, refl, String, true, false, none, [], ◌∷◌, length, if◌then◌else◌, ltb}
use dcops.Base.Result.{ok}
use dcops.Llm.Router.{haiku, rca, LlmResult}
use dcops.Quality.Words.{strip, lstrip, rstrip}
use dcops.Quality.Verifier.{
  Request, LlmRouter, word, first_word, without_punctuation, critic_accepts, revise, with_verifier,
}
use dcops.Quality.Vote.{bump, counter, greatest, most_common, vote}

words :
    (critic_accepts "  ok: fine" ≡ true)
    × (critic_accepts "Not OK" ≡ false)
    × (critic_accepts " " ≡ false)
unfolding critic_accepts first_word word without_punctuation
words = (refl, refl, refl)

stripped : strip "  OK \n" ≡ "OK"
unfolding strip lstrip rstrip
stripped = refl

abbrev says : String → LlmResult
says text = record {
  text = text;
  model_used = "m";
  tier_used = haiku;
  tokens_in = 1;
  tokens_out = 1;
  usd_cost = 0;
  latency_ms = 1;
  escalated = false;
  downgraded = false;
}

-- A router whose critic is content with the second candidate.
abbrev router : LlmRouter ℕ
router log q = ok (says (if ltb 2 (length log) then "OK" else "ISSUES: none given"))

abbrev task : Request ℕ
task = record {
  task_class = rca;
  system = "s";
  messages = record { role = "user"; content = "why?" } ∷ [];
  max_tokens = 1024;
  force_tier = none;
  temperature = none;
  response_format = none;
}

four_calls : length (with_verifier router task "critic" none 0 5 []).1 ≡ 4
unfolding with_verifier revise critic_accepts first_word word without_punctuation strip lstrip
    rstrip
four_calls = refl

first_of_two : vote ("no" ∷ "yes" ∷ "maybe" ∷ "yes" ∷ "no" ∷ []) ≡ ok ("no", 2)
unfolding vote counter bump most_common greatest
first_of_two = refl
