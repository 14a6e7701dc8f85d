-- ===== src/Quality/Verifier.antt =====
-- `with_verifier` of apps/agents/shared/quality/verifier.py, for messages whose content is text.
-- The router answers a call by all calls before it, or raises; `strip`, `split` and `upper` are
-- those of ASCII texts.
use dcops.Base.{
  ℕ, zero, suc, String, str_append, Bool, false, ◌&&◌, ◌||◌, Option, none, some, List, [], ◌∷◌,
  ◌++◌, map, codes, is_space, upper, ◌==◌, if◌then◌else◌,
}
use dcops.Value.{Dict}
use dcops.Base.Result.{Result, ok, err}
use dcops.Quality.Words.{strip}
use dcops.Llm.Router.{ModelTier, TaskClass, classify, LlmResult}

pub record Message : Type 0 where
  pub role : String
  pub content : String

pub record Request (F : Type 0) : Type 0 where
  pub task_class : TaskClass
  pub system : String
  pub messages : List Message
  pub max_tokens : ℕ
  pub force_tier : Option ModelTier
  pub temperature : Option F
  pub response_format : Option Dict

-- The calls so far with their answers, the latest first.
abbrev pub Log : Type 0 → Type 0
Log F = List (Request F × LlmResult)

abbrev pub LlmRouter : Type 0 → Type 0
LlmRouter F = Log F → Request F → Result LlmResult

-- The characters up to the next space.
unfoldable pub word : List ℕ → List ℕ
word [] = []
word (c ∷ cs) = if is_space c then [] else c ∷ word cs

-- `s.strip().split()[0]`, and "" where there is no word.
unfoldable pub first_word : List ℕ → List ℕ
unfolding word
first_word [] = []
first_word (c ∷ cs) = if is_space c then first_word cs else c ∷ word cs

-- `rstrip(":,.")`
unfoldable pub without_punctuation : List ℕ → List ℕ
without_punctuation [] = []
without_punctuation (c ∷ cs) = elim (without_punctuation cs) [
  | [] ↦ if c == b':' || c == b',' || c == b'.' then [] else c ∷ []
  | d ∷ ds ↦ c ∷ d ∷ ds
]

abbrev is_ok : List ℕ → Bool
is_ok (a ∷ b ∷ []) = a == b'O' && b == b'K'
is_ok cs = false

unfoldable pub critic_accepts : String → Bool
unfolding first_word without_punctuation
critic_accepts verdict = is_ok (without_punctuation (map upper (first_word (codes verdict))))

-- `_stringify_messages`
unfoldable pub stringify_messages : List Message → String
stringify_messages [] = ""
stringify_messages (m ∷ ms) =
    let line = str_append "[" (str_append m.role (str_append "] " m.content)) in
    elim ms [ [] ↦ line | _ ∷ _ ↦ str_append line (str_append "\n" (stringify_messages ms)) ]

module _ {F : Type 0} (router : LlmRouter F) where
  -- A call: what follows it has the answer and the longer log; an exception ends everything.
  abbrev pub answered :
      {A : Type 0}
      → Log F
      → Request F
      → Result LlmResult
      → (LlmResult → Log F → Result A × Log F)
      → Result A × Log F
  answered log q (err e) next = (err e, log)
  answered log q (ok r) next = next r ((q, r) ∷ log)

  abbrev pub call :
      {A : Type 0} → Log F → Request F → (LlmResult → Log F → Result A × Log F) → Result A × Log F
  call log q next = answered log q (router log q) next

  module _ (task : Request F) (critic_system : String) (critic_tier : Option ModelTier)
      (zero_temperature : F) where
    abbrev pub critic_request : LlmResult → Request F
    critic_request result = record {
      task_class = classify;
      system = critic_system;
      messages =
          record {
            role = "user";
            content = str_append "TASK:\n" (
                str_append task.system (
                  str_append "\n\nCONTEXT:\n" (
                    str_append (stringify_messages task.messages)
                      (str_append "\n\nCANDIDATE:\n" result.text))));
          }
          ∷ [];
      max_tokens = 256;
      force_tier = critic_tier;
      temperature = some zero_temperature;
      response_format = none;
    }

    abbrev pub revision_request : LlmResult → String → Request F
    revision_request result verdict = record task {
      messages =
          task.messages
          ++ record { role = "assistant"; content = result.text }
            ∷ record {
              role = "user";
              content =
                  str_append "A reviewer flagged these issues with your answer:\n" (
                    str_append verdict "\n\nProvide a corrected answer that addresses each issue.");
            }
            ∷ [];
    }

    -- The loop `for revision in range(max_revisions)`.
    unfoldable pub revise : ℕ → LlmResult → Log F → Result LlmResult × Log F
    unfolding critic_accepts stringify_messages strip
    revise zero result log = (ok result, log)
    revise (suc n) result log = call log (critic_request result) (λ critique log1.
        let verdict = strip critique.text in
        if critic_accepts verdict
        then (ok result, log1)
        else call log1 (revision_request result verdict) (λ result2 log2. revise n result2 log2))

    unfoldable pub with_verifier : ℕ → Log F → Result LlmResult × Log F
    unfolding revise
    with_verifier max_revisions log =
        call log task (λ result log1. revise max_revisions result log1)
