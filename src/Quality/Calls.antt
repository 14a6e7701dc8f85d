-- ===== src/Quality/Calls.antt =====
-- The calls of `with_verifier` in apps/agents/shared/quality/verifier.py.
use dcops.Base.{
  ℕ, zero, suc, ◌+◌, ◌*◌, ◌≤◌, ◌≡◌, ◌⊎◌, refl, ap, subst, ◌∙◌, inl, inr, Bool, String, Bool-cases,
  true, Option, [], ◌∷◌, length, if◌then◌else◌, arith,
}
use dcops.Base.Result.{Result, ok}
use dcops.Llm.Router.{ModelTier, LlmResult}
use dcops.Quality.Words.{strip}
use dcops.Quality.Verifier.{
  Request, Log, LlmRouter, critic_accepts, answered, call, critic_request, revision_request, revise,
  with_verifier,
}

-- The result is the answer of the latest call, after so many calls; or the answer of the call
-- before it, which the critic accepted in the latest one, after at most so many calls.
abbrev Ends : {F : Type 0} → ℕ → LlmResult → Log F → Type 0
Ends {F} bound r log =
    ((q : Request F) × (older : Log F) × (log ≡ (q, r) ∷ older) × (length log ≡ bound))
    ⊎ ((critic : Request F) × (critique : LlmResult) × (q : Request F) × (older : Log F) × (log
          ≡ (critic, critique) ∷ (q, r) ∷ older)
        × (critic_accepts (strip critique.text) ≡ true)
        × (length log ≤ bound))

module _ {F : Type 0} (router : LlmRouter F)
    (answers : (log : Log F) (q : Request F) → (r : LlmResult) × (router log q ≡ ok r)) where
  call_lem :
      (log : Log F) (q : Request F) (r : LlmResult)
      (next : LlmResult → Log F → Result LlmResult × Log F)
      → router log q ≡ ok r
      → call router log q next ≡ next r ((q, r) ∷ log)
  call_lem log q r next asked = ap (λ (x : Result LlmResult). answered router log q x next) asked

  module _ (task : Request F) (critic_system : String) (critic_tier : Option ModelTier)
      (cold : F) where
    revise-Ends :
        (n : ℕ) (q : Request F) (result : LlmResult) (older : Log F)
        → (r : LlmResult) × (log : Log F) × (revise router task critic_system critic_tier cold n
              result
              ((q, result) ∷ older)
            ≡ (ok r, log))
          × Ends (length older + 1 + 2 * n) r log
    unfolding revise
    revise-Ends zero q result older =
        (result, (q, result) ∷ older, refl, inl (q, older, refl, omega arith))
    revise-Ends (suc n) q result older =
        let log0 : Log F = (q, result) ∷ older in
        let cq = critic_request router task critic_system critic_tier cold result in
        let (critique, asked) = answers log0 cq in
        let log1 : Log F = (cq, critique) ∷ log0 in
        let verdict = strip critique.text in
        let rq = revision_request router task critic_system critic_tier cold result verdict in
        let (result2, revised) = answers log1 rq in
        let loop : LlmResult → Log F → Result LlmResult × Log F =
          revise router task critic_system critic_tier cold n in
        let first =
          call_lem log0 cq critique
            (λ critique log1.
              if critic_accepts (strip critique.text)
              then (ok result, log1)
              else call router log1
                  (revision_request router task critic_system critic_tier cold result
                    (strip critique.text))
                  loop)
            asked in
        let branch : Bool → Result LlmResult × Log F =
          λ b. if b then (ok result, log1) else call router log1 rq loop in
        elim (Bool-cases (critic_accepts verdict)) [
          | inl accepted ↦ (
            result,
            log1,
            first ∙ ap branch accepted,
            inr (cq, critique, q, older, refl, accepted, omega arith),
          )
          | inr issues ↦
              let (r, log, ended, ends) = revise-Ends n rq result2 log1 in
              (
                r,
                log,
                first ∙ ap branch issues ∙ call_lem log1 rq result2 loop revised ∙ ended,
                subst (λ (bound : ℕ). Ends bound r log) (omega arith) ends,
              )
        ]

    -- Let the router answer every call. Then `with_verifier` returns an answer, after at most 1 + 2
    -- * `max_revisions` calls: that of the latest call, if all of these were made, or else that of
    -- the call before the latest one, in which the critic accepted it.
    with_verifier-Ends :
        (max_revisions : ℕ)
        → (r : LlmResult) × (log : Log F) × (with_verifier router task critic_system critic_tier
              cold max_revisions []
            ≡ (ok r, log))
          × Ends (1 + 2 * max_revisions) r log
    unfolding with_verifier
    with_verifier-Ends max_revisions =
        let (result, asked) = answers [] task in
        let (r, log, ended, ends) = revise-Ends max_revisions task result [] in
        (
          r,
          log,
          call_lem [] task result (revise router task critic_system critic_tier cold max_revisions)
                asked
              ∙ ended,
          ends,
        )
