-- ===== src/Retry/Attempts.antt =====
-- Which attempt a run ends with.
use market_support_crewai_ag.Prelude.{
  Bool-cases, Option, String, ap, arith, bool_Eq, inl, inr, leb, length, list_Eq, nat_Eq, none,
  option_Eq, pair_Eq, refl, some, string_Eq, subst, suc, sym, triple_Eq, zero, ℕ, ◌+◌, ◌-◌, ◌<◌,
  ◌∙◌, ◌≡◌, ◌≢◌, ◌≤◌,
}
use market_support_crewai_ag.Identity.{
  pair_Repr, scene_Eq, state_key_Eq, state_key_Repr, string_Repr, triple_Repr,
}
use market_support_crewai_ag.Retry.{
  CallOutcome, Retries, RetryPolicy, RetryResult, attempts_from, ended, max_attempts, retry_or_end,
  retry_reason, run_with_retry,
}
use market_support_crewai_ag.Schemas.{execution_type_Eq, reply_kind_Eq, status_Eq}

module _ {ℓ} {T : Type ℓ} (policy : RetryPolicy) (should_retry_result : Option (T → Option String))
    (should_retry_exception : Option (String → Option String)) (call : ℕ → CallOutcome T) where
  abbrev reason_at : ℕ → Option String
  reason_at n = retry_reason policy should_retry_result should_retry_exception (call n)

  -- The run from `attempt` on ends with attempt `k`: those before it gave a reason to retry, and it
  -- gave none or was the last; `on_retry` was told of each attempt before it.
  abbrev pub EndsWith : ℕ → ℕ → RetryResult T × Retries → Type ℓ
  EndsWith attempt k run =
      (run.0 ≡ ended policy should_retry_result should_retry_exception (call k))
      × (attempt + length run.1 ≡ k)
      × (k ≤ policy.retry_attempts)
      × ((j : ℕ) → attempt ≤ j → j < k → reason_at j ≢ none)
      × (k < policy.retry_attempts → reason_at k ≡ none)

  earlier_or_now :
      {attempt : ℕ} {reason : String}
      → reason_at attempt ≡ some reason
      → (j : ℕ) → reason_at j ≡ none
      → (attempt + 1 ≤ j → ⊥)
      → attempt ≤ j
      → ⊥
  earlier_or_now {attempt} {reason} at j silent later from =
      let here : attempt ≡ j = omega arith in
      let both : some reason ≡ none = sym at ∙ ap reason_at here ∙ silent in absurd (cc)

  max_attempts-eq : max_attempts policy ≡ policy.retry_attempts + 1
  max_attempts-eq = omega arith

  retry_or_end-EndsWith :
      (attempt : ℕ) (o : Option String) (next : RetryResult T × Retries)
      → reason_at attempt ≡ o
      → attempt ≤ policy.retry_attempts
      → (attempt < policy.retry_attempts → (k : ℕ) × EndsWith (attempt + 1) k next)
      → (k : ℕ) × EndsWith attempt k (
          retry_or_end policy should_retry_result should_retry_exception attempt
            (call attempt)
            o
            next)
  retry_or_end-EndsWith attempt none next at within later =
      (attempt, (refl, omega arith, within, λ j from before. absurd (omega arith), λ more. at))
  retry_or_end-EndsWith attempt (some reason) next at within later =
      elim (Bool-cases (leb (max_attempts policy - 1) attempt)) [
        | inl final ↦
            let last : policy.retry_attempts ≤ attempt = ground (arith, final, max_attempts-eq) in
            rw final (
              attempt,
              (
                refl,
                omega arith,
                within,
                λ j from before. absurd (omega arith),
                λ more. absurd (omega arith),
              ),
            )
        | inr goes_on ↦
            let more : attempt < policy.retry_attempts = ground (arith, goes_on, max_attempts-eq) in
            let (k, (ends, counted, bound, earlier, final)) = later more in
            rw goes_on (
              k,
              (
                ends,
                omega (arith, counted),
                bound,
                λ j from before silent.
                    earlier_or_now at j silent (λ after. earlier j after before silent) from,
                final,
              ),
            )
      ]

  attempts_from-EndsWith :
      (left attempt : ℕ)
      → attempt + suc left ≡ max_attempts policy
      → (k : ℕ) × EndsWith attempt k
          (attempts_from policy should_retry_result should_retry_exception call (suc left) attempt)
  unfolding attempts_from
  attempts_from-EndsWith zero attempt total =
      let size = max_attempts-eq in
      retry_or_end-EndsWith attempt (reason_at attempt) _ refl (omega arith)
        (λ more. absurd (omega arith))
  attempts_from-EndsWith (suc left) attempt total =
      let size = max_attempts-eq in
      retry_or_end-EndsWith attempt (reason_at attempt) _ refl (omega arith)
        (λ more. attempts_from-EndsWith left (attempt + 1) (omega arith))

  -- A run ends with the outcome of an attempt: there are at most `retry_attempts` retries, each
  -- attempt before it gave a reason to retry, it gave none unless it was the last one allowed, and
  -- `on_retry` was told as often as there were retries. So the loop is never exhausted, and a
  -- timeout ends it.
  pub run_with_retry-EndsWith :
      (k : ℕ) × EndsWith 0 k (run_with_retry policy should_retry_result should_retry_exception call)
  unfolding run_with_retry
  run_with_retry-EndsWith =
      let size : suc policy.retry_attempts ≡ max_attempts policy =
        let same = max_attempts-eq in omega arith in
      subst
        (λ (n : ℕ).
          (k : ℕ) × EndsWith 0 k
            (attempts_from policy should_retry_result should_retry_exception call n 0))
        size (attempts_from-EndsWith policy.retry_attempts 0 (omega arith))
