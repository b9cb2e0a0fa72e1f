-- ===== src/Retry.antt =====
-- src/market_support_crewai_agent/runtime/integrations/crewai/retry.py, but for the delays: they are
-- floating-point numbers and sleeping changes nothing here. `call n` is the outcome of the n-th
-- call, and the result carries what `on_retry` was told, the attempt and the reason.
pub mod Attempts
use market_support_crewai_ag.Prelude.{
  List, Option, String, [], bool_Eq, if◌then◌else◌, leb, list_Eq, max, nat_Eq, none, option_Eq,
  pair_Eq, some, string_Eq, suc, triple_Eq, zero, ℕ, ◌+◌, ◌-◌, ◌∷◌,
}
use market_support_crewai_ag.Identity.{
  pair_Repr, scene_Eq, state_key_Eq, state_key_Repr, string_Repr, triple_Repr,
}
use market_support_crewai_ag.Schemas.{execution_type_Eq, reply_kind_Eq, status_Eq}

pub data CallOutcome {ℓ} (T : Type ℓ) : Type ℓ where
  call_returned : T → CallOutcome T
  call_timed_out : CallOutcome T
  call_failed : String → CallOutcome T

pub data RetryResult {ℓ} (T : Type ℓ) : Type ℓ where
  retry_returned : T → RetryResult T
  retry_timed_out : RetryResult T
  retry_failed : String → RetryResult T
  -- `RuntimeError("retry loop exhausted")`
  loop_exhausted : RetryResult T

-- `RetryPolicy`, with `retry_attempts` not negative
pub record RetryPolicy : Type 0 where
  pub retry_attempts : ℕ

abbrev pub max_attempts : RetryPolicy → ℕ
max_attempts policy = max 1 (policy.retry_attempts + 1)

abbrev pub Retries : Type 0
Retries = List (ℕ × String)

-- the reason of a predicate that may be missing; an empty reason is none
abbrev pub reason_of {ℓ} : {A : Type ℓ} → Option (A → Option String) → A → Option String
reason_of none a = none
reason_of (some predicate) a = truthy (predicate a)
  where
    truthy : Option String → Option String
    truthy none = none
    truthy (some String.[]) = none
    truthy (some (String.◌∷◌ c s)) = some (String.◌∷◌ c s)

module _ {ℓ} {T : Type ℓ} (policy : RetryPolicy) (should_retry_result : Option (T → Option String))
    (should_retry_exception : Option (String → Option String)) where
  -- the reason to retry after an outcome
  abbrev pub retry_reason : CallOutcome T → Option String
  retry_reason (call_returned result) = reason_of should_retry_result result
  retry_reason call_timed_out = none
  retry_reason (call_failed e) = reason_of should_retry_exception e

  abbrev pub ended : CallOutcome T → RetryResult T
  ended (call_returned result) = retry_returned result
  ended call_timed_out = retry_timed_out
  ended (call_failed e) = retry_failed e

  abbrev pub retry_or_end :
      ℕ → CallOutcome T → Option String → RetryResult T × Retries → RetryResult T × Retries
  retry_or_end attempt outcome none next = (ended outcome, [])
  retry_or_end attempt outcome (some reason) next =
      if leb (max_attempts policy - 1) attempt
      then (ended outcome, [])
      else (next.0, (attempt + 1, reason) ∷ next.1)

  -- the attempts that are left, from `attempt` on
  unfoldable pub attempts_from : (ℕ → CallOutcome T) → ℕ → ℕ → RetryResult T × Retries
  attempts_from call zero attempt = (loop_exhausted, [])
  attempts_from call (suc left) attempt =
      retry_or_end attempt (call attempt) (retry_reason (call attempt))
        (attempts_from call left (attempt + 1))

  unfoldable pub run_with_retry : (ℕ → CallOutcome T) → RetryResult T × Retries
  unfolding attempts_from
  run_with_retry call = attempts_from call (max_attempts policy) 0
