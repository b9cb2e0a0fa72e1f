-- ===== src/Coordinator/Effects/Status.antt =====
-- The status machine of an effect: `validate_status_transition` and `apply_effect_transitions`
-- (coordinator_effects.py).
use market_support_crewai_ag.Prelude.{
  List, Option, String, arith, bool_Eq, eq_iff, eq_refl, list_Eq, nat_Eq, none, option_Eq, pair_Eq,
  some, string_Eq, subst, triple_Eq, ◌↔◌, ◌≡◌,
}
use market_support_crewai_ag.Coordinator.Effects.{
  apply_transition, execution_effect_key, prepare_transition, requested_ref,
  validate_status_transition,
}
use market_support_crewai_ag.Errors.{ok}
use market_support_crewai_ag.Identity.{
  pair_Repr, scene_Eq, state_key_Eq, state_key_Repr, string_Repr, triple_Repr,
}
use market_support_crewai_ag.Records.{IssuedEffect, PreparedEffectTransition}
use market_support_crewai_ag.Root.Validation.{find_effect}
use market_support_crewai_ag.Schemas.{
  ActionExecutionFeedback, ActionExecutionStatus, executed, execution_type_Eq, failed,
  reply_kind_Eq, skipped, status_Eq,
}

-- The status and artifact of an effect, and a request that is accepted then.
pub data Accepted
    : Option ActionExecutionStatus
      → Option String
      → ActionExecutionStatus
      → Option String
      → Type 0 where
  first : {a b : Option String} {s : ActionExecutionStatus} → Accepted none a s b
  repeated : {a : Option String} {s : ActionExecutionStatus} → Accepted (some s) a s a
  failed_retried : {a b : Option String} → Accepted (some failed) a executed b
  skipped_retried : {a b : Option String} → Accepted (some skipped) a executed b

accept :
    (current : Option ActionExecutionStatus) (a : Option String) (requested : ActionExecutionStatus)
    (b : Option String)
    → Accepted current a requested b
    → validate_status_transition current a requested b ≡ ok tt
unfolding validate_status_transition
accept _ a _ b first = ground (arith)
accept _ a s _ repeated = ground (arith, eq_refl a, eq_refl s)
accept _ a _ b failed_retried = ground arith
accept _ a _ b skipped_retried = ground arith

same_artifact :
    (s : ActionExecutionStatus) (a b : Option String) → (a ≡ b) → Accepted (some s) a s b
same_artifact s a b same = subst (λ c. Accepted (some s) a s c) same repeated

accepted :
    (current : Option ActionExecutionStatus) (a : Option String) (requested : ActionExecutionStatus)
    (b : Option String)
    → validate_status_transition current a requested b ≡ ok tt
    → Accepted current a requested b
unfolding validate_status_transition
accepted none a requested b h = first
accepted (some executed) a executed b h = same_artifact executed a b (ground (arith, eq_iff a b))
accepted (some failed) a executed b h = failed_retried
accepted (some skipped) a executed b h = skipped_retried
accepted (some failed) a failed b h = same_artifact failed a b (ground (arith, eq_iff a b))
accepted (some skipped) a skipped b h = same_artifact skipped a b (ground (arith, eq_iff a b))
accepted (some executed) a failed b h = absurd (ground arith)
accepted (some executed) a skipped b h = absurd (ground arith)
accepted (some failed) a skipped b h = absurd (ground arith)
accepted (some skipped) a failed b h = absurd (ground arith)

-- A status request passes the check exactly when it is the first for the effect, repeats the
-- recorded status and artifact, or reports that a failed or skipped effect was executed.
pub validate_status_transition_lem :
    (current : Option ActionExecutionStatus) (a : Option String) (requested : ActionExecutionStatus)
    (b : Option String)
    → (validate_status_transition current a requested b ≡ ok tt) ↔ Accepted current a requested b
validate_status_transition_lem current a requested b =
    (accepted current a requested b, accept current a requested b)

-- An effect that was executed is final: whatever execution the preparation accepts for it, the
-- transition leaves the effect, its status, artifact and history, as it was.
pub executed-final :
    (effects : List IssuedEffect) (execution : ActionExecutionFeedback) (effect : IssuedEffect)
    (t : PreparedEffectTransition)
    → find_effect (execution_effect_key execution) effects ≡ some effect
    → effect.status ≡ some executed
    → prepare_transition effects execution ≡ ok t
    → apply_transition (some t) effect ≡ effect
unfolding prepare_transition apply_transition
executed-final effects execution effect t found status done = ground (
  arith,
  eq_refl effect.status,
  eq_iff effect.artifact_ref (requested_ref execution.artifact),
  accepted (some executed) effect.artifact_ref execution.status (requested_ref execution.artifact),
)
