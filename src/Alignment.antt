-- ===== src/Alignment.antt =====
-- What the alignment loop works on (src/market_support_crewai_agent/runtime/validation/
-- alignment_loop.py, reply_alignment_verifier.py, runtime/v2_attempt.py, planning/models.py): of
-- each class the fields that the loop and its postconditions read. An `Object` carries the address
-- that `is` compares.
pub mod Postconditions
pub mod Loop
pub mod Rounds
pub mod Termination
use market_support_crewai_ag.Prelude.{
  Bool, Eq, List, Option, String, [], any, arith, bool_Eq, false, if◌then◌else◌, list_Eq, ltb,
  nat_Eq, none, option_Eq, pair_Eq, some, string_Eq, triple_Eq, true, ℕ, ◌==◌, ◌↔◌, ◌∷◌, ◌≡◌,
}
use market_support_crewai_ag.Identity.{
  pair_Repr, scene_Eq, state_key_Eq, state_key_Repr, string_Repr, triple_Repr,
}
use market_support_crewai_ag.Schemas.{execution_type_Eq, reply_kind_Eq, status_Eq}

pub record Object {ℓ} (A : Type ℓ) : Type ℓ where
  pub address : ℕ
  pub content : A

abbrev pub is_same {ℓ} : {A : Type ℓ} → Object A → Object A → Bool
is_same a b = a.address == b.address

pub data ExecutionPlanOrigin : Type 0 where
  planner_origin input_policy_origin direct_send_origin approved_static_shortcut_origin
        deterministic_origin remediation_origin :
      ExecutionPlanOrigin

pub data ResponseMode : Type 0 where
  action_mode refusal_mode clarification_mode handoff_mode unable_mode knowledge_answer_mode
        smalltalk_mode no_reply_mode :
      ResponseMode

-- `plan_spec` stands for its JSON text.
pub record ExecutionPlan : Type 0 where
  pub execution_plan_id : String
  pub origin : ExecutionPlanOrigin
  pub response_mode : ResponseMode
  pub unit_ids : List String
  pub manifest_ids : List String
  pub plan_spec : Option String

-- `outcome` is `RecallTurnStateV1.outcome`, of which the trace hash is read.
pub record RecallTurnState : Type 0 where
  pub outcome : Object String

-- `evidence` is the address of the evidence, which the loop does not open, `response` stands for its
-- JSON text.
pub record AttemptResult : Type 0 where
  pub plan : Object ExecutionPlan
  pub evidence : ℕ
  pub response : String
  pub reply_valid : Bool
  pub recall_state : Option (Object RecallTurnState)

pub data AlignmentRemediation : Type 0 where
  no_remediation replan refetch_document_context refetch_report_scope recompose return_clarification
        return_unable :
      AlignmentRemediation

pub data AlignmentFallback : Type 0 where
  fallback_clarification fallback_unable : AlignmentFallback

pub record ReplyAlignmentVerdict : Type 0 where
  pub aligned : Bool
  pub safe_to_return : Bool
  pub remediation : AlignmentRemediation
  pub refined_evidence_query : Option String
  pub planner_feedback : Option String

pub record AlignmentRefetchOutcome : Type 0 where
  pub unit_id : String
  pub refined_evidence_query : String
  pub candidate : AttemptResult

-- `AgentRuntimeError` with its message, `TimeoutError`, and any other exception
pub data Raised : Type 0 where
  agent_runtime_error : String → Raised
  timeout_error : Raised
  other_exception : String → Raised

pub data Attempted {ℓ} (A : Type ℓ) : Type ℓ where
  returned : A → Attempted A
  raised : Raised → Attempted A

pub record AlignmentRemediationLimits : Type 0 where
  pub max_replans : ℕ
  pub max_refetches : ℕ
  pub max_recomposes : ℕ
  pub max_total : ℕ

pub data AlignmentLimitError : Type 0 where
  alignment_remediation_limit_out_of_range alignment_action_limit_exceeds_total :
      AlignmentLimitError

-- `__post_init__`; the limits here are naturals, so no value is below 0.
unfoldable pub check_limits : AlignmentRemediationLimits → Option AlignmentLimitError
check_limits limits =
    if any (ltb 2)
      (limits.max_replans ∷ limits.max_refetches ∷ limits.max_recomposes ∷ limits.max_total ∷ [])
    then some alignment_remediation_limit_out_of_range
    else if any (ltb limits.max_total)
        (limits.max_replans ∷ limits.max_refetches ∷ limits.max_recomposes ∷ [])
    then some alignment_action_limit_exceeds_total
    else none

abbrev pub response_mode_eq : ResponseMode → ResponseMode → Bool
response_mode_eq action_mode action_mode = true
response_mode_eq refusal_mode refusal_mode = true
response_mode_eq clarification_mode clarification_mode = true
response_mode_eq handoff_mode handoff_mode = true
response_mode_eq unable_mode unable_mode = true
response_mode_eq knowledge_answer_mode knowledge_answer_mode = true
response_mode_eq smalltalk_mode smalltalk_mode = true
response_mode_eq no_reply_mode no_reply_mode = true
response_mode_eq _ _ = false

pub response_mode_eq_iff : (a b : ResponseMode) → (response_mode_eq a b ≡ true) ↔ (a ≡ b)
response_mode_eq_iff a b = ground arith

instance abbrev pub response_mode_Eq : Eq ResponseMode
response_mode_Eq = record { same = response_mode_eq; same_iff = response_mode_eq_iff }
