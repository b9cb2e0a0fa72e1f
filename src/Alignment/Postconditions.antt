-- ===== src/Alignment/Postconditions.antt =====
-- src/market_support_crewai_agent/runtime/validation/alignment_postconditions.py. The digest of a
-- plan and its canonical bytes are read through pydantic's dump: they are parameters.
use market_support_crewai_ag.Prelude.{
  Bool, String, [], bool_Eq, elem, false, if◌then◌else◌, list_Eq, nat_Eq, none, not, option_Eq,
  pair_Eq, some, string_Eq, triple_Eq, true, ◌!=◌, ◌==◌, ◌||◌, ◌∷◌,
}
use market_support_crewai_ag.Alignment.{
  AlignmentFallback, AlignmentRefetchOutcome, AttemptResult, Attempted, ExecutionPlan,
  ExecutionPlanOrigin, Object, RecallTurnState, ReplyAlignmentVerdict, ResponseMode,
  agent_runtime_error, clarification_mode, fallback_clarification, fallback_unable, is_same,
  planner_origin, raised, remediation_origin, response_mode_Eq, returned, unable_mode,
}
use market_support_crewai_ag.Identity.{
  pair_Repr, scene_Eq, state_key_Eq, state_key_Repr, string_Repr, triple_Repr,
}
use market_support_crewai_ag.Schemas.{execution_type_Eq, reply_kind_Eq, status_Eq}
use market_support_crewai_ag.Text.{Bytes}

pub record PlanHashing : Type 0 where
  pub execution_plan_id_v2 : ExecutionPlan → String
  pub plan_bytes : ExecutionPlan → Bytes

unfoldable pub require_same_recall_state :
    AttemptResult → Object RecallTurnState → Attempted (Unit {0})
require_same_recall_state candidate expected = elim candidate.recall_state [
  | none ↦ raised (agent_runtime_error "alignment_replaced_recall_turn_state")
  | some actual ↦
      if not (is_same actual expected)
        || (not (is_same actual.content.outcome expected.content.outcome)
            || actual.content.outcome.content != expected.content.outcome.content)
      then raised (agent_runtime_error "alignment_replaced_recall_turn_state")
      else returned tt
]

abbrev pub is_planner : ExecutionPlanOrigin → Bool
is_planner planner_origin = true
is_planner _ = false

abbrev pub is_remediation : ExecutionPlanOrigin → Bool
is_remediation remediation_origin = true
is_remediation _ = false

abbrev pub expected_mode : AlignmentFallback → ResponseMode
expected_mode fallback_clarification = clarification_mode
expected_mode fallback_unable = unable_mode

abbrev pub expected_manifest : AlignmentFallback → String
expected_manifest fallback_clarification = "general.clarification"
expected_manifest fallback_unable = "general.abstention"

unfoldable pub require_recompose_response_only :
    AttemptResult → AttemptResult → Attempted (Unit {0})
require_recompose_response_only before after =
    if not (is_same before.plan after.plan) || before.evidence != after.evidence
    then raised (agent_runtime_error "alignment_recompose_changed_plan_or_evidence")
    else returned tt

module _ (hashing : PlanHashing) where
  unfoldable pub require_replan_authority : AttemptResult → AttemptResult → Attempted (Unit {0})
  require_replan_authority before after =
      let plan = after.plan.content in
      if is_same after.plan before.plan
        || (not (is_planner plan.origin)
            || (plan.plan_spec == none
                || plan.execution_plan_id != hashing.execution_plan_id_v2 plan))
      then raised (agent_runtime_error "alignment_replan_invalid_plan_authority")
      else returned tt

  unfoldable pub require_refetch_authority :
      AttemptResult → AlignmentRefetchOutcome → ReplyAlignmentVerdict → Attempted (Unit {0})
  require_refetch_authority before outcome verdict =
      let after = outcome.candidate in
      if some outcome.refined_evidence_query != verdict.refined_evidence_query
        || (not (elem outcome.unit_id before.plan.content.unit_ids)
            || (not (is_same before.plan after.plan)
                || (hashing.plan_bytes before.plan.content != hashing.plan_bytes after.plan.content
                    || before.evidence == after.evidence)))
      then raised (agent_runtime_error "alignment_refetch_changed_plan_authority")
      else returned tt

  unfoldable pub require_replacement_authority :
      AttemptResult → AttemptResult → AlignmentFallback → Attempted (Unit {0})
  require_replacement_authority before after remediation =
      let plan = after.plan.content in
      if not (is_remediation plan.origin)
        || (plan.plan_spec != none
            || (plan.response_mode != expected_mode remediation
                || (plan.manifest_ids != expected_manifest remediation ∷ []
                    || (plan.execution_plan_id == before.plan.content.execution_plan_id
                        || plan.execution_plan_id != hashing.execution_plan_id_v2 plan))))
      then raised (agent_runtime_error "alignment_replacement_invalid_plan_authority")
      else returned tt
