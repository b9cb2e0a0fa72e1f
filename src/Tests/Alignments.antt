-- ===== src/Tests/Alignments.antt =====
-- The alignment loop with a remediator that asks for another plan and then accepts it.
use market_support_crewai_ag.Prelude.{
  Option, [], ap, bool_Eq, false, list_Eq, nat_Eq, none, option_Eq, pair_Eq, refl, some, string_Eq,
  suc, triple_Eq, true, zero, ℕ, ◌+◌, ◌∷◌, ◌≡◌,
}
use market_support_crewai_ag.Alignment.{
  AlignmentRemediationLimits, AttemptResult, Attempted, ExecutionPlan, Object, RecallTurnState,
  ReplyAlignmentVerdict, check_limits, knowledge_answer_mode, no_remediation, planner_origin,
  raised, replan, response_mode_Eq, returned, timeout_error,
}
use market_support_crewai_ag.Alignment.Loop.{
  V2AlignmentRemediator, action_attempt, alignment_attempt, ensure_aligned_v2_response,
}
use market_support_crewai_ag.Alignment.Postconditions.{
  PlanHashing, require_replan_authority, require_same_recall_state,
}
use market_support_crewai_ag.Alignment.Rounds.{Settled}
use market_support_crewai_ag.Alignment.Termination.{
  ensure_aligned_v2_response-Settled, ensure_aligned_v2_response-ends,
}
use market_support_crewai_ag.Identity.{
  pair_Repr, scene_Eq, state_key_Eq, state_key_Repr, string_Repr, triple_Repr,
}
use market_support_crewai_ag.Schemas.{execution_type_Eq, reply_kind_Eq, status_Eq}

abbrev test_plan : ExecutionPlan
test_plan = record {
  execution_plan_id = "plan-1";
  origin = planner_origin;
  response_mode = knowledge_answer_mode;
  unit_ids = "unit-1" ∷ [];
  manifest_ids = "product.info" ∷ [];
  plan_spec = some "{}";
}

abbrev test_recall : Object RecallTurnState
test_recall = record {
  address = 1;
  content = record { outcome = record { address = 2; content = "trace" } };
}

abbrev first_attempt : AttemptResult
first_attempt = record {
  plan = record { address = 10; content = test_plan };
  evidence = 20;
  response = "draft";
  reply_valid = true;
  recall_state = some test_recall;
}

abbrev second_attempt : AttemptResult
second_attempt = record first_attempt {
  plan = record { address = 11; content = test_plan };
  response = "better";
}

abbrev wants_replan : ReplyAlignmentVerdict
wants_replan = record {
  aligned = false;
  safe_to_return = false;
  remediation = replan;
  refined_evidence_query = none;
  planner_feedback = some "wrong product";
}

abbrev accepts : ReplyAlignmentVerdict
accepts = record wants_replan {
  aligned = true;
  safe_to_return = true;
  remediation = no_remediation;
}

abbrev test_plan_hashing : PlanHashing
test_plan_hashing = record {
  execution_plan_id_v2 = λ plan. plan.execution_plan_id;
  plan_bytes = λ plan. [];
}

-- its state counts the verdicts
abbrev test_verdict : ℕ → ReplyAlignmentVerdict
test_verdict zero = wants_replan
test_verdict (suc n) = accepts

abbrev test_remediator : V2AlignmentRemediator ℕ
test_remediator = record {
  verdict_for = λ candidate attempt n. (returned (test_verdict n), n + 1);
  replan_with = λ candidate verdict attempt n. (returned second_attempt, n);
  refetch_with = λ candidate verdict attempt n. (raised timeout_error, n);
  recompose_with = λ candidate verdict attempt n. (raised timeout_error, n);
  replace_with = λ candidate verdict remediation n. (raised timeout_error, n);
}

abbrev test_limits : AlignmentRemediationLimits
test_limits = record { max_replans = 1; max_refetches = 1; max_recomposes = 1; max_total = 2 }

aligns :
    ensure_aligned_v2_response test_plan_hashing test_remediator test_limits 3 first_attempt 0
    ≡ (some (returned second_attempt), 2)
unfolding ensure_aligned_v2_response alignment_attempt action_attempt require_replan_authority
    require_same_recall_state
aligns = refl

limits_fit : check_limits test_limits ≡ none
unfolding check_limits
limits_fit = refl

ensure_aligned_v2_response-ends_example :
    (result : Attempted AttemptResult) × ((ensure_aligned_v2_response test_plan_hashing
        test_remediator test_limits 3 first_attempt 0).0
      ≡ some result)
ensure_aligned_v2_response-ends_example =
    ensure_aligned_v2_response-ends test_plan_hashing test_remediator test_limits first_attempt 0
      limits_fit

ensure_aligned_v2_response-Settled_example :
    (second_attempt.recall_state ≡ some test_recall) × Settled test_remediator second_attempt
ensure_aligned_v2_response-Settled_example =
    ensure_aligned_v2_response-Settled test_plan_hashing test_remediator test_limits 3 first_attempt
      second_attempt test_recall 0 refl
      (ap (λ (x : Option (Attempted AttemptResult) × ℕ). x.0) aligns)
