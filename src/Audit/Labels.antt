-- ===== src/Audit/Labels.antt =====
-- The registered labels of src/market_support_crewai_agent/runtime/state/audit_types.py.
use market_support_crewai_ag.Prelude.{
  List, String, [], bool_Eq, list_Eq, nat_Eq, option_Eq, pair_Eq, string_Eq, triple_Eq, ◌∷◌,
}
use market_support_crewai_ag.Identity.{
  pair_Repr, scene_Eq, state_key_Eq, state_key_Repr, string_Repr, triple_Repr,
}
use market_support_crewai_ag.Schemas.{execution_type_Eq, reply_kind_Eq, status_Eq}

abbrev pub registered_reason_codes : List String
registered_reason_codes =
    "action_not_allowed_by_policy" ∷ "action_ready" ∷ "action_ready_answer_evidence_missing"
    ∷ "action_evidence_missing" ∷ "action_ready_with_clarification"
    ∷ "action_ready_with_deterministic_answer" ∷ "action_ready_with_knowledge_evidence"
    ∷ "action_resolve_unavailable" ∷ "action_unavailable_with_knowledge_evidence"
    ∷ "adapter_report_scope_error" ∷ "adapter_report_scope_match_error"
    ∷ "adapter_report_scope_products_error" ∷ "alignment_remediation_limit"
    ∷ "alignment_replan_failed" ∷ "alignment_return_clarification"
    ∷ "alignment_return_clarification_failed" ∷ "alignment_return_unable"
    ∷ "alignment_verifier_failed" ∷ "ambiguous_action_resolve" ∷ "ambiguous_request"
    ∷ "answerability_missing_evidence" ∷ "compliant_product_request" ∷ "customer_service_request"
    ∷ "direct_human_handoff" ∷ "direct_send_command_matched"
    ∷ "document_context_empty_after_sanitization" ∷ "document_context_missing"
    ∷ "document_context_not_found" ∷ "document_mcp_channel_forbidden" ∷ "document_mcp_disabled"
    ∷ "document_mcp_error" ∷ "document_mcp_policy_forbidden" ∷ "empty_message" ∷ "empty_query"
    ∷ "handoff_requested" ∷ "insufficient_evidence" ∷ "intent_gate_not_knowledge_like"
    ∷ "internal_error" ∷ "knowledge_answer_composer" ∷ "knowledge_evidence_available"
    ∷ "material_pack_option_confirmation_required" ∷ "missing_action_intent" ∷ "missing_resolve_ref"
    ∷ "no_candidate_question_overlap" ∷ "no_match" ∷ "no_reply" ∷ "product_list_evidence_missing"
    ∷ "qa_entry_corpus_empty" ∷ "qa_entry_corpus_invalid" ∷ "qa_entry_parse_error"
    ∷ "question_recall_hit" ∷ "report_period_metadata_available" ∷ "sales_mention_unavailable"
    ∷ "send_scope_conflict" ∷ "smalltalk_composer" ∷ "smalltalk_requires_composer"
    ∷ "t0_human_support_required" ∷ "composer_not_available" ∷ "composer_output_rejected"
    ∷ "expected_or_target_return" ∷ "principal_or_risk_guarantee" ∷ "peer_or_competitor_comparison"
    ∷ "private_contact_request" ∷ "contract_or_restricted_document" ∷ "restricted_internal_document"
    ∷ "fee_waiver_request" ∷ "qualified_investor_or_threshold" ∷ "unrelated_request" ∷ "unknown"
    ∷ "unsupported_action_intent" ∷ []

abbrev pub direct_audit_reason_codes : List String
direct_audit_reason_codes =
    "compliant_product_request" ∷ "customer_service_request" ∷ "expected_or_target_return"
    ∷ "principal_or_risk_guarantee" ∷ "peer_or_competitor_comparison" ∷ "private_contact_request"
    ∷ "contract_or_restricted_document" ∷ "restricted_internal_document" ∷ "fee_waiver_request"
    ∷ "qualified_investor_or_threshold" ∷ "unrelated_request" ∷ "unknown" ∷ "ambiguous_request"
    ∷ "direct_human_handoff" ∷ "no_reply" ∷ "knowledge_answer_composer" ∷ "smalltalk_composer"
    ∷ "composer_not_available" ∷ "composer_output_rejected" ∷ "insufficient_evidence" ∷ []

abbrev pub direct_audit_purposes : List String
direct_audit_purposes =
    "message" ∷ "request_id" ∷ "request" ∷ "reply" ∷ "evidence" ∷ "directive" ∷ "plan"
    ∷ "planner_input" ∷ "planner_output" ∷ "composer_input" ∷ "composer_output" ∷ "verifier_input"
    ∷ "verifier_output" ∷ "approved_selector_input" ∷ "approved_selector_output"
    ∷ "document_selector_input" ∷ "document_selector_output" ∷ []
