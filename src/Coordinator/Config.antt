-- ===== src/Coordinator/Config.antt =====
-- src/market_support_crewai_agent/runtime/state/coordinator_config.py
use market_support_crewai_ag.Prelude.{
  bool_Eq, list_Eq, ltb, nat_Eq, option_Eq, pair_Eq, string_Eq, triple_Eq, ℕ, ◌*◌, ◌+◌, ◌||◌,
}
use market_support_crewai_ag.Errors.{Result, config_error, ok, raise_if, ◌>>◌}
use market_support_crewai_ag.Identity.{
  pair_Repr, scene_Eq, state_key_Eq, state_key_Repr, string_Repr, triple_Repr,
}
use market_support_crewai_ag.Schemas.{execution_type_Eq, reply_kind_Eq, status_Eq}

pub record CoordinatorConfig : Type 0 where
  pub issued_response_capacity : ℕ
  pub conversation_max_sessions : ℕ
  pub feedback_receipt_capacity : ℕ
  pub conversation_ttl_ms : ℕ
  pub conversation_max_messages : ℕ
  pub issued_ttl_ns : ℕ
  pub issued_pending_ttl_ns : ℕ
  pub state_revision_capacity : ℕ

-- The arguments are settings that are already known to be non-negative.
pub record ConfigArguments : Type 0 where
  pub issued_response_capacity : ℕ
  pub conversation_max_sessions : ℕ
  pub feedback_receipt_capacity : ℕ
  pub conversation_ttl_seconds : ℕ
  pub conversation_max_messages : ℕ
  pub issued_response_ttl_seconds : ℕ
  pub issued_response_pending_ttl_seconds : ℕ

unfoldable pub build_coordinator_config : ConfigArguments → Result CoordinatorConfig
build_coordinator_config a = do
  raise_if (ltb a.issued_response_capacity 1)
      (config_error "issued_response_capacity must be positive")
  raise_if (ltb a.conversation_max_sessions 1)
      (config_error "conversation_max_sessions must be positive")
  raise_if (ltb a.feedback_receipt_capacity a.issued_response_capacity)
      (config_error "feedback_receipt_capacity must cover issued_response_capacity")
  raise_if (ltb a.conversation_ttl_seconds 1 || ltb a.conversation_max_messages 1)
      (config_error "conversation retention must be positive")
  raise_if (ltb a.issued_response_ttl_seconds 60 || ltb a.issued_response_pending_ttl_seconds 5)
      (config_error "issued response retention is below the contract minimum")
  raise_if (ltb a.issued_response_ttl_seconds a.issued_response_pending_ttl_seconds)
      (config_error "issued pending retention cannot exceed complete retention")
  ok (record {
    issued_response_capacity = a.issued_response_capacity;
    conversation_max_sessions = a.conversation_max_sessions;
    feedback_receipt_capacity = a.feedback_receipt_capacity;
    conversation_ttl_ms = a.conversation_ttl_seconds * 1000;
    conversation_max_messages = a.conversation_max_messages;
    issued_ttl_ns = a.issued_response_ttl_seconds * 1000000000;
    issued_pending_ttl_ns = a.issued_response_pending_ttl_seconds * 1000000000;
    state_revision_capacity = a.conversation_max_sessions + a.issued_response_capacity + 5000 + 1;
  })
