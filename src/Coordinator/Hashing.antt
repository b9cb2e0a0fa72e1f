-- ===== src/Coordinator/Hashing.antt =====
-- The digests that the coordinator takes from src/market_support_crewai_agent/runtime/hashing.py.
-- SHA-256 is hashlib's, so the three functions are an argument of the operations that use them.
use market_support_crewai_ag.Prelude.{String, ℕ}
use market_support_crewai_ag.Identity.{ConversationStateKey}
use market_support_crewai_ag.Schemas.{ActionFeedbackRequest}

pub record Hashing : Type 0 where
  pub feedback_hash : ActionFeedbackRequest → String
  pub clarification_ref_hash : ConversationStateKey → ℕ → String → String
  pub feedback_receipt_id : ConversationStateKey → String → String → String → ℕ → String
