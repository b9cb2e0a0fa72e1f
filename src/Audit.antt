-- ===== src/Audit.antt =====
-- The audit proposals and records of a reply:
-- src/market_support_crewai_agent/runtime/state/audit_types.py, audit_program_records.py and
-- audit_records.py. Labels that are Literals of many texts (reason codes, program ids, error codes,
-- purposes) are texts here, and the checks of the children look them up.
pub mod Labels
pub mod Validation
pub mod Build
use market_support_crewai_ag.Prelude.{
  List, Option, String, bool_Eq, list_Eq, nat_Eq, option_Eq, pair_Eq, string_Eq, triple_Eq, ℕ,
}
use market_support_crewai_ag.Identity.{
  ConversationStateKey, Scene, direct, group, pair_Repr, scene_Eq, state_key_Eq, state_key_Repr,
  string_Repr, triple_Repr,
}
use market_support_crewai_ag.Schemas.{ReplyKind, execution_type_Eq, reply_kind_Eq, status_Eq}

pub data AuditStage : Type 0 where
  planner_intent knowledge_composer smalltalk_composer alignment_verifier
        approved_knowledge_selector document_product_selector :
      AuditStage

pub data AuditTargetSlot : Type 0 where
  planner composer selector : AuditTargetSlot

pub data AuditInvocationStatus : Type 0 where
  success validation_error output_contract_error transport_error : AuditInvocationStatus

pub data SceneContractKey : Type 0 where
  wecom_group wecom_direct scene_neutral : SceneContractKey

pub record LlmInvocationAuditProposal : Type 0 where
  pub ordinal : ℕ
  pub stage : AuditStage
  pub program_id : String
  pub target_slot : AuditTargetSlot
  pub status : AuditInvocationStatus
  pub latency_ms : ℕ
  pub input_bytes : ℕ
  pub output_bytes : Option ℕ
  pub error_code : Option String
  pub logical_attempt : ℕ
  pub transport_attempt : ℕ
  pub program_version : Option String
  pub scene_key : Option SceneContractKey
  pub scene_contract_ref : Option String
  pub model_family : Option String
  pub provider_id : Option String
  pub transport_id : Option String
  pub input_schema_version : Option String
  pub output_schema_version : Option String
  pub osh1 : Option String
  pub poh1 : Option String
  pub hph1 : Option String
  pub prh1 : Option String
  pub input_digest : Option String
  pub output_digest : Option String

pub record GroupProgramAudit : Type 0 where
  pub ordinal : ℕ
  pub stage : AuditStage
  pub program_id : String
  pub program_version : String
  pub target_slot : AuditTargetSlot
  pub scene_key : SceneContractKey
  pub scene_contract_ref : Option String
  pub model_family : String
  pub provider_id : String
  pub transport_id : String
  pub input_schema_version : String
  pub output_schema_version : String
  pub status : AuditInvocationStatus
  pub latency_ms : ℕ
  pub input_bytes : ℕ
  pub output_bytes : Option ℕ
  pub error_code : Option String
  pub osh1 : String
  pub poh1 : String
  pub hph1 : String
  pub prh1 : String
  pub input_digest : String
  pub output_digest : Option String
  pub logical_attempt : ℕ
  pub transport_attempt : ℕ

pub record DirectProgramAudit : Type 0 where
  pub ordinal : ℕ
  pub logical_attempt : ℕ
  pub transport_attempt : ℕ
  pub stage : AuditStage
  pub program_id : String
  pub program_version : String
  pub target_slot : AuditTargetSlot
  pub scene_key : SceneContractKey
  pub scene_contract_ref : Option String
  pub model_family : String
  pub provider_id : String
  pub transport_id : String
  pub input_schema_version : String
  pub output_schema_version : String
  pub status : AuditInvocationStatus
  pub latency_ms : ℕ
  pub input_bytes : ℕ
  pub output_bytes : Option ℕ
  pub error_code : Option String
  pub input_digest : String
  pub output_digest : Option String

-- DirectAuditLengthV1 and DirectDependencyCountV1
pub record LabelledCount : Type 0 where
  pub label : String
  pub count : ℕ

pub record GroupAuditCommitProposal : Type 0 where
  pub reason_code : String
  pub manifest_refs : List String
  pub program_attempts : List LlmInvocationAuditProposal

pub record DirectAuditCommitProposal : Type 0 where
  pub state_key_digest : String
  pub request_id_digest : String
  pub reason_code : String
  pub manifest_refs : List String
  pub content_digests : List (String × String)
  pub lengths : List LabelledCount
  pub dependency_counts : List LabelledCount
  pub static_registry_id : String
  pub static_registry_version : String
  pub program_attempts : List LlmInvocationAuditProposal

pub data SanitizedAuditCommitProposal : Type 0 where
  group_proposal : GroupAuditCommitProposal → SanitizedAuditCommitProposal
  direct_proposal : DirectAuditCommitProposal → SanitizedAuditCommitProposal

-- `proposal.kind`
unfoldable pub proposal_scene : SanitizedAuditCommitProposal → Scene
proposal_scene (group_proposal p) = group
proposal_scene (direct_proposal p) = direct

pub record GroupAuditRecord : Type 0 where
  pub state_key : ConversationStateKey
  pub response_id : String
  pub request_id : String
  pub reply_kind : ReplyKind
  pub reason_code : String
  pub manifest_refs : List String
  pub programs : List GroupProgramAudit
  pub created_at_epoch_ms : ℕ
  pub expires_at_monotonic_ns : ℕ

pub record DirectAuditRecord : Type 0 where
  pub state_key_digest : String
  pub response_id : String
  pub request_id_digest : String
  pub reply_kind : ReplyKind
  pub reason_code : String
  pub programs : List DirectProgramAudit
  pub content_digests : List (String × String)
  pub lengths : List LabelledCount
  pub manifest_refs : List String
  pub dependency_counts : List LabelledCount
  pub static_registry_id : String
  pub static_registry_version : String
  pub created_at_epoch_ms : ℕ
  pub expires_at_monotonic_ns : ℕ
  pub redaction_flags : List String

pub data AuditRecord : Type 0 where
  group_record : GroupAuditRecord → AuditRecord
  direct_record : DirectAuditRecord → AuditRecord

unfoldable pub audit_created : AuditRecord → ℕ
audit_created (group_record r) = r.created_at_epoch_ms
audit_created (direct_record r) = r.created_at_epoch_ms

unfoldable pub audit_expires : AuditRecord → ℕ
audit_expires (group_record r) = r.expires_at_monotonic_ns
audit_expires (direct_record r) = r.expires_at_monotonic_ns
