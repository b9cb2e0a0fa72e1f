-- ===== src/Records.antt =====
-- The records that the reply state keeps and hands out:
-- src/market_support_crewai_agent/runtime/state/conversation_records.py, effect_records.py and
-- transaction_records.py. Contract versions are constants of their types and are left out.
use market_support_crewai_ag.Prelude.{Bool, List, Option, String, ℕ}
use market_support_crewai_ag.Audit.{SanitizedAuditCommitProposal}
use market_support_crewai_ag.Identity.{ConversationStateKey}
use market_support_crewai_ag.Schemas.{ActionExecutionStatus, ActionExecutionType, ReplyResponse}
use market_support_crewai_ag.Text.{Bytes}

pub data Role : Type 0 where
  user assistant : Role

pub record StateRevisionRecord : Type 0 where
  pub revision_epoch : Bytes
  pub revision : ℕ
  pub created_at_monotonic_ns : ℕ
  pub updated_at_monotonic_ns : ℕ
  pub expires_at_monotonic_ns : ℕ

pub record ConversationTurnRecord : Type 0 where
  pub role : Role
  pub text : String
  pub ordinal : ℕ
  pub created_at_epoch_ms : ℕ
  pub pol1 : String
  pub par1 : String
  pub grh1 : String
  pub bsh1 : String
  pub reply_kind : Option String
  pub clarification_ref : Option String

pub data ClarificationKind : Type 0 where
  material_pack_option report_scope destination other : ClarificationKind

pub data ClarificationTopic : Type 0 where
  material_pack weekly_report monthly_report : ClarificationTopic

pub record PendingClarificationRecord : Type 0 where
  pub clarification_ref : String
  pub kind : ClarificationKind
  pub slots : List String
  pub question : String
  pub topic : Option ClarificationTopic
  pub originating_turn_ordinal : ℕ
  pub created_at_epoch_ms : ℕ
  pub pol1 : String
  pub par1 : String
  pub grh1 : String
  pub bsh1 : String

pub record UserTurnProposal : Type 0 where
  pub text : String

pub record AssistantTurnProposal : Type 0 where
  pub text : String
  pub reply_kind : String
  pub clarification_requested : Bool

pub record PendingClarificationProposal : Type 0 where
  pub kind : ClarificationKind
  pub slots : List String
  pub question : String
  pub topic : Option ClarificationTopic

pub record PendingIssuedResponseRecord : Type 0 where
  pub state_key : ConversationStateKey
  pub request_id : String
  pub request_hash : String
  pub replay_eligible : Bool
  pub owner_token : Bytes
  pub revision_epoch : Bytes
  pub reserved_state_revision : ℕ
  pub created_at_epoch_ms : ℕ
  pub created_at_monotonic_ns : ℕ
  pub expires_at_monotonic_ns : ℕ

pub record IssuedEffect : Type 0 where
  pub effect_key : String
  pub effect_type : ActionExecutionType
  pub action_id : Option String
  pub resolve_ref : Option String
  pub material_pack_option : Option String
  pub period : Option String
  pub report_date : Option String
  pub status : Option ActionExecutionStatus
  pub artifact_ref : Option String
  pub status_history : List ActionExecutionStatus

pub record FeedbackReceipt : Type 0 where
  pub receipt_id : String
  pub state_key : ConversationStateKey
  pub feedback_id : String
  pub feedback_hash : String
  pub response_id : String
  pub issued_record_revision : ℕ
  pub stored : ℕ
  pub created_at_epoch_ms : ℕ
  pub created_at_monotonic_ns : ℕ
  pub expires_at_monotonic_ns : ℕ

pub record CompleteIssuedResponseRecord : Type 0 where
  pub state_key : ConversationStateKey
  pub request_id : String
  pub request_hash : String
  pub replay_eligible : Bool
  pub revision_epoch : Bytes
  pub committed_state_revision : ℕ
  pub record_revision : ℕ
  pub response : ReplyResponse
  pub effects : List IssuedEffect
  pub receipts : List FeedbackReceipt
  pub issued_at_epoch_ms : ℕ
  pub completed_at_monotonic_ns : ℕ
  pub expires_at_monotonic_ns : ℕ
  pub pol1 : String
  pub par1 : String
  pub grh1 : String
  pub bsh1 : String

-- IssuedResponseRecordV1; the constructor is its `phase`
pub data IssuedResponseRecord : Type 0 where
  pending : PendingIssuedResponseRecord → IssuedResponseRecord
  complete : CompleteIssuedResponseRecord → IssuedResponseRecord

pub record PreparedEffectTransition : Type 0 where
  pub effect_key : String
  pub effect_type : ActionExecutionType
  pub expected_status : Option ActionExecutionStatus
  pub requested_status : ActionExecutionStatus
  pub expected_artifact_ref : Option String
  pub requested_artifact_ref : Option String
  pub is_noop : Bool

pub record PreparedFeedback : Type 0 where
  pub state_key : ConversationStateKey
  pub feedback_id : String
  pub feedback_hash : String
  pub request_id : String
  pub response_id : String
  pub commit_token : Bytes
  pub revision_epoch : Bytes
  pub expected_state_revision : ℕ
  pub expected_issued_record_revision : ℕ
  pub transitions : List PreparedEffectTransition
  pub expires_at_monotonic_ns : ℕ

pub record FeedbackReceiptReplay : Type 0 where
  pub state_key : ConversationStateKey
  pub feedback_id : String
  pub feedback_hash : String
  pub request_id : String
  pub response_id : String
  pub receipt_id : String
  pub issued_record_revision : ℕ

pub data FeedbackPreparation : Type 0 where
  prepared : PreparedFeedback → FeedbackPreparation
  receipt_replay : FeedbackReceiptReplay → FeedbackPreparation

pub record PreparedFeedbackTokenRecord : Type 0 where
  pub preparation : PreparedFeedback
  pub created_at_monotonic_ns : ℕ

pub data IssuedResponseLookup : Type 0 where
  issued_found : CompleteIssuedResponseRecord → IssuedResponseLookup
  issued_not_found : IssuedResponseLookup
  issued_identity_mismatch : IssuedResponseLookup

pub record FeedbackCommitResult : Type 0 where
  pub receipt_id : String
  pub stored : ℕ
  pub replayed : Bool

pub record ActionLedgerRecord : Type 0 where
  pub state_key : ConversationStateKey
  pub response_id : String
  pub action_id : String
  pub action_type : ActionExecutionType
  pub status : ActionExecutionStatus
  pub artifact_ref : Option String
  pub status_revision : ℕ
  pub received_at_epoch_ms : ℕ
  pub expires_at_monotonic_ns : ℕ
  pub pol1 : String
  pub par1 : String
  pub grh1 : String
  pub bsh1 : String

pub record TurnAdmissionSnapshot : Type 0 where
  pub state_key : ConversationStateKey
  pub par1 : String
  pub grh1 : String
  pub bsh1 : String
  pub ledger_rows : List ActionLedgerRecord
  pub turns : List ConversationTurnRecord
  pub pending_clarification : Option PendingClarificationRecord
  pub revision_epoch : Bytes
  pub state_revision : ℕ
  pub snapshot_at_epoch_ms : ℕ
  pub snapshot_at_monotonic_ns : ℕ
  pub pending_reply : Bool

pub record NewReplyReservation : Type 0 where
  pub state_key : ConversationStateKey
  pub request_id : String
  pub request_hash : String
  pub replay_eligible : Bool
  pub owner_token : Bytes
  pub revision_epoch : Bytes
  pub state_revision : ℕ

pub record CompletedReplyReplay : Type 0 where
  pub state_key : ConversationStateKey
  pub request_id : String
  pub request_hash : String
  pub response : ReplyResponse
  pub issued_at_epoch_ms : ℕ
  pub issued_record_revision : ℕ

pub data ReservationResult : Type 0 where
  new_reservation : NewReplyReservation → ReservationResult
  completed_replay : CompletedReplyReplay → ReservationResult

pub record ReplyCommitProposal : Type 0 where
  pub state_key : ConversationStateKey
  pub request_id : String
  pub request_hash : String
  pub replay_eligible : Bool
  pub owner_token : Bytes
  pub expected_revision_epoch : Bytes
  pub expected_state_revision : ℕ
  pub response : ReplyResponse
  pub pol1 : String
  pub par1 : String
  pub grh1 : String
  pub bsh1 : String
  pub user_turn : UserTurnProposal
  pub assistant_turn : AssistantTurnProposal
  pub clarification : Option PendingClarificationProposal
  pub audit : SanitizedAuditCommitProposal

-- `record.state_key`, `.request_hash`, `.replay_eligible` and `.expires_at_monotonic_ns` of either
-- phase
unfoldable pub issued_state_key : IssuedResponseRecord → ConversationStateKey
issued_state_key (pending r) = r.state_key
issued_state_key (complete r) = r.state_key

unfoldable pub issued_request_hash : IssuedResponseRecord → String
issued_request_hash (pending r) = r.request_hash
issued_request_hash (complete r) = r.request_hash

unfoldable pub issued_replay_eligible : IssuedResponseRecord → Bool
issued_replay_eligible (pending r) = r.replay_eligible
issued_replay_eligible (complete r) = r.replay_eligible

unfoldable pub issued_expires : IssuedResponseRecord → ℕ
issued_expires (pending r) = r.expires_at_monotonic_ns
issued_expires (complete r) = r.expires_at_monotonic_ns
