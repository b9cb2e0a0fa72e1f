-- ===== src/Root.antt =====
-- CoordinatorStateRootV1 and the journal
-- (src/market_support_crewai_agent/runtime/state/coordinator_state.py).
pub mod Orders
pub mod Validation
pub mod Ordered
use market_support_crewai_ag.Prelude.{
  List, Option, String, [], bool_Eq, list_Eq, nat_Eq, option_Eq, pair_Eq, string_Eq, triple_Eq, ℕ,
}
use market_support_crewai_ag.Audit.{AuditRecord}
use market_support_crewai_ag.FrozenMap.{FrozenMap}
use market_support_crewai_ag.Identity.{
  ConversationStateKey, pair_Repr, scene_Eq, state_key_Eq, state_key_Repr, string_Repr, triple_Repr,
}
use market_support_crewai_ag.Records.{
  ActionLedgerRecord, ConversationTurnRecord, FeedbackReceipt, IssuedResponseRecord,
  PendingClarificationRecord, PreparedFeedbackTokenRecord, StateRevisionRecord,
}
use market_support_crewai_ag.Schemas.{execution_type_Eq, reply_kind_Eq, status_Eq}
use market_support_crewai_ag.Text.{Bytes}

-- RootRecordKeyV1: a state key, with up to two texts as code points
abbrev pub RootRecordKey : Type 0
RootRecordKey = ConversationStateKey × List (List ℕ)

abbrev pub RootOrderEntry : Type 0
RootOrderEntry = ℕ × Bytes × RootRecordKey

-- `none` stands for the epoch -1
abbrev pub SessionOrderEntry : Type 0
SessionOrderEntry = Option ℕ × Bytes × ConversationStateKey

abbrev pub IssuedKey : Type 0
IssuedKey = ConversationStateKey × String

abbrev pub ActionKey : Type 0
ActionKey = ConversationStateKey × String × String

pub record RootOrders : Type 0 where
  pub issued_expiry_order : List RootOrderEntry
  pub issued_complete_eviction_order : List RootOrderEntry
  pub conversation_expiry_order : List RootOrderEntry
  pub state_session_eviction_order : List SessionOrderEntry
  pub clarification_expiry_order : List RootOrderEntry
  pub audit_expiry_order : List RootOrderEntry
  pub audit_eviction_order : List RootOrderEntry
  pub action_ledger_expiry_order : List RootOrderEntry
  pub action_ledger_eviction_order : List RootOrderEntry
  pub feedback_receipt_expiry_order : List RootOrderEntry
  pub prepared_token_expiry_order : List RootOrderEntry
  pub state_revision_expiry_order : List RootOrderEntry
  pub state_revision_eviction_order : List RootOrderEntry

-- The thirteen order fields stand together in `orders`.
pub record CoordinatorStateRoot : Type 0 where
  pub root_revision : ℕ
  pub issued_records : FrozenMap IssuedKey IssuedResponseRecord
  pub pending_request_by_state : FrozenMap ConversationStateKey IssuedKey
  pub feedback_receipts : FrozenMap IssuedKey FeedbackReceipt
  pub prepared_feedback_tokens : FrozenMap IssuedKey PreparedFeedbackTokenRecord
  pub state_revisions : FrozenMap ConversationStateKey StateRevisionRecord
  pub response_index : FrozenMap String IssuedKey
  pub action_index : FrozenMap String ActionKey
  pub conversation_turns : FrozenMap ConversationStateKey (List ConversationTurnRecord)
  pub clarification_records : FrozenMap ConversationStateKey PendingClarificationRecord
  pub audit_records : FrozenMap IssuedKey AuditRecord
  pub action_ledger_records : FrozenMap ActionKey ActionLedgerRecord
  pub orders : RootOrders

pub data JournalOperation : Type 0 where
  reply_reserve reply_commit reply_abort feedback_prepare feedback_commit cleanup : JournalOperation

pub data JournalOutcome : Type 0 where
  staging committed rolled_back : JournalOutcome

pub record ReplyStateJournal : Type 0 where
  pub transaction_id : Bytes
  pub operation : JournalOperation
  pub initiating_state_key : Option ConversationStateKey
  pub affected_state_keys : List ConversationStateKey
  pub prior_root : CoordinatorStateRoot
  pub candidate_root : CoordinatorStateRoot
  pub outcome : JournalOutcome

abbrev pub empty_orders : RootOrders
empty_orders = record {
  issued_expiry_order = [];
  issued_complete_eviction_order = [];
  conversation_expiry_order = [];
  state_session_eviction_order = [];
  clarification_expiry_order = [];
  audit_expiry_order = [];
  audit_eviction_order = [];
  action_ledger_expiry_order = [];
  action_ledger_eviction_order = [];
  feedback_receipt_expiry_order = [];
  prepared_token_expiry_order = [];
  state_revision_expiry_order = [];
  state_revision_eviction_order = [];
}

abbrev pub empty_coordinator_root : CoordinatorStateRoot
empty_coordinator_root = record {
  root_revision = 0;
  issued_records = [];
  pending_request_by_state = [];
  feedback_receipts = [];
  prepared_feedback_tokens = [];
  state_revisions = [];
  response_index = [];
  action_index = [];
  conversation_turns = [];
  clarification_records = [];
  audit_records = [];
  action_ledger_records = [];
  orders = empty_orders;
}
