-- ===== src/Samples.antt =====
-- One conversation with an answered request and a pending one, for the tests.
pub mod Outcomes
use market_support_crewai_ag.Prelude.{String, [], false, none, some, true, ℕ, ◌∷◌}
use market_support_crewai_ag.Audit.{group_proposal}
use market_support_crewai_ag.Coordinator.Config.{CoordinatorConfig}
use market_support_crewai_ag.Coordinator.Hashing.{Hashing}
use market_support_crewai_ag.Coordinator.Reservations.{Readings}
use market_support_crewai_ag.Coordinator.Transactions.{Coordinator}
use market_support_crewai_ag.Identity.{ConversationStateKey, group, text, wecom}
use market_support_crewai_ag.Records.{
  CompleteIssuedResponseRecord, ConversationTurnRecord, IssuedEffect, PendingIssuedResponseRecord,
  PreparedEffectTransition, PreparedFeedback, ReplyCommitProposal, StateRevisionRecord, complete,
  material_pack_option, pending, user,
}
use market_support_crewai_ag.Root.{CoordinatorStateRoot, empty_coordinator_root}
use market_support_crewai_ag.Schemas.{
  ActionExecutionFeedback, ActionFeedbackRequest, OutboundAction, ReplyResponse, answer,
  clarification, executed, send_weekly_report, weekly_report_action, weekly_report_artifact,
}

abbrev pub group_key : ConversationStateKey
group_key = record {
  surface = wecom;
  adapter_namespace = "wecom-main";
  tenant_ref = "tenant-a";
  scene = group;
  subject_ref = "group-7";
  principal_ref = "sales-1";
}

abbrev pub other_key : ConversationStateKey
other_key = record group_key { tenant_ref = "tenant-b" }

abbrev pub test_hashing : Hashing
test_hashing = record {
  feedback_hash = λ f. f.feedback_id;
  clarification_ref_hash = λ _ _ question. question;
  feedback_receipt_id = λ _ feedback_id _ _ _. feedback_id;
}

abbrev pub test_config : CoordinatorConfig
test_config = record {
  issued_response_capacity = 5;
  conversation_max_sessions = 2;
  feedback_receipt_capacity = 5;
  conversation_ttl_ms = 1000;
  conversation_max_messages = 3;
  issued_ttl_ns = 600;
  issued_pending_ttl_ns = 50;
  state_revision_capacity = 20;
}

abbrev pub test_now : Readings
test_now = record {
  monotonic_ns = 100;
  epoch_ms = 1000;
  revision_token = 7 ∷ [];
  owner_token = 9 ∷ [];
}

abbrev pub weekly_action : OutboundAction
weekly_action = weekly_report_action (record {
  action_id = "act-1";
  resolve_ref = "ref-1";
  period = "week";
  report_date = "2026-01-02";
})

abbrev pub answered : ReplyResponse
answered = record {
  response_id = "resp-1";
  reply = record { kind = answer; text = "Here it is."; mentions = [] };
  actions = weekly_action ∷ [];
}

abbrev pub weekly_effect : IssuedEffect
weekly_effect = record {
  effect_key = "action:act-1";
  effect_type = send_weekly_report;
  action_id = some "act-1";
  resolve_ref = some "ref-1";
  material_pack_option = none;
  period = some "week";
  report_date = some "2026-01-02";
  status = some executed;
  artifact_ref = some "file-1";
  status_history = executed ∷ [];
}

abbrev pub complete_record : CompleteIssuedResponseRecord
complete_record = record {
  state_key = group_key;
  request_id = "req-1";
  request_hash = "hash-1";
  replay_eligible = true;
  revision_epoch = 7 ∷ [];
  committed_state_revision = 4;
  record_revision = 1;
  response = answered;
  effects = weekly_effect ∷ [];
  receipts = [];
  issued_at_epoch_ms = 900;
  completed_at_monotonic_ns = 90;
  expires_at_monotonic_ns = 690;
  pol1 = "p";
  par1 = "q";
  grh1 = "g";
  bsh1 = "b";
}

abbrev pub waiting_record : PendingIssuedResponseRecord
waiting_record = record {
  state_key = group_key;
  request_id = "req-2";
  request_hash = "hash-2";
  replay_eligible = true;
  owner_token = 9 ∷ [];
  revision_epoch = 7 ∷ [];
  reserved_state_revision = 4;
  created_at_epoch_ms = 950;
  created_at_monotonic_ns = 95;
  expires_at_monotonic_ns = 145;
}

abbrev pub test_revision : StateRevisionRecord
test_revision = record {
  revision_epoch = 7 ∷ [];
  revision = 4;
  created_at_monotonic_ns = 10;
  updated_at_monotonic_ns = 90;
  expires_at_monotonic_ns = 690;
}

abbrev pub turn_at : ℕ → ConversationTurnRecord
turn_at epoch_ms = record {
  role = user;
  text = "The weekly report?";
  ordinal = 0;
  created_at_epoch_ms = epoch_ms;
  pol1 = "p";
  par1 = "q";
  grh1 = "g";
  bsh1 = "b";
  reply_kind = none;
  clarification_ref = none;
}

abbrev pub weekly_execution : ActionExecutionFeedback
weekly_execution = record {
  action_type = send_weekly_report;
  status = executed;
  action_id = some "act-1";
  artifact = some (
      weekly_report_artifact (record {
        resolve_ref = some "ref-1";
        artifact_ref = some "file-1";
        period = some "week";
        report_date = some "2026-01-02";
      }));
  adapter_result = "{}";
}

abbrev pub weekly_feedback : ActionFeedbackRequest
weekly_feedback = record {
  feedback_id = "fb-1";
  request_id = "req-1";
  response_id = "resp-1";
  identity = "{}";
  executions = weekly_execution ∷ [];
}

abbrev pub weekly_transition : PreparedEffectTransition
weekly_transition = record {
  effect_key = "action:act-1";
  effect_type = send_weekly_report;
  expected_status = some executed;
  requested_status = executed;
  expected_artifact_ref = some "file-1";
  requested_artifact_ref = some "file-1";
  is_noop = true;
}

abbrev pub prepared_feedback : PreparedFeedback
prepared_feedback = record {
  state_key = group_key;
  feedback_id = "fb-1";
  feedback_hash = "fb-1";
  request_id = "req-1";
  response_id = "resp-1";
  commit_token = 3 ∷ [];
  revision_epoch = 7 ∷ [];
  expected_state_revision = 4;
  expected_issued_record_revision = 1;
  transitions = weekly_transition ∷ [];
  expires_at_monotonic_ns = 500;
}

-- two sessions; the group's has the older turn, but a pending reply
abbrev pub busy_root : CoordinatorStateRoot
busy_root = record empty_coordinator_root {
  root_revision = 8;
  issued_records =
      ((group_key, "req-1"), complete complete_record)
      ∷ ((group_key, "req-2"), pending waiting_record)
      ∷ [];
  pending_request_by_state = (group_key, (group_key, "req-2")) ∷ [];
  response_index = ("resp-1", (group_key, "req-1")) ∷ [];
  action_index = ("act-1", (group_key, "resp-1", "action:act-1")) ∷ [];
  state_revisions = (group_key, test_revision) ∷ (other_key, test_revision) ∷ [];
  prepared_feedback_tokens =
      (
        (group_key, "fb-1"),
        record { preparation = prepared_feedback; created_at_monotonic_ns = 96 },
      )
      ∷ [];
  conversation_turns =
      (other_key, turn_at 100 ∷ []) ∷ (group_key, turn_at 900 ∷ turn_at 901 ∷ []) ∷ [];
}

abbrev pub busy_coordinator : Coordinator
busy_coordinator = record {
  config = test_config;
  root = busy_root;
  last_journal = none;
  fault_hook = λ _. false;
}

abbrev pub reply_proposal : ReplyCommitProposal
reply_proposal = record {
  state_key = group_key;
  request_id = "req-2";
  request_hash = "hash-2";
  replay_eligible = true;
  owner_token = 9 ∷ [];
  expected_revision_epoch = 7 ∷ [];
  expected_state_revision = 4;
  response = record {
    response_id = "";
    reply = record { kind = answer; text = "Yes."; mentions = [] };
    actions = [];
  };
  pol1 = "p";
  par1 = "q";
  grh1 = "g";
  bsh1 = "b";
  user_turn = record { text = "And this one?" };
  assistant_turn = record { text = "Yes."; reply_kind = "answer"; clarification_requested = false };
  clarification = none;
  audit =
      group_proposal
        (record { reason_code = "ambiguous_request"; manifest_refs = []; program_attempts = [] });
}

abbrev pub test_uuid : ℕ → String
test_uuid n = "0123456789abcdef0123456789abcdef"
