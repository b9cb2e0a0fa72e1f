-- ===== src/Schemas.antt =====
-- The reply and the feedback as the reply state reads them:
-- src/market_support_crewai_agent/schemas/{reply,feedback,type_ids}.py.
pub mod Feedback
use market_support_crewai_ag.Prelude.{
  Bool, Eq, List, Option, String, arith, bool_Eq, false, list_Eq, nat_Eq, none, option_Eq, pair_Eq,
  some, string_Eq, triple_Eq, true, ◌↔◌, ◌≡◌,
}
use market_support_crewai_ag.Identity.{
  pair_Repr, scene_Eq, state_key_Eq, state_key_Repr, string_Repr, triple_Repr,
}

pub data ReplyKind : Type 0 where
  answer clarification human_handoff unable_to_answer no_reply : ReplyKind

pub data ReplyMentionType : Type 0 where
  sales : ReplyMentionType

pub data ActionExecutionStatus : Type 0 where
  executed failed skipped : ActionExecutionStatus

pub data ActionExecutionType : Type 0 where
  send_material_pack send_weekly_report send_monthly_report mention_sales send_text :
      ActionExecutionType

pub record ReplyMention : Type 0 where
  pub type : ReplyMentionType
  pub reason : Option String

pub record PrimaryReply : Type 0 where
  pub kind : ReplyKind
  pub text : String
  pub mentions : List ReplyMention

pub record SendMaterialPackAction : Type 0 where
  pub action_id : String
  pub resolve_ref : String
  pub material_pack_option : Option String

pub record SendReportAction : Type 0 where
  pub action_id : String
  pub resolve_ref : String
  pub period : String
  pub report_date : String

pub data OutboundAction : Type 0 where
  material_pack_action : SendMaterialPackAction → OutboundAction
  weekly_report_action : SendReportAction → OutboundAction
  monthly_report_action : SendReportAction → OutboundAction

pub record ReplyResponse : Type 0 where
  pub response_id : String
  pub reply : PrimaryReply
  pub actions : List OutboundAction

pub record MaterialPackFeedbackArtifact : Type 0 where
  pub resolve_ref : Option String
  pub artifact_ref : Option String
  pub option : Option String

pub record ReportFeedbackArtifact : Type 0 where
  pub resolve_ref : Option String
  pub artifact_ref : Option String
  pub period : Option String
  pub report_date : Option String

pub data ActionFeedbackArtifact : Type 0 where
  material_pack_artifact : MaterialPackFeedbackArtifact → ActionFeedbackArtifact
  weekly_report_artifact : ReportFeedbackArtifact → ActionFeedbackArtifact
  monthly_report_artifact : ReportFeedbackArtifact → ActionFeedbackArtifact

-- `adapter_result` stands for its JSON text: only `feedback_hash` reads it.
pub record ActionExecutionFeedback : Type 0 where
  pub action_type : ActionExecutionType
  pub status : ActionExecutionStatus
  pub action_id : Option String
  pub artifact : Option ActionFeedbackArtifact
  pub adapter_result : String

-- `identity` stands for its JSON text: only `feedback_hash` reads it.
pub record ActionFeedbackRequest : Type 0 where
  pub feedback_id : String
  pub request_id : String
  pub response_id : String
  pub identity : String
  pub executions : List ActionExecutionFeedback

-- `artifact.artifact_ref`
unfoldable pub artifact_ref_of : ActionFeedbackArtifact → Option String
artifact_ref_of (material_pack_artifact a) = a.artifact_ref
artifact_ref_of (weekly_report_artifact a) = a.artifact_ref
artifact_ref_of (monthly_report_artifact a) = a.artifact_ref

unfoldable pub type_of : OutboundAction → ActionExecutionType
type_of (material_pack_action a) = send_material_pack
type_of (weekly_report_action a) = send_weekly_report
type_of (monthly_report_action a) = send_monthly_report

unfoldable pub action_id_of : OutboundAction → String
action_id_of (material_pack_action a) = a.action_id
action_id_of (weekly_report_action a) = a.action_id
action_id_of (monthly_report_action a) = a.action_id

-- `action.model_copy(update={"action_id": ...})`
unfoldable pub with_action_id : String → OutboundAction → OutboundAction
with_action_id i (material_pack_action a) = material_pack_action (record a { action_id = i })
with_action_id i (weekly_report_action a) = weekly_report_action (record a { action_id = i })
with_action_id i (monthly_report_action a) = monthly_report_action (record a { action_id = i })

unfoldable pub resolve_ref_of : OutboundAction → String
resolve_ref_of (material_pack_action a) = a.resolve_ref
resolve_ref_of (weekly_report_action a) = a.resolve_ref
resolve_ref_of (monthly_report_action a) = a.resolve_ref

-- `getattr(action, "material_pack_option", None)`, and so for the other two
unfoldable pub material_pack_option_of : OutboundAction → Option String
material_pack_option_of (material_pack_action a) = a.material_pack_option
material_pack_option_of _ = none

unfoldable pub period_of : OutboundAction → Option String
period_of (material_pack_action a) = none
period_of (weekly_report_action a) = some a.period
period_of (monthly_report_action a) = some a.period

unfoldable pub report_date_of : OutboundAction → Option String
report_date_of (material_pack_action a) = none
report_date_of (weekly_report_action a) = some a.report_date
report_date_of (monthly_report_action a) = some a.report_date

abbrev pub reply_kind_eq : ReplyKind → ReplyKind → Bool
reply_kind_eq answer answer = true
reply_kind_eq clarification clarification = true
reply_kind_eq human_handoff human_handoff = true
reply_kind_eq unable_to_answer unable_to_answer = true
reply_kind_eq no_reply no_reply = true
reply_kind_eq _ _ = false

pub reply_kind_eq_iff : (a b : ReplyKind) → (reply_kind_eq a b ≡ true) ↔ (a ≡ b)
reply_kind_eq_iff a b = ground arith

instance abbrev pub reply_kind_Eq : Eq ReplyKind
reply_kind_Eq = record { same = reply_kind_eq; same_iff = reply_kind_eq_iff }

abbrev pub status_eq : ActionExecutionStatus → ActionExecutionStatus → Bool
status_eq executed executed = true
status_eq failed failed = true
status_eq skipped skipped = true
status_eq _ _ = false

pub status_eq_iff : (a b : ActionExecutionStatus) → (status_eq a b ≡ true) ↔ (a ≡ b)
status_eq_iff a b = ground arith

instance abbrev pub status_Eq : Eq ActionExecutionStatus
status_Eq = record { same = status_eq; same_iff = status_eq_iff }

abbrev pub execution_type_eq : ActionExecutionType → ActionExecutionType → Bool
execution_type_eq send_material_pack send_material_pack = true
execution_type_eq send_weekly_report send_weekly_report = true
execution_type_eq send_monthly_report send_monthly_report = true
execution_type_eq mention_sales mention_sales = true
execution_type_eq send_text send_text = true
execution_type_eq _ _ = false

pub execution_type_eq_iff : (a b : ActionExecutionType) → (execution_type_eq a b ≡ true) ↔ (a ≡ b)
execution_type_eq_iff a b = ground arith

instance abbrev pub execution_type_Eq : Eq ActionExecutionType
execution_type_Eq = record { same = execution_type_eq; same_iff = execution_type_eq_iff }
