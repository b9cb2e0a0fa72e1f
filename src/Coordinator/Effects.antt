-- ===== src/Coordinator/Effects.antt =====
-- src/market_support_crewai_agent/runtime/state/coordinator_effects.py
pub mod Keys
pub mod Status
pub mod Uniqueness
use market_support_crewai_ag.Prelude.{
  Bool, List, Option, String, [], bool_Eq, elem, false, if◌then◌else◌, list_Eq, map, nat_Eq, none,
  not, option_Eq, pair_Eq, some, string_Eq, triple_Eq, true, ◌!=◌, ◌&&◌, ◌++◌, ◌==◌, ◌||◌, ◌∷◌,
}
use market_support_crewai_ag.Coordinator.Ledger.{transition_for}
use market_support_crewai_ag.Errors.{
  Result, err, feedback_effect_conflict, feedback_effect_duplicate,
  feedback_effect_metadata_mismatch, feedback_effect_mismatch, ok, or_raise, raise_if, ◌>>=◌, ◌>>◌,
}
use market_support_crewai_ag.Identity.{
  pair_Repr, scene_Eq, state_key_Eq, state_key_Repr, string_Repr, triple_Repr,
}
use market_support_crewai_ag.Records.{
  CompleteIssuedResponseRecord, IssuedEffect, PreparedEffectTransition, material_pack_option,
}
use market_support_crewai_ag.Root.Validation.{find_effect}
use market_support_crewai_ag.Schemas.{
  ActionExecutionFeedback, ActionExecutionStatus, ActionExecutionType, ActionFeedbackArtifact,
  ActionFeedbackRequest, OutboundAction, ReplyMention, ReplyResponse, ReportFeedbackArtifact,
  action_id_of, artifact_ref_of, executed, execution_type_Eq, failed, material_pack_artifact,
  material_pack_option_of, mention_sales, monthly_report_artifact, no_reply, period_of,
  reply_kind_Eq, report_date_of, resolve_ref_of, send_material_pack, send_monthly_report, send_text,
  send_weekly_report, skipped, status_Eq, type_of, weekly_report_artifact,
}
use Prim.Native.String

-- `value` is a text that is not empty
abbrev pub non_empty : String → Bool
non_empty s = s != ""

abbrev pub action_key : String → String
action_key action_id = String.◌++◌ "action:" action_id

unfoldable pub response_effect : String → ActionExecutionType → IssuedEffect
response_effect key type = record {
  effect_key = key;
  effect_type = type;
  action_id = none;
  resolve_ref = none;
  material_pack_option = none;
  period = none;
  report_date = none;
  status = none;
  artifact_ref = none;
  status_history = [];
}

unfoldable pub action_effect : OutboundAction → IssuedEffect
unfolding action_id_of type_of resolve_ref_of material_pack_option_of period_of report_date_of
action_effect action = record {
  effect_key = action_key (action_id_of action);
  effect_type = type_of action;
  action_id = some (action_id_of action);
  resolve_ref = some (resolve_ref_of action);
  material_pack_option = material_pack_option_of action;
  period = period_of action;
  report_date = report_date_of action;
  status = none;
  artifact_ref = none;
  status_history = [];
}

unfoldable pub mention_effects : List ReplyMention → List IssuedEffect
unfolding response_effect
mention_effects [] = []
mention_effects (m ∷ ms) = response_effect "mention:sales" mention_sales ∷ mention_effects ms

unfoldable pub derive_issued_effects : ReplyResponse → List IssuedEffect
unfolding response_effect mention_effects action_effect
derive_issued_effects response =
    let text_effects =
      if response.reply.kind != no_reply && non_empty response.reply.text
      then response_effect "send_text" send_text ∷ []
      else [] in
    text_effects ++ (mention_effects response.reply.mentions ++ map action_effect response.actions)

-- The `match` of `_validate_execution_set`: the effect key of a well-formed execution.
unfoldable pub execution_set_key :
    ActionExecutionType → Option String → Option ActionFeedbackArtifact → Result String
execution_set_key send_material_pack (some action_id) (some artifact) = ok (action_key action_id)
execution_set_key send_weekly_report (some action_id) (some artifact) = ok (action_key action_id)
execution_set_key send_monthly_report (some action_id) (some artifact) = ok (action_key action_id)
execution_set_key send_text none none = ok "send_text"
execution_set_key mention_sales none none = ok "mention:sales"
execution_set_key _ _ _ = err feedback_effect_mismatch

unfoldable pub validate_execution_set :
    List ActionExecutionFeedback → List String → Result (Unit {0})
unfolding execution_set_key
validate_execution_set [] effect_keys = ok tt
validate_execution_set (e ∷ es) effect_keys = do
  effect_key ← execution_set_key e.action_type e.action_id e.artifact
  raise_if (elem effect_key effect_keys) feedback_effect_duplicate
  validate_execution_set es (effect_key ∷ effect_keys)

-- the effect key that `prepare_effect_transitions` looks up
unfoldable pub execution_effect_key : ActionExecutionFeedback → String
execution_effect_key e = elim e.action_id [
  | some action_id ↦ action_key action_id
  | none ↦ if e.action_type == mention_sales then "mention:sales" else "send_text"
]

report_matches : IssuedEffect → ReportFeedbackArtifact → Bool
report_matches effect a =
    a.resolve_ref == effect.resolve_ref
    && (a.period == effect.period
        && (a.report_date == effect.report_date && effect.material_pack_option == none))

unfoldable pub metadata_matches :
    IssuedEffect → ActionExecutionType → Option ActionFeedbackArtifact → Bool
unfolding report_matches
metadata_matches effect send_material_pack (some (material_pack_artifact a)) =
    a.resolve_ref == effect.resolve_ref
    && (a.option == effect.material_pack_option
        && (effect.period == none && effect.report_date == none))
metadata_matches effect send_weekly_report (some (weekly_report_artifact a)) =
    report_matches effect a
metadata_matches effect send_monthly_report (some (monthly_report_artifact a)) =
    report_matches effect a
metadata_matches effect send_text none = true
metadata_matches effect mention_sales none = true
metadata_matches effect _ _ = false

unfoldable pub validate_effect_metadata : IssuedEffect → ActionExecutionFeedback → Result (Unit {0})
unfolding metadata_matches
validate_effect_metadata effect execution =
    raise_if (not (metadata_matches effect execution.action_type execution.artifact))
      feedback_effect_metadata_mismatch

unfoldable pub validate_status_transition :
    Option ActionExecutionStatus
    → Option String
    → ActionExecutionStatus
    → Option String
    → Result (Unit {0})
validate_status_transition current current_artifact requested requested_artifact =
    if current == some requested && current_artifact == requested_artifact
    then ok tt
    else if current == none
    then ok tt
    else if (current == some failed || current == some skipped) && requested == executed
    then ok tt
    else err feedback_effect_conflict

abbrev pub requested_ref : Option ActionFeedbackArtifact → Option String
unfolding artifact_ref_of
requested_ref none = none
requested_ref (some a) = artifact_ref_of a

unfoldable pub prepare_transition :
    List IssuedEffect → ActionExecutionFeedback → Result PreparedEffectTransition
unfolding execution_effect_key validate_effect_metadata validate_status_transition artifact_ref_of
prepare_transition effects execution = do
  effect ← or_raise (find_effect (execution_effect_key execution) effects) feedback_effect_mismatch
  raise_if (effect.effect_type != execution.action_type) feedback_effect_mismatch
  validate_effect_metadata effect execution
  let artifact_ref = requested_ref execution.artifact
  validate_status_transition effect.status effect.artifact_ref execution.status artifact_ref
  ok (record {
    effect_key = effect.effect_key;
    effect_type = effect.effect_type;
    expected_status = effect.status;
    requested_status = execution.status;
    expected_artifact_ref = effect.artifact_ref;
    requested_artifact_ref = artifact_ref;
    is_noop = effect.status == some execution.status && effect.artifact_ref == artifact_ref;
  })

prepare_transitions :
    List IssuedEffect → List ActionExecutionFeedback → Result (List PreparedEffectTransition)
unfolding prepare_transition
prepare_transitions effects [] = ok []
prepare_transitions effects (e ∷ es) = do
  t ← prepare_transition effects e
  ts ← prepare_transitions effects es
  ok (t ∷ ts)

unfoldable pub prepare_effect_transitions :
    CompleteIssuedResponseRecord → ActionFeedbackRequest → Result (List PreparedEffectTransition)
unfolding prepare_transitions
prepare_effect_transitions issued feedback = do
  validate_execution_set feedback.executions []
  prepare_transitions issued.effects feedback.executions

unfoldable pub apply_transition : Option PreparedEffectTransition → IssuedEffect → IssuedEffect
apply_transition none effect = effect
apply_transition (some t) effect = if t.is_noop then effect else record effect {
  status = some t.requested_status;
  artifact_ref = t.requested_artifact_ref;
  status_history = effect.status_history ++ (t.requested_status ∷ []);
}

unfoldable pub apply_effect_transitions :
    List IssuedEffect → List PreparedEffectTransition → List IssuedEffect
unfolding apply_transition transition_for
apply_effect_transitions effects transitions =
    map (λ e. apply_transition (transition_for e.effect_key transitions) e) effects
