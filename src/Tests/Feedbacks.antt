-- ===== src/Tests/Feedbacks.antt =====
-- The validators of a feedback at concrete inputs.
use market_support_crewai_ag.Prelude.{
  List, [], all, bool_Eq, drop, false, list_Eq, map, nat_Eq, none, option_Eq, pair_Eq, refl, some,
  string_Eq, triple_Eq, true, ◌∷◌, ◌≡◌, ◌⊎◌,
}
use market_support_crewai_ag.Alignment.{response_mode_Eq}
use market_support_crewai_ag.Coordinator.Effects.{validate_execution_set}
use market_support_crewai_ag.Coordinator.Effects.Uniqueness.{
  validate_execution_set-execution_keys_pass,
}
use market_support_crewai_ag.Coordinator.Feedback.{
  commit_feedback_candidate, drop_prepared_token_candidate, requires_prepared_token_drop,
}
use market_support_crewai_ag.Coordinator.Transactions.{
  CallInputs, Coordinator, commit_feedback, publish,
}
use market_support_crewai_ag.Coordinator.Transactions.Drops.{HasDropped, commit_feedback-refused}
use market_support_crewai_ag.Errors.{
  Error, Result, err, feedback_effect_duplicate, feedback_token_expired, ok,
}
use market_support_crewai_ag.Identity.{
  pair_Repr, scene_Eq, state_key_Eq, state_key_Repr, state_key_beq, string_Repr, triple_Repr,
}
use market_support_crewai_ag.Records.{FeedbackCommitResult}
use market_support_crewai_ag.Root.{feedback_commit}
use market_support_crewai_ag.Samples.{
  busy_coordinator, busy_root, group_key, prepared_feedback, test_config, test_hashing, test_now,
}
use market_support_crewai_ag.Samples.Outcomes.{test_inputs}
use market_support_crewai_ag.Schemas.{
  ActionExecutionFeedback, executed, execution_type_Eq, mention_sales, reply_kind_Eq, send_text,
  send_weekly_report, skipped, status_Eq, weekly_report_artifact,
}
use market_support_crewai_ag.Schemas.Feedback.{
  execution_keys_pass, execution_passes, is_iso_date, is_opaque_adapter_ref,
}
use market_support_crewai_ag.Text.{codes}

abbrev sent_report : ActionExecutionFeedback
sent_report = record {
  action_type = send_weekly_report;
  status = executed;
  action_id = some "act-0123456789abcdef0123456789abcdef";
  artifact = some (
      weekly_report_artifact (record {
        resolve_ref = some "weekly:7";
        artifact_ref = some "file-1";
        period = some "2026-W08";
        report_date = some "2026-02-28";
      }));
  adapter_result = "{}";
}

abbrev sent_text : ActionExecutionFeedback
sent_text = record {
  action_type = send_text;
  status = executed;
  action_id = none;
  artifact = none;
  adapter_result = "{}";
}

abbrev skipped_mention : ActionExecutionFeedback
skipped_mention = record sent_text { action_type = mention_sales; status = skipped }

abbrev repeated : List ActionExecutionFeedback
repeated = sent_report ∷ sent_text ∷ skipped_mention ∷ sent_report ∷ []

all_pass : all execution_passes repeated ≡ true
unfolding execution_passes codes
all_pass = refl

keys_repeat : map execution_keys_pass (drop 1 repeated ∷ repeated ∷ []) ≡ true ∷ false ∷ []
unfolding execution_keys_pass
keys_repeat = refl

dates :
    map
      (λ s. is_iso_date (codes s))
      ("2024-02-29" ∷ "2026-02-29" ∷ "0000-01-01" ∷ "2026-2-28" ∷ "2026-04-30" ∷ [])
    ≡ true ∷ false ∷ false ∷ false ∷ true ∷ []
unfolding is_iso_date codes
dates = refl

refs :
    map (λ s. is_opaque_adapter_ref (codes s)) ("weekly:7" ∷ "a..b" ∷ "a/b" ∷ "file:7" ∷ "" ∷ [])
    ≡ true ∷ false ∷ false ∷ false ∷ false ∷ []
unfolding is_opaque_adapter_ref codes
refs = refl

validate_execution_set-execution_keys_pass_example :
    validate_execution_set repeated [] ≡ err feedback_effect_duplicate
unfolding execution_keys_pass
validate_execution_set-execution_keys_pass_example =
    validate_execution_set-execution_keys_pass repeated all_pass

abbrev late_inputs : CallInputs
late_inputs = record test_inputs { now = record test_now { monotonic_ns = 500 } }

late_commit :
    commit_feedback_candidate test_hashing prepared_feedback late_inputs.now.monotonic_ns
      late_inputs.now.epoch_ms test_config busy_root
    ≡ err feedback_token_expired
unfolding commit_feedback_candidate state_key_beq
late_commit = refl

abbrev after_late_commit : Result FeedbackCommitResult × Coordinator
after_late_commit = commit_feedback late_inputs test_hashing prepared_feedback busy_coordinator

abbrev late_drop : Result (Unit {0}) × Coordinator
late_drop =
    publish (late_inputs.transaction_id 0) feedback_commit (some group_key) (group_key ∷ [])
      (drop_prepared_token_candidate busy_root prepared_feedback) busy_coordinator

commit_feedback-refused_example :
    ((requires_prepared_token_drop feedback_token_expired ≡ false)
      × ((after_late_commit.0 ≡ err feedback_token_expired)
          × ((after_late_commit.1).root ≡ busy_root)))
    ⊎ (((requires_prepared_token_drop feedback_token_expired ≡ true)
          × ((late_drop.0 ≡ ok tt)
              × ((after_late_commit.0 ≡ err feedback_token_expired)
                  × HasDropped prepared_feedback busy_root (after_late_commit.1).root)))
        ⊎ ((requires_prepared_token_drop feedback_token_expired ≡ true)
            × ((raised : Error) × (late_drop.0 ≡ err raised)
                × (after_late_commit.0 ≡ err raised)
                × ((after_late_commit.1).root ≡ busy_root))))
commit_feedback-refused_example =
    commit_feedback-refused late_inputs test_hashing prepared_feedback busy_coordinator
      feedback_token_expired late_commit
