-- ===== src/Coordinator/Feedback/Replay.antt =====
-- What a committed feedback leaves behind for the next one of the same id
-- (coordinator_feedback_commit.py, coordinator_feedback_prepare.py).
use market_support_crewai_ag.Prelude.{
  String, bool_Eq, if◌then◌else◌, list_Eq, nat_Eq, none, option_Eq, pair_Eq, string_Eq, subst, sym,
  triple_Eq, ℕ, ◌!=◌, ◌+◌, ◌≡◌,
}
use market_support_crewai_ag.Coordinator.Config.{CoordinatorConfig}
use market_support_crewai_ag.Coordinator.Feedback.{
  Preparation, commit_feedback_candidate, fed_back_root, new_receipt, prepare_feedback_candidate,
  replayed_receipt,
}
use market_support_crewai_ag.Coordinator.Feedback.Commits.{commit_feedback_candidate-some}
use market_support_crewai_ag.Coordinator.Hashing.{Hashing}
use market_support_crewai_ag.Coordinator.Reservations.{Readings}
use market_support_crewai_ag.Errors.{Result, err, feedback_id_conflict, ok}
use market_support_crewai_ag.FrozenMap.Laws.{get-insert_self}
use market_support_crewai_ag.Identity.{
  pair_Repr, scene_Eq, state_key_Eq, state_key_Repr, string_Repr, triple_Repr,
}
use market_support_crewai_ag.Records.{
  CompleteIssuedResponseRecord, FeedbackCommitResult, PreparedFeedback, receipt_replay,
}
use market_support_crewai_ag.Root.{CoordinatorStateRoot}
use market_support_crewai_ag.Schemas.{
  ActionFeedbackRequest, execution_type_Eq, reply_kind_Eq, status_Eq,
}

abbrev replay_of : Hashing → PreparedFeedback → ActionFeedbackRequest → String → Result Preparation
replay_of hashing p feedback receipt_id =
    if p.feedback_hash != hashing.feedback_hash feedback
    then err feedback_id_conflict
    else ok (
      none,
      receipt_replay (record {
        state_key = p.state_key;
        feedback_id = feedback.feedback_id;
        feedback_hash = hashing.feedback_hash feedback;
        request_id = feedback.request_id;
        response_id = feedback.response_id;
        receipt_id = receipt_id;
        issued_record_revision = p.expected_issued_record_revision + 1;
      }),
    )

-- Once feedback is committed, the same feedback id is answered from its receipt: feedback with
-- the same digest gets a replay with the receipt id of the commit and prepares nothing, feedback
-- with another digest is refused as a conflict, whatever record, clocks and tokens the second
-- call has.
pub prepare-commit_feedback :
    (hashing : Hashing) (p : PreparedFeedback) (now_ns now_ms : ℕ) (config : CoordinatorConfig)
    (root candidate : CoordinatorStateRoot) (result : FeedbackCommitResult)
    (feedback : ActionFeedbackRequest) (issued : CompleteIssuedResponseRecord) (now : Readings)
    (created_ns : ℕ)
    → commit_feedback_candidate hashing p now_ns now_ms config root ≡ ok (candidate, result)
    → feedback.feedback_id ≡ p.feedback_id
    → prepare_feedback_candidate hashing candidate p.state_key feedback issued config now created_ns
      ≡ replay_of hashing p feedback result.receipt_id
unfolding commit_feedback_candidate prepare_feedback_candidate fed_back_root new_receipt
    replayed_receipt
prepare-commit_feedback hashing p now_ns now_ms config root candidate result feedback issued now
      created_ns done same =
    let (found, revision, (_, current), built, named) =
      commit_feedback_candidate-some hashing p now_ns now_ms config root candidate result done in
    let same_id : hashing.feedback_receipt_id p.state_key p.feedback_id p.feedback_hash
          p.response_id (p.expected_issued_record_revision + 1)
        ≡ result.receipt_id =
      rw (sym current) named in
    subst
      (λ (x : CoordinatorStateRoot).
        prepare_feedback_candidate hashing x p.state_key feedback issued config now created_ns
        ≡ replay_of hashing p feedback result.receipt_id)
      built (rw same (rw get-insert_self (rw current (rw same_id))))
