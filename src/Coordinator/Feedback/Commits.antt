-- ===== src/Coordinator/Feedback/Commits.antt =====
-- What a commit of feedback that succeeds has checked and builds (coordinator_feedback_commit.py).
use market_support_crewai_ag.Prelude.{
  ap, arith, bool_Eq, eq_iff, leb, length, list_Eq, nat_Eq, not, option_Eq, pair_Eq, string_Eq,
  subst, triple_Eq, ℕ, ◌!=◌, ◌||◌, ◌≡◌,
}
use market_support_crewai_ag.Coordinator.Config.{CoordinatorConfig}
use market_support_crewai_ag.Coordinator.Feedback.{
  commit_feedback_candidate, fed_back_root, feedback_commit_inputs, found_record, lookup,
  new_receipt, stored_token_matches,
}
use market_support_crewai_ag.Coordinator.Hashing.{Hashing}
use market_support_crewai_ag.Errors.{
  >>=-eq-ok, conversation_state_changed, feedback_store_unavailable, feedback_token_expired,
  feedback_token_not_found, ok, ok-injective, or_raise, raise_if,
}
use market_support_crewai_ag.FrozenMap.{get}
use market_support_crewai_ag.Identity.{
  pair_Repr, scene_Eq, state_key_Eq, state_key_Repr, string_Repr, triple_Repr,
}
use market_support_crewai_ag.Records.{
  CompleteIssuedResponseRecord, FeedbackCommitResult, IssuedResponseLookup, PreparedFeedback,
  StateRevisionRecord, issued_found, issued_identity_mismatch, issued_not_found,
}
use market_support_crewai_ag.Root.{CoordinatorStateRoot}
use market_support_crewai_ag.Schemas.{execution_type_Eq, reply_kind_Eq, status_Eq}

found_record-eq :
    (o : IssuedResponseLookup) (r : CompleteIssuedResponseRecord)
    → found_record o ≡ ok r
    → o ≡ issued_found r
found_record-eq issued_not_found r h = absurd (cc)
found_record-eq issued_identity_mismatch r h = absurd (cc)
found_record-eq (issued_found c) r h = cc

-- the record that prepared feedback is committed to
abbrev pub IsInput : CoordinatorStateRoot → PreparedFeedback → CompleteIssuedResponseRecord → Type 0
IsInput root p issued =
    (lookup root p.state_key p.response_id ≡ issued_found issued)
    × (issued.record_revision ≡ p.expected_issued_record_revision)

-- what a commit of prepared feedback has checked
feedback_commit_inputs-IsInput :
    (root : CoordinatorStateRoot) (p : PreparedFeedback) (now_ns : ℕ)
    (issued : CompleteIssuedResponseRecord) (revision : StateRevisionRecord)
    → feedback_commit_inputs root p now_ns ≡ ok (issued, revision)
    → IsInput root p issued
unfolding feedback_commit_inputs
feedback_commit_inputs-IsInput root p now_ns issued revision h =
    let (_, _, h1) =
      >>=-eq-ok
        (raise_if
          (not (
            stored_token_matches p
              (get (p.state_key, p.feedback_id) root.prepared_feedback_tokens)))
          feedback_token_not_found)
        _ h in
    let (_, _, h2) =
      >>=-eq-ok (raise_if (leb p.expires_at_monotonic_ns now_ns) feedback_token_expired) _ h1 in
    let (found, at, h3) = >>=-eq-ok (found_record (lookup root p.state_key p.response_id)) _ h2 in
    let (current, _, h4) =
      >>=-eq-ok (or_raise (get p.state_key root.state_revisions) conversation_state_changed) _ h3 in
    let (_, passed, h5) =
      >>=-eq-ok
        (raise_if
          (current.revision_epoch != p.revision_epoch
            || (current.revision != p.expected_state_revision
                || found.record_revision != p.expected_issued_record_revision))
          conversation_state_changed)
        _ h4 in
    let same : (found, current) ≡ (issued, revision) = ok-injective h5 in
    subst (λ (x : CompleteIssuedResponseRecord × StateRevisionRecord). IsInput root p x.0) same
      (
        found_record-eq (lookup root p.state_key p.response_id) found at,
        ground (arith, eq_iff found.record_revision p.expected_issued_record_revision),
      )

-- a commit that succeeds builds its root from the record that the lookup finds
pub commit_feedback_candidate-some :
    (hashing : Hashing) (p : PreparedFeedback) (now_ns now_ms : ℕ) (config : CoordinatorConfig)
    (root candidate : CoordinatorStateRoot) (result : FeedbackCommitResult)
    → commit_feedback_candidate hashing p now_ns now_ms config root ≡ ok (candidate, result)
    → (issued : CompleteIssuedResponseRecord) × (revision : StateRevisionRecord) × IsInput root p
        issued
      × (fed_back_root hashing p now_ns now_ms config root issued revision ≡ candidate)
      × ((new_receipt hashing p now_ns now_ms config issued).receipt_id ≡ result.receipt_id)
unfolding commit_feedback_candidate
commit_feedback_candidate-some hashing p now_ns now_ms config root candidate result done =
    let ((found, revision), inputs, h1) = >>=-eq-ok (feedback_commit_inputs root p now_ns) _ done in
    let (_, _, h2) =
      >>=-eq-ok
        (raise_if
          (leb 64 (length found.receipts)
            || leb config.feedback_receipt_capacity (length root.feedback_receipts))
          feedback_store_unavailable)
        _ h1 in
    let stored = ok-injective h2 in
    (
      found,
      revision,
      feedback_commit_inputs-IsInput root p now_ns found revision inputs,
      ap (λ (x : CoordinatorStateRoot × FeedbackCommitResult). x.0) stored,
      ap (λ (x : CoordinatorStateRoot × FeedbackCommitResult). x.1.receipt_id) stored,
    )
