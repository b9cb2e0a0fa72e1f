-- ===== src/Coordinator/Consistency/Preparations.antt =====
-- What a preparation of feedback (`prepare_feedback_candidate` of coordinator_feedback.py) names.
use market_support_crewai_ag.Prelude.{
  Option-cases, ap, arith, bool_Eq, eq_iff, inl, inr, leb, length, list_Eq, nat_Eq, option_Eq,
  pair_Eq, some, string_Eq, subst, triple_Eq, ℕ, ◌≡◌, ◌≢◌,
}
use market_support_crewai_ag.Coordinator.Config.{CoordinatorConfig}
use market_support_crewai_ag.Coordinator.Consistency.Feedbacks.{NamesRequest}
use market_support_crewai_ag.Coordinator.Effects.{prepare_effect_transitions}
use market_support_crewai_ag.Coordinator.Feedback.{
  Preparation, existing_preparation, lookup, new_preparation, prepare_feedback_candidate,
  replayed_receipt, resolve_feedback_record, resolved,
}
use market_support_crewai_ag.Coordinator.Hashing.{Hashing}
use market_support_crewai_ag.Coordinator.Reservations.{Readings}
use market_support_crewai_ag.Errors.{
  >>=-eq-ok, conversation_state_changed, feedback_store_unavailable, ok, ok-injective, or_raise,
  raise_if, some-injective,
}
use market_support_crewai_ag.FrozenMap.{get}
use market_support_crewai_ag.Identity.{
  ConversationStateKey, pair_Repr, scene_Eq, state_key_Eq, state_key_Repr, string_Repr, triple_Repr,
}
use market_support_crewai_ag.Records.{
  CompleteIssuedResponseRecord, FeedbackPreparation, FeedbackReceipt, PreparedFeedback,
  PreparedFeedbackTokenRecord, issued_found, prepared,
}
use market_support_crewai_ag.Root.{CoordinatorStateRoot}
use market_support_crewai_ag.Schemas.{
  ActionFeedbackRequest, execution_type_Eq, reply_kind_Eq, status_Eq,
}

resolved-lookup :
    (root : CoordinatorStateRoot) (state_key : ConversationStateKey)
    (feedback : ActionFeedbackRequest) (issued r : CompleteIssuedResponseRecord)
    → resolve_feedback_record root state_key feedback ≡ ok issued
    → lookup root state_key feedback.response_id ≡ issued_found r
    → r.request_id ≡ feedback.request_id
unfolding resolve_feedback_record
resolved-lookup root state_key feedback issued r resolved_ok found =
    let answered : resolved feedback (issued_found r) ≡ ok issued = rw found at resolved_ok in
    ground (arith, answered, eq_iff r.request_id feedback.request_id)

prepared-injective : {p q : PreparedFeedback} → prepared p ≡ prepared q → p ≡ q
prepared-injective h = cc

module _ (hashing : Hashing) (root : CoordinatorStateRoot) (state_key : ConversationStateKey)
    (feedback : ActionFeedbackRequest) (issued : CompleteIssuedResponseRecord)
    (config : CoordinatorConfig) (now : Readings) (created_ns : ℕ)
    (next : CoordinatorStateRoot) where
  -- a replay and a repeated preparation publish nothing
  replayed_receipt-none :
      (preparation : FeedbackPreparation) (receipt : FeedbackReceipt)
      → replayed_receipt hashing root state_key feedback receipt ≢ ok (some next, preparation)
  unfolding replayed_receipt
  replayed_receipt-none preparation receipt done = ground arith

  existing_preparation-none :
      (preparation : FeedbackPreparation) (token : PreparedFeedbackTokenRecord)
      → existing_preparation hashing root state_key feedback token ≢ ok (some next, preparation)
  unfolding existing_preparation
  existing_preparation-none preparation token done = ground arith

  pub prepare_feedback_candidate-new :
      (preparation : FeedbackPreparation)
      → prepare_feedback_candidate hashing root state_key feedback issued config now created_ns
        ≡ ok (some next, preparation)
      → new_preparation hashing root state_key feedback issued config now created_ns
        ≡ ok (some next, preparation)
  unfolding prepare_feedback_candidate
  prepare_feedback_candidate-new preparation done =
      elim (Option-cases (get (state_key, feedback.feedback_id) root.feedback_receipts)) [
        | inr (receipt, found) ↦
            absurd (replayed_receipt-none preparation receipt (rw found at done))
        | inl absent ↦
            let later = rw absent at done in
            elim (Option-cases
              (get (state_key, feedback.feedback_id) root.prepared_feedback_tokens)) [
                | inr (token, found) ↦
                    absurd (existing_preparation-none preparation token (rw found at later))
                | inl new ↦ rw new at later
              ]
      ]

  new_preparation-NamesRequest :
      (p : PreparedFeedback)
      → resolve_feedback_record root state_key feedback ≡ ok issued
      → new_preparation hashing root state_key feedback issued config now created_ns
        ≡ ok (some next, prepared p)
      → NamesRequest next p
  unfolding new_preparation lookup
  new_preparation-NamesRequest p resolved_ok done =
      let (_, _, h1) =
        >>=-eq-ok
          (raise_if (leb config.issued_response_capacity (length root.prepared_feedback_tokens))
            feedback_store_unavailable)
          _ done in
      let (revision, _, h2) =
        >>=-eq-ok (or_raise (get state_key root.state_revisions) conversation_state_changed) _ h1 in
      let (transitions, _, h3) = >>=-eq-ok (prepare_effect_transitions issued feedback) _ h2 in
      let made = ok-injective h3 in
      let next_is = some-injective (ap (λ (x : Preparation). x.0) made) in
      let p_is = prepared-injective (ap (λ (x : Preparation). x.1) made) in
      subst (λ (x : CoordinatorStateRoot). NamesRequest x p) next_is
        (subst (NamesRequest root) p_is
          (λ r found. resolved-lookup root state_key feedback issued r resolved_ok found))

  -- Feedback that a call newly prepares names the request of the response that it is about, in the
  -- root that the call makes: the condition under which its commit there keeps the root consistent.
  pub prepare_feedback_candidate-NamesRequest :
      (p : PreparedFeedback)
      → resolve_feedback_record root state_key feedback ≡ ok issued
      → prepare_feedback_candidate hashing root state_key feedback issued config now created_ns
        ≡ ok (some next, prepared p)
      → NamesRequest next p
  prepare_feedback_candidate-NamesRequest p resolved_ok done =
      new_preparation-NamesRequest p resolved_ok (prepare_feedback_candidate-new (prepared p) done)
