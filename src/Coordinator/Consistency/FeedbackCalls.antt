-- ===== src/Coordinator/Consistency/FeedbackCalls.antt =====
-- The invariant across the feedback calls of the coordinator (src/market_support_crewai_agent/runtime/
-- state/transaction_coordinator.py).
use market_support_crewai_ag.Prelude.{
  Bool-cases, Option, [], ap, bool_Eq, inl, inr, leb, length, list_Eq, nat_Eq, option_Eq, pair_Eq,
  some, string_Eq, subst, triple_Eq, ℕ, ◌∷◌, ◌≡◌,
}
use market_support_crewai_ag.Coordinator.Config.{CoordinatorConfig}
use market_support_crewai_ag.Coordinator.Consistency.{IsConsistent}
use market_support_crewai_ag.Coordinator.Consistency.Calls.{cleanup_locked-IsConsistent, published}
use market_support_crewai_ag.Coordinator.Consistency.Feedbacks.{
  NamesRequest, commit_feedback_candidate-IsConsistent,
}
use market_support_crewai_ag.Coordinator.Consistency.Preparations.{prepare_feedback_candidate-new}
use market_support_crewai_ag.Coordinator.Consistency.Publications.{continue-IsConsistent}
use market_support_crewai_ag.Coordinator.Effects.{prepare_effect_transitions}
use market_support_crewai_ag.Coordinator.Feedback.{
  Preparation, commit_feedback_candidate, drop_prepared_token_candidate, new_preparation,
  prepare_feedback_candidate, requires_prepared_token_drop, resolve_feedback_record,
}
use market_support_crewai_ag.Coordinator.Hashing.{Hashing}
use market_support_crewai_ag.Coordinator.Reservations.{Readings}
use market_support_crewai_ag.Coordinator.Transactions.{
  CallInputs, Coordinator, cleanup_locked, commit_feedback, continue, lift, prepare_feedback,
  publish, publish_some, pure,
}
use market_support_crewai_ag.Errors.{
  >>=-eq-ok, Error, Result-cases, conversation_state_changed, err, feedback_store_unavailable, ok,
  ok-injective, or_raise, raise_if, some-injective,
}
use market_support_crewai_ag.FrozenMap.{get}
use market_support_crewai_ag.Identity.{
  ConversationStateKey, pair_Repr, scene_Eq, state_key_Eq, state_key_Repr, string_Repr, triple_Repr,
}
use market_support_crewai_ag.Records.{
  CompleteIssuedResponseRecord, FeedbackCommitResult, FeedbackPreparation, PreparedFeedback,
}
use market_support_crewai_ag.Root.{CoordinatorStateRoot, feedback_commit, feedback_prepare}
use market_support_crewai_ag.Schemas.{
  ActionFeedbackRequest, execution_type_Eq, reply_kind_Eq, status_Eq,
}

module _ (hashing : Hashing) (root : CoordinatorStateRoot) (state_key : ConversationStateKey)
    (feedback : ActionFeedbackRequest) (issued : CompleteIssuedResponseRecord)
    (config : CoordinatorConfig) (now : Readings) (created_ns : ℕ) (next : CoordinatorStateRoot)
    (preparation : FeedbackPreparation) (h : IsConsistent root) where
  new_preparation-IsConsistent :
      new_preparation hashing root state_key feedback issued config now created_ns
        ≡ ok (some next, preparation)
      → IsConsistent next
  unfolding new_preparation
  new_preparation-IsConsistent done =
      let (_, _, h1) =
        >>=-eq-ok
          (raise_if (leb config.issued_response_capacity (length root.prepared_feedback_tokens))
            feedback_store_unavailable)
          _ done in
      let (revision, _, h2) =
        >>=-eq-ok (or_raise (get state_key root.state_revisions) conversation_state_changed) _ h1 in
      let (transitions, _, h3) = >>=-eq-ok (prepare_effect_transitions issued feedback) _ h2 in
      let made =
        some-injective
          (ap (λ (x : Option CoordinatorStateRoot × FeedbackPreparation). x.0) (ok-injective h3)) in
      subst IsConsistent made h

  prepare_feedback_candidate-IsConsistent :
      prepare_feedback_candidate hashing root state_key feedback issued config now created_ns
        ≡ ok (some next, preparation)
      → IsConsistent next
  prepare_feedback_candidate-IsConsistent done = new_preparation-IsConsistent (
      prepare_feedback_candidate-new hashing root state_key feedback issued config now created_ns
        next preparation done)

drop_prepared_token_candidate-IsConsistent :
    (root : CoordinatorStateRoot) (p : PreparedFeedback)
    → IsConsistent root
    → IsConsistent (drop_prepared_token_candidate root p)
unfolding drop_prepared_token_candidate
drop_prepared_token_candidate-IsConsistent root p h = h

module _ (inputs : CallInputs) (hashing : Hashing) (c : Coordinator) (h : IsConsistent c.root) where
  prepare_issued-IsConsistent :
      (state_key : ConversationStateKey) (feedback : ActionFeedbackRequest) (b : Coordinator)
      (issued : CompleteIssuedResponseRecord)
      → IsConsistent b.root
      → IsConsistent
          (continue
            (prepare_feedback_candidate hashing b.root state_key feedback issued b.config inputs.now
              inputs.created_ns)
            (λ (x : Preparation) (d : Coordinator).
              continue
                (publish_some
                  (inputs.transaction_id 1)
                  feedback_prepare
                  (some state_key)
                  (state_key ∷ [])
                  x.0
                  d).0
                (λ _. pure x.1)
                (publish_some
                  (inputs.transaction_id 1)
                  feedback_prepare
                  (some state_key)
                  (state_key ∷ [])
                  x.0
                  d).1)
            b).1.root
  prepare_issued-IsConsistent state_key feedback b issued consistent =
      elim (Result-cases (
        prepare_feedback_candidate hashing b.root state_key feedback issued b.config inputs.now
          inputs.created_ns)) [
            | inr (e, refused) ↦ rw refused consistent
            | inl ((candidate, preparation), made) ↦ rw made (
                published (inputs.transaction_id 1) feedback_prepare (some state_key)
                  (state_key ∷ []) candidate (ok preparation) b consistent
                  (λ next same.
                    prepare_feedback_candidate-IsConsistent hashing b.root state_key feedback issued
                      b.config inputs.now inputs.created_ns next preparation consistent
                      (rw same at made)))
          ]

  pub prepare_feedback-IsConsistent :
      (state_key : ConversationStateKey) (feedback : ActionFeedbackRequest)
      → IsConsistent (prepare_feedback inputs hashing state_key feedback c).1.root
  unfolding prepare_feedback
  prepare_feedback-IsConsistent state_key feedback =
      let cleaned =
        (cleanup_locked inputs.cleanup_ns inputs.cleanup_ms (inputs.transaction_id 0) c).1 in
      let kept =
        cleanup_locked-IsConsistent inputs.cleanup_ns inputs.cleanup_ms (inputs.transaction_id 0) c
          h in
      continue-IsConsistent
        (cleanup_locked inputs.cleanup_ns inputs.cleanup_ms (inputs.transaction_id 0))
        (λ _ d.
          continue (resolve_feedback_record d.root state_key feedback)
            (λ (issued : CompleteIssuedResponseRecord) (f : Coordinator).
              continue
                (prepare_feedback_candidate hashing f.root state_key feedback issued f.config
                  inputs.now inputs.created_ns)
                (λ (x : Preparation) (g : Coordinator).
                  continue
                    (publish_some (inputs.transaction_id 1) feedback_prepare (some state_key)
                      (state_key ∷ []) x.0 g).0
                    (λ _. pure x.1)
                    (publish_some (inputs.transaction_id 1) feedback_prepare (some state_key)
                      (state_key ∷ []) x.0 g).1)
                f)
            d)
        c kept
        (λ _ _. elim (Result-cases (resolve_feedback_record cleaned.root state_key feedback)) [
          | inr (e, refused) ↦ rw refused kept
          | inl (issued, found) ↦
              rw found (prepare_issued-IsConsistent state_key feedback cleaned issued kept)
        ])

  dropped-IsConsistent :
      (p : PreparedFeedback) (e : Error)
      → IsConsistent
          (continue
            (publish
              (inputs.transaction_id 0)
              feedback_commit
              (some p.state_key)
              (p.state_key ∷ [])
              (drop_prepared_token_candidate c.root p)
              c).0
            (λ _. lift {A = FeedbackCommitResult} (err e))
            (publish
              (inputs.transaction_id 0)
              feedback_commit
              (some p.state_key)
              (p.state_key ∷ [])
              (drop_prepared_token_candidate c.root p)
              c).1).1.root
  dropped-IsConsistent p e =
      published (inputs.transaction_id 0) feedback_commit (some p.state_key) (p.state_key ∷ [])
        (some (drop_prepared_token_candidate c.root p)) (err e) c h
        (λ next same.
          subst IsConsistent (some-injective same)
            (drop_prepared_token_candidate-IsConsistent c.root p h))

  pub commit_feedback-IsConsistent :
      (p : PreparedFeedback)
      → NamesRequest c.root p
      → IsConsistent (commit_feedback inputs hashing p c).1.root
  unfolding commit_feedback
  commit_feedback-IsConsistent p names =
      elim (Result-cases (
        commit_feedback_candidate hashing p inputs.now.monotonic_ns inputs.now.epoch_ms c.config
          c.root)) [
            | inl ((candidate, result), made) ↦ rw made (
                published (inputs.transaction_id 0) feedback_commit (some p.state_key)
                  (p.state_key ∷ []) (some candidate) (ok result) c h
                  (λ next same. subst IsConsistent (some-injective same) (
                    commit_feedback_candidate-IsConsistent hashing p inputs.now.monotonic_ns
                      inputs.now.epoch_ms c.config c.root candidate result h names made)))
            | inr (e, refused) ↦ elim (Bool-cases (requires_prepared_token_drop e)) [
              | inl drops ↦ rw refused (rw drops (dropped-IsConsistent p e))
              | inr keeps ↦ rw refused (rw keeps h)
            ]
          ]
