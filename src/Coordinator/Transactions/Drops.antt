-- ===== src/Coordinator/Transactions/Drops.antt =====
-- What `commit_feedback` (src/market_support_crewai_agent/runtime/state/transaction_coordinator.py)
-- does where its candidate is refused.
use market_support_crewai_ag.Prelude.{
  Bool-cases, [], bool_Eq, false, inl, inr, list_Eq, nat_Eq, none, option_Eq, pair_Eq, refl, some,
  string_Eq, subst, triple_Eq, true, ℕ, ◌+◌, ◌∷◌, ◌≡◌, ◌⊎◌,
}
use market_support_crewai_ag.Coordinator.Consistency.Publications.{
  prepare_root_for_publication-form, published_form,
}
use market_support_crewai_ag.Coordinator.Feedback.{
  commit_feedback_candidate, drop_prepared_token_candidate, requires_prepared_token_drop,
}
use market_support_crewai_ag.Coordinator.Hashing.{Hashing}
use market_support_crewai_ag.Coordinator.Retention.{
  enforce_inactive_record_capacities, prepare_root_for_publication, without_unpinned_revisions,
}
use market_support_crewai_ag.Coordinator.Transactions.{
  CallInputs, Coordinator, commit_feedback, publish,
}
use market_support_crewai_ag.Coordinator.Transactions.Publication.{publish_lem}
use market_support_crewai_ag.Errors.{Error, Result, err, ok}
use market_support_crewai_ag.FrozenMap.{get}
use market_support_crewai_ag.FrozenMap.Laws.{get-without_key_self}
use market_support_crewai_ag.Identity.{
  pair_Repr, scene_Eq, state_key_Eq, state_key_Repr, string_Repr, triple_Repr,
}
use market_support_crewai_ag.Records.{FeedbackCommitResult, PreparedFeedback}
use market_support_crewai_ag.Root.{CoordinatorStateRoot, feedback_commit}
use market_support_crewai_ag.Root.Orders.{with_root_orders}
use market_support_crewai_ag.Schemas.{execution_type_Eq, reply_kind_Eq, status_Eq}

published_form-tokens :
    (root : CoordinatorStateRoot)
    → (published_form root).prepared_feedback_tokens ≡ root.prepared_feedback_tokens
unfolding with_root_orders without_unpinned_revisions enforce_inactive_record_capacities
published_form-tokens root = refl

published_form-issued :
    (root : CoordinatorStateRoot) → (published_form root).issued_records ≡ root.issued_records
unfolding with_root_orders without_unpinned_revisions enforce_inactive_record_capacities
published_form-issued root = refl

-- the root after the token of prepared feedback was dropped
pub record HasDropped (p : PreparedFeedback) (before after : CoordinatorStateRoot) : Type 0 where
  pub token : get (p.state_key, p.feedback_id) after.prepared_feedback_tokens ≡ none
  pub issued : after.issued_records ≡ before.issued_records
  pub revision : after.root_revision ≡ before.root_revision + 1

dropped :
    (p : PreparedFeedback) (before after : CoordinatorStateRoot) (capacity : ℕ)
    → prepare_root_for_publication (drop_prepared_token_candidate before p) capacity ≡ ok after
    → after.root_revision ≡ before.root_revision + 1
    → HasDropped p before after
unfolding drop_prepared_token_candidate
dropped p before after capacity done next =
    let candidate = drop_prepared_token_candidate before p in
    let form = prepare_root_for_publication-form candidate after capacity done in
    record {
      token =
          subst (λ r. get (p.state_key, p.feedback_id) r.prepared_feedback_tokens ≡ none) form
            (rw (published_form-tokens candidate)
              (get-without_key_self (p.state_key, p.feedback_id) before.prepared_feedback_tokens));
      issued =
          subst (λ r. r.issued_records ≡ before.issued_records) form
            (published_form-issued candidate);
      revision = next;
    }

module _ (inputs : CallInputs) (hashing : Hashing) (p : PreparedFeedback) (c : Coordinator)
    (e : Error) where
  abbrev out : Result FeedbackCommitResult × Coordinator
  out = commit_feedback inputs hashing p c

  -- the publication of the root without the token
  abbrev drop_publication : Result (Unit {0}) × Coordinator
  drop_publication =
      publish (inputs.transaction_id 0) feedback_commit (some p.state_key) (p.state_key ∷ [])
        (drop_prepared_token_candidate c.root p) c

  -- Where the candidate of a commit of feedback is refused with an error that does not drop the
  -- token, the call raises it and leaves the root. With one that does, the call raises it, the
  -- token is gone, the issued records are as before and the root has the next revision; only where
  -- the publication of the root without the token raises, the call raises what it raises and the
  -- root is left.
  pub commit_feedback-refused :
      commit_feedback_candidate hashing p inputs.now.monotonic_ns inputs.now.epoch_ms c.config
          c.root
        ≡ err e
      → ((requires_prepared_token_drop e ≡ false) × ((out.0 ≡ err e) × (out.1.root ≡ c.root)))
        ⊎ (((requires_prepared_token_drop e ≡ true)
              × ((drop_publication.0 ≡ ok tt) × ((out.0 ≡ err e) × HasDropped p c.root out.1.root)))
            ⊎ ((requires_prepared_token_drop e ≡ true)
                × ((raised : Error) × (drop_publication.0 ≡ err raised)
                    × (out.0 ≡ err raised)
                    × (out.1.root ≡ c.root))))
  unfolding commit_feedback
  commit_feedback-refused refused = elim (Bool-cases (requires_prepared_token_drop e)) [
    | inr keeps ↦ inl (keeps, (rw refused (rw keeps), rw refused (rw keeps)))
    | inl drops ↦
        elim (publish_lem (inputs.transaction_id 0) feedback_commit (some p.state_key)
          (p.state_key ∷ []) (drop_prepared_token_candidate c.root p) c) [
            | inl (done, installed, next) ↦ inr (
                inl (
                  drops,
                  (
                    done,
                    (
                      rw refused (rw drops (rw done)),
                      rw refused (
                          rw drops (
                            rw done (
                              dropped p c.root _ c.config.state_revision_capacity installed next))),
                    ),
                  ),
                ))
            | inr (raised, stopped, kept) ↦ inr (
                inr (
                  drops,
                  (
                    raised,
                    stopped,
                    rw refused (rw drops (rw stopped)),
                    rw refused (rw drops (rw stopped kept)),
                  ),
                ))
          ]
  ]
