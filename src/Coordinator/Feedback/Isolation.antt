-- ===== src/Coordinator/Feedback/Isolation.antt =====
-- Whom the issued-response store answers: `IssuedResponseStoreV1.lookup` and
-- `resolve_feedback_record` (src/market_support_crewai_agent/runtime/state/).
use market_support_crewai_ag.Prelude.{
  Option, Option-cases, String, arith, bool_Eq, eq_iff, inl, inr, list_Eq, nat_Eq, none, option_Eq,
  pair_Eq, some, string_Eq, triple_Eq, true, ◌==◌, ◌∙◌, ◌≡◌,
}
use market_support_crewai_ag.Coordinator.Feedback.{
  found_complete, lookup, lookup_indexed, resolve_feedback_record, resolved,
}
use market_support_crewai_ag.Coordinator.Validity.{IsIndexed, key-of_complete}
use market_support_crewai_ag.Errors.{ok}
use market_support_crewai_ag.FrozenMap.{get}
use market_support_crewai_ag.FrozenMap.Laws.{All-get}
use market_support_crewai_ag.Identity.{
  ConversationStateKey, pair_Repr, scene_Eq, state_key_Eq, state_key_Repr, string_Repr, triple_Repr,
}
use market_support_crewai_ag.Records.{
  CompleteIssuedResponseRecord, IssuedResponseLookup, IssuedResponseRecord, complete, issued_found,
  issued_identity_mismatch, issued_not_found, pending,
}
use market_support_crewai_ag.Root.{CoordinatorStateRoot, IssuedKey}
use market_support_crewai_ag.Root.Validation.{is_complete_for, response_entry_valid}
use market_support_crewai_ag.Schemas.{
  ActionFeedbackRequest, execution_type_Eq, reply_kind_Eq, status_Eq,
}

found_complete-eq :
    (o : Option IssuedResponseRecord) (r : CompleteIssuedResponseRecord)
    → found_complete o ≡ issued_found r
    → o ≡ some (complete r)
found_complete-eq none r h = absurd (cc)
found_complete-eq (some (pending p)) r h = absurd (cc)
found_complete-eq (some (complete c)) r h = cc

-- what the two indexes and the keys of the records say of a record that is found
pub found_at :
    (root : CoordinatorStateRoot) (state_key : ConversationStateKey) (response_id : String)
    (r : CompleteIssuedResponseRecord)
    → lookup root state_key response_id ≡ issued_found r
    → (key : IssuedKey) × ((get response_id root.response_index ≡ some key)
        × (key.0 ≡ state_key)
        × (get key root.issued_records ≡ some (complete r)))
unfolding lookup
found_at root state_key response_id r h =
    elim (Option-cases (get response_id root.response_index)) [
      | inl absent ↦ absurd (ground (arith, absent, h))
      | inr (key, indexed) ↦
          let at_key : lookup_indexed root state_key (some key) ≡ issued_found r =
            rw indexed at h in
          let same : key.0 ≡ state_key = ground (arith, eq_iff key.0 state_key) in
          (key, (indexed, same, found_complete-eq (get key root.issued_records) r (ground arith)))
    ]

resolved-eq :
    (feedback : ActionFeedbackRequest) (o : IssuedResponseLookup) (r : CompleteIssuedResponseRecord)
    → resolved feedback o ≡ ok r
    → (o ≡ issued_found r) × (r.request_id ≡ feedback.request_id)
resolved-eq feedback issued_not_found r h = absurd (cc)
resolved-eq feedback issued_identity_mismatch r h = absurd (cc)
resolved-eq feedback (issued_found c) r h = ground (arith, eq_iff c.request_id feedback.request_id)

-- Feedback is resolved to a response only for its own conversation: in a well-indexed root, the
-- record that a feedback request is resolved to carries the caller's state key, the response id
-- and the request id that the feedback names.
pub resolve_feedback_record-own :
    (root : CoordinatorStateRoot) (state_key : ConversationStateKey)
    (feedback : ActionFeedbackRequest) (r : CompleteIssuedResponseRecord)
    → IsIndexed root
    → resolve_feedback_record root state_key feedback ≡ ok r
    → (r.state_key ≡ state_key)
      × (r.response.response_id ≡ feedback.response_id)
      × (r.request_id ≡ feedback.request_id)
unfolding resolve_feedback_record
resolve_feedback_record-own root state_key feedback r h done =
    let (found, same_request) =
      resolved-eq feedback (lookup root state_key feedback.response_id) r done in
    let (key, (indexed, same, at_key)) = found_at root state_key feedback.response_id r found in
    let names : is_complete_for feedback.response_id (get key root.issued_records) ≡ true =
      All-get (λ e. response_entry_valid root.issued_records e ≡ true) feedback.response_id
        root.response_index h.responses_valid indexed in
    let named : (r.response.response_id == feedback.response_id) ≡ true = rw at_key at names in
    (
      (key-of_complete h key r at_key).0 ∙ same,
      (eq_iff r.response.response_id feedback.response_id).0 named,
      same_request,
    )
