-- ===== src/Coordinator/Feedback.antt =====
-- src/market_support_crewai_agent/runtime/state/coordinator_feedback.py, and `lookup` of
-- issued_response_store.py.
pub mod Commits
pub mod Replay
pub mod Isolation
use market_support_crewai_ag.Prelude.{
  Bool, List, Option, String, [], bool_Eq, count, false, if◌then◌else◌, leb, length, list_Eq,
  nat_Eq, none, not, option_Eq, pair_Eq, some, string_Eq, triple_Eq, true, ℕ, ◌!=◌, ◌++◌, ◌+◌, ◌==◌,
  ◌||◌, ◌∷◌,
}
use market_support_crewai_ag.Coordinator.Config.{CoordinatorConfig}
use market_support_crewai_ag.Coordinator.Effects.{
  apply_effect_transitions, prepare_effect_transitions,
}
use market_support_crewai_ag.Coordinator.Hashing.{Hashing}
use market_support_crewai_ag.Coordinator.Ledger.{derive_ledger_updates}
use market_support_crewai_ag.Coordinator.ReplyCommit.{revised}
use market_support_crewai_ag.Coordinator.Reservations.{Readings}
use market_support_crewai_ag.Errors.{
  Error, Result, conversation_state_changed, err, feedback_effect_mismatch, feedback_id_conflict,
  feedback_identity_mismatch, feedback_store_unavailable, feedback_token_expired,
  feedback_token_not_found, issued_response_not_found, ok, or_raise, raise_if, ◌>>=◌, ◌>>◌,
}
use market_support_crewai_ag.FrozenMap.{get, insert, with_updates, without_keys}
use market_support_crewai_ag.Identity.{
  ConversationStateKey, pair_Repr, scene_Eq, state_key_Eq, state_key_Repr, string_Repr, triple_Repr,
}
use market_support_crewai_ag.Records.{
  CompleteIssuedResponseRecord, FeedbackCommitResult, FeedbackPreparation, FeedbackReceipt,
  IssuedResponseLookup, IssuedResponseRecord, PreparedEffectTransition, PreparedFeedback,
  PreparedFeedbackTokenRecord, StateRevisionRecord, complete, issued_found,
  issued_identity_mismatch, issued_not_found, prepared, receipt_replay,
}
use market_support_crewai_ag.Root.{CoordinatorStateRoot, IssuedKey}
use market_support_crewai_ag.Schemas.{
  ActionFeedbackRequest, execution_type_Eq, reply_kind_Eq, status_Eq,
}

abbrev pub found_complete : Option IssuedResponseRecord → IssuedResponseLookup
found_complete (some (complete r)) = issued_found r
found_complete _ = issued_not_found

abbrev pub lookup_indexed :
    CoordinatorStateRoot → ConversationStateKey → Option IssuedKey → IssuedResponseLookup
lookup_indexed root state_key none = issued_not_found
lookup_indexed root state_key (some issued_key) =
    if issued_key.0 != state_key
    then issued_identity_mismatch
    else found_complete (get issued_key root.issued_records)

-- `IssuedResponseStoreV1.lookup`
unfoldable pub lookup : CoordinatorStateRoot → ConversationStateKey → String → IssuedResponseLookup
lookup root state_key response_id =
    lookup_indexed root state_key (get response_id root.response_index)

abbrev pub resolved :
    ActionFeedbackRequest → IssuedResponseLookup → Result CompleteIssuedResponseRecord
resolved feedback issued_not_found = err issued_response_not_found
resolved feedback issued_identity_mismatch = err feedback_identity_mismatch
resolved feedback (issued_found r) =
    if r.request_id != feedback.request_id then err feedback_effect_mismatch else ok r

unfoldable pub resolve_feedback_record :
    CoordinatorStateRoot
    → ConversationStateKey
    → ActionFeedbackRequest
    → Result CompleteIssuedResponseRecord
unfolding lookup
resolve_feedback_record root state_key feedback =
    resolved feedback (lookup root state_key feedback.response_id)

-- `now_monotonic_ns() + 30_000_000_000`
abbrev pub prepared_ttl_ns : ℕ
prepared_ttl_ns = 30000000000

abbrev pub Preparation : Type 0
Preparation = Option CoordinatorStateRoot × FeedbackPreparation

module _ (hashing : Hashing) (root : CoordinatorStateRoot) (state_key : ConversationStateKey)
    (feedback : ActionFeedbackRequest) where
  unfoldable pub replayed_receipt : FeedbackReceipt → Result Preparation
  replayed_receipt receipt =
      if receipt.feedback_hash != hashing.feedback_hash feedback
      then err feedback_id_conflict
      else ok (
        none,
        receipt_replay (record {
          state_key = state_key;
          feedback_id = feedback.feedback_id;
          feedback_hash = hashing.feedback_hash feedback;
          request_id = feedback.request_id;
          response_id = feedback.response_id;
          receipt_id = receipt.receipt_id;
          issued_record_revision = receipt.issued_record_revision;
        }),
      )

  unfoldable pub existing_preparation : PreparedFeedbackTokenRecord → Result Preparation
  existing_preparation token =
      if token.preparation.feedback_hash != hashing.feedback_hash feedback
      then err feedback_id_conflict
      else ok (none, prepared token.preparation)

  -- `created_ns` is the clock's second reading
  unfoldable pub new_preparation :
      CompleteIssuedResponseRecord → CoordinatorConfig → Readings → ℕ → Result Preparation
  unfolding prepare_effect_transitions
  new_preparation issued config now created_ns = do
    raise_if (leb config.issued_response_capacity (length root.prepared_feedback_tokens))
        feedback_store_unavailable
    revision ← or_raise (get state_key root.state_revisions) conversation_state_changed
    transitions ← prepare_effect_transitions issued feedback
    let preparation : PreparedFeedback = record {
      state_key = state_key;
      feedback_id = feedback.feedback_id;
      feedback_hash = hashing.feedback_hash feedback;
      request_id = feedback.request_id;
      response_id = feedback.response_id;
      commit_token = now.owner_token;
      revision_epoch = revision.revision_epoch;
      expected_state_revision = revision.revision;
      expected_issued_record_revision = issued.record_revision;
      transitions = transitions;
      expires_at_monotonic_ns = now.monotonic_ns + prepared_ttl_ns;
    }
    ok (
      some (record root {
        root_revision = root.root_revision + 1;
        prepared_feedback_tokens =
            insert (state_key, feedback.feedback_id)
              (record { preparation = preparation; created_at_monotonic_ns = created_ns })
              root.prepared_feedback_tokens;
      }),
      prepared preparation,
    )

  abbrev prepare_without_receipt :
      CompleteIssuedResponseRecord
      → CoordinatorConfig
      → Readings
      → ℕ
      → Option PreparedFeedbackTokenRecord
      → Result Preparation
  prepare_without_receipt issued config now created_ns (some token) = existing_preparation token
  prepare_without_receipt issued config now created_ns none =
      new_preparation issued config now created_ns

  abbrev prepare_at :
      CompleteIssuedResponseRecord
      → CoordinatorConfig
      → Readings
      → ℕ
      → Option FeedbackReceipt
      → Result Preparation
  prepare_at issued config now created_ns (some receipt) = replayed_receipt receipt
  prepare_at issued config now created_ns none =
      prepare_without_receipt issued config now created_ns
        (get (state_key, feedback.feedback_id) root.prepared_feedback_tokens)

  unfoldable pub prepare_feedback_candidate :
      CompleteIssuedResponseRecord → CoordinatorConfig → Readings → ℕ → Result Preparation
  unfolding replayed_receipt existing_preparation new_preparation
  prepare_feedback_candidate issued config now created_ns =
      prepare_at issued config now created_ns
        (get (state_key, feedback.feedback_id) root.feedback_receipts)

unfoldable pub stored_token_matches : PreparedFeedback → Option PreparedFeedbackTokenRecord → Bool
stored_token_matches p none = false
stored_token_matches p (some stored) = stored.preparation.commit_token == p.commit_token

abbrev pub found_record : IssuedResponseLookup → Result CompleteIssuedResponseRecord
found_record (issued_found r) = ok r
found_record _ = err conversation_state_changed

unfoldable pub feedback_commit_inputs :
    CoordinatorStateRoot
    → PreparedFeedback
    → ℕ
    → Result (CompleteIssuedResponseRecord × StateRevisionRecord)
unfolding stored_token_matches lookup
feedback_commit_inputs root p now_monotonic_ns = do
  raise_if
      (not
        (stored_token_matches p (get (p.state_key, p.feedback_id) root.prepared_feedback_tokens)))
      feedback_token_not_found
  raise_if (leb p.expires_at_monotonic_ns now_monotonic_ns) feedback_token_expired
  issued ← found_record (lookup root p.state_key p.response_id)
  revision ← or_raise (get p.state_key root.state_revisions) conversation_state_changed
  raise_if
      (revision.revision_epoch != p.revision_epoch
        || (revision.revision != p.expected_state_revision
            || issued.record_revision != p.expected_issued_record_revision))
      conversation_state_changed
  ok (issued, revision)

unfoldable pub requires_prepared_token_drop : Error → Bool
requires_prepared_token_drop feedback_token_expired = true
requires_prepared_token_drop conversation_state_changed = true
requires_prepared_token_drop _ = false

unfoldable pub stored_count : List PreparedEffectTransition → ℕ
stored_count transitions = count (λ t. not t.is_noop) transitions

module _ (hashing : Hashing) (p : PreparedFeedback) (now_monotonic_ns now_epoch_ms : ℕ)
    (config : CoordinatorConfig) where
  unfoldable pub new_receipt : CompleteIssuedResponseRecord → FeedbackReceipt
  unfolding stored_count
  new_receipt issued =
      let record_revision = issued.record_revision + 1 in
      record {
        receipt_id =
            hashing.feedback_receipt_id p.state_key p.feedback_id p.feedback_hash p.response_id
              record_revision;
        state_key = p.state_key;
        feedback_id = p.feedback_id;
        feedback_hash = p.feedback_hash;
        response_id = p.response_id;
        issued_record_revision = record_revision;
        stored = stored_count p.transitions;
        created_at_epoch_ms = now_epoch_ms;
        created_at_monotonic_ns = now_monotonic_ns;
        expires_at_monotonic_ns = now_monotonic_ns + config.issued_ttl_ns;
      }

  unfoldable pub with_feedback : CompleteIssuedResponseRecord → CompleteIssuedResponseRecord
  unfolding new_receipt apply_effect_transitions
  with_feedback issued = record issued {
    effects = apply_effect_transitions issued.effects p.transitions;
    receipts = issued.receipts ++ (new_receipt issued ∷ []);
    record_revision = issued.record_revision + 1;
  }

  unfoldable pub fed_back_root :
      CoordinatorStateRoot
      → CompleteIssuedResponseRecord
      → StateRevisionRecord
      → CoordinatorStateRoot
  unfolding with_feedback new_receipt revised
  fed_back_root root issued revision =
      let completed = with_feedback issued in
      record root {
        root_revision = root.root_revision + 1;
        issued_records =
            insert (p.state_key, p.request_id) (complete completed) root.issued_records;
        feedback_receipts =
            insert (p.state_key, p.feedback_id) (new_receipt issued) root.feedback_receipts;
        prepared_feedback_tokens =
            without_keys root.prepared_feedback_tokens ((p.state_key, p.feedback_id) ∷ []);
        state_revisions =
            insert p.state_key (revised revision now_monotonic_ns config) root.state_revisions;
        action_ledger_records = with_updates root.action_ledger_records (
            derive_ledger_updates root completed p.transitions now_epoch_ms
              (now_monotonic_ns + config.issued_ttl_ns));
      }

  unfoldable pub commit_feedback_candidate :
      CoordinatorStateRoot → Result (CoordinatorStateRoot × FeedbackCommitResult)
  unfolding feedback_commit_inputs fed_back_root new_receipt
  commit_feedback_candidate root = do
    (issued, revision) ← feedback_commit_inputs root p now_monotonic_ns
    raise_if
        (leb 64 (length issued.receipts)
          || leb config.feedback_receipt_capacity (length root.feedback_receipts))
        feedback_store_unavailable
    ok (
      fed_back_root root issued revision,
      record {
        receipt_id = (new_receipt issued).receipt_id;
        stored = stored_count p.transitions;
        replayed = false;
      },
    )

unfoldable pub drop_prepared_token_candidate :
    CoordinatorStateRoot → PreparedFeedback → CoordinatorStateRoot
drop_prepared_token_candidate root p = record root {
  root_revision = root.root_revision + 1;
  prepared_feedback_tokens =
      without_keys root.prepared_feedback_tokens ((p.state_key, p.feedback_id) ∷ []);
}
