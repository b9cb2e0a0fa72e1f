-- ===== src/Coordinator/Cleanup.antt =====
-- src/market_support_crewai_agent/runtime/state/coordinator_cleanup.py. A filtered tuple differs
-- from the whole exactly when it is shorter, and is so compared here.
pub mod Live
use market_support_crewai_ag.Prelude.{
  Bool, List, Option, String, [], any, bool_Eq, elem, false, if◌then◌else◌, keep, leb, length,
  list_Eq, ltb, nat_Eq, nat_eq, none, not, option_Eq, pair_Eq, some, string_Eq, tail_slice,
  triple_Eq, ℕ, ◌&&◌, ◌++◌, ◌+◌, ◌∷◌,
}
use market_support_crewai_ag.Audit.{audit_expires}
use market_support_crewai_ag.Coordinator.Config.{CoordinatorConfig}
use market_support_crewai_ag.Coordinator.Retention.{
  Turns, effect_action_ids, without_unpinned_revisions,
}
use market_support_crewai_ag.FrozenMap.{FrozenMap, items, keys, without_keys}
use market_support_crewai_ag.Identity.{
  ConversationStateKey, pair_Repr, scene_Eq, state_key_Eq, state_key_Repr, string_Repr, triple_Repr,
}
use market_support_crewai_ag.Records.{
  ConversationTurnRecord, FeedbackReceipt, IssuedResponseRecord, complete, issued_expires, pending,
}
use market_support_crewai_ag.Root.{ActionKey, CoordinatorStateRoot, IssuedKey}
use market_support_crewai_ag.Schemas.{execution_type_Eq, reply_kind_Eq, status_Eq}

-- the sets that `cleanup_candidate` computes first
pub record Expired : Type 0 where
  pub turn_states : List ConversationStateKey
  pub changed_turn_states : List ConversationStateKey
  pub clarifications : List ConversationStateKey
  pub audits : List IssuedKey
  pub tokens : List IssuedKey
  pub issued : List IssuedKey
  pub receipts : List IssuedKey
  pub ledger_rows : List ActionKey
  pub issued_receipts : Bool

-- the keys of the items that a test selects
unfoldable pub keys_where {ℓ κ} :
    {K : Type ℓ} {V : Type κ} → (K × V → Bool) → FrozenMap K V → List K
keys_where p m = keys (keep p m)

module _ (now_monotonic_ns now_epoch_ms : ℕ) (config : CoordinatorConfig) where
  unfoldable pub retained : List ConversationTurnRecord → List ConversationTurnRecord
  retained turns =
      tail_slice config.conversation_max_messages
        (keep (λ t. ltb now_epoch_ms (t.created_at_epoch_ms + config.conversation_ttl_ms)) turns)

  abbrev pub with_retained : ConversationStateKey → List ConversationTurnRecord → Turns → Turns
  with_retained k [] others = others
  with_retained k (t ∷ ts) others = (k, t ∷ ts) ∷ others

  unfoldable pub retained_turns_from :
      List (ConversationStateKey × List ConversationTurnRecord) → Turns
  unfolding retained
  retained_turns_from [] = []
  retained_turns_from ((k, turns) ∷ rest) =
      with_retained k (retained turns) (retained_turns_from rest)

  unfoldable pub retained_turns : Turns → Turns
  unfolding retained_turns_from items
  retained_turns turns = retained_turns_from (items turns)

  unfoldable pub expired_issued : IssuedKey × IssuedResponseRecord → Bool
  unfolding issued_expires
  expired_issued e = leb (issued_expires e.1) now_monotonic_ns

  abbrev pub receipt_live : FeedbackReceipt → Bool
  receipt_live r = ltb now_monotonic_ns r.expires_at_monotonic_ns

  unfoldable pub retained_record : IssuedResponseRecord → IssuedResponseRecord
  retained_record (pending r) = pending r
  retained_record (complete r) = complete (record r { receipts = keep receipt_live r.receipts })

  unfoldable pub retained_issued :
      List (IssuedKey × IssuedResponseRecord) → FrozenMap IssuedKey IssuedResponseRecord
  unfolding retained_record expired_issued
  retained_issued [] = []
  retained_issued (e ∷ rest) =
      let others = retained_issued rest in
      if expired_issued e then others else (e.0, retained_record e.1) ∷ others

  unfoldable pub has_expired_receipt : IssuedKey × IssuedResponseRecord → Bool
  has_expired_receipt (k, pending r) = false
  has_expired_receipt (k, complete r) =
      not (leb r.expires_at_monotonic_ns now_monotonic_ns)
      && ltb (length (keep receipt_live r.receipts)) (length r.receipts)

  unfoldable pub expired_response_ids : List (IssuedKey × IssuedResponseRecord) → List String
  expired_response_ids [] = []
  expired_response_ids ((k, pending r) ∷ rest) = expired_response_ids rest
  expired_response_ids ((k, complete r) ∷ rest) =
      let others = expired_response_ids rest in
      if leb r.expires_at_monotonic_ns now_monotonic_ns
      then r.response.response_id ∷ others
      else others

  unfoldable pub expired_action_ids : List (IssuedKey × IssuedResponseRecord) → List String
  unfolding effect_action_ids
  expired_action_ids [] = []
  expired_action_ids ((k, pending r) ∷ rest) = expired_action_ids rest
  expired_action_ids ((k, complete r) ∷ rest) =
      let others = expired_action_ids rest in
      if leb r.expires_at_monotonic_ns now_monotonic_ns
      then effect_action_ids r.effects ++ others
      else others

  unfoldable pub expired : CoordinatorStateRoot → Expired
  unfolding keys_where retained expired_issued has_expired_receipt audit_expires
  expired root = record {
    turn_states = keys_where (λ e. nat_eq (length (retained e.1)) 0) root.conversation_turns;
    changed_turn_states =
        keys_where (λ e. ltb 0 (length (retained e.1)) && ltb (length (retained e.1)) (length e.1))
          root.conversation_turns;
    clarifications =
        keys_where (λ e. leb (e.1.created_at_epoch_ms + config.conversation_ttl_ms) now_epoch_ms)
          root.clarification_records;
    audits = keys_where (λ e. leb (audit_expires e.1) now_monotonic_ns) root.audit_records;
    tokens =
        keys_where (λ e. leb e.1.preparation.expires_at_monotonic_ns now_monotonic_ns)
          root.prepared_feedback_tokens;
    issued = keys_where expired_issued root.issued_records;
    receipts =
        keys_where (λ e. leb e.1.expires_at_monotonic_ns now_monotonic_ns) root.feedback_receipts;
    ledger_rows =
        keys_where (λ e. leb e.1.expires_at_monotonic_ns now_monotonic_ns)
          root.action_ledger_records;
    issued_receipts = any has_expired_receipt root.issued_records;
  }

  unfoldable pub removed_count : Expired → ℕ
  removed_count e =
      length e.tokens
      + length e.issued
      + length e.receipts
      + length e.ledger_rows
      + length e.turn_states
      + length e.changed_turn_states
      + length e.clarifications
      + length e.audits

  -- `pending_states`: the states whose pending request has expired
  unfoldable pub cleaned_root : CoordinatorStateRoot → Expired → CoordinatorStateRoot
  unfolding retained_turns retained_issued expired_response_ids expired_action_ids items keys_where
  cleaned_root root e = record root {
    root_revision = root.root_revision + 1;
    issued_records = retained_issued (items root.issued_records);
    pending_request_by_state =
        without_keys root.pending_request_by_state
          (keys_where (λ p. elem p.1 e.issued) root.pending_request_by_state);
    prepared_feedback_tokens = without_keys root.prepared_feedback_tokens e.tokens;
    response_index =
        without_keys root.response_index (expired_response_ids (items root.issued_records));
    action_index = without_keys root.action_index (expired_action_ids (items root.issued_records));
    feedback_receipts = without_keys root.feedback_receipts e.receipts;
    action_ledger_records = without_keys root.action_ledger_records e.ledger_rows;
    conversation_turns = retained_turns root.conversation_turns;
    clarification_records = without_keys root.clarification_records e.clarifications;
    audit_records = without_keys root.audit_records e.audits;
  }

  unfoldable pub cleanup_candidate : CoordinatorStateRoot → Option CoordinatorStateRoot × ℕ
  unfolding expired removed_count cleaned_root
  cleanup_candidate root =
      let e = expired root in
      if nat_eq (removed_count e) 0 && not e.issued_receipts
      then (none, 0)
      else (some (without_unpinned_revisions (cleaned_root root e)), removed_count e)
