-- ===== src/Root/Orders.antt =====
-- `state_session_eviction_order` of coordinator_state.py, and `key_bytes` and `with_root_orders`
-- of src/market_support_crewai_agent/runtime/state/coordinator_root_orders.py.
use market_support_crewai_ag.Prelude.{
  Bool, List, Option, [], bool_Eq, elem, keep, list_Eq, map, max, nat_Eq, none, not, option_Eq,
  pair_Eq, some, sort_by, sort_key_le, string_Eq, suc, triple_Eq, ℕ, ◌++◌, ◌∷◌,
}
use market_support_crewai_ag.Audit.{audit_created, audit_expires}
use market_support_crewai_ag.FrozenMap.{FrozenMap, get, items, keys}
use market_support_crewai_ag.Identity.{
  ConversationStateKey, canonical_json_bytes, canonical_state_key_payload, pair_Repr, scene_Eq,
  state_key_Eq, state_key_Repr, string_Repr, triple_Repr,
}
use market_support_crewai_ag.Records.{
  ConversationTurnRecord, IssuedResponseRecord, PendingClarificationRecord, complete,
  issued_expires, pending,
}
use market_support_crewai_ag.Root.{
  ActionKey, CoordinatorStateRoot, IssuedKey, RootOrderEntry, RootOrders, SessionOrderEntry,
}
use market_support_crewai_ag.Schemas.{execution_type_Eq, reply_kind_Eq, status_Eq}
use market_support_crewai_ag.Text.{Bytes, codes, decimal, utf8}
use mathlib.Core.Option

-- `max(..., default=-1)`: `none` is -1
abbrev pub latest_turn : List ConversationTurnRecord → Option ℕ
latest_turn [] = none
latest_turn (t ∷ ts) =
    some (elim (latest_turn ts) [
      | none ↦ t.created_at_epoch_ms
      | some n ↦ max t.created_at_epoch_ms n
    ])

abbrev pub max_epoch : Option ℕ → Option ℕ → Option ℕ
max_epoch none b = b
max_epoch (some a) none = some a
max_epoch (some a) (some b) = some (max a b)

abbrev or_empty {ℓ} : {A : Type ℓ} → Option (List A) → List A
or_empty none = []
or_empty (some xs) = xs

module _ (turns : FrozenMap ConversationStateKey (List ConversationTurnRecord))
    (clarifications : FrozenMap ConversationStateKey PendingClarificationRecord) where
  -- `frozenset((*turns, *clarifications))`
  unfoldable pub session_keys : List ConversationStateKey
  session_keys = keys turns ++ keep (λ k. not (elem k (keys turns))) (keys clarifications)

  session_row : ConversationStateKey → SessionOrderEntry
  unfolding canonical_json_bytes canonical_state_key_payload
  session_row key = (
    max_epoch (latest_turn (or_empty (get key turns)))
        (Option.map (λ c. c.created_at_epoch_ms) (get key clarifications)),
    canonical_json_bytes (canonical_state_key_payload key),
    key,
  )

  unfoldable pub state_session_eviction_order : List SessionOrderEntry
  unfolding session_keys session_row
  state_session_eviction_order =
      sort_by
        (λ a b.
          sort_key_le (elim a.0 [ none ↦ 0 | some n ↦ suc n ], a.1, [])
            (elim b.0 [ none ↦ 0 | some n ↦ suc n ], b.1, []))
        (map session_row session_keys)

unfoldable pub key_bytes : ConversationStateKey → List ℕ → Bytes
unfolding canonical_json_bytes canonical_state_key_payload utf8
key_bytes state_key suffix =
    canonical_json_bytes (canonical_state_key_payload state_key) ++ utf8 suffix

-- `<=` on (number, key bytes, key). Equal bytes mean equal state keys; the keys of two ledger rows
-- may then still differ in their first text, the response id.
abbrev pub entry_le : RootOrderEntry → RootOrderEntry → Bool
entry_le a b = sort_key_le (a.0, a.1, first_text (a.2).1) (b.0, b.1, first_text (b.2).1)
  where
    first_text : List (List ℕ) → List ℕ
    first_text [] = []
    first_text (s ∷ ss) = s

-- `sorted`
unfoldable pub order_rows : List RootOrderEntry → List RootOrderEntry
unfolding sort_by
order_rows = sort_by entry_le

unfoldable pub issued_row : ℕ → IssuedKey → RootOrderEntry
unfolding key_bytes codes
issued_row n key = (n, key_bytes key.0 (codes key.1), (key.0, codes key.1 ∷ []))

unfoldable pub action_row : ℕ → ActionKey → RootOrderEntry
unfolding key_bytes codes
action_row n (state_key, response_id, action_id) = (
  n,
  key_bytes state_key (codes action_id),
  (state_key, codes response_id ∷ codes action_id ∷ []),
)

complete_rows : List (IssuedKey × IssuedResponseRecord) → List RootOrderEntry
unfolding issued_row
complete_rows [] = []
complete_rows ((key, pending r) ∷ rest) = complete_rows rest
complete_rows ((key, complete r) ∷ rest) =
    issued_row r.completed_at_monotonic_ns key ∷ complete_rows rest

turn_row : ConversationStateKey → ConversationTurnRecord → RootOrderEntry
unfolding key_bytes decimal
turn_row state_key turn =
    let ordinal = decimal turn.ordinal in
    (turn.created_at_epoch_ms, key_bytes state_key ordinal, (state_key, ordinal ∷ []))

turn_rows : List (ConversationStateKey × List ConversationTurnRecord) → List RootOrderEntry
unfolding turn_row
turn_rows [] = []
turn_rows ((state_key, turns) ∷ rest) = map (turn_row state_key) turns ++ turn_rows rest

unfoldable pub root_orders : CoordinatorStateRoot → RootOrders
unfolding order_rows issued_row action_row complete_rows turn_rows items issued_expires
root_orders root =
    let issued = items root.issued_records in
    let ledger = items root.action_ledger_records in
    let audits = items root.audit_records in
    let revisions = order_rows (
      map (λ e. (e.1.expires_at_monotonic_ns, key_bytes e.0 [], (e.0, [])))
        (items root.state_revisions)) in
    record {
      issued_expiry_order = order_rows (map (λ e. issued_row (issued_expires e.1) e.0) issued);
      issued_complete_eviction_order = order_rows (complete_rows issued);
      conversation_expiry_order = order_rows (turn_rows (items root.conversation_turns));
      state_session_eviction_order =
          state_session_eviction_order root.conversation_turns root.clarification_records;
      clarification_expiry_order = order_rows (
          map
            (λ e. (e.1.created_at_epoch_ms, key_bytes e.0 (codes e.1.clarification_ref), (e.0, [])))
            (items root.clarification_records));
      audit_expiry_order = order_rows (map (λ e. issued_row (audit_expires e.1) e.0) audits);
      audit_eviction_order = order_rows (map (λ e. issued_row (audit_created e.1) e.0) audits);
      action_ledger_expiry_order =
          order_rows (map (λ e. action_row e.1.expires_at_monotonic_ns e.0) ledger);
      action_ledger_eviction_order =
          order_rows (map (λ e. action_row e.1.received_at_epoch_ms e.0) ledger);
      feedback_receipt_expiry_order =
          order_rows
            (map (λ e. issued_row e.1.expires_at_monotonic_ns e.0) (items root.feedback_receipts));
      prepared_token_expiry_order = order_rows (
          map (λ e. issued_row e.1.preparation.expires_at_monotonic_ns e.0)
            (items root.prepared_feedback_tokens));
      state_revision_expiry_order = revisions;
      state_revision_eviction_order = revisions;
    }

unfoldable pub with_root_orders : CoordinatorStateRoot → CoordinatorStateRoot
unfolding root_orders
with_root_orders root = record root { orders = root_orders root }
