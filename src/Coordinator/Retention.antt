-- ===== src/Coordinator/Retention.antt =====
-- src/market_support_crewai_agent/runtime/state/coordinator_retention.py
pub mod Rows
pub mod Sessions
pub mod Idle
pub mod Revisions
use market_support_crewai_ag.Prelude.{
  Bool, List, Option, String, [], bool_Eq, elem, if◌then◌else◌, keep, leb, length, list_Eq, ltb,
  map, min_by, nat_Eq, none, not, option_Eq, pair_Eq, some, sort_by, sort_key_le, string_Eq, suc,
  take, triple_Eq, zero, ℕ, ◌++◌, ◌+◌, ◌-◌, ◌∷◌,
}
use market_support_crewai_ag.Errors.{
  Result, err, issued_response_store_unavailable, ok, state_store_unavailable, ◌>>=◌, ◌>>◌,
}
use market_support_crewai_ag.FrozenMap.{FrozenMap, contains, items, keys, without_keys}
use market_support_crewai_ag.Identity.{
  ConversationStateKey, pair_Repr, scene_Eq, state_key_Eq, state_key_Repr, string_Repr, triple_Repr,
}
use market_support_crewai_ag.Records.{
  ActionLedgerRecord, CompleteIssuedResponseRecord, ConversationTurnRecord, IssuedEffect,
  IssuedResponseRecord, PendingClarificationRecord, StateRevisionRecord, complete, pending,
}
use market_support_crewai_ag.Root.{ActionKey, CoordinatorStateRoot, IssuedKey, SessionOrderEntry}
use market_support_crewai_ag.Root.Orders.{key_bytes, state_session_eviction_order, with_root_orders}
use market_support_crewai_ag.Root.Validation.{validate_root}
use market_support_crewai_ag.Schemas.{execution_type_Eq, reply_kind_Eq, status_Eq}
use market_support_crewai_ag.Text.{Bytes, codes}

abbrev pub action_ledger_capacity : ℕ
action_ledger_capacity = 5000

-- `_pinned_state_keys`, as a list that may name a key more than once
unfoldable pub pinned_state_keys : CoordinatorStateRoot → List ConversationStateKey
pinned_state_keys root =
    keys root.conversation_turns
    ++ (keys root.clarification_records
        ++ (map (λ e. e.0.0) root.issued_records
            ++ (map (λ e. e.0.0) root.feedback_receipts
                ++ (map (λ e. e.0.0) root.prepared_feedback_tokens
                    ++ (map (λ e. e.0.0) root.action_ledger_records
                        ++ map (λ e. e.0.0) root.audit_records)))))

unfoldable pub without_unpinned_revisions : CoordinatorStateRoot → CoordinatorStateRoot
without_unpinned_revisions root =
    let pinned = pinned_state_keys root in
    let removable = keep (λ k. not (elem k pinned)) (keys root.state_revisions) in
    record root { state_revisions = without_keys root.state_revisions removable }

abbrev pub Turns : Type 0
Turns = FrozenMap ConversationStateKey (List ConversationTurnRecord)

abbrev pub Clarifications : Type 0
Clarifications = FrozenMap ConversationStateKey PendingClarificationRecord

-- One round of the loop below: the session that was idle longest goes, unless a reply to it is
-- pending.
unfoldable pub evict_victim :
    (Turns → Clarifications → Result (Turns × Clarifications))
    → FrozenMap ConversationStateKey IssuedKey
    → Turns
    → Clarifications
    → List SessionOrderEntry
    → Result (Turns × Clarifications)
evict_victim next pending_requests turns clarifications [] = ok (turns, clarifications)
evict_victim next pending_requests turns clarifications ((epoch, bytes, victim) ∷ rest) =
    if contains victim pending_requests
    then err state_store_unavailable
    else next (without_keys turns (victim ∷ [])) (without_keys clarifications (victim ∷ []))

-- The `while` of `enforce_session_capacity`. Each round removes a session, so one round for each
-- session is enough.
unfoldable pub evict_sessions :
    ℕ
    → FrozenMap ConversationStateKey IssuedKey
    → ℕ
    → Turns
    → Clarifications
    → Result (Turns × Clarifications)
evict_sessions zero pending_requests capacity turns clarifications = ok (turns, clarifications)
evict_sessions (suc fuel) pending_requests capacity turns clarifications =
    let order = state_session_eviction_order turns clarifications in
    let next = evict_sessions fuel pending_requests capacity in
    let rest = evict_victim next pending_requests turns clarifications order in
    if ltb capacity (length order) then rest else ok (turns, clarifications)

unfoldable pub enforce_session_capacity : CoordinatorStateRoot → ℕ → Result CoordinatorStateRoot
enforce_session_capacity root capacity = do
  let turns = root.conversation_turns
  let clarifications = root.clarification_records
  let fuel = length (state_session_eviction_order turns clarifications)
  (turns', clarifications') ←
      evict_sessions fuel root.pending_request_by_state capacity turns clarifications
  ok (
      without_unpinned_revisions
        (record root { conversation_turns = turns'; clarification_records = clarifications' }))

-- `effect.action_id for effect in effects if effect.action_id is not None`
unfoldable pub effect_action_ids : List IssuedEffect → List String
effect_action_ids [] = []
effect_action_ids (e ∷ es) =
    let rest = effect_action_ids es in elim e.action_id [ none ↦ rest | some i ↦ i ∷ rest ]

abbrev pub CompleteItem : Type 0
CompleteItem = IssuedKey × CompleteIssuedResponseRecord

unfoldable pub complete_items : List (IssuedKey × IssuedResponseRecord) → List CompleteItem
complete_items [] = []
complete_items ((key, pending r) ∷ rest) = complete_items rest
complete_items ((key, complete r) ∷ rest) = (key, r) ∷ complete_items rest

-- `(completed_at_monotonic_ns, request_id)` of the first, at most that of the second
unfoldable pub completed_before : CompleteItem → CompleteItem → Bool
unfolding codes
completed_before a b =
    sort_key_le (a.1.completed_at_monotonic_ns, [], codes a.0.1)
      (b.1.completed_at_monotonic_ns, [], codes b.0.1)

unfoldable pub without_complete : CoordinatorStateRoot → CompleteItem → CoordinatorStateRoot
without_complete root (key, r) = record root {
  root_revision = root.root_revision + 1;
  issued_records = without_keys root.issued_records (key ∷ []);
  response_index = without_keys root.response_index (r.response.response_id ∷ []);
  action_index = without_keys root.action_index (effect_action_ids r.effects);
}

unfoldable pub evict_oldest :
    CoordinatorStateRoot → List CompleteItem → Result (Option CoordinatorStateRoot)
evict_oldest root [] = err issued_response_store_unavailable
evict_oldest root (first ∷ rest) =
    ok (some (without_complete root (min_by completed_before first rest)))

unfoldable pub issued_capacity_eviction_candidate :
    CoordinatorStateRoot → ℕ → Result (Option CoordinatorStateRoot)
unfolding items
issued_capacity_eviction_candidate root capacity =
    if ltb (length root.issued_records) capacity
    then ok none
    else evict_oldest root (complete_items (items root.issued_records))

abbrev pub LedgerRows : Type 0
LedgerRows = FrozenMap ActionKey ActionLedgerRecord

unfoldable pub received_before :
    ActionKey × ActionLedgerRecord → ActionKey × ActionLedgerRecord → Bool
unfolding key_bytes codes
received_before (a, r) (b, s) =
    sort_key_le (r.received_at_epoch_ms, key_bytes a.0 (codes a.2), [])
      (s.received_at_epoch_ms, key_bytes b.0 (codes b.2), [])

unfoldable pub without_oldest_row : List (ActionKey × ActionLedgerRecord) → LedgerRows → LedgerRows
without_oldest_row [] ledger = ledger
without_oldest_row (first ∷ rest) ledger =
    without_keys ledger ((min_by received_before first rest).0 ∷ [])

-- The `while` of `_enforce_inactive_record_capacities`, one round for each row.
unfoldable pub evict_ledger_rows : ℕ → LedgerRows → LedgerRows
unfolding items
evict_ledger_rows zero ledger = ledger
evict_ledger_rows (suc fuel) ledger =
    let rest = evict_ledger_rows fuel (without_oldest_row (items ledger) ledger) in
    if ltb action_ledger_capacity (length ledger) then rest else ledger

unfoldable pub enforce_inactive_record_capacities : CoordinatorStateRoot → CoordinatorStateRoot
enforce_inactive_record_capacities root = record root {
  action_ledger_records =
      evict_ledger_rows (length root.action_ledger_records) root.action_ledger_records;
}

abbrev pub RevisionRow : Type 0
RevisionRow = ℕ × Bytes × ConversationStateKey

unfoldable pub removable_revisions :
    List ConversationStateKey → List (ConversationStateKey × StateRevisionRecord) → List RevisionRow
unfolding key_bytes sort_by
removable_revisions pinned revisions =
    sort_by (λ a b. sort_key_le (a.0, a.1, []) (b.0, b.1, []))
      (map (λ e. (e.1.updated_at_monotonic_ns, key_bytes e.0 [], e.0))
        (keep (λ e. not (elem e.0 pinned)) revisions))

unfoldable pub enforce_state_revision_capacity :
    CoordinatorStateRoot → ℕ → Result CoordinatorStateRoot
unfolding items
enforce_state_revision_capacity root capacity =
    let pruned = without_unpinned_revisions root in
    let removable = removable_revisions (pinned_state_keys pruned) (items pruned.state_revisions) in
    let excess = length pruned.state_revisions - capacity in
    let victims = map (λ row. row.2) (take excess removable) in
    if leb (length pruned.state_revisions) capacity
    then ok pruned
    else if ltb (length removable) excess
    then err state_store_unavailable
    else ok (record pruned { state_revisions = without_keys pruned.state_revisions victims })

unfoldable pub prepare_root_for_publication : CoordinatorStateRoot → ℕ → Result CoordinatorStateRoot
prepare_root_for_publication root state_revision_capacity = do
  bounded ←
      enforce_state_revision_capacity (enforce_inactive_record_capacities root)
        state_revision_capacity
  let ordered = with_root_orders bounded
  validate_root ordered
  ok ordered
