-- ===== src/Coordinator/Validity.antt =====
-- The invariant behind `_validate_root` (src/market_support_crewai_agent/runtime/state/
-- coordinator_retention.py): the three indexes lead to records of the right phase, and a record
-- stands under its own state key and request id. The children are about the operations.
pub mod Writes
pub mod Reserve
pub mod Abort
pub mod Commit
pub mod Publish
use market_support_crewai_ag.Prelude.{
  All, Bool, String, [], arith, bool_Eq, eq_iff, list_Eq, nat_Eq, ne-elem_singleton, option_Eq,
  pair_Eq, some, string_Eq, subst, triple_Eq, true, ◌&&◌, ◌==◌, ◌∷◌, ◌≡◌, ◌≢◌,
}
use market_support_crewai_ag.FrozenMap.{FrozenMap, get, without_keys}
use market_support_crewai_ag.FrozenMap.Laws.{All-get, All-without_keys, all-items}
use market_support_crewai_ag.Identity.{
  ConversationStateKey, pair_Repr, scene_Eq, state_key_Eq, state_key_Repr, string_Repr, triple_Repr,
}
use market_support_crewai_ag.Records.{
  CompleteIssuedResponseRecord, IssuedResponseRecord, PendingIssuedResponseRecord, complete, other,
  pending,
}
use market_support_crewai_ag.Root.{ActionKey, CoordinatorStateRoot, IssuedKey}
use market_support_crewai_ag.Root.Validation.{
  Issued, action_entry_valid, indexes_valid, is_pending_for, pending_entry_valid,
  response_entry_valid,
}
use market_support_crewai_ag.Schemas.{execution_type_Eq, reply_kind_Eq, status_Eq}

abbrev pub stands_under_key : IssuedKey × IssuedResponseRecord → Bool
stands_under_key (key, pending r) = r.state_key == key.0 && r.request_id == key.1
stands_under_key (key, complete r) = r.state_key == key.0 && r.request_id == key.1

abbrev pub PendingRequests : Type 0
PendingRequests = FrozenMap ConversationStateKey IssuedKey

abbrev pub ResponseIndex : Type 0
ResponseIndex = FrozenMap String IssuedKey

abbrev pub ActionIndex : Type 0
ActionIndex = FrozenMap String ActionKey

pub record Indexed (issued : Issued) (requests : PendingRequests) (responses : ResponseIndex)
    (actions : ActionIndex) : Type 0 where
  pub pending_valid : All (λ e. pending_entry_valid issued e ≡ true) requests
  pub responses_valid : All (λ e. response_entry_valid issued e ≡ true) responses
  pub actions_valid : All (λ e. action_entry_valid issued responses e ≡ true) actions
  pub keys_valid : All (λ e. stands_under_key e ≡ true) issued

abbrev pub IsIndexed : CoordinatorStateRoot → Type 0
IsIndexed root =
    Indexed root.issued_records root.pending_request_by_state root.response_index root.action_index

-- A well-indexed root passes the checks of the indexes.
pub IsIndexed-indexes_valid :
    (root : CoordinatorStateRoot) → IsIndexed root → indexes_valid root ≡ true
unfolding indexes_valid
IsIndexed-indexes_valid root h = ground (
  arith,
  all-items (pending_entry_valid root.issued_records) root.pending_request_by_state h.pending_valid,
  all-items (response_entry_valid root.issued_records) root.response_index h.responses_valid,
  all-items (action_entry_valid root.issued_records root.response_index) root.action_index
      h.actions_valid,
)

module _ {issued : Issued} {requests : PendingRequests} {responses : ResponseIndex}
    {actions : ActionIndex} (h : Indexed issued requests responses actions) (key : IssuedKey) where
  -- the record of a request carries its state key and request id
  pub key-of_pending :
      (r : PendingIssuedResponseRecord)
      → get key issued ≡ some (pending r)
      → (r.state_key ≡ key.0) × (r.request_id ≡ key.1)
  key-of_pending r found =
      let under = All-get (λ e. stands_under_key e ≡ true) key issued h.keys_valid found in
      ground (arith, eq_iff r.state_key key.0, eq_iff r.request_id key.1)

  pub key-of_complete :
      (r : CompleteIssuedResponseRecord)
      → get key issued ≡ some (complete r)
      → (r.state_key ≡ key.0) × (r.request_id ≡ key.1)
  key-of_complete r found =
      let under = All-get (λ e. stands_under_key e ≡ true) key issued h.keys_valid found in
      ground (arith, eq_iff r.state_key key.0, eq_iff r.request_id key.1)

  module _ (r : PendingIssuedResponseRecord) (found : get key issued ≡ some (pending r)) where
    -- A pending entry of another state does not lead to this request.
    pending_elsewhere :
        (e : ConversationStateKey × IssuedKey)
        → pending_entry_valid issued e ≡ true
        → e.0 ≢ key.0
        → e.1 ≢ key
    pending_elsewhere e valid differ same =
        let at_key : is_pending_for e.0 (get key issued) ≡ true =
          subst (λ k. is_pending_for e.0 (get k issued) ≡ true) same valid in
        differ (cc ((eq_iff r.state_key e.0).0 (rw found at at_key), (key-of_pending r found).0))

    -- So the other entries stay valid when the request is answered or given up.
    pub pending-finished :
        (issued' : Issued)
        → ((k : IssuedKey) → k ≢ key → get k issued' ≡ get k issued)
        → All (λ e. pending_entry_valid issued' e ≡ true) (without_keys requests (key.0 ∷ []))
    pending-finished issued' elsewhere =
        All-without_keys _ _ (key.0 ∷ [])
          (λ e absent valid.
            let other = pending_elsewhere e valid (ne-elem_singleton e.0 key.0 absent) in
            rw (elsewhere e.1 other) valid)
          requests h.pending_valid
