-- ===== src/Root/Validation.antt =====
-- `_validate_root` of src/market_support_crewai_agent/runtime/state/coordinator_retention.py
use market_support_crewai_ag.Prelude.{
  Bool, List, Option, String, all, arith, bool_Eq, eq_refl, false, find, if◌then◌else◌, list_Eq,
  nat_Eq, none, not, option_Eq, pair_Eq, refl, some, string_Eq, triple_Eq, true, ◌&&◌, ◌==◌, ◌≡◌,
}
use market_support_crewai_ag.Errors.{Result, err, ok, raise_if, state_store_unavailable, ◌>>◌}
use market_support_crewai_ag.FrozenMap.{FrozenMap, get, items}
use market_support_crewai_ag.Identity.{
  ConversationStateKey, pair_Repr, scene_Eq, state_key_Eq, state_key_Repr, string_Repr, triple_Repr,
}
use market_support_crewai_ag.Records.{IssuedEffect, IssuedResponseRecord, complete, pending}
use market_support_crewai_ag.Root.{ActionKey, CoordinatorStateRoot, IssuedKey, RootOrders}
use market_support_crewai_ag.Root.Orders.{root_orders, with_root_orders}
use market_support_crewai_ag.Schemas.{execution_type_Eq, reply_kind_Eq, status_Eq}

-- `record.phase == "pending" and record.state_key == state_key`, at the record that was looked up
abbrev pub is_pending_for : ConversationStateKey → Option IssuedResponseRecord → Bool
is_pending_for state_key (some (pending r)) = r.state_key == state_key
is_pending_for state_key _ = false

abbrev pub is_complete_for : String → Option IssuedResponseRecord → Bool
is_complete_for response_id (some (complete r)) = r.response.response_id == response_id
is_complete_for response_id _ = false

abbrev pub effect_has_action : String → Option IssuedEffect → Bool
effect_has_action action_id (some e) = e.action_id == some action_id
effect_has_action action_id none = false

-- `next((item for item in effects if item.effect_key == effect_key), None)`
abbrev pub find_effect : String → List IssuedEffect → Option IssuedEffect
find_effect effect_key effects = find (λ e. e.effect_key == effect_key) effects

abbrev pub is_complete_with_effect : String → String → Option IssuedResponseRecord → Bool
is_complete_with_effect action_id effect_key (some (complete r)) =
    effect_has_action action_id (find_effect effect_key r.effects)
is_complete_with_effect action_id effect_key _ = false

abbrev pub Issued : Type 0
Issued = FrozenMap IssuedKey IssuedResponseRecord

abbrev pub pending_entry_valid : Issued → ConversationStateKey × IssuedKey → Bool
pending_entry_valid issued (state_key, issued_key) =
    is_pending_for state_key (get issued_key issued)

abbrev pub response_entry_valid : Issued → String × IssuedKey → Bool
response_entry_valid issued (response_id, issued_key) =
    is_complete_for response_id (get issued_key issued)

-- the record behind the response that an action's entry names
abbrev pub action_target_valid :
    Issued → String → ConversationStateKey → String → Option IssuedKey → Bool
action_target_valid issued action_id state_key effect_key none = false
action_target_valid issued action_id state_key effect_key (some issued_key) =
    issued_key.0 == state_key
    && is_complete_with_effect action_id effect_key (get issued_key issued)

abbrev pub action_entry_valid : Issued → FrozenMap String IssuedKey → String × ActionKey → Bool
action_entry_valid issued response_index (action_id, (state_key, response_id, effect_key)) =
    action_target_valid issued action_id state_key effect_key (get response_id response_index)

unfoldable pub orders_eq : RootOrders → RootOrders → Bool
orders_eq a b =
    a.issued_expiry_order == b.issued_expiry_order
    && (a.issued_complete_eviction_order == b.issued_complete_eviction_order
        && (a.conversation_expiry_order == b.conversation_expiry_order
            && (a.state_session_eviction_order == b.state_session_eviction_order
                && (a.clarification_expiry_order == b.clarification_expiry_order
                    && (a.audit_expiry_order == b.audit_expiry_order
                        && (a.audit_eviction_order == b.audit_eviction_order
                            && (a.action_ledger_expiry_order == b.action_ledger_expiry_order
                                && (a.action_ledger_eviction_order == b.action_ledger_eviction_order
                                    && (a.feedback_receipt_expiry_order
                                          == b.feedback_receipt_expiry_order
                                        && (a.prepared_token_expiry_order
                                              == b.prepared_token_expiry_order
                                            && (a.state_revision_expiry_order
                                                  == b.state_revision_expiry_order
                                                && a.state_revision_eviction_order
                                                  == b.state_revision_eviction_order)))))))))))

unfoldable pub indexes_valid : CoordinatorStateRoot → Bool
unfolding items
indexes_valid root =
    all (pending_entry_valid root.issued_records) (items root.pending_request_by_state)
    && (all (response_entry_valid root.issued_records) (items root.response_index)
        && all (action_entry_valid root.issued_records root.response_index)
            (items root.action_index))

unfoldable pub validate_root : CoordinatorStateRoot → Result (Unit {0})
validate_root root = do
  raise_if (not (indexes_valid root)) state_store_unavailable
  raise_if (not (orders_eq root.orders (with_root_orders root).orders)) state_store_unavailable

pub orders_eq_refl : (a : RootOrders) → orders_eq a a ≡ true
unfolding orders_eq
orders_eq_refl a = simp eq_refl

root_orders-with_root_orders :
    (root : CoordinatorStateRoot) → root_orders (with_root_orders root) ≡ root_orders root
unfolding with_root_orders root_orders
root_orders-with_root_orders root = refl

orders-with_root_orders :
    (root : CoordinatorStateRoot) → (with_root_orders root).orders ≡ root_orders root
unfolding with_root_orders
orders-with_root_orders root = refl

indexes_valid-with_root_orders :
    (root : CoordinatorStateRoot) → indexes_valid (with_root_orders root) ≡ indexes_valid root
unfolding with_root_orders indexes_valid
indexes_valid-with_root_orders root = refl

-- A root whose orders were just computed is valid exactly when its indexes are: the comparison
-- of the orders does not fail.
pub validate-with_root_orders :
    (root : CoordinatorStateRoot)
    → validate_root (with_root_orders root)
      ≡ (if indexes_valid root then ok tt else err state_store_unavailable)
unfolding validate_root
validate-with_root_orders root =
    simp
      (
        indexes_valid-with_root_orders, orders-with_root_orders, root_orders-with_root_orders,
        orders_eq_refl,
      )
      (ground arith)
