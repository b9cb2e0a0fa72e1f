-- ===== src/Coordinator/Validity/Reserve.antt =====
-- The invariant across a reservation (coordinator_reservations.py).
use market_support_crewai_ag.Prelude.{
  All, All-map, Bool, Option-cases, String, arith, bool_Eq, eq_iff, eq_refl, inl, inr, list_Eq,
  nat_Eq, none, option_Eq, pair_Eq, refl, string_Eq, triple_Eq, true, ◌≡◌, ◌≢◌,
}
use market_support_crewai_ag.Coordinator.Config.{CoordinatorConfig}
use market_support_crewai_ag.Coordinator.Reservations.{
  Readings, existing_record_result, existing_reservation_result, reserved,
}
use market_support_crewai_ag.Coordinator.Validity.{IsIndexed}
use market_support_crewai_ag.Coordinator.Validity.Writes.{
  Spares, Spares-insert, actions-Spares, responses-Spares,
}
use market_support_crewai_ag.Errors.{ok}
use market_support_crewai_ag.FrozenMap.{get, insert}
use market_support_crewai_ag.FrozenMap.Laws.{All-insert, get-insert_self, test-insert}
use market_support_crewai_ag.Identity.{
  ConversationStateKey, pair_Repr, scene_Eq, state_key_Eq, state_key_Repr, string_Repr, triple_Repr,
}
use market_support_crewai_ag.Records.{
  IssuedResponseRecord, PendingIssuedResponseRecord, complete, pending,
}
use market_support_crewai_ag.Root.{CoordinatorStateRoot, IssuedKey}
use market_support_crewai_ag.Root.Validation.{is_pending_for, pending_entry_valid}
use market_support_crewai_ag.Schemas.{execution_type_Eq, reply_kind_Eq, status_Eq}

module _ (state_key : ConversationStateKey) (request_id request_hash : String)
    (replay_eligible : Bool) (root : CoordinatorStateRoot) where
  existing_record_result-ne :
      (r : IssuedResponseRecord)
      → existing_record_result state_key request_id request_hash replay_eligible r ≢ ok none
  unfolding existing_record_result
  existing_record_result-ne (pending r) h = ground arith
  existing_record_result-ne (complete r) h = ground arith

  -- what the first look finds when it lets the reservation go on
  pub no_record :
      existing_reservation_result state_key request_id request_hash replay_eligible root ≡ ok none
      → (get (state_key, request_id) root.issued_records ≡ none)
        × (get state_key root.pending_request_by_state ≡ none)
  unfolding existing_reservation_result
  no_record h = elim (Option-cases (get (state_key, request_id) root.issued_records)) [
    | inl absent ↦ (absent, ground arith)
    | inr (r, found) ↦ absurd (existing_record_result-ne r (rw found at h))
  ]

  module _ (now : Readings) (config : CoordinatorConfig)
      (free : existing_reservation_result state_key request_id request_hash replay_eligible root
        ≡ ok none)
      (h : IsIndexed root) where
    abbrev key : IssuedKey
    key = (state_key, request_id)

    spares :
        (w : IssuedResponseRecord) → Spares root.issued_records (insert key w root.issued_records)
    spares w = Spares-insert root.issued_records key w (rw ((no_record free).0))

    reserved_pending-valid :
        (r : PendingIssuedResponseRecord)
        → r.state_key ≡ state_key
        → All
            (λ e. pending_entry_valid (insert key (pending r) root.issued_records) e ≡ true)
            (insert state_key key root.pending_request_by_state)
    reserved_pending-valid r owner =
        All-insert _ state_key key root.pending_request_by_state
          (rw get-insert_self ((eq_iff r.state_key state_key).1 owner))
          (All-map _ _
            (λ x v.
              test-insert (is_pending_for x.0) x.1 key _ root.issued_records
                (rw ((no_record free).0)) v)
            root.pending_request_by_state h.pending_valid)

    -- A reservation keeps a root well-indexed, when the first look finds neither a record of the
    -- request nor a pending request of the conversation.
    pub reserved-IsIndexed :
        IsIndexed (reserved state_key request_id request_hash replay_eligible root now config).0
    unfolding reserved
    reserved-IsIndexed = record {
      pending_valid = reserved_pending-valid _ refl;
      responses_valid = responses-Spares root.issued_records _ (spares _) _ h.responses_valid;
      actions_valid = actions-Spares root.issued_records _ (spares _) _ _ h.actions_valid;
      keys_valid =
          All-insert _ key _ root.issued_records
            (ground (arith, eq_refl state_key, eq_refl request_id)) h.keys_valid;
    }
