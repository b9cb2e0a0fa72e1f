-- ===== src/Coordinator/Reservations/Exclusion.antt =====
-- One reply at a time (coordinator_reservations.py): what the first look at the issued records
-- answers while a reservation stands.
use market_support_crewai_ag.Prelude.{
  Bool, Bool-cases, Option-cases, String, arith, bool_Eq, eq_refl, if◌then◌else◌, inl, inr, is_some,
  list_Eq, nat_Eq, none, option_Eq, pair_Eq, refl, some, string_Eq, triple_Eq, ◌!=◌, ◌&&◌, ◌+◌,
  ◌==◌, ◌||◌, ◌≡◌,
}
use market_support_crewai_ag.Coordinator.Config.{CoordinatorConfig}
use market_support_crewai_ag.Coordinator.Reservations.{
  Readings, abort_reply_candidate, existing_record_result, existing_reservation_result,
  fresh_revision, or_else, owned_reservation, pending_record, reserved,
}
use market_support_crewai_ag.Errors.{
  conversation_turn_in_progress, err, ok, request_id_conflict, request_in_progress,
}
use market_support_crewai_ag.FrozenMap.{get, insert}
use market_support_crewai_ag.FrozenMap.Laws.{get-insert, get-insert_self, without_keys-insert}
use market_support_crewai_ag.Identity.{
  ConversationStateKey, pair_Repr, scene_Eq, state_key_Eq, state_key_Repr, string_Repr, triple_Repr,
}
use market_support_crewai_ag.Records.{IssuedResponseRecord, pending}
use market_support_crewai_ag.Root.{CoordinatorStateRoot}
use market_support_crewai_ag.Schemas.{execution_type_Eq, reply_kind_Eq, status_Eq}

module _ (state_key : ConversationStateKey) (request_id request_hash : String)
    (replay_eligible : Bool) (root : CoordinatorStateRoot) (now : Readings)
    (config : CoordinatorConfig) where
  abbrev new_record : IssuedResponseRecord
  new_record = pending (
      pending_record state_key request_id request_hash replay_eligible
        (or_else (get state_key root.state_revisions) (fresh_revision now config 0)) now config)

  inserted :
      (other_id : String)
      → get (state_key, other_id) (insert (state_key, request_id) new_record root.issued_records)
        ≡ (if state_key == state_key && other_id == request_id
            then some new_record
            else get (state_key, other_id) root.issued_records)
  inserted other_id =
      get-insert (state_key, other_id) (state_key, request_id) new_record root.issued_records

  own_pending :
      get state_key (insert state_key (state_key, request_id) root.pending_request_by_state)
      ≡ some (state_key, request_id)
  own_pending = get-insert_self state_key (state_key, request_id) root.pending_request_by_state

  -- In the root after a reservation, the first look refuses the reserved request as in progress,
  -- its id with another hash or replay eligibility as a conflict, and an id without a record as
  -- another turn of the conversation; an id that has a record is answered as before the
  -- reservation.
  pub reserved-excludes :
      (other_id other_hash : String) (other_eligible : Bool)
      → existing_reservation_result state_key other_id other_hash other_eligible
          (reserved state_key request_id request_hash replay_eligible root now config).0
        ≡ (if other_id == request_id
            then (if request_hash != other_hash || replay_eligible != other_eligible
                then err request_id_conflict
                else err request_in_progress)
            else if is_some (get (state_key, other_id) root.issued_records)
            then existing_reservation_result state_key other_id other_hash other_eligible root
            else err conversation_turn_in_progress)
  unfolding reserved existing_reservation_result existing_record_result pending_record
  reserved-excludes other_id other_hash other_eligible =
      elim (Option-cases (get (state_key, other_id) root.issued_records)) [
        | inl absent ↦ ground (arith, absent, inserted other_id, own_pending, eq_refl state_key)
        | inr (r, present) ↦ elim (Bool-cases (other_id == request_id)) [
          | inl same ↦ rw inserted (rw same (rw eq_refl (ground arith)))
          | inr apart ↦ rw inserted (rw apart (rw eq_refl (rw present refl)))
        ]
      ]

  -- A reservation that its owner aborts leaves the issued records and the pending requests as
  -- they were, and the rest of the root but its revision as the reservation left it, when no
  -- record of the request and no pending request of the conversation stood there before.
  pub abort-reserved :
      get (state_key, request_id) root.issued_records ≡ none
      → get state_key root.pending_request_by_state ≡ none
      → abort_reply_candidate
          (reserved state_key request_id request_hash replay_eligible root now config).0
          state_key
          request_id
          now.owner_token
        ≡ ok
            (record (reserved state_key request_id request_hash replay_eligible root now config).0 {
              root_revision = root.root_revision + 2;
              issued_records = root.issued_records;
              pending_request_by_state = root.pending_request_by_state;
            })
  unfolding reserved abort_reply_candidate owned_reservation pending_record
  abort-reserved absent idle = rw get-insert_self (
      ground (
        arith,
        eq_refl now.owner_token,
        without_keys-insert (state_key, request_id)
            (pending (
              pending_record state_key request_id request_hash replay_eligible
                (or_else (get state_key root.state_revisions) (fresh_revision now config 0)) now
                config))
            root.issued_records absent,
        without_keys-insert state_key (state_key, request_id) root.pending_request_by_state idle,
      ))
