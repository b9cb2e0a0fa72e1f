-- ===== src/Coordinator/Reservations.antt =====
-- src/market_support_crewai_agent/runtime/state/coordinator_reservations.py. What a call reads of
-- the clocks and of `secrets.token_bytes` is an argument, one for each reading.
pub mod Exclusion
use market_support_crewai_ag.Prelude.{
  Bool, List, Option, String, [], bool_Eq, if◌then◌else◌, keep, length, list_Eq, nat_Eq, none, not,
  option_Eq, pair_Eq, some, string_Eq, triple_Eq, ℕ, ◌!=◌, ◌&&◌, ◌+◌, ◌==◌, ◌||◌, ◌∷◌,
}
use market_support_crewai_ag.Coordinator.Config.{CoordinatorConfig}
use market_support_crewai_ag.Coordinator.Ledger.{admitted_action_ledger_rows}
use market_support_crewai_ag.Coordinator.Retention.{
  Clarifications, Turns, enforce_session_capacity, evict_sessions,
}
use market_support_crewai_ag.Errors.{
  Result, conversation_turn_in_progress, err, ok, request_id_conflict, request_in_progress,
  reservation_not_found, ◌>>=◌, ◌>>◌,
}
use market_support_crewai_ag.FrozenMap.{contains, get, insert, without_keys}
use market_support_crewai_ag.Identity.{
  ConversationStateKey, pair_Repr, scene_Eq, state_key_Eq, state_key_Repr, string_Repr, triple_Repr,
}
use market_support_crewai_ag.Records.{
  ConversationTurnRecord, IssuedResponseRecord, NewReplyReservation, PendingClarificationRecord,
  PendingIssuedResponseRecord, ReservationResult, StateRevisionRecord, TurnAdmissionSnapshot,
  complete, completed_replay, new_reservation, pending,
}
use market_support_crewai_ag.Root.{CoordinatorStateRoot}
use market_support_crewai_ag.Root.Orders.{state_session_eviction_order}
use market_support_crewai_ag.Schemas.{execution_type_Eq, reply_kind_Eq, status_Eq}
use market_support_crewai_ag.Text.{Bytes}

-- what one call reads
pub record Readings : Type 0 where
  pub monotonic_ns : ℕ
  pub epoch_ms : ℕ
  pub revision_token : Bytes
  pub owner_token : Bytes

abbrev pub fresh_revision : Readings → CoordinatorConfig → ℕ → StateRevisionRecord
fresh_revision now config revision = record {
  revision_epoch = now.revision_token;
  revision = revision;
  created_at_monotonic_ns = now.monotonic_ns;
  updated_at_monotonic_ns = now.monotonic_ns;
  expires_at_monotonic_ns = now.monotonic_ns + config.issued_ttl_ns;
}

abbrev pub or_else {ℓ} : {A : Type ℓ} → Option A → A → A
or_else none a = a
or_else (some b) a = b

unfoldable pub turn_is_admitted : String → String → String → ConversationTurnRecord → Bool
turn_is_admitted par1 grh1 bsh1 turn = turn.par1 == par1 && (turn.grh1 == grh1 && turn.bsh1 == bsh1)

unfoldable pub admitted_clarification :
    String → String → String → Option PendingClarificationRecord → Option PendingClarificationRecord
admitted_clarification par1 grh1 bsh1 none = none
admitted_clarification par1 grh1 bsh1 (some c) =
    if c.par1 != par1 || (c.grh1 != grh1 || c.bsh1 != bsh1) then none else some c

unfoldable pub read_turn_admission_snapshot :
    CoordinatorStateRoot
    → ConversationStateKey
    → String
    → String
    → String
    → Readings
    → CoordinatorConfig
    → TurnAdmissionSnapshot
unfolding turn_is_admitted admitted_clarification
read_turn_admission_snapshot root state_key par1 grh1 bsh1 now config =
    let revision = or_else (get state_key root.state_revisions) (fresh_revision now config 0) in
    record {
      state_key = state_key;
      par1 = par1;
      grh1 = grh1;
      bsh1 = bsh1;
      ledger_rows = admitted_action_ledger_rows root state_key par1 grh1 bsh1;
      turns =
          keep (turn_is_admitted par1 grh1 bsh1)
            (or_else (get state_key root.conversation_turns) []);
      pending_clarification =
          admitted_clarification par1 grh1 bsh1 (get state_key root.clarification_records);
      revision_epoch = revision.revision_epoch;
      state_revision = revision.revision;
      snapshot_at_epoch_ms = now.epoch_ms;
      snapshot_at_monotonic_ns = now.monotonic_ns;
      pending_reply = contains state_key root.pending_request_by_state;
    }

module _ (state_key : ConversationStateKey) (request_id request_hash : String)
    (replay_eligible : Bool) where
  -- the branch of `existing_reservation_result` where a record of the request exists
  unfoldable pub existing_record_result : IssuedResponseRecord → Result (Option ReservationResult)
  existing_record_result (pending r) =
      if r.request_hash != request_hash || r.replay_eligible != replay_eligible
      then err request_id_conflict
      else err request_in_progress
  existing_record_result (complete r) =
      if r.request_hash != request_hash || r.replay_eligible != replay_eligible
      then err request_id_conflict
      else if not replay_eligible
      then err request_id_conflict
      else ok (
          some (
            completed_replay (record {
              state_key = state_key;
              request_id = request_id;
              request_hash = request_hash;
              response = r.response;
              issued_at_epoch_ms = r.issued_at_epoch_ms;
              issued_record_revision = r.record_revision;
            })))

  abbrev existing_at :
      CoordinatorStateRoot → Option IssuedResponseRecord → Result (Option ReservationResult)
  existing_at root (some existing) = existing_record_result existing
  existing_at root none =
      if contains state_key root.pending_request_by_state
      then err conversation_turn_in_progress
      else ok none

  unfoldable pub existing_reservation_result :
      CoordinatorStateRoot → Result (Option ReservationResult)
  unfolding existing_record_result
  existing_reservation_result root =
      existing_at root (get (state_key, request_id) root.issued_records)

  unfoldable pub pending_record :
      StateRevisionRecord → Readings → CoordinatorConfig → PendingIssuedResponseRecord
  pending_record state_revision now config = record {
    state_key = state_key;
    request_id = request_id;
    request_hash = request_hash;
    replay_eligible = replay_eligible;
    owner_token = now.owner_token;
    revision_epoch = state_revision.revision_epoch;
    reserved_state_revision = state_revision.revision;
    created_at_epoch_ms = now.epoch_ms;
    created_at_monotonic_ns = now.monotonic_ns;
    expires_at_monotonic_ns = now.monotonic_ns + config.issued_pending_ttl_ns;
  }

  -- the root and the reservation that follow when no record of the request exists
  unfoldable pub reserved :
      CoordinatorStateRoot
      → Readings
      → CoordinatorConfig
      → CoordinatorStateRoot × NewReplyReservation
  unfolding pending_record
  reserved root now config =
      let state_revision =
        or_else (get state_key root.state_revisions) (fresh_revision now config 0) in
      (
        record root {
          root_revision = root.root_revision + 1;
          issued_records =
              insert (state_key, request_id) (pending (pending_record state_revision now config))
                root.issued_records;
          pending_request_by_state =
              insert state_key (state_key, request_id) root.pending_request_by_state;
          state_revisions = insert state_key state_revision root.state_revisions;
        },
        record {
          state_key = state_key;
          request_id = request_id;
          request_hash = request_hash;
          replay_eligible = replay_eligible;
          owner_token = now.owner_token;
          revision_epoch = state_revision.revision_epoch;
          state_revision = state_revision.revision;
        },
      )

  abbrev reserve_unless :
      CoordinatorStateRoot
      → Readings
      → CoordinatorConfig
      → Option ReservationResult
      → Option CoordinatorStateRoot × ReservationResult
  unfolding reserved
  reserve_unless root now config (some existing) = (none, existing)
  reserve_unless root now config none =
      let (candidate, reservation) = reserved root now config in
      (some candidate, new_reservation reservation)

  unfoldable pub reserve_reply_candidate :
      CoordinatorStateRoot
      → Readings
      → CoordinatorConfig
      → Result (Option CoordinatorStateRoot × ReservationResult)
  unfolding reserved
  reserve_reply_candidate root now config = do
    existing ← existing_reservation_result root
    ok (reserve_unless root now config existing)

-- the pending record of a request, for the holder of its owner token
unfoldable pub owned_reservation :
    Bytes → Option IssuedResponseRecord → Result PendingIssuedResponseRecord
owned_reservation owner_token (some (pending r)) =
    if r.owner_token != owner_token then err reservation_not_found else ok r
owned_reservation owner_token _ = err reservation_not_found

unfoldable pub abort_reply_candidate :
    CoordinatorStateRoot → ConversationStateKey → String → Bytes → Result CoordinatorStateRoot
abort_reply_candidate root state_key request_id owner_token = do
  found ← owned_reservation owner_token (get (state_key, request_id) root.issued_records)
  ok (record root {
    root_revision = root.root_revision + 1;
    issued_records = without_keys root.issued_records ((state_key, request_id) ∷ []);
    pending_request_by_state = without_keys root.pending_request_by_state (state_key ∷ []);
  })

-- The candidate that replaces a session's turns and clarification. The source writes the order
-- field with its state keys left out; publication computes the order anew in any case.
unfoldable pub replace_session_state_candidate :
    CoordinatorStateRoot
    → ConversationStateKey
    → List ConversationTurnRecord
    → Option PendingClarificationRecord
    → Readings
    → CoordinatorConfig
    → Result CoordinatorStateRoot
replace_session_state_candidate root state_key turns asked now config = do
  let turn_updates = updated_turns turns
  let clarification_updates = updated_clarifications asked
  let fuel = length (state_session_eviction_order turn_updates clarification_updates)
  (turns', clarifications') ←
      evict_sessions fuel root.pending_request_by_state config.conversation_max_sessions
        turn_updates clarification_updates
  enforce_session_capacity
      (record root {
        root_revision = root.root_revision + 1;
        conversation_turns = turns';
        clarification_records = clarifications';
        orders = record root.orders {
          state_session_eviction_order = state_session_eviction_order turns' clarifications';
        };
        state_revisions =
            insert state_key (next_revision (get state_key root.state_revisions))
              root.state_revisions;
      })
      config.conversation_max_sessions
  where
    updated_turns : List ConversationTurnRecord → Turns
    updated_turns [] = without_keys root.conversation_turns (state_key ∷ [])
    updated_turns (t ∷ ts) = insert state_key (t ∷ ts) root.conversation_turns

    updated_clarifications : Option PendingClarificationRecord → Clarifications
    updated_clarifications none = without_keys root.clarification_records (state_key ∷ [])
    updated_clarifications (some c) = insert state_key c root.clarification_records

    next_revision : Option StateRevisionRecord → StateRevisionRecord
    next_revision none = fresh_revision now config 1
    next_revision (some prior) = record {
      revision_epoch = prior.revision_epoch;
      revision = prior.revision + 1;
      created_at_monotonic_ns = prior.created_at_monotonic_ns;
      updated_at_monotonic_ns = now.monotonic_ns;
      expires_at_monotonic_ns = now.monotonic_ns + config.issued_ttl_ns;
    }
