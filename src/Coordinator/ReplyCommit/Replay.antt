-- ===== src/Coordinator/ReplyCommit/Replay.antt =====
-- What a committed reply leaves behind for the next request of the same id
-- (coordinator_reply_commit.py, coordinator_reservations.py).
use market_support_crewai_ag.Prelude.{
  Bool, String, [], arith, bool_Eq, if◌then◌else◌, list_Eq, nat_Eq, not, option_Eq, pair_Eq, some,
  string_Eq, triple_Eq, ℕ, ◌!=◌, ◌||◌, ◌∷◌, ◌≡◌,
}
use market_support_crewai_ag.Coordinator.Config.{CoordinatorConfig}
use market_support_crewai_ag.Coordinator.Hashing.{Hashing}
use market_support_crewai_ag.Coordinator.ReplyCommit.{
  check_commit, commit_reply_candidate, committed_root, completed_record, revised,
}
use market_support_crewai_ag.Coordinator.ReplyCommit.Steps.{commit_reply_candidate-CommitSteps}
use market_support_crewai_ag.Coordinator.Reservations.{
  Readings, abort_reply_candidate, existing_record_result, existing_reservation_result,
  owned_reservation,
}
use market_support_crewai_ag.Coordinator.Retention.Sessions.{enforce_session_capacity-issued}
use market_support_crewai_ag.Errors.{err, ok, request_id_conflict, reservation_not_found}
use market_support_crewai_ag.FrozenMap.{insert, without_keys}
use market_support_crewai_ag.FrozenMap.Laws.{get-insert_self}
use market_support_crewai_ag.Identity.{
  pair_Repr, scene_Eq, state_key_Eq, state_key_Repr, string_Repr, triple_Repr,
}
use market_support_crewai_ag.Records.{
  IssuedResponseRecord, ReplyCommitProposal, StateRevisionRecord, complete, completed_replay,
}
use market_support_crewai_ag.Root.{CoordinatorStateRoot}
use market_support_crewai_ag.Schemas.{ReplyResponse, execution_type_Eq, reply_kind_Eq, status_Eq}
use market_support_crewai_ag.Text.{Bytes}

module _ (hashing : Hashing) (root candidate : CoordinatorStateRoot) (p : ReplyCommitProposal)
    (uuid : ℕ → String) (now : Readings) (config : CoordinatorConfig) (response : ReplyResponse)
    (done : commit_reply_candidate hashing root p uuid now config ≡ ok (candidate, response)) where
  abbrev stored_record : StateRevisionRecord → IssuedResponseRecord
  stored_record revision = complete (
      completed_record p response (revised revision now.monotonic_ns config) now.monotonic_ns
        now.epoch_ms config)

  commit_reply_candidate-issued :
      (revision : StateRevisionRecord) × (check_commit root p ≡ ok revision)
      × ((candidate.issued_records
            ≡ insert (p.state_key, p.request_id) (stored_record revision) root.issued_records)
          × (candidate.pending_request_by_state
              ≡ without_keys root.pending_request_by_state (p.state_key ∷ [])))
  unfolding committed_root
  commit_reply_candidate-issued =
      let steps =
        commit_reply_candidate-CommitSteps hashing root candidate p uuid now config response done in
      let (issued, requests, _, _) =
        enforce_session_capacity-issued _ candidate config.conversation_max_sessions steps.fits in
      (steps.checked_revision, steps.checked, (issued, requests))

  -- In the root that a commit produces, the first look for a request of the committed id answers
  -- without a reservation: with the committed response when the hash is the committed one and both
  -- the commit and the request are eligible for a replay, and with a conflict otherwise, also when
  -- neither is eligible.
  pub existing-commit_reply :
      (request_hash : String) (replay_eligible : Bool)
      → existing_reservation_result p.state_key p.request_id request_hash replay_eligible candidate
        ≡ (if p.request_hash != request_hash
              || p.replay_eligible != replay_eligible
              || not replay_eligible
            then err request_id_conflict
            else ok (
                some (
                  completed_replay (record {
                    state_key = p.state_key;
                    request_id = p.request_id;
                    request_hash = request_hash;
                    response = response;
                    issued_at_epoch_ms = now.epoch_ms;
                    issued_record_revision = 1;
                  }))))
  unfolding existing_reservation_result existing_record_result completed_record
  existing-commit_reply request_hash replay_eligible =
      let (revision, checked, (issued, requests)) = commit_reply_candidate-issued in
      rw issued (rw get-insert_self (ground arith))

  -- A request is committed at most once: after a commit, a second commit of the same request, with
  -- whatever content, token and revision, and an abort of it are refused, as no reservation of it
  -- is left.
  pub commit-commit_reply :
      (again : ReplyCommitProposal) (uuid' : ℕ → String) (now' : Readings) (owner_token : Bytes)
      → again.state_key ≡ p.state_key
      → again.request_id ≡ p.request_id
      → (commit_reply_candidate hashing candidate again uuid' now' config
          ≡ err reservation_not_found)
        × (abort_reply_candidate candidate p.state_key p.request_id owner_token
            ≡ err reservation_not_found)
  unfolding commit_reply_candidate check_commit abort_reply_candidate owned_reservation
  commit-commit_reply again uuid' now' owner_token same_state same_request =
      let (revision, checked, (issued, requests)) = commit_reply_candidate-issued in
      (
        rw (same_state, same_request) (rw issued (rw get-insert_self)),
        rw issued (rw get-insert_self),
      )
