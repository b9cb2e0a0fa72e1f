-- ===== src/Tests.antt =====
-- The operations at concrete inputs, and the theorems about them applied there.
mod Sequences
mod Alignments
mod Stores
mod Feedbacks
use market_support_crewai_ag.Prelude.{
  All, [], arith, bool_Eq, if◌then◌else◌, is_some, leb, length, list_Eq, nat_Eq, none, option_Eq,
  pair_Eq, refl, some, sort_by, string_Eq, triple_Eq, true, ◌↔◌, ◌∷◌, ◌≡◌, ◌≤◌, ◌⊎◌,
}
use market_support_crewai_ag.Alignment.{response_mode_Eq}
use market_support_crewai_ag.Audit.Build.{build_audit_record}
use market_support_crewai_ag.Coordinator.Cleanup.{cleanup_candidate}
use market_support_crewai_ag.Coordinator.Cleanup.Live.{IsLive, cleanup_candidate-IsLive}
use market_support_crewai_ag.Coordinator.Config.{ConfigArguments, build_coordinator_config}
use market_support_crewai_ag.Coordinator.Effects.{
  apply_transition, execution_effect_key, prepare_transition, validate_status_transition,
}
use market_support_crewai_ag.Coordinator.Effects.Status.{
  Accepted, executed-final, validate_status_transition_lem,
}
use market_support_crewai_ag.Coordinator.Feedback.{
  commit_feedback_candidate, prepare_feedback_candidate, resolve_feedback_record,
}
use market_support_crewai_ag.Coordinator.Feedback.Isolation.{resolve_feedback_record-own}
use market_support_crewai_ag.Coordinator.Feedback.Replay.{prepare-commit_feedback}
use market_support_crewai_ag.Coordinator.ReplyCommit.{commit_reply_candidate, issue_response_ids}
use market_support_crewai_ag.Coordinator.ReplyCommit.Bounds.{commit_reply_candidate-IsShort}
use market_support_crewai_ag.Coordinator.ReplyCommit.Replay.{
  commit-commit_reply, existing-commit_reply,
}
use market_support_crewai_ag.Coordinator.Reservations.{
  abort_reply_candidate, existing_reservation_result, owned_reservation, reserved,
}
use market_support_crewai_ag.Coordinator.Reservations.Exclusion.{abort-reserved, reserved-excludes}
use market_support_crewai_ag.Coordinator.Retention.{
  enforce_inactive_record_capacities, enforce_session_capacity, enforce_state_revision_capacity,
  evict_sessions, evict_victim, pinned_state_keys, prepare_root_for_publication,
  without_unpinned_revisions,
}
use market_support_crewai_ag.Coordinator.Retention.Idle.{enforce_session_capacity-idle}
use market_support_crewai_ag.Coordinator.Retention.Revisions.{enforce_state_revision_capacity_lem}
use market_support_crewai_ag.Coordinator.Retention.Rows.{enforce_inactive_record_capacities-le}
use market_support_crewai_ag.Coordinator.Retention.Sessions.{
  enforce_session_capacity-le, enforce_session_capacity-pending,
}
use market_support_crewai_ag.Coordinator.Transactions.{Coordinator, commit_reply, publish}
use market_support_crewai_ag.Coordinator.Transactions.Publication.{commit_reply_lem, publish_lem}
use market_support_crewai_ag.Coordinator.Validity.{IsIndexed}
use market_support_crewai_ag.Coordinator.Validity.Abort.{abort-IsIndexed}
use market_support_crewai_ag.Coordinator.Validity.Commit.{commit_reply_candidate-IsIndexed}
use market_support_crewai_ag.Coordinator.Validity.Publish.{prepare_root_for_publication-IsIndexed}
use market_support_crewai_ag.Coordinator.Validity.Reserve.{reserved-IsIndexed}
use market_support_crewai_ag.Errors.{
  Error, Result, conversation_turn_in_progress, err, ok, reservation_not_found,
  state_store_unavailable,
}
use market_support_crewai_ag.FrozenMap.{contains, get}
use market_support_crewai_ag.Identity.{
  pair_Repr, scene_Eq, state_key_Eq, state_key_Repr, state_key_beq, string_Repr, triple_Repr,
}
use market_support_crewai_ag.Records.{FeedbackCommitResult, completed_replay, receipt_replay}
use market_support_crewai_ag.Root.{CoordinatorStateRoot, reply_abort}
use market_support_crewai_ag.Root.Ordered.{IsOrdered, validate_root-IsOrdered}
use market_support_crewai_ag.Root.Orders.{
  session_keys, state_session_eviction_order, with_root_orders,
}
use market_support_crewai_ag.Root.Validation.{
  find_effect, indexes_valid, validate-with_root_orders, validate_root,
}
use market_support_crewai_ag.Samples.{
  answered, busy_coordinator, busy_root, complete_record, group_key, other_key, prepared_feedback,
  reply_proposal, test_config, test_hashing, test_now, test_uuid, weekly_effect, weekly_execution,
  weekly_feedback, weekly_transition,
}
use market_support_crewai_ag.Samples.Outcomes.{
  ok-result_or, result_or, some-some_or, some_or, succeeds, test_inputs,
}
use market_support_crewai_ag.Schemas.{
  ReplyResponse, executed, execution_type_Eq, failed, reply_kind_Eq, status_Eq,
}

-- the result of code that may raise, in a case where it does not
busy_root-IsIndexed : IsIndexed busy_root
unfolding state_key_beq
busy_root-IsIndexed = record {
  pending_valid = (refl, tt);
  responses_valid = (refl, tt);
  actions_valid = (refl, tt);
  keys_valid = (refl, (refl, tt));
}

abbrev committed_reply : CoordinatorStateRoot × ReplyResponse
committed_reply =
    result_or (busy_root, answered)
      (commit_reply_candidate test_hashing busy_root reply_proposal test_uuid test_now test_config)

test-commit :
    succeeds
      (commit_reply_candidate test_hashing busy_root reply_proposal test_uuid test_now test_config)
    ≡ true
unfolding commit_reply_candidate state_key_beq issue_response_ids build_audit_record
    enforce_session_capacity evict_sessions state_session_eviction_order
test-commit = refl

commits :
    commit_reply_candidate test_hashing busy_root reply_proposal test_uuid test_now test_config
    ≡ ok committed_reply
commits = ok-result_or (busy_root, answered) _ test-commit

existing-commit_reply_example :
    existing_reservation_result group_key "req-2" "hash-2" true committed_reply.0
    ≡ ok (
        some (
          completed_replay (record {
            state_key = group_key;
            request_id = "req-2";
            request_hash = "hash-2";
            response = committed_reply.1;
            issued_at_epoch_ms = 1000;
            issued_record_revision = 1;
          })))
existing-commit_reply_example =
    existing-commit_reply test_hashing busy_root committed_reply.0 reply_proposal test_uuid test_now
      test_config committed_reply.1 commits "hash-2" true

commit_reply_candidate-IsShort_example :
    All (λ e. length e.1 ≤ 3) committed_reply.0.conversation_turns
commit_reply_candidate-IsShort_example =
    commit_reply_candidate-IsShort test_hashing busy_root committed_reply.0 reply_proposal test_uuid
      test_now test_config committed_reply.1 commits (omega arith) (omega arith, (omega arith, tt))

abbrev committed_feedback : CoordinatorStateRoot × FeedbackCommitResult
committed_feedback =
    result_or (busy_root, record { receipt_id = ""; stored = 0; replayed = true })
      (commit_feedback_candidate test_hashing prepared_feedback 100 1000 test_config busy_root)

test-commit_feedback :
    succeeds
      (commit_feedback_candidate test_hashing prepared_feedback 100 1000 test_config busy_root)
    ≡ true
unfolding commit_feedback_candidate state_key_beq
test-commit_feedback = refl

prepare-commit_feedback_example :
    prepare_feedback_candidate test_hashing committed_feedback.0 group_key weekly_feedback
      complete_record test_config test_now 100
    ≡ ok (
      none,
      receipt_replay (record {
        state_key = group_key;
        feedback_id = "fb-1";
        feedback_hash = "fb-1";
        request_id = "req-1";
        response_id = "resp-1";
        receipt_id = committed_feedback.1.receipt_id;
        issued_record_revision = 2;
      }),
    )
prepare-commit_feedback_example =
    prepare-commit_feedback test_hashing prepared_feedback 100 1000 test_config busy_root
      committed_feedback.0 committed_feedback.1 weekly_feedback complete_record test_now 100
      (ok-result_or (busy_root, record { receipt_id = ""; stored = 0; replayed = true }) _
        test-commit_feedback)
      refl

resolves : resolve_feedback_record busy_root group_key weekly_feedback ≡ ok complete_record
unfolding resolve_feedback_record state_key_beq
resolves = refl

resolve_feedback_record-own_example :
    (complete_record.state_key ≡ group_key)
    × (complete_record.response.response_id ≡ "resp-1")
    × (complete_record.request_id ≡ "req-1")
resolve_feedback_record-own_example =
    resolve_feedback_record-own busy_root group_key weekly_feedback complete_record
      busy_root-IsIndexed resolves

free : existing_reservation_result other_key "req-9" "hash-9" true busy_root ≡ ok none
unfolding existing_reservation_result state_key_beq
free = refl

absent : get (other_key, "req-8") busy_root.issued_records ≡ none
unfolding state_key_beq
absent = refl

reserved-excludes_example :
    existing_reservation_result other_key "req-8" "hash-8" true
      (reserved other_key "req-9" "hash-9" true busy_root test_now test_config).0
    ≡ err conversation_turn_in_progress
unfolding state_key_beq
reserved-excludes_example =
    reserved-excludes other_key "req-9" "hash-9" true busy_root test_now test_config "req-8"
      "hash-8" true

idle : get other_key busy_root.pending_request_by_state ≡ none
unfolding state_key_beq
idle = refl

abort-reserved_example :
    abort_reply_candidate
      (reserved other_key "req-8" "hash-8" true busy_root test_now test_config).0
      other_key
      "req-8"
      (9 ∷ [])
    ≡ ok (record (reserved other_key "req-8" "hash-8" true busy_root test_now test_config).0 {
      root_revision = 10;
      issued_records = busy_root.issued_records;
      pending_request_by_state = busy_root.pending_request_by_state;
    })
abort-reserved_example =
    abort-reserved other_key "req-8" "hash-8" true busy_root test_now test_config absent idle

reserved-IsIndexed_example :
    IsIndexed (reserved other_key "req-9" "hash-9" true busy_root test_now test_config).0
reserved-IsIndexed_example =
    reserved-IsIndexed other_key "req-9" "hash-9" true busy_root test_now test_config free
      busy_root-IsIndexed

abbrev aborted_root : CoordinatorStateRoot
aborted_root = result_or busy_root (abort_reply_candidate busy_root group_key "req-2" (9 ∷ []))

test-abort : succeeds (abort_reply_candidate busy_root group_key "req-2" (9 ∷ [])) ≡ true
unfolding abort_reply_candidate state_key_beq owned_reservation
test-abort = refl

abort-IsIndexed_example : IsIndexed aborted_root
abort-IsIndexed_example =
    abort-IsIndexed busy_root aborted_root group_key "req-2" (9 ∷ []) busy_root-IsIndexed
      (ok-result_or busy_root _ test-abort)

fits_capacity :
    length
      (without_unpinned_revisions (enforce_inactive_record_capacities busy_root)).state_revisions
    ≤ 20
unfolding without_unpinned_revisions state_key_beq enforce_inactive_record_capacities
    pinned_state_keys
fits_capacity = omega arith

prepare_root_for_publication-IsIndexed_example :
    (next : CoordinatorStateRoot) × (prepare_root_for_publication busy_root 20 ≡ ok next)
    × IsIndexed next
prepare_root_for_publication-IsIndexed_example =
    prepare_root_for_publication-IsIndexed busy_root 20 busy_root-IsIndexed fits_capacity

abbrev published : Result (Unit {0}) × Coordinator
published = publish [] reply_abort (some group_key) (group_key ∷ []) aborted_root busy_coordinator

publish_lem_example :
    ((published.0 ≡ ok tt)
      × (prepare_root_for_publication aborted_root 20 ≡ ok (published.1).root)
      × ((published.1).root.root_revision ≡ 9))
    ⊎ ((e : Error) × (published.0 ≡ err e) × ((published.1).root ≡ busy_root))
publish_lem_example =
    publish_lem [] reply_abort (some group_key) (group_key ∷ []) aborted_root busy_coordinator

validate_status_transition_lem_example :
    (validate_status_transition (some failed) none executed (some "file-1") ≡ ok tt)
    ↔ Accepted (some failed) none executed (some "file-1")
validate_status_transition_lem_example =
    validate_status_transition_lem (some failed) none executed (some "file-1")

test-prepare_transition :
    prepare_transition (weekly_effect ∷ []) weekly_execution ≡ ok weekly_transition
unfolding prepare_transition
test-prepare_transition = refl

test-find_effect :
    find_effect (execution_effect_key weekly_execution) (weekly_effect ∷ []) ≡ some weekly_effect
unfolding execution_effect_key
test-find_effect = refl

executed-final_example : apply_transition (some weekly_transition) weekly_effect ≡ weekly_effect
executed-final_example =
    executed-final (weekly_effect ∷ []) weekly_execution weekly_effect weekly_transition
      test-find_effect refl test-prepare_transition

abbrev idle_root : CoordinatorStateRoot
idle_root = record busy_root { pending_request_by_state = [] }

test-enforce_session_capacity : succeeds (enforce_session_capacity idle_root 1) ≡ true
unfolding enforce_session_capacity evict_sessions state_session_eviction_order state_key_beq
    evict_victim
test-enforce_session_capacity = refl

enforce_session_capacity-le_example :
    length (
      session_keys
        (result_or idle_root (enforce_session_capacity idle_root 1)).conversation_turns
        (result_or idle_root (enforce_session_capacity idle_root 1)).clarification_records)
    ≤ 1
enforce_session_capacity-le_example =
    enforce_session_capacity-le idle_root
      (result_or idle_root (enforce_session_capacity idle_root 1)) 1
      (ok-result_or idle_root _ test-enforce_session_capacity)

test-enforce_busy : succeeds (enforce_session_capacity busy_root 1) ≡ true
unfolding enforce_session_capacity evict_sessions state_session_eviction_order state_key_beq
    evict_victim
test-enforce_busy = refl

busy : contains group_key busy_root.pending_request_by_state ≡ true
unfolding state_key_beq
busy = refl

enforce_session_capacity-pending_example :
    (get group_key (result_or busy_root (enforce_session_capacity busy_root 1)).conversation_turns
      ≡ get group_key busy_root.conversation_turns)
    × (get group_key
          (result_or busy_root (enforce_session_capacity busy_root 1)).clarification_records
        ≡ get group_key busy_root.clarification_records)
enforce_session_capacity-pending_example =
    enforce_session_capacity-pending busy_root
      (result_or busy_root (enforce_session_capacity busy_root 1)) 1 group_key busy
      (ok-result_or busy_root _ test-enforce_busy)

enforce_inactive_record_capacities-le_example :
    length (enforce_inactive_record_capacities busy_root).action_ledger_records ≤ 5000
enforce_inactive_record_capacities-le_example = enforce_inactive_record_capacities-le busy_root

enforce_state_revision_capacity_lem_example : enforce_state_revision_capacity busy_root 1 ≡ (
    if leb (length (without_unpinned_revisions busy_root).state_revisions) 1
    then ok (without_unpinned_revisions busy_root)
    else err state_store_unavailable)
enforce_state_revision_capacity_lem_example = enforce_state_revision_capacity_lem busy_root 1

abbrev cleaned : CoordinatorStateRoot
cleaned = some_or busy_root (cleanup_candidate 200 1200 test_config busy_root).0

test-cleanup : is_some (cleanup_candidate 200 1200 test_config busy_root).0 ≡ true
unfolding cleanup_candidate
test-cleanup = refl

cleanup_candidate-IsLive_example : IsLive 200 1200 test_config cleaned
cleanup_candidate-IsLive_example =
    cleanup_candidate-IsLive 200 1200 test_config busy_root cleaned
      (some-some_or busy_root _ test-cleanup)

abbrev test_arguments : ConfigArguments
test_arguments = record {
  issued_response_capacity = 5000;
  conversation_max_sessions = 5000;
  feedback_receipt_capacity = 20000;
  conversation_ttl_seconds = 86400;
  conversation_max_messages = 12;
  issued_response_ttl_seconds = 86400;
  issued_response_pending_ttl_seconds = 180;
}

test-build_coordinator_config : succeeds (build_coordinator_config test_arguments) ≡ true
unfolding build_coordinator_config
test-build_coordinator_config = refl

commit-commit_reply_example :
    (commit_reply_candidate test_hashing committed_reply.0 reply_proposal test_uuid test_now
        test_config
      ≡ err reservation_not_found)
    × (abort_reply_candidate committed_reply.0 group_key "req-2" (9 ∷ [])
        ≡ err reservation_not_found)
commit-commit_reply_example =
    commit-commit_reply test_hashing busy_root committed_reply.0 reply_proposal test_uuid test_now
      test_config committed_reply.1 commits reply_proposal test_uuid test_now (9 ∷ []) refl refl

abbrev after_commit : Result ReplyResponse × Coordinator
after_commit = commit_reply test_inputs test_hashing reply_proposal busy_coordinator

commit_reply_lem_example :
    ((response : ReplyResponse) × (after_commit.0 ≡ ok response)
      × ((after_commit.1).root.root_revision ≡ 9))
    ⊎ ((e : Error) × (after_commit.0 ≡ err e) × ((after_commit.1).root ≡ busy_root))
commit_reply_lem_example = commit_reply_lem test_inputs test_hashing reply_proposal busy_coordinator

commit_reply_candidate-IsIndexed_example : IsIndexed committed_reply.0
commit_reply_candidate-IsIndexed_example =
    commit_reply_candidate-IsIndexed test_hashing busy_root committed_reply.0 reply_proposal
      test_uuid test_now test_config committed_reply.1 commits busy_root-IsIndexed

enforce_session_capacity-idle_example :
    (bounded : CoordinatorStateRoot) × (enforce_session_capacity idle_root 1 ≡ ok bounded)
    × (length (session_keys bounded.conversation_turns bounded.clarification_records) ≤ 1)
enforce_session_capacity-idle_example = enforce_session_capacity-idle idle_root 1 refl

busy_indexes : indexes_valid busy_root ≡ true
unfolding indexes_valid state_key_beq sort_by
busy_indexes = refl

busy_valid : validate_root (with_root_orders busy_root) ≡ ok tt
busy_valid = rw (validate-with_root_orders busy_root, busy_indexes) refl

validate_root-IsOrdered_example : IsOrdered (with_root_orders busy_root)
validate_root-IsOrdered_example = validate_root-IsOrdered (with_root_orders busy_root) busy_valid
