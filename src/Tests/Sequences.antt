-- ===== src/Tests/Sequences.antt =====
-- The invariant of the reply state at concrete inputs.
use market_support_crewai_ag.Prelude.{
  [], arith, bool_Eq, is_some, list_Eq, nat_Eq, none, option_Eq, pair_Eq, refl, some, sort_by,
  string_Eq, subst, triple_Eq, true, ◌+◌, ◌∷◌, ◌≡◌,
}
use market_support_crewai_ag.Alignment.{response_mode_Eq}
use market_support_crewai_ag.Coordinator.Cleanup.{cleanup_candidate}
use market_support_crewai_ag.Coordinator.Consistency.{IsConsistent}
use market_support_crewai_ag.Coordinator.Consistency.Aborts.{abort_reply-returns}
use market_support_crewai_ag.Coordinator.Consistency.Cleanups.{cleanup_candidate-IsConsistent}
use market_support_crewai_ag.Coordinator.Consistency.Evictions.{
  issued_capacity_eviction_candidate-IsConsistent,
}
use market_support_crewai_ag.Coordinator.Consistency.Feedbacks.{
  NamesRequest, commit_feedback_candidate-IsConsistent,
}
use market_support_crewai_ag.Coordinator.Consistency.Histories.{
  Calls-IsConsistent, cleanup_done, feedback_committed, no_calls, reply_committed, reply_reserved,
  then_call,
}
use market_support_crewai_ag.Coordinator.Consistency.Preparations.{
  prepare_feedback_candidate-NamesRequest,
}
use market_support_crewai_ag.Coordinator.Effects.{validate_execution_set}
use market_support_crewai_ag.Coordinator.Feedback.{
  commit_feedback_candidate, lookup, prepare_feedback_candidate, prepared_ttl_ns,
  resolve_feedback_record,
}
use market_support_crewai_ag.Coordinator.Retention.{
  complete_items, evict_oldest, issued_capacity_eviction_candidate,
}
use market_support_crewai_ag.Coordinator.Transactions.{
  CallInputs, Coordinator, abort_reply, cleanup_expired, commit_feedback, commit_reply,
  reserve_reply,
}
use market_support_crewai_ag.Errors.{Result, ok}
use market_support_crewai_ag.FrozenMap.{get, insert}
use market_support_crewai_ag.Identity.{
  pair_Repr, repr_pair, repr_state_key, repr_text, scene_Eq, state_key_Eq, state_key_Repr,
  state_key_beq, string_Repr, triple_Repr,
}
use market_support_crewai_ag.Records.{
  CompleteIssuedResponseRecord, FeedbackCommitResult, PreparedFeedback, issued_found, pending,
  prepared,
}
use market_support_crewai_ag.Root.{CoordinatorStateRoot}
use market_support_crewai_ag.Root.Validation.{indexes_valid}
use market_support_crewai_ag.Samples.{
  busy_coordinator, busy_root, complete_record, group_key, other_key, prepared_feedback,
  reply_proposal, test_config, test_hashing, test_now, waiting_record, weekly_feedback,
}
use market_support_crewai_ag.Samples.Outcomes.{
  ok-result_or, result_or, some-some_or, some_or, succeeds, test_inputs,
}
use market_support_crewai_ag.Schemas.{
  ActionFeedbackRequest, execution_type_Eq, reply_kind_Eq, status_Eq,
}

busy_root-IsConsistent : IsConsistent busy_root
unfolding state_key_beq
busy_root-IsConsistent = record {
  indexed = record {
    pending_valid = (refl, tt);
    responses_valid = (refl, tt);
    actions_valid = (refl, tt);
    keys_valid = (refl, (refl, tt));
  };
  distinct = ((refl, tt), (tt, tt));
  listed = (refl, (refl, tt));
}

abbrev full_coordinator : Coordinator
full_coordinator = record busy_coordinator {
  config = record test_config { issued_response_capacity = 2 };
}

abbrev later_inputs : CallInputs
later_inputs = record test_inputs { cleanup_ns = 650; cleanup_ms = 2000 }

found_names :
    (r : CompleteIssuedResponseRecord)
    → issued_found complete_record ≡ issued_found r
    → r.request_id ≡ "req-1"
found_names r same =
    let equal : complete_record ≡ r = cc in
    subst (λ (x : CompleteIssuedResponseRecord). x.request_id ≡ "req-1") equal refl

names_request : NamesRequest busy_root prepared_feedback
unfolding lookup state_key_beq
names_request r found = found_names r found

-- a commit of feedback, a reservation that makes room, a commit and a cleanup
abbrev after_feedback : Coordinator
after_feedback = (commit_feedback test_inputs test_hashing prepared_feedback full_coordinator).1

abbrev after_reserve : Coordinator
after_reserve = (reserve_reply test_inputs other_key "req-9" "hash-9" true after_feedback).1

abbrev after_reply : Coordinator
after_reply = (commit_reply test_inputs test_hashing reply_proposal after_reserve).1

abbrev after_cleanup : Coordinator
after_cleanup = (cleanup_expired later_inputs after_reply).1

Calls-IsConsistent_example :
    IsConsistent after_cleanup.root × (indexes_valid after_cleanup.root ≡ true)
Calls-IsConsistent_example =
    Calls-IsConsistent
      (then_call
        (then_call
          (then_call
            (then_call no_calls (feedback_committed test_inputs test_hashing prepared_feedback))
            (reply_reserved test_inputs other_key "req-9" "hash-9" true))
          (reply_committed test_inputs test_hashing reply_proposal))
        (cleanup_done later_inputs))
      ((((tt, names_request), tt), tt), tt) busy_root-IsConsistent

found_waiting : get (group_key, "req-2") busy_root.issued_records ≡ some (pending waiting_record)
unfolding state_key_beq
found_waiting = refl

abbrev after_abort : Result (Unit {0}) × Coordinator
after_abort = abort_reply test_inputs group_key "req-2" (9 ∷ []) busy_coordinator

abort_reply-returns_example :
    (after_abort.0 ≡ ok tt)
    × (get (group_key, "req-2") (after_abort.1).root.issued_records ≡ none)
    × (get group_key (after_abort.1).root.pending_request_by_state ≡ none)
abort_reply-returns_example =
    abort_reply-returns test_inputs busy_coordinator group_key "req-2" waiting_record
      busy_root-IsConsistent found_waiting (omega arith) refl

abbrev cleaned_busy : CoordinatorStateRoot
cleaned_busy = some_or busy_root (cleanup_candidate 200 1200 test_config busy_root).0

test-cleanup_busy : is_some (cleanup_candidate 200 1200 test_config busy_root).0 ≡ true
unfolding cleanup_candidate
test-cleanup_busy = refl

cleanup_candidate-IsConsistent_example : IsConsistent cleaned_busy
cleanup_candidate-IsConsistent_example =
    cleanup_candidate-IsConsistent 200 1200 test_config busy_root cleaned_busy
      busy_root-IsConsistent (some-some_or busy_root _ test-cleanup_busy)

abbrev without_oldest_response : CoordinatorStateRoot
without_oldest_response =
    some_or busy_root (result_or none (issued_capacity_eviction_candidate busy_root 2))

test-evict : issued_capacity_eviction_candidate busy_root 2 ≡ ok (some without_oldest_response)
unfolding issued_capacity_eviction_candidate state_key_beq evict_oldest complete_items sort_by
    repr_pair repr_state_key repr_text
test-evict = refl

issued_capacity_eviction_candidate-IsConsistent_example : IsConsistent without_oldest_response
issued_capacity_eviction_candidate-IsConsistent_example =
    issued_capacity_eviction_candidate-IsConsistent busy_root without_oldest_response 2
      busy_root-IsConsistent test-evict

-- the prepared feedback names the request of its response
abbrev fed_back : CoordinatorStateRoot × FeedbackCommitResult
fed_back =
    result_or (busy_root, record { receipt_id = ""; stored = 0; replayed = true })
      (commit_feedback_candidate test_hashing prepared_feedback 100 1000 test_config busy_root)

test-fed_back :
    succeeds
      (commit_feedback_candidate test_hashing prepared_feedback 100 1000 test_config busy_root)
    ≡ true
unfolding commit_feedback_candidate state_key_beq
test-fed_back = refl

commit_feedback_candidate-IsConsistent_example : IsConsistent fed_back.0
commit_feedback_candidate-IsConsistent_example =
    commit_feedback_candidate-IsConsistent test_hashing prepared_feedback 100 1000 test_config
      busy_root fed_back.0 fed_back.1 busy_root-IsConsistent names_request
      (ok-result_or (busy_root, record { receipt_id = ""; stored = 0; replayed = true }) _
        test-fed_back)

abbrev fresh_feedback : ActionFeedbackRequest
fresh_feedback = record weekly_feedback { feedback_id = "fb-2" }

abbrev fresh_preparation : PreparedFeedback
fresh_preparation = record prepared_feedback {
  feedback_id = "fb-2";
  feedback_hash = "fb-2";
  commit_token = test_now.owner_token;
  expires_at_monotonic_ns = test_now.monotonic_ns + prepared_ttl_ns;
}

abbrev prepared_root : CoordinatorStateRoot
prepared_root = record busy_root {
  root_revision = 9;
  prepared_feedback_tokens =
      insert (group_key, "fb-2")
        (record { preparation = fresh_preparation; created_at_monotonic_ns = 101 })
        busy_root.prepared_feedback_tokens;
}

fresh_resolved : resolve_feedback_record busy_root group_key fresh_feedback ≡ ok complete_record
unfolding resolve_feedback_record state_key_beq
fresh_resolved = refl

fresh_prepared :
    prepare_feedback_candidate test_hashing busy_root group_key fresh_feedback complete_record
      test_config test_now 101
    ≡ ok (some prepared_root, prepared fresh_preparation)
unfolding prepare_feedback_candidate state_key_beq validate_execution_set
fresh_prepared = refl

prepare_feedback_candidate-NamesRequest_example : NamesRequest prepared_root fresh_preparation
prepare_feedback_candidate-NamesRequest_example =
    prepare_feedback_candidate-NamesRequest test_hashing busy_root group_key fresh_feedback
      complete_record test_config test_now 101 prepared_root fresh_preparation fresh_resolved
      fresh_prepared
