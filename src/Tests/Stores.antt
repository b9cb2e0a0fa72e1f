-- ===== src/Tests/Stores.antt =====
-- The conversation store, the action ledger, the document cache and the retries at concrete inputs.
use market_support_crewai_ag.Prelude.{
  List, Option, String, [], arith, bool_Eq, if◌then◌else◌, leb, length, list_Eq, min_by, nat_Eq,
  none, option_Eq, pair_Eq, refl, some, string_Eq, suc, triple_Eq, zero, ℕ, ◌∷◌, ◌≡◌, ◌≢◌, ◌≤◌, ◌⊎◌,
}
use market_support_crewai_ag.ActionLedger.{
  ActionLedger, cleanup_expired_records, new_ledger, record_feedback,
}
use market_support_crewai_ag.ActionLedger.Bounds.{
  Sound, after_ledger_calls, after_ledger_calls-new_ledger, looked_up_recent, recorded_feedback,
}
use market_support_crewai_ag.ActionLedger.Replay.{record_feedback-again}
use market_support_crewai_ag.Alignment.{response_mode_Eq}
use market_support_crewai_ag.ConversationStore.{
  ConversationMessage, ConversationSession, ConversationStore, StoreParameters, cleanup_sessions,
  get_recent, new_store, save_turn,
}
use market_support_crewai_ag.ConversationStore.Bounds.{
  Bounded, StoreCall, after_calls, after_calls-new_store, cleaned_up_sessions, read_recent,
  saved_turn,
}
use market_support_crewai_ag.ConversationStore.Refinement.{
  Remembers, cleanup_sessions-recall, get_recent-recall, remembered, save_turn-recall,
}
use market_support_crewai_ag.ConversationStore.View.{recall}
use market_support_crewai_ag.DocumentCache.{Store, cache_get, cache_set}
use market_support_crewai_ag.DocumentCache.Expiry.{cache_get-set}
use market_support_crewai_ag.Identity.{
  ConversationStateKey, pair_Repr, scene_Eq, state_key_Eq, state_key_Repr, state_key_beq,
  string_Repr, triple_Repr,
}
use market_support_crewai_ag.Retry.{
  CallOutcome, RetryPolicy, call_failed, call_returned, retry_returned, run_with_retry,
}
use market_support_crewai_ag.Retry.Attempts.{EndsWith, run_with_retry-EndsWith}
use market_support_crewai_ag.Samples.{group_key, other_key, weekly_feedback}
use market_support_crewai_ag.Schemas.{execution_type_Eq, reply_kind_Eq, status_Eq}
use mathlib.Core.Option

abbrev test_parameters : StoreParameters String
test_parameters = record {
  state_key_ref = λ k. k.tenant_ref;
  source_metadata_for_conversation_message = λ ref role created_at. ref;
}

abbrev test_session : ConversationSession String
test_session = record { last_active_at = 100; expires_at = 1100; messages = [] }

abbrev test_store : ConversationStore String
test_store = record {
  ttl = 1000;
  max_messages = 3;
  max_sessions = 1;
  cleanup_interval = 300;
  sessions = (other_key, test_session) ∷ [];
  next_cleanup_at = 400;
}

abbrev recalled : List (ConversationMessage String) × ConversationStore String
recalled = get_recent other_key 500 test_store

get_recent-recall_example :
    (recalled.0 ≡ recall test_store.sessions other_key 500) × Remembers test_store recalled.1 500
get_recent-recall_example = get_recent-recall other_key 500 test_store (tt, tt)

-- the save evicts the other session
abbrev saved_store : ConversationStore String
saved_store = save_turn test_parameters group_key "Hello?" "Hello." 500 test_store

save_turn-recall_example :
    ((t : ℕ)
      → recall saved_store.sessions group_key t
        ≡ remembered test_parameters group_key "Hello?" "Hello." 500 test_store (tt, tt) t)
    × ((j : ConversationStateKey) (t : ℕ)
        → j ≢ group_key
        → 500 ≤ t
        → (recall saved_store.sessions j t ≡ recall test_store.sessions j t)
          ⊎ (recall saved_store.sessions j t ≡ []))
save_turn-recall_example =
    save_turn-recall test_parameters group_key "Hello?" "Hello." 500 test_store (tt, tt)

test-save_turn : length saved_store.sessions ≡ 1
unfolding save_turn state_key_beq min_by
test-save_turn = refl

cleanup_sessions-recall_example :
    recall (cleanup_sessions 1200 test_store).0.sessions other_key 1300
    ≡ recall test_store.sessions other_key 1300
cleanup_sessions-recall_example =
    cleanup_sessions-recall 1200 test_store (tt, tt) other_key 1300 (omega arith)

abbrev made_store : ConversationStore String
made_store = record {
  ttl = 60000000;
  max_messages = 2;
  max_sessions = 1;
  cleanup_interval = 0;
  sessions = [];
  next_cleanup_at = 7;
}

makes_store : new_store String 60 2 1 0 7 ≡ some made_store
unfolding new_store
makes_store = refl

abbrev store_calls : List (StoreCall String)
store_calls =
    saved_turn group_key "a" "b" 10
    ∷ saved_turn other_key "c" "d" 20
    ∷ saved_turn other_key "e" "f" 30
    ∷ read_recent group_key 40
    ∷ cleaned_up_sessions 50
    ∷ []

after_calls-new_store_example :
    Bounded 2 1 (after_calls test_parameters store_calls made_store).sessions
after_calls-new_store_example =
    after_calls-new_store test_parameters 60 2 1 0 7 made_store store_calls makes_store

abbrev made_ledger : ActionLedger
made_ledger = record { max_records = 2; ttl = some 60000000; records = []; keys = [] }

makes_ledger : new_ledger 2 (some 60) ≡ some made_ledger
unfolding new_ledger
makes_ledger = refl

abbrev ledger_ref : ConversationStateKey → String
ledger_ref k = k.tenant_ref

after_ledger_calls-new_ledger_example : Sound 2 (
    after_ledger_calls ledger_ref
      (recorded_feedback weekly_feedback group_key 10
        ∷ recorded_feedback weekly_feedback group_key 20
        ∷ looked_up_recent group_key 5 30
        ∷ [])
      made_ledger)
after_ledger_calls-new_ledger_example =
    after_ledger_calls-new_ledger ledger_ref 2 (some 60) made_ledger
      (recorded_feedback weekly_feedback group_key 10
        ∷ recorded_feedback weekly_feedback group_key 20
        ∷ looked_up_recent group_key 5 30
        ∷ [])
      makes_ledger

abbrev recorded : ℕ × ActionLedger
recorded = record_feedback ledger_ref weekly_feedback group_key 10 made_ledger

test-record_feedback : recorded.0 ≡ 1
unfolding record_feedback
test-record_feedback = refl

still_live : (cleanup_expired_records 20 recorded.1).1 ≡ 0
unfolding cleanup_expired_records record_feedback
still_live = refl

record_feedback-again_example :
    record_feedback ledger_ref weekly_feedback group_key 20 recorded.1 ≡ (0, recorded.1)
record_feedback-again_example =
    record_feedback-again ledger_ref weekly_feedback group_key 10 20 made_ledger (omega arith)
      still_live

-- the first call is rate limited, the second returns
abbrev test_policy : RetryPolicy
test_policy = record { retry_attempts = 2 }

abbrev test_calls : ℕ → CallOutcome String
test_calls zero = call_failed "rate limit"
test_calls (suc n) = call_returned "done"

abbrev test_reason : Option (String → Option String)
test_reason = some (λ e. some e)

test-run_with_retry :
    run_with_retry test_policy none test_reason test_calls
    ≡ (retry_returned "done", (1, "rate limit") ∷ [])
unfolding run_with_retry
test-run_with_retry = refl

run_with_retry-EndsWith_example :
    (k : ℕ) × EndsWith test_policy none test_reason test_calls 0 k
      (run_with_retry test_policy none test_reason test_calls)
run_with_retry-EndsWith_example = run_with_retry-EndsWith test_policy none test_reason test_calls

abbrev test_cache_key : String
test_cache_key = "ck1:0123456789abcdef0123456789abcdef0123456789abcdef0123456789abcdef"

sets : cache_set {V = ℕ} test_cache_key 5 60 100 [] ≡ some ((test_cache_key, (160, 5)) ∷ [])
unfolding cache_set
sets = refl

abbrev answer_of : Option (Option ℕ × Store ℕ) → Option (Option ℕ)
answer_of o = Option.map (λ (r : Option ℕ × Store ℕ). r.0) o

cache_get-set_example :
    ((t : ℕ)
      → answer_of (cache_get test_cache_key t ((test_cache_key, (160, 5)) ∷ []))
        ≡ some (if leb 160 t then none else some 5))
    × ((j : String) (t : ℕ)
        → j ≢ test_cache_key
        → answer_of (cache_get j t ((test_cache_key, (160, 5)) ∷ []))
          ≡ answer_of (cache_get j t []))
cache_get-set_example =
    cache_get-set test_cache_key 5 60 100 [] ((test_cache_key, (160, 5)) ∷ []) sets (omega arith)
