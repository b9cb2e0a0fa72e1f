-- ===== src/Coordinator/Transactions.antt =====
-- ReplyStateTransactionCoordinatorV1
-- (src/market_support_crewai_agent/runtime/state/transaction_coordinator.py). Every method holds
-- the lock from its first line to its last, so a method is one step: it takes the coordinator and
-- returns its result, or what it raises, beside the coordinator as the method leaves it.
pub mod Publication
pub mod Drops
use market_support_crewai_ag.Prelude.{
  Bool, List, Option, String, [], bool_Eq, if◌then◌else◌, list_Eq, nat_Eq, none, option_Eq, pair_Eq,
  some, string_Eq, triple_Eq, ℕ, ◌!=◌, ◌+◌, ◌∷◌,
}
use market_support_crewai_ag.Coordinator.Cleanup.{cleanup_candidate}
use market_support_crewai_ag.Coordinator.Config.{
  ConfigArguments, CoordinatorConfig, build_coordinator_config,
}
use market_support_crewai_ag.Coordinator.Feedback.{
  commit_feedback_candidate, drop_prepared_token_candidate, prepare_feedback_candidate,
  requires_prepared_token_drop, resolve_feedback_record,
}
use market_support_crewai_ag.Coordinator.Hashing.{Hashing}
use market_support_crewai_ag.Coordinator.ReplyCommit.{commit_reply_candidate}
use market_support_crewai_ag.Coordinator.Reservations.{
  Readings, abort_reply_candidate, existing_reservation_result, reserve_reply_candidate,
}
use market_support_crewai_ag.Coordinator.Retention.{
  issued_capacity_eviction_candidate, prepare_root_for_publication,
}
use market_support_crewai_ag.Errors.{Result, err, fault, ok, state_store_unavailable}
use market_support_crewai_ag.Identity.{
  ConversationStateKey, pair_Repr, scene_Eq, state_key_Eq, state_key_Repr, string_Repr, triple_Repr,
}
use market_support_crewai_ag.Records.{
  FeedbackCommitResult, FeedbackPreparation, PreparedFeedback, ReplyCommitProposal,
  ReservationResult,
}
use market_support_crewai_ag.Root.{
  CoordinatorStateRoot, JournalOperation, ReplyStateJournal, cleanup, committed, feedback_commit,
  feedback_prepare, reply_abort, reply_commit, reply_reserve, rolled_back, staging,
}
use market_support_crewai_ag.Schemas.{
  ActionFeedbackRequest, ReplyResponse, execution_type_Eq, reply_kind_Eq, status_Eq,
}
use market_support_crewai_ag.Text.{Bytes}

-- `fault_hook operation` says whether the hook raises a RuntimeError.
pub record Coordinator : Type 0 where
  pub config : CoordinatorConfig
  pub root : CoordinatorStateRoot
  pub last_journal : Option ReplyStateJournal
  pub fault_hook : JournalOperation → Bool

-- What one call reads of the clocks, of `secrets` and of `uuid4`. `cleanup_ns` and `cleanup_ms` are
-- the readings of the cleanup that comes first, `now` those of the operation, `created_ns` the
-- second reading of `prepare_feedback_candidate`, and `transaction_id n` the token of the n-th
-- journal.
pub record CallInputs : Type 0 where
  pub cleanup_ns : ℕ
  pub cleanup_ms : ℕ
  pub now : Readings
  pub created_ns : ℕ
  pub transaction_id : ℕ → Bytes
  pub uuid : ℕ → String

abbrev pub Transaction {ℓ} : Type ℓ → Type ℓ
Transaction A = Coordinator → Result A × Coordinator

module _ {ℓ κ} {A : Type ℓ} {B : Type κ} where
  abbrev pub continue :
      Result A → (A → Coordinator → Result B × Coordinator) → Coordinator → Result B × Coordinator
  continue (ok a) f c = f a c
  continue (err e) f c = (err e, c)

infixl 10 ◌>>=◌ ◌>>◌
abbrev pub ◌>>=◌ {ℓ κ} :
    {A : Type ℓ} {B : Type κ} → Transaction A → (A → Transaction B) → Transaction B
◌>>=◌ m f c = let (r, c') = m c in continue r f c'

abbrev pub ◌>>◌ {ℓ κ} : {A : Type ℓ} {B : Type κ} → Transaction A → Transaction B → Transaction B
m >> n = m >>= λ _. n

abbrev pub pure {ℓ} : {A : Type ℓ} → A → Transaction A
pure a c = (ok a, c)

abbrev pub lift {ℓ} : {A : Type ℓ} → Result A → Transaction A
lift r c = (r, c)

abbrev pub on_root {ℓ} :
    {A : Type ℓ} → (CoordinatorStateRoot → CoordinatorConfig → A) → Transaction A
on_root f c = (ok (f c.root c.config), c)

abbrev pub build_journal :
    Bytes
    → JournalOperation
    → Option ConversationStateKey
    → List ConversationStateKey
    → CoordinatorStateRoot
    → CoordinatorStateRoot
    → ReplyStateJournal
build_journal transaction_id operation initiating affected prior candidate = record {
  transaction_id = transaction_id;
  operation = operation;
  initiating_state_key = initiating;
  affected_state_keys = affected;
  prior_root = prior;
  candidate_root = candidate;
  outcome = staging;
}

-- the `try` of `_publish`
unfoldable pub install : ReplyStateJournal → Transaction (Unit {0})
install journal c =
    if c.fault_hook journal.operation
    then (err fault, record c { last_journal = some (record journal { outcome = rolled_back }) })
    else (
      ok tt,
      record c {
        root = journal.candidate_root;
        last_journal = some (record journal { outcome = committed });
      },
    )

abbrev install_next :
    Bytes
    → JournalOperation
    → Option ConversationStateKey
    → List ConversationStateKey
    → Result CoordinatorStateRoot
    → Transaction (Unit {0})
unfolding install
install_next id operation initiating affected (err e) c = (err e, c)
install_next id operation initiating affected (ok candidate) c =
    if candidate.root_revision != c.root.root_revision + 1
    then (err state_store_unavailable, c)
    else install (build_journal id operation initiating affected c.root candidate) c

unfoldable pub publish :
    Bytes
    → JournalOperation
    → Option ConversationStateKey
    → List ConversationStateKey
    → CoordinatorStateRoot
    → Transaction (Unit {0})
unfolding install
publish id operation initiating affected candidate c =
    install_next id operation initiating affected
      (prepare_root_for_publication candidate c.config.state_revision_capacity) c

-- the same, where there may be nothing to publish
abbrev pub publish_some :
    Bytes
    → JournalOperation
    → Option ConversationStateKey
    → List ConversationStateKey
    → Option CoordinatorStateRoot
    → Transaction (Unit {0})
publish_some id operation initiating affected none = pure tt
publish_some id operation initiating affected (some candidate) =
    publish id operation initiating affected candidate

-- `_cleanup_locked`
unfoldable pub cleanup_locked : ℕ → ℕ → Bytes → Transaction ℕ
cleanup_locked now_monotonic_ns now_epoch_ms id = do
  (candidate, removed) ←
      on_root (λ root config. cleanup_candidate now_monotonic_ns now_epoch_ms config root)
  publish_some id cleanup none [] candidate
  pure removed

module _ (inputs : CallInputs) where
  unfoldable pub cleanup_expired : Transaction ℕ
  cleanup_expired = cleanup_locked inputs.cleanup_ns inputs.cleanup_ms (inputs.transaction_id 0)

  module _ (state_key : ConversationStateKey) (request_id request_hash : String)
      (replay_eligible : Bool) where
    -- `reserve_reply` after its first look at the issued records
    unfoldable pub reserve_unless_replayed :
        Option ReservationResult → Transaction ReservationResult
    reserve_unless_replayed (some replay) = pure replay
    reserve_unless_replayed none = do
      found ←
          on_root
            (λ root config. issued_capacity_eviction_candidate root config.issued_response_capacity)
      eviction ← lift found
      publish_some (inputs.transaction_id 1) cleanup none [] eviction
      next ← on_root (λ root config.
          reserve_reply_candidate state_key request_id request_hash replay_eligible root inputs.now
            config)
      (candidate, reservation) ← lift next
      publish_some (inputs.transaction_id 2) reply_reserve (some state_key) (state_key ∷ [])
          candidate
      pure reservation

    unfoldable pub reserve_reply : Transaction ReservationResult
    reserve_reply = do
      cleanup_locked inputs.cleanup_ns inputs.cleanup_ms (inputs.transaction_id 0)
      found ← on_root (λ root _.
          existing_reservation_result state_key request_id request_hash replay_eligible root)
      replay ← lift found
      reserve_unless_replayed replay

  unfoldable pub abort_reply : ConversationStateKey → String → Bytes → Transaction (Unit {0})
  abort_reply state_key request_id owner_token = do
    next ← on_root (λ root _. abort_reply_candidate root state_key request_id owner_token)
    candidate ← lift next
    publish (inputs.transaction_id 0) reply_abort (some state_key) (state_key ∷ []) candidate

  unfoldable pub commit_reply : Hashing → ReplyCommitProposal → Transaction ReplyResponse
  commit_reply hashing proposal = do
    next ←
        on_root (λ root config.
          commit_reply_candidate hashing root proposal inputs.uuid inputs.now config)
    (candidate, response) ← lift next
    publish (inputs.transaction_id 0) reply_commit (some proposal.state_key)
        (proposal.state_key ∷ []) candidate
    pure response

  unfoldable pub prepare_feedback :
      Hashing → ConversationStateKey → ActionFeedbackRequest → Transaction FeedbackPreparation
  prepare_feedback hashing state_key feedback = do
    cleanup_locked inputs.cleanup_ns inputs.cleanup_ms (inputs.transaction_id 0)
    found ← on_root (λ root _. resolve_feedback_record root state_key feedback)
    issued ← lift found
    next ← on_root (λ root config.
        prepare_feedback_candidate hashing root state_key feedback issued config inputs.now
          inputs.created_ns)
    (candidate, preparation) ← lift next
    publish_some (inputs.transaction_id 1) feedback_prepare (some state_key) (state_key ∷ [])
        candidate
    pure preparation

  -- the `except` of `commit_feedback`, and what follows the `try`
  abbrev publish_feedback :
      PreparedFeedback
      → Result (CoordinatorStateRoot × FeedbackCommitResult)
      → Transaction FeedbackCommitResult
  publish_feedback p (ok (candidate, result)) = do
    publish (inputs.transaction_id 0) feedback_commit (some p.state_key) (p.state_key ∷ [])
        candidate
    pure result
  publish_feedback p (err e) =
      if requires_prepared_token_drop e
      then (do
        candidate ← on_root (λ root _. drop_prepared_token_candidate root p)
        publish (inputs.transaction_id 0) feedback_commit (some p.state_key) (p.state_key ∷ [])
            candidate
        lift (err e))
      else lift (err e)

  unfoldable pub commit_feedback : Hashing → PreparedFeedback → Transaction FeedbackCommitResult
  commit_feedback hashing p = do
    next ← on_root (λ root config.
        commit_feedback_candidate hashing p inputs.now.monotonic_ns inputs.now.epoch_ms config root)
    publish_feedback p next

unfoldable pub init :
    ConfigArguments → CoordinatorStateRoot → (JournalOperation → Bool) → Result Coordinator
init arguments root fault_hook = elim (build_coordinator_config arguments) [
  | err e ↦ err e
  | ok config ↦
      ok (record { config = config; root = root; last_journal = none; fault_hook = fault_hook })
]
