-- ===== src/Coordinator/Consistency/Requests.antt =====
-- The invariant across reservations, aborts and commits (coordinator_reservations.py,
-- coordinator_reply_commit.py).
use market_support_crewai_ag.Prelude.{
  All, All-keep, All-map, Bool, String, bool_Eq, eq_refl, list_Eq, nat_Eq, none, option_Eq, pair_Eq,
  refl, some, string_Eq, subst, sym, triple_Eq, true, ℕ, ◌==◌, ◌≡◌,
}
use market_support_crewai_ag.Coordinator.Config.{CoordinatorConfig}
use market_support_crewai_ag.Coordinator.Consistency.{IsConsistent, is_listed}
use market_support_crewai_ag.Coordinator.Hashing.{Hashing}
use market_support_crewai_ag.Coordinator.ReplyCommit.{
  commit_reply_candidate, committed_root, completed_record,
}
use market_support_crewai_ag.Coordinator.ReplyCommit.Steps.{commit_reply_candidate-CommitSteps}
use market_support_crewai_ag.Coordinator.Reservations.{
  Readings, abort_reply_candidate, existing_reservation_result, owned_reservation, reserved,
}
use market_support_crewai_ag.Coordinator.Retention.Sessions.{enforce_session_capacity-issued}
use market_support_crewai_ag.Coordinator.Validity.{ResponseIndex}
use market_support_crewai_ag.Coordinator.Validity.Abort.{Indexed-abort, owned_reservation-found}
use market_support_crewai_ag.Coordinator.Validity.Commit.{
  check_reply-new, commit_reply_candidate-IsIndexed,
}
use market_support_crewai_ag.Coordinator.Validity.Reserve.{reserved-IsIndexed}
use market_support_crewai_ag.Errors.{>>=-eq-ok, ok, ok-injective}
use market_support_crewai_ag.FrozenMap.{get, insert}
use market_support_crewai_ag.FrozenMap.Distinct.{Distinct, Distinct-insert, Distinct-keep}
use market_support_crewai_ag.FrozenMap.Laws.{All-insert, get-insert_self, test-insert}
use market_support_crewai_ag.Identity.{
  ConversationStateKey, pair_Repr, scene_Eq, state_key_Eq, state_key_Repr, string_Repr, triple_Repr,
}
use market_support_crewai_ag.Records.{IssuedResponseRecord, ReplyCommitProposal, complete, pending}
use market_support_crewai_ag.Root.{CoordinatorStateRoot, IssuedKey}
use market_support_crewai_ag.Root.Ordered.{listed}
use market_support_crewai_ag.Root.Validation.{Issued}
use market_support_crewai_ag.Schemas.{ReplyResponse, execution_type_Eq, reply_kind_Eq, status_Eq}
use market_support_crewai_ag.Text.{Bytes}

listed-cast :
    {i j : Issued} {s s' : ResponseIndex}
    → i ≡ j
    → s ≡ s'
    → All (λ e. is_listed s e ≡ true) i
    → All (λ e. is_listed s' e ≡ true) j
listed-cast {i} {j} {s} {s'} ij ss h =
    subst (λ x. All (λ e. is_listed s' e ≡ true) x) ij
      (subst (λ x. All (λ e. is_listed x e ≡ true) i) ss h)

module _ (root : CoordinatorStateRoot) (h : IsConsistent root) where
  -- A reservation keeps the root consistent, when the first look finds neither a record of the
  -- request nor a pending request of the conversation.
  pub reserved-IsConsistent :
      (state_key : ConversationStateKey) (request_id request_hash : String) (replay_eligible : Bool)
      (now : Readings) (config : CoordinatorConfig)
      → existing_reservation_result state_key request_id request_hash replay_eligible root ≡ ok none
      → IsConsistent (reserved state_key request_id request_hash replay_eligible root now config).0
  unfolding reserved
  reserved-IsConsistent state_key request_id request_hash replay_eligible now config free = record {
    indexed =
        reserved-IsIndexed state_key request_id request_hash replay_eligible root now config free
          h.indexed;
    distinct = Distinct-insert (state_key, request_id) _ root.issued_records h.distinct;
    listed = All-insert _ (state_key, request_id) _ root.issued_records refl h.listed;
  }

  -- An abort that succeeds keeps the root consistent.
  pub abort-IsConsistent :
      (aborted : CoordinatorStateRoot) (state_key : ConversationStateKey) (request_id : String)
      (owner_token : Bytes)
      → abort_reply_candidate root state_key request_id owner_token ≡ ok aborted
      → IsConsistent aborted
  unfolding abort_reply_candidate
  abort-IsConsistent aborted state_key request_id owner_token done =
      let key : IssuedKey = (state_key, request_id) in
      let (r, owned, result) =
        >>=-eq-ok (owned_reservation owner_token (get key root.issued_records)) _ done in
      let (found, _) = owned_reservation-found owner_token _ r owned in
      subst IsConsistent (ok-injective result) (record {
        indexed = Indexed-abort h.indexed key r found;
        distinct = Distinct-keep _ root.issued_records h.distinct;
        listed = All-keep _ _ root.issued_records h.listed;
      })

  listed_still :
      (response_id : String) (key : IssuedKey)
      → get response_id root.response_index ≡ none
      → (e : IssuedKey × IssuedResponseRecord) → is_listed root.response_index e ≡ true
      → is_listed (insert response_id key root.response_index) e ≡ true
  listed_still response_id key new (k, pending r) listed = refl
  listed_still response_id key new (k, complete r) listed =
      test-insert (λ o. o == some k) r.response.response_id response_id key root.response_index
        (rw new) listed

  -- A commit that succeeds keeps the root consistent.
  pub commit_reply_candidate-IsConsistent :
      (hashing : Hashing) (candidate : CoordinatorStateRoot) (p : ReplyCommitProposal)
      (uuid : ℕ → String) (now : Readings) (config : CoordinatorConfig) (response : ReplyResponse)
      → commit_reply_candidate hashing root p uuid now config ≡ ok (candidate, response)
      → IsConsistent candidate
  unfolding committed_root completed_record
  commit_reply_candidate-IsConsistent hashing candidate p uuid now config response done =
      let steps =
        commit_reply_candidate-CommitSteps hashing root candidate p uuid now config response done in
      let (issued, requests, responses, actions) =
        enforce_session_capacity-issued _ candidate config.conversation_max_sessions steps.fits in
      let key : IssuedKey = (p.state_key, p.request_id) in
      let new = check_reply-new root p response steps.replied in
      record {
        indexed =
            commit_reply_candidate-IsIndexed hashing root candidate p uuid now config response done
              h.indexed;
        distinct =
            subst Distinct (sym issued) (Distinct-insert key _ root.issued_records h.distinct);
        listed = listed-cast (sym issued) (sym responses) (
            All-insert _ key _ root.issued_records (rw get-insert_self (eq_refl key)) (
              All-map _ _ (listed_still response.response_id key new) root.issued_records
                h.listed));
      }
