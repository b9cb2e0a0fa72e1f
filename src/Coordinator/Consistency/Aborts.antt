-- ===== src/Coordinator/Consistency/Aborts.antt =====
-- Calls that go through: a publication of a consistent candidate, and the abort of the owner
-- (src/market_support_crewai_agent/runtime/state/transaction_coordinator.py).
use market_support_crewai_ag.Prelude.{
  List, Option, String, [], ap, arith, bool_Eq, eq_iff, eq_refl, false, length, length-keep-le,
  list_Eq, nat_Eq, none, option_Eq, pair_Eq, refl, some, string_Eq, subst, sym, triple_Eq, ◌!=◌,
  ◌+◌, ◌∷◌, ◌≡◌, ◌≤◌,
}
use market_support_crewai_ag.Coordinator.Consistency.{IsConsistent}
use market_support_crewai_ag.Coordinator.Consistency.Publications.{
  prepare_root_for_publication-form, published_form,
}
use market_support_crewai_ag.Coordinator.Consistency.Requests.{abort-IsConsistent}
use market_support_crewai_ag.Coordinator.Reservations.{abort_reply_candidate, owned_reservation}
use market_support_crewai_ag.Coordinator.Retention.{
  enforce_inactive_record_capacities, without_unpinned_revisions,
}
use market_support_crewai_ag.Coordinator.Transactions.{
  CallInputs, Coordinator, abort_reply, install, publish,
}
use market_support_crewai_ag.Coordinator.Validity.Publish.{prepare_root_for_publication-IsIndexed}
use market_support_crewai_ag.Errors.{ok}
use market_support_crewai_ag.FrozenMap.{get, without_keys}
use market_support_crewai_ag.FrozenMap.Laws.{get-without_key_self}
use market_support_crewai_ag.Identity.{
  ConversationStateKey, pair_Repr, scene_Eq, state_key_Eq, state_key_Repr, string_Repr, triple_Repr,
}
use market_support_crewai_ag.Records.{PendingIssuedResponseRecord, pending}
use market_support_crewai_ag.Root.{CoordinatorStateRoot, JournalOperation, reply_abort}
use market_support_crewai_ag.Root.Orders.{with_root_orders}
use market_support_crewai_ag.Schemas.{execution_type_Eq, reply_kind_Eq, status_Eq}
use market_support_crewai_ag.Text.{Bytes}

published_form-fields :
    (root : CoordinatorStateRoot)
    → (((published_form root).root_revision ≡ root.root_revision)
        × ((published_form root).issued_records ≡ root.issued_records)
        × ((published_form root).pending_request_by_state ≡ root.pending_request_by_state))
unfolding with_root_orders without_unpinned_revisions enforce_inactive_record_capacities
published_form-fields root = (refl, refl, refl)

without_unpinned_revisions-le :
    (root : CoordinatorStateRoot)
    → length (without_unpinned_revisions (enforce_inactive_record_capacities root)).state_revisions
      ≤ length root.state_revisions
unfolding without_unpinned_revisions enforce_inactive_record_capacities
without_unpinned_revisions-le root = length-keep-le _ root.state_revisions

-- a consistent candidate with the next revision is published, when its revisions fit the capacity
-- and the fault hook is quiet
pub publish-published :
    (id : Bytes) (operation : JournalOperation) (initiating : Option ConversationStateKey)
    (affected : List ConversationStateKey) (candidate : CoordinatorStateRoot) (c : Coordinator)
    → IsConsistent candidate
    → candidate.root_revision ≡ c.root.root_revision + 1
    → length candidate.state_revisions ≤ c.config.state_revision_capacity
    → c.fault_hook operation ≡ false
    → ((publish id operation initiating affected candidate c).0 ≡ ok tt)
      × ((publish id operation initiating affected candidate c).1.root ≡ published_form candidate)
unfolding publish install
publish-published id operation initiating affected candidate c h successor fits quiet =
    let bound : length
          (without_unpinned_revisions
            (enforce_inactive_record_capacities candidate)).state_revisions
        ≤ c.config.state_revision_capacity =
      let fewer = without_unpinned_revisions-le candidate in omega arith in
    let (next, made, _) =
      prepare_root_for_publication-IsIndexed candidate c.config.state_revision_capacity h.indexed
        bound in
    let form =
      prepare_root_for_publication-form candidate next c.config.state_revision_capacity made in
    let (revision, _, _) = published_form-fields candidate in
    let follows : (next.root_revision != c.root.root_revision + 1) ≡ false =
      let at_next = ap (λ (r : CoordinatorStateRoot). r.root_revision) form in
      ground (arith, eq_iff next.root_revision (c.root.root_revision + 1), at_next, revision) in
    (rw made (rw follows (rw quiet)), rw made (rw follows (rw quiet (sym form))))

abbrev without_request : CoordinatorStateRoot → ConversationStateKey → String → CoordinatorStateRoot
without_request root state_key request_id = record root {
  root_revision = root.root_revision + 1;
  issued_records = without_keys root.issued_records ((state_key, request_id) ∷ []);
  pending_request_by_state = without_keys root.pending_request_by_state (state_key ∷ []);
}

abort_reply_candidate-owner :
    (root : CoordinatorStateRoot) (state_key : ConversationStateKey) (request_id : String)
    (r : PendingIssuedResponseRecord)
    → get (state_key, request_id) root.issued_records ≡ some (pending r)
    → abort_reply_candidate root state_key request_id r.owner_token
      ≡ ok (without_request root state_key request_id)
unfolding abort_reply_candidate owned_reservation
abort_reply_candidate-owner root state_key request_id r found =
    rw found (ground (arith, eq_refl r.owner_token))

-- The owner of a reservation can give it up: in a consistent coordinator whose revisions fit the
-- capacity and whose fault hook is quiet, an abort with the token of the pending record returns,
-- and leaves neither a record of the request nor a pending request of the conversation.
pub abort_reply-returns :
    (inputs : CallInputs) (c : Coordinator) (state_key : ConversationStateKey) (request_id : String)
    (r : PendingIssuedResponseRecord)
    → IsConsistent c.root
    → get (state_key, request_id) c.root.issued_records ≡ some (pending r)
    → length c.root.state_revisions ≤ c.config.state_revision_capacity
    → c.fault_hook reply_abort ≡ false
    → ((abort_reply inputs state_key request_id r.owner_token c).0 ≡ ok tt)
      × (get
            (state_key, request_id)
            (abort_reply inputs state_key request_id r.owner_token c).1.root.issued_records
          ≡ none)
      × (get state_key
            (abort_reply inputs state_key request_id r.owner_token
              c).1.root.pending_request_by_state
          ≡ none)
unfolding abort_reply
abort_reply-returns inputs c state_key request_id r h found fits quiet =
    let left = without_request c.root state_key request_id in
    let accepted = abort_reply_candidate-owner c.root state_key request_id r found in
    let (returned, installed) =
      publish-published (inputs.transaction_id 0) reply_abort (some state_key) (state_key ∷ []) left
        c (abort-IsConsistent c.root h left state_key request_id r.owner_token accepted) refl fits
        quiet in
    let (_, issued, requests) = published_form-fields left in
    (
      rw accepted returned,
      rw accepted (
          subst (λ (x : CoordinatorStateRoot). get (state_key, request_id) x.issued_records ≡ none)
            (sym installed) (rw issued (get-without_key_self _ c.root.issued_records))),
      rw accepted (
          subst (λ (x : CoordinatorStateRoot). get state_key x.pending_request_by_state ≡ none)
            (sym installed) (rw requests (get-without_key_self _ c.root.pending_request_by_state))),
    )
