-- ===== src/Coordinator/Validity/Commit.antt =====
-- The invariant across a commit (coordinator_reply_commit.py).
use market_support_crewai_ag.Prelude.{
  All, All-map, Option-cases, String, [], arith, bool_Eq, eq_iff, eq_refl, inl, inr, list_Eq,
  nat_Eq, none, option_Eq, pair_Eq, refl, some, string_Eq, subst, sym, triple_Eq, true, ℕ, ◌∷◌, ◌≡◌,
}
use market_support_crewai_ag.Coordinator.Config.{CoordinatorConfig}
use market_support_crewai_ag.Coordinator.Effects.{derive_issued_effects}
use market_support_crewai_ag.Coordinator.Effects.Keys.{action_entries-LeadsToEffect}
use market_support_crewai_ag.Coordinator.Hashing.{Hashing}
use market_support_crewai_ag.Coordinator.ReplyCommit.{
  action_entries, check_commit, check_reply, commit_reply_candidate, committed_root,
  completed_record, revised,
}
use market_support_crewai_ag.Coordinator.ReplyCommit.Steps.{commit_reply_candidate-CommitSteps}
use market_support_crewai_ag.Coordinator.Reservations.{Readings, owned_reservation}
use market_support_crewai_ag.Coordinator.Retention.Sessions.{enforce_session_capacity-issued}
use market_support_crewai_ag.Coordinator.Validity.{
  ActionIndex, Indexed, IsIndexed, PendingRequests, ResponseIndex, pending-finished,
}
use market_support_crewai_ag.Coordinator.Validity.Abort.{owned_reservation-found}
use market_support_crewai_ag.Coordinator.Validity.Writes.{
  Spares, Spares-insert, actions-Spares, responses-Spares,
}
use market_support_crewai_ag.Errors.{>>=-eq-ok, ok}
use market_support_crewai_ag.FrozenMap.{FrozenMap, get, insert, with_updates, without_keys}
use market_support_crewai_ag.FrozenMap.Laws.{
  All-insert, get-insert_ne, get-insert_self, test-insert,
}
use market_support_crewai_ag.Identity.{
  pair_Repr, scene_Eq, state_key_Eq, state_key_Repr, string_Repr, triple_Repr,
}
use market_support_crewai_ag.Records.{
  CompleteIssuedResponseRecord, PendingIssuedResponseRecord, ReplyCommitProposal,
  StateRevisionRecord, complete, pending,
}
use market_support_crewai_ag.Root.{CoordinatorStateRoot, IssuedKey}
use market_support_crewai_ag.Root.Validation.{
  Issued, action_entry_valid, action_target_valid, response_entry_valid,
}
use market_support_crewai_ag.Schemas.{ReplyResponse, execution_type_Eq, reply_kind_Eq, status_Eq}

All-with_updates :
    {V : Type 0} (P : String × V → Type 0) (m updates : FrozenMap String V)
    → All P m
    → All P updates
    → All P (with_updates m updates)
All-with_updates P m [] h u = h
All-with_updates P m ((k, v) ∷ rest) h u =
    All-with_updates P (insert k v m) rest (All-insert P k v m u.0 h) u.1

-- a commit that succeeds found its own reservation, and a response id that is new
check_commit-found :
    (root : CoordinatorStateRoot) (p : ReplyCommitProposal) (revision : StateRevisionRecord)
    → check_commit root p ≡ ok revision
    → (r : PendingIssuedResponseRecord) × (get (p.state_key, p.request_id) root.issued_records
        ≡ some (pending r))
unfolding check_commit
check_commit-found root p revision h =
    let (r, owned, _) =
      >>=-eq-ok
        (owned_reservation p.owner_token (get (p.state_key, p.request_id) root.issued_records)) _
        h in
    (r, (owned_reservation-found p.owner_token _ r owned).0)

pub check_reply-new :
    (root : CoordinatorStateRoot) (p : ReplyCommitProposal) (response : ReplyResponse)
    → check_reply root p response ≡ ok tt
    → get response.response_id root.response_index ≡ none
unfolding check_reply
check_reply-new root p response h =
    elim (Option-cases (get response.response_id root.response_index)) [
      | inl absent ↦ absent
      | inr (k, taken) ↦ absurd (ground (arith, taken, h))
    ]

module _ (root : CoordinatorStateRoot) (p : ReplyCommitProposal) (response : ReplyResponse)
    (done : CompleteIssuedResponseRecord) (r : PendingIssuedResponseRecord) (h : IsIndexed root)
    (found : get (p.state_key, p.request_id) root.issued_records ≡ some (pending r))
    (new : get response.response_id root.response_index ≡ none)
    (own_state : done.state_key ≡ p.state_key) (own_request : done.request_id ≡ p.request_id)
    (own_response : done.response ≡ response)
    (own_effects : done.effects ≡ derive_issued_effects response) where
  abbrev key : IssuedKey
  key = (p.state_key, p.request_id)

  abbrev issued' : Issued
  issued' = insert key (complete done) root.issued_records

  abbrev index' : FrozenMap String IssuedKey
  index' = insert response.response_id key root.response_index

  spares : Spares root.issued_records issued'
  spares = Spares-insert root.issued_records key (complete done) (rw found)

  responses_kept : All (λ e. response_entry_valid issued' e ≡ true) index'
  responses_kept =
      All-insert _ response.response_id key root.response_index
        (rw get-insert_self (rw own_response (eq_refl response.response_id)))
        (responses-Spares root.issued_records issued' spares root.response_index h.responses_valid)

  old_actions : All (λ e. action_entry_valid issued' index' e ≡ true) root.action_index
  old_actions =
      All-map _ _
        (λ e valid.
          test-insert (action_target_valid issued' e.0 e.1.0 e.1.2) e.1.1 response.response_id key
            root.response_index (rw new) valid)
        root.action_index
        (actions-Spares root.issued_records issued' spares root.response_index root.action_index
          h.actions_valid)

  new_actions :
      All
        (λ e. action_entry_valid issued' index' e ≡ true)
        (action_entries p.state_key response.response_id (derive_issued_effects response))
  new_actions =
      All-map _ _
        (λ e leads. rw leads.1 (
          rw leads.0 (
            rw get-insert_self (
              rw get-insert_self (rw own_effects (ground (arith, leads.2, eq_refl p.state_key)))))))
        _ (action_entries-LeadsToEffect p.state_key response)

  pub committed-Indexed :
      Indexed issued' (without_keys root.pending_request_by_state (p.state_key ∷ [])) index' (
        with_updates root.action_index
          (action_entries p.state_key response.response_id (derive_issued_effects response)))
  committed-Indexed = record {
    pending_valid =
        pending-finished h key r found issued' (λ k differ. get-insert_ne k key _ _ differ);
    responses_valid = responses_kept;
    actions_valid = All-with_updates _ root.action_index _ old_actions new_actions;
    keys_valid =
        All-insert _ key (complete done) root.issued_records
          (ground (arith, eq_iff done.state_key p.state_key, eq_iff done.request_id p.request_id))
          h.keys_valid;
  }

Indexed-cast :
    {i j : Issued} {q q' : PendingRequests} {s s' : ResponseIndex} {a a' : ActionIndex}
    → i ≡ j
    → q ≡ q'
    → s ≡ s'
    → a ≡ a'
    → Indexed i q s a
    → Indexed j q' s' a'
Indexed-cast {i} {j} {q} {q'} {s} {s'} {a} {a'} ij qq ss aa h =
    subst (λ x. Indexed x q' s' a') ij
      (subst (λ x. Indexed i x s' a') qq
        (subst (λ x. Indexed i q x a') ss (subst (λ x. Indexed i q s x) aa h)))

-- A commit that succeeds keeps a root well-indexed.
pub commit_reply_candidate-IsIndexed :
    (hashing : Hashing) (root candidate : CoordinatorStateRoot) (p : ReplyCommitProposal)
    (uuid : ℕ → String) (now : Readings) (config : CoordinatorConfig) (response : ReplyResponse)
    → commit_reply_candidate hashing root p uuid now config ≡ ok (candidate, response)
    → IsIndexed root
    → IsIndexed candidate
unfolding committed_root completed_record
commit_reply_candidate-IsIndexed hashing root candidate p uuid now config response done h =
    let steps =
      commit_reply_candidate-CommitSteps hashing root candidate p uuid now config response done in
    let (r, found) = check_commit-found root p steps.checked_revision steps.checked in
    let (issued, requests, responses, actions) =
      enforce_session_capacity-issued _ candidate config.conversation_max_sessions steps.fits in
    let fit =
      committed-Indexed root p response
        (completed_record p response (revised steps.checked_revision now.monotonic_ns config)
          now.monotonic_ns now.epoch_ms config)
        r h found (check_reply-new root p response steps.replied) refl refl refl refl in
    Indexed-cast (sym issued) (sym requests) (sym responses) (sym actions) fit
