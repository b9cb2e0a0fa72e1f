-- ===== src/Coordinator/Validity/Abort.antt =====
-- The invariant across an abort (coordinator_reservations.py).
use market_support_crewai_ag.Prelude.{
  All-keep, Option, String, [], arith, bool_Eq, eq_iff, list_Eq, nat_Eq, none, option_Eq, pair_Eq,
  some, string_Eq, subst, triple_Eq, ◌∷◌, ◌≡◌,
}
use market_support_crewai_ag.Coordinator.Reservations.{abort_reply_candidate, owned_reservation}
use market_support_crewai_ag.Coordinator.Validity.{
  ActionIndex, Indexed, IsIndexed, PendingRequests, ResponseIndex, pending-finished,
}
use market_support_crewai_ag.Coordinator.Validity.Writes.{
  Spares-without_key, actions-Spares, responses-Spares,
}
use market_support_crewai_ag.Errors.{>>=-eq-ok, ok, ok-injective}
use market_support_crewai_ag.FrozenMap.{get, without_keys}
use market_support_crewai_ag.FrozenMap.Laws.{get-without_key_ne}
use market_support_crewai_ag.Identity.{
  ConversationStateKey, pair_Repr, scene_Eq, state_key_Eq, state_key_Repr, string_Repr, triple_Repr,
}
use market_support_crewai_ag.Records.{
  IssuedResponseRecord, PendingIssuedResponseRecord, complete, pending,
}
use market_support_crewai_ag.Root.{CoordinatorStateRoot, IssuedKey}
use market_support_crewai_ag.Root.Validation.{Issued}
use market_support_crewai_ag.Schemas.{execution_type_Eq, reply_kind_Eq, status_Eq}
use market_support_crewai_ag.Text.{Bytes}

pub owned_reservation-found :
    (owner_token : Bytes) (o : Option IssuedResponseRecord) (r : PendingIssuedResponseRecord)
    → owned_reservation owner_token o ≡ ok r
    → (o ≡ some (pending r)) × (r.owner_token ≡ owner_token)
unfolding owned_reservation
owned_reservation-found owner_token none r h = absurd (cc)
owned_reservation-found owner_token (some (complete c)) r h = absurd (cc)
owned_reservation-found owner_token (some (pending p)) r h =
    ground (arith, eq_iff p.owner_token owner_token)

module _ {issued : Issued} {requests : PendingRequests} {responses : ResponseIndex}
    {actions : ActionIndex} (h : Indexed issued requests responses actions) (key : IssuedKey)
    (r : PendingIssuedResponseRecord) (found : get key issued ≡ some (pending r)) where
  pub Indexed-abort :
      Indexed
        (without_keys issued (key ∷ []))
        (without_keys requests (key.0 ∷ []))
        responses
        actions
  Indexed-abort =
      let spares = Spares-without_key issued key (rw found) in
      record {
        pending_valid =
            pending-finished h key r found _ (λ k differ. get-without_key_ne k key issued differ);
        responses_valid = responses-Spares issued _ spares _ h.responses_valid;
        actions_valid = actions-Spares issued _ spares _ _ h.actions_valid;
        keys_valid = All-keep _ _ issued h.keys_valid;
      }

-- An abort that succeeds keeps a root well-indexed.
pub abort-IsIndexed :
    (root aborted : CoordinatorStateRoot) (state_key : ConversationStateKey) (request_id : String)
    (owner_token : Bytes)
    → IsIndexed root
    → abort_reply_candidate root state_key request_id owner_token ≡ ok aborted
    → IsIndexed aborted
unfolding abort_reply_candidate
abort-IsIndexed root aborted state_key request_id owner_token h done =
    let key : IssuedKey = (state_key, request_id) in
    let (r, owned, result) =
      >>=-eq-ok (owned_reservation owner_token (get key root.issued_records)) _ done in
    let (found, _) = owned_reservation-found owner_token _ r owned in
    subst IsIndexed (ok-injective result) (Indexed-abort h key r found)
