-- ===== src/Coordinator/Consistency.antt =====
-- The invariant of the reply state: the indexes are valid, the issued records are a dict, and each
-- complete record stands in the response index.
pub mod Requests
pub mod Removal
pub mod Evictions
pub mod Expiries
pub mod Cleanups
pub mod Feedbacks
pub mod Preparations
pub mod Publications
pub mod Calls
pub mod FeedbackCalls
pub mod Histories
pub mod Aborts
use market_support_crewai_ag.Prelude.{
  All, Bool, bool_Eq, list_Eq, nat_Eq, option_Eq, pair_Eq, some, string_Eq, subst, triple_Eq, true,
  ◌==◌, ◌≡◌,
}
use market_support_crewai_ag.Coordinator.Validity.{
  ActionIndex, Indexed, PendingRequests, ResponseIndex,
}
use market_support_crewai_ag.FrozenMap.{get}
use market_support_crewai_ag.FrozenMap.Distinct.{Distinct}
use market_support_crewai_ag.Identity.{
  pair_Repr, scene_Eq, state_key_Eq, state_key_Repr, string_Repr, triple_Repr,
}
use market_support_crewai_ag.Records.{IssuedResponseRecord, complete, pending}
use market_support_crewai_ag.Root.{CoordinatorStateRoot, IssuedKey}
use market_support_crewai_ag.Root.Validation.{Issued}
use market_support_crewai_ag.Schemas.{execution_type_Eq, reply_kind_Eq, status_Eq}

abbrev pub is_listed : ResponseIndex → IssuedKey × IssuedResponseRecord → Bool
is_listed responses (key, pending r) = true
is_listed responses (key, complete r) = get r.response.response_id responses == some key

pub record Consistent (issued : Issued) (requests : PendingRequests) (responses : ResponseIndex)
    (actions : ActionIndex) : Type 0 where
  pub indexed : Indexed issued requests responses actions
  pub distinct : Distinct issued
  pub listed : All (λ e. is_listed responses e ≡ true) issued

abbrev pub IsConsistent : CoordinatorStateRoot → Type 0
IsConsistent root =
    Consistent root.issued_records root.pending_request_by_state root.response_index
      root.action_index

pub Consistent-cast :
    {i j : Issued} {q q' : PendingRequests} {s s' : ResponseIndex} {a a' : ActionIndex}
    → i ≡ j
    → q ≡ q'
    → s ≡ s'
    → a ≡ a'
    → Consistent i q s a
    → Consistent j q' s' a'
Consistent-cast {i} {j} {q} {q'} {s} {s'} {a} {a'} ij qq ss aa h =
    subst (λ x. Consistent x q' s' a') ij
      (subst (λ x. Consistent i x s' a') qq
        (subst (λ x. Consistent i q x a') ss (subst (λ x. Consistent i q s x) aa h)))
