-- ===== src/Coordinator/Retention/Idle.antt =====
-- `enforce_session_capacity` (coordinator_retention.py) while no reply is pending.
use market_support_crewai_ag.Prelude.{
  Bool-cases, List, [], bool_Eq, inl, inr, length, list_Eq, ltb, nat_Eq, option_Eq, pair_Eq, refl,
  string_Eq, suc, triple_Eq, zero, ℕ, ◌∷◌, ◌≡◌, ◌≤◌,
}
use market_support_crewai_ag.Coordinator.Retention.{
  Clarifications, Turns, enforce_session_capacity, evict_sessions, evict_victim,
  without_unpinned_revisions,
}
use market_support_crewai_ag.Coordinator.Retention.Sessions.{enforce_session_capacity-le}
use market_support_crewai_ag.Errors.{Result, ok}
use market_support_crewai_ag.FrozenMap.{without_keys}
use market_support_crewai_ag.Identity.{
  pair_Repr, scene_Eq, state_key_Eq, state_key_Repr, string_Repr, triple_Repr,
}
use market_support_crewai_ag.Root.{CoordinatorStateRoot, SessionOrderEntry}
use market_support_crewai_ag.Root.Orders.{session_keys, state_session_eviction_order}
use market_support_crewai_ag.Schemas.{execution_type_Eq, reply_kind_Eq, status_Eq}

module _ (capacity : ℕ) where
  evict_victim-idle :
      (next : Turns → Clarifications → Result (Turns × Clarifications))
      → ((t : Turns) (c : Clarifications)
          → (after : Turns × Clarifications) × (next t c ≡ ok after))
      → (turns : Turns) (clarifications : Clarifications) (order : List SessionOrderEntry)
      → (after : Turns × Clarifications) × (evict_victim next [] turns clarifications order
          ≡ ok after)
  unfolding evict_victim
  evict_victim-idle next goes_on turns clarifications [] = ((turns, clarifications), refl)
  evict_victim-idle next goes_on turns clarifications ((epoch, bytes, v) ∷ rest) =
      goes_on (without_keys turns (v ∷ [])) (without_keys clarifications (v ∷ []))

  evict_sessions-idle :
      (fuel : ℕ) (turns : Turns) (clarifications : Clarifications)
      → (after : Turns × Clarifications) × (evict_sessions fuel [] capacity turns clarifications
          ≡ ok after)
  unfolding evict_sessions
  evict_sessions-idle zero turns clarifications = ((turns, clarifications), refl)
  evict_sessions-idle (suc fuel) turns clarifications =
      elim (Bool-cases
        (ltb capacity (length (state_session_eviction_order turns clarifications)))) [
          | inl over ↦
              let (after, goes) =
                evict_victim-idle (evict_sessions fuel [] capacity) (evict_sessions-idle fuel) turns
                  clarifications (state_session_eviction_order turns clarifications) in
              (after, rw over goes)
          | inr within ↦ ((turns, clarifications), rw within)
        ]

-- While no reply is pending, the capacity of sessions can always be enforced: the result is a root
-- with at most that many conversations that have turns or a clarification.
pub enforce_session_capacity-idle :
    (root : CoordinatorStateRoot) (capacity : ℕ)
    → root.pending_request_by_state ≡ []
    → (bounded : CoordinatorStateRoot) × (enforce_session_capacity root capacity ≡ ok bounded)
      × (length (session_keys bounded.conversation_turns bounded.clarification_records) ≤ capacity)
unfolding enforce_session_capacity
enforce_session_capacity-idle root capacity idle =
    let ((turns, clarifications), goes) =
      evict_sessions-idle capacity
        (length (state_session_eviction_order root.conversation_turns root.clarification_records))
        root.conversation_turns root.clarification_records in
    let bounded =
      without_unpinned_revisions
        (record root { conversation_turns = turns; clarification_records = clarifications }) in
    let done : enforce_session_capacity root capacity ≡ ok bounded = rw idle (rw goes) in
    (bounded, done, enforce_session_capacity-le root bounded capacity done)
