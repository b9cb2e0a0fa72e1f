-- ===== src/Coordinator/Retention/Sessions.antt =====
-- `enforce_session_capacity` (coordinator_retention.py).
use market_support_crewai_ag.Prelude.{
  All, All-mapped, All-sort_by, Bool, Bool-cases, List, [], ap, arith, bool_Eq, elem, inl, inr,
  keep, length, length-map, length-sort_by, list_Eq, ltb, nat_Eq, not, option_Eq, pair_Eq, refl,
  string_Eq, subst, suc, triple_Eq, true, zero, ℕ, ◌++◌, ◌<◌, ◌∙◌, ◌∷◌, ◌≡◌, ◌≢◌, ◌≤◌,
}
use market_support_crewai_ag.Coordinator.Retention.{
  Clarifications, Turns, enforce_session_capacity, evict_sessions, evict_victim,
  without_unpinned_revisions,
}
use market_support_crewai_ag.Errors.{>>=-eq-ok, Result, ok, ok-injective}
use market_support_crewai_ag.FrozenMap.{FrozenMap, contains, get, keys, without_keys}
use market_support_crewai_ag.FrozenMap.Laws.{get-without_key_ne}
use market_support_crewai_ag.FrozenMap.Selection.{
  elem-keep, elem_self, keep-append, keep-keep, keys-keep, length-keep_ne-lt,
}
use market_support_crewai_ag.Identity.{
  ConversationStateKey, pair_Repr, scene_Eq, state_key_Eq, state_key_Repr, string_Repr, triple_Repr,
}
use market_support_crewai_ag.Root.{CoordinatorStateRoot, IssuedKey, SessionOrderEntry}
use market_support_crewai_ag.Root.Orders.{session_keys, state_session_eviction_order}
use market_support_crewai_ag.Schemas.{execution_type_Eq, reply_kind_Eq, status_Eq}

module _ (pending_requests : FrozenMap ConversationStateKey IssuedKey) (capacity : ℕ)
    (k : ConversationStateKey) (busy : contains k pending_requests ≡ true) where
  -- what stays of a busy session
  abbrev Kept : Turns × Clarifications → Turns × Clarifications → Type 0
  Kept before after = (get k after.0 ≡ get k before.0) × (get k after.1 ≡ get k before.1)

  evict_victim-Kept :
      (next : Turns → Clarifications → Result (Turns × Clarifications))
      → ((t : Turns) (c : Clarifications) (after : Turns × Clarifications)
          → next t c ≡ ok after
          → Kept (t, c) after)
      → (turns : Turns) (clarifications : Clarifications) (after : Turns × Clarifications)
        (order : List SessionOrderEntry)
      → evict_victim next pending_requests turns clarifications order ≡ ok after
      → Kept (turns, clarifications) after
  unfolding evict_victim
  evict_victim-Kept next ih turns clarifications after [] h =
      subst (Kept (turns, clarifications)) (ok-injective h) (refl, refl)
  evict_victim-Kept next ih turns clarifications after ((epoch, bytes, victim) ∷ rest) h =
      elim (Bool-cases (contains victim pending_requests)) [
        | inl pinned ↦ absurd (ground (arith, pinned, h))
        | inr idle ↦
            let differ : k ≢ victim = λ same. cc (ap (λ x. contains x pending_requests) same) in
            let (turns_kept, clarification_kept) =
              ih (without_keys turns (victim ∷ [])) (without_keys clarifications (victim ∷ []))
                after (rw idle at h) in
            (
              turns_kept ∙ get-without_key_ne k victim turns differ,
              clarification_kept ∙ get-without_key_ne k victim clarifications differ,
            )
      ]

  evict_sessions-Kept :
      (fuel : ℕ) (turns : Turns) (clarifications : Clarifications) (after : Turns × Clarifications)
      → evict_sessions fuel pending_requests capacity turns clarifications ≡ ok after
      → Kept (turns, clarifications) after
  unfolding evict_sessions
  evict_sessions-Kept zero turns clarifications after h =
      subst (Kept (turns, clarifications)) (ok-injective h) (refl, refl)
  evict_sessions-Kept (suc fuel) turns clarifications after h =
      elim (Bool-cases
        (ltb capacity (length (state_session_eviction_order turns clarifications)))) [
          | inl over ↦
              evict_victim-Kept (evict_sessions fuel pending_requests capacity)
                (evict_sessions-Kept fuel) turns clarifications after
                (state_session_eviction_order turns clarifications) (rw over at h)
          | inr within ↦
              subst (Kept (turns, clarifications)) (ok-injective (rw within at h)) (refl, refl)
        ]

-- When the capacity of sessions is enforced without an error, a conversation whose reply is
-- pending keeps its turns and its clarification.
pub enforce_session_capacity-pending :
    (root bounded : CoordinatorStateRoot) (capacity : ℕ) (k : ConversationStateKey)
    → contains k root.pending_request_by_state ≡ true
    → enforce_session_capacity root capacity ≡ ok bounded
    → (get k bounded.conversation_turns ≡ get k root.conversation_turns)
      × (get k bounded.clarification_records ≡ get k root.clarification_records)
unfolding enforce_session_capacity without_unpinned_revisions
enforce_session_capacity-pending root bounded capacity k busy h =
    let ((turns, clarifications), done, result) = >>=-eq-ok _ _ h in
    let kept =
      evict_sessions-Kept root.pending_request_by_state capacity k busy _ _ _
        (turns, clarifications) done in
    subst
      (λ (b : CoordinatorStateRoot).
        (get k b.conversation_turns ≡ get k root.conversation_turns)
        × (get k b.clarification_records ≡ get k root.clarification_records))
      (ok-injective result) kept

module _ (turns : Turns) (clarifications : Clarifications) where
  length-eviction_order :
      length (state_session_eviction_order turns clarifications)
      ≡ length (session_keys turns clarifications)
  unfolding state_session_eviction_order
  length-eviction_order = length-sort_by _ _ ∙ length-map _ (session_keys turns clarifications)

  eviction_order-sessions :
      All
        (λ (row : SessionOrderEntry). elem row.2 (session_keys turns clarifications) ≡ true)
        (state_session_eviction_order turns clarifications)
  unfolding state_session_eviction_order
  eviction_order-sessions = All-sort_by _ _ _ (
      All-mapped _ _ (session_keys turns clarifications)
        (elem_self (session_keys turns clarifications)))

  module _ (v : ConversationStateKey) where
    abbrev others : ConversationStateKey → Bool
    others k = not (elem k (v ∷ []))

    session_keys-without :
        session_keys (without_keys turns (v ∷ [])) (without_keys clarifications (v ∷ []))
        ≡ keep others (session_keys turns clarifications)
    unfolding session_keys
    session_keys-without = rw (keys-keep others turns) (
        rw (keys-keep others clarifications) (
          rw (keep-append others) (
            ap (λ (rest : List ConversationStateKey). keep others (keys turns) ++ rest)
              (keep-keep (λ k. not (elem k (keep others (keys turns)))) others
                (λ k. not (elem k (keys turns)))
                (λ k. ground (arith, elem-keep k others (keys turns))) (keys clarifications)))))

evicted-lt :
    (turns : Turns) (clarifications : Clarifications) (v : ConversationStateKey)
    → elem v (session_keys turns clarifications) ≡ true
    → length (
        state_session_eviction_order
          (without_keys turns (v ∷ []))
          (without_keys clarifications (v ∷ [])))
      < length (state_session_eviction_order turns clarifications)
evicted-lt turns clarifications v h =
    let shorter = length-keep_ne-lt v (session_keys turns clarifications) h in
    rw (length-eviction_order turns clarifications) (
      rw
        (length-eviction_order (without_keys turns (v ∷ [])) (without_keys clarifications (v ∷ [])))
        (rw (session_keys-without turns clarifications v) shorter))

module _ (pending_requests : FrozenMap ConversationStateKey IssuedKey) (capacity : ℕ) where
  abbrev sessions : Turns × Clarifications → ℕ
  sessions s = length (state_session_eviction_order s.0 s.1)

  evict_victim-sessions :
      (fuel : ℕ) (turns : Turns) (clarifications : Clarifications)
      → ((t : Turns) (c : Clarifications) (after : Turns × Clarifications)
          → sessions (t, c) ≤ fuel
          → evict_sessions fuel pending_requests capacity t c ≡ ok after
          → sessions after ≤ capacity)
      → (after : Turns × Clarifications) (order : List SessionOrderEntry)
      → All
          (λ (row : SessionOrderEntry). elem row.2 (session_keys turns clarifications) ≡ true)
          order
      → sessions (turns, clarifications) ≤ suc fuel
      → ltb capacity (length order) ≡ true
      → evict_victim
          (evict_sessions fuel pending_requests capacity)
          pending_requests
          turns
          clarifications
          order
        ≡ ok after
      → sessions after ≤ capacity
  unfolding evict_victim
  evict_victim-sessions fuel turns clarifications ih after [] stands enough over h =
      absurd (ground arith)
  evict_victim-sessions fuel turns clarifications ih after ((epoch, bytes, v) ∷ rest) stands enough
        over h =
      let less = evicted-lt turns clarifications v stands.0 in
      ih (without_keys turns (v ∷ [])) (without_keys clarifications (v ∷ [])) after
        (omega (arith, less, enough))
        (elim (Bool-cases (contains v pending_requests)) [
          | inl pinned ↦ absurd (ground (arith, pinned, h))
          | inr idle ↦ rw idle at h
        ])

  evict_sessions-sessions :
      (fuel : ℕ) (turns : Turns) (clarifications : Clarifications) (after : Turns × Clarifications)
      → sessions (turns, clarifications) ≤ fuel
      → evict_sessions fuel pending_requests capacity turns clarifications ≡ ok after
      → sessions after ≤ capacity
  unfolding evict_sessions
  evict_sessions-sessions zero turns clarifications after enough h =
      subst (λ s. sessions s ≤ capacity) (ok-injective h) (omega (arith, enough))
  evict_sessions-sessions (suc fuel) turns clarifications after enough h =
      elim (Bool-cases
        (ltb capacity (length (state_session_eviction_order turns clarifications)))) [
          | inl over ↦
              evict_victim-sessions fuel turns clarifications (evict_sessions-sessions fuel) after
                (state_session_eviction_order turns clarifications)
                (eviction_order-sessions turns clarifications) enough over (rw over at h)
          | inr within ↦
              subst (λ s. sessions s ≤ capacity) (ok-injective (rw within at h)) (ground arith)
        ]

-- When the capacity of sessions is enforced without an error, at most that many conversations
-- have turns or a clarification.
pub enforce_session_capacity-le :
    (root bounded : CoordinatorStateRoot) (capacity : ℕ)
    → enforce_session_capacity root capacity ≡ ok bounded
    → length (session_keys bounded.conversation_turns bounded.clarification_records) ≤ capacity
unfolding enforce_session_capacity without_unpinned_revisions
enforce_session_capacity-le root bounded capacity h =
    let ((turns, clarifications), done, result) = >>=-eq-ok _ _ h in
    let few =
      evict_sessions-sessions root.pending_request_by_state capacity _ _ _ (turns, clarifications)
        (omega arith) done in
    subst
      (λ (b : CoordinatorStateRoot).
        length (session_keys b.conversation_turns b.clarification_records) ≤ capacity)
      (ok-injective result) (rw (length-eviction_order turns clarifications) at few)

-- what else the enforcement leaves
pub enforce_session_capacity-issued :
    (root bounded : CoordinatorStateRoot) (capacity : ℕ)
    → enforce_session_capacity root capacity ≡ ok bounded
    → (bounded.issued_records ≡ root.issued_records)
      × (bounded.pending_request_by_state ≡ root.pending_request_by_state)
      × (bounded.response_index ≡ root.response_index)
      × (bounded.action_index ≡ root.action_index)
unfolding enforce_session_capacity without_unpinned_revisions
enforce_session_capacity-issued root bounded capacity h =
    let (sessions, done, result) =
      >>=-eq-ok
        (evict_sessions
          (length (state_session_eviction_order root.conversation_turns root.clarification_records))
          root.pending_request_by_state capacity root.conversation_turns root.clarification_records)
        _ h in
    subst
      (λ (b : CoordinatorStateRoot).
        (b.issued_records ≡ root.issued_records)
        × (b.pending_request_by_state ≡ root.pending_request_by_state)
        × (b.response_index ≡ root.response_index)
        × (b.action_index ≡ root.action_index))
      (ok-injective result) (refl, refl, refl, refl)
