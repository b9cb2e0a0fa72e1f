-- ===== src/Coordinator/ReplyCommit/Bounds.antt =====
-- The bound on a conversation's turns (coordinator_reply_commit.py).
use market_support_crewai_ag.Prelude.{
  All, All-keep, Bool-cases, List, String, [], arith, bool_Eq, inl, inr, length,
  length-tail_slice-le, list_Eq, ltb, nat_Eq, option_Eq, pair_Eq, string_Eq, subst, suc, triple_Eq,
  zero, ℕ, ◌∷◌, ◌≡◌, ◌≤◌,
}
use market_support_crewai_ag.Coordinator.Config.{CoordinatorConfig}
use market_support_crewai_ag.Coordinator.Hashing.{Hashing}
use market_support_crewai_ag.Coordinator.ReplyCommit.{commit_reply_candidate, committed_root}
use market_support_crewai_ag.Coordinator.ReplyCommit.Steps.{commit_reply_candidate-CommitSteps}
use market_support_crewai_ag.Coordinator.Reservations.{Readings}
use market_support_crewai_ag.Coordinator.Retention.{
  Clarifications, Turns, enforce_session_capacity, evict_sessions, evict_victim,
  without_unpinned_revisions,
}
use market_support_crewai_ag.Errors.{>>=-eq-ok, Result, ok, ok-injective}
use market_support_crewai_ag.FrozenMap.{FrozenMap, contains, without_keys}
use market_support_crewai_ag.FrozenMap.Laws.{All-insert}
use market_support_crewai_ag.Identity.{
  ConversationStateKey, pair_Repr, scene_Eq, state_key_Eq, state_key_Repr, string_Repr, triple_Repr,
}
use market_support_crewai_ag.Records.{ConversationTurnRecord, ReplyCommitProposal}
use market_support_crewai_ag.Root.{CoordinatorStateRoot, IssuedKey, SessionOrderEntry}
use market_support_crewai_ag.Root.Orders.{state_session_eviction_order}
use market_support_crewai_ag.Schemas.{ReplyResponse, execution_type_Eq, reply_kind_Eq, status_Eq}

module _ (bound : ℕ) where
  abbrev IsShort : ConversationStateKey × List ConversationTurnRecord → Type 0
  IsShort e = length e.1 ≤ bound

  evict_victim-IsShort :
      (next : Turns → Clarifications → Result (Turns × Clarifications))
      (pending_requests : FrozenMap ConversationStateKey IssuedKey) (turns : Turns)
      (clarifications : Clarifications) (after : Turns × Clarifications)
      → ((t : Turns) (c : Clarifications)
          → All IsShort t
          → next t c ≡ ok after
          → All IsShort after.0)
      → (order : List SessionOrderEntry) → All IsShort turns
      → evict_victim next pending_requests turns clarifications order ≡ ok after
      → All IsShort after.0
  unfolding evict_victim
  evict_victim-IsShort next pending_requests turns clarifications after ih [] short h =
      subst (λ (s : Turns × Clarifications). All IsShort s.0) (ok-injective h) short
  evict_victim-IsShort next pending_requests turns clarifications after ih
        ((epoch, bytes, v) ∷ rest) short h =
      elim (Bool-cases (contains v pending_requests)) [
        | inl pinned ↦ absurd (ground (arith, pinned, h))
        | inr idle ↦
            ih (without_keys turns (v ∷ [])) (without_keys clarifications (v ∷ []))
              (All-keep _ _ turns short) (rw idle at h)
      ]

  evict_sessions-IsShort :
      (fuel : ℕ) (pending_requests : FrozenMap ConversationStateKey IssuedKey) (capacity : ℕ)
      (turns : Turns) (clarifications : Clarifications) (after : Turns × Clarifications)
      → All IsShort turns
      → evict_sessions fuel pending_requests capacity turns clarifications ≡ ok after
      → All IsShort after.0
  unfolding evict_sessions
  evict_sessions-IsShort zero pending_requests capacity turns clarifications after short h =
      subst (λ (s : Turns × Clarifications). All IsShort s.0) (ok-injective h) short
  evict_sessions-IsShort (suc fuel) pending_requests capacity turns clarifications after short h =
      elim (Bool-cases
        (ltb capacity (length (state_session_eviction_order turns clarifications)))) [
          | inl over ↦
              evict_victim-IsShort (evict_sessions fuel pending_requests capacity) pending_requests
                turns clarifications after
                (λ t c s. evict_sessions-IsShort fuel pending_requests capacity t c after s)
                (state_session_eviction_order turns clarifications) short (rw over at h)
          | inr within ↦
              subst (λ (s : Turns × Clarifications). All IsShort s.0)
                (ok-injective (rw within at h)) short
        ]

  enforce_session_capacity-IsShort :
      (root bounded : CoordinatorStateRoot) (capacity : ℕ)
      → All IsShort root.conversation_turns
      → enforce_session_capacity root capacity ≡ ok bounded
      → All IsShort bounded.conversation_turns
  unfolding enforce_session_capacity without_unpinned_revisions
  enforce_session_capacity-IsShort root bounded capacity short h =
      let (after, done, result) =
        >>=-eq-ok
          (evict_sessions
            (length
              (state_session_eviction_order root.conversation_turns root.clarification_records))
            root.pending_request_by_state capacity root.conversation_turns
            root.clarification_records)
          _ h in
      subst (λ (b : CoordinatorStateRoot). All IsShort b.conversation_turns) (ok-injective result)
        (evict_sessions-IsShort _ _ _ _ _ after short done)

-- A commit that succeeds keeps every conversation within the configured number of messages, when
-- that is positive, as `build_coordinator_config` requires, and every conversation was within it
-- before.
pub commit_reply_candidate-IsShort :
    (hashing : Hashing) (root candidate : CoordinatorStateRoot) (p : ReplyCommitProposal)
    (uuid : ℕ → String) (now : Readings) (config : CoordinatorConfig) (response : ReplyResponse)
    → commit_reply_candidate hashing root p uuid now config ≡ ok (candidate, response)
    → 1 ≤ config.conversation_max_messages
    → All (λ e. length e.1 ≤ config.conversation_max_messages) root.conversation_turns
    → All (λ e. length e.1 ≤ config.conversation_max_messages) candidate.conversation_turns
unfolding committed_root
commit_reply_candidate-IsShort hashing root candidate p uuid now config response done positive
      short =
    let steps =
      commit_reply_candidate-CommitSteps hashing root candidate p uuid now config response done in
    enforce_session_capacity-IsShort config.conversation_max_messages
      (committed_root hashing root p response steps.checked_revision steps.audit_record
        steps.audits_left now config)
      candidate config.conversation_max_sessions
      (All-insert _ p.state_key _ root.conversation_turns (length-tail_slice-le _ _ positive) short)
      steps.fits
