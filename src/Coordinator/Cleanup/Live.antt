-- ===== src/Coordinator/Cleanup/Live.antt =====
-- What `cleanup_candidate` (coordinator_cleanup.py) leaves.
use market_support_crewai_ag.Prelude.{
  All, All-kept, All-tail_slice, Bool-cases, List, [], arith, bool_Eq, false, inl, inr, leb,
  list_Eq, nat_Eq, nat_eq, not, option_Eq, pair_Eq, some, string_Eq, subst, triple_Eq, ℕ, ◌&&◌, ◌+◌,
  ◌∷◌, ◌≡◌,
}
use market_support_crewai_ag.Audit.{audit_expires}
use market_support_crewai_ag.Coordinator.Cleanup.{
  cleaned_root, cleanup_candidate, expired, expired_issued, keys_where, removed_count, retained,
  retained_issued, retained_record, retained_turns, retained_turns_from, with_retained,
}
use market_support_crewai_ag.Coordinator.Config.{CoordinatorConfig}
use market_support_crewai_ag.Coordinator.Retention.{Turns, without_unpinned_revisions}
use market_support_crewai_ag.Errors.{some-injective}
use market_support_crewai_ag.FrozenMap.{items}
use market_support_crewai_ag.FrozenMap.Selection.{without_keys-selected}
use market_support_crewai_ag.Identity.{
  ConversationStateKey, pair_Repr, scene_Eq, state_key_Eq, state_key_Repr, string_Repr, triple_Repr,
}
use market_support_crewai_ag.Records.{
  ConversationTurnRecord, FeedbackReceipt, IssuedResponseRecord, complete, issued_expires, pending,
}
use market_support_crewai_ag.Root.{CoordinatorStateRoot, IssuedKey}
use market_support_crewai_ag.Schemas.{execution_type_Eq, reply_kind_Eq, status_Eq}

-- the receipts that stand in an issued record
abbrev pub receipts_of : IssuedResponseRecord → List FeedbackReceipt
receipts_of (pending r) = []
receipts_of (complete r) = r.receipts

-- Everything with a retention that stands in the root is live at the given readings.
pub record IsLive (now_monotonic_ns now_epoch_ms : ℕ) (config : CoordinatorConfig)
    (root : CoordinatorStateRoot) : Type 0 where
  pub issued : All (λ e. leb (issued_expires e.1) now_monotonic_ns ≡ false) root.issued_records
  pub issued_receipts :
      All
        (λ e. All (λ r. leb r.expires_at_monotonic_ns now_monotonic_ns ≡ false) (receipts_of e.1))
        root.issued_records
  pub turns :
      All
        (λ e.
          All
            (λ t. leb (t.created_at_epoch_ms + config.conversation_ttl_ms) now_epoch_ms ≡ false)
            e.1)
        root.conversation_turns
  pub tokens :
      All
        (λ e. leb e.1.preparation.expires_at_monotonic_ns now_monotonic_ns ≡ false)
        root.prepared_feedback_tokens
  pub receipts :
      All (λ e. leb e.1.expires_at_monotonic_ns now_monotonic_ns ≡ false) root.feedback_receipts
  pub ledger_rows :
      All (λ e. leb e.1.expires_at_monotonic_ns now_monotonic_ns ≡ false) root.action_ledger_records
  pub clarifications :
      All
        (λ e. leb (e.1.created_at_epoch_ms + config.conversation_ttl_ms) now_epoch_ms ≡ false)
        root.clarification_records
  pub audits : All (λ e. leb (audit_expires e.1) now_monotonic_ns ≡ false) root.audit_records

module _ (now_monotonic_ns now_epoch_ms : ℕ) (config : CoordinatorConfig) where
  retained_issued-live :
      (items : List (IssuedKey × IssuedResponseRecord))
      → All
          (λ e. leb (issued_expires e.1) now_monotonic_ns ≡ false)
          (retained_issued now_monotonic_ns now_epoch_ms config items)
  unfolding retained_issued retained_record expired_issued issued_expires
  retained_issued-live [] = tt
  retained_issued-live ((key, pending r) ∷ rest) =
      elim (Bool-cases (leb r.expires_at_monotonic_ns now_monotonic_ns)) [
        | inl old ↦ rw old (retained_issued-live rest)
        | inr live ↦ rw live (live, retained_issued-live rest)
      ]
  retained_issued-live ((key, complete r) ∷ rest) =
      elim (Bool-cases (leb r.expires_at_monotonic_ns now_monotonic_ns)) [
        | inl old ↦ rw old (retained_issued-live rest)
        | inr live ↦ rw live (live, retained_issued-live rest)
      ]

  retained_issued-receipts :
      (items : List (IssuedKey × IssuedResponseRecord))
      → All
          (λ e. All (λ r. leb r.expires_at_monotonic_ns now_monotonic_ns ≡ false) (receipts_of e.1))
          (retained_issued now_monotonic_ns now_epoch_ms config items)
  unfolding retained_issued retained_record expired_issued issued_expires
  retained_issued-receipts [] = tt
  retained_issued-receipts ((key, pending r) ∷ rest) =
      elim (Bool-cases (leb r.expires_at_monotonic_ns now_monotonic_ns)) [
        | inl old ↦ rw old (retained_issued-receipts rest)
        | inr live ↦ rw live (tt, retained_issued-receipts rest)
      ]
  retained_issued-receipts ((key, complete r) ∷ rest) =
      elim (Bool-cases (leb r.expires_at_monotonic_ns now_monotonic_ns)) [
        | inl old ↦ rw old (retained_issued-receipts rest)
        | inr live ↦ rw live (
          All-kept _ _ (λ x kept. ground (arith, kept)) r.receipts,
          retained_issued-receipts rest,
        )
      ]

  abbrev LiveTurn : ConversationTurnRecord → Type 0
  LiveTurn t = leb (t.created_at_epoch_ms + config.conversation_ttl_ms) now_epoch_ms ≡ false

  retained-live :
      (turns : List ConversationTurnRecord)
      → All LiveTurn (retained now_monotonic_ns now_epoch_ms config turns)
  unfolding retained
  retained-live turns =
      All-tail_slice LiveTurn config.conversation_max_messages _
        (All-kept LiveTurn _ (λ t kept. ground (arith, kept)) turns)

  with_retained-live :
      (k : ConversationStateKey) (turns : List ConversationTurnRecord) (others : Turns)
      → All LiveTurn turns
      → All (λ e. All LiveTurn e.1) others
      → All
          (λ e. All LiveTurn e.1)
          (with_retained now_monotonic_ns now_epoch_ms config k turns others)
  with_retained-live k [] others live rest = rest
  with_retained-live k (t ∷ ts) others live rest = (live, rest)

  retained_turns_from-live :
      (rows : List (ConversationStateKey × List ConversationTurnRecord))
      → All (λ e. All LiveTurn e.1) (retained_turns_from now_monotonic_ns now_epoch_ms config rows)
  unfolding retained_turns_from
  retained_turns_from-live [] = tt
  retained_turns_from-live ((k, turns) ∷ rest) =
      with_retained-live k (retained now_monotonic_ns now_epoch_ms config turns) _
        (retained-live turns) (retained_turns_from-live rest)

  cleaned_root-IsLive :
      (root : CoordinatorStateRoot)
      → IsLive now_monotonic_ns now_epoch_ms config (
          without_unpinned_revisions (
            cleaned_root now_monotonic_ns now_epoch_ms config root
              (expired now_monotonic_ns now_epoch_ms config root)))
  unfolding without_unpinned_revisions cleaned_root expired keys_where retained_turns
  cleaned_root-IsLive root = record {
    issued = retained_issued-live (items root.issued_records);
    issued_receipts = retained_issued-receipts (items root.issued_records);
    turns = retained_turns_from-live (items root.conversation_turns);
    tokens = without_keys-selected _ root.prepared_feedback_tokens;
    receipts = without_keys-selected _ root.feedback_receipts;
    ledger_rows = without_keys-selected _ root.action_ledger_records;
    clarifications = without_keys-selected _ root.clarification_records;
    audits = without_keys-selected _ root.audit_records;
  }

-- the candidate of a cleanup, where there is one
pub cleanup_candidate-some :
    (now_monotonic_ns now_epoch_ms : ℕ) (config : CoordinatorConfig)
    (root cleaned : CoordinatorStateRoot)
    → (cleanup_candidate now_monotonic_ns now_epoch_ms config root).0 ≡ some cleaned
    → without_unpinned_revisions (
        cleaned_root now_monotonic_ns now_epoch_ms config root
          (expired now_monotonic_ns now_epoch_ms config root))
      ≡ cleaned
unfolding cleanup_candidate
cleanup_candidate-some now_monotonic_ns now_epoch_ms config root cleaned h =
    elim (Bool-cases (
      nat_eq
        (removed_count now_monotonic_ns now_epoch_ms config
          (expired now_monotonic_ns now_epoch_ms config root))
        0
      && not (expired now_monotonic_ns now_epoch_ms config root).issued_receipts)) [
        | inl nothing ↦ absurd (ground (arith, nothing, h))
        | inr some_expired ↦ some-injective (rw some_expired at h)
      ]

-- When a cleanup has a candidate, nothing with a retention in it is past it: no issued record and
-- no receipt within one, no prepared token, feedback receipt, ledger row, turn of a conversation,
-- clarification or audit record. (State revisions are removed as unpinned, not by their expiry.)
pub cleanup_candidate-IsLive :
    (now_monotonic_ns now_epoch_ms : ℕ) (config : CoordinatorConfig)
    (root cleaned : CoordinatorStateRoot)
    → (cleanup_candidate now_monotonic_ns now_epoch_ms config root).0 ≡ some cleaned
    → IsLive now_monotonic_ns now_epoch_ms config cleaned
cleanup_candidate-IsLive now_monotonic_ns now_epoch_ms config root cleaned h =
    subst (IsLive now_monotonic_ns now_epoch_ms config)
      (cleanup_candidate-some now_monotonic_ns now_epoch_ms config root cleaned h)
      (cleaned_root-IsLive now_monotonic_ns now_epoch_ms config root)
