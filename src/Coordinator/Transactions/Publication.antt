-- ===== src/Coordinator/Transactions/Publication.antt =====
-- `_publish` and `commit_reply` (src/market_support_crewai_agent/runtime/state/
-- transaction_coordinator.py).
use market_support_crewai_ag.Prelude.{
  Bool-cases, List, Option, [], arith, bool_Eq, eq_iff, inl, inr, list_Eq, nat_Eq, option_Eq,
  pair_Eq, some, string_Eq, triple_Eq, ◌!=◌, ◌+◌, ◌∷◌, ◌≡◌, ◌⊎◌,
}
use market_support_crewai_ag.Coordinator.Hashing.{Hashing}
use market_support_crewai_ag.Coordinator.ReplyCommit.{commit_reply_candidate}
use market_support_crewai_ag.Coordinator.Retention.{prepare_root_for_publication}
use market_support_crewai_ag.Coordinator.Transactions.{
  CallInputs, Coordinator, commit_reply, install, publish,
}
use market_support_crewai_ag.Errors.{Error, Result-cases, err, fault, ok, state_store_unavailable}
use market_support_crewai_ag.Identity.{
  ConversationStateKey, pair_Repr, scene_Eq, state_key_Eq, state_key_Repr, string_Repr, triple_Repr,
}
use market_support_crewai_ag.Records.{ReplyCommitProposal}
use market_support_crewai_ag.Root.{CoordinatorStateRoot, JournalOperation, reply_commit}
use market_support_crewai_ag.Schemas.{ReplyResponse, execution_type_Eq, reply_kind_Eq, status_Eq}
use market_support_crewai_ag.Text.{Bytes}

-- A publication that succeeds installs the checked form of its candidate, with the revision that
-- follows that of the root before; one that raises leaves the root.
pub publish_lem :
    (id : Bytes) (operation : JournalOperation) (initiating : Option ConversationStateKey)
    (affected : List ConversationStateKey) (candidate : CoordinatorStateRoot) (c : Coordinator)
    → (((publish id operation initiating affected candidate c).0 ≡ ok tt)
        × (prepare_root_for_publication candidate c.config.state_revision_capacity
            ≡ ok (publish id operation initiating affected candidate c).1.root)
        × ((publish id operation initiating affected candidate c).1.root.root_revision
            ≡ c.root.root_revision + 1))
      ⊎ ((e : Error) × ((publish id operation initiating affected candidate c).0 ≡ err e)
          × ((publish id operation initiating affected candidate c).1.root ≡ c.root))
unfolding publish install
publish_lem id operation initiating affected candidate c =
    elim (Result-cases (prepare_root_for_publication candidate c.config.state_revision_capacity)) [
      | inl (next, prepared_root) ↦
          elim (Bool-cases (next.root_revision != c.root.root_revision + 1)) [
            | inl stale ↦
                inr (
                  state_store_unavailable,
                  rw prepared_root (rw stale),
                  rw prepared_root (rw stale),
                )
            | inr successor ↦ elim (Bool-cases (c.fault_hook operation)) [
              | inl raised ↦ inr (
                fault,
                rw prepared_root (rw successor (rw raised)),
                rw prepared_root (rw successor (rw raised)),
              )
              | inr quiet ↦ inl (
                rw prepared_root (rw successor (rw quiet)),
                rw prepared_root (rw successor (rw quiet)),
                rw prepared_root (
                    rw successor (
                      rw quiet
                        (ground (arith, eq_iff next.root_revision (c.root.root_revision + 1))))),
              )
            ]
          ]
      | inr (e, failed_root) ↦ inr (e, rw failed_root, rw failed_root)
    ]

-- A commit through the coordinator returns a response and the root's revision is the next one,
-- or it raises and the root is the one before.
pub commit_reply_lem :
    (inputs : CallInputs) (hashing : Hashing) (p : ReplyCommitProposal) (c : Coordinator)
    → ((response : ReplyResponse) × ((commit_reply inputs hashing p c).0 ≡ ok response)
        × ((commit_reply inputs hashing p c).1.root.root_revision ≡ c.root.root_revision + 1))
      ⊎ ((e : Error) × ((commit_reply inputs hashing p c).0 ≡ err e)
          × ((commit_reply inputs hashing p c).1.root ≡ c.root))
unfolding commit_reply
commit_reply_lem inputs hashing p c =
    elim (Result-cases (commit_reply_candidate hashing c.root p inputs.uuid inputs.now c.config)) [
      | inr (e, refused) ↦ inr (e, rw refused, rw refused)
      | inl ((candidate, response), made) ↦
          elim (publish_lem (inputs.transaction_id 0) reply_commit (some p.state_key)
            (p.state_key ∷ []) candidate c) [
              | inl (done, installed, next) ↦
                  inl (response, rw made (rw done), rw made (rw done next))
              | inr (e, raised, kept) ↦ inr (e, rw made (rw raised), rw made (rw raised kept))
            ]
    ]
