-- ===== src/Coordinator/Consistency/Calls.antt =====
-- The invariant across the calls of the coordinator (src/market_support_crewai_agent/runtime/state/
-- transaction_coordinator.py).
use market_support_crewai_ag.Prelude.{
  Bool, List, Option, String, [], ap, arith, bool_Eq, inl, inr, list_Eq, nat_Eq, none, option_Eq,
  pair_Eq, some, string_Eq, subst, triple_Eq, ℕ, ◌∷◌, ◌≡◌,
}
use market_support_crewai_ag.Coordinator.Cleanup.{cleanup_candidate}
use market_support_crewai_ag.Coordinator.Config.{CoordinatorConfig}
use market_support_crewai_ag.Coordinator.Consistency.{IsConsistent}
use market_support_crewai_ag.Coordinator.Consistency.Cleanups.{cleanup_candidate-IsConsistent}
use market_support_crewai_ag.Coordinator.Consistency.Evictions.{
  issued_capacity_eviction_candidate-IsConsistent,
}
use market_support_crewai_ag.Coordinator.Consistency.Publications.{
  continue-IsConsistent, publish-IsConsistent, publish_some-IsConsistent,
}
use market_support_crewai_ag.Coordinator.Consistency.Requests.{
  abort-IsConsistent, commit_reply_candidate-IsConsistent, reserved-IsConsistent,
}
use market_support_crewai_ag.Coordinator.Hashing.{Hashing}
use market_support_crewai_ag.Coordinator.ReplyCommit.{commit_reply_candidate}
use market_support_crewai_ag.Coordinator.Reservations.{
  Readings, abort_reply_candidate, existing_reservation_result, reserve_reply_candidate,
}
use market_support_crewai_ag.Coordinator.Retention.{issued_capacity_eviction_candidate}
use market_support_crewai_ag.Coordinator.Transactions.{
  CallInputs, Coordinator, abort_reply, cleanup_expired, cleanup_locked, commit_reply, continue,
  lift, publish_some, pure, reserve_reply, reserve_unless_replayed,
}
use market_support_crewai_ag.Errors.{Result, Result-cases, ok, ok-injective, some-injective}
use market_support_crewai_ag.Identity.{
  ConversationStateKey, pair_Repr, scene_Eq, state_key_Eq, state_key_Repr, string_Repr, triple_Repr,
}
use market_support_crewai_ag.Records.{ReplyCommitProposal, ReservationResult}
use market_support_crewai_ag.Root.{
  CoordinatorStateRoot, JournalOperation, cleanup, reply_abort, reply_commit, reply_reserve,
}
use market_support_crewai_ag.Schemas.{execution_type_Eq, reply_kind_Eq, status_Eq}
use market_support_crewai_ag.Text.{Bytes}

-- a publication, and a result that leaves the coordinator alone after it
pub published :
    {A : Type 0} (id : Bytes) (operation : JournalOperation)
    (initiating : Option ConversationStateKey) (affected : List ConversationStateKey)
    (candidate : Option CoordinatorStateRoot) (result : Result A) (c : Coordinator)
    → IsConsistent c.root
    → ((next : CoordinatorStateRoot) → candidate ≡ some next → IsConsistent next)
    → IsConsistent
        (continue
          (publish_some id operation initiating affected candidate c).0
          (λ _. lift result)
          (publish_some id operation initiating affected candidate c).1).1.root
published id operation initiating affected candidate result c h made =
    let kept = publish_some-IsConsistent id operation initiating affected candidate c h made in
    continue-IsConsistent (publish_some id operation initiating affected candidate)
      (λ _. lift result) c kept (λ _ _. kept)

pub cleanup_locked-IsConsistent :
    (now_ns now_ms : ℕ) (id : Bytes) (c : Coordinator)
    → IsConsistent c.root
    → IsConsistent (cleanup_locked now_ns now_ms id c).1.root
unfolding cleanup_locked
cleanup_locked-IsConsistent now_ns now_ms id c h =
    published id cleanup none [] (cleanup_candidate now_ns now_ms c.config c.root).0
      (ok (cleanup_candidate now_ns now_ms c.config c.root).1) c h
      (λ next done. cleanup_candidate-IsConsistent now_ns now_ms c.config c.root next h done)

module _ (inputs : CallInputs) (c : Coordinator) (h : IsConsistent c.root) where
  abbrev cleaned : Coordinator
  cleaned = (cleanup_locked inputs.cleanup_ns inputs.cleanup_ms (inputs.transaction_id 0) c).1

  cleaned-IsConsistent : IsConsistent cleaned.root
  cleaned-IsConsistent =
      cleanup_locked-IsConsistent inputs.cleanup_ns inputs.cleanup_ms (inputs.transaction_id 0) c h

  pub cleanup_expired-IsConsistent : IsConsistent (cleanup_expired inputs c).1.root
  unfolding cleanup_expired
  cleanup_expired-IsConsistent = cleaned-IsConsistent

  pub abort_reply-IsConsistent :
      (state_key : ConversationStateKey) (request_id : String) (owner_token : Bytes)
      → IsConsistent (abort_reply inputs state_key request_id owner_token c).1.root
  unfolding abort_reply
  abort_reply-IsConsistent state_key request_id owner_token =
      elim (Result-cases (abort_reply_candidate c.root state_key request_id owner_token)) [
        | inr (e, refused) ↦ rw refused h
        | inl (candidate, made) ↦ rw made (
            publish-IsConsistent (inputs.transaction_id 0) reply_abort (some state_key)
              (state_key ∷ []) candidate c h
              (abort-IsConsistent c.root h candidate state_key request_id owner_token made))
      ]

  pub commit_reply-IsConsistent :
      (hashing : Hashing) (p : ReplyCommitProposal)
      → IsConsistent (commit_reply inputs hashing p c).1.root
  unfolding commit_reply
  commit_reply-IsConsistent hashing p =
      elim (Result-cases
        (commit_reply_candidate hashing c.root p inputs.uuid inputs.now c.config)) [
          | inr (e, refused) ↦ rw refused h
          | inl ((candidate, response), made) ↦ rw made (
              published (inputs.transaction_id 0) reply_commit (some p.state_key) (p.state_key ∷ [])
                (some candidate) (ok response) c h
                (λ next same. subst IsConsistent (some-injective same) (
                  commit_reply_candidate-IsConsistent c.root h hashing candidate p inputs.uuid
                    inputs.now c.config response made)))
        ]

  module _ (state_key : ConversationStateKey) (request_id request_hash : String)
      (replay_eligible : Bool) where
    reserve_reply_candidate-IsConsistent :
        (root candidate : CoordinatorStateRoot) (now : Readings) (config : CoordinatorConfig)
        (result : ReservationResult)
        → IsConsistent root
        → reserve_reply_candidate state_key request_id request_hash replay_eligible root now config
          ≡ ok (some candidate, result)
        → IsConsistent candidate
    unfolding reserve_reply_candidate
    reserve_reply_candidate-IsConsistent root candidate now config result consistent done =
        elim (Result-cases
          (existing_reservation_result state_key request_id request_hash replay_eligible root)) [
            | inr (e, refused) ↦ let never = rw refused at done in absurd (ground arith)
            | inl (some replay, looked) ↦ let never = rw looked at done in absurd (ground arith)
            | inl (none, free) ↦
                let made = ok-injective (rw free at done) in
                let same =
                  some-injective
                    (ap (λ (x : Option CoordinatorStateRoot × ReservationResult). x.0) made) in
                subst IsConsistent same (
                  reserved-IsConsistent root consistent state_key request_id request_hash
                    replay_eligible now config free)
          ]

    reserve_next-IsConsistent :
        (b : Coordinator)
        → IsConsistent b.root
        → IsConsistent
            (continue
              (reserve_reply_candidate state_key request_id request_hash replay_eligible b.root
                inputs.now b.config)
              (λ (x : Option CoordinatorStateRoot × ReservationResult) (d : Coordinator).
                continue
                  (publish_some
                    (inputs.transaction_id 2)
                    reply_reserve
                    (some state_key)
                    (state_key ∷ [])
                    x.0
                    d).0
                  (λ _. pure x.1)
                  (publish_some
                    (inputs.transaction_id 2)
                    reply_reserve
                    (some state_key)
                    (state_key ∷ [])
                    x.0
                    d).1)
              b).1.root
    reserve_next-IsConsistent b consistent =
        elim (Result-cases (
          reserve_reply_candidate state_key request_id request_hash replay_eligible b.root
            inputs.now b.config)) [
              | inr (e, refused) ↦ rw refused consistent
              | inl ((candidate, result), made) ↦ rw made (
                  published (inputs.transaction_id 2) reply_reserve (some state_key)
                    (state_key ∷ []) candidate (ok result) b consistent
                    (λ next same.
                      reserve_reply_candidate-IsConsistent b.root next inputs.now b.config result
                        consistent (rw same at made)))
            ]

    reserve_unless_replayed-IsConsistent :
        (b : Coordinator) (replay : Option ReservationResult)
        → IsConsistent b.root
        → IsConsistent
            (reserve_unless_replayed inputs state_key request_id request_hash replay_eligible replay
              b).1.root
    unfolding reserve_unless_replayed
    reserve_unless_replayed-IsConsistent b (some replay) consistent = consistent
    reserve_unless_replayed-IsConsistent b none consistent =
        elim (Result-cases
          (issued_capacity_eviction_candidate b.root b.config.issued_response_capacity)) [
            | inr (e, refused) ↦ rw refused consistent
            | inl (eviction, found) ↦
                let evicted =
                  publish_some-IsConsistent (inputs.transaction_id 1) cleanup none [] eviction b
                    consistent
                    (λ next same.
                      issued_capacity_eviction_candidate-IsConsistent b.root next
                        b.config.issued_response_capacity consistent (rw same at found)) in
                rw found (
                  continue-IsConsistent
                    (publish_some (inputs.transaction_id 1) cleanup none [] eviction)
                    (λ _ d.
                      continue
                        (reserve_reply_candidate state_key request_id request_hash replay_eligible
                          d.root inputs.now d.config)
                        (λ (x : Option CoordinatorStateRoot × ReservationResult) (f : Coordinator).
                          continue
                            (publish_some (inputs.transaction_id 2) reply_reserve (some state_key)
                              (state_key ∷ []) x.0 f).0
                            (λ _. pure x.1)
                            (publish_some (inputs.transaction_id 2) reply_reserve (some state_key)
                              (state_key ∷ []) x.0 f).1)
                        d)
                    b evicted (λ _ _. reserve_next-IsConsistent _ evicted))
          ]

    pub reserve_reply-IsConsistent :
        IsConsistent
          (reserve_reply inputs state_key request_id request_hash replay_eligible c).1.root
    unfolding reserve_reply
    reserve_reply-IsConsistent =
        continue-IsConsistent
          (cleanup_locked inputs.cleanup_ns inputs.cleanup_ms (inputs.transaction_id 0))
          (λ _ d.
            continue
              (existing_reservation_result state_key request_id request_hash replay_eligible d.root)
              (reserve_unless_replayed inputs state_key request_id request_hash replay_eligible) d)
          c cleaned-IsConsistent
          (λ _ _.
            elim (Result-cases (
              existing_reservation_result state_key request_id request_hash replay_eligible
                cleaned.root)) [
                  | inr (e, refused) ↦ rw refused cleaned-IsConsistent
                  | inl (replay, found) ↦
                      rw found
                        (reserve_unless_replayed-IsConsistent cleaned replay cleaned-IsConsistent)
                ])
