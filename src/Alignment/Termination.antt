-- ===== src/Alignment/Termination.antt =====
-- The loop ends: each round that goes on uses up one of the remediations.
use market_support_crewai_ag.Prelude.{
  Option, arith, bool_Eq, list_Eq, nat_Eq, none, option_Eq, pair_Eq, refl, some, string_Eq, subst,
  suc, triple_Eq, zero, ℕ, ◌+◌, ◌≡◌, ◌≤◌,
}
use market_support_crewai_ag.Alignment.{
  AlignmentRemediationLimits, AttemptResult, Attempted, Object, RecallTurnState, check_limits,
  response_mode_Eq, returned,
}
use market_support_crewai_ag.Alignment.Loop.{
  LoopState, Round, V2AlignmentRemediator, align, ensure_aligned_v2_response, ensure_from, finished,
  follow, next_round, round, start_of,
}
use market_support_crewai_ag.Alignment.Postconditions.{PlanHashing}
use market_support_crewai_ag.Alignment.Rounds.{Good, HasRecall, Settled, round-Good}
use market_support_crewai_ag.Errors.{some-injective}
use market_support_crewai_ag.Identity.{
  pair_Repr, scene_Eq, state_key_Eq, state_key_Repr, string_Repr, triple_Repr,
}
use market_support_crewai_ag.Schemas.{execution_type_Eq, reply_kind_Eq, status_Eq}

module _ {S : Type 0} (hashing : PlanHashing) (remediator : V2AlignmentRemediator S)
    (limits : AlignmentRemediationLimits) where
  module _ (recall_state : Object RecallTurnState) where
    follow-some :
        (st : LoopState) (o : Round × S)
        (next : LoopState → S → Option (Attempted AttemptResult) × S)
        → Good hashing remediator limits recall_state st o.0
        → ((later : LoopState) (t : S)
            → Good hashing remediator limits recall_state st (next_round later)
            → (result : Attempted AttemptResult) × ((next later t).0 ≡ some result))
        → (result : Attempted AttemptResult) × ((follow o next).0 ≡ some result)
    follow-some st (finished result, t) next good ends = (result, refl)
    follow-some st (next_round later, t) next good ends = ends later t good

    align-some :
        (rounds : ℕ) (st : LoopState) (s : S)
        → HasRecall hashing remediator limits recall_state st.candidate
        → limits.max_total ≤ st.total + rounds
        → (result : Attempted AttemptResult) × ((align hashing remediator limits recall_state
              (suc rounds)
              st
              s).0
            ≡ some result)
    unfolding align
    align-some zero st s has enough =
        follow-some st (round hashing remediator limits recall_state st s)
          (align hashing remediator limits recall_state 0)
          (round-Good hashing remediator limits recall_state st s has)
          (λ later t good. let (_, _, left) = good in absurd (omega arith))
    align-some (suc rounds) st s has enough =
        follow-some st (round hashing remediator limits recall_state st s)
          (align hashing remediator limits recall_state (suc rounds))
          (round-Good hashing remediator limits recall_state st s has)
          (λ later t good.
            let (kept, counted, _) = good in align-some rounds later t kept (omega arith))

    follow-Settled :
        (st : LoopState) (o : Round × S)
        (next : LoopState → S → Option (Attempted AttemptResult) × S) (r : AttemptResult)
        → Good hashing remediator limits recall_state st o.0
        → ((later : LoopState) (t : S)
            → HasRecall hashing remediator limits recall_state later.candidate
            → (next later t).0 ≡ some (returned r)
            → HasRecall hashing remediator limits recall_state r × Settled remediator r)
        → (follow o next).0 ≡ some (returned r)
        → HasRecall hashing remediator limits recall_state r × Settled remediator r
    follow-Settled st (finished result, t) next r good later ends =
        subst (λ x. Good hashing remediator limits recall_state st (finished x))
          (some-injective ends) good
    follow-Settled st (next_round st', t) next r good later ends = later st' t good.0 ends

    -- every candidate that the loop returns has grounds, and the turn's recall state
    align-Settled :
        (fuel : ℕ) (st : LoopState) (s : S) (r : AttemptResult)
        → HasRecall hashing remediator limits recall_state st.candidate
        → (align hashing remediator limits recall_state fuel st s).0 ≡ some (returned r)
        → HasRecall hashing remediator limits recall_state r × Settled remediator r
    unfolding align
    align-Settled zero st s r has ends = absurd (cc)
    align-Settled (suc fuel) st s r has ends =
        follow-Settled st (round hashing remediator limits recall_state st s)
          (align hashing remediator limits recall_state fuel) r
          (round-Good hashing remediator limits recall_state st s has)
          (λ later t kept done. align-Settled fuel later t r kept done) ends

  ensure_from-ends :
      (candidate : AttemptResult) (s : S)
      → limits.max_total ≤ 2
      → (recall : Option (Object RecallTurnState)) → candidate.recall_state ≡ recall
      → (result : Attempted AttemptResult) × ((ensure_from hashing remediator limits 3 candidate
            recall s).0
          ≡ some result)
  ensure_from-ends candidate s bound none has = (returned candidate, refl)
  ensure_from-ends candidate s bound (some recall_state) has =
      align-some recall_state 2 (start_of candidate) s has bound

  -- The loop ends: with limits that pass their check, three rounds are enough, so that at most three
  -- verdicts are asked for, whatever the remediator answers or raises.
  pub ensure_aligned_v2_response-ends :
      (candidate : AttemptResult) (s : S)
      → check_limits limits ≡ none
      → (result : Attempted AttemptResult) × ((ensure_aligned_v2_response hashing remediator limits
            3 candidate s).0
          ≡ some result)
  unfolding ensure_aligned_v2_response check_limits
  ensure_aligned_v2_response-ends candidate s fits =
      ensure_from-ends candidate s (ground arith) candidate.recall_state refl

  -- What the loop returns for a turn with a recall state has that recall state, and grounds: a
  -- verdict that it is aligned and safe to return, a refusal plan, a remediation plan that asks or
  -- abstains, or a reply that failed its validation.
  pub ensure_aligned_v2_response-Settled :
      (fuel : ℕ) (candidate r : AttemptResult) (recall_state : Object RecallTurnState) (s : S)
      → candidate.recall_state ≡ some recall_state
      → (ensure_aligned_v2_response hashing remediator limits fuel candidate s).0
        ≡ some (returned r)
      → (r.recall_state ≡ some recall_state) × Settled remediator r
  unfolding ensure_aligned_v2_response
  ensure_aligned_v2_response-Settled fuel candidate r recall_state s has ends =
      align-Settled recall_state fuel (start_of candidate) s r has (
        subst
          (λ o. (ensure_from hashing remediator limits fuel candidate o s).0 ≡ some (returned r))
          has ends)
