-- ===== src/Alignment/Rounds.antt =====
-- What a round of the alignment loop ends with.
use market_support_crewai_ag.Prelude.{
  Bool, Bool-cases, Option, Option-cases, ap, arith, bool_Eq, eq_iff, false, inl, inr, leb, list_Eq,
  ltb, nat_Eq, none, option_Eq, pair_Eq, refl, some, string_Eq, triple_Eq, true, ℕ, ◌&&◌, ◌+◌, ◌<◌,
  ◌==◌, ◌∙◌, ◌≡◌,
}
use market_support_crewai_ag.Alignment.{
  AlignmentFallback, AlignmentRemediation, AlignmentRemediationLimits, AttemptResult, Attempted,
  ExecutionPlanOrigin, Object, RecallTurnState, ReplyAlignmentVerdict, fallback_clarification,
  fallback_unable, no_remediation, raised, recompose, refetch_document_context,
  refetch_report_scope, refusal_mode, remediation_origin, replan, response_mode_Eq,
  return_clarification, return_unable, returned,
}
use market_support_crewai_ag.Alignment.Loop.{
  LoopState, Round, V2AlignmentRemediator, accept_replacement, action_attempt, after,
  after_recompose, after_refetch, after_replan, alignment_attempt, attempted_replan, checked,
  finish, finished, is_caught, judge, next_round, refetch_round, remedy, replace, round, settle,
  settle_checked, settle_replan, validated,
}
use market_support_crewai_ag.Alignment.Postconditions.{
  PlanHashing, expected_mode, is_remediation, require_recompose_response_only,
  require_refetch_authority, require_replacement_authority, require_replan_authority,
  require_same_recall_state,
}
use market_support_crewai_ag.Identity.{
  pair_Repr, scene_Eq, state_key_Eq, state_key_Repr, string_Repr, triple_Repr,
}
use market_support_crewai_ag.Schemas.{execution_type_Eq, reply_kind_Eq, status_Eq}

-- the grounds on which a candidate is returned
pub data Settled {S : Type 0} (remediator : V2AlignmentRemediator S) : AttemptResult → Type 0 where
  judged_safe :
      {r : AttemptResult} (verdict : ReplyAlignmentVerdict) (attempt : ℕ) (s t : S)
      → remediator.verdict_for r attempt s ≡ (returned verdict, t)
      → verdict.aligned ≡ true
      → verdict.safe_to_return ≡ true
      → Settled remediator r
  refusal_plan :
      {r : AttemptResult} → r.plan.content.response_mode ≡ refusal_mode → Settled remediator r
  remediated :
      {r : AttemptResult} (remediation : AlignmentFallback)
      → r.plan.content.origin ≡ remediation_origin
      → r.plan.content.response_mode ≡ expected_mode remediation
      → Settled remediator r
  reply_invalid : {r : AttemptResult} → r.reply_valid ≡ false → Settled remediator r

require_same_recall_state-eq :
    (a : AttemptResult) (expected : Object RecallTurnState)
    → require_same_recall_state a expected ≡ returned tt
    → a.recall_state ≡ some expected
unfolding require_same_recall_state
require_same_recall_state-eq a expected h = elim (Option-cases a.recall_state) [
  | inl absent ↦ absurd (ground (arith, absent, h))
  | inr (actual, at) ↦
      let tested = rw at at h in
      at
      ∙ ap some (
          ground (
            arith,
            eq_iff actual.address expected.address,
            eq_iff actual.content.outcome.address expected.content.outcome.address,
            eq_iff actual.content.outcome.content expected.content.outcome.content,
          ))
]

is_remediation-eq : (o : ExecutionPlanOrigin) → is_remediation o ≡ true → o ≡ remediation_origin
is_remediation-eq o h = ground arith

require_replacement_authority-eq :
    (hashing : PlanHashing) (before after : AttemptResult) (remediation : AlignmentFallback)
    → require_replacement_authority hashing before after remediation ≡ returned tt
    → (after.plan.content.origin ≡ remediation_origin)
      × (after.plan.content.response_mode ≡ expected_mode remediation)
unfolding require_replacement_authority
require_replacement_authority-eq hashing before after remediation h = ground (
  arith,
  is_remediation-eq after.plan.content.origin,
  eq_iff after.plan.content.response_mode (expected_mode remediation),
)

unit_eq : (u : Unit {0}) → u ≡ tt
unit_eq tt = refl

module _ {S : Type 0} (hashing : PlanHashing) (remediator : V2AlignmentRemediator S)
    (limits : AlignmentRemediationLimits) (recall_state : Object RecallTurnState) where
  abbrev pub HasRecall : AttemptResult → Type 0
  HasRecall r = r.recall_state ≡ some recall_state

  -- a round that ends has grounds, one that goes on has used up a remediation
  abbrev pub Good : LoopState → Round → Type 0
  Good st (finished (raised e)) = Unit
  Good st (finished (returned r)) = HasRecall r × Settled remediator r
  Good st (next_round next) =
      HasRecall next.candidate × (next.total ≡ st.total + 1) × (st.total < limits.max_total)

  checked-Good :
      (st : LoopState) (check : Attempted (Unit {0})) (result : Attempted AttemptResult) (s : S)
      → (check ≡ returned tt → Good st (finish (result, s)).0)
      → Good st (finish (checked check result, s)).0
  checked-Good st (raised e) result s good = tt
  checked-Good st (returned u) result s good = good (ap returned (unit_eq u))

  accept-Good :
      (st : LoopState) (before : AttemptResult) (remediation : AlignmentFallback)
      (tried : Attempted AttemptResult × S)
      → Good st
          (finish
            (accept_replacement hashing remediator limits recall_state before remediation tried)).0
  accept-Good st before remediation (raised e, s) = tt
  accept-Good st before remediation (returned a, s) =
      checked-Good st (require_replacement_authority hashing before a remediation) _ s (λ accepted.
        checked-Good st (require_same_recall_state a recall_state) (returned a) s (λ same. (
          require_same_recall_state-eq a recall_state same,
          remediated remediation
              (require_replacement_authority-eq hashing before a remediation accepted).0
              (require_replacement_authority-eq hashing before a remediation accepted).1,
        )))

  replace-Good :
      (st : LoopState) (candidate : AttemptResult) (verdict : Option ReplyAlignmentVerdict)
      (remediation : AlignmentFallback) (s : S)
      → Good st
          (finish
            (replace hashing remediator limits recall_state candidate verdict remediation s)).0
  unfolding replace
  replace-Good st candidate verdict remediation s =
      accept-Good st candidate remediation (remediator.replace_with candidate verdict remediation s)

  validated-Good :
      (st next : LoopState) (s : S) (valid : Bool)
      → HasRecall next.candidate
      → next.total ≡ st.total + 1
      → st.total < limits.max_total
      → (valid ≡ false → Settled remediator next.candidate)
      → Good st (validated next valid s).0
  validated-Good st next s true has counted left invalid = (has, counted, left)
  validated-Good st next s false has counted left invalid = (has, invalid refl)

  settled-Good :
      (st next : LoopState) (check : Attempted (Unit {0})) (s : S)
      → (check ≡ returned tt → HasRecall next.candidate)
      → next.total ≡ st.total + 1
      → st.total < limits.max_total
      → Good st (settle hashing remediator limits recall_state next check s).0
  settled-Good st next (raised e) s kept counted left = tt
  settled-Good st next (returned u) s kept counted left =
      validated-Good st next s next.candidate.reply_valid (kept (ap returned (unit_eq u))) counted
        left reply_invalid

  checked-same :
      (check : Attempted (Unit {0})) (a : AttemptResult)
      → checked check (require_same_recall_state a recall_state) ≡ returned tt
      → HasRecall a
  checked-same (raised e) a h = absurd (cc)
  checked-same (returned u) a h = require_same_recall_state-eq a recall_state h

  settle-Good :
      (st next : LoopState) (check : Attempted (Unit {0})) (s : S)
      → next.total ≡ st.total + 1
      → st.total < limits.max_total
      → Good st (settle_checked hashing remediator limits recall_state next check s).0
  settle-Good st next check s counted left =
      settled-Good st next (checked check (require_same_recall_state next.candidate recall_state)) s
        (checked-same check next.candidate) counted left

  after-Good {ℓ} :
      {A : Type ℓ} (st : LoopState) (tried : Attempted A × S) (next : A → S → Round × S)
      → ((a : A) (s : S) → Good st (next a s).0)
      → Good st (after tried next).0
  after-Good st (raised e, s) next good = tt
  after-Good st (returned a, s) next good = good a s

  module _ (st : LoopState) (verdict : ReplyAlignmentVerdict)
      (left : st.total < limits.max_total) where
    settle_replan-Good :
        (tried : Attempted AttemptResult × S)
        → Good st (settle_replan hashing remediator limits recall_state st verdict tried).0
    settle_replan-Good (returned a, s) =
        settle-Good st (after_replan st a) (require_replan_authority hashing st.candidate a) s refl
          left
    settle_replan-Good (raised e, s) = elim (Bool-cases (is_caught e)) [
      | inl caught ↦ rw caught (replace-Good st st.candidate (some verdict) fallback_unable s)
      | inr uncaught ↦ rw uncaught tt
    ]

    unable-Good :
        (s : S)
        → Good st
            (finish (
              replace hashing remediator limits recall_state st.candidate
                (some verdict)
                fallback_unable
                s)).0
    unable-Good s = replace-Good st st.candidate (some verdict) fallback_unable s

    refetch_round-Good :
        (s : S) → Good st (refetch_round hashing remediator limits recall_state st verdict s).0
    refetch_round-Good s = elim (Bool-cases (ltb st.refetch_count limits.max_refetches)) [
      | inr spent ↦ rw spent (unable-Good s)
      | inl allowed ↦ rw allowed (
          after-Good st (action_attempt (st.refetch_count + 1), s) _
            (λ attempt t.
              after-Good st (remediator.refetch_with st.candidate verdict attempt t) _ (λ outcome v.
                settle-Good st (after_refetch st outcome.candidate)
                  (require_refetch_authority hashing st.candidate outcome verdict) v refl left)))
    ]

    remedy-Good :
        (remediation : AlignmentRemediation) (s : S)
        → Good st (remedy hashing remediator limits recall_state st verdict remediation s).0
    unfolding remedy
    remedy-Good replan s = elim (Bool-cases (ltb st.replan_count limits.max_replans)) [
      | inl allowed ↦ rw allowed (
          settle_replan-Good (
            attempted_replan hashing remediator limits recall_state st verdict
              (action_attempt (st.replan_count + 1)) s))
      | inr spent ↦ rw spent (unable-Good s)
    ]
    remedy-Good refetch_document_context s = refetch_round-Good s
    remedy-Good refetch_report_scope s = refetch_round-Good s
    remedy-Good recompose s = elim (Bool-cases (ltb st.recompose_count limits.max_recomposes)) [
      | inr spent ↦ rw spent (unable-Good s)
      | inl allowed ↦ rw allowed (
          after-Good st (action_attempt (st.recompose_count + 1), s) _
            (λ attempt t.
              after-Good st (remediator.recompose_with st.candidate verdict attempt t) _ (λ a v.
                settle-Good st (after_recompose st a)
                  (require_recompose_response_only st.candidate a) v refl left)))
    ]
    remedy-Good return_clarification s =
        replace-Good st st.candidate (some verdict) fallback_clarification s
    remedy-Good no_remediation s = unable-Good s
    remedy-Good return_unable s = unable-Good s

  judge-Good :
      (st : LoopState) (attempt : ℕ) (s : S) (judged : Attempted ReplyAlignmentVerdict × S)
      → HasRecall st.candidate
      → remediator.verdict_for st.candidate attempt s ≡ judged
      → Good st (judge hashing remediator limits recall_state st judged).0
  unfolding judge
  judge-Good st attempt s (raised e, t) has at = elim (Bool-cases (is_caught e)) [
    | inr uncaught ↦ rw uncaught tt
    | inl caught ↦ elim (Bool-cases (st.candidate.plan.content.response_mode == refusal_mode)) [
      | inl refusal ↦ rw caught (
          rw refusal (
            has,
            refusal_plan ((eq_iff st.candidate.plan.content.response_mode refusal_mode).0 refusal),
          ))
      | inr speaks ↦ rw caught (rw speaks (replace-Good st st.candidate none fallback_unable t))
    ]
  ]
  judge-Good st attempt s (returned verdict, t) has at =
      elim (Bool-cases (verdict.aligned && verdict.safe_to_return)) [
        | inl safe ↦
            rw safe (
              has,
              judged_safe verdict attempt s t at (ground (arith, safe)) (ground (arith, safe)),
            )
        | inr unsafe ↦ elim (Bool-cases (leb limits.max_total st.total)) [
          | inl spent ↦
              rw unsafe (rw spent (replace-Good st st.candidate (some verdict) fallback_unable t))
          | inr left ↦
              rw unsafe
                (rw left (remedy-Good st verdict (ground (arith, left)) verdict.remediation t))
        ]
      ]

  pub round-Good :
      (st : LoopState) (s : S)
      → HasRecall st.candidate
      → Good st (round hashing remediator limits recall_state st s).0
  unfolding round
  round-Good st s has =
      after-Good st (alignment_attempt st.total, s) _
        (λ attempt t.
          judge-Good st attempt t (remediator.verdict_for st.candidate attempt t) has refl)
