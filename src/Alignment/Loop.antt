-- ===== src/Alignment/Loop.antt =====
-- The loop of src/market_support_crewai_agent/runtime/validation/alignment_loop.py. The remediator
-- is a protocol whose methods call models: they are parameters, which read and change a state `S`.
-- A round is one pass of the `while`; fuel bounds the rounds.
use market_support_crewai_ag.Prelude.{
  Bool, Option, bool_Eq, false, if◌then◌else◌, leb, list_Eq, ltb, nat_Eq, none, not, option_Eq,
  pair_Eq, some, string_Eq, suc, triple_Eq, true, zero, ℕ, ◌&&◌, ◌+◌, ◌==◌, ◌||◌,
}
use market_support_crewai_ag.Alignment.{
  AlignmentFallback, AlignmentRefetchOutcome, AlignmentRemediation, AlignmentRemediationLimits,
  AttemptResult, Attempted, Object, Raised, RecallTurnState, ReplyAlignmentVerdict,
  agent_runtime_error, fallback_clarification, fallback_unable, no_remediation, other_exception,
  raised, recompose, refetch_document_context, refetch_report_scope, refusal_mode, replan,
  response_mode_Eq, return_clarification, return_unable, returned, timeout_error,
}
use market_support_crewai_ag.Alignment.Postconditions.{
  PlanHashing, require_recompose_response_only, require_refetch_authority,
  require_replacement_authority, require_replan_authority, require_same_recall_state,
}
use market_support_crewai_ag.Identity.{
  pair_Repr, scene_Eq, state_key_Eq, state_key_Repr, string_Repr, triple_Repr,
}
use market_support_crewai_ag.Schemas.{execution_type_Eq, reply_kind_Eq, status_Eq}

pub record V2AlignmentRemediator (S : Type 0) : Type 0 where
  pub verdict_for : AttemptResult → ℕ → S → Attempted ReplyAlignmentVerdict × S
  pub replan_with : AttemptResult → ReplyAlignmentVerdict → ℕ → S → Attempted AttemptResult × S
  pub refetch_with :
      AttemptResult → ReplyAlignmentVerdict → ℕ → S → Attempted AlignmentRefetchOutcome × S
  pub recompose_with : AttemptResult → ReplyAlignmentVerdict → ℕ → S → Attempted AttemptResult × S
  pub replace_with :
      AttemptResult
      → Option ReplyAlignmentVerdict
      → AlignmentFallback
      → S
      → Attempted AttemptResult × S

-- the locals of `ensure_aligned_v2_response`
pub record LoopState : Type 0 where
  pub candidate : AttemptResult
  pub replan_count : ℕ
  pub refetch_count : ℕ
  pub recompose_count : ℕ
  pub total : ℕ

pub data Round : Type 0 where
  finished : Attempted AttemptResult → Round
  next_round : LoopState → Round

unfoldable pub alignment_attempt : ℕ → Attempted ℕ
alignment_attempt value =
    if ltb 2 value
    then raised (agent_runtime_error "alignment_attempt_out_of_range")
    else returned value

unfoldable pub action_attempt : ℕ → Attempted ℕ
action_attempt value =
    if ltb value 1 || ltb 2 value
    then raised (agent_runtime_error "alignment_action_attempt_out_of_range")
    else returned value

-- `except (AgentRuntimeError, TimeoutError)`
abbrev pub is_caught : Raised → Bool
is_caught (agent_runtime_error message) = true
is_caught timeout_error = true
is_caught (other_exception message) = false

abbrev pub start_of : AttemptResult → LoopState
start_of candidate = record {
  candidate = candidate;
  replan_count = 0;
  refetch_count = 0;
  recompose_count = 0;
  total = 0;
}

-- the locals once a remediation is counted and its candidate taken
abbrev pub after_replan : LoopState → AttemptResult → LoopState
after_replan st a = record st {
  candidate = a;
  replan_count = st.replan_count + 1;
  total = st.total + 1;
}

abbrev pub after_refetch : LoopState → AttemptResult → LoopState
after_refetch st a = record st {
  candidate = a;
  refetch_count = st.refetch_count + 1;
  total = st.total + 1;
}

abbrev pub after_recompose : LoopState → AttemptResult → LoopState
after_recompose st a = record st {
  candidate = a;
  recompose_count = st.recompose_count + 1;
  total = st.total + 1;
}

abbrev pub checked {ℓ} : {A : Type ℓ} → Attempted (Unit {0}) → Attempted A → Attempted A
checked (raised e) a = raised e
checked (returned u) a = a

module _ {S : Type 0} where
  abbrev pub finish : Attempted AttemptResult × S → Round × S
  finish (result, s) = (finished result, s)

  abbrev pub after {ℓ} : {A : Type ℓ} → Attempted A × S → (A → S → Round × S) → Round × S
  after (raised e, s) next = (finished (raised e), s)
  after (returned a, s) next = next a s

  abbrev pub follow :
      Round × S
      → (LoopState → S → Option (Attempted AttemptResult) × S)
      → Option (Attempted AttemptResult) × S
  follow (finished result, s) next = (some result, s)
  follow (next_round st, s) next = next st s

  -- `if not candidate.reply_validation.valid: return candidate`
  abbrev pub validated : LoopState → Bool → S → Round × S
  validated st valid s =
      if not valid then (finished (returned st.candidate), s) else (next_round st, s)

module _ {S : Type 0} (hashing : PlanHashing) (remediator : V2AlignmentRemediator S)
    (limits : AlignmentRemediationLimits) (recall_state : Object RecallTurnState) where
  abbrev pub accept_replacement :
      AttemptResult → AlignmentFallback → Attempted AttemptResult × S → Attempted AttemptResult × S
  accept_replacement before remediation (raised e, s) = (raised e, s)
  accept_replacement before remediation (returned replacement, s) = (
    checked (require_replacement_authority hashing before replacement remediation)
        (checked (require_same_recall_state replacement recall_state) (returned replacement)),
    s,
  )

  -- `_replace`
  unfoldable pub replace :
      AttemptResult
      → Option ReplyAlignmentVerdict
      → AlignmentFallback
      → S
      → Attempted AttemptResult × S
  replace candidate verdict remediation s =
      accept_replacement candidate remediation
        (remediator.replace_with candidate verdict remediation s)

  -- the end of a round, after the postconditions of its remediation
  abbrev pub settle : LoopState → Attempted (Unit {0}) → S → Round × S
  settle st (raised e) s = (finished (raised e), s)
  settle st (returned u) s = validated st st.candidate.reply_valid s

  abbrev pub settle_checked : LoopState → Attempted (Unit {0}) → S → Round × S
  settle_checked st check s =
      settle st (checked check (require_same_recall_state st.candidate recall_state)) s

  abbrev pub settle_replan :
      LoopState → ReplyAlignmentVerdict → Attempted AttemptResult × S → Round × S
  settle_replan st verdict (returned a, s) =
      settle_checked (after_replan st a) (require_replan_authority hashing st.candidate a) s
  settle_replan st verdict (raised e, s) =
      if is_caught e
      then finish (replace st.candidate (some verdict) fallback_unable s)
      else (finished (raised e), s)

  abbrev pub settle_refetch :
      LoopState → ReplyAlignmentVerdict → AlignmentRefetchOutcome → S → Round × S
  settle_refetch st verdict outcome s =
      settle_checked (after_refetch st outcome.candidate)
        (require_refetch_authority hashing st.candidate outcome verdict) s

  abbrev pub settle_recompose : LoopState → AttemptResult → S → Round × S
  settle_recompose st a s =
      settle_checked (after_recompose st a) (require_recompose_response_only st.candidate a) s

  abbrev pub attempted_replan :
      LoopState → ReplyAlignmentVerdict → Attempted ℕ → S → Attempted AttemptResult × S
  attempted_replan st verdict (raised e) s = (raised e, s)
  attempted_replan st verdict (returned attempt) s =
      remediator.replan_with st.candidate verdict attempt s

  abbrev pub refetch_round : LoopState → ReplyAlignmentVerdict → S → Round × S
  refetch_round st verdict s =
      if ltb st.refetch_count limits.max_refetches
      then after (action_attempt (st.refetch_count + 1), s)
          (λ attempt t.
            after (remediator.refetch_with st.candidate verdict attempt t)
              (settle_refetch st verdict))
      else finish (replace st.candidate (some verdict) fallback_unable s)

  -- the `match` on the verdict's remediation
  unfoldable pub remedy : LoopState → ReplyAlignmentVerdict → AlignmentRemediation → S → Round × S
  unfolding replace
  remedy st verdict replan s =
      if ltb st.replan_count limits.max_replans
      then settle_replan st verdict
          (attempted_replan st verdict (action_attempt (st.replan_count + 1)) s)
      else finish (replace st.candidate (some verdict) fallback_unable s)
  remedy st verdict refetch_document_context s = refetch_round st verdict s
  remedy st verdict refetch_report_scope s = refetch_round st verdict s
  remedy st verdict recompose s =
      if ltb st.recompose_count limits.max_recomposes
      then after (action_attempt (st.recompose_count + 1), s)
          (λ attempt t.
            after (remediator.recompose_with st.candidate verdict attempt t) (settle_recompose st))
      else finish (replace st.candidate (some verdict) fallback_unable s)
  remedy st verdict return_clarification s =
      finish (replace st.candidate (some verdict) fallback_clarification s)
  remedy st verdict no_remediation s =
      finish (replace st.candidate (some verdict) fallback_unable s)
  remedy st verdict return_unable s = finish (replace st.candidate (some verdict) fallback_unable s)

  -- what follows the call of `verdict_for`
  unfoldable pub judge : LoopState → Attempted ReplyAlignmentVerdict × S → Round × S
  unfolding replace remedy
  judge st (raised e, s) =
      if is_caught e
      then (if st.candidate.plan.content.response_mode == refusal_mode
          then (finished (returned st.candidate), s)
          else finish (replace st.candidate none fallback_unable s))
      else (finished (raised e), s)
  judge st (returned verdict, s) =
      if verdict.aligned && verdict.safe_to_return
      then (finished (returned st.candidate), s)
      else if leb limits.max_total st.total
      then finish (replace st.candidate (some verdict) fallback_unable s)
      else remedy st verdict verdict.remediation s

  unfoldable pub round : LoopState → S → Round × S
  unfolding judge
  round st s =
      after (alignment_attempt st.total, s)
        (λ attempt t. judge st (remediator.verdict_for st.candidate attempt t))

  unfoldable pub align : ℕ → LoopState → S → Option (Attempted AttemptResult) × S
  unfolding round
  align zero st s = (none, s)
  align (suc fuel) st s = follow (round st s) (align fuel)

module _ {S : Type 0} (hashing : PlanHashing) (remediator : V2AlignmentRemediator S)
    (limits : AlignmentRemediationLimits) where
  abbrev pub ensure_from :
      ℕ → AttemptResult → Option (Object RecallTurnState) → S → Option (Attempted AttemptResult) × S
  ensure_from fuel candidate none s = (some (returned candidate), s)
  ensure_from fuel candidate (some recall_state) s =
      align hashing remediator limits recall_state fuel (start_of candidate) s

  unfoldable pub ensure_aligned_v2_response :
      ℕ → AttemptResult → S → Option (Attempted AttemptResult) × S
  unfolding align
  ensure_aligned_v2_response fuel candidate s = ensure_from fuel candidate candidate.recall_state s
