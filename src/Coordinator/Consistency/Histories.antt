-- ===== src/Coordinator/Consistency/Histories.antt =====
-- Sequences of calls of the coordinator (src/market_support_crewai_agent/runtime/state/
-- transaction_coordinator.py). Its lock makes each call one step.
use market_support_crewai_ag.Prelude.{Bool, String, true, ◌≡◌}
use market_support_crewai_ag.Coordinator.Consistency.{IsConsistent}
use market_support_crewai_ag.Coordinator.Consistency.Calls.{
  abort_reply-IsConsistent, cleanup_expired-IsConsistent, commit_reply-IsConsistent,
  reserve_reply-IsConsistent,
}
use market_support_crewai_ag.Coordinator.Consistency.FeedbackCalls.{
  commit_feedback-IsConsistent, prepare_feedback-IsConsistent,
}
use market_support_crewai_ag.Coordinator.Consistency.Feedbacks.{NamesRequest}
use market_support_crewai_ag.Coordinator.Hashing.{Hashing}
use market_support_crewai_ag.Coordinator.Transactions.{
  CallInputs, Coordinator, abort_reply, cleanup_expired, commit_feedback, commit_reply,
  prepare_feedback, reserve_reply,
}
use market_support_crewai_ag.Coordinator.Validity.{IsIndexed-indexes_valid}
use market_support_crewai_ag.Identity.{ConversationStateKey}
use market_support_crewai_ag.Records.{PreparedFeedback, ReplyCommitProposal}
use market_support_crewai_ag.Root.Validation.{indexes_valid}
use market_support_crewai_ag.Schemas.{ActionFeedbackRequest}
use market_support_crewai_ag.Text.{Bytes}

-- One call with any inputs, whatever it returns or raises.
pub data Call : Coordinator → Coordinator → Type 0 where
  cleanup_done : {c : Coordinator} (inputs : CallInputs) → Call c (cleanup_expired inputs c).1
  reply_reserved :
      {c : Coordinator} (inputs : CallInputs) (state_key : ConversationStateKey)
      (request_id request_hash : String) (replay_eligible : Bool)
      → Call c (reserve_reply inputs state_key request_id request_hash replay_eligible c).1
  reply_aborted :
      {c : Coordinator} (inputs : CallInputs) (state_key : ConversationStateKey)
      (request_id : String) (owner_token : Bytes)
      → Call c (abort_reply inputs state_key request_id owner_token c).1
  reply_committed :
      {c : Coordinator} (inputs : CallInputs) (hashing : Hashing) (p : ReplyCommitProposal)
      → Call c (commit_reply inputs hashing p c).1
  feedback_prepared :
      {c : Coordinator} (inputs : CallInputs) (hashing : Hashing) (state_key : ConversationStateKey)
      (feedback : ActionFeedbackRequest)
      → Call c (prepare_feedback inputs hashing state_key feedback c).1
  feedback_committed :
      {c : Coordinator} (inputs : CallInputs) (hashing : Hashing) (p : PreparedFeedback)
      → Call c (commit_feedback inputs hashing p c).1

pub data Calls (c : Coordinator) : Coordinator → Type 0 where
  no_calls : Calls c c
  then_call : {d e : Coordinator} → Calls c d → Call d e → Calls c e

-- A commit of feedback is given a preparation that names the request of the response that it is
-- about, as the root at that moment has it. The other calls are free.
abbrev pub CallNamesRequest : {c d : Coordinator} → Call c d → Type 0
CallNamesRequest {c} (feedback_committed inputs hashing p) = NamesRequest c.root p
CallNamesRequest _ = Unit {0}

abbrev pub CallsNameRequests : {c d : Coordinator} → Calls c d → Type 0
CallsNameRequests no_calls = Unit {0}
CallsNameRequests (then_call calls call) = CallsNameRequests calls × CallNamesRequest call

Call-IsConsistent :
    {c d : Coordinator} (call : Call c d)
    → CallNamesRequest call
    → IsConsistent c.root
    → IsConsistent d.root
Call-IsConsistent {c} (cleanup_done inputs) names h = cleanup_expired-IsConsistent inputs c h
Call-IsConsistent {c} (reply_reserved inputs state_key request_id request_hash replay_eligible)
      names h =
    reserve_reply-IsConsistent inputs c h state_key request_id request_hash replay_eligible
Call-IsConsistent {c} (reply_aborted inputs state_key request_id owner_token) names h =
    abort_reply-IsConsistent inputs c h state_key request_id owner_token
Call-IsConsistent {c} (reply_committed inputs hashing p) names h =
    commit_reply-IsConsistent inputs c h hashing p
Call-IsConsistent {c} (feedback_prepared inputs hashing state_key feedback) names h =
    prepare_feedback-IsConsistent inputs hashing c h state_key feedback
Call-IsConsistent {c} (feedback_committed inputs hashing p) names h =
    commit_feedback-IsConsistent inputs hashing c h p names

-- A sequence of calls keeps the root consistent, those that raise included, and the indexes of the
-- issued records then pass the checks of a publication, when each commit of feedback in it is given
-- a preparation that names the request of the response it is about. The code does not check that
-- condition.
pub Calls-IsConsistent :
    {c d : Coordinator} (calls : Calls c d)
    → CallsNameRequests calls
    → IsConsistent c.root
    → IsConsistent d.root × (indexes_valid d.root ≡ true)
Calls-IsConsistent {c} no_calls names h = (h, IsIndexed-indexes_valid c.root h.indexed)
Calls-IsConsistent {c} {d} (then_call calls call) names h =
    let (before, _) = Calls-IsConsistent calls names.0 h in
    let after = Call-IsConsistent call names.1 before in
    (after, IsIndexed-indexes_valid d.root after.indexed)
