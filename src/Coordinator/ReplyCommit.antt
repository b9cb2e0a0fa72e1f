-- ===== src/Coordinator/ReplyCommit.antt =====
-- src/market_support_crewai_agent/runtime/state/coordinator_reply_commit.py, and
-- `issue_response_ids` of coordinator_response_ids.py, where `uuid n` is the text `uuid4().hex` of
-- the n-th position: 0 for the response, then one for each action.
pub mod Steps
pub mod Replay
pub mod Bounds
use market_support_crewai_ag.Prelude.{
  Bool, List, Option, String, [], bool_Eq, if◌then◌else◌, is_some, length, list_Eq, ltb, min_by,
  nat_Eq, none, not, option_Eq, pair_Eq, some, sort_key_le, string_Eq, tail_slice, triple_Eq, ℕ,
  ◌!=◌, ◌++◌, ◌+◌, ◌==◌, ◌||◌, ◌∷◌,
}
use market_support_crewai_ag.Audit.{AuditRecord, audit_created, proposal_scene}
use market_support_crewai_ag.Audit.Build.{build_audit_record}
use market_support_crewai_ag.Coordinator.Config.{CoordinatorConfig}
use market_support_crewai_ag.Coordinator.Effects.{derive_issued_effects}
use market_support_crewai_ag.Coordinator.Hashing.{Hashing}
use market_support_crewai_ag.Coordinator.Reservations.{Readings, or_else, owned_reservation}
use market_support_crewai_ag.Coordinator.Retention.{Clarifications, enforce_session_capacity}
use market_support_crewai_ag.Errors.{
  Result, conversation_state_changed, err, ok, raise_if, reply_commit_invalid, request_id_conflict,
  state_store_unavailable, value_error, ◌>>=◌, ◌>>◌,
}
use market_support_crewai_ag.FrozenMap.{
  FrozenMap, contains, get, insert, items, with_updates, without_keys,
}
use market_support_crewai_ag.Identity.{
  ConversationStateKey, pair_Repr, scene_Eq, state_key_Eq, state_key_Repr, string_Repr, text,
  triple_Repr,
}
use market_support_crewai_ag.Records.{
  CompleteIssuedResponseRecord, ConversationTurnRecord, IssuedEffect, PendingClarificationProposal,
  PendingClarificationRecord, ReplyCommitProposal, StateRevisionRecord, assistant, complete, user,
}
use market_support_crewai_ag.Root.{ActionKey, CoordinatorStateRoot, IssuedKey}
use market_support_crewai_ag.Root.Orders.{key_bytes}
use market_support_crewai_ag.Schemas.{
  OutboundAction, ReplyResponse, action_id_of, clarification, execution_type_Eq, reply_kind_Eq,
  status_Eq, with_action_id,
}
use market_support_crewai_ag.Text.{Bytes, codes}
use Prim.Native.String
use mathlib.Core.Option

-- `value or default` on a text
abbrev pub text_or : String → String → String
text_or value default = if value == "" then default else value

issue_action_ids : (ℕ → String) → ℕ → List OutboundAction → List OutboundAction
unfolding with_action_id action_id_of
issue_action_ids uuid n [] = []
issue_action_ids uuid n (a ∷ as') =
    with_action_id (text_or (action_id_of a) (String.◌++◌ "act-" (uuid n))) a
    ∷ issue_action_ids uuid (n + 1) as'

unfoldable pub issue_response_ids : (ℕ → String) → ReplyResponse → ReplyResponse
unfolding issue_action_ids
issue_response_ids uuid response = record response {
  response_id = text_or response.response_id (String.◌++◌ "resp-" (uuid 0));
  actions = issue_action_ids uuid 1 response.actions;
}

-- `ReplyCommitProposalV1.__post_init__`
unfoldable pub check_proposal : ReplyCommitProposal → Result (Unit {0})
unfolding proposal_scene
check_proposal p =
    raise_if (p.state_key.scene != proposal_scene p.audit)
      (value_error "reply commit audit scene does not match state key")

unfoldable pub expected_revision :
    Bytes → ℕ → Option StateRevisionRecord → Result StateRevisionRecord
expected_revision epoch revision none = err conversation_state_changed
expected_revision epoch revision (some r) =
    if r.revision_epoch != epoch || r.revision != revision
    then err conversation_state_changed
    else ok r

unfoldable pub revised : StateRevisionRecord → ℕ → CoordinatorConfig → StateRevisionRecord
revised r now_monotonic_ns config = record {
  revision_epoch = r.revision_epoch;
  revision = r.revision + 1;
  created_at_monotonic_ns = r.created_at_monotonic_ns;
  updated_at_monotonic_ns = now_monotonic_ns;
  expires_at_monotonic_ns = now_monotonic_ns + config.issued_ttl_ns;
}

module _ (hashing : Hashing) (p : ReplyCommitProposal) (now_epoch_ms next_ordinal : ℕ) where
  unfoldable pub clarification_record : Option PendingClarificationRecord
  clarification_record = Option.map asked p.clarification
    where
      asked : PendingClarificationProposal → PendingClarificationRecord
      asked c = record {
        clarification_ref =
            hashing.clarification_ref_hash p.state_key (next_ordinal + 1) c.question;
        kind = c.kind;
        slots = c.slots;
        question = c.question;
        topic = c.topic;
        originating_turn_ordinal = next_ordinal + 1;
        created_at_epoch_ms = now_epoch_ms;
        pol1 = p.pol1;
        par1 = p.par1;
        grh1 = p.grh1;
        bsh1 = p.bsh1;
      }

  -- the user's turn and the assistant's
  unfoldable pub committed_turns : List ConversationTurnRecord
  unfolding clarification_record
  committed_turns =
      record {
        role = user;
        text = p.user_turn.text;
        ordinal = next_ordinal;
        created_at_epoch_ms = now_epoch_ms;
        pol1 = p.pol1;
        par1 = p.par1;
        grh1 = p.grh1;
        bsh1 = p.bsh1;
        reply_kind = none;
        clarification_ref = none;
      }
      ∷ record {
        role = assistant;
        text = p.assistant_turn.text;
        ordinal = next_ordinal + 1;
        created_at_epoch_ms = now_epoch_ms;
        pol1 = p.pol1;
        par1 = p.par1;
        grh1 = p.grh1;
        bsh1 = p.bsh1;
        reply_kind = some p.assistant_turn.reply_kind;
        clarification_ref = Option.map (λ c. c.clarification_ref) clarification_record;
      }
      ∷ []

created_before : IssuedKey × AuditRecord → IssuedKey × AuditRecord → Bool
unfolding key_bytes codes audit_created
created_before (a, r) (b, s) =
    sort_key_le (audit_created r, key_bytes a.0 (codes a.1), [])
      (audit_created s, key_bytes b.0 (codes b.1), [])

without_oldest_audit :
    FrozenMap IssuedKey AuditRecord
    → List (IssuedKey × AuditRecord)
    → Result (FrozenMap IssuedKey AuditRecord)
unfolding created_before min_by
without_oldest_audit audits [] = err (value_error "min() arg is an empty sequence")
without_oldest_audit audits (first ∷ rest) =
    ok (without_keys audits ((min_by created_before first rest).0 ∷ []))

-- room for one more audit record
unfoldable pub audit_room :
    FrozenMap IssuedKey AuditRecord → ℕ → Result (FrozenMap IssuedKey AuditRecord)
unfolding without_oldest_audit items
audit_room audits capacity =
    if ltb (length audits) capacity then ok audits else without_oldest_audit audits (items audits)

unfoldable pub action_entries :
    ConversationStateKey → String → List IssuedEffect → FrozenMap String ActionKey
action_entries state_key response_id [] = []
action_entries state_key response_id (e ∷ es) =
    let rest = action_entries state_key response_id es in
    elim e.action_id [ none ↦ rest | some i ↦ (i, (state_key, response_id, e.effect_key)) ∷ rest ]

unfoldable pub completed_record :
    ReplyCommitProposal
    → ReplyResponse
    → StateRevisionRecord
    → ℕ
    → ℕ
    → CoordinatorConfig
    → CompleteIssuedResponseRecord
completed_record p response revised_state now_monotonic_ns now_epoch_ms config = record {
  state_key = p.state_key;
  request_id = p.request_id;
  request_hash = p.request_hash;
  replay_eligible = p.replay_eligible;
  revision_epoch = revised_state.revision_epoch;
  committed_state_revision = revised_state.revision;
  record_revision = 1;
  response = response;
  effects = derive_issued_effects response;
  receipts = [];
  issued_at_epoch_ms = now_epoch_ms;
  completed_at_monotonic_ns = now_monotonic_ns;
  expires_at_monotonic_ns = now_monotonic_ns + config.issued_ttl_ns;
  pol1 = p.pol1;
  par1 = p.par1;
  grh1 = p.grh1;
  bsh1 = p.bsh1;
}

abbrev pub updated_clarifications :
    ConversationStateKey → Option PendingClarificationRecord → Clarifications → Clarifications
updated_clarifications state_key none clarifications = without_keys clarifications (state_key ∷ [])
updated_clarifications state_key (some c) clarifications = insert state_key c clarifications

-- the checks before anything is built, in the order of the source
unfoldable pub check_commit :
    CoordinatorStateRoot → ReplyCommitProposal → Result StateRevisionRecord
unfolding owned_reservation expected_revision
check_commit root p = do
  reservation ←
      owned_reservation p.owner_token (get (p.state_key, p.request_id) root.issued_records)
  revision ←
      expected_revision p.expected_revision_epoch p.expected_state_revision
        (get p.state_key root.state_revisions)
  raise_if
      (reservation.request_hash != p.request_hash
        || reservation.replay_eligible != p.replay_eligible)
      request_id_conflict
  ok revision

unfoldable pub check_reply :
    CoordinatorStateRoot → ReplyCommitProposal → ReplyResponse → Result (Unit {0})
check_reply root p response = do
  raise_if (contains response.response_id root.response_index) state_store_unavailable
  raise_if ((response.reply.kind == clarification) != p.assistant_turn.clarification_requested)
      reply_commit_invalid
  raise_if (is_some p.clarification != p.assistant_turn.clarification_requested)
      reply_commit_invalid

-- the root with the commit's updates, before the session capacity is enforced
unfoldable pub committed_root :
    Hashing
    → CoordinatorStateRoot
    → ReplyCommitProposal
    → ReplyResponse
    → StateRevisionRecord
    → AuditRecord
    → FrozenMap IssuedKey AuditRecord
    → Readings
    → CoordinatorConfig
    → CoordinatorStateRoot
unfolding committed_turns clarification_record completed_record action_entries revised
committed_root hashing root p response revision audit audits now config =
    let revised_state = revised revision now.monotonic_ns config in
    let prior_turns = or_else (get p.state_key root.conversation_turns) [] in
    let next_ordinal = length prior_turns in
    let issued = completed_record p response revised_state now.monotonic_ns now.epoch_ms config in
    record root {
      root_revision = root.root_revision + 1;
      issued_records = insert (p.state_key, p.request_id) (complete issued) root.issued_records;
      pending_request_by_state = without_keys root.pending_request_by_state (p.state_key ∷ []);
      state_revisions = insert p.state_key revised_state root.state_revisions;
      response_index = insert response.response_id (p.state_key, p.request_id) root.response_index;
      action_index =
          with_updates root.action_index
            (action_entries p.state_key response.response_id issued.effects);
      conversation_turns =
          insert p.state_key
            (tail_slice config.conversation_max_messages
              (prior_turns ++ committed_turns hashing p now.epoch_ms next_ordinal))
            root.conversation_turns;
      clarification_records =
          updated_clarifications p.state_key
            (clarification_record hashing p now.epoch_ms next_ordinal) root.clarification_records;
      audit_records = insert (p.state_key, response.response_id) audit audits;
    }

unfoldable pub commit_reply_candidate :
    Hashing
    → CoordinatorStateRoot
    → ReplyCommitProposal
    → (ℕ → String)
    → Readings
    → CoordinatorConfig
    → Result (CoordinatorStateRoot × ReplyResponse)
unfolding check_commit check_reply audit_room committed_root
commit_reply_candidate hashing root p uuid now config = do
  revision ← check_commit root p
  let response = issue_response_ids uuid p.response
  check_reply root p response
  audit ←
      build_audit_record p.state_key response.response_id p.request_id response.reply.kind
        now.epoch_ms (now.monotonic_ns + config.issued_ttl_ns) p.audit
  audits ← audit_room root.audit_records config.conversation_max_sessions
  candidate ←
      enforce_session_capacity
        (committed_root hashing root p response revision audit audits now config)
        config.conversation_max_sessions
  ok (candidate, response)
