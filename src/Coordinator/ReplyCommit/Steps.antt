-- ===== src/Coordinator/ReplyCommit/Steps.antt =====
-- The steps of a commit that succeeds (coordinator_reply_commit.py).
use market_support_crewai_ag.Prelude.{
  String, bool_Eq, list_Eq, nat_Eq, option_Eq, pair_Eq, refl, string_Eq, subst, triple_Eq, ℕ, ◌+◌,
  ◌≡◌,
}
use market_support_crewai_ag.Audit.{AuditRecord}
use market_support_crewai_ag.Audit.Build.{build_audit_record}
use market_support_crewai_ag.Coordinator.Config.{CoordinatorConfig}
use market_support_crewai_ag.Coordinator.Hashing.{Hashing}
use market_support_crewai_ag.Coordinator.ReplyCommit.{
  audit_room, check_commit, check_reply, commit_reply_candidate, committed_root, issue_response_ids,
}
use market_support_crewai_ag.Coordinator.Reservations.{Readings}
use market_support_crewai_ag.Coordinator.Retention.{enforce_session_capacity}
use market_support_crewai_ag.Errors.{>>=-eq-ok, ok, ok-injective}
use market_support_crewai_ag.FrozenMap.{FrozenMap}
use market_support_crewai_ag.Identity.{
  pair_Repr, scene_Eq, state_key_Eq, state_key_Repr, string_Repr, triple_Repr,
}
use market_support_crewai_ag.Records.{ReplyCommitProposal, StateRevisionRecord}
use market_support_crewai_ag.Root.{CoordinatorStateRoot, IssuedKey}
use market_support_crewai_ag.Schemas.{ReplyResponse, execution_type_Eq, reply_kind_Eq, status_Eq}

-- the revision that was checked, the audit record, and the audit records with room for it
pub record CommitSteps (hashing : Hashing) (root candidate : CoordinatorStateRoot)
    (p : ReplyCommitProposal) (uuid : ℕ → String) (now : Readings) (config : CoordinatorConfig)
    (response : ReplyResponse) : Type 0 where
  pub checked_revision : StateRevisionRecord
  pub audit_record : AuditRecord
  pub audits_left : FrozenMap IssuedKey AuditRecord
  pub checked : check_commit root p ≡ ok checked_revision
  pub replied : check_reply root p response ≡ ok tt
  pub issued_ids : response ≡ issue_response_ids uuid p.response
  pub fits :
      enforce_session_capacity
        (committed_root hashing root p response checked_revision audit_record audits_left now
          config)
        config.conversation_max_sessions
      ≡ ok candidate

pub commit_reply_candidate-CommitSteps :
    (hashing : Hashing) (root candidate : CoordinatorStateRoot) (p : ReplyCommitProposal)
    (uuid : ℕ → String) (now : Readings) (config : CoordinatorConfig) (response : ReplyResponse)
    → commit_reply_candidate hashing root p uuid now config ≡ ok (candidate, response)
    → CommitSteps hashing root candidate p uuid now config response
unfolding commit_reply_candidate
commit_reply_candidate-CommitSteps hashing root candidate p uuid now config response done =
    let issued_response = issue_response_ids uuid p.response in
    let (revision, checked, h1) = >>=-eq-ok (check_commit root p) _ done in
    let (_, replied, h2) = >>=-eq-ok (check_reply root p issued_response) _ h1 in
    let (audit, _, h3) =
      >>=-eq-ok
        (build_audit_record p.state_key issued_response.response_id p.request_id
          issued_response.reply.kind now.epoch_ms (now.monotonic_ns + config.issued_ttl_ns) p.audit)
        _ h2 in
    let (audits, _, h4) =
      >>=-eq-ok (audit_room root.audit_records config.conversation_max_sessions) _ h3 in
    let (bounded, fits, h5) =
      >>=-eq-ok
        (enforce_session_capacity
          (committed_root hashing root p issued_response revision audit audits now config)
          config.conversation_max_sessions)
        _ h4 in
    subst
      (λ (x : CoordinatorStateRoot × ReplyResponse).
        CommitSteps hashing root x.0 p uuid now config x.1)
      (ok-injective h5)
      (record {
        checked_revision = revision;
        audit_record = audit;
        audits_left = audits;
        checked = checked;
        replied = replied;
        issued_ids = refl;
        fits = fits;
      })
