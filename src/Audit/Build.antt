-- ===== src/Audit/Build.antt =====
-- `build_audit_record` of src/market_support_crewai_agent/runtime/state/coordinator_audit.py
use market_support_crewai_ag.Prelude.{
  List, Option, String, [], bool_Eq, list_Eq, nat_Eq, none, option_Eq, pair_Eq, some, string_Eq,
  triple_Eq, ℕ, ◌∷◌,
}
use market_support_crewai_ag.Audit.{
  AuditInvocationStatus, AuditRecord, DirectAuditRecord, DirectProgramAudit, GroupAuditRecord,
  GroupProgramAudit, LlmInvocationAuditProposal, SanitizedAuditCommitProposal, SceneContractKey,
  direct_proposal, direct_record, group_proposal, group_record, scene_neutral, success,
  validation_error, wecom_direct, wecom_group,
}
use market_support_crewai_ag.Audit.Validation.{
  check_direct_program, check_direct_record, check_group_program, check_group_record,
  direct_redaction_flags,
}
use market_support_crewai_ag.Errors.{
  Result, direct_audit_program_metadata_required, direct_audit_program_scene_invalid, err,
  group_audit_program_scene_invalid, group_audit_required, ok, or_raise, ◌>>=◌, ◌>>◌,
}
use market_support_crewai_ag.Identity.{
  ConversationStateKey, pair_Repr, scene_Eq, state_key_Eq, state_key_Repr, string_Repr, triple_Repr,
}
use market_support_crewai_ag.Schemas.{ReplyKind, execution_type_Eq, reply_kind_Eq, status_Eq}

abbrev required_group_field : String → Option String → Result String
required_group_field name value = or_raise value (group_audit_required name)

unfoldable pub required_group_scene : Option SceneContractKey → Result SceneContractKey
required_group_scene (some wecom_group) = ok wecom_group
required_group_scene (some scene_neutral) = ok scene_neutral
required_group_scene _ = err group_audit_program_scene_invalid

abbrev required_direct_field : Option String → Result String
required_direct_field value = or_raise value direct_audit_program_metadata_required

unfoldable pub required_direct_scene : Option SceneContractKey → Result SceneContractKey
required_direct_scene (some wecom_direct) = ok wecom_direct
required_direct_scene (some scene_neutral) = ok scene_neutral
required_direct_scene _ = err direct_audit_program_scene_invalid

unfoldable pub group_program_audit : LlmInvocationAuditProposal → Result GroupProgramAudit
unfolding required_group_scene check_group_program
group_program_audit item = do
  program_version ← required_group_field "program_version" item.program_version
  scene_key ← required_group_scene item.scene_key
  model_family ← required_group_field "model_family" item.model_family
  provider_id ← required_group_field "provider_id" item.provider_id
  transport_id ← required_group_field "transport_id" item.transport_id
  input_schema_version ← required_group_field "input_schema_version" item.input_schema_version
  output_schema_version ← required_group_field "output_schema_version" item.output_schema_version
  osh1 ← required_group_field "osh1" item.osh1
  poh1 ← required_group_field "poh1" item.poh1
  hph1 ← required_group_field "hph1" item.hph1
  prh1 ← required_group_field "prh1" item.prh1
  input_digest ← required_group_field "input_digest" item.input_digest
  let program : GroupProgramAudit = record {
    ordinal = item.ordinal;
    stage = item.stage;
    program_id = item.program_id;
    program_version = program_version;
    target_slot = item.target_slot;
    scene_key = scene_key;
    scene_contract_ref = item.scene_contract_ref;
    model_family = model_family;
    provider_id = provider_id;
    transport_id = transport_id;
    input_schema_version = input_schema_version;
    output_schema_version = output_schema_version;
    status = item.status;
    latency_ms = item.latency_ms;
    input_bytes = item.input_bytes;
    output_bytes = item.output_bytes;
    error_code = item.error_code;
    osh1 = osh1;
    poh1 = poh1;
    hph1 = hph1;
    prh1 = prh1;
    input_digest = input_digest;
    output_digest = item.output_digest;
    logical_attempt = item.logical_attempt;
    transport_attempt = item.transport_attempt;
  }
  check_group_program program
  ok program

-- a failed invocation's byte count is dropped
unfoldable pub direct_output_bytes : AuditInvocationStatus → Option ℕ → Option ℕ
direct_output_bytes success bytes = bytes
direct_output_bytes validation_error bytes = bytes
direct_output_bytes _ bytes = none

unfoldable pub direct_program_audit : LlmInvocationAuditProposal → Result DirectProgramAudit
unfolding required_direct_scene direct_output_bytes check_direct_program
direct_program_audit item = do
  program_version ← required_direct_field item.program_version
  scene_key ← required_direct_scene item.scene_key
  model_family ← required_direct_field item.model_family
  provider_id ← required_direct_field item.provider_id
  transport_id ← required_direct_field item.transport_id
  input_schema_version ← required_direct_field item.input_schema_version
  output_schema_version ← required_direct_field item.output_schema_version
  input_digest ← required_direct_field item.input_digest
  let program : DirectProgramAudit = record {
    ordinal = item.ordinal;
    logical_attempt = item.logical_attempt;
    transport_attempt = item.transport_attempt;
    stage = item.stage;
    program_id = item.program_id;
    program_version = program_version;
    target_slot = item.target_slot;
    scene_key = scene_key;
    scene_contract_ref = item.scene_contract_ref;
    model_family = model_family;
    provider_id = provider_id;
    transport_id = transport_id;
    input_schema_version = input_schema_version;
    output_schema_version = output_schema_version;
    status = item.status;
    latency_ms = item.latency_ms;
    input_bytes = item.input_bytes;
    output_bytes = direct_output_bytes item.status item.output_bytes;
    error_code = item.error_code;
    input_digest = input_digest;
    output_digest = item.output_digest;
  }
  check_direct_program program
  ok program

unfoldable pub each {ℓ κ} : {A : Type ℓ} {B : Type κ} → (A → Result B) → List A → Result (List B)
each f [] = ok []
each f (x ∷ xs) = do y ← f x; ys ← each f xs; ok (y ∷ ys)

module _ (state_key : ConversationStateKey) (response_id request_id : String)
    (reply_kind : ReplyKind) (created_at_epoch_ms expires_at_monotonic_ns : ℕ) where
  unfoldable pub build_audit_record : SanitizedAuditCommitProposal → Result AuditRecord
  unfolding each group_program_audit direct_program_audit check_group_record check_direct_record
  build_audit_record (group_proposal proposal) = do
    programs ← each group_program_audit proposal.program_attempts
    let built : GroupAuditRecord = record {
      state_key = state_key;
      response_id = response_id;
      request_id = request_id;
      reply_kind = reply_kind;
      reason_code = proposal.reason_code;
      manifest_refs = proposal.manifest_refs;
      programs = programs;
      created_at_epoch_ms = created_at_epoch_ms;
      expires_at_monotonic_ns = expires_at_monotonic_ns;
    }
    check_group_record built
    ok (group_record built)
  build_audit_record (direct_proposal proposal) = do
    programs ← each direct_program_audit proposal.program_attempts
    let built : DirectAuditRecord = record {
      state_key_digest = proposal.state_key_digest;
      response_id = response_id;
      request_id_digest = proposal.request_id_digest;
      reply_kind = reply_kind;
      reason_code = proposal.reason_code;
      programs = programs;
      content_digests = proposal.content_digests;
      lengths = proposal.lengths;
      manifest_refs = proposal.manifest_refs;
      dependency_counts = proposal.dependency_counts;
      static_registry_id = proposal.static_registry_id;
      static_registry_version = proposal.static_registry_version;
      created_at_epoch_ms = created_at_epoch_ms;
      expires_at_monotonic_ns = expires_at_monotonic_ns;
      redaction_flags = direct_redaction_flags;
    }
    check_direct_record built
    ok (direct_record built)
