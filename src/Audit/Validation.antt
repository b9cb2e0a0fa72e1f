-- ===== src/Audit/Validation.antt =====
-- src/market_support_crewai_agent/runtime/state/audit_validation.py, and the `__post_init__` checks
-- of audit_program_records.py and audit_records.py. A check that a typed field cannot fail (a
-- registered stage, a count that is not negative) is left out.
use market_support_crewai_ag.Prelude.{
  Bool, List, Option, String, [], all, any, bool_Eq, drop, elem, false, is_some, leb, length,
  list_Eq, list_eq, ltb, nat_Eq, nat_eq, none, not, option_Eq, pair_Eq, some, string_Eq, take,
  triple_Eq, true, ℕ, ◌!=◌, ◌&&◌, ◌+◌, ◌==◌, ◌||◌, ◌∷◌,
}
use market_support_crewai_ag.Audit.{
  AuditInvocationStatus, AuditStage, AuditTargetSlot, DirectAuditRecord, DirectProgramAudit,
  GroupAuditRecord, GroupProgramAudit, SceneContractKey, alignment_verifier,
  approved_knowledge_selector, composer, document_product_selector, knowledge_composer,
  output_contract_error, planner, planner_intent, scene_neutral, selector, smalltalk_composer,
  success, transport_error, validation_error,
}
use market_support_crewai_ag.Audit.Labels.{
  direct_audit_purposes, direct_audit_reason_codes, registered_reason_codes,
}
use market_support_crewai_ag.Errors.{Result, ok, raise_if, value_error, ◌>>◌}
use market_support_crewai_ag.FrozenMap.{FrozenMap, contains, get, keys}
use market_support_crewai_ag.Identity.{
  pair_Repr, scene_Eq, state_key_Eq, state_key_Repr, string_Repr, triple_Repr,
}
use market_support_crewai_ag.Schemas.{execution_type_Eq, reply_kind_Eq, status_Eq}
use market_support_crewai_ag.Text.{codes}

-- VALIDATION_ERROR_BY_STAGE
unfoldable pub validation_error_by_stage : AuditStage → String
validation_error_by_stage planner_intent = "planner_plan_validation_failed"
validation_error_by_stage knowledge_composer = "knowledge_composer_reply_validation_failed"
validation_error_by_stage smalltalk_composer = "smalltalk_composer_reply_validation_failed"
validation_error_by_stage alignment_verifier = "alignment_verifier_verdict_validation_failed"
validation_error_by_stage approved_knowledge_selector = "approved_selector_validation_failed"
validation_error_by_stage document_product_selector = "document_selector_validation_failed"

abbrev pub output_contract_errors : List String
output_contract_errors =
    "provider_output_missing" ∷ "provider_output_type" ∷ "provider_output_encoding"
    ∷ "provider_output_too_large" ∷ "provider_output_contract" ∷ []

abbrev pub transport_errors : List String
transport_errors =
    "provider_timeout" ∷ "provider_auth_failed" ∷ "provider_rate_limited" ∷ "provider_http_error"
    ∷ "provider_transport_unavailable" ∷ "provider_internal_error"
    ∷ "direct_provider_stdio_violation" ∷ []

abbrev pub neutral_programs : FrozenMap String AuditStage
neutral_programs =
    ("approved_knowledge_selector.scene_neutral.v1@1", approved_knowledge_selector)
    ∷ ("document_product_selector.scene_neutral.v1@1", document_product_selector)
    ∷ []

abbrev pub group_programs : FrozenMap String AuditStage
group_programs =
    ("planner_intent.wecom_group.v1@1", planner_intent)
    ∷ ("knowledge_composer.wecom_group.v1@1", knowledge_composer)
    ∷ ("smalltalk_composer.wecom_group.v1@1", smalltalk_composer)
    ∷ ("alignment_verifier.wecom_group.v1@1", alignment_verifier)
    ∷ neutral_programs

-- PROGRAM_STAGE_BY_ID; GROUP_AUDIT_PROGRAM_IDS are the keys of `group_programs`
abbrev pub program_stage_by_id : FrozenMap String AuditStage
program_stage_by_id =
    ("planner_intent.wecom_direct.v1@1", planner_intent)
    ∷ ("knowledge_composer.wecom_direct.v1@1", knowledge_composer)
    ∷ ("smalltalk_composer.wecom_direct.v1@1", smalltalk_composer)
    ∷ ("alignment_verifier.wecom_direct.v1@1", alignment_verifier)
    ∷ group_programs

-- DIRECT_AUDIT_PROGRAM_IDS
abbrev pub direct_program_ids : List String
direct_program_ids =
    "planner_intent.wecom_direct.v1@1"
    ∷ "knowledge_composer.wecom_direct.v1@1"
    ∷ "smalltalk_composer.wecom_direct.v1@1"
    ∷ "alignment_verifier.wecom_direct.v1@1"
    ∷ keys neutral_programs

unfoldable pub stage_eq : AuditStage → AuditStage → Bool
stage_eq planner_intent planner_intent = true
stage_eq knowledge_composer knowledge_composer = true
stage_eq smalltalk_composer smalltalk_composer = true
stage_eq alignment_verifier alignment_verifier = true
stage_eq approved_knowledge_selector approved_knowledge_selector = true
stage_eq document_product_selector document_product_selector = true
stage_eq _ _ = false

abbrev pub is_registered_stage : AuditStage → Option AuditStage → Bool
is_registered_stage stage none = false
is_registered_stage stage (some registered) = stage_eq registered stage

unfoldable pub target_slot_allowed : AuditStage → AuditTargetSlot → Bool
target_slot_allowed planner_intent planner = true
target_slot_allowed approved_knowledge_selector selector = true
target_slot_allowed document_product_selector selector = true
target_slot_allowed knowledge_composer composer = true
target_slot_allowed smalltalk_composer composer = true
target_slot_allowed alignment_verifier composer = true
target_slot_allowed _ _ = false

abbrev is_one_of : List String → Option String → Bool
is_one_of registered none = false
is_one_of registered (some error_code) = elem error_code registered

unfoldable pub validate_error_code :
    AuditStage → AuditInvocationStatus → Option String → Result (Unit {0})
unfolding validation_error_by_stage
validate_error_code stage success error_code =
    raise_if (error_code != none)
      (value_error "successful audit invocation cannot have an error_code")
validate_error_code stage validation_error error_code =
    raise_if (error_code != some (validation_error_by_stage stage))
      (value_error "audit validation error_code does not match stage")
validate_error_code stage output_contract_error error_code =
    raise_if (not (is_one_of output_contract_errors error_code))
      (value_error "audit output contract error_code is not registered")
validate_error_code stage transport_error error_code =
    raise_if (not (is_one_of transport_errors error_code))
      (value_error "audit transport error_code is not registered")

unfoldable pub validate_program_audit_labels :
    ℕ
    → AuditStage
    → String
    → AuditTargetSlot
    → AuditInvocationStatus
    → Option String
    → Result (Unit {0})
unfolding stage_eq target_slot_allowed validate_error_code
validate_program_audit_labels ordinal stage program_id target_slot status error_code = do
  raise_if (ltb ordinal 1) (value_error "audit ordinal must be positive")
  raise_if (not (is_registered_stage stage (get program_id program_stage_by_id)))
      (value_error "audit program_id does not match a registered stage")
  raise_if (not (target_slot_allowed stage target_slot))
      (value_error "audit target_slot is not allowed for stage")
  validate_error_code stage status error_code

abbrev has_duplicates : List String → Bool
has_duplicates [] = false
has_duplicates (x ∷ xs) = elem x xs || has_duplicates xs

unfoldable pub validate_audit_manifest_refs : List String → Result (Unit {0})
unfolding codes
validate_audit_manifest_refs refs = do
  raise_if (ltb 4 (length refs) || has_duplicates refs)
      (value_error "audit manifest refs are not canonical")
  raise_if (any (λ ref. ref == "" || ltb 160 (length (codes ref))) refs)
      (value_error "audit manifest ref is invalid")

is_hex : ℕ → Bool
is_hex c = (leb b'0' c && leb c b'9') || (leb b'a' c && leb c b'f')

-- `prefix` ends in its colon
unfoldable pub is_digest : String → String → Bool
unfolding is_hex codes
is_digest prefix value =
    nat_eq (length (codes value)) (length (codes prefix) + 64)
    && (list_eq (take (length (codes prefix)) (codes value)) (codes prefix)
        && all is_hex (drop (length (codes prefix)) (codes value)))

unfoldable pub validate_direct_audit_digest : String → Result (Unit {0})
unfolding is_digest
validate_direct_audit_digest value =
    raise_if (not (is_digest "dah1:" value)) (value_error "direct audit digest must be dah1")

unfoldable pub validate_prefixed_digest : String → String → Result (Unit {0})
unfolding is_digest
validate_prefixed_digest prefix value =
    raise_if (not (is_digest prefix value)) (value_error "group audit digest is invalid")

abbrev pub when_some : Option String → (String → Result (Unit {0})) → Result (Unit {0})
when_some none check = ok tt
when_some (some value) check = check value

-- the last `match` of both program audits: an output goes with success alone
unfoldable pub validate_output :
    AuditInvocationStatus → Option String → Option ℕ → Result (Unit {0})
validate_output success digest bytes =
    raise_if (not (is_some digest) || not (is_some bytes))
      (value_error "successful audit requires output digest and count")
validate_output validation_error digest bytes =
    raise_if (not (is_some digest) || not (is_some bytes))
      (value_error "successful audit requires output digest and count")
validate_output output_contract_error digest bytes =
    raise_if (is_some digest || is_some bytes)
      (value_error "failed audit forbids output digest and count")
validate_output transport_error digest bytes =
    raise_if (is_some digest || is_some bytes)
      (value_error "failed audit forbids output digest and count")

-- a user-facing program has a scene contract, a neutral one has none
unfoldable pub validate_scene_contract : SceneContractKey → Option String → Result (Unit {0})
validate_scene_contract scene_neutral ref =
    raise_if (is_some ref) (value_error "neutral program forbids scene contract ref")
validate_scene_contract _ ref =
    raise_if (not (is_some ref)) (value_error "user-facing program requires scene contract ref")

unfoldable pub check_group_program : GroupProgramAudit → Result (Unit {0})
unfolding validate_program_audit_labels validate_scene_contract validate_prefixed_digest
    validate_output
check_group_program p = do
  validate_program_audit_labels p.ordinal p.stage p.program_id p.target_slot p.status p.error_code
  raise_if (ltb p.logical_attempt 1 || p.transport_attempt != 1)
      (value_error "group program audit attempts are invalid")
  validate_scene_contract p.scene_key p.scene_contract_ref
  validate_prefixed_digest "osh1:" p.osh1
  validate_prefixed_digest "poh1:" p.poh1
  validate_prefixed_digest "hph1:" p.hph1
  validate_prefixed_digest "prh1:" p.prh1
  validate_prefixed_digest "mch1:" p.input_digest
  when_some p.output_digest (validate_prefixed_digest "out1:")
  validate_output p.status p.output_digest p.output_bytes

unfoldable pub check_direct_program : DirectProgramAudit → Result (Unit {0})
unfolding validate_program_audit_labels validate_scene_contract validate_direct_audit_digest
    validate_output
check_direct_program p = do
  validate_program_audit_labels p.ordinal p.stage p.program_id p.target_slot p.status p.error_code
  raise_if (ltb p.logical_attempt 1 || ltb p.transport_attempt 1)
      (value_error "direct program audit attempts must be positive")
  validate_scene_contract p.scene_key p.scene_contract_ref
  validate_direct_audit_digest p.input_digest
  when_some p.output_digest validate_direct_audit_digest
  validate_output p.status p.output_digest p.output_bytes

unfoldable pub check_group_record : GroupAuditRecord → Result (Unit {0})
unfolding validate_audit_manifest_refs
check_group_record r = do
  raise_if (not (elem r.reason_code registered_reason_codes))
      (value_error "audit reason_code is not registered")
  validate_audit_manifest_refs r.manifest_refs
  raise_if (ltb 18 (length r.programs))
      (value_error "group audit accepts at most 18 program records")
  raise_if (any (λ p. not (contains p.program_id group_programs)) r.programs)
      (value_error "audit program_id is not registered for the audit scene")

-- `^resp-[0-9a-f]{32}$` with `fullmatch`
unfoldable pub is_committed_response_id : String → Bool
unfolding is_hex codes
is_committed_response_id value =
    nat_eq (length (codes value)) 37
    && (list_eq (take 5 (codes value)) (codes "resp-") && all is_hex (drop 5 (codes value)))

validate_content_digests : List (String × String) → Result (Unit {0})
unfolding validate_direct_audit_digest
validate_content_digests [] = ok tt
validate_content_digests ((purpose, digest) ∷ rest) = do
  raise_if (not (elem purpose direct_audit_purposes))
      (value_error "direct audit content digest purpose is not registered")
  validate_direct_audit_digest digest
  validate_content_digests rest

abbrev pub direct_redaction_flags : List String
direct_redaction_flags =
    "raw_request_omitted" ∷ "raw_identity_omitted" ∷ "raw_content_omitted"
    ∷ "unkeyed_hashes_omitted" ∷ "locators_omitted" ∷ "provider_errors_omitted"
    ∷ "marker_names_omitted" ∷ []

unfoldable pub check_direct_record : DirectAuditRecord → Result (Unit {0})
unfolding validate_direct_audit_digest is_committed_response_id validate_content_digests
check_direct_record r = do
  raise_if (not (elem r.reason_code direct_audit_reason_codes))
      (value_error "direct audit reason_code is not registered")
  validate_direct_audit_digest r.state_key_digest
  raise_if (not (is_committed_response_id r.response_id))
      (value_error "direct audit response_id must be server-issued")
  raise_if (ltb 18 (length r.programs))
      (value_error "direct audit accepts at most 18 program records")
  raise_if (ltb 36 (length r.content_digests))
      (value_error "direct audit accepts at most 36 content digests")
  raise_if (ltb 7 (length r.lengths)) (value_error "direct audit accepts at most 7 lengths")
  raise_if (ltb 4 (length r.manifest_refs))
      (value_error "direct audit accepts at most 4 manifest refs")
  raise_if (ltb 12 (length r.dependency_counts))
      (value_error "direct audit accepts at most 12 dependency counts")
  raise_if (any (λ p. not (elem p.program_id direct_program_ids)) r.programs)
      (value_error "audit program_id is not registered for the audit scene")
  validate_direct_audit_digest r.request_id_digest
  validate_content_digests r.content_digests
  raise_if (r.redaction_flags != direct_redaction_flags)
      (value_error "direct audit redaction_flags must be canonical")
