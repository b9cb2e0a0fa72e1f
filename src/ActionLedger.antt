-- ===== src/ActionLedger.antt =====
-- src/market_support_crewai_agent/runtime/state/action_ledger.py. Times are microseconds, the parts
-- of a key are code points, and the set of keys is a list of its members. `state_key_ref` is a
-- digest: it is a parameter.
pub mod Keys
pub mod Bounds
pub mod Replay
use market_support_crewai_ag.Prelude.{
  Bool, List, Option, String, [], bool_Eq, elem, if◌then◌else◌, keep, last_n, length, list_Eq, ltb,
  map, nat_Eq, none, option_Eq, pair_Eq, some, string_Eq, suc, triple_Eq, zero, ℕ, ◌&&◌, ◌*◌, ◌++◌,
  ◌+◌, ◌-◌, ◌==◌, ◌||◌, ◌∷◌,
}
use market_support_crewai_ag.Identity.{
  ConversationStateKey, pair_Repr, scene_Eq, state_key_Eq, state_key_Repr, string_Repr, triple_Repr,
}
use market_support_crewai_ag.Schemas.{
  ActionExecutionFeedback, ActionExecutionStatus, ActionExecutionType, ActionFeedbackArtifact,
  ActionFeedbackRequest, artifact_ref_of, executed, execution_type_Eq, failed,
  material_pack_artifact, mention_sales, monthly_report_artifact, reply_kind_Eq, send_material_pack,
  send_monthly_report, send_text, send_weekly_report, skipped, status_Eq, weekly_report_artifact,
}
use market_support_crewai_ag.Text.{codes, decimal}
use mathlib.Core.Option

abbrev pub DedupeKey : Type 0
DedupeKey = List (List ℕ)

pub record LedgerRecord : Type 0 where
  pub state_key : ConversationStateKey
  pub state_key_ref : String
  pub group_id : String
  pub sender_id : String
  pub context_id : String
  pub response_id : String
  pub execution : ActionExecutionFeedback
  pub received_at : ℕ
  pub dedupe_key : DedupeKey

pub record ActionLedger : Type 0 where
  pub max_records : ℕ
  pub ttl : Option ℕ
  pub records : List LedgerRecord
  pub keys : List DedupeKey

-- `__init__`, for arguments that are not negative; `none` is the ValueError.
unfoldable pub new_ledger : ℕ → Option ℕ → Option ActionLedger
new_ledger max_records ttl_seconds =
    if max_records == 0 || ttl_seconds == some 0
    then none
    else some (record {
      max_records = max_records;
      ttl = Option.map (λ s. s * 1000000) ttl_seconds;
      records = [];
      keys = [];
    })

execution_type_name : ActionExecutionType → String
execution_type_name send_material_pack = "send_material_pack"
execution_type_name send_weekly_report = "send_weekly_report"
execution_type_name send_monthly_report = "send_monthly_report"
execution_type_name mention_sales = "mention_sales"
execution_type_name send_text = "send_text"

status_name : ActionExecutionStatus → String
status_name executed = "executed"
status_name failed = "failed"
status_name skipped = "skipped"

artifact_type_name : ActionFeedbackArtifact → String
artifact_type_name (material_pack_artifact a) = "material_pack"
artifact_type_name (weekly_report_artifact a) = "weekly_report"
artifact_type_name (monthly_report_artifact a) = "monthly_report"

-- `getattr(artifact, "option", "")`, and so for the other two
option_of : ActionFeedbackArtifact → Option String
option_of (material_pack_artifact a) = a.option
option_of (weekly_report_artifact a) = none
option_of (monthly_report_artifact a) = none

period_of_artifact : ActionFeedbackArtifact → Option String
period_of_artifact (material_pack_artifact a) = none
period_of_artifact (weekly_report_artifact a) = a.period
period_of_artifact (monthly_report_artifact a) = a.period

report_date_of_artifact : ActionFeedbackArtifact → Option String
report_date_of_artifact (material_pack_artifact a) = none
report_date_of_artifact (weekly_report_artifact a) = a.report_date
report_date_of_artifact (monthly_report_artifact a) = a.report_date

-- `value or default`, for a value that may be None or empty
text_or : Option String → List ℕ → List ℕ
unfolding codes
text_or none default = default
text_or (some String.[]) default = default
text_or (some (String.◌∷◌ c s)) default = codes (String.◌∷◌ c s)

artifact_key : Option ActionFeedbackArtifact → DedupeKey
unfolding codes text_or artifact_type_name option_of period_of_artifact report_date_of_artifact
    artifact_ref_of
artifact_key none = [] ∷ [] ∷ [] ∷ [] ∷ [] ∷ []
artifact_key (some a) =
    codes (artifact_type_name a)
    ∷ text_or (option_of a) []
    ∷ text_or (period_of_artifact a) []
    ∷ text_or (report_date_of_artifact a) []
    ∷ text_or (artifact_ref_of a) []
    ∷ []

-- the records of a feedback's executions that carry the text "index:" and their place when they
-- have no action id
unfoldable pub feedback_record_key :
    (ConversationStateKey → String)
    → ActionFeedbackRequest
    → ActionExecutionFeedback
    → ℕ
    → ConversationStateKey
    → DedupeKey
unfolding codes text_or decimal execution_type_name status_name artifact_key
feedback_record_key state_key_ref feedback execution index state_key =
    codes (state_key_ref state_key)
    ∷ codes feedback.feedback_id
    ∷ codes feedback.request_id
    ∷ codes feedback.response_id
    ∷ text_or execution.action_id (codes "index:" ++ decimal index)
    ∷ codes (execution_type_name execution.action_type)
    ∷ codes (status_name execution.status)
    ∷ artifact_key execution.artifact

abbrev pub record_keys : List LedgerRecord → List DedupeKey
record_keys records = map (λ r. r.dedupe_key) records

abbrev pub is_live : ℕ → ℕ → LedgerRecord → Bool
is_live ttl now r = ltb now (r.received_at + ttl)

abbrev pub cleaned_with : Option ℕ → ℕ → ActionLedger → ActionLedger × ℕ
cleaned_with none now ledger = (ledger, 0)
cleaned_with (some ttl) now ledger =
    let retained = keep (is_live ttl now) ledger.records in
    let removed = length ledger.records - length retained in
    if removed == 0
    then (ledger, 0)
    else (record ledger { records = retained; keys = record_keys retained }, removed)

-- `_cleanup_expired_locked`, and so `cleanup_expired`
unfoldable pub cleanup_expired_records : ℕ → ActionLedger → ActionLedger × ℕ
cleanup_expired_records now ledger = cleaned_with ledger.ttl now ledger

-- the loop over the candidates: the records whose key is new, and the keys with theirs added
unfoldable pub new_records : List LedgerRecord → List DedupeKey → List LedgerRecord × List DedupeKey
new_records [] keys = ([], keys)
new_records (r ∷ candidates) keys =
    let rest = new_records candidates keys in
    let (records, keys') = new_records candidates (r.dedupe_key ∷ keys) in
    if elem r.dedupe_key keys then rest else (r ∷ records, keys')

-- `self._records.extend(records)`, and the cut to the last `max_records`
unfoldable pub with_records : ActionLedger → List LedgerRecord → List DedupeKey → ActionLedger
with_records ledger records keys =
    let extended = ledger.records ++ records in
    let cut = last_n ledger.max_records extended in
    if ltb ledger.max_records (length extended)
    then record ledger { records = cut; keys = record_keys cut }
    else record ledger { records = extended; keys = keys }

module _ (state_key_ref : ConversationStateKey → String) where
  unfoldable pub candidates_from :
      ActionFeedbackRequest
      → ConversationStateKey
      → ℕ
      → ℕ
      → List ActionExecutionFeedback
      → List LedgerRecord
  unfolding feedback_record_key
  candidates_from feedback state_key now index [] = []
  candidates_from feedback state_key now index (e ∷ executions) =
      record {
        state_key = state_key;
        state_key_ref = state_key_ref state_key;
        group_id = state_key.subject_ref;
        sender_id = state_key.principal_ref;
        context_id = feedback.request_id;
        response_id = feedback.response_id;
        execution = e;
        received_at = now;
        dedupe_key = feedback_record_key state_key_ref feedback e index state_key;
      }
      ∷ candidates_from feedback state_key now (index + 1) executions

  abbrev pub stored_unless_empty :
      ActionLedger → List LedgerRecord × List DedupeKey → ℕ × ActionLedger
  stored_unless_empty ledger ([], keys) = (0, ledger)
  stored_unless_empty ledger (r ∷ records, keys) =
      (length (r ∷ records), with_records ledger (r ∷ records) keys)

  abbrev pub record_candidates : List LedgerRecord → ℕ → ActionLedger → ℕ × ActionLedger
  record_candidates [] now ledger = (0, ledger)
  record_candidates (r ∷ candidates) now ledger =
      let cleaned = (cleanup_expired_records now ledger).0 in
      stored_unless_empty cleaned (new_records (r ∷ candidates) cleaned.keys)

  -- the number of records stored, and the ledger
  unfoldable pub record_feedback :
      ActionFeedbackRequest → ConversationStateKey → ℕ → ActionLedger → ℕ × ActionLedger
  unfolding candidates_from cleanup_expired_records new_records with_records
  record_feedback feedback state_key now ledger =
      record_candidates (candidates_from feedback state_key now 0 feedback.executions) now ledger

abbrev pub matching_records :
    (LedgerRecord → Bool) → ℕ → ℕ → ActionLedger → List LedgerRecord × ActionLedger
matching_records test zero now ledger = ([], ledger)
matching_records test (suc limit) now ledger =
    let cleaned = (cleanup_expired_records now ledger).0 in
    (last_n (suc limit) (keep test cleaned.records), cleaned)

unfoldable pub recent_for_conversation :
    ConversationStateKey → ℕ → ℕ → ActionLedger → List LedgerRecord × ActionLedger
unfolding cleanup_expired_records
recent_for_conversation state_key = matching_records (λ r. r.state_key == state_key)

unfoldable pub recent_executed_for_conversation :
    ConversationStateKey → ℕ → ℕ → ActionLedger → List LedgerRecord × ActionLedger
unfolding cleanup_expired_records
recent_executed_for_conversation state_key =
    matching_records (λ r. r.state_key == state_key && r.execution.status == executed)

unfoldable pub by_context_id : String → ℕ → ActionLedger → List LedgerRecord × ActionLedger
unfolding cleanup_expired_records
by_context_id context_id now ledger =
    let cleaned = (cleanup_expired_records now ledger).0 in
    (keep (λ r. r.context_id == context_id) cleaned.records, cleaned)

-- `count`
unfoldable pub count_records : ℕ → ActionLedger → ℕ × ActionLedger
unfolding cleanup_expired_records
count_records now ledger =
    let cleaned = (cleanup_expired_records now ledger).0 in (length cleaned.records, cleaned)

unfoldable pub clear_records : ActionLedger → ActionLedger
clear_records ledger = record ledger { records = []; keys = [] }
