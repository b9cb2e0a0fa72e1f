-- ===== src/Schemas/Feedback.antt =====
-- What a feedback request must be to be read:
-- src/market_support_crewai_agent/schemas/feedback.py. A validator is true where the code's does
-- not raise a ValueError.
use market_support_crewai_ag.Prelude.{
  Bool, Eq, List, Option, String, [], all, bool_Eq, drop, elem, false, if◌then◌else◌, leb, length,
  list_Eq, nat_Eq, none, not, option_Eq, pair_Eq, some, string_Eq, take, triple_Eq, true, ℕ, ◌&&◌,
  ◌*◌, ◌+◌, ◌-◌, ◌==◌, ◌||◌, ◌∷◌,
}
use market_support_crewai_ag.Identity.{
  pair_Repr, scene_Eq, state_key_Eq, state_key_Repr, string_Repr, triple_Repr,
}
use market_support_crewai_ag.Schemas.{
  ActionExecutionFeedback, ActionExecutionStatus, ActionExecutionType, ActionFeedbackArtifact,
  MaterialPackFeedbackArtifact, ReportFeedbackArtifact, executed, execution_type_Eq, failed,
  material_pack_artifact, mention_sales, monthly_report_artifact, reply_kind_Eq, send_material_pack,
  send_monthly_report, send_text, send_weekly_report, skipped, status_Eq, weekly_report_artifact,
}
use market_support_crewai_ag.Text.{codes}
use Prim.Native.Nat.{◌%◌}

within : ℕ → ℕ → ℕ → Bool
within low high c = leb low c && leb c high

is_digit : ℕ → Bool
unfolding within
is_digit c = within b'0' b'9' c

starts_with : List ℕ → List ℕ → Bool
starts_with prefix s = take (length prefix) s == prefix

-- `needle in s`, where `needle` is not empty
has_part : List ℕ → List ℕ → Bool
unfolding starts_with
has_part needle [] = false
has_part needle (c ∷ s) = starts_with needle (c ∷ s) || has_part needle s

-- `reject_raw_locator_text`, on a text
unfoldable pub no_raw_locator : List ℕ → Bool
unfolding starts_with has_part codes
no_raw_locator s = not (
    has_part (codes "://") s
    || (has_part (codes "/") s
        || (has_part (codes "\\") s || (has_part (codes "file:") s || starts_with (codes "~") s))))

optional_text_passes : (List ℕ → Bool) → Option String → Bool
unfolding codes
optional_text_passes test none = true
optional_text_passes test (some s) = test (codes s)

is_alphanumeric : ℕ → Bool
unfolding within is_digit
is_alphanumeric c = within b'A' b'Z' c || (within b'a' b'z' c || is_digit c)

is_ref_char : ℕ → Bool
unfolding is_alphanumeric codes
is_ref_char c = is_alphanumeric c || elem c (codes "._:~-")

-- `[A-Za-z0-9][A-Za-z0-9._:~-]{0,159}`, matched in full; no whitespace and no control character
-- passes it
is_ref_shape : List ℕ → Bool
unfolding is_alphanumeric is_ref_char
is_ref_shape [] = false
is_ref_shape (c ∷ s) = is_alphanumeric c && (leb (length s) 159 && all is_ref_char s)

-- `_validate_v2_opaque_adapter_ref`
unfoldable pub is_opaque_adapter_ref : List ℕ → Bool
unfolding is_ref_shape has_part starts_with codes no_raw_locator
is_opaque_adapter_ref s =
    leb (length s) 160
    && (is_ref_shape s
        && (not (has_part (codes "..") s)
            && (not (starts_with (codes ".") s || starts_with (codes "~") s) && no_raw_locator s)))

unfoldable pub opaque_adapter_ref_passes : Bool → Option String → Bool
unfolding is_opaque_adapter_ref codes
opaque_adapter_ref_passes required none = not required
opaque_adapter_ref_passes required (some s) = is_opaque_adapter_ref (codes s)

is_leap : ℕ → Bool
is_leap y = (y % 4) == 0 && (not ((y % 100) == 0) || (y % 400) == 0)

days_in_month : ℕ → ℕ → ℕ
unfolding is_leap
days_in_month y m =
    if m == 2
    then if is_leap y then 29 else 28
    else if m == 4 || (m == 6 || (m == 9 || m == 11))
    then 30
    else 31

is_calendar_day : ℕ → ℕ → ℕ → Bool
unfolding within days_in_month
is_calendar_day y m d = leb 1 y && (within 1 12 m && within 1 (days_in_month y m) d)

number_from : ℕ → List ℕ → ℕ
number_from n [] = n
number_from n (c ∷ s) = number_from (n * 10 + (c - b'0')) s

-- YYYY-MM-DD of a day in the calendar: the texts that `date.fromisoformat` reads and `isoformat`
-- writes again
unfoldable pub is_iso_date : List ℕ → Bool
unfolding is_digit is_calendar_day number_from
is_iso_date s =
    let year = take 4 s in
    let month = take 2 (drop 5 s) in
    let day = take 2 (drop 8 s) in
    length s == 10
    && (take 1 (drop 4 s) == b'-' ∷ []
        && (take 1 (drop 7 s) == b'-' ∷ []
            && ((all is_digit year && (all is_digit month && all is_digit day))
                && is_calendar_day (number_from 0 year) (number_from 0 month) (number_from 0 day))))

-- `_validate_v2_report_metadata`
unfoldable pub report_metadata_passes : Option String → Option String → Bool
unfolding codes is_iso_date within
report_metadata_passes (some period) (some report_date) =
    within 1 40 (length (codes period)) && is_iso_date (codes report_date)
report_metadata_passes _ _ = false

-- the `match status` on `artifact_ref`
unfoldable pub artifact_ref_passes : ActionExecutionStatus → Option String → Bool
unfolding opaque_adapter_ref_passes
artifact_ref_passes executed artifact_ref = opaque_adapter_ref_passes true artifact_ref
artifact_ref_passes failed artifact_ref = artifact_ref == none
artifact_ref_passes skipped artifact_ref = artifact_ref == none

material_artifact_passes : ActionExecutionStatus → MaterialPackFeedbackArtifact → Bool
unfolding opaque_adapter_ref_passes artifact_ref_passes optional_text_passes within
material_artifact_passes status a =
    opaque_adapter_ref_passes true a.resolve_ref
    && (artifact_ref_passes status a.artifact_ref
        && optional_text_passes (λ s. within 1 80 (length s)) a.option)

report_artifact_passes : ActionExecutionStatus → ReportFeedbackArtifact → Bool
unfolding opaque_adapter_ref_passes artifact_ref_passes report_metadata_passes
report_artifact_passes status a =
    opaque_adapter_ref_passes true a.resolve_ref
    && (artifact_ref_passes status a.artifact_ref && report_metadata_passes a.period a.report_date)

-- `_validate_v2_feedback_artifact`
unfoldable pub feedback_artifact_passes :
    ActionExecutionType → ActionExecutionStatus → ActionFeedbackArtifact → Bool
unfolding material_artifact_passes report_artifact_passes
feedback_artifact_passes send_material_pack status (material_pack_artifact a) =
    material_artifact_passes status a
feedback_artifact_passes send_weekly_report status (weekly_report_artifact a) =
    report_artifact_passes status a
feedback_artifact_passes send_monthly_report status (monthly_report_artifact a) =
    report_artifact_passes status a
feedback_artifact_passes _ status artifact = false

-- the binding of a send action
unfoldable pub send_binding_passes :
    ActionExecutionType
    → ActionExecutionStatus
    → Option String
    → Option ActionFeedbackArtifact
    → Bool
unfolding feedback_artifact_passes
send_binding_passes type status (some action_id) (some artifact) =
    feedback_artifact_passes type status artifact
send_binding_passes type status _ _ = false

-- `validate_v2_effect_binding`
unfoldable pub effect_binding_passes :
    ActionExecutionType
    → ActionExecutionStatus
    → Option String
    → Option ActionFeedbackArtifact
    → Bool
unfolding send_binding_passes
effect_binding_passes send_text status none none = true
effect_binding_passes send_text status _ _ = false
effect_binding_passes mention_sales status none none = true
effect_binding_passes mention_sales status _ _ = false
effect_binding_passes type status action_id artifact =
    send_binding_passes type status action_id artifact

-- `act-[0-9a-f]{32}`, matched in full
unfoldable pub is_action_id : List ℕ → Bool
unfolding within is_digit codes
is_action_id s =
    take 4 s == codes "act-"
    && (length (drop 4 s) == 32 && all (λ c. is_digit c || within b'a' b'f' c) (drop 4 s))

-- the validators of `ActionExecutionFeedbackV2`
unfoldable pub execution_passes : ActionExecutionFeedback → Bool
unfolding optional_text_passes is_action_id effect_binding_passes
execution_passes e =
    optional_text_passes is_action_id e.action_id
    && effect_binding_passes e.action_type e.status e.action_id e.artifact

-- the action ids, and the types of the executions that have none
abbrev pub action_ids : List ActionExecutionFeedback → List String
action_ids [] = []
action_ids (e ∷ es) = elim e.action_id [
  | some action_id ↦ action_id ∷ action_ids es
  | none ↦ action_ids es
]

abbrev pub response_effects : List ActionExecutionFeedback → List ActionExecutionType
response_effects [] = []
response_effects (e ∷ es) = elim e.action_id [
  | some action_id ↦ response_effects es
  | none ↦ e.action_type ∷ response_effects es
]

module _ {ℓ} {A : Type ℓ} ⦃e : Eq A⦄ where
  -- `len(set(xs)) == len(xs)`, with the elements `seen` put into the set before
  abbrev pub no_repeats : List A → List A → Bool
  no_repeats seen [] = true
  no_repeats seen (x ∷ xs) = not (elem x seen) && no_repeats (x ∷ seen) xs

-- `validate_execution_keys`
unfoldable pub execution_keys_pass : List ActionExecutionFeedback → Bool
execution_keys_pass es = no_repeats [] (action_ids es) && no_repeats [] (response_effects es)
