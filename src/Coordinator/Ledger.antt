-- ===== src/Coordinator/Ledger.antt =====
-- src/market_support_crewai_agent/runtime/state/coordinator_ledger.py
use market_support_crewai_ag.Prelude.{
  Bool, List, Option, String, [], bool_Eq, false, if◌then◌else◌, keep, list_Eq, nat_Eq, none, not,
  option_Eq, pair_Eq, some, sort_by, sort_key_le, string_Eq, take, triple_Eq, true, ℕ, ◌&&◌, ◌+◌,
  ◌==◌, ◌||◌, ◌∷◌,
}
use market_support_crewai_ag.FrozenMap.{FrozenMap, get, insert, items, values}
use market_support_crewai_ag.Identity.{
  ConversationStateKey, pair_Repr, scene_Eq, state_key_Eq, state_key_Repr, string_Repr, triple_Repr,
}
use market_support_crewai_ag.Records.{
  ActionLedgerRecord, CompleteIssuedResponseRecord, IssuedEffect, IssuedResponseRecord,
  PreparedEffectTransition, complete,
}
use market_support_crewai_ag.Root.{ActionKey, CoordinatorStateRoot, IssuedKey}
use market_support_crewai_ag.Schemas.{
  ActionExecutionType, execution_type_Eq, reply_kind_Eq, send_material_pack, send_monthly_report,
  send_weekly_report, status_Eq,
}
use market_support_crewai_ag.Text.{codes}
use mathlib.Core.Option

-- `{transition.effect_key: transition for ...}.get(effect_key)`: a later transition overwrites
unfoldable pub transition_for :
    String → List PreparedEffectTransition → Option PreparedEffectTransition
transition_for effect_key [] = none
transition_for effect_key (t ∷ ts) =
    let later = transition_for effect_key ts in
    elim later [ none ↦ if t.effect_key == effect_key then some t else none | some t' ↦ some t' ]

-- the action types that the ledger keeps
unfoldable pub is_send_action : ActionExecutionType → Bool
is_send_action send_material_pack = true
is_send_action send_weekly_report = true
is_send_action send_monthly_report = true
is_send_action _ = false

abbrev next_status_revision : Option ActionLedgerRecord → ℕ
next_status_revision none = 1
next_status_revision (some previous) = previous.status_revision + 1

module _ (root : CoordinatorStateRoot) (issued : CompleteIssuedResponseRecord)
    (transitions : List PreparedEffectTransition)
    (received_at_epoch_ms expires_at_monotonic_ns : ℕ) where
  ledger_row : IssuedEffect → String → PreparedEffectTransition → ActionLedgerRecord
  ledger_row effect action_id transition = record {
    state_key = issued.state_key;
    response_id = issued.response.response_id;
    action_id = action_id;
    action_type = effect.effect_type;
    status = transition.requested_status;
    artifact_ref = transition.requested_artifact_ref;
    status_revision =
        next_status_revision (
          get (issued.state_key, issued.response.response_id, action_id)
            root.action_ledger_records);
    received_at_epoch_ms = received_at_epoch_ms;
    expires_at_monotonic_ns = expires_at_monotonic_ns;
    pol1 = issued.pol1;
    par1 = issued.par1;
    grh1 = issued.grh1;
    bsh1 = issued.bsh1;
  }

  -- one round of the loop; `updates` is the dict so far
  ledger_update :
      IssuedEffect
      → Option PreparedEffectTransition
      → Option String
      → FrozenMap ActionKey ActionLedgerRecord
      → FrozenMap ActionKey ActionLedgerRecord
  unfolding ledger_row is_send_action
  ledger_update effect (some transition) (some action_id) updates =
      if transition.is_noop || not (is_send_action effect.effect_type)
      then updates
      else insert (issued.state_key, issued.response.response_id, action_id)
          (ledger_row effect action_id transition) updates
  ledger_update effect _ _ updates = updates

  ledger_updates :
      List IssuedEffect
      → FrozenMap ActionKey ActionLedgerRecord
      → FrozenMap ActionKey ActionLedgerRecord
  unfolding ledger_update transition_for
  ledger_updates [] updates = updates
  ledger_updates (effect ∷ effects) updates =
      ledger_updates effects (
        ledger_update effect (transition_for effect.effect_key transitions) effect.action_id
          updates)

  unfoldable pub derive_ledger_updates : FrozenMap ActionKey ActionLedgerRecord
  unfolding ledger_updates
  derive_ledger_updates = ledger_updates issued.effects []

-- The key of the one effect of the row's action and type
unfoldable pub only_effect_key : List IssuedEffect → Option String
only_effect_key (e ∷ []) = some e.effect_key
only_effect_key _ = none

effect_identity_at : ActionLedgerRecord → Option IssuedResponseRecord → Option ActionKey
unfolding only_effect_key
effect_identity_at row (some (complete r)) =
    let matches =
      keep (λ e. e.action_id == some row.action_id && e.effect_type == row.action_type) r.effects in
    if r.state_key == row.state_key && r.response.response_id == row.response_id
    then Option.map (λ k. (row.state_key, row.response_id, k)) (only_effect_key matches)
    else none
effect_identity_at row _ = none

abbrev identity_behind :
    CoordinatorStateRoot → ActionLedgerRecord → Option IssuedKey → Option ActionKey
unfolding effect_identity_at
identity_behind root row none = none
identity_behind root row (some issued_key) =
    if issued_key.0 == row.state_key
    then effect_identity_at row (get issued_key root.issued_records)
    else none

-- `_issued_effect_identity`
unfoldable pub issued_effect_identity : CoordinatorStateRoot → ActionLedgerRecord → Option ActionKey
unfolding effect_identity_at
issued_effect_identity root row = identity_behind root row (get row.response_id root.response_index)

module _ (root : CoordinatorStateRoot) (state_key : ConversationStateKey)
    (par1 grh1 bsh1 : String) where
  unfoldable pub row_is_admitted : ActionLedgerRecord → Bool
  row_is_admitted row =
      row.state_key == state_key && (row.par1 == par1 && (row.grh1 == grh1 && row.bsh1 == bsh1))

  abbrev admit :
      Option ActionKey
      → ActionLedgerRecord
      → FrozenMap ActionKey ActionLedgerRecord
      → FrozenMap ActionKey ActionLedgerRecord
  admit none row rows = rows
  admit (some identity) row rows = insert identity row rows

  admit_rows :
      List (ActionKey × ActionLedgerRecord)
      → FrozenMap ActionKey ActionLedgerRecord
      → FrozenMap ActionKey ActionLedgerRecord
  unfolding row_is_admitted issued_effect_identity
  admit_rows [] rows = rows
  admit_rows ((key, row) ∷ rest) rows =
      admit_rows rest
        (if row_is_admitted row then admit (issued_effect_identity root row) row rows else rows)

  -- `sorted(..., reverse=True)` keeps the order of equal keys
  row_after : ActionLedgerRecord → ActionLedgerRecord → Bool
  unfolding codes
  row_after a b =
      sort_key_le (b.received_at_epoch_ms, codes b.response_id, codes b.action_id)
        (a.received_at_epoch_ms, codes a.response_id, codes a.action_id)

  unfoldable pub admitted_action_ledger_rows : List ActionLedgerRecord
  unfolding admit_rows row_after items sort_by
  admitted_action_ledger_rows =
      take 20 (sort_by row_after (values (admit_rows (items root.action_ledger_records) [])))
