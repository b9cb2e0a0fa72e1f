-- ===== src/Coordinator/Retention/Rows.antt =====
-- The capacity of action-ledger rows: `_enforce_inactive_record_capacities`
-- (coordinator_retention.py).
use market_support_crewai_ag.Prelude.{
  All, All-min_by, Bool-cases, List, [], arith, bool_Eq, elem, inl, inr, length, list_Eq, ltb,
  min_by, nat_Eq, option_Eq, pair_Eq, string_Eq, suc, triple_Eq, true, zero, ℕ, ◌<◌, ◌∷◌, ◌≡◌, ◌≤◌,
}
use market_support_crewai_ag.Coordinator.Retention.{
  LedgerRows, action_ledger_capacity, enforce_inactive_record_capacities, evict_ledger_rows,
  received_before, without_oldest_row,
}
use market_support_crewai_ag.FrozenMap.{items, keys}
use market_support_crewai_ag.FrozenMap.Selection.{items-keys, length-items, length-without_key-lt}
use market_support_crewai_ag.Identity.{
  pair_Repr, scene_Eq, state_key_Eq, state_key_Repr, string_Repr, triple_Repr,
}
use market_support_crewai_ag.Records.{ActionLedgerRecord}
use market_support_crewai_ag.Root.{ActionKey, CoordinatorStateRoot}
use market_support_crewai_ag.Schemas.{execution_type_Eq, reply_kind_Eq, status_Eq}

without_oldest_row-lt :
    (rows : List (ActionKey × ActionLedgerRecord)) (ledger : LedgerRows)
    → All (λ row. elem row.0 (keys ledger) ≡ true) rows
    → 0 < length rows
    → length (without_oldest_row rows ledger) < length ledger
unfolding without_oldest_row
without_oldest_row-lt [] ledger known some_row = absurd (omega (arith, some_row))
without_oldest_row-lt (first ∷ rest) ledger known some_row =
    let oldest = min_by received_before first rest in
    let stands =
      All-min_by received_before (λ row. elem row.0 (keys ledger) ≡ true) first rest known.0
        known.1 in
    length-without_key-lt oldest.0 ledger stands

evict_ledger_rows-le :
    (fuel : ℕ) (ledger : LedgerRows)
    → length ledger ≤ fuel
    → length (evict_ledger_rows fuel ledger) ≤ action_ledger_capacity
unfolding evict_ledger_rows
evict_ledger_rows-le zero ledger enough = omega (arith, enough)
evict_ledger_rows-le (suc fuel) ledger enough =
    elim (Bool-cases (ltb action_ledger_capacity (length ledger))) [
      | inl over ↦
          let less =
            without_oldest_row-lt (items ledger) ledger (items-keys ledger)
              (ground (arith, length-items ledger)) in
          rw over (
            evict_ledger_rows-le fuel (without_oldest_row (items ledger) ledger)
              (omega (arith, less, enough)))
      | inr within ↦ rw within (ground arith)
    ]

-- After the capacities are enforced, the ledger has at most 5000 rows.
pub enforce_inactive_record_capacities-le :
    (root : CoordinatorStateRoot)
    → length (enforce_inactive_record_capacities root).action_ledger_records ≤ 5000
unfolding enforce_inactive_record_capacities
enforce_inactive_record_capacities-le root =
    evict_ledger_rows-le (length root.action_ledger_records) root.action_ledger_records
      (omega arith)
