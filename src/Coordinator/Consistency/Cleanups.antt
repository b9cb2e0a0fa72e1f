-- ===== src/Coordinator/Consistency/Cleanups.antt =====
-- The invariant across a cleanup (coordinator_cleanup.py).
use market_support_crewai_ag.Prelude.{
  All-keep, All-map, All-zip, Bool, Bool-cases, List, Option-cases, String, arith, bool_Eq, elem,
  eq_iff, false, inl, inr, keep, leb, list_Eq, nat_Eq, not, option_Eq, pair_Eq, refl, some,
  string_Eq, subst, sym, triple_Eq, true, ℕ, ◌==◌, ◌∙◌, ◌≡◌,
}
use market_support_crewai_ag.Coordinator.Cleanup.{
  cleaned_root, cleanup_candidate, expired, expired_action_ids, expired_issued,
  expired_response_ids, keys_where, retained_issued, retained_record,
}
use market_support_crewai_ag.Coordinator.Cleanup.Live.{cleanup_candidate-some}
use market_support_crewai_ag.Coordinator.Config.{CoordinatorConfig}
use market_support_crewai_ag.Coordinator.Consistency.{IsConsistent, is_listed}
use market_support_crewai_ag.Coordinator.Consistency.Expiries.{
  SparesId, expired_action_ids-elem, expired_response_ids-elem, expired_response_ids-spares,
  get-retained_issued, is_dead, lives, retained_issued-All, retained_issued-Distinct,
}
use market_support_crewai_ag.Coordinator.Consistency.Removal.{
  Removes, actions-Removes, listed-Removes, responses-Removes,
}
use market_support_crewai_ag.Coordinator.Retention.{without_unpinned_revisions}
use market_support_crewai_ag.Coordinator.Validity.{stands_under_key}
use market_support_crewai_ag.Errors.{some-injective}
use market_support_crewai_ag.FrozenMap.{get, items, keys, without_keys}
use market_support_crewai_ag.FrozenMap.Distinct.{All-items, Distinct-get, Distinct-items, get-items}
use market_support_crewai_ag.FrozenMap.Laws.{All-get}
use market_support_crewai_ag.FrozenMap.Selection.{selected, without_keys-selected}
use market_support_crewai_ag.Identity.{
  ConversationStateKey, pair_Repr, scene_Eq, state_key_Eq, state_key_Repr, string_Repr, triple_Repr,
}
use market_support_crewai_ag.Records.{
  CompleteIssuedResponseRecord, IssuedResponseRecord, complete, issued_expires, pending,
}
use market_support_crewai_ag.Root.{CoordinatorStateRoot, IssuedKey}
use market_support_crewai_ag.Root.Ordered.{listed}
use market_support_crewai_ag.Root.Validation.{Issued, is_pending_for, pending_entry_valid}
use market_support_crewai_ag.Schemas.{execution_type_Eq, reply_kind_Eq, status_Eq}

module _ (now_ns now_ms : ℕ) (config : CoordinatorConfig) (root : CoordinatorStateRoot)
    (h : IsConsistent root) where
  abbrev issued : Issued
  issued = root.issued_records

  abbrev issued' : Issued
  issued' = retained_issued now_ns now_ms config (items root.issued_records)

  abbrev alive : IssuedKey → Bool
  alive k = lives now_ns now_ms config (get k root.issued_records)

  abbrev response_ids : List String
  response_ids = expired_response_ids now_ns now_ms config (items root.issued_records)

  abbrev action_ids : List String
  action_ids = expired_action_ids now_ns now_ms config (items root.issued_records)

  in_items :
      (k : IssuedKey) {r : IssuedResponseRecord}
      → get k issued ≡ some r
      → get k (items issued) ≡ some r
  in_items k at = get-items k issued h.distinct ∙ at

  stays :
      (k : IssuedKey) (r : IssuedResponseRecord)
      → get k issued ≡ some r
      → lives now_ns now_ms config (some r) ≡ true
      → get k issued' ≡ some (retained_record now_ns now_ms config r)
  stays k r at live =
      get-retained_issued now_ns now_ms config k r (items issued) (in_items k at) live

  listed_at :
      (k : IssuedKey) (s : CompleteIssuedResponseRecord)
      → get k issued ≡ some (complete s)
      → get s.response.response_id root.response_index ≡ some k
  listed_at k s at =
      (eq_iff (get s.response.response_id root.response_index) (some k)).0
        (All-get (λ e. is_listed root.response_index e ≡ true) k issued h.listed at)

  dead_at :
      (k : IssuedKey) (s : CompleteIssuedResponseRecord)
      → get k issued ≡ some (complete s)
      → alive k ≡ false
      → leb s.expires_at_monotonic_ns now_ns ≡ true
  unfolding issued_expires
  dead_at k s at dead =
      let flag : not (leb s.expires_at_monotonic_ns now_ns) ≡ false = rw at at dead in ground arith

  live_at :
      (k : IssuedKey) (s : CompleteIssuedResponseRecord)
      → get k issued ≡ some (complete s)
      → alive k ≡ true
      → leb s.expires_at_monotonic_ns now_ns ≡ false
  unfolding issued_expires
  live_at k s at live =
      let flag : not (leb s.expires_at_monotonic_ns now_ns) ≡ true = rw at at live in ground arith

  -- a live record's response id is that of no expired record
  spares_others :
      (k : IssuedKey) (s : CompleteIssuedResponseRecord)
      → get k issued ≡ some (complete s)
      → alive k ≡ true
      → (e : IssuedKey × IssuedResponseRecord) → get e.0 issued ≡ some e.1
      → SparesId now_ns now_ms config s.response.response_id e
  spares_others k s at live (j, pending r) at_j = tt
  spares_others k s at live (j, complete r) at_j = λ dead.
      elim (Bool-cases (r.response.response_id == s.response.response_id)) [
        | inr differ ↦ differ
        | inl same ↦
            let equal = (eq_iff r.response.response_id s.response.response_id).0 same in
            let here : get s.response.response_id root.response_index ≡ some j =
              rw equal at (listed_at j r at_j) in
            let keys_equal : j ≡ k = some-injective (sym here ∙ listed_at k s at) in
            let at_k : get k issued ≡ some (complete r) = rw keys_equal at at_j in
            absurd (ground (arith, live_at k r at_k live, dead))
      ]

  cleaned-Removes : Removes issued issued' root.response_index alive response_ids action_ids
  unfolding retained_record issued_expires
  cleaned-Removes = record {
    keeps = λ k s at live. (_, stays k (complete s) at (rw at at live), (refl, refl, refl, refl));
    covers_response = λ k s at dead.
        expired_response_ids-elem now_ns now_ms config k s (items issued) (in_items k at)
          (dead_at k s at dead);
    covers_action = λ k s i effect_key at dead acts.
        expired_action_ids-elem now_ns now_ms config k s i effect_key (items issued) (in_items k at)
          (dead_at k s at dead) acts;
    spares_response = λ k s at live.
        expired_response_ids-spares now_ns now_ms config s.response.response_id (items issued) (
          All-items _ issued
            (All-map _ _ (spares_others k s at live) issued (Distinct-get issued h.distinct)));
  }

  retained_pending :
      (s : ConversationStateKey) (r : IssuedResponseRecord)
      → is_pending_for s (some r) ≡ true
      → is_pending_for s (some (retained_record now_ns now_ms config r)) ≡ true
  unfolding retained_record
  retained_pending s (pending r) h = h
  retained_pending s (complete r) h = absurd (cc)

  -- a pending entry that stays leads to a record that stays
  pending_stays :
      (e : ConversationStateKey × IssuedKey)
      → (elem e.1 (keys_where (expired_issued now_ns now_ms config) issued) ≡ false)
      → pending_entry_valid issued e ≡ true
      → pending_entry_valid issued' e ≡ true
  unfolding retained_record keys_where expired_issued
  pending_stays (s, k) live valid = elim (Option-cases (get k issued)) [
    | inl missing ↦ absurd (ground (arith, missing, valid))
    | inr (r, at) ↦
        let chosen =
          All-get
            (λ x.
              expired_issued now_ns now_ms config x ≡ true
              → elem x.0 (keys (keep (expired_issued now_ns now_ms config) issued)) ≡ true)
            k issued (selected (expired_issued now_ns now_ms config) issued) at in
        let lives_on : lives now_ns now_ms config (some r) ≡ true = ground (arith, live, chosen) in
        rw (stays k r at lives_on) (retained_pending s r (rw at at valid))
  ]

  retained_key :
      (e : IssuedKey × IssuedResponseRecord)
      → is_dead now_ns now_ms config e ≡ false
      → stands_under_key e ≡ true
      → stands_under_key (e.0, retained_record now_ns now_ms config e.1) ≡ true
  unfolding retained_record
  retained_key (k, pending r) live under = under
  retained_key (k, complete r) live under = under

  retained_listed :
      (e : IssuedKey × IssuedResponseRecord)
      → is_dead now_ns now_ms config e ≡ false
      → (get e.0 issued ≡ some e.1) × (is_listed root.response_index e ≡ true)
      → is_listed
          (without_keys root.response_index response_ids)
          (e.0, retained_record now_ns now_ms config e.1)
        ≡ true
  unfolding retained_record issued_expires
  retained_listed (k, pending r) live (at, listed) = refl
  retained_listed (k, complete r) live (at, listed) =
      listed-Removes cleaned-Removes k r at (rw at (ground (arith, live))) listed

  pub cleaned_root-IsConsistent : IsConsistent (
      without_unpinned_revisions
        (cleaned_root now_ns now_ms config root (expired now_ns now_ms config root)))
  unfolding without_unpinned_revisions cleaned_root expired
  cleaned_root-IsConsistent = record {
    indexed = record {
      pending_valid =
          All-zip _ _ _ (λ e live valid. pending_stays e live valid) _
            (without_keys-selected _ root.pending_request_by_state)
            (All-keep _ _ root.pending_request_by_state h.indexed.pending_valid);
      responses_valid = responses-Removes cleaned-Removes h.indexed.responses_valid;
      actions_valid =
          actions-Removes cleaned-Removes root.action_index h.indexed.responses_valid
            h.indexed.actions_valid;
      keys_valid =
          retained_issued-All now_ns now_ms config _ _ retained_key (items issued)
            (All-items _ issued h.indexed.keys_valid);
    };
    distinct =
        retained_issued-Distinct now_ns now_ms config (items issued)
          (Distinct-items issued h.distinct);
    listed = retained_issued-All now_ns now_ms config _ _ retained_listed (items issued) (
        All-items _ issued (
          All-zip _ _ _ (λ e at listed. (at, listed)) issued (Distinct-get issued h.distinct)
            h.listed));
  }

-- A cleanup keeps the root consistent: what has expired leaves with its entries in the indexes and
-- among the pending requests.
pub cleanup_candidate-IsConsistent :
    (now_ns now_ms : ℕ) (config : CoordinatorConfig) (root cleaned : CoordinatorStateRoot)
    → IsConsistent root
    → (cleanup_candidate now_ns now_ms config root).0 ≡ some cleaned
    → IsConsistent cleaned
cleanup_candidate-IsConsistent now_ns now_ms config root cleaned h done =
    subst IsConsistent (cleanup_candidate-some now_ns now_ms config root cleaned done)
      (cleaned_root-IsConsistent now_ns now_ms config root h)
