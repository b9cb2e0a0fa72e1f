-- ===== src/Coordinator/Consistency/Evictions.antt =====
-- The invariant across an eviction of the oldest complete record (coordinator_retention.py).
use market_support_crewai_ag.Prelude.{
  All, All-keep, All-map, All-min_by, All-zip, Bool, Bool-cases, List, Option-cases, String, [],
  arith, bool_Eq, elem, elem-singleton_ne, eq_iff, eq_refl, false, inl, inr, length, list_Eq, ltb,
  min_by, nat_Eq, not, option_Eq, pair_Eq, refl, some, string_Eq, subst, triple_Eq, true, ℕ, ◌==◌,
  ◌∷◌, ◌≡◌,
}
use market_support_crewai_ag.Coordinator.Consistency.{IsConsistent, is_listed}
use market_support_crewai_ag.Coordinator.Consistency.Removal.{
  Removes, actions-Removes, listed-Removes, responses-Removes,
}
use market_support_crewai_ag.Coordinator.Retention.{
  CompleteItem, complete_items, completed_before, effect_action_ids, evict_oldest,
  issued_capacity_eviction_candidate, without_complete,
}
use market_support_crewai_ag.Errors.{ok, ok-injective, some-injective}
use market_support_crewai_ag.FrozenMap.{get, items, without_keys}
use market_support_crewai_ag.FrozenMap.Distinct.{All-items, Distinct-get, Distinct-keep}
use market_support_crewai_ag.FrozenMap.Laws.{
  All-get, All-without_keys, get-without_key_ne, test-without_key,
}
use market_support_crewai_ag.Identity.{
  pair_Repr, scene_Eq, state_key_Eq, state_key_Repr, string_Repr, triple_Repr,
}
use market_support_crewai_ag.Records.{
  CompleteIssuedResponseRecord, IssuedEffect, IssuedResponseRecord, complete, pending,
}
use market_support_crewai_ag.Root.{CoordinatorStateRoot, IssuedKey}
use market_support_crewai_ag.Root.Ordered.{listed}
use market_support_crewai_ag.Root.Validation.{
  Issued, effect_has_action, find_effect, is_pending_for,
}
use market_support_crewai_ag.Schemas.{execution_type_Eq, reply_kind_Eq, status_Eq}

pub effect_action_ids-elem :
    (i key : String) (effects : List IssuedEffect)
    → effect_has_action i (find_effect key effects) ≡ true
    → elem i (effect_action_ids effects) ≡ true
unfolding effect_action_ids
effect_action_ids-elem i key [] h = absurd (cc)
effect_action_ids-elem i key (e ∷ es) h = elim (Bool-cases (e.effect_key == key)) [
  | inl here ↦
      let acts : (e.action_id == some i) ≡ true = rw here at h in
      rw ((eq_iff e.action_id (some i)).0 acts) (ground (arith, eq_refl i))
  | inr later ↦
      let rest = effect_action_ids-elem i key es (rw later at h) in
      elim (Option-cases e.action_id) [
        | inl plain ↦ rw plain rest
        | inr (j, acts) ↦ rw acts (ground (arith, rest))
      ]
]

module _ (root : CoordinatorStateRoot) (h : IsConsistent root) (key : IssuedKey)
    (r : CompleteIssuedResponseRecord)
    (found : get key root.issued_records ≡ some (complete r)) where
  abbrev others : IssuedKey → Bool
  others k = not (k == key)

  same_record :
      (k : IssuedKey) (s : CompleteIssuedResponseRecord)
      → get k root.issued_records ≡ some (complete s)
      → others k ≡ false
      → s ≡ r
  same_record k s at dead =
      let same : k ≡ key = ground (arith, eq_iff k key, dead) in
      let at_key : get key root.issued_records ≡ some (complete s) = rw same at at in cc

  listed_at :
      (k : IssuedKey) (s : CompleteIssuedResponseRecord)
      → get k root.issued_records ≡ some (complete s)
      → get s.response.response_id root.response_index ≡ some k
  listed_at k s at =
      let listed =
        All-get (λ e. is_listed root.response_index e ≡ true) k root.issued_records h.listed at in
      (eq_iff (get s.response.response_id root.response_index) (some k)).0 listed

  evicted-Removes :
      Removes root.issued_records
        (without_keys root.issued_records (key ∷ []))
        root.response_index
        others
        (r.response.response_id ∷ [])
        (effect_action_ids r.effects)
  evicted-Removes = record {
    keeps = λ k s at lives. (
      s,
      rw
          (get-without_key_ne k key root.issued_records
            (λ same. ground (arith, lives, eq_refl key, eq_iff k key, same)))
          at,
      (refl, refl, refl, refl),
    );
    covers_response = λ k s at dead.
        rw (same_record k s at dead) (ground (arith, eq_refl r.response.response_id));
    covers_action = λ k s i effect_key at dead acts.
        effect_action_ids-elem i effect_key r.effects (rw (same_record k s at dead) at acts);
    spares_response = λ k s at lives.
        elem-singleton_ne s.response.response_id r.response.response_id (λ same.
          let here = listed_at k s at in
          let there = listed_at key r found in
          let both : get r.response.response_id root.response_index ≡ some k = rw same at here in
          let again : k ≡ key = cc in ground (arith, lives, eq_iff k key, again));
  }

  listed_left :
      (e : IssuedKey × IssuedResponseRecord)
      → elem e.0 (key ∷ []) ≡ false
      → (get e.0 root.issued_records ≡ some e.1) × (is_listed root.response_index e ≡ true)
      → is_listed (without_keys root.response_index (r.response.response_id ∷ [])) e ≡ true
  listed_left (k, pending s) left (at, listed) = refl
  listed_left (k, complete s) left (at, listed) =
      listed-Removes evicted-Removes k s at (ground (arith, left, eq_iff k key, eq_iff key k))
        listed

  pub without_complete-IsConsistent : IsConsistent (without_complete root (key, r))
  unfolding without_complete
  without_complete-IsConsistent = record {
    indexed = record {
      pending_valid =
          All-map _ _
            (λ e valid.
              test-without_key (is_pending_for e.0) e.1 key root.issued_records (rw found) valid)
            root.pending_request_by_state h.indexed.pending_valid;
      responses_valid = responses-Removes evicted-Removes h.indexed.responses_valid;
      actions_valid =
          actions-Removes evicted-Removes root.action_index h.indexed.responses_valid
            h.indexed.actions_valid;
      keys_valid = All-keep _ _ root.issued_records h.indexed.keys_valid;
    };
    distinct = Distinct-keep _ root.issued_records h.distinct;
    listed = All-without_keys _ _ (key ∷ []) listed_left root.issued_records (
        All-zip _ _ _ (λ e at listed. (at, listed)) root.issued_records
          (Distinct-get root.issued_records h.distinct) h.listed);
  }

complete_items-found :
    (issued : Issued) (l : List (IssuedKey × IssuedResponseRecord))
    → All (λ e. get e.0 issued ≡ some e.1) l
    → All (λ e. get e.0 issued ≡ some (complete e.1)) (complete_items l)
unfolding complete_items
complete_items-found issued [] h = tt
complete_items-found issued ((key, pending r) ∷ rest) h = complete_items-found issued rest h.1
complete_items-found issued ((key, complete r) ∷ rest) h =
    (h.0, complete_items-found issued rest h.1)

evict_oldest-IsConsistent :
    (root evicted : CoordinatorStateRoot) (l : List CompleteItem)
    → IsConsistent root
    → All (λ e. get e.0 root.issued_records ≡ some (complete e.1)) l
    → evict_oldest root l ≡ ok (some evicted)
    → IsConsistent evicted
unfolding evict_oldest
evict_oldest-IsConsistent root evicted [] h found done = absurd (cc)
evict_oldest-IsConsistent root evicted (first ∷ rest) h found done =
    let oldest = min_by completed_before first rest in
    let at =
      All-min_by completed_before (λ e. get e.0 root.issued_records ≡ some (complete e.1)) first
        rest found.0 found.1 in
    subst IsConsistent (some-injective (ok-injective done))
      (without_complete-IsConsistent root h oldest.0 oldest.1 at)

-- Making room for a new request keeps the root consistent: the evicted record leaves with its
-- entries in the response and action indexes.
pub issued_capacity_eviction_candidate-IsConsistent :
    (root evicted : CoordinatorStateRoot) (capacity : ℕ)
    → IsConsistent root
    → issued_capacity_eviction_candidate root capacity ≡ ok (some evicted)
    → IsConsistent evicted
unfolding issued_capacity_eviction_candidate
issued_capacity_eviction_candidate-IsConsistent root evicted capacity h done =
    elim (Bool-cases (ltb (length root.issued_records) capacity)) [
      | inl room ↦ absurd (ground (arith, room, done))
      | inr full ↦
          evict_oldest-IsConsistent root evicted (complete_items (items root.issued_records)) h
            (complete_items-found root.issued_records (items root.issued_records)
              (All-items _ root.issued_records (Distinct-get root.issued_records h.distinct)))
            (rw full at done)
    ]
