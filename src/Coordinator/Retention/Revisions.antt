-- ===== src/Coordinator/Retention/Revisions.antt =====
-- The state revisions: which of them publication keeps (coordinator_retention.py).
use market_support_crewai_ag.Prelude.{
  All, All-map, All-sort_by, [], arith, bool_Eq, elem, if◌then◌else◌, leb, length, list_Eq, nat_Eq,
  not, option_Eq, pair_Eq, refl, string_Eq, triple_Eq, true, ℕ, ◌≡◌,
}
use market_support_crewai_ag.Coordinator.Retention.{
  enforce_state_revision_capacity, pinned_state_keys, removable_revisions,
  without_unpinned_revisions,
}
use market_support_crewai_ag.Errors.{err, ok, state_store_unavailable}
use market_support_crewai_ag.FrozenMap.{get, items, keys}
use market_support_crewai_ag.FrozenMap.Laws.{get-without_keys}
use market_support_crewai_ag.FrozenMap.Selection.{elem-keep, keep-none, without_keys-others}
use market_support_crewai_ag.Identity.{
  ConversationStateKey, pair_Repr, scene_Eq, state_key_Eq, state_key_Repr, string_Repr, triple_Repr,
}
use market_support_crewai_ag.Records.{StateRevisionRecord}
use market_support_crewai_ag.Root.{CoordinatorStateRoot}
use market_support_crewai_ag.Schemas.{execution_type_Eq, reply_kind_Eq, status_Eq}

pub get-without_unpinned_revisions :
    (root : CoordinatorStateRoot) (k : ConversationStateKey)
    → elem k (pinned_state_keys root) ≡ true
    → get k (without_unpinned_revisions root).state_revisions ≡ get k root.state_revisions
unfolding without_unpinned_revisions
get-without_unpinned_revisions root k is_pinned = rw get-without_keys (
    ground (
      arith,
      elem-keep k (λ x. not (elem x (pinned_state_keys root))) (keys root.state_revisions),
      is_pinned,
    ))

-- Every revision that is left is pinned.
without_unpinned_revisions-All :
    (root : CoordinatorStateRoot)
    → All
        (λ e. elem e.0 (pinned_state_keys root) ≡ true)
        (without_unpinned_revisions root).state_revisions
unfolding without_unpinned_revisions
without_unpinned_revisions-All root =
    without_keys-others (λ k. elem k (pinned_state_keys root)) root.state_revisions

pinned-without_unpinned :
    (root : CoordinatorStateRoot)
    → pinned_state_keys (without_unpinned_revisions root) ≡ pinned_state_keys root
unfolding pinned_state_keys without_unpinned_revisions
pinned-without_unpinned root = refl

-- so there is nothing left that could be evicted
removable_revisions-none :
    (root : CoordinatorStateRoot)
    → removable_revisions
        (pinned_state_keys (without_unpinned_revisions root))
        (items (without_unpinned_revisions root).state_revisions)
      ≡ []
unfolding removable_revisions items
removable_revisions-none root = rw (pinned-without_unpinned root) (
    rw (
      keep-none
        (λ (e : ConversationStateKey × StateRevisionRecord).
          not (elem e.0 (pinned_state_keys root)))
        (items (without_unpinned_revisions root).state_revisions)
        (All-map _ _ (λ e h. ground (arith, h)) _
          (All-sort_by _ _ _ (without_unpinned_revisions-All root)))))

-- The bound on the state revisions removes exactly the revisions that no other record pins, and
-- fails when the pinned ones alone exceed it: the eviction of the oldest revisions that follows in
-- the code never happens.
pub enforce_state_revision_capacity_lem :
    (root : CoordinatorStateRoot) (capacity : ℕ)
    → enforce_state_revision_capacity root capacity ≡ (
        if leb (length (without_unpinned_revisions root).state_revisions) capacity
        then ok (without_unpinned_revisions root)
        else err state_store_unavailable)
unfolding enforce_state_revision_capacity
enforce_state_revision_capacity_lem root capacity = ground (arith, removable_revisions-none root)
