-- ===== src/Coordinator/Validity/Publish.antt =====
-- Publication of a well-indexed candidate: `prepare_root_for_publication`
-- (coordinator_retention.py).
use market_support_crewai_ag.Prelude.{
  bool_Eq, length, le→leb, list_Eq, nat_Eq, option_Eq, pair_Eq, string_Eq, triple_Eq, true, ℕ, ◌≡◌,
  ◌≤◌,
}
use market_support_crewai_ag.Coordinator.Retention.{
  enforce_inactive_record_capacities, prepare_root_for_publication, without_unpinned_revisions,
}
use market_support_crewai_ag.Coordinator.Retention.Revisions.{enforce_state_revision_capacity_lem}
use market_support_crewai_ag.Coordinator.Validity.{IsIndexed, IsIndexed-indexes_valid}
use market_support_crewai_ag.Errors.{ok}
use market_support_crewai_ag.Identity.{
  pair_Repr, scene_Eq, state_key_Eq, state_key_Repr, string_Repr, triple_Repr,
}
use market_support_crewai_ag.Root.{CoordinatorStateRoot}
use market_support_crewai_ag.Root.Orders.{with_root_orders}
use market_support_crewai_ag.Root.Validation.{indexes_valid, validate-with_root_orders}
use market_support_crewai_ag.Schemas.{execution_type_Eq, reply_kind_Eq, status_Eq}

abbrev prepared_form : CoordinatorStateRoot → CoordinatorStateRoot
prepared_form root =
    with_root_orders (without_unpinned_revisions (enforce_inactive_record_capacities root))

prepared_form-IsIndexed :
    (root : CoordinatorStateRoot) → IsIndexed root → IsIndexed (prepared_form root)
unfolding with_root_orders without_unpinned_revisions enforce_inactive_record_capacities
prepared_form-IsIndexed root h = h

bounded-indexes_valid :
    (root : CoordinatorStateRoot)
    → IsIndexed root
    → indexes_valid (without_unpinned_revisions (enforce_inactive_record_capacities root)) ≡ true
unfolding without_unpinned_revisions enforce_inactive_record_capacities
bounded-indexes_valid root h =
    IsIndexed-indexes_valid (without_unpinned_revisions (enforce_inactive_record_capacities root)) h

-- A well-indexed candidate whose pinned revisions fit the capacity passes the preparation for its
-- publication, and the root that this returns is well-indexed again.
pub prepare_root_for_publication-IsIndexed :
    (root : CoordinatorStateRoot) (capacity : ℕ)
    → IsIndexed root
    → length (without_unpinned_revisions (enforce_inactive_record_capacities root)).state_revisions
      ≤ capacity
    → (next : CoordinatorStateRoot) × (prepare_root_for_publication root capacity ≡ ok next)
      × IsIndexed next
unfolding prepare_root_for_publication
prepare_root_for_publication-IsIndexed root capacity h fits = (
  prepared_form root,
  rw (enforce_state_revision_capacity_lem (enforce_inactive_record_capacities root) capacity) (
      rw
        (le→leb
          (length
            (without_unpinned_revisions (enforce_inactive_record_capacities root)).state_revisions)
          capacity fits)
        (rw
          (validate-with_root_orders
            (without_unpinned_revisions (enforce_inactive_record_capacities root)))
          (rw (bounded-indexes_valid root h)))),
  prepared_form-IsIndexed root h,
)
