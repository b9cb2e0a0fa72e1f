-- ===== src/Coordinator/Consistency/Publications.antt =====
-- The invariant across a publication: `_publish` (src/market_support_crewai_agent/runtime/state/
-- transaction_coordinator.py) and `prepare_root_for_publication` (coordinator_retention.py).
use market_support_crewai_ag.Prelude.{
  Bool-cases, List, Option, ap, bool_Eq, inl, inr, leb, length, list_Eq, nat_Eq, none, option_Eq,
  pair_Eq, refl, some, string_Eq, subst, sym, triple_Eq, ℕ, ◌∙◌, ◌≡◌,
}
use market_support_crewai_ag.Coordinator.Consistency.{IsConsistent}
use market_support_crewai_ag.Coordinator.Retention.{
  enforce_inactive_record_capacities, enforce_state_revision_capacity, prepare_root_for_publication,
  without_unpinned_revisions,
}
use market_support_crewai_ag.Coordinator.Retention.Revisions.{enforce_state_revision_capacity_lem}
use market_support_crewai_ag.Coordinator.Transactions.{
  Coordinator, Transaction, continue, publish, publish_some,
}
use market_support_crewai_ag.Coordinator.Transactions.Publication.{publish_lem}
use market_support_crewai_ag.Errors.{
  >>=-eq-ok, Result-cases, err, ok, ok-injective, state_store_unavailable,
}
use market_support_crewai_ag.Identity.{
  ConversationStateKey, pair_Repr, scene_Eq, state_key_Eq, state_key_Repr, string_Repr, triple_Repr,
}
use market_support_crewai_ag.Root.{CoordinatorStateRoot, JournalOperation}
use market_support_crewai_ag.Root.Orders.{with_root_orders}
use market_support_crewai_ag.Root.Validation.{validate_root}
use market_support_crewai_ag.Schemas.{execution_type_Eq, reply_kind_Eq, status_Eq}
use market_support_crewai_ag.Text.{Bytes}

abbrev pub published_form : CoordinatorStateRoot → CoordinatorStateRoot
published_form root =
    with_root_orders (without_unpinned_revisions (enforce_inactive_record_capacities root))

published_form-IsConsistent :
    (root : CoordinatorStateRoot) → IsConsistent root → IsConsistent (published_form root)
unfolding with_root_orders without_unpinned_revisions enforce_inactive_record_capacities
published_form-IsConsistent root h = h

-- what a publication makes of its candidate
pub prepare_root_for_publication-form :
    (root next : CoordinatorStateRoot) (capacity : ℕ)
    → prepare_root_for_publication root capacity ≡ ok next
    → published_form root ≡ next
unfolding prepare_root_for_publication
prepare_root_for_publication-form root next capacity done =
    let bounded = enforce_inactive_record_capacities root in
    let (kept, bound, h1) = >>=-eq-ok (enforce_state_revision_capacity bounded capacity) _ done in
    let (_, _, h2) = >>=-eq-ok (validate_root (with_root_orders kept)) _ h1 in
    let same : without_unpinned_revisions bounded ≡ kept =
      elim (Bool-cases
        (leb (length (without_unpinned_revisions bounded).state_revisions) capacity)) [
          | inl fits ↦
              ok-injective
                (rw fits at (sym (enforce_state_revision_capacity_lem bounded capacity) ∙ bound))
          | inr full ↦
              let refused : err state_store_unavailable ≡ ok kept =
                rw full at (sym (enforce_state_revision_capacity_lem bounded capacity) ∙ bound) in
              absurd (cc)
        ] in
    ap with_root_orders same ∙ ok-injective h2

pub prepare_root_for_publication-IsConsistent :
    (root next : CoordinatorStateRoot) (capacity : ℕ)
    → IsConsistent root
    → prepare_root_for_publication root capacity ≡ ok next
    → IsConsistent next
prepare_root_for_publication-IsConsistent root next capacity h done =
    subst IsConsistent (prepare_root_for_publication-form root next capacity done)
      (published_form-IsConsistent root h)

module _ {ℓ κ} {A : Type ℓ} {B : Type κ} where
  -- a sequence keeps the root consistent when its parts do, the second with the first's result
  pub continue-IsConsistent :
      (m : Transaction A) (f : A → Transaction B) (c : Coordinator)
      → IsConsistent (m c).1.root
      → ((a : A) → (m c).0 ≡ ok a → IsConsistent (f a (m c).1).1.root)
      → IsConsistent (continue (m c).0 f (m c).1).1.root
  continue-IsConsistent m f c first second = elim (Result-cases (m c).0) [
    | inl (a, done) ↦ rw done (second a done)
    | inr (e, raised) ↦ rw raised first
  ]

pub publish-IsConsistent :
    (id : Bytes) (operation : JournalOperation) (initiating : Option ConversationStateKey)
    (affected : List ConversationStateKey) (candidate : CoordinatorStateRoot) (c : Coordinator)
    → IsConsistent c.root
    → IsConsistent candidate
    → IsConsistent (publish id operation initiating affected candidate c).1.root
publish-IsConsistent id operation initiating affected candidate c h made =
    elim (publish_lem id operation initiating affected candidate c) [
      | inl (_, installed, _) ↦
          prepare_root_for_publication-IsConsistent candidate _ c.config.state_revision_capacity
            made installed
      | inr (e, _, kept) ↦ subst IsConsistent (sym kept) h
    ]

pub publish_some-IsConsistent :
    (id : Bytes) (operation : JournalOperation) (initiating : Option ConversationStateKey)
    (affected : List ConversationStateKey) (candidate : Option CoordinatorStateRoot)
    (c : Coordinator)
    → IsConsistent c.root
    → ((next : CoordinatorStateRoot) → candidate ≡ some next → IsConsistent next)
    → IsConsistent (publish_some id operation initiating affected candidate c).1.root
publish_some-IsConsistent id operation initiating affected none c h made = h
publish_some-IsConsistent id operation initiating affected (some next) c h made =
    publish-IsConsistent id operation initiating affected next c h (made next refl)
