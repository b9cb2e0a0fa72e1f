-- ===== src/Coordinator/Consistency/Expiries.antt =====
-- What a cleanup keeps and removes of the issued records (coordinator_cleanup.py).
use market_support_crewai_ag.Prelude.{
  All, Bool, Bool-cases, List, Option, String, [], arith, bool_Eq, elem, elem-append_left,
  elem-append_right, eq_refl, false, inl, inr, leb, list_Eq, nat_Eq, none, not, option_Eq, pair_Eq,
  refl, some, string_Eq, triple_Eq, true, ℕ, ◌==◌, ◌∷◌, ◌≡◌,
}
use market_support_crewai_ag.Coordinator.Cleanup.{
  expired_action_ids, expired_issued, expired_response_ids, retained_issued, retained_record,
}
use market_support_crewai_ag.Coordinator.Config.{CoordinatorConfig}
use market_support_crewai_ag.Coordinator.Consistency.Evictions.{effect_action_ids-elem}
use market_support_crewai_ag.Coordinator.Retention.{effect_action_ids}
use market_support_crewai_ag.Errors.{some-injective}
use market_support_crewai_ag.FrozenMap.{get}
use market_support_crewai_ag.FrozenMap.Distinct.{Distinct}
use market_support_crewai_ag.Identity.{
  pair_Repr, scene_Eq, state_key_Eq, state_key_Repr, string_Repr, triple_Repr,
}
use market_support_crewai_ag.Records.{
  CompleteIssuedResponseRecord, IssuedResponseRecord, complete, issued_expires, pending,
}
use market_support_crewai_ag.Root.{IssuedKey}
use market_support_crewai_ag.Root.Validation.{effect_has_action, find_effect}
use market_support_crewai_ag.Schemas.{execution_type_Eq, reply_kind_Eq, status_Eq}

module _ (now_monotonic_ns now_epoch_ms : ℕ) (config : CoordinatorConfig) where
  abbrev pub is_dead : IssuedKey × IssuedResponseRecord → Bool
  is_dead e = leb (issued_expires e.1) now_monotonic_ns

  -- whether what a lookup finds has not expired
  abbrev pub lives : Option IssuedResponseRecord → Bool
  lives none = true
  lives (some r) = not (leb (issued_expires r) now_monotonic_ns)

  pub retained_issued-All :
      (P : IssuedKey × IssuedResponseRecord → Type 0)
      (Q : IssuedKey × IssuedResponseRecord → Type 0)
      → ((e : IssuedKey × IssuedResponseRecord)
          → is_dead e ≡ false
          → P e
          → Q (e.0, retained_record now_monotonic_ns now_epoch_ms config e.1))
      → (l : List (IssuedKey × IssuedResponseRecord)) → All P l
      → All Q (retained_issued now_monotonic_ns now_epoch_ms config l)
  unfolding retained_issued expired_issued
  retained_issued-All P Q f [] h = tt
  retained_issued-All P Q f (e ∷ l) h = elim (Bool-cases (is_dead e)) [
    | inl dead ↦ rw dead (retained_issued-All P Q f l h.1)
    | inr live ↦ rw live (f e live h.0, retained_issued-All P Q f l h.1)
  ]

  pub retained_issued-Distinct :
      (l : List (IssuedKey × IssuedResponseRecord))
      → Distinct l
      → Distinct (retained_issued now_monotonic_ns now_epoch_ms config l)
  unfolding retained_issued expired_issued
  retained_issued-Distinct [] d = tt
  retained_issued-Distinct (e ∷ l) d = elim (Bool-cases (is_dead e)) [
    | inl dead ↦ rw dead (retained_issued-Distinct l d.1)
    | inr live ↦ rw live (
      retained_issued-All _ (λ x. (e.0 == x.0) ≡ false) (λ x alive apart. apart) l d.0,
      retained_issued-Distinct l d.1,
    )
  ]

  pub get-retained_issued :
      (k : IssuedKey) (r : IssuedResponseRecord) (l : List (IssuedKey × IssuedResponseRecord))
      → get k l ≡ some r
      → lives (some r) ≡ true
      → get k (retained_issued now_monotonic_ns now_epoch_ms config l)
        ≡ some (retained_record now_monotonic_ns now_epoch_ms config r)
  unfolding retained_issued expired_issued
  get-retained_issued k r [] at alive = absurd (cc)
  get-retained_issued k r (e ∷ l) at alive = elim (Bool-cases (k == e.0)) [
    | inl here ↦
        let same : e.1 ≡ r = some-injective (rw here at at) in rw same (ground (arith, alive, here))
    | inr there ↦
        let rest = get-retained_issued k r l (rw there at at) alive in
        elim (Bool-cases (is_dead e)) [
          | inl dead ↦ rw dead rest
          | inr live ↦ rw live (rw there rest)
        ]
  ]

  pub expired_response_ids-elem :
      (k : IssuedKey) (r : CompleteIssuedResponseRecord)
      (l : List (IssuedKey × IssuedResponseRecord))
      → get k l ≡ some (complete r)
      → leb r.expires_at_monotonic_ns now_monotonic_ns ≡ true
      → elem r.response.response_id (expired_response_ids now_monotonic_ns now_epoch_ms config l)
        ≡ true
  unfolding expired_response_ids
  expired_response_ids-elem k r [] at dead = absurd (cc)
  expired_response_ids-elem k r ((j, pending s) ∷ l) at dead =
      expired_response_ids-elem k r l (ground arith) dead
  expired_response_ids-elem k r ((j, complete s) ∷ l) at dead = elim (Bool-cases (k == j)) [
    | inl here ↦
        let same : complete s ≡ complete r = some-injective (rw here at at) in
        let equal : s ≡ r = cc in
        rw equal (rw dead (ground (arith, eq_refl r.response.response_id)))
    | inr there ↦
        let rest = expired_response_ids-elem k r l (rw there at at) dead in
        elim (Bool-cases (leb s.expires_at_monotonic_ns now_monotonic_ns)) [
          | inl old ↦ rw old (ground (arith, rest))
          | inr live ↦ rw live rest
        ]
  ]

  pub expired_action_ids-elem :
      (k : IssuedKey) (r : CompleteIssuedResponseRecord) (i key : String)
      (l : List (IssuedKey × IssuedResponseRecord))
      → get k l ≡ some (complete r)
      → leb r.expires_at_monotonic_ns now_monotonic_ns ≡ true
      → effect_has_action i (find_effect key r.effects) ≡ true
      → elem i (expired_action_ids now_monotonic_ns now_epoch_ms config l) ≡ true
  unfolding expired_action_ids
  expired_action_ids-elem k r i key [] at dead acts = absurd (cc)
  expired_action_ids-elem k r i key ((j, pending s) ∷ l) at dead acts =
      expired_action_ids-elem k r i key l (ground arith) dead acts
  expired_action_ids-elem k r i key ((j, complete s) ∷ l) at dead acts =
      elim (Bool-cases (k == j)) [
        | inl here ↦
            let same : complete s ≡ complete r = some-injective (rw here at at) in
            let equal : s ≡ r = cc in
            rw equal (
              rw dead (
                elem-append_left i (effect_action_ids r.effects) _
                  (effect_action_ids-elem i key r.effects acts)))
        | inr there ↦
            let rest = expired_action_ids-elem k r i key l (rw there at at) dead acts in
            elim (Bool-cases (leb s.expires_at_monotonic_ns now_monotonic_ns)) [
              | inl old ↦ rw old (elem-append_right i (effect_action_ids s.effects) _ rest)
              | inr live ↦ rw live rest
            ]
      ]

  -- no expired record has the response id
  abbrev pub SparesId : String → IssuedKey × IssuedResponseRecord → Type 0
  SparesId response_id (k, pending r) = Unit
  SparesId response_id (k, complete r) =
      leb r.expires_at_monotonic_ns now_monotonic_ns ≡ true
      → (r.response.response_id == response_id) ≡ false

  pub expired_response_ids-spares :
      (response_id : String) (l : List (IssuedKey × IssuedResponseRecord))
      → All (SparesId response_id) l
      → elem response_id (expired_response_ids now_monotonic_ns now_epoch_ms config l) ≡ false
  unfolding expired_response_ids
  expired_response_ids-spares response_id [] h = refl
  expired_response_ids-spares response_id ((j, pending s) ∷ l) h =
      expired_response_ids-spares response_id l h.1
  expired_response_ids-spares response_id ((j, complete s) ∷ l) h =
      let rest = expired_response_ids-spares response_id l h.1 in
      elim (Bool-cases (leb s.expires_at_monotonic_ns now_monotonic_ns)) [
        | inl old ↦ rw old (ground (arith, rest, h.0 old))
        | inr live ↦ rw live rest
      ]
