-- ===== src/Coordinator/Consistency/Removal.antt =====
-- Removal of records with their entries in the indexes, as an eviction and a cleanup do it.
use market_support_crewai_ag.Prelude.{
  All, Bool, Bool-cases, List, Option, Option-cases, String, and-eq_true, arith, bool_Eq, elem,
  eq_iff, eq_refl, false, inl, inr, list_Eq, nat_Eq, none, option_Eq, pair_Eq, refl, some,
  string_Eq, subst, sym, triple_Eq, true, ◌==◌, ◌≡◌,
}
use market_support_crewai_ag.Coordinator.Consistency.{is_listed}
use market_support_crewai_ag.Coordinator.Validity.{ActionIndex, ResponseIndex}
use market_support_crewai_ag.FrozenMap.{get, without_keys}
use market_support_crewai_ag.FrozenMap.Laws.{All-get, All-without_keys, get-without_keys}
use market_support_crewai_ag.Identity.{
  ConversationStateKey, pair_Repr, scene_Eq, state_key_Eq, state_key_Repr, string_Repr, triple_Repr,
}
use market_support_crewai_ag.Records.{
  CompleteIssuedResponseRecord, IssuedResponseRecord, complete, pending,
}
use market_support_crewai_ag.Root.{ActionKey, IssuedKey}
use market_support_crewai_ag.Root.Ordered.{listed}
use market_support_crewai_ag.Root.Validation.{
  Issued, action_entry_valid, action_target_valid, effect_has_action, find_effect, is_complete_for,
  response_entry_valid,
}
use market_support_crewai_ag.Schemas.{execution_type_Eq, reply_kind_Eq, status_Eq}

-- the parts of a complete record that the indexes are about
abbrev pub SameTarget : CompleteIssuedResponseRecord → CompleteIssuedResponseRecord → Type 0
SameTarget r r' =
    (r.state_key ≡ r'.state_key)
    × (r.request_id ≡ r'.request_id)
    × (r.response ≡ r'.response)
    × (r.effects ≡ r'.effects)

-- `live` says which keys stay; the removed response and action ids cover what does not.
pub record Removes (issued issued' : Issued) (responses : ResponseIndex) (live : IssuedKey → Bool)
    (gone_responses gone_actions : List String) : Type 0 where
  pub keeps :
      (k : IssuedKey) (r : CompleteIssuedResponseRecord)
      → get k issued ≡ some (complete r)
      → live k ≡ true
      → (r' : CompleteIssuedResponseRecord) × (get k issued' ≡ some (complete r')) × SameTarget r r'
  pub covers_response :
      (k : IssuedKey) (r : CompleteIssuedResponseRecord)
      → get k issued ≡ some (complete r)
      → live k ≡ false
      → elem r.response.response_id gone_responses ≡ true
  pub covers_action :
      (k : IssuedKey) (r : CompleteIssuedResponseRecord) (i key : String)
      → get k issued ≡ some (complete r)
      → live k ≡ false
      → effect_has_action i (find_effect key r.effects) ≡ true
      → elem i gone_actions ≡ true
  pub spares_response :
      (k : IssuedKey) (r : CompleteIssuedResponseRecord)
      → get k issued ≡ some (complete r)
      → live k ≡ true
      → elem r.response.response_id gone_responses ≡ false

complete-of_response :
    (response_id : String) (o : Option IssuedResponseRecord)
    → is_complete_for response_id o ≡ true
    → (r : CompleteIssuedResponseRecord) × (o ≡ some (complete r))
      × (r.response.response_id ≡ response_id)
complete-of_response response_id none h = absurd (cc)
complete-of_response response_id (some (pending r)) h = absurd (cc)
complete-of_response response_id (some (complete r)) h =
    (r, refl, (eq_iff r.response.response_id response_id).0 h)

module _ {issued issued' : Issued} {responses : ResponseIndex} {live : IssuedKey → Bool}
    {gone_responses gone_actions : List String}
    (removes : Removes issued issued' responses live gone_responses gone_actions) where
  response_stays :
      (e : String × IssuedKey)
      → elem e.0 gone_responses ≡ false
      → response_entry_valid issued e ≡ true
      → response_entry_valid issued' e ≡ true
  response_stays (response_id, k) stays valid =
      let (r, found, named) = complete-of_response response_id (get k issued) valid in
      elim (Bool-cases (live k)) [
        | inl lives ↦
            let (r', found', same) = removes.keeps k r found lives in
            rw found' (rw (sym same.2) (rw named (eq_refl response_id)))
        | inr dead ↦ absurd (ground (arith, named, removes.covers_response k r found dead))
      ]

  pub responses-Removes :
      All (λ e. response_entry_valid issued e ≡ true) responses
      → All (λ e. response_entry_valid issued' e ≡ true) (without_keys responses gone_responses)
  responses-Removes h = All-without_keys _ _ gone_responses response_stays responses h

  target_stays :
      (i : String) (s : ConversationStateKey) (response_id effect_key : String) (k : IssuedKey)
      (r : CompleteIssuedResponseRecord)
      → elem i gone_actions ≡ false
      → get response_id responses ≡ some k
      → get k issued ≡ some (complete r)
      → r.response.response_id ≡ response_id
      → (k.0 == s) ≡ true
      → effect_has_action i (find_effect effect_key r.effects) ≡ true
      → action_entry_valid issued'
          (without_keys responses gone_responses)
          (i, (s, response_id, effect_key))
        ≡ true
  target_stays i s response_id effect_key k r stays at found named own acts =
      elim (Bool-cases (live k)) [
        | inr dead ↦ absurd (ground (arith, removes.covers_action k r i effect_key found dead acts))
        | inl lives ↦
            let (r', found', same) = removes.keeps k r found lives in
            let spared : elem response_id gone_responses ≡ false =
              subst (λ x. elem x gone_responses ≡ false) named
                (removes.spares_response k r found lives) in
            rw get-without_keys (rw spared (rw at (rw found' (rw own (rw (sym same.3) acts)))))
      ]

  action_stays :
      (e : String × ActionKey)
      → elem e.0 gone_actions ≡ false
      → action_entry_valid issued responses e ≡ true
      → All (λ x. response_entry_valid issued x ≡ true) responses
      → action_entry_valid issued' (without_keys responses gone_responses) e ≡ true
  action_stays (i, (s, response_id, effect_key)) stays valid h =
      elim (Option-cases (get response_id responses)) [
        | inl missing ↦ absurd (ground (arith, missing, valid))
        | inr (k, at) ↦
            let target : action_target_valid issued i s effect_key (some k) ≡ true =
              rw at at valid in
            let (own, acts) = (and-eq_true _ _).0 target in
            let (r, found, named) =
              complete-of_response response_id (get k issued)
                (All-get (λ x. response_entry_valid issued x ≡ true) response_id responses h at) in
            target_stays i s response_id effect_key k r stays at found named own (rw found at acts)
      ]

  pub actions-Removes :
      (actions : ActionIndex)
      → All (λ x. response_entry_valid issued x ≡ true) responses
      → All (λ e. action_entry_valid issued responses e ≡ true) actions
      → All
          (λ e. action_entry_valid issued' (without_keys responses gone_responses) e ≡ true)
          (without_keys actions gone_actions)
  actions-Removes actions h =
      All-without_keys _ _ gone_actions (λ e stays valid. action_stays e stays valid h) actions

  -- what stays is still listed
  pub listed-Removes :
      (k : IssuedKey) (r : CompleteIssuedResponseRecord)
      → get k issued ≡ some (complete r)
      → live k ≡ true
      → is_listed responses (k, complete r) ≡ true
      → is_listed (without_keys responses gone_responses) (k, complete r) ≡ true
  listed-Removes k r found lives listed =
      rw get-without_keys (rw (removes.spares_response k r found lives) listed)
