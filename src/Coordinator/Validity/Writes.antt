-- ===== src/Coordinator/Validity/Writes.antt =====
-- The indexes of complete records under a write to the issued records that spares those records.
use market_support_crewai_ag.Prelude.{
  All, All-map, Bool, Option, String, [], arith, bool_Eq, false, list_Eq, nat_Eq, none, option_Eq,
  pair_Eq, refl, some, string_Eq, triple_Eq, true, ◌∷◌, ◌≡◌,
}
use market_support_crewai_ag.FrozenMap.{FrozenMap, get, insert, without_keys}
use market_support_crewai_ag.FrozenMap.Laws.{test-insert, test-without_key}
use market_support_crewai_ag.Identity.{
  ConversationStateKey, pair_Repr, scene_Eq, state_key_Eq, state_key_Repr, string_Repr, triple_Repr,
}
use market_support_crewai_ag.Records.{IssuedResponseRecord, complete, pending}
use market_support_crewai_ag.Root.{ActionKey, IssuedKey}
use market_support_crewai_ag.Root.Validation.{
  Issued, action_entry_valid, action_target_valid, is_complete_for, is_complete_with_effect,
  response_entry_valid,
}
use market_support_crewai_ag.Schemas.{execution_type_Eq, reply_kind_Eq, status_Eq}

-- no record, or a pending one
abbrev pub is_open : Option IssuedResponseRecord → Bool
is_open (some (complete r)) = false
is_open _ = true

-- a test that only complete records pass
abbrev pub OnComplete : (Option IssuedResponseRecord → Bool) → Type 0
OnComplete test = (o : Option IssuedResponseRecord) → is_open o ≡ true → test o ≡ false

-- such a test, where it is passed before, is passed after
abbrev pub Spares : Issued → Issued → Type 0
Spares issued issued' =
    (test : Option IssuedResponseRecord → Bool)
    → OnComplete test
    → (k : IssuedKey) → test (get k issued) ≡ true
    → test (get k issued') ≡ true

is_complete_for-OnComplete : (response_id : String) → OnComplete (is_complete_for response_id)
is_complete_for-OnComplete response_id none h = refl
is_complete_for-OnComplete response_id (some (pending r)) h = refl
is_complete_for-OnComplete response_id (some (complete r)) h = absurd (cc)

is_complete_with_effect-OnComplete :
    (action_id effect_key : String) → OnComplete (is_complete_with_effect action_id effect_key)
is_complete_with_effect-OnComplete action_id effect_key none h = refl
is_complete_with_effect-OnComplete action_id effect_key (some (pending r)) h = refl
is_complete_with_effect-OnComplete action_id effect_key (some (complete r)) h = absurd (cc)

pub Spares-insert :
    (issued : Issued) (key : IssuedKey) (w : IssuedResponseRecord)
    → is_open (get key issued) ≡ true
    → Spares issued (insert key w issued)
Spares-insert issued key w opened test on_complete k h =
    test-insert test k key w issued (on_complete (get key issued) opened) h

pub Spares-without_key :
    (issued : Issued) (key : IssuedKey)
    → is_open (get key issued) ≡ true
    → Spares issued (without_keys issued (key ∷ []))
Spares-without_key issued key opened test on_complete k h =
    test-without_key test k key issued (on_complete (get key issued) opened) h

module _ (issued issued' : Issued) (spares : Spares issued issued') where
  pub responses-Spares :
      (index : FrozenMap String IssuedKey)
      → All (λ e. response_entry_valid issued e ≡ true) index
      → All (λ e. response_entry_valid issued' e ≡ true) index
  responses-Spares index h =
      All-map _ _ (λ e v. spares (is_complete_for e.0) (is_complete_for-OnComplete e.0) e.1 v) index
        h

  pub action_target-Spares :
      (action_id : String) (s : ConversationStateKey) (effect_key : String) (o : Option IssuedKey)
      → action_target_valid issued action_id s effect_key o ≡ true
      → action_target_valid issued' action_id s effect_key o ≡ true
  action_target-Spares action_id s effect_key none h = h
  action_target-Spares action_id s effect_key (some k) h = ground (
    arith,
    spares (is_complete_with_effect action_id effect_key)
        (is_complete_with_effect-OnComplete action_id effect_key) k,
  )

  pub actions-Spares :
      (index : FrozenMap String IssuedKey) (actions : FrozenMap String ActionKey)
      → All (λ e. action_entry_valid issued index e ≡ true) actions
      → All (λ e. action_entry_valid issued' index e ≡ true) actions
  actions-Spares index actions h =
      All-map _ _ (λ e v. action_target-Spares e.0 e.1.0 e.1.2 (get e.1.1 index) v) actions h
