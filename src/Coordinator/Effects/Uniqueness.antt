-- ===== src/Coordinator/Effects/Uniqueness.antt =====
-- `_validate_execution_set` (coordinator_effects.py) on executions that passed their validators
-- (schemas/feedback.py).
use market_support_crewai_ag.Prelude.{
  Bool, Bool-cases, List, Option, String, [], all, ap, arith, bool_Eq, elem, eq_iff, false,
  if◌then◌else◌, inl, inr, list_Eq, nat_Eq, none, option_Eq, pair_Eq, refl, some, string_Eq, sym,
  triple_Eq, true, ◌&&◌, ◌==◌, ◌∷◌, ◌≡◌, ◌≢◌, ◌⊎◌,
}
use market_support_crewai_ag.Coordinator.Effects.{
  action_key, execution_set_key, validate_execution_set,
}
use market_support_crewai_ag.Coordinator.Effects.Keys.{
  action_key-injective, mention-ne, send_text-ne,
}
use market_support_crewai_ag.Errors.{Result, err, feedback_effect_duplicate, ok}
use market_support_crewai_ag.Identity.{
  pair_Repr, scene_Eq, state_key_Eq, state_key_Repr, string_Repr, triple_Repr,
}
use market_support_crewai_ag.Schemas.{
  ActionExecutionFeedback, ActionExecutionStatus, ActionExecutionType, ActionFeedbackArtifact,
  execution_type_Eq, mention_sales, reply_kind_Eq, send_material_pack, send_monthly_report,
  send_text, send_weekly_report, status_Eq,
}
use market_support_crewai_ag.Schemas.Feedback.{
  action_ids, effect_binding_passes, execution_keys_pass, execution_passes, no_repeats,
  response_effects, send_binding_passes,
}

action_key-eq : (i j : String) → (action_key i == action_key j) ≡ (i == j)
action_key-eq i j = elim (Bool-cases (i == j)) [
  | inl same ↦
      rw same ((eq_iff (action_key i) (action_key j)).1 (ap action_key ((eq_iff i j).0 same)))
  | inr differ ↦ rw differ (
      ground
        (arith, differ, eq_iff i j, eq_iff (action_key i) (action_key j), action_key-injective i j))
]

ne-eq : (a b : String) → a ≢ b → (a == b) ≡ false
ne-eq a b ne = ground (arith, ne, eq_iff a b)

-- the effect key of an execution that passes its binding
abbrev Keyed : ActionExecutionType → Option String → Option ActionFeedbackArtifact → Type 0
Keyed type action_id artifact =
    ((i : String) × (action_id ≡ some i)
      × (execution_set_key type action_id artifact ≡ ok (action_key i)))
    ⊎ (((action_id ≡ none)
          × ((type ≡ send_text) × (execution_set_key type action_id artifact ≡ ok "send_text")))
        ⊎ ((action_id ≡ none)
            × ((type ≡ mention_sales)
                × (execution_set_key type action_id artifact ≡ ok "mention:sales"))))

binding-Keyed :
    (type : ActionExecutionType) (status : ActionExecutionStatus) (action_id : Option String)
    (artifact : Option ActionFeedbackArtifact)
    → effect_binding_passes type status action_id artifact ≡ true
    → Keyed type action_id artifact
unfolding effect_binding_passes send_binding_passes execution_set_key
binding-Keyed send_text status none none h = inr (inl (refl, (refl, refl)))
binding-Keyed mention_sales status none none h = inr (inr (refl, (refl, refl)))
binding-Keyed send_material_pack status (some i) (some a) h = inl (i, refl, refl)
binding-Keyed send_weekly_report status (some i) (some a) h = inl (i, refl, refl)
binding-Keyed send_monthly_report status (some i) (some a) h = inl (i, refl, refl)
binding-Keyed _ status _ _ h = absurd (cc)

-- the effect keys seen are those of the action ids and the response effects seen
record Agree (seen : List String) (ids : List String) (types : List ActionExecutionType)
    : Type 0 where
  pub actions : (i : String) → elem (action_key i) seen ≡ elem i ids
  pub texts : elem "send_text" seen ≡ elem send_text types
  pub mentions : elem "mention:sales" seen ≡ elem mention_sales types

module _ (seen : List String) (ids : List String) (types : List ActionExecutionType)
    (agree : Agree seen ids types) where
  Agree-action : (i : String) → Agree (action_key i ∷ seen) (i ∷ ids) types
  Agree-action i = record {
    actions = λ j. rw (action_key-eq i j, agree.actions j) refl;
    texts = rw (ne-eq (action_key i) "send_text" (λ h. send_text-ne i (sym h))) agree.texts;
    mentions = rw (ne-eq (action_key i) "mention:sales" (λ h. mention-ne i (sym h))) agree.mentions;
  }

  Agree-text : Agree ("send_text" ∷ seen) ids (send_text ∷ types)
  Agree-text = record {
    actions = λ j. rw (ne-eq "send_text" (action_key j) (send_text-ne j)) (agree.actions j);
    texts = refl;
    mentions = agree.mentions;
  }

  Agree-mention : Agree ("mention:sales" ∷ seen) ids (mention_sales ∷ types)
  Agree-mention = record {
    actions = λ j. rw (ne-eq "mention:sales" (action_key j) (mention-ne j)) (agree.actions j);
    texts = agree.texts;
    mentions = refl;
  }

abbrev verdict : Bool → Result (Unit {0})
verdict unique = if unique then ok tt else err feedback_effect_duplicate

refused : (b : Bool) → err feedback_effect_duplicate ≡ verdict (b && false)
refused true = refl
refused false = refl

verdict-validate_execution_set :
    (es : List ActionExecutionFeedback) (seen : List String) (ids : List String)
    (types : List ActionExecutionType)
    → Agree seen ids types
    → all execution_passes es ≡ true
    → validate_execution_set es seen
      ≡ verdict (no_repeats ids (action_ids es) && no_repeats types (response_effects es))
unfolding validate_execution_set execution_passes
verdict-validate_execution_set [] seen ids types agree passed = refl
verdict-validate_execution_set (e ∷ es) seen ids types agree passed =
    let bound : effect_binding_passes e.action_type e.status e.action_id e.artifact ≡ true =
      ground (arith, passed) in
    let later : all execution_passes es ≡ true = ground (arith, passed) in
    elim (binding-Keyed e.action_type e.status e.action_id e.artifact bound) [
      | inl (i, named, key) ↦ elim (Bool-cases (elem i ids)) [
        | inl twice ↦ rw (key, named, agree.actions i, twice) refl
        | inr once ↦
            rw (key, named, agree.actions i, once)
              (verdict-validate_execution_set es (action_key i ∷ seen) (i ∷ ids) types
                (Agree-action seen ids types agree i) later)
      ]
      | inr (inl (plain, (type, key))) ↦ elim (Bool-cases (elem send_text types)) [
        | inl twice ↦
            rw (key, plain, type, agree.texts, twice) (refused (no_repeats ids (action_ids es)))
        | inr once ↦
            rw (key, plain, type, agree.texts, once)
              (verdict-validate_execution_set es ("send_text" ∷ seen) ids (send_text ∷ types)
                (Agree-text seen ids types agree) later)
      ]
      | inr (inr (plain, (type, key))) ↦ elim (Bool-cases (elem mention_sales types)) [
        | inl twice ↦
            rw (key, plain, type, agree.mentions, twice) (refused (no_repeats ids (action_ids es)))
        | inr once ↦
            rw (key, plain, type, agree.mentions, once)
              (verdict-validate_execution_set es ("mention:sales" ∷ seen) ids
                (mention_sales ∷ types) (Agree-mention seen ids types agree) later)
      ]
    ]

-- On executions that pass their validators, the set of a feedback is accepted if the validator of
-- the execution keys passes, and is otherwise refused as having an effect twice.
pub validate_execution_set-execution_keys_pass :
    (es : List ActionExecutionFeedback)
    → all execution_passes es ≡ true
    → validate_execution_set es []
      ≡ (if execution_keys_pass es then ok tt else err feedback_effect_duplicate)
unfolding execution_keys_pass
validate_execution_set-execution_keys_pass es passed =
    verdict-validate_execution_set es [] [] []
      (record { actions = λ i. refl; texts = refl; mentions = refl }) passed
