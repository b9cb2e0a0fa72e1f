-- ===== src/Coordinator/Effects/Keys.antt =====
-- An effect's key names its action: what `derive_issued_effects` (coordinator_effects.py) makes,
-- and what the action index relies on.
use market_support_crewai_ag.Prelude.{
  All, All-append, All-map, All-mapped, Bool, Bool-cases, List, Option, Option-cases, String, [],
  any, ap, arith, bool_Eq, eq_iff, eq_refl, if_elim, inl, inr, list_Eq, nat_Eq, none, option_Eq,
  pair_Eq, refl, some, string_Eq, subst, triple_Eq, true, ℕ, ◌!=◌, ◌&&◌, ◌==◌, ◌∙◌, ◌∷◌, ◌≡◌, ◌≢◌,
}
use market_support_crewai_ag.Coordinator.Effects.{
  action_effect, action_key, derive_issued_effects, mention_effects, non_empty, response_effect,
}
use market_support_crewai_ag.Coordinator.ReplyCommit.{action_entries}
use market_support_crewai_ag.Identity.{
  ConversationStateKey, pair_Repr, scene_Eq, state_key_Eq, state_key_Repr, string_Repr, triple_Repr,
}
use market_support_crewai_ag.Records.{IssuedEffect}
use market_support_crewai_ag.Root.{ActionKey}
use market_support_crewai_ag.Root.Validation.{effect_has_action, find_effect}
use market_support_crewai_ag.Schemas.{
  OutboundAction, ReplyMention, ReplyResponse, execution_type_Eq, no_reply, reply_kind_Eq,
  send_text, status_Eq,
}
use Prim.Native.Char.{code}
use text.Mathlib.TextLemmas.{append_cancel_left, cons-append}

pub action_key-injective : (i j : String) → action_key i ≡ action_key j → i ≡ j
action_key-injective i j h = append_cancel_left "action:" i j h

abbrev first_code : String → ℕ
first_code String.[] = 0
first_code (String.◌∷◌ c s) = code c

pub send_text-ne : (i : String) → ◌≢◌ {A = String} "send_text" (action_key i)
send_text-ne i h = omega (arith, ap first_code (h ∙ cons-append "a" "ction:" i))

pub mention-ne : (i : String) → ◌≢◌ {A = String} "mention:sales" (action_key i)
mention-ne i h = omega (arith, ap first_code (h ∙ cons-append "a" "ction:" i))

-- the key of an action's effect is the action's; that of another effect is no action's
abbrev pub KeyedBy : Option String → String → Type 0
KeyedBy (some action_id) effect_key = effect_key ≡ action_key action_id
KeyedBy none effect_key = (action_id : String) → effect_key ≢ action_key action_id

abbrev pub IsKeyed : IssuedEffect → Type 0
IsKeyed e = KeyedBy e.action_id e.effect_key

keyed_action : (i : String) (o : Option String) → KeyedBy o (action_key i) → (o == some i) ≡ true
keyed_action i none h = absurd (h i refl)
keyed_action i (some j) h = ground (arith, eq_iff j i, action_key-injective i j h)

abbrev has_key : String → List IssuedEffect → Bool
has_key key effects = any (λ e. e.effect_key == key) effects

find_effect-action :
    (i : String) (effects : List IssuedEffect)
    → All IsKeyed effects
    → has_key (action_key i) effects ≡ true
    → effect_has_action i (find_effect (action_key i) effects) ≡ true
find_effect-action i [] keyed h = absurd (cc)
find_effect-action i (e ∷ es) keyed h = elim (Bool-cases (e.effect_key == action_key i)) [
  | inl here ↦ rw here (
      keyed_action i e.action_id
        (subst (KeyedBy e.action_id) ((eq_iff e.effect_key (action_key i)).0 here) keyed.0))
  | inr later ↦ rw later (find_effect-action i es keyed.1 (ground (arith, later, h)))
]

-- an entry of the action index whose key finds the effect of its action
abbrev pub LeadsToEffect :
    ConversationStateKey → String → List IssuedEffect → String × ActionKey → Type 0
LeadsToEffect state_key response_id effects (i, (s, r, key)) =
    (s ≡ state_key) × (r ≡ response_id) × (effect_has_action i (find_effect key effects) ≡ true)

module _ (state_key : ConversationStateKey) (response_id : String) (effects : List IssuedEffect)
    (keyed : All IsKeyed effects) where
  leads :
      (rest : List IssuedEffect)
      → All IsKeyed rest
      → All (λ e. has_key e.effect_key effects ≡ true) rest
      → All
          (LeadsToEffect state_key response_id effects)
          (action_entries state_key response_id rest)
  unfolding action_entries
  leads [] k present = tt
  leads (e ∷ es) k present = elim (Option-cases e.action_id) [
    | inl plain ↦ rw plain (leads es k.1 present.1)
    | inr (i, acts) ↦
        let named : e.effect_key ≡ action_key i = subst (λ o. KeyedBy o e.effect_key) acts k.0 in
        rw acts (
          (refl, refl, rw named (find_effect-action i effects keyed (rw named at present.0))),
          leads es k.1 present.1,
        )
  ]

has_key_self :
    (effects : List IssuedEffect) → All (λ e. has_key e.effect_key effects ≡ true) effects
has_key_self [] = tt
has_key_self (e ∷ es) = (
  ground (arith, eq_refl e.effect_key),
  All-map _ _ (λ x h. ground (arith, h)) es (has_key_self es),
)

mention_effects-IsKeyed : (ms : List ReplyMention) → All IsKeyed (mention_effects ms)
unfolding mention_effects response_effect
mention_effects-IsKeyed [] = tt
mention_effects-IsKeyed (m ∷ ms) = (mention-ne, mention_effects-IsKeyed ms)

pub derive_issued_effects-IsKeyed :
    (response : ReplyResponse) → All IsKeyed (derive_issued_effects response)
unfolding derive_issued_effects response_effect action_effect
derive_issued_effects-IsKeyed response =
    All-append IsKeyed _ _
      (if_elim (All IsKeyed) (response.reply.kind != no_reply && non_empty response.reply.text)
        (response_effect "send_text" send_text ∷ []) [] (send_text-ne, tt) tt)
      (All-append IsKeyed _ _ (mention_effects-IsKeyed response.reply.mentions)
        (All-mapped action_effect IsKeyed response.actions (all_actions response.actions)))
  where
    all_actions : (actions : List OutboundAction) → All (λ a. IsKeyed (action_effect a)) actions
    all_actions [] = tt
    all_actions (a ∷ as') = (refl, all_actions as')

-- Each entry that a response puts into the action index leads to its action's effect.
pub action_entries-LeadsToEffect :
    (state_key : ConversationStateKey) (response : ReplyResponse)
    → All
        (LeadsToEffect state_key response.response_id (derive_issued_effects response))
        (action_entries state_key response.response_id (derive_issued_effects response))
action_entries-LeadsToEffect state_key response =
    leads state_key response.response_id (derive_issued_effects response)
      (derive_issued_effects-IsKeyed response) (derive_issued_effects response)
      (derive_issued_effects-IsKeyed response) (has_key_self (derive_issued_effects response))
