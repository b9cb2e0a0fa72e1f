-- ===== src/Identity.antt =====
-- ConversationStateKey (src/market_support_crewai_agent/runtime/identity/models.py) and its
-- canonical bytes (runtime/identity/state_key.py).
use market_support_crewai_ag.Prelude.{
  Bool, Eq, List, String, [], arith, bool_Eq, eq_iff, false, lex_le, list_Eq, nat_Eq, option_Eq,
  pair_Eq, refl, sort_by, string_Eq, triple_Eq, true, ℕ, ◌&&◌, ◌++◌, ◌==◌, ◌↔◌, ◌∷◌, ◌≡◌,
}
use market_support_crewai_ag.FrozenMap.{Repr}
use market_support_crewai_ag.Text.{Bytes, codes, decimal, json_string, repr_string}

pub data Surface : Type 0 where
  wecom : Surface

pub data Scene : Type 0 where
  group direct : Scene

pub record ConversationStateKey : Type 0 where
  pub surface : Surface
  pub adapter_namespace : String
  pub tenant_ref : String
  pub scene : Scene
  pub subject_ref : String
  pub principal_ref : String

abbrev pub scene_eq : Scene → Scene → Bool
scene_eq group group = true
scene_eq direct direct = true
scene_eq _ _ = false

pub scene_eq_iff : (a b : Scene) → (scene_eq a b ≡ true) ↔ (a ≡ b)
scene_eq_iff a b = ground arith

instance abbrev pub scene_Eq : Eq Scene
scene_Eq = record { same = scene_eq; same_iff = scene_eq_iff }

abbrev state_key_eq : ConversationStateKey → ConversationStateKey → Bool
state_key_eq a b =
    a.adapter_namespace == b.adapter_namespace
    && (a.tenant_ref == b.tenant_ref
        && (a.scene == b.scene
            && (a.subject_ref == b.subject_ref && a.principal_ref == b.principal_ref)))

surface-prop : (a b : Surface) → a ≡ b
surface-prop wecom wecom = refl

state_key_eq_iff : (a b : ConversationStateKey) → (state_key_eq a b ≡ true) ↔ (a ≡ b)
state_key_eq_iff a b = ground (
  arith,
  surface-prop a.surface b.surface,
  eq_iff a.adapter_namespace b.adapter_namespace,
  eq_iff a.tenant_ref b.tenant_ref,
  eq_iff a.scene b.scene,
  eq_iff a.subject_ref b.subject_ref,
  eq_iff a.principal_ref b.principal_ref,
)

-- shut, so that proofs see only `eq_iff`
unfoldable pub state_key_beq : ConversationStateKey → ConversationStateKey → Bool
state_key_beq = state_key_eq

pub state_key_beq_iff : (a b : ConversationStateKey) → (state_key_beq a b ≡ true) ↔ (a ≡ b)
unfolding state_key_beq
state_key_beq_iff = state_key_eq_iff

instance abbrev pub state_key_Eq : Eq ConversationStateKey
state_key_Eq = record { same = state_key_beq; same_iff = state_key_beq_iff }

surface_name : Surface → String
surface_name wecom = "wecom"

scene_name : Scene → String
scene_name group = "group"
scene_name direct = "direct"

-- the values of `dict[str, str | int]`
pub data Scalar : Type 0 where
  text : String → Scalar
  number : ℕ → Scalar

unfoldable pub canonical_state_key_payload : ConversationStateKey → List (String × Scalar)
unfolding surface_name scene_name
canonical_state_key_payload key =
    ("version", number 1)
    ∷ ("surface", text (surface_name key.surface))
    ∷ ("adapter_namespace", text key.adapter_namespace)
    ∷ ("tenant_ref", text key.tenant_ref)
    ∷ ("scene", text (scene_name key.scene))
    ∷ ("subject_ref", text key.subject_ref)
    ∷ ("principal_ref", text key.principal_ref)
    ∷ []

json_scalar : Scalar → List ℕ
unfolding json_string codes decimal
json_scalar (text s) = json_string (codes s)
json_scalar (number n) = decimal n

json_item : String × Scalar → List ℕ
unfolding json_scalar
json_item (k, v) = json_string (codes k) ++ (b':' ∷ json_scalar v)

json_items : List (String × Scalar) → List ℕ
unfolding json_item
json_items [] = []
json_items (i ∷ []) = json_item i
json_items (i ∷ j ∷ is) = json_item i ++ (b',' ∷ json_items (j ∷ is))

-- `json.dumps(value, sort_keys=True, separators=(",", ":")).encode("utf-8")`; the text is ASCII
unfoldable pub canonical_json_bytes : List (String × Scalar) → Bytes
unfolding json_items sort_by codes
canonical_json_bytes value =
    (b'{' ∷ json_items (sort_by (λ a b. lex_le (codes a.0) (codes b.0)) value)) ++ b'}' ∷ []

-- `repr` of the dataclass
unfoldable pub repr_state_key : ConversationStateKey → List ℕ
unfolding codes repr_string surface_name scene_name
repr_state_key key =
    codes "ConversationStateKey(surface="
    ++ repr_string (codes (surface_name key.surface))
    ++ codes ", adapter_namespace="
    ++ repr_string (codes key.adapter_namespace)
    ++ codes ", tenant_ref="
    ++ repr_string (codes key.tenant_ref)
    ++ codes ", scene="
    ++ repr_string (codes (scene_name key.scene))
    ++ codes ", subject_ref="
    ++ repr_string (codes key.subject_ref)
    ++ codes ", principal_ref="
    ++ repr_string (codes key.principal_ref)
    ++ codes ")"

instance abbrev pub state_key_Repr : Repr ConversationStateKey
state_key_Repr = record { repr = repr_state_key }

unfoldable pub repr_text : String → List ℕ
unfolding codes repr_string
repr_text s = repr_string (codes s)

instance abbrev pub string_Repr : Repr String
string_Repr = record { repr = repr_text }

module _ {A B C : Type 0} ⦃r : Repr A⦄ ⦃s : Repr B⦄ ⦃t : Repr C⦄ where
  unfoldable pub repr_triple : A × B × C → List ℕ
  unfolding codes
  repr_triple (a, b, c) =
      codes "(" ++ r.repr a ++ codes ", " ++ s.repr b ++ codes ", " ++ t.repr c ++ codes ")"

module _ {A B : Type 0} ⦃r : Repr A⦄ ⦃s : Repr B⦄ where
  unfoldable pub repr_pair : A × B → List ℕ
  unfolding codes
  repr_pair (a, b) = codes "(" ++ r.repr a ++ codes ", " ++ s.repr b ++ codes ")"

instance abbrev pub pair_Repr : {A B : Type 0} ⦃r : Repr A⦄ ⦃s : Repr B⦄ → Repr (A × B)
pair_Repr = record { repr = repr_pair }

instance abbrev pub triple_Repr :
    {A B C : Type 0} ⦃r : Repr A⦄ ⦃s : Repr B⦄ ⦃t : Repr C⦄ → Repr (A × B × C)
triple_Repr = record { repr = repr_triple }
