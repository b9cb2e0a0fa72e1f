-- ===== src/Errors.antt =====
-- CoordinatorError and CoordinatorConfigError
-- (src/market_support_crewai_agent/runtime/state/coordinator_errors.py), the other exceptions of
-- the reply state, and the results of code that may raise.
use market_support_crewai_ag.Prelude.{
  Bool, Option, String, false, inl, inr, none, refl, some, true, ◌≡◌, ◌⊎◌,
}

pub data Error : Type 0 where
  reservation_not_found : Error
  conversation_state_changed : Error
  request_id_conflict : Error
  request_in_progress : Error
  conversation_turn_in_progress : Error
  reply_commit_invalid : Error
  state_store_unavailable : Error
  issued_response_store_unavailable : Error
  issued_response_not_found : Error
  feedback_identity_mismatch : Error
  feedback_effect_mismatch : Error
  feedback_effect_duplicate : Error
  feedback_effect_metadata_mismatch : Error
  feedback_effect_conflict : Error
  feedback_token_not_found : Error
  feedback_token_expired : Error
  feedback_id_conflict : Error
  feedback_store_unavailable : Error
  group_audit_required : String → Error
  group_audit_program_scene_invalid : Error
  direct_audit_program_metadata_required : Error
  direct_audit_program_scene_invalid : Error
  config_error : String → Error
  value_error : String → Error
  fault : Error

pub data Result {ℓ} (A : Type ℓ) : Type ℓ where
  err : Error → Result A
  ok : A → Result A

infixl 5 ◌>>=◌ ◌>>◌
-- the next statement, unless this one raises
abbrev pub ◌>>=◌ {μ ν} : {V : Type μ} {W : Type ν} → Result V → (V → Result W) → Result W
err raised >>= next = err raised
ok value >>= next = next value

abbrev pub ◌>>◌ {κ} : {B : Type κ} → Result (Unit {0}) → Result B → Result B
check >> next = check >>= λ _. next

-- `if test: raise e`
abbrev pub raise_if : Bool → Error → Result (Unit {0})
raise_if true e = err e
raise_if false e = ok tt

abbrev pub or_raise {ℓ} : {A : Type ℓ} → Option A → Error → Result A
or_raise none e = err e
or_raise (some a) e = ok a

module _ {ℓ κ} {A : Type ℓ} {B : Type κ} where
  -- a chain that does not raise, taken apart at its first statement
  pub >>=-eq-ok :
      (first : Result A) (next : A → Result B) {result : B}
      → (first >>= next) ≡ ok result
      → (value : A) × (first ≡ ok value) × (next value ≡ ok result)
  >>=-eq-ok (err raised) next h = absurd (cc)
  >>=-eq-ok (ok value) next h = (value, refl, h)

pub Result-cases {ℓ} :
    {A : Type ℓ} (r : Result A) → ((a : A) × (r ≡ ok a)) ⊎ ((e : Error) × (r ≡ err e))
Result-cases (ok a) = inl (a, refl)
Result-cases (err e) = inr (e, refl)

pub ok-injective {ℓ} : {A : Type ℓ} {a b : A} → ok a ≡ ok b → a ≡ b
ok-injective h = cc

pub some-injective {ℓ} : {A : Type ℓ} {a b : A} → some a ≡ some b → a ≡ b
some-injective h = cc
