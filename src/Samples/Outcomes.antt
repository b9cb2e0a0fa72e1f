-- ===== src/Samples/Outcomes.antt =====
-- Shared by the tests: results that are known to be there, and the inputs of a call.
use market_support_crewai_ag.Prelude.{
  Bool, Option, [], false, is_some, none, refl, some, true, ◌∷◌, ◌≡◌,
}
use market_support_crewai_ag.Coordinator.Transactions.{CallInputs}
use market_support_crewai_ag.Errors.{Result, err, ok}
use market_support_crewai_ag.Samples.{test_now, test_uuid}

abbrev pub succeeds {ℓ} : {A : Type ℓ} → Result A → Bool
succeeds (ok a) = true
succeeds (err e) = false

abbrev pub result_or {ℓ} : {A : Type ℓ} → A → Result A → A
result_or a (ok b) = b
result_or a (err e) = a

pub ok-result_or {ℓ} :
    {A : Type ℓ} (a : A) (r : Result A) → succeeds r ≡ true → r ≡ ok (result_or a r)
ok-result_or a (ok b) h = refl
ok-result_or a (err e) h = absurd (cc)

abbrev pub some_or {ℓ} : {A : Type ℓ} → A → Option A → A
some_or a none = a
some_or a (some b) = b

pub some-some_or {ℓ} :
    {A : Type ℓ} (a : A) (o : Option A) → is_some o ≡ true → o ≡ some (some_or a o)
some-some_or a none h = absurd (cc)
some-some_or a (some b) h = refl

abbrev pub test_inputs : CallInputs
test_inputs = record {
  cleanup_ns = 100;
  cleanup_ms = 1000;
  now = test_now;
  created_ns = 101;
  transaction_id = λ n. n ∷ [];
  uuid = test_uuid;
}
