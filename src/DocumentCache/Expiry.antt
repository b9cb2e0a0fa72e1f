-- ===== src/DocumentCache/Expiry.antt =====
-- What the cache answers after a value is set.
use market_support_crewai_ag.Prelude.{
  Bool-cases, Option, String, ap, arith, bool_Eq, eq_iff, false, if◌then◌else◌, inl, inr, leb,
  list_Eq, nat_Eq, none, option_Eq, pair_Eq, refl, some, string_Eq, subst, triple_Eq, true, ℕ, ◌+◌,
  ◌<◌, ◌==◌, ◌∙◌, ◌≡◌, ◌≢◌,
}
use market_support_crewai_ag.DocumentCache.{
  Store, cache_get, cache_set, is_cache_key_ref, looked_up,
}
use market_support_crewai_ag.Errors.{some-injective}
use market_support_crewai_ag.FrozenMap.{get, insert}
use market_support_crewai_ag.FrozenMap.Laws.{get-insert_ne, get-insert_self}
use market_support_crewai_ag.Identity.{
  pair_Repr, scene_Eq, state_key_Eq, state_key_Repr, string_Repr, triple_Repr,
}
use market_support_crewai_ag.Schemas.{execution_type_Eq, reply_kind_Eq, status_Eq}
use market_support_crewai_ag.Text.{codes}
use mathlib.Core.Option

module _ {V : Type 0} where
  -- the answer depends on what is stored under the key alone
  looked_up-answer :
      (j : String) (t : ℕ) (a b : Store V) (o : Option (ℕ × V))
      → (looked_up j t a o).0 ≡ (looked_up j t b o).0
  looked_up-answer j t a b none = refl
  looked_up-answer j t a b (some (expires_at, value)) = ground arith

  cache_get-answer :
      (j : String) (t : ℕ) (a b : Store V)
      → get j a ≡ get j b
      → Option.map (λ (r : Option V × Store V). r.0) (cache_get j t a)
        ≡ Option.map (λ (r : Option V × Store V). r.0) (cache_get j t b)
  unfolding cache_get
  cache_get-answer j t a b same = elim (Bool-cases (is_cache_key_ref (codes j))) [
    | inr refused ↦ rw refused refl
    | inl accepted ↦ rw accepted (
        ap some (
          ap (λ (o : Option (ℕ × V)). (looked_up j t a o).0) same
          ∙ looked_up-answer j t a b (get j b)))
  ]

  cache_set-some :
      (key : String) (value : V) (ttl now : ℕ) (store store' : Store V)
      → cache_set key value ttl now store ≡ some store'
      → 0 < ttl
      → (is_cache_key_ref (codes key) ≡ true) × (insert key (now + ttl, value) store ≡ store')
  unfolding cache_set
  cache_set-some key value ttl now store store' done positive =
      elim (Bool-cases (is_cache_key_ref (codes key))) [
        | inr refused ↦ absurd (ground (arith, rw refused at done))
        | inl accepted ↦
            let lasts : (ttl == 0) ≡ false = ground (arith, positive, eq_iff ttl 0) in
            (accepted, some-injective (rw (accepted, lasts) at done))
      ]

  cache_get-own :
      (key : String) (value : V) (expires_at t : ℕ) (store : Store V)
      → is_cache_key_ref (codes key) ≡ true
      → Option.map
          (λ (r : Option V × Store V). r.0)
          (cache_get key t (insert key (expires_at, value) store))
        ≡ some (if leb expires_at t then none else some value)
  unfolding cache_get
  cache_get-own key value expires_at t store accepted = rw accepted (
      rw get-insert_self (elim (Bool-cases (leb expires_at t)) [
        | inl over ↦ rw over refl
        | inr live ↦ rw live refl
      ]))

  -- A value that is set is answered until its time to live ends and not after, and the answers for
  -- the other keys do not change.
  pub cache_get-set :
      (key : String) (value : V) (ttl now : ℕ) (store store' : Store V)
      → cache_set key value ttl now store ≡ some store'
      → 0 < ttl
      → ((t : ℕ)
          → Option.map (λ (r : Option V × Store V). r.0) (cache_get key t store')
            ≡ some (if leb (now + ttl) t then none else some value))
        × ((j : String) (t : ℕ)
            → j ≢ key
            → Option.map (λ (r : Option V × Store V). r.0) (cache_get j t store')
              ≡ Option.map (λ (r : Option V × Store V). r.0) (cache_get j t store))
  cache_get-set key value ttl now store store' done positive =
      let (accepted, stored) = cache_set-some key value ttl now store store' done positive in
      (
        λ t.
            subst
              (λ (x : Store V).
                Option.map (λ (r : Option V × Store V). r.0) (cache_get key t x)
                ≡ some (if leb (now + ttl) t then none else some value))
              stored (cache_get-own key value (now + ttl) t store accepted),
        λ j t differ.
            subst
              (λ (x : Store V).
                Option.map (λ (r : Option V × Store V). r.0) (cache_get j t x)
                ≡ Option.map (λ (r : Option V × Store V). r.0) (cache_get j t store))
              stored
              (cache_get-answer j t (insert key (now + ttl, value) store) store
                (get-insert_ne j key _ store differ)),
      )
