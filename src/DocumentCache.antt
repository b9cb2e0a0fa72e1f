-- ===== src/DocumentCache.antt =====
-- `TtlCache` of src/market_support_crewai_agent/runtime/integrations/document_mcp/cache.py. Times
-- are those of the monotonic clock; `none` of the outer Option is the DocumentCacheKeyError.
pub mod Expiry
use market_support_crewai_ag.Prelude.{
  Bool, List, Option, String, [], all, bool_Eq, drop, if◌then◌else◌, leb, length, list_Eq, nat_Eq,
  none, not, option_Eq, pair_Eq, some, string_Eq, take, triple_Eq, ℕ, ◌&&◌, ◌+◌, ◌==◌, ◌||◌, ◌∷◌,
}
use market_support_crewai_ag.FrozenMap.{FrozenMap, get, insert, without_keys}
use market_support_crewai_ag.Identity.{
  pair_Repr, scene_Eq, state_key_Eq, state_key_Repr, string_Repr, triple_Repr,
}
use market_support_crewai_ag.Schemas.{execution_type_Eq, reply_kind_Eq, status_Eq}
use market_support_crewai_ag.Text.{codes}

abbrev pub Store : Type 0 → Type 0
Store V = FrozenMap String (ℕ × V)

is_hex : ℕ → Bool
is_hex c = (leb b'0' c && leb c b'9') || (leb b'a' c && leb c b'f')

-- `^ck1:[0-9a-f]{64}$`, matched in full
unfoldable pub is_cache_key_ref : List ℕ → Bool
unfolding is_hex codes
is_cache_key_ref key =
    take 4 key == codes "ck1:" && (length (drop 4 key) == 64 && all is_hex (drop 4 key))

module _ {V : Type 0} where
  abbrev pub looked_up : String → ℕ → Store V → Option (ℕ × V) → Option V × Store V
  looked_up key now store none = (none, store)
  looked_up key now store (some (expires_at, value)) =
      if leb expires_at now then (none, without_keys store (key ∷ [])) else (some value, store)

  -- `get`
  unfoldable pub cache_get : String → ℕ → Store V → Option (Option V × Store V)
  unfolding is_cache_key_ref codes
  cache_get key now store =
      if not (is_cache_key_ref (codes key))
      then none
      else some (looked_up key now store (get key store))

  -- `set`, where a time to live that is not positive is 0
  unfoldable pub cache_set : String → V → ℕ → ℕ → Store V → Option (Store V)
  unfolding is_cache_key_ref codes
  cache_set key value ttl now store =
      if not (is_cache_key_ref (codes key))
      then none
      else if ttl == 0
      then some store
      else some (insert key (now + ttl, value) store)

  -- `clear`
  abbrev pub cache_clear : Store V → Store V
  cache_clear store = []
