-- ===== src/Security/Race.antt =====
-- framework/security.py, authenticate_request: between the read of a key's row and its entry in the cache
-- the login waits for the database, and a revocation can come in between.
use json_api_forge.Prelude.{ℕ, true, none, some, [], arith, beq_refl, ◌+◌, ◌<◌, ◌≡◌, ◌∷◌, string_eq}
use json_api_forge.Prelude.Dict.{lookup, assign, pop, move_to_end}
use json_api_forge.Prelude.Text.{Text, text_eq, text_beq}
use json_api_forge.Security.ApiKeys.{
  ApiKey, Keys, pair_eq, find_row, trim, clear_cache, store_api_key_row, read_cached,
  cached_api_key_row, revoke_api_key,
}
use json_api_forge.Security.Authenticate.{Project, accept_row, remember, authenticate_key}

text_beq_refl : (t : Text) → text_beq t t ≡ true
text_beq_refl t = beq_refl t

-- The cache with one entry, as `store_api_key_row` leaves it.
stored_alone :
    (ttl n mono : ℕ) (slug hash : Text) (row : ApiKey) (s : Keys)
    → 0 < ttl
    → 0 < n
    → s.auth_cache ≡ []
    → (store_api_key_row ttl n slug hash row mono s).auth_cache
      ≡ ((slug, hash), (mono + ttl, row)) ∷ []
unfolding store_api_key_row trim assign move_to_end pop lookup
stored_alone ttl n mono slug hash row s h k e =
    rw e (ground (arith, text_beq_refl slug, text_beq_refl hash))

cleared_empty :
    (slug : Text) (id : ℕ) (s : Keys)
    → s.auth_cache ≡ []
    → (revoke_api_key slug id s).1.auth_cache ≡ []
unfolding revoke_api_key clear_cache
cleared_empty slug id s e = rw e (ground arith)

remembered :
    (p : Project) (hash : Text) (mono now : ℕ) (row : ApiKey) (s : Keys)
    → row.enabled ≡ true
    → row.expires_at ≡ none
    → remember p hash mono now (some row) s
      ≡ store_api_key_row p.cache_ttl p.cache_max_entries p.slug hash row mono s
unfolding remember
remembered p hash mono now row s on e = ground arith

hit :
    (p : Project) (hash : Text) (later now expires : ℕ) (row : ApiKey) (s : Keys)
    → s.auth_cache ≡ ((p.slug, hash), (expires, row)) ∷ []
    → 0 < p.cache_ttl
    → later < expires
    → row.expires_at ≡ none
    → (authenticate_key p hash later now s).0 ≡ accept_row p.roles now (some row)
unfolding authenticate_key cached_api_key_row lookup read_cached
hit p hash later now expires row s e h k n =
    rw e (ground (arith, text_beq_refl p.slug, text_beq_refl hash))

-- When a key that is enabled and does not expire is revoked after a login has read its row and before
-- the login has cached that row, and the cache was empty, the next login within the cache's time to
-- live ends as if the key had not been revoked.
pub revoked_key_accepted :
    (p : Project) (hash : Text) (mono now later then_now : ℕ) (row : ApiKey) (s : Keys)
    → s.auth_cache ≡ []
    → find_row p.slug hash s.api_keys ≡ some row
    → row.enabled ≡ true
    → row.expires_at ≡ none
    → 0 < p.cache_ttl
    → 0 < p.cache_max_entries
    → later < mono + p.cache_ttl
    → (authenticate_key p hash later then_now (
        remember p hash mono now
          (find_row p.slug hash s.api_keys)
          (revoke_api_key p.slug row.id s).1)).0
      ≡ accept_row p.roles then_now (some row)
revoked_key_accepted p hash mono now later then_now row s empty found on forever ttl room soon =
    rw (found, remembered p hash mono now row (revoke_api_key p.slug row.id s).1 on forever)
      (hit p hash later then_now (mono + p.cache_ttl) row _
        (stored_alone p.cache_ttl p.cache_max_entries mono p.slug hash row _ ttl room
          (cleared_empty p.slug row.id s empty))
        ttl soon forever)
