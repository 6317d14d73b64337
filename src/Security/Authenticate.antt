-- ===== src/Security/Authenticate.antt =====
-- framework/security.py: authenticate_request, with the bootstrap key, API keys and bearer tokens. The
-- parameters are those of the modules used: SHA-256, the text of a JSON array or object, and PyJWT.
use json_api_forge.Prelude.{
  ℕ, zero, suc, Bool, true, false, not, Option, none, some, List, [], ltb, length, keep, http_error,
  Result, ok, err, reject_if, ◌+◌, ◌/◌, ◌%◌, ◌&&◌, ◌||◌, ◌∷◌, ◌++◌, if◌then◌else◌, ◌>>=◌, ◌>>◌,
}
use json_api_forge.Prelude.Dict.{Dict}
use json_api_forge.Prelude.Text.{Text, text_eq, text_beq, codes}
use json_api_forge.Prelude.Parts.{split}
use json_api_forge.Security.Permissions.{
  Role, Principal, bootstrap, api_key, anonymous, expand_role_permissions,
}
use json_api_forge.Security.Delegation.{expanded}
use json_api_forge.Security.Claims.{Json, JwtConfig, bearer_token, accept_token}
use json_api_forge.Security.ApiKeys.{
  ApiKey, Keys, find_row, past, cached_api_key_row, store_api_key_row, bootstrap_is_available,
}

-- The parts of ProjectConfig that authentication reads; `settings_bootstrap_key` is that of the
-- process's settings.
pub record Project : Type 0 where
  pub slug : Text
  pub roles : Dict Text Role
  pub bootstrap_enabled : Bool
  pub bootstrap_admin_key : Option Text
  pub settings_bootstrap_key : Option Text
  pub bootstrap_one_time : Bool
  pub allow_query_api_key : Bool
  pub allow_websocket_query_api_key : Bool
  pub cache_ttl : ℕ
  pub cache_max_entries : ℕ
  pub jwt : JwtConfig

-- The API key's header, the query's `api_key`, whether it is a websocket, and Authorization.
pub record Request : Type 0 where
  pub header_key : Option Text
  pub query_key : Option Text
  pub websocket : Bool
  pub authorization : Text

abbrev pub is_blank : Option Text → Bool
is_blank none = true
is_blank (some []) = true
is_blank (some (c ∷ t)) = false

unfoldable pub raw_key_of : Project → Request → Option Text
raw_key_of p r =
    if is_blank r.header_key
      && (p.allow_query_api_key || (r.websocket && p.allow_websocket_query_api_key))
    then r.query_key
    else r.header_key

unfoldable pub bootstrap_key : Project → Option Text
bootstrap_key p =
    if p.bootstrap_enabled
    then if is_blank p.bootstrap_admin_key then p.settings_bootstrap_key else p.bootstrap_admin_key
    else none

-- `bootstrap and hmac.compare_digest(raw_key, bootstrap)`
abbrev pub is_bootstrap : Text → Option Text → Bool
is_bootstrap raw none = false
is_bootstrap raw (some []) = false
is_bootstrap raw (some (c ∷ key)) = text_beq raw (c ∷ key)

abbrev pub bootstrap_principal : Text → Principal
bootstrap_principal slug = record {
  kind = bootstrap;
  subject = codes "bootstrap:" ++ slug;
  roles = [];
  permissions = codes "admin.keys.create" ∷ codes "admin.credentials.delegate_any" ∷ [];
  tenant_id = none;
  key_id = none;
  rate_requests = none;
  rate_window_seconds = none;
  rate_burst = none;
  expires_at = none;
}

abbrev pub anonymous_principal : Principal
anonymous_principal = record {
  kind = anonymous;
  subject = codes "anonymous";
  roles = [];
  permissions = [];
  tenant_id = none;
  key_id = none;
  rate_requests = none;
  rate_window_seconds = none;
  rate_burst = none;
  expires_at = none;
}

-- The digits of `n`, of which there are fewer than `fuel`.
unfoldable pub digits : ℕ → ℕ → Text
digits zero n = []
digits (suc fuel) n =
    let front = digits fuel (n / 10) in
    if ltb n 10 then (48 + n) ∷ [] else front ++ (48 + n % 10) ∷ []

-- {x for x in s.split(",") if x}
unfoldable pub parts : Text → List Text
parts s = keep (λ (x : Text). not (text_beq x [])) (split 44 s)

unfoldable pub key_principal : ApiKey → List Text → Principal
unfolding digits parts
key_principal row inherited = record {
  kind = api_key;
  subject = codes "api-key:" ++ (digits (suc row.id) row.id ++ (58 ∷ row.name));
  roles = parts row.roles;
  permissions = parts row.permissions ++ inherited;
  tenant_id = row.tenant_id;
  key_id = some row.id;
  rate_requests = row.rate_requests;
  rate_window_seconds = row.rate_window_seconds;
  rate_burst = row.rate_burst;
  expires_at = row.expires_at;
}

abbrev pub is_over : Option ℕ → ℕ → Bool
is_over none now = false
is_over (some t) now = ltb t now

-- What `authenticate_request` makes of the row that it has found.
unfoldable pub accept_row : Dict Text Role → ℕ → Option ApiKey → Result Principal
unfolding parts key_principal
accept_row roles now none = err (http_error 401 "Invalid API key")
accept_row roles now (some row) = do
  reject_if (not row.enabled) (http_error 401 "Invalid API key")
  reject_if (is_over row.expires_at now) (http_error 401 "Expired API key")
  inherited ← expanded (expand_role_permissions roles (parts row.roles))
  ok (key_principal row inherited)

-- A row from the database goes to the cache while it is enabled and has not expired.
unfoldable pub remember : Project → Text → ℕ → ℕ → Option ApiKey → Keys → Keys
remember p hash mono now none s = s
remember p hash mono now (some row) s =
    if row.enabled && not (past row.expires_at now)
    then store_api_key_row p.cache_ttl p.cache_max_entries p.slug hash row mono s
    else s

-- The row of a key: the cached one, or else the one in the database.
unfoldable pub row_of : Project → Text → ℕ → ℕ → Option ApiKey × Keys → Option ApiKey × Keys
unfolding remember
row_of p hash mono now (some row, s) = (some row, s)
row_of p hash mono now (none, s) =
    let loaded = find_row p.slug hash s.api_keys in (loaded, remember p hash mono now loaded s)

unfoldable pub authenticate_key : Project → Text → ℕ → ℕ → Keys → Result Principal × Keys
unfolding row_of accept_row
authenticate_key p hash mono now s =
    let (row, t) = row_of p hash mono now (cached_api_key_row p.cache_ttl p.slug hash mono now s) in
    (accept_row p.roles now row, t)

unfoldable pub authenticate_bootstrap : Project → Keys → Result Principal
authenticate_bootstrap p s =
    if p.bootstrap_one_time && not (bootstrap_is_available p.slug s)
    then err (http_error 401 "Bootstrap credential has already been consumed")
    else ok (bootstrap_principal p.slug)

module _ (hash_key : Text → Text) (str : Json → Text) (decode : Text → Result Json) where
  unfoldable pub authenticate_bearer : Project → Option Text → Result Principal
  authenticate_bearer p none = ok anonymous_principal
  authenticate_bearer p (some token) =
      if p.jwt.jwt_enabled
      then accept_token str p.slug p.roles p.jwt decode token
      else ok anonymous_principal

  -- the branches of `authenticate_request` on `raw_key`
  unfoldable pub authenticate_raw :
      Project → Request → Option Text → ℕ → ℕ → Keys → Result Principal × Keys
  unfolding authenticate_bearer authenticate_bootstrap bootstrap_key authenticate_key
  authenticate_raw p r none mono now s = (authenticate_bearer p (bearer_token r.authorization), s)
  authenticate_raw p r (some []) mono now s = (err (http_error 401 "Invalid API key"), s)
  authenticate_raw p r (some (c ∷ raw)) mono now s =
      if ltb 512 (length (c ∷ raw))
      then (err (http_error 401 "Invalid API key"), s)
      else if is_bootstrap (c ∷ raw) (bootstrap_key p)
      then (authenticate_bootstrap p s, s)
      else authenticate_key p (hash_key (c ∷ raw)) mono now s

  unfoldable pub authenticate_request : Project → Request → ℕ → ℕ → Keys → Result Principal × Keys
  unfolding authenticate_raw raw_key_of
  authenticate_request p r mono now s = authenticate_raw p r (raw_key_of p r) mono now s
