-- ===== src/Tests/Keys.antt =====
-- framework/security.py: one key that is created, used, revoked and used again.
use json_api_forge.Prelude.{
  ◌⊎◌, refl, true, false, none, some, List, [], arith, length, http_error, Result, ok, err, ◌≤◌,
  ◌≡◌, ◌∷◌, string_eq,
}
use json_api_forge.Prelude.Dict.{lookup}
use json_api_forge.Prelude.Text.{Text, text_eq, codes}
use json_api_forge.Prelude.Parts.{split}
use json_api_forge.Security.Permissions.{Principal, expand_role_permissions, jwt}
use json_api_forge.Security.Delegation.{expanded}
use json_api_forge.Security.Claims.{
  null, Json, JwtConfig, claim, trusted_set, trusted_tenant, accept_payload, accept_token, text,
  object, no_members, member,
}
use json_api_forge.Security.Tokens.{token_names_project, untrusted_claims_ignored}
use json_api_forge.Security.ApiKeys.{
  cached_api_key_row, store_api_key_row, ApiKey, Keys, is_row, find_row, consume_bootstrap,
  create_api_key, revoke_api_key,
}
use json_api_forge.Security.Authenticate.{
  remember, Project, Request, accept_row, authenticate_key, authenticate_bootstrap,
  authenticate_request,
}
use json_api_forge.Security.Sessions.{Event, logs_in, creates, step, run, cache_is_transparent}
use json_api_forge.Security.Revoked.{revoked_for_good, bootstrap_only_once}
use json_api_forge.Security.Race.{revoked_key_accepted}

abbrev jwt_config : JwtConfig
jwt_config = record {
  jwt_enabled = true;
  jwks = true;
  subject_claim = codes "sub";
  roles_claim = codes "roles";
  permissions_claim = codes "permissions";
  tenant_claim = codes "tenant_id";
  project_claim = codes "project";
  require_project_claim = true;
  trust_roles_claim = false;
  trust_permissions_claim = false;
  trust_tenant_claim = false;
}

abbrev project : Project
project = record {
  slug = codes "demo";
  roles = [];
  bootstrap_enabled = true;
  bootstrap_admin_key = some (codes "root");
  settings_bootstrap_key = none;
  bootstrap_one_time = true;
  allow_query_api_key = false;
  allow_websocket_query_api_key = false;
  cache_ttl = 10;
  cache_max_entries = 100;
  jwt = jwt_config;
}

abbrev key : ApiKey
key = record {
  id = 0;
  project_slug = codes "demo";
  name = codes "k";
  key_hash = codes "h";
  roles = [];
  permissions = codes "tasks.read";
  tenant_id = none;
  rate_requests = none;
  rate_window_seconds = none;
  rate_burst = none;
  enabled = true;
  expires_at = none;
}

abbrev empty : Keys
empty = record { api_keys = []; next_id = 7; bootstrap_state = []; auth_cache = [] }

abbrev stored : ApiKey
stored = record key { id = 7 }

abbrev request : Request
request = record {
  header_key = some (codes "h");
  query_key = none;
  websocket = false;
  authorization = [];
}

-- Every text is its own hash.
abbrev hash_key : Text → Text
hash_key t = t

abbrev str : Json → Text
str j = []

abbrev payload : Json
payload = object (
    member (codes "sub") (text (codes "ann")) (
      member (codes "project") (text (codes "demo"))
        (member (codes "roles") (text (codes "admin")) no_members)))

abbrev decode : Text → Result Json
decode t = ok payload

abbrev before : List Event
before = creates key true 0 ∷ logs_in project request 0 0 ∷ []

abbrev after : List Event
after = logs_in project request 1 1 ∷ []

cache_is_transparent_example :
    (authenticate_key project (codes "h") 1 1 (run hash_key str decode before empty)).0
    ≡ accept_row [] 1
        (find_row (codes "demo") (codes "h") (run hash_key str decode before empty).api_keys)
cache_is_transparent_example =
    cache_is_transparent hash_key str decode before empty project (codes "h") 1 1 refl

revoked_for_good_example :
    (authenticate_key project (codes "h") 2 2 (
      run hash_key str decode after
        (revoke_api_key (codes "demo") 7 (run hash_key str decode before empty)).1)).0
    ≡ err (http_error 401 "Invalid API key")
unfolding run step create_api_key authenticate_request authenticate_key cached_api_key_row
    store_api_key_row find_row is_row lookup
revoked_for_good_example =
    revoked_for_good hash_key str decode before after empty project (codes "h") 2 2 stored refl refl

bootstrap_only_once_example :
    (authenticate_bootstrap project
        (run hash_key str decode after (create_api_key key true 0 empty).1)
      ≡ err (http_error 401 "Bootstrap credential has already been consumed"))
    × (create_api_key key true 5 (run hash_key str decode after (create_api_key key true 0 empty).1)
        ≡ (
          err (http_error 401 "Bootstrap credential has already been consumed"),
          run hash_key str decode after (create_api_key key true 0 empty).1,
        ))
unfolding create_api_key consume_bootstrap lookup
bootstrap_only_once_example =
    bootstrap_only_once hash_key str decode key key 0 5 empty after project refl refl refl refl

abbrev ann : Principal
ann = record {
  kind = jwt;
  subject = codes "ann";
  roles = [];
  permissions = [];
  tenant_id = none;
  key_id = none;
  rate_requests = none;
  rate_window_seconds = none;
  rate_burst = none;
  expires_at = none;
}

token_names_project_example :
    (p : Json) × (length (codes "token") ≤ 8192)
    × (ok payload ≡ ok p)
    × ((claim p (codes "project") ≡ text (codes "demo"))
        ⊎ ((claim p (codes "project") ≡ null) × (true ≡ false)))
unfolding accept_token accept_payload trusted_set trusted_tenant claim split expanded
    expand_role_permissions
token_names_project_example =
    token_names_project str (codes "demo") [] jwt_config decode (codes "token") ann refl

untrusted_claims_ignored_example :
    (ann.roles ≡ []) × (ann.permissions ≡ []) × (ann.tenant_id ≡ none)
unfolding accept_token accept_payload trusted_set trusted_tenant claim split expanded
    expand_role_permissions
untrusted_claims_ignored_example =
    untrusted_claims_ignored str (codes "demo") [] jwt_config decode (codes "token") ann refl refl
      refl refl refl

abbrev one_key : Keys
one_key = record { api_keys = stored ∷ []; next_id = 8; bootstrap_state = []; auth_cache = [] }

revoked_key_accepted_example :
    (authenticate_key project (codes "h") 5 5 (
      remember project
        (codes "h")
        0
        0
        (find_row (codes "demo") (codes "h") one_key.api_keys)
        (revoke_api_key (codes "demo") 7 one_key).1)).0
    ≡ accept_row [] 5 (some stored)
unfolding find_row is_row
revoked_key_accepted_example =
    revoked_key_accepted project (codes "h") 0 0 5 5 stored one_key refl refl refl refl
      (omega arith) (omega arith) (omega arith)
