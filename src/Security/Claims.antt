-- ===== src/Security/Claims.antt =====
-- framework/security.py: _claim, _claim_set, and the part of authenticate_request that makes a
-- principal of a bearer token. PyJWT is a parameter: `decode` verifies the token, under the project's
-- provider, and returns its payload or the HTTP error that the code makes of PyJWT's exception; `str`
-- is Python's text of an array or an object.
use json_api_forge.Prelude.{
  Bool, true, false, not, Option, none, some, List, [], map, ltb, length, http_error, Result, ok,
  reject_if, ◌&&◌, ◌||◌, ◌∷◌, ◌++◌, if◌then◌else◌, ◌>>=◌, ◌>>◌,
}
use json_api_forge.Prelude.Dict.{Dict}
use json_api_forge.Prelude.Text.{Text, text_eq, text_beq, codes, starts_with}
use json_api_forge.Prelude.Parts.{split, partition, to_lower}
use json_api_forge.Security.Permissions.{Role, Principal, jwt, expand_role_permissions}
use json_api_forge.Security.Delegation.{expanded}

-- A JSON value; a number or a Boolean is kept as its text.
mutual
  pub data Json : Type 0 where
    null : Json
    text : Text → Json
    scalar : Text → Json
    array : Elements → Json
    object : Members → Json

  pub data Elements : Type 0 where
    no_elements : Elements
    element : Json → Elements → Elements

  pub data Members : Type 0 where
    no_members : Members
    member : Text → Json → Members → Members

-- The JWT fields of SecurityConfig.
pub record JwtConfig : Type 0 where
  pub jwt_enabled : Bool
  pub jwks : Bool
  pub subject_claim : Text
  pub roles_claim : Text
  pub permissions_claim : Text
  pub tenant_claim : Text
  pub project_claim : Text
  pub require_project_claim : Bool
  pub trust_roles_claim : Bool
  pub trust_permissions_claim : Bool
  pub trust_tenant_claim : Bool

unfoldable pub member_of : Text → Members → Json
member_of key no_members = null
member_of key (member k v rest) =
    let later = member_of key rest in if text_beq k key then v else later

-- The loop of `_claim`. A member that is there with the value None gives None too.
unfoldable pub descend : List Text → Json → Json
unfolding member_of
descend [] v = v
descend (part ∷ parts) null = null
descend (part ∷ parts) (text t) = null
descend (part ∷ parts) (scalar t) = null
descend (part ∷ parts) (array xs) = null
descend (part ∷ parts) (object ms) = descend parts (member_of part ms)

unfoldable pub claim : Json → Text → Json
unfolding descend
claim payload dotted = descend (split 46 dotted) payload

module _ (str : Json → Text) where
  unfoldable pub python_str : Json → Text
  python_str null = codes "None"
  python_str (text t) = t
  python_str (scalar t) = t
  python_str (array xs) = str (array xs)
  python_str (object ms) = str (object ms)

  unfoldable pub texts : Elements → List Text
  unfolding python_str
  texts no_elements = []
  texts (element null xs) = texts xs
  texts (element (text t) xs) = t ∷ texts xs
  texts (element (scalar t) xs) = t ∷ texts xs
  texts (element (array ys) xs) = str (array ys) ∷ texts xs
  texts (element (object ms) xs) = str (object ms) ∷ texts xs

  unfoldable pub claim_set : Json → List Text
  unfolding texts
  claim_set null = []
  claim_set (text t) = t ∷ []
  claim_set (scalar t) = t ∷ []
  claim_set (array xs) = texts xs
  claim_set (object ms) = str (object ms) ∷ []

-- project_claim == project.slug, and project_claim is None
unfoldable pub names_project : Json → Text → Bool
names_project null slug = false
names_project (text t) slug = text_beq t slug
names_project (scalar t) slug = false
names_project (array xs) slug = false
names_project (object ms) slug = false

abbrev pub is_null : Json → Bool
is_null null = true
is_null (text t) = false
is_null (scalar t) = false
is_null (array xs) = false
is_null (object ms) = false

-- auth.lower().startswith("bearer ") and auth.split(" ", 1)[1]
unfoldable pub bearer_token : Text → Option Text
bearer_token auth =
    if starts_with (map to_lower auth) (codes "bearer ")
    then elim (partition 32 auth) [ none ↦ none | some (scheme, token) ↦ some token ]
    else none

module _ (str : Json → Text) (slug : Text) (roles : Dict Text Role) (cfg : JwtConfig) where
  -- Under a JWKS provider a claim counts only if the configuration trusts it.
  unfoldable pub trusted_set : Bool → Text → Json → List Text
  unfolding claim claim_set
  trusted_set trust name payload =
      if cfg.jwks && not trust then [] else claim_set str (claim payload name)

  unfoldable pub trusted_tenant : Json → Option Text
  unfolding claim python_str
  trusted_tenant payload =
      let tenant = claim payload cfg.tenant_claim in
      if (cfg.jwks && not cfg.trust_tenant_claim) || is_null tenant
      then none
      else some (python_str str tenant)

  unfoldable pub principal_of : Json → List Text → Principal
  unfolding claim python_str trusted_set trusted_tenant
  principal_of payload inherited = record {
    kind = jwt;
    subject = python_str str (claim payload cfg.subject_claim);
    roles = trusted_set cfg.trust_roles_claim cfg.roles_claim payload;
    permissions =
        trusted_set cfg.trust_permissions_claim cfg.permissions_claim payload ++ inherited;
    tenant_id = trusted_tenant payload;
    key_id = none;
    rate_requests = none;
    rate_window_seconds = none;
    rate_burst = none;
    expires_at = none;
  }

  -- The checks of a verified payload, and the principal that it makes.
  unfoldable pub accept_payload : Json → Result Principal
  unfolding claim names_project trusted_set principal_of
  accept_payload payload = do
    let project_claim = claim payload cfg.project_claim
    reject_if (cfg.require_project_claim && not (names_project project_claim slug))
        (http_error 401 "Bearer token is missing the required project claim")
    reject_if (not (is_null project_claim) && not (names_project project_claim slug))
        (http_error 401 "Token is not valid for this project")
    reject_if (is_null (claim payload cfg.subject_claim))
        (http_error 401 "Bearer token has no subject")
    inherited ←
        expanded (
          expand_role_permissions roles (trusted_set cfg.trust_roles_claim cfg.roles_claim payload))
    ok (principal_of payload inherited)

  unfoldable pub accept_token : (Text → Result Json) → Text → Result Principal
  unfolding accept_payload
  accept_token decode token = do
    reject_if (text_beq token [] || ltb 8192 (length token)) (http_error 401 "Invalid bearer token")
    payload ← decode token
    accept_payload payload
