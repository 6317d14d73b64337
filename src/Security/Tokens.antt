-- ===== src/Security/Tokens.antt =====
-- What a bearer token can give, whoever signed it.
use json_api_forge.Prelude.{
  refl, inl, inr, sym, ap, subst, Bool, true, false, not, none, List, [], arith, ltb, length,
  http_error, Result, ok, >>=-eq-ok, passed, ◌≤◌, ◌≡◌, ◌∙◌, ◌⊎◌, ◌&&◌, ◌||◌,
}
use json_api_forge.Prelude.Dict.{Dict}
use json_api_forge.Prelude.Text.{Text, text_eq, text_beq, text_beq_iff}
use json_api_forge.Security.Permissions.{Role, Principal, expand_role_permissions}
use json_api_forge.Security.Delegation.{expanded}
use json_api_forge.Security.Claims.{
  Json, JwtConfig, null, text, scalar, array, object, claim, names_project, is_null, trusted_set,
  trusted_tenant, principal_of, accept_payload, accept_token,
}

names_project_iff : (j : Json) (slug : Text) → names_project j slug ≡ true → j ≡ text slug
unfolding names_project
names_project_iff null slug h = cc
names_project_iff (text t) slug h = ap text ((text_beq_iff t slug).0 h)
names_project_iff (scalar t) slug h = cc
names_project_iff (array xs) slug h = cc
names_project_iff (object ms) slug h = cc

-- What the two checks of the project's claim leave.
own_or_missing :
    (required : Bool) (j : Json) (slug : Text)
    → (required && not (names_project j slug)) ≡ false
    → (not (is_null j) && not (names_project j slug)) ≡ false
    → (j ≡ text slug) ⊎ ((j ≡ null) × (required ≡ false))
unfolding names_project
own_or_missing required null slug h k = inr (refl, ground arith)
own_or_missing required (text t) slug h k = inl (names_project_iff (text t) slug (ground arith))
own_or_missing required (scalar t) slug h k = cc
own_or_missing required (array xs) slug h k = cc
own_or_missing required (object ms) slug h k = cc

either_false : (a b : Bool) → (a || b) ≡ false → (a ≡ false) × (b ≡ false)
either_false a b h = ground arith

module _ (str : Json → Text) (slug : Text) (roles : Dict Text Role) (cfg : JwtConfig)
    (decode : Text → Result Json) where
  -- An accepted token was short enough and verified, and its payload passed the checks.
  accepted :
      (token : Text) (p : Principal)
      → accept_token str slug roles cfg decode token ≡ ok p
      → (payload : Json) × (length token ≤ 8192)
        × (decode token ≡ ok payload)
        × (accept_payload str slug roles cfg payload ≡ ok p)
  unfolding accept_token
  accepted token p h =
      let (size, h1) = passed _ _ _ h in
      let (payload, verified, h2) = >>=-eq-ok (decode token) _ h1 in
      let short = either_false (text_beq token []) (ltb 8192 (length token)) size in
      (payload, ground arith, verified, h2)

  checked :
      (payload : Json) (p : Principal)
      → accept_payload str slug roles cfg payload ≡ ok p
      → ((cfg.require_project_claim && not (names_project (claim payload cfg.project_claim) slug))
          ≡ false)
        × ((not (is_null (claim payload cfg.project_claim))
              && not (names_project (claim payload cfg.project_claim) slug))
            ≡ false)
        × ((inherited : List Text) × (expanded (
                expand_role_permissions roles
                  (trusted_set str slug roles cfg cfg.trust_roles_claim cfg.roles_claim payload))
              ≡ ok inherited)
            × (principal_of str slug roles cfg payload inherited ≡ p))
  unfolding accept_payload
  checked payload p h =
      let project_claim = claim payload cfg.project_claim in
      let (named, h1) =
        passed _ (http_error 401 "Bearer token is missing the required project claim") _ h in
      let (same, h2) =
        passed (not (is_null project_claim) && not (names_project project_claim slug))
          (http_error 401 "Token is not valid for this project") _ h1 in
      let (subject, h3) =
        passed (is_null (claim payload cfg.subject_claim))
          (http_error 401 "Bearer token has no subject") _ h2 in
      let (inherited, walked, e) =
        >>=-eq-ok
          (expanded (
            expand_role_permissions roles
              (trusted_set str slug roles cfg cfg.trust_roles_claim cfg.roles_claim payload)))
          (λ x. ok (principal_of str slug roles cfg payload x)) h3 in
      (named, same, (inherited, walked, ok_inj _ _ e))
    where
      ok_inj : (a b : Principal) → ok a ≡ ok b → a ≡ b
      ok_inj a b q = cc

  -- Whatever the configuration: a principal comes only from a token of at most 8192 characters that
  -- the verification accepted, and whose claim either names this very project, or is missing while
  -- the configuration does not require it. So no token that names another project is accepted.
  pub token_names_project :
      (token : Text) (p : Principal)
      → accept_token str slug roles cfg decode token ≡ ok p
      → (payload : Json) × (length token ≤ 8192)
        × (decode token ≡ ok payload)
        × ((claim payload cfg.project_claim ≡ text slug)
            ⊎ ((claim payload cfg.project_claim ≡ null) × (cfg.require_project_claim ≡ false)))
  token_names_project token p h =
      let (payload, short, verified, accept) = accepted token p h in
      let (required, same, rest) = checked payload p accept in
      (payload, short, verified, own_or_missing _ _ _ required same)

  -- Under a JWKS provider of whose claims the configuration trusts none, a token gives no role, no
  -- permission and no tenant, whatever claims it carries.
  pub untrusted_claims_ignored :
      (token : Text) (p : Principal)
      → cfg.jwks ≡ true
      → cfg.trust_roles_claim ≡ false
      → cfg.trust_permissions_claim ≡ false
      → cfg.trust_tenant_claim ≡ false
      → accept_token str slug roles cfg decode token ≡ ok p
      → (p.roles ≡ []) × (p.permissions ≡ []) × (p.tenant_id ≡ none)
  untrusted_claims_ignored token p jwks roles_off permissions_off tenant_off h =
      let (payload, short, verified, accept) = accepted token p h in
      let (inherited, walked, made) = (checked payload p accept).2 in
      let nothing = none_inherited payload inherited jwks roles_off walked in
      rw (sym made) (
        unfold principal_of in
        unfold trusted_set in
        unfold trusted_tenant in
        rw (jwks, roles_off, permissions_off, tenant_off, nothing) (refl, refl, refl))
    where
      none_inherited :
          (payload : Json) (inherited : List Text)
          → cfg.jwks ≡ true
          → cfg.trust_roles_claim ≡ false
          → expanded (
              expand_role_permissions roles
                (trusted_set str slug roles cfg cfg.trust_roles_claim cfg.roles_claim payload))
            ≡ ok inherited
          → inherited ≡ []
      none_inherited payload inherited j r w =
          let e : trusted_set str slug roles cfg cfg.trust_roles_claim cfg.roles_claim payload
              ≡ [] =
            unfold trusted_set in rw (j, r) refl in
          expand_none inherited (
            subst (λ (x : List Text). expanded (expand_role_permissions roles x) ≡ ok inherited) e
              w)
        where
          expand_none :
              (xs : List Text) → expanded (expand_role_permissions roles []) ≡ ok xs → xs ≡ []
          expand_none xs q =
              ok_inj xs [] (sym q ∙ unfold expand_role_permissions in unfold expanded in refl)
            where
              ok_inj : (a b : List Text) → ok a ≡ ok b → a ≡ b
              ok_inj a b q = cc
