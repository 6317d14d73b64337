-- ===== src/Tests/Security.antt =====
-- framework/security.py: a table of roles with a cycle, and a delegation of `tasks.read`.
use json_api_forge.Prelude.{none, some, List, [], In, ◌≡◌, ◌↔◌, ◌∷◌, ◌++◌, string_eq}
use json_api_forge.Prelude.Dict.{Dict}
use json_api_forge.Prelude.Text.{Text, text_eq, codes}
use json_api_forge.Security.Permissions.{Principal, Role, expand_role_permissions, api_key}
use json_api_forge.Security.Walks.{Grants}
use json_api_forge.Security.Roles.{expand_role_permissions_exact}
use json_api_forge.Security.Delegation.{Project, Credential}

-- The role "reader" inherits "auditor", which inherits "reader".
abbrev roles : Dict Text Role
roles =
    (
      codes "reader",
      record { permissions = codes "tasks.read" ∷ []; inherits = codes "auditor" ∷ [] },
    )
    ∷ (
      codes "auditor",
      record { permissions = codes "logs.*" ∷ []; inherits = codes "reader" ∷ [] },
    )
    ∷ []

abbrev project : Project
project = record {
  slug = codes "demo";
  roles = roles;
  requests = 120;
  window_seconds = 60;
  burst = none;
}

abbrev caller : Principal
caller = record {
  kind = api_key;
  subject = codes "ann";
  roles = codes "reader" ∷ [];
  permissions = codes "tasks.*" ∷ codes "logs.*" ∷ [];
  tenant_id = some (codes "t");
  key_id = some 1;
  rate_requests = some 60;
  rate_window_seconds = none;
  rate_burst = none;
  expires_at = some 100;
}

abbrev credential : Credential
credential = record {
  roles = codes "reader" ∷ [];
  permissions = codes "tasks.write" ∷ [];
  tenant_id = some (codes "t");
  expires_at = some 50;
  rate_requests = some 30;
  rate_window_seconds = none;
  rate_burst = none;
  subject = some (codes "ann");
}

abbrev inherited : List Text
inherited = codes "logs.*" ∷ codes "tasks.read" ∷ []

abbrev issued : Principal
issued = record caller { permissions = credential.permissions ++ inherited }

expand_role_permissions_exact_example :
    (out : List Text) × (expand_role_permissions roles (codes "reader" ∷ []) ≡ some out)
    × ((q : Text) → In q out ↔ Grants roles (codes "reader" ∷ []) q)
expand_role_permissions_exact_example = expand_role_permissions_exact roles (codes "reader" ∷ [])
