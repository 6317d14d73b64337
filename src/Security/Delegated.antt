-- ===== src/Security/Delegated.antt =====
-- What a credential can do that was delegated by a caller without unlimited delegation: no more than
-- the caller, for no longer and at no higher rate.
use json_api_forge.Prelude.{
  ℕ, true, false, not, Option, none, some, List, any, all, contains, ◌*◌, ◌≤◌, ◌≡◌, ◌++◌,
}
use json_api_forge.Prelude.Text.{Text, text_eq}
use json_api_forge.Security.Permissions.{Principal, expand_role_permissions}
use json_api_forge.Security.Delegation.{
  Project, Credential, sustained, burst_of, permission_is_delegable,
}

-- The child expires, when the caller does, and no later.
abbrev Outlived : Option ℕ → Option ℕ → Type 0
Outlived none child = Unit
Outlived (some parent) none = ⊥
Outlived (some parent) (some child) = child ≤ parent

pub record IsWithin (project : Project) (parent : Principal) (c : Credential) : Type 0 where
  pub roles_held : all (λ r. contains r parent.roles) c.roles ≡ true
  pub inherited : List Text
  pub inherited_eq : expand_role_permissions project.roles c.roles ≡ some inherited
  pub covered :
      any (λ p. not (permission_is_delegable parent p)) (c.permissions ++ inherited) ≡ false
  pub same_tenant : c.tenant_id ≡ parent.tenant_id
  pub outlived : Outlived parent.expires_at c.expires_at
  pub rate_le :
      (sustained project c.rate_requests c.rate_window_seconds).0
        * (sustained project parent.rate_requests parent.rate_window_seconds).1
      ≤ (sustained project parent.rate_requests parent.rate_window_seconds).0
        * (sustained project c.rate_requests c.rate_window_seconds).1
  pub burst_le :
      burst_of project c.rate_burst c.rate_requests
      ≤ burst_of project parent.rate_burst parent.rate_requests

abbrev Rates : Project → Principal → Credential → Type 0
Rates project parent c =
    ((sustained project c.rate_requests c.rate_window_seconds).0
        * (sustained project parent.rate_requests parent.rate_window_seconds).1
      ≤ (sustained project parent.rate_requests parent.rate_window_seconds).0
        * (sustained project c.rate_requests c.rate_window_seconds).1)
    × (burst_of project c.rate_burst c.rate_requests
        ≤ burst_of project parent.rate_burst parent.rate_requests)
