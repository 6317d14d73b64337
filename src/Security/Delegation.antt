-- ===== src/Security/Delegation.antt =====
-- framework/security.py: ensure_credential_delegation. The details of HTTP errors keep the fixed part
-- of their text.
use json_api_forge.Prelude.{
  ℕ, zero, suc, Bool, true, false, not, Option, none, some, List, ltb, any, all, contains,
  runtime_error, http_error, Result, ok, err, reject_if, ◌*◌, ◌&&◌, ◌++◌, if◌then◌else◌, ◌>>=◌,
  ◌>>◌,
}
use json_api_forge.Prelude.Dict.{Dict, lookup}
use json_api_forge.Prelude.Text.{Text, text_eq, codes, text_beq, option_beq}
use json_api_forge.Security.Permissions.{
  Role, Principal, permission_matches, has_permission, expand_role_permissions,
}

-- The parts of ProjectConfig that credentials depend on.
pub record Project : Type 0 where
  pub slug : Text
  pub roles : Dict Text Role
  pub requests : ℕ
  pub window_seconds : ℕ
  pub burst : Option ℕ

-- The keyword arguments of `ensure_credential_delegation`.
pub record Credential : Type 0 where
  pub roles : List Text
  pub permissions : List Text
  pub tenant_id : Option Text
  pub expires_at : Option ℕ
  pub rate_requests : Option ℕ
  pub rate_window_seconds : Option ℕ
  pub rate_burst : Option ℕ
  pub subject : Option Text

-- `value or default`, where 0 and None are both false
unfoldable pub or_default : Option ℕ → ℕ → ℕ
or_default none d = d
or_default (some zero) d = d
or_default (some (suc n)) d = suc n

unfoldable pub sustained : Project → Option ℕ → Option ℕ → ℕ × ℕ
sustained project requests window =
    (or_default requests project.requests, or_default window project.window_seconds)

unfoldable pub burst_of : Project → Option ℕ → Option ℕ → ℕ
burst_of project burst requests =
    or_default burst (or_default project.burst (or_default requests project.requests))

unfoldable pub permission_is_delegable : Principal → Text → Bool
permission_is_delegable parent requested =
    any (λ g. permission_matches g requested) parent.permissions

unfoldable pub check_expiry : Option ℕ → Option ℕ → Result (Unit {0})
check_expiry none child = ok tt
check_expiry (some parent) none =
    err (http_error 403 "Cannot delegate a non-expiring credential from an expiring caller")
check_expiry (some parent) (some child) =
    reject_if (ltb parent child)
      (http_error 403 "Cannot delegate a credential that outlives the caller")

unfoldable pub check_subject : Principal → Option Text → Result (Unit {0})
check_subject parent none = ok tt
check_subject parent (some subject) =
    reject_if
      (not (text_beq subject parent.subject)
        && not (has_permission parent (some (codes "admin.credentials.impersonate"))))
      (http_error 403 "Cannot issue a credential for another subject")

-- The checks of rates and of the subject, which come last.
unfoldable pub check_rates : Project → Principal → Credential → Result (Unit {0})
check_rates project parent c = do
  let (pr, pw) = sustained project parent.rate_requests parent.rate_window_seconds
  let (cr, cw) = sustained project c.rate_requests c.rate_window_seconds
  reject_if (ltb (pr * cw) (cr * pw))
      (http_error 403 "Cannot delegate a higher sustained request rate")
  reject_if
      (ltb (burst_of project parent.rate_burst parent.rate_requests)
        (burst_of project c.rate_burst c.rate_requests))
      (http_error 403 "Cannot delegate a larger rate_burst budget")
  check_subject parent c.subject

unfoldable pub check_scope : Project → Principal → Credential → List Text → Result (Unit {0})
unfolding check_expiry check_subject check_rates
check_scope project parent c inherited = do
  reject_if (any (λ p. not (permission_is_delegable parent p)) (c.permissions ++ inherited))
      (http_error 403 "Cannot delegate permissions beyond the caller")
  reject_if (not (option_beq c.tenant_id parent.tenant_id))
      (http_error 403 "Cannot delegate a different tenant")
  check_expiry parent.expires_at c.expires_at
  check_rates project parent c

-- `none` from the walk would be Python's recursion limit.
unfoldable pub expanded : Option (List Text) → Result (List Text)
expanded none = err (runtime_error "maximum recursion depth exceeded")
expanded (some out) = ok out

unfoldable pub is_unknown : Dict Text Role → Text → Bool
is_unknown roles r = elim (lookup r roles) [ none ↦ true | some spec ↦ false ]

-- what is asked of a caller who may not delegate everything
unfoldable pub limited_delegation : Project → Principal → Credential → Result (Unit {0})
unfolding check_scope expanded
limited_delegation project parent c = do
  reject_if (not (all (λ r. contains r parent.roles) c.roles))
      (http_error 403 "Cannot delegate roles not held by the caller")
  inherited ← expanded (expand_role_permissions project.roles c.roles)
  check_scope project parent c inherited

unfoldable pub ensure_credential_delegation : Project → Principal → Credential → Result (Unit {0})
unfolding limited_delegation
ensure_credential_delegation project parent c = do
  reject_if (any (is_unknown project.roles) c.roles) (http_error 422 "Unknown roles")
  if has_permission parent (some (codes "admin.credentials.delegate_any"))
      then ok tt
      else limited_delegation project parent c
