-- ===== src/Security/Permissions.antt =====
-- framework/security.py: Principal, permission_matches, has_permission and the walk over roles.
use json_api_forge.Prelude.{
  ℕ, zero, suc, Bool, true, Option, none, some, List, [], length, any, contains, ◌+◌, ◌&&◌, ◌||◌,
  ◌∷◌, ◌++◌, if◌then◌else◌, ◌==◌,
}
use json_api_forge.Prelude.Dict.{Dict, lookup}
use json_api_forge.Prelude.Text.{Text, text_eq, codes, starts_with, ends_with, drop_last}

pub data Kind : Type 0 where
  bootstrap api_key jwt anonymous : Kind

-- `expires_at` is a time in UTC; sets are lists, of which only the members count.
pub record Principal : Type 0 where
  pub kind : Kind
  pub subject : Text
  pub roles : List Text
  pub permissions : List Text
  pub tenant_id : Option Text
  pub key_id : Option ℕ
  pub rate_requests : Option ℕ
  pub rate_window_seconds : Option ℕ
  pub rate_burst : Option ℕ
  pub expires_at : Option ℕ

-- RoleConfig of framework/config.py
pub record Role : Type 0 where
  pub permissions : List Text
  pub inherits : List Text

unfoldable pub permission_matches : Text → Text → Bool
permission_matches granted required =
    granted == codes "*"
    || (granted == required
        || (ends_with granted (codes ".*") && starts_with required (drop_last granted)))

-- `not required` holds of None and of the empty text.
unfoldable pub has_permission : Principal → Option Text → Bool
has_permission p none = true
has_permission p (some []) = true
has_permission p (some (c ∷ r)) = any (λ g. permission_matches g (c ∷ r)) p.permissions

-- The variables `seen` and `out` of `_expand_role_permissions`.
pub record Walk : Type 0 where
  pub seen : List Text
  pub out : List Text

-- for parent in spec.inherits: walk(parent)
unfoldable pub walk_all : (Text → Walk → Option Walk) → List Text → Walk → Option Walk
walk_all walk [] w = some w
walk_all walk (r ∷ rs) w = elim (walk r w) [ none ↦ none | some w' ↦ walk_all walk rs w' ]

unfoldable pub enter : (Text → Walk → Option Walk) → Option Role → Walk → Option Walk
enter walk none w = some w
enter walk (some spec) w =
    walk_all walk spec.inherits (record w { out = spec.permissions ++ w.out })

-- The inner function `walk`, with a bound on the depth of its calls; `none` when that is passed.
unfoldable pub walk : Dict Text Role → ℕ → Text → Walk → Option Walk
walk roles zero role w = none
walk roles (suc depth) role w =
    if contains role w.seen
    then some w
    else enter (walk roles depth) (lookup role roles) (record w { seen = role ∷ w.seen })

unfoldable pub expand_role_permissions : Dict Text Role → List Text → Option (List Text)
unfolding walk_all enter walk
expand_role_permissions roles requested =
    elim (walk_all (walk roles (length roles + 2)) requested (record { seen = []; out = [] })) [
      | none ↦ none
      | some w ↦ some w.out
    ]
