-- ===== src/Tests/Crud.antt =====
-- framework/crud.py: a table of two tenants with four rows, in a database that keeps them by id.
use json_api_forge.Crud.Reads.{get_row, item_clauses, column_of}
use json_api_forge.Crud.Clauses.{
  base_clauses, tenant_clause, owner_clause, soft_delete_clause, bypasses_owner,
}
use json_api_forge.Crud.Scope.{Ownership}
use json_api_forge.Crud.Shown.{get_row-own_row}
use json_api_forge.Prelude.{
  string_eq, In, ℕ, refl, true, false, not, none, some, List, [], arith, keep, In, contains, ok,
  ◌≡◌, ◌≢◌, ◌&&◌, ◌∷◌, if◌then◌else◌, nat_eq, string_eq,
}
use json_api_forge.Prelude.Dict.{lookup}
use json_api_forge.Prelude.Text.{Text, text_eq, codes}
use json_api_forge.Security.Permissions.{has_permission, Principal, Kind}
use json_api_forge.Crud.Model.{
  Row, Column, Columns, Resource, truthy, null, number, text, constructed,
}
use json_api_forge.Crud.Fields.{
  anonymous, converted, coerce_typed, coerce_for_column, only, visible, named,
  protected_write_fields, writable, allowed_write_fields, Payload, complete, has_unknown,
  write_payload, object, patch,
}
use json_api_forge.Crud.Written.{write_payload-protected, of_tenant}
use json_api_forge.Crud.Calls.{Call, run, creates, updates, deletes}
use json_api_forge.Crud.Tenants.{tenant_rows_untouched, owned}
use json_api_forge.Crud.Shown.{lookup-visible}
use json_api_forge.Tests.Database.{database, database_sql}

abbrev pub int_column : Column
int_column = record {
  nullable = false;
  has_default = true;
  python_type = some (record { is_bool = false; construct = constructed });
}

abbrev pub text_column : Column
text_column = record {
  nullable = true;
  has_default = false;
  python_type = some (record { is_bool = false; construct = constructed });
}

abbrev pub columns : Columns
columns =
    (codes "id", int_column)
    ∷ (codes "team", text_column)
    ∷ (codes "title", text_column)
    ∷ (codes "secret", text_column)
    ∷ []

abbrev pub notes : Resource
notes = record {
  primary_key = codes "id";
  tenant_field = some (codes "team");
  owner_field = none;
  owner_actions = [];
  owner_bypass_permission = none;
  soft_delete_field = none;
  hidden_fields = codes "secret" ∷ [];
  readable_fields = none;
  writable_fields = none;
  allowed_filters = [];
  filter_operators = codes "eq" ∷ [];
  search_fields = [];
  allowed_sort = codes "id" ∷ [];
  cursor_pagination = true;
  cursor_field = none;
  default_limit = 2;
  max_limit = 10;
  batch_enabled = true;
  max_batch_size = 5;
  create_schema = none;
  update_schema = none;
}

abbrev pub member : Text → Principal
member team = record {
  kind = Kind.api_key;
  subject = codes "ann";
  roles = [];
  permissions = [];
  tenant_id = some team;
  key_id = none;
  rate_requests = none;
  rate_window_seconds = none;
  rate_burst = none;
  expires_at = none;
}

abbrev pub note : ℕ → Text → Row
note id team =
    (codes "id", number id) ∷ (codes "team", text team) ∷ (codes "secret", text (codes "s")) ∷ []

abbrev pub stored : List Row
stored =
    note 1 (codes "red") ∷ note 2 (codes "blue") ∷ note 3 (codes "red") ∷ note 4 (codes "red") ∷ []

abbrev title : Payload
title = object ((codes "title", text (codes "hi")) ∷ [])

abbrev calls : List (Principal × Call)
calls =
    (member (codes "red"), creates title)
    ∷ (member (codes "red"), updates (number 2) title false)
    ∷ (member (codes "red"), deletes (number 2) null)
    ∷ []

-- The tenant's field and the principal's tenant, as the handlers read them.
pub team_field : truthy notes.tenant_field ≡ some (codes "team")
unfolding truthy
team_field = refl

pub red_tenant : truthy (member (codes "red")).tenant_id ≡ some (codes "red")
unfolding truthy
red_tenant = refl

no_owner : truthy notes.owner_field ≢ some (codes "team")
unfolding truthy
no_owner h = cc

no_deletion : truthy notes.soft_delete_field ≢ some (codes "team")
unfolding truthy
no_deletion h = cc

red_not_blue : truthy (member (codes "red")).tenant_id ≢ some (codes "blue")
unfolding truthy
red_not_blue h = ground arith

tenant_rows_untouched_example :
    keep (owned (codes "team") (codes "blue")) (run database columns notes calls stored)
    ≡ keep (owned (codes "team") (codes "blue")) stored
tenant_rows_untouched_example =
    tenant_rows_untouched database database_sql columns notes (codes "team") team_field no_owner
      no_deletion (codes "blue") calls stored (red_not_blue, (red_not_blue, (red_not_blue, tt)))

lookup-visible_example : lookup (codes "secret") (visible (note 1 (codes "red")) notes) ≡ (
    if not (contains (codes "secret") (codes "secret" ∷ [])) && true
    then lookup (codes "secret") (note 1 (codes "red"))
    else none)
lookup-visible_example = lookup-visible notes (note 1 (codes "red")) (codes "secret")

title_written :
    write_payload database.validate title notes columns none patch
    ≡ ok ((codes "title", text (codes "hi")) ∷ [])
unfolding write_payload has_unknown allowed_write_fields protected_write_fields named writable
    complete only
title_written = refl

write_payload-protected_example :
    lookup (codes "team") ((codes "title", text (codes "hi")) ∷ []) ≡ none
write_payload-protected_example =
    write_payload-protected database.validate title notes columns none patch
      ((codes "title", text (codes "hi")) ∷ []) (codes "team") title_written (of_tenant team_field)

-- The same table as notes that only the member who wrote one may read.
abbrev diary : Resource
diary = record notes { owner_field = some (codes "author"); owner_actions = codes "read" ∷ [] }

abbrev authored : Columns
authored = (codes "author", text_column) ∷ columns

abbrev entry : Row
entry = (codes "author", text (codes "ann")) ∷ note 1 (codes "red")

ann_owns : Ownership diary (member (codes "red")) (codes "read")
unfolding truthy bypasses_owner
ann_owns = record { field = codes "author"; has_field = refl; is_kept = refl; no_bypass = refl }

entry_read :
    get_row database authored diary (member (codes "red")) (number 1) (entry ∷ [])
    ≡ ok (visible entry diary)
unfolding get_row item_clauses column_of coerce_for_column coerce_typed converted base_clauses
    tenant_clause owner_clause soft_delete_clause truthy bypasses_owner anonymous lookup
    has_permission
entry_read = refl

get_row-own_row_example :
    (row : Row) × In row (entry ∷ [])
    × (visible entry diary ≡ visible row diary)
    × (lookup ann_owns.field row ≡ some (text (codes "ann")))
get_row-own_row_example =
    get_row-own_row database database_sql authored diary (member (codes "red")) ann_owns (number 1)
      (entry ∷ []) (visible entry diary) entry_read
