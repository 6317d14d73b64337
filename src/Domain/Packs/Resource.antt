-- ===== src/Domain/Packs/Resource.antt =====
-- ColumnConfig, ResourceConfig, `_c`, `_resource` and `_with_tenant`. The fields of ResourceConfig
-- that no pack sets keep their defaults and are left out.
use json_api_forge.Prelude.{
  ℕ, String, Bool, true, false, Option, none, some, List, [], ◌∷◌, ◌++◌, if◌then◌else◌, nat_beq,
  string_eq,
}
use json_api_forge.Prelude.Dict.{Dict, lookup}
use Prim.Native.Char.{Char, code}
use Prim.Native.String.{◌++◌ as str_append}

pub record ColumnConfig : Type 0 where
  pub type : String
  pub nullable : Bool
  pub primary_key : Bool
  pub unique : Bool
  pub index : Bool
  pub default : Option ℕ
  pub max_length : Option ℕ

pub record ResourceConfig : Type 0 where
  pub database : String
  pub table : String
  pub path : String
  pub auto_create : Bool
  pub columns : Dict String ColumnConfig
  pub primary_key : String
  pub tenant_field : Option String
  pub allowed_filters : List String
  pub allowed_sort : List String
  pub writable_fields : Option (List String)
  pub soft_delete_field : Option String
  pub owner_field : Option String
  pub owner_actions : List String
  pub owner_bypass_permission : Option String
  pub allowed_actions : List String
  pub pagination_mode : String
  pub cursor_field : Option String
  pub permissions : Dict String String

-- One of MessagingPackConfig, SocialPackConfig and GamingPackConfig.
pub record PackConfig : Type 0 where
  pub enabled : Bool
  pub table_prefix : String
  pub database : String
  pub tenant_field : Option String

-- `_c(type_)`, whose keyword arguments the callers set by name
abbrev pub column : String → ColumnConfig
column t = record {
  type = t;
  nullable = true;
  primary_key = false;
  unique = false;
  index = false;
  default = none;
  max_length = none;
}

-- The optional keyword arguments of `_resource`.
pub record Keywords : Type 0 where
  pub filters : List String
  pub sort : List String
  pub writable : Option (List String)
  pub soft_delete : Option String
  pub pagination_mode : String
  pub cursor_field : Option String
  pub owner_field : Option String
  pub owner_actions : List String
  pub allowed_actions : List String

abbrev pub keywords : Keywords
keywords = record {
  filters = [];
  sort = "id" ∷ [];
  writable = none;
  soft_delete = none;
  pagination_mode = "offset";
  cursor_field = none;
  owner_field = none;
  owner_actions = [];
  allowed_actions = "list" ∷ "read" ∷ "create" ∷ "update" ∷ "delete" ∷ [];
}

-- path.replace("/", ".")
unfoldable pub dotted : String → String
dotted String.[] = ""
dotted (String.◌∷◌ c s) = String.◌∷◌ (dot c) (dotted s)
  where
    dot : Char → Char
    dot x = if nat_beq (code x) 47 then "." else x

unfoldable pub bypass : String → Option String → Option String
bypass path none = none
bypass path (some owner) = some (str_append (dotted path) ".owner_bypass")

unfoldable pub resource :
    String → String → String → Option String → Dict String ColumnConfig → Keywords → ResourceConfig
unfolding dotted bypass
resource db table path tenant columns k = record {
  database = db;
  table = table;
  path = path;
  auto_create = true;
  columns = columns;
  primary_key = "id";
  tenant_field = tenant;
  allowed_filters = k.filters;
  allowed_sort = k.sort;
  writable_fields = k.writable;
  soft_delete_field = k.soft_delete;
  owner_field = k.owner_field;
  owner_actions = k.owner_actions;
  owner_bypass_permission = bypass path k.owner_field;
  allowed_actions = k.allowed_actions;
  pagination_mode = k.pagination_mode;
  cursor_field = k.cursor_field;
  permissions =
      ("list", str_append (dotted path) ".list")
      ∷ ("read", str_append (dotted path) ".read")
      ∷ ("create", str_append (dotted path) ".create")
      ∷ ("update", str_append (dotted path) ".update")
      ∷ ("delete", str_append (dotted path) ".delete")
      ∷ [];
}

-- The tenant's column is added at the end, unless the table has one of that name.
unfoldable pub with_column :
    String → Option ColumnConfig → Dict String ColumnConfig → Dict String ColumnConfig
with_column field (some there) columns = columns
with_column field none columns =
    columns
    ++ (field, record (column "string") { nullable = false; index = true; max_length = some 96 })
      ∷ []

-- `tenant_field and tenant_field not in out`: the empty text is false too.
unfoldable pub with_tenant : Dict String ColumnConfig → Option String → Dict String ColumnConfig
unfolding with_column
with_tenant columns none = columns
with_tenant columns (some String.[]) = columns
with_tenant columns (some (String.◌∷◌ c s)) =
    with_column (String.◌∷◌ c s) (lookup (String.◌∷◌ c s) columns) columns

-- `_resource(db=db, table=p + table, path=path, tenant_field=tenant, columns=_with_tenant(…), …)`, the
-- call that the packs make for each table.
unfoldable pub entry :
    PackConfig → String → String → Dict String ColumnConfig → Keywords → ResourceConfig
unfolding resource with_tenant
entry spec table path columns k =
    resource spec.database (str_append spec.table_prefix table) path spec.tenant_field
      (with_tenant columns spec.tenant_field) k
