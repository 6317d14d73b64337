-- ===== src/Crud/Model.antt =====
-- What framework/crud.py reads: the resource's configuration, the table's columns, rows, the values in
-- them, and the statements that SQLAlchemy builds from its calls.
use json_api_forge.Prelude.{ℕ, Bool, Option, none, some, List, [], Error, ◌∷◌}
use json_api_forge.Prelude.Dict.{Dict}
use json_api_forge.Prelude.Text.{Text}

-- A value of a column or of a JSON payload. `opaque` stands for the ones that the code passes on
-- unread: negative and fractional numbers, dates, lists and objects.
pub data Value : Type 0 where
  null : Value
  boolean : Bool → Value
  number : ℕ → Value
  text : Text → Value
  opaque : ℕ → Value

abbrev pub Row : Type 0
Row = Dict Text Value

-- What a call of a column's Python type ends with: TypeError and ValueError are told apart from what
-- the caller lets through.
pub data Construction : Type 0 where
  constructed : Value → Construction
  rejected : Construction
  raised : Error → Construction

-- column.type.python_type, and what `pytype(value)` gives
pub record PythonType : Type 0 where
  pub is_bool : Bool
  pub construct : Value → Construction

-- A Column of SQLAlchemy: `has_default` for a default or a server_default, and no `python_type`
-- where reading it raises NotImplementedError or AttributeError.
pub record Column : Type 0 where
  pub nullable : Bool
  pub has_default : Bool
  pub python_type : Option PythonType

-- table.c
abbrev pub Columns : Type 0
Columns = Dict Text Column

-- ResourceConfig's fields that the handlers read; the schemas are numbers that the validator knows.
pub record Resource : Type 0 where
  pub primary_key : Text
  pub tenant_field : Option Text
  pub owner_field : Option Text
  pub owner_actions : List Text
  pub owner_bypass_permission : Option Text
  pub soft_delete_field : Option Text
  pub hidden_fields : List Text
  pub readable_fields : Option (List Text)
  pub writable_fields : Option (List Text)
  pub allowed_filters : List Text
  pub filter_operators : List Text
  pub search_fields : List Text
  pub allowed_sort : List Text
  pub cursor_pagination : Bool
  pub cursor_field : Option Text
  pub default_limit : ℕ
  pub max_limit : ℕ
  pub batch_enabled : Bool
  pub max_batch_size : ℕ
  pub create_schema : Option ℕ
  pub update_schema : Option ℕ

-- An expression over columns that stands in a WHERE.
pub data Clause : Type 0 where
  equal not_equal greater at_least less at_most : Text → Value → Clause
  like ilike : Text → Text → Clause
  one_of : Text → List Value → Clause
  is_null is_not_null : Text → Clause
  either both : Clause → Clause → Clause

-- A column to sort by, and whether it descends.
abbrev pub Order : Type 0
Order = List (Text × Bool)

-- select(table).where(and_(*where)).order_by(*order).offset(offset).limit(limit)
pub record Select : Type 0 where
  pub where_ : List Clause
  pub order : Order
  pub offset : ℕ
  pub limit : Option ℕ

-- `name if name else None`: the empty text counts as none.
unfoldable pub truthy : Option Text → Option Text
truthy none = none
truthy (some []) = none
truthy (some (c ∷ t)) = some (c ∷ t)
