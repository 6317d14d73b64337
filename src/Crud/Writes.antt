-- ===== src/Crud/Writes.antt =====
-- framework/crud.py, the handlers that write. Each gives the rows that the table holds afterwards and
-- what the call ends with.
use json_api_forge.Prelude.{
  nat_eq, ℕ, zero, suc, Bool, true, false, not, Option, none, some, List, [], ltb, length, Error,
  runtime_error, http_error, Result, ok, err, reject_if, ◌||◌, ◌∷◌, ◌==◌, ◌>>=◌, ◌>>◌, nat_eq,
  string_eq,
}
use json_api_forge.Prelude.Dict.{Dict}
use json_api_forge.Prelude.Text.{Text, text_eq, codes}
use json_api_forge.Security.Permissions.{Principal}
use json_api_forge.Crud.Model.{Value, Row, Columns, Resource, Clause, truthy, null}
use json_api_forge.Crud.Fields.{
  Payload, Mode, create, patch, replace, write_payload, inject_policy_fields,
}
use json_api_forge.Crud.Engine.{Engine, Rowcount, unknown, negative, counted}
use json_api_forge.Crud.Reads.{get_row, item_clauses}

pub data Created : Type 0 where
  created_row : Row → Created
  created : Created

unfoldable pub new_values :
    Engine → Columns → Resource → Principal → Payload → Result (Dict Text Value)
new_values engine table resource principal payload = do
  data_ ← write_payload engine.validate payload resource table resource.create_schema create
  inject_policy_fields data_ resource principal

unfoldable pub read_back :
    Engine → Columns → Resource → Principal → Option Value → List Row → Result Created
read_back engine table resource principal none rows = ok created
read_back engine table resource principal (some null) rows = ok created
read_back engine table resource principal (some pk_val) rows = do
  found ← get_row engine table resource principal pk_val rows
  ok (created_row found)

-- What an IntegrityError is answered with.
abbrev pub create_conflict : Error
create_conflict = http_error 409 "Resource conflicts with an existing row or database constraint"

abbrev pub batch_conflict : Error
batch_conflict = http_error 409 "Batch conflicts with an existing row or database constraint"

abbrev pub update_conflict : Error
update_conflict = http_error 409 "Update conflicts with an existing row or database constraint"

unfoldable pub insert_one :
    Engine → Columns → Resource → Principal → Dict Text Value → List Row → List Row × Result Created
unfolding read_back
insert_one engine table resource principal data_ rows = elim (engine.insert (data_ ∷ []) rows) [
  | none ↦ (rows, err create_conflict)
  | some after ↦ (
    after,
    read_back engine table resource principal (engine.inserted_primary_key data_ rows) after,
  )
]

unfoldable pub create_row :
    Engine → Columns → Resource → Principal → Payload → List Row → List Row × Result Created
unfolding new_values insert_one
create_row engine table resource principal payload rows =
    elim (new_values engine table resource principal payload) [
      | err e ↦ (rows, err e)
      | ok data_ ↦ insert_one engine table resource principal data_ rows
    ]

unfoldable pub all_new_values :
    Engine → Columns → Resource → Principal → List Payload → Result (List (Dict Text Value))
unfolding new_values
all_new_values engine table resource principal [] = ok []
all_new_values engine table resource principal (payload ∷ payloads) = do
  data_ ← new_values engine table resource principal payload
  values ← all_new_values engine table resource principal payloads
  ok (data_ ∷ values)

unfoldable pub batch_values :
    Engine → Columns → Resource → Principal → List Payload → Result (List (Dict Text Value))
unfolding all_new_values
batch_values engine table resource principal payloads = do
  reject_if (not resource.batch_enabled) (http_error 405 "Batch API disabled for this resource")
  reject_if (length payloads == 0 || ltb resource.max_batch_size (length payloads))
      (http_error 422 "Batch size is out of bounds")
  all_new_values engine table resource principal payloads

-- max(result.rowcount or len(values), 0)
unfoldable pub told_rowcount : Rowcount → ℕ → ℕ
told_rowcount unknown n = n
told_rowcount negative n = 0
told_rowcount (counted zero) n = n
told_rowcount (counted (suc m)) n = suc m

-- The numbers that are told as `created` and as `rowcount`.
unfoldable pub batch_create_rows :
    Engine → Columns → Resource → Principal → List Payload → List Row → List Row × Result (ℕ × ℕ)
unfolding batch_values told_rowcount
batch_create_rows engine table resource principal payloads rows =
    elim (batch_values engine table resource principal payloads) [
      | err e ↦ (rows, err e)
      | ok values ↦ elim (engine.insert values rows) [
        | none ↦ (rows, err batch_conflict)
        | some after ↦ (
          after,
          ok (length values, told_rowcount (engine.inserted_rowcount values rows) (length values)),
        )
      ]
    ]

unfoldable pub mode_of : Bool → Mode
mode_of true = replace
mode_of false = patch

-- The clauses and the values of an UPDATE.
unfoldable pub update_plan :
    Engine
    → Columns
    → Resource
    → Principal
    → Value
    → Payload
    → Bool
    → Result (List Clause × Dict Text Value)
unfolding mode_of
update_plan engine table resource principal item_id payload replaces = do
  data_ ←
      write_payload engine.validate payload resource table resource.update_schema (mode_of replaces)
  reject_if (length data_ == 0) (http_error 422 "No writable fields supplied")
  clauses ← item_clauses table resource principal item_id (codes "update")
  ok (clauses, data_)

unfoldable pub updated : Engine → Columns → Resource → Principal → Value → List Row → ℕ → Result Row
updated engine table resource principal item_id after zero = err (http_error 404 "Not found")
updated engine table resource principal item_id after (suc n) =
    get_row engine table resource principal item_id after

unfoldable pub update_row :
    Engine
    → Columns
    → Resource
    → Principal
    → Value
    → Payload
    → Bool
    → List Row
    → List Row × Result Row
unfolding update_plan updated
update_row engine table resource principal item_id payload replaces rows =
    elim (update_plan engine table resource principal item_id payload replaces) [
      | err e ↦ (rows, err e)
      | ok (clauses, data_) ↦ elim (engine.update clauses data_ rows) [
        | none ↦ (rows, err update_conflict)
        | some (after, n) ↦ (after, updated engine table resource principal item_id after n)
      ]
    ]

-- The statement that deletes: it marks the rows where the resource has a soft_delete_field.
unfoldable pub erase : Engine → Option Text → Value → List Clause → List Row → Option (List Row × ℕ)
erase engine none now clauses rows = engine.delete clauses rows
erase engine (some field) now clauses rows = engine.update clauses ((field, now) ∷ []) rows

unfoldable pub deleted : ℕ → Result (Unit {0})
deleted zero = err (http_error 404 "Not found")
deleted (suc n) = ok tt

-- `now` is datetime.now(timezone.utc). An IntegrityError is not caught here.
unfoldable pub delete_row :
    Engine
    → Columns
    → Resource
    → Principal
    → Value
    → Value
    → List Row
    → List Row × Result (Unit {0})
unfolding erase deleted truthy
delete_row engine table resource principal item_id now rows =
    elim (item_clauses table resource principal item_id (codes "delete")) [
      | err e ↦ (rows, err e)
      | ok clauses ↦ elim (erase engine (truthy resource.soft_delete_field) now clauses rows) [
        | none ↦ (rows, err (runtime_error "IntegrityError"))
        | some (after, n) ↦ (after, deleted n)
      ]
    ]
