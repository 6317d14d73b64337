-- ===== src/Crud/Fields.antt =====
-- framework/crud.py, the fields that a client sees and writes: `_visible`, `_write_payload`,
-- `_coerce_for_column` and `_inject_policy_fields`.
use json_api_forge.Prelude.{
  ℕ, Bool, true, false, not, Option, none, some, List, [], map, any, keep, contains, http_error,
  Result, ok, err, reject_if, ◌&&◌, ◌∷◌, ◌++◌, if◌then◌else◌, ◌>>=◌, ◌>>◌, nat_eq, string_eq,
}
use json_api_forge.Prelude.Dict.{Dict, lookup, pop, assign}
use json_api_forge.Prelude.Text.{Text, codes, text_eq}
use json_api_forge.Prelude.Parts.{to_lower}
use json_api_forge.Security.Permissions.{Principal, Kind}
use json_api_forge.Crud.Model.{
  Value, Row, Construction, PythonType, Column, Columns, Resource, truthy, null, boolean, text,
  constructed, rejected, raised,
}

-- for field in fields: data.pop(field, None)
unfoldable pub without : List Text → Row → Row
without [] row = row
without (field ∷ fields) row = without fields (pop field row)

-- {k: v for k, v in data.items() if k in fields}
unfoldable pub only : List Text → Row → Row
only fields [] = []
only fields ((k, v) ∷ row) =
    let rest = only fields row in if contains k fields then (k, v) ∷ rest else rest

unfoldable pub readable : Option (List Text) → Row → Row
readable none row = row
readable (some fields) row = only fields row

unfoldable pub visible : Row → Resource → Row
unfolding without readable
visible row resource = readable resource.readable_fields (without resource.hidden_fields row)

unfoldable pub named : Option Text → List Text
named none = []
named (some []) = []
named (some (c ∷ t)) = (c ∷ t) ∷ []

unfoldable pub protected_write_fields : Resource → List Text
unfolding named
protected_write_fields resource =
    named (some resource.primary_key)
    ++ named resource.tenant_field
    ++ named resource.owner_field
    ++ named resource.soft_delete_field

unfoldable pub writable : Option (List Text) → Text → Bool
writable none name = true
writable (some fields) name = contains name fields

unfoldable pub allowed_write_fields : Resource → Columns → List Text
unfolding protected_write_fields writable
allowed_write_fields resource table =
    keep
      (λ name.
        not (contains name (protected_write_fields resource))
        && writable resource.writable_fields name)
      (map (λ entry. entry.0) table)

-- A payload as it is decoded from the request's JSON.
pub data Payload : Type 0 where
  object : Dict Text Value → Payload
  other : Payload

pub data Mode : Type 0 where
  create patch replace : Mode

-- What a PUT that leaves a column out writes to it: null, its default, or an error.
unfoldable pub fill_one :
    Text → Option Value → Option Column → Dict Text Value → Result (Dict Text Value)
fill_one name (some v) column data_ = ok data_
fill_one name none none data_ = ok data_
fill_one name none (some column) data_ =
    if column.nullable
    then ok (assign name null data_)
    else if column.has_default
    then ok data_
    else err (http_error 422 "missing_required_fields")

-- for name in sorted(allowed): the order decides only which missing name is told.
unfoldable pub fill : List Text → Columns → Dict Text Value → Result (Dict Text Value)
unfolding fill_one
fill [] table data_ = ok data_
fill (name ∷ names) table data_ = do
  filled ← fill_one name (lookup name data_) (lookup name table) data_
  fill names table filled

unfoldable pub complete : Mode → List Text → Columns → Dict Text Value → Result (Dict Text Value)
unfolding fill
complete create allowed table data_ = ok data_
complete patch allowed table data_ = ok data_
complete replace allowed table data_ = fill allowed table data_

-- set(payload) - allowed is not empty
unfoldable pub has_unknown : List Text → Dict Text Value → Bool
has_unknown allowed payload = any (λ entry. not (contains entry.0 allowed)) payload

-- `validate` is validate_json_schema of framework/validation.py for the schema given.
unfoldable pub write_payload :
    (Option ℕ → Dict Text Value → Result (Unit {0}))
    → Payload
    → Resource
    → Columns
    → Option ℕ
    → Mode
    → Result (Dict Text Value)
unfolding allowed_write_fields complete has_unknown
write_payload validate other resource table schema mode =
    err (http_error 422 "Resource payload must be a JSON object")
write_payload validate (object payload) resource table schema mode = do
  validate schema payload
  let allowed = allowed_write_fields resource table
  reject_if (has_unknown allowed payload) (http_error 422 "forbidden_or_unknown_fields")
  complete mode allowed table (only allowed payload)

-- pytype(value), with TypeError and ValueError turned into a response
unfoldable pub converted : Construction → Result Value
converted (constructed v) = ok v
converted rejected = err (http_error 422 "Invalid value for field")
converted (raised e) = err e

-- The texts that stand for True and for False.
unfoldable pub boolean_text : Text → Option Bool
boolean_text low =
    if contains low (codes "1" ∷ codes "true" ∷ codes "yes" ∷ codes "on" ∷ [])
    then some true
    else if contains low (codes "0" ∷ codes "false" ∷ codes "no" ∷ codes "off" ∷ [])
    then some false
    else none

unfoldable pub coerce_typed : PythonType → Value → Result Value
unfolding converted boolean_text
coerce_typed pytype (text t) =
    if pytype.is_bool
    then elim (boolean_text (map to_lower t)) [
      | some b ↦ ok (boolean b)
      | none ↦ converted (pytype.construct (text t))
    ]
    else converted (pytype.construct (text t))
coerce_typed pytype value = converted (pytype.construct value)

unfoldable pub coerce_for_column : Column → Value → Result Value
unfolding coerce_typed
coerce_for_column column null = ok null
coerce_for_column column value = elim column.python_type [
  | none ↦ ok value
  | some pytype ↦ coerce_typed pytype value
]

unfoldable pub anonymous : Principal → Bool
anonymous principal = elim principal.kind [ Kind.anonymous ↦ true | _ ↦ false ]

unfoldable pub inject_tenant : Option Text → Principal → Dict Text Value → Result (Dict Text Value)
unfolding truthy
inject_tenant none principal data_ = ok data_
inject_tenant (some field) principal data_ = elim (truthy principal.tenant_id) [
  | none ↦ err (http_error 403 "Tenant-bound resource requires tenant_id")
  | some tenant ↦ ok (assign field (text tenant) data_)
]

unfoldable pub inject_owner : Option Text → Principal → Dict Text Value → Result (Dict Text Value)
unfolding anonymous
inject_owner none principal data_ = ok data_
inject_owner (some field) principal data_ =
    if anonymous principal
    then err (http_error 401 "Owner-bound resource requires authentication")
    else ok (assign field (text principal.subject) data_)

unfoldable pub inject_policy_fields :
    Dict Text Value → Resource → Principal → Result (Dict Text Value)
unfolding truthy inject_tenant inject_owner
inject_policy_fields data_ resource principal = do
  tenanted ← inject_tenant (truthy resource.tenant_field) principal data_
  inject_owner (truthy resource.owner_field) principal tenanted
