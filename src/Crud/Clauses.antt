-- ===== src/Crud/Clauses.antt =====
-- framework/crud.py, the WHERE of a request: the policies' clauses, the filters and the search of its
-- query string.
use json_api_forge.Prelude.{
  ℕ, Bool, true, false, not, Option, none, some, List, [], map, ltb, drop, contains, runtime_error,
  http_error, Result, ok, err, ◌+◌, ◌-◌, ◌*◌, ◌&&◌, ◌||◌, ◌∷◌, ◌++◌, if◌then◌else◌, ◌==◌, ◌>>=◌,
  nat_eq, string_eq,
}
use json_api_forge.Prelude.Dict.{Dict, lookup}
use json_api_forge.Prelude.Text.{Text, codes, starts_with, text_eq}
use json_api_forge.Prelude.Parts.{split, is_digit, to_lower, strip}
use json_api_forge.Security.Permissions.{Principal, has_permission}
use json_api_forge.Crud.Model.{
  Value, Column, Columns, Resource, Clause, truthy, text, equal, not_equal, greater, at_least, less,
  at_most, like, ilike, one_of, is_null, is_not_null, either,
}
use json_api_forge.Crud.Fields.{coerce_for_column, anonymous}

unfoldable pub tenant_clause : Resource → Columns → Principal → Result (List Clause)
unfolding truthy
tenant_clause resource table principal = elim (truthy resource.tenant_field) [
  | none ↦ ok []
  | some field ↦ elim (lookup field table) [
    | none ↦ err (runtime_error "tenant_field is missing from the table")
    | some column ↦ elim (truthy principal.tenant_id) [
      | none ↦ err (http_error 403 "Tenant-bound resource requires tenant_id")
      | some tenant ↦ ok (equal field (text tenant) ∷ [])
    ]
  ]
]

-- resource.owner_bypass_permission and has_permission(principal, …)
unfoldable pub bypasses_owner : Resource → Principal → Bool
unfolding truthy
bypasses_owner resource principal = elim (truthy resource.owner_bypass_permission) [
  | none ↦ false
  | some permission ↦ has_permission principal (some permission)
]

unfoldable pub owner_clause : Resource → Columns → Principal → Text → Result (List Clause)
unfolding truthy bypasses_owner anonymous
owner_clause resource table principal action = elim (truthy resource.owner_field) [
  | none ↦ ok []
  | some field ↦
      if contains action resource.owner_actions
      then elim (lookup field table) [
        | none ↦ err (runtime_error "owner_field is missing from the table")
        | some column ↦
            if bypasses_owner resource principal
            then ok []
            else if anonymous principal
            then err (http_error 401 "Owner-bound resource requires authentication")
            else ok (equal field (text principal.subject) ∷ [])
      ]
      else ok []
]

unfoldable pub soft_delete_clause : Resource → Columns → Result (List Clause)
unfolding truthy
soft_delete_clause resource table = elim (truthy resource.soft_delete_field) [
  | none ↦ ok []
  | some field ↦ elim (lookup field table) [
    | none ↦ err (runtime_error "soft_delete_field missing from the table")
    | some column ↦ ok (is_null field ∷ [])
  ]
]

unfoldable pub base_clauses : Resource → Columns → Principal → Text → Result (List Clause)
unfolding tenant_clause owner_clause soft_delete_clause
base_clauses resource table principal action = do
  tenant ← tenant_clause resource table principal
  owner ← owner_clause resource table principal action
  deleted ← soft_delete_clause resource table
  ok (tenant ++ owner ++ deleted)

-- The digits of an integer's text, single underscores between them.
unfoldable pub digits : Bool → ℕ → Text → Option ℕ
digits after_digit n [] = if after_digit then some n else none
digits after_digit n (c ∷ s) =
    let as_digit = digits true (10 * n + (c - 48)) s in
    let as_bar = digits false n s in
    if is_digit c then as_digit else if c == 95 && after_digit then as_bar else none

-- int(value) of an ASCII text: whether it has a minus sign, and its absolute value.
unfoldable pub signed : Text → Option (Bool × ℕ)
unfolding digits
signed [] = none
signed (c ∷ s) =
    if c == 45
    then elim (digits false 0 s) [ none ↦ none | some n ↦ some (true, n) ]
    else if c == 43
    then elim (digits false 0 s) [ none ↦ none | some n ↦ some (false, n) ]
    else elim (digits false 0 (c ∷ s)) [ none ↦ none | some n ↦ some (false, n) ]

unfoldable pub parse_int : Option Text → ℕ → ℕ → Result ℕ
unfolding signed strip
parse_int none default_ minimum = ok default_
parse_int (some value) default_ minimum = elim (signed (strip value)) [
  | none ↦ err (http_error 400 "Pagination values must be integers")
  | some (negative, n) ↦
      if negative && ltb 0 n || ltb n minimum
      then err (http_error 400 "Pagination value is below its minimum")
      else ok n
]

-- [_coerce_for_column(column, x) for x in parts if x != ""]
unfoldable pub coerce_all : Column → List Text → Result (List Value)
unfolding coerce_for_column
coerce_all column [] = ok []
coerce_all column ([] ∷ parts) = coerce_all column parts
coerce_all column ((c ∷ t) ∷ parts) = do
  value ← coerce_for_column column (text (c ∷ t))
  values ← coerce_all column parts
  ok (value ∷ values)

-- The operators that compare with one value, or match a pattern.
unfoldable pub compare_clause : Text → Text → Value → Text → Result Clause
compare_clause name op value raw =
    if op == codes "eq"
    then ok (equal name value)
    else if op == codes "ne"
    then ok (not_equal name value)
    else if op == codes "gt"
    then ok (greater name value)
    else if op == codes "gte"
    then ok (at_least name value)
    else if op == codes "lt"
    then ok (less name value)
    else if op == codes "lte"
    then ok (at_most name value)
    else if op == codes "like"
    then ok (like name raw)
    else if op == codes "ilike"
    then ok (ilike name raw)
    else err (http_error 400 "Unsupported filter operator")

unfoldable pub filter_clause : Text → Column → Text → Text → Result Clause
unfolding coerce_all coerce_for_column compare_clause split
filter_clause name column op raw =
    if op == codes "isnull"
    then if contains (map to_lower raw) (codes "1" ∷ codes "true" ∷ codes "yes" ∷ [])
      then ok (is_null name)
      else ok (is_not_null name)
    else if op == codes "in"
    then coerce_all column (split 44 raw) >>= (λ values. ok (one_of name values))
    else coerce_for_column column (text raw) >>= (λ value. compare_clause name op value raw)

-- key.rsplit("__", 1), where the key has "__" in it
unfoldable pub rsplit : Text → Option (Text × Text)
unfolding starts_with
rsplit [] = none
rsplit (c ∷ s) = elim (rsplit s) [
  | some (field, op) ↦ some (c ∷ field, op)
  | none ↦ if starts_with (c ∷ s) (codes "__") then some ([], drop 1 s) else none
]

unfoldable pub field_and_op : Text → Text × Text
unfolding rsplit
field_and_op key = elim (rsplit key) [ none ↦ (key, codes "eq") | some parts ↦ parts ]

abbrev pub reserved : List Text
reserved = codes "limit" ∷ codes "offset" ∷ codes "cursor" ∷ codes "sort" ∷ codes "q" ∷ []

-- One entry of the query string: no clause unless it names a field and an operator that are allowed.
unfoldable pub param_clauses : Columns → Resource → Text → Text → Result (List Clause)
unfolding field_and_op filter_clause
param_clauses table resource key raw =
    let (field, op) = field_and_op key in
    if contains key reserved
      || not (contains field resource.allowed_filters)
      || not (contains op resource.filter_operators)
    then ok []
    else elim (lookup field table) [
      | none ↦ ok []
      | some column ↦ do clause ← filter_clause field column op raw; ok (clause ∷ [])
    ]

-- The query string's entries. Starlette keeps one entry of each name.
abbrev pub Query : Type 0
Query = Dict Text Text

unfoldable pub params_clauses : Columns → Resource → Query → Result (List Clause)
unfolding param_clauses
params_clauses table resource [] = ok []
params_clauses table resource ((key, raw) ∷ params) = do
  first ← param_clauses table resource key raw
  rest ← params_clauses table resource params
  ok (first ++ rest)

-- [table.c[name].ilike(f"%{q}%") for name in search_fields if name in table.c]
unfoldable pub searchable : Columns → List Text → Text → List Clause
searchable table [] q = []
searchable table (name ∷ names) q =
    let rest = searchable table names q in
    elim (lookup name table) [
      | none ↦ rest
      | some column ↦ ilike name (codes "%" ++ q ++ codes "%") ∷ rest
    ]

-- or_(*clauses)
unfoldable pub or_ : Clause → List Clause → Clause
or_ clause [] = clause
or_ clause (next ∷ clauses) = either clause (or_ next clauses)

unfoldable pub search_clauses : Columns → Resource → Option Text → List Clause
unfolding searchable or_
search_clauses table resource none = []
search_clauses table resource (some []) = []
search_clauses table resource (some (c ∷ q)) =
    elim (searchable table resource.search_fields (c ∷ q)) [
      | [] ↦ []
      | clause ∷ clauses ↦ or_ clause clauses ∷ []
    ]

unfoldable pub build_filter_clauses : Query → Columns → Resource → Result (List Clause)
unfolding params_clauses search_clauses
build_filter_clauses query table resource = do
  filters ← params_clauses table resource query
  ok (filters ++ search_clauses table resource (lookup (codes "q") query))
