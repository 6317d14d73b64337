-- ===== src/Crud/Reads.antt =====
-- framework/crud.py, the handlers that read: `list_rows`, `count_rows`, `get_row` and the cursors.
use json_api_forge.Prelude.{
  ℕ, zero, suc, min, Bool, true, false, not, Option, none, some, List, [], map, ltb, length, take,
  drop, contains, Error, runtime_error, http_error, Result, ok, err, reject_if, ◌+◌, ◌-◌, ◌%◌, ◌||◌,
  ◌∷◌, ◌++◌, if◌then◌else◌, ◌==◌, ◌>>=◌, ◌>>◌, nat_eq, string_eq,
}
use json_api_forge.Prelude.Dict.{lookup}
use json_api_forge.Prelude.Text.{Text, text_eq, codes, starts_with}
use json_api_forge.Prelude.Parts.{rstrip}
use json_api_forge.Security.Permissions.{Principal}
use json_api_forge.Crud.Model.{
  Value, Row, Column, Columns, Resource, Clause, Order, Select, truthy, null, equal, greater,
  either, both,
}
use json_api_forge.Crud.Fields.{visible, coerce_for_column}
use json_api_forge.Crud.Clauses.{Query, base_clauses, build_filter_clauses, parse_int}
use json_api_forge.Crud.Engine.{Engine}

unfoldable pub repeat : ℕ → ℕ → Text
repeat zero c = []
repeat (suc n) c = c ∷ repeat n c

unfoldable pub encode_cursor : Engine → Value → Value → Text
encode_cursor engine cursor_value pk_value =
    codes "v1." ++ rstrip (λ c. c == 61) (engine.base64_json cursor_value pk_value)

-- encoded += "=" * (-len(encoded) % 4)
unfoldable pub pad : Text → Text
unfolding repeat
pad encoded = encoded ++ repeat ((4 - length encoded % 4) % 4) 61

abbrev pub invalid_cursor : Error
invalid_cursor = http_error 400 "Cursor is invalid"

unfoldable pub pair_of : Option (Option (List Value)) → Result (Value × Value)
pair_of (some (some (a ∷ b ∷ []))) = ok (a, b)
pair_of decoded = err invalid_cursor

unfoldable pub decode_cursor : Engine → Text → Result (Value × Value)
unfolding pad pair_of
decode_cursor engine raw = do
  reject_if (not (starts_with raw (codes "v1.")))
      (http_error 400 "Cursor format is invalid or from an unsupported Forge version")
  pair_of (engine.json_base64 (pad (drop 3 raw)))

-- What list_rows returns.
pub data Page : Type 0 where
  cursor_page : List Row → ℕ → Option Text → Bool → Page
  offset_page : List Row → ℕ → ℕ → Page

unfoldable pub column_of : Text → Columns → Result Column
column_of name table = elim (lookup name table) [
  | none ↦ err (runtime_error "KeyError")
  | some column ↦ ok column
]

unfoldable pub cell : Text → Row → Value
cell name row = elim (lookup name row) [ none ↦ null | some v ↦ v ]

-- The rows after the one that a cursor names, in the order of the listing.
unfoldable pub after_clause : Text → Text → Value → Value → Clause
after_clause cursor_name primary_key cursor_value pk_value =
    if cursor_name == primary_key
    then greater primary_key pk_value
    else either (greater cursor_name cursor_value)
        (both (equal cursor_name cursor_value) (greater primary_key pk_value))

unfoldable pub cursor_order : Text → Text → Order
cursor_order cursor_name primary_key =
    if cursor_name == primary_key
    then (primary_key, false) ∷ []
    else (cursor_name, false) ∷ (primary_key, false) ∷ []

-- resource.cursor_field or resource.primary_key
unfoldable pub cursor_name : Resource → Text
unfolding truthy
cursor_name resource = elim (truthy resource.cursor_field) [
  | none ↦ resource.primary_key
  | some field ↦ field
]

unfoldable pub cursor_clauses :
    Engine → Resource → Column → Column → Option Text → Result (List Clause)
unfolding after_clause cursor_name decode_cursor
cursor_clauses engine resource cursor_col pk_col none = ok []
cursor_clauses engine resource cursor_col pk_col (some cursor) = do
  raw ← decode_cursor engine cursor
  cursor_value ← coerce_for_column cursor_col raw.0
  pk_value ← coerce_for_column pk_col raw.1
  ok (after_clause (cursor_name resource) resource.primary_key cursor_value pk_value ∷ [])

unfoldable pub last : List Row → Option Row
last [] = none
last (row ∷ []) = some row
last (row ∷ next ∷ rows) = last (next ∷ rows)

unfoldable pub next_cursor : Engine → Resource → Bool → List Row → Option Text
unfolding cell encode_cursor last cursor_name
next_cursor engine resource has_more rows =
    if has_more
    then elim (last rows) [
      | none ↦ none
      | some row ↦
          some
            (encode_cursor engine (cell (cursor_name resource) row) (cell resource.primary_key row))
    ]
    else none

unfoldable pub cut_page : Engine → Resource → ℕ → List Row → Page
unfolding next_cursor
cut_page engine resource limit raw_rows =
    let has_more = ltb limit (length raw_rows) in
    let rows = take limit raw_rows in
    cursor_page (map (λ row. visible row resource) rows) limit
      (next_cursor engine resource has_more rows) has_more

unfoldable pub present : Option Text → Bool
present none = false
present (some t) = true

unfoldable pub cursor_statement :
    Engine → Columns → Resource → List Clause → Query → ℕ → Result Select
unfolding column_of cursor_clauses cursor_order cursor_name present
cursor_statement engine table resource clauses query limit = do
  reject_if (present (lookup (codes "offset") query) || present (lookup (codes "sort") query))
      (http_error 400 "cursor pagination does not accept offset or sort")
  cursor_col ← column_of (cursor_name resource) table
  pk_col ← column_of resource.primary_key table
  after ← cursor_clauses engine resource cursor_col pk_col (lookup (codes "cursor") query)
  ok (record {
    where_ = clauses ++ after;
    order = cursor_order (cursor_name resource) resource.primary_key;
    offset = 0;
    limit = some (limit + 1);
  })

unfoldable pub sort_parts : Text → Text × Bool
unfolding starts_with
sort_parts sort = if starts_with sort (codes "-") then (drop 1 sort, true) else (sort, false)

unfoldable pub sort_order : Resource → Columns → Option Text → Result Order
unfolding truthy sort_parts column_of
sort_order resource table sort = elim (truthy sort) [
  | none ↦ column_of resource.primary_key table >>= (λ pk. ok ((resource.primary_key, false) ∷ []))
  | some t ↦
      let (name, descending) = sort_parts t in
      if contains name resource.allowed_sort
      then elim (lookup name table) [
        | none ↦ err (http_error 400 "Sort field is not allowed")
        | some column ↦
            column_of resource.primary_key table
            >>= (λ pk. ok ((name, descending) ∷ (resource.primary_key, false) ∷ []))
      ]
      else err (http_error 400 "Sort field is not allowed")
]

unfoldable pub offset_statement : Columns → Resource → List Clause → Query → ℕ → Result Select
unfolding sort_order present
offset_statement table resource clauses query limit = do
  reject_if (present (lookup (codes "cursor") query))
      (http_error 400 "offset pagination does not accept cursor")
  offset ← parse_int (lookup (codes "offset") query) 0 0
  order ← sort_order resource table (lookup (codes "sort") query)
  ok (record { where_ = clauses; order = order; offset = offset; limit = some limit })

unfoldable pub clauses_of : Columns → Resource → Principal → Query → Result (List Clause)
clauses_of table resource principal query = do
  base ← base_clauses resource table principal (codes "list")
  filters ← build_filter_clauses query table resource
  ok (base ++ filters)

-- The statement of a listing and the page that is made of its rows.
unfoldable pub list_page :
    Bool → Engine → Columns → Resource → List Clause → Query → ℕ → List Row → Result Page
unfolding cursor_statement offset_statement cut_page
list_page true engine table resource clauses query limit rows = do
  s ← cursor_statement engine table resource clauses query limit
  ok (cut_page engine resource limit (engine.select s rows))
list_page false engine table resource clauses query limit rows = do
  s ← offset_statement table resource clauses query limit
  ok (offset_page (map (λ row. visible row resource) (engine.select s rows)) limit s.offset)

unfoldable pub list_rows : Engine → Columns → Resource → Principal → Query → List Row → Result Page
unfolding clauses_of list_page
list_rows engine table resource principal query rows = do
  asked ← parse_int (lookup (codes "limit") query) resource.default_limit 1
  clauses ← clauses_of table resource principal query
  list_page resource.cursor_pagination engine table resource clauses query
      (min asked resource.max_limit) rows

unfoldable pub count_rows : Engine → Columns → Resource → Principal → Query → List Row → Result ℕ
unfolding clauses_of
count_rows engine table resource principal query rows = do
  clauses ← clauses_of table resource principal query
  ok (engine.count clauses rows)

-- pk == _coerce_for_column(pk, item_id), and the policies' clauses
unfoldable pub item_clauses : Columns → Resource → Principal → Value → Text → Result (List Clause)
unfolding column_of
item_clauses table resource principal item_id action = do
  pk ← column_of resource.primary_key table
  value ← coerce_for_column pk item_id
  base ← base_clauses resource table principal action
  ok (equal resource.primary_key value ∷ base)

unfoldable pub get_row : Engine → Columns → Resource → Principal → Value → List Row → Result Row
unfolding item_clauses
get_row engine table resource principal item_id rows = do
  clauses ← item_clauses table resource principal item_id (codes "read")
  elim (engine.select (record { where_ = clauses; order = []; offset = 0; limit = none }) rows) [
    | [] ↦ err (http_error 404 "Not found")
    | row ∷ more ↦ ok (visible row resource)
  ]
