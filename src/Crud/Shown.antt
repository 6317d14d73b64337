-- ===== src/Crud/Shown.antt =====
-- What the handlers that read show: rows that are the caller's to see, and of them no more than the
-- fields that the resource shows.
use json_api_forge.Prelude.{
  ℕ, zero, suc, min, refl, sym, ap, subst, inl, inr, Bool, true, false, not, none, some, List, [],
  map, arith, Bool-cases, Option-cases, take, All, In, here, there, contains, http_error, ok, err,
  >>=-eq-ok, append-nil, not-In-nil, In-cons, passed, ok_inj, ◌≡◌, ◌∙◌, ◌&&◌, ◌||◌, ◌∷◌, ◌++◌,
  if◌then◌else◌, nat_eq, string_eq,
}
use json_api_forge.Prelude.Dict.{lookup, pop, lookup-pop}
use json_api_forge.Prelude.Text.{Text, text_eq, codes, text_beq_iff, text_beq}
use json_api_forge.Security.Permissions.{Principal}
use json_api_forge.Crud.Model.{text, Value, Row, Columns, Resource, Clause, Select}
use json_api_forge.Crud.Fields.{without, only, readable, visible}
use json_api_forge.Crud.Clauses.{parse_int, Query}
use json_api_forge.Crud.Engine.{Engine, Sql}
use json_api_forge.Crud.Reads.{
  item_clauses, clauses_of, present, list_rows, get_row, Page, column_of, cursor_name,
  cursor_clauses, cut_page, cursor_statement, sort_order, offset_statement, list_page, cursor_page,
  offset_page,
}
use json_api_forge.Crud.Scope.{
  Ownership, Tenancy, Scoped, IsWithin, clauses_of-Scoped, item_clauses-Scoped, meets-IsWithin,
}

lookup-without :
    (k : Text) (fields : List Text) (row : Row)
    → lookup k (without fields row) ≡ (if contains k fields then none else lookup k row)
unfolding without
lookup-without k [] row = refl
lookup-without k (f ∷ fields) row =
    lookup-without k fields (pop f row)
    ∙ ground (arith, lookup-pop f k row, text_beq_iff f k, text_beq_iff k f)

lookup-only :
    (k : Text) (fields : List Text) (row : Row)
    → lookup k (only fields row) ≡ (if contains k fields then lookup k row else none)
unfolding lookup only
lookup-only k fields [] = ground arith
lookup-only k fields ((j, v) ∷ row) = elim (Bool-cases (text_beq j k)) [
  | inl same ↦
      let e : j ≡ k = (text_beq_iff j k).0 same in
      let c : contains j fields ≡ contains k fields = ap (λ t. contains t fields) e in
      ground (arith, lookup-only k fields row)
  | inr differ ↦ ground (arith, lookup-only k fields row)
]

-- The fields that a resource shows.
abbrev pub is_shown : Resource → Text → Bool
is_shown resource k =
    not (contains k resource.hidden_fields)
    && elim resource.readable_fields [ none ↦ true | some fields ↦ contains k fields ]

-- A shown row has the row's values in the fields that are not hidden and that are readable, and no
-- other field.
pub lookup-visible :
    (resource : Resource) (row : Row) (k : Text)
    → lookup k (visible row resource) ≡ (if is_shown resource k then lookup k row else none)
unfolding visible readable
lookup-visible resource row k = elim (Option-cases resource.readable_fields) [
  | inl every ↦ rw (every, readable) (lookup-without k resource.hidden_fields row ∙ ground arith)
  | inr (fields, some_) ↦
      rw (some_, readable)
        (lookup-only k fields (without resource.hidden_fields row)
          ∙ ground (arith, lookup-without k resource.hidden_fields row))
]

In-map :
    (f : Row → Row) (rows : List Row) (item : Row)
    → In item (map f rows)
    → (row : Row) × In row rows × (item ≡ f row)
In-map f [] item m = absurd (not-In-nil m)
In-map f (row ∷ rows) item m = elim (In-cons m) [
  | inl e ↦ (row, here, e)
  | inr later ↦ let (r, i, e) = In-map f rows item later in (r, there i, e)
]

In-take : (n : ℕ) (rows : List Row) (row : Row) → In row (take n rows) → In row rows
In-take zero rows row m = absurd (not-In-nil m)
In-take (suc n) [] row m = m
In-take (suc n) (r ∷ rows) row m = elim (In-cons m) [
  | inl e ↦ rw e here
  | inr later ↦ there (In-take n rows row later)
]

abbrev pub items : Page → List Row
items (cursor_page rows limit next has_more) = rows
items (offset_page rows limit offset) = rows

module _ (engine : Engine) (sql : Sql engine) (table : Columns) (resource : Resource)
    (principal : Principal) where
  -- An item is made of a row of the table that the principal may see.
  pub record IsMadeOf (action : Text) (rows : List Row) (item : Row) : Type 0 where
    pub row : Row
    pub stored : In row rows
    pub within : IsWithin table resource principal action row
    pub shown : item ≡ visible row resource

  selected-IsMadeOf :
      (action : Text) (s : Select) (clauses more : List Clause) (rows : List Row) (item r : Row)
      → s.where_ ≡ clauses ++ more
      → Scoped table resource principal action clauses
      → In r (engine.select s rows)
      → item ≡ visible r resource
      → IsMadeOf action rows item
  selected-IsMadeOf action s clauses more rows item r e scoped found shown =
      let (stored, meets) = sql.select_In s rows r found in
      record {
        row = r;
        stored = stored;
        within =
            meets-IsWithin table resource principal sql action clauses r scoped
              (All-append_left clauses more (subst (All (λ c. sql.meets c r ≡ true)) e meets));
        shown = shown;
      }
    where
      All-append_left :
          (xs ys : List Clause)
          → All (λ c. sql.meets c r ≡ true) (xs ++ ys)
          → All (λ c. sql.meets c r ≡ true) xs
      All-append_left [] ys h = tt
      All-append_left (x ∷ xs) ys h = (h.0, All-append_left xs ys h.1)

  cursor_statement-where :
      (clauses : List Clause) (query : Query) (limit : ℕ) (s : Select)
      → cursor_statement engine table resource clauses query limit ≡ ok s
      → (more : List Clause) × (s.where_ ≡ clauses ++ more)
  unfolding cursor_statement
  cursor_statement-where clauses query limit s went =
      let (a, went) =
        passed (present (lookup (codes "offset") query) || present (lookup (codes "sort") query))
          (http_error 400 "cursor pagination does not accept offset or sort") _ went in
      let (cursor_col, ec, went) = >>=-eq-ok (column_of (cursor_name resource) table) _ went in
      let (pk_col, ep, went) = >>=-eq-ok (column_of resource.primary_key table) _ went in
      let (after, ea, went) =
        >>=-eq-ok (cursor_clauses engine resource cursor_col pk_col (lookup (codes "cursor") query))
          _ went in
      (after, ap (λ t. t.where_) (sym (ok_inj went)))

  offset_statement-where :
      (clauses : List Clause) (query : Query) (limit : ℕ) (s : Select)
      → offset_statement table resource clauses query limit ≡ ok s
      → s.where_ ≡ clauses ++ []
  unfolding offset_statement
  offset_statement-where clauses query limit s went =
      let (a, went) =
        passed (present (lookup (codes "cursor") query))
          (http_error 400 "offset pagination does not accept cursor") _ went in
      let (offset, eo, went) = >>=-eq-ok (parse_int (lookup (codes "offset") query) 0 0) _ went in
      let (order, er, went) =
        >>=-eq-ok (sort_order resource table (lookup (codes "sort") query)) _ went in
      ap (λ t. t.where_) (sym (ok_inj went)) ∙ sym (append-nil clauses)

  list_page-IsMadeOf :
      (mode : Bool) (clauses : List Clause) (query : Query) (limit : ℕ) (rows : List Row)
      (page : Page)
      → Scoped table resource principal (codes "list") clauses
      → list_page mode engine table resource clauses query limit rows ≡ ok page
      → (item : Row) → In item (items page)
      → IsMadeOf (codes "list") rows item
  unfolding list_page cut_page
  list_page-IsMadeOf true clauses query limit rows page scoped went item m =
      let (s, es, went) =
        >>=-eq-ok (cursor_statement engine table resource clauses query limit) _ went in
      let (more, e) = cursor_statement-where clauses query limit s es in
      let (r, i, shown) =
        In-map (λ row. visible row resource) (take limit (engine.select s rows)) item
          (subst (λ p. In item (items p)) (sym (ok_inj went)) m) in
      selected-IsMadeOf (codes "list") s clauses more rows item r e scoped
        (In-take limit (engine.select s rows) r i) shown
  list_page-IsMadeOf false clauses query limit rows page scoped went item m =
      let (s, es, went) = >>=-eq-ok (offset_statement table resource clauses query limit) _ went in
      let (r, i, shown) =
        In-map (λ row. visible row resource) (engine.select s rows) item
          (subst (λ p. In item (items p)) (sym (ok_inj went)) m) in
      selected-IsMadeOf (codes "list") s clauses [] rows item r
        (offset_statement-where clauses query limit s es) scoped i shown

  list_rows-IsMadeOf :
      (query : Query) (rows : List Row) (page : Page)
      → list_rows engine table resource principal query rows ≡ ok page
      → (item : Row) → In item (items page)
      → IsMadeOf (codes "list") rows item
  unfolding list_rows
  list_rows-IsMadeOf query rows page went =
      let (asked, ea, went) =
        >>=-eq-ok (parse_int (lookup (codes "limit") query) resource.default_limit 1) _ went in
      let (clauses, ec, went) = >>=-eq-ok (clauses_of table resource principal query) _ went in
      list_page-IsMadeOf resource.cursor_pagination clauses query (min asked resource.max_limit)
        rows page (clauses_of-Scoped table resource principal query clauses ec) went

  first-In :
      (found rows : List Row) (item : Row)
      → elim found [
        | [] ↦ err (http_error 404 "Not found")
        | row ∷ more ↦ ok (visible row resource)
      ]
        ≡ ok item
      → (r : Row) × In r found × (item ≡ visible r resource)
  first-In [] rows item went = cc
  first-In (r ∷ found) rows item went = (r, here, sym (ok_inj went))

  get_row-IsMadeOf :
      (item_id : Value) (rows : List Row) (item : Row)
      → get_row engine table resource principal item_id rows ≡ ok item
      → IsMadeOf (codes "read") rows item
  unfolding get_row
  get_row-IsMadeOf item_id rows item went =
      let (clauses, ec, went) =
        >>=-eq-ok (item_clauses table resource principal item_id (codes "read")) _ went in
      let s : Select = record { where_ = clauses; order = []; offset = 0; limit = none } in
      let (r, i, shown) = first-In (engine.select s rows) rows item went in
      selected-IsMadeOf (codes "read") s clauses [] rows item r (sym (append-nil clauses))
        (item_clauses-Scoped table resource principal item_id (codes "read") clauses ec) i shown

  -- For a resource of tenants and a principal of one of them: every item that `list_rows` returns, in
  -- either pagination and whatever the query string asks for, is the shown part of a row of the table
  -- that has the principal's tenant in the tenant field.
  pub list_rows-own_tenant :
      (t : Tenancy resource principal) (query : Query) (rows : List Row) (page : Page)
      → list_rows engine table resource principal query rows ≡ ok page
      → (item : Row) → In item (items page)
      → (row : Row) × In row rows
        × (item ≡ visible row resource)
        × (lookup t.field row ≡ some (text t.tenant))
  list_rows-own_tenant t query rows page went item m =
      let made = list_rows-IsMadeOf query rows page went item m in
      (made.row, made.stored, made.shown, made.within.own_tenant t)

  -- For a resource that lets only owners read, and a principal that does not bypass that: a row that
  -- `get_row` returns is the shown part of a row of the table that has the principal's subject in the
  -- owner field, whatever id was asked for.
  pub get_row-own_row :
      (o : Ownership resource principal (codes "read")) (item_id : Value) (rows : List Row)
      (item : Row)
      → get_row engine table resource principal item_id rows ≡ ok item
      → (row : Row) × In row rows
        × (item ≡ visible row resource)
        × (lookup o.field row ≡ some (text principal.subject))
  get_row-own_row o item_id rows item went =
      let made = get_row-IsMadeOf item_id rows item went in
      (made.row, made.stored, made.shown, made.within.own_row o)
