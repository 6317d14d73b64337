-- ===== src/Crud/Paging/Page.antt =====
-- The statement behind each page of a listing by cursors.
use json_api_forge.Prelude.{
  ℕ, min, refl, ap, true, none, some, List, [], Result, ok, err, ◌+◌, ◌≡◌, ◌∙◌, ◌∷◌, ◌++◌, ◌>>=◌,
  string_eq,
}
use json_api_forge.Prelude.Dict.{lookup}
use json_api_forge.Prelude.Text.{starts_with, Text, text_eq, codes}
use json_api_forge.Security.Permissions.{Principal}
use json_api_forge.Crud.Model.{Row, Column, Columns, Resource, Clause, Select}
use json_api_forge.Crud.Fields.{coerce_for_column}
use json_api_forge.Crud.Clauses.{
  parse_int, rsplit, field_and_op, param_clauses, Query, params_clauses, build_filter_clauses,
}
use json_api_forge.Crud.Engine.{Engine}
use json_api_forge.Crud.Reads.{
  encode_cursor, column_of, cell, after_clause, cursor_order, cursor_name, cursor_clauses, cut_page,
  present, cursor_statement, clauses_of, list_page, list_rows,
}
use json_api_forge.Crud.Paging.Codec.{Codecs, decode_cursor-encode_cursor}
use json_api_forge.Crud.Paging.Walk.{with_cursor}

ok-bind-id : (r : Result (List Clause)) → (r >>= (λ x. ok x)) ≡ r
ok-bind-id (err e) = refl
ok-bind-id (ok x) = refl

column_of-some :
    (name : Text) (table : Columns) (column : Column)
    → lookup name table ≡ some column
    → column_of name table ≡ ok column
unfolding column_of
column_of-some name table column h = rw (h, column_of) refl

-- A listing by cursors that the handler accepts: the limit that it asks for, the clauses of its
-- filters and policies, and the columns of the order.
pub record Asked (table : Columns) (resource : Resource) (principal : Principal) (query : Query)
    : Type 0 where
  pub asked : ℕ
  pub clauses : List Clause
  pub cursor_col : Column
  pub pk_col : Column
  pub is_asked : parse_int (lookup (codes "limit") query) resource.default_limit 1 ≡ ok asked
  pub are_clauses : clauses_of table resource principal query ≡ ok clauses
  pub by_cursor : resource.cursor_pagination ≡ true
  pub no_cursor : lookup (codes "cursor") query ≡ none
  pub no_offset : lookup (codes "offset") query ≡ none
  pub no_sort : lookup (codes "sort") query ≡ none
  pub is_cursor_col : lookup (cursor_name resource) table ≡ some cursor_col
  pub is_pk_col : lookup resource.primary_key table ≡ some pk_col

module _ (engine : Engine) (table : Columns) (resource : Resource) (principal : Principal)
    (query : Query) (a : Asked table resource principal query) where
  abbrev pub limit_of : ℕ
  limit_of = min a.asked resource.max_limit

  abbrev pub statement : List Clause → Select
  statement after = record {
    where_ = a.clauses ++ after;
    order = cursor_order (cursor_name resource) resource.primary_key;
    offset = 0;
    limit = some (limit_of + 1);
  }

  cursor_statement-ok :
      (q : Query) (after : List Clause)
      → lookup (codes "offset") q ≡ none
      → lookup (codes "sort") q ≡ none
      → cursor_clauses engine resource a.cursor_col a.pk_col (lookup (codes "cursor") q) ≡ ok after
      → cursor_statement engine table resource a.clauses q limit_of ≡ ok (statement after)
  unfolding cursor_statement present
  cursor_statement-ok q after no_offset no_sort cursored =
      rw (no_offset, cursor_statement, present)
        (rw no_sort (
          rw (column_of-some (cursor_name resource) table a.cursor_col a.is_cursor_col) (
            rw (column_of-some resource.primary_key table a.pk_col a.is_pk_col)
              (rw cursored refl))))

  list_rows-page :
      (q : Query) (after : List Clause) (rows : List Row)
      → parse_int (lookup (codes "limit") q) resource.default_limit 1 ≡ ok a.asked
      → clauses_of table resource principal q ≡ ok a.clauses
      → lookup (codes "offset") q ≡ none
      → lookup (codes "sort") q ≡ none
      → cursor_clauses engine resource a.cursor_col a.pk_col (lookup (codes "cursor") q) ≡ ok after
      → list_rows engine table resource principal q rows
        ≡ ok (cut_page engine resource limit_of (engine.select (statement after) rows))
  unfolding list_rows list_page
  list_rows-page q after rows limited claused no_offset no_sort cursored =
      let built = cursor_statement-ok q after no_offset no_sort cursored in
      rw (limited, list_rows)
        (rw claused (
          ap (λ mode. list_page mode engine table resource a.clauses q limit_of rows) a.by_cursor
          ∙ rw built refl))

  pub first_page :
      (rows : List Row)
      → list_rows engine table resource principal (with_cursor none query) rows
        ≡ ok (cut_page engine resource limit_of (engine.select (statement []) rows))
  unfolding with_cursor cursor_clauses
  first_page rows =
      list_rows-page query [] rows a.is_asked a.are_clauses a.no_offset a.no_sort
        (rw (a.no_cursor, cursor_clauses) refl)

  params_clauses-cursor :
      (cursor : Text)
      → params_clauses table resource ((codes "cursor", cursor) ∷ query)
        ≡ params_clauses table resource query
  unfolding params_clauses param_clauses field_and_op rsplit starts_with
  params_clauses-cursor cursor = ok-bind-id (params_clauses table resource query)

  clauses_of-cursor :
      (cursor : Text)
      → clauses_of table resource principal ((codes "cursor", cursor) ∷ query) ≡ ok a.clauses
  unfolding clauses_of build_filter_clauses lookup
  clauses_of-cursor cursor = rw (params_clauses-cursor cursor) refl ∙ a.are_clauses

  -- What JSON gives back of a value is coerced to that value by the column's type.
  abbrev pub CoercesBack : Codecs engine → Row → Type 0
  CoercesBack codecs row =
      (coerce_for_column a.cursor_col (codecs.jsonable (cell (cursor_name resource) row))
        ≡ ok (cell (cursor_name resource) row))
      × (coerce_for_column a.pk_col (codecs.jsonable (cell resource.primary_key row))
          ≡ ok (cell resource.primary_key row))

  abbrev pub cursor_of : Row → Text
  cursor_of row =
      encode_cursor engine (cell (cursor_name resource) row) (cell resource.primary_key row)

  pub next_page :
      (codecs : Codecs engine) (row : Row) (rows : List Row)
      → CoercesBack codecs row
      → list_rows engine table resource principal (with_cursor (some (cursor_of row)) query) rows
        ≡ ok (
            cut_page engine resource limit_of (
              engine.select
                (statement (
                  after_clause
                    (cursor_name resource)
                    resource.primary_key
                    (cell (cursor_name resource) row)
                    (cell resource.primary_key row)
                  ∷ []))
                rows))
  unfolding with_cursor cursor_clauses lookup
  next_page codecs row rows back =
      list_rows-page ((codes "cursor", cursor_of row) ∷ query) _ rows a.is_asked
        (clauses_of-cursor (cursor_of row)) a.no_offset a.no_sort
        (rw
          (decode_cursor-encode_cursor engine codecs (cell (cursor_name resource) row)
            (cell resource.primary_key row))
          (rw (back.0) (rw (back.1) refl)))
