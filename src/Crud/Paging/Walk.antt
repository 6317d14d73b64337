-- ===== src/Crud/Paging/Walk.antt =====
-- A client that asks for the first page of a listing and follows `next_cursor` to the last one.
use json_api_forge.Prelude.{ℕ, zero, suc, Option, none, some, List, Result, ok, err, ◌∷◌, ◌++◌}
use json_api_forge.Prelude.Text.{Text, codes}
use json_api_forge.Security.Permissions.{Principal}
use json_api_forge.Crud.Model.{Row, Columns, Resource}
use json_api_forge.Crud.Clauses.{Query}
use json_api_forge.Crud.Engine.{Engine}
use json_api_forge.Crud.Reads.{Page, list_rows, cursor_page, offset_page}
use json_api_forge.Crud.Shown.{items}

unfoldable pub with_cursor : Option Text → Query → Query
with_cursor none query = query
with_cursor (some cursor) query = (codes "cursor", cursor) ∷ query

unfoldable pub next_of : Page → Option Text
next_of (cursor_page rows limit next has_more) = next
next_of (offset_page rows limit offset) = none

unfoldable pub prepend : List Row → Option (Result (List Row)) → Option (Result (List Row))
prepend page none = none
prepend page (some (err e)) = some (err e)
prepend page (some (ok rest)) = some (ok (page ++ rest))

-- The items of all pages, in at most the given number of requests; `none` when more are needed.
unfoldable pub walk :
    Engine
    → Columns
    → Resource
    → Principal
    → Query
    → List Row
    → ℕ
    → Option Text
    → Option (Result (List Row))
unfolding with_cursor next_of prepend
walk engine table resource principal query rows zero cursor = none
walk engine table resource principal query rows (suc requests) cursor =
    elim (list_rows engine table resource principal (with_cursor cursor query) rows) [
      | err e ↦ some (err e)
      | ok page ↦ elim (next_of page) [
        | none ↦ some (ok (items page))
        | some next ↦
            prepend (items page)
              (walk engine table resource principal query rows requests (some next))
      ]
    ]
