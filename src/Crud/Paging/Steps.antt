-- ===== src/Crud/Paging/Steps.antt =====
-- One step of a client that follows the cursors: the rows behind a page, and the cursor after it.
use json_api_forge.Prelude.{
  ℕ, zero, suc, refl, sym, ap, subst, inl, inr, true, false, Option, none, some, List, [], map,
  arith, ltb, length, take, All, In, here, there, All-In, ok, not-In-nil, In-cons, ◌+◌, ◌≤◌, ◌<◌,
  ◌≡◌, ◌∙◌, ◌↔◌, ◌⊎◌, ◌∷◌, ◌++◌,
}
use json_api_forge.Security.Permissions.{Principal}
use json_api_forge.Prelude.Text.{Text}
use json_api_forge.Crud.Model.{Row, Columns, Resource, Clause}
use json_api_forge.Crud.Fields.{visible}
use json_api_forge.Crud.Clauses.{Query}
use json_api_forge.Crud.Engine.{Engine, Sql}
use json_api_forge.Crud.Reads.{
  cell, after_clause, cursor_name, last, next_cursor, cut_page, list_rows,
}
use json_api_forge.Crud.Paging.Codec.{Codecs}
use json_api_forge.Crud.Paging.Order.{Listing, Sorted, Collation, Precedes, meets-after_clause}
use json_api_forge.Crud.Paging.Walk.{with_cursor, next_of, prepend, walk}
use json_api_forge.Crud.Paging.Page.{
  Asked, limit_of, statement, first_page, CoercesBack, cursor_of, next_page,
}
use json_api_forge.Crud.Paging.Runs.{All-append_left, All-append_right, All-append}

last-some : (r : Row) (rows : List Row) → (s : Row) × (last (r ∷ rows) ≡ some s) × In s (r ∷ rows)
unfolding last
last-some r [] = (r, refl, here)
last-some r (q ∷ rows) = let (s, e, m) = last-some q rows in (s, e, there m)

-- The last of a list in order comes after all others.
pub last-max :
    (R : Row → Row → Type 0) (rows : List Row) (s x : Row)
    → last rows ≡ some s
    → Sorted R rows
    → In x rows
    → (x ≡ s) ⊎ R x s
unfolding last
last-max R [] s x e sorted m = absurd (not-In-nil m)
last-max R (r ∷ []) s x e sorted m = elim (In-cons m) [
  | inl same ↦ inl (same ∙ cc e)
  | inr later ↦ absurd (not-In-nil later)
]
last-max R (r ∷ q ∷ rows) s x e sorted m = elim (In-cons m) [
  | inl same ↦
      let (t, f, i) = last-some q rows in
      let is_last : t ≡ s = cc (e, f) in
      inr (
        subst (λ a. R a s) (sym same)
          (All-In (R r) sorted.0 (subst (λ b. In b (q ∷ rows)) is_last i)))
  | inr later ↦ last-max R (q ∷ rows) s x e sorted.1 later
]

pub take-some :
    (n : ℕ) (rows : List Row)
    → 1 ≤ n
    → n < length rows
    → (s : Row) × (last (take n rows) ≡ some s) × In s (take n rows)
take-some zero rows positive more = absurd (omega arith)
take-some (suc n) [] positive more = absurd (omega arith)
take-some (suc n) (r ∷ rows) positive more = last-some r (take n rows)

pub take-all : (n : ℕ) (rows : List Row) → length rows ≤ n → take n rows ≡ rows
take-all zero [] h = refl
take-all zero (r ∷ rows) h = absurd (omega arith)
take-all (suc n) [] h = refl
take-all (suc n) (r ∷ rows) h = ap (◌∷◌ r) (take-all n rows (omega arith))

pub map-append : (f : Row → Row) (xs ys : List Row) → map f (xs ++ ys) ≡ map f xs ++ map f ys
map-append f [] ys = refl
map-append f (x ∷ xs) ys = ap (◌∷◌ (f x)) (map-append f xs ys)

module _ (engine : Engine) (sql : Sql engine) (table : Columns) (resource : Resource)
    (principal : Principal) (query : Query) (a : Asked table resource principal query)
    (codecs : Codecs engine) (collation : Collation engine sql) (rows : List Row)
    (listing : Listing collation (cursor_name resource) resource.primary_key rows)
    (back : (row : Row)
      → In row rows
      → CoercesBack engine table resource principal query a codecs row)
    (positive : 1 ≤ limit_of engine table resource principal query a) where
  abbrev pub Before : Row → Row → Type 0
  Before = Precedes collation (cursor_name resource) resource.primary_key

  abbrev pub limit : ℕ
  limit = limit_of engine table resource principal query a

  -- The row that a cursor was made of, if the page is not the first, and what it adds.
  abbrev pub after : Option Row → List Clause
  after none = []
  after (some r) =
      after_clause (cursor_name resource) resource.primary_key (cell (cursor_name resource) r)
        (cell resource.primary_key r)
      ∷ []

  abbrev pub cursor : Option Row → Option Text
  cursor none = none
  cursor (some r) = some (cursor_of engine table resource principal query a r)

  abbrev pub IsBeyond : Option Row → Row → Type 0
  IsBeyond none row = Unit
  IsBeyond (some r) row = Before r row

  abbrev pub IsStored : Option Row → Type 0
  IsStored none = Unit
  IsStored (some r) = In r rows

  abbrev pub raw : Option Row → List Row
  raw at = engine.select (statement engine table resource principal query a (after at)) rows

  -- The rows that the listing asks for.
  abbrev pub IsWanted : Row → Type 0
  IsWanted row = In row rows × All (λ c. sql.meets c row ≡ true) a.clauses

  pub after-IsBeyond :
      (at : Option Row) (row : Row)
      → IsStored at
      → In row rows
      → All (λ c. sql.meets c row ≡ true) (after at) ↔ IsBeyond at row
  after-IsBeyond none row stored m = (λ h. tt, λ h. tt)
  after-IsBeyond (some r) row stored m =
      let either_way =
        meets-after_clause collation (cursor_name resource) resource.primary_key r row
          (listing.placed r stored) (listing.placed row m) in
      (λ h. either_way.0 h.0, λ b. (either_way.1 b, tt))

  pub raw_sound :
      (at : Option Row) (row : Row) → IsStored at → In row (raw at) → IsWanted row × IsBeyond at row
  raw_sound at row stored m =
      let (i, meets) =
        sql.select_In (statement engine table resource principal query a (after at)) rows row m in
      (
        (i, All-append_left (λ c. sql.meets c row ≡ true) a.clauses (after at) meets),
        (after-IsBeyond at row stored i).0
            (All-append_right (λ c. sql.meets c row ≡ true) a.clauses (after at) meets),
      )

  pub raw-first :
      (at : Option Row) (row : Row)
      → IsStored at
      → IsWanted row
      → IsBeyond at row
      → In row (raw at) ⊎ ((length (raw at) ≡ limit + 1) × All (λ r. Before r row) (raw at))
  raw-first at row stored wanted beyond =
      listing.select_first (statement engine table resource principal query a (after at))
        (limit + 1) row refl refl refl wanted.0
        (All-append (λ c. sql.meets c row ≡ true) a.clauses (after at) wanted.1
          ((after-IsBeyond at row stored wanted.0).1 beyond))

  pub raw-Sorted : (at : Option Row) → Sorted Before (raw at)
  raw-Sorted at =
      listing.select_sorted (statement engine table resource principal query a (after at)) refl refl

  -- The request for a page.
  page-at :
      (at : Option Row)
      → IsStored at
      → list_rows engine table resource principal (with_cursor (cursor at) query) rows
        ≡ ok (cut_page engine resource limit (raw at))
  page-at none stored = first_page engine table resource principal query a rows
  page-at (some r) stored =
      next_page engine table resource principal query a codecs r rows (back r stored)

  pub walk-last :
      (n : ℕ) (at : Option Row)
      → IsStored at
      → ltb limit (length (raw at)) ≡ false
      → walk engine table resource principal query rows (suc n) (cursor at)
        ≡ some (ok (map (λ r. visible r resource) (take limit (raw at))))
  unfolding walk cut_page next_cursor next_of
  walk-last n at stored done =
      rw (page-at at stored, walk) (rw (done, cut_page, next_cursor, next_of) refl)

  pub walk-more :
      (n : ℕ) (at : Option Row) (r : Row)
      → IsStored at
      → ltb limit (length (raw at)) ≡ true
      → last (take limit (raw at)) ≡ some r
      → walk engine table resource principal query rows (suc n) (cursor at)
        ≡ prepend
            (map (λ r. visible r resource) (take limit (raw at)))
            (walk engine table resource principal query rows n (cursor (some r)))
  unfolding walk cut_page next_cursor next_of
  walk-more n at r stored more end =
      rw (page-at at stored, walk) (rw (more, cut_page, next_cursor, next_of) (rw end refl))
