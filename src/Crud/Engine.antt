-- ===== src/Crud/Engine.antt =====
-- The database behind framework/crud.py: what it calls of SQLAlchemy, of the JSON and base64 codecs
-- and of the validator, and what it relies on of the database.
use json_api_forge.Prelude.{
  nat_eq, ℕ, Bool, true, not, Option, some, List, [], map, length, all, keep, All, In, Result, ◌≤◌,
  ◌≡◌, ◌≢◌, ◌↔◌, ◌∷◌, ◌++◌, if◌then◌else◌, string_eq,
}
use json_api_forge.Prelude.Dict.{Dict, lookup, assign}
use json_api_forge.Prelude.Text.{Text, text_eq}
use json_api_forge.Crud.Model.{Value, Row, Clause, Select, null, equal, is_null}

-- result.rowcount: None, -1, or a count.
pub data Rowcount : Type 0 where
  unknown negative : Rowcount
  counted : ℕ → Rowcount

-- The calls, on the rows that the table holds. A write that raises IntegrityError gives `none` and
-- its transaction is rolled back; one that succeeds gives the rows that it leaves.
pub record Engine : Type 0 where
  -- the rows of a SELECT
  pub select : Select → List Row → List Row
  -- select(func.count()).select_from(table).where(and_(*clauses))
  pub count : List Clause → List Row → ℕ
  -- insert(table), with the inserted_primary_key of a row that is inserted alone and the rowcount of
  -- several
  pub insert : List (Dict Text Value) → List Row → Option (List Row)
  pub inserted_primary_key : Dict Text Value → List Row → Option Value
  pub inserted_rowcount : List (Dict Text Value) → List Row → Rowcount
  -- update(table).where(and_(*clauses)).values(**data), with the result's rowcount
  pub update : List Clause → Dict Text Value → List Row → Option (List Row × ℕ)
  -- delete(table).where(and_(*clauses)), with the result's rowcount
  pub delete : List Clause → List Row → Option (List Row × ℕ)
  -- base64.urlsafe_b64encode(json.dumps([value, key], separators=(",", ":"), default=str))
  pub base64_json : Value → Value → Text
  -- json.loads(base64.urlsafe_b64decode(text)): `none` when it raises, `some none` when it is no list
  pub json_base64 : Text → Option (Option (List Value))
  -- validate_json_schema of framework/validation.py
  pub validate : Option ℕ → Dict Text Value → Result (Unit {0})

-- A row after `values(**data)`.
unfoldable pub overwrite : Dict Text Value → Row → Row
overwrite [] row = row
overwrite ((k, v) ∷ data_) row = overwrite data_ (assign k v row)

-- The keys of the first values are the columns of an INSERT.
abbrev pub first_values : List (Dict Text Value) → Dict Text Value
first_values [] = []
first_values (d ∷ ds) = d

-- A row holds what was inserted in the columns of the INSERT; its other columns have their defaults.
abbrev pub Stores : Dict Text Value → Dict Text Value → Row → Type 0
Stores columns data_ row =
    (k : Text) (u v : Value)
    → lookup k columns ≡ some u
    → lookup k data_ ≡ some v
    → lookup k row ≡ some v

abbrev pub StoresAll : Dict Text Value → List (Dict Text Value) → List Row → Type 0
StoresAll columns [] [] = Unit
StoresAll columns [] (row ∷ rows) = ⊥
StoresAll columns (d ∷ ds) [] = ⊥
StoresAll columns (d ∷ ds) (row ∷ rows) = Stores columns d row × StoresAll columns ds rows

-- What SQL says of the statements, for a reading `meets` of the clauses on a row.
pub record Sql (engine : Engine) : Type 0 where
  pub meets : Clause → Row → Bool
  -- column = value
  pub meets_equal :
      (name : Text) (value : Value) (row : Row)
      → value ≢ null
      → (meets (equal name value) row ≡ true) ↔ (lookup name row ≡ some value)
  -- column IS NULL
  pub meets_is_null :
      (name : Text) (row : Row) → (meets (is_null name) row ≡ true) ↔ (lookup name row ≡ some null)
  -- a SELECT finds rows of the table that meet its clauses, no more than its limit
  pub select_In :
      (s : Select) (rows : List Row) (row : Row)
      → In row (engine.select s rows)
      → In row rows × All (λ c. meets c row ≡ true) s.where_
  pub select_limit :
      (s : Select) (rows : List Row) (n : ℕ) → s.limit ≡ some n → length (engine.select s rows) ≤ n
  -- an INSERT adds a row for each of its values
  pub insert_rows :
      (values : List (Dict Text Value)) (rows after : List Row)
      → engine.insert values rows ≡ some after
      → (added : List Row) × (after ≡ rows ++ added) × StoresAll (first_values values) values added
  -- an UPDATE writes to the rows that meet its clauses, and counts them
  pub update_rows :
      (clauses : List Clause) (data_ : Dict Text Value) (rows after : List Row) (n : ℕ)
      → engine.update clauses data_ rows ≡ some (after, n)
      → (after
          ≡ map (λ row. if all (λ c. meets c row) clauses then overwrite data_ row else row) rows)
        × (n ≡ length (keep (λ row. all (λ c. meets c row) clauses) rows))
  -- a DELETE takes out the rows that meet its clauses, and counts them
  pub delete_rows :
      (clauses : List Clause) (rows after : List Row) (n : ℕ)
      → engine.delete clauses rows ≡ some (after, n)
      → (after ≡ keep (λ row. not (all (λ c. meets c row) clauses)) rows)
        × (n ≡ length (keep (λ row. all (λ c. meets c row) clauses) rows))
