-- ===== src/Crud/Paging/Order.antt =====
-- The order in which cursor pagination lists rows, by the cursor's column and then by the primary key,
-- and what it relies on of the database's ORDER BY and LIMIT.
use json_api_forge.Prelude.{
  ℕ, refl, sym, ap, subst, inl, inr, Bool, true, false, none, some, List, [], arith, Bool-cases,
  Option-cases, length, All, In, ◌≡◌, ◌∙◌, ◌≢◌, ◌↔◌, ◌⊎◌, ◌&&◌, ◌||◌, ◌∷◌, string_eq,
}
use json_api_forge.Prelude.Dict.{lookup}
use json_api_forge.Prelude.Text.{Text, text_eq, text_beq, text_beq_iff}
use json_api_forge.Crud.Model.{Value, Row, Clause, Select, null, equal, greater, either, both}
use json_api_forge.Crud.Engine.{Engine, Sql}
use json_api_forge.Crud.Reads.{cell, after_clause, cursor_order}

-- Each row comes before all that follow it.
abbrev pub Sorted {ℓ κ} : {A : Type ℓ} → (A → A → Type κ) → List A → Type κ
Sorted R [] = Unit
Sorted R (x ∷ xs) = All (R x) xs × Sorted R xs

-- How a database compares the values of a column.
pub record Collation (engine : Engine) (sql : Sql engine) : Type 0 where
  pub below : Value → Value → Bool
  pub below_irrefl : (v : Value) → below v v ≡ false
  pub below_trans : (u v w : Value) → below u v ≡ true → below v w ≡ true → below u w ≡ true
  -- column > value, where neither is NULL
  pub meets_greater :
      (name : Text) (value : Value) (row : Row)
      → value ≢ null
      → cell name row ≢ null
      → sql.meets (greater name value) row ≡ below value (cell name row)
  pub meets_either :
      (a b : Clause) (row : Row) → sql.meets (either a b) row ≡ (sql.meets a row || sql.meets b row)
  pub meets_both :
      (a b : Clause) (row : Row) → sql.meets (both a b) row ≡ (sql.meets a row && sql.meets b row)

module _ {engine : Engine} {sql : Sql engine} (collation : Collation engine sql)
    (cursor key : Text) where
  -- Smaller in the cursor's column, or equal there and smaller in the primary key.
  abbrev pub Precedes : Row → Row → Type 0
  Precedes a b =
      (collation.below (cell cursor a) (cell cursor b) ≡ true)
      ⊎ ((cell cursor a ≡ cell cursor b) × (collation.below (cell key a) (cell key b) ≡ true))

  pub Precedes-irrefl : (a : Row) → Precedes a a → ⊥
  Precedes-irrefl a (inl less_) = cc (less_, collation.below_irrefl (cell cursor a))
  Precedes-irrefl a (inr (same, less_)) = cc (less_, collation.below_irrefl (cell key a))

  pub Precedes-trans : (a b c : Row) → Precedes a b → Precedes b c → Precedes a c
  Precedes-trans a b c (inl p) (inl q) =
      inl (collation.below_trans (cell cursor a) (cell cursor b) (cell cursor c) p q)
  Precedes-trans a b c (inl p) (inr (e, q)) =
      inl (subst (λ v. collation.below (cell cursor a) v ≡ true) e p)
  Precedes-trans a b c (inr (e, p)) (inl q) =
      inl (subst (λ v. collation.below v (cell cursor c) ≡ true) (sym e) q)
  Precedes-trans a b c (inr (e, p)) (inr (f, q)) =
      inr (e ∙ f, collation.below_trans (cell key a) (cell key b) (cell key c) p q)

  -- The row has a value in both columns.
  abbrev pub IsPlaced : Row → Type 0
  IsPlaced row = (cell cursor row ≢ null) × (cell key row ≢ null)

  cell-some : (name : Text) (v : Value) (row : Row) → lookup name row ≡ some v → cell name row ≡ v
  unfolding cell
  cell-some name v row h = rw (h, cell) refl

  cell-none : (name : Text) (row : Row) → lookup name row ≡ none → cell name row ≡ null
  unfolding cell
  cell-none name row h = rw (h, cell) refl

  lookup-cell :
      (name : Text) (v : Value) (row : Row)
      → v ≢ null
      → (lookup name row ≡ some v) ↔ (v ≡ cell name row)
  lookup-cell name v row there_ = elim (Option-cases (lookup name row)) [
    | inl gone ↦ (λ h. cc (gone, h), λ h. absurd (there_ (h ∙ cell-none name row gone)))
    | inr (w, found) ↦ (
      λ h. sym (cell-some name v row h),
      λ h. found ∙ ap some (sym (h ∙ cell-some name w row found)),
    )
  ]

  after-by_key :
      (a b : Row)
      → IsPlaced a
      → IsPlaced b
      → cursor ≡ key
      → (sql.meets (greater key (cell key a)) b ≡ true) ↔ Precedes a b
  after-by_key a b pa pb e =
      let gt = collation.meets_greater key (cell key a) b pa.1 pb.1 in
      (
        λ h. inl (subst (λ n. collation.below (cell n a) (cell n b) ≡ true) (sym e) (sym gt ∙ h)),
        λ p. gt ∙ elim p [
          | inl q ↦ subst (λ n. collation.below (cell n a) (cell n b) ≡ true) e q
          | inr q ↦ q.1
        ],
      )

  after-by_both :
      (a b : Row)
      → IsPlaced a
      → IsPlaced b
      → (sql.meets
            (either
              (greater cursor (cell cursor a))
              (both (equal cursor (cell cursor a)) (greater key (cell key a))))
            b
          ≡ true)
        ↔ Precedes a b
  after-by_both a b pa pb =
      let same : Clause = equal cursor (cell cursor a) in
      let more : Clause = greater key (cell key a) in
      ground (
        arith,
        collation.meets_greater key (cell key a) b pa.1 pb.1,
        collation.meets_greater cursor (cell cursor a) b pa.0 pb.0,
        sql.meets_equal cursor (cell cursor a) b pa.0,
        lookup-cell cursor (cell cursor a) b pa.0,
        collation.meets_either (greater cursor (cell cursor a)) (both same more) b,
        collation.meets_both same more b,
      )

  -- The clause that a cursor adds asks for the rows after the one that it was made of.
  pub meets-after_clause :
      (a b : Row)
      → IsPlaced a
      → IsPlaced b
      → (sql.meets (after_clause cursor key (cell cursor a) (cell key a)) b ≡ true) ↔ Precedes a b
  unfolding after_clause
  meets-after_clause a b pa pb = elim (Bool-cases (text_beq cursor key)) [
    | inl same ↦ rw same (after-by_key a b pa pb ((text_beq_iff cursor key).0 same))
    | inr differ ↦ rw differ (after-by_both a b pa pb)
  ]

-- What a database does with ORDER BY and LIMIT on the rows of a table, whose primary key tells them
-- apart and which have a value in the cursor's column.
pub record Listing {engine : Engine} {sql : Sql engine} (collation : Collation engine sql)
    (cursor key : Text) (rows : List Row) : Type 0 where
  pub placed : (row : Row) → In row rows → IsPlaced collation cursor key row
  -- ORDER BY: the rows come in order
  pub select_sorted :
      (s : Select)
      → s.order ≡ cursor_order cursor key
      → s.offset ≡ 0
      → Sorted (Precedes collation cursor key) (engine.select s rows)
  -- LIMIT n: a row that meets the clauses is returned, or n rows before it are
  pub select_first :
      (s : Select) (n : ℕ) (row : Row)
      → s.order ≡ cursor_order cursor key
      → s.offset ≡ 0
      → s.limit ≡ some n
      → In row rows
      → All (λ c. sql.meets c row ≡ true) s.where_
      → In row (engine.select s rows)
        ⊎ ((length (engine.select s rows) ≡ n)
            × All (λ r. Precedes collation cursor key r row) (engine.select s rows))
