-- ===== src/Crud/Foreign.antt =====
-- The rows whose field has another value than a principal's are left as they are by statements that
-- are held to the principal's value.
use json_api_forge.Prelude.{
  ℕ, refl, ap, inl, inr, Bool, true, false, not, Option, none, some, List, [], map, arith,
  Bool-cases, all, keep, All, In, not-In-nil, In-cons, ◌≡◌, ◌∙◌, ◌∷◌, ◌++◌, if◌then◌else◌,
  string_eq,
}
use json_api_forge.Prelude.Dict.{Dict, lookup, assign, lookup-assign}
use json_api_forge.Prelude.Text.{Text, text_eq, text_beq_iff, text_beq}
use json_api_forge.Crud.Model.{Value, Row, Clause, null, boolean, number, text, opaque, equal}
use json_api_forge.Crud.Engine.{Engine, Sql, overwrite, first_values, StoresAll}

abbrev pub is_text : Text → Option Value → Bool
is_text who none = false
is_text who (some null) = false
is_text who (some (boolean b)) = false
is_text who (some (number n)) = false
is_text who (some (text t)) = text_beq t who
is_text who (some (opaque n)) = false

-- A row that has not the value of `who` in `field`.
abbrev pub foreign : Text → Text → Row → Bool
foreign field who row = not (is_text who (lookup field row))

pub own-not-foreign :
    (field who : Text) (row : Row)
    → lookup field row ≡ some (text who)
    → foreign field who row ≡ false
own-not-foreign field who row h = rw h (ground (arith, text_beq_iff who who))

all-In :
    (p : Clause → Bool) (clauses : List Clause) (c : Clause)
    → all p clauses ≡ true
    → In c clauses
    → p c ≡ true
all-In p (c ∷ clauses) d h m = elim (In-cons m) [
  | inl e ↦ rw e (ground arith)
  | inr later ↦ all-In p clauses d (ground arith) later
]
all-In p [] d h m = absurd (not-In-nil m)

pub lookup-overwrite :
    (k : Text) (data_ : Dict Text Value) (row : Row)
    → lookup k data_ ≡ none
    → lookup k (overwrite data_ row) ≡ lookup k row
unfolding lookup overwrite
lookup-overwrite k [] row h = refl
lookup-overwrite k ((j, v) ∷ data_) row h =
    let tail : lookup k data_ ≡ none = ground arith in
    let differ : text_beq j k ≡ false = ground arith in
    lookup-overwrite k data_ (assign j v row) tail ∙ lookup-assign j k v row ∙ ground arith

-- Writing rows that are not kept, to rows that are not kept either, is not seen.
keep-map :
    (p m : Row → Bool) (f : Row → Row) (rows : List Row)
    → ((row : Row) → m row ≡ true → (p row ≡ false) × (p (f row) ≡ false))
    → keep p (map (λ row. if m row then f row else row) rows) ≡ keep p rows
keep-map p m f [] h = refl
keep-map p m f (row ∷ rows) h = elim (Bool-cases (m row)) [
  | inl met ↦ rw met (ground (arith, h row met, keep-map p m f rows h))
  | inr not_met ↦ rw not_met (ground (arith, keep-map p m f rows h))
]

keep-keep :
    (p m : Row → Bool) (rows : List Row)
    → ((row : Row) → m row ≡ true → p row ≡ false)
    → keep p (keep (λ row. not (m row)) rows) ≡ keep p rows
keep-keep p m [] h = refl
keep-keep p m (row ∷ rows) h = elim (Bool-cases (m row)) [
  | inl met ↦ rw met (ground (arith, h row met, keep-keep p m rows h))
  | inr not_met ↦ rw not_met (ground (arith, keep-keep p m rows h))
]

keep-append_none :
    (p : Row → Bool) (rows added : List Row)
    → All (λ row. p row ≡ false) added
    → keep p (rows ++ added) ≡ keep p rows
keep-append_none p [] [] h = refl
keep-append_none p [] (row ∷ added) h = ground (arith, h.0, keep-append_none p [] added h.1)
keep-append_none p (row ∷ rows) added h = ground (arith, keep-append_none p rows added h)

module _ {engine : Engine} (sql : Sql engine) (field who : Text) where
  met-own :
      (clauses : List Clause) (row : Row)
      → In (equal field (text who)) clauses
      → all (λ c. sql.meets c row) clauses ≡ true
      → lookup field row ≡ some (text who)
  met-own clauses row held met =
      (sql.meets_equal field (text who) row (λ e. cc e)).0
        (all-In (λ c. sql.meets c row) clauses (equal field (text who)) met held)

  pub update-foreign :
      (clauses : List Clause) (data_ : Dict Text Value) (rows after : List Row) (n : ℕ)
      → In (equal field (text who)) clauses
      → lookup field data_ ≡ none
      → engine.update clauses data_ rows ≡ some (after, n)
      → keep (foreign field who) after ≡ keep (foreign field who) rows
  update-foreign clauses data_ rows after n held unwritten went =
      ap (keep (foreign field who)) (sql.update_rows clauses data_ rows after n went).0
      ∙ keep-map (foreign field who) (λ row. all (λ c. sql.meets c row) clauses) (overwrite data_)
          rows
          (λ row met.
            let own = met-own clauses row held met in
            (
              own-not-foreign field who row own,
              own-not-foreign field who (overwrite data_ row)
                  (lookup-overwrite field data_ row unwritten ∙ own),
            ))

  pub delete-foreign :
      (clauses : List Clause) (rows after : List Row) (n : ℕ)
      → In (equal field (text who)) clauses
      → engine.delete clauses rows ≡ some (after, n)
      → keep (foreign field who) after ≡ keep (foreign field who) rows
  delete-foreign clauses rows after n held went =
      ap (keep (foreign field who)) (sql.delete_rows clauses rows after n went).0
      ∙ keep-keep (foreign field who) (λ row. all (λ c. sql.meets c row) clauses) rows
          (λ row met. own-not-foreign field who row (met-own clauses row held met))

  StoresAll-own :
      (columns : Dict Text Value) (u : Value) (values : List (Dict Text Value)) (added : List Row)
      → lookup field columns ≡ some u
      → All (λ d. lookup field d ≡ some (text who)) values
      → StoresAll columns values added
      → All (λ row. foreign field who row ≡ false) added
  StoresAll-own columns u [] [] named own stored = tt
  StoresAll-own columns u [] (row ∷ added) named own stored = absurd stored
  StoresAll-own columns u (d ∷ values) [] named own stored = absurd stored
  StoresAll-own columns u (d ∷ values) (row ∷ added) named own stored = (
    own-not-foreign field who row (stored.0 field u (text who) named own.0),
    StoresAll-own columns u values added named own.1 stored.1,
  )

  inserted-own :
      (values : List (Dict Text Value)) (added : List Row)
      → All (λ d. lookup field d ≡ some (text who)) values
      → StoresAll (first_values values) values added
      → All (λ row. foreign field who row ≡ false) added
  inserted-own [] [] own stored = tt
  inserted-own [] (row ∷ added) own stored = absurd stored
  inserted-own (d ∷ values) added own stored =
      StoresAll-own d (text who) (d ∷ values) added own.0 own stored

  pub insert-foreign :
      (values : List (Dict Text Value)) (rows after : List Row)
      → All (λ d. lookup field d ≡ some (text who)) values
      → engine.insert values rows ≡ some after
      → keep (foreign field who) after ≡ keep (foreign field who) rows
  insert-foreign values rows after own went =
      let (added, e, stored) = sql.insert_rows values rows after went in
      ap (keep (foreign field who)) e
      ∙ keep-append_none (foreign field who) rows added (inserted-own values added own stored)
