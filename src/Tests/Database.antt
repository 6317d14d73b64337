-- ===== src/Tests/Database.antt =====
-- A database that keeps its rows in a list in the order of their ids, as a concrete engine for the
-- handlers of framework/crud.py, with the laws that they rely on.
use json_api_forge.Prelude.{
  nat_eq, ℕ, zero, suc, refl, sym, ap, subst, inl, inr, Bool, true, false, not, Option, none, some,
  List, [], map, arith, ltb, Bool-cases, length, take, drop, length-take, take-append-drop, any,
  all, keep, All, In, here, there, In-append_left, In-append_right, ok, not-In-nil, In-cons, ◌≤◌,
  ◌≡◌, ◌∙◌, ◌↔◌, ◌&&◌, ◌||◌, ◌∷◌, ◌++◌, if◌then◌else◌, ◌==◌, nat_eq, string_eq,
}
use json_api_forge.Prelude.Dict.{lookup}
use json_api_forge.Prelude.Text.{Text, text_eq, text_beq, text_beq_iff, codes}
use json_api_forge.Crud.Model.{
  Value, Row, Clause, null, boolean, number, text, opaque, equal, not_equal, greater, at_least,
  less, at_most, like, ilike, one_of, is_null, is_not_null, either, both,
}
use json_api_forge.Crud.Engine.{counted, Engine, overwrite, first_values, StoresAll, Sql}
use json_api_forge.Crud.Reads.{cell}

abbrev code_of : Value → Text
code_of null = 0 ∷ []
code_of (boolean true) = 1 ∷ []
code_of (boolean false) = 2 ∷ []
code_of (number n) = 3 ∷ n ∷ []
code_of (text t) = 4 ∷ t
code_of (opaque n) = 5 ∷ n ∷ []

abbrev head : Text → ℕ
head [] = 0
head (c ∷ t) = c

abbrev value_of : Text → Value
value_of [] = null
value_of (k ∷ t) =
    if k == 1
    then boolean true
    else if k == 2
    then boolean false
    else if k == 3
    then number (head t)
    else if k == 4
    then text t
    else if k == 5
    then opaque (head t)
    else null

value_of-code_of : (v : Value) → value_of (code_of v) ≡ v
value_of-code_of null = refl
value_of-code_of (boolean true) = refl
value_of-code_of (boolean false) = refl
value_of-code_of (number n) = refl
value_of-code_of (text t) = refl
value_of-code_of (opaque n) = refl

abbrev pub same_value : Option Value → Value → Bool
same_value none v = false
same_value (some w) v = text_beq (code_of w) (code_of v)

pub same_value_iff : (o : Option Value) (v : Value) → (same_value o v ≡ true) ↔ (o ≡ some v)
same_value_iff none v = (λ h. cc, λ h. cc)
same_value_iff (some w) v = (
  λ h. ap some (
      sym (value_of-code_of w)
      ∙ ap value_of ((text_beq_iff (code_of w) (code_of v)).0 h)
      ∙ value_of-code_of v),
  λ h.
      (text_beq_iff (code_of w) (code_of v)).1
        (ap (λ o. elim o [ none ↦ code_of w | some u ↦ code_of u ]) h),
)

-- Numbers are compared; any other value is not before another.
abbrev pub value_below : Value → Value → Bool
value_below (number m) (number n) = ltb m n
value_below u v = false

abbrev pub evaluate : Clause → Row → Bool
evaluate (equal name v) row = same_value (lookup name row) v
evaluate (not_equal name v) row = not (same_value (lookup name row) v)
evaluate (greater name v) row = value_below v (cell name row)
evaluate (at_least name v) row = not (value_below (cell name row) v)
evaluate (less name v) row = value_below (cell name row) v
evaluate (at_most name v) row = not (value_below v (cell name row))
evaluate (like name pattern) row = same_value (lookup name row) (text pattern)
evaluate (ilike name pattern) row = same_value (lookup name row) (text pattern)
evaluate (one_of name vs) row = any (λ v. same_value (lookup name row) v) vs
evaluate (is_null name) row = same_value (lookup name row) null
evaluate (is_not_null name) row = not (same_value (lookup name row) null)
evaluate (either a b) row = evaluate a row || evaluate b row
evaluate (both a b) row = evaluate a row && evaluate b row

abbrev pub matches : List Clause → Row → Bool
matches clauses row = all (λ c. evaluate c row) clauses

abbrev pub limited : Option ℕ → List Row → List Row
limited none rows = rows
limited (some n) rows = take n rows

-- Every text is a group of four: two values, and one `=` at the end.
abbrev pub digit_of : Value → ℕ
digit_of (number n) = suc n
digit_of v = 0

abbrev pub of_digit : ℕ → Value
of_digit zero = null
of_digit (suc n) = number n

abbrev undo : Text → Option (Option (List Value))
undo (a ∷ b ∷ c ∷ t) = some (some (of_digit a ∷ of_digit b ∷ []))
undo t = none

abbrev pub database : Engine
database = record {
  select = λ s rows. limited s.limit (drop s.offset (keep (matches s.where_) rows));
  count = λ clauses rows. length (keep (matches clauses) rows);
  insert = λ values rows. some (rows ++ values);
  inserted_primary_key = λ data_ rows. lookup (codes "id") data_;
  inserted_rowcount = λ values rows. counted (length values);
  update = λ clauses data_ rows. some (
    map (λ row. if matches clauses row then overwrite data_ row else row) rows,
    length (keep (matches clauses) rows),
  );
  delete = λ clauses rows.
      some (keep (λ row. not (matches clauses row)) rows, length (keep (matches clauses) rows));
  base64_json = λ a b. digit_of a ∷ digit_of b ∷ 0 ∷ 61 ∷ [];
  json_base64 = undo;
  validate = λ schema data_. ok tt;
}

pub In-keep :
    (p : Row → Bool) (rows : List Row) (row : Row)
    → In row (keep p rows)
    → In row rows × (p row ≡ true)
In-keep p [] row m = absurd (not-In-nil m)
In-keep p (r ∷ rows) row m = elim (Bool-cases (p r)) [
  | inl held ↦
      elim (In-cons (subst (λ b. In row (if b then r ∷ keep p rows else keep p rows)) held m)) [
        | inl e ↦ (rw e here, ap p e ∙ held)
        | inr later ↦ let (i, h) = In-keep p rows row later in (there i, h)
      ]
  | inr gone ↦
      let (i, h) =
        In-keep p rows row
          (subst (λ b. In row (if b then r ∷ keep p rows else keep p rows)) gone m) in
      (there i, h)
]

pub In-drop : (n : ℕ) (rows : List Row) (row : Row) → In row (drop n rows) → In row rows
In-drop n rows row m = subst (In row) (take-append-drop n rows) (In-append_right (take n rows) m)

pub In-limited :
    (limit : Option ℕ) (rows : List Row) (row : Row) → In row (limited limit rows) → In row rows
In-limited none rows row m = m
In-limited (some n) rows row m =
    subst (In row) (take-append-drop n rows) (In-append_left (drop n rows) m)

pub all→All :
    (clauses : List Clause) (row : Row)
    → matches clauses row ≡ true
    → All (λ c. evaluate c row ≡ true) clauses
all→All [] row h = tt
all→All (c ∷ clauses) row h = (ground arith, all→All clauses row (ground arith))

pub limited-le :
    (limit : Option ℕ) (rows : List Row) (n : ℕ) → limit ≡ some n → length (limited limit rows) ≤ n
limited-le none rows n h = cc
limited-le (some m) rows n h =
    let e : m ≡ n = ap (λ o. elim o [ none ↦ m | some k ↦ k ]) h in
    omega (arith, length-take m rows, e)

pub StoresAll-refl : (columns : Row) (values : List Row) → StoresAll columns values values
StoresAll-refl columns [] = tt
StoresAll-refl columns (v ∷ values) = ((λ k u w named h. h), StoresAll-refl columns values)

pub pair_inj :
    {xs ys : List Row} {m n : ℕ}
    → ◌≡◌ {A = Option (List Row × ℕ)} (some (xs, m)) (some (ys, n))
    → (ys ≡ xs) × (n ≡ m)
pair_inj {xs} {ys} {m} {n} h = (
  sym (ap (λ o. elim o [ none ↦ xs | some p ↦ p.0 ]) h),
  sym (ap (λ o. elim o [ none ↦ m | some p ↦ p.1 ]) h),
)

abbrev pub database_sql : Sql database
database_sql = record {
  meets = evaluate;
  meets_equal = λ name v row there_. same_value_iff (lookup name row) v;
  meets_is_null = λ name row. same_value_iff (lookup name row) null;
  select_In = λ s rows row m.
      let i = In-limited s.limit (drop s.offset (keep (matches s.where_) rows)) row m in
      let (stored, h) =
        In-keep (matches s.where_) rows row
          (In-drop s.offset (keep (matches s.where_) rows) row i) in
      (stored, all→All s.where_ row h);
  select_limit =
      λ s rows n h. limited-le s.limit (drop s.offset (keep (matches s.where_) rows)) n h;
  insert_rows = λ values rows after h. (
    values,
    sym (ap (λ o. elim o [ none ↦ rows | some r ↦ r ]) h),
    StoresAll-refl (first_values values) values,
  );
  update_rows = λ clauses data_ rows after n h. pair_inj h;
  delete_rows = λ clauses rows after n h. pair_inj h;
}
