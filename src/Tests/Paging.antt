-- ===== src/Tests/Paging.antt =====
-- The pages of a tenant's rows, one row to a page, in the database that keeps its rows by id.
use json_api_forge.Crud.Scope.{Tenancy}
use json_api_forge.Prelude.{
  nat_eq, ℕ, zero, suc, refl, sym, ap, subst, inl, inr, Bool, true, false, Option, none, some, List,
  [], map, arith, Bool-cases, length, take, drop, length-take, take-append-drop, keep, All, In,
  here, there, All-In, All-intro, ok, not-In-nil, In-cons, ◌<◌, ◌≡◌, ◌∙◌, ◌↔◌, ◌⊎◌, ◌∷◌, ◌++◌, ◌==◌,
  nat_eq, string_eq,
}
use json_api_forge.Prelude.Dict.{lookup}
use json_api_forge.Prelude.Parts.{strip, lstrip, rstrip}
use json_api_forge.Prelude.Text.{starts_with, text_beq, Text, text_eq, codes}
use json_api_forge.Crud.Fields.{visible, converted, coerce_typed, coerce_for_column}
use json_api_forge.Crud.Clauses.{
  tenant_clause, owner_clause, soft_delete_clause, base_clauses, digits, signed, parse_int, rsplit,
  field_and_op, param_clauses, Query, params_clauses, search_clauses, build_filter_clauses,
}
use json_api_forge.Crud.Paging.Walk.{with_cursor, walk}
use json_api_forge.Crud.Paging.Page.{Asked, statement, first_page, CoercesBack}
use json_api_forge.Crud.Paging.Runs.{In-take-drop, Sorted-left, Sorted-across}
use json_api_forge.Crud.Paging.Complete.{walk_complete}
use json_api_forge.Crud.Model.{
  Value, Row, Clause, truthy, null, boolean, number, text, opaque, equal,
}
use json_api_forge.Crud.Reads.{
  repeat, encode_cursor, decode_cursor, Page, cell, cursor_name, cut_page, clauses_of, list_rows,
}
use json_api_forge.Crud.Shown.{items, list_rows-own_tenant}
use json_api_forge.Crud.Paging.Codec.{Codecs, decode_cursor-encode_cursor}
use json_api_forge.Crud.Paging.Order.{Listing, Sorted, Collation, Precedes, IsPlaced}
use json_api_forge.Tests.Database.{
  value_below, evaluate, matches, limited, digit_of, of_digit, database, In-keep, database_sql,
}
use json_api_forge.Tests.Crud.{
  team_field, red_tenant, int_column, columns, notes, member, note, stored,
}

one_pad :
    (a b : Value) → database.base64_json a b ≡ (digit_of a ∷ digit_of b ∷ 0 ∷ []) ++ repeat 1 61
unfolding repeat
one_pad a b = refl

kept_body :
    (a b : Value)
    → rstrip (λ c. c == 61) (digit_of a ∷ digit_of b ∷ 0 ∷ []) ≡ digit_of a ∷ digit_of b ∷ 0 ∷ []
unfolding rstrip
kept_body a b = refl

abbrev codecs : Codecs database
codecs = record {
  jsonable = λ v. of_digit (digit_of v);
  body = λ a b. digit_of a ∷ digit_of b ∷ 0 ∷ [];
  padding = λ a b. 1;
  is_base64 = one_pad;
  no_padding_left = kept_body;
  padding_le = λ a b. omega arith;
  whole_groups = λ a b. omega arith;
  decodes = λ a b. refl;
}

decode_cursor-encode_cursor_example :
    decode_cursor database (encode_cursor database (number 1) (number 1)) ≡ ok (number 1, number 1)
decode_cursor-encode_cursor_example =
    decode_cursor-encode_cursor database codecs (number 1) (number 1)

value_below_irrefl : (v : Value) → value_below v v ≡ false
value_below_irrefl null = refl
value_below_irrefl (boolean b) = refl
value_below_irrefl (number n) = ground arith
value_below_irrefl (text t) = refl
value_below_irrefl (opaque n) = refl

value_below_trans :
    (u v w : Value) → value_below u v ≡ true → value_below v w ≡ true → value_below u w ≡ true
value_below_trans (number a) (number b) (number c) h k = ground arith
value_below_trans (number a) (number b) v h k = cc
value_below_trans u v w h k = cc

abbrev by_number : Collation database database_sql
by_number = record {
  below = value_below;
  below_irrefl = value_below_irrefl;
  below_trans = value_below_trans;
  meets_greater = λ name v row a b. refl;
  meets_either = λ a b row. refl;
  meets_both = λ a b row. refl;
}

-- The rows that are listed: those of the table in Tests/Crud.antt.
abbrev Before : Row → Row → Type 0
Before = Precedes by_number (cursor_name notes) (codes "id")

Sorted-keep : (p : Row → Bool) (rows : List Row) → Sorted Before rows → Sorted Before (keep p rows)
Sorted-keep p [] h = tt
Sorted-keep p (r ∷ rows) h = elim (Bool-cases (p r)) [
  | inl held ↦ rw held (
    All-intro (Before r) (keep p rows) (λ q m. All-In (Before r) h.0 (In-keep p rows q m).0),
    Sorted-keep p rows h.1,
  )
  | inr gone ↦ rw gone (Sorted-keep p rows h.1)
]

Sorted-limited :
    (limit : Option ℕ) (rows : List Row) → Sorted Before rows → Sorted Before (limited limit rows)
Sorted-limited none rows h = h
Sorted-limited (some n) rows h =
    Sorted-left Before (take n rows) (drop n rows)
      (subst (Sorted Before) (sym (take-append-drop n rows)) h)

keep-In :
    (p : Row → Bool) (rows : List Row) (row : Row)
    → In row rows
    → p row ≡ true
    → In row (keep p rows)
keep-In p [] row m h = absurd (not-In-nil m)
keep-In p (r ∷ rows) row m h = elim (In-cons m) [
  | inl e ↦ rw (ap p (sym e) ∙ h) (rw e here)
  | inr later ↦ elim (Bool-cases (p r)) [
    | inl held ↦ rw held (there (keep-In p rows row later h))
    | inr gone ↦ rw gone (keep-In p rows row later h)
  ]
]

All→all :
    (clauses : List Clause) (row : Row)
    → All (λ c. evaluate c row ≡ true) clauses
    → matches clauses row ≡ true
All→all [] row h = refl
All→all (c ∷ clauses) row h = let f = h.0 in let t = All→all clauses row h.1 in rw (f, t) refl

length-drop_In : (n : ℕ) (rows : List Row) (row : Row) → In row (drop n rows) → n < length rows
length-drop_In zero [] row m = absurd (not-In-nil m)
length-drop_In zero (r ∷ rows) row m = omega arith
length-drop_In (suc n) [] row m = absurd (not-In-nil m)
length-drop_In (suc n) (r ∷ rows) row m = omega (arith, length-drop_In n rows row m)

first_of :
    (limit : Option ℕ) (n : ℕ) (rows : List Row) (row : Row)
    → limit ≡ some n
    → Sorted Before rows
    → In row rows
    → In row (limited limit rows)
      ⊎ ((length (limited limit rows) ≡ n) × All (λ r. Before r row) (limited limit rows))
first_of none n rows row e h m = cc
first_of (some k) n rows row e h m = elim (In-take-drop k rows row m) [
  | inl early ↦ inl early
  | inr late ↦
      let same : k ≡ n = ap (λ o. elim o [ none ↦ k | some j ↦ j ]) e in
      inr (
        omega (arith, length-take k rows, length-drop_In k rows row late, same),
        All-intro (λ r. Before r row) (take k rows)
            (λ r i.
              Sorted-across Before (take k rows) (drop k rows) r row
                (subst (Sorted Before) (sym (take-append-drop k rows)) h) i late),
      )
]

stored-Sorted : Sorted Before stored
unfolding cell cursor_name truthy lookup
stored-Sorted = (
  (inl refl, (inl refl, (inl refl, tt))),
  ((inl refl, (inl refl, tt)), ((inl refl, tt), (tt, tt))),
)

stored-IsPlaced :
    (row : Row) → In row stored → IsPlaced by_number (cursor_name notes) (codes "id") row
unfolding cell cursor_name truthy lookup
stored-IsPlaced row m =
    All-In {A = Row} (IsPlaced by_number (cursor_name notes) (codes "id")) {xs = stored}
      ((λ h. cc, λ h. cc), ((λ h. cc, λ h. cc), ((λ h. cc, λ h. cc), ((λ h. cc, λ h. cc), tt)))) m

abbrev listing : Listing by_number (cursor_name notes) (codes "id") stored
listing = record {
  placed = stored-IsPlaced;
  select_sorted = λ s ordered start.
      subst (λ n. Sorted Before (limited s.limit (drop n (keep (matches s.where_) stored))))
        (sym start)
        (Sorted-limited s.limit (keep (matches s.where_) stored)
          (Sorted-keep (matches s.where_) stored stored-Sorted));
  select_first = λ s n row ordered start limited_ m h.
      subst
        (λ k.
          In row (limited s.limit (drop k (keep (matches s.where_) stored)))
          ⊎ ((length (limited s.limit (drop k (keep (matches s.where_) stored))) ≡ n)
              × All (λ r. Before r row)
                  (limited s.limit (drop k (keep (matches s.where_) stored)))))
        (sym start)
        (first_of s.limit n (keep (matches s.where_) stored) row limited_
          (Sorted-keep (matches s.where_) stored stored-Sorted)
          (keep-In (matches s.where_) stored row m (All→all s.where_ row h)));
}

abbrev query : Query
query = (codes "limit", codes "1") ∷ []

is_one : parse_int (lookup (codes "limit") query) 2 1 ≡ ok 1
unfolding parse_int signed digits strip lstrip rstrip lookup
is_one = refl

abbrev of_team : List Clause
of_team = equal (codes "team") (text (codes "red")) ∷ []

is_of_team : clauses_of columns notes (member (codes "red")) query ≡ ok of_team
unfolding clauses_of base_clauses tenant_clause owner_clause soft_delete_clause build_filter_clauses
    params_clauses param_clauses field_and_op rsplit search_clauses truthy lookup starts_with
is_of_team = refl

not_given : (name : Text) → text_beq (codes "limit") name ≡ false → lookup name query ≡ none
unfolding lookup
not_given name h = rw h refl

has_id : lookup (codes "id") columns ≡ some int_column
unfolding lookup
has_id = refl

has_cursor : lookup (cursor_name notes) columns ≡ some int_column
unfolding cursor_name truthy lookup
has_cursor = refl

abbrev asked : Asked columns notes (member (codes "red")) query
asked = record {
  asked = 1;
  clauses = of_team;
  cursor_col = int_column;
  pk_col = int_column;
  is_asked = is_one;
  are_clauses = is_of_team;
  by_cursor = refl;
  no_cursor = not_given (codes "cursor") refl;
  no_offset = not_given (codes "offset") refl;
  no_sort = not_given (codes "sort") refl;
  is_cursor_col = has_cursor;
  is_pk_col = has_id;
}

comes_back :
    (row : Row)
    → In row stored
    → CoercesBack database columns notes (member (codes "red")) query asked codecs row
unfolding coerce_for_column coerce_typed converted cell cursor_name truthy lookup
comes_back row m =
    All-In (CoercesBack database columns notes (member (codes "red")) query asked codecs)
      {xs = stored} ((refl, refl), ((refl, refl), ((refl, refl), ((refl, refl), tt)))) m

walk_complete_example :
    (found : List Row) × (walk database columns notes (member (codes "red")) query stored 5 none
      ≡ some (ok (map (λ r. visible r notes) found)))
    × Sorted Before found
    × ((row : Row) → In row found ↔ (In row stored × All (λ c. evaluate c row ≡ true) of_team))
walk_complete_example =
    walk_complete database database_sql columns notes (member (codes "red")) query asked codecs
      by_number stored listing comes_back (omega arith)

abbrev page : Page
page = cut_page database notes 1 (
    database.select (statement database columns notes (member (codes "red")) query asked []) stored)

page_asked : list_rows database columns notes (member (codes "red")) query stored ≡ ok page
unfolding with_cursor
page_asked = first_page database columns notes (member (codes "red")) query asked stored

shown_first : In (visible (note 1 (codes "red")) notes) (items page)
unfolding cut_page lookup
shown_first = here

-- The principal's tenant.
red_tenancy : Tenancy notes (member (codes "red"))
red_tenancy = record {
  field = codes "team";
  tenant = codes "red";
  has_field = team_field;
  has_tenant = red_tenant;
}

list_rows-own_tenant_example :
    (row : Row) × In row stored
    × (visible (note 1 (codes "red")) notes ≡ visible row notes)
    × (lookup red_tenancy.field row ≡ some (text red_tenancy.tenant))
list_rows-own_tenant_example =
    list_rows-own_tenant database database_sql columns notes (member (codes "red")) red_tenancy
      query stored page page_asked (visible (note 1 (codes "red")) notes) shown_first
