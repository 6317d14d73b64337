-- ===== src/Crud/Paging/Complete.antt =====
-- Following the cursors lists every row that the listing asks for, once, and comes to an end.
use json_api_forge.Prelude.{
  ℕ, zero, suc, refl, sym, ap, subst, inl, inr, Bool, true, false, Option, none, some, List, [],
  map, arith, ltb, ltb→lt, Bool-cases, length, take, drop, take-append-drop, all, keep, All, In,
  length-keep-le, All-In, In-append_left, In-append_right, In-append, ok, ◌≤◌, ◌<◌, ◌≡◌, ◌∙◌, ◌↔◌,
  ◌∷◌, ◌++◌,
}
use json_api_forge.Security.Permissions.{Principal}
use json_api_forge.Prelude.Text.{Text}
use json_api_forge.Crud.Model.{Clause, Row, Columns, Resource}
use json_api_forge.Crud.Fields.{visible}
use json_api_forge.Crud.Clauses.{Query}
use json_api_forge.Crud.Engine.{Engine, Sql}
use json_api_forge.Crud.Reads.{cursor_name, last}
use json_api_forge.Crud.Paging.Codec.{Codecs}
use json_api_forge.Crud.Paging.Order.{Precedes-irrefl, Listing, Sorted, Collation, Precedes-trans}
use json_api_forge.Crud.Paging.Walk.{prepend, walk}
use json_api_forge.Crud.Paging.Page.{Asked, limit_of, CoercesBack}
use json_api_forge.Crud.Paging.Runs.{
  All-append, All-append_right, All-append_left, length-keep-lt, In-take-drop, Sorted-left,
  Sorted-across, Sorted-append,
}
use json_api_forge.Crud.Paging.Steps.{
  walk-last, walk-more, take-some, map-append, cursor, after-IsBeyond, last-max, take-all, Before,
  limit, after, IsBeyond, IsStored, raw, IsWanted, raw_sound, raw-first, raw-Sorted,
}

all-All {ℓ} :
    {A : Type ℓ} (p : A → Bool) (xs : List A) → (all p xs ≡ true) ↔ All (λ x. p x ≡ true) xs
all-All p [] = (λ h. tt, λ h. refl)
all-All p (x ∷ xs) =
    let rest = all-All p xs in
    (
      λ h. (ground arith, rest.0 (ground arith)),
      λ h. let t = rest.1 h.1 in let f = h.0 in rw (f, t) refl,
    )

prepend-ok :
    (f : Row → Row) (page rest : List Row)
    → prepend (map f page) (some (ok (map f rest))) ≡ some (ok (map f (page ++ rest)))
unfolding prepend
prepend-ok f page rest = ap (λ xs. some (ok xs)) (sym (map-append f page rest))

module _ (engine : Engine) (sql : Sql engine) (table : Columns) (resource : Resource)
    (principal : Principal) (query : Query) (a : Asked table resource principal query)
    (codecs : Codecs engine) (collation : Collation engine sql) (rows : List Row)
    (listing : Listing collation (cursor_name resource) resource.primary_key rows)
    (back : (row : Row)
      → In row rows
      → CoercesBack engine table resource principal query a codecs row)
    (positive : 1 ≤ limit_of engine table resource principal query a) where
  abbrev pub Earlier : Row → Row → Type 0
  Earlier =
      Before engine sql table resource principal query a codecs collation rows listing back positive

  abbrev pub Wanted : Row → Type 0
  Wanted =
      IsWanted engine sql table resource principal query a codecs collation rows listing back
        positive

  abbrev pub Beyond : Option Row → Row → Type 0
  Beyond =
      IsBeyond engine sql table resource principal query a codecs collation rows listing back
        positive

  abbrev pub Stored : Option Row → Type 0
  Stored =
      IsStored engine sql table resource principal query a codecs collation rows listing back
        positive

  abbrev pub page_limit : ℕ
  page_limit =
      limit engine sql table resource principal query a codecs collation rows listing back positive

  abbrev pub raw_at : Option Row → List Row
  raw_at =
      raw engine sql table resource principal query a codecs collation rows listing back positive

  abbrev pub clauses_after : Option Row → List Clause
  clauses_after =
      after engine sql table resource principal query a codecs collation rows listing back positive

  abbrev pub cursor_at : Option Row → Option Text
  cursor_at =
      cursor engine sql table resource principal query a codecs collation rows listing back positive

  -- The rows of a walk: in order, so none twice, and just those that are wanted after a row.
  pub record Visits (at : Option Row) (found : List Row) : Type 0 where
    pub in_order : Sorted Earlier found
    pub visited : (row : Row) → In row found → Wanted row × Beyond at row
    pub all_visited : (row : Row) → Wanted row → Beyond at row → In row found

  Visits-last :
      (at : Option Row)
      → Stored at
      → ltb page_limit (length (raw_at at)) ≡ false
      → Visits at (take page_limit (raw_at at))
  Visits-last at stored done =
      let small : length (raw_at at) ≤ page_limit = ground arith in
      rw (take-all page_limit (raw_at at) small) (record {
        in_order =
            raw-Sorted engine sql table resource principal query a codecs collation rows listing
              back positive at;
        visited = λ row m.
            raw_sound engine sql table resource principal query a codecs collation rows listing back
              positive at row stored m;
        all_visited = λ row wanted beyond.
            elim (raw-first engine sql table resource principal query a codecs collation rows
              listing back positive at row stored wanted beyond) [
                | inl m ↦ m
                | inr (full, earlier) ↦ absurd (omega arith)
              ];
      })

  IsBeyond-trans : (at : Option Row) (r row : Row) → Beyond at r → Earlier r row → Beyond at row
  IsBeyond-trans none r row h k = tt
  IsBeyond-trans (some q) r row h k =
      Precedes-trans collation (cursor_name resource) resource.primary_key q r row h k

  Visits-more :
      (at : Option Row) (r : Row) (rest : List Row)
      → Stored at
      → last (take page_limit (raw_at at)) ≡ some r
      → In r (take page_limit (raw_at at))
      → Visits (some r) rest
      → Visits at (take page_limit (raw_at at) ++ rest)
  Visits-more at r rest stored end held v =
      let page : List Row = take page_limit (raw_at at) in
      let later : List Row = drop page_limit (raw_at at) in
      let cut : Sorted Earlier (page ++ later) =
        subst (Sorted (Earlier)) (sym (take-append-drop page_limit (raw_at at))) (
          raw-Sorted engine sql table resource principal query a codecs collation rows listing back
            positive at) in
      let in_raw : (x : Row) → In x page → In x (raw_at at) =
        λ x m. subst (In x) (take-append-drop page_limit (raw_at at)) (In-append_left later m) in
      let sorted : Sorted Earlier page = Sorted-left Earlier page later cut in
      record {
        in_order = Sorted-append Earlier page rest sorted v.in_order (λ x y m n.
            let y_after = (v.visited y n).1 in
            elim (last-max Earlier page r x end sorted m) [
              | inl same ↦ subst (λ z. Earlier z y) (sym same) y_after
              | inr before ↦
                  Precedes-trans collation (cursor_name resource) resource.primary_key x r y before
                    y_after
            ]);
        visited = λ row m. elim (In-append page rest m) [
          | inl early ↦
              raw_sound engine sql table resource principal query a codecs collation rows listing
                back positive at row stored (in_raw row early)
          | inr late ↦
              let (wanted, beyond) = v.visited row late in
              (
                wanted,
                IsBeyond-trans at r row
                    (raw_sound engine sql table resource principal query a codecs collation rows
                      listing back positive at r stored (in_raw r held)).1
                    beyond,
              )
        ];
        all_visited = λ row wanted beyond.
            elim (raw-first engine sql table resource principal query a codecs collation rows
              listing back positive at row stored wanted beyond) [
                | inl m ↦ elim (In-take-drop page_limit (raw_at at) row m) [
                  | inl early ↦ In-append_left rest early
                  | inr late ↦ In-append_right page (
                      v.all_visited row wanted
                        (Sorted-across Earlier page later r row cut held late))
                ]
                | inr (full, earlier) ↦
                    In-append_right page (
                      v.all_visited row wanted
                        (All-In (λ q. Earlier q row) earlier (in_raw r held)))
              ];
      }

  -- The rows of the table that are still to come.
  abbrev is_left : Option Row → Row → Bool
  is_left at row = all (λ c. sql.meets c row) (a.clauses ++ clauses_after at)

  abbrev left : Option Row → ℕ
  left at = length (keep (is_left at) rows)

  is_left_iff :
      (at : Option Row) (row : Row)
      → Stored at
      → In row rows
      → (is_left at row ≡ true) ↔ (Wanted row × Beyond at row)
  is_left_iff at row stored m =
      let clauses = a.clauses ++ clauses_after at in
      let beyond =
        after-IsBeyond engine sql table resource principal query a codecs collation rows listing
          back positive at row stored m in
      (
        λ h.
            let every = (all-All (λ c. sql.meets c row) clauses).0 h in
            (
              (m, All-append_left (λ c. sql.meets c row ≡ true) a.clauses (clauses_after at) every),
              beyond.0 (
                  All-append_right (λ c. sql.meets c row ≡ true) a.clauses (clauses_after at)
                    every),
            ),
        λ w. (all-All (λ c. sql.meets c row) clauses).1 (
            All-append (λ c. sql.meets c row ≡ true) a.clauses (clauses_after at) w.0.1
              (beyond.1 w.1)),
      )

  left-decreases :
      (at : Option Row) (r : Row) → Stored at → In r (raw_at at) → left (some r) < left at
  left-decreases at r stored m =
      let (wanted, beyond) =
        raw_sound engine sql table resource principal query a codecs collation rows listing back
          positive at r stored m in
      length-keep-lt (is_left at) (is_left (some r)) rows r
        (λ y i h.
          let (w, b) = (is_left_iff (some r) y wanted.0 i).0 h in
          (is_left_iff at y stored i).1 (w, IsBeyond-trans at r y beyond b))
        wanted.0 ((is_left_iff at r stored wanted.0).1 (wanted, beyond))
        (elim (Bool-cases (is_left (some r) r)) [
          | inl again ↦ absurd (
              Precedes-irrefl collation (cursor_name resource) resource.primary_key r
                ((is_left_iff (some r) r wanted.0 wanted.0).0 again).1)
          | inr gone ↦ gone
        ])

  walk_complete_from :
      (n : ℕ) (at : Option Row)
      → Stored at
      → left at < n
      → (found : List Row) × (walk engine table resource principal query rows n (cursor_at at)
          ≡ some (ok (map (λ r. visible r resource) found)))
        × Visits at found
  walk_complete_from zero at stored enough = absurd (omega arith)
  walk_complete_from (suc n) at stored enough =
      elim (Bool-cases (ltb page_limit (length (raw_at at)))) [
        | inl more ↦
            let (r, end, held) =
              take-some page_limit (raw_at at) positive (ltb→lt page_limit _ more) in
            let in_raw : In r (raw_at at) =
              subst (In r) (take-append-drop page_limit (raw_at at)) (In-append_left _ held) in
            let wanted =
              (raw_sound engine sql table resource principal query a codecs collation rows listing
                back positive at r stored in_raw).0 in
            let smaller = left-decreases at r stored in_raw in
            let (rest, went, v) = walk_complete_from n (some r) wanted.0 (omega arith) in
            (
              take page_limit (raw_at at) ++ rest,
              walk-more engine sql table resource principal query a codecs collation rows listing
                    back positive n at r stored more end
                  ∙ ap (prepend (map (λ q. visible q resource) (take page_limit (raw_at at)))) went
                  ∙ prepend-ok (λ q. visible q resource) (take page_limit (raw_at at)) rest,
              Visits-more at r rest stored end held v,
            )
        | inr done ↦ (
          take page_limit (raw_at at),
          walk-last engine sql table resource principal query a codecs collation rows listing back
              positive n at stored done,
          Visits-last at stored done,
        )
      ]

  -- For a listing by cursors that is accepted and has a limit of at least one, over a table whose rows
  -- have values in the cursor's column and are told apart by the primary key, and for column types
  -- that take back what JSON makes of their values: a client that follows `next_cursor` comes to the
  -- last page within one request more than the table has rows, and the items that it gets are the
  -- shown parts of all rows that meet the filters and the policies, each once, in the listing's order.
  pub walk_complete :
      (found : List Row) × (walk engine table resource principal query rows (suc (length rows)) none
        ≡ some (ok (map (λ r. visible r resource) found)))
      × Sorted Earlier found
      × ((row : Row) → In row found ↔ Wanted row)
  walk_complete =
      let small : left none < suc (length rows) =
        omega (arith, length-keep-le (is_left none) rows) in
      let (found, went, v) = walk_complete_from (suc (length rows)) none tt small in
      (
        found,
        went,
        v.in_order,
        λ row. (λ m. (v.visited row m).0, λ wanted. v.all_visited row wanted tt),
      )
