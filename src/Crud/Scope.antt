-- ===== src/Crud/Scope.antt =====
-- What the clauses of every statement hold a principal to: its tenant, and its own rows where the
-- resource has owners.
use json_api_forge.Prelude.{
  subst, true, false, some, List, [], arith, All, In, here, there, All-In, In-append_left,
  In-append_right, contains, ok, >>=-eq-ok, ◌≡◌, ◌≢◌, ◌∷◌, ◌++◌, string_eq,
}
use json_api_forge.Prelude.Dict.{lookup}
use json_api_forge.Prelude.Text.{Text, text_eq, codes}
use json_api_forge.Security.Permissions.{Principal}
use json_api_forge.Crud.Model.{
  Value, Row, Columns, Resource, Clause, truthy, null, text, equal, is_null,
}
use json_api_forge.Crud.Fields.{coerce_for_column, named}
use json_api_forge.Crud.Clauses.{
  build_filter_clauses, tenant_clause, bypasses_owner, owner_clause, soft_delete_clause,
  base_clauses, Query,
}
use json_api_forge.Crud.Engine.{Engine, Sql}
use json_api_forge.Crud.Reads.{clauses_of, item_clauses, column_of}

-- A resource of tenants, asked by a principal of one of them.
pub record Tenancy (resource : Resource) (principal : Principal) : Type 0 where
  pub field : Text
  pub tenant : Text
  pub has_field : truthy resource.tenant_field ≡ some field
  pub has_tenant : truthy principal.tenant_id ≡ some tenant

-- A resource that keeps an action to the owners of its rows, asked by a principal that is one of
-- those it holds to that.
pub record Ownership (resource : Resource) (principal : Principal) (action : Text) : Type 0 where
  pub field : Text
  pub has_field : truthy resource.owner_field ≡ some field
  pub is_kept : contains action resource.owner_actions ≡ true
  pub no_bypass : bypasses_owner resource principal ≡ false

module _ (table : Columns) (resource : Resource) (principal : Principal) where
  tenant_clause-some :
      (t : Tenancy resource principal) (clauses : List Clause)
      → tenant_clause resource table principal ≡ ok clauses
      → clauses ≡ equal t.field (text t.tenant) ∷ []
  unfolding tenant_clause
  tenant_clause-some t clauses went = ground (arith, t.has_field, t.has_tenant)

  owner_clause-some :
      (action : Text) (o : Ownership resource principal action) (clauses : List Clause)
      → owner_clause resource table principal action ≡ ok clauses
      → clauses ≡ equal o.field (text principal.subject) ∷ []
  unfolding owner_clause
  owner_clause-some action o clauses went = ground (arith, o.has_field, o.is_kept, o.no_bypass)

  soft_delete_clause-some :
      (field : Text) (clauses : List Clause)
      → truthy resource.soft_delete_field ≡ some field
      → soft_delete_clause resource table ≡ ok clauses
      → clauses ≡ is_null field ∷ []
  unfolding soft_delete_clause
  soft_delete_clause-some field clauses named went = ground arith

  -- What the clauses of an action have among them.
  pub record Scoped (action : Text) (clauses : List Clause) : Type 0 where
    pub own_tenant : (t : Tenancy resource principal) → In (equal t.field (text t.tenant)) clauses
    pub own_rows :
        (o : Ownership resource principal action)
        → In (equal o.field (text principal.subject)) clauses
    pub not_deleted :
        (field : Text) → truthy resource.soft_delete_field ≡ some field → In (is_null field) clauses

  pub base_clauses-Scoped :
      (action : Text) (clauses : List Clause)
      → base_clauses resource table principal action ≡ ok clauses
      → Scoped action clauses
  unfolding base_clauses
  base_clauses-Scoped action clauses went =
      let (a, ea, rest) = >>=-eq-ok _ _ went in
      let (b, eb, rest) = >>=-eq-ok _ _ rest in
      let (c, ec, rest) = >>=-eq-ok _ _ rest in
      let e : a ++ b ++ c ≡ clauses = cc rest in
      subst (Scoped action) e (record {
        own_tenant = λ t. In-append_left c (In-append_left b (rw (tenant_clause-some t a ea) here));
        own_rows =
            λ o. In-append_left c (In-append_right a (rw (owner_clause-some action o b eb) here));
        not_deleted =
            λ f named. In-append_right (a ++ b) (rw (soft_delete_clause-some f c named ec) here);
      })

  Scoped-wider :
      (action : Text) (clauses more : List Clause)
      → ((c : Clause) → In c clauses → In c more)
      → Scoped action clauses
      → Scoped action more
  Scoped-wider action clauses more kept s = record {
    own_tenant = λ t. kept _ (s.own_tenant t);
    own_rows = λ o. kept _ (s.own_rows o);
    not_deleted = λ f named. kept _ (s.not_deleted f named);
  }

  pub clauses_of-Scoped :
      (query : Query) (clauses : List Clause)
      → clauses_of table resource principal query ≡ ok clauses
      → Scoped (codes "list") clauses
  unfolding clauses_of
  clauses_of-Scoped query clauses went =
      let (base, eb, rest) = >>=-eq-ok _ _ went in
      let (filters, ef, rest) = >>=-eq-ok (build_filter_clauses query table resource) _ rest in
      let e : base ++ filters ≡ clauses = cc rest in
      subst (Scoped (codes "list")) e (
        Scoped-wider (codes "list") base (base ++ filters) (λ c m. In-append_left filters m)
          (base_clauses-Scoped (codes "list") base eb))

  pub item_clauses-Scoped :
      (item_id : Value) (action : Text) (clauses : List Clause)
      → item_clauses table resource principal item_id action ≡ ok clauses
      → Scoped action clauses
  unfolding item_clauses
  item_clauses-Scoped item_id action clauses went =
      let (pk, ep, rest) = >>=-eq-ok (column_of resource.primary_key table) _ went in
      let (value, ev, rest) = >>=-eq-ok (coerce_for_column pk item_id) _ rest in
      let (base, eb, rest) = >>=-eq-ok (base_clauses resource table principal action) _ rest in
      let e : equal resource.primary_key value ∷ base ≡ clauses = cc rest in
      subst (Scoped action) e (
        Scoped-wider action base (equal resource.primary_key value ∷ base) (λ c m. there m)
          (base_clauses-Scoped action base eb))

  -- A row that a principal of a tenant may see: one of its tenant's, its own where the action is the
  -- owners', and not deleted.
  pub record IsWithin (action : Text) (row : Row) : Type 0 where
    pub own_tenant : (t : Tenancy resource principal) → lookup t.field row ≡ some (text t.tenant)
    pub own_row :
        (o : Ownership resource principal action)
        → lookup o.field row ≡ some (text principal.subject)
    pub not_deleted :
        (field : Text)
        → truthy resource.soft_delete_field ≡ some field
        → lookup field row ≡ some null

  text-not-null : (t : Text) → text t ≢ null
  text-not-null t e = cc e

  -- The rows that meet such clauses are the principal's to see.
  pub meets-IsWithin :
      {engine : Engine} (sql : Sql engine) (action : Text) (clauses : List Clause) (row : Row)
      → Scoped action clauses
      → All (λ c. sql.meets c row ≡ true) clauses
      → IsWithin action row
  meets-IsWithin sql action clauses row s meets = record {
    own_tenant = λ t.
        (sql.meets_equal t.field (text t.tenant) row (text-not-null t.tenant)).0
          (All-In (λ c. sql.meets c row ≡ true) meets (s.own_tenant t));
    own_row = λ o.
        (sql.meets_equal o.field (text principal.subject) row (text-not-null principal.subject)).0
          (All-In (λ c. sql.meets c row ≡ true) meets (s.own_rows o));
    not_deleted = λ f named.
        (sql.meets_is_null f row).0
          (All-In (λ c. sql.meets c row ≡ true) meets (s.not_deleted f named));
  }
