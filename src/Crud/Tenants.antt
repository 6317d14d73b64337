-- ===== src/Crud/Tenants.antt =====
-- Runs of calls by principals of several tenants, over the one table that they share.
use json_api_forge.Prelude.{
  nat_eq, refl, sym, ap, inl, inr, Bool, true, not, Option, none, some, List, [], arith, Bool-cases,
  Option-cases, keep, All, ◌≡◌, ◌∙◌, ◌≢◌, ◌∷◌, string_eq,
}
use json_api_forge.Prelude.Dict.{lookup}
use json_api_forge.Prelude.Text.{Text, text_eq, text_beq_iff, text_beq}
use json_api_forge.Security.Permissions.{Principal}
use json_api_forge.Crud.Model.{
  Value, Row, Columns, Resource, truthy, null, boolean, number, text, opaque,
}
use json_api_forge.Crud.Engine.{Engine, Sql}
use json_api_forge.Crud.Foreign.{is_text, foreign}
use json_api_forge.Crud.Isolation.{
  create_row-foreign, batch_create_rows-foreign, update_row-foreign, delete_row-foreign,
}
use json_api_forge.Crud.Calls.{Call, creates, creates_batch, updates, deletes, handle, run}
use json_api_forge.Crud.Unbound.{handle-unbound}

-- A row of a tenant, by the tenant's field.
abbrev pub owned : Text → Text → Row → Bool
owned field who row = is_text who (lookup field row)

keep-narrower :
    (p q : Row → Bool) (rows : List Row)
    → ((row : Row) → p row ≡ true → q row ≡ true)
    → keep p (keep q rows) ≡ keep p rows
keep-narrower p q [] h = refl
keep-narrower p q (row ∷ rows) h = elim (Bool-cases (p row)) [
  | inl held ↦ ground (arith, held, h row held, keep-narrower p q rows h)
  | inr not_held ↦ elim (Bool-cases (q row)) [
    | inl wide ↦ ground (arith, not_held, wide, keep-narrower p q rows h)
    | inr narrow ↦ ground (arith, not_held, narrow, keep-narrower p q rows h)
  ]
]

owned→foreign :
    (victim tenant : Text) (value : Option Value)
    → tenant ≢ victim
    → is_text victim value ≡ true
    → not (is_text tenant value) ≡ true
owned→foreign victim tenant none apart h = cc
owned→foreign victim tenant (some null) apart h = cc
owned→foreign victim tenant (some (boolean b)) apart h = cc
owned→foreign victim tenant (some (number n)) apart h = cc
owned→foreign victim tenant (some (opaque n)) apart h = cc
owned→foreign victim tenant (some (text t)) apart h = elim (Bool-cases (text_beq t tenant)) [
  | inl same ↦ absurd (apart (sym ((text_beq_iff t tenant).0 same) ∙ (text_beq_iff t victim).0 h))
  | inr differ ↦ rw differ refl
]

module _ (engine : Engine) (sql : Sql engine) (table : Columns) (resource : Resource) where
  module _ (field : Text) (named : truthy resource.tenant_field ≡ some field)
      (owner_apart : truthy resource.owner_field ≢ some field)
      (deletion_apart : truthy resource.soft_delete_field ≢ some field) where
    handle-foreign :
        (principal : Principal) (tenant : Text)
        → truthy principal.tenant_id ≡ some tenant
        → (call : Call) (rows : List Row)
        → keep (foreign field tenant) (handle engine table resource principal call rows)
          ≡ keep (foreign field tenant) rows
    unfolding handle
    handle-foreign principal tenant bound (creates payload) rows =
        create_row-foreign engine sql table resource field named owner_apart deletion_apart
          principal tenant bound payload rows
    handle-foreign principal tenant bound (creates_batch payloads) rows =
        batch_create_rows-foreign engine sql table resource field named owner_apart deletion_apart
          principal tenant bound payloads rows
    handle-foreign principal tenant bound (updates item_id payload replaces) rows =
        update_row-foreign engine sql table resource field named owner_apart deletion_apart
          principal tenant bound item_id payload replaces rows
    handle-foreign principal tenant bound (deletes item_id now) rows =
        delete_row-foreign engine sql table resource field named owner_apart deletion_apart
          principal tenant bound item_id now rows

    handle-owned :
        (victim : Text) (principal : Principal)
        → truthy principal.tenant_id ≢ some victim
        → (call : Call) (rows : List Row)
        → keep (owned field victim) (handle engine table resource principal call rows)
          ≡ keep (owned field victim) rows
    handle-owned victim principal apart call rows =
        elim (Option-cases (truthy principal.tenant_id)) [
          | inl unbound ↦
              ap (keep (owned field victim))
                (handle-unbound engine sql table resource field named principal unbound call rows)
          | inr (tenant, bound) ↦
              let wide : (row : Row)
                  → owned field victim row ≡ true
                  → foreign field tenant row ≡ true =
                λ row held.
                  owned→foreign victim tenant (lookup field row)
                    (λ same. apart (bound ∙ ap some same)) held in
              sym (
                keep-narrower (owned field victim) (foreign field tenant)
                  (handle engine table resource principal call rows) wide)
              ∙ ap (keep (owned field victim)) (handle-foreign principal tenant bound call rows)
              ∙ keep-narrower (owned field victim) (foreign field tenant) rows wide
        ]

    -- For a resource with a tenant field that is neither its owner field nor its soft-delete field:
    -- after any calls of the handlers that write, in any order, by principals none of which is of a
    -- given tenant, the table holds that tenant's rows exactly as before, and in the same order.
    pub tenant_rows_untouched :
        (victim : Text) (calls : List (Principal × Call)) (rows : List Row)
        → All (λ pc. truthy pc.0.tenant_id ≢ some victim) calls
        → keep (owned field victim) (run engine table resource calls rows)
          ≡ keep (owned field victim) rows
    unfolding run
    tenant_rows_untouched victim [] rows others = refl
    tenant_rows_untouched victim ((principal, call) ∷ calls) rows others =
        tenant_rows_untouched victim calls (handle engine table resource principal call rows)
          others.1
        ∙ handle-owned victim principal others.0 call rows
