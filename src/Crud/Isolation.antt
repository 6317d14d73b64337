-- ===== src/Crud/Isolation.antt =====
-- A tenant's rows under the writes of other principals: each handler leaves them as they are.
use json_api_forge.Prelude.{
  ℕ, refl, sym, ap, subst, inl, inr, Bool, false, not, Option, none, some, List, [], arith,
  Bool-cases, Option-cases, length, keep, All, In, http_error, ok, >>=-eq-ok, passed, Result-cases,
  ◌≡◌, ◌∙◌, ◌≢◌, ◌∷◌, ◌==◌, ◌>>=◌, nat_eq, string_eq,
}
use json_api_forge.Prelude.Dict.{Dict, lookup, lookup-assign}
use json_api_forge.Prelude.Text.{Text, text_eq, codes, text_beq_iff, text_beq}
use json_api_forge.Security.Permissions.{Principal}
use json_api_forge.Crud.Model.{Value, Row, Columns, Resource, Clause, truthy, text, equal}
use json_api_forge.Crud.Fields.{
  Payload, write_payload, inject_tenant, inject_owner, inject_policy_fields, create,
}
use json_api_forge.Crud.Engine.{Engine, Sql}
use json_api_forge.Crud.Reads.{item_clauses}
use json_api_forge.Crud.Writes.{
  new_values, insert_one, create_row, all_new_values, batch_values, batch_create_rows, mode_of,
  update_plan, update_row, erase, delete_row,
}
use json_api_forge.Crud.Written.{of_tenant, write_payload-protected}
use json_api_forge.Crud.Scope.{item_clauses-Scoped}
use json_api_forge.Crud.Foreign.{foreign, update-foreign, delete-foreign, insert-foreign}

text_beq-apart : (a b : Text) → some a ≢ some b → text_beq a b ≡ false
text_beq-apart a b apart = elim (Bool-cases (text_beq a b)) [
  | inl same ↦ absurd (apart (ap some ((text_beq_iff a b).0 same)))
  | inr differ ↦ differ
]

module _ (engine : Engine) (sql : Sql engine) (table : Columns) (resource : Resource) where
  module _ (field : Text) (named : truthy resource.tenant_field ≡ some field)
      (owner_apart : truthy resource.owner_field ≢ some field)
      (deletion_apart : truthy resource.soft_delete_field ≢ some field) (principal : Principal)
      (tenant : Text) (bound : truthy principal.tenant_id ≡ some tenant) where
    -- The values of a new row name the principal's tenant.
    inject_owner-apart :
        (owner : Option Text) (before after : Dict Text Value)
        → owner ≢ some field
        → inject_owner owner principal before ≡ ok after
        → lookup field after ≡ lookup field before
    unfolding inject_owner
    inject_owner-apart none before after apart went = cc
    inject_owner-apart (some o) before after apart went =
        let differ : text_beq o field ≡ false = text_beq-apart o field apart in
        ground (arith, lookup-assign o field (text principal.subject) before)

    inject_tenant-own :
        (before after : Dict Text Value)
        → inject_tenant (some field) principal before ≡ ok after
        → lookup field after ≡ some (text tenant)
    unfolding inject_tenant
    inject_tenant-own before after went =
        ground
          (arith, bound, lookup-assign field field (text tenant) before, text_beq_iff field field)

    new_values-own :
        (payload : Payload) (data_ : Dict Text Value)
        → new_values engine table resource principal payload ≡ ok data_
        → lookup field data_ ≡ some (text tenant)
    unfolding new_values inject_policy_fields
    new_values-own payload data_ went =
        let (w, ew, rest) =
          >>=-eq-ok
            (write_payload engine.validate payload resource table resource.create_schema create) _
            went in
        let (t, et, rest) =
          >>=-eq-ok (inject_tenant (truthy resource.tenant_field) principal w) _ rest in
        inject_owner-apart (truthy resource.owner_field) t data_ owner_apart rest
        ∙ inject_tenant-own w t (ap (λ o. inject_tenant o principal w) (sym named) ∙ et)

    all_new_values-own :
        (payloads : List Payload) (values : List (Dict Text Value))
        → all_new_values engine table resource principal payloads ≡ ok values
        → All (λ d. lookup field d ≡ some (text tenant)) values
    unfolding all_new_values
    all_new_values-own [] values went =
        let e : [] ≡ values = cc went in subst (All (λ d. lookup field d ≡ some (text tenant))) e tt
    all_new_values-own (payload ∷ payloads) values went =
        let (d, ed, rest) = >>=-eq-ok (new_values engine table resource principal payload) _ went in
        let (ds, eds, rest) =
          >>=-eq-ok (all_new_values engine table resource principal payloads) _ rest in
        let e : d ∷ ds ≡ values = cc rest in
        subst (All (λ d. lookup field d ≡ some (text tenant))) e
          (new_values-own payload d ed, all_new_values-own payloads ds eds)

    pub create_row-foreign :
        (payload : Payload) (rows : List Row)
        → keep (foreign field tenant) (create_row engine table resource principal payload rows).0
          ≡ keep (foreign field tenant) rows
    unfolding create_row insert_one
    create_row-foreign payload rows =
        elim (Result-cases (new_values engine table resource principal payload)) [
          | inl (e, failed) ↦ rw (failed, create_row) refl
          | inr (d, went) ↦
              rw (went, create_row)
                (elim (Option-cases (engine.insert (d ∷ []) rows)) [
                  | inl conflicts ↦ rw (conflicts, create_row, insert_one) refl
                  | inr (after, inserted) ↦
                      rw (inserted, create_row, insert_one)
                        (insert-foreign sql field tenant (d ∷ []) rows after
                          (new_values-own payload d went, tt) inserted)
                ])
        ]

    pub batch_create_rows-foreign :
        (payloads : List Payload) (rows : List Row)
        → keep
            (foreign field tenant)
            (batch_create_rows engine table resource principal payloads rows).0
          ≡ keep (foreign field tenant) rows
    unfolding batch_create_rows batch_values
    batch_create_rows-foreign payloads rows =
        elim (Result-cases (batch_values engine table resource principal payloads)) [
          | inl (e, failed) ↦ rw (failed, batch_create_rows) refl
          | inr (values, went) ↦
              rw (went, batch_create_rows)
                (elim (Option-cases (engine.insert values rows)) [
                  | inl conflicts ↦ rw (conflicts, batch_create_rows) refl
                  | inr (after, inserted) ↦
                      let (_, rest) =
                        passed (not resource.batch_enabled)
                          (http_error 405 "Batch API disabled for this resource") _ went in
                      let (_, rest) = passed _ _ _ rest in
                      rw (inserted, batch_create_rows)
                        (insert-foreign sql field tenant values rows after
                          (all_new_values-own payloads values rest) inserted)
                ])
        ]

    update_plan-own :
        (item_id : Value) (payload : Payload) (replaces : Bool) (clauses : List Clause)
        (data_ : Dict Text Value)
        → update_plan engine table resource principal item_id payload replaces ≡ ok (clauses, data_)
        → In (equal field (text tenant)) clauses × (lookup field data_ ≡ none)
    unfolding update_plan
    update_plan-own item_id payload replaces clauses data_ went =
        let (w, ew, rest) =
          >>=-eq-ok
            (write_payload engine.validate payload resource table resource.update_schema
              (mode_of replaces))
            _ went in
        let (filled, rest) =
          passed (length w == 0) (http_error 422 "No writable fields supplied")
            (item_clauses table resource principal item_id (codes "update") >>= (λ c. ok (c, w)))
            rest in
        let (c, ec, rest) =
          >>=-eq-ok (item_clauses table resource principal item_id (codes "update")) _ rest in
        let ew' : w ≡ data_ = cc rest in
        let ec' : c ≡ clauses = cc rest in
        (
          subst (In (equal field (text tenant))) ec' (
              (item_clauses-Scoped table resource principal item_id (codes "update") c
                  ec).own_tenant
                (record { field = field; tenant = tenant; has_field = named; has_tenant = bound })),
          ap (lookup field) (sym ew')
              ∙ write_payload-protected engine.validate payload resource table
                  resource.update_schema (mode_of replaces) w field ew (of_tenant named),
        )

    pub update_row-foreign :
        (item_id : Value) (payload : Payload) (replaces : Bool) (rows : List Row)
        → keep
            (foreign field tenant)
            (update_row engine table resource principal item_id payload replaces rows).0
          ≡ keep (foreign field tenant) rows
    unfolding update_row
    update_row-foreign item_id payload replaces rows =
        elim (Result-cases (update_plan engine table resource principal item_id payload replaces)) [
          | inl (e, failed) ↦ rw (failed, update_row) refl
          | inr ((clauses, data_), went) ↦
              rw (went, update_row)
                (elim (Option-cases (engine.update clauses data_ rows)) [
                  | inl conflicts ↦ rw (conflicts, update_row) refl
                  | inr ((after, n), wrote) ↦
                      let (held, unwritten) =
                        update_plan-own item_id payload replaces clauses data_ went in
                      rw (wrote, update_row)
                        (update-foreign sql field tenant clauses data_ rows after n held unwritten
                          wrote)
                ])
        ]

    erase-foreign :
        (now : Value) (deletion : Option Text) (clauses : List Clause) (rows after : List Row)
        (n : ℕ)
        → truthy resource.soft_delete_field ≡ deletion
        → In (equal field (text tenant)) clauses
        → erase engine deletion now clauses rows ≡ some (after, n)
        → keep (foreign field tenant) after ≡ keep (foreign field tenant) rows
    unfolding erase
    erase-foreign now none clauses rows after n marks held went =
        delete-foreign sql field tenant clauses rows after n held went
    erase-foreign now (some d) clauses rows after n marks held went =
        let differ : text_beq d field ≡ false =
          text_beq-apart d field (λ same. deletion_apart (marks ∙ same)) in
        update-foreign sql field tenant clauses ((d, now) ∷ []) rows after n held
          (unfold lookup in ground arith) went

    pub delete_row-foreign :
        (item_id now : Value) (rows : List Row)
        → keep
            (foreign field tenant)
            (delete_row engine table resource principal item_id now rows).0
          ≡ keep (foreign field tenant) rows
    unfolding delete_row
    delete_row-foreign item_id now rows =
        elim (Result-cases (item_clauses table resource principal item_id (codes "delete"))) [
          | inl (e, failed) ↦ rw (failed, delete_row) refl
          | inr (clauses, went) ↦
              rw (went, delete_row)
                (elim (Option-cases
                  (erase engine (truthy resource.soft_delete_field) now clauses rows)) [
                    | inl fails ↦ rw (fails, delete_row) refl
                    | inr ((after, n), wrote) ↦
                        rw (wrote, delete_row)
                          (erase-foreign now (truthy resource.soft_delete_field) clauses rows after
                            n refl
                            ((item_clauses-Scoped table resource principal item_id (codes "delete")
                                clauses went).own_tenant
                              (record {
                                field = field;
                                tenant = tenant;
                                has_field = named;
                                has_tenant = bound;
                              }))
                            wrote)
                  ])
        ]
