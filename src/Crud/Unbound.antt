-- ===== src/Crud/Unbound.antt =====
-- A principal without a tenant writes nothing to a resource of tenants.
use json_api_forge.Prelude.{
  nat_eq, refl, inl, inr, Bool, false, not, none, some, List, [], arith, ltb, length, http_error,
  ok, >>=-eq-ok, passed, Result-cases, ◌≡◌, ◌≢◌, ◌||◌, ◌∷◌, ◌==◌, ◌>>=◌, string_eq,
}
use json_api_forge.Prelude.Text.{Text, text_eq, codes}
use json_api_forge.Security.Permissions.{Principal}
use json_api_forge.Crud.Model.{Value, Row, Columns, Resource, Clause, truthy}
use json_api_forge.Crud.Fields.{
  Payload, create, write_payload, inject_policy_fields, inject_tenant, coerce_for_column,
}
use json_api_forge.Crud.Clauses.{tenant_clause, base_clauses}
use json_api_forge.Crud.Engine.{Engine, Sql}
use json_api_forge.Crud.Reads.{item_clauses, column_of}
use json_api_forge.Crud.Writes.{
  new_values, create_row, all_new_values, batch_values, batch_create_rows, mode_of, update_plan,
  update_row, delete_row,
}
use json_api_forge.Crud.Calls.{Call, creates, creates_batch, updates, deletes, handle}

module _ (engine : Engine) (sql : Sql engine) (table : Columns) (resource : Resource) where
  module _ (field : Text) (named : truthy resource.tenant_field ≡ some field)
      (principal : Principal) where
    module _ (unbound : truthy principal.tenant_id ≡ none) where
      inject_tenant-unbound :
          (data_ after : Row)
          → inject_tenant (truthy resource.tenant_field) principal data_ ≢ ok after
      inject_tenant-unbound data_ after went =
          unfold inject_tenant in ground (arith, named, unbound)

      new_values-unbound :
          (payload : Payload) (data_ : Row)
          → new_values engine table resource principal payload ≢ ok data_
      unfolding new_values inject_policy_fields
      new_values-unbound payload data_ went =
          let (w, ew, rest) =
            >>=-eq-ok
              (write_payload engine.validate payload resource table resource.create_schema create) _
              went in
          let (t, et, rest) =
            >>=-eq-ok (inject_tenant (truthy resource.tenant_field) principal w) _ rest in
          inject_tenant-unbound w t et

      batch_values-unbound :
          (payloads : List Payload) (values : List Row)
          → batch_values engine table resource principal payloads ≢ ok values
      unfolding batch_values all_new_values
      batch_values-unbound payloads values went =
          let (on, rest) =
            passed (not resource.batch_enabled)
              (http_error 405 "Batch API disabled for this resource") _ went in
          let (size, rest) = passed _ _ _ rest in all_unbound payloads size rest
        where
          all_unbound :
              (ps : List Payload)
              → (length ps == 0 || ltb resource.max_batch_size (length ps)) ≡ false
              → all_new_values engine table resource principal ps ≢ ok values
          all_unbound [] size went = cc
          all_unbound (p ∷ ps) size went =
              let (d, ed, rest) = >>=-eq-ok (new_values engine table resource principal p) _ went in
              new_values-unbound p d ed

      tenant_clause-unbound :
          (clauses : List Clause) → tenant_clause resource table principal ≢ ok clauses
      tenant_clause-unbound clauses went = unfold tenant_clause in ground (arith, named, unbound)

      item_clauses-unbound :
          (item_id : Value) (action : Text) (clauses : List Clause)
          → item_clauses table resource principal item_id action ≢ ok clauses
      unfolding item_clauses base_clauses
      item_clauses-unbound item_id action clauses went =
          let (pk, ep, rest) = >>=-eq-ok (column_of resource.primary_key table) _ went in
          let (value, ev, rest) = >>=-eq-ok (coerce_for_column pk item_id) _ rest in
          let (base, eb, rest) = >>=-eq-ok (base_clauses resource table principal action) _ rest in
          let (t, et, rest) = >>=-eq-ok (tenant_clause resource table principal) _ eb in
          tenant_clause-unbound t et

      update_plan-unbound :
          (item_id : Value) (payload : Payload) (replaces : Bool) (plan : List Clause × Row)
          → update_plan engine table resource principal item_id payload replaces ≢ ok plan
      unfolding update_plan
      update_plan-unbound item_id payload replaces plan went =
          let (w, ew, rest) =
            >>=-eq-ok
              (write_payload engine.validate payload resource table resource.update_schema
                (mode_of replaces))
              _ went in
          let (filled, rest) =
            passed (length w == 0) (http_error 422 "No writable fields supplied")
              (item_clauses table resource principal item_id (codes "update") >>= (λ c. ok (c, w)))
              rest in
          let (c, ec, rest) =
            >>=-eq-ok (item_clauses table resource principal item_id (codes "update")) _ rest in
          item_clauses-unbound item_id (codes "update") c ec

      pub handle-unbound :
          (call : Call) (rows : List Row) → handle engine table resource principal call rows ≡ rows
      unfolding handle create_row batch_create_rows update_row delete_row
      handle-unbound (creates payload) rows =
          elim (Result-cases (new_values engine table resource principal payload)) [
            | inl (e, failed) ↦ rw (failed, handle, create_row) refl
            | inr (d, went) ↦ absurd (new_values-unbound payload d went)
          ]
      handle-unbound (creates_batch payloads) rows =
          elim (Result-cases (batch_values engine table resource principal payloads)) [
            | inl (e, failed) ↦ rw (failed, handle, batch_create_rows) refl
            | inr (d, went) ↦ absurd (batch_values-unbound payloads d went)
          ]
      handle-unbound (updates item_id payload replaces) rows =
          elim (Result-cases
            (update_plan engine table resource principal item_id payload replaces)) [
              | inl (e, failed) ↦ rw (failed, handle, update_row) refl
              | inr (d, went) ↦ absurd (update_plan-unbound item_id payload replaces d went)
            ]
      handle-unbound (deletes item_id now) rows =
          elim (Result-cases (item_clauses table resource principal item_id (codes "delete"))) [
            | inl (e, failed) ↦ rw (failed, handle, delete_row) refl
            | inr (d, went) ↦ absurd (item_clauses-unbound item_id (codes "delete") d went)
          ]
