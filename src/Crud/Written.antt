-- ===== src/Crud/Written.antt =====
-- What a payload writes: the fields that the resource leaves to its clients, and no policy's field.
use json_api_forge.Prelude.{
  ℕ, refl, sym, ap, subst, inl, inr, Bool, false, Option, none, some, List, [], map, arith,
  Bool-cases, keep, In, here, In-append_left, In-append_right, contains, In-contains, http_error,
  Result, ok, >>=-eq-ok, passed, ◌≡◌, ◌∙◌, ◌∷◌, ◌++◌, ◌==◌, nat_eq, string_eq,
}
use json_api_forge.Prelude.Dict.{Dict, lookup, lookup-assign}
use json_api_forge.Prelude.Text.{Text, text_eq, text_beq, text_beq_iff}
use json_api_forge.Crud.Model.{Value, Row, Column, Columns, Resource, truthy, null}
use json_api_forge.Crud.Fields.{
  named, protected_write_fields, has_unknown, only, named, protected_write_fields,
  allowed_write_fields, Payload, Mode, fill_one, fill, complete, write_payload, object, other,
  create, patch, replace,
}

lookup-only :
    (k : Text) (fields : List Text) (row : Row)
    → contains k fields ≡ false
    → lookup k (only fields row) ≡ none
unfolding lookup only
lookup-only k fields [] h = refl
lookup-only k fields ((j, v) ∷ row) h = ground (arith, lookup-only k fields row, text_beq_iff j k)

lookup-fill_one :
    (k name : Text) (held : Option Value) (column : Option Column) (before after : Dict Text Value)
    → fill_one name held column before ≡ ok after
    → text_beq k name ≡ false
    → lookup k after ≡ lookup k before
unfolding fill_one
lookup-fill_one k name (some v) column before after went differ = cc
lookup-fill_one k name none none before after went differ = cc
lookup-fill_one k name none (some column) before after went differ =
    ground (arith, lookup-assign name k null before, text_beq_iff k name, text_beq_iff name k)

lookup-fill :
    (k : Text) (names : List Text) (table : Columns) (before after : Dict Text Value)
    → fill names table before ≡ ok after
    → contains k names ≡ false
    → lookup k after ≡ lookup k before
unfolding fill
lookup-fill k [] table before after went absent = ground arith
lookup-fill k (name ∷ names) table before after went absent =
    let (filled, first, rest) = >>=-eq-ok _ _ went in
    lookup-fill k names table filled after rest (ground arith)
    ∙ lookup-fill_one k name (lookup name before) (lookup name table) before filled first
        (ground arith)

lookup-complete :
    (k : Text) (mode : Mode) (allowed : List Text) (table : Columns)
    (before after : Dict Text Value)
    → complete mode allowed table before ≡ ok after
    → contains k allowed ≡ false
    → lookup k after ≡ lookup k before
unfolding complete
lookup-complete k create allowed table before after went absent = ground arith
lookup-complete k patch allowed table before after went absent = ground arith
lookup-complete k replace allowed table before after went absent =
    lookup-fill k allowed table before after went absent

-- A field outside the allowed ones is never written.
pub write_payload-allowed :
    (validate : Option ℕ → Dict Text Value → Result (Unit {0})) (payload : Payload)
    (resource : Resource) (table : Columns) (schema : Option ℕ) (mode : Mode)
    (written : Dict Text Value)
    → write_payload validate payload resource table schema mode ≡ ok written
    → (k : Text) → contains k (allowed_write_fields resource table) ≡ false
    → lookup k written ≡ none
unfolding write_payload
write_payload-allowed validate other resource table schema mode written went k absent = cc
write_payload-allowed validate (object payload) resource table schema mode written went k absent =
    let allowed = allowed_write_fields resource table in
    let (u, valid, rest) = >>=-eq-ok (validate schema payload) _ went in
    let (known, last) =
      passed (has_unknown allowed payload) (http_error 422 "forbidden_or_unknown_fields")
        (complete mode allowed table (only allowed payload)) rest in
    lookup-complete k mode (allowed_write_fields resource table) table
      (only (allowed_write_fields resource table) payload) written last absent
    ∙ lookup-only k (allowed_write_fields resource table) payload absent

-- `allowed` has no protected field.
contains-keep :
    (k : Text) (p : Text → Bool) (names : List Text)
    → p k ≡ false
    → contains k (keep p names) ≡ false
contains-keep k p [] h = refl
contains-keep k p (n ∷ names) h = elim (Bool-cases (k == n)) [
  | inl same ↦
      let e : k ≡ n = (text_beq_iff k n).0 same in
      let gone : p n ≡ false = ap p (sym e) ∙ h in ground (arith, contains-keep k p names)
  | inr differ ↦ ground (arith, contains-keep k p names)
]

In-named : (name : Option Text) (field : Text) → truthy name ≡ some field → In field (named name)
unfolding truthy named
In-named none field h = cc
In-named (some []) field h = cc
In-named (some (c ∷ t)) field h =
    let e : c ∷ t ≡ field = cc h in subst (λ f. In f ((c ∷ t) ∷ [])) e here

-- The field of one of the resource's policies.
pub data Policy (resource : Resource) (field : Text) : Type 0 where
  of_tenant : truthy resource.tenant_field ≡ some field → Policy resource field
  of_owner : truthy resource.owner_field ≡ some field → Policy resource field
  of_deletion : truthy resource.soft_delete_field ≡ some field → Policy resource field

Policy-protected :
    (resource : Resource) (field : Text)
    → Policy resource field
    → In field (protected_write_fields resource)
unfolding protected_write_fields
Policy-protected resource field (of_tenant h) = In-append_left (named resource.soft_delete_field) (
    In-append_left (named resource.owner_field) (
      In-append_right (named (some resource.primary_key)) (In-named resource.tenant_field field h)))
Policy-protected resource field (of_owner h) = In-append_left (named resource.soft_delete_field) (
    In-append_right (named (some resource.primary_key) ++ named resource.tenant_field)
      (In-named resource.owner_field field h))
Policy-protected resource field (of_deletion h) =
    In-append_right
      (named (some resource.primary_key)
        ++ named resource.tenant_field
        ++ named resource.owner_field)
      (In-named resource.soft_delete_field field h)

-- The fields of the tenant, the owner and the soft deletion are never a client's to write, in any mode.
pub write_payload-protected :
    (validate : Option ℕ → Dict Text Value → Result (Unit {0})) (payload : Payload)
    (resource : Resource) (table : Columns) (schema : Option ℕ) (mode : Mode)
    (written : Dict Text Value) (field : Text)
    → write_payload validate payload resource table schema mode ≡ ok written
    → Policy resource field
    → lookup field written ≡ none
unfolding allowed_write_fields
write_payload-protected validate payload resource table schema mode written field went policy =
    let held = In-contains (Policy-protected resource field policy) in
    write_payload-allowed validate payload resource table schema mode written went field
      (contains-keep field _ (map (λ entry. entry.0) table) (ground arith))
