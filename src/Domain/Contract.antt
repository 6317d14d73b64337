-- ===== src/Domain/Contract.antt =====
-- What the feature packs generate, for every configuration of the packs: resources whose fields are
-- all columns of their table, and that let no client write the row's identity, owner or deletion.
use json_api_forge.Prelude.{
  beq_refl, Bool-cases, String, refl, inl, inr, Bool, true, false, not, Option, none, some, List,
  [], arith, any, all, All, In, here, there, All-In, In-append, not-In-nil, In-cons, ◌≡◌, ◌⊎◌, ◌&&◌,
  ◌||◌, ◌∷◌, ◌++◌, if◌then◌else◌, ◌==◌, string_eq,
}
use json_api_forge.Prelude.Dict
use json_api_forge.Prelude.Dict.{Dict, lookup}
use json_api_forge.Domain.Packs.{
  ColumnConfig, ResourceConfig, PackConfig, Keywords, Project, with_tenant, with_column, entry,
  messaging_resources, social_resources, gaming_resources, is_table_of, add_new,
  expand_feature_packs,
}

abbrev pub has : Dict String ColumnConfig → String → Bool
has columns name = elim (lookup name columns) [ none ↦ false | some c ↦ true ]

abbrev pub has_optional : Dict String ColumnConfig → Option String → Bool
has_optional columns none = true
has_optional columns (some name) = has columns name

abbrev pub or_empty : Option (List String) → List String
or_empty none = []
or_empty (some names) = names

abbrev pub is_field : String → Option String → Bool
is_field name none = false
is_field name (some f) = name == f

-- The column that `tenant_field` names. The empty text is false in Python, as None is, and names none.
abbrev pub has_tenant : Dict String ColumnConfig → Option String → Bool
has_tenant columns none = true
has_tenant columns (some String.[]) = true
has_tenant columns (some (String.◌∷◌ c s)) = has columns (String.◌∷◌ c s)

-- The fields that identify, own or delete a row.
abbrev pub is_guarded : ResourceConfig → String → Bool
is_guarded r name =
    name == r.primary_key || (is_field name r.owner_field || is_field name r.soft_delete_field)

pub record IsSound (r : ResourceConfig) : Type 0 where
  pub key : has r.columns r.primary_key ≡ true
  pub filters : all (has r.columns) r.allowed_filters ≡ true
  pub sorts : all (has r.columns) r.allowed_sort ≡ true
  pub writable : all (has r.columns) (or_empty r.writable_fields) ≡ true
  pub owner : has_optional r.columns r.owner_field ≡ true
  pub soft_delete : has_optional r.columns r.soft_delete_field ≡ true
  pub cursor : has_optional r.columns r.cursor_field ≡ true
  pub tenant : has_tenant r.columns r.tenant_field ≡ true
  pub guarded : any (is_guarded r) (or_empty r.writable_fields) ≡ false

has-append :
    (c d : Dict String ColumnConfig) (name : String) → has c name ≡ true → has (c ++ d) name ≡ true
has-append c d name h = ground (arith, Dict.lookup-append name c d)

-- The tenant's column takes no other column away.
has-with_tenant :
    (columns : Dict String ColumnConfig) (tenant : Option String) (name : String)
    → has columns name ≡ true
    → has (with_tenant columns tenant) name ≡ true
unfolding with_tenant
has-with_tenant columns none name h = h
has-with_tenant columns (some String.[]) name h = h
has-with_tenant columns (some (String.◌∷◌ c s)) name h = added (lookup (String.◌∷◌ c s) columns)
  where
    added : (o : Option ColumnConfig) → has (with_column (String.◌∷◌ c s) o columns) name ≡ true
    added (some present) = h
    added none = has-append columns _ name h

-- A column added at the end of a table without it is found there.
has-added :
    (columns : Dict String ColumnConfig) (name : String) (c : ColumnConfig)
    → has (columns ++ (name, c) ∷ []) name ≡ true
unfolding lookup
has-added [] name c = rw (has, beq_refl name) refl
has-added ((k, v) ∷ columns) name c = elim (Bool-cases (k == name)) [
  | inl same ↦ rw (has, same) refl
  | inr other ↦ rw (has, other) (has-added columns name c)
]

-- The table has the tenant's column, whether it had one of that name or not.
has_tenant-with_tenant :
    (columns : Dict String ColumnConfig) (tenant : Option String)
    → has_tenant (with_tenant columns tenant) tenant ≡ true
unfolding with_tenant
has_tenant-with_tenant columns none = refl
has_tenant-with_tenant columns (some String.[]) = refl
has_tenant-with_tenant columns (some (String.◌∷◌ c s)) =
    found (lookup (String.◌∷◌ c s) columns) refl
  where
    found :
        (o : Option ColumnConfig)
        → lookup (String.◌∷◌ c s) columns ≡ o
        → has (with_column (String.◌∷◌ c s) o columns) (String.◌∷◌ c s) ≡ true
    found (some present) e = unfold with_column in rw (e, has) refl
    found none e = unfold with_column in has-added columns _ _

all_mono :
    (p q : String → Bool) (xs : List String)
    → ((x : String) → p x ≡ true → q x ≡ true)
    → all p xs ≡ true
    → all q xs ≡ true
all_mono p q [] h e = refl
all_mono p q (x ∷ xs) h e = ground (arith, h x, all_mono p q xs h)

-- The check of one call of `_resource`, on what the pack writes down.
guards : Keywords → String → Bool
guards k name = name == "id" || (is_field name k.owner_field || is_field name k.soft_delete)

passes : Dict String ColumnConfig → Keywords → Bool
unfolding guards
passes columns k =
    has columns "id"
    && (all (has columns) k.filters
        && (all (has columns) k.sort
            && (all (has columns) (or_empty k.writable)
                && (has_optional columns k.owner_field
                    && (has_optional columns k.soft_delete
                        && (has_optional columns k.cursor_field
                            && not (any (guards k) (or_empty k.writable))))))))

optional-with_tenant :
    (columns : Dict String ColumnConfig) (tenant name : Option String)
    → has_optional columns name ≡ true
    → has_optional (with_tenant columns tenant) name ≡ true
optional-with_tenant columns tenant none h = refl
optional-with_tenant columns tenant (some n) h = has-with_tenant columns tenant n h

entry-IsSound :
    (spec : PackConfig) (table path : String) (columns : Dict String ColumnConfig) (k : Keywords)
    → passes columns k ≡ true
    → IsSound (entry spec table path columns k)
unfolding entry passes
entry-IsSound spec table path columns k h =
    let t = spec.tenant_field in
    let more = has-with_tenant columns t in
    record {
      key = more "id" (ground arith);
      filters = all_mono _ _ k.filters more (ground arith);
      sorts = all_mono _ _ k.sort more (ground arith);
      writable = all_mono _ _ (or_empty k.writable) more (ground arith);
      owner = optional-with_tenant columns t k.owner_field (ground arith);
      soft_delete = optional-with_tenant columns t k.soft_delete (ground arith);
      cursor = optional-with_tenant columns t k.cursor_field (ground arith);
      tenant = has_tenant-with_tenant columns t;
      guarded = ground arith;
    }

when_enabled :
    (b : Bool) (rs : List ResourceConfig) → All IsSound rs → All IsSound (if b then rs else [])
when_enabled true rs h = h
when_enabled false rs h = tt

messaging-IsSound : (spec : PackConfig) → All IsSound (messaging_resources spec)
unfolding messaging_resources passes lookup
messaging-IsSound spec = when_enabled spec.enabled _ (
  entry-IsSound spec _ _ _ _ refl,
  (
    entry-IsSound spec _ _ _ _ refl,
    (
      entry-IsSound spec _ _ _ _ refl,
      (entry-IsSound spec _ _ _ _ refl, (entry-IsSound spec _ _ _ _ refl, tt)),
    ),
  ),
)

social-IsSound : (spec : PackConfig) → All IsSound (social_resources spec)
unfolding social_resources passes lookup
social-IsSound spec = when_enabled spec.enabled _ (
  entry-IsSound spec _ _ _ _ refl,
  (
    entry-IsSound spec _ _ _ _ refl,
    (
      entry-IsSound spec _ _ _ _ refl,
      (
        entry-IsSound spec _ _ _ _ refl,
        (entry-IsSound spec _ _ _ _ refl, (entry-IsSound spec _ _ _ _ refl, tt)),
      ),
    ),
  ),
)

gaming-IsSound : (spec : PackConfig) → All IsSound (gaming_resources spec)
unfolding gaming_resources passes lookup
gaming-IsSound spec = when_enabled spec.enabled _ (
  entry-IsSound spec _ _ _ _ refl,
  (
    entry-IsSound spec _ _ _ _ refl,
    (
      entry-IsSound spec _ _ _ _ refl,
      (
        entry-IsSound spec _ _ _ _ refl,
        (entry-IsSound spec _ _ _ _ refl, (entry-IsSound spec _ _ _ _ refl, tt)),
      ),
    ),
  ),
)

add_new-In :
    (existing generated resources : List ResourceConfig) (r : ResourceConfig)
    → In r (add_new existing generated resources)
    → In r resources ⊎ In r generated
unfolding add_new
add_new-In existing [] resources r m = inl m
add_new-In existing (g ∷ generated) resources r m = later (add_new-In existing generated _ r m)
  where
    kept :
        (b : Bool) → In r (if b then resources else resources ++ g ∷ []) → In r resources ⊎ (r ≡ g)
    kept true n = inl n
    kept false n = elim (In-append resources (g ∷ []) n) [
      | inl old ↦ inl old
      | inr new ↦ elim (In-cons new) [ inl e ↦ inr e | inr nothing ↦ absurd (not-In-nil nothing) ]
    ]

    later :
        In r (if any (is_table_of g) existing then resources else resources ++ g ∷ [])
          ⊎ In r generated
        → In r resources ⊎ In r (g ∷ generated)
    later (inr n) = inr (there n)
    later (inl n) = elim (kept (any (is_table_of g) existing) n) [
      | inl old ↦ inl old
      | inr e ↦ inr (rw e here)
    ]

-- Whatever the packs' prefixes, databases and tenant fields are: every resource that expanding them
-- adds to a project names only columns of its own table, the tenant's column included unless its
-- name is empty, and its clients can write neither the primary key nor the owner nor the mark of
-- deletion.
pub expand_feature_packs-IsSound :
    (p : Project) (r : ResourceConfig)
    → In r (expand_feature_packs p).resources
    → In r p.resources ⊎ IsSound r
unfolding expand_feature_packs
expand_feature_packs-IsSound p r m = elim (add_new-In p.resources _ p.resources r m) [
  | inl old ↦ inl old
  | inr new ↦ elim (In-append (messaging_resources p.messaging) _ new) [
    | inl a ↦ inr (All-In IsSound (messaging-IsSound p.messaging) a)
    | inr rest ↦ elim (In-append (social_resources p.social) (gaming_resources p.gaming) rest) [
      | inl b ↦ inr (All-In IsSound (social-IsSound p.social) b)
      | inr c ↦ inr (All-In IsSound (gaming-IsSound p.gaming) c)
    ]
  ]
]
