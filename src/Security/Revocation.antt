-- ===== src/Security/Revocation.antt =====
-- What authentication by API key and by the bootstrap key guarantees, over every sequence of the
-- operations that one process performs one after the other.
use json_api_forge.Prelude.{
  ℕ, refl, inl, inr, false, not, Option, none, some, List, [], map, arith, Bool-cases, any, In, ◌≡◌,
  ◌∙◌, ◌&&◌, ◌∷◌, ◌++◌,
}
use json_api_forge.Prelude.Text.{Text, text_eq, text_beq, text_beq_iff}
use json_api_forge.Security.ApiKeys.{
  ApiKey, Keys, is_row, find_row, clear_cache, past, cached_api_key_row, is_key, disable,
  revoke_api_key,
}
use json_api_forge.Security.Authenticate.{Project, remember, row_of, authenticate_key}
use json_api_forge.Security.Coherence.{
  Entry, Fits, IsCoherent, In-keep, store-IsCoherent, cached-IsCoherent,
}

pub find_row-append :
    (slug hash : Text) (rows more : List ApiKey) (row : ApiKey)
    → find_row slug hash rows ≡ some row
    → find_row slug hash (rows ++ more) ≡ some row
unfolding find_row
find_row-append slug hash [] more row h = cc
find_row-append slug hash (r ∷ rows) more row h =
    ground (arith, find_row-append slug hash rows more row)

-- Disabling rows of one project leaves the rows of the others as they are.
pub find_row-disable_other :
    (slug hash : Text) (other : Text) (id : ℕ) (rows : List ApiKey)
    → text_beq slug other ≡ false
    → find_row slug hash (map (disable other id) rows) ≡ find_row slug hash rows
unfolding find_row is_row
find_row-disable_other slug hash other id [] h = refl
find_row-disable_other slug hash other id (r ∷ rows) h = ground (
  arith,
  find_row-disable_other slug hash other id rows h,
  text_beq_iff r.project_slug other,
  text_beq_iff r.project_slug slug,
  text_beq_iff slug other,
)

disable_nothing :
    (slug : Text) (id : ℕ) (rows : List ApiKey)
    → any (is_key slug id) rows ≡ false
    → map (disable slug id) rows ≡ rows
disable_nothing slug id [] h = refl
disable_nothing slug id (r ∷ rows) h = ground (arith, disable_nothing slug id rows)

pub find_row-disable :
    (slug hash : Text) (id : ℕ) (rows : List ApiKey) (row : ApiKey)
    → find_row slug hash rows ≡ some row
    → find_row slug hash (map (disable slug id) rows) ≡ some (disable slug id row)
unfolding find_row is_row
find_row-disable slug hash id [] row h = cc
find_row-disable slug hash id (r ∷ rows) row h =
    ground (arith, find_row-disable slug hash id rows row)

remember-IsCoherent :
    (p : Project) (hash : Text) (mono now : ℕ) (s : Keys)
    → IsCoherent s
    → IsCoherent (remember p hash mono now (find_row p.slug hash s.api_keys) s)
unfolding remember
remember-IsCoherent p hash mono now s v = go (find_row p.slug hash s.api_keys) refl
  where
    go :
        (o : Option ApiKey)
        → find_row p.slug hash s.api_keys ≡ o
        → IsCoherent (remember p hash mono now o s)
    go none h = v
    go (some row) h = elim (Bool-cases (row.enabled && not (past row.expires_at now))) [
      | inl fresh ↦
          rw fresh (store-IsCoherent p.cache_ttl p.cache_max_entries p.slug hash row mono s h v)
      | inr stale ↦ rw stale v
    ]

row_of-IsCoherent :
    (p : Project) (hash : Text) (mono now : ℕ) (x : Option ApiKey × Keys)
    → IsCoherent x.1
    → IsCoherent (row_of p hash mono now x).1
unfolding row_of
row_of-IsCoherent p hash mono now (some row, s) v = v
row_of-IsCoherent p hash mono now (none, s) v = remember-IsCoherent p hash mono now s v

pub authenticate_key-IsCoherent :
    (p : Project) (hash : Text) (mono now : ℕ) (s : Keys)
    → IsCoherent s
    → IsCoherent (authenticate_key p hash mono now s).1
unfolding authenticate_key
authenticate_key-IsCoherent p hash mono now s v =
    row_of-IsCoherent p hash mono now (cached_api_key_row p.cache_ttl p.slug hash mono now s)
      (cached-IsCoherent p.cache_ttl p.slug hash mono now s v)

pub clear-IsCoherent :
    (slug : Text) (s : Keys) (rows : List ApiKey)
    → ((x : Entry) → In x s.auth_cache → text_beq x.0.0 slug ≡ false → Fits rows x)
    → IsCoherent (record (clear_cache slug s) { api_keys = rows })
unfolding clear_cache
clear-IsCoherent slug s rows f = record {
  fits = λ x m.
      let (l, q) = In-keep (λ (e : Entry). not (text_beq e.0.0 slug)) s.auth_cache x m in
      f x l (ground (arith, q));
}

pub revoke_api_key-IsCoherent :
    (slug : Text) (id : ℕ) (s : Keys) → IsCoherent s → IsCoherent (revoke_api_key slug id s).1
unfolding revoke_api_key clear_cache
revoke_api_key-IsCoherent slug id s v = elim (Bool-cases (any (is_key slug id) s.api_keys)) [
  | inl hit ↦ rw hit (
      clear-IsCoherent slug s (map (disable slug id) s.api_keys)
        (λ x m other. find_row-disable_other x.0.0 x.0.1 slug id s.api_keys other ∙ v.fits x m))
  | inr miss ↦ rw (miss, disable_nothing slug id s.api_keys miss) v
]
