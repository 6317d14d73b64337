-- ===== src/Security/Sessions.antt =====
-- Sequences of logins, of keys created and of keys revoked, as one process performs them, each of them
-- from its start to its end before the next.
use json_api_forge.Prelude.{
  ℕ, refl, ap, subst, inl, inr, Bool, true, false, Option, none, some, List, [], arith, ltb,
  Bool-cases, length, In, Result, ok, err, >>=-eq-ok, not-In-nil, ◌≡◌, ◌∙◌, ◌⊎◌, ◌∷◌, ◌++◌,
  if◌then◌else◌, ◌>>=◌,
}
use json_api_forge.Prelude.Text.{Text, text_eq}
use json_api_forge.Security.Claims.{Json}
use json_api_forge.Security.ApiKeys.{
  ApiKey, Keys, find_row, clear_cache, cached_api_key_row, consume_bootstrap, insert_row, integrity,
  create_api_key, revoke_api_key,
}
use json_api_forge.Security.Authenticate.{
  Project, Request, raw_key_of, bootstrap_key, is_bootstrap, accept_row, row_of, authenticate_key,
  authenticate_raw, authenticate_request,
}
use json_api_forge.Security.Coherence.{Entry, IsCoherent, cached_lem}
use json_api_forge.Security.Revocation.{
  find_row-append, authenticate_key-IsCoherent, clear-IsCoherent, revoke_api_key-IsCoherent,
}

-- The database accepted the row: the rows before it are still first.
pub inserted :
    (once : Bool) (row : ApiKey) (s t : Keys)
    → integrity once (insert_row row s) ≡ ok t
    → (t.api_keys ≡ s.api_keys ++ record row { id = s.next_id } ∷ [])
      × (t.auth_cache ≡ s.auth_cache)
      × (t.bootstrap_state ≡ s.bootstrap_state)
unfolding integrity insert_row
inserted true row s t h = ground arith
inserted false row s t h = ground arith

started_same :
    (slug : Text) (once : Bool) (now : ℕ) (s t : Keys)
    → (if once then consume_bootstrap slug now s else ok s) ≡ ok t
    → (t.api_keys ≡ s.api_keys) × (t.auth_cache ≡ s.auth_cache)
unfolding consume_bootstrap
started_same slug true now s t h = ground arith
started_same slug false now s t h = ground arith

create_api_key-IsCoherent :
    (row : ApiKey) (once : Bool) (now : ℕ) (s : Keys)
    → IsCoherent s
    → IsCoherent (create_api_key row once now s).1
unfolding create_api_key
create_api_key-IsCoherent row once now s v =
    go
      ((if once then consume_bootstrap row.project_slug now s else ok s) >>= λ t.
        integrity once (insert_row (record row { enabled = true }) t))
      refl
  where
    go :
        (r : Result Keys)
        → ((if once then consume_bootstrap row.project_slug now s else ok s) >>= λ t.
            integrity once (insert_row (record row { enabled = true }) t))
          ≡ r
        → IsCoherent
            (elim r as (λ _. Result (Unit {0}) × Keys) [
              | err e ↦ (err e, s)
              | ok t ↦ (ok tt, clear_cache row.project_slug t)
            ]).1
    go (err e) h = v
    go (ok t) h =
        let (a, started, done) =
          >>=-eq-ok (if once then consume_bootstrap row.project_slug now s else ok s)
            (λ t. integrity once (insert_row (record row { enabled = true }) t)) h in
        let (rows, cache) = started_same row.project_slug once now s a started in
        let (more, kept, boot) = inserted once (record row { enabled = true }) a t done in
        clear-IsCoherent row.project_slug t t.api_keys (λ x m other.
          rw (more, rows)
            (find_row-append x.0.0 x.0.1 s.api_keys _ x.1.1
              (v.fits x (subst (λ (d : List Entry). In x d) (kept ∙ cache) m))))

pub data Event : Type 0 where
  logs_in : Project → Request → ℕ → ℕ → Event
  creates : ApiKey → Bool → ℕ → Event
  revokes : Text → ℕ → Event

module _ (hash_key : Text → Text) (str : Json → Text) (decode : Text → Result Json) where
  authenticate_raw-IsCoherent :
      (p : Project) (r : Request) (raw : Option Text) (mono now : ℕ) (s : Keys)
      → IsCoherent s
      → IsCoherent (authenticate_raw hash_key str decode p r raw mono now s).1
  unfolding authenticate_raw
  authenticate_raw-IsCoherent p r none mono now s v = v
  authenticate_raw-IsCoherent p r (some []) mono now s v = v
  authenticate_raw-IsCoherent p r (some (c ∷ raw)) mono now s v =
      elim (Bool-cases (ltb 512 (length (c ∷ raw)))) [
        | inl long ↦ rw long v
        | inr short ↦ elim (Bool-cases (is_bootstrap (c ∷ raw) (bootstrap_key p))) [
          | inl boot ↦ rw (short, boot) v
          | inr key ↦
              rw (short, key) (authenticate_key-IsCoherent p (hash_key (c ∷ raw)) mono now s v)
        ]
      ]

  unfoldable pub step : Event → Keys → Keys
  step (logs_in p r mono now) s = (authenticate_request hash_key str decode p r mono now s).1
  step (creates row once now) s = (create_api_key row once now s).1
  step (revokes slug id) s = (revoke_api_key slug id s).1

  unfoldable pub run : List Event → Keys → Keys
  unfolding step
  run [] s = s
  run (e ∷ es) s = run es (step e s)

  pub run-IsCoherent : (es : List Event) (s : Keys) → IsCoherent s → IsCoherent (run es s)
  unfolding run authenticate_request
  run-IsCoherent [] s v = v
  run-IsCoherent (logs_in p r mono now ∷ es) s v =
      run-IsCoherent es _ (authenticate_raw-IsCoherent p r (raw_key_of p r) mono now s v)
  run-IsCoherent (creates row once now ∷ es) s v =
      run-IsCoherent es _ (create_api_key-IsCoherent row once now s v)
  run-IsCoherent (revokes slug id ∷ es) s v =
      run-IsCoherent es _ (revoke_api_key-IsCoherent slug id s v)

  pub uncached :
      (p : Project) (hash : Text) (mono now : ℕ) (t : Keys)
      → IsCoherent t
      → (authenticate_key p hash mono now t).0
        ≡ accept_row p.roles now (find_row p.slug hash t.api_keys)
  unfolding authenticate_key row_of
  uncached p hash mono now t v =
      let (same, found) = cached_lem p.cache_ttl p.slug hash mono now t v in
      given (cached_api_key_row p.cache_ttl p.slug hash mono now t) same found
    where
      given :
          (x : Option ApiKey × Keys)
          → x.1.api_keys ≡ t.api_keys
          → (x.0 ≡ none) ⊎ (x.0 ≡ find_row p.slug hash t.api_keys)
          → accept_row p.roles now (row_of p hash mono now x).0
            ≡ accept_row p.roles now (find_row p.slug hash t.api_keys)
      given (none, u) same found = rw same
      given (some row, u) same (inl none_found) = cc
      given (some row, u) same (inr found) =
          ap (λ (o : Option ApiKey). accept_row p.roles now o) found

  pub run_from_empty : (es : List Event) (s : Keys) → s.auth_cache ≡ [] → IsCoherent (run es s)
  run_from_empty es s empty =
      run-IsCoherent es s (record { fits = λ x m. absurd (not-In-nil (rw empty at m)) })

  -- After every sequence of logins, creations and revocations that do not overlap, in a process that
  -- started with an empty cache, a login by API key ends as the database's row of that key says: the
  -- cache makes no difference to whom it lets in.
  pub cache_is_transparent :
      (es : List Event) (s : Keys) (p : Project) (hash : Text) (mono now : ℕ)
      → s.auth_cache ≡ []
      → (authenticate_key p hash mono now (run es s)).0
        ≡ accept_row p.roles now (find_row p.slug hash (run es s).api_keys)
  cache_is_transparent es s p hash mono now empty =
      uncached p hash mono now (run es s) (run_from_empty es s empty)
