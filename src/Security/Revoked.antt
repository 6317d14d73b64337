-- ===== src/Security/Revoked.antt =====
-- What a revocation and the use of the bootstrap key mean for everything that happens afterwards.
use json_api_forge.Prelude.{
  ℕ, refl, sym, inl, inr, Bool, true, false, Option, none, some, List, [], map, arith, Bool-cases,
  http_error, Result, ok, err, ◌≡◌, ◌∙◌, ◌⊎◌, ◌∷◌, ◌++◌, string_eq,
}
use json_api_forge.Prelude.Dict
use json_api_forge.Prelude.Dict.{Dict, lookup, assign}
use json_api_forge.Prelude.Text.{Text, text_eq, text_beq, text_beq_iff}
use json_api_forge.Security.Claims.{Json}
use json_api_forge.Security.ApiKeys.{
  ApiKey, Keys, is_row, find_row, clear_cache, store_api_key_row, read_cached, cached_api_key_row,
  consumed, bootstrap_is_available, consume_bootstrap, insert_row, integrity, create_api_key,
  disable, revoke_api_key,
}
use json_api_forge.Security.Authenticate.{
  Project, Request, raw_key_of, accept_row, remember, row_of, authenticate_key,
  authenticate_bootstrap, authenticate_raw, authenticate_request,
}
use json_api_forge.Security.Coherence.{IsCoherent}
use json_api_forge.Security.Revocation.{
  find_row-append, find_row-disable, find_row-disable_other, revoke_api_key-IsCoherent,
}
use json_api_forge.Security.Sessions.{
  Event, logs_in, creates, revokes, step, run, run-IsCoherent, run_from_empty, uncached,
}

-- A login changes neither table.
abbrev Same : Keys → Keys → Type 0
Same t s = (t.api_keys ≡ s.api_keys) × (t.bootstrap_state ≡ s.bootstrap_state)

cached-Same :
    (ttl : ℕ) (slug hash : Text) (mono now : ℕ) (s : Keys)
    → Same (cached_api_key_row ttl slug hash mono now s).1 s
unfolding cached_api_key_row read_cached
cached-Same ttl slug hash mono now s = ground arith

row_of-Same :
    (p : Project) (hash : Text) (mono now : ℕ) (x : Option ApiKey × Keys)
    → Same (row_of p hash mono now x).1 x.1
unfolding row_of remember store_api_key_row
row_of-Same p hash mono now (some row, s) = (refl, refl)
row_of-Same p hash mono now (none, s) = ground arith

key-Same :
    (p : Project) (hash : Text) (mono now : ℕ) (s : Keys)
    → Same (authenticate_key p hash mono now s).1 s
unfolding authenticate_key
key-Same p hash mono now s =
    let c = cached-Same p.cache_ttl p.slug hash mono now s in
    let r = row_of-Same p hash mono now (cached_api_key_row p.cache_ttl p.slug hash mono now s) in
    (r.0 ∙ c.0, r.1 ∙ c.1)

module _ (hash_key : Text → Text) (str : Json → Text) (decode : Text → Result Json) where
  raw-Same :
      (p : Project) (r : Request) (raw : Option Text) (mono now : ℕ) (s : Keys)
      → Same (authenticate_raw hash_key str decode p r raw mono now s).1 s
  unfolding authenticate_raw
  raw-Same p r none mono now s = (refl, refl)
  raw-Same p r (some []) mono now s = (refl, refl)
  raw-Same p r (some (c ∷ raw)) mono now s =
      ground (arith, key-Same p (hash_key (c ∷ raw)) mono now s)

  -- The key's first row is there, and disabled.
  abbrev IsDisabled : Text → Text → Keys → Type 0
  IsDisabled slug hash s =
      (row : ApiKey) × (find_row slug hash s.api_keys ≡ some row) × (row.enabled ≡ false)

  disabled_again :
      (slug : Text) (id : ℕ) (row : ApiKey)
      → row.enabled ≡ false
      → (disable slug id row).enabled ≡ false
  disabled_again slug id row h = ground arith

  revoke_rows :
      (slug : Text) (id : ℕ) (s : Keys)
      → ((revoke_api_key slug id s).1.api_keys ≡ map (disable slug id) s.api_keys)
        × ((revoke_api_key slug id s).1.bootstrap_state ≡ s.bootstrap_state)
  unfolding revoke_api_key clear_cache
  revoke_rows slug id s = ground arith

  created_rows :
      (row : ApiKey) (once : Bool) (now : ℕ) (s : Keys)
      → ((create_api_key row once now s).1.api_keys ≡ s.api_keys)
        ⊎ ((create_api_key row once now s).1.api_keys
            ≡ s.api_keys ++ record row { enabled = true; id = s.next_id } ∷ [])
  unfolding create_api_key consume_bootstrap insert_row integrity clear_cache
  created_rows row true now s = ground arith
  created_rows row false now s = ground arith

  created_consumed :
      (slug : Text) (row : ApiKey) (once : Bool) (now : ℕ) (s : Keys)
      → consumed (lookup slug s.bootstrap_state) ≡ true
      → consumed (lookup slug (create_api_key row once now s).1.bootstrap_state) ≡ true
  unfolding create_api_key consume_bootstrap insert_row integrity clear_cache
  created_consumed slug row true now s h =
      ground (arith, Dict.lookup-assign row.project_slug slug (some now) s.bootstrap_state)
  created_consumed slug row false now s h = ground arith

  run-IsDisabled :
      (es : List Event) (slug hash : Text) (s : Keys)
      → IsDisabled slug hash s
      → IsDisabled slug hash (run hash_key str decode es s)
  unfolding run step authenticate_request
  run-IsDisabled [] slug hash s v = v
  run-IsDisabled (logs_in p r mono now ∷ es) slug hash s (row, found, off) =
      run-IsDisabled es slug hash _
        (row, rw ((raw-Same p r (raw_key_of p r) mono now s).0) found, off)
  run-IsDisabled (creates key once now ∷ es) slug hash s (row, found, off) =
      run-IsDisabled es slug hash _ (elim (created_rows key once now s) [
        | inl same ↦ (row, rw same found, off)
        | inr more ↦ (row, rw more (find_row-append slug hash s.api_keys _ row found), off)
      ])
  run-IsDisabled (revokes other id ∷ es) slug hash s (row, found, off) =
      run-IsDisabled es slug hash _ (still other id)
    where
      still : (other : Text) (id : ℕ) → IsDisabled slug hash (revoke_api_key other id s).1
      still other id = elim (Bool-cases (text_beq slug other)) [
        | inl same ↦ (
          disable other id row,
          rw ((revoke_rows other id s).0, sym ((text_beq_iff slug other).0 same))
              (find_row-disable slug hash id s.api_keys row found),
          disabled_again other id row off,
        )
        | inr differs ↦ (
          row,
          rw ((revoke_rows other id s).0)
              (find_row-disable_other slug hash other id s.api_keys differs ∙ found),
          off,
        )
      ]

  revoked_row :
      (slug hash : Text) (s : Keys) (row : ApiKey)
      → find_row slug hash s.api_keys ≡ some row
      → text_beq row.project_slug slug ≡ true
      → IsDisabled slug hash (revoke_api_key slug row.id s).1
  revoked_row slug hash s row found here_too = (
    disable slug row.id row,
    rw ((revoke_rows slug row.id s).0) (find_row-disable slug hash row.id s.api_keys row found),
    ground arith,
  )

  found_slug :
      (slug hash : Text) (rows : List ApiKey) (row : ApiKey)
      → find_row slug hash rows ≡ some row
      → text_beq row.project_slug slug ≡ true
  unfolding find_row is_row
  found_slug slug hash [] row h = cc
  found_slug slug hash (r ∷ rows) row h = ground (arith, found_slug slug hash rows row)

  disabled_refused :
      (p : Project) (hash : Text) (mono now : ℕ) (s : Keys)
      → IsCoherent s
      → IsDisabled p.slug hash s
      → (authenticate_key p hash mono now s).0 ≡ err (http_error 401 "Invalid API key")
  disabled_refused p hash mono now s v (row, found, off) =
      uncached hash_key str decode p hash mono now s v ∙ rw found (unfold accept_row in rw off)

  -- In a process that started with an empty cache, and whose logins, creations and revocations do not
  -- overlap, once the key with some hash has been revoked every login with it is refused, whatever
  -- operations came before the revocation and came after it.
  pub revoked_for_good :
      (before after : List Event) (s : Keys) (p : Project) (hash : Text) (mono now : ℕ)
      (row : ApiKey)
      → s.auth_cache ≡ []
      → find_row p.slug hash (run hash_key str decode before s).api_keys ≡ some row
      → (authenticate_key p hash mono now (
          run hash_key str decode after
            (revoke_api_key p.slug row.id (run hash_key str decode before s)).1)).0
        ≡ err (http_error 401 "Invalid API key")
  revoked_for_good before after s p hash mono now row empty found =
      let v = run_from_empty hash_key str decode before s empty in
      let old = run hash_key str decode before s in
      disabled_refused p hash mono now _
        (run-IsCoherent hash_key str decode after _ (revoke_api_key-IsCoherent p.slug row.id old v))
        (run-IsDisabled after p.slug hash _
          (revoked_row p.slug hash old row found (found_slug p.slug hash old.api_keys row found)))

  run-consumed :
      (es : List Event) (slug : Text) (s : Keys)
      → consumed (lookup slug s.bootstrap_state) ≡ true
      → consumed (lookup slug (run hash_key str decode es s).bootstrap_state) ≡ true
  unfolding run step authenticate_request
  run-consumed [] slug s h = h
  run-consumed (logs_in p r mono now ∷ es) slug s h =
      run-consumed es slug _ (rw ((raw-Same p r (raw_key_of p r) mono now s).1) h)
  run-consumed (creates row once now ∷ es) slug s h =
      run-consumed es slug _ (created_consumed slug row once now s h)
  run-consumed (revokes other id ∷ es) slug s h =
      run-consumed es slug _ (rw ((revoke_rows other id s).1) h)

  created_once :
      (row : ApiKey) (now : ℕ) (s : Keys)
      → (create_api_key row true now s).0 ≡ ok tt
      → consumed (lookup row.project_slug (create_api_key row true now s).1.bootstrap_state) ≡ true
  unfolding create_api_key consume_bootstrap insert_row integrity clear_cache
  created_once row now s h = ground (
    arith,
    Dict.lookup-assign row.project_slug row.project_slug (some now) s.bootstrap_state,
    text_beq_iff row.project_slug row.project_slug,
  )

  once_more :
      (row : ApiKey) (now : ℕ) (s : Keys)
      → consumed (lookup row.project_slug s.bootstrap_state) ≡ true
      → create_api_key row true now s
        ≡ (err (http_error 401 "Bootstrap credential has already been consumed"), s)
  unfolding create_api_key consume_bootstrap
  once_more row now s h = ground arith

  -- When a key was created with the one-time bootstrap credential, then after every further sequence
  -- of logins, creations and revocations that do not overlap, that credential is refused, both at a
  -- login and for the creation of another key of the project, which changes nothing.
  pub bootstrap_only_once :
      (row more : ApiKey) (now later : ℕ) (s : Keys) (after : List Event) (p : Project)
      → (create_api_key row true now s).0 ≡ ok tt
      → p.slug ≡ row.project_slug
      → more.project_slug ≡ row.project_slug
      → p.bootstrap_one_time ≡ true
      → (authenticate_bootstrap p (run hash_key str decode after (create_api_key row true now s).1)
          ≡ err (http_error 401 "Bootstrap credential has already been consumed"))
        × (create_api_key more true later
              (run hash_key str decode after (create_api_key row true now s).1)
            ≡ (
              err (http_error 401 "Bootstrap credential has already been consumed"),
              run hash_key str decode after (create_api_key row true now s).1,
            ))
  unfolding authenticate_bootstrap bootstrap_is_available
  bootstrap_only_once row more now later s after p created slug other one =
      let t = run hash_key str decode after (create_api_key row true now s).1 in
      let gone = run-consumed after row.project_slug _ (created_once row now s created) in
      (rw (one, slug, gone) refl, once_more more later t (rw other gone))
