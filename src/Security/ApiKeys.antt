-- ===== src/Security/ApiKeys.antt =====
-- framework/security.py: the tables of API keys and of consumed bootstraps, the cache of API keys in
-- the process, create_api_key and revoke_api_key. Texts are ASCII; `hash_key`, SHA-256, is a
-- parameter. A transaction is one step, which changes nothing when it fails.
use json_api_forge.Prelude.{
  ℕ, suc, ap, Bool, true, false, not, Option, none, some, List, [], map, arith, ltb, leb, nat_beq,
  Eq, length, any, keep, runtime_error, http_error, Result, ok, err, ◌+◌, ◌≡◌, ◌&&◌, ◌||◌, ◌∷◌,
  ◌++◌, if◌then◌else◌, ◌>>=◌, string_eq,
}
use json_api_forge.Prelude.Dict.{Dict, lookup, pop, assign, move_to_end}
use json_api_forge.Prelude.Text.{Text, text_eq, text_beq, text_beq_iff}

-- The columns of a row that authentication reads; `roles` and `permissions` are joined by commas.
pub record ApiKey : Type 0 where
  pub id : ℕ
  pub project_slug : Text
  pub name : Text
  pub key_hash : Text
  pub roles : Text
  pub permissions : Text
  pub tenant_id : Option Text
  pub rate_requests : Option ℕ
  pub rate_window_seconds : Option ℕ
  pub rate_burst : Option ℕ
  pub enabled : Bool
  pub expires_at : Option ℕ

pub pair_same : (a b : Text × Text) → (text_beq a.0 b.0 && text_beq a.1 b.1) ≡ true → a ≡ b
pair_same (a, c) (b, d) h = ground (arith, text_beq_iff a b, text_beq_iff c d)

pub same_pair : (a b : Text × Text) → a ≡ b → (text_beq a.0 b.0 && text_beq a.1 b.1) ≡ true
same_pair (a, c) (b, d) h = ground (
  arith,
  text_beq_iff a b,
  text_beq_iff c d,
  ap (λ (x : Text × Text). x.0) h,
  ap (λ (x : Text × Text). x.1) h,
)

instance abbrev pub pair_eq : Eq (Text × Text)
pair_eq = record {
  beq = λ a b. text_beq a.0 b.0 && text_beq a.1 b.1;
  beq_iff = λ a b. (λ h. pair_same a b h, λ h. same_pair a b h);
}

-- The database and `_api_key_auth_cache`, whose entries expire by the monotonic clock.
pub record Keys : Type 0 where
  pub api_keys : List ApiKey
  pub next_id : ℕ
  pub bootstrap_state : Dict Text (Option ℕ)
  pub auth_cache : Dict (Text × Text) (ℕ × ApiKey)

unfoldable pub is_row : Text → Text → ApiKey → Bool
is_row slug hash row = text_beq row.key_hash hash && text_beq row.project_slug slug

unfoldable pub find_row : Text → Text → List ApiKey → Option ApiKey
unfolding is_row
find_row slug hash [] = none
find_row slug hash (row ∷ rows) =
    let later = find_row slug hash rows in if is_row slug hash row then some row else later

-- while len(_api_key_auth_cache) > max_entries: popitem(last=False)
unfoldable pub trim : ℕ → Dict (Text × Text) (ℕ × ApiKey) → Dict (Text × Text) (ℕ × ApiKey)
trim n [] = []
trim n (oldest ∷ rest) =
    let fewer = trim n rest in if ltb n (suc (length rest)) then fewer else oldest ∷ rest

-- clear_api_key_auth_cache(project_slug)
unfoldable pub clear_cache : Text → Keys → Keys
clear_cache slug s = record s {
  auth_cache = keep (λ (e : (Text × Text) × (ℕ × ApiKey)). not (text_beq e.0.0 slug)) s.auth_cache;
}

-- `ttl` in ticks of the monotonic clock
unfoldable pub store_api_key_row : ℕ → ℕ → Text → Text → ApiKey → ℕ → Keys → Keys
unfolding trim
store_api_key_row ttl max_entries slug hash row mono s = if leb ttl 0 then s else record s {
  auth_cache =
      trim max_entries
        (move_to_end (slug, hash) (assign (slug, hash) (mono + ttl, row) s.auth_cache));
}

abbrev pub past : Option ℕ → ℕ → Bool
past none now = false
past (some t) now = leb t now

unfoldable pub read_cached : Text × Text → ℕ → ℕ → Keys → Option (ℕ × ApiKey) → Option ApiKey × Keys
read_cached key mono now s none = (none, s)
read_cached key mono now s (some (expires, row)) =
    if leb expires mono || past row.expires_at now
    then (none, record s { auth_cache = pop key s.auth_cache })
    else (some row, record s { auth_cache = move_to_end key s.auth_cache })

unfoldable pub cached_api_key_row : ℕ → Text → Text → ℕ → ℕ → Keys → Option ApiKey × Keys
unfolding read_cached
cached_api_key_row ttl slug hash mono now s =
    if leb ttl 0
    then (none, s)
    else read_cached (slug, hash) mono now s (lookup (slug, hash) s.auth_cache)

-- A bootstrap is consumed when its row has a time.
abbrev pub consumed : Option (Option ℕ) → Bool
consumed none = false
consumed (some none) = false
consumed (some (some t)) = true

unfoldable pub bootstrap_is_available : Text → Keys → Bool
bootstrap_is_available slug s = not (consumed (lookup slug s.bootstrap_state))

unfoldable pub consume_bootstrap : Text → ℕ → Keys → Result Keys
consume_bootstrap slug now s =
    if consumed (lookup slug s.bootstrap_state)
    then err (http_error 401 "Bootstrap credential has already been consumed")
    else ok (record s { bootstrap_state = assign slug (some now) s.bootstrap_state })

abbrev pub is_taken : Text → List ApiKey → Bool
is_taken hash rows = any (λ (r : ApiKey). text_beq r.key_hash hash) rows

-- insert(api_keys_table): the database numbers the row; `key_hash` is unique.
unfoldable pub insert_row : ApiKey → Keys → Option Keys
insert_row row s =
    if is_taken row.key_hash s.api_keys
    then none
    else some (record s {
      api_keys = s.api_keys ++ record row { id = s.next_id } ∷ [];
      next_id = s.next_id + 1;
    })

-- sqlalchemy's IntegrityError, as `create_api_key` passes it on
unfoldable pub integrity : Bool → Option Keys → Result Keys
integrity once (some s) = ok s
integrity true none = err (http_error 401 "Bootstrap credential has already been consumed")
integrity false none = err (runtime_error "IntegrityError")

-- `row` holds the values that the caller asks for, its roles and permissions joined by commas, with the
-- hash of the new key.
unfoldable pub create_api_key : ApiKey → Bool → ℕ → Keys → Result (Unit {0}) × Keys
unfolding consume_bootstrap insert_row integrity clear_cache
create_api_key row once now s =
    let row' = record row { enabled = true } in
    let started = if once then consume_bootstrap row.project_slug now s else ok s in
    elim (started >>= λ t. integrity once (insert_row row' t)) [
      | err e ↦ (err e, s)
      | ok t ↦ (ok tt, clear_cache row.project_slug t)
    ]

abbrev pub is_key : Text → ℕ → ApiKey → Bool
is_key slug id row = nat_beq row.id id && text_beq row.project_slug slug

abbrev pub disable : Text → ℕ → ApiKey → ApiKey
disable slug id row = if is_key slug id row then record row { enabled = false } else row

unfoldable pub revoke_api_key : Text → ℕ → Keys → Bool × Keys
unfolding clear_cache
revoke_api_key slug id s =
    let t = record s { api_keys = map (disable slug id) s.api_keys } in
    if any (is_key slug id) s.api_keys then (true, clear_cache slug t) else (false, t)
