-- ===== src/Cache/Manager.antt =====
-- framework/cache.py: CacheManager. The backend is an interface; each operation may raise, and changes
-- the backend's state. `parse` is json.loads of an entry with the conversion of its `fresh_until`:
-- `ok none` is a failure that the code catches, an error one that it does not. `dump` is json.dumps of
-- the envelope. The lock of a key makes a load one step. `now i` are the readings of the clock: 0 in
-- get_or_set_json, 1 under the lock of the key, 2 under the distributed lock, 3 when a value is stored.
use json_api_forge.Prelude.{
  ℕ, max, String, Bool, true, false, not, Option, none, some, List, ltb, leb, keep, contains,
  Result, ok, err, ◌+◌, ◌*◌, ◌∷◌, if◌then◌else◌, ◌==◌, string_eq, nat_eq,
}
use json_api_forge.Prelude.Clock.{second}

-- A lock for all processes, as `distributed_lock` makes it for a key.
pub record DistributedLock (S : Type 0) : Type 0 where
  pub acquire : String → S → Result Bool × S
  pub release : String → S → Result (Unit {0}) × S

-- What a backend offers: S is its state, B are the bytes that it stores. MemoryTTLCache has no
-- distributed lock, RedisTTLCache and TieredCache have one.
pub record Backend (S B : Type 0) : Type 0 where
  pub get : String → S → Result (Option B) × S
  pub set : String → B → ℕ → S → Result (Unit {0}) × S
  pub delete : String → S → Result (Unit {0}) × S
  pub generation : String → S → Result ℕ × S
  pub bump_generation : String → S → Result ℕ × S
  pub distributed_lock : Option (DistributedLock S)

-- An entry is an envelope with what float() makes of its `fresh_until`, or a bare value.
pub data Entry (A : Type 0) : Type 0 where
  envelope : Result ℕ → A → Entry A
  bare : A → Entry A

-- The pair that `get_json_state` returns.
pub data Cached (A : Type 0) : Type 0 where
  miss : Cached A
  fresh stale : A → Cached A

-- The backend's state and `_refreshing`.
pub record CacheManager (S : Type 0) : Type 0 where
  pub state : S
  pub refreshing : List String

module _ {S B A : Type 0} (backend : Backend S B) (parse : B → Result (Option (Entry A)))
    (dump : Entry A → Result B) (fail_open : Bool) where
  -- except Exception: if self.fail_open: return default; raise
  abbrev pub or_default {ℓ} : {C : Type ℓ} → C → Result C → Result C
  or_default d (ok c) = ok c
  or_default d (err e) = if fail_open then ok d else err e

  unfoldable pub generation : String → S → Result (Option ℕ) × S
  generation namespace s =
      let (r, s') = backend.generation namespace s in
      (elim r [ ok g ↦ ok (some g) | err e ↦ if fail_open then ok none else err e ], s')

  unfoldable pub raw_get : String → S → Result (Option B) × S
  raw_get key s = let (r, s') = backend.get key s in (or_default none r, s')

  unfoldable pub state_of_entry : ℕ → Entry A → Result (Cached A)
  state_of_entry now (envelope (ok fresh_until) value) =
      if leb now fresh_until then ok (fresh value) else ok (stale value)
  state_of_entry now (envelope (err e) value) = err e
  state_of_entry now (bare value) = ok (fresh value)

  -- A malformed entry is deleted, and an error of that is ignored.
  unfoldable pub parsed_entry : String → ℕ → Result (Option (Entry A)) → S → Result (Cached A) × S
  unfolding state_of_entry
  parsed_entry key now (err e) s = (err e, s)
  parsed_entry key now (ok none) s = (ok miss, (backend.delete key s).1)
  parsed_entry key now (ok (some entry)) s = (state_of_entry now entry, s)

  unfoldable pub read_entry : String → ℕ → Result (Option B) × S → Result (Cached A) × S
  unfolding parsed_entry
  read_entry key now (err e, s) = (err e, s)
  read_entry key now (ok none, s) = (ok miss, s)
  read_entry key now (ok (some raw), s) = parsed_entry key now (parse raw) s

  unfoldable pub get_json_state : String → ℕ → S → Result (Cached A) × S
  unfolding read_entry raw_get
  get_json_state key now s = read_entry key now (raw_get key s)

  -- The conversion to JSON stands outside the `try` of the write.
  unfoldable pub write : String → ℕ → Result B → S → Result (Unit {0}) × S
  write key ttl (err e) s = (err e, s)
  write key ttl (ok payload) s =
      let (r, s') = backend.set key payload ttl s in (or_default tt r, s')

  unfoldable pub set_json : String → A → ℕ → ℕ → ℕ → S → Result (Unit {0}) × S
  unfolding write
  set_json key value ttl stale_ttl now s =
      write key (max (ttl + stale_ttl) 1) (dump (envelope (ok (now + max ttl 1 * second)) value)) s

  -- value = await loader(); await self.set_json(...); return value, False
  unfoldable pub store_loaded : String → ℕ → ℕ → ℕ → Result A × S → Result (A × Bool) × S
  unfolding set_json
  store_loaded key ttl stale_ttl now (err e, s) = (err e, s)
  store_loaded key ttl stale_ttl now (ok value, s) =
      let (r, s') = set_json key value ttl stale_ttl now s in
      (elim r [ ok u ↦ ok (value, false) | err e ↦ err e ], s')

  -- A value that is fresh when the key is looked up is returned; else `load` goes on.
  unfoldable pub fresh_or :
      (S → Result (A × Bool) × S) → Result (Cached A) × S → Result (A × Bool) × S
  fresh_or load (err e, s) = (err e, s)
  fresh_or load (ok (fresh value), s) = (ok (value, true), s)
  fresh_or load (ok (stale value), s) = load s
  fresh_or load (ok miss, s) = load s

  unfoldable pub load_value :
      String → ℕ → ℕ → (ℕ → ℕ) → (S → Result A × S) → S → Result (A × Bool) × S
  unfolding store_loaded
  load_value key ttl stale_ttl now loader s = store_loaded key ttl stale_ttl (now 3) (loader s)

  -- acquired = bool(await distributed_lock.acquire()), False if that raises
  abbrev pub acquired : Result Bool → Bool
  acquired (ok b) = b
  acquired (err e) = false

  -- With the lock acquired, the key is looked up again, and in the end, whatever happened, the lock is
  -- released, an error of which is ignored.
  unfoldable pub load_with_lock :
      Option (DistributedLock S)
      → String
      → ℕ
      → ℕ
      → (ℕ → ℕ)
      → (S → Result A × S)
      → S
      → Result (A × Bool) × S
  unfolding load_value fresh_or get_json_state
  load_with_lock none key ttl stale_ttl now loader s = load_value key ttl stale_ttl now loader s
  load_with_lock (some lock) key ttl stale_ttl now loader s =
      let (r, s') = lock.acquire key s in
      let (result, s'') =
        fresh_or (load_value key ttl stale_ttl now loader) (get_json_state key (now 2) s') in
      if acquired r
      then (result, (lock.release key s'').1)
      else load_value key ttl stale_ttl now loader s'

  unfoldable pub load_locked :
      String → ℕ → ℕ → (ℕ → ℕ) → (S → Result A × S) → S → Result (A × Bool) × S
  unfolding load_with_lock fresh_or get_json_state
  load_locked key ttl stale_ttl now loader s =
      fresh_or (load_with_lock backend.distributed_lock key ttl stale_ttl now loader)
        (get_json_state key (now 1) s)

  -- The background task: its errors are logged only, and the key is no longer refreshing.
  unfoldable pub refresh :
      String → ℕ → ℕ → (ℕ → ℕ) → (S → Result A × S) → CacheManager S → CacheManager S
  unfolding load_locked
  refresh key ttl stale_ttl now loader m = record {
    state = (load_locked key ttl stale_ttl now loader m.state).1;
    refreshing = keep (λ (k : String). not (k == key)) m.refreshing;
  }

  abbrev pub schedule : String → List String → List String
  schedule key refreshing = if contains key refreshing then refreshing else key ∷ refreshing

  unfoldable pub serve_found :
      String
      → ℕ
      → ℕ
      → (ℕ → ℕ)
      → (S → Result A × S)
      → Result (Cached A) × S
      → List String
      → Result (A × Bool) × CacheManager S
  unfolding load_locked
  serve_found key ttl stale_ttl now loader (err e, s) refreshing =
      (err e, record { state = s; refreshing = refreshing })
  serve_found key ttl stale_ttl now loader (ok (fresh value), s) refreshing =
      (ok (value, true), record { state = s; refreshing = refreshing })
  serve_found key ttl stale_ttl now loader (ok (stale value), s) refreshing =
      let (r, s') = load_locked key ttl stale_ttl now loader s in
      if ltb 0 stale_ttl
      then (ok (value, true), record { state = s; refreshing = schedule key refreshing })
      else (r, record { state = s'; refreshing = refreshing })
  serve_found key ttl stale_ttl now loader (ok miss, s) refreshing =
      let (r, s') = load_locked key ttl stale_ttl now loader s in
      (r, record { state = s'; refreshing = refreshing })

  unfoldable pub get_or_set_json :
      String
      → ℕ
      → ℕ
      → (ℕ → ℕ)
      → (S → Result A × S)
      → CacheManager S
      → Result (A × Bool) × CacheManager S
  unfolding serve_found get_json_state
  get_or_set_json key ttl stale_ttl now loader m =
      serve_found key ttl stale_ttl now loader (get_json_state key (now 0) m.state) m.refreshing

  -- `none` is the -1 of a failure that is passed over.
  unfoldable pub invalidate_namespace : String → S → Result (Option ℕ) × S
  invalidate_namespace namespace s =
      let (r, s') = backend.bump_generation namespace s in
      (elim r [ ok g ↦ ok (some g) | err e ↦ if fail_open then ok none else err e ], s')
