-- ===== src/Cache/FailOpen.antt =====
-- framework/cache.py: a cache that fails open does not make a request fail.
use json_api_forge.Prelude.{
  ℕ, max, ◌+◌, ◌*◌, String, refl, inl, inr, Bool, true, false, Option, none, some, arith, leb, ltb,
  Bool-cases, Result, ok, err, ◌≡◌, ◌⊎◌, string_eq,
}
use json_api_forge.Prelude.Clock.{second}
use json_api_forge.Cache.Manager
use json_api_forge.Cache.Manager.{
  Backend, DistributedLock, Entry, envelope, bare, Cached, miss, fresh, stale, CacheManager,
  raw_get, state_of_entry, parsed_entry, read_entry, get_json_state, write, set_json, store_loaded,
  fresh_or, load_value, acquired, load_with_lock, load_locked, serve_found, get_or_set_json,
}

module _ {S B A : Type 0} (backend : Backend S B) (parse : B → Result (Option (Entry A)))
    (dump : Entry A → Result B) where
  -- The loader's value, or one from the cache.
  abbrev pub Served : A → Result (A × Bool) → Type 0
  Served value r = (r ≡ ok (value, false)) ⊎ ((cached : A) × (r ≡ ok (cached, true)))

  -- Bytes that are no JSON, or a bare value, or an envelope whose `fresh_until` is a number.
  abbrev pub IsReadable : Result (Option (Entry A)) → Type 0
  IsReadable (err e) = ⊥
  IsReadable (ok none) = Unit
  IsReadable (ok (some (bare value))) = Unit
  IsReadable (ok (some (envelope (ok t) value))) = Unit
  IsReadable (ok (some (envelope (err e) value))) = ⊥

  -- What the backend holds under the key can be read.
  abbrev pub GetsReadable : String → Type 0
  GetsReadable key =
      (s s' : S) (raw : B) → backend.get key s ≡ (ok (some raw), s') → IsReadable (parse raw)

  parsed_ok :
      (key : String) (now : ℕ) (s : S) (o : Result (Option (Entry A)))
      → IsReadable o
      → (c : Cached A) × ((parsed_entry backend parse dump true key now o s).0 ≡ ok c)
  unfolding parsed_entry state_of_entry
  parsed_ok key now s (err e) h = absurd h
  parsed_ok key now s (ok none) h = (miss, refl)
  parsed_ok key now s (ok (some (bare value))) h = (fresh value, refl)
  parsed_ok key now s (ok (some (envelope (err e) value))) h = absurd h
  parsed_ok key now s (ok (some (envelope (ok t) value))) h = elim (Bool-cases (leb now t)) [
    | inl early ↦ (fresh value, rw early refl)
    | inr late ↦ (stale value, rw late refl)
  ]

  found_ok :
      (key : String) (now : ℕ) (s : S)
      → GetsReadable key
      → (c : Cached A) × ((get_json_state backend parse dump true key now s).0 ≡ ok c)
  unfolding get_json_state raw_get read_entry
  found_ok key now s h = go (backend.get key s) refl
    where
      go :
          (x : Result (Option B) × S)
          → backend.get key s ≡ x
          → (c : Cached A) × ((read_entry backend parse dump true key now
                (Manager.or_default backend parse dump true none x.0, x.1)).0
              ≡ ok c)
      go (err e, t) q = (miss, refl)
      go (ok none, t) q = (miss, refl)
      go (ok (some raw), t) q = parsed_ok key now t (parse raw) (h s t raw q)

  -- Loads that serve what they ought to, from whatever state they start.
  abbrev Serves : A → (S → Result (A × Bool) × S) → Type 0
  Serves value load = (s : S) → Served value (load s).0

  fresh_or-Served :
      (key : String) (now : ℕ) (value : A) (load : S → Result (A × Bool) × S) (s : S)
      → GetsReadable key
      → Serves value load
      → Served value
          (fresh_or backend parse dump true load
            (get_json_state backend parse dump true key now s)).0
  unfolding fresh_or
  fresh_or-Served key now value load s h served =
      go (get_json_state backend parse dump true key now s) (found_ok key now s h)
    where
      found :
          (c : Cached A) (t : S) → Served value (fresh_or backend parse dump true load (ok c, t)).0
      found miss t = served t
      found (stale old) t = served t
      found (fresh cached) t = inr (cached, refl)

      go :
          (x : Result (Cached A) × S)
          → (c : Cached A) × (x.0 ≡ ok c)
          → Served value (fresh_or backend parse dump true load x).0
      go (r, t) (c, e) = rw e (found c t)

  written_ok :
      (key : String) (ttl : ℕ) (s : S) (r : Result B) (payload : B)
      → r ≡ ok payload
      → (write backend parse dump true key ttl r s).0 ≡ ok tt
  unfolding write
  written_ok key ttl s (err e) payload h = cc
  written_ok key ttl s (ok bytes) payload h = ground arith

  module _ (key : String) (ttl stale_ttl : ℕ) (now : ℕ → ℕ) (loader : S → Result A × S)
      (value : A) where
    stored_ok :
        (s : S)
        → ((t : ℕ) → (payload : B) × (dump (envelope (ok t) value) ≡ ok payload))
        → (store_loaded backend parse dump true key ttl stale_ttl (now 3) (ok value, s)).0
          ≡ ok (value, false)
    unfolding store_loaded
    stored_ok s d =
        let (payload, e) = d (now 3 + max ttl 1 * second) in
        let written : (set_json backend parse dump true key value ttl stale_ttl (now 3) s).0
            ≡ ok tt =
          unfold set_json in written_ok key _ s _ payload e in
        ground (arith, written)

    load_value-Served :
        ((t : S) → (loader t).0 ≡ ok value)
        → ((t : ℕ) → (payload : B) × (dump (envelope (ok t) value) ≡ ok payload))
        → Serves value (load_value backend parse dump true key ttl stale_ttl now loader)
    unfolding load_value
    load_value-Served l d s = inl (go (loader s) (l s))
      where
        go :
            (x : Result A × S)
            → x.0 ≡ ok value
            → (store_loaded backend parse dump true key ttl stale_ttl (now 3) x).0
              ≡ ok (value, false)
        go (r, t) e = rw e (stored_ok t d)

    load_with_lock-Served :
        (lock : Option (DistributedLock S))
        → GetsReadable key
        → ((t : S) → (loader t).0 ≡ ok value)
        → ((t : ℕ) → (payload : B) × (dump (envelope (ok t) value) ≡ ok payload))
        → Serves value (load_with_lock backend parse dump true lock key ttl stale_ttl now loader)
    unfolding load_with_lock
    load_with_lock-Served none h l d s = load_value-Served l d s
    load_with_lock-Served (some lock) h l d s =
        elim (Bool-cases (acquired backend parse dump true (lock.acquire key s).0)) [
          | inl held ↦ rw held (fresh_or-Served key (now 2) value _ _ h (load_value-Served l d))
          | inr free ↦ rw free (load_value-Served l d _)
        ]

    load_locked-Served :
        GetsReadable key
        → ((t : S) → (loader t).0 ≡ ok value)
        → ((t : ℕ) → (payload : B) × (dump (envelope (ok t) value) ≡ ok payload))
        → Serves value (load_locked backend parse dump true key ttl stale_ttl now loader)
    unfolding load_locked
    load_locked-Served h l d s =
        fresh_or-Served key (now 1) value _ s h
          (load_with_lock-Served backend.distributed_lock h l d)

  -- In a cache that fails open, a read through it whose loader always yields the value `value`, which
  -- can be written as JSON, yields that value or one that was cached, whatever the backend's operations
  -- and its distributed lock do and raise, if what the backend holds under the key is no JSON, or a
  -- bare value, or an envelope whose `fresh_until` is a number.
  pub fail_open_serves :
      (key : String) (ttl stale_ttl : ℕ) (now : ℕ → ℕ) (loader : S → Result A × S) (value : A)
      (m : CacheManager S)
      → GetsReadable key
      → ((t : S) → (loader t).0 ≡ ok value)
      → ((t : ℕ) → (payload : B) × (dump (envelope (ok t) value) ≡ ok payload))
      → Served value (get_or_set_json backend parse dump true key ttl stale_ttl now loader m).0
  unfolding get_or_set_json
  fail_open_serves key ttl stale_ttl now loader value m h l d =
      go (get_json_state backend parse dump true key (now 0) m.state)
        (found_ok key (now 0) m.state h)
    where
      load : Serves value (load_locked backend parse dump true key ttl stale_ttl now loader)
      load = load_locked-Served key ttl stale_ttl now loader value h l d

      served :
          (c : Cached A) (t : S)
          → Served value
              (serve_found backend parse dump true key ttl stale_ttl now loader
                (ok c, t)
                m.refreshing).0
      served miss t = unfold serve_found in load t
      served (fresh cached) t = unfold serve_found in inr (cached, refl)
      served (stale cached) t = elim (Bool-cases (ltb 0 stale_ttl)) [
        | inl allowed ↦ unfold serve_found in rw allowed (inr (cached, refl))
        | inr expired ↦ unfold serve_found in rw expired (load t)
      ]

      go :
          (x : Result (Cached A) × S)
          → (c : Cached A) × (x.0 ≡ ok c)
          → Served value
              (serve_found backend parse dump true key ttl stale_ttl now loader x m.refreshing).0
      go (r, t) (c, e) = rw e (served c t)
