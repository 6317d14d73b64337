-- ===== src/Tests/Cache.antt =====
-- framework/cache.py: a memory cache with room for two entries.
use json_api_forge.Prelude.{
  ℕ, max, refl, true, Option, none, some, [], arith, ltb, runtime_error, Result, ok, err, ◌+◌, ◌*◌,
  ◌≡◌, ◌∷◌, ◌++◌, if◌then◌else◌, string_eq,
}
use json_api_forge.Prelude.Clock.{second}
use json_api_forge.Prelude.Dict
use json_api_forge.Cache.Memory
use json_api_forge.Cache.Memory.{MemoryTtlCache, get, set}
use json_api_forge.Cache.Manager.{Backend, Entry, CacheManager, get_or_set_json}
use json_api_forge.Cache.FailOpen.{Served, fail_open_serves}
use json_api_forge.Cache.Lru.{room, init-IsValid, set-IsValid, set-refines_lru, get-set}

abbrev one_item : MemoryTtlCache ℕ
one_item = set "a" 7 10 0 (Memory.init 2)

set-refines_lru_example :
    (set "b" 8 10 1 one_item).entries
    ≡ room 2 (Dict.pop "b" one_item.entries) ++ ("b", (1 + max 10 1 * second, 8)) ∷ []
unfolding set Memory.init
set-refines_lru_example =
    set-refines_lru "b" 8 10 1 one_item (set-IsValid "a" 7 10 0 (Memory.init 2) (init-IsValid 2))
      (omega arith)

get-set_example :
    (get "b" 5 (set "b" 8 10 1 one_item)).0
    ≡ (if ltb 5 (1 + max 10 1 * second) then some 8 else none)
unfolding set Memory.init
get-set_example =
    get-set "b" 8 10 1 5 one_item (set-IsValid "a" 7 10 0 (Memory.init 2) (init-IsValid 2))
      (omega arith)

-- A backend with a malformed entry, whose other operations raise but for the lock's acquisition.
abbrev down : Backend ℕ ℕ
down = record {
  get = λ key s. (ok (some 5), s);
  set = λ key value ttl s. (err (runtime_error "down"), s);
  delete = λ key s. (err (runtime_error "down"), s);
  generation = λ namespace s. (err (runtime_error "down"), s);
  bump_generation = λ namespace s. (err (runtime_error "down"), s);
  distributed_lock = some (record {
    acquire = λ key s. (ok true, s);
    release = λ key s. (err (runtime_error "down"), s);
  });
}

abbrev parse : ℕ → Result (Option (Entry ℕ))
parse raw = ok none

abbrev dump : Entry ℕ → Result ℕ
dump e = ok 0

abbrev loader : ℕ → Result ℕ × ℕ
loader s = (ok 5, s + 1)

abbrev manager : CacheManager ℕ
manager = record { state = 0; refreshing = [] }

fail_open_serves_example :
    Served down parse dump 5
      (get_or_set_json down parse dump true "a" 10 0 (λ i. i) loader manager).0
fail_open_serves_example =
    fail_open_serves down parse dump "a" 10 0 (λ i. i) loader 5 manager (λ s s' raw q. tt)
      (λ t. refl) (λ t. (0, refl))
