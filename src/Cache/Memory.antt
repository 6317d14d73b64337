-- ===== src/Cache/Memory.antt =====
-- framework/cache.py: MemoryTTLCache. The lock makes each method one step on the state; a method
-- that reads the clock takes the reading `now`.
use json_api_forge.Prelude.{
  ℕ, suc, max, String, Option, none, some, [], ltb, leb, length, ◌+◌, ◌*◌, ◌∷◌, if◌then◌else◌,
  string_eq,
}
use json_api_forge.Prelude.Clock.{second}
use json_api_forge.Prelude.Dict.{Dict, lookup, pop as dict_pop, assign, move_to_end}

-- `_data` holds for each key the time at which it expires and its value.
pub record MemoryTtlCache (A : Type 0) : Type 0 where
  pub max_entries : ℕ
  pub entries : Dict String (ℕ × A)
  pub generations : Dict String ℕ

module _ {A : Type 0} where
  unfoldable pub init : ℕ → MemoryTtlCache A
  init n = record { max_entries = n; entries = []; generations = [] }

  -- the body of `get` on what `_data.get(key)` returned
  pub read_item : String → ℕ → MemoryTtlCache A → Option (ℕ × A) → Option A × MemoryTtlCache A
  read_item key now c none = (none, c)
  read_item key now c (some (expires_at, value)) =
      if leb expires_at now
      then (none, record c { entries = dict_pop key c.entries })
      else (some value, record c { entries = move_to_end key c.entries })

  unfoldable pub get : String → ℕ → MemoryTtlCache A → Option A × MemoryTtlCache A
  unfolding read_item
  get key now c = read_item key now c (lookup key c.entries)

  -- while len(self._data) > self.max_entries: self._data.popitem(last=False)
  unfoldable pub evict : ℕ → Dict String (ℕ × A) → Dict String (ℕ × A)
  evict n [] = []
  evict n (oldest ∷ rest) =
      let fewer = evict n rest in if ltb n (suc (length rest)) then fewer else oldest ∷ rest

  unfoldable pub set : String → A → ℕ → ℕ → MemoryTtlCache A → MemoryTtlCache A
  set key value ttl now c =
      let item : ℕ × A = (now + max ttl 1 * second, value) in
      record c { entries = evict c.max_entries (move_to_end key (assign key item c.entries)) }

  unfoldable pub delete : String → MemoryTtlCache A → MemoryTtlCache A
  delete key c = record c { entries = dict_pop key c.entries }

  unfoldable pub generation : String → MemoryTtlCache A → ℕ
  generation namespace c = elim (lookup namespace c.generations) [ none ↦ 0 | some g ↦ g ]

  unfoldable pub bump_generation : String → MemoryTtlCache A → ℕ × MemoryTtlCache A
  unfolding generation
  bump_generation namespace c =
      let value = generation namespace c + 1 in
      (value, record c { generations = assign namespace value c.generations })

  unfoldable pub close : MemoryTtlCache A → MemoryTtlCache A
  close c = record c { entries = [] }
