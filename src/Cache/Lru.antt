-- ===== src/Cache/Lru.antt =====
-- MemoryTTLCache keeps at most `max_entries` entries, one for each key, the least recently used
-- first; what `get` returns after `set`.
use json_api_forge.Prelude.{
  ℕ, suc, max, String, refl, inl, inr, Option, none, some, [], arith, eq_iff, ltb, leb, Bool-cases,
  beq_refl, length, length-append, ◌+◌, ◌*◌, ◌≤◌, ◌<◌, ◌≡◌, ◌∙◌, ◌∷◌, ◌++◌, if◌then◌else◌,
  string_eq,
}
use json_api_forge.Prelude.Clock.{second}
use json_api_forge.Prelude.Dict
use json_api_forge.Prelude.Dict.{Dict, lookup, assign, move_to_end, IsDistinct}
use json_api_forge.Cache.Memory
use json_api_forge.Cache.Memory.{
  MemoryTtlCache, get, set, evict, delete, generation, bump_generation,
}

module _ {A : Type 0} where
  pub record IsValid (c : MemoryTtlCache A) : Type 0 where
    pub bounded : length c.entries ≤ c.max_entries
    pub distinct : IsDistinct c.entries

  length-evict-le : (n : ℕ) (d : Dict String (ℕ × A)) → length (evict n d) ≤ n
  unfolding evict
  length-evict-le n [] = omega arith
  length-evict-le n (x ∷ d) = ground (arith, length-evict-le n d)

  evict_small : (n : ℕ) (d : Dict String (ℕ × A)) → length d ≤ n → evict n d ≡ d
  unfolding evict
  evict_small n [] h = refl
  evict_small n (x ∷ d) h = ground arith

  evict-IsDistinct : (n : ℕ) (d : Dict String (ℕ × A)) → IsDistinct d → IsDistinct (evict n d)
  unfolding evict
  evict-IsDistinct n [] h = tt
  evict-IsDistinct n ((k, v) ∷ d) h = elim (Bool-cases (ltb n (suc (length d)))) [
    | inl full ↦ rw full (evict-IsDistinct n d h.1)
    | inr room ↦ rw room h
  ]

  -- what is in the cache after the oldest entry has made room, if there is no room
  abbrev pub room : ℕ → Dict String (ℕ × A) → Dict String (ℕ × A)
  room n [] = []
  room n (oldest ∷ rest) = if ltb n (suc (suc (length rest))) then rest else oldest ∷ rest

  evict_full :
      (n : ℕ) (x : String × (ℕ × A)) (d : Dict String (ℕ × A))
      → n ≤ length d
      → evict n (x ∷ d) ≡ evict n d
  unfolding evict
  evict_full n x d h = ground arith

  evict-room :
      (n : ℕ) (d : Dict String (ℕ × A)) (x : String × (ℕ × A))
      → 0 < n
      → length d ≤ n
      → evict n (d ++ x ∷ []) ≡ room n d ++ x ∷ []
  evict-room n [] x p h = evict_small n (x ∷ []) p
  evict-room n (y ∷ d) x p h = ground (
    arith,
    evict_full n y (d ++ x ∷ []),
    evict_small n (d ++ x ∷ []),
    evict_small n (y ∷ d ++ x ∷ []),
    length-append d (x ∷ []),
  )

  -- In a valid cache with room for an entry, `set` stores the entry as the most recent one, and drops
  -- at most one other entry: the least recently used one, when the key is new and the cache is full.
  pub set-refines_lru :
      (key : String) (value : A) (ttl now : ℕ) (c : MemoryTtlCache A)
      → IsValid c
      → 0 < c.max_entries
      → (set key value ttl now c).entries
        ≡ room c.max_entries (Dict.pop key c.entries)
          ++ (key, (now + max ttl 1 * second, value)) ∷ []
  unfolding set
  set-refines_lru key value ttl now c v p = rw Dict.move_to_end-assign (
      evict-room c.max_entries (Dict.pop key c.entries) _ p
        (omega (arith, Dict.length-pop-le key c.entries, v.bounded)))

  pub init-IsValid : (n : ℕ) → IsValid (Memory.init {A = A} n)
  unfolding Memory.init
  init-IsValid n = record { bounded = omega arith; distinct = tt }

  pub get-IsValid :
      (key : String) (now : ℕ) (c : MemoryTtlCache A) → IsValid c → IsValid (get key now c).1
  unfolding get
  get-IsValid key now c v = from_item (lookup key c.entries)
    where
      from_item : (o : Option (ℕ × A)) → IsValid (Memory.read_item key now c o).1
      from_item none = v
      from_item (some (t, value)) = elim (Bool-cases (leb t now)) [
        | inl old ↦ rw old (record {
          bounded = omega (arith, Dict.length-pop-le key c.entries, v.bounded);
          distinct = Dict.pop-IsDistinct key c.entries v.distinct;
        })
        | inr live ↦ rw live (record {
          bounded = omega (arith, Dict.length-move_to_end-le key c.entries, v.bounded);
          distinct = Dict.move_to_end-IsDistinct key c.entries v.distinct;
        })
      ]

  pub set-IsValid :
      (key : String) (value : A) (ttl now : ℕ) (c : MemoryTtlCache A)
      → IsValid c
      → IsValid (set key value ttl now c)
  unfolding set
  set-IsValid key value ttl now c v = record {
    bounded = length-evict-le c.max_entries _;
    distinct =
        evict-IsDistinct c.max_entries _
          (Dict.move_to_end-IsDistinct key _ (Dict.assign-IsDistinct key _ c.entries v.distinct));
  }

  pub delete-IsValid : (key : String) (c : MemoryTtlCache A) → IsValid c → IsValid (delete key c)
  unfolding delete
  delete-IsValid key c v = record {
    bounded = omega (arith, Dict.length-pop-le key c.entries, v.bounded);
    distinct = Dict.pop-IsDistinct key c.entries v.distinct;
  }

  -- `get` returns what the entry holds, exactly while the clock is before its expiry.
  pub get_lem :
      (key : String) (now : ℕ) (c : MemoryTtlCache A)
      → (get key now c).0 ≡ elim (lookup key c.entries) [
        | none ↦ none
        | some (t, value) ↦ if ltb now t then some value else none
      ]
  unfolding get
  get_lem key now c = from_item (lookup key c.entries)
    where
      from_item :
          (o : Option (ℕ × A))
          → (Memory.read_item key now c o).0
            ≡ elim o [ none ↦ none | some (t, value) ↦ if ltb now t then some value else none ]
      from_item none = refl
      from_item (some (t, value)) = ground arith

  lookup-room_append :
      (n : ℕ) (d : Dict String (ℕ × A)) (k : String) (x : ℕ × A)
      → lookup k d ≡ none
      → lookup k (room n d ++ (k, x) ∷ []) ≡ some x
  unfolding lookup
  lookup-room_append n [] k x h = ground (arith, eq_iff k k)
  lookup-room_append n ((j, w) ∷ d) k x h =
      ground (arith, Dict.lookup-append k d ((k, x) ∷ []), eq_iff k k, eq_iff j k)

  -- In a valid cache with room for an entry, a value that was set at `now` is what the next `get`, at
  -- `later`, returns while its time to live, at least a second, has not passed, and nothing after.
  pub get-set :
      (key : String) (value : A) (ttl now later : ℕ) (c : MemoryTtlCache A)
      → IsValid c
      → 0 < c.max_entries
      → (get key later (set key value ttl now c)).0
        ≡ (if ltb later (now + max ttl 1 * second) then some value else none)
  get-set key value ttl now later c v p =
      rw (get_lem, set-refines_lru key value ttl now c v p)
        (rw
          (lookup-room_append c.max_entries (Dict.pop key c.entries) key _
            (Dict.lookup-pop key key c.entries ∙ simp beq_refl))
          refl)
