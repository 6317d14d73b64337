-- ===== src/Security/Coherence.antt =====
-- The cache of API keys never changes who is let in: while one process makes all changes, one after the
-- other, each cached row is the row of the database.
use json_api_forge.Prelude.{
  ℕ, suc, refl, sym, subst, inl, inr, Bool, true, Option, none, some, List, [], arith, ltb, leb,
  Bool-cases, Option-cases, length, keep, In, here, there, In-append, not-In-nil, In-cons, ◌+◌, ◌≡◌,
  ◌⊎◌, ◌||◌, ◌∷◌, ◌==◌, nat_eq, string_eq,
}
use json_api_forge.Prelude.Dict
use json_api_forge.Prelude.Dict.{
  Dict, lookup, pop, assign, move_to_end, move_to_end_absent, move_to_end_present,
}
use json_api_forge.Prelude.Text.{Text, text_eq}
use json_api_forge.Security.ApiKeys.{
  ApiKey, Keys, pair_eq, find_row, trim, store_api_key_row, past, read_cached, cached_api_key_row,
}

abbrev pub Entry : Type 0
Entry = (Text × Text) × (ℕ × ApiKey)

abbrev pub Fits : List ApiKey → Entry → Type 0
Fits rows x = find_row x.0.0 x.0.1 rows ≡ some x.1.1

pub record IsCoherent (s : Keys) : Type 0 where
  pub fits : (x : Entry) → In x s.auth_cache → Fits s.api_keys x

In-trim : (n : ℕ) (d : Dict (Text × Text) (ℕ × ApiKey)) (x : Entry) → In x (trim n d) → In x d
unfolding trim
In-trim n [] x m = m
In-trim n (y ∷ d) x m = elim (Bool-cases (ltb n (suc (length d)))) [
  | inl full ↦ there (In-trim n d x (rw full at m))
  | inr room ↦ rw room at m
]

In-pop :
    (k : Text × Text) (d : Dict (Text × Text) (ℕ × ApiKey)) (x : Entry) → In x (pop k d) → In x d
unfolding pop
In-pop k [] x m = m
In-pop k ((j, w) ∷ d) x m = elim (Bool-cases (j == k)) [
  | inl same ↦ there (In-pop k d x (rw same at m))
  | inr other ↦ elim (In-cons (rw other at m)) [
    | inl e ↦ rw e here
    | inr n ↦ there (In-pop k d x n)
  ]
]

pub In-lookup :
    (k : Text × Text) (d : Dict (Text × Text) (ℕ × ApiKey)) (v : ℕ × ApiKey)
    → lookup k d ≡ some v
    → In (k, v) d
unfolding lookup
In-lookup k [] v h = cc
In-lookup k ((j, w) ∷ d) v h = elim (Bool-cases (j == k)) [
  | inl same ↦
      let e = pair ((pair_eq.beq_iff j k).0 same) (ground (arith, h, same)) in
      subst (λ (y : Entry). In (k, v) (y ∷ d)) (sym e) here
  | inr other ↦ there (In-lookup k d v (rw other at h))
]
  where
    pair : {w v : ℕ × ApiKey} {j k : Text × Text} → j ≡ k → w ≡ v → ◌≡◌ {A = Entry} (j, w) (k, v)
    pair p q = cc

In-move_to_end :
    (k : Text × Text) (d : Dict (Text × Text) (ℕ × ApiKey)) (x : Entry)
    → In x (move_to_end k d)
    → In x d
In-move_to_end k d x m = elim (Option-cases (lookup k d)) [
  | inl gone ↦ rw (move_to_end_absent k d gone) at m
  | inr (v, found) ↦
      elim (In-append (pop k d) ((k, v) ∷ []) (rw (move_to_end_present k d v found) at m)) [
        | inl old ↦ In-pop k d x old
        | inr new ↦ elim (In-cons new) [
          | inl e ↦ rw e (In-lookup k d v found)
          | inr none_left ↦ absurd (not-In-nil none_left)
        ]
      ]
]

pub In-keep :
    (p : Entry → Bool) (d : Dict (Text × Text) (ℕ × ApiKey)) (x : Entry)
    → In x (keep p d)
    → In x d × (p x ≡ true)
In-keep p [] x m = absurd (not-In-nil m)
In-keep p (y ∷ d) x m = elim (Bool-cases (p y)) [
  | inl kept ↦ elim (In-cons (rw kept at m)) [
    | inl e ↦ rw e (here, kept)
    | inr n ↦ let (l, q) = In-keep p d x n in (there l, q)
  ]
  | inr lost ↦ let (l, q) = In-keep p d x (rw lost at m) in (there l, q)
]

-- Entries that are old, or the new one, fit.
pub store-IsCoherent :
    (ttl n : ℕ) (slug hash : Text) (row : ApiKey) (mono : ℕ) (s : Keys)
    → find_row slug hash s.api_keys ≡ some row
    → IsCoherent s
    → IsCoherent (store_api_key_row ttl n slug hash row mono s)
unfolding store_api_key_row
store-IsCoherent ttl n slug hash row mono s found v = elim (Bool-cases (leb ttl 0)) [
  | inl off ↦ rw off v
  | inr on ↦ rw on (record { fits = λ x m. fitting x (In-trim n _ x m) })
]
  where
    fitting :
        (x : Entry)
        → In x (move_to_end (slug, hash) (assign (slug, hash) (mono + ttl, row) s.auth_cache))
        → Fits s.api_keys x
    fitting x m =
        elim (In-append (pop (slug, hash) s.auth_cache) (((slug, hash), (mono + ttl, row)) ∷ [])
          (rw (Dict.move_to_end-assign) at m)) [
            | inl old ↦ v.fits x (In-pop (slug, hash) s.auth_cache x old)
            | inr new ↦ elim (In-cons new) [
              | inl e ↦ rw e found
              | inr none_left ↦ absurd (not-In-nil none_left)
            ]
          ]

pub cached-IsCoherent :
    (ttl : ℕ) (slug hash : Text) (mono now : ℕ) (s : Keys)
    → IsCoherent s
    → IsCoherent (cached_api_key_row ttl slug hash mono now s).1
unfolding cached_api_key_row read_cached
cached-IsCoherent ttl slug hash mono now s v = elim (Bool-cases (leb ttl 0)) [
  | inl off ↦ rw off v
  | inr on ↦ rw on (read (lookup (slug, hash) s.auth_cache))
]
  where
    read : (o : Option (ℕ × ApiKey)) → IsCoherent (read_cached (slug, hash) mono now s o).1
    read none = v
    read (some (expires, row)) = elim (Bool-cases (leb expires mono || past row.expires_at now)) [
      | inl old ↦ rw old (record { fits = λ x m. v.fits x (In-pop (slug, hash) s.auth_cache x m) })
      | inr new ↦
          rw new (record { fits = λ x m. v.fits x (In-move_to_end (slug, hash) s.auth_cache x m) })
    ]

-- Reading the cache leaves the table alone, and what it finds is in the table.
pub cached_lem :
    (ttl : ℕ) (slug hash : Text) (mono now : ℕ) (s : Keys)
    → IsCoherent s
    → ((cached_api_key_row ttl slug hash mono now s).1.api_keys ≡ s.api_keys)
      × (((cached_api_key_row ttl slug hash mono now s).0 ≡ none)
          ⊎ ((cached_api_key_row ttl slug hash mono now s).0 ≡ find_row slug hash s.api_keys))
unfolding cached_api_key_row read_cached
cached_lem ttl slug hash mono now s v = elim (Bool-cases (leb ttl 0)) [
  | inl off ↦ rw off (refl, inl refl)
  | inr on ↦ rw on (read (lookup (slug, hash) s.auth_cache) refl)
]
  where
    read :
        (o : Option (ℕ × ApiKey))
        → lookup (slug, hash) s.auth_cache ≡ o
        → ((read_cached (slug, hash) mono now s o).1.api_keys ≡ s.api_keys)
          × (((read_cached (slug, hash) mono now s o).0 ≡ none)
              ⊎ ((read_cached (slug, hash) mono now s o).0 ≡ find_row slug hash s.api_keys))
    read none h = (refl, inl refl)
    read (some (expires, row)) h = elim (Bool-cases (leb expires mono || past row.expires_at now)) [
      | inl old ↦ rw old (refl, inl refl)
      | inr new ↦ rw new (
        refl,
        inr (
            sym (
              v.fits ((slug, hash), (expires, row))
                (In-lookup (slug, hash) s.auth_cache (expires, row) h))),
      )
    ]
