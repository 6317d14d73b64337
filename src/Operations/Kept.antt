-- ===== src/Operations/Kept.antt =====
-- The committed row of a call that went through is kept as long as it is in time.
use json_api_forge.Prelude.{
  nat_eq, ℕ, refl, sym, ap, inl, inr, Bool, true, false, not, some, List, [], arith, Bool-cases,
  any, keep, In, here, there, contains, not-In-nil, In-cons, ◌+◌, ◌≤◌, ◌≡◌, ◌∙◌, ◌&&◌, ◌∷◌, nat_eq,
  string_eq,
}
use json_api_forge.Prelude.Text.{Text, text_eq, text_beq_iff}
use json_api_forge.Operations.Idempotency.{
  Entry, OperationConfig, Call, ttl, is_expired, has_key, cleaned_ids, swept,
}

abbrev pub ExpiredIds : Type 0
ExpiredIds = Text → Text → (Entry → Bool) → ℕ → List Entry → List ℕ

-- The ids that the SELECT of expired rows finds are ids of rows of that project and that operation
-- which are expired; the id is the primary key of the table.
abbrev pub FindsExpired : ExpiredIds → Type 0
FindsExpired expired_ids =
    (slug name : Text) (expired : Entry → Bool) (n : ℕ) (entries : List Entry) (e : Entry)
    → contains e.id (expired_ids slug name expired n entries) ≡ true
    → In e entries
    → (e.project_slug ≡ slug) × (e.operation_name ≡ name) × (expired e ≡ true)

pub any-keep :
    (p q : Entry → Bool) (entries : List Entry)
    → ((e : Entry) → In e entries → p e ≡ true → q e ≡ true)
    → any p entries ≡ true
    → any p (keep q entries) ≡ true
any-keep p q [] h some_ = cc
any-keep p q (e ∷ entries) h some_ = elim (Bool-cases (p e)) [
  | inl held ↦ rw (h e here held) (ground arith)
  | inr not_held ↦
      let later = any-keep p q entries (λ x m. h x (there m)) (ground arith) in
      elim (Bool-cases (q e)) [ inl kept ↦ rw kept (ground arith) | inr cut ↦ rw cut later ]
]

pub In-keep :
    (q : Entry → Bool) (entries : List Entry) (e : Entry) → In e (keep q entries) → In e entries
In-keep q [] e m = m
In-keep q (x ∷ entries) e m = elim (Bool-cases (q x)) [
  | inl kept ↦ elim (In-cons (rw kept at m)) [
    | inl same ↦ rw same here
    | inr later ↦ there (In-keep q entries e later)
  ]
  | inr cut ↦ there (In-keep q entries e (rw cut at m))
]

pub any-In :
    (p : Entry → Bool) (entries : List Entry) (e : Entry)
    → In e entries
    → p e ≡ true
    → any p entries ≡ true
any-In p [] e m h = absurd (not-In-nil m)
any-In p (x ∷ entries) e m h = elim (In-cons m) [
  | inl same ↦ let k : p x ≡ true = ap p (sym same) ∙ h in ground arith
  | inr later ↦ let k = any-In p entries e later h in ground arith
]

module _ {D V : Type 0} (config : Text → Text → OperationConfig) (dumps : V → Text)
    (loads : Text → V) (size : Text → ℕ) (expired_ids : ExpiredIds)
    (finds : FindsExpired expired_ids) (first : Call D V) (payload : Text) where
  abbrev pub is_key : Call D V → Entry → Bool
  is_key = has_key config dumps loads size expired_ids

  abbrev pub ttl_of : Call D V → ℕ
  ttl_of = ttl config dumps loads size expired_ids

  -- The row that `first` committed.
  pub record IsCommitted (e : Entry) : Type 0 where
    pub same_request : e.request_hash ≡ first.fingerprint
    pub is_complete : e.complete ≡ true
    pub has_response : e.response_json ≡ some payload
    pub is_dated : e.updated_at ≡ first.completed

  -- The table has a row with the key of `first`, and all such rows are the one that it committed.
  pub record IsHeld (entries : List Entry) : Type 0 where
    pub present : any (is_key first) entries ≡ true
    pub committed : (e : Entry) → In e entries → is_key first e ≡ true → IsCommitted e

  -- A call comes before the row of `first` expires, if it is one of the same operation.
  abbrev pub IsInTime : Call D V → Type 0
  IsInTime c =
      c.project_slug ≡ first.project_slug
      → c.operation_name ≡ first.operation_name
      → c.now ≤ first.completed + ttl_of c

  pub key-fields :
      (c : Call D V) (e : Entry)
      → is_key c e ≡ true
      → (e.project_slug ≡ c.project_slug)
        × (e.operation_name ≡ c.operation_name)
        × (e.key_hash ≡ c.digest)
  key-fields c e h = (
    (text_beq_iff e.project_slug c.project_slug).0 (ground arith),
    (text_beq_iff e.operation_name c.operation_name).0 (ground arith),
    (text_beq_iff e.key_hash c.digest).0 (ground arith),
  )

  not_expired :
      (c : Call D V) (e : Entry)
      → IsInTime c
      → IsCommitted e
      → is_key first e ≡ true
      → e.project_slug ≡ c.project_slug
      → e.operation_name ≡ c.operation_name
      → is_expired config dumps loads size expired_ids c e ≡ false
  not_expired c e in_time good held slug name =
      let (fs, fn, fk) = key-fields first e held in
      let le = in_time (sym slug ∙ fs) (sym name ∙ fn) in ground (arith, good.is_dated)

  pub swept-IsHeld :
      (c : Call D V) (due : Bool) (entries : List Entry)
      → IsInTime c
      → IsHeld entries
      → IsHeld (
          swept config dumps loads size expired_ids c
            (cleaned_ids config dumps loads size expired_ids c due entries)
            entries)
  unfolding swept
  swept-IsHeld c due entries in_time held = record {
    present =
        any-keep (is_key first) _ (keep (λ e. not (contains e.id ids)) entries)
          (λ e m k. own e (In-keep _ entries e m) k)
          (any-keep (is_key first) (λ e. not (contains e.id ids)) entries cleaned held.present);
    committed = λ e m k. held.committed e (In-keep _ entries e (In-keep _ _ e m)) k;
  }
    where
      ids : List ℕ
      ids = cleaned_ids config dumps loads size expired_ids c due entries

      in_ids :
          (b : Bool) (e : Entry)
          → contains e.id (cleaned_ids config dumps loads size expired_ids c b entries) ≡ true
          → In e entries
          → (e.project_slug ≡ c.project_slug)
            × (e.operation_name ≡ c.operation_name)
            × (is_expired config dumps loads size expired_ids c e ≡ true)
      in_ids false e h m = unfold cleaned_ids in cc h
      in_ids true e h m =
          finds c.project_slug c.operation_name (is_expired config dumps loads size expired_ids c)
            (config c.project_slug c.operation_name).idempotency_cleanup_batch_size entries e
            (unfold cleaned_ids in h) m

      cleaned : (e : Entry) → In e entries → is_key first e ≡ true → not (contains e.id ids) ≡ true
      cleaned e m k = elim (Bool-cases (contains e.id ids)) [
        | inl gone ↦
            let (slug, name, over) = in_ids due e gone m in
            absurd (cc (over, not_expired c e in_time (held.committed e m k) k slug name))
        | inr kept ↦ rw kept refl
      ]

      own :
          (e : Entry)
          → In e entries
          → is_key first e ≡ true
          → not (is_key c e && is_expired config dumps loads size expired_ids c e) ≡ true
      own e m k = elim (Bool-cases (is_key c e)) [
        | inl mine ↦
            let (slug, name, hash) = key-fields c e mine in
            rw (not_expired c e in_time (held.committed e m k) k slug name) (ground arith)
        | inr theirs ↦ rw theirs refl
      ]
