-- ===== src/Operations/Idempotency.antt =====
-- framework/operations.py: `_idempotency_cleanup_due` and `execute_idempotent_operation`. A request's
-- transaction is one step, and takes its readings of the clocks from the request. What the operation's
-- statements do to the database, the codecs of JSON, SHA-256 and the SELECT of expired rows are
-- parameters.
use json_api_forge.Prelude.{
  nat_eq, ℕ, min, max, Bool, true, false, not, Option, none, some, List, [], map, ltb, leb, length,
  any, keep, contains, Error, http, runtime_error, http_error, Result, ok, err, ◌+◌, ◌*◌, ◌/◌, ◌&&◌,
  ◌∷◌, ◌++◌, if◌then◌else◌, nat_eq, string_eq,
}
use json_api_forge.Prelude.Dict.{Dict, lookup, assign}
use json_api_forge.Security.ApiKeys.{pair_eq}
use json_api_forge.Prelude.Clock.{second}
use json_api_forge.Prelude.Text.{Text, text_eq, text_beq}

-- A row of operation_idempotency_table; `complete` is state == "complete".
pub record Entry : Type 0 where
  pub id : ℕ
  pub project_slug : Text
  pub operation_name : Text
  pub key_hash : Text
  pub request_hash : Text
  pub complete : Bool
  pub response_json : Option Text
  pub updated_at : ℕ

-- The fields of OperationConfig that are read here.
pub record OperationConfig : Type 0 where
  pub transaction : Bool
  pub idempotency_ttl_seconds : ℕ
  pub idempotency_cleanup_batch_size : ℕ
  pub idempotency_max_response_bytes : ℕ

-- What the statements of an operation end with: an IntegrityError, another exception, or a result.
pub data Execution (D V : Type 0) : Type 0 where
  integrity_error : Execution D V
  raised : Error → Execution D V
  done : D → V → Execution D V

-- A call: its digest of project, operation, principal and key, the fingerprint of its input, what the
-- validation of the body says, its statements, and the clocks: `now` and `completed` in UTC, `mono`
-- monotonic.
pub record Call (D V : Type 0) : Type 0 where
  pub project_slug : Text
  pub operation_name : Text
  pub digest : Text
  pub fingerprint : Text
  pub valid : Result (Unit {0})
  pub execute : D → Execution D V
  pub now : ℕ
  pub completed : ℕ
  pub mono : ℕ

-- The rows for idempotency and the rest of the database; `_idempotency_cleanup_after` of the process.
pub record Store (D : Type 0) : Type 0 where
  pub entries : List Entry
  pub next_id : ℕ
  pub data_ : D
  pub cleanup_after : Dict (Text × Text) ℕ

-- What a transaction ends with: it is committed only in the last case.
pub data Transaction (D V : Type 0) : Type 0 where
  conflict : Transaction D V
  fails : Error → Transaction D V
  commits : List Entry → D → V → Transaction D V

abbrev pub in_progress : Error
in_progress = http 409 "An identical idempotent operation is still in progress" (some 1)

-- A complete row is replayed.
unfoldable pub response_of {ℓ} : {V : Type ℓ} → (Text → V) → Bool → Option Text → Result (V × Bool)
response_of loads true (some payload) = ok (loads payload, true)
response_of loads true none = err in_progress
response_of loads false response = err in_progress

module _ {D V : Type 0} (config : Text → Text → OperationConfig) (dumps : V → Text)
    (loads : Text → V) (size : Text → ℕ)
    (expired_ids : Text → Text → (Entry → Bool) → ℕ → List Entry → List ℕ) where
  abbrev pub ttl : Call D V → ℕ
  ttl c = (config c.project_slug c.operation_name).idempotency_ttl_seconds * second

  -- updated_at < now - ttl
  abbrev pub is_expired : Call D V → Entry → Bool
  is_expired c e = ltb (e.updated_at + ttl c) c.now

  abbrev pub has_key : Call D V → Entry → Bool
  has_key c e =
      text_beq e.project_slug c.project_slug
      && (text_beq e.operation_name c.operation_name && text_beq e.key_hash c.digest)

  unfoldable pub cleanup_due : Call D V → Dict (Text × Text) ℕ → Bool × Dict (Text × Text) ℕ
  cleanup_due c after =
      let key : Text × Text = (c.project_slug, c.operation_name) in
      let due : Bool = elim (lookup key after) [ none ↦ true | some t ↦ leb t c.mono ] in
      if due
      then (true, assign key (c.mono + min (600 * second) (max (60 * second) (ttl c / 10))) after)
      else (false, after)

  -- The ids of expired rows that a clean-up deletes.
  unfoldable pub cleaned_ids : Call D V → Bool → List Entry → List ℕ
  cleaned_ids c false entries = []
  cleaned_ids c true entries =
      expired_ids c.project_slug c.operation_name (is_expired c)
        (config c.project_slug c.operation_name).idempotency_cleanup_batch_size entries

  -- A clean-up that was cut off goes on after a second.
  unfoldable pub cleaned_after :
      Call D V → Bool → List ℕ → Dict (Text × Text) ℕ → Dict (Text × Text) ℕ
  cleaned_after c due ids after =
      if due
        && leb (config c.project_slug c.operation_name).idempotency_cleanup_batch_size (length ids)
      then assign (c.project_slug, c.operation_name) (c.mono + second) after
      else after

  -- The rows after the clean-up and after the deletion of the call's own expired row.
  unfoldable pub swept : Call D V → List ℕ → List Entry → List Entry
  swept c ids entries =
      keep (λ e. not (has_key c e && is_expired c e)) (keep (λ e. not (contains e.id ids)) entries)

  abbrev pub pending : Call D V → ℕ → Entry
  pending c id = record {
    id = id;
    project_slug = c.project_slug;
    operation_name = c.operation_name;
    key_hash = c.digest;
    request_hash = c.fingerprint;
    complete = false;
    response_json = none;
    updated_at = c.now;
  }

  unfoldable pub completed_entry : Call D V → Text → Entry → Entry
  completed_entry c payload e =
      if has_key c e
      then record e { complete = true; response_json = some payload; updated_at = c.completed }
      else e

  unfoldable pub finish : Call D V → List Entry → D → V → Transaction D V
  unfolding completed_entry
  finish c entries d v =
      if ltb (config c.project_slug c.operation_name).idempotency_max_response_bytes
        (size (dumps v))
      then fails
          (http_error 413 "Idempotent replay response exceeds idempotency_max_response_bytes")
      else commits (map (completed_entry c (dumps v)) entries) d v

  unfoldable pub transact : Call D V → List Entry → ℕ → D → Transaction D V
  unfolding finish
  transact c entries id d = if any (has_key c) entries then conflict else elim (c.execute d) [
    | integrity_error ↦ conflict
    | raised e ↦ fails e
    | done d' v ↦ finish c (entries ++ pending c id ∷ []) d' v
  ]

  -- `.mappings().first()` of the rows with the call's key
  unfoldable pub find : Call D V → List Entry → Option Entry
  find c [] = none
  find c (e ∷ entries) = let later = find c entries in if has_key c e then some e else later

  -- except IntegrityError: the answer from the committed row
  unfoldable pub replay : Call D V → Option Entry → Result (V × Bool)
  unfolding response_of
  replay c none = err (runtime_error "IntegrityError")
  replay c (some e) =
      if text_beq e.request_hash c.fingerprint
      then response_of loads e.complete e.response_json
      else err (http_error 409 "Idempotency key was already used with a different request payload")

  unfoldable pub settle : Call D V → Store D → Transaction D V → Store D × Result (V × Bool)
  unfolding replay find
  settle c s conflict = (s, replay c (find c s.entries))
  settle c s (fails e) = (s, err e)
  settle c s (commits entries d v) =
      (record s { entries = entries; next_id = s.next_id + 1; data_ = d }, ok (v, false))

  -- The store after `_idempotency_cleanup_after` was written, which no rollback undoes.
  unfoldable pub noted : Call D V → Store D → Store D
  unfolding cleanup_due cleaned_ids cleaned_after
  noted c s =
      let (due, after) = cleanup_due c s.cleanup_after in
      record s { cleanup_after = cleaned_after c due (cleaned_ids c due s.entries) after }

  unfoldable pub execute_idempotent_operation : Call D V → Store D → Store D × Result (V × Bool)
  unfolding noted settle transact swept cleaned_ids cleanup_due
  execute_idempotent_operation c s =
      if not (config c.project_slug c.operation_name).transaction
      then (s, err (runtime_error "idempotent operation requires transaction=true"))
      else elim c.valid [
        | err e ↦ (s, err e)
        | ok u ↦ settle c (noted c s) (
            transact c
              (swept c (cleaned_ids c (cleanup_due c s.cleanup_after).0 s.entries) s.entries)
              s.next_id s.data_)
      ]
