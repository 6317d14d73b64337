-- ===== src/Tests/Operations.antt =====
-- framework/operations.py: an operation that counts up, called twice with one key.
use json_api_forge.Prelude.{
  nat_eq, ℕ, refl, ap, inl, inr, Bool, true, false, not, List, [], map, arith, nat_beq, nat_beq_iff,
  Bool-cases, length, all, keep, In, contains, ok, not-In-nil, In-cons, ◌+◌, ◌≡◌, ◌∙◌, ◌&&◌, ◌||◌,
  ◌∷◌, nat_eq, string_eq,
}
use json_api_forge.Prelude.Dict.{lookup, assign}
use json_api_forge.Prelude.Text.{Text, text_eq, text_beq, text_beq_iff, codes}
use json_api_forge.Operations.Idempotency.{
  Entry, OperationConfig, Call, Store, cleanup_due, cleaned_ids, cleaned_after, swept,
  completed_entry, finish, transact, settle, noted, execute_idempotent_operation, done,
}
use json_api_forge.Operations.Kept.{FindsExpired}
use json_api_forge.Operations.Committed.{serve, run}
use json_api_forge.Operations.Replay.{replayed_once}

abbrev config : Text → Text → OperationConfig
config slug name = record {
  transaction = true;
  idempotency_ttl_seconds = 60;
  idempotency_cleanup_batch_size = 10;
  idempotency_max_response_bytes = 100;
}

abbrev dumps : ℕ → Text
dumps v = v ∷ []

abbrev loads : Text → ℕ
loads [] = 0
loads (c ∷ t) = c

abbrev meets : Text → Text → (Entry → Bool) → Entry → Bool
meets slug name expired e =
    text_beq e.project_slug slug && (text_beq e.operation_name name && expired e)

-- The id is a row's own: no other row with it may be left.
abbrev alone : Text → Text → (Entry → Bool) → List Entry → Entry → Bool
alone slug name expired entries e =
    all (λ x. not (nat_beq x.id e.id) || meets slug name expired x) entries

abbrev expired_ids : Text → Text → (Entry → Bool) → ℕ → List Entry → List ℕ
expired_ids slug name expired n entries =
    map (λ e. e.id) (keep (alone slug name expired entries) entries)

all-In :
    (p : Entry → Bool) (entries : List Entry) (e : Entry)
    → all p entries ≡ true
    → In e entries
    → p e ≡ true
all-In p [] e h m = absurd (not-In-nil m)
all-In p (x ∷ entries) e h m = elim (In-cons m) [
  | inl same ↦ ap p same ∙ ground arith
  | inr later ↦ all-In p entries e (ground arith) later
]

found_id :
    (q : Entry → Bool) (id : ℕ) (entries : List Entry)
    → contains id (map (λ e. e.id) (keep q entries)) ≡ true
    → (e : Entry) × (id ≡ e.id) × (q e ≡ true)
found_id q id [] h = cc h
found_id q id (x ∷ entries) h = elim (Bool-cases (q x)) [
  | inl kept ↦
      let h' : (nat_beq id x.id || contains id (map (λ e. e.id) (keep q entries))) ≡ true =
        rw kept at h in
      elim (Bool-cases (nat_beq id x.id)) [
        | inl same ↦ (x, (nat_beq_iff id x.id).0 same, kept)
        | inr differ ↦ found_id q id entries (ground arith)
      ]
  | inr cut ↦ found_id q id entries (rw cut at h)
]

finds_expired : FindsExpired expired_ids
finds_expired slug name expired n entries e h m =
    let (x, same, safe) = found_id (alone slug name expired entries) e.id entries h in
    let k = all-In (λ y. not (nat_beq y.id x.id) || meets slug name expired y) entries e safe m in
    let met : meets slug name expired e ≡ true = ground (arith, nat_beq_iff e.id x.id) in
    (
      (text_beq_iff e.project_slug slug).0 (ground arith),
      (text_beq_iff e.operation_name name).0 (ground arith),
      ground arith,
    )

-- The statements add one to a counter and return it.
abbrev counts : Text → ℕ → Call ℕ ℕ
counts digest at = record {
  project_slug = codes "shop";
  operation_name = codes "count";
  digest = digest;
  fingerprint = codes "f";
  valid = ok tt;
  execute = λ d. done (d + 1) (d + 1);
  now = at;
  completed = at;
  mono = at;
}

abbrev empty : Store ℕ
empty = record { entries = []; next_id = 1; data_ = 7; cleanup_after = [] }

abbrev counted : Store ℕ
counted =
    (serve config dumps loads length expired_ids finds_expired (counts (codes "k") 100) empty).0

ran_once :
    serve config dumps loads length expired_ids finds_expired (counts (codes "k") 100) empty
    ≡ (counted, ok (8, false))
unfolding execute_idempotent_operation noted settle transact finish swept cleaned_ids cleanup_due
    cleaned_after completed_entry lookup assign
ran_once = refl

replayed_once_example :
    ((serve config dumps loads length expired_ids finds_expired (counts (codes "k") 300) (
        run config dumps loads length expired_ids finds_expired
          (counts (codes "other") 200 ∷ [])
          counted)).1
      ≡ ok (8, true))
    × ((serve config dumps loads length expired_ids finds_expired (counts (codes "k") 300) (
          run config dumps loads length expired_ids finds_expired
            (counts (codes "other") 200 ∷ [])
            counted)).0.data_
        ≡ (run config dumps loads length expired_ids finds_expired
            (counts (codes "other") 200 ∷ [])
            counted).data_)
replayed_once_example =
    replayed_once config dumps loads length expired_ids finds_expired (counts (codes "k") 100) 8
      empty counted ran_once (counts (codes "other") 200 ∷ []) ((λ a b. omega arith), tt)
      (counts (codes "k") 300) (λ a b. omega arith) refl refl refl refl
