-- ===== src/Runtime/Manager.antt =====
-- framework/runtime.py: ProjectRuntime and RuntimeManager. Runtimes are objects that two managers can
-- share, so they live in a heap under their identity. What the services do is a parameter: `same` is
-- the equality of configurations, `starts id` says whether `_start_runtime` succeeds.
-- Of a runtime's services only whether they are open is kept.
use json_api_forge.Prelude.{
  nat_eq, ℕ, Bool, false, Option, none, some, List, [], map, leb, nat_beq, length, ◌+◌, ◌&&◌, ◌||◌,
  ◌∷◌, ◌++◌, if◌then◌else◌, string_eq,
}
use json_api_forge.Prelude.Dict.{Dict, lookup, assign}
use json_api_forge.Prelude.Text.{Text, text_eq, text_beq, starts_with}
use json_api_forge.Prelude.Parts.{rstrip}

pub record ProjectConfig : Type 0 where
  pub slug : Text
  pub api_prefix : Text
  pub max_request_body_bytes : ℕ

pub record ProjectRuntime : Type 0 where
  pub config : ProjectConfig
  pub open_services : Bool
  pub available : Bool
  pub error_type : Bool
  pub leases : ℕ

-- The objects, and the identity of the next one.
pub record Heap : Type 0 where
  pub objects : Dict ℕ ProjectRuntime
  pub next_id : ℕ

pub record RuntimeManager : Type 0 where
  pub runtimes : Dict Text ℕ
  pub borrowed : List ℕ
  pub leased : List ℕ
  pub prefixes : List (Text × ℕ)
  pub started : Bool
  pub closed : Bool

abbrev pub is_slash : ℕ → Bool
is_slash c = nat_beq c 47

abbrev pub fresh_runtime : ProjectConfig → ProjectRuntime
fresh_runtime config = record {
  config = config;
  open_services = false;
  available = false;
  error_type = false;
  leases = 0;
}

-- reuse.get(project.slug)
abbrev pub previous_of : Text → Dict Text ℕ → Heap → Option (ℕ × ProjectRuntime)
previous_of slug reuse h = elim (lookup slug reuse) [
  | none ↦ none
  | some id ↦ elim (lookup id h.objects) [ none ↦ none | some r ↦ some (id, r) ]
]

-- One project in the loop of `__init__`: the runtimes, the borrowed ones and the heap.
unfoldable pub add_runtime :
    (ProjectConfig → ProjectConfig → Bool)
    → ProjectConfig
    → Option (ℕ × ProjectRuntime)
    → Dict Text ℕ × List ℕ × Heap
    → Dict Text ℕ × List ℕ × Heap
add_runtime same project none (runtimes, borrowed, h) = (
  assign project.slug h.next_id runtimes,
  borrowed,
  record { objects = assign h.next_id (fresh_runtime project) h.objects; next_id = h.next_id + 1 },
)
add_runtime same project (some (id, r)) (runtimes, borrowed, h) =
    if r.available && same r.config project
    then (assign project.slug id runtimes, id ∷ borrowed, h)
    else (
      assign project.slug h.next_id runtimes,
      borrowed,
      record {
        objects = assign h.next_id (fresh_runtime project) h.objects;
        next_id = h.next_id + 1;
      },
    )

unfoldable pub add_runtimes :
    (ProjectConfig → ProjectConfig → Bool)
    → List ProjectConfig
    → Dict Text ℕ
    → Dict Text ℕ × List ℕ × Heap
    → Dict Text ℕ × List ℕ × Heap
unfolding add_runtime
add_runtimes same [] reuse x = x
add_runtimes same (project ∷ projects) reuse (runtimes, borrowed, h) =
    add_runtimes same projects reuse
      (add_runtime same project (previous_of project.slug reuse h) (runtimes, borrowed, h))

-- `sorted(..., key=len of the prefix, reverse=True)`, which keeps the order of equal lengths
unfoldable pub insert_prefix : Text × ℕ → List (Text × ℕ) → List (Text × ℕ)
insert_prefix x [] = x ∷ []
insert_prefix x (y ∷ ys) =
    let later = insert_prefix x ys in
    if leb (length y.0) (length x.0) then x ∷ y ∷ ys else y ∷ later

unfoldable pub sort_prefixes : List (Text × ℕ) → List (Text × ℕ)
unfolding insert_prefix
sort_prefixes [] = []
sort_prefixes (x ∷ xs) = insert_prefix x (sort_prefixes xs)

abbrev pub prefix_of : Heap → Text × ℕ → Text × ℕ
prefix_of h (slug, id) = elim (lookup id h.objects) [
  | none ↦ ([], id)
  | some r ↦ (rstrip is_slash r.config.api_prefix, id)
]

unfoldable pub init :
    (ProjectConfig → ProjectConfig → Bool)
    → List ProjectConfig
    → Dict Text ℕ
    → Heap
    → RuntimeManager × Heap
unfolding add_runtimes sort_prefixes
init same projects reuse h =
    let (runtimes, borrowed, h') = add_runtimes same projects reuse ([], [], h) in
    (
      record {
        runtimes = runtimes;
        borrowed = borrowed;
        leased = [];
        prefixes = sort_prefixes (map (prefix_of h') runtimes);
        started = false;
        closed = false;
      },
      h',
    )

-- path == prefix or path.startswith(prefix + "/")
unfoldable pub serves : Text → Text → Bool
serves path prefix = text_beq path prefix || starts_with path (prefix ++ 47 ∷ [])

unfoldable pub first_serving : Text → List (Text × ℕ) → Option ℕ
unfolding serves
first_serving path [] = none
first_serving path ((prefix, id) ∷ rest) =
    let later = first_serving path rest in if serves path prefix then some id else later

unfoldable pub for_path : Text → RuntimeManager → Option ℕ
unfolding first_serving
for_path path m = first_serving path m.prefixes

unfoldable pub body_limit_for_path : Text → RuntimeManager → Heap → Option ℕ
unfolding for_path
body_limit_for_path path m h = elim (for_path path m) [
  | none ↦ none
  | some id ↦ elim (lookup id h.objects) [
    | none ↦ none
    | some r ↦ some r.config.max_request_body_bytes
  ]
]
