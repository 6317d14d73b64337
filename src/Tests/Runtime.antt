-- ===== src/Tests/Runtime.antt =====
-- framework/runtime.py: two projects, of which one's prefix continues the other's, and a reload.
use json_api_forge.Prelude.{nat_eq, ℕ, refl, true, false, some, List, [], ◌≡◌, ◌∷◌, string_eq}
use json_api_forge.Prelude.Dict.{lookup}
use json_api_forge.Prelude.Text.{Text, text_eq, codes, starts_with}
use json_api_forge.Runtime.Manager.{
  ProjectRuntime, Heap, RuntimeManager, sort_prefixes, serves, for_path,
}
use json_api_forge.Runtime.Lifecycle.{start, close}
use json_api_forge.Runtime.Paths.{Answers, for_path_longest}
use json_api_forge.Runtime.Leases.{handover_keeps_open, last_lease_closes}

abbrev running : ProjectRuntime
running = record {
  config = record { slug = codes "a"; api_prefix = codes "/a/"; max_request_body_bytes = 100 };
  open_services = true;
  available = true;
  error_type = false;
  leases = 1;
}

abbrev prefixes : List (Text × ℕ)
prefixes = (codes "/a", 0) ∷ (codes "/a/b", 1) ∷ []

abbrev old : RuntimeManager
old = record {
  runtimes = (codes "a", 0) ∷ [];
  borrowed = [];
  leased = 0 ∷ [];
  prefixes = sort_prefixes prefixes;
  started = true;
  closed = false;
}

abbrev new : RuntimeManager
new = record {
  runtimes = (codes "a", 0) ∷ [];
  borrowed = 0 ∷ [];
  leased = [];
  prefixes = sort_prefixes prefixes;
  started = false;
  closed = false;
}

abbrev heap : Heap
heap = record { objects = (0, running) ∷ []; next_id = 1 }

for_path_longest_example : Answers (codes "/a/b/c") prefixes (some 1)
unfolding for_path serves sort_prefixes starts_with
for_path_longest_example = for_path_longest (codes "/a/b/c") prefixes old refl

handover_keeps_open_example :
    lookup 0 (close (old, (start (λ id. true) (new, heap)).1)).1.objects ≡ some running
unfolding lookup
handover_keeps_open_example =
    handover_keeps_open (λ id. true) old new heap 0 running (refl, tt) (refl, tt) refl refl refl
      refl refl refl refl refl refl

last_lease_closes_example :
    lookup 0 (close (old, heap)).1.objects
    ≡ some (record running { available = false; open_services = false; leases = 0 })
unfolding lookup
last_lease_closes_example = last_lease_closes old heap 0 running (refl, tt) refl refl refl refl refl
