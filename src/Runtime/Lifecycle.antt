-- ===== src/Runtime/Lifecycle.antt =====
-- framework/runtime.py: _close_runtime, start and close of RuntimeManager.
use json_api_forge.Prelude.{
  ℕ, Bool, true, false, not, Option, none, some, List, [], map, ltb, nat_beq, keep, contains, ◌+◌,
  ◌-◌, ◌∷◌, if◌then◌else◌, nat_eq, string_eq,
}
use json_api_forge.Prelude.Dict.{Dict, lookup, assign}
use json_api_forge.Prelude.Text.{Text}
use json_api_forge.Runtime.Manager.{ProjectRuntime, Heap, RuntimeManager}
use mathlib.Core.List.{reverse}

-- `_close_runtime`, which closes every service even when one of them fails
unfoldable pub close_runtime : ProjectRuntime → ProjectRuntime
close_runtime r = record r { available = false; open_services = false }

-- One runtime in the loop of `start`, and whether it was leased.
unfoldable pub start_one : Bool → ProjectRuntime → ProjectRuntime × Bool
unfolding close_runtime
start_one ok_start r =
    if r.error_type
    then (r, false)
    else if r.available
    then (record r { leases = r.leases + 1 }, true)
    else if ok_start
    then (record r { open_services = true; available = true; leases = r.leases + 1 }, true)
    else (record (close_runtime r) { error_type = true }, false)

-- The body of the loop of `start`, for the runtime that was found under the identity `id`.
unfoldable pub start_at :
    Bool
    → ℕ
    → Option ProjectRuntime
    → Dict ℕ ProjectRuntime × List ℕ
    → Dict ℕ ProjectRuntime × List ℕ
unfolding start_one
start_at ok_start id none x = x
start_at ok_start id (some r) (objects, leased) =
    let (r', got) = start_one ok_start r in
    (assign id r' objects, if got then id ∷ leased else leased)

unfoldable pub start_loop :
    (ℕ → Bool) → List ℕ → Dict ℕ ProjectRuntime × List ℕ → Dict ℕ ProjectRuntime × List ℕ
unfolding start_at
start_loop starts [] x = x
start_loop starts (id ∷ ids) x = start_loop starts ids (start_at (starts id) id (lookup id x.0) x)

abbrev pub values : Dict Text ℕ → List ℕ
values d = map (λ (e : Text × ℕ). e.1) d

unfoldable pub start : (ℕ → Bool) → RuntimeManager × Heap → RuntimeManager × Heap
unfolding start_loop
start starts (m, h) =
    let (objects, leased) = start_loop starts (values m.runtimes) (h.objects, m.leased) in
    if m.started then (m, h) else (
      record m { closed = false; leased = leased; started = true },
      record h { objects = objects },
    )

-- One runtime in the loop of `close`: a lease is returned, and the last one closes the runtime.
unfoldable pub release : Bool → Bool → ProjectRuntime → ProjectRuntime
unfolding close_runtime
release leased borrowed r =
    if leased
    then if ltb 0 (r.leases - 1)
      then record r { leases = r.leases - 1 }
      else close_runtime (record r { leases = r.leases - 1 })
    else if borrowed
    then r
    else close_runtime r

abbrev pub remove_id : ℕ → List ℕ → List ℕ
remove_id id xs = keep (λ (x : ℕ). not (nat_beq x id)) xs

-- The body of the loop of `close`.
unfoldable pub close_at :
    Bool
    → ℕ
    → Option ProjectRuntime
    → Dict ℕ ProjectRuntime × List ℕ
    → Dict ℕ ProjectRuntime × List ℕ
unfolding release
close_at borrowed id none x = x
close_at borrowed id (some r) (objects, leased) =
    (assign id (release (contains id leased) borrowed r) objects, remove_id id leased)

unfoldable pub close_loop :
    List ℕ → List ℕ → Dict ℕ ProjectRuntime × List ℕ → Dict ℕ ProjectRuntime × List ℕ
unfolding close_at
close_loop borrowed [] x = x
close_loop borrowed (id ∷ ids) x =
    close_loop borrowed ids (close_at (contains id borrowed) id (lookup id x.0) x)

-- The error that `close` raises at the end, after it has released every runtime, is left out.
unfoldable pub close : RuntimeManager × Heap → RuntimeManager × Heap
unfolding close_loop
close (m, h) =
    let (objects, leased) =
      close_loop m.borrowed (reverse (values m.runtimes)) (h.objects, m.leased) in
    if m.closed then (m, h) else (
      record m { closed = true; leased = leased; started = false },
      record h { objects = objects },
    )
