-- ===== src/Runtime/Leases.antt =====
-- A runtime that a reload passes on from the old manager to the new one stays open.
use json_api_forge.Prelude.{
  ℕ, refl, sym, subst, inl, inr, Bool, true, false, Option, none, some, List, [], arith, nat_beq,
  nat_beq_iff, Bool-cases, beq_refl, contains, ◌+◌, ◌≡◌, ◌∙◌, ◌||◌, ◌∷◌, ◌++◌, nat_eq, string_eq,
}
use json_api_forge.Prelude.Dict
use json_api_forge.Prelude.Dict.{Dict, lookup, assign}
use mathlib.Core.List.{reverse}
use json_api_forge.Runtime.Manager.{ProjectRuntime, RuntimeManager, Heap}
use json_api_forge.Runtime.Lifecycle.{
  start_one, start_at, start_loop, start, values, release, remove_id, close_at, close_loop, close,
}

-- No identity twice.
abbrev pub IsSetOf : List ℕ → Type 0
IsSetOf [] = Unit
IsSetOf (x ∷ xs) = (contains x xs ≡ false) × IsSetOf xs

abbrev Objects : Type 0
Objects = Dict ℕ ProjectRuntime

remove_other :
    (id j : ℕ) (xs : List ℕ) → nat_beq id j ≡ false → contains j (remove_id id xs) ≡ contains j xs
remove_other id j [] h = refl
remove_other id j (x ∷ xs) h = ground (arith, remove_other id j xs)

-- What the loops do to the runtime `j`: its object, and whether the manager holds it.
abbrev Seen : ℕ → Objects × List ℕ → Option ProjectRuntime → Bool → Type 0
Seen j x object held = (lookup j x.0 ≡ object) × (contains j x.1 ≡ held)

start_at_other :
    (ok_start : Bool) (id j : ℕ) (o : Option ProjectRuntime) (x : Objects × List ℕ)
    → nat_beq id j ≡ false
    → Seen j (start_at ok_start id o x) (lookup j x.0) (contains j x.1)
unfolding start_at
start_at_other ok_start id j none x h = (refl, refl)
start_at_other ok_start id j (some r) (objects, leased) h =
    (Dict.lookup-assign id j (start_one ok_start r).0 objects ∙ rw h refl, ground arith)

start_at_shared :
    (ok_start : Bool) (j : ℕ) (r : ProjectRuntime) (x : Objects × List ℕ)
    → r.error_type ≡ false
    → r.available ≡ true
    → Seen j (start_at ok_start j (some r) x) (some (record r { leases = r.leases + 1 })) true
unfolding start_at start_one
start_at_shared ok_start j r (objects, leased) e a =
    (Dict.lookup-assign j j _ objects ∙ ground arith, ground arith)

start_loop_other :
    (starts : ℕ → Bool) (ids : List ℕ) (j : ℕ) (x : Objects × List ℕ)
    → contains j ids ≡ false
    → Seen j (start_loop starts ids x) (lookup j x.0) (contains j x.1)
unfolding start_loop
start_loop_other starts [] j x n = (refl, refl)
start_loop_other starts (id ∷ ids) j x n =
    let one = start_at_other (starts id) id j (lookup id x.0) x (ground arith) in
    let rest =
      start_loop_other starts ids j (start_at (starts id) id (lookup id x.0) x) (ground arith) in
    (rest.0 ∙ one.0, rest.1 ∙ one.1)

-- An available runtime gets one lease more, and the manager that starts holds it.
start_loop_shared :
    (starts : ℕ → Bool) (ids : List ℕ) (j : ℕ) (r : ProjectRuntime) (x : Objects × List ℕ)
    → IsSetOf ids
    → contains j ids ≡ true
    → lookup j x.0 ≡ some r
    → r.error_type ≡ false
    → r.available ≡ true
    → Seen j (start_loop starts ids x) (some (record r { leases = r.leases + 1 })) true
unfolding start_loop
start_loop_shared starts [] j r x d m found e a = cc
start_loop_shared starts (id ∷ ids) j r x d m found e a = elim (Bool-cases (nat_beq id j)) [
  | inl same ↦ this ((nat_beq_iff id j).0 same)
  | inr other ↦
      start_loop_shared starts ids j r (start_at (starts id) id (lookup id x.0) x) d.1
        (ground arith) ((start_at_other (starts id) id j (lookup id x.0) x other).0 ∙ found) e a
]
  where
    this :
        id ≡ j
        → Seen j (start_loop starts (id ∷ ids) x) (some (record r { leases = r.leases + 1 })) true
    this i =
        let one = start_at_shared (starts j) j r x e a in
        let rest = start_loop_other starts ids j (start_at (starts j) j (some r) x) (rw i at d.0) in
        rw i (
          subst
            (λ (o : Option ProjectRuntime).
              Seen j (start_loop starts ids (start_at (starts j) j o x))
                (some (record r { leases = r.leases + 1 })) true)
            (sym found) (rest.0 ∙ one.0, rest.1 ∙ one.1))

close_at_other :
    (borrowed : Bool) (id j : ℕ) (o : Option ProjectRuntime) (x : Objects × List ℕ)
    → nat_beq id j ≡ false
    → Seen j (close_at borrowed id o x) (lookup j x.0) (contains j x.1)
unfolding close_at
close_at_other borrowed id j none x h = (refl, refl)
close_at_other borrowed id j (some r) (objects, leased) h =
    (Dict.lookup-assign id j _ objects ∙ rw h refl, remove_other id j leased h)

close_loop_other :
    (borrowed ids : List ℕ) (j : ℕ) (x : Objects × List ℕ)
    → contains j ids ≡ false
    → Seen j (close_loop borrowed ids x) (lookup j x.0) (contains j x.1)
unfolding close_loop
close_loop_other borrowed [] j x n = (refl, refl)
close_loop_other borrowed (id ∷ ids) j x n =
    let one = close_at_other (contains id borrowed) id j (lookup id x.0) x (ground arith) in
    let rest =
      close_loop_other borrowed ids j (close_at (contains id borrowed) id (lookup id x.0) x)
        (ground arith) in
    (rest.0 ∙ one.0, rest.1 ∙ one.1)

-- A runtime that is leased is released exactly once.
close_loop_leased :
    (borrowed ids : List ℕ) (j : ℕ) (r : ProjectRuntime) (x : Objects × List ℕ)
    → IsSetOf ids
    → contains j ids ≡ true
    → lookup j x.0 ≡ some r
    → contains j x.1 ≡ true
    → lookup j (close_loop borrowed ids x).0 ≡ some (release true (contains j borrowed) r)
unfolding close_loop
close_loop_leased borrowed [] j r x d m found held = cc
close_loop_leased borrowed (id ∷ ids) j r x d m found held = elim (Bool-cases (nat_beq id j)) [
  | inl same ↦ this ((nat_beq_iff id j).0 same)
  | inr other ↦
      let one = close_at_other (contains id borrowed) id j (lookup id x.0) x other in
      close_loop_leased borrowed ids j r (close_at (contains id borrowed) id (lookup id x.0) x) d.1
        (ground arith) (one.0 ∙ found) (one.1 ∙ held)
]
  where
    released :
        (y : Objects × List ℕ)
        → contains j y.1 ≡ true
        → lookup j (close_at (contains j borrowed) j (some r) y).0
          ≡ some (release true (contains j borrowed) r)
    released (objects, leased) h =
        unfold close_at in Dict.lookup-assign j j _ objects ∙ rw (beq_refl, h) refl

    this :
        id ≡ j
        → lookup j (close_loop borrowed (id ∷ ids) x).0
          ≡ some (release true (contains j borrowed) r)
    this i =
        let rest =
          close_loop_other borrowed ids j (close_at (contains j borrowed) j (some r) x)
            (rw i at d.0) in
        rw i (
          subst
            (λ (o : Option ProjectRuntime).
              lookup j (close_loop borrowed ids (close_at (contains j borrowed) j o x)).0
              ≡ some (release true (contains j borrowed) r))
            (sym found) (rest.0 ∙ released x held))

contains-append :
    (j : ℕ) (xs ys : List ℕ) → contains j (xs ++ ys) ≡ (contains j xs || contains j ys)
contains-append j [] ys = refl
contains-append j (x ∷ xs) ys = ground (arith, contains-append j xs ys)

-- A reload, between managers that list no runtime twice: a runtime that is available and leased once,
-- by the old manager, and that the new manager took over, is as it was, open and leased once, after
-- the new manager has started and then the old one has closed.
pub handover_keeps_open :
    (starts : ℕ → Bool) (old new : RuntimeManager) (h : Heap) (j : ℕ) (r : ProjectRuntime)
    → IsSetOf (reverse (values old.runtimes))
    → IsSetOf (values new.runtimes)
    → contains j (reverse (values old.runtimes)) ≡ true
    → contains j (values new.runtimes) ≡ true
    → old.closed ≡ false
    → new.started ≡ false
    → contains j old.leased ≡ true
    → lookup j h.objects ≡ some r
    → r.error_type ≡ false
    → r.available ≡ true
    → r.leases ≡ 1
    → lookup j (close (old, (start starts (new, h)).1)).1.objects ≡ some r
unfolding start close
handover_keeps_open starts old new h j r d e in_old in_new running waiting held found ok_r open_r
      one =
    rw (running, waiting)
      (close_loop_leased old.borrowed (reverse (values old.runtimes)) j _ _ d in_old
          (start_loop_shared starts (values new.runtimes) j r (h.objects, new.leased) e in_new found
            ok_r open_r).0
          held
        ∙ unfold release in ground (arith, one))

-- When a manager that lists no runtime twice closes, a runtime of which it holds the only lease is
-- closed, with no lease left.
pub last_lease_closes :
    (m : RuntimeManager) (h : Heap) (j : ℕ) (r : ProjectRuntime)
    → IsSetOf (reverse (values m.runtimes))
    → contains j (reverse (values m.runtimes)) ≡ true
    → m.closed ≡ false
    → contains j m.leased ≡ true
    → lookup j h.objects ≡ some r
    → r.leases ≡ 1
    → lookup j (close (m, h)).1.objects
      ≡ some (record r { available = false; open_services = false; leases = 0 })
unfolding close
last_lease_closes m h j r d in_m running held found one = rw running (
    close_loop_leased m.borrowed (reverse (values m.runtimes)) j r (h.objects, m.leased) d in_m
      found held
    ∙ unfold release in ground (arith, one))
