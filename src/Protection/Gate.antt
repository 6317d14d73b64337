-- ===== src/Protection/Gate.antt =====
-- framework/protection.py: ConcurrencyGate. The condition's lock makes each stretch of code between
-- two waits one step; the tasks are numbers, and a schedule of events says which step comes next.
use json_api_forge.Prelude.{
  ℕ, max, refl, Bool, true, not, List, [], arith, leb, nat_beq, length, contains, ◌+◌, ◌-◌, ◌≤◌,
  ◌≡◌, ◌∙◌, ◌&&◌, ◌∷◌, if◌then◌else◌, nat_eq, string_eq,
}

-- The gate's fields, the requests inside, and those in `wait_for_slot`.
pub record Gate : Type 0 where
  pub limit : ℕ
  pub reject : Bool
  pub active : ℕ
  pub inside : List ℕ
  pub waiting : List ℕ

unfoldable pub init : ℕ → Bool → Gate
init limit reject = record {
  limit = max 1 limit;
  reject = reject;
  active = 0;
  inside = [];
  waiting = [];
}

-- What a step returns to the request that takes it.
pub data Reply : Type 0 where
  entered : Reply
  queued : Reply
  saturated : Reply
  left : Reply
  nothing : Reply

abbrev pub remove : ℕ → List ℕ → List ℕ
remove t [] = []
remove t (x ∷ xs) = let rest = remove t xs in if nat_beq t x then xs else x ∷ rest

-- `__aenter__` up to its first wait, or to its end.
unfoldable pub enter : ℕ → Gate → Reply × Gate
enter task g =
    if g.reject && leb g.limit g.active
    then (saturated, g)
    else if leb g.limit g.active
    then (queued, record g { waiting = task ∷ g.waiting })
    else (entered, record g { active = g.active + 1; inside = task ∷ g.inside })

-- A task that waits is woken: the loop's test, and the rest of `__aenter__` if there is a slot.
unfoldable pub wake : ℕ → Gate → Reply × Gate
wake task g =
    if contains task g.waiting && not (leb g.limit g.active)
    then (
      entered,
      record g { active = g.active + 1; inside = task ∷ g.inside; waiting = remove task g.waiting },
    )
    else (nothing, g)

-- asyncio.TimeoutError of a task that waits
unfoldable pub time_out : ℕ → Gate → Reply × Gate
time_out task g =
    if contains task g.waiting
    then (saturated, record g { waiting = remove task g.waiting })
    else (nothing, g)

-- `__aexit__` of a request that is inside
unfoldable pub leave : ℕ → Gate → Reply × Gate
leave task g =
    if contains task g.inside
    then (left, record g { active = g.active - 1; inside = remove task g.inside })
    else (nothing, g)

pub data Event : Type 0 where
  arrives wakes times_out leaves : ℕ → Event

unfoldable pub step : Event → Gate → Reply × Gate
unfolding enter wake time_out leave
step (arrives t) g = enter t g
step (wakes t) g = wake t g
step (times_out t) g = time_out t g
step (leaves t) g = leave t g

unfoldable pub run : List Event → Gate → Gate
unfolding step
run [] g = g
run (e ∷ es) g = run es (step e g).1

pub record IsSafe (g : Gate) : Type 0 where
  pub counted : g.active ≡ length g.inside
  pub within : g.active ≤ g.limit

length-remove : (t : ℕ) (xs : List ℕ) → contains t xs ≡ true → length (remove t xs) + 1 ≡ length xs
length-remove t [] h = cc
length-remove t (x ∷ xs) h = ground (arith, length-remove t xs)

step-IsSafe : (e : Event) (g : Gate) → IsSafe g → IsSafe (step e g).1
unfolding step
step-IsSafe (arrives t) g s = ground arith
step-IsSafe (wakes t) g s = ground arith
step-IsSafe (times_out t) g s = ground arith
step-IsSafe (leaves t) g s = ground (arith, length-remove t g.inside)

limit-step : (e : Event) (g : Gate) → (step e g).1.limit ≡ g.limit
unfolding step
limit-step (arrives t) g = ground arith
limit-step (wakes t) g = ground arith
limit-step (times_out t) g = ground arith
limit-step (leaves t) g = ground arith

run-IsSafe : (es : List Event) (g : Gate) → IsSafe g → IsSafe (run es g)
unfolding run
run-IsSafe [] g s = s
run-IsSafe (e ∷ es) g s = run-IsSafe es (step e g).1 (step-IsSafe e g s)

limit-run : (es : List Event) (g : Gate) → (run es g).limit ≡ g.limit
unfolding run
limit-run [] g = refl
limit-run (e ∷ es) g = limit-run es (step e g).1 ∙ limit-step e g

-- In every order in which requests arrive, are woken, time out and leave, the count of the gate is
-- the number of requests inside, and it never passes the limit.
pub gate_never_over_limit :
    (limit : ℕ) (reject : Bool) (es : List Event)
    → ((run es (init limit reject)).active ≡ length (run es (init limit reject)).inside)
      × ((run es (init limit reject)).active ≤ max 1 limit)
gate_never_over_limit limit reject es =
    let s = run-IsSafe es (init limit reject) (unfold init in omega arith) in
    let l : (run es (init limit reject)).limit ≡ max 1 limit =
      limit-run es (init limit reject) ∙ (unfold init in refl) in
    (s.counted, omega (arith, s.within, l))
