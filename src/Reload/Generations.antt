-- ===== src/Reload/Generations.antt =====
-- framework/reload.py, _Generation and the state of ReloadingForge: requests that come and go while
-- generations of the application follow each other. Code between two awaits is one step. A reload is
-- two: the clean-up of retired generations under the lock, and the end of the attempt, with the
-- outcome that Reload/Decide gives it. Closing a generation is taken to succeed.
use json_api_forge.Prelude.{
  nat_eq, ℕ, zero, suc, Bool, true, false, not, Option, none, some, List, [], map, ltb, nat_beq,
  length, keep, contains, ◌+◌, ◌-◌, ◌&&◌, ◌||◌, ◌∷◌, ◌++◌, if◌then◌else◌, nat_eq, string_eq,
}
use json_api_forge.Reload.Ownership.{Project}
use json_api_forge.Reload.Decide.{Outcome, unchanged, superseded, applies}

-- `closed` says that the task that closes the generation is done. `inside` are the requests whose
-- local variable `generation` is this one.
pub record Generation : Type 0 where
  pub projects : List Project
  pub requests : ℕ
  pub idle : Bool
  pub closed : Bool
  pub inside : List ℕ

pub record Forge : Type 0 where
  pub current : Generation
  pub retired : List Generation
  pub observed : ℕ
  pub generation : ℕ
  pub failed : Bool
  -- the lock of reload_now is held, past its test of the retired generations
  pub reloading : Bool
  -- the requests that have begun and not ended
  pub in_flight : List ℕ

-- `_Generation(app, config)` after `start`
unfoldable pub fresh : List Project → Generation
fresh projects = record {
  projects = projects;
  requests = 0;
  idle = true;
  closed = false;
  inside = [];
}

unfoldable pub init : List Project → ℕ → Forge
unfolding fresh
init projects signature = record {
  current = fresh projects;
  retired = [];
  observed = signature;
  generation = 0;
  failed = false;
  reloading = false;
  in_flight = [];
}

-- generation.requests += 1; generation.idle.clear()
unfoldable pub enter : ℕ → Generation → Generation
enter request g = record g { requests = g.requests + 1; idle = false; inside = request ∷ g.inside }

abbrev pub without_request : ℕ → List ℕ → List ℕ
without_request request = keep (λ r. not (nat_beq request r))

-- generation.requests -= 1; if generation.requests == 0: generation.idle.set()
unfoldable pub leave : ℕ → Generation → Generation
leave request g =
    if contains request g.inside
    then record g {
      requests = g.requests - 1;
      idle = nat_beq (g.requests - 1) 0 || g.idle;
      inside = without_request request g.inside;
    }
    else g

-- The task of a retired generation: it waits for `idle` and leaves the lifespan of the application.
unfoldable pub close : Generation → Generation
close g = if g.idle then record g { closed = true } else g

-- The retired generations that a reload leaves: neither closed nor idle, for an idle one is waited for.
unfoldable pub remaining : List Generation → List Generation
remaining = keep (λ g. not g.closed && not g.idle)

unfoldable pub close_at : ℕ → List Generation → List Generation
unfolding close
close_at n [] = []
close_at zero (g ∷ gs) = close g ∷ gs
close_at (suc n) (g ∷ gs) = g ∷ close_at n gs

pub data Event : Type 0 where
  -- a request begins or ends
  begins ends : ℕ → Event
  -- the task of a retired generation runs
  closes : ℕ → Event
  -- reload_now takes the lock and cleans up
  reloads : Event
  -- the attempt ends with an exception, after a known signature or none, or with its outcome
  fails : Option ℕ → Event
  decides : Outcome → Event
  -- the task that reloads is cancelled
  cancelled : Event

-- self._observed = signature, where there is one
unfoldable pub seen : Option ℕ → ℕ → ℕ
seen none observed = observed
seen (some signature) observed = signature

-- The end of an attempt that did not raise.
unfoldable pub finish : Outcome → Forge → Forge
unfolding fresh
finish unchanged f = record f { reloading = false }
finish superseded f = record f { reloading = false }
finish (applies signature projects) f = record f {
  current = fresh projects;
  retired = f.retired ++ f.current ∷ [];
  observed = signature;
  generation = f.generation + 1;
  failed = false;
  reloading = false;
}

unfoldable pub step : Event → Forge → Forge
unfolding enter leave remaining close_at seen finish
step (begins request) f =
    if contains request f.in_flight
    then f
    else record f { current = enter request f.current; in_flight = request ∷ f.in_flight }
step (ends request) f = record f {
  current = leave request f.current;
  retired = map (leave request) f.retired;
  in_flight = without_request request f.in_flight;
}
step (closes n) f = record f { retired = close_at n f.retired }
step reloads f = if f.reloading then f else record f {
  retired = remaining f.retired;
  reloading = ltb (length (remaining f.retired)) 2;
}
step (fails signature) f =
    if f.reloading
    then record f { observed = seen signature f.observed; failed = true; reloading = false }
    else f
step cancelled f = record f { reloading = false }
step (decides outcome) f = if f.reloading then finish outcome f else f

unfoldable pub run : List Event → Forge → Forge
unfolding step
run [] f = f
run (e ∷ events) f = run events (step e f)
