-- ===== src/Reload/Invariant.antt =====
-- Requests in flight are never in a closed generation, and retired generations do not pile up.
use json_api_forge.Prelude.{
  nat_eq, ℕ, refl, sym, subst, inl, inr, true, false, Option, List, [], map, arith, ltb, Bool-cases,
  length, length-append, In, here, All-In, All-intro, In-append_left, In-append_right, contains,
  In-contains, contains-In, not-In-nil, ◌≤◌, ◌≡◌, ◌∙◌, ◌≢◌, ◌∷◌, nat_eq, string_eq,
}
use json_api_forge.Reload.Ownership.{Project}
use json_api_forge.Reload.Decide.{Outcome, unchanged, superseded, applies}
use json_api_forge.Reload.Generations.{
  cancelled, Forge, fresh, init, without_request, leave, remaining, close_at, Event, seen, finish,
  step, run, begins, ends, closes, reloads, fails, decides,
}
use json_api_forge.Reload.Served.{
  IsServed, IsCounted, IsValid, In-without, In-without_back, leave-IsCounted, by_current,
  by_retired,
}
use json_api_forge.Reload.Runs.{
  fresh-IsCounted, In-leave, leave-inside, leave-closed, busy_inside, In-close_at,
  close_at-IsCounted, length-close_at, In-remaining, remaining-IsCounted, map-leave-IsCounted,
  In-map-leave, length-map-leave, All-append_one, begins-IsValid, length-remaining-le,
}

ends-IsValid : (request : ℕ) (f : Forge) → IsValid f → IsValid (step (ends request) f)
unfolding step
ends-IsValid request f v = record {
  current_counted = leave-IsCounted request f.current v.current_counted;
  current_open = leave-closed request f.current ∙ v.current_open;
  retired_counted = map-leave-IsCounted request f.retired v.retired_counted;
  served = λ q m.
      let (apart, i) = In-without_back q request f.in_flight m in still q apart (v.served q i);
  begun_current =
      All-intro (λ r. contains r (without_request request f.in_flight) ≡ true)
        (leave request f.current).inside
        (λ r m.
          let (apart, i) = leave-inside r request f.current m in
          In-contains (
            In-without r request f.in_flight apart (
              contains-In r f.in_flight
                (All-In (λ r. contains r f.in_flight ≡ true) v.begun_current i))));
  few_retired = omega (arith, length-map-leave request f.retired, v.few_retired);
  room = λ h. omega (arith, length-map-leave request f.retired, v.room h);
}
  where
    still :
        (q : ℕ)
        → q ≢ request
        → IsServed q f
        → IsServed q (record f {
          current = leave request f.current;
          retired = map (leave request) f.retired;
          in_flight = without_request request f.in_flight;
        })
    still q apart (by_current m) = by_current (In-leave q request f.current apart m)
    still q apart (by_retired g i m open_) =
        by_retired (leave request g) (In-map-leave request g f.retired i)
          (In-leave q request g apart m) (leave-closed request g ∙ open_)

closes-IsValid : (n : ℕ) (f : Forge) → IsValid f → IsValid (step (closes n) f)
unfolding step
closes-IsValid n f v = record {
  current_counted = v.current_counted;
  current_open = v.current_open;
  retired_counted = close_at-IsCounted n f.retired v.retired_counted;
  served = λ q m. still q (v.served q m);
  begun_current = v.begun_current;
  few_retired = omega (arith, length-close_at n f.retired, v.few_retired);
  room = λ h. omega (arith, length-close_at n f.retired, v.room h);
}
  where
    still : (q : ℕ) → IsServed q f → IsServed q (record f { retired = close_at n f.retired })
    still q (by_current m) = by_current m
    still q (by_retired g i m open_) =
        by_retired g
          (In-close_at n g f.retired (busy_inside q g (All-In IsCounted v.retired_counted i) m) i) m
          open_

reloads-IsValid : (f : Forge) → IsValid f → IsValid (step reloads f)
unfolding step
reloads-IsValid f v = elim (Bool-cases f.reloading) [
  | inl busy ↦ subst IsValid (sym (waits f busy)) v
  | inr free ↦ subst IsValid (sym (cleans f free)) cleaned
]
  where
    waits : (f : Forge) → f.reloading ≡ true → step reloads f ≡ f
    waits f h = simp h

    cleans :
        (f : Forge)
        → f.reloading ≡ false
        → step reloads f ≡ record f {
          retired = remaining f.retired;
          reloading = ltb (length (remaining f.retired)) 2;
        }
    cleans f h = simp h

    still :
        (q : ℕ)
        → IsServed q f
        → IsServed q (record f {
          retired = remaining f.retired;
          reloading = ltb (length (remaining f.retired)) 2;
        })
    still q (by_current m) = by_current m
    still q (by_retired g i m open_) =
        by_retired g
          (In-remaining g f.retired i open_
            (busy_inside q g (All-In IsCounted v.retired_counted i) m))
          m open_

    cleaned : IsValid (record f {
      retired = remaining f.retired;
      reloading = ltb (length (remaining f.retired)) 2;
    })
    cleaned = record {
      current_counted = v.current_counted;
      current_open = v.current_open;
      retired_counted = remaining-IsCounted f.retired v.retired_counted;
      served = λ q m. still q (v.served q m);
      begun_current = v.begun_current;
      few_retired = omega (arith, length-remaining-le f.retired, v.few_retired);
      room = λ h. ground arith;
    }

fails-IsValid : (signature : Option ℕ) (f : Forge) → IsValid f → IsValid (step (fails signature) f)
unfolding step
fails-IsValid signature f v = elim (Bool-cases f.reloading) [
  | inl on ↦ subst IsValid (sym (rejects f on)) rejected
  | inr off ↦ subst IsValid (sym (ignored f off)) v
]
  where
    ignored : (f : Forge) → f.reloading ≡ false → step (fails signature) f ≡ f
    ignored f h = simp h

    rejects :
        (f : Forge)
        → f.reloading ≡ true
        → step (fails signature) f
          ≡ record f { observed = seen signature f.observed; failed = true; reloading = false }
    rejects f h = simp h

    still :
        (q : ℕ)
        → IsServed q f
        → IsServed q
            (record f { observed = seen signature f.observed; failed = true; reloading = false })
    still q (by_current m) = by_current m
    still q (by_retired g i m open_) = by_retired g i m open_

    rejected :
        IsValid
          (record f { observed = seen signature f.observed; failed = true; reloading = false })
    rejected = record {
      current_counted = v.current_counted;
      current_open = v.current_open;
      retired_counted = v.retired_counted;
      served = λ q m. still q (v.served q m);
      begun_current = v.begun_current;
      few_retired = v.few_retired;
      room = λ h. cc;
    }

free-IsValid : (f : Forge) → IsValid f → IsValid (record f { reloading = false })
free-IsValid f v = record {
  current_counted = v.current_counted;
  current_open = v.current_open;
  retired_counted = v.retired_counted;
  served = λ q m. still q (v.served q m);
  begun_current = v.begun_current;
  few_retired = v.few_retired;
  room = λ h. cc;
}
  where
    still : (q : ℕ) → IsServed q f → IsServed q (record f { reloading = false })
    still q (by_current m) = by_current m
    still q (by_retired g i m open_) = by_retired g i m open_

finish-IsValid :
    (outcome : Outcome) (f : Forge) → f.reloading ≡ true → IsValid f → IsValid (finish outcome f)
unfolding finish
finish-IsValid unchanged f on v = free-IsValid f v
finish-IsValid superseded f on v = free-IsValid f v
finish-IsValid (applies signature projects) f on v = record {
  current_counted = fresh-IsCounted projects;
  current_open = unfold fresh in refl;
  retired_counted = All-append_one f.retired f.current v.retired_counted v.current_counted;
  served = λ q m. still q (v.served q m);
  begun_current = unfold fresh in tt;
  few_retired = omega (arith, length-append f.retired (f.current ∷ []), v.room on);
  room = λ h. cc;
}
  where
    still : (q : ℕ) → IsServed q f → IsServed q (finish (applies signature projects) f)
    still q (by_current m) = by_retired f.current (In-append_right f.retired here) m v.current_open
    still q (by_retired g i m open_) = by_retired g (In-append_left (f.current ∷ []) i) m open_

step-IsValid : (e : Event) (f : Forge) → IsValid f → IsValid (step e f)
step-IsValid (begins request) f v = begins-IsValid request f v
step-IsValid (ends request) f v = ends-IsValid request f v
step-IsValid (closes n) f v = closes-IsValid n f v
step-IsValid reloads f v = reloads-IsValid f v
step-IsValid (fails signature) f v = fails-IsValid signature f v
step-IsValid cancelled f v = unfold step in free-IsValid f v
step-IsValid (decides outcome) f v = elim (Bool-cases f.reloading) [
  | inl on ↦ subst IsValid (sym (finishes f on)) (finish-IsValid outcome f on v)
  | inr off ↦ subst IsValid (sym (ignored f off)) v
]
  where
    finishes : (f : Forge) → f.reloading ≡ true → step (decides outcome) f ≡ finish outcome f
    finishes f h = unfold step in simp h

    ignored : (f : Forge) → f.reloading ≡ false → step (decides outcome) f ≡ f
    ignored f h = unfold step in simp h

init-IsValid : (projects : List Project) (signature : ℕ) → IsValid (init projects signature)
unfolding init
init-IsValid projects signature = record {
  current_counted = fresh-IsCounted projects;
  current_open = unfold fresh in refl;
  retired_counted = tt;
  served = λ q m. absurd (not-In-nil m);
  begun_current = unfold fresh in tt;
  few_retired = omega arith;
  room = λ h. cc;
}

run-IsValid : (events : List Event) (f : Forge) → IsValid f → IsValid (run events f)
unfolding run
run-IsValid [] f v = v
run-IsValid (e ∷ events) f v = run-IsValid events (step e f) (step-IsValid e f v)

-- In every order of requests, closing tasks and reloads, successful or not: a request that has begun
-- and not ended is in the current generation or in a retired one that is not closed.
pub request-IsServed :
    (projects : List Project) (signature : ℕ) (events : List Event) (request : ℕ)
    → In request (run events (init projects signature)).in_flight
    → IsServed request (run events (init projects signature))
request-IsServed projects signature events request m =
    (run-IsValid events (init projects signature) (init-IsValid projects signature)).served request
      m

-- In every order of requests, closing tasks and reloads, no more than two retired generations are kept
-- besides the current one.
pub retired_le :
    (projects : List Project) (signature : ℕ) (events : List Event)
    → length (run events (init projects signature)).retired ≤ 2
retired_le projects signature events =
    (run-IsValid events (init projects signature) (init-IsValid projects signature)).few_retired
